-- ===== src/Wrapper/Lifecycle/Truth.antt =====
-- How a business turn ends, by what its provider turns did.
use ahsir.Wrapper.Lifecycle.Controller.{
  plain_outcome, finish_turn, parts, terminal, phased, streamed, not_started, finalize_by, World,
  finish, not_opened, Lifecycle, business_ends, Attempt, run_business, Oracle, finalize, decide,
  finalize_ends, Turn, TurnError, final_verdict, Decision,
}
use ahsir.Wrapper.Lifecycle.Store.{
  canceled, runtime_timeout, TurnOutcome, graceful_stop, soft_deadline, turn_running,
  turn_soft_deadline, turn_finalizing, running, finalizing, Trigger, completed, Phase, Kind,
}
use ahsir.Wrapper.Lifecycle.Effects.{
  forward-Quiet, stored-Quiet, Quiet-Ended, emit-Quiet, Ended, finish_turn-Ended, Quiet,
  finish_turn-Settled, Quiet-trans, Settled,
}
use ahsir.Prelude.{◌||◌, ◌&&◌, ◌⊎◌, ◌↔◌, ℕ, ◌≡◌, none, some, Option, arith, refl, true, false, Bool}
use ahsir.Prelude.Text.{Text}

abbrev is_none : Option TurnError → Bool
is_none none = true
is_none (some e) = false

-- The kind of a turn's outcome, whether it was finalized, and the error that it ends with.
pub record Verdict : Type 0 where
  pub kind : Kind
  pub finalized : Bool
  pub err : Option TurnError

abbrev pub judge : Decision → Attempt → Verdict
judge (finish kind err) final = record { kind = kind; finalized = false; err = err }
judge (finalize_by trigger kind) final = record {
  kind = (final_verdict kind final).0;
  finalized = is_none (final_verdict kind final).1;
  err = (final_verdict kind final).1;
}

-- The stream ends once, by the verdict, and the session is settled by it.
pub record Ends (cid : Text) (w w' : World) (v : Verdict) : Type 0 where
  pub settled : Settled cid w'.store v.kind v.finalized
  pub ended : Ended w w' v.err

Quiet-Ends :
    {cid : Text} {u w w' : World} {v : Verdict} → Quiet u w → Ends cid w w' v → Ends cid u w' v
Quiet-Ends q e = record { settled = e.settled; ended = Quiet-Ended q e.ended }

finish_turn-Ends :
    (o : Oracle) (cid : Text) (oc : TurnOutcome) (err : Option TurnError) (w : World)
    → Ends cid w
        (finish_turn o cid oc err w)
        (record { kind = oc.kind; finalized = oc.finalized; err = err })
finish_turn-Ends o cid oc err w = record {
  settled = finish_turn-Settled o cid oc err w;
  ended = finish_turn-Ended o cid oc err w;
}

finalize_ends-Ends :
    (o : Oracle) (cfg : Lifecycle) (cid : Text) (t : Text) (tr : Trigger) (started grace : ℕ)
    (kind : Kind) (err : Option TurnError) (last : Text) (w : World)
    → Ends cid w
        (finalize_ends o cfg cid t tr started grace kind err last w)
        (record { kind = kind; finalized = is_none err; err = err })
unfolding finalize_ends
finalize_ends-Ends o cfg cid t tr started grace kind none last w =
    Quiet-Ends (emit-Quiet o cid _ _ _ _ _ _ w) (finish_turn-Ends o cid _ _ _)
finalize_ends-Ends o cfg cid t tr started grace kind (some e) last w =
    Quiet-Ends (emit-Quiet o cid _ _ _ _ _ _ w) (finish_turn-Ends o cid _ _ _)

phased-Quiet :
    (o : Oracle) (cid : Text) (ph : Phase) (t : Text) (w : World) → Quiet w (phased o cid ph t w)
phased-Quiet o cid ph t w = stored-Quiet w _ refl

finalize-Ends :
    (o : Oracle) (cfg : Lifecycle) (cid : Text) (t : Turn) (tr : Trigger) (kind : Kind)
    (started : ℕ) (partial : Text) (w : World)
    → Ends cid w
        (finalize o cfg cid t tr kind started partial w)
        (judge (finalize_by tr kind) t.final)
unfolding finalize
finalize-Ends o cfg cid t tr kind started partial w =
    Quiet-Ends
      (Quiet-trans (phased-Quiet o cid finalizing t.turn_id w) (
        Quiet-trans (emit-Quiet o cid turn_finalizing _ _ _ _ _ _)
          (Quiet-trans (stored-Quiet _ _ refl) (forward-Quiet (parts t.final) _))))
      (finalize_ends-Ends o cfg cid t.turn_id tr started _ _ _ _ _)

business_ends-Ends :
    (o : Oracle) (cfg : Lifecycle) (cid : Text) (t : Turn) (started : ℕ) (partial : Text)
    (d : Decision) (w : World)
    → Ends cid w (business_ends o cfg cid t started partial d w) (judge d t.final)
unfolding business_ends
business_ends-Ends o cfg cid t started partial (finish kind err) w =
    finish_turn-Ends o cid (plain_outcome o cfg t.turn_id started kind err partial w) err w
business_ends-Ends o cfg cid t started partial (finalize_by soft_deadline kind) w =
    Quiet-Ends (emit-Quiet o cid turn_soft_deadline _ _ _ _ _ w)
      (finalize-Ends o cfg cid t soft_deadline kind started partial _)
business_ends-Ends o cfg cid t started partial (finalize_by graceful_stop kind) w =
    finalize-Ends o cfg cid t graceful_stop kind started partial w

pub run_business-Ends :
    (o : Oracle) (cfg : Lifecycle) (cid : Text) (t : Turn) (w : World)
    → Ends cid w
        (run_business o cfg cid t w)
        (judge (decide cfg.finalize_enabled t.business) t.final)
unfolding run_business
run_business-Ends o cfg cid t w =
    Quiet-Ends
      (Quiet-trans (phased-Quiet o cid running t.turn_id w) (
        Quiet-trans (emit-Quiet o cid turn_running _ _ _ _ _ _)
          (forward-Quiet (parts t.business) _)))
      (business_ends-Ends o cfg cid t _ _ _ _)

-- The provider ended the business turn well, and no deadline or cancellation is in force.
abbrev pub EndedWell : Bool → Attempt → Type 0
EndedWell finalizes (not_opened e) = ⊥
EndedWell finalizes (not_started e) = ⊥
EndedWell finalizes (streamed evs deadline gone) =
    (terminal evs ≡ some none) × (finalizes && (deadline || gone) ≡ false)

-- A deadline or a cancellation cut the business turn off.
abbrev pub CutOff : Bool → Attempt → Type 0
CutOff finalizes (not_opened e) = ⊥
CutOff finalizes (not_started e) = ⊥
CutOff finalizes (streamed evs deadline gone) = finalizes && (deadline || gone) ≡ true

-- The finalize turn ended well within its grace.
abbrev pub FinalizedWell : Attempt → Type 0
FinalizedWell (not_opened e) = ⊥
FinalizedWell (not_started e) = ⊥
FinalizedWell (streamed evs deadline gone) = (terminal evs ≡ some none) × (deadline ≡ false)

pub record Truthful (finalizes : Bool) (business final : Attempt) (v : Verdict) : Type 0 where
  pub completed_iff : (v.kind ≡ completed) ↔ EndedWell finalizes business
  pub finalized_iff : (v.finalized ≡ true) ↔ (CutOff finalizes business × FinalizedWell final)
  pub well_iff :
      (v.err ≡ none)
      ↔ (EndedWell finalizes business ⊎ (CutOff finalizes business × FinalizedWell final))

final_verdict_truth :
    (kind : Kind) (a : Attempt)
    → (((final_verdict kind a).1 ≡ none) ↔ FinalizedWell a)
      × ((final_verdict kind a).0 ≡ completed → kind ≡ completed)
unfolding final_verdict
final_verdict_truth kind (not_opened e) = ((λ p. cc, λ h. absurd h), λ p. cc)
final_verdict_truth kind (not_started e) = ((λ p. cc, λ h. absurd h), λ p. cc)
final_verdict_truth kind (streamed evs deadline gone) =
    ((λ h. ground arith, λ h. ground arith), λ h. ground arith)

judge-Truthful :
    (finalizes : Bool) (business final : Attempt)
    → Truthful finalizes business final (judge (decide finalizes business) final)
unfolding decide
judge-Truthful f (not_opened e) final = record {
  completed_iff = (λ h. cc, λ h. absurd h);
  finalized_iff = (λ h. cc, λ h. absurd h.0);
  well_iff = (λ h. cc, λ h. ground arith);
}
judge-Truthful f (not_started e) final = record {
  completed_iff = (λ h. cc, λ h. absurd h);
  finalized_iff = (λ h. cc, λ h. absurd h.0);
  well_iff = (λ h. cc, λ h. ground arith);
}
judge-Truthful f (streamed evs deadline gone) final =
    let by_deadline = final_verdict_truth runtime_timeout final in
    let by_cancel = final_verdict_truth canceled final in
    record {
      completed_iff = (λ h. ground (arith, by_deadline, by_cancel), λ h. ground arith);
      finalized_iff = (
        λ h. ground (arith, by_deadline, by_cancel),
        λ h. ground (arith, by_deadline, by_cancel),
      );
      well_iff = (
        λ h. ground (arith, by_deadline, by_cancel),
        λ h. ground (arith, by_deadline, by_cancel),
      );
    }

-- A business turn, whatever the provider does, sends events of which the last one alone is
-- terminal, leaves the session idle and without a turn, and records one outcome. A turn is cut off
-- if its card finalizes, and the work deadline or a cancellation was in force at the end of its
-- stream. The outcome is `completed` exactly if the stream ended by a terminal event without an
-- error and the turn was not cut off; it is finalized exactly if the turn was cut off and the
-- finalize turn ended by such an event within its grace; and the terminal event has no error exactly
-- in these two cases.
pub run_business-Truthful :
    (o : Oracle) (cfg : Lifecycle) (cid : Text) (t : Turn) (w : World)
    → (v : Verdict) × Ends cid w (run_business o cfg cid t w) v
      × Truthful cfg.finalize_enabled t.business t.final v
run_business-Truthful o cfg cid t w = (
  judge (decide cfg.finalize_enabled t.business) t.final,
  run_business-Ends o cfg cid t w,
  judge-Truthful cfg.finalize_enabled t.business t.final,
)
