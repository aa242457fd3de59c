-- ===== src/Wrapper/Lifecycle/Marks.antt =====
-- What of a session's record the steps of a turn leave as it is.
use ahsir.Wrapper.Lifecycle.Controller.{
  forward, decide, parts, final_verdict, last_text, finalize_by, plain_outcome, finish, phased,
  Decision, env, Turn, TurnError, World, Lifecycle, Oracle, finalize_ends, finalize, emit,
  business_ends, finish_turn, run_business,
}
use ahsir.Wrapper.Lifecycle.Store.{
  LifecycleEvent, turn_finalization_failed, idle, graceful_stop, soft_deadline, turn_finalizing,
  turn_finalized, turn_soft_deadline, running, finalizing, Trigger, turn_running, Kind, TurnOutcome,
  commit, Phase, session, append, record_outcome, Env, LifecycleStore, SessionLifecycle, set_phase,
}
use ahsir.Prelude.{
  ◌%◌, ◌+◌, if_neg, if_pos, ap, ◌∙◌, [], ℕ, ◌≡◌, none, some, Option, refl, Bool, suc,
}
use ahsir.Prelude.Decimal.{u64}
use ahsir.Wrapper.Lifecycle.Effects.{session-commit}
use ahsir.Prelude.Text.{Text-discrete, Text}

-- What `NeedsInit` reads.
pub record Marks : Type 0 where
  pub initialized : Bool
  pub degraded : Bool
  pub version : Text

abbrev pub marks : SessionLifecycle → Marks
marks rec = record {
  initialized = rec.initialized;
  degraded = rec.init_degraded;
  version = rec.lifecycle_version;
}

abbrev pub Unmarked : LifecycleStore → LifecycleStore → Type 0
Unmarked s s' = (c : Text) → marks (session c s') ≡ marks (session c s)

pub Unmarked-trans : (a b c : LifecycleStore) → Unmarked a b → Unmarked b c → Unmarked a c
Unmarked-trans a b c p q k = q k ∙ p k

pub commit-Unmarked :
    (v : Env) (cid : Text) (rec : SessionLifecycle) (s : LifecycleStore)
    → marks rec ≡ marks (session cid s)
    → Unmarked s (commit v cid rec s)
commit-Unmarked v cid rec s e c = elim (Text-discrete cid c) [
  | yes p ↦
      ap marks (session-commit v cid c rec s ∙ if_pos (Text-discrete cid c) p rec (session c s))
      ∙ (e ∙ ap (λ k. marks (session k s)) p)
  | no n ↦
      ap marks (session-commit v cid c rec s ∙ if_neg (Text-discrete cid c) n rec (session c s))
]

pub append-Unmarked :
    (trim : Text → Text) (v : Env) (cid : Text) (ev : LifecycleEvent) (s : LifecycleStore)
    → Unmarked s (append trim v cid ev s)
unfolding append
append-Unmarked trim v cid ev s =
    commit-Unmarked v cid _ (record s { seq = (s.seq + 1) % u64 }) refl

pub set_phase-Unmarked :
    (v : Env) (cid : Text) (ph : Phase) (t : Text) (s : LifecycleStore)
    → Unmarked s (set_phase v cid ph t s)
unfolding set_phase
set_phase-Unmarked v cid ph t s = commit-Unmarked v cid _ s refl

pub record_outcome-Unmarked :
    (trim : Text → Text) (v : Env) (cid : Text) (oc : TurnOutcome) (s : LifecycleStore)
    → Unmarked s (record_outcome trim v cid oc s)
unfolding record_outcome
record_outcome-Unmarked trim v cid oc s = commit-Unmarked v cid _ s refl

pub finish_turn-Unmarked :
    (o : Oracle) (cid : Text) (oc : TurnOutcome) (err : Option TurnError) (w : World)
    → Unmarked w.store (finish_turn o cid oc err w).store
unfolding finish_turn
finish_turn-Unmarked o cid oc err w c =
    append-Unmarked _ _ _ _ _ c ∙ record_outcome-Unmarked o.trim (env o w) cid oc w.store c

pub finalize_ends-Unmarked :
    (o : Oracle) (cfg : Lifecycle) (cid : Text) (t : Text) (tr : Trigger) (started grace : ℕ)
    (kind : Kind) (err : Option TurnError) (last : Text) (w : World)
    → Unmarked w.store (finalize_ends o cfg cid t tr started grace kind err last w).store
unfolding finalize_ends
finalize_ends-Unmarked o cfg cid t tr started grace kind none last w c =
    let w1 : World = emit o cid turn_finalized t idle none (some tr) [] w in
    finish_turn-Unmarked o cid _ none w1 c ∙ append-Unmarked _ _ _ _ _ c
finalize_ends-Unmarked o cfg cid t tr started grace kind (some e) last w c =
    let w1 : World =
      emit o cid turn_finalization_failed t idle (some kind) (some tr) (o.message e) w in
    finish_turn-Unmarked o cid _ (some e) w1 c ∙ append-Unmarked _ _ _ _ _ c

pub finalize-Unmarked :
    (o : Oracle) (cfg : Lifecycle) (cid : Text) (t : Turn) (tr : Trigger) (kind : Kind)
    (started : ℕ) (partial : Text) (w : World)
    → Unmarked w.store (finalize o cfg cid t tr kind started partial w).store
unfolding finalize
finalize-Unmarked o cfg cid t tr kind started partial w c =
    let w1 : World =
      emit o cid turn_finalizing t.turn_id finalizing none (some tr) []
        (phased o cid finalizing t.turn_id w) in
    let v = final_verdict kind t.final in
    finalize_ends-Unmarked o cfg cid t.turn_id tr started (o.clock w1.ticks) v.0 v.1 _
      (forward (parts t.final) (record w1 { ticks = suc w1.ticks })) c
    ∙ (append-Unmarked _ _ _ _ _ c ∙ set_phase-Unmarked _ _ _ _ _ c)

pub business_ends-Unmarked :
    (o : Oracle) (cfg : Lifecycle) (cid : Text) (t : Turn) (started : ℕ) (partial : Text)
    (d : Decision) (w : World)
    → Unmarked w.store (business_ends o cfg cid t started partial d w).store
unfolding business_ends
business_ends-Unmarked o cfg cid t started partial (finish kind err) w c =
    finish_turn-Unmarked o cid (plain_outcome o cfg t.turn_id started kind err partial w) err w c
business_ends-Unmarked o cfg cid t started partial (finalize_by soft_deadline kind) w c =
    finalize-Unmarked o cfg cid t soft_deadline kind started partial
      (emit o cid turn_soft_deadline t.turn_id running none none [] w) c
    ∙ append-Unmarked _ _ _ _ _ c
business_ends-Unmarked o cfg cid t started partial (finalize_by graceful_stop kind) w c =
    finalize-Unmarked o cfg cid t graceful_stop kind started partial w c

pub run_business-Unmarked :
    (o : Oracle) (cfg : Lifecycle) (cid : Text) (t : Turn) (w : World)
    → Unmarked w.store (run_business o cfg cid t w).store
unfolding run_business
run_business-Unmarked o cfg cid t w c =
    let w1 : World =
      forward (parts t.business) (
        emit o cid turn_running t.turn_id running none none []
          (phased o cid running t.turn_id w)) in
    business_ends-Unmarked o cfg cid t (o.clock w.ticks) (last_text (parts t.business) [])
      (decide cfg.finalize_enabled t.business) w1 c
    ∙ (append-Unmarked _ _ _ _ _ c ∙ set_phase-Unmarked _ _ _ _ _ c)
