-- ===== src/Wrapper/Lifecycle/Effects.antt =====
-- What each step of a turn does to the stream and to the sessions' records.
use mathlib.Core.List.{append-nil, append_assoc}
use ahsir.Wrapper.Lifecycle.Store.{
  TurnOutcome, record_outcome, idle, Trigger, Kind, session, Phase, LifecycleStore, EventType, Env,
  append, SessionLifecycle, commit,
}
use ahsir.Prelude.{
  ite, if_neg, if_pos, ◌+◌, ap, tally, ◌∙◌, sym, ◌++◌, [], ◌∷◌, ◌≡◌, some, Option, arith, refl,
  Bool, List,
}
use ahsir.Wrapper.Lifecycle.Controller.{
  finish_turn, settle_outcome, env, lifecycle, send, turn_done, is_done, forward, TurnError, Oracle,
  World, emit, forwarded, StreamEvent,
}
use ahsir.Prelude.Text.{Text-discrete, Text}
use ahsir.Prelude.Table.{get-put}

-- A record without its log.
abbrev pub core : SessionLifecycle → SessionLifecycle
core rec = record rec { events = [] }

pub session-commit :
    (v : Env) (cid k : Text) (rec : SessionLifecycle) (s : LifecycleStore)
    → session k (commit v cid rec s) ≡ ite (Text-discrete cid k) rec (session k s)
unfolding commit
session-commit v cid k rec s = ground (arith, get-put Text-discrete cid k rec s.sessions)

-- The stream grows by events none of which is terminal, and no record changes but its log.
pub record Quiet (w w' : World) : Type 0 where
  pub added : List StreamEvent
  pub grown : w'.out ≡ w.out ++ added
  pub silent : tally is_done added ≡ 0

pub Quiet-refl : (w : World) → Quiet w w
Quiet-refl w = record { added = []; grown = sym (append-nil w.out); silent = refl }

tally-append :
    (xs ys : List StreamEvent) → tally is_done (xs ++ ys) ≡ tally is_done xs + tally is_done ys
tally-append [] ys = omega arith
tally-append (x ∷ xs) ys = ground (arith, tally-append xs ys)

pub Quiet-trans : {u v w : World} → Quiet u v → Quiet v w → Quiet u w
Quiet-trans {u} {v} {w} p q = record {
  added = p.added ++ q.added;
  grown = q.grown ∙ (ap (λ xs. xs ++ q.added) p.grown ∙ append_assoc u.out p.added q.added);
  silent = omega (arith, tally-append p.added q.added, p.silent, q.silent);
}

pub emit-Quiet :
    (o : Oracle) (cid : Text) (e : EventType) (t : Text) (ph : Phase) (k : Option Kind)
    (tr : Option Trigger) (d : Text) (w : World)
    → Quiet w (emit o cid e t ph k tr d w)
unfolding emit
emit-Quiet o cid e t ph k tr d w = record {
  added = lifecycle e t ph k tr d ∷ [];
  grown = refl;
  silent = refl;
}

-- A change of the store alone.
pub stored-Quiet : (w w' : World) → w'.out ≡ w.out → Quiet w w'
stored-Quiet w w' e = record { added = []; grown = e ∙ sym (append-nil w.out); silent = refl }

forwarded_silent : (evs : List StreamEvent) → tally is_done (forwarded evs) ≡ 0
unfolding forwarded
forwarded_silent [] = refl
forwarded_silent (ev ∷ evs) = ground (arith, forwarded_silent evs)

pub forward-Quiet : (evs : List StreamEvent) (w : World) → Quiet w (forward evs w)
forward-Quiet evs w = record { added = forwarded evs; grown = refl; silent = forwarded_silent evs }

-- The stream goes on quietly and then ends with one terminal event.
pub record Ended (w w' : World) (err : Option TurnError) : Type 0 where
  pub before : List StreamEvent
  pub grown : w'.out ≡ w.out ++ (before ++ (turn_done err ∷ []))
  pub silent : tally is_done before ≡ 0

pub Quiet-Ended :
    {u v w : World} {err : Option TurnError} → Quiet u v → Ended v w err → Ended u w err
Quiet-Ended {u} {v} {w} {err} p q = record {
  before = p.added ++ q.before;
  grown =
      q.grown
      ∙ (ap (λ xs. xs ++ (q.before ++ (turn_done err ∷ []))) p.grown
          ∙ (append_assoc u.out p.added (q.before ++ (turn_done err ∷ []))
              ∙ ap (λ xs. u.out ++ xs) (sym (append_assoc p.added q.before (turn_done err ∷ [])))));
  silent = omega (arith, tally-append p.added q.before, p.silent, q.silent);
}

pub sent-Ended :
    {w v : World} {err : Option TurnError} → Quiet w v → Ended w (send (turn_done err) v) err
sent-Ended {w} {v} {err} p = record {
  before = p.added;
  grown =
      ap (λ xs. xs ++ (turn_done err ∷ [])) p.grown
      ∙ append_assoc w.out p.added (turn_done err ∷ []);
  silent = p.silent;
}

pub core-commit :
    (v : Env) (cid c : Text) (rec : SessionLifecycle) (s : LifecycleStore)
    → core rec ≡ core (session cid s)
    → core (session c (commit v cid rec s)) ≡ core (session c s)
core-commit v cid c rec s e = elim (Text-discrete cid c) [
  | yes p ↦
      ap core (session-commit v cid c rec s ∙ if_pos (Text-discrete cid c) p rec (session c s))
      ∙ (e ∙ ap (λ k. core (session k s)) p)
  | no n ↦ ap core (session-commit v cid c rec s ∙ if_neg (Text-discrete cid c) n rec (session c s))
]

-- An event changes only logs.
pub core-emit :
    (o : Oracle) (cid : Text) (e : EventType) (t : Text) (ph : Phase) (k : Option Kind)
    (tr : Option Trigger) (d : Text) (w : World) (c : Text)
    → core (session c (emit o cid e t ph k tr d w).store) ≡ core (session c w.store)
unfolding emit append
core-emit o cid e t ph k tr d w c = core-commit (env o w) cid c _ _ refl

pub session-commit_self :
    (v : Env) (cid : Text) (rec : SessionLifecycle) (s : LifecycleStore)
    → session cid (commit v cid rec s) ≡ rec
session-commit_self v cid rec s =
    session-commit v cid cid rec s ∙ if_pos (Text-discrete cid cid) refl rec (session cid s)

-- The terminal record of a turn.
pub record Settled (cid : Text) (s : LifecycleStore) (kind : Kind) (finalized : Bool) : Type 0 where
  pub resting : (session cid s).phase ≡ idle
  pub no_turn : (session cid s).current_turn_id ≡ []
  pub outcome : TurnOutcome
  pub recorded : (session cid s).last_outcome ≡ some outcome
  pub kind_is : outcome.kind ≡ kind
  pub finalized_is : outcome.finalized ≡ finalized

pub Settled-core :
    {cid : Text} {s s' : LifecycleStore} {kind : Kind} {fin : Bool}
    → core (session cid s') ≡ core (session cid s)
    → Settled cid s kind fin
    → Settled cid s' kind fin
Settled-core e t = record {
  resting = ap (λ r. r.phase) e ∙ t.resting;
  no_turn = ap (λ r. r.current_turn_id) e ∙ t.no_turn;
  outcome = t.outcome;
  recorded = ap (λ r. r.last_outcome) e ∙ t.recorded;
  kind_is = t.kind_is;
  finalized_is = t.finalized_is;
}

pub settle_outcome-Settled :
    (o : Oracle) (cid : Text) (oc : TurnOutcome) (w : World)
    → Settled cid (settle_outcome o cid oc w).store oc.kind oc.finalized
unfolding settle_outcome record_outcome
settle_outcome-Settled o cid oc w =
    let e = session-commit_self (env o w) cid _ w.store in
    record {
      resting = ap (λ r. r.phase) e;
      no_turn = ap (λ r. r.current_turn_id) e;
      outcome = _;
      recorded = ap (λ r. r.last_outcome) e;
      kind_is = refl;
      finalized_is = refl;
    }

-- `finishTurn` ends the stream and settles the session.
pub finish_turn-Settled :
    (o : Oracle) (cid : Text) (oc : TurnOutcome) (err : Option TurnError) (w : World)
    → Settled cid (finish_turn o cid oc err w).store oc.kind oc.finalized
unfolding finish_turn
finish_turn-Settled o cid oc err w =
    Settled-core (core-emit o cid _ _ _ _ _ _ (settle_outcome o cid oc w) cid)
      (settle_outcome-Settled o cid oc w)

pub finish_turn-Ended :
    (o : Oracle) (cid : Text) (oc : TurnOutcome) (err : Option TurnError) (w : World)
    → Ended w (finish_turn o cid oc err w) err
unfolding finish_turn settle_outcome
finish_turn-Ended o cid oc err w =
    sent-Ended (
      Quiet-trans (stored-Quiet w (settle_outcome o cid oc w) refl)
        (emit-Quiet o cid _ _ _ _ _ _ _))
