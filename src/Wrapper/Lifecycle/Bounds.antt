-- ===== src/Wrapper/Lifecycle/Bounds.antt =====
-- The store of the lifecycle stays small (the bounds of lifecycle_store.go).
use mathlib.Core.Path.{subst}
use ahsir.Prelude.{
  if_neg, if_pos, inr, ◌∙◌, if_of_eq, sym, zero, suc, inl, ltb, take, length-append, Bool-cases,
  Bool, ◌-◌, length-drop, length-take-le, drop, ◌++◌, ◌≤◌, All, length, List, ℕ, Option, [], ◌∷◌,
  none, some, arith,
}
use ahsir.Prelude.Table.{get-put, get}
use ahsir.Wrapper.Lifecycle.Effects.{session-commit}
use ahsir.Wrapper.Lifecycle.Store.{
  or_blank, ellipsis, max_detail_bytes, max_message_bytes, max_events, session, max_err_bytes,
  Phase, commit, TurnOutcome, bound_string, mark_init_degraded, LifecycleEvent, needs_init,
  SessionLifecycle, Env, append, mark_initialized, bound_events, record_outcome, LifecycleStore,
  set_phase, new_lifecycle_store,
}
use ahsir.Wrapper.Lifecycle.Kept.{run_all-Inv}
use ahsir.Wrapper.Lifecycle.Once.{run_all}
use ahsir.Wrapper.Lifecycle.Controller.{Turn, Lifecycle, Oracle}
use ahsir.Prelude.Text.{Text-discrete, Text}

bound_string-le :
    (trim : Text → Text) (s : Text) (max : ℕ) → 3 ≤ max → length (bound_string trim s max) ≤ max
unfolding bound_string
bound_string-le trim s max h =
    let t = trim s in
    let cut = length-take-le (max - 3) t in
    let joined = length-append (take (max - 3) t) ellipsis in
    elim (Bool-cases (ltb max (length t))) [
      | inl e ↦
          let fits : length (take (max - 3) t ++ ellipsis) ≤ max = omega (arith, cut, joined, h) in
          subst (λ (u : Text). length u ≤ max) (sym (if_of_eq _ _ e)) fits
      | inr e ↦
          let fits : length t ≤ max = ground arith in
          subst (λ (u : Text). length u ≤ max) (sym (if_of_eq _ _ e)) fits
    ]

abbrev SmallDetail : LifecycleEvent → Type 0
SmallDetail ev = length ev.detail ≤ max_detail_bytes

abbrev pub SmallOutcome : Option TurnOutcome → Type 0
SmallOutcome none = Unit
SmallOutcome (some oc) =
    (length oc.error ≤ max_err_bytes) × (length oc.last_message ≤ max_message_bytes)

-- A session's record within the bounds.
abbrev pub SmallSession : SessionLifecycle → Type 0
SmallSession rec =
    (length rec.events ≤ max_events)
    × (All (λ (ev : LifecycleEvent). length ev.detail ≤ max_detail_bytes) rec.events
        × SmallOutcome rec.last_outcome)

abbrev pub Small : LifecycleStore → Type 0
Small s = (c : Text) → SmallSession (session c s)

commit-Small :
    (v : Env) (cid : Text) (rec : SessionLifecycle) (s : LifecycleStore)
    → SmallSession rec
    → Small s
    → Small (commit v cid rec s)
commit-Small v cid rec s h hs c = elim (Text-discrete cid c) [
  | yes p ↦
      subst SmallSession
        (sym (session-commit v cid c rec s ∙ if_pos (Text-discrete cid c) p rec (session c s))) h
  | no n ↦
      subst SmallSession
        (sym (session-commit v cid c rec s ∙ if_neg (Text-discrete cid c) n rec (session c s)))
        (hs c)
]

module _ {A : Type 0} (P : A → Type 0) where
  All-drop : (n : ℕ) (xs : List A) → All P xs → All P (drop n xs)
  All-drop zero xs h = h
  All-drop (suc n) [] h = h
  All-drop (suc n) (x ∷ xs) h = All-drop n xs h.1

  All-snoc : (xs : List A) (x : A) → All P xs → P x → All P (xs ++ (x ∷ []))
  All-snoc [] x h p = (p, tt)
  All-snoc (y ∷ ys) x h p = (h.0, All-snoc ys x h.1 p)

bound_events-Small :
    (evs : List LifecycleEvent)
    → All SmallDetail evs
    → (length (bound_events evs) ≤ max_events) × All SmallDetail (bound_events evs)
unfolding bound_events
bound_events-Small evs h =
    let P : List LifecycleEvent → Type 0 = λ u. (length u ≤ max_events) × All SmallDetail u in
    let cut = length-drop (length evs - max_events) evs in
    elim (Bool-cases (ltb max_events (length evs))) [
      | inl e ↦
          subst P (sym (if_of_eq _ _ e))
            (omega (arith, cut), All-drop SmallDetail (length evs - max_events) evs h)
      | inr e ↦ subst P (sym (if_of_eq _ _ e)) (ground arith, h)
    ]

append-Small :
    (trim : Text → Text) (v : Env) (cid : Text) (ev : LifecycleEvent) (s : LifecycleStore)
    → Small s
    → Small (append trim v cid ev s)
unfolding append
append-Small trim v cid ev s h =
    let (some_events, (details, outcome)) = h cid in
    let (few, kept) = bound_events-Small _ (
      All-snoc SmallDetail (session cid s).events _ details
        (bound_string-le trim ev.detail max_detail_bytes (omega arith))) in
    commit-Small v cid _ _ (few, (kept, outcome)) h

record_outcome-Small :
    (trim : Text → Text) (v : Env) (cid : Text) (oc : TurnOutcome) (s : LifecycleStore)
    → Small s
    → Small (record_outcome trim v cid oc s)
unfolding record_outcome
record_outcome-Small trim v cid oc s h =
    let (few, (details, outcome)) = h cid in
    commit-Small v cid _ s
      (
        few,
        (
          details,
          (
            bound_string-le trim oc.error max_err_bytes (omega arith),
            bound_string-le trim oc.last_message max_message_bytes (omega arith),
          ),
        ),
      )
      h

set_phase-Small :
    (v : Env) (cid : Text) (ph : Phase) (t : Text) (s : LifecycleStore)
    → Small s
    → Small (set_phase v cid ph t s)
unfolding set_phase
set_phase-Small v cid ph t s h = commit-Small v cid _ s (h cid) h

mark_initialized-Small :
    (v : Env) (cid version : Text) (s : LifecycleStore)
    → Small s
    → Small (mark_initialized v cid version s)
unfolding mark_initialized
mark_initialized-Small v cid version s h = commit-Small v cid _ s (h cid) h

mark_init_degraded-Small :
    (v : Env) (cid version : Text) (s : LifecycleStore)
    → Small s
    → Small (mark_init_degraded v cid version s)
unfolding mark_init_degraded
mark_init_degraded-Small v cid version s h = commit-Small v cid _ s (h cid) h

needs_init-Small :
    (cid version : Text) (s : LifecycleStore) → Small s → Small (needs_init cid version s).0
unfolding needs_init
needs_init-Small cid version s h c = elim (Text-discrete cid c) [
  | yes p ↦
      subst (λ (u : Option SessionLifecycle). SmallSession (or_blank u))
        (sym (
          get-put Text-discrete cid c (session cid s) s.sessions
          ∙ if_pos (Text-discrete cid c) p (some (session cid s)) (get Text-discrete c s.sessions)))
        (h cid)
  | no n ↦
      subst (λ (u : Option SessionLifecycle). SmallSession (or_blank u))
        (sym (
          get-put Text-discrete cid c (session cid s) s.sessions
          ∙ if_neg (Text-discrete cid c) n (some (session cid s)) (get Text-discrete c s.sessions)))
        (h c)
]

-- After any turns of any sessions from an empty store, whatever the providers send: each session has
-- at most 500 events, of at most 512 bytes of detail each, and its last outcome has at most 1024
-- bytes of error and 4096 bytes of message.
pub run_all-Small :
    (o : Oracle) (cfg : Lifecycle) (ts : List (Text × Turn)) (persistent : Bool) (c : Text)
    → let s = new_lifecycle_store persistent none in
      SmallSession (session c (run_all o cfg ts (record { store = s; out = []; ticks = 0 })).store)
unfolding new_lifecycle_store get
run_all-Small o cfg ts persistent =
    run_all-Inv o Small (append-Small o.trim) (record_outcome-Small o.trim) set_phase-Small
      mark_initialized-Small mark_init_degraded-Small needs_init-Small cfg ts
      (record { store = new_lifecycle_store persistent none; out = []; ticks = 0 })
      (λ k. (omega arith, (tt, tt)))
