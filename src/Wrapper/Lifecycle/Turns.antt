-- ===== src/Wrapper/Lifecycle/Turns.antt =====
-- How a turn begins, and the marks of the other sessions.
use ahsir.Wrapper.Lifecycle.Marks.{
  set_phase-Unmarked, record_outcome-Unmarked, append-Unmarked, run_business-Unmarked, marks,
  Unmarked,
}
use ahsir.Wrapper.Lifecycle.Ready.{init_fails-Unmarked, init_ends-Ready, Ready}
use ahsir.Wrapper.Lifecycle.Controller.{
  init_cause, initialize, or_business, run, init_ends, init_fails, Turn, TurnError, World,
  Lifecycle, Oracle, run_business,
}
use ahsir.Wrapper.Lifecycle.Store.{
  needs_init, mark_initialized, mark_init_degraded, commit, session, wants_init, Env,
  LifecycleStore, SessionLifecycle,
}
use ahsir.Prelude.{
  Bool-cases, ◌≢◌, inr, inl, ◌⊎◌, if_of_eq, if_neg, ap, ◌∙◌, ℕ, ◌≡◌, none, some, Option, refl, true,
  false, Bool,
}
use ahsir.Wrapper.Lifecycle.Effects.{session-commit}
use ahsir.Prelude.Text.{Text-discrete, Text}

-- The two ways of a turn of a card that initializes its sessions.
pub run_initialized :
    (o : Oracle) (cfg : Lifecycle) (cid : Text) (t : Turn) (w : World)
    → Ready cid cfg.version w.store
    → cfg.init_enabled ≡ true
    → run o cfg cid t w
      ≡ run_business o cfg cid t (record w { store = (needs_init cid cfg.version w.store).0 })
unfolding run needs_init
run_initialized o cfg cid t w r e = if_of_eq _ _ e ∙ if_of_eq _ _ r

pub run_due :
    (o : Oracle) (cfg : Lifecycle) (cid : Text) (t : Turn) (w : World)
    → wants_init cfg.version (session cid w.store) ≡ true
    → cfg.init_enabled ≡ true
    → run o cfg cid t w
      ≡ or_business o cfg cid t
          (initialize o cfg cid t (record w { store = (needs_init cid cfg.version w.store).0 }))
unfolding run needs_init
run_due o cfg cid t w r e = if_of_eq _ _ e ∙ if_of_eq _ _ r

pub mark-other :
    (v : Env) (cid k : Text) (rec : SessionLifecycle) (s : LifecycleStore)
    → cid ≢ k
    → marks (session k (commit v cid rec s)) ≡ marks (session k s)
mark-other v cid k rec s n =
    ap marks (session-commit v cid k rec s ∙ if_neg (Text-discrete cid k) n rec (session k s))

pub mark_init_degraded-other :
    (v : Env) (cid version k : Text) (s : LifecycleStore)
    → cid ≢ k
    → marks (session k (mark_init_degraded v cid version s)) ≡ marks (session k s)
unfolding mark_init_degraded
mark_init_degraded-other v cid version k s n = mark-other v cid k _ s n

pub mark_initialized-other :
    (v : Env) (cid version k : Text) (s : LifecycleStore)
    → cid ≢ k
    → marks (session k (mark_initialized v cid version s)) ≡ marks (session k s)
unfolding mark_initialized
mark_initialized-other v cid version k s n = mark-other v cid k _ s n

pub init_fails-other :
    (o : Oracle) (cfg : Lifecycle) (cid k turn_id : Text) (started : ℕ) (cause : TurnError)
    (w : World)
    → cid ≢ k
    → marks (session k (init_fails o cfg cid turn_id started cause w).0.store)
      ≡ marks (session k w.store)
unfolding init_fails
init_fails-other o cfg cid k turn_id started cause w n = elim (Bool-cases cfg.init_degraded) [
  | inr d ↦ init_fails-Unmarked o cfg cid turn_id started cause w d k
  | inl d ↦
      ap (λ (r : World × Bool). marks (session k r.0.store)) (if_of_eq _ _ d)
      ∙ (mark_init_degraded-other _ cid _ k _ n
          ∙ (append-Unmarked _ _ _ _ _ k
              ∙ (record_outcome-Unmarked _ _ _ _ _ k
                  ∙ (append-Unmarked _ _ _ _ _ k ∙ set_phase-Unmarked _ _ _ _ _ k))))
]

pub init_ends-other :
    (o : Oracle) (cfg : Lifecycle) (cid k turn_id : Text) (started : ℕ) (cause : Option TurnError)
    (w : World)
    → cid ≢ k
    → marks (session k (init_ends o cfg cid turn_id started cause w).0.store)
      ≡ marks (session k w.store)
unfolding init_ends
init_ends-other o cfg cid k turn_id started (some e) w n =
    init_fails-other o cfg cid k turn_id started e w n
init_ends-other o cfg cid k turn_id started none w n =
    append-Unmarked _ _ _ _ _ k
    ∙ (set_phase-Unmarked _ _ _ _ _ k ∙ mark_initialized-other _ cid _ k _ n)

pub initialize-other :
    (o : Oracle) (cfg : Lifecycle) (cid k : Text) (t : Turn) (w : World)
    → cid ≢ k
    → marks (session k (initialize o cfg cid t w).0.store) ≡ marks (session k w.store)
unfolding initialize
initialize-other o cfg cid k t w n =
    init_ends-other o cfg cid k t.init_id (o.clock w.ticks) (init_cause t.init) _ n
    ∙ (append-Unmarked _ _ _ _ _ k ∙ set_phase-Unmarked _ _ _ _ _ k)

pub or_business-Unmarked :
    (o : Oracle) (cfg : Lifecycle) (cid : Text) (t : Turn) (r : World × Bool)
    → Unmarked r.0.store (or_business o cfg cid t r).store
or_business-Unmarked o cfg cid t (w, true) c = run_business-Unmarked o cfg cid t w c
or_business-Unmarked o cfg cid t (w, false) c = refl

pub initialize-Ready :
    (o : Oracle) (cfg : Lifecycle) (cid : Text) (t : Turn) (w : World)
    → (init_cause t.init ≡ none) ⊎ (cfg.init_degraded ≡ true)
    → Ready cid cfg.version (initialize o cfg cid t w).0.store
unfolding initialize
initialize-Ready o cfg cid t w h =
    init_ends-Ready o cfg cid t.init_id (o.clock w.ticks) (init_cause t.init) _ h

abbrev pub touched : Text → Lifecycle → World → World
touched cid cfg w = record w { store = (needs_init cid cfg.version w.store).0 }
