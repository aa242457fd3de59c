-- ===== src/Wrapper/Lifecycle/Closed.antt =====
-- A failed initialization fails closed.
use mathlib.Core.List.{append_assoc}
use ahsir.Wrapper.Lifecycle.Marks.{set_phase-Unmarked, append-Unmarked, marks, Unmarked}
use ahsir.Wrapper.Lifecycle.Ready.{needs_init-Unmarked, unready, init_fails-Unmarked}
use ahsir.Wrapper.Lifecycle.Turns.{run_due, touched}
use ahsir.Wrapper.Lifecycle.Controller.{
  initialization_failed, turn_done, lifecycle, init_cause, initialize, or_business, run, init_ends,
  init_fails, phased, Turn, TurnError, World, Lifecycle, Oracle, emit,
}
use ahsir.Wrapper.Lifecycle.Store.{
  initialization_failure, initializing, session_initializing, session_initialization_failed,
  turn_outcome, idle, session, wants_init,
}
use ahsir.Prelude.{◌++◌, if_of_eq, ap, ◌∙◌, [], ◌∷◌, ℕ, ◌≡◌, none, some, refl, true, false, Bool}
use ahsir.Prelude.Text.{Text}

or_business_shut :
    (o : Oracle) (cfg : Lifecycle) (cid : Text) (t : Turn) (r : World × Bool)
    → r.1 ≡ false
    → or_business o cfg cid t r ≡ r.0
or_business_shut o cfg cid t (w, true) e = cc
or_business_shut o cfg cid t (w, false) e = refl

init_fails-shut :
    (o : Oracle) (cfg : Lifecycle) (cid turn_id : Text) (started : ℕ) (cause : TurnError)
    (w : World)
    → cfg.init_degraded ≡ false
    → let r = init_fails o cfg cid turn_id started cause w in
      (r.1 ≡ false)
      × (r.0.out
          ≡ w.out
            ++ (lifecycle session_initialization_failed turn_id idle none none (o.message cause)
                ∷ lifecycle turn_outcome turn_id idle
                    (some initialization_failure)
                    none
                    (o.message cause)
                ∷ turn_done (some (initialization_failed cause))
                ∷ []))
      × Unmarked w.store r.0.store
unfolding init_fails
init_fails-shut o cfg cid turn_id started cause w d = (
  ap (λ (r : World × Bool). r.1) (if_of_eq _ _ d),
  ap (λ (r : World × Bool). r.0.out) (if_of_eq _ _ d) ∙ simp append_assoc,
  init_fails-Unmarked o cfg cid turn_id started cause w d,
)

initialize_by :
    (o : Oracle) (cfg : Lifecycle) (cid : Text) (t : Turn) (w : World) (cause : TurnError)
    → init_cause t.init ≡ some cause
    → initialize o cfg cid t w
      ≡ init_fails o cfg cid t.init_id (o.clock w.ticks) cause (
          emit o cid session_initializing t.init_id initializing none none []
            (phased o cid initializing t.init_id w))
unfolding initialize init_ends
initialize_by o cfg cid t w cause f =
    ap
      (λ c. init_ends o cfg cid t.init_id (o.clock w.ticks) c (
        emit o cid session_initializing t.init_id initializing none none []
          (phased o cid initializing t.init_id w)))
      f

initialize_fails :
    (o : Oracle) (cfg : Lifecycle) (cid : Text) (t : Turn) (w : World) (cause : TurnError)
    → cfg.init_degraded ≡ false
    → init_cause t.init ≡ some cause
    → let r = initialize o cfg cid t w in
      (r.1 ≡ false)
      × (r.0.out
          ≡ w.out
            ++ (lifecycle session_initializing t.init_id initializing none none []
                ∷ lifecycle session_initialization_failed t.init_id idle none none (o.message cause)
                ∷ lifecycle turn_outcome t.init_id idle
                    (some initialization_failure)
                    none
                    (o.message cause)
                ∷ turn_done (some (initialization_failed cause))
                ∷ []))
      × Unmarked w.store r.0.store
unfolding emit
initialize_fails o cfg cid t w cause d f =
    let w1 : World =
      emit o cid session_initializing t.init_id initializing none none []
        (phased o cid initializing t.init_id w) in
    let same = initialize_by o cfg cid t w cause f in
    let (stop, shown, kept) = init_fails-shut o cfg cid t.init_id (o.clock w.ticks) cause w1 d in
    (
      ap (λ (r : World × Bool). r.1) same ∙ stop,
      ap (λ (r : World × Bool). r.0.out) same
          ∙ (shown
              ∙ append_assoc w.out
                  (lifecycle session_initializing t.init_id initializing none none [] ∷ []) _),
      λ c.
          ap (λ (r : World × Bool). marks (session c r.0.store)) same
          ∙ (kept c ∙ (append-Unmarked _ _ _ _ _ c ∙ set_phase-Unmarked _ _ _ _ _ c)),
    )

-- A session that is due for its initialization, under a card that does not tolerate a failure:
-- if the initialization fails, the turn sends only lifecycle events, whatever the business turn
-- would do, and ends with that failure, and the session stays due.
pub fails_closed :
    (o : Oracle) (cfg : Lifecycle) (cid : Text) (t : Turn) (w : World) (cause : TurnError)
    → cfg.init_enabled ≡ true
    → cfg.init_degraded ≡ false
    → wants_init cfg.version (session cid w.store) ≡ true
    → init_cause t.init ≡ some cause
    → let w' = run o cfg cid t w in
      (w'.out
        ≡ w.out
          ++ (lifecycle session_initializing t.init_id initializing none none []
              ∷ lifecycle session_initialization_failed t.init_id idle none none (o.message cause)
              ∷ lifecycle turn_outcome t.init_id idle
                  (some initialization_failure)
                  none
                  (o.message cause)
              ∷ turn_done (some (initialization_failed cause))
              ∷ []))
      × (wants_init cfg.version (session cid w'.store) ≡ true)
fails_closed o cfg cid t w cause e d due f =
    let start : World = touched cid cfg w in
    let r : World × Bool = initialize o cfg cid t start in
    let stops = initialize_fails o cfg cid t start cause d f in
    let same : run o cfg cid t w ≡ r.0 =
      run_due o cfg cid t w due e ∙ or_business_shut o cfg cid t r stops.0 in
    (
      ap (λ (u : World). u.out) same ∙ stops.1,
      ap (λ (u : World). wants_init cfg.version (session cid u.store)) same
          ∙ (ap (λ m. unready m cfg.version)
                (stops.2 cid ∙ needs_init-Unmarked cid cfg.version w.store cid)
              ∙ due),
    )
