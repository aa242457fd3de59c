-- ===== src/Wrapper/Lifecycle/Kept.antt =====
-- A property of the store that its operations keep is kept by every turn.
use mathlib.Core.Path.{subst}
use ahsir.Wrapper.Lifecycle.Controller.{
  last_text, init_cause, final_verdict, parts, phased, forward, finalize_by, or_business, decide,
  finish, Decision, TurnError, World, Turn, settle_outcome, run_business, finish_turn, finalize,
  Lifecycle, finalize_ends, business_ends, init_ends, init_fails, run, initialize, emit, Oracle,
}
use ahsir.Wrapper.Lifecycle.Store.{
  graceful_stop, turn_running, soft_deadline, turn_finalization_failed, turn_finalized,
  turn_finalizing, turn_soft_deadline, session_initializing, initializing, finalizing, running,
  Kind, EventType, Trigger, needs_init, mark_init_degraded, mark_initialized, set_phase, Phase,
  record_outcome, TurnOutcome, append, LifecycleEvent, Env, LifecycleStore, idle,
}
use ahsir.Prelude.{
  suc, ◌∙◌, if_of_eq, sym, inr, inl, Bool, Bool-cases, Option, ℕ, List, [], ◌∷◌, none, some, true,
  false,
}
use ahsir.Wrapper.Lifecycle.Once.{run_all}
use ahsir.Prelude.Text.{Text}

module _ (o : Oracle) (Inv : LifecycleStore → Type 0)
    (kept-append : (v : Env) (cid : Text) (ev : LifecycleEvent) (s : LifecycleStore)
      → Inv s
      → Inv (append o.trim v cid ev s))
    (kept-outcome : (v : Env) (cid : Text) (oc : TurnOutcome) (s : LifecycleStore)
      → Inv s
      → Inv (record_outcome o.trim v cid oc s))
    (kept-phase : (v : Env) (cid : Text) (ph : Phase) (t : Text) (s : LifecycleStore)
      → Inv s
      → Inv (set_phase v cid ph t s))
    (kept-initialized : (v : Env) (cid version : Text) (s : LifecycleStore)
      → Inv s
      → Inv (mark_initialized v cid version s))
    (kept-degraded : (v : Env) (cid version : Text) (s : LifecycleStore)
      → Inv s
      → Inv (mark_init_degraded v cid version s))
    (kept-needs : (cid version : Text) (s : LifecycleStore)
      → Inv s
      → Inv (needs_init cid version s).0) where
  emit-Inv :
      (cid : Text) (event : EventType) (t : Text) (ph : Phase) (k : Option Kind)
      (tr : Option Trigger) (d : Text) (w : World)
      → Inv w.store
      → Inv (emit o cid event t ph k tr d w).store
  unfolding emit
  emit-Inv cid event t ph k tr d w h = kept-append _ _ _ _ h

  finish_turn-Inv :
      (cid : Text) (oc : TurnOutcome) (e : Option TurnError) (w : World)
      → Inv w.store
      → Inv (finish_turn o cid oc e w).store
  unfolding finish_turn settle_outcome
  finish_turn-Inv cid oc e w h = kept-append _ _ _ _ (kept-outcome _ _ _ _ h)

  finalize_ends-Inv :
      (cfg : Lifecycle) (cid : Text) (t : Text) (tr : Trigger) (started grace : ℕ) (kind : Kind)
      (err : Option TurnError) (last : Text) (w : World)
      → Inv w.store
      → Inv (finalize_ends o cfg cid t tr started grace kind err last w).store
  unfolding finalize_ends
  finalize_ends-Inv cfg cid t tr started grace kind err last w h =
      let detail : Text = elim err [ none ↦ [] | some e ↦ o.message e ] in
      let event : EventType = elim err [
        | none ↦ turn_finalized
        | some e ↦ turn_finalization_failed
      ] in
      let shown : Option Kind = elim err [ none ↦ none | some e ↦ some kind ] in
      let w1 : World = emit o cid event t idle shown (some tr) detail w in
      finish_turn-Inv cid _ err w1 (emit-Inv cid event t idle shown (some tr) detail w h)

  finalize-Inv :
      (cfg : Lifecycle) (cid : Text) (t : Turn) (tr : Trigger) (kind : Kind) (started : ℕ)
      (partial : Text) (w : World)
      → Inv w.store
      → Inv (finalize o cfg cid t tr kind started partial w).store
  unfolding finalize
  finalize-Inv cfg cid t tr kind started partial w h =
      let w1 : World =
        emit o cid turn_finalizing t.turn_id finalizing none (some tr) []
          (phased o cid finalizing t.turn_id w) in
      let v = final_verdict kind t.final in
      finalize_ends-Inv cfg cid t.turn_id tr started (o.clock w1.ticks) v.0 v.1 _
        (forward (parts t.final) (record w1 { ticks = suc w1.ticks }))
        (kept-append _ _ _ _ (kept-phase _ _ _ _ _ h))

  business_ends-Inv :
      (cfg : Lifecycle) (cid : Text) (t : Turn) (started : ℕ) (partial : Text) (d : Decision)
      (w : World)
      → Inv w.store
      → Inv (business_ends o cfg cid t started partial d w).store
  unfolding business_ends
  business_ends-Inv cfg cid t started partial (finish kind err) w h = finish_turn-Inv cid _ err w h
  business_ends-Inv cfg cid t started partial (finalize_by soft_deadline kind) w h =
      finalize-Inv cfg cid t soft_deadline kind started partial
        (emit o cid turn_soft_deadline t.turn_id running none none [] w) (kept-append _ _ _ _ h)
  business_ends-Inv cfg cid t started partial (finalize_by graceful_stop kind) w h =
      finalize-Inv cfg cid t graceful_stop kind started partial w h

  run_business-Inv :
      (cfg : Lifecycle) (cid : Text) (t : Turn) (w : World)
      → Inv w.store
      → Inv (run_business o cfg cid t w).store
  unfolding run_business
  run_business-Inv cfg cid t w h =
      let w1 : World = forward (parts t.business) (
        emit o cid turn_running t.turn_id running none none []
          (phased o cid running t.turn_id w)) in
      business_ends-Inv cfg cid t (o.clock w.ticks) (last_text (parts t.business) [])
        (decide cfg.finalize_enabled t.business) w1 (kept-append _ _ _ _ (kept-phase _ _ _ _ _ h))

  init_fails-Inv :
      (cfg : Lifecycle) (cid t : Text) (started : ℕ) (cause : TurnError) (w : World)
      → Inv w.store
      → Inv (init_fails o cfg cid t started cause w).0.store
  unfolding init_fails settle_outcome
  init_fails-Inv cfg cid t started cause w h =
      let P : World × Bool → Type 0 = λ (r : World × Bool). Inv r.0.store in
      elim (Bool-cases cfg.init_degraded) [
        | inl e ↦ subst P (sym (if_of_eq _ _ e)) (
            kept-degraded _ _ _ _ (
              kept-append _ _ _ _
                (kept-outcome _ _ _ _ (kept-append _ _ _ _ (kept-phase _ _ _ _ _ h)))))
        | inr e ↦ subst P (sym (if_of_eq _ _ e)) (
            kept-append _ _ _ _
              (kept-outcome _ _ _ _ (kept-append _ _ _ _ (kept-phase _ _ _ _ _ h))))
      ]

  init_ends-Inv :
      (cfg : Lifecycle) (cid t : Text) (started : ℕ) (cause : Option TurnError) (w : World)
      → Inv w.store
      → Inv (init_ends o cfg cid t started cause w).0.store
  unfolding init_ends
  init_ends-Inv cfg cid t started (some e) w h = init_fails-Inv cfg cid t started e w h
  init_ends-Inv cfg cid t started none w h =
      kept-append _ _ _ _ (kept-phase _ _ _ _ _ (kept-initialized _ _ _ _ h))

  initialize-Inv :
      (cfg : Lifecycle) (cid : Text) (t : Turn) (w : World)
      → Inv w.store
      → Inv (initialize o cfg cid t w).0.store
  unfolding initialize
  initialize-Inv cfg cid t w h =
      let w1 : World =
        emit o cid session_initializing t.init_id initializing none none []
          (phased o cid initializing t.init_id w) in
      init_ends-Inv cfg cid t.init_id (o.clock w.ticks) (init_cause t.init) w1
        (kept-append _ _ _ _ (kept-phase _ _ _ _ _ h))

  or_business-Inv :
      (cfg : Lifecycle) (cid : Text) (t : Turn) (r : World × Bool)
      → Inv r.0.store
      → Inv (or_business o cfg cid t r).store
  or_business-Inv cfg cid t (w, true) h = run_business-Inv cfg cid t w h
  or_business-Inv cfg cid t (w, false) h = h

  run-Inv :
      (cfg : Lifecycle) (cid : Text) (t : Turn) (w : World)
      → Inv w.store
      → Inv (run o cfg cid t w).store
  unfolding run
  run-Inv cfg cid t w h =
      let P : World → Type 0 = λ (u : World). Inv u.store in
      let start : World = record w { store = (needs_init cid cfg.version w.store).0 } in
      let begun : Inv start.store = kept-needs cid cfg.version w.store h in
      elim (Bool-cases cfg.init_enabled) [
        | inr e ↦ subst P (sym (if_of_eq _ _ e)) (run_business-Inv cfg cid t w h)
        | inl e ↦ elim (Bool-cases (needs_init cid cfg.version w.store).1) [
          | inl f ↦ subst P (sym (if_of_eq _ _ e ∙ if_of_eq _ _ f)) (
              or_business-Inv cfg cid t (initialize o cfg cid t start)
                (initialize-Inv cfg cid t start begun))
          | inr f ↦
              subst P (sym (if_of_eq _ _ e ∙ if_of_eq _ _ f))
                (run_business-Inv cfg cid t start begun)
        ]
      ]

  pub run_all-Inv :
      (cfg : Lifecycle) (ts : List (Text × Turn)) (w : World)
      → Inv w.store
      → Inv (run_all o cfg ts w).store
  unfolding run_all
  run_all-Inv cfg [] w h = h
  run_all-Inv cfg ((c, t) ∷ ts) w h = run_all-Inv cfg ts (run o cfg c t w) (run-Inv cfg c t w h)
