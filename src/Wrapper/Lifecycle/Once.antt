-- ===== src/Wrapper/Lifecycle/Once.antt =====
-- A session is initialized once for each version.
use mathlib.Core.Path.{subst}
use ahsir.Wrapper.Lifecycle.Turns.{
  initialize-other, initialize-Ready, or_business-Unmarked, run_due, run_initialized, touched,
}
use ahsir.Wrapper.Lifecycle.Ready.{needs_init-Unmarked, unready, Ready}
use ahsir.Wrapper.Lifecycle.Marks.{run_business-Unmarked}
use ahsir.Wrapper.Lifecycle.Controller.{
  init_cause, initialize, run, Turn, World, Lifecycle, Oracle, run_business,
}
use ahsir.Wrapper.Lifecycle.Store.{session, wants_init}
use ahsir.Prelude.{Bool-cases, inr, inl, ◌⊎◌, sym, ap, ◌∙◌, [], ◌∷◌, ◌≡◌, none, arith, true, List}
use ahsir.Prelude.Text.{Text-discrete, Text}

-- A turn of any session keeps a session ready.
run-Ready :
    (o : Oracle) (cfg : Lifecycle) (cid c : Text) (t : Turn) (w : World)
    → cfg.init_enabled ≡ true
    → Ready cid cfg.version w.store
    → Ready cid cfg.version (run o cfg c t w).store
run-Ready o cfg cid c t w e r = elim (Bool-cases (wants_init cfg.version (session c w.store))) [
  | inr ready ↦
      subst (λ u. Ready cid cfg.version u.store) (sym (run_initialized o cfg c t w ready e))
        (ap (λ m. unready m cfg.version)
            (run_business-Unmarked o cfg c t (touched c cfg w) cid
              ∙ needs_init-Unmarked c cfg.version w.store cid)
          ∙ r)
  | inl due ↦ elim (Text-discrete c cid) [
    | yes p ↦ absurd (ground arith)
    | no n ↦
        subst (λ u. Ready cid cfg.version u.store) (sym (run_due o cfg c t w due e))
          (ap (λ m. unready m cfg.version)
              (or_business-Unmarked o cfg c t (initialize o cfg c t (touched c cfg w)) cid
                ∙ (initialize-other o cfg c cid t (touched c cfg w) n
                    ∙ needs_init-Unmarked c cfg.version w.store cid))
            ∙ r)
  ]
]

-- Turns of any sessions, one after another.
unfoldable pub run_all : Oracle → Lifecycle → List (Text × Turn) → World → World
run_all o cfg [] w = w
run_all o cfg ((c, t) ∷ ts) w = run_all o cfg ts (run o cfg c t w)

run_all-Ready :
    (o : Oracle) (cfg : Lifecycle) (cid : Text) (ts : List (Text × Turn)) (w : World)
    → cfg.init_enabled ≡ true
    → Ready cid cfg.version w.store
    → Ready cid cfg.version (run_all o cfg ts w).store
unfolding run_all
run_all-Ready o cfg cid [] w e r = r
run_all-Ready o cfg cid ((c, t) ∷ ts) w e r =
    run_all-Ready o cfg cid ts (run o cfg c t w) e (run-Ready o cfg cid c t w e r)

run_makes-Ready :
    (o : Oracle) (cfg : Lifecycle) (cid : Text) (t : Turn) (w : World)
    → cfg.init_enabled ≡ true
    → (init_cause t.init ≡ none) ⊎ (cfg.init_degraded ≡ true)
    → Ready cid cfg.version (run o cfg cid t w).store
run_makes-Ready o cfg cid t w e h =
    elim (Bool-cases (wants_init cfg.version (session cid w.store))) [
      | inr ready ↦ run-Ready o cfg cid cid t w e ready
      | inl due ↦
          subst (λ u. Ready cid cfg.version u.store) (sym (run_due o cfg cid t w due e))
            (ap (λ m. unready m cfg.version)
                (or_business-Unmarked o cfg cid t (initialize o cfg cid t (touched cid cfg w)) cid)
              ∙ initialize-Ready o cfg cid t (touched cid cfg w) h)
    ]

-- With initialization enabled: once a turn of a session has met a provider that initializes, or has
-- a card that tolerates a failure, then after any history of turns of any sessions under the same
-- configuration the session's next turn is its business turn alone.
pub initialized_once :
    (o : Oracle) (cfg : Lifecycle) (cid : Text) (t u : Turn) (ts : List (Text × Turn)) (w : World)
    → cfg.init_enabled ≡ true
    → (init_cause t.init ≡ none) ⊎ (cfg.init_degraded ≡ true)
    → let w' = run_all o cfg ts (run o cfg cid t w) in
      run o cfg cid u w' ≡ run_business o cfg cid u (touched cid cfg w')
initialized_once o cfg cid t u ts w e h =
    let w1 : World = run o cfg cid t w in
    run_initialized o cfg cid u (run_all o cfg ts w1)
      (run_all-Ready o cfg cid ts w1 e (run_makes-Ready o cfg cid t w e h)) e
