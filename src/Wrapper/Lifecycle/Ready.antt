-- ===== src/Wrapper/Lifecycle/Ready.antt =====
-- Which steps leave a session with no initialization due.
use mathlib.Core.Path.{subst}
use ahsir.Wrapper.Lifecycle.Marks.{
  record_outcome-Unmarked, set_phase-Unmarked, marks, append-Unmarked, Unmarked, Marks,
}
use ahsir.Wrapper.Lifecycle.Controller.{
  init_ends, init_fails, env, TurnError, World, Lifecycle, Oracle,
}
use ahsir.Wrapper.Lifecycle.Store.{
  or_blank, needs_init, mark_initialized, mark_init_degraded, commit, session, wants_init, Env,
  LifecycleStore, SessionLifecycle,
}
use ahsir.Prelude.{
  inr, inl, ◌⊎◌, if_of_eq, if_neg, sym, if_pos, ◌||◌, ap, not, ◌&&◌, if◌then◌else◌, ◌∙◌, ℕ, ◌≡◌,
  none, some, Option, arith, true, false, Bool,
}
use ahsir.Prelude.Table.{get, get-put}
use ahsir.Wrapper.Lifecycle.Effects.{session-commit_self}
use ahsir.Prelude.Text.{Text-discrete, text_eq, Text}

abbrev pub unready : Marks → Text → Bool
unready m version =
    let same = text_eq m.version version in
    if m.degraded && same then false else not m.initialized || not same

-- No initialization is due.
abbrev pub Ready : Text → Text → LifecycleStore → Type 0
Ready cid version s = wants_init version (session cid s) ≡ false

pub Ready-Unmarked :
    (cid version : Text) (s s' : LifecycleStore)
    → Unmarked s s'
    → Ready cid version s
    → Ready cid version s'
Ready-Unmarked cid version s s' u r = ap (λ m. unready m version) (u cid) ∙ r

pub Ready-commit :
    (v : Env) (cid version : Text) (rec : SessionLifecycle) (s : LifecycleStore)
    → wants_init version rec ≡ false
    → Ready cid version (commit v cid rec s)
Ready-commit v cid version rec s h = ap (wants_init version) (session-commit_self v cid rec s) ∙ h

pub mark_init_degraded-Ready :
    (v : Env) (cid version : Text) (s : LifecycleStore)
    → Ready cid version (mark_init_degraded v cid version s)
unfolding mark_init_degraded
mark_init_degraded-Ready v cid version s = Ready-commit v cid version _ s (ground arith)

pub mark_initialized-Ready :
    (v : Env) (cid version : Text) (s : LifecycleStore)
    → Ready cid version (mark_initialized v cid version s)
unfolding mark_initialized
mark_initialized-Ready v cid version s = Ready-commit v cid version _ s (ground arith)

pub init_fails-Unmarked :
    (o : Oracle) (cfg : Lifecycle) (cid turn_id : Text) (started : ℕ) (cause : TurnError)
    (w : World)
    → cfg.init_degraded ≡ false
    → Unmarked w.store (init_fails o cfg cid turn_id started cause w).0.store
unfolding init_fails
init_fails-Unmarked o cfg cid turn_id started cause w d c =
    ap (λ (r : World × Bool). marks (session c r.0.store)) (if_of_eq _ _ d)
    ∙ (append-Unmarked _ _ _ _ _ c
        ∙ (record_outcome-Unmarked _ _ _ _ _ c
            ∙ (append-Unmarked _ _ _ _ _ c ∙ set_phase-Unmarked _ _ _ _ _ c)))

pub init_fails-Ready :
    (o : Oracle) (cfg : Lifecycle) (cid turn_id : Text) (started : ℕ) (cause : TurnError)
    (w : World)
    → cfg.init_degraded ≡ true
    → Ready cid cfg.version (init_fails o cfg cid turn_id started cause w).0.store
unfolding init_fails
init_fails-Ready o cfg cid turn_id started cause w d =
    subst (λ (r : World × Bool). Ready cid cfg.version r.0.store) (sym (if_of_eq _ _ d))
      (mark_init_degraded-Ready _ cid cfg.version _)

-- A success, and a failure in the degraded mode, leave the session ready.
pub init_ends-Ready :
    (o : Oracle) (cfg : Lifecycle) (cid turn_id : Text) (started : ℕ) (cause : Option TurnError)
    (w : World)
    → (cause ≡ none) ⊎ (cfg.init_degraded ≡ true)
    → Ready cid cfg.version (init_ends o cfg cid turn_id started cause w).0.store
unfolding init_ends
init_ends-Ready o cfg cid turn_id started none w h =
    Ready-Unmarked cid cfg.version (mark_initialized (env o w) cid cfg.version w.store)
      (init_ends o cfg cid turn_id started none w).0.store
      (λ c. append-Unmarked _ _ _ _ _ c ∙ set_phase-Unmarked _ _ _ _ _ c)
      (mark_initialized-Ready (env o w) cid cfg.version w.store)
init_ends-Ready o cfg cid turn_id started (some e) w (inl h) = cc
init_ends-Ready o cfg cid turn_id started (some e) w (inr d) =
    init_fails-Ready o cfg cid turn_id started e w d

pub needs_init-Unmarked :
    (cid version : Text) (s : LifecycleStore) → Unmarked s (needs_init cid version s).0
unfolding needs_init
needs_init-Unmarked cid version s c = elim (Text-discrete cid c) [
  | yes p ↦
      ap (λ (o : Option SessionLifecycle). marks (or_blank o))
        (get-put Text-discrete cid c (session cid s) s.sessions
          ∙ if_pos (Text-discrete cid c) p (some (session cid s)) (get Text-discrete c s.sessions))
      ∙ ap (λ k. marks (session k s)) p
  | no n ↦
      ap (λ (o : Option SessionLifecycle). marks (or_blank o))
        (get-put Text-discrete cid c (session cid s) s.sessions
          ∙ if_neg (Text-discrete cid c) n (some (session cid s)) (get Text-discrete c s.sessions))
]
