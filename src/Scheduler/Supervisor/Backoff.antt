-- ===== src/Scheduler/Supervisor/Backoff.antt =====
-- The delay before a restart.
use native.Mathlib.Numerals.{unary_clauses}
use ahsir.Scheduler.Supervisor.State.{SupervisorConfig}
use ahsir.Scheduler.Supervisor.Monitor.{restart_backoff, doubled}
use ahsir.Prelude.{
  ℕ, zero, suc, ◌*◌, ◌^◌, ◌≤◌, ◌<◌, ◌≡◌, refl, sym, ap, ◌∙◌, inl, inr, arith, ltb, leb, ◌==◌,
  if◌then◌else◌, Bool-cases, if_of_eq,
}

-- The lesser of a delay and the greatest one.
abbrev pub capped : ℕ → ℕ → ℕ
capped max delay = if ltb max delay then max else delay

pow_lem : (k : ℕ) → 2 ^ suc k ≡ 2 ^ k * 2
pow_lem k = simp unary_clauses refl

pow-pos : (k : ℕ) → 0 < 2 ^ k
pow-pos zero = omega arith
pow-pos (suc k) = let ih = pow-pos k in omega (arith, pow_lem k)

pow-suc : (d k : ℕ) → d * 2 ^ suc k ≡ d * 2 * 2 ^ k
pow-suc d k = ap (λ (n : ℕ). d * n) (pow_lem k) ∙ grind arith

double-le : (d k : ℕ) → d ≤ d * 2 ^ k
double-le d k = let p = pow-pos k in grind arith

doubled-capped : (max k d : ℕ) → doubled max k d ≡ capped max (d * 2 ^ k)
unfolding doubled
doubled-capped max zero d = ground (arith)
doubled-capped max (suc k) d =
    let p = pow-suc d k in
    let q = double-le (d * 2) k in
    let ih = doubled-capped max k (d * 2) in
    elim (Bool-cases (leb max (d * 2))) [
      | inl y ↦ if_of_eq _ _ y ∙ ground arith
      | inr n ↦ if_of_eq _ _ n ∙ (ih ∙ ap (capped max) (sym p))
    ]

-- The durations that the supervisor uses where none is set.
abbrev pub or_second : ℕ → ℕ
or_second d = if d == 0 then 1000000000 else d

abbrev pub or_half_minute : ℕ → ℕ
or_half_minute d = if d == 0 then 30000000000 else d

-- The delay before the restart of attempt k + 1 is the initial delay doubled k times, but at most
-- the greatest delay.
pub restart_backoff-capped :
    (v : SupervisorConfig) (k : ℕ)
    → restart_backoff v (suc k)
      ≡ capped (or_half_minute v.max_backoff) (or_second v.initial_backoff * 2 ^ k)
unfolding restart_backoff
restart_backoff-capped v k =
    ap (λ (n : ℕ). doubled (or_half_minute v.max_backoff) n (or_second v.initial_backoff))
      (omega arith)
    ∙ doubled-capped (or_half_minute v.max_backoff) k (or_second v.initial_backoff)
