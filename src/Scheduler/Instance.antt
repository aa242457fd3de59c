-- ===== src/Scheduler/Instance.antt =====
-- The pool of one card's runtime instances (internal/scheduler/instance.go). An ordinal is a
-- natural number.
pub mod Spread
pub mod Affinity
pub mod Names
use ahsir.Prelude.Text.{Text-discrete, is_empty, Text}
use ahsir.Prelude.{
  ◌&&◌, ltb, ℕ_discrete, if◌then◌else◌, ◌-◌, [], ◌∷◌, ℕ, ◌≡◌, none, some, Option, refl, true, false,
  Bool, suc, zero, List,
}
use ahsir.Prelude.Table.{put, get, Table}

pub record InstancePool : Type 0 where
  pub cap : ℕ
  pub spawned : ℕ
  pub assign : Table Text ℕ
  pub active : Table ℕ ℕ

unfoldable pub new_instance_pool : ℕ → InstancePool
new_instance_pool capacity = record {
  cap = if ltb capacity 1 then 1 else capacity;
  spawned = 1;
  assign = [];
  active = [];
}

-- `p.active[idx]`, 0 for a missing key.
abbrev or_zero : Option ℕ → ℕ
or_zero none = 0
or_zero (some n) = n

abbrev pub load : ℕ → InstancePool → ℕ
load idx p = or_zero (get ℕ_discrete idx p.active)

-- `for i := ...; i < p.spawned; i++`, with the rounds left and the least load so far.
unfoldable least_loaded : ℕ → ℕ → ℕ × ℕ → InstancePool → ℕ × ℕ
least_loaded zero i best p = best
least_loaded (suc rounds) i best p =
    least_loaded rounds (suc i) (if ltb (load i p) best.1 then (i, load i p) else best) p

unfoldable pick : InstancePool → InstancePool × ℕ
unfolding least_loaded
pick p =
    let best = least_loaded (p.spawned - 1) 1 (0, load 0 p) p in
    if ltb 0 best.1 && ltb p.spawned p.cap
    then (record p { spawned = suc p.spawned }, p.spawned)
    else (p, best.0)

-- `p.active[idx]++`
abbrev occupy : ℕ → InstancePool → InstancePool
occupy idx p = record p { active = put ℕ_discrete idx (suc (load idx p)) p.active }

abbrev bind_context : Text → ℕ → InstancePool → InstancePool
bind_context cid idx p =
    if is_empty cid then p else record p { assign = put Text-discrete cid idx p.assign }

abbrev assigned : Text → InstancePool → Option ℕ
assigned cid p = if is_empty cid then none else get Text-discrete cid p.assign

unfoldable pub acquire : Text → InstancePool → InstancePool × ℕ
unfolding pick
acquire cid p = elim (assigned cid p) [
  | some idx ↦ (occupy idx p, idx)
  | none ↦ let (q, idx) = pick p in (occupy idx (bind_context cid idx q), idx)
]

unfoldable pub release : ℕ → InstancePool → InstancePool
release idx p =
    if ltb 0 (load idx p)
    then record p { active = put ℕ_discrete idx (load idx p - 1) p.active }
    else p

unfoldable active_instances : InstancePool → ℕ
active_instances p = p.spawned
