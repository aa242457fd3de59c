-- ===== src/Scheduler/Supervisor/Pools.antt =====
-- The scheduler's table of instance pools, and the instance that serves a chat
-- (internal/scheduler/scheduler.go): `poolFor`, `resolveInstance`.
use ahsir.Scheduler.Instance.{new_instance_pool, InstancePool, release, acquire}
use ahsir.Scheduler.Supervisor.Ports.{Env, Host}
use ahsir.Scheduler.Supervisor.Instances.{start_or_wake_instance, Brought, ready, waits}
use ahsir.Scheduler.Supervisor.State.{Scheduler, instance_cap}
use ahsir.Scheduler.Supervisor.Wake.{healthy, over}
use ahsir.Prelude.{ℕ, Bool, Option, none, some, leb, ◌==◌, if◌then◌else◌}
use ahsir.Prelude.Text.{Text, Text-discrete}
use ahsir.Prelude.Table.{Table, get, put}

pub record Pooled : Type 0 where
  pub sch : Scheduler
  pub pools : Table Text InstancePool

unfoldable pub pool_for : Text → Pooled → Option InstancePool × Pooled
unfolding instance_cap new_instance_pool
pool_for name s = elim (get Text-discrete name s.pools) [
  | some p ↦ (some p, s)
  | none ↦ elim (get Text-discrete name s.sch.desired) [
    | none ↦ (none, s)
    | some cfg ↦
        let p = new_instance_pool (instance_cap cfg) in
        if leb (instance_cap cfg) 1
        then (none, s)
        else (some p, record s { pools = put Text-discrete name p s.pools })
  ]
]

-- The agent has no pool, or the chat goes to this instance of it.
pub data Assigned : Type 0 where
  unpooled : Assigned
  on_instance : ℕ → Brought → Assigned

unfoldable pub release_instance : Text → ℕ → Pooled → Pooled
unfolding release
release_instance name idx s = elim (get Text-discrete name s.pools) [
  | none ↦ s
  | some p ↦ record s { pools = put Text-discrete name (release idx p) s.pools }
]

-- A failed start gives the instance back.
unfoldable pub settle_instance : Text → ℕ → Brought → Pooled → Assigned × Pooled
unfolding release_instance
settle_instance name idx ready s = (on_instance idx ready, s)
settle_instance name idx (waits (healthy id)) s = (on_instance idx (waits (healthy id)), s)
settle_instance name idx (waits over) s = (on_instance idx (waits over), s)
settle_instance name idx b s = (on_instance idx b, release_instance name idx s)

module _ (h : Host) where
  unfoldable pub serve_on : Env → Bool → Text → ℕ → Pooled → Assigned × Pooled
  unfolding start_or_wake_instance settle_instance
  serve_on e scaffolded name idx s =
      let r = start_or_wake_instance h e scaffolded name idx s.sch in
      if idx == 0
      then (on_instance 0 ready, s)
      else settle_instance name idx r.0 (record s { sch = r.1 })

  unfoldable pub resolve_instance : Env → Bool → Text → Text → Pooled → Assigned × Pooled
  unfolding pool_for serve_on acquire
  resolve_instance e scaffolded name cid s =
      let r = pool_for name s in
      elim r.0 [
        | none ↦ (unpooled, r.1)
        | some p ↦
            let a = acquire cid p in
            serve_on e scaffolded name a.1
              (record r.1 { pools = put Text-discrete name a.0 r.1.pools })
      ]
