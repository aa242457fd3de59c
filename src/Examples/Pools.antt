-- ===== src/Examples/Pools.antt =====
-- A pool with one place and the least recently used session evicted.
use ahsir.Wrapper.Pool.Races.{listed, resumed_context_forgotten}
use ahsir.Prelude.Text.{text, Text, Text-discrete}
use ahsir.Wrapper.Pool.Histories.{
  perform, perform_all-Inv, Call, perform_all, looks, reaps, stop_closes_all,
}
use ahsir.Wrapper.Pool.Sessions.{holds, Inv, Unheld}
use ahsir.Prelude.Table.{get, put, delete}
use ahsir.Wrapper.Pool.{
  lookup_or_create, evict_lru, PooledEntry, SessionPool, Env, find, pool_stopped, evict_for_cap,
  enforce_cap, fresh_entry, factory_failed,
}
use ahsir.Wrapper.Pool.Reaper.{stop, reap_once, reap_scan, reap_delete}
use ahsir.Wrapper.Pool.Limit.{lookup_within_cap}
use ahsir.Wrapper.Pool.Survival.{reap_once-busy, failed_entry_stays, reap_many}
use ahsir.Wrapper.Pool.Capacity.{MadeRoom}
use ahsir.Wrapper.Pool.Lifetime.{lookup-Serves, Serves}
use ahsir.Wrapper.Gate.{in_flight}
use ahsir.Wrapper.Pool.Room.{enforce_cap-MadeRoom}
use ahsir.Prelude.Total.{total}
use ahsir.Prelude.{[], ◌∷◌, ℕ, ◌≡◌, none, some, arith, refl, true, false, List, length, ◌≤◌, inl}

abbrev alice : Text
alice = text "alice"

abbrev bob : Text
bob = text "bob"

abbrev one_place : SessionPool
one_place = record {
  entries = [];
  stopped = false;
  idle_ttl = 10;
  evicted_ttl = 20;
  max_active = 1;
  overload_policy = evict_lru;
  max_evicted = 5;
  persisting = true;
  persist_state = [];
  saved = [];
  next_session = 0;
  closed = [];
  forgotten = [];
}

-- Every factory call succeeds.
abbrev world_at : ℕ → Env
world_at now = record {
  now = now;
  later = now;
  healthy = λ s. true;
  factory = λ cid sid. some (record { notifies = false; id = cid });
  save_ok = true;
}

abbrev broken : Env
broken = record {
  now = 1;
  later = 1;
  healthy = λ s. true;
  factory = λ cid sid. none;
  save_ok = true;
}

one_place-Inv : Inv one_place
one_place-Inv = record { keyed = tt; rested = tt; accounted = refl }

-- Bob's lookup evicts Alice.
abbrev visits : List (Env × Call)
visits = (world_at 1, looks alice) ∷ (world_at 2, looks bob) ∷ (world_at 3, reaps) ∷ []

stop_closes_all_example :
    let q = stop (perform_all visits one_place) in
    (length q.closed ≡ q.next_session)
    × (q.entries ≡ [])
    × (lookup_or_create (world_at 4) alice q ≡ (q, pool_stopped))
unfolding perform_all perform Text-discrete get put delete lookup_or_create reap_once
stop_closes_all_example = stop_closes_all visits one_place (world_at 4) alice one_place-Inv refl

perform_all-Inv_example : Inv (perform_all visits one_place)
perform_all-Inv_example = perform_all-Inv visits one_place one_place-Inv

-- Alice holds the one place.
abbrev occupied_pool : SessionPool
occupied_pool = (lookup_or_create (world_at 1) alice one_place).0

abbrev running_turn : PooledEntry
running_turn = record {
  session_id = alice;
  gate = record { busy = true; evicting = false; waiters = [] };
  active = true;
  session = some 0;
  last_used = 1;
  evicted_at = 0;
}

abbrev mid_turn : SessionPool
mid_turn = record one_place { entries = (alice, running_turn) ∷ []; next_session = 1 }

mid_turn-Inv : Inv mid_turn
mid_turn-Inv = record { keyed = (tt, tt); rested = (λ e. cc, tt); accounted = refl }

lookup_within_cap_example : total holds (lookup_or_create (world_at 5) bob mid_turn).0.entries ≤ 1
lookup_within_cap_example =
    lookup_within_cap (world_at 5) bob mid_turn mid_turn-Inv (omega arith) (omega arith)

reap_once-busy_example : find alice (reap_once (world_at 1000) mid_turn) ≡ some running_turn
unfolding Text-discrete get in_flight
reap_once-busy_example =
    reap_once-busy (world_at 1000) alice running_turn mid_turn refl refl (inl refl)

bob-Unheld : Unheld bob mid_turn
unfolding Text-discrete get
bob-Unheld e f = cc

abbrev after_eviction : SessionPool
after_eviction = evict_for_cap (world_at 5) alice running_turn mid_turn

enforce_cap-MadeRoom_example : MadeRoom (world_at 5) bob mid_turn after_eviction
unfolding Text-discrete get enforce_cap
enforce_cap-MadeRoom_example =
    enforce_cap-MadeRoom (world_at 5) bob mid_turn mid_turn-Inv bob-Unheld (omega arith) refl

lookup-Serves_example : Serves alice 0 (lookup_or_create (world_at 1) alice one_place).0
unfolding Text-discrete get put lookup_or_create
lookup-Serves_example = lookup-Serves (world_at 1) alice 0 one_place refl

abbrev retired : PooledEntry
retired = record {
  session_id = alice;
  gate = record { busy = false; evicting = false; waiters = [] };
  active = false;
  session = none;
  last_used = 1;
  evicted_at = 1;
}

abbrev expiring : SessionPool
expiring = record one_place { entries = (alice, retired) ∷ [] }

-- The reaper scans at time 100, and Alice comes back at time 101.
resumed_context_forgotten_example :
    let q =
      reap_delete
        (world_at 100)
        (reap_scan (world_at 100) expiring).1
        (lookup_or_create (world_at 101) alice (reap_scan (world_at 100) expiring).0).0 in
    Serves alice 0 q
    × (get Text-discrete alice q.persist_state ≡ none)
    × (listed alice q.forgotten ≡ true)
unfolding Text-discrete get put lookup_or_create reap_scan
resumed_context_forgotten_example =
    resumed_context_forgotten (world_at 100) (world_at 101) alice 0 expiring refl refl refl

failed_entry_stays_example :
    let (q, o) = lookup_or_create broken alice (record one_place { max_active = 0 }) in
    (o ≡ factory_failed)
    × (find alice (reap_many (world_at 1000 ∷ world_at 2000 ∷ []) q) ≡ some fresh_entry)
unfolding get
failed_entry_stays_example =
    failed_entry_stays broken alice (record one_place { max_active = 0 })
      (world_at 1000 ∷ world_at 2000 ∷ []) refl refl refl refl
