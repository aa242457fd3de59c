-- ===== src/Wrapper/Pool.antt =====
-- The session pool (internal/wrapper/session_pool.go): lookup, capacity, persistence. A method is
-- one function from pool to pool; a provider session is the number under which it was created.
pub mod Reaper
pub mod Sessions
pub mod Capacity
pub mod Room
pub mod Limit
pub mod Reaping
pub mod Lifetime
pub mod Survival
pub mod Races
pub mod Histories
use ahsir.Prelude.Text.{text_eq, is_empty, Text-discrete, Text}
use ahsir.Prelude.{
  not, none, List, ◌&&◌, is_some, ltb, some, suc, true, false, if◌then◌else◌, Bool, Option, [], ◌∷◌,
  ℕ, ◌≡◌,
}
use ahsir.Wrapper.Gate.{TurnGate, end_eviction}
use ahsir.Prelude.Table.{get, put, delete, Table}

pub data OverloadPolicy : Type 0 where
  reject evict_lru other_policy : OverloadPolicy

-- `active` is the state: true for `entryActive`, false for `entryEvicted`.
pub record PooledEntry : Type 0 where
  pub session_id : Text
  pub gate : TurnGate
  pub active : Bool
  pub session : Option ℕ
  pub last_used : ℕ
  pub evicted_at : ℕ

pub record PersistedRecord : Type 0 where
  pub session_id : Text
  pub active : Bool
  pub last_used : ℕ
  pub evicted_at : ℕ

-- `persist == nil` is `persisting = false`; `saved` is what the backend holds. `closed` and
-- `forgotten` list the calls of `Close` and `onForget`, the newest first.
pub record SessionPool : Type 0 where
  pub entries : Table Text PooledEntry
  pub stopped : Bool
  pub idle_ttl : ℕ
  pub evicted_ttl : ℕ
  pub max_active : ℕ
  pub overload_policy : OverloadPolicy
  pub max_evicted : ℕ
  pub persisting : Bool
  pub persist_state : Table Text PersistedRecord
  pub saved : Table Text PersistedRecord
  pub next_session : ℕ
  pub closed : List ℕ
  pub forgotten : List Text

-- What the factory returns: whether the session reports its id later, and else its id.
pub record Started : Type 0 where
  pub notifies : Bool
  pub id : Text

-- The outside of one call: the clock when it starts and when it evicts, which sessions are
-- healthy, the factory by context and id to resume, and whether a save succeeds.
pub record Env : Type 0 where
  pub now : ℕ
  pub later : ℕ
  pub healthy : ℕ → Bool
  pub factory : Text → Text → Option Started
  pub save_ok : Bool

pub data Outcome : Type 0 where
  got : ℕ → Outcome
  pool_stopped at_capacity factory_failed : Outcome

abbrev pub find : Text → SessionPool → Option PooledEntry
find cid p = get Text-discrete cid p.entries

abbrev store : Text → PooledEntry → SessionPool → SessionPool
store cid e p = record p { entries = put Text-discrete cid e p.entries }

abbrev close : ℕ → SessionPool → SessionPool
close s p = record p { closed = s ∷ p.closed }

-- A failed save is logged; the next one writes the whole state again.
abbrev save : Env → SessionPool → SessionPool
save v p = if v.save_ok then record p { saved = p.persist_state } else p

unfoldable upsert_persist : Env → Text → PersistedRecord → SessionPool → SessionPool
upsert_persist v cid rec p =
    if p.persisting
    then save v (record p { persist_state = put Text-discrete cid rec p.persist_state })
    else p

unfoldable remove_persist : Env → Text → SessionPool → SessionPool
remove_persist v cid p =
    if p.persisting
    then save v (record p { persist_state = delete Text-discrete cid p.persist_state })
    else p

unfoldable forget : Env → Text → SessionPool → SessionPool
unfolding remove_persist
forget v cid p = let q = remove_persist v cid p in record q { forgotten = cid ∷ q.forgotten }

-- `&pooledEntry{contextID: contextID, gate: newTurnGate()}`: the zero state is `entryActive`.
abbrev pub fresh_entry : PooledEntry
fresh_entry = record {
  session_id = [];
  gate = record { busy = false; evicting = false; waiters = [] };
  active = true;
  session = none;
  last_used = 0;
  evicted_at = 0;
}

unfoldable ensure_entry : Text → SessionPool → SessionPool
ensure_entry cid p = if is_some (find cid p) then p else store cid fresh_entry p

-- The entry as a lost session leaves it.
abbrev evicted_entry : ℕ → PooledEntry → PooledEntry
evicted_entry now e = record e { active = false; session = none; evicted_at = now }

abbrev evicted_record : ℕ → PooledEntry → PersistedRecord
evicted_record now e = record {
  session_id = e.session_id;
  active = false;
  last_used = e.last_used;
  evicted_at = now;
}

unfoldable inspect_session :
    Env → Text → SessionPool → PooledEntry → Option ℕ → SessionPool × Option ℕ
inspect_session v cid p e none = (p, none)
inspect_session v cid p e (some s) =
    if not e.active
    then (p, none)
    else if v.healthy s
    then (store cid (record e { last_used = v.now }) p, some s)
    else (close s (store cid (evicted_entry v.now e) p), none)

-- One round of the loop of `LookupOrCreate`: a live session is handed out, a dead one closed.
unfoldable inspect : Env → Text → SessionPool → SessionPool × Option ℕ
unfolding inspect_session
inspect v cid p = elim (find cid p) [
  | none ↦ (p, none)
  | some e ↦ inspect_session v cid p e e.session
]

abbrev pub is_live : PooledEntry → Bool
is_live e = e.active && is_some e.session

-- The least recently used live entry so far.
abbrev older : Option (Text × PooledEntry) → Text → PooledEntry → Option (Text × PooledEntry)
older none k e = some (k, e)
older (some (j, d)) k e = if ltb e.last_used d.last_used then some (k, e) else some (j, d)

-- The scan of `enforceCap`: how many other entries are live, and which is least recently used.
unfoldable scan :
    Text
    → Table Text PooledEntry
    → ℕ
    → Option (Text × PooledEntry)
    → ℕ × Option (Text × PooledEntry)
scan cid [] n lru = (n, lru)
scan cid ((k, e) ∷ m) n lru =
    let counted = scan cid m (suc n) (older lru k e) in
    let skipped = scan cid m n lru in if is_live e && not (text_eq k cid) then counted else skipped

-- `evictForCap`; the entry is still live, as no other call has run since the scan.
unfoldable pub evict_for_cap : Env → Text → PooledEntry → SessionPool → SessionPool
unfolding upsert_persist
evict_for_cap v k e p = elim e.session [
  | none ↦ p
  | some s ↦
      upsert_persist v k (evicted_record v.later e) (close s (store k (evicted_entry v.later e) p))
]

abbrev over_cap :
    Env → OverloadPolicy → Option (Text × PooledEntry) → SessionPool → Option SessionPool
over_cap v evict_lru (some (k, e)) p = some (evict_for_cap v k e p)
over_cap v evict_lru none p = some p
over_cap v _ lru p = none

-- `none` is the capacity error.
unfoldable pub enforce_cap : Env → Text → SessionPool → Option SessionPool
unfolding scan evict_for_cap
enforce_cap v cid p =
    let (n, lru) = scan cid p.entries 0 none in
    if ltb n p.max_active then some p else over_cap v p.overload_policy lru p

abbrev active_record : Text → ℕ → PersistedRecord
active_record sid now = record { session_id = sid; active = true; last_used = now; evicted_at = 0 }

abbrev started_entry : Env → ℕ → Text → PooledEntry → PooledEntry
started_entry v s sid e = record e {
  session_id = sid;
  gate = end_eviction e.gate;
  active = true;
  session = some s;
  last_used = v.now;
}

unfoldable install : Env → Text → PooledEntry → Started → SessionPool → SessionPool × Outcome
unfolding end_eviction upsert_persist
install v cid e r p =
    let s = p.next_session in
    let sid = if r.notifies then e.session_id else r.id in
    let q = store cid (started_entry v s sid e) (record p { next_session = suc s }) in
    (if is_empty sid then q else upsert_persist v cid (active_record sid v.now) q, got s)

-- The factory call and all that follows it.
unfoldable create : Env → Text → SessionPool → SessionPool × Outcome
unfolding install
create v cid p = elim (find cid p) [
  | none ↦ (p, factory_failed)
  | some e ↦ elim (v.factory cid e.session_id) [
    | none ↦ (p, factory_failed)
    | some r ↦ install v cid e r p
  ]
]

abbrev or_create : Env → Text → SessionPool × Option ℕ → SessionPool × Outcome
or_create v cid (p, some s) = (p, got s)
or_create v cid (p, none) = create v cid p

-- A miss: the capacity is enforced once, and the loop looks again.
unfoldable on_miss : Env → Text → SessionPool → SessionPool × Outcome
unfolding enforce_cap create inspect
on_miss v cid p =
    if ltb 0 p.max_active
    then elim (enforce_cap v cid p) [
      | none ↦ (p, at_capacity)
      | some q ↦ or_create v cid (inspect v cid q)
    ]
    else create v cid p

abbrev or_miss : Env → Text → SessionPool × Option ℕ → SessionPool × Outcome
or_miss v cid (p, some s) = (p, got s)
or_miss v cid (p, none) = on_miss v cid p

unfoldable pub lookup_or_create : Env → Text → SessionPool → SessionPool × Outcome
unfolding ensure_entry inspect on_miss
lookup_or_create v cid p =
    if p.stopped then (p, pool_stopped) else or_miss v cid (inspect v cid (ensure_entry cid p))
