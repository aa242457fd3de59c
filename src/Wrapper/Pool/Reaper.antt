-- ===== src/Wrapper/Pool/Reaper.antt =====
-- Idle sessions, forgotten mappings, restart and shutdown (internal/wrapper/session_pool.go).
use ahsir.Prelude.{
  any, Bool, leb, ◌-◌, ◌==◌, ◌+◌, some, length, ◌&&◌, is_some, not, take, ltb, none, true, map,
  if◌then◌else◌, Option, ◌++◌, false, List, [], ◌∷◌, ℕ,
}
use ahsir.Wrapper.Gate.{in_flight, try_begin_eviction}
use ahsir.Wrapper.Pool.{
  OverloadPolicy, active_record, store, upsert_persist, forget, find, Env, PooledEntry,
  PersistedRecord, SessionPool,
}
use ahsir.Prelude.Text.{text_eq, Text-discrete, is_empty, Text}
use ahsir.Prelude.Table.{delete, put, Table}

-- `case entryActive` of the scan of `reapOnce`; `none` leaves the entry alone.
abbrev pub idle_session : ℕ → ℕ → PooledEntry → Option ℕ
idle_session now ttl e = elim e.session [
  | none ↦ none
  | some s ↦
      if e.active && ltb (e.last_used + ttl) now && (try_begin_eviction e.gate).1
      then some s
      else none
]

abbrev pub reaped_entry : ℕ → PooledEntry → PooledEntry
reaped_entry now e = record e {
  gate = (try_begin_eviction e.gate).0;
  active = false;
  session = none;
  evicted_at = now;
}

-- The entries after the scan.
unfoldable pub scan_entries : ℕ → ℕ → Table Text PooledEntry → Table Text PooledEntry
scan_entries now ttl [] = []
scan_entries now ttl ((k, e) ∷ m) =
    (k, if is_some (idle_session now ttl e) then reaped_entry now e else e) ∷ scan_entries now ttl m

-- The sessions that the scan closes.
unfoldable pub scan_closed : ℕ → ℕ → Table Text PooledEntry → List ℕ
scan_closed now ttl [] = []
scan_closed now ttl ((k, e) ∷ m) =
    let rest = scan_closed now ttl m in
    elim (idle_session now ttl e) [ none ↦ rest | some s ↦ s ∷ rest ]

-- The records that it hands to `upsertPersist`.
unfoldable pub scan_evicted : ℕ → ℕ → Table Text PooledEntry → List (Text × PersistedRecord)
scan_evicted now ttl [] = []
scan_evicted now ttl ((k, e) ∷ m) =
    let rest = scan_evicted now ttl m in
    if is_some (idle_session now ttl e)
    then (
      k,
      record {
        session_id = e.session_id;
        active = false;
        last_used = e.last_used;
        evicted_at = now;
      },
    )
      ∷ rest
    else rest

-- `toDelete`: the entries that have been evicted for longer than `evictedTTL`.
unfoldable scan_expired : ℕ → ℕ → Table Text PooledEntry → List Text
scan_expired now ttl [] = []
scan_expired now ttl ((k, e) ∷ m) =
    let rest = scan_expired now ttl m in
    if not e.active && ltb (e.evicted_at + ttl) now then k ∷ rest else rest

unfoldable pub upsert_all : Env → List (Text × PersistedRecord) → SessionPool → SessionPool
upsert_all v [] p = p
upsert_all v ((k, rec) ∷ recs) p = upsert_all v recs (upsert_persist v k rec p)

-- The first half of `reapOnce`, with the contexts that the second half is to delete.
unfoldable pub reap_scan : Env → SessionPool → SessionPool × List Text
unfolding scan_entries scan_closed scan_evicted scan_expired upsert_all
reap_scan v p = (
  upsert_all v (scan_evicted v.now p.idle_ttl p.entries) (record p {
    entries = scan_entries v.now p.idle_ttl p.entries;
    closed = scan_closed v.now p.idle_ttl p.entries ++ p.closed;
  }),
  scan_expired v.now p.evicted_ttl p.entries,
)

-- `if e.state == entryEvicted { delete(p.entries, k) }`
unfoldable pub drop_evicted : Text → SessionPool → SessionPool
drop_evicted k p = elim (find k p) [
  | none ↦ p
  | some e ↦ if e.active then p else record p { entries = delete Text-discrete k p.entries }
]

unfoldable pub drop_all : List Text → SessionPool → SessionPool
unfolding drop_evicted
drop_all [] p = p
drop_all (k ∷ ks) p = drop_all ks (drop_evicted k p)

unfoldable pub forget_all : Env → List Text → SessionPool → SessionPool
forget_all v [] p = p
forget_all v (k ∷ ks) p = forget_all v ks (forget v k p)

-- The second half: the re-check under the lock, then `forget` for every context of the list.
unfoldable pub reap_delete : Env → List Text → SessionPool → SessionPool
unfolding drop_all forget_all
reap_delete v ks p = forget_all v ks (drop_all ks p)

-- The contexts of the evicted entries, sorted by `evictedAt`.
abbrev insert_by_age : Text × ℕ → List (Text × ℕ) → List (Text × ℕ)
insert_by_age (k, t) [] = (k, t) ∷ []
insert_by_age (k, t) ((j, u) ∷ xs) =
    let rest = insert_by_age (k, t) xs in if ltb u t then (j, u) ∷ rest else (k, t) ∷ (j, u) ∷ xs

unfoldable pub candidates : Table Text PooledEntry → List (Text × ℕ)
candidates [] = []
candidates ((k, e) ∷ m) =
    let rest = candidates m in if e.active then rest else insert_by_age (k, e.evicted_at) rest

-- With the lock held over the re-check every candidate that is to go is still there.
unfoldable pub enforce_max_evicted : Env → SessionPool → SessionPool
unfolding candidates forget_all drop_all
enforce_max_evicted v p =
    let found = candidates p.entries in
    let old = map (λ c. c.0) (take (length found - p.max_evicted) found) in
    if leb 1 p.max_evicted && ltb p.max_evicted (length found)
    then forget_all v old (drop_all old p)
    else p

unfoldable pub reap_once : Env → SessionPool → SessionPool
unfolding reap_scan reap_delete enforce_max_evicted
reap_once v p = let (q, ks) = reap_scan v p in enforce_max_evicted v (reap_delete v ks q)

-- The callback by which a session reports its id; `owner` is the session that was attached to.
unfoldable pub handle_session_id_known : Env → Text → ℕ → Text → SessionPool → SessionPool
handle_session_id_known v cid owner sid p = elim (find cid p) [
  | none ↦ p
  | some e ↦
      if is_empty sid
      then p
      else if not (elim e.session [ none ↦ false | some s ↦ s == owner ])
      then p
      else if text_eq e.session_id sid
      then p
      else upsert_persist v cid (active_record sid e.last_used)
          (store cid (record e { session_id = sid }) p)
]

unfoldable pub mark_turn_finished : Env → Text → ℕ → SessionPool → SessionPool
mark_turn_finished v cid owner p = elim (find cid p) [
  | none ↦ p
  | some e ↦
      if e.active && elim e.session [ none ↦ false | some s ↦ s == owner ]
      then store cid (record e { last_used = v.now }) p
      else p
]

abbrev rehydrated : ℕ → PersistedRecord → PooledEntry
rehydrated now rec = record {
  session_id = rec.session_id;
  gate = record { busy = false; evicting = false; waiters = [] };
  active = false;
  session = none;
  last_used = rec.last_used;
  evicted_at = if ltb 0 rec.evicted_at then rec.evicted_at else now;
}

-- Each record with a session id becomes an evicted entry.
unfoldable rehydrate : ℕ → Table Text PersistedRecord → SessionPool → SessionPool
rehydrate now [] p = p
rehydrate now ((k, rec) ∷ m) p = rehydrate now m (
    if is_empty rec.session_id then p else record p {
      entries = put Text-discrete k (rehydrated now rec) p.entries;
      persist_state =
          put Text-discrete k
            (record rec { active = false; evicted_at = (rehydrated now rec).evicted_at })
            p.persist_state;
    })

unfoldable pub sessions_of : Table Text PooledEntry → List ℕ
sessions_of [] = []
sessions_of ((k, e) ∷ m) =
    let rest = sessions_of m in elim e.session [ none ↦ rest | some s ↦ s ∷ rest ]

unfoldable pub stop : SessionPool → SessionPool
unfolding sessions_of
stop p =
    if p.stopped
    then p
    else record p { stopped = true; entries = []; closed = sessions_of p.entries ++ p.closed }

-- `SetCap`; a negative `max` is 0 here, and both mean no limit.
unfoldable pub set_cap : ℕ → OverloadPolicy → SessionPool → SessionPool
set_cap max policy p = record p { max_active = max; overload_policy = policy }

unfoldable pub set_max_evicted : ℕ → SessionPool → SessionPool
set_max_evicted max p = record p { max_evicted = max }

-- Whether a turn runs or waits at any entry.
unfoldable any_mid_turn : SessionPool → Bool
unfolding in_flight
any_mid_turn p = any (λ e. in_flight e.1.gate) p.entries
