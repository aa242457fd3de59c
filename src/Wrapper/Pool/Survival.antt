-- ===== src/Wrapper/Pool/Survival.antt =====
-- What the reaper must leave alone.
use ahsir.Wrapper.Pool.Reaper.{
  reaped_entry, candidates, scan_evicted, idle_session, reap_scan, reap_delete, reap_once,
  drop_evicted, drop_all, enforce_max_evicted,
}
use ahsir.Prelude.{
  is_some, ◌-◌, if◌then◌else◌, inr, ◌∙◌, length, take, ap, map, ◌⊎◌, [], ◌∷◌, ℕ, ◌≡◌, none, some,
  arith, refl, true, false, List,
}
use ahsir.Prelude.Table.{get-put_self, get, get-delete}
use ahsir.Wrapper.Pool.Reaping.{get-scan_entries}
use ahsir.Wrapper.Pool.{
  fresh_entry, factory_failed, store, find, lookup_or_create, SessionPool, Env, PooledEntry,
}
use ahsir.Prelude.Text.{Text-discrete, Text}
use ahsir.Wrapper.Pool.Sessions.{upsert_all-same, forget_all-same, SameSessions}
use ahsir.Wrapper.Gate.{try_begin_eviction, in_flight}

-- A turn runs or waits at the entry's gate, or the entry is still without a session.
abbrev IsBusy : PooledEntry → Type 0
IsBusy e = (in_flight e.gate ≡ true) ⊎ (e.session ≡ none)

busy_not_idle : (now ttl : ℕ) (e : PooledEntry) → IsBusy e → idle_session now ttl e ≡ none
unfolding in_flight try_begin_eviction
busy_not_idle now ttl e b = ground arith

-- The entry of the context is there and active.
abbrev IsActiveAt : Text → PooledEntry → SessionPool → Type 0
IsActiveAt cid e p = (find cid p ≡ some e) × (e.active ≡ true)

same-IsActiveAt :
    {p q : SessionPool} (cid : Text) (e : PooledEntry)
    → SameSessions p q
    → IsActiveAt cid e p
    → IsActiveAt cid e q
same-IsActiveAt cid e s a = (ap (get Text-discrete cid) s.entries ∙ a.0, a.1)

drop_evicted-IsActiveAt :
    (k cid : Text) (e : PooledEntry) (p : SessionPool)
    → IsActiveAt cid e p
    → IsActiveAt cid e (drop_evicted k p)
unfolding drop_evicted
drop_evicted-IsActiveAt k cid e p a = ground (arith, get-delete Text-discrete k cid p.entries)

drop_all-IsActiveAt :
    (ks : List Text) (cid : Text) (e : PooledEntry) (p : SessionPool)
    → IsActiveAt cid e p
    → IsActiveAt cid e (drop_all ks p)
unfolding drop_all
drop_all-IsActiveAt [] cid e p a = a
drop_all-IsActiveAt (k ∷ ks) cid e p a =
    drop_all-IsActiveAt ks cid e (drop_evicted k p) (drop_evicted-IsActiveAt k cid e p a)

pub reap_delete-IsActiveAt :
    (v : Env) (ks : List Text) (cid : Text) (e : PooledEntry) (p : SessionPool)
    → IsActiveAt cid e p
    → IsActiveAt cid e (reap_delete v ks p)
unfolding reap_delete
reap_delete-IsActiveAt v ks cid e p a =
    same-IsActiveAt cid e (forget_all-same v ks (drop_all ks p)) (drop_all-IsActiveAt ks cid e p a)

enforce_max_evicted-IsActiveAt :
    (v : Env) (cid : Text) (e : PooledEntry) (p : SessionPool)
    → IsActiveAt cid e p
    → IsActiveAt cid e (enforce_max_evicted v p)
unfolding enforce_max_evicted
enforce_max_evicted-IsActiveAt v cid e p a = ground (
  arith,
  same-IsActiveAt cid e (forget_all-same v old (drop_all old p))
      (drop_all-IsActiveAt old cid e p a),
)
  where
    old : List Text
    old =
        map (λ c. c.0) (take (length (candidates p.entries) - p.max_evicted) (candidates p.entries))

reap_scan-IsActiveAt :
    (v : Env) (cid : Text) (e : PooledEntry) (p : SessionPool)
    → IsBusy e
    → IsActiveAt cid e p
    → IsActiveAt cid e (reap_scan v p).0
unfolding reap_scan
reap_scan-IsActiveAt v cid e p b a =
    same-IsActiveAt cid e (upsert_all-same v (scan_evicted v.now p.idle_ttl p.entries) _) (
      get-scan_entries v.now p.idle_ttl cid e p.entries a.0
          ∙ ap (λ o. some (if is_some o then reaped_entry v.now e else e))
              (busy_not_idle v.now p.idle_ttl e b),
      a.1,
    )

-- A pass of the reaper leaves an active entry exactly as it is while a turn runs or waits there or
-- it has no session yet, however long ago it was last used and whatever the limit on evicted
-- entries is. An evicted entry is not meant, even where its turn still runs.
pub reap_once-busy :
    (v : Env) (cid : Text) (e : PooledEntry) (p : SessionPool)
    → find cid p ≡ some e
    → e.active ≡ true
    → IsBusy e
    → find cid (reap_once v p) ≡ some e
unfolding reap_once
reap_once-busy v cid e p f a b =
    (enforce_max_evicted-IsActiveAt v cid e _ (
      reap_delete-IsActiveAt v (reap_scan v p).1 cid e (reap_scan v p).0
        (reap_scan-IsActiveAt v cid e p b (f, a)))).0

unfoldable pub reap_many : List Env → SessionPool → SessionPool
reap_many [] p = p
reap_many (v ∷ vs) p = reap_many vs (reap_once v p)

reap_many-busy :
    (vs : List Env) (cid : Text) (e : PooledEntry) (p : SessionPool)
    → find cid p ≡ some e
    → e.active ≡ true
    → IsBusy e
    → find cid (reap_many vs p) ≡ some e
unfolding reap_many
reap_many-busy [] cid e p f a b = f
reap_many-busy (v ∷ vs) cid e p f a b =
    reap_many-busy vs cid e (reap_once v p) (reap_once-busy v cid e p f a b) a b

refused_entry :
    (v : Env) (cid : Text) (p : SessionPool)
    → find cid p ≡ none
    → p.stopped ≡ false
    → p.max_active ≡ 0
    → v.factory cid [] ≡ none
    → lookup_or_create v cid p ≡ (store cid fresh_entry p, factory_failed)
unfolding lookup_or_create
refused_entry v cid p f s m e = ground (arith, get-put_self Text-discrete cid fresh_entry p.entries)

-- A context that is new and whose session cannot be started, in a pool without a capacity, leaves
-- an entry without a session that no number of passes of the reaper removes.
pub failed_entry_stays :
    (v : Env) (cid : Text) (p : SessionPool) (vs : List Env)
    → find cid p ≡ none
    → p.stopped ≡ false
    → p.max_active ≡ 0
    → v.factory cid [] ≡ none
    → let (q, o) = lookup_or_create v cid p in
      (o ≡ factory_failed) × (find cid (reap_many vs q) ≡ some fresh_entry)
failed_entry_stays v cid p vs f s m e = rw (refused_entry v cid p f s m e) (
  refl,
  reap_many-busy vs cid fresh_entry (store cid fresh_entry p)
      (get-put_self Text-discrete cid fresh_entry p.entries) refl (inr refl),
)
