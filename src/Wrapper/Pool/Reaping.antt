-- ===== src/Wrapper/Pool/Reaping.antt =====
-- What a pass of the reaper keeps.
use mathlib.Core.Option.{some-injective}
use ahsir.Wrapper.Pool.Reaper.{
  scan_evicted, candidates, reaped_entry, idle_session, scan_closed, reap_delete, scan_entries,
  reap_scan, drop_all, reap_once, drop_evicted, enforce_max_evicted,
}
use ahsir.Prelude.{
  ◌++◌, Option-cases, ◌-◌, length-append, if_neg, inr, take, length, ap, ◌+◌, map, inl, if_pos,
  Bool-cases, is_some, All, if◌then◌else◌, [], ◌∷◌, ℕ, ◌≡◌, some, arith, refl, List,
}
use ahsir.Prelude.Total.{total-delete, get-All, delete-All, total}
use ahsir.Prelude.Table.{delete-Keyed, delete, Keyed, Misses, Table, get}
use ahsir.Wrapper.Pool.Sessions.{upsert_all-same, forget_all-same, Inv-same, holds, Inv, IsRested}
use ahsir.Wrapper.Pool.{find, SessionPool, get, Env, Table, Text, PooledEntry}
use ahsir.Prelude.Text.{Text-discrete, Text}

abbrev scanned : ℕ → ℕ → PooledEntry → PooledEntry
scanned now ttl e = if is_some (idle_session now ttl e) then reaped_entry now e else e

scan_entries-Misses :
    (now ttl : ℕ) (k : Text) (m : Table Text PooledEntry)
    → Misses k m
    → Misses k (scan_entries now ttl m)
unfolding scan_entries
scan_entries-Misses now ttl k [] h = tt
scan_entries-Misses now ttl k ((j, e) ∷ m) h = (h.0, scan_entries-Misses now ttl k m h.1)

scan_entries-Keyed :
    (now ttl : ℕ) (m : Table Text PooledEntry) → Keyed m → Keyed (scan_entries now ttl m)
unfolding scan_entries
scan_entries-Keyed now ttl [] h = tt
scan_entries-Keyed now ttl ((j, e) ∷ m) h =
    (scan_entries-Misses now ttl j m h.0, scan_entries-Keyed now ttl m h.1)

scanned-IsRested : (now ttl : ℕ) (e : PooledEntry) → IsRested e → IsRested (scanned now ttl e)
scanned-IsRested now ttl e r a = elim (Bool-cases (is_some (idle_session now ttl e))) [
  | inl idle ↦ rw idle refl
  | inr kept ↦ rw kept (r (rw kept at a))
]

scan_entries-IsRested :
    (now ttl : ℕ) (m : Table Text PooledEntry)
    → All (λ e. IsRested e.1) m
    → All (λ e. IsRested e.1) (scan_entries now ttl m)
unfolding scan_entries
scan_entries-IsRested now ttl [] r = tt
scan_entries-IsRested now ttl ((j, e) ∷ m) r =
    (scanned-IsRested now ttl e r.0, scan_entries-IsRested now ttl m r.1)

-- The scan closes one session for each entry that it takes it from.
scan_entries-total :
    (now ttl : ℕ) (m : Table Text PooledEntry)
    → total holds (scan_entries now ttl m) + length (scan_closed now ttl m) ≡ total holds m
unfolding scan_entries scan_closed
scan_entries-total now ttl [] = omega arith
scan_entries-total now ttl ((j, e) ∷ m) = ground (arith, scan_entries-total now ttl m)

pub get-scan_entries :
    (now ttl : ℕ) (k : Text) (e : PooledEntry) (m : Table Text PooledEntry)
    → get Text-discrete k m ≡ some e
    → get Text-discrete k (scan_entries now ttl m) ≡ some (scanned now ttl e)
unfolding scan_entries get
get-scan_entries now ttl k e [] h = cc
get-scan_entries now ttl k e ((j, d) ∷ m) h = elim (Text-discrete j k) [
  | yes p ↦
      rw (if_pos _ p)
        (ap (λ x. some (scanned now ttl x)) (some-injective _ _ (rw (if_pos _ p) at h)))
  | no n ↦ rw (if_neg _ n) (get-scan_entries now ttl k e m (rw (if_neg _ n) at h))
]

reap_scan-Inv : (v : Env) (p : SessionPool) → Inv p → Inv (reap_scan v p).0
unfolding reap_scan
reap_scan-Inv v p i =
    Inv-same (upsert_all-same v (scan_evicted v.now p.idle_ttl p.entries) swept) swept-Inv
  where
    swept : SessionPool
    swept = record p {
      entries = scan_entries v.now p.idle_ttl p.entries;
      closed = scan_closed v.now p.idle_ttl p.entries ++ p.closed;
    }

    swept-Inv : Inv swept
    swept-Inv = record {
      keyed = scan_entries-Keyed v.now p.idle_ttl p.entries i.keyed;
      rested = scan_entries-IsRested v.now p.idle_ttl p.entries i.rested;
      accounted = omega (
        arith,
        scan_entries-total v.now p.idle_ttl p.entries,
        length-append (scan_closed v.now p.idle_ttl p.entries) p.closed,
        i.accounted,
      );
    }

drop_evicted-Inv : (k : Text) (p : SessionPool) → Inv p → Inv (drop_evicted k p)
unfolding drop_evicted
drop_evicted-Inv k p i = elim (Option-cases (find k p)) [
  | inl missing ↦ rw (missing, drop_evicted) i
  | inr (e, known) ↦ rw (known, drop_evicted) (by_state e known)
]
  where
    by_state :
        (e : PooledEntry)
        → find k p ≡ some e
        → Inv (if e.active then p else record p { entries = delete Text-discrete k p.entries })
    by_state e known = elim (Bool-cases e.active) [
      | inl active ↦ rw active i
      | inr resting ↦ rw resting (record {
        keyed = delete-Keyed Text-discrete k p.entries i.keyed;
        rested = delete-All Text-discrete IsRested k p.entries i.rested;
        accounted = ground (
          arith,
          get-All Text-discrete IsRested k e p.entries known i.rested resting,
          total-delete Text-discrete holds k p.entries i.keyed,
          i.accounted,
        );
      })
    ]

drop_all-Inv : (ks : List Text) (p : SessionPool) → Inv p → Inv (drop_all ks p)
unfolding drop_all
drop_all-Inv [] p i = i
drop_all-Inv (k ∷ ks) p i = drop_all-Inv ks (drop_evicted k p) (drop_evicted-Inv k p i)

reap_delete-Inv : (v : Env) (ks : List Text) (p : SessionPool) → Inv p → Inv (reap_delete v ks p)
unfolding reap_delete
reap_delete-Inv v ks p i = Inv-same (forget_all-same v ks (drop_all ks p)) (drop_all-Inv ks p i)

enforce_max_evicted-Inv : (v : Env) (p : SessionPool) → Inv p → Inv (enforce_max_evicted v p)
unfolding enforce_max_evicted
enforce_max_evicted-Inv v p i =
    ground (arith, Inv-same (forget_all-same v old (drop_all old p)) (drop_all-Inv old p i))
  where
    old : List Text
    old =
        map (λ c. c.0) (take (length (candidates p.entries) - p.max_evicted) (candidates p.entries))

pub reap_once-Inv : (v : Env) (p : SessionPool) → Inv p → Inv (reap_once v p)
unfolding reap_once
reap_once-Inv v p i =
    enforce_max_evicted-Inv v _
      (reap_delete-Inv v (reap_scan v p).1 (reap_scan v p).0 (reap_scan-Inv v p i))
