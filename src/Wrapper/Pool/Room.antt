-- ===== src/Wrapper/Pool/Room.antt =====
-- What a successful capacity check did, and that it keeps the pool in order.
use mathlib.Core.Path.{subst}
use mathlib.Core.Option.{some-injective}
use ahsir.Prelude.{
  inr, inl, ltb, Bool-cases, ◌∙◌, is_some, ◌+◌, sym, ◌<◌, ◌≤◌, ◌≢◌, ◌≡◌, none, some, Option, arith,
  refl, true,
}
use ahsir.Wrapper.Pool.{
  evict_lru, other_policy, reject, over_cap, evicted_entry, scan, find, OverloadPolicy, SessionPool,
  PooledEntry, Text, upsert_persist, evict_for_cap, Env, enforce_cap,
}
use ahsir.Wrapper.Pool.Sessions.{evict_for_cap-Inv, holds, Unheld, Inv}
use ahsir.Wrapper.Pool.Capacity.{
  scan_finds, scan-IsVictim, Unheld-count, evicted, room, IsVictim, MadeRoom,
}
use ahsir.Prelude.Total.{total-put, total}
use ahsir.Prelude.Text.{Text-discrete, Text}
use ahsir.Prelude.Table.{get-put}

over_cap-MadeRoom :
    (v : Env) (cid : Text) (p : SessionPool) (policy : OverloadPolicy)
    (lru : Option (Text × PooledEntry)) {q : SessionPool}
    → p.overload_policy ≡ policy
    → p.max_active ≤ total holds p.entries
    → Inv p
    → (scan cid p.entries 0 none).1 ≡ lru
    → is_some lru ≡ true
    → over_cap v policy lru p ≡ some q
    → MadeRoom v cid p q
over_cap-MadeRoom v cid p reject lru o h i s n e = cc
over_cap-MadeRoom v cid p other_policy lru o h i s n e = cc
over_cap-MadeRoom v cid p evict_lru none o h i s n e = cc
over_cap-MadeRoom v cid p evict_lru (some (k, d)) o h i s n e =
    subst (MadeRoom v cid p) (some-injective _ _ e)
      (evicted k d o h (scan-IsVictim cid p.entries k d i.keyed s))

-- In a pool with the invariant and a capacity, for a context without a session: a capacity check
-- that succeeds found room for one session, or evicted the least recently used live session of
-- another context under the policy that evicts.
pub enforce_cap-MadeRoom :
    (v : Env) (cid : Text) (p : SessionPool) {q : SessionPool}
    → Inv p
    → Unheld cid p
    → 0 < p.max_active
    → enforce_cap v cid p ≡ some q
    → MadeRoom v cid p q
unfolding enforce_cap
enforce_cap-MadeRoom v cid p i u h e =
    let counted = Unheld-count cid p i u in
    elim (Bool-cases (ltb (scan cid p.entries 0 none).0 p.max_active)) [
      | inl fits ↦
          subst (MadeRoom v cid p) (some-injective _ _ (rw (fits, enforce_cap) at e))
            (room (ground arith))
      | inr full ↦
          over_cap-MadeRoom v cid p p.overload_policy (scan cid p.entries 0 none).1 refl
            (ground arith) i refl (scan_finds cid p.entries 0 none (inl refl) (ground arith))
            (rw (full, enforce_cap) at e)
    ]

evict_for_cap-total :
    (v : Env) (cid k : Text) (e : PooledEntry) (p : SessionPool)
    → IsVictim cid p.entries k e
    → total holds (evict_for_cap v k e p).entries + 1 ≡ total holds p.entries
unfolding evict_for_cap upsert_persist
evict_for_cap-total v cid k e p t =
    ground
      (arith, t.found, t.live, total-put Text-discrete holds k (evicted_entry v.later e) p.entries)

pub MadeRoom-total :
    (v : Env) (cid : Text) (p q : SessionPool)
    → MadeRoom v cid p q
    → total holds p.entries ≤ p.max_active
    → 0 < p.max_active
    → total holds q.entries < p.max_active
MadeRoom-total v cid p q (room h) l m = h
MadeRoom-total v cid p q (evicted k e o f t) l m = omega (arith, evict_for_cap-total v cid k e p t)

pub MadeRoom-Inv : (v : Env) (cid : Text) (p q : SessionPool) → MadeRoom v cid p q → Inv p → Inv q
MadeRoom-Inv v cid p q (room h) i = i
MadeRoom-Inv v cid p q (evicted k e o f t) i = evict_for_cap-Inv v k e p t.found i

evict_for_cap-find :
    (v : Env) (cid k : Text) (e : PooledEntry) (p : SessionPool)
    → k ≢ cid
    → find cid (evict_for_cap v k e p) ≡ find cid p
unfolding evict_for_cap upsert_persist
evict_for_cap-find v cid k e p n =
    ground (arith, get-put Text-discrete k cid (evicted_entry v.later e) p.entries)

pub MadeRoom-Unheld :
    (v : Env) (cid : Text) (p q : SessionPool) → MadeRoom v cid p q → Unheld cid p → Unheld cid q
MadeRoom-Unheld v cid p q (room h) u = u
MadeRoom-Unheld v cid p q (evicted k e o f t) u =
    λ d known. u d (sym (evict_for_cap-find v cid k e p t.other) ∙ known)
