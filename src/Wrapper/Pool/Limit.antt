-- ===== src/Wrapper/Pool/Limit.antt =====
-- A lookup keeps the number of live sessions within the pool's capacity.
use native.Mathlib.Decide.{dec_lt}
use mathlib.Core.Path.{subst}
use ahsir.Prelude.{
  if_of_eq, if◌then◌else◌, inr, inl, Option-cases, lt→ltb, Bool-cases, ◌∙◌, ◌+◌, ◌<◌, ◌≤◌, ℕ, ◌≡◌,
  none, some, Option, arith, refl, true, false,
}
use ahsir.Wrapper.Pool.{
  pool_stopped, fresh_entry, or_miss, lookup_or_create, ensure_entry, started_entry, Started,
  at_capacity, create, inspect, on_miss, inspect_session, install, evicted_entry, find, SessionPool,
  PooledEntry, Text, Env, enforce_cap,
}
use ahsir.Wrapper.Pool.Sessions.{
  inspect-Inv, inspect-Unheld, ensure_entry-Inv, create-Inv, holds, Unheld, Inv,
}
use ahsir.Wrapper.Pool.Capacity.{MadeRoom}
use ahsir.Prelude.Total.{total-put, total}
use ahsir.Prelude.Text.{Text-discrete, Text}
use ahsir.Wrapper.Pool.Room.{enforce_cap-MadeRoom, MadeRoom-total, MadeRoom-Inv, MadeRoom-Unheld}

install-total :
    (v : Env) (cid : Text) (e : PooledEntry) (r : Started) (p : SessionPool)
    → find cid p ≡ some e
    → e.session ≡ none
    → total holds (install v cid e r p).0.entries ≡ total holds p.entries + 1
unfolding install
install-total v cid e r p known free = ground (
  arith,
  total-put Text-discrete holds cid
      (started_entry v p.next_session (if r.notifies then e.session_id else r.id) e) p.entries,
)

create-total :
    (v : Env) (cid : Text) (p : SessionPool)
    → Unheld cid p
    → total holds (create v cid p).0.entries ≤ total holds p.entries + 1
unfolding create
create-total v cid p u = elim (Option-cases (find cid p)) [
  | inl missing ↦ rw (missing, create) (omega arith)
  | inr (e, known) ↦ elim (Option-cases (v.factory cid e.session_id)) [
    | inl failed ↦ rw (known, create, failed) (omega arith)
    | inr (r, made) ↦
        rw (known, create, made) (omega (arith, install-total v cid e r p known (u e known)))
  ]
]

inspect_session-total :
    (v : Env) (cid : Text) (p : SessionPool) (e : PooledEntry) (o : Option ℕ)
    → find cid p ≡ some e
    → e.session ≡ o
    → total holds (inspect_session v cid p e o).0.entries ≤ total holds p.entries
unfolding inspect_session
inspect_session-total v cid p e none known h = omega arith
inspect_session-total v cid p e (some s) known h = ground (
  arith,
  total-put Text-discrete holds cid (record e { last_used = v.now }) p.entries,
  total-put Text-discrete holds cid (evicted_entry v.now e) p.entries,
)

inspect-total :
    (v : Env) (cid : Text) (p : SessionPool)
    → total holds (inspect v cid p).0.entries ≤ total holds p.entries
unfolding inspect
inspect-total v cid p = elim (Option-cases (find cid p)) [
  | inl missing ↦ rw (missing, inspect) (omega arith)
  | inr (e, known) ↦ rw (known, inspect) (inspect_session-total v cid p e e.session known refl)
]

-- An entry without a session is a miss that changes nothing.
inspect-Unheld_kept :
    (v : Env) (cid : Text) (p : SessionPool) → Unheld cid p → inspect v cid p ≡ (p, none)
unfolding inspect
inspect-Unheld_kept v cid p u = elim (Option-cases (find cid p)) [
  | inl missing ↦ rw (missing, inspect)
  | inr (e, known) ↦ rw (known, inspect, u e known)
]

on_miss-made :
    (v : Env) (cid : Text) (p q : SessionPool)
    → 0 < p.max_active
    → enforce_cap v cid p ≡ some q
    → Unheld cid q
    → on_miss v cid p ≡ create v cid q
unfolding on_miss
on_miss-made v cid p q m e u = rw (lt→ltb 0 p.max_active m, e, inspect-Unheld_kept v cid q u)

on_miss-refused :
    (v : Env) (cid : Text) (p : SessionPool)
    → 0 < p.max_active
    → enforce_cap v cid p ≡ none
    → on_miss v cid p ≡ (p, at_capacity)
unfolding on_miss
on_miss-refused v cid p m e = rw (lt→ltb 0 p.max_active m, e)

on_miss_unlimited :
    (v : Env) (cid : Text) (p : SessionPool) → p.max_active ≡ 0 → on_miss v cid p ≡ create v cid p
unfolding on_miss
on_miss_unlimited v cid p m = ground arith

on_miss-Inv :
    (v : Env) (cid : Text) (p : SessionPool) → Unheld cid p → Inv p → Inv (on_miss v cid p).0
on_miss-Inv v cid p u i = elim (dec_lt 0 p.max_active) [
  | no zero_cap ↦ rw (on_miss_unlimited v cid p (omega arith)) (create-Inv v cid p u i)
  | yes capped ↦ elim (Option-cases (enforce_cap v cid p)) [
    | inl full ↦ rw (on_miss-refused v cid p capped full) i
    | inr (q, made) ↦
        let r : MadeRoom v cid p q = enforce_cap-MadeRoom v cid p i u capped made in
        let u' : Unheld cid q = MadeRoom-Unheld v cid p q r u in
        rw (on_miss-made v cid p q capped made u')
          (create-Inv v cid q u' (MadeRoom-Inv v cid p q r i))
  ]
]

on_miss-total :
    (v : Env) (cid : Text) (p : SessionPool)
    → Unheld cid p
    → Inv p
    → 0 < p.max_active
    → total holds p.entries ≤ p.max_active
    → total holds (on_miss v cid p).0.entries ≤ p.max_active
on_miss-total v cid p u i capped l = elim (Option-cases (enforce_cap v cid p)) [
  | inl full ↦ rw (on_miss-refused v cid p capped full) l
  | inr (q, made) ↦
      let r : MadeRoom v cid p q = enforce_cap-MadeRoom v cid p i u capped made in
      let u' : Unheld cid q = MadeRoom-Unheld v cid p q r u in
      rw (on_miss-made v cid p q capped made u')
        (omega (arith, create-total v cid q u', MadeRoom-total v cid p q r l capped))
]

-- What a lookup comes to, once the entry was looked at.
looked-Inv :
    (v : Env) (cid : Text) (p : SessionPool) (o : Option ℕ)
    → (o ≡ none → Unheld cid p)
    → Inv p
    → Inv (or_miss v cid (p, o)).0
looked-Inv v cid p none u i = on_miss-Inv v cid p (u refl) i
looked-Inv v cid p (some s) u i = i

looked-total :
    (v : Env) (cid : Text) (p : SessionPool) (o : Option ℕ)
    → (o ≡ none → Unheld cid p)
    → Inv p
    → 0 < p.max_active
    → total holds p.entries ≤ p.max_active
    → total holds (or_miss v cid (p, o)).0.entries ≤ p.max_active
looked-total v cid p none u i m l = on_miss-total v cid p (u refl) i m l
looked-total v cid p (some s) u i m l = l

pub lookup_stopped :
    (v : Env) (cid : Text) (p : SessionPool)
    → p.stopped ≡ true
    → lookup_or_create v cid p ≡ (p, pool_stopped)
unfolding lookup_or_create
lookup_stopped v cid p e = if_of_eq _ _ e

pub lookup_going :
    (v : Env) (cid : Text) (p : SessionPool)
    → p.stopped ≡ false
    → lookup_or_create v cid p ≡ or_miss v cid (inspect v cid (ensure_entry cid p))
unfolding lookup_or_create
lookup_going v cid p e = if_of_eq _ _ e

pub lookup-Inv : (v : Env) (cid : Text) (p : SessionPool) → Inv p → Inv (lookup_or_create v cid p).0
lookup-Inv v cid p i = elim (Bool-cases p.stopped) [
  | inl stopped ↦ rw (lookup_stopped v cid p stopped) i
  | inr going ↦
      let j = ensure_entry-Inv cid p i in
      rw (lookup_going v cid p going) (
        looked-Inv v cid _ (inspect v cid (ensure_entry cid p)).1
          (inspect-Unheld v cid (ensure_entry cid p) j) (inspect-Inv v cid _ j))
]

ensure_entry-total :
    (cid : Text) (p : SessionPool)
    → total holds (ensure_entry cid p).entries ≡ total holds p.entries
unfolding ensure_entry
ensure_entry-total cid p = ground (arith, total-put Text-discrete holds cid fresh_entry p.entries)

inspect-max :
    (v : Env) (cid : Text) (p : SessionPool) → (inspect v cid p).0.max_active ≡ p.max_active
unfolding inspect
inspect-max v cid p = ground arith

ensure-max : (cid : Text) (p : SessionPool) → (ensure_entry cid p).max_active ≡ p.max_active
unfolding ensure_entry
ensure-max cid p = ground arith

-- A pool with the invariant and a capacity that holds at most that many live sessions still does
-- after a lookup, whatever the policy, the factory and the health of the sessions.
pub lookup_within_cap :
    (v : Env) (cid : Text) (p : SessionPool)
    → Inv p
    → 0 < p.max_active
    → total holds p.entries ≤ p.max_active
    → total holds (lookup_or_create v cid p).0.entries ≤ p.max_active
lookup_within_cap v cid p i m l = elim (Bool-cases p.stopped) [
  | inl stopped ↦ rw (lookup_stopped v cid p stopped) l
  | inr going ↦
      let p' = ensure_entry cid p in
      let j = ensure_entry-Inv cid p i in
      let same : (inspect v cid p').0.max_active ≡ p.max_active =
        inspect-max v cid p' ∙ ensure-max cid p in
      rw (lookup_going v cid p going) (
        subst
          (λ n.
            total holds (or_miss v cid ((inspect v cid p').0, (inspect v cid p').1)).0.entries ≤ n)
          same
          (looked-total v cid (inspect v cid p').0 (inspect v cid p').1 (inspect-Unheld v cid p' j)
            (inspect-Inv v cid p' j) (omega arith)
            (omega (arith, inspect-total v cid p', ensure_entry-total cid p))))
]
