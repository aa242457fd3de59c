-- ===== src/Wrapper/Pool/Lifetime.antt =====
-- The life of a session: who gets it, and that every one is closed in the end.
use mathlib.Core.Path.{subst}
use ahsir.Wrapper.Pool.{
  ensure_entry, enforce_cap, factory_failed, at_capacity, on_miss, lookup_or_create, or_create,
  or_miss, store, pool_stopped, started_entry, find, got, Started, Outcome, PooledEntry,
  SessionPool, Env, create, install, inspect_session, inspect,
}
use ahsir.Wrapper.Pool.Limit.{lookup_going, lookup_stopped}
use ahsir.Prelude.{
  ltb, ◌∙◌, ap, sym, not, ◌&&◌, if_of_eq, if◌then◌else◌, inr, inl, Bool-cases, Option-cases, ℕ, ◌≡◌,
  none, some, Option, arith, refl, true, false,
}
use ahsir.Prelude.Text.{Text-discrete, Text}
use ahsir.Prelude.Table.{get-put_self}

-- The entry of a context holds a live session.
abbrev pub Serves : Text → ℕ → SessionPool → Type 0
Serves cid s p =
    (e : PooledEntry) × (find cid p ≡ some e) × (e.active ≡ true) × (e.session ≡ some s)

install-Serves :
    (v : Env) (cid : Text) (e : PooledEntry) (r : Started) (p : SessionPool)
    → Serves cid p.next_session (install v cid e r p).0
unfolding install
install-Serves v cid e r p = (
  started_entry v p.next_session sid e,
  ground (arith, get-put_self Text-discrete cid (started_entry v p.next_session sid e) p.entries),
  refl,
  refl,
)
  where
    sid : Text
    sid = if r.notifies then e.session_id else r.id

-- A session that is handed out is live in its context's entry.
abbrev Delivers : Text → SessionPool × Outcome → Type 0
Delivers cid (p, got s) = Serves cid s p
Delivers cid (p, _) = Unit

create-Delivers : (v : Env) (cid : Text) (p : SessionPool) → Delivers cid (create v cid p)
unfolding create
create-Delivers v cid p = elim (Option-cases (find cid p)) [
  | inl missing ↦ rw (missing, create) tt
  | inr (e, known) ↦ elim (Option-cases (v.factory cid e.session_id)) [
    | inl failed ↦ rw (known, create, failed) tt
    | inr (r, made) ↦ rw (known, create, made) (install-Serves v cid e r p)
  ]
]

-- A hit hands out the entry's session.
abbrev HitServes : Text → SessionPool × Option ℕ → Type 0
HitServes cid (p, none) = Unit
HitServes cid (p, some s) = Serves cid s p

inspect_session_hit :
    (v : Env) (cid : Text) (p : SessionPool) (e : PooledEntry) (s : ℕ)
    → e.active ≡ true
    → v.healthy s ≡ true
    → inspect_session v cid p e (some s) ≡ (store cid (record e { last_used = v.now }) p, some s)
unfolding inspect_session
inspect_session_hit v cid p e s live well = if_of_eq _ _ (ap not live) ∙ if_of_eq _ _ well

inspect_session_miss :
    (v : Env) (cid : Text) (p : SessionPool) (e : PooledEntry) (s : ℕ)
    → (e.active && v.healthy s) ≡ false
    → (inspect_session v cid p e (some s)).1 ≡ none
unfolding inspect_session
inspect_session_miss v cid p e s h = ground arith

none-HitServes : (cid : Text) (r : SessionPool × Option ℕ) → r.1 ≡ none → HitServes cid r
none-HitServes cid (p, none) h = tt
none-HitServes cid (p, some s) h = cc

inspect_session-Serves :
    (v : Env) (cid : Text) (p : SessionPool) (e : PooledEntry) (o : Option ℕ)
    → e.session ≡ o
    → HitServes cid (inspect_session v cid p e o)
unfolding inspect_session
inspect_session-Serves v cid p e none h = tt
inspect_session-Serves v cid p e (some s) h = elim (Bool-cases (e.active && v.healthy s)) [
  | inr lost ↦
      none-HitServes cid (inspect_session v cid p e (some s))
        (inspect_session_miss v cid p e s lost)
  | inl kept ↦
      subst (HitServes cid) (sym (inspect_session_hit v cid p e s (ground arith) (ground arith))) (
        record e { last_used = v.now },
        get-put_self Text-discrete cid (record e { last_used = v.now }) p.entries,
        ground arith,
        h,
      )
]

inspect-Serves : (v : Env) (cid : Text) (p : SessionPool) → HitServes cid (inspect v cid p)
unfolding inspect
inspect-Serves v cid p = elim (Option-cases (find cid p)) [
  | inl missing ↦ rw (missing, inspect) tt
  | inr (e, known) ↦ rw (known, inspect) (inspect_session-Serves v cid p e e.session refl)
]

or_create-Delivers :
    (v : Env) (cid : Text) (p : SessionPool) (o : Option ℕ)
    → HitServes cid (p, o)
    → Delivers cid (or_create v cid (p, o))
or_create-Delivers v cid p none h = create-Delivers v cid p
or_create-Delivers v cid p (some s) h = h

on_miss-Delivers : (v : Env) (cid : Text) (p : SessionPool) → Delivers cid (on_miss v cid p)
unfolding on_miss
on_miss-Delivers v cid p = elim (Bool-cases (ltb 0 p.max_active)) [
  | inr unlimited ↦ subst (Delivers cid) (sym (if_of_eq _ _ unlimited)) (create-Delivers v cid p)
  | inl capped ↦ subst (Delivers cid) (sym (if_of_eq _ _ capped)) (after (enforce_cap v cid p))
]
  where
    after :
        (o : Option SessionPool)
        → Delivers cid
            (elim o [ none ↦ (p, at_capacity) | some q ↦ or_create v cid (inspect v cid q) ])
    after none = tt
    after (some q) =
        or_create-Delivers v cid (inspect v cid q).0 (inspect v cid q).1 (inspect-Serves v cid q)

or_miss-Delivers :
    (v : Env) (cid : Text) (p : SessionPool) (o : Option ℕ)
    → HitServes cid (p, o)
    → Delivers cid (or_miss v cid (p, o))
or_miss-Delivers v cid p none h = on_miss-Delivers v cid p
or_miss-Delivers v cid p (some s) h = h

lookup-Delivers : (v : Env) (cid : Text) (p : SessionPool) → Delivers cid (lookup_or_create v cid p)
lookup-Delivers v cid p = elim (Bool-cases p.stopped) [
  | inl stopped ↦ subst (Delivers cid) (sym (lookup_stopped v cid p stopped)) tt
  | inr going ↦ subst (Delivers cid) (sym (lookup_going v cid p going)) (
      or_miss-Delivers v cid (inspect v cid (ensure_entry cid p)).0
        (inspect v cid (ensure_entry cid p)).1 (inspect-Serves v cid (ensure_entry cid p)))
]

delivered :
    (cid : Text) (s : ℕ) (r : SessionPool × Outcome)
    → r.1 ≡ got s
    → Delivers cid r
    → Serves cid s r.0
delivered cid s (p, got t) e d = ground arith
delivered cid s (p, pool_stopped) e d = cc
delivered cid s (p, at_capacity) e d = cc
delivered cid s (p, factory_failed) e d = cc

-- A session that a lookup hands out is the one that the context's entry now holds, and the entry
-- is active.
pub lookup-Serves :
    (v : Env) (cid : Text) (s : ℕ) (p : SessionPool)
    → (lookup_or_create v cid p).1 ≡ got s
    → Serves cid s (lookup_or_create v cid p).0
lookup-Serves v cid s p e = delivered cid s (lookup_or_create v cid p) e (lookup-Delivers v cid p)
