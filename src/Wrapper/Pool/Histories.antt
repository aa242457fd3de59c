-- ===== src/Wrapper/Pool/Histories.antt =====
-- Every history of calls, and the end of the pool.
use ahsir.Wrapper.Pool.Reaper.{
  set_max_evicted, set_cap, reap_once, handle_session_id_known, mark_turn_finished, stop,
  sessions_of,
}
use ahsir.Wrapper.Pool.{
  OverloadPolicy, active_record, store, pool_stopped, find, PooledEntry, lookup_or_create, Table,
  SessionPool, Env,
}
use ahsir.Prelude.{
  sym, ◌∙◌, length-append, if_of_eq, ◌++◌, inr, inl, Option-cases, length, [], ◌∷◌, ℕ, ◌≡◌, some,
  arith, refl, true, false, List,
}
use ahsir.Wrapper.Pool.Limit.{lookup_stopped, lookup-Inv}
use ahsir.Wrapper.Pool.Sessions.{store-Inv, upsert_persist-same, Inv-same, IsRested, holds, Inv}
use ahsir.Prelude.Text.{Text-discrete, Text}
use ahsir.Prelude.Total.{get-All, total}
use ahsir.Wrapper.Pool.Reaping.{reap_once-Inv}
use ahsir.Prelude.Table.{Table}

-- One method call.
pub data Call : Type 0 where
  looks : Text → Call
  reaps : Call
  reports : Text → ℕ → Text → Call
  finishes : Text → ℕ → Call
  caps : ℕ → OverloadPolicy → Call
  limits : ℕ → Call

unfoldable pub perform : Env → Call → SessionPool → SessionPool
perform v (looks cid) p = (lookup_or_create v cid p).0
perform v reaps p = reap_once v p
perform v (reports cid owner sid) p = handle_session_id_known v cid owner sid p
perform v (finishes cid owner) p = mark_turn_finished v cid owner p
perform v (caps max policy) p = set_cap max policy p
perform v (limits max) p = set_max_evicted max p

unfoldable pub perform_all : List (Env × Call) → SessionPool → SessionPool
perform_all [] p = p
perform_all ((v, c) ∷ cs) p = perform_all cs (perform v c p)

restored-Inv :
    (p : SessionPool) (k : Text) (e d : PooledEntry)
    → find k p ≡ some e
    → d.session ≡ e.session
    → d.active ≡ e.active
    → Inv p
    → Inv (store k d p)
restored-Inv p k e d known s a i =
    let r : IsRested e = get-All Text-discrete IsRested k e p.entries known i.rested in
    store-Inv p (store k d p) k d refl (λ h. s ∙ r (sym a ∙ h)) (rw (known, s) (omega arith)) i

handle_session_id_known-Inv :
    (v : Env) (cid : Text) (owner : ℕ) (sid : Text) (p : SessionPool)
    → Inv p
    → Inv (handle_session_id_known v cid owner sid p)
unfolding handle_session_id_known
handle_session_id_known-Inv v cid owner sid p i = elim (Option-cases (find cid p)) [
  | inl missing ↦ rw (missing, handle_session_id_known) i
  | inr (e, known) ↦
      let d : PooledEntry = record e { session_id = sid } in
      ground (
        arith,
        i,
        Inv-same (upsert_persist-same v cid (active_record sid e.last_used) (store cid d p))
            (restored-Inv p cid e d known refl refl i),
      )
]

mark_turn_finished-Inv :
    (v : Env) (cid : Text) (owner : ℕ) (p : SessionPool)
    → Inv p
    → Inv (mark_turn_finished v cid owner p)
unfolding mark_turn_finished
mark_turn_finished-Inv v cid owner p i = elim (Option-cases (find cid p)) [
  | inl missing ↦ rw (missing, mark_turn_finished) i
  | inr (e, known) ↦
      let d : PooledEntry = record e { last_used = v.now } in
      ground (arith, i, restored-Inv p cid e d known refl refl i)
]

perform-Inv : (v : Env) (c : Call) (p : SessionPool) → Inv p → Inv (perform v c p)
unfolding perform set_cap set_max_evicted
perform-Inv v (looks cid) p i = lookup-Inv v cid p i
perform-Inv v reaps p i = reap_once-Inv v p i
perform-Inv v (reports cid owner sid) p i = handle_session_id_known-Inv v cid owner sid p i
perform-Inv v (finishes cid owner) p i = mark_turn_finished-Inv v cid owner p i
perform-Inv v (caps max policy) p i = record {
  keyed = i.keyed;
  rested = i.rested;
  accounted = i.accounted;
}
perform-Inv v (limits max) p i = record {
  keyed = i.keyed;
  rested = i.rested;
  accounted = i.accounted;
}

-- From a pool with the invariant, through every history of lookups, reaper passes, reported ids,
-- finished turns and new limits: no context has two entries, an evicted entry holds no session, and
-- the sessions ever started are as many as the entries that hold one and the calls of `Close`
-- together.
pub perform_all-Inv : (cs : List (Env × Call)) (p : SessionPool) → Inv p → Inv (perform_all cs p)
unfolding perform_all
perform_all-Inv [] p i = i
perform_all-Inv ((v, c) ∷ cs) p i = perform_all-Inv cs (perform v c p) (perform-Inv v c p i)

sessions_of-length : (m : Table Text PooledEntry) → length (sessions_of m) ≡ total holds m
unfolding sessions_of
sessions_of-length [] = refl
sessions_of-length ((k, e) ∷ m) = ground (arith, sessions_of-length m)

-- A pool with the invariant that still runs after a history, and is then stopped, has closed as many
-- sessions as were ever started, holds no entry, and refuses every later lookup.
pub stop_closes_all :
    (cs : List (Env × Call)) (p : SessionPool) (v : Env) (cid : Text)
    → Inv p
    → (perform_all cs p).stopped ≡ false
    → let q = stop (perform_all cs p) in
      (length q.closed ≡ q.next_session)
      × (q.entries ≡ [])
      × (lookup_or_create v cid q ≡ (q, pool_stopped))
unfolding stop
stop_closes_all cs p v cid i going =
    let i' = perform_all-Inv cs p i in
    let r : SessionPool = perform_all cs p in
    let ended : stop r
        ≡ record r { stopped = true; entries = []; closed = sessions_of r.entries ++ r.closed } =
      if_of_eq _ _ going in
    rw ended (
      omega (
        arith,
        length-append (sessions_of r.entries) r.closed,
        sessions_of-length r.entries,
        i'.accounted,
      ),
      refl,
      lookup_stopped v cid _ refl,
    )
