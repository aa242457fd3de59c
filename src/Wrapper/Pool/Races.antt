-- ===== src/Wrapper/Pool/Races.antt =====
-- A lookup between the two halves of a reaper's pass. `reapOnce` releases every lock between its
-- scan and its deletions.
use ahsir.Wrapper.Pool.Survival.{reap_delete-IsActiveAt}
use ahsir.Wrapper.Pool.Lifetime.{lookup-Serves, Serves}
use ahsir.Wrapper.Pool.{got, lookup_or_create, get, SessionPool, Env, forget}
use ahsir.Wrapper.Pool.Reaper.{reap_scan, drop_evicted, reap_delete, forget_all, drop_all}
use ahsir.Prelude.Text.{text_eq, Text-discrete, Text}
use ahsir.Prelude.Table.{get, get-delete}
use ahsir.Prelude.{◌∙◌, any, [], ◌∷◌, ℕ, ◌≡◌, none, arith, refl, true, Bool, List}

abbrev pub listed : Text → List Text → Bool
listed k ks = any (λ j. text_eq j k) ks

drop_evicted-persisting :
    (k : Text) (p : SessionPool) → (drop_evicted k p).persisting ≡ p.persisting
unfolding drop_evicted
drop_evicted-persisting k p = ground arith

drop_all-persisting : (ks : List Text) (p : SessionPool) → (drop_all ks p).persisting ≡ p.persisting
unfolding drop_all
drop_all-persisting [] p = refl
drop_all-persisting (k ∷ ks) p =
    drop_all-persisting ks (drop_evicted k p) ∙ drop_evicted-persisting k p

-- The mapping is gone, and the callback was called.
record IsForgotten (cid : Text) (p : SessionPool) : Type 0 where
  unmapped : get Text-discrete cid p.persist_state ≡ none
  notified : listed cid p.forgotten ≡ true

forget-persisting :
    (v : Env) (k : Text) (p : SessionPool) → (forget v k p).persisting ≡ p.persisting
unfolding forget
forget-persisting v k p = ground arith

forget-IsForgotten :
    (v : Env) (cid : Text) (p : SessionPool)
    → p.persisting ≡ true
    → IsForgotten cid (forget v cid p)
unfolding forget
forget-IsForgotten v cid p h = record {
  unmapped = ground (arith, get-delete Text-discrete cid cid p.persist_state);
  notified = ground arith;
}

forget-still :
    (v : Env) (k cid : Text) (p : SessionPool) → IsForgotten cid p → IsForgotten cid (forget v k p)
unfolding forget
forget-still v k cid p f = record {
  unmapped = ground (arith, get-delete Text-discrete k cid p.persist_state, f.unmapped);
  notified = ground (arith, f.notified);
}

forget_all-still :
    (v : Env) (ks : List Text) (cid : Text) (p : SessionPool)
    → IsForgotten cid p
    → IsForgotten cid (forget_all v ks p)
unfolding forget_all
forget_all-still v [] cid p f = f
forget_all-still v (k ∷ ks) cid p f =
    forget_all-still v ks cid (forget v k p) (forget-still v k cid p f)

forget_all-IsForgotten :
    (v : Env) (ks : List Text) (cid : Text) (p : SessionPool)
    → listed cid ks ≡ true
    → p.persisting ≡ true
    → IsForgotten cid (forget_all v ks p)
unfolding forget_all
forget_all-IsForgotten v [] cid p h g = cc
forget_all-IsForgotten v (k ∷ ks) cid p h g = elim (Text-discrete k cid) [
  | yes e ↦ forget_all-still v ks cid (forget v k p) (rw e (forget-IsForgotten v cid p g))
  | no n ↦
      forget_all-IsForgotten v ks cid (forget v k p) (ground arith) (forget-persisting v k p ∙ g)
]

-- If the scan of the reaper lists an evicted context as expired, and a lookup gives that context a
-- session before the deletions run, then the pass leaves the entry with its session, yet removes
-- its persisted mapping and calls `onForget` for it.
pub resumed_context_forgotten :
    (v w : Env) (cid : Text) (s : ℕ) (p : SessionPool)
    → listed cid (reap_scan v p).1 ≡ true
    → (lookup_or_create w cid (reap_scan v p).0).1 ≡ got s
    → (lookup_or_create w cid (reap_scan v p).0).0.persisting ≡ true
    → let q = reap_delete v (reap_scan v p).1 (lookup_or_create w cid (reap_scan v p).0).0 in
      Serves cid s q
      × (get Text-discrete cid q.persist_state ≡ none)
      × (listed cid q.forgotten ≡ true)
unfolding reap_delete
resumed_context_forgotten v w cid s p h g o =
    let resumed : SessionPool = (lookup_or_create w cid (reap_scan v p).0).0 in
    let ks : List Text = (reap_scan v p).1 in
    let (e, found, live, held) = lookup-Serves w cid s (reap_scan v p).0 g in
    let f =
      forget_all-IsForgotten v ks cid (drop_all ks resumed) h
        (drop_all-persisting ks resumed ∙ o) in
    (
      (e, (reap_delete-IsActiveAt v ks cid e resumed (found, live)).0, live, held),
      f.unmapped,
      f.notified,
    )
