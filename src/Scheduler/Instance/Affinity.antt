-- ===== src/Scheduler/Instance/Affinity.antt =====
-- `acquire` and `release` on every branch, and over every history.
use mathlib.Core.Path.{subst}
use ahsir.Scheduler.Instance.Spread.{
  shared, bind_context-assigned, pick-Picked, occupy-load, bind_context-IsSound, grown-IsSound,
  fresh, occupy-IsSound, acquire_known, Picked, Acquired, IsSound,
}
use ahsir.Prelude.{
  ℕ_discrete, sym, inr, inl, ◌-◌, ◌≤◌, ltb, ◌⊎◌, Option-cases, ◌==◌, ◌∙◌, ◌<◌, if◌then◌else◌,
  Bool-cases, [], ◌∷◌, ℕ, ◌≡◌, none, some, arith, refl, false, suc, List, if_of_eq,
}
use ahsir.Prelude.Table.{get-put}
use ahsir.Scheduler.Instance.{
  pick, bind_context, occupy, assigned, load, InstancePool, release, acquire,
}
use ahsir.Prelude.Text.{is_empty, Text}

acquire-known :
    (cid : Text) (p : InstancePool) (i : ℕ)
    → assigned cid p ≡ some i
    → acquire cid p ≡ (occupy i p, i)
unfolding acquire
acquire-known cid p i e = rw (e, acquire) refl

acquire-new :
    (cid : Text) (p : InstancePool)
    → assigned cid p ≡ none
    → acquire cid p ≡ (occupy (pick p).1 (bind_context cid (pick p).1 (pick p).0), (pick p).1)
unfolding acquire
acquire-new cid p e = rw (e, acquire) refl

known-Acquired :
    (cid : Text) (p : InstancePool) (i : ℕ)
    → IsSound p
    → assigned cid p ≡ some i
    → Acquired cid p (occupy i p, i)
known-Acquired cid p i s e =
    let h : i < p.spawned = acquire_known cid p i s e in
    record {
      sound = occupy-IsSound i p h s;
      running = h;
      counted = λ j. occupy-load i j p ∙ ground arith;
      sticky = λ k j q. q;
      remembered = λ n. e;
      affine = λ j q. ground arith;
      spread = λ q. absurd (ground arith);
    }

new-Acquired :
    (cid : Text) (p q : InstancePool) (i : ℕ)
    → assigned cid p ≡ none
    → IsSound q
    → i < q.spawned
    → ((j : ℕ) → load j q ≡ load j p)
    → ((k : Text) → assigned k q ≡ assigned k p)
    → (load i p ≡ 0) ⊎ ((p.cap ≤ p.spawned) × ((j : ℕ) → j < p.spawned → load i p ≤ load j p))
    → Acquired cid p (occupy i (bind_context cid i q), i)
new-Acquired cid p q i e s h same keeps spread = record {
  sound = occupy-IsSound i (bind_context cid i q) (ground arith) (bind_context-IsSound cid i q h s);
  running = ground arith;
  counted = λ j. occupy-load i j (bind_context cid i q) ∙ ground (arith, same j, same i);
  sticky = λ k j a. ground (arith, bind_context-assigned cid k i q, keeps k);
  remembered = λ n. ground (arith, bind_context-assigned cid cid i q);
  affine = λ j a. absurd (ground arith);
  spread = λ a. spread;
}

Picked-Acquired :
    (cid : Text) (p : InstancePool) {r : InstancePool × ℕ}
    → IsSound p
    → assigned cid p ≡ none
    → Picked p r
    → Acquired cid p (occupy r.1 (bind_context cid r.1 r.0), r.1)
Picked-Acquired cid p s e (fresh busy h) =
    new-Acquired cid p (record p { spawned = suc p.spawned }) p.spawned e (grown-IsSound p h s)
      (omega arith) (λ j. refl) (λ k. refl) (inl (s.unspawned p.spawned (omega arith)))
Picked-Acquired cid p s e (shared i h least idle) =
    new-Acquired cid p p i e s h (λ j. refl) (λ k. refl)
      (elim idle [ inl z ↦ inl z | inr full ↦ inr (full, least) ])

-- In a sound pool `acquire` gives an instance within the cap and counts one more turn there and
-- nowhere else; a context that has an instance keeps it, and every other context keeps its own;
-- a new context gets an idle instance, unless the cap is reached, and then one of least load.
pub acquire-Acquired : (cid : Text) (p : InstancePool) → IsSound p → Acquired cid p (acquire cid p)
acquire-Acquired cid p s = elim (Option-cases (assigned cid p)) [
  | inl missing ↦
      subst (Acquired cid p) (sym (acquire-new cid p missing))
        (Picked-Acquired cid p s missing (pick-Picked p s))
  | inr (i, known) ↦
      subst (Acquired cid p) (sym (acquire-known cid p i known)) (known-Acquired cid p i s known)
]

release-load :
    (i j : ℕ) (p : InstancePool)
    → load j (release i p) ≡ (if i == j then load i p - 1 else load j p)
unfolding release
release-load i j p = ground (arith, get-put ℕ_discrete i j (load i p - 1) p.active)

release-assigned : (i : ℕ) (k : Text) (p : InstancePool) → assigned k (release i p) ≡ assigned k p
unfolding release
release-assigned i k p = ground arith

release-IsSound : (i : ℕ) (p : InstancePool) → IsSound p → IsSound (release i p)
unfolding release
release-IsSound i p s = elim (Bool-cases (ltb 0 (load i p))) [
  | inr idle ↦ subst IsSound (sym (if_of_eq _ _ idle)) s
  | inl busy ↦ subst IsSound (sym (if_of_eq _ _ busy)) (record {
    started = s.started;
    capped = s.capped;
    bound = s.bound;
    unspawned =
        λ j l. ground (arith, get-put ℕ_discrete i j (load i p - 1) p.active, s.unspawned j l);
  })
]

-- In a sound pool, releasing a turn that was just acquired leaves every load as it was before.
pub release-acquire :
    (cid : Text) (p : InstancePool) (j : ℕ)
    → IsSound p
    → let (q, i) = acquire cid p in load j (release i q) ≡ load j p
release-acquire cid p j s =
    let a = acquire-Acquired cid p s in
    release-load (acquire cid p).1 j (acquire cid p).0
    ∙ ground (arith, a.counted j, a.counted (acquire cid p).1)

pub data Call : Type 0 where
  acquires : Text → Call
  releases : ℕ → Call

unfoldable pub perform : List Call → InstancePool → InstancePool
perform [] p = p
perform (acquires cid ∷ cs) p = perform cs (acquire cid p).0
perform (releases i ∷ cs) p = perform cs (release i p)

perform-IsSound : (cs : List Call) (p : InstancePool) → IsSound p → IsSound (perform cs p)
unfolding perform
perform-IsSound [] p s = s
perform-IsSound (acquires cid ∷ cs) p s =
    perform-IsSound cs (acquire cid p).0 (acquire-Acquired cid p s).sound
perform-IsSound (releases i ∷ cs) p s = perform-IsSound cs (release i p) (release-IsSound i p s)

perform-sticky :
    (cs : List Call) (p : InstancePool) (k : Text) (i : ℕ)
    → IsSound p
    → assigned k p ≡ some i
    → assigned k (perform cs p) ≡ some i
unfolding perform
perform-sticky [] p k i s e = e
perform-sticky (acquires cid ∷ cs) p k i s e =
    let a = acquire-Acquired cid p s in
    perform-sticky cs (acquire cid p).0 k i a.sound (a.sticky k i e)
perform-sticky (releases j ∷ cs) p k i s e =
    perform-sticky cs (release j p) k i (release-IsSound j p s) (release-assigned j k p ∙ e)

-- In a sound pool a context with a name that acquired an instance gets the same one again after any
-- history of other turns.
pub acquire_again :
    (cid : Text) (cs : List Call) (p : InstancePool)
    → is_empty cid ≡ false
    → IsSound p
    → let (q, i) = acquire cid p in (acquire cid (perform cs q)).1 ≡ i
acquire_again cid cs p n s =
    let a = acquire-Acquired cid p s in
    let q = (acquire cid p).0 in
    (acquire-Acquired cid (perform cs q) (perform-IsSound cs q a.sound)).affine (acquire cid p).1
      (perform-sticky cs q cid (acquire cid p).1 a.sound (a.remembered n))
