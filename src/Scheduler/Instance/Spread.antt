-- ===== src/Scheduler/Instance/Spread.antt =====
-- How an instance pool assigns contexts: affinity, spread and the cap.
use native.Mathlib.Nat.{add-zero, add-suc, suc-add}
use mathlib.Core.Path.{subst}
use ahsir.Prelude.Text.{text_eq, is_empty, Text-discrete, Text}
use ahsir.Prelude.{
  sym, ◌-◌, ◌==◌, if_of_eq, not, ◌&&◌, inr, ℕ_discrete, inl, Bool-cases, ltb, ◌⊎◌, ◌≤◌,
  if◌then◌else◌, ◌<◌, ◌+◌, [], ◌∷◌, ℕ, ◌≡◌, none, some, arith, refl, false, suc, zero,
}
use ahsir.Prelude.Table.{get-put, get}
use ahsir.Scheduler.Instance.{
  occupy, bind_context, assigned, Text, load, get, pick, least_loaded, new_instance_pool,
  InstancePool,
}

-- Between one instance and the cap; contexts go to spawned instances; the others are idle.
pub record IsSound (p : InstancePool) : Type 0 where
  pub started : 1 ≤ p.spawned
  pub capped : p.spawned ≤ p.cap
  pub bound : (cid : Text) (idx : ℕ) → get Text-discrete cid p.assign ≡ some idx → idx < p.spawned
  pub unspawned : (idx : ℕ) → p.spawned ≤ idx → load idx p ≡ 0

pub new-IsSound : (capacity : ℕ) → IsSound (new_instance_pool capacity)
unfolding new_instance_pool get
new-IsSound capacity = record {
  started = omega arith;
  capped = ground arith;
  bound = λ cid idx e. cc;
  unspawned = λ idx h. refl;
}

-- The choice is among the instances looked at, with its load, and no other has less.
record IsLeast (n : ℕ) (best : ℕ × ℕ) (p : InstancePool) : Type 0 where
  seen : best.0 < n
  current : best.1 ≡ load best.0 p
  least : (j : ℕ) → j < n → best.1 ≤ load j p

better-IsLeast :
    (i : ℕ) (best : ℕ × ℕ) (p : InstancePool)
    → IsLeast i best p
    → IsLeast (suc i) (if ltb (load i p) best.1 then (i, load i p) else best) p
better-IsLeast i best p l = elim (Bool-cases (ltb (load i p) best.1)) [
  | inl less ↦ rw less (record {
    seen = omega arith;
    current = refl;
    least = λ j h. elim (ℕ_discrete j i) [
      | yes e ↦ rw e (omega arith)
      | no n ↦ ground (arith, l.least j (omega arith))
    ];
  })
  | inr more ↦ rw more (record {
    seen = omega (arith, l.seen);
    current = l.current;
    least = λ j h. elim (ℕ_discrete j i) [
      | yes e ↦ rw e (ground arith)
      | no n ↦ l.least j (omega arith)
    ];
  })
]

least_loaded-IsLeast :
    (rounds i : ℕ) (best : ℕ × ℕ) (p : InstancePool)
    → IsLeast i best p
    → IsLeast (i + rounds) (least_loaded rounds i best p) p
unfolding least_loaded
least_loaded-IsLeast zero i best p l = rw add-zero l
least_loaded-IsLeast (suc rounds) i best p l =
    rw (add-suc, ← suc-add) (least_loaded-IsLeast rounds (suc i) _ p (better-IsLeast i best p l))

-- What `pick` returns: a fresh instance if all are busy and the cap allows one, or else a spawned
-- one of least load.
pub data Picked (p : InstancePool) : InstancePool × ℕ → Type 0 where
  fresh :
      ((j : ℕ) → j < p.spawned → 0 < load j p)
      → p.spawned < p.cap
      → Picked p (record p { spawned = suc p.spawned }, p.spawned)
  shared :
      (idx : ℕ)
      → idx < p.spawned
      → ((j : ℕ) → j < p.spawned → load idx p ≤ load j p)
      → (load idx p ≡ 0) ⊎ (p.cap ≤ p.spawned)
      → Picked p (p, idx)

first-IsLeast : (p : InstancePool) → IsLeast 1 (0, load 0 p) p
first-IsLeast p = record { seen = omega arith; current = refl; least = λ j h. zeroth j h }
  where
    zeroth : (j : ℕ) → j < 1 → load 0 p ≤ load j p
    zeroth zero h = omega arith
    zeroth (suc j) h = absurd (omega arith)

pub pick-Picked : (p : InstancePool) → IsSound p → Picked p (pick p)
unfolding pick
pick-Picked p s = elim (Bool-cases (ltb 0 best.1 && ltb p.spawned p.cap)) [
  | inl grow ↦
      subst (Picked p) (sym (if_of_eq _ _ grow))
        (fresh (λ j h. ground (arith, l.least j h)) (ground arith))
  | inr stay ↦ subst (Picked p) (sym (if_of_eq _ _ stay)) (
      shared best.0 l.seen (λ j h. ground (arith, l.current, l.least j h))
        (ground (arith, l.current)))
]
  where
    best : ℕ × ℕ
    best = least_loaded (p.spawned - 1) 1 (0, load 0 p) p

    l : IsLeast p.spawned best p
    l =
        subst (λ n. IsLeast n best p) (omega (arith, s.started))
          (least_loaded-IsLeast (p.spawned - 1) 1 (0, load 0 p) p (first-IsLeast p))

pub occupy-load :
    (i j : ℕ) (p : InstancePool)
    → load j (occupy i p) ≡ (if i == j then suc (load i p) else load j p)
occupy-load i j p = ground (arith, get-put ℕ_discrete i j (suc (load i p)) p.active)

pub occupy-IsSound : (i : ℕ) (p : InstancePool) → i < p.spawned → IsSound p → IsSound (occupy i p)
occupy-IsSound i p h s = record {
  started = s.started;
  capped = s.capped;
  bound = s.bound;
  unspawned = λ j l. ground (arith, occupy-load i j p, s.unspawned j l);
}

pub bind_context-IsSound :
    (cid : Text) (i : ℕ) (p : InstancePool)
    → i < p.spawned
    → IsSound p
    → IsSound (bind_context cid i p)
bind_context-IsSound [] i p h s = s
bind_context-IsSound (c ∷ cs) i p h s = record {
  started = s.started;
  capped = s.capped;
  bound = λ k j e. elim (Text-discrete (c ∷ cs) k) [
    | yes q ↦ ground (arith, get-put Text-discrete (c ∷ cs) k i p.assign)
    | no n ↦ s.bound k j (ground (arith, get-put Text-discrete (c ∷ cs) k i p.assign))
  ];
  unspawned = s.unspawned;
}

pub grown-IsSound :
    (p : InstancePool)
    → p.spawned < p.cap
    → IsSound p
    → IsSound (record p { spawned = suc p.spawned })
grown-IsSound p h s = record {
  started = omega arith;
  capped = h;
  bound = λ k j e. omega (arith, s.bound k j e);
  unspawned = λ j l. s.unspawned j (omega arith);
}

-- The outcome of `acquire`, in the terms of the pool before it.
pub record Acquired (cid : Text) (p : InstancePool) (r : InstancePool × ℕ) : Type 0 where
  pub sound : IsSound r.0
  pub running : r.1 < r.0.spawned
  pub counted : (j : ℕ) → load j r.0 ≡ (if r.1 == j then suc (load j p) else load j p)
  pub sticky : (k : Text) (i : ℕ) → assigned k p ≡ some i → assigned k r.0 ≡ some i
  pub remembered : is_empty cid ≡ false → assigned cid r.0 ≡ some r.1
  pub affine : (i : ℕ) → assigned cid p ≡ some i → r.1 ≡ i
  pub spread :
      assigned cid p ≡ none
      → (load r.1 p ≡ 0) ⊎ ((p.cap ≤ p.spawned) × ((j : ℕ) → j < p.spawned → load r.1 p ≤ load j p))

pub acquire_known :
    (cid : Text) (p : InstancePool) (i : ℕ) → IsSound p → assigned cid p ≡ some i → i < p.spawned
acquire_known [] p i s e = cc
acquire_known (c ∷ cs) p i s e = s.bound (c ∷ cs) i e

pub bind_context-assigned :
    (cid k : Text) (i : ℕ) (q : InstancePool)
    → assigned k (bind_context cid i q)
      ≡ (if not (is_empty cid) && text_eq cid k then some i else assigned k q)
bind_context-assigned [] k i q = refl
bind_context-assigned (c ∷ cs) [] i q = ground arith
bind_context-assigned (c ∷ cs) (d ∷ ds) i q =
    ground (arith, get-put Text-discrete (c ∷ cs) (d ∷ ds) i q.assign)
