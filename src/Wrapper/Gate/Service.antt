-- ===== src/Wrapper/Gate/Service.antt =====
-- The gate refines one first-in first-out line of callers.
use mathlib.Core.List.{append_assoc}
use ahsir.Prelude.{
  ◌⊎◌, ℕ, zero, suc, ◌≡◌, refl, ◌≢◌, leb, Bool, true, false, not, ◌&&◌, if◌then◌else◌, ◌↔◌, some,
  List, [], ◌∷◌, ◌++◌, length, arith, length-append,
}
use ahsir.Wrapper.Gate.{
  snoc, acquire, release, cut, give_up, try_begin_eviction, end_eviction, in_flight,
}
use ahsir.Wrapper.Gate.Fifo.{append-snoc, Splits, cut-Splits}
use ahsir.Wrapper.Gate.Line.{
  World, arrival, Step, arrive, finish, leave, leave_late, begin_eviction, stop_eviction, Reach,
  line, passed, Inv,
}
use ahsir.Wrapper.Gate.Order.{Reach-Inv, step-Inv, alone}

-- Who is let into the line, by the line alone.
abbrev accepts : Bool → ℕ → World → Bool
accepts dead depth w = not dead && not w.gate.evicting && leb (length (line w)) depth

-- What each step does to the line.
abbrev pub Effect : {w v : World} → Step w v → Type 0
Effect {w} {v} (arrive dead depth) =
    line v ≡ (if accepts dead depth w then snoc (line w) w.next else line w)
Effect {w} {v} (finish t rest e) = line w ≡ t ∷ line v
Effect {w} {v} (leave t rest e) = Splits t (line w) (line v)
Effect {w} {v} (leave_late t rest e c) = line w ≡ t ∷ line v
Effect {w} {v} begin_eviction = line v ≡ line w
Effect {w} {v} stop_eviction = line v ≡ line w

length-line :
    (w : World) → Inv w → w.gate.busy ≡ true → length (line w) ≡ suc (length w.gate.waiters)
length-line w v b = omega (arith, v.occupied b, length-append w.owners w.gate.waiters)

arrival-line :
    (dead : Bool) (depth : ℕ) (w : World)
    → Inv w
    → line (arrival dead depth w) ≡ (if accepts dead depth w then snoc (line w) w.next else line w)
unfolding arrival acquire
arrival-line dead depth w v =
    ground (arith, length-line w v, append-snoc w.owners w.gate.waiters w.next)

handed-line :
    (w : World) (t : ℕ) (rest : List ℕ)
    → Inv w
    → w.owners ≡ t ∷ rest
    → line w ≡ t ∷ line (passed w rest (release w.gate))
unfolding release
handed-line w t rest v e = ground (arith, alone w t rest v e)

without-line :
    (w : World) (t : ℕ) (rest : List ℕ)
    → cut t w.gate.waiters ≡ some rest
    → Splits t (line w) (line (passed w w.owners (give_up t w.gate)))
unfolding give_up
without-line w t rest e =
    let (before, after, p, q) = cut-Splits t w.gate.waiters rest e in
    rw (e, give_up)
      (w.owners ++ before, after, rw (append_assoc, ← p) refl, rw (append_assoc, ← q) refl)

-- In every reachable state each critical section acts on the line of callers as on one queue: a
-- caller joins at the end exactly if its context is alive, the session is not being evicted and
-- at most `depth` callers stand in line; an owner that finishes, or that gave up after it was
-- granted the gate, leaves from the front; a waiter that gives up is cut out where it stands; and
-- an eviction lease moves nobody.
pub step-Effect : {w v : World} → Reach w → (s : Step w v) → Effect s
unfolding try_begin_eviction end_eviction give_up
step-Effect {w} r (arrive dead depth) = arrival-line dead depth w (Reach-Inv r)
step-Effect {w} r (finish t rest e) = handed-line w t rest (Reach-Inv r) e
step-Effect {w} r (leave t rest e) = without-line w t rest e
step-Effect {w} r (leave_late t rest e c) = rw (c, give_up) (handed-line w t rest (Reach-Inv r) e)
step-Effect {w} r begin_eviction = ground arith
step-Effect {w} r stop_eviction = refl

-- The owner finishes, if there is one.
unfoldable pub finish_one : World → World
finish_one w = elim w.owners [ [] ↦ w | t ∷ rest ↦ passed w rest (release w.gate) ]

unfoldable pub finish_many : ℕ → World → World
finish_many zero w = w
finish_many (suc n) w = finish_many n (finish_one w)

front_owns : (t : ℕ) (ys : List ℕ) (w : World) → Inv w → line w ≡ t ∷ ys → w.owners ≡ t ∷ []
front_owns t ys w v e = ground arith

finish_one-line :
    (t : ℕ) (ys : List ℕ) (w : World) → Inv w → line w ≡ t ∷ ys → line (finish_one w) ≡ ys
unfolding finish_one
finish_one-line t ys w v e =
    let o : w.owners ≡ t ∷ [] = front_owns t ys w v e in
    rw (o, finish_one) (ground (arith, handed-line w t [] v o))

finish_one-Inv : (t : ℕ) (ys : List ℕ) (w : World) → Inv w → line w ≡ t ∷ ys → Inv (finish_one w)
unfolding finish_one
finish_one-Inv t ys w v e =
    let o : w.owners ≡ t ∷ [] = front_owns t ys w v e in
    rw (o, finish_one) (step-Inv (finish t [] o) v)

-- Under the gate's invariant a caller with k callers in front of it in line owns the gate, and alone, after k turns finish.
pub served_in_turn :
    (xs : List ℕ) (t : ℕ) (ys : List ℕ) (w : World)
    → Inv w
    → line w ≡ xs ++ t ∷ ys
    → ((finish_many (length xs) w).owners ≡ t ∷ [])
      × ((finish_many (length xs) w).gate.waiters ≡ ys)
unfolding finish_many
served_in_turn [] t ys w v e =
    let o : w.owners ≡ t ∷ [] = front_owns t ys w v e in (o, ground arith)
served_in_turn (x ∷ xs) t ys w v e =
    served_in_turn xs t ys (finish_one w) (finish_one-Inv x (xs ++ t ∷ ys) w v e)
      (finish_one-line x (xs ++ t ∷ ys) w v e)

append-eq-nil : (xs ys : List ℕ) → xs ++ ys ≡ [] → (xs ≡ []) × (ys ≡ [])
append-eq-nil [] ys e = (refl, e)
append-eq-nil (x ∷ xs) ys e = cc

nobody_in_line : (w : World) → line w ≡ [] → (w.owners ≡ []) × (w.gate.waiters ≡ [])
nobody_in_line w e = append-eq-nil w.owners w.gate.waiters e

-- In every reachable state the pool may begin to evict exactly when nobody is in line and no eviction runs; and if it may,
-- a caller that comes then does not get in line.
pub eviction_excludes :
    {w : World} (dead : Bool) (depth : ℕ)
    → Reach w
    → let (g, leased) = try_begin_eviction w.gate in
      ((leased ≡ true) ↔ ((line w ≡ []) × (w.gate.evicting ≡ false)))
      × ((leased ≡ false) ⊎ (line (arrival dead depth (record w { gate = g })) ≡ []))
unfolding try_begin_eviction arrival acquire
eviction_excludes {w} dead depth r =
    let v : Inv w = Reach-Inv r in
    ((λ h. ground arith, λ h. ground (arith, nobody_in_line w h.0)), ground arith)

-- In every reachable state a context counts as mid-turn exactly when somebody is in line.
pub in_flight_iff : {w : World} → Reach w → (in_flight w.gate ≡ true) ↔ (line w ≢ [])
unfolding in_flight
in_flight_iff {w} r =
    let v : Inv w = Reach-Inv r in (λ h e. ground (arith, nobody_in_line w e), λ h. ground arith)
