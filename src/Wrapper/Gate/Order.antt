-- ===== src/Wrapper/Gate/Order.antt =====
-- What holds of a gate however its callers interleave.
use mathlib.Core.List.{append_assoc}
use ahsir.Prelude.{
  ◌++◌, sym, ◌∙◌, ◌≢◌, ℕ, ◌≡◌, sym, ◌∙◌, ◌≢◌, Bool, true, none, some, List, [], ◌∷◌, ◌++◌, arith,
}
use ahsir.Wrapper.Gate.{
  new_turn_gate, acquire, release, cut, give_up, try_begin_eviction, end_eviction,
}
use ahsir.Wrapper.Gate.Fifo.{
  append-snoc, length-snoc, Ascending-snoc, Ascending-suc, cut-Splits, Ascending-without,
}
use ahsir.Wrapper.Gate.Line.{
  World, start, arrival, Step, arrive, finish, leave, leave_late, begin_eviction, stop_eviction,
  Reach, here, next, line, passed, Inv,
}

start-Inv : Inv start
unfolding start new_turn_gate
start-Inv = ground arith

arrival-Inv : (dead : Bool) (depth : ℕ) (w : World) → Inv w → Inv (arrival dead depth w)
unfolding arrival acquire
arrival-Inv dead depth w v = ground (
  arith,
  append-snoc w.owners w.gate.waiters w.next,
  length-snoc w.owners w.next,
  Ascending-snoc w.next (line w),
  Ascending-suc w.next (line w),
)

-- The owner of a busy gate is alone.
pub alone :
    (w : World) (t : ℕ) (rest : List ℕ)
    → Inv w
    → w.owners ≡ t ∷ rest
    → (w.gate.busy ≡ true) × (rest ≡ [])
alone w t [] v e = ground arith
alone w t (u ∷ rest) v e = ground arith

handed-Inv :
    (w : World) (t : ℕ) (rest : List ℕ)
    → Inv w
    → w.owners ≡ t ∷ rest
    → Inv (passed w rest (release w.gate))
unfolding release
handed-Inv w t rest v e = ground (arith, alone w t rest v e)

inhabited : (before after : List ℕ) (t : ℕ) → before ++ t ∷ after ≢ []
inhabited [] after t e = cc
inhabited (x ∷ before) after t e = cc

without-Inv :
    (w : World) (t : ℕ) (rest : List ℕ)
    → Inv w
    → cut t w.gate.waiters ≡ some rest
    → Inv (passed w w.owners (give_up t w.gate))
unfolding give_up
without-Inv w t rest v e =
    let (before, after, p, q) = cut-Splits t w.gate.waiters rest e in
    rw (e, give_up)
      (record {
        occupied = v.occupied;
        open_gate = λ b. absurd (inhabited before after t (sym p ∙ (v.open_gate b).1));
        leased = v.leased;
        in_order =
            rw (q, ← append_assoc)
              (Ascending-without w.next t (w.owners ++ before) after
                (rw append_assoc (rw p at v.in_order)));
      })

late-Inv :
    (w : World) (t : ℕ) (rest : List ℕ)
    → Inv w
    → w.owners ≡ t ∷ rest
    → cut t w.gate.waiters ≡ none
    → Inv (passed w rest (give_up t w.gate))
unfolding give_up
late-Inv w t rest v e c = rw (c, give_up) (handed-Inv w t rest v e)

begin-Inv : (w : World) → Inv w → Inv (record w { gate = (try_begin_eviction w.gate).0 })
unfolding try_begin_eviction
begin-Inv w v = ground arith

pub step-Inv : {w v : World} → Step w v → Inv w → Inv v
unfolding end_eviction
step-Inv {w} (arrive dead depth) h = arrival-Inv dead depth w h
step-Inv {w} (finish t rest e) h = handed-Inv w t rest h e
step-Inv {w} (leave t rest e) h = without-Inv w t rest h e
step-Inv {w} (leave_late t rest e c) h = late-Inv w t rest h e c
step-Inv {w} begin_eviction h = begin-Inv w h
step-Inv {w} stop_eviction h = ground arith

-- However callers arrive, finish, give up and race with evictions: a busy gate has one owner, at an
-- open gate nobody is inside or waits, an evicting gate is not busy, and the line is in order of
-- arrival.
pub Reach-Inv : {w : World} → Reach w → Inv w
Reach-Inv here = start-Inv
Reach-Inv (next r s) = step-Inv s (Reach-Inv r)
