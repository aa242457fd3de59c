-- ===== src/Examples/Turns.antt =====
-- Two callers at one gate.
use ahsir.Wrapper.Gate.Service.{finish_one, Effect, step-Effect, served_in_turn, finish_many}
use ahsir.Wrapper.Gate.{new_turn_gate, acquire}
use ahsir.Prelude.{[], ◌∷◌, ◌≡◌, refl, false}
use ahsir.Wrapper.Gate.Line.{World, Step, Reach, Inv, start, arrival, arrive, here, next, finish}
use ahsir.Wrapper.Gate.Order.{Reach-Inv}

-- The first caller owns the gate, the second waits.
abbrev two_callers : World
two_callers = arrival false 4 (arrival false 4 start)

two_callers-Reach : Reach two_callers
two_callers-Reach = next (next here (arrive false 4)) (arrive false 4)

Reach-Inv_example : Inv two_callers
Reach-Inv_example = Reach-Inv two_callers-Reach

first_finishes : Step two_callers (finish_many 1 two_callers)
unfolding finish_many finish_one start arrival acquire new_turn_gate
first_finishes = finish 0 [] refl

step-Effect_example : Effect first_finishes
step-Effect_example = step-Effect two_callers-Reach first_finishes

served_in_turn_example :
    ((finish_many 1 two_callers).owners ≡ 1 ∷ []) × ((finish_many 1 two_callers).gate.waiters ≡ [])
unfolding start arrival acquire new_turn_gate
served_in_turn_example = served_in_turn (0 ∷ []) 1 [] two_callers (Reach-Inv two_callers-Reach) refl
