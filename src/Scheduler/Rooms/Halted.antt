-- ===== src/Scheduler/Rooms/Halted.antt =====
-- What happens in a room after it was stopped (internal/scheduler/rooms.go).
use ahsir.Prelude.{ℕ, ◌+◌, ◌≡◌, ◌⊎◌, true, false, List, [], ◌∷◌, ◌++◌}
use ahsir.Prelude.Text.{Text, is_empty}
use ahsir.Scheduler.Rooms.Driven.{
  Crew, Step, Steps, said, halted, took, answered, broke, here, onward,
}
use ahsir.Scheduler.Rooms.Room.{Room, RoomTurn, is_stopped}

module _ (lower : Text → Text) (tokens : Text → List Text) where
  -- The turns of a history that fail.
  failed_turn : (a b : Crew) → Step lower tokens a b → ℕ
  failed_turn _ _ (said body speaker now shuffled r n) = 0
  failed_turn _ _ (halted r n) = 0
  failed_turn _ _ (took r n i) = 0
  failed_turn _ _ (answered reply now r n i) = 0
  failed_turn _ _ (broke m now r n i) = 1

  unfoldable pub failed_turns : (a b : Crew) → Steps lower tokens a b → ℕ
  unfolding failed_turn
  failed_turns _ _ (here c) = 0
  failed_turns _ _ (onward a b c s more) = failed_turn a b s + failed_turns b c more

  -- The transcript as it was, with the same turn in flight, or with the one turn that was in flight.
  abbrev pub Grown : Room → Room → Type 0
  Grown r r' =
      ((r'.transcript ≡ r.transcript) × (r'.speaking ≡ r.speaking))
      ⊎ ((t : RoomTurn) × (r'.transcript ≡ r.transcript ++ (t ∷ []))
          × (t.speaker ≡ r.speaking)
          × (is_empty r.speaking ≡ false)
          × (is_empty r'.speaking ≡ true))

  abbrev Halted : Room → Room → Type 0
  Halted r r' = (is_stopped r'.status ≡ true) × Grown r r'
