-- ===== src/Scheduler/Rooms/Relay.antt =====
-- The drive of a relay room (`drive` of internal/scheduler/rooms.go): what the agents answer, and
-- what the operators do while a turn is in flight, are functions of the number of the turn.
use ahsir.Prelude.{[], ◌∷◌, zero, suc, some, none, Option, List, ℕ}
use ahsir.Scheduler.Rooms.Room.{
  addresser, delta, settle_error, stop, settle_reply, take_floor, Room, RoomTurn, say,
}
use ahsir.Prelude.Text.{Text}

pub data Command : Type 0 where
  says : Text → Text → ℕ → List Text → Command
  stops : Command

-- A turn's result, with the time at which it ends.
pub data Reply : Type 0 where
  replied : Text → ℕ → Reply
  failed : Text → ℕ → Reply

-- What `run` is called with, less the wording of the message.
pub record Ask : Type 0 where
  pub agent : Text
  pub addresser : Text
  pub news : List RoomTurn

abbrev pub asked : Room → Ask
asked r = record { agent = r.next; addresser = addresser r; news = delta r.next r }

pub record Visit : Type 0 where
  pub meanwhile : List Command
  pub answer : Ask → Reply

module _ (lower : Text → Text) (tokens : Text → List Text) where
  -- A command at a room that is driven; a refused `Say` changes nothing.
  unfoldable pub obey : Command → Room → Room
  unfolding say stop
  obey (says body speaker now shuffled) r = elim (say lower tokens body speaker now shuffled r) [
    | none ↦ r
    | some (r1, start) ↦ r1
  ]
  obey stops r = stop r

  unfoldable pub obey_all : List Command → Room → Room
  unfolding obey
  obey_all [] r = r
  obey_all (c ∷ cs) r = obey_all cs (obey c r)

  -- The end of a turn: `rest` is the loop's next iteration.
  unfoldable pub settle : (Room → Option Room) → Text → Reply → Room → Option Room
  unfolding settle_reply settle_error
  settle rest speaker (failed message now) r = some (settle_error speaker message now r)
  settle rest speaker (replied reply now) r = rest (settle_reply lower tokens speaker reply now r)

  -- The loop's body after its first critical section.
  unfoldable pub drive_turn : (Room → Option Room) → Visit → Ask → Room × Option Text → Option Room
  unfolding settle obey_all
  drive_turn rest v ask (r, none) = some r
  drive_turn rest v ask (r, some speaker) =
      settle rest speaker (v.answer ask) (obey_all v.meanwhile r)

  -- `drive`, from the number of the turn; `none` is out of fuel.
  unfoldable pub drive : ℕ → (ℕ → Visit) → ℕ → Room → Option Room
  unfolding take_floor drive_turn
  drive zero visit k r = none
  drive (suc fuel) visit k r =
      drive_turn (drive fuel visit (suc k)) (visit k) (asked r) (take_floor r)
