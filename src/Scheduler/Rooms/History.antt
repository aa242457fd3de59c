-- ===== src/Scheduler/Rooms/History.antt =====
-- A relay room and its log from one restart to the next: critical sections, and the appends that
-- they leave to do (internal/scheduler/rooms.go).
use ahsir.Scheduler.Rooms.Room.{
  error_turn, reply_turn, stopped, message, settle_error, settle_reply, take_floor, stop,
  or_operator, say, Room,
}
use ahsir.Prelude.{
  true, none, some, false, ◌++◌, ◌≡◌, List, ℕ, zero, suc, [], ◌∷◌, Bool, if◌then◌else◌,
}
use ahsir.Scheduler.Rooms.Log.{turn, status, RoomRecord}
use ahsir.Prelude.Text.{is_empty, Text}
use ahsir.Scheduler.Rooms.Mentions.{In}

-- What happens to a relay room between two restarts.
pub data Act : Type 0 where
  says : Text → Text → ℕ → List Text → Act
  stops takes : Act
  replies fails : Text → Text → ℕ → Act
  writes : ℕ → Bool → Act

-- A room, the lines of its log, and the records of critical sections that have ended, the earliest
-- first, which are still to be appended to it: the goroutines append after they gave up the room's
-- lock, so that an append may come late, overtake another, or fail.
pub record Logged : Type 0 where
  pub room : Room
  pub lines : List RoomRecord
  pub pending : List RoomRecord

-- The append of the record at a place of the pending ones. `ok` is whether there is a store and the
-- append succeeds; a failure leaves the file as it was, and the record is given up.
unfoldable pub append_pending :
    ℕ → Bool → List RoomRecord → List RoomRecord → List RoomRecord × List RoomRecord
append_pending k ok lines [] = (lines, [])
append_pending zero ok lines (l ∷ ls) = (if ok then lines ++ (l ∷ []) else lines, ls)
append_pending (suc k) ok lines (l ∷ ls) =
    let (done, rest) = append_pending k ok lines ls in (done, l ∷ rest)

module _ (lower : Text → Text) (tokens : Text → List Text) where
  -- Each critical section, with the record that it leaves to append, and each append.
  unfoldable pub act : Act → Logged → Logged
  unfolding say stop take_floor settle_reply settle_error append_pending
  act (says body speaker now shuffled) g =
      elim (say lower tokens body speaker now shuffled g.room) [
        | none ↦ g
        | some (r, start) ↦ record {
          room = r;
          lines = g.lines;
          pending = g.pending ++ (turn (some (message lower tokens body speaker now g.room)) ∷ []);
        }
      ]
  act stops g = record g { room = stop g.room; pending = g.pending ++ (status stopped ∷ []) }
  act takes g = record g { room = (take_floor g.room).0 }
  act (replies speaker reply now) g = record g {
    room = settle_reply lower tokens speaker reply now g.room;
    pending = g.pending ++ (turn (some (reply_turn lower tokens speaker reply now g.room)) ∷ []);
  }
  act (fails speaker m now) g = record g {
    room = settle_error speaker m now g.room;
    pending = g.pending ++ (turn (some (error_turn speaker m now)) ∷ []);
  }
  act (writes k ok) g =
      let (done, rest) = append_pending k ok g.lines g.pending in
      record g { lines = done; pending = rest }

  unfoldable pub act_all : List Act → Logged → Logged
  unfolding act
  act_all [] g = g
  act_all (a ∷ more) g = act_all more (act a g)

  -- Messages of the operators are not attributed to a participant, an error has a text, and the
  -- appends succeed, in the order of the critical sections.
  abbrev pub Orderly : List Text → Act → Type 0
  Orderly ps (says body speaker now shuffled) = ¬ In (or_operator lower tokens speaker) ps
  Orderly ps stops = Unit
  Orderly ps takes = Unit
  Orderly ps (replies speaker reply now) = Unit
  Orderly ps (fails speaker m now) = is_empty m ≡ false
  Orderly ps (writes k ok) = (k ≡ 0) × (ok ≡ true)
