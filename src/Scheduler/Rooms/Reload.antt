-- ===== src/Scheduler/Rooms/Reload.antt =====
-- After a restart, every participant is owed the messages that it was owed before.
use ahsir.Scheduler.Rooms.Room.{Room}
use ahsir.Scheduler.Rooms.History.{Logged}
use ahsir.Prelude.{List, [], ◌∷◌}
use ahsir.Scheduler.Rooms.Log.{write_meta, room_of, Meta}
use ahsir.Prelude.Text.{Text}

module _ (lower : Text → Text) (tokens : Text → List Text) where
  -- A new room, with the record that its creation leaves to append.
  abbrev pub created : Text → Meta → Logged
  created id m =
      let r = room_of id m in record { room = r; lines = []; pending = write_meta r ∷ [] }
