-- ===== src/Scheduler/Rooms/Log.antt =====
-- The log of a room and its replay (internal/scheduler/roomstore.go), and the schedule of a
-- recovered room (`recoverScheduleLocked` of rooms.go). A line that does not decode, or whose kind
-- is unknown, is `unread`.
use ahsir.Scheduler.Rooms.Room.{
  is_stopped, relay, roundtable, active, waiting, stopped, seen_of, is_good, RoomMode, RoomTurn,
  Room, last_turn, RoomStatus, schedule_next,
}
use ahsir.Prelude.{none, some, false, if◌then◌else◌, any, ◌++◌, Bool, List, Option, ℕ, suc, [], ◌∷◌}
use ahsir.Prelude.Text.{text_eq, Text-discrete, Text}
use ahsir.Prelude.Table.{put, Table}

-- The metadata; `none` is a mode that is absent.
pub record Meta : Type 0 where
  pub topic : Text
  pub participants : List Text
  pub organizer : Text
  pub max_chain : ℕ
  pub mode : Option RoomMode
  pub moderator : Text
  pub budget : ℕ
  pub created_at : Option ℕ

pub data RoomRecord : Type 0 where
  meta : Meta → RoomRecord
  turn : Option RoomTurn → RoomRecord
  status : RoomStatus → RoomRecord
  unread : RoomRecord

unfoldable pub write_meta : Room → RoomRecord
write_meta r = meta (record {
  topic = r.topic;
  participants = r.participants;
  organizer = r.organizer;
  max_chain = r.max_chain;
  mode = some r.mode;
  moderator = r.moderator;
  budget = r.budget;
  created_at = some r.created_at;
})

-- The room of a metadata line; `zero` is the zero time.
unfoldable pub room_of : Text → Meta → Room
room_of id m = record {
  id = id;
  topic = m.topic;
  participants = m.participants;
  organizer = m.organizer;
  max_chain = m.max_chain;
  mode = elim m.mode [ none ↦ relay | some k ↦ k ];
  moderator = m.moderator;
  budget = m.budget;
  transcript = [];
  status = waiting;
  next = [];
  speaking = [];
  last_seen = [];
  chain = 0;
  running = false;
  created_at = elim m.created_at [ none ↦ 0 | some t ↦ t ];
  order = [];
  cursor = 0;
  round = 0;
  round_start = 0;
}

-- The loop of `loadRoomLocked`.
unfoldable pub replay_line : Text → RoomRecord → Option Room → Option Room
unfolding room_of
replay_line id (meta m) o = some (room_of id m)
replay_line id (turn (some t)) (some r) = some (record r { transcript = r.transcript ++ (t ∷ []) })
replay_line id (status s) (some r) = some (record r { status = s })
replay_line id _ o = o

unfoldable pub replay : Text → List RoomRecord → Option Room → Option Room
unfolding replay_line
replay id [] o = o
replay id (l ∷ ls) o = replay id ls (replay_line id l o)

-- `seen` of `recoverScheduleLocked`: the end of each speaker's last good turn.
unfoldable pub seen_table : ℕ → List RoomTurn → Table Text ℕ → Table Text ℕ
seen_table i [] m = m
seen_table i (t ∷ ts) m =
    seen_table (suc i) ts (if is_good t then put Text-discrete t.speaker (suc i) m else m)

unfoldable pub set_seen : List Text → Table Text ℕ → Table Text ℕ → Table Text ℕ
set_seen [] seen m = m
set_seen (p ∷ ps) seen m = set_seen ps seen (put Text-discrete p (seen_of p seen) m)

abbrev pub is_participant : Text → Room → Bool
is_participant name r = any (λ p. text_eq p name) r.participants

-- A status after a restart.
abbrev or_waiting : RoomStatus → RoomStatus
or_waiting stopped = stopped
or_waiting _ = waiting

-- Who speaks next in a relay room that is not stopped and has a last turn.
unfoldable pub retry : RoomTurn → Room → Room
unfolding schedule_next
retry last r =
    if is_good last
    then schedule_next last.speaker last.mentions (record r { status = waiting })
    else if is_participant last.speaker r
    then record r { next = last.speaker; status = active }
    else record r { next = []; status = waiting }

unfoldable pub reschedule_relay : Option RoomTurn → Room → Room
unfolding retry
reschedule_relay none r =
    if is_stopped r.status then record r { next = [] } else record r { status = waiting; next = [] }
reschedule_relay (some last) r =
    if is_stopped r.status then record r { next = [] } else retry last r

unfoldable pub reschedule : Room → Room
unfolding reschedule_relay last_turn
reschedule r = elim r.mode [
  | roundtable ↦ record r {
    order = [];
    cursor = 0;
    round = 0;
    status = or_waiting r.status;
    next = [];
  }
  | relay ↦ reschedule_relay (last_turn r.transcript) r
]

unfoldable pub recover_schedule : Room → Room
unfolding reschedule seen_table set_seen
recover_schedule r = reschedule (record r {
  last_seen = set_seen r.participants (seen_table 0 r.transcript []) r.last_seen;
  speaking = [];
  running = false;
  chain = 0;
})

-- `loadRoomLocked`; `none` is a log without metadata.
unfoldable pub load_room : Text → List RoomRecord → Option Room
unfolding replay recover_schedule
load_room id ls = elim (replay id ls none) [ none ↦ none | some r ↦ some (recover_schedule r) ]
