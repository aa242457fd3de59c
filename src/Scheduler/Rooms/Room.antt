-- ===== src/Scheduler/Rooms/Room.antt =====
-- A room and its critical sections (internal/scheduler/rooms.go). `lower` is `strings.ToLower`, and
-- `tokens` finds the names after an @ outside the code spans of a text. Each section takes the time
-- that it reads, and each shuffled order the permutation that was drawn.
use ahsir.Prelude.{
  any, suc, ◌&&◌, leb, not, length, false, ◌||◌, some, ◌∷◌, drop, keep, if◌then◌else◌, true, ◌++◌,
  none, [], Bool, Option, List, ℕ,
}
use ahsir.Prelude.Text.{text_eq, Text-discrete, text, is_empty, Text}
use ahsir.Prelude.Table.{put, get, Table}

-- `RoomActive`, `RoomWaiting` and `RoomStopped`.
pub data RoomStatus : Type 0 where
  active waiting stopped : RoomStatus

pub data RoomMode : Type 0 where
  relay roundtable : RoomMode

pub record RoomTurn : Type 0 where
  pub speaker : Text
  pub text : Text
  pub mentions : List Text
  pub round : ℕ
  pub ts : ℕ
  pub error : Text

pub record Room : Type 0 where
  pub id : Text
  pub topic : Text
  pub participants : List Text
  pub organizer : Text
  pub max_chain : ℕ
  pub mode : RoomMode
  pub moderator : Text
  pub budget : ℕ
  pub transcript : List RoomTurn
  pub status : RoomStatus
  pub next : Text
  pub speaking : Text
  pub last_seen : Table Text ℕ
  pub chain : ℕ
  pub running : Bool
  pub created_at : ℕ
  pub order : List Text
  pub cursor : ℕ
  pub round : ℕ
  pub round_start : ℕ

abbrev pub operator : Text
operator = text "operator"

abbrev pub is_stopped : RoomStatus → Bool
is_stopped stopped = true
is_stopped _ = false

unfoldable pub schedule_next : Text → List Text → Room → Room
schedule_next speaker mentions r =
    if is_stopped r.status then record r { next = [] } else elim mentions [
      | m ∷ _ ↦ record r { next = m; status = active }
      | [] ↦
          if not (text_eq r.organizer operator) && not (text_eq r.organizer speaker)
          then record r { next = r.organizer; status = active }
          else record r { next = []; status = waiting }
    ]

-- `lastSeen[p]`
abbrev pub seen_of : Text → Table Text ℕ → ℕ
seen_of p m = elim (get Text-discrete p m) [ none ↦ 0 | some n ↦ n ]

abbrev pub is_good : RoomTurn → Bool
is_good t = is_empty t.error

-- The transcript's entries that `deltaLocked` hands to a speaker.
unfoldable pub delta : Text → Room → List RoomTurn
delta speaker r = keep is_good (drop (seen_of speaker r.last_seen) r.transcript)

unfoldable pub last_turn : List RoomTurn → Option RoomTurn
last_turn [] = none
last_turn (t ∷ ts) = let rest = last_turn ts in elim rest [ none ↦ some t | some u ↦ some u ]

-- To whom the message is attributed: the speaker of the last entry.
unfoldable pub addresser : Room → Text
unfolding last_turn
addresser r = elim (last_turn r.transcript) [ none ↦ operator | some t ↦ t.speaker ]

unfoldable pub stop : Room → Room
stop r = record r { status = stopped; next = [] }

-- The first critical section of `drive`; `none` is its return.
unfoldable pub take_floor : Room → Room × Option Text
take_floor r =
    if is_stopped r.status || is_empty r.next
    then (record r { running = false }, none)
    else if leb r.max_chain r.chain
    then (record r { status = waiting; next = []; running = false }, none)
    else (record r { next = []; speaking = r.next }, some r.next)

abbrev pub error_turn : Text → Text → ℕ → RoomTurn
error_turn speaker message now = record {
  speaker = speaker;
  text = [];
  mentions = [];
  round = 0;
  ts = now;
  error = message;
}

-- The second critical section, after an error of the turn.
unfoldable pub settle_error : Text → Text → ℕ → Room → Room
settle_error speaker message now r = record r {
  speaking = [];
  transcript = r.transcript ++ (error_turn speaker message now ∷ []);
  status = waiting;
  running = false;
}

-- The end of `Say`, once the message is in the transcript.
unfoldable pub open_floor : RoomMode → Text → List Text → List Text → Room → Room × Bool
unfolding schedule_next
open_floor roundtable speaker mentions shuffled r = (
  record r {
    order = shuffled;
    cursor = 0;
    round = 0;
    round_start = length r.transcript;
    status = active;
    running = true;
  },
  not r.running,
)
open_floor relay speaker mentions shuffled r =
    let r1 = schedule_next speaker mentions (record r { chain = 0 }) in
    if not (is_empty r1.next) && not r1.running
    then (record r1 { running = true }, true)
    else (r1, false)

module _ (lower : Text → Text) (tokens : Text → List Text) where
  -- `canon` of `parseMentions`.
  unfoldable pub canon_names : List Text → Table Text Text → Table Text Text
  canon_names [] m = m
  canon_names (p ∷ ps) m = canon_names ps (put Text-discrete (lower p) p m)

  unfoldable pub pick : Table Text Text → Text → List Text → List Text → List Text
  pick canon self seen [] = []
  pick canon self seen (tok ∷ toks) =
      let name = lower tok in
      elim (get Text-discrete name canon) [
        | none ↦ pick canon self seen toks
        | some p ↦ elim (text_eq p self || any (text_eq name) seen) [
          | true ↦ pick canon self seen toks
          | false ↦ p ∷ pick canon self (name ∷ seen) toks
        ]
      ]

  unfoldable pub parse_mentions : Text → List Text → Text → List Text
  unfolding canon_names pick
  parse_mentions body participants self = pick (canon_names participants []) self [] (tokens body)

  abbrev pub or_operator : Text → Text
  or_operator speaker = if is_empty speaker then operator else speaker

  abbrev pub message : Text → Text → ℕ → Room → RoomTurn
  message body speaker now r = record {
    speaker = or_operator speaker;
    text = body;
    mentions = parse_mentions body r.participants [];
    round = 0;
    ts = now;
    error = [];
  }

  -- `Say` of an operator or a named speaker, `shuffled` the drawn order; `none` is its refusal by a
  -- stopped room, and the test tells whether a drive starts.
  unfoldable pub say : Text → Text → ℕ → List Text → Room → Option (Room × Bool)
  unfolding parse_mentions open_floor
  say body speaker now shuffled r =
      let said = r.transcript ++ (message body speaker now r ∷ []) in
      let mentions = parse_mentions body r.participants [] in
      if is_stopped r.status
      then none
      else some (
          open_floor r.mode (or_operator speaker) mentions shuffled
            (record r { transcript = said }))

  abbrev pub reply_turn : Text → Text → ℕ → Room → RoomTurn
  reply_turn speaker reply now r = record {
    speaker = speaker;
    text = reply;
    mentions = parse_mentions reply r.participants speaker;
    round = 0;
    ts = now;
    error = [];
  }

  -- The second critical section of `drive`, after a reply.
  unfoldable pub settle_reply : Text → Text → ℕ → Room → Room
  unfolding parse_mentions schedule_next
  settle_reply speaker reply now r =
      let transcript = r.transcript ++ (reply_turn speaker reply now r ∷ []) in
      schedule_next speaker (parse_mentions reply r.participants speaker) (record r {
        speaking = [];
        transcript = transcript;
        last_seen = put Text-discrete speaker (length transcript) r.last_seen;
        chain = suc r.chain;
      })
