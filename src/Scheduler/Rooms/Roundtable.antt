-- ===== src/Scheduler/Rooms/Roundtable.antt =====
-- The drive of a roundtable (`driveRoundtable`, `roundtableConsolidate` and `parseConsensus` of
-- internal/scheduler/rooms.go). `upper` is `strings.ToUpper` and `trim` is `strings.TrimSpace`; the
-- shuffled orders, the answers, and what the operators do during a turn, are functions of the
-- number of the iteration.
use ahsir.Prelude.Text.{text, Text-discrete, text_eq, is_empty, Text}
use ahsir.Prelude.{
  length, drop, leb, ◌+◌, keep, ◌==◌, ◌||◌, if◌then◌else◌, ◌++◌, Option, List, Bool, ℕ, zero, suc,
  [], ◌∷◌, none, some, true, false,
}
use ahsir.Scheduler.Rooms.Room.{
  waiting, is_good, delta, addresser, is_stopped, RoomTurn, settle_error, Room,
}
use ahsir.Scheduler.Rooms.Relay.{replied, failed, Ask, Reply, obey_all, Command}
use ahsir.Prelude.Table.{put}

-- `strings.HasPrefix`
unfoldable pub has_prefix : Text → Text → Bool
has_prefix [] s = true
has_prefix (c ∷ cs) [] = false
has_prefix (c ∷ cs) (d ∷ ds) = let rest = has_prefix cs ds in if c == d then rest else false

-- `strings.Contains`
unfoldable pub contains : Text → Text → Bool
unfolding has_prefix
contains sub [] = has_prefix sub []
contains sub (c ∷ cs) = let rest = contains sub cs in if has_prefix sub (c ∷ cs) then true else rest

-- `strings.Split` at line ends, with the first line apart.
unfoldable pub lines : Text → Text × List Text
lines [] = ([], [])
lines (c ∷ cs) = let (l, ls) = lines cs in if c == 10 then ([], l ∷ ls) else (c ∷ l, ls)

-- `strings.Join` with line ends.
unfoldable pub join : List Text → Text
join [] = []
join (l ∷ ls) = let rest = join ls in elim ls [ [] ↦ l | m ∷ ms ↦ l ++ (10 ∷ rest) ]

module _ (upper trim : Text → Text) where
  unfoldable pub parse_consensus : Text → Bool
  unfolding contains
  parse_consensus reply =
      if contains (text "CONTINUE") (upper reply)
      then false
      else contains (text "CONSENSUS") (upper reply)

  abbrev pub is_verdict : Text → Bool
  is_verdict line =
      let last = upper (trim line) in
      is_empty last || text_eq last (text "CONSENSUS") || text_eq last (text "CONTINUE")

  -- The lines without the trailing verdicts and blank lines.
  unfoldable pub drop_verdicts : List Text → List Text
  drop_verdicts [] = []
  drop_verdicts (l ∷ ls) =
      let rest = drop_verdicts ls in
      elim rest [ [] ↦ if is_verdict l then [] else l ∷ [] | m ∷ ms ↦ l ∷ m ∷ ms ]

  unfoldable pub strip_verdict_line : Text → Text
  unfolding drop_verdicts lines join
  strip_verdict_line s =
      let (l, ls) = lines s in
      let out = trim (join (drop_verdicts (l ∷ ls))) in if is_empty out then trim s else out

  -- The end of `roundtableConsolidate`, by the moderator's reply; `none` is an error.
  unfoldable pub consolidation : Option Text → Text × Bool
  unfolding strip_verdict_line parse_consensus
  consolidation none = ([], false)
  consolidation (some reply) = (strip_verdict_line reply, parse_consensus reply)

-- What the first critical section of an iteration decides.
pub data Floor : Type 0 where
  halts : Room → Floor
  speaks : Text → Room → Floor
  consolidates : Room → Floor

unfoldable pub open_turn : Room → List Text → Floor
open_turn r [] = consolidates (record r { round = suc r.round; speaking = r.moderator })
open_turn r (speaker ∷ rest) =
    speaks speaker (record r { cursor = suc r.cursor; speaking = speaker })

unfoldable pub take_round : Room → Floor
unfolding open_turn
take_round r =
    if is_stopped r.status
    then halts (record r { running = false })
    else open_turn r (drop r.cursor r.order)

-- The second critical section after a participant's reply.
unfoldable pub settle_speech : Text → Text → ℕ → Room → Room
settle_speech speaker reply now r =
    let transcript =
      r.transcript
      ++ (record {
        speaker = speaker;
        text = reply;
        mentions = [];
        round = r.round + 1;
        ts = now;
        error = [];
      }
          ∷ []) in
    record r {
      speaking = [];
      transcript = transcript;
      last_seen = put Text-discrete speaker (length transcript) r.last_seen;
    }

abbrev pub summary : Text → ℕ → Text → ℕ → RoomTurn
summary moderator round body now = record {
  speaker = moderator;
  text = body;
  mentions = [];
  round = round;
  ts = now;
  error = [];
}

-- The critical section after a consolidation, up to the moderator's turn; the test tells whether the
-- drive goes on. `round` and `moderator` are those that the drive read before.
unfoldable pub post_summary : Text → ℕ → Text → ℕ → Room → Room × Bool
post_summary moderator round body now r =
    let r1 = record r { speaking = [] } in
    if is_stopped r.status
    then (record r1 { running = false }, false)
    else if is_empty body
    then (r1, true)
    else (record r1 { transcript = r.transcript ++ (summary moderator round body now ∷ []) }, true)

-- The end of the iteration: the room waits, or a round begins in the order that was drawn.
unfoldable pub end_round : Bool → ℕ → ℕ → List Text → Room → Room × Bool
end_round consensus round budget shuffled r =
    if consensus || leb budget round
    then (record r { status = waiting; running = false }, false)
    else (record r { order = shuffled; cursor = 0; round_start = length r.transcript }, true)

-- What the moderator reads: the good turns of the round.
unfoldable pub round_turns : Room → List RoomTurn
round_turns r = keep is_good (drop r.round_start r.transcript)

-- One iteration: what the operators do during the turn and while the summary is written to the log,
-- the answers, the time, and the next order.
pub record Iteration : Type 0 where
  pub meanwhile : List Command
  pub afterwards : List Command
  pub answer : Ask → Reply
  pub judgement : ℕ → List RoomTurn → Option Text
  pub now : ℕ
  pub shuffled : List Text

module _ (lower : Text → Text) (tokens : Text → List Text) (upper trim : Text → Text) where
  unfoldable pub settle_turn : (Room → Option Room) → Text → Reply → Room → Option Room
  unfolding settle_error settle_speech
  settle_turn rest speaker (failed m now) r = some (settle_error speaker m now r)
  settle_turn rest speaker (replied reply now) r = rest (settle_speech speaker reply now r)

  unfoldable pub go_on : (Room → Option Room) → Room × Bool → Option Room
  go_on rest (r, false) = some r
  go_on rest (r, true) = rest r

  -- The iteration after the moderator has answered; `r0` is the room that the drive read.
  unfoldable pub close_round : (Room → Option Room) → Iteration → Room → Text × Bool → Option Room
  unfolding go_on post_summary end_round obey_all
  close_round rest v r0 (body, consensus) =
      go_on
        (λ r. go_on rest (
          end_round consensus r0.round r0.budget v.shuffled
            (obey_all lower tokens (if is_empty body then [] else v.afterwards) r)))
        (post_summary r0.moderator r0.round body v.now (obey_all lower tokens v.meanwhile r0))

  unfoldable pub iterate : (Room → Option Room) → Iteration → Floor → Option Room
  unfolding settle_turn close_round consolidation obey_all addresser delta round_turns
  iterate rest v (halts r) = some r
  iterate rest v (speaks speaker r) =
      settle_turn rest speaker
        (v.answer (record { agent = speaker; addresser = addresser r; news = delta speaker r }))
        (obey_all lower tokens v.meanwhile r)
  iterate rest v (consolidates r) =
      close_round rest v r (consolidation upper trim (v.judgement r.round (round_turns r)))

  -- `driveRoundtable`; `none` is out of fuel.
  unfoldable pub drive_roundtable : ℕ → (ℕ → Iteration) → ℕ → Room → Option Room
  unfolding iterate take_round
  drive_roundtable zero v k r = none
  drive_roundtable (suc fuel) v k r = iterate (drive_roundtable fuel v (suc k)) (v k) (take_round r)
