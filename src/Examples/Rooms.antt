-- ===== src/Examples/Rooms.antt =====
-- A room of two agents and the operator.
use ahsir.Prelude.{
  ℕ, [], ◌∷◌, refl, some, true, arith, List, All, ◌≡◌, ◌≢◌, Bool-cases, ◌==◌, leb, ◌&&◌, ◌+◌,
  if◌then◌else◌, inl, inr, map, length, ◌≤◌,
}
use ahsir.Prelude.Text.{Text, text, text_eq, Text-discrete}
use ahsir.Prelude.Table.{get, put}
use ahsir.Scheduler.Rooms.Room.{
  Room, operator, relay, active, stop, say, take_floor, schedule_next, settle_reply, parse_mentions,
  roundtable,
}
use ahsir.Scheduler.Rooms.Mentions.{In, Distinct, parse_mentions-Distinct}
use ahsir.Scheduler.Rooms.Relay.{Visit, stops, replied, drive}
use ahsir.Scheduler.Rooms.Parks.{Ends, drive-Ends}
use ahsir.Scheduler.Rooms.Schedule.{is_stop, is_active}
use ahsir.Scheduler.Rooms.Log.{Meta, room_of}
use ahsir.Scheduler.Rooms.History.{Act, writes, takes, replies, fails}
use ahsir.Scheduler.Rooms.Roundtable.{Iteration, drive_roundtable}
use ahsir.Scheduler.Rooms.Rounds.{OnlyStops, Returns, drive_roundtable-Returns}
use ahsir.Scheduler.Rooms.Driven.{
  Poised, drives_alone, answered, Steps, joined, left, said, took, onward, here,
}

abbrev ann : Text
ann = text "ann"

abbrev bob : Text
bob = text "bob"

-- Lower case of the ASCII letters.
abbrev fold_byte : ℕ → ℕ
fold_byte c = if leb 65 c && leb c 90 then c + 32 else c

abbrev fold : Text → Text
fold t = map fold_byte t

-- A text that is one name is a mention of it.
abbrev whole : Text → List Text
whole t = t ∷ []

abbrev two_agents : Meta
two_agents = record {
  topic = [];
  participants = ann ∷ bob ∷ [];
  organizer = operator;
  max_chain = 2;
  mode = some relay;
  moderator = [];
  budget = 0;
  created_at = some 0;
}

abbrev room : Room
room = room_of (text "r1") two_agents

parse_mentions-Distinct_example :
    let out = parse_mentions fold whole (text "BOB") (ann ∷ bob ∷ []) ann in
    All (λ p. In p (ann ∷ bob ∷ []) × (p ≢ ann)) out × Distinct out
parse_mentions-Distinct_example =
    parse_mentions-Distinct fold whole (text "BOB") (ann ∷ bob ∷ []) ann

-- The agents call each other, and the operator stops the room during the second turn.
abbrev talk : ℕ → Visit
talk k = record {
  meanwhile = if k == 1 then stops ∷ [] else [];
  answer = λ ask. replied (if text_eq ask.agent ann then bob else ann) k;
}

only_stops : (k : ℕ) → All (λ c. is_stop c ≡ true) (talk k).meanwhile
only_stops k = elim (Bool-cases (k == 1)) [ inl t ↦ rw t (refl, tt) | inr f ↦ rw f tt ]

abbrev begun : Room
begun = record room { next = ann; status = active; running = true }

drive-Ends_example : Ends fold whole begun (drive fold whole 3 talk 0 begun)
unfolding room_of
drive-Ends_example =
    drive-Ends fold whole 3 talk 0 begun only_stops (λ e. absurd (cc)) ((refl, (refl, tt)), refl)
      (omega arith)

-- The operator asks ann, who calls bob; bob's turn fails, and the operator asks again before the
-- failure is in the log.
abbrev history : List Act
history =
    writes 0 true
    ∷ Act.says ann [] 1 []
    ∷ takes
    ∷ writes 0 true
    ∷ replies ann bob 2
    ∷ writes 0 true
    ∷ takes
    ∷ fails bob (text "unreachable") 3
    ∷ Act.says bob [] 4 []
    ∷ writes 0 true
    ∷ writes 0 true
    ∷ []

-- A message starts a drive, which takes its turn.
abbrev asked_room : Room × ℕ
asked_room = joined (room, 0) (say fold whole ann [] 1 [] room)

abbrev taken : Room × ℕ
taken = left 0 (take_floor asked_room.0)

drives_alone_example :
    (taken.1 ≡ (if taken.0.running then 1 else 0))
    × ((is_active taken.0.status ≡ true → taken.0.running ≡ true) × Poised fold whole taken.0)
unfolding room_of joined say get put Text-discrete
drives_alone_example =
    drives_alone fold whole room taken.0 taken.1 (((refl, (refl, tt)), refl), refl) refl refl
      (onward _ _ _ (said ann [] 1 [] room 0) (onward _ _ _ (took asked_room.0 0 refl) (here _)))

-- The operator stopped the room while ann's turn was in flight; ann calls bob, the drive goes on, and
-- the operator asks bob.
abbrev halted_room : Room
halted_room = stop (record room { speaking = ann; running = true })

abbrev answered_room : Room
answered_room = settle_reply fold whole ann bob 1 halted_room

abbrev parked_room : Room × ℕ
parked_room = left 0 (take_floor answered_room)

to_parked : Steps fold whole (halted_room, 1) parked_room
unfolding stop settle_reply schedule_next room_of
to_parked =
    onward _ _ _ (answered bob 1 halted_room 0 refl)
      (onward _ _ _ (took answered_room 0 refl) (here parked_room))

-- A round of two, and the consolidation finds no consensus twice.
abbrev quiet : ℕ → Iteration
quiet k = record {
  meanwhile = if k == 3 then stops ∷ [] else [];
  afterwards = [];
  answer = λ ask. replied (text "agreed") k;
  judgement = λ round turns. some (text "CONTINUE");
  now = k;
  shuffled = bob ∷ ann ∷ [];
}

only_quiet : (k : ℕ) → OnlyStops fold whole fold fold (quiet k) × (length (quiet k).shuffled ≤ 2)
only_quiet k = elim (Bool-cases (k == 3)) [
  | inl t ↦ (rw t ((refl, tt), tt), omega arith)
  | inr f ↦ (rw f (tt, tt), omega arith)
]

abbrev table : Room
table = record room {
  mode = roundtable;
  status = active;
  running = true;
  budget = 2;
  order = ann ∷ bob ∷ [];
}

drive_roundtable-Returns_example :
    Returns fold whole fold fold 6 table (drive_roundtable fold whole fold fold 6 quiet 0 table)
unfolding room_of
drive_roundtable-Returns_example =
    drive_roundtable-Returns fold whole fold fold 2 6 quiet 0 table only_quiet (omega arith)
