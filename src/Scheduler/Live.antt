-- ===== src/Scheduler/Live.antt =====
-- The hub of live events (internal/scheduler/live_events.go). A subscriber's channel is the queue
-- of the events sent and not yet received. Times are numbers, 0 for the zero time.
pub mod Bounds
pub mod Resume
use ahsir.Prelude.{
  ℕ_discrete, ◌-◌, ◌||◌, ◌==◌, length, leb, ltb, drop, ◌%◌, ◌+◌, ◌++◌, if◌then◌else◌, [], ◌∷◌, ℕ,
  ◌≡◌, none, some, Option, arith, refl, true, false, Bool, suc, zero, List,
}
use ahsir.Prelude.Table.{put, delete, get, Table}
use ahsir.Prelude.Text.{Text-discrete, text_eq, is_empty, Text, text}
use ahsir.Prelude.Decimal.{u64, decimal}

abbrev max_live_events_per_context : ℕ
max_live_events_per_context = 256

abbrev max_live_event_contexts : ℕ
max_live_event_contexts = 128

-- The capacity of a subscriber's channel.
abbrev channel_size : ℕ
channel_size = 64

pub record LiveEvent : Type 0 where
  pub id : Text
  pub invocation_id : Text
  pub context_id : Text
  pub agent_name : Text
  pub kind : Text
  pub at : ℕ
  pub name : Text
  pub tool_use_id : Text
  pub input : Text
  pub content : Text
  pub is_error : Bool
  pub state : Text

pub record LiveContext : Type 0 where
  pub events : List LiveEvent
  pub updated_at : ℕ
  pub subscribers : Table ℕ (List LiveEvent)

pub record LiveEventHub : Type 0 where
  pub seq : ℕ
  pub sub_seq : ℕ
  pub contexts : Table Text LiveContext

unfoldable pub new_live_event_hub : LiveEventHub
new_live_event_hub = record { seq = 0; sub_seq = 0; contexts = [] }

-- The scan's `oldest` and `at`.
unfoldable oldest_context : Table Text LiveContext → Text × ℕ → Text × ℕ
oldest_context [] best = best
oldest_context ((id, c) ∷ m) best =
    oldest_context m
      (if is_empty best.0 || ltb c.updated_at best.1 then (id, c.updated_at) else best)

unfoldable evict_oldest : Table Text LiveContext → Table Text LiveContext
unfolding oldest_context
evict_oldest m =
    let oldest = (oldest_context m ([], 0)).0 in
    if is_empty oldest then m else delete Text-discrete oldest m

-- `select { case ch <- ev: default: }`
unfoldable offer : LiveEvent → List LiveEvent → List LiveEvent
offer ev ch = if ltb (length ch) channel_size then ch ++ (ev ∷ []) else ch

unfoldable offer_all : LiveEvent → Table ℕ (List LiveEvent) → Table ℕ (List LiveEvent)
unfolding offer
offer_all ev [] = []
offer_all ev ((id, ch) ∷ m) = (id, offer ev ch) ∷ offer_all ev m

unfoldable trim : List LiveEvent → List LiveEvent
trim evs =
    if ltb max_live_events_per_context (length evs)
    then drop (length evs - max_live_events_per_context) evs
    else evs

abbrev fresh_context : ℕ → LiveContext
fresh_context now = record { events = []; updated_at = now; subscribers = [] }

-- `ev` with its id and its time.
unfoldable pub stamped : ℕ → ℕ → LiveEvent → LiveEvent
stamped now seq ev = record ev {
  id = text "live-" ++ decimal seq;
  at = if ev.at == 0 then now else ev.at;
}

-- The context with the event in it.
unfoldable pub recorded : LiveEvent → LiveContext → LiveContext
unfolding offer_all trim
recorded ev c = record {
  events = trim (c.events ++ (ev ∷ []));
  updated_at = ev.at;
  subscribers = offer_all ev c.subscribers;
}

-- The contexts once there is room for a new one.
abbrev make_room : Table Text LiveContext → Table Text LiveContext
make_room m = if leb max_live_event_contexts (length m) then evict_oldest m else m

-- The contexts with the event in its own; `h.contexts[ev.ContextID] = c` for a new one.
unfoldable pub record_event : LiveEvent → Table Text LiveContext → Table Text LiveContext
unfolding recorded evict_oldest
record_event ev m = elim (get Text-discrete ev.context_id m) [
  | some c ↦ put Text-discrete ev.context_id (recorded ev c) m
  | none ↦ put Text-discrete ev.context_id (recorded ev (fresh_context 0)) (make_room m)
]

unfoldable pub publish : ℕ → LiveEvent → LiveEventHub → LiveEventHub × LiveEvent
unfolding record_event stamped
publish now ev h =
    let seq = (h.seq + 1) % u64 in
    let done = stamped now seq ev in
    if is_empty ev.context_id
    then (h, ev)
    else (record h { seq = seq; contexts = record_event done h.contexts }, done)

-- `start` after the loop; `i` is the index of the first event.
unfoldable start_after : Text → ℕ → ℕ → List LiveEvent → ℕ
start_after after i start [] = start
start_after after i start (ev ∷ evs) =
    start_after after (suc i) (if text_eq ev.id after then suc i else start) evs

unfoldable snapshot_after : Option LiveContext → Text → List LiveEvent
unfolding start_after
snapshot_after none after = []
snapshot_after (some c) after =
    drop (if is_empty after then 0 else start_after after 0 0 c.events) c.events

unfoldable pub snapshot : Text → Text → LiveEventHub → List LiveEvent
unfolding snapshot_after
snapshot cid after h = snapshot_after (get Text-discrete cid h.contexts) after

abbrev or_fresh : ℕ → Option LiveContext → LiveContext
or_fresh now none = fresh_context now
or_fresh now (some c) = c

-- The backlog and the subscriber's number.
unfoldable subscribe : ℕ → Text → Text → LiveEventHub → LiveEventHub × (List LiveEvent × ℕ)
unfolding snapshot_after
subscribe now cid after h =
    let c = or_fresh now (get Text-discrete cid h.contexts) in
    let id = (h.sub_seq + 1) % u64 in
    (
      record h {
        sub_seq = id;
        contexts =
            put Text-discrete cid (record c { subscribers = put ℕ_discrete id [] c.subscribers })
              h.contexts;
      },
      (snapshot_after (some c) after, id),
    )

-- The function that `Subscribe` returns.
unfoldable unsubscribe : Text → ℕ → LiveEventHub → LiveEventHub
unsubscribe cid id h = elim (get Text-discrete cid h.contexts) [
  | none ↦ h
  | some c ↦ record h {
    contexts =
        put Text-discrete cid (record c { subscribers = delete ℕ_discrete id c.subscribers })
          h.contexts;
  }
]
