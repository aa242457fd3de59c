-- ===== src/Scheduler/Ledger.antt =====
-- The invocation ledger (internal/scheduler/invocation_ledger.go), method by method. A method
-- holds the ledger's mutex throughout, so it is one function.
pub mod Record
pub mod Replay
pub mod Compaction
pub mod Consistency
pub mod Freshness
pub mod Reload
pub mod Durability
pub mod Settled
pub mod Roundtrip
pub mod Called
pub mod Snapshot
use Record.{
  InvocationRecord, InvocationMetadata, InvocationStatus, in_flight, completed, failed, queued,
  recovering, recovered, recovery_failed, LedgerEvent, status_event, started_event_from_record,
  inv_id, bound_user_text,
}
use Replay.{Book, empty_book}
use ahsir.Prelude.Text.{text_eq, Text, text, is_empty, Text-discrete}
use ahsir.Prelude.{
  ◌%◌, ℕ, zero, suc, ◌+◌, ◌-◌, ◌*◌, ◌≤◌, ◌<◌, ◌≡◌, refl, sym, ◌∙◌, ap, ◌⊎◌, inl, inr, ◌≢◌, ◌==◌,
  ltb, leb, Bool, true, false, not, ◌&&◌, ◌||◌, if◌then◌else◌, ◌↔◌, Option, none, some, List, [],
  ◌∷◌, ◌++◌, map, length, All, arith, Bool-cases, Option-cases, ite, dite, if_pos, if_neg, ltb→lt,
  lt→ltb, leb→le, is_some, keep, any, tally, take, drop, length-append, length-drop, length-take-le,
  ℕ_discrete,
}
use ahsir.Prelude.Table.{Table, get, put}
use ahsir.Prelude.Decimal.{u64}

-- A probe of the gateway metrics: `begin`, or `settle` with its result label and duration.
pub data Probe : Type 0 where
  begun : Text → Text → Probe
  settled : Text → Text → Text → ℕ → Probe

-- `path == ""` is `persistent = false`, and `metrics == nil` is `metered = false`. The file is a
-- list of lines, each of which may decode to an event; `none` is no file.
pub record InvocationLedger : Type 0 where
  pub book : Book
  pub open book use *
  pub persistent : Bool
  pub file : Option (List (Option LedgerEvent))
  pub metered : Bool
  pub probes : List Probe

-- The clock, and whether the file system does what is asked of it.
pub record Env : Type 0 where
  pub now : ℕ
  pub disk : Bool

unfoldable pub new_invocation_ledger : InvocationLedger
unfolding empty_book
new_invocation_ledger = record {
  book = empty_book;
  persistent = false;
  file = none;
  metered = false;
  probes = [];
}

abbrev pub lines_of : Option (List (Option LedgerEvent)) → List (Option LedgerEvent)
lines_of none = []
lines_of (some lines) = lines

-- `if event.TS.IsZero() { event.TS = time.Now() }`
abbrev stamp : ℕ → LedgerEvent → LedgerEvent
stamp now ev = record ev { ts = if ltb 0 ev.ts then ev.ts else now }

unfoldable pub append_event : Env → LedgerEvent → InvocationLedger → InvocationLedger
append_event v ev l =
    if l.persistent && v.disk
    then record l { file = some (lines_of l.file ++ some (stamp v.now ev) ∷ []) }
    else l

abbrev probe : Probe → InvocationLedger → InvocationLedger
probe p l = if l.metered then record l { probes = p ∷ l.probes } else l

abbrev new_record : ℕ → ℕ → InvocationMetadata → InvocationRecord
new_record now n meta = record {
  id = inv_id n;
  source = meta.source;
  agent_name = meta.agent_name;
  method = meta.method;
  context_id = meta.context_id;
  message_id = meta.message_id;
  user_text = bound_user_text meta.user_text;
  speaker = meta.speaker;
  status = in_flight;
  started_at = now;
  finished_at = 0;
  error = [];
}

-- `l.nextID++` on a uint64.
abbrev successor : ℕ → ℕ
successor n = (n + 1) % u64

abbrev enter : InvocationRecord → ℕ → Book → Book
enter rec n b = record {
  next_id = n;
  records = put Text-discrete rec.id rec b.records;
  order = b.order ++ rec.id ∷ [];
}

unfoldable pub begin :
    Env → InvocationMetadata → InvocationLedger → InvocationLedger × InvocationRecord
unfolding append_event started_event_from_record
begin v meta l =
    let n = successor l.book.next_id in
    let rec = new_record v.now n meta in
    (
      probe (begun rec.agent_name rec.source)
          (append_event v (started_event_from_record rec) (record l { book = enter rec n l.book })),
      rec,
    )

abbrev pub is_live : InvocationStatus → Bool
is_live in_flight = true
is_live queued = true
is_live _ = false

-- The record as `updateStatus` leaves it.
abbrev with_status : InvocationStatus → Text → Bool → ℕ → InvocationRecord → InvocationRecord
with_status s e finish now rec = record rec {
  status = s;
  error = e;
  finished_at = if finish then now else rec.finished_at;
}

unfoldable update_found :
    Env
    → Text
    → InvocationStatus
    → Text
    → Text
    → Bool
    → InvocationLedger
    → InvocationRecord
    → InvocationLedger
unfolding append_event
update_found v id s result e finish l rec =
    let rec' = with_status s e finish v.now rec in
    let l' = append_event v (status_event s id e v.now) (record l {
      book = record (l.book) { records = put Text-discrete id rec' l.book.records };
    }) in
    if finish && is_live rec.status
    then probe (settled rec.agent_name rec.source result (rec'.finished_at - rec.started_at)) l'
    else l'

unfoldable update_status :
    Env → Text → InvocationStatus → Text → Text → Bool → InvocationLedger → InvocationLedger
unfolding update_found
update_status v id s result e finish l = elim (get Text-discrete id l.book.records) [
  | none ↦ l
  | some rec ↦ update_found v id s result e finish l rec
]

-- The methods that settle or move an invocation. A nil error has the empty message.
pub data Update : Type 0 where
  complete : Update
  fail : Text → Text → Update
  queue recover : Update
  recovery_done : Update
  recovery_fail : Text → Update

abbrev result_done : Text
result_done = text "done"

abbrev target : Update → InvocationStatus
target complete = completed
target (fail result msg) = failed
target queue = queued
target recover = recovering
target recovery_done = recovered
target (recovery_fail msg) = recovery_failed

abbrev message : Update → Text
message (fail result msg) = msg
message (recovery_fail msg) = msg
message _ = []

abbrev result_label : Update → Text
result_label complete = result_done
result_label (fail result msg) = result
result_label _ = []

abbrev pub finishes : Update → Bool
finishes queue = false
finishes recover = false
finishes _ = true

unfoldable pub update : Env → Text → Update → InvocationLedger → InvocationLedger
unfolding update_status
update v id u l = update_status v id (target u) (result_label u) (message u) (finishes u) l

abbrev no_record : InvocationRecord
no_record = record {
  id = [];
  source = [];
  agent_name = [];
  method = [];
  context_id = [];
  message_id = [];
  user_text = [];
  speaker = [];
  status = in_flight;
  started_at = 0;
  finished_at = 0;
  error = [];
}

-- `l.records[id]`, the zero record for an unknown id.
abbrev pub record_at : Book → Text → InvocationRecord
record_at b id = elim (get Text-discrete id b.records) [ none ↦ no_record | some rec ↦ rec ]

unfoldable pub snapshot : Book → List InvocationRecord
snapshot b = map (record_at b) b.order

abbrev recoverable_status : InvocationStatus → Bool
recoverable_status in_flight = true
recoverable_status failed = true
recoverable_status recovery_failed = true
recoverable_status _ = false

abbrev recoverable_for : Text → InvocationRecord → Bool
recoverable_for agent rec =
    text_eq rec.agent_name agent && not (is_empty rec.context_id) && recoverable_status rec.status

unfoldable recoverable_for_agent : Text → Book → List InvocationRecord
recoverable_for_agent agent b = keep (recoverable_for agent) (map (record_at b) b.order)
