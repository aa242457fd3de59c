-- ===== src/Scheduler/Ledger/Compaction.antt =====
-- Compaction and start-up (internal/scheduler/invocation_ledger.go: compactForRetentionLocked,
-- CompactForRetention, NewInvocationLedgerFromFile).
use ahsir.Prelude.{ℕ, Bool, true, not, if◌then◌else◌, Option, none, some, List, [], ◌∷◌, ◌++◌, map}
use ahsir.Prelude.Text.{Text, Text-discrete}
use ahsir.Prelude.Table.{get, put}
use ahsir.Scheduler.Ledger.Record.{
  InvocationRecord, in_flight, failed, recovery_failed, InvocationStatus, LedgerEvent, status_event,
  checkpoint_event, started_event_from_record, terminal_time, retain_invocation_record,
}
use ahsir.Scheduler.Ledger.Replay.{Book, empty_book, replay}
use ahsir.Scheduler.Ledger.{InvocationLedger, Env, new_invocation_ledger, stamp}

-- The records of an order that are there and are still wanted.
unfoldable pub retained : ℕ → Book → List Text → List InvocationRecord
retained now b [] = []
retained now b (id ∷ ids) =
    let rest = retained now b ids in
    elim (get Text-discrete id b.records) [
      | none ↦ rest
      | some rec ↦ if retain_invocation_record now rec then rec ∷ rest else rest
    ]

-- The `switch rec.Status`: a record in flight has no second event.
abbrev pub status_events : InvocationStatus → ℕ → InvocationRecord → List LedgerEvent
status_events in_flight now rec = []
status_events failed now rec = status_event failed rec.id rec.error (terminal_time now rec) ∷ []
status_events recovery_failed now rec =
    status_event recovery_failed rec.id rec.error (terminal_time now rec) ∷ []
status_events s now rec = status_event s rec.id [] (terminal_time now rec) ∷ []

-- Each event is one line, stamped as `writeLedgerEvents` does.
abbrev pub as_lines : ℕ → List LedgerEvent → List (Option LedgerEvent)
as_lines now = map (λ ev. some (stamp now ev))

unfoldable pub record_lines : ℕ → List InvocationRecord → List (Option LedgerEvent)
record_lines now [] = []
record_lines now (rec ∷ recs) =
    as_lines now (started_event_from_record rec ∷ status_events rec.status now rec)
    ++ record_lines now recs

unfoldable pub compacted_lines : ℕ → ℕ → List InvocationRecord → List (Option LedgerEvent)
unfolding record_lines
compacted_lines now next recs = some (stamp now (checkpoint_event next now)) ∷ record_lines now recs

-- `l.records[rec.ID] = rec; l.order = append(l.order, rec.ID)` for each record.
unfoldable pub reload : List InvocationRecord → Book → Book
reload [] b = b
reload (rec ∷ recs) b =
    reload recs (record b {
      records = put Text-discrete rec.id rec b.records;
      order = b.order ++ rec.id ∷ [];
    })

-- `none` is an error: the file could not be written, and the ledger is left alone.
unfoldable pub compact_for_retention : Env → InvocationLedger → Option InvocationLedger
unfolding retained compacted_lines reload
compact_for_retention v l =
    let recs = retained v.now l.book l.book.order in
    if not l.persistent
    then some l
    else if v.disk
    then some (record l {
      file = some (compacted_lines v.now l.book.next_id recs);
      book = reload recs (record { next_id = l.book.next_id; records = []; order = [] });
    })
    else none

-- `path == ""`, and the file at the path.
unfoldable pub new_ledger_from_file :
    Env → Bool → Option (List (Option LedgerEvent)) → Option InvocationLedger
unfolding new_invocation_ledger replay
new_ledger_from_file v no_path file = if no_path then some new_invocation_ledger else elim file [
  | none ↦ some (record new_invocation_ledger { persistent = true })
  | some lines ↦ compact_for_retention v (record new_invocation_ledger {
    persistent = true;
    file = some lines;
    book = replay lines empty_book;
  })
]
