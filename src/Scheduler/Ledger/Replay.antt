-- ===== src/Scheduler/Ledger/Replay.antt =====
-- Replaying the log (internal/scheduler/invocation_ledger.go: replay, applyReplayEvent, bumpNextID).
use ahsir.Prelude.{ℕ, ltb, if◌then◌else◌, Option, none, some, List, [], ◌∷◌, ◌++◌, is_some}
use ahsir.Prelude.Text.{Text, Text-discrete}
use ahsir.Prelude.Table.{Table, get, put}
use ahsir.Scheduler.Ledger.Record.{
  InvocationRecord, InvocationStatus, in_flight, completed, failed, queued, recovering, recovered,
  recovery_failed, EventType, checkpoint, started, unknown, status, LedgerEvent, id_number,
}

-- What the log determines: the fields `nextID`, `records` and `order` of the ledger.
pub record Book : Type 0 where
  pub next_id : ℕ
  pub records : Table Text InvocationRecord
  pub order : List Text

unfoldable pub empty_book : Book
empty_book = record { next_id = 0; records = []; order = [] }

abbrev pub raise_to : ℕ → Option ℕ → ℕ
raise_to next none = next
raise_to next (some n) = if ltb next n then n else next

unfoldable pub bump_next_id : Text → Book → Book
unfolding id_number
bump_next_id id b = record b { next_id = raise_to b.next_id (id_number id) }

-- `case "started"`; a known id keeps its place in the order.
unfoldable pub apply_started : LedgerEvent → Book → Book
apply_started ev b = record b {
  records =
      put Text-discrete ev.id
        (record {
          id = ev.id;
          source = ev.source;
          agent_name = ev.agent_name;
          method = ev.method;
          context_id = ev.context_id;
          message_id = ev.message_id;
          user_text = ev.user_text;
          speaker = ev.speaker;
          status = in_flight;
          started_at = ev.ts;
          finished_at = 0;
          error = [];
        })
        b.records;
  order = if is_some (get Text-discrete ev.id b.records) then b.order else b.order ++ ev.id ∷ [];
}

-- What a status event does to its record.
unfoldable pub settled_by : InvocationStatus → Text → ℕ → InvocationRecord → InvocationRecord
settled_by completed e t rec = record rec { status = completed; finished_at = t; error = [] }
settled_by failed e t rec = record rec { status = failed; finished_at = t; error = e }
settled_by queued e t rec = record rec { status = queued; error = [] }
settled_by recovering e t rec = record rec { status = recovering; error = e }
settled_by recovered e t rec = record rec { status = recovered; finished_at = t; error = [] }
settled_by recovery_failed e t rec = record rec {
  status = recovery_failed;
  finished_at = t;
  error = e;
}
settled_by in_flight e t rec = rec

-- `rec, ok := l.records[id]; if !ok { return }; ...; l.records[id] = rec`
unfoldable pub revise : Text → (InvocationRecord → InvocationRecord) → Book → Book
revise id f b = elim (get Text-discrete id b.records) [
  | none ↦ b
  | some rec ↦ record b { records = put Text-discrete id (f rec) b.records }
]

unfoldable pub apply_by : EventType → LedgerEvent → Book → Book
unfolding bump_next_id apply_started settled_by revise
apply_by checkpoint ev b = record b {
  next_id = if ltb b.next_id ev.next_id then ev.next_id else b.next_id;
}
apply_by started ev b = apply_started ev (bump_next_id ev.id b)
apply_by unknown ev b = bump_next_id ev.id b
apply_by (status in_flight) ev b = bump_next_id ev.id b
apply_by (status s) ev b = revise ev.id (settled_by s ev.error ev.ts) (bump_next_id ev.id b)

unfoldable pub apply_replay_event : LedgerEvent → Book → Book
unfolding apply_by
apply_replay_event ev b = apply_by ev.kind ev b

-- The lines of the file; a line that is blank or does not decode is skipped.
unfoldable pub replay : List (Option LedgerEvent) → Book → Book
unfolding apply_replay_event
replay [] b = b
replay (none ∷ lines) b = replay lines b
replay (some ev ∷ lines) b = replay lines (apply_replay_event ev b)
