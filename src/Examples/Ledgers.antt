-- ===== src/Examples/Ledgers.antt =====
-- A ledger with a file, and a short history.
use ahsir.Scheduler.Ledger.Roundtrip.{forget_end}
use ahsir.Scheduler.Ledger.{
  append_event, update, InvocationLedger, Env, new_invocation_ledger, lines_of, snapshot, complete,
  queue, begin,
}
use ahsir.Prelude.Text.{text, Text-discrete}
use ahsir.Prelude.{
  [], ◌∷◌, ℕ, ◌≡◌, none, some, Option, arith, refl, true, false, List, ◌++◌, map, keep,
}
use ahsir.Prelude.Table.{get, put}
use ahsir.Scheduler.Ledger.Record.{InvocationMetadata, retain_invocation_record, inv_id}
use ahsir.Scheduler.Ledger.Replay.{empty_book, replay}
use ahsir.Scheduler.Ledger.Compaction.{compact_for_retention, new_ledger_from_file}
use ahsir.Scheduler.Ledger.Consistency.{IsConsistent, empty-IsConsistent}
use ahsir.Scheduler.Ledger.Reload.{
  Call, begins, updates, run, call, begin_fresh, opened-IsConsistent, run-IsConsistent,
}
use ahsir.Scheduler.Ledger.Durability.{IsDurable, run-IsDurable}
use ahsir.Scheduler.Ledger.Settled.{AllSettled, run-AllSettled}
use ahsir.Scheduler.Ledger.Snapshot.{call-called, compaction_roundtrip}
use ahsir.Scheduler.Ledger.Called.{called}

abbrev hello : InvocationMetadata
hello = record {
  source = text "http";
  agent_name = text "helper";
  method = text "send";
  context_id = text "c1";
  message_id = text "m1";
  user_text = text "hi";
  speaker = [];
}

abbrev at_time : ℕ → Env
at_time now = record { now = now; disk = true }

abbrev on_disk : InvocationLedger
on_disk = record new_invocation_ledger { persistent = true; file = some [] }

abbrev history : List (Env × Call)
history =
    (at_time 5, begins hello)
    ∷ (at_time 6, begins hello)
    ∷ (at_time 7, updates (inv_id 1) complete)
    ∷ []

on_disk-IsConsistent : IsConsistent on_disk.book
unfolding new_invocation_ledger
on_disk-IsConsistent = empty-IsConsistent

on_disk-AllSettled : AllSettled on_disk.book
unfolding new_invocation_ledger empty_book get
on_disk-AllSettled id rec e = cc

run-IsDurable_example : IsDurable (run history on_disk)
unfolding new_invocation_ledger empty_book replay
run-IsDurable_example =
    run-IsDurable history on_disk
      ((refl, omega arith), ((refl, omega arith), ((refl, omega arith), tt))) refl (omega arith)
      on_disk-IsConsistent refl

abbrev busy_ledger : InvocationLedger
busy_ledger = run history on_disk

busy-IsConsistent : IsConsistent busy_ledger.book
unfolding new_invocation_ledger empty_book
busy-IsConsistent = (run-IsConsistent history on_disk (omega arith) on_disk-IsConsistent).0

busy_next : busy_ledger.book.next_id ≡ 2
unfolding run call begin update append_event new_invocation_ledger empty_book get put Text-discrete
    inv_id
busy_next = refl

call-called_example :
    snapshot (call (at_time 9) (updates (inv_id 2) queue) busy_ledger).book
    ≡ called
        (at_time 9)
        (updates (inv_id 2) queue)
        busy_ledger.book.next_id
        (snapshot busy_ledger.book)
call-called_example =
    call-called (at_time 9) (updates (inv_id 2) queue) busy_ledger busy-IsConsistent
      (omega (arith, busy_next))

abbrev restarted : InvocationLedger
restarted = record new_invocation_ledger { persistent = true }

begin_fresh_example :
    let before = run history restarted in
    let (after, rec) = begin (at_time 9) hello before in
    (get Text-discrete rec.id before.book.records ≡ none)
    × (get Text-discrete rec.id after.book.records ≡ some rec)
    × (after.book.order ≡ before.book.order ++ rec.id ∷ [])
unfolding new_invocation_ledger empty_book new_ledger_from_file
begin_fresh_example =
    begin_fresh (at_time 1) false none history (at_time 9) hello refl (omega arith)

opened-IsConsistent_example : IsConsistent restarted.book
unfolding new_ledger_from_file
opened-IsConsistent_example = opened-IsConsistent (at_time 1) false none refl

run-AllSettled_example : AllSettled (run history on_disk).book
run-AllSettled_example =
    run-AllSettled history on_disk (omega arith, (omega arith, (omega arith, tt)))
      on_disk-AllSettled

busy-AllSettled : AllSettled busy_ledger.book
busy-AllSettled =
    run-AllSettled history on_disk (omega arith, (omega arith, (omega arith, tt)))
      on_disk-AllSettled

abbrev or_same : Option InvocationLedger → InvocationLedger
or_same none = on_disk
or_same (some l) = l

abbrev compacted : InvocationLedger
compacted = or_same (compact_for_retention (at_time 9) busy_ledger)

busy_persistent : busy_ledger.persistent ≡ true
unfolding run call begin update append_event new_invocation_ledger empty_book get put Text-discrete
    inv_id
busy_persistent = refl

busy_compacts : compact_for_retention (at_time 9) busy_ledger ≡ some compacted
unfolding run call begin update append_event compact_for_retention new_invocation_ledger empty_book
    get put Text-discrete inv_id
busy_compacts = refl

compaction_roundtrip_example :
    let replayed = replay (lines_of compacted.file) empty_book in
    (snapshot compacted.book ≡ keep (retain_invocation_record 9) (snapshot busy_ledger.book))
    × (snapshot replayed ≡ map forget_end (snapshot compacted.book))
    × (replayed.next_id ≡ busy_ledger.book.next_id)
compaction_roundtrip_example =
    compaction_roundtrip (at_time 9) busy_ledger busy-IsConsistent busy-AllSettled busy_persistent
      busy_compacts
