-- ===== src/Scheduler/Ledger/Settled.antt =====
-- The fields of a record fit its status.
use mathlib.Core.Path.{subst}
use ahsir.Scheduler.Ledger.Record.{
  recovering, queued, recovery_failed, failed, recovered, completed, in_flight, InvocationStatus,
  InvocationRecord,
}
use ahsir.Scheduler.Ledger.Freshness.{update-book, update-missing, begin-book}
use ahsir.Prelude.{[], ◌∷◌, inr, inl, Option-cases, arith, some, All, ◌<◌, List, ℕ, ◌≡◌, refl}
use ahsir.Scheduler.Ledger.{
  recovery_done, recover, queue, complete, recovery_fail, successor, fail, new_record, finishes,
  message, InvocationLedger, target, with_status, get, Text, Env, Update,
}
use ahsir.Scheduler.Ledger.Reload.{updates, begins, Call, call, run}
use ahsir.Prelude.Table.{get-put, put, get}
use ahsir.Prelude.Text.{Text-discrete, Text}
use ahsir.Scheduler.Ledger.Replay.{Book}

abbrev pub FitsStatus : InvocationStatus → InvocationRecord → Type 0
FitsStatus in_flight rec = (rec.finished_at ≡ 0) × (rec.error ≡ [])
FitsStatus completed rec = (0 < rec.finished_at) × (rec.error ≡ [])
FitsStatus recovered rec = (0 < rec.finished_at) × (rec.error ≡ [])
FitsStatus failed rec = 0 < rec.finished_at
FitsStatus recovery_failed rec = 0 < rec.finished_at
FitsStatus queued rec = rec.error ≡ []
FitsStatus recovering rec = rec.error ≡ []

-- A record with a start, whose end and error are those of its status.
abbrev pub IsSettled : InvocationRecord → Type 0
IsSettled rec = (0 < rec.started_at) × FitsStatus rec.status rec

abbrev pub AllSettled : Book → Type 0
AllSettled b =
    (id : Text) (rec : InvocationRecord) → get Text-discrete id b.records ≡ some rec → IsSettled rec

with_status-IsSettled :
    (u : Update) (t : ℕ) (rec : InvocationRecord)
    → 0 < t
    → IsSettled rec
    → IsSettled (with_status (target u) (message u) (finishes u) t rec)
with_status-IsSettled complete t rec h s = ground arith
with_status-IsSettled (fail r m) t rec h s = ground arith
with_status-IsSettled queue t rec h s = ground arith
with_status-IsSettled recover t rec h s = ground arith
with_status-IsSettled recovery_done t rec h s = ground arith
with_status-IsSettled (recovery_fail m) t rec h s = ground arith

put-AllSettled :
    (b : Book) (id : Text) (rec : InvocationRecord)
    → IsSettled rec
    → AllSettled b
    → (j : Text) (r : InvocationRecord)
    → get Text-discrete j (put Text-discrete id rec b.records) ≡ some r
    → IsSettled r
put-AllSettled b id rec s a j r e = elim (Text-discrete id j) [
  | yes p ↦ subst IsSettled (ground (arith, get-put Text-discrete id j rec b.records)) s
  | no n ↦ a j r (ground (arith, get-put Text-discrete id j rec b.records))
]

-- Under a clock that runs, every call keeps the records settled.
call-AllSettled :
    (v : Env) (c : Call) (l : InvocationLedger)
    → 0 < v.now
    → AllSettled l.book
    → AllSettled (call v c l).book
unfolding call
call-AllSettled v (begins meta) l h a =
    rw (begin-book v meta l) (
      put-AllSettled l.book _ (new_record v.now (successor l.book.next_id) meta) (h, (refl, refl))
        a)
call-AllSettled v (updates id u) l h a = elim (Option-cases (get Text-discrete id l.book.records)) [
  | inl missing ↦ rw (update-missing v id u l missing) a
  | inr (rec, known) ↦
      rw (update-book v id u l rec known)
        (put-AllSettled l.book id _ (with_status-IsSettled u v.now rec h (a id rec known)) a)
]

pub run-AllSettled :
    (cs : List (Env × Call)) (l : InvocationLedger)
    → All (λ c. 0 < c.0.now) cs
    → AllSettled l.book
    → AllSettled (run cs l).book
unfolding run
run-AllSettled [] l h a = a
run-AllSettled ((v, c) ∷ cs) l h a =
    run-AllSettled cs (call v c l) h.1 (call-AllSettled v c l h.0 a)
