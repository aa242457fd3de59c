-- ===== src/Scheduler/Ledger/Durability.antt =====
-- The log on disk determines the books: what a restart replays is what was in memory.
use ahsir.Scheduler.Ledger.Freshness.{
  update-book, update-missing, begin-book, revise-known, fresh_id,
}
use ahsir.Prelude.{
  if◌then◌else◌, ltb, inr, inl, Option-cases, sym, length, All, none, ◌+◌, arith, [], some, ◌∷◌,
  ◌<◌, Option, ◌++◌, List, true, ℕ, ◌≡◌, ◌∙◌, refl,
}
use ahsir.Scheduler.Ledger.Reload.{
  call-IsConsistent, call-next_id, updates, begins, Call, run, call,
}
use ahsir.Scheduler.Ledger.{
  recovery_done, recover, queue, update, begin, complete, inv_id, enter, recovery_fail, successor,
  status_event, fail, new_record, u64, finishes, with_status, message, get, InvocationMetadata,
  stamp, started_event_from_record, target, InvocationRecord, Book, empty_book, LedgerEvent,
  lines_of, Text, Update, Env, InvocationLedger, append_event,
}
use ahsir.Scheduler.Ledger.Replay.{
  revise, Book, apply_started, empty_book, apply_by, replay, settled_by, apply_replay_event,
  bump_next_id,
}
use ahsir.Scheduler.Ledger.Record.{
  status, inv_id, id_number, status_event, InvocationMetadata, started_event_from_record,
  InvocationRecord, LedgerEvent,
}
use ahsir.Scheduler.Ledger.Consistency.{id_number-inv_id, IsConsistent}
use ahsir.Prelude.Table.{put, get}
use ahsir.Prelude.Decimal.{u64}
use ahsir.Prelude.Text.{Text-discrete, Text}

-- Replaying the file from nothing gives the books.
abbrev pub IsDurable : InvocationLedger → Type 0
IsDurable l = replay (lines_of l.file) empty_book ≡ l.book

pub replay-append :
    (xs ys : List (Option LedgerEvent)) (b : Book) → replay (xs ++ ys) b ≡ replay ys (replay xs b)
unfolding replay
replay-append [] ys b = refl
replay-append (none ∷ xs) ys b = replay-append xs ys b
replay-append (some ev ∷ xs) ys b = replay-append xs ys (apply_replay_event ev b)

replay-last :
    (xs : List (Option LedgerEvent)) (ev : LedgerEvent) (b : Book)
    → replay (xs ++ some ev ∷ []) b ≡ apply_replay_event ev (replay xs b)
unfolding replay
replay-last xs ev b = replay-append xs (some ev ∷ []) b

-- The file system works and the clock runs.
abbrev IsHealthy : Env → Type 0
IsHealthy v = (v.disk ≡ true) × (0 < v.now)

append_event-file :
    (v : Env) (ev : LedgerEvent) (l : InvocationLedger)
    → IsHealthy v
    → l.persistent ≡ true
    → lines_of (append_event v ev l).file ≡ lines_of l.file ++ some (stamp v.now ev) ∷ []
unfolding append_event
append_event-file v ev l h p = ground arith

apply-begin :
    (v : Env) (meta : InvocationMetadata) (b : Book)
    → IsHealthy v
    → IsConsistent b
    → b.next_id + 1 < u64
    → let rec = new_record v.now (successor b.next_id) meta in
      apply_replay_event (stamp v.now (started_event_from_record rec)) b
      ≡ enter rec (successor b.next_id) b
unfolding apply_replay_event apply_by apply_started started_event_from_record bump_next_id
apply-begin v meta b h c lt =
    let n = successor b.next_id in
    let q : id_number (inv_id n) ≡ some n = id_number-inv_id n (omega arith) in
    ground (arith, fresh_id b c lt)

settled_by-with_status :
    (u : Update) (t : ℕ) (rec : InvocationRecord)
    → settled_by (target u) (message u) t rec
      ≡ with_status (target u) (message u) (finishes u) t rec
unfolding settled_by
settled_by-with_status complete t rec = refl
settled_by-with_status (fail r m) t rec = refl
settled_by-with_status queue t rec = refl
settled_by-with_status recover t rec = refl
settled_by-with_status recovery_done t rec = refl
settled_by-with_status (recovery_fail m) t rec = refl

bump_known :
    (id : Text) (b : Book) (rec : InvocationRecord)
    → IsConsistent b
    → get Text-discrete id b.records ≡ some rec
    → bump_next_id id b ≡ b
unfolding bump_next_id
bump_known id b rec c e = ground (arith, c.numbered id rec e)

pub apply_target :
    (u : Update) (ev : LedgerEvent) (b : Book)
    → apply_by (status (target u)) ev b
      ≡ revise ev.id (settled_by (target u) ev.error ev.ts) (bump_next_id ev.id b)
unfolding apply_by
apply_target complete ev b = refl
apply_target (fail r m) ev b = refl
apply_target queue ev b = refl
apply_target recover ev b = refl
apply_target recovery_done ev b = refl
apply_target (recovery_fail m) ev b = refl

stamped : (t : ℕ) → (if ltb 0 t then t else t) ≡ t
stamped t = ground arith

pub apply_replay_event-kind :
    (ev : LedgerEvent) (b : Book) → apply_replay_event ev b ≡ apply_by ev.kind ev b
unfolding apply_replay_event
apply_replay_event-kind ev b = refl

apply-update :
    (v : Env) (id : Text) (u : Update) (b : Book) (rec : InvocationRecord)
    → IsConsistent b
    → get Text-discrete id b.records ≡ some rec
    → apply_replay_event (stamp v.now (status_event (target u) id (message u) v.now)) b ≡ record b {
      records =
          put Text-discrete id
            (with_status (target u) (message u) (finishes u) v.now rec)
            b.records;
    }
apply-update v id u b rec c e =
    rw
      (
        stamped v.now,
        apply_replay_event-kind,
        apply_target u,
        bump_known id b rec c e,
        revise-known id (settled_by (target u) (message u) v.now) b rec e,
        settled_by-with_status u v.now rec,
      )
      refl

update-file :
    (v : Env) (id : Text) (u : Update) (l : InvocationLedger) (rec : InvocationRecord)
    → IsHealthy v
    → l.persistent ≡ true
    → get Text-discrete id l.book.records ≡ some rec
    → lines_of (update v id u l).file
      ≡ lines_of l.file ++ some (stamp v.now (status_event (target u) id (message u) v.now)) ∷ []
unfolding update
update-file v id u l rec h p e = ground arith

begin-file :
    (v : Env) (meta : InvocationMetadata) (l : InvocationLedger)
    → IsHealthy v
    → l.persistent ≡ true
    → lines_of (begin v meta l).0.file
      ≡ lines_of l.file
        ++ some (
            stamp v.now
              (started_event_from_record (new_record v.now (successor l.book.next_id) meta)))
          ∷ []
unfolding begin
begin-file v meta l h p = ground arith

call-persistent :
    (v : Env) (c : Call) (l : InvocationLedger) → (call v c l).persistent ≡ l.persistent
unfolding call begin update
call-persistent v (begins meta) l = ground arith
call-persistent v (updates id u) l = ground arith

call-IsDurable :
    (v : Env) (c : Call) (l : InvocationLedger)
    → IsHealthy v
    → l.persistent ≡ true
    → l.book.next_id + 1 < u64
    → IsConsistent l.book
    → IsDurable l
    → IsDurable (call v c l)
unfolding call
call-IsDurable v (begins meta) l h p lt c d =
    rw (begin-file v meta l h p, replay-last, d, apply-begin v meta l.book h c lt)
      (sym (begin-book v meta l))
call-IsDurable v (updates id u) l h p lt c d =
    elim (Option-cases (get Text-discrete id l.book.records)) [
      | inl missing ↦ rw (update-missing v id u l missing) d
      | inr (rec, known) ↦
          rw
            (
              update-file v id u l rec h p known,
              replay-last,
              d,
              apply-update v id u l.book rec c known,
            )
            (sym (update-book v id u l rec known))
    ]

-- With a working file system and clock, from a consistent ledger with a file that is durable in this
-- sense, before the counter runs out, after any history of calls, replaying the file from nothing gives
-- exactly the counter, the records and the order that the ledger holds in memory; so a crash
-- between two calls loses nothing.
pub run-IsDurable :
    (cs : List (Env × Call)) (l : InvocationLedger)
    → All (λ c. IsHealthy c.0) cs
    → l.persistent ≡ true
    → l.book.next_id + length cs < u64
    → IsConsistent l.book
    → IsDurable l
    → IsDurable (run cs l)
unfolding run
run-IsDurable [] l h p lt c d = d
run-IsDurable ((v, k) ∷ cs) l h p lt c d =
    run-IsDurable cs (call v k l) h.1 (call-persistent v k l ∙ p)
      (omega (arith, call-next_id v k l)) (call-IsConsistent v k l (omega arith) c)
      (call-IsDurable v k l h.0 p (omega arith) c d)
