-- ===== src/Scheduler/Ledger/Roundtrip.antt =====
-- Compaction writes a log that replays to the records that it keeps.
use mathlib.Core.Path.{ap₂, subst}
use ahsir.Prelude.Text.{Text, Text-discrete}
use ahsir.Scheduler.Ledger.Record.{
  recovery_failed, recovered, failed, completed, LedgerEvent, status_event, id_number, recovering,
  started_event_from_record, queued, InvocationRecord, InvocationStatus, terminal_time,
}
use ahsir.Scheduler.Ledger.{
  recovery_done, recover, queue, complete, recovery_fail, LedgerEvent, fail, message, target,
  status_event, stamp, enter, Text-discrete, get, started_event_from_record, in_flight, Book,
  Update,
}
use ahsir.Prelude.{
  sym, map, All, ap, some, List, lt→ltb, none, arith, [], ◌∷◌, ◌<◌, ℕ, ◌≡◌, ◌∙◌, refl,
}
use ahsir.Scheduler.Ledger.Durability.{replay-append, apply_target, apply_replay_event-kind}
use ahsir.Scheduler.Ledger.Compaction.{status_events, as_lines, reload, record_lines}
use ahsir.Scheduler.Ledger.Reload.{still_new, CanLoad}
use ahsir.Scheduler.Ledger.Settled.{IsSettled, FitsStatus}
use ahsir.Scheduler.Ledger.Replay.{
  replay, settled_by, revise, Book, bump_next_id, apply_replay_event,
}
use ahsir.Scheduler.Ledger.Freshness.{settled_by-id, revise-known}
use ahsir.Prelude.Table.{put-put, get-put_self, get}
use ahsir.Scheduler.Ledger.Consistency.{AtMost}

-- A compacted log has no end for a record that waits or recovers.
abbrev forget_by : InvocationStatus → InvocationRecord → InvocationRecord
forget_by queued rec = record rec { finished_at = 0 }
forget_by recovering rec = record rec { finished_at = 0 }
forget_by _ rec = rec

abbrev pub forget_end : InvocationRecord → InvocationRecord
forget_end rec = forget_by rec.status rec

-- The record as its `started` event makes it.
abbrev begun_again : InvocationRecord → InvocationRecord
begun_again rec = record rec { status = in_flight; finished_at = 0; error = [] }

apply_started_new :
    (now : ℕ) (rec : InvocationRecord) (b : Book)
    → 0 < rec.started_at
    → get Text-discrete rec.id b.records ≡ none
    → AtMost (id_number rec.id) b.next_id
    → apply_replay_event (stamp now (started_event_from_record rec)) b
      ≡ enter (begun_again rec) b.next_id b
unfolding apply_replay_event started_event_from_record
apply_started_new now rec b h g a = ground arith

-- Revising a record that was just entered enters the revised one.
revise-enter :
    (f : InvocationRecord → InvocationRecord) (rec : InvocationRecord) (n : ℕ) (b : Book)
    → (f rec).id ≡ rec.id
    → revise rec.id f (enter rec n b) ≡ enter (f rec) n b
revise-enter f rec n b e =
    rw
      (
        revise-known rec.id f (enter rec n b) rec (get-put_self Text-discrete rec.id rec b.records),
        put-put Text-discrete rec.id (f rec) rec b.records,
        e,
      )
      refl

bump-enter :
    (rec : InvocationRecord) (b : Book)
    → AtMost (id_number rec.id) b.next_id
    → bump_next_id rec.id (enter rec b.next_id b) ≡ enter rec b.next_id b
unfolding bump_next_id
bump-enter rec b a = ground arith

apply_status :
    (u : Update) (now t : ℕ) (rec : InvocationRecord) (b : Book)
    → 0 < t
    → AtMost (id_number rec.id) b.next_id
    → apply_replay_event
        (stamp now (status_event (target u) rec.id (message u) t))
        (enter (begun_again rec) b.next_id b)
      ≡ enter (settled_by (target u) (message u) t (begun_again rec)) b.next_id b
apply_status u now t rec b h a =
    rw
      (
        lt→ltb 0 t h,
        apply_replay_event-kind,
        apply_target u,
        bump-enter (begun_again rec) b a,
        revise-enter (settled_by (target u) (message u) t) (begun_again rec) b.next_id b
            (settled_by-id (target u) (message u) t (begun_again rec)),
      )
      refl

terminal_time-end :
    (now : ℕ) (rec : InvocationRecord)
    → 0 < rec.finished_at
    → terminal_time now rec ≡ rec.finished_at
unfolding terminal_time
terminal_time-end now rec h = ground arith

terminal_time-pos :
    (now : ℕ) (rec : InvocationRecord) → 0 < rec.started_at → 0 < terminal_time now rec
unfolding terminal_time
terminal_time-pos now rec h = ground arith

same_record :
    (s : InvocationStatus) (u : Update) (now : ℕ) (rec : InvocationRecord)
    → s ≡ target u
    → rec.status ≡ s
    → 0 < rec.started_at
    → FitsStatus s rec
    → (message u ≡ rec.error)
    → settled_by (target u) (message u) (terminal_time now rec) (begun_again rec) ≡ forget_by s rec
unfolding settled_by terminal_time
same_record s complete now rec e q h f m = ground arith
same_record s (fail r msg) now rec e q h f m = ground arith
same_record s queue now rec e q h f m = ground arith
same_record s recover now rec e q h f m = ground arith
same_record s recovery_done now rec e q h f m = ground arith
same_record s (recovery_fail msg) now rec e q h f m = ground arith

replay-one : (ev : LedgerEvent) (b : Book) → replay (some ev ∷ []) b ≡ apply_replay_event ev b
unfolding replay
replay-one ev b = refl

status_lines_by :
    (s : InvocationStatus) (u : Update) (now : ℕ) (rec : InvocationRecord) (b : Book)
    → s ≡ target u
    → rec.status ≡ s
    → 0 < rec.started_at
    → FitsStatus s rec
    → message u ≡ rec.error
    → AtMost (id_number rec.id) b.next_id
    → replay
        (some (stamp now (status_event (target u) rec.id (message u) (terminal_time now rec))) ∷ [])
        (enter (begun_again rec) b.next_id b)
      ≡ enter (forget_by s rec) b.next_id b
status_lines_by s u now rec b e q h f m a =
    replay-one _ _
    ∙ (apply_status u now (terminal_time now rec) rec b (terminal_time-pos now rec h) a
        ∙ ap (λ r. enter r b.next_id b) (same_record s u now rec e q h f m))

status_lines :
    (s : InvocationStatus) (now : ℕ) (rec : InvocationRecord) (b : Book)
    → rec.status ≡ s
    → 0 < rec.started_at
    → FitsStatus s rec
    → AtMost (id_number rec.id) b.next_id
    → replay (as_lines now (status_events s now rec)) (enter (begun_again rec) b.next_id b)
      ≡ enter (forget_by s rec) b.next_id b
unfolding replay
status_lines in_flight now rec b q h f a = ap (λ r. enter r b.next_id b) (ground arith)
status_lines completed now rec b q h f a =
    status_lines_by completed complete now rec b refl q h f (sym f.1) a
status_lines failed now rec b q h f a =
    status_lines_by failed (fail [] rec.error) now rec b refl q h f refl a
status_lines queued now rec b q h f a = status_lines_by queued queue now rec b refl q h f (sym f) a
status_lines recovering now rec b q h f a =
    status_lines_by recovering recover now rec b refl q h f (sym f) a
status_lines recovered now rec b q h f a =
    status_lines_by recovered recovery_done now rec b refl q h f (sym f.1) a
status_lines recovery_failed now rec b q h f a =
    status_lines_by recovery_failed (recovery_fail rec.error) now rec b refl q h f refl a

one_record :
    (now : ℕ) (rec : InvocationRecord) (b : Book)
    → IsSettled rec
    → get Text-discrete rec.id b.records ≡ none
    → AtMost (id_number rec.id) b.next_id
    → replay (as_lines now (started_event_from_record rec ∷ status_events rec.status now rec)) b
      ≡ enter (forget_end rec) b.next_id b
one_record now rec b s g a =
    replay-append (some (stamp now (started_event_from_record rec)) ∷ [])
      (as_lines now (status_events rec.status now rec)) b
    ∙ (ap (replay (as_lines now (status_events rec.status now rec)))
          (replay-one _ b ∙ apply_started_new now rec b s.0 g a)
        ∙ status_lines rec.status now rec b refl s.0 s.1 a)

forget_by-id : (s : InvocationStatus) (rec : InvocationRecord) → (forget_by s rec).id ≡ rec.id
forget_by-id queued rec = refl
forget_by-id recovering rec = refl
forget_by-id _ rec = refl

CanLoad-next :
    (rec : InvocationRecord) (recs : List InvocationRecord) (b : Book)
    → CanLoad (rec ∷ recs) b
    → CanLoad recs (enter (forget_end rec) b.next_id b)
CanLoad-next rec recs b k = record {
  ids = k.ids.1;
  news = still_new (forget_end rec) recs b (rw (forget_by-id rec.status rec) k.ids.0) k.news.1;
  numbers = k.numbers.1;
}

ids-forget :
    (recs : List InvocationRecord) → map (λ r. r.id) (map forget_end recs) ≡ map (λ r. r.id) recs
ids-forget [] = refl
ids-forget (rec ∷ recs) = ap₂ ◌∷◌ (forget_by-id rec.status rec) (ids-forget recs)

All-forget {ℓ} :
    (P : Text → Type ℓ) (recs : List InvocationRecord)
    → All (λ r. P r.id) recs
    → All (λ r. P r.id) (map forget_end recs)
All-forget P [] a = tt
All-forget P (rec ∷ recs) a =
    (subst P (sym (forget_by-id rec.status rec)) a.0, All-forget P recs a.1)

pub CanLoad-forget :
    (recs : List InvocationRecord) (b : Book) → CanLoad recs b → CanLoad (map forget_end recs) b
CanLoad-forget recs b k = record {
  ids = rw (ids-forget recs) k.ids;
  news = All-forget (λ id. get Text-discrete id b.records ≡ none) recs k.news;
  numbers = All-forget (λ id. AtMost (id_number id) b.next_id) recs k.numbers;
}

pub replay-record_lines :
    (now : ℕ) (recs : List InvocationRecord) (b : Book)
    → All IsSettled recs
    → CanLoad recs b
    → replay (record_lines now recs) b ≡ reload (map forget_end recs) b
unfolding record_lines reload replay
replay-record_lines now [] b s k = refl
replay-record_lines now (rec ∷ recs) b s k =
    replay-append (as_lines now (started_event_from_record rec ∷ status_events rec.status now rec))
      (record_lines now recs) b
    ∙ (ap (replay (record_lines now recs)) (one_record now rec b s.0 k.news.0 k.numbers.0)
        ∙ replay-record_lines now recs (enter (forget_end rec) b.next_id b) s.1
            (CanLoad-next rec recs b k))
