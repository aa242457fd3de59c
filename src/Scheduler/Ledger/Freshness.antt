-- ===== src/Scheduler/Ledger/Freshness.antt =====
-- Every method keeps the books consistent, so a new invocation never takes the place of an old one.
use ahsir.Prelude.Table.{get, put}
use ahsir.Prelude.{
  ℕ, ◌+◌, ◌<◌, ◌≡◌, refl, ◌∙◌, inl, inr, Option, none, some, List, [], ◌∷◌, arith, Option-cases,
}
use ahsir.Scheduler.Ledger.Consistency.{
  AtMost, IsConsistent, id_number-inv_id, raise-IsConsistent, put-IsConsistent, enter-IsConsistent,
}
use ahsir.Prelude.Text.{Text, Text-discrete}
use ahsir.Prelude.Decimal.{u64}
use ahsir.Scheduler.Ledger.Record.{
  InvocationRecord, InvocationMetadata, InvocationStatus, in_flight, EventType, checkpoint, started,
  unknown, status, LedgerEvent, id_number, inv_id,
}
use ahsir.Scheduler.Ledger.Replay.{
  Book, raise_to, bump_next_id, apply_started, settled_by, revise, apply_by, apply_replay_event,
  replay,
}
use ahsir.Scheduler.Ledger.{
  InvocationLedger, Env, Update, enter, begin, update, successor, with_status, new_record, target,
  message, finishes,
}

bump-IsConsistent : (id : Text) (b : Book) → IsConsistent b → IsConsistent (bump_next_id id b)
unfolding bump_next_id
bump-IsConsistent id b c = raise-IsConsistent b (raise_to b.next_id (id_number id)) (ground arith) c

bump_covers : (id : Text) (b : Book) → AtMost (id_number id) (bump_next_id id b).next_id
unfolding bump_next_id
bump_covers id b = ground arith

apply_started-IsConsistent :
    (ev : LedgerEvent) (b : Book)
    → AtMost (id_number ev.id) b.next_id
    → IsConsistent b
    → IsConsistent (apply_started ev b)
unfolding apply_started
apply_started-IsConsistent ev b a c = elim (Option-cases (get Text-discrete ev.id b.records)) [
  | inl fresh ↦ rw fresh (enter-IsConsistent b _ b.next_id fresh (omega arith) a c)
  | inr (old, known) ↦ rw known (put-IsConsistent b ev.id old _ known refl c)
]

pub settled_by-id :
    (s : InvocationStatus) (e : Text) (t : ℕ) (rec : InvocationRecord)
    → (settled_by s e t rec).id ≡ rec.id
unfolding settled_by
settled_by-id in_flight e t rec = refl
settled_by-id _ e t rec = refl

revise-missing :
    (id : Text) (f : InvocationRecord → InvocationRecord) (b : Book)
    → get Text-discrete id b.records ≡ none
    → revise id f b ≡ b
unfolding revise
revise-missing id f b e = rw (e, revise)

pub revise-known :
    (id : Text) (f : InvocationRecord → InvocationRecord) (b : Book) (rec : InvocationRecord)
    → get Text-discrete id b.records ≡ some rec
    → revise id f b ≡ record b { records = put Text-discrete id (f rec) b.records }
unfolding revise
revise-known id f b rec e = rw (e, revise)

revise-IsConsistent :
    (id : Text) (s : InvocationStatus) (e : Text) (t : ℕ) (b : Book)
    → IsConsistent b
    → IsConsistent (revise id (settled_by s e t) b)
revise-IsConsistent id s e t b c = elim (Option-cases (get Text-discrete id b.records)) [
  | inl missing ↦ rw (revise-missing id (settled_by s e t) b missing) c
  | inr (old, known) ↦ rw (revise-known id (settled_by s e t) b old known) (
      put-IsConsistent b id old (settled_by s e t old) known
        (settled_by-id s e t old ∙ c.own_id id old known) c)
]

apply_by-IsConsistent :
    (k : EventType) (ev : LedgerEvent) (b : Book) → IsConsistent b → IsConsistent (apply_by k ev b)
unfolding apply_by
apply_by-IsConsistent checkpoint ev b c = raise-IsConsistent b _ (ground arith) c
apply_by-IsConsistent started ev b c =
    apply_started-IsConsistent ev _ (bump_covers ev.id b) (bump-IsConsistent ev.id b c)
apply_by-IsConsistent unknown ev b c = bump-IsConsistent ev.id b c
apply_by-IsConsistent (status in_flight) ev b c = bump-IsConsistent ev.id b c
apply_by-IsConsistent (status s) ev b c =
    revise-IsConsistent ev.id s ev.error ev.ts _ (bump-IsConsistent ev.id b c)

pub replay-IsConsistent :
    (lines : List (Option LedgerEvent)) (b : Book) → IsConsistent b → IsConsistent (replay lines b)
unfolding replay apply_replay_event
replay-IsConsistent [] b c = c
replay-IsConsistent (none ∷ lines) b c = replay-IsConsistent lines b c
replay-IsConsistent (some ev ∷ lines) b c =
    replay-IsConsistent lines (apply_replay_event ev b) (apply_by-IsConsistent ev.kind ev b c)

-- A fresh number gives an id that no record has.
pub fresh_id :
    (b : Book)
    → IsConsistent b
    → b.next_id + 1 < u64
    → get Text-discrete (inv_id (successor b.next_id)) b.records ≡ none
fresh_id b c h = elim (Option-cases (get Text-discrete (inv_id (successor b.next_id)) b.records)) [
  | inl missing ↦ missing
  | inr (old, known) ↦
      let p : AtMost (id_number (inv_id (successor b.next_id))) b.next_id =
        c.numbered _ old known in
      let q : id_number (inv_id (successor b.next_id)) ≡ some (successor b.next_id) =
        id_number-inv_id (successor b.next_id) (omega arith) in
      absurd (ground arith)
]

pub begin-book :
    (v : Env) (meta : InvocationMetadata) (l : InvocationLedger)
    → (begin v meta l).0.book
      ≡ enter (new_record v.now (successor l.book.next_id) meta) (successor l.book.next_id) l.book
unfolding begin
begin-book v meta l = ground arith

pub begin-record :
    (v : Env) (meta : InvocationMetadata) (l : InvocationLedger)
    → (begin v meta l).1 ≡ new_record v.now (successor l.book.next_id) meta
unfolding begin
begin-record v meta l = refl

pub update-book :
    (v : Env) (id : Text) (u : Update) (l : InvocationLedger) (rec : InvocationRecord)
    → get Text-discrete id l.book.records ≡ some rec
    → (update v id u l).book ≡ record (l.book) {
      records =
          put Text-discrete id
            (with_status (target u) (message u) (finishes u) v.now rec)
            l.book.records;
    }
unfolding update
update-book v id u l rec e = ground arith

pub update-missing :
    (v : Env) (id : Text) (u : Update) (l : InvocationLedger)
    → get Text-discrete id l.book.records ≡ none
    → update v id u l ≡ l
unfolding update
update-missing v id u l e = ground arith

pub begin-IsConsistent :
    (v : Env) (meta : InvocationMetadata) (l : InvocationLedger)
    → IsConsistent l.book
    → l.book.next_id + 1 < u64
    → IsConsistent (begin v meta l).0.book
begin-IsConsistent v meta l c h =
    let n = successor l.book.next_id in
    let q : id_number (inv_id n) ≡ some n = id_number-inv_id n (omega arith) in
    rw (begin-book v meta l) (
      enter-IsConsistent l.book (new_record v.now n meta) n (fresh_id l.book c h) (omega arith)
        (rw q (omega arith)) c)

pub update-IsConsistent :
    (v : Env) (id : Text) (u : Update) (l : InvocationLedger)
    → IsConsistent l.book
    → IsConsistent (update v id u l).book
update-IsConsistent v id u l c = elim (Option-cases (get Text-discrete id l.book.records)) [
  | inl missing ↦ rw (update-missing v id u l missing) c
  | inr (old, known) ↦
      rw (update-book v id u l old known)
        (put-IsConsistent l.book id old _ known (c.own_id id old known) c)
]
