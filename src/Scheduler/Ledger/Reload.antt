-- ===== src/Scheduler/Ledger/Reload.antt =====
-- Loading the books anew: compaction and start-up keep them consistent, and so does every history.
use ahsir.Scheduler.Ledger.Freshness.{
  fresh_id, begin-record, update-book, update-missing, update-IsConsistent, begin-book,
  replay-IsConsistent, begin-IsConsistent,
}
use ahsir.Scheduler.Ledger.Replay.{empty_book, Book}
use ahsir.Scheduler.Ledger.{
  empty_book, InvocationLedger, Env, Update, begin, update, successor, new_record,
}
use ahsir.Prelude.{
  true, false, ◌++◌, ◌≤◌, length, Bool, ℕ, All, Bool-cases, map, ◌+◌, ◌<◌, ◌≡◌, refl, ◌∙◌, inl, inr,
  Option, none, some, List, [], ◌∷◌, arith, Option-cases,
}
use ahsir.Scheduler.Ledger.Consistency.{
  empty-IsConsistent, occurs, Distinct, AtMost, IsConsistent, enter-IsConsistent,
}
use ahsir.Prelude.Table.{get-put, get, put}
use ahsir.Prelude.Text.{Text, Text-discrete}
use ahsir.Prelude.Decimal.{u64}
use ahsir.Scheduler.Ledger.Compaction.{
  retained, compact_for_retention, new_ledger_from_file, reload,
}
use ahsir.Scheduler.Ledger.Record.{
  retain_invocation_record, InvocationRecord, InvocationMetadata, LedgerEvent, id_number,
}

-- Records that can be loaded into a book: their ids are distinct, new and not above the counter.
pub record CanLoad (recs : List InvocationRecord) (b : Book) : Type 0 where
  pub ids : Distinct (map (λ r. r.id) recs)
  pub news : All (λ r. get Text-discrete r.id b.records ≡ none) recs
  pub numbers : All (λ r. AtMost (id_number r.id) b.next_id) recs

pub still_new :
    (rec : InvocationRecord) (recs : List InvocationRecord) (b : Book)
    → occurs rec.id (map (λ r. r.id) recs) ≡ false
    → All (λ r. get Text-discrete r.id b.records ≡ none) recs
    → All (λ r. get Text-discrete r.id (put Text-discrete rec.id rec b.records) ≡ none) recs
still_new rec [] b h a = tt
still_new rec (r ∷ recs) b h a = (
  ground (arith, get-put Text-discrete rec.id r.id rec b.records, a.0),
  still_new rec recs b (ground arith) a.1,
)

reload-IsConsistent :
    (recs : List InvocationRecord) (b : Book)
    → CanLoad recs b
    → IsConsistent b
    → IsConsistent (reload recs b)
unfolding reload
reload-IsConsistent [] b k c = c
reload-IsConsistent (rec ∷ recs) b k c =
    reload-IsConsistent recs _
      (record {
        ids = k.ids.1;
        news = still_new rec recs b k.ids.0 k.news.1;
        numbers = k.numbers.1;
      })
      (enter-IsConsistent b rec b.next_id k.news.0 (omega arith) k.numbers.0 c)

retained-occurs :
    (now : ℕ) (b : Book) (id : Text) (order : List Text)
    → IsConsistent b
    → occurs id order ≡ false
    → occurs id (map (λ r. r.id) (retained now b order)) ≡ false
unfolding retained
retained-occurs now b id [] c h = refl
retained-occurs now b id (x ∷ xs) c h = elim (Option-cases (get Text-discrete x b.records)) [
  | inl missing ↦ rw (missing, retained) (retained-occurs now b id xs c (ground arith))
  | inr (rec, known) ↦
      rw (known, retained) (ground (arith, c.own_id x rec known, retained-occurs now b id xs c))
]

retained-Distinct :
    (now : ℕ) (b : Book) (order : List Text)
    → IsConsistent b
    → Distinct order
    → Distinct (map (λ r. r.id) (retained now b order))
unfolding retained
retained-Distinct now b [] c d = tt
retained-Distinct now b (x ∷ xs) c d = elim (Option-cases (get Text-discrete x b.records)) [
  | inl missing ↦ rw (missing, retained) (retained-Distinct now b xs c d.1)
  | inr (rec, known) ↦
      rw (known, retained)
        (ground (
          arith,
          c.own_id x rec known,
          retained-occurs now b x xs c d.0,
          retained-Distinct now b xs c d.1,
        ))
]

pub retained-All :
    (P : InvocationRecord → Type 0) (now : ℕ) (b : Book) (order : List Text)
    → ((id : Text) (rec : InvocationRecord) → get Text-discrete id b.records ≡ some rec → P rec)
    → All P (retained now b order)
unfolding retained
retained-All P now b [] h = tt
retained-All P now b (x ∷ xs) h = elim (Option-cases (get Text-discrete x b.records)) [
  | inl missing ↦ rw (missing, retained) (retained-All P now b xs h)
  | inr (rec, known) ↦ elim (Bool-cases (retain_invocation_record now rec)) [
    | inl wanted ↦ rw (known, retained, wanted) (h x rec known, retained-All P now b xs h)
    | inr stale ↦ rw (known, retained, stale) (retained-All P now b xs h)
  ]
]

-- The books that compaction starts to fill.
abbrev pub blank_book : ℕ → Book
blank_book n = record { next_id = n; records = []; order = [] }

pub blank-IsConsistent : (n : ℕ) → IsConsistent (blank_book n)
unfolding get
blank-IsConsistent n = record {
  own_id = λ id rec h. cc;
  numbered = λ id rec h. cc;
  listed = λ id. refl;
  distinct = tt;
}

pub retained-CanLoad :
    (now : ℕ) (b : Book) → IsConsistent b → CanLoad (retained now b b.order) (blank_book b.next_id)
unfolding get
retained-CanLoad now b c = record {
  ids = retained-Distinct now b b.order c c.distinct;
  news = retained-All (λ r. get Text-discrete r.id [] ≡ none) now b b.order (λ id rec h. refl);
  numbers =
      retained-All (λ r. AtMost (id_number r.id) b.next_id) now b b.order
        (λ id rec h. rw (c.own_id id rec h) (c.numbered id rec h));
}

compact-IsConsistent :
    (v : Env) (l : InvocationLedger) {l' : InvocationLedger}
    → IsConsistent l.book
    → compact_for_retention v l ≡ some l'
    → IsConsistent l'.book
unfolding compact_for_retention
compact-IsConsistent v l c e = ground (
  arith,
  reload-IsConsistent (retained v.now l.book l.book.order) (blank_book l.book.next_id)
      (retained-CanLoad v.now l.book c) (blank-IsConsistent l.book.next_id),
)

-- Whatever stands in the file, a ledger that opens is consistent.
pub opened-IsConsistent :
    (v : Env) (no_path : Bool) (file : Option (List (Option LedgerEvent))) {l : InvocationLedger}
    → new_ledger_from_file v no_path file ≡ some l
    → IsConsistent l.book
unfolding new_ledger_from_file
opened-IsConsistent v true file e = ground (arith, empty-IsConsistent)
opened-IsConsistent v false none e = ground (arith, empty-IsConsistent)
opened-IsConsistent v false (some lines) e =
    compact-IsConsistent v _ (replay-IsConsistent lines empty_book empty-IsConsistent) e

-- The calls that change the books.
pub data Call : Type 0 where
  begins : InvocationMetadata → Call
  updates : Text → Update → Call

unfoldable pub call : Env → Call → InvocationLedger → InvocationLedger
call v (begins meta) l = (begin v meta l).0
call v (updates id u) l = update v id u l

unfoldable pub run : List (Env × Call) → InvocationLedger → InvocationLedger
run [] l = l
run ((v, c) ∷ cs) l = run cs (call v c l)

pub call-next_id :
    (v : Env) (c : Call) (l : InvocationLedger)
    → l.book.next_id + 1 < u64
    → (call v c l).book.next_id ≤ l.book.next_id + 1
unfolding call
call-next_id v (begins meta) l h = ground (arith, begin-book v meta l)
call-next_id v (updates id u) l h = elim (Option-cases (get Text-discrete id l.book.records)) [
  | inl missing ↦ rw (update-missing v id u l missing) (omega arith)
  | inr (old, known) ↦ rw (update-book v id u l old known) (omega arith)
]

pub call-IsConsistent :
    (v : Env) (c : Call) (l : InvocationLedger)
    → l.book.next_id + 1 < u64
    → IsConsistent l.book
    → IsConsistent (call v c l).book
unfolding call
call-IsConsistent v (begins meta) l h k = begin-IsConsistent v meta l k h
call-IsConsistent v (updates id u) l h k = update-IsConsistent v id u l k

pub run-IsConsistent :
    (cs : List (Env × Call)) (l : InvocationLedger)
    → l.book.next_id + length cs < u64
    → IsConsistent l.book
    → IsConsistent (run cs l).book × ((run cs l).book.next_id ≤ l.book.next_id + length cs)
unfolding run
run-IsConsistent [] l h k = (k, omega arith)
run-IsConsistent ((v, c) ∷ cs) l h k =
    let grown = call-next_id v c l (omega arith) in
    let (k', b) =
      run-IsConsistent cs (call v c l) (omega arith) (call-IsConsistent v c l (omega arith) k) in
    (k', omega arith)

begin_enters :
    (w : Env) (meta : InvocationMetadata) (l : InvocationLedger)
    → IsConsistent l.book
    → l.book.next_id + 1 < u64
    → let (after, rec) = begin w meta l in
      (get Text-discrete rec.id l.book.records ≡ none)
      × (get Text-discrete rec.id after.book.records ≡ some rec)
      × (after.book.order ≡ l.book.order ++ rec.id ∷ [])
begin_enters w meta l c h =
    let n = successor l.book.next_id in
    let rec = new_record w.now n meta in
    rw (begin-record w meta l, begin-book w meta l)
      (
        fresh_id l.book c h,
        get-put Text-discrete rec.id rec.id rec l.book.records ∙ ground arith,
        refl,
      )

-- After any start-up, from whatever file, and any history, as long as the 64-bit counter has not
-- run out: `Begin` gives an id that no record has, and lists it last.
pub begin_fresh :
    (v : Env) (no_path : Bool) (file : Option (List (Option LedgerEvent))) {l : InvocationLedger}
    (cs : List (Env × Call)) (w : Env) (meta : InvocationMetadata)
    → new_ledger_from_file v no_path file ≡ some l
    → l.book.next_id + length cs + 1 < u64
    → let before = run cs l in
      let (after, rec) = begin w meta before in
      (get Text-discrete rec.id before.book.records ≡ none)
      × (get Text-discrete rec.id after.book.records ≡ some rec)
      × (after.book.order ≡ before.book.order ++ rec.id ∷ [])
begin_fresh v no_path file {l} cs w meta e h =
    let (c, b) = run-IsConsistent cs l (omega arith) (opened-IsConsistent v no_path file e) in
    begin_enters w meta (run cs l) c (omega arith)
