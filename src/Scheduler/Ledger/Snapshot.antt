-- ===== src/Scheduler/Ledger/Snapshot.antt =====
-- The ledger as the list of records that `Snapshot` returns.
use ahsir.Scheduler.Ledger.Called.{with_status-becomes, revised, called, new_record-opened}
use mathlib.Core.List.{append-nil, append_assoc}
use mathlib.Core.Path.{ap₂}
use ahsir.Prelude.Text.{Text-discrete, Text}
use ahsir.Scheduler.Ledger.Roundtrip.{CanLoad-forget, replay-record_lines, forget_end}
use ahsir.Scheduler.Ledger.Settled.{IsSettled, AllSettled}
use ahsir.Scheduler.Ledger.Reload.{
  retained-All, blank-IsConsistent, retained-CanLoad, updates, blank_book, begins, Call, call,
  still_new, CanLoad,
}
use ahsir.Scheduler.Ledger.Freshness.{update-book, update-missing, fresh_id, begin-book}
use ahsir.Scheduler.Ledger.Compaction.{
  record_lines, compacted_lines, compact_for_retention, reload, retained,
}
use ahsir.Scheduler.Ledger.{
  successor, u64, finishes, lines_of, message, new_record, target, InvocationLedger, with_status,
  Env, Update, stamp, enter, LedgerEvent, record_at, get, empty_book, InvocationRecord, snapshot,
}
use ahsir.Prelude.Decimal.{u64}
use ahsir.Prelude.{
  ◌<◌, inr, ◌+◌, inl, Option-cases, arith, keep, none, some, sym, is_some, ◌++◌, true, Option,
  false, map, List, [], ◌∷◌, ℕ, ◌≡◌, ◌∙◌, refl, ap,
}
use ahsir.Scheduler.Ledger.Consistency.{enter-IsConsistent, IsConsistent, occurs}
use ahsir.Prelude.Table.{get-put, get-put_self, put, get}
use ahsir.Scheduler.Ledger.Record.{
  checkpoint_event, retain_invocation_record, LedgerEvent, InvocationRecord,
}
use ahsir.Scheduler.Ledger.Replay.{empty_book, apply_replay_event, replay, Book}

map-record_at-put :
    (b : Book) (id : Text) (rec : InvocationRecord) (xs : List Text)
    → occurs id xs ≡ false
    → map (record_at (record b { records = put Text-discrete id rec b.records })) xs
      ≡ map (record_at b) xs
map-record_at-put b id rec [] h = refl
map-record_at-put b id rec (x ∷ xs) h =
    ground (arith, get-put Text-discrete id x rec b.records, map-record_at-put b id rec xs)

record_at-put :
    (b : Book) (id : Text) (rec : InvocationRecord)
    → record_at (record b { records = put Text-discrete id rec b.records }) id ≡ rec
record_at-put b id rec = ground (arith, get-put_self Text-discrete id rec b.records)

map_snoc :
    (f : Text → InvocationRecord) (xs : List Text) (x : Text)
    → map f (xs ++ x ∷ []) ≡ map f xs ++ f x ∷ []
map_snoc f [] x = refl
map_snoc f (y ∷ xs) x = ap (◌∷◌ (f y)) (map_snoc f xs x)

-- A record whose id is new goes to the end.
snapshot-enter :
    (rec : InvocationRecord) (n : ℕ) (b : Book)
    → IsConsistent b
    → get Text-discrete rec.id b.records ≡ none
    → snapshot (enter rec n b) ≡ snapshot b ++ rec ∷ []
unfolding snapshot
snapshot-enter rec n b c g =
    map_snoc (record_at (enter rec n b)) b.order rec.id
    ∙ ap₂ (λ xs r. xs ++ r ∷ [])
        (map-record_at-put b rec.id rec b.order (c.listed rec.id ∙ rw g refl))
        (record_at-put b rec.id rec)

snapshot-reload :
    (recs : List InvocationRecord) (b : Book)
    → CanLoad recs b
    → IsConsistent b
    → snapshot (reload recs b) ≡ snapshot b ++ recs
unfolding reload
snapshot-reload [] b k c = sym (append-nil (snapshot b))
snapshot-reload (rec ∷ recs) b k c =
    snapshot-reload recs (enter rec b.next_id b)
      (record {
        ids = k.ids.1;
        news = still_new rec recs b k.ids.0 k.news.1;
        numbers = k.numbers.1;
      })
      (enter-IsConsistent b rec b.next_id k.news.0 (omega arith) k.numbers.0 c)
    ∙ (ap (λ s. s ++ recs) (snapshot-enter rec b.next_id b c k.news.0)
        ∙ append_assoc (snapshot b) (rec ∷ []) recs)

retained-keep :
    (now : ℕ) (b : Book) (order : List Text)
    → ((id : Text) → occurs id order ≡ true → is_some (get Text-discrete id b.records) ≡ true)
    → retained now b order ≡ keep (retain_invocation_record now) (map (record_at b) order)
unfolding retained
retained-keep now b [] h = refl
retained-keep now b (x ∷ xs) h =
    ground (arith, h x, retained-keep now b xs (λ id e. h id (ground arith)))

next_id-reload : (recs : List InvocationRecord) (b : Book) → (reload recs b).next_id ≡ b.next_id
unfolding reload
next_id-reload [] b = refl
next_id-reload (rec ∷ recs) b = next_id-reload recs _

checkpoint_first :
    (now next : ℕ) (lines : List (Option LedgerEvent))
    → replay (some (stamp now (checkpoint_event next now)) ∷ lines) empty_book
      ≡ replay lines (record { next_id = next; records = []; order = [] })
unfolding replay apply_replay_event empty_book
checkpoint_first now next lines =
    ap (λ n. replay lines (record { next_id = n; records = []; order = [] })) (ground arith)

map-revised :
    (b : Book) (id : Text) (u : Update) (now : ℕ) (rec : InvocationRecord) (xs : List Text)
    → IsConsistent b
    → get Text-discrete id b.records ≡ some rec
    → ((x : Text) → occurs x xs ≡ true → is_some (get Text-discrete x b.records) ≡ true)
    → map
        (record_at (record b {
          records =
              put Text-discrete id
                (with_status (target u) (message u) (finishes u) now rec)
                b.records;
        }))
        xs
      ≡ map (revised id u now) (map (record_at b) xs)
map-revised b id u now rec [] c e h = refl
map-revised b id u now rec (x ∷ xs) c e h = elim (Option-cases (get Text-discrete x b.records)) [
  | inl missing ↦ absurd (ground (arith, h x))
  | inr (old, known) ↦
      ap₂ ◌∷◌
        (ground (
          arith,
          c.own_id x old known,
          with_status-becomes u now rec,
          get-put Text-discrete id x (with_status (target u) (message u) (finishes u) now rec)
              b.records,
        ))
        (map-revised b id u now rec xs c e (λ y o. h y (ground arith)))
]

map_unrevised :
    (b : Book) (id : Text) (u : Update) (now : ℕ) (xs : List Text)
    → IsConsistent b
    → get Text-discrete id b.records ≡ none
    → ((x : Text) → occurs x xs ≡ true → is_some (get Text-discrete x b.records) ≡ true)
    → map (record_at b) xs ≡ map (revised id u now) (map (record_at b) xs)
map_unrevised b id u now [] c e h = refl
map_unrevised b id u now (x ∷ xs) c e h = elim (Option-cases (get Text-discrete x b.records)) [
  | inl missing ↦ absurd (ground (arith, h x))
  | inr (old, known) ↦
      ap₂ ◌∷◌ (ground (arith, c.own_id x old known))
        (map_unrevised b id u now xs c e (λ y o. h y (ground arith)))
]

-- On consistent books, before the counter runs out, `Begin` appends one record in flight, whose id
-- carries the next number, and every other method gives the record with its id the status that it
-- stands for, the error that it was called with or none, and the current time as its end, but that
-- `Queued` and `Recovering` leave the end as it was; all other records, their order and, for an
-- unknown id, everything stay as they were.
pub call-called :
    (v : Env) (c : Call) (l : InvocationLedger)
    → IsConsistent l.book
    → l.book.next_id + 1 < u64
    → snapshot (call v c l).book ≡ called v c l.book.next_id (snapshot l.book)
unfolding call called snapshot
call-called v (begins meta) l c h =
    (ap snapshot (begin-book v meta l)
      ∙ snapshot-enter (new_record v.now (successor l.book.next_id) meta) (successor l.book.next_id)
          l.book c (fresh_id l.book c h))
    ∙ ap (λ r. snapshot l.book ++ r ∷ []) (new_record-opened v.now l.book.next_id meta h)
call-called v (updates id u) l c h = elim (Option-cases (get Text-discrete id l.book.records)) [
  | inl missing ↦
      ap (λ m. snapshot m.book) (update-missing v id u l missing)
      ∙ map_unrevised l.book id u v.now l.book.order c missing (λ x o. sym (c.listed x) ∙ o)
  | inr (rec, known) ↦
      ap snapshot (update-book v id u l rec known)
      ∙ map-revised l.book id u v.now rec l.book.order c known (λ x o. sym (c.listed x) ∙ o)
]

compact_facts :
    (v : Env) (l : InvocationLedger) {l' : InvocationLedger}
    → l.persistent ≡ true
    → compact_for_retention v l ≡ some l'
    → let recs = retained v.now l.book l.book.order in
      (l'.book ≡ reload recs (blank_book l.book.next_id))
      × (lines_of l'.file ≡ compacted_lines v.now l.book.next_id recs)
unfolding compact_for_retention
compact_facts v l p e = ground arith

-- A successful compaction of a consistent ledger with a file whose records are settled keeps, of the records in order, exactly
-- those that the retention rule keeps; the file that it writes replays to the same records in the
-- same order, but that a queued or recovering record has no end; and the counter survives.
pub compaction_roundtrip :
    (v : Env) (l : InvocationLedger) {l' : InvocationLedger}
    → IsConsistent l.book
    → AllSettled l.book
    → l.persistent ≡ true
    → compact_for_retention v l ≡ some l'
    → let replayed = replay (lines_of l'.file) empty_book in
      (snapshot l'.book ≡ keep (retain_invocation_record v.now) (snapshot l.book))
      × (snapshot replayed ≡ map forget_end (snapshot l'.book))
      × (replayed.next_id ≡ l.book.next_id)
unfolding compacted_lines snapshot retained
compaction_roundtrip v l {l'} c s p e =
    let recs = retained v.now l.book l.book.order in
    let (books, lines) = compact_facts v l p e in
    let k = retained-CanLoad v.now l.book c in
    let kept : snapshot l'.book ≡ recs =
      ap snapshot books
      ∙ snapshot-reload recs (blank_book l.book.next_id) k (blank-IsConsistent l.book.next_id) in
    let again : replay (lines_of l'.file) empty_book
        ≡ reload (map forget_end recs) (blank_book l.book.next_id) =
      ap (λ ls. replay ls empty_book) lines
      ∙ (checkpoint_first v.now l.book.next_id (record_lines v.now recs)
          ∙ replay-record_lines v.now recs (blank_book l.book.next_id)
              (retained-All IsSettled v.now l.book l.book.order s) k) in
    (
      kept ∙ retained-keep v.now l.book l.book.order (λ x o. sym (c.listed x) ∙ o),
      ap snapshot again
          ∙ (snapshot-reload (map forget_end recs) (blank_book l.book.next_id)
                (CanLoad-forget recs (blank_book l.book.next_id) k)
                (blank-IsConsistent l.book.next_id)
              ∙ ap (map forget_end) (sym kept)),
      ap (λ b. b.next_id) again ∙ next_id-reload (map forget_end recs) (blank_book l.book.next_id),
    )
