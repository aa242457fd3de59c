-- ===== src/Scheduler/Ledger/Consistency.antt =====
-- What holds of the books at all times: ids are unique, listed once, and below `nextID`.
use ahsir.Prelude.Text.{text_eq, Text, Text-discrete}
use ahsir.Prelude.{
  ℕ, ◌≤◌, ◌<◌, ◌≡◌, refl, ◌∙◌, Bool, true, false, if◌then◌else◌, Option, none, some, List, [], ◌∷◌,
  ◌++◌, arith, is_some,
}
use ahsir.Prelude.Table.{get, put, get-put}
use ahsir.Prelude.Decimal.{u64, parse-decimal}
use ahsir.Scheduler.Ledger.Record.{InvocationRecord, id_number, inv_id}
use ahsir.Scheduler.Ledger.Replay.{Book, empty_book}
use ahsir.Scheduler.Ledger.{enter}

abbrev pub occurs : Text → List Text → Bool
occurs id [] = false
occurs id (x ∷ xs) = if text_eq x id then true else occurs id xs

abbrev pub Distinct : List Text → Type 0
Distinct [] = Unit
Distinct (x ∷ xs) = (occurs x xs ≡ false) × Distinct xs

abbrev pub AtMost : Option ℕ → ℕ → Type 0
AtMost none n = Unit
AtMost (some m) n = m ≤ n

pub record IsConsistent (b : Book) : Type 0 where
  pub own_id :
      (id : Text) (rec : InvocationRecord) → get Text-discrete id b.records ≡ some rec → rec.id ≡ id
  pub numbered :
      (id : Text) (rec : InvocationRecord)
      → get Text-discrete id b.records ≡ some rec
      → AtMost (id_number id) b.next_id
  pub listed : (id : Text) → occurs id b.order ≡ is_some (get Text-discrete id b.records)
  pub distinct : Distinct b.order

occurs-snoc :
    (id x : Text) (xs : List Text)
    → occurs id (xs ++ x ∷ []) ≡ (if occurs id xs then true else text_eq x id)
occurs-snoc id x [] = ground arith
occurs-snoc id x (y ∷ xs) = ground (arith, occurs-snoc id x xs)

Distinct-snoc :
    (x : Text) (xs : List Text) → occurs x xs ≡ false → Distinct xs → Distinct (xs ++ x ∷ [])
Distinct-snoc x [] h d = (refl, tt)
Distinct-snoc x (y ∷ xs) h d =
    (ground (arith, occurs-snoc y x xs), Distinct-snoc x xs (ground arith) d.1)

pub empty-IsConsistent : IsConsistent empty_book
unfolding empty_book get
empty-IsConsistent = record {
  own_id = λ id rec e. cc;
  numbered = λ id rec e. cc;
  listed = λ id. refl;
  distinct = tt;
}

-- The number in a fresh id is the number that it was made of.
pub id_number-inv_id : (n : ℕ) → n < u64 → id_number (inv_id n) ≡ some n
unfolding id_number inv_id
id_number-inv_id n h = parse-decimal n h

AtMost-mono : (o : Option ℕ) {m n : ℕ} → m ≤ n → AtMost o m → AtMost o n
AtMost-mono none h a = tt
AtMost-mono (some k) h a = omega arith

pub raise-IsConsistent :
    (b : Book) (n : ℕ) → b.next_id ≤ n → IsConsistent b → IsConsistent (record b { next_id = n })
raise-IsConsistent b n h c = record {
  own_id = c.own_id;
  numbered = λ id rec e. AtMost-mono (id_number id) h (c.numbered id rec e);
  listed = c.listed;
  distinct = c.distinct;
}

pub put-IsConsistent :
    (b : Book) (id : Text) (old rec : InvocationRecord)
    → get Text-discrete id b.records ≡ some old
    → rec.id ≡ id
    → IsConsistent b
    → IsConsistent (record b { records = put Text-discrete id rec b.records })
put-IsConsistent b id old rec g e c = record {
  own_id = λ j r h. ground (arith, get-put Text-discrete id j rec b.records, c.own_id j r);
  numbered = λ j r h. elim (Text-discrete id j) [
    | yes p ↦ rw (← p) (c.numbered id old g)
    | no n ↦ c.numbered j r (ground (arith, get-put Text-discrete id j rec b.records))
  ];
  listed = λ j. ground (arith, get-put Text-discrete id j rec b.records, c.listed j);
  distinct = c.distinct;
}

pub enter-IsConsistent :
    (b : Book) (rec : InvocationRecord) (n : ℕ)
    → get Text-discrete rec.id b.records ≡ none
    → b.next_id ≤ n
    → AtMost (id_number rec.id) n
    → IsConsistent b
    → IsConsistent (enter rec n b)
enter-IsConsistent b rec n g h a c = record {
  own_id = λ j r e. ground (arith, get-put Text-discrete rec.id j rec b.records, c.own_id j r);
  numbered = λ j r e. elim (Text-discrete rec.id j) [
    | yes p ↦ rw (← p) a
    | no m ↦
        AtMost-mono (id_number j) h
          (c.numbered j r (ground (arith, get-put Text-discrete rec.id j rec b.records)))
  ];
  listed = λ j. ground (
    arith,
    get-put Text-discrete rec.id j rec b.records,
    c.listed j,
    occurs-snoc j rec.id b.order,
  );
  distinct = Distinct-snoc rec.id b.order (c.listed rec.id ∙ rw g refl) c.distinct;
}
