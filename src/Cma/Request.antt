-- ===== src/Cma/Request.antt =====
-- A `user.define_outcome` event: its validation, and the outcome that it begins
-- (internal/cmagateway/outcome.go).
use ahsir.Cma.Outcome.{
  define_outcome, OutcomeResult, emit, Session, OutcomeEvaluation, begin_outcome,
}
use ahsir.Prelude.{not, Bool, ℕ, Option, none, some, [], ltb, ◌==◌, if◌then◌else◌, length}
use ahsir.Prelude.Text.{Text, text, is_empty, text_eq}

abbrev pub max_description_bytes : ℕ
max_description_bytes = 16384

abbrev pub max_rubric_bytes : ℕ
max_rubric_bytes = 65536

abbrev pub max_deliverable_bytes : ℕ
max_deliverable_bytes = 262144

abbrev pub default_max_iterations_cap : ℕ
default_max_iterations_cap = 20

abbrev pub default_iterations : ℕ
default_iterations = 3

pub record Rubric : Type 0 where
  pub kind : Text
  pub content : Text

-- A number of the wire may be negative.
pub data WireInt : Type 0 where
  natural : ℕ → WireInt
  negative : WireInt

pub record DefineOutcome : Type 0 where
  pub description : Text
  pub rubric : Option Rubric
  pub max_iterations : WireInt

-- 0 is a value that is not set.
pub record OutcomeConfig : Type 0 where
  pub max_iterations_cap : ℕ
  pub default_iterations : ℕ

pub data Invalid : Type 0 where
  no_description : Invalid
  long_description : Invalid
  no_rubric : Invalid
  blank_rubric : Invalid
  long_rubric : Invalid
  file_rubric : Invalid
  unknown_rubric : Invalid
  negative_iterations : Invalid
  above_cap : Invalid

pub record Accepted : Type 0 where
  pub description : Text
  pub rubric : Text
  pub max_iterations : ℕ

pub data Verdict : Type 0 where
  accepted : Accepted → Verdict
  rejected : Invalid → Verdict

unfoldable pub cap_of : OutcomeConfig → ℕ
cap_of c = if c.max_iterations_cap == 0 then default_max_iterations_cap else c.max_iterations_cap

unfoldable pub iterations_of : OutcomeConfig → ℕ → ℕ
iterations_of c n =
    if n == 0
    then if c.default_iterations == 0 then default_iterations else c.default_iterations
    else n

unfoldable pub validate_iterations : OutcomeConfig → Text → Text → WireInt → Verdict
unfolding cap_of iterations_of
validate_iterations c desc rubric negative = rejected negative_iterations
validate_iterations c desc rubric (natural n) =
    if ltb (cap_of c) n
    then rejected above_cap
    else accepted
        (record { description = desc; rubric = rubric; max_iterations = iterations_of c n })

pub data Delivered : Type 0 where
  bad_request : Invalid → Delivered
  conflict : Delivered
  not_persisted : Delivered
  begun : Delivered

unfoldable pub new_outcome : ℕ → ℕ → Accepted → OutcomeEvaluation
new_outcome id now a = record {
  outcome_id = id;
  description = a.description;
  rubric = a.rubric;
  max_iterations = a.max_iterations;
  iteration = 0;
  result = OutcomeResult.pending;
  explanation = [];
  criteria = [];
  deliverable = [];
  created_at = now;
  updated_at = now;
  completed_at = none;
}

unfoldable pub delivered : Bool → ℕ → ℕ → Accepted → Session → Delivered × Session
unfolding new_outcome begin_outcome emit
delivered disk id now a s =
    let (began, written, t) = begin_outcome disk (new_outcome id now a) s in
    if not written
    then (not_persisted, t)
    else if began
    then (begun, emit (define_outcome id a.max_iterations) t)
    else (conflict, t)

module _ (trim : Text → Text) (c : OutcomeConfig) where
  unfoldable pub validate_rubric : Text → Rubric → WireInt → Verdict
  unfolding validate_iterations
  validate_rubric desc r n =
      if text_eq r.kind (text "text")
      then if is_empty (trim r.content)
        then rejected blank_rubric
        else if ltb max_rubric_bytes (length r.content)
        then rejected long_rubric
        else validate_iterations c desc (trim r.content) n
      else if text_eq r.kind (text "file")
      then rejected file_rubric
      else rejected unknown_rubric

  unfoldable pub validate_define_outcome : DefineOutcome → Verdict
  unfolding validate_rubric
  validate_define_outcome ev =
      if is_empty (trim ev.description)
      then rejected no_description
      else if ltb max_description_bytes (length ev.description)
      then rejected long_description
      else elim ev.rubric [
        | none ↦ rejected no_rubric
        | some r ↦ validate_rubric (trim ev.description) r ev.max_iterations
      ]

  -- `deliverDefineOutcome` up to the turn that it enqueues; `id` is the new outcome's.
  unfoldable pub deliver_define_outcome :
      Bool → ℕ → ℕ → DefineOutcome → Session → Delivered × Session
  unfolding validate_define_outcome delivered
  deliver_define_outcome disk id now ev s = elim (validate_define_outcome ev) [
    | rejected e ↦ (bad_request e, s)
    | accepted a ↦ delivered disk id now a s
  ]
