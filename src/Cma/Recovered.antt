-- ===== src/Cma/Recovered.antt =====
-- What a restart of the facade leaves.
use mathlib.Core.Path.{subst}
use ahsir.Cma.Recovery.{recovery_message, recover_session, recover_each, fail_outcome}
use ahsir.Cma.Outcome.{
  last_active, begin_outcome, evaluation_end, Event, emit, emit_outcome_end, finish_outcome,
  OutcomeResult, Session, outcome_terminal, update_last, update_outcome, OutcomeEvaluation,
}
use ahsir.Cma.Moves.{update_last-none, stays, KeepsId, latest}
use ahsir.Prelude.{
  ℕ_discrete, ℕ, suc, ◌≡◌, refl, sym, ap, ◌∙◌, ◌≢◌, ◌⊎◌, inl, inr, Bool, true, false, none, some,
  List, [], ◌∷◌, ◌++◌, arith, if◌then◌else◌, Bool-cases, Option-cases, if_of_eq,
}
use ahsir.Cma.Steps.{conclude-Moved}
use ahsir.Cma.Turn.{World}
use ahsir.Cma.Loop.{conclude}

-- The latest entry of an id is final.
abbrev pub Final : OutcomeEvaluation → Type 0
Final o = outcome_terminal o.result ≡ true

-- An entry that is not final is still to be visited.
abbrev Pending : List OutcomeEvaluation → List OutcomeEvaluation → Type 0
Pending rest os =
    (id : ℕ) (o : OutcomeEvaluation)
    → latest id os ≡ some o
    → (Final o)
      ⊎ ((p : OutcomeEvaluation) × (latest id rest ≡ some p) × (outcome_terminal p.result ≡ false))

update_last-other :
    (j id : ℕ) (f : OutcomeEvaluation → OutcomeEvaluation) (os r : List OutcomeEvaluation)
    → j ≢ id
    → KeepsId f
    → update_last j f os ≡ some r
    → latest id r ≡ latest id os
unfolding update_last
update_last-other j id f [] r d k e = cc
update_last-other j id f (o ∷ os) r d k e = elim (Option-cases (update_last j f os)) [
  | inr (q, m) ↦ ground (arith, update_last-other j id f os q d k m)
  | inl n ↦ ground (arith, k o)
]

-- The update of one id leaves the others' latest entries.
update-other :
    (clock : ℕ → ℕ) (j id : ℕ) (f : OutcomeEvaluation → OutcomeEvaluation) (s : Session)
    → j ≢ id
    → KeepsId f
    → latest id (update_outcome clock j f s).outcomes ≡ latest id s.outcomes
unfolding update_outcome
update-other clock j id f s d k =
    let g : OutcomeEvaluation → OutcomeEvaluation =
      λ (o : OutcomeEvaluation). record (f o) { updated_at = clock s.ticks } in
    elim (Option-cases (update_last j g s.outcomes)) [
      | inl n ↦ rw (n, update_outcome) refl
      | inr (r, m) ↦ rw (m, update_outcome) (update_last-other j id g s.outcomes r d k m)
    ]

module _ (w : World) (o : OutcomeEvaluation) (s : Session) where
  fail-other :
      (id : ℕ) → o.outcome_id ≢ id → latest id (fail_outcome w o s).outcomes ≡ latest id s.outcomes
  unfolding fail_outcome conclude finish_outcome emit_outcome_end emit
  fail-other id d =
      let e : Event =
        evaluation_end o.outcome_id o.iteration none OutcomeResult.failed recovery_message in
      let t : Session = record s { events = s.events ++ (e ∷ []); ticks = suc s.ticks } in
      update-other w.clock o.outcome_id id
        (λ (x : OutcomeEvaluation). record x {
          explanation = recovery_message;
          result = OutcomeResult.failed;
          completed_at = some (w.clock s.ticks);
        })
        t d (λ x. refl)

  fail-Final :
      (x y : OutcomeEvaluation)
      → latest o.outcome_id s.outcomes ≡ some x
      → latest o.outcome_id (fail_outcome w o s).outcomes ≡ some y
      → Final y
  unfolding fail_outcome outcome_terminal
  fail-Final x y e f =
      let id = o.outcome_id in
      let m =
        conclude-Moved w id o.iteration none OutcomeResult.failed recovery_message
          (λ (z : OutcomeEvaluation). record z { explanation = recovery_message }) Final (λ z. refl)
          (λ z now next. refl) (stays id s x e) in
      let same : some m.entry ≡ some y = sym m.found ∙ f in
      subst Final {x = m.entry} {y = y} (ground arith) m.holds

update-none :
    (clock : ℕ → ℕ) (j : ℕ) (f : OutcomeEvaluation → OutcomeEvaluation) (s : Session)
    → latest j s.outcomes ≡ none
    → (update_outcome clock j f s).outcomes ≡ s.outcomes
unfolding update_outcome
update-none clock j f s n =
    let g : OutcomeEvaluation → OutcomeEvaluation =
      λ (o : OutcomeEvaluation). record (f o) { updated_at = clock s.ticks } in
    rw (update_last-none j g s.outcomes n, update_outcome) refl

fail-none :
    (w : World) (o : OutcomeEvaluation) (s : Session)
    → latest o.outcome_id s.outcomes ≡ none
    → (fail_outcome w o s).outcomes ≡ s.outcomes
unfolding fail_outcome conclude finish_outcome emit_outcome_end emit
fail-none w o s n =
    let e : Event =
      evaluation_end o.outcome_id o.iteration none OutcomeResult.failed recovery_message in
    update-none w.clock o.outcome_id
      (λ (x : OutcomeEvaluation). record x {
        explanation = recovery_message;
        result = OutcomeResult.failed;
        completed_at = some (w.clock s.ticks);
      })
      (record s { events = s.events ++ (e ∷ []); ticks = suc s.ticks }) n

-- After the outcome that was visited is failed, no entry of its id is active.
fails-Final :
    (w : World) (o : OutcomeEvaluation) (s : Session) (y : OutcomeEvaluation)
    → latest o.outcome_id (fail_outcome w o s).outcomes ≡ some y
    → Final y
fails-Final w o s y f = elim (Option-cases (latest o.outcome_id s.outcomes)) [
  | inr (x, e) ↦ fail-Final w o s x y e f
  | inl n ↦ absurd (cc (sym f ∙ ap (latest o.outcome_id) (fail-none w o s n) ∙ n))
]

false-ne-true : ◌≢◌ {A = Bool} false true
false-ne-true e = cc

latest_tail :
    (id : ℕ) (o q : OutcomeEvaluation) (os : List OutcomeEvaluation)
    → latest id (o ∷ os) ≡ some q
    → (o.outcome_id ≡ id → o ≢ q)
    → latest id os ≡ some q
latest_tail id o q os e d = elim (Option-cases (latest id os)) [
  | inr (z, m) ↦ ground arith
  | inl n ↦ elim (ℕ_discrete o.outcome_id id) [
    | yes same ↦ absurd (d same (ground arith))
    | no other ↦ ground arith
  ]
]

still_pending :
    (id : ℕ) (o x : OutcomeEvaluation) (os : List OutcomeEvaluation)
    → ((q : OutcomeEvaluation) → outcome_terminal q.result ≡ false → o.outcome_id ≡ id → o ≢ q)
    → (Final x)
      ⊎ ((q : OutcomeEvaluation) × (latest id (o ∷ os) ≡ some q)
          × (outcome_terminal q.result ≡ false))
    → (Final x)
      ⊎ ((q : OutcomeEvaluation) × (latest id os ≡ some q) × (outcome_terminal q.result ≡ false))
still_pending id o x os d (inl f) = inl f
still_pending id o x os d (inr (q, l, n)) = inr (q, latest_tail id o q os l (d q n), n)

visit-Pending :
    (w : World) (o : OutcomeEvaluation) (os : List OutcomeEvaluation) (s : Session)
    → Pending (o ∷ os) s.outcomes
    → Pending os (if outcome_terminal o.result then s else fail_outcome w o s).outcomes
visit-Pending w o os s p = elim (Bool-cases (outcome_terminal o.result)) [
  | inl y ↦
      subst (λ (t : Session). Pending os t.outcomes) (sym (if_of_eq _ _ y))
        (λ id x e.
          still_pending id o x os
            (λ q n same eq.
              false-ne-true
                (sym n ∙ (ap (λ (z : OutcomeEvaluation). outcome_terminal z.result) (sym eq) ∙ y)))
            (p id x e))
  | inr n ↦
      subst (λ (t : Session). Pending os t.outcomes) (sym (if_of_eq _ _ n))
        (λ id x e. elim (ℕ_discrete o.outcome_id id) [
          | yes same ↦ inl (
              fails-Final w o s x (ap (λ (j : ℕ). latest j (fail_outcome w o s).outcomes) same ∙ e))
          | no d ↦
              still_pending id o x os (λ q m same eq. d same)
                (p id x (sym (fail-other w o s id d) ∙ e))
        ])
]

recover_each-Pending :
    (w : World) (os : List OutcomeEvaluation) (s : Session)
    → Pending os s.outcomes
    → Pending [] (recover_each w os s).outcomes
unfolding recover_each
recover_each-Pending w [] s p = p
recover_each-Pending w (o ∷ os) s p = recover_each-Pending w os _ (visit-Pending w o os s p)

recover-Final :
    (w : World) (s : Session) (id : ℕ) (o : OutcomeEvaluation)
    → latest id (recover_session w s).outcomes ≡ some o
    → Final o
unfolding recover_session
recover-Final w s id o e =
    let start : Pending s.outcomes s.outcomes = λ j x f.
      elim (Bool-cases (outcome_terminal x.result)) [ inl y ↦ inl y | inr n ↦ inr (x, f, n) ] in
    elim (recover_each-Pending w s.outcomes s start id o e) [ inl f ↦ f | inr (q, l, n) ↦ cc ]

-- The last entry of a list is the latest of its id.
last-Final :
    (os : List OutcomeEvaluation)
    → ((id : ℕ) (o : OutcomeEvaluation) → latest id os ≡ some o → Final o)
    → last_active os ≡ false
unfolding last_active
last-Final [] h = refl
last-Final (o ∷ []) h = ground (arith, h o.outcome_id o)
last-Final (o ∷ p ∷ os) h = last-Final (p ∷ os) (λ id x e. h id x (ground arith))

-- After a restart no session's outcome is active: the latest entry of every id has a terminal
-- result, and so a new outcome can begin, whether or not it can be written to the disk.
pub recover-settles :
    (w : World) (s : Session) (disk : Bool) (oc : OutcomeEvaluation)
    → ((id : ℕ) (o : OutcomeEvaluation)
        → latest id (recover_session w s).outcomes ≡ some o
        → outcome_terminal o.result ≡ true)
      × ((begin_outcome disk oc (recover_session w s)).0 ≡ true)
unfolding begin_outcome
recover-settles w s disk oc =
    let r = recover_session w s in
    let idle_now : last_active r.outcomes ≡ false = last-Final r.outcomes (recover-Final w s) in
    (recover-Final w s, rw idle_now refl)
