-- ===== src/Wrapper/Tasks/Order.antt =====
-- The task store lists what was saved, each task in the place where its id was first saved.
use mathlib.Core.Path.{subst}
use ahsir.Prelude.{
  keep, ap, ◌∙◌, inl, inr, Option-cases, sym, ◌++◌, ◌≢◌, if◌then◌else◌, All, [], ◌∷◌, ◌≡◌, none,
  some, arith, refl, true, false, List,
}
use ahsir.Prelude.Text.{is_empty, Text-discrete, text_eq, Text}
use ahsir.Wrapper.Tasks.{
  tasks_of, list_tasks, list_by_context_id, new_task_store, save_task, tasks_in, TaskStore,
}
use ahsir.Prelude.Table.{get-put_self, get-put, put, get, Table}

module _ {Task : Type 0} (task_id context_id state : Task → Text) where
  -- The new version in the place of the old one, or at the end.
  unfoldable pub upsert : Task → List Task → List Task
  upsert t [] = t ∷ []
  upsert t (x ∷ xs) = if text_eq (task_id x) (task_id t) then t ∷ xs else x ∷ upsert t xs

  -- The list after the saves, the first save first.
  unfoldable pub upsert_all : List Task → List Task → List Task
  upsert_all [] xs = xs
  upsert_all (t ∷ ts) xs = upsert_all ts (upsert t xs)

  unfoldable pub save_all : List Task → TaskStore Task → TaskStore Task
  save_all [] s = s
  save_all (t ∷ ts) s = save_all ts (save_task task_id context_id state t s)

  abbrev Known : Table Text Task → Text → Type 0
  Known m k = (t : Task) × ((get Text-discrete k m ≡ some t) × (task_id t ≡ k))

  abbrev Distinct : List Text → Type 0
  Distinct [] = Unit
  Distinct (k ∷ ks) = All (λ j. j ≢ k) ks × Distinct ks

  -- Every id in the order has its task, no id twice, and no other id has a task.
  record Listed (s : TaskStore Task) : Type 0 where
    known : All (Known s.tasks) s.order
    distinct : Distinct s.order
    all_listed : (k : Text) → All (λ j. j ≢ k) s.order → get Text-discrete k s.tasks ≡ none

  text_eq_self : (k : Text) → text_eq k k ≡ true
  text_eq_self k = ground arith

  put_other :
      (t : Task) (m : Table Text Task) (ks : List Text)
      → All (λ j. j ≢ task_id t) ks
      → tasks_in task_id context_id state (put Text-discrete (task_id t) t m) ks
        ≡ tasks_in task_id context_id state m ks
  unfolding tasks_in
  put_other t m [] h = refl
  put_other t m (k ∷ ks) (n, h) =
      ground (arith, get-put Text-discrete (task_id t) k t m, put_other t m ks h)

  Known-put :
      (t : Task) (m : Table Text Task) (ks : List Text)
      → All (Known m) ks
      → All (Known (put Text-discrete (task_id t) t m)) ks
  Known-put t m [] h = tt
  Known-put t m (k ∷ ks) ((u, (e, i)), h) = (
    elim (Text-discrete (task_id t) k) [
      | yes p ↦ (t, (ground (arith, get-put Text-discrete (task_id t) k t m), p))
      | no n ↦ (u, (ground (arith, get-put Text-discrete (task_id t) k t m), i))
    ],
    Known-put t m ks h,
  )

  append-All :
      (P : Text → Type 0) (k : Text) (ks : List Text) → All P ks → P k → All P (ks ++ (k ∷ []))
  append-All P k [] h p = (p, tt)
  append-All P k (j ∷ ks) (q, h) p = (q, append-All P k ks h p)

  append-Distinct :
      (k : Text) (ks : List Text) → Distinct ks → All (λ j. j ≢ k) ks → Distinct (ks ++ (k ∷ []))
  append-Distinct k [] h n = (tt, tt)
  append-Distinct k (j ∷ ks) (d, h) (n, o) =
      (append-All _ k ks d (λ e. n (sym e)), append-Distinct k ks h o)

  put_new :
      (t : Task) (m : Table Text Task) (ks : List Text)
      → All (Known m) ks
      → All (λ j. j ≢ task_id t) ks
      → tasks_in task_id context_id state
          (put Text-discrete (task_id t) t m)
          (ks ++ (task_id t ∷ []))
        ≡ upsert t (tasks_in task_id context_id state m ks)
  unfolding tasks_in upsert
  put_new t m [] h n = ground (arith, get-put_self Text-discrete (task_id t) t m)
  put_new t m (k ∷ ks) ((u, (e, i)), h) (n, o) =
      ground (arith, get-put Text-discrete (task_id t) k t m, put_new t m ks h o)

  put_old :
      (t : Task) (m : Table Text Task) (ks : List Text) (u : Task)
      → get Text-discrete (task_id t) m ≡ some u
      → All (Known m) ks
      → Distinct ks
      → (All (λ j. j ≢ task_id t) ks → get Text-discrete (task_id t) m ≡ none)
      → tasks_in task_id context_id state (put Text-discrete (task_id t) t m) ks
        ≡ upsert t (tasks_in task_id context_id state m ks)
  unfolding tasks_in upsert
  put_old t m [] u g h d l = absurd (ground (arith, l tt))
  put_old t m (k ∷ ks) u g ((v, (e, i)), h) (n, d) l = elim (Text-discrete k (task_id t)) [
    | yes p ↦ ground (
      arith,
      get-put Text-discrete (task_id t) k t m,
      put_other t m ks (subst (λ x. All (λ j. j ≢ x) ks) p n),
    )
    | no q ↦
        ground
          (arith, get-put Text-discrete (task_id t) k t m, put_old t m ks u g h d (λ o. l (q, o)))
  ]

  not_listed :
      (k : Text) (m : Table Text Task) (ks : List Text)
      → get Text-discrete k m ≡ none
      → All (Known m) ks
      → All (λ j. j ≢ k) ks
  not_listed k m [] e h = tt
  not_listed k m (j ∷ ks) e ((u, (g, i)), h) = (λ p. cc, not_listed k m ks e h)

  unlisted-All :
      (k j : Text) (ks : List Text)
      → All (λ i. i ≢ k) (ks ++ (j ∷ []))
      → All (λ i. i ≢ k) ks × (j ≢ k)
  unlisted-All k j [] (n, h) = (tt, n)
  unlisted-All k j (i ∷ ks) (n, h) = let r = unlisted-All k j ks h in ((n, r.0), r.1)

  new-Listed : Listed new_task_store
  unfolding new_task_store get
  new-Listed = record { known = tt; distinct = tt; all_listed = λ k h. refl }

  -- A save keeps the store in order, and lists the task in its place.
  save_task-Listed :
      (t : Task) (s : TaskStore Task) → Listed s → Listed (save_task task_id context_id state t s)
  unfolding save_task
  save_task-Listed t s l = elim (Option-cases (get Text-discrete (task_id t) s.tasks)) [
    | inr (u, old) ↦ rw old (record {
      known = Known-put t s.tasks s.order l.known;
      distinct = l.distinct;
      all_listed = λ k h. elim (Text-discrete (task_id t) k) [
        | yes p ↦ absurd (ground (arith, l.all_listed k h))
        | no n ↦ ground (arith, get-put Text-discrete (task_id t) k t s.tasks, l.all_listed k h)
      ];
    })
    | inl fresh ↦
        let n = not_listed (task_id t) s.tasks s.order fresh l.known in
        rw fresh (record {
          known =
              append-All _ (task_id t) s.order (Known-put t s.tasks s.order l.known)
                (t, (get-put_self Text-discrete (task_id t) t s.tasks, refl));
          distinct = append-Distinct (task_id t) s.order l.distinct n;
          all_listed = λ k h.
              let (a, o) = unlisted-All k (task_id t) s.order h in
              ground (arith, get-put Text-discrete (task_id t) k t s.tasks, l.all_listed k a);
        })
  ]

  list-save :
      (t : Task) (s : TaskStore Task)
      → Listed s
      → list_tasks task_id context_id state (save_task task_id context_id state t s)
        ≡ upsert t (list_tasks task_id context_id state s)
  unfolding save_task list_tasks
  list-save t s l = elim (Option-cases (get Text-discrete (task_id t) s.tasks)) [
    | inr (u, old) ↦
        rw old (put_old t s.tasks s.order u old l.known l.distinct (l.all_listed (task_id t)))
    | inl fresh ↦
        rw fresh
          (put_new t s.tasks s.order l.known (not_listed (task_id t) s.tasks s.order fresh l.known))
  ]

  list-save_all_from :
      (ts : List Task) (s : TaskStore Task)
      → Listed s
      → list_tasks task_id context_id state (save_all ts s)
        ≡ upsert_all ts (list_tasks task_id context_id state s)
  unfolding save_all upsert_all
  list-save_all_from [] s l = refl
  list-save_all_from (t ∷ ts) s l =
      list-save_all_from ts (save_task task_id context_id state t s) (save_task-Listed t s l)
      ∙ ap (upsert_all ts) (list-save t s l)

  -- After any sequence of saves the store lists every task saved once, in its newest version, in
  -- the place where its id was saved first.
  pub list-save_all :
      (ts : List Task)
      → list_tasks task_id context_id state (save_all ts new_task_store) ≡ upsert_all ts []
  unfolding list_tasks tasks_in new_task_store
  list-save_all ts = list-save_all_from ts new_task_store new-Listed

  -- The tasks of a context that is not empty are those of the whole list with that context, in the
  -- same order.
  pub list_by_context_id-list :
      (cid : Text) (s : TaskStore Task)
      → is_empty cid ≡ false
      → list_by_context_id task_id context_id state cid s
        ≡ keep (λ t. text_eq (context_id t) cid) (list_tasks task_id context_id state s)
  unfolding list_by_context_id list_tasks tasks_of tasks_in
  list_by_context_id-list cid s e = rw e (go s.order)
    where
      go :
          (ks : List Text)
          → tasks_of task_id context_id state cid s.tasks ks
            ≡ keep (λ t. text_eq (context_id t) cid) (tasks_in task_id context_id state s.tasks ks)
      go [] = refl
      go (k ∷ ks) = ground (arith, go ks)
