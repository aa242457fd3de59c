-- ===== src/Scheduler/Supervisor/Stopped.antt =====
-- What keeps an agent that was stopped from coming back.
use mathlib.Core.Path.{subst}
use ahsir.Prelude.Table.{get-put_self, Table, get, put, delete, get-put, get-delete}
use ahsir.Prelude.{
  ℕ, ◌≡◌, refl, sym, ap, ◌∙◌, ◌≢◌, true, none, some, List, [], ◌∷◌, ◌++◌, arith, keep, if_of_eq,
}
use ahsir.Scheduler.Supervisor.Apart.{IsSound, nil-Named, delete-Named, put-Named, Named}
use ahsir.Scheduler.Supervisor.State.{set_lifecycle, AgentConfig, Scheduler, Process}
use ahsir.Scheduler.Supervisor.Keeps.{Keeps, Marks}
use ahsir.Scheduler.Supervisor.Ports.{Env, Host}
use ahsir.Scheduler.Supervisor.Launch.{put_down, show_stopped, forget, publish}
use ahsir.Scheduler.Supervisor.Free.{text_eq_of_ne}
use ahsir.Prelude.Text.{Text, Text-discrete, text_eq}

-- The processes launched under a name.
abbrev pub launches : Text → Scheduler → List Process
launches n s = keep (λ (p : Process). text_eq p.cfg.name n) s.launched

-- Nothing wants the agent, and a process that still runs was told to stop.
pub record IsDown (n : Text) (l : List Process) (s : Scheduler) : Type 0 where
  pub undesired : get Text-discrete n s.desired ≡ none
  pub asleep : get Text-discrete n s.idle_stopped ≡ none
  pub ends : (p : Process) → get Text-discrete n s.agents ≡ some p → p.stopping ≡ true
  pub history : launches n s ≡ l
  pub named : Named s.desired
  pub idle_named : Named s.idle_stopped

pub get-put_other :
    {A : Type 0} (m n : Text) (v : A) (t : Table Text A)
    → m ≢ n
    → get Text-discrete n (put Text-discrete m v t) ≡ get Text-discrete n t
get-put_other m n v t d = ground (arith, get-put Text-discrete m n v t)

pub get-delete-none :
    {A : Type 0} (m n : Text) (t : Table Text A)
    → get Text-discrete n t ≡ none
    → get Text-discrete n (delete Text-discrete m t) ≡ none
get-delete-none m n t e = ground (arith, get-delete Text-discrete m n t)

pub get-delete-some :
    {A : Type 0} (m n : Text) (v : A) (t : Table Text A)
    → get Text-discrete n (delete Text-discrete m t) ≡ some v
    → get Text-discrete n t ≡ some v
get-delete-some m n v t e = ground (arith, get-delete Text-discrete m n t)

-- What is found in a table is not under a key that is not there.
pub found_other :
    {A : Type 0} (m n : Text) (v : A) (t : Table Text A)
    → get Text-discrete m t ≡ some v
    → get Text-discrete n t ≡ none
    → m ≢ n
found_other m n v t e f same = cc (sym e ∙ ap (λ (x : Text). get Text-discrete x t) same ∙ f)

pub launches_other :
    (n : Text) (p : Process) (l : List Process)
    → p.cfg.name ≢ n
    → keep (λ (q : Process). text_eq q.cfg.name n) (p ∷ l)
      ≡ keep (λ (q : Process). text_eq q.cfg.name n) l
launches_other n p l d = if_of_eq _ _ (text_eq_of_ne p.cfg.name n d)

module _ (n : Text) (l : List Process) where
  pub marks-IsDown :
      (m : Text) (p q : Process) (s : Scheduler)
      → get Text-discrete m s.agents ≡ some p
      → Marks p q
      → IsDown n l s
      → IsDown n l (record s { agents = put Text-discrete m q s.agents })
  marks-IsDown m p q s e k i = record {
    undesired = i.undesired;
    asleep = i.asleep;
    ends = λ r f. elim (Text-discrete m n) [
      | no d ↦ i.ends r (sym (get-put_other m n q s.agents d) ∙ f)
      | yes same ↦
          let mine : r.stopping ≡ q.stopping =
            ground (arith, get-put Text-discrete m n q s.agents) in
          mine
          ∙ k.stopping (i.ends p (ap (λ (x : Text). get Text-discrete x s.agents) (sym same) ∙ e))
    ];
    history = i.history;
    named = i.named;
    idle_named = i.idle_named;
  }

  pub publishes-IsDown :
      (cfg : AgentConfig) (attempts : ℕ) (token : Text) (s : Scheduler)
      → cfg.name ≢ n
      → IsDown n l s
      → IsDown n l (publish cfg attempts token s)
  unfolding publish
  publishes-IsDown cfg attempts token s d i = record {
    undesired = get-put_other cfg.name n _ s.desired d ∙ i.undesired;
    asleep = i.asleep;
    ends = λ r f. i.ends r (sym (get-put_other cfg.name n _ s.agents d) ∙ f);
    history = launches_other n _ s.launched d ∙ i.history;
    named = put-Named cfg.name _ s.desired refl i.named;
    idle_named = i.idle_named;
  }

  pub IsDown-Keeps : Keeps (IsDown n l) (λ m. m ≢ n)
  unfolding get
  IsDown-Keeps = record {
    same = λ {s} {t} e i. record {
      undesired = ap (get Text-discrete n) e.desired ∙ i.undesired;
      asleep = ap (get Text-discrete n) e.idle_stopped ∙ i.asleep;
      ends = λ p f. i.ends p (ap (get Text-discrete n) (sym e.agents) ∙ f);
      history = ap (keep (λ (p : Process). text_eq p.cfg.name n)) e.launched ∙ i.history;
      named = subst Named (sym e.desired) i.named;
      idle_named = subst Named (sym e.idle_stopped) i.idle_named;
    };
    desired = λ s m c e i. (found_other m n c s.desired e i.undesired, i.named m c e);
    idle = λ s m c e i. (found_other m n c s.idle_stopped e i.asleep, i.idle_named m c e);
    publishes = λ cfg attempts token s a free i. publishes-IsDown cfg attempts token s a i;
    wants = λ cfg s a i. record {
      undesired = get-put_other cfg.name n cfg s.desired a ∙ i.undesired;
      asleep = i.asleep;
      ends = i.ends;
      history = i.history;
      named = put-Named cfg.name cfg s.desired refl i.named;
      idle_named = i.idle_named;
    };
    marks = marks-IsDown;
    drops = λ m s i. record {
      undesired = i.undesired;
      asleep = i.asleep;
      ends = λ p f. i.ends p (get-delete-some m n p s.agents f);
      history = i.history;
      named = i.named;
      idle_named = i.idle_named;
    };
    sleeps = λ m c s e i. record {
      undesired = i.undesired;
      asleep =
          get-put_other m n c s.idle_stopped (found_other m n c s.desired e i.undesired) ∙ i.asleep;
      ends = i.ends;
      history = i.history;
      named = i.named;
      idle_named = put-Named m c s.idle_stopped (i.named m c e) i.idle_named;
    };
    wakes = λ m s i. record {
      undesired = i.undesired;
      asleep = get-delete-none m n s.idle_stopped i.asleep;
      ends = i.ends;
      history = i.history;
      named = i.named;
      idle_named = delete-Named m s.idle_stopped i.idle_named;
    };
    forgets = λ m s i. record {
      undesired = get-delete-none m n s.desired i.undesired;
      asleep = i.asleep;
      ends = i.ends;
      history = i.history;
      named = delete-Named m s.desired i.named;
      idle_named = i.idle_named;
    };
    drops_all = λ s i. record {
      undesired = i.undesired;
      asleep = i.asleep;
      ends = λ p f. cc;
      history = i.history;
      named = i.named;
      idle_named = i.idle_named;
    };
    clears = λ s i. record {
      undesired = refl;
      asleep = refl;
      ends = i.ends;
      history = i.history;
      named = nil-Named;
      idle_named = nil-Named;
    };
  }

module _ (h : Host) (e : Env) (n : Text) (s : Scheduler) (i : IsSound s)
    (a : get Text-discrete n (delete Text-discrete n s.desired) ≡ none)
    (b : get Text-discrete n (delete Text-discrete n s.idle_stopped) ≡ none) where
  pub forgot-IsDown :
      ((p : Process) → get Text-discrete n s.agents ≡ some p → p.stopping ≡ true)
      → IsDown n (launches n s) (forget n s)
  unfolding forget
  forgot-IsDown ends = record {
    undesired = a;
    asleep = b;
    ends = ends;
    history = refl;
    named = delete-Named n s.desired i.named;
    idle_named = delete-Named n s.idle_stopped i.idle_named;
  }

  pub shown-IsDown :
      ((p : Process) → get Text-discrete n s.agents ≡ some p → p.stopping ≡ true)
      → IsDown n (launches n s) (show_stopped h e n (forget n s))
  unfolding show_stopped forget set_lifecycle
  shown-IsDown ends = record {
    undesired = a;
    asleep = b;
    ends = ends;
    history = refl;
    named = delete-Named n s.desired i.named;
    idle_named = delete-Named n s.idle_stopped i.idle_named;
  }

  pub put_down-IsDown :
      (p : Process)
      → let t = put_down n p (show_stopped h e n (forget n s)) in
        IsDown n (launches n s) (record t { unregistered = t.unregistered ++ (n ∷ []) })
  unfolding put_down show_stopped forget set_lifecycle
  put_down-IsDown p = record {
    undesired = a;
    asleep = b;
    ends =
        λ q f. ground (arith, get-put_self Text-discrete n (record p { stopping = true }) s.agents);
    history = refl;
    named = delete-Named n s.desired i.named;
    idle_named = delete-Named n s.idle_stopped i.idle_named;
  }
