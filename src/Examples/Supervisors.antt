-- ===== src/Examples/Supervisors.antt =====
-- The supervisor's and the registry's theorems at small inputs.
use ahsir.Prelude.{◌++◌, ℕ_discrete, ◌≡◌, refl, true, false, none, some, List, [], ◌∷◌, arith}
use ahsir.Scheduler.Supervisor.Stopped.{launches}
use ahsir.Scheduler.Supervisor.Down.{stays_down}
use ahsir.Scheduler.Supervisor.Ports.{Host, Env, closed}
use ahsir.Scheduler.Supervisor.Backoff.{restart_backoff-capped}
use ahsir.Scheduler.Supervisor.Tokens.{token-owner}
use ahsir.Registry.{new_registry, get_status, Registry, AgentCard, get_card}
use ahsir.Scheduler.Supervisor.Launch.{stop_agent}
use ahsir.Scheduler.Supervisor.Monitor.{restart_backoff, idle_exit}
use ahsir.Scheduler.Supervisor.Dial.{agent_dial_target, local_url, Target}
use ahsir.Scheduler.Supervisor.State.{
  Scheduler, AgentConfig, new_scheduler, Process, SupervisorConfig, PortRange,
}
use ahsir.Scheduler.Supervisor.Run.{
  exits, fires, wakes, rolled_back, Event, run, boots, starts_agent,
}
use ahsir.Registry.Status.{Call, beats, registers, after, after-shown}
use ahsir.Scheduler.Supervisor.Apart.{run-Apart}
use ahsir.Prelude.Text.{Text, text, Text-discrete}
use ahsir.Prelude.Table.{get, put}

abbrev host : Host
host = record {
  fields = λ t. t ∷ [];
  lower = λ t. t;
  trim = λ t. t;
  absolute = λ t. t;
  canonical = λ t. t;
  join = λ a b. a ++ (47 ∷ b);
  message = λ e. text "failed";
}

abbrev env : Env
env = record {
  invalid = λ c. none;
  listener = λ p. closed;
  token = some (text "secret");
  starts = true;
  now = 5;
}

abbrev opts : SupervisorConfig
opts = record { enabled = true; initial_backoff = 0; max_backoff = 0 }

abbrev range : PortRange
range = record { start = 9000; end = 9001 }

abbrev agent_a : AgentConfig
agent_a = record {
  name = text "a";
  workspace = text "/w/a";
  workdir = [];
  port = 0;
  instances = 0;
  remote = [];
  internal_token = [];
  admin_token = [];
}

abbrev agent_b : AgentConfig
agent_b = record agent_a { name = text "b"; workspace = text "/w/b" }

abbrev started_two : List Event
started_two = boots [] (λ n. env) ∷ starts_agent env agent_a ∷ starts_agent env agent_b ∷ []

abbrev process_a : Process
process_a = record {
  id = 0;
  cfg = record agent_a { port = 9000; internal_token = text "secret" };
  stopping = false;
  restart_attempts = 0;
  internal_token = text "secret";
  health_failed = none;
}

found_a :
    get Text-discrete
      (text "a")
      (run host started_two (new_scheduler host.fields opts range [] 1)).agents
    ≡ some process_a
unfolding run new_scheduler get put Text-discrete ℕ_discrete
found_a = refl

run-Apart_example : text "a" ≡ text "a"
run-Apart_example =
    run-Apart host opts range [] 1 started_two (text "a") (text "a") process_a process_a found_a
      found_a refl

-- The first agent is stopped; it exits, its timer fires, somebody wakes it, and the other starts.
abbrev afterwards : List Event
afterwards =
    exits env (text "a") 0 idle_exit
    ∷ fires env (text "a") 1
    ∷ wakes env (text "a")
    ∷ rolled_back (text "a")
    ∷ starts_agent env (record agent_b { name = text "c" })
    ∷ []

stays_down_example :
    let s = run host started_two (new_scheduler host.fields opts range [] 1) in
    let t = run host afterwards (stop_agent host env (text "a") s) in
    (get Text-discrete (text "a") t.desired ≡ none)
    × (get Text-discrete (text "a") t.idle_stopped ≡ none)
    × ((p : Process) → get Text-discrete (text "a") t.agents ≡ some p → p.stopping ≡ true)
    × (launches (text "a") t ≡ launches (text "a") s)
stays_down_example =
    stays_down host opts range [] 1 started_two afterwards env (text "a")
      (tt, (tt, (tt, (tt, ((λ e. ground arith), tt)))))

abbrev target_a : Target (Unit {0})
target_a = record {
  card = record {
    name = text "a";
    version = text "1.0.0";
    url = text "http://127.0.0.1:9000/";
    preferred_transport = text "JSONRPC";
    rest = tt;
  };
  token = text "secret";
}

no_cards : Registry (Unit {0})
no_cards = new_registry 0

dialled :
    agent_dial_target
      (λ t. t)
      (text "JSONRPC")
      tt
      (text "a")
      no_cards
      (run host started_two (new_scheduler host.fields opts range [] 1))
    ≡ some target_a
unfolding agent_dial_target run new_scheduler get put Text-discrete ℕ_discrete no_cards new_registry
    get_card
dialled = refl

token-owner_example :
    let s = run host started_two (new_scheduler host.fields opts range [] 1) in
    (p : Process) × (get Text-discrete (text "a") s.agents ≡ some p)
    × (target_a.token ≡ p.internal_token)
    × (target_a.card.url ≡ local_url p)
    × ((n : Text) (q : Process)
        → get Text-discrete n s.agents ≡ some q
        → local_url q ≡ target_a.card.url
        → n ≡ text "a")
token-owner_example =
    token-owner host opts range [] 1 started_two (λ t. t) (text "JSONRPC") tt no_cards (text "a")
      target_a dialled (λ e. cc)

abbrev full : Scheduler
full = run host started_two (new_scheduler host.fields opts range [] 1)

restart_backoff-capped_example : restart_backoff opts 7 ≡ 30000000000
restart_backoff-capped_example = restart_backoff-capped opts 6

abbrev card_a : AgentCard (Unit {0})
card_a = target_a.card

abbrev calls : List (Call (Unit {0}))
calls = beats (text "a") 40 ∷ registers card_a 10 ∷ []

after-shown_example :
    (get_card (λ t. t) (text "a") (after (λ t. t) 30 calls) ≡ some card_a)
    × (get_status (λ t. t) 60 (text "a") (after (λ t. t) 30 calls) ≡ text "online")
unfolding Text-discrete ℕ_discrete
after-shown_example = after-shown (λ t. t) 30 60 (text "a") calls
