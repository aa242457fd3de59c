-- ===== src/Examples/Rest.antt =====
-- Instances, the idle monitor, tasks and live events.
use ahsir.Prelude.{inr, [], ◌∷◌, ◌≡◌, arith, refl, true, false, List}
use ahsir.Scheduler.Instance.Names.{
  instance_name, parse_instance_name, is_instance_child, parse-instance_name,
}
use ahsir.Prelude.Text.{Text, text}
use ahsir.Scheduler.Instance.{InstancePool, new_instance_pool, acquire}
use ahsir.Scheduler.Instance.Spread.{new-IsSound, Acquired}
use ahsir.Scheduler.Instance.Affinity.{
  acquire-Acquired, acquire_again, perform, acquires, releases, Call,
}
use ahsir.Wrapper.Idle.{Event, IdleMonitor, starts, ends, fires, new_idle_monitor}
use ahsir.Wrapper.Tasks.{new_task_store, list_tasks, TaskStore}
use ahsir.Wrapper.Tasks.Order.{upsert_all, save_all, list-save_all}
use ahsir.Scheduler.Live.{LiveEvent, LiveEventHub, LiveContext, new_live_event_hub}
use ahsir.Scheduler.Live.Bounds.{use_all, publishes, subscribes, use_all-Bounded, Bounded}

abbrev carol : Text
carol = text "carol"

abbrev two_instances : InstancePool
two_instances = new_instance_pool 2

acquire-Acquired_example : Acquired carol two_instances (acquire carol two_instances)
acquire-Acquired_example = acquire-Acquired carol two_instances (new-IsSound 2)

abbrev others : List Call
others = acquires (text "dave") ∷ acquires [] ∷ releases 0 ∷ []

acquire_again_example :
    let (q, i) = acquire carol two_instances in (acquire carol (perform others q)).1 ≡ i
acquire_again_example = acquire_again carol others two_instances refl (new-IsSound 2)

abbrev moments : List Event
moments = starts ∷ fires true ∷ ends 0 ∷ fires false ∷ fires true ∷ []

abbrev armed : IdleMonitor
armed = record (new_idle_monitor 600) { timer = true }

-- A task by its id, its context and its state.
abbrev Card : Type 0
Card = Text × (Text × Text)

abbrev first_card : Card
first_card = (text "t1", (carol, text "working"))

abbrev other_card : Card
other_card = (text "t2", (text "dave", text "working"))

abbrev done_card : Card
done_card = (text "t1", (carol, text "completed"))

abbrev cards : List Card
cards = first_card ∷ other_card ∷ done_card ∷ []

list-save_all_example :
    list_tasks {Task = Card}
      (λ t. t.0)
      (λ t. t.1.0)
      (λ t. t.1.1)
      (save_all (λ t. t.0) (λ t. t.1.0) (λ t. t.1.1) cards new_task_store)
    ≡ upsert_all (λ t. t.0) (λ t. t.1.0) (λ t. t.1.1) cards []
list-save_all_example = list-save_all (λ t. t.0) (λ t. t.1.0) (λ t. t.1.1) cards

abbrev card_store : TaskStore Card
card_store = save_all (λ t. t.0) (λ t. t.1.0) (λ t. t.1.1) cards new_task_store

abbrev progress : LiveEvent
progress = record {
  id = [];
  invocation_id = text "inv-1";
  context_id = carol;
  agent_name = text "helper";
  kind = text "tool";
  at = 7;
  name = [];
  tool_use_id = [];
  input = [];
  content = [];
  is_error = false;
  state = [];
}

use_all-Bounded_example :
    Bounded (use_all (subscribes 1 carol [] ∷ publishes 2 progress ∷ []) new_live_event_hub)
use_all-Bounded_example = use_all-Bounded (subscribes 1 carol [] ∷ publishes 2 progress ∷ [])

abbrev carols : LiveContext
carols = record {
  events = record progress { id = text "live-1" } ∷ [];
  updated_at = 7;
  subscribers = [];
}

abbrev one_event : LiveEventHub
one_event = record { seq = 1; sub_seq = 0; contexts = (carol, carols) ∷ [] }

parse-instance_name_example :
    (parse_instance_name (instance_name (text "coder#x") 12) ≡ (text "coder#x", (12, true)))
    × (is_instance_child (instance_name (text "coder#x") 12) ≡ true)
parse-instance_name_example =
    parse-instance_name (text "coder#x") 12 refl (omega arith) (inr (omega arith))
