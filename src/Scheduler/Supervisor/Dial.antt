-- ===== src/Scheduler/Supervisor/Dial.antt =====
-- Where a request that carries an agent's internal token is sent (internal/scheduler/scheduler.go).
use ahsir.Registry.{get_card, AgentCard, Registry}
use ahsir.Prelude.Decimal.{decimal}
use ahsir.Scheduler.Supervisor.State.{Scheduler, Process}
use ahsir.Prelude.{◌≡◌, refl, ◌≢◌, inl, inr, Option, none, some, [], ◌++◌, arith, Option-cases}
use ahsir.Prelude.Text.{Text, text, Text-discrete}
use ahsir.Prelude.Table.{get}

unfoldable pub local_url : Process → Text
unfolding decimal
local_url p = text "http://127.0.0.1:" ++ (decimal p.cfg.port ++ text "/")

pub record Target (Rest : Type 0) : Type 0 where
  pub card : AgentCard Rest
  pub token : Text

unfoldable pub agent_internal_token : Text → Scheduler → Text
agent_internal_token name s = elim (get Text-discrete name s.agents) [
  | none ↦ []
  | some p ↦ p.internal_token
]

-- The protocol's name and the other fields of an empty card are the A2A library's.
module _ {Rest : Type 0} (lower : Text → Text) (jsonrpc : Text) (blank : Rest) where
  unfoldable pub local_card : Text → Process → Option (AgentCard Rest) → AgentCard Rest
  unfolding local_url
  local_card name p none = record {
    name = name;
    version = text "1.0.0";
    url = local_url p;
    preferred_transport = jsonrpc;
    rest = blank;
  }
  local_card name p (some card) = record card { url = local_url p }

  unfoldable pub agent_dial_target : Text → Registry Rest → Scheduler → Option (Target Rest)
  unfolding local_card
  agent_dial_target name r s = elim (get Text-discrete name s.agents) [
    | some p ↦
        some (record { card = local_card name p (get_card lower name r); token = p.internal_token })
    | none ↦ elim (get_card lower name r) [
      | none ↦ none
      | some card ↦ some (record { card = card; token = [] })
    ]
  ]

  local_card-url :
      (name : Text) (p : Process) (o : Option (AgentCard Rest))
      → (local_card name p o).url ≡ local_url p
  unfolding local_card
  local_card-url name p none = refl
  local_card-url name p (some card) = refl

  -- A target with a token is the process that the scheduler has under the name, with its token.
  pub target-owner :
      (name : Text) (r : Registry Rest) (s : Scheduler) (t : Target Rest)
      → agent_dial_target name r s ≡ some t
      → t.token ≢ []
      → (p : Process) × (get Text-discrete name s.agents ≡ some p)
        × (t.token ≡ p.internal_token)
        × (t.card.url ≡ local_url p)
  unfolding agent_dial_target
  target-owner name r s t e n = elim (Option-cases (get Text-discrete name s.agents)) [
    | inr (p, q) ↦
        let f : some (record {
          card = local_card name p (get_card lower name r);
          token = p.internal_token;
        })
            ≡ some t =
          rw (q, agent_dial_target) at e in
        (p, q, ground arith, ground (arith, local_card-url name p (get_card lower name r)))
    | inl q ↦ elim (Option-cases (get_card lower name r)) [
      | inl m ↦ ground arith
      | inr (c, m) ↦ absurd (n (ground arith))
    ]
  ]
