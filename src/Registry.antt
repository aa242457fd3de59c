-- ===== src/Registry.antt =====
-- The registry of agents (internal/registry/registry.go). The text folding `strings.ToLower` is a
-- parameter, and so are the fields of a card that the code leaves alone.
pub mod Status
use ahsir.Prelude.{
  ℕ, zero, suc, ◌+◌, ◌-◌, ◌*◌, ◌^◌, ◌≤◌, ◌<◌, ◌≡◌, refl, sym, ap, ◌∙◌, ◌≢◌, ◌⊎◌, inl, inr, Bool,
  true, false, not, ◌&&◌, ◌||◌, Option, none, some, List, [], ◌∷◌, ◌++◌, map, arith, ltb, leb, ◌==◌,
  if◌then◌else◌, length, take, any, keep, is_some, Bool-cases, Option-cases, if_of_eq,
}
use ahsir.Prelude.Text.{Text, text, is_empty, Text-discrete, text_eq}
use ahsir.Prelude.Table.{Table, get, put, delete, get-put, get-delete}

-- The fields of the A2A library's card that the code reads or writes.
pub record AgentCard (Rest : Type 0) : Type 0 where
  pub name : Text
  pub version : Text
  pub url : Text
  pub preferred_transport : Text
  pub rest : Rest

pub record AgentEntry (Rest : Type 0) : Type 0 where
  pub card : AgentCard Rest
  pub status : Text
  pub last_beat : ℕ

pub record Registry (Rest : Type 0) : Type 0 where
  pub agents : Table Text (AgentEntry Rest)
  pub heartbeat_timeout : ℕ

unfoldable pub new_registry : {Rest : Type 0} → ℕ → Registry Rest
new_registry timeout = record { agents = []; heartbeat_timeout = timeout }

module _ {Rest : Type 0} where
  unfoldable pub list_cards : Registry Rest → List (AgentCard Rest)
  list_cards r = map (λ (e : Text × AgentEntry Rest). e.1.card) r.agents

module _ {Rest : Type 0} (lower : Text → Text) where
  unfoldable pub register : ℕ → AgentCard Rest → Registry Rest → Registry Rest
  register now card r = record r {
    agents =
        put Text-discrete (lower card.name)
          (record { card = card; status = text "online"; last_beat = now }) r.agents;
  }

  unfoldable pub get_card : Text → Registry Rest → Option (AgentCard Rest)
  get_card name r = elim (get Text-discrete (lower name) r.agents) [
    | none ↦ none
    | some e ↦ some e.card
  ]

  unfoldable pub get_status : ℕ → Text → Registry Rest → Text
  get_status now name r = elim (get Text-discrete (lower name) r.agents) [
    | none ↦ text "unknown"
    | some e ↦
        if ltb 0 r.heartbeat_timeout && ltb r.heartbeat_timeout (now - e.last_beat)
        then text "offline"
        else e.status
  ]

  -- Whether the name was there, and the registry.
  unfoldable pub unregister : Text → Registry Rest → Bool × Registry Rest
  unregister name r =
      if is_some (get Text-discrete (lower name) r.agents)
      then (true, record r { agents = delete Text-discrete (lower name) r.agents })
      else (false, r)

  unfoldable pub heartbeat : ℕ → Text → Registry Rest → Registry Rest
  heartbeat now name r = elim (get Text-discrete (lower name) r.agents) [
    | none ↦ r
    | some e ↦ record r {
      agents =
          put Text-discrete (lower name) (record e { last_beat = now; status = text "online" })
            r.agents;
    }
  ]
