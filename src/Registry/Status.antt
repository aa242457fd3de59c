-- ===== src/Registry/Status.antt =====
-- The registry as a function of what was called.
use ahsir.Registry.{
  get_card, get_status, unregister, heartbeat, register, new_registry, AgentCard, AgentEntry,
  Registry,
}
use ahsir.Prelude.{
  ℕ, ◌-◌, ◌≡◌, refl, ap, ◌∙◌, inl, inr, ◌&&◌, Option, none, some, List, [], ◌∷◌, arith, ltb,
  if◌then◌else◌, Option-cases,
}
use ahsir.Prelude.Text.{Text, text, Text-discrete, text_eq}
use ahsir.Prelude.Table.{get, get-put, get-delete}

pub data Call (Rest : Type 0) : Type 0 where
  registers : AgentCard Rest → ℕ → Call Rest
  beats : Text → ℕ → Call Rest
  unregisters : Text → Call Rest

module _ {Rest : Type 0} (lower : Text → Text) where
  unfoldable pub called : Call Rest → Registry Rest → Registry Rest
  unfolding register heartbeat unregister
  called (registers card now) r = register lower now card r
  called (beats name now) r = heartbeat lower now name r
  called (unregisters name) r = (unregister lower name r).1

  -- The calls, the latest first.
  unfoldable pub after : ℕ → List (Call Rest) → Registry Rest
  unfolding called new_registry
  after timeout [] = new_registry timeout
  after timeout (c ∷ cs) = called c (after timeout cs)

  -- What the calls say of a folded name: its card, and when it was last heard.
  abbrev pub heard : Text → List (Call Rest) → Option (AgentCard Rest × ℕ)
  heard k [] = none
  heard k (registers card now ∷ cs) =
      let rest = heard k cs in if text_eq (lower card.name) k then some (card, now) else rest
  heard k (beats name now ∷ cs) =
      let rest = heard k cs in
      if text_eq (lower name) k then elim rest [ none ↦ none | some r ↦ some (r.0, now) ] else rest
  heard k (unregisters name ∷ cs) =
      let rest = heard k cs in if text_eq (lower name) k then none else rest

  -- What is listed under a folded name.
  abbrev pub entry_of : Option (AgentCard Rest × ℕ) → Option (AgentEntry Rest)
  entry_of none = none
  entry_of (some (card, now)) =
      some (record { card = card; status = text "online"; last_beat = now })

  after-timeout : (t : ℕ) (cs : List (Call Rest)) → (after t cs).heartbeat_timeout ≡ t
  unfolding after called register heartbeat unregister new_registry
  after-timeout t [] = refl
  after-timeout t (registers card now ∷ cs) = after-timeout t cs
  after-timeout t (beats name now ∷ cs) = ground (arith, after-timeout t cs)
  after-timeout t (unregisters name ∷ cs) = ground (arith, after-timeout t cs)

  registers-entry :
      (k : Text) (card : AgentCard Rest) (now : ℕ) (r : Registry Rest)
      → get Text-discrete k (register lower now card r).agents ≡ (
          if text_eq (lower card.name) k
          then entry_of (some (card, now))
          else get Text-discrete k r.agents)
  unfolding register
  registers-entry k card now r = get-put Text-discrete (lower card.name) k _ r.agents ∙ ground arith

  -- A heartbeat changes nothing for a name that is not there, and one entry for one that is.
  heartbeat-none :
      (name : Text) (now : ℕ) (r : Registry Rest)
      → get Text-discrete (lower name) r.agents ≡ none
      → heartbeat lower now name r ≡ r
  unfolding heartbeat
  heartbeat-none name now r e = rw (e, heartbeat) refl

  heartbeat-some :
      (k name : Text) (now : ℕ) (r : Registry Rest) (x : AgentEntry Rest)
      → get Text-discrete (lower name) r.agents ≡ some x
      → get Text-discrete k (heartbeat lower now name r).agents ≡ (
          if text_eq (lower name) k
          then some (record x { last_beat = now; status = text "online" })
          else get Text-discrete k r.agents)
  unfolding heartbeat
  heartbeat-some k name now r x e =
      rw (e, heartbeat) (get-put Text-discrete (lower name) k _ r.agents ∙ ground arith)

  beats-entry :
      (k name : Text) (now : ℕ) (r : Registry Rest) (o : Option (AgentCard Rest × ℕ))
      → get Text-discrete k r.agents ≡ entry_of o
      → get Text-discrete k (heartbeat lower now name r).agents
        ≡ entry_of (
            if text_eq (lower name) k then elim o [ none ↦ none | some x ↦ some (x.0, now) ] else o)
  beats-entry k name now r none e = elim (Option-cases (get Text-discrete (lower name) r.agents)) [
    | inl n ↦
        ap (λ (x : Registry Rest). get Text-discrete k x.agents) (heartbeat-none name now r n)
        ∙ ground arith
    | inr (x, q) ↦ heartbeat-some k name now r x q ∙ ground arith
  ]
  beats-entry k name now r (some (card, t)) e =
      elim (Option-cases (get Text-discrete (lower name) r.agents)) [
        | inl n ↦
            ap (λ (x : Registry Rest). get Text-discrete k x.agents) (heartbeat-none name now r n)
            ∙ ground arith
        | inr (x, q) ↦ heartbeat-some k name now r x q ∙ ground arith
      ]

  unregisters-entry :
      (k name : Text) (r : Registry Rest)
      → get Text-discrete k (unregister lower name r).1.agents
        ≡ (if text_eq (lower name) k then none else get Text-discrete k r.agents)
  unfolding unregister
  unregisters-entry k name r = ground (arith, get-delete Text-discrete (lower name) k r.agents)

  after-entry :
      (t : ℕ) (k : Text) (cs : List (Call Rest))
      → get Text-discrete k (after t cs).agents ≡ entry_of (heard k cs)
  unfolding after called new_registry get
  after-entry t k [] = refl
  after-entry t k (registers card now ∷ cs) =
      registers-entry k card now (after t cs) ∙ ground (arith, after-entry t k cs)
  after-entry t k (beats name now ∷ cs) =
      beats-entry k name now (after t cs) (heard k cs) (after-entry t k cs)
  after-entry t k (unregisters name ∷ cs) =
      unregisters-entry k name (after t cs) ∙ ground (arith, after-entry t k cs)

  -- What the registry shows of a name, given what was heard of it.
  abbrev pub shown : ℕ → ℕ → Option (AgentCard Rest × ℕ) → Text
  shown timeout now none = text "unknown"
  shown timeout now (some (card, at)) =
      if ltb 0 timeout && ltb timeout (now - at) then text "offline" else text "online"

  abbrev pub card_of : Option (AgentCard Rest × ℕ) → Option (AgentCard Rest)
  card_of none = none
  card_of (some (card, at)) = some card

  get_status-entry :
      (now : ℕ) (name : Text) (r : Registry Rest) (o : Option (AgentCard Rest × ℕ))
      → get Text-discrete (lower name) r.agents ≡ entry_of o
      → (get_card lower name r ≡ card_of o)
        × (get_status lower now name r ≡ shown r.heartbeat_timeout now o)
  unfolding get_status get_card
  get_status-entry now name r none e = (rw (e, get_card) refl, rw (e, get_status) refl)
  get_status-entry now name r (some (card, at)) e = (rw (e, get_card) refl, rw (e, get_status) refl)

  -- After any calls the registry's answers about a name, in whatever case it is written, are those
  -- of its latest registration, and its status is `unknown` if there is none or it was removed
  -- since, `offline` if the timeout is set and the registration and every later heartbeat are
  -- older, and `online` otherwise.
  pub after-shown :
      (timeout now : ℕ) (name : Text) (cs : List (Call Rest))
      → (get_card lower name (after timeout cs) ≡ card_of (heard (lower name) cs))
        × (get_status lower now name (after timeout cs) ≡ shown timeout now (heard (lower name) cs))
  after-shown timeout now name cs =
      let (c, s) =
        get_status-entry now name (after timeout cs) (heard (lower name) cs)
          (after-entry timeout (lower name) cs) in
      (c, s ∙ ap (λ (t : ℕ). shown t now (heard (lower name) cs)) (after-timeout timeout cs))
