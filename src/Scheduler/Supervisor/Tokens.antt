-- ===== src/Scheduler/Supervisor/Tokens.antt =====
-- An internal token goes to the URL of the process that it belongs to.
use ahsir.Scheduler.Supervisor.Apart.{run-Apart}
use ahsir.Scheduler.Supervisor.Dial.{target-owner, agent_dial_target, Target, local_url}
use ahsir.Scheduler.Supervisor.State.{
  new_scheduler, AgentConfig, PortRange, SupervisorConfig, Process,
}
use ahsir.Scheduler.Supervisor.Run.{run, Event}
use ahsir.Registry.{Registry}
use ahsir.Prelude.{drop, ℕ, ◌≡◌, refl, sym, ap, ◌∙◌, ◌≢◌, some, List, [], ◌∷◌, ◌++◌}
use ahsir.Prelude.Decimal.{parse_digits, digits-decimal, decimal}
use ahsir.Scheduler.Supervisor.Ports.{Host}
use ahsir.Prelude.Text.{Text, Text-discrete}
use ahsir.Prelude.Table.{get}

-- A text without its last byte.
chop : Text → Text
chop [] = []
chop (c ∷ []) = []
chop (c ∷ d ∷ cs) = c ∷ chop (d ∷ cs)

chop-append : (s : Text) (c : ℕ) → chop (s ++ (c ∷ [])) ≡ s
unfolding chop
chop-append [] c = refl
chop-append (x ∷ []) c = refl
chop-append (x ∷ y ∷ s) c = ap (λ (t : Text). x ∷ t) (chop-append (y ∷ s) c)

decimal-inj : (m n : ℕ) → decimal m ≡ decimal n → m ≡ n
decimal-inj m n e = cc (sym (digits-decimal m) ∙ (ap (parse_digits 0) e ∙ digits-decimal n))

-- Local URLs differ where ports do.
local_url-port : (p q : Process) → local_url p ≡ local_url q → p.cfg.port ≡ q.cfg.port
unfolding local_url
local_url-port p q e = decimal-inj p.cfg.port q.cfg.port (
    sym (chop-append (decimal p.cfg.port) 47)
    ∙ (ap (λ (t : Text). chop (drop 17 t)) e ∙ chop-append (decimal q.cfg.port) 47))

-- Whatever has happened and whatever was registered, a request that carries a token goes to the
-- local URL of the process that the scheduler's table of agents holds under the name, with that
-- process's token, and the table holds no process of another name that has this URL. A process that
-- another has replaced in the table is not meant, though it may still run.
pub token-owner :
    {Rest : Type 0} (h : Host) (v : SupervisorConfig) (range : PortRange) (cs : List AgentConfig)
    (now : ℕ) (vs : List Event) (lower : Text → Text) (jsonrpc : Text) (blank : Rest)
    (reg : Registry Rest) (name : Text) (t : Target Rest)
    → let s = run h vs (new_scheduler h.fields v range cs now) in
      agent_dial_target lower jsonrpc blank name reg s ≡ some t
      → t.token ≢ []
      → (p : Process) × (get Text-discrete name s.agents ≡ some p)
        × (t.token ≡ p.internal_token)
        × (t.card.url ≡ local_url p)
        × ((n : Text) (q : Process)
            → get Text-discrete n s.agents ≡ some q
            → local_url q ≡ t.card.url
            → n ≡ name)
token-owner h v range cs now vs lower jsonrpc blank reg name t e has =
    let s = run h vs (new_scheduler h.fields v range cs now) in
    let (p, here, token, url) = target-owner lower jsonrpc blank name reg s t e has in
    (
      p,
      here,
      token,
      url,
      λ n q f same.
          run-Apart h v range cs now vs n name q p f here (local_url-port q p (same ∙ url)),
    )
