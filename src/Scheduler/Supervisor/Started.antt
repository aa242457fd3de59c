-- ===== src/Scheduler/Supervisor/Started.antt =====
-- The three ways in which a start may end.
use mathlib.Core.Path.{subst}
use ahsir.Scheduler.Supervisor.Launch.{
  publish, reject, on_port, start_agent_locked, with_token, launch,
}
use ahsir.Scheduler.Supervisor.Free.{port_reserved_by_other-Free, port_reserved-Free, Free}
use ahsir.Scheduler.Supervisor.Probes.{scan-Usable}
use ahsir.Scheduler.Supervisor.Ports.{
  no_token, refused, not_started, invalid_configuration, port_reserved_by_other, chosen, PortChoice,
  Fault, resolve_port, pinned_port, StartError, Env, Host,
}
use ahsir.Scheduler.Supervisor.State.{Scheduler, AgentConfig}
use ahsir.Prelude.{
  ℕ, ◌≡◌, refl, sym, ap, ◌∙◌, inl, inr, Option, none, some, arith, ◌==◌, Bool-cases, if_of_eq,
}
use ahsir.Prelude.Text.{Text, is_empty}

-- What a start leaves: a rejected configuration; an error, and the cursor at most moved; or a
-- process of the agent's name on a port that no other agent's process has.
pub data Started (h : Host) (e : Env) (cfg : AgentConfig) (attempts : ℕ) (s : Scheduler)
    : Option StartError × Scheduler → Type 0 where
  rejected :
      (f : Fault) → Started h e cfg attempts s (some (invalid_configuration f), reject h e cfg f s)
  failed :
      (err : StartError) (next : ℕ)
      → Started h e cfg attempts s (some err, record s { next_port = next })
  started :
      (port next : ℕ) (token : Text)
      → Free port cfg.name s
      → Started h e cfg attempts s (
        none,
        (publish (record cfg { port = port }) attempts token (record s { next_port = next })),
      )

module _ (h : Host) (e : Env) (cfg : AgentConfig) (attempts : ℕ) (s : Scheduler) where
  launch-Started :
      (port next : ℕ) (token : Text)
      → Free port cfg.name s
      → Started h e cfg attempts s
          (launch e (record cfg { port = port }) attempts token (record s { next_port = next }))
  unfolding launch
  launch-Started port next token free = elim (Bool-cases e.starts) [
    | inl y ↦
        subst (Started h e cfg attempts s) (sym (if_of_eq _ _ y)) (started port next token free)
    | inr n ↦ subst (Started h e cfg attempts s) (sym (if_of_eq _ _ n)) (failed not_started next)
  ]

  with_token-Started :
      (port next : ℕ)
      → Free port cfg.name s
      → Started h e cfg attempts s
          (with_token e (record cfg { port = port }) attempts (record s { next_port = next }))
  unfolding with_token
  with_token-Started port next free = elim (Bool-cases (is_empty cfg.internal_token)) [
    | inr has ↦
        subst (Started h e cfg attempts s) (sym (if_of_eq _ _ has))
          (launch-Started port next cfg.internal_token free)
    | inl lacks ↦
        subst (Started h e cfg attempts s) (sym (if_of_eq _ _ lacks))
          (elim e.token
            as (λ (o : Option Text). Started h e cfg attempts s (elim o [
              | none ↦ (some no_token, record s { next_port = next })
              | some t ↦
                  launch e (record cfg { port = port }) attempts t (record s { next_port = next })
            ])) [ none ↦ failed no_token next | some t ↦ launch-Started port next t free ])
  ]

  on_port-Started :
      (c : PortChoice × ℕ)
      → ((p : ℕ) → c.0 ≡ chosen p → Free p cfg.name s)
      → Started h e cfg attempts s (on_port e cfg attempts (record s { next_port = c.1 }) c.0)
  unfolding on_port
  on_port-Started (chosen p, next) free = with_token-Started p next (free p refl)
  on_port-Started (refused err, next) free = failed err next

  pinned-Free : (p : ℕ) → pinned_port h e cfg s ≡ chosen p → Free p cfg.name s
  unfolding pinned_port
  pinned-Free p q = elim (Bool-cases (port_reserved_by_other cfg.port cfg.name s)) [
    | inl taken ↦ ground arith
    | inr free ↦
        subst (λ (x : ℕ). Free x cfg.name s) (ground arith)
          (port_reserved_by_other-Free cfg.port cfg.name s free)
  ]

  resolve_port-Free : (p : ℕ) → (resolve_port h e cfg s).0 ≡ chosen p → Free p cfg.name s
  unfolding resolve_port
  resolve_port-Free p q = elim (Bool-cases (cfg.port == 0)) [
    | inl y ↦
        port_reserved-Free p cfg.name s
          (scan-Usable h _ e cfg s s.next_port p
            (ap (λ (x : PortChoice × ℕ). x.0) (sym (if_of_eq _ _ y)) ∙ q)).unreserved
    | inr n ↦ pinned-Free p (ap (λ (x : PortChoice × ℕ). x.0) (sym (if_of_eq _ _ n)) ∙ q)
  ]

  pub start_agent_locked-Started :
      Started h e cfg attempts s (start_agent_locked h e cfg attempts s)
  unfolding start_agent_locked
  start_agent_locked-Started =
      elim (e.invalid cfg)
        as (λ (o : Option Fault). Started h e cfg attempts s (elim o [
          | some f ↦ (some (invalid_configuration f), reject h e cfg f s)
          | none ↦
              let c = resolve_port h e cfg s in
              on_port e cfg attempts (record s { next_port = c.1 }) c.0
        ])) [
          | some f ↦ rejected f
          | none ↦ on_port-Started (resolve_port h e cfg s) resolve_port-Free
        ]
