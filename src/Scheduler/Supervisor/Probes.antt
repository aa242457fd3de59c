-- ===== src/Scheduler/Supervisor/Probes.antt =====
-- The rounds of the scan of the ports.
use mathlib.Core.Path.{subst}
use ahsir.Scheduler.Supervisor.Ports.{
  PortChoice, bad_range, StartError, probed, refused, in_use, evict_stale_local_agent,
  port_reserved, chosen, is_valid_range, Env, Host, allocate_port, scan_ports,
}
use ahsir.Scheduler.Supervisor.State.{Scheduler, AgentConfig, PortRange}
use ahsir.Prelude.{
  ℕ, zero, suc, ◌+◌, ◌-◌, ◌≤◌, ◌<◌, ◌≡◌, refl, sym, ap, ◌∙◌, ◌⊎◌, inl, inr, true, false, Option,
  none, some, arith, leb, if◌then◌else◌, Bool-cases, Option-cases,
}

-- A dynamic candidate that cannot be used.
abbrev pub Taken : Host → Env → AgentConfig → Scheduler → ℕ → Type 0
Taken h e cfg s p =
    (port_reserved p s ≡ true)
    ⊎ ((q : ℕ) × (evict_stale_local_agent h e (record cfg { port = p }) ≡ some (in_use q)))

-- A dynamic candidate that is used.
pub record Usable (h : Host) (e : Env) (cfg : AgentConfig) (s : Scheduler) (p : ℕ) : Type 0 where
  pub above : s.port_range.start ≤ p
  pub below : p ≤ s.port_range.end
  pub unreserved : port_reserved p s ≡ false
  pub probed : evict_stale_local_agent h e (record cfg { port = p }) ≡ none

pub allocated :
    (r : PortRange) (next : ℕ) {c : ℕ × ℕ}
    → allocate_port r next ≡ some c
    → (r.start ≤ c.0) × (c.0 ≤ r.end) × (0 < r.start)
unfolding allocate_port is_valid_range
allocated r next q = ground arith

module _ (h : Host) (k : ℕ) (e : Env) (cfg : AgentConfig) (s : Scheduler) (next : ℕ) where
  pub scan-none :
      allocate_port s.port_range next ≡ none
      → scan_ports h (suc k) e cfg s next ≡ (refused bad_range, next)
  unfolding scan_ports
  scan-none got = rw (got, scan_ports) refl

  pub scan-reserved :
      {c : ℕ × ℕ}
      → allocate_port s.port_range next ≡ some c
      → port_reserved c.0 s ≡ true
      → scan_ports h (suc k) e cfg s next ≡ scan_ports h k e cfg s c.1
  unfolding scan_ports
  scan-reserved got taken = rw (got, scan_ports) (rw taken refl)

  pub scan-probed :
      {c : ℕ × ℕ} {o : Option StartError}
      → allocate_port s.port_range next ≡ some c
      → port_reserved c.0 s ≡ false
      → evict_stale_local_agent h e (record cfg { port = c.0 }) ≡ o
      → scan_ports h (suc k) e cfg s next ≡ probed c.0 (scan_ports h k e cfg s c.1) c.1 o
  unfolding scan_ports
  scan-probed got free o = rw (got, scan_ports) (rw free (rw o refl))

pub allocated_next :
    (r : PortRange) (next : ℕ) {c : ℕ × ℕ}
    → allocate_port r next ≡ some c
    → (r.start ≤ c.1) × (c.1 ≤ r.end)
unfolding allocate_port is_valid_range
allocated_next r next q = ground arith

pub le-or_gt : (a b : ℕ) → (a ≤ b) ⊎ (b < a)
le-or_gt a b = elim (Bool-cases (leb a b)) [
  | inl y ↦ inl (ground arith)
  | inr n ↦ inr (ground arith)
]

pub probed-chosen :
    (port : ℕ) (rest : PortChoice × ℕ) (next : ℕ) (o : Option StartError) (p : ℕ)
    → (probed port rest next o).0 ≡ chosen p
    → ((o ≡ none) × (port ≡ p)) ⊎ (rest.0 ≡ chosen p)
unfolding probed
probed-chosen port rest next none p q = inl (refl, ground arith)
probed-chosen port rest next (some (in_use x)) p q = inr q
probed-chosen port rest next (some err) p q = cc

pub scan-Usable :
    (h : Host) (k : ℕ) (e : Env) (cfg : AgentConfig) (s : Scheduler) (next p : ℕ)
    → (scan_ports h k e cfg s next).0 ≡ chosen p
    → Usable h e cfg s p
unfolding scan_ports
scan-Usable h zero e cfg s next p q = cc
scan-Usable h (suc k) e cfg s next p q = elim (Option-cases (allocate_port s.port_range next)) [
  | inl none_left ↦ cc (scan-none h k e cfg s next none_left)
  | inr (c, got) ↦ elim (Bool-cases (port_reserved c.0 s)) [
    | inl taken ↦
        scan-Usable h k e cfg s c.1 p
          (sym (ap (λ (r : PortChoice × ℕ). r.0) (scan-reserved h k e cfg s next got taken)) ∙ q)
    | inr free ↦
        let o = evict_stale_local_agent h e (record cfg { port = c.0 }) in
        let b = allocated s.port_range next got in
        elim (probed-chosen c.0 (scan_ports h k e cfg s c.1) c.1 o p (
          sym (ap (λ (r : PortChoice × ℕ). r.0) (scan-probed h k e cfg s next got free refl))
          ∙ q)) [
            | inr later ↦ scan-Usable h k e cfg s c.1 p later
            | inl (clear, same) ↦
                subst (Usable h e cfg s) same
                  (record { above = b.0; below = b.1; unreserved = free; probed = clear })
          ]
  ]
]

-- How far the cursor is from a port of the range.
unfoldable pub ahead : PortRange → ℕ → ℕ → ℕ
ahead r next p = if leb next p then p - next else p + (r.end + 1 - r.start) - next

pub allocated_ahead :
    (r : PortRange) (next p k : ℕ) {c : ℕ × ℕ}
    → allocate_port r next ≡ some c
    → r.start ≤ p
    → p ≤ r.end
    → r.start ≤ next
    → next ≤ r.end
    → ahead r next p < suc k
    → (c.0 ≡ p) ⊎ ((ahead r c.1 p < k) × (r.start ≤ c.1) × (c.1 ≤ r.end))
unfolding allocate_port is_valid_range ahead
allocated_ahead r next p k got a b l u d = ground arith
