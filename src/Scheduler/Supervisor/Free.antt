-- ===== src/Scheduler/Supervisor/Free.antt =====
-- What the tests of reservation say of the processes.
use ahsir.Scheduler.Supervisor.Ports.{holds_port, port_reserved, port_reserved_by_other}
use ahsir.Scheduler.Supervisor.State.{Process, Scheduler}
use ahsir.Prelude.{
  ℕ, ◌≡◌, ◌≢◌, inl, inr, Bool, true, false, not, ◌&&◌, some, [], ◌∷◌, arith, ◌==◌, any, Bool-cases,
}
use ahsir.Prelude.Text.{Text, Text-discrete, text_eq}
use ahsir.Prelude.Table.{Table, get}

module _ {A : Type 0} where
  -- A test that no entry passes fails at what a key finds.
  pub any-get :
      (t : Text × A → Bool) (m : Table Text A) (k : Text) (v : A)
      → any t m ≡ false
      → get Text-discrete k m ≡ some v
      → t (k, v) ≡ false
  unfolding get
  any-get t [] k v n e = cc
  any-get t ((j, w) ∷ m) k v n e = elim (Bool-cases (t (j, w))) [
    | inl y ↦ cc
    | inr f ↦ elim (Text-discrete j k) [
      | yes q ↦ ground arith
      | no d ↦ any-get t m k v (ground arith) (ground arith)
    ]
  ]

-- No process of another agent has the port.
abbrev pub Free : ℕ → Text → Scheduler → Type 0
Free port name s =
    (m : Text) (p : Process) → m ≢ name → get Text-discrete m s.agents ≡ some p → p.cfg.port ≢ port

pub text_eq_of_ne : (a b : Text) → a ≢ b → text_eq a b ≡ false
text_eq_of_ne a b n = ground arith

pub text_eq_self : (a : Text) → text_eq a a ≡ true
text_eq_self a = ground arith

pub port_reserved-Free :
    (port : ℕ) (name : Text) (s : Scheduler) → port_reserved port s ≡ false → Free port name s
unfolding port_reserved holds_port
port_reserved-Free port name s f m p n e q =
    let t : Text × Process → Bool = λ (x : Text × Process). x.1.cfg.port == port in
    ground (arith, any-get t s.agents m p (ground arith) e)

pub port_reserved_by_other-Free :
    (port : ℕ) (name : Text) (s : Scheduler)
    → port_reserved_by_other port name s ≡ false
    → Free port name s
unfolding port_reserved_by_other
port_reserved_by_other-Free port name s f m p n e q =
    let t : Text × Process → Bool =
      λ (x : Text × Process). not (text_eq x.0 name) && x.1.cfg.port == port in
    ground (arith, any-get t s.agents m p (ground arith) e, text_eq_of_ne m name n)
