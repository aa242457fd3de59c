-- ===== src/Wrapper/Gate.antt =====
-- The per-context FIFO turn gate (internal/wrapper/turn_gate.go). A waiter's channel is a number,
-- and `release` returns the channel that it closes. A critical section is one function.
pub mod Fifo
pub mod Line
pub mod Order
pub mod Service
use ahsir.Prelude.{
  ℕ, zero, suc, ◌==◌, leb, Bool, true, false, ◌||◌, if◌then◌else◌, Option, none, some, List, [],
  ◌∷◌, length,
}

pub record TurnGate : Type 0 where
  pub busy : Bool
  pub evicting : Bool
  pub waiters : List ℕ

-- What the first critical section of `acquire` decides.
pub data Entry : Type 0 where
  entered cancelled evicted queued : Entry
  queue_full : ℕ → Entry

abbrev default_turn_queue_depth : ℕ
default_turn_queue_depth = 4

unfoldable pub new_turn_gate : TurnGate
new_turn_gate = record { busy = false; evicting = false; waiters = [] }

-- The list with an element at the end, `append(xs, x)`.
abbrev snoc {ℓ} : {A : Type ℓ} → List A → A → List A
snoc [] y = y ∷ []
snoc (x ∷ xs) y = x ∷ snoc xs y

-- `acquire` up to the `select`; `dead` tells whether the caller's context is cancelled already.
unfoldable pub acquire : Bool → ℕ → ℕ → TurnGate → TurnGate × Entry
acquire dead depth ch g =
    if dead
    then (g, cancelled)
    else if g.evicting
    then (g, evicted)
    else if g.busy
    then if leb depth (length g.waiters)
      then (g, queue_full (length g.waiters))
      else (record g { waiters = snoc g.waiters ch }, queued)
    else (record g { busy = true }, entered)

hand_over : List ℕ → TurnGate → TurnGate × Option ℕ
hand_over [] g = (record g { busy = false }, none)
hand_over (ch ∷ rest) g = (record g { waiters = rest }, some ch)

unfoldable pub release : TurnGate → TurnGate × Option ℕ
unfolding hand_over
release g = hand_over g.waiters g

-- The first occurrence is cut out, if there is one.
unfoldable pub cut : ℕ → List ℕ → Option (List ℕ)
cut ch [] = none
cut ch (w ∷ ws) =
    let rest = cut ch ws in
    if w == ch then some ws else elim rest [ none ↦ none | some r ↦ some (w ∷ r) ]

-- The `ctx.Done()` branch of `acquire`: leave the queue, or pass on a gate that was just granted.
unfoldable give_up : ℕ → TurnGate → TurnGate × Option ℕ
give_up ch g = elim (cut ch g.waiters) [
  | some rest ↦ (record g { waiters = rest }, none)
  | none ↦ release g
]

unfoldable pub try_begin_eviction : TurnGate → TurnGate × Bool
try_begin_eviction g =
    if g.evicting || g.busy || leb 1 (length g.waiters)
    then (g, false)
    else (record g { evicting = true }, true)

unfoldable pub end_eviction : TurnGate → TurnGate
end_eviction g = record g { evicting = false }

unfoldable pub in_flight : TurnGate → Bool
in_flight g = g.busy || leb 1 (length g.waiters)
