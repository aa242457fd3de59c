-- ===== src/Wrapper/Gate/Line.antt =====
-- The callers of one gate as interleaved critical sections, against one line of callers.
use ahsir.Prelude.{ℕ, suc, ◌≡◌, Bool, true, false, Option, none, some, List, [], ◌∷◌, ◌++◌, length}
use ahsir.Wrapper.Gate.{
  TurnGate, Entry, entered, new_turn_gate, snoc, acquire, release, cut, give_up, try_begin_eviction,
  end_eviction,
}
use ahsir.Wrapper.Gate.Fifo.{Ascending}

-- The gate, the callers that own it (one is inside, or was granted the gate and has not woken up),
-- and the next fresh channel.
pub record World : Type 0 where
  pub gate : TurnGate
  pub owners : List ℕ
  pub next : ℕ

unfoldable pub start : World
start = record { gate = new_turn_gate; owners = []; next = 0 }

-- A caller that is let in at once owns the gate under its own ticket.
abbrev admitted : Entry → ℕ → List ℕ → List ℕ
admitted entered t owners = snoc owners t
admitted _ t owners = owners

unfoldable pub arrival : Bool → ℕ → World → World
arrival dead depth w =
    let (g, e) = acquire dead depth w.next w.gate in
    record { gate = g; owners = admitted e w.next w.owners; next = suc w.next }

-- The channel that a call closed makes its waiter an owner.
abbrev granted : Option ℕ → List ℕ → List ℕ
granted none owners = owners
granted (some ch) owners = snoc owners ch

abbrev pub passed : World → List ℕ → TurnGate × Option ℕ → World
passed w owners (g, ch) = record w { gate = g; owners = granted ch owners }

-- One critical section of one caller, or of the pool's reaper.
pub data Step (w : World) : World → Type 0 where
  arrive : (dead : Bool) (depth : ℕ) → Step w (arrival dead depth w)
  finish : (t : ℕ) (rest : List ℕ) → w.owners ≡ t ∷ rest → Step w (passed w rest (release w.gate))
  leave :
      (t : ℕ) (rest : List ℕ)
      → cut t w.gate.waiters ≡ some rest
      → Step w (passed w w.owners (give_up t w.gate))
  leave_late :
      (t : ℕ) (rest : List ℕ)
      → w.owners ≡ t ∷ rest
      → cut t w.gate.waiters ≡ none
      → Step w (passed w rest (give_up t w.gate))
  begin_eviction : Step w (record w { gate = (try_begin_eviction w.gate).0 })
  stop_eviction : Step w (record w { gate = end_eviction w.gate })

pub data Reach : World → Type 0 where
  here : Reach start
  next : {w v : World} → Reach w → Step w v → Reach v

-- The owner first, then the waiters.
abbrev pub line : World → List ℕ
line w = w.owners ++ w.gate.waiters

-- One owner exactly when the gate is busy; nobody waits at an open gate; nobody is inside while
-- the session is evicted; and the line is in order of arrival.
pub record Inv (w : World) : Type 0 where
  pub occupied : w.gate.busy ≡ true → length w.owners ≡ 1
  pub open_gate : w.gate.busy ≡ false → (w.owners ≡ []) × (w.gate.waiters ≡ [])
  pub leased : w.gate.evicting ≡ true → w.gate.busy ≡ false
  pub in_order : Ascending w.next (line w)
