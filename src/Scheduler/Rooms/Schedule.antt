-- ===== src/Scheduler/Rooms/Schedule.antt =====
-- What scheduling does to a room, and when a room is active.
use mathlib.Core.Path.{subst}
use ahsir.Scheduler.Rooms.Room.{
  operator, stopped, waiting, is_stopped, active, schedule_next, RoomStatus, Room,
}
use ahsir.Prelude.{
  ◌&&◌, if_of_eq, ◌∙◌, not, inr, inl, ◌||◌, Bool-cases, false, All, true, ◌≡◌, Bool, List, [], ◌∷◌,
  arith, refl,
}
use ahsir.Scheduler.Rooms.Mentions.{In}
use ahsir.Prelude.Text.{text_eq, is_empty, Text}
use ahsir.Scheduler.Rooms.Relay.{stops, Command}

abbrev pub is_active : RoomStatus → Bool
is_active active = true
is_active _ = false

abbrev pub is_stop : Command → Bool
is_stop stops = true
is_stop _ = false

-- A room that has no next speaker is not active.
abbrev pub Posed : Room → Type 0
Posed r = is_empty r.next ≡ true → is_active r.status ≡ false

-- The names of a room that it can schedule.
abbrev pub Named : Room → Type 0
Named r = All (λ p. is_empty p ≡ false) r.participants × (is_empty r.organizer ≡ false)

pub stopped_rests : (s : RoomStatus) → is_stopped s ≡ true → is_active s ≡ false
stopped_rests active h = cc
stopped_rests waiting h = refl
stopped_rests stopped h = refl

pub idle_rests :
    (r : Room)
    → Posed r
    → is_stopped r.status || is_empty r.next ≡ true
    → is_active r.status ≡ false
idle_rests r p t = elim (Bool-cases (is_stopped r.status)) [
  | inl s ↦ stopped_rests r.status s
  | inr n ↦ p (ground arith)
]

pub All_at : (P : Text → Type 0) (x : Text) (xs : List Text) → All P xs → In x xs → P x
All_at P x [] h m = elim m [ ]
All_at P x (y ∷ ys) h (inl e) = subst P e h.0
All_at P x (y ∷ ys) h (inr m) = All_at P x ys h.1 m

-- What scheduling does: it sets the next speaker and the status, and an active room has a speaker.
abbrev pub Scheduled : List Text → Room → Room → Type 0
Scheduled mentions r r' =
    (x : Text) × ((y : RoomStatus) × ((r' ≡ record r { next = x; status = y })
        × (All (λ m. is_empty m ≡ false) mentions
            → is_empty r.organizer ≡ false
            → is_empty x ≡ true
            → is_active y ≡ false)))

pub schedule_next-Scheduled :
    (speaker : Text) (mentions : List Text) (r : Room)
    → Scheduled mentions r (schedule_next speaker mentions r)
unfolding schedule_next
schedule_next-Scheduled speaker (m ∷ ms) r = elim (Bool-cases (is_stopped r.status)) [
  | inl t ↦ ([], (r.status, (if_of_eq _ _ t, λ h o e. stopped_rests r.status t)))
  | inr f ↦ (m, (active, (if_of_eq _ _ f, λ h o e. absurd (cc (e, h.0)))))
]
schedule_next-Scheduled speaker [] r = elim (Bool-cases (is_stopped r.status)) [
  | inl t ↦ ([], (r.status, (if_of_eq _ _ t, λ h o e. stopped_rests r.status t)))
  | inr f ↦
      elim (Bool-cases (not (text_eq r.organizer operator) && not (text_eq r.organizer speaker))) [
        | inl t ↦
            (r.organizer, (active, (if_of_eq _ _ f ∙ if_of_eq _ _ t, λ h o e. absurd (cc (e, o)))))
        | inr n ↦ ([], (waiting, (if_of_eq _ _ f ∙ if_of_eq _ _ n, λ h o e. refl)))
      ]
]
