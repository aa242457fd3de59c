-- ===== src/Scheduler/Rooms/Seen.antt =====
-- What a restart reads from the log: the turns, and how far each speaker has read.
use mathlib.Core.Path.{subst}
use ahsir.Scheduler.Rooms.Log.{
  is_participant, reschedule_relay, replay_line, RoomRecord, retry, replay, reschedule, set_seen,
  seen_table,
}
use ahsir.Scheduler.Rooms.Room.{
  waiting, last_turn, is_stopped, RoomMode, schedule_next, relay, roundtable, is_good, RoomTurn,
  seen_of, Room,
}
use ahsir.Prelude.{
  if_of_eq, sym, if_neg, if_pos, Bool-cases, none, some, ◌∙◌, ap, length, ◌+◌, ite, inr, inl,
  if◌then◌else◌, ◌++◌, ◌⊎◌, Option, ◌≡◌, List, ℕ, suc, [], ◌∷◌, arith, refl,
}
use ahsir.Scheduler.Rooms.Schedule.{schedule_next-Scheduled}
use ahsir.Prelude.Table.{get-put, put, Table}
use ahsir.Prelude.Text.{Text-discrete, Text}
use ahsir.Scheduler.Rooms.Mentions.{In}

pub seen_table_snoc :
    (i : ℕ) (ts : List RoomTurn) (t : RoomTurn) (m : Table Text ℕ)
    → seen_table i (ts ++ (t ∷ [])) m ≡ (
        if is_good t
        then put Text-discrete t.speaker (suc (i + length ts)) (seen_table i ts m)
        else seen_table i ts m)
unfolding seen_table
seen_table_snoc i [] t m =
    ap (λ k. if is_good t then put Text-discrete t.speaker (suc k) m else m) (omega arith)
seen_table_snoc i (u ∷ ts) t m =
    let m1 = if is_good u then put Text-discrete u.speaker (suc i) m else m in
    seen_table_snoc (suc i) ts t m1
    ∙ ap
        (λ k.
          if is_good t
          then put Text-discrete t.speaker (suc k) (seen_table (suc i) ts m1)
          else seen_table (suc i) ts m1)
        (omega arith)

pub seen_of-put :
    (p q : Text) (n : ℕ) (m : Table Text ℕ)
    → seen_of p (put Text-discrete q n m) ≡ ite (Text-discrete q p) n (seen_of p m)
seen_of-put p q n m = ground (arith, get-put Text-discrete q p n m)

pub seen_of-set_seen :
    (ps : List Text) (seen m : Table Text ℕ) (p : Text)
    → In p ps ⊎ (seen_of p m ≡ seen_of p seen)
    → seen_of p (set_seen ps seen m) ≡ seen_of p seen
unfolding set_seen
seen_of-set_seen [] seen m p (inl i) = elim i [ ]
seen_of-set_seen [] seen m p (inr e) = e
seen_of-set_seen (q ∷ ps) seen m p h =
    seen_of-set_seen ps seen (put Text-discrete q (seen_of q seen) m) p (elim (Text-discrete q p) [
      | yes e ↦
          inr
            (seen_of-put p q _ m ∙ (if_pos (Text-discrete q p) e _ _ ∙ ap (λ k. seen_of k seen) e))
      | no n ↦ elim h [
        | inl (inl e) ↦ absurd (n e)
        | inl (inr i) ↦ inl i
        | inr e ↦ inr (seen_of-put p q _ m ∙ (if_neg (Text-discrete q p) n _ _ ∙ e))
      ]
    ])

-- A change that leaves what the messages to the speakers are read from.
abbrev pub Kept : Room → Room → Type 0
Kept r r' = (r'.transcript ≡ r.transcript) × (r'.last_seen ≡ r.last_seen)

schedule_next-Kept :
    (speaker : Text) (mentions : List Text) (r : Room) → Kept r (schedule_next speaker mentions r)
schedule_next-Kept speaker mentions r =
    let (x, (y, (same, posed))) = schedule_next-Scheduled speaker mentions r in
    subst (Kept r) (sym same) (refl, refl)

retry-Kept : (last : RoomTurn) (r : Room) → Kept r (retry last r)
unfolding retry
retry-Kept last r = elim (Bool-cases (is_good last)) [
  | inl t ↦
      subst (Kept r) (sym (if_of_eq _ _ t))
        (schedule_next-Kept last.speaker last.mentions (record r { status = waiting }))
  | inr f ↦ elim (Bool-cases (is_participant last.speaker r)) [
    | inl t ↦ subst (Kept r) (sym (if_of_eq _ _ f ∙ if_of_eq _ _ t)) (refl, refl)
    | inr g ↦ subst (Kept r) (sym (if_of_eq _ _ f ∙ if_of_eq _ _ g)) (refl, refl)
  ]
]

relay-Kept : (o : Option RoomTurn) (r : Room) → Kept r (reschedule_relay o r)
unfolding reschedule_relay
relay-Kept none r = elim (Bool-cases (is_stopped r.status)) [
  | inl t ↦ subst (Kept r) (sym (if_of_eq _ _ t)) (refl, refl)
  | inr f ↦ subst (Kept r) (sym (if_of_eq _ _ f)) (refl, refl)
]
relay-Kept (some last) r = elim (Bool-cases (is_stopped r.status)) [
  | inl t ↦ subst (Kept r) (sym (if_of_eq _ _ t)) (refl, refl)
  | inr f ↦ subst (Kept r) (sym (if_of_eq _ _ f)) (retry-Kept last r)
]

reschedule_by : (k : RoomMode) (r : Room) → r.mode ≡ k → Kept r (reschedule r)
unfolding reschedule
reschedule_by roundtable r e = rw (reschedule, e) (refl, refl)
reschedule_by relay r e = rw (reschedule, e) (relay-Kept (last_turn r.transcript) r)

pub reschedule-Kept : (r : Room) → Kept r (reschedule r)
reschedule-Kept r = reschedule_by r.mode r refl

pub replay_snoc :
    (id : Text) (ls : List RoomRecord) (l : RoomRecord) (o : Option Room)
    → replay id (ls ++ (l ∷ [])) o ≡ replay_line id l (replay id ls o)
unfolding replay
replay_snoc id [] l o = refl
replay_snoc id (k ∷ ls) l o = replay_snoc id ls l (replay_line id k o)
