-- ===== src/Scheduler/Rooms/Driven.antt =====
-- A relay room and its drives, in any interleaving of their critical sections
-- (internal/scheduler/rooms.go).
use mathlib.Core.Path.{subst}
use ahsir.Prelude.{
  length, ◌++◌, leb, ◌||◌, ap, ◌∙◌, if_of_eq, inr, inl, ◌&&◌, not, sym, Bool-cases, ◌≡◌, All,
  if◌then◌else◌, Bool, List, Option, ℕ, suc, [], ◌∷◌, arith, refl, none, some, true, false,
}
use ahsir.Prelude.Text.{Text-discrete, is_empty, Text}
use ahsir.Prelude.Table.{put}
use ahsir.Scheduler.Rooms.Room.{
  reply_turn, or_operator, message, waiting, is_stopped, relay, parse_mentions, schedule_next,
  settle_error, settle_reply, stop, open_floor, take_floor, say, Room,
}
use ahsir.Scheduler.Rooms.Schedule.{
  Posed, idle_rests, All_at, schedule_next-Scheduled, is_active, Named,
}
use ahsir.Scheduler.Rooms.Mentions.{parse_mentions-Distinct, All-map}

-- A room with the number of its drives.
abbrev pub Crew : Type 0
Crew = Room × ℕ

-- A `Say`, which may start a drive.
unfoldable pub joined : Crew → Option (Room × Bool) → Crew
joined c none = c
joined (r, n) (some (r', start)) = (r', if start then suc n else n)

-- A drive after its first critical section: it goes on or returns.
unfoldable pub left : ℕ → Room × Option Text → Crew
left n (r, none) = (r, n)
left n (r, some speaker) = (r, suc n)

module _ (lower : Text → Text) (tokens : Text → List Text) where
  -- One critical section of an operator, or of a drive: its first one with no turn in flight, and
  -- its second one at the end of the turn.
  pub data Step : Crew → Crew → Type 0 where
    said :
        (body speaker : Text) (now : ℕ) (shuffled : List Text) (r : Room) (n : ℕ)
        → Step (r, n) (joined (r, n) (say lower tokens body speaker now shuffled r))
    halted : (r : Room) (n : ℕ) → Step (r, n) (stop r, n)
    took : (r : Room) (n : ℕ) → is_empty r.speaking ≡ true → Step (r, suc n) (left n (take_floor r))
    answered :
        (reply : Text) (now : ℕ) (r : Room) (n : ℕ)
        → is_empty r.speaking ≡ false
        → Step (r, suc n) (settle_reply lower tokens r.speaking reply now r, suc n)
    broke :
        (m : Text) (now : ℕ) (r : Room) (n : ℕ)
        → is_empty r.speaking ≡ false
        → Step (r, suc n) (settle_error r.speaking m now r, n)

  pub data Steps : Crew → Crew → Type 0 where
    here : (c : Crew) → Steps c c
    onward : (a b c : Crew) → Step a b → Steps b c → Steps a c

  -- An active room has a next speaker or a turn in flight.
  abbrev pub Poised : Room → Type 0
  Poised r = is_active r.status ≡ true → is_empty r.next ≡ true → is_empty r.speaking ≡ false

  -- There is one drive while the room is marked as running and none else, and an active room is
  -- driven.
  abbrev pub Driven : Crew → Type 0
  Driven (r, n) =
      (n ≡ (if r.running then 1 else 0))
      × ((is_active r.status ≡ true → r.running ≡ true) × Poised r)

  -- A relay room with names.
  abbrev pub Relays : Room → Type 0
  Relays r = Named r × (r.mode ≡ relay)

  schedule_next-active :
      (speaker : Text) (mentions : List Text) (r : Room)
      → Relays r
      → All (λ m. is_empty m ≡ false) mentions
      → let r' = schedule_next speaker mentions r in
        Relays r'
        × ((r'.running ≡ r.running) × (is_active r'.status ≡ true → is_empty r'.next ≡ false))
  schedule_next-active speaker mentions r n h =
      let (x, (y, (same, posed))) = schedule_next-Scheduled speaker mentions r in
      subst
        (λ (u : Room).
          Relays u
          × ((u.running ≡ r.running) × (is_active u.status ≡ true → is_empty u.next ≡ false)))
        (sym same)
        (
          n,
          (
            refl,
            λ a. elim (Bool-cases (is_empty x)) [
              | inl e ↦ let rests = posed h n.0.1 e in absurd (cc)
              | inr e ↦ e
            ],
          ),
        )

  mentions-Named :
      (body self : Text) (r : Room)
      → Named r
      → All (λ m. is_empty m ≡ false) (parse_mentions lower tokens body r.participants self)
  mentions-Named body self r n =
      All-map _ _ _ (λ m f. All_at _ m r.participants n.0 f.0)
        (parse_mentions-Distinct lower tokens body r.participants self).0

  started : (x y : Bool) (n : ℕ) → n ≡ (if y then 1 else 0) → not x && not y ≡ true → suc n ≡ 1
  started x y n c t = ground arith

  woken : (x y : Bool) → x ≡ false → not x && not y ≡ false → y ≡ true
  woken x y e f = ground arith

  open_floor-Driven :
      (speaker : Text) (mentions shuffled : List Text) (r : Room) (n : ℕ)
      → All (λ m. is_empty m ≡ false) mentions
      → Relays r
      → Driven (r, n)
      → let (r', start) = open_floor relay speaker mentions shuffled r in
        Relays r' × Driven (r', if start then suc n else n)
  unfolding open_floor
  open_floor-Driven speaker mentions shuffled r n h d (c, (a, o)) =
      let r1 : Room = schedule_next speaker mentions (record r { chain = 0 }) in
      let (d1, (c1, a1)) = schedule_next-active speaker mentions (record r { chain = 0 }) d h in
      let count : n ≡ (if r1.running then 1 else 0) =
        c ∙ ap (λ (b : Bool). if b then 1 else 0) (sym c1) in
      let poised : Poised r1 = λ e f. let g = a1 e in absurd (cc) in
      let P : Room × Bool → Type 0 =
        λ (u : Room × Bool). Relays u.0 × Driven (u.0, if u.1 then suc n else n) in
      elim (Bool-cases (not (is_empty r1.next) && not r1.running)) [
        | inl t ↦
            subst P (sym (if_of_eq _ _ t))
              (d1, (started (is_empty r1.next) r1.running n count t, ((λ e. refl), poised)))
        | inr f ↦
            subst P (sym (if_of_eq _ _ f))
              (d1, (count, ((λ e. woken (is_empty r1.next) r1.running (a1 e) f), poised)))
      ]

  -- Between turns, an active room has a next speaker.
  at_rest : (r : Room) → is_empty r.speaking ≡ true → Poised r → Posed r
  at_rest r i o f = elim (Bool-cases (is_active r.status)) [
    | inl e ↦ let g = o e f in absurd (cc)
    | inr g ↦ g
  ]

  take_floor-Driven :
      (r : Room) (n : ℕ)
      → is_empty r.speaking ≡ true
      → Relays r
      → Driven (r, suc n)
      → let c = left n (take_floor r) in Relays c.0 × Driven c
  unfolding take_floor left
  take_floor-Driven r n i d (c, (a, o)) =
      let P : Room × Option Text → Type 0 =
        λ (u : Room × Option Text). Relays (left n u).0 × Driven (left n u) in
      let rests = idle_rests r (at_rest r i o) in
      elim (Bool-cases (is_stopped r.status || is_empty r.next)) [
        | inl t ↦ subst P (sym (if_of_eq _ _ t)) (
          d,
          (
            ground arith,
            ((λ e. let f = rests t in absurd (cc)), λ e f. let g = rests t in absurd (cc)),
          ),
        )
        | inr f ↦ elim (Bool-cases (leb r.max_chain r.chain)) [
          | inl t ↦
              subst P (sym (if_of_eq _ _ f ∙ if_of_eq _ _ t))
                (d, (ground arith, ((λ e. absurd (cc)), λ e g. absurd (cc))))
          | inr t ↦
              subst P (sym (if_of_eq _ _ f ∙ if_of_eq _ _ t)) (d, (c, (a, λ e g. ground arith)))
        ]
      ]

  Step-Driven : (a b : Crew) → Step a b → Relays a.0 → Driven a → Relays b.0 × Driven b
  unfolding say settle_reply settle_error stop joined
  Step-Driven _ _ (said body speaker now shuffled r n) d h =
      let P : Option (Room × Bool) → Type 0 =
        λ (u : Option (Room × Bool)). Relays (joined (r, n) u).0 × Driven (joined (r, n) u) in
      let mentions = parse_mentions lower tokens body r.participants [] in
      let start : Room = record r {
        transcript = r.transcript ++ (message lower tokens body speaker now r ∷ []);
      } in
      let who = or_operator lower tokens speaker in
      elim (Bool-cases (is_stopped r.status)) [
        | inl t ↦ subst P (sym (if_of_eq _ _ t)) (d, h)
        | inr f ↦
            subst P
              (sym (if_of_eq _ _ f ∙ ap (λ k. some (open_floor k who mentions shuffled start)) d.1))
              (open_floor-Driven who mentions shuffled start n (mentions-Named body [] r d.0) d h)
      ]
  Step-Driven _ _ (halted r n) d (c, (a, o)) = (d, (c, ((λ e. absurd (cc)), λ e f. absurd (cc))))
  Step-Driven _ _ (took r n i) d h = take_floor-Driven r n i d h
  Step-Driven _ _ (answered reply now r n i) d (c, (a, o)) =
      let said = r.transcript ++ (reply_turn lower tokens r.speaking reply now r ∷ []) in
      let (d1, (c1, a1)) =
        schedule_next-active r.speaking
          (parse_mentions lower tokens reply r.participants r.speaking)
          (record r {
            speaking = [];
            transcript = said;
            last_seen = put Text-discrete r.speaking (length said) r.last_seen;
            chain = suc r.chain;
          })
          d (mentions-Named reply r.speaking r d.0) in
      let run : r.running ≡ true = ground arith in
      (
        d1,
        (
          c ∙ ap (λ (b : Bool). if b then 1 else 0) (sym c1),
          ((λ e. c1 ∙ run), λ e f. let g = a1 e in absurd (cc)),
        ),
      )
  Step-Driven _ _ (broke m now r n i) d (c, (a, o)) =
      (d, (ground arith, ((λ e. absurd (cc)), λ e f. absurd (cc))))

  Steps-Driven : (a b : Crew) → Steps a b → Relays a.0 → Driven a → Driven b
  Steps-Driven _ _ (here c) d h = h
  Steps-Driven _ _ (onward a b c s more) d h =
      let (d1, h1) = Step-Driven a b s d h in Steps-Driven b c more d1 h1

  -- In any interleaving of messages, stops and drives of a relay room that starts at rest, and whose
  -- participants and organizer have names: no two
  -- drives run at a time, the room is marked as running just while one does, and while the room is
  -- active a drive runs, and the room has a next speaker or a turn in flight.
  pub drives_alone :
      (r r' : Room) (n : ℕ)
      → Relays r
      → r.status ≡ waiting
      → r.running ≡ false
      → Steps (r, 0) (r', n)
      → (n ≡ (if r'.running then 1 else 0))
        × ((is_active r'.status ≡ true → r'.running ≡ true) × Poised r')
  drives_alone r r' n d w s steps =
      Steps-Driven (r, 0) (r', n) steps d
        (ground arith, ((λ e. absurd (cc (e, w))), λ e f. absurd (cc (e, w))))
