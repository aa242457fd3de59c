-- ===== src/Scheduler/Rooms/Restart.antt =====
-- A room that is loaded from its log after a restart.
use ahsir.Scheduler.Rooms.History.{Logged, append_pending}
use mathlib.Core.List.{append_assoc}
use mathlib.Core.Path.{subst}
use ahsir.Scheduler.Rooms.Room.{
  parse_mentions, is_stopped, RoomStatus, reply_turn, settle_reply, is_good, take_floor, RoomTurn,
  seen_of, Room,
}
use ahsir.Scheduler.Rooms.Schedule.{schedule_next-Scheduled}
use ahsir.Prelude.{
  if_neg, leb, ◌||◌, if_of_eq, length_snoc, ◌≢◌, true, Bool-cases, sym, none, some, ◌∙◌, ap, length,
  ◌+◌, false, ite, inr, inl, ◌++◌, Option, ◌≡◌, List, ℕ, suc, [], ◌∷◌, arith, refl,
}
use ahsir.Scheduler.Rooms.Seen.{seen_of-put, seen_table_snoc, replay_snoc}
use ahsir.Scheduler.Rooms.Log.{turn, status, replay_line, RoomRecord, replay, seen_table}
use ahsir.Prelude.Table.{put, Table}
use ahsir.Prelude.Text.{is_empty, Text-discrete, Text}
use ahsir.Scheduler.Rooms.Mentions.{In}

-- An append in turn that succeeds moves a record from the pending ones to the log.
append_first :
    (lines pending : List RoomRecord)
    → let (done, rest) = append_pending 0 true lines pending in done ++ rest ≡ lines ++ pending
unfolding append_pending
append_first lines [] = refl
append_first lines (l ∷ ls) = append_assoc lines (l ∷ []) ls

module _ (lower : Text → Text) (tokens : Text → List Text) where
  -- Both the live room and the log know how far each participant has read.
  abbrev pub Levelled : List Text → List RoomTurn → Table Text ℕ → Type 0
  Levelled ps ts ls = (p : Text) → In p ps → seen_of p ls ≡ seen_of p (seen_table 0 ts [])

  pub Levelled-bad :
      (ps : List Text) (ts : List RoomTurn) (ls : Table Text ℕ) (t : RoomTurn)
      → is_good t ≡ false
      → Levelled ps ts ls
      → Levelled ps (ts ++ (t ∷ [])) ls
  Levelled-bad ps ts ls t f h p i =
      h p i ∙ ap (seen_of p) (sym (seen_table_snoc 0 ts t [] ∙ if_of_eq _ _ f))

  pub Levelled-other :
      (ps : List Text) (ts : List RoomTurn) (ls : Table Text ℕ) (t : RoomTurn)
      → is_good t ≡ true
      → (¬ In t.speaker ps)
      → Levelled ps ts ls
      → Levelled ps (ts ++ (t ∷ [])) ls
  Levelled-other ps ts ls t g n h p i =
      let away : t.speaker ≢ p = λ e. n (subst (λ x. In x ps) (sym e) i) in
      h p i
      ∙ sym (
          ap (seen_of p) (seen_table_snoc 0 ts t [] ∙ if_of_eq _ _ g)
          ∙ (seen_of-put p t.speaker _ (seen_table 0 ts [])
              ∙ if_neg (Text-discrete t.speaker p) away _ _))

  pub Levelled-reply :
      (ps : List Text) (ts : List RoomTurn) (ls : Table Text ℕ) (t : RoomTurn)
      → is_good t ≡ true
      → Levelled ps ts ls
      → Levelled ps (ts ++ (t ∷ [])) (put Text-discrete t.speaker (length (ts ++ (t ∷ []))) ls)
  Levelled-reply ps ts ls t g h p i =
      let long : length (ts ++ (t ∷ [])) ≡ suc (0 + length ts) = ground (arith, length_snoc ts t) in
      (seen_of-put p t.speaker _ ls
        ∙ ((λ j. ite (Text-discrete t.speaker p) (long j) (h p i j))
            ∙ sym (seen_of-put p t.speaker _ (seen_table 0 ts []))))
      ∙ sym (ap (seen_of p) (seen_table_snoc 0 ts t [] ∙ if_of_eq _ _ g))

  -- What a log replays to.
  abbrev pub Replayed : Text → List RoomRecord → List Text → List RoomTurn → Type 0
  Replayed id ls ps ts =
      (c : Room) × ((replay id ls none ≡ some c) × ((c.participants ≡ ps) × (c.transcript ≡ ts)))

  pub Replayed-turn :
      (id : Text) (ls ms : List RoomRecord) (ps : List Text) (ts : List RoomTurn) (t : RoomTurn)
      → Replayed id (ls ++ ms) ps ts
      → Replayed id (ls ++ (ms ++ (turn (some t) ∷ []))) ps (ts ++ (t ∷ []))
  unfolding replay_line
  Replayed-turn id ls ms ps ts t (c, (e, (p, k))) =
      subst (λ (us : List RoomRecord). Replayed id us ps (ts ++ (t ∷ [])))
        (append_assoc ls ms (turn (some t) ∷ []))
        (
          record c { transcript = c.transcript ++ (t ∷ []) },
          (
            replay_snoc id (ls ++ ms) (turn (some t)) none ∙ ap (replay_line id (turn (some t))) e,
            (p, ap (λ us. us ++ (t ∷ [])) k),
          ),
        )

  pub Replayed-status :
      (id : Text) (ls ms : List RoomRecord) (ps : List Text) (ts : List RoomTurn) (s : RoomStatus)
      → Replayed id (ls ++ ms) ps ts
      → Replayed id (ls ++ (ms ++ (status s ∷ []))) ps ts
  unfolding replay_line
  Replayed-status id ls ms ps ts s (c, (e, (p, k))) =
      subst (λ (us : List RoomRecord). Replayed id us ps ts) (append_assoc ls ms (status s ∷ []))
        (
          record c { status = s },
          (replay_snoc id (ls ++ ms) (status s) none ∙ ap (replay_line id (status s)) e, (p, k)),
        )

  pub Replayed-append :
      (id : Text) (ls ms : List RoomRecord) (ps : List Text) (ts : List RoomTurn)
      → Replayed id (ls ++ ms) ps ts
      → let (done, rest) = append_pending 0 true ls ms in Replayed id (done ++ rest) ps ts
  Replayed-append id ls ms ps ts k =
      subst (λ (us : List RoomRecord). Replayed id us ps ts) (sym (append_first ls ms)) k

  -- The log and what is still to be appended tell the live room's transcript, and the room's participants are levelled with it.
  abbrev pub Faithful : Text → List Text → Logged → Type 0
  Faithful id ps g =
      (g.room.participants ≡ ps)
      × (Levelled ps g.room.transcript g.room.last_seen
          × Replayed id (g.lines ++ g.pending) ps g.room.transcript)

  -- A room as another is, with these turns and these marks.
  abbrev pub Framed : Room → List RoomTurn → Table Text ℕ → Room → Type 0
  Framed r ts ls r' =
      (r'.participants ≡ r.participants) × ((r'.transcript ≡ ts) × (r'.last_seen ≡ ls))

  pub Faithful-Framed :
      (id : Text) (ps : List Text) (r r' : Room) (ts : List RoomTurn) (ls : Table Text ℕ)
      (lines pending : List RoomRecord)
      → Framed r ts ls r'
      → r.participants ≡ ps
      → Levelled ps ts ls
      → Replayed id (lines ++ pending) ps ts
      → Faithful id ps (record { room = r'; lines = lines; pending = pending })
  Faithful-Framed id ps r r' ts ls lines pending (p, (t, l)) q h k = (
    p ∙ q,
    (
      (λ x i. ap (seen_of x) l ∙ (h x i ∙ ap (λ us. seen_of x (seen_table 0 us [])) (sym t))),
      subst (Replayed id (lines ++ pending) ps) (sym t) k,
    ),
  )

  pub take_floor-Framed : (r : Room) → Framed r r.transcript r.last_seen (take_floor r).0
  unfolding take_floor
  take_floor-Framed r = elim (Bool-cases (is_stopped r.status || is_empty r.next)) [
    | inl t ↦
        subst (λ (u : Room × Option Text). Framed r r.transcript r.last_seen u.0)
          (sym (if_of_eq _ _ t)) (refl, (refl, refl))
    | inr f ↦ elim (Bool-cases (leb r.max_chain r.chain)) [
      | inl t ↦
          subst (λ (u : Room × Option Text). Framed r r.transcript r.last_seen u.0)
            (sym (if_of_eq _ _ f ∙ if_of_eq _ _ t)) (refl, (refl, refl))
      | inr g ↦
          subst (λ (u : Room × Option Text). Framed r r.transcript r.last_seen u.0)
            (sym (if_of_eq _ _ f ∙ if_of_eq _ _ g)) (refl, (refl, refl))
    ]
  ]

  pub settle_reply-Framed :
      (speaker reply : Text) (now : ℕ) (r : Room)
      → let ts = r.transcript ++ (reply_turn lower tokens speaker reply now r ∷ []) in
        Framed r ts
          (put Text-discrete speaker (length ts) r.last_seen)
          (settle_reply lower tokens speaker reply now r)
  unfolding settle_reply
  settle_reply-Framed speaker reply now r =
      let said = r.transcript ++ (reply_turn lower tokens speaker reply now r ∷ []) in
      let (x, (y, (same, posed))) =
        schedule_next-Scheduled speaker (parse_mentions lower tokens reply r.participants speaker)
          (record r {
            speaking = [];
            transcript = said;
            last_seen = put Text-discrete speaker (length said) r.last_seen;
            chain = suc r.chain;
          }) in
      subst (Framed r said (put Text-discrete speaker (length said) r.last_seen)) (sym same)
        (refl, (refl, refl))
