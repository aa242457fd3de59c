-- ===== src/Scheduler/Rooms/Parks.antt =====
-- The drive of a relay room ends.
use mathlib.Core.Path.{subst}
use ahsir.Scheduler.Rooms.Schedule.{
  All_at, idle_rests, schedule_next-Scheduled, is_active, is_stop, Posed, Named,
}
use ahsir.Scheduler.Rooms.Room.{
  error_turn, reply_turn, parse_mentions, settle_error, waiting, settle_reply, is_stopped, stop,
  take_floor, Room,
}
use ahsir.Prelude.{
  length_snoc, ◌++◌, if_of_eq, ◌∙◌, sym, ap, Option, length-append, ◌⊎◌, leb, inr, inl, ◌||◌,
  Bool-cases, ◌+◌, ◌≤◌, ◌<◌, length, ◌-◌, some, false, All, true, ◌≡◌, List, ℕ, zero, suc, [], ◌∷◌,
  arith, refl,
}
use ahsir.Scheduler.Rooms.Mentions.{All-map, parse_mentions-Distinct}
use ahsir.Prelude.Text.{Text-discrete, is_empty, Text}
use ahsir.Prelude.Table.{put}
use ahsir.Scheduler.Rooms.Relay.{
  asked, drive_turn, Reply, settle, failed, replied, says, stops, obey, Visit, drive, obey_all,
  Command,
}

module _ (lower : Text → Text) (tokens : Text → List Text) where
  -- Stops alone leave a room as it is, or stop it.
  pub obey_all-stops :
      (cs : List Command) (r : Room)
      → All (λ c. is_stop c ≡ true) cs
      → (obey_all lower tokens cs r ≡ r) ⊎ (obey_all lower tokens cs r ≡ stop r)
  unfolding obey_all obey stop
  obey_all-stops [] r h = inl refl
  obey_all-stops (stops ∷ cs) r h = elim (obey_all-stops cs (stop r) h.1) [
    | inl e ↦ inr e
    | inr e ↦ inr e
  ]
  obey_all-stops (says b s n o ∷ cs) r h = absurd (cc)

  abbrev pub held : Visit → Room → Room
  held v r = obey_all lower tokens v.meanwhile (record r { next = []; speaking = r.next })

  module _ (rest : Room → Option Room) (v : Visit) (r : Room) where
    turn_idle :
        is_stopped r.status || is_empty r.next ≡ true
        → drive_turn lower tokens rest v (asked r) (take_floor r)
          ≡ some (record r { running = false })
    unfolding drive_turn take_floor
    turn_idle t = ap (drive_turn lower tokens rest v (asked r)) (if_of_eq _ _ t)

    turn_full :
        is_stopped r.status || is_empty r.next ≡ false
        → leb r.max_chain r.chain ≡ true
        → drive_turn lower tokens rest v (asked r) (take_floor r)
          ≡ some (record r { status = waiting; next = []; running = false })
    unfolding drive_turn take_floor
    turn_full f t = ap (drive_turn lower tokens rest v (asked r)) (if_of_eq _ _ f ∙ if_of_eq _ _ t)

    turn_speaks :
        is_stopped r.status || is_empty r.next ≡ false
        → leb r.max_chain r.chain ≡ false
        → drive_turn lower tokens rest v (asked r) (take_floor r)
          ≡ settle lower tokens rest r.next (v.answer (asked r)) (held v r)
    unfolding drive_turn take_floor
    turn_speaks f g =
        ap (drive_turn lower tokens rest v (asked r)) (if_of_eq _ _ f ∙ if_of_eq _ _ g)

  -- A drive that has returned, and how much it has said.
  abbrev pub Ends : Room → Option Room → Type 0
  Ends r o =
      (r' : Room) × ((o ≡ some r')
        × ((r'.running ≡ false)
            × ((is_active r'.status ≡ false)
                × (length r'.transcript ≤ length r.transcript + (r.max_chain - r.chain)))))

  -- The held room after the turn, when the operators only stop it.
  abbrev Still : Room → Room → Type 0
  Still r r' =
      (r'.transcript ≡ r.transcript)
      × ((r'.chain ≡ r.chain)
          × ((r'.max_chain ≡ r.max_chain)
              × ((r'.participants ≡ r.participants) × (r'.organizer ≡ r.organizer))))

  held-Still : (v : Visit) (r : Room) → All (λ c. is_stop c ≡ true) v.meanwhile → Still r (held v r)
  unfolding stop
  held-Still v r q =
      elim (obey_all-stops v.meanwhile (record r { next = []; speaking = r.next }) q) [
        | inl e ↦ subst (Still r) (sym e) (refl, (refl, (refl, (refl, refl))))
        | inr e ↦ subst (Still r) (sym e) (refl, (refl, (refl, (refl, refl))))
      ]

  settle_error-Ends :
      (speaker m : Text) (now : ℕ) (r r' : Room)
      → Still r r'
      → leb r.max_chain r.chain ≡ false
      → Ends r (some (settle_error speaker m now r'))
  unfolding settle_error
  settle_error-Ends speaker m now r r' s g =
      let said =
        length_snoc r'.transcript (error_turn speaker m now) ∙ ap (λ ts. suc (length ts)) s.0 in
      (settle_error speaker m now r', (refl, (refl, (refl, ground arith))))

  -- A turn's reply, after which the loop goes on.
  abbrev Answered : Room → Room → Type 0
  Answered r u =
      Posed u
      × (Named u
          × ((length u.transcript ≡ suc (length r.transcript))
              × ((u.chain ≡ suc r.chain) × (u.max_chain ≡ r.max_chain))))

  settle_reply-Answered :
      (speaker reply : Text) (now : ℕ) (r : Room)
      → Named r
      → Answered r (settle_reply lower tokens speaker reply now r)
  unfolding settle_reply
  settle_reply-Answered speaker reply now r n =
      let mentions = parse_mentions lower tokens reply r.participants speaker in
      let turn = reply_turn lower tokens speaker reply now r in
      let said = r.transcript ++ (turn ∷ []) in
      let (x, (y, (same, posed))) = schedule_next-Scheduled speaker mentions (record r {
        speaking = [];
        transcript = said;
        last_seen = put Text-discrete speaker (length said) r.last_seen;
        chain = suc r.chain;
      }) in
      subst (Answered r) (sym same) (
        posed
            (All-map _ _ _ (λ m f. All_at _ m r.participants n.0 f.0)
              (parse_mentions-Distinct lower tokens reply r.participants speaker).0)
            n.1,
        (n, (ground (arith, length-append r.transcript (turn ∷ [])), (refl, refl))),
      )

  settle-Ends :
      (rest : Room → Option Room) (fuel : ℕ) (a : Reply) (r r' : Room)
      → ((u : Room) → Posed u → Named u → u.max_chain - u.chain < fuel → Ends u (rest u))
      → Still r r'
      → Named r
      → leb r.max_chain r.chain ≡ false
      → r.max_chain - r.chain < suc fuel
      → Ends r (settle lower tokens rest r.next a r')
  unfolding settle
  settle-Ends rest fuel (failed m now) r r' ih s n g h = settle_error-Ends r.next m now r r' s g
  settle-Ends rest fuel (replied m now) r r' ih s n g h =
      let (transcript, (chain, (max, (participants, organizer)))) = s in
      let named : Named r' = (
        subst (All (λ p. is_empty p ≡ false)) (sym participants) n.0,
        ap is_empty organizer ∙ n.1,
      ) in
      let (posed, (kept, (grown, (counted, bounded)))) =
        settle_reply-Answered r.next m now r' named in
      let more = ap length transcript in
      let (u, (same, (rests, (parked, short)))) =
        ih (settle_reply lower tokens r.next m now r') posed kept (ground arith) in
      (u, (same, (rests, (parked, ground arith))))

  -- When the operators do no more than stop the room, the drive of a relay room whose participants
  -- and organizer have names that are not empty, and which is not active unless it has a next
  -- speaker, returns after at most as many turns as the chain has left; no drive is marked as running
  -- then, the room is not active, and its transcript has grown by no more than these turns.
  pub drive-Ends :
      (fuel : ℕ) (visit : ℕ → Visit) (k : ℕ) (r : Room)
      → ((i : ℕ) → All (λ c. is_stop c ≡ true) (visit i).meanwhile)
      → Posed r
      → Named r
      → r.max_chain - r.chain < fuel
      → Ends r (drive lower tokens fuel visit k r)
  unfolding drive take_floor
  drive-Ends zero visit k r q p n h = absurd (omega (arith, h))
  drive-Ends (suc fuel) visit k r q p n h =
      let rest : Room → Option Room = drive lower tokens fuel visit (suc k) in
      elim (Bool-cases (is_stopped r.status || is_empty r.next)) [
        | inl t ↦ (
          record r { running = false },
          (turn_idle rest (visit k) r t, (refl, (idle_rests r p t, omega arith))),
        )
        | inr f ↦ elim (Bool-cases (leb r.max_chain r.chain)) [
          | inl t ↦ (
            record r { status = waiting; next = []; running = false },
            (turn_full rest (visit k) r f t, (refl, (refl, omega arith))),
          )
          | inr g ↦ subst (Ends r) (sym (turn_speaks rest (visit k) r f g)) (
              settle-Ends rest fuel ((visit k).answer (asked r)) r (held (visit k) r)
                (λ u p' n' h'. drive-Ends fuel visit (suc k) u q p' n' h')
                (held-Still (visit k) r (q k)) n g h)
        ]
      ]
