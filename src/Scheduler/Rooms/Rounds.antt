-- ===== src/Scheduler/Rooms/Rounds.antt =====
-- The drive of a roundtable ends.
use mathlib.Core.Path.{subst}
use ahsir.Prelude.{
  ◌++◌, if◌then◌else◌, ◌∙◌, if_of_eq, ◌||◌, Bool-cases, ap, inr, sym, length_snoc, inl, ◌*◌, ◌+◌,
  Bool, ◌≤◌, ◌-◌, ◌<◌, All, drop, length, ◌≡◌, Option, List, leb, ℕ, zero, suc, [], ◌∷◌, some, true,
  false, arith, refl,
}
use ahsir.Scheduler.Rooms.Roundtable.{
  summary, post_summary, open_turn, end_round, Floor, go_on, take_round, iterate, settle_speech,
  settle_turn, drive_roundtable, close_round, Iteration,
}
use ahsir.Prelude.Text.{is_empty, Text}
use ahsir.Scheduler.Rooms.Parks.{obey_all-stops}
use ahsir.Scheduler.Rooms.Schedule.{stopped_rests, is_stop, is_active}
use ahsir.Scheduler.Rooms.Room.{waiting, is_stopped, error_turn, settle_error, stop, Room}
use ahsir.Scheduler.Rooms.Relay.{replied, failed, obey_all, Reply, Command}

drop_next :
    (k : ℕ) (xs : List Text) (x : Text) (ys : List Text)
    → drop k xs ≡ x ∷ ys
    → length (drop k xs) ≡ suc (length (drop (suc k) xs))
drop_next zero [] x ys e = absurd (cc)
drop_next zero (z ∷ zs) x ys e = refl
drop_next (suc k) [] x ys e = absurd (cc)
drop_next (suc k) (z ∷ zs) x ys e = drop_next k zs x ys e

-- One round less: `n` speakers and a consolidation.
round_less : (b k n : ℕ) → leb b k ≡ false → (b - k) * suc n ≡ suc n + (b - suc k) * suc n
round_less b k n f =
    let more : b - k ≡ suc (b - suc k) = ground arith in
    let scaled = ap (λ m. m * suc n) more in omega (arith, scaled)

-- The iterations that a roundtable of `n` participants has left, less one.
abbrev pub iterations_left : ℕ → Room → ℕ
iterations_left n r = length (drop r.cursor r.order) + (r.budget - suc r.round) * suc n

module _ (lower : Text → Text) (tokens : Text → List Text) (upper trim : Text → Text) where
  -- A drive that has returned, after at most `b` turns.
  abbrev pub Returns : ℕ → Room → Option Room → Type 0
  Returns b r o =
      (r' : Room) × ((o ≡ some r')
        × ((r'.running ≡ false)
            × ((is_active r'.status ≡ false) × (length r'.transcript ≤ length r.transcript + b))))

  -- What a stop leaves.
  abbrev SameRound : Room → Room → Type 0
  SameRound r r' =
      (r'.transcript ≡ r.transcript)
      × ((r'.order ≡ r.order)
          × ((r'.cursor ≡ r.cursor) × ((r'.round ≡ r.round) × (r'.budget ≡ r.budget))))

  obey_all-SameRound :
      (cs : List Command) (r : Room)
      → All (λ c. is_stop c ≡ true) cs
      → SameRound r (obey_all lower tokens cs r)
  unfolding stop
  obey_all-SameRound cs r q = elim (obey_all-stops lower tokens cs r q) [
    | inl e ↦ subst (SameRound r) (sym e) (refl, (refl, (refl, (refl, refl))))
    | inr e ↦ subst (SameRound r) (sym e) (refl, (refl, (refl, (refl, refl))))
  ]

  -- The rest of the drive, after an iteration.
  abbrev Rest : ℕ → ℕ → (Room → Option Room) → Type 0
  Rest n fuel rest =
      (u : Room) → iterations_left n u < fuel → Returns (suc (iterations_left n u)) u (rest u)

  settle_turn-Returns :
      (rest : Room → Option Room) (n fuel : ℕ) (a : Reply) (r r' : Room) (speaker : Text)
      (waiting_names : List Text)
      → Rest n fuel rest
      → drop r.cursor r.order ≡ speaker ∷ waiting_names
      → SameRound (record r { cursor = suc r.cursor; speaking = speaker }) r'
      → iterations_left n r < suc fuel
      → Returns
          (suc (iterations_left n r))
          r
          (settle_turn lower tokens upper trim rest speaker a r')
  unfolding settle_turn settle_error settle_speech
  settle_turn-Returns rest n fuel (failed m now) r r' speaker ws ih e s h =
      let said = length_snoc r'.transcript (error_turn speaker m now) in
      let same = ap length s.0 in
      (settle_error speaker m now r', (refl, (refl, (refl, ground arith))))
  settle_turn-Returns rest n fuel (replied reply now) r r' speaker ws ih e s h =
      let (transcript, (order, (cursor, (round, budget)))) = s in
      let u : Room = settle_speech speaker reply now r' in
      let left : iterations_left n u
          ≡ length (drop (suc r.cursor) r.order) + (r.budget - suc r.round) * suc n =
        λ i. length (drop (cursor i) (order i)) + (budget i - suc (round i)) * suc n in
      let one = drop_next r.cursor r.order speaker ws e in
      let same : iterations_left n r ≡ suc (iterations_left n u) = omega (arith, one, left) in
      let said : length u.transcript ≡ suc (length r.transcript) =
        length_snoc r'.transcript _ ∙ ap (λ ts. suc (length ts)) transcript in
      let (x, (found, (rests, (parked, short)))) = ih u (omega (arith, same, h)) in
      (x, (found, (rests, (parked, omega (arith, same, said, short)))))

  -- Every stop of the operators during an iteration.
  abbrev pub OnlyStops : Iteration → Type 0
  OnlyStops v = All (λ c. is_stop c ≡ true) v.meanwhile × All (λ c. is_stop c ≡ true) v.afterwards

  -- The end of a round, from the room with the summary.
  end_round-Returns :
      (rest : Room → Option Room) (n fuel : ℕ) (consensus : Bool) (shuffled : List Text)
      (r r3 : Room)
      → Rest n fuel rest
      → length shuffled ≤ n
      → length r3.transcript ≤ suc (length r.transcript)
      → r3.round ≡ suc r.round
      → r3.budget ≡ r.budget
      → iterations_left n r < suc fuel
      → Returns (suc (iterations_left n r)) r (
          go_on lower tokens upper trim rest
            (end_round consensus (suc r.round) r.budget shuffled r3))
  unfolding go_on end_round
  end_round-Returns rest n fuel consensus shuffled r r3 ih l t k b h =
      let P : Room × Bool → Type 0 = λ (p : Room × Bool).
        Returns (suc (iterations_left n r)) r (go_on lower tokens upper trim rest p) in
      elim (Bool-cases (consensus || leb r.budget (suc r.round))) [
        | inl e ↦
            subst P (sym (if_of_eq _ _ e)) (
              record r3 { status = waiting; running = false },
              (refl, (refl, (refl, ground arith))),
            )
        | inr f ↦
            let u : Room = record r3 {
              order = shuffled;
              cursor = 0;
              round_start = length r3.transcript;
            } in
            let again : leb r.budget (suc r.round) ≡ false = ground arith in
            let less = round_less r.budget (suc r.round) n again in
            let left : iterations_left n u
                ≡ length shuffled + (r.budget - suc (suc r.round)) * suc n =
              λ i. length shuffled + (b i - suc (k i)) * suc n in
            let (x, (found, (rests, (parked, short)))) = ih u (omega (arith, left, less, l, h)) in
            subst P (sym (if_of_eq _ _ f))
              (x, (found, (rests, (parked, omega (arith, left, less, l, t, short)))))
      ]

  silent :
      (body : Text) (cs : List Command)
      → All (λ c. is_stop c ≡ true) cs
      → All (λ c. is_stop c ≡ true) (if is_empty body then [] else cs)
  silent [] cs q = tt
  silent (c ∷ body) cs q = q

  close_round-Returns :
      (rest : Room → Option Room) (n fuel : ℕ) (v : Iteration) (r : Room) (c : Text × Bool)
      → Rest n fuel rest
      → OnlyStops v
      → length v.shuffled ≤ n
      → iterations_left n r < suc fuel
      → Returns (suc (iterations_left n r)) r (
          close_round lower tokens upper trim rest v
            (record r { round = suc r.round; speaking = r.moderator })
            c)
  unfolding close_round go_on post_summary
  close_round-Returns rest n fuel v r (body, consensus) ih q l h =
      let r0 : Room = record r { round = suc r.round; speaking = r.moderator } in
      let r1 : Room = obey_all lower tokens v.meanwhile r0 in
      let (transcript, (order, (cursor, (round, budget)))) =
        obey_all-SameRound v.meanwhile r0 q.0 in
      let goes : Room → Option Room = λ (u : Room). go_on lower tokens upper trim rest (
        end_round consensus (suc r.round) r.budget v.shuffled
          (obey_all lower tokens (if is_empty body then [] else v.afterwards) u)) in
      let P : Room × Bool → Type 0 = λ (p : Room × Bool).
        Returns (suc (iterations_left n r)) r (go_on lower tokens upper trim goes p) in
      let same : length r1.transcript ≡ length r.transcript = ap length transcript in
      let ends : (u : Room)
          → length u.transcript ≤ suc (length r.transcript)
          → u.round ≡ r1.round
          → u.budget ≡ r1.budget
          → Returns (suc (iterations_left n r)) r (goes u) =
        λ u k e f.
          let after =
            obey_all-SameRound (if is_empty body then [] else v.afterwards) u
              (silent body v.afterwards q.1) in
          let kept : length
                (obey_all lower tokens (if is_empty body then [] else v.afterwards) u).transcript
              ≡ length u.transcript =
            ap length after.0 in
          end_round-Returns rest n fuel consensus v.shuffled r
            (obey_all lower tokens (if is_empty body then [] else v.afterwards) u) ih l
            (omega (arith, kept, k)) (after.1.1.1.0 ∙ (e ∙ round)) (after.1.1.1.1 ∙ (f ∙ budget))
            h in
      elim (Bool-cases (is_stopped r1.status)) [
        | inl t ↦ subst P (sym (if_of_eq _ _ t)) (
          record r1 { speaking = []; running = false },
          (refl, (refl, (stopped_rests r1.status t, omega (arith, same)))),
        )
        | inr f ↦ elim (Bool-cases (is_empty body)) [
          | inl e ↦
              subst P (sym (if_of_eq _ _ f ∙ if_of_eq _ _ e))
                (ends (record r1 { speaking = [] }) (omega (arith, same)) refl refl)
          | inr e ↦
              let said = length_snoc r1.transcript (summary r.moderator (suc r.round) body v.now) in
              subst P (sym (if_of_eq _ _ f ∙ if_of_eq _ _ e)) (
                ends
                  (record r1 {
                    speaking = [];
                    transcript =
                        r1.transcript ++ (summary r.moderator (suc r.round) body v.now ∷ []);
                  })
                  (omega (arith, same, said)) refl refl)
        ]
      ]

  open_turn-Returns :
      (rest : Room → Option Room) (n fuel : ℕ) (v : Iteration) (r : Room) (left : List Text)
      → drop r.cursor r.order ≡ left
      → Rest n fuel rest
      → OnlyStops v
      → length v.shuffled ≤ n
      → iterations_left n r < suc fuel
      → Returns
          (suc (iterations_left n r))
          r
          (iterate lower tokens upper trim rest v (open_turn r left))
  unfolding iterate open_turn
  open_turn-Returns rest n fuel v r [] e ih q l h = close_round-Returns rest n fuel v r _ ih q l h
  open_turn-Returns rest n fuel v r (speaker ∷ ws) e ih q l h =
      settle_turn-Returns rest n fuel _ r _ speaker ws ih e
        (obey_all-SameRound v.meanwhile (record r { cursor = suc r.cursor; speaking = speaker })
          q.0)
        h

  -- When the operators do no more than stop the room, and each order that is drawn has at most `n`
  -- speakers, the drive of a roundtable returns: its iterations, and the turns that they add, are at
  -- most those left of the round and the speakers and consolidation of each round that the budget
  -- still allows. No drive is marked as running then, and the room is not active.
  pub drive_roundtable-Returns :
      (n fuel : ℕ) (v : ℕ → Iteration) (k : ℕ) (r : Room)
      → ((i : ℕ) → OnlyStops (v i) × (length (v i).shuffled ≤ n))
      → iterations_left n r < fuel
      → Returns (suc (iterations_left n r)) r (drive_roundtable lower tokens upper trim fuel v k r)
  unfolding drive_roundtable take_round iterate
  drive_roundtable-Returns n zero v k r q h = absurd (omega (arith, h))
  drive_roundtable-Returns n (suc fuel) v k r q h =
      let rest : Room → Option Room = drive_roundtable lower tokens upper trim fuel v (suc k) in
      let P : Floor → Type 0 = λ (f : Floor).
        Returns (suc (iterations_left n r)) r (iterate lower tokens upper trim rest (v k) f) in
      elim (Bool-cases (is_stopped r.status)) [
        | inl t ↦
            subst P (sym (if_of_eq _ _ t)) (
              record r { running = false },
              (refl, (refl, (stopped_rests r.status t, ground arith))),
            )
        | inr f ↦ subst P (sym (if_of_eq _ _ f)) (
            open_turn-Returns rest n fuel (v k) r (drop r.cursor r.order) refl
              (λ u l. drive_roundtable-Returns n fuel v (suc k) u q l) (q k).0 (q k).1 h)
      ]
