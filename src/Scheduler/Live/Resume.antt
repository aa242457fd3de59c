-- ===== src/Scheduler/Live/Resume.antt =====
-- A client that resumes after the last event it saw gets every later one.
use mathlib.Core.Path.{subst}
use ahsir.Prelude.{
  if_of_eq, sym, ◌∙◌, ap, ◌%◌, inr, inl, length-append, Bool-cases, drop, if◌then◌else◌, ◌++◌, ◌<◌,
  length, ◌+◌, ◌≤◌, [], ◌∷◌, ℕ, ◌≡◌, some, arith, refl, false, suc, zero, List,
}
use ahsir.Prelude.Decimal.{u64}
use ahsir.Scheduler.Live.{
  u64, LiveEventHub, snapshot, Table, stamped, record_event, publish, max_live_events_per_context,
  LiveContext, Text, trim, LiveEvent, recorded, snapshot_after, start_after,
}
use ahsir.Prelude.Table.{get-put_self, get, Table}
use ahsir.Prelude.Text.{Text-discrete, is_empty, text_eq, Text}

start_after-snoc :
    (after : Text) (i s : ℕ) (evs : List LiveEvent) (ev : LiveEvent)
    → text_eq ev.id after ≡ false
    → start_after after i s (evs ++ (ev ∷ [])) ≡ start_after after i s evs
unfolding start_after
start_after-snoc after i s [] ev n = ground arith
start_after-snoc after i s (e ∷ evs) ev n = start_after-snoc after (suc i) _ evs ev n

start_after-le :
    (after : Text) (i s : ℕ) (evs : List LiveEvent)
    → s ≤ i
    → start_after after i s evs ≤ i + length evs
unfolding start_after
start_after-le after i s [] h = omega arith
start_after-le after i s (e ∷ evs) h = ground (
  arith,
  start_after-le after (suc i) (if text_eq e.id after then suc i else s) evs (ground arith),
)

drop-snoc :
    (n : ℕ) (evs : List LiveEvent) (ev : LiveEvent)
    → n ≤ length evs
    → drop n (evs ++ (ev ∷ [])) ≡ drop n evs ++ (ev ∷ [])
drop-snoc zero evs ev h = refl
drop-snoc (suc n) [] ev h = absurd (omega arith)
drop-snoc (suc n) (e ∷ evs) ev h = drop-snoc n evs ev (omega arith)

snapshot-snoc :
    (after : Text) (c d : LiveContext) (ev : LiveEvent)
    → d.events ≡ c.events ++ (ev ∷ [])
    → text_eq ev.id after ≡ false
    → snapshot_after (some d) after ≡ snapshot_after (some c) after ++ (ev ∷ [])
unfolding snapshot_after
snapshot-snoc after c d ev e n = elim (Bool-cases (is_empty after)) [
  | inl all ↦ rw (e, all) refl
  | inr later ↦
      rw (e, later, start_after-snoc after 0 0 c.events ev n)
        (drop-snoc (start_after after 0 0 c.events) c.events ev
          (ground (arith, start_after-le after 0 0 c.events (omega arith))))
]

recorded-events :
    (ev : LiveEvent) (c : LiveContext)
    → length c.events < max_live_events_per_context
    → (recorded ev c).events ≡ c.events ++ (ev ∷ [])
unfolding recorded trim
recorded-events ev c h = ground (arith, length-append c.events (ev ∷ []))

get-record_event :
    (ev : LiveEvent) (c : LiveContext) (m : Table Text LiveContext)
    → get Text-discrete ev.context_id m ≡ some c
    → get Text-discrete ev.context_id (record_event ev m) ≡ some (recorded ev c)
unfolding record_event
get-record_event ev c m found =
    rw (found, record_event) (get-put_self Text-discrete ev.context_id (recorded ev c) m)

-- A context that is not full shows, after an event published in it, what it showed after the same
-- id and then the new event, unless the id is the new event's own.
pub snapshot-publish :
    (now : ℕ) (ev : LiveEvent) (h : LiveEventHub) (c : LiveContext) (after : Text)
    → is_empty ev.context_id ≡ false
    → get Text-discrete ev.context_id h.contexts ≡ some c
    → length c.events < max_live_events_per_context
    → let (q, done) = publish now ev h in
      text_eq done.id after ≡ false
      → snapshot ev.context_id after q ≡ snapshot ev.context_id after h ++ (done ∷ [])
unfolding publish stamped snapshot
snapshot-publish now ev h c after e found room =
    subst
      (λ (r : LiveEventHub × LiveEvent).
        text_eq r.1.id after ≡ false
        → snapshot ev.context_id after r.0 ≡ snapshot ev.context_id after h ++ (r.1 ∷ []))
      (sym (if_of_eq _ _ e)) (λ n. shown n)
  where
    done : LiveEvent
    done = stamped now ((h.seq + 1) % u64) ev

    shown :
        text_eq done.id after ≡ false
        → snapshot_after (get Text-discrete ev.context_id (record_event done h.contexts)) after
          ≡ snapshot_after (get Text-discrete ev.context_id h.contexts) after ++ (done ∷ [])
    shown n =
        ap (λ o. snapshot_after o after) (get-record_event done c h.contexts found)
        ∙ (snapshot-snoc after c (recorded done c) done (recorded-events done c room) n
            ∙ ap (λ o. snapshot_after o after ++ (done ∷ [])) (sym found))
