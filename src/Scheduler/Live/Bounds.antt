-- ===== src/Scheduler/Live/Bounds.antt =====
-- The hub's memory is bounded: each context's events and each subscriber's queue.
use mathlib.Core.Path.{subst}
use mathlib.Core.Option.{some-injective}
use ahsir.Prelude.{
  ◌∙◌, ◌-◌, if_of_eq, length-drop, length-append, if_neg, leb, inr, sym, ℕ_discrete, inl, ◌≤◌,
  if_pos, ◌++◌, length, All, Option-cases, Bool-cases, [], ◌∷◌, ℕ, ◌≡◌, none, some, Option, arith,
  refl, List,
}
use ahsir.Scheduler.Live.{
  max_live_event_contexts, fresh_context, channel_size, oldest_context, max_live_events_per_context,
  make_room, or_fresh, offer, unsubscribe, new_live_event_hub, trim, LiveEvent, LiveContext,
  publish, offer_all, evict_oldest, LiveEventHub, record_event, recorded, subscribe,
}
use ahsir.Prelude.Text.{is_empty, Text-discrete, Text}
use ahsir.Prelude.Table.{put, get, delete, Table}

abbrev Short : LiveContext → Type 0
Short c =
    (length c.events ≤ max_live_events_per_context)
    × All (λ s. length s.1 ≤ channel_size) c.subscribers

-- No context holds more events, and no subscriber waits for more, than the limits.
abbrev pub Bounded : LiveEventHub → Type 0
Bounded h = All (λ e. Short e.1) h.contexts

put-All :
    {K V : Type 0} (dec : Discrete K) (P : V → Type 0) (k : K) (v : V) (m : Table K V)
    → P v
    → All (λ e. P e.1) m
    → All (λ e. P e.1) (put dec k v m)
unfolding put
put-All dec P k v [] p h = (p, tt)
put-All dec P k v ((j, w) ∷ m) p (q, h) = elim (dec j k) [
  | yes e ↦ rw (if_pos _ e) (p, h)
  | no n ↦ rw (if_neg _ n) (q, put-All dec P k v m p h)
]

delete-All :
    {K V : Type 0} (dec : Discrete K) (P : V → Type 0) (k : K) (m : Table K V)
    → All (λ e. P e.1) m
    → All (λ e. P e.1) (delete dec k m)
unfolding delete
delete-All dec P k [] h = tt
delete-All dec P k ((j, w) ∷ m) (q, h) = elim (dec j k) [
  | yes e ↦ rw (if_pos _ e) (delete-All dec P k m h)
  | no n ↦ rw (if_neg _ n) (q, delete-All dec P k m h)
]

get-All :
    {K V : Type 0} (dec : Discrete K) (P : V → Type 0) (k : K) (v : V) (m : Table K V)
    → get dec k m ≡ some v
    → All (λ e. P e.1) m
    → P v
unfolding get
get-All dec P k v [] g h = cc
get-All dec P k v ((j, w) ∷ m) g (q, h) = elim (dec j k) [
  | yes e ↦ subst P (some-injective _ _ (sym (if_pos (dec j k) e (some w) (get dec k m)) ∙ g)) q
  | no n ↦ get-All dec P k v m (sym (if_neg (dec j k) n (some w) (get dec k m)) ∙ g) h
]

trim-short : (evs : List LiveEvent) → length (trim evs) ≤ max_live_events_per_context
unfolding trim
trim-short evs = ground (arith, length-drop (length evs - max_live_events_per_context) evs)

offer-short :
    (ev : LiveEvent) (ch : List LiveEvent)
    → length ch ≤ channel_size
    → length (offer ev ch) ≤ channel_size
unfolding offer
offer-short ev ch h = ground (arith, length-append ch (ev ∷ []))

offer_all-short :
    (ev : LiveEvent) (m : Table ℕ (List LiveEvent))
    → All (λ s. length s.1 ≤ channel_size) m
    → All (λ s. length s.1 ≤ channel_size) (offer_all ev m)
unfolding offer_all
offer_all-short ev [] h = tt
offer_all-short ev ((id, ch) ∷ m) (p, h) = (offer-short ev ch p, offer_all-short ev m h)

recorded-Short : (ev : LiveEvent) (c : LiveContext) → Short c → Short (recorded ev c)
unfolding recorded
recorded-Short ev c (p, h) =
    (trim-short (c.events ++ (ev ∷ [])), offer_all-short ev c.subscribers h)

evict_oldest-Short :
    (m : Table Text LiveContext) → All (λ e. Short e.1) m → All (λ e. Short e.1) (evict_oldest m)
unfolding evict_oldest
evict_oldest-Short m h = elim (Bool-cases (is_empty (oldest_context m ([], 0)).0)) [
  | inl e ↦ subst (All (λ e. Short e.1)) (sym (if_of_eq _ _ e)) h
  | inr e ↦
      subst (All (λ e. Short e.1)) (sym (if_of_eq _ _ e)) (delete-All Text-discrete Short _ m h)
]

make_room-Short :
    (m : Table Text LiveContext) → All (λ e. Short e.1) m → All (λ e. Short e.1) (make_room m)
make_room-Short m h = elim (Bool-cases (leb max_live_event_contexts (length m))) [
  | inl e ↦ subst (All (λ e. Short e.1)) (sym (if_of_eq _ _ e)) (evict_oldest-Short m h)
  | inr e ↦ subst (All (λ e. Short e.1)) (sym (if_of_eq _ _ e)) h
]

record_event-Short :
    (ev : LiveEvent) (m : Table Text LiveContext)
    → All (λ e. Short e.1) m
    → All (λ e. Short e.1) (record_event ev m)
unfolding record_event
record_event-Short ev m h = elim (Option-cases (get Text-discrete ev.context_id m)) [
  | inl missing ↦
      rw (missing, record_event)
        (put-All Text-discrete Short ev.context_id _ (make_room m)
          (recorded-Short ev (fresh_context 0) (omega arith, tt)) (make_room-Short m h))
  | inr (c, found) ↦
      rw (found, record_event)
        (put-All Text-discrete Short ev.context_id _ m
          (recorded-Short ev c (get-All Text-discrete Short ev.context_id c m found h)) h)
]

publish-Bounded :
    (now : ℕ) (ev : LiveEvent) (h : LiveEventHub) → Bounded h → Bounded (publish now ev h).0
unfolding publish
publish-Bounded now ev h b = elim (Bool-cases (is_empty ev.context_id)) [
  | inl e ↦ subst (λ (r : LiveEventHub × LiveEvent). Bounded r.0) (sym (if_of_eq _ _ e)) b
  | inr e ↦
      subst (λ (r : LiveEventHub × LiveEvent). Bounded r.0) (sym (if_of_eq _ _ e))
        (record_event-Short _ h.contexts b)
]

or_fresh-Short :
    (now : ℕ) (cid : Text) (h : LiveEventHub)
    → Bounded h
    → Short (or_fresh now (get Text-discrete cid h.contexts))
or_fresh-Short now cid h b = elim (Option-cases (get Text-discrete cid h.contexts)) [
  | inl e ↦ rw e (omega arith, tt)
  | inr (c, e) ↦ rw e (get-All Text-discrete Short cid c h.contexts e b)
]

subscribe-Bounded :
    (now : ℕ) (cid after : Text) (h : LiveEventHub)
    → Bounded h
    → Bounded (subscribe now cid after h).0
unfolding subscribe
subscribe-Bounded now cid after h b =
    let s = or_fresh-Short now cid h b in
    put-All Text-discrete Short cid _ h.contexts
      (s.0, put-All ℕ_discrete (λ q. length q ≤ channel_size) _ [] _ (omega arith) s.1) b

without : ℕ → Option LiveContext → LiveEventHub → Text → LiveEventHub
without id none h cid = h
without id (some c) h cid = record h {
  contexts =
      put Text-discrete cid (record c { subscribers = delete ℕ_discrete id c.subscribers })
        h.contexts;
}

unsubscribe_by_lookup :
    (cid : Text) (id : ℕ) (h : LiveEventHub)
    → unsubscribe cid id h ≡ without id (get Text-discrete cid h.contexts) h cid
unfolding unsubscribe without
unsubscribe_by_lookup cid id h = ground arith

without-Bounded :
    (cid : Text) (id : ℕ) (h : LiveEventHub) (o : Option LiveContext)
    → get Text-discrete cid h.contexts ≡ o
    → Bounded h
    → Bounded (without id o h cid)
unfolding without
without-Bounded cid id h none e b = b
without-Bounded cid id h (some c) e b =
    let s = get-All Text-discrete Short cid c h.contexts e b in
    put-All Text-discrete Short cid _ h.contexts
      (s.0, delete-All ℕ_discrete (λ q. length q ≤ channel_size) id c.subscribers s.1) b

unsubscribe-Bounded :
    (cid : Text) (id : ℕ) (h : LiveEventHub) → Bounded h → Bounded (unsubscribe cid id h)
unsubscribe-Bounded cid id h b =
    subst Bounded (sym (unsubscribe_by_lookup cid id h))
      (without-Bounded cid id h (get Text-discrete cid h.contexts) refl b)

pub data Use : Type 0 where
  publishes : ℕ → LiveEvent → Use
  subscribes : ℕ → Text → Text → Use
  unsubscribes : Text → ℕ → Use

unfoldable pub use_hub : Use → LiveEventHub → LiveEventHub
use_hub (publishes now ev) h = (publish now ev h).0
use_hub (subscribes now cid after) h = (subscribe now cid after h).0
use_hub (unsubscribes cid id) h = unsubscribe cid id h

unfoldable pub use_all : List Use → LiveEventHub → LiveEventHub
use_all [] h = h
use_all (u ∷ us) h = use_all us (use_hub u h)

use_hub-Bounded : (u : Use) (h : LiveEventHub) → Bounded h → Bounded (use_hub u h)
unfolding use_hub
use_hub-Bounded (publishes now ev) h b = publish-Bounded now ev h b
use_hub-Bounded (subscribes now cid after) h b = subscribe-Bounded now cid after h b
use_hub-Bounded (unsubscribes cid id) h b = unsubscribe-Bounded cid id h b

use_all-Bounded_from : (us : List Use) (h : LiveEventHub) → Bounded h → Bounded (use_all us h)
unfolding use_all
use_all-Bounded_from [] h b = b
use_all-Bounded_from (u ∷ us) h b = use_all-Bounded_from us (use_hub u h) (use_hub-Bounded u h b)

-- After any history of publications, subscriptions and cancellations, no context holds more than
-- 256 events and no subscriber's channel holds more than 64.
pub use_all-Bounded : (us : List Use) → Bounded (use_all us new_live_event_hub)
unfolding new_live_event_hub
use_all-Bounded us = use_all-Bounded_from us new_live_event_hub tt
