-- ===== src/Wrapper/Pool/Sessions.antt =====
-- Every provider session is held by one entry or has been closed.
use ahsir.Prelude.Table.{get-put_self, put-Keyed, get, put, Keyed}
use ahsir.Wrapper.Pool.{
  create, evicted_entry, started_entry, close, Started, evict_for_cap, inspect_session, install,
  fresh_entry, store, find, PersistedRecord, Env, Text, PooledEntry, ensure_entry, upsert_persist,
  inspect, SessionPool, forget,
}
use ahsir.Prelude.Total.{get-All, total-put, put-All, weigh, total}
use ahsir.Prelude.Text.{is_empty, Text-discrete, Text}
use ahsir.Prelude.{
  Bool-cases, refl, false, suc, List, inr, ◌+◌, length, inl, Option-cases, All, is_some,
  if◌then◌else◌, ◌∙◌, [], ◌∷◌, ℕ, ◌≡◌, none, some, Option, arith,
}
use ahsir.Wrapper.Pool.Reaper.{upsert_all, forget_all}

abbrev pub holds : PooledEntry → ℕ
holds e = if is_some e.session then 1 else 0

-- An evicted entry has no session.
abbrev pub IsRested : PooledEntry → Type 0
IsRested e = e.active ≡ false → e.session ≡ none

pub record Inv (p : SessionPool) : Type 0 where
  pub keyed : Keyed p.entries
  pub rested : All (λ e. IsRested e.1) p.entries
  pub accounted : total holds p.entries + length p.closed ≡ p.next_session

-- The fields that persistence and callbacks leave alone.
pub record SameSessions (p q : SessionPool) : Type 0 where
  pub entries : q.entries ≡ p.entries
  pub closed : q.closed ≡ p.closed
  pub next_session : q.next_session ≡ p.next_session

pub Inv-same : {p q : SessionPool} → SameSessions p q → Inv p → Inv q
Inv-same {p} {q} s v = record {
  keyed = rw s.entries v.keyed;
  rested = rw s.entries v.rested;
  accounted = rw (s.entries, s.closed, s.next_session) v.accounted;
}

pub upsert_persist-same :
    (v : Env) (k : Text) (r : PersistedRecord) (p : SessionPool)
    → SameSessions p (upsert_persist v k r p)
unfolding upsert_persist
upsert_persist-same v k r p = ground arith

forget-same : (v : Env) (k : Text) (p : SessionPool) → SameSessions p (forget v k p)
unfolding forget
forget-same v k p = ground arith

pub same_trans : {p q r : SessionPool} → SameSessions p q → SameSessions q r → SameSessions p r
same_trans a b = record {
  entries = b.entries ∙ a.entries;
  closed = b.closed ∙ a.closed;
  next_session = b.next_session ∙ a.next_session;
}

pub same_refl : (p : SessionPool) → SameSessions p p
same_refl p = record { entries = refl; closed = refl; next_session = refl }

pub upsert_all-same :
    (v : Env) (rs : List (Text × PersistedRecord)) (p : SessionPool)
    → SameSessions p (upsert_all v rs p)
unfolding upsert_all
upsert_all-same v [] p = same_refl p
upsert_all-same v ((k, r) ∷ rs) p =
    same_trans (upsert_persist-same v k r p) (upsert_all-same v rs (upsert_persist v k r p))

pub forget_all-same :
    (v : Env) (ks : List Text) (p : SessionPool) → SameSessions p (forget_all v ks p)
unfolding forget_all
forget_all-same v [] p = same_refl p
forget_all-same v (k ∷ ks) p = same_trans (forget-same v k p) (forget_all-same v ks (forget v k p))

-- Storing an entry, with the sessions closed and created on the way.
pub store-Inv :
    (p q : SessionPool) (k : Text) (e : PooledEntry)
    → q.entries ≡ put Text-discrete k e p.entries
    → IsRested e
    → length q.closed + holds e + p.next_session
      ≡ length p.closed + weigh holds (get Text-discrete k p.entries) + q.next_session
    → Inv p
    → Inv q
store-Inv p q k e s r n v = record {
  keyed = rw s (put-Keyed Text-discrete k e p.entries v.keyed);
  rested = rw s (put-All Text-discrete IsRested k e p.entries r v.rested);
  accounted = rw s (omega (arith, total-put Text-discrete holds k e p.entries, v.accounted));
}

pub ensure_entry-Inv : (cid : Text) (p : SessionPool) → Inv p → Inv (ensure_entry cid p)
unfolding ensure_entry
ensure_entry-Inv cid p v = elim (Option-cases (find cid p)) [
  | inl missing ↦ rw missing (
      store-Inv p (store cid fresh_entry p) cid fresh_entry refl (λ e. refl)
        (rw missing (omega arith)) v)
  | inr (e, known) ↦ rw known v
]

inspect_session-Inv :
    (v : Env) (cid : Text) (p : SessionPool) (e : PooledEntry) (o : Option ℕ)
    → find cid p ≡ some e
    → e.session ≡ o
    → Inv p
    → Inv (inspect_session v cid p e o).0
unfolding inspect_session
inspect_session-Inv v cid p e none known h i = i
inspect_session-Inv v cid p e (some s) known h i = ground (
  arith,
  store-Inv p (store cid (record e { last_used = v.now }) p) cid (record e { last_used = v.now })
      refl (get-All Text-discrete IsRested cid e p.entries known i.rested) (rw known (omega arith))
      i,
  store-Inv p (close s (store cid (evicted_entry v.now e) p)) cid (evicted_entry v.now e) refl
      (λ a. refl) (ground arith) i,
)

pub inspect-Inv : (v : Env) (cid : Text) (p : SessionPool) → Inv p → Inv (inspect v cid p).0
unfolding inspect
inspect-Inv v cid p i = elim (Option-cases (find cid p)) [
  | inl missing ↦ rw (missing, inspect) i
  | inr (e, known) ↦ rw (known, inspect) (inspect_session-Inv v cid p e e.session known refl i)
]

pub evict_for_cap-Inv :
    (v : Env) (k : Text) (e : PooledEntry) (p : SessionPool)
    → find k p ≡ some e
    → Inv p
    → Inv (evict_for_cap v k e p)
unfolding evict_for_cap
evict_for_cap-Inv v k e p known i = elim (Option-cases e.session) [
  | inl missing ↦ rw (missing, evict_for_cap) i
  | inr (s, held) ↦
      rw (held, evict_for_cap)
        (Inv-same (upsert_persist-same v k _ _) (
          store-Inv p (close s (store k (evicted_entry v.later e) p)) k (evicted_entry v.later e)
            refl (λ a. refl) (ground arith) i))
]

install-Inv :
    (v : Env) (cid : Text) (e : PooledEntry) (r : Started) (p : SessionPool)
    → find cid p ≡ some e
    → e.session ≡ none
    → Inv p
    → Inv (install v cid e r p).0
unfolding install
install-Inv v cid e r p known free i = elim (Bool-cases (is_empty sid)) [
  | inl unnamed ↦ rw unnamed stored
  | inr named ↦ rw named (Inv-same (upsert_persist-same v cid _ _) stored)
]
  where
    sid : Text
    sid = if r.notifies then e.session_id else r.id

    stored : Inv (
        store cid
          (started_entry v p.next_session sid e)
          (record p { next_session = suc p.next_session }))
    stored =
        store-Inv p _ cid (started_entry v p.next_session sid e) refl (λ a. absurd (ground arith))
          (rw known (ground arith)) i

-- What is known of the outcome of a step of the lookup.
abbrev pub Unheld : Text → SessionPool → Type 0
Unheld cid p = (e : PooledEntry) → find cid p ≡ some e → e.session ≡ none

pub create-Inv :
    (v : Env) (cid : Text) (p : SessionPool) → Unheld cid p → Inv p → Inv (create v cid p).0
unfolding create
create-Inv v cid p free i = elim (Option-cases (find cid p)) [
  | inl missing ↦ rw (missing, create) i
  | inr (e, known) ↦ elim (Option-cases (v.factory cid e.session_id)) [
    | inl failed ↦ rw (known, create, failed) i
    | inr (r, made) ↦ rw (known, create, made) (install-Inv v cid e r p known (free e known) i)
  ]
]

-- After a miss the entry holds no session.
inspect_session-Unheld :
    (v : Env) (cid : Text) (p : SessionPool) (e : PooledEntry) (o : Option ℕ)
    → find cid p ≡ some e
    → e.session ≡ o
    → IsRested e
    → (inspect_session v cid p e o).1 ≡ none
    → Unheld cid (inspect_session v cid p e o).0
unfolding inspect_session
inspect_session-Unheld v cid p e none known h r m d k = ground arith
inspect_session-Unheld v cid p e (some s) known h r m d k =
    ground (arith, get-put_self Text-discrete cid (evicted_entry v.now e) p.entries)

pub inspect-Unheld :
    (v : Env) (cid : Text) (p : SessionPool)
    → Inv p
    → (inspect v cid p).1 ≡ none
    → Unheld cid (inspect v cid p).0
unfolding inspect
inspect-Unheld v cid p i = elim (Option-cases (find cid p)) [
  | inl missing ↦ rw (missing, inspect) (λ m d k. absurd (ground arith))
  | inr (e, known) ↦
      rw (known, inspect)
        (inspect_session-Unheld v cid p e e.session known refl
          (get-All Text-discrete IsRested cid e p.entries known i.rested))
]
