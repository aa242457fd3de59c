-- ===== src/Wrapper/Pool/Capacity.antt =====
-- The capacity of the pool: who is evicted, and how many sessions are live.
use mathlib.Core.Path.{subst}
use ahsir.Prelude.Total.{Keyed-get, weigh, total}
use ahsir.Wrapper.Pool.{
  find, evict_for_cap, evict_lru, SessionPool, Env, older, is_live, get, Table, PooledEntry, scan,
}
use ahsir.Prelude.{
  Option-cases, ◌∙◌, sym, inl, not, ltb, ◌&&◌, ◌≤◌, Bool-cases, inr, ◌+◌, ◌<◌, ◌≢◌, is_some, All,
  ◌⊎◌, [], ◌∷◌, ℕ, ◌≡◌, none, some, Option, arith, true, false, suc,
}
use ahsir.Wrapper.Pool.Sessions.{Unheld, Inv, holds, IsRested}
use ahsir.Prelude.Table.{get_missed, Keyed, Table, get}
use ahsir.Prelude.Text.{Text-discrete, text_eq, Text}

-- Under the invariant an entry that holds a session is live.
holds_live : (e : PooledEntry) → IsRested e → is_live e ≡ is_some e.session
holds_live e r = ground arith

text_eq_refl : (k : Text) → text_eq k k ≡ true
text_eq_refl k = ground arith

-- The scan counts the sessions of all entries but the caller's.
scan_count :
    (cid : Text) (m : Table Text PooledEntry) (n : ℕ) (lru : Option (Text × PooledEntry))
    → Keyed m
    → All (λ e. IsRested e.1) m
    → total holds m + n ≡ (scan cid m n lru).0 + weigh holds (get Text-discrete cid m)
unfolding scan get
scan_count cid [] n lru h r = omega arith
scan_count cid ((k, e) ∷ m) n lru h r = elim (Text-discrete k cid) [
  | yes p ↦
      ground (arith, get_missed Text-discrete cid m (rw (← p) h.0), scan_count cid m n lru h.1 r.1)
  | no d ↦
      ground (
        arith,
        r.0,
        scan_count cid m n lru h.1 r.1,
        scan_count cid m (suc n) (older lru k e) h.1 r.1,
      )
]

pub scan_finds :
    (cid : Text) (m : Table Text PooledEntry) (n : ℕ) (lru : Option (Text × PooledEntry))
    → (n ≡ 0) ⊎ (is_some lru ≡ true)
    → 0 < (scan cid m n lru).0
    → is_some (scan cid m n lru).1 ≡ true
unfolding scan
scan_finds cid [] n lru s h = ground arith
scan_finds cid ((k, e) ∷ m) n lru s h =
    ground
      (arith, scan_finds cid m n lru s, scan_finds cid m (suc n) (older lru k e) (inr older_some))
  where
    older_some : is_some (older lru k e) ≡ true
    older_some = ground arith

-- A predicate of a live entry of another context.
abbrev OnVictim {ℓ} : (Text → PooledEntry → Type ℓ) → Option (Text × PooledEntry) → Type ℓ
OnVictim P none = Unit
OnVictim P (some (k, e)) = P k e

older_victim :
    (P : Text → PooledEntry → Type 0) (lru : Option (Text × PooledEntry)) (k : Text)
    (e : PooledEntry)
    → P k e
    → OnVictim P lru
    → OnVictim P (older lru k e)
older_victim P none k e h o = h
older_victim P (some (j, d)) k e h o = elim (Bool-cases (ltb e.last_used d.last_used)) [
  | inl less ↦ rw less h
  | inr more ↦ rw more o
]

scan_victim :
    (P : Text → PooledEntry → Type 0) (cid : Text) (m : Table Text PooledEntry) (n : ℕ)
    (lru : Option (Text × PooledEntry))
    → All (λ e. is_live e.1 ≡ true → e.0 ≢ cid → P e.0 e.1) m
    → OnVictim P lru
    → OnVictim P (scan cid m n lru).1
unfolding scan
scan_victim P cid [] n lru a o = o
scan_victim P cid ((k, e) ∷ m) n lru a o = elim (Bool-cases (is_live e && not (text_eq k cid))) [
  | inl counted ↦
      rw (counted, scan)
        (scan_victim P cid m (suc n) (older lru k e) a.1
          (older_victim P lru k e (a.0 (ground arith) (λ q. ground arith)) o))
  | inr skipped ↦ rw (skipped, scan) (scan_victim P cid m n lru a.1 o)
]

-- The victim was last used no later than a given time.
abbrev UsedBy : ℕ → Option (Text × PooledEntry) → Type 0
UsedBy t none = ⊥
UsedBy t (some (k, e)) = e.last_used ≤ t

scan-UsedBy :
    (t : ℕ) (cid : Text) (m : Table Text PooledEntry) (n : ℕ) (lru : Option (Text × PooledEntry))
    → UsedBy t lru
    → UsedBy t (scan cid m n lru).1
unfolding scan
scan-UsedBy t cid [] n lru u = u
scan-UsedBy t cid ((k, e) ∷ m) n none u = absurd u
scan-UsedBy t cid ((k, e) ∷ m) n (some (j, d)) u = ground (
  arith,
  scan-UsedBy t cid m n (some (j, d)) u,
  scan-UsedBy t cid m (suc n) (some (j, d)),
  scan-UsedBy t cid m (suc n) (some (k, e)),
)

older-UsedBy :
    (lru : Option (Text × PooledEntry)) (k : Text) (e : PooledEntry)
    → UsedBy e.last_used (older lru k e)
older-UsedBy none k e = omega arith
older-UsedBy (some (j, d)) k e = ground arith

scan_counted :
    (cid k : Text) (e : PooledEntry) (m : Table Text PooledEntry) (n : ℕ)
    (lru : Option (Text × PooledEntry))
    → (is_live e && not (text_eq k cid)) ≡ true
    → (scan cid ((k, e) ∷ m) n lru).1 ≡ (scan cid m (suc n) (older lru k e)).1
unfolding scan
scan_counted cid k e m n lru h = rw (h, scan)

scan_skipped :
    (cid k : Text) (e : PooledEntry) (m : Table Text PooledEntry) (n : ℕ)
    (lru : Option (Text × PooledEntry))
    → (is_live e && not (text_eq k cid)) ≡ false
    → (scan cid ((k, e) ∷ m) n lru).1 ≡ (scan cid m n lru).1
unfolding scan
scan_skipped cid k e m n lru h = rw (h, scan)

-- The least recently used live entry of another context is chosen.
scan_oldest :
    (cid : Text) (m : Table Text PooledEntry) (n : ℕ) (lru r : Option (Text × PooledEntry))
    → (scan cid m n lru).1 ≡ r
    → All (λ e. is_live e.1 ≡ true → e.0 ≢ cid → UsedBy e.1.last_used r) m
scan_oldest cid [] n lru r q = tt
scan_oldest cid ((k, e) ∷ m) n lru r q = elim (Bool-cases (is_live e && not (text_eq k cid))) [
  | inl counted ↦
      let q' = sym (scan_counted cid k e m n lru counted) ∙ q in
      (
        λ l d.
            subst (UsedBy e.last_used) q'
              (scan-UsedBy e.last_used cid m (suc n) (older lru k e) (older-UsedBy lru k e)),
        scan_oldest cid m (suc n) (older lru k e) r q',
      )
  | inr skipped ↦ (
    λ l d. absurd (ground arith),
    scan_oldest cid m n lru r (sym (scan_skipped cid k e m n lru skipped) ∙ q),
  )
]

-- What a victim is: a live entry of another context that no other live one is older than.
pub record IsVictim (cid : Text) (m : Table Text PooledEntry) (k : Text) (e : PooledEntry)
    : Type 0 where
  pub found : get Text-discrete k m ≡ some e
  pub live : is_live e ≡ true
  pub other : k ≢ cid
  pub oldest : All (λ d. is_live d.1 ≡ true → d.0 ≢ cid → e.last_used ≤ d.1.last_used) m

pub scan-IsVictim :
    (cid : Text) (m : Table Text PooledEntry) (k : Text) (e : PooledEntry)
    → Keyed m
    → (scan cid m 0 none).1 ≡ some (k, e)
    → IsVictim cid m k e
scan-IsVictim cid m k e h q =
    let facts : OnVictim Chosen (some (k, e)) =
      subst (OnVictim Chosen) q
        (scan_victim Chosen cid m 0 none (chosen m (Keyed-get Text-discrete m h)) tt) in
    record {
      found = facts.0;
      live = facts.1;
      other = facts.2;
      oldest = scan_oldest cid m 0 none (some (k, e)) q;
    }
  where
    Chosen : Text → PooledEntry → Type 0
    Chosen j d = (get Text-discrete j m ≡ some d) × (is_live d ≡ true) × (j ≢ cid)

    chosen :
        (n : Table Text PooledEntry)
        → All (λ d. get Text-discrete d.0 m ≡ some d.1) n
        → All
            (λ d.
              is_live d.1 ≡ true
              → d.0 ≢ cid
              → (get Text-discrete d.0 m ≡ some d.1) × (is_live d.1 ≡ true) × (d.0 ≢ cid))
            n
    chosen [] a = tt
    chosen (d ∷ n) a = (λ l o. (a.0, l, o), chosen n a.1)

-- The pool has room, or makes room by evicting one victim under the policy that evicts.
pub data MadeRoom (v : Env) (cid : Text) (p : SessionPool) : SessionPool → Type 0 where
  room : total holds p.entries < p.max_active → MadeRoom v cid p p
  evicted :
      (k : Text) (e : PooledEntry)
      → p.overload_policy ≡ evict_lru
      → p.max_active ≤ total holds p.entries
      → IsVictim cid p.entries k e
      → MadeRoom v cid p (evict_for_cap v k e p)

pub Unheld-count :
    (cid : Text) (p : SessionPool)
    → Inv p
    → Unheld cid p
    → (scan cid p.entries 0 none).0 ≡ total holds p.entries
Unheld-count cid p i u = elim (Option-cases (find cid p)) [
  | inl missing ↦ ground (arith, scan_count cid p.entries 0 none i.keyed i.rested)
  | inr (e, known) ↦ ground (arith, u e known, scan_count cid p.entries 0 none i.keyed i.rested)
]
