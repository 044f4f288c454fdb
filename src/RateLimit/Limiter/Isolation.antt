-- ===== src/RateLimit/Limiter/Isolation.antt =====
-- Each source has its own bucket set, and a request touches that of its source only.
use Prim.Native.String.{String}
use oxy.Base.{
  ℕ, ◌<◌, ◌≡◌, ◌≢◌, refl, arith, ◌∙◌, sym, subst, ◌⊎◌, inl, inr, Option, some, Option-cases, [],
  ◌∷◌, ◌++◌, length, get_elem?, All, All-set, All-append, All-get_elem?, get_elem?-some,
  get_elem?-set_other, get_elem?-append, length-set, length-append,
}
use oxy.Base.Int.{ℤ}
use oxy.Base.Result.{Result}
use oxy.RateLimit.BucketSet.{RateSet, TokenBucketSet, consume_set}
use oxy.RateLimit.BucketSet.Rates.{IsRateSet}
use oxy.RateLimit.BucketSet.Shape.{
  IsShaped, new_token_bucket_set-IsShaped, update_set-IsShaped, consume_set-IsShaped,
}
use oxy.RateLimit.Limiter.{
  Ttl, TokenLimiter, LimitError, ttl_error, resolve_rates, ttl_seconds, spend, consume_known,
  consume_new, consume_rates,
}

-- What the limiter relies on of the TTL map: `Holds` says what is stored under a key. A key that `Get`
-- finds is stored, `Get` stores nothing, and `Set` stores nothing but its entry.
pub record IsTtl (T : Ttl) : Type 1 where
  pub Holds : T.State → String → ℕ → Type 0
  pub get-finds :
      (now : ℤ) (k : String) (st : T.State) (p : ℕ) → (T.get now k st).1 ≡ some p → Holds st k p
  pub get-keeps :
      (now : ℤ) (k : String) (st : T.State) (j : String) (p : ℕ)
      → Holds (T.get now k st).0 j p
      → Holds st j p
  pub set-keeps :
      (now : ℤ) (k : String) (v : ℕ) (ttl : ℤ) (st : T.State) (j : String) (p : ℕ)
      → Holds (T.set now k v ttl st).0 j p
      → Holds st j p ⊎ ((j ≡ k) × (p ≡ v))

module _ (T : Ttl) (laws : IsTtl T) where
  open laws use {Holds, get-finds, get-keeps, set-keeps}

  -- The addresses in the map are in the heap, each belongs to one source, and the sets are well formed.
  pub record IsOwned (tl : TokenLimiter T) : Type 0 where
    pub bounded : (k : String) (p : ℕ) → Holds tl.bucket_sets k p → p < length tl.heap
    pub owned : (k j : String) (p : ℕ) → Holds tl.bucket_sets k p → Holds tl.bucket_sets j p → k ≡ j
    pub shaped : All (λ s. IsShaped s.buckets) tl.heap
    pub rates : IsRateSet tl.default_rates

  -- What another source than `source` holds it held before, and the set there is as it was.
  abbrev IsApart : String → TokenLimiter T → TokenLimiter T → Type 0
  IsApart source tl tl' =
      (j : String) (p : ℕ)
      → j ≢ source
      → Holds tl'.bucket_sets j p
      → Holds tl.bucket_sets j p × (get_elem? tl'.heap p ≡ get_elem? tl.heap p)

  spent :
      (clock : ℕ → ℤ) (source : String) (amount : ℤ) (p : ℕ) (s : TokenBucketSet)
      (tl : TokenLimiter T)
      → IsOwned tl
      → IsShaped s.buckets
      → ((j : String) → Holds tl.bucket_sets j p → j ≡ source)
      → IsOwned (spend T clock amount p s tl).0 × IsApart source tl (spend T clock amount p s tl).0
  unfolding spend
  spent clock source amount p s tl h shape mine =
      let s' = (consume_set clock amount s).0 in
      (
        record {
          bounded = λ k q held. omega (arith, h.bounded k q held, length-set tl.heap p s');
          owned = h.owned;
          shaped =
              All-set (λ s. IsShaped s.buckets) tl.heap p s' h.shaped
                (consume_set-IsShaped clock amount s shape);
          rates = h.rates;
        },
        λ j q other held. (
          held,
          get_elem?-set_other tl.heap q p s'
              (λ same. other (mine j (subst (λ a. Holds tl.bucket_sets j a) same held))),
        ),
      )

  -- Only the set at an address was changed, of those that were in the heap.
  abbrev IsFramed : ℕ → TokenLimiter T → TokenLimiter T → Type 0
  IsFramed p tl tl' =
      (q : ℕ) → q ≢ p → q < length tl.heap → get_elem? tl'.heap q ≡ get_elem? tl.heap q

  -- The sets that were those of another source than `source` are as they were.
  abbrev IsUntouched : String → TokenLimiter T → TokenLimiter T → Type 0
  IsUntouched source tl tl' =
      (j : String) (p : ℕ)
      → j ≢ source
      → Holds tl.bucket_sets j p
      → get_elem? tl'.heap p ≡ get_elem? tl.heap p

  spend-IsFramed :
      (clock : ℕ → ℤ) (amount : ℤ) (p : ℕ) (s : TokenBucketSet) (tl : TokenLimiter T)
      → IsFramed p tl (spend T clock amount p s tl).0
  unfolding spend
  spend-IsFramed clock amount p s tl q other low =
      get_elem?-set_other tl.heap q p (consume_set clock amount s).0 other

  known :
      (clock : ℕ → ℕ → ℤ) (rates : RateSet) (source : String) (amount : ℤ) (p : ℕ)
      (tl : TokenLimiter T)
      → IsOwned tl
      → IsRateSet rates
      → p < length tl.heap
      → ((j : String) → Holds tl.bucket_sets j p → j ≡ source)
      → (tl' : TokenLimiter T) × (e : Option LimitError) × (consume_known T clock rates amount p tl
          ≡ some (tl', e))
        × IsOwned tl'
        × IsApart source tl tl'
        × IsFramed p tl tl'
  unfolding consume_known
  known clock rates source amount p tl h hr low mine =
      let (s, es) = get_elem?-some tl.heap p low in
      let shape = All-get_elem? (λ s. IsShaped s.buckets) tl.heap p h.shaped es in
      let (s', eu, shape') = update_set-IsShaped (clock 1) rates s hr shape in
      let (owned, apart) = spent (clock 3) source amount p s' tl h shape' mine in
      (
        (spend T (clock 3) amount p s' tl).0,
        (spend T (clock 3) amount p s' tl).1,
        rw (consume_known, es, eu) refl,
        owned,
        apart,
        spend-IsFramed (clock 3) amount p s' tl,
      )

  together :
      (source : String) (a b c : TokenLimiter T)
      → IsApart source a b
      → IsApart source b c
      → IsApart source a c
  together source a b c first second j p other held =
      let (held', same') = second j p other held in
      let (held'', same'') = first j p other held' in (held'', same' ∙ same'')

  -- The limiter with a bucket set more, whose address `Set` has stored for a source.
  abbrev with_set : (ℕ → ℕ → ℤ) → String → TokenBucketSet → TokenLimiter T → TokenLimiter T
  with_set clock source s tl = record tl {
    bucket_sets = (T.set (clock 2 0) source (length tl.heap) (ttl_seconds s) tl.bucket_sets).0;
    heap = tl.heap ++ (s ∷ []);
  }

  module _ (clock : ℕ → ℕ → ℤ) (source : String) (s : TokenBucketSet) (tl : TokenLimiter T)
      (h : IsOwned tl) (shape : IsShaped s.buckets) where
    held_by :
        (j : String) (p : ℕ)
        → Holds (with_set clock source s tl).bucket_sets j p
        → (Holds tl.bucket_sets j p × (p < length tl.heap)) ⊎ ((j ≡ source) × (p ≡ length tl.heap))
    held_by j p held =
        elim (set-keeps (clock 2 0) source (length tl.heap) (ttl_seconds s) tl.bucket_sets j p
          held) [ inl old ↦ inl (old, h.bounded j p old) | inr new ↦ inr new ]

    bound_new :
        (j : String) (p : ℕ)
        → Holds (with_set clock source s tl).bucket_sets j p
        → p < length (tl.heap ++ (s ∷ []))
    bound_new j p held = elim (held_by j p held) [
      | inl (_, low) ↦ omega (arith, length-append tl.heap (s ∷ []))
      | inr (_, last) ↦ omega (arith, length-append tl.heap (s ∷ []))
    ]

    owner_new :
        (k j : String) (p : ℕ)
        → Holds (with_set clock source s tl).bucket_sets k p
        → Holds (with_set clock source s tl).bucket_sets j p
        → k ≡ j
    owner_new k j p hk hj = elim (held_by k p hk) [
      | inl (old, low) ↦ elim (held_by j p hj) [
        | inl (old', _) ↦ h.owned k j p old old'
        | inr (_, last) ↦ absurd (omega arith)
      ]
      | inr (is, last) ↦ elim (held_by j p hj) [
        | inl (_, low) ↦ absurd (omega arith)
        | inr (is', _) ↦ is ∙ sym is'
      ]
    ]

    with_set-IsOwned : IsOwned (with_set clock source s tl)
    with_set-IsOwned = record {
      bounded = bound_new;
      owned = owner_new;
      shaped = All-append (λ s. IsShaped s.buckets) tl.heap (s ∷ []) h.shaped (shape, tt);
      rates = h.rates;
    }

    with_set-apart : IsApart source tl (with_set clock source s tl)
    with_set-apart j p other held = elim (held_by j p held) [
      | inl (old, low) ↦ (old, get_elem?-append tl.heap (s ∷ []) p low)
      | inr (is, _) ↦ absurd (other is)
    ]

    owner_last :
        (j : String)
        → Holds (with_set clock source s tl).bucket_sets j (length tl.heap)
        → j ≡ source
    owner_last j held = elim (held_by j (length tl.heap) held) [
      | inl (_, low) ↦ absurd (omega arith)
      | inr (is, _) ↦ is
    ]

  added :
      (clock : ℕ → ℕ → ℤ) (rates : RateSet) (source : String) (amount : ℤ) (tl : TokenLimiter T)
      → IsOwned tl
      → IsRateSet rates
      → (tl' : TokenLimiter T) × (e : Option LimitError) × (consume_new T clock rates source amount
            tl
          ≡ some (tl', e))
        × IsOwned tl'
        × IsApart source tl tl'
        × IsFramed (length tl.heap) tl tl'
  unfolding consume_new
  added clock rates source amount tl h hr =
      let (s, made, shape) = new_token_bucket_set-IsShaped (clock 1) rates hr in
      let tl1 = with_set clock source s tl in
      let own = with_set-IsOwned clock source s tl h shape in
      let apart = with_set-apart clock source s tl h shape in
      let grown : IsFramed (length tl.heap) tl tl1 =
        λ q other low. get_elem?-append tl.heap (s ∷ []) q low in
      elim (Option-cases
        (T.set (clock 2 0) source (length tl.heap) (ttl_seconds s) tl.bucket_sets).1) [
          | inr (text, bad) ↦
              (tl1, some (ttl_error text), rw (consume_new, made, bad) refl, own, apart, grown)
          | inl stored ↦
              let (own', apart') =
                spent (clock 3) source amount (length tl.heap) s tl1 own shape
                  (owner_last clock source s tl h shape) in
              (
                (spend T (clock 3) amount (length tl.heap) s tl1).0,
                (spend T (clock 3) amount (length tl.heap) s tl1).1,
                rw (consume_new, made, stored) refl,
                own',
                together source tl tl1 (spend T (clock 3) amount (length tl.heap) s tl1).0 apart
                    apart',
                λ q other low.
                    spend-IsFramed (clock 3) amount (length tl.heap) s tl1 q other
                      (omega (arith, length-append tl.heap (s ∷ [])))
                    ∙ grown q other low,
              )
        ]

  -- `Get` of the map, and then the rest of `consumeRates`.
  abbrev after_get : (ℕ → ℕ → ℤ) → String → TokenLimiter T → TokenLimiter T
  after_get clock source tl = record tl {
    bucket_sets = (T.get (clock 0 0) source tl.bucket_sets).0;
  }

  after_get-IsOwned :
      (clock : ℕ → ℕ → ℤ) (source : String) (tl : TokenLimiter T)
      → IsOwned tl
      → IsOwned (after_get clock source tl)
  after_get-IsOwned clock source tl h = record {
    bounded = λ k p held. h.bounded k p (get-keeps (clock 0 0) source tl.bucket_sets k p held);
    owned = λ k j p hk hj.
        h.owned k j p (get-keeps (clock 0 0) source tl.bucket_sets k p hk)
          (get-keeps (clock 0 0) source tl.bucket_sets j p hj);
    shaped = h.shaped;
    rates = h.rates;
  }

  consumed :
      (clock : ℕ → ℕ → ℤ) (extracted : Option (Result String RateSet)) (source : String)
      (amount : ℤ) (tl : TokenLimiter T)
      → IsOwned tl
      → IsRateSet (resolve_rates extracted tl.default_rates)
      → (tl' : TokenLimiter T) × (e : Option LimitError) × (consume_rates T clock extracted source
            amount tl
          ≡ some (tl', e))
        × IsOwned tl'
        × IsApart source tl tl'
        × IsUntouched source tl tl'
  unfolding consume_rates
  consumed clock extracted source amount tl h hr =
      let tl1 = after_get clock source tl in
      let own = after_get-IsOwned clock source tl h in
      let apart : IsApart source tl tl1 =
        λ j p other held. (get-keeps (clock 0 0) source tl.bucket_sets j p held, refl) in
      elim (Option-cases (T.get (clock 0 0) source tl.bucket_sets).1) [
        | inl missing ↦
            let (tl', e, eq, own', apart', framed) =
              added clock (resolve_rates extracted tl.default_rates) source amount tl1 own hr in
            (
              tl',
              e,
              rw (consume_rates, missing) eq,
              own',
              together source tl tl1 tl' apart apart',
              λ j q other held.
                  let low = h.bounded j q held in
                  framed q (λ same. absurd (omega (arith, same, low))) low,
            )
        | inr (p, found) ↦
            let there = get-finds (clock 0 0) source tl.bucket_sets p found in
            let (tl', e, eq, own', apart', framed) =
              known clock (resolve_rates extracted tl.default_rates) source amount p tl1 own hr
                (h.bounded source p there)
                (λ j held.
                  h.owned j source p (get-keeps (clock 0 0) source tl.bucket_sets j p held)
                    there) in
            (
              tl',
              e,
              rw (consume_rates, found) eq,
              own',
              together source tl tl1 tl' apart apart',
              λ j q other held.
                  framed q
                    (λ same.
                      other (
                        h.owned j source p (subst (λ a. Holds tl.bucket_sets j a) same held) there))
                    (h.bounded j q held),
            )
      ]

  -- `consumeRates` does not panic, and keeps the bucket sets well formed and each owned by one source,
  -- when the rates that are used form a checked rate set.
  pub consume_rates-IsOwned :
      (clock : ℕ → ℕ → ℤ) (extracted : Option (Result String RateSet)) (source : String)
      (amount : ℤ) (tl : TokenLimiter T)
      → IsOwned tl
      → IsRateSet (resolve_rates extracted tl.default_rates)
      → (tl' : TokenLimiter T) × (e : Option LimitError) × (consume_rates T clock extracted source
            amount tl
          ≡ some (tl', e))
        × IsOwned tl'
  consume_rates-IsOwned clock extracted source amount tl h hr =
      let (tl', e, eq, own, _, _) = consumed clock extracted source amount tl h hr in
      (tl', e, eq, own)

  -- In a limiter whose bucket sets are well formed and each owned by one source, over a TTL map where `Get`
  -- finds only what is stored and stores nothing, and `Set` stores nothing but its entry; when the rates
  -- that are used form a checked rate set: `consumeRates` for one source leaves every bucket set that the
  -- map held for another source as it was, and what the map holds for another source afterwards is a set
  -- that it held for that source before. Whether the map drops sets is left open.
  pub consume_rates-apart :
      (clock : ℕ → ℕ → ℤ) (extracted : Option (Result String RateSet)) (source : String)
      (amount : ℤ) (tl : TokenLimiter T) {tl' : TokenLimiter T} {e : Option LimitError}
      → IsOwned tl
      → IsRateSet (resolve_rates extracted tl.default_rates)
      → consume_rates T clock extracted source amount tl ≡ some (tl', e)
      → (j : String) (p : ℕ) → j ≢ source
      → Holds tl.bucket_sets j p ⊎ Holds tl'.bucket_sets j p
      → Holds tl.bucket_sets j p × (get_elem? tl'.heap p ≡ get_elem? tl.heap p)
  consume_rates-apart clock extracted source amount tl {tl'} h hr eq j p other held =
      let (tl0, e0, eq0, _, apart, untouched) = consumed clock extracted source amount tl h hr in
      let same : tl0 ≡ tl' = cc in
      elim held [
        | inl before ↦ (before, subst (IsUntouched source tl) same untouched j p other before)
        | inr after ↦ subst (IsApart source tl) same apart j p other after
      ]
