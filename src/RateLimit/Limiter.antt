-- ===== src/RateLimit/Limiter.antt =====
-- ratelimit/tokenlimiter.go: a bucket set for each source. The TTL map that holds the sets is a copied
-- package and a parameter, `Ttl`. It holds pointers, so the sets stand in a heap and the map has their
-- addresses. `clock i j` is what the j-th call of `clock.Now()` reads within the i-th call below.
pub mod Isolation
mod Tests
use Prim.Native.String.{String}
use oxy.Base.{ℕ, Option, none, some, if◌then◌else◌, List, [], ◌∷◌, ◌++◌, length, get_elem?, set}
use oxy.Base.Int.{ℤ, pos, ltb_ℤ, quot}
use oxy.Base.Int64.{add64, mul64, wrap64}
use oxy.Base.Result.{Result, err, ok}
use oxy.RateLimit.Bucket.{Error}
use oxy.RateLimit.BucketSet.{RateSet, TokenBucketSet, new_token_bucket_set, update_set, consume_set}

-- `Get` and `Set` of `collections.TTLMap`. `Get` may remove what has expired; `Set` returns an error text.
pub record Ttl : Type 1 where
  pub State : Type 0
  pub get : ℤ → String → State → State × Option ℕ
  pub set : ℤ → String → ℕ → ℤ → State → State × Option String

-- What `consumeRates` returns: a `MaxRateError`, or an error of the buckets or of the map.
pub data LimitError : Type 0 where
  max_rate : ℤ → LimitError
  bucket_error : Error → LimitError
  ttl_error : String → LimitError

-- The fields of `TokenLimiter` that a request reads or changes.
pub record TokenLimiter (T : Ttl) : Type 0 where
  pub default_rates : RateSet
  pub bucket_sets : T.State
  pub heap : List TokenBucketSet

-- `resolveRates`: `none` is no extractor of rates, else what it returns.
unfoldable pub resolve_rates : Option (Result String RateSet) → RateSet → RateSet
resolve_rates none default_rates = default_rates
resolve_rates (some (err e)) default_rates = default_rates
resolve_rates (some (ok [])) default_rates = default_rates
resolve_rates (some (ok (r ∷ rs))) default_rates = r ∷ rs

-- One second.
abbrev pub second : ℤ
second = pos 1000000000

-- `int(bucketSet.maxPeriod/clock.Second)*10+1`
unfoldable pub ttl_seconds : TokenBucketSet → ℤ
ttl_seconds s = add64 (mul64 (wrap64 (quot s.max_period second)) (pos 10)) (pos 1)

-- The error after `Consume`.
unfoldable pub verdict : ℤ → Option Error → Option LimitError
verdict delay (some e) = some (bucket_error e)
verdict delay none = if ltb_ℤ (pos 0) delay then some (max_rate delay) else none

module _ (T : Ttl) where
  -- The end of `consumeRates`: `Consume` on the bucket set at an address.
  unfoldable pub spend :
      (ℕ → ℤ) → ℤ → ℕ → TokenBucketSet → TokenLimiter T → TokenLimiter T × Option LimitError
  spend clock amount p s tl =
      let (s', delay, e) = consume_set clock amount s in
      (record tl { heap = set tl.heap p s' }, verdict delay e)

  -- `consumeRates` for a source that has a bucket set; `none` is a panic.
  unfoldable pub consume_known :
      (ℕ → ℕ → ℤ) → RateSet → ℤ → ℕ → TokenLimiter T → Option (TokenLimiter T × Option LimitError)
  consume_known clock rates amount p tl = elim (get_elem? tl.heap p) [
    | none ↦ none
    | some s ↦ elim (update_set (clock 1) rates s) [
      | none ↦ none
      | some s' ↦ some (spend (clock 3) amount p s' tl)
    ]
  ]

  -- `consumeRates` for a source that has none.
  unfoldable pub consume_new :
      (ℕ → ℕ → ℤ)
      → RateSet
      → String
      → ℤ
      → TokenLimiter T
      → Option (TokenLimiter T × Option LimitError)
  consume_new clock rates source amount tl = elim (new_token_bucket_set (clock 1) rates) [
    | none ↦ none
    | some s ↦
        let p = length tl.heap in
        let (sets, e) = T.set (clock 2 0) source p (ttl_seconds s) tl.bucket_sets in
        let tl' = record tl { bucket_sets = sets; heap = tl.heap ++ (s ∷ []) } in
        elim e [
          | some text ↦ some (tl', some (ttl_error text))
          | none ↦ some (spend (clock 3) amount p s tl')
        ]
  ]

  -- `consumeRates`
  unfoldable pub consume_rates :
      (ℕ → ℕ → ℤ)
      → Option (Result String RateSet)
      → String
      → ℤ
      → TokenLimiter T
      → Option (TokenLimiter T × Option LimitError)
  consume_rates clock extracted source amount tl =
      let rates = resolve_rates extracted tl.default_rates in
      let (sets, found) = T.get (clock 0 0) source tl.bucket_sets in
      let tl' = record tl { bucket_sets = sets } in
      elim found [
        | some p ↦ consume_known clock rates amount p tl'
        | none ↦ consume_new clock rates source amount tl'
      ]

-- What `ServeHTTP` does with a request.
pub data Answer : Type 0 where
  bad_source : String → Answer
  limited : LimitError → Answer
  forwarded : Answer

-- `ServeHTTP`. `source` is what the source extractor returns.
unfoldable pub serve :
    (T : Ttl)
    → (ℕ → ℕ → ℤ)
    → Option (Result String RateSet)
    → Result String (String × ℤ)
    → TokenLimiter T
    → Option (TokenLimiter T × Answer)
serve T clock extracted (err e) tl = some (tl, bad_source e)
serve T clock extracted (ok (source, amount)) tl =
    elim (consume_rates T clock extracted source amount tl) [
      | none ↦ none
      | some (tl', some e) ↦ some (tl', limited e)
      | some (tl', none) ↦ some (tl', forwarded)
    ]
