-- ===== src/RateLimit/BucketSet.antt =====
-- ratelimit/bucketset.go and the RateSet of ratelimit/tokenlimiter.go: buckets for several periods.
-- `clock i` is what the i-th call of `clock.Now()` reads within one call of a method.
pub mod Atomic
pub mod Rates
pub mod Shape
use oxy.Base.{ℕ, suc, Bool, true, false, Option, none, some, if◌then◌else◌, List, [], ◌∷◌, ◌>>=◌}
use oxy.Base.Int.{ℤ, pos, negsuc, ltb_ℤ, leb_ℤ, max_ℤ}
use oxy.Base.Assoc.{Eq, int_eq, lookup, insert, erase, has}
use oxy.RateLimit.Bucket.{
  Rate, TokenBucket, Error, undefined_delay, new_token_bucket, consume, rollback, update,
}

-- `RateSet`
abbrev pub RateSet : Type 0
RateSet = List (ℤ × Rate)

pub data RateError : Type 0 where
  invalid_period invalid_average invalid_burst : ℤ → RateError

-- `RateSet.Add`: the set, and the error if the rate is refused.
unfoldable pub add : ℤ → ℤ → ℤ → RateSet → RateSet × Option RateError
add period average burst rs =
    if leb_ℤ period (pos 0)
    then (rs, some (invalid_period period))
    else if leb_ℤ average (pos 0)
    then (rs, some (invalid_average average))
    else if leb_ℤ burst (pos 0)
    then (rs, some (invalid_burst burst))
    else (insert period (record { period = period; average = average; burst = burst }) rs, none)

abbrev pub Buckets : Type 0
Buckets = List (ℤ × TokenBucket)

-- `TokenBucketSet`
pub record TokenBucketSet : Type 0 where
  pub buckets : Buckets
  pub max_period : ℤ

-- The loop of `NewTokenBucketSet`; `none` is a panic.
unfoldable pub add_buckets : (ℕ → ℤ) → RateSet → TokenBucketSet → Option TokenBucketSet
add_buckets clock [] s = some s
add_buckets clock ((_, r) ∷ rs) s = elim (new_token_bucket (clock 0) r) [
  | none ↦ none
  | some b ↦
      add_buckets (λ i. clock (suc i)) rs
        (record { buckets = insert r.period b s.buckets; max_period = max_ℤ s.max_period r.period })
]

-- `NewTokenBucketSet`
unfoldable pub new_token_bucket_set : (ℕ → ℤ) → RateSet → Option TokenBucketSet
new_token_bucket_set clock rates =
    add_buckets clock rates (record { buckets = []; max_period = pos 0 })

-- The first loop of `Update`, over the buckets that the map held when it began.
unfoldable pub update_buckets : RateSet → Buckets → Buckets → Option Buckets
update_buckets rates [] m = some m
update_buckets rates ((k, b) ∷ bs) m = elim (has k m) [
  | false ↦ update_buckets rates bs m
  | true ↦ elim (lookup b.period rates) [
    | none ↦ update_buckets rates bs (erase b.period m)
    | some r ↦ elim (update r b) [
      | none ↦ none
      | some (b', _) ↦ update_buckets rates bs (insert k b' m)
    ]
  ]
]

-- The second loop of `Update`.
unfoldable pub add_missing : (ℕ → ℤ) → RateSet → Buckets → Option Buckets
add_missing clock [] m = some m
add_missing clock ((_, r) ∷ rs) m = elim (has r.period m) [
  | true ↦ add_missing clock rs m
  | false ↦ elim (new_token_bucket (clock 0) r) [
    | none ↦ none
    | some b ↦ add_missing (λ i. clock (suc i)) rs (insert r.period b m)
  ]
]

-- The third loop of `Update`.
unfoldable pub longest : ℤ → Buckets → ℤ
longest p [] = p
longest p ((_, b) ∷ bs) = longest (max_ℤ p b.period) bs

-- `Update`
unfoldable pub update_set : (ℕ → ℤ) → RateSet → TokenBucketSet → Option TokenBucketSet
update_set clock rates s = do
  kept ← update_buckets rates s.buckets s.buckets
  all ← add_missing clock rates kept
  some (record { buckets = all; max_period = longest (pos 0) all })

-- The `if firstErr == nil` of `Consume`: the longest delay and the first error so far.
unfoldable pub tally : ℤ → Option Error → ℤ → Option Error → ℤ × Option Error
tally max_delay (some first) delay err = (max_delay, some first)
tally max_delay none delay (some err) = (max_delay, some err)
tally max_delay none delay none = (max_ℤ max_delay delay, none)

-- The first loop of `Consume`.
unfoldable pub consume_each : (ℕ → ℤ) → ℤ → Buckets → ℤ → Option Error → Buckets × ℤ × Option Error
consume_each clock tokens [] max_delay first_err = ([], max_delay, first_err)
consume_each clock tokens ((k, b) ∷ bs) max_delay first_err =
    let (b', delay, err) = consume (clock 0) tokens b in
    let (delay', err') = tally max_delay first_err delay err in
    let (bs', d, e) = consume_each (λ i. clock (suc i)) tokens bs delay' err' in
    ((k, b') ∷ bs', d, e)

-- The second loop of `Consume`.
unfoldable pub rollback_all : Buckets → Buckets
rollback_all [] = []
rollback_all ((k, b) ∷ bs) = (k, rollback b) ∷ rollback_all bs

abbrev pub is_refused : ℤ → Option Error → Bool
is_refused delay (some _) = true
is_refused delay none = ltb_ℤ (pos 0) delay

-- `Consume`: the set, the delay and the error.
unfoldable pub consume_set : (ℕ → ℤ) → ℤ → TokenBucketSet → TokenBucketSet × ℤ × Option Error
consume_set clock tokens s =
    let (bs, delay, err) = consume_each clock tokens s.buckets undefined_delay none in
    (record s { buckets = if is_refused delay err then rollback_all bs else bs }, delay, err)
