-- ===== src/RateLimit/Tests.antt =====
-- The buckets at concrete inputs.
use oxy.Base.{ℕ, ◌+◌, ◌/◌, ◌≤◌, ◌≡◌, refl, arith, none, some, [], ◌∷◌, ◌⊎◌, true, false}
use oxy.Base.Int.{ℤ, pos, ◌+ℤ◌, ◌-ℤ◌, ◌*ℤ◌, quot}
use oxy.Base.Int64.{wrap64, add64, sub64, mul64, clamp64}
use oxy.Base.Assoc.{int_eq}
use oxy.RateLimit.Bucket.{
  Rate, TokenBucket, new_token_bucket, consume, take_tokens, refill, update_available_tokens,
  time_sub, time_till_available, div64, rollback, update,
}
use oxy.RateLimit.Refill.{Holds}
use oxy.RateLimit.Consume.{outcome, consume-outcome}
use oxy.RateLimit.Admission.{serve_all, serve_all-le, consume_after_delay}
use oxy.RateLimit.BucketSet.{
  TokenBucketSet, RateSet, consume_set, consume_each, rollback_all, tally, update_set, is_refused,
  add, longest, add_buckets, new_token_bucket_set,
}
use oxy.RateLimit.BucketSet.Atomic.{Each, AllExact, Spent, Untouched, consume_set_atomic}
use oxy.RateLimit.BucketSet.Rates.{IsRateSet, Matches, update_set_lem}

program : Unit {0}
unfolding new_token_bucket consume take_tokens refill update_available_tokens time_sub
    time_till_available div64 rollback update ◌+ℤ◌ ◌-ℤ◌ ◌*ℤ◌ quot wrap64 add64 sub64 mul64 clamp64
    serve_all consume_set consume_each rollback_all tally add add_buckets new_token_bucket_set
    longest
program = tt

-- Ten tokens a second, in a burst of at most three.
abbrev slow : Rate
slow = record { period = pos 1_000_000_000; average = pos 10; burst = pos 3 }

abbrev full : TokenBucket
full = record {
  period = pos 1_000_000_000;
  time_per_token = pos 100_000_000;
  burst = pos 3;
  available_tokens = pos 3;
  last_refresh = pos 5;
  last_consumed = pos 0;
}

new_bucket : new_token_bucket (pos 5) slow ≡ some full
unfolding program
new_bucket = refl

full-Holds : Holds full 3 3 100_000_000
full-Holds = record {
  available = refl;
  burst = refl;
  per_token = refl;
  capped = omega arith;
  refills = omega arith;
}

-- Four requests for one token at once: the fourth has to wait.
burst_spent : (serve_all (pos 5) ((0, 1) ∷ (0, 1) ∷ (0, 1) ∷ (0, 1) ∷ []) full).0 ≡ 3
unfolding program
burst_spent = refl

serve_all-le_example :
    (serve_all (pos 5) ((0, 2) ∷ (7, 1) ∷ (250_000_000, 2) ∷ []) full).0
    ≤ 3 + 250_000_007 / (1_000_000_000 / 10)
unfolding program
serve_all-le_example =
    serve_all-le (pos 5) 1_000_000_000 10 3 ((0, 2) ∷ (7, 1) ∷ (250_000_000, 2) ∷ []) {tb = full}
      (omega arith) (omega arith) (omega arith) (omega arith) (omega arith) new_bucket

consume-outcome_example : consume (pos 5 +ℤ pos 40) (pos 2) full ≡ outcome 40 2 3 3 100_000_000 full
consume-outcome_example =
    consume-outcome 40 2 3 3 100_000_000 full full-Holds (omega arith) (omega arith) (omega arith)

abbrev one_left : TokenBucket
one_left = record full { available_tokens = pos 1 }

one_left-Holds : Holds one_left 1 3 100_000_000
one_left-Holds = record {
  available = refl;
  burst = refl;
  per_token = refl;
  capped = omega arith;
  refills = omega arith;
}

has_to_wait : (consume (pos 5 +ℤ pos 40) (pos 3) one_left).1 ≡ pos 200_000_000
unfolding program
has_to_wait = refl

consume_after_delay_example :
    let again =
      consume
        (pos 5 +ℤ pos 40 +ℤ pos 200_000_000)
        (pos 3)
        (consume (pos 5 +ℤ pos 40) (pos 3) one_left).0 in
    (again.1 ≡ pos 0) × (again.2 ≡ none)
consume_after_delay_example =
    consume_after_delay 40 3 1 3 100_000_000 200_000_000 one_left one_left-Holds (omega arith)
      (omega arith) has_to_wait

abbrev pair : TokenBucketSet
pair = record {
  buckets = (pos 1_000_000_000, full) ∷ (pos 1_000_000_000, one_left) ∷ [];
  max_period = pos 1_000_000_000;
}

abbrev at_45 : ℕ → ℤ
at_45 i = pos 45

pair-AllExact : AllExact at_45 pair.buckets
unfolding ◌+ℤ◌
pair-AllExact = (
  record {
    tokens = 3;
    burst = 3;
    per_token = 100_000_000;
    since = 40;
    time = refl;
    holds = full-Holds;
    small = omega arith;
  },
  (
    record {
      tokens = 1;
      burst = 3;
      per_token = 100_000_000;
      since = 40;
      time = refl;
      holds = one_left-Holds;
      small = omega arith;
    },
    tt,
  ),
)

consume_set_atomic_example :
    let (s', delay, err) = consume_set at_45 (pos 2) pair in
    ((is_refused delay err ≡ false) × Each (Spent 2) at_45 pair.buckets s'.buckets)
    ⊎ ((is_refused delay err ≡ true) × Each Untouched at_45 pair.buckets s'.buckets)
consume_set_atomic_example = consume_set_atomic at_45 2 pair pair-AllExact

abbrev rates : RateSet
rates = (pos 1_000_000_000, slow) ∷ []

rates-IsRateSet : IsRateSet rates
rates-IsRateSet = (
  (refl, tt),
  (record { key = refl; period = omega arith; average = omega arith; burst = omega arith }, tt),
)

abbrev single : TokenBucketSet
single = record { buckets = (pos 7, record full { period = pos 7 }) ∷ []; max_period = pos 7 }

update_set_lem_example :
    (s' : TokenBucketSet) × (update_set at_45 rates single ≡ some s')
    × (s'.max_period ≡ longest (pos 0) s'.buckets)
    × ((q : ℤ) → Matches rates single.buckets s'.buckets q)
update_set_lem_example = update_set_lem at_45 rates single rates-IsRateSet (refl, tt) (refl, tt)
