-- ===== src/RateLimit/Limiter/Tests.antt =====
-- A limiter over a list of entries that expire.
use Prim.Native.String.{String}
use oxy.Base.{
  ℕ, ◌<◌, ◌≡◌, refl, arith, sym, ◌∙◌, ◌⊎◌, inl, inr, Option, none, some, if◌then◌else◌, List, [],
  ◌∷◌, get_elem?, Bool-cases, Option-cases,
}
use text.Mathlib.TextEquality.{eq_iff}
use oxy.Base.Int.{ℤ, pos, ◌+ℤ◌, ◌-ℤ◌, ◌*ℤ◌, quot, leb_ℤ}
use oxy.Base.Int64.{add64, sub64, mul64, wrap64, clamp64}
use oxy.Base.Assoc.{int_eq, string_eq, lookup, insert, erase, lookup-insert, lookup-erase}
use oxy.RateLimit.Bucket.{
  div64, new_token_bucket, consume, take_tokens, update_available_tokens, refill, time_sub,
  time_till_available,
}
use oxy.RateLimit.BucketSet.{
  TokenBucketSet, RateSet, new_token_bucket_set, add_buckets, consume_set, consume_each, tally,
}
use oxy.RateLimit.BucketSet.Rates.{IsRateSet}
use oxy.RateLimit.Limiter.{
  Ttl, TokenLimiter, resolve_rates, ttl_seconds, verdict, spend, consume_known, consume_new,
  consume_rates,
}
use oxy.RateLimit.Limiter.Isolation.{IsTtl, IsOwned, consume_rates-apart}

program : Unit {0}
unfolding ◌+ℤ◌ ◌-ℤ◌ ◌*ℤ◌ quot add64 sub64 mul64 wrap64 clamp64 div64 new_token_bucket consume
    take_tokens update_available_tokens refill time_sub time_till_available new_token_bucket_set
    add_buckets consume_set consume_each tally resolve_rates ttl_seconds verdict spend consume_known
    consume_new consume_rates
program = tt

abbrev Entries : Type 0
Entries = List (String × (ℕ × ℤ))

-- An entry that has expired is removed.
abbrev expire : ℤ → String → Entries → Option (ℕ × ℤ) → Entries × Option ℕ
expire now k st none = (st, none)
expire now k st (some (p, until)) = if leb_ℤ until now then (erase k st, none) else (st, some p)

abbrev entries : Ttl
entries = record {
  State = Entries;
  get = λ now k st. expire now k st (lookup k st);
  set = λ now k p ttl st.
      if leb_ℤ ttl (pos 0) then (st, some "ttl") else (insert k (p, now +ℤ ttl) st, none);
}

abbrev Stored : Entries → String → ℕ → Type 0
Stored st k p = (until : ℤ) × (lookup k st ≡ some (p, until))

found_there :
    (now : ℤ) (k : String) (st : Entries) (p : ℕ)
    → (expire now k st (lookup k st)).1 ≡ some p
    → Stored st k p
found_there now k st p e = elim (Option-cases (lookup k st)) [
  | inl missing ↦ absurd (ground (arith, missing))
  | inr ((q, until), there) ↦ elim (Bool-cases (leb_ℤ until now)) [
    | inl old ↦ absurd (ground (arith, there, old))
    | inr fresh ↦ (until, ground (arith, there, fresh))
  ]
]

kept_there :
    (now : ℤ) (k : String) (st : Entries) (j : String) (p : ℕ)
    → Stored (expire now k st (lookup k st)).0 j p
    → Stored st j p
kept_there now k st j p (until, e) = elim (Option-cases (lookup k st)) [
  | inl missing ↦ (until, ground (arith, missing))
  | inr ((q, until'), there) ↦ elim (Bool-cases (leb_ℤ until' now)) [
    | inl old ↦ (until, ground (arith, there, old, lookup-erase k j st))
    | inr fresh ↦ (until, ground (arith, there, fresh))
  ]
]

set_there :
    (now : ℤ) (k : String) (v : ℕ) (ttl : ℤ) (st : Entries) (j : String) (p : ℕ)
    → Stored (entries.set now k v ttl st).0 j p
    → Stored st j p ⊎ ((j ≡ k) × (p ≡ v))
set_there now k v ttl st j p (until, e) = elim (Bool-cases (leb_ℤ ttl (pos 0))) [
  | inl bad ↦ inl (until, ground (arith, bad))
  | inr good ↦ elim (Bool-cases (string_eq.beq j k)) [
    | inl same ↦
        inr ((eq_iff j k).0 same, ground (arith, good, same, lookup-insert k j (v, now +ℤ ttl) st))
    | inr other ↦ inl (until, ground (arith, good, other, lookup-insert k j (v, now +ℤ ttl) st))
  ]
]

abbrev entries_laws : IsTtl entries
entries_laws = record {
  Holds = Stored;
  get-finds = found_there;
  get-keeps = kept_there;
  set-keeps = λ now k v ttl st j p held. set_there now k v ttl st j p held;
}

abbrev rates : RateSet
rates = (pos 1000000000, record { period = pos 1000000000; average = pos 1; burst = pos 2 }) ∷ []

rates-IsRateSet : IsRateSet rates
rates-IsRateSet = (
  (refl, tt),
  (record { key = refl; period = omega arith; average = omega arith; burst = omega arith }, tt),
)

abbrev bucket : ℕ → ℕ → TokenBucketSet
bucket tokens consumed = record {
  buckets =
      (
        pos 1000000000,
        record {
          period = pos 1000000000;
          time_per_token = pos 1000000000;
          burst = pos 2;
          available_tokens = pos tokens;
          last_refresh = pos 5;
          last_consumed = pos consumed;
        },
      )
      ∷ [];
  max_period = pos 1000000000;
}

-- A source with a bucket set, and then a request of another.
abbrev before : TokenLimiter entries
before = record {
  default_rates = rates;
  bucket_sets = ("b", (0, pos 100)) ∷ [];
  heap = bucket 1 0 ∷ [];
}

abbrev after : TokenLimiter entries
after = record {
  default_rates = rates;
  bucket_sets = ("b", (0, pos 100)) ∷ ("a", (1, pos 16)) ∷ [];
  heap = bucket 1 0 ∷ bucket 1 1 ∷ [];
}

before-bounded : (k : String) (p : ℕ) → Stored before.bucket_sets k p → p < 1
before-bounded k p (until, e) = elim (Bool-cases (string_eq.beq k "b")) [
  | inl same ↦ ground (arith, same)
  | inr other ↦ absurd (ground (arith, other))
]

before-owned :
    (k j : String) (p : ℕ) → Stored before.bucket_sets k p → Stored before.bucket_sets j p → k ≡ j
before-owned k j p (until, e) (until', e') = elim (Bool-cases (string_eq.beq k "b")) [
  | inr other ↦ absurd (ground (arith, other))
  | inl same ↦ elim (Bool-cases (string_eq.beq j "b")) [
    | inr other ↦ absurd (ground (arith, other))
    | inl same' ↦ (eq_iff k "b").0 same ∙ sym ((eq_iff j "b").0 same')
  ]
]

before-IsOwned : IsOwned entries entries_laws before
before-IsOwned = record {
  bounded = before-bounded;
  owned = before-owned;
  shaped = (((refl, tt), (refl, tt)), tt);
  rates = rates-IsRateSet;
}

requested : consume_rates entries (λ i j. pos 5) none "a" (pos 1) before ≡ some (after, none)
unfolding program
requested = refl

default_rates-IsRateSet : IsRateSet (resolve_rates none before.default_rates)
unfolding program
default_rates-IsRateSet = rates-IsRateSet

consume_rates-apart_example :
    Stored before.bucket_sets "b" 0 × (get_elem? after.heap 0 ≡ get_elem? before.heap 0)
consume_rates-apart_example =
    consume_rates-apart entries entries_laws (λ i j. pos 5) none "a" (pos 1) before before-IsOwned
      default_rates-IsRateSet requested "b" 0 (ground (arith, eq_iff "b" "a")) (inl (pos 100, refl))
