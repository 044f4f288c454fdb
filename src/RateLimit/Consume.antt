-- ===== src/RateLimit/Consume.antt =====
-- What one call of `consume` does, in natural numbers, and what its answers promise.
use oxy.Base.{
  ℕ, ◌+◌, ◌-◌, ◌*◌, ◌/◌, ◌^◌, ◌≤◌, ◌<◌, ◌≡◌, arith, if◌then◌else◌, ltb, ◌∙◌, inl, inr, Option, none,
  some, Bool-cases,
}
use oxy.Base.Int.{ℤ, pos, ◌+ℤ◌, ◌-ℤ◌, ◌*ℤ◌, int_laws}
use oxy.Base.Int64.{sub64, mul64, wrap64_exact, sub64_exact, IsInt64}
use native.Mathlib.Nat.{le-div_iff_mul-le}
use oxy.RateLimit.Bucket.{
  TokenBucket, Error, too_many_tokens, undefined_delay, consume, take_tokens, time_till_available,
  rollback,
}
use oxy.RateLimit.Refill.{Holds, refilled, after, update_available_tokens-after, add_exact}

-- The bucket, the delay and the error of a request for `t` tokens, `d` nanoseconds after the
-- checkpoint of a bucket that holds `a` tokens.
unfoldable pub outcome : (d t a b p : ℕ) → TokenBucket → TokenBucket × ℤ × Option Error
outcome d t a b p tb =
    let idle = record (after d a b p tb) { last_consumed = pos 0 } in
    let have = refilled a b p d in
    if ltb b t
    then (idle, undefined_delay, some too_many_tokens)
    else if ltb have t
    then (idle, pos ((t - have) * p), none)
    else (record idle { available_tokens = pos (have - t); last_consumed = pos t }, pos 0, none)

sub_exact : (t a : ℕ) → a ≤ t → t < 2 ^ 63 → sub64 (pos t) (pos a) ≡ pos (t - a)
sub_exact t a le h =
    let e : pos t -ℤ pos a ≡ pos (t - a) = omega int_laws in
    let fits : IsInt64 (pos t -ℤ pos a) = rw e (omega arith) in sub64_exact (pos t) (pos a) fits ∙ e

mul_exact : (m p : ℕ) → m * p < 2 ^ 63 → mul64 (pos m) (pos p) ≡ pos (m * p)
unfolding mul64 ◌*ℤ◌
mul_exact m p h =
    let e : pos m *ℤ pos p ≡ pos (m * p) = ground arith in
    rw e (wrap64_exact (pos (m * p)) (omega arith))

sub_le : (t a b p : ℕ) → t ≤ b → b * p < 2 ^ 63 → (t - a) * p < 2 ^ 63
sub_le t a b p h k = grind arith

module _ (d t a b p : ℕ) (tb : TokenBucket) where
  take_tokens_lem :
      b < 2 ^ 63
      → b * p < 2 ^ 63
      → Holds tb a b p
      → take_tokens (pos t) (record (after d a b p tb) { last_consumed = pos 0 })
        ≡ outcome d t a b p tb
  unfolding take_tokens outcome after time_till_available
  take_tokens_lem hb hp h = ground (
    arith,
    sub_exact t (refilled a b p d),
    sub_exact (refilled a b p d) t,
    mul_exact (t - refilled a b p d) p,
    sub_le t (refilled a b p d) b p,
  )

  -- The int64 code of `consume` computes `outcome` exactly while no quantity leaves the int64 range.
  pub consume-outcome :
      Holds tb a b p
      → a + d < 2 ^ 63
      → b < 2 ^ 63
      → b * p < 2 ^ 63
      → consume (tb.last_refresh +ℤ pos d) (pos t) tb ≡ outcome d t a b p tb
  unfolding consume
  consume-outcome h small hb hp =
      rw (update_available_tokens-after d a b p tb h small) (take_tokens_lem hb hp h)

  outcome-Holds :
      Holds tb a b p → (a' : ℕ) × Holds (outcome d t a b p tb).0 a' b p × (a' ≤ refilled a b p d)
  unfolding outcome after
  outcome-Holds h = elim (Bool-cases (ltb b t)) [
    | inl big ↦ (refilled a b p d, ground arith, ground arith)
    | inr fits ↦ elim (Bool-cases (ltb (refilled a b p d) t)) [
      | inl short ↦ (refilled a b p d, ground arith, ground arith)
      | inr enough ↦ (refilled a b p d - t, ground arith, ground arith)
    ]
  ]

  -- `rollback` after `consume` leaves the refilled bucket, with nothing consumed.
  pub rollback-outcome :
      Holds tb a b p
      → b < 2 ^ 63
      → rollback (outcome d t a b p tb).0 ≡ record (after d a b p tb) { last_consumed = pos 0 }
  unfolding rollback outcome after
  rollback-outcome h hb =
      ground (arith, add_exact (refilled a b p d - t) t, add_exact (refilled a b p d) 0)

pub waited_enough : (a t b p e : ℕ) → 0 < p → a ≤ t → t ≤ b → (t - a) * p ≤ e → t ≤ refilled a b p e
waited_enough a t b p e hp le fits w =
    let q : t - a ≤ e / p = (le-div_iff_mul-le hp).1 w in ground arith
