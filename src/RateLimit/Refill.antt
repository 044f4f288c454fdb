-- ===== src/RateLimit/Refill.antt =====
-- What one refresh of a bucket adds, in exact arithmetic.
use oxy.Base.{ℕ, ◌+◌, ◌/◌, ◌^◌, ◌≤◌, ◌<◌, ◌≡◌, arith, if◌then◌else◌, ltb, ◌==◌}
use oxy.Base.Int.{ℤ, pos, ◌+ℤ◌, ◌-ℤ◌, quot, int_laws}
use oxy.Base.Int64.{wrap64, add64, wrap64_exact, clamp64_exact}
use native.Mathlib.Nat.{div-le_self}
use oxy.RateLimit.Bucket.{TokenBucket, refill, update_available_tokens, time_sub}

-- The quantities of a bucket in normal operation: `a` tokens of at most `b`, one more for each `p`
-- nanoseconds.
pub record Holds (tb : TokenBucket) (a b p : ℕ) : Type 0 where
  pub available : tb.available_tokens ≡ pos a
  pub burst : tb.burst ≡ pos b
  pub per_token : tb.time_per_token ≡ pos p
  pub capped : a ≤ b
  pub refills : 0 < p

-- The tokens after `d` nanoseconds.
abbrev pub refilled : ℕ → ℕ → ℕ → ℕ → ℕ
refilled a b p d = if ltb b (a + d / p) then b else a + d / p

time_sub_exact : (t : ℤ) (d : ℕ) → d < 2 ^ 63 → time_sub (t +ℤ pos d) t ≡ pos d
unfolding time_sub
time_sub_exact t d h =
    let e : t +ℤ pos d -ℤ t ≡ pos d = omega int_laws in rw e (clamp64_exact (pos d) (omega arith))

quot_exact : (d p : ℕ) → d < 2 ^ 63 → wrap64 (quot (pos d) (pos p)) ≡ pos (d / p)
unfolding quot
quot_exact d p h = wrap64_exact (pos (d / p)) (omega (arith, div-le_self d p))

pub add_exact : (a b : ℕ) → a + b < 2 ^ 63 → add64 (pos a) (pos b) ≡ pos (a + b)
unfolding add64
add_exact a b h =
    let e : pos a +ℤ pos b ≡ pos (a + b) = omega int_laws in
    rw e (wrap64_exact (pos (a + b)) (omega arith))

-- The bucket after `d` nanoseconds; the checkpoint moves only if a token was added.
unfoldable pub after : (d a b p : ℕ) → TokenBucket → TokenBucket
after d a b p tb = record tb {
  last_refresh = if d / p == 0 then tb.last_refresh else tb.last_refresh +ℤ pos d;
  available_tokens = pos (refilled a b p d);
}

pub update_available_tokens-after :
    (d a b p : ℕ) (tb : TokenBucket)
    → Holds tb a b p
    → a + d < 2 ^ 63
    → update_available_tokens (tb.last_refresh +ℤ pos d) tb ≡ after d a b p tb
unfolding update_available_tokens refill after
update_available_tokens-after d a b p tb h small = ground (
  arith,
  time_sub_exact tb.last_refresh d (omega arith),
  quot_exact d p (omega arith),
  add_exact a (d / p) (omega (arith, div-le_self d p)),
)
