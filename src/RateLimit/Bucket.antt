-- ===== src/RateLimit/Bucket.antt =====
-- ratelimit/bucket.go: one token bucket. A time is a number of nanoseconds from a fixed origin, and
-- each call of `clock.Now()` is an argument. int64 and time.Duration wrap around.
use oxy.Base.{Option, none, some, if◌then◌else◌, not}
use oxy.Base.Int.{ℤ, pos, negsuc, ◌-ℤ◌, quot, ltb_ℤ, eqb_ℤ}
use oxy.Base.Int64.{wrap64, add64, sub64, mul64, clamp64}

-- `rate`
pub record Rate : Type 0 where
  pub period : ℤ
  pub average : ℤ
  pub burst : ℤ

-- `tokenBucket`
pub record TokenBucket : Type 0 where
  pub period : ℤ
  pub time_per_token : ℤ
  pub burst : ℤ
  pub available_tokens : ℤ
  pub last_refresh : ℤ
  pub last_consumed : ℤ

pub data Error : Type 0 where
  too_many_tokens : Error
  period_mismatch : ℤ → ℤ → Error

abbrev pub undefined_delay : ℤ
undefined_delay = negsuc 0

-- `a / b` on int64: `none` is the panic on a zero divisor.
unfoldable pub div64 : ℤ → ℤ → Option ℤ
div64 a b = if eqb_ℤ b (pos 0) then none else some (wrap64 (quot a b))

-- `now.Sub(t)`
unfoldable pub time_sub : ℤ → ℤ → ℤ
time_sub now t = clamp64 (now -ℤ t)

-- `newTokenBucket`; `none` is a panic.
unfoldable pub new_token_bucket : ℤ → Rate → Option TokenBucket
new_token_bucket now r =
    let period = if eqb_ℤ r.period (pos 0) then pos 1 else r.period in
    elim (div64 period r.average) [
      | none ↦ none
      | some per_token ↦ some (record {
        period = period;
        time_per_token = per_token;
        burst = r.burst;
        available_tokens = r.burst;
        last_refresh = now;
        last_consumed = pos 0;
      })
    ]

-- The part of `updateAvailableTokens` below its early return.
unfoldable pub refill : ℤ → ℤ → TokenBucket → TokenBucket
refill now tokens tb =
    let stepped =
      if eqb_ℤ tokens tb.available_tokens
      then tb
      else record tb { last_refresh = now; available_tokens = tokens } in
    if ltb_ℤ stepped.burst stepped.available_tokens
    then record stepped { available_tokens = stepped.burst }
    else stepped

-- `updateAvailableTokens`
unfoldable pub update_available_tokens : ℤ → TokenBucket → TokenBucket
update_available_tokens now tb =
    let passed = time_sub now tb.last_refresh in
    if eqb_ℤ tb.time_per_token (pos 0)
    then tb
    else refill now (add64 tb.available_tokens (wrap64 (quot passed tb.time_per_token))) tb

-- `timeTillAvailable`
unfoldable pub time_till_available : ℤ → TokenBucket → ℤ
time_till_available tokens tb = mul64 (sub64 tokens tb.available_tokens) tb.time_per_token

-- `consume`, after its first two statements.
unfoldable pub take_tokens : ℤ → TokenBucket → TokenBucket × ℤ × Option Error
take_tokens tokens tb =
    if ltb_ℤ tb.burst tokens
    then (tb, undefined_delay, some too_many_tokens)
    else if ltb_ℤ tb.available_tokens tokens
    then (tb, time_till_available tokens tb, none)
    else (
      record tb { available_tokens = sub64 tb.available_tokens tokens; last_consumed = tokens },
      pos 0,
      none,
    )

-- `consume`: the bucket, the delay and the error.
unfoldable pub consume : ℤ → ℤ → TokenBucket → TokenBucket × ℤ × Option Error
consume now tokens tb =
    take_tokens tokens (record (update_available_tokens now tb) { last_consumed = pos 0 })

-- `rollback`
unfoldable pub rollback : TokenBucket → TokenBucket
rollback tb = record tb {
  available_tokens = add64 tb.available_tokens tb.last_consumed;
  last_consumed = pos 0;
}

-- `update`: the outer `none` is a panic.
unfoldable pub update : Rate → TokenBucket → Option (TokenBucket × Option Error)
update r tb =
    if not (eqb_ℤ r.period tb.period)
    then some (tb, some (period_mismatch tb.period r.period))
    else elim (div64 tb.period r.average) [
      | none ↦ none
      | some per_token ↦ some (
        record tb {
          time_per_token = per_token;
          burst = r.burst;
          available_tokens =
              if ltb_ℤ r.burst tb.available_tokens then r.burst else tb.available_tokens;
        },
        none,
      )
    ]
