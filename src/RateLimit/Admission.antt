-- ===== src/RateLimit/Admission.antt =====
-- The promises of a token bucket over time: how much it grants, and that its advice to wait is right.
use native.Mathlib.Nat.{div-mul-le_self, mul-le-mul_right, le-div_iff_mul-le, div-le_self}
use oxy.Base.{
  ℕ, ◌+◌, ◌-◌, ◌*◌, ◌/◌, ◌^◌, ◌≤◌, ◌<◌, ◌≡◌, arith, if◌then◌else◌, ltb, ◌==◌, ◌∙◌, inl, inr, Option,
  none, some, Bool-cases, List, [], ◌∷◌, ap,
}
use oxy.Base.Int.{ℤ, pos, ltb_ℤ, ◌+ℤ◌, int_laws}
use oxy.Base.Int.{quot}
use oxy.Base.Int64.{wrap64, wrap64_exact}
use oxy.RateLimit.Bucket.{TokenBucket, Error, consume, new_token_bucket, div64}
use oxy.RateLimit.Refill.{Holds, refilled, after}
use oxy.RateLimit.Consume.{outcome, consume-outcome, waited_enough}

-- The tokens that a caller spends on an answer: it goes ahead when there is no error and no delay.
abbrev pub granted : ℕ → ℤ → Option Error → ℕ
granted t delay none = if ltb_ℤ (pos 0) delay then 0 else t
granted t delay (some _) = 0

-- Requests in order, each some nanoseconds after the one before, for some number of tokens: the
-- tokens granted in all, and the bucket at the end.
unfoldable pub serve_all : ℤ → List (ℕ × ℕ) → TokenBucket → ℕ × TokenBucket
serve_all now [] tb = (0, tb)
serve_all now ((gap, t) ∷ rest) tb =
    let (tb', delay, err) = consume (now +ℤ pos gap) (pos t) tb in
    let (total, final) = serve_all (now +ℤ pos gap) rest tb' in (granted t delay err + total, final)

abbrev pub elapsed : List (ℕ × ℕ) → ℕ
elapsed [] = 0
elapsed ((gap, _) ∷ rest) = gap + elapsed rest

pays : (g l a q p s d : ℕ) → g + l ≤ a + q → q * p + s ≤ d → g * p + l * p + s ≤ a * p + d
pays g l a q p s d h k =
    let scaled : (g + l) * p ≤ (a + q) * p = mul-le-mul_right p h in omega (arith, scaled)

pub short_waits : (t have p : ℕ) → have < t → 0 < p → 0 < (t - have) * p
short_waits t have p h k = grind arith

module _ (d t a b p : ℕ) (tb : TokenBucket) where
  abbrev left : ℕ
  left =
      let have = refilled a b p d in if ltb b t then have else if ltb have t then have else have - t

  -- The nanoseconds since the checkpoint.
  abbrev slack : ℕ
  slack = if d / p == 0 then d else 0

  outcome-Holds : Holds tb a b p → Holds (outcome d t a b p tb).0 left b p
  unfolding outcome after
  outcome-Holds h = ground arith

  outcome_time : tb.last_refresh +ℤ pos d ≡ (outcome d t a b p tb).0.last_refresh +ℤ pos slack
  unfolding outcome after
  outcome_time =
      let same : tb.last_refresh +ℤ pos d +ℤ pos 0 ≡ tb.last_refresh +ℤ pos d = omega int_laws in
      ground (arith, same)

  -- Every token that is granted or kept was there before, or was paid for by `p` nanoseconds.
  outcome_paid :
      0 < p
      → granted t (outcome d t a b p tb).1 (outcome d t a b p tb).2 * p + left * p + slack
        ≤ a * p + d
  unfolding outcome
  outcome_paid hp =
      pays (granted t (outcome d t a b p tb).1 (outcome d t a b p tb).2) left a (d / p) p slack d
        (ground (arith, short_waits t (refilled a b p d) p)) (ground (arith, div-mul-le_self d p))

serve_all_paid :
    (now : ℤ) (s a b p : ℕ) (reqs : List (ℕ × ℕ)) (tb : TokenBucket)
    → Holds tb a b p
    → now ≡ tb.last_refresh +ℤ pos s
    → b + s + elapsed reqs < 2 ^ 63
    → b * p < 2 ^ 63
    → (serve_all now reqs tb).0 * p ≤ a * p + s + elapsed reqs
unfolding serve_all
serve_all_paid now s a b p [] tb h e small hb = omega arith
serve_all_paid now s a b p ((gap, t) ∷ rest) tb h e small hb =
    let d = s + gap in
    let o = outcome d t a b p tb in
    let at : now +ℤ pos gap ≡ tb.last_refresh +ℤ pos d = rw e (omega int_laws) in
    let step : consume (now +ℤ pos gap) (pos t) tb ≡ o =
      rw at (consume-outcome d t a b p tb h (omega arith) (omega arith) hb) in
    let later =
      serve_all_paid (now +ℤ pos gap) (slack d t a b p tb) (left d t a b p tb) b p rest o.0
        (outcome-Holds d t a b p tb h) (at ∙ outcome_time d t a b p tb) (ground arith) hb in
    rw step (omega (arith, later, outcome_paid d t a b p tb h.refills))

new_token_bucket-Holds :
    (now : ℤ) (period average burst : ℕ) {tb : TokenBucket}
    → 0 < average
    → average ≤ period
    → period < 2 ^ 63
    → new_token_bucket now
        (record { period = pos period; average = pos average; burst = pos burst })
      ≡ some tb
    → Holds tb burst burst (period / average) × (tb.last_refresh ≡ now)
unfolding new_token_bucket div64 quot
new_token_bucket-Holds now period average burst {tb} ha hp small e =
    let positive : 1 ≤ period / average = (le-div_iff_mul-le ha).1 (omega arith) in
    let exact : wrap64 (pos (period / average)) ≡ pos (period / average) =
      wrap64_exact _ (omega (arith, div-le_self period average)) in
    (
      record {
        available = ground (arith, exact);
        burst = ground (arith, exact);
        per_token = ground (arith, exact);
        capped = omega arith;
        refills = positive;
      },
      ground (arith, exact),
    )

paid_sub : (total burst p time : ℕ) → total * p ≤ burst * p + time → (total - burst) * p ≤ time
paid_sub total burst p time h = elim (Bool-cases (ltb total burst)) [
  | inl less ↦ let none_left : total - burst ≡ 0 = ground arith in rw none_left (omega arith)
  | inr more ↦
      let split : (total - burst + burst) * p ≡ total * p = ap (λ (n : ℕ). n * p) (ground arith) in
      omega (arith, split)
]

spent_le :
    (total burst p time : ℕ) → 0 < p → total * p ≤ burst * p + time → total ≤ burst + time / p
spent_le total burst p time hp h =
    let over : total - burst ≤ time / p =
      (le-div_iff_mul-le hp).1 (paid_sub total burst p time h) in
    omega (arith, over)

-- However the requests fall, a bucket made at `now` for `average` tokens each `period` nanoseconds
-- and a burst of `burst` grants at most the burst and one token for each `period / average`
-- nanoseconds that pass, as long as these quantities fit in an int64.
pub serve_all-le :
    (now : ℤ) (period average burst : ℕ) (reqs : List (ℕ × ℕ)) {tb : TokenBucket}
    → 0 < average
    → average ≤ period
    → period < 2 ^ 63
    → burst + elapsed reqs < 2 ^ 63
    → burst * (period / average) < 2 ^ 63
    → new_token_bucket now
        (record { period = pos period; average = pos average; burst = pos burst })
      ≡ some tb
    → (serve_all now reqs tb).0 ≤ burst + elapsed reqs / (period / average)
serve_all-le now period average burst reqs {tb} ha hp small fits hb e =
    let p = period / average in
    let (holds, at) = new_token_bucket-Holds now period average burst ha hp small e in
    let start : now ≡ tb.last_refresh +ℤ pos 0 = rw at (omega int_laws) in
    let paid = serve_all_paid now 0 burst burst p reqs tb holds start (omega arith) hb in
    spent_le (serve_all now reqs tb).0 burst p (elapsed reqs) holds.refills (omega (arith, paid))

module _ (d t a b p : ℕ) (tb : TokenBucket) where
  outcome_delayed :
      (w : ℕ)
      → 0 < w
      → (outcome d t a b p tb).1 ≡ pos w
      → (t ≤ b) × (refilled a b p d < t) × (w ≡ (t - refilled a b p d) * p)
  unfolding outcome
  outcome_delayed w hw e = ground arith

  outcome_granted :
      t ≤ b
      → t ≤ refilled a b p d
      → ((outcome d t a b p tb).1 ≡ pos 0) × ((outcome d t a b p tb).2 ≡ none)
  unfolding outcome
  outcome_granted hb ht = ground arith

module _ (d t a b p w : ℕ) (tb : TokenBucket) where
  -- If `consume` answers with a delay, the same request made when that delay has passed is granted:
  -- no error and no delay. `a` of at most `b` tokens are there, one more comes each `p` nanoseconds,
  -- the request comes `d` nanoseconds after the checkpoint, and the quantities fit in an int64.
  pub consume_after_delay :
      Holds tb a b p
      → b + d + b * p < 2 ^ 63
      → 0 < w
      → (consume (tb.last_refresh +ℤ pos d) (pos t) tb).1 ≡ pos w
      → let again =
          consume
            (tb.last_refresh +ℤ pos d +ℤ pos w)
            (pos t)
            (consume (tb.last_refresh +ℤ pos d) (pos t) tb).0 in
        (again.1 ≡ pos 0) × (again.2 ≡ none)
  consume_after_delay h small hw e =
      let step = consume-outcome d t a b p tb h (omega arith) (omega arith) (omega arith) in
      let o = outcome d t a b p tb in
      let (fits, short, delay) = outcome_delayed d t a b p tb w hw (rw step at e) in
      let s = slack d t a b p tb + w in
      let l = left d t a b p tb in
      let at : tb.last_refresh +ℤ pos d +ℤ pos w ≡ o.0.last_refresh +ℤ pos s =
        rw (outcome_time d t a b p tb) (omega int_laws) in
      let kept : l ≡ refilled a b p d = ground arith in
      let waits : w ≤ b * p = rw delay (mul-le-mul_right p (omega arith)) in
      let enough : (t - l) * p ≤ s = rw (kept, ← delay) (ground arith) in
      let next =
        consume-outcome s t l b p o.0 (outcome-Holds d t a b p tb h) (ground arith) (omega arith)
          (omega arith) in
      rw (step, at, next)
        (outcome_granted s t l b p o.0 fits
          (waited_enough l t b p s h.refills (omega arith) fits enough))
