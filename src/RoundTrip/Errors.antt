-- ===== src/RoundTrip/Errors.antt =====
-- The ratio of network errors after a run of requests.
use oxy.Base.{
  ℕ, suc, ◌+◌, ◌^◌, ◌<◌, ◌≤◌, ◌==◌, ◌≡◌, refl, subst, arith, true, false, Option, none, some,
  if◌then◌else◌, Bool-cases, inl, inr, List, [], ◌∷◌, length,
}
use oxy.Base.Int.{ℤ, pos, eqb_ℤ}
use oxy.Counter.Shows.{Shows, count-Shows, cleaned-Shows}
use oxy.Ratio.{Quotient}
use oxy.Histogram.{Hdr}
use oxy.Histogram.Window.{IsHdr}
use oxy.RoundTrip.{RtMetrics, is_net_error, record_metrics, network_error_ratio}
use oxy.RoundTrip.Recorded.{one_more, Measures, record_metrics-Measures}

-- How many of the requests, each with its code and duration, are network errors.
abbrev pub net_count : List (ℤ × ℤ) → ℕ
net_count [] = 0
net_count ((code, d) ∷ rs) = if is_net_error code then suc (net_count rs) else net_count rs

one_more-le : (code : ℤ) (s : ℤ → ℕ) (k : ℤ) → one_more code s k ≤ s k + 1
one_more-le code s k = ground arith

module _ (hdr : Hdr) (laws : IsHdr hdr) where
  -- `Record` for each request, at one time.
  unfoldable pub record_each : ℤ → List (ℤ × ℤ) → RtMetrics hdr → Option (RtMetrics hdr)
  record_each now [] m = some m
  record_each now ((code, d) ∷ rs) m = elim (record_metrics hdr (λ _. now) code d m) [
    | none ↦ none
    | some m' ↦ record_each now rs m'
  ]

  -- The metrics count some requests, of which some are network errors.
  abbrev Counts : ℤ → RtMetrics hdr → ℕ → ℕ → ℕ → Type 0
  Counts now m t e n = (s : ℤ → ℕ) × Measures hdr laws now m t e s × ((k : ℤ) → s k + n < 2 ^ 63)

  record_each-Counts :
      (now : ℤ) (rs : List (ℤ × ℤ)) (m : RtMetrics hdr) (t e : ℕ)
      → Counts now m t e (length rs)
      → e ≤ t
      → t + length rs < 2 ^ 63
      → (m' : RtMetrics hdr) × (record_each now rs m ≡ some m')
        × Shows now m'.total (t + length rs)
        × Shows now m'.net_errors (e + net_count rs)
  unfolding record_each
  record_each-Counts now [] m t e (s, h, low) le fits = (
    m,
    refl,
    subst (Shows now m.total) (omega arith) h.total,
    subst (Shows now m.net_errors) (omega arith) h.net_errors,
  )
  record_each-Counts now ((code, d) ∷ rs) m t e (s, h, low) le fits =
      let (m1, eq, h1) =
        record_metrics-Measures hdr laws now code d m t e s h (omega arith) (omega arith)
          (omega (arith, low code)) in
      let (m2, eq2, st, se) =
        record_each-Counts now rs m1 (t + 1) (if is_net_error code then e + 1 else e)
          (one_more code s, h1, λ k. omega (arith, low k, one_more-le code s k)) (ground arith)
          (omega arith) in
      (
        m2,
        rw (record_each, eq) eq2,
        subst (Shows now m2.total) (omega arith) st,
        subst (Shows now m2.net_errors) (ground arith) se,
      )

  net_count-le : (rs : List (ℤ × ℤ)) → net_count rs ≤ length rs
  net_count-le [] = omega arith
  net_count-le ((code, d) ∷ rs) = ground (arith, net_count-le rs)

  -- Metrics that count t requests, of which e are network errors, record requests at one time: none of
  -- the calls panics, and `NetworkErrorRatio` then is the quotient of e plus the requests with code 502
  -- or 504 by t plus all the requests, or 0 if there are none, as long as all counts fit in an int64.
  pub network_error_ratio-record_each :
      {F : Type 0} (floats : Quotient F) (now : ℤ) (rs : List (ℤ × ℤ)) (m : RtMetrics hdr) (t e : ℕ)
      (s : ℤ → ℕ)
      → Measures hdr laws now m t e s
      → ((k : ℤ) → s k + length rs < 2 ^ 63)
      → e ≤ t
      → t + length rs < 2 ^ 63
      → (m' m'' : RtMetrics hdr) × (record_each now rs m ≡ some m')
        × (network_error_ratio hdr floats (λ _. now) m'
            ≡ some (
              m'',
              if (t + length rs) == 0
                  then floats.zero_float
                  else floats.divide
                      (floats.of_int (pos (e + net_count rs)))
                      (floats.of_int (pos (t + length rs))),
            ))
  unfolding network_error_ratio
  network_error_ratio-record_each floats now rs m t e s h low le fits =
      let (m', eq, st, se) = record_each-Counts now rs m t e (s, h, low) le fits in
      let n = t + length rs in
      let et = count-Shows now m'.total n st fits in
      let twice = cleaned-Shows now m'.total n st in
      let again = count-Shows now st.cleaned n twice fits in
      let ee =
        count-Shows now m'.net_errors (e + net_count rs) se (omega (arith, net_count-le rs)) in
      elim (Bool-cases (n == 0)) [
        | inl idle ↦
            let test : eqb_ℤ (pos n) (pos 0) ≡ true = ground (arith, idle) in
            (
              m',
              record m' { total = st.cleaned },
              eq,
              rw (network_error_ratio, et, test, idle) refl,
            )
        | inr busy ↦
            let test : eqb_ℤ (pos n) (pos 0) ≡ false = ground (arith, busy) in
            (
              m',
              record m' { total = twice.cleaned; net_errors = se.cleaned },
              eq,
              rw (network_error_ratio, et, test, ee, again, busy) refl,
            )
      ]
