-- ===== src/RoundTrip/Tests.antt =====
-- Round trip metrics with two requests in them, at the tenth second.
use oxy.Base.{
  ℕ, ◌+◌, ◌^◌, ◌<◌, ◌==◌, ◌≡◌, refl, arith, some, if◌then◌else◌, List, [], ◌∷◌, Bool-cases, inl,
  inr,
}
use oxy.Base.Int.{ℤ, pos, eqb_ℤ}
use oxy.Base.Assoc.{int_eq}
use oxy.Base.Result.{ok}
use oxy.RoundTrip.Errors.{record_each, network_error_ratio-record_each}
use oxy.Ratio.Tests.{pairs, at, two, shown}
use oxy.Histogram.Tests.{counts, counts_laws, rolling, is_rolling}
use oxy.RoundTrip.{Codes, RtMetrics, record_metrics, is_net_error, network_error_ratio}
use oxy.RoundTrip.Recorded.{Counted, one_more, Measures, record_metrics-Measures}

abbrev codes : Codes
codes = (pos 200, two 6 1) ∷ []

abbrev metrics : RtMetrics counts
metrics = record {
  total = two 7 1;
  net_errors = two 8 0;
  status_codes = codes;
  histogram = rolling;
  new_counter = ok (two 0 0);
  new_hist = ok rolling;
}

abbrev seen : ℤ → ℕ
seen k = if eqb_ℤ k (pos 200) then 1 else 0

codes-Counted : Counted (at 10) seen codes
codes-Counted k = elim (Bool-cases (eqb_ℤ k (pos 200))) [
  | inl same ↦ rw same (shown 6 1)
  | inr apart ↦ rw apart refl
]

measured : Measures counts counts_laws (at 10) metrics 1 0 seen
measured = record {
  total = shown 7 1;
  net_errors = shown 8 0;
  codes = codes-Counted;
  fresh = two 0 0;
  made = refl;
  empty = shown 0 0;
  rolling = is_rolling;
}

record_metrics-Measures_example :
    (m : RtMetrics counts) × (record_metrics counts (λ _. at 10) (pos 502) (pos 30000) metrics
      ≡ some m)
    × Measures counts counts_laws
        (at 10)
        m
        (1 + 1)
        (if is_net_error (pos 502) then 0 + 1 else 0)
        (one_more (pos 502) seen)
record_metrics-Measures_example =
    record_metrics-Measures counts counts_laws (at 10) (pos 502) (pos 30000) metrics 1 0 seen
      measured (omega arith) (omega arith) (omega arith)

abbrev run : List (ℤ × ℤ)
run = (pos 502, pos 30000) ∷ (pos 200, pos 20000) ∷ []

seen-lt : (k : ℤ) → seen k + 2 < 2 ^ 63
seen-lt k = ground arith

network_error_ratio-record_each_example :
    (m' m'' : RtMetrics counts) × (record_each counts counts_laws (at 10) run metrics ≡ some m')
    × (network_error_ratio counts pairs (λ _. at 10) m'
        ≡ some (m'', if (1 + 2) == 0 then pairs.zero_float else (pos 1, pos 3)))
network_error_ratio-record_each_example =
    network_error_ratio-record_each counts counts_laws pairs (at 10) run metrics 1 0 seen measured
      seen-lt (omega arith) (omega arith)
