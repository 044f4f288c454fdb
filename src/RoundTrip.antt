-- ===== src/RoundTrip.antt =====
-- memmetrics/roundtrip.go: counters and a histogram of round trips. `clock i` is what the i-th call of
-- `clock.Now()` reads within one call of a method, and `none` is a panic. The locks make the parts of a
-- method on the status codes single steps.
mod StatusCodes
pub mod Recorded
pub mod Errors
mod Tests
unfoldable pub use StatusCodes.*
use Prim.Native.String.{String}
use oxy.Base.{
  ℕ, ◌+◌, suc, Bool, true, false, Option, none, some, if◌then◌else◌, not, ◌&&◌, ◌||◌, List, [], ◌∷◌,
  map,
}
use oxy.Base.Int.{ℤ, pos, ltb_ℤ, leb_ℤ, eqb_ℤ}
use oxy.Base.Int64.{add64}
use oxy.Base.Assoc.{int_eq, lookup, insert}
use oxy.Base.Result.{Result, err, ok}
use oxy.Counter.{
  RollingCounter, CounterError, bad_buckets, new_counter as make_counter, second, inc, count,
  append, clone, reset_counter,
}
use oxy.Ratio.{Quotient}
use oxy.Histogram.{
  Hdr, HdrHistogram, RollingHistogram, record_latencies, merged, reset_rolling, export_rolling,
  append_rolling, new_rolling_histogram,
}

-- `RTMetrics`. `new_counter` and `new_hist` are what its functions of these names return.
pub record RtMetrics (hdr : Hdr) : Type 0 where
  pub total : RollingCounter
  pub net_errors : RollingCounter
  pub status_codes : Codes
  pub histogram : RollingHistogram hdr
  pub new_counter : Result CounterError RollingCounter
  pub new_hist : Result String (RollingHistogram hdr)

-- `code == http.StatusGatewayTimeout || code == http.StatusBadGateway`
abbrev pub is_net_error : ℤ → Bool
is_net_error code = eqb_ℤ code (pos 504) || eqb_ℤ code (pos 502)

-- `c, err := ...; if err != nil`
abbrev pub checked :
    Option RollingCounter × Option CounterError → Result CounterError RollingCounter
checked (c, some e) = err e
checked (some c, none) = ok c
checked (none, none) = err bad_buckets

-- `NewCounter(counterBuckets, counterResolution)`
unfoldable pub default_counter : Result CounterError RollingCounter
default_counter = checked (make_counter (pos 10) second)

module _ (hdr : Hdr) where
  -- `Record`
  unfoldable pub record_metrics : (ℕ → ℤ) → ℤ → ℤ → RtMetrics hdr → Option (RtMetrics hdr)
  record_metrics clock code duration m = elim (inc (clock 0) (clock 1) (pos 1) m.total) [
    | none ↦ none
    | some t ↦
        elim (if is_net_error code
          then inc (clock 2) (clock 3) (pos 1) m.net_errors
          else some m.net_errors) [
            | none ↦ none
            | some e ↦
                elim (record_status_code (clock 4) (clock 5) code m.new_counter m.status_codes) [
                  | none ↦ none
                  | some codes ↦
                      elim (record_latencies hdr (clock 6) (clock 7) duration (pos 1) m.histogram) [
                        | none ↦ none
                        | some (h, _) ↦ some (record m {
                          total = t;
                          net_errors = e;
                          status_codes = codes;
                          histogram = h;
                        })
                      ]
                ]
          ]
  ]

  -- `NetworkErrorRatio`
  unfoldable pub network_error_ratio :
      {F : Type 0} → Quotient F → (ℕ → ℤ) → RtMetrics hdr → Option (RtMetrics hdr × F)
  network_error_ratio floats clock m = elim (count (clock 0) m.total) [
    | none ↦ none
    | some (t, n) ↦
        if eqb_ℤ n (pos 0)
        then some (record m { total = t }, floats.zero_float)
        else elim (count (clock 1) m.net_errors) [
          | none ↦ none
          | some (e, k) ↦ elim (count (clock 2) t) [
            | none ↦ none
            | some (t', n') ↦ some (
              record m { total = t'; net_errors = e },
              floats.divide (floats.of_int k) (floats.of_int n'),
            )
          ]
        ]
  ]

  -- `ResponseCodeRatio`
  unfoldable pub response_code_ratio :
      {F : Type 0}
      → Quotient F
      → (ℕ → ℤ)
      → ℤ
      → ℤ
      → ℤ
      → ℤ
      → RtMetrics hdr
      → Option (RtMetrics hdr × F)
  response_code_ratio floats clock start_a end_a start_b end_b m =
      elim (count_ranges clock (start_a, end_a) (start_b, end_b) (pos 0) (pos 0) m.status_codes) [
        | none ↦ none
        | some (codes, (a, b)) ↦ some (
          record m { status_codes = codes },
          if not (eqb_ℤ b (pos 0))
              then floats.divide (floats.of_int a) (floats.of_int b)
              else floats.zero_float,
        )
      ]

  -- `StatusCodesCounts`
  unfoldable pub status_codes_counts :
      (ℕ → ℤ) → RtMetrics hdr → Option (RtMetrics hdr × List (ℤ × ℤ))
  status_codes_counts clock m = elim (code_counts clock m.status_codes) [
    | none ↦ none
    | some (codes, counts) ↦ some (record m { status_codes = codes }, counts)
  ]

  -- `LatencyHistogram`
  unfoldable pub latency_histogram : RtMetrics hdr → Result String (HdrHistogram hdr)
  latency_histogram m = merged hdr m.histogram

  -- `Reset`
  unfoldable pub reset_metrics : ℤ → RtMetrics hdr → RtMetrics hdr
  reset_metrics now m = record m {
    histogram = reset_rolling hdr now m.histogram;
    total = reset_counter m.total;
    net_errors = reset_counter m.net_errors;
    status_codes = [];
  }

  -- `RTOption`
  pub data RtOption : Type 0 where
    rt_counter : Result CounterError RollingCounter → RtOption
    rt_histogram : Result String (RollingHistogram hdr) → RtOption

  -- The settings, the counter and the histogram; `none` is a function that is nil.
  unfoldable pub apply_settings :
      List RtOption
      → Option (Result CounterError RollingCounter)
      → Option (Result String (RollingHistogram hdr))
      → Option (Result CounterError RollingCounter) × Option (Result String (RollingHistogram hdr))
  apply_settings [] c h = (c, h)
  apply_settings (rt_counter c' ∷ settings) c h = apply_settings settings (some c') h
  apply_settings (rt_histogram h' ∷ settings) c h = apply_settings settings c (some h')

  -- `NewRollingHDRHistogram` with the constants of the package.
  unfoldable pub default_hist : Result String (RollingHistogram hdr)
  default_hist = new_rolling_histogram hdr (pos 1) (pos 3600000000) (pos 2) (pos 10000000000) 6

  -- The errors of `NewRTMetrics`.
  pub data MetricsError : Type 0 where
    counter_error : CounterError → MetricsError
    hist_error : String → MetricsError

  -- `NewRTMetrics`
  unfoldable pub new_metrics : List RtOption → Result MetricsError (RtMetrics hdr)
  new_metrics settings =
      let (c, h) = apply_settings settings none none in
      let made : Result CounterError RollingCounter = elim c [
        | none ↦ default_counter
        | some c' ↦ c'
      ] in
      let hist : Result String (RollingHistogram hdr) = elim h [
        | none ↦ default_hist
        | some h' ↦ h'
      ] in
      elim hist [
        | err e ↦ err (hist_error e)
        | ok r ↦ elim made [
          | err e ↦ err (counter_error e)
          | ok c' ↦ ok (record {
            total = c';
            net_errors = c';
            status_codes = [];
            histogram = r;
            new_counter = ok c';
            new_hist = ok r;
          })
        ]
      ]

  -- `Export`: the metrics and the copy.
  unfoldable pub export_metrics : (ℕ → ℤ) → RtMetrics hdr → Option (RtMetrics hdr × RtMetrics hdr)
  export_metrics clock m = elim (clone (clock 0) m.total) [
    | none ↦ none
    | some (t, t') ↦ elim (clone (clock 1) m.net_errors) [
      | none ↦ none
      | some (e, e') ↦ elim (clone_each (λ i. clock (i + 2)) m.status_codes) [
        | none ↦ none
        | some (codes, codes') ↦ some (
          record m { total = t; net_errors = e; status_codes = codes },
          record m {
            total = t';
            net_errors = e';
            status_codes = codes';
            histogram = export_rolling hdr m.histogram;
          },
        )
      ]
    ]
  ]

  -- `Append`, for metrics that are not the same object: both metrics and the error.
  unfoldable pub append_metrics :
      (ℕ → ℤ)
      → (ℕ → ℤ)
      → RtMetrics hdr
      → RtMetrics hdr
      → Option (RtMetrics hdr × RtMetrics hdr × Option String)
  append_metrics clock clock' m other =
      elim (append (clock 0) (clock 1) (clock 2) m.total other.total) [
        | none ↦ none
        | some (t, t') ↦ elim (append (clock 3) (clock 4) (clock 5) m.net_errors other.net_errors) [
          | none ↦ none
          | some (e, e') ↦
              elim (export_metrics clock' (record other { total = t'; net_errors = e' })) [
                | none ↦ none
                | some (other', copied) ↦
                    elim (append_each (λ i. clock (i + 6)) copied.status_codes m.status_codes) [
                      | none ↦ none
                      | some codes ↦ elim (append_rolling hdr m.histogram copied.histogram) [
                        | none ↦ none
                        | some (h, none) ↦ some (
                          record m {
                            total = t;
                            net_errors = e;
                            status_codes = codes;
                            histogram = h;
                          },
                          other',
                          none,
                        )
                        | some (h, some text) ↦ some (
                          record m {
                            total = t;
                            net_errors = e;
                            status_codes = codes;
                            histogram = h;
                          },
                          other',
                          some text,
                        )
                      ]
                    ]
              ]
        ]
      ]
