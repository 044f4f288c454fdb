-- ===== src/Ratio.antt =====
-- memmetrics/ratio.go, and the code meter of roundrobin/rebalancer.go that stands on it. Each counter
-- reads the clock by itself; `none` is a panic.
pub mod Rating
pub mod Tests
use oxy.Base.{Option, none, some, if◌then◌else◌, ◌&&◌, Bool, length, ◌>>=◌}
use oxy.Base.Int.{ℤ, pos, ltb_ℤ, leb_ℤ, eqb_ℤ}
use oxy.Base.Int64.{add64}
use oxy.Counter.{RollingCounter, CounterError, new_counter, reset_counter, count, inc}

-- float64, as the ratio uses it.
pub record Quotient (F : Type 0) : Type 0 where
  pub zero_float : F
  pub of_int : ℤ → F
  pub divide : F → F → F

-- `RatioCounter`
pub record RatioCounter : Type 0 where
  pub a : RollingCounter
  pub b : RollingCounter

-- `NewRatioCounter`, with no options.
unfoldable pub new_ratio_counter : ℤ → ℤ → Option RatioCounter × Option CounterError
new_ratio_counter buckets resolution =
    let (a, e) = new_counter buckets resolution in
    let (b, e') = new_counter buckets resolution in
    elim e [
      | some e0 ↦ (none, some e0)
      | none ↦ elim e' [
        | some e0 ↦ (none, some e0)
        | none ↦ (a >>= (λ ca. b >>= (λ cb. some (record { a = ca; b = cb }))), none)
      ]
    ]

-- `Reset`
unfoldable pub reset_ratio : RatioCounter → RatioCounter
reset_ratio r = record { a = reset_counter r.a; b = reset_counter r.b }

-- `IsReady`
unfoldable pub is_ready : RatioCounter → Bool
is_ready r = leb_ℤ (pos (length r.a.values)) (add64 r.a.counted_buckets r.b.counted_buckets)

-- `CountA` and `CountB`
unfoldable pub count_a : ℤ → RatioCounter → Option (RatioCounter × ℤ)
count_a now r = elim (count now r.a) [ none ↦ none | some (a, n) ↦ some (record r { a = a }, n) ]

unfoldable pub count_b : ℤ → RatioCounter → Option (RatioCounter × ℤ)
count_b now r = elim (count now r.b) [ none ↦ none | some (b, n) ↦ some (record r { b = b }, n) ]

-- `ProcessedCount`
unfoldable pub processed_count : ℤ → ℤ → RatioCounter → Option (RatioCounter × ℤ)
processed_count now now' r = elim (count_a now r) [
  | none ↦ none
  | some (r', n) ↦ elim (count_b now' r') [ none ↦ none | some (r'', m) ↦ some (r'', add64 n m) ]
]

-- `IncA` and `IncB`
unfoldable pub inc_a : ℤ → ℤ → ℤ → RatioCounter → Option RatioCounter
inc_a now now' v r = elim (inc now now' v r.a) [ none ↦ none | some a ↦ some (record r { a = a }) ]

unfoldable pub inc_b : ℤ → ℤ → ℤ → RatioCounter → Option RatioCounter
inc_b now now' v r = elim (inc now now' v r.b) [ none ↦ none | some b ↦ some (record r { b = b }) ]

-- `Ratio`
unfoldable pub ratio : {F : Type 0} → Quotient F → ℤ → ℤ → RatioCounter → Option (RatioCounter × F)
ratio floats now now' r = elim (count_a now r) [
  | none ↦ none
  | some (r', a) ↦ elim (count_b now' r') [
    | none ↦ none
    | some (r'', b) ↦ some (
      r'',
      if eqb_ℤ (add64 a b) (pos 0)
          then floats.zero_float
          else floats.divide (floats.of_int a) (floats.of_int (add64 a b)),
    )
  ]
]

-- `codeMeter`
pub record CodeMeter : Type 0 where
  pub r : RatioCounter
  pub code_s : ℤ
  pub code_e : ℤ

-- The meter that `NewRebalancer` makes by default, with the counter that it makes.
unfoldable pub default_meter : RatioCounter → CodeMeter
default_meter rc = record { r = rc; code_s = pos 500; code_e = pos 505 }

-- `codeMeter.Rating`, `Record` and `IsReady`
unfoldable pub rating : {F : Type 0} → Quotient F → ℤ → ℤ → CodeMeter → Option (CodeMeter × F)
rating floats now now' n = elim (ratio floats now now' n.r) [
  | none ↦ none
  | some (r, x) ↦ some (record n { r = r }, x)
]

unfoldable pub record_code : ℤ → ℤ → ℤ → CodeMeter → Option CodeMeter
record_code now now' code n =
    elim (if leb_ℤ n.code_s code && ltb_ℤ code n.code_e
      then inc_a now now' (pos 1) n.r
      else inc_b now now' (pos 1) n.r) [ none ↦ none | some r ↦ some (record n { r = r }) ]

unfoldable pub meter_ready : CodeMeter → Bool
meter_ready n = is_ready n.r
