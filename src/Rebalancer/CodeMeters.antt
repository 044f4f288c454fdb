-- ===== src/Rebalancer/CodeMeters.antt =====
-- `codeMeter` of roundrobin/rebalancer.go as a meter of the rebalancer.
use oxy.Base.{ℕ, suc, ◌≡◌, refl, true, Option, none, some}
use oxy.Base.Int.{ℤ, pos, ◌+ℤ◌, ◌-ℤ◌, ◌*ℤ◌, rem}
use oxy.Base.Int64.{wrap64, add64, mul64}
use oxy.Counter.{
  truncate, unix, get_bucket, index_of, change_bucket, clean_from, cleanup, count, sum_from,
}
use oxy.Ratio.{Quotient, CodeMeter, count_a, count_b, ratio, rating, record_code, meter_ready}
use oxy.Ratio.Tests.{at, two, pairs}
use oxy.Rebalancer.{Meters}

-- A code meter, `none` after a panic, and what the clock reads at the coming calls of its methods. After a
-- panic the program does not go on, and what the meter answers then is of no account.
record ClockedMeter : Type 0 where
  meter : Option CodeMeter
  readings : ℕ → ℤ

-- The readings after the next two.
abbrev later : (ℕ → ℤ) → ℕ → ℤ
later readings i = readings (suc (suc i))

-- Each call of a method reads the clock twice, and the next call goes on with the readings after these.
unfoldable code_meters : {F : Type 0} → Quotient F → Meters ClockedMeter F
code_meters floats = record {
  rating = λ m. elim m.meter [
    | none ↦ (m, floats.zero_float)
    | some n ↦ elim (rating floats (m.readings 0) (m.readings 1) n) [
      | none ↦ (record { meter = none; readings = later m.readings }, floats.zero_float)
      | some (n', x) ↦ (record { meter = some n'; readings = later m.readings }, x)
    ]
  ];
  observe = λ code latency m. elim m.meter [
    | none ↦ m
    | some n ↦ record {
      meter = record_code (m.readings 0) (m.readings 1) code n;
      readings = later m.readings;
    }
  ];
  is_ready = λ m. elim m.meter [ none ↦ true | some n ↦ meter_ready n ];
}

abbrev clocked : CodeMeter → ClockedMeter
clocked n = record { meter = some n; readings = λ i. at 10 }

abbrev code_meter : ℕ → ℕ → ℕ → ℕ → CodeMeter
code_meter i j k l = record {
  r = record { a = two i j; b = two k l };
  code_s = pos 500;
  code_e = pos 505;
}

-- `Rating` clears the buckets of the tenth second.
rated :
    (code_meters pairs).rating (clocked (code_meter 7 1 8 3))
    ≡ (clocked (code_meter 0 1 0 3), (pos 1, pos 4))
unfolding code_meters rating ratio count_a count_b count sum_from truncate unix get_bucket index_of
    change_bucket clean_from cleanup ◌+ℤ◌ ◌-ℤ◌ ◌*ℤ◌ rem wrap64 add64 mul64
rated = refl
