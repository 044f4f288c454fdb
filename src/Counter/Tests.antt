-- ===== src/Counter/Tests.antt =====
-- The rolling counter at concrete inputs.
use oxy.Base.{ℕ, zero, suc, ◌+◌, ◌*◌, ◌<◌, ◌≡◌, refl, arith, some, [], ◌∷◌}
use oxy.Base.Int.{ℤ, pos, ◌+ℤ◌, ◌-ℤ◌, ◌*ℤ◌, rem}
use oxy.Base.Int64.{wrap64, add64, mul64}
use oxy.Counter.{
  RollingCounter, truncate, unix, get_bucket, index_of, change_bucket, clean_from, cleanup,
  sum_from, count, inc_bucket_value, inc,
}
use oxy.Counter.Window.{IsModern, check_point, count-inc}

program : Unit {0}
unfolding truncate unix get_bucket index_of change_bucket clean_from cleanup sum_from count
    inc_bucket_value inc ◌+ℤ◌ ◌-ℤ◌ ◌*ℤ◌ rem wrap64 add64 mul64
program = tt

-- Seconds and nanoseconds after the start of 1970.
abbrev at : ℕ → ℕ → ℤ
at s n = pos ((62135596800 + s) * 1000000000 + n)

abbrev three : RollingCounter
three = record {
  resolution = pos 1000000000;
  values = pos 5 ∷ pos 2 ∷ pos 1 ∷ [];
  counted_buckets = pos 2;
  last_bucket = pos 0;
  last_updated = at 9 70;
}

check_point-IsModern :
    (j : ℕ) → j < 3 → IsModern (pos 1000000000) (check_point (pos 1000000000) (at 10 50) j)
unfolding program
check_point-IsModern zero h = omega arith
check_point-IsModern (suc zero) h = omega arith
check_point-IsModern (suc (suc zero)) h = omega arith
check_point-IsModern (suc (suc (suc j))) h = absurd (omega arith)

at-IsModern : IsModern (pos 1000000000) (at 10 60)
unfolding program
at-IsModern = omega arith

same_second : truncate (pos 1000000000) (at 10 999) ≡ truncate (pos 1000000000) (at 10 60)
unfolding program
same_second = refl

-- The bucket of the tenth second is cleared first.
counted :
    inc (at 10 50) (at 10 60) (pos 4) three
    ≡ some (record three {
      values = pos 5 ∷ pos 4 ∷ pos 1 ∷ [];
      counted_buckets = pos 3;
      last_bucket = pos 1;
      last_updated = at 10 60;
    })
unfolding program
counted = refl

count-inc_example :
    (c' c'' : RollingCounter) × (n : ℕ) × (count (at 10 50) three ≡ some (c', pos n))
    × (inc (at 10 50) (at 10 60) (pos 4) three ≡ some c'')
    × (count (at 10 999) c'' ≡ some (c'', pos (n + 4)))
count-inc_example =
    count-inc (at 10 50) (at 10 60) (at 10 999) 4 three
      (record {
        buckets = omega arith;
        natural = (refl, (refl, (refl, tt)));
        modern = check_point-IsModern;
      })
      at-IsModern same_second (omega arith)
