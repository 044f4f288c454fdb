-- ===== src/Ratio/Tests.antt =====
-- A code meter at concrete inputs.
use oxy.Base.{
  ℕ, zero, suc, ◌+◌, ◌*◌, ◌<◌, ◌≡◌, refl, arith, some, if◌then◌else◌, List, [], ◌∷◌, ◌==◌,
}
use oxy.Base.Int.{ℤ, pos, negsuc, ◌+ℤ◌, ◌-ℤ◌, ◌*ℤ◌, rem}
use oxy.Base.Int64.{wrap64, mul64}
use oxy.Counter.{
  RollingCounter, truncate, unix, get_bucket, index_of, change_bucket, clean_from, cleanup,
}
use oxy.Counter.Window.{IsModern, IsCounting, check_point}
use oxy.Counter.Shows.{Shows}
use oxy.Ratio.{Quotient, CodeMeter, rating, default_meter}
use oxy.Ratio.Rating.{record_all, rating-record_all}

program : Unit {0}
unfolding truncate unix get_bucket index_of change_bucket clean_from cleanup ◌+ℤ◌ ◌-ℤ◌ ◌*ℤ◌ rem
    wrap64 mul64 default_meter
program = tt

abbrev pub at : ℕ → ℤ
at s = pos ((62135596800 + s) * 1000000000)

abbrev pub two : ℕ → ℕ → RollingCounter
two i j = record {
  resolution = pos 1000000000;
  values = pos i ∷ pos j ∷ [];
  counted_buckets = pos 0;
  last_bucket = negsuc 0;
  last_updated = at 9;
}

pub check_point-IsModern :
    (j : ℕ) → j < 2 → IsModern (pos 1000000000) (check_point (pos 1000000000) (at 10) j)
unfolding program
check_point-IsModern zero h = omega arith
check_point-IsModern (suc zero) h = omega arith
check_point-IsModern (suc (suc j)) h = absurd (omega arith)

abbrev counting : (i j : ℕ) → IsCounting (at 10) (two i j)
counting i j = record {
  buckets = omega arith;
  natural = (refl, (refl, tt));
  modern = check_point-IsModern;
}

-- The bucket of the tenth second is cleared.
pub cleaned : (i j : ℕ) → cleanup (at 10) (two i j) ≡ some (two 0 j)
unfolding program
cleaned i j = refl

abbrev pub shown : (i j : ℕ) → Shows (at 10) (two i j) j
shown i j = record {
  counting = counting i j;
  cleaned = two 0 j;
  clean = cleaned i j;
  natural = (refl, (refl, tt));
  sum = omega arith;
}

abbrev meter : CodeMeter
meter = record { r = record { a = two 7 1; b = two 8 3 }; code_s = pos 500; code_e = pos 505 }

-- A quotient is a pair of numbers.
abbrev pub pairs : Quotient (ℤ × ℤ)
pairs = record { zero_float = (pos 0, pos 1); of_int = λ n. (n, pos 1); divide = λ p q. (p.0, q.0) }

abbrev codes : List ℤ
codes = pos 200 ∷ pos 502 ∷ pos 404 ∷ []

rating-record_all_example :
    (n' n'' : CodeMeter) × (record_all (at 10) codes meter ≡ some n')
    × (rating pairs (at 10) (at 10) n'
        ≡ some (n'', if (1 + 3 + 3) == 0 then pairs.zero_float else (pos 2, pos 7)))
rating-record_all_example =
    rating-record_all (pos 500) (pos 505) pairs (at 10) codes meter 1 3
      (record { from = refl; to = refl; a = shown 7 1; b = shown 8 3 }) (omega arith)
