-- ===== src/ConnLimit/Tests.antt =====
-- The connection limiter at concrete inputs.

use oxy.Base.{◌+◌, ◌<◌, ◌≡◌, refl, arith, [], ◌∷◌, ◌⊎◌}
use oxy.Base.Int.{pos, ◌+ℤ◌, ◌-ℤ◌}
use oxy.Base.Int64.{add64, sub64, wrap64}
use oxy.ConnLimit.{count_of, acquire, release, serve_begin, serve_end}
use oxy.ConnLimit.Flow.{
  System, start, refuse, finish, Reach, here, next, idle, IsExact, Reach-IsExact, amount_for,
  Reach-limited,
}

program : Unit {0}
unfolding count_of acquire release serve_begin serve_end add64 sub64 wrap64 ◌+ℤ◌ ◌-ℤ◌
program = tt

abbrev busy : System
busy = record {
  limiter = record {
    connections = ("b", pos 1) ∷ [];
    max_connections = pos 1;
    total_connections = pos 1;
  };
  active = ("b", 1) ∷ [];
}

-- Two sources with one connection each; another for the first is refused, and the first ends.
run : Reach (Unit {0}) 1 (idle 1) busy
unfolding program
run =
    next
      (next
        (next (next here (start "a" 1 (omega arith) (omega arith) refl))
          (start "b" 1 (omega arith) (omega arith) refl))
        (refuse "a" 1 refl))
      (finish 1 refl)

Reach-IsExact_example : IsExact busy
Reach-IsExact_example = Reach-IsExact 1 run

Reach-limited_example : (amount_for "b" busy.active ≡ 0) ⊎ (amount_for "b" busy.active < 1 + 1)
Reach-limited_example = Reach-limited 1 run "b"
