-- ===== src/CBreaker/Tests.antt =====
-- The breaker at concrete inputs, with ratios as exact fractions in place of float64.
use oxy.Base.{
  ℕ, zero, suc, ◌≡◌, refl, arith, Bool, true, false, none, some, [], if◌then◌else◌, ltb, ◌==◌,
}
use oxy.Base.Int.{ℤ, pos, ◌+ℤ◌, ◌-ℤ◌, ◌*ℤ◌, ◌≤ℤ◌, ltb_ℤ}
use oxy.Base.Int64.{add64, clamp64, wrap64}
use oxy.CBreaker.{
  Floats, standby, tripped, recovering, new_ratio_controller, compute_ratio, target_ratio,
  allow_request, Breaker, Clock, set_state, set_recovering, recover, decide, activate_fallback,
  trip_if, check_locked,
}
use oxy.CBreaker.Trip.{checked, here, next, IsTripped, Reach-fallback}
use oxy.CBreaker.Move.{Move, Step-Move}
use oxy.CBreaker.Safe.{IsSafe, Reach-answers}
use oxy.CBreaker.Recover.{Reach-standby}
use oxy.CBreaker.Predicates.{FloatOrder}
use oxy.CBreaker.Compare.{IsOrder}
use oxy.CBreaker.Period.{trips, check_locked-quiet}

unfoldable pub program : Unit {0}
unfolding new_ratio_controller compute_ratio target_ratio allow_request set_state set_recovering
    recover decide activate_fallback trip_if check_locked ◌+ℤ◌ ◌-ℤ◌ ◌*ℤ◌ add64 clamp64 wrap64
program = tt

-- A fraction is a numerator over a denominator.
abbrev pub fractions : Floats
fractions = record {
  Float = ℤ × ℤ;
  of_int = λ n. (n, pos 1);
  half = (pos 1, pos 2);
  zero_float = (pos 0, pos 1);
  times = λ p q. (p.0 *ℤ q.0, p.1 *ℤ q.1);
  divide = λ p q. (p.0 *ℤ q.1, p.1 *ℤ q.0);
  less = λ p q. ltb_ℤ (p.0 *ℤ q.1) (q.0 *ℤ p.1);
}

-- The metrics are a count, and the condition is that it is not 0.
abbrev pub condition : ℕ → Bool
condition n = elim n [ zero ↦ false | suc _ ↦ true ]

abbrev pub emptied : ℕ → ℕ
emptied n = 0

abbrev up : Breaker ℕ
up = record {
  state = standby;
  until = pos 0;
  rc = none;
  last_check = pos 0;
  metrics = 3;
  fallback_duration = pos 10;
  recovery_duration = pos 10;
  check_period = pos 1;
  effects = [];
}

abbrev pub at : ℕ → Clock
at t i = pos t

abbrev pub down : Breaker ℕ
down = check_locked condition emptied (at 5) up

down_until_15 : IsTripped (pos 15) down
unfolding program
down_until_15 = (refl, refl)

Reach-fallback_example :
    (activate_fallback fractions tripped (at 14) (check_locked condition emptied (at 9) down)
      ≡ some (check_locked condition emptied (at 9) down, true))
    × IsTripped (pos 15) (check_locked condition emptied (at 9) down)
Reach-fallback_example =
    Reach-fallback fractions condition emptied tripped (at 14) down_until_15
      (next here (checked (at 9) (λ i. omega arith))) (λ e. cc) (omega arith)

Step-Move_example : Move fractions condition emptied up down
Step-Move_example =
    Step-Move fractions condition emptied {limit = pos 6} (checked (at 5) (λ i. omega arith))

Reach-answers_example :
    (d : Breaker ℕ) × (answer : Bool) × (activate_fallback fractions tripped (at 20) down
      ≡ some (d, answer))
Reach-answers_example =
    Reach-answers fractions condition emptied {limit = pos 6} tripped (at 20) refl
      (next here (checked (at 5) (λ i. omega arith)))

check_locked-quiet_example :
    (trips down.effects ≡ trips down.effects) × (down.last_check ≡ pos 5 +ℤ pos 1)
check_locked-quiet_example =
    check_locked-quiet fractions condition emptied (at 5) up {d = down} (omega arith) here

abbrev calm : ℕ → Bool
calm n = false

-- The first request after the time of the breaker is refused, and starts the recovery.
abbrev back : Breaker ℕ
back = record down {
  state = recovering;
  until = pos 30;
  rc = some (record { duration = pos 10; start = pos 20; allowed = pos 0; denied = pos 1 });
}

starts_back : activate_fallback fractions tripped (at 20) down ≡ some (back, true)
unfolding program
starts_back = refl

down-IsSafe : IsSafe fractions calm emptied down
unfolding program
down-IsSafe = tt

long : pos 0 ≤ℤ down.recovery_duration
unfolding program
long = omega arith

over : down.until ≤ℤ pos 20
unfolding program
over = omega arith

late : pos 21 +ℤ down.recovery_duration ≤ℤ pos 40
unfolding program
late = omega arith

Reach-standby_example :
    (f : Breaker ℕ) × (activate_fallback fractions recovering
        (at 40)
        (check_locked calm emptied (at 25) back)
      ≡ some (f, false))
    × (f.state ≡ standby)
Reach-standby_example =
    Reach-standby fractions calm emptied (λ m. refl) tripped recovering (at 20) (at 40) (pos 21)
      down {end = pos 26} (λ e. cc) (λ e. cc) down-IsSafe over (λ i. omega arith) long starts_back
      (next here (checked (at 25) (λ i. omega arith))) late

-- After the recovery has begun the controller lets the first request through only when the target
-- ratio has grown; at its start it is 0.
first_denied :
    allow_request fractions (pos 20) (new_ratio_controller (pos 20) (pos 10))
    ≡ (record { duration = pos 10; start = pos 20; allowed = pos 0; denied = pos 1 }, false)
unfolding program
first_denied = refl

-- float64 as numbers of which 0 stands for a NaN.
abbrev equal_numbers : ℕ → ℕ → Bool
equal_numbers a b = if a == 0 then false else a == b

abbrev less_numbers : ℕ → ℕ → Bool
less_numbers a b = if a == 0 then false else ltb a b

abbrev pub with_nan : FloatOrder
with_nan = record { Float = ℕ; equal = equal_numbers; less = less_numbers }

less-equal_numbers : (a b : ℕ) → less_numbers a b ≡ true → equal_numbers a b ≡ false
less-equal_numbers a b h = ground arith

less-less_numbers : (a b : ℕ) → less_numbers a b ≡ true → less_numbers b a ≡ false
less-less_numbers a b h = ground arith

equal_numbers_comm : (a b : ℕ) → equal_numbers a b ≡ equal_numbers b a
equal_numbers_comm a b = ground arith

pub with_nan-IsOrder : IsOrder with_nan
with_nan-IsOrder = record {
  less-equal = less-equal_numbers;
  less-less = less-less_numbers;
  equal_comm = equal_numbers_comm;
}
