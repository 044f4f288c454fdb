-- ===== src/CBreaker/TypingTests.antt =====
-- The condition `NetworkErrorRatio() > 2 && LatencyAtQuantileMS(1) <= 50` in numbers that stand in for floats.
use oxy.Base.{ℕ, some, ◌⊎◌}
use oxy.Base.Int.{pos}
use oxy.CBreaker.Predicates.{int_value, float_value, op_gt, op_le}
use oxy.CBreaker.Expressions.{
  Readings, Expression, compares, both, network_errors, latency_at_quantile_ms,
}
use oxy.CBreaker.Typing.{IsTyped, IsBuilt, IsRefused, build-IsTyped}
use oxy.CBreaker.Tests.{with_nan, with_nan-IsOrder}

abbrev readings : Readings with_nan ℕ
readings = record {
  latency_histogram = λ n. some (λ q. pos 70000000);
  network_error_ratio = λ n. n;
  response_code_ratio = λ a b c d n. n;
}

abbrev condition : Expression with_nan ℕ
condition =
    both (compares op_gt network_errors (float_value 2))
      (compares op_le (latency_at_quantile_ms 1) (int_value (pos 50)))

build-IsTyped_example :
    (IsTyped with_nan ℕ readings condition × IsBuilt with_nan ℕ readings condition)
    ⊎ ((¬ IsTyped with_nan ℕ readings condition) × IsRefused with_nan ℕ readings condition)
build-IsTyped_example = build-IsTyped with_nan ℕ readings with_nan-IsOrder condition
