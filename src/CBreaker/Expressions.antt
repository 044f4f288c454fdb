-- ===== src/CBreaker/Expressions.antt =====
-- Tripping conditions as expressions: the functions that may stand on the left of a comparison, and what
-- the operators of cbreaker/predicates.go build for the parts of an expression, from the inside out.
use oxy.Base.{Option, none, some, [], ◌∷◌}
use oxy.Base.Int.{ℤ, pos, quot}
use oxy.Base.Result.{ok, ◌>>=◌}
use oxy.CBreaker.Predicates.{
  FloatOrder, Mapper, to_int, to_float, other_mapper, Value, Built, Operator, operators, and_all,
  or_any,
}

-- What the functions read of the metrics of a breaker; `none` is an error of the histogram.
pub record Readings (floats : FloatOrder) (C : Type 0) : Type 0 where
  pub latency_histogram : C → Option (floats.Float → ℤ)
  pub network_error_ratio : C → floats.Float
  pub response_code_ratio : ℤ → ℤ → ℤ → ℤ → C → floats.Float

module _ (floats : FloatOrder) (C : Type 0) where
  -- A function of `parseExpression` with its arguments, or something of another type.
  pub data Reading : Type 0 where
    latency_at_quantile_ms : floats.Float → Reading
    network_errors : Reading
    response_codes : ℤ → ℤ → ℤ → ℤ → Reading
    other_reading : Reading

  pub data Expression : Type 0 where
    compares : Operator → Reading → Value floats C → Expression
    both : Expression → Expression → Expression
    either : Expression → Expression → Expression

  module _ (readings : Readings floats C) where
    open readings use {latency_histogram, network_error_ratio, response_code_ratio}

    -- `latencyAtQuantile`, `networkErrorRatio` and `responseCodeRatio`
    unfoldable pub latency_at_quantile : floats.Float → Mapper floats C
    latency_at_quantile quantile = to_int (λ c. elim (latency_histogram c) [
      | none ↦ pos 0
      | some h ↦ quot (h quantile) (pos 1000000)
    ])

    unfoldable pub mapper : Reading → Mapper floats C
    mapper (latency_at_quantile_ms quantile) = latency_at_quantile quantile
    mapper network_errors = to_float network_error_ratio
    mapper (response_codes start_a end_a start_b end_b) =
        to_float (response_code_ratio start_a end_a start_b end_b)
    mapper other_reading = other_mapper

    -- What the operators make of an expression.
    unfoldable pub build : Expression → Built floats C
    build (compares op r v) = operators floats C op (mapper r) v
    build (both a b) = do p ← build a; q ← build b; ok (and_all floats C (p ∷ q ∷ []))
    build (either a b) = do p ← build a; q ← build b; ok (or_any floats C (p ∷ q ∷ []))
