-- ===== src/CBreaker/Predicates.antt =====
-- cbreaker/predicates.go: the operators that the expression parser, a third-party package, builds a
-- tripping condition from. `C` is the circuit breaker, and float64 a parameter.
use oxy.Base.{Bool, true, false, not, ◌||◌, List, [], ◌∷◌}
use oxy.Base.Int.{ℤ, ltb_ℤ, eqb_ℤ}
use oxy.Base.Result.{Result, err, ok, ◌>>=◌}

-- The comparisons of float64.
pub record FloatOrder : Type 1 where
  pub Float : Type 0
  pub equal : Float → Float → Bool
  pub less : Float → Float → Bool

pub data PredicateError : Type 0 where
  unsupported_argument expected_int expected_float : PredicateError

module _ (floats : FloatOrder) (C : Type 0) where
  open floats use {Float, equal, less}

  -- `hpredicate`
  abbrev pub HPredicate : Type 0
  HPredicate = C → Bool

  -- The left operand: `toInt`, `toFloat64`, or a value of another type.
  pub data Mapper : Type 0 where
    to_int : (C → ℤ) → Mapper
    to_float : (C → Float) → Mapper
    other_mapper : Mapper

  -- The right operand: an int, a float64, or a value of another type.
  pub data Value : Type 0 where
    int_value : ℤ → Value
    float_value : Float → Value
    other_value : Value

  abbrev pub Built : Type 0
  Built = Result PredicateError HPredicate

  -- `or`
  unfoldable pub or_any : List HPredicate → HPredicate
  or_any [] c = false
  or_any (fn ∷ fns) c = elim (fn c) [ true ↦ true | false ↦ or_any fns c ]

  -- `and`
  unfoldable pub and_all : List HPredicate → HPredicate
  and_all [] c = true
  and_all (fn ∷ fns) c = elim (fn c) [ true ↦ and_all fns c | false ↦ false ]

  -- `not`
  unfoldable pub negate : HPredicate → HPredicate
  negate p c = not (p c)

  -- `intEQ`, `intLT` and `intGT`
  unfoldable pub int_eq : (C → ℤ) → Value → Built
  int_eq m (int_value v) = ok (λ c. eqb_ℤ (m c) v)
  int_eq m (float_value v) = err expected_int
  int_eq m other_value = err expected_int

  unfoldable pub int_lt : (C → ℤ) → Value → Built
  int_lt m (int_value v) = ok (λ c. ltb_ℤ (m c) v)
  int_lt m (float_value v) = err expected_int
  int_lt m other_value = err expected_int

  unfoldable pub int_gt : (C → ℤ) → Value → Built
  int_gt m (int_value v) = ok (λ c. ltb_ℤ v (m c))
  int_gt m (float_value v) = err expected_int
  int_gt m other_value = err expected_int

  -- `float64EQ`, `float64LT` and `float64GT`; the last two name an int in their error.
  unfoldable pub float_eq : (C → Float) → Value → Built
  float_eq m (float_value v) = ok (λ c. equal (m c) v)
  float_eq m (int_value v) = err expected_float
  float_eq m other_value = err expected_float

  unfoldable pub float_lt : (C → Float) → Value → Built
  float_lt m (float_value v) = ok (λ c. less (m c) v)
  float_lt m (int_value v) = err expected_int
  float_lt m other_value = err expected_int

  unfoldable pub float_gt : (C → Float) → Value → Built
  float_gt m (float_value v) = ok (λ c. less v (m c))
  float_gt m (int_value v) = err expected_int
  float_gt m other_value = err expected_int

  -- `eq`
  unfoldable pub eq : Mapper → Value → Built
  eq (to_int m) v = int_eq m v
  eq (to_float m) v = float_eq m v
  eq other_mapper v = err unsupported_argument

  -- `neq`
  unfoldable pub neq : Mapper → Value → Built
  neq m v = do p ← eq m v; ok (negate p)

  -- `lt`
  unfoldable pub lt : Mapper → Value → Built
  lt (to_int m) v = int_lt m v
  lt (to_float m) v = float_lt m v
  lt other_mapper v = err unsupported_argument

  -- `le`
  unfoldable pub le : Mapper → Value → Built
  le m v = do l ← lt m v; e ← eq m v; ok (λ c. l c || e c)

  -- `gt`
  unfoldable pub gt : Mapper → Value → Built
  gt (to_int m) v = int_gt m v
  gt (to_float m) v = float_gt m v
  gt other_mapper v = err unsupported_argument

  -- `ge`
  unfoldable pub ge : Mapper → Value → Built
  ge m v = do g ← gt m v; e ← eq m v; ok (λ c. g c || e c)

-- The comparisons among the `Operators` of `parseExpression`, and what each builds.
pub data Operator : Type 0 where
  op_eq op_neq op_lt op_le op_gt op_ge : Operator

unfoldable pub operators :
    (floats : FloatOrder) (C : Type 0)
    → Operator
    → Mapper floats C
    → Value floats C
    → Built floats C
operators floats C op_eq = eq floats C
operators floats C op_neq = neq floats C
operators floats C op_lt = lt floats C
operators floats C op_le = le floats C
operators floats C op_gt = gt floats C
operators floats C op_ge = ge floats C
