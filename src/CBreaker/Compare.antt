-- ===== src/CBreaker/Compare.antt =====
-- What the comparison operators of tripping conditions test, and what they refuse.
use oxy.Base.{Bool, true, false, Option, none, some, ◌≡◌, arith}
use oxy.Base.Int.{ℤ, ltb_ℤ}
use oxy.Base.Result.{err, ok}
use oxy.CBreaker.Predicates.{
  FloatOrder, Mapper, to_int, to_float, other_mapper, Value, int_value, float_value, other_value,
  Built, int_eq, int_lt, int_gt, float_eq, float_lt, float_gt, eq, neq, lt, le, gt, ge, negate,
  Operator, op_eq, op_neq, op_lt, op_gt, op_le, op_ge, operators,
}

-- How two numbers compare; `apart` where one is a NaN.
pub data Outcome : Type 0 where
  below same above apart : Outcome

abbrev pub compare_ints : ℤ → ℤ → Outcome
compare_ints a b = elim (ltb_ℤ a b) [
  | true ↦ below
  | false ↦ elim (ltb_ℤ b a) [ true ↦ above | false ↦ same ]
]

-- A NaN is unequal to everything, and neither below nor above it.
abbrev pub accepts : Operator → Outcome → Bool
accepts op_eq same = true
accepts op_eq _ = false
accepts op_neq same = false
accepts op_neq _ = true
accepts op_lt below = true
accepts op_lt _ = false
accepts op_gt above = true
accepts op_gt _ = false
accepts op_le same = true
accepts op_le below = true
accepts op_le _ = false
accepts op_ge same = true
accepts op_ge above = true
accepts op_ge _ = false

-- The comparisons of float64 exclude one another.
pub record IsOrder (floats : FloatOrder) : Type 0 where
  pub less-equal : (a b : floats.Float) → floats.less a b ≡ true → floats.equal a b ≡ false
  pub less-less : (a b : floats.Float) → floats.less a b ≡ true → floats.less b a ≡ false
  pub equal_comm : (a b : floats.Float) → floats.equal a b ≡ floats.equal b a

module _ (floats : FloatOrder) (C : Type 0) where
  abbrev pub compare_floats : floats.Float → floats.Float → Outcome
  compare_floats a b = elim (floats.less a b) [
    | true ↦ below
    | false ↦ elim (floats.less b a) [
      | true ↦ above
      | false ↦ elim (floats.equal a b) [ true ↦ same | false ↦ apart ]
    ]
  ]

  -- The answer for a breaker, `none` where the expression is refused.
  abbrev pub answer : Operator → Mapper floats C → Value floats C → C → Option Bool
  answer op (to_int m) (int_value v) c = some (accepts op (compare_ints (m c) v))
  answer op (to_float m) (float_value v) c = some (accepts op (compare_floats (m c) v))
  answer op (to_int m) (float_value v) c = none
  answer op (to_int m) other_value c = none
  answer op (to_float m) (int_value v) c = none
  answer op (to_float m) other_value c = none
  answer op other_mapper v c = none

  abbrev pub evaluate_condition : Built floats C → C → Option Bool
  evaluate_condition (err e) c = none
  evaluate_condition (ok p) c = some (p c)

  -- Each comparison operator of the tripping conditions answers as the operands compare, with a NaN
  -- unequal to everything, and refuses all operands but an int with an int and a float with a float. The
  -- comparisons of float64 exclude one another.
  pub evaluate_condition-operators :
      IsOrder floats
      → (op : Operator) (m : Mapper floats C) (v : Value floats C) (c : C)
      → evaluate_condition (operators floats C op m v) c ≡ answer op m v c
  unfolding operators eq neq lt le gt ge int_eq int_lt int_gt float_eq float_lt float_gt negate
  evaluate_condition-operators order op (to_int m) (int_value v) c = ground arith
  evaluate_condition-operators order op (to_int m) (float_value v) c = ground arith
  evaluate_condition-operators order op (to_int m) other_value c = ground arith
  evaluate_condition-operators order op (to_float m) (int_value v) c = ground arith
  evaluate_condition-operators order op (to_float m) other_value c = ground arith
  evaluate_condition-operators order op other_mapper v c = ground arith
  evaluate_condition-operators order op (to_float m) (float_value v) c = ground (
    arith,
    order.less-equal (m c) v,
    order.less-less (m c) v,
    order.less-equal v (m c),
    order.equal_comm (m c) v,
  )
