-- ===== src/Buffer/Compare.antt =====
-- What the comparison operators of retry predicates test, and what they refuse.
use text.Mathlib.Text.{◌==◌ as str_eq}
use oxy.Base.{Bool, true, false, not, Option, none, some, ◌≡◌, arith}
use oxy.Base.Int.{ℤ, ltb_ℤ}
use oxy.Base.Result.{err, ok}
use oxy.Buffer.Predicates.{
  Context, Mapper, to_string, to_int, Value, string_value, int_value, Built, string_eq, int_eq,
  int_lt, int_gt, eq, neq, lt, le, gt, ge, negate, Operator, op_eq, op_neq, op_lt, op_gt, op_le,
  op_ge, operators,
}

-- How two ints compare, and which of the three cases an operator accepts.
pub data Comparison : Type 0 where
  below same above : Comparison

abbrev pub compare_ints : ℤ → ℤ → Comparison
compare_ints a b = elim (ltb_ℤ a b) [
  | true ↦ below
  | false ↦ elim (ltb_ℤ b a) [ true ↦ above | false ↦ same ]
]

abbrev pub accepts : Operator → Comparison → Bool
accepts op_eq same = true
accepts op_eq below = false
accepts op_eq above = false
accepts op_neq same = false
accepts op_neq below = true
accepts op_neq above = true
accepts op_lt below = true
accepts op_lt same = false
accepts op_lt above = false
accepts op_gt above = true
accepts op_gt same = false
accepts op_gt below = false
accepts op_le above = false
accepts op_le same = true
accepts op_le below = true
accepts op_ge below = false
accepts op_ge same = true
accepts op_ge above = true

-- The answer in a context, `none` where the expression is refused: ints compare with ints, and texts
-- with texts, for equality only.
abbrev pub answer : Operator → Mapper → Value → Context → Option Bool
answer op (to_int m) (int_value v) c = some (accepts op (compare_ints (m c) v))
answer op_eq (to_string m) (string_value v) c = some (str_eq (m c) v)
answer op_neq (to_string m) (string_value v) c = some (not (str_eq (m c) v))
answer _ _ _ c = none

abbrev pub evaluate : Built → Context → Option Bool
evaluate (err e) c = none
evaluate (ok p) c = some (p c)

-- Each comparison operator of the retry expressions answers as the operands compare, and refuses all
-- operands but an int with an int, and for equality and inequality a text with a text.
pub evaluate-operators :
    (op : Operator) (m : Mapper) (v : Value) (c : Context)
    → evaluate (operators op m v) c ≡ answer op m v c
unfolding operators eq neq lt le gt ge string_eq int_eq int_lt int_gt negate
evaluate-operators op m v c = ground arith
