-- ===== src/Buffer/Predicates.antt =====
-- buffer/threshold.go: the operators and functions that the expression parser, a third-party package,
-- builds a retry predicate from.
use Prim.Native.String.{String}
use text.Mathlib.Text.{◌==◌ as str_eq}
use oxy.Base.{Bool, true, false, not, ◌||◌, List, [], ◌∷◌}
use oxy.Base.Int.{ℤ, pos, ltb_ℤ, eqb_ℤ}
use oxy.Base.Result.{Result, err, ok, ◌>>=◌}

-- `context`, with the method of its request.
pub record Context : Type 0 where
  pub method : String
  pub attempt : ℤ
  pub response_code : ℤ

-- `hpredicate`
abbrev pub HPredicate : Type 0
HPredicate = Context → Bool

-- The left operand: `toString`, `toInt`, or a value of another type.
pub data Mapper : Type 0 where
  to_string : (Context → String) → Mapper
  to_int : (Context → ℤ) → Mapper
  other_mapper : Mapper

-- The right operand: a string, an int, or a value of another type.
pub data Value : Type 0 where
  string_value : String → Value
  int_value : ℤ → Value
  other_value : Value

pub data PredicateError : Type 0 where
  unsupported_argument expected_string expected_int : PredicateError

abbrev pub Built : Type 0
Built = Result PredicateError HPredicate

-- `isNetworkError`
unfoldable pub is_network_error : HPredicate
is_network_error c = eqb_ℤ c.response_code (pos 502) || eqb_ℤ c.response_code (pos 504)

-- `requestMethod`, `attempts` and `responseCode`
unfoldable pub request_method : Mapper
request_method = to_string (λ c. c.method)

unfoldable pub attempts : Mapper
attempts = to_int (λ c. c.attempt)

unfoldable pub response_code : Mapper
response_code = to_int (λ c. c.response_code)

-- `and`
unfoldable pub and_all : List HPredicate → HPredicate
and_all [] c = true
and_all (fn ∷ fns) c = elim (fn c) [ true ↦ and_all fns c | false ↦ false ]

-- `or`
unfoldable pub or_any : List HPredicate → HPredicate
or_any [] c = false
or_any (fn ∷ fns) c = elim (fn c) [ true ↦ true | false ↦ or_any fns c ]

-- `not`
unfoldable pub negate : HPredicate → HPredicate
negate p c = not (p c)

-- `stringEQ`
unfoldable pub string_eq : (Context → String) → Value → Built
string_eq m (string_value v) = ok (λ c. str_eq (m c) v)
string_eq m (int_value v) = err expected_string
string_eq m other_value = err expected_string

-- `intEQ`
unfoldable pub int_eq : (Context → ℤ) → Value → Built
int_eq m (int_value v) = ok (λ c. eqb_ℤ (m c) v)
int_eq m (string_value v) = err expected_int
int_eq m other_value = err expected_int

-- `intLT`
unfoldable pub int_lt : (Context → ℤ) → Value → Built
int_lt m (int_value v) = ok (λ c. ltb_ℤ (m c) v)
int_lt m (string_value v) = err expected_int
int_lt m other_value = err expected_int

-- `intGT`
unfoldable pub int_gt : (Context → ℤ) → Value → Built
int_gt m (int_value v) = ok (λ c. ltb_ℤ v (m c))
int_gt m (string_value v) = err expected_int
int_gt m other_value = err expected_int

-- `eq`
unfoldable pub eq : Mapper → Value → Built
eq (to_string m) v = string_eq m v
eq (to_int m) v = int_eq m v
eq other_mapper v = err unsupported_argument

-- `neq`
unfoldable pub neq : Mapper → Value → Built
neq m v = do p ← eq m v; ok (negate p)

-- `lt`
unfoldable pub lt : Mapper → Value → Built
lt (to_int m) v = int_lt m v
lt (to_string m) v = err unsupported_argument
lt other_mapper v = err unsupported_argument

-- `le`
unfoldable pub le : Mapper → Value → Built
le m v = do l ← lt m v; e ← eq m v; ok (λ c. l c || e c)

-- `gt`
unfoldable pub gt : Mapper → Value → Built
gt (to_int m) v = int_gt m v
gt (to_string m) v = err unsupported_argument
gt other_mapper v = err unsupported_argument

-- `ge`
unfoldable pub ge : Mapper → Value → Built
ge m v = do g ← gt m v; e ← eq m v; ok (λ c. g c || e c)

-- The comparisons among the `Operators` of `parseExpression`, and what each builds.
pub data Operator : Type 0 where
  op_eq op_neq op_lt op_gt op_le op_ge : Operator

unfoldable pub operators : Operator → Mapper → Value → Built
operators op_eq = eq
operators op_neq = neq
operators op_lt = lt
operators op_gt = gt
operators op_le = le
operators op_ge = ge
