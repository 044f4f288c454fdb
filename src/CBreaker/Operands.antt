-- ===== src/CBreaker/Operands.antt =====
-- Which operands the operators of tripping conditions accept.
use oxy.Base.{◌≡◌, refl}
use oxy.Base.Int.{ℤ}
use oxy.Base.Result.{err, ok}
use oxy.CBreaker.Predicates.{
  FloatOrder, PredicateError, HPredicate, to_int, to_float, other_mapper, Value, int_value,
  float_value, other_value, Operator, op_eq, op_neq, op_lt, op_le, op_gt, op_ge, operators, eq, neq,
  lt, le, gt, ge, int_eq, int_lt, int_gt, float_eq, float_lt, float_gt,
}

module _ (floats : FloatOrder) (C : Type 0) where
  pub ints-ok :
      (op : Operator) (m : C → ℤ) (v : ℤ)
      → (p : HPredicate floats C) × (operators floats C op (to_int m) (int_value v) ≡ ok p)
  unfolding operators eq neq lt le gt ge int_eq int_lt int_gt
  ints-ok op_eq m v = (_, refl)
  ints-ok op_neq m v = (_, refl)
  ints-ok op_lt m v = (_, refl)
  ints-ok op_le m v = (_, refl)
  ints-ok op_gt m v = (_, refl)
  ints-ok op_ge m v = (_, refl)

  pub floats-ok :
      (op : Operator) (m : C → floats.Float) (v : floats.Float)
      → (p : HPredicate floats C) × (operators floats C op (to_float m) (float_value v) ≡ ok p)
  unfolding operators eq neq lt le gt ge float_eq float_lt float_gt
  floats-ok op_eq m v = (_, refl)
  floats-ok op_neq m v = (_, refl)
  floats-ok op_lt m v = (_, refl)
  floats-ok op_le m v = (_, refl)
  floats-ok op_gt m v = (_, refl)
  floats-ok op_ge m v = (_, refl)

  pub int_float-err :
      (op : Operator) (m : C → ℤ) (v : floats.Float)
      → (f : PredicateError) × (operators floats C op (to_int m) (float_value v) ≡ err f)
  unfolding operators eq neq lt le gt ge int_eq int_lt int_gt
  int_float-err op_eq m v = (_, refl)
  int_float-err op_neq m v = (_, refl)
  int_float-err op_lt m v = (_, refl)
  int_float-err op_le m v = (_, refl)
  int_float-err op_gt m v = (_, refl)
  int_float-err op_ge m v = (_, refl)

  pub int_other-err :
      (op : Operator) (m : C → ℤ)
      → (f : PredicateError) × (operators floats C op (to_int m) other_value ≡ err f)
  unfolding operators eq neq lt le gt ge int_eq int_lt int_gt
  int_other-err op_eq m = (_, refl)
  int_other-err op_neq m = (_, refl)
  int_other-err op_lt m = (_, refl)
  int_other-err op_le m = (_, refl)
  int_other-err op_gt m = (_, refl)
  int_other-err op_ge m = (_, refl)

  pub float_int-err :
      (op : Operator) (m : C → floats.Float) (v : ℤ)
      → (f : PredicateError) × (operators floats C op (to_float m) (int_value v) ≡ err f)
  unfolding operators eq neq lt le gt ge float_eq float_lt float_gt
  float_int-err op_eq m v = (_, refl)
  float_int-err op_neq m v = (_, refl)
  float_int-err op_lt m v = (_, refl)
  float_int-err op_le m v = (_, refl)
  float_int-err op_gt m v = (_, refl)
  float_int-err op_ge m v = (_, refl)

  pub float_other-err :
      (op : Operator) (m : C → floats.Float)
      → (f : PredicateError) × (operators floats C op (to_float m) other_value ≡ err f)
  unfolding operators eq neq lt le gt ge float_eq float_lt float_gt
  float_other-err op_eq m = (_, refl)
  float_other-err op_neq m = (_, refl)
  float_other-err op_lt m = (_, refl)
  float_other-err op_le m = (_, refl)
  float_other-err op_gt m = (_, refl)
  float_other-err op_ge m = (_, refl)

  pub other-err :
      (op : Operator) (v : Value floats C)
      → (f : PredicateError) × (operators floats C op other_mapper v ≡ err f)
  unfolding operators eq neq lt le gt ge
  other-err op_eq v = (_, refl)
  other-err op_neq v = (_, refl)
  other-err op_lt v = (_, refl)
  other-err op_le v = (_, refl)
  other-err op_gt v = (_, refl)
  other-err op_ge v = (_, refl)
