-- ===== src/CBreaker/Typing.antt =====
-- Which tripping conditions are accepted, and what the accepted ones test.
use oxy.Base.{
  ◌≡◌, refl, ap, ◌∙◌, sym, arith, Bool, false, ◌&&◌, ◌||◌, Option, none, some, [], ◌∷◌, ◌⊎◌, inl,
  inr,
}
use oxy.Base.Result.{err, ok}
use oxy.CBreaker.Predicates.{
  FloatOrder, PredicateError, HPredicate, Value, int_value, float_value, other_value, Operator,
  operators, and_all, or_any,
}
use oxy.CBreaker.Compare.{IsOrder, answer, evaluate_condition, evaluate_condition-operators}
use oxy.CBreaker.Operands.{
  ints-ok, floats-ok, int_float-err, int_other-err, float_int-err, float_other-err, other-err,
}
use oxy.CBreaker.Expressions.{
  Readings, Reading, latency_at_quantile_ms, network_errors, response_codes, other_reading,
  Expression, compares, both, either, latency_at_quantile, mapper, build,
}

-- What a value that may be missing comes to.
abbrev known : Option Bool → Bool
known none = false
known (some b) = b

module _ (floats : FloatOrder) (C : Type 0) (readings : Readings floats C) where
  -- The reading is an int and so is the value, or both are floats.
  abbrev pub Fits : Reading floats C → Value floats C → Type 0
  Fits (latency_at_quantile_ms q) (int_value v) = Unit
  Fits (latency_at_quantile_ms q) (float_value v) = ⊥
  Fits (latency_at_quantile_ms q) other_value = ⊥
  Fits network_errors (float_value v) = Unit
  Fits network_errors (int_value v) = ⊥
  Fits network_errors other_value = ⊥
  Fits (response_codes a b c d) (float_value v) = Unit
  Fits (response_codes a b c d) (int_value v) = ⊥
  Fits (response_codes a b c d) other_value = ⊥
  Fits other_reading v = ⊥

  -- Every comparison in the expression fits.
  abbrev pub IsTyped : Expression floats C → Type 0
  IsTyped (compares op r v) = Fits r v
  IsTyped (both a b) = IsTyped a × IsTyped b
  IsTyped (either a b) = IsTyped a × IsTyped b

  -- What the expression says of a breaker.
  abbrev pub meaning : Expression floats C → C → Bool
  meaning (compares op r v) c = known (answer floats C op (mapper floats C readings r) v c)
  meaning (both a b) c = meaning a c && meaning b c
  meaning (either a b) c = meaning a c || meaning b c

  -- The expression is built, into a predicate that tests what it says.
  abbrev pub IsBuilt : Expression floats C → Type 0
  IsBuilt e =
      (p : HPredicate floats C) × (build floats C readings e ≡ ok p) × ((c : C) → p c ≡ meaning e c)

  abbrev pub IsRefused : Expression floats C → Type 0
  IsRefused e = (f : PredicateError) × (build floats C readings e ≡ err f)

  compares-IsBuilt :
      (order : IsOrder floats) (op : Operator) (r : Reading floats C) (v : Value floats C)
      → (p : HPredicate floats C) × (operators floats C op (mapper floats C readings r) v ≡ ok p)
      → IsBuilt (compares op r v)
  unfolding build
  compares-IsBuilt order op r v (p, e) = (
    p,
    e,
    λ c.
        let m = mapper floats C readings r in
        let same : some (p c) ≡ answer floats C op m v c =
          ap (λ b. evaluate_condition floats C b c) (sym e)
          ∙ evaluate_condition-operators floats C order op m v c in
        ap known same,
  )

  both_means :
      (p q : HPredicate floats C) {c : C} {a b : Bool}
      → p c ≡ a
      → q c ≡ b
      → and_all floats C (p ∷ q ∷ []) c ≡ (a && b)
  unfolding and_all
  both_means p q e f = ground (arith, e, f)

  either_means :
      (p q : HPredicate floats C) {c : C} {a b : Bool}
      → p c ≡ a
      → q c ≡ b
      → or_any floats C (p ∷ q ∷ []) c ≡ (a || b)
  unfolding or_any
  either_means p q e f = ground (arith, e, f)

  -- Of an expression, made of comparisons by `and` and `or`, with comparisons of float64 that exclude
  -- one another: either each comparison is one of an int reading with an int or of a float reading with a
  -- float, and the operators build a predicate that answers for each breaker as the operands compare; or
  -- one is not, and they return an error.
  pub build-IsTyped :
      IsOrder floats
      → (e : Expression floats C) → (IsTyped e × IsBuilt e) ⊎ ((¬ IsTyped e) × IsRefused e)
  unfolding build mapper latency_at_quantile
  build-IsTyped order (compares op (latency_at_quantile_ms q) (int_value v)) = inl (
    tt,
    compares-IsBuilt order op (latency_at_quantile_ms q) (int_value v) (ints-ok floats C op _ v),
  )
  build-IsTyped order (compares op (latency_at_quantile_ms q) (float_value v)) =
      inr (λ h. h, int_float-err floats C op _ v)
  build-IsTyped order (compares op (latency_at_quantile_ms q) other_value) =
      inr (λ h. h, int_other-err floats C op _)
  build-IsTyped order (compares op network_errors (float_value v)) =
      inl (tt, compares-IsBuilt order op network_errors (float_value v) (floats-ok floats C op _ v))
  build-IsTyped order (compares op network_errors (int_value v)) =
      inr (λ h. h, float_int-err floats C op _ v)
  build-IsTyped order (compares op network_errors other_value) =
      inr (λ h. h, float_other-err floats C op _)
  build-IsTyped order (compares op (response_codes a b c d) (float_value v)) = inl (
    tt,
    compares-IsBuilt order op (response_codes a b c d) (float_value v) (floats-ok floats C op _ v),
  )
  build-IsTyped order (compares op (response_codes a b c d) (int_value v)) =
      inr (λ h. h, float_int-err floats C op _ v)
  build-IsTyped order (compares op (response_codes a b c d) other_value) =
      inr (λ h. h, float_other-err floats C op _)
  build-IsTyped order (compares op other_reading v) = inr (λ h. h, other-err floats C op v)
  build-IsTyped order (both a b) = elim (build-IsTyped order a) [
    | inr (ill, (f, e)) ↦ inr (λ h. ill h.0, (f, rw e refl))
    | inl (well, (p, e, means)) ↦ elim (build-IsTyped order b) [
      | inr (ill, (f, e')) ↦ inr (λ h. ill h.1, (f, rw (e, e') refl))
      | inl (well', (p', e', means')) ↦ inl (
        (well, well'),
        (
          and_all floats C (p ∷ p' ∷ []),
          rw (e, e') refl,
          λ c. both_means p p' (means c) (means' c),
        ),
      )
    ]
  ]
  build-IsTyped order (either a b) = elim (build-IsTyped order a) [
    | inr (ill, (f, e)) ↦ inr (λ h. ill h.0, (f, rw e refl))
    | inl (well, (p, e, means)) ↦ elim (build-IsTyped order b) [
      | inr (ill, (f, e')) ↦ inr (λ h. ill h.1, (f, rw (e, e') refl))
      | inl (well', (p', e', means')) ↦ inl (
        (well, well'),
        (
          or_any floats C (p ∷ p' ∷ []),
          rw (e, e') refl,
          λ c. either_means p p' (means c) (means' c),
        ),
      )
    ]
  ]
