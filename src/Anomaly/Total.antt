-- ===== src/Anomaly/Total.antt =====
-- The medians and `SplitFloat64` do not panic on values that are not empty.
use oxy.Base.{
  suc, ◌-◌, ◌/◌, ◌%◌, ◌<◌, ◌≡◌, refl, arith, List, [], ◌∷◌, ◌++◌, map, length, length-append,
  get_elem?-some, inl, inr, ap, ◌==◌, some, if◌then◌else◌, Bool-cases,
}
use oxy.Anomaly.{Float64, median, median_absolute_deviation, split_at, split_float64}

length-map {ℓ κ} :
    {A : Type ℓ} {B : Type κ} (f : A → B) (xs : List A) → length (map f xs) ≡ length xs
length-map f [] = refl
length-map f (x ∷ xs) = ap suc (length-map f xs)

module _ {F : Type 0} (floats : Float64 F)
    (keep : (xs : List F) → length (floats.sort xs) ≡ length xs) where
  pub median-some : (xs : List F) → 0 < length xs → (m : F) × (median floats xs ≡ some m)
  unfolding median
  median-some xs h =
      let vals = floats.sort xs in
      let same : length vals ≡ length xs = keep xs in
      let (a, ea) = get_elem?-some vals (length vals / 2 - 1) (omega (arith, same)) in
      let (b, eb) = get_elem?-some vals (length vals / 2) (omega (arith, same)) in
      elim (Bool-cases ((length vals % 2) == 0)) [
        | inl even ↦ (floats.halve (floats.plus a b), rw (even, ea, eb) refl)
        | inr odd ↦ (b, rw odd eb)
      ]

  pub median_absolute_deviation-some :
      (xs : List F) → 0 < length xs → (m : F) × (median_absolute_deviation floats xs ≡ some m)
  unfolding median_absolute_deviation
  median_absolute_deviation-some xs h =
      let (m, em) = median-some xs h in
      let (d, ed) =
        median-some (map (λ v. floats.abs (floats.minus v m)) xs)
          (omega (arith, length-map (λ v. floats.abs (floats.minus v m)) xs)) in
      (d, rw em ed)

  pub split_float64-some :
      (threshold sentinel : F) (xs : List F)
      → 0 < length xs
      → (r : List F × List F) × (split_float64 floats threshold sentinel xs ≡ some r)
  unfolding split_float64
  split_float64-some threshold sentinel xs h =
      let ys = if (length xs % 2) == 0 then xs ++ (sentinel ∷ []) else xs in
      let some_left : 0 < length ys = left in
      let (m, em) = median-some ys some_left in
      let (d, ed) = median_absolute_deviation-some ys some_left in
      (split_at floats (floats.times (floats.plus m d) threshold) xs, rw (em, ed) refl)
    where
      left : 0 < length (if (length xs % 2) == 0 then xs ++ (sentinel ∷ []) else xs)
      left = elim (Bool-cases ((length xs % 2) == 0)) [
        | inl even ↦ rw even (omega (arith, length-append xs (sentinel ∷ [])))
        | inr odd ↦ rw odd h
      ]
