-- ===== src/Anomaly/Split.antt =====
-- Which values `SplitFloat64` calls good.
use oxy.Base.{
  length-append, ◌<◌, ◌≡◌, refl, ◌∙◌, sym, arith, true, false, some, List, [], ◌∷◌, ◌++◌, length,
  ◌%◌, ◌==◌, if◌then◌else◌, Bool-cases, inl, inr,
}
use oxy.Anomaly.{Float64, median, median_absolute_deviation, split_at, split_float64, has_key}
use oxy.Anomaly.Total.{median-some, median_absolute_deviation-some}

module _ {F : Type 0} (floats : Float64 F) where
  -- The values, and the sentinel if their number is even.
  abbrev pub padded : F → List F → List F
  padded sentinel xs = if (length xs % 2) == 0 then xs ++ (sentinel ∷ []) else xs

  -- What holds of equal floats: they compare alike.
  abbrev pub IsCongruent : Type 0
  IsCongruent = (a b c : F) → floats.same a b ≡ true → floats.greater a c ≡ floats.greater b c

  split_at-has_key :
      (congruent : IsCongruent) (bound v : F) (xs : List F)
      → let (g, b) = split_at floats bound xs in
        (has_key floats g v ≡ (if floats.greater v bound then false else has_key floats xs v))
        × (has_key floats b v ≡ (if floats.greater v bound then has_key floats xs v else false))
  unfolding split_at has_key
  split_at-has_key congruent bound v [] = ground arith
  split_at-has_key congruent bound v (x ∷ xs) =
      let (one, other) = split_at-has_key congruent bound v xs in
      elim (Bool-cases (floats.same x v)) [
        | inl here ↦
            let alike = congruent x v bound here in
            elim (Bool-cases (floats.greater x bound)) [
              | inl far ↦
                  let far' : floats.greater v bound ≡ true = sym alike ∙ far in
                  (
                    rw (split_at, far, far') (rw far' at one),
                    rw (split_at, has_key, far, far', here) refl,
                  )
              | inr close ↦
                  let close' : floats.greater v bound ≡ false = sym alike ∙ close in
                  (
                    rw (split_at, has_key, close, close', here) refl,
                    rw (split_at, close, close') (rw close' at other),
                  )
            ]
        | inr apart ↦ elim (Bool-cases (floats.greater x bound)) [
          | inl far ↦
              (rw (split_at, has_key, far, apart) one, rw (split_at, has_key, far, apart) other)
          | inr close ↦
              (rw (split_at, has_key, close, apart) one, rw (split_at, has_key, close, apart) other)
        ]
      ]

  padded_full : (sentinel : F) (xs : List F) → 0 < length xs → 0 < length (padded sentinel xs)
  padded_full sentinel xs h = elim (Bool-cases ((length xs % 2) == 0)) [
    | inl even ↦ rw even (omega (arith, length-append xs (sentinel ∷ [])))
    | inr odd ↦ rw odd h
  ]

  -- `SplitFloat64` of values that are not empty, with a sort that keeps their number and equal floats that
  -- compare alike, does not panic. With the median m and the median absolute deviation d of the values,
  -- and of the sentinel if their number is even, a value is in the bad set exactly if it is above
  -- (m + d) * threshold, and else in the good one.
  pub split_float64-splits :
      (keep : (xs : List F) → length (floats.sort xs) ≡ length xs) (congruent : IsCongruent)
      (threshold sentinel : F) (xs : List F)
      → 0 < length xs
      → (g b : List F) × (split_float64 floats threshold sentinel xs ≡ some (g, b))
        × (m d : F) × (median floats (padded sentinel xs) ≡ some m)
        × (median_absolute_deviation floats (padded sentinel xs) ≡ some d)
        × ((v : F)
            → let above = floats.greater v (floats.times (floats.plus m d) threshold) in
              (has_key floats g v ≡ (if above then false else has_key floats xs v))
              × (has_key floats b v ≡ (if above then has_key floats xs v else false)))
  unfolding split_float64
  split_float64-splits keep congruent threshold sentinel xs full =
      let (m, em) = median-some floats keep (padded sentinel xs) (padded_full sentinel xs full) in
      let (d, ed) =
        median_absolute_deviation-some floats keep (padded sentinel xs)
          (padded_full sentinel xs full) in
      let bound = floats.times (floats.plus m d) threshold in
      (
        (split_at floats bound xs).0,
        (split_at floats bound xs).1,
        rw (em, ed) refl,
        m,
        d,
        em,
        ed,
        λ v. split_at-has_key congruent bound v xs,
      )
