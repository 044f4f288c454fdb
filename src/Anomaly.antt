-- ===== src/Anomaly.antt =====
-- memmetrics/anomaly.go: which of a list of float64 values are far from the median. `none` is a panic.
pub mod Total
pub mod Split
pub mod Tenths
mod Tests
use oxy.Base.{
  Bool, true, false, Option, none, some, if◌then◌else◌, List, [], ◌∷◌, ◌++◌, ◌-◌, ◌/◌, ◌%◌, ◌==◌,
  map, length, get_elem?, ◌>>=◌,
}
use oxy.Base.Int.{ℤ, pos, quot, ltb_ℤ, eqb_ℤ}
use oxy.Base.Int64.{add64, wrap64}

-- float64, and `sort.Float64s`. `same` is the equality of map keys, false for a NaN.
pub record Float64 (F : Type 0) : Type 0 where
  pub zero_float : F
  pub one_and_half : F
  pub plus : F → F → F
  pub minus : F → F → F
  pub times : F → F → F
  pub halve : F → F
  pub abs : F → F
  pub greater : F → F → Bool
  pub same : F → F → Bool
  pub sort : List F → List F

module _ {F : Type 0} (floats : Float64 F) where
  open floats use {plus, minus, times, halve, abs, greater, same, sort}

  -- `median`
  unfoldable pub median : List F → Option F
  median values =
      let vals = sort values in
      let l = length vals in
      if l % 2 == 0
      then get_elem? vals (l / 2 - 1)
        >>= (λ a. get_elem? vals (l / 2) >>= (λ b. some (halve (plus a b))))
      else get_elem? vals (l / 2)

  -- `medianAbsoluteDeviation`
  unfoldable pub median_absolute_deviation : List F → Option F
  median_absolute_deviation values =
      median values >>= (λ m. median (map (λ v. abs (minus v m)) values))

  -- The loop of `SplitFloat64`: the keys of the good and of the bad set.
  unfoldable pub split_at : F → List F → List F × List F
  split_at bound [] = ([], [])
  split_at bound (v ∷ vs) =
      let (good, bad) = split_at bound vs in
      if greater v bound then (good, v ∷ bad) else (v ∷ good, bad)

  -- `SplitFloat64`
  unfoldable pub split_float64 : F → F → List F → Option (List F × List F)
  split_float64 threshold sentinel values =
      let new_values = if length values % 2 == 0 then values ++ (sentinel ∷ []) else values in
      median new_values >>= (λ m.
        median_absolute_deviation new_values
        >>= (λ m_abs. some (split_at (times (plus m m_abs) threshold) values)))

  -- `good[v]`
  unfoldable pub has_key : List F → F → Bool
  has_key [] v = false
  has_key (k ∷ ks) v = if same k v then true else has_key ks v

  -- `SplitRatios`
  unfoldable pub split_ratios : List F → Option (List F × List F)
  split_ratios values = split_float64 floats.one_and_half floats.zero_float values

  -- `maxTime`, after its first value
  unfoldable pub max_from : ℤ → List ℤ → ℤ
  max_from val [] = val
  max_from val (v ∷ vs) = max_from (if ltb_ℤ val v then v else val) vs

  -- A ratio, and `v2r`, in which a later value takes the place of one with the same ratio.
  unfoldable pub ratio_of : (ℤ → F) → (F → F → F) → ℤ → ℤ → ℤ → F
  ratio_of of_int divide precision m v =
      divide (of_int (add64 (wrap64 (quot v precision)) (pos 1)))
        (of_int (add64 (wrap64 (quot m precision)) (pos 1)))

  unfoldable pub put : F → ℤ → List (F × ℤ) → List (F × ℤ)
  put k v [] = (k, v) ∷ []
  put k v ((j, w) ∷ m) = if same k j then (j, v) ∷ m else (j, w) ∷ put k v m

  unfoldable pub take_from : List (F × ℤ) → F → ℤ
  take_from [] r = pos 0
  take_from ((j, w) ∷ m) r = if same r j then w else take_from m r

  unfoldable pub put_all : (ℤ → F) → List ℤ → List (F × ℤ) → List (F × ℤ)
  put_all ratio [] v2r = v2r
  put_all ratio (v ∷ vs) v2r = put_all ratio vs (put (ratio v) v v2r)

  -- `SplitLatencies`; `two` is the threshold, and a precision of 0 or no value at all is a panic.
  unfoldable pub split_latencies : (ℤ → F) → (F → F → F) → F → ℤ → List ℤ → Option (List ℤ × List ℤ)
  split_latencies of_int divide two precision [] = none
  split_latencies of_int divide two precision (v ∷ vs) =
      let ratio = ratio_of of_int divide precision (max_from v vs) in
      let v2r = put_all ratio (v ∷ vs) [] in
      if eqb_ℤ precision (pos 0)
      then none
      else elim (split_float64 two floats.zero_float (map ratio (v ∷ vs))) [
        | none ↦ none
        | some (good, bad) ↦ some (map (take_from v2r) good, map (take_from v2r) bad)
      ]
