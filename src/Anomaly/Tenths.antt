-- ===== src/Anomaly/Tenths.antt =====
-- Numbers of tenths that stand in for floats where a test computes.
use oxy.Base.{
  ℕ, suc, ◌+◌, ◌-◌, ◌*◌, ◌/◌, ◌≡◌, refl, arith, List, [], ◌∷◌, length, ltb, leb, ◌==◌,
  if◌then◌else◌, ap, ◌∙◌,
}
use oxy.Anomaly.{Float64}

abbrev pub place : ℕ → List ℕ → List ℕ
place n [] = n ∷ []
place n (x ∷ xs) = if leb n x then n ∷ x ∷ xs else x ∷ place n xs

abbrev pub sorted : List ℕ → List ℕ
sorted [] = []
sorted (x ∷ xs) = place x (sorted xs)

length-place : (n : ℕ) (xs : List ℕ) → length (place n xs) ≡ suc (length xs)
length-place n [] = refl
length-place n (x ∷ xs) = ground (arith, length-place n xs)

pub length-sorted : (xs : List ℕ) → length (sorted xs) ≡ length xs
length-sorted [] = refl
length-sorted (x ∷ xs) = length-place x (sorted xs) ∙ ap suc (length-sorted xs)

abbrev pub tenths : Float64 ℕ
tenths = record {
  zero_float = 0;
  one_and_half = 15;
  plus = λ a b. a + b;
  minus = λ a b. a - b + (b - a);
  times = λ a b. a * b / 10;
  halve = λ a. a / 2;
  abs = λ a. a;
  greater = λ a b. ltb b a;
  same = λ a b. a == b;
  sort = sorted;
}
