-- ===== src/Rebalancer/Converge.antt =====
-- Weights while no server stands out: `convergeWeights` leads them back to the original ones.
use native.Mathlib.Nat.{div-le_self}
use oxy.Base.{
  ℕ, ◌/◌, ◌≤◌, ◌≡◌, refl, arith, true, false, List, [], ◌∷◌, map, All, ◌⊎◌, inl, inr, ◌∙◌, ap,
  if◌then◌else◌, Bool-cases,
}
use oxy.Base.Int.{ℤ, pos, negsuc, pos_part, quot, leb_ℤ, eqb_ℤ}
use oxy.Base.Int64.{wrap64}
use oxy.RoundRobin.{gcd}
use oxy.Rebalancer.{
  RbServer, decrease, settle, change_each, divide_by, weights_gcd_from, normalize_weights,
}
use oxy.Rebalancer.Bounds.{IsWeight, IsFit}

-- The greatest common divisor of weights as the code takes it, and the weights divided by it.
abbrev pub gcd_from : ℤ → List ℤ → ℤ
gcd_from d [] = d
gcd_from d (w ∷ ws) = gcd_from (if eqb_ℤ d (negsuc 0) then w else gcd d w) ws

abbrev pub scaled : List ℤ → List ℤ
scaled ws =
    let g = gcd_from (negsuc 0) ws in
    if leb_ℤ g (pos 1) then ws else map (λ w. wrap64 (quot w g)) ws

-- What the loop of `convergeWeights` makes of a current weight.
abbrev settled : ℤ → ℤ → ℤ
settled o c = if eqb_ℤ o c then c else decrease o c

settled_near :
    (b : ℕ) (o c : ℤ)
    → IsWeight o
    → IsWeight c
    → (pos_part c ≤ b) ⊎ (pos_part c ≤ pos_part o)
    → (pos_part (settled o c) ≤ b / 4) ⊎ (pos_part (settled o c) ≤ pos_part o)
unfolding decrease quot
settled_near b o (negsuc c) ho hc near = absurd (omega arith)
settled_near b o (pos c) ho hc near = ground arith

settled_home :
    (b : ℕ) (o c : ℤ)
    → b ≤ 1
    → IsWeight o
    → IsWeight c
    → (pos_part c ≤ b) ⊎ (pos_part c ≤ pos_part o)
    → settled o c ≡ o
unfolding decrease quot
settled_home b o (negsuc c) low ho hc near = absurd (omega arith)
settled_home b (negsuc o) (pos c) low ho hc near = absurd (omega arith)
settled_home b (pos o) (pos c) low ho hc near = ground arith

pub divided_le :
    (g c : ℤ) → leb_ℤ g (pos 1) ≡ false → IsWeight c → pos_part (wrap64 (quot c g)) ≤ pos_part c
unfolding quot wrap64
divided_le (negsuc k) c more h = absurd (ground (arith, more))
divided_le (pos k) (negsuc c) more h = absurd (omega arith)
divided_le (pos k) (pos c) more h = ground (arith, div-le_self c k)

module _ {M : Type 0} where
  abbrev pub originals : List (RbServer M) → List ℤ
  originals ss = map (λ s. s.orig_weight) ss

  abbrev pub currents : List (RbServer M) → List ℤ
  currents ss = map (λ s. s.cur_weight) ss

  -- The current weight is at most `b`, or at most the original one.
  abbrev pub IsNear : ℕ → RbServer M → Type 0
  IsNear b s = (pos_part s.cur_weight ≤ b) ⊎ (pos_part s.cur_weight ≤ pos_part s.orig_weight)

  gcd_from-currents :
      (d : ℤ) (ss : List (RbServer M)) → weights_gcd_from d ss ≡ gcd_from d (currents ss)
  unfolding weights_gcd_from
  gcd_from-currents d [] = refl
  gcd_from-currents d (s ∷ ss) =
      gcd_from-currents (if eqb_ℤ d (negsuc 0) then s.cur_weight else gcd d s.cur_weight) ss

  currents-divide_by :
      (g : ℤ) (ss : List (RbServer M))
      → currents (map (divide_by g) ss) ≡ map (λ w. wrap64 (quot w g)) (currents ss)
  unfolding divide_by
  currents-divide_by g [] = refl
  currents-divide_by g (s ∷ ss) =
      ap (λ (ws : List ℤ). wrap64 (quot s.cur_weight g) ∷ ws) (currents-divide_by g ss)

  pub currents-normalize_weights :
      (ss : List (RbServer M)) → currents (normalize_weights ss) ≡ scaled (currents ss)
  unfolding normalize_weights
  currents-normalize_weights ss =
      let g = weights_gcd_from (negsuc 0) ss in
      let same = gcd_from-currents (negsuc 0) ss in
      elim (Bool-cases (leb_ℤ g (pos 1))) [
        | inl one ↦
            let one' : leb_ℤ (gcd_from (negsuc 0) (currents ss)) (pos 1) ≡ true = rw (← same) one in
            rw (normalize_weights, one, one') refl
        | inr more ↦
            let more' : leb_ℤ (gcd_from (negsuc 0) (currents ss)) (pos 1) ≡ false =
              rw (← same) more in
            rw (normalize_weights, more, more', ← same) (currents-divide_by g ss)
      ]

  settle-settled : (s : RbServer M) → (settle s).0.cur_weight ≡ settled s.orig_weight s.cur_weight
  unfolding settle
  settle-settled s = ground arith

  orig-settle : (s : RbServer M) → (settle s).0.orig_weight ≡ s.orig_weight
  unfolding settle
  orig-settle s = ground arith

  settle-IsNear : (b : ℕ) (s : RbServer M) → IsFit s → IsNear b s → IsNear (b / 4) (settle s).0
  settle-IsNear b s fit near =
      rw (settle-settled s, orig-settle s)
        (settled_near b s.orig_weight s.cur_weight fit.0 fit.1 near)

  settle_home :
      (b : ℕ) (s : RbServer M)
      → b ≤ 1
      → IsFit s
      → IsNear b s
      → (settle s).0.cur_weight ≡ s.orig_weight
  settle_home b s low fit near =
      settle-settled s ∙ settled_home b s.orig_weight s.cur_weight low fit.0 fit.1 near

  divide_by-IsNear :
      (b : ℕ) (g : ℤ) (s : RbServer M)
      → leb_ℤ g (pos 1) ≡ false
      → IsFit s
      → IsNear b s
      → IsNear b (divide_by g s)
  unfolding divide_by
  divide_by-IsNear b g s more fit near =
      let less = divided_le g s.cur_weight more fit.1 in omega (arith, less, near)

  divided-IsNear :
      (b : ℕ) (g : ℤ) (ss : List (RbServer M))
      → leb_ℤ g (pos 1) ≡ false
      → All IsFit ss
      → All (IsNear b) ss
      → All (IsNear b) (map (divide_by g) ss)
  divided-IsNear b g [] more fit near = tt
  divided-IsNear b g (s ∷ ss) more fit near =
      (divide_by-IsNear b g s more fit.0 near.0, divided-IsNear b g ss more fit.1 near.1)

  pub normalize_weights-IsNear :
      (b : ℕ) (ss : List (RbServer M))
      → All IsFit ss
      → All (IsNear b) ss
      → All (IsNear b) (normalize_weights ss)
  unfolding normalize_weights
  normalize_weights-IsNear b ss fit near =
      elim (Bool-cases (leb_ℤ (weights_gcd_from (negsuc 0) ss) (pos 1))) [
        | inl one ↦ rw one near
        | inr more ↦ rw more (divided-IsNear b _ ss more fit near)
      ]

  pub settle_each-IsNear :
      (b : ℕ) (ss : List (RbServer M))
      → All IsFit ss
      → All (IsNear b) ss
      → All (IsNear (b / 4)) (change_each settle ss).0
  unfolding change_each
  settle_each-IsNear b [] fit near = tt
  settle_each-IsNear b (s ∷ ss) fit near =
      (settle-IsNear b s fit.0 near.0, settle_each-IsNear b ss fit.1 near.1)

  pub settle_each_home :
      (b : ℕ) (ss : List (RbServer M))
      → b ≤ 1
      → All IsFit ss
      → All (IsNear b) ss
      → currents (change_each settle ss).0 ≡ originals ss
  unfolding change_each
  settle_each_home b [] low fit near = refl
  settle_each_home b (s ∷ ss) low fit near =
      rw (settle_home b s low fit.0 near.0, settle_each_home b ss low fit.1 near.1) refl

  pub originals-settle_each :
      (ss : List (RbServer M)) → originals (change_each settle ss).0 ≡ originals ss
  unfolding change_each
  originals-settle_each [] = refl
  originals-settle_each (s ∷ ss) = rw (orig-settle s, originals-settle_each ss) refl

  pub originals-normalize_weights :
      (ss : List (RbServer M)) → originals (normalize_weights ss) ≡ originals ss
  unfolding normalize_weights divide_by
  originals-normalize_weights ss =
      elim (Bool-cases (leb_ℤ (weights_gcd_from (negsuc 0) ss) (pos 1))) [
        | inl one ↦ rw one refl
        | inr more ↦ rw more (divided _ ss)
      ]
    where
      divided : (g : ℤ) (ss : List (RbServer M)) → originals (map (divide_by g) ss) ≡ originals ss
      divided g [] = refl
      divided g (s ∷ ss) = ap (λ (ws : List ℤ). s.orig_weight ∷ ws) (divided g ss)
