-- ===== src/Rebalancer/Bounds.antt =====
-- The weights that `adjustWeights` sets stay within their bounds, and it does not panic.
use native.Mathlib.Nat.{mul-div_cancel, div-le_self}
use oxy.Base.{
  ℕ, zero, suc, ◌*◌, ◌/◌, ◌≤◌, ◌<◌, ◌≡◌, refl, arith, Bool, true, List, [], ◌∷◌, map, All, inl, inr,
  ◌∙◌, ap, sym, subst, if◌then◌else◌, Bool-cases,
}
use oxy.Base.Int.{ℤ, pos, negsuc, pos_part, quot, leb_ℤ, eqb_ℤ, ◌≤ℤ◌, ◌*ℤ◌}
use oxy.Base.Int64.{wrap64, mul64}
use oxy.RoundRobin.Gcd.{Divides, gcd_lem, Divides-trans}
use oxy.Rebalancer.{
  RbServer, increase, decrease, grow, settle, change_each, divide_by, weights_gcd_from,
  normalize_weights,
}

-- A weight in 1 .. FSMMaxWeight.
abbrev pub IsWeight : ℤ → Type 0
IsWeight w = (pos 1 ≤ℤ w) × (w ≤ℤ pos 4096)

increase-IsWeight :
    (w : ℤ) → IsWeight w → leb_ℤ (increase w) (pos 4096) ≡ true → IsWeight (increase w)
unfolding increase mul64 ◌*ℤ◌ wrap64
increase-IsWeight (pos c) h e = ground arith
increase-IsWeight (negsuc c) h e = absurd (omega arith)

decrease-IsWeight : (t w : ℤ) → IsWeight t → IsWeight w → IsWeight (decrease t w)
unfolding decrease quot
decrease-IsWeight t (pos c) ht h = ground arith
decrease-IsWeight t (negsuc c) ht h = absurd (omega arith)

div_exact : (k g : ℕ) → 0 < g → k * g / g ≡ k
div_exact k g h = mul-div_cancel k h

quotient-IsWeight :
    (w : ℤ) (g k : ℕ) → 0 < g → w ≡ pos (k * g) → IsWeight w → IsWeight (wrap64 (quot w (pos g)))
unfolding quot wrap64
quotient-IsWeight w g zero hg e h = absurd (grind (arith, ap pos_part e))
quotient-IsWeight w g (suc k) hg e h =
    let back : suc k * g / g ≡ suc k = div_exact (suc k) g hg in
    let most : suc k * g / g ≤ suc k * g = div-le_self _ _ in rw (e, back) (ground (arith, e))

module _ {M : Type 0} where
  -- Both weights of a server are within the bounds.
  abbrev pub IsFit : RbServer M → Type 0
  IsFit s = IsWeight s.orig_weight × IsWeight s.cur_weight

  -- The current weight is a multiple of `g`.
  abbrev pub IsMultiple : ℕ → RbServer M → Type 0
  IsMultiple g s = (k : ℕ) × (s.cur_weight ≡ pos (k * g))

  pub grow-IsFit : (s : RbServer M) → IsFit s → IsFit (grow s).0
  unfolding grow
  grow-IsFit s h = elim (Bool-cases s.good) [
    | inl good ↦ elim (Bool-cases (leb_ℤ (increase s.cur_weight) (pos 4096))) [
      | inl fits ↦ rw (good, fits) (h.0, increase-IsWeight _ h.1 fits)
      | inr over ↦ rw (good, over) h
    ]
    | inr bad ↦ rw bad h
  ]

  pub settle-IsFit : (s : RbServer M) → IsFit s → IsFit (settle s).0
  unfolding settle
  settle-IsFit s h = elim (Bool-cases (eqb_ℤ s.orig_weight s.cur_weight)) [
    | inl same ↦ rw same h
    | inr apart ↦ rw apart (h.0, decrease-IsWeight _ _ h.0 h.1)
  ]

  divide_by-IsFit :
      (g : ℕ) (s : RbServer M) → 0 < g → IsMultiple g s → IsFit s → IsFit (divide_by (pos g) s)
  unfolding divide_by
  divide_by-IsFit g s hg (k, e) h = (h.0, quotient-IsWeight s.cur_weight g k hg e h.1)

  pub change_each-All :
      {P : RbServer M → Type 0} (f : RbServer M → RbServer M × Bool)
      → ((s : RbServer M) → P s → P (f s).0)
      → (ss : List (RbServer M)) → All P ss
      → All P (change_each f ss).0
  unfolding change_each
  change_each-All f keep [] h = tt
  change_each-All f keep (s ∷ ss) h = (keep s h.0, change_each-All f keep ss h.1)

  weights_gcd_lem :
      (d : ℕ) (ss : List (RbServer M))
      → All IsFit ss
      → (g : ℕ) × (weights_gcd_from (pos d) ss ≡ pos g)
        × Divides g d
        × All (IsMultiple g) ss
        × (0 < d → 0 < g)
  unfolding weights_gcd_from
  weights_gcd_lem d [] h = (d, refl, (1, omega arith), tt, λ p. p)
  weights_gcd_lem d (s ∷ ss) h =
      let n = pos_part s.cur_weight in
      let e : s.cur_weight ≡ pos n = ground arith in
      let (c, ec, dc, nc, pc) = gcd_lem d n in
      let (g, eg, gc, gs, pg) = weights_gcd_lem c ss h.1 in
      let (k, ek) = Divides-trans g c n gc nc in
      (
        g,
        ground (arith, e, ec, eg),
        Divides-trans g c d gc dc,
        ((k, e ∙ ap pos ek), gs),
        λ p. pg (pc (omega arith)),
      )

  divided :
      (g : ℕ) (ss : List (RbServer M))
      → 0 < g
      → All (IsMultiple g) ss
      → All IsFit ss
      → All IsFit (map (divide_by (pos g)) ss)
  divided g [] hg hm h = tt
  divided g (s ∷ ss) hg hm h = (divide_by-IsFit g s hg hm.0 h.0, divided g ss hg hm.1 h.1)

  -- What `normalizeWeights` does for a divisor.
  abbrev rescale : ℤ → List (RbServer M) → List (RbServer M)
  rescale d ss = if leb_ℤ d (pos 1) then ss else map (divide_by d) ss

  rescale-IsFit :
      (g : ℕ) (ss : List (RbServer M))
      → 0 < g
      → All (IsMultiple g) ss
      → All IsFit ss
      → All IsFit (rescale (pos g) ss)
  rescale-IsFit g ss hg hm h = elim (Bool-cases (leb_ℤ (pos g) (pos 1))) [
    | inl one ↦ rw one h
    | inr more ↦ rw more (divided g ss hg hm h)
  ]

  weights_gcd_first :
      (s : RbServer M) (ss : List (RbServer M))
      → IsFit s
      → weights_gcd_from (negsuc 0) (s ∷ ss) ≡ weights_gcd_from (pos (pos_part s.cur_weight)) ss
  unfolding weights_gcd_from
  weights_gcd_first s ss h =
      let e : s.cur_weight ≡ pos (pos_part s.cur_weight) = ground arith in
      ap (λ (w : ℤ). weights_gcd_from w ss) e

  pub normalize_weights-IsFit :
      (ss : List (RbServer M)) → All IsFit ss → All IsFit (normalize_weights ss)
  unfolding normalize_weights
  normalize_weights-IsFit [] h = ground arith
  normalize_weights-IsFit (s ∷ ss) h =
      let n = pos_part s.cur_weight in
      let e : s.cur_weight ≡ pos n = ground arith in
      let first : weights_gcd_from (negsuc 0) (s ∷ ss) ≡ weights_gcd_from (pos n) ss =
        weights_gcd_first s ss h.0 in
      let (g, eg, gn, gs, pg) = weights_gcd_lem n ss h.1 in
      let (k, ek) = gn in
      let all : weights_gcd_from (negsuc 0) (s ∷ ss) ≡ pos g = first ∙ eg in
      let there : All IsFit (rescale (pos g) (s ∷ ss)) =
        rescale-IsFit g (s ∷ ss) (pg (omega arith)) ((k, e ∙ ap pos ek), gs) h in
      subst (λ (d : ℤ). All IsFit (rescale d (s ∷ ss))) (sym all) there
