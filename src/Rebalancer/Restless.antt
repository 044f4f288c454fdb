-- ===== src/Rebalancer/Restless.antt =====
-- `convergeWeights` compares with the original weights, `normalizeWeights` divides them.
use oxy.Base.{
  ℕ, ◌≡◌, ◌≢◌, refl, arith, false, List, [], ◌∷◌, map, All, inl, inr, ◌∙◌, ap, sym, subst,
  Bool-cases,
}
use oxy.Base.Int.{ℤ, pos, negsuc, quot, leb_ℤ, ◌+ℤ◌}
use oxy.Base.Int64.{wrap64}
use oxy.Anomaly.{Float64}
use oxy.Rebalancer.{Meters, RbServer, Rebalancer, settle, change_each, apply_weights, adjust_with}
use oxy.Rebalancer.Backoff.{mark_servers-IsSame, settle_same, change_each_same}
use oxy.Rebalancer.Bounds.{IsFit}
use oxy.Rebalancer.Converge.{
  gcd_from, divided_le, scaled, originals, currents, IsNear, currents-normalize_weights,
  settle_each_home,
}
use oxy.Rebalancer.Alike.{currents-IsAlike, IsHoming-IsAlike, mark_servers-IsAlike}
use oxy.Rebalancer.Home.{IsCalm, IsCalm-finish}

module _ {M F : Type 0} (floats : Float64 F) (meters : Meters M F) (default_weight : ℤ) where
  below :
      (g : ℤ) (ss : List (RbServer M))
      → leb_ℤ g (pos 1) ≡ false
      → All IsFit ss
      → currents ss ≡ map (λ w. wrap64 (quot w g)) (originals ss)
      → All (IsNear 0) ss
  below g [] more fit same = tt
  below g (s ∷ ss) more fit same =
      let one : s.cur_weight ≡ wrap64 (quot s.orig_weight g) = cc in
      let all : currents ss ≡ map (λ w. wrap64 (quot w g)) (originals ss) = cc in
      let less = divided_le g s.orig_weight more fit.0.0 in
      (inr (rw one less), below g ss more fit.1 all)

  equal : (ss : List (RbServer M)) → currents ss ≡ originals ss → All (IsNear 0) ss
  equal [] same = tt
  equal (s ∷ ss) same =
      let one : s.cur_weight ≡ s.orig_weight = cc in
      let all : currents ss ≡ originals ss = cc in (inr (ground (arith, one)), equal ss all)

  scaled_near :
      (ss : List (RbServer M))
      → All IsFit ss
      → currents ss ≡ scaled (originals ss)
      → All (IsNear 0) ss
  scaled_near ss fit down =
      let g = gcd_from (negsuc 0) (originals ss) in
      elim (Bool-cases (leb_ℤ g (pos 1))) [
        | inl one ↦ equal ss (rw one at down)
        | inr more ↦ below g ss more fit (rw more at down)
      ]

  -- All weights are in 1 .. `FSMMaxWeight`, the original ones have a common divisor above 1, and the current
  -- ones are the original ones divided by their greatest. `adjustWeights` is called with two servers or
  -- more, the meters of all ready, the timer expired, and `markServers` finding no two groups and not
  -- panicking, so that it gets to `convergeWeights`. This call leaves the current weights as they are, and
  -- yet it puts the timer off and upserts every server in the pool again.
  pub IsCalm-restless :
      (clock : ℕ → ℤ) (rb : Rebalancer M F) {rb' : Rebalancer M F}
      → All IsFit rb.servers
      → currents rb.servers ≡ scaled (originals rb.servers)
      → scaled (originals rb.servers) ≢ originals rb.servers
      → IsCalm floats meters default_weight clock rb rb'
      → (currents rb'.servers ≡ currents rb.servers)
        × (rb'.timer ≡ clock 1 +ℤ rb.backoff_duration)
        × (rb'.next ≡ apply_weights default_weight rb'.servers rb.next)
  unfolding adjust_with
  IsCalm-restless clock rb {rb'} fit down apart calm =
      let m = calm.marked in
      let alike = mark_servers-IsAlike floats meters rb calm.alone in
      let same = mark_servers-IsSame floats meters rb calm.alone in
      let h =
        IsHoming-IsAlike alike
          (record { fit = fit; near = scaled_near rb.servers fit down; orig = refl }) in
      let home : currents (change_each settle m.servers).0 ≡ originals m.servers =
        settle_each_home 0 m.servers (omega arith) h.fit h.near in
      subst
        (λ e.
          (currents e.servers ≡ currents rb.servers)
          × (e.timer ≡ clock 1 +ℤ rb.backoff_duration)
          × (e.next ≡ apply_weights default_weight e.servers rb.next))
        (IsCalm-finish floats meters default_weight clock calm)
        (elim (Bool-cases (change_each settle m.servers).1) [
          | inl changed ↦ rw changed (
            currents-normalize_weights _ ∙ ap scaled (home ∙ h.orig) ∙ sym down,
            ap (λ (d : ℤ). clock 1 +ℤ d) same.period,
            ap (apply_weights default_weight _) same.pool,
          )
          | inr kept ↦
              let still : (change_each settle m.servers).0 ≡ m.servers =
                change_each_same settle settle_same m.servers kept in
              let before : currents m.servers ≡ currents rb.servers = currents-IsAlike alike in
              let after : originals m.servers ≡ originals rb.servers = h.orig in
              absurd (apart (sym down ∙ sym before ∙ ap currents (sym still) ∙ home ∙ after))
        ])
