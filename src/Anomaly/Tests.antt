-- ===== src/Anomaly/Tests.antt =====
-- Splits of concrete values, in tenths.
use oxy.Base.{
  ℕ, ◌*◌, ◌/◌, ◌≡◌, refl, arith, true, false, some, List, [], ◌∷◌, ltb, if◌then◌else◌, ==_iff, ap,
}
use oxy.Base.Int.{pos, pos_part, quot, ◌+ℤ◌}
use oxy.Base.Int64.{add64, wrap64}
use oxy.Anomaly.{
  median, median_absolute_deviation, split_at, split_float64, has_key, max_from, ratio_of, put,
  take_from, put_all, split_latencies,
}
use oxy.Anomaly.Split.{padded, split_float64-splits}
use oxy.Anomaly.Tenths.{tenths, length-sorted}

program : Unit {0}
unfolding median median_absolute_deviation split_at split_float64 has_key max_from ratio_of put
    take_from put_all split_latencies quot ◌+ℤ◌ add64 wrap64
program = tt

congruent : (a b c : ℕ) → tenths.same a b ≡ true → tenths.greater a c ≡ tenths.greater b c
congruent a b c h = ap (λ (n : ℕ). ltb c n) ((==_iff a b).0 h)

abbrev values : List ℕ
values = 1 ∷ 2 ∷ 9 ∷ []

nine_bad : split_float64 tenths 15 0 values ≡ some (1 ∷ 2 ∷ [], 9 ∷ [])
unfolding program
nine_bad = refl

split_float64-splits_example :
    (g b : List ℕ) × (split_float64 tenths 15 0 values ≡ some (g, b))
    × (m d : ℕ) × (median tenths (padded tenths 0 values) ≡ some m)
    × (median_absolute_deviation tenths (padded tenths 0 values) ≡ some d)
    × ((v : ℕ)
        → let above = tenths.greater v (tenths.times (tenths.plus m d) 15) in
          (has_key tenths g v ≡ (if above then false else has_key tenths values v))
          × (has_key tenths b v ≡ (if above then has_key tenths values v else false)))
split_float64-splits_example =
    split_float64-splits tenths length-sorted congruent 15 0 values (omega arith)

-- Of two latencies that are the same in the precision only the last is in either set.
one_lost :
    split_latencies tenths
      (λ n. pos_part n * 10)
      (λ a b. a * 10 / b)
      20
      (pos 10)
      (pos 31 ∷ pos 35 ∷ pos 30 ∷ [])
    ≡ some (pos 30 ∷ pos 30 ∷ pos 30 ∷ [], [])
unfolding program
one_lost = refl
