-- ===== src/Rebalancer/Alike.antt =====
-- Servers whose weights come closer to the original ones, and those that differ in marks and meters.
use oxy.Base.{
  ℕ, ◌/◌, ◌≤◌, ◌≡◌, refl, arith, Bool, some, List, [], ◌∷◌, All, map, ◌⊎◌, inl, inr, ◌∙◌, subst,
  Bool-cases, Option-cases,
}
use oxy.Base.Int.{ℤ, pos_part}
use oxy.RoundRobin.{Url, same_url}
use oxy.Anomaly.{Float64, split_float64}
use oxy.Rebalancer.{
  Meters, RbServer, Rebalancer, settle, change_first, change_each, write_ratings, mark_each,
  mark_servers, normalize_weights,
}
use oxy.Rebalancer.Backoff.{read_meter, write_ratings-reads}
use oxy.Rebalancer.Bounds.{IsWeight, IsFit, settle-IsFit, change_each-All, normalize_weights-IsFit}
use oxy.Rebalancer.Converge.{
  originals, currents, IsNear, normalize_weights-IsNear, settle_each-IsNear, originals-settle_each,
  originals-normalize_weights,
}

module _ {M : Type 0} where
  -- Fit servers with the original weights `os`, whose current ones are at most `b` or the original ones.
  pub record IsHoming (b : ℕ) (os : List ℤ) (ss : List (RbServer M)) : Type 0 where
    pub fit : All IsFit ss
    pub near : All (IsNear b) ss
    pub orig : originals ss ≡ os

  pub settle_each-IsHoming :
      (b : ℕ) {os : List ℤ} (ss : List (RbServer M))
      → IsHoming b os ss
      → IsHoming (b / 4) os (change_each settle ss).0
  settle_each-IsHoming b ss h = record {
    fit = change_each-All settle settle-IsFit ss h.fit;
    near = settle_each-IsNear b ss h.fit h.near;
    orig = originals-settle_each ss ∙ h.orig;
  }

  pub normalize_weights-IsHoming :
      (b : ℕ) {os : List ℤ} (ss : List (RbServer M))
      → IsHoming b os ss
      → IsHoming b os (normalize_weights ss)
  normalize_weights-IsHoming b ss h = record {
    fit = normalize_weights-IsFit ss h.fit;
    near = normalize_weights-IsNear b ss h.fit h.near;
    orig = originals-normalize_weights ss ∙ h.orig;
  }

  -- Two lists of servers that differ in marks and meters only.
  pub data IsAlike : List (RbServer M) → List (RbServer M) → Type 0 where
    none_left : IsAlike [] []
    one_more :
        {s s' : RbServer M} {ss ss' : List (RbServer M)}
        → s'.orig_weight ≡ s.orig_weight
        → s'.cur_weight ≡ s.cur_weight
        → IsAlike ss ss'
        → IsAlike (s ∷ ss) (s' ∷ ss')

  alike : (ss : List (RbServer M)) → IsAlike ss ss
  alike [] = none_left
  alike (s ∷ ss) = one_more refl refl (alike ss)

  alike_both : {ks ls ms : List (RbServer M)} → IsAlike ks ls → IsAlike ls ms → IsAlike ks ms
  alike_both none_left m = m
  alike_both (one_more o c l) (one_more o' c' m) = one_more (o' ∙ o) (c' ∙ c) (alike_both l m)

  pub currents-IsAlike : {ss ss' : List (RbServer M)} → IsAlike ss ss' → currents ss' ≡ currents ss
  currents-IsAlike none_left = refl
  currents-IsAlike (one_more o c l) = rw (c, currents-IsAlike l) refl

  pub originals-IsAlike :
      {ss ss' : List (RbServer M)} → IsAlike ss ss' → originals ss' ≡ originals ss
  originals-IsAlike none_left = refl
  originals-IsAlike (one_more o c l) = rw (o, originals-IsAlike l) refl

  All-IsAlike :
      (P : ℤ → ℤ → Type 0) {ss ss' : List (RbServer M)}
      → IsAlike ss ss'
      → All (λ s. P s.orig_weight s.cur_weight) ss
      → All (λ s. P s.orig_weight s.cur_weight) ss'
  All-IsAlike P none_left h = tt
  All-IsAlike P (one_more o c l) h = (rw (o, c) h.0, All-IsAlike P l h.1)

  pub IsHoming-IsAlike :
      {b : ℕ} {os : List ℤ} {ss ss' : List (RbServer M)}
      → IsAlike ss ss'
      → IsHoming b os ss
      → IsHoming b os ss'
  IsHoming-IsAlike {b} l h = record {
    fit = All-IsAlike (λ o c. IsWeight o × IsWeight c) l h.fit;
    near = All-IsAlike (λ o c. (pos_part c ≤ b) ⊎ (pos_part c ≤ pos_part o)) l h.near;
    orig = originals-IsAlike l ∙ h.orig;
  }

  module _ {F : Type 0} (floats : Float64 F) (meters : Meters M F) where
    mark_each-IsAlike :
        (g : List F) (ss : List (RbServer M)) (rs : List F)
        → IsAlike ss (mark_each floats meters g ss rs)
    unfolding mark_each
    mark_each-IsAlike g [] rs = none_left
    mark_each-IsAlike g (s ∷ ss) [] = alike (s ∷ ss)
    mark_each-IsAlike g (s ∷ ss) (r ∷ rs) = one_more refl refl (mark_each-IsAlike g ss rs)

    read_meter-IsAlike : (ss : List (RbServer M)) → IsAlike ss (map (read_meter floats meters) ss)
    read_meter-IsAlike [] = none_left
    read_meter-IsAlike (s ∷ ss) = one_more refl refl (read_meter-IsAlike ss)

    pub mark_servers-IsAlike :
        (rb : Rebalancer M F) {m : Rebalancer M F} {split : Bool}
        → mark_servers floats meters rb ≡ some (m, split)
        → IsAlike rb.servers m.servers
    unfolding mark_servers
    mark_servers-IsAlike rb {m} {split} e =
        elim (Option-cases (write_ratings floats meters rb.servers rb.ratings)) [
          | inl short ↦ absurd (ground arith)
          | inr ((ss, rs), er) ↦
              elim (Option-cases (split_float64 floats floats.one_and_half floats.zero_float rs)) [
                | inl empty ↦ absurd (ground arith)
                | inr ((g, b), es) ↦
                    let same : mark_each floats meters g ss rs ≡ m.servers = ground arith in
                    let read =
                      subst (IsAlike rb.servers)
                        (write_ratings-reads floats meters rb.servers rb.ratings er)
                        (read_meter-IsAlike rb.servers) in
                    alike_both read (subst (IsAlike ss) same (mark_each-IsAlike g ss rs))
              ]
        ]

    pub record_metrics-IsAlike :
        (u : Url) (code latency : ℤ) (ss : List (RbServer M))
        → IsAlike ss
            (change_first u (λ s. record s { meter = meters.observe code latency s.meter }) ss)
    unfolding change_first
    record_metrics-IsAlike u code latency [] = none_left
    record_metrics-IsAlike u code latency (s ∷ ss) = elim (Bool-cases (same_url u s.url)) [
      | inl here ↦ rw here (one_more refl refl (alike ss))
      | inr other ↦ rw other (one_more refl refl (record_metrics-IsAlike u code latency ss))
    ]
