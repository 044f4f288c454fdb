-- ===== src/Rebalancer/Adjust.antt =====
-- `adjustWeights` as a whole: it does not panic, and it keeps the servers and the bounds of weights.
use oxy.Base.{
  ℕ, suc, ◌<◌, ◌≡◌, refl, arith, Bool, true, false, not, ◌||◌, some, List, [], ◌∷◌, map, length,
  All, inl, inr, ◌∙◌, ap, ltb, if◌then◌else◌, Bool-cases,
}
use oxy.Base.Int.{ℤ, ◌+ℤ◌, pos, negsuc, ltb_ℤ, leb_ℤ}
use oxy.RoundRobin.{Url}
use oxy.Anomaly.{Float64}
use oxy.Anomaly.Total.{split_float64-some}
use oxy.Rebalancer.{
  Meters, RbServer, Rebalancer, grow, settle, change_each, divide_by, weights_gcd_from,
  normalize_weights, adjust_with, metrics_ready, write_ratings, mark_each, is_empty, mark_servers,
  adjust_weights,
}
use oxy.Rebalancer.Bounds.{
  IsFit, grow-IsFit, settle-IsFit, change_each-All, normalize_weights-IsFit,
}

-- What the rebalancer never changes of a server: its URL and its original weight.
abbrev pub frame : {M : Type 0} → RbServer M → Url × ℤ
frame s = (s.url, s.orig_weight)

module _ {M : Type 0} where
  pub frame-grow : (s : RbServer M) → frame (grow s).0 ≡ frame s
  unfolding grow
  frame-grow s = ground arith

  pub frame-settle : (s : RbServer M) → frame (settle s).0 ≡ frame s
  unfolding settle
  frame-settle s = ground arith

  pub frame-change_each :
      (f : RbServer M → RbServer M × Bool)
      → ((s : RbServer M) → frame (f s).0 ≡ frame s)
      → (ss : List (RbServer M)) → map frame (change_each f ss).0 ≡ map frame ss
  unfolding change_each
  frame-change_each f h [] = refl
  frame-change_each f h (s ∷ ss) = rw (h s, frame-change_each f h ss) refl

  frame-divide_by :
      (g : ℤ) (ss : List (RbServer M)) → map frame (map (divide_by g) ss) ≡ map frame ss
  unfolding divide_by
  frame-divide_by g [] = refl
  frame-divide_by g (s ∷ ss) = ap (λ l. frame s ∷ l) (frame-divide_by g ss)

  pub frame-normalize_weights :
      (ss : List (RbServer M)) → map frame (normalize_weights ss) ≡ map frame ss
  unfolding normalize_weights
  frame-normalize_weights ss = elim (Bool-cases (leb_ℤ (weights_gcd_from (negsuc 0) ss) (pos 1))) [
    | inl one ↦ rw one refl
    | inr more ↦ rw more (frame-divide_by _ ss)
  ]

  module _ {F : Type 0} where
    -- The servers are those of `ss`, with weights in their bounds.
    pub record IsKept (ss : List (RbServer M)) (rb : Rebalancer M F) : Type 0 where
      pub fit : All IsFit rb.servers
      pub frames : map frame rb.servers ≡ map frame ss
      pub rated : length rb.ratings ≡ length ss

    timed :
        (changed : Bool) (t : ℤ) (ss : List (RbServer M)) {rb : Rebalancer M F}
        → IsKept ss rb
        → IsKept ss (if changed then record rb { timer = t } else rb)
    timed true t ss h = record { fit = h.fit; frames = h.frames; rated = h.rated }
    timed false t ss h = h

    adjust_with-IsKept :
        (default_weight : ℤ) (f : RbServer M → RbServer M × Bool) (ss : List (RbServer M))
        → ((s : RbServer M) → IsFit s → IsFit (f s).0)
        → ((s : RbServer M) → frame (f s).0 ≡ frame s)
        → (rb : Rebalancer M F) → IsKept ss rb
        → IsKept ss (adjust_with default_weight f rb).0
    unfolding adjust_with
    adjust_with-IsKept default_weight f ss hf hs rb h =
        let fit = change_each-All f hf rb.servers h.fit in
        let frames = frame-change_each f hs rb.servers ∙ h.frames in
        elim (Bool-cases (change_each f rb.servers).1) [
          | inl changed ↦ rw changed (record {
            fit = normalize_weights-IsFit _ fit;
            frames = frame-normalize_weights _ ∙ frames;
            rated = h.rated;
          })
          | inr same ↦ rw same (record { fit = fit; frames = frames; rated = h.rated })
        ]

    module _ (floats : Float64 F) (meters : Meters M F) where
      write_ratings-some :
          (ss : List (RbServer M)) (rs : List F)
          → length rs ≡ length ss
          → (ss' : List (RbServer M)) × (rs' : List F) × (write_ratings floats meters ss rs
              ≡ some (ss', rs'))
            × (length rs' ≡ length ss)
            × (All IsFit ss → All IsFit ss')
            × (map frame ss' ≡ map frame ss)
      unfolding write_ratings
      write_ratings-some [] rs h = ([], rs, refl, h, λ fit. fit, refl)
      write_ratings-some (s ∷ ss) [] h = absurd (omega arith)
      write_ratings-some (s ∷ ss) (r ∷ rs) h =
          let (ss', rs', e, l, fit, same) = write_ratings-some ss rs (omega arith) in
          (
            record s { meter = (meters.rating s.meter).0 } ∷ ss',
            (meters.rating s.meter).1 ∷ rs',
            rw e refl,
            ap suc l,
            λ h. (h.0, fit h.1),
            ap (λ k. frame s ∷ k) same,
          )

      mark_each-lem :
          (g : List F) (ss : List (RbServer M)) (rs : List F)
          → All IsFit ss
          → All IsFit (mark_each floats meters g ss rs)
            × (map frame (mark_each floats meters g ss rs) ≡ map frame ss)
      unfolding mark_each
      mark_each-lem g [] rs h = (tt, refl)
      mark_each-lem g (s ∷ ss) [] h = (h, refl)
      mark_each-lem g (s ∷ ss) (r ∷ rs) h =
          let (fit, same) = mark_each-lem g ss rs h.1 in ((h.0, fit), ap (λ l. frame s ∷ l) same)

      pub mark_servers-IsKept :
          (keep : (xs : List F) → length (floats.sort xs) ≡ length xs) (rb : Rebalancer M F)
          → All IsFit rb.servers
          → length rb.ratings ≡ length rb.servers
          → 0 < length rb.servers
          → (rb' : Rebalancer M F) × (split : Bool) × (mark_servers floats meters rb
              ≡ some (rb', split))
            × IsKept rb.servers rb'
      unfolding mark_servers
      mark_servers-IsKept keep rb fit rated full =
          let (ss, rs, e, l, fits, frames) = write_ratings-some rb.servers rb.ratings rated in
          let ((g, b), es) =
            split_float64-some floats keep floats.one_and_half floats.zero_float rs
              (omega (arith, l)) in
          let (fit', same) = mark_each-lem g ss rs (fits fit) in
          let rb' : Rebalancer M F = record rb {
            servers = mark_each floats meters g ss rs;
            ratings = rs;
          } in
          (
            rb',
            not (is_empty floats meters g || is_empty floats meters b),
            rw (mark_servers, e, es) refl,
            record { fit = fit'; frames = same ∙ frames; rated = l },
          )

      -- The end of `adjustWeights`, after `markServers`.
      abbrev finish : ℤ → (ℕ → ℤ) → Bool → Rebalancer M F → Rebalancer M F
      finish default_weight clock split rb =
          let (rb', changed) = adjust_with default_weight (if split then grow else settle) rb in
          if changed then record rb' { timer = clock 1 +ℤ rb'.backoff_duration } else rb'

      settled :
          (default_weight : ℤ) (clock : ℕ → ℤ) (split : Bool) (ss : List (RbServer M))
          (rb : Rebalancer M F)
          → IsKept ss rb
          → IsKept ss (finish default_weight clock split rb)
      settled default_weight clock true ss rb h =
          let k = adjust_with-IsKept default_weight grow ss grow-IsFit frame-grow rb h in
          timed _ _ ss k
      settled default_weight clock false ss rb h =
          let k = adjust_with-IsKept default_weight settle ss settle-IsFit frame-settle rb h in
          timed _ _ ss k

      -- With as many ratings as servers, and a sort that keeps the length, `adjustWeights` does not
      -- panic. It keeps the URLs and the original weights of the servers and the number of ratings, and
      -- if all the weights are in 1 .. `FSMMaxWeight` before, they are after it.
      pub adjust_weights-IsKept :
          (keep : (xs : List F) → length (floats.sort xs) ≡ length xs) (default_weight : ℤ)
          (clock : ℕ → ℤ) (rb : Rebalancer M F)
          → All IsFit rb.servers
          → length rb.ratings ≡ length rb.servers
          → (rb' : Rebalancer M F) × (adjust_weights floats meters default_weight clock rb
              ≡ some rb')
            × IsKept rb.servers rb'
      unfolding adjust_weights
      adjust_weights-IsKept keep default_weight clock rb fit rated =
          let same : IsKept rb.servers rb = record { fit = fit; frames = refl; rated = rated } in
          elim (Bool-cases (ltb (length rb.servers) 2)) [
            | inl few ↦ (rb, rw few refl, same)
            | inr many ↦ elim (Bool-cases (metrics_ready floats meters rb.servers)) [
              | inr unready ↦ (rb, rw (many, unready) refl, same)
              | inl ready ↦ elim (Bool-cases (ltb_ℤ rb.timer (clock 0))) [
                | inr early ↦ (rb, rw (many, ready, early) refl, same)
                | inl due ↦
                    let (rb', split, e, kept) =
                      mark_servers-IsKept keep rb fit rated (ground arith) in
                    (
                      finish default_weight clock split rb',
                      rw (adjust_weights, many, ready, due, e) refl,
                      settled default_weight clock split rb.servers rb' kept,
                    )
              ]
            ]
          ]
