-- ===== src/Rebalancer/Backoff.antt =====
-- How often `adjustWeights` changes weights.
use oxy.Base.{
  ℕ, ◌≡◌, refl, arith, Bool, true, false, some, List, [], ◌∷◌, map, ◌⊎◌, inl, inr, ◌∙◌, ap, sym,
  subst, ltb, length, if◌then◌else◌, Bool-cases, Option-cases, not, ◌||◌,
}
use oxy.Base.Int.{ℤ, ltb_ℤ, ◌+ℤ◌, ◌≤ℤ◌}
use oxy.RoundRobin.{Url}
use oxy.Anomaly.{Float64, split_float64}
use oxy.Rebalancer.{
  Meters, RbServer, Rebalancer, grow, settle, change_each, adjust_with, metrics_ready,
  write_ratings, mark_each, is_empty, mark_servers, adjust_weights,
}

-- The weight that counts for the pool.
abbrev pub current : {M : Type 0} → RbServer M → Url × ℤ
current s = (s.url, s.cur_weight)

module _ {M : Type 0} where
  pub grow_same : (s : RbServer M) → (grow s).1 ≡ false → (grow s).0 ≡ s
  unfolding grow
  grow_same s h = ground arith

  pub settle_same : (s : RbServer M) → (settle s).1 ≡ false → (settle s).0 ≡ s
  unfolding settle
  settle_same s h = ground arith

  pub change_each_same :
      (f : RbServer M → RbServer M × Bool)
      → ((s : RbServer M) → (f s).1 ≡ false → (f s).0 ≡ s)
      → (ss : List (RbServer M)) → (change_each f ss).1 ≡ false
      → (change_each f ss).0 ≡ ss
  unfolding change_each
  change_each_same f h [] e = refl
  change_each_same f h (s ∷ ss) e = elim (Bool-cases (f s).1) [
    | inl one ↦ absurd (ground arith)
    | inr zero ↦
        let rest : (change_each f ss).1 ≡ false = ground arith in
        rw (h s zero, change_each_same f h ss rest) refl
  ]

  module _ {F : Type 0} (floats : Float64 F) (meters : Meters M F) where
    current-mark_each :
        (g : List F) (ss : List (RbServer M)) (rs : List F)
        → map current (mark_each floats meters g ss rs) ≡ map current ss
    unfolding mark_each
    current-mark_each g [] rs = refl
    current-mark_each g (s ∷ ss) [] = refl
    current-mark_each g (s ∷ ss) (r ∷ rs) = ap (λ l. current s ∷ l) (current-mark_each g ss rs)

    -- The server with its meter after `Rating`.
    abbrev pub read_meter : RbServer M → RbServer M
    read_meter s = record s { meter = (meters.rating s.meter).0 }

    pub write_ratings-reads :
        (ss : List (RbServer M)) (rs : List F) {ss' : List (RbServer M)} {rs' : List F}
        → write_ratings floats meters ss rs ≡ some (ss', rs')
        → map read_meter ss ≡ ss'
    unfolding write_ratings
    write_ratings-reads [] rs e = ground arith
    write_ratings-reads (s ∷ ss) [] e = absurd (ground arith)
    write_ratings-reads (s ∷ ss) (r ∷ rs) {ss'} {rs'} e =
        elim (Option-cases (write_ratings floats meters ss rs)) [
          | inl short ↦ absurd (ground (arith, short))
          | inr ((more, rest), found) ↦
              let all : read_meter s ∷ more ≡ ss' = ground (arith, found) in
              ap (λ l. read_meter s ∷ l) (write_ratings-reads ss rs found) ∙ all
        ]

    current-read_meter : (ss : List (RbServer M)) → map current (map read_meter ss) ≡ map current ss
    current-read_meter [] = refl
    current-read_meter (s ∷ ss) = ap (λ l. current s ∷ l) (current-read_meter ss)

    -- The fields that matter to the pool, and the times, are as they were.
    pub record IsSame (rb rb' : Rebalancer M F) : Type 0 where
      pub weights : map current rb'.servers ≡ map current rb.servers
      pub pool : rb'.next ≡ rb.next
      pub time : rb'.timer ≡ rb.timer
      pub period : rb'.backoff_duration ≡ rb.backoff_duration

    pub mark_servers-IsSame :
        (rb : Rebalancer M F) {rb' : Rebalancer M F} {split : Bool}
        → mark_servers floats meters rb ≡ some (rb', split)
        → IsSame rb rb'
    unfolding mark_servers
    mark_servers-IsSame rb {rb'} {split} e =
        elim (Option-cases (write_ratings floats meters rb.servers rb.ratings)) [
          | inl short ↦ absurd (ground arith)
          | inr ((ss, rs), er) ↦
              elim (Option-cases (split_float64 floats floats.one_and_half floats.zero_float rs)) [
                | inl empty ↦ absurd (ground arith)
                | inr ((g, b), es) ↦
                    let marked : Rebalancer M F = record rb {
                      servers = mark_each floats meters g ss rs;
                      ratings = rs;
                    } in
                    let found : mark_servers floats meters rb
                        ≡ some
                            (marked, not (is_empty floats meters g || is_empty floats meters b)) =
                      rw (mark_servers, er, es) refl in
                    let same : marked ≡ rb' = cc in
                    subst (IsSame rb) same (record {
                      weights =
                          current-mark_each g ss rs
                          ∙ ap (map current) (sym (write_ratings-reads rb.servers rb.ratings er))
                          ∙ current-read_meter rb.servers;
                      pool = refl;
                      time = refl;
                      period = refl;
                    })
              ]
        ]

    adjust_with-IsSame :
        (default_weight : ℤ) (f : RbServer M → RbServer M × Bool) (rb : Rebalancer M F)
        → ((s : RbServer M) → (f s).1 ≡ false → (f s).0 ≡ s)
        → (adjust_with default_weight f rb).1 ≡ false
        → IsSame rb (adjust_with default_weight f rb).0
    unfolding adjust_with
    adjust_with-IsSame default_weight f rb h e = elim (Bool-cases (change_each f rb.servers).1) [
      | inl changed ↦ absurd (ground (arith, changed))
      | inr kept ↦ rw kept (record {
        weights = ap (map current) (change_each_same f h rb.servers kept);
        pool = refl;
        time = refl;
        period = refl;
      })
    ]

    period-adjust_with :
        (default_weight : ℤ) (f : RbServer M → RbServer M × Bool) (rb : Rebalancer M F)
        → (adjust_with default_weight f rb).0.backoff_duration ≡ rb.backoff_duration
    unfolding adjust_with
    period-adjust_with default_weight f rb = ground arith

    adjust_weights_early :
        (default_weight : ℤ) (clock : ℕ → ℤ) (rb : Rebalancer M F)
        → clock 0 ≤ℤ rb.timer
        → adjust_weights floats meters default_weight clock rb ≡ some rb
    unfolding adjust_weights
    adjust_weights_early default_weight clock rb h = ground arith

    both : {a b c : Rebalancer M F} → IsSame a b → IsSame b c → IsSame a c
    both p q = record {
      weights = q.weights ∙ p.weights;
      pool = q.pool ∙ p.pool;
      time = q.time ∙ p.time;
      period = q.period ∙ p.period;
    }

    -- The end of `adjustWeights`, after `markServers`, for a body of the loop.
    abbrev pub finish :
        ℤ → (ℕ → ℤ) → (RbServer M → RbServer M × Bool) → Rebalancer M F → Rebalancer M F
    finish default_weight clock f rb =
        let (rb', changed) = adjust_with default_weight f rb in
        if changed then record rb' { timer = clock 1 +ℤ rb'.backoff_duration } else rb'

    finished :
        (default_weight : ℤ) (clock clock' : ℕ → ℤ) (f : RbServer M → RbServer M × Bool)
        (rb rb1 : Rebalancer M F)
        → ((s : RbServer M) → (f s).1 ≡ false → (f s).0 ≡ s)
        → IsSame rb rb1
        → clock' 0 ≤ℤ clock 1 +ℤ rb.backoff_duration
        → IsSame rb (finish default_weight clock f rb1)
          ⊎ (adjust_weights floats meters default_weight clock' (finish default_weight clock f rb1)
              ≡ some (finish default_weight clock f rb1))
    finished default_weight clock clock' f rb rb1 h same low =
        let period : (adjust_with default_weight f rb1).0.backoff_duration ≡ rb.backoff_duration =
          period-adjust_with default_weight f rb1 ∙ same.period in
        elim (Bool-cases (adjust_with default_weight f rb1).1) [
          | inl changed ↦
              inr (rw changed (adjust_weights_early default_weight clock' _ (rw period low)))
          | inr kept ↦ inl (rw kept (both same (adjust_with-IsSame default_weight f rb1 h kept)))
        ]

    -- A call of `adjustWeights` that returns leaves the current weights, the pool, the timer and the
    -- back-off period as they were, or else a next call changes nothing when its clock reads at most the
    -- time at which the timer was set plus the back-off period.
    pub adjust_weights-quiet :
        (default_weight : ℤ) (clock clock' : ℕ → ℤ) (rb : Rebalancer M F) {rb' : Rebalancer M F}
        → adjust_weights floats meters default_weight clock rb ≡ some rb'
        → clock' 0 ≤ℤ clock 1 +ℤ rb.backoff_duration
        → IsSame rb rb' ⊎ (adjust_weights floats meters default_weight clock' rb' ≡ some rb')
    unfolding adjust_weights
    adjust_weights-quiet default_weight clock clock' rb {rb'} e low =
        elim (Bool-cases (ltb (length rb.servers) 2)) [
          | inl few ↦ stay (ground arith)
          | inr many ↦ elim (Bool-cases (metrics_ready floats meters rb.servers)) [
            | inr unready ↦ stay (ground arith)
            | inl ready ↦ elim (Bool-cases (ltb_ℤ rb.timer (clock 0))) [
              | inr early ↦ stay (ground arith)
              | inl due ↦ elim (Option-cases (mark_servers floats meters rb)) [
                | inl panic ↦ absurd (ground arith)
                | inr ((rb1, true), em) ↦
                    let found : adjust_weights floats meters default_weight clock rb
                        ≡ some (finish default_weight clock grow rb1) =
                      rw (adjust_weights, many, ready, due, em) refl in
                    moved (cc) (
                      finished default_weight clock clock' grow rb rb1 grow_same
                        (mark_servers-IsSame rb em) low)
                | inr ((rb1, false), em) ↦
                    let found : adjust_weights floats meters default_weight clock rb
                        ≡ some (finish default_weight clock settle rb1) =
                      rw (adjust_weights, many, ready, due, em) refl in
                    moved (cc) (
                      finished default_weight clock clock' settle rb rb1 settle_same
                        (mark_servers-IsSame rb em) low)
              ]
            ]
          ]
        ]
      where
        stay :
            rb ≡ rb'
            → IsSame rb rb' ⊎ (adjust_weights floats meters default_weight clock' rb' ≡ some rb')
        stay same = inl (
            subst (IsSame rb) same
              (record { weights = refl; pool = refl; time = refl; period = refl }))

        moved :
            {c : Rebalancer M F}
            → c ≡ rb'
            → IsSame rb c ⊎ (adjust_weights floats meters default_weight clock' c ≡ some c)
            → IsSame rb rb' ⊎ (adjust_weights floats meters default_weight clock' rb' ≡ some rb')
        moved same r =
            subst
              (λ d. IsSame rb d ⊎ (adjust_weights floats meters default_weight clock' d ≡ some d))
              same r
