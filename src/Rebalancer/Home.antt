-- ===== src/Rebalancer/Home.antt =====
-- The weights while no server stands out for some time: `adjustWeights` with `convergeWeights`, call
-- by call, and `recordMetrics` between the calls.
use oxy.Base.{
  ℕ, zero, suc, ◌+◌, ◌-◌, ◌/◌, ◌≤◌, ◌<◌, ◌≡◌, refl, arith, true, false, some, List, [], ◌∷◌, All,
  ◌⊎◌, inl, inr, ◌∙◌, ap, subst, Bool-cases, ltb, length,
}
use oxy.Base.Int.{ℤ, ltb_ℤ}
use oxy.RoundRobin.{Url, Server, Error, Pool, next_server}
use oxy.Anomaly.{Float64}
use oxy.Rebalancer.{
  Meters, RbServer, Rebalancer, settle, change_each, adjust_with, metrics_ready, mark_servers,
  record_metrics, adjust_weights,
}
use oxy.Rebalancer.Backoff.{finish}
use oxy.Rebalancer.Bounds.{IsFit}
use oxy.Rebalancer.Converge.{
  scaled, originals, currents, IsNear, currents-normalize_weights, settle_each_home,
}
use oxy.Rebalancer.Alike.{
  IsHoming, settle_each-IsHoming, normalize_weights-IsHoming, currents-IsAlike, IsHoming-IsAlike,
  mark_servers-IsAlike, record_metrics-IsAlike,
}

module _ {M F : Type 0} (floats : Float64 F) (meters : Meters M F) (default_weight : ℤ) where
  -- A call of `adjustWeights` that gets to `convergeWeights`: there are two servers or more, their
  -- meters are ready, the timer has expired, and `markServers` finds no two groups.
  pub record IsCalm (clock : ℕ → ℤ) (rb rb' : Rebalancer M F) : Type 0 where
    pub marked : Rebalancer M F
    pub many : ltb (length rb.servers) 2 ≡ false
    pub ready : metrics_ready floats meters rb.servers ≡ true
    pub due : ltb_ℤ rb.timer (clock 0) ≡ true
    pub alone : mark_servers floats meters rb ≡ some (marked, false)
    pub made : adjust_weights floats meters default_weight clock rb ≡ some rb'

  pub IsCalm-finish :
      (clock : ℕ → ℤ) {rb rb' : Rebalancer M F} (h : IsCalm clock rb rb')
      → finish floats meters default_weight clock settle h.marked ≡ rb'
  unfolding adjust_weights
  IsCalm-finish clock {rb} {rb'} h =
      let found : adjust_weights floats meters default_weight clock rb
          ≡ some (finish floats meters default_weight clock settle h.marked) =
        rw (adjust_weights, h.many, h.ready, h.due, h.alone) refl in
      let made = h.made in cc

  pub finish-IsHoming :
      (clock : ℕ → ℤ) (b : ℕ) {os : List ℤ} (rb : Rebalancer M F)
      → IsHoming b os rb.servers
      → IsHoming (b / 4) os (finish floats meters default_weight clock settle rb).servers
  unfolding adjust_with
  finish-IsHoming clock b rb h =
      let one = settle_each-IsHoming b rb.servers h in
      elim (Bool-cases (change_each settle rb.servers).1) [
        | inl changed ↦ rw changed (normalize_weights-IsHoming (b / 4) _ one)
        | inr kept ↦ rw kept one
      ]

  pub finish_home :
      (clock : ℕ → ℤ) (b : ℕ) {os : List ℤ} (rb : Rebalancer M F)
      → b ≤ 1
      → IsHoming b os rb.servers
      → let ws = currents (finish floats meters default_weight clock settle rb).servers in
        (ws ≡ os) ⊎ (ws ≡ scaled os)
  unfolding adjust_with
  finish_home clock b rb low h =
      let home : currents (change_each settle rb.servers).0 ≡ originals rb.servers =
        settle_each_home b rb.servers low h.fit h.near in
      elim (Bool-cases (change_each settle rb.servers).1) [
        | inl changed ↦ inr (rw changed (currents-normalize_weights _ ∙ ap scaled (home ∙ h.orig)))
        | inr kept ↦ inl (rw kept (home ∙ h.orig))
      ]

  -- `n` such calls; between them requests are recorded, `NextServer` picks servers from the pool, and
  -- `adjustWeights` is called before the timer has expired.
  pub data Quiet (rb : Rebalancer M F) : ℕ → Rebalancer M F → Type 0 where
    begun : Quiet rb 0 rb
    recorded :
        {n : ℕ} {d : Rebalancer M F} (u : Url) (code latency : ℤ)
        → Quiet rb n d
        → Quiet rb n (record_metrics floats meters u code latency d)
    picked :
        {n : ℕ} {d : Rebalancer M F} {next : Pool} {out : Error ⊎ Server}
        → Quiet rb n d
        → next_server d.next ≡ some (next, out)
        → Quiet rb n (record d { next = next })
    waited :
        {n : ℕ} {d e : Rebalancer M F} (clock : ℕ → ℤ)
        → Quiet rb n d
        → ltb_ℤ d.timer (clock 0) ≡ false
        → adjust_weights floats meters default_weight clock d ≡ some e
        → Quiet rb n e
    adjusted :
        {n : ℕ} {d e : Rebalancer M F} (clock : ℕ → ℤ)
        → Quiet rb n d
        → IsCalm clock d e
        → Quiet rb (suc n) e

  -- What is left of `FSMMaxWeight` after `n` divisions by `FSMGrowFactor`.
  abbrev pub reach : ℕ → ℕ
  reach zero = 4096
  reach (suc n) = reach n / 4

  reach_low : (n : ℕ) → reach (6 + n) ≤ 1
  reach_low zero = omega arith
  reach_low (suc n) =
      let before = reach_low n in
      let after : reach (suc (6 + n)) ≤ 1 = omega (arith, before) in
      let same : suc (6 + n) ≡ 6 + suc n = omega arith in subst (λ k. reach k ≤ 1) same after

  waited_same :
      (clock : ℕ → ℤ) (d : Rebalancer M F) {e : Rebalancer M F}
      → ltb_ℤ d.timer (clock 0) ≡ false
      → adjust_weights floats meters default_weight clock d ≡ some e
      → d ≡ e
  unfolding adjust_weights
  waited_same clock d {e} early made = elim (Bool-cases (ltb (length d.servers) 2)) [
    | inl few ↦ ground (arith, few)
    | inr many ↦ elim (Bool-cases (metrics_ready floats meters d.servers)) [
      | inl ready ↦ ground (arith, many, ready, early)
      | inr unready ↦ ground (arith, many, unready)
    ]
  ]

  Quiet-IsHoming :
      {rb : Rebalancer M F} {n : ℕ} {rb' : Rebalancer M F}
      → Quiet rb n rb'
      → All IsFit rb.servers
      → IsHoming (reach n) (originals rb.servers) rb'.servers
  unfolding record_metrics
  Quiet-IsHoming begun fit = record { fit = fit; near = near _ fit; orig = refl }
    where
      near : (ss : List (RbServer M)) → All IsFit ss → All (IsNear 4096) ss
      near [] fit = tt
      near (s ∷ ss) fit = (inl (ground (arith, fit.0.1)), near ss fit.1)
  Quiet-IsHoming (recorded u code latency q) fit =
      IsHoming-IsAlike (record_metrics-IsAlike floats meters u code latency _)
        (Quiet-IsHoming q fit)
  Quiet-IsHoming (picked q picks) fit = Quiet-IsHoming q fit
  Quiet-IsHoming {rb = rb} {n = n} (waited {d = d} clock q early made) fit =
      subst (λ e. IsHoming (reach n) (originals rb.servers) e.servers)
        (waited_same clock d early made) (Quiet-IsHoming q fit)
  Quiet-IsHoming {rb = rb} {n = suc n} (adjusted {d = d} clock q calm) fit =
      let before =
        IsHoming-IsAlike (mark_servers-IsAlike floats meters d calm.alone) (Quiet-IsHoming q fit) in
      subst (λ e. IsHoming (reach (suc n)) (originals rb.servers) e.servers)
        (IsCalm-finish clock calm) (finish-IsHoming clock (reach n) calm.marked before)

  -- Call `adjustWeights` seven times or more on servers whose weights were all in 1 .. `FSMMaxWeight` at the
  -- start, each time with two servers or more, the meters of all ready, the timer expired, and
  -- `markServers` finding no two groups and not panicking, so that the call gets to `convergeWeights`.
  -- Between these calls only requests are recorded, servers picked from the pool, and `adjustWeights` called
  -- before the timer has expired. Then the current weights are the original ones, or the original ones
  -- divided by their greatest common divisor.
  pub Quiet-home :
      {rb : Rebalancer M F} {n : ℕ} {rb' : Rebalancer M F}
      → All IsFit rb.servers
      → 6 < n
      → Quiet rb n rb'
      → (currents rb'.servers ≡ originals rb.servers)
        ⊎ (currents rb'.servers ≡ scaled (originals rb.servers))
  unfolding record_metrics
  Quiet-home fit late begun = absurd (omega arith)
  Quiet-home fit late (recorded {d = d} u code latency q) =
      rw (currents-IsAlike (record_metrics-IsAlike floats meters u code latency d.servers))
        (Quiet-home fit late q)
  Quiet-home fit late (picked q picks) = Quiet-home fit late q
  Quiet-home {rb = rb} fit late (waited {d = d} clock q early made) =
      subst
        (λ e.
          (currents e.servers ≡ originals rb.servers)
          ⊎ (currents e.servers ≡ scaled (originals rb.servers)))
        (waited_same clock d early made) (Quiet-home fit late q)
  Quiet-home {rb = rb} {n = suc n} fit late (adjusted {d = d} clock q calm) =
      let before =
        IsHoming-IsAlike (mark_servers-IsAlike floats meters d calm.alone) (Quiet-IsHoming q fit) in
      let low : reach n ≤ 1 = subst (λ k. reach k ≤ 1) (omega arith) (reach_low (n - 6)) in
      subst
        (λ e.
          (currents e.servers ≡ originals rb.servers)
          ⊎ (currents e.servers ≡ scaled (originals rb.servers)))
        (IsCalm-finish clock calm) (finish_home clock (reach n) calm.marked low before)
