-- ===== src/CBreaker/Serve.antt =====
-- `ServeHTTP` of the breaker as a whole.
use oxy.Base.{
  ◌≡◌, ◌≢◌, refl, ap, arith, Bool, true, false, Option, none, some, ◌⊎◌, inl, inr, if◌then◌else◌,
  Bool-cases, Option-cases,
}
use oxy.Base.Int.{ℤ, pos, ltb_ℤ, eqb_ℤ, ◌-ℤ◌}
use oxy.Base.Int64.{clamp64}
use oxy.Http.Writer.{ResponseWriter, new_proxy_writer, status_code, proxy, Handler, run}
use oxy.Http.Proxied.{last_code, run-proxy_same}
use oxy.CBreaker.{
  State, standby, tripped, recovering, Floats, Breaker, Clock, set_state, set_recovering, recover,
  decide, activate_fallback, record_request, time_to_check, check_and_set,
}
use oxy.CBreaker.Safe.{IsSafe, decide-IsSafe}

module _ {M W R : Type 0} (floats : Floats) (condition : M → Bool) (reset : M → M)
    (x : ResponseWriter W R) (measure : ℤ → ℤ → M → M) where
  -- `serve`: `measure` is `metrics.Record`. Other goroutines may change the breaker while the next handler
  -- runs (`others`), before `timeToCheck` (`others'`) and before `checkAndSet` locks (`others''`).
  unfoldable pub serve :
      (others others' others'' : Breaker M → Breaker M)
      → ℤ
      → ℤ
      → ℤ
      → Clock
      → Handler R
      → W
      → Breaker M
      → Breaker M × W
  serve others others' others'' start stop now clock next w c =
      let p = run (proxy x) next (new_proxy_writer w) in
      let c' =
        others' (record_request (measure (status_code p) (clamp64 (stop -ℤ start))) (others c)) in
      (check_and_set (time_to_check now c') condition reset clock (others'' c'), p.w)

  -- `ServeHTTP`; `quick` is what `isStandby` saw, and `none` is a panic.
  unfoldable pub serve_http :
      (others others' others'' : Breaker M → Breaker M)
      → State
      → Clock
      → ℤ
      → ℤ
      → ℤ
      → Clock
      → Handler R
      → Handler R
      → W
      → Breaker M
      → Option (Breaker M × W)
  serve_http others others' others'' quick clock start stop now clock' fallback next w c =
      elim (activate_fallback floats quick clock c) [
        | none ↦ none
        | some (c', true) ↦ some (c', run x fallback w)
        | some (c', false) ↦ some (serve others others' others'' start stop now clock' next w c')
      ]

  recover-metrics :
      (now now' now'' : ℤ) (c : Breaker M) {c' : Breaker M} {answer : Bool}
      → recover floats now now' now'' c ≡ some (c', answer)
      → c'.metrics ≡ c.metrics
  unfolding recover set_state
  recover-metrics now now' now'' c e = elim (Bool-cases (ltb_ℤ c.until now)) [
    | inl over ↦ ground arith
    | inr before ↦ elim (Option-cases c.rc) [
      | inl nil ↦ absurd (ground arith)
      | inr (rc, f) ↦ ground arith
    ]
  ]

  decide-metrics :
      (q : State) (clock : Clock) (c : Breaker M) {c' : Breaker M} {answer : Bool}
      → decide floats q clock c ≡ some (c', answer)
      → c'.metrics ≡ c.metrics
  unfolding decide set_recovering set_state
  decide-metrics standby clock c e = ground arith
  decide-metrics recovering clock c e = recover-metrics (clock 0) (clock 1) (clock 2) c e
  decide-metrics tripped clock c e = elim (Bool-cases (ltb_ℤ (clock 0) c.until)) [
    | inl early ↦ ground arith
    | inr late ↦ recover-metrics _ _ _ _ (rw late at e)
  ]

  activate_fallback-some :
      (quick : State) (clock : Clock) (c : Breaker M)
      → IsSafe floats condition reset c
      → (c' : Breaker M) × (answer : Bool) × (activate_fallback floats quick clock c
          ≡ some (c', answer))
        × (c'.metrics ≡ c.metrics)
  unfolding activate_fallback
  activate_fallback-some standby clock c safe = (c, false, refl, refl)
  activate_fallback-some tripped clock c safe =
      let (c', answer, e, _) = decide-IsSafe floats condition reset c.state clock c refl safe in
      (c', answer, e, decide-metrics c.state clock c e)
  activate_fallback-some recovering clock c safe =
      let (c', answer, e, _) = decide-IsSafe floats condition reset c.state clock c refl safe in
      (c', answer, e, decide-metrics c.state clock c e)

  decide-fallback :
      (q : State) (clock : Clock) (c : Breaker M) {c' : Breaker M}
      → decide floats q clock c ≡ some (c', true)
      → q ≢ standby
  unfolding decide
  decide-fallback standby clock c e = absurd (ground arith)
  decide-fallback tripped clock c e = λ n. cc
  decide-fallback recovering clock c e = λ n. cc

  activate_fallback-down :
      (quick : State) (clock : Clock) (c : Breaker M) {c' : Breaker M}
      → activate_fallback floats quick clock c ≡ some (c', true)
      → c.state ≢ standby
  unfolding activate_fallback
  activate_fallback-down standby clock c e = absurd (ground arith)
  activate_fallback-down tripped clock c e = decide-fallback c.state clock c e
  activate_fallback-down recovering clock c e = decide-fallback c.state clock c e

  module _ (others others' others'' : Breaker M → Breaker M) (start stop now : ℤ) (clock' : Clock)
      (fallback next : Handler R) (w : W) where
    -- The next handler had the ResponseWriter for itself, and its last code, or 200, was recorded.
    abbrev pub IsServed : Breaker M → Breaker M → W → Type 0
    IsServed c d w' =
        (w' ≡ run x next w)
        × (let last = last_code x (pos 0) next w in
            let code = if eqb_ℤ last (pos 0) then pos 200 else last in
            let e = others' (record_request (measure code (clamp64 (stop -ℤ start))) (others c)) in
            d ≡ check_and_set (time_to_check now e) condition reset clock' (others'' e))

    serve-IsServed :
        (c : Breaker M)
        → let (d, w') = serve others others' others'' start stop now clock' next w c in
          IsServed c d w'
    unfolding serve new_proxy_writer status_code
    serve-IsServed c =
        let (out, code) = run-proxy_same x next (new_proxy_writer w) in
        (
          out,
          ap
              (λ (k : ℤ).
                let seen = if eqb_ℤ k (pos 0) then pos 200 else k in
                let e =
                  others' (record_request (measure seen (clamp64 (stop -ℤ start))) (others c)) in
                check_and_set (time_to_check now e) condition reset clock' (others'' e))
              code,
        )

    -- Out of standby the fallback had the ResponseWriter for itself, and nothing was recorded; or the next handler did.
    abbrev pub IsOnce : Breaker M → Breaker M → W → Type 0
    IsOnce c d w' =
        ((c.state ≢ standby) × (w' ≡ run x fallback w) × (d.metrics ≡ c.metrics))
        ⊎ ((c' : Breaker M) × (c'.metrics ≡ c.metrics) × IsServed c' d w')

    answered :
        (quick : State) (clock : Clock) (c c' : Breaker M) (answer : Bool)
        → activate_fallback floats quick clock c ≡ some (c', answer)
        → c'.metrics ≡ c.metrics
        → (d : Breaker M) × (w' : W) × (serve_http others others' others'' quick clock start stop
              now clock' fallback next w c
            ≡ some (d, w'))
          × IsOnce c d w'
    unfolding serve_http
    answered quick clock c c' true e same = (
      c',
      run x fallback w,
      rw (serve_http, e) refl,
      inl (activate_fallback-down quick clock c e, refl, same),
    )
    answered quick clock c c' false e same =
        let (d, w') = serve others others' others'' start stop now clock' next w c' in
        (d, w', rw (serve_http, e) refl, inr (c', same, serve-IsServed c'))

    -- A request to a breaker that has a controller if it is in recovery is answered. Either the breaker is
    -- not in standby, the fallback alone answers it, and the metrics are as they were. Or the next handler alone answers it, as if it had the
    -- ResponseWriter for itself, and `metrics.Record` is called once, with the last status code that the
    -- handler wrote, or 200 without one.
    pub serve_http-IsOnce :
        (quick : State) (clock : Clock) (c : Breaker M)
        → IsSafe floats condition reset c
        → (d : Breaker M) × (w' : W) × (serve_http others others' others'' quick clock start stop
              now clock' fallback next w c
            ≡ some (d, w'))
          × IsOnce c d w'
    serve_http-IsOnce quick clock c safe =
        let (c', answer, e, same) = activate_fallback-some quick clock c safe in
        answered quick clock c c' answer e same
