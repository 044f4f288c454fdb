-- ===== src/CBreaker/Safe.antt =====
-- No request meets a nil ratio controller.
use oxy.Base.{
  ◌≡◌, ◌≢◌, refl, arith, Bool, true, false, Option, none, some, if◌then◌else◌, inl, inr, Bool-cases,
  Option-cases,
}
use mathlib.Core.Path.{subst}
use oxy.Base.Int.{ℤ, ltb_ℤ}
use oxy.CBreaker.{
  State, standby, tripped, recovering, Floats, RatioController, allow_request, Breaker, set_state,
  set_recovering, Clock, recover, decide, activate_fallback, is_tripped, trip_if, check_locked,
  record_request,
}
use oxy.CBreaker.Trip.{Step, decided, checked, recorded, Reach, here, next}

module _ {M : Type 0} (floats : Floats) (condition : M → Bool) (reset : M → M) where
  -- A breaker in recovery has a controller.
  abbrev HasController : State → Option RatioController → Type 0
  HasController recovering rc = rc ≢ none
  HasController standby rc = Unit
  HasController tripped rc = Unit

  abbrev pub IsSafe : Breaker M → Type 0
  IsSafe c = HasController c.state c.rc

  recover-IsSafe :
      (now now' now'' : ℤ) (c : Breaker M)
      → c.state ≡ recovering
      → c.rc ≢ none
      → (c' : Breaker M) × (answer : Bool) × (recover floats now now' now'' c ≡ some (c', answer))
        × IsSafe c'
  unfolding recover set_state
  recover-IsSafe now now' now'' c e n = elim (Option-cases c.rc) [
    | inl nil ↦ absurd (n nil)
    | inr (rc, f) ↦ elim (Bool-cases (ltb_ℤ c.until now)) [
      | inl over ↦ (set_state standby now' c, false, ground arith, tt)
      | inr before ↦
          let (rc', go) = allow_request floats now'' rc in
          (
            record c { rc = some rc' },
            if go then false else true,
            ground arith,
            let safe : HasController recovering (some rc') = λ z. cc in rw e safe,
          )
    ]
  ]

  pub decide-IsSafe :
      (q : State) (clock : Clock) (c : Breaker M)
      → c.state ≡ q
      → IsSafe c
      → (c' : Breaker M) × (answer : Bool) × (decide floats q clock c ≡ some (c', answer))
        × IsSafe c'
  unfolding decide
  decide-IsSafe standby clock c e h = (c, false, refl, h)
  decide-IsSafe tripped clock c e h = elim (Bool-cases (ltb_ℤ (clock 0) c.until)) [
    | inl early ↦ (c, true, rw early, h)
    | inr late ↦
        let c' = set_recovering (clock 1) (clock 2) c in
        let (d, answer, f, safe) =
          recover-IsSafe (clock 3) (clock 4) (clock 5) c' (in_recovery (clock 1) (clock 2) c)
            (with_controller (clock 1) (clock 2) c) in
        (d, answer, rw late f, safe)
  ]
    where
      in_recovery :
          (now started : ℤ) (c : Breaker M) → (set_recovering now started c).state ≡ recovering
      in_recovery now started c = unfold set_recovering set_state in refl

      with_controller : (now started : ℤ) (c : Breaker M) → (set_recovering now started c).rc ≢ none
      with_controller now started c = unfold set_recovering in λ z. cc
  decide-IsSafe recovering clock c e h =
      recover-IsSafe (clock 0) (clock 1) (clock 2) c e (rw e at h)

  check-IsSafe :
      (clock : Clock) (c : Breaker M) → IsSafe c → IsSafe (check_locked condition reset clock c)
  unfolding check_locked trip_if set_state
  check-IsSafe clock c h = elim (Bool-cases (ltb_ℤ (clock 0) c.last_check)) [
    | inl early ↦ rw early h
    | inr due ↦ elim (Bool-cases (is_tripped c.state)) [
      | inl down ↦ rw (due, down) h
      | inr up ↦ elim (Bool-cases (condition c.metrics)) [
        | inl met ↦ rw (due, up, met) tt
        | inr unmet ↦ rw (due, up, unmet) h
      ]
    ]
  ]

  Step-IsSafe :
      {limit : ℤ} {c c' : Breaker M} → Step floats condition reset limit c c' → IsSafe c → IsSafe c'
  unfolding record_request
  Step-IsSafe {c = c} {c' = c'} (decided clock answer low e) h =
      let (d, answer', f, safe) = decide-IsSafe c.state clock c refl h in
      let same : d ≡ c' = ground arith in subst IsSafe same safe
  Step-IsSafe {c = c} (checked clock low) h = check-IsSafe clock c h
  Step-IsSafe (recorded add) h = h

  Reach-IsSafe :
      {limit : ℤ} {c c' : Breaker M}
      → IsSafe c
      → Reach floats condition reset limit c c'
      → IsSafe c'
  Reach-IsSafe h here = h
  Reach-IsSafe h (next r st) = Step-IsSafe st (Reach-IsSafe h r)

  -- From a breaker in standby, no interleaving leads to a state in which a request meets a nil ratio
  -- controller: `activateFallback` always returns an answer.
  pub Reach-answers :
      {limit : ℤ} {c c' : Breaker M} (quick : State) (clock : Clock)
      → c.state ≡ standby
      → Reach floats condition reset limit c c'
      → (d : Breaker M) × (answer : Bool) × (activate_fallback floats quick clock c'
          ≡ some (d, answer))
  unfolding activate_fallback
  Reach-answers {c' = c'} standby clock h r = (c', false, refl)
  Reach-answers {c' = c'} tripped clock h r =
      let (d, answer, f, safe) = decide-IsSafe c'.state clock c' refl (Reach-IsSafe (rw h tt) r) in
      (d, answer, f)
  Reach-answers {c' = c'} recovering clock h r =
      let (d, answer, f, safe) = decide-IsSafe c'.state clock c' refl (Reach-IsSafe (rw h tt) r) in
      (d, answer, f)
