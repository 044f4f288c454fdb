-- ===== src/CBreaker/Period.antt =====
-- How often the tripping condition is evaluated.
use oxy.Base.{
  ℕ, suc, ◌≡◌, refl, arith, Bool, some, List, [], ◌∷◌, inl, inr, Bool-cases, Option-cases,
}
use oxy.Base.Int.{ℤ, ltb_ℤ, ◌+ℤ◌, ◌≤ℤ◌}
use oxy.CBreaker.{
  State, standby, tripped, recovering, Floats, Effect, on_tripped, on_standby, Breaker, set_state,
  set_recovering, Clock, recover, decide, is_tripped, trip_if, check_locked, record_request,
}
use oxy.CBreaker.Trip.{Step, decided, checked, recorded, Reach, here, next}

-- The part of the effects that counts here.
abbrev pub trips : List Effect → ℕ
trips [] = 0
trips (on_tripped ∷ l) = suc (trips l)
trips (on_standby ∷ l) = trips l

module _ {M : Type 0} (floats : Floats) (condition : M → Bool) (reset : M → M) where
  -- The time of the next check, and the trips so far.
  abbrev pub IsQuiet : ℤ → ℕ → Breaker M → Type 0
  IsQuiet l n c = (c.last_check ≡ l) × (trips c.effects ≡ n)

  recover-IsQuiet :
      (now now' now'' l : ℤ) (n : ℕ) (c : Breaker M) {c' : Breaker M} {answer : Bool}
      → recover floats now now' now'' c ≡ some (c', answer)
      → IsQuiet l n c
      → IsQuiet l n c'
  unfolding recover set_state
  recover-IsQuiet now now' now'' l n c e h = elim (Bool-cases (ltb_ℤ c.until now)) [
    | inl over ↦ ground arith
    | inr before ↦ elim (Option-cases c.rc) [
      | inl nil ↦ absurd (ground arith)
      | inr (rc, f) ↦ ground arith
    ]
  ]

  decide-IsQuiet :
      (q : State) (clock : Clock) (l : ℤ) (n : ℕ) (c : Breaker M) {c' : Breaker M} (answer : Bool)
      → decide floats q clock c ≡ some (c', answer)
      → IsQuiet l n c
      → IsQuiet l n c'
  unfolding decide set_recovering set_state
  decide-IsQuiet standby clock l n c answer e h = ground arith
  decide-IsQuiet tripped clock l n c answer e h = elim (Bool-cases (ltb_ℤ (clock 0) c.until)) [
    | inl early ↦ ground arith
    | inr late ↦ recover-IsQuiet _ _ _ l n _ (rw late at e) h
  ]
  decide-IsQuiet recovering clock l n c answer e h = recover-IsQuiet _ _ _ l n c e h

  Step-IsQuiet :
      {l : ℤ} {n : ℕ} {c c' : Breaker M}
      → Step floats condition reset l c c'
      → IsQuiet l n c
      → IsQuiet l n c'
  unfolding record_request check_locked
  Step-IsQuiet {l = l} {n = n} {c = c} (decided clock answer low e) h =
      decide-IsQuiet c.state clock l n c answer e h
  Step-IsQuiet {c = c} (checked clock low) h = let early = low 0 in ground arith
  Step-IsQuiet (recorded add) h = h

  Reach-IsQuiet :
      {l : ℤ} {n : ℕ} {c c' : Breaker M}
      → IsQuiet l n c
      → Reach floats condition reset l c c'
      → IsQuiet l n c'
  Reach-IsQuiet h here = h
  Reach-IsQuiet h (next r st) = Step-IsQuiet st (Reach-IsQuiet h r)

  check_next :
      (clock : Clock) (c : Breaker M)
      → c.last_check ≤ℤ clock 0
      → (check_locked condition reset clock c).last_check ≡ clock 1 +ℤ c.check_period
  unfolding check_locked trip_if set_state
  check_next clock c h = elim (Bool-cases (ltb_ℤ (clock 0) c.last_check)) [
    | inl early ↦ absurd (ground arith)
    | inr due ↦ elim (Bool-cases (is_tripped c.state)) [
      | inl down ↦ rw (due, down) refl
      | inr up ↦ elim (Bool-cases (condition c.metrics)) [
        | inl met ↦ rw (due, up, met) refl
        | inr unmet ↦ rw (due, up, unmet) refl
      ]
    ]
  ]

  -- A check that is due, at a time t, is the last one for a check period: whatever goroutines do while
  -- the clock reads less than t plus `checkPeriod`, the breaker does not trip again and the time of the
  -- next check stays.
  pub check_locked-quiet :
      (clock : Clock) (c : Breaker M) {d : Breaker M}
      → c.last_check ≤ℤ clock 0
      → Reach floats condition reset
          (clock 1 +ℤ c.check_period)
          (check_locked condition reset clock c)
          d
      → (trips d.effects ≡ trips (check_locked condition reset clock c).effects)
        × (d.last_check ≡ clock 1 +ℤ c.check_period)
  check_locked-quiet clock c h r =
      let quiet = Reach-IsQuiet (check_next clock c h, refl) r in (quiet.1, quiet.0)
