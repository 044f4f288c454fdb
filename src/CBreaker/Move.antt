-- ===== src/CBreaker/Move.antt =====
-- The edges of the breaker's state machine.
use oxy.Base.{◌≡◌, ◌≢◌, refl, arith, Bool, true, some, ◌∷◌, ◌⊎◌, inl, inr, Bool-cases, Option-cases}
use oxy.Base.Int.{ℤ, ltb_ℤ}
use oxy.CBreaker.{
  State, standby, tripped, recovering, Floats, on_tripped, on_standby, Breaker, set_state,
  set_recovering, Clock, recover, decide, is_tripped, trip_if, check_locked, record_request,
}
use oxy.CBreaker.Trip.{Step, decided, checked, recorded}

module _ {M : Type 0} (floats : Floats) (condition : M → Bool) (reset : M → M) where
  -- How a step may move the breaker.
  pub data Move (c c' : Breaker M) : Type 0 where
    stay : c'.state ≡ c.state → c'.until ≡ c.until → c'.effects ≡ c.effects → Move c c'
    recover_from : c.state ≡ tripped → c'.state ≡ recovering → c'.effects ≡ c.effects → Move c c'
    stand_by :
        c.state ≢ standby → c'.state ≡ standby → c'.effects ≡ on_standby ∷ c.effects → Move c c'
    trip :
        c.state ≢ tripped
        → c'.state ≡ tripped
        → c'.effects ≡ on_tripped ∷ c.effects
        → condition c.metrics ≡ true
        → c'.metrics ≡ reset c.metrics
        → Move c c'

  check-Move : (clock : Clock) (c : Breaker M) → Move c (check_locked condition reset clock c)
  unfolding check_locked trip_if set_state
  check-Move clock c = elim (Bool-cases (ltb_ℤ (clock 0) c.last_check)) [
    | inl early ↦ rw early (stay refl refl refl)
    | inr due ↦ elim (Bool-cases (is_tripped c.state)) [
      | inl down ↦ rw (due, down) (stay refl refl refl)
      | inr up ↦ elim (Bool-cases (condition c.metrics)) [
        | inl met ↦
            rw (due, up, met)
              (trip (λ e. let t : is_tripped c.state ≡ true = rw e refl in cc) refl refl met refl)
        | inr unmet ↦ rw (due, up, unmet) (stay refl refl refl)
      ]
    ]
  ]

  -- What the recovering case may do.
  recover-cases :
      (now now' now'' : ℤ) (c : Breaker M) {c' : Breaker M} {answer : Bool}
      → recover floats now now' now'' c ≡ some (c', answer)
      → ((c'.state ≡ standby) × (c'.effects ≡ on_standby ∷ c.effects))
        ⊎ ((c'.state ≡ c.state) × (c'.until ≡ c.until) × (c'.effects ≡ c.effects))
  unfolding recover set_state
  recover-cases now now' now'' c e = elim (Bool-cases (ltb_ℤ c.until now)) [
    | inl over ↦ inl (ground arith)
    | inr before ↦ elim (Option-cases c.rc) [
      | inl nil ↦ absurd (ground arith)
      | inr (rc, f) ↦ inr (ground arith)
    ]
  ]

  decide-Move :
      (q : State) (clock : Clock) (c : Breaker M) {c' : Breaker M} (answer : Bool)
      → c.state ≡ q
      → decide floats q clock c ≡ some (c', answer)
      → Move c c'
  unfolding decide set_recovering set_state
  decide-Move standby clock c answer s e = stay (ground arith) (ground arith) (ground arith)
  decide-Move tripped clock c answer s e = elim (Bool-cases (ltb_ℤ (clock 0) c.until)) [
    | inl early ↦ stay (ground arith) (ground arith) (ground arith)
    | inr late ↦ elim (recover-cases _ _ _ _ (rw late at e)) [
      | inl (f, g) ↦ stand_by (λ n. cc) f g
      | inr (f, _, g) ↦ recover_from s f g
    ]
  ]
  decide-Move recovering clock c answer s e = elim (recover-cases _ _ _ _ e) [
    | inl (f, g) ↦ stand_by (λ n. cc) f g
    | inr (f, u, g) ↦ stay f u g
  ]

  -- Every step moves the breaker along one of the edges: it keeps its state, its end time and its side
  -- effects; it goes from tripped to recovering; it enters standby from another state, and starts
  -- `onStandby` once; or it enters the tripped state from another, which takes the condition to hold,
  -- resets the metrics and starts `onTripped` once.
  pub Step-Move :
      {limit : ℤ} {c c' : Breaker M} → Step floats condition reset limit c c' → Move c c'
  unfolding record_request
  Step-Move {c = c} (decided clock answer low e) = decide-Move c.state clock c answer refl e
  Step-Move {c = c} (checked clock low) = check-Move clock c
  Step-Move (recorded add) = stay refl refl refl
