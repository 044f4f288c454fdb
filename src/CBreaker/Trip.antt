-- ===== src/CBreaker/Trip.antt =====
-- The states of the breaker under any interleaving of its locked sections.
use oxy.Base.{ℕ, ◌≡◌, ◌≢◌, refl, arith, Bool, true, some}
use oxy.Base.Int.{ℤ, ◌<ℤ◌}
use oxy.CBreaker.{
  State, standby, tripped, recovering, Floats, Breaker, Clock, decide, activate_fallback,
  check_locked, record_request,
}

-- Tripped until `u`.
abbrev pub IsTripped : {M : Type 0} → ℤ → Breaker M → Type 0
IsTripped u c = (c.state ≡ tripped) × (c.until ≡ u)

module _ {M : Type 0} (floats : Floats) (condition : M → Bool) (reset : M → M) where
  -- A locked section of some goroutine, or `metrics.Record`, while the clock reads less than `limit`.
  pub data Step (limit : ℤ) (c : Breaker M) : Breaker M → Type 0 where
    decided :
        {c' : Breaker M} (clock : Clock) (answer : Bool)
        → ((i : ℕ) → clock i <ℤ limit)
        → decide floats c.state clock c ≡ some (c', answer)
        → Step limit c c'
    checked :
        (clock : Clock)
        → ((i : ℕ) → clock i <ℤ limit)
        → Step limit c (check_locked condition reset clock c)
    recorded : (add : M → M) → Step limit c (record_request add c)

  pub data Reach (limit : ℤ) (c : Breaker M) : Breaker M → Type 0 where
    here : Reach limit c c
    next : {d e : Breaker M} → Reach limit c d → Step limit d e → Reach limit c e

  decide_tripped :
      (clock : Clock) (c : Breaker M) {u : ℤ}
      → IsTripped u c
      → clock 0 <ℤ u
      → decide floats c.state clock c ≡ some (c, true)
  unfolding decide
  decide_tripped clock c (e, f) h = ground arith

  check-IsTripped :
      (clock : Clock) (c : Breaker M) {u : ℤ}
      → IsTripped u c
      → IsTripped u (check_locked condition reset clock c)
  unfolding check_locked
  check-IsTripped clock c (e, f) = ground arith

  Step-IsTripped : {u : ℤ} {c c' : Breaker M} → Step u c c' → IsTripped u c → IsTripped u c'
  unfolding record_request
  Step-IsTripped {c = c} (decided clock answer low e) h =
      let same = decide_tripped clock c h (low 0) in ground arith
  Step-IsTripped {c = c} (checked clock low) h = check-IsTripped clock c h
  Step-IsTripped (recorded add) h = h

  pub Reach-IsTripped : {u : ℤ} {c c' : Breaker M} → Reach u c c' → IsTripped u c → IsTripped u c'
  Reach-IsTripped here h = h
  Reach-IsTripped (next r st) h = Step-IsTripped st (Reach-IsTripped r h)

  -- Once tripped until `u`, the breaker stays so whatever goroutines do while the clock reads less than
  -- `u`, and every request that finds it not in standby gets the fallback and changes nothing.
  pub Reach-fallback :
      {u : ℤ} {c c' : Breaker M} (quick : State) (clock : Clock)
      → IsTripped u c
      → Reach u c c'
      → quick ≢ standby
      → clock 0 <ℤ u
      → (activate_fallback floats quick clock c' ≡ some (c', true)) × IsTripped u c'
  unfolding activate_fallback
  Reach-fallback standby clock h r n low = absurd (n refl)
  Reach-fallback {c' = c'} tripped clock h r n low =
      let h' = Reach-IsTripped r h in (decide_tripped clock c' h' low, h')
  Reach-fallback {c' = c'} recovering clock h r n low =
      let h' = Reach-IsTripped r h in (decide_tripped clock c' h' low, h')
