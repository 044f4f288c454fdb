-- ===== src/CBreaker/Recover.antt =====
-- How the breaker comes back to standby while the backend is in order.
use oxy.Base.{
  ℕ, ◌≡◌, ◌≢◌, refl, arith, Bool, true, false, none, some, ◌⊎◌, inl, inr, if◌then◌else◌, Bool-cases,
  Option-cases, ◌∙◌, sym, subst,
}
use oxy.Base.Int.{ℤ, pos, ltb_ℤ, ◌<ℤ◌, ◌≤ℤ◌, ◌+ℤ◌}
use oxy.CBreaker.{
  State, standby, tripped, recovering, Floats, allow_request, Breaker, set_state, set_recovering,
  Clock, recover, decide, activate_fallback, is_tripped, trip_if, check_locked, record_request,
}
use oxy.CBreaker.Trip.{decided, checked, recorded, Reach, here, next}
use oxy.CBreaker.Safe.{IsSafe}

below_add : (a b d : ℤ) → a <ℤ b → pos 0 ≤ℤ d → a <ℤ b +ℤ d
unfolding ◌+ℤ◌
below_add a b d h p = ground arith

le_lt : (a b d : ℤ) → a ≤ℤ b → b <ℤ d → a <ℤ d
le_lt a b d h p = omega arith

add_below : (a b d : ℤ) → a <ℤ b → a +ℤ d <ℤ b +ℤ d
unfolding ◌+ℤ◌
add_below a b d h = ground arith

module _ {M : Type 0} (floats : Floats) (condition : M → Bool) (reset : M → M) where
  -- In standby, or in recovery until a time before `limit`.
  abbrev pub IsReturning : ℤ → Breaker M → Type 0
  IsReturning limit c =
      (c.state ≡ standby) ⊎ ((c.state ≡ recovering) × ((c.until <ℤ limit) × (c.rc ≢ none)))

  recover-IsReturning :
      (now now' now'' limit : ℤ) (c : Breaker M)
      → c.state ≡ recovering
      → c.rc ≢ none
      → c.until <ℤ limit
      → (c' : Breaker M) × (answer : Bool) × (recover floats now now' now'' c ≡ some (c', answer))
        × IsReturning limit c'
  unfolding recover set_state
  recover-IsReturning now now' now'' limit c e n low = elim (Option-cases c.rc) [
    | inl nil ↦ absurd (n nil)
    | inr (rc, f) ↦ elim (Bool-cases (ltb_ℤ c.until now)) [
      | inl over ↦ (set_state standby now' c, false, ground arith, inl refl)
      | inr before ↦
          let (rc', go) = allow_request floats now'' rc in
          (
            record c { rc = some rc' },
            if go then false else true,
            ground arith,
            inr (e, (low, λ z. cc)),
          )
    ]
  ]

  -- The end of the recovery: a request whose clock reads at least `limit` ends it.
  recover_end :
      (now now' now'' limit : ℤ) (c : Breaker M)
      → c.until <ℤ limit
      → limit ≤ℤ now
      → recover floats now now' now'' c ≡ some (set_state standby now' c, false)
  unfolding recover
  recover_end now now' now'' limit c low late = ground arith

  decide-IsReturning :
      (q : State) (clock : Clock) (limit : ℤ) (c : Breaker M)
      → c.state ≡ q
      → IsReturning limit c
      → (c' : Breaker M) × (answer : Bool) × (decide floats q clock c ≡ some (c', answer))
        × IsReturning limit c'
  unfolding decide
  decide-IsReturning standby clock limit c e h = (c, false, refl, h)
  decide-IsReturning tripped clock limit c e (inl up) = absurd (cc)
  decide-IsReturning tripped clock limit c e (inr back) = let other = back.0 in absurd (cc)
  decide-IsReturning recovering clock limit c e (inl up) = absurd (cc)
  decide-IsReturning recovering clock limit c e (inr (f, (low, n))) =
      recover-IsReturning (clock 0) (clock 1) (clock 2) limit c e n low

  check-IsReturning :
      (healthy : (m : M) → condition m ≡ false) (clock : Clock) (limit : ℤ) (c : Breaker M)
      → IsReturning limit c
      → IsReturning limit (check_locked condition reset clock c)
  unfolding check_locked trip_if
  check-IsReturning healthy clock limit c h = elim (Bool-cases (ltb_ℤ (clock 0) c.last_check)) [
    | inl early ↦ rw early h
    | inr due ↦ elim (Bool-cases (is_tripped c.state)) [
      | inl down ↦ rw (due, down) h
      | inr up ↦ rw (due, up, healthy c.metrics) h
    ]
  ]

  Reach-IsReturning :
      (healthy : (m : M) → condition m ≡ false) (until : ℤ) {limit : ℤ} {c c' : Breaker M}
      → IsReturning until c
      → Reach floats condition reset limit c c'
      → IsReturning until c'
  unfolding record_request
  Reach-IsReturning healthy until h here = h
  Reach-IsReturning healthy until {c' = e} h (next {d = d} r (decided clock answer low f)) =
      let (e', answer', g, h') =
        decide-IsReturning d.state clock until d refl (Reach-IsReturning healthy until h r) in
      let same : e' ≡ e = ground arith in subst (IsReturning until) same h'
  Reach-IsReturning healthy until h (next {d = d} r (checked clock low)) =
      check-IsReturning healthy clock until d (Reach-IsReturning healthy until h r)
  Reach-IsReturning healthy until h (next r (recorded add)) = Reach-IsReturning healthy until h r

  -- The first request that finds the time of a breaker over.
  first_request :
      (q : State) (clock : Clock) (limit : ℤ) (c : Breaker M)
      → c.state ≡ q
      → IsSafe floats condition reset c
      → c.until ≤ℤ clock 0
      → ((i : ℕ) → clock i <ℤ limit)
      → pos 0 ≤ℤ c.recovery_duration
      → (c' : Breaker M) × (answer : Bool) × (decide floats q clock c ≡ some (c', answer))
        × IsReturning (limit +ℤ c.recovery_duration) c'
  unfolding decide
  first_request standby clock limit c e safe over low long = (c, false, refl, inl e)
  first_request recovering clock limit c e safe over low long =
      recover-IsReturning (clock 0) (clock 1) (clock 2) (limit +ℤ c.recovery_duration) c e
        (rw e at safe)
        (below_add c.until limit c.recovery_duration (le_lt c.until (clock 0) limit over (low 0))
          long)
  first_request tripped clock limit c e safe over low long =
      let due : ltb_ℤ (clock 0) c.until ≡ false = ground (arith, over) in
      let c' = set_recovering (clock 1) (clock 2) c in
      let begun : (c'.state ≡ recovering)
          × ((c'.until ≡ clock 1 +ℤ c.recovery_duration) × (c'.rc ≢ none)) =
        begins (clock 1) (clock 2) c in
      let soon = add_below (clock 1) limit c.recovery_duration (low 1) in
      let (d, answer, f, h) =
        recover-IsReturning (clock 3) (clock 4) (clock 5) (limit +ℤ c.recovery_duration) c' begun.0
          begun.1.1 (subst (λ (u : ℤ). u <ℤ limit +ℤ c.recovery_duration) (sym begun.1.0) soon) in
      (d, answer, rw due f, h)
    where
      begins :
          (now started : ℤ) (c : Breaker M)
          → let c' = set_recovering now started c in
            (c'.state ≡ recovering) × ((c'.until ≡ now +ℤ c.recovery_duration) × (c'.rc ≢ none))
      begins now started c = unfold set_recovering set_state in (refl, (refl, λ z. cc))

  -- A request after the end of the recovery.
  last_request :
      (clock : Clock) (limit : ℤ) (c : Breaker M)
      → IsReturning limit c
      → limit ≤ℤ clock 0
      → (c' : Breaker M) × (decide floats c.state clock c ≡ some (c', false)) × (c'.state ≡ standby)
  unfolding decide set_state
  last_request clock limit c h late = go c.state refl h
    where
      go :
          (q : State)
          → c.state ≡ q
          → IsReturning limit c
          → (c' : Breaker M) × (decide floats q clock c ≡ some (c', false)) × (c'.state ≡ standby)
      go standby e h = (c, refl, e)
      go tripped e (inl up) = absurd (cc)
      go tripped e (inr back) = let other = back.0 in absurd (cc)
      go recovering e (inl up) = absurd (cc)
      go recovering e (inr back) = (
        set_state standby (clock 1) c,
        recover_end (clock 0) (clock 1) (clock 2) limit c back.1.0 late,
        refl,
      )

  locked :
      (quick : State) (clock : Clock) (c : Breaker M)
      → quick ≢ standby
      → activate_fallback floats quick clock c ≡ decide floats c.state clock c
  unfolding activate_fallback
  locked standby clock c n = absurd (n refl)
  locked tripped clock c n = refl
  locked recovering clock c n = refl

  -- A breaker in any state whose time is over comes back to standby while the condition holds of no
  -- metrics: when a request was answered whose clock reads less than `limit`, then whatever goroutines do
  -- after it, a request that does not find standby and whose clock reads at least `limit` plus the recovery
  -- period, which is not negative, is let through and leaves the breaker in standby.
  pub Reach-standby :
      (healthy : (m : M) → condition m ≡ false) (quick quick' : State) (clock clock' : Clock)
      (limit : ℤ) (c : Breaker M) {end : ℤ} {d e : Breaker M} {answer : Bool}
      → quick ≢ standby
      → quick' ≢ standby
      → IsSafe floats condition reset c
      → c.until ≤ℤ clock 0
      → ((i : ℕ) → clock i <ℤ limit)
      → pos 0 ≤ℤ c.recovery_duration
      → activate_fallback floats quick clock c ≡ some (d, answer)
      → Reach floats condition reset end d e
      → limit +ℤ c.recovery_duration ≤ℤ clock' 0
      → (f : Breaker M) × (activate_fallback floats quick' clock' e ≡ some (f, false))
        × (f.state ≡ standby)
  Reach-standby healthy quick quick' clock clock' limit c {d = d} {e = e} n n' safe over low long eq
        r late =
      let (d', answer', made, h) = first_request c.state clock _ c refl safe over low long in
      let found = locked quick clock c n ∙ made in
      let same : d' ≡ d = cc in
      let back = Reach-IsReturning healthy _ (subst (IsReturning _) same h) r in
      let (f, done, up) = last_request clock' _ e back late in
      (f, locked quick' clock' e n' ∙ done, up)
