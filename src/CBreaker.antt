-- ===== src/CBreaker.antt =====
-- cbreaker/cbreaker.go and cbreaker/ratio.go: the circuit breaker. Times are numbers of nanoseconds,
-- and each call of `clock.Now()` is an argument. A method holds the lock while it changes the state, so
-- it is one step; what it reads before it takes the lock is another.
pub mod Trip
pub mod Move
pub mod Safe
pub mod Period
pub mod Recover
pub mod Fallback
pub mod Serve
pub mod Predicates
pub mod Compare
pub mod Expressions
pub mod Operands
pub mod Typing
mod Tests
mod ServeTests
mod TypingTests
use oxy.Base.{ℕ, Bool, true, false, Option, none, some, if◌then◌else◌, List, [], ◌∷◌, ◌==◌, ◌||◌}
use oxy.Base.Int.{ℤ, pos, ltb_ℤ, eqb_ℤ, ◌+ℤ◌, ◌-ℤ◌}
use oxy.Base.Int64.{add64, clamp64}

-- `cbState`
pub data State : Type 0 where
  standby tripped recovering : State

-- float64, which the ratio controller computes with.
pub record Floats : Type 1 where
  pub Float : Type 0
  pub of_int : ℤ → Float
  pub half : Float
  pub zero_float : Float
  pub times : Float → Float → Float
  pub divide : Float → Float → Float
  pub less : Float → Float → Bool

-- `ratioController`
pub record RatioController : Type 0 where
  pub duration : ℤ
  pub start : ℤ
  pub allowed : ℤ
  pub denied : ℤ

-- `newRatioController`
unfoldable pub new_ratio_controller : ℤ → ℤ → RatioController
new_ratio_controller now ramp_up = record {
  duration = ramp_up;
  start = now;
  allowed = pos 0;
  denied = pos 0;
}

module _ (floats : Floats) where
  open floats use {Float, of_int, half, zero_float, times, divide, less}

  -- `computeRatio`
  unfoldable pub compute_ratio : ℤ → ℤ → Float
  compute_ratio allowed denied =
      let total = add64 denied allowed in
      if eqb_ℤ total (pos 0) then zero_float else divide (of_int allowed) (of_int total)

  -- `targetRatio`
  unfoldable pub target_ratio : ℤ → RatioController → Float
  target_ratio now r = times (divide half (of_int r.duration)) (of_int (clamp64 (now -ℤ r.start)))

  -- `allowRequest`
  unfoldable pub allow_request : ℤ → RatioController → RatioController × Bool
  allow_request now r =
      if less (compute_ratio (add64 r.allowed (pos 1)) r.denied) (target_ratio now r)
      then (record r { allowed = add64 r.allowed (pos 1) }, true)
      else (record r { denied = add64 r.denied (pos 1) }, false)

-- The side effect that `exec` starts in a goroutine of its own.
pub data Effect : Type 0 where
  on_tripped on_standby : Effect

-- The fields of `CircuitBreaker` that its methods read and change, the metrics of type `M`, and the side
-- effects that were started, the latest first. A side effect that is not set does nothing.
pub record Breaker (M : Type 0) : Type 0 where
  pub state : State
  pub until : ℤ
  pub rc : Option RatioController
  pub last_check : ℤ
  pub metrics : M
  pub fallback_duration : ℤ
  pub recovery_duration : ℤ
  pub check_period : ℤ
  pub effects : List Effect

-- What the clock reads, call by call, in one call of a method.
abbrev pub Clock : Type 0
Clock = ℕ → ℤ

abbrev pub is_tripped : State → Bool
is_tripped tripped = true
is_tripped standby = false
is_tripped recovering = false

module _ {M : Type 0} where
  -- `setState`
  unfoldable pub set_state : State → ℤ → Breaker M → Breaker M
  set_state tripped until c = record c {
    state = tripped;
    until = until;
    effects = on_tripped ∷ c.effects;
  }
  set_state standby until c = record c {
    state = standby;
    until = until;
    effects = on_standby ∷ c.effects;
  }
  set_state recovering until c = record c { state = recovering; until = until }

  -- `setRecovering`; the clock is read for the end of the recovery and for the controller.
  unfoldable pub set_recovering : ℤ → ℤ → Breaker M → Breaker M
  set_recovering now started c = record (set_state recovering (now +ℤ c.recovery_duration) c) {
    rc = some (new_ratio_controller started c.recovery_duration);
  }

  module _ (floats : Floats) where
    -- The case `stateRecovering` of `activateFallback`: `none` is a nil controller.
    unfoldable pub recover : ℤ → ℤ → ℤ → Breaker M → Option (Breaker M × Bool)
    recover now now' now'' c =
        if ltb_ℤ c.until now then some (set_state standby now' c, false) else elim c.rc [
          | none ↦ none
          | some rc ↦
              let (rc', go) = allow_request floats now'' rc in
              some (record c { rc = some rc' }, if go then false else true)
        ]

    -- `activateFallback` from the point where it holds the lock: whether the fallback answers.
    unfoldable pub decide : State → Clock → Breaker M → Option (Breaker M × Bool)
    decide standby clock c = some (c, false)
    decide tripped clock c =
        if ltb_ℤ (clock 0) c.until
        then some (c, true)
        else recover (clock 3) (clock 4) (clock 5) (set_recovering (clock 1) (clock 2) c)
    decide recovering clock c = recover (clock 0) (clock 1) (clock 2) c

    -- `activateFallback`; `quick` is the state that `isStandby` saw before the lock was taken.
    unfoldable pub activate_fallback : State → Clock → Breaker M → Option (Breaker M × Bool)
    activate_fallback standby clock c = some (c, false)
    activate_fallback tripped clock c = decide c.state clock c
    activate_fallback recovering clock c = decide c.state clock c

  -- The end of `checkAndSet`, below the test for the tripped state.
  unfoldable pub trip_if : (M → Bool) → (M → M) → ℤ → Breaker M → Breaker M
  trip_if condition reset now c =
      if condition c.metrics
      then (let c' = set_state tripped (now +ℤ c.fallback_duration) c in
          record c' { metrics = reset c.metrics })
      else c

  -- `checkAndSet` from the point where it holds the lock. `condition` and `reset` are the parsed
  -- expression and `metrics.Reset`.
  unfoldable pub check_locked : (M → Bool) → (M → M) → Clock → Breaker M → Breaker M
  check_locked condition reset clock c =
      if ltb_ℤ (clock 0) c.last_check
      then c
      else (let c' = record c { last_check = clock 1 +ℤ c.check_period } in
          if is_tripped c.state then c' else trip_if condition reset (clock 2) c')

  -- `timeToCheck`
  unfoldable pub time_to_check : ℤ → Breaker M → Bool
  time_to_check now c = ltb_ℤ c.last_check now

  -- `checkAndSet`; `due` is what `timeToCheck` answered before the lock was taken.
  unfoldable pub check_and_set : Bool → (M → Bool) → (M → M) → Clock → Breaker M → Breaker M
  check_and_set due condition reset clock c =
      if due then check_locked condition reset clock c else c

  -- `serve`, when the next handler has returned: `record_request` is `metrics.Record`.
  unfoldable pub record_request : (M → M) → Breaker M → Breaker M
  record_request add c = record c { metrics = add c.metrics }
