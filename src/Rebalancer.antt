-- ===== src/Rebalancer.antt =====
-- roundrobin/rebalancer.go: weights that grow while servers differ and converge while they do not, over
-- the pool of roundrobin/rr.go. A mutex makes each method one step; `none` is a panic. Times are numbers
-- of nanoseconds, and `clock i` is what the i-th call of `clock.Now()` reads within one call of a method.
pub mod Bounds
mod Tests
mod HomeTests
mod CodeMeters
pub mod Backoff
pub mod Twice
pub mod Adjust
pub mod Serve
pub mod Converge
pub mod Alike
pub mod Home
pub mod Restless
pub mod Mirror
pub mod Mirrored
pub mod Registered
use oxy.Base.{
  ℕ, Bool, true, false, not, ◌||◌, Option, none, some, if◌then◌else◌, List, [], ◌∷◌, ◌++◌, map,
  length, take, drop, replicate, suc, ltb, zero,
}
use oxy.Base.Int.{ℤ, pos, negsuc, ltb_ℤ, leb_ℤ, eqb_ℤ, quot, ◌+ℤ◌, ◌-ℤ◌}
use oxy.Base.Int64.{mul64, wrap64}
use oxy.RoundRobin.{
  Url, Pool, Error, ServerOption, weight, same_url, gcd, upsert_server, remove_server,
  server_weight,
}
use oxy.Anomaly.{Float64, split_float64, has_key}

-- `Meter`, with `Rating`, `Record` and `IsReady`. A method may change the meter, as `codeMeter.Rating` does
-- when it clears old buckets; a meter that reads the clock holds the readings to come in its state, as in
-- Rebalancer/CodeMeters.antt. The methods do not panic.
pub record Meters (M F : Type 0) : Type 0 where
  pub rating : M → M × F
  pub observe : ℤ → ℤ → M → M
  pub is_ready : M → Bool

-- `rbServer`
pub record RbServer (M : Type 0) : Type 0 where
  pub url : Url
  pub orig_weight : ℤ
  pub cur_weight : ℤ
  pub good : Bool
  pub meter : M

-- The fields of `Rebalancer` that its methods change. `next` is a round robin pool.
pub record Rebalancer (M F : Type 0) : Type 0 where
  pub backoff_duration : ℤ
  pub timer : ℤ
  pub servers : List (RbServer M)
  pub next : Pool
  pub ratings : List F

pub data RbError : Type 0 where
  balancer : Error → RbError
  not_found no_meter : RbError

-- `FSMMaxWeight`, and one second.
abbrev pub fsm_max_weight : ℤ
fsm_max_weight = pos 4096

abbrev pub second : ℤ
second = pos 1000000000

-- `increase`
unfoldable pub increase : ℤ → ℤ
increase w = mul64 w (pos 4)

-- `decrease`
unfoldable pub decrease : ℤ → ℤ → ℤ
decrease target current =
    let adjusted = quot current (pos 4) in if ltb_ℤ adjusted target then target else adjusted

module _ {M : Type 0} where
  -- `findServer`: the server and its index, if there is one.
  unfoldable pub find_own : ℕ → Url → List (RbServer M) → Option (RbServer M × ℕ)
  find_own i u [] = none
  find_own i u (s ∷ ss) = if same_url u s.url then some (s, i) else find_own (suc i) u ss

  -- `s.origWeight = weight` and `srv.meter.Record`, on the server that `findServer` finds.
  unfoldable pub change_first :
      Url → (RbServer M → RbServer M) → List (RbServer M) → List (RbServer M)
  change_first u f [] = []
  change_first u f (s ∷ ss) = if same_url u s.url then f s ∷ ss else s ∷ change_first u f ss

  -- `applyWeights`
  unfoldable pub apply_weights : ℤ → List (RbServer M) → Pool → Pool
  apply_weights default_weight [] next = next
  apply_weights default_weight (s ∷ ss) next =
      let (next', _) = upsert_server default_weight (some s.url) (weight s.cur_weight ∷ []) next in
      apply_weights default_weight ss next'

  -- The loop of `weightsGcd`; -1 stands for no divisor yet.
  unfoldable pub weights_gcd_from : ℤ → List (RbServer M) → ℤ
  weights_gcd_from divisor [] = divisor
  weights_gcd_from divisor (s ∷ ss) =
      weights_gcd_from (if eqb_ℤ divisor (negsuc 0) then s.cur_weight else gcd divisor s.cur_weight)
        ss

  -- `s.curWeight /= gcd`
  unfoldable pub divide_by : ℤ → RbServer M → RbServer M
  divide_by g s = record s { cur_weight = wrap64 (quot s.cur_weight g) }

  -- `s.curWeight = s.origWeight`
  unfoldable pub restore : RbServer M → RbServer M
  restore s = record s { cur_weight = s.orig_weight }

  -- `normalizeWeights`
  unfoldable pub normalize_weights : List (RbServer M) → List (RbServer M)
  normalize_weights ss =
      let g = weights_gcd_from (negsuc 0) ss in if leb_ℤ g (pos 1) then ss else map (divide_by g) ss

  -- A loop that changes the servers and notes whether one of them changed.
  unfoldable pub change_each :
      (RbServer M → RbServer M × Bool) → List (RbServer M) → List (RbServer M) × Bool
  change_each f [] = ([], false)
  change_each f (s ∷ ss) =
      let (s', one) = f s in let (ss', more) = change_each f ss in (s' ∷ ss', one || more)

  -- The body of the loop of `setMarkedWeights`.
  unfoldable pub grow : RbServer M → RbServer M × Bool
  grow s =
      let w = increase s.cur_weight in
      if not s.good
      then (s, false)
      else if leb_ℤ w fsm_max_weight
      then (record s { cur_weight = w }, true)
      else (s, false)

  -- The body of the loop of `convergeWeights`.
  unfoldable pub settle : RbServer M → RbServer M × Bool
  settle s =
      if eqb_ℤ s.orig_weight s.cur_weight
      then (s, false)
      else (record s { cur_weight = decrease s.orig_weight s.cur_weight }, true)

  module _ {F : Type 0} (default_weight : ℤ) where
    -- `setMarkedWeights` and `convergeWeights`, which differ in the body of their loop.
    unfoldable pub adjust_with :
        (RbServer M → RbServer M × Bool) → Rebalancer M F → Rebalancer M F × Bool
    adjust_with f rb =
        let (ss, changed) = change_each f rb.servers in
        let normal = normalize_weights ss in
        if changed
        then (
          record rb { servers = normal; next = apply_weights default_weight normal rb.next },
          true,
        )
        else (record rb { servers = ss }, false)

    -- `reset`; it keeps the number of ratings equal to the number of servers.
    unfoldable pub reset : F → ℤ → Rebalancer M F → Rebalancer M F
    reset zero_float now rb =
        let ss = map restore rb.servers in
        record rb {
          servers = ss;
          next = apply_weights default_weight ss rb.next;
          timer = now -ℤ second;
          ratings = replicate (length ss) zero_float;
        }

    -- `upsertServer`; `new_meter` is what `newMeter` returns, `none` for an error.
    unfoldable pub upsert_own :
        Option M → Url → ℤ → Rebalancer M F → Rebalancer M F × Option RbError
    upsert_own new_meter u w rb =
        let known = change_first u (λ s. record s { orig_weight = w }) rb.servers in
        elim new_meter [
          | none ↦ (record rb { servers = known }, some no_meter)
          | some m ↦ (
            record rb {
              servers =
                  known
                  ++ (record { url = u; orig_weight = w; cur_weight = w; good = false; meter = m }
                      ∷ []);
            },
            none,
          )
        ]

    -- `UpsertServer`; `none` is the nil URL, which the pool refuses.
    unfoldable pub upsert :
        F
        → Option M
        → ℤ
        → Option Url
        → List ServerOption
        → Rebalancer M F
        → Rebalancer M F × Option RbError
    upsert zero_float new_meter now none options rb =
        let (next', err) = upsert_server default_weight none options rb.next in
        (record rb { next = next' }, elim err [ some e ↦ some (balancer e) | none ↦ none ])
    upsert zero_float new_meter now (some u) options rb =
        let (next', err) = upsert_server default_weight (some u) options rb.next in
        elim err [
          | some e ↦ (record rb { next = next' }, some (balancer e))
          | none ↦
              let (w, _) = server_weight u next' in
              let (rb', err') = upsert_own new_meter u w (record rb { next = next' }) in
              elim err' [
                | some e ↦ (record rb' { next = (remove_server u rb'.next).0 }, some e)
                | none ↦ (reset zero_float now rb', none)
              ]
        ]

    -- `RemoveServer`
    unfoldable pub remove : F → ℤ → Url → Rebalancer M F → Rebalancer M F × Option RbError
    remove zero_float now u rb = elim (find_own 0 u rb.servers) [
      | none ↦ (rb, some not_found)
      | some (_, i) ↦
          let (next', err) = remove_server u rb.next in
          elim err [
            | some e ↦ (record rb { next = next' }, some (balancer e))
            | none ↦ (
              reset zero_float now (record rb {
                servers = take i rb.servers ++ drop (suc i) rb.servers;
                next = next';
              }),
              none,
            )
          ]
    ]

  module _ {F : Type 0} (floats : Float64 F) (meters : Meters M F) where
    open floats use {zero_float, one_and_half}
    open meters use {rating, observe, is_ready}

    -- `recordMetrics`
    unfoldable pub record_metrics : Url → ℤ → ℤ → Rebalancer M F → Rebalancer M F
    record_metrics u code latency rb = record rb {
      servers = change_first u (λ s. record s { meter = observe code latency s.meter }) rb.servers;
    }

    -- `metricsReady`
    unfoldable pub metrics_ready : List (RbServer M) → Bool
    metrics_ready [] = true
    metrics_ready (s ∷ ss) = if is_ready s.meter then metrics_ready ss else false

    -- The first loop of `markServers`: the servers with their meters after `Rating`, and the ratings.
    unfoldable pub write_ratings : List (RbServer M) → List F → Option (List (RbServer M) × List F)
    write_ratings [] rs = some ([], rs)
    write_ratings (s ∷ ss) [] = none
    write_ratings (s ∷ ss) (r ∷ rs) =
        let (meter, one) = rating s.meter in
        elim (write_ratings ss rs) [
          | none ↦ none
          | some (ss', rs') ↦ some (record s { meter = meter } ∷ ss', one ∷ rs')
        ]

    -- The second loop of `markServers`; there is a rating for each server by then.
    unfoldable pub mark_each : List F → List (RbServer M) → List F → List (RbServer M)
    mark_each g [] rs = []
    mark_each g (s ∷ ss) [] = s ∷ ss
    mark_each g (s ∷ ss) (r ∷ rs) = record s { good = has_key floats g r } ∷ mark_each g ss rs

    abbrev pub is_empty : List F → Bool
    is_empty [] = true
    is_empty (x ∷ xs) = false

    -- `markServers`
    unfoldable pub mark_servers : Rebalancer M F → Option (Rebalancer M F × Bool)
    mark_servers rb = elim (write_ratings rb.servers rb.ratings) [
      | none ↦ none
      | some (ss, rs) ↦ elim (split_float64 floats one_and_half zero_float rs) [
        | none ↦ none
        | some (g, b) ↦ some (
          record rb { servers = mark_each g ss rs; ratings = rs },
          not (is_empty g || is_empty b),
        )
      ]
    ]

    -- `adjustWeights`
    unfoldable pub adjust_weights : ℤ → (ℕ → ℤ) → Rebalancer M F → Option (Rebalancer M F)
    adjust_weights default_weight clock rb =
        if ltb (length rb.servers) 2
        then some rb
        else if not (metrics_ready rb.servers)
        then some rb
        else if not (ltb_ℤ rb.timer (clock 0))
        then some rb
        else elim (mark_servers rb) [
          | none ↦ none
          | some (rb', split) ↦
              let (rb'', changed) =
                adjust_with default_weight (if split then grow else settle) rb' in
              some
                (if changed then record rb'' { timer = clock 1 +ℤ rb''.backoff_duration } else rb'')
        ]
