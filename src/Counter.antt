-- ===== src/Counter.antt =====
-- memmetrics/counter.go: a counter over a rolling window. A time is a number of nanoseconds from the zero
-- time.Time, in the year 1, and each call of `clock.Now()` is an argument; `none` is a panic.
pub mod Window
pub mod Shows
pub mod Again
mod Tests
use oxy.Base.{
  ℕ, zero, suc, ◌+◌, ◌-◌, ◌*◌, ◌/◌, ◌%◌, ◌^◌, Bool, true, false, Option, none, some, if◌then◌else◌,
  not, List, [], ◌∷◌, ◌==◌, length, get_elem?, set, replicate, ltb, ◌>>=◌,
}
use oxy.Base.Int.{ℤ, pos, negsuc, pos_part, sub_ℕ, rem, ltb_ℤ, leb_ℤ, eqb_ℤ, ◌+ℤ◌, ◌-ℤ◌}
use oxy.Base.Int64.{add64, mul64}

-- `RollingCounter`
pub record RollingCounter : Type 0 where
  pub resolution : ℤ
  pub values : List ℤ
  pub counted_buckets : ℤ
  pub last_bucket : ℤ
  pub last_updated : ℤ

abbrev pub second : ℤ
second = pos 1000000000

pub data CounterError : Type 0 where
  bad_buckets bad_resolution : CounterError

-- `NewCounter`, with no options: a counter or an error.
unfoldable pub new_counter : ℤ → ℤ → Option RollingCounter × Option CounterError
new_counter buckets resolution =
    if leb_ℤ buckets (pos 0)
    then (none, some bad_buckets)
    else if ltb_ℤ resolution second
    then (none, some bad_resolution)
    else (
      some (record {
        resolution = resolution;
        values = replicate (pos_part buckets) (pos 0);
        counted_buckets = pos 0;
        last_bucket = negsuc 0;
        last_updated = pos 0;
      }),
      none,
    )

-- `t.Truncate(d)`
unfoldable pub truncate : ℤ → ℤ → ℤ
truncate d (pos n) = if leb_ℤ d (pos 0) then pos n else pos (n - n % pos_part d)
truncate d (negsuc n) =
    let r = suc n % pos_part d in
    if leb_ℤ d (pos 0)
    then negsuc n
    else sub_ℕ 0 (if r == 0 then suc n else suc n + (pos_part d - r))

-- The seconds from the zero time to the Unix epoch.
abbrev pub epoch : ℕ
epoch = 62135596800

-- `t.Unix()`
unfoldable pub unix : ℤ → ℤ
unix (pos n) = pos (n / 10 ^ 9) -ℤ pos epoch
unix (negsuc n) = negsuc (n / 10 ^ 9) -ℤ pos epoch

-- `getBucket`
unfoldable pub get_bucket : ℤ → RollingCounter → ℤ
get_bucket t c = rem (unix (truncate c.resolution t)) (pos (length c.values))

-- An index into a slice of a length.
unfoldable pub index_of : ℤ → ℕ → Option ℕ
index_of (pos i) n = if ltb i n then some i else none
index_of (negsuc i) n = none

-- `c.values[c.getBucket(t)] = f(c.values[c.getBucket(t)])`
unfoldable pub change_bucket : ℤ → (ℤ → ℤ) → RollingCounter → Option RollingCounter
change_bucket t f c = elim (index_of (get_bucket t c) (length c.values)) [
  | none ↦ none
  | some i ↦ elim (get_elem? c.values i) [
    | none ↦ none
    | some v ↦ some (record c { values = set c.values i (f v) })
  ]
]

-- The loop of `cleanup` from its i-th turn, with the turns that are left.
unfoldable pub clean_from : ℤ → ℕ → ℕ → RollingCounter → Option RollingCounter
clean_from now zero i c = some c
clean_from now (suc k) i c =
    let check_point = now +ℤ mul64 (mul64 (negsuc 0) (pos i)) c.resolution in
    elim (ltb_ℤ (truncate c.resolution c.last_updated) (truncate c.resolution check_point)) [
      | true ↦ elim (change_bucket check_point (λ v. pos 0) c) [
        | none ↦ none
        | some c' ↦ clean_from now k (suc i) c'
      ]
      | false ↦ some c
    ]

-- `cleanup`
unfoldable pub cleanup : ℤ → RollingCounter → Option RollingCounter
cleanup now c = clean_from now (length c.values) 0 c

-- `sum`
unfoldable pub sum_from : ℤ → List ℤ → ℤ
sum_from out [] = out
sum_from out (v ∷ vs) = sum_from (add64 out v) vs

-- `Count`
unfoldable pub count : ℤ → RollingCounter → Option (RollingCounter × ℤ)
count now c = elim (cleanup now c) [ none ↦ none | some c' ↦ some (c', sum_from (pos 0) c'.values) ]

-- `incBucketValue`
unfoldable pub inc_bucket_value : ℤ → ℤ → RollingCounter → Option RollingCounter
inc_bucket_value now v c = elim (change_bucket now (λ w. add64 w v) c) [
  | none ↦ none
  | some c' ↦
      let bucket = get_bucket now c in
      let updated = record c' { last_updated = now } in
      some (
        if ltb_ℤ c.counted_buckets (pos (length c.values))
        then (if eqb_ℤ c.last_bucket bucket then updated else record updated {
          last_bucket = bucket;
          counted_buckets = add64 c.counted_buckets (pos 1);
        })
        else updated)
]

-- `Inc`, which reads the clock twice.
unfoldable pub inc : ℤ → ℤ → ℤ → RollingCounter → Option RollingCounter
inc now now' v c = elim (cleanup now c) [ none ↦ none | some c' ↦ inc_bucket_value now' v c' ]

-- `Append`: `count o` is read first, at `now`.
unfoldable pub append :
    ℤ → ℤ → ℤ → RollingCounter → RollingCounter → Option (RollingCounter × RollingCounter)
append now now' now'' c o = elim (count now o) [
  | none ↦ none
  | some (o', n) ↦ elim (inc now' now'' n c) [ none ↦ none | some c' ↦ some (c', o') ]
]

-- `Clone`: the counter and its copy.
unfoldable pub clone : ℤ → RollingCounter → Option (RollingCounter × RollingCounter)
clone now c = elim (cleanup now c) [
  | none ↦ none
  | some c' ↦ some (c', record c' { counted_buckets = pos 0 })
]

-- `Reset`
unfoldable pub reset_counter : RollingCounter → RollingCounter
reset_counter c = record c {
  last_bucket = negsuc 0;
  counted_buckets = pos 0;
  last_updated = pos 0;
  values = replicate (length c.values) (pos 0);
}
