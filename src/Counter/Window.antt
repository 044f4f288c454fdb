-- ===== src/Counter/Window.antt =====
-- What `Count` of a rolling counter returns after `Inc`.
use native.Mathlib.Nat.{mod-lt}
use oxy.Base.{
  ℕ, zero, suc, ◌+◌, ◌-◌, ◌*◌, ◌/◌, ◌%◌, ◌^◌, ◌≤◌, ◌<◌, ◌≡◌, refl, arith, false, some, List, [],
  ◌∷◌, length, length-set, get_elem?, get_elem?-some, set, All, ap, ◌∙◌, inl, inr, Bool-cases,
}
use oxy.Base.Int.{ℤ, pos, negsuc, pos_part, neg_part, rem, ltb_ℤ, eqb_ℤ, ◌≤ℤ◌, ◌+ℤ◌, ◌-ℤ◌, ◌*ℤ◌}
use oxy.Base.Int64.{wrap64, add64, mul64}
use oxy.Counter.{
  RollingCounter, truncate, epoch, unix, get_bucket, index_of, change_bucket, clean_from, cleanup,
  sum_from, count, inc_bucket_value, inc,
}

abbrev pub IsNatural : ℤ → Type 0
IsNatural v = neg_part v ≡ 0

abbrev pub total : List ℤ → ℕ
total [] = 0
total (v ∷ vs) = pos_part v + total vs

add64_natural :
    (a : ℕ) (v : ℤ) → IsNatural v → a + pos_part v < 2 ^ 63 → add64 (pos a) v ≡ pos (a + pos_part v)
unfolding add64 wrap64 ◌+ℤ◌
add64_natural a (pos n) h low = ground arith
add64_natural a (negsuc n) h low = absurd (omega arith)

sum_from_lem :
    (out : ℕ) (vs : List ℤ)
    → All IsNatural vs
    → out + total vs < 2 ^ 63
    → sum_from (pos out) vs ≡ pos (out + total vs)
unfolding sum_from
sum_from_lem out [] h low = ap pos (omega arith)
sum_from_lem out (v ∷ vs) h low =
    let first = add64_natural out v h.0 (omega arith) in
    let rest = sum_from_lem (out + pos_part v) vs h.1 (omega arith) in
    rw first (rest ∙ ap pos (omega arith))

set_lem :
    (vs : List ℤ) (i : ℕ) (v w : ℤ)
    → All IsNatural vs
    → IsNatural w
    → get_elem? vs i ≡ some v
    → All IsNatural (set vs i w) × (total (set vs i w) + pos_part v ≡ total vs + pos_part w)
set_lem [] i v w h hw e = absurd (ground arith)
set_lem (x ∷ vs) zero v w h hw e = ((hw, h.1), ground arith)
set_lem (x ∷ vs) (suc i) v w h hw e =
    let (all, sum) = set_lem vs i v w h.1 hw e in ((h.0, all), omega (arith, sum))

get_elem?-IsNatural :
    (vs : List ℤ) (i : ℕ) (v : ℤ) → All IsNatural vs → get_elem? vs i ≡ some v → IsNatural v
get_elem?-IsNatural [] i v h e = absurd (ground arith)
get_elem?-IsNatural (x ∷ vs) zero v h e = ground arith
get_elem?-IsNatural (x ∷ vs) (suc i) v h e = get_elem?-IsNatural vs i v h.1 e

-- The period of a time began after the start of 1970.
abbrev pub IsModern : ℤ → ℤ → Type 0
IsModern resolution t = pos (epoch * 10 ^ 9) ≤ℤ truncate resolution t

unix_lem : (t : ℤ) → pos (epoch * 10 ^ 9) ≤ℤ t → (n : ℕ) × (unix t ≡ pos n)
unfolding unix ◌-ℤ◌
unix_lem (pos n) h = (n / 10 ^ 9 - epoch, ground arith)
unix_lem (negsuc n) h = absurd (omega arith)

bucket_lem :
    (t : ℤ) (c : RollingCounter)
    → 0 < length c.values
    → IsModern c.resolution t
    → (i : ℕ) × (get_bucket t c ≡ pos i) × (i < length c.values)
unfolding get_bucket rem
bucket_lem t c h modern =
    let (n, e) = unix_lem (truncate c.resolution t) modern in
    let same : length c.values + 0 ≡ length c.values = omega arith in
    (n % length c.values, rw (e, same) refl, mod-lt n h)

-- A bucket is there, and the change is a write to it.
change_bucket_lem :
    (t : ℤ) (f : ℤ → ℤ) (c : RollingCounter)
    → 0 < length c.values
    → IsModern c.resolution t
    → (i : ℕ) × (v : ℤ) × (get_elem? c.values i ≡ some v)
      × (change_bucket t f c ≡ some (record c { values = set c.values i (f v) }))
unfolding change_bucket index_of
change_bucket_lem t f c h modern =
    let (i, e, low) = bucket_lem t c h modern in
    let (v, ev) = get_elem?-some c.values i low in (i, v, ev, ground (arith, e, ev))

-- The time that the i-th turn of `cleanup` looks at.
abbrev pub check_point : ℤ → ℤ → ℕ → ℤ
check_point resolution now i = now +ℤ mul64 (mul64 (negsuc 0) (pos i)) resolution

-- What `cleanup` keeps of a counter.
pub record IsCleaned (c c' : RollingCounter) : Type 0 where
  pub resolution_same : c'.resolution ≡ c.resolution
  pub length_same : length c'.values ≡ length c.values
  pub natural : All IsNatural c'.values
  pub no_more : total c'.values ≤ total c.values

clean_from_lem :
    (now : ℤ) (k i : ℕ) (c : RollingCounter)
    → 0 < length c.values
    → All IsNatural c.values
    → ((j : ℕ) → j < i + k → IsModern c.resolution (check_point c.resolution now j))
    → (c' : RollingCounter) × (clean_from now k i c ≡ some c') × IsCleaned c c'
unfolding clean_from
clean_from_lem now zero i c full h modern = (
  c,
  refl,
  record { resolution_same = refl; length_same = refl; natural = h; no_more = omega arith },
)
clean_from_lem now (suc k) i c full h modern =
    elim (Bool-cases (
      ltb_ℤ (truncate c.resolution c.last_updated)
        (truncate c.resolution (check_point c.resolution now i)))) [
          | inr fresh ↦ (
            c,
            rw (clean_from, fresh) refl,
            record {
              resolution_same = refl;
              length_same = refl;
              natural = h;
              no_more = omega arith;
            },
          )
          | inl old ↦
              let (b, v, ev, e) =
                change_bucket_lem (check_point c.resolution now i) (λ w. pos 0) c full
                  (modern i (omega arith)) in
              let (all, sum) = set_lem c.values b v (pos 0) h refl ev in
              let len : length (set c.values b (pos 0)) ≡ length c.values =
                length-set c.values b (pos 0) in
              let (c', ec, p) =
                clean_from_lem now k (suc i) (record c { values = set c.values b (pos 0) })
                  (omega (arith, len)) all (λ j low. modern j (omega arith)) in
              (
                c',
                rw (clean_from, old, e) ec,
                record {
                  resolution_same = p.resolution_same;
                  length_same = p.length_same ∙ len;
                  natural = p.natural;
                  no_more = omega (arith, sum, p.no_more);
                },
              )
        ]

pub check_now : (resolution now : ℤ) → check_point resolution now 0 ≡ now
unfolding mul64 ◌*ℤ◌ wrap64 ◌+ℤ◌
check_now resolution now = ground arith

-- In the period in which it was last updated a counter is clean.
pub cleanup_same :
    (now : ℤ) (c : RollingCounter)
    → truncate c.resolution now ≡ truncate c.resolution c.last_updated
    → cleanup now c ≡ some c
unfolding cleanup clean_from
cleanup_same now c h =
    let stop : ltb_ℤ (truncate c.resolution c.last_updated)
          (truncate c.resolution (check_point c.resolution now 0))
        ≡ false =
      rw (check_now c.resolution now, h) (ground arith) in
    elim (length c.values) as (λ k. clean_from now k 0 c ≡ some c) [
      | zero ↦ refl
      | suc k ↦ rw (clean_from, stop) refl
    ]

-- The counter has buckets with natural numbers, and the window before `now` began after the start of 1970.
pub record IsCounting (now : ℤ) (c : RollingCounter) : Type 0 where
  pub buckets : 0 < length c.values
  pub natural : All IsNatural c.values
  pub modern :
      (j : ℕ) → j < length c.values → IsModern c.resolution (check_point c.resolution now j)

pub cleanup_lem :
    (now : ℤ) (c : RollingCounter)
    → IsCounting now c
    → (c' : RollingCounter) × (cleanup now c ≡ some c') × IsCleaned c c'
unfolding cleanup
cleanup_lem now c h =
    clean_from_lem now (length c.values) 0 c h.buckets h.natural
      (λ j early. h.modern j (omega arith))

pub count_lem :
    (now : ℤ) (c c' : RollingCounter)
    → cleanup now c ≡ some c'
    → All IsNatural c'.values
    → total c'.values < 2 ^ 63
    → count now c ≡ some (c', pos (total c'.values))
unfolding count
count_lem now c c' e natural low =
    let sum : sum_from (pos 0) c'.values ≡ pos (total c'.values) =
      sum_from_lem 0 c'.values natural (omega arith) ∙ ap pos (omega arith) in
    rw (count, e, sum) refl

pub inc_bucket_value_lem :
    (now : ℤ) (v : ℤ) (c : RollingCounter)
    → 0 < length c.values
    → IsModern c.resolution now
    → (i : ℕ) × (w : ℤ) × (c' : RollingCounter) × (get_elem? c.values i ≡ some w)
      × (inc_bucket_value now v c ≡ some c')
      × (c'.values ≡ set c.values i (add64 w v))
      × (c'.resolution ≡ c.resolution)
      × (c'.last_updated ≡ now)
unfolding inc_bucket_value
inc_bucket_value_lem now v c full modern =
    let (i, w, ew, e) = change_bucket_lem now (λ x. add64 x v) c full modern in
    let done : RollingCounter = record c {
      values = set c.values i (add64 w v);
      last_updated = now;
    } in
    let next : RollingCounter = record done {
      last_bucket = get_bucket now c;
      counted_buckets = add64 c.counted_buckets (pos 1);
    } in
    elim (Bool-cases (ltb_ℤ c.counted_buckets (pos (length c.values)))) [
      | inr enough ↦ (i, w, done, ew, rw (inc_bucket_value, e, enough) refl, refl, refl, refl)
      | inl more ↦ elim (Bool-cases (eqb_ℤ c.last_bucket (get_bucket now c))) [
        | inl same ↦ (i, w, done, ew, rw (inc_bucket_value, e, more, same) refl, refl, refl, refl)
        | inr moved ↦ (i, w, next, ew, rw (inc_bucket_value, e, more, moved) refl, refl, refl, refl)
      ]
    ]

-- A write of a sum to a bucket adds to the total.
pub set_added :
    (vs : List ℤ) (i v : ℕ) (w : ℤ)
    → All IsNatural vs
    → get_elem? vs i ≡ some w
    → total vs + v < 2 ^ 63
    → All IsNatural (set vs i (add64 w (pos v)))
      × (total (set vs i (add64 w (pos v))) ≡ total vs + v)
set_added vs i v w h e low =
    let natural : IsNatural w = get_elem?-IsNatural vs i w h e in
    let (_, rest) = set_lem vs i w (pos 0) h refl e in
    let same : w ≡ pos (pos_part w) = ground arith in
    let sum : add64 (pos (pos_part w)) (pos v) ≡ pos (pos_part w + v) =
      add64_natural (pos_part w) (pos v) refl (omega (arith, rest)) in
    let written : add64 w (pos v) ≡ pos (pos_part w + v) =
      ap (λ (x : ℤ). add64 x (pos v)) same ∙ sum in
    let (all, more) = set_lem vs i w (pos (pos_part w + v)) h refl e in
    rw written (all, omega (arith, more))

-- `Count` and `Inc` do not panic on a counter of natural numbers whose window began after the start of
-- 1970. If `Count` returns n at a time, then after `Inc(v)` at that time it returns n plus v, anywhere in
-- the period in which `Inc` read the clock for the second time, as long as the sum fits in an int64.
pub count-inc :
    (now now' now'' : ℤ) (v : ℕ) (c : RollingCounter)
    → IsCounting now c
    → IsModern c.resolution now'
    → truncate c.resolution now'' ≡ truncate c.resolution now'
    → total c.values + v < 2 ^ 63
    → (c' c'' : RollingCounter) × (n : ℕ) × (count now c ≡ some (c', pos n))
      × (inc now now' (pos v) c ≡ some c'')
      × (count now'' c'' ≡ some (c'', pos (n + v)))
unfolding inc
count-inc now now' now'' v c h modern same low =
    let (c', e, p) = cleanup_lem now c h in
    let full : 0 < length c'.values = omega (arith, p.length_same, h.buckets) in
    let (i, w, c'', ew, ei, values, res, last) =
      inc_bucket_value_lem now' (pos v) c' full (rw p.resolution_same modern) in
    let (natural, sum) = set_added c'.values i v w p.natural ew (omega (arith, p.no_more)) in
    let natural'' : All IsNatural c''.values = rw values natural in
    let sum'' : total c''.values ≡ total c'.values + v = rw values sum in
    let clean : cleanup now'' c'' ≡ some c'' =
      cleanup_same now'' c'' (rw (last, res, p.resolution_same) same) in
    (
      c',
      c'',
      total c'.values,
      count_lem now c c' e p.natural (omega (arith, p.no_more)),
      rw (inc, e) ei,
      rw (← sum'') (count_lem now'' c'' c'' clean natural'' (omega (arith, sum'', p.no_more))),
    )
