-- ===== src/RateLimit/BucketSet/Rates.antt =====
-- A rate set holds checked rates, and after `Update` a bucket set matches it.
use oxy.Base.{
  ℕ, suc, ◌≡◌, ◌≢◌, refl, arith, if◌then◌else◌, ◌⊎◌, inl, inr, Option, none, some, Bool-cases,
  Option-cases, [], ◌∷◌, sym, ◌∙◌,
}
use oxy.Base.Int.{ℤ, pos, ◌≤ℤ◌, ◌<ℤ◌, quot, ltb_ℤ, eqb_ℤ, leb_ℤ, eqb_ℤ_iff}
use oxy.Base.Int64.{wrap64}
use oxy.Base.Assoc.{
  int_eq, lookup, insert, erase, IsMap, lookup-insert, lookup-erase, insert-IsMap, beq_refl,
}
use oxy.RateLimit.Bucket.{Rate, TokenBucket, update, div64, new_token_bucket}
use oxy.RateLimit.BucketSet.{
  RateSet, add, Buckets, TokenBucketSet, update_buckets, add_missing, update_set, longest,
}

-- A rate that `Add` accepts, under its key.
pub record IsRate (k : ℤ) (r : Rate) : Type 0 where
  pub key : r.period ≡ k
  pub period : pos 0 <ℤ r.period
  pub average : pos 0 <ℤ r.average
  pub burst : pos 0 <ℤ r.burst

abbrev pub AllRates : RateSet → Type 0
AllRates [] = Unit
AllRates ((k, r) ∷ rs) = IsRate k r × AllRates rs

abbrev pub IsRateSet : RateSet → Type 0
IsRateSet rs = IsMap rs × AllRates rs

insert-AllRates :
    (k : ℤ) (r : Rate) (rs : RateSet) → IsRate k r → AllRates rs → AllRates (insert k r rs)
insert-AllRates k r [] x h = (x, tt)
insert-AllRates k r ((j, q) ∷ rs) x h = elim (Bool-cases (eqb_ℤ k j)) [
  | inl same ↦ rw same (x, h.1)
  | inr other ↦ rw other (h.0, insert-AllRates k r rs x h.1)
]

pub lookup-IsRate :
    (k : ℤ) (rs : RateSet) {r : Rate} → AllRates rs → lookup k rs ≡ some r → IsRate k r
lookup-IsRate k [] h e = cc
lookup-IsRate k ((j, q) ∷ rs) {r} h e = elim (Bool-cases (eqb_ℤ k j)) [
  | inl same ↦
      let at : k ≡ j = (eqb_ℤ_iff k j).0 same in let is : q ≡ r = ground arith in rw (at, ← is) h.0
  | inr other ↦ lookup-IsRate k rs h.1 (rw other at e)
]

-- `Add` keeps a rate set well formed. Either the three numbers are positive, there is no error, the
-- period is found with that average and burst, and every other period as before; or one of the three
-- is not positive, there is an error, and the set is unchanged.
pub add_lem :
    (period average burst : ℤ) (rs : RateSet)
    → IsRateSet rs
    → let (rs', err) = add period average burst rs in
      IsRateSet rs'
      × (((pos 0 <ℤ period)
            × (pos 0 <ℤ average)
            × (pos 0 <ℤ burst)
            × (err ≡ none)
            × ((q : ℤ)
                → lookup q rs' ≡ (
                    if eqb_ℤ q period
                    then some (record { period = period; average = average; burst = burst })
                    else lookup q rs)))
          ⊎ (((period ≤ℤ pos 0) ⊎ ((average ≤ℤ pos 0) ⊎ (burst ≤ℤ pos 0)))
              × (err ≢ none)
              × (rs' ≡ rs)))
unfolding add
add_lem period average burst rs h = elim (Bool-cases (leb_ℤ period (pos 0))) [
  | inl bad ↦ rw bad (h, inr (inl (ground arith), λ e. cc, refl))
  | inr good_period ↦ elim (Bool-cases (leb_ℤ average (pos 0))) [
    | inl bad ↦ rw (good_period, bad) (h, inr (inr (inl (ground arith)), λ e. cc, refl))
    | inr good_average ↦ elim (Bool-cases (leb_ℤ burst (pos 0))) [
      | inl bad ↦
          rw (good_period, good_average, bad) (h, inr (inr (inr (ground arith)), λ e. cc, refl))
      | inr good_burst ↦
          let r : Rate = record { period = period; average = average; burst = burst } in
          let x : IsRate period r = record {
            key = refl;
            period = ground arith;
            average = ground arith;
            burst = ground arith;
          } in
          rw (good_period, good_average, good_burst)
            (
              (insert-IsMap period r rs h.0, insert-AllRates period r rs x h.1),
              inl (x.period, x.average, x.burst, refl, λ q. lookup-insert period q r rs),
            )
    ]
  ]
]

-- `b` as `update` leaves it.
abbrev pub fit : Rate → TokenBucket → TokenBucket
fit r b = record b {
  time_per_token = wrap64 (quot b.period r.average);
  burst = r.burst;
  available_tokens = if ltb_ℤ r.burst b.available_tokens then r.burst else b.available_tokens;
}

update-fit :
    (r : Rate) (b : TokenBucket)
    → r.period ≡ b.period
    → pos 0 <ℤ r.average
    → update r b ≡ some (fit r b, none)
unfolding update div64
update-fit r b e h = ground (arith, eqb_ℤ_iff r.period b.period)

-- The key of each bucket is its period.
abbrev pub AllKeyed : Buckets → Type 0
AllKeyed [] = Unit
AllKeyed ((k, b) ∷ bs) = (b.period ≡ k) × AllKeyed bs

abbrev fitted : RateSet → ℤ → Option TokenBucket → Option TokenBucket → Option TokenBucket
fitted rates q none other = other
fitted rates q (some b) other = elim (lookup q rates) [ none ↦ none | some r ↦ some (fit r b) ]

update_buckets_lem :
    (rates : RateSet) (bs m : Buckets)
    → AllRates rates
    → AllKeyed bs
    → IsMap bs
    → ((q : ℤ) (b : TokenBucket) → lookup q bs ≡ some b → lookup q m ≡ some b)
    → (m' : Buckets) × (update_buckets rates bs m ≡ some m')
      × ((q : ℤ) → lookup q m' ≡ fitted rates q (lookup q bs) (lookup q m))
unfolding update_buckets
update_buckets_lem rates [] m hr hk hm sub = (m, refl, λ q. refl)
update_buckets_lem rates ((k, b) ∷ bs) m hr hk hm sub =
    let here : lookup k m ≡ some b = sub k b (rw (beq_refl k)) in
    elim (Option-cases (lookup b.period rates)) [
      | inl gone ↦
          let (m', e, look) =
            update_buckets_lem rates bs (erase b.period m) hr hk.1 hm.1 (λ q b' found.
              ground (arith, eqb_ℤ_iff q k, hm.0, hk.0, sub q b', lookup-erase b.period q m)) in
          (
            m',
            ground (arith, here, e, gone),
            λ q. ground (arith, eqb_ℤ_iff q k, hm.0, hk.0, look q, gone, lookup-erase b.period q m),
          )
      | inr (r, found) ↦
          let x = lookup-IsRate b.period rates hr found in
          let u = update-fit r b x.key x.average in
          let (m', e, look) =
            update_buckets_lem rates bs (insert k (fit r b) m) hr hk.1 hm.1 (λ q b' found'.
              ground (arith, eqb_ℤ_iff q k, hm.0, sub q b', lookup-insert k q (fit r b) m)) in
          (
            m',
            ground (arith, here, e, found, u),
            λ q.
                ground
                  (arith, eqb_ℤ_iff q k, hm.0, hk.0, look q, found, lookup-insert k q (fit r b) m),
          )
    ]

-- The bucket that a rate gets when it has none, made at some reading of the clock.
abbrev pub IsNew : Rate → TokenBucket → Type 0
IsNew r b = (now : ℤ) × (new_token_bucket now r ≡ some b)

div64-some : (a b : ℤ) → pos 0 <ℤ b → div64 a b ≡ some (wrap64 (quot a b))
unfolding div64
div64-some a b h = ground arith

pub new_token_bucket-some :
    (now : ℤ) (r : Rate)
    → pos 0 <ℤ r.average
    → (b : TokenBucket) × (new_token_bucket now r ≡ some b)
unfolding new_token_bucket
new_token_bucket-some now r h =
    let e = div64-some (if eqb_ℤ r.period (pos 0) then pos 1 else r.period) r.average h in
    (
      record {
        period = if eqb_ℤ r.period (pos 0) then pos 1 else r.period;
        time_per_token =
            wrap64 (quot (if eqb_ℤ r.period (pos 0) then pos 1 else r.period) r.average);
        burst = r.burst;
        available_tokens = r.burst;
        last_refresh = now;
        last_consumed = pos 0;
      },
      rw (e, new_token_bucket),
    )

-- What `add_missing` makes of a map.
record Filled (rs : RateSet) (m m' : Buckets) : Type 0 where
  keeps : (q : ℤ) (b : TokenBucket) → lookup q m ≡ some b → lookup q m' ≡ some b
  absent : (q : ℤ) → lookup q m ≡ none → lookup q rs ≡ none → lookup q m' ≡ none
  fresh :
      (q : ℤ) (r : Rate)
      → lookup q m ≡ none
      → lookup q rs ≡ some r
      → (b : TokenBucket) × (lookup q m' ≡ some b) × IsNew r b

add_missing_lem :
    (clock : ℕ → ℤ) (rs : RateSet) (m : Buckets)
    → IsRateSet rs
    → (m' : Buckets) × (add_missing clock rs m ≡ some m') × Filled rs m m'
unfolding add_missing
add_missing_lem clock [] m h =
    (m, refl, record { keeps = λ q b e. e; absent = λ q e _. e; fresh = λ q r e f. cc })
add_missing_lem clock ((k, r) ∷ rs) m ((apart, distinct), (x, xs)) =
    elim (Option-cases (lookup r.period m)) [
      | inr (b, found) ↦
          let (m', e, f) = add_missing_lem clock rs m (distinct, xs) in
          (
            m',
            ground (arith, found, e),
            record {
              keeps = f.keeps;
              absent = λ q none_m none_rs. f.absent q none_m (ground arith);
              fresh =
                  λ q r' none_m some_rs. f.fresh q r' none_m (ground (arith, eqb_ℤ_iff q k, x.key));
            },
          )
      | inl missing ↦
          let (b, made) = new_token_bucket-some (clock 0) r x.average in
          let (m', e, f) =
            add_missing_lem (λ i. clock (suc i)) rs (insert r.period b m) (distinct, xs) in
          (
            m',
            ground (arith, missing, made, e),
            record {
              keeps = λ q b' old.
                  f.keeps q b' (ground (arith, eqb_ℤ_iff q r.period, lookup-insert r.period q b m));
              absent = λ q none_m none_rs.
                  f.absent q (ground (arith, x.key, eqb_ℤ_iff q k, lookup-insert r.period q b m))
                    (ground arith);
              fresh = λ q r' none_m some_rs. elim (Bool-cases (eqb_ℤ q k)) [
                | inl same ↦
                    let is : r ≡ r' = ground arith in
                    let key : q ≡ r.period = (eqb_ℤ_iff q k).0 same ∙ sym x.key in
                    (
                      b,
                      f.keeps q b (lookup-insert r.period q b m ∙ rw (key, beq_refl r.period)),
                      (clock 0, rw (← is) made),
                    )
                | inr other ↦
                    f.fresh q r' (ground (arith, x.key, lookup-insert r.period q b m))
                      (ground arith)
              ];
            },
          )
    ]

-- How the buckets after `Update` match the rates at the period `q`: no rate, no bucket; a bucket that
-- was there is fitted to its rate; a rate that had no bucket gets a new one.
abbrev pub MatchesAt : Buckets → ℤ → Option Rate → Option TokenBucket → Type 0
MatchesAt all q none bucket = lookup q all ≡ none
MatchesAt all q (some r) (some b) = lookup q all ≡ some (fit r b)
MatchesAt all q (some r) none = (b : TokenBucket) × (lookup q all ≡ some b) × IsNew r b

abbrev pub Matches : RateSet → Buckets → Buckets → ℤ → Type 0
Matches rates old all q = MatchesAt all q (lookup q rates) (lookup q old)

module _ (rates : RateSet) (old kept all : Buckets) (f : Filled rates kept all) where
  match_period :
      (q : ℤ)
      → lookup q kept ≡ fitted rates q (lookup q old) (lookup q old)
      → Matches rates old all q
  match_period q look = go (lookup q rates) (lookup q old) refl refl
    where
      go :
          (rate : Option Rate) (bucket : Option TokenBucket)
          → lookup q rates ≡ rate
          → lookup q old ≡ bucket
          → MatchesAt all q rate bucket
      go none none e there = f.absent q (look ∙ ground arith) e
      go none (some b) e there = f.absent q (look ∙ ground arith) e
      go (some r) none e there = f.fresh q r (look ∙ ground arith) e
      go (some r) (some b) e there = f.keeps q (fit r b) (look ∙ ground arith)

-- After `Update` with a well-formed rate set a bucket set has a bucket for exactly the periods of the
-- rates, and the call does not panic: a period without a rate has no bucket, a bucket that was there
-- keeps its tokens up to the new burst and takes the burst and the speed of the rate, and a rate that
-- had no bucket gets a new one. The longest period is that of these buckets.
pub update_set_lem :
    (clock : ℕ → ℤ) (rates : RateSet) (s : TokenBucketSet)
    → IsRateSet rates
    → IsMap s.buckets
    → AllKeyed s.buckets
    → (s' : TokenBucketSet) × (update_set clock rates s ≡ some s')
      × (s'.max_period ≡ longest (pos 0) s'.buckets)
      × ((q : ℤ) → Matches rates s.buckets s'.buckets q)
unfolding update_set
update_set_lem clock rates s hr hm hk =
    let (kept, e, look) =
      update_buckets_lem rates s.buckets s.buckets hr.1 hk hm (λ q b found. found) in
    let (all, e', f) = add_missing_lem clock rates kept hr in
    (
      record { buckets = all; max_period = longest (pos 0) all },
      rw (e, e'),
      refl,
      λ q. match_period rates s.buckets kept all f q (look q),
    )
