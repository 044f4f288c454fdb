-- ===== src/RateLimit/BucketSet/Atomic.antt =====
-- `Consume` of a bucket set takes from all the buckets or from none.
use oxy.Base.{
  ℕ, suc, ◌+◌, ◌*◌, ◌^◌, ◌<◌, ◌≡◌, refl, arith, ◌⊎◌, inl, inr, Option, none, some, Bool-cases, true,
  false, [], ◌∷◌,
}
use oxy.Base.Int.{ℤ, pos, ◌+ℤ◌}
use oxy.RateLimit.Bucket.{
  TokenBucket, Error, consume, rollback, update_available_tokens, undefined_delay,
}
use oxy.RateLimit.Refill.{Holds, refilled, after, update_available_tokens-after}
use oxy.RateLimit.Consume.{outcome, consume-outcome, rollback-outcome}
use oxy.RateLimit.Admission.{short_waits}
use oxy.RateLimit.BucketSet.{
  Buckets, TokenBucketSet, consume_each, rollback_all, consume_set, tally, is_refused,
}

-- A bucket that `consume` serves in exact arithmetic at the time `now`.
pub record IsExact (now : ℤ) (tb : TokenBucket) : Type 0 where
  pub tokens : ℕ
  pub burst : ℕ
  pub per_token : ℕ
  pub since : ℕ
  pub time : now ≡ tb.last_refresh +ℤ pos since
  pub holds : Holds tb tokens burst per_token
  pub small : burst + since + burst * per_token < 2 ^ 63

-- A relation between what the clock read for a bucket, the bucket and the bucket afterwards holds
-- for each bucket of a set.
abbrev pub Each : (ℤ → TokenBucket → TokenBucket → Type 0) → (ℕ → ℤ) → Buckets → Buckets → Type 0
Each R clock [] [] = Unit
Each R clock ((k, b) ∷ bs) ((k', b') ∷ bs') =
    (k ≡ k') × R (clock 0) b b' × Each R (λ i. clock (suc i)) bs bs'
Each R clock _ _ = ⊥

abbrev pub AllExact : (ℕ → ℤ) → Buckets → Type 0
AllExact clock [] = Unit
AllExact clock ((k, b) ∷ bs) = IsExact (clock 0) b × AllExact (λ i. clock (suc i)) bs

-- The bucket gained what the passed time gives, and `t` tokens are spent.
abbrev pub Spent : ℕ → ℤ → TokenBucket → TokenBucket → Type 0
Spent t now b b' =
    (b'.available_tokens +ℤ pos t ≡ (update_available_tokens now b).available_tokens)
    × (b'.last_consumed ≡ pos t)

-- The bucket gained what the passed time gives, and nothing is spent.
abbrev pub Untouched : ℤ → TokenBucket → TokenBucket → Type 0
Untouched now b b' =
    (b'.available_tokens ≡ (update_available_tokens now b).available_tokens)
    × (b'.last_consumed ≡ pos 0)

outcome-Spent :
    (d t a b p : ℕ) (tb : TokenBucket)
    → is_refused (outcome d t a b p tb).1 (outcome d t a b p tb).2 ≡ false
    → 0 < p
    → ((outcome d t a b p tb).0.available_tokens +ℤ pos t ≡ (after d a b p tb).available_tokens)
      × ((outcome d t a b p tb).0.last_consumed ≡ pos t)
unfolding outcome after ◌+ℤ◌
outcome-Spent d t a b p tb h hp = ground (arith, short_waits t (refilled a b p d) p)

module _ (t : ℕ) (now : ℤ) (b : TokenBucket) (x : IsExact now b) where
  open x use {tokens, burst, per_token, since, time, holds, small}

  fits : tokens + since < 2 ^ 63
  fits = omega (arith, holds.capped)

  consume_exact : consume now (pos t) b ≡ outcome since t tokens burst per_token b
  consume_exact =
      rw time
        (consume-outcome since t tokens burst per_token b holds fits (omega arith) (omega arith))

  refresh_exact : update_available_tokens now b ≡ after since tokens burst per_token b
  refresh_exact = rw time (update_available_tokens-after since tokens burst per_token b holds fits)

  -- Rolled back, whatever `consume` did.
  rollback-Untouched : Untouched now b (rollback (consume now (pos t) b).0)
  unfolding after
  rollback-Untouched =
      rw
        (
          consume_exact,
          refresh_exact,
          rollback-outcome since t tokens burst per_token b holds (omega arith),
        )
        (refl, refl)

  consume-Spent :
      is_refused (consume now (pos t) b).1 (consume now (pos t) b).2 ≡ false
      → Spent t now b (consume now (pos t) b).0
  unfolding outcome after
  consume-Spent h =
      rw (consume_exact, refresh_exact)
        (outcome-Spent since t tokens burst per_token b (rw consume_exact at h) holds.refills)

tally_refused :
    (md : ℤ) (fe : Option Error) (d : ℤ) (e : Option Error)
    → is_refused (tally md fe d e).0 (tally md fe d e).1 ≡ false
    → (is_refused md fe ≡ false) × (is_refused d e ≡ false)
unfolding tally
tally_refused md (some x) d e h = cc
tally_refused md none d (some x) h = cc
tally_refused md none d none h = ground arith

refused_before :
    (clock : ℕ → ℤ) (t : ℤ) (bs : Buckets) (md : ℤ) (fe : Option Error)
    → let r = consume_each clock t bs md fe in is_refused r.1 r.2 ≡ false → is_refused md fe ≡ false
unfolding consume_each
refused_before clock t [] md fe h = h
refused_before clock t ((k, b) ∷ bs) md fe h =
    let (b', d, e) = consume (clock 0) t b in
    let (md', fe') = tally md fe d e in
    (tally_refused md fe d e (refused_before (λ i. clock (suc i)) t bs md' fe' h)).0

consume_each-Spent :
    (clock : ℕ → ℤ) (t : ℕ) (bs : Buckets) (md : ℤ) (fe : Option Error)
    → AllExact clock bs
    → let r = consume_each clock (pos t) bs md fe in
      is_refused r.1 r.2 ≡ false → Each (Spent t) clock bs r.0
unfolding consume_each
consume_each-Spent clock t [] md fe x h = tt
consume_each-Spent clock t ((k, b) ∷ bs) md fe x h =
    let (b', d, e) = consume (clock 0) (pos t) b in
    let (md', fe') = tally md fe d e in
    let next : ℕ → ℤ = λ i. clock (suc i) in
    let ok = (tally_refused md fe d e (refused_before next (pos t) bs md' fe' h)).1 in
    (refl, consume-Spent t (clock 0) b x.0 ok, consume_each-Spent next t bs md' fe' x.1 h)

rollback_all-Untouched :
    (clock : ℕ → ℤ) (t : ℕ) (bs : Buckets) (md : ℤ) (fe : Option Error)
    → AllExact clock bs
    → Each Untouched clock bs (rollback_all (consume_each clock (pos t) bs md fe).0)
unfolding consume_each rollback_all
rollback_all-Untouched clock t [] md fe x = tt
rollback_all-Untouched clock t ((k, b) ∷ bs) md fe x =
    let (b', d, e) = consume (clock 0) (pos t) b in
    let (md', fe') = tally md fe d e in
    (
      refl,
      rollback-Untouched t (clock 0) b x.0,
      rollback_all-Untouched (λ i. clock (suc i)) t bs md' fe' x.1,
    )

-- Consuming `t` tokens from a set of buckets is all or nothing. With no error and no delay, every
-- bucket has what the passed time gives less `t`; with an error or a delay, every bucket has just
-- what the passed time gives. The buckets are served in exact arithmetic.
pub consume_set_atomic :
    (clock : ℕ → ℤ) (t : ℕ) (s : TokenBucketSet)
    → AllExact clock s.buckets
    → let (s', delay, err) = consume_set clock (pos t) s in
      ((is_refused delay err ≡ false) × Each (Spent t) clock s.buckets s'.buckets)
      ⊎ ((is_refused delay err ≡ true) × Each Untouched clock s.buckets s'.buckets)
unfolding consume_set
consume_set_atomic clock t s x =
    let r = consume_each clock (pos t) s.buckets undefined_delay none in
    elim (Bool-cases (is_refused r.1 r.2)) [
      | inr go ↦ inl (go, rw go (consume_each-Spent clock t s.buckets undefined_delay none x go))
      | inl stop ↦
          inr (stop, rw stop (rollback_all-Untouched clock t s.buckets undefined_delay none x))
    ]
