-- ===== src/RateLimit/BucketSet/Shape.antt =====
-- The keys of a bucket set are its buckets' periods, through every operation; none of them panics.
use oxy.Base.{
  ℕ, suc, ◌≡◌, refl, arith, Option, none, some, Bool-cases, subst, ◌∙◌, Option-cases, inl, inr, [],
  ◌∷◌,
}
use oxy.Base.Int.{ℤ, pos, ◌<ℤ◌, max_ℤ, eqb_ℤ}
use oxy.Base.Assoc.{int_eq, lookup, insert, erase, has, IsMap, insert-IsMap, erase-IsMap}
use oxy.RateLimit.Bucket.{
  Rate, TokenBucket, Error, update, div64, new_token_bucket, undefined_delay, consume, take_tokens,
  update_available_tokens, refill, rollback,
}
use oxy.RateLimit.BucketSet.{
  RateSet, Buckets, TokenBucketSet, add_buckets, new_token_bucket_set, update_buckets, add_missing,
  update_set, consume_each, rollback_all, consume_set, is_refused,
}
use oxy.RateLimit.BucketSet.Rates.{
  IsRateSet, AllKeyed, AllRates, update_set_lem, new_token_bucket-some,
}

abbrev pub IsShaped : Buckets → Type 0
IsShaped bs = IsMap bs × AllKeyed bs

insert-AllKeyed :
    (k : ℤ) (b : TokenBucket) (bs : Buckets) → b.period ≡ k → AllKeyed bs → AllKeyed (insert k b bs)
insert-AllKeyed k b [] e h = (e, tt)
insert-AllKeyed k b ((j, c) ∷ bs) e h = ground (arith, insert-AllKeyed k b bs e h.1)

erase-AllKeyed : (k : ℤ) (bs : Buckets) → AllKeyed bs → AllKeyed (erase k bs)
erase-AllKeyed k [] h = tt
erase-AllKeyed k ((j, c) ∷ bs) h = ground (arith, erase-AllKeyed k bs h.1)

insert-IsShaped :
    (k : ℤ) (b : TokenBucket) (bs : Buckets) → b.period ≡ k → IsShaped bs → IsShaped (insert k b bs)
insert-IsShaped k b bs e h = (insert-IsMap k b bs h.0, insert-AllKeyed k b bs e h.1)

erase-IsShaped : (k : ℤ) (bs : Buckets) → IsShaped bs → IsShaped (erase k bs)
erase-IsShaped k bs h = (erase-IsMap k bs h.0, erase-AllKeyed k bs h.1)

period-update :
    (r : Rate) (b : TokenBucket) {b' : TokenBucket} {e : Option Error}
    → update r b ≡ some (b', e)
    → b'.period ≡ b.period
unfolding update div64
period-update r b h = ground arith

period-new_token_bucket :
    (now : ℤ) (r : Rate) {b : TokenBucket}
    → pos 0 <ℤ r.period
    → new_token_bucket now r ≡ some b
    → b.period ≡ r.period
unfolding new_token_bucket div64
period-new_token_bucket now r h e = ground arith

update_buckets-IsShaped :
    (rates : RateSet) (bs m : Buckets) {m' : Buckets}
    → AllKeyed bs
    → IsShaped m
    → update_buckets rates bs m ≡ some m'
    → IsShaped m'
unfolding update_buckets
update_buckets-IsShaped rates [] m hb h e = ground arith
update_buckets-IsShaped rates ((k, b) ∷ bs) m {m'} hb h e = elim (Bool-cases (has k m)) [
  | inr gone ↦ update_buckets-IsShaped rates bs m hb.1 h (rw (update_buckets, gone) at e)
  | inl there ↦ elim (Option-cases (lookup b.period rates)) [
    | inl dropped ↦
        update_buckets-IsShaped rates bs (erase b.period m) hb.1 (erase-IsShaped b.period m h)
          (rw (update_buckets, there, dropped) at e)
    | inr (r, found) ↦ elim (Option-cases (update r b)) [
      | inl panic ↦ absurd (ground (arith, there, found, panic))
      | inr ((b', err), up) ↦
          update_buckets-IsShaped rates bs (insert k b' m) hb.1
            (insert-IsShaped k b' m (cc (period-update r b up, hb.0)) h)
            (rw (update_buckets, there, found, up) at e)
    ]
  ]
]

add_missing-IsShaped :
    (clock : ℕ → ℤ) (rs : RateSet) (m : Buckets) {m' : Buckets}
    → AllRates rs
    → IsShaped m
    → add_missing clock rs m ≡ some m'
    → IsShaped m'
unfolding add_missing
add_missing-IsShaped clock [] m hr h e = ground arith
add_missing-IsShaped clock ((k, r) ∷ rs) m {m'} (x, xs) h e = elim (Bool-cases (has r.period m)) [
  | inl there ↦ add_missing-IsShaped clock rs m xs h (rw (add_missing, there) at e)
  | inr gone ↦
      let (b, made) = new_token_bucket-some (clock 0) r x.average in
      add_missing-IsShaped (λ i. clock (suc i)) rs (insert r.period b m) xs
        (insert-IsShaped r.period b m (period-new_token_bucket (clock 0) r x.period made) h)
        (rw (add_missing, gone, made) at e)
]

add_buckets-IsShaped :
    (clock : ℕ → ℤ) (rs : RateSet) (s : TokenBucketSet)
    → AllRates rs
    → IsShaped s.buckets
    → (s' : TokenBucketSet) × (add_buckets clock rs s ≡ some s') × IsShaped s'.buckets
unfolding add_buckets
add_buckets-IsShaped clock [] s hr h = (s, refl, h)
add_buckets-IsShaped clock ((k, r) ∷ rs) s (x, xs) h =
    let (b, made) = new_token_bucket-some (clock 0) r x.average in
    let (s', e, shaped) =
      add_buckets-IsShaped (λ i. clock (suc i)) rs
        (record { buckets = insert r.period b s.buckets; max_period = max_ℤ s.max_period r.period })
        xs
        (insert-IsShaped r.period b s.buckets (period-new_token_bucket (clock 0) r x.period made)
          h) in
    (s', rw (add_buckets, made) e, shaped)

pub new_token_bucket_set-IsShaped :
    (clock : ℕ → ℤ) (rs : RateSet)
    → IsRateSet rs
    → (s : TokenBucketSet) × (new_token_bucket_set clock rs ≡ some s) × IsShaped s.buckets
unfolding new_token_bucket_set
new_token_bucket_set-IsShaped clock rs h =
    add_buckets-IsShaped clock rs (record { buckets = []; max_period = pos 0 }) h.1 (tt, tt)

-- `Update` with a rate set does not panic and keeps the shape.
pub update_set-IsShaped :
    (clock : ℕ → ℤ) (rates : RateSet) (s : TokenBucketSet)
    → IsRateSet rates
    → IsShaped s.buckets
    → (s' : TokenBucketSet) × (update_set clock rates s ≡ some s') × IsShaped s'.buckets
unfolding update_set
update_set-IsShaped clock rates s hr h =
    let (s', e, _, _) = update_set_lem clock rates s hr h.0 h.1 in (s', e, shape s' e)
  where
    shape : (s' : TokenBucketSet) → update_set clock rates s ≡ some s' → IsShaped s'.buckets
    shape s' e = elim (Option-cases (update_buckets rates s.buckets s.buckets)) [
      | inl panic ↦ absurd (ground (arith, panic))
      | inr (kept, ek) ↦ elim (Option-cases (add_missing clock rates kept)) [
        | inl panic ↦ absurd (ground (arith, ek, panic))
        | inr (all, ea) ↦
            let same : all ≡ s'.buckets = ground (arith, ek, ea) in
            subst IsShaped same (
              add_missing-IsShaped clock rates kept hr.1
                (update_buckets-IsShaped rates s.buckets s.buckets h.1 h ek) ea)
      ]
    ]

period-consume : (now t : ℤ) (b : TokenBucket) → (consume now t b).0.period ≡ b.period
unfolding consume take_tokens update_available_tokens refill
period-consume now t b = ground arith

-- The same periods under the same keys, in the same order.
abbrev SameKeys : Buckets → Buckets → Type 0
SameKeys [] [] = Unit
SameKeys ((k, b) ∷ bs) ((k', b') ∷ bs') = (k ≡ k') × (b'.period ≡ b.period) × SameKeys bs bs'
SameKeys [] (x ∷ bs') = ⊥
SameKeys (x ∷ bs) [] = ⊥

lookup-SameKeys :
    (j : ℤ) (bs bs' : Buckets) → SameKeys bs bs' → lookup j bs ≡ none → lookup j bs' ≡ none
lookup-SameKeys j [] [] h e = refl
lookup-SameKeys j [] (x ∷ bs') h e = elim h [ ]
lookup-SameKeys j (x ∷ bs) [] h e = elim h [ ]
lookup-SameKeys j ((k, b) ∷ bs) ((k', b') ∷ bs') (same, _, rest) e = elim (Bool-cases (eqb_ℤ j k)) [
  | inl found ↦ absurd (ground (arith, found))
  | inr other ↦
      let ih = lookup-SameKeys j bs bs' rest (rw other at e) in ground (arith, same, other, ih)
]

SameKeys-IsShaped : (bs bs' : Buckets) → SameKeys bs bs' → IsShaped bs → IsShaped bs'
SameKeys-IsShaped [] [] h s = s
SameKeys-IsShaped [] (x ∷ bs') h s = elim h [ ]
SameKeys-IsShaped (x ∷ bs) [] h s = elim h [ ]
SameKeys-IsShaped ((k, b) ∷ bs) ((k', b') ∷ bs') (same, period, rest) ((apart, map), (key, keys)) =
    let (map', keys') = SameKeys-IsShaped bs bs' rest (map, keys) in
    let gone : lookup k' bs' ≡ none =
      subst (λ j. lookup j bs' ≡ none) same (lookup-SameKeys k bs bs' rest apart) in
    ((gone, map'), (period ∙ key ∙ same, keys'))

SameKeys-consume_each :
    (clock : ℕ → ℤ) (t : ℤ) (bs : Buckets) (d : ℤ) (e : Option Error)
    → SameKeys bs (consume_each clock t bs d e).0
unfolding consume_each
SameKeys-consume_each clock t [] d e = tt
SameKeys-consume_each clock t ((k, b) ∷ bs) d e =
    (refl, period-consume (clock 0) t b, SameKeys-consume_each (λ i. clock (suc i)) t bs _ _)

SameKeys-rollback_all : (bs : Buckets) → SameKeys bs (rollback_all bs)
unfolding rollback_all rollback
SameKeys-rollback_all [] = tt
SameKeys-rollback_all ((k, b) ∷ bs) = (refl, refl, SameKeys-rollback_all bs)

-- `Consume` keeps the shape.
pub consume_set-IsShaped :
    (clock : ℕ → ℤ) (t : ℤ) (s : TokenBucketSet)
    → IsShaped s.buckets
    → IsShaped (consume_set clock t s).0.buckets
unfolding consume_set
consume_set-IsShaped clock t s h =
    let r = consume_each clock t s.buckets undefined_delay none in
    let each =
      SameKeys-IsShaped s.buckets r.0 (SameKeys-consume_each clock t s.buckets undefined_delay none)
        h in
    elim (Bool-cases (is_refused r.1 r.2)) [
      | inr go ↦ rw go each
      | inl stop ↦
          rw stop (SameKeys-IsShaped r.0 (rollback_all r.0) (SameKeys-rollback_all r.0) each)
    ]
