-- ===== src/Counter/Again.antt =====
-- A second `cleanup` at the same time changes nothing.
use oxy.Base.{
  ℕ, zero, suc, ◌≡◌, refl, arith, sym, subst, ap, ◌∙◌, true, some, Bool-cases, Option-cases, inl,
  inr, List, [], ◌∷◌, length, length-set, get_elem?, set,
}
use oxy.Base.Int.{ℤ, pos, ltb_ℤ}
use oxy.Counter.{RollingCounter, truncate, get_bucket, index_of, change_bucket, clean_from, cleanup}
use oxy.Counter.Window.{check_point}

set_same : (vs : List ℤ) (i : ℕ) (v : ℤ) → get_elem? vs i ≡ some v → set vs i v ≡ vs
set_same [] i v e = refl
set_same (x ∷ vs) zero v e = let same : x ≡ v = cc in ap (λ (y : ℤ). y ∷ vs) (sym same)
set_same (x ∷ vs) (suc i) v e = ap (λ (ys : List ℤ). x ∷ ys) (set_same vs i v e)

get_elem?-set_same :
    (vs : List ℤ) (i : ℕ) (v w : ℤ) → get_elem? vs i ≡ some v → get_elem? (set vs i w) i ≡ some w
get_elem?-set_same [] i v w e = absurd (ground arith)
get_elem?-set_same (x ∷ vs) zero v w e = refl
get_elem?-set_same (x ∷ vs) (suc i) v w e = get_elem?-set_same vs i v w e

-- A write of 0 leaves zeros alone.
set-zero :
    (vs : List ℤ) (i j : ℕ)
    → get_elem? vs j ≡ some (pos 0)
    → get_elem? (set vs i (pos 0)) j ≡ some (pos 0)
set-zero [] i j e = e
set-zero (x ∷ vs) zero zero e = refl
set-zero (x ∷ vs) zero (suc j) e = e
set-zero (x ∷ vs) (suc i) zero e = e
set-zero (x ∷ vs) (suc i) (suc j) e = set-zero vs i j e

abbrev cleared : RollingCounter → ℕ → RollingCounter
cleared c b = record c { values = set c.values b (pos 0) }

change_bucket_inv :
    (t : ℤ) (c c1 : RollingCounter)
    → change_bucket t (λ v. pos 0) c ≡ some c1
    → (b : ℕ) × (v : ℤ) × (index_of (get_bucket t c) (length c.values) ≡ some b)
      × (get_elem? c.values b ≡ some v)
      × (cleared c b ≡ c1)
unfolding change_bucket
change_bucket_inv t c c1 e = elim (Option-cases (index_of (get_bucket t c) (length c.values))) [
  | inl out ↦ absurd (ground (arith, out, e))
  | inr (b, here) ↦ elim (Option-cases (get_elem? c.values b)) [
    | inl missing ↦ absurd (ground (arith, here, missing, e))
    | inr (v, found) ↦ (b, v, here, found, ground (arith, here, found, e))
  ]
]

change_bucket_zero :
    (t : ℤ) (c : RollingCounter) (b : ℕ)
    → index_of (get_bucket t c) (length c.values) ≡ some b
    → get_elem? c.values b ≡ some (pos 0)
    → change_bucket t (λ v. pos 0) c ≡ some c
unfolding change_bucket
change_bucket_zero t c b here found =
    rw (change_bucket, here, found)
      (ap (λ (vs : List ℤ). some (record c { values = vs })) (set_same c.values b (pos 0) found))

abbrev pair : ℤ → ℤ → ℤ × ℤ
pair a b = (a, b)

paired : (a a' b b' : ℤ) → a ≡ a' → b ≡ b' → pair a b ≡ pair a' b'
paired a a' b b' e f = ap (λ (x : ℤ). pair x b) e ∙ ap (pair a') f

-- What a cleanup keeps, and that it cleans all there is.
pub record IsStable (now : ℤ) (k i : ℕ) (c c' : RollingCounter) : Type 0 where
  pub resolution : c'.resolution ≡ c.resolution
  pub size : length c'.values ≡ length c.values
  pub updated : c'.last_updated ≡ c.last_updated
  pub zeros : (b : ℕ) → get_elem? c.values b ≡ some (pos 0) → get_elem? c'.values b ≡ some (pos 0)
  pub again : clean_from now k i c' ≡ some c'

get_bucket-same :
    (t : ℤ) (c c' : RollingCounter)
    → c'.resolution ≡ c.resolution
    → length c'.values ≡ length c.values
    → index_of (get_bucket t c') (length c'.values) ≡ index_of (get_bucket t c) (length c.values)
unfolding get_bucket
get_bucket-same t c c' res size = cc (res, size)

turn-again :
    (now : ℤ) (k i : ℕ) (c c' : RollingCounter) (b : ℕ)
    → c'.resolution ≡ c.resolution
    → length c'.values ≡ length c.values
    → c'.last_updated ≡ c.last_updated
    → ltb_ℤ
        (truncate c.resolution c.last_updated)
        (truncate c.resolution (check_point c.resolution now i))
      ≡ true
    → index_of (get_bucket (check_point c.resolution now i) c) (length c.values) ≡ some b
    → get_elem? c'.values b ≡ some (pos 0)
    → clean_from now k (suc i) c' ≡ some c'
    → clean_from now (suc k) i c' ≡ some c'
unfolding clean_from
turn-again now k i c c' b res size updated old here zero_here again =
    let old' : ltb_ℤ (truncate c'.resolution c'.last_updated)
          (truncate c'.resolution (check_point c'.resolution now i))
        ≡ true =
      subst (λ (x : ℤ × ℤ). ltb_ℤ (truncate x.0 x.1) (truncate x.0 (check_point x.0 now i)) ≡ true)
        (paired c.resolution c'.resolution c.last_updated c'.last_updated (sym res) (sym updated))
        old in
    let here' : index_of (get_bucket (check_point c'.resolution now i) c') (length c'.values)
        ≡ some b =
      get_bucket-same (check_point c'.resolution now i) c c' res size
      ∙ ap (λ (r : ℤ). index_of (get_bucket (check_point r now i) c) (length c.values)) res
      ∙ here in
    let bucket = change_bucket_zero (check_point c'.resolution now i) c' b here' zero_here in
    rw (clean_from, old', bucket) again

clean_from-IsStable :
    (now : ℤ) (k i : ℕ) (c c' : RollingCounter)
    → clean_from now k i c ≡ some c'
    → IsStable now k i c c'
unfolding clean_from
clean_from-IsStable now zero i c c' e =
    let same : c ≡ c' = cc in
    subst (IsStable now zero i c) same
      (record { resolution = refl; size = refl; updated = refl; zeros = λ b z. z; again = refl })
clean_from-IsStable now (suc k) i c c' e =
    let t = check_point c.resolution now i in
    elim (Bool-cases (ltb_ℤ (truncate c.resolution c.last_updated) (truncate c.resolution t))) [
      | inr fresh ↦
          let same : c ≡ c' = ground (arith, fresh, e) in
          subst (IsStable now (suc k) i c) same (record {
            resolution = refl;
            size = refl;
            updated = refl;
            zeros = λ b z. z;
            again = rw (clean_from, fresh) refl;
          })
      | inl old ↦ elim (Option-cases (change_bucket t (λ v. pos 0) c)) [
        | inl panic ↦ absurd (ground (arith, old, panic, e))
        | inr (c1, changed) ↦
            let rest : clean_from now k (suc i) c1 ≡ some c' = ground (arith, old, changed, e) in
            let (b, v, here, found, shape) = change_bucket_inv t c c1 changed in
            let st : IsStable now k (suc i) (cleared c b) c' =
              clean_from-IsStable now k (suc i) (cleared c b) c' (
                subst (λ (x : RollingCounter). clean_from now k (suc i) x ≡ some c') (sym shape)
                  rest) in
            let size : length c'.values ≡ length c.values =
              st.size ∙ length-set c.values b (pos 0) in
            let zero_here : get_elem? c'.values b ≡ some (pos 0) =
              st.zeros b (get_elem?-set_same c.values b v (pos 0) found) in
            record {
              resolution = st.resolution;
              size = size;
              updated = st.updated;
              zeros = λ j z. st.zeros j (set-zero c.values b j z);
              again =
                  turn-again now k i c c' b st.resolution size st.updated old here zero_here
                    st.again;
            }
      ]
    ]

pub cleanup-again :
    (now : ℤ) (c c' : RollingCounter) → cleanup now c ≡ some c' → cleanup now c' ≡ some c'
unfolding cleanup
cleanup-again now c c' e =
    let st = clean_from-IsStable now (length c.values) 0 c c' e in
    subst (λ (n : ℕ). clean_from now n 0 c' ≡ some c') (sym st.size) st.again
