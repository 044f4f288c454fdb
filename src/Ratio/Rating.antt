-- ===== src/Ratio/Rating.antt =====
-- What the rating of a code meter is after it has recorded codes.
use oxy.Base.{
  ℕ, suc, ◌+◌, ◌^◌, ◌<◌, ◌≡◌, refl, arith, Bool, true, false, ◌&&◌, Option, none, some, List, [],
  ◌∷◌, length, inl, inr, Bool-cases, if◌then◌else◌, ◌==◌,
}
use oxy.Base.Int.{ℤ, pos, ltb_ℤ, leb_ℤ, ◌+ℤ◌}
use oxy.Base.Int64.{add64, wrap64}
use oxy.Counter.Shows.{Shows, inc-Shows, count-Shows}
use oxy.Ratio.{Quotient, count_a, count_b, inc_a, inc_b, ratio, CodeMeter, rating, record_code}

-- `Record` for each code, at one time.
unfoldable pub record_all : ℤ → List ℤ → CodeMeter → Option CodeMeter
record_all now [] n = some n
record_all now (code ∷ codes) n = elim (record_code now now code n) [
  | none ↦ none
  | some n' ↦ record_all now codes n'
]

-- A range of codes, which the meter counts as errors.
module _ (s e : ℤ) where
  abbrev pub is_error : ℤ → Bool
  is_error code = leb_ℤ s code && ltb_ℤ code e

  -- How many of the codes are errors, and how many are not.
  abbrev pub errors : List ℤ → ℕ
  errors [] = 0
  errors (code ∷ codes) = if is_error code then suc (errors codes) else errors codes

  abbrev pub successes : List ℤ → ℕ
  successes [] = 0
  successes (code ∷ codes) = if is_error code then successes codes else suc (successes codes)

  -- A meter for the range whose counters show `x` errors and `y` other codes.
  pub record Rated (now : ℤ) (n : CodeMeter) (x y : ℕ) : Type 0 where
    pub from : n.code_s ≡ s
    pub to : n.code_e ≡ e
    pub a : Shows now n.r.a x
    pub b : Shows now n.r.b y

  record_code-Rated :
      (now code : ℤ) (n : CodeMeter) (x y : ℕ)
      → Rated now n x y
      → x + y + 1 < 2 ^ 63
      → (n' : CodeMeter) × (record_code now now code n ≡ some n')
        × Rated now n' (if is_error code then x + 1 else x) (if is_error code then y else y + 1)
  unfolding record_code inc_a inc_b
  record_code-Rated now code n x y h low = elim (Bool-cases (is_error code)) [
    | inl bad ↦
        let (a, eq, shows) = inc-Shows now 1 x n.r.a h.a (omega arith) in
        let bad' : (leb_ℤ n.code_s code && ltb_ℤ code n.code_e) ≡ true = rw (h.from, h.to) bad in
        (
          record n { r = record n.r { a = a } },
          rw (record_code, bad', inc_a, eq) refl,
          rw bad (record { from = h.from; to = h.to; a = shows; b = h.b }),
        )
    | inr good ↦
        let (b, eq, shows) = inc-Shows now 1 y n.r.b h.b (omega arith) in
        let good' : (leb_ℤ n.code_s code && ltb_ℤ code n.code_e) ≡ false = rw (h.from, h.to) good in
        (
          record n { r = record n.r { b = b } },
          rw (record_code, good', inc_b, eq) refl,
          rw good (record { from = h.from; to = h.to; a = h.a; b = shows }),
        )
  ]

  moved :
      (now : ℤ) (n : CodeMeter) (x y x' y' : ℕ)
      → x ≡ x'
      → y ≡ y'
      → Rated now n x y
      → Rated now n x' y'
  moved now n x y x' y' ex ey h = rw (← ex, ← ey) h

  record_all-Rated :
      (now : ℤ) (codes : List ℤ) (n : CodeMeter) (x y : ℕ)
      → Rated now n x y
      → x + y + length codes < 2 ^ 63
      → (n' : CodeMeter) × (record_all now codes n ≡ some n')
        × Rated now n' (x + errors codes) (y + successes codes)
  unfolding record_all
  record_all-Rated now [] n x y h low =
      (n, refl, moved now n x y (x + 0) (y + 0) (omega arith) (omega arith) h)
  record_all-Rated now (code ∷ codes) n x y h low =
      let (n1, eq, h1) = record_code-Rated now code n x y h (omega arith) in
      let (n2, eq2, h2) =
        record_all-Rated now codes n1 (if is_error code then x + 1 else x)
          (if is_error code then y else y + 1) h1 (ground arith) in
      (n2, rw (record_all, eq) eq2, moved now n2 _ _ _ _ (ground arith) (ground arith) h2)

  together : (codes : List ℤ) → errors codes + successes codes ≡ length codes
  together [] = refl
  together (code ∷ codes) = ground (arith, together codes)

  sum_exact : (a b : ℕ) → a + b < 2 ^ 63 → add64 (pos a) (pos b) ≡ pos (a + b)
  unfolding add64 wrap64 ◌+ℤ◌
  sum_exact a b low = ground arith

  -- A code meter whose counters show x and y at a time records codes at that time: it does not panic, and
  -- its rating then is the quotient of x plus the codes in its range by x plus y plus all the codes, or 0
  -- if there are none, as long as this sum fits in an int64.
  pub rating-record_all :
      {F : Type 0} (floats : Quotient F) (now : ℤ) (codes : List ℤ) (n : CodeMeter) (x y : ℕ)
      → Rated now n x y
      → x + y + length codes < 2 ^ 63
      → (n' n'' : CodeMeter) × (record_all now codes n ≡ some n')
        × (rating floats now now n'
            ≡ some (
              n'',
              if (x + y + length codes) == 0
                  then floats.zero_float
                  else floats.divide
                      (floats.of_int (pos (x + errors codes)))
                      (floats.of_int (pos (x + y + length codes))),
            ))
  unfolding rating ratio count_a count_b
  rating-record_all floats now codes n x y h low =
      let (n', eq, h') = record_all-Rated now codes n x y h low in
      let all = together codes in
      let ea = count-Shows now n'.r.a (x + errors codes) h'.a (omega (arith, all)) in
      let eb = count-Shows now n'.r.b (y + successes codes) h'.b (omega (arith, all)) in
      let sum = sum_exact (x + errors codes) (y + successes codes) (omega (arith, all)) in
      let number : x + errors codes + (y + successes codes) ≡ x + y + length codes =
        omega (arith, all) in
      (
        n',
        record n' { r = record { a = h'.a.cleaned; b = h'.b.cleaned } },
        eq,
        rw (rating, ratio, count_a, ea, count_b, eb, sum, number) (ground arith),
      )
