-- ===== src/RoundTrip/StatusCodes.antt =====
-- memmetrics/roundtrip.go: the counters of status codes, and the loops over them.
use oxy.Base.{
  ℕ, suc, ◌+◌, Bool, true, false, Option, none, some, if◌then◌else◌, ◌&&◌, List, [], ◌∷◌,
}
use oxy.Base.Int.{ℤ, pos, ltb_ℤ, leb_ℤ, eqb_ℤ}
use oxy.Base.Int64.{add64}
use oxy.Base.Assoc.{int_eq, lookup, insert}
use oxy.Base.Result.{Result, err, ok}
use oxy.Counter.{RollingCounter, CounterError, inc, count, append, clone}

abbrev pub Codes : Type 0
Codes = List (ℤ × RollingCounter)

-- The second part of `recordStatusCode`, when the first has not found the code.
unfoldable pub add_status_code :
    ℤ → ℤ → ℤ → Result CounterError RollingCounter → Codes → Option Codes
add_status_code now now' code made codes = elim (lookup code codes) [
  | some c ↦ elim (inc now now' (pos 1) c) [ none ↦ none | some c' ↦ some (insert code c' codes) ]
  | none ↦ elim made [
    | err e ↦ some codes
    | ok c ↦ elim (inc now now' (pos 1) c) [ none ↦ none | some c' ↦ some (insert code c' codes) ]
  ]
]

-- `recordStatusCode`; its error is not used.
unfoldable pub record_status_code :
    ℤ → ℤ → ℤ → Result CounterError RollingCounter → Codes → Option Codes
record_status_code now now' code made codes = elim (lookup code codes) [
  | some c ↦ elim (inc now now' (pos 1) c) [ none ↦ none | some c' ↦ some (insert code c' codes) ]
  | none ↦ add_status_code now now' code made codes
]

-- `v.Count()` where the code is in a range, which ends before `end`.
unfoldable pub count_if : Bool → ℤ → RollingCounter → Option (RollingCounter × ℤ)
count_if false now c = some (c, pos 0)
count_if true now c = count now c

abbrev pub is_between : ℤ → ℤ → ℤ → Bool
is_between start end code = ltb_ℤ code end && leb_ℤ start code

-- The loop of `ResponseCodeRatio`: the counters and the sums for two ranges.
unfoldable pub count_ranges : (ℕ → ℤ) → ℤ × ℤ → ℤ × ℤ → ℤ → ℤ → Codes → Option (Codes × (ℤ × ℤ))
count_ranges clock ra rb a b [] = some ([], (a, b))
count_ranges clock ra rb a b ((code, c) ∷ codes) =
    elim (count_if (is_between ra.0 ra.1 code) (clock 0) c) [
      | none ↦ none
      | some (c', n) ↦ elim (count_if (is_between rb.0 rb.1 code) (clock 1) c') [
        | none ↦ none
        | some (c'', k) ↦
            elim (count_ranges (λ i. clock (i + 2)) ra rb (add64 a n) (add64 b k) codes) [
              | none ↦ none
              | some (codes', sums) ↦ some ((code, c'') ∷ codes', sums)
            ]
      ]
    ]

-- The loop of `StatusCodesCounts`; a counter is read twice if it is not 0.
unfoldable pub code_counts : (ℕ → ℤ) → Codes → Option (Codes × List (ℤ × ℤ))
code_counts clock [] = some ([], [])
code_counts clock ((code, c) ∷ codes) = elim (count (clock 0) c) [
  | none ↦ none
  | some (c', n) ↦ elim (code_counts (λ i. clock (i + 2)) codes) [
    | none ↦ none
    | some (codes', counts) ↦
        if eqb_ℤ n (pos 0) then some ((code, c') ∷ codes', counts) else elim (count (clock 1) c') [
          | none ↦ none
          | some (c'', n') ↦ some ((code, c'') ∷ codes', insert code n' counts)
        ]
  ]
]

-- The loops of `Export` and of `Append` over the status codes.
unfoldable pub clone_each : (ℕ → ℤ) → Codes → Option (Codes × Codes)
clone_each clock [] = some ([], [])
clone_each clock ((code, c) ∷ codes) = elim (clone (clock 0) c) [
  | none ↦ none
  | some (c', copy) ↦ elim (clone_each (λ i. clock (suc i)) codes) [
    | none ↦ none
    | some (codes', copies) ↦ some ((code, c') ∷ codes', (code, copy) ∷ copies)
  ]
]

unfoldable pub append_each : (ℕ → ℤ) → Codes → Codes → Option Codes
append_each clock [] codes = some codes
append_each clock ((code, c) ∷ others) codes = elim (lookup code codes) [
  | some o ↦ elim (append (clock 0) (clock 1) (clock 2) o c) [
    | none ↦ none
    | some (o', _) ↦ append_each (λ i. clock (i + 3)) others (insert code o' codes)
  ]
  | none ↦ elim (clone (clock 0) c) [
    | none ↦ none
    | some (_, copy) ↦ append_each (λ i. clock (i + 3)) others (insert code copy codes)
  ]
]
