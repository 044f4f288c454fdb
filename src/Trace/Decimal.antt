-- ===== src/Trace/Decimal.antt =====
-- `strconv.ParseInt(length, 10, 0)`, for an int of 64 bits.
use Prim.Native.Char.{code}
use Prim.Native.String.{String, [], ◌∷◌}
use oxy.Base.{ℕ, ◌+◌, ◌*◌, ◌-◌, ◌^◌, ltb, leb, ◌==◌, ◌&&◌, Option, none, some, if◌then◌else◌}
use oxy.Base.Int.{ℤ, pos, sub_ℕ}

-- The digits of a number after those that make `n`.
unfoldable pub digits : ℕ → String → Option ℕ
digits n [] = some n
digits n (c ∷ s) =
    let rest = digits (10 * n + (code c - 48)) s in
    if leb 48 (code c) && leb (code c) 57 then rest else none

-- The number without a sign, if it is below `limit`.
unfoldable pub unsigned : ℕ → String → Option ℕ
unsigned limit [] = none
unsigned limit (c ∷ s) = elim (digits 0 (c ∷ s)) [
  | none ↦ none
  | some n ↦ if ltb n limit then some n else none
]

unfoldable pub parse_int : String → Option ℤ
parse_int [] = none
parse_int (c ∷ s) =
    if code c == 45
    then elim (unsigned (2 ^ 63 + 1) s) [ none ↦ none | some n ↦ some (sub_ℕ 0 n) ]
    else if code c == 43
    then elim (unsigned (2 ^ 63) s) [ none ↦ none | some n ↦ some (pos n) ]
    else elim (unsigned (2 ^ 63) (c ∷ s)) [ none ↦ none | some n ↦ some (pos n) ]
