-- ===== src/RoundRobin/Search.antt =====
-- The loop of `nextServer` as a walk over positions: what one turn does, and what a pass serves.
use oxy.Base.{
  ℕ, zero, suc, ◌+◌, ◌-◌, ◌%◌, ◌^◌, ◌<◌, ◌≡◌, refl, arith, List, [], ◌∷◌, ◌⊎◌, inl, inr, ◌∙◌, ap,
  if◌then◌else◌, leb, length, get_elem?, drop, some,
}
use oxy.Base.Int.{ℤ, pos, negsuc, ◌+ℤ◌, ◌-ℤ◌, rem, int_laws, sub_ℕ, -ℤ_parts, eq_of_parts}
use oxy.Base.Int64.{add64, sub64, add64_exact, sub64_exact, IsInt64, wrap64}
use native.Mathlib.Nat.{mod-eq_of_lt, mod_self}
use oxy.RoundRobin.{Server, Pool, turn, pick}

-- The index before position `j` is visited.
abbrev pub before : ℕ → ℤ
before zero = negsuc 0
before (suc i) = pos i

-- The pool that visits position `j` next (the first again if `j` is the length), at the level `c`.
abbrev pub at : List Server → ℕ → ℕ → Pool
at ss j c = record { index = before j; servers = ss; current_weight = pos c }

add_one : (i : ℕ) → suc i < 2 ^ 63 → add64 (pos i) (pos 1) ≡ pos (suc i)
add_one i h =
    let e : pos i +ℤ pos 1 ≡ pos (suc i) = omega int_laws in
    let fits : IsInt64 (pos i +ℤ pos 1) = rw e (omega arith) in add64_exact (pos i) (pos 1) fits ∙ e

pub next_index : (j n : ℕ) → j < n → n < 2 ^ 63 → rem (add64 (before j) (pos 1)) (pos n) ≡ pos j
unfolding rem add64 wrap64 ◌+ℤ◌
next_index zero n h small =
    let e : 0 % (n + 0) ≡ 0 = mod-eq_of_lt (omega arith) in ground (arith, e)
next_index (suc i) n h small =
    let e : suc i % (n + 0) ≡ suc i = mod-eq_of_lt (omega arith) in
    rw (add_one i (omega arith)) (ap pos e)

next_index_wraps : (n : ℕ) → 0 < n → n < 2 ^ 63 → rem (add64 (before n) (pos 1)) (pos n) ≡ pos 0
unfolding rem
next_index_wraps zero h small = elim h [ ]
next_index_wraps (suc i) h small =
    let same : suc i + 0 ≡ suc i = omega arith in rw (add_one i (omega arith), same, mod_self) refl

pub lower_level : (c g : ℕ) → c < 2 ^ 63 → g < 2 ^ 63 → sub64 (pos c) (pos g) ≡ sub_ℕ c g
lower_level c g hc hg =
    let e : pos c -ℤ pos g ≡ sub_ℕ c g = exact in
    let fits : IsInt64 (pos c -ℤ pos g) = rw e (in_range) in sub64_exact (pos c) (pos g) fits ∙ e
  where
    exact : pos c -ℤ pos g ≡ sub_ℕ c g
    exact = ground (arith, -ℤ_parts (pos c) (pos g), eq_of_parts (pos c -ℤ pos g) (sub_ℕ c g))

    in_range : IsInt64 (sub_ℕ c g)
    in_range = ground arith

-- The level of the pass that follows one at level `c`.
abbrev pub next_level : ℕ → ℕ → ℕ → ℕ
next_level g m c = if leb c g then m else c - g

module _ (g m : ℕ) (ss : List Server) where
  pub turn_inside :
      (i c : ℕ)
      → suc i < length ss
      → length ss < 2 ^ 63
      → turn (pos g) (pos m) (at ss (suc i) c) ≡ pick (at ss (suc (suc i)) c)
  unfolding turn
  turn_inside i c h small = ground (arith, next_index (suc i) (length ss) h small)

  pub turn_first :
      (j c : ℕ)
      → (j ≡ 0) ⊎ (j ≡ length ss)
      → 0 < length ss
      → length ss < 2 ^ 63
      → c < 2 ^ 63
      → g < 2 ^ 63
      → 0 < m
      → turn (pos g) (pos m) (at ss j c) ≡ pick (at ss 1 (next_level g m c))
  unfolding turn
  turn_first j c (inl e) h small hc hg hm =
      rw e (ground (arith, next_index 0 (length ss) h small, lower_level c g hc hg))
  turn_first j c (inr e) h small hc hg hm =
      rw e (ground (arith, next_index_wraps (length ss) h small, lower_level c g hc hg))

pub get_drop :
    (ss : List Server) (i : ℕ)
    → i < length ss
    → (s : Server) × (get_elem? ss i ≡ some s) × (drop i ss ≡ s ∷ drop (suc i) ss)
get_drop [] i h = elim h [ ]
get_drop (s ∷ ss) zero h = (s, refl, refl)
get_drop (s ∷ ss) (suc i) h = get_drop ss i (omega arith)

pub drop_all : (ss : List Server) → drop (length ss) ss ≡ []
drop_all [] = refl
drop_all (s ∷ ss) = drop_all ss
