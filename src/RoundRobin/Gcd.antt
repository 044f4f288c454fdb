-- ===== src/RoundRobin/Gcd.antt =====
-- `weightGcd` divides every weight, and `maxWeight` is the largest of them.
use native.Mathlib.Nat.{mod-lt, div-add-mod}
use oxy.Base.{
  ℕ, zero, suc, ◌+◌, ◌*◌, ◌/◌, ◌%◌, ◌≤◌, ◌<◌, ◌≡◌, refl, arith, List, [], ◌∷◌, ◌⊎◌, inl, inr, ◌∙◌,
  ap, ◌≢◌, if◌then◌else◌, leb,
}
use oxy.Base.Int.{pos, negsuc, pos_part, rem}
use native.Mathlib.Decide.{dec_lt}
use oxy.RoundRobin.{
  Server, Pool, gcd_loop, gcd, weight_gcd_from, weight_gcd, max_weight_from, max_weight,
}

-- `g` divides `n`.
abbrev pub Divides : ℕ → ℕ → Type 0
Divides g n = (k : ℕ) × (n ≡ k * g)

divides_through : (a b g k j : ℕ) → b ≡ k * g → a % b ≡ j * g → a ≡ (a / b * k + j) * g
divides_through a b g k j h e =
    let whole : b * (a / b) + a % b ≡ a = div-add-mod a b in
    let factor : b * (a / b) ≡ k * g * (a / b) = ap (λ (x : ℕ). x * (a / b)) h in
    omega (arith, whole, factor)

gcd_loop_lem :
    (f a b : ℕ)
    → b < f
    → (g : ℕ) × (gcd_loop f (pos a) (pos b) ≡ pos g)
      × Divides g a
      × Divides g b
      × (0 < a + b → 0 < g)
unfolding gcd_loop rem
gcd_loop_lem zero a b h = absurd (omega arith)
gcd_loop_lem (suc f) a zero h =
    (a, ground arith, (1, omega arith), (0, omega arith), λ p. omega arith)
gcd_loop_lem (suc f) a (suc b) h =
    let smaller : a % suc b < suc b = mod-lt a (omega arith) in
    let (g, e, (k, ek), (j, ej), p) = gcd_loop_lem f (suc b) (a % suc b) (omega arith) in
    (
      g,
      ground (arith, e),
      (a / suc b * k + j, divides_through a (suc b) g k j ek ej),
      (k, ek),
      λ _. p (omega arith),
    )

-- The weight of each server is a natural number.
abbrev pub AllNat : List Server → Type 0
AllNat [] = Unit
AllNat (s ∷ ss) = (n : ℕ) × (s.weight ≡ pos n) × AllNat ss

-- Each weight is a multiple of `g`.
abbrev pub AllDivided : ℕ → List Server → Type 0
AllDivided g [] = Unit
AllDivided g (s ∷ ss) = (k : ℕ) × (s.weight ≡ pos (k * g)) × AllDivided g ss

-- No weight exceeds `n`.
abbrev pub AllAtMost : ℕ → List Server → Type 0
AllAtMost n [] = Unit
AllAtMost n (s ∷ ss) = (w : ℕ) × (s.weight ≡ pos w) × (w ≤ n) × AllAtMost n ss

abbrev pub sum_weights : List Server → ℕ
sum_weights [] = 0
sum_weights (s ∷ ss) = pos_part s.weight + sum_weights ss

pub gcd_lem :
    (a b : ℕ)
    → (g : ℕ) × (gcd (pos a) (pos b) ≡ pos g) × Divides g a × Divides g b × (0 < a + b → 0 < g)
unfolding gcd
gcd_lem a b = let same : b + 0 ≡ b = omega arith in rw same (gcd_loop_lem (suc b) a b (omega arith))

pub Divides-trans : (a b n : ℕ) → Divides a b → Divides b n → Divides a n
Divides-trans a b n (k, e) (j, f) = (j * k, f ∙ ap (λ (x : ℕ). j * x) e ∙ omega arith)

weight_gcd_from_lem :
    (d : ℕ) (ss : List Server)
    → AllNat ss
    → (g : ℕ) × (weight_gcd_from (pos d) ss ≡ pos g)
      × Divides g d
      × AllDivided g ss
      × (0 < d + sum_weights ss → 0 < g)
unfolding weight_gcd_from
weight_gcd_from_lem d [] h = (d, refl, (1, omega arith), tt, λ p. omega arith)
weight_gcd_from_lem d (s ∷ ss) (n, e, hs) =
    let (c, ec, dc, nc, pc) = gcd_lem d n in
    let (g, eg, gc, gs, pg) = weight_gcd_from_lem c ss hs in
    let (k, ek) = Divides-trans g c n gc nc in
    (
      g,
      ground (arith, e, ec, eg),
      Divides-trans g c d gc dc,
      (k, e ∙ ap pos ek, gs),
      λ p. pg (grind (arith, ap pos_part e)),
    )

-- The servers whose weight is at least `c`, in order.
abbrev pub chosen : ℕ → List Server → List Server
chosen c [] = []
chosen c (s ∷ ss) = if leb c (pos_part s.weight) then s ∷ chosen c ss else chosen c ss

-- What is known of the largest weight, `m`, and the common divisor, `g`.
pub record IsBest (g m : ℕ) (ss : List Server) : Type 0 where
  pub largest : AllAtMost m ss
  pub multiple : Divides g m
  pub reached : (c : ℕ) → c ≤ m → chosen c ss ≢ []

chosen-head :
    (c n : ℕ) (s : Server) (ss : List Server) → s.weight ≡ pos n → c ≤ n → chosen c (s ∷ ss) ≢ []
chosen-head c n s ss e h = ground (arith, e)

chosen-tail : (c : ℕ) (s : Server) (ss : List Server) → chosen c ss ≢ [] → chosen c (s ∷ ss) ≢ []
chosen-tail c s ss h = ground (arith, h)

max_weight_from_lem :
    (g b : ℕ) (ss : List Server)
    → Divides g b
    → AllDivided g ss
    → (m : ℕ) × (max_weight_from (pos b) ss ≡ pos m)
      × (b ≤ m)
      × AllAtMost m ss
      × Divides g m
      × ((m ≡ b) ⊎ ((c : ℕ) → c ≤ m → chosen c ss ≢ []))
unfolding max_weight_from
max_weight_from_lem g b [] d h = (b, refl, omega arith, tt, d, inl refl)
max_weight_from_lem g b (s ∷ ss) d (k, e, hs) = elim (dec_lt b (k * g)) [
  | yes more ↦
      let (m, em, le, most, dm, got) = max_weight_from_lem g (k * g) ss (k, refl) hs in
      (m, ground (arith, e, em), omega arith, (k * g, e, le, most), dm, inr (here m got))
  | no less ↦
      let (m, em, le, most, dm, got) = max_weight_from_lem g b ss d hs in
      (m, ground (arith, e, em), le, (k * g, e, omega arith, most), dm, later m got)
]
  where
    here :
        (m : ℕ)
        → (m ≡ k * g) ⊎ ((c : ℕ) → c ≤ m → chosen c ss ≢ [])
        → (c : ℕ) → c ≤ m
        → chosen c (s ∷ ss) ≢ []
    here m (inl same) c h = chosen-head c (k * g) s ss e (omega arith)
    here m (inr got) c h = chosen-tail c s ss (got c h)

    later :
        (m : ℕ)
        → (m ≡ b) ⊎ ((c : ℕ) → c ≤ m → chosen c ss ≢ [])
        → (m ≡ b) ⊎ ((c : ℕ) → c ≤ m → chosen c (s ∷ ss) ≢ [])
    later m (inl same) = inl same
    later m (inr got) = inr (λ c h. chosen-tail c s ss (got c h))

sum_weights-zero : (ss : List Server) → AllAtMost 0 ss → sum_weights ss ≡ 0
sum_weights-zero [] h = refl
sum_weights-zero (s ∷ ss) (w, e, le, hs) = omega (arith, ap pos_part e, sum_weights-zero ss hs)

top :
    (s : Server) (ss : List Server) (n m : ℕ)
    → s.weight ≡ pos n
    → n ≤ m
    → AllAtMost m ss
    → (m ≡ n) ⊎ ((c : ℕ) → c ≤ m → chosen c ss ≢ [])
    → 0 < sum_weights (s ∷ ss)
    → (0 < m) × ((c : ℕ) → c ≤ m → chosen c (s ∷ ss) ≢ [])
top s ss n m e le most got p = (positive m le most, reached got)
  where
    positive : (m : ℕ) → n ≤ m → AllAtMost m ss → 0 < m
    positive zero le most = absurd (omega (arith, ap pos_part e, sum_weights-zero ss most))
    positive (suc m) le most = omega arith

    reached :
        (m ≡ n) ⊎ ((c : ℕ) → c ≤ m → chosen c ss ≢ []) → (c : ℕ) → c ≤ m → chosen c (s ∷ ss) ≢ []
    reached (inl same) c h = chosen-head c n s ss e (omega arith)
    reached (inr got) c h = chosen-tail c s ss (got c h)

-- Over servers with natural weights, not all zero, `weightGcd` is a positive common divisor, and
-- `maxWeight` is a positive multiple of it that no weight exceeds and some weight reaches.
pub weights_lem :
    (r : Pool)
    → AllNat r.servers
    → 0 < sum_weights r.servers
    → (g m : ℕ) × (weight_gcd r ≡ pos g)
      × (max_weight r ≡ pos m)
      × (0 < g)
      × (0 < m)
      × AllDivided g r.servers
      × IsBest g m r.servers
unfolding weight_gcd max_weight weight_gcd_from max_weight_from
weights_lem r h p = go r.servers h p
  where
    go :
        (ss : List Server)
        → AllNat ss
        → 0 < sum_weights ss
        → (g m : ℕ) × (weight_gcd_from (negsuc 0) ss ≡ pos g)
          × (max_weight_from (negsuc 0) ss ≡ pos m)
          × (0 < g)
          × (0 < m)
          × AllDivided g ss
          × IsBest g m ss
    go [] h p = elim p [ ]
    go (s ∷ ss) (n, e, hs) p =
        let (g, eg, (k, ek), gs, pg) = weight_gcd_from_lem n ss hs in
        let (m, em, le, most, dm, got) = max_weight_from_lem g n ss (k, ek) gs in
        let (m_pos, got') = top s ss n m e le most got p in
        (
          g,
          m,
          ground (arith, e, eg),
          ground (arith, e, em),
          pg (omega (arith, ap pos_part e)),
          m_pos,
          (k, e ∙ ap pos ek, gs),
          record { largest = (n, e, le, most); multiple = dm; reached = got' },
        )
