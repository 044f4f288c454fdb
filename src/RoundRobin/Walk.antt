-- ===== src/RoundRobin/Walk.antt =====
-- Walks of the loop of `nextServer`: what a pass over the servers serves.
use oxy.Base.{
  ℕ, zero, suc, ◌+◌, ◌-◌, ◌^◌, ◌≤◌, ◌<◌, ◌≡◌, refl, arith, List, [], ◌∷◌, ◌++◌, ◌⊎◌, inl, inr,
  Bool-cases, ◌∙◌, sym, ap, if◌then◌else◌, leb, length, get_elem?, drop, some,
}
use mathlib.Core.Path.{subst, subst₂}
use oxy.Base.Int.{ℤ, pos, pos_part}
use oxy.RoundRobin.{Server, Pool, Turn, turn, again, served, pick}
use native.Mathlib.Decide.{ℕ_discrete}
use oxy.RoundRobin.Search.{at, next_level, turn_inside, turn_first, get_drop, drop_all}
use oxy.RoundRobin.Gcd.{AllNat, chosen, IsBest}

-- `v` turns that end in no error, the servers that they serve and the pool that they leave.
pub data Walk (d m : ℤ) : ℕ → Pool → List Server → Pool → Type 0 where
  stop : {r : Pool} → Walk d m zero r [] r
  skip :
      {v : ℕ} {r r' e : Pool} {l : List Server}
      → turn d m r ≡ again r'
      → Walk d m v r' l e
      → Walk d m (suc v) r l e
  serve :
      {v : ℕ} {r r' e : Pool} {l : List Server} {s : Server}
      → turn d m r ≡ served r' s
      → Walk d m v r' l e
      → Walk d m (suc v) r (s ∷ l) e

pub Walk-append :
    {d m : ℤ} {u v : ℕ} {r r' e : Pool} {l k : List Server}
    → Walk d m u r l r'
    → Walk d m v r' k e
    → Walk d m (u + v) r (l ++ k) e
Walk-append {d} {m} {v = v} {r} {e = e} {k = k} stop w =
    let same : v ≡ 0 + v = omega arith in subst (λ n. Walk d m n r k e) same w
Walk-append {d} {m} {u = suc u} {v} {r} {e = e} {l = l} {k = k} (skip t w') w =
    let same : suc (u + v) ≡ suc u + v = omega arith in
    subst (λ n. Walk d m n r (l ++ k) e) same (skip t (Walk-append w' w))
Walk-append {d} {m} {u = suc u} {v} {r} {e = e} {l = s ∷ l} {k = k} (serve t w') w =
    let same : suc (u + v) ≡ suc u + v = omega arith in
    subst (λ n. Walk d m n r (s ∷ l ++ k) e) same (serve t (Walk-append w' w))

-- The server at hand is served if its weight reaches the level.
abbrev pub choice : ℕ → Server → Pool → Turn
choice c s r = if leb c (pos_part s.weight) then served r s else again r

abbrev picked : ℕ → Server → List Server → List Server
picked c s l = if leb c (pos_part s.weight) then s ∷ l else l

Walk-choice :
    {d m : ℤ} (c : ℕ) (s : Server) {v : ℕ} {r r' e : Pool} {l : List Server}
    → turn d m r ≡ choice c s r'
    → Walk d m v r' l e
    → Walk d m (suc v) r (picked c s l) e
Walk-choice {d} {m} c s {v} {r} {r'} {e} {l} t w = elim (Bool-cases (leb c (pos_part s.weight))) [
  | inl reached ↦ rw reached (serve (rw reached at t) w)
  | inr short ↦ rw short (skip (rw short at t) w)
]

nat_at :
    (ss : List Server) (i : ℕ) {s : Server}
    → AllNat ss
    → get_elem? ss i ≡ some s
    → (n : ℕ) × (s.weight ≡ pos n)
nat_at [] i h e = cc
nat_at (x ∷ ss) zero h e = (h.0, ground (arith, h.1))
nat_at (x ∷ ss) (suc i) h e = nat_at ss i h.2 e

pub pick-choice :
    (ss : List Server) (i c : ℕ) {s : Server}
    → AllNat ss
    → get_elem? ss i ≡ some s
    → pick (at ss (suc i) c) ≡ choice c s (at ss (suc i) c)
unfolding pick
pick-choice ss i c h e = let (n, w) = nat_at ss i h e in ground (arith, e, w)

pub next_level_bounds :
    (g m c : ℕ) → 0 < m → c ≤ m → (next_level g m c ≤ m) × (1 ≤ next_level g m c)
next_level_bounds g m c hm hc = ground arith

-- The setting of a search: natural weights, the divisor and the largest weight, and no overflow.
pub record IsRunning (g m : ℕ) (ss : List Server) : Type 0 where
  pub natural : AllNat ss
  pub best : IsBest g m ss
  pub divisor_pos : 0 < g
  pub most_pos : 0 < m
  pub divisor_le : g ≤ m
  pub most_small : m < 2 ^ 63
  pub length_small : length ss < 2 ^ 63
  pub inhabited : 0 < length ss

module _ (g m : ℕ) (ss : List Server) (x : IsRunning g m ss) where
  -- The rest of a pass.
  pub Walk-rest :
      (v i c : ℕ)
      → suc i + v ≡ length ss
      → Walk (pos g) (pos m) v (at ss (suc i) c) (chosen c (drop (suc i) ss)) (at ss (length ss) c)
  Walk-rest zero i c e =
      let same : suc i ≡ length ss = omega arith in
      let none_left : drop (suc i) ss ≡ [] = rw same (drop_all ss) in rw (none_left, ← same) stop
  Walk-rest (suc v) i c e =
      let (s, found, split) = get_drop ss (suc i) (omega arith) in
      let t =
        turn_inside g m ss i c (omega arith) x.length_small
        ∙ pick-choice ss (suc i) c x.natural found in
      rw split (Walk-choice c s t (Walk-rest v (suc i) c (omega arith)))

  -- A whole pass, from its first position: it serves the servers whose weights reach its level.
  pub Walk-pass :
      (j c : ℕ)
      → (j ≡ 0) ⊎ (j ≡ length ss)
      → c ≤ m
      → Walk
          (pos g)
          (pos m)
          (length ss)
          (at ss j c)
          (chosen (next_level g m c) ss)
          (at ss (length ss) (next_level g m c))
  Walk-pass j c h hc =
      let c' = next_level g m c in
      let (s, found, split) = get_drop ss 0 x.inhabited in
      let small_c : c < 2 ^ 63 = omega (arith, x.most_small) in
      let small_g : g < 2 ^ 63 = omega (arith, x.divisor_le, x.most_small) in
      let t =
        turn_first g m ss j c h x.inhabited x.length_small small_c small_g x.most_pos
        ∙ pick-choice ss 0 c' x.natural found in
      let count : suc (length ss - 1) ≡ length ss = omega (arith, x.inhabited) in
      let w = Walk-choice c' s t (Walk-rest (length ss - 1) 0 c' (omega (arith, x.inhabited))) in
      let same : picked c' s (chosen c' (drop 1 ss)) ≡ chosen c' ss = ap (chosen c') (sym split) in
      subst₂ (λ n l. Walk (pos g) (pos m) n (at ss j c) l (at ss (length ss) c')) count same w

  -- A pool as the calls of `nextServer` leave it.
  abbrev pub IsValid : Pool → Type 0
  IsValid r = (j c : ℕ) × (r ≡ at ss j c) × (j ≤ length ss) × (c ≤ m) × ((j ≡ 0) ⊎ (1 ≤ c))

  pub turn-IsValid :
      {r : Pool}
      → IsValid r
      → (r' : Pool) × (c : ℕ) × (s : Server) × IsValid r' × (turn (pos g) (pos m) r ≡ choice c s r')
  turn-IsValid (j, c, e, hj, hc, start) = elim (ℕ_discrete j (length ss)) [
    | yes last ↦ first j c e (inr last) hc
    | no inner ↦ inside j c e start (omega arith) hc
  ]
    where
      first :
          (j c : ℕ) {r : Pool}
          → r ≡ at ss j c
          → (j ≡ 0) ⊎ (j ≡ length ss)
          → c ≤ m
          → (r' : Pool) × (c : ℕ) × (s : Server) × IsValid r'
            × (turn (pos g) (pos m) r ≡ choice c s r')
      first j c e h hc =
          let c' = next_level g m c in
          let (s, found, split) = get_drop ss 0 x.inhabited in
          let small_c : c < 2 ^ 63 = omega (arith, x.most_small) in
          let small_g : g < 2 ^ 63 = omega (arith, x.divisor_le, x.most_small) in
          let t =
            turn_first g m ss j c h x.inhabited x.length_small small_c small_g x.most_pos
            ∙ pick-choice ss 0 c' x.natural found in
          let (le, pos') = next_level_bounds g m c x.most_pos hc in
          (at ss 1 c', c', s, (1, c', refl, x.inhabited, le, inr pos'), rw e t)

      inside :
          (j c : ℕ) {r : Pool}
          → r ≡ at ss j c
          → (j ≡ 0) ⊎ (1 ≤ c)
          → j < length ss
          → c ≤ m
          → (r' : Pool) × (c : ℕ) × (s : Server) × IsValid r'
            × (turn (pos g) (pos m) r ≡ choice c s r')
      inside zero c e start h hc = first zero c e (inl refl) hc
      inside (suc i) c e start h hc =
          let (s, found, split) = get_drop ss (suc i) h in
          let t =
            turn_inside g m ss i c h x.length_small ∙ pick-choice ss (suc i) c x.natural found in
          let positive : 1 ≤ c = omega arith in
          (
            at ss (suc (suc i)) c,
            c,
            s,
            (suc (suc i), c, refl, omega arith, hc, inr positive),
            rw e t,
          )

  pub Walk-IsValid :
      {v : ℕ} {r e : Pool} {l : List Server} → IsValid r → Walk (pos g) (pos m) v r l e → IsValid e
  Walk-IsValid h stop = h
  Walk-IsValid h (skip {r' = r₁} t w) =
      let (r', c, s, ok, t') = turn-IsValid h in
      let same : r' ≡ r₁ = ground arith in Walk-IsValid (subst IsValid same ok) w
  Walk-IsValid h (serve {r' = r₁} t w) =
      let (r', c, s, ok, t') = turn-IsValid h in
      let same : r' ≡ r₁ = ground arith in Walk-IsValid (subst IsValid same ok) w
