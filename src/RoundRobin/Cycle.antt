-- ===== src/RoundRobin/Cycle.antt =====
-- A cycle of passes, and each server's share of it.

use native.Mathlib.Nat.{mul-le-mul_right, le_of_mul-le-mul_right}
use oxy.Base.{
  ℕ, zero, suc, ◌+◌, ◌-◌, ◌*◌, ◌^◌, ◌≤◌, ◌<◌, ◌≡◌, ◌≢◌, refl, arith, Bool, true, List, [], ◌∷◌,
  ◌++◌, ◌⊎◌, inl, inr, Bool-cases, ◌∙◌, ap, if◌then◌else◌, leb, leb→le, length, some,
}
use oxy.Base.Int.{pos, pos_part}
use oxy.RoundRobin.{Server, Pool, weight_gcd, max_weight, reset_state}
use oxy.RoundRobin.Gcd.{AllNat, AllDivided, AllAtMost, chosen, sum_weights, weights_lem}
use oxy.RoundRobin.Search.{at, next_level}
use oxy.RoundRobin.Walk.{Walk, stop, Walk-append, IsRunning, Walk-pass}
use oxy.RoundRobin.Calls.{calls, calls-Walk}

-- The servers of a cycle: the passes at the levels `k * g`, down to `g`.
rounds : ℕ → ℕ → List Server → List Server
rounds g zero ss = []
rounds g (suc k) ss = chosen (suc k * g) ss ++ rounds g k ss

cycles : ℕ → List Server → List Server
cycles zero l = []
cycles (suc n) l = l ++ cycles n l

-- How many of the servers pass a test.
unfoldable pub count_if : (Server → Bool) → List Server → ℕ
count_if p [] = 0
count_if p (s ∷ l) = (if p s then 1 else 0) + count_if p l

-- The weights of the servers that pass a test, in all.
unfoldable pub weight_if : (Server → Bool) → List Server → ℕ
weight_if p [] = 0
weight_if p (s ∷ l) = (if p s then pos_part s.weight else 0) + weight_if p l

count_if-append :
    (p : Server → Bool) (l k : List Server) → count_if p (l ++ k) ≡ count_if p l + count_if p k
unfolding count_if
count_if-append p [] k = omega arith
count_if-append p (s ∷ l) k = omega (arith, count_if-append p l k)

level_below : (g m k : ℕ) → 0 < g → next_level g m (suc (suc k) * g) ≡ suc k * g
level_below g m k h =
    let split : suc (suc k) * g ≡ g + (g + k * g) = omega arith in
    let split' : suc k * g ≡ g + k * g = omega arith in ground (arith, split, split')

-- The passes that serve a server of weight `w`, among the lowest `n`.
hits : ℕ → ℕ → ℕ → ℕ
hits g zero w = 0
hits g (suc n) w = (if leb (suc n * g) w then 1 else 0) + hits g n w

times_le : (g n q : ℕ) → 0 < g → leb (n * g) (q * g) ≡ leb n q
times_le g n q h = elim (Bool-cases (leb n q)) [
  | inl le ↦ let below : n * g ≤ q * g = mul-le-mul_right g (leb→le n q le) in ground (arith, le)
  | inr gt ↦
      let above : suc q * g ≤ n * g = mul-le-mul_right g (ground arith) in
      let split : suc q * g ≡ q * g + g = omega arith in ground (arith, gt)
]

hits_lem : (g n q : ℕ) → 0 < g → hits g n (q * g) ≡ (if leb n q then n else q)
unfolding hits
hits_lem g zero q h = ground arith
hits_lem g (suc n) q h = rw (times_le g (suc n) q h, hits_lem g n q h) (ground arith)

count_chosen :
    (p : Server → Bool) (c : ℕ) (s : Server) (ss : List Server)
    → count_if p (chosen c (s ∷ ss))
      ≡ (if p s then (if leb c (pos_part s.weight) then 1 else 0) else 0) + count_if p (chosen c ss)
unfolding count_if
count_chosen p c s ss = ground arith

count_rounds :
    (p : Server → Bool) (g n : ℕ) (s : Server) (ss : List Server)
    → count_if p (rounds g n (s ∷ ss))
      ≡ (if p s then hits g n (pos_part s.weight) else 0) + count_if p (rounds g n ss)
unfolding rounds hits
count_rounds p g zero s ss = ground arith
count_rounds p g (suc n) s ss = ground (
  arith,
  count_if-append p (chosen (suc n * g) (s ∷ ss)) (rounds g n (s ∷ ss)),
  count_if-append p (chosen (suc n * g) ss) (rounds g n ss),
  count_chosen p (suc n * g) s ss,
  count_rounds p g n s ss,
)

count_none : (p : Server → Bool) (g n : ℕ) → count_if p (rounds g n []) ≡ 0
unfolding rounds count_if
count_none p g zero = refl
count_none p g (suc n) = count_none p g n

-- In a cycle a set of servers is served its weight, in units of the divisor.
count_rounds-weight_if :
    (p : Server → Bool) (g n : ℕ) (ss : List Server)
    → 0 < g
    → AllDivided g ss
    → AllAtMost (n * g) ss
    → count_if p (rounds g n ss) * g ≡ weight_if p ss
unfolding weight_if
count_rounds-weight_if p g n [] h d a = rw (count_none p g n) (omega arith)
count_rounds-weight_if p g n (s ∷ ss) h (q, e, d) (w, e', le, a) =
    let value : pos_part s.weight ≡ q * g = ap pos_part e in
    let bound : q * g ≤ n * g = omega (arith, ap pos_part e') in
    let few : q ≤ n = le_of_mul-le-mul_right bound h in
    let all : hits g n (q * g) ≡ q = ground (arith, hits_lem g n q h) in
    let rest = count_rounds-weight_if p g n ss h d a in
    elim (Bool-cases (p s)) [
      | inl in_set ↦ rw (count_rounds, in_set, value, all) (omega (arith, rest))
      | inr out ↦ rw (count_rounds, out) (omega (arith, rest))
    ]

module _ (g m : ℕ) (ss : List Server) (x : IsRunning g m ss) where
  -- The passes below the level `suc k * g`.
  Walk-down :
      (k : ℕ)
      → suc k * g ≤ m
      → (v : ℕ) × Walk
          (pos g)
          (pos m)
          v
          (at ss (length ss) (suc k * g))
          (rounds g k ss)
          (at ss (length ss) g)
  unfolding rounds
  Walk-down zero h = let one : 1 * g ≡ g = omega arith in (0, rw one stop)
  Walk-down (suc k) h =
      let (v, w) = Walk-down k (omega arith) in
      let pass = Walk-pass g m ss x (length ss) (suc (suc k) * g) (inr refl) h in
      let lower = level_below g m k x.divisor_pos in
      (length ss + v, Walk-append (rw lower at pass) w)

  -- A cycle, from the first position at a level of at most `g`.
  Walk-cycle :
      (j c n : ℕ)
      → (j ≡ 0) ⊎ (j ≡ length ss)
      → c ≤ g
      → m ≡ suc n * g
      → (v : ℕ) × Walk (pos g) (pos m) v (at ss j c) (rounds g (suc n) ss) (at ss (length ss) g)
  unfolding rounds
  Walk-cycle j c n h hc e =
      let (v, w) = Walk-down n (omega (arith, e)) in
      let pass = Walk-pass g m ss x j c h (omega (arith, x.divisor_le)) in
      let top : next_level g m c ≡ suc n * g = ground (arith, e) in
      (length ss + v, Walk-append (rw top at pass) w)

  Walk-cycles :
      (i j c n : ℕ)
      → (j ≡ 0) ⊎ (j ≡ length ss)
      → c ≤ g
      → m ≡ suc n * g
      → (v : ℕ) × (e : Pool) × Walk (pos g) (pos m) v (at ss j c) (cycles i (rounds g (suc n) ss)) e
  unfolding cycles
  Walk-cycles zero j c n h hc e = (0, at ss j c, stop)
  Walk-cycles (suc i) j c n h hc e =
      let (v, w) = Walk-cycle j c n h hc e in
      let (u, end, w') = Walk-cycles i (length ss) g n (inr refl) (omega arith) e in
      (v + u, end, Walk-append w w')

count_cycles :
    (p : Server → Bool) (i : ℕ) (l : List Server) → count_if p (cycles i l) ≡ i * count_if p l
unfolding cycles count_if
count_cycles p zero l = omega arith
count_cycles p (suc i) l = rw (count_if-append) (omega (arith, count_cycles p i l))

length-count_if : (l : List Server) → length l ≡ count_if (λ _. true) l
unfolding count_if
length-count_if [] = refl
length-count_if (s ∷ l) = omega (arith, length-count_if l)

weight_if-sum : (ss : List Server) → weight_if (λ _. true) ss ≡ sum_weights ss
unfolding weight_if
weight_if-sum [] = refl
weight_if-sum (s ∷ ss) = omega (arith, weight_if-sum ss)

cycle_share : (i c g w : ℕ) → c * g ≡ w → i * c * g ≡ i * w
cycle_share i c g w h = let scaled = ap (λ (n : ℕ). i * n) h in omega (arith, scaled)

multiple_pos : (m k g : ℕ) → m ≡ k * g → 0 < m → suc (k - 1) ≡ k
multiple_pos m zero g e h = absurd (omega arith)
multiple_pos m (suc k) g e h = omega arith

multiple_le : (m k g : ℕ) → m ≡ k * g → 0 < m → g ≤ m
multiple_le m zero g e h = absurd (omega arith)
multiple_le m (suc k) g e h = let split : suc k * g ≡ g + k * g = omega arith in omega arith

reached_le : (m b : ℕ) (ss : List Server) → chosen m ss ≢ [] → AllAtMost b ss → m ≤ b
reached_le m b [] h a = absurd (h refl)
reached_le m b (s ∷ ss) h (w, e, le, a) = elim (Bool-cases (leb m (pos_part s.weight))) [
  | inl here ↦ omega (arith, leb→le m (pos_part s.weight) here, ap pos_part e)
  | inr not_here ↦ reached_le m b ss (rw not_here at h) a
]

sum_inhabited : (ss : List Server) → 0 < sum_weights ss → 0 < length ss
sum_inhabited [] h = h
sum_inhabited (s ∷ ss) h = omega arith

-- Weighted round robin is exact. Let the weights be natural and not all 0, the largest one and the
-- number of servers below 2^63, and the pool freshly reset. Then `weightGcd` is some g > 0, and after
-- `i` rounds, which are n calls of `nextServer` with n times g equal to `i` times the sum of the
-- weights, every call has returned a server, and each set of servers (given by a test `p`) has been
-- returned so many times that this number times g is `i` times the weight of the set.
pub calls_fair :
    (r : Pool) (i : ℕ)
    → AllNat r.servers
    → 0 < sum_weights r.servers
    → AllAtMost (2 ^ 63 - 1) r.servers
    → length r.servers < 2 ^ 63
    → (g : ℕ) × (n : ℕ) × (l : List Server) × (e : Pool) × (weight_gcd r ≡ pos g)
      × (0 < g)
      × (n * g ≡ i * sum_weights r.servers)
      × (calls n (reset_state r) ≡ some (l, e))
      × ((p : Server → Bool) → count_if p l * g ≡ i * weight_if p r.servers)
unfolding reset_state weight_gcd max_weight
calls_fair r i natural some_weight bounded few =
    let ss = r.servers in
    let (g, m, eg, em, g_pos, m_pos, divided, best) = weights_lem r natural some_weight in
    let (k, ek) = best.multiple in
    let k_pos : suc (k - 1) ≡ k = multiple_pos m k g ek m_pos in
    let rounds_of : m ≡ suc (k - 1) * g = rw k_pos ek in
    let x : IsRunning g m ss = record {
      natural = natural;
      best = best;
      divisor_pos = g_pos;
      most_pos = m_pos;
      divisor_le = multiple_le m k g ek m_pos;
      most_small =
          omega (arith, reached_le m (2 ^ 63 - 1) ss (best.reached m (omega arith)) bounded);
      length_small = few;
      inhabited = sum_inhabited ss some_weight;
    } in
    let (v, e, w) = Walk-cycles g m ss x i 0 0 (k - 1) (inl refl) (omega arith) rounds_of in
    let l = cycles i (rounds g (suc (k - 1)) ss) in
    let (e', done) =
      calls-Walk g m ss x eg em l (0, 0, refl, omega arith, omega arith, inl refl) w in
    let share : (p : Server → Bool) → count_if p l * g ≡ i * weight_if p ss = λ p.
      let one =
        count_rounds-weight_if p g (suc (k - 1)) ss g_pos divided (rw (← rounds_of) best.largest) in
      rw (count_cycles p i (rounds g (suc (k - 1)) ss))
        (cycle_share i (count_if p (rounds g (suc (k - 1)) ss)) g (weight_if p ss) one) in
    let total : length l * g ≡ i * sum_weights ss =
      rw (length-count_if l) (share (λ _. true) ∙ ap (λ (n : ℕ). i * n) (weight_if-sum ss)) in
    (g, length l, l, e', eg, g_pos, total, done, share)
