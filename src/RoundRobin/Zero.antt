-- ===== src/RoundRobin/Zero.antt =====
-- `nextServer` over servers that all have weight 0.
use oxy.Base.{◌^◌, ◌<◌, ◌≡◌, refl, arith, List, [], ◌∷◌, ◌∙◌, ap, length, some, inl, inr}
use oxy.Base.Int.{pos, negsuc}
use oxy.RoundRobin.{
  Server, Pool, all_zero, turn, pick, next_loop, next_server, weight_gcd, max_weight,
  weight_gcd_from, max_weight_from, gcd, gcd_loop, reset_state,
}
use oxy.RoundRobin.Search.{at, next_index, lower_level}

abbrev pub AllZero : List Server → Type 0
AllZero [] = Unit
AllZero (s ∷ ss) = (s.weight ≡ pos 0) × AllZero ss

max_weight-zero : (ss : List Server) → AllZero ss → max_weight_from (pos 0) ss ≡ pos 0
unfolding max_weight_from
max_weight-zero [] h = refl
max_weight-zero (s ∷ ss) h = ground (arith, h.0, max_weight-zero ss h.1)

weight_gcd-zero : (ss : List Server) → AllZero ss → weight_gcd_from (pos 0) ss ≡ pos 0
unfolding weight_gcd_from gcd gcd_loop
weight_gcd-zero [] h = refl
weight_gcd-zero (s ∷ ss) h = ground (arith, h.0, weight_gcd-zero ss h.1)

module _ (s t : Server) (ss : List Server) (h : AllZero (s ∷ t ∷ ss)) where
  abbrev servers : List Server
  servers = s ∷ t ∷ ss

  most_zero : max_weight_from (negsuc 0) servers ≡ pos 0
  unfolding max_weight_from
  most_zero = ground (arith, h.0, h.1.0, max_weight-zero ss h.1.1)

  divisor_zero : weight_gcd_from (negsuc 0) servers ≡ pos 0
  unfolding weight_gcd_from gcd gcd_loop
  divisor_zero = ground (arith, h.0, h.1.0, weight_gcd-zero ss h.1.1)

  first_refused :
      length servers < 2 ^ 63 → next_server (at servers 0 0) ≡ some (at servers 1 0, inl all_zero)
  unfolding next_server next_loop turn weight_gcd max_weight
  first_refused small = ground (
    arith,
    most_zero,
    divisor_zero,
    next_index 0 (length servers) (omega arith) small,
    lower_level 0 0 (omega arith) (omega arith),
  )

  second_served :
      length servers < 2 ^ 63 → next_server (at servers 1 0) ≡ some (at servers 2 0, inr t)
  unfolding next_server next_loop turn pick weight_gcd max_weight
  second_served small =
      ground
        (arith, most_zero, divisor_zero, h.1.0, next_index 1 (length servers) (omega arith) small)

-- With two or more servers, all of weight 0, the first call of `nextServer` after a reset fails as it
-- should, and the next call returns the second server all the same.
pub all_zero_served :
    (r : Pool) (s t : Server) (ss : List Server)
    → r.servers ≡ s ∷ t ∷ ss
    → AllZero r.servers
    → length r.servers < 2 ^ 63
    → (r' r'' : Pool) × (next_server (reset_state r) ≡ some (r', inl all_zero))
      × (next_server r' ≡ some (r'', inr t))
unfolding reset_state
all_zero_served r s t ss e h small =
    let zeros : AllZero (s ∷ t ∷ ss) = rw e at h in
    let few : length (s ∷ t ∷ ss) < 2 ^ 63 = rw e at small in
    (
      at (s ∷ t ∷ ss) 1 0,
      at (s ∷ t ∷ ss) 2 0,
      ap (λ l. next_server (at l 0 0)) e ∙ first_refused s t ss zeros few,
      second_served s t ss zeros few,
    )
