-- ===== src/Rebalancer/HomeTests.antt =====
-- Servers with the original weights 2 and 4 that fail equally often.
use oxy.Base.{ℕ, ◌+◌, ◌≡◌, ◌≢◌, refl, arith, ap, true, false, some, List, [], ◌∷◌, ◌⊎◌, inr}
use oxy.Base.Int.{ℤ, pos, negsuc, ltb_ℤ, ◌+ℤ◌}
use oxy.RoundRobin.{
  Pool, next_server, next_loop, turn, weight_gcd, weight_gcd_from, max_weight, max_weight_from,
  pick,
}
use oxy.Rebalancer.{RbServer, Rebalancer, apply_weights, adjust_weights}
use oxy.Rebalancer.Converge.{scaled, originals, currents}
use oxy.Rebalancer.Home.{IsCalm, Quiet, begun, picked, waited, adjusted, Quiet-home}
use oxy.Rebalancer.Restless.{IsCalm-restless}
use oxy.Anomaly.Tenths.{tenths}
use oxy.Rebalancer.Tests.{program, meters, url}

abbrev one : List ℕ → ℕ → ℕ → RbServer ℕ
one l orig cur = record {
  url = url l;
  orig_weight = pos orig;
  cur_weight = pos cur;
  good = true;
  meter = 0;
}

abbrev pool : ℕ → ℕ → Pool
pool i j = record {
  index = negsuc 0;
  servers =
      record { url = url []; weight = pos i } ∷ record { url = url (0 ∷ []); weight = pos j } ∷ [];
  current_weight = pos 0;
}

abbrev at : ℤ → ℕ → ℕ → Rebalancer ℕ ℕ
at t i j = record {
  backoff_duration = pos 10;
  timer = t;
  servers = one [] 2 i ∷ one (0 ∷ []) 4 j ∷ [];
  next = pool i j;
  ratings = 0 ∷ 0 ∷ [];
}

abbrev Calm : ℕ → Rebalancer ℕ ℕ → Rebalancer ℕ ℕ → Type 0
Calm t = IsCalm tenths meters (pos 1) (λ i. pos t)

first : Calm 20 (at (pos 0) 16 4) (at (pos 30) 1 1)
unfolding program
first = record {
  marked = at (pos 0) 16 4;
  many = refl;
  ready = refl;
  due = refl;
  alone = refl;
  made = refl;
}

second : Calm 40 (at (pos 30) 1 1) (at (pos 50) 1 2)
unfolding program
second = record {
  marked = at (pos 30) 1 1;
  many = refl;
  ready = refl;
  due = refl;
  alone = refl;
  made = refl;
}

due : (t : ℕ) → ltb_ℤ (pos t) (pos (t + 20)) ≡ true
due t = ground arith

off : (t : ℕ) → pos (t + 20) +ℤ pos 10 ≡ pos (t + 20 + 10)
unfolding program
off t = ground arith

later : (t : ℕ) → Calm (t + 20) (at (pos t) 1 2) (at (pos (t + 20 + 10)) 1 2)
unfolding program
later t = record {
  marked = at (pos t) 1 2;
  many = refl;
  ready = refl;
  due = due t;
  alone = refl;
  made = rw (adjust_weights, due t) (ap (λ w. some (at w 1 2)) (off t));
}

fifth : Quiet tenths meters (pos 1) (at (pos 0) 16 4) 5 (at (pos 140) 1 2)
fifth =
    let q1 = adjusted (λ i. pos 20) begun first in
    let q2 = adjusted (λ i. pos 40) q1 second in
    let q3 = adjusted (λ i. pos 70) q2 (later 50) in
    let q4 = adjusted (λ i. pos 100) q3 (later 80) in adjusted (λ i. pos 130) q4 (later 110)

seventh : Quiet tenths meters (pos 1) (at (pos 0) 16 4) 7 (at (pos 200) 1 2)
seventh = adjusted (λ i. pos 190) (adjusted (λ i. pos 160) fifth (later 140)) (later 170)

rounds : Unit {0}
unfolding next_server next_loop turn weight_gcd weight_gcd_from max_weight max_weight_from pick
rounds = tt

-- After them `NextServer` picks the second server.
abbrev moved : Rebalancer ℕ ℕ
moved = record (at (pos 200) 1 2) {
  next = record (pool 1 2) { index = pos 1; current_weight = pos 2 };
}

picks :
    next_server (pool 1 2) ≡ some (moved.next, inr (record { url = url (0 ∷ []); weight = pos 2 }))
unfolding program rounds
picks = refl

early : ltb_ℤ moved.timer (pos 195) ≡ false
early = ground arith

unmoved : adjust_weights tenths meters (pos 1) (λ i. pos 195) moved ≡ some moved
unfolding program
unmoved = refl

eighth : Quiet tenths meters (pos 1) (at (pos 0) 16 4) 7 moved
eighth = waited (λ i. pos 195) (picked seventh picks) early unmoved

Quiet-home_example :
    (currents moved.servers ≡ originals (at (pos 0) 16 4).servers)
    ⊎ (currents moved.servers ≡ scaled (originals (at (pos 0) 16 4).servers))
Quiet-home_example = Quiet-home tenths meters (pos 1) (ground arith) (omega arith) eighth

apart : scaled (originals (at (pos 50) 1 2).servers) ≢ originals (at (pos 50) 1 2).servers
unfolding program
apart = λ same. ground (arith, same)

halves : currents (at (pos 50) 1 2).servers ≡ scaled (originals (at (pos 50) 1 2).servers)
unfolding program
halves = refl

IsCalm-restless_example :
    (currents (at (pos 80) 1 2).servers ≡ currents (at (pos 50) 1 2).servers)
    × ((at (pos 80) 1 2).timer ≡ pos 70 +ℤ pos 10)
    × ((at (pos 80) 1 2).next
        ≡ apply_weights (pos 1) (at (pos 80) 1 2).servers (at (pos 50) 1 2).next)
IsCalm-restless_example =
    IsCalm-restless tenths meters (pos 1) (λ i. pos 70) (at (pos 50) 1 2) (ground arith) halves
      apart (later 50)
