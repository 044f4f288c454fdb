-- ===== src/Rebalancer/Tests.antt =====
-- The rebalancer at concrete inputs: a meter is its rating, in tenths, and so is a float.
use oxy.Base.{
  ℕ, ◌≡◌, refl, arith, Bool, true, false, none, some, List, [], ◌∷◌, ◌⊎◌, map, length, ◌==◌,
  if◌then◌else◌,
}
use oxy.Base.Int.{ℤ, pos, negsuc, ◌+ℤ◌, ◌-ℤ◌, ◌*ℤ◌, ◌≤ℤ◌, quot, rem}
use oxy.Base.Int64.{wrap64, add64, sub64, mul64}
use oxy.RoundRobin.{
  Url, Pool, next_server, next_loop, turn, pick, weight_gcd, weight_gcd_from, max_weight,
  max_weight_from, gcd_loop, gcd, same_url, find_from, find_server_by_url, reset_state,
  apply_option, apply_options, insert_server, upsert_server, remove_server, server_weight,
}
use oxy.Anomaly.{median, median_absolute_deviation, split_at, split_float64, has_key}
use oxy.Anomaly.Tenths.{tenths, length-sorted}
use oxy.Rebalancer.{
  Meters, RbServer, Rebalancer, increase, decrease, divide_by, grow, settle, change_each,
  weights_gcd_from, normalize_weights, apply_weights, adjust_with, metrics_ready, write_ratings,
  mark_each, mark_servers, adjust_weights, remove,
}
use oxy.Rebalancer.Adjust.{frame, IsKept}
use oxy.Rebalancer.{RbError, upsert}
use oxy.RoundRobin.{weight}
use oxy.Base.{Option, ◌++◌}
use oxy.Rebalancer.Mirror.{listed, Apart, Mirrors}
use oxy.Rebalancer.Registered.{upsert-Mirrors}
use oxy.Rebalancer.Mirrored.{rebalance_http-Mirrors}
use oxy.Rebalancer.Backoff.{IsSame, adjust_weights-quiet}
use oxy.Rebalancer.Serve.{rebalance_http, rebalance_http-IsKept}
use oxy.Sticky.{Moment, forwarded, serve_http, serve_next}
use oxy.Base.Result.{ok}
use oxy.Rebalancer.Twice.{fresh, put, remove-put_twice}

unfoldable pub program : Unit {0}
unfolding gcd_loop gcd same_url find_from find_server_by_url reset_state apply_option apply_options
    insert_server upsert_server remove_server server_weight median median_absolute_deviation
    split_at split_float64 has_key increase decrease divide_by grow settle change_each
    weights_gcd_from normalize_weights apply_weights adjust_with metrics_ready write_ratings
    mark_each mark_servers adjust_weights ◌+ℤ◌ ◌-ℤ◌ ◌*ℤ◌ quot rem wrap64 add64 sub64 mul64
program = tt

abbrev pub meters : Meters ℕ ℕ
meters = record { rating = λ m. (m, m); observe = λ code latency m. m; is_ready = λ m. true }

abbrev pub url : List ℕ → Url
url l = record {
  scheme = "http";
  host = if length l == 0 then "a" else if length l == 1 then "b" else "c";
  path = "";
  rest = "";
}

abbrev one : List ℕ → ℕ → ℕ → Bool → RbServer ℕ
one l w rating good = record {
  url = url l;
  orig_weight = pos 1;
  cur_weight = pos w;
  good = good;
  meter = rating;
}

abbrev pool : ℕ → ℕ → ℕ → Pool
pool i j k = record {
  index = negsuc 0;
  servers =
      record { url = url []; weight = pos i }
      ∷ record { url = url (0 ∷ []); weight = pos j }
      ∷ record { url = url (0 ∷ 0 ∷ []); weight = pos k }
      ∷ [];
  current_weight = pos 0;
}

-- The third server fails nine requests in ten.
abbrev before : Rebalancer ℕ ℕ
before = record {
  backoff_duration = pos 10;
  timer = pos 3;
  servers = one [] 1 0 false ∷ one (0 ∷ []) 1 0 false ∷ one (0 ∷ 0 ∷ []) 1 9 false ∷ [];
  next = pool 1 1 1;
  ratings = 0 ∷ 0 ∷ 0 ∷ [];
}

abbrev after : Rebalancer ℕ ℕ
after = record {
  backoff_duration = pos 10;
  timer = pos 15;
  servers = one [] 4 0 true ∷ one (0 ∷ []) 4 0 true ∷ one (0 ∷ 0 ∷ []) 1 9 false ∷ [];
  next = pool 4 4 1;
  ratings = 0 ∷ 0 ∷ 9 ∷ [];
}

adjusted : adjust_weights tenths meters (pos 1) (λ i. pos 5) before ≡ some after
unfolding program
adjusted = refl

low : pos 14 ≤ℤ pos 5 +ℤ pos 10
unfolding program
low = omega arith

adjust_weights-quiet_example :
    IsSame tenths meters before after
    ⊎ (adjust_weights tenths meters (pos 1) (λ i. pos 14) after ≡ some after)
adjust_weights-quiet_example =
    adjust_weights-quiet tenths meters (pos 1) (λ i. pos 5) (λ i. pos 14) before adjusted low

abbrev twice : Rebalancer ℕ ℕ
twice = put (pos 1) (pos 10) (pos 0) 0 (url []) 0 (pos 7) 4 (
    put (pos 1) (pos 10) (pos 0) 0 (url []) 0 (pos 6) 3 (fresh (pos 1) (pos 10) (pos 0) 0 (url [])))

remove-put_twice_example :
    ((remove (pos 1) 0 (pos 8) (url []) twice).1 ≡ none)
    × (server_weight (url []) (remove (pos 1) 0 (pos 8) (url []) twice).0.next ≡ (pos 4, true))
remove-put_twice_example =
    remove-put_twice (pos 1) (pos 10) (pos 0) 0 (url []) 0 0 (pos 6) (pos 7) (pos 8) 2 3

abbrev moment : Moment
moment = record { now = pos 0; now' = pos 0; random = [] }

abbrev moved : Pool
moved = record (pool 1 1 1) { index = pos 0; current_weight = pos 1 }

abbrev slow : Url → ℤ × ℤ
slow u = (pos 200, pos 7)

served : serve_http none moment moment (ok none) before.next ≡ some (moved, forwarded (url []) none)
unfolding program serve_http serve_next next_server next_loop turn pick weight_gcd weight_gcd_from
    max_weight max_weight_from
served = refl

rebalance_http-IsKept_example :
    (rb' : Rebalancer ℕ ℕ) × (rebalance_http tenths meters
        (pos 1)
        (λ i. pos 5)
        none
        moment
        moment
        (ok none)
        slow
        before
      ≡ some (rb', forwarded (url []) none))
    × IsKept before.servers rb'
rebalance_http-IsKept_example =
    rebalance_http-IsKept tenths meters length-sorted (pos 1) (λ i. pos 5) none moment moment
      (ok none) slow before (ground arith) refl served

abbrev Mirrored : Rebalancer ℕ ℕ → Type 0
Mirrored rb = Mirrors rb.servers rb.next

before-Mirrored : Mirrored before
unfolding program
before-Mirrored = record { distinct = (refl, (refl, (refl, tt))); weights = λ v. refl }

before-Apart : Apart (map frame before.servers)
unfolding program
before-Apart = (refl, (refl, (refl, tt)))

rebalance_http-Mirrors_example :
    (rb' : Rebalancer ℕ ℕ) × (rebalance_http tenths meters
        (pos 1)
        (λ i. pos 5)
        none
        moment
        moment
        (ok none)
        slow
        before
      ≡ some (rb', forwarded (url []) none))
    × Mirrored rb'
rebalance_http-Mirrors_example =
    rebalance_http-Mirrors tenths meters length-sorted (pos 1) (λ i. pos 5) none moment moment
      (ok none) slow before before-Apart (ground arith) refl served before-Mirrored

abbrev other : Url
other = record { scheme = "http"; host = "d"; path = ""; rest = "" }

not_there : listed other (map frame before.servers) ≡ false
unfolding program
not_there = refl

abbrev added : Rebalancer ℕ ℕ × Option RbError
added = upsert (pos 1) 0 (some 7) (pos 5) (some other) (weight (pos 3) ∷ []) before

upsert-Mirrors_example :
    (added.1 ≡ none)
    × (map frame added.0.servers ≡ map frame before.servers ++ ((other, pos 3) ∷ []))
    × Mirrored added.0
upsert-Mirrors_example =
    upsert-Mirrors (pos 1) 0 7 (pos 5) other (pos 3) before (omega arith, omega arith) not_there
      before-Apart (ground arith) before-Mirrored
