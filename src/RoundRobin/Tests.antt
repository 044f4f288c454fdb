-- ===== src/RoundRobin/Tests.antt =====
-- The balancer at concrete inputs.
use oxy.Base.{
  ℕ, ◌*◌, ◌<◌, ◌≡◌, ◌≢◌, refl, arith, Bool, none, some, List, [], ◌∷◌, ◌⊎◌, inl, inr, if◌then◌else◌,
}
use oxy.Base.Int.{pos, ◌+ℤ◌, ◌-ℤ◌, rem}
use oxy.Base.Int64.{wrap64, add64, sub64}
use oxy.RoundRobin.{
  Url, Server, Pool, all_zero, server_not_found, gcd_loop, gcd, weight_gcd_from, weight_gcd,
  max_weight_from, max_weight, pick, turn, next_loop, next_server, same_url, find_from,
  find_server_by_url, reset_state, remove_server, weight, apply_option, apply_options,
  insert_server, upsert_server,
}
use oxy.RoundRobin.Gcd.{sum_weights}
use oxy.RoundRobin.Calls.{calls}
use oxy.RoundRobin.Cycle.{calls_fair, count_if, weight_if}
use oxy.RoundRobin.Zero.{all_zero_served}
use oxy.RoundRobin.Registry.{Rewrites, weight_of, upsert_server-Rewrites, remove_server-Rewrites}

program : Unit {0}
unfolding gcd_loop gcd weight_gcd_from weight_gcd max_weight_from max_weight pick turn next_loop
    next_server same_url find_from find_server_by_url reset_state remove_server apply_option
    apply_options insert_server upsert_server ◌+ℤ◌ ◌-ℤ◌ rem wrap64 add64 sub64 calls
program = tt

abbrev a : Url
a = record { scheme = "http"; host = "a"; path = ""; rest = "" }

abbrev b : Url
b = record { scheme = "http"; host = "b"; path = ""; rest = "" }

abbrev c : Url
c = record { scheme = "http"; host = "c"; path = ""; rest = "" }

abbrev sa : Server
sa = record { url = a; weight = pos 4 }

abbrev sb : Server
sb = record { url = b; weight = pos 2 }

abbrev sc : Server
sc = record { url = c; weight = pos 0 }

abbrev three : Pool
three = record { index = pos 1; servers = sa ∷ sb ∷ sc ∷ []; current_weight = pos 2 }

-- A round of three calls, twice: a twice and b once.
two_rounds :
    calls 6 (reset_state three)
    ≡ some
        (sa ∷ sa ∷ sb ∷ sa ∷ sa ∷ sb ∷ [], record three { index = pos 1; current_weight = pos 2 })
unfolding program
two_rounds = refl

calls_fair_example :
    (g : ℕ) × (n : ℕ) × (l : List Server) × (e : Pool) × (weight_gcd three ≡ pos g)
    × (0 < g)
    × (n * g ≡ 5 * sum_weights three.servers)
    × (calls n (reset_state three) ≡ some (l, e))
    × ((p : Server → Bool) → count_if p l * g ≡ 5 * weight_if p three.servers)
calls_fair_example =
    calls_fair three 5 (4, refl, (2, refl, (0, refl, tt))) (omega arith)
      (4, refl, omega arith, (2, refl, omega arith, (0, refl, omega arith, tt))) (omega arith)

abbrev zeros : Pool
zeros = record {
  index = pos 0;
  servers = record sa { weight = pos 0 } ∷ sc ∷ [];
  current_weight = pos 1;
}

all_zero_served_example :
    (r' r'' : Pool) × (next_server (reset_state zeros) ≡ some (r', inl all_zero))
    × (next_server r' ≡ some (r'', inr sc))
all_zero_served_example =
    all_zero_served zeros (record sa { weight = pos 0 }) sc [] refl (refl, (refl, tt)) (omega arith)

upsert_server-Rewrites_example :
    let (r', err) = upsert_server (pos 1) (some b) (weight (pos 9) ∷ []) three in
    (err ≡ none)
    × Rewrites r' (λ v. if same_url v b then some (pos 9) else weight_of v three.servers)
unfolding program
upsert_server-Rewrites_example =
    upsert_server-Rewrites (pos 1) b (pos 9) three (refl, (refl, (refl, tt))) (omega arith)

remove_server-Rewrites_example :
    let (r', err) = remove_server b three in
    ((weight_of b three.servers ≡ none) × ((err ≡ some server_not_found) × (r' ≡ three)))
    ⊎ ((weight_of b three.servers ≢ none)
        × (err ≡ none)
        × Rewrites r' (λ v. if same_url v b then none else weight_of v three.servers))
unfolding program
remove_server-Rewrites_example = remove_server-Rewrites b three (refl, (refl, (refl, tt)))
