-- ===== src/CBreaker/ServeTests.antt =====
-- A tripped breaker with a response fallback, at a concrete request.
use oxy.Base.{ℕ, ◌+◌, ◌≡◌, refl, ◌∷◌, [], length, some, none}
use oxy.Base.Int.{ℤ, pos}
use oxy.Http.Writer.{ResponseWriter, Handler, done, writes, run}
use oxy.CBreaker.{Breaker, tripped}
use oxy.CBreaker.Safe.{IsSafe}
use oxy.CBreaker.Fallback.{itoa, response_fallback}
use oxy.CBreaker.Serve.{serve_http, IsOnce, serve_http-IsOnce}
use oxy.CBreaker.Tests.{program, fractions, condition, emptied, at, down}

-- A ResponseWriter that holds its code and the number of its bytes.
abbrev writer : ResponseWriter (ℤ × ℕ) ℕ
writer = record {
  header = λ s. none;
  edit = λ f s. s;
  write = λ buf s. ((s.0, s.1 + length buf), length buf);
  write_header = λ c s. (c, s.1);
}

abbrev fallback : Handler ℕ
fallback =
    response_fallback (record { status_code = pos 503; content_type = ""; body = 1 ∷ 2 ∷ [] })

abbrev next : Handler ℕ
next = writes (1 ∷ []) (λ n. done)

abbrev same : Breaker ℕ → Breaker ℕ
same c = c

abbrev measure : ℤ → ℤ → ℕ → ℕ
measure code latency n = n + 1

hundred : itoa 19 105 ≡ "105"
unfolding itoa
hundred = refl

fallen_back : run writer fallback (pos 0, 0) ≡ (pos 503, 2)
unfolding run response_fallback itoa
fallen_back = refl

tripped-IsSafe : IsSafe fractions condition emptied down
unfolding program
tripped-IsSafe = tt

serve_http-IsOnce_example :
    (d : Breaker ℕ) × (w' : ℤ × ℕ) × (serve_http fractions condition emptied writer measure same
        same same tripped
        (at 8)
        (pos 8)
        (pos 9)
        (pos 9)
        (at 9)
        fallback
        next
        (pos 0, 0)
        down
      ≡ some (d, w'))
    × IsOnce fractions condition emptied writer measure same same same
        (pos 8)
        (pos 9)
        (pos 9)
        (at 9)
        fallback
        next
        (pos 0, 0)
        down
        d
        w'
serve_http-IsOnce_example =
    serve_http-IsOnce fractions condition emptied writer measure same same same (pos 8) (pos 9)
      (pos 9) (at 9) fallback next (pos 0, 0) tripped (at 8) down tripped-IsSafe
