-- ===== src/ConnLimit.antt =====
-- connlimit/connlimit.go: a limit on the connections of each source. A map entry that is missing
-- reads as 0, and int64 wraps around. The mutex makes `acquire` and `release` single steps.
pub mod Flow
mod Tests
use Prim.Native.String.{String}
use oxy.Base.{ℕ, Bool, true, false, Option, none, some, if◌then◌else◌, List, [], ◌∷◌}
use oxy.Base.Int.{ℤ, pos, leb_ℤ, eqb_ℤ}
use oxy.Base.Int64.{add64, sub64}
use oxy.Base.Assoc.{lookup, insert, erase, string_eq}

-- The fields of `ConnLimiter` that `acquire` and `release` use.
pub record ConnLimiter : Type 0 where
  pub connections : List (String × ℤ)
  pub max_connections : ℤ
  pub total_connections : ℤ

-- `MaxConnError`
pub record MaxConnError : Type 0 where
  pub max : ℤ

-- `cl.connections[token]`
unfoldable pub count_of : String → ConnLimiter → ℤ
count_of token cl = elim (lookup token cl.connections) [ none ↦ pos 0 | some n ↦ n ]

-- `acquire`
unfoldable pub acquire : String → ℤ → ConnLimiter → ConnLimiter × Option MaxConnError
acquire token amount cl =
    let connections = count_of token cl in
    if leb_ℤ cl.max_connections connections
    then (cl, some (record { max = cl.max_connections }))
    else (
      record cl {
        connections = insert token (add64 connections amount) cl.connections;
        total_connections = add64 cl.total_connections amount;
      },
      none,
    )

-- `release`
unfoldable pub release : String → ℤ → ConnLimiter → ConnLimiter
release token amount cl =
    let less = sub64 (count_of token cl) amount in
    let lowered = record cl {
      connections = insert token less cl.connections;
      total_connections = sub64 cl.total_connections amount;
    } in
    if eqb_ℤ less (pos 0)
    then record lowered { connections = erase token lowered.connections }
    else lowered

-- What `ServeHTTP` does with a request, up to the call of the next handler.
pub data Answer (E : Type 0) : Type 0 where
  bad_source : E → Answer E
  too_many : MaxConnError → Answer E
  forwarded : String → ℤ → Answer E

-- The first part of `ServeHTTP`. `extracted` is what the source extractor, a parameter of the limiter,
-- returns for the request: an error, or a source and an amount.
unfoldable pub serve_begin :
    {E : Type 0} → Option E → String → ℤ → ConnLimiter → ConnLimiter × Answer E
serve_begin (some err) token amount cl = (cl, bad_source err)
serve_begin none token amount cl =
    let (cl', err) = acquire token amount cl in
    elim err [ some e ↦ (cl', too_many e) | none ↦ (cl', forwarded token amount) ]

-- The deferred `release`, when the next handler has returned.
unfoldable pub serve_end : {E : Type 0} → Answer E → ConnLimiter → ConnLimiter
serve_end (bad_source err) cl = cl
serve_end (too_many e) cl = cl
serve_end (forwarded token amount) cl = release token amount cl
