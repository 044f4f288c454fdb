-- ===== src/Buffer/Tests.antt =====
-- Retries and operators at concrete inputs.
use oxy.Base.{ℕ, ◌≤◌, ◌≡◌, refl, true, false, none, some, List, [], ◌∷◌, length, ◌⊎◌}
use oxy.Base.Int.{ℤ, pos, negsuc, ◌+ℤ◌, eqb_ℤ, leb_ℤ}
use oxy.Base.Int64.{add64, wrap64}
use oxy.Base.Result.{ok}
use oxy.Http.{header_get, copy_headers, values_of}
use oxy.Buffer.Predicates.{Context, HPredicate, is_network_error, and_all}
use oxy.Buffer.{
  BufferError, Buffer, Request, Reply, Backend, Ending, handled_error, answered, is_final,
  expect_body, copy_request, decide, turn, attempts_loop, check_limit, serve,
}
use oxy.Buffer.Attempts.{IsRefused, IsRun, held_body, serve-IsRun}

program : Unit {0}
unfolding header_get copy_headers values_of is_network_error and_all is_final expect_body
    copy_request decide turn attempts_loop check_limit serve add64 wrap64 ◌+ℤ◌
program = tt

-- `IsNetworkError() && Attempts() <= 2`
abbrev retry : HPredicate
retry = and_all (is_network_error ∷ (λ c. leb_ℤ c.attempt (pos 2)) ∷ [])

abbrev buffer : Buffer
buffer = record { max_request_body_bytes = pos 10; retry_predicate = some retry }

abbrev reply : ℕ → Reply
reply code = record {
  code = pos code;
  headers = [];
  content = 7 ∷ [];
  hijacked = false;
  read_to = 2;
}

-- The first answer is 502, the others are 200.
abbrev backend : Backend
backend = record {
  next = λ n r. elim (eqb_ℤ n (pos 1)) [ true ↦ reply 502 | false ↦ reply 200 ];
  client_headers = [];
  read_body = λ l. ok (some l);
  cancelled = none;
  size = λ l. ok (pos (length l));
  new_writer = λ n. none;
  reader = λ n. none;
  seek = λ n. none;
}

abbrev request : Request
request = record {
  method = "POST";
  headers = ("Accept", "a" ∷ []) ∷ [];
  content_length = negsuc 0;
  transfer_encoding = "chunked" ∷ [];
  body = 1 ∷ 2 ∷ [];
  offset = 0;
}

abbrev sent : Request
sent = record request { content_length = pos 2; transfer_encoding = [] }

served_twice :
    serve buffer backend request
    ≡ some ((pos 1, sent) ∷ (pos 2, sent) ∷ [], answered (pos 200) [] (some (7 ∷ [])))
unfolding program
served_twice = refl

abbrev second_attempt : Context
second_attempt = record { method = "GET"; attempt = pos 2; response_code = pos 502 }

serve-IsRun_example :
    (l : List (ℤ × Request)) × (e : Ending) × (serve buffer backend request ≡ some (l, e))
    × (length l ≤ 11)
    × (((l ≡ []) × (f : BufferError) × (e ≡ handled_error f) × IsRefused buffer backend request f)
        ⊎ ((check_limit buffer request ≡ none)
            × (content : List ℕ) × (total_size : ℤ) × (backend.read_body request.body
                ≡ ok (some content))
            × (backend.size content ≡ ok total_size)
            × IsRun buffer backend request (held_body content total_size) total_size 1 l e))
serve-IsRun_example = serve-IsRun buffer backend request
