-- ===== src/Trace/Tests.antt =====
-- The tracer in front of a handler that answers with a header, a code and two writes.

use oxy.Base.{◌≡◌, refl, ℕ, ◌+◌, ◌∷◌, [], length, some, none, true, if◌then◌else◌}
use oxy.Base.Int.{ℤ, pos, negsuc, eqb_ℤ}
use oxy.Base.Int64.{clamp64, add64, wrap64}
use oxy.Http.{Header, header_set, header_get, values_of}
use oxy.Http.Writer.{
  ResponseWriter, Handler, done, edits, writes, writes_header, run, new_proxy_writer, status_code,
  proxy,
}
use oxy.Http.Proxied.{last_code}
use oxy.Trace.{
  HttpRequest, Record, Tracer, request_headers, response_headers, new_tracer, with_option,
  with_options, hex, unknown, version_to_string, suites, cs_to_string, new_tls, body_bytes,
  header_add, add_all, capture_one, capture_each, capture_headers, new_record, serve_http,
}
use oxy.Trace.Decimal.{parse_int, digits, unsigned}
use oxy.Trace.Captured.{listed, capture_headers-listed}
use oxy.Trace.Traced.{serve_http-transparent}

program : Unit {0}
unfolding with_option with_options new_tracer hex unknown version_to_string suites cs_to_string
    new_tls body_bytes header_add add_all capture_one capture_each capture_headers new_record
    serve_http parse_int digits unsigned header_set header_get values_of run new_proxy_writer
    status_code proxy clamp64 add64 wrap64
program = tt

unknown_version : version_to_string 772 ≡ "unknown: 304"
unfolding program
unknown_version = refl

largest : parse_int "9223372036854775807" ≡ some (pos 9223372036854775807)
unfolding program
largest = refl

too_large : parse_int "9223372036854775808" ≡ none
unfolding program
too_large = refl

least : parse_int "-9223372036854775808" ≡ some (negsuc 9223372036854775807)
unfolding program
least = refl

-- A ResponseWriter that holds its headers, its code and the number of its bytes.
abbrev Held : Type 0
Held = Header × (ℤ × ℕ)

abbrev writer : ResponseWriter Held ℕ
writer = record {
  header = λ s. some s.0;
  edit = λ f s. (f s.0, s.1);
  write = λ buf s. ((s.0, (s.1.0, s.1.1 + length buf)), length buf);
  write_header = λ c s. (s.0, (c, s.1.1));
}

abbrev initial : Held
initial = ([], (pos 0, 0))

abbrev request : HttpRequest
request = record {
  method = "GET";
  url = "http://a/";
  tls = some (record { version = 771; cipher_suite = 49199; did_resume = true; server_name = "a" });
  header = some (("Content-Length", "12" ∷ []) ∷ ("X-A", "1" ∷ "2" ∷ []) ∷ []);
}

abbrev next : HttpRequest → Handler ℕ × HttpRequest
next req = (
  edits (header_set "X-B" "3")
      (writes_header (pos 404) (writes (1 ∷ 2 ∷ 3 ∷ []) (λ n. writes (4 ∷ []) (λ m. done)))),
  req,
)

abbrev tracer : Tracer
tracer = new_tracer (request_headers ("X-A" ∷ "X-A" ∷ []) ∷ response_headers ("X-B" ∷ []) ∷ [])

-- A quotient of numbers stands in for one of float64.
abbrev traced : Held × Record (ℤ × ℤ)
traced =
    serve_http (λ k. k) writer (λ n. (n, pos 1)) (λ p q. (p.0, q.0)) tracer (pos 5) (pos 9) next
      request initial

recorded : traced.1.request.headers ≡ some (("X-A", "1" ∷ "2" ∷ []) ∷ [])
unfolding program
recorded = refl

sized : traced.1.request.body_bytes ≡ pos 12
unfolding program
sized = refl

coded : traced.1.response.code ≡ pos 404
unfolding program
coded = refl

serve_http-transparent_example :
    (traced.0 ≡ run writer (next request).0 initial)
    × (traced.1.response.code ≡ (
        if eqb_ℤ (last_code writer (pos 0) (next request).0 initial) (pos 0)
        then pos 200
        else last_code writer (pos 0) (next request).0 initial))
    × (traced.1.response.headers
        ≡ capture_headers (λ k. k) (writer.header traced.0) tracer.resp_headers)
serve_http-transparent_example =
    serve_http-transparent writer (λ k. k) (λ n. (n, pos 1)) (λ p q. (p.0, q.0)) tracer (pos 5)
      (pos 9) next request initial

abbrev inside : Header
inside = ("Content-Length", "12" ∷ []) ∷ ("X-A", "1" ∷ "2" ∷ []) ∷ []

capture_headers-listed_example :
    (out : Header) × (capture_headers (λ k. k) (some inside) ("X-A" ∷ "X-A" ∷ []) ≡ some out)
    × (values_of "X-A" out
        ≡ (if listed "X-A" ("X-A" ∷ "X-A" ∷ []) then values_of "X-A" inside else []))
capture_headers-listed_example =
    capture_headers-listed (λ k. k) inside "X-A" ("X-A" ∷ []) "X-A" (refl, (refl, tt))
