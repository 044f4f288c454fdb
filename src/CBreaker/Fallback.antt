-- ===== src/CBreaker/Fallback.antt =====
-- cbreaker/fallback.go: what answers a request while the breaker is tripped.
use Prim.Native.String as S
use Prim.Native.String.{String, slice}
use text.Mathlib.Text.{◌==◌ as str_eq}
use oxy.Base.{ℕ, zero, suc, ◌+◌, ◌/◌, ◌%◌, ltb, Bool, if◌then◌else◌, List, [], ◌∷◌, length}
use oxy.Base.Int.{ℤ, pos}
use oxy.Http.{header_set}
use oxy.Http.Writer.{Handler, done, edits, writes, writes_header}

-- `strconv.Itoa` of a natural number below 10 to the power of the fuel.
unfoldable pub itoa : ℕ → ℕ → String
itoa zero n = ""
itoa (suc f) n =
    let before = itoa f (n / 10) in
    S.◌++◌ (if ltb n 10 then "" else before) (slice "0123456789" (n % 10) (n % 10 + 1))

-- `Response`
pub record Response : Type 0 where
  pub status_code : ℤ
  pub content_type : String
  pub body : List ℕ

-- `ServeHTTP` of `ResponseFallback`; a length below 2^63 has at most nineteen digits.
unfoldable pub response_fallback : {R : Type 0} → Response → Handler R
response_fallback r =
    let rest =
      edits (header_set "Content-Length" (itoa 19 (length r.body)))
        (writes_header r.status_code (writes r.body (λ n. done))) in
    if str_eq r.content_type "" then rest else edits (header_set "Content-Type" r.content_type) rest

-- `ServeHTTP` of `RedirectFallback` for a request with a path; `location` is the text of its URL, and the
-- body is the text `Found`.
unfoldable pub redirect_fallback : {R : Type 0} → String → Bool → String → Handler R
redirect_fallback location preserve_path path =
    edits (header_set "Location" (if preserve_path then S.◌++◌ location path else location))
      (writes_header (pos 302) (writes (70 ∷ 111 ∷ 117 ∷ 110 ∷ 100 ∷ []) (λ n. done)))
