-- ===== src/Buffer.antt =====
-- buffer/buffer.go: requests and responses are held in full, and a request may be sent again. The
-- package multibuf, the next handler and the client are parameters: `Backend` has what they answer.
pub mod Predicates
pub mod Compare
pub mod Attempts
mod Tests
use Prim.Native.String.{String}
use text.Mathlib.Text.{◌==◌ as str_eq}
use oxy.Base.{
  ℕ, zero, suc, Bool, true, false, not, ◌&&◌, ◌||◌, Option, none, some, if◌then◌else◌, List, [],
  ◌∷◌, ◌++◌,
}
use oxy.Base.Int.{ℤ, pos, ltb_ℤ, leb_ℤ, eqb_ℤ}
use oxy.Base.Int64.{add64}
use oxy.Base.Result.{Result, err, ok}
use oxy.Http.{Header, header_get, copy_headers}
use oxy.Buffer.Predicates.{Context, HPredicate}

-- What an error handler is called with: an error of the limit check, of multibuf, or of the context.
pub data BufferError : Type 0 where
  max_size_reached : ℤ → BufferError
  multibuf_error : String → BufferError
  context_error : String → BufferError
  nil_error : BufferError

-- The limits and the retry predicate of `Buffer`.
pub record Buffer : Type 0 where
  pub max_request_body_bytes : ℤ
  pub retry_predicate : Option HPredicate

-- The parts of `http.Request` that are copied or changed. `offset` is the position in the body.
pub record Request : Type 0 where
  pub method : String
  pub headers : Header
  pub content_length : ℤ
  pub transfer_encoding : List String
  pub body : List ℕ
  pub offset : ℕ

-- What `bufferWriter` holds when the next handler has returned, and how far the handler has read.
pub record Reply : Type 0 where
  pub code : ℤ
  pub headers : Header
  pub content : List ℕ
  pub hijacked : Bool
  pub read_to : ℕ

-- `next` is the next handler at each attempt, and `client_headers` what the client's writer has. The other fields are multibuf and the context: the body and
-- its size, and the errors that its calls return at an attempt.
pub record Backend : Type 0 where
  pub next : ℤ → Request → Reply
  pub client_headers : Header
  pub read_body : List ℕ → Result String (Option (List ℕ))
  pub cancelled : Option String
  pub size : List ℕ → Result String ℤ
  pub new_writer : ℤ → Option String
  pub reader : ℤ → Option String
  pub seek : ℤ → Option String

-- `bufferWriter.expectBody`
unfoldable pub expect_body : String → Reply → Bool
expect_body method b =
    if str_eq method "HEAD"
    then false
    else if (leb_ℤ (pos 100) b.code && ltb_ℤ b.code (pos 200))
        || (eqb_ℤ b.code (pos 204) || eqb_ℤ b.code (pos 304))
    then false
    else if str_eq (header_get "Content-Length" b.headers) "0"
    then false
    else (let grpc_status = header_get "Grpc-Status" b.headers in
        not (not (str_eq grpc_status "") && not (str_eq grpc_status "0")))

-- How `ServeHTTP` ends.
pub data Ending : Type 0 where
  handled_error : BufferError → Ending
  gave_away : Ending
  answered : ℤ → Header → Option (List ℕ) → Ending

-- `copyRequest`: `body` is `none` for an empty one, and then the copy reads on in the original body.
unfoldable pub copy_request : Request → Option (List ℕ) → ℤ → ℕ → Request
copy_request req body body_size offset = record req {
  headers = copy_headers [] req.headers;
  content_length = body_size;
  transfer_encoding = [];
  body = elim body [ none ↦ req.body | some content ↦ content ];
  offset = offset;
}

-- `checkLimit`
unfoldable pub check_limit : Buffer → Request → Option BufferError
check_limit b req =
    if leb_ℤ b.max_request_body_bytes (pos 0)
    then none
    else if ltb_ℤ b.max_request_body_bytes req.content_length
    then some (max_size_reached b.max_request_body_bytes)
    else none

-- `DefaultMaxRetryAttempts`
abbrev pub default_max_retry_attempts : ℤ
default_max_retry_attempts = pos 10

-- The test after an attempt: whether its response goes to the client.
unfoldable pub is_final : Buffer → Request → ℤ → ℤ → Bool
is_final b req attempt code = elim b.retry_predicate [
  | none ↦ true
  | some p ↦
      if ltb_ℤ default_max_retry_attempts attempt
      then true
      else not (p (record { method = req.method; attempt = attempt; response_code = code }))
]

-- What one turn of the loop leads to: an end, or another attempt.
pub data Turn : Type 0 where
  ends : Ending → Turn
  retries : ℤ → Request → Turn

module _ (b : Buffer) (w : Backend) (req : Request) (body : Option (List ℕ)) (total_size : ℤ) where
  -- The end of a turn, when the response has been read.
  unfoldable pub decide : ℤ → Reply → Option (List ℕ) → Turn
  decide attempt bw content =
      if is_final b req attempt bw.code
      then ends (answered bw.code (copy_headers w.client_headers bw.headers) content)
      else (let next_attempt = add64 attempt (pos 1) in
          elim body [
            | none ↦ retries next_attempt (copy_request req none total_size bw.read_to)
            | some content' ↦ elim (w.seek next_attempt) [
              | some e ↦ ends (handled_error (multibuf_error e))
              | none ↦ retries next_attempt (copy_request req (some content') total_size 0)
            ]
          ])

  -- One turn of the loop.
  unfoldable pub turn : ℤ → Request → Turn
  turn attempt out_req = elim (w.new_writer attempt) [
    | some e ↦ ends (handled_error (multibuf_error e))
    | none ↦
        let bw = w.next attempt out_req in
        if bw.hijacked
        then ends gave_away
        else if expect_body out_req.method bw
        then elim (w.reader attempt) [
          | some e ↦ ends (handled_error (multibuf_error e))
          | none ↦ decide attempt bw (some bw.content)
        ]
        else decide attempt bw none
  ]

  -- The loop of `ServeHTTP` on fuel: the requests that were sent, and the end; `none` is no fuel left.
  unfoldable pub attempts_loop : ℕ → ℤ → Request → Option (List (ℤ × Request) × Ending)
  attempts_loop zero attempt out_req = none
  attempts_loop (suc f) attempt out_req = elim (turn attempt out_req) [
    | ends e ↦ some ((attempt, out_req) ∷ [], e)
    | retries attempt' out_req' ↦ elim (attempts_loop f attempt' out_req') [
      | none ↦ none
      | some (sent, e) ↦ some ((attempt, out_req) ∷ sent, e)
    ]
  ]

-- The first attempt and ten more.
abbrev pub enough : ℕ
enough = 11

-- The error for a body that is not there: the context's, if it has one.
unfoldable pub body_error : Backend → BufferError → BufferError
body_error w e = elim w.cancelled [ some c ↦ context_error c | none ↦ e ]

-- `ServeHTTP`: the turns of the loop that began, each with its attempt and request, and the end.
unfoldable pub serve : Buffer → Backend → Request → Option (List (ℤ × Request) × Ending)
serve b w req = elim (check_limit b req) [
  | some e ↦ some ([], handled_error e)
  | none ↦ elim (w.read_body req.body) [
    | err e ↦ some ([], handled_error (body_error w (multibuf_error e)))
    | ok none ↦ some ([], handled_error (body_error w nil_error))
    | ok (some content) ↦ elim (w.size content) [
      | err e ↦ some ([], handled_error (multibuf_error e))
      | ok total_size ↦
          let body = if eqb_ℤ total_size (pos 0) then none else some content in
          attempts_loop b w req body total_size enough (pos 1) (copy_request req body total_size 0)
    ]
  ]
]
