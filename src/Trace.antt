-- ===== src/Trace.antt =====
-- trace/trace.go: the tracer, which records each request and its response. The JSON encoder and the text
-- of a URL are not modelled: a request has its URL's text, and a record is what the encoder is given.
pub mod Decimal
pub mod Captured
pub mod Traced
mod Tests
use Prim.Native.String as S
use Prim.Native.String.{String, slice}
use text.Mathlib.Text.{◌==◌ as str_eq}
use oxy.Base.{
  ℕ, zero, suc, ◌+◌, ◌-◌, ◌*◌, ◌/◌, ◌%◌, ◌^◌, ◌==◌, ltb, leb, ◌&&◌, Bool, true, false, Option, none,
  some, if◌then◌else◌, List, [], ◌∷◌, ◌++◌,
}
use oxy.Base.Int.{ℤ, pos, ◌-ℤ◌}
use oxy.Base.Int64.{clamp64}
use oxy.Base.Assoc.{lookup, insert, string_eq, nat_eq}
use oxy.Trace.Decimal.{parse_int}
use oxy.Http.{Header, header_get, values_of}
use oxy.Http.Writer.{
  ResponseWriter, ProxyWriter, new_proxy_writer, status_code, proxy, Handler, run,
}

-- `tls.ConnectionState`, and http.Request as the tracer reads it.
pub record ConnectionState : Type 0 where
  pub version : ℕ
  pub cipher_suite : ℕ
  pub did_resume : Bool
  pub server_name : String

pub record HttpRequest : Type 0 where
  pub method : String
  pub url : String
  pub tls : Option ConnectionState
  pub header : Option Header

-- `TLS`, `Request`, `Response` and `Record`; the round trip time is a float64, of type `F`.
pub record Tls : Type 0 where
  pub version : String
  pub resume : Bool
  pub cipher_suite : String
  pub server : String

pub record Request : Type 0 where
  pub method : String
  pub body_bytes : ℤ
  pub url : String
  pub headers : Option Header
  pub tls : Option Tls

pub record Response (F : Type 0) : Type 0 where
  pub code : ℤ
  pub roundtrip : F
  pub headers : Option Header
  pub body_bytes : ℤ

pub record Record (F : Type 0) : Type 0 where
  pub request : Request
  pub response : Response F

-- The fields of `Tracer` that decide what is recorded.
pub record Tracer : Type 0 where
  pub req_headers : List String
  pub resp_headers : List String

-- `Option`: the error handler and the logger are not part of the model.
pub data TracerOption : Type 0 where
  request_headers response_headers : List String → TracerOption

unfoldable pub with_option : TracerOption → Tracer → Tracer
with_option (request_headers hs) t = record t { req_headers = t.req_headers ++ hs }
with_option (response_headers hs) t = record t { resp_headers = t.resp_headers ++ hs }

-- The loop of `New`
unfoldable pub with_options : List TracerOption → Tracer → Tracer
with_options [] t = t
with_options (o ∷ os) t = with_options os (with_option o t)

unfoldable pub new_tracer : List TracerOption → Tracer
new_tracer os = with_options os (record { req_headers = []; resp_headers = [] })

-- `%x` of fmt, for at most as many digits as the fuel: a uint16 has four.
unfoldable pub hex : ℕ → ℕ → String
hex zero n = ""
hex (suc f) n =
    let before = hex f (n / 16) in
    S.◌++◌ (if ltb n 16 then "" else before) (slice "0123456789abcdef" (n % 16) (n % 16 + 1))

unfoldable pub unknown : ℕ → String
unknown n = S.◌++◌ "unknown: " (hex 4 n)

-- `versionToString`
unfoldable pub version_to_string : ℕ → String
version_to_string v =
    if v == 769
    then "TLS10"
    else if v == 770
    then "TLS11"
    else if v == 771
    then "TLS12"
    else unknown v

-- The cases of `csToString`, by the numbers that crypto/tls gives these suites.
unfoldable pub suites : List (ℕ × String)
suites =
    (5, "TLS_RSA_WITH_RC4_128_SHA")
    ∷ (10, "TLS_RSA_WITH_3DES_EDE_CBC_SHA")
    ∷ (47, "TLS_RSA_WITH_AES_128_CBC_SHA")
    ∷ (53, "TLS_RSA_WITH_AES_256_CBC_SHA")
    ∷ (49159, "TLS_ECDHE_ECDSA_WITH_RC4_128_SHA")
    ∷ (49161, "TLS_ECDHE_ECDSA_WITH_AES_128_CBC_SHA")
    ∷ (49162, "TLS_ECDHE_ECDSA_WITH_AES_256_CBC_SHA")
    ∷ (49169, "TLS_ECDHE_RSA_WITH_RC4_128_SHA")
    ∷ (49170, "TLS_ECDHE_RSA_WITH_3DES_EDE_CBC_SHA")
    ∷ (49171, "TLS_ECDHE_RSA_WITH_AES_128_CBC_SHA")
    ∷ (49172, "TLS_ECDHE_RSA_WITH_AES_256_CBC_SHA")
    ∷ (49199, "TLS_ECDHE_RSA_WITH_AES_128_GCM_SHA256")
    ∷ (49195, "TLS_ECDHE_ECDSA_WITH_AES_128_GCM_SHA256")
    ∷ []

-- `csToString`
unfoldable pub cs_to_string : ℕ → String
cs_to_string cs = elim (lookup cs suites) [ none ↦ unknown cs | some name ↦ name ]

-- `newTLS`
unfoldable pub new_tls : HttpRequest → Option Tls
new_tls req = elim req.tls [
  | none ↦ none
  | some c ↦ some (record {
    version = version_to_string c.version;
    resume = c.did_resume;
    cipher_suite = cs_to_string c.cipher_suite;
    server = c.server_name;
  })
]

-- `bodyBytes`; `Get` of a nil map is the empty string.
unfoldable pub body_bytes : Option Header → ℤ
body_bytes none = pos 0
body_bytes (some h) =
    let length = header_get "Content-Length" h in
    if str_eq length ""
    then pos 0
    else elim (parse_int length) [ none ↦ pos 0 | some bytes ↦ bytes ]

-- `canonical` is `CanonicalMIMEHeaderKey` of net/textproto, by which `Add` names a header.
module _ (canonical : String → String) where
  unfoldable pub header_add : String → String → Header → Header
  header_add k v h = insert (canonical k) (values_of (canonical k) h ++ (v ∷ [])) h

  -- The inner loop of `captureHeaders`
  unfoldable pub add_all : String → List String → Header → Header
  add_all k [] out = out
  add_all k (v ∷ vs) out = add_all k vs (header_add k v out)

  -- A turn of its outer loop
  unfoldable pub capture_one : Header → String → Header → Header
  capture_one inside k out = elim (lookup k inside) [
    | none ↦ out
    | some vals ↦ elim (values_of k out) [ [] ↦ add_all k vals out | _ ∷ _ ↦ out ]
  ]

  unfoldable pub capture_each : Header → List String → Header → Header
  capture_each inside [] out = out
  capture_each inside (k ∷ ks) out = capture_each inside ks (capture_one inside k out)

  -- `captureHeaders`; `none` is nil.
  unfoldable pub capture_headers : Option Header → List String → Option Header
  capture_headers inside [] = none
  capture_headers none (k ∷ ks) = none
  capture_headers (some inside) (k ∷ ks) = some (capture_each inside (k ∷ ks) [])

  module _ {W R F : Type 0} (x : ResponseWriter W R) (of_int : ℤ → F) (divide : F → F → F) where
    -- `newRecord`; a duration is a number of nanoseconds.
    unfoldable pub new_record : Tracer → HttpRequest → ProxyWriter W → ℤ → Record F
    new_record t req pw diff = record {
      request = record {
        method = req.method;
        url = req.url;
        tls = new_tls req;
        body_bytes = body_bytes req.header;
        headers = capture_headers req.header t.req_headers;
      };
      response = record {
        code = status_code pw;
        body_bytes = body_bytes ((proxy x).header pw);
        roundtrip = divide (of_int diff) (of_int (pos 1000000));
        headers = capture_headers ((proxy x).header pw) t.resp_headers;
      };
    }

    -- `ServeHTTP`: what is left of the ResponseWriter, and the record that is encoded. The clock is read
    -- before and after the next handler, which also gives the request as it leaves it.
    unfoldable pub serve_http :
        Tracer → ℤ → ℤ → (HttpRequest → Handler R × HttpRequest) → HttpRequest → W → W × Record F
    serve_http t start stop next req w =
        let (handler, left) = next req in
        let pw = run (proxy x) handler (new_proxy_writer w) in
        (pw.w, new_record t left pw (clamp64 (stop -ℤ start)))
