-- ===== src/Sticky.antt =====
-- roundrobin/stickycookie and roundrobin/stickysessions.go: the cookie that ties a client to a server, and
-- `ServeHTTP` of roundrobin/rr.go that reads and sets it. Go strings are lists of bytes here. The packages
-- net/url, crypto/aes, encoding/base64, strconv and fnv1a are parameters.
pub mod Codec
pub mod Aes
pub mod Affinity
pub mod Stays
mod Tests
use Prim.Native.String.{String}
use text.Mathlib.Text.{◌==◌ as str_eq}
use oxy.Base.{
  ℕ, zero, suc, ◌+◌, ◌*◌, ◌-◌, ◌%◌, ◌/◌, ◌^◌, ◌==◌, ltb, Bool, true, false, not, ◌&&◌, Option, none,
  some, if◌then◌else◌, List, [], ◌∷◌, ◌++◌, length, take, drop, replicate, inl, inr,
}
use oxy.Base.Int.{ℤ, pos, negsuc, ltb_ℤ, ◌+ℤ◌, ◌-ℤ◌, ◌*ℤ◌}
use oxy.Base.Int64.{wrap64}
use oxy.Base.Text.{Text, same_text}
use oxy.Base.Result.{Result, err, ok, ◌>>=◌}
use oxy.Counter.{unix, epoch, second}
use oxy.RoundRobin.{Url, Pool, Error, same_url, server_urls, next_server}

-- `URL.String` and `url.Parse`, the hash as text, decimal numbers, base64, and AES in GCM mode with a
-- nonce before the message.
pub record Packages : Type 0 where
  pub string : Url → Text
  pub parse : Text → Result Text Url
  pub hash_text : Text → Text
  pub format_int : ℤ → Text
  pub parse_int : Text → Result Text ℤ
  pub encode : Text → Text
  pub decode : Text → Result Text Text
  pub seal : Text → Text → Text
  pub open_sealed : Text → Text → Result Text Text

-- What the calls of a method read: the clock at its two calls, and four random bytes.
pub record Moment : Type 0 where
  pub now : ℤ
  pub now' : ℤ
  pub random : Text

-- `CookieValue`. No method that fails returns a URL.
pub record CookieValue : Type 0 where
  pub get : Moment → Url → Text
  pub find_url : Moment → Text → List Url → Result Text (Option Url)

-- `"|"`, and `strings.Split` of a text at it: the first part and the others.
abbrev pub bar : ℕ
bar = 124

unfoldable pub split_at_bar : Text → Text × List Text
split_at_bar [] = ([], [])
split_at_bar (x ∷ xs) =
    let (part, parts) = split_at_bar xs in
    if x == bar then ([], part ∷ parts) else (x ∷ part, parts)

-- `binary.PutVarint`: the bytes that it writes for a number.
unfoldable pub varint_bytes : ℕ → ℕ → Text
varint_bytes zero u = []
varint_bytes (suc f) u =
    let rest = varint_bytes f (u / 128) in if ltb u 128 then u ∷ [] else (u % 128 + 128) ∷ rest

abbrev pub zigzag : ℤ → ℕ
zigzag (pos n) = (2 * n) % 2 ^ 64
zigzag (negsuc n) = 2 * n + 1

-- The time of `clock.Unix(i, 0)`.
abbrev pub at_unix : ℤ → ℤ
at_unix i = (pos epoch +ℤ i) *ℤ second

-- The nonce of `Get`: twelve bytes, of which the last four are random.
unfoldable pub nonce_at : Moment → Text
nonce_at m =
    take 8 (varint_bytes 10 (zigzag (wrap64 (m.now' -ℤ at_unix (pos 0)))) ++ replicate 12 0)
    ++ take 4 m.random

module _ (p : Packages) where
  -- `areURLEqual`
  unfoldable pub are_url_equal : Text → Url → Result Text Bool
  are_url_equal raw u = do
    u1 ← p.parse raw
    ok (str_eq u1.scheme u.scheme && (str_eq u1.host u.host && str_eq u1.path u.path))

  -- The loop of `RawValue.FindURL` and of `AESValue.FindURL`.
  unfoldable pub find_equal : Text → List Url → Result Text (Option Url)
  find_equal raw [] = ok none
  find_equal raw (u ∷ urls) = elim (are_url_equal raw u) [
    | err e ↦ err e
    | ok true ↦ ok (some u)
    | ok false ↦ find_equal raw urls
  ]

  -- `RawValue`
  unfoldable pub raw_value : CookieValue
  raw_value = record { get = λ m u. p.string u; find_url = λ m raw urls. find_equal raw urls }

  -- `HashValue.hash` and `normalized`
  unfoldable pub hash_of : Text → Text → Text
  hash_of salt input = p.hash_text (salt ++ input)

  unfoldable pub normalized : Url → Text
  normalized u = p.string (record { scheme = u.scheme; host = u.host; path = u.path; rest = "" })

  -- `HashValue.FindURL`
  unfoldable pub find_hashed : Text → Text → List Url → Option Url
  find_hashed salt raw [] = none
  find_hashed salt raw (u ∷ urls) =
      if same_text raw (hash_of salt (normalized u)) then some u else find_hashed salt raw urls

  -- `HashValue`
  unfoldable pub hash_value : Text → CookieValue
  hash_value salt = record {
    get = λ m u. hash_of salt (p.string u);
    find_url = λ m raw urls. ok (find_hashed salt raw urls);
  }

  -- `AESValue.Get`
  unfoldable pub aes_get : ℤ → Moment → Url → Text
  aes_get ttl m u =
      let base =
        if ltb_ℤ (pos 0) ttl
        then p.string u ++ (bar ∷ p.format_int (unix (m.now +ℤ ttl)))
        else p.string u in
      p.encode (p.seal (nonce_at m) base ++ nonce_at m)

  -- The end of `fromValue`: the expiration after the message.
  unfoldable pub check_expiration : Moment → Text → Result Text Text
  check_expiration m raw = elim (split_at_bar raw).1 [
    | [] ↦ err raw
    | t ∷ _ ↦ do
      i ← p.parse_int t
      if ltb_ℤ (at_unix i) m.now then err raw else ok (split_at_bar raw).0
  ]

  -- `AESValue.fromValue`
  unfoldable pub from_value : ℤ → Moment → Text → Result Text Text
  from_value ttl m obfuscated = do
    whole ← p.decode obfuscated
    if not (ltb 12 (length whole)) then err [] else do
      raw ← p.open_sealed (drop (length whole - 12) whole) (take (length whole - 12) whole)
      if ltb_ℤ (pos 0) ttl then check_expiration m raw else ok raw

  -- `AESValue`
  unfoldable pub aes_value : ℤ → CookieValue
  aes_value ttl = record {
    get = aes_get ttl;
    find_url = λ m raw urls. from_value ttl m raw >>= (λ text. find_equal text urls);
  }

-- `FallbackValue`
unfoldable pub fallback_value : CookieValue → CookieValue → CookieValue
fallback_value from to = record {
  get = to.get;
  find_url = λ m raw urls. elim (from.find_url m raw urls) [
    | ok (some u) ↦ ok (some u)
    | ok none ↦ to.find_url m raw urls
    | err e ↦ to.find_url m raw urls
  ];
}

-- `CookieOptions`; a same-site mode is a number, and an expiry a time.
pub record CookieOptions : Type 0 where
  pub http_only : Bool
  pub secure : Bool
  pub path : String
  pub domain : String
  pub expires : ℤ
  pub max_age : ℤ
  pub same_site : ℤ

-- `http.Cookie`
pub record Cookie : Type 0 where
  pub name : String
  pub value : Text
  pub options : CookieOptions

-- `StickySession`
pub record StickySession : Type 0 where
  pub cookie_name : String
  pub cookie_value : CookieValue
  pub options : CookieOptions

-- `NewStickySessionWithOptions`; `NewStickySession` is the same with no options.
unfoldable pub new_sticky_session : Packages → String → CookieOptions → StickySession
new_sticky_session p cookie_name options = record {
  cookie_name = cookie_name;
  cookie_value = raw_value p;
  options = options;
}

-- `SetCookieValue`
unfoldable pub set_cookie_value : CookieValue → StickySession → StickySession
set_cookie_value value s = record s { cookie_value = value }

-- `GetBackend`, with what `req.Cookie` returns: an error, no cookie, or its value.
unfoldable pub get_backend :
    StickySession → Moment → Result Text (Option Text) → List Url → Result Text (Option Url)
get_backend s m (err e) servers = err e
get_backend s m (ok none) servers = ok none
get_backend s m (ok (some value)) servers = s.cookie_value.find_url m value servers

-- `StickBackend`
unfoldable pub stick_backend : StickySession → Moment → Url → Cookie
stick_backend s m backend = record {
  name = s.cookie_name;
  value = s.cookie_value.get m backend;
  options = record s.options {
    path = if not (str_eq s.options.path "") then s.options.path else "/";
  };
}

-- What `ServeHTTP` does with a request: the error handler, or the next handler with the URL, after the
-- cookie was set, if one was.
pub data Served : Type 0 where
  unserved : Error → Served
  forwarded : Url → Option Cookie → Served

-- The part of `ServeHTTP` for a request that is not stuck.
unfoldable pub serve_next : Option StickySession → Moment → Pool → Option (Pool × Served)
serve_next session m r = elim (next_server r) [
  | none ↦ none
  | some (r', inl e) ↦ some (r', unserved e)
  | some (r', inr s) ↦
      some (
        r',
        forwarded s.url (elim session [ none ↦ none | some x ↦ some (stick_backend x m s.url) ]),
      )
]

-- `ServeHTTP`; `m` and `m'` are for reading and for setting the cookie, and `none` is a panic.
unfoldable pub serve_http :
    Option StickySession
    → Moment
    → Moment
    → Result Text (Option Text)
    → Pool
    → Option (Pool × Served)
serve_http none m m' cookie r = serve_next none m' r
serve_http (some session) m m' cookie r = elim (get_backend session m cookie (server_urls r)) [
  | ok (some u) ↦ some (r, forwarded u none)
  | ok none ↦ serve_next (some session) m' r
  | err e ↦ serve_next (some session) m' r
]
