-- ===== src/Forward/Fills.antt =====
-- What the headers of a request say of the client and of the proxy when the director is done.
use Prim.Native.String.{String}
use text.Mathlib.Text.{◌==◌ as str_eq}
use oxy.Base.{Bool, false, ◌||◌, if◌then◌else◌, List, [], ◌∷◌, ◌≡◌}
use oxy.Base.Assoc.{lookup, string_eq}
use oxy.Base.Result.{Result, err, ok}
use oxy.Http.{Header, header_get}
use oxy.Forward.{HeaderRewriter, ipv6_fix, set_real_ip, set_proto, set_port, set_host}

-- The first text, or the second one if the first is empty.
abbrev pub or_else : String → String → String
or_else a b = if str_eq a "" then b else a

-- The names of the headers that `Rewrite` sets.
abbrev pub filled : List String
filled =
    "X-Real-Ip" ∷ "X-Forwarded-Proto" ∷ "X-Forwarded-Port" ∷ "X-Forwarded-Host"
    ∷ "X-Forwarded-Server" ∷ []

-- The name that the proxy gives itself.
abbrev pub name_of : Result String String → String
name_of (err e) = "localhost"
name_of (ok h) = h

abbrev pub proto_of : Bool → String
proto_of tls = if tls then "https" else "http"

-- The port that a protocol stands for.
abbrev pub default_port : String → Bool → String
default_port proto tls = if str_eq proto "https" || str_eq proto "wss" || tls then "443" else "80"

-- A change of headers that leaves all names but one.
abbrev IsLocal : String → (Header → Header) → Type 0
IsLocal k f = (j : String) (h : Header) → str_eq j k ≡ false → lookup j (f h) ≡ lookup j h

module _ (split_host_port : String → Result String (String × String)) where
  -- The host of an address without its zone, and nothing for an address that cannot be split.
  abbrev pub ip_of : String → String
  ip_of addr = elim (split_host_port addr) [ err e ↦ "" | ok (ip, port) ↦ ipv6_fix ip ]

  -- The port that a host names, and nothing if it names none.
  abbrev pub port_of : String → String
  port_of host = elim (split_host_port host) [ err e ↦ "" | ok (name, port) ↦ port ]

  -- What the headers `h'` of a request say after `Rewrite`, when it had the headers `h` before. The others
  -- are the name of the proxy, the host and the remote address of the request, and whether it came by TLS.
  pub record IsFilled (name wanted addr : String) (tls : Bool) (h h' : Header) : Type 0 where
    pub proto :
        header_get "X-Forwarded-Proto" h'
        ≡ or_else (header_get "X-Forwarded-Proto" h) (proto_of tls)
    pub real_ip : header_get "X-Real-Ip" h' ≡ or_else (header_get "X-Real-Ip" h) (ip_of addr)
    pub port :
        header_get "X-Forwarded-Port" h'
        ≡ or_else
            (header_get "X-Forwarded-Port" h)
            (or_else (port_of wanted) (default_port (header_get "X-Forwarded-Proto" h') tls))
    pub host : header_get "X-Forwarded-Host" h' ≡ or_else (header_get "X-Forwarded-Host" h) wanted
    pub server :
        header_get "X-Forwarded-Server" h' ≡ or_else name (header_get "X-Forwarded-Server" h)

  module _ (w : HeaderRewriter) (wanted addr : String) (tls : Bool) (h : Header) where
    -- The headers after each part of `Rewrite`.
    abbrev with_ip : Header
    with_ip = set_real_ip split_host_port addr h

    abbrev with_proto : Header
    with_proto = set_proto tls with_ip

    abbrev with_port : Header
    with_port = set_port split_host_port wanted tls with_proto

    abbrev with_host : Header
    with_host = set_host wanted with_port
