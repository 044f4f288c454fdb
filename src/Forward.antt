-- ===== src/Forward.antt =====
-- forward/rewrite.go and forward/fwd.go: what the proxy changes in a request before it sends it on. Header
-- names are in canonical form. `net.SplitHostPort` and `url.ParseRequestURI` are parameters.
pub mod Fills
mod Tests
use Prim.Native.String.{String, slice}
use text.Mathlib.Text.{◌==◌ as str_eq, find?}
use oxy.Base.{
  ℕ, Bool, true, false, not, ◌&&◌, ◌||◌, Option, none, some, if◌then◌else◌, List, [], ◌∷◌,
}
use oxy.Base.Result.{Result, err, ok}
use oxy.Http.{Header, header_get, header_set, remove_headers}

-- `HeaderRewriter`
pub record HeaderRewriter : Type 0 where
  pub trust_forward_header : Bool
  pub hostname : String

-- `NewHeaderRewriter`, with what `os.Hostname` returns.
unfoldable pub new_header_rewriter : Result String String → HeaderRewriter
new_header_rewriter (err e) = record { trust_forward_header = true; hostname = "localhost" }
new_header_rewriter (ok h) = record { trust_forward_header = true; hostname = h }

-- The parts of `url.URL` that are read or changed.
pub record TargetUrl : Type 0 where
  pub host : String
  pub path : String
  pub raw_path : String
  pub raw_query : String

-- The parts of `http.Request` that are read or changed.
pub record OutRequest : Type 0 where
  pub headers : Header
  pub remote_addr : String
  pub host : String
  pub tls : Bool
  pub url : TargetUrl
  pub request_uri : String
  pub proto : String
  pub proto_major : ℕ
  pub proto_minor : ℕ

-- `XHeaders`
abbrev pub x_headers : List String
x_headers =
    "X-Forwarded-Proto" ∷ "X-Forwarded-For" ∷ "X-Forwarded-Host" ∷ "X-Forwarded-Port"
    ∷ "X-Forwarded-Server" ∷ "X-Real-Ip" ∷ []

-- `ipv6fix`
unfoldable pub ipv6_fix : String → String
ipv6_fix client_ip = elim (find? client_ip "%") [ none ↦ client_ip | some i ↦ slice client_ip 0 i ]

-- `if req.Header.Get(k) == "" { req.Header.Set(k, v) }`
unfoldable pub set_if_empty : String → String → Header → Header
set_if_empty k v h = if str_eq (header_get k h) "" then header_set k v h else h

-- The end of `forwardedPort`, when the host names no port.
unfoldable pub port_of_proto : Header → Bool → String
port_of_proto h tls =
    if str_eq (header_get "X-Forwarded-Proto" h) "https"
      || str_eq (header_get "X-Forwarded-Proto" h) "wss"
    then "443"
    else if tls
    then "443"
    else "80"

-- A part of `Rewrite`, as are `set_real_ip`, `set_proto`, `set_port`, `set_host` and `set_server`.
unfoldable pub drop_untrusted : HeaderRewriter → Header → Header
drop_untrusted rw h = if not rw.trust_forward_header then remove_headers h x_headers else h

unfoldable pub set_proto : Bool → Header → Header
set_proto tls h = set_if_empty "X-Forwarded-Proto" (if tls then "https" else "http") h

unfoldable pub set_host : String → Header → Header
set_host host h =
    if str_eq (header_get "X-Forwarded-Host" h) "" && not (str_eq host "")
    then header_set "X-Forwarded-Host" host h
    else h

unfoldable pub set_server : HeaderRewriter → Header → Header
set_server rw h =
    if not (str_eq rw.hostname "") then header_set "X-Forwarded-Server" rw.hostname h else h

-- `getURLFromRequest`
unfoldable pub url_from_request : (String → Result String TargetUrl) → OutRequest → TargetUrl
url_from_request parse_request_uri req =
    if not (str_eq req.request_uri "")
    then elim (parse_request_uri req.request_uri) [ err e ↦ req.url | ok u ↦ u ]
    else req.url

-- `modifyRequest`
unfoldable pub modify_request : (String → Result String TargetUrl) → OutRequest → OutRequest
modify_request parse_request_uri req =
    let u = url_from_request parse_request_uri req in
    record req {
      url = record req.url { path = u.path; raw_path = u.raw_path; raw_query = u.raw_query };
      request_uri = "";
      proto = "HTTP/1.1";
      proto_major = 1;
      proto_minor = 1;
    }

-- What `net.SplitHostPort` returns: the host and the port.
module _ (split_host_port : String → Result String (String × String)) where
  -- `forwardedPort`
  unfoldable pub forwarded_port : Header → String → Bool → String
  forwarded_port h host tls = elim (split_host_port host) [
    | err e ↦ port_of_proto h tls
    | ok (name, port) ↦ if not (str_eq port "") then port else port_of_proto h tls
  ]

  unfoldable pub set_real_ip : String → Header → Header
  set_real_ip remote_addr h = elim (split_host_port remote_addr) [
    | err e ↦ h
    | ok (client_ip, port) ↦ set_if_empty "X-Real-Ip" (ipv6_fix client_ip) h
  ]

  unfoldable pub set_port : String → Bool → Header → Header
  set_port host tls h = set_if_empty "X-Forwarded-Port" (forwarded_port h host tls) h

  -- `Rewrite`
  unfoldable pub rewrite : HeaderRewriter → OutRequest → OutRequest
  rewrite rw req = record req {
    headers = set_server rw (
        set_host req.host (
          set_port req.host req.tls
            (set_proto req.tls (set_real_ip req.remote_addr (drop_untrusted rw req.headers)))));
  }

  -- The `Director` of `New`, with what `os.Hostname` returns.
  unfoldable pub director :
      (String → Result String TargetUrl) → Result String String → Bool → OutRequest → OutRequest
  director parse_request_uri hostname pass_host_header req =
      let h = new_header_rewriter hostname in
      let req' = rewrite h (modify_request parse_request_uri req) in
      if not pass_host_header then record req' { host = req'.url.host } else req'
