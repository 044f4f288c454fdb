-- ===== src/Forward/Tests.antt =====
-- A request to a proxy that keeps no host header.
use Prim.Native.String.{String}
use text.Mathlib.Text.{◌==◌ as str_eq}
use oxy.Base.{true, if◌then◌else◌, [], ◌∷◌}
use oxy.Base.Result.{Result, err, ok}
use oxy.Base.Assoc.{string_eq}
use oxy.Http.{Header}
use oxy.Forward.{OutRequest, TargetUrl}

-- One address is known.
abbrev split : String → Result String (String × String)
split s =
    if str_eq s "10.0.0.1:4000" then ok ("10.0.0.1", "4000") else err "missing port in address"

abbrev target : TargetUrl
target = record { host = "backend"; path = "/"; raw_path = ""; raw_query = "" }

abbrev parse : String → Result String TargetUrl
parse s = ok (record target { path = s })

abbrev request : Header → OutRequest
request headers = record {
  headers = headers;
  remote_addr = "10.0.0.1:4000";
  host = "example.org";
  tls = true;
  url = target;
  request_uri = "/page";
  proto = "HTTP/1.0";
  proto_major = 1;
  proto_minor = 0;
}

-- The client says something of the protocol, and nothing else.
abbrev asked : OutRequest
asked = request (("Accept", "a" ∷ []) ∷ ("X-Forwarded-Proto", "http" ∷ []) ∷ [])
