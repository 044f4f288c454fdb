-- ===== src/Source.antt =====
-- utils/source.go: what a limiter takes as the source of a request. Strings are lists of bytes.
pub mod Extracts
mod Tests
use oxy.Base.{ℕ, ◌==◌, Bool, true, false, Option, none, some, if◌then◌else◌, List, [], ◌∷◌, ◌++◌}
use oxy.Base.Int.{ℤ, pos}
use oxy.Base.Text.{Text, same_text}
use oxy.Base.Result.{Result, err, ok}

-- The parts of a request that are read; `header` is `Header.Get`.
pub record SourceRequest : Type 0 where
  pub remote_addr : Text
  pub host : Text
  pub header : Text → Text

-- `SourceExtractor`, as `NewExtractor` makes them.
pub data SourceExtractor : Type 0 where
  by_client_ip by_host : SourceExtractor
  by_header : Text → SourceExtractor

pub data SourceError : Type 0 where
  wrong_header unsupported no_client_ip : Text → SourceError

-- `"client.ip"`, `"request.host"` and `"request.header."`
abbrev pub client_ip : Text
client_ip = 99 ∷ 108 ∷ 105 ∷ 101 ∷ 110 ∷ 116 ∷ 46 ∷ 105 ∷ 112 ∷ []

abbrev pub request_host : Text
request_host = 114 ∷ 101 ∷ 113 ∷ 117 ∷ 101 ∷ 115 ∷ 116 ∷ 46 ∷ 104 ∷ 111 ∷ 115 ∷ 116 ∷ []

abbrev pub request_header : Text
request_header =
    114 ∷ 101 ∷ 113 ∷ 117 ∷ 101 ∷ 115 ∷ 116 ∷ 46 ∷ 104 ∷ 101 ∷ 97 ∷ 100 ∷ 101 ∷ 114 ∷ 46 ∷ []

-- `strings.HasPrefix` and `strings.TrimPrefix`
abbrev pub trim_prefix : Text → Text → Option Text
trim_prefix [] s = some s
trim_prefix (p ∷ ps) [] = none
trim_prefix (p ∷ ps) (x ∷ xs) = if p == x then trim_prefix ps xs else none

-- `NewExtractor`
unfoldable pub new_extractor : Text → Result SourceError SourceExtractor
new_extractor variable =
    if same_text variable client_ip
    then ok by_client_ip
    else if same_text variable request_host
    then ok by_host
    else elim (trim_prefix request_header variable) [
      | none ↦ err (unsupported variable)
      | some [] ↦ err (wrong_header [])
      | some (x ∷ xs) ↦ ok (by_header (x ∷ xs))
    ]

-- `strings.SplitN(s, ":", 2)[0]`
unfoldable pub before_colon : Text → Text
before_colon [] = []
before_colon (x ∷ xs) = if x == 58 then [] else x ∷ before_colon xs

-- `extractClientIP`
unfoldable pub extract_client_ip : SourceRequest → Result SourceError (Text × ℤ)
extract_client_ip req = elim (before_colon req.remote_addr) [
  | [] ↦ err (no_client_ip req.remote_addr)
  | x ∷ xs ↦ ok (x ∷ xs, pos 1)
]

-- `Extract`: `extractHost` and `makeHeaderExtractor` are its other cases.
unfoldable pub extract : SourceExtractor → SourceRequest → Result SourceError (Text × ℤ)
extract by_client_ip req = extract_client_ip req
extract by_host req = ok (req.host, pos 1)
extract (by_header h) req = ok (req.header h, pos 1)
