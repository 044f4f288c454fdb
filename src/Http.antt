-- ===== src/Http.antt =====
-- http.Header of net/http as the middleware uses it, and utils/netutils.go. Names are in canonical form.
pub mod Headers
pub mod Writer
pub mod Proxied
use Prim.Native.String.{String}
use text.Mathlib.Text.{◌==◌ as str_eq}
use oxy.Base.{Bool, true, false, not, Option, none, some, if◌then◌else◌, List, [], ◌∷◌, ◌++◌}
use oxy.Base.Assoc.{lookup, insert, erase, string_eq}

abbrev pub Header : Type 0
Header = List (String × List String)

-- `Header.Get`
unfoldable pub header_get : String → Header → String
header_get k h = elim (lookup k h) [ none ↦ "" | some [] ↦ "" | some (v ∷ vs) ↦ v ]

-- `Header.Set` and `Header.Del`
unfoldable pub header_set : String → String → Header → Header
header_set k v h = insert k (v ∷ []) h

unfoldable pub header_del : String → Header → Header
header_del k h = erase k h

-- `dst[k]`, nil if it is missing
unfoldable pub values_of : String → Header → List String
values_of k h = elim (lookup k h) [ none ↦ [] | some vs ↦ vs ]

-- `CopyHeaders`
unfoldable pub copy_headers : Header → Header → Header
copy_headers dst [] = dst
copy_headers dst ((k, vv) ∷ src) = copy_headers (insert k (values_of k dst ++ vv) dst) src

-- `HasHeaders`
unfoldable pub has_headers : List String → Header → Bool
has_headers [] headers = false
has_headers (h ∷ names) headers =
    if not (str_eq (header_get h headers) "") then true else has_headers names headers

-- `RemoveHeaders`
unfoldable pub remove_headers : Header → List String → Header
remove_headers headers [] = headers
remove_headers headers (h ∷ names) = remove_headers (header_del h headers) names
