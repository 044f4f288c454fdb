-- ===== src/Auth.antt =====
-- utils/auth.go: basic authentication. Headers are ASCII texts, and base64 is a parameter.
pub mod Back
mod Tests
use oxy.Base.{
  ℕ, ◌+◌, ◌==◌, leb, Bool, true, false, not, ◌&&◌, ◌||◌, Option, none, some, if◌then◌else◌, List,
  [], ◌∷◌, ◌++◌, map,
}
use oxy.Base.Text.{Text, same_text}
use oxy.Base.Result.{Result, err, ok}

-- `base64.StdEncoding`
pub record Base64 : Type 0 where
  pub encode : Text → Text
  pub decode : Text → Result Text Text

-- `BasicAuth`
pub record BasicAuth : Type 0 where
  pub username : Text
  pub password : Text

pub data AuthError : Type 0 where
  wrong_fields wrong_type no_separator : AuthError
  base64_failed : Text → AuthError

abbrev pub colon : ℕ
colon = 58

abbrev pub space : ℕ
space = 32

-- `"Basic"` and `"basic"`
abbrev pub basic_name : Text
basic_name = 66 ∷ 97 ∷ 115 ∷ 105 ∷ 99 ∷ []

abbrev pub basic_lower : Text
basic_lower = 98 ∷ 97 ∷ 115 ∷ 105 ∷ 99 ∷ []

-- `strings.Fields`: `split_fields` has the word at the start, and the words after it.
abbrev pub is_space : ℕ → Bool
is_space b = (leb 9 b && leb b 13) || b == 32

abbrev pub add_word : Text → List Text → List Text
add_word [] ws = ws
add_word (x ∷ xs) ws = (x ∷ xs) ∷ ws

unfoldable pub split_fields : Text → Text × List Text
split_fields [] = ([], [])
split_fields (x ∷ xs) =
    let (w, ws) = split_fields xs in if is_space x then ([], add_word w ws) else (x ∷ w, ws)

unfoldable pub fields : Text → List Text
fields s = let (w, ws) = split_fields s in add_word w ws

-- `strings.ToLower`
abbrev pub to_lower : Text → Text
to_lower s = map (λ b. if leb 65 b && leb b 90 then b + 32 else b) s

-- `strings.SplitN(s, ":", 2)`: the two parts, or `none` for one.
unfoldable pub split_colon : Text → Option (Text × Text)
split_colon [] = none
split_colon (x ∷ xs) =
    let rest = split_colon xs in
    if x == colon then some ([], xs) else elim rest [ none ↦ none | some (s, t) ↦ some (x ∷ s, t) ]

module _ (b64 : Base64) where
  -- `BasicAuth.String`
  unfoldable pub auth_header : BasicAuth → Text
  auth_header ba = basic_name ++ (space ∷ b64.encode (ba.username ++ (colon ∷ ba.password)))

  -- The end of `ParseAuthHeader`, for two fields.
  unfoldable pub parse_fields : Text → Text → Result AuthError BasicAuth
  parse_fields auth_type encoded =
      if not (same_text (to_lower auth_type) basic_lower)
      then err wrong_type
      else elim (b64.decode encoded) [
        | err e ↦ err (base64_failed e)
        | ok decoded ↦ elim (split_colon decoded) [
          | none ↦ err no_separator
          | some (username, password) ↦ ok (record { username = username; password = password })
        ]
      ]

  -- `ParseAuthHeader`
  unfoldable pub parse_auth_header : Text → Result AuthError BasicAuth
  parse_auth_header header = elim (fields header) [
    | [] ↦ err wrong_fields
    | a ∷ [] ↦ err wrong_fields
    | a ∷ b ∷ [] ↦ parse_fields a b
    | a ∷ b ∷ c ∷ cs ↦ err wrong_fields
  ]
