-- ===== src/Auth/Tests.antt =====
-- An encoding that shifts every byte.
use oxy.Base.{◌+◌, ◌-◌, ◌≡◌, ◌≢◌, refl, arith, [], ◌∷◌, map, ap}
use oxy.Base.Text.{Text}
use oxy.Base.Result.{ok}
use oxy.Auth.{Base64, BasicAuth, auth_header, parse_auth_header}
use oxy.Auth.Back.{NoSpace, IsBase64, parse_auth_header-auth_header}

abbrev shift : Text → Text
shift t = map (λ b. b + 33) t

abbrev shift_back : Text → Text
shift_back t = map (λ b. b - 33) t

abbrev shifted : Base64
shifted = record { encode = shift; decode = λ t. ok (shift_back t) }

shift_back-shift : (t : Text) → shift_back (shift t) ≡ t
shift_back-shift [] = refl
shift_back-shift (x ∷ xs) = ground (arith, shift_back-shift xs)

shift-NoSpace : (t : Text) → NoSpace (shift t)
shift-NoSpace [] = tt
shift-NoSpace (x ∷ xs) = (ground arith, shift-NoSpace xs)

shift_full : (t : Text) → t ≢ [] → shift t ≢ []
shift_full [] h e = h refl
shift_full (x ∷ xs) h e = cc

shifted_laws : IsBase64 shifted
shifted_laws = record {
  decode-encode = λ t. ap (λ (s : Text). ok s) (shift_back-shift t);
  encode-NoSpace = shift-NoSpace;
  encode_full = shift_full;
}

abbrev user : BasicAuth
user = record { username = 106 ∷ 111 ∷ []; password = 58 ∷ 49 ∷ [] }

parse_auth_header-auth_header_example :
    parse_auth_header shifted (auth_header shifted user) ≡ ok user
parse_auth_header-auth_header_example =
    parse_auth_header-auth_header shifted shifted_laws user (refl, (refl, tt))
