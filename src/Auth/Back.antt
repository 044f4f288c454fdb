-- ===== src/Auth/Back.antt =====
-- A header that is printed and parsed.
use oxy.Base.{ℕ, ◌==◌, ◌≡◌, ◌≢◌, refl, false, some, [], ◌∷◌, ◌++◌, All}
use oxy.Base.Text.{Text}
use oxy.Base.Result.{ok}
use oxy.Auth.{
  Base64, BasicAuth, colon, space, basic_name, is_space, add_word, split_fields, fields,
  split_colon, auth_header, parse_fields, parse_auth_header,
}

abbrev pub NoSpace : Text → Type 0
NoSpace t = All (λ (b : ℕ). is_space b ≡ false) t

abbrev pub NoColon : Text → Type 0
NoColon t = All (λ (b : ℕ). (b == colon) ≡ false) t

-- What is known of base64: it is undone by decoding, has no white space, and is empty for nothing only.
pub record IsBase64 (b64 : Base64) : Type 0 where
  pub decode-encode : (t : Text) → b64.decode (b64.encode t) ≡ ok t
  pub encode-NoSpace : (t : Text) → NoSpace (b64.encode t)
  pub encode_full : (t : Text) → t ≢ [] → b64.encode t ≢ []

split_fields-word : (t : Text) → NoSpace t → split_fields t ≡ (t, [])
unfolding split_fields
split_fields-word [] h = refl
split_fields-word (x ∷ xs) h = rw (split_fields, split_fields-word xs h.1, h.0) refl

split_fields-two :
    (s t : Text) → NoSpace s → NoSpace t → split_fields (s ++ (space ∷ t)) ≡ (s, add_word t [])
unfolding split_fields
split_fields-two [] t hs ht = rw (split_fields, split_fields-word t ht) refl
split_fields-two (x ∷ xs) t hs ht = rw (split_fields, split_fields-two xs t hs.1 ht, hs.0) refl

split_colon-append : (s t : Text) → NoColon s → split_colon (s ++ (colon ∷ t)) ≡ some (s, t)
unfolding split_colon
split_colon-append [] t h = refl
split_colon-append (x ∷ xs) t h = rw (split_colon, h.0, split_colon-append xs t h.1) refl

add_word-full : (t : Text) → t ≢ [] → add_word t [] ≡ t ∷ []
add_word-full [] h = absurd (h refl)
add_word-full (x ∷ xs) h = refl

joined-full : (s t : Text) → s ++ (colon ∷ t) ≢ []
joined-full [] t e = cc
joined-full (x ∷ xs) t e = cc

-- `ParseAuthHeader` reads what `String` prints, for a user name with no colon.
pub parse_auth_header-auth_header :
    (b64 : Base64)
    → IsBase64 b64
    → (ba : BasicAuth) → NoColon ba.username
    → parse_auth_header b64 (auth_header b64 ba) ≡ ok ba
unfolding parse_auth_header auth_header fields parse_fields
parse_auth_header-auth_header b64 laws ba plain =
    let whole = ba.username ++ (colon ∷ ba.password) in
    let code = b64.encode whole in
    let two : split_fields (basic_name ++ (space ∷ code)) ≡ (basic_name, add_word code []) =
      split_fields-two basic_name code (refl, (refl, (refl, (refl, (refl, tt)))))
        (laws.encode-NoSpace whole) in
    let one : add_word code [] ≡ code ∷ [] =
      add_word-full code (laws.encode_full whole (joined-full ba.username ba.password)) in
    rw
      (
        parse_auth_header,
        auth_header,
        fields,
        two,
        one,
        parse_fields,
        laws.decode-encode whole,
        split_colon-append ba.username ba.password plain,
      )
      refl
