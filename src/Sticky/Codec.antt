-- ===== src/Sticky/Codec.antt =====
-- Cookie values: what `Get` writes for a server, `FindURL` reads as that server.
use Prim.Native.String.{String}
use text.Mathlib.TextEquality.{eq_iff}
use oxy.Base.{
  ℕ, zero, suc, ◌≡◌, refl, arith, sym, ap, ◌∙◌, true, Option, none, some, Bool-cases, Option-cases,
  inl, inr, List, [], ◌∷◌, get_elem?, All,
}
use oxy.Base.Text.{Text, same_text, same_text_refl, same_text_eq}
use oxy.Base.Result.{ok, Result-cases}
use oxy.RoundRobin.{Url, same_url}
use oxy.Sticky.{
  Packages, Moment, CookieValue, are_url_equal, find_equal, raw_value, hash_of, normalized,
  find_hashed, hash_value, fallback_value,
}

-- `FindURL` finds a server with the parts of `u` in the value that `Get` has made of `u`.
abbrev pub Sticks : CookieValue → Moment → Moment → Url → List Url → Type 0
Sticks cv m m' u urls =
    (v : Url) × (cv.find_url m' (cv.get m u) urls ≡ ok (some v)) × (same_url u v ≡ true)

-- The parts of `u` can be read back from its text.
pub record IsRead (p : Packages) (u : Url) : Type 0 where
  pub back : Url
  pub parsed : p.parse (p.string u) ≡ ok back
  pub same_scheme : back.scheme ≡ u.scheme
  pub same_host : back.host ≡ u.host
  pub same_path : back.path ≡ u.path

same_url_refl : (u : Url) → same_url u u ≡ true
unfolding same_url
same_url_refl u =
    rw
      (
        (eq_iff u.path u.path).1 refl,
        (eq_iff u.host u.host).1 refl,
        (eq_iff u.scheme u.scheme).1 refl,
      )
      refl

module _ (p : Packages) (u : Url) (h : IsRead p u) where
  are_url_equal-same : (x : Url) → are_url_equal p (p.string u) x ≡ ok (same_url u x)
  unfolding are_url_equal same_url
  are_url_equal-same x =
      rw (are_url_equal, h.parsed, h.same_scheme, h.same_host, h.same_path) (ground arith)

  pub find_equal_lem :
      (urls : List Url) (i : ℕ)
      → get_elem? urls i ≡ some u
      → (v : Url) × (find_equal p (p.string u) urls ≡ ok (some v)) × (same_url u v ≡ true)
  unfolding find_equal
  find_equal_lem [] i e = absurd (ground arith)
  find_equal_lem (x ∷ urls) i e = elim (Bool-cases (same_url u x)) [
    | inl same ↦ (x, rw (find_equal, are_url_equal-same x, same) refl, same)
    | inr apart ↦
        elim i
            as (λ j.
              get_elem? (x ∷ urls) j ≡ some u
              → (v : Url) × (find_equal p (p.string u) (x ∷ urls) ≡ ok (some v))
                × (same_url u v ≡ true)) [
                  | zero ↦ λ e0. absurd (ground (arith, same_url_refl u, e0))
                  | suc j ↦ λ e0.
                      let (v, found, same) = find_equal_lem urls j e0 in
                      (v, rw (find_equal, are_url_equal-same x, apart) found, same)
                ]
          e
  ]

  -- A raw value leads back to a server with the scheme, host and path of the one that it was made for, if
  -- that one is in the list and can be read back from its text.
  pub raw_value-Sticks :
      (m m' : Moment) (urls : List Url) (i : ℕ)
      → get_elem? urls i ≡ some u
      → Sticks (raw_value p) m m' u urls
  unfolding raw_value
  raw_value-Sticks m m' urls i e = find_equal_lem urls i e

module _ (p : Packages) (salt : Text) (u : Url) where
  -- No server but one with the parts of `u` has the hash of `u`.
  abbrev pub NoClash : Url → Type 0
  NoClash v = hash_of p salt (p.string u) ≡ hash_of p salt (normalized p v) → same_url u v ≡ true

  find_hashed_lem :
      (urls : List Url) (i : ℕ)
      → normalized p u ≡ p.string u
      → All NoClash urls
      → get_elem? urls i ≡ some u
      → (v : Url) × (find_hashed p salt (hash_of p salt (p.string u)) urls ≡ some v)
        × (same_url u v ≡ true)
  unfolding find_hashed
  find_hashed_lem [] i whole clash e = absurd (ground arith)
  find_hashed_lem (x ∷ urls) i whole clash e =
      let mine = hash_of p salt (p.string u) in
      let its = hash_of p salt (normalized p x) in
      elim (Bool-cases (same_text mine its)) [
        | inl same ↦ (x, rw (find_hashed, same) refl, clash.0 (same_text_eq mine its same))
        | inr apart ↦
            elim i
                as (λ j.
                  get_elem? (x ∷ urls) j ≡ some u
                  → (v : Url) × (find_hashed p salt mine (x ∷ urls) ≡ some v)
                    × (same_url u v ≡ true)) [
                      | zero ↦ λ e0.
                          let here : x ≡ u = cc in
                          let equal : its ≡ mine =
                            ap (λ (y : Url). hash_of p salt (normalized p y)) here
                            ∙ ap (hash_of p salt) whole in
                          absurd (ground (arith, same_text_refl mine, equal, apart))
                      | suc j ↦ λ e0.
                          let (v, found, same) = find_hashed_lem urls j whole clash.1 e0 in
                          (v, rw (find_hashed, apart) found, same)
                    ]
              e
      ]

  -- A hash leads back to a server with the scheme, host and path of the one that it was made for, if that
  -- one is in the list and has no other parts, and no server with other parts has the same hash.
  pub hash_value-Sticks :
      (m m' : Moment) (urls : List Url) (i : ℕ)
      → u.rest ≡ ""
      → All NoClash urls
      → get_elem? urls i ≡ some u
      → Sticks (hash_value p salt) m m' u urls
  unfolding hash_value normalized
  hash_value-Sticks m m' urls i bare clash e =
      let whole : normalized p u ≡ p.string u =
        ap
          (λ (r : String).
            p.string (record { scheme = u.scheme; host = u.host; path = u.path; rest = r }))
          (sym bare) in
      let (v, found, same) = find_hashed_lem urls i whole clash e in
      (v, ap (λ (o : Option Url). ok o) found, same)

-- A value that falls back leads back to a server if the new value does, and if what the old value finds, if
-- anything, has the scheme, host and path of that server.
pub fallback_value-Sticks :
    (from to : CookieValue) (m m' : Moment) (u : Url) (urls : List Url)
    → ((v : Url) → from.find_url m' (to.get m u) urls ≡ ok (some v) → same_url u v ≡ true)
    → Sticks to m m' u urls
    → Sticks (fallback_value from to) m m' u urls
unfolding fallback_value
fallback_value-Sticks from to m m' u urls harmless (v, found, same) =
    elim (Result-cases (from.find_url m' (to.get m u) urls)) [
      | inl (e, bad) ↦ (v, rw (fallback_value, bad) found, same)
      | inr (o, fine) ↦ elim (Option-cases o) [
        | inl nothing ↦
            let none_found : from.find_url m' (to.get m u) urls ≡ ok none =
              fine ∙ ap (λ (x : Option Url). ok x) nothing in
            (v, rw (fallback_value, none_found) found, same)
        | inr (w, something) ↦
            let one_found : from.find_url m' (to.get m u) urls ≡ ok (some w) =
              fine ∙ ap (λ (x : Option Url). ok x) something in
            (w, rw (fallback_value, one_found) refl, harmless w one_found)
      ]
    ]
