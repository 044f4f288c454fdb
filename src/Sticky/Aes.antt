-- ===== src/Sticky/Aes.antt =====
-- The encrypted cookie value, and its expiration.

use oxy.Base.{
  ℕ, zero, suc, ◌+◌, ◌-◌, ◌<◌, ◌==◌, ltb, ◌≡◌, refl, arith, ap, ◌∙◌, true, false, some,
  if◌then◌else◌, Bool-cases, ◌⊎◌, inl, inr, List, [], ◌∷◌, ◌++◌, length, length-append, get_elem?,
  take, drop, replicate, All,
}
use oxy.Base.Int.{ℤ, pos, ltb_ℤ, ◌+ℤ◌, ◌-ℤ◌}
use oxy.Base.Int64.{wrap64}
use oxy.Base.Text.{Text}
use oxy.Base.Result.{ok}
use oxy.Counter.{unix}
use oxy.RoundRobin.{Url}
use oxy.Sticky.{
  Packages, Moment, bar, split_at_bar, varint_bytes, zigzag, nonce_at, at_unix, aes_get,
  check_expiration, from_value, aes_value,
}
use oxy.Sticky.Codec.{Sticks, IsRead, find_equal_lem}

abbrev pub NoBar : Text → Type 0
NoBar t = All (λ (b : ℕ). (b == bar) ≡ false) t

-- What is known of the packages: decoding and opening undo encoding and sealing, a sealed message is not
-- empty, and a printed int64 is read back and has no bar.
pub record IsPackages (p : Packages) : Type 0 where
  pub decode-encode : (t : Text) → p.decode (p.encode t) ≡ ok t
  pub open-seal : (n t : Text) → length n ≡ 12 → p.open_sealed n (p.seal n t) ≡ ok t
  pub seal-full : (n t : Text) → 0 < length (p.seal n t)
  pub parse-format : (i : ℤ) → wrap64 i ≡ i → p.parse_int (p.format_int i) ≡ ok i
  pub format-NoBar : (i : ℤ) → NoBar (p.format_int i)

split-NoBar : (t : Text) → NoBar t → split_at_bar t ≡ (t, [])
unfolding split_at_bar
split-NoBar [] h = refl
split-NoBar (x ∷ xs) h = rw (split_at_bar, split-NoBar xs h.1, h.0) refl

split-append : (s t : Text) → NoBar s → NoBar t → split_at_bar (s ++ (bar ∷ t)) ≡ (s, t ∷ [])
unfolding split_at_bar
split-append [] t hs ht = rw (split_at_bar, split-NoBar t ht) refl
split-append (x ∷ xs) t hs ht = rw (split_at_bar, split-append xs t hs.1 ht, hs.0) refl

take-append : (s t : Text) → take (length s) (s ++ t) ≡ s
take-append [] t = refl
take-append (x ∷ xs) t = ap (λ (ys : Text). x ∷ ys) (take-append xs t)

drop-append : (s t : Text) → drop (length s) (s ++ t) ≡ t
drop-append [] t = refl
drop-append (x ∷ xs) t = drop-append xs t

length-take : (n : ℕ) (t : Text) → n < length t + 1 → length (take n t) ≡ n
length-take zero t h = refl
length-take (suc n) [] h = absurd (omega arith)
length-take (suc n) (x ∷ xs) h = ap suc (length-take n xs (omega arith))

length-nonce_at : (m : Moment) → length m.random ≡ 4 → length (nonce_at m) ≡ 12
unfolding nonce_at
length-nonce_at m h =
    let v = varint_bytes 10 (zigzag (wrap64 (m.now' -ℤ at_unix (pos 0)))) in
    let low : length (v ++ replicate 12 0) ≡ length v + 12 = length-append v (replicate 12 0) in
    length-append (take 8 (v ++ replicate 12 0)) (take 4 m.random)
    ∙ omega (
      arith,
      length-take 8 (v ++ replicate 12 0) (omega (arith, low)),
      length-take 4 m.random (omega (arith, h)),
    )

module _ (p : Packages) (laws : IsPackages p) where
  -- What `fromValue` opens is what `Get` sealed.
  from_value-seal :
      (ttl : ℤ) (m' : Moment) (n base : Text)
      → length n ≡ 12
      → from_value p ttl m' (p.encode (p.seal n base ++ n))
        ≡ (if ltb_ℤ (pos 0) ttl then check_expiration p m' base else ok base)
  unfolding from_value
  from_value-seal ttl m' n base h =
      let sealed = p.seal n base in
      let whole : length (sealed ++ n) ≡ length sealed + 12 =
        length-append sealed n ∙ ap (λ (k : ℕ). length sealed + k) h in
      let rest : length (sealed ++ n) - 12 ≡ length sealed = omega (arith, whole) in
      let long : ltb 12 (length (sealed ++ n)) ≡ true =
        ground (arith, whole, laws.seal-full n base) in
      rw
        (
          from_value,
          laws.decode-encode (sealed ++ n),
          long,
          rest,
          drop-append sealed n,
          take-append sealed n,
          laws.open-seal n base h,
        )
        refl

  check_expiration_lem :
      (m' : Moment) (i : ℤ) (t : Text)
      → NoBar t
      → wrap64 i ≡ i
      → ltb_ℤ (at_unix i) m'.now ≡ false
      → check_expiration p m' (t ++ (bar ∷ p.format_int i)) ≡ ok t
  unfolding check_expiration
  check_expiration_lem m' i t plain fits early =
      rw
        (
          check_expiration,
          split-append t (p.format_int i) plain (laws.format-NoBar i),
          laws.parse-format i fits,
          early,
        )
        (ap (λ (x : Text × List Text). ok x.0)
          (split-append t (p.format_int i) plain (laws.format-NoBar i)))

  -- The value has no expiration, or is read before the end of it.
  abbrev pub Lives : ℤ → Moment → Moment → Url → Type 0
  Lives ttl m m' u =
      (ltb_ℤ (pos 0) ttl ≡ false)
      ⊎ (NoBar (p.string u)
          × (wrap64 (unix (m.now +ℤ ttl)) ≡ unix (m.now +ℤ ttl))
          × (ltb_ℤ (at_unix (unix (m.now +ℤ ttl))) m'.now ≡ false))

  from_value-forever :
      (ttl : ℤ) (m m' : Moment) (u : Url)
      → length m.random ≡ 4
      → ltb_ℤ (pos 0) ttl ≡ false
      → from_value p ttl m' (aes_get p ttl m u) ≡ ok (p.string u)
  unfolding aes_get
  from_value-forever ttl m m' u random forever =
      rw (aes_get, forever)
        (from_value-seal ttl m' (nonce_at m) (p.string u) (length-nonce_at m random)
          ∙ rw forever refl)

  -- What the value of a cookie is read as, while it lives.
  from_value-aes_get :
      (ttl : ℤ) (m m' : Moment) (u : Url)
      → length m.random ≡ 4
      → Lives ttl m m' u
      → from_value p ttl m' (aes_get p ttl m u) ≡ ok (p.string u)
  unfolding aes_get
  from_value-aes_get ttl m m' u random (inl forever) = from_value-forever ttl m m' u random forever
  from_value-aes_get ttl m m' u random (inr (plain, fits, fresh)) =
      elim (Bool-cases (ltb_ℤ (pos 0) ttl)) [
        | inr forever ↦ from_value-forever ttl m m' u random forever
        | inl limited ↦
            let i = unix (m.now +ℤ ttl) in
            rw (aes_get, limited)
              (from_value-seal ttl m' (nonce_at m) (p.string u ++ (bar ∷ p.format_int i))
                  (length-nonce_at m random)
                ∙ rw limited (check_expiration_lem m' i (p.string u) plain fits fresh))
      ]

  -- An encrypted value leads back to a server with the scheme, host and path of the one that it was made
  -- for, if that one is in the list and can be read back from its text, as long as the value has no
  -- expiration, or else the text has no bar, the second of expiration fits in an int64, and the value is
  -- read no later than at that second.
  pub aes_value-Sticks :
      (ttl : ℤ) (m m' : Moment) (u : Url) (urls : List Url) (i : ℕ)
      → IsRead p u
      → length m.random ≡ 4
      → Lives ttl m m' u
      → get_elem? urls i ≡ some u
      → Sticks (aes_value p ttl) m m' u urls
  unfolding aes_value
  aes_value-Sticks ttl m m' u urls i read random lives e =
      let (v, found, same) = find_equal_lem p u read urls i e in
      (v, rw (aes_value, from_value-aes_get ttl m m' u random lives) found, same)
