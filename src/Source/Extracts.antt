-- ===== src/Source/Extracts.antt =====
-- Which requests have the same source.
use oxy.Base.{ℕ, ◌==◌, ◌≡◌, ◌≢◌, refl, ap, ◌∙◌, false, [], ◌∷◌, ◌++◌, All}
use oxy.Base.Int.{pos}
use oxy.Base.Text.{Text}
use oxy.Base.Result.{ok}
use oxy.Source.{
  SourceRequest, SourceExtractor, by_client_ip, client_ip, new_extractor, before_colon,
  extract_client_ip, extract,
}

abbrev pub NoColon : Text → Type 0
NoColon t = All (λ (b : ℕ). (b == 58) ≡ false) t

before_colon-append : (a b : Text) → NoColon a → before_colon (a ++ (58 ∷ b)) ≡ a
unfolding before_colon
before_colon-append [] b h = refl
before_colon-append (x ∷ xs) b h =
    rw (before_colon, h.0) (ap (λ (t : Text). x ∷ t) (before_colon-append xs b h.1))

-- The source of a request by "client.ip" is what stands before the first colon of its remote address, with
-- the amount 1, if that is not empty: all addresses that go on in any way after the same start are one
-- source.
pub extract-client_ip :
    (req : SourceRequest) (a b : Text)
    → NoColon a
    → a ≢ []
    → req.remote_addr ≡ a ++ (58 ∷ b)
    → (x : SourceExtractor) × (new_extractor client_ip ≡ ok x) × (extract x req ≡ ok (a, pos 1))
unfolding new_extractor extract extract_client_ip
extract-client_ip req [] b plain full e = absurd (full refl)
extract-client_ip req (x ∷ xs) b plain full e =
    let start : before_colon req.remote_addr ≡ x ∷ xs =
      ap before_colon e ∙ before_colon-append (x ∷ xs) b plain in
    (by_client_ip, refl, rw (extract, extract_client_ip, start) refl)
