-- ===== src/Source/Tests.antt =====
-- Two IPv6 clients that are one source.
use oxy.Base.{◌≡◌, ◌≢◌, refl, [], ◌∷◌}
use oxy.Base.Int.{pos}
use oxy.Base.Text.{Text}
use oxy.Base.Result.{ok}
use oxy.Source.{SourceRequest, SourceExtractor, new_extractor, client_ip, extract}
use oxy.Source.Extracts.{extract-client_ip}

-- `[::1]:80`
abbrev loopback : SourceRequest
loopback = record {
  remote_addr = 91 ∷ 58 ∷ 58 ∷ 49 ∷ 93 ∷ 58 ∷ 56 ∷ 48 ∷ [];
  host = 104 ∷ [];
  header = λ h. h;
}

abbrev bracket : Text
bracket = 91 ∷ []

bracket_full : bracket ≢ []
bracket_full e = cc

extract-client_ip_example :
    (x : SourceExtractor) × (new_extractor client_ip ≡ ok x)
    × (extract x loopback ≡ ok (bracket, pos 1))
extract-client_ip_example =
    extract-client_ip loopback bracket (58 ∷ 49 ∷ 93 ∷ 58 ∷ 56 ∷ 48 ∷ []) (refl, tt) bracket_full
      refl
