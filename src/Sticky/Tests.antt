-- ===== src/Sticky/Tests.antt =====
-- Two servers, and packages that name them by one byte.

use oxy.Base.{
  ℕ, zero, suc, ◌==◌, ◌≡◌, refl, arith, true, false, none, some, if◌then◌else◌, inr, [], ◌∷◌,
  get_elem?, length, replicate, length-replicate, ap,
}
use oxy.Base.Int.{ℤ, pos, negsuc, ◌+ℤ◌, ◌-ℤ◌, ◌*ℤ◌, rem}
use oxy.Base.Int64.{wrap64, add64}
use oxy.Base.Text.{Text}
use oxy.Base.Result.{Result, err, ok}
use oxy.Counter.{unix}
use oxy.RoundRobin.{
  Url, Pool, same_url, server_urls, next_server, next_loop, turn, pick, weight_gcd, weight_gcd_from,
  max_weight, max_weight_from, gcd, gcd_loop,
}
use oxy.Sticky.{
  Packages, Moment, CookieOptions, Cookie, new_sticky_session, forwarded, raw_value, hash_value,
  aes_value, fallback_value, are_url_equal, find_equal, hash_of, normalized, find_hashed,
  serve_next, serve_http, stick_backend, get_backend,
}
use oxy.Sticky.Codec.{Sticks, IsRead}
use oxy.Sticky.Aes.{NoBar, IsPackages, aes_value-Sticks}
use oxy.Sticky.Affinity.{serve_http-affinity}

abbrev a : Url
a = record { scheme = "http"; host = "a"; path = "/"; rest = "" }

abbrev b : Url
b = record { scheme = "http"; host = "b"; path = "/"; rest = "" }

abbrev name_of : Url → Text
name_of u = if same_url u a then 1 ∷ [] else 2 ∷ []

abbrev url_of : Text → Url
url_of [] = b
url_of (x ∷ xs) = if x == 1 then a else b

-- A number in unary, after a 2 if it is negative.
abbrev printed : ℤ → Text
printed (pos n) = replicate n 1
printed (negsuc n) = 2 ∷ replicate n 1

abbrev read : Text → ℤ
read [] = pos 0
read (x ∷ xs) = if x == 2 then negsuc (length xs) else pos (suc (length xs))

abbrev unsealed : Text → Result Text Text
unsealed [] = err []
unsealed (x ∷ xs) = ok xs

abbrev packages : Packages
packages = record {
  string = name_of;
  parse = λ t. ok (url_of t);
  hash_text = λ t. t;
  format_int = printed;
  parse_int = λ t. ok (read t);
  encode = λ t. t;
  decode = λ t. ok t;
  seal = λ n t. 9 ∷ t;
  open_sealed = λ n t. unsealed t;
}

read-ones : (n : ℕ) → read (replicate n 1) ≡ pos n
read-ones zero = refl
read-ones (suc n) = ap (λ (k : ℕ). pos (suc k)) (length-replicate n 1)

read-printed : (i : ℤ) → read (printed i) ≡ i
read-printed (pos n) = read-ones n
read-printed (negsuc n) = ap negsuc (length-replicate n 1)

replicate-NoBar : (n : ℕ) → NoBar (replicate n 1)
replicate-NoBar zero = tt
replicate-NoBar (suc n) = (refl, replicate-NoBar n)

printed-NoBar : (i : ℤ) → NoBar (printed i)
printed-NoBar (pos n) = replicate-NoBar n
printed-NoBar (negsuc n) = (refl, replicate-NoBar n)

packages_laws : IsPackages packages
packages_laws = record {
  decode-encode = λ t. refl;
  open-seal = λ n t h. refl;
  seal-full = λ n t. omega arith;
  parse-format = λ i h. ap (λ (k : ℤ). ok k) (read-printed i);
  format-NoBar = printed-NoBar;
}

program : Unit {0}
unfolding same_url unix wrap64 ◌+ℤ◌ ◌-ℤ◌ ◌*ℤ◌ raw_value hash_value aes_value fallback_value
    find_equal are_url_equal hash_of normalized find_hashed serve_next serve_http stick_backend
    get_backend rem add64 next_server next_loop turn pick weight_gcd weight_gcd_from max_weight
    max_weight_from gcd gcd_loop server_urls
program = tt

b-IsRead : IsRead packages b
unfolding program
b-IsRead = record {
  back = b;
  parsed = refl;
  same_scheme = refl;
  same_host = refl;
  same_path = refl;
}

abbrev moment : Moment
moment = record {
  now = pos 62135596803000000000;
  now' = pos 62135596803000000001;
  random = 1 ∷ 2 ∷ 3 ∷ 4 ∷ [];
}

-- Two seconds are left to a value that is made with a ttl of two seconds.
aes_value-Sticks_example : Sticks (aes_value packages (pos 2000000000)) moment moment b (a ∷ b ∷ [])
unfolding program
aes_value-Sticks_example =
    aes_value-Sticks packages packages_laws (pos 2000000000) moment moment b (a ∷ b ∷ []) 1 b-IsRead
      refl (inr ((refl, tt), refl, refl)) refl

abbrev pool : Pool
pool = record {
  index = pos 0;
  servers = record { url = a; weight = pos 1 } ∷ record { url = b; weight = pos 1 } ∷ [];
  current_weight = pos 1;
}

abbrev options : CookieOptions
options = record {
  http_only = true;
  secure = false;
  path = "";
  domain = "";
  expires = pos 0;
  max_age = pos 0;
  same_site = pos 0;
}

picked_b :
    next_server pool
    ≡ some (record pool { index = pos 1 }, inr (record { url = b; weight = pos 1 }))
unfolding program
picked_b = refl

b_there : get_elem? (server_urls pool) 1 ≡ some b
unfolding program
b_there = refl

serve_http-affinity_example :
    let session = new_sticky_session packages "affinity" options in
    (c : Cookie) × (serve_http (some session) moment moment (ok none) pool
      ≡ some (record pool { index = pos 1 }, forwarded b (some c)))
    × (c.name ≡ "affinity")
    × (v : Url) × (serve_http (some session) moment moment (ok (some c.value)) pool
        ≡ some (pool, forwarded v none))
    × (same_url b v ≡ true)
serve_http-affinity_example =
    serve_http-affinity packages "affinity" options moment moment moment moment pool
      (record pool { index = pos 1 }) pool (record { url = b; weight = pos 1 }) 1 picked_b b-IsRead
      b_there
