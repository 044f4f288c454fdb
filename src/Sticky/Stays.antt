-- ===== src/Sticky/Stays.antt =====
-- `ServeHTTP` of the round robin pool leaves its servers alone.
use oxy.Base.{◌≡◌, refl, sym, ◌∙◌, ap, arith, Option, none, some, inl, inr, Option-cases}
use oxy.Base.Text.{Text}
use oxy.Base.Result.{Result, ok, err}
use oxy.RoundRobin.{Url, Pool, next_server, server_urls}
use oxy.RoundRobin.Stays.{next_server_stays}
use oxy.Sticky.{Moment, StickySession, Served, get_backend, serve_http, serve_next}

-- The servers of the pool are those that it had.
serve_next_stays :
    (session : Option StickySession) (m : Moment) (r : Pool) {r' : Pool} {out : Served}
    → serve_next session m r ≡ some (r', out)
    → r'.servers ≡ r.servers
unfolding serve_next
serve_next_stays session m r {r' = r'} {out = out} e = elim (Option-cases (next_server r)) [
  | inl panic ↦ absurd (ground (arith, panic))
  | inr ((r1, inl e1), found) ↦
      let one : r1 ≡ r' = ground (arith, found) in
      ap (λ (p : Pool). p.servers) (sym one) ∙ next_server_stays r found
  | inr ((r1, inr s), found) ↦
      let one : r1 ≡ r' = ground (arith, found) in
      ap (λ (p : Pool). p.servers) (sym one) ∙ next_server_stays r found
]

pub serve_http_stays :
    (session : Option StickySession) (m m' : Moment) (cookie : Result Text (Option Text)) (r : Pool)
    {r' : Pool} {out : Served}
    → serve_http session m m' cookie r ≡ some (r', out)
    → r'.servers ≡ r.servers
unfolding serve_http
serve_http_stays none m m' cookie r e = serve_next_stays none m' r e
serve_http_stays (some x) m m' cookie r {r' = r'} {out = out} e =
    go (get_backend x m cookie (server_urls r)) refl
  where
    go :
        (b : Result Text (Option Url))
        → get_backend x m cookie (server_urls r) ≡ b
        → r'.servers ≡ r.servers
    go (ok (some u)) same =
        let one : r ≡ r' = ground (arith, same) in ap (λ (p : Pool). p.servers) (sym one)
    go (ok none) same = serve_next_stays (some x) m' r (rw (serve_http, same) at e)
    go (err f) same = serve_next_stays (some x) m' r (rw (serve_http, same) at e)
