-- ===== src/Sticky/Affinity.antt =====
-- Two requests of one client: the second carries the cookie of the first.
use Prim.Native.String.{String}
use oxy.Base.{ℕ, ◌≡◌, refl, true, none, some, inr, get_elem?}
use oxy.Base.Result.{ok}
use oxy.RoundRobin.{Url, Server, Pool, same_url, server_urls, next_server}
use oxy.Sticky.{
  Packages, Moment, CookieOptions, Cookie, new_sticky_session, stick_backend, get_backend,
  forwarded, serve_next, serve_http,
}
use oxy.Sticky.Codec.{IsRead, raw_value-Sticks}

-- A session as `NewStickySession` and `NewStickySessionWithOptions` make it, and a server that `nextServer`
-- picks for a request without a cookie: the request is forwarded to the server, and gets a cookie of the
-- session's name. If the URL of the server can be read back from its text, and the server is in the pool
-- of a later request with this cookie, then that request is forwarded, without a new cookie, to a server
-- in that pool of the same scheme, host and path, and the pool stays as it is.
pub serve_http-affinity :
    (p : Packages) (cookie_name : String) (options : CookieOptions) (m m1 m2 m3 : Moment)
    (r r1 r2 : Pool) (s : Server) (i : ℕ)
    → next_server r ≡ some (r1, inr s)
    → IsRead p s.url
    → get_elem? (server_urls r2) i ≡ some s.url
    → let session = new_sticky_session p cookie_name options in
      (c : Cookie) × (serve_http (some session) m m1 (ok none) r
        ≡ some (r1, forwarded s.url (some c)))
      × (c.name ≡ cookie_name)
      × (v : Url) × (serve_http (some session) m2 m3 (ok (some c.value)) r2
          ≡ some (r2, forwarded v none))
      × (same_url s.url v ≡ true)
unfolding serve_http serve_next get_backend stick_backend new_sticky_session
serve_http-affinity p cookie_name options m m1 m2 m3 r r1 r2 s i picked read here =
    let session = new_sticky_session p cookie_name options in
    let (v, found, same) = raw_value-Sticks p s.url read m1 m2 (server_urls r2) i here in
    (
      stick_backend session m1 s.url,
      rw (serve_http, get_backend, serve_next, picked) refl,
      refl,
      v,
      rw (serve_http, get_backend, found) refl,
      same,
    )
