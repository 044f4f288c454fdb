-- ===== src/Trace/Traced.antt =====
-- What `ServeHTTP` of the tracer leaves behind.
use Prim.Native.String.{String}
use oxy.Base.{◌≡◌, refl, ap, if◌then◌else◌}
use oxy.Base.Int.{ℤ, pos, eqb_ℤ}
use oxy.Http.Writer.{ResponseWriter, new_proxy_writer, status_code, proxy, Handler, run}
use oxy.Http.Proxied.{last_code, run-proxy_same}
use oxy.Trace.{Tracer, HttpRequest, capture_headers, new_record, serve_http}

module _ {W R F : Type 0} (x : ResponseWriter W R) (canonical : String → String) (of_int : ℤ → F)
    (divide : F → F → F) where
  -- The tracer hands a request on: its ResponseWriter ends as if the next handler had used it alone. The
  -- record has the last status code that the handler wrote, or 200 without one, and of the headers that
  -- the response ends with those that the tracer captures.
  pub serve_http-transparent :
      (t : Tracer) (start stop : ℤ) (next : HttpRequest → Handler R × HttpRequest)
      (req : HttpRequest) (w : W)
      → let (w', r) = serve_http canonical x of_int divide t start stop next req w in
        let code = last_code x (pos 0) (next req).0 w in
        (w' ≡ run x (next req).0 w)
        × (r.response.code ≡ (if eqb_ℤ code (pos 0) then pos 200 else code))
        × (r.response.headers ≡ capture_headers canonical (x.header w') t.resp_headers)
  unfolding serve_http new_record status_code new_proxy_writer proxy
  serve_http-transparent t start stop next req w =
      let (same, code) = run-proxy_same x (next req).0 (new_proxy_writer w) in
      (same, ap (λ (c : ℤ). if eqb_ℤ c (pos 0) then pos 200 else c) code, refl)
