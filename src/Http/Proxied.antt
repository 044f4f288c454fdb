-- ===== src/Http/Proxied.antt =====
-- What a handler does through a ProxyWriter.
use oxy.Base.{ℕ, ◌+◌, ◌^◌, ◌<◌, ◌≡◌, refl, ◌∙◌, ap, arith, length}
use oxy.Base.Int.{ℤ, pos, ◌+ℤ◌}
use oxy.Base.Int64.{add64, wrap64}
use oxy.Http.Writer.{
  ResponseWriter, ProxyWriter, new_proxy_writer, proxy, Handler, done, edits, writes, writes_header,
  run,
}

module _ {W R : Type 0} (x : ResponseWriter W R) where
  -- The bytes that the handler writes to a ResponseWriter, and the last code, `code` before any.
  abbrev pub total : Handler R → W → ℕ
  total done w = 0
  total (edits f h) w = total h (x.edit f w)
  total (writes buf k) w = let (w', r) = x.write buf w in length buf + total (k r) w'
  total (writes_header code h) w = total h (x.write_header code w)

  abbrev pub last_code : ℤ → Handler R → W → ℤ
  last_code code done w = code
  last_code code (edits f h) w = last_code code h (x.edit f w)
  last_code code (writes buf k) w = let (w', r) = x.write buf w in last_code code (k r) w'
  last_code code (writes_header c h) w = last_code c h (x.write_header c w)

  -- The wrapped ResponseWriter ends as without the ProxyWriter, which holds the last code.
  pub run-proxy_same :
      (h : Handler R) (p : ProxyWriter W)
      → ((run (proxy x) h p).w ≡ run x h p.w) × ((run (proxy x) h p).code ≡ last_code p.code h p.w)
  unfolding run proxy
  run-proxy_same done p = (refl, refl)
  run-proxy_same (edits f h) p = run-proxy_same h ((proxy x).edit f p)
  run-proxy_same (writes_header c h) p = run-proxy_same h ((proxy x).write_header c p)
  run-proxy_same (writes buf k) p = run-proxy_same (k (x.write buf p.w).1) ((proxy x).write buf p).0

  count_up : (n m : ℕ) → n + m < 2 ^ 63 → add64 (pos n) (pos m) ≡ pos (n + m)
  unfolding add64 wrap64 ◌+ℤ◌
  count_up n m h = ground arith

  run-proxy :
      (h : Handler R) (w : W) (code : ℤ) (n : ℕ)
      → n + total h w < 2 ^ 63
      → run (proxy x) h (record { w = w; code = code; length = pos n })
        ≡ record { w = run x h w; code = last_code code h w; length = pos (n + total h w) }
  unfolding run proxy
  run-proxy done w code n low =
      ap (λ l. record { w = w; code = code; length = pos l }) (omega arith)
  run-proxy (edits f h) w code n low = run-proxy h (x.edit f w) code n low
  run-proxy (writes_header c h) w code n low = run-proxy h (x.write_header c w) c n low
  run-proxy (writes buf k) w code n low =
      let (w', r) = x.write buf w in
      let rest = run-proxy (k r) w' code (n + length buf) (omega (arith, low)) in
      ap (λ l. run (proxy x) (k r) (record { w = w'; code = code; length = l }))
        (count_up n (length buf) (omega (arith, low)))
      ∙ rest
      ∙ ap (λ l. record { w = run x (k r) w'; code = last_code code (k r) w'; length = pos l })
          (omega arith)

  pub run-new_proxy_writer :
      (h : Handler R) (w : W)
      → total h w < 2 ^ 63
      → run (proxy x) h (new_proxy_writer w)
        ≡ record { w = run x h w; code = last_code (pos 0) h w; length = pos (total h w) }
  unfolding new_proxy_writer
  run-new_proxy_writer h w low =
      run-proxy h w (pos 0) 0 (omega (arith, low))
      ∙ ap (λ l. record { w = run x h w; code = last_code (pos 0) h w; length = pos l })
          (omega arith)
