-- ===== src/Http/Writer.antt =====
-- ProxyWriter and BufferWriter of utils/netutils.go, over the http.ResponseWriter and the io.WriteCloser that
-- they wrap.
use oxy.Base.{ℕ, Option, some, [], if◌then◌else◌, List, length}
use oxy.Base.Int.{ℤ, pos, eqb_ℤ}
use oxy.Base.Int64.{add64}
use oxy.Http.{Header}

-- http.ResponseWriter with the state `W`; a write answers with an `R`, a length and an error.
pub record ResponseWriter (W R : Type 0) : Type 0 where
  pub header : W → Option Header
  -- A change of the map that `Header` returned.
  pub edit : (Header → Header) → W → W
  pub write : List ℕ → W → W × R
  pub write_header : ℤ → W → W

-- `ProxyWriter`
pub record ProxyWriter (W : Type 0) : Type 0 where
  pub w : W
  pub code : ℤ
  pub length : ℤ

-- `NewProxyWriter`
unfoldable pub new_proxy_writer : {W : Type 0} → W → ProxyWriter W
new_proxy_writer w = record { w = w; code = pos 0; length = pos 0 }

-- `StatusCode`
unfoldable pub status_code : {W : Type 0} → ProxyWriter W → ℤ
status_code p = if eqb_ℤ p.code (pos 0) then pos 200 else p.code

-- The methods of `ProxyWriter`, which is a ResponseWriter.
unfoldable pub proxy : {W R : Type 0} → ResponseWriter W R → ResponseWriter (ProxyWriter W) R
proxy x = record {
  header = λ p. x.header p.w;
  edit = λ f p. record p { w = x.edit f p.w };
  write = λ buf p.
      let (w', r) = x.write buf p.w in
      (record p { w = w'; length = add64 p.length (pos (length buf)) }, r);
  write_header = λ code p. record p { w = x.write_header code p.w; code = code };
}

-- `BufferWriter`
pub record BufferWriter (W : Type 0) : Type 0 where
  pub h : Header
  pub code : ℤ
  pub w : W

-- `NewBufferWriter`
unfoldable pub new_buffer_writer : {W : Type 0} → W → BufferWriter W
new_buffer_writer w = record { h = []; code = pos 0; w = w }

-- The methods of `BufferWriter`; `write` is that of the writer below it.
unfoldable pub buffered : {W R : Type 0} → (List ℕ → W → W × R) → ResponseWriter (BufferWriter W) R
buffered write = record {
  header = λ b. some b.h;
  edit = λ f b. record b { h = f b.h };
  write = λ buf b. let (w', r) = write buf b.w in (record b { w = w' }, r);
  write_header = λ code b. record b { code = code };
}

-- A handler as it uses a ResponseWriter: what it does next may depend on what its writes answered.
pub data Handler (R : Type 0) : Type 0 where
  done : Handler R
  edits : (Header → Header) → Handler R → Handler R
  writes : List ℕ → (R → Handler R) → Handler R
  writes_header : ℤ → Handler R → Handler R

-- What the handler makes of a ResponseWriter.
unfoldable pub run : {W R : Type 0} → ResponseWriter W R → Handler R → W → W
run x done w = w
run x (edits f h) w = run x h (x.edit f w)
run x (writes buf k) w = let (w', r) = x.write buf w in run x (k r) w'
run x (writes_header code h) w = run x h (x.write_header code w)
