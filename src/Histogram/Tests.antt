-- ===== src/Histogram/Tests.antt =====
-- A histogram that only counts, and a rolling histogram of two.
use Prim.Native.String.{String}
use oxy.Base.{ℕ, ◌+◌, ◌≡◌, refl, arith, ap, sym, Option, none, some, if◌then◌else◌, [], ◌∷◌}
use oxy.Base.Int.{ℤ, pos, pos_part, ltb_ℤ}
use oxy.Base.Result.{Result, ok}
use oxy.Histogram.{Hdr, HdrHistogram, RollingHistogram, record_rolling, merged}
use oxy.Histogram.Window.{IsHdr, IsRolling, total, dropped, added, merged-record_rolling}

abbrev Counts : Type 0
Counts = ℕ × (ℤ × ℤ × ℤ)

abbrev refuse : ℤ → ℤ → Counts → Counts × Option String
refuse v n c = if ltb_ℤ c.1.1 v then (c, some "too large") else ((c.0 + pos_part n, c.1), none)

pub limits-refuse : (v n : ℤ) (c : Counts) → (refuse v n c).0.1 ≡ c.1
limits-refuse v n c = ground arith

pub size-refuse :
    (v : ℤ) (n : ℕ) (c : Counts)
    → (refuse v (pos n) c).1 ≡ none
    → (refuse v (pos n) c).0.0 ≡ c.0 + n
size-refuse v n c e = ground arith

pub size-refused_lem :
    (v : ℤ) (n : ℕ) (c : Counts) (e : String)
    → (refuse v (pos n) c).1 ≡ some e
    → (refuse v (pos n) c).0.0 ≡ c.0
size-refused_lem v n c e h = ground arith

abbrev made : ℤ × ℤ × ℤ → Result String Counts
made l = ok (0, l)

pub size-made : (l : ℤ × ℤ × ℤ) (h : Counts) → made l ≡ ok h → (h.0 ≡ 0) × (h.1 ≡ l)
size-made l h e =
    let e' : made l ≡ ok h = e in
    let same : (0, l) ≡ h = cc in
    (ap (λ (c : Counts). c.0) (sym same), ap (λ (c : Counts). c.1) (sym same))

abbrev pub counts : Hdr
counts = record {
  Histogram = Counts;
  Float = ℕ;
  new = λ low high sigfigs. ok (0, (low, high, sigfigs));
  copy = λ c. c;
  reset = λ c. (0, c.1);
  merge = λ c d. (c.0 + d.0, c.1);
  record_values = refuse;
  value_at_quantile = λ q c. pos q;
}

abbrev pub counts_laws : IsHdr counts
counts_laws = record {
  size = λ c. c.0;
  limits = λ c. c.1;
  size-new = λ low high sigfigs h e. size-made (low, high, sigfigs) h e;
  size-reset = λ h. (refl, refl);
  size-merge = λ h o e. (refl, refl);
  limits-record = limits-refuse;
  size-record = size-refuse;
  size-refused = size-refused_lem;
}

abbrev histogram : ℕ → HdrHistogram counts
histogram n = record {
  low = pos 1;
  high = pos 60;
  sigfigs = pos 2;
  h = (n, (pos 1, pos 60, pos 2));
}

abbrev pub rolling : RollingHistogram counts
rolling = record {
  idx = 1;
  last_roll = pos 5;
  period = pos 10;
  bucket_count = pos 2;
  low = pos 1;
  high = pos 60;
  sigfigs = pos 2;
  buckets = histogram 4 ∷ histogram 7 ∷ [];
}

abbrev pub is_rolling : IsRolling counts counts_laws rolling
is_rolling = record { in_range = omega arith; same = (refl, (refl, tt)) }

merged-record_rolling_example :
    (r' : RollingHistogram counts) × (e : Option String) × (m : HdrHistogram counts)
    × (record_rolling counts (pos 15) (pos 16) (pos 30) (pos 1) rolling ≡ some (r', e))
    × (merged counts r' ≡ ok m)
    × (m.h.0 + dropped counts counts_laws (pos 15) rolling
        ≡ total counts counts_laws rolling.buckets + added counts counts_laws 1 e)
merged-record_rolling_example =
    merged-record_rolling counts counts_laws (pos 15) (pos 16) (pos 30) 1 rolling is_rolling refl
