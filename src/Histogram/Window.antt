-- ===== src/Histogram/Window.antt =====
-- How many values the merged histogram holds.
use Prim.Native.String.{String}
use native.Mathlib.Nat.{mod-lt}
use oxy.Base.{
  ℕ, zero, suc, ◌+◌, ◌%◌, ◌<◌, ◌≡◌, refl, arith, sym, subst, ap, ◌∙◌, Option, none, some,
  if◌then◌else◌, Bool-cases, Option-cases, inl, inr, List, [], ◌∷◌, length, length-set, get_elem?,
  get_elem?-some, set, All, All-set, All-get_elem?,
}
use oxy.Base.Int.{ℤ, pos, leb_ℤ, ◌-ℤ◌}
use oxy.Base.Int64.{clamp64}
use oxy.Base.Result.{ok}
use oxy.Histogram.{
  Hdr, HdrHistogram, new_hdr_histogram, reset_hdr, merge_hdr, record_hdr, RollingHistogram, rotate,
  merge_all, merged, roll, record_rolling,
}

-- What is known of the package's histograms: `size` counts the recorded values, and two histograms with
-- the same limits merge without loss. A value that is refused is not counted.
pub record IsHdr (hdr : Hdr) : Type 0 where
  pub size : hdr.Histogram → ℕ
  pub limits : hdr.Histogram → ℤ × ℤ × ℤ
  pub size-new :
      (low high sigfigs : ℤ) (h : hdr.Histogram)
      → hdr.new low high sigfigs ≡ ok h
      → (size h ≡ 0) × (limits h ≡ (low, high, sigfigs))
  pub size-reset :
      (h : hdr.Histogram) → (size (hdr.reset h) ≡ 0) × (limits (hdr.reset h) ≡ limits h)
  pub size-merge :
      (h o : hdr.Histogram)
      → limits h ≡ limits o
      → (size (hdr.merge h o) ≡ size h + size o) × (limits (hdr.merge h o) ≡ limits h)
  pub limits-record : (v n : ℤ) (h : hdr.Histogram) → limits (hdr.record_values v n h).0 ≡ limits h
  pub size-record :
      (v : ℤ) (n : ℕ) (h : hdr.Histogram)
      → (hdr.record_values v (pos n) h).1 ≡ none
      → size (hdr.record_values v (pos n) h).0 ≡ size h + n
  pub size-refused :
      (v : ℤ) (n : ℕ) (h : hdr.Histogram) (e : String)
      → (hdr.record_values v (pos n) h).1 ≡ some e
      → size (hdr.record_values v (pos n) h).0 ≡ size h

module _ (hdr : Hdr) (laws : IsHdr hdr) where
  open laws use {size, limits}

  abbrev pub total : List (HdrHistogram hdr) → ℕ
  total [] = 0
  total (h ∷ hs) = size h.h + total hs

  abbrev pub HasLimits : ℤ × ℤ × ℤ → HdrHistogram hdr → Type 0
  HasLimits l h = limits h.h ≡ l

  abbrev pub bounds : RollingHistogram hdr → ℤ × ℤ × ℤ
  bounds r = (r.low, r.high, r.sigfigs)

  -- The index is in range, and all buckets have the limits of the whole.
  pub record IsRolling (r : RollingHistogram hdr) : Type 0 where
    pub in_range : r.idx < length r.buckets
    pub same : All (HasLimits (r.low, r.high, r.sigfigs)) r.buckets

  total-set :
      (hs : List (HdrHistogram hdr)) (i : ℕ) (h h' : HdrHistogram hdr)
      → get_elem? hs i ≡ some h
      → total (set hs i h') + size h.h ≡ total hs + size h'.h
  total-set [] i h h' e = absurd (ground arith)
  total-set (x ∷ hs) zero h h' e =
      let same : x ≡ h = ground arith in
      let sizes : size x.h ≡ size h.h = ap (λ (y : HdrHistogram hdr). size y.h) same in
      omega (arith, sizes)
  total-set (x ∷ hs) (suc i) h h' e = omega (arith, total-set hs i h h' e)

  merge_all-size :
      (l : ℤ × ℤ × ℤ) (hs : List (HdrHistogram hdr)) (m : HdrHistogram hdr)
      → HasLimits l m
      → All (HasLimits l) hs
      → size (merge_all hdr m hs).h ≡ size m.h + total hs
  unfolding merge_all merge_hdr
  merge_all-size l [] m hm h = omega arith
  merge_all-size l (x ∷ hs) m hm (hx, h) =
      let (sizes, lims) = laws.size-merge m.h x.h (hm ∙ sym hx) in
      let rest = merge_all-size l hs (merge_hdr hdr m x) (lims ∙ hm) h in omega (arith, sizes, rest)

  -- How many values the rotation of a call at the time `now` throws away.
  abbrev pub dropped : ℤ → RollingHistogram hdr → ℕ
  dropped now r =
      if leb_ℤ r.period (clamp64 (now -ℤ r.last_roll))
      then elim (get_elem? r.buckets ((r.idx + 1) % length r.buckets)) [
        | none ↦ 0
        | some h ↦ size h.h
      ]
      else 0

  rotate_lem :
      (r : RollingHistogram hdr)
      → IsRolling r
      → (h : HdrHistogram hdr) × (get_elem? r.buckets ((r.idx + 1) % length r.buckets) ≡ some h)
        × (rotate hdr r
            ≡ some (record r {
              idx = (r.idx + 1) % length r.buckets;
              buckets = set r.buckets ((r.idx + 1) % length r.buckets) (reset_hdr hdr h);
            }))
  unfolding rotate
  rotate_lem r rolling =
      let low : (r.idx + 1) % length r.buckets < length r.buckets =
        mod-lt (r.idx + 1) (omega (arith, rolling.in_range)) in
      let (h, e) = get_elem?-some r.buckets ((r.idx + 1) % length r.buckets) low in
      (h, e, rw (rotate, e) refl)

  roll_lem :
      (now now' : ℤ) (r : RollingHistogram hdr)
      → IsRolling r
      → (r' : RollingHistogram hdr) × (roll hdr now now' r ≡ some r')
        × IsRolling r'
        × (total r'.buckets + dropped now r ≡ total r.buckets)
        × (bounds r' ≡ bounds r)
  unfolding roll reset_hdr
  roll_lem now now' r rolling = elim (Bool-cases (leb_ℤ r.period (clamp64 (now -ℤ r.last_roll)))) [
    | inr early ↦ (r, rw (roll, early) refl, rolling, rw early (omega arith), refl)
    | inl due ↦
        let (h, e, rotated) = rotate_lem r rolling in
        let i = (r.idx + 1) % length r.buckets in
        let low : (r.idx + 1) % length r.buckets < length r.buckets =
          mod-lt (r.idx + 1) (omega (arith, rolling.in_range)) in
        let (empty, lims) = laws.size-reset h.h in
        let sum = total-set r.buckets i h (reset_hdr hdr h) e in
        let old = All-get_elem? (HasLimits (r.low, r.high, r.sigfigs)) r.buckets i rolling.same e in
        (
          record r { idx = i; buckets = set r.buckets i (reset_hdr hdr h); last_roll = now' },
          rw (roll, due, rotated) refl,
          record {
            in_range = omega (arith, low, length-set r.buckets i (reset_hdr hdr h));
            same =
                All-set (HasLimits (r.low, r.high, r.sigfigs)) r.buckets i (reset_hdr hdr h)
                  rolling.same (lims ∙ old);
          },
          rw (due, e) (omega (arith, sum, empty)),
          refl,
        )
  ]

  -- How many values a call of `RecordValues` adds, by the error that it returns.
  abbrev pub added : ℕ → Option String → ℕ
  added n none = n
  added n (some e) = 0

  size-record_hdr :
      (v : ℤ) (n : ℕ) (h : HdrHistogram hdr)
      → size (record_hdr hdr v (pos n) h).0.h ≡ size h.h + added n (record_hdr hdr v (pos n) h).1
  unfolding record_hdr
  size-record_hdr v n h = elim (Option-cases (hdr.record_values v (pos n) h.h).1) [
    | inl fine ↦ rw fine (laws.size-record v n h.h fine)
    | inr (e, bad) ↦ rw bad (laws.size-refused v n h.h e bad ∙ omega arith)
  ]

  limits-record_hdr :
      (v n : ℤ) (h : HdrHistogram hdr) → limits (record_hdr hdr v n h).0.h ≡ limits h.h
  unfolding record_hdr
  limits-record_hdr v n h = laws.limits-record v n h.h

  pub record_rolling_lem :
      (now now' v : ℤ) (n : ℕ) (r : RollingHistogram hdr)
      → IsRolling r
      → (r' : RollingHistogram hdr) × (e : Option String) × (record_rolling hdr now now' v (pos n) r
          ≡ some (r', e))
        × IsRolling r'
        × (total r'.buckets + dropped now r ≡ total r.buckets + added n e)
        × (bounds r' ≡ bounds r)
  unfolding record_rolling
  record_rolling_lem now now' v n r rolling =
      let (r1, e1, rolling1, sum1, lims1) = roll_lem now now' r rolling in
      let (h, eh) = get_elem?-some r1.buckets r1.idx rolling1.in_range in
      let h' = (record_hdr hdr v (pos n) h).0 in
      let old =
        All-get_elem? (HasLimits (r1.low, r1.high, r1.sigfigs)) r1.buckets r1.idx rolling1.same
          eh in
      let sum2 = total-set r1.buckets r1.idx h h' eh in
      let more = size-record_hdr v n h in
      (
        record r1 { buckets = set r1.buckets r1.idx h' },
        (record_hdr hdr v (pos n) h).1,
        rw (record_rolling, e1, eh) refl,
        record {
          in_range = omega (arith, rolling1.in_range, length-set r1.buckets r1.idx h');
          same =
              All-set (HasLimits (r1.low, r1.high, r1.sigfigs)) r1.buckets r1.idx h' rolling1.same
                (limits-record_hdr v (pos n) h ∙ old);
        },
        omega (arith, sum1, sum2, more),
        lims1,
      )

  -- `RecordValues` of n values on a rolling histogram whose buckets have its limits does not panic. The
  -- merged histogram holds all values that the buckets held before, less those of the bucket that the
  -- rotation cleared, and the n values if there was no error. A histogram with these limits can be made.
  pub merged-record_rolling :
      (now now' v : ℤ) (n : ℕ) (r : RollingHistogram hdr) {fresh : hdr.Histogram}
      → IsRolling r
      → hdr.new r.low r.high r.sigfigs ≡ ok fresh
      → (r' : RollingHistogram hdr) × (e : Option String) × (m : HdrHistogram hdr) × (record_rolling
            hdr now now' v
            (pos n)
            r
          ≡ some (r', e))
        × (merged hdr r' ≡ ok m)
        × (size m.h + dropped now r ≡ total r.buckets + added n e)
  unfolding merged new_hdr_histogram
  merged-record_rolling now now' v n r {fresh} rolling made =
      let (r', e, eq, rolling', sum, lims) = record_rolling_lem now now' v n r rolling in
      let made' : hdr.new r'.low r'.high r'.sigfigs ≡ ok fresh =
        subst (λ (l : ℤ × ℤ × ℤ). hdr.new l.0 l.1 l.2 ≡ ok fresh) (sym lims) made in
      let m : HdrHistogram hdr = record {
        low = r'.low;
        high = r'.high;
        sigfigs = r'.sigfigs;
        h = fresh;
      } in
      let (empty, limited) = laws.size-new r'.low r'.high r'.sigfigs fresh made' in
      let all = merge_all-size (bounds r') r'.buckets m limited rolling'.same in
      (
        r',
        e,
        merge_all hdr m r'.buckets,
        eq,
        rw (merged, new_hdr_histogram, made') refl,
        omega (arith, sum, empty, all),
      )
