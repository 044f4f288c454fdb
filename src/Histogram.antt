-- ===== src/Histogram.antt =====
-- memmetrics/histogram.go: a rolling histogram of latencies. The histograms of the package hdrhistogram
-- are a parameter. Times are numbers of nanoseconds, and calls of `clock.Now()` are arguments.
pub mod Window
pub mod Tests
use Prim.Native.String.{String}
use oxy.Base.{
  ℕ, zero, suc, ◌+◌, ◌%◌, ◌==◌, Option, none, some, if◌then◌else◌, not, ◌&&◌, ◌||◌, List, [], ◌∷◌,
  length, map, get_elem?, set, replicate,
}
use oxy.Base.Int.{ℤ, pos, pos_part, negsuc, ltb_ℤ, leb_ℤ, eqb_ℤ, quot, rem, ◌-ℤ◌}
use oxy.Base.Int64.{add64, clamp64, mul64}
use oxy.Base.Result.{Result, err, ok, ◌>>=◌}

-- `hdrhistogram.Histogram`, and float64 for a quantile. `new` returns the text of a panic or a histogram.
pub record Hdr : Type 1 where
  pub Histogram : Type 0
  pub Float : Type 0
  pub new : ℤ → ℤ → ℤ → Result String Histogram
  pub copy : Histogram → Histogram
  pub reset : Histogram → Histogram
  pub merge : Histogram → Histogram → Histogram
  pub record_values : ℤ → ℤ → Histogram → Histogram × Option String
  pub value_at_quantile : Float → Histogram → ℤ

module _ (hdr : Hdr) where
  -- `HDRHistogram`
  pub record HdrHistogram : Type 0 where
    pub low : ℤ
    pub high : ℤ
    pub sigfigs : ℤ
    pub h : hdr.Histogram

  -- `NewHDRHistogram`, which recovers a panic as an error.
  unfoldable pub new_hdr_histogram : ℤ → ℤ → ℤ → Result String HdrHistogram
  new_hdr_histogram low high sigfigs = do
    h ← hdr.new low high sigfigs
    ok (record { low = low; high = high; sigfigs = sigfigs; h = h })

  -- `HDRHistogram.Export`, `Reset` and `Merge`, on histograms that are not nil.
  unfoldable pub export_hdr : HdrHistogram → HdrHistogram
  export_hdr h = record h { h = hdr.copy h.h }

  unfoldable pub reset_hdr : HdrHistogram → HdrHistogram
  reset_hdr h = record h { h = hdr.reset h.h }

  unfoldable pub merge_hdr : HdrHistogram → HdrHistogram → HdrHistogram
  merge_hdr h other = record h { h = hdr.merge h.h other.h }

  -- `HDRHistogram.RecordValues`
  unfoldable pub record_hdr : ℤ → ℤ → HdrHistogram → HdrHistogram × Option String
  record_hdr v n h = let (h', e) = hdr.record_values v n h.h in (record h { h = h' }, e)

  -- `LatencyAtQuantile`, in nanoseconds.
  unfoldable pub latency_at_quantile : hdr.Float → HdrHistogram → ℤ
  latency_at_quantile q h = mul64 (hdr.value_at_quantile q h.h) (pos 1000)

  -- `RollingHDRHistogram`
  pub record RollingHistogram : Type 0 where
    pub idx : ℕ
    pub last_roll : ℤ
    pub period : ℤ
    pub bucket_count : ℤ
    pub low : ℤ
    pub high : ℤ
    pub sigfigs : ℤ
    pub buckets : List HdrHistogram

  -- The loop of `NewRollingHDRHistogram`.
  unfoldable pub new_buckets : ℕ → ℤ → ℤ → ℤ → Result String (List HdrHistogram)
  new_buckets zero low high sigfigs = ok []
  new_buckets (suc k) low high sigfigs =
      let rest = new_buckets k low high sigfigs in
      new_hdr_histogram low high sigfigs >>= (λ h. rest >>= (λ hs. ok (h ∷ hs)))

  -- `NewRollingHDRHistogram`, with no options and a bucket count that is not negative.
  unfoldable pub new_rolling_histogram : ℤ → ℤ → ℤ → ℤ → ℕ → Result String RollingHistogram
  new_rolling_histogram low high sigfigs period bucket_count = do
    hs ← new_buckets bucket_count low high sigfigs
    ok (record {
      idx = 0;
      last_roll = pos 0;
      period = period;
      bucket_count = pos bucket_count;
      low = low;
      high = high;
      sigfigs = sigfigs;
      buckets = hs;
    })

  -- `Export`
  unfoldable pub export_rolling : RollingHistogram → RollingHistogram
  export_rolling r = record r { buckets = map export_hdr r.buckets }

  -- The loop of `Append`; `none` is a panic.
  unfoldable pub merge_each : List HdrHistogram → List HdrHistogram → Option (List HdrHistogram)
  merge_each [] os = some []
  merge_each (h ∷ hs) [] = none
  merge_each (h ∷ hs) (o ∷ os) = elim (merge_each hs os) [
    | none ↦ none
    | some hs' ↦ some (merge_hdr h o ∷ hs')
  ]

  -- `Append`: the histogram, or the error "can't merge".
  unfoldable pub append_rolling :
      RollingHistogram → RollingHistogram → Option (RollingHistogram × Option String)
  append_rolling r o =
      if not (
        eqb_ℤ r.bucket_count o.bucket_count
        && (eqb_ℤ r.period o.period
            && (eqb_ℤ r.low o.low && (eqb_ℤ r.high o.high && eqb_ℤ r.sigfigs o.sigfigs))))
      then some (r, some "can't merge")
      else elim (merge_each r.buckets o.buckets) [
        | none ↦ none
        | some hs ↦ some (record r { buckets = hs }, none)
      ]

  -- `Reset`
  unfoldable pub reset_rolling : ℤ → RollingHistogram → RollingHistogram
  reset_rolling now r = record r { idx = 0; last_roll = now; buckets = map reset_hdr r.buckets }

  -- `rotate`; `none` is the division by 0 of an empty histogram, in which there is no bucket to find.
  unfoldable pub rotate : RollingHistogram → Option RollingHistogram
  rotate r =
      let i = (r.idx + 1) % length r.buckets in
      elim (get_elem? r.buckets i) [
        | none ↦ none
        | some h ↦ some (record r { idx = i; buckets = set r.buckets i (reset_hdr h) })
      ]

  -- The loop of `Merged`.
  unfoldable pub merge_all : HdrHistogram → List HdrHistogram → HdrHistogram
  merge_all m [] = m
  merge_all m (h ∷ hs) = merge_all (merge_hdr m h) hs

  -- `Merged`
  unfoldable pub merged : RollingHistogram → Result String HdrHistogram
  merged r = do m ← new_hdr_histogram r.low r.high r.sigfigs; ok (merge_all m r.buckets)

  -- `getHist`, up to the choice of the bucket; it reads the clock twice if it rotates.
  unfoldable pub roll : ℤ → ℤ → RollingHistogram → Option RollingHistogram
  roll now now' r =
      if leb_ℤ r.period (clamp64 (now -ℤ r.last_roll))
      then elim (rotate r) [ none ↦ none | some r' ↦ some (record r' { last_roll = now' }) ]
      else some r

  -- `RecordValues`; `none` is a panic.
  unfoldable pub record_rolling :
      ℤ → ℤ → ℤ → ℤ → RollingHistogram → Option (RollingHistogram × Option String)
  record_rolling now now' v n r = elim (roll now now' r) [
    | none ↦ none
    | some r' ↦ elim (get_elem? r'.buckets r'.idx) [
      | none ↦ none
      | some h ↦
          let (h', e) = record_hdr v n h in
          some (record r' { buckets = set r'.buckets r'.idx h' }, e)
    ]
  ]

  -- `RecordLatencies`, with microsecond precision.
  unfoldable pub record_latencies :
      ℤ → ℤ → ℤ → ℤ → RollingHistogram → Option (RollingHistogram × Option String)
  record_latencies now now' d n r = record_rolling now now' (quot d (pos 1000)) n r
