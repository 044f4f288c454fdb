-- ===== src/RoundTrip/Recorded.antt =====
-- What the counters of round trip metrics show after a request.
use oxy.Base.{
  ℕ, ◌+◌, ◌^◌, ◌<◌, ◌≡◌, refl, arith, sym, subst, Option, none, some, if◌then◌else◌, Bool-cases,
  Option-cases, inl, inr,
}
use oxy.Base.Int.{ℤ, pos, eqb_ℤ, eqb_ℤ_iff, quot}
use oxy.Base.Assoc.{int_eq, lookup, insert, lookup-insert}
use oxy.Base.Result.{Result, ok}
use oxy.Counter.{RollingCounter, CounterError, inc}
use oxy.Counter.Shows.{Shows, inc-Shows}
use oxy.Histogram.{Hdr, record_latencies}
use oxy.Histogram.Window.{IsHdr, IsRolling, record_rolling_lem}
use oxy.RoundTrip.{
  Codes, RtMetrics, is_net_error, record_status_code, add_status_code, record_metrics,
}

-- A missing counter shows 0.
abbrev pub HasCount : ℤ → ℕ → Option RollingCounter → Type 0
HasCount now n none = n ≡ 0
HasCount now n (some c) = Shows now c n

abbrev pub Counted : ℤ → (ℤ → ℕ) → Codes → Type 0
Counted now s codes = (k : ℤ) → HasCount now (s k) (lookup k codes)

-- The numbers of requests by status code after one more with a code.
abbrev pub one_more : ℤ → (ℤ → ℕ) → ℤ → ℕ
one_more code s k = if eqb_ℤ k code then s k + 1 else s k

insert-Counted :
    (now code : ℤ) (s : ℤ → ℕ) (c : RollingCounter) (codes : Codes)
    → Counted now s codes
    → Shows now c (s code + 1)
    → Counted now (one_more code s) (insert code c codes)
insert-Counted now code s c codes h shows k = elim (Bool-cases (eqb_ℤ k code)) [
  | inl same ↦
      let eq : k ≡ code = (eqb_ℤ_iff k code).0 same in
      rw (lookup-insert code k c codes, same, eq) shows
  | inr apart ↦ rw (lookup-insert code k c codes, apart) (h k)
]

record_status_code-Counted :
    (now code : ℤ) (made : Result CounterError RollingCounter) (fresh : RollingCounter) (s : ℤ → ℕ)
    (codes : Codes)
    → Counted now s codes
    → made ≡ ok fresh
    → Shows now fresh 0
    → s code + 1 < 2 ^ 63
    → (codes' : Codes) × (record_status_code now now code made codes ≡ some codes')
      × Counted now (one_more code s) codes'
unfolding record_status_code add_status_code
record_status_code-Counted now code made fresh s codes h e empty low =
    elim (Option-cases (lookup code codes)) [
      | inl absent ↦
          let zero : s code ≡ 0 = subst (HasCount now (s code)) absent (h code) in
          let (c, eq, shows) = inc-Shows now 1 0 fresh empty (omega arith) in
          (
            insert code c codes,
            rw (record_status_code, absent, add_status_code, absent, e, eq) refl,
            insert-Counted now code s c codes h
                (subst (λ (n : ℕ). Shows now c (n + 1)) (sym zero) shows),
          )
      | inr (old, found) ↦
          let before : Shows now old (s code) = subst (HasCount now (s code)) found (h code) in
          let (c, eq, shows) = inc-Shows now 1 (s code) old before low in
          (
            insert code c codes,
            rw (record_status_code, found, eq) refl,
            insert-Counted now code s c codes h shows,
          )
    ]

net_errors_lem :
    (now code : ℤ) (c : RollingCounter) (e : ℕ)
    → Shows now c e
    → e + 1 < 2 ^ 63
    → (c' : RollingCounter) × ((if is_net_error code then inc now now (pos 1) c else some c)
        ≡ some c')
      × Shows now c' (if is_net_error code then e + 1 else e)
net_errors_lem now code c e h low = elim (Bool-cases (is_net_error code)) [
  | inr fine ↦ (c, rw fine refl, rw fine h)
  | inl bad ↦
      let (c', eq, shows) = inc-Shows now 1 e c h low in (c', rw (bad, eq) refl, rw bad shows)
]

module _ (hdr : Hdr) (laws : IsHdr hdr) where
  -- At a time the metrics count `t` requests, `e` network errors, and `s k` requests with the code `k`.
  pub record Measures (now : ℤ) (m : RtMetrics hdr) (t e : ℕ) (s : ℤ → ℕ) : Type 0 where
    pub total : Shows now m.total t
    pub net_errors : Shows now m.net_errors e
    pub codes : Counted now s m.status_codes
    pub fresh : RollingCounter
    pub made : m.new_counter ≡ ok fresh
    pub empty : Shows now fresh 0
    pub rolling : IsRolling hdr laws m.histogram

  -- `Record` at a time at which the metrics count t requests, e network errors, and s(k) requests of each
  -- code k, does not panic; afterwards they count one request more, one network error more if the code is
  -- 502 or 504, and one request more of that code and of no other, as long as these fit in an int64.
  pub record_metrics-Measures :
      (now code duration : ℤ) (m : RtMetrics hdr) (t e : ℕ) (s : ℤ → ℕ)
      → Measures now m t e s
      → t + 1 < 2 ^ 63
      → e + 1 < 2 ^ 63
      → s code + 1 < 2 ^ 63
      → (m' : RtMetrics hdr) × (record_metrics hdr (λ _. now) code duration m ≡ some m')
        × Measures now m' (t + 1) (if is_net_error code then e + 1 else e) (one_more code s)
  unfolding record_metrics record_latencies
  record_metrics-Measures now code duration m t e s h low_t low_e low_s =
      let (total, et, shows_t) = inc-Shows now 1 t m.total h.total low_t in
      let (net, en, shows_e) = net_errors_lem now code m.net_errors e h.net_errors low_e in
      let (codes, ec, counted) =
        record_status_code-Counted now code m.new_counter h.fresh s m.status_codes h.codes h.made
          h.empty low_s in
      let (hist, text, eh, rolling, _, _) =
        record_rolling_lem hdr laws now now (quot duration (pos 1000)) 1 m.histogram h.rolling in
      (
        record m { total = total; net_errors = net; status_codes = codes; histogram = hist },
        rw (record_metrics, et, en, ec, record_latencies, eh) refl,
        record {
          total = shows_t;
          net_errors = shows_e;
          codes = counted;
          fresh = h.fresh;
          made = h.made;
          empty = h.empty;
          rolling = rolling;
        },
      )
