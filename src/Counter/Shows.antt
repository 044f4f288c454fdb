-- ===== src/Counter/Shows.antt =====
-- A counter that shows a number, and what `Inc` makes of it.
use oxy.Base.{
  ℕ, ◌+◌, ◌^◌, ◌<◌, ◌≡◌, refl, arith, some, length, length-set, All, ap, sym, ◌∙◌, subst,
}
use oxy.Base.Int.{ℤ, pos}
use oxy.Base.Int64.{add64}
use oxy.Counter.{RollingCounter, cleanup, count, inc}
use oxy.Counter.Again.{cleanup-again}
use oxy.Counter.Window.{
  IsCleaned, check_point, IsNatural, total, IsModern, IsCounting, check_now, cleanup_lem,
  cleanup_same, count_lem, inc_bucket_value_lem, set_added,
}

-- At a time the counter shows `n`: its buckets have natural numbers, and `cleanup` leaves `n` in them.
pub record Shows (now : ℤ) (c : RollingCounter) (n : ℕ) : Type 0 where
  pub counting : IsCounting now c
  pub cleaned : RollingCounter
  pub clean : cleanup now c ≡ some cleaned
  pub natural : All IsNatural cleaned.values
  pub sum : total cleaned.values ≡ n

pub Shows-total : (now : ℤ) (c : RollingCounter) → IsCounting now c → (n : ℕ) × Shows now c n
Shows-total now c h =
    let (c', e, p) = cleanup_lem now c h in
    (
      total c'.values,
      record { counting = h; cleaned = c'; clean = e; natural = p.natural; sum = refl },
    )

pub count-Shows :
    (now : ℤ) (c : RollingCounter) (n : ℕ) (s : Shows now c n)
    → n < 2 ^ 63
    → count now c ≡ some (s.cleaned, pos n)
count-Shows now c n s low =
    rw (← s.sum) (count_lem now c s.cleaned s.clean s.natural (omega (arith, s.sum)))

pub inc-Shows :
    (now : ℤ) (v n : ℕ) (c : RollingCounter)
    → Shows now c n
    → n + v < 2 ^ 63
    → (c' : RollingCounter) × (inc now now (pos v) c ≡ some c') × Shows now c' (n + v)
unfolding inc
inc-Shows now v n c s low =
    let (c0, e, p) = cleanup_lem now c s.counting in
    let same : s.cleaned ≡ c0 = cc (s.clean, e) in
    let sum0 : total c0.values ≡ n =
      ap (λ (x : RollingCounter). total x.values) (sym same) ∙ s.sum in
    let full : 0 < length c0.values = omega (arith, p.length_same, s.counting.buckets) in
    let here : IsModern c.resolution now =
      subst (IsModern c.resolution) (check_now c.resolution now)
        (s.counting.modern 0 s.counting.buckets) in
    let (i, w, c', ew, ei, values, res, last) =
      inc_bucket_value_lem now (pos v) c0 full (rw p.resolution_same here) in
    let (natural, sum) = set_added c0.values i v w p.natural ew (omega (arith, sum0)) in
    let len : length c'.values ≡ length c.values =
      ap length values ∙ length-set c0.values i (add64 w (pos v)) ∙ p.length_same in
    let unit : c'.resolution ≡ c.resolution = res ∙ p.resolution_same in
    let all : All IsNatural c'.values = rw values natural in
    let added : total c'.values ≡ n + v = rw values (sum ∙ ap (λ (x : ℕ). x + v) sum0) in
    (
      c',
      rw (inc, e) ei,
      record {
        counting = record {
          buckets = omega (arith, len, s.counting.buckets);
          natural = all;
          modern = λ j low. rw unit (s.counting.modern j (omega (arith, len)));
        };
        cleaned = c';
        clean = cleanup_same now c' (rw last refl);
        natural = all;
        sum = added;
      },
    )

-- A counter that `cleanup` has left shows the same.
pub cleaned-Shows :
    (now : ℤ) (c : RollingCounter) (n : ℕ) (s : Shows now c n) → Shows now s.cleaned n
cleaned-Shows now c n s =
    let (c0, e, p) = cleanup_lem now c s.counting in
    let same : c0 ≡ s.cleaned = cc (s.clean, e) in
    let kept : IsCleaned c s.cleaned = subst (IsCleaned c) same p in
    record {
      counting = record {
        buckets = omega (arith, kept.length_same, s.counting.buckets);
        natural = s.natural;
        modern = λ j low.
            subst (λ (r : ℤ). IsModern r (check_point r now j)) (sym kept.resolution_same)
              (s.counting.modern j (omega (arith, kept.length_same)));
      };
      cleaned = s.cleaned;
      clean = cleanup-again now c s.cleaned s.clean;
      natural = s.natural;
      sum = s.sum;
    }
