-- ===== src/ConnLimit/Flow.antt =====
-- Any number of requests that begin and end in any order.
use Prim.Native.String.{String}
use text.Mathlib.Text.{◌==◌ as str_eq}
use text.Mathlib.TextEquality.{eq_iff}
use oxy.Base.{
  ℕ, zero, suc, ◌+◌, ◌-◌, ◌^◌, ◌≤◌, ◌<◌, ◌≡◌, refl, arith, false, none, some, if◌then◌else◌, List,
  [], ◌∷◌, ◌⊎◌, inl, inr, ◌∙◌, ap, get_elem?, Bool-cases,
}
use oxy.Base.Int.{ℤ, pos, leb_ℤ, ◌+ℤ◌, ◌-ℤ◌, int_laws}
use oxy.Base.Int64.{add64, sub64, IsInt64, add64_exact, sub64_exact}
use oxy.Base.Assoc.{insert, string_eq, lookup-insert, lookup-erase}
use oxy.ConnLimit.{
  ConnLimiter, MaxConnError, count_of, acquire, release, too_many, forwarded, serve_begin,
  serve_end,
}

-- The amounts of the requests that are being served for a source.
abbrev pub amount_for : String → List (String × ℕ) → ℕ
amount_for t [] = 0
amount_for t ((u, n) ∷ l) = (if str_eq t u then n else 0) + amount_for t l

abbrev pub amount_all : List (String × ℕ) → ℕ
amount_all [] = 0
amount_all ((u, n) ∷ l) = n + amount_all l

abbrev remove_at : ℕ → List (String × ℕ) → List (String × ℕ)
remove_at i [] = []
remove_at zero (x ∷ l) = l
remove_at (suc i) (x ∷ l) = x ∷ remove_at i l

-- The limiter, and the requests between the two halves of `ServeHTTP`.
pub record System : Type 0 where
  pub limiter : ConnLimiter
  pub active : List (String × ℕ)

-- A request begins or ends. Amounts are natural and at most `largest`, and all that are active together fit in an int64.
pub data Step (E : Type 0) (largest : ℕ) (s : System) : System → Type 0 where
  bad : (e : E) (t : String) (n : ℕ) → Step E largest s s
  refuse :
      {cl : ConnLimiter} {m : MaxConnError} (t : String) (n : ℕ)
      → serve_begin {E = E} none t (pos n) s.limiter ≡ (cl, too_many m)
      → Step E largest s (record { limiter = cl; active = s.active })
  start :
      {cl : ConnLimiter} (t : String) (n : ℕ)
      → n ≤ largest
      → amount_all s.active + n < 2 ^ 63
      → serve_begin {E = E} none t (pos n) s.limiter ≡ (cl, forwarded t (pos n))
      → Step E largest s (record { limiter = cl; active = (t, n) ∷ s.active })
  finish :
      (i : ℕ) {t : String} {n : ℕ}
      → get_elem? s.active i ≡ some (t, n)
      → Step E largest s (record {
        limiter = serve_end {E = E} (forwarded t (pos n)) s.limiter;
        active = remove_at i s.active;
      })

pub data Reach (E : Type 0) (largest : ℕ) (s : System) : System → Type 0 where
  here : Reach E largest s s
  next : {t u : System} → Reach E largest s t → Step E largest t u → Reach E largest s u

-- The counters are exact.
pub record IsExact (s : System) : Type 0 where
  pub each : (t : String) → count_of t s.limiter ≡ pos (amount_for t s.active)
  pub total : s.limiter.total_connections ≡ pos (amount_all s.active)
  pub small : amount_all s.active < 2 ^ 63

add_exact : (a b : ℕ) → a + b < 2 ^ 63 → add64 (pos a) (pos b) ≡ pos (a + b)
add_exact a b h =
    let e : pos a +ℤ pos b ≡ pos (a + b) = omega int_laws in
    let fits : IsInt64 (pos a +ℤ pos b) = rw e (omega arith) in add64_exact (pos a) (pos b) fits ∙ e

sub_exact : (a b : ℕ) → b ≤ a → a < 2 ^ 63 → sub64 (pos a) (pos b) ≡ pos (a - b)
sub_exact a b le h =
    let e : pos a -ℤ pos b ≡ pos (a - b) = omega int_laws in
    let fits : IsInt64 (pos a -ℤ pos b) = rw e (omega arith) in sub64_exact (pos a) (pos b) fits ∙ e

amount_for-le : (t : String) (l : List (String × ℕ)) → amount_for t l ≤ amount_all l
amount_for-le t [] = omega arith
amount_for-le t ((u, n) ∷ l) = ground (arith, amount_for-le t l)

remove_lem :
    (i : ℕ) (l : List (String × ℕ)) (t : String) (n : ℕ) (u : String)
    → get_elem? l i ≡ some (t, n)
    → ((if str_eq u t then n else 0) + amount_for u (remove_at i l) ≡ amount_for u l)
      × (n + amount_all (remove_at i l) ≡ amount_all l)
remove_lem i [] t n u e = cc
remove_lem zero ((v, k) ∷ l) t n u e = ground arith
remove_lem (suc i) ((v, k) ∷ l) t n u e = ground (arith, remove_lem i l t n u e)

-- `acquire`, below the limit.
acquire_lem :
    (t u : String) (a b n : ℕ) (cl : ConnLimiter)
    → count_of t cl ≡ pos a
    → count_of u cl ≡ pos b
    → a + n < 2 ^ 63
    → leb_ℤ cl.max_connections (pos a) ≡ false
    → count_of u (acquire t (pos n) cl).0 ≡ pos (if str_eq u t then a + n else b)
unfolding acquire count_of
acquire_lem t u a b n cl ea eb small under =
    ground (arith, add_exact a n small, lookup-insert t u (pos (a + n)) cl.connections, eq_iff u t)

release_lem :
    (t u : String) (a b n : ℕ) (cl : ConnLimiter)
    → count_of t cl ≡ pos a
    → count_of u cl ≡ pos b
    → n ≤ a
    → a < 2 ^ 63
    → count_of u (release t (pos n) cl) ≡ pos (if str_eq u t then a - n else b)
unfolding release count_of
release_lem t u a b n cl ea eb le small = ground (
  arith,
  sub_exact a n le small,
  lookup-insert t u (pos (a - n)) cl.connections,
  lookup-erase t u (insert t (pos (a - n)) cl.connections),
  eq_iff u t,
)

started :
    {E : Type 0} (t : String) (a : ℤ) (cl : ConnLimiter) {cl' : ConnLimiter}
    → serve_begin {E = E} none t a cl ≡ (cl', forwarded t a)
    → (cl' ≡ (acquire t a cl).0)
      × (leb_ℤ cl.max_connections (count_of t cl) ≡ false)
      × (cl'.total_connections ≡ add64 cl.total_connections a)
      × (cl'.max_connections ≡ cl.max_connections)
unfolding serve_begin acquire
started t a cl e = elim (Bool-cases (leb_ℤ cl.max_connections (count_of t cl))) [
  | inl full ↦ absurd (ground arith)
  | inr under ↦ ground arith
]

refused_same :
    {E : Type 0} (t : String) (a : ℤ) (cl : ConnLimiter) {cl' : ConnLimiter} {m : MaxConnError}
    → serve_begin {E = E} none t a cl ≡ (cl', too_many m)
    → cl' ≡ cl
unfolding serve_begin acquire
refused_same t a cl e = elim (Bool-cases (leb_ℤ cl.max_connections (count_of t cl))) [
  | inl full ↦ ground arith
  | inr under ↦ absurd (ground arith)
]

release_total :
    (t : String) (a : ℤ) (cl : ConnLimiter)
    → ((release t a cl).total_connections ≡ sub64 cl.total_connections a)
      × ((release t a cl).max_connections ≡ cl.max_connections)
unfolding release
release_total t a cl = ground arith

Step-IsExact :
    {E : Type 0} {largest : ℕ} {s s' : System} → Step E largest s s' → IsExact s → IsExact s'
unfolding serve_end
Step-IsExact (bad e t n) x = x
Step-IsExact {s = s} (refuse t n e) x =
    let same = refused_same t (pos n) s.limiter e in
    record {
      each = λ u. ap (count_of u) same ∙ x.each u;
      total = ap (λ (c : ConnLimiter). c.total_connections) same ∙ x.total;
      small = x.small;
    }
Step-IsExact {s = s} (start t n few small e) x =
    let (same, under, total, kept) = started t (pos n) s.limiter e in
    let a = amount_for t s.active in
    record {
      each = λ u.
          let b = amount_for u s.active in
          ap (count_of u) same
          ∙ acquire_lem t u a b n s.limiter (x.each t) (x.each u)
              (omega (arith, amount_for-le t s.active)) (rw (x.each t) at under)
          ∙ ground (arith, eq_iff u t);
      total =
          total
          ∙ ap (λ z. add64 z (pos n)) x.total
          ∙ add_exact (amount_all s.active) n small
          ∙ ap pos (omega arith);
      small = omega arith;
    }
Step-IsExact {s = s} (finish i {t = t} {n = n} e) x = record {
  each = λ u.
      let b = amount_for u s.active in
      let kept = (remove_lem i s.active t n t e).0 in
      release_lem t u (amount_for t s.active) b n s.limiter (x.each t) (x.each u)
        (ground (arith, kept, eq_iff t t)) (omega (arith, x.small, amount_for-le t s.active))
      ∙ ground (arith, eq_iff u t, (remove_lem i s.active t n u e).0);
  total =
      (release_total t (pos n) s.limiter).0
      ∙ ap (λ z. sub64 z (pos n)) x.total
      ∙ sub_exact (amount_all s.active) n (omega (arith, (remove_lem i s.active t n t e).1)) x.small
      ∙ ap pos (omega (arith, (remove_lem i s.active t n t e).1));
  small = omega (arith, x.small, (remove_lem i s.active t n t e).1);
}

-- A limiter that serves nothing.
abbrev pub idle : ℕ → System
idle max = record {
  limiter = record { connections = []; max_connections = pos max; total_connections = pos 0 };
  active = [];
}

idle-IsExact : (max : ℕ) → IsExact (idle max)
unfolding count_of
idle-IsExact max = record { each = λ t. refl; total = refl; small = omega arith }

-- However requests begin and end, from an idle limiter the counter of each source is always the sum of
-- the amounts that are being served for it, and `totalConnections` is the sum of all.
pub Reach-IsExact :
    {E : Type 0} {largest : ℕ} (max : ℕ) {s : System} → Reach E largest (idle max) s → IsExact s
Reach-IsExact max here = idle-IsExact max
Reach-IsExact max (next r st) = Step-IsExact st (Reach-IsExact max r)

abbrev IsLimited : ℕ → ℕ → System → Type 0
IsLimited largest max s =
    (s.limiter.max_connections ≡ pos max)
    × ((t : String) → (amount_for t s.active ≡ 0) ⊎ (amount_for t s.active < max + largest))

Step-IsLimited :
    {E : Type 0} {largest : ℕ} (max : ℕ) {s s' : System}
    → Step E largest s s'
    → IsExact s
    → IsLimited largest max s
    → IsLimited largest max s'
unfolding serve_end
Step-IsLimited max (bad e t n) x l = l
Step-IsLimited max {s = s} (refuse t n e) x (kept, l) =
    (ap (λ (c : ConnLimiter). c.max_connections) (refused_same t (pos n) s.limiter e) ∙ kept, l)
Step-IsLimited max {s = s} (start t n few small e) x (kept, l) =
    let (same, under, total, kept') = started t (pos n) s.limiter e in
    let below : leb_ℤ s.limiter.max_connections (pos (amount_for t s.active)) ≡ false =
      rw (x.each t) at under in
    let room : amount_for t s.active < max = ground (arith, kept) in
    (kept' ∙ kept, λ u. ground (arith, l u, eq_iff u t))
Step-IsLimited max {s = s} (finish i {t = t} {n = n} e) x (kept, l) = (
  (release_total t (pos n) s.limiter).1 ∙ kept,
  λ u. ground (arith, l u, (remove_lem i s.active t n u e).0),
)

Reach-IsLimited :
    {E : Type 0} {largest : ℕ} (max : ℕ) {s : System}
    → Reach E largest (idle max) s
    → IsLimited largest max s
Reach-IsLimited max here = (refl, λ u. inl refl)
Reach-IsLimited max (next r st) =
    Step-IsLimited max st (Reach-IsExact max r) (Reach-IsLimited max r)

-- The limit holds under any order of requests. From an idle limiter with `maxConnections` = max, what is
-- being served for a source at any time is nothing, or less than max plus the largest amount of a
-- request; with amounts of 1 that is at most max.
pub Reach-limited :
    {E : Type 0} {largest : ℕ} (max : ℕ) {s : System}
    → Reach E largest (idle max) s
    → (t : String) → (amount_for t s.active ≡ 0) ⊎ (amount_for t s.active < max + largest)
Reach-limited max r t = (Reach-IsLimited max r).1 t
