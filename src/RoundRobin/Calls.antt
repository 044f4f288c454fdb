-- ===== src/RoundRobin/Calls.antt =====
-- Calls of `nextServer` follow the walk: each returns the next server that the walk serves.
use mathlib.Core.Path.{subst}
use oxy.Base.{
  ℕ, zero, suc, ◌+◌, ◌-◌, ◌≤◌, ◌≡◌, ◌≢◌, refl, arith, List, [], ◌∷◌, ◌++◌, inl, inr, ◌∙◌, ap,
  length, drop, Option, none, some, ◌>>=◌,
}
use oxy.Base.Int.{ℤ, pos, negsuc}
use oxy.RoundRobin.{
  Server, Pool, next_loop, next_server, enough, weight_gcd, max_weight, weight_gcd_from,
  max_weight_from,
}
use oxy.RoundRobin.Gcd.{chosen}
use oxy.RoundRobin.Search.{at, next_level}
use oxy.RoundRobin.Walk.{
  Walk, stop, skip, serve, Walk-append, IsRunning, Walk-rest, Walk-pass, IsValid, Walk-IsValid,
  next_level_bounds,
}

-- `k` calls of `nextServer`, if each returns a server: the servers, and the pool at the end.
unfoldable pub calls : ℕ → Pool → Option (List Server × Pool)
calls zero r = some ([], r)
calls (suc k) r = do
  (r', result) ← next_server r
  elim result [ inl _ ↦ none | inr s ↦ do (l, end) ← calls k r'; some (s ∷ l, end) ]

-- What the loop finds from a pool that a walk leaves, if the walk goes on to serve `s`.
Finds : (d m : ℤ) → ℕ → Pool → Pool → Server → List Server → Type 0
Finds d m f r e s l =
    (r' : Pool) × (v : ℕ) × (u : ℕ) × (next_loop f d m r ≡ some (r', inr s))
    × Walk d m v r' l e
    × Walk d m u r (s ∷ []) r'

next_loop-served :
    {d m : ℤ} (f : ℕ) {v u : ℕ} {r e e' : Pool} {l k rest : List Server} {s : Server}
    → Walk d m v r l e
    → l ≡ s ∷ rest
    → Walk d m u r k e'
    → k ≢ []
    → u ≤ f
    → Finds d m f r e s rest
unfolding Finds next_loop
next_loop-served f stop p w q h = cc
next_loop-served f (skip t w) p stop q h = absurd (q refl)
next_loop-served f (skip t w) p (serve t' w') q h = cc
next_loop-served zero (skip t w) p (skip t' w') q h = elim h [ ]
next_loop-served {d} {m} (suc f) (skip {r' = r₁} t w) p
      (skip {v = u} {r' = r₂} {e = e'} {l = k} t' w') q h =
    let same : r₂ ≡ r₁ = cc in
    let (r', v, n, found, after, until) =
      next_loop-served f w p (subst (λ z. Walk d m u z k e') same w') q (omega arith) in
    (r', v, suc n, ground (arith, t, found), after, skip t until)
next_loop-served f (serve t w) p stop q h = absurd (q refl)
next_loop-served f (serve t w) p (skip t' w') q h = cc
next_loop-served zero (serve t w) p (serve t' w') q h = elim h [ ]
next_loop-served {d} {m} (suc f) {r = r} {e = e} {rest = rest} {s = s}
      (serve {v = v} {r' = r₁} {l = l} {s = x} t w) p (serve t' w') q h =
    let head : x ≡ s = cc in
    let tail : l ≡ rest = cc in
    (
      r₁,
      v,
      1,
      ground (arith, t, head),
      subst (λ z. Walk d m v r₁ z e) tail w,
      subst (λ z. Walk d m 1 r (z ∷ []) r₁) head (serve t stop),
    )

append-ne-nil {ℓ} : {A : Type ℓ} (xs ys : List A) → ys ≢ [] → xs ++ ys ≢ []
append-ne-nil [] ys h = h
append-ne-nil (y ∷ xs) ys h = λ e. cc

module _ (g m : ℕ) (ss : List Server) (x : IsRunning g m ss) where
  -- From every pool that the calls leave, two passes serve some server.
  soon :
      {r : Pool}
      → IsValid g m ss x r
      → (u : ℕ) × (k : List Server) × (e : Pool) × Walk (pos g) (pos m) u r k e
        × (k ≢ [])
        × (u ≤ length ss + length ss)
  soon {r} (zero, c, e, hj, hc, start) =
      let (le, low) = next_level_bounds g m c x.most_pos hc in
      (
        length ss,
        chosen (next_level g m c) ss,
        at ss (length ss) (next_level g m c),
        rw e (Walk-pass g m ss x 0 c (inl refl) hc),
        x.best.reached (next_level g m c) le,
        omega arith,
      )
  soon {r} (suc i, c, e, hj, hc, start) =
      let (le, low) = next_level_bounds g m c x.most_pos hc in
      (
        length ss - suc i + length ss,
        chosen c (drop (suc i) ss) ++ chosen (next_level g m c) ss,
        at ss (length ss) (next_level g m c),
        rw e (
            Walk-append (Walk-rest g m ss x (length ss - suc i) i c (omega arith))
              (Walk-pass g m ss x (length ss) c (inr refl) hc)),
        append-ne-nil (chosen c (drop (suc i) ss)) _ (x.best.reached (next_level g m c) le),
        omega arith,
      )

  module _ (divisor : weight_gcd (at ss 0 0) ≡ pos g) (most : max_weight (at ss 0 0) ≡ pos m) where
    -- `nextServer` returns a server from every such pool, and it is the one that the walk serves next.
    next_server-served :
        {v : ℕ} {r e : Pool} {s : Server} {rest : List Server}
        → IsValid g m ss x r
        → Walk (pos g) (pos m) v r (s ∷ rest) e
        → (r' : Pool) × (v' : ℕ) × (next_server r ≡ some (r', inr s))
          × Walk (pos g) (pos m) v' r' rest e
          × IsValid g m ss x r'
    unfolding next_server weight_gcd max_weight Finds
    next_server-served {r = r} ok w =
        let (u, k, e', w', q, le) = soon ok in
        let (j, c, is, hj, hc, start) = ok in
        let kept : r.servers ≡ ss = ap (λ (z : Pool). z.servers) is in
        let (r', v', n, found, after, until) =
          next_loop-served (enough r) w refl w' q (omega (arith, ap length kept)) in
        let same_divisor = ap (weight_gcd_from (negsuc 0)) kept ∙ divisor in
        let same_most = ap (max_weight_from (negsuc 0)) kept ∙ most in
        (
          r',
          v',
          ground (arith, same_divisor, same_most, found, ap length kept, x.inhabited),
          after,
          Walk-IsValid g m ss x ok until,
        )

    -- As many calls as the walk serves servers return exactly these, in order.
    pub calls-Walk :
        (l : List Server) {v : ℕ} {r e : Pool}
        → IsValid g m ss x r
        → Walk (pos g) (pos m) v r l e
        → (e' : Pool) × (calls (length l) r ≡ some (l, e'))
    unfolding calls
    calls-Walk [] {r = r} ok w = (r, refl)
    calls-Walk (s ∷ l) ok w =
        let (r', v', found, after, ok') = next_server-served ok w in
        let (e', rest) = calls-Walk l ok' after in (e', ground (arith, found, rest))
