-- ===== src/Rebalancer/Mirror.antt =====
-- `applyWeights` and `adjustWeights`: the pool holds the current weights of the rebalancer's servers.
use oxy.Base.{
  ◌≡◌, refl, sym, ◌∙◌, ap, subst, arith, Bool, true, false, Option, none, some, List, [], ◌∷◌, map,
  All, inl, inr, if◌then◌else◌, Bool-cases,
}
use oxy.Base.Int.{ℤ}
use oxy.RoundRobin.{Url, Pool, same_url, upsert_server, weight}
use oxy.RoundRobin.Registry.{
  weight_of, Distinct, same_url_comm, same_url_subst, upsert_server-Rewrites,
}
use oxy.Rebalancer.{
  RbServer, Rebalancer, change_each, apply_weights, adjust_with, normalize_weights,
}
use oxy.Rebalancer.Adjust.{frame, frame-change_each, frame-normalize_weights}
use oxy.Rebalancer.Backoff.{current, change_each_same}
use oxy.Rebalancer.Bounds.{IsFit, change_each-All, normalize_weights-IsFit}

-- Whether a URL is among those that come first in the pairs.
abbrev pub listed : Url → List (Url × ℤ) → Bool
listed u [] = false
listed u (p ∷ ps) = if same_url u p.0 then true else listed u ps

-- No two of the URLs are the same.
abbrev pub Apart : List (Url × ℤ) → Type 0
Apart [] = Unit
Apart (p ∷ ps) = (listed p.0 ps ≡ false) × Apart ps

-- What the first pair with the URL holds.
abbrev pub value_of : Url → List (Url × ℤ) → Option ℤ
value_of u [] = none
value_of u (p ∷ ps) = if same_url u p.0 then some p.1 else value_of u ps

abbrev or_else : Option ℤ → Option ℤ → Option ℤ
or_else none d = d
or_else (some w) d = some w

listed_same : (u v : Url) (ps : List (Url × ℤ)) → same_url u v ≡ true → listed u ps ≡ listed v ps
listed_same u v [] h = refl
listed_same u v (p ∷ ps) h = ground (
  arith,
  same_url_subst u v p.0 h,
  same_url_comm u p.0,
  same_url_comm v p.0,
  listed_same u v ps h,
)

module _ {M : Type 0} where
  not_listed :
      (u : Url) (ss : List (RbServer M))
      → listed u (map frame ss) ≡ false
      → value_of u (map current ss) ≡ none
  not_listed u [] h = refl
  not_listed u (s ∷ ss) h = elim (Bool-cases (same_url u s.url)) [
    | inl here ↦ absurd (ground (arith, here))
    | inr other ↦ rw other (not_listed u ss (ground (arith, other)))
  ]

  is_listed :
      (u : Url) (ss : List (RbServer M))
      → listed u (map frame ss) ≡ true
      → (w : ℤ) × (value_of u (map current ss) ≡ some w)
  is_listed u [] h = absurd (ground arith)
  is_listed u (s ∷ ss) h = elim (Bool-cases (same_url u s.url)) [
    | inl here ↦ (s.cur_weight, rw here refl)
    | inr other ↦ let (w, e) = is_listed u ss (ground (arith, other)) in (w, rw other e)
  ]

  -- What the pool says of a URL after `applyWeights`.
  abbrev overlaid : List (RbServer M) → Pool → Url → Option ℤ
  overlaid ss r v = or_else (value_of v (map current ss)) (weight_of v r.servers)

  apply_weights_lem :
      (default_weight : ℤ) (ss : List (RbServer M)) (r : Pool)
      → Apart (map frame ss)
      → All IsFit ss
      → Distinct r.servers
      → Distinct (apply_weights default_weight ss r).servers
        × ((v : Url) → weight_of v (apply_weights default_weight ss r).servers ≡ overlaid ss r v)
  unfolding apply_weights
  apply_weights_lem default_weight [] r apart fit d = (d, λ v. refl)
  apply_weights_lem default_weight (s ∷ ss) r apart fit d =
      let r1 = (upsert_server default_weight (some s.url) (weight s.cur_weight ∷ []) r).0 in
      let (_, new) =
        upsert_server-Rewrites default_weight s.url s.cur_weight r d (ground (arith, fit.0.1)) in
      let (d1, _, _, new_weights) = new in
      let (d2, rest) = apply_weights_lem default_weight ss r1 apart.1 fit.1 d1 in
      (
        d2,
        λ v. elim (Bool-cases (same_url v s.url)) [
          | inl here ↦
              let gone : value_of v (map current ss) ≡ none =
                not_listed v ss (listed_same v s.url (map frame ss) here ∙ apart.0) in
              rw (rest v, gone, new_weights v, here) refl
          | inr other ↦
              let same : weight_of v r1.servers ≡ weight_of v r.servers =
                new_weights v ∙ rw other refl in
              rw other (rest v ∙ ap (or_else (value_of v (map current ss))) same)
        ],
      )

  -- The pool has the URLs of the servers, and with each the current weight.
  pub record Mirrors (ss : List (RbServer M)) (r : Pool) : Type 0 where
    pub distinct : Distinct r.servers
    pub weights : (v : Url) → weight_of v r.servers ≡ value_of v (map current ss)

  -- `applyWeights` to a pool that has no URL but those of the servers.
  pub Mirrors-apply_weights :
      (default_weight : ℤ) (ss : List (RbServer M)) (r : Pool)
      → Apart (map frame ss)
      → All IsFit ss
      → Distinct r.servers
      → ((v : Url) → listed v (map frame ss) ≡ false → weight_of v r.servers ≡ none)
      → Mirrors ss (apply_weights default_weight ss r)
  Mirrors-apply_weights default_weight ss r apart fit d only =
      let (d', over) = apply_weights_lem default_weight ss r apart fit d in
      record {
        distinct = d';
        weights = λ v. elim (Bool-cases (listed v (map frame ss))) [
          | inl known ↦ let (w, e) = is_listed v ss known in rw (over v, overlaid, e) refl
          | inr unknown ↦
              let gone : value_of v (map current ss) ≡ none = not_listed v ss unknown in
              rw (over v, overlaid, gone) (only v unknown)
        ];
      }

  pub Mirrors-absent :
      (ss : List (RbServer M)) (r : Pool) (v : Url)
      → Mirrors ss r
      → listed v (map frame ss) ≡ false
      → weight_of v r.servers ≡ none
  Mirrors-absent ss r v h unknown = h.weights v ∙ not_listed v ss unknown

  module _ {F : Type 0} (default_weight : ℤ) where
    pub adjust_with-Mirrors :
        (f : RbServer M → RbServer M × Bool)
        → ((s : RbServer M) → (f s).1 ≡ false → (f s).0 ≡ s)
        → ((s : RbServer M) → IsFit s → IsFit (f s).0)
        → ((s : RbServer M) → frame (f s).0 ≡ frame s)
        → (rb : Rebalancer M F) → Apart (map frame rb.servers)
        → All IsFit rb.servers
        → Mirrors rb.servers rb.next
        → let rb' = (adjust_with default_weight f rb).0 in Mirrors rb'.servers rb'.next
    unfolding adjust_with
    adjust_with-Mirrors f same hf hs rb apart fit h =
        elim (Bool-cases (change_each f rb.servers).1) [
          | inl changed ↦
              let made = change_each-All f hf rb.servers fit in
              let frames : map frame (normalize_weights (change_each f rb.servers).0)
                  ≡ map frame rb.servers =
                frame-normalize_weights _ ∙ frame-change_each f hs rb.servers in
              rw changed (
                Mirrors-apply_weights default_weight _ rb.next (subst Apart (sym frames) apart)
                  (normalize_weights-IsFit _ made) h.distinct
                  (λ v unknown.
                    Mirrors-absent rb.servers rb.next v h
                      (subst (λ ps. listed v ps ≡ false) frames unknown)))
          | inr kept ↦ rw (kept, change_each_same f same rb.servers kept) h
        ]
