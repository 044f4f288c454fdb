-- ===== src/Rebalancer/Registered.antt =====
-- `UpsertServer` of the rebalancer for a new URL: the pool mirrors its servers afterwards.
use oxy.Base.{
  ℕ, suc, ◌≡◌, refl, sym, ◌∙◌, ap, subst, arith, true, false, none, some, List, [], ◌∷◌, ◌++◌, map,
  All, inl, inr, length, replicate, if◌then◌else◌, Bool-cases, All-append,
}
use oxy.Base.Int.{ℤ, ◌-ℤ◌}
use oxy.RoundRobin.{
  Server, Url, Pool, same_url, upsert_server, server_weight, weight, find_from, find_server_by_url,
}
use oxy.RoundRobin.Registry.{weight_of, same_url_refl, same_url_comm, upsert_server-Rewrites}
use oxy.Rebalancer.{
  RbServer, Rebalancer, second, change_first, apply_weights, restore, reset, upsert_own, upsert,
}
use oxy.Rebalancer.Adjust.{frame}
use oxy.Rebalancer.Bounds.{IsWeight, IsFit}
use oxy.Rebalancer.Mirror.{Apart, listed, Mirrors, Mirrors-apply_weights, Mirrors-absent}

listed-append :
    (v : Url) (ps : List (Url × ℤ)) (p : Url × ℤ)
    → listed v (ps ++ (p ∷ [])) ≡ (if listed v ps then true else same_url v p.0)
listed-append v [] p = ground arith
listed-append v (q ∷ ps) p = ground (arith, listed-append v ps p)

Apart-append :
    (ps : List (Url × ℤ)) (p : Url × ℤ) → listed p.0 ps ≡ false → Apart ps → Apart (ps ++ (p ∷ []))
Apart-append [] p new apart = (refl, tt)
Apart-append (q ∷ ps) p new apart = (
  listed-append q.0 ps p ∙ ground (arith, same_url_comm q.0 p.0, new, apart.0),
  Apart-append ps p (ground (arith, new)) apart.1,
)

find_weight :
    (i : ℕ) (u : Url) (ss : List Server) (w : ℤ)
    → weight_of u ss ≡ some w
    → (s : Server) × (k : ℕ) × (find_from i u ss ≡ some (s, k)) × (s.weight ≡ w)
unfolding find_from
find_weight i u [] w h = absurd (ground arith)
find_weight i u (s ∷ ss) w h = elim (Bool-cases (same_url u s.url)) [
  | inl here ↦ (s, i, rw (find_from, here) refl, ground (arith, here))
  | inr other ↦
      let (t, k, e, same) = find_weight (suc i) u ss w (ground (arith, other)) in
      (t, k, rw (find_from, other) e, same)
]

server_weight_lem :
    (u : Url) (r : Pool) (w : ℤ) → weight_of u r.servers ≡ some w → server_weight u r ≡ (w, true)
unfolding server_weight find_server_by_url
server_weight_lem u r w h =
    let (s, k, e, same) = find_weight 0 u r.servers w h in
    rw (server_weight, find_server_by_url, e, same) refl

module _ {M : Type 0} where
  frame-append :
      (ss : List (RbServer M)) (s : RbServer M)
      → map frame (ss ++ (s ∷ [])) ≡ map frame ss ++ (frame s ∷ [])
  frame-append [] s = refl
  frame-append (t ∷ ss) s = ap (λ (l : List (Url × ℤ)). frame t ∷ l) (frame-append ss s)

  frame-restore : (ss : List (RbServer M)) → map frame (map restore ss) ≡ map frame ss
  unfolding restore
  frame-restore [] = refl
  frame-restore (s ∷ ss) = ap (λ (l : List (Url × ℤ)). frame s ∷ l) (frame-restore ss)

  restore-IsFit : (ss : List (RbServer M)) → All IsFit ss → All IsFit (map restore ss)
  unfolding restore
  restore-IsFit [] fit = tt
  restore-IsFit (s ∷ ss) fit = ((fit.0.0, fit.0.0), restore-IsFit ss fit.1)

  change_first-absent :
      (u : Url) (f : RbServer M → RbServer M) (ss : List (RbServer M))
      → listed u (map frame ss) ≡ false
      → change_first u f ss ≡ ss
  unfolding change_first
  change_first-absent u f [] h = refl
  change_first-absent u f (s ∷ ss) h = elim (Bool-cases (same_url u s.url)) [
    | inl here ↦ absurd (ground (arith, here))
    | inr other ↦
        rw (change_first, other)
          (ap (λ (l : List (RbServer M)). s ∷ l)
            (change_first-absent u f ss (ground (arith, other))))
  ]

  -- The servers after a new URL, as `reset` leaves them.
  abbrev enlarged : M → Url → ℤ → List (RbServer M) → List (RbServer M)
  enlarged m u w ss =
      map restore
        (ss ++ (record { url = u; orig_weight = w; cur_weight = w; good = false; meter = m } ∷ []))

  frame-enlarged :
      (m : M) (u : Url) (w : ℤ) (ss : List (RbServer M))
      → map frame (enlarged m u w ss) ≡ map frame ss ++ ((u, w) ∷ [])
  frame-enlarged m u w ss = frame-restore _ ∙ frame-append ss _

  module _ {F : Type 0} (default_weight : ℤ) where
    upsert_new :
        (zero_float : F) (m : M) (now : ℤ) (u : Url) (w : ℤ) (rb : Rebalancer M F)
        → listed u (map frame rb.servers) ≡ false
        → let (r, err) = upsert_server default_weight (some u) (weight w ∷ []) rb.next in
          err ≡ none
          → server_weight u r ≡ (w, true)
          → upsert default_weight zero_float (some m) now (some u) (weight w ∷ []) rb ≡ (
            record rb {
              servers = enlarged m u w rb.servers;
              next = apply_weights default_weight (enlarged m u w rb.servers) r;
              timer = now -ℤ second;
              ratings = replicate (length (enlarged m u w rb.servers)) zero_float;
            },
            none,
          )
    unfolding upsert upsert_own reset
    upsert_new zero_float m now u w rb new done same =
        let kept = change_first-absent u (λ s. record s { orig_weight = w }) rb.servers new in
        rw (upsert, done, same, upsert_own, kept, reset) refl

    -- A URL that is neither `u` nor among the servers is not in the pool that `u` was written to.
    absent :
        (u v : Url) (w : ℤ) (rb : Rebalancer M F) (r : Pool)
        → ((z : Url)
            → weight_of z r.servers
              ≡ (if same_url z u then some w else weight_of z rb.next.servers))
        → Mirrors rb.servers rb.next
        → listed v (map frame rb.servers ++ ((u, w) ∷ [])) ≡ false
        → weight_of v r.servers ≡ none
    absent u v w rb r weights h unknown =
        let both = listed-append v (map frame rb.servers) (u, w) in
        elim (Bool-cases (listed v (map frame rb.servers))) [
          | inl here ↦ absurd (ground (arith, both, here, unknown))
          | inr gone ↦
              let other : same_url v u ≡ false = ground (arith, both, gone, unknown) in
              weights v ∙ rw other (Mirrors-absent rb.servers rb.next v h gone)
        ]

    -- `UpsertServer` with a new URL, a weight in 1 .. `FSMMaxWeight` and a meter that is made, when the pool
    -- holds the URLs of the servers, which are distinct and have weights in these bounds, each with the
    -- server's current weight: there is no error, and the pool holds the URLs and current weights of the
    -- servers again, among them the new one, and all have their original weights.
    pub upsert-Mirrors :
        (zero_float : F) (m : M) (now : ℤ) (u : Url) (w : ℤ) (rb : Rebalancer M F)
        → IsWeight w
        → listed u (map frame rb.servers) ≡ false
        → Apart (map frame rb.servers)
        → All IsFit rb.servers
        → Mirrors rb.servers rb.next
        → let (rb', err) =
            upsert default_weight zero_float (some m) now (some u) (weight w ∷ []) rb in
          (err ≡ none)
          × (map frame rb'.servers ≡ map frame rb.servers ++ ((u, w) ∷ []))
          × Mirrors rb'.servers rb'.next
    upsert-Mirrors zero_float m now u w rb fits new apart fit h =
        let r = (upsert_server default_weight (some u) (weight w ∷ []) rb.next).0 in
        let (done, rew) =
          upsert_server-Rewrites default_weight u w rb.next h.distinct (ground (arith, fits.0)) in
        let (d, _, _, weights) = rew in
        let own : server_weight u r ≡ (w, true) =
          server_weight_lem u r w (weights u ∙ rw (same_url_refl u) refl) in
        let frames = frame-enlarged m u w rb.servers in
        rw (upsert_new zero_float m now u w rb new done own) (
          refl,
          frames,
          Mirrors-apply_weights default_weight (enlarged m u w rb.servers) r
              (subst Apart (sym frames) (Apart-append (map frame rb.servers) (u, w) new apart))
              (restore-IsFit _ (All-append IsFit rb.servers _ fit ((fits, fits), tt))) d
              (λ v unknown.
                absent u v w rb r weights h (subst (λ ps. listed v ps ≡ false) frames unknown)),
        )
