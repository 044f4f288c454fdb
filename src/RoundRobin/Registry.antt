-- ===== src/RoundRobin/Registry.antt =====
-- The servers of a pool as a map from URLs to weights.

use text.Mathlib.TextEquality.{eq_iff}
use oxy.Base.{
  ℕ, suc, ◌+◌, ◌≡◌, ◌≢◌, refl, arith, List, [], ◌∷◌, ◌++◌, ◌∙◌, Option, none, some, ◌⊎◌, inl, inr,
  set, take, drop, if◌then◌else◌, true, Bool-cases,
}
use oxy.Base.Int.{ℤ, pos, negsuc, ◌<ℤ◌}
use oxy.RoundRobin.{
  Url, Server, Pool, same_url, find_from, find_server_by_url, remove_server, upsert_server,
  insert_server, weight, apply_option, apply_options, reset_state, server_not_found,
}

-- The weight of the first server with the URL.
abbrev pub weight_of : Url → List Server → Option ℤ
weight_of u [] = none
weight_of u (s ∷ ss) = if same_url u s.url then some s.weight else weight_of u ss

-- No two servers have the same URL.
abbrev pub Distinct : List Server → Type 0
Distinct [] = Unit
Distinct (s ∷ ss) = (weight_of s.url ss ≡ none) × Distinct ss

pub same_url_refl : (u : Url) → same_url u u ≡ true
unfolding same_url
same_url_refl u =
    ground (arith, eq_iff u.path u.path, eq_iff u.host u.host, eq_iff u.scheme u.scheme)

pub same_url_comm : (u v : Url) → same_url u v ≡ same_url v u
unfolding same_url
same_url_comm u v = ground (
  arith,
  eq_iff u.path v.path,
  eq_iff u.host v.host,
  eq_iff u.scheme v.scheme,
  eq_iff v.path u.path,
  eq_iff v.host u.host,
  eq_iff v.scheme u.scheme,
)

pub same_url_subst : (u v w : Url) → same_url u v ≡ true → same_url w u ≡ same_url w v
unfolding same_url
same_url_subst u v w h =
    ground (arith, eq_iff u.path v.path, eq_iff u.host v.host, eq_iff u.scheme v.scheme)

weight_of_same :
    (u v : Url) (ss : List Server) → same_url u v ≡ true → weight_of u ss ≡ weight_of v ss
weight_of_same u v [] h = refl
weight_of_same u v (s ∷ ss) h = ground (
  arith,
  same_url_subst u v s.url h,
  same_url_comm u s.url,
  same_url_comm v s.url,
  weight_of_same u v ss h,
)

-- The first server with the URL gets the weight.
reweigh : Url → ℤ → List Server → List Server
reweigh u w [] = []
reweigh u w (s ∷ ss) = if same_url u s.url then record s { weight = w } ∷ ss else s ∷ reweigh u w ss

-- The first server with the URL is dropped.
drop_url : Url → List Server → List Server
drop_url u [] = []
drop_url u (s ∷ ss) = if same_url u s.url then ss else s ∷ drop_url u ss

-- What `findServerByURL` finds.
find_from_lem :
    (i : ℕ) (u : Url) (ss : List Server)
    → ((find_from i u ss ≡ none) × (weight_of u ss ≡ none))
      ⊎ ((s : Server) × (k : ℕ) × (find_from i u ss ≡ some (s, i + k))
          × (weight_of u ss ≡ some s.weight)
          × ((w : ℤ) → set ss k (record s { weight = w }) ≡ reweigh u w ss)
          × (take k ss ++ drop (suc k) ss ≡ drop_url u ss))
unfolding find_from reweigh drop_url
find_from_lem i u [] = inl (refl, refl)
find_from_lem i u (s ∷ ss) = elim (Bool-cases (same_url u s.url)) [
  | inl here ↦ inr (s, 0, ground arith, ground arith, λ w. ground arith, ground arith)
  | inr not_here ↦ elim (find_from_lem (suc i) u ss) [
    | inl (e, f) ↦ inl (ground arith, ground arith)
    | inr (t, k, e, f, g, h) ↦
        inr (t, suc k, ground arith, ground arith, λ w. ground (arith, g w), ground arith)
  ]
]

weight_of-reweigh :
    (u v : Url) (w : ℤ) (ss : List Server) (old : ℤ)
    → weight_of u ss ≡ some old
    → weight_of v (reweigh u w ss) ≡ (if same_url v u then some w else weight_of v ss)
unfolding reweigh
weight_of-reweigh u v w [] old h = cc
weight_of-reweigh u v w (s ∷ ss) old h = elim (Bool-cases (same_url u s.url)) [
  | inl here ↦ ground (arith, same_url_subst u s.url v here)
  | inr not_here ↦ ground (
    arith,
    weight_of-reweigh u v w ss old,
    same_url_subst v u s.url,
    same_url_comm u s.url,
    same_url_comm v s.url,
    same_url_comm s.url u,
    same_url_subst v s.url u,
    same_url_comm u v,
  )
]

weight_of-drop_url :
    (u v : Url) (ss : List Server)
    → Distinct ss
    → weight_of v (drop_url u ss) ≡ (if same_url v u then none else weight_of v ss)
unfolding drop_url
weight_of-drop_url u v [] d = ground arith
weight_of-drop_url u v (s ∷ ss) d = elim (Bool-cases (same_url u s.url)) [
  | inl here ↦ ground (arith, same_url_subst u s.url v here, weight_of_same v s.url ss, d.0)
  | inr not_here ↦ ground (
    arith,
    weight_of-drop_url u v ss d.1,
    same_url_subst v u s.url,
    same_url_comm u s.url,
    same_url_comm v s.url,
    same_url_subst v s.url u,
    same_url_comm u v,
  )
]

weight_of-append :
    (v : Url) (s : Server) (ss : List Server)
    → weight_of v (ss ++ s ∷ []) ≡ elim (weight_of v ss) [
      | none ↦ if same_url v s.url then some s.weight else none
      | some w ↦ some w
    ]
weight_of-append v s [] = ground arith
weight_of-append v s (t ∷ ss) = ground (arith, weight_of-append v s ss)

Distinct-reweigh :
    (u : Url) (w : ℤ) (ss : List Server) (old : ℤ)
    → weight_of u ss ≡ some old
    → Distinct ss
    → Distinct (reweigh u w ss)
unfolding reweigh
Distinct-reweigh u w [] old h d = tt
Distinct-reweigh u w (s ∷ ss) old h d = elim (Bool-cases (same_url u s.url)) [
  | inl here ↦ rw here d
  | inr other ↦ rw other (
    weight_of-reweigh u s.url w ss old (rw other at h) ∙ ground (arith, same_url_comm s.url u, d.0),
    Distinct-reweigh u w ss old (rw other at h) d.1,
  )
]

Distinct-drop_url : (u : Url) (ss : List Server) → Distinct ss → Distinct (drop_url u ss)
unfolding drop_url
Distinct-drop_url u [] d = tt
Distinct-drop_url u (s ∷ ss) d = elim (Bool-cases (same_url u s.url)) [
  | inl here ↦ rw here d.1
  | inr other ↦ rw other (
    weight_of-drop_url u s.url ss d.1 ∙ ground (arith, same_url_comm s.url u, d.0),
    Distinct-drop_url u ss d.1,
  )
]

Distinct-append :
    (s : Server) (ss : List Server)
    → weight_of s.url ss ≡ none
    → Distinct ss
    → Distinct (ss ++ s ∷ [])
Distinct-append s [] h d = (refl, tt)
Distinct-append s (t ∷ ss) h d = (
  weight_of-append t.url s ss ∙ ground (arith, d.0, same_url_comm s.url t.url),
  Distinct-append s ss (ground arith) d.1,
)

-- What a change of the pool that ends well does to its servers.
abbrev pub Rewrites : Pool → (Url → Option ℤ) → Type 0
Rewrites r f =
    Distinct r.servers
    × (r.index ≡ negsuc 0)
    × (r.current_weight ≡ pos 0)
    × ((v : Url) → weight_of v r.servers ≡ f v)

-- A pool with the servers, and the iterator at its start.
abbrev reset_with : List Server → Pool
reset_with ss = record { index = negsuc 0; servers = ss; current_weight = pos 0 }

upsert_server_new :
    (default_weight : ℤ) (u : Url) (w : ℤ) (r : Pool)
    → find_from 0 u r.servers ≡ none
    → pos 0 <ℤ w
    → upsert_server default_weight (some u) (weight w ∷ []) r
      ≡ (reset_with (r.servers ++ record { url = u; weight = w } ∷ []), none)
unfolding upsert_server find_server_by_url insert_server apply_options apply_option reset_state
upsert_server_new default_weight u w r e h = ground arith

upsert_server_known :
    (default_weight : ℤ) (u : Url) (w : ℤ) (r : Pool) (s : Server) (k : ℕ)
    → find_from 0 u r.servers ≡ some (s, 0 + k)
    → pos 0 <ℤ w
    → upsert_server default_weight (some u) (weight w ∷ []) r
      ≡ (reset_with (set r.servers k (record s { weight = w })), none)
unfolding upsert_server find_server_by_url apply_options apply_option reset_state
upsert_server_known default_weight u w r s k e h =
    let same : 0 + k ≡ k = omega arith in ground arith

remove_server_known :
    (u : Url) (r : Pool) (s : Server) (k : ℕ)
    → find_from 0 u r.servers ≡ some (s, 0 + k)
    → remove_server u r ≡ (reset_with (take k r.servers ++ drop (suc k) r.servers), none)
unfolding remove_server find_server_by_url reset_state
remove_server_known u r s k e = let same : 0 + k ≡ k = omega arith in ground arith

remove_server_absent :
    (u : Url) (r : Pool)
    → find_from 0 u r.servers ≡ none
    → ((remove_server u r).1 ≡ some server_not_found) × ((remove_server u r).0 ≡ r)
unfolding remove_server find_server_by_url
remove_server_absent u r e = ground arith

some_ne_none {ℓ} : {A : Type ℓ} {o : Option A} {a : A} → o ≡ some a → o ≢ none
some_ne_none e n = cc

-- `UpsertServer` with the one option `Weight w`, w positive, on a pool with distinct URLs: there is no
-- error, that URL has the weight w, all others keep what they had, URLs stay distinct, and the
-- iterator is reset.
pub upsert_server-Rewrites :
    (default_weight : ℤ) (u : Url) (w : ℤ) (r : Pool)
    → Distinct r.servers
    → pos 0 <ℤ w
    → let (r', err) = upsert_server default_weight (some u) (weight w ∷ []) r in
      (err ≡ none) × Rewrites r' (λ v. if same_url v u then some w else weight_of v r.servers)
upsert_server-Rewrites default_weight u w r d h = elim (find_from_lem 0 u r.servers) [
  | inl (e, f) ↦ rw (upsert_server_new default_weight u w r e h) (
    refl,
    (
      Distinct-append (record { url = u; weight = w }) r.servers f d,
      refl,
      refl,
      λ v.
          weight_of-append v (record { url = u; weight = w }) r.servers
          ∙ ground (arith, f, weight_of_same v u r.servers),
    ),
  )
  | inr (s, k, e, f, g, _) ↦
      rw (upsert_server_known default_weight u w r s k e h, g w)
        (
          refl,
          (
            Distinct-reweigh u w r.servers s.weight f d,
            refl,
            refl,
            λ v. weight_of-reweigh u v w r.servers s.weight f,
          ),
        )
]

-- `RemoveServer` on a pool with distinct URLs: a URL that is not there is an error that leaves the pool
-- alone; else the URL is gone, all others keep what they had, URLs stay distinct, and the iterator is
-- reset.
pub remove_server-Rewrites :
    (u : Url) (r : Pool)
    → Distinct r.servers
    → let (r', err) = remove_server u r in
      ((weight_of u r.servers ≡ none) × ((err ≡ some server_not_found) × (r' ≡ r)))
      ⊎ ((weight_of u r.servers ≢ none)
          × (err ≡ none)
          × Rewrites r' (λ v. if same_url v u then none else weight_of v r.servers))
remove_server-Rewrites u r d = elim (find_from_lem 0 u r.servers) [
  | inl (e, f) ↦ inl (f, remove_server_absent u r e)
  | inr (s, k, e, f, _, g) ↦
      rw (remove_server_known u r s k e, g)
        (inr (
          λ n. absurd (some_ne_none f n),
          refl,
          (Distinct-drop_url u r.servers d, refl, refl, λ v. weight_of-drop_url u v r.servers d),
        ))
]
