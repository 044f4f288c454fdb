-- ===== src/Rebalancer/Twice.antt =====
-- A URL that `UpsertServer` of the rebalancer is given twice, and `RemoveServer` once.
use oxy.Base.{ℕ, suc, ◌≡◌, refl, arith, true, false, none, some, List, [], ◌∷◌, length, replicate}
use oxy.Base.Int.{ℤ, pos, ◌-ℤ◌}
use oxy.RoundRobin.{
  Url, Pool, weight, new_pool, find_from, find_server_by_url, upsert_server, insert_server,
  remove_server, server_weight, apply_options, apply_option, reset_state,
}
use oxy.RoundRobin.Registry.{same_url_refl}
use oxy.Rebalancer.{
  RbServer, Rebalancer, second, change_first, find_own, apply_weights, restore, reset, upsert_own,
  upsert, remove,
}

module _ (default_weight : ℤ) (u : Url) where
  -- The pool that holds just `u`.
  abbrev pool : ℕ → Pool
  pool a = record new_pool { servers = record { url = u; weight = pos (suc a) } ∷ [] }

  pool_new :
      (a : ℕ)
      → upsert_server default_weight (some u) (weight (pos (suc a)) ∷ []) new_pool ≡ (pool a, none)
  unfolding upsert_server find_server_by_url find_from insert_server apply_options apply_option
      reset_state
  pool_new a = ground arith

  pool_again :
      (a b : ℕ)
      → upsert_server default_weight (some u) (weight (pos (suc b)) ∷ []) (pool a) ≡ (pool b, none)
  unfolding upsert_server find_server_by_url find_from apply_options apply_option reset_state
  pool_again a b = ground (arith, same_url_refl u)

  pool_weight : (a : ℕ) → server_weight u (pool a) ≡ (pos (suc a), true)
  unfolding server_weight find_server_by_url find_from
  pool_weight a = rw (server_weight, find_server_by_url, find_from, same_url_refl u) refl

  pool_removed : (a : ℕ) → remove_server u (pool a) ≡ (new_pool, none)
  unfolding remove_server find_server_by_url find_from reset_state
  pool_removed a = rw (remove_server, find_server_by_url, find_from, same_url_refl u) refl

module _ {M F : Type 0} (default_weight backoff timer : ℤ) (zero_float : F) (u : Url) where
  -- `NewRebalancer` over a new pool.
  abbrev pub fresh : Rebalancer M F
  fresh = record {
    backoff_duration = backoff;
    timer = timer;
    servers = [];
    next = new_pool;
    ratings = [];
  }

  -- `UpsertServer(u, Weight(w))`, with a meter that is made.
  abbrev pub put : M → ℤ → ℕ → Rebalancer M F → Rebalancer M F
  put m now w rb =
      (upsert default_weight zero_float (some m) now (some u) (weight (pos w) ∷ []) rb).0

  abbrev own : M → ℕ → RbServer M
  own m a = record {
    url = u;
    orig_weight = pos (suc a);
    cur_weight = pos (suc a);
    good = false;
    meter = m;
  }

  -- The rebalancer with records for `ss`, just after a reset.
  abbrev ready : ℤ → List (RbServer M) → Pool → Rebalancer M F
  ready t ss next = record {
    backoff_duration = backoff;
    timer = t -ℤ second;
    servers = ss;
    next = next;
    ratings = replicate (length ss) zero_float;
  }

  put_once :
      (m : M) (t : ℤ) (a : ℕ)
      → put m t (suc a) fresh ≡ ready t (own m a ∷ []) (pool default_weight u a)
  unfolding upsert upsert_own change_first reset restore apply_weights
  put_once m t a = ground (
    arith,
    pool_new default_weight u a,
    pool_weight default_weight u a,
    pool_again default_weight u a a,
  )

  put_twice :
      (m m' : M) (t t' : ℤ) (a b : ℕ)
      → put m' t' (suc b) (ready t (own m a ∷ []) (pool default_weight u a))
        ≡ ready t' (own m b ∷ own m' b ∷ []) (pool default_weight u b)
  unfolding upsert upsert_own change_first reset restore apply_weights
  put_twice m m' t t' a b = ground (
    arith,
    pool_again default_weight u a b,
    pool_weight default_weight u b,
    same_url_refl u,
    pool_again default_weight u b b,
  )

  remove_one :
      (m m' : M) (t t' : ℤ) (b : ℕ)
      → remove default_weight zero_float t' u
          (ready t (own m b ∷ own m' b ∷ []) (pool default_weight u b))
        ≡ (ready t' (own m' b ∷ []) (pool default_weight u b), none)
  unfolding remove find_own reset restore apply_weights
  remove_one m m' t t' b =
      ground (arith, same_url_refl u, pool_removed default_weight u b, pool_new default_weight u b)

  -- After `UpsertServer` of one URL twice, with positive weights, `RemoveServer` of it reports no error
  -- and removes it from the pool, but the reset that follows adds it again with its weight: the pool goes
  -- on to serve it.
  pub remove-put_twice :
      (m m' : M) (t t' t'' : ℤ) (a b : ℕ)
      → ((remove default_weight zero_float t'' u (put m' t' (suc b) (put m t (suc a) fresh))).1
          ≡ none)
        × (server_weight u
              (remove default_weight zero_float t'' u
                (put m' t' (suc b) (put m t (suc a) fresh))).0.next
            ≡ (pos (suc b), true))
  remove-put_twice m m' t t' t'' a b =
      rw (put_once m t a, put_twice m m' t t' a b, remove_one m m' t' t'' b)
        (refl, pool_weight default_weight u b)
