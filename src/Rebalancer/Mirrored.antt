-- ===== src/Rebalancer/Mirrored.antt =====
-- `adjustWeights` and `ServeHTTP` of the rebalancer keep the pool a mirror of its servers.
use oxy.Base.{
  ℕ, ◌≡◌, refl, sym, ◌∙◌, ap, subst, arith, Bool, true, false, Option, some, List, [], ◌∷◌, map,
  All, inl, inr, if◌then◌else◌, Bool-cases, ltb, length,
}
use oxy.Base.Int.{ℤ, ltb_ℤ, ◌+ℤ◌}
use oxy.Base.Text.{Text}
use oxy.Base.Result.{Result}
use oxy.RoundRobin.{Url, Pool, same_url}
use oxy.RoundRobin.Registry.{weight_of, Distinct}
use oxy.Sticky.Stays.{serve_http_stays}
use oxy.Anomaly.{Float64}
use oxy.Sticky.{Moment, StickySession, Served, unserved, forwarded, serve_http}
use oxy.Rebalancer.{
  Meters, RbServer, Rebalancer, grow, settle, adjust_with, metrics_ready, change_first,
  record_metrics, adjust_weights,
}
use oxy.Rebalancer.Adjust.{frame, frame-grow, frame-settle, mark_servers-IsKept}
use oxy.Rebalancer.Backoff.{current, grow_same, settle_same, mark_servers-IsSame}
use oxy.Rebalancer.Bounds.{IsFit, grow-IsFit, settle-IsFit}
use oxy.Rebalancer.Mirror.{Apart, value_of, Mirrors, adjust_with-Mirrors}
use oxy.Rebalancer.Serve.{
  after_answer, rebalance_http, observed, observed-IsFit, frame-observed, length-observed,
}

module _ {M : Type 0} where
  Mirrors-current :
      (ss ss' : List (RbServer M)) (r : Pool)
      → map current ss' ≡ map current ss
      → Mirrors ss r
      → Mirrors ss' r
  Mirrors-current ss ss' r same h = record {
    distinct = h.distinct;
    weights = λ v. h.weights v ∙ ap (value_of v) (sym same);
  }

  timed :
      {F : Type 0} (changed : Bool) (t : ℤ) (rb : Rebalancer M F)
      → Mirrors rb.servers rb.next
      → let rb' = if changed then record rb { timer = t } else rb in Mirrors rb'.servers rb'.next
  timed true t rb h = h
  timed false t rb h = h

  current-observed :
      (u : Url) (f : M → M) (ss : List (RbServer M))
      → map current (observed u f ss) ≡ map current ss
  unfolding change_first
  current-observed u f [] = refl
  current-observed u f (s ∷ ss) = elim (Bool-cases (same_url u s.url)) [
    | inl same ↦ rw (change_first, same) refl
    | inr apart ↦
        rw (change_first, apart)
          (ap (λ (l : List (Url × ℤ)). current s ∷ l) (current-observed u f ss))
  ]

moved_on :
    {M : Type 0} {ss : List (RbServer M)} (session : Option StickySession) (m m' : Moment)
    (cookie : Result Text (Option Text)) {r r' : Pool} {out : Served}
    → serve_http session m m' cookie r ≡ some (r', out)
    → Mirrors ss r
    → Mirrors ss r'
moved_on {ss = ss} session m m' cookie {r = r} e h =
    let same = sym (serve_http_stays session m m' cookie r e) in
    record {
      distinct = subst Distinct same h.distinct;
      weights = λ v. subst (λ l. weight_of v l ≡ value_of v (map current ss)) same (h.weights v);
    }

module _ {M F : Type 0} (floats : Float64 F) (meters : Meters M F)
    (keep : (xs : List F) → length (floats.sort xs) ≡ length xs) (default_weight : ℤ) where
  -- The end of `adjustWeights`, after `markServers`.
  abbrev finish : (ℕ → ℤ) → Bool → Rebalancer M F → Rebalancer M F
  finish clock split rb =
      let (rb', changed) = adjust_with default_weight (if split then grow else settle) rb in
      if changed then record rb' { timer = clock 1 +ℤ rb'.backoff_duration } else rb'

  finish-Mirrors :
      (clock : ℕ → ℤ) (split : Bool) (rb : Rebalancer M F)
      → Apart (map frame rb.servers)
      → All IsFit rb.servers
      → Mirrors rb.servers rb.next
      → Mirrors (finish clock split rb).servers (finish clock split rb).next
  finish-Mirrors clock true rb apart fit h =
      timed _ _ (adjust_with default_weight grow rb).0
        (adjust_with-Mirrors default_weight grow grow_same grow-IsFit frame-grow rb apart fit h)
  finish-Mirrors clock false rb apart fit h = timed _ _ (adjust_with default_weight settle rb).0 (
      adjust_with-Mirrors default_weight settle settle_same settle-IsFit frame-settle rb apart fit
        h)

  adjust_weights-Mirrors :
      (clock : ℕ → ℤ) (rb : Rebalancer M F)
      → Apart (map frame rb.servers)
      → All IsFit rb.servers
      → length rb.ratings ≡ length rb.servers
      → Mirrors rb.servers rb.next
      → (rb' : Rebalancer M F) × (adjust_weights floats meters default_weight clock rb ≡ some rb')
        × Mirrors rb'.servers rb'.next
  unfolding adjust_weights
  adjust_weights-Mirrors clock rb apart fit rated h =
      elim (Bool-cases (ltb (length rb.servers) 2)) [
        | inl few ↦ (rb, rw few refl, h)
        | inr many ↦ elim (Bool-cases (metrics_ready floats meters rb.servers)) [
          | inr unready ↦ (rb, rw (many, unready) refl, h)
          | inl ready ↦ elim (Bool-cases (ltb_ℤ rb.timer (clock 0))) [
            | inr early ↦ (rb, rw (many, ready, early) refl, h)
            | inl due ↦
                let (m, split, e, kept) =
                  mark_servers-IsKept floats meters keep rb fit rated (ground arith) in
                let same = mark_servers-IsSame floats meters rb e in
                let marked =
                  subst (Mirrors m.servers) (sym same.pool)
                    (Mirrors-current rb.servers m.servers rb.next same.weights h) in
                (
                  finish clock split m,
                  rw (adjust_weights, many, ready, due, e) refl,
                  finish-Mirrors clock split m (subst Apart (sym kept.frames) apart) kept.fit
                      marked,
                )
          ]
        ]
      ]

  after_answer-Mirrors :
      (clock : ℕ → ℤ) (u : Url) (reply : ℤ × ℤ) (rb : Rebalancer M F)
      → Apart (map frame rb.servers)
      → All IsFit rb.servers
      → length rb.ratings ≡ length rb.servers
      → Mirrors rb.servers rb.next
      → (rb' : Rebalancer M F) × (after_answer floats meters default_weight clock u reply rb
          ≡ some rb')
        × Mirrors rb'.servers rb'.next
  unfolding after_answer record_metrics
  after_answer-Mirrors clock u (code, latency) rb apart fit rated h =
      let f = meters.observe code latency in
      adjust_weights-Mirrors clock (record_metrics floats meters u code latency rb)
        (subst Apart (sym (frame-observed u f rb.servers)) apart)
        (observed-IsFit u f rb.servers fit) (rated ∙ sym (length-observed u f rb.servers))
        (Mirrors-current rb.servers _ rb.next (current-observed u f rb.servers) h)

  -- The pool holds the URLs of the servers, each with the server's current weight: a request that the
  -- rebalancer serves, from servers with distinct URLs and weights in 1 .. `FSMMaxWeight`, leaves it so, with
  -- as many ratings as servers and a sort that keeps the length.
  pub rebalance_http-Mirrors :
      (clock : ℕ → ℤ) (session : Option StickySession) (m m' : Moment)
      (cookie : Result Text (Option Text)) (answer : Url → ℤ × ℤ) (rb : Rebalancer M F)
      {next : Pool} {out : Served}
      → Apart (map frame rb.servers)
      → All IsFit rb.servers
      → length rb.ratings ≡ length rb.servers
      → serve_http session m m' cookie rb.next ≡ some (next, out)
      → Mirrors rb.servers rb.next
      → (rb' : Rebalancer M F) × (rebalance_http floats meters default_weight clock session m m'
            cookie answer rb
          ≡ some (rb', out))
        × Mirrors rb'.servers rb'.next
  unfolding rebalance_http
  rebalance_http-Mirrors clock session m m' cookie answer rb {next} {out = unserved e} apart fit
        rated eq h =
      (record rb { next = next }, rw (rebalance_http, eq) refl, moved_on session m m' cookie eq h)
  rebalance_http-Mirrors clock session m m' cookie answer rb {next} {out = forwarded u c} apart fit
        rated eq h =
      let (rb', done, h') =
        after_answer-Mirrors clock u (answer u) (record rb { next = next }) apart fit rated
          (moved_on session m m' cookie eq h) in
      (rb', rw (rebalance_http, eq, done) refl, h')
