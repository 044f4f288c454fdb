-- ===== src/Rebalancer/Serve.antt =====
-- `ServeHTTP` of roundrobin/rebalancer.go: the choice of a server is that of the round robin pool, with the
-- sticky session of the rebalancer.
use oxy.Base.{
  ℕ, suc, ◌≡◌, refl, sym, ◌∙◌, ap, Option, none, some, Bool-cases, inl, inr, List, [], ◌∷◌, map,
  length, All,
}
use oxy.Base.Int.{ℤ}
use oxy.Base.Text.{Text}
use oxy.Base.Result.{Result}
use oxy.Anomaly.{Float64}
use oxy.RoundRobin.{Url, Pool, same_url}
use oxy.Sticky.{Moment, StickySession, Served, unserved, forwarded, serve_http}
use oxy.Rebalancer.{Meters, RbServer, Rebalancer, change_first, record_metrics, adjust_weights}
use oxy.Rebalancer.Adjust.{frame, IsKept, adjust_weights-IsKept}
use oxy.Rebalancer.Bounds.{IsFit}

module _ {M F : Type 0} (floats : Float64 F) (meters : Meters M F) where
  -- After the next handler has answered a request for a URL with a code, and so long after its start.
  unfoldable pub after_answer : ℤ → (ℕ → ℤ) → Url → ℤ × ℤ → Rebalancer M F → Option (Rebalancer M F)
  after_answer default_weight clock u (code, latency) rb =
      adjust_weights floats meters default_weight clock
        (record_metrics floats meters u code latency rb)

  -- `ServeHTTP`; `answer` is the code and the time that the next handler takes for a URL.
  unfoldable pub rebalance_http :
      ℤ
      → (ℕ → ℤ)
      → Option StickySession
      → Moment
      → Moment
      → Result Text (Option Text)
      → (Url → ℤ × ℤ)
      → Rebalancer M F
      → Option (Rebalancer M F × Served)
  rebalance_http default_weight clock session m m' cookie answer rb =
      elim (serve_http session m m' cookie rb.next) [
        | none ↦ none
        | some (next, unserved e) ↦ some (record rb { next = next }, unserved e)
        | some (next, forwarded u c) ↦
            elim (after_answer default_weight clock u (answer u) (record rb { next = next })) [
              | none ↦ none
              | some rb' ↦ some (rb', forwarded u c)
            ]
      ]

module _ {M : Type 0} (u : Url) (f : M → M) where
  -- `srv.meter.Record` on one server.
  abbrev pub observed : List (RbServer M) → List (RbServer M)
  observed ss = change_first u (λ s. record s { meter = f s.meter }) ss

  pub observed-IsFit : (ss : List (RbServer M)) → All IsFit ss → All IsFit (observed ss)
  unfolding change_first
  observed-IsFit [] h = tt
  observed-IsFit (s ∷ ss) h = elim (Bool-cases (same_url u s.url)) [
    | inl same ↦ rw (change_first, same) h
    | inr apart ↦ rw (change_first, apart) (h.0, observed-IsFit ss h.1)
  ]

  pub frame-observed : (ss : List (RbServer M)) → map frame (observed ss) ≡ map frame ss
  unfolding change_first
  frame-observed [] = refl
  frame-observed (s ∷ ss) = elim (Bool-cases (same_url u s.url)) [
    | inl same ↦ rw (change_first, same) refl
    | inr apart ↦
        rw (change_first, apart) (ap (λ (l : List (Url × ℤ)). frame s ∷ l) (frame-observed ss))
  ]

  pub length-observed : (ss : List (RbServer M)) → length (observed ss) ≡ length ss
  unfolding change_first
  length-observed [] = refl
  length-observed (s ∷ ss) = elim (Bool-cases (same_url u s.url)) [
    | inl same ↦ rw (change_first, same) refl
    | inr apart ↦ rw (change_first, apart) (ap suc (length-observed ss))
  ]

module _ {M F : Type 0} (floats : Float64 F) (meters : Meters M F)
    (keep : (xs : List F) → length (floats.sort xs) ≡ length xs) where
  after_answer-IsKept :
      (default_weight : ℤ) (clock : ℕ → ℤ) (u : Url) (reply : ℤ × ℤ) (rb : Rebalancer M F)
      → All IsFit rb.servers
      → length rb.ratings ≡ length rb.servers
      → (rb' : Rebalancer M F) × (after_answer floats meters default_weight clock u reply rb
          ≡ some rb')
        × IsKept rb.servers rb'
  unfolding after_answer record_metrics
  after_answer-IsKept default_weight clock u (code, latency) rb fit rated =
      let f = meters.observe code latency in
      let (rb', e, kept) =
        adjust_weights-IsKept floats meters keep default_weight clock
          (record_metrics floats meters u code latency rb) (observed-IsFit u f rb.servers fit)
          (rated ∙ sym (length-observed u f rb.servers)) in
      (
        rb',
        e,
        record {
          fit = kept.fit;
          frames = kept.frames ∙ frame-observed u f rb.servers;
          rated = kept.rated ∙ length-observed u f rb.servers;
        },
      )

  -- `ServeHTTP` of the rebalancer answers a request as its pool does, and does not panic if the pool does
  -- not, with as many ratings as servers, all weights in 1 .. `FSMMaxWeight`, and a sort that keeps the
  -- length. All this holds afterwards too, and the URLs and original weights of the servers stay.
  pub rebalance_http-IsKept :
      (default_weight : ℤ) (clock : ℕ → ℤ) (session : Option StickySession) (m m' : Moment)
      (cookie : Result Text (Option Text)) (answer : Url → ℤ × ℤ) (rb : Rebalancer M F)
      {next : Pool} {out : Served}
      → All IsFit rb.servers
      → length rb.ratings ≡ length rb.servers
      → serve_http session m m' cookie rb.next ≡ some (next, out)
      → (rb' : Rebalancer M F) × (rebalance_http floats meters default_weight clock session m m'
            cookie answer rb
          ≡ some (rb', out))
        × IsKept rb.servers rb'
  unfolding rebalance_http
  rebalance_http-IsKept default_weight clock session m m' cookie answer rb {next} {out = unserved e}
        fit rated eq =
      (
        record rb { next = next },
        rw (rebalance_http, eq) refl,
        record { fit = fit; frames = refl; rated = rated },
      )
  rebalance_http-IsKept default_weight clock session m m' cookie answer rb {next}
        {out = forwarded u c} fit rated eq =
      let (rb', done, kept) =
        after_answer-IsKept default_weight clock u (answer u) (record rb { next = next }) fit
          rated in
      (rb', rw (rebalance_http, eq, done) refl, kept)
