-- ===== src/Lib.antt =====
-- Verification of oxy, the Go library of HTTP middleware.
--
-- The program. A middleware is a handler that wraps the next one. Each package keeps its own state behind
-- a mutex, decides what to do with a request, and calls the next handler or answers by itself. Modelled
-- are these parts:
--
-- - ratelimit/bucket.go, ratelimit/bucketset.go and ratelimit/tokenlimiter.go: RateLimit.
--   A `tokenBucket` is the record `TokenBucket`; `newTokenBucket`, `consume`, `rollback`, `update`,
--   `timeTillAvailable` and `updateAvailableTokens` are functions on it (RateLimit/Bucket). Sets of
--   buckets, with `Consume` and `Update`, are in RateLimit/BucketSet, and `RateSet` too. `consumeRates`,
--   which keeps a set for each source in a map of pointers, is `consume_rates` of RateLimit/Limiter, with
--   the sets in a heap.
-- - roundrobin/rr.go and the option `Weight` of roundrobin/options.go: RoundRobin. The pool is the record
--   `Pool`, `nextServer` is `next_server`, and each method has its function.
-- - roundrobin/rebalancer.go: Rebalancer, over the pool of RoundRobin: the registry that mirrors the pool,
--   and `adjustWeights`, which grows the weights of good servers or lets weights converge. What is good is
--   decided by memmetrics/anomaly.go: Anomaly. The rebalancer serves requests in Rebalancer/Serve; its
--   calls while no server stands out, with the requests between them, are a relation in Rebalancer/Home.
-- - memmetrics/counter.go: Counter, the counter of events over a rolling window. Two of them are the ratio
--   counter of memmetrics/ratio.go and the code meter of roundrobin/rebalancer.go: Ratio. Rebalancer/CodeMeters
--   makes it, with the readings of its clock, a meter of the rebalancer.
-- - memmetrics/histogram.go: Histogram, over the histograms of a third-party package.
-- - memmetrics/roundtrip.go and memmetrics/options.go: RoundTrip, the metrics of the breaker, from counters
--   and a histogram; the loops over the counters of status codes are in RoundTrip/StatusCodes.
-- - connlimit/connlimit.go: ConnLimit, with `acquire` and `release`, and the two halves of `ServeHTTP`.
-- - cbreaker/cbreaker.go and cbreaker/ratio.go: CBreaker, with the locked and the unlocked part of each
--   method, since other goroutines run in between. The operators of cbreaker/predicates.go, from which
--   tripping conditions are built, are in CBreaker/Predicates, and the expressions in
--   CBreaker/Expressions; `ServeHTTP` as a whole is in CBreaker/Serve, and cbreaker/fallback.go in
--   CBreaker/Fallback.
-- - buffer/buffer.go: Buffer. `ServeHTTP` is `serve`, with its loop `attempts_loop`; what multibuf and the
--   next handler answer is the record `Backend`. The operators of buffer/threshold.go are in
--   Buffer/Predicates.
-- - roundrobin/stickysessions.go, roundrobin/stickycookie and `ServeHTTP` of roundrobin/rr.go: Sticky. A
--   `CookieValue` is a record of its two methods; `RawValue`, `HashValue`, `FallbackValue` and `AESValue`
--   are values of it.
-- - forward/fwd.go and forward/rewrite.go: Forward, what the director of the proxy does to a request, with
--   the rewriter that `NewHeaderRewriter` makes.
-- - utils/netutils.go: Http, with the header maps that the buffer copies, and Http/Writer, with the writers
--   and with a handler as the calls that it makes of a writer; utils/auth.go: Auth; utils/source.go: Source.
-- - trace/trace.go and trace/options.go: Trace, over the writers of Http. `serve_http` gives the record that
--   the code hands to the JSON encoder.
--
-- Conventions. Base has the helpers: integers (Base/Int), int64 with its wrap-around (Base/Int64), maps as
-- association lists (Base/Assoc), lists. A time.Time is a number of nanoseconds from a fixed origin, and
-- each call of `clock.Now()` is an argument or an entry of a list of readings: nothing is assumed of the
-- clock but what a theorem states. int, int64 and time.Duration wrap around at 64 bits where the code
-- computes with them. A Go map is a list of entries; Go iterates in any order, and a theorem about every
-- list is one about every order. A method that holds the mutex is one step; where the order of steps
-- matters a relation (`Step`, `Reach`) has the interleavings. A panic (a division by zero, an index out of
-- range, a nil pointer) is `none`. float64 is a parameter (`Floats` of CBreaker, `FloatOrder` of
-- CBreaker/Predicates, `Quotient` of Ratio, `Float64` of Anomaly, which has the sort too), and so are the
-- metrics that a condition reads (`Readings` of CBreaker/Expressions), a meter (`Meters` of Rebalancer),
-- the TTL map (`Ttl` of RateLimit/Limiter), the histograms of hdrhistogram (`Hdr` of Histogram), and
-- url.Parse, the hash, the cipher and the encodings of the cookie values (`Packages` of Sticky, `Base64` of
-- Auth). The connection below a ResponseWriter is its state, of any type. A Go string is a String, but in
-- Sticky, Auth and Source a list of bytes (Base/Text).
--
-- Fuel. The loop of `nextServer` has fuel for two passes over the servers and one turn; the theorem on its
-- calls shows that with natural weights that are not all 0 this always finds a server. The loop of `gcd`
-- has fuel for its second argument plus one, and the argument falls in each round.
-- The loop of the buffer has fuel for eleven turns: after the tenth retry the response is final. `hex` of
-- Trace has fuel for the four digits of a uint16, `itoa` of CBreaker/Fallback for the nineteen of an int.
--
-- Not modelled: HTTP itself (a request is what a part reads of it, and a handler the calls that it makes
-- of a ResponseWriter), logging, the parsers of expressions, multibuf and hdrhistogram (third-party
-- packages), the TTL map and the clock of internal/holsterv4 (a copy of another library), JSON and the
-- rendering of URLs. The predicates of stream/threshold.go are those of the buffer, but its handler does
-- not use them.
pub mod Base
pub mod RateLimit
pub mod RoundRobin
pub mod ConnLimit
pub mod CBreaker
pub mod Counter
pub mod Ratio
pub mod Histogram
pub mod RoundTrip
pub mod Http
pub mod Auth
pub mod Source
pub mod Trace
pub mod Sticky
pub mod Forward
pub mod Buffer
pub mod Anomaly
pub mod Rebalancer
