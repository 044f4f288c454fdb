-- ===== src/Buffer/Attempts.antt =====
-- The attempts of `ServeHTTP`: how many there are, what each sends, and why each but the last is repeated.
use oxy.Base.{
  ℕ, zero, suc, ◌+◌, ◌≤◌, ◌≡◌, ◌≢◌, refl, arith, true, false, Option, none, some, List, [], ◌∷◌,
  length, ◌⊎◌, inl, inr, Bool-cases, Option-cases, ◌∙◌, if◌then◌else◌,
}
use oxy.Base.Int.{ℤ, pos, ltb_ℤ, eqb_ℤ, ◌+ℤ◌}
use oxy.Base.Int64.{add64, wrap64}
use Prim.Native.String.{String}
use oxy.Base.Result.{err, ok, Result-cases}
use oxy.Buffer.Predicates.{HPredicate}
use oxy.Buffer.{
  BufferError, Buffer, Request, Reply, Backend, Ending, handled_error, multibuf_error, nil_error,
  body_error, Turn, ends, retries, is_final, expect_body, copy_request, decide, turn, attempts_loop,
  check_limit, serve,
}

Turn-cases :
    (t : Turn) → ((e : Ending) × (t ≡ ends e)) ⊎ ((a : ℤ) × (r : Request) × (t ≡ retries a r))
Turn-cases (ends e) = inl (e, refl)
Turn-cases (retries a r) = inr (a, r, refl)

module _ (b : Buffer) (w : Backend) (req : Request) (body : Option (List ℕ)) (total_size : ℤ) where
  -- A copy of the request; a body that is there is read from its start.
  abbrev pub IsCopy : Request → Type 0
  IsCopy r =
      (offset : ℕ) × (r ≡ copy_request req body total_size offset) × (body ≢ none → offset ≡ 0)

  -- The response was given up: the retry predicate holds of it.
  abbrev pub WasRetried : ℤ → Request → Type 0
  WasRetried attempt r =
      (p : HPredicate) × (b.retry_predicate ≡ some p)
      × (p (record {
        method = req.method;
        attempt = attempt;
        response_code = (w.next attempt r).code;
      })
          ≡ true)
      × ((w.next attempt r).hijacked ≡ false)

  -- The turns from the k-th on.
  abbrev pub IsRun : ℕ → List (ℤ × Request) → Ending → Type 0
  IsRun k [] e = ⊥
  IsRun k ((a, r) ∷ []) e = (a ≡ pos k) × IsCopy r × (turn b w req body total_size a r ≡ ends e)
  IsRun k ((a, r) ∷ x ∷ l) e = (a ≡ pos k) × IsCopy r × WasRetried a r × IsRun (suc k) (x ∷ l) e

  is_final_inv :
      (attempt code : ℤ)
      → is_final b req attempt code ≡ false
      → (p : HPredicate) × (b.retry_predicate ≡ some p)
        × (ltb_ℤ (pos 10) attempt ≡ false)
        × (p (record { method = req.method; attempt = attempt; response_code = code }) ≡ true)
  unfolding is_final
  is_final_inv attempt code h = elim (Option-cases b.retry_predicate) [
    | inl none_set ↦ absurd (ground arith)
    | inr (p, e) ↦ (p, e, ground (arith, e), ground (arith, e))
  ]

  -- What a turn that retries has seen, and what it sends next.
  abbrev Retries : ℤ → Request → ℤ → Request → Type 0
  Retries a r a' r' =
      (is_final b req a (w.next a r).code ≡ false)
      × ((w.next a r).hijacked ≡ false)
      × (a' ≡ add64 a (pos 1))
      × IsCopy r'

  decide_inv :
      (a : ℤ) (bw : Reply) (content : Option (List ℕ)) {a' : ℤ} {r' : Request}
      → decide b w req body total_size a bw content ≡ retries a' r'
      → (is_final b req a bw.code ≡ false) × (a' ≡ add64 a (pos 1)) × IsCopy r'
  unfolding decide
  decide_inv a bw content h = elim (Bool-cases (is_final b req a bw.code)) [
    | inl final ↦ absurd (ground (arith, final))
    | inr goes_on ↦ elim (Option-cases body) [
      | inl empty ↦ (
        goes_on,
        ground (arith, goes_on, empty),
        (bw.read_to, ground (arith, goes_on, empty), λ some_body. absurd (some_body empty)),
      )
      | inr (content', full) ↦ elim (Option-cases (w.seek (add64 a (pos 1)))) [
        | inr (e, bad) ↦ absurd (ground (arith, goes_on, full, bad))
        | inl rewound ↦ (
          goes_on,
          ground (arith, goes_on, full, rewound),
          (0, ground (arith, goes_on, full, rewound), λ _. refl),
        )
      ]
    ]
  ]

  turn_inv :
      (a : ℤ) (r : Request) {a' : ℤ} {r' : Request}
      → turn b w req body total_size a r ≡ retries a' r'
      → Retries a r a' r'
  unfolding turn
  turn_inv a r {a'} {r'} h = elim (Option-cases (w.new_writer a)) [
    | inr (e, bad) ↦ absurd (ground (arith, bad))
    | inl good ↦ elim (Bool-cases (w.next a r).hijacked) [
      | inl taken ↦ absurd (ground (arith, good, taken))
      | inr kept ↦ elim (Bool-cases (expect_body r.method (w.next a r))) [
        | inr bare ↦
            let same : decide b w req body total_size a (w.next a r) none ≡ retries a' r' =
              ground (arith, good, kept, bare) in
            let (f, s, c) = decide_inv a (w.next a r) none same in (f, kept, s, c)
        | inl full ↦ elim (Option-cases (w.reader a)) [
          | inr (e, bad) ↦ absurd (ground (arith, good, kept, full, bad))
          | inl read ↦
              let same : decide b w req body total_size a (w.next a r) (some (w.next a r).content)
                  ≡ retries a' r' =
                ground (arith, good, kept, full, read) in
              let (f, s, c) = decide_inv a (w.next a r) (some (w.next a r).content) same in
              (f, kept, s, c)
        ]
      ]
    ]
  ]

  extended :
      (k : ℕ) (r : Request) (sent : List (ℤ × Request)) (e : Ending)
      → IsCopy r
      → WasRetried (pos k) r
      → IsRun (suc k) sent e
      → IsRun k ((pos k, r) ∷ sent) e
  extended k r [] e copy retried rest = elim rest [ ]
  extended k r (x ∷ sent) e copy retried rest = (refl, copy, retried, rest)

  next_attempt : (k : ℕ) → k ≤ 10 → add64 (pos k) (pos 1) ≡ pos (suc k)
  unfolding add64 wrap64 ◌+ℤ◌
  next_attempt k h = ground arith

  attempts_loop-IsRun :
      (f k : ℕ) (r : Request)
      → f + k ≡ 12
      → k ≤ 11
      → IsCopy r
      → (sent : List (ℤ × Request)) × (e : Ending) × (attempts_loop b w req body total_size f
            (pos k)
            r
          ≡ some (sent, e))
        × (length sent + k ≤ 12)
        × IsRun k sent e
  unfolding attempts_loop
  attempts_loop-IsRun zero k r sum low copy = absurd (omega arith)
  attempts_loop-IsRun (suc f) k r sum low copy =
      elim (Turn-cases (turn b w req body total_size (pos k) r)) [
        | inl (e, ended) ↦
            ((pos k, r) ∷ [], e, rw (attempts_loop, ended) refl, omega arith, (refl, copy, ended))
        | inr (a', r', goes_on) ↦
            let (f', kept, step, copy') = turn_inv (pos k) r goes_on in
            let (p, set, early, true_of) = is_final_inv (pos k) _ f' in
            let small : k ≤ 10 = ground arith in
            let number : a' ≡ pos (suc k) = step ∙ next_attempt k small in
            let (sent, e, eq, len, run) =
              attempts_loop-IsRun f (suc k) r' (omega arith) (omega arith) copy' in
            (
              (pos k, r) ∷ sent,
              e,
              rw (attempts_loop, goes_on, number, eq) refl,
              omega arith,
              extended k r sent e copy (p, set, true_of, kept) run,
            )
      ]

-- The error with which `ServeHTTP` ends before its loop: of the limit check, of reading the body (the
-- context's, if it has one), or of taking the size of the body that was read.
abbrev pub IsRefused : Buffer → Backend → Request → BufferError → Type 0
IsRefused b w req e =
    (check_limit b req ≡ some e)
    ⊎ ((text : String) × (w.read_body req.body ≡ err text)
        × (e ≡ body_error w (multibuf_error text)))
    ⊎ ((w.read_body req.body ≡ ok none) × (e ≡ body_error w nil_error))
    ⊎ ((content : List ℕ) × (text : String) × (w.read_body req.body ≡ ok (some content))
        × (w.size content ≡ err text)
        × (e ≡ multibuf_error text))

-- The body that each attempt reads from its start: what was read of the request, unless its size is 0.
abbrev pub held_body : List ℕ → ℤ → Option (List ℕ)
held_body content total_size = if eqb_ℤ total_size (pos 0) then none else some content

-- `ServeHTTP` ends after at most eleven turns of its loop. Either none began, and the end is the error of the
-- limit check, of reading the body or of taking its size. Or the limit check found nothing, and the body
-- was read and has a size; then the turns are numbered from 1, and each has a copy of the request with this
-- size; the copy has the body that was read, from its start, unless the size is 0, and then the body of
-- the request; the response of each turn but the last was not hijacked and satisfied the retry predicate;
-- and the last turn leads to the end.
pub serve-IsRun :
    (b : Buffer) (w : Backend) (req : Request)
    → (sent : List (ℤ × Request)) × (e : Ending) × (serve b w req ≡ some (sent, e))
      × (length sent ≤ 11)
      × (((sent ≡ []) × (f : BufferError) × (e ≡ handled_error f) × IsRefused b w req f)
          ⊎ ((check_limit b req ≡ none)
              × (content : List ℕ) × (total_size : ℤ) × (w.read_body req.body ≡ ok (some content))
              × (w.size content ≡ ok total_size)
              × IsRun b w req (held_body content total_size) total_size 1 sent e))
unfolding serve
serve-IsRun b w req = elim (Option-cases (check_limit b req)) [
  | inr (e, over) ↦
      ([], handled_error e, rw (serve, over) refl, omega arith, inl (refl, e, refl, inl over))
  | inl within ↦ elim (Result-cases (w.read_body req.body)) [
    | inl (e, bad) ↦ (
      [],
      handled_error (body_error w (multibuf_error e)),
      rw (serve, within, bad) refl,
      omega arith,
      inl (refl, body_error w (multibuf_error e), refl, inr (inl (e, bad, refl))),
    )
    | inr (held, read) ↦ elim (Option-cases held) [
      | inl nothing ↦ (
        [],
        handled_error (body_error w nil_error),
        rw (serve, within, read, nothing) refl,
        omega arith,
        inl (refl, body_error w nil_error, refl, inr (inr (inl (rw nothing at read, refl)))),
      )
      | inr (content, there) ↦ elim (Result-cases (w.size content)) [
        | inl (e, bad) ↦ (
          [],
          handled_error (multibuf_error e),
          rw (serve, within, read, there, bad) refl,
          omega arith,
          inl (
            refl,
            multibuf_error e,
            refl,
            inr (inr (inr (content, e, rw there at read, bad, refl))),
          ),
        )
        | inr (total_size, sized) ↦
            let body = held_body content total_size in
            let (sent, e, eq, len, run) =
              attempts_loop-IsRun b w req body total_size 11 1 (copy_request req body total_size 0)
                refl (omega arith) (0, refl, λ _. refl) in
            (
              sent,
              e,
              rw (serve, within, read, there, sized) eq,
              omega arith,
              inr (within, content, total_size, rw there at read, sized, run),
            )
      ]
    ]
  ]
]
