-- ===== src/RoundRobin/Stays.antt =====
-- `nextServer` moves the iterator and leaves the servers alone.
use oxy.Base.{
  ℕ, zero, suc, ◌≡◌, refl, sym, ◌∙◌, ap, arith, some, List, ◌⊎◌, inl, inr, get_elem?, Bool-cases,
  Option-cases, length, ◌==◌,
}
use oxy.Base.Int.{ℤ, pos, pos_part, leb_ℤ, eqb_ℤ, rem}
use oxy.Base.Int64.{add64, sub64}
use oxy.RoundRobin.{
  Server, Pool, Error, all_zero, no_servers, enough, weight_gcd, max_weight, Turn, again, served,
  refused, panicked, pick, turn, next_loop, next_server,
}

-- The pool after a turn has these servers.
abbrev Leaves : List Server → Turn → Type 0
Leaves ss (again r) = r.servers ≡ ss
Leaves ss (served r s) = r.servers ≡ ss
Leaves ss (refused r) = r.servers ≡ ss
Leaves ss panicked = Unit

pick-Leaves : (r : Pool) → Leaves r.servers (pick r)
unfolding pick
pick-Leaves r = elim (Option-cases (get_elem? r.servers (pos_part r.index))) [
  | inl outside ↦ rw (Leaves, pick, outside) tt
  | inr (s, found) ↦ elim (Bool-cases (leb_ℤ r.current_weight s.weight)) [
    | inl heavy ↦ rw (Leaves, pick, found, heavy) refl
    | inr light ↦ rw (Leaves, pick, found, light) refl
  ]
]

turn-Leaves : (d m : ℤ) (r : Pool) → Leaves r.servers (turn d m r)
unfolding turn
turn-Leaves d m r =
    let i = rem (add64 r.index (pos 1)) (pos (length r.servers)) in
    let lower = sub64 r.current_weight d in
    let inside = pick-Leaves (record r { index = i }) in
    let next = pick-Leaves (record r { index = i; current_weight = lower }) in
    let first = pick-Leaves (record r { index = i; current_weight = m }) in
    elim (Bool-cases (eqb_ℤ i (pos 0))) [
      | inr more ↦ rw (Leaves, turn, more) inside
      | inl start ↦ elim (Bool-cases (leb_ℤ lower (pos 0))) [
        | inr above ↦ rw (Leaves, turn, start, above) next
        | inl below ↦ elim (Bool-cases (eqb_ℤ m (pos 0))) [
          | inl all ↦ rw (Leaves, turn, start, below, all) refl
          | inr most ↦ rw (Leaves, turn, start, below, most) first
        ]
      ]
    ]

next_loop_stays :
    (f : ℕ) (d m : ℤ) (r : Pool) {r' : Pool} {out : Error ⊎ Server}
    → next_loop f d m r ≡ some (r', out)
    → r'.servers ≡ r.servers
unfolding next_loop
next_loop_stays zero d m r e = absurd (ground arith)
next_loop_stays (suc f) d m r {r' = r'} {out = out} e =
    go (λ r1 h. next_loop_stays f d m r1 h) (turn d m r) refl (turn-Leaves d m r)
  where
    go :
        ((r1 : Pool) → next_loop f d m r1 ≡ some (r', out) → r'.servers ≡ r1.servers)
        → (t : Turn) → turn d m r ≡ t
        → Leaves r.servers t
        → r'.servers ≡ r.servers
    go rest (again r1) same l =
        let there : next_loop (suc f) d m r ≡ next_loop f d m r1 = rw (next_loop, same) refl in
        rest r1 (sym there ∙ e) ∙ l
    go rest (served r1 s) same l =
        let there : next_loop (suc f) d m r ≡ some (r1, inr s) = rw (next_loop, same) refl in
        let one : r1 ≡ r' = cc in ap (λ (p : Pool). p.servers) (sym one) ∙ l
    go rest (refused r1) same l =
        let there : next_loop (suc f) d m r ≡ some (r1, inl all_zero) = rw (next_loop, same) refl in
        let one : r1 ≡ r' = cc in ap (λ (p : Pool). p.servers) (sym one) ∙ l
    go rest panicked same l = absurd (ground (arith, same))

pub next_server_stays :
    (r : Pool) {r' : Pool} {out : Error ⊎ Server}
    → next_server r ≡ some (r', out)
    → r'.servers ≡ r.servers
unfolding next_server
next_server_stays r {r' = r'} {out = out} e = elim (Bool-cases (length r.servers == 0)) [
  | inl empty ↦
      let there : next_server r ≡ some (r, inl no_servers) = rw (next_server, empty) refl in
      let one : r ≡ r' = cc in ap (λ (p : Pool). p.servers) (sym one)
  | inr full ↦
      let there : next_server r ≡ next_loop (enough r) (weight_gcd r) (max_weight r) r =
        rw (next_server, full) refl in
      next_loop_stays (enough r) (weight_gcd r) (max_weight r) r (sym there ∙ e)
]
