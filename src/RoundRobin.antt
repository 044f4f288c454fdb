-- ===== src/RoundRobin.antt =====
-- roundrobin/rr.go: weighted round robin over a pool of servers. `servers` points to records that
-- only the pool holds, so a pool is a value; the mutex makes each method one step. int wraps around.
pub mod Gcd
pub mod Search
pub mod Walk
pub mod Calls
pub mod Cycle
pub mod Registry
pub mod Zero
pub mod Stays
mod Tests
use Prim.Native.String.{String}
use text.Mathlib.Text.{◌==◌ as str_eq}
use oxy.Base.{
  ℕ, zero, suc, ◌+◌, ◌*◌, Bool, true, false, not, ◌&&◌, Option, none, some, if◌then◌else◌, List, [],
  ◌∷◌, ◌++◌, map, length, get_elem?, set, take, drop, ◌⊎◌, inl, inr, leb, ◌==◌,
}
use oxy.Base.Int.{ℤ, pos, negsuc, pos_part, neg_part, rem, ltb_ℤ, leb_ℤ, eqb_ℤ}
use oxy.Base.Int64.{add64, sub64}

-- `url.URL`: the three parts that `sameURL` compares, and the rest of it.
pub record Url : Type 0 where
  pub scheme : String
  pub host : String
  pub path : String
  pub rest : String

-- `server`
pub record Server : Type 0 where
  pub url : Url
  pub weight : ℤ

-- The fields of `RoundRobin` that its methods change.
pub record Pool : Type 0 where
  pub index : ℤ
  pub servers : List Server
  pub current_weight : ℤ

pub data Error : Type 0 where
  no_servers all_zero server_not_found nil_url negative_weight : Error

-- `New`, with no options.
abbrev pub new_pool : Pool
new_pool = record { index = negsuc 0; servers = []; current_weight = pos 0 }

-- `gcd`, whose loop has fuel.
unfoldable pub gcd_loop : ℕ → ℤ → ℤ → ℤ
gcd_loop zero a b = a
gcd_loop (suc f) a b = elim (eqb_ℤ b (pos 0)) [ true ↦ a | false ↦ gcd_loop f b (rem a b) ]

unfoldable pub gcd : ℤ → ℤ → ℤ
gcd a b = gcd_loop (suc (pos_part b + neg_part b)) a b

-- The loop of `weightGcd`; -1 stands for no divisor yet.
unfoldable pub weight_gcd_from : ℤ → List Server → ℤ
weight_gcd_from divisor [] = divisor
weight_gcd_from divisor (s ∷ ss) =
    weight_gcd_from (if eqb_ℤ divisor (negsuc 0) then s.weight else gcd divisor s.weight) ss

-- `weightGcd`
unfoldable pub weight_gcd : Pool → ℤ
weight_gcd r = weight_gcd_from (negsuc 0) r.servers

unfoldable pub max_weight_from : ℤ → List Server → ℤ
max_weight_from best [] = best
max_weight_from best (s ∷ ss) = max_weight_from (if ltb_ℤ best s.weight then s.weight else best) ss

-- `maxWeight`
unfoldable pub max_weight : Pool → ℤ
max_weight r = max_weight_from (negsuc 0) r.servers

-- How one turn of the loop of `nextServer` ends.
pub data Turn : Type 0 where
  again : Pool → Turn
  served : Pool → Server → Turn
  refused : Pool → Turn
  panicked : Turn

-- The end of a turn: `srv := r.servers[r.index]`, and its test.
unfoldable pub pick : Pool → Turn
pick r = elim (get_elem? r.servers (pos_part r.index)) [
  | none ↦ panicked
  | some s ↦ if leb_ℤ r.current_weight s.weight then served r s else again r
]

-- One turn of the loop.
unfoldable pub turn : ℤ → ℤ → Pool → Turn
turn divisor most r =
    let i = rem (add64 r.index (pos 1)) (pos (length r.servers)) in
    if eqb_ℤ i (pos 0)
    then (let lower = sub64 r.current_weight divisor in
        if leb_ℤ lower (pos 0)
        then (let restarted = record r { index = i; current_weight = most } in
            if eqb_ℤ most (pos 0) then refused restarted else pick restarted)
        else pick (record r { index = i; current_weight = lower }))
    else pick (record r { index = i })

-- The loop of `nextServer` on fuel: `none` is an index out of range, or no fuel left.
unfoldable pub next_loop : ℕ → ℤ → ℤ → Pool → Option (Pool × (Error ⊎ Server))
next_loop zero divisor most r = none
next_loop (suc f) divisor most r = elim (turn divisor most r) [
  | again r' ↦ next_loop f divisor most r'
  | served r' s ↦ some (r', inr s)
  | refused r' ↦ some (r', inl all_zero)
  | panicked ↦ none
]

-- Two passes over the servers and one turn are enough.
abbrev pub enough : Pool → ℕ
enough r = suc (length r.servers + length r.servers)

-- `nextServer`
unfoldable pub next_server : Pool → Option (Pool × (Error ⊎ Server))
next_server r =
    if length r.servers == 0
    then some (r, inl no_servers)
    else next_loop (enough r) (weight_gcd r) (max_weight r) r

-- `sameURL`
unfoldable pub same_url : Url → Url → Bool
same_url a b = str_eq a.path b.path && (str_eq a.host b.host && str_eq a.scheme b.scheme)

unfoldable pub find_from : ℕ → Url → List Server → Option (Server × ℕ)
find_from i u [] = none
find_from i u (s ∷ ss) = if same_url u s.url then some (s, i) else find_from (suc i) u ss

-- `findServerByURL`: the server and its index, if there is one.
unfoldable pub find_server_by_url : Url → Pool → Option (Server × ℕ)
find_server_by_url u r = find_from 0 u r.servers

-- `resetState` and `resetIterator`
unfoldable pub reset_state : Pool → Pool
reset_state r = record r { index = negsuc 0; current_weight = pos 0 }

-- `RemoveServer`
unfoldable pub remove_server : Url → Pool → Pool × Option Error
remove_server u r = elim (find_server_by_url u r) [
  | none ↦ (r, some server_not_found)
  | some (s, i) ↦
      (reset_state (record r { servers = take i r.servers ++ drop (suc i) r.servers }), none)
]

-- `Servers`
unfoldable pub server_urls : Pool → List Url
server_urls r = map (λ s. s.url) r.servers

-- `ServerWeight`
unfoldable pub server_weight : Url → Pool → ℤ × Bool
server_weight u r = elim (find_server_by_url u r) [
  | none ↦ (negsuc 0, false)
  | some (s, _) ↦ (s.weight, true)
]

-- `ServerOption`: `Weight` is the one that the package has.
pub data ServerOption : Type 0 where
  weight : ℤ → ServerOption

-- `Weight`, applied to a server.
unfoldable pub apply_option : ServerOption → Server → Server × Option Error
apply_option (weight w) s =
    if ltb_ℤ w (pos 0) then (s, some negative_weight) else (record s { weight = w }, none)

-- The loop over the options stops at the first error; what came before it stays applied.
unfoldable pub apply_options : List ServerOption → Server → Server × Option Error
apply_options [] s = (s, none)
apply_options (o ∷ os) s =
    let (s', err) = apply_option o s in
    elim err [ some e ↦ (s', some e) | none ↦ apply_options os s' ]

-- `UpsertServer` of a URL that is new to the pool.
unfoldable pub insert_server : ℤ → Url → List ServerOption → Pool → Pool × Option Error
insert_server default_weight u options r =
    let (s, err) = apply_options options (record { url = u; weight = pos 0 }) in
    elim err [
      | some e ↦ (r, some e)
      | none ↦
          let s' = if eqb_ℤ s.weight (pos 0) then record s { weight = default_weight } else s in
          (reset_state (record r { servers = r.servers ++ (s' ∷ []) }), none)
    ]

-- `UpsertServer`; the options of a known server work on the server in the pool. `none` is the nil URL.
unfoldable pub upsert_server : ℤ → Option Url → List ServerOption → Pool → Pool × Option Error
upsert_server default_weight none options r = (r, some nil_url)
upsert_server default_weight (some u) options r = elim (find_server_by_url u r) [
  | none ↦ insert_server default_weight u options r
  | some (s, i) ↦
      let (s', err) = apply_options options s in
      let r' = record r { servers = set r.servers i s' } in
      elim err [ some e ↦ (r', some e) | none ↦ (reset_state r', none) ]
]

-- `SetDefaultWeight`: the new default.
unfoldable pub set_default_weight : ℤ → ℤ → ℤ × Option Error
set_default_weight w default_weight =
    if ltb_ℤ w (pos 0) then (default_weight, some negative_weight) else (w, none)
