-- ===== src/Http/Headers.antt =====
-- Copies and removals of headers.
use Prim.Native.String.{String}
use text.Mathlib.Text.{◌==◌ as str_eq}
use text.Mathlib.TextEquality.{eq_iff}
use oxy.Base.{
  if◌then◌else◌, List, [], ◌∷◌, ◌++◌, ◌≡◌, sym, append-nil, ap, Bool-cases, inl, inr, arith,
}
use oxy.Base.Assoc.{lookup, insert, IsMap, lookup-insert, string_eq}
use oxy.Http.{Header, values_of, copy_headers}

pub values_of-insert :
    (k j : String) (vs : List String) (h : Header)
    → values_of j (insert k vs h) ≡ (if str_eq j k then vs else values_of j h)
unfolding values_of
values_of-insert k j vs h = ground (arith, lookup-insert k j vs h)

-- After `CopyHeaders` a name has the values that it had and then those of the source, and the source
-- lists no name twice.
pub values_of-copy_headers :
    (dst src : Header) (j : String)
    → IsMap src
    → values_of j (copy_headers dst src) ≡ values_of j dst ++ values_of j src
unfolding copy_headers values_of
values_of-copy_headers dst [] j h = sym (append-nil (values_of j dst))
values_of-copy_headers dst ((k, vv) ∷ src) j h =
    let rest : values_of j (copy_headers (insert k (values_of k dst ++ vv) dst) src)
        ≡ values_of j (insert k (values_of k dst ++ vv) dst) ++ values_of j src =
      values_of-copy_headers (insert k (values_of k dst ++ vv) dst) src j h.1 in
    let first = values_of-insert k j (values_of k dst ++ vv) dst in
    let whole = append-nil (values_of k dst ++ vv) in
    elim (Bool-cases (str_eq j k)) [
      | inl same ↦
          let eq : j ≡ k = (eq_iff j k).0 same in
          let gone : values_of j src ≡ [] =
            ground (arith, ap (λ (x : String). lookup x src) eq, h.0) in
          let moved : values_of k dst ≡ values_of j dst =
            ap (λ (x : String). values_of x dst) (sym eq) in
          let here : values_of j ((k, vv) ∷ src) ≡ vv = ground (arith, same) in
          let there : values_of j (insert k (values_of k dst ++ vv) dst) ≡ values_of k dst ++ vv =
            ground (arith, first, same) in
          cc (rest, there, gone, moved, here, whole)
      | inr apart ↦
          let here : values_of j ((k, vv) ∷ src) ≡ values_of j src = ground (arith, apart) in
          let there : values_of j (insert k (values_of k dst ++ vv) dst) ≡ values_of j dst =
            ground (arith, first, apart) in
          cc (rest, there, here)
    ]
