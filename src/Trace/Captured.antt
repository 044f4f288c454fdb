-- ===== src/Trace/Captured.antt =====
-- Which headers `captureHeaders` keeps.
use Prim.Native.String.{String}
use text.Mathlib.Text.{◌==◌ as str_eq}
use text.Mathlib.TextEquality.{eq_iff}
use mathlib.Core.List.{append_assoc}
use oxy.Base.{
  Option-cases, ◌≡◌, refl, sym, ◌∙◌, ap, arith, Bool, true, false, none, some, if◌then◌else◌, List,
  [], ◌∷◌, ◌++◌, All, Bool-cases, inl, inr, append-nil, subst, ◌⊎◌,
}
use oxy.Base.Assoc.{lookup, insert, string_eq}
use oxy.Http.{Header, values_of}
use oxy.Http.Headers.{values_of-insert}
use oxy.Trace.{header_add, add_all, capture_one, capture_each, capture_headers}

abbrev pub listed : String → List String → Bool
listed j [] = false
listed j (k ∷ ks) = if str_eq j k then true else listed j ks

-- The values, or those that stand in for none.
abbrev or_values : List String → List String → List String
or_values [] ws = ws
or_values (v ∷ vs) ws = v ∷ vs

or_none : (vs : List String) → or_values vs [] ≡ vs
or_none [] = refl
or_none (v ∷ vs) = refl

or_twice :
    (b : Bool) (vs ws : List String)
    → or_values (or_values vs ws) (if b then ws else []) ≡ or_values vs ws
or_twice b (v ∷ vs) ws = refl
or_twice b [] (w ∷ ws) = refl
or_twice true [] [] = refl
or_twice false [] [] = refl

values_of_missing : (k : String) (h : Header) → lookup k h ≡ none → values_of k h ≡ []
unfolding values_of
values_of_missing k h e = ground arith

values_of_found :
    (k : String) (h : Header) {vs : List String} → lookup k h ≡ some vs → values_of k h ≡ vs
unfolding values_of
values_of_found k h e = ground arith

module _ (canonical : String → String) where
  values_of-header_add :
      (j k v : String) (out : Header)
      → canonical k ≡ k
      → values_of j (header_add canonical k v out)
        ≡ (if str_eq j k then values_of k out ++ (v ∷ []) else values_of j out)
  unfolding header_add
  values_of-header_add j k v out same =
      subst
        (λ (c : String).
          values_of j (insert c (values_of c out ++ (v ∷ [])) out)
          ≡ (if str_eq j k then values_of k out ++ (v ∷ []) else values_of j out))
        (sym same) (values_of-insert k j (values_of k out ++ (v ∷ [])) out)

  values_of-add_all :
      (j k : String) (vs : List String) (out : Header)
      → canonical k ≡ k
      → values_of j (add_all canonical k vs out)
        ≡ (if str_eq j k then values_of k out ++ vs else values_of j out)
  unfolding add_all
  values_of-add_all j k [] out same = elim (Bool-cases (str_eq j k)) [
    | inl here ↦
        let eq : j ≡ k = (eq_iff j k).0 here in
        rw here (ap (λ (n : String). values_of n out) eq ∙ sym (append-nil (values_of k out)))
    | inr other ↦ rw other refl
  ]
  values_of-add_all j k (v ∷ vs) out same =
      let rest = values_of-add_all j k vs (header_add canonical k v out) same in
      let one = values_of-header_add j k v out same in
      let own : values_of k (header_add canonical k v out) ≡ values_of k out ++ (v ∷ []) =
        values_of-header_add k k v out same ∙ rw ((eq_iff k k).1 refl) refl in
      elim (Bool-cases (str_eq j k)) [
        | inl here ↦ rw here (
            (rw here at rest)
            ∙ ap (λ (l : List String). l ++ vs) own
            ∙ append_assoc (values_of k out) (v ∷ []) vs)
        | inr other ↦ rw other ((rw other at rest) ∙ (rw other at one))
      ]

  values_of-capture_one :
      (inside : Header) (j k : String) (out : Header)
      → canonical k ≡ k
      → values_of j (capture_one canonical inside k out)
        ≡ (if str_eq j k then or_values (values_of k out) (values_of k inside) else values_of j out)
  unfolding capture_one
  values_of-capture_one inside j k out same = elim (Option-cases (lookup k inside)) [
    | inl missing ↦
        let empty : values_of k inside ≡ [] = values_of_missing k inside missing in
        rw (capture_one, missing, empty) (unchanged (Bool-cases (str_eq j k)))
    | inr (vals, found) ↦
        let full : values_of k inside ≡ vals = values_of_found k inside found in
        rw (capture_one, found, full) (go vals (values_of k out) refl)
  ]
    where
      unchanged :
          (str_eq j k ≡ true) ⊎ (str_eq j k ≡ false)
          → values_of j out
            ≡ (if str_eq j k then or_values (values_of k out) [] else values_of j out)
      unchanged (inl here) =
          let eq : j ≡ k = (eq_iff j k).0 here in
          rw here (ap (λ (n : String). values_of n out) eq ∙ sym (or_none (values_of k out)))
      unchanged (inr other) = rw other refl

      go :
          (vals vs : List String)
          → values_of k out ≡ vs
          → values_of j (elim vs [ [] ↦ add_all canonical k vals out | _ ∷ _ ↦ out ])
            ≡ (if str_eq j k then or_values vs vals else values_of j out)
      go vals [] none_there = values_of-add_all j k vals out same ∙ rw none_there refl
      go vals (v ∷ vs) there = elim (Bool-cases (str_eq j k)) [
        | inl here ↦
            let eq : j ≡ k = (eq_iff j k).0 here in
            rw here (ap (λ (n : String). values_of n out) eq ∙ there)
        | inr other ↦ rw other refl
      ]

  -- What a list of names adds to what is captured.
  values_of-capture_each :
      (inside : Header) (j : String) (ks : List String) (out : Header)
      → All (λ k. canonical k ≡ k) ks
      → values_of j (capture_each canonical inside ks out)
        ≡ or_values (values_of j out) (if listed j ks then values_of j inside else [])
  unfolding capture_each
  values_of-capture_each inside j [] out same = sym (or_none (values_of j out))
  values_of-capture_each inside j (k ∷ ks) out same =
      let rest = values_of-capture_each inside j ks (capture_one canonical inside k out) same.1 in
      let one = values_of-capture_one inside j k out same.0 in
      elim (Bool-cases (str_eq j k)) [
        | inl here ↦
            let eq : j ≡ k = (eq_iff j k).0 here in
            let one' : values_of j (capture_one canonical inside k out)
                ≡ or_values (values_of j out) (values_of j inside) =
              (rw here at one)
              ∙ ap (λ (n : String). or_values (values_of n out) (values_of n inside)) (sym eq) in
            rw here (
              rest
              ∙ ap
                  (λ (vs : List String).
                    or_values vs (if listed j ks then values_of j inside else []))
                  one'
              ∙ or_twice (listed j ks) (values_of j out) (values_of j inside))
        | inr other ↦ rw other (
            rest
            ∙ ap
                (λ (vs : List String).
                  or_values vs (if listed j ks then values_of j inside else []))
                (rw other at one))
      ]

  -- `captureHeaders` of a map and a list of names, which are canonical: of each name on the list it keeps
  -- all values that the map has, once each, and nothing of other names.
  pub capture_headers-listed :
      (inside : Header) (k : String) (ks : List String) (j : String)
      → All (λ k. canonical k ≡ k) (k ∷ ks)
      → (out : Header) × (capture_headers canonical (some inside) (k ∷ ks) ≡ some out)
        × (values_of j out ≡ (if listed j (k ∷ ks) then values_of j inside else []))
  unfolding capture_headers
  capture_headers-listed inside k ks j same = (
    capture_each canonical inside (k ∷ ks) [],
    refl,
    values_of-capture_each inside j (k ∷ ks) [] same ∙ rw (values_of_missing j [] refl) refl,
  )
