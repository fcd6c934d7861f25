-- ===== src/Matcher/Terms.antt =====
-- Compiled terms: none is empty or repeated, and they match as the raw terms do.
use relay_scope.Base.{
  ◌≡◌, refl, inl, inr, true, false, ◌||◌, List, [], ◌∷◌, All, Pairs, arith, Bool-cases, map,
}
use relay_scope.Base.Texts.{
  Text, text_eq, text_eq_sound, is_empty, to_lower, trim_space, contains, has_prefix, cut_prefix,
}
use relay_scope.Matcher.{is_in, compile_loop, compile_terms, contains_all}

abbrev NewTo : List Text → Text → Type 0
NewTo seen t = (is_empty t ≡ false) × (is_in t seen ≡ false)

forget : (seen ts : List Text) (s : Text) → All (NewTo (s ∷ seen)) ts → All (NewTo seen) ts
forget seen [] s h = tt
forget seen (t ∷ ts) s h = ((h.0.0, ground (arith, h.0.1)), forget seen ts s h.1)

differ :
    (seen ts : List Text) (s : Text) → All (NewTo (s ∷ seen)) ts → All (λ t. text_eq s t ≡ false) ts
differ seen [] s h = tt
differ seen (t ∷ ts) s h = (ground (arith, h.0.1), differ seen ts s h.1)

compiled-new :
    (seen terms : List Text)
    → All (NewTo seen) (compile_loop seen terms)
      × Pairs (λ s t. text_eq s t ≡ false) (compile_loop seen terms)
unfolding compile_loop
compiled-new seen [] = (tt, tt)
compiled-new seen (raw ∷ rest) =
    let term = to_lower (trim_space raw) in
    elim (Bool-cases (is_empty term || is_in term seen)) [
      | inl skip ↦ rw skip (compiled-new seen rest)
      | inr keep ↦
          let more = compiled-new (term ∷ seen) rest in
          rw keep (
            (
              (ground (arith, keep), ground (arith, keep)),
              forget seen (compile_loop (term ∷ seen) rest) term more.0,
            ),
            (differ seen (compile_loop (term ∷ seen) rest) term more.0, more.1),
          )
    ]

contains_nil : (h : Text) → contains [] h ≡ true
unfolding contains has_prefix cut_prefix
contains_nil [] = refl
contains_nil (c ∷ s) = refl

seen_contained :
    (h t : Text) (seen : List Text)
    → All (λ s. contains s h ≡ true) seen
    → is_in t seen ≡ true
    → contains t h ≡ true
seen_contained h t [] a k = cc
seen_contained h t (s ∷ seen) a k = elim (Bool-cases (text_eq s t)) [
  | inl same ↦ rw (← text_eq_sound s t same) a.0
  | inr other ↦ seen_contained h t seen a.1 (ground (arith, other))
]

empty_contained : (h t : Text) → is_empty t ≡ true → contains t h ≡ true
empty_contained h [] e = contains_nil h
empty_contained h (c ∷ s) e = cc

abbrev pub term_of : Text → Text
term_of raw = to_lower (trim_space raw)

compile_loop-contains :
    (h : Text) (seen terms : List Text)
    → All (λ s. contains s h ≡ true) seen
    → contains_all h (compile_loop seen terms) ≡ contains_all h (map term_of terms)
unfolding compile_loop contains_all
compile_loop-contains h seen [] a = refl
compile_loop-contains h seen (raw ∷ rest) a = elim (Bool-cases (is_empty (term_of raw))) [
  | inl blank ↦
      ground
        (arith, blank, empty_contained h (term_of raw) blank, compile_loop-contains h seen rest a)
  | inr full ↦ elim (Bool-cases (is_in (term_of raw) seen)) [
    | inl old ↦ ground (
      arith,
      full,
      old,
      seen_contained h (term_of raw) seen a old,
      compile_loop-contains h seen rest a,
    )
    | inr new ↦ elim (Bool-cases (contains (term_of raw) h)) [
      | inl hit ↦
          ground (arith, full, new, hit, compile_loop-contains h (term_of raw ∷ seen) rest (hit, a))
      | inr miss ↦ ground (arith, full, new, miss)
    ]
  ]
]

-- The terms of a compiled rule are not empty and do not repeat, and a text contains all of them exactly
-- if it contains every raw term trimmed and in lower case.
pub compile_terms_lem :
    (terms : List Text) (haystack : Text)
    → All (λ t. is_empty t ≡ false) (compile_terms terms)
      × Pairs (λ s t. text_eq s t ≡ false) (compile_terms terms)
      × (contains_all haystack (compile_terms terms) ≡ contains_all haystack (map term_of terms))
unfolding compile_terms
compile_terms_lem terms haystack =
    let new = compiled-new [] terms in
    (nonempty (compile_loop [] terms) new.0, new.1, compile_loop-contains haystack [] terms tt)
  where
    nonempty : (ts : List Text) → All (NewTo []) ts → All (λ t. is_empty t ≡ false) ts
    nonempty [] h = tt
    nonempty (t ∷ ts) h = (h.0.0, nonempty ts h.1)
