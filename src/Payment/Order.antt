-- ===== src/Payment/Order.antt =====
-- The order of texts, and lists that are sorted in it.
use relay_scope.Base.{
  ◌≡◌, ◌∙◌, refl, sym, ap, subst, inl, inr, Bool, true, false, ◌||◌, List, [], ◌∷◌, arith,
  Bool-cases, All, Pairs,
}
use relay_scope.Base.Texts.{Text, text_lt, text_eq, text_eq_refl, text_eq_iff}
use relay_scope.Store.Wishes.{insert_by, sort_by}
use relay_scope.Store.Wishes.Sorting.{All-insert_by}

text_lt_irrefl : (s : Text) → text_lt s s ≡ false
unfolding text_lt
text_lt_irrefl [] = refl
text_lt_irrefl (a ∷ s) = ground (arith, text_lt_irrefl s)

text_lt_trans : (s t u : Text) → text_lt s t ≡ true → text_lt t u ≡ true → text_lt s u ≡ true
unfolding text_lt
text_lt_trans [] [] u h k = cc
text_lt_trans (a ∷ s) [] u h k = cc
text_lt_trans [] (b ∷ t) [] h k = cc
text_lt_trans (a ∷ s) (b ∷ t) [] h k = cc
text_lt_trans [] (b ∷ t) (c ∷ u) h k = refl
text_lt_trans (a ∷ s) (b ∷ t) (c ∷ u) h k = ground (arith, text_lt_trans s t u)

text_lt_total : (s t : Text) → text_lt s t ≡ false → text_eq s t ≡ false → text_lt t s ≡ true
unfolding text_lt
text_lt_total [] [] h k = cc
text_lt_total (a ∷ s) [] h k = refl
text_lt_total [] (b ∷ t) h k = cc
text_lt_total (a ∷ s) (b ∷ t) h k = ground (arith, text_lt_total s t)

abbrev pub is_listed : Text → List Text → Bool
is_listed x [] = false
is_listed x (y ∷ ys) = text_eq y x || is_listed x ys

abbrev pub Before : Text → Text → Type 0
Before s t = text_lt s t ≡ true

abbrev pub IsSorted : List Text → Type 0
IsSorted xs = Pairs Before xs

listed_self : (x : Text) (xs : List Text) → is_listed x (x ∷ xs) ≡ true
listed_self x xs = ground (arith, text_eq_refl x)

listed_after :
    (x z : Text) (xs : List Text) → All (Before x) xs → is_listed z xs ≡ true → text_lt x z ≡ true
listed_after x z [] h k = cc
listed_after x z (y ∷ ys) h k = elim (Bool-cases (text_eq y z)) [
  | inl hit ↦ subst (λ t. text_lt x t ≡ true) ((text_eq_iff y z).0 hit) h.0
  | inr miss ↦ listed_after x z ys h.1 (ground (arith, miss))
]

not_listed : (x : Text) (xs : List Text) → All (Before x) xs → is_listed x xs ≡ false
not_listed x xs h = elim (Bool-cases (is_listed x xs)) [
  | inl t ↦ absurd (cc (listed_after x x xs h t, text_lt_irrefl x))
  | inr f ↦ f
]

-- The first of two sorted lists with the same texts.
heads_eq :
    (x y : Text) (xs ys : List Text)
    → All (Before x) xs
    → All (Before y) ys
    → is_listed x (y ∷ ys) ≡ true
    → is_listed y (x ∷ xs) ≡ true
    → text_eq x y ≡ true
heads_eq x y xs ys hx hy k l = elim (Bool-cases (text_eq x y)) [
  | inl same ↦ same
  | inr ne ↦
      let ne' = other x y ne in
      let less = listed_after x y xs hx (ground (arith, ne)) in
      let more = listed_after y x ys hy (ground (arith, ne')) in
      absurd (cc (text_lt_trans x y x less more, text_lt_irrefl x))
]
  where
    other : (s t : Text) → text_eq s t ≡ false → text_eq t s ≡ false
    other s t ne = elim (Bool-cases (text_eq t s)) [
      | inl hit ↦ absurd (cc ((text_eq_iff s t).1 (sym ((text_eq_iff t s).0 hit)), ne))
      | inr miss ↦ miss
    ]

tails_eq :
    (x : Text) (xs ys : List Text) (z : Text)
    → All (Before x) xs
    → All (Before x) ys
    → is_listed z (x ∷ xs) ≡ is_listed z (x ∷ ys)
    → is_listed z xs ≡ is_listed z ys
tails_eq x xs ys z hx hy same = elim (Bool-cases (text_eq x z)) [
  | inl hit ↦
      let e = (text_eq_iff x z).0 hit in
      subst (λ t. is_listed t xs ≡ is_listed t ys) e (not_listed x xs hx ∙ sym (not_listed x ys hy))
  | inr miss ↦ ground (arith, miss, same)
]

-- Sorted lists with the same texts are equal.
pub sorted_unique :
    (xs ys : List Text)
    → IsSorted xs
    → IsSorted ys
    → ((z : Text) → is_listed z xs ≡ is_listed z ys)
    → xs ≡ ys
sorted_unique [] [] s t same = refl
sorted_unique [] (y ∷ ys) s t same = absurd (cc (same y, listed_self y ys))
sorted_unique (x ∷ xs) [] s t same = absurd (cc (same x, listed_self x xs))
sorted_unique (x ∷ xs) (y ∷ ys) s t same =
    let e =
      (text_eq_iff x y).0 (
        heads_eq x y xs ys s.0 t.0 (sym (same x) ∙ listed_self x xs) (same y ∙ listed_self y ys)) in
    let t' = subst (λ u. All (Before u) ys) (sym e) t.0 in
    let same' =
      subst (λ u. (z : Text) → is_listed z (x ∷ xs) ≡ is_listed z (u ∷ ys)) (sym e) same in
    cc (e, sorted_unique xs ys s.1 t.1 (λ z. tails_eq x xs ys z s.0 t' (same' z)))

listed-insert :
    (z a : Text) (xs : List Text)
    → is_listed z (insert_by text_lt a xs) ≡ (text_eq a z || is_listed z xs)
unfolding insert_by
listed-insert z a [] = refl
listed-insert z a (x ∷ xs) = elim (Bool-cases (text_lt x a)) [
  | inl first ↦ rw first (ground (arith, listed-insert z a xs))
  | inr last ↦ rw last refl
]

pub listed-sort : (z : Text) (xs : List Text) → is_listed z (sort_by text_lt xs) ≡ is_listed z xs
unfolding sort_by
listed-sort z [] = refl
listed-sort z (x ∷ xs) =
    listed-insert z x (sort_by text_lt xs) ∙ ap (λ b. text_eq x z || b) (listed-sort z xs)

Before-all :
    (a b : Text) (xs : List Text) → text_lt a b ≡ true → All (Before b) xs → All (Before a) xs
Before-all a b [] lt h = tt
Before-all a b (x ∷ xs) lt h = (text_lt_trans a b x lt h.0, Before-all a b xs lt h.1)

insert-IsSorted :
    (a : Text) (xs : List Text)
    → is_listed a xs ≡ false
    → IsSorted xs
    → IsSorted (insert_by text_lt a xs)
unfolding insert_by
insert-IsSorted a [] new s = (tt, tt)
insert-IsSorted a (x ∷ xs) new s = elim (Bool-cases (text_lt x a)) [
  | inl first ↦ rw first (
    All-insert_by (Before x) text_lt a xs first s.0,
    insert-IsSorted a xs (ground (arith, new)) s.1,
  )
  | inr last ↦
      let lt = text_lt_total x a last (ground (arith, new)) in
      rw last ((lt, Before-all a x xs lt s.0), s)
]

-- No text is in the list twice.
abbrev pub IsDistinct : List Text → Type 0
IsDistinct [] = Unit
IsDistinct (x ∷ xs) = (is_listed x xs ≡ false) × IsDistinct xs

pub sort-IsSorted : (xs : List Text) → IsDistinct xs → IsSorted (sort_by text_lt xs)
unfolding sort_by
sort-IsSorted [] d = tt
sort-IsSorted (x ∷ xs) d =
    insert-IsSorted x (sort_by text_lt xs) (listed-sort x xs ∙ d.0) (sort-IsSorted xs d.1)
