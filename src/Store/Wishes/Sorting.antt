-- ===== src/Store/Wishes/Sorting.antt =====
-- Lists by a falling key, as ORDER BY id DESC gives them, and pages of them.
use relay_scope.Base.{
  ℕ, zero, suc, ◌≤◌, inl, inr, Bool, List, [], ◌∷◌, ltb, arith, Bool-cases, All, take, drop,
}
use relay_scope.Store.Wishes.{insert_by, sort_by}

module _ {A : Type 0} (key : A → ℕ) where
  abbrev pub newest : A → A → Bool
  newest a b = ltb (key b) (key a)

  abbrev pub IsFalling : List A → Type 0
  IsFalling [] = Unit
  IsFalling (a ∷ []) = Unit
  IsFalling (a ∷ b ∷ rest) = (key b ≤ key a) × IsFalling (b ∷ rest)

  insert-IsFalling : (a : A) (xs : List A) → IsFalling xs → IsFalling (insert_by newest a xs)
  unfolding insert_by
  insert-IsFalling a [] h = tt
  insert-IsFalling a (b ∷ []) h = elim (Bool-cases (ltb (key a) (key b))) [
    | inl less ↦ rw less (ground (arith, less), tt)
    | inr more ↦ rw more (ground (arith, more), tt)
  ]
  insert-IsFalling a (b ∷ c ∷ rest) h = elim (Bool-cases (ltb (key a) (key b))) [
    | inr more ↦ rw more (ground (arith, more), h)
    | inl less ↦ elim (Bool-cases (ltb (key a) (key c))) [
      | inl behind ↦
          let more = insert-IsFalling a (c ∷ rest) h.1 in
          rw (less, behind) (h.0, (rw behind at more))
      | inr between ↦ rw (less, between) (ground (arith, less), (ground (arith, between), h.1))
    ]
  ]

  pub sort-IsFalling : (xs : List A) → IsFalling (sort_by newest xs)
  unfolding sort_by
  sort-IsFalling [] = tt
  sort-IsFalling (a ∷ rest) = insert-IsFalling a (sort_by newest rest) (sort-IsFalling rest)

  pub take-IsFalling : (n : ℕ) (xs : List A) → IsFalling xs → IsFalling (take n xs)
  take-IsFalling zero xs h = tt
  take-IsFalling (suc n) [] h = tt
  take-IsFalling (suc zero) (a ∷ rest) h = tt
  take-IsFalling (suc (suc n)) (a ∷ []) h = tt
  take-IsFalling (suc (suc n)) (a ∷ b ∷ rest) h = (h.0, take-IsFalling (suc n) (b ∷ rest) h.1)

  pub drop-IsFalling : (n : ℕ) (xs : List A) → IsFalling xs → IsFalling (drop n xs)
  drop-IsFalling zero xs h = h
  drop-IsFalling (suc n) [] h = tt
  drop-IsFalling (suc n) (a ∷ []) h = drop-IsFalling n [] tt
  drop-IsFalling (suc n) (a ∷ b ∷ rest) h = drop-IsFalling n (b ∷ rest) h.1

module _ {A : Type 0} (P : A → Type 0) (before : A → A → Bool) where
  pub All-insert_by : (a : A) (xs : List A) → P a → All P xs → All P (insert_by before a xs)
  unfolding insert_by
  All-insert_by a [] p h = (p, tt)
  All-insert_by a (b ∷ rest) p h = elim (Bool-cases (before b a)) [
    | inl first ↦ rw first (h.0, All-insert_by a rest p h.1)
    | inr last ↦ rw last (p, h)
  ]

  pub All-sort_by : (xs : List A) → All P xs → All P (sort_by before xs)
  unfolding sort_by
  All-sort_by [] h = tt
  All-sort_by (a ∷ rest) h = All-insert_by a (sort_by before rest) h.0 (All-sort_by rest h.1)

  pub All-drop : (n : ℕ) (xs : List A) → All P xs → All P (drop n xs)
  All-drop zero xs h = h
  All-drop (suc n) [] h = tt
  All-drop (suc n) (a ∷ rest) h = All-drop n rest h.1
