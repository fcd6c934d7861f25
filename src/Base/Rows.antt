-- ===== src/Base/Rows.antt =====
-- SQL over a table as a list of rows, oldest first: SELECT, UPDATE, DELETE, COUNT and SUM with a
-- WHERE test, as functions with their laws.
use Prim.Native.Nat.{ℕ, suc, ◌+◌, ◌<◌, max}
use mathlib.Core.Path.{◌≡◌, refl, subst}
use mathlib.Core.Bool.{Bool, true, false, ◌||◌}
use mathlib.Core.Option.{Option, none, some}
use mathlib.Core.Logic.{inl, inr}
use mathlib.Core.List.{List, [], ◌∷◌, ◌++◌}
use native.Mathlib.Omega.{arith}
use relay_scope.Base.Tests.{if◌then◌else◌, Bool-cases, Option-cases, is_some}
use relay_scope.Base.Lists.{All, Pairs}

module _ {ℓ} {A : Type ℓ} where
  unfoldable pub select_first : (A → Bool) → List A → Option A
  select_first p [] = none
  select_first p (x ∷ xs) = if p x then some x else select_first p xs

  unfoldable pub select_where : (A → Bool) → List A → List A
  select_where p [] = []
  select_where p (x ∷ xs) = let rest = select_where p xs in if p x then x ∷ rest else rest

  unfoldable pub update_where : (A → Bool) → (A → A) → List A → List A
  update_where p f [] = []
  update_where p f (x ∷ xs) = (if p x then f x else x) ∷ update_where p f xs

  unfoldable pub count_where : (A → Bool) → List A → ℕ
  count_where p [] = 0
  count_where p (x ∷ xs) = (if p x then 1 else 0) + count_where p xs

  unfoldable pub sum_where : (A → Bool) → (A → ℕ) → List A → ℕ
  sum_where p v [] = 0
  sum_where p v (x ∷ xs) = (if p x then v x else 0) + sum_where p v xs

  unfoldable pub exists_where : (A → Bool) → List A → Bool
  exists_where p xs = is_some (select_first p xs)

  -- `INTEGER PRIMARY KEY`: one more than the greatest key in use.
  unfoldable pub next_id : (A → ℕ) → List A → ℕ
  next_id k [] = 1
  next_id k (x ∷ xs) = max (suc (k x)) (next_id k xs)

  -- What an UPDATE does to one row.
  abbrev pub updated : (A → Bool) → (A → A) → A → A
  updated p f x = if p x then f x else x

  pub update_where-none :
      (p : A → Bool) (f : A → A) (xs : List A) → count_where p xs ≡ 0 → update_where p f xs ≡ xs
  unfolding update_where count_where
  update_where-none p f [] h = refl
  update_where-none p f (x ∷ xs) h = ground (arith, update_where-none p f xs)

  pub count_where-zero :
      (p : A → Bool) (xs : List A) → select_first p xs ≡ none → count_where p xs ≡ 0
  unfolding select_first count_where
  count_where-zero p [] h = refl
  count_where-zero p (x ∷ xs) h = ground (arith, count_where-zero p xs)

  pub select_first-holds :
      (p : A → Bool) (xs : List A) (x : A) → select_first p xs ≡ some x → p x ≡ true
  unfolding select_first
  select_first-holds p [] x h = cc
  select_first-holds p (y ∷ ys) x h = elim (Bool-cases (p y)) [
    | inl e ↦ ground (arith, e)
    | inr e ↦ select_first-holds p ys x (ground (arith, e))
  ]

  pub count_where-pos :
      (p : A → Bool) (xs : List A) (x : A) → select_first p xs ≡ some x → 0 < count_where p xs
  unfolding select_first count_where
  count_where-pos p [] x h = cc
  count_where-pos p (y ∷ ys) x h = ground (arith, count_where-pos p ys x)

  -- An UPDATE that leaves the key alone is seen by a SELECT on the key.
  pub select_first-update_where :
      (q p : A → Bool) (f : A → A) (xs : List A) (x : A)
      → ((y : A) → q (f y) ≡ q y)
      → select_first q xs ≡ some x
      → select_first q (update_where p f xs) ≡ some (updated p f x)
  unfolding select_first update_where
  select_first-update_where q p f [] x keep h = cc
  select_first-update_where q p f (y ∷ ys) x keep h =
      ground (arith, keep y, select_first-update_where q p f ys x keep)

  pub All-select_first {κ} :
      (P : A → Type κ) (q : A → Bool) (xs : List A) {x : A}
      → All P xs
      → select_first q xs ≡ some x
      → P x
  unfolding select_first
  All-select_first P q [] a h = cc
  All-select_first P q (y ∷ ys) a h = elim (Bool-cases (q y)) [
    | inl e ↦ subst P (ground (arith, e)) a.0
    | inr e ↦ All-select_first P q ys a.1 (ground (arith, e))
  ]

  pub All-update_where {κ μ} :
      (P : A → Type κ) (Q : A → Type μ) (p : A → Bool) (f : A → A) (xs : List A)
      → ((x : A) → P x → Q (updated p f x))
      → All P xs
      → All Q (update_where p f xs)
  unfolding update_where
  All-update_where P Q p f [] g a = tt
  All-update_where P Q p f (x ∷ xs) g a = (g x a.0, All-update_where P Q p f xs g a.1)

  pub next_id_above : (k : A → ℕ) (xs : List A) → All (λ x. k x < next_id k xs) xs
  unfolding next_id
  next_id_above k [] = tt
  next_id_above k (x ∷ xs) = (omega arith, weaken xs (next_id_above k xs))
    where
      weaken :
          (ys : List A)
          → All (λ y. k y < next_id k xs) ys
          → All (λ y. k y < max (suc (k x)) (next_id k xs)) ys
      weaken [] h = tt
      weaken (y ∷ ys) h = (omega arith, weaken ys h.1)

  pub count_where-update_where :
      (p : A → Bool) (f : A → A) (xs : List A)
      → ((x : A) → p (f x) ≡ false)
      → count_where p (update_where p f xs) ≡ 0
  unfolding count_where update_where
  count_where-update_where p f [] h = refl
  count_where-update_where p f (x ∷ xs) h = ground (arith, h x, count_where-update_where p f xs h)

  -- An UPDATE of rows that a SELECT does not look at.
  pub select_first-update_ne :
      (q p : A → Bool) (f : A → A) (xs : List A)
      → ((y : A) → q (f y) ≡ q y)
      → ((y : A) → q y ≡ true → p y ≡ false)
      → select_first q (update_where p f xs) ≡ select_first q xs
  unfolding select_first update_where
  select_first-update_ne q p f [] keep other = refl
  select_first-update_ne q p f (y ∷ ys) keep other =
      ground (arith, keep y, other y, select_first-update_ne q p f ys keep other)

  -- Two updates of a table are one of each row.
  pub update_where-fuse :
      (p q : A → Bool) (f g : A → A) (xs : List A)
      → update_where q g (update_where p f xs)
        ≡ update_where (λ x. true) (λ x. updated q g (updated p f x)) xs
  unfolding update_where
  update_where-fuse p q f g [] = refl
  update_where-fuse p q f g (x ∷ xs) = cc (update_where-fuse p q f g xs)

  pub Pairs-update_where {κ μ ν} :
      (R : A → A → Type κ) (P : A → Type μ) (S : A → A → Type ν) (p : A → Bool) (f : A → A)
      (xs : List A)
      → ((x y : A) → R x y → P x → P y → S (updated p f x) (updated p f y))
      → Pairs R xs
      → All P xs
      → Pairs S (update_where p f xs)
  unfolding update_where
  Pairs-update_where R P S p f [] step h a = tt
  Pairs-update_where R P S p f (x ∷ xs) step h a =
      (row xs h.0 a.1, Pairs-update_where R P S p f xs step h.1 a.1)
    where
      row : (ys : List A) → All (R x) ys → All P ys → All (S (updated p f x)) (update_where p f ys)
      row [] k b = tt
      row (y ∷ ys) k b = (step x y k.0 a.0 b.0, row ys k.1 b.1)

  pub exists_where-append :
      (p : A → Bool) (xs ys : List A)
      → exists_where p (xs ++ ys) ≡ (exists_where p xs || exists_where p ys)
  unfolding exists_where select_first
  exists_where-append p [] ys = refl
  exists_where-append p (x ∷ xs) ys = ground (arith, exists_where-append p xs ys)

  pub All-select_where {κ} :
      (P : A → Type κ) (q : A → Bool) (xs : List A) → All P xs → All P (select_where q xs)
  unfolding select_where
  All-select_where P q [] h = tt
  All-select_where P q (x ∷ xs) h = elim (Bool-cases (q x)) [
    | inl kept ↦ rw kept (h.0, All-select_where P q xs h.1)
    | inr gone ↦ rw gone (All-select_where P q xs h.1)
  ]

  pub Pairs-select_where {κ} :
      (R : A → A → Type κ) (q : A → Bool) (xs : List A) → Pairs R xs → Pairs R (select_where q xs)
  unfolding select_where
  Pairs-select_where R q [] h = tt
  Pairs-select_where R q (x ∷ xs) h = elim (Bool-cases (q x)) [
    | inl kept ↦ rw kept (All-select_where (R x) q xs h.0, Pairs-select_where R q xs h.1)
    | inr gone ↦ rw gone (Pairs-select_where R q xs h.1)
  ]

  -- The rows that a SELECT gives satisfy its test.
  pub select_where-holds : (q : A → Bool) (xs : List A) → All (λ x. q x ≡ true) (select_where q xs)
  unfolding select_where
  select_where-holds q [] = tt
  select_where-holds q (x ∷ xs) = elim (Bool-cases (q x)) [
    | inl kept ↦ rw kept (kept, select_where-holds q xs)
    | inr gone ↦ rw gone (select_where-holds q xs)
  ]

  -- A row that a SELECT finds is found in front of rows that were added.
  pub select_first-append :
      (p : A → Bool) (xs ys : List A) (x : A)
      → select_first p xs ≡ some x
      → select_first p (xs ++ ys) ≡ some x
  unfolding select_first
  select_first-append p [] ys x h = cc
  select_first-append p (z ∷ xs) ys x h = ground (arith, select_first-append p xs ys x)

  pub All-unselected :
      (p : A → Bool) (xs : List A) → select_first p xs ≡ none → All (λ x. p x ≡ false) xs
  unfolding select_first
  All-unselected p [] h = tt
  All-unselected p (x ∷ xs) h = elim (Bool-cases (p x)) [
    | inl e ↦ absurd (ground (arith, e))
    | inr e ↦ (e, All-unselected p xs (ground (arith, e)))
  ]

  pub All-nonexistent :
      (p : A → Bool) (xs : List A) → exists_where p xs ≡ false → All (λ x. p x ≡ false) xs
  unfolding exists_where
  All-nonexistent p xs h = elim (Option-cases (select_first p xs)) [
    | inl e ↦ All-unselected p xs e
    | inr (x, e) ↦ absurd (cc (e, h))
  ]
