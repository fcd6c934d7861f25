-- ===== src/Store/Intervals.antt =====
-- What holds of membership_order_intervals between two calls: each bought interval lies within its
-- user's membership, and two intervals of one user do not overlap.
pub mod Refund
pub mod Links
pub mod Payment
pub mod Edits
pub mod Clip
pub mod Removal
pub mod Calls
pub mod Spending
pub mod Login
pub mod Steps
use relay_scope.Base.{
  ℕ, ◌≤◌, ◌<◌, ◌≡◌, refl, ◌≢◌, ◌⊎◌, inl, inr, Bool, true, false, Option, none, some, List, [], ◌∷◌,
  ◌++◌, ◌==◌, if◌then◌else◌, or_zero, All, Pairs, arith, Bool-cases, select_first, update_where,
  updated, All-select_first, All-mono, subst,
}
use relay_scope.Store.{User, Interval, Db, user_is}
use relay_scope.Store.Orders.{interval_of}

-- The expiry of a user, 0 where none is set.
pub expiry_of : ℕ → List User → ℕ
expiry_of i [] = 0
expiry_of i (u ∷ us) = if user_is i u then or_zero u.membership_expires_at else expiry_of i us

-- Intervals of two orders; those of one user lie one behind the other.
abbrev pub Apart : Interval → Interval → Type 0
Apart a b =
    (a.order_id ≢ b.order_id)
    × (a.user_id ≡ b.user_id → (a.ends_at ≤ b.starts_at) ⊎ (b.ends_at ≤ a.starts_at))

abbrev pub Within : List User → Interval → Type 0
Within us i = (i.starts_at ≤ i.ends_at) × (i.ends_at ≤ expiry_of i.user_id us)

pub record IsSound (db : Db) : Type 0 where
  pub within : All (Within db.users) db.intervals
  pub apart : Pairs Apart db.intervals

pub expiry_of-select :
    (i : ℕ) (us : List User) (u : User)
    → select_first (user_is i) us ≡ some u
    → expiry_of i us ≡ or_zero u.membership_expires_at
unfolding expiry_of select_first
expiry_of-select i [] u h = cc
expiry_of-select i (v ∷ us) u h = ground (arith, expiry_of-select i us u)

pub expiry_of-update :
    (i : ℕ) (f : User → User) (us : List User) (u : User)
    → ((v : User) → (f v).id ≡ v.id)
    → select_first (user_is i) us ≡ some u
    → expiry_of i (update_where (user_is i) f us) ≡ or_zero (f u).membership_expires_at
unfolding expiry_of select_first update_where
expiry_of-update i f [] u keep h = cc
expiry_of-update i f (v ∷ us) u keep h = ground (arith, keep v, expiry_of-update i f us u keep)

pub expiry_of-ne :
    (i j : ℕ) (f : User → User) (us : List User)
    → ((u : User) → (f u).id ≡ u.id)
    → i ≢ j
    → expiry_of j (update_where (user_is i) f us) ≡ expiry_of j us
unfolding expiry_of update_where
expiry_of-ne i j f [] keep ne = refl
expiry_of-ne i j f (u ∷ us) keep ne = ground (arith, keep u, expiry_of-ne i j f us keep ne)

pub expiry_of-grows :
    (i j : ℕ) (f : User → User) (us : List User)
    → ((u : User) → (f u).id ≡ u.id)
    → ((u : User) → or_zero u.membership_expires_at ≤ or_zero (f u).membership_expires_at)
    → expiry_of j us ≤ expiry_of j (update_where (user_is i) f us)
unfolding expiry_of update_where
expiry_of-grows i j f [] keep up = omega arith
expiry_of-grows i j f (u ∷ us) keep up =
    ground (arith, keep u, up u, expiry_of-grows i j f us keep up)

-- A longer membership keeps every interval.
pub Within-mono :
    (us vs : List User) (rows : List Interval)
    → ((j : ℕ) → expiry_of j us ≤ expiry_of j vs)
    → All (Within us) rows
    → All (Within vs) rows
Within-mono us vs [] up a = tt
Within-mono us vs (i ∷ rows) up a =
    ((a.0.0, omega (arith, up i.user_id, a.0.1)), Within-mono us vs rows up a.1)

-- A row next to the interval `r` of the table: `r` itself, or apart from it.
abbrev pub Near : Interval → Interval → Type 0
Near r x =
    ((x.order_id ≡ r.order_id)
      × (x.user_id ≡ r.user_id)
      × (x.starts_at ≡ r.starts_at)
      × (x.ends_at ≡ r.ends_at))
    ⊎ Apart x r

Apart-sym : (a b : Interval) → Apart a b → Apart b a
Apart-sym a b h = ground (arith, h)

first_Near :
    (rows : List Interval) (r x : Interval) → All (Apart x) rows → x ≡ r → All (Near r) (x ∷ rows)
first_Near rows r x a e =
    subst (λ s. All (Near s) (x ∷ rows)) e
      (
        inl (refl, refl, refl, refl),
        All-mono (Apart x) (Near x) rows (λ y h. inr (Apart-sym x y h)) a,
      )

pub Near-All :
    (k : ℕ) (rows : List Interval) (r : Interval)
    → Pairs Apart rows
    → select_first (interval_of k) rows ≡ some r
    → All (Near r) rows
unfolding select_first
Near-All k [] r h e = tt
Near-All k (x ∷ rows) r h e = elim (Bool-cases (interval_of k x)) [
  | inl hit ↦ first_Near rows r x h.0 (ground (arith, hit))
  | inr miss ↦
      let rest : select_first (interval_of k) rows ≡ some r = ground (arith, miss) in
      (inr (All-select_first (Apart x) (interval_of k) rows h.0 rest), Near-All k rows r h.1 rest)
]
