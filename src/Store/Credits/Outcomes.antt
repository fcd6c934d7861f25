-- ===== src/Store/Credits/Outcomes.antt =====
-- How a pledge from credit can succeed: nothing is left to give, or a debit with its order.
use relay_scope.Base.{
  ℕ, ◌-◌, min, ◌≡◌, ◌⊎◌, inl, inr, false, some, ◌==◌, ltb, arith, Bool-cases, Option-cases,
  select_first, or_zero,
}
use relay_scope.Base.Texts.{Text}
use relay_scope.Store.{WishCredit, Db, ok, user_is, wish_is, is_opened}
use relay_scope.Store.Credits.{credit_of, contribute, spend, pledge}

-- The most that the credit allows.
abbrev pub allowance : WishCredit → ℕ → ℕ
allowance c amount = min (c.granted_ldc - c.used_ldc) amount

abbrev pub Contributed : ℕ → ℕ → Text → ℕ → ℕ → ℕ → ℕ → Db → Db → Type 0
Contributed user site number amount period now a db db' =
    (c : WishCredit) × (select_first (credit_of user period) db.credits ≡ some c)
    × ((allowance c amount == 0) ≡ false)
    × (contribute user site number period (allowance c amount) now db ≡ ok (a, db'))

module _ (user site : ℕ) (number : Text) (amount period now a : ℕ) (db db' : Db) where
  spend_outcome :
      spend user site number amount period now db ≡ ok (a, db')
      → ((a ≡ 0) × (db' ≡ db)) ⊎ Contributed user site number amount period now a db db'
  unfolding spend
  spend_outcome run = elim (Option-cases (select_first (credit_of user period) db.credits)) [
    | inl missing ↦ absurd (ground (arith, missing))
    | inr (c, e) ↦ elim (Bool-cases (allowance c amount == 0)) [
      | inl nothing ↦ inl (ground (arith, nothing, e), ground (arith, nothing, e))
      | inr left ↦ inr (c, e, left, ground (arith, left, e))
    ]
  ]

  pub pledge_outcome :
      pledge user site number amount period now db ≡ ok (a, db')
      → ((a ≡ 0) × (db' ≡ db)) ⊎ Contributed user site number amount period now a db db'
  unfolding pledge
  pledge_outcome run = elim (Option-cases (select_first (user_is user) db.users)) [
    | inl missing ↦ absurd (ground (arith, missing))
    | inr (u, eu) ↦ elim (Bool-cases (ltb now (or_zero u.membership_expires_at))) [
      | inr over ↦ inl (ground (arith, over, eu), ground (arith, over, eu))
      | inl member ↦ elim (Option-cases (select_first (wish_is site) db.wishes)) [
        | inl missing ↦ absurd (ground (arith, missing, eu, member))
        | inr (w, ew) ↦ elim (Bool-cases (is_opened w.status)) [
          | inr closed ↦ absurd (ground (arith, closed, ew, eu, member))
          | inl open_ ↦ spend_outcome (ground (arith, open_, ew, eu, member))
        ]
      ]
    ]
  ]
