-- ===== src/Store/Credits/Accounts.antt =====
-- What a pledge takes from the credit is what its order records.
use relay_scope.Base.{
  ℕ, ◌+◌, ◌-◌, ◌≤◌, ◌≡◌, refl, inl, inr, false, not, some, List, [], ◌∷◌, ◌++◌, arith, Bool-cases,
  select_first, sum_where, select_first-update_where, select_first-holds, next_id,
}
use relay_scope.Base.Texts.{Text}
use relay_scope.Store.{WishCredit, LdcOrder, Db, ok, Result-cases, is_ldc}
use relay_scope.Store.Orders.{insert_order, reach_wish}
use relay_scope.Store.Credits.{
  credit_of, contribute, debited, debit_row, pledge, pledge_monthly_credit, bad_pledge,
  current_credit_period, grant_to_member, available_credit, credit_order,
}
use relay_scope.Store.Credits.Outcomes.{allowance, pledge_outcome}

-- The sum of the orders that were paid from credit.
abbrev pub from_credit : List LdcOrder → ℕ
from_credit orders = sum_where (λ o. not (is_ldc o.funding)) (λ o. o.amount_ldc) orders

from_credit-append :
    (o : LdcOrder) (orders : List LdcOrder)
    → is_ldc o.funding ≡ false
    → from_credit (orders ++ o ∷ []) ≡ from_credit orders + o.amount_ldc
unfolding sum_where
from_credit-append o [] h = ground (arith, h)
from_credit-append o (x ∷ orders) h = ground (arith, from_credit-append o orders h)

contribute-orders :
    (user site : ℕ) (number : Text) (period n now a : ℕ) (db db' : Db)
    → contribute user site number period n now db ≡ ok (a, db')
    → (a ≡ n)
      × (from_credit db'.orders ≡ from_credit db.orders + n)
      × (db'.credits ≡ (debited user period n db).credits)
unfolding contribute reach_wish
contribute-orders user site number period n now a db db' h =
    let o = credit_order user site number n now in
    let start = debited user period n db in
    elim (Result-cases (insert_order o start)) [
      | inl (e, failed) ↦ absurd (ground (arith, failed))
      | inr (x, db2, run) ↦
          let e : db2 ≡ record start {
            orders = start.orders ++ record o { id = next_id (λ y. y.id) start.orders } ∷ [];
          } =
            unfold insert_order in ground (arith, run) in
          let sum =
            from_credit-append (record o { id = next_id (λ y. y.id) start.orders }) start.orders
              (unfold credit_order in refl) in
          (
            ground (arith, run),
            unfold debited credit_order in ground (arith, run, e, sum),
            ground (arith, run, e),
          )
    ]

debited-available :
    (user period n : ℕ) (c : WishCredit) (db : Db)
    → select_first (credit_of user period) db.credits ≡ some c
    → n ≤ c.granted_ldc - c.used_ldc
    → (rows : Db) → rows.credits ≡ (debited user period n db).credits
    → available_credit user period rows + n ≡ available_credit user period db
unfolding debited debit_row available_credit
debited-available user period n c db e le rows same =
    let kept =
      select_first-update_where (credit_of user period) (credit_of user period) (debit_row n)
        db.credits c (λ x. refl) e in
    let hit = select_first-holds (credit_of user period) db.credits c e in
    ground (arith, kept, hit, e, le, same)

-- A pledge that succeeds gives at most the amount that was asked for; the user's credit of the month,
-- after the month's grant, falls by what was given, and the orders paid from credit grow by the same.
pub pledge_accounts :
    (user site : ℕ) (number : Text) (amount grant now a : ℕ) (db db' : Db)
    → pledge_monthly_credit user site number amount grant now db ≡ (db', ok a)
    → (a ≤ amount)
      × (available_credit user (current_credit_period now) db' + a
          ≡ available_credit user
              (current_credit_period now)
              (grant_to_member user (current_credit_period now) grant now db))
      × (from_credit db'.orders ≡ from_credit db.orders + a)
unfolding pledge_monthly_credit
pledge_accounts user site number amount grant now a db db' h =
    elim (Bool-cases (bad_pledge user site number amount grant)) [
      | inl bad ↦ absurd (ground (arith, bad))
      | inr good ↦
          let period = current_credit_period now in
          let start = grant_to_member user period grant now db in
          let kept : start.orders ≡ db.orders = unfold grant_to_member in ground arith in
          elim (Result-cases (pledge user site number amount period now start)) [
            | inl (e, failed) ↦ absurd (ground (arith, good, failed))
            | inr (b, db2, run) ↦
                elim (pledge_outcome user site number amount period now a start db'
                  (ground (arith, good, run))) [
                    | inl (zero_given, same) ↦ (
                      omega (arith, zero_given),
                      ground (arith, zero_given, same),
                      ground (arith, zero_given, same, kept),
                    )
                    | inr (c, e, left, given) ↦
                        let n = allowance c amount in
                        let (an, sum, debit) =
                          contribute-orders user site number period n now a start db' given in
                        let money =
                          debited-available user period n c start e (omega arith) db' debit in
                        (
                          ground (arith, an),
                          ground (arith, an, money),
                          ground (arith, an, sum, kept),
                        )
                  ]
          ]
    ]
