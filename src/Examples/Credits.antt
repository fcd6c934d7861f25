-- ===== src/Examples/Credits.antt =====
-- The monthly credit of a member of the shop.
use relay_scope.Base.{
  ◌+◌, ◌≡◌, ◌≤◌, refl, Option, none, select_first, update_where, count_where, exists_where,
  sum_where, next_id,
}
use relay_scope.Base.Texts.{Text, codes}
use relay_scope.Store.{Db}
use relay_scope.Store.Orders.{insert_order, reach_wish, target_met, pledged, wish_exists}
use relay_scope.Store.Credits.{
  pledge_monthly_credit, grant_to_member, grant_credit, current_credit_period, civil_month,
  available_credit, pledge, spend, contribute, debited, debit_row, credit_order,
}
use relay_scope.Store.Credits.Budget.{IsBudgeted}
use relay_scope.Store.Credits.Others.{Run-IsBudgeted}
use relay_scope.Store.Credits.Accounts.{from_credit, pledge_accounts}
use relay_scope.Store.Intervals.Steps.{Step, Run}
use relay_scope.Examples.Shop.{member_shop}

abbrev no_url : Text → Option (Text × Text)
no_url t = none

abbrev pledged_shop : Db
pledged_shop = (pledge_monthly_credit 1 1 (codes "C1") 30 100 1000 member_shop).0

Run-IsBudgeted_example : IsBudgeted pledged_shop.credits
Run-IsBudgeted_example =
    Run-IsBudgeted no_url (record { funded = tt; single = tt })
      (Run.next Run.here (Step.pledge_credit 1 1 (codes "C1") 30 100 1000 member_shop))

pledge_accounts_example :
    (30 ≤ 30)
    × (available_credit 1 (current_credit_period 1000) pledged_shop + 30
        ≡ available_credit 1
            (current_credit_period 1000)
            (grant_to_member 1 (current_credit_period 1000) 100 1000 member_shop))
    × (from_credit pledged_shop.orders ≡ from_credit member_shop.orders + 30)
unfolding pledge_monthly_credit grant_to_member grant_credit current_credit_period civil_month
    pledge spend contribute debited debit_row credit_order insert_order reach_wish target_met
    pledged wish_exists select_first update_where count_where exists_where sum_where next_id
pledge_accounts_example =
    pledge_accounts 1 1 (codes "C1") 30 100 1000 30 member_shop pledged_shop refl
