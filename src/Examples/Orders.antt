-- ===== src/Examples/Orders.antt =====
-- Orders and refunds of the shop.
use relay_scope.Base.{
  ◌≡◌, ◌⊎◌, refl, Option, none, some, [], List, ◌∷◌, select_first, update_where, count_where,
  exists_where, sum_where,
}
use relay_scope.Base.Texts.{Text, codes}
use relay_scope.Store.{
  User, Db, LdcOrder, ok, err, refund_claimed, uncertain, RefundStatus, order_is, user_is,
}
use relay_scope.Store.Orders.{
  mark_order_paid, pay, settle, deliver, insert_interval, extend_buyer, bought_interval, pay_row,
  scanned, reach_wish, reopen_wish, pledged, target_met, target_missed,
}
use relay_scope.Store.Orders.Settlement.{mark_order_paid_once}
use relay_scope.Store.Orders.Progress.{
  overdue, premature, mark_order_paid-reaches, mark_order_refunded-reopens,
}
use relay_scope.Store.Orders.Moves.{order_moves}
use relay_scope.Store.Orders.Statuses.{Advances}
use relay_scope.Store.Refunds.{
  mark_order_refunded, refund, refund_row, withdraw, revoke_order_membership, reopen,
  claim_platform_refund,
}
use relay_scope.Store.Refunds.Balance.{deliver-revoke}
use relay_scope.Store.Refunds.Claims.{RefundCall, after_calls, claim_platform_refund_once}
use relay_scope.Store.Membership.{extend_user}
use relay_scope.Store.Intervals.Links.{IsLedger}
use relay_scope.Store.Intervals.Steps.{Step, Run, Run-IsLedger}
use relay_scope.Examples.Shop.{buyer, membership_order, wish_order, shop}

abbrev no_url : Text → Option (Text × Text)
no_url t = none

shop-IsLedger : IsLedger shop
unfolding exists_where select_first
shop-IsLedger = record {
  sound = record { within = tt; apart = tt };
  links = record { keyed = (((λ e. cc), tt), (tt, tt)); owned = tt; known = tt };
}

abbrev paid_shop : Db
paid_shop = (mark_order_paid (codes "M1") (codes "T1") 1000 shop).0

abbrev refunded_shop : Db
refunded_shop = (mark_order_refunded 1 2000 paid_shop).0

Run-IsLedger_example : IsLedger refunded_shop
Run-IsLedger_example = Run-IsLedger no_url shop-IsLedger (
    Run.next (Run.next Run.here (Step.pay (codes "M1") (codes "T1") 1000 shop))
      (Step.refund 1 2000 paid_shop))

order_moves_example :
    (select_first (order_is 1) paid_shop.orders ≡ none)
    ⊎ ((p : LdcOrder) × (select_first (order_is 1) paid_shop.orders ≡ some p)
        × Advances membership_order p)
order_moves_example =
    order_moves no_url membership_order (Step.pay (codes "M1") (codes "T1") 1000 shop) shop-IsLedger
      (unfold select_first in refl)

abbrev m1_row : LdcOrder
m1_row = pay_row (codes "T1") 1000 (scanned (pay_row (codes "T1") 1000 membership_order))

mark_order_paid_once_example :
    mark_order_paid (codes "M1") (codes "T2") 1500 paid_shop ≡ (paid_shop, ok none)
unfolding mark_order_paid pay settle deliver insert_interval extend_buyer pay_row scanned
    bought_interval extend_user select_first update_where count_where exists_where
mark_order_paid_once_example =
    mark_order_paid_once (codes "M1") (codes "T1") (codes "T2") 1000 1500 shop paid_shop
      (some m1_row) refl

abbrev reached_shop : Db
reached_shop = (mark_order_paid (codes "W1") (codes "T1") 1000 shop).0

abbrev w1_row : LdcOrder
w1_row = pay_row (codes "T1") 1000 (scanned (pay_row (codes "T1") 1000 wish_order))

mark_order_paid-reaches_example : overdue 1 reached_shop ≡ 0
unfolding mark_order_paid pay settle deliver pay_row scanned reach_wish target_met pledged sum_where
    select_first update_where count_where
mark_order_paid-reaches_example =
    mark_order_paid-reaches (codes "W1") (codes "T1") 1000 1 shop reached_shop w1_row refl refl refl

mark_order_refunded-reopens_example : premature 1 (mark_order_refunded 2 2000 reached_shop).0 ≡ 0
unfolding mark_order_paid pay settle deliver pay_row scanned reach_wish target_met pledged sum_where
    select_first update_where count_where mark_order_refunded refund refund_row withdraw reopen
    reopen_wish target_missed
mark_order_refunded-reopens_example =
    mark_order_refunded-reopens 2 2000 1 reached_shop (mark_order_refunded 2 2000 reached_shop).0
      (scanned (refund_row w1_row)) refl refl

abbrev delivered_shop : Db
delivered_shop = record shop {
  users = extend_user 1000 30 buyer ∷ [];
  intervals = bought_interval membership_order 30 1000 buyer ∷ [];
}

deliver-revoke_example :
    (db2 : Db) × (v : User) × (revoke_order_membership membership_order 3000 delivered_shop
      ≡ ok (tt, db2))
    × (select_first (user_is 1) db2.users ≡ some v)
    × (v.membership_expires_at ≡ some 3000)
deliver-revoke_example =
    deliver-revoke membership_order buyer 30 1000 shop delivered_shop refl
      (unfold select_first in refl)
      (unfold deliver insert_interval extend_buyer bought_interval extend_user select_first
          exists_where update_where in
        refl)
      3000

abbrev claimed_shop : Db
claimed_shop = (claim_platform_refund 1 1100 paid_shop).0

-- Another order's refund is refused, and this one's ends in doubt.
abbrev refund_calls : List RefundCall
refund_calls =
    RefundCall.claim 1 1150
    ∷ RefundCall.result 7 RefundStatus.rejected 1160
    ∷ RefundCall.result 1 uncertain 1170
    ∷ []

claim_platform_refund_once_example :
    claim_platform_refund 1 1200 (after_calls refund_calls claimed_shop)
    ≡ (after_calls refund_calls claimed_shop, err refund_claimed)
unfolding mark_order_paid pay settle deliver insert_interval extend_buyer pay_row scanned
    bought_interval extend_user select_first update_where count_where exists_where
    claim_platform_refund
claim_platform_refund_once_example =
    claim_platform_refund_once 1 1100 1200 paid_shop claimed_shop refund_calls refl
      (refl, (refl, (refl, tt)))
