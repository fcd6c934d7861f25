-- ===== src/Store/Orders/Settlement.antt =====
-- A payment is delivered once, a refund is given once, and an error changes nothing.
use relay_scope.Base.{
  ℕ, ◌≡◌, inl, inr, false, Option, none, ◌==◌, arith, Bool-cases, Option-cases, select_first,
  count_where, count_where-update_where,
}
use relay_scope.Base.Texts.{Text}
use relay_scope.Store.{
  LdcOrder, Db, ok, OrderKind, wish, membership, other_kind, Result-cases, order_no_is,
}
use relay_scope.Store.Orders.{
  pending_no, pay_row, deliver, settle, pay, mark_order_paid, reach_wish,
}
use relay_scope.Store.Orders.Outcomes.{marked_paid}

pub deliver-orders :
    (k : OrderKind) (o : LdcOrder) (now : ℕ) (db db' : Db)
    → deliver k o now db ≡ ok (tt, db')
    → db'.orders ≡ db.orders
unfolding deliver reach_wish
deliver-orders other_kind o now db db' h = ground arith
deliver-orders wish o now db db' h = ground arith
deliver-orders membership o now db db' h = ground arith

not_pending :
    (number trade_no : Text) (now : ℕ) (o : LdcOrder)
    → pending_no number (pay_row trade_no now o) ≡ false
unfolding pay_row
not_pending number trade_no now o = ground arith

idle_payment :
    (number trade_no : Text) (now : ℕ) (db : Db)
    → count_where (pending_no number) db.orders ≡ 0
    → mark_order_paid number trade_no now db ≡ (db, ok none)
unfolding mark_order_paid pay
idle_payment number trade_no now db h = ground (arith, h)

settle-orders :
    (number : Text) (now : ℕ) (db db' : Db) (o : LdcOrder)
    → settle number now db ≡ ok (o, db')
    → db'.orders ≡ db.orders
unfolding settle
settle-orders number now db db' o h =
    elim (Option-cases (select_first (order_no_is number) db.orders)) [
      | inl missing ↦ absurd (ground (arith, missing))
      | inr (a, e) ↦ elim (Result-cases (deliver a.kind a now db)) [
        | inl (x, failed) ↦ absurd (ground (arith, failed, e))
        | inr (_, db2, run) ↦ deliver-orders a.kind a now db db' (ground (arith, run, e))
      ]
    ]

-- After a payment that returns, whatever it returns, no order of that number is pending.
settled :
    (number trade_no : Text) (now : ℕ) (db db' : Db) (r : Option LdcOrder)
    → mark_order_paid number trade_no now db ≡ (db', ok r)
    → count_where (pending_no number) db'.orders ≡ 0
unfolding mark_order_paid pay
settled number trade_no now db db' r h =
    elim (Bool-cases (count_where (pending_no number) db.orders == 0)) [
      | inl idle ↦ ground (arith, idle)
      | inr due ↦ elim (Result-cases (settle number now (marked_paid number trade_no now db))) [
        | inl (e, failed) ↦ absurd (ground (arith, failed, due))
        | inr (o, db2, run) ↦
            let same : db'.orders ≡ (marked_paid number trade_no now db).orders =
              settle-orders number now (marked_paid number trade_no now db) db' o
                (ground (arith, run, due)) in
            rw same (
              count_where-update_where (pending_no number) (pay_row trade_no now) db.orders
                (not_pending number trade_no now))
      ]
    ]

-- A payment notice that is repeated, with whatever trade number, finds nothing to do: the second call
-- returns no order and leaves the tables as the first one left them.
pub mark_order_paid_once :
    (number first_no second_no : Text) (first second : ℕ) (db db' : Db) (r : Option LdcOrder)
    → mark_order_paid number first_no first db ≡ (db', ok r)
    → mark_order_paid number second_no second db' ≡ (db', ok none)
mark_order_paid_once number first_no second_no first second db db' r h =
    idle_payment number second_no second db' (settled number first_no first db db' r h)
