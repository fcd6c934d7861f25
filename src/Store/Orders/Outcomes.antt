-- ===== src/Store/Orders/Outcomes.antt =====
-- How a payment can end: nothing is pending, an error with the tables as they were, or a delivery.
use relay_scope.Base.{
  ℕ, ◌≡◌, ◌⊎◌, inl, inr, none, some, ◌==◌, arith, Bool-cases, Option-cases, select_first,
  update_where, count_where,
}
use relay_scope.Base.Texts.{Text}
use relay_scope.Store.{LdcOrder, Db, Error, no_rows, ok, err, order_no_is, Result-cases}
use relay_scope.Store.Orders.{pending_no, pay_row, scanned, deliver, settle, pay, mark_order_paid}

-- The orders after the first UPDATE of a payment.
abbrev pub marked_paid : Text → Text → ℕ → Db → Db
marked_paid number trade_no now db = record db {
  orders = update_where (pending_no number) (pay_row trade_no now) db.orders;
}

module _ (number trade_no : Text) (now : ℕ) (db : Db) where
  abbrev pub Delivered : Type 0
  Delivered =
      (o : LdcOrder) × (db2 : Db) × (select_first (order_no_is number)
          (marked_paid number trade_no now db).orders
        ≡ some o)
      × (deliver o.kind o now (marked_paid number trade_no now db) ≡ ok (tt, db2))
      × (mark_order_paid number trade_no now db
          ≡ (db2, ok (some (pay_row trade_no now (scanned o)))))

  abbrev pub Failed : Type 0
  Failed = (e : Error) × (mark_order_paid number trade_no now db ≡ (db, err e))

  pub paid_outcome : (mark_order_paid number trade_no now db ≡ (db, ok none)) ⊎ (Failed ⊎ Delivered)
  unfolding mark_order_paid pay settle
  paid_outcome = elim (Bool-cases (count_where (pending_no number) db.orders == 0)) [
    | inl idle ↦ inl (ground (arith, idle))
    | inr due ↦
        elim (Option-cases
          (select_first (order_no_is number) (marked_paid number trade_no now db).orders)) [
            | inl missing ↦ inr (inl (no_rows, ground (arith, due, missing)))
            | inr (o, eo) ↦
                elim (Result-cases (deliver o.kind o now (marked_paid number trade_no now db))) [
                  | inl (e, failed) ↦ inr (inl (e, ground (arith, due, eo, failed)))
                  | inr (_, db2, run) ↦ inr (inr (o, db2, eo, run, ground (arith, due, eo, run)))
                ]
          ]
  ]
