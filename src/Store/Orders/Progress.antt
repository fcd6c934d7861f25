-- ===== src/Store/Orders/Progress.antt =====
-- A wish is reached when its paid orders meet its target, and open again when a refund undoes that.
use relay_scope.Base.{
  ℕ, ◌≡◌, inl, inr, none, some, ◌&&◌, arith, Bool-cases, count_where, count_where-update_where,
}
use relay_scope.Base.Texts.{Text}
use relay_scope.Store.{
  LdcOrder, Db, ok, wish, wish_is, is_opened, is_reached, opened, reached, Result-cases,
  is_membership,
}
use relay_scope.Store.Orders.{
  deliver, mark_order_paid, reach_wish, reopen_wish, target_met, target_missed, pay_row, scanned,
}
use relay_scope.Store.Orders.Outcomes.{marked_paid, paid_outcome}
use relay_scope.Store.Intervals.Edits.{marked_refunded, refund_outcome}
use relay_scope.Store.Refunds.{withdraw, reopen, revoke_order_membership, mark_order_refunded}

-- The open sites of this id whose target the paid orders meet, which should be reached.
abbrev pub overdue : ℕ → Db → ℕ
overdue id db =
    count_where (λ w. wish_is id w && is_opened w.status && target_met w db.orders) db.wishes

-- The reached sites of this id whose target the paid orders miss, which should be open.
abbrev pub premature : ℕ → Db → ℕ
premature id db =
    count_where (λ w. wish_is id w && is_reached w.status && target_missed w db.orders) db.wishes

reach_wish-overdue : (now id : ℕ) (db : Db) → overdue id (reach_wish now id db) ≡ 0
unfolding reach_wish
reach_wish-overdue now id db =
    count_where-update_where (λ w. wish_is id w && is_opened w.status && target_met w db.orders)
      (λ w. record w { status = reached; resolved_at = some now }) db.wishes (λ w. ground arith)

reopen_wish-premature : (id : ℕ) (db : Db) → premature id (reopen_wish id db) ≡ 0
unfolding reopen_wish
reopen_wish-premature id db =
    count_where-update_where (λ w. wish_is id w && is_reached w.status && target_missed w db.orders)
      (λ w. record w { status = opened; resolved_at = none }) db.wishes (λ w. ground arith)

-- After a payment of a wish order that returns the order, no open site of its wish has a target that
-- the paid orders meet.
pub mark_order_paid-reaches :
    (number trade_no : Text) (now id : ℕ) (db db' : Db) (o : LdcOrder)
    → mark_order_paid number trade_no now db ≡ (db', ok (some o))
    → o.kind ≡ wish
    → o.wish_site_id ≡ some id
    → overdue id db' ≡ 0
mark_order_paid-reaches number trade_no now id db db' o h k site =
    elim (paid_outcome number trade_no now db) [
      | inl same ↦ absurd (ground (arith, same))
      | inr (inl (e, failed)) ↦ absurd (ground (arith, failed))
      | inr (inr (a, db2, eo, run, done)) ↦
          let same : db' ≡ reach_wish now id (marked_paid number trade_no now db) =
            unfold deliver pay_row scanned in ground (arith, done, run) in
          rw same (reach_wish-overdue now id (marked_paid number trade_no now db))
    ]

withdraw-premature :
    (a o : LdcOrder) (now id : ℕ) (db db' : Db)
    → withdraw a now db ≡ ok (o, db')
    → o.wish_site_id ≡ some id
    → premature id db' ≡ 0
unfolding withdraw reopen
withdraw-premature a o now id db db' h site = elim (Bool-cases (is_membership a.kind)) [
  | inl bought ↦ elim (Result-cases (revoke_order_membership a now db)) [
    | inl (e, failed) ↦ absurd (ground (arith, failed, bought))
    | inr (_, dbm, revoked) ↦
        let same : db' ≡ reopen_wish id dbm = unfold scanned in ground (arith, bought, revoked) in
        rw same (reopen_wish-premature id dbm)
  ]
  | inr other ↦
      let same : db' ≡ reopen_wish id db = unfold scanned in ground (arith, other) in
      rw same (reopen_wish-premature id db)
]

-- After a refund that returns an order of a wish, no reached site of that wish has a target that the
-- paid orders miss.
pub mark_order_refunded-reopens :
    (id now site : ℕ) (db db' : Db) (o : LdcOrder)
    → mark_order_refunded id now db ≡ (db', ok o)
    → o.wish_site_id ≡ some site
    → premature site db' ≡ 0
mark_order_refunded-reopens id now site db db' o h e = elim (refund_outcome id now db) [
  | inl (x, failed) ↦ absurd (ground (arith, failed))
  | inr (a, b, db2, ea, run, done) ↦
      withdraw-premature a o now site (marked_refunded id db) db' (ground (arith, run, done)) e
]
