-- ===== src/Store/Intervals/Edits.antt =====
-- Refunds, and edits of an expiry by an administrator, keep the bought intervals sound.
use relay_scope.Base.{
  ℕ, min, ◌≡◌, refl, sym, ◌⊎◌, inl, inr, Bool, Option, none, some, List, ◌==◌, or_zero, arith,
  Bool-cases, Option-cases, select_first, update_where, All-select_first, count_where, subst,
  select_first-holds,
}
use relay_scope.Store.{
  LdcOrder, Interval, Db, Error, no_rows, not_refundable, user_is, ok, err, Result-cases, order_is,
  is_membership,
}
use relay_scope.Store.Orders.{interval_of, reopen_wish}
use relay_scope.Store.Refunds.{
  revoke_order_membership, revoke_intervals, refund, refund_row, withdraw, reopen, paid_id,
  mark_order_refunded, move_interval, close_interval, comes_later, refund_from, refund_until,
  unused_part,
}
use relay_scope.Store.Intervals.Links.{
  IsLedger, Links, Links-update_orders, Links-update_rows, Owned,
}
use relay_scope.Store.Intervals.Refund.{revoked-IsSound}

revoke-Links :
    (o : LdcOrder) (r : Interval) (e now : ℕ) (orders : List LdcOrder) (rows : List Interval)
    → Links orders rows
    → Links orders (revoke_intervals o r e now rows)
unfolding revoke_intervals
revoke-Links o r e now orders rows l =
    Links-update_rows (interval_of o.id) (close_interval (min r.ends_at (refund_from r now))) orders
      _ (λ i. unfold close_interval in refl) (λ i. unfold close_interval in refl)
      (Links-update_rows (comes_later o.user_id o.id (refund_until r e))
        (move_interval (unused_part r e now)) orders rows (λ i. unfold move_interval in refl)
        (λ i. unfold move_interval in refl) l)

revoke-IsLedger :
    (o : LdcOrder) (now : ℕ) (db db' : Db) (q : LdcOrder → Bool)
    → IsLedger db
    → select_first q db.orders ≡ some o
    → revoke_order_membership o now db ≡ ok (tt, db')
    → IsLedger db'
unfolding revoke_order_membership
revoke-IsLedger o now db db' q h eo run =
    elim (Option-cases (select_first (interval_of o.id) db.intervals)) [
      | inl legacy ↦ absurd (ground (arith, legacy))
      | inr (r, e) ↦ elim (Option-cases (select_first (user_is o.user_id) db.users)) [
        | inl missing ↦ absurd (ground (arith, missing, e))
        | inr (u, eu) ↦
            elim (Bool-cases (unused_part r (or_zero u.membership_expires_at) now == 0)) [
              | inl spent ↦ subst IsLedger (ground (arith, spent, eu, e)) h
              | inr left ↦
                  let hit : o.id ≡ r.order_id =
                    ground (arith, select_first-holds (interval_of o.id) db.intervals r e) in
                  let own : o.id ≡ r.order_id → o.user_id ≡ r.user_id =
                    All-select_first (λ x. x.id ≡ r.order_id → x.user_id ≡ r.user_id) q db.orders
                      (All-select_first (Owned db.orders) (interval_of o.id) db.intervals
                        h.links.owned e)
                      eo in
                  subst IsLedger (ground (arith, left, eu, e)) (record {
                    sound =
                        revoked-IsSound o now db r u h.sound e (sym (own hit)) eu
                          (ground (arith, left));
                    links =
                        revoke-Links o r (or_zero u.membership_expires_at) now db.orders
                          db.intervals h.links;
                  })
            ]
      ]
    ]

reopen-IsLedger :
    (site : Option ℕ) (db db' : Db) → IsLedger db → reopen site db ≡ ok (tt, db') → IsLedger db'
unfolding reopen reopen_wish
reopen-IsLedger none db db' h run = subst IsLedger (ground arith) h
reopen-IsLedger (some site) db db' h run =
    subst IsLedger {x = reopen_wish site db} (ground arith) (record {
      sound = record { within = h.sound.within; apart = h.sound.apart };
      links = h.links;
    })

withdraw-IsLedger :
    (o a : LdcOrder) (now : ℕ) (db db' : Db) (q : LdcOrder → Bool)
    → IsLedger db
    → select_first q db.orders ≡ some o
    → withdraw o now db ≡ ok (a, db')
    → IsLedger db'
unfolding withdraw
withdraw-IsLedger o a now db db' q h eo run = elim (Bool-cases (is_membership o.kind)) [
  | inr other ↦ reopen-IsLedger o.wish_site_id db db' h (ground (arith, other))
  | inl bought ↦ elim (Result-cases (revoke_order_membership o now db)) [
    | inl (e, failed) ↦ absurd (ground (arith, failed, bought))
    | inr (_, dbm, revoked) ↦
        reopen-IsLedger o.wish_site_id dbm db' (revoke-IsLedger o now db dbm q h eo revoked)
          (ground (arith, bought, revoked))
  ]
]

abbrev pub marked_refunded : ℕ → Db → Db
marked_refunded id db = record db { orders = update_where (paid_id id) refund_row db.orders }

-- How a refund can end: an error with the tables as they were, or the withdrawal of a paid order.
abbrev pub Withdrawn : ℕ → ℕ → Db → Type 0
Withdrawn id now db =
    (o : LdcOrder) × (a : LdcOrder) × (db2 : Db) × (select_first (order_is id)
        (marked_refunded id db).orders
      ≡ some o)
    × (withdraw o now (marked_refunded id db) ≡ ok (a, db2))
    × (mark_order_refunded id now db ≡ (db2, ok a))

pub refund_outcome :
    (id now : ℕ) (db : Db)
    → ((e : Error) × (mark_order_refunded id now db ≡ (db, err e))) ⊎ Withdrawn id now db
unfolding mark_order_refunded refund
refund_outcome id now db = elim (Bool-cases (count_where (paid_id id) db.orders == 0)) [
  | inl idle ↦ inl (not_refundable, ground (arith, idle))
  | inr due ↦ elim (Option-cases (select_first (order_is id) (marked_refunded id db).orders)) [
    | inl missing ↦ inl (no_rows, ground (arith, due, missing))
    | inr (o, eo) ↦ elim (Result-cases (withdraw o now (marked_refunded id db))) [
      | inl (e, failed) ↦ inl (e, ground (arith, due, eo, failed))
      | inr (a, db2, run) ↦ inr (o, a, db2, eo, run, ground (arith, due, eo, run))
    ]
  ]
]

-- The whole transaction of a refund.
pub refund-IsLedger :
    (id now : ℕ) (db : Db) → IsLedger db → IsLedger (mark_order_refunded id now db).0
refund-IsLedger id now db h = elim (refund_outcome id now db) [
  | inl (e, failed) ↦ rw failed h
  | inr (o, a, db2, eo, run, done) ↦ rw done (
      withdraw-IsLedger o a now (marked_refunded id db) db2 (order_is id)
        (record {
          sound = record { within = h.sound.within; apart = h.sound.apart };
          links =
              Links-update_orders (paid_id id) refund_row (λ x. unfold refund_row in refl)
                (λ x. unfold refund_row in refl) db.orders db.intervals h.links;
        })
        eo run)
]
