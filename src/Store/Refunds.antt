-- ===== src/Store/Refunds.antt =====
-- internal/store/membership_refunds.go and MarkOrderRefunded of internal/store/ldc_orders.go: what
-- is left of a bought interval is taken back, and a refund by the platform is claimed once.
pub mod Claims
pub mod Balance
use relay_scope.Base.{
  ℕ, ◌+◌, ◌-◌, max, min, Bool, true, false, not, ◌&&◌, ◌||◌, Option, none, some, List, [], ◌∷◌,
  ◌++◌, leb, ◌==◌, if◌then◌else◌, or_zero, select_first, update_where, count_where, exists_where,
}
use relay_scope.Store.{
  User, LdcOrder, Interval, Db, OrderStatus, refunded, RefundStatus, running, uncertain, succeeded,
  other_status, is_paid, is_ldc, is_membership, RefundAttempt, Error, no_rows, not_refundable,
  legacy_refund, refund_claimed, invalid_refund_result, Result, ok, err, Tx, ◌>>=◌, ◌>>◌, pure,
  fail, found, transaction, user_is, order_is,
}
use relay_scope.Store.Orders.{interval_of, reopen_wish, scanned, get_order}

-- Checked before any money moves: only a paid order, and a membership only with its interval.
unfoldable pub validate_order_refund : ℕ → Db → Result (Unit {0})
validate_order_refund id db = elim (select_first (order_is id) db.orders) [
  | none ↦ err no_rows
  | some o ↦
      if not (is_paid o.status)
      then err not_refundable
      else if is_membership o.kind && not (exists_where (interval_of id) db.intervals)
      then err legacy_refund
      else ok tt
]

-- The part of an interval that is neither used at `now` nor clipped from the expiry.
abbrev pub refund_from : Interval → ℕ → ℕ
refund_from i now = max i.starts_at now

abbrev pub refund_until : Interval → ℕ → ℕ
refund_until i expiry = min i.ends_at expiry

abbrev pub unused_part : Interval → ℕ → ℕ → ℕ
unused_part i expiry now = refund_until i expiry - refund_from i now

-- membership_expires_at - remaining, which is NULL where the column is.
unfoldable pub shorten : Option ℕ → ℕ → Option ℕ
shorten none remaining = none
shorten (some t) remaining = some (t - remaining)

unfoldable pub shorten_user : ℕ → ℕ → User → User
unfolding shorten
shorten_user remaining now u = record u {
  membership_expires_at = shorten u.membership_expires_at remaining;
  updated_at = now;
}

-- WHERE user_id = ? AND order_id <> ? AND starts_at >= ?
abbrev pub comes_later : ℕ → ℕ → ℕ → Interval → Bool
comes_later user_id order_id until i =
    i.user_id == user_id && not (i.order_id == order_id) && leb until i.starts_at

unfoldable pub move_interval : ℕ → Interval → Interval
move_interval remaining i = record i {
  starts_at = i.starts_at - remaining;
  ends_at = i.ends_at - remaining;
}

unfoldable pub close_interval : ℕ → Interval → Interval
close_interval end i = record i { ends_at = end }

-- The intervals behind the refunded one move up, and it is closed.
unfoldable pub revoke_intervals : LdcOrder → Interval → ℕ → ℕ → List Interval → List Interval
unfolding move_interval close_interval
revoke_intervals o i expiry now rows =
    update_where (interval_of o.id) (close_interval (min i.ends_at (refund_from i now))) (
      update_where (comes_later o.user_id o.id (refund_until i expiry))
        (move_interval (unused_part i expiry now)) rows)

unfoldable pub revoke_order_membership : LdcOrder → ℕ → Tx (Unit {0})
unfolding shorten_user revoke_intervals
revoke_order_membership o now db = elim (select_first (interval_of o.id) db.intervals) [
  | none ↦ err legacy_refund
  | some i ↦ elim (select_first (user_is o.user_id) db.users) [
    | none ↦ err no_rows
    | some u ↦
        let expiry = or_zero u.membership_expires_at in
        let remaining = unused_part i expiry now in
        if remaining == 0
        then ok (tt, db)
        else ok (
          tt,
          record db {
            users = update_where (user_is o.user_id) (shorten_user remaining now) db.users;
            intervals = revoke_intervals o i expiry now db.intervals;
          },
        )
  ]
]

abbrev pub paid_id : ℕ → LdcOrder → Bool
paid_id id o = order_is id o && is_paid o.status

unfoldable pub refund_row : LdcOrder → LdcOrder
refund_row o = record o { status = refunded }

unfoldable pub reopen : Option ℕ → Tx (Unit {0})
reopen none db = ok (tt, db)
reopen (some wish_id) db = ok (tt, reopen_wish wish_id db)

-- What the refund of an order takes back.
unfoldable pub withdraw : LdcOrder → ℕ → Tx LdcOrder
unfolding revoke_order_membership reopen
withdraw o now = do
  if is_membership o.kind then revoke_order_membership o now else pure tt
  reopen o.wish_site_id
  pure (scanned o)

unfoldable pub refund : ℕ → ℕ → Tx LdcOrder
unfolding withdraw
refund id now db =
    if count_where (paid_id id) db.orders == 0
    then err not_refundable
    else let db' = record db { orders = update_where (paid_id id) refund_row db.orders } in
      elim (select_first (order_is id) db'.orders) [
        | none ↦ err no_rows
        | some o ↦ withdraw o now db'
      ]

unfoldable pub mark_order_refunded : ℕ → ℕ → Db → Db × Result LdcOrder
mark_order_refunded id now = transaction (refund id now)

-- A claim of the platform's refund: the first one, or one after a refusal.
abbrev pub attempt_of : ℕ → RefundAttempt → Bool
attempt_of id a = a.order_id == id

abbrev pub is_rejected : RefundStatus → Bool
is_rejected RefundStatus.rejected = true
is_rejected _ = false

abbrev pub is_running : RefundStatus → Bool
is_running running = true
is_running _ = false

-- WHERE id=? AND status='paid' AND funding='ldc'
abbrev pub platform_refundable : ℕ → LdcOrder → Bool
platform_refundable id o = order_is id o && is_paid o.status && is_ldc o.funding

unfoldable pub claim_row : ℕ → RefundAttempt → RefundAttempt
claim_row now a = record a { status = running; updated_at = now }

unfoldable pub claim_platform_refund : ℕ → ℕ → Db → Db × Result (Unit {0})
claim_platform_refund id now db =
    if exists_where (platform_refundable id) db.orders
    then elim (select_first (attempt_of id) db.attempts) [
      | none ↦ (
        record db {
          attempts =
              db.attempts ++ record { order_id = id; status = running; updated_at = now } ∷ [];
        },
        ok tt,
      )
      | some a ↦
          if is_rejected a.status
          then (
            record db { attempts = update_where (attempt_of id) (claim_row now) db.attempts },
            ok tt,
          )
          else (db, err refund_claimed)
    ]
    else (db, err refund_claimed)

abbrev pub is_refund_result : RefundStatus → Bool
is_refund_result succeeded = true
is_refund_result uncertain = true
is_refund_result RefundStatus.rejected = true
is_refund_result _ = false

abbrev pub running_attempt : ℕ → RefundAttempt → Bool
running_attempt id a = attempt_of id a && is_running a.status

unfoldable pub result_row : RefundStatus → ℕ → RefundAttempt → RefundAttempt
result_row status now a = record a { status = status; updated_at = now }

unfoldable pub record_platform_refund_result : ℕ → RefundStatus → ℕ → Db → Db × Result (Unit {0})
record_platform_refund_result id status now db =
    if is_refund_result status
    then (
      record db {
        attempts = update_where (running_attempt id) (result_row status now) db.attempts;
      },
      ok tt,
    )
    else (db, err invalid_refund_result)
