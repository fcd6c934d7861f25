-- ===== src/Store/Orders.antt =====
-- internal/store/ldc_orders.go: orders are created pending, paid once, refunded or cancelled.
pub mod Outcomes
pub mod Settlement
pub mod Progress
pub mod Others
pub mod Statuses
pub mod Moves
pub mod Listing
use relay_scope.Base.{
  ℕ, ◌+◌, ◌*◌, max, Bool, true, false, not, ◌&&◌, ◌||◌, Option, none, some, List, [], ◌∷◌, ◌++◌,
  ltb, leb, ◌==◌, if◌then◌else◌, or_zero, is_some, take, reverse, select_first, select_where,
  update_where, count_where, sum_where, exists_where, next_id, map,
}
use relay_scope.Base.Texts.{Text, text_eq, codes, is_empty}
use relay_scope.Store.{
  User, LdcOrder, Interval, WishSite, Db, OrderKind, wish, membership, other_kind, OrderStatus,
  paid, pending, refunded, cancelled, ldc, credit, OrderFunding, opened, reached, is_pending,
  is_paid, is_opened, is_reached, Error, no_rows, constraint, nil_deref, invalid_order,
  invalid_wish_order, invalid_membership_order, invalid_order_kind, Result, ok, err, Tx, ◌>>=◌,
  ◌>>◌, pure, fail, found, transaction, day_millis, user_is, order_is, order_no_is, wish_is, opt_is,
}
use relay_scope.Store.Membership.{extended, extend_user}

-- The checks of CreateOrder on the kind, the wish and the days.
unfoldable pub check_kind : OrderKind → Option ℕ → Option ℕ → Option Error
check_kind wish site days =
    if or_zero site == 0 || is_some days then some invalid_wish_order else none
check_kind membership site days =
    if or_zero days == 0 || ltb 3650 (or_zero days) || is_some site
    then some invalid_membership_order
    else none
check_kind other_kind site days = some invalid_order_kind

unfoldable pub check_order : LdcOrder → Option Error
unfolding check_kind
check_order o =
    if o.user_id == 0 || o.amount_ldc == 0 || ltb 1000000 o.amount_ldc
    then some invalid_order
    else check_kind o.kind o.wish_site_id o.days

-- A reference that is NULL is not checked.
unfoldable pub wish_exists : Option ℕ → List WishSite → Bool
wish_exists none ws = true
wish_exists (some i) ws = exists_where (wish_is i) ws

-- INSERT INTO ldc_orders: `order_no` is UNIQUE, user and wish are foreign keys.
unfoldable pub insert_order : LdcOrder → Tx LdcOrder
unfolding wish_exists
insert_order o db =
    if exists_where (order_no_is o.order_no) db.orders
      || not (exists_where (user_is o.user_id) db.users && wish_exists o.wish_site_id db.wishes)
    then err constraint
    else let row = record o { id = next_id (λ x. x.id) db.orders } in
      ok (row, record db { orders = db.orders ++ row ∷ [] })

-- The row that CreateOrder writes: pending, unpaid, with no trade number.
unfoldable pub fresh_order : LdcOrder → ℕ → LdcOrder
fresh_order o now = record o {
  status = pending;
  platform_trade_no = [];
  created_at = now;
  paid_at = none;
}

unfoldable pub create_order : LdcOrder → ℕ → Db → Db × Result LdcOrder
create_order o now db = elim (check_order o) [
  | some e ↦ (db, err e)
  | none ↦
      transaction
        (do
          row ← insert_order (fresh_order o now)
          pure (record o { id = row.id; status = pending; created_at = now }))
        db
]

unfoldable pub get_order : ℕ → Db → Result LdcOrder
get_order id db = elim (select_first (order_is id) db.orders) [ none ↦ err no_rows | some o ↦ ok o ]

unfoldable pub get_order_by_no : Text → Db → Result LdcOrder
get_order_by_no number db = elim (select_first (order_no_is number) db.orders) [
  | none ↦ err no_rows
  | some o ↦ ok o
]

-- WHERE order_no = ? AND status = 'pending'
abbrev pub pending_no : Text → LdcOrder → Bool
pending_no number o = order_no_is number o && is_pending o.status

unfoldable pub pay_row : Text → ℕ → LdcOrder → LdcOrder
pay_row trade_no now o = record o {
  status = paid;
  platform_trade_no = trade_no;
  paid_at = some now;
}

-- SUM(amount_ldc) over the paid orders of a wish.
abbrev pub pledges : ℕ → LdcOrder → Bool
pledges wish_id o = opt_is o.wish_site_id wish_id && is_paid o.status

unfoldable pub pledged : ℕ → List LdcOrder → ℕ
pledged wish_id orders = sum_where (pledges wish_id) (λ o. o.amount_ldc) orders

unfoldable pub target_met : WishSite → List LdcOrder → Bool
target_met w orders = elim w.target_ldc [ none ↦ false | some t ↦ leb t (pledged w.id orders) ]

unfoldable pub target_missed : WishSite → List LdcOrder → Bool
target_missed w orders = elim w.target_ldc [ none ↦ false | some t ↦ ltb (pledged w.id orders) t ]

-- An open wish whose target the paid orders meet is reached.
unfoldable pub reach_wish : ℕ → ℕ → Db → Db
unfolding target_met
reach_wish now wish_id db = record db {
  wishes =
      update_where (λ w. wish_is wish_id w && is_opened w.status && target_met w db.orders)
        (λ w. record w { status = reached; resolved_at = some now }) db.wishes;
}

-- A reached wish whose target they no longer meet is open again.
unfoldable pub reopen_wish : ℕ → Db → Db
unfolding target_missed
reopen_wish wish_id db = record db {
  wishes =
      update_where (λ w. wish_is wish_id w && is_reached w.status && target_missed w db.orders)
        (λ w. record w { status = opened; resolved_at = none }) db.wishes;
}

abbrev pub interval_of : ℕ → Interval → Bool
interval_of order_id i = i.order_id == order_id

unfoldable pub bought_interval : LdcOrder → ℕ → ℕ → User → Interval
bought_interval o days now u = record {
  order_id = o.id;
  user_id = u.id;
  starts_at = max (or_zero u.membership_expires_at) now;
  ends_at = extended u.membership_expires_at now days;
}

-- INSERT INTO membership_order_intervals … SELECT … FROM users: no user, no row.
unfoldable pub insert_interval : LdcOrder → ℕ → ℕ → Tx (Unit {0})
unfolding bought_interval
insert_interval o days now db = elim (select_first (user_is o.user_id) db.users) [
  | none ↦ ok (tt, db)
  | some u ↦
      if exists_where (interval_of o.id) db.intervals
      then err constraint
      else ok (tt, record db { intervals = db.intervals ++ bought_interval o days now u ∷ [] })
]

unfoldable pub extend_buyer : LdcOrder → ℕ → ℕ → Tx (Unit {0})
extend_buyer o days now db =
    ok (tt, record db { users = update_where (user_is o.user_id) (extend_user now days) db.users })

-- The SELECT inside a transaction reads neither the trade number nor the times; an unread time is
-- the zero time.
unfoldable pub scanned : LdcOrder → LdcOrder
scanned o = record o { platform_trade_no = []; created_at = 0; paid_at = none }

-- What a paid order buys, by its kind.
unfoldable pub deliver : OrderKind → LdcOrder → ℕ → Tx (Unit {0})
unfolding insert_interval extend_buyer
deliver membership o now = do
  days ← found o.days nil_deref
  insert_interval o days now
  extend_buyer o days now
deliver wish o now = do
  wish_id ← found o.wish_site_id nil_deref
  (λ db. ok (tt, reach_wish now wish_id db))
deliver other_kind o now = pure tt

unfoldable pub settle : Text → ℕ → Tx LdcOrder
unfolding deliver scanned
settle number now db = elim (select_first (order_no_is number) db.orders) [
  | none ↦ err no_rows
  | some o ↦ (do deliver o.kind o now; pure (scanned o)) db
]

-- `none` is the answer (LDCOrder{}, false): no order of that number is pending.
unfoldable pub pay : Text → Text → ℕ → Tx (Option LdcOrder)
unfolding settle pay_row
pay number trade_no now db =
    if count_where (pending_no number) db.orders == 0
    then ok (none, db)
    else (do o ← settle number now; pure (some (pay_row trade_no now o)))
        (record db { orders = update_where (pending_no number) (pay_row trade_no now) db.orders })

unfoldable pub mark_order_paid : Text → Text → ℕ → Db → Db × Result (Option LdcOrder)
mark_order_paid number trade_no now = transaction (pay number trade_no now)

unfoldable pub cancel_row : LdcOrder → LdcOrder
cancel_row o = record o { status = cancelled }

-- WHERE status = 'pending' AND created_at < cutoff
abbrev pub expired_at : ℕ → LdcOrder → Bool
expired_at cutoff o = is_pending o.status && ltb o.created_at cutoff

unfoldable pub cancel_expired_orders : ℕ → Db → Db × ℕ
cancel_expired_orders cutoff db = (
  record db { orders = update_where (expired_at cutoff) cancel_row db.orders },
  count_where (expired_at cutoff) db.orders,
)

unfoldable pub cancel_order : Text → Db → Db
cancel_order number db = record db {
  orders = update_where (pending_no number) cancel_row db.orders;
}
