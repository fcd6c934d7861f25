-- ===== src/Server/Receipts.antt =====
-- The order of a payment notice before and after its payment was marked.
use relay_scope.Base.{
  ℕ, ◌≡◌, ◌∙◌, refl, ap, inl, inr, Option, none, some, false, List, [], ◌∷◌, ◌≢◌, ◌⊎◌, ◌==◌, ==_iff,
  if◌then◌else◌, count_where, Option-cases, arith, Bool-cases, select_first,
  select_first-update_where, select_first-holds,
}
use relay_scope.Base.Texts.{Text, text_eq_sound}
use relay_scope.Store.{is_pending, Db, LdcOrder, Error, ok, err, Result-cases, order_no_is}
use relay_scope.Store.Orders.{
  get_order_by_no, mark_order_paid, pay, pending_no, pay_row, scanned, deliver, settle,
}
use relay_scope.Store.Orders.Outcomes.{marked_paid, paid_outcome}
use relay_scope.Store.Orders.Settlement.{deliver-orders}

pub payment_error :
    (number trade_no : Text) (now : ℕ) (db db' : Db) (e : Error)
    → mark_order_paid number trade_no now db ≡ (db', err e)
    → db' ≡ db
unfolding mark_order_paid
payment_error number trade_no now db db' e h = elim (Result-cases (pay number trade_no now db)) [
  | inl (x, fails) ↦ ground (arith, fails)
  | inr (a, d, run) ↦ absurd (ground (arith, run))
]

read_row :
    (number : Text) (db : Db) (o : LdcOrder)
    → get_order_by_no number db ≡ ok o
    → select_first (order_no_is number) db.orders ≡ some o
unfolding get_order_by_no
read_row number db o h = ground arith

row_read :
    (number : Text) (db : Db) (o : LdcOrder)
    → select_first (order_no_is number) db.orders ≡ some o
    → get_order_by_no number db ≡ ok o
unfolding get_order_by_no
row_read number db o h = ground (arith, h)

-- A row after the payment of its number: a pending order is paid, any other is as it was.
abbrev pub after_payment : Text → ℕ → LdcOrder → LdcOrder
after_payment trade_no now o = if is_pending o.status then pay_row trade_no now o else o

pub row_kept :
    (trade_no : Text) (now : ℕ) (o : LdcOrder)
    → ((after_payment trade_no now o).order_no ≡ o.order_no)
      × ((after_payment trade_no now o).amount_ldc ≡ o.amount_ldc)
unfolding pay_row
row_kept trade_no now o = elim (Bool-cases (is_pending o.status)) [
  | inl due ↦ (ground (arith, due), ground (arith, due))
  | inr idle ↦ (ground (arith, idle), ground (arith, idle))
]

none_pending :
    (number : Text) (rows : List LdcOrder) (o : LdcOrder)
    → count_where (pending_no number) rows ≡ 0
    → select_first (order_no_is number) rows ≡ some o
    → is_pending o.status ≡ false
unfolding count_where select_first
none_pending number [] o h k = cc
none_pending number (r ∷ rows) o h k = ground (arith, none_pending number rows o)

none_paid :
    (number trade_no : Text) (now : ℕ) (db : Db)
    → mark_order_paid number trade_no now db ≡ (db, ok none)
    → count_where (pending_no number) db.orders ≡ 0
unfolding mark_order_paid pay settle
none_paid number trade_no now db h =
    elim (Bool-cases (count_where (pending_no number) db.orders == 0)) [
      | inl idle ↦ (==_iff (count_where (pending_no number) db.orders) 0).0 idle
      | inr due ↦
          elim (Option-cases
            (select_first (order_no_is number) (marked_paid number trade_no now db).orders)) [
              | inl missing ↦ absurd (ground (arith, due, missing, h))
              | inr (o, eo) ↦
                  elim (Result-cases (deliver o.kind o now (marked_paid number trade_no now db))) [
                    | inl (e, failed) ↦ absurd (ground (arith, due, eo, failed, h))
                    | inr (_, db2, run) ↦ absurd (ground (arith, due, eo, run, h))
                  ]
            ]
    ]

pub own_number :
    (number : Text) (db : Db) (o : LdcOrder)
    → get_order_by_no number db ≡ ok o
    → o.order_no ≡ number
own_number number db o h =
    text_eq_sound o.order_no number
      (select_first-holds (order_no_is number) db.orders o (read_row number db o h))

some_paid :
    (number trade_no : Text) (now : ℕ) (db db2 : Db) (o : LdcOrder)
    → count_where (pending_no number) db.orders ≡ 0
    → mark_order_paid number trade_no now db ≢ (db2, ok (some o))
unfolding mark_order_paid pay
some_paid number trade_no now db db2 o idle h =
    let zero = (==_iff (count_where (pending_no number) db.orders) 0).1 idle in
    ground (arith, zero, h)

-- What a payment leaves of its order, and that it changes nothing where no order of its number is pending.
pub order_after :
    (number trade_no : Text) (now : ℕ) (db db' : Db) (o : LdcOrder) (r : Option LdcOrder)
    → get_order_by_no number db ≡ ok o
    → mark_order_paid number trade_no now db ≡ (db', ok r)
    → (get_order_by_no number db' ≡ ok (after_payment trade_no now o))
      × ((count_where (pending_no number) db.orders ≢ 0) ⊎ (db' ≡ db))
unfolding get_order_by_no
order_after number trade_no now db db' o r there h = elim (paid_outcome number trade_no now db) [
  | inl idle ↦
      let found = read_row number db o there in
      let same : db' ≡ db = ground (arith, idle, h) in
      let kept = none_pending number db.orders o (none_paid number trade_no now db idle) found in
      (
        row_read number db' (after_payment trade_no now o)
            (ap (λ d. select_first (order_no_is number) d.orders) same ∙ found ∙ rw kept refl),
        inr same,
      )
  | inr (inl (e, fails)) ↦ absurd (ground (arith, fails, h))
  | inr (inr (x, db2, row, delivered, run)) ↦
      let same = deliver-orders x.kind x now (marked_paid number trade_no now db) db2 delivered in
      let found = read_row number db o there in
      let own = select_first-holds (order_no_is number) db.orders o found in
      let after =
        select_first-update_where (order_no_is number) (pending_no number) (pay_row trade_no now)
          db.orders o (λ y. unfold pay_row in refl) found in
      let end : db' ≡ db2 = ground (arith, run, h) in
      (
        row_read number db' (after_payment trade_no now o) (
            ap (λ d. select_first (order_no_is number) d.orders) end
            ∙ ap (select_first (order_no_is number)) same
            ∙ after
            ∙ rw own refl),
        inl (λ idle.
            some_paid number trade_no now db db2 (pay_row trade_no now (scanned x)) idle run),
      )
]
