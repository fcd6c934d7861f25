-- ===== src/Server/Notices.antt =====
-- What a payment notice can do.
use relay_scope.Base.{
  ℕ, ◌≡◌, ◌⊎◌, ◌∙◌, refl, sym, ap, subst, inl, inr, Bool, true, false, Option, none, some, ◌==◌,
  ◌≢◌, count_where, ==_iff, arith, Bool-cases, Option-cases,
}
use relay_scope.Base.Texts.{Text, codes}
use relay_scope.Store.{Db, LdcOrder, ok, ok-cases}
use relay_scope.Store.Orders.{get_order_by_no, mark_order_paid, pending_no}
use relay_scope.Store.Orders.Settlement.{mark_order_paid_once}
use relay_scope.Payment.{
  Provider, Params, Status, waiting, paid, failed, Answer, answer, failure, PaymentError,
}
use relay_scope.Payment.Epay.{get}
use relay_scope.Server.{Reply, rejected, success, money_to_ldc}
use relay_scope.Server.Receipts.{payment_error, own_number, order_after, after_payment, row_kept}
use relay_scope.Server.Orders.{settle_notice, notify}

abbrev pub is_success : Reply → Bool
is_success success = true
is_success _ = false

pub Answer-cases :
    {A : Type 0} (a : Answer A)
    → ((e : PaymentError) × (a ≡ failure e)) ⊎ ((x : A) × (a ≡ answer x))
Answer-cases (failure e) = inl (e, refl)
Answer-cases (answer x) = inr (x, refl)

-- The order of a notice was in the table with the amount of the notice, and the payment was handed to the shop: the order
-- is paid now with the notice's trade number if it was pending, and as it was if not. The tables change only if some
-- order of that number was pending.
abbrev pub IsPaidFor : Text → Option ℕ → Text → ℕ → Db → Db → Type 0
IsPaidFor ref money trade_no now db db' =
    (o : LdcOrder) × (r : Option LdcOrder) × (get_order_by_no ref db ≡ ok o)
    × (money ≡ some o.amount_ldc)
    × (mark_order_paid ref trade_no now db ≡ (db', ok r))
    × (get_order_by_no ref db' ≡ ok (after_payment trade_no now o))
    × ((count_where (pending_no ref) db.orders ≢ 0) ⊎ (db' ≡ db))

abbrev pub Outcome : Type 0 → Db → Db × Reply → Type 0
Outcome P db x = ((is_success x.1 ≡ true) × P) ⊎ ((is_success x.1 ≡ false) × (x.0 ≡ db))

refused :
    (P : Type 0) (db : Db) (code : ℕ) (x : Db × Reply) → x ≡ (db, rejected code) → Outcome P db x
refused P db code x e = inr (ap (λ y. is_success y.1) e, ap (λ y. y.0) e)

module _ (provider : Provider) where
  settle_lem :
      (ref : Text) (money : Option ℕ) (trade_no : Text) (now : ℕ) (db : Db)
      → Outcome
          (IsPaidFor ref money trade_no now db (settle_notice provider ref money trade_no now db).0)
          db
          (settle_notice provider ref money trade_no now db)
  unfolding settle_notice
  settle_lem ref money trade_no now db =
      let result = settle_notice provider ref money trade_no now db in
      let Paid = IsPaidFor ref money trade_no now db result.0 in
      elim (ok-cases (get_order_by_no ref db)) [
        | inl (e, missing) ↦ refused Paid db 400 result (ground (arith, missing))
        | inr (o, there) ↦ elim (Option-cases money) [
          | inl unreadable ↦ refused Paid db 400 result (ground (arith, there, unreadable))
          | inr (amount, read) ↦ elim (Bool-cases (amount == o.amount_ldc)) [
            | inr differs ↦ refused Paid db 400 result (ground (arith, there, read, differs))
            | inl same ↦ elim (ok-cases (mark_order_paid o.order_no trade_no now db).1) [
              | inl (e, fails) ↦
                  let back =
                    payment_error o.order_no trade_no now db
                      (mark_order_paid o.order_no trade_no now db).0 e (ground (arith, fails)) in
                  refused Paid db 500 result (ground (arith, there, read, same, fails, back))
              | inr (r, works) ↦
                  let amounts : amount ≡ o.amount_ldc = (==_iff amount o.amount_ldc).0 same in
                  let marked : mark_order_paid o.order_no trade_no now db ≡ (result.0, ok r) =
                    ground (arith, there, read, same, works) in
                  let number = own_number ref db o there in
                  let first : mark_order_paid ref trade_no now db ≡ (result.0, ok r) =
                    subst (λ n. mark_order_paid n trade_no now db ≡ (result.0, ok r)) number
                      marked in
                  let after = order_after ref trade_no now db result.0 o r there first in
                  inl (
                    ground (arith, there, read, same, works),
                    (o, r, there, read ∙ ap some amounts, first, after.0, after.1),
                  )
            ]
          ]
        ]
      ]

  module _ {F : Type 0} (parse : Text → Option F) (is_negative : F → Bool) (rounded : F → ℕ) where
    abbrev pub notified_amount : Params → Option ℕ
    notified_amount params = money_to_ldc parse is_negative rounded (get (codes "money") params)

    -- The platform accepted the notice of `ref` as paid, and its order was paid for.
    abbrev pub IsAccepted : Params → ℕ → Db → Db → Type 0
    IsAccepted params now db db' =
        (ref : Text) × (provider.parse_callback params ≡ answer (ref, paid))
        × IsPaidFor ref (notified_amount params) (get (codes "trade_no") params) now db db'

    accepted :
        (params : Params) (now : ℕ) (db : Db) (ref : Text)
        → provider.parse_callback params ≡ answer (ref, paid)
        → (x : Db × Reply)
        → x
          ≡ settle_notice provider ref
              (notified_amount params)
              (get (codes "trade_no") params)
              now
              db
        → Outcome (IsAccepted params now db x.0) db x
    accepted params now db ref callback x e =
        elim (settle_lem ref (notified_amount params) (get (codes "trade_no") params) now db) [
          | inl (good, bought) ↦ inl (
            ap (λ y. is_success y.1) e ∙ good,
            (
              ref,
              callback,
              subst (IsPaidFor ref (notified_amount params) (get (codes "trade_no") params) now db)
                  (sym (ap (λ y. y.0) e)) bought,
            ),
          )
          | inr (bad, same) ↦ inr (ap (λ y. is_success y.1) e ∙ bad, ap (λ y. y.0) e ∙ same)
        ]

    -- A notice is answered with success only if the platform's callback is accepted as paid for an order that is in the
    -- table, and the amount is the order's. Then the order is paid now with the notice's trade number if it was pending,
    -- and it is left as it is if not; and the tables change only if an order of that number was pending. A notice with any
    -- other answer changes nothing.
    pub notify_lem :
        (params : Params) (now : ℕ) (db : Db)
        → Outcome
            (IsAccepted params now db (notify provider parse is_negative rounded params now db).0)
            db
            (notify provider parse is_negative rounded params now db)
    unfolding notify
    notify_lem params now db =
        let result = notify provider parse is_negative rounded params now db in
        let P = IsAccepted params now db result.0 in
        elim (Bool-cases provider.configured) [
          | inr closed ↦ refused P db 501 result (ground (arith, closed))
          | inl configured ↦ elim (Answer-cases (provider.parse_callback params)) [
            | inl (e, invalid) ↦ refused P db 400 result (ground (arith, configured, invalid))
            | inr ((ref, status), valid) ↦ by_status params now db configured ref status valid
          ]
        ]
      where
        by_status :
            (params : Params) (now : ℕ) (db : Db)
            → provider.configured ≡ true
            → (ref : Text) (status : Status) → provider.parse_callback params ≡ answer (ref, status)
            → Outcome
                (IsAccepted params now db
                  (notify provider parse is_negative rounded params now db).0)
                db
                (notify provider parse is_negative rounded params now db)
        by_status params now db configured ref waiting valid =
            refused
              (IsAccepted params now db (notify provider parse is_negative rounded params now db).0)
              db 400 (notify provider parse is_negative rounded params now db)
              (ground (arith, configured, valid))
        by_status params now db configured ref failed valid =
            refused
              (IsAccepted params now db (notify provider parse is_negative rounded params now db).0)
              db 400 (notify provider parse is_negative rounded params now db)
              (ground (arith, configured, valid))
        by_status params now db configured ref paid valid =
            accepted params now db ref valid
              (notify provider parse is_negative rounded params now db)
              (ground (arith, configured, valid))

    settled_again :
        (ref : Text) (amount : ℕ) (trade_no : Text) (later : ℕ) (db' : Db) (o' : LdcOrder)
        → get_order_by_no ref db' ≡ ok o'
        → o'.amount_ldc ≡ amount
        → mark_order_paid o'.order_no trade_no later db' ≡ (db', ok none)
        → settle_notice provider ref (some amount) trade_no later db' ≡ (db', success)
    unfolding settle_notice
    settled_again ref amount trade_no later db' o' there same idle =
        let equal = (==_iff amount o'.amount_ldc).1 (sym same) in ground (arith, there, equal, idle)

    was_configured :
        (params : Params) (now : ℕ) (db db' : Db)
        → notify provider parse is_negative rounded params now db ≡ (db', success)
        → provider.configured ≡ true
    unfolding notify
    was_configured params now db db' h = elim (Bool-cases provider.configured) [
      | inl configured ↦ configured
      | inr closed ↦ absurd (ground (arith, closed))
    ]

    opened :
        (params : Params) (now : ℕ) (db : Db)
        → provider.configured ≡ true
        → (ref : Text) → provider.parse_callback params ≡ answer (ref, paid)
        → notify provider parse is_negative rounded params now db
          ≡ settle_notice provider ref
              (notified_amount params)
              (get (codes "trade_no") params)
              now
              db
    unfolding notify
    opened params now db configured ref callback = ground arith

    -- A notice that was answered with success can come again at any time: it is answered with success, and nothing
    -- changes.
    pub notify_again :
        (params : Params) (now later : ℕ) (db db' : Db)
        → notify provider parse is_negative rounded params now db ≡ (db', success)
        → notify provider parse is_negative rounded params later db' ≡ (db', success)
    notify_again params now later db db' h = elim (notify_lem params now db) [
      | inr (bad, same) ↦ absurd (cc (h, bad))
      | inl (good, (ref, callback, (o, r, there, money, marked, row, _))) ↦
          let trade_no = get (codes "trade_no") params in
          let own = own_number ref db o there in
          let kept = row_kept trade_no now o in
          let o' = after_payment trade_no now o in
          let first : mark_order_paid ref trade_no now db ≡ (db', ok r) =
            marked ∙ ap (λ y. (y.0, ok r)) h in
          let now_read : get_order_by_no ref db' ≡ ok o' =
            ap (λ y. get_order_by_no ref y.0) (sym h) ∙ row in
          let idle = mark_order_paid_once ref trade_no trade_no now later db db' r first in
          let again = settled_again ref o.amount_ldc trade_no later db' o' now_read kept.1 (
            subst (λ n. mark_order_paid n trade_no later db' ≡ (db', ok none)) (sym (kept.0 ∙ own))
              idle) in
          opened params later db' (was_configured params now db db' h) ref callback
          ∙ ap (λ m. settle_notice provider ref m trade_no later db') money
          ∙ again
    ]
