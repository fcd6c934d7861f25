-- ===== src/Store/Orders/Moves.antt =====
-- Every call of the store moves every order along its life or removes it with its wish.
use relay_scope.Base.{
  ℕ, ◌≡◌, ◌⊎◌, refl, inl, inr, not, ◌&&◌, Option, none, some, List, [], ◌∷◌, ◌++◌, ◌==◌, arith,
  Bool-cases, Option-cases, select_first, next_id, exists_where, count_where,
}
use mathlib.Core.List.{append-nil}
use mathlib.Core.Path.{ap, sym, ◌∙◌}
use relay_scope.Base.Texts.{Text}
use relay_scope.Store.{Db, LdcOrder, ok, Result-cases, ◌>>=◌, transaction, wish_is, order_is}
use relay_scope.Store.Membership.{set_setting}
use relay_scope.Store.Orders.{
  create_order, check_order, insert_order, fresh_order, reach_wish, cancel_order,
  cancel_expired_orders, pending_no, expired_at,
}
use relay_scope.Store.Orders.Others.{
  extend_membership-orders, set_by_username-orders, upsert_user-orders, claim-orders,
  record_result-orders, update_wish-orders, redeem-orders, revoke-orders, wish-orders,
  generate-orders, ensure-orders, consume-orders,
}
use relay_scope.Store.Orders.Statuses.{
  Advances, Tracks, same-Tracks, append-Tracks, remove-Tracks, pay-Tracks, refund-Tracks,
  cancel-Tracks,
}
use relay_scope.Store.Wishes.{delete_wish_site, order_of_wish, is_referenced}
use relay_scope.Store.Credits.{
  pledge_monthly_credit, pledge, contribute, debited, bad_pledge, current_credit_period,
  grant_to_member, credit_order,
}
use relay_scope.Store.Credits.Outcomes.{allowance, pledge_outcome}
use relay_scope.Store.Intervals.Links.{IsLedger}
use relay_scope.Store.Intervals.Steps.{Step}

-- The orders are as before, or one row longer.
abbrev Longer : List LdcOrder → List LdcOrder → Type 0
Longer before after = (more : List LdcOrder) × (after ≡ before ++ more)

Longer-Tracks :
    (id : ℕ) (before after : List LdcOrder) → Longer before after → Tracks id before after
Longer-Tracks id before after (more, e) = rw e (append-Tracks id before more)

insert-Longer :
    (o x : LdcOrder) (db db' : Db) → insert_order o db ≡ ok (x, db') → Longer db.orders db'.orders
unfolding insert_order
insert-Longer o x db db' h = (record o { id = next_id (λ x. x.id) db.orders } ∷ [], ground arith)

create-Tracks :
    (o : LdcOrder) (now id : ℕ) (db : Db) → Tracks id db.orders (create_order o now db).0.orders
unfolding create_order
create-Tracks o now id db = elim (Option-cases (check_order o)) [
  | inr (e, refused) ↦ same-Tracks id db.orders _ (ground (arith, refused))
  | inl fine ↦ elim (Result-cases (insert_order (fresh_order o now) db)) [
    | inl (e, failed) ↦ same-Tracks id db.orders _ (ground (arith, fine, failed))
    | inr (row, db', run) ↦
        rw (fine, create_order)
          (rw (run, ◌>>=◌, transaction)
            (Longer-Tracks id db.orders db'.orders
              (insert-Longer (fresh_order o now) row db db' run)))
  ]
]

contribute-Longer :
    (user site : ℕ) (number : Text) (period n now a : ℕ) (db db' : Db)
    → contribute user site number period n now db ≡ ok (a, db')
    → Longer db.orders db'.orders
unfolding contribute reach_wish debited
contribute-Longer user site number period n now a db db' h =
    let o = credit_order user site number n now in
    elim (Result-cases (insert_order o (debited user period n db))) [
      | inl (e, failed) ↦ absurd (ground (arith, failed))
      | inr (x, db2, run) ↦
          let (more, e) = insert-Longer o x (debited user period n db) db2 run in
          (more, ground (arith, run, e))
    ]

pledge-Longer :
    (user site : ℕ) (number : Text) (amount period now a : ℕ) (db db' : Db)
    → pledge user site number amount period now db ≡ ok (a, db')
    → Longer db.orders db'.orders
pledge-Longer user site number amount period now a db db' run =
    elim (pledge_outcome user site number amount period now a db db' run) [
      | inl (_, same) ↦ ([], ap (λ d. d.orders) same ∙ sym (append-nil db.orders))
      | inr (c, e, left, given) ↦
          contribute-Longer user site number period (allowance c amount) now a db db' given
    ]

pledge-Tracks :
    (user site : ℕ) (number : Text) (amount grant now id : ℕ) (db : Db)
    → Tracks id db.orders (pledge_monthly_credit user site number amount grant now db).0.orders
unfolding pledge_monthly_credit
pledge-Tracks user site number amount grant now id db =
    elim (Bool-cases (bad_pledge user site number amount grant)) [
      | inl bad ↦ same-Tracks id db.orders _ (ground (arith, bad))
      | inr good ↦
          let period = current_credit_period now in
          let start = grant_to_member user period grant now db in
          elim (Result-cases (pledge user site number amount period now start)) [
            | inl (e, failed) ↦ same-Tracks id db.orders _ (ground (arith, good, failed))
            | inr (a, db2, run) ↦
                let (more, e) = pledge-Longer user site number amount period now a start db2 run in
                let kept : start.orders ≡ db.orders = unfold grant_to_member in ground arith in
                rw good (
                  rw (run, transaction)
                    (Longer-Tracks id db.orders db2.orders (more, ground (arith, e, kept))))
          ]
    ]

delete-Tracks :
    (site id : ℕ) (db : Db) → IsLedger db → Tracks id db.orders (delete_wish_site site db).0.orders
unfolding delete_wish_site
delete-Tracks site id db h = elim (Bool-cases (count_where (wish_is site) db.wishes == 0)) [
  | inl missing ↦ same-Tracks id db.orders _ (ground (arith, missing))
  | inr there ↦
      elim (Bool-cases (exists_where (λ o. order_of_wish site o && is_referenced db o) db.orders)) [
        | inl held ↦ same-Tracks id db.orders _ (ground (arith, held, there))
        | inr free ↦
            rw (there, free)
              (remove-Tracks (λ o. not (order_of_wish site o)) id db.orders h.links.keyed)
      ]
]

module _ (parse_url : Text → Option (Text × Text)) where
  moved :
      (id : ℕ) {db db' : Db} → Step parse_url db db' → IsLedger db → Tracks id db.orders db'.orders
  unfolding set_setting cancel_order cancel_expired_orders
  moved id (Step.extend k days now db) h =
      same-Tracks id db.orders _ (extend_membership-orders k days now db)
  moved id (Step.set_by_username provider name e now db) h =
      same-Tracks id db.orders _ (set_by_username-orders provider name e now db)
  moved id (Step.login a now db) h = same-Tracks id db.orders _ (upsert_user-orders a now db)
  moved id (Step.set_setting_value key value db) h = same-Tracks id db.orders _ (refl)
  moved id (Step.create o now db) h = create-Tracks o now id db
  moved id (Step.pay number trade_no now db) h = pay-Tracks number trade_no now id db
  moved id (Step.refund order_id now db) h = refund-Tracks order_id now id db
  moved id (Step.cancel number db) h =
      cancel-Tracks (pending_no number) (λ x hit. ground (arith, hit)) id db.orders
  moved id (Step.expire cutoff db) h =
      cancel-Tracks (expired_at cutoff) (λ x hit. ground (arith, hit)) id db.orders
  moved id (Step.claim order_id now db) h =
      same-Tracks id db.orders _ (claim-orders order_id now db)
  moved id (Step.record_result order_id s now db) h =
      same-Tracks id db.orders _ (record_result-orders order_id s now db)
  moved id (Step.make_wish k name url invite target now db) h =
      same-Tracks id db.orders _ (wish-orders parse_url k name url invite target now db)
  moved id (Step.update_wish site target s now db) h =
      same-Tracks id db.orders _ (update_wish-orders site target s now db)
  moved id (Step.delete_wish site db) h = delete-Tracks site id db h
  moved id (Step.ensure_credit k grant now db) h =
      same-Tracks id db.orders _ (ensure-orders k grant now db)
  moved id (Step.consume_credit k amount now db) h =
      same-Tracks id db.orders _ (consume-orders k amount now db)
  moved id (Step.pledge_credit k site number amount grant now db) h =
      pledge-Tracks k site number amount grant now id db
  moved id (Step.redeem k code now db) h = same-Tracks id db.orders _ (redeem-orders k code now db)
  moved id (Step.generate draws count days note now db {db' = db'} {r = r} e) h =
      same-Tracks id db.orders _ (generate-orders draws count days note now db db' r e)
  moved id (Step.revoke ids db) h = same-Tracks id db.orders _ (revoke-orders ids db)

  -- In tables that are sound in the sense of IsLedger, no call of the store changes the number, user,
  -- kind, amount or funding of an order, and its status only moves from pending to paid or cancelled and
  -- from paid to refunded; the only other thing that can happen to an order is that it is removed.
  pub order_moves :
      (o : LdcOrder) {db db' : Db}
      → Step parse_url db db'
      → IsLedger db
      → select_first (order_is o.id) db.orders ≡ some o
      → (select_first (order_is o.id) db'.orders ≡ none)
        ⊎ ((p : LdcOrder) × (select_first (order_is o.id) db'.orders ≡ some p) × Advances o p)
  order_moves o step h found = moved o.id step h o found
