-- ===== src/Store/Orders/Statuses.antt =====
-- The life of an order: pending, then paid or cancelled, and a paid one may be refunded.
use relay_scope.Base.{
  ℕ, ◌≡◌, ◌⊎◌, refl, inl, inr, Bool, true, false, none, some, List, [], ◌∷◌, ◌++◌, arith,
  Bool-cases, All, Pairs, select_first, select_where, update_where, select_first-update_where,
  updated, subst,
}
use relay_scope.Base.Texts.{Text}
use relay_scope.Store.{Db, LdcOrder, OrderStatus, pending, paid, refunded, cancelled, order_is}
use relay_scope.Store.Orders.{pending_no, pay_row, cancel_row, mark_order_paid}
use relay_scope.Store.Orders.Outcomes.{marked_paid, paid_outcome}
use relay_scope.Store.Orders.Settlement.{deliver-orders}
use relay_scope.Store.Orders.Others.{withdraw-orders}
use relay_scope.Store.Refunds.{paid_id, refund_row, mark_order_refunded}
use relay_scope.Store.Intervals.Edits.{marked_refunded, refund_outcome}
use relay_scope.Store.Intervals.Links.{Distinct}

-- The moves of the status column.
abbrev pub may_become : OrderStatus → OrderStatus → Bool
may_become pending pending = true
may_become pending paid = true
may_become pending cancelled = true
may_become paid paid = true
may_become paid refunded = true
may_become refunded refunded = true
may_become cancelled cancelled = true
may_become _ _ = false

-- What never changes in an order, and how its status moves.
pub record Advances (o p : LdcOrder) : Type 0 where
  pub same_no : p.order_no ≡ o.order_no
  pub same_user : p.user_id ≡ o.user_id
  pub same_kind : p.kind ≡ o.kind
  pub same_amount : p.amount_ldc ≡ o.amount_ldc
  pub same_funding : p.funding ≡ o.funding
  pub move : may_become o.status p.status ≡ true

-- The order of an id is gone or advanced.
abbrev pub Tracks : ℕ → List LdcOrder → List LdcOrder → Type 0
Tracks id before after =
    (o : LdcOrder)
    → select_first (order_is id) before ≡ some o
    → (select_first (order_is id) after ≡ none)
      ⊎ ((p : LdcOrder) × (select_first (order_is id) after ≡ some p) × Advances o p)

still : (o : LdcOrder) → Advances o o
still o = record {
  same_no = refl;
  same_user = refl;
  same_kind = refl;
  same_amount = refl;
  same_funding = refl;
  move = stays o.status;
}
  where
    stays : (s : OrderStatus) → may_become s s ≡ true
    stays pending = refl
    stays paid = refl
    stays refunded = refl
    stays cancelled = refl

pub same-Tracks : (id : ℕ) (before after : List LdcOrder) → after ≡ before → Tracks id before after
same-Tracks id before after e o h = inr (o, rw e h, still o)

pub update-Tracks :
    (p : LdcOrder → Bool) (f : LdcOrder → LdcOrder)
    → ((o : LdcOrder) → (f o).id ≡ o.id)
    → ((o : LdcOrder) → p o ≡ true → Advances o (f o))
    → (id : ℕ) (before : List LdcOrder) → Tracks id before (update_where p f before)
update-Tracks p f keep step id before o h = inr (
  updated p f o,
  select_first-update_where (order_is id) p f before o (λ x. ground (arith, keep x)) h,
  elim (Bool-cases (p o)) [ inl hit ↦ rw hit (step o hit) | inr miss ↦ rw miss (still o) ],
)

pub append-Tracks : (id : ℕ) (before more : List LdcOrder) → Tracks id before (before ++ more)
unfolding select_first
append-Tracks id before more o h = inr (o, found before h, still o)
  where
    found :
        (xs : List LdcOrder)
        → select_first (order_is id) xs ≡ some o
        → select_first (order_is id) (xs ++ more) ≡ some o
    found [] h = cc
    found (x ∷ xs) h = ground (arith, found xs)

gone :
    (id : ℕ) (q : LdcOrder → Bool) (xs : List LdcOrder)
    → All (λ x. order_is id x ≡ false) xs
    → select_first (order_is id) (select_where q xs) ≡ none
unfolding select_first select_where
gone id q [] a = refl
gone id q (x ∷ xs) a = ground (arith, a.0, gone id q xs a.1)

unnamed :
    (id : ℕ) (o : LdcOrder) (xs : List LdcOrder)
    → All (Distinct o) xs
    → o.id ≡ id
    → All (λ x. order_is id x ≡ false) xs
unnamed id o [] a e = tt
unnamed id o (x ∷ xs) a e = (ground (arith, a.0, e), unnamed id o xs a.1 e)

pub remove-Tracks :
    (q : LdcOrder → Bool) (id : ℕ) (before : List LdcOrder)
    → Pairs Distinct before
    → Tracks id before (select_where q before)
unfolding select_first select_where
remove-Tracks q id [] d o h = cc
remove-Tracks q id (x ∷ xs) d o h = elim (Bool-cases (order_is id x)) [
  | inl hit ↦ elim (Bool-cases (q x)) [
    | inl kept ↦
        inr (
          x,
          ground (arith, hit, kept),
          subst (λ y. Advances y x) (ground (arith, hit, h)) (still x),
        )
    | inr dropped ↦ inl (rw dropped (gone id q xs (unnamed id x xs d.0 (ground (arith, hit)))))
  ]
  | inr miss ↦ elim (remove-Tracks q id xs d.1 o (ground (arith, miss, h))) [
    | inl none_left ↦ inl (ground (arith, none_left, miss))
    | inr (p, e, a) ↦ inr (p, ground (arith, e, miss), a)
  ]
]

pub pay-Tracks :
    (number trade_no : Text) (now id : ℕ) (db : Db)
    → Tracks id db.orders (mark_order_paid number trade_no now db).0.orders
unfolding pay_row
pay-Tracks number trade_no now id db = elim (paid_outcome number trade_no now db) [
  | inl same ↦ same-Tracks id db.orders _ (ground (arith, same))
  | inr (inl (e, failed)) ↦ same-Tracks id db.orders _ (ground (arith, failed))
  | inr (inr (o, db2, eo, run, done)) ↦
      let kept = deliver-orders o.kind o now (marked_paid number trade_no now db) db2 run in
      rw (done, kept)
        (update-Tracks (pending_no number) (pay_row trade_no now) (λ x. refl)
          (λ x due. record {
            same_no = refl;
            same_user = refl;
            same_kind = refl;
            same_amount = refl;
            same_funding = refl;
            move = ground (arith, due);
          })
          id db.orders)
]

pub refund-Tracks :
    (order_id now id : ℕ) (db : Db)
    → Tracks id db.orders (mark_order_refunded order_id now db).0.orders
unfolding refund_row
refund-Tracks order_id now id db = elim (refund_outcome order_id now db) [
  | inl (e, failed) ↦ same-Tracks id db.orders _ (ground (arith, failed))
  | inr (o, a, db2, eo, run, done) ↦
      let kept = withdraw-orders o a now (marked_refunded order_id db) db2 run in
      rw (done, kept)
        (update-Tracks (paid_id order_id) refund_row (λ x. refl)
          (λ x due. record {
            same_no = refl;
            same_user = refl;
            same_kind = refl;
            same_amount = refl;
            same_funding = refl;
            move = ground (arith, due);
          })
          id db.orders)
]

pub cancel-Tracks :
    (p : LdcOrder → Bool)
    → ((o : LdcOrder) → p o ≡ true → may_become o.status cancelled ≡ true)
    → (id : ℕ) (orders : List LdcOrder) → Tracks id orders (update_where p cancel_row orders)
unfolding cancel_row
cancel-Tracks p pends id orders =
    update-Tracks p cancel_row (λ x. refl)
      (λ x hit. record {
        same_no = refl;
        same_user = refl;
        same_kind = refl;
        same_amount = refl;
        same_funding = refl;
        move = pends x hit;
      })
      id orders
