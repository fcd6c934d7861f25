-- ===== src/Store/Intervals/Links.antt =====
-- How the intervals refer to the orders: an interval's order is in the table and belongs to the
-- interval's user, and the ids of orders are distinct.
use relay_scope.Base.{
  ℕ, ◌<◌, ◌≡◌, refl, ◌≢◌, inl, inr, Bool, true, some, List, [], ◌∷◌, ◌++◌, All, Pairs, arith,
  Bool-cases, select_first, update_where, exists_where, next_id, next_id_above, All-append,
  Pairs-snoc, All-update_where, Pairs-update_where, All-mono, ◌∙◌, All-select_first,
}
use relay_scope.Store.{LdcOrder, Interval, Db, order_is}
use relay_scope.Store.Intervals.{IsSound}

abbrev pub Distinct : LdcOrder → LdcOrder → Type 0
Distinct a b = a.id ≢ b.id

-- Every order of the interval's id is the interval's user's.
abbrev pub Owned : List LdcOrder → Interval → Type 0
Owned orders i = All (λ o. o.id ≡ i.order_id → o.user_id ≡ i.user_id) orders

abbrev pub Known : List LdcOrder → Interval → Type 0
Known orders i = exists_where (order_is i.order_id) orders ≡ true

pub record Links (orders : List LdcOrder) (rows : List Interval) : Type 0 where
  pub keyed : Pairs Distinct orders
  pub owned : All (Owned orders) rows
  pub known : All (Known orders) rows

module _ (p : LdcOrder → Bool) (f : LdcOrder → LdcOrder)
    (keep_id : (o : LdcOrder) → (f o).id ≡ o.id)
    (keep_user : (o : LdcOrder) → (f o).user_id ≡ o.user_id) where
  exists-update :
      (k : ℕ) (orders : List LdcOrder)
      → exists_where (order_is k) (update_where p f orders) ≡ exists_where (order_is k) orders
  unfolding exists_where select_first update_where
  exists-update k [] = refl
  exists-update k (o ∷ orders) = ground (arith, keep_id o, exists-update k orders)

  Owned-update :
      (i : Interval) (orders : List LdcOrder) → Owned orders i → Owned (update_where p f orders) i
  unfolding update_where
  Owned-update i [] h = tt
  Owned-update i (o ∷ orders) h =
      (ground (arith, keep_id o, keep_user o, h.0), Owned-update i orders h.1)

  -- An UPDATE of orders that leaves id and user alone.
  pub Links-update_orders :
      (orders : List LdcOrder) (rows : List Interval)
      → Links orders rows
      → Links (update_where p f orders) rows
  Links-update_orders orders rows l = record {
    keyed =
        Pairs-update_where Distinct (λ o. Unit {0}) Distinct p f orders
          (λ a b h _ _. ground (arith, h, keep_id a, keep_id b)) l.keyed (units orders);
    owned =
        All-mono (Owned orders) (Owned (update_where p f orders)) rows (λ i. Owned-update i orders)
          l.owned;
    known =
        All-mono (Known orders) (Known (update_where p f orders)) rows
          (λ i h. exists-update i.order_id orders ∙ h) l.known;
  }
    where
      units : (os : List LdcOrder) → All (λ o. Unit {0}) os
      units [] = tt
      units (o ∷ os) = (tt, units os)

exists-append :
    (k : ℕ) (orders more : List LdcOrder)
    → exists_where (order_is k) orders ≡ true
    → exists_where (order_is k) (orders ++ more) ≡ true
unfolding exists_where select_first
exists-append k [] more h = cc
exists-append k (o ∷ orders) more h = ground (arith, exists-append k orders more)

exists-lt :
    (k n : ℕ) (orders : List LdcOrder)
    → All (λ o. o.id < n) orders
    → exists_where (order_is k) orders ≡ true
    → k < n
unfolding exists_where select_first
exists-lt k n [] a h = cc
exists-lt k n (o ∷ orders) a h = ground (arith, a.0, exists-lt k n orders a.1)

-- An INSERT of an order under the next id.
pub Links-insert_order :
    (orders : List LdcOrder) (rows : List Interval) (row : LdcOrder)
    → row.id ≡ next_id (λ o. o.id) orders
    → Links orders rows
    → Links (orders ++ row ∷ []) rows
Links-insert_order orders rows row new l = record {
  keyed = Pairs-snoc Distinct orders row l.keyed (
      All-mono (λ o. o.id < next_id (λ x. x.id) orders) (λ o. Distinct o row) orders
        (λ o h q. omega (arith, h, q, new)) above);
  owned = go rows l.owned l.known;
  known =
      All-mono (Known orders) (Known (orders ++ row ∷ [])) rows
        (λ i h. exists-append i.order_id orders (row ∷ []) h) l.known;
}
  where
    above : All (λ o. o.id < next_id (λ x. x.id) orders) orders
    above = next_id_above (λ o. o.id) orders

    go :
        (is : List Interval)
        → All (Owned orders) is
        → All (Known orders) is
        → All (Owned (orders ++ row ∷ [])) is
    go [] h k = tt
    go (i ∷ is) h k = (
      All-append (λ o. o.id ≡ i.order_id → o.user_id ≡ i.user_id) orders (row ∷ []) h.0
          ((λ q. absurd (omega (arith, q, new, exists-lt i.order_id _ orders above k.0))), tt),
      go is h.1 k.1,
    )

-- An UPDATE of intervals that leaves order and user alone.
pub Links-update_rows :
    (p : Interval → Bool) (f : Interval → Interval) (orders : List LdcOrder) (rows : List Interval)
    → ((i : Interval) → (f i).order_id ≡ i.order_id)
    → ((i : Interval) → (f i).user_id ≡ i.user_id)
    → Links orders rows
    → Links orders (update_where p f rows)
Links-update_rows p f orders rows keep_order keep_user l = record {
  keyed = l.keyed;
  owned =
      All-update_where (Owned orders) (Owned orders) p f rows
        (λ i h. elim (Bool-cases (p i)) [
          | inl e ↦ rw e (rw (keep_order i, keep_user i) h)
          | inr e ↦ rw e h
        ])
        l.owned;
  known =
      All-update_where (Known orders) (Known orders) p f rows
        (λ i h. elim (Bool-cases (p i)) [ inl e ↦ rw e (rw (keep_order i) h) | inr e ↦ rw e h ])
        l.known;
}

-- An INSERT of the interval of an order of the table.
pub Links-insert_row :
    (orders : List LdcOrder) (rows : List Interval) (i : Interval)
    → Owned orders i
    → Known orders i
    → Links orders rows
    → Links orders (rows ++ i ∷ [])
Links-insert_row orders rows i own know l = record {
  keyed = l.keyed;
  owned = All-append (Owned orders) rows (i ∷ []) l.owned (own, tt);
  known = All-append (Known orders) rows (i ∷ []) l.known (know, tt);
}

-- The orders of a key that is selected are its first order.
pub Owned-first :
    (orders : List LdcOrder) (i : Interval) (o : LdcOrder) (q : LdcOrder → Bool)
    → Pairs Distinct orders
    → select_first q orders ≡ some o
    → i.order_id ≡ o.id
    → i.user_id ≡ o.user_id
    → Owned orders i × Known orders i
unfolding select_first exists_where
Owned-first [] i o q d e hi hu = cc
Owned-first (x ∷ orders) i o q d e hi hu = elim (Bool-cases (q x)) [
  | inl hit ↦
      let same : x ≡ o = ground (arith, hit) in
      (
        (
          (λ _. cc same),
          All-mono (Distinct x) (λ y. y.id ≡ i.order_id → y.user_id ≡ i.user_id) orders
              (λ y h k. absurd (h (cc (same, k)))) d.0,
        ),
        ground (arith, same),
      )
  | inr miss ↦
      let rest : select_first q orders ≡ some o = ground (arith, miss) in
      let later = Owned-first orders i o q d.1 rest hi hu in
      let ne : x.id ≢ o.id = All-select_first (Distinct x) q orders d.0 rest in
      (((λ k. absurd (ne (k ∙ hi))), later.0), ground (arith, later.1))
]

-- The tables of memberships between two calls.
pub record IsLedger (db : Db) : Type 0 where
  pub sound : IsSound db
  pub links : Links db.orders db.intervals
