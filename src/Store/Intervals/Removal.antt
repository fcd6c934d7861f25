-- ===== src/Store/Intervals/Removal.antt =====
-- DeleteWishSite keeps the bought intervals sound: an order that an interval names stays.
use relay_scope.Base.{
  ℕ, ◌≡◌, inl, inr, true, false, not, ◌&&◌, List, [], ◌∷◌, ◌==◌, All, arith, Bool-cases,
  select_first, select_where, exists_where, count_where, All-mono, All-select_where,
  Pairs-select_where,
}
use relay_scope.Store.{LdcOrder, Interval, Db, order_is, wish_is}
use relay_scope.Store.Wishes.{order_of_wish, is_referenced, delete_wish_site}
use relay_scope.Store.Intervals.Links.{IsLedger, Distinct, Owned, Known}

-- An order that is named by an interval is not one of the site's.
kept_known :
    (db : Db) (site k : ℕ) (orders : List LdcOrder)
    → exists_where (λ i. i.order_id == k) db.intervals ≡ true
    → exists_where (λ o. order_of_wish site o && is_referenced db o) orders ≡ false
    → exists_where (order_is k) orders ≡ true
    → exists_where (order_is k) (select_where (λ o. not (order_of_wish site o)) orders) ≡ true
unfolding exists_where select_first select_where is_referenced
kept_known db site k [] named free known = cc
kept_known db site k (o ∷ orders) named free known = elim (Bool-cases (order_is k o)) [
  | inl hit ↦ ground (arith, hit, referenced (ground (arith, hit)))
  | inr miss ↦ ground (arith, miss, kept_known db site k orders named)
]
  where
    referenced : k ≡ o.id → is_referenced db o ≡ true
    referenced e = rw (← e, is_referenced) (ground (arith, named))

-- Each interval is among the intervals of its order.
named_rows :
    (rows : List Interval)
    → All (λ i. exists_where (λ j. j.order_id == i.order_id) rows ≡ true) rows
unfolding exists_where select_first
named_rows [] = tt
named_rows (x ∷ rows) = (
  ground arith,
  All-mono (λ i. exists_where (λ j. j.order_id == i.order_id) rows ≡ true)
      (λ i. exists_where (λ j. j.order_id == i.order_id) (x ∷ rows) ≡ true) rows
      (λ i h. ground (arith, h)) (named_rows rows),
)

pub delete_wish-IsLedger : (id : ℕ) (db : Db) → IsLedger db → IsLedger (delete_wish_site id db).0
unfolding delete_wish_site
delete_wish-IsLedger id db h = elim (Bool-cases (count_where (wish_is id) db.wishes == 0)) [
  | inl missing ↦ rw missing h
  | inr there ↦
      elim (Bool-cases (exists_where (λ o. order_of_wish id o && is_referenced db o) db.orders)) [
        | inl used ↦ rw (there, used) h
        | inr free ↦
            rw (there, free)
              (record {
                sound = record { within = h.sound.within; apart = h.sound.apart };
                links = record {
                  keyed =
                      Pairs-select_where Distinct (λ o. not (order_of_wish id o)) db.orders
                        h.links.keyed;
                  owned =
                      All-mono (Owned db.orders)
                        (Owned (select_where (λ o. not (order_of_wish id o)) db.orders))
                        db.intervals
                        (λ i own.
                          All-select_where (λ o. o.id ≡ i.order_id → o.user_id ≡ i.user_id)
                            (λ o. not (order_of_wish id o)) db.orders own)
                        h.links.owned;
                  known = both db.intervals (named_rows db.intervals) h.links.known free;
                };
              })
      ]
]
  where
    both :
        (rows : List Interval)
        → All (λ i. exists_where (λ j. j.order_id == i.order_id) db.intervals ≡ true) rows
        → All (Known db.orders) rows
        → exists_where (λ o. order_of_wish id o && is_referenced db o) db.orders ≡ false
        → All (Known (select_where (λ o. not (order_of_wish id o)) db.orders)) rows
    both [] n k free = tt
    both (i ∷ rows) n k free =
        (kept_known db id i.order_id db.orders n.0 free k.0, both rows n.1 k.1 free)
