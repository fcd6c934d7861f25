-- ===== src/Store/Intervals/Payment.antt =====
-- A payment (markOrderPaid) keeps the bought intervals sound.
use relay_scope.Base.{
  ℕ, ◌≤◌, ◌≡◌, refl, ◌≢◌, inl, inr, Bool, false, some, List, [], ◌∷◌, ◌++◌, or_zero, All, arith,
  Bool-cases, Option-cases, select_first, update_where, exists_where, All-append, Pairs-snoc, subst,
  ◌∙◌, ap, select_first-holds,
}
use relay_scope.Base.Texts.{Text}
use relay_scope.Store.{
  User, LdcOrder, Interval, Db, user_is, ok, order_no_is, OrderKind, wish, membership, other_kind,
}
use relay_scope.Store.Membership.{extended, extend_user}
use relay_scope.Store.Orders.{
  interval_of, bought_interval, pay_row, reach_wish, pending_no, deliver, mark_order_paid,
}
use relay_scope.Store.Orders.Outcomes.{marked_paid, paid_outcome}
use relay_scope.Store.Intervals.{
  expiry_of, Apart, Within, IsSound, Within-mono, expiry_of-select, expiry_of-update,
  expiry_of-grows,
}
use relay_scope.Store.Intervals.Links.{IsLedger, Links-update_orders, Owned-first, Links-insert_row}

extend_keeps : (now days : ℕ) (u : User) → (extend_user now days u).id ≡ u.id
unfolding extend_user
extend_keeps now days u = refl

extend_grows :
    (now days : ℕ) (u : User)
    → or_zero u.membership_expires_at ≤ or_zero (extend_user now days u).membership_expires_at
unfolding extend_user
extend_grows now days u = ground arith

no_interval :
    (k : ℕ) (rows : List Interval)
    → exists_where (interval_of k) rows ≡ false
    → All (λ i. i.order_id ≢ k) rows
unfolding exists_where select_first
no_interval k [] h = tt
no_interval k (i ∷ rows) h = (ground arith, no_interval k rows (ground arith))

-- The new interval begins where the membership ends, so behind all others of its user.
behind :
    (us : List User) (rows : List Interval) (b : Interval)
    → expiry_of b.user_id us ≤ b.starts_at
    → All (Within us) rows
    → All (λ i. i.order_id ≢ b.order_id) rows
    → All (λ i. Apart i b) rows
behind us [] b h w n = tt
behind us (i ∷ rows) b h w n = (
  (n.0, λ same. inl (omega (arith, h, w.0.1, ap (λ j. expiry_of j us) same))),
  behind us rows b h w.1 n.1,
)

-- A membership that is bought: the interval and the expiry.
bought-IsSound :
    (o : LdcOrder) (days now : ℕ) (db : Db) (u : User)
    → IsSound db
    → exists_where (interval_of o.id) db.intervals ≡ false
    → select_first (user_is o.user_id) db.users ≡ some u
    → u.id ≡ o.user_id
    → IsSound (record db {
      users = update_where (user_is o.user_id) (extend_user now days) db.users;
      intervals = db.intervals ++ bought_interval o days now u ∷ [];
    })
unfolding bought_interval
bought-IsSound o days now db u s free eu hu = record {
  within =
      All-append (Within users') db.intervals (bought ∷ [])
        (Within-mono db.users users' db.intervals
          (λ j.
            expiry_of-grows o.user_id j (extend_user now days) db.users (extend_keeps now days)
              (extend_grows now days))
          s.within)
        ((omega arith, omega (arith, new_expiry)), tt);
  apart = Pairs-snoc Apart db.intervals bought s.apart (
      behind db.users db.intervals bought (omega (arith, old_expiry)) s.within
        (no_interval o.id db.intervals free));
}
  where
    users' : List User
    users' = update_where (user_is o.user_id) (extend_user now days) db.users

    bought : Interval
    bought = bought_interval o days now u

    old_expiry : expiry_of u.id db.users ≡ or_zero u.membership_expires_at
    old_expiry = rw hu (expiry_of-select o.user_id db.users u eu)

    new_expiry : expiry_of u.id users' ≡ extended u.membership_expires_at now days
    new_expiry = rw hu (
        expiry_of-update o.user_id (extend_user now days) db.users u (extend_keeps now days) eu
        ∙ unfold extend_user in refl)

-- The row that a test finds has the id that the test asks for.
found_id : (k : ℕ) (us : List User) (u : User) → select_first (user_is k) us ≡ some u → u.id ≡ k
found_id k us u e = ground (arith, select_first-holds (user_is k) us u e)

pub extended-IsSound :
    (k days now : ℕ) (db : Db)
    → IsSound db
    → IsSound (record db { users = update_where (user_is k) (extend_user now days) db.users })
extended-IsSound k days now db s = record {
  within =
      Within-mono db.users _ db.intervals
        (λ j.
          expiry_of-grows k j (extend_user now days) db.users (extend_keeps now days)
            (extend_grows now days))
        s.within;
  apart = s.apart;
}

buy-IsLedger :
    (o : LdcOrder) (days now : ℕ) (db db' : Db) (q : LdcOrder → Bool)
    → IsLedger db
    → select_first q db.orders ≡ some o
    → o.days ≡ some days
    → deliver membership o now db ≡ ok (tt, db')
    → IsLedger db'
unfolding deliver
buy-IsLedger o days now db db' q h eo ed run =
    elim (Option-cases (select_first (user_is o.user_id) db.users)) [
      | inl missing ↦
          subst IsLedger (ground (arith, missing, ed))
            (record { sound = extended-IsSound o.user_id days now db h.sound; links = h.links })
      | inr (u, eu) ↦ elim (Bool-cases (exists_where (interval_of o.id) db.intervals)) [
        | inl again ↦ absurd (ground (arith, again, eu, ed))
        | inr free ↦
            let hu = found_id o.user_id db.users u eu in
            let own =
              Owned-first db.orders (bought_interval o days now u) o q h.links.keyed eo refl hu in
            subst IsLedger (ground (arith, free, eu, ed)) (record {
              sound = bought-IsSound o days now db u h.sound free eu hu;
              links =
                  Links-insert_row db.orders db.intervals (bought_interval o days now u) own.0 own.1
                    h.links;
            })
      ]
    ]

pub reached_IsLedger : (now site : ℕ) (db : Db) → IsLedger db → IsLedger (reach_wish now site db)
unfolding reach_wish
reached_IsLedger now site db h = record {
  sound = record { within = h.sound.within; apart = h.sound.apart };
  links = h.links;
}

deliver-IsLedger :
    (k : OrderKind) (o : LdcOrder) (now : ℕ) (db db' : Db) (q : LdcOrder → Bool)
    → IsLedger db
    → select_first q db.orders ≡ some o
    → deliver k o now db ≡ ok (tt, db')
    → IsLedger db'
unfolding deliver
deliver-IsLedger membership o now db db' q h eo run = elim (Option-cases o.days) [
  | inl none_days ↦ absurd (ground (arith, none_days))
  | inr (days, ed) ↦ buy-IsLedger o days now db db' q h eo ed run
]
deliver-IsLedger wish o now db db' q h eo run = elim (Option-cases o.wish_site_id) [
  | inl none_site ↦ absurd (ground (arith, none_site))
  | inr (site, es) ↦ subst IsLedger (ground (arith, es)) (reached_IsLedger now site db h)
]
deliver-IsLedger other_kind o now db db' q h eo run = subst IsLedger (ground arith) h

-- The whole transaction of a payment.
pub pay-IsLedger :
    (number trade_no : Text) (now : ℕ) (db : Db)
    → IsLedger db
    → IsLedger (mark_order_paid number trade_no now db).0
pay-IsLedger number trade_no now db h = elim (paid_outcome number trade_no now db) [
  | inl idle ↦ rw idle h
  | inr (inl (e, failed)) ↦ rw failed h
  | inr (inr (o, db2, eo, run, done)) ↦ rw done (
      deliver-IsLedger o.kind o now (marked_paid number trade_no now db) db2 (order_no_is number)
        (record {
          sound = record { within = h.sound.within; apart = h.sound.apart };
          links =
              Links-update_orders (pending_no number) (pay_row trade_no now)
                (λ o. unfold pay_row in refl) (λ o. unfold pay_row in refl) db.orders db.intervals
                h.links;
        })
        eo run)
]
