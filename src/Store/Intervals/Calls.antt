-- ===== src/Store/Intervals/Calls.antt =====
-- The calls other than payments and refunds keep the bought intervals sound.
use relay_scope.Base.{
  ℕ, ◌≡◌, refl, inl, inr, Bool, Option, [], ◌∷◌, ◌++◌, ◌==◌, arith, Bool-cases, Option-cases,
  select_first, update_where, next_id, subst, ◌||◌, ltb, length,
}
use relay_scope.Base.Texts.{Text, trim_space, is_empty}
use relay_scope.Store.{LdcOrder, Db, ok, Result-cases, ok-cases, ◌>>=◌, transaction}
use relay_scope.Store.Membership.{extend_membership}
use relay_scope.Store.Membership.Usernames.{
  apply_membership, set_membership_by_username, select_user, named, username_key, expiry_argument,
  normalize_membership_username, consume_membership_preregistration, keep_later_expiry,
  preregistration_is,
}
use relay_scope.Store.Orders.{create_order, check_order, insert_order, fresh_order, cancel_row}
use relay_scope.Store.Intervals.{Within-mono, expiry_of-grows}
use relay_scope.Store.Intervals.Links.{IsLedger, Links-update_orders, Links-insert_order}
use relay_scope.Store.Intervals.Payment.{extended-IsSound}
use relay_scope.Store.Intervals.Clip.{set_user-IsLedger, preregister-IsLedger}

pub same-IsLedger :
    (db db' : Db)
    → db'.users ≡ db.users
    → db'.orders ≡ db.orders
    → db'.intervals ≡ db.intervals
    → IsLedger db
    → IsLedger db'
same-IsLedger db db' eu eo ei h = record {
  sound = record { within = rw (eu, ei) h.sound.within; apart = rw ei h.sound.apart };
  links = rw (eo, ei) h.links;
}

pub extend-IsLedger :
    (k days now : ℕ) (db : Db) → IsLedger db → IsLedger (extend_membership k days now db).0
unfolding extend_membership
extend-IsLedger k days now db h = elim (Bool-cases (k == 0 || days == 0 || ltb 3650 days)) [
  | inl refused ↦ rw refused h
  | inr fine ↦ rw fine (record { sound = extended-IsSound k days now db h.sound; links = h.links })
]

pub consume-IsLedger :
    (provider username : Text) (k now : ℕ) (db : Db)
    → IsLedger db
    → IsLedger (consume_membership_preregistration provider username k now db)
unfolding consume_membership_preregistration
consume-IsLedger provider username k now db h =
    elim (Option-cases
      (select_first (preregistration_is provider (username_key username)) db.preregistrations)) [
        | inl missing ↦ rw (missing, consume_membership_preregistration) h
        | inr (p, e) ↦
            rw (e, consume_membership_preregistration)
              (record {
                sound = record {
                  within =
                      Within-mono db.users _ db.intervals
                        (λ j.
                          expiry_of-grows k j (keep_later_expiry p.expires_at now) db.users
                            (λ u. unfold keep_later_expiry in refl)
                            (λ u. unfold keep_later_expiry in omega arith))
                        h.sound.within;
                  apart = h.sound.apart;
                };
                links = h.links;
              })
      ]

apply-IsLedger :
    (provider username : Text) (e : Option ℕ) (now : ℕ) (db : Db)
    → IsLedger db
    → IsLedger (apply_membership provider username e now db).0
unfolding apply_membership
apply-IsLedger provider username e now db h =
    elim (Option-cases (select_user (named provider (username_key username)) db.users)) [
      | inl missing ↦ preregister-IsLedger provider username e now db h missing
      | inr (u, eu) ↦
          rw (eu, apply_membership)
            (set_user-IsLedger provider (username_key username) u.id e now db h)
    ]

pub set_by_username-IsLedger :
    (provider raw_username : Text) (expires_at : Option (Option ℕ)) (now : ℕ) (db : Db)
    → IsLedger db
    → IsLedger (set_membership_by_username provider raw_username expires_at now db).0
unfolding set_membership_by_username
set_by_username-IsLedger provider raw_username expires_at now db h =
    elim (ok-cases (normalize_membership_username raw_username)) [
      | inl (e, bad) ↦ rw (bad, set_membership_by_username) h
      | inr (username, good) ↦
          elim (Bool-cases
            (is_empty (trim_space provider) || ltb 100 (length (trim_space provider)))) [
              | inl refused ↦ rw (good, set_membership_by_username, refused) h
              | inr fine ↦ elim (ok-cases (expiry_argument expires_at)) [
                | inl (e, bad) ↦ rw (good, set_membership_by_username, fine, bad) h
                | inr (expiry, given) ↦
                    rw (good, set_membership_by_username, fine, given)
                      (apply-IsLedger (trim_space provider) username expiry now db h)
              ]
            ]
    ]

inserted : LdcOrder → Db → Db
inserted o db = record db {
  orders = db.orders ++ record o { id = next_id (λ x. x.id) db.orders } ∷ [];
}

pub insert-IsLedger :
    (o row : LdcOrder) (db db' : Db)
    → IsLedger db
    → insert_order o db ≡ ok (row, db')
    → IsLedger db'
unfolding insert_order inserted
insert-IsLedger o row db db' h run = subst IsLedger {x = inserted o db} (ground arith) (record {
  sound = record { within = h.sound.within; apart = h.sound.apart };
  links =
      Links-insert_order db.orders db.intervals (record o { id = next_id (λ x. x.id) db.orders })
        refl h.links;
})

pub create-IsLedger :
    (o : LdcOrder) (now : ℕ) (db : Db) → IsLedger db → IsLedger (create_order o now db).0
unfolding create_order
create-IsLedger o now db h = elim (Option-cases (check_order o)) [
  | inr (e, refused) ↦ rw (refused, create_order) h
  | inl fine ↦ elim (Result-cases (insert_order (fresh_order o now) db)) [
    | inl (e, failed) ↦ rw (fine, create_order) (rw (failed, ◌>>=◌, transaction) h)
    | inr (row, db', run) ↦
        rw (fine, create_order)
          (rw (run, ◌>>=◌, transaction) (insert-IsLedger (fresh_order o now) row db db' h run))
  ]
]

pub cancel-IsLedger :
    (p : LdcOrder → Bool) (db : Db)
    → IsLedger db
    → IsLedger (record db { orders = update_where p cancel_row db.orders })
cancel-IsLedger p db h = record {
  sound = record { within = h.sound.within; apart = h.sound.apart };
  links =
      Links-update_orders p cancel_row (λ o. unfold cancel_row in refl)
        (λ o. unfold cancel_row in refl) db.orders db.intervals h.links;
}
