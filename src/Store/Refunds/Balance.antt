-- ===== src/Store/Refunds/Balance.antt =====
-- What a membership order adds to the expiry, its revocation takes back.
use relay_scope.Base.{
  ℕ, ◌+◌, ◌-◌, ◌*◌, max, min, ◌≡◌, refl, inl, inr, false, some, List, [], ◌∷◌, ◌++◌, ◌==◌, or_zero,
  arith, Bool-cases, select_first, update_where, select_first-update_where, select_first-holds,
  exists_where, ap,
}
use relay_scope.Store.{User, LdcOrder, Interval, Db, ok, membership, user_is, day_millis}
use relay_scope.Store.Membership.{extended, extend_user}
use relay_scope.Store.Orders.{deliver, insert_interval, extend_buyer, interval_of, bought_interval}
use relay_scope.Store.Refunds.{
  revoke_order_membership, shorten_user, shorten, unused_part, revoke_intervals,
}

append-interval :
    (id : ℕ) (i : Interval) (rows : List Interval)
    → exists_where (interval_of id) rows ≡ false
    → i.order_id ≡ id
    → select_first (interval_of id) (rows ++ i ∷ []) ≡ some i
unfolding select_first exists_where
append-interval id i [] h e = ground arith
append-interval id i (j ∷ rows) h e = ground (arith, append-interval id i rows)

-- The end of the bought span less its unused part.
taken_back :
    (start span later : ℕ)
    → start + span - (min (start + span) (start + span) - max start later)
      ≡ min (start + span) (max later start)
taken_back start span later = omega arith

module _ (o : LdcOrder) (u : User) (days now : ℕ) (db db' : Db) (eo : o.days ≡ some days)
    (eu : select_first (user_is o.user_id) db.users ≡ some u)
    (run : deliver membership o now db ≡ ok (tt, db')) where
  delivered-user : select_first (user_is o.user_id) db'.users ≡ some (extend_user now days u)
  unfolding deliver insert_interval extend_buyer extend_user
  delivered-user =
      let moved =
        select_first-update_where (user_is o.user_id) (user_is o.user_id) (extend_user now days)
          db.users u (λ v. refl) eu in
      ground (arith, moved, select_first-holds (user_is o.user_id) db.users u eu)

  delivered-interval :
      select_first (interval_of o.id) db'.intervals ≡ some (bought_interval o days now u)
  unfolding deliver insert_interval extend_buyer bought_interval
  delivered-interval = elim (Bool-cases (exists_where (interval_of o.id) db.intervals)) [
    | inl twice ↦ absurd (ground (arith, twice))
    | inr new ↦
        let added = append-interval o.id (bought_interval o days now u) db.intervals new refl in
        ground (arith, added, new)
  ]

  -- If a membership order of an existing user was delivered at `now`, its revocation at any time
  -- `later`, with nothing in between, succeeds and leaves the expiry at the greater of `later` and the
  -- start of the bought interval, but not after the expiry that the delivery set: the user keeps the
  -- days that have passed, and a revocation at the time of the delivery restores what was there, or
  -- `now` if that had passed.
  pub deliver-revoke :
      (later : ℕ)
      → (db2 : Db) × (v : User) × (revoke_order_membership o later db' ≡ ok (tt, db2))
        × (select_first (user_is o.user_id) db2.users ≡ some v)
        × (v.membership_expires_at
            ≡ some (
                min
                  (extended u.membership_expires_at now days)
                  (max later (max (or_zero u.membership_expires_at) now))))
  unfolding revoke_order_membership shorten_user shorten extend_user bought_interval
  deliver-revoke later =
      let i = bought_interval o days now u in
      let w = extend_user now days u in
      let e = extended u.membership_expires_at now days in
      elim (Bool-cases (unused_part i e later == 0)) [
        | inl spent ↦ (
          db',
          w,
          ground (arith, spent, delivered-user, delivered-interval),
          delivered-user,
          ap some (
              ground (
                arith,
                spent,
                taken_back (max (or_zero u.membership_expires_at) now) (days * day_millis) later,
              )),
        )
        | inr left ↦
            let back = shorten_user (unused_part i e later) later w in
            let kept =
              select_first-update_where (user_is o.user_id) (user_is o.user_id)
                (shorten_user (unused_part i e later) later) db'.users w (λ v. refl)
                delivered-user in
            (
              record db' {
                users =
                    update_where (user_is o.user_id) (shorten_user (unused_part i e later) later)
                      db'.users;
                intervals = revoke_intervals o i e later db'.intervals;
              },
              back,
              ground (arith, left, delivered-user, delivered-interval),
              ground (arith, kept, select_first-holds (user_is o.user_id) db.users u eu),
              ap some (
                  taken_back (max (or_zero u.membership_expires_at) now) (days * day_millis) later),
            )
      ]
