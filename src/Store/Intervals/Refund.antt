-- ===== src/Store/Intervals/Refund.antt =====
-- A refund (revokeOrderMembership) keeps the bought intervals apart and within the membership.
use relay_scope.Base.{
  ℕ, ◌-◌, ◌≤◌, ◌<◌, min, ◌≡◌, refl, ◌≢◌, true, some, List, [], ◌∷◌, ◌==◌, if◌then◌else◌, or_zero,
  All, Pairs, arith, select_first, update_where, updated, select_first-holds, All-select_first,
  Pairs-update_where, update_where-fuse, ap, ◌∙◌, sym,
}
use relay_scope.Store.{User, Interval, LdcOrder, Db, user_is}
use relay_scope.Store.Orders.{interval_of}
use relay_scope.Store.Refunds.{
  refund_from, refund_until, unused_part, comes_later, move_interval, close_interval,
  revoke_intervals, shorten_user,
}
use relay_scope.Store.Intervals.{
  expiry_of, Apart, Within, IsSound, Near, Near-All, expiry_of-select, expiry_of-ne,
  expiry_of-update,
}

-- Refund of the interval `r`, whose user's membership ends at `e`, at a time when part is unused.
module _ (r : Interval) (e now : ℕ) (some_left : 0 < unused_part r e now) where
  -- What the two updates do to one row.
  revoked : Interval → Interval
  revoked x =
      updated (interval_of r.order_id) (close_interval (min r.ends_at (refund_from r now))) (
        updated (comes_later r.user_id r.order_id (refund_until r e))
          (move_interval (unused_part r e now)) x)

  revoked-Apart :
      (x y : Interval)
      → (r.starts_at ≤ r.ends_at)
      → (x.starts_at ≤ x.ends_at)
      → (y.starts_at ≤ y.ends_at)
      → Near r x
      → Near r y
      → Apart x y
      → Apart (revoked x) (revoked y)
  unfolding revoked move_interval close_interval
  revoked-Apart x y ro xo yo nx ny a = ground arith

  -- The membership of the refunded user after the refund.
  revoked-Within :
      (x : Interval) (f : ℕ)
      → (r.starts_at ≤ r.ends_at)
      → r.ends_at ≤ e
      → Near r x
      → (x.user_id ≡ r.user_id → f ≡ e)
      → (x.starts_at ≤ x.ends_at)
      → (x.ends_at ≤ f)
      → ((revoked x).starts_at ≤ (revoked x).ends_at)
        × ((revoked x).ends_at ≤ (if x.user_id == r.user_id then e - unused_part r e now else f))
  unfolding revoked move_interval close_interval
  revoked-Within x f ro re nx fe xo xf = ground arith

  revoked-fuse :
      (o : LdcOrder) (rows : List Interval)
      → o.id ≡ r.order_id
      → o.user_id ≡ r.user_id
      → revoke_intervals o r e now rows ≡ update_where (λ x. true) revoked rows
  unfolding revoke_intervals revoked
  revoked-fuse o rows hi hu = cc (
      update_where-fuse (comes_later r.user_id r.order_id (refund_until r e))
        (interval_of r.order_id) (move_interval (unused_part r e now))
        (close_interval (min r.ends_at (refund_from r now))) rows)

  revoked_user : (x : Interval) → (revoked x).user_id ≡ x.user_id
  unfolding revoked move_interval close_interval
  revoked_user x = ground arith

  revoked-All :
      (us vs : List User) (rows : List Interval)
      → r.starts_at ≤ r.ends_at
      → r.ends_at ≤ e
      → expiry_of r.user_id us ≡ e
      → expiry_of r.user_id vs ≡ e - unused_part r e now
      → ((j : ℕ) → r.user_id ≢ j → expiry_of j vs ≡ expiry_of j us)
      → All (Near r) rows
      → All (Within us) rows
      → All (Within vs) (update_where (λ x. true) revoked rows)
  unfolding update_where
  revoked-All us vs [] ro re eu ev ne n w = tt
  revoked-All us vs (x ∷ rows) ro re eu ev ne n w = (
    ground (
      arith,
      revoked_user x,
      ne x.user_id,
      revoked-Within x (expiry_of x.user_id us) ro re n.0 (λ h. ap (λ j. expiry_of j us) h ∙ eu)
          w.0.0 w.0.1,
    ),
    revoked-All us vs rows ro re eu ev ne n.1 w.1,
  )

  revoked-Pairs :
      (us : List User) (rows : List Interval)
      → r.starts_at ≤ r.ends_at
      → All (Near r) rows
      → All (Within us) rows
      → Pairs Apart rows
      → Pairs Apart (update_where (λ x. true) revoked rows)
  revoked-Pairs us rows ro n w a =
      Pairs-update_where Apart (λ x. Near r x × Within us x) Apart (λ x. true) revoked rows
        (λ x y h p q. revoked-Apart x y ro p.1.0 q.1.0 p.0 q.0 h) a (both rows n w)
    where
      both :
          (ys : List Interval)
          → All (Near r) ys
          → All (Within us) ys
          → All (λ x. Near r x × Within us x) ys
      both [] h k = tt
      both (y ∷ ys) h k = ((h.0, k.0), both ys h.1 k.1)

shorten_keeps : (remaining now : ℕ) (u : User) → (shorten_user remaining now u).id ≡ u.id
unfolding shorten_user
shorten_keeps remaining now u = refl

shorten_expiry :
    (remaining now : ℕ) (u : User)
    → or_zero (shorten_user remaining now u).membership_expires_at
      ≡ or_zero u.membership_expires_at - remaining
unfolding shorten_user
shorten_expiry remaining now u = ground arith

-- The effect of the refund on the user and on the intervals, where part of `r` is unused.
pub revoked-IsSound :
    (o : LdcOrder) (now : ℕ) (db : Db) (r : Interval) (u : User)
    → IsSound db
    → select_first (interval_of o.id) db.intervals ≡ some r
    → r.user_id ≡ o.user_id
    → select_first (user_is o.user_id) db.users ≡ some u
    → 0 < unused_part r (or_zero u.membership_expires_at) now
    → IsSound (record db {
      users =
          update_where
            (user_is o.user_id)
            (shorten_user (unused_part r (or_zero u.membership_expires_at) now) now)
            db.users;
      intervals = revoke_intervals o r (or_zero u.membership_expires_at) now db.intervals;
    })
revoked-IsSound o now db r u s e hu eu left = record {
  within = rw fused (
      revoked-All r expiry now left db.users users' db.intervals own.0 (rw (← full) own.1) full
        (rw hu (
          expiry_of-update o.user_id (shorten_user left_over now) db.users u
            (shorten_keeps left_over now) eu
          ∙ shorten_expiry left_over now u))
        (λ j h.
          expiry_of-ne o.user_id j (shorten_user left_over now) db.users
            (shorten_keeps left_over now) (λ q. h (hu ∙ q)))
        near s.within);
  apart =
      rw fused (revoked-Pairs r expiry now left db.users db.intervals own.0 near s.within s.apart);
}
  where
    expiry : ℕ
    expiry = or_zero u.membership_expires_at

    left_over : ℕ
    left_over = unused_part r expiry now

    users' : List User
    users' = update_where (user_is o.user_id) (shorten_user left_over now) db.users

    hit : o.id ≡ r.order_id
    hit = ground (arith, select_first-holds (interval_of o.id) db.intervals r e)

    fused :
        revoke_intervals o r expiry now db.intervals
        ≡ update_where (λ x. true) (revoked r expiry now left) db.intervals
    fused = revoked-fuse r expiry now left o db.intervals hit (sym hu)

    own : Within db.users r
    own = All-select_first (Within db.users) (interval_of o.id) db.intervals s.within e

    full : expiry_of r.user_id db.users ≡ expiry
    full = rw hu (expiry_of-select o.user_id db.users u eu)

    near : All (Near r) db.intervals
    near = Near-All o.id db.intervals r s.apart e
