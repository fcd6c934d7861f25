-- ===== src/Store/Intervals/Clip.antt =====
-- An expiry that an administrator sets (SetMembershipByUsername) clips the bought intervals to it.
use relay_scope.Base.{
  ℕ, ◌≤◌, ◌≡◌, refl, inl, inr, false, Option, none, some, List, [], ◌∷◌, ◌==◌, if◌then◌else◌,
  or_zero, All, arith, Bool-cases, select_first, update_where, exists_where, updated,
  Pairs-update_where, ap,
}
use relay_scope.Base.Texts.{Text}
use relay_scope.Store.{User, Interval, Db, user_is}
use relay_scope.Store.Membership.Usernames.{
  clip_interval, clipped_by, clip_membership_intervals, set_expiry, set_user_membership,
  apply_membership, preregister, select_user, named, username_key,
}
use relay_scope.Store.Intervals.{expiry_of, Apart, Within, IsSound, expiry_of-ne}
use relay_scope.Store.Intervals.Links.{IsLedger, Links-update_rows}

expiry_of-set :
    (i : ℕ) (e : Option ℕ) (now : ℕ) (us : List User)
    → expiry_of i (update_where (user_is i) (set_expiry e now) us)
      ≡ (if exists_where (user_is i) us then or_zero e else 0)
unfolding expiry_of update_where exists_where select_first set_expiry
expiry_of-set i e now [] = refl
expiry_of-set i e now (u ∷ us) = ground (arith, expiry_of-set i e now us)

expiry_of-missing :
    (i : ℕ) (us : List User) → exists_where (user_is i) us ≡ false → expiry_of i us ≡ 0
unfolding expiry_of exists_where select_first
expiry_of-missing i [] h = refl
expiry_of-missing i (u ∷ us) h = ground (arith, expiry_of-missing i us)

module _ (k : ℕ) (e : Option ℕ) where
  clipped : Interval → Interval
  clipped = updated (clipped_by k (or_zero e)) (clip_interval (or_zero e))

  clipped-Apart :
      (x y : Interval)
      → x.starts_at ≤ x.ends_at
      → y.starts_at ≤ y.ends_at
      → Apart x y
      → Apart (clipped x) (clipped y)
  unfolding clipped clip_interval
  clipped-Apart x y hx hy a = ground arith

  clipped-Within :
      (x : Interval) (now : ℕ) (us : List User)
      → Within us x
      → Within (update_where (user_is k) (set_expiry e now) us) (clipped x)
  unfolding clipped clip_interval
  clipped-Within x now us w = elim (Bool-cases (x.user_id == k)) [
    | inl same ↦
        let here : x.user_id ≡ k = ground (arith, same) in
        ground (
          arith,
          same,
          here,
          expiry_of-set k e now us,
          expiry_of-missing k us,
          ap (λ j. expiry_of j us) here,
          ap (λ j. expiry_of j (update_where (user_is k) (set_expiry e now) us)) here,
        )
    | inr other ↦ ground (
      arith,
      other,
      expiry_of-ne k x.user_id (set_expiry e now) us (λ u. unfold set_expiry in refl)
          (λ q. absurd (ground (arith, q, other))),
    )
  ]

  clipped-All :
      (now : ℕ) (us : List User) (rows : List Interval)
      → All (Within us) rows
      → All
          (Within (update_where (user_is k) (set_expiry e now) us))
          (clip_membership_intervals k e rows)
  unfolding clip_membership_intervals update_where
  clipped-All now us [] w = tt
  clipped-All now us (x ∷ rows) w =
      (unfold clipped in clipped-Within x now us w.0, clipped-All now us rows w.1)

  clip-IsSound :
      (now : ℕ) (db : Db)
      → IsSound db
      → IsSound (record db {
        users = update_where (user_is k) (set_expiry e now) db.users;
        intervals = clip_membership_intervals k e db.intervals;
      })
  unfolding clip_membership_intervals clipped
  clip-IsSound now db s = record {
    within = clipped-All now db.users db.intervals s.within;
    apart =
        Pairs-update_where Apart (Within db.users) Apart (clipped_by k (or_zero e))
          (clip_interval (or_zero e)) db.intervals (λ x y a wx wy. clipped-Apart x y wx.0 wy.0 a)
          s.apart s.within;
  }

pub set_user-IsLedger :
    (provider key : Text) (k : ℕ) (e : Option ℕ) (now : ℕ) (db : Db)
    → IsLedger db
    → IsLedger (set_user_membership provider key k e now db)
unfolding set_user_membership
set_user-IsLedger provider key k e now db h = record {
  sound = record {
    within = (clip-IsSound k e now db h.sound).within;
    apart = (clip-IsSound k e now db h.sound).apart;
  };
  links =
      unfold clip_membership_intervals in
      Links-update_rows (clipped_by k (or_zero e)) (clip_interval (or_zero e)) db.orders
        db.intervals (λ i. unfold clip_interval in refl) (λ i. unfold clip_interval in refl)
        h.links;
}

pub preregister-IsLedger :
    (provider username : Text) (e : Option ℕ) (now : ℕ) (db : Db)
    → IsLedger db
    → select_user (named provider (username_key username)) db.users ≡ none
    → IsLedger (apply_membership provider username e now db).0
unfolding apply_membership preregister
preregister-IsLedger provider username none now db h missing =
    rw (missing, apply_membership)
      (record {
        sound = record { within = h.sound.within; apart = h.sound.apart };
        links = h.links;
      })
preregister-IsLedger provider username (some e) now db h missing = elim (Bool-cases (e == 0)) [
  | inl refused ↦ rw (missing, apply_membership, refused) h
  | inr fine ↦
      rw (missing, apply_membership, fine)
        (record {
          sound = record { within = h.sound.within; apart = h.sound.apart };
          links = h.links;
        })
]
