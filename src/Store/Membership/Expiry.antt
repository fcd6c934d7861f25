-- ===== src/Store/Membership/Expiry.antt =====
-- What an extension does to the user it names and to all others.
use relay_scope.Base.{
  ℕ, ◌+◌, ◌*◌, ◌<◌, ◌≤◌, max, ◌≡◌, ◌≢◌, refl, Bool, true, ◌||◌, some, ◌==◌, ltb, or_zero, arith,
  select_first, select_first-update_where, select_first-update_ne, select_first-holds,
}
use relay_scope.Store.{User, Db, ok, user_is, day_millis}
use relay_scope.Store.Membership.{
  membership_from_millis, extended, extend_user, get_membership, extend_membership,
}

bad_days : ℕ → ℕ → Bool
bad_days user days = user == 0 || days == 0 || ltb 3650 days

-- An extension of an existing user by 1 to 3650 days answers with an active membership that ends that
-- many days after the old expiry, or after now where there was none or it had passed; reading the
-- membership back at any time gives that expiry.
pub extend_membership-get :
    (user days now later : ℕ) (db : Db) (u : User)
    → select_first (user_is user) db.users ≡ some u
    → 0 < user
    → 0 < days
    → days ≤ 3650
    → ((extend_membership user days now db).1
        ≡ ok (record {
          expires_at = some (max (or_zero u.membership_expires_at) now + days * day_millis);
          active = true;
        }))
      × (get_membership user later (extend_membership user days now db).0
          ≡ ok (membership_from_millis (some (extended u.membership_expires_at now days)) later))
unfolding extend_membership get_membership membership_from_millis extend_user
extend_membership-get user days now later db u eu hu hd hmax =
    let kept =
      select_first-update_where (user_is user) (user_is user) (extend_user now days) db.users u
        (λ v. refl) eu in
    let hit = select_first-holds (user_is user) db.users u eu in
    (ground (arith, kept, hit), ground (arith, kept, hit))

-- The membership of every other user is what it was.
pub extend_membership-others :
    (user other days now later : ℕ) (db : Db)
    → user ≢ other
    → get_membership other later (extend_membership user days now db).0
      ≡ get_membership other later db
unfolding extend_membership get_membership extend_user
extend_membership-others user other days now later db ne =
    let same =
      select_first-update_ne (user_is other) (user_is user) (extend_user now days) db.users
        (λ v. refl) (λ v hit. ground (arith, hit)) in
    ground (arith, same)
