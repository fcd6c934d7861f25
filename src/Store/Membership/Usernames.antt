-- ===== src/Store/Membership/Usernames.antt =====
-- internal/store/membership.go, membership by user name, and clipMembershipIntervals of
-- internal/store/membership_refunds.go. A length in bytes is a length in characters here.
use relay_scope.Base.{
  ℕ, max, min, Bool, true, false, ◌&&◌, ◌||◌, Option, none, some, List, [], ◌∷◌, ◌++◌, ltb, ◌==◌,
  if◌then◌else◌, or_zero, is_some, length, select_first, update_where, select_where, exists_where,
  not,
}
use relay_scope.Base.Texts.{Text, text_eq, codes, is_empty, to_lower, trim_space, trim_prefix}
use relay_scope.Store.{
  User, Interval, Preregistration, Db, no_rows, invalid_username, invalid_provider, invalid_expiry,
  constraint, Result, ok, err, user_is,
}
use relay_scope.Store.Membership.{
  MemberUser, member_of_user, member_of_preregistration, blank_member,
}

unfoldable pub normalize_membership_username : Text → Result Text
unfolding trim_space trim_prefix
normalize_membership_username value =
    let username = trim_space (trim_prefix (codes "@") (trim_space value)) in
    if is_empty username || ltb 200 (length username) then err invalid_username else ok username

unfoldable pub username_key : Text → Text
username_key username = to_lower username

-- WHERE provider = ? AND LOWER(username) = ?
abbrev pub named : Text → Text → User → Bool
named provider key u = text_eq u.provider provider && text_eq (to_lower u.username) key

-- ORDER BY CASE WHEN registered_at IS NULL THEN 1 ELSE 0 END, id
unfoldable pub registered_first : User → User → Bool
registered_first u v =
    if is_some u.registered_at
    then (if is_some v.registered_at then ltb u.id v.id else true)
    else (if is_some v.registered_at then false else ltb u.id v.id)

-- The rows of the test in that order, LIMIT 1.
unfoldable pub select_user : (User → Bool) → List User → Option User
unfolding registered_first
select_user p [] = none
select_user p (u ∷ rest) =
    let best = select_user p rest in
    if p u
    then elim best [ none ↦ some u | some v ↦ if registered_first v u then some v else some u ]
    else best

abbrev pub preregistration_is : Text → Text → Preregistration → Bool
preregistration_is provider key p = text_eq p.provider provider && text_eq p.username_key key

unfoldable pub get_member_by_user_id : ℕ → ℕ → Db → Result MemberUser
get_member_by_user_id user_id now db = elim (select_first (user_is user_id) db.users) [
  | none ↦ err no_rows
  | some u ↦ ok (member_of_user now u)
]

-- The look-up behind the checks of the name.
unfoldable pub find_preregistration : Text → Text → ℕ → Db → Result MemberUser
find_preregistration provider username now db =
    elim (select_first (preregistration_is provider (username_key username)) db.preregistrations) [
      | none ↦ err no_rows
      | some p ↦ ok (member_of_preregistration now p)
    ]

unfoldable pub get_membership_preregistration : Text → Text → ℕ → Db → Result MemberUser
get_membership_preregistration provider raw_username now db =
    elim (normalize_membership_username raw_username) [
      | err e ↦ err e
      | ok username ↦ find_preregistration (trim_space provider) username now db
    ]

unfoldable pub get_member_by_username : Text → Text → ℕ → Db → Result MemberUser
get_member_by_username provider raw_username now db =
    elim (normalize_membership_username raw_username) [
      | err e ↦ err e
      | ok username ↦
          elim (select_user (named (trim_space provider) (username_key username)) db.users) [
            | some u ↦ get_member_by_user_id u.id now db
            | none ↦ get_membership_preregistration (trim_space provider) username now db
          ]
    ]

-- UPDATE membership_order_intervals: the tail beyond the new expiry goes.
unfoldable pub clip_interval : ℕ → Interval → Interval
clip_interval e i = record i { starts_at = min i.starts_at e; ends_at = min i.ends_at e }

abbrev pub clipped_by : ℕ → ℕ → Interval → Bool
clipped_by user_id e i = i.user_id == user_id && ltb e i.ends_at

unfoldable pub clip_membership_intervals : ℕ → Option ℕ → List Interval → List Interval
unfolding clip_interval
clip_membership_intervals user_id expiry =
    update_where (clipped_by user_id (or_zero expiry)) (clip_interval (or_zero expiry))

unfoldable pub drop_preregistration : Text → Text → List Preregistration → List Preregistration
drop_preregistration provider key = select_where (λ p. not (preregistration_is provider key p))

unfoldable pub set_expiry : Option ℕ → ℕ → User → User
set_expiry expiry now u = record u { membership_expires_at = expiry; updated_at = now }

-- The branch of a user who has logged in.
unfoldable pub set_user_membership : Text → Text → ℕ → Option ℕ → ℕ → Db → Db
unfolding set_expiry
set_user_membership provider key user_id expiry now db = record db {
  intervals = clip_membership_intervals user_id expiry db.intervals;
  users = update_where (user_is user_id) (set_expiry expiry now) db.users;
  preregistrations = drop_preregistration provider key db.preregistrations;
}

-- The branch of a user who has not: INSERT … ON CONFLICT DO UPDATE, under CHECK (expires > 0).
unfoldable pub preregister : Text → Text → ℕ → ℕ → Db → Db
preregister provider username expiry now db = record db {
  preregistrations =
      if exists_where (preregistration_is provider (username_key username)) db.preregistrations
      then update_where (preregistration_is provider (username_key username))
          (λ p. record p { username = username; expires_at = expiry; updated_at = now })
          db.preregistrations
      else db.preregistrations
        ++ record {
          provider = provider;
          username = username;
          username_key = username_key username;
          expires_at = expiry;
          created_at = now;
          updated_at = now;
        }
          ∷ [];
}

-- The transaction behind the checks, with the answer that follows the commit.
unfoldable pub apply_membership : Text → Text → Option ℕ → ℕ → Db → Db × Result MemberUser
apply_membership provider username expiry now db =
    elim (select_user (named provider (username_key username)) db.users) [
      | some u ↦
          let db' = set_user_membership provider (username_key username) u.id expiry now db in
          (db', get_member_by_user_id u.id now db')
      | none ↦ elim expiry [
        | none ↦ (
          record db {
            preregistrations =
                drop_preregistration provider (username_key username) db.preregistrations;
          },
          ok (blank_member username now),
        )
        | some e ↦
            if e == 0
            then (db, err constraint)
            else let db' = preregister provider username e now db in
              (db', get_membership_preregistration provider username now db')
      ]
    ]

-- `some none` is a pointer to the zero time, which is refused.
unfoldable pub expiry_argument : Option (Option ℕ) → Result (Option ℕ)
expiry_argument none = ok none
expiry_argument (some none) = err invalid_expiry
expiry_argument (some (some t)) = ok (some t)

unfoldable pub set_membership_by_username :
    Text → Text → Option (Option ℕ) → ℕ → Db → Db × Result MemberUser
unfolding expiry_argument
set_membership_by_username provider raw_username expires_at now db =
    elim (normalize_membership_username raw_username) [
      | err e ↦ (db, err e)
      | ok username ↦
          let p = trim_space provider in
          if is_empty p || ltb 100 (length p)
          then (db, err invalid_provider)
          else elim (expiry_argument expires_at) [
            | err e ↦ (db, err e)
            | ok expiry ↦ apply_membership p username expiry now db
          ]
    ]

unfoldable pub keep_later_expiry : ℕ → ℕ → User → User
keep_later_expiry expires now u = record u {
  membership_expires_at = some (max (or_zero u.membership_expires_at) expires);
  updated_at = now;
}

-- At a login the registered expiry is taken over, and the preregistration is used up.
unfoldable pub consume_membership_preregistration : Text → Text → ℕ → ℕ → Db → Db
unfolding keep_later_expiry
consume_membership_preregistration provider username user_id now db =
    elim (select_first (preregistration_is provider (username_key username)) db.preregistrations) [
      | none ↦ db
      | some p ↦ record db {
        users = update_where (user_is user_id) (keep_later_expiry p.expires_at now) db.users;
        preregistrations =
            drop_preregistration provider (username_key username) db.preregistrations;
      }
    ]
