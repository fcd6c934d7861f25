-- ===== src/Store/Membership.antt =====
-- internal/store/membership.go: the expiry of a user's membership, extended, read, set by an
-- administrator, and registered ahead of the first login. `now` is the clock in milliseconds.
pub mod Usernames
pub mod Expiry
use relay_scope.Base.{
  ℕ, ◌+◌, ◌*◌, max, min, Bool, true, false, not, ◌&&◌, ◌||◌, Option, none, some, List, [], ◌∷◌,
  ◌++◌, map, ltb, leb, ◌==◌, if◌then◌else◌, or_zero, is_some, length, select_first, select_where,
  update_where, exists_where,
}
use relay_scope.Base.Texts.{Text, text_eq, codes, is_empty, to_lower, trim_space, trim_prefix}
use relay_scope.Store.{
  User, Interval, Preregistration, Setting, Db, Error, no_rows, invalid_extension, invalid_username,
  invalid_provider, invalid_expiry, constraint, Result, ok, err, Tx, ◌>>=◌, ◌>>◌, pure, fail, found,
  transaction, day_millis, user_is,
}

pub record Membership : Type 0 where
  pub expires_at : Option ℕ
  pub active : Bool

-- A time that is nil or not after the epoch counts as never opened.
unfoldable pub membership_from_millis : Option ℕ → ℕ → Membership
membership_from_millis none now = record { expires_at = none; active = false }
membership_from_millis (some t) now =
    if t == 0
    then record { expires_at = none; active = false }
    else record { expires_at = some t; active = ltb now t }

-- The expression `MAX(COALESCE(membership_expires_at, 0), now) + days * dayMillis`.
abbrev pub extended : Option ℕ → ℕ → ℕ → ℕ
extended expires now days = max (or_zero expires) now + days * day_millis

unfoldable pub extend_user : ℕ → ℕ → User → User
extend_user now days u = record u {
  membership_expires_at = some (extended u.membership_expires_at now days);
  updated_at = now;
}

unfoldable pub get_membership : ℕ → ℕ → Db → Result Membership
get_membership user_id now db = elim (select_first (user_is user_id) db.users) [
  | none ↦ err no_rows
  | some u ↦ ok (membership_from_millis u.membership_expires_at now)
]

unfoldable pub extend_membership : ℕ → ℕ → ℕ → Db → Db × Result Membership
extend_membership user_id days now db =
    if user_id == 0 || days == 0 || ltb 3650 days
    then (db, err invalid_extension)
    else let db' = record db {
      users = update_where (user_is user_id) (extend_user now days) db.users;
    } in
      (db', get_membership user_id now db')

-- Settings of `app_meta`.
abbrev pub setting_is : Text → Setting → Bool
setting_is k s = text_eq s.key k

unfoldable pub get_setting : Text → Text → Db → Text
get_setting key fallback db = elim (select_first (setting_is key) db.settings) [
  | none ↦ fallback
  | some s ↦ s.value
]

unfoldable pub set_setting : Text → Text → Db → Db
set_setting key value db = record db {
  settings =
      if exists_where (setting_is key) db.settings
      then update_where (setting_is key) (λ s. record s { value = value }) db.settings
      else db.settings ++ record { key = key; value = value } ∷ [];
}

-- The views of users and preregistrations that the administration lists.
pub record MemberUser : Type 0 where
  pub id : ℕ
  pub username : Text
  pub name : Text
  pub trust_level : ℕ
  pub membership_expires_at : Option ℕ
  pub active : Bool
  pub registered_at : Option ℕ
  pub registered : Bool
  pub pre_registered : Bool
  pub created_at : ℕ

unfoldable pub apply_member_expiry : MemberUser → Option ℕ → ℕ → MemberUser
apply_member_expiry m none now = m
apply_member_expiry m (some t) now =
    if t == 0 then m else record m { membership_expires_at = some t; active = ltb now t }

unfoldable pub blank_member : Text → ℕ → MemberUser
blank_member username created_at = record {
  id = 0;
  username = username;
  name = [];
  trust_level = 0;
  membership_expires_at = none;
  active = false;
  registered_at = none;
  registered = false;
  pre_registered = false;
  created_at = created_at;
}

unfoldable pub member_of_user : ℕ → User → MemberUser
unfolding apply_member_expiry blank_member
member_of_user now u =
    apply_member_expiry
      (record (blank_member u.username u.created_at) {
        id = u.id;
        name = u.name;
        trust_level = u.trust_level;
        registered_at = u.registered_at;
        registered = is_some u.registered_at;
        pre_registered = not (is_some u.registered_at);
      })
      u.membership_expires_at now

unfoldable pub member_of_preregistration : ℕ → Preregistration → MemberUser
unfolding apply_member_expiry blank_member
member_of_preregistration now p =
    apply_member_expiry (record (blank_member p.username p.created_at) { pre_registered = true })
      (some p.expires_at) now

-- A preregistration is listed with its expiry as it stands.
unfoldable pub listed_preregistration : ℕ → Preregistration → MemberUser
unfolding blank_member
listed_preregistration now p = record (blank_member p.username p.created_at) {
  membership_expires_at = some p.expires_at;
  active = ltb now p.expires_at;
  pre_registered = true;
}

-- The latest expiry first; a member without one stays behind.
unfoldable pub expires_later : MemberUser → MemberUser → Bool
expires_later a b = elim a.membership_expires_at [
  | none ↦ false
  | some x ↦ elim b.membership_expires_at [ none ↦ true | some y ↦ ltb y x ]
]

unfoldable pub insert_member : MemberUser → List MemberUser → List MemberUser
unfolding expires_later
insert_member m [] = m ∷ []
insert_member m (n ∷ rest) = if expires_later n m then n ∷ insert_member m rest else m ∷ n ∷ rest

unfoldable pub sort_members : List MemberUser → List MemberUser
unfolding insert_member
sort_members [] = []
sort_members (m ∷ rest) = insert_member m (sort_members rest)

abbrev pub linux_do : Text
linux_do = codes "linuxdo"

unfoldable pub list_members : ℕ → Db → List MemberUser
unfolding sort_members member_of_user listed_preregistration
list_members now db = sort_members (
    map (member_of_user now) (select_where (λ u. ltb 0 (or_zero u.membership_expires_at)) db.users)
    ++ map (listed_preregistration now)
        (select_where (λ p. text_eq p.provider linux_do) db.preregistrations))
