-- ===== src/Store/Users.antt =====
-- internal/store/feedback.go: users, who are created or brought up to date at a login and then take over
-- a membership that was registered for their name.
use relay_scope.Base.{
  ℕ, Bool, ◌&&◌, ◌||◌, Option, none, some, List, [], ◌∷◌, ◌++◌, ltb, if◌then◌else◌, length,
  select_first, update_where, exists_where, next_id,
}
use relay_scope.Base.Texts.{Text, text_eq, is_empty, trim_space}
use relay_scope.Store.{User, Db, no_rows, invalid_user, Result, ok, err, user_is}
use relay_scope.Store.Membership.Usernames.{consume_membership_preregistration}

-- The arguments of UpsertUser. A negative trust level is outside of the model.
pub record Account : Type 0 where
  pub provider : Text
  pub external_id : Text
  pub username : Text
  pub name : Text
  pub avatar_url : Text
  pub trust_level : ℕ

unfoldable pub trimmed : Account → Account
trimmed a = record a {
  provider = trim_space a.provider;
  external_id = trim_space a.external_id;
  username = trim_space a.username;
}

unfoldable pub is_bad_account : Account → Bool
is_bad_account a =
    is_empty a.provider
    || is_empty a.external_id
    || is_empty a.username
    || ltb 100 (length a.provider)
    || ltb 200 (length a.external_id)
    || ltb 200 (length a.username)
    || ltb 200 (length a.name)
    || ltb 1000 (length a.avatar_url)
    || ltb 10 a.trust_level

abbrev pub account_is : Text → Text → User → Bool
account_is provider external_id u = text_eq u.provider provider && text_eq u.external_id external_id

unfoldable pub new_user : Account → ℕ → List User → User
new_user a now rows = record {
  id = next_id (λ u. u.id) rows;
  provider = a.provider;
  external_id = a.external_id;
  username = a.username;
  name = trim_space a.name;
  avatar_url = trim_space a.avatar_url;
  trust_level = a.trust_level;
  membership_expires_at = none;
  registered_at = some now;
  created_at = now;
  updated_at = now;
}

-- COALESCE of the first registration and this one.
abbrev pub first_of : Option ℕ → ℕ → Option ℕ
first_of none now = some now
first_of (some t) now = some t

unfoldable pub login_row : Account → ℕ → User → User
login_row a now u = record u {
  username = a.username;
  name = trim_space a.name;
  avatar_url = trim_space a.avatar_url;
  trust_level = a.trust_level;
  registered_at = first_of u.registered_at now;
  updated_at = now;
}

-- INSERT … ON CONFLICT(provider, external_id) DO UPDATE
unfoldable pub put_user : Account → ℕ → List User → List User
unfolding new_user login_row
put_user a now rows =
    if exists_where (account_is a.provider a.external_id) rows
    then update_where (account_is a.provider a.external_id) (login_row a now) rows
    else rows ++ new_user a now rows ∷ []

-- The answer leaves out the membership and the time of the update.
unfoldable pub shown_user : User → User
shown_user u = record u { membership_expires_at = none; updated_at = 0 }

unfoldable pub get_user_by_external_id : Text → Text → Db → Result User
unfolding shown_user
get_user_by_external_id provider external_id db =
    elim (select_first (account_is (trim_space provider) (trim_space external_id)) db.users) [
      | none ↦ err no_rows
      | some u ↦ ok (shown_user u)
    ]

unfoldable pub get_user : ℕ → Db → Result User
unfolding shown_user
get_user id db = elim (select_first (user_is id) db.users) [
  | none ↦ err no_rows
  | some u ↦ ok (shown_user u)
]

unfoldable pub upsert_user : Account → ℕ → Db → Db × Result User
unfolding trimmed is_bad_account put_user get_user_by_external_id
upsert_user raw now db =
    let a = trimmed raw in
    if is_bad_account a
    then (db, err invalid_user)
    else let db' = record db { users = put_user a now db.users } in
      elim (select_first (account_is a.provider a.external_id) db'.users) [
        | none ↦ (db, err no_rows)
        | some u ↦
            let db2 = consume_membership_preregistration a.provider a.username u.id now db' in
            (db2, get_user_by_external_id a.provider a.external_id db2)
      ]
