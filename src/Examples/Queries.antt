-- ===== src/Examples/Queries.antt =====
-- Logins with a membership that was registered for their name.
use relay_scope.Base.{
  ℕ, ◌≡◌, refl, none, some, [], ◌∷◌, exists_where, select_first, update_where, select_where,
}
use relay_scope.Base.Texts.{codes, trim_space, to_lower}
use relay_scope.Store.{User, Db}
use relay_scope.Store.Users.{
  account_is, Account, trimmed, is_bad_account, put_user, login_row, upsert_user,
  get_user_by_external_id, shown_user,
}
use relay_scope.Store.Membership.Usernames.{
  preregistration_is, username_key, consume_membership_preregistration, keep_later_expiry,
  drop_preregistration,
}
use relay_scope.Store.Intervals.{expiry_of}
use relay_scope.Store.Intervals.Login.{upsert_user_lem, with_registered, registered_expiry}
use relay_scope.Examples.Shop.{shop, buyer}

abbrev ada : Account
ada = record {
  provider = codes "linuxdo";
  external_id = codes "77";
  username = codes "Ada";
  name = codes "Ada L";
  avatar_url = [];
  trust_level = 3;
}

abbrev awaited : Db
awaited = record shop {
  preregistrations =
      record {
        provider = codes "linuxdo";
        username = codes "ADA";
        username_key = codes "ada";
        expires_at = 9000;
        created_at = 1;
        updated_at = 1;
      }
      ∷ [];
}

abbrev welcomed : Db
welcomed = (upsert_user ada 2000 awaited).0

upsert_user_lem_example :
    (w : User) × (select_first
        (account_is (trimmed ada).provider (trimmed ada).external_id)
        welcomed.users
      ≡ some w)
    × ((j : ℕ)
        → expiry_of j welcomed.users
          ≡ with_registered w.id
              (registered_expiry
                (trimmed ada).provider
                (username_key (trimmed ada).username)
                awaited.preregistrations)
              j
              (expiry_of j awaited.users))
    × (select_first
          (preregistration_is (trimmed ada).provider (username_key (trimmed ada).username))
          welcomed.preregistrations
        ≡ none)
unfolding upsert_user trimmed is_bad_account trim_space put_user login_row get_user_by_external_id
    shown_user select_first exists_where update_where consume_membership_preregistration
    keep_later_expiry drop_preregistration select_where to_lower username_key
upsert_user_lem_example =
    upsert_user_lem ada 2000 awaited welcomed (shown_user (login_row ada 2000 buyer)) refl
