-- ===== src/Store/Orders/Others.antt =====
-- The calls that do not touch the orders.
use relay_scope.Base.{select_first, Option-cases, ℕ, ◌≡◌, inl, inr, Bool, Option, some, List, arith}
use relay_scope.Base.Texts.{Text, trim_space}
use relay_scope.Store.{Db, LdcOrder, RefundStatus, Result, ok, ok-cases}
use relay_scope.Store.Users.{Account, trimmed, account_is, put_user, upsert_user}
use relay_scope.Store.Membership.{extend_membership}
use relay_scope.Store.Membership.Usernames.{
  set_membership_by_username, consume_membership_preregistration, set_user_membership,
  apply_membership, normalize_membership_username, expiry_argument, preregister,
}
use relay_scope.Store.Orders.{reopen_wish}
use relay_scope.Store.Refunds.{
  claim_platform_refund, record_platform_refund_result, withdraw, revoke_order_membership, reopen,
}
use relay_scope.Store.Wishes.{
  create_wish_site, update_wish_site, StatusArgument, set_status, set_target, normalize_wish_domain,
  insert_wish,
}
use relay_scope.Store.Credits.{ensure_monthly_credit, consume_monthly_credit}
use relay_scope.Store.Redeem.{
  redeem_code, redeem, grant_days, generate_redeem_codes, revoke_redeem_codes,
}

pub extend_membership-orders :
    (k days now : ℕ) (db : Db) → (extend_membership k days now db).0.orders ≡ db.orders
unfolding extend_membership
extend_membership-orders k days now db = ground arith

apply-orders :
    (provider username : Text) (expiry : Option ℕ) (now : ℕ) (db : Db)
    → (apply_membership provider username expiry now db).0.orders ≡ db.orders
unfolding apply_membership set_user_membership preregister
apply-orders provider username expiry now db = ground arith

pub set_by_username-orders :
    (provider name : Text) (e : Option (Option ℕ)) (now : ℕ) (db : Db)
    → (set_membership_by_username provider name e now db).0.orders ≡ db.orders
unfolding set_membership_by_username
set_by_username-orders provider name e now db =
    elim (ok-cases (normalize_membership_username name)) [
      | inl (x, bad) ↦ ground (arith, bad)
      | inr (username, good) ↦ elim (ok-cases (expiry_argument e)) [
        | inl (x, bad) ↦ ground (arith, bad, good)
        | inr (expiry, given) ↦
            let same = apply-orders (trim_space provider) username expiry now db in
            ground (arith, good, given, same)
      ]
    ]

consume_preregistration-orders :
    (provider name : Text) (k now : ℕ) (db : Db)
    → (consume_membership_preregistration provider name k now db).orders ≡ db.orders
unfolding consume_membership_preregistration
consume_preregistration-orders provider name k now db = ground arith

pub upsert_user-orders :
    (a : Account) (now : ℕ) (db : Db) → (upsert_user a now db).0.orders ≡ db.orders
unfolding upsert_user
upsert_user-orders raw now db =
    let a = trimmed raw in
    let db' = record db { users = put_user a now db.users } in
    elim (Option-cases (select_first (account_is a.provider a.external_id) db'.users)) [
      | inl missing ↦ ground (arith, missing)
      | inr (u, e) ↦
          let same = consume_preregistration-orders a.provider a.username u.id now db' in
          ground (arith, e, same)
    ]

pub claim-orders : (id now : ℕ) (db : Db) → (claim_platform_refund id now db).0.orders ≡ db.orders
unfolding claim_platform_refund
claim-orders id now db = ground arith

pub record_result-orders :
    (id : ℕ) (s : RefundStatus) (now : ℕ) (db : Db)
    → (record_platform_refund_result id s now db).0.orders ≡ db.orders
unfolding record_platform_refund_result
record_result-orders id s now db = ground arith

pub update_wish-orders :
    (id : ℕ) (target : Option ℕ) (s : StatusArgument) (now : ℕ) (db : Db)
    → (update_wish_site id target s now db).0.orders ≡ db.orders
unfolding update_wish_site set_status set_target
update_wish-orders id target s now db = ground arith

pub redeem-orders :
    (k : ℕ) (code : Text) (now : ℕ) (db : Db) → (redeem_code k code now db).0.orders ≡ db.orders
unfolding redeem_code redeem grant_days
redeem-orders k code now db = ground arith

pub revoke-orders : (ids : List ℕ) (db : Db) → (revoke_redeem_codes ids db).0.orders ≡ db.orders
unfolding revoke_redeem_codes
revoke-orders ids db = ground arith

pub wish-orders :
    (parse_url : Text → Option (Text × Text)) (k : ℕ) (name url : Text) (invite : Bool)
    (target now : ℕ) (db : Db)
    → (create_wish_site parse_url k name url invite target now db).0.orders ≡ db.orders
unfolding create_wish_site insert_wish
wish-orders parse_url k name url invite target now db =
    elim (ok-cases (normalize_wish_domain parse_url url)) [
      | inl (e, bad) ↦ ground (arith, bad)
      | inr ((domain, address), good) ↦ ground (arith, good)
    ]

pub generate-orders :
    (draws : List Text) (count days : ℕ) (note : Text) (now : ℕ) (db db' : Db)
    (r : Result (List Text))
    → generate_redeem_codes draws count days note now db ≡ some (db', r)
    → db'.orders ≡ db.orders
unfolding generate_redeem_codes
generate-orders draws count days note now db db' r e = ground arith

pub ensure-orders :
    (k grant now : ℕ) (db : Db) → (ensure_monthly_credit k grant now db).0.orders ≡ db.orders
unfolding ensure_monthly_credit
ensure-orders k grant now db = ground arith

pub consume-orders :
    (k amount now : ℕ) (db : Db) → (consume_monthly_credit k amount now db).0.orders ≡ db.orders
unfolding consume_monthly_credit
consume-orders k amount now db = ground arith

pub withdraw-orders :
    (o a : LdcOrder) (now : ℕ) (db db' : Db)
    → withdraw o now db ≡ ok (a, db')
    → db'.orders ≡ db.orders
unfolding withdraw revoke_order_membership reopen reopen_wish
withdraw-orders o a now db db' h = ground arith
