-- ===== src/Store/Credits/Others.antt =====
-- The calls that do not touch the monthly credits, and every sequence of calls.
use relay_scope.Base.{select_first, ℕ, ◌≡◌, inl, inr, Bool, Option, some, List, arith, Option-cases}
use relay_scope.Base.Texts.{Text, trim_space}
use relay_scope.Store.{Db, LdcOrder, RefundStatus, Result, Result-cases, ok-cases}
use relay_scope.Store.Users.{Account, trimmed, account_is, put_user, upsert_user}
use relay_scope.Store.Membership.{extend_membership, set_setting}
use relay_scope.Store.Membership.Usernames.{
  set_membership_by_username, consume_membership_preregistration, set_user_membership,
  apply_membership, normalize_membership_username, expiry_argument, preregister,
}
use relay_scope.Store.Orders.{
  insert_order, fresh_order, check_order, reach_wish, reopen_wish, create_order, mark_order_paid,
  cancel_expired_orders, cancel_order, deliver, pay, settle,
}
use relay_scope.Store.Refunds.{
  mark_order_refunded, claim_platform_refund, record_platform_refund_result, refund, withdraw,
  revoke_order_membership, reopen,
}
use relay_scope.Store.Wishes.{
  create_wish_site, update_wish_site, delete_wish_site, StatusArgument, set_status, set_target,
  normalize_wish_domain, insert_wish,
}
use relay_scope.Store.Redeem.{
  redeem_code, redeem, grant_days, generate_redeem_codes, revoke_redeem_codes,
}
use relay_scope.Store.Credits.Budget.{IsBudgeted, consume-IsBudgeted}
use relay_scope.Store.Credits.Calls.{insert_order-credits, ensure-IsBudgeted, pledge-IsBudgeted}
use relay_scope.Store.Intervals.Steps.{Step, Run}

extend_membership-credits :
    (k days now : ℕ) (db : Db) → (extend_membership k days now db).0.credits ≡ db.credits
unfolding extend_membership
extend_membership-credits k days now db = ground arith

apply-credits :
    (provider username : Text) (expiry : Option ℕ) (now : ℕ) (db : Db)
    → (apply_membership provider username expiry now db).0.credits ≡ db.credits
unfolding apply_membership set_user_membership preregister
apply-credits provider username expiry now db = ground arith

set_by_username-credits :
    (provider name : Text) (e : Option (Option ℕ)) (now : ℕ) (db : Db)
    → (set_membership_by_username provider name e now db).0.credits ≡ db.credits
unfolding set_membership_by_username
set_by_username-credits provider name e now db =
    elim (ok-cases (normalize_membership_username name)) [
      | inl (x, bad) ↦ ground (arith, bad)
      | inr (username, good) ↦ elim (ok-cases (expiry_argument e)) [
        | inl (x, bad) ↦ ground (arith, bad, good)
        | inr (expiry, given) ↦
            let same = apply-credits (trim_space provider) username expiry now db in
            ground (arith, good, given, same)
      ]
    ]

consume_preregistration-credits :
    (provider name : Text) (k now : ℕ) (db : Db)
    → (consume_membership_preregistration provider name k now db).credits ≡ db.credits
unfolding consume_membership_preregistration
consume_preregistration-credits provider name k now db = ground arith

upsert_user-credits :
    (a : Account) (now : ℕ) (db : Db) → (upsert_user a now db).0.credits ≡ db.credits
unfolding upsert_user
upsert_user-credits raw now db =
    let a = trimmed raw in
    let db' = record db { users = put_user a now db.users } in
    elim (Option-cases (select_first (account_is a.provider a.external_id) db'.users)) [
      | inl missing ↦ ground (arith, missing)
      | inr (u, e) ↦
          let same = consume_preregistration-credits a.provider a.username u.id now db' in
          ground (arith, e, same)
    ]

create_order-credits :
    (o : LdcOrder) (now : ℕ) (db : Db) → (create_order o now db).0.credits ≡ db.credits
unfolding create_order
create_order-credits o now db = elim (Option-cases (check_order o)) [
  | inr (e, refused) ↦ ground (arith, refused)
  | inl fine ↦ elim (Result-cases (insert_order (fresh_order o now) db)) [
    | inl (e, failed) ↦ ground (arith, fine, failed)
    | inr (row, db', run) ↦
        let same = insert_order-credits (fresh_order o now) row db db' run in
        ground (arith, fine, run, same)
  ]
]

mark_order_paid-credits :
    (number trade_no : Text) (now : ℕ) (db : Db)
    → (mark_order_paid number trade_no now db).0.credits ≡ db.credits
unfolding mark_order_paid pay settle deliver reach_wish
mark_order_paid-credits number trade_no now db = ground arith

mark_order_refunded-credits :
    (id now : ℕ) (db : Db) → (mark_order_refunded id now db).0.credits ≡ db.credits
unfolding mark_order_refunded refund withdraw revoke_order_membership reopen reopen_wish
mark_order_refunded-credits id now db = ground arith

claim-credits : (id now : ℕ) (db : Db) → (claim_platform_refund id now db).0.credits ≡ db.credits
unfolding claim_platform_refund
claim-credits id now db = ground arith

record_result-credits :
    (id : ℕ) (s : RefundStatus) (now : ℕ) (db : Db)
    → (record_platform_refund_result id s now db).0.credits ≡ db.credits
unfolding record_platform_refund_result
record_result-credits id s now db = ground arith

update_wish-credits :
    (id : ℕ) (target : Option ℕ) (s : StatusArgument) (now : ℕ) (db : Db)
    → (update_wish_site id target s now db).0.credits ≡ db.credits
unfolding update_wish_site set_status set_target
update_wish-credits id target s now db = ground arith

delete_wish-credits : (id : ℕ) (db : Db) → (delete_wish_site id db).0.credits ≡ db.credits
unfolding delete_wish_site
delete_wish-credits id db = ground arith

redeem-credits :
    (k : ℕ) (code : Text) (now : ℕ) (db : Db) → (redeem_code k code now db).0.credits ≡ db.credits
unfolding redeem_code redeem grant_days
redeem-credits k code now db = ground arith

revoke-credits : (ids : List ℕ) (db : Db) → (revoke_redeem_codes ids db).0.credits ≡ db.credits
unfolding revoke_redeem_codes
revoke-credits ids db = ground arith

wish-credits :
    (parse_url : Text → Option (Text × Text)) (k : ℕ) (name url : Text) (invite : Bool)
    (target now : ℕ) (db : Db)
    → (create_wish_site parse_url k name url invite target now db).0.credits ≡ db.credits
unfolding create_wish_site insert_wish
wish-credits parse_url k name url invite target now db =
    elim (ok-cases (normalize_wish_domain parse_url url)) [
      | inl (e, bad) ↦ ground (arith, bad)
      | inr ((domain, address), good) ↦ ground (arith, good)
    ]

generate-credits :
    (draws : List Text) (count days : ℕ) (note : Text) (now : ℕ) (db db' : Db)
    (r : Result (List Text))
    → generate_redeem_codes draws count days note now db ≡ some (db', r)
    → db'.credits ≡ db.credits
unfolding generate_redeem_codes
generate-credits draws count days note now db db' r e = ground arith

module _ (parse_url : Text → Option (Text × Text)) where
  pub Step-IsBudgeted :
      {db db' : Db} → Step parse_url db db' → IsBudgeted db.credits → IsBudgeted db'.credits
  unfolding set_setting cancel_order cancel_expired_orders
  Step-IsBudgeted (Step.extend k days now db) h = rw (extend_membership-credits k days now db) h
  Step-IsBudgeted (Step.set_by_username provider name e now db) h =
      rw (set_by_username-credits provider name e now db) h
  Step-IsBudgeted (Step.login a now db) h = rw (upsert_user-credits a now db) h
  Step-IsBudgeted (Step.set_setting_value key value db) h = h
  Step-IsBudgeted (Step.create o now db) h = rw (create_order-credits o now db) h
  Step-IsBudgeted (Step.pay number trade_no now db) h =
      rw (mark_order_paid-credits number trade_no now db) h
  Step-IsBudgeted (Step.refund id now db) h = rw (mark_order_refunded-credits id now db) h
  Step-IsBudgeted (Step.cancel number db) h = h
  Step-IsBudgeted (Step.expire cutoff db) h = h
  Step-IsBudgeted (Step.claim id now db) h = rw (claim-credits id now db) h
  Step-IsBudgeted (Step.record_result id s now db) h = rw (record_result-credits id s now db) h
  Step-IsBudgeted (Step.make_wish k name url invite target now db) h =
      rw (wish-credits parse_url k name url invite target now db) h
  Step-IsBudgeted (Step.update_wish id target s now db) h =
      rw (update_wish-credits id target s now db) h
  Step-IsBudgeted (Step.delete_wish id db) h = rw (delete_wish-credits id db) h
  Step-IsBudgeted (Step.ensure_credit k grant now db) h = ensure-IsBudgeted k grant now db h
  Step-IsBudgeted (Step.consume_credit k amount now db) h = consume-IsBudgeted k amount now db h
  Step-IsBudgeted (Step.pledge_credit k site number amount grant now db) h =
      pledge-IsBudgeted k site number amount grant now db h
  Step-IsBudgeted (Step.redeem k code now db) h = rw (redeem-credits k code now db) h
  Step-IsBudgeted (Step.generate draws count days note now db {db' = db'} {r = r} e) h =
      rw (generate-credits draws count days note now db db' r e) h
  Step-IsBudgeted (Step.revoke ids db) h = rw (revoke-credits ids db) h

  -- Whatever calls of the store follow one another, the used part of every monthly credit stays within
  -- what was granted, and a user has at most one credit in a month.
  pub Run-IsBudgeted :
      {start db : Db} → IsBudgeted start.credits → Run parse_url start db → IsBudgeted db.credits
  Run-IsBudgeted h Run.here = h
  Run-IsBudgeted h (Run.next r s) = Step-IsBudgeted s (Run-IsBudgeted h r)
