-- ===== src/Store/Intervals/Steps.antt =====
-- Every call that changes the database as a step, and what holds after any sequence of calls.
use relay_scope.Base.{ℕ, ◌≡◌, refl, Bool, Option, some, List, inl, inr, arith}
use relay_scope.Base.Texts.{Text}
use relay_scope.Store.{LdcOrder, Db, RefundStatus, Result, ok-cases}
use relay_scope.Store.Membership.{extend_membership, set_setting}
use relay_scope.Store.Membership.Usernames.{set_membership_by_username}
use relay_scope.Store.Orders.{
  create_order, mark_order_paid, cancel_expired_orders, cancel_order, expired_at, pending_no,
}
use relay_scope.Store.Refunds.{
  mark_order_refunded, claim_platform_refund, record_platform_refund_result,
}
use relay_scope.Store.Wishes.{
  create_wish_site, update_wish_site, delete_wish_site, StatusArgument, normalize_wish_domain,
}
use relay_scope.Store.Credits.{ensure_monthly_credit, consume_monthly_credit, pledge_monthly_credit}
use relay_scope.Store.Redeem.{redeem_code, generate_redeem_codes, revoke_redeem_codes}
use relay_scope.Store.Users.{Account, upsert_user}
use relay_scope.Store.Intervals.Login.{upsert-IsLedger}
use relay_scope.Store.Intervals.Links.{IsLedger}
use relay_scope.Store.Intervals.Payment.{pay-IsLedger}
use relay_scope.Store.Intervals.Edits.{refund-IsLedger}
use relay_scope.Store.Intervals.Removal.{delete_wish-IsLedger}
use relay_scope.Store.Intervals.Spending.{pledge_credit-IsLedger, redeem-IsLedger}
use relay_scope.Store.Intervals.Calls.{
  same-IsLedger, extend-IsLedger, set_by_username-IsLedger, create-IsLedger, cancel-IsLedger,
}

module _ (parse_url : Text → Option (Text × Text)) where
  pub data Step : Db → Db → Type 0 where
    extend : (k days now : ℕ) (db : Db) → Step db (extend_membership k days now db).0
    set_by_username :
        (provider name : Text) (e : Option (Option ℕ)) (now : ℕ) (db : Db)
        → Step db (set_membership_by_username provider name e now db).0
    login : (a : Account) (now : ℕ) (db : Db) → Step db (upsert_user a now db).0
    set_setting_value : (key value : Text) (db : Db) → Step db (set_setting key value db)
    create : (o : LdcOrder) (now : ℕ) (db : Db) → Step db (create_order o now db).0
    pay :
        (number trade_no : Text) (now : ℕ) (db : Db)
        → Step db (mark_order_paid number trade_no now db).0
    refund : (id now : ℕ) (db : Db) → Step db (mark_order_refunded id now db).0
    cancel : (number : Text) (db : Db) → Step db (cancel_order number db)
    expire : (cutoff : ℕ) (db : Db) → Step db (cancel_expired_orders cutoff db).0
    claim : (id now : ℕ) (db : Db) → Step db (claim_platform_refund id now db).0
    record_result :
        (id : ℕ) (s : RefundStatus) (now : ℕ) (db : Db)
        → Step db (record_platform_refund_result id s now db).0
    make_wish :
        (k : ℕ) (name url : Text) (invite : Bool) (target now : ℕ) (db : Db)
        → Step db (create_wish_site parse_url k name url invite target now db).0
    update_wish :
        (id : ℕ) (target : Option ℕ) (s : StatusArgument) (now : ℕ) (db : Db)
        → Step db (update_wish_site id target s now db).0
    delete_wish : (id : ℕ) (db : Db) → Step db (delete_wish_site id db).0
    ensure_credit : (k grant now : ℕ) (db : Db) → Step db (ensure_monthly_credit k grant now db).0
    consume_credit :
        (k amount now : ℕ) (db : Db) → Step db (consume_monthly_credit k amount now db).0
    pledge_credit :
        (k site : ℕ) (number : Text) (amount grant now : ℕ) (db : Db)
        → Step db (pledge_monthly_credit k site number amount grant now db).0
    redeem : (k : ℕ) (code : Text) (now : ℕ) (db : Db) → Step db (redeem_code k code now db).0
    generate :
        (draws : List Text) (count days : ℕ) (note : Text) (now : ℕ) (db : Db) {db' : Db}
        {r : Result (List Text)}
        → generate_redeem_codes draws count days note now db ≡ some (db', r)
        → Step db db'
    revoke : (ids : List ℕ) (db : Db) → Step db (revoke_redeem_codes ids db).0

  wish-IsLedger :
      (k : ℕ) (name url : Text) (invite : Bool) (target now : ℕ) (db : Db)
      → IsLedger db
      → IsLedger (create_wish_site parse_url k name url invite target now db).0
  unfolding create_wish_site
  wish-IsLedger k name url invite target now db h =
      elim (ok-cases (normalize_wish_domain parse_url url)) [
        | inl (e, bad) ↦
            same-IsLedger db _ (ground (arith, bad)) (ground (arith, bad)) (ground (arith, bad)) h
        | inr ((domain, address), good) ↦
            same-IsLedger db _ (ground (arith, good)) (ground (arith, good)) (ground (arith, good))
              h
      ]

  update-IsLedger :
      (id : ℕ) (target : Option ℕ) (s : StatusArgument) (now : ℕ) (db : Db)
      → IsLedger db
      → IsLedger (update_wish_site id target s now db).0
  unfolding update_wish_site
  update-IsLedger id target s now db h =
      same-IsLedger db _ (ground arith) (ground arith) (ground arith) h

  claim-IsLedger :
      (id now : ℕ) (db : Db) → IsLedger db → IsLedger (claim_platform_refund id now db).0
  unfolding claim_platform_refund
  claim-IsLedger id now db h = same-IsLedger db _ (ground arith) (ground arith) (ground arith) h

  result-IsLedger :
      (id : ℕ) (s : RefundStatus) (now : ℕ) (db : Db)
      → IsLedger db
      → IsLedger (record_platform_refund_result id s now db).0
  unfolding record_platform_refund_result
  result-IsLedger id s now db h = same-IsLedger db _ (ground arith) (ground arith) (ground arith) h

  credit-IsLedger :
      (k grant now : ℕ) (db : Db) → IsLedger db → IsLedger (ensure_monthly_credit k grant now db).0
  unfolding ensure_monthly_credit
  credit-IsLedger k grant now db h =
      same-IsLedger db _ (ground arith) (ground arith) (ground arith) h

  consumed-IsLedger :
      (k amount now : ℕ) (db : Db)
      → IsLedger db
      → IsLedger (consume_monthly_credit k amount now db).0
  unfolding consume_monthly_credit
  consumed-IsLedger k amount now db h =
      same-IsLedger db _ (ground arith) (ground arith) (ground arith) h

  revoked-IsLedger :
      (ids : List ℕ) (db : Db) → IsLedger db → IsLedger (revoke_redeem_codes ids db).0
  unfolding revoke_redeem_codes
  revoked-IsLedger ids db h = same-IsLedger db _ (ground arith) (ground arith) (ground arith) h

  generate-IsLedger :
      (draws : List Text) (count days : ℕ) (note : Text) (now : ℕ) (db db' : Db)
      (r : Result (List Text))
      → generate_redeem_codes draws count days note now db ≡ some (db', r)
      → IsLedger db
      → IsLedger db'
  unfolding generate_redeem_codes
  generate-IsLedger draws count days note now db db' r e h =
      same-IsLedger db db' (ground (arith, e)) (ground (arith, e)) (ground (arith, e)) h

  -- Every call keeps the tables sound.
  pub Step-IsLedger : {db db' : Db} → Step db db' → IsLedger db → IsLedger db'
  unfolding set_setting cancel_order cancel_expired_orders
  Step-IsLedger (extend k days now db) h = extend-IsLedger k days now db h
  Step-IsLedger (set_by_username provider name e now db) h =
      set_by_username-IsLedger provider name e now db h
  Step-IsLedger (login a now db) h = upsert-IsLedger a now db h
  Step-IsLedger (set_setting_value key value db) h = same-IsLedger db _ refl refl refl h
  Step-IsLedger (create o now db) h = create-IsLedger o now db h
  Step-IsLedger (pay number trade_no now db) h = pay-IsLedger number trade_no now db h
  Step-IsLedger (refund id now db) h = refund-IsLedger id now db h
  Step-IsLedger (cancel number db) h = cancel-IsLedger (pending_no number) db h
  Step-IsLedger (expire cutoff db) h = cancel-IsLedger (expired_at cutoff) db h
  Step-IsLedger (claim id now db) h = claim-IsLedger id now db h
  Step-IsLedger (record_result id s now db) h = result-IsLedger id s now db h
  Step-IsLedger (make_wish k name url invite target now db) h =
      wish-IsLedger k name url invite target now db h
  Step-IsLedger (update_wish id target s now db) h = update-IsLedger id target s now db h
  Step-IsLedger (delete_wish id db) h = delete_wish-IsLedger id db h
  Step-IsLedger (ensure_credit k grant now db) h = credit-IsLedger k grant now db h
  Step-IsLedger (consume_credit k amount now db) h = consumed-IsLedger k amount now db h
  Step-IsLedger (pledge_credit k site number amount grant now db) h =
      pledge_credit-IsLedger k site number amount grant now db h
  Step-IsLedger (redeem k code now db) h = redeem-IsLedger k code now db h
  Step-IsLedger (generate draws count days note now db {db' = db'} {r = r} e) h =
      generate-IsLedger draws count days note now db db' r e h
  Step-IsLedger (revoke ids db) h = revoked-IsLedger ids db h

  -- A run of calls, the first one last.
  pub data Run (start : Db) : Db → Type 0 where
    here : Run start start
    next : {db db' : Db} → Run start db → Step db db' → Run start db'

  -- Whatever calls of the store follow one another, from tables where this holds: every bought interval
  -- starts no later than it ends, ends no later than the expiry of its user, belongs to an order that is
  -- in the table and is that user's, two intervals of one user do not overlap, and neither two intervals
  -- nor two orders share an order id.
  pub Run-IsLedger : {start db : Db} → IsLedger start → Run start db → IsLedger db
  Run-IsLedger h here = h
  Run-IsLedger h (next r s) = Step-IsLedger s (Run-IsLedger h r)
