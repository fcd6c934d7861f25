-- ===== src/Store/Intervals/Spending.antt =====
-- Pledges from credit and redeem codes keep the bought intervals sound.
use relay_scope.Base.{
  ℕ, ◌≡◌, refl, inl, inr, ◌==◌, arith, Bool-cases, Option-cases, select_first, update_where, subst,
  ◌||◌, ltb, length,
}
use relay_scope.Base.Texts.{Text}
use relay_scope.Store.{Db, ok, Result-cases, user_is, transaction}
use relay_scope.Store.Membership.{Membership, extend_user}
use relay_scope.Store.Orders.{insert_order, reach_wish}
use relay_scope.Store.Credits.{
  pledge_monthly_credit, pledge, contribute, grant_to_member, credit_order, debited, bad_pledge,
  current_credit_period,
}
use relay_scope.Store.Redeem.{
  redeem_code, redeem, grant_days, redeemable, redeem_row, code_is, normalize_redeem_code,
}
use relay_scope.Store.Intervals.Links.{IsLedger}
use relay_scope.Store.Intervals.Payment.{extended-IsSound, reached_IsLedger}
use relay_scope.Store.Credits.Outcomes.{allowance, pledge_outcome}
use relay_scope.Store.Intervals.Calls.{same-IsLedger, insert-IsLedger}

contribute-IsLedger :
    (k site : ℕ) (number : Text) (period consumed now n : ℕ) (db db' : Db)
    → IsLedger db
    → contribute k site number period consumed now db ≡ ok (n, db')
    → IsLedger db'
unfolding contribute
contribute-IsLedger k site number period consumed now n db db' h run =
    elim (Result-cases
      (insert_order (credit_order k site number consumed now) (debited k period consumed db))) [
        | inl (e, failed) ↦ absurd (ground (arith, failed))
        | inr (row, dbm, put) ↦ subst IsLedger {x = reach_wish now site dbm} (ground (arith, put)) (
            reached_IsLedger now site dbm (
              insert-IsLedger (credit_order k site number consumed now) row
                (debited k period consumed db) dbm
                (same-IsLedger db (debited k period consumed db) refl refl refl h) put))
      ]

pledge-IsLedger :
    (k site : ℕ) (number : Text) (amount period now n : ℕ) (db db' : Db)
    → IsLedger db
    → pledge k site number amount period now db ≡ ok (n, db')
    → IsLedger db'
pledge-IsLedger k site number amount period now n db db' h run =
    elim (pledge_outcome k site number amount period now n db db' run) [
      | inl (_, same) ↦ rw same h
      | inr (c, e, left, given) ↦
          contribute-IsLedger k site number period (allowance c amount) now n db db' h given
    ]

granted-IsLedger :
    (k period grant now : ℕ) (db : Db)
    → IsLedger db
    → IsLedger (grant_to_member k period grant now db)
unfolding grant_to_member
granted-IsLedger k period grant now db h =
    same-IsLedger db (grant_to_member k period grant now db) (ground arith) (ground arith)
      (ground arith) h

pub pledge_credit-IsLedger :
    (k site : ℕ) (number : Text) (amount grant now : ℕ) (db : Db)
    → IsLedger db
    → IsLedger (pledge_monthly_credit k site number amount grant now db).0
unfolding pledge_monthly_credit
pledge_credit-IsLedger k site number amount grant now db h =
    elim (Bool-cases (bad_pledge k site number amount grant)) [
      | inl refused ↦ rw refused h
      | inr fine ↦ elim (Result-cases (pledge k site number amount period now start)) [
        | inl (e, failed) ↦ rw fine (rw (failed, transaction) h)
        | inr (n, db', run) ↦ rw fine (
            rw (run, transaction)
              (pledge-IsLedger k site number amount period now n start db'
                (granted-IsLedger k period grant now db h) run))
      ]
    ]
  where
    period : ℕ
    period = current_credit_period now

    start : Db
    start = grant_to_member k period grant now db

redeemed_rows : ℕ → Text → ℕ → Db → Db
redeemed_rows k code now db = record db {
  codes = update_where (redeemable code) (redeem_row k now) db.codes;
}

redeem_tx-IsLedger :
    (k : ℕ) (code : Text) (now : ℕ) (m : Membership) (db db' : Db)
    → IsLedger db
    → redeem k code now db ≡ ok (m, db')
    → IsLedger db'
unfolding redeem grant_days redeemed_rows
redeem_tx-IsLedger k code now m db db' h run =
    elim (Option-cases (select_first (code_is code) (redeemed_rows k code now db).codes)) [
      | inl missing ↦ absurd (ground (arith, missing))
      | inr (c, ec) ↦
          subst IsLedger
            {x = record (redeemed_rows k code now db) {
              users = update_where (user_is k) (extend_user now c.days) db.users;
            }}
            (ground (arith, ec))
            (same-IsLedger
              (record db { users = update_where (user_is k) (extend_user now c.days) db.users }) _
              refl refl refl
              (record { sound = extended-IsSound k c.days now db h.sound; links = h.links }))
    ]

pub redeem-IsLedger :
    (k : ℕ) (code : Text) (now : ℕ) (db : Db) → IsLedger db → IsLedger (redeem_code k code now db).0
unfolding redeem_code
redeem-IsLedger k code now db h =
    elim (Bool-cases (k == 0 || ltb (length normal) 8 || ltb 40 (length normal))) [
      | inl refused ↦ rw refused h
      | inr fine ↦ elim (Result-cases (redeem k normal now db)) [
        | inl (e, failed) ↦ rw fine (rw (failed, transaction) h)
        | inr (m, db', run) ↦
            rw fine (rw (run, transaction) (redeem_tx-IsLedger k normal now m db db' h run))
      ]
    ]
  where
    normal : Text
    normal = normalize_redeem_code code
