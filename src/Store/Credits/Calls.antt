-- ===== src/Store/Credits/Calls.antt =====
-- Every call of the store keeps the monthly credits within their grants.
use relay_scope.Base.{
  ℕ, ◌≡◌, inl, inr, ◌&&◌, ◌||◌, ◌==◌, ltb, arith, Bool-cases, exists_where, or_zero,
}
use relay_scope.Base.Texts.{Text}
use relay_scope.Store.{Db, LdcOrder, ok, Result-cases, user_is, transaction}
use relay_scope.Store.Orders.{insert_order, reach_wish}
use relay_scope.Store.Credits.{
  credit_of, ensure_monthly_credit, grant_to_member, debited, contribute, pledge,
  pledge_monthly_credit, bad_pledge, current_credit_period, credit_order,
}
use relay_scope.Store.Credits.Outcomes.{allowance, pledge_outcome}
use relay_scope.Store.Credits.Budget.{IsBudgeted, grant-IsBudgeted, debited-IsBudgeted}

pub ensure-IsBudgeted :
    (user grant now : ℕ) (db : Db)
    → IsBudgeted db.credits
    → IsBudgeted (ensure_monthly_credit user grant now db).0.credits
unfolding ensure_monthly_credit
ensure-IsBudgeted user grant now db h = elim (Bool-cases (user == 0 || grant == 0)) [
  | inl bad ↦ rw bad h
  | inr good ↦
      elim (Bool-cases (
        exists_where (credit_of user (current_credit_period now)) db.credits
        || exists_where (user_is user) db.users)) [
          | inr nobody ↦ rw (good, nobody) h
          | inl somebody ↦
              rw (good, somebody)
                (grant-IsBudgeted user (current_credit_period now) grant now db.credits h)
        ]
]

member-IsBudgeted :
    (user period grant now : ℕ) (db : Db)
    → IsBudgeted db.credits
    → IsBudgeted (grant_to_member user period grant now db).credits
unfolding grant_to_member
member-IsBudgeted user period grant now db h =
    elim (Bool-cases
      (exists_where (λ u. user_is user u && ltb now (or_zero u.membership_expires_at)) db.users)) [
        | inl member ↦ rw member (grant-IsBudgeted user period grant now db.credits h)
        | inr other ↦ rw other h
      ]

pub insert_order-credits :
    (o x : LdcOrder) (db db' : Db) → insert_order o db ≡ ok (x, db') → db'.credits ≡ db.credits
unfolding insert_order
insert_order-credits o x db db' h = ground arith

contribute-credits :
    (user site : ℕ) (number : Text) (period n now a : ℕ) (db db' : Db)
    → contribute user site number period n now db ≡ ok (a, db')
    → db'.credits ≡ (debited user period n db).credits
unfolding contribute reach_wish
contribute-credits user site number period n now a db db' h =
    let start = debited user period n db in
    elim (Result-cases (insert_order (credit_order user site number n now) start)) [
      | inl (e, failed) ↦ absurd (ground (arith, failed))
      | inr (o, db2, run) ↦
          let same = insert_order-credits (credit_order user site number n now) o start db2 run in
          ground (arith, run, same)
    ]

pledged-IsBudgeted :
    (user site : ℕ) (number : Text) (amount period now a : ℕ) (db db' : Db)
    → IsBudgeted db.credits
    → pledge user site number amount period now db ≡ ok (a, db')
    → IsBudgeted db'.credits
pledged-IsBudgeted user site number amount period now a db db' h run =
    elim (pledge_outcome user site number amount period now a db db' run) [
      | inl (_, same) ↦ rw same h
      | inr (c, e, left, given) ↦
          let n = allowance c amount in
          rw (contribute-credits user site number period n now a db db' given)
            (debited-IsBudgeted user period n c db h e (omega arith))
    ]

pub pledge-IsBudgeted :
    (user site : ℕ) (number : Text) (amount grant now : ℕ) (db : Db)
    → IsBudgeted db.credits
    → IsBudgeted (pledge_monthly_credit user site number amount grant now db).0.credits
unfolding pledge_monthly_credit
pledge-IsBudgeted user site number amount grant now db h =
    elim (Bool-cases (bad_pledge user site number amount grant)) [
      | inl bad ↦ rw bad h
      | inr good ↦
          let period = current_credit_period now in
          let start = grant_to_member user period grant now db in
          elim (Result-cases (pledge user site number amount period now start)) [
            | inl (e, failed) ↦ rw good (rw (failed, transaction) h)
            | inr (a, db2, run) ↦ rw good (
                rw (run, transaction)
                  (pledged-IsBudgeted user site number amount period now a start db2
                    (member-IsBudgeted user period grant now db h) run))
          ]
    ]
