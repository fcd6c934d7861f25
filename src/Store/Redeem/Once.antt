-- ===== src/Store/Redeem/Once.antt =====
-- A redeem code gives its days once.
use relay_scope.Base.{
  ℕ, ◌≡◌, inl, inr, false, arith, count_where, count_where-update_where, update_where,
}
use relay_scope.Base.Texts.{Text}
use relay_scope.Store.{Db, redeem_invalid, ok, err, RedeemCode, Result-cases}
use relay_scope.Store.Membership.{Membership}
use relay_scope.Store.Redeem.{
  redeemable, redeem_row, grant_days, redeem, redeem_code, normalize_redeem_code,
}

used_up :
    (user now : ℕ) (code : Text) (c : RedeemCode) → redeemable code (redeem_row user now c) ≡ false
unfolding redeem_row
used_up user now code c = ground arith

grant_days-codes :
    (code : Text) (user now : ℕ) (db db' : Db) (m : Membership)
    → grant_days code user now db ≡ ok (m, db')
    → db'.codes ≡ db.codes
unfolding grant_days
grant_days-codes code user now db db' m h = ground arith

redeemed-codes :
    (user now : ℕ) (code : Text) (db db' : Db) (m : Membership)
    → redeem user code now db ≡ ok (m, db')
    → count_where (redeemable code) db'.codes ≡ 0
unfolding redeem
redeemed-codes user now code db db' m h =
    let marked : Db = record db {
      codes = update_where (redeemable code) (redeem_row user now) db.codes;
    } in
    let same : db'.codes ≡ marked.codes =
      grant_days-codes code user now marked db' m (ground arith) in
    rw same (
      count_where-update_where (redeemable code) (redeem_row user now) db.codes
        (used_up user now code))

-- After a redemption the next try with the code, by whichever user and at whatever time, is refused and
-- changes nothing.
pub redeem_code_once :
    (first second first_time second_time : ℕ) (code : Text) (db db' : Db) (m : Membership)
    → redeem_code first code first_time db ≡ (db', ok m)
    → redeem_code second code second_time db' ≡ (db', err redeem_invalid)
unfolding redeem_code
redeem_code_once first second t1 t2 code db db' m h =
    elim (Result-cases (redeem first (normalize_redeem_code code) t1 db)) [
      | inl (e, failed) ↦ absurd (ground (arith, failed))
      | inr (m', db2, run) ↦
          let none_left =
            redeemed-codes first t1 (normalize_redeem_code code) db db' m (ground (arith, run)) in
          let refused : redeem second (normalize_redeem_code code) t2 db' ≡ err redeem_invalid =
            unfold redeem in ground (arith, none_left) in
          ground (arith, run, refused)
    ]
