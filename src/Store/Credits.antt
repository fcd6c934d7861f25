-- ===== src/Store/Credits.antt =====
-- internal/store/wish_credits.go: the free wish credit of a month, granted once and never overspent.
-- A period is the number 100 * year + month of the UTC date.
pub mod Budget
pub mod Outcomes
pub mod Accounts
pub mod Calls
pub mod Others
use relay_scope.Base.{
  ℕ, ◌+◌, ◌-◌, ◌*◌, ◌/◌, ◌%◌, min, Bool, true, false, not, ◌&&◌, ◌||◌, Option, none, some, List, [],
  ◌∷◌, ◌++◌, ltb, leb, ◌==◌, if◌then◌else◌, or_zero, select_first, update_where, count_where,
  exists_where,
}
use relay_scope.Base.Texts.{Text, codes, is_empty}
use relay_scope.Store.{
  User, LdcOrder, WishCredit, Db, wish, credit, paid, is_opened, Error, no_rows,
  invalid_credit_grant, invalid_pledge, wish_not_open, Result, ok, err, Tx, ◌>>=◌, ◌>>◌, pure, fail,
  found, transaction, user_is, wish_is, day_millis,
}
use relay_scope.Store.Orders.{insert_order, reach_wish}

-- The civil year and month of a day counted from 1970-01-01, from years that begin in March.
unfoldable pub civil_month : ℕ → ℕ
civil_month day =
    let z = day + 719468 in
    let era = z / 146097 in
    let doe = z % 146097 in
    let yoe = (doe - doe / 1460 + doe / 36524 - doe / 146096) / 365 in
    let doy = doe - (365 * yoe + yoe / 4 - yoe / 100) in
    let mp = (5 * doy + 2) / 153 in
    let month = if ltb mp 10 then mp + 3 else mp - 9 in
    let year = yoe + era * 400 + (if leb month 2 then 1 else 0) in 100 * year + month

unfoldable pub current_credit_period : ℕ → ℕ
unfolding civil_month
current_credit_period now = civil_month (now / day_millis)

abbrev pub credit_of : ℕ → ℕ → WishCredit → Bool
credit_of user_id period c = c.user_id == user_id && c.period == period

-- INSERT … ON CONFLICT(user_id, period) DO NOTHING
unfoldable pub grant_credit : ℕ → ℕ → ℕ → ℕ → List WishCredit → List WishCredit
grant_credit user_id period grant now credits =
    if exists_where (credit_of user_id period) credits
    then credits
    else credits
      ++ record {
        user_id = user_id;
        period = period;
        granted_ldc = grant;
        used_ldc = 0;
        created_at = now;
      }
        ∷ []

unfoldable pub available_credit : ℕ → ℕ → Db → ℕ
available_credit user_id period db = elim (select_first (credit_of user_id period) db.credits) [
  | none ↦ 0
  | some c ↦ c.granted_ldc - c.used_ldc
]

-- The user of the new row is a foreign key.
unfoldable pub ensure_monthly_credit : ℕ → ℕ → ℕ → Db → Db × Result ℕ
unfolding grant_credit
ensure_monthly_credit user_id grant now db =
    if user_id == 0 || grant == 0
    then (db, err invalid_credit_grant)
    else let period = current_credit_period now in
      if exists_where (credit_of user_id period) db.credits
        || exists_where (user_is user_id) db.users
      then (let db' = record db { credits = grant_credit user_id period grant now db.credits } in
          (db', ok (available_credit user_id period db')))
      else (db, err Error.constraint)

unfoldable pub debit_row : ℕ → WishCredit → WishCredit
debit_row consumed c = record c { used_ldc = c.used_ldc + consumed }

-- WHERE user_id = ? AND period = ? AND used_ldc + ? <= granted_ldc
abbrev pub affordable : ℕ → ℕ → ℕ → WishCredit → Bool
affordable user_id period consumed c =
    credit_of user_id period c && leb (c.used_ldc + consumed) c.granted_ldc

unfoldable pub consume_monthly_credit : ℕ → ℕ → ℕ → Db → Db × Result ℕ
unfolding debit_row
consume_monthly_credit user_id amount now db =
    if user_id == 0 || amount == 0
    then (db, ok 0)
    else let period = current_credit_period now in
      elim (select_first (credit_of user_id period) db.credits) [
        | none ↦ (db, ok 0)
        | some c ↦
            let consumed = min (c.granted_ldc - c.used_ldc) amount in
            if consumed == 0 || count_where (affordable user_id period consumed) db.credits == 0
            then (db, ok 0)
            else (
              record db {
                credits =
                    update_where (affordable user_id period consumed) (debit_row consumed)
                      db.credits;
              },
              ok consumed,
            )
      ]

unfoldable pub get_monthly_credit : ℕ → ℕ → Db → Option WishCredit
get_monthly_credit user_id now db =
    select_first (credit_of user_id (current_credit_period now)) db.credits

-- The order that records a contribution from credit: paid from the start.
unfoldable pub credit_order : ℕ → ℕ → Text → ℕ → ℕ → LdcOrder
credit_order user_id wish_id number consumed now = record {
  id = 0;
  order_no = number;
  user_id = user_id;
  kind = wish;
  wish_site_id = some wish_id;
  days = none;
  amount_ldc = consumed;
  funding = credit;
  status = paid;
  platform_trade_no = codes "CREDIT";
  created_at = now;
  paid_at = some now;
}

-- INSERT … SELECT id … FROM users WHERE id = ? AND membership_expires_at > now
unfoldable pub grant_to_member : ℕ → ℕ → ℕ → ℕ → Db → Db
unfolding grant_credit
grant_to_member user_id period grant now db =
    if exists_where (λ u. user_is user_id u && ltb now (or_zero u.membership_expires_at)) db.users
    then record db { credits = grant_credit user_id period grant now db.credits }
    else db

unfoldable pub debited : ℕ → ℕ → ℕ → Db → Db
unfolding debit_row
debited user_id period consumed db = record db {
  credits = update_where (credit_of user_id period) (debit_row consumed) db.credits;
}

-- The debit, the paid order and the wish's progress.
unfoldable pub contribute : ℕ → ℕ → Text → ℕ → ℕ → ℕ → Tx ℕ
unfolding debited credit_order
contribute user_id wish_id number period consumed now db =
    (do
      o ← insert_order (credit_order user_id wish_id number consumed now)
      (λ db'. ok (consumed, reach_wish now wish_id db')))
      (debited user_id period consumed db)

-- From an open wish on: as much as is left, up to the amount.
unfoldable pub spend : ℕ → ℕ → Text → ℕ → ℕ → ℕ → Tx ℕ
unfolding contribute
spend user_id wish_id number amount period now db =
    elim (select_first (credit_of user_id period) db.credits) [
      | none ↦ err no_rows
      | some c ↦
          let consumed = min (c.granted_ldc - c.used_ldc) amount in
          if consumed == 0
          then ok (0, db)
          else contribute user_id wish_id number period consumed now db
    ]

unfoldable pub pledge : ℕ → ℕ → Text → ℕ → ℕ → ℕ → Tx ℕ
unfolding spend
pledge user_id wish_id number amount period now db =
    elim (select_first (user_is user_id) db.users) [
      | none ↦ err no_rows
      | some u ↦
          if not (ltb now (or_zero u.membership_expires_at))
          then ok (0, db)
          else elim (select_first (wish_is wish_id) db.wishes) [
            | none ↦ err no_rows
            | some w ↦
                if is_opened w.status
                then spend user_id wish_id number amount period now db
                else err wish_not_open
          ]
    ]

-- The check of the arguments.
abbrev pub bad_pledge : ℕ → ℕ → Text → ℕ → ℕ → Bool
bad_pledge user_id wish_id number amount grant =
    user_id == 0 || wish_id == 0 || is_empty number || amount == 0 || ltb 10000 amount || grant == 0

unfoldable pub pledge_monthly_credit : ℕ → ℕ → Text → ℕ → ℕ → ℕ → Db → Db × Result ℕ
unfolding pledge grant_to_member
pledge_monthly_credit user_id wish_id number amount grant now db =
    if bad_pledge user_id wish_id number amount grant
    then (db, err invalid_pledge)
    else let period = current_credit_period now in
      transaction
        (λ db'.
          pledge user_id wish_id number amount period now
            (grant_to_member user_id period grant now db'))
        db
