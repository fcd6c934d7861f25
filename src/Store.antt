-- ===== src/Store.antt =====
-- The tables that membership, orders, wishes, credits and redeem codes share (internal/store), the
-- errors that its functions return, and transactions: a body that fails leaves the tables as they
-- were, which SQLite is taken to do at the deferred `tx.Rollback()`.
pub mod Membership
pub mod Users
pub mod Orders
pub mod Refunds
pub mod Intervals
pub mod Wishes
pub mod Credits
pub mod Redeem
pub mod Reminders
pub mod Notifications
pub mod Preferences
pub mod Catalog
pub mod Announcements
use relay_scope.Base.{
  ℕ, ◌*◌, ◌≡◌, refl, ◌⊎◌, inl, inr, Bool, true, false, Option, none, some, List, ◌==◌,
}
use relay_scope.Base.Texts.{Text, text_eq}

pub data OrderKind : Type 0 where
  wish membership other_kind : OrderKind

pub data OrderStatus : Type 0 where
  pending paid refunded cancelled : OrderStatus

pub data OrderFunding : Type 0 where
  ldc credit : OrderFunding

pub data WishStatus : Type 0 where
  opened reached rejected connected : WishStatus

pub data RedeemStatus : Type 0 where
  unused used revoked : RedeemStatus

-- The status column of `order_refund_attempts`; `other_status` is any other text that a caller
-- passes.
pub data RefundStatus : Type 0 where
  running uncertain succeeded rejected other_status : RefundStatus

abbrev pub is_pending : OrderStatus → Bool
is_pending pending = true
is_pending _ = false

abbrev pub is_paid : OrderStatus → Bool
is_paid paid = true
is_paid _ = false

abbrev pub is_opened : WishStatus → Bool
is_opened opened = true
is_opened _ = false

abbrev pub is_reached : WishStatus → Bool
is_reached reached = true
is_reached _ = false

abbrev pub is_unused : RedeemStatus → Bool
is_unused unused = true
is_unused _ = false

abbrev pub is_membership : OrderKind → Bool
is_membership membership = true
is_membership _ = false

abbrev pub is_ldc : OrderFunding → Bool
is_ldc ldc = true
is_ldc credit = false

pub record User : Type 0 where
  pub id : ℕ
  pub provider : Text
  pub external_id : Text
  pub username : Text
  pub name : Text
  pub avatar_url : Text
  pub trust_level : ℕ
  pub membership_expires_at : Option ℕ
  pub registered_at : Option ℕ
  pub created_at : ℕ
  pub updated_at : ℕ

pub record LdcOrder : Type 0 where
  pub id : ℕ
  pub order_no : Text
  pub user_id : ℕ
  pub kind : OrderKind
  pub wish_site_id : Option ℕ
  pub days : Option ℕ
  pub amount_ldc : ℕ
  pub funding : OrderFunding
  pub status : OrderStatus
  pub platform_trade_no : Text
  pub created_at : ℕ
  pub paid_at : Option ℕ

pub record Interval : Type 0 where
  pub order_id : ℕ
  pub user_id : ℕ
  pub starts_at : ℕ
  pub ends_at : ℕ

pub record WishSite : Type 0 where
  pub id : ℕ
  pub domain : Text
  pub name : Text
  pub url : Text
  pub invite_required : Bool
  pub target_ldc : Option ℕ
  pub status : WishStatus
  pub created_by : ℕ
  pub created_at : ℕ
  pub resolved_at : Option ℕ

pub record WishCredit : Type 0 where
  pub user_id : ℕ
  pub period : ℕ
  pub granted_ldc : ℕ
  pub used_ldc : ℕ
  pub created_at : ℕ

pub record RedeemCode : Type 0 where
  pub id : ℕ
  pub code : Text
  pub days : ℕ
  pub note : Text
  pub status : RedeemStatus
  pub redeemed_by : Option ℕ
  pub redeemed_at : Option ℕ
  pub created_at : ℕ

pub record Preregistration : Type 0 where
  pub provider : Text
  pub username : Text
  pub username_key : Text
  pub expires_at : ℕ
  pub created_at : ℕ
  pub updated_at : ℕ

pub record RefundAttempt : Type 0 where
  pub order_id : ℕ
  pub status : RefundStatus
  pub updated_at : ℕ

pub record Setting : Type 0 where
  pub key : Text
  pub value : Text

-- The database: a list of rows for each table.
pub record Db : Type 0 where
  pub users : List User
  pub orders : List LdcOrder
  pub intervals : List Interval
  pub wishes : List WishSite
  pub credits : List WishCredit
  pub codes : List RedeemCode
  pub preregistrations : List Preregistration
  pub attempts : List RefundAttempt
  pub settings : List Setting

-- `no_rows` is sql.ErrNoRows, `constraint` a CHECK, UNIQUE or foreign key that SQLite refuses, and
-- `nil_deref` the panic of a nil pointer, under which the deferred Rollback runs too.
pub data Error : Type 0 where
  no_rows constraint nil_deref : Error
  invalid_extension invalid_username invalid_provider invalid_expiry invalid_user : Error
  invalid_order invalid_wish_order invalid_membership_order invalid_order_kind : Error
  not_refundable legacy_refund refund_claimed invalid_refund_result : Error
  invalid_credit_grant invalid_pledge wish_not_open : Error
  redeem_invalid bad_count bad_days note_too_long bad_ids : Error
  login_required bad_name missing_url bad_url bad_scheme wish_duplicate bad_target unknown_status :
      Error

pub data Result {ℓ} (A : Type ℓ) : Type ℓ where
  ok : A → Result A
  err : Error → Result A

-- A step of a transaction.
abbrev pub Tx : Type 0 → Type 0
Tx A = Db → Result (A × Db)

infixl 5 ◌>>=◌ ◌>>◌
abbrev pub ◌>>=◌ : {A B : Type 0} → Tx A → (A → Tx B) → Tx B
◌>>=◌ m f db = elim (m db) [ ok (a, db') ↦ f a db' | err e ↦ err e ]

abbrev pub ◌>>◌ : {B : Type 0} → Tx (Unit {0}) → Tx B → Tx B
m >> k = m >>= λ _. k

abbrev pub pure : {A : Type 0} → A → Tx A
pure a db = ok (a, db)

abbrev pub fail : {A : Type 0} → Error → Tx A
fail e db = err e

abbrev pub found : {A : Type 0} → Option A → Error → Tx A
found none e = fail e
found (some a) e = pure a

-- Begin, run, and commit or roll back.
abbrev pub transaction : {A : Type 0} → Tx A → Db → Db × Result A
transaction m db = elim (m db) [ ok (a, db') ↦ (db', ok a) | err e ↦ (db, err e) ]

abbrev pub succeeds : {A : Type 0} → Result A → Bool
succeeds (ok a) = true
succeeds (err e) = false

abbrev pub day_millis : ℕ
day_millis = 24 * 60 * 60 * 1000

-- The WHERE tests on keys.
abbrev pub user_is : ℕ → User → Bool
user_is i u = u.id == i

abbrev pub order_is : ℕ → LdcOrder → Bool
order_is i o = o.id == i

abbrev pub order_no_is : Text → LdcOrder → Bool
order_no_is number o = text_eq o.order_no number

abbrev pub wish_is : ℕ → WishSite → Bool
wish_is i w = w.id == i

abbrev pub opt_is : Option ℕ → ℕ → Bool
opt_is none i = false
opt_is (some j) i = j == i

-- A transaction fails, or ends with an answer and a database.
pub Result-cases :
    {A : Type 0} (r : Result (A × Db))
    → ((e : Error) × (r ≡ err e)) ⊎ ((a : A) × (db : Db) × (r ≡ ok (a, db)))
Result-cases (ok (a, db)) = inr (a, db, refl)
Result-cases (err e) = inl (e, refl)

pub ok-cases : {A : Type 0} (r : Result A) → ((e : Error) × (r ≡ err e)) ⊎ ((a : A) × (r ≡ ok a))
ok-cases (ok a) = inr (a, refl)
ok-cases (err e) = inl (e, refl)
