-- ===== src/Server.antt =====
-- internal/httpserver/user_routes.go: settings, the rate limiter, and the creation of a charge.
pub mod Orders
pub mod Receipts
pub mod Notices
pub mod Pledges
pub mod Events
pub mod Window
use relay_scope.Base.{
  ℕ, suc, ◌+◌, ◌-◌, ◌*◌, Bool, true, false, not, ◌&&◌, ◌||◌, Option, none, some, List, [], ◌∷◌,
  ◌++◌, reverse, ltb, leb, ◌==◌, if◌then◌else◌, length, select_where,
}
use relay_scope.Base.Texts.{Text, codes, is_empty, trim_space}
use relay_scope.Store.{Db, LdcOrder, Result, ok, err}
use relay_scope.Store.Membership.{get_setting}
use relay_scope.Store.Orders.{create_order, cancel_order}
use relay_scope.Payment.{Provider, ChargeRequest, Answer, answer, failure}

abbrev pub all_digits : Text → Bool
all_digits [] = true
all_digits (c ∷ s) = leb b'0' c && leb c b'9' && all_digits s

abbrev pub digits_value : ℕ → Text → ℕ
digits_value acc [] = acc
digits_value acc (c ∷ s) = digits_value (acc * 10 + (c - b'0')) s

-- strconv.ParseInt in base 10, as far as its callers look: `none` for an error and for what is not positive.
abbrev pub unsigned : Text → Option ℕ
unsigned s =
    if is_empty s || not (all_digits s) || ltb 9223372036854775807 (digits_value 0 s)
    then none
    else some (digits_value 0 s)

unfoldable pub parse_int : Text → Option ℕ
parse_int [] = none
parse_int (c ∷ s) = if c == b'+' then unsigned s else unsigned (c ∷ s)

abbrev pub clamp : ℕ → ℕ
clamp v = if ltb v 1 then 1 else if ltb 10000 v then 10000 else v

unfoldable pub parse_clamped_int : Text → ℕ
unfolding parse_int
parse_clamped_int raw = elim (parse_int (trim_space raw)) [ none ↦ 1 | some v ↦ clamp v ]

unfoldable pub setting_int : Text → Text → Db → ℕ
unfolding parse_clamped_int
setting_int key fallback db = parse_clamped_int (get_setting key fallback db)

abbrev pub membership_monthly_price : Db → ℕ
membership_monthly_price db = setting_int (codes "membership_monthly_price_ldc") (codes "15") db

abbrev pub wish_default_target : Db → ℕ
wish_default_target db = setting_int (codes "wish_default_target_ldc") (codes "30") db

abbrev pub wish_free_credit_ldc : Db → ℕ
wish_free_credit_ldc db = setting_int (codes "wish_free_credit_ldc") (codes "10") db

-- The events of each key, which is the id of a user.
pub record RateLimiter : Type 0 where
  pub window : ℕ
  pub limit : ℕ
  pub events : List (ℕ × List ℕ)

unfoldable pub new_rate_limiter : ℕ → ℕ → RateLimiter
new_rate_limiter limit window = record { window = window; limit = limit; events = [] }

unfoldable pub events_of : ℕ → List (ℕ × List ℕ) → List ℕ
events_of key [] = []
events_of key ((k, times) ∷ rest) = if k == key then times else events_of key rest

unfoldable pub put_events : ℕ → List ℕ → List (ℕ × List ℕ) → List (ℕ × List ℕ)
put_events key times [] = (key, times) ∷ []
put_events key times ((k, old) ∷ rest) =
    if k == key then (k, times) ∷ rest else (k, old) ∷ put_events key times rest

abbrev pub is_recent : ℕ → ℕ → ℕ → Bool
is_recent window now at = ltb (now - at) window

unfoldable pub allow : ℕ → ℕ → RateLimiter → RateLimiter × Bool
unfolding events_of put_events
allow key now l =
    let recent = select_where (is_recent l.window now) (events_of key l.events) in
    if leb l.limit (length recent)
    then (record l { events = put_events key recent l.events }, false)
    else (record l { events = put_events key (recent ++ now ∷ []) l.events }, true)

-- What a handler answers: an error with its code, or a result.
pub data Reply : Type 0 where
  rejected : ℕ → Reply
  charged : Text → Text → ℕ → Reply
  pledged : ℕ → ℕ → Reply
  pledged_and_charged : ℕ → ℕ → Text → Text → ℕ → Reply
  shown : LdcOrder → Reply
  shown_nothing : Reply
  success : Reply

abbrev pub cut_slashes : Text → Text
cut_slashes [] = []
cut_slashes (c ∷ s) = if c == b'/' then cut_slashes s else c ∷ s

abbrev pub trim_slashes : Text → Text
trim_slashes s = reverse (cut_slashes (reverse s))

-- The request for an order.
unfoldable pub charge_request : Text → Text → Text → LdcOrder → ChargeRequest
charge_request public_url description number o = record {
  ref = number;
  amount_ldc = o.amount_ldc;
  description = description;
  notify_url = trim_slashes public_url ++ codes "/api/v1/payment/notify";
  return_url = trim_slashes public_url ++ (codes "/api/v1/payment/return?no=" ++ number);
}

pub data ChargeResult : Type 0 where
  charge : Text → Text → ℕ → ChargeResult
  unavailable : ChargeResult
  charge_failed : ChargeResult

-- An order whose charge is refused is cancelled. `number` is the random order number, `none` if there is none.
unfoldable pub create_charge_order :
    Provider → Text → Option Text → Text → LdcOrder → ℕ → Db → Db × ChargeResult
unfolding charge_request
create_charge_order provider public_url none description o now db =
    (db, if not provider.configured then unavailable else charge_failed)
create_charge_order provider public_url (some number) description o now db =
    if not provider.configured
    then (db, unavailable)
    else let (db', created) = create_order (record o { order_no = number }) now db in
      elim created [
        | err e ↦ (db', charge_failed)
        | ok row ↦ elim (provider.create_charge (charge_request public_url description number o)) [
          | failure e ↦ (cancel_order number db', charge_failed)
          | answer pay_url ↦ (db', charge number pay_url o.amount_ldc)
        ]
      ]

abbrev pub charge_reply : ChargeResult → Reply
charge_reply (charge number pay_url amount) = charged number pay_url amount
charge_reply unavailable = rejected 501
charge_reply charge_failed = rejected 502

-- The amount of a notice: `none` for -1. `parse` is strconv.ParseFloat, `rounded` the conversion of
-- a value and a half to an integer.
unfoldable pub money_to_ldc :
    {F : Type 0} → (Text → Option F) → (F → Bool) → (F → ℕ) → Text → Option ℕ
money_to_ldc parse is_negative rounded raw = elim (parse (trim_space raw)) [
  | none ↦ none
  | some v ↦ if is_negative v then none else some (rounded v)
]
