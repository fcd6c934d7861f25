-- ===== src/Payment/Epay.antt =====
-- internal/payment/epay/epay.go: parameters are signed in the order of their names. md5 with its hexadecimal
-- form is the parameter `digest`; what the platform answers over the network is given.
use relay_scope.Base.{
  ℕ, Bool, true, false, not, ◌&&◌, ◌||◌, Option, none, some, List, [], ◌∷◌, ◌++◌, map,
  if◌then◌else◌,
}
use relay_scope.Base.Texts.{Text, text_eq, codes, is_empty, to_lower, text_lt, join}
use relay_scope.Store.Wishes.{sort_by}
use relay_scope.Payment.{
  Status, waiting, paid, failed, Answer, answer, failure, Params, ChargeRequest, not_configured,
  refund_rejected, bad_response, unreachable, bad_signature, wrong_pid, missing_order,
}

pub record Config : Type 0 where
  pub gateway : Text
  pub pid : Text
  pub key : Text

unfoldable pub is_configured : Config → Bool
is_configured c = not (is_empty c.pid) && not (is_empty c.key)

-- params[name], empty where there is none.
unfoldable pub get : Text → Params → Text
get name [] = []
get name ((n, v) ∷ rest) = if text_eq n name then v else get name rest

abbrev pub is_signed : Text → Text → Bool
is_signed name value =
    not (is_empty value || text_eq name (codes "sign") || text_eq name (codes "sign_type"))

unfoldable pub signed_names : Params → List Text
signed_names [] = []
signed_names ((n, v) ∷ rest) =
    let more = signed_names rest in if is_signed n v then n ∷ more else more

unfoldable pub pair_text : Params → Text → Text
unfolding get
pair_text params name = name ++ (codes "=" ++ get name params)

unfoldable pub sign_text : Params → Text → Text
unfolding signed_names join pair_text
sign_text params key =
    join (codes "&") (map (pair_text params) (sort_by text_lt (signed_names params))) ++ key

-- What the platform answered to a charge: its status code and Location.
pub data HttpAnswer : Type 0 where
  redirect : Text → HttpAnswer
  other_answer : HttpAnswer
  no_answer : HttpAnswer

-- A decoded code: 1, -1, or another.
pub data Code : Type 0 where
  one minus_one other_code : Code

pub data Decoded (A : Type 0) : Type 0 where
  decoded : A → Decoded A
  undecoded : Decoded A
  no_reply : Decoded A

unfoldable pub query_status : Decoded (Code × Bool) → Answer Status
query_status no_reply = failure unreachable
query_status undecoded = failure bad_response
query_status (decoded (one, true)) = answer paid
query_status (decoded (one, false)) = answer waiting
query_status (decoded (minus_one, s)) = answer failed
query_status (decoded (other_code, s)) = answer waiting

unfoldable pub query : Config → (Text → Decoded (Code × Bool)) → Text → Answer Status
unfolding query_status is_configured
query c ask ref = if not (is_configured c) then failure not_configured else query_status (ask ref)

-- The reply to a refund: whether its HTTP status was 2xx, and its code.
unfoldable pub refund_status : Decoded (Bool × Option Code) → Answer (Unit {0})
refund_status no_reply = failure unreachable
refund_status undecoded = failure bad_response
refund_status (decoded (false, code)) = failure bad_response
refund_status (decoded (true, none)) = failure bad_response
refund_status (decoded (true, some one)) = answer tt
refund_status (decoded (true, some minus_one)) = failure refund_rejected
refund_status (decoded (true, some other_code)) = failure refund_rejected

unfoldable pub refund :
    Config → (Text → ℕ → Decoded (Bool × Option Code)) → Text → ℕ → Answer (Unit {0})
unfolding refund_status is_configured
refund c ask ref amount =
    if not (is_configured c) then failure not_configured else refund_status (ask ref amount)

unfoldable pub charge_answer : HttpAnswer → Answer Text
charge_answer (redirect location) =
    if is_empty location then failure bad_response else answer location
charge_answer other_answer = failure bad_response
charge_answer no_answer = failure unreachable

module _ (digest : Text → Text) where
  unfoldable pub sign : Params → Text → Text
  unfolding sign_text
  sign params key = digest (sign_text params key)

  unfoldable pub verify_sign : Params → Text → Text → Bool
  unfolding sign
  verify_sign params key s = text_eq (sign params key) (to_lower s)

  -- The form of a charge, its amount formatted.
  unfoldable pub charge_params : Config → (ℕ → Text) → ChargeRequest → Params
  charge_params c money r =
      (codes "pid", c.pid)
      ∷ (codes "type", codes "epay")
      ∷ (codes "out_trade_no", r.ref)
      ∷ (codes "name", r.description)
      ∷ (codes "money", money r.amount_ldc)
      ∷ (codes "notify_url", r.notify_url)
      ∷ (codes "return_url", r.return_url)
      ∷ []

  abbrev pub with_sign : Params → Text → Params
  with_sign params key = (codes "sign_type", codes "MD5") ∷ (codes "sign", sign params key) ∷ params

  unfoldable pub create_charge :
      Config → (ℕ → Text) → (Params → HttpAnswer) → ChargeRequest → Answer Text
  unfolding charge_params charge_answer is_configured
  create_charge c money post r =
      if not (is_configured c)
      then failure not_configured
      else charge_answer (post (with_sign (charge_params c money r) c.key))

  unfoldable pub parse_callback : Config → Params → Answer (Text × Status)
  unfolding get verify_sign
  parse_callback c params =
      if is_empty (get (codes "sign") params)
        || not (verify_sign params c.key (get (codes "sign") params))
      then failure bad_signature
      else if not (text_eq (get (codes "pid") params) c.pid)
      then failure wrong_pid
      else if is_empty (get (codes "out_trade_no") params)
      then failure missing_order
      else if not (text_eq (get (codes "trade_status") params) (codes "TRADE_SUCCESS"))
      then answer (get (codes "out_trade_no") params, failed)
      else answer (get (codes "out_trade_no") params, paid)
