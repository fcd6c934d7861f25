-- ===== src/Payment.antt =====
-- internal/payment/payment.go: the port to a payment platform.
pub mod Epay
pub mod Order
pub mod Signing
use relay_scope.Base.{ℕ, Bool, Option, List}
use relay_scope.Base.Texts.{Text}

pub data Status : Type 0 where
  waiting paid failed : Status

pub data PaymentError : Type 0 where
  not_configured refund_rejected bad_response unreachable : PaymentError
  bad_signature wrong_pid missing_order : PaymentError

pub data Answer (A : Type 0) : Type 0 where
  answer : A → Answer A
  failure : PaymentError → Answer A

pub record ChargeRequest : Type 0 where
  pub ref : Text
  pub amount_ldc : ℕ
  pub description : Text
  pub notify_url : Text
  pub return_url : Text

-- The values of a query or a form: the first of each name.
abbrev pub Params : Type 0
Params = List (Text × Text)

-- What the handlers use of a platform; the network's answers are in its functions.
pub record Provider : Type 0 where
  pub configured : Bool
  pub create_charge : ChargeRequest → Answer Text
  pub verify : Text → Answer Status
  pub parse_callback : Params → Answer (Text × Status)
  pub refund : Text → ℕ → Answer (Unit {0})

unfoldable pub unconfigured : Provider
unconfigured = record {
  configured = Bool.false;
  create_charge = λ request. failure not_configured;
  verify = λ ref. failure not_configured;
  parse_callback = λ params. failure not_configured;
  refund = λ ref amount. failure not_configured;
}
