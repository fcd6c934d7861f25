-- ===== src/Examples/Payments.antt =====
-- A signed message of the platform, notices of the shop's orders, a pledge and a limiter.
use relay_scope.Base.{
  ℕ, ◌≤◌, ◌≡◌, refl, sym, ap, inl, inr, Bool, true, false, Option, some, List, [], ◌∷◌, arith,
  Bool-cases, count_where, select_first, update_where, exists_where,
}
use relay_scope.Base.Texts.{
  Text, codes, text_eq, text_eq_iff, to_lower, to_lower_idem, to_lower_char, trim_space,
}
use relay_scope.Store.{Db}
use relay_scope.Store.Orders.{
  mark_order_paid, pay, settle, deliver, insert_interval, extend_buyer, pay_row, scanned,
  bought_interval, get_order_by_no,
}
use relay_scope.Store.Membership.{extend_user}
use relay_scope.Payment.{Provider, Params, answer, failure, not_configured, paid}
use relay_scope.Payment.Epay.{Config, get, sign, sign_text, parse_callback}
use relay_scope.Payment.Signing.{sign_text-map, callback_accepted, SameSigned}
use relay_scope.Server.{new_rate_limiter, success, money_to_ldc}
use relay_scope.Server.Orders.{notify, settle_notice, pledge_handler}
use relay_scope.Server.Notices.{Outcome, IsAccepted, notify_lem, notify_again}
use relay_scope.Server.Pledges.{AddsUp, pledge-AddsUp}
use relay_scope.Server.Events.{in_window}
use relay_scope.Server.Window.{passed, allow_bounds}
use relay_scope.Examples.Shop.{shop}

abbrev marked : Text → Text
marked t = b'd' ∷ to_lower t

abbrev secrets : Config
secrets = record { gateway = codes "https://g"; pid = codes "p1"; key = codes "k" }

abbrev message : Params
message =
    (codes "pid", codes "p1")
    ∷ (codes "out_trade_no", codes "M1")
    ∷ (codes "trade_status", codes "TRADE_SUCCESS")
    ∷ (codes "money", codes "100.00")
    ∷ []

abbrev received : Params
received = (codes "sign", sign marked message (codes "k")) ∷ message

text_eq_flip : (s t : Text) → text_eq s t ≡ false → text_eq t s ≡ false
text_eq_flip s t ne = elim (Bool-cases (text_eq t s)) [
  | inl hit ↦ absurd (cc ((text_eq_iff s t).1 (sym ((text_eq_iff t s).0 hit)), ne))
  | inr miss ↦ miss
]

same_values : SameSigned message received
unfolding get
same_values x plain other = rw (text_eq_flip x (codes "sign") plain) refl

small : (t : Text) → to_lower (marked t) ≡ marked t
unfolding to_lower to_lower_char
small t = ap (λ s. b'd' ∷ s) (to_lower_idem t)

callback_accepted_example : parse_callback marked secrets received ≡ answer (codes "M1", paid)
unfolding get
callback_accepted_example =
    callback_accepted marked secrets message received (codes "M1") small (λ t. refl)
      (refl, (refl, (refl, (refl, tt)))) (refl, (refl, (refl, (refl, (refl, tt))))) same_values refl
      refl refl refl refl

sign_text-map_example : sign_text message (codes "k") ≡ sign_text received (codes "k")
sign_text-map_example =
    sign_text-map message received (codes "k") (refl, (refl, (refl, (refl, tt))))
      (refl, (refl, (refl, (refl, (refl, tt))))) same_values

abbrev platform : Provider
platform = record {
  configured = true;
  create_charge = λ request. answer (codes "https://pay");
  verify = λ ref. failure not_configured;
  parse_callback = λ params. answer (get (codes "out_trade_no") params, paid);
  refund = λ ref amount. failure not_configured;
}

-- Amounts that are read from their number of characters.
abbrev read_amount : Text → Option ℕ
read_amount t = some 100

abbrev never : ℕ → Bool
never n = false

abbrev same_amount : ℕ → ℕ
same_amount n = n

notify_lem_example :
    Outcome
      (IsAccepted platform read_amount never same_amount message 1000 shop
        (notify platform read_amount never same_amount message 1000 shop).0)
      shop
      (notify platform read_amount never same_amount message 1000 shop)
notify_lem_example = notify_lem platform read_amount never same_amount message 1000 shop

abbrev noticed_shop : Db
noticed_shop = (mark_order_paid (codes "M1") [] 1000 shop).0

notify_again_example :
    notify platform read_amount never same_amount message 2000 noticed_shop
    ≡ (noticed_shop, success)
unfolding notify settle_notice money_to_ldc get get_order_by_no mark_order_paid pay settle deliver
    insert_interval extend_buyer pay_row scanned bought_interval extend_user select_first
    update_where count_where exists_where trim_space
notify_again_example =
    notify_again platform read_amount never same_amount message 1000 2000 shop noticed_shop refl

pledge-AddsUp_example :
    AddsUp 40
      (pledge_handler platform
        (codes "https://me")
        (some 1)
        1
        (some 40)
        (some (codes "LDa"))
        (some (codes "LDb"))
        1000
        (new_rate_limiter 20 3600)
        shop).1
pledge-AddsUp_example =
    pledge-AddsUp platform (codes "https://me") (some 1) 1 40 (some (codes "LDa"))
      (some (codes "LDb")) 1000 (new_rate_limiter 20 3600) shop

abbrev tries : List (ℕ × ℕ)
tries = (1, 5) ∷ (2, 6) ∷ (1, 7) ∷ (1, 9) ∷ (1, 16) ∷ []

allow_bounds_example : count_where (in_window 10 16) (passed 1 [] tries (new_rate_limiter 2 10)) ≤ 2
allow_bounds_example = allow_bounds 2 10 1 tries 16 (omega arith)
