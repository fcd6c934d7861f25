-- ===== src/Server/Orders.antt =====
-- internal/httpserver/user_routes.go: the handlers of payments. The user of the session, the decoded payload,
-- the random order numbers and the times are arguments; a user is `none` without a session.
use relay_scope.Base.{
  ℕ, ◌-◌, ◌*◌, Bool, true, false, not, ◌&&◌, ◌||◌, Option, none, some, [], ◌++◌, ltb, leb, ◌==◌,
  if◌then◌else◌,
}
use relay_scope.Base.Texts.{Text, codes}
use relay_scope.Store.{
  Db, LdcOrder, WishSite, ok, err, OrderKind, wish, membership, pending, ldc, is_pending, is_opened,
}
use relay_scope.Store.Orders.{get_order_by_no, mark_order_paid}
use relay_scope.Store.Wishes.{get_wish_site}
use relay_scope.Store.Credits.{pledge_monthly_credit}
use relay_scope.Payment.{Provider, Params, Status, waiting, paid, failed, Answer, answer, failure}
use relay_scope.Payment.Epay.{get}
use relay_scope.Server.{
  RateLimiter, allow, Reply, rejected, pledged, pledged_and_charged, shown, shown_nothing, success,
  money_to_ldc, ChargeResult, charge, unavailable, charge_failed, charge_reply, create_charge_order,
  membership_monthly_price, wish_free_credit_ldc,
}

-- An order as a handler fills it in.
unfoldable pub order_of : ℕ → OrderKind → Option ℕ → Option ℕ → ℕ → LdcOrder
order_of user kind site days amount = record {
  id = 0;
  order_no = [];
  user_id = user;
  kind = kind;
  wish_site_id = site;
  days = days;
  amount_ldc = amount;
  funding = ldc;
  status = pending;
  platform_trade_no = [];
  created_at = 0;
  paid_at = none;
}

-- The months of a payload: one where it does not decode, or is not positive.
abbrev pub months_of : Option ℕ → ℕ
months_of none = 1
months_of (some n) = if n == 0 then 1 else n

module _ (provider : Provider) (public_url : Text) (describe : ℕ → Text) where
  unfoldable pub recharge :
      Option ℕ → Option ℕ → Option Text → ℕ → RateLimiter → Db → (RateLimiter × Db) × Reply
  unfolding order_of
  recharge none payload number now l db = ((l, db), rejected 401)
  recharge (some user) payload number now l db =
      let (l', allowed) = allow user now l in
      let months = months_of payload in
      if not allowed
      then ((l', db), rejected 429)
      else if ltb 36 months
      then ((l', db), rejected 400)
      else let (db', result) =
          create_charge_order provider public_url number (describe months)
            (order_of user membership none (some (months * 30))
              (membership_monthly_price db * months))
            now db in
        ((l', db'), charge_reply result)

-- The answer to a pledge whose rest is charged.
abbrev pub rest_reply : ℕ → ℕ → ChargeResult → Reply
rest_reply credit_used amount (charge number pay_url rest) =
    pledged_and_charged credit_used amount number pay_url rest
rest_reply credit_used amount unavailable = rejected 501
rest_reply credit_used amount charge_failed = rejected 502

module _ (provider : Provider) (public_url : Text) where
  -- After the free credit, what is left is charged.
  unfoldable pub charge_rest : ℕ → WishSite → ℕ → ℕ → Option Text → ℕ → Db → Db × Reply
  unfolding order_of
  charge_rest user site amount credit_used number now db =
      if leb amount credit_used
      then (db, pledged credit_used amount)
      else let (db', result) =
          create_charge_order provider public_url number (codes "许愿助力 · " ++ site.name)
            (order_of user wish (some site.id) none (amount - credit_used)) now db in
        (db', rest_reply credit_used amount result)

  unfoldable pub pledge_site : ℕ → WishSite → ℕ → Text → Option Text → ℕ → Db → Db × Reply
  unfolding charge_rest
  pledge_site user site amount credit_number number now db =
      let (db', used) =
        pledge_monthly_credit user site.id credit_number amount (wish_free_credit_ldc db) now db in
      elim used [
        | err e ↦ (db', rejected 500)
        | ok credit_used ↦ charge_rest user site amount credit_used number now db'
      ]

  unfoldable pub pledge_amount :
      ℕ → WishSite → Option ℕ → Option Text → Option Text → ℕ → Db → Db × Reply
  unfolding pledge_site
  pledge_amount user site none credit_number number now db = (db, rejected 400)
  pledge_amount user site (some amount) credit_number number now db =
      if ltb amount 1 || ltb 10000 amount then (db, rejected 400) else elim credit_number [
        | none ↦ (db, rejected 500)
        | some text ↦ pledge_site user site amount text number now db
      ]

  unfoldable pub pledge_handler :
      Option ℕ
      → ℕ
      → Option ℕ
      → Option Text
      → Option Text
      → ℕ
      → RateLimiter
      → Db
      → (RateLimiter × Db) × Reply
  unfolding pledge_amount
  pledge_handler none id payload credit_number number now l db = ((l, db), rejected 401)
  pledge_handler (some user) id payload credit_number number now l db =
      let (l', allowed) = allow user now l in
      if not allowed
      then ((l', db), rejected 429)
      else if id == 0
      then ((l', db), rejected 400)
      else elim (get_wish_site id db) [
        | err e ↦ ((l', db), rejected 404)
        | ok site ↦
            if not (is_opened site.status)
            then ((l', db), rejected 400)
            else let (db', reply) = pledge_amount user site payload credit_number number now db in
              ((l', db'), reply)
      ]

abbrev pub is_status_paid : Answer Status → Bool
is_status_paid (answer paid) = true
is_status_paid _ = false

module _ (provider : Provider) where
  -- The order again, as it is after its payment was settled. The membership shown with it is left out.
  unfoldable pub settle_order : LdcOrder → ℕ → Db → Db × Reply
  settle_order o now db =
      let (db', result) = mark_order_paid o.order_no o.order_no now db in
      elim result [
        | err e ↦ (db', rejected 500)
        | ok r ↦ elim (get_order_by_no o.order_no db') [
          | err e ↦ (db', shown_nothing)
          | ok row ↦ (db', shown row)
        ]
      ]

  -- A pending order is looked up at the platform.
  unfoldable pub order_handler : Option ℕ → Text → ℕ → Db → Db × Reply
  unfolding settle_order
  order_handler none number now db = (db, rejected 401)
  order_handler (some user) number now db = elim (get_order_by_no number db) [
    | err e ↦ (db, rejected 404)
    | ok o ↦
        if not (o.user_id == user)
        then (db, rejected 404)
        else if is_pending o.status
            && provider.configured
            && is_status_paid (provider.verify o.order_no)
        then settle_order o now db
        else (db, shown o)
  ]

  -- The order of a notice that was accepted; `money` is the amount it names.
  unfoldable pub settle_notice : Text → Option ℕ → Text → ℕ → Db → Db × Reply
  settle_notice ref money trade_no now db = elim (get_order_by_no ref db) [
    | err e ↦ (db, rejected 400)
    | ok o ↦ elim money [
      | none ↦ (db, rejected 400)
      | some amount ↦
          if not (amount == o.amount_ldc)
          then (db, rejected 400)
          else let (db', result) = mark_order_paid o.order_no trade_no now db in
            elim result [ err e ↦ (db', rejected 500) | ok r ↦ (db', success) ]
    ]
  ]

  unfoldable pub notify :
      {F : Type 0} → (Text → Option F) → (F → Bool) → (F → ℕ) → Params → ℕ → Db → Db × Reply
  unfolding settle_notice money_to_ldc
  notify parse is_negative rounded params now db =
      if not provider.configured
      then (db, rejected 501)
      else elim (provider.parse_callback params) [
        | failure e ↦ (db, rejected 400)
        | answer (ref, waiting) ↦ (db, rejected 400)
        | answer (ref, failed) ↦ (db, rejected 400)
        | answer (ref, paid) ↦
            settle_notice ref (money_to_ldc parse is_negative rounded (get (codes "money") params))
              (get (codes "trade_no") params) now db
      ]
