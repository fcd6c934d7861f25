-- ===== src/Server/Pledges.antt =====
-- A pledge is paid from the free credit and by a charge, which add up to it.
use relay_scope.Base.{
  ℕ, ◌+◌, ◌++◌, ◌-◌, ◌<◌, ◌≤◌, ◌≡◌, refl, sym, subst, inl, inr, Option, none, some, ltb, leb, ◌==◌,
  ◌||◌, arith, Bool-cases, Option-cases,
}
use relay_scope.Base.Texts.{Text, codes}
use relay_scope.Store.{Db, LdcOrder, WishSite, ok-cases, is_opened, wish}
use relay_scope.Store.Orders.{create_order}
use relay_scope.Store.Wishes.{get_wish_site}
use relay_scope.Store.Credits.{pledge_monthly_credit}
use relay_scope.Store.Credits.Accounts.{pledge_accounts}
use relay_scope.Payment.{Provider}
use relay_scope.Server.{
  RateLimiter, allow, Reply, rejected, pledged, pledged_and_charged, ChargeResult, charge,
  unavailable, charge_failed, create_charge_order, wish_free_credit_ldc, charge_request,
}
use relay_scope.Server.Orders.{
  order_of, rest_reply, charge_rest, pledge_site, pledge_amount, pledge_handler,
}
use relay_scope.Server.Notices.{Answer-cases}

-- The parts of an answer to a pledge of `amount`.
abbrev pub AddsUp : ℕ → Reply → Type 0
AddsUp amount (pledged used of) = (of ≡ amount) × (used ≡ amount)
AddsUp amount (pledged_and_charged used of number pay_url rest) =
    (of ≡ amount) × (used + rest ≡ amount) × (0 < rest)
AddsUp amount _ = Unit

-- A charge is for the amount of its order.
abbrev IsFor : ℕ → ChargeResult → Type 0
IsFor amount (charge number pay_url of) = of ≡ amount
IsFor amount _ = Unit

shaped :
    (amount : ℕ) (result shape : ChargeResult)
    → result ≡ shape
    → IsFor amount shape
    → IsFor amount result
shaped amount result shape e h = subst (IsFor amount) (sym e) h

replied :
    (amount : ℕ) (reply shape : Reply) → reply ≡ shape → AddsUp amount shape → AddsUp amount reply
replied amount reply shape e h = subst (AddsUp amount) (sym e) h

module _ (provider : Provider) (public_url : Text) where
  charge_amount :
      (number : Option Text) (description : Text) (o : LdcOrder) (now : ℕ) (db : Db)
      → IsFor o.amount_ldc (create_charge_order provider public_url number description o now db).1
  unfolding create_charge_order
  charge_amount none description o now db = elim (Bool-cases provider.configured) [
    | inl on ↦ rw on tt
    | inr off ↦ rw off tt
  ]
  charge_amount (some number) description o now db =
      let result = (create_charge_order provider public_url (some number) description o now db).1 in
      elim (Bool-cases provider.configured) [
        | inr off ↦ shaped o.amount_ldc result unavailable (ground (arith, off)) tt
        | inl on ↦ elim (ok-cases (create_order (record o { order_no = number }) now db).1) [
          | inl (e, fails) ↦ shaped o.amount_ldc result charge_failed (ground (arith, on, fails)) tt
          | inr (row, created) ↦
              elim (Answer-cases
                (provider.create_charge (charge_request public_url description number o))) [
                  | inl (e, declined) ↦
                      shaped o.amount_ldc result charge_failed
                        (ground (arith, on, created, declined)) tt
                  | inr (url, agreed) ↦
                      shaped o.amount_ldc result (charge number url o.amount_ldc)
                        (ground (arith, on, created, agreed)) refl
                ]
        ]
      ]

  rest_lem :
      (amount used : ℕ) (result : ChargeResult)
      → used < amount
      → IsFor (amount - used) result
      → AddsUp amount (rest_reply used amount result)
  rest_lem amount used (charge number pay_url of) lt for = (refl, omega arith, omega arith)
  rest_lem amount used unavailable lt for = tt
  rest_lem amount used charge_failed lt for = tt

  charge_rest_lem :
      (user : ℕ) (site : WishSite) (amount used : ℕ) (number : Option Text) (now : ℕ) (db : Db)
      → used ≤ amount
      → AddsUp amount (charge_rest provider public_url user site amount used number now db).1
  unfolding charge_rest order_of
  charge_rest_lem user site amount used number now db le = elim (Bool-cases (leb amount used)) [
    | inl covered ↦ rw covered (refl, ground arith)
    | inr short ↦
        let o = order_of user wish (some site.id) none (amount - used) in
        rw short (
          rest_lem amount used
            (create_charge_order provider public_url number (codes "许愿助力 · " ++ site.name) o now
              db).1
            (ground (arith, short)) (charge_amount number (codes "许愿助力 · " ++ site.name) o now db))
  ]

  site_lem :
      (user : ℕ) (site : WishSite) (amount : ℕ) (credit_number : Text) (number : Option Text)
      (now : ℕ) (db : Db)
      → AddsUp amount
          (pledge_site provider public_url user site amount credit_number number now db).1
  unfolding pledge_site
  site_lem user site amount credit_number number now db =
      let grant = wish_free_credit_ldc db in
      let step = pledge_monthly_credit user site.id credit_number amount grant now db in
      let reply =
        (pledge_site provider public_url user site amount credit_number number now db).1 in
      elim (ok-cases step.1) [
        | inl (e, fails) ↦ replied amount reply (rejected 500) (ground (arith, fails)) tt
        | inr (used, works) ↦
            let accounts =
              pledge_accounts user site.id credit_number amount grant now used db step.0
                (ground (arith, works)) in
            replied amount reply
              (charge_rest provider public_url user site amount used number now step.0).1
              (ground (arith, works))
              (charge_rest_lem user site amount used number now step.0 accounts.0)
      ]

  amount_lem :
      (user : ℕ) (site : WishSite) (amount : ℕ) (credit_number number : Option Text) (now : ℕ)
      (db : Db)
      → AddsUp amount
          (pledge_amount provider public_url user site (some amount) credit_number number now db).1
  unfolding pledge_amount
  amount_lem user site amount credit_number number now db =
      let reply =
        (pledge_amount provider public_url user site (some amount) credit_number number now db).1 in
      elim (Bool-cases (ltb amount 1 || ltb 10000 amount)) [
        | inl out ↦ replied amount reply (rejected 400) (ground (arith, out)) tt
        | inr fine ↦ elim (Option-cases credit_number) [
          | inl missing ↦ replied amount reply (rejected 500) (ground (arith, fine, missing)) tt
          | inr (text, there) ↦
              replied amount reply
                (pledge_site provider public_url user site amount text number now db).1
                (ground (arith, fine, there)) (site_lem user site amount text number now db)
        ]
      ]

  -- An answer to a pledge of an amount that is not an error says that amount, and either the free credit paid all of it or
  -- the credit and the charge, which is not zero, add up to it.
  pub pledge-AddsUp :
      (user : Option ℕ) (id amount : ℕ) (credit_number number : Option Text) (now : ℕ)
      (l : RateLimiter) (db : Db)
      → AddsUp amount
          (pledge_handler provider public_url user id (some amount) credit_number number now l db).1
  unfolding pledge_handler
  pledge-AddsUp none id amount credit_number number now l db = tt
  pledge-AddsUp (some user) id amount credit_number number now l db =
      let reply =
        (pledge_handler provider public_url (some user) id (some amount) credit_number number now l
          db).1 in
      elim (Bool-cases (allow user now l).1) [
        | inr stopped ↦ replied amount reply (rejected 429) (ground (arith, stopped)) tt
        | inl free ↦ elim (Bool-cases (id == 0)) [
          | inl zero_id ↦ replied amount reply (rejected 400) (ground (arith, free, zero_id)) tt
          | inr good ↦ elim (ok-cases (get_wish_site id db)) [
            | inl (e, missing) ↦
                replied amount reply (rejected 404) (ground (arith, free, good, missing)) tt
            | inr (site, there) ↦ elim (Bool-cases (is_opened site.status)) [
              | inr closed ↦
                  replied amount reply (rejected 400) (ground (arith, free, good, there, closed)) tt
              | inl open_site ↦
                  replied amount reply
                    (pledge_amount provider public_url user site (some amount) credit_number number
                      now db).1
                    (ground (arith, free, good, there, open_site))
                    (amount_lem user site amount credit_number number now db)
            ]
          ]
        ]
      ]
