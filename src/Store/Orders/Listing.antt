-- ===== src/Store/Orders/Listing.antt =====
-- ListOrders of internal/store/ldc_orders.go and ListRedeemCodes of internal/store/redeem.go: pages of
-- rows, the newest first. An empty filter text is `none`.
use relay_scope.Base.{
  ℕ, ◌≤◌, ◌≡◌, inl, inr, Bool, true, false, ◌&&◌, ◌||◌, Option, none, some, List, [], ◌∷◌, ltb,
  ◌==◌, if◌then◌else◌, arith, Bool-cases, Option-cases, or_zero, All, length, take, drop,
  length-take-le, All-take, select_first, select_where, map,
}
use relay_scope.Base.Texts.{Text}
use relay_scope.Store.{
  User, LdcOrder, RedeemCode, Db, OrderKind, wish, membership, other_kind, OrderStatus, pending,
  paid, refunded, cancelled, RedeemStatus, unused, used, revoked, user_is,
}
use relay_scope.Store.Wishes.{sort_by}
use relay_scope.Store.Wishes.Sorting.{
  newest, IsFalling, sort-IsFalling, take-IsFalling, drop-IsFalling, All-sort_by, All-drop,
}

-- An order with the name of its user.
pub record OrderView : Type 0 where
  pub order : LdcOrder
  pub username : Text

abbrev pub same_kind : OrderKind → OrderKind → Bool
same_kind wish wish = true
same_kind membership membership = true
same_kind other_kind other_kind = true
same_kind _ _ = false

abbrev pub same_status : OrderStatus → OrderStatus → Bool
same_status pending pending = true
same_status paid paid = true
same_status refunded refunded = true
same_status cancelled cancelled = true
same_status _ _ = false

abbrev pub passes {ℓ} : {A : Type ℓ} → (A → A → Bool) → Option A → A → Bool
passes same none a = true
passes same (some b) a = same b a

unfoldable pub shown_limit : ℕ → ℕ
shown_limit limit = if limit == 0 || ltb 500 limit then 100 else limit

-- The WHERE of the query; user 0 does not filter.
abbrev pub wanted : ℕ → Option OrderKind → Option OrderStatus → LdcOrder → Bool
wanted user kind status o =
    (user == 0 || o.user_id == user)
    && passes same_kind kind o.kind
    && passes same_status status o.status

-- JOIN users: an order without its user is left out.
unfoldable pub join_users : List User → List LdcOrder → List OrderView
join_users users [] = []
join_users users (o ∷ orders) = elim (select_first (user_is o.user_id) users) [
  | none ↦ join_users users orders
  | some u ↦ record { order = o; username = u.username } ∷ join_users users orders
]

unfoldable pub list_orders : ℕ → Option OrderKind → Option OrderStatus → ℕ → Db → List OrderView
unfolding join_users shown_limit
list_orders user kind status limit db = take (shown_limit limit) (
    sort_by (newest (λ v. v.order.id))
      (join_users db.users (select_where (wanted user kind status) db.orders)))

pub record CodeView : Type 0 where
  pub code : RedeemCode
  pub redeemed_by : ℕ
  pub redeemed_by_name : Text

abbrev pub same_redeem_status : RedeemStatus → RedeemStatus → Bool
same_redeem_status unused unused = true
same_redeem_status used used = true
same_redeem_status revoked revoked = true
same_redeem_status _ _ = false

-- LEFT JOIN users: no user, no name.
unfoldable pub code_view : List User → RedeemCode → CodeView
code_view users c = record {
  code = c;
  redeemed_by = or_zero c.redeemed_by;
  redeemed_by_name = elim (select_first (user_is (or_zero c.redeemed_by)) users) [
    | none ↦ []
    | some u ↦ u.username
  ];
}

unfoldable pub list_redeem_codes : Option RedeemStatus → ℕ → ℕ → Db → List CodeView
unfolding code_view shown_limit
list_redeem_codes status limit offset db = take (shown_limit limit) (
    drop offset (
      sort_by (newest (λ v. v.code.id)) (
        map (code_view db.users)
          (select_where (λ c. passes same_redeem_status status c.status) db.codes))))

shown_limit-le : (limit : ℕ) → shown_limit limit ≤ 500
unfolding shown_limit
shown_limit-le limit = ground arith

All-select_where :
    {A : Type 0} (p : A → Bool) (xs : List A) → All (λ x. p x ≡ true) (select_where p xs)
unfolding select_where
All-select_where p [] = tt
All-select_where p (x ∷ xs) = elim (Bool-cases (p x)) [
  | inl hit ↦ rw hit (hit, All-select_where p xs)
  | inr miss ↦ rw miss (All-select_where p xs)
]

All-join_users :
    (P : LdcOrder → Type 0) (users : List User) (orders : List LdcOrder)
    → All P orders
    → All (λ v. P v.order) (join_users users orders)
unfolding join_users
All-join_users P users [] h = tt
All-join_users P users (o ∷ orders) h =
    elim (Option-cases (select_first (user_is o.user_id) users)) [
      | inl missing ↦ rw (missing, join_users) (All-join_users P users orders h.1)
      | inr (u, e) ↦ rw (e, join_users) (h.0, All-join_users P users orders h.1)
    ]

-- A list of orders has at most 500 entries, the newest first, and every entry passes the filters for
-- user, kind and status.
pub list_orders_lem :
    (user limit : ℕ) (kind : Option OrderKind) (status : Option OrderStatus) (db : Db)
    → (length (list_orders user kind status limit db) ≤ 500)
      × IsFalling (λ v. v.order.id) (list_orders user kind status limit db)
      × All (λ v. wanted user kind status v.order ≡ true) (list_orders user kind status limit db)
unfolding list_orders
list_orders_lem user limit kind status db =
    let rows = join_users db.users (select_where (wanted user kind status) db.orders) in
    let sorted = sort_by (newest (λ (v : OrderView). v.order.id)) rows in
    let short = length-take-le (shown_limit limit) sorted in
    let bound = shown_limit-le limit in
    (
      omega (arith, short, bound),
      take-IsFalling (λ v. v.order.id) (shown_limit limit) sorted
          (sort-IsFalling (λ v. v.order.id) rows),
      All-take (λ v. wanted user kind status v.order ≡ true) (shown_limit limit) sorted
          (All-sort_by (λ v. wanted user kind status v.order ≡ true) (newest (λ v. v.order.id)) rows
            (All-join_users (λ o. wanted user kind status o ≡ true) db.users
              (select_where (wanted user kind status) db.orders)
              (All-select_where (wanted user kind status) db.orders))),
    )

All-code_view :
    (P : RedeemCode → Type 0) (users : List User) (codes : List RedeemCode)
    → All P codes
    → All (λ v. P v.code) (map (code_view users) codes)
unfolding code_view
All-code_view P users [] h = tt
All-code_view P users (c ∷ codes) h = (h.0, All-code_view P users codes h.1)

-- A page of redeem codes has at most 500 entries, the newest first, all of the status that was asked for.
pub list_redeem_codes_lem :
    (status : Option RedeemStatus) (limit offset : ℕ) (db : Db)
    → (length (list_redeem_codes status limit offset db) ≤ 500)
      × IsFalling (λ v. v.code.id) (list_redeem_codes status limit offset db)
      × All
          (λ v. passes same_redeem_status status v.code.status ≡ true)
          (list_redeem_codes status limit offset db)
unfolding list_redeem_codes
list_redeem_codes_lem status limit offset db =
    let P = λ (v : CodeView). passes same_redeem_status status v.code.status ≡ true in
    let key = λ (v : CodeView). v.code.id in
    let chosen = select_where (λ c. passes same_redeem_status status c.status) db.codes in
    let rows = map (code_view db.users) chosen in
    let sorted = sort_by (newest key) rows in
    let short = length-take-le (shown_limit limit) (drop offset sorted) in
    let bound = shown_limit-le limit in
    (
      omega (arith, short, bound),
      take-IsFalling key (shown_limit limit) (drop offset sorted)
          (drop-IsFalling key offset sorted (sort-IsFalling key rows)),
      All-take P (shown_limit limit) (drop offset sorted) (
          All-drop P (newest key) offset sorted (
            All-sort_by P (newest key) rows (
              All-code_view (λ c. passes same_redeem_status status c.status ≡ true) db.users chosen
                (All-select_where (λ c. passes same_redeem_status status c.status) db.codes)))),
    )
