-- ===== src/Store/Wishes.antt =====
-- internal/store/wishes.go: the wish pool, its domains, and the progress of its sites. `parse_url`
-- stands for net/url: it gives the scheme and the host name of a text, or fails.
pub mod Updates
pub mod Sorting
use relay_scope.Base.{
  ℕ, ◌+◌, Bool, true, false, not, ◌&&◌, ◌||◌, Option, none, some, List, [], ◌∷◌, ◌++◌, map, ltb,
  leb, ◌==◌, if◌then◌else◌, or_zero, is_some, length, select_first, select_where, update_where,
  count_where, sum_where, exists_where, next_id,
}
use relay_scope.Base.Texts.{
  Text, text_eq, codes, is_empty, to_lower, trim_space, trim_prefix, contains,
}
use relay_scope.Store.{
  LdcOrder, WishSite, Db, WishStatus, opened, reached, connected, is_opened, is_reached, is_paid,
  Error, no_rows, constraint, login_required, bad_name, missing_url, bad_url, bad_scheme,
  wish_duplicate, bad_target, unknown_status, Result, ok, err, user_is, wish_is, opt_is,
}
use relay_scope.Store.Orders.{pledged, pledges}

module _ (parse_url : Text → Option (Text × Text)) where
  -- The checks of the parsed address: http or https, and a host of 1 to 253 bytes without `www.`.
  unfoldable pub check_host : Text → Text → Result (Text × Text)
  unfolding to_lower trim_prefix
  check_host scheme hostname =
      if is_empty hostname
      then err bad_url
      else if text_eq scheme (codes "http") || text_eq scheme (codes "https")
      then (let host = trim_prefix (codes "www.") (to_lower hostname) in
          if is_empty host || ltb 253 (length host)
          then err bad_url
          else ok (host, codes "https://" ++ host))
      else err bad_scheme

  unfoldable pub normalize_wish_domain : Text → Result (Text × Text)
  unfolding check_host
  normalize_wish_domain raw =
      let trimmed = trim_space raw in
      if is_empty trimmed
      then err missing_url
      else elim (parse_url
          (if contains (codes "://") trimmed then trimmed else codes "https://" ++ trimmed)) [
            | none ↦ err bad_url
            | some (scheme, hostname) ↦ check_host scheme hostname
          ]

  unfoldable pub new_wish : ℕ → Text → Text → Text → Bool → ℕ → ℕ → List WishSite → WishSite
  new_wish user_id name domain url invite target now rows = record {
    id = next_id (λ w. w.id) rows;
    domain = domain;
    name = name;
    url = url;
    invite_required = invite;
    target_ldc = if invite then none else some target;
    status = opened;
    created_by = user_id;
    created_at = now;
    resolved_at = none;
  }

  abbrev pub domain_is : Text → WishSite → Bool
  domain_is domain w = text_eq w.domain domain

  -- INSERT INTO wish_sites: a target is positive, the creator is a foreign key.
  unfoldable pub insert_wish : WishSite → Db → Db × Result WishSite
  insert_wish w db =
      if opt_is w.target_ldc 0 || not (exists_where (user_is w.created_by) db.users)
      then (db, err constraint)
      else (record db { wishes = db.wishes ++ w ∷ [] }, ok w)

  unfoldable pub create_wish_site : ℕ → Text → Text → Bool → ℕ → ℕ → Db → Db × Result WishSite
  unfolding insert_wish new_wish
  create_wish_site user_id raw_name raw_url invite default_target now db =
      if user_id == 0
      then (db, err login_required)
      else (let name = trim_space raw_name in
          if is_empty name || ltb 60 (length name)
          then (db, err bad_name)
          else elim (normalize_wish_domain raw_url) [
            | err e ↦ (db, err e)
            | ok (domain, url) ↦
                if exists_where (domain_is domain) db.wishes
                then (db, err wish_duplicate)
                else insert_wish
                    (new_wish user_id name domain url invite default_target now db.wishes) db
          ])

-- The progress of a site: what its paid orders give, and how many people gave it.
pub record WishSummary : Type 0 where
  pub site : WishSite
  pub pledged_ldc : ℕ
  pub pledgers : ℕ
  pub my_pledged_ldc : ℕ

abbrev pub is_in : List ℕ → ℕ → Bool
is_in [] i = false
is_in (j ∷ ids) i = j == i || is_in ids i

-- COUNT(DISTINCT user_id)
unfoldable pub count_distinct : List ℕ → ℕ
count_distinct [] = 0
count_distinct (i ∷ ids) = (if is_in ids i then 0 else 1) + count_distinct ids

unfoldable pub pledgers_of : ℕ → List LdcOrder → ℕ
unfolding count_distinct
pledgers_of wish_id orders =
    count_distinct (map (λ o. o.user_id) (select_where (pledges wish_id) orders))

unfoldable pub summarize : List LdcOrder → WishSite → WishSummary
unfolding pledgers_of
summarize orders w = record {
  site = w;
  pledged_ldc = pledged w.id orders;
  pledgers = pledgers_of w.id orders;
  my_pledged_ldc = 0;
}

-- ORDER BY (open first), pledged DESC, id ASC
unfoldable pub listed_before : WishSummary → WishSummary → Bool
listed_before a b =
    if is_opened a.site.status
    then (if is_opened b.site.status then more_pledged else true)
    else (if is_opened b.site.status then false else more_pledged)
  where
    more_pledged : Bool
    more_pledged =
        ltb b.pledged_ldc a.pledged_ldc || a.pledged_ldc == b.pledged_ldc && ltb a.site.id b.site.id

unfoldable pub insert_by {ℓ} : {A : Type ℓ} → (A → A → Bool) → A → List A → List A
insert_by before a [] = a ∷ []
insert_by before a (b ∷ rest) = if before b a then b ∷ insert_by before a rest else a ∷ b ∷ rest

unfoldable pub sort_by {ℓ} : {A : Type ℓ} → (A → A → Bool) → List A → List A
unfolding insert_by
sort_by before [] = []
sort_by before (a ∷ rest) = insert_by before a (sort_by before rest)

unfoldable pub add_mine : ℕ → List LdcOrder → WishSummary → WishSummary
add_mine viewer orders s = record s {
  my_pledged_ldc =
      sum_where (λ o. o.user_id == viewer && pledges s.site.id o) (λ o. o.amount_ldc) orders;
}

unfoldable pub list_wish_sites : ℕ → Db → List WishSummary
unfolding summarize listed_before sort_by add_mine
list_wish_sites viewer db =
    let items = sort_by listed_before (
      map (summarize db.orders)
        (select_where (λ w. is_opened w.status || is_reached w.status) db.wishes)) in
    if viewer == 0 then items else map (add_mine viewer db.orders) items

unfoldable pub list_all_wish_sites : Db → List WishSummary
unfolding summarize sort_by
list_all_wish_sites db =
    sort_by (λ a b. ltb b.site.id a.site.id) (map (summarize db.orders) db.wishes)

unfoldable pub get_wish_site : ℕ → Db → Result WishSite
get_wish_site id db = elim (select_first (wish_is id) db.wishes) [
  | none ↦ err no_rows
  | some w ↦ ok w
]

-- The status text of a request: empty, one of the four, or another.
pub data StatusArgument : Type 0 where
  unchanged : StatusArgument
  known : WishStatus → StatusArgument
  unknown : StatusArgument

unfoldable pub set_target : ℕ → ℕ → Db → Db
set_target target id db = record db {
  wishes = update_where (wish_is id) (λ w. record w { target_ldc = some target }) db.wishes;
}

-- A site that leaves the open state is resolved now.
unfoldable pub status_row : WishStatus → ℕ → WishSite → WishSite
status_row status now w = record w {
  status = status;
  resolved_at = if is_opened status then w.resolved_at else some now;
}

unfoldable pub set_status : StatusArgument → ℕ → ℕ → Db → Db × Result WishSite
unfolding status_row
set_status unchanged id now db = (db, get_wish_site id db)
set_status (known status) id now db =
    let db' = record db { wishes = update_where (wish_is id) (status_row status now) db.wishes } in
    (db', get_wish_site id db')
set_status unknown id now db = (db, err unknown_status)

-- No transaction: the target is written before the status is looked at.
unfoldable pub update_wish_site : ℕ → Option ℕ → StatusArgument → ℕ → Db → Db × Result WishSite
unfolding set_target set_status
update_wish_site id none status now db = set_status status id now db
update_wish_site id (some target) status now db =
    if target == 0 || ltb 1000000 target
    then (db, err bad_target)
    else set_status status id now (set_target target id db)

-- The orders of a site go with it (ON DELETE CASCADE), unless an interval or a refund attempt still
-- names one of them.
abbrev pub order_of_wish : ℕ → LdcOrder → Bool
order_of_wish wish_id o = opt_is o.wish_site_id wish_id

unfoldable pub is_referenced : Db → LdcOrder → Bool
is_referenced db o =
    exists_where (λ i. i.order_id == o.id) db.intervals
    || exists_where (λ a. a.order_id == o.id) db.attempts

unfoldable pub delete_wish_site : ℕ → Db → Db × Result (Unit {0})
unfolding is_referenced
delete_wish_site id db =
    if count_where (wish_is id) db.wishes == 0
    then (db, err no_rows)
    else if exists_where (λ o. order_of_wish id o && is_referenced db o) db.orders
    then (db, err constraint)
    else (
      record db {
        wishes = select_where (λ w. not (wish_is id w)) db.wishes;
        orders = select_where (λ o. not (order_of_wish id o)) db.orders;
      },
      ok tt,
    )
