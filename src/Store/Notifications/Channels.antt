-- ===== src/Store/Notifications/Channels.antt =====
-- internal/store/notifications.go: what users do with their subscriptions.
use relay_scope.Base.{
  ℕ, max, Bool, true, false, not, ◌&&◌, ◌||◌, List, [], ◌∷◌, ◌++◌, map, ltb, ◌==◌, if◌then◌else◌,
  select_where, update_where, count_where, exists_where, next_id,
}
use relay_scope.Base.Texts.{Text, text_eq}
use relay_scope.Store.{User, user_is, constraint, Result, ok, err}
use relay_scope.Store.Wishes.{sort_by}
use relay_scope.Store.Notifications.{Subscription, Mail, cancelled, is_waiting, subscription_is}

abbrev pub is_of_user : ℕ → Subscription → Bool
is_of_user user s = s.user_id == user

-- The least id of a user's subscriptions to a site, or the given one.
abbrev pub least_id : ℕ → ℕ → List Subscription → ℕ
least_id site id [] = id
least_id site id (s ∷ rest) =
    least_id site (if s.site_id == site && ltb s.id id then s.id else id) rest

abbrev pub site_of : Subscription → ℕ
site_of s = s.site_id

abbrev pub has_site : ℕ → List ℕ → Bool
has_site site [] = false
has_site site (i ∷ rest) = i == site || has_site site rest

-- GROUP BY site_id: a site with its least id, for each site not seen before.
unfoldable pub groups_from : List ℕ → List Subscription → List (ℕ × ℕ)
groups_from seen [] = []
groups_from seen (s ∷ rest) =
    let more = groups_from (s.site_id ∷ seen) rest in
    let same = groups_from seen rest in
    if has_site s.site_id seen then same else (s.site_id, least_id s.site_id s.id rest) ∷ more

-- SELECT site_id … WHERE user_id = ? GROUP BY site_id ORDER BY MIN(id)
unfoldable pub distinct_subscription_sites : ℕ → Mail → List ℕ
unfolding groups_from
distinct_subscription_sites user m =
    map (λ g. g.0)
      (sort_by (λ a b. ltb a.1 b.1)
        (groups_from [] (select_where (is_of_user user) m.subscriptions)))

-- ORDER BY created_at DESC. The join with sites keeps every row, by the foreign key; the site's name is
-- left out.
unfoldable pub list_user_subscriptions : ℕ → Mail → List Subscription
list_user_subscriptions user m =
    sort_by (λ a b. ltb b.created_at a.created_at) (select_where (is_of_user user) m.subscriptions)

abbrev pub same_channel : Subscription → Subscription → Bool
same_channel a b =
    a.user_id == b.user_id
    && a.site_id == b.site_id
    && text_eq a.platform b.platform
    && text_eq a.target b.target

-- The id is one more than any that a subscription has, or that the outbox or the deliveries remember.
unfoldable pub fresh_id : Mail → ℕ
fresh_id m = max (next_id (λ s. s.id) m.subscriptions) (
    max (next_id (λ e. e.subscription_id) m.outbox) (next_id (λ d. d.subscription_id) m.deliveries))

unfoldable pub create_subscription :
    List User → List ℕ → ℕ → ℕ → Text → Text → Text → ℕ → Mail → Mail × Result Subscription
unfolding fresh_id
create_subscription users sites user site platform target config now m =
    let s : Subscription = record {
      id = fresh_id m;
      user_id = user;
      site_id = site;
      platform = platform;
      target = target;
      config = config;
      enabled = true;
      created_at = now;
      updated_at = now;
    } in
    if exists_where (same_channel s) m.subscriptions
      || not (exists_where (user_is user) users && has_site site sites)
    then (m, err constraint)
    else (record m { subscriptions = m.subscriptions ++ s ∷ [] }, ok s)

-- UNIQUE(user_id, site_id, platform, target)
unfoldable pub has_unique_channels : List Subscription → Bool
has_unique_channels [] = true
has_unique_channels (s ∷ rest) =
    not (exists_where (same_channel s) rest) && has_unique_channels rest

abbrev pub redirect : Text → Text → ℕ → Subscription → Subscription
redirect platform target now s = record s { platform = platform; target = target; updated_at = now }

-- Waiting messages of the user's subscriptions go to the new channel.
unfoldable pub repoint : ℕ → Text → Text → Mail → Mail
repoint user platform target m = record m {
  outbox =
      update_where
        (λ e.
          exists_where (λ s. subscription_is e.subscription_id s && is_of_user user s)
            m.subscriptions
          && is_waiting e.status)
        (λ e. record e { platform = platform; target = target }) m.outbox;
}

unfoldable pub update_subscription_channel : ℕ → Text → Text → ℕ → Mail → Mail × Result ℕ
unfolding has_unique_channels repoint
update_subscription_channel user platform target now m =
    let rows = update_where (is_of_user user) (redirect platform target now) m.subscriptions in
    let count = count_where (is_of_user user) m.subscriptions in
    if not (has_unique_channels rows)
    then (m, err constraint)
    else if count == 0
    then (record m { subscriptions = rows }, ok 0)
    else (repoint user platform target (record m { subscriptions = rows }), ok count)

abbrev pub is_own : ℕ → ℕ → Subscription → Bool
is_own user id s = subscription_is id s && is_of_user user s

-- A transaction: a subscription that is not the user's changes nothing.
unfoldable pub delete_subscription : ℕ → ℕ → Mail → Mail × Bool
delete_subscription user id m =
    if exists_where (is_own user id) m.subscriptions
    then (
      record m {
        subscriptions = select_where (λ s. not (is_own user id s)) m.subscriptions;
        outbox =
            update_where (λ e. e.subscription_id == id && is_waiting e.status)
              (λ e. record e { status = cancelled }) m.outbox;
      },
      true,
    )
    else (m, false)
