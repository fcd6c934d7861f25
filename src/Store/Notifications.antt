-- ===== src/Store/Notifications.antt =====
-- internal/store/notifications.go: subscriptions of users to sites, the outbox of messages with its states,
-- and the record of deliveries. The three tables are one value; users and sites are given where a
-- foreign key asks for them. json.Unmarshal of a message is the parameter `decode`.
pub mod Channels
pub mod Ids
use relay_scope.Base.{
  ℕ, ◌+◌, max, Bool, true, false, not, ◌&&◌, ◌||◌, Option, none, some, List, [], ◌∷◌, ◌++◌, map,
  ltb, leb, ◌==◌, if◌then◌else◌, or_zero, take, select_first, select_where, update_where,
  count_where, exists_where, next_id, reverse,
}
use relay_scope.Base.Texts.{Text, text_eq, codes, is_empty, cut_prefix}
use relay_scope.Store.{User, user_is, constraint, Result, ok, err}
use relay_scope.Store.Wishes.{sort_by}

pub data OutboxStatus : Type 0 where
  pending retry sent failed cancelled : OutboxStatus

pub record Subscription : Type 0 where
  pub id : ℕ
  pub user_id : ℕ
  pub site_id : ℕ
  pub platform : Text
  pub target : Text
  pub config : Text
  pub enabled : Bool
  pub created_at : ℕ
  pub updated_at : ℕ

pub record OutboxEntry : Type 0 where
  pub id : ℕ
  pub subscription_id : ℕ
  pub announcement_id : ℕ
  pub site_id : ℕ
  pub platform : Text
  pub target : Text
  pub payload : Text
  pub status : OutboxStatus
  pub retry_count : ℕ
  pub next_retry_at : Option ℕ
  pub created_at : ℕ
  pub sent_at : Option ℕ
  pub content_version : Text

pub record Delivery : Type 0 where
  pub subscription_id : ℕ
  pub announcement_id : ℕ
  pub site_id : ℕ
  pub platform : Text
  pub status : Text
  pub error_message : Text
  pub sent_at : ℕ

pub record Mail : Type 0 where
  pub subscriptions : List Subscription
  pub outbox : List OutboxEntry
  pub deliveries : List Delivery

-- status IN ('pending', 'retry')
abbrev pub is_waiting : OutboxStatus → Bool
is_waiting pending = true
is_waiting retry = true
is_waiting _ = false

abbrev pub subscription_is : ℕ → Subscription → Bool
subscription_is id s = s.id == id

abbrev pub entry_is : ℕ → OutboxEntry → Bool
entry_is id e = e.id == id

-- Whether there is an enabled subscription of this id.
unfoldable pub is_enabled : ℕ → Mail → Bool
is_enabled id m = exists_where (λ s. subscription_is id s && s.enabled) m.subscriptions

abbrev pub version_is : ℕ → ℕ → Text → OutboxEntry → Bool
version_is subscription announcement version e =
    e.subscription_id == subscription
    && e.announcement_id == announcement
    && text_eq e.content_version version

abbrev pub has_suffix : Text → Text → Bool
has_suffix end t = elim (cut_prefix (reverse end) (reverse t)) [ none ↦ false | some rest ↦ true ]

abbrev pub same_message : Text × Text → Text × Text → Text → Bool
same_message (old_title, old_body) (title, body) announcement =
    text_eq old_body body
    && (is_empty announcement || has_suffix (codes " | " ++ announcement) old_title)

-- A message is its title and its body.
unfoldable pub same_legacy_announcement : (Text → Option (Text × Text)) → Text → Text → Text → Bool
same_legacy_announcement decode legacy payload announcement = elim (decode legacy) [
  | none ↦ text_eq legacy payload
  | some old ↦ elim (decode payload) [
    | none ↦ text_eq legacy payload
    | some next ↦ same_message old next announcement
  ]
]

pub data EnqueueError : Type 0 where
  missing_version : EnqueueError

-- The row of a new message.
unfoldable pub pending_entry :
    ℕ → ℕ → ℕ → Text → Text → Text → Text → ℕ → List OutboxEntry → OutboxEntry
pending_entry subscription announcement site platform target payload version now rows = record {
  id = next_id (λ e. e.id) rows;
  subscription_id = subscription;
  announcement_id = announcement;
  site_id = site;
  platform = platform;
  target = target;
  payload = payload;
  status = pending;
  retry_count = 0;
  next_retry_at = none;
  created_at = now;
  sent_at = none;
  content_version = version;
}

-- INSERT OR IGNORE … WHERE EXISTS an enabled subscription of the site. The announcement is in its table.
unfoldable pub insert_entry : OutboxEntry → Mail → Mail
insert_entry e m =
    if exists_where
        (λ s. subscription_is e.subscription_id s && s.site_id == e.site_id && s.enabled)
        m.subscriptions
      && not
          (exists_where (version_is e.subscription_id e.announcement_id e.content_version) m.outbox)
    then record m { outbox = m.outbox ++ e ∷ [] }
    else m

-- Whether an entry from before the versions has the same announcement.
unfoldable pub legacy_has : (Text → Option (Text × Text)) → ℕ → ℕ → Text → Text → Mail → Bool
unfolding same_legacy_announcement
legacy_has decode subscription announcement payload title m =
    elim (select_first (version_is subscription announcement []) m.outbox) [
      | none ↦ false
      | some e ↦ same_legacy_announcement decode e.payload payload title
    ]

unfoldable pub enqueue_notification :
    (Text → Option (Text × Text))
    → ℕ
    → ℕ
    → ℕ
    → Text
    → Text
    → Text
    → Text
    → Text
    → ℕ
    → Mail
    → Option Mail
unfolding pending_entry insert_entry legacy_has
enqueue_notification decode subscription announcement site platform target payload version title now
      m =
    if is_empty version
    then none
    else if legacy_has decode subscription announcement payload title m
    then some m
    else some (
        insert_entry
          (pending_entry subscription announcement site platform target payload version now
            m.outbox)
          m)

-- The WHERE of the entries that are ready at `now`.
unfoldable pub is_ready : ℕ → Mail → OutboxEntry → Bool
is_ready now m e =
    elim e.status [
      | pending ↦ true
      | retry ↦ elim e.next_retry_at [ none ↦ false | some t ↦ leb t now ]
      | _ ↦ false
    ]
    && is_enabled e.subscription_id m

unfoldable pub list_pending_notifications : ℕ → ℕ → Mail → List OutboxEntry
unfolding is_ready
list_pending_notifications limit now m =
    take (if limit == 0 then 50 else limit)
      (sort_by (λ a b. ltb a.created_at b.created_at) (select_where (is_ready now m) m.outbox))

unfoldable pub notification_can_send : ℕ → Mail → Bool
unfolding is_enabled
notification_can_send id m =
    exists_where (λ e. entry_is id e && is_waiting e.status && is_enabled e.subscription_id m)
      m.outbox

unfoldable pub mark_notification_sent : ℕ → ℕ → Mail → Mail
mark_notification_sent id now m = record m {
  outbox =
      update_where (entry_is id) (λ e. record e { status = sent; sent_at = some now }) m.outbox;
}

unfoldable pub mark_notification_failed : ℕ → Mail → Mail
mark_notification_failed id m = record m {
  outbox = update_where (entry_is id) (λ e. record e { status = failed }) m.outbox;
}

unfoldable pub schedule_notification_retry : ℕ → ℕ → ℕ → Mail → Mail
schedule_notification_retry id count next m = record m {
  outbox =
      update_where (entry_is id)
        (λ e. record e { status = retry; retry_count = count; next_retry_at = some next }) m.outbox;
}

unfoldable pub record_delivery : OutboxEntry → Text → Text → ℕ → Mail → Mail
record_delivery e status message now m = record m {
  deliveries =
      m.deliveries
      ++ record {
        subscription_id = e.subscription_id;
        announcement_id = e.announcement_id;
        site_id = e.site_id;
        platform = e.platform;
        status = status;
        error_message = message;
        sent_at = now;
      }
        ∷ [];
}

unfoldable pub list_active_subscriptions_for_site : ℕ → Mail → List Subscription
list_active_subscriptions_for_site site m =
    select_where (λ s. s.site_id == site && s.enabled) m.subscriptions
