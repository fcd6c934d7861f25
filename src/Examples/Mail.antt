-- ===== src/Examples/Mail.antt =====
-- A user's subscriptions, the outbox and the announcements of a site.
use relay_scope.Base.{
  ℕ, ◌+◌, ◌*◌, ◌≡◌, refl, inl, inr, true, false, Option, none, some, List, [], ◌∷◌, ◌++◌, arith,
  All, Pairs, take, map, select_first, select_where, exists_where,
}
use relay_scope.Base.Texts.{Text, codes}
use relay_scope.Store.Announcements.{AnnouncementInput, SiteAnnouncement, Board, Hash}
use relay_scope.Store.Announcements.News.{has_version, version_of, Differ}
use relay_scope.Store.Announcements.Once.{Batch, reported_by, reported_once}
use relay_scope.Store.Notifications.{
  Mail, Subscription, OutboxEntry, pending, sent, failed, cancelled, entry_is, is_enabled,
}
use relay_scope.Store.Notifications.Channels.{list_user_subscriptions, distinct_subscription_sites}
use relay_scope.Notifier.Dispatch.{Sender, Message, Courier}
use relay_scope.Notifier.Dispatch.Retries.{turns, gives_up}
use relay_scope.Notifier.Dispatch.Closed.{IsClosed}
use relay_scope.Notifier.Enqueue.{MessageCodec, free_grant, only, enqueue}
use relay_scope.Notifier.Enqueue.Grants.{free_grant-sites}
use relay_scope.Notifier.Enqueue.Allowed.{IsAdded, enqueue-allowed}
use relay_scope.Notifier.Calls.{MailCall, run_all, run_all-IsClosed}
use relay_scope.Store.{Db}
use relay_scope.Store.Wishes.{sort_by, insert_by}
use relay_scope.Store.Reminders.{
  claim_renewal_reminder, release_renewal_reminder, list_renewal_reminder_candidates,
}
use relay_scope.Notifier.Reminders.{
  Delivered, run_rounds, run_renewal_reminders, send_candidates, send_kinds, send_renewal_reminder,
  settle_reminder, send_channels, renewal_reminder_kinds, day_start,
}
use relay_scope.Notifier.Reminders.Claims.{IsOther, is_claimed}
use relay_scope.Notifier.Reminders.Once.{delivered_once}
use relay_scope.Examples.Shop.{buyer, shop}

abbrev first_channel : Subscription
first_channel = record {
  id = 1;
  user_id = 1;
  site_id = 5;
  platform = codes "bark";
  target = codes "key";
  config = codes "{}";
  enabled = true;
  created_at = 30;
  updated_at = 30;
}

abbrev channels : List Subscription
channels =
    first_channel
    ∷ record first_channel { id = 2; site_id = 6; created_at = 31 }
    ∷ record first_channel { id = 3; site_id = 5; platform = codes "telegram"; created_at = 32 }
    ∷ record first_channel { id = 4; site_id = 7; created_at = 33 }
    ∷ record first_channel { id = 6; site_id = 8; created_at = 34 }
    ∷ []

abbrev waiting_entry : OutboxEntry
waiting_entry = record {
  id = 1;
  subscription_id = 1;
  announcement_id = 9;
  site_id = 5;
  platform = codes "bark";
  target = codes "key";
  payload = codes "news";
  status = pending;
  retry_count = 0;
  next_retry_at = none;
  created_at = 40;
  sent_at = none;
  content_version = codes "v1";
}

abbrev sent_entry : OutboxEntry
sent_entry = record waiting_entry {
  id = 2;
  status = sent;
  sent_at = some 45;
  content_version = codes "v0";
}

abbrev mail : Mail
mail = record {
  subscriptions = channels;
  outbox = waiting_entry ∷ sent_entry ∷ [];
  deliveries = [];
}

abbrev plain : MessageCodec
plain = record { encode = λ m. m.0; decode = λ t. some (t, []) }

abbrev deaf : Sender
deaf now target message = false

abbrev deaf_senders : Text → Option Sender
deaf_senders platform = some deaf

abbrev notice : SiteAnnouncement
notice = record {
  id = 9;
  site_id = 5;
  site_name = codes "Five";
  external_id = codes "x";
  title = codes "Down";
  content = codes "for a day";
  ann_type = codes "default";
  extra = [];
  content_hash = codes "v2";
  published_at = 50;
  first_seen_at = 50;
  last_seen_at = 50;
  removed_at = none;
}

abbrev canceled_entry : OutboxEntry
canceled_entry = record waiting_entry { status = cancelled }

abbrev canceled_mail : Mail
canceled_mail = record mail { outbox = canceled_entry ∷ sent_entry ∷ [] }

-- The first entry was listed when it was still waiting.
abbrev courier : Courier
courier = record { mail = canceled_mail; todo = waiting_entry ∷ []; flight = none }

abbrev calls : List MailCall
calls =
    MailCall.check
    ∷ MailCall.finish 65
    ∷ MailCall.announce 66 shop (notice ∷ [])
    ∷ MailCall.poll 70 (codes "bark" ∷ [])
    ∷ MailCall.check
    ∷ MailCall.rechannel 1 (codes "bark") (codes "other") 75
    ∷ MailCall.finish 80
    ∷ MailCall.unsubscribe 1 1
    ∷ []

run_all-IsClosed_example :
    IsClosed deaf_senders 1 canceled_entry (run_all plain deaf_senders calls courier)
unfolding select_first
run_all-IsClosed_example =
    run_all-IsClosed plain deaf_senders 1 canceled_entry calls courier (record {
      settled = record { keyed = (((λ e. cc), tt), (tt, tt)); row = refl; final = refl };
      landed = tt;
      known = (inr refl, tt);
    })

abbrev hours : ℕ
hours = 60 * 60 * 1000

abbrev later_turns : List ℕ
later_turns =
    (4 * hours + 50)
    ∷ (8 * hours + 50)
    ∷ (12 * hours + 50)
    ∷ (16 * hours + 50)
    ∷ (20 * hours + 50)
    ∷ []

gives_up_example :
    (row : OutboxEntry) × (select_first
        (entry_is 1)
        (turns plain.decode deaf 1 (50 ∷ later_turns) mail).outbox
      ≡ some row)
    × (row.status ≡ failed)
unfolding select_first is_enabled exists_where
gives_up_example =
    gives_up plain.decode deaf (λ now target message. refl) later_turns 50 mail waiting_entry
      (codes "news", []) refl (inl refl) refl refl (omega arith) (omega arith)

free_grant-sites_example : free_grant 1 mail ≡ only (take 3 (distinct_subscription_sites 1 mail))
free_grant-sites_example = free_grant-sites 1 mail (omega arith)

enqueue-allowed_example :
    IsAdded 60 shop mail (enqueue plain deaf_senders 60 shop (notice ∷ []) mail)
enqueue-allowed_example = enqueue-allowed plain deaf_senders 60 shop (notice ∷ []) mail

abbrev joined : Hash
joined title content ann_type extra = title ++ content

abbrev read_notice : Text → AnnouncementInput
read_notice content = record {
  external_id = codes "x";
  title = codes "Down";
  content = content;
  ann_type = [];
  extra = [];
  published_at = 0;
}

abbrev batches : List Batch
batches =
    record { site = 5; name = codes "Five"; now = 10; anns = read_notice (codes "soon") ∷ [] }
    ∷ record { site = 5; name = codes "Five"; now = 20; anns = read_notice (codes "now") ∷ [] }
    ∷ record { site = 5; name = codes "Five"; now = 30; anns = read_notice (codes "soon") ∷ [] }
    ∷ []

abbrev empty_board : Board
empty_board = record { announcements = []; versions = [] }

reported_once_example :
    Pairs (λ x y. Differ (version_of x) (version_of y)) (reported_by joined batches empty_board)
    × All (λ x. has_version (version_of x) [] ≡ false) (reported_by joined batches empty_board)
reported_once_example = reported_once joined batches empty_board tt

abbrev week : ℕ
week = 604800000

abbrev ending : Db
ending = record shop { users = record buyer { membership_expires_at = some week } ∷ [] }

abbrev always_sent : Text → Option Sender
always_sent platform = some (λ now target message. true)

abbrev blank_message : ℕ → Text → ℕ → Message
blank_message expires kind now = ([], [])

abbrev two_rounds : List (Db × Mail × ℕ)
two_rounds = (ending, mail, 604000000) ∷ (ending, mail, 604100000) ∷ []

-- Each kind once, on two channels.
abbrev both_kinds : List Delivered
both_kinds =
    record {
      user_id = 1;
      expires_at = week;
      kind = codes "expiring";
      channels = codes "bark|key" ∷ codes "telegram|key" ∷ [];
    }
    ∷ record {
      user_id = 1;
      expires_at = week;
      kind = codes "expiry_day";
      channels = codes "bark|key" ∷ codes "telegram|key" ∷ [];
    }
    ∷ []

two_rounds_delivered :
    map (λ d. d.kind) (run_rounds always_sent blank_message two_rounds []).1
    ≡ map (λ d. d.kind) both_kinds
unfolding run_rounds run_renewal_reminders send_candidates send_kinds send_renewal_reminder
    settle_reminder send_channels renewal_reminder_kinds day_start claim_renewal_reminder
    release_renewal_reminder list_renewal_reminder_candidates list_user_subscriptions sort_by
    insert_by select_where exists_where select_first
two_rounds_delivered = refl

delivered_once_example :
    Pairs IsOther (run_rounds always_sent blank_message two_rounds []).1
    × All (λ d. is_claimed [] d ≡ false) (run_rounds always_sent blank_message two_rounds []).1
    × All
        (λ d. is_claimed (run_rounds always_sent blank_message two_rounds []).0 d ≡ true)
        (run_rounds always_sent blank_message two_rounds []).1
delivered_once_example = delivered_once always_sent blank_message two_rounds []
