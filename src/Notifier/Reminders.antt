-- ===== src/Notifier/Reminders.antt =====
-- internal/notifier/dispatcher.go: rounds that remind members before their membership ends. The text of a reminder is the
-- parameter `message`, since it formats dates. A round has one time.
pub mod Claims
pub mod Once
use relay_scope.Base.{
  ℕ, ◌+◌, ◌-◌, ◌*◌, ◌/◌, Bool, true, false, not, ◌&&◌, ◌||◌, Option, none, some, List, [], ◌∷◌,
  ◌++◌, ltb, leb, ◌==◌, if◌then◌else◌, or_zero, exists_where,
}
use relay_scope.Base.Texts.{Text, text_eq, codes}
use relay_scope.Domain.{is_in}
use relay_scope.Store.{Db, User, Result, ok, err}
use relay_scope.Store.Reminders.{
  Reminder, claim_renewal_reminder, release_renewal_reminder, list_renewal_reminder_candidates,
}
use relay_scope.Store.Notifications.{Mail, Subscription}
use relay_scope.Store.Notifications.Channels.{list_user_subscriptions}
use relay_scope.Notifier.Dispatch.{Message, Sender}

abbrev pub hour : ℕ
hour = 3600 * 1000

abbrev pub renewal_reminder_window : ℕ
renewal_reminder_window = 72 * hour

abbrev pub expiry_day_reminder_grace : ℕ
expiry_day_reminder_grace = 48 * hour

-- The start of the day in the zone eight hours before UTC.
unfoldable pub day_start : ℕ → ℕ
day_start t = (t + 8 * hour) / (24 * hour) * (24 * hour) - 8 * hour

unfoldable pub renewal_reminder_kinds : ℕ → ℕ → List Text
unfolding day_start
renewal_reminder_kinds expires now =
    (if ltb now expires then codes "expiring" ∷ [] else [])
    ++ (if leb (day_start expires) now && ltb now (day_start expires + expiry_day_reminder_grace)
        then codes "expiry_day" ∷ []
        else [])

abbrev pub channel_key : Subscription → Text
channel_key s = s.platform ++ (codes "|" ++ s.target)

-- The keys of the channels to which a message was delivered, each tried once.
unfoldable pub send_channels :
    (Text → Option Sender) → ℕ → Message → List Text → List Subscription → List Text
send_channels senders now message seen [] = []
send_channels senders now message seen (s ∷ rest) =
    let skipped = send_channels senders now message seen rest in
    let tried = send_channels senders now message (channel_key s ∷ seen) rest in
    if not s.enabled || is_in (channel_key s) seen then skipped else elim (senders s.platform) [
      | none ↦ tried
      | some send ↦ if send now s.target message then channel_key s ∷ tried else tried
    ]

-- A reminder that was delivered, with its channels.
pub record Delivered : Type 0 where
  pub user_id : ℕ
  pub expires_at : ℕ
  pub kind : Text
  pub channels : List Text

module _ (senders : Text → Option Sender) (message : ℕ → Text → ℕ → Message) where
  -- The claim is released if nothing was delivered.
  unfoldable pub settle_reminder :
      ℕ → ℕ → Text → List Text → List Reminder → List Reminder × List Delivered
  settle_reminder user expires kind [] rows = (release_renewal_reminder user expires kind rows, [])
  settle_reminder user expires kind (c ∷ cs) rows =
      (rows, record { user_id = user; expires_at = expires; kind = kind; channels = c ∷ cs } ∷ [])

  unfoldable pub send_renewal_reminder :
      List User → Mail → ℕ → ℕ → ℕ → Text → List Reminder → List Reminder × List Delivered
  unfolding settle_reminder send_channels
  send_renewal_reminder users m now user expires kind rows =
      let (rows', claimed) = claim_renewal_reminder users user expires kind now rows in
      elim claimed [
        | err e ↦ (rows', [])
        | ok false ↦ (rows', [])
        | ok true ↦
            settle_reminder user expires kind
              (send_channels senders now (message expires kind now) []
                (list_user_subscriptions user m))
              rows'
      ]

  unfoldable pub send_kinds :
      List User → Mail → ℕ → ℕ → ℕ → List Text → List Reminder → List Reminder × List Delivered
  unfolding send_renewal_reminder
  send_kinds users m now user expires [] rows = (rows, [])
  send_kinds users m now user expires (kind ∷ kinds) rows =
      let (rows', log) = send_renewal_reminder users m now user expires kind rows in
      let (rows'', more) = send_kinds users m now user expires kinds rows' in (rows'', log ++ more)

  unfoldable pub send_candidates :
      List User → Mail → ℕ → List User → List Reminder → List Reminder × List Delivered
  unfolding send_kinds renewal_reminder_kinds
  send_candidates users m now [] rows = (rows, [])
  send_candidates users m now (u ∷ rest) rows =
      let expires = or_zero u.membership_expires_at in
      let (rows', log) =
        send_kinds users m now u.id expires (renewal_reminder_kinds expires now) rows in
      let (rows'', more) = send_candidates users m now rest rows' in (rows'', log ++ more)

  abbrev pub is_subscribed : Mail → ℕ → Bool
  is_subscribed m user = exists_where (λ s. s.user_id == user && s.enabled) m.subscriptions

  unfoldable pub run_renewal_reminders :
      Db → Mail → ℕ → List Reminder → List Reminder × List Delivered
  unfolding send_candidates
  run_renewal_reminders db m now rows =
      send_candidates db.users m now
        (list_renewal_reminder_candidates (is_subscribed m) (now - expiry_day_reminder_grace)
          (now + renewal_reminder_window) db.users)
        rows

  -- Rounds at times of their own, on whatever the store holds then.
  unfoldable pub run_rounds : List (Db × Mail × ℕ) → List Reminder → List Reminder × List Delivered
  unfolding run_renewal_reminders
  run_rounds [] rows = (rows, [])
  run_rounds ((db, m, now) ∷ rest) rows =
      let (rows', log) = run_renewal_reminders db m now rows in
      let (rows'', more) = run_rounds rest rows' in (rows'', log ++ more)
