-- ===== src/Notifier/Dispatch.antt =====
-- internal/notifier/dispatcher.go: the outbox is sent in rounds, with retries after growing delays.
-- A sender answers whether it delivered a message at a time. The limiter only delays a send, and the
-- time of each send is an argument. A round is made of steps, between which users can change their
-- subscriptions: its list of entries is read, each entry is checked again, and each send ends. The decoding
-- and the send of a checked entry are one step with the UPDATE after them, which takes no heed of the
-- status that the entry has by then.
pub mod Retries
pub mod Settled
pub mod Closed
use relay_scope.Base.{
  ℕ, ◌+◌, ◌*◌, Bool, true, false, not, ◌&&◌, Option, none, some, List, [], ◌∷◌, ◌++◌, ltb, leb,
  ◌==◌, if◌then◌else◌, select_where,
}
use relay_scope.Base.Texts.{Text, text_eq, codes}
use relay_scope.Store.Notifications.{
  Mail, OutboxEntry, notification_can_send, mark_notification_sent, mark_notification_failed,
  schedule_notification_retry, record_delivery, list_pending_notifications,
}

-- A title and a body.
abbrev pub Message : Type 0
Message = Text × Text

-- Whether a send at a time to a target succeeds.
abbrev pub Sender : Type 0
Sender = ℕ → Text → Message → Bool

abbrev pub minute : ℕ
minute = 60 * 1000

unfoldable pub retry_backoff : ℕ → ℕ
retry_backoff n =
    if n == 0
    then minute
    else if n == 1
    then 5 * minute
    else if n == 2
    then 15 * minute
    else if n == 3
    then 60 * minute
    else 240 * minute

unfoldable pub mark_retry : ℕ → OutboxEntry → Mail → Mail
unfolding retry_backoff
mark_retry now e m =
    if leb 5 e.retry_count
    then record_delivery e (codes "failed") (codes "max retries exceeded") now
        (mark_notification_failed e.id m)
    else schedule_notification_retry e.id (e.retry_count + 1) (now + retry_backoff e.retry_count) m

-- The entry as it was read, of a message that decoded.
unfoldable pub send_message : Sender → ℕ → OutboxEntry → Message → Mail → Mail
unfolding mark_retry
send_message send now e message m =
    if send now e.target message
    then record_delivery e (codes "delivered") [] now (mark_notification_sent e.id now m)
    else mark_retry now e m

unfoldable pub deliver_entry : (Text → Option Message) → Sender → ℕ → OutboxEntry → Mail → Mail
unfolding send_message
deliver_entry decode send now e m = elim (decode e.payload) [
  | none ↦ mark_notification_failed e.id m
  | some message ↦ send_message send now e message m
]

unfoldable pub send_one : (Text → Option Message) → Sender → ℕ → OutboxEntry → Mail → Mail
unfolding deliver_entry
send_one decode send now e m =
    if not (notification_can_send e.id m) then m else deliver_entry decode send now e m

-- The dispatcher between its statements: the tables, what is left of a round, and the entry that was checked and is
-- being sent, with its sender.
pub record Courier : Type 0 where
  pub mail : Mail
  pub todo : List OutboxEntry
  pub flight : Option (Sender × OutboxEntry)

abbrev pub of_platform : Text → List OutboxEntry → List OutboxEntry
of_platform platform entries = select_where (λ e. text_eq e.platform platform) entries

-- The entries of a round by platform, in the order in which the map is walked.
unfoldable pub by_platform : List Text → List OutboxEntry → List OutboxEntry
by_platform [] entries = []
by_platform (platform ∷ rest) entries = of_platform platform entries ++ by_platform rest entries

-- The start of a round, once the one before is over.
unfoldable pub start_round : ℕ → List Text → Courier → Courier
unfolding by_platform
start_round now platforms c = elim c.flight [
  | some x ↦ c
  | none ↦ elim c.todo [
    | e ∷ rest ↦ c
    | [] ↦ record c { todo = by_platform platforms (list_pending_notifications 50 now c.mail) }
  ]
]

-- The next entry of the round: without a sender it fails, and else it is checked again, and dropped or sent.
unfoldable pub check_entry : Option Sender → OutboxEntry → List OutboxEntry → Mail → Courier
check_entry none e rest m = record {
  mail = mark_notification_failed e.id m;
  todo = rest;
  flight = none;
}
check_entry (some send) e rest m = record {
  mail = m;
  todo = rest;
  flight = if not (notification_can_send e.id m) then none else some (send, e);
}

unfoldable pub check_next : (Text → Option Sender) → Courier → Courier
unfolding check_entry
check_next senders c = elim c.flight [
  | some x ↦ c
  | none ↦ elim c.todo [ [] ↦ c | e ∷ rest ↦ check_entry (senders e.platform) e rest c.mail ]
]

-- The end of a send.
unfoldable pub finish_send : (Text → Option Message) → ℕ → Courier → Courier
unfolding deliver_entry
finish_send decode now c = elim c.flight [
  | none ↦ c
  | some (send, e) ↦ record c { mail = deliver_entry decode send now e c.mail; flight = none }
]
