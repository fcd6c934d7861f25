-- ===== src/Notifier/Dispatch/Retries.antt =====
-- What becomes of a message that cannot be delivered.
use relay_scope.Base.{
  ℕ, suc, ◌+◌, ◌*◌, ◌≤◌, ◌≡◌, ◌⊎◌, ◌∙◌, ==_refl, refl, ap, subst, inl, inr, Bool, true, false, ◌&&◌,
  Option, none, some, List, [], ◌∷◌, leb, ◌==◌, if◌then◌else◌, arith, Bool-cases, length,
  select_first, update_where, exists_where, select_first-update_where,
}
use relay_scope.Base.Texts.{Text, codes}
use relay_scope.Store.Notifications.{
  Mail, OutboxEntry, pending, retry, failed, entry_is, is_waiting, is_ready, is_enabled,
  notification_can_send, mark_notification_failed, schedule_notification_retry, record_delivery,
}
use relay_scope.Notifier.Dispatch.{
  Message, Sender, minute, retry_backoff, mark_retry, send_message, send_one,
}

-- The turn of an entry at a time: it is read again, and sent if it is ready.
unfoldable pub turn : (Text → Option Message) → Sender → ℕ → ℕ → Mail → Mail
unfolding is_ready
turn decode send id now m = elim (select_first (entry_is id) m.outbox) [
  | none ↦ m
  | some e ↦ if is_ready now m e then send_one decode send now e m else m
]

unfoldable pub turns : (Text → Option Message) → Sender → ℕ → List ℕ → Mail → Mail
turns decode send id [] m = m
turns decode send id (t ∷ later) m = turns decode send id later (turn decode send id t m)

exists-both :
    (p q r : OutboxEntry → Bool) (rows : List OutboxEntry) (e : OutboxEntry)
    → select_first p rows ≡ some e
    → q e ≡ true
    → r e ≡ true
    → exists_where (λ x. p x && q x && r x) rows ≡ true
unfolding exists_where select_first
exists-both p q r [] e h k l = cc
exists-both p q r (x ∷ rows) e h k l = ground (arith, exists-both p q r rows e)

-- The row after an undelivered turn that is not the last.
abbrev later_row : ℕ → OutboxEntry → OutboxEntry
later_row now e = record e {
  status = retry;
  retry_count = e.retry_count + 1;
  next_retry_at = some (now + retry_backoff e.retry_count);
}

-- Waiting, with its time come.
abbrev pub IsDue : ℕ → OutboxEntry → Type 0
IsDue now e =
    (e.status ≡ pending) ⊎ ((e.status ≡ retry) × (t : ℕ) × (e.next_retry_at ≡ some t) × (t ≤ now))

found_after :
    (f : OutboxEntry → OutboxEntry) (rows : List OutboxEntry) (e : OutboxEntry)
    → ((x : OutboxEntry) → (f x).id ≡ x.id)
    → select_first (entry_is e.id) rows ≡ some e
    → select_first (entry_is e.id) (update_where (entry_is e.id) f rows) ≡ some (f e)
found_after f rows e keep there =
    select_first-update_where (entry_is e.id) (entry_is e.id) f rows e
      (λ y. ap (λ i. i == e.id) (keep y)) there
    ∙ ground (arith, ==_refl e.id)

retry_backoff_le : (n : ℕ) → retry_backoff n ≤ 240 * minute
unfolding retry_backoff
retry_backoff_le n = ground arith

-- The turns are at least the longest delay apart.
abbrev pub Spaced : ℕ → List ℕ → Type 0
Spaced last [] = Unit
Spaced last (t ∷ later) = (last + 240 * minute ≤ t) × Spaced t later

failed_row :
    (m : Mail) (e : OutboxEntry)
    → select_first (entry_is e.id) m.outbox ≡ some e
    → (now : ℕ)
    → select_first
        (entry_is e.id)
        (record_delivery e
          (codes "failed")
          (codes "max retries exceeded")
          now
          (mark_notification_failed e.id m)).outbox
      ≡ some (record e { status = failed })
unfolding record_delivery mark_notification_failed
failed_row m e there now =
    found_after (λ x. record x { status = failed }) m.outbox e (λ x. refl) there

retried_row :
    (m : Mail) (e : OutboxEntry)
    → select_first (entry_is e.id) m.outbox ≡ some e
    → (now : ℕ)
    → select_first
        (entry_is e.id)
        (schedule_notification_retry e.id
          (e.retry_count + 1)
          (now + retry_backoff e.retry_count)
          m).outbox
      ≡ some (later_row now e)
unfolding schedule_notification_retry
retried_row m e there now =
    found_after
      (λ x. record x {
        status = retry;
        retry_count = e.retry_count + 1;
        next_retry_at = some (now + retry_backoff e.retry_count);
      })
      m.outbox e (λ x. refl) there

still_enabled :
    (m : Mail) (e : OutboxEntry)
    → is_enabled e.subscription_id m ≡ true
    → (now : ℕ)
    → is_enabled e.subscription_id
        (schedule_notification_retry e.id (e.retry_count + 1) (now + retry_backoff e.retry_count) m)
      ≡ true
unfolding is_enabled schedule_notification_retry
still_enabled m e on now = on

module _ (decode : Text → Option Message) (send : Sender)
    (deaf : (now : ℕ) (target : Text) (message : Message) → send now target message ≡ false) where
  due_ready :
      (now : ℕ) (m : Mail) (e : OutboxEntry)
      → IsDue now e
      → is_enabled e.subscription_id m ≡ true
      → is_ready now m e ≡ true
  unfolding is_ready
  due_ready now m e due on = elim due [
    | inl fresh ↦ ground arith
    | inr (again, t, at, come) ↦ ground arith
  ]

  can_send :
      (now : ℕ) (m : Mail) (e : OutboxEntry)
      → select_first (entry_is e.id) m.outbox ≡ some e
      → IsDue now e
      → is_enabled e.subscription_id m ≡ true
      → notification_can_send e.id m ≡ true
  unfolding notification_can_send
  can_send now m e there due on =
      exists-both (entry_is e.id) (λ x. is_waiting x.status) (λ x. is_enabled x.subscription_id m)
        m.outbox e there
        (elim due [ inl fresh ↦ ground arith | inr (again, t, at, come) ↦ ground arith ]) on

  turn-later :
      (now : ℕ) (m : Mail) (e : OutboxEntry) (message : Message)
      → select_first (entry_is e.id) m.outbox ≡ some e
      → IsDue now e
      → is_enabled e.subscription_id m ≡ true
      → decode e.payload ≡ some message
      → leb 5 e.retry_count ≡ false
      → turn decode send e.id now m
        ≡ schedule_notification_retry e.id (e.retry_count + 1) (now + retry_backoff e.retry_count) m
  unfolding turn send_one send_message mark_retry
  turn-later now m e message there due on readable few =
      let ready = due_ready now m e due on in
      let free = can_send now m e there due on in
      let silent = deaf now e.target message in ground arith

  turn-last :
      (now : ℕ) (m : Mail) (e : OutboxEntry) (message : Message)
      → select_first (entry_is e.id) m.outbox ≡ some e
      → IsDue now e
      → is_enabled e.subscription_id m ≡ true
      → decode e.payload ≡ some message
      → leb 5 e.retry_count ≡ true
      → turn decode send e.id now m
        ≡ record_delivery e
            (codes "failed")
            (codes "max retries exceeded")
            now
            (mark_notification_failed e.id m)
  unfolding turn send_one send_message mark_retry
  turn-last now m e message there due on readable few =
      let ready = due_ready now m e due on in
      let free = can_send now m e there due on in
      let silent = deaf now e.target message in ground arith

  -- A message that no send delivers is given up at its sixth turn and not before: after a turn at `now` and
  -- further turns that are four hours apart, its entry has failed if these are the sixth turn together
  -- with the retries counted before, and else it waits for a retry.
  pub gives_up :
      (later : List ℕ) (now : ℕ) (m : Mail) (e : OutboxEntry) (message : Message)
      → select_first (entry_is e.id) m.outbox ≡ some e
      → IsDue now e
      → is_enabled e.subscription_id m ≡ true
      → decode e.payload ≡ some message
      → Spaced now later
      → length later + e.retry_count ≤ 5
      → (row : OutboxEntry) × (select_first
            (entry_is e.id)
            (turns decode send e.id (now ∷ later) m).outbox
          ≡ some row)
        × (row.status ≡ (if leb 5 (length later + e.retry_count) then failed else retry))
  unfolding turns
  gives_up [] now m e message there due on readable spaced few =
      elim (Bool-cases (leb 5 e.retry_count)) [
        | inl last ↦ (
          record e { status = failed },
          rw (turn-last now m e message there due on readable last) (failed_row m e there now),
          ground arith,
        )
        | inr more ↦ (
          later_row now e,
          rw (turn-later now m e message there due on readable more) (retried_row m e there now),
          ground arith,
        )
      ]
  gives_up (t ∷ later) now m e message there due on readable spaced few =
      let next = later_row now e in
      let m' =
        schedule_notification_retry e.id (e.retry_count + 1) (now + retry_backoff e.retry_count)
          m in
      let soon = retry_backoff_le e.retry_count in
      let rest =
        gives_up later t m' next message (retried_row m e there now)
          (inr (refl, now + retry_backoff e.retry_count, refl, omega arith))
          (still_enabled m e on now) readable spaced.1 (omega arith) in
      let same : length later + (e.retry_count + 1) ≡ suc (length later) + e.retry_count =
        omega arith in
      let first = turn-later now m e message there due on readable (ground arith) in
      (
        rest.0,
        ap (λ x. select_first (entry_is e.id) (turns decode send e.id (t ∷ later) x).outbox) first
            ∙ rest.1,
        subst (λ n. rest.0.status ≡ (if leb 5 n then failed else retry)) same rest.2,
      )
