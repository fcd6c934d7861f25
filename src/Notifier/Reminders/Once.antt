-- ===== src/Notifier/Reminders/Once.antt =====
-- No reminder is delivered twice.
use relay_scope.Base.{
  ℕ, ◌+◌, ◌-◌, ◌≡◌, ◌∙◌, refl, subst, inl, inr, true, false, Option, List, [], ◌∷◌, ◌++◌, arith,
  Bool-cases, or_zero, exists_where, exists_where-append, All, Pairs,
}
use relay_scope.Base.Texts.{Text}
use relay_scope.Store.{Db, User, user_is}
use relay_scope.Store.Reminders.{
  Reminder, appended, reminder_is, claim_renewal_reminder, list_renewal_reminder_candidates,
}
use relay_scope.Store.Notifications.{Mail}
use relay_scope.Store.Notifications.Channels.{list_user_subscriptions}
use relay_scope.Notifier.Dispatch.{Message, Sender}
use relay_scope.Notifier.Reminders.{
  renewal_reminder_window, expiry_day_reminder_grace, renewal_reminder_kinds, send_channels,
  Delivered, settle_reminder, send_renewal_reminder, send_kinds, send_candidates, is_subscribed,
  run_renewal_reminders, run_rounds,
}
use relay_scope.Notifier.Reminders.Claims.{
  IsOther, is_claimed, Follows, other, Follows-none, Follows-trans, released,
}

module _ (senders : Text → Option Sender) (message : ℕ → Text → ℕ → Message) where
  reminder_row : ℕ → ℕ → Text → ℕ → Reminder
  reminder_row user expires kind now = record {
    user_id = user;
    expires_at = expires;
    sent_at = now;
    kind = kind;
  }

  abbrev IsStep : List Reminder → List Reminder × List Delivered → Type 0
  IsStep rows x = Follows rows x.0 x.1

  grown :
      (rows : List Reminder) (row : Reminder) (d : Delivered)
      → is_claimed rows d ≡ true
      → is_claimed (rows ++ row ∷ []) d ≡ true
  grown rows row d h =
      exists_where-append (reminder_is d.user_id d.expires_at d.kind) rows (row ∷ []) ∙ rw h refl

  settle-Follows :
      (user expires : ℕ) (kind : Text) (now : ℕ) (channels : List Text) (rows : List Reminder)
      → exists_where (reminder_is user expires kind) rows ≡ false
      → IsStep rows (
          settle_reminder senders message user expires kind channels
            (rows ++ reminder_row user expires kind now ∷ []))
  unfolding settle_reminder reminder_row
  settle-Follows user expires kind now [] rows free =
      let key : Delivered = record {
        user_id = user;
        expires_at = expires;
        kind = kind;
        channels = [];
      } in
      record {
        apart = tt;
        held = tt;
        fresh = tt;
        grows = λ d h.
            released d key (rows ++ reminder_row user expires kind now ∷ [])
              (other rows d key h free) (grown rows (reminder_row user expires kind now) d h);
      }
  settle-Follows user expires kind now (c ∷ cs) rows free = record {
    apart = (tt, tt);
    held = (appended user expires kind now rows, tt);
    fresh = (free, tt);
    grows = λ d h. grown rows (reminder_row user expires kind now) d h;
  }

  send-Follows :
      (users : List User) (m : Mail) (now user expires : ℕ) (kind : Text) (rows : List Reminder)
      → IsStep rows (send_renewal_reminder senders message users m now user expires kind rows)
  unfolding send_renewal_reminder claim_renewal_reminder
  send-Follows users m now user expires kind rows =
      let channels =
        send_channels senders now (message expires kind now) [] (list_user_subscriptions user m) in
      let x = send_renewal_reminder senders message users m now user expires kind rows in
      elim (Bool-cases (exists_where (reminder_is user expires kind) rows)) [
        | inl known ↦
            let idle : (rows, []) ≡ x = ground (arith, known) in
            subst (IsStep rows) idle (Follows-none rows)
        | inr free ↦ elim (Bool-cases (exists_where (user_is user) users)) [
          | inr nobody ↦
              let idle : (rows, []) ≡ x = ground (arith, free, nobody) in
              subst (IsStep rows) idle (Follows-none rows)
          | inl there ↦
              let done : settle_reminder senders message user expires kind channels
                    (rows ++ reminder_row user expires kind now ∷ [])
                  ≡ x =
                unfold reminder_row in ground (arith, free, there) in
              subst (IsStep rows) done (settle-Follows user expires kind now channels rows free)
        ]
      ]

  kinds-Follows :
      (users : List User) (m : Mail) (now user expires : ℕ) (kinds : List Text)
      (rows : List Reminder)
      → IsStep rows (send_kinds senders message users m now user expires kinds rows)
  unfolding send_kinds
  kinds-Follows users m now user expires [] rows = Follows-none rows
  kinds-Follows users m now user expires (kind ∷ kinds) rows =
      let x = send_renewal_reminder senders message users m now user expires kind rows in
      let y = send_kinds senders message users m now user expires kinds x.0 in
      Follows-trans rows x.0 y.0 x.1 y.1 (send-Follows users m now user expires kind rows)
        (kinds-Follows users m now user expires kinds x.0)

  candidates-Follows :
      (users : List User) (m : Mail) (now : ℕ) (us : List User) (rows : List Reminder)
      → IsStep rows (send_candidates senders message users m now us rows)
  unfolding send_candidates
  candidates-Follows users m now [] rows = Follows-none rows
  candidates-Follows users m now (u ∷ rest) rows =
      let expires = or_zero u.membership_expires_at in
      let x =
        send_kinds senders message users m now u.id expires (renewal_reminder_kinds expires now)
          rows in
      let y = send_candidates senders message users m now rest x.0 in
      Follows-trans rows x.0 y.0 x.1 y.1
        (kinds-Follows users m now u.id expires (renewal_reminder_kinds expires now) rows)
        (candidates-Follows users m now rest x.0)

  rounds-Follows :
      (rounds : List (Db × Mail × ℕ)) (rows : List Reminder)
      → IsStep rows (run_rounds senders message rounds rows)
  unfolding run_rounds run_renewal_reminders
  rounds-Follows [] rows = Follows-none rows
  rounds-Follows ((db, m, now) ∷ rest) rows =
      let x = run_renewal_reminders senders message db m now rows in
      let y = run_rounds senders message rest x.0 in
      Follows-trans rows x.0 y.0 x.1 y.1
        (candidates-Follows db.users m now
          (list_renewal_reminder_candidates (is_subscribed senders message m)
            (now - expiry_day_reminder_grace) (now + renewal_reminder_window) db.users)
          rows)
        (rounds-Follows rest x.0)

  -- Whatever the store holds in each of a sequence of rounds, no two deliveries are of the same reminder, which is that
  -- of a user, an expiry and a kind; none is of a reminder that was claimed before, and all are claimed afterwards.
  pub delivered_once :
      (rounds : List (Db × Mail × ℕ)) (rows : List Reminder)
      → Pairs IsOther (run_rounds senders message rounds rows).1
        × All (λ d. is_claimed rows d ≡ false) (run_rounds senders message rounds rows).1
        × All
            (λ d. is_claimed (run_rounds senders message rounds rows).0 d ≡ true)
            (run_rounds senders message rounds rows).1
  delivered_once rounds rows = let f = rounds-Follows rounds rows in (f.apart, f.fresh, f.held)
