-- ===== src/Notifier/Dispatch/Closed.antt =====
-- The steps of a round, next to an entry of the outbox that is settled and not being sent.
use relay_scope.Base.{
  ℕ, ◌≡◌, ◌≢◌, ◌⊎◌, inl, inr, true, Option, none, some, List, [], ◌∷◌, arith, Bool-cases, is_some,
  All, All-mono,
}
use relay_scope.Base.Texts.{Text}
use relay_scope.Store.Notifications.{
  Mail, OutboxEntry, notification_can_send, list_pending_notifications,
}
use relay_scope.Notifier.Dispatch.{
  Message, Sender, Courier, by_platform, start_round, check_entry, check_next, finish_send,
}
use relay_scope.Notifier.Dispatch.Settled.{
  IsSettled, failed-IsSettled, entry-IsSettled, listed_rows, All-by_platform, cannot_send,
}

abbrev pub IsLanded : ℕ → Option (Sender × OutboxEntry) → Type 0
IsLanded i none = Unit
IsLanded i (some (send, r)) = r.id ≢ i

-- The settled row is not being sent, and where it stands in the list of a round, its platform has a sender, so that it is
-- checked first.
pub record IsClosed (senders : Text → Option Sender) (i : ℕ) (e : OutboxEntry) (c : Courier)
    : Type 0 where
  pub settled : IsSettled i e c.mail
  pub landed : IsLanded i c.flight
  pub known : All (λ r. (r.id ≢ i) ⊎ (is_some (senders r.platform) ≡ true)) c.todo

module _ (senders : Text → Option Sender) (i : ℕ) (e : OutboxEntry) where
  from_start :
      (now : ℕ) (platforms : List Text) (m : Mail) (todo : List OutboxEntry)
      (flight : Option (Sender × OutboxEntry))
      → IsClosed senders i e (record { mail = m; todo = todo; flight = flight })
      → IsClosed senders i e
          (start_round now platforms (record { mail = m; todo = todo; flight = flight }))
  unfolding start_round
  from_start now platforms m todo (some x) h = h
  from_start now platforms m (r ∷ rest) none h = h
  from_start now platforms m [] none h = record {
    settled = h.settled;
    landed = tt;
    known =
        All-mono (λ r. r.id ≢ i) (λ r. (r.id ≢ i) ⊎ (is_some (senders r.platform) ≡ true))
          (by_platform platforms (list_pending_notifications 50 now m)) (λ r ne. inl ne)
          (All-by_platform i e (λ r. r.id ≢ i) platforms (list_pending_notifications 50 now m)
            (listed_rows i e now m h.settled));
  }

  pub start_round-IsClosed :
      (now : ℕ) (platforms : List Text) (c : Courier)
      → IsClosed senders i e c
      → IsClosed senders i e (start_round now platforms c)
  start_round-IsClosed now platforms c h = from_start now platforms c.mail c.todo c.flight h

  entry-IsClosed :
      (sender : Option Sender) (r : OutboxEntry) (rest : List OutboxEntry) (m : Mail)
      → IsSettled i e m
      → (r.id ≢ i) ⊎ (is_some sender ≡ true)
      → All (λ x. (x.id ≢ i) ⊎ (is_some (senders x.platform) ≡ true)) rest
      → IsClosed senders i e (check_entry sender r rest m)
  unfolding check_entry
  entry-IsClosed none r rest m s (inl ne) known = record {
    settled = failed-IsSettled i e r.id m ne s;
    landed = tt;
    known = known;
  }
  entry-IsClosed none r rest m s (inr there) known = absurd (ground arith)
  entry-IsClosed (some send) r rest m s h known = elim (Bool-cases (notification_can_send r.id m)) [
    | inr stopped ↦ record { settled = s; landed = rw stopped tt; known = known }
    | inl free ↦ record {
      settled = s;
      landed = rw free (λ same. absurd (cc (free, cannot_send i e m s, same)));
      known = known;
    }
  ]

  from_check :
      (m : Mail) (todo : List OutboxEntry) (flight : Option (Sender × OutboxEntry))
      → IsClosed senders i e (record { mail = m; todo = todo; flight = flight })
      → IsClosed senders i e
          (check_next senders (record { mail = m; todo = todo; flight = flight }))
  unfolding check_next
  from_check m todo (some x) h = h
  from_check m [] none h = h
  from_check m (r ∷ rest) none h =
      entry-IsClosed (senders r.platform) r rest m h.settled h.known.0 h.known.1

  pub check_next-IsClosed :
      (c : Courier) → IsClosed senders i e c → IsClosed senders i e (check_next senders c)
  check_next-IsClosed c h = from_check c.mail c.todo c.flight h

  from_finish :
      (decode : Text → Option Message) (now : ℕ) (m : Mail) (todo : List OutboxEntry)
      (flight : Option (Sender × OutboxEntry))
      → IsClosed senders i e (record { mail = m; todo = todo; flight = flight })
      → IsClosed senders i e
          (finish_send decode now (record { mail = m; todo = todo; flight = flight }))
  unfolding finish_send
  from_finish decode now m todo none h = h
  from_finish decode now m todo (some (send, r)) h = record {
    settled = entry-IsSettled i e decode send now r m h.landed h.settled;
    landed = tt;
    known = h.known;
  }

  pub finish_send-IsClosed :
      (decode : Text → Option Message) (now : ℕ) (c : Courier)
      → IsClosed senders i e c
      → IsClosed senders i e (finish_send decode now c)
  finish_send-IsClosed decode now c h = from_finish decode now c.mail c.todo c.flight h
