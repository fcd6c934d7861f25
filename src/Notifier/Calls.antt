-- ===== src/Notifier/Calls.antt =====
-- What changes the outbox, in any order: announcements, the steps of the dispatcher's rounds, and what users
-- do with their subscriptions between them.
use relay_scope.Base.{
  ℕ, ◌<◌, ◌≡◌, ◌∙◌, refl, sym, ap, subst, inl, inr, Bool, ◌&&◌, Option, some, List, [], ◌∷◌, ◌++◌,
  ◌==◌, arith, Bool-cases, All-mono, Pairs, Pairs-snoc, next_id, next_id_above, select_first,
  exists_where, count_where, update_where,
}
use relay_scope.Base.Texts.{Text}
use relay_scope.Store.{User, Db}
use relay_scope.Store.Announcements.{SiteAnnouncement}
use relay_scope.Store.Notifications.{
  Mail, Subscription, OutboxEntry, entry_is, is_waiting, cancelled, pending_entry, subscription_is,
  list_active_subscriptions_for_site,
}
use relay_scope.Store.Notifications.Channels.{
  create_subscription, update_subscription_channel, delete_subscription, has_unique_channels,
  redirect, is_of_user, is_own, repoint,
}
use relay_scope.Notifier.Dispatch.{Sender, Courier, start_round, check_next, finish_send}
use relay_scope.Notifier.Dispatch.Settled.{IsSettled, OtherId, update-IsSettled}
use relay_scope.Notifier.Dispatch.Closed.{
  IsClosed, start_round-IsClosed, check_next-IsClosed, finish_send-IsClosed,
}
use relay_scope.Notifier.Enqueue.{
  MessageCodec, enqueue_one, enqueue_all, enqueue, render_message, is_there, allows, push_grant_for,
}
use relay_scope.Notifier.Enqueue.Allowed.{enqueue-cases}

-- What each call or step is given, its time included.
pub data MailCall : Type 0 where
  announce : ℕ → Db → List SiteAnnouncement → MailCall
  poll : ℕ → List Text → MailCall
  check : MailCall
  finish : ℕ → MailCall
  subscribe : List User → List ℕ → ℕ → ℕ → Text → Text → Text → ℕ → MailCall
  rechannel : ℕ → Text → Text → ℕ → MailCall
  unsubscribe : ℕ → ℕ → MailCall

module _ (codec : MessageCodec) (senders : Text → Option Sender) where
  unfoldable pub run : MailCall → Courier → Courier
  unfolding enqueue start_round check_next finish_send create_subscription
      update_subscription_channel delete_subscription
  run (announce now db anns) c = record c { mail = enqueue codec senders now db anns c.mail }
  run (poll now platforms) c = start_round now platforms c
  run check c = check_next senders c
  run (finish now) c = finish_send codec.decode now c
  run (subscribe users sites user site platform target config now) c = record c {
    mail = (create_subscription users sites user site platform target config now c.mail).0;
  }
  run (rechannel user platform target now) c = record c {
    mail = (update_subscription_channel user platform target now c.mail).0;
  }
  run (unsubscribe user id) c = record c { mail = (delete_subscription user id c.mail).0 }

  unfoldable pub run_all : List MailCall → Courier → Courier
  unfolding run
  run_all [] c = c
  run_all (x ∷ calls) c = run_all calls (run x c)

  module _ (i : ℕ) (e : OutboxEntry) where
    appended_row :
        (rows : List OutboxEntry) (x : OutboxEntry)
        → select_first (entry_is i) rows ≡ some e
        → select_first (entry_is i) (rows ++ x ∷ []) ≡ some e
    unfolding select_first
    appended_row [] x h = cc
    appended_row (r ∷ rows) x h = ground (arith, appended_row rows x)

    append-IsSettled :
        (x : OutboxEntry) (m : Mail)
        → x.id ≡ next_id (λ (r : OutboxEntry). r.id) m.outbox
        → IsSettled i e m
        → IsSettled i e (record m { outbox = m.outbox ++ x ∷ [] })
    append-IsSettled x m fresh s = record {
      keyed = Pairs-snoc OtherId m.outbox x s.keyed (
          All-mono (λ r. r.id < next_id (λ y. y.id) m.outbox) (λ r. OtherId r x) m.outbox
            (λ r lt h. absurd (omega arith)) (next_id_above (λ r. r.id) m.outbox));
      row = appended_row m.outbox x s.row;
      final = s.final;
    }

    one-IsSettled :
        (now : ℕ) (db : Db) (a : SiteAnnouncement) (s : Subscription) (m : Mail)
        → IsSettled i e m
        → IsSettled i e (enqueue_one codec senders now db a s m)
    unfolding enqueue_one
    one-IsSettled now db a s m h =
        elim (Bool-cases
          (is_there (senders s.platform) && allows (push_grant_for s.user_id now db m) s.site_id)) [
            | inr refused ↦ rw refused h
            | inl allowed ↦
                let payload = codec.encode (render_message a) in
                rw allowed
                  (elim (enqueue-cases codec.decode s.id a.id a.site_id s.platform s.target payload
                    a.content_hash a.title now m) [
                      | inl ignored ↦ subst (IsSettled i e) (sym ignored) h
                      | inr written ↦ subst (IsSettled i e) (sym written) (
                          append-IsSettled
                            (pending_entry s.id a.id a.site_id s.platform s.target payload
                              a.content_hash now m.outbox)
                            m (unfold pending_entry in refl) h)
                    ])
          ]

    all-IsSettled :
        (now : ℕ) (db : Db) (a : SiteAnnouncement) (rows : List Subscription) (m : Mail)
        → IsSettled i e m
        → IsSettled i e (enqueue_all codec senders now db a rows m)
    unfolding enqueue_all
    all-IsSettled now db a [] m h = h
    all-IsSettled now db a (s ∷ rest) m h =
        all-IsSettled now db a rest (enqueue_one codec senders now db a s m)
          (one-IsSettled now db a s m h)

    enqueue-IsSettled :
        (now : ℕ) (db : Db) (anns : List SiteAnnouncement) (m : Mail)
        → IsSettled i e m
        → IsSettled i e (enqueue codec senders now db anns m)
    unfolding enqueue
    enqueue-IsSettled now db [] m h = h
    enqueue-IsSettled now db (a ∷ rest) m h =
        enqueue-IsSettled now db rest
          (enqueue_all codec senders now db a (list_active_subscriptions_for_site a.site_id m) m)
          (all-IsSettled now db a (list_active_subscriptions_for_site a.site_id m) m h)

    same_outbox : (m m' : Mail) → m'.outbox ≡ m.outbox → IsSettled i e m → IsSettled i e m'
    same_outbox m m' eq s = record {
      keyed = subst (Pairs OtherId) (sym eq) s.keyed;
      row = ap (select_first (entry_is i)) eq ∙ s.row;
      final = s.final;
    }

    -- An UPDATE of waiting rows only.
    missed :
        (q : OutboxEntry → Bool) (f : OutboxEntry → OutboxEntry) (m m' : Mail)
        → ((x : OutboxEntry) → (f x).id ≡ x.id)
        → m'.outbox ≡ update_where (λ x. q x && is_waiting x.status) f m.outbox
        → IsSettled i e m
        → IsSettled i e m'
    missed q f m m' keep eq s =
        update-IsSettled (λ x. q x && is_waiting x.status) f i e m m' keep (ground (arith, s.final))
          eq s

    create-IsSettled :
        (users : List User) (sites : List ℕ) (user site : ℕ) (platform target config : Text)
        (now : ℕ) (m : Mail)
        → IsSettled i e m
        → IsSettled i e (create_subscription users sites user site platform target config now m).0
    unfolding create_subscription
    create-IsSettled users sites user site platform target config now m s =
        same_outbox m _ (ground arith) s

    channel-IsSettled :
        (user : ℕ) (platform target : Text) (now : ℕ) (m : Mail)
        → IsSettled i e m
        → IsSettled i e (update_subscription_channel user platform target now m).0
    unfolding update_subscription_channel repoint
    channel-IsSettled user platform target now m s =
        let rows = update_where (is_of_user user) (redirect platform target now) m.subscriptions in
        let m1 = record m { subscriptions = rows } in
        elim (Bool-cases (has_unique_channels rows)) [
          | inr clash ↦ rw clash s
          | inl unique ↦ elim (Bool-cases (count_where (is_of_user user) m.subscriptions == 0)) [
            | inl nothing ↦ rw (unique, nothing) (same_outbox m m1 refl s)
            | inr some_rows ↦
                rw (unique, some_rows)
                  (missed
                    (λ x.
                      exists_where (λ y. subscription_is x.subscription_id y && is_of_user user y)
                        rows)
                    (λ x. record x { platform = platform; target = target }) m
                    (repoint user platform target m1) (λ x. refl) refl s)
          ]
        ]

    delete-IsSettled :
        (user id : ℕ) (m : Mail) → IsSettled i e m → IsSettled i e (delete_subscription user id m).0
    unfolding delete_subscription
    delete-IsSettled user id m s =
        elim (Bool-cases (exists_where (is_own user id) m.subscriptions)) [
          | inr absent ↦ rw absent s
          | inl there ↦
              (missed (λ x. x.subscription_id == id) (λ x. record x { status = cancelled }) m
                (delete_subscription user id m).0 (λ x. refl) (rw there) s)
        ]

    -- A call that changes the tables only.
    between :
        (c : Courier) (m : Mail)
        → IsClosed senders i e c
        → IsSettled i e m
        → IsClosed senders i e (record c { mail = m })
    between c m h s = record { settled = s; landed = h.landed; known = h.known }

    run-IsClosed :
        (x : MailCall) (c : Courier) → IsClosed senders i e c → IsClosed senders i e (run x c)
    unfolding run
    run-IsClosed (announce now db anns) c h =
        between c (enqueue codec senders now db anns c.mail) h
          (enqueue-IsSettled now db anns c.mail h.settled)
    run-IsClosed (poll now platforms) c h = start_round-IsClosed senders i e now platforms c h
    run-IsClosed check c h = check_next-IsClosed senders i e c h
    run-IsClosed (finish now) c h = finish_send-IsClosed senders i e codec.decode now c h
    run-IsClosed (subscribe users sites user site platform target config now) c h =
        between c (create_subscription users sites user site platform target config now c.mail).0 h
          (create-IsSettled users sites user site platform target config now c.mail h.settled)
    run-IsClosed (rechannel user platform target now) c h =
        between c (update_subscription_channel user platform target now c.mail).0 h
          (channel-IsSettled user platform target now c.mail h.settled)
    run-IsClosed (unsubscribe user id) c h =
        between c (delete_subscription user id c.mail).0 h
          (delete-IsSettled user id c.mail h.settled)

    -- An entry of the outbox that was sent, has failed or was cancelled stays as it is, whatever announcements, changes
    -- of subscriptions and steps of rounds follow one another, if it is not being sent at the start and any copies of it
    -- in the list of the running round are of platforms with a sender. It is not being sent afterwards either, and the ids
    -- in the outbox stay distinct if they were.
    pub run_all-IsClosed :
        (calls : List MailCall) (c : Courier)
        → IsClosed senders i e c
        → IsClosed senders i e (run_all calls c)
    unfolding run_all
    run_all-IsClosed [] c h = h
    run_all-IsClosed (x ∷ calls) c h = run_all-IsClosed calls (run x c) (run-IsClosed x c h)
