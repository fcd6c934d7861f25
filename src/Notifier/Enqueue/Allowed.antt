-- ===== src/Notifier/Enqueue/Allowed.antt =====
-- Which messages are enqueued.
use relay_scope.Base.{
  ℕ, ◌≡◌, ◌∙◌, refl, sym, ap, subst, ◌⊎◌, inl, inr, true, not, ◌&&◌, Option, List, [], ◌∷◌, ◌++◌,
  arith, Bool-cases, ◌==◌, All, All-mono, All-append, All-Any, Any, All-select_where,
  select_where-holds, exists_where,
}
use relay_scope.Base.Texts.{Text, is_empty}
use mathlib.Core.List.{append_assoc, append-nil}
use relay_scope.Store.{Db}
use relay_scope.Store.Announcements.{SiteAnnouncement}
use relay_scope.Store.Notifications.{
  Mail, Subscription, OutboxEntry, pending, pending_entry, insert_entry, legacy_has,
  enqueue_notification, list_active_subscriptions_for_site, subscription_is, version_is,
}
use relay_scope.Store.Notifications.Channels.{list_user_subscriptions}
use relay_scope.Notifier.Dispatch.{Sender, Message}
use relay_scope.Notifier.Enqueue.{
  allows, push_grant_for, render_message, MessageCodec, is_there, enqueue_one, enqueue_all, enqueue,
  kept,
}

-- A pending entry for an enabled subscription in the table, to its channel and its site, which the user's grant allows.
pub record IsAllowed (now : ℕ) (db : Db) (m : Mail) (e : OutboxEntry) : Type 0 where
  pub subscription : Subscription
  pub listed : Any (λ s. subscription ≡ s) m.subscriptions
  pub same_id : e.subscription_id ≡ subscription.id
  pub same_site : e.site_id ≡ subscription.site_id
  pub same_target : e.target ≡ subscription.target
  pub is_on : subscription.enabled ≡ true
  pub granted : allows (push_grant_for subscription.user_id now db m) e.site_id ≡ true
  pub waits : e.status ≡ pending

-- Entries are only added, and those are allowed; the subscriptions stay.
pub record IsAdded (now : ℕ) (db : Db) (m m' : Mail) : Type 0 where
  pub added : List OutboxEntry
  pub outbox : m'.outbox ≡ m.outbox ++ added
  pub allowed : All (IsAllowed now db m) added
  pub subscriptions : m'.subscriptions ≡ m.subscriptions

same : (now : ℕ) (db : Db) (m : Mail) → IsAdded now db m m
same now db m = record {
  added = [];
  outbox = sym (append-nil m.outbox);
  allowed = tt;
  subscriptions = refl;
}

grant_lem :
    (now : ℕ) (db : Db) (user : ℕ) (m m' : Mail)
    → m'.subscriptions ≡ m.subscriptions
    → push_grant_for user now db m' ≡ push_grant_for user now db m
unfolding push_grant_for list_user_subscriptions
grant_lem now db user m m' e =
    ap (λ rows. push_grant_for user now db (record m { subscriptions = rows })) e

moved :
    (now : ℕ) (db : Db) (m m' : Mail) (e : OutboxEntry)
    → m'.subscriptions ≡ m.subscriptions
    → IsAllowed now db m' e
    → IsAllowed now db m e
moved now db m m' e s a = record {
  subscription = a.subscription;
  listed = subst (Any (λ x. a.subscription ≡ x)) s a.listed;
  same_id = a.same_id;
  same_site = a.same_site;
  same_target = a.same_target;
  is_on = a.is_on;
  granted =
      subst (λ g. allows g e.site_id ≡ true) (grant_lem now db a.subscription.user_id m m' s)
        a.granted;
  waits = a.waits;
}

then-IsAdded :
    (now : ℕ) (db : Db) (m m' m'' : Mail)
    → IsAdded now db m m'
    → IsAdded now db m' m''
    → IsAdded now db m m''
then-IsAdded now db m m' m'' a b = record {
  added = a.added ++ b.added;
  outbox = b.outbox ∙ ap (λ x. x ++ b.added) a.outbox ∙ append_assoc m.outbox a.added b.added;
  allowed = All-append (IsAllowed now db m) a.added b.added a.allowed (
      All-mono (IsAllowed now db m') (IsAllowed now db m) b.added
        (λ e. moved now db m m' e a.subscriptions) b.allowed);
  subscriptions = b.subscriptions ∙ a.subscriptions;
}

insert-cases :
    (e : OutboxEntry) (m : Mail)
    → (insert_entry e m ≡ m) ⊎ (insert_entry e m ≡ record m { outbox = m.outbox ++ e ∷ [] })
unfolding insert_entry
insert-cases e m =
    elim (Bool-cases (
      exists_where (λ s. subscription_is e.subscription_id s && s.site_id == e.site_id && s.enabled)
        m.subscriptions
      && not (
          exists_where (version_is e.subscription_id e.announcement_id e.content_version)
            m.outbox))) [ inl free ↦ inr (rw free) | inr taken ↦ inl (rw taken) ]

-- An enqueueing changes nothing, or appends the new row.
pub enqueue-cases :
    (decode : Text → Option Message) (subscription announcement site : ℕ)
    (platform target payload version title : Text) (now : ℕ) (m : Mail)
    → (kept m (
          enqueue_notification decode subscription announcement site platform target payload version
            title now m)
        ≡ m)
      ⊎ (kept m (
            enqueue_notification decode subscription announcement site platform target payload
              version title now m)
          ≡ record m {
            outbox =
                m.outbox
                ++ pending_entry subscription announcement site platform target payload version now
                    m.outbox
                  ∷ [];
          })
unfolding enqueue_notification insert_entry
enqueue-cases decode subscription announcement site platform target payload version title now m =
    elim (Bool-cases (is_empty version)) [
      | inl bare ↦ inl (rw bare)
      | inr versioned ↦
          elim (Bool-cases (legacy_has decode subscription announcement payload title m)) [
            | inl old ↦ inl (rw (versioned, old))
            | inr other ↦
                elim (insert-cases
                  (pending_entry subscription announcement site platform target payload version now
                    m.outbox)
                  m) [
                    | inl ignored ↦ inl (rw (versioned, other) ignored)
                    | inr written ↦ inr (rw (versioned, other) written)
                  ]
          ]
    ]

module _ (codec : MessageCodec) (senders : Text → Option Sender) (now : ℕ) (db : Db) where
  row-IsAllowed :
      (a : SiteAnnouncement) (s : Subscription) (m : Mail) (payload : Text)
      → Any (λ x. s ≡ x) m.subscriptions
      → s.site_id ≡ a.site_id
      → s.enabled ≡ true
      → allows (push_grant_for s.user_id now db m) s.site_id ≡ true
      → IsAllowed now db m (
          pending_entry s.id a.id a.site_id s.platform s.target payload a.content_hash now m.outbox)
  unfolding pending_entry
  row-IsAllowed a s m payload listed here on granted = record {
    subscription = s;
    listed = listed;
    same_id = refl;
    same_site = sym here;
    same_target = refl;
    is_on = on;
    granted = subst (λ i. allows (push_grant_for s.user_id now db m) i ≡ true) here granted;
    waits = refl;
  }

  one_lem :
      (a : SiteAnnouncement) (s : Subscription) (m : Mail)
      → Any (λ x. s ≡ x) m.subscriptions
      → s.site_id ≡ a.site_id
      → s.enabled ≡ true
      → IsAdded now db m (enqueue_one codec senders now db a s m)
  unfolding enqueue_one
  one_lem a s m listed here on =
      elim (Bool-cases
        (is_there (senders s.platform) && allows (push_grant_for s.user_id now db m) s.site_id)) [
          | inr refused ↦ rw refused (same now db m)
          | inl allowed ↦
              let payload = codec.encode (render_message a) in
              rw allowed
                (elim (enqueue-cases codec.decode s.id a.id a.site_id s.platform s.target payload
                  a.content_hash a.title now m) [
                    | inl ignored ↦ subst (IsAdded now db m) (sym ignored) (same now db m)
                    | inr written ↦ subst (IsAdded now db m) (sym written) (record {
                      added =
                          pending_entry s.id a.id a.site_id s.platform s.target payload
                            a.content_hash now m.outbox
                          ∷ [];
                      outbox = refl;
                      allowed = (
                        row-IsAllowed a s m payload listed here on (ground (arith, allowed)),
                        tt,
                      );
                      subscriptions = refl;
                    })
                  ])
        ]

  all_lem :
      (a : SiteAnnouncement) (rows : List Subscription) (m : Mail)
      → All (λ s. Any (λ x. s ≡ x) m.subscriptions) rows
      → All (λ s. (s.site_id == a.site_id && s.enabled) ≡ true) rows
      → IsAdded now db m (enqueue_all codec senders now db a rows m)
  unfolding enqueue_all
  all_lem a [] m listed fits = same now db m
  all_lem a (s ∷ rest) m listed fits =
      let first = one_lem a s m listed.0 (ground (arith, fits.0)) (ground (arith, fits.0)) in
      let m' = enqueue_one codec senders now db a s m in
      let back = sym first.subscriptions in
      then-IsAdded now db m m' (enqueue_all codec senders now db a rest m') first (
        all_lem a rest m' (subst (λ rows. All (λ s. Any (λ x. s ≡ x) rows) rest) back listed.1)
          fits.1)

  -- Announcements only add entries to the outbox: each is pending, for an enabled subscription of the table to the
  -- entry's site, goes to the target of that subscription, and the push grant of its user allows the site.
  pub enqueue-allowed :
      (anns : List SiteAnnouncement) (m : Mail)
      → IsAdded now db m (enqueue codec senders now db anns m)
  unfolding enqueue list_active_subscriptions_for_site
  enqueue-allowed [] m = same now db m
  enqueue-allowed (a ∷ rest) m =
      let test = λ (s : Subscription). s.site_id == a.site_id && s.enabled in
      let rows = list_active_subscriptions_for_site a.site_id m in
      let m' = enqueue_all codec senders now db a rows m in
      then-IsAdded now db m m' (enqueue codec senders now db rest m')
        (all_lem a rows m
          (All-select_where (λ s. Any (λ x. s ≡ x) m.subscriptions) test m.subscriptions
            (All-Any m.subscriptions))
          (select_where-holds test m.subscriptions))
        (enqueue-allowed rest m')
