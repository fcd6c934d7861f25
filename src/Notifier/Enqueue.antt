-- ===== src/Notifier/Enqueue.antt =====
-- internal/notifier/dispatcher.go: announcements become messages for the subscriptions that may be pushed to.
-- The grants of a call are not cached: what they read does not change during the call.
pub mod Grants
pub mod Allowed
use relay_scope.Base.{
  ℕ, ◌+◌, Bool, true, false, not, ◌&&◌, Option, none, some, List, [], ◌∷◌, ◌++◌, ltb, ◌==◌,
  if◌then◌else◌, length, take,
}
use relay_scope.Base.Texts.{Text, codes, is_empty}
use relay_scope.Store.{Db, ok, err}
use relay_scope.Store.Membership.{get_membership}
use relay_scope.Store.Wishes.{sort_by}
use relay_scope.Store.Announcements.{SiteAnnouncement}
use relay_scope.Store.Notifications.{
  Mail, Subscription, enqueue_notification, list_active_subscriptions_for_site,
}
use relay_scope.Store.Notifications.Channels.{list_user_subscriptions, has_site}
use relay_scope.Notifier.Dispatch.{Message, Sender}

abbrev pub free_push_sites : ℕ
free_push_sites = 3

pub data PushGrant : Type 0 where
  everything : PushGrant
  only : List ℕ → PushGrant

abbrev pub allows : PushGrant → ℕ → Bool
allows everything site = true
allows (only sites) site = has_site site sites

-- The loop over the subscriptions: `seen` are the sites so far, `allowed` the first of them.
unfoldable pub first_sites : List ℕ → List ℕ → List Subscription → List ℕ
first_sites seen allowed [] = allowed
first_sites seen allowed (s ∷ rest) =
    let skipped = first_sites seen allowed rest in
    let taken = first_sites (s.site_id ∷ seen) (allowed ++ s.site_id ∷ []) rest in
    let full = first_sites (s.site_id ∷ seen) allowed rest in
    if has_site s.site_id seen
    then skipped
    else if ltb (length allowed) free_push_sites
    then taken
    else full

unfoldable pub free_grant : ℕ → Mail → PushGrant
unfolding first_sites
free_grant user m =
    only (first_sites [] [] (sort_by (λ a b. ltb a.id b.id) (list_user_subscriptions user m)))

-- A user who is not found gets nothing.
unfoldable pub push_grant_for : ℕ → ℕ → Db → Mail → PushGrant
unfolding free_grant
push_grant_for user now db m = elim (get_membership user now db) [
  | err e ↦ only []
  | ok membership ↦ if membership.active then everything else free_grant user m
]

unfoldable pub render_message : SiteAnnouncement → Message
render_message a = (
  codes "📢 " ++ (a.site_name ++ (if is_empty a.title then [] else codes " | " ++ a.title)),
  if ltb 2000 (length a.content) then take 2000 a.content ++ codes "..." else a.content,
)

abbrev pub is_there : {A : Type 0} → Option A → Bool
is_there none = false
is_there (some a) = true

-- The encoding of a message, and back.
pub record MessageCodec : Type 0 where
  pub encode : Message → Text
  pub decode : Text → Option Message

-- An enqueueing that is refused changes nothing.
abbrev pub kept : Mail → Option Mail → Mail
kept m none = m
kept m (some m') = m'

module _ (codec : MessageCodec) (senders : Text → Option Sender) (now : ℕ) (db : Db) where
  unfoldable pub enqueue_one : SiteAnnouncement → Subscription → Mail → Mail
  unfolding push_grant_for render_message
  enqueue_one a s m =
      if not (is_there (senders s.platform) && allows (push_grant_for s.user_id now db m) s.site_id)
      then m
      else kept m (
          enqueue_notification codec.decode s.id a.id a.site_id s.platform s.target
            (codec.encode (render_message a)) a.content_hash a.title now m)

  unfoldable pub enqueue_all : SiteAnnouncement → List Subscription → Mail → Mail
  unfolding enqueue_one
  enqueue_all a [] m = m
  enqueue_all a (s ∷ rest) m = enqueue_all a rest (enqueue_one a s m)

  unfoldable pub enqueue : List SiteAnnouncement → Mail → Mail
  unfolding enqueue_all
  enqueue [] m = m
  enqueue (a ∷ rest) m =
      enqueue rest (enqueue_all a (list_active_subscriptions_for_site a.site_id m) m)
