-- ===== src/Store/Notifications/Ids.antt =====
-- Ids of subscriptions grow, and one that was deleted is not given again while a message remembers it.
use relay_scope.Base.{
  refl, ℕ, ◌<◌, ◌≤◌, ◌≡◌, inl, inr, not, List, [], ◌∷◌, ◌++◌, arith, Bool-cases, All, All-mono,
  Pairs, Pairs-snoc, Pairs-select_where, next_id, next_id_above, exists_where,
}
use relay_scope.Base.Texts.{Text}
use relay_scope.Store.{User, ok}
use relay_scope.Store.Notifications.{Mail, Subscription, OutboxEntry, Delivery}
use relay_scope.Store.Notifications.Channels.{
  fresh_id, create_subscription, delete_subscription, is_own,
}

abbrev pub IsOlder : Subscription → Subscription → Type 0
IsOlder a b = a.id < b.id

-- The table is in the order of its ids.
abbrev pub IsInOrder : Mail → Type 0
IsInOrder m = Pairs IsOlder m.subscriptions

create-cases :
    (users : List User) (sites : List ℕ) (user site : ℕ) (platform target config : Text) (now : ℕ)
    (m m' : Mail) (s : Subscription)
    → create_subscription users sites user site platform target config now m ≡ (m', ok s)
    → (m' ≡ record m { subscriptions = m.subscriptions ++ s ∷ [] }) × (s.id ≡ fresh_id m)
unfolding create_subscription
create-cases users sites user site platform target config now m m' s h = ground arith

fresh_bounds :
    (m : Mail)
    → (next_id (λ (s : Subscription). s.id) m.subscriptions ≤ fresh_id m)
      × (next_id (λ (e : OutboxEntry). e.subscription_id) m.outbox ≤ fresh_id m)
      × (next_id (λ (d : Delivery). d.subscription_id) m.deliveries ≤ fresh_id m)
unfolding fresh_id
fresh_bounds m = omega arith

-- A new subscription is the last of the table, which stays in the order of the ids, and no message in the
-- outbox and no delivery, whatever became of their subscription, has its id or a greater one.
pub create_subscription-fresh :
    (users : List User) (sites : List ℕ) (user site : ℕ) (platform target config : Text) (now : ℕ)
    (m m' : Mail) (s : Subscription)
    → IsInOrder m
    → create_subscription users sites user site platform target config now m ≡ (m', ok s)
    → IsInOrder m'
      × (m'.subscriptions ≡ m.subscriptions ++ s ∷ [])
      × All (λ e. e.subscription_id < s.id) m'.outbox
      × All (λ d. d.subscription_id < s.id) m'.deliveries
create_subscription-fresh users sites user site platform target config now m m' s order h =
    let (written, id) = create-cases users sites user site platform target config now m m' s h in
    let bounds = fresh_bounds m in
    rw written (
      Pairs-snoc IsOlder m.subscriptions s order (
          All-mono (λ x. x.id < next_id (λ y. y.id) m.subscriptions) (λ x. x.id < s.id)
            m.subscriptions (λ x lt. omega arith) (next_id_above (λ x. x.id) m.subscriptions)),
      refl,
      All-mono (λ x. x.subscription_id < next_id (λ y. y.subscription_id) m.outbox)
          (λ x. x.subscription_id < s.id) m.outbox (λ x lt. omega arith)
          (next_id_above (λ x. x.subscription_id) m.outbox),
      All-mono (λ x. x.subscription_id < next_id (λ y. y.subscription_id) m.deliveries)
          (λ x. x.subscription_id < s.id) m.deliveries (λ x lt. omega arith)
          (next_id_above (λ x. x.subscription_id) m.deliveries),
    )

pub delete_subscription-IsInOrder :
    (user id : ℕ) (m : Mail) → IsInOrder m → IsInOrder (delete_subscription user id m).0
unfolding delete_subscription
delete_subscription-IsInOrder user id m order =
    elim (Bool-cases (exists_where (is_own user id) m.subscriptions)) [
      | inl there ↦
          rw there (Pairs-select_where IsOlder (λ s. not (is_own user id s)) m.subscriptions order)
      | inr absent ↦ rw absent order
    ]
