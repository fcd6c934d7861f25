-- ===== src/Notifier/Dispatch/Settled.antt =====
-- An entry of the outbox that was sent, failed or was cancelled is not touched again.
use relay_scope.Base.{
  ℕ, ◌+◌, ◌≡◌, ◌≢◌, ◌∙◌, refl, sym, ap, subst, inl, inr, Bool, true, false, Option, some, List, [],
  ◌∷◌, ◌==◌, arith, Bool-cases, Option-cases, leb, ltb, ==_iff, ◌&&◌, exists_where, All-append, All,
  All-mono, All-take, Pairs, Pairs-update_where, select_first, select_first-update_where,
  select_first-holds, select_where, All-select_where, select_where-holds, update_where, updated,
}
use relay_scope.Base.Texts.{Text, codes, text_eq}
use relay_scope.Store.Wishes.{sort_by}
use relay_scope.Store.Wishes.Sorting.{All-sort_by}
use relay_scope.Store.Notifications.{
  Mail, OutboxEntry, entry_is, is_waiting, is_enabled, is_ready, notification_can_send,
  mark_notification_sent, mark_notification_failed, schedule_notification_retry, record_delivery,
  list_pending_notifications, retry, sent, failed,
}
use relay_scope.Notifier.Dispatch.{
  Message, Sender, retry_backoff, mark_retry, send_message, deliver_entry, of_platform, by_platform,
}

abbrev pub OtherId : OutboxEntry → OutboxEntry → Type 0
OtherId a b = a.id ≢ b.id

abbrev pub IsKeyed : Mail → Type 0
IsKeyed m = Pairs OtherId m.outbox

-- The row of an id, which waits for nothing.
pub record IsSettled (i : ℕ) (e : OutboxEntry) (m : Mail) : Type 0 where
  pub keyed : IsKeyed m
  pub row : select_first (entry_is i) m.outbox ≡ some e
  pub final : is_waiting e.status ≡ false

all_unit : (rows : List OutboxEntry) → All (λ e. Unit {0}) rows
all_unit [] = tt
all_unit (r ∷ rows) = (tt, all_unit rows)

-- An UPDATE that keeps the ids and does not hit the row.
pub update-IsSettled :
    (p : OutboxEntry → Bool) (f : OutboxEntry → OutboxEntry) (i : ℕ) (e : OutboxEntry) (m m' : Mail)
    → ((x : OutboxEntry) → (f x).id ≡ x.id)
    → p e ≡ false
    → m'.outbox ≡ update_where p f m.outbox
    → IsSettled i e m
    → IsSettled i e m'
update-IsSettled p f i e m m' keep miss eq s = record {
  keyed = subst (Pairs OtherId) (sym eq) (
      Pairs-update_where OtherId (λ x. Unit {0}) OtherId p f m.outbox
        (λ x y d _ _. updated_ids x y d) s.keyed (all_unit m.outbox));
  row =
      ap (select_first (entry_is i)) eq
      ∙ select_first-update_where (entry_is i) p f m.outbox e (λ y. ap (λ j. j == i) (keep y)) s.row
      ∙ rw miss refl;
  final = s.final;
}
  where
    kept_id : (x : OutboxEntry) → (updated p f x).id ≡ x.id
    kept_id x = elim (Bool-cases (p x)) [ inl hit ↦ rw hit (keep x) | inr pass ↦ rw pass refl ]

    updated_ids : (x y : OutboxEntry) → x.id ≢ y.id → (updated p f x).id ≢ (updated p f y).id
    updated_ids x y d h = d (sym (kept_id x) ∙ h ∙ kept_id y)

settled_id : (i : ℕ) (e : OutboxEntry) (m : Mail) → IsSettled i e m → e.id ≡ i
settled_id i e m s = (==_iff e.id i).0 (select_first-holds (entry_is i) m.outbox e s.row)

ready-waits :
    (now : ℕ) (m : Mail) (r : OutboxEntry) → is_ready now m r ≡ true → is_waiting r.status ≡ true
unfolding is_ready
ready-waits now m r h = ground arith

All-apply :
    (P Q : OutboxEntry → Type 0) (rows : List OutboxEntry)
    → All (λ r. P r → Q r) rows
    → All P rows
    → All Q rows
All-apply P Q [] f h = tt
All-apply P Q (r ∷ rows) f h = (f.0 h.0, All-apply P Q rows f.1 h.1)

module _ (i : ℕ) (e : OutboxEntry) where
  other_id : (id : ℕ) (m : Mail) → id ≢ i → IsSettled i e m → (e.id == id) ≡ false
  other_id id m ne s =
      let same = settled_id i e m s in
      elim (Bool-cases (e.id == id)) [
        | inl hit ↦ absurd (ne (sym ((==_iff e.id id).0 hit) ∙ same))
        | inr miss ↦ miss
      ]

  -- An UPDATE of the row of another id.
  by_id :
      (f : OutboxEntry → OutboxEntry) (id : ℕ) (m m' : Mail)
      → ((x : OutboxEntry) → (f x).id ≡ x.id)
      → id ≢ i
      → m'.outbox ≡ update_where (entry_is id) f m.outbox
      → IsSettled i e m
      → IsSettled i e m'
  by_id f id m m' keep ne eq s =
      update-IsSettled (entry_is id) f i e m m' keep (other_id id m ne s) eq s

  pub failed-IsSettled :
      (id : ℕ) (m : Mail) → id ≢ i → IsSettled i e m → IsSettled i e (mark_notification_failed id m)
  unfolding mark_notification_failed
  failed-IsSettled id m ne s =
      by_id (λ x. record x { status = failed }) id m (mark_notification_failed id m) (λ x. refl) ne
        refl s

  retry-IsSettled :
      (now : ℕ) (r : OutboxEntry) (m : Mail)
      → r.id ≢ i
      → IsSettled i e m
      → IsSettled i e (mark_retry now r m)
  unfolding mark_retry record_delivery schedule_notification_retry
  retry-IsSettled now r m ne s = elim (Bool-cases (leb 5 r.retry_count)) [
    | inl last ↦
        let given_up = failed-IsSettled r.id m ne s in
        rw last (record { keyed = given_up.keyed; row = given_up.row; final = given_up.final })
    | inr more ↦ rw more (
        by_id
          (λ x. record x {
            status = retry;
            retry_count = r.retry_count + 1;
            next_retry_at = some (now + retry_backoff r.retry_count);
          })
          r.id m
          (schedule_notification_retry r.id (r.retry_count + 1) (now + retry_backoff r.retry_count)
            m)
          (λ x. refl) ne refl s)
  ]

  message-IsSettled :
      (send : Sender) (now : ℕ) (r : OutboxEntry) (message : Message) (m : Mail)
      → r.id ≢ i
      → IsSettled i e m
      → IsSettled i e (send_message send now r message m)
  unfolding send_message record_delivery mark_notification_sent
  message-IsSettled send now r message m ne s = elim (Bool-cases (send now r.target message)) [
    | inl delivered ↦ rw delivered (
        by_id (λ x. record x { status = sent; sent_at = some now }) r.id m
          (record_delivery r (codes "delivered") [] now (mark_notification_sent r.id now m))
          (λ x. refl) ne refl s)
    | inr undelivered ↦ rw undelivered (retry-IsSettled now r m ne s)
  ]

  pub entry-IsSettled :
      (decode : Text → Option Message) (send : Sender) (now : ℕ) (r : OutboxEntry) (m : Mail)
      → r.id ≢ i
      → IsSettled i e m
      → IsSettled i e (deliver_entry decode send now r m)
  unfolding deliver_entry
  entry-IsSettled decode send now r m ne s = elim (Option-cases (decode r.payload)) [
    | inl unreadable ↦ rw (unreadable, deliver_entry) (failed-IsSettled r.id m ne s)
    | inr (message, readable) ↦
        rw (readable, deliver_entry) (message-IsSettled send now r message m ne s)
  ]

  -- A ready row is not the settled one.
  ready_rows :
      (now : ℕ) (m : Mail) (rows : List OutboxEntry)
      → Pairs OtherId rows
      → select_first (entry_is i) rows ≡ some e
      → is_waiting e.status ≡ false
      → All (λ r. is_ready now m r ≡ true → r.id ≢ i) rows
  unfolding select_first
  ready_rows now m [] keyed row final = tt
  ready_rows now m (r ∷ rows) keyed row final = elim (Bool-cases (r.id == i)) [
    | inl hit ↦
        let id = (==_iff r.id i).0 hit in
        let same : is_waiting r.status ≡ false = ground (arith, row, hit) in
        (
          λ ready h. absurd (cc (ready-waits now m r ready, same)),
          All-mono (OtherId r) (λ b. is_ready now m b ≡ true → b.id ≢ i) rows
              (λ b ne ready h. ne (id ∙ sym h)) keyed.0,
        )
    | inr miss ↦ (
      λ ready h. absurd (cc ((==_iff r.id i).1 h, miss)),
      ready_rows now m rows keyed.1 (rw miss at row) final,
    )
  ]

  pub listed_rows :
      (now : ℕ) (m : Mail)
      → IsSettled i e m
      → All (λ r. r.id ≢ i) (list_pending_notifications 50 now m)
  unfolding list_pending_notifications
  listed_rows now m s =
      All-take (λ r. r.id ≢ i) 50
        (sort_by (λ a b. ltb a.created_at b.created_at) (select_where (is_ready now m) m.outbox))
        (All-sort_by (λ r. r.id ≢ i) (λ a b. ltb a.created_at b.created_at)
          (select_where (is_ready now m) m.outbox)
          (All-apply (λ r. is_ready now m r ≡ true) (λ r. r.id ≢ i)
            (select_where (is_ready now m) m.outbox)
            (All-select_where (λ r. is_ready now m r ≡ true → r.id ≢ i) (is_ready now m) m.outbox
              (ready_rows now m m.outbox s.keyed s.row s.final))
            (select_where-holds (is_ready now m) m.outbox)))

  pub All-by_platform :
      (P : OutboxEntry → Type 0) (platforms : List Text) (rows : List OutboxEntry)
      → All P rows
      → All P (by_platform platforms rows)
  unfolding by_platform
  All-by_platform P [] rows a = tt
  All-by_platform P (p ∷ rest) rows a =
      All-append P (of_platform p rows) (by_platform rest rows)
        (All-select_where P (λ r. text_eq r.platform p) rows a) (All-by_platform P rest rows a)

  other_rows :
      (p q : OutboxEntry → Bool) (rows : List OutboxEntry)
      → All (λ r. r.id ≢ i) rows
      → exists_where (λ r. entry_is i r && p r && q r) rows ≡ false
  unfolding exists_where select_first
  other_rows p q [] a = refl
  other_rows p q (r ∷ rows) a = elim (Bool-cases (r.id == i)) [
    | inl hit ↦ absurd (a.0 ((==_iff r.id i).0 hit))
    | inr miss ↦ rw miss (other_rows p q rows a.1)
  ]

  settled_row :
      (p q : OutboxEntry → Bool) (rows : List OutboxEntry)
      → Pairs OtherId rows
      → select_first (entry_is i) rows ≡ some e
      → p e ≡ false
      → exists_where (λ r. entry_is i r && p r && q r) rows ≡ false
  unfolding select_first exists_where
  settled_row p q [] keyed row final = refl
  settled_row p q (r ∷ rows) keyed row final = elim (Bool-cases (r.id == i)) [
    | inl hit ↦
        let id = (==_iff r.id i).0 hit in
        let others =
          other_rows p q rows
            (All-mono (OtherId r) (λ b. b.id ≢ i) rows (λ b ne h. ne (id ∙ sym h)) keyed.0) in
        let same : p r ≡ false = ground (arith, row, hit, final) in
        ground (arith, hit, others, same)
    | inr miss ↦ rw miss (settled_row p q rows keyed.1 (rw miss at row) final)
  ]

  -- The check of a row before its send stops the settled one.
  pub cannot_send : (m : Mail) → IsSettled i e m → notification_can_send i m ≡ false
  unfolding notification_can_send
  cannot_send m s =
      settled_row (λ r. is_waiting r.status) (λ r. is_enabled r.subscription_id m) m.outbox s.keyed
        s.row s.final
