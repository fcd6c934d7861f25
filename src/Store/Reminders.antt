-- ===== src/Store/Reminders.antt =====
-- internal/store/renewal_reminders.go: a reminder of a user, an expiry and a kind is claimed before it is
-- sent, and released if it could not be sent. The table is a list of rows of its own.
use relay_scope.Base.{
  ℕ, ◌≡◌, refl, inl, inr, Bool, true, false, not, ◌&&◌, List, [], ◌∷◌, ◌++◌, ltb, leb, ◌==◌,
  if◌then◌else◌, arith, Bool-cases, or_zero, exists_where, select_first, select_where,
}
use relay_scope.Base.Texts.{Text, text_eq, text_eq_refl}
use relay_scope.Store.{User, constraint, Result, ok, err, user_is}
use relay_scope.Store.Wishes.{sort_by}

pub record Reminder : Type 0 where
  pub user_id : ℕ
  pub expires_at : ℕ
  pub sent_at : ℕ
  pub kind : Text

abbrev pub reminder_is : ℕ → ℕ → Text → Reminder → Bool
reminder_is user expires kind r =
    r.user_id == user && r.expires_at == expires && text_eq r.kind kind

-- INSERT OR IGNORE: a row of the same key is ignored, a user who does not exist is an error.
unfoldable pub claim_renewal_reminder :
    List User → ℕ → ℕ → Text → ℕ → List Reminder → List Reminder × Result Bool
claim_renewal_reminder users user expires kind now rows =
    if exists_where (reminder_is user expires kind) rows
    then (rows, ok false)
    else if exists_where (user_is user) users
    then (
      rows ++ record { user_id = user; expires_at = expires; sent_at = now; kind = kind } ∷ [],
      ok true,
    )
    else (rows, err constraint)

unfoldable pub release_renewal_reminder : ℕ → ℕ → Text → List Reminder → List Reminder
release_renewal_reminder user expires kind rows =
    select_where (λ r. not (reminder_is user expires kind r)) rows

-- The WHERE of the candidates; `subscribed` tells who has an enabled channel.
abbrev pub is_candidate : (ℕ → Bool) → ℕ → ℕ → User → Bool
is_candidate subscribed from until u =
    ltb from (or_zero u.membership_expires_at)
    && leb (or_zero u.membership_expires_at) until
    && subscribed u.id

unfoldable pub list_renewal_reminder_candidates : (ℕ → Bool) → ℕ → ℕ → List User → List User
list_renewal_reminder_candidates subscribed from until users =
    sort_by (λ u v. ltb (or_zero u.membership_expires_at) (or_zero v.membership_expires_at))
      (select_where (is_candidate subscribed from until) users)

pub appended :
    (user expires : ℕ) (kind : Text) (now : ℕ) (rows : List Reminder)
    → exists_where
        (reminder_is user expires kind)
        (rows ++ record { user_id = user; expires_at = expires; sent_at = now; kind = kind } ∷ [])
      ≡ true
unfolding exists_where select_first
appended user expires kind now [] = ground (arith, text_eq_refl kind)
appended user expires kind now (r ∷ rows) = ground (arith, appended user expires kind now rows)

cleared :
    (user expires : ℕ) (kind : Text) (rows : List Reminder)
    → exists_where (reminder_is user expires kind) (release_renewal_reminder user expires kind rows)
      ≡ false
unfolding exists_where select_first release_renewal_reminder select_where
cleared user expires kind [] = refl
cleared user expires kind (r ∷ rows) = elim (Bool-cases (reminder_is user expires kind r)) [
  | inl hit ↦ rw hit (cleared user expires kind rows)
  | inr miss ↦ ground (arith, miss, cleared user expires kind rows)
]

-- A reminder that was claimed is not given to a second claim, whatever users there are then.
pub claim_renewal_reminder_once :
    (users later_users : List User) (user expires : ℕ) (kind : Text) (now later : ℕ)
    (rows rows' : List Reminder)
    → claim_renewal_reminder users user expires kind now rows ≡ (rows', ok true)
    → claim_renewal_reminder later_users user expires kind later rows' ≡ (rows', ok false)
unfolding claim_renewal_reminder
claim_renewal_reminder_once users later_users user expires kind now later rows rows' h =
    ground (arith, appended user expires kind now rows)

-- A release makes room for one claim: the next claim for a user who exists succeeds, and the claim after
-- it does not.
pub release-claim :
    (users : List User) (user expires : ℕ) (kind : Text) (now : ℕ) (rows : List Reminder)
    → exists_where (user_is user) users ≡ true
    → let released = release_renewal_reminder user expires kind rows in
      let (claimed, answer) = claim_renewal_reminder users user expires kind now released in
      (answer ≡ ok true)
      × ((claim_renewal_reminder users user expires kind now claimed).1 ≡ ok false)
unfolding claim_renewal_reminder
release-claim users user expires kind now rows there =
    let free = cleared user expires kind rows in
    let released = release_renewal_reminder user expires kind rows in
    let held = appended user expires kind now released in
    (ground (arith, free, there), ground (arith, free, there, held))
