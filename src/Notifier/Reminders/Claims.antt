-- ===== src/Notifier/Reminders/Claims.antt =====
-- Reminders that are claimed, and deliveries that follow one another.
use relay_scope.Base.{
  ◌≡◌, ◌∙◌, sym, subst, inl, inr, Bool, true, false, ◌&&◌, List, [], ◌∷◌, ◌++◌, arith, ◌==◌, ==_iff,
  Bool-cases, exists_where, select_first, select_where, All, All-mono, All-append, Pairs,
}
use relay_scope.Base.Texts.{text_eq, text_eq_sound, text_eq_refl}
use relay_scope.Store.Reminders.{Reminder, reminder_is, release_renewal_reminder}
use relay_scope.Notifier.Reminders.{Delivered}

-- Two deliveries are of different reminders.
abbrev pub same_reminder : Delivered → Delivered → Bool
same_reminder a b = a.user_id == b.user_id && a.expires_at == b.expires_at && text_eq a.kind b.kind

abbrev pub IsOther : Delivered → Delivered → Type 0
IsOther a b = same_reminder a b ≡ false

abbrev pub is_claimed : List Reminder → Delivered → Bool
is_claimed rows d = exists_where (reminder_is d.user_id d.expires_at d.kind) rows

-- The deliveries so far are of different reminders, which are claimed, and those to come are of reminders that
-- were not claimed.
pub record Follows (rows rows' : List Reminder) (log : List Delivered) : Type 0 where
  pub apart : Pairs IsOther log
  pub held : All (λ d. is_claimed rows' d ≡ true) log
  pub fresh : All (λ d. is_claimed rows d ≡ false) log
  pub grows : (d : Delivered) → is_claimed rows d ≡ true → is_claimed rows' d ≡ true

same-claimed :
    (rows : List Reminder) (a b : Delivered)
    → same_reminder a b ≡ true
    → is_claimed rows a ≡ is_claimed rows b
same-claimed rows a b h =
    let user : a.user_id ≡ b.user_id = (==_iff a.user_id b.user_id).0 (ground (arith, h)) in
    let time : a.expires_at ≡ b.expires_at =
      (==_iff a.expires_at b.expires_at).0 (ground (arith, h)) in
    let kind : a.kind ≡ b.kind = text_eq_sound a.kind b.kind (ground (arith, h)) in
    cc (user, time, kind)

-- One is claimed where the other is not.
pub other :
    (rows : List Reminder) (a b : Delivered)
    → is_claimed rows a ≡ true
    → is_claimed rows b ≡ false
    → IsOther a b
other rows a b claimed free = elim (Bool-cases (same_reminder a b)) [
  | inr e ↦ e
  | inl e ↦ absurd (let eq = same-claimed rows a b e in cc (eq, claimed, free))
]

Pairs-join :
    (xs ys : List Delivered)
    → Pairs IsOther xs
    → Pairs IsOther ys
    → All (λ x. All (IsOther x) ys) xs
    → Pairs IsOther (xs ++ ys)
Pairs-join [] ys h k c = k
Pairs-join (x ∷ xs) ys h k c = (All-append (IsOther x) xs ys h.0 c.0, Pairs-join xs ys h.1 k c.1)

pub Follows-none : (rows : List Reminder) → Follows rows rows []
Follows-none rows = record { apart = tt; held = tt; fresh = tt; grows = λ d h. h }

pub Follows-trans :
    (a b c : List Reminder) (log more : List Delivered)
    → Follows a b log
    → Follows b c more
    → Follows a c (log ++ more)
Follows-trans a b c log more f g = record {
  apart = Pairs-join log more f.apart g.apart (
      All-mono (λ d. is_claimed b d ≡ true) (λ x. All (IsOther x) more) log
        (λ d claimed.
          All-mono (λ x. is_claimed b x ≡ false) (IsOther d) more
            (λ x free. other b d x claimed free) g.fresh)
        f.held);
  held =
      All-append (λ d. is_claimed c d ≡ true) log more
        (All-mono (λ d. is_claimed b d ≡ true) (λ d. is_claimed c d ≡ true) log g.grows f.held)
        g.held;
  fresh =
      All-append (λ d. is_claimed a d ≡ false) log more f.fresh
        (All-mono (λ d. is_claimed b d ≡ false) (λ d. is_claimed a d ≡ false) more
          (λ d free. not_before d free) g.fresh);
  grows = λ d h. g.grows d (f.grows d h);
}
  where
    not_before : (d : Delivered) → is_claimed b d ≡ false → is_claimed a d ≡ false
    not_before d free = elim (Bool-cases (is_claimed a d)) [
      | inr e ↦ e
      | inl e ↦ absurd (let claimed = f.grows d e in cc (claimed, free))
    ]

-- A row of one reminder is no row of another.
row_other :
    (d k : Delivered) (r : Reminder)
    → IsOther d k
    → reminder_is d.user_id d.expires_at d.kind r ≡ true
    → reminder_is k.user_id k.expires_at k.kind r ≡ false
row_other d k r apart h = elim (Bool-cases (reminder_is k.user_id k.expires_at k.kind r)) [
  | inr e ↦ e
  | inl e ↦
      let user : d.user_id ≡ k.user_id =
        sym ((==_iff r.user_id d.user_id).0 (ground (arith, h)))
        ∙ (==_iff r.user_id k.user_id).0 (ground (arith, e)) in
      let time : d.expires_at ≡ k.expires_at =
        sym ((==_iff r.expires_at d.expires_at).0 (ground (arith, h)))
        ∙ (==_iff r.expires_at k.expires_at).0 (ground (arith, e)) in
      let kind : d.kind ≡ k.kind =
        sym (text_eq_sound r.kind d.kind (ground (arith, h)))
        ∙ text_eq_sound r.kind k.kind (ground (arith, e)) in
      let same_user = (==_iff d.user_id k.user_id).1 user in
      let same_time = (==_iff d.expires_at k.expires_at).1 time in
      let same_kind = subst (λ t. text_eq d.kind t ≡ true) kind (text_eq_refl d.kind) in
      absurd (ground (arith, same_user, same_time, same_kind, apart))
]

pub released :
    (d k : Delivered) (rows : List Reminder)
    → IsOther d k
    → is_claimed rows d ≡ true
    → is_claimed (release_renewal_reminder k.user_id k.expires_at k.kind rows) d ≡ true
unfolding exists_where select_first release_renewal_reminder select_where
released d k [] apart h = absurd (cc h)
released d k (r ∷ rows) apart h = elim (Bool-cases (reminder_is d.user_id d.expires_at d.kind r)) [
  | inl own ↦ let stays = row_other d k r apart own in ground (arith, own, stays)
  | inr passes ↦
      let rest = released d k rows apart (ground (arith, passes, h)) in ground (arith, passes, rest)
]
