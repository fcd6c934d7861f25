-- ===== src/Admin/Lockout.antt =====
-- Five wrong passwords lock an address for ten minutes, whatever password comes next.
use relay_scope.Base.{
  ℕ, suc, ◌+◌, ◌<◌, ◌≡◌, refl, sym, subst, inl, inr, Bool, true, false, not, Option, none, some,
  List, [], ◌∷◌, ltb, arith, if◌then◌else◌, Bool-cases, Option-cases, All, select_first,
  select_first-holds, select_where,
}
use relay_scope.Base.Texts.{Text, text_eq, text_eq_refl, text_eq_sound, text_eq_iff}
use relay_scope.Admin.{
  Auth, FailureState, failure_window, cleanup_expired, is_forgotten, get_failures, count_failure,
  put_failures, drop_failures, failures_of, login,
}

-- The failures of the address as a login at `now` sees them.
abbrev pub seen_failures : Text → ℕ → Auth → FailureState
seen_failures addr now a = get_failures addr (cleanup_expired now a).max_failures

counted :
    (now later : ℕ) (f : FailureState)
    → f.count < 4
    → later < now + failure_window
    → (is_forgotten later (count_failure now f) ≡ false)
      × ((count_failure now f).count ≡ suc f.count)
unfolding is_forgotten count_failure
counted now later f few soon = (ground arith, ground arith)

-- A login, at a time.
pub record Attempt : Type 0 where
  pub remote : Text
  pub password : Text
  pub draw : Option Text
  pub at : ℕ

abbrev if_from : Text → Attempt → Option Text → List (Option Text) → List (Option Text)
if_from addr x answer rest = if text_eq x.remote addr then answer ∷ rest else rest

-- The answers to the logins from an address, among logins from any.
unfoldable pub answers_to : (Text → Bool) → Text → List Attempt → Auth → List (Option Text)
answers_to accepts addr [] a = []
answers_to accepts addr (x ∷ xs) a =
    let (a', answer) = login accepts x.remote x.password x.draw x.at a in
    if_from addr x answer (answers_to accepts addr xs a')

-- The failures of the address lock it until then.
abbrev IsLocked : Text → ℕ → Auth → Type 0
IsLocked addr until a =
    (f : FailureState) × (select_first (failures_of addr) a.max_failures ≡ some f)
    × (f.until ≡ until)

select_first-kept :
    (p q : FailureState → Bool) (fs : List FailureState) (f : FailureState)
    → select_first p fs ≡ some f
    → q f ≡ true
    → select_first p (select_where q fs) ≡ some f
unfolding select_first select_where
select_first-kept p q [] f h k = cc
select_first-kept p q (x ∷ xs) f h k = elim (Bool-cases (p x)) [
  | inl hit ↦ let same : x ≡ f = ground (arith, h, hit) in ground (arith, same, hit, k)
  | inr miss ↦
      let rest = select_first-kept p q xs f (ground (arith, h, miss)) k in
      elim (Bool-cases (q x)) [
        | inl kept ↦ ground (arith, kept, miss, rest)
        | inr gone ↦ ground (arith, gone, rest)
      ]
]

cleanup-IsLocked :
    (addr : Text) (until t : ℕ) (a : Auth)
    → t < until
    → IsLocked addr until a
    → IsLocked addr until (cleanup_expired t a)
unfolding cleanup_expired is_forgotten
cleanup-IsLocked addr until t a soon (f, there, same) = (
  f,
  select_first-kept (failures_of addr) (λ x. not (is_forgotten t x)) a.max_failures f there
      (ground (arith, same)),
  same,
)

other_addr : (addr other : Text) → text_eq other addr ≡ false → text_eq addr other ≡ false
other_addr addr other h = elim (Bool-cases (text_eq addr other)) [
  | inr e ↦ e
  | inl e ↦
      absurd
        (let same = (text_eq_iff other addr).1 (sym (text_eq_sound addr other e)) in cc (same, h))
]

-- The failures of another address go.
dropped :
    (addr other : Text) (fs : List FailureState) (f : FailureState)
    → text_eq other addr ≡ false
    → select_first (failures_of addr) fs ≡ some f
    → select_first (failures_of addr) (drop_failures other fs) ≡ some f
unfolding drop_failures
dropped addr other fs f ne there =
    let own = text_eq_sound f.remote_addr addr (select_first-holds (failures_of addr) fs f there) in
    let stays = other_addr addr other ne in
    select_first-kept (failures_of addr) (λ x. not (failures_of other x)) fs f there
      (rw own (rw stays refl))

login-IsLocked :
    (accepts : Text → Bool) (addr other password : Text) (draw : Option Text) (until t : ℕ)
    (a : Auth)
    → text_eq other addr ≡ false
    → t < until
    → IsLocked addr until a
    → IsLocked addr until (login accepts other password draw t a).0
unfolding login put_failures select_first
login-IsLocked accepts addr other password draw until t a ne soon h =
    let (f, there, same) = cleanup-IsLocked addr until t a soon h in
    let fs = (cleanup_expired t a).max_failures in
    let gone = dropped addr other fs f ne there in
    elim (Bool-cases (ltb t (get_failures other fs).until)) [
      | inl shut ↦ rw (shut, login) (f, there, same)
      | inr unlatched ↦ elim (Bool-cases (accepts password)) [
        | inl right ↦ elim (Option-cases draw) [
          | inl none_drawn ↦ rw (unlatched, right, none_drawn, login) (f, gone, same)
          | inr (token, drawn) ↦ rw (unlatched, right, drawn, login) (f, gone, same)
        ]
        | inr wrong ↦ rw (unlatched, wrong, login) (f, rw ne gone, same)
      ]
    ]

shut_out :
    (accepts : Text → Bool) (addr password : Text) (draw : Option Text) (until t : ℕ) (a : Auth)
    → t < until
    → IsLocked addr until a
    → ((login accepts addr password draw t a).1 ≡ none)
      × IsLocked addr until (login accepts addr password draw t a).0
unfolding login get_failures
shut_out accepts addr password draw until t a soon h =
    let (f, there, same) = cleanup-IsLocked addr until t a soon h in
    let now_shut : ltb t (get_failures addr (cleanup_expired t a).max_failures).until ≡ true =
      rw (there, get_failures) (ground (arith, same)) in
    rw (now_shut, login) (refl, (f, there, same))

answers-none :
    (accepts : Text → Bool) (addr : Text) (until : ℕ) (xs : List Attempt) (a : Auth)
    → All (λ x. x.at < until) xs
    → IsLocked addr until a
    → All (λ r. r ≡ none) (answers_to accepts addr xs a)
unfolding answers_to
answers-none accepts addr until [] a soon h = tt
answers-none accepts addr until (x ∷ xs) a soon h =
    let a' = (login accepts x.remote x.password x.draw x.at a).0 in
    elim (Bool-cases (text_eq x.remote addr)) [
      | inr other ↦ rw other (
          answers-none accepts addr until xs a' soon.1
            (login-IsLocked accepts addr x.remote x.password x.draw until x.at a other soon.0 h))
      | inl own ↦
          let same = text_eq_sound x.remote addr own in
          let (refusal, still) =
            shut_out accepts x.remote x.password x.draw until x.at a soon.0
              (subst (λ r. IsLocked r until a) (sym same) h) in
          rw own (
            refusal,
            answers-none accepts addr until xs a' soon.1
                (subst (λ r. IsLocked r until a') same still),
          )
    ]

module _ (accepts : Text → Bool) (addr password : Text) (draw : Option Text) (now : ℕ) (a : Auth)
    (wrong : accepts password ≡ false)
    (unlocked : ltb now (seen_failures addr now a).until ≡ false) where
  abbrev after : Auth
  after = (login accepts addr password draw now a).0

  wrong-failures :
      after.max_failures
      ≡ put_failures addr
          (count_failure now (seen_failures addr now a))
          (cleanup_expired now a).max_failures
  unfolding login
  wrong-failures = ground (arith, wrong, unlocked)

  first-seen :
      (later : ℕ)
      → is_forgotten later (count_failure now (seen_failures addr now a)) ≡ false
      → seen_failures addr later after
        ≡ record (count_failure now (seen_failures addr now a)) { remote_addr = addr }
  unfolding get_failures cleanup_expired select_first select_where put_failures is_forgotten
  first-seen later kept = rw wrong-failures (ground (arith, kept, text_eq_refl addr))

  -- A wrong password from an address that is not locked is counted: up to three failures before it
  -- become one more, as long as the next login comes within ten minutes.
  pub failure_counted :
      (later : ℕ)
      → (seen_failures addr now a).count < 4
      → later < now + failure_window
      → (seen_failures addr later after).count ≡ suc (seen_failures addr now a).count
  failure_counted later few soon =
      let (kept, more) = counted now later (seen_failures addr now a) few soon in
      rw (first-seen later kept) more

  -- A wrong password from an address that is not locked and has four counted failures locks it: every login from the
  -- address in the ten minutes that follow is refused, whatever its password and whatever other logins, from any address, come between
  -- them.
  pub fifth_failure_locks :
      (any : Text → Bool) (attempts : List Attempt)
      → (seen_failures addr now a).count ≡ 4
      → All (λ x. x.at < now + failure_window) attempts
      → All (λ r. r ≡ none) (answers_to any addr attempts after)
  unfolding count_failure put_failures select_first
  fifth_failure_locks any attempts fifth soon =
      let f = count_failure now (seen_failures addr now a) in
      answers-none any addr (now + failure_window) attempts after soon (
        rw wrong-failures (
          record f { remote_addr = addr },
          ground (arith, text_eq_refl addr),
          ground (arith, fifth),
        ))
