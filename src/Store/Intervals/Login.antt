-- ===== src/Store/Intervals/Login.antt =====
-- A login keeps the bought intervals sound, and gives its user the membership registered for the name.
use relay_scope.Base.{
  ℕ, ◌≡◌, ◌∙◌, ◌==◌, ==_iff, ==_refl, sym, ap, subst, max, some, if◌then◌else◌,
  select_first-update_where, refl, inl, inr, Bool, none, List, [], ◌∷◌, ◌++◌, arith, Bool-cases,
  Option-cases, select_first, select_where, update_where, exists_where,
}
use relay_scope.Base.Texts.{Text}
use relay_scope.Store.{User, Db, Preregistration, ok, user_is}
use relay_scope.Store.Membership.Usernames.{
  consume_membership_preregistration, preregistration_is, drop_preregistration, username_key,
  keep_later_expiry,
}
use relay_scope.Store.Users.{
  Account, trimmed, is_bad_account, account_is, put_user, login_row, new_user, upsert_user,
}
use relay_scope.Store.Intervals.{expiry_of, expiry_of-ne, Within-mono}
use relay_scope.Store.Intervals.Links.{IsLedger}
use relay_scope.Store.Intervals.Calls.{consume-IsLedger}

expiry_of-login_row :
    (j : ℕ) (p : User → Bool) (a : Account) (now : ℕ) (us : List User)
    → expiry_of j (update_where p (login_row a now) us) ≡ expiry_of j us
unfolding expiry_of update_where login_row
expiry_of-login_row j p a now [] = refl
expiry_of-login_row j p a now (u ∷ us) = ground (arith, expiry_of-login_row j p a now us)

expiry_of-append :
    (j : ℕ) (us : List User) (v : User)
    → v.membership_expires_at ≡ none
    → expiry_of j (us ++ v ∷ []) ≡ expiry_of j us
unfolding expiry_of
expiry_of-append j [] v blank = ground arith
expiry_of-append j (u ∷ us) v blank = ground (arith, expiry_of-append j us v blank)

expiry_of-put_user :
    (j : ℕ) (a : Account) (now : ℕ) (rows : List User)
    → expiry_of j (put_user a now rows) ≡ expiry_of j rows
unfolding put_user
expiry_of-put_user j a now rows =
    elim (Bool-cases (exists_where (account_is a.provider a.external_id) rows)) [
      | inl known ↦
          rw known (expiry_of-login_row j (account_is a.provider a.external_id) a now rows)
      | inr new ↦ rw new (expiry_of-append j rows (new_user a now rows) (unfold new_user in refl))
    ]

-- What is registered for a name, 0 where nothing is.
abbrev pub registered_expiry : Text → Text → List Preregistration → ℕ
registered_expiry provider key rows = elim (select_first (preregistration_is provider key) rows) [
  | none ↦ 0
  | some p ↦ p.expires_at
]

-- The later of an expiry and one registered for the user of an id.
abbrev pub with_registered : ℕ → ℕ → ℕ → ℕ → ℕ
with_registered id registered j old = if j == id then max old registered else old

expiry_of-keep :
    (q : User → Bool) (expires now : ℕ) (us : List User) (v : User)
    → select_first q us ≡ some v
    → expiry_of v.id (update_where (user_is v.id) (keep_later_expiry expires now) us)
      ≡ max (expiry_of v.id us) expires
unfolding expiry_of select_first update_where keep_later_expiry
expiry_of-keep q expires now [] v h = cc
expiry_of-keep q expires now (w ∷ us) v h =
    ground (arith, ==_refl v.id, expiry_of-keep q expires now us v)

expiry_of-consume :
    (j : ℕ) (provider name : Text) (now : ℕ) (db : Db) (q : User → Bool) (v : User)
    → select_first q db.users ≡ some v
    → expiry_of j (consume_membership_preregistration provider name v.id now db).users
      ≡ with_registered v.id
          (registered_expiry provider (username_key name) db.preregistrations)
          j
          (expiry_of j db.users)
unfolding consume_membership_preregistration
expiry_of-consume j provider name now db q v there =
    let rows = db.preregistrations in
    elim (Option-cases (select_first (preregistration_is provider (username_key name)) rows)) [
      | inl missing ↦
          rw (missing, consume_membership_preregistration, registered_expiry) (ground arith)
      | inr (p, e) ↦
          rw (e, consume_membership_preregistration, registered_expiry)
            (elim (Bool-cases (j == v.id)) [
              | inl own ↦
                  let same = (==_iff j v.id).0 own in
                  rw own (
                    subst
                      (λ i.
                        expiry_of i (
                          update_where (user_is v.id) (keep_later_expiry p.expires_at now) db.users)
                        ≡ max (expiry_of i db.users) p.expires_at)
                      (sym same) (expiry_of-keep q p.expires_at now db.users v there))
              | inr other ↦ rw other (
                  expiry_of-ne v.id j (keep_later_expiry p.expires_at now) db.users
                    (λ u. unfold keep_later_expiry in refl)
                    (λ e. absurd (cc ((==_iff j v.id).1 (sym e), other))))
            ])
    ]

-- The account's row after its registration is used up.
account-consume :
    (a : Account) (now : ℕ) (db : Db) (v : User)
    → select_first (account_is a.provider a.external_id) db.users ≡ some v
    → (w : User) × (select_first
          (account_is a.provider a.external_id)
          (consume_membership_preregistration a.provider a.username v.id now db).users
        ≡ some w)
      × (w.id ≡ v.id)
unfolding consume_membership_preregistration
account-consume a now db v there =
    let rows = db.preregistrations in
    elim (Option-cases
      (select_first (preregistration_is a.provider (username_key a.username)) rows)) [
        | inl missing ↦ (v, rw (missing, consume_membership_preregistration) there, refl)
        | inr (p, e) ↦
            let own = ==_refl v.id in
            (
              keep_later_expiry p.expires_at now v,
              rw (e, consume_membership_preregistration)
                  (select_first-update_where (account_is a.provider a.external_id) (user_is v.id)
                      (keep_later_expiry p.expires_at now) db.users v
                      (λ u. unfold keep_later_expiry in refl) there
                    ∙ rw own refl),
              unfold keep_later_expiry in refl,
            )
      ]

gone :
    (provider key : Text) (rows : List Preregistration)
    → select_first (preregistration_is provider key) (drop_preregistration provider key rows) ≡ none
unfolding select_first drop_preregistration select_where
gone provider key [] = refl
gone provider key (p ∷ rows) = elim (Bool-cases (preregistration_is provider key p)) [
  | inl hit ↦ rw hit (gone provider key rows)
  | inr miss ↦ ground (arith, miss, gone provider key rows)
]

consumed :
    (provider name : Text) (k now : ℕ) (db : Db)
    → select_first
        (preregistration_is provider (username_key name))
        (consume_membership_preregistration provider name k now db).preregistrations
      ≡ none
unfolding consume_membership_preregistration
consumed provider name k now db =
    elim (Option-cases
      (select_first (preregistration_is provider (username_key name)) db.preregistrations)) [
        | inl missing ↦ rw (missing, consume_membership_preregistration) missing
        | inr (p, e) ↦
            rw (e, consume_membership_preregistration)
              (gone provider (username_key name) db.preregistrations)
      ]

module _ (raw : Account) (now : ℕ) (db : Db) where
  abbrev put : Db
  put = record db { users = put_user (trimmed raw) now db.users }

  put-IsLedger : IsLedger db → IsLedger put
  put-IsLedger h = record {
    sound = record {
      within =
          Within-mono db.users put.users db.intervals
            (λ j. let same = expiry_of-put_user j (trimmed raw) now db.users in omega (arith, same))
            h.sound.within;
      apart = h.sound.apart;
    };
    links = h.links;
  }

  pub upsert-IsLedger : IsLedger db → IsLedger (upsert_user raw now db).0
  unfolding upsert_user
  upsert-IsLedger h = elim (Bool-cases (is_bad_account (trimmed raw))) [
    | inl bad ↦ rw bad h
    | inr good ↦
        elim (Option-cases
          (select_first (account_is (trimmed raw).provider (trimmed raw).external_id) put.users)) [
            | inl missing ↦ rw good (rw (missing, upsert_user) h)
            | inr (u, e) ↦ rw good (
                rw (e, upsert_user)
                  (consume-IsLedger (trimmed raw).provider (trimmed raw).username u.id now put
                    (put-IsLedger h)))
          ]
  ]

  -- A login that succeeds leaves a row of its account. The expiry of that user is now the later of the one before and
  -- the one registered for the account's name, if any; no other user's changes; and none is registered for the name any
  -- more.
  pub upsert_user_lem :
      (db' : Db) (u : User)
      → upsert_user raw now db ≡ (db', ok u)
      → (w : User) × (select_first
            (account_is (trimmed raw).provider (trimmed raw).external_id)
            db'.users
          ≡ some w)
        × ((j : ℕ)
            → expiry_of j db'.users
              ≡ with_registered w.id
                  (registered_expiry
                    (trimmed raw).provider
                    (username_key (trimmed raw).username)
                    db.preregistrations)
                  j
                  (expiry_of j db.users))
        × (select_first
              (preregistration_is (trimmed raw).provider (username_key (trimmed raw).username))
              db'.preregistrations
            ≡ none)
  unfolding upsert_user
  upsert_user_lem db' u h = elim (Bool-cases (is_bad_account (trimmed raw))) [
    | inl bad ↦ absurd (ground (arith, bad))
    | inr good ↦
        elim (Option-cases
          (select_first (account_is (trimmed raw).provider (trimmed raw).external_id) put.users)) [
            | inl missing ↦ absurd (ground (arith, good, missing))
            | inr (v, e) ↦
                let provider = (trimmed raw).provider in
                let name = (trimmed raw).username in
                let end : db' ≡ consume_membership_preregistration provider name v.id now put =
                  ground (arith, good, e, h) in
                let (w, row, same) = account-consume (trimmed raw) now put v e in
                let registered =
                  registered_expiry provider (username_key name) db.preregistrations in
                (
                  w,
                  ap (λ d. select_first (account_is provider (trimmed raw).external_id) d.users) end
                      ∙ row,
                  λ j.
                      ap (λ d. expiry_of j d.users) end
                      ∙ expiry_of-consume j provider name now put
                          (account_is provider (trimmed raw).external_id) v e
                      ∙ ap (with_registered v.id registered j)
                          (expiry_of-put_user j (trimmed raw) now db.users)
                      ∙ ap (λ i. with_registered i registered j (expiry_of j db.users)) (sym same),
                  rw end (consumed provider name v.id now put),
                )
          ]
  ]
