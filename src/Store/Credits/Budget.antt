-- ===== src/Store/Credits/Budget.antt =====
-- The monthly credit is never overspent: the used part of every grant stays within it, and a month has
-- one grant for each user, under every call of the store.
use relay_scope.Base.{
  ℕ, ◌+◌, ◌-◌, ◌≤◌, min, ◌≡◌, refl, inl, inr, Bool, true, false, ◌&&◌, ◌||◌, some, List, [], ◌∷◌,
  ◌==◌, arith, Bool-cases, Option-cases, All, Pairs, All-append, Pairs-snoc, All-update_where,
  Pairs-update_where, select_first, update_where, count_where, exists_where, All-select_first,
  subst,
}
use relay_scope.Store.{WishCredit, Db}
use relay_scope.Store.Credits.{
  credit_of, grant_credit, debit_row, affordable, consume_monthly_credit, debited,
  current_credit_period,
}

abbrev pub Funded : WishCredit → Type 0
Funded c = c.used_ldc ≤ c.granted_ldc

-- Not the same user and month.
abbrev pub OtherGrant : WishCredit → WishCredit → Type 0
OtherGrant c d = credit_of c.user_id c.period d ≡ false

pub record IsBudgeted (rows : List WishCredit) : Type 0 where
  pub funded : All Funded rows
  pub single : Pairs OtherGrant rows

ungranted :
    (user period : ℕ) (rows : List WishCredit)
    → exists_where (credit_of user period) rows ≡ false
    → All (λ c. (c.user_id == user && c.period == period) ≡ false) rows
unfolding exists_where select_first
ungranted user period [] h = tt
ungranted user period (c ∷ rows) h =
    (ground (arith, h), ungranted user period rows (ground (arith, h)))

turned :
    (user period : ℕ) (d : WishCredit) (rows : List WishCredit)
    → d.user_id ≡ user
    → d.period ≡ period
    → All (λ c. (c.user_id == user && c.period == period) ≡ false) rows
    → All (λ c. OtherGrant c d) rows
turned user period d [] e f h = tt
turned user period d (c ∷ rows) e f h =
    (ground (arith, h.0, e, f), turned user period d rows e f h.1)

pub grant-IsBudgeted :
    (user period grant now : ℕ) (rows : List WishCredit)
    → IsBudgeted rows
    → IsBudgeted (grant_credit user period grant now rows)
unfolding grant_credit
grant-IsBudgeted user period grant now rows h =
    elim (Bool-cases (exists_where (credit_of user period) rows)) [
      | inl there ↦ rw there h
      | inr new ↦
          let row : WishCredit = record {
            user_id = user;
            period = period;
            granted_ldc = grant;
            used_ldc = 0;
            created_at = now;
          } in
          rw new (record {
            funded = All-append Funded rows (row ∷ []) h.funded (omega arith, tt);
            single =
                Pairs-snoc OtherGrant rows row h.single
                  (turned user period row rows refl refl (ungranted user period rows new));
          })
    ]

debit-single :
    (p : WishCredit → Bool) (n : ℕ) (rows : List WishCredit)
    → IsBudgeted rows
    → Pairs OtherGrant (update_where p (debit_row n) rows)
unfolding debit_row
debit-single p n rows h =
    Pairs-update_where OtherGrant Funded OtherGrant p (debit_row n) rows
      (λ c d k _ _. ground (arith, k)) h.single h.funded

pub consume-IsBudgeted :
    (user amount now : ℕ) (db : Db)
    → IsBudgeted db.credits
    → IsBudgeted (consume_monthly_credit user amount now db).0.credits
unfolding consume_monthly_credit
consume-IsBudgeted user amount now db h = elim (Bool-cases (user == 0 || amount == 0)) [
  | inl bad ↦ rw bad h
  | inr good ↦
      elim (Option-cases (select_first (credit_of user (current_credit_period now)) db.credits)) [
        | inl missing ↦ rw (good, missing) h
        | inr (c, e) ↦
            let n = min (c.granted_ldc - c.used_ldc) amount in
            let p = affordable user (current_credit_period now) n in
            elim (Bool-cases (n == 0 || count_where p db.credits == 0)) [
              | inl nothing ↦ rw (good, e, nothing) h
              | inr some_left ↦
                  rw (good, e, some_left)
                    (record {
                      funded =
                          All-update_where Funded Funded p (debit_row n) db.credits
                            (λ x k. unfold debit_row in ground (arith, k)) h.funded;
                      single = debit-single p n db.credits h;
                    })
            ]
      ]
]

-- The rows of one user and month are the one that was read.
unique :
    (user period : ℕ) (P : WishCredit → Type 0) (rows : List WishCredit) (c : WishCredit)
    → Pairs OtherGrant rows
    → select_first (credit_of user period) rows ≡ some c
    → P c
    → All (λ d. credit_of user period d ≡ true → P d) rows
unfolding select_first
unique user period P [] c h e k = tt
unique user period P (d ∷ rows) c h e k = elim (Bool-cases (credit_of user period d)) [
  | inl hit ↦ (
    (λ _. subst P (ground (arith, hit, e)) k),
    others rows h.0 (ground (arith, hit)) (ground (arith, hit)),
  )
  | inr miss ↦ (
    (λ hit. absurd (ground (arith, hit, miss))),
    unique user period P rows c h.1 (ground (arith, miss, e)) k,
  )
]
  where
    others :
        (xs : List WishCredit)
        → All (OtherGrant d) xs
        → d.user_id ≡ user
        → d.period ≡ period
        → All (λ x. credit_of user period x ≡ true → P x) xs
    others [] a eu ep = tt
    others (x ∷ xs) a eu ep =
        ((λ hit. absurd (ground (arith, a.0, hit, eu, ep))), others xs a.1 eu ep)

pub debited-IsBudgeted :
    (user period n : ℕ) (c : WishCredit) (db : Db)
    → IsBudgeted db.credits
    → select_first (credit_of user period) db.credits ≡ some c
    → n ≤ c.granted_ldc - c.used_ldc
    → IsBudgeted (debited user period n db).credits
unfolding debited
debited-IsBudgeted user period n c db h e le = record {
  funded =
      All-update_where
        (λ d. Funded d × (credit_of user period d ≡ true → d.used_ldc + n ≤ d.granted_ldc)) Funded
        (credit_of user period) (debit_row n) db.credits
        (λ d k. unfold debit_row in ground (arith, k.0, k.1)) (both db.credits h.funded room);
  single = debit-single (credit_of user period) n db.credits h;
}
  where
    room : All (λ d. credit_of user period d ≡ true → d.used_ldc + n ≤ d.granted_ldc) db.credits
    room =
        unique user period (λ d. d.used_ldc + n ≤ d.granted_ldc) db.credits c h.single e
          (let f : c.used_ldc ≤ c.granted_ldc =
              All-select_first Funded (credit_of user period) db.credits h.funded e in
            omega (arith, le, f))

    both :
        (xs : List WishCredit)
        → All Funded xs
        → All (λ d. credit_of user period d ≡ true → d.used_ldc + n ≤ d.granted_ldc) xs
        → All (λ d. Funded d × (credit_of user period d ≡ true → d.used_ldc + n ≤ d.granted_ldc)) xs
    both [] a b = tt
    both (x ∷ xs) a b = ((a.0, b.0), both xs a.1 b.1)
