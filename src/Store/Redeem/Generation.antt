-- ===== src/Store/Redeem/Generation.antt =====
-- Generated codes are as many as asked for, and no code is in the table twice.
use relay_scope.Base.{
  ℕ, zero, suc, ◌+◌, ◌≡◌, refl, inl, inr, true, false, some, List, [], ◌∷◌, ◌++◌, arith, Bool-cases,
  Option-cases, All, Pairs, Pairs-snoc, subst, length, length-append, exists_where, select_first,
  is_some,
}
use relay_scope.Base.Texts.{Text, text_eq}
use relay_scope.Store.{RedeemCode}
use relay_scope.Store.Redeem.{code_is, unused_code, canonical_code, generate_codes}

abbrev pub OtherCode : RedeemCode → RedeemCode → Type 0
OtherCode a b = text_eq a.code b.code ≡ false

absent :
    (code : Text) (rows : List RedeemCode)
    → exists_where (code_is code) rows ≡ false
    → All (λ c. text_eq c.code code ≡ false) rows
unfolding exists_where select_first
absent code [] h = tt
absent code (c ∷ rows) h = (ground (arith, h), absent code rows (ground (arith, h)))

-- Where a generation from a table without repeated codes does not run out of draws, it shows as many
-- codes as were asked for, the table has grown by as many rows, and no code in it is repeated.
pub generate_codes_lem :
    (draws : List Text) (n days : ℕ) (note : Text) (now : ℕ) (rows after : List RedeemCode)
    (shown : List Text)
    → generate_codes draws n days note now rows ≡ some (shown, after)
    → Pairs OtherCode rows
    → (length shown ≡ n) × (length after ≡ length rows + n) × Pairs OtherCode after
unfolding generate_codes
generate_codes_lem draws zero days note now rows after shown e h =
    (ground (arith, e), ground (arith, e), subst (Pairs OtherCode) (ground (arith, e)) h)
generate_codes_lem [] (suc n) days note now rows after shown e h = cc
generate_codes_lem (raw ∷ draws) (suc n) days note now rows after shown e h =
    elim (Bool-cases (exists_where (code_is (canonical_code raw)) rows)) [
      | inl taken ↦
          generate_codes_lem draws (suc n) days note now rows after shown (ground (arith, e, taken))
            h
      | inr free ↦
          let row = unused_code (canonical_code raw) days note now rows in
          elim (Option-cases (generate_codes draws n days note now (rows ++ row ∷ []))) [
            | inl empty ↦ absurd (ground (arith, e, free, empty))
            | inr ((more, rows'), given) ↦
                let (count, grown, single) =
                  generate_codes_lem draws n days note now (rows ++ row ∷ []) rows' more given (
                    Pairs-snoc OtherCode rows row h
                      (unfold unused_code in absent (canonical_code raw) rows free)) in
                let longer = length-append rows (row ∷ []) in
                (
                  ground (arith, e, free, given, count),
                  ground (arith, e, free, given, grown, longer),
                  subst (Pairs OtherCode) (ground (arith, e, free, given)) single,
                )
          ]
    ]

abbrev pub Unused : List RedeemCode → Text → Type 0
Unused rows raw = exists_where (code_is (canonical_code raw)) rows ≡ false

added-absent :
    (rows : List RedeemCode) (c : RedeemCode) (code : Text)
    → exists_where (code_is code) rows ≡ false
    → text_eq c.code code ≡ false
    → exists_where (code_is code) (rows ++ c ∷ []) ≡ false
unfolding exists_where select_first
added-absent [] c code h ne = ground (arith, ne)
added-absent (r ∷ rows) c code h ne = ground (arith, ne, h, added-absent rows c code)

All-absent :
    (raw : Text) (days : ℕ) (note : Text) (now : ℕ) (rows : List RedeemCode) (draws : List Text)
    → All (λ d. text_eq raw d ≡ false) draws
    → All (Unused rows) draws
    → All (Unused (rows ++ unused_code (canonical_code raw) days note now rows ∷ [])) draws
unfolding unused_code canonical_code
All-absent raw days note now rows [] ne h = tt
All-absent raw days note now rows (d ∷ draws) ne h = (
  added-absent rows (unused_code (canonical_code raw) days note now rows) (canonical_code d) h.0
      (ground (arith, ne.0)),
  All-absent raw days note now rows draws ne.1 h.1,
)

-- Draws that differ from each other and from the codes of the table, as many as are asked for, are
-- enough: the generation gives a result.
pub enough_draws :
    (draws : List Text) (days : ℕ) (note : Text) (now : ℕ) (rows : List RedeemCode)
    → Pairs (λ c d. text_eq c d ≡ false) draws
    → All (Unused rows) draws
    → is_some (generate_codes draws (length draws) days note now rows) ≡ true
unfolding generate_codes
enough_draws [] days note now rows differ free = refl
enough_draws (raw ∷ draws) days note now rows differ free =
    let row = unused_code (canonical_code raw) days note now rows in
    let rest =
      enough_draws draws days note now (rows ++ row ∷ []) differ.1
        (All-absent raw days note now rows draws differ.0 free.1) in
    ground (arith, free.0, rest)
