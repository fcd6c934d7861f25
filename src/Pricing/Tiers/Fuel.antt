-- ===== src/Pricing/Tiers/Fuel.antt =====
-- The search for tier calls ends: more fuel than characters finds nothing further.
use relay_scope.Base.{
  ℕ, zero, suc, ◌≤◌, ◌<◌, ◌-◌, ◌≡◌, ◌⊎◌, refl, inl, inr, Bool, true, false, not, Option, none, some,
  [], ◌∷◌, ◌==◌, length, arith, Bool-cases, Option-cases, ap,
}
use relay_scope.Base.Texts.{Text, codes, cut_prefix}
use relay_scope.Pricing.Tokens.{is_ident_char, scan_quoted, until_quote}
use relay_scope.Pricing.Tiers.{find_tier, prepend, scan_balanced, skip_blanks, collect_tiers}

cut_prefix-le : (p s rest : Text) → cut_prefix p s ≡ some rest → length rest ≤ length s
unfolding cut_prefix
cut_prefix-le [] s rest h = ground (arith, h)
cut_prefix-le (c ∷ p) [] rest h = cc
cut_prefix-le (c ∷ p) (d ∷ s) rest h = ground (arith, h, cut_prefix-le p s rest)

cut_tier-lt : (s rest : Text) → cut_prefix (codes "tier(") s ≡ some rest → length rest < length s
unfolding cut_prefix
cut_tier-lt [] rest h = cc
cut_tier-lt (c ∷ s) rest h = ground (arith, h, cut_prefix-le (codes "ier(") s rest)

find_tier-lt : (b : Bool) (s rest : Text) → find_tier b s ≡ some rest → length rest < length s
unfolding find_tier
find_tier-lt b [] rest h = cc
find_tier-lt true (c ∷ s) rest h = ground (arith, find_tier-lt (is_ident_char c) s rest h)
find_tier-lt false (c ∷ s) rest h = elim (Option-cases (cut_prefix (codes "tier(") (c ∷ s))) [
  | inl away ↦ ground (arith, find_tier-lt (is_ident_char c) s rest (ground (arith, away, h)))
  | inr (args, e) ↦ ground (arith, cut_tier-lt (c ∷ s) args e, e, h)
]

until_quote-lt : (s t rest : Text) → until_quote s ≡ some (t, rest) → length rest < length s
unfolding until_quote
until_quote-lt [] t rest h = cc
until_quote-lt (c ∷ s) t rest h = elim (Option-cases (until_quote s)) [
  | inl e ↦ ground (arith, e, h)
  | inr ((t', rest'), e) ↦ ground (arith, e, h, until_quote-lt s t' rest' e)
]

scan_quoted-lt : (s t rest : Text) → scan_quoted s ≡ some (t, rest) → length rest < length s
unfolding scan_quoted
scan_quoted-lt [] t rest h = cc
scan_quoted-lt (c ∷ s) t rest h = ground (arith, h, until_quote-lt s t rest)

skip_blanks-le : (s : Text) → length (skip_blanks s) ≤ length s
unfolding skip_blanks
skip_blanks-le [] = omega arith
skip_blanks-le (c ∷ s) = ground (arith, skip_blanks-le s)

prepend-inv :
    (c : ℕ) (o : Option (Text × Text)) (body rest : Text)
    → prepend c o ≡ some (body, rest)
    → (b : Text) × (o ≡ some (b, rest))
prepend-inv c none body rest h = cc
prepend-inv c (some (b, r)) body rest h = (b, ground (arith, h))

scan_balanced-lt :
    (q : Bool) (d : ℕ) (s body rest : Text)
    → scan_balanced q d s ≡ some (body, rest)
    → length rest < length s
unfolding scan_balanced
scan_balanced-lt q d [] body rest h = cc
scan_balanced-lt true d (c ∷ s) body rest h =
    let (b, e) = prepend-inv c (scan_balanced (not (c == b'"')) d s) body rest h in
    ground (arith, scan_balanced-lt (not (c == b'"')) d s b rest e)
scan_balanced-lt false d (c ∷ s) body rest h = elim (Bool-cases (c == b'(')) [
  | inl opens ↦
      let (b, e) =
        prepend-inv c (scan_balanced false (suc d) s) body rest (ground (arith, opens, h)) in
      ground (arith, scan_balanced-lt false (suc d) s b rest e)
  | inr other ↦ elim (Bool-cases (c == b')')) [
    | inr inner ↦
        let (b, e) =
          prepend-inv c (scan_balanced (c == b'"') d s) body rest
            (ground (arith, other, inner, h)) in
        ground (arith, scan_balanced-lt (c == b'"') d s b rest e)
    | inl closes ↦ elim (Bool-cases (d == 1)) [
      | inl last ↦ ground (arith, other, closes, last, h)
      | inr deeper ↦
          let (b, e) =
            prepend-inv c (scan_balanced false (d - 1) s) body rest
              (ground (arith, other, closes, deeper, h)) in
          ground (arith, scan_balanced-lt false (d - 1) s b rest e)
    ]
  ]
]

List-cases : (s : Text) → (s ≡ []) ⊎ ((c : ℕ) × (t : Text) × (s ≡ c ∷ t))
List-cases [] = inl refl
List-cases (c ∷ s) = inr (c, s, refl)

-- With more fuel than the text has characters, the search finds the same tiers whatever the fuel is, so
-- that the fuel of pick_tier_body is enough.
pub collect_tiers_total :
    (f g : ℕ) (s : Text) → length s < f → length s < g → collect_tiers f s ≡ collect_tiers g s
unfolding collect_tiers
collect_tiers_total zero g s hf hg = absurd (omega (arith, hf))
collect_tiers_total (suc f) zero s hf hg = absurd (omega (arith, hg))
collect_tiers_total (suc f) (suc g) s hf hg = elim (Option-cases (find_tier false s)) [
  | inl absent ↦ rw (absent, collect_tiers) refl
  | inr (args, ea) ↦
      let la = find_tier-lt false s args ea in
      elim (Option-cases (scan_quoted args)) [
        | inl unquoted ↦
            rw (ea, unquoted, collect_tiers)
              (collect_tiers_total f g args (omega (arith, la, hf)) (omega (arith, la, hg)))
        | inr ((name, rest), eq) ↦
            let lr = scan_quoted-lt args name rest eq in
            let lb = skip_blanks-le rest in
            elim (List-cases (skip_blanks rest)) [
              | inl ended ↦ rw (ea, eq, ended, collect_tiers) refl
              | inr (c, more, en) ↦
                  let lm : suc (length more) ≤ length rest = ground (arith, en, lb) in
                  elim (Bool-cases (c == b',')) [
                    | inr no_comma ↦
                        rw (ea, eq, en, no_comma, collect_tiers)
                          (collect_tiers_total f g (c ∷ more) (omega (arith, la, lr, lm, hf))
                            (omega (arith, la, lr, lm, hg)))
                    | inl comma ↦ elim (Option-cases (scan_balanced false 1 more)) [
                      | inl unbalanced ↦
                          rw (ea, eq, en, comma, unbalanced, collect_tiers)
                            (collect_tiers_total f g more (omega (arith, la, lr, lm, hf))
                              (omega (arith, la, lr, lm, hg)))
                      | inr ((body, rest'), eb) ↦
                          let lc = scan_balanced-lt false 1 more body rest' eb in
                          rw (ea, eq, en, comma, eb, collect_tiers)
                            (ap (λ ts. (name, body) ∷ ts)
                              (collect_tiers_total f g rest' (omega (arith, la, lr, lm, lc, hf))
                                (omega (arith, la, lr, lm, lc, hg))))
                    ]
                  ]
            ]
      ]
]
