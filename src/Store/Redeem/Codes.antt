-- ===== src/Store/Redeem/Codes.antt =====
-- The form of a code that is shown and the form that is stored name each other.
use relay_scope.Base.{
  ℕ, ◌≡◌, refl, true, false, ◌&&◌, ◌||◌, not, [], ◌∷◌, All, length, ◌==◌, leb, arith,
}
use relay_scope.Base.Texts.{
  Text, is_space, to_upper, to_upper_char, trim_left, trim_space, has_prefix, cut_prefix,
}
use relay_scope.Store.Redeem.{
  display_code, canonical_code, replace_char, replace_all, normalize_redeem_code,
  format_redeem_code,
}

-- A letter or digit of the alphabet: none of I, L, O, and nothing that the normalization changes.
abbrev pub IsCodeChar : ℕ → Type 0
IsCodeChar c =
    ((leb b'0' c && leb c b'9' || leb b'A' c && leb c b'Z')
      && not (c == b'I' || c == b'L' || c == b'O'))
    ≡ true

plain : (c : ℕ) → IsCodeChar c → (replace_char (to_upper_char c) ≡ c ∷ []) × (is_space c ≡ false)
unfolding replace_char to_upper_char is_space
plain c h = (ground arith, ground arith)

-- Typing a shown code back in, with its dashes, gives the stored form, and showing the stored form gives
-- the shown code, for every code of twelve characters of the alphabet.
pub codes_round_trip :
    (raw : Text)
    → length raw ≡ 12
    → All IsCodeChar raw
    → (normalize_redeem_code (display_code raw) ≡ canonical_code raw)
      × (format_redeem_code (canonical_code raw) ≡ display_code raw)
unfolding normalize_redeem_code display_code canonical_code format_redeem_code trim_space trim_left
    to_upper replace_all is_space has_prefix cut_prefix
codes_round_trip (a ∷ b ∷ c ∷ d ∷ e ∷ f ∷ g ∷ h ∷ i ∷ j ∷ k ∷ l ∷ []) n
      (pa, (pb, (pc, (pd, (pe, (pf, (pg, (ph, (pi, (pj, (pk, (pl, _)))))))))))) =
    (
      rw
          (
            (plain l pl).1,
            (plain a pa).0,
            (plain b pb).0,
            (plain c pc).0,
            (plain d pd).0,
            (plain e pe).0,
            (plain f pf).0,
            (plain g pg).0,
            (plain h ph).0,
            (plain i pi).0,
            (plain j pj).0,
            (plain k pk).0,
            (plain l pl).0,
          )
          refl,
      refl,
    )
codes_round_trip _ n h = absurd (omega (arith, n))
