-- ===== src/Pricing/Tokens.antt =====
-- internal/pricing/expr.go, the tokenizer and the scanners, on the text that is left in place of an
-- index. `parse_float` stands for strconv.ParseFloat. One unit of fuel for each character, and one
-- more, is enough.
use relay_scope.Base.{
  ℕ, zero, suc, ◌≤◌, ◌<◌, ◌≡◌, refl, inl, inr, Bool, true, false, ◌&&◌, ◌||◌, Option, none, some,
  List, [], ◌∷◌, leb, ◌==◌, if◌then◌else◌, length, arith, Bool-cases, Option-cases,
}
use relay_scope.Base.Texts.{Text, codes}
use relay_scope.Pricing.{Number, ExprToken, number, ident, quoted, operator}

unfoldable pub is_blank : ℕ → Bool
is_blank c = c == b' ' || c == 9 || c == 13 || c == 10

unfoldable pub is_ident_char : ℕ → Bool
is_ident_char c =
    c == b'_'
    || leb b'a' c && leb c b'z'
    || leb b'A' c && leb c b'Z'
    || leb b'0' c && leb c b'9'
    || leb 0x80 c

unfoldable pub is_number_char : ℕ → Bool
is_number_char c = leb b'0' c && leb c b'9' || c == b'.'

abbrev pub is_member : Text → ℕ → Bool
is_member [] c = false
is_member (d ∷ ds) c = d == c || is_member ds c

unfoldable pub is_operator_char : ℕ → Bool
is_operator_char c = is_member (codes "+-*/(),?:<>=!&|") c

-- The longest run of characters of a kind, and the rest.
unfoldable pub span : (ℕ → Bool) → Text → Text × Text
span p [] = ([], [])
span p (c ∷ s) = let more = span p s in if p c then (c ∷ more.0, more.1) else ([], c ∷ s)

-- The text up to the next quote, and the rest behind it.
unfoldable pub until_quote : Text → Option (Text × Text)
until_quote [] = none
until_quote (c ∷ s) =
    let more = until_quote s in
    if c == b'"'
    then some ([], s)
    else elim more [ none ↦ none | some (t, rest) ↦ some (c ∷ t, rest) ]

unfoldable pub scan_quoted : Text → Option (Text × Text)
unfolding until_quote
scan_quoted [] = none
scan_quoted (c ∷ s) = if c == b'"' then until_quote s else none

module _ (F : Number) (parse_float : Text → Option (Number.Carrier F)) where
  pub data Scan : Type 0 where
    tokens : List (ExprToken F) → Scan
    unsupported_text : Scan
    out_of_fuel_text : Scan

  abbrev pub push : ExprToken F → Scan → Scan
  push t (tokens ts) = tokens (t ∷ ts)
  push t unsupported_text = unsupported_text
  push t out_of_fuel_text = out_of_fuel_text

  unfoldable pub tokenize : ℕ → Text → Scan
  tokenize zero s = out_of_fuel_text
  tokenize (suc f) [] = tokens []
  tokenize (suc f) (c ∷ s) =
      let skip = tokenize f s in
      let digits = span is_number_char (c ∷ s) in
      let after_number = tokenize f digits.1 in
      let name = span is_ident_char (c ∷ s) in
      let after_name = tokenize f name.1 in
      if is_blank c
      then skip
      else if is_number_char c
      then elim (parse_float digits.0) [
        | none ↦ unsupported_text
        | some x ↦ push (number x) after_number
      ]
      else if is_ident_char c
      then push (ident name.0) after_name
      else if c == b'"' || c == 39
      then elim (scan_quoted (c ∷ s)) [
        | none ↦ unsupported_text
        | some (t, rest) ↦ push (quoted t) (tokenize f rest)
      ]
      else if is_operator_char c
      then push (operator c) skip
      else unsupported_text

  unfoldable pub tokenize_expression : Text → Scan
  unfolding tokenize
  tokenize_expression s = tokenize (suc (length s)) s

  -- The scan had fuel.
  abbrev pub Scanned : Scan → Type 0
  Scanned (tokens ts) = Unit
  Scanned unsupported_text = Unit
  Scanned out_of_fuel_text = ⊥

  Scanned-push : (t : ExprToken F) (r : Scan) → Scanned r → Scanned (push t r)
  Scanned-push t (tokens ts) h = tt
  Scanned-push t unsupported_text h = tt
  Scanned-push t out_of_fuel_text h = absurd h

  span-le : (p : ℕ → Bool) (s : Text) → length (span p s).1 ≤ length s
  unfolding span
  span-le p [] = omega arith
  span-le p (c ∷ s) = ground (arith, span-le p s)

  span-lt : (p : ℕ → Bool) (c : ℕ) (s : Text) → p c ≡ true → length (span p (c ∷ s)).1 ≤ length s
  unfolding span
  span-lt p c s h = ground (arith, h, span-le p s)

  until_quote-lt : (s t rest : Text) → until_quote s ≡ some (t, rest) → length rest < length s
  unfolding until_quote
  until_quote-lt [] t rest h = cc
  until_quote-lt (c ∷ s) t rest h = elim (Option-cases (until_quote s)) [
    | inl e ↦ ground (arith, e, h)
    | inr ((t', rest'), e) ↦ ground (arith, e, h, until_quote-lt s t' rest' e)
  ]

  scan_quoted-lt :
      (c : ℕ) (s t rest : Text) → scan_quoted (c ∷ s) ≡ some (t, rest) → length rest < length s
  unfolding scan_quoted
  scan_quoted-lt c s t rest h = ground (arith, h, until_quote-lt s t rest)

  Scanned-number :
      (o : Option (Number.Carrier F)) (r : Scan)
      → Scanned r
      → Scanned (elim o [ none ↦ unsupported_text | some x ↦ push (number x) r ])
  Scanned-number none r h = tt
  Scanned-number (some x) r h = Scanned-push (number x) r h

  Scanned-quoted :
      (f n : ℕ) (o : Option (Text × Text))
      → ((t rest : Text) → o ≡ some (t, rest) → length rest < n)
      → ((rest : Text) → length rest < n → Scanned (tokenize f rest))
      → Scanned
          (elim o [ none ↦ unsupported_text | some (t, rest) ↦ push (quoted t) (tokenize f rest) ])
  Scanned-quoted f n none short go = tt
  Scanned-quoted f n (some (t, rest)) short go =
      Scanned-push (quoted t) (tokenize f rest) (go rest (short t rest refl))

  tokenize-Scanned : (f : ℕ) (s : Text) → length s < f → Scanned (tokenize f s)
  unfolding tokenize
  tokenize-Scanned zero s h = absurd (omega arith)
  tokenize-Scanned (suc f) [] h = tt
  tokenize-Scanned (suc f) (c ∷ s) h = elim (Bool-cases (is_blank c)) [
    | inl blank ↦ rw blank (tokenize-Scanned f s (omega arith))
    | inr solid ↦ elim (Bool-cases (is_number_char c)) [
      | inl digit ↦
          rw (solid, digit)
            (Scanned-number _ _ (
              tokenize-Scanned f (span is_number_char (c ∷ s)).1
                (omega (arith, span-lt is_number_char c s digit))))
      | inr no_digit ↦ elim (Bool-cases (is_ident_char c)) [
        | inl letter ↦
            rw (solid, no_digit, letter)
              (Scanned-push _ _ (
                tokenize-Scanned f (span is_ident_char (c ∷ s)).1
                  (omega (arith, span-lt is_ident_char c s letter))))
        | inr sign ↦ elim (Bool-cases (c == b'"' || c == 39)) [
          | inl quote ↦
              rw (solid, no_digit, sign, quote)
                (Scanned-quoted f (length s) (scan_quoted (c ∷ s)) (scan_quoted-lt c s)
                  (λ rest lt. tokenize-Scanned f rest (omega arith)))
          | inr plain ↦ elim (Bool-cases (is_operator_char c)) [
            | inl op ↦
                rw (solid, no_digit, sign, plain, op)
                  (Scanned-push _ _ (tokenize-Scanned f s (omega arith)))
            | inr bad ↦ rw (solid, no_digit, sign, plain, bad) tt
          ]
        ]
      ]
    ]
  ]

  -- On every text the tokenizer ends within its fuel, with tokens or a refusal.
  pub tokenize_total : (s : Text) → Scanned (tokenize_expression s)
  unfolding tokenize_expression
  tokenize_total s = tokenize-Scanned (suc (length s)) s (omega arith)
