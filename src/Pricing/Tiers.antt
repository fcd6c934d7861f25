-- ===== src/Pricing/Tiers.antt =====
-- internal/pricing/expr.go: the choice of the tier that stands for the standard price, and the price.
pub mod Fuel
use relay_scope.Base.{
  ℕ, zero, suc, ◌-◌, Bool, true, false, not, ◌&&◌, Option, none, some, List, [], ◌∷◌, ◌==◌,
  if◌then◌else◌, length,
}
use relay_scope.Base.Texts.{Text, text_eq, codes, trim_space, cut_prefix}
use relay_scope.Pricing.{Number, LinearValue, is_standard_value, is_fixed, is_pure}
use relay_scope.Pricing.Tokens.{
  tokens, unsupported_text, out_of_fuel_text, tokenize_expression, is_blank, is_ident_char,
  scan_quoted,
}
use relay_scope.Pricing.Parser.{parse_linear}

-- The text behind the first `tier(` that no identifier character precedes. The text begins at a place
-- where none does.
unfoldable pub find_tier : Bool → Text → Option Text
unfolding is_ident_char
find_tier in_name [] = none
find_tier in_name (c ∷ s) =
    let further = find_tier (is_ident_char c) s in
    if in_name
    then further
    else elim (cut_prefix (codes "tier(") (c ∷ s)) [ none ↦ further | some rest ↦ some rest ]

abbrev pub prepend : ℕ → Option (Text × Text) → Option (Text × Text)
prepend c none = none
prepend c (some (body, rest)) = some (c ∷ body, rest)

-- The text up to the parenthesis that closes `depth` open ones; a quoted text is passed over.
unfoldable pub scan_balanced : Bool → ℕ → Text → Option (Text × Text)
scan_balanced in_quote depth [] = none
scan_balanced true depth (c ∷ s) = prepend c (scan_balanced (not (c == b'"')) depth s)
scan_balanced false depth (c ∷ s) =
    let deeper = scan_balanced false (suc depth) s in
    let outer = scan_balanced false (depth - 1) s in
    let inside = scan_balanced (c == b'"') depth s in
    if c == b'('
    then prepend c deeper
    else if c == b')'
    then (if depth == 1 then some ([], s) else prepend c outer)
    else prepend c inside

unfoldable pub skip_blanks : Text → Text
unfolding is_blank
skip_blanks [] = []
skip_blanks (c ∷ s) = if is_blank c then skip_blanks s else c ∷ s

-- The loop of pickTierBody: the names and bodies of all tier calls, in order.
unfoldable pub collect_tiers : ℕ → Text → List (Text × Text)
unfolding find_tier scan_quoted skip_blanks scan_balanced
collect_tiers zero s = []
collect_tiers (suc f) s = elim (find_tier false s) [
  | none ↦ []
  | some args ↦ elim (scan_quoted args) [
    | none ↦ collect_tiers f args
    | some (name, rest) ↦ elim (skip_blanks rest) [
      | [] ↦ []
      | c ∷ more ↦ elim (c == b',') [
        | false ↦ collect_tiers f (c ∷ more)
        | true ↦ elim (scan_balanced false 1 more) [
          | none ↦ collect_tiers f more
          | some (body, rest') ↦ (name, body) ∷ collect_tiers f rest'
        ]
      ]
    ]
  ]
]

unfoldable pub tier_named : Text → List (Text × Text) → Option Text
tier_named want [] = none
tier_named want ((name, body) ∷ tiers) =
    if text_eq (trim_space name) want then some body else tier_named want tiers

module _ (F : Number) (parse_float : Text → Option (Number.Carrier F)) where
  -- parseLinearExpression on a text.
  unfoldable pub parse_text : Text → Option (LinearValue F)
  unfolding parse_linear
  parse_text s = elim (tokenize_expression F parse_float s) [
    | tokens ts ↦ parse_linear F ts
    | unsupported_text ↦ none
    | out_of_fuel_text ↦ none
  ]

  unfoldable pub is_standard_tier_body : Text → Bool
  unfolding parse_text is_standard_value
  is_standard_tier_body body = elim (parse_text body) [
    | none ↦ false
    | some v ↦ not (is_fixed F v) && is_standard_value F v
  ]

  unfoldable pub first_standard : List (Text × Text) → Option Text
  unfolding is_standard_tier_body
  first_standard [] = none
  first_standard ((name, body) ∷ tiers) =
      if is_standard_tier_body body then some body else first_standard tiers

  -- The "base" tier, else the "standard" tier, else the first standard body, else the first tier.
  unfoldable pub choose_tier : Text → List (Text × Text) → Text
  unfolding tier_named first_standard
  choose_tier expression [] = expression
  choose_tier expression ((name, body) ∷ tiers) =
      elim (tier_named (codes "base") ((name, body) ∷ tiers)) [
        | some b ↦ b
        | none ↦ elim (tier_named (codes "standard") ((name, body) ∷ tiers)) [
          | some b ↦ b
          | none ↦ elim (first_standard ((name, body) ∷ tiers)) [ some b ↦ b | none ↦ body ]
        ]
      ]

  unfoldable pub pick_tier_body : Text → Text
  unfolding choose_tier collect_tiers
  pick_tier_body expression =
      choose_tier expression (collect_tiers (suc (length expression)) expression)

  -- What an expression costs: by token, or by request.
  pub data Price : Type 0 where
    per_token : List (Text × Number.Carrier F) → Price
    per_request : Number.Carrier F → Price

  unfoldable pub price_of : LinearValue F → Option Price
  unfolding is_standard_value
  price_of v = elim v.fixed [
    | some x ↦ if is_pure F v then some (per_request x) else none
    | none ↦ if is_standard_value F v then some (per_token v.coefficients) else none
  ]

  unfoldable pub parse_billing_expression : Text → Option Price
  unfolding price_of pick_tier_body
  parse_billing_expression expression = elim (parse_text (pick_tier_body expression)) [
    | none ↦ none
    | some v ↦ price_of v
  ]
