-- ===== src/Pricing/Parser.antt =====
-- internal/pricing/expr.go, the recursive descent parser. A function that consumes tokens returns the
-- rest of them. Fuel bounds the depth of calls: four units for each token and four more are enough.
pub mod Fuel
pub mod Difference
use relay_scope.Base.{
  ℕ, zero, suc, ◌+◌, ◌*◌, ◌≡◌, Bool, true, false, not, ◌&&◌, ◌||◌, Option, none, some, List, [],
  ◌∷◌, ◌==◌, if◌then◌else◌, length,
}
use relay_scope.Base.Texts.{Text, text_eq, codes}
use relay_scope.Pricing.{
  Number, ExprToken, number, ident, quoted, operator, LinearValue, pure_constant, variable,
  fixed_price, is_fixed, is_pure, combine_sum, combine_term, negate, is_standard_value,
}

module _ (F : Number) where
  open F use {Carrier}

  -- errUnsupportedExpression is `unsupported`.
  pub data Parse : Type 0 where
    parsed : LinearValue F → List (ExprToken F) → Parse
    unsupported : Parse
    out_of_fuel : Parse

  abbrev pub bind : Parse → (LinearValue F → List (ExprToken F) → Parse) → Parse
  bind (parsed v rest) k = k v rest
  bind unsupported k = unsupported
  bind out_of_fuel k = out_of_fuel

  abbrev pub given : Option (LinearValue F) → List (ExprToken F) → Parse
  given none rest = unsupported
  given (some v) rest = parsed v rest

  abbrev pub given_or : Option (LinearValue F) → (LinearValue F → Parse) → Parse
  given_or none k = unsupported
  given_or (some v) k = k v

  -- acceptOp(")") behind a value.
  abbrev pub closed : LinearValue F → List (ExprToken F) → Parse
  closed v [] = unsupported
  closed v (number x ∷ rest) = unsupported
  closed v (ident t ∷ rest) = unsupported
  closed v (quoted t ∷ rest) = unsupported
  closed v (operator c ∷ rest) = if c == b')' then parsed v rest else unsupported

  -- parseFunctionCall: only fixed(N) is known.
  unfoldable pub parse_function_call : Text → List (ExprToken F) → Parse
  parse_function_call name [] = unsupported
  parse_function_call name (number x ∷ rest) =
      if text_eq name (codes "fixed") then closed (fixed_price F x) rest else unsupported
  parse_function_call name (ident t ∷ rest) = unsupported
  parse_function_call name (quoted t ∷ rest) = unsupported
  parse_function_call name (operator c ∷ rest) = unsupported

  -- An identifier is a call if a parenthesis follows.
  unfoldable pub parse_name : Text → List (ExprToken F) → Parse
  unfolding parse_function_call
  parse_name name (operator c ∷ rest) =
      if c == b'('
      then parse_function_call name rest
      else parsed (variable F name) (operator c ∷ rest)
  parse_name name [] = parsed (variable F name) []
  parse_name name (number x ∷ rest) = parsed (variable F name) (number x ∷ rest)
  parse_name name (ident t ∷ rest) = parsed (variable F name) (ident t ∷ rest)
  parse_name name (quoted t ∷ rest) = parsed (variable F name) (quoted t ∷ rest)

  unfoldable mutual
    unfolding parse_name

    pub parse_expression : ℕ → List (ExprToken F) → Parse
    parse_expression zero ts = out_of_fuel
    parse_expression (suc f) ts = bind (parse_term f ts) (λ v rest. sum_loop f v rest)

    pub sum_loop : ℕ → LinearValue F → List (ExprToken F) → Parse
    sum_loop zero left ts = out_of_fuel
    sum_loop (suc f) left [] = parsed left []
    sum_loop (suc f) left (number x ∷ rest) = parsed left (number x ∷ rest)
    sum_loop (suc f) left (ident t ∷ rest) = parsed left (ident t ∷ rest)
    sum_loop (suc f) left (quoted t ∷ rest) = parsed left (quoted t ∷ rest)
    sum_loop (suc f) left (operator c ∷ rest) = elim (c == b'+' || c == b'-') [
      | false ↦ parsed left (operator c ∷ rest)
      | true ↦
          bind (parse_term f rest) (λ right rest'.
            given_or (combine_sum F (c == b'+') left right) (λ v. sum_loop f v rest'))
    ]

    pub parse_term : ℕ → List (ExprToken F) → Parse
    parse_term zero ts = out_of_fuel
    parse_term (suc f) ts = bind (parse_unary f ts) (λ v rest. term_loop f v rest)

    pub term_loop : ℕ → LinearValue F → List (ExprToken F) → Parse
    term_loop zero left ts = out_of_fuel
    term_loop (suc f) left [] = parsed left []
    term_loop (suc f) left (number x ∷ rest) = parsed left (number x ∷ rest)
    term_loop (suc f) left (ident t ∷ rest) = parsed left (ident t ∷ rest)
    term_loop (suc f) left (quoted t ∷ rest) = parsed left (quoted t ∷ rest)
    term_loop (suc f) left (operator c ∷ rest) = elim (c == b'*' || c == b'/') [
      | false ↦ parsed left (operator c ∷ rest)
      | true ↦ bind (parse_unary f rest) (λ right rest'.
          given_or (combine_term F (c == b'*') left right) (λ v. term_loop f v rest'))
    ]

    pub parse_unary : ℕ → List (ExprToken F) → Parse
    parse_unary zero ts = out_of_fuel
    parse_unary (suc f) [] = parse_atom f []
    parse_unary (suc f) (number x ∷ rest) = parse_atom f (number x ∷ rest)
    parse_unary (suc f) (ident t ∷ rest) = parse_atom f (ident t ∷ rest)
    parse_unary (suc f) (quoted t ∷ rest) = parse_atom f (quoted t ∷ rest)
    parse_unary (suc f) (operator c ∷ rest) = elim (c == b'-' || c == b'+') [
      | false ↦ parse_atom f (operator c ∷ rest)
      | true ↦
          bind (parse_unary f rest)
            (λ v rest'. if c == b'-' then given (negate F v) rest' else parsed v rest')
    ]

    pub parse_atom : ℕ → List (ExprToken F) → Parse
    parse_atom zero ts = out_of_fuel
    parse_atom (suc f) [] = unsupported
    parse_atom (suc f) (number x ∷ rest) = parsed (pure_constant F x) rest
    parse_atom (suc f) (ident t ∷ rest) = parse_name t rest
    parse_atom (suc f) (quoted t ∷ rest) = unsupported
    parse_atom (suc f) (operator c ∷ rest) = elim (c == b'(') [
      | false ↦ unsupported
      | true ↦ bind (parse_expression f rest) (λ v rest'. closed v rest')
    ]

  abbrev pub enough : List (ExprToken F) → ℕ
  enough ts = 4 * length ts + 4

  -- parseLinearExpression on tokens: all of them are consumed.
  unfoldable pub parse_linear : List (ExprToken F) → Option (LinearValue F)
  unfolding parse_expression
  parse_linear ts = elim (parse_expression (enough ts) ts) [
    | parsed v [] ↦ some v
    | parsed v (t ∷ rest) ↦ none
    | unsupported ↦ none
    | out_of_fuel ↦ none
  ]
