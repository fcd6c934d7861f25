-- ===== src/Pricing.antt =====
-- internal/pricing/expr.go: billing expressions, from tokens to the linear coefficients of a price.
-- A `Number` stands for float64: its arithmetic, and the laws of 0 that the proofs use.
pub mod Tokens
pub mod Parser
pub mod Tiers
use relay_scope.Base.{
  ℕ, ◌≡◌, Bool, true, false, not, ◌&&◌, ◌||◌, Option, none, some, List, [], ◌∷◌, ◌++◌, ◌==◌,
  if◌then◌else◌,
}
use relay_scope.Base.Texts.{Text, text_eq, codes}

pub record Number : Type 1 where
  pub Carrier : Type 0
  pub zero_number : Carrier
  pub one_number : Carrier
  pub add : Carrier → Carrier → Carrier
  pub sub : Carrier → Carrier → Carrier
  pub mul : Carrier → Carrier → Carrier
  pub div : Carrier → Carrier → Carrier
  pub neg : Carrier → Carrier
  pub is_zero : Carrier → Bool
  pub is_negative : Carrier → Bool
  pub add_zero_zero : add zero_number zero_number ≡ zero_number
  pub sub_zero_zero : sub zero_number zero_number ≡ zero_number

module _ (F : Number) where
  open F use {Carrier, zero_number, one_number, add, sub, mul, div, neg, is_zero, is_negative}

  -- exprNumber, exprIdent, exprString and exprOperator; the text of a number is not read again.
  pub data ExprToken : Type 0 where
    number : Carrier → ExprToken
    ident : Text → ExprToken
    quoted : Text → ExprToken
    operator : ℕ → ExprToken

  pub record LinearValue : Type 0 where
    pub constant : Carrier
    pub coefficients : List (Text × Carrier)
    pub fixed : Option Carrier

  unfoldable pub pure_constant : Carrier → LinearValue
  pure_constant x = record { constant = x; coefficients = []; fixed = none }

  unfoldable pub variable : Text → LinearValue
  variable name = record {
    constant = zero_number;
    coefficients = (name, one_number) ∷ [];
    fixed = none;
  }

  unfoldable pub fixed_price : Carrier → LinearValue
  fixed_price x = record { constant = zero_number; coefficients = []; fixed = some x }

  abbrev pub is_fixed : LinearValue → Bool
  is_fixed v = elim v.fixed [ none ↦ false | some x ↦ true ]

  abbrev pub is_pure : LinearValue → Bool
  is_pure v = elim v.coefficients [ [] ↦ true | c ∷ cs ↦ false ]

  -- `m[name] += value` on a map of coefficients.
  unfoldable pub add_to : Text → Carrier → List (Text × Carrier) → List (Text × Carrier)
  add_to name value [] = (name, add zero_number value) ∷ []
  add_to name value ((n, c) ∷ cs) =
      if text_eq n name then (n, add c value) ∷ cs else (n, c) ∷ add_to name value cs

  unfoldable pub add_all : List (Text × Carrier) → List (Text × Carrier) → List (Text × Carrier)
  unfolding add_to
  add_all left [] = left
  add_all left ((name, value) ∷ rest) = add_all (add_to name value left) rest

  -- A missing coefficient is 0.
  unfoldable pub coefficient : Text → List (Text × Carrier) → Carrier
  coefficient name [] = zero_number
  coefficient name ((n, c) ∷ cs) = if text_eq n name then c else coefficient name cs

  unfoldable pub map_coefficients :
      (Carrier → Carrier) → List (Text × Carrier) → List (Text × Carrier)
  map_coefficients f [] = []
  map_coefficients f ((n, c) ∷ cs) = (n, f c) ∷ map_coefficients f cs

  -- One round of parseExpression. The sign is applied to the constants alone.
  unfoldable pub combine_sum : Bool → LinearValue → LinearValue → Option LinearValue
  unfolding add_all
  combine_sum plus left right =
      if is_fixed left || is_fixed right
      then none
      else some (record left {
        constant =
            if plus then add left.constant right.constant else sub left.constant right.constant;
        coefficients = add_all left.coefficients right.coefficients;
      })

  unfoldable pub scale_linear : LinearValue → Carrier → LinearValue
  unfolding map_coefficients
  scale_linear v factor = record v {
    constant = mul v.constant factor;
    coefficients = map_coefficients (λ c. mul c factor) v.coefficients;
  }

  unfoldable pub combine_product : LinearValue → LinearValue → Option LinearValue
  unfolding scale_linear pure_constant
  combine_product left right =
      if is_pure left
      then (if is_pure right
          then some (pure_constant (mul left.constant right.constant))
          else some (scale_linear right left.constant))
      else if is_pure right
      then some (scale_linear left right.constant)
      else none

  unfoldable pub combine_quotient : LinearValue → LinearValue → Option LinearValue
  unfolding map_coefficients
  combine_quotient left right =
      if not (is_pure right) || is_zero right.constant
      then none
      else some (record left {
        constant = div left.constant right.constant;
        coefficients = map_coefficients (λ c. div c right.constant) left.coefficients;
      })

  unfoldable pub combine_term : Bool → LinearValue → LinearValue → Option LinearValue
  unfolding combine_product combine_quotient
  combine_term times left right =
      if is_fixed left || is_fixed right
      then none
      else if times
      then combine_product left right
      else combine_quotient left right

  unfoldable pub negate : LinearValue → Option LinearValue
  unfolding map_coefficients
  negate v =
      if is_fixed v
      then none
      else some (record v {
        constant = neg v.constant;
        coefficients = map_coefficients neg v.coefficients;
      })

  unfoldable pub has_negative : List (Text × Carrier) → Bool
  has_negative [] = false
  has_negative ((n, c) ∷ cs) = is_negative c || has_negative cs

  -- What isStandardTierBody and parseBillingExpression accept of a value that is not fixed.
  unfoldable pub is_standard_value : LinearValue → Bool
  unfolding coefficient has_negative
  is_standard_value v =
      is_zero v.constant
      && not (
          is_zero (coefficient (codes "p") v.coefficients)
          && is_zero (coefficient (codes "c") v.coefficients))
      && not (has_negative v.coefficients)
