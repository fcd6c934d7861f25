-- ===== src/Examples/Prices.antt =====
-- Prices over the natural numbers in place of float64.
use relay_scope.Base.{
  ℕ, ◌+◌, ◌-◌, ◌*◌, ◌/◌, ◌==◌, ◌≡◌, refl, false, Option, some, List, [], ◌∷◌, length,
}
use relay_scope.Base.Texts.{Text, codes}
use relay_scope.Pricing.{Number, ExprToken, ident, operator, number}
use relay_scope.Pricing.Parser.{parse_expression, enough, parse_linear}
use relay_scope.Pricing.Parser.Fuel.{Leaves, parse_expression_total}
use relay_scope.Pricing.Parser.Difference.{difference_adds}

abbrev naturals : Number
naturals = record {
  Carrier = ℕ;
  zero_number = 0;
  one_number = 1;
  add = λ a b. a + b;
  sub = λ a b. a - b;
  mul = λ a b. a * b;
  div = λ a b. a / b;
  neg = λ a. 0;
  is_zero = λ a. a == 0;
  is_negative = λ a. false;
  add_zero_zero = refl;
  sub_zero_zero = refl;
}

abbrev two_always : Text → Option ℕ
two_always t = some 2

abbrev price : List (ExprToken naturals)
price = ident (codes "p") ∷ operator b'*' ∷ operator b'(' ∷ number 2 ∷ operator b')' ∷ []

parse_expression_total_example :
    Leaves naturals (length price) (parse_expression naturals (enough naturals price) price)
parse_expression_total_example = parse_expression_total naturals price

difference_adds_example :
    parse_linear naturals (ident (codes "p") ∷ operator b'-' ∷ ident (codes "c") ∷ [])
    ≡ parse_linear naturals (ident (codes "p") ∷ operator b'+' ∷ ident (codes "c") ∷ [])
difference_adds_example = difference_adds naturals (codes "p") (codes "c")
