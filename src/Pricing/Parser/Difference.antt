-- ===== src/Pricing/Parser/Difference.antt =====
-- A difference of two names: the sign reaches the constants alone.
use relay_scope.Base.{◌≡◌, refl, true, false, [], ◌∷◌}
use relay_scope.Base.Texts.{Text}
use relay_scope.Pricing.{Number, ident, operator, combine_sum, variable}
use relay_scope.Pricing.Parser.{parse_linear, parse_expression, parse_name}

module _ (F : Number) where
  open F use {add_zero_zero, sub_zero_zero}

  sum_or_difference :
      (a b : Text)
      → combine_sum F false (variable F a) (variable F b)
        ≡ combine_sum F true (variable F a) (variable F b)
  unfolding combine_sum variable
  sum_or_difference a b = rw (add_zero_zero, sub_zero_zero) refl

  -- For every two names the expression `a - b` has the price of `a + b`: the coefficient of `b` is
  -- added, not subtracted. The subtraction of 0 from 0 and their sum must be 0, which float64 has.
  pub difference_adds :
      (a b : Text)
      → parse_linear F (ident a ∷ operator b'-' ∷ ident b ∷ [])
        ≡ parse_linear F (ident a ∷ operator b'+' ∷ ident b ∷ [])
  unfolding parse_linear parse_expression parse_name combine_sum variable
  difference_adds a b = rw (add_zero_zero, sub_zero_zero) refl
