-- ===== src/Pricing/Parser/Fuel.antt =====
-- The parser never runs out of its fuel, and consumes tokens.
use relay_scope.Base.{
  ℕ, zero, suc, ◌+◌, ◌*◌, ◌<◌, ◌≤◌, inl, inr, Bool, true, false, ◌||◌, Option, none, some, List, [],
  ◌∷◌, ◌==◌, if◌then◌else◌, length, arith, Bool-cases,
}
use relay_scope.Base.Texts.{Text, text_eq, codes}
use relay_scope.Pricing.{
  Number, ExprToken, number, ident, quoted, operator, LinearValue, combine_sum, combine_term,
  negate, fixed_price,
}
use relay_scope.Pricing.Parser.{
  Parse, parsed, unsupported, out_of_fuel, bind, given, given_or, closed, parse_function_call,
  parse_name, parse_expression, sum_loop, parse_term, term_loop, parse_unary, parse_atom, enough,
}

module _ (F : Number) where
  -- A parse that had fuel and leaves fewer than `n` tokens.
  abbrev pub Leaves : ℕ → Parse F → Type 0
  Leaves n (parsed v rest) = length rest < n
  Leaves n unsupported = Unit
  Leaves n out_of_fuel = ⊥

  Leaves-bind :
      (n m : ℕ) (p : Parse F) (k : LinearValue F → List (ExprToken F) → Parse F)
      → Leaves n p
      → ((v : LinearValue F) (rest : List (ExprToken F)) → length rest < n → Leaves m (k v rest))
      → Leaves m (bind F p k)
  Leaves-bind n m (parsed v rest) k h step = step v rest h
  Leaves-bind n m unsupported k h step = tt
  Leaves-bind n m out_of_fuel k h step = absurd h

  Leaves-closed :
      (n : ℕ) (v : LinearValue F) (ts : List (ExprToken F))
      → length ts < n
      → Leaves n (closed F v ts)
  Leaves-closed n v [] h = tt
  Leaves-closed n v (number x ∷ rest) h = tt
  Leaves-closed n v (ident t ∷ rest) h = tt
  Leaves-closed n v (quoted t ∷ rest) h = tt
  Leaves-closed n v (operator c ∷ rest) h = elim (Bool-cases (c == b')')) [
    | inl e ↦ rw e (omega arith)
    | inr e ↦ rw e tt
  ]

  Leaves-given_or :
      (n : ℕ) (o : Option (LinearValue F)) (k : LinearValue F → Parse F)
      → ((v : LinearValue F) → Leaves n (k v))
      → Leaves n (given_or F o k)
  Leaves-given_or n none k h = tt
  Leaves-given_or n (some v) k h = h v

  Leaves-given :
      (n : ℕ) (o : Option (LinearValue F)) (rest : List (ExprToken F))
      → length rest < n
      → Leaves n (given F o rest)
  Leaves-given n none rest h = tt
  Leaves-given n (some v) rest h = h

  Leaves-name :
      (name : Text) (ts : List (ExprToken F)) → Leaves (suc (length ts)) (parse_name F name ts)
  unfolding parse_name
  Leaves-name name [] = omega arith
  Leaves-name name (number x ∷ rest) = omega arith
  Leaves-name name (ident t ∷ rest) = omega arith
  Leaves-name name (quoted t ∷ rest) = omega arith
  Leaves-name name (operator c ∷ rest) = elim (Bool-cases (c == b'(')) [
    | inr e ↦ rw e (omega arith)
    | inl e ↦ rw e (call rest)
  ]
    where
      call :
          (rest : List (ExprToken F))
          → Leaves (suc (suc (length rest))) (parse_function_call F name rest)
      call [] = tt
      call (number x ∷ more) = elim (Bool-cases (text_eq name (codes "fixed"))) [
        | inl e ↦ rw e (Leaves-closed _ (fixed_price F x) more (omega arith))
        | inr e ↦ rw e tt
      ]
      call (ident t ∷ more) = tt
      call (quoted t ∷ more) = tt
      call (operator d ∷ more) = tt

  signed :
      (n : ℕ) (minus : Bool) (v : LinearValue F) (rest : List (ExprToken F))
      → length rest < n
      → Leaves n (if minus then given F (negate F v) rest else parsed v rest)
  signed n true v rest h = Leaves-given n (negate F v) rest h
  signed n false v rest h = h

  weaken : {n m : ℕ} (p : Parse F) → Leaves (suc n) p → n < m → Leaves m p
  weaken (parsed v rest) h lt = omega arith
  weaken unsupported h lt = tt
  weaken out_of_fuel h lt = absurd h

  mutual
    unfolding parse_expression sum_loop parse_term term_loop parse_unary parse_atom

    expression_Leaves :
        (f : ℕ) (ts : List (ExprToken F))
        → 4 * length ts + 4 ≤ f
        → Leaves (length ts) (parse_expression F f ts)
    expression_Leaves zero ts h = absurd (omega arith)
    expression_Leaves (suc f) ts h =
        Leaves-bind (length ts) (length ts) (parse_term F f ts) (λ v rest. sum_loop F f v rest)
          (term_Leaves f ts (omega arith))
          (λ v rest lt. weaken _ (sum_Leaves f v rest (omega arith)) lt)

    sum_Leaves :
        (f : ℕ) (left : LinearValue F) (ts : List (ExprToken F))
        → 4 * length ts + 1 ≤ f
        → Leaves (suc (length ts)) (sum_loop F f left ts)
    sum_Leaves zero left ts h = absurd (omega arith)
    sum_Leaves (suc f) left [] h = omega arith
    sum_Leaves (suc f) left (number x ∷ rest) h = omega arith
    sum_Leaves (suc f) left (ident t ∷ rest) h = omega arith
    sum_Leaves (suc f) left (quoted t ∷ rest) h = omega arith
    sum_Leaves (suc f) left (operator c ∷ rest) h = elim (Bool-cases (c == b'+' || c == b'-')) [
      | inr e ↦ rw (e, Leaves, sum_loop) (omega arith)
      | inl e ↦
          rw (e, Leaves, sum_loop)
            (Leaves-bind (length rest) _ (parse_term F f rest) _ (term_Leaves f rest (omega arith))
              (λ right rest' lt.
                Leaves-given_or _ (combine_sum F (c == b'+') left right) _
                  (λ v. weaken _ (sum_Leaves f v rest' (omega arith)) (omega arith))))
    ]

    term_Leaves :
        (f : ℕ) (ts : List (ExprToken F))
        → 4 * length ts + 3 ≤ f
        → Leaves (length ts) (parse_term F f ts)
    term_Leaves zero ts h = absurd (omega arith)
    term_Leaves (suc f) ts h =
        Leaves-bind (length ts) (length ts) (parse_unary F f ts) (λ v rest. term_loop F f v rest)
          (unary_Leaves f ts (omega arith))
          (λ v rest lt. weaken _ (factor_Leaves f v rest (omega arith)) lt)

    factor_Leaves :
        (f : ℕ) (left : LinearValue F) (ts : List (ExprToken F))
        → 4 * length ts + 1 ≤ f
        → Leaves (suc (length ts)) (term_loop F f left ts)
    factor_Leaves zero left ts h = absurd (omega arith)
    factor_Leaves (suc f) left [] h = omega arith
    factor_Leaves (suc f) left (number x ∷ rest) h = omega arith
    factor_Leaves (suc f) left (ident t ∷ rest) h = omega arith
    factor_Leaves (suc f) left (quoted t ∷ rest) h = omega arith
    factor_Leaves (suc f) left (operator c ∷ rest) h = elim (Bool-cases (c == b'*' || c == b'/')) [
      | inr e ↦ rw (e, Leaves, term_loop) (omega arith)
      | inl e ↦
          rw (e, Leaves, term_loop)
            (Leaves-bind (length rest) _ (parse_unary F f rest) _
              (unary_Leaves f rest (omega arith))
              (λ right rest' lt.
                Leaves-given_or _ (combine_term F (c == b'*') left right) _
                  (λ v. weaken _ (factor_Leaves f v rest' (omega arith)) (omega arith))))
    ]

    unary_Leaves :
        (f : ℕ) (ts : List (ExprToken F))
        → 4 * length ts + 2 ≤ f
        → Leaves (length ts) (parse_unary F f ts)
    unary_Leaves zero ts h = absurd (omega arith)
    unary_Leaves (suc f) [] h = atom_Leaves f [] (omega arith)
    unary_Leaves (suc f) (number x ∷ rest) h = atom_Leaves f (number x ∷ rest) (omega arith)
    unary_Leaves (suc f) (ident t ∷ rest) h = atom_Leaves f (ident t ∷ rest) (omega arith)
    unary_Leaves (suc f) (quoted t ∷ rest) h = atom_Leaves f (quoted t ∷ rest) (omega arith)
    unary_Leaves (suc f) (operator c ∷ rest) h = elim (Bool-cases (c == b'-' || c == b'+')) [
      | inr e ↦ rw (e, Leaves, parse_unary) (atom_Leaves f (operator c ∷ rest) (omega arith))
      | inl e ↦
          rw (e, Leaves, parse_unary)
            (Leaves-bind (length rest) _ (parse_unary F f rest) _
              (unary_Leaves f rest (omega arith))
              (λ v rest' lt. signed _ (c == b'-') v rest' (omega arith)))
    ]

    atom_Leaves :
        (f : ℕ) (ts : List (ExprToken F))
        → 4 * length ts + 1 ≤ f
        → Leaves (length ts) (parse_atom F f ts)
    atom_Leaves zero ts h = absurd (omega arith)
    atom_Leaves (suc f) [] h = tt
    atom_Leaves (suc f) (number x ∷ rest) h = omega arith
    atom_Leaves (suc f) (ident t ∷ rest) h = Leaves-name t rest
    atom_Leaves (suc f) (quoted t ∷ rest) h = tt
    atom_Leaves (suc f) (operator c ∷ rest) h = elim (Bool-cases (c == b'(')) [
      | inr e ↦ rw (e, Leaves, parse_atom) tt
      | inl e ↦
          rw (e, Leaves, parse_atom)
            (Leaves-bind (length rest) _ (parse_expression F f rest) _
              (expression_Leaves f rest (omega arith))
              (λ v rest' lt. Leaves-closed _ v rest' (omega arith)))
    ]

  -- On every list of tokens the parser ends within the fuel that parse_linear gives it, with a value or a
  -- refusal, and what it leaves over is shorter than what it was given.
  pub parse_expression_total :
      (ts : List (ExprToken F)) → Leaves (length ts) (parse_expression F (enough F ts) ts)
  parse_expression_total ts = expression_Leaves (4 * length ts + 4) ts (omega arith)
