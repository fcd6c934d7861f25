-- ===== src/Matcher.antt =====
-- internal/matcher/matcher.go: rules that assign canonical names to raw model names. `compile_pattern`
-- stands for the package regexp: it compiles a text to a test on texts, or fails. A priority is a
-- natural number.
pub mod Terms
pub mod Ordering
use relay_scope.Base.{
  ℕ, Bool, true, false, not, ◌&&◌, ◌||◌, Option, none, some, List, [], ◌∷◌, ◌++◌, map, ltb, leb,
  ◌==◌, if◌then◌else◌, select_where,
}
use relay_scope.Base.Texts.{
  Text, codes, text_eq, is_empty, to_lower, trim_space, contains, text_lt, join,
}

pub record Rule : Type 0 where
  pub id : ℕ
  pub provider : Text
  pub canonical_name : Text
  pub required_terms : List Text
  pub any_terms : List Text
  pub excluded_terms : List Text
  pub aliases : List Text
  pub pattern_text : Text
  pub priority : ℕ
  pub enabled : Bool
  pub generated : Bool

pub record CompiledRule : Type 0 where
  pub rule : Rule
  pub pattern : Option (Text → Bool)
  pub required_terms : List Text
  pub any_terms : List Text
  pub excluded_terms : List Text

pub record Match : Type 0 where
  pub rule : Rule
  pub primary : Bool
  pub explanation : Text

pub record Preview : Type 0 where
  pub raw_name : Text
  pub matches : List Match
  pub ambiguous : Bool

abbrev pub is_in : Text → List Text → Bool
is_in t [] = false
is_in t (s ∷ rest) = text_eq s t || is_in t rest

-- Lower-cased and trimmed terms, without empty ones and without repetitions.
unfoldable pub compile_loop : List Text → List Text → List Text
compile_loop seen [] = []
compile_loop seen (raw ∷ rest) =
    let term = to_lower (trim_space raw) in
    let skipped = compile_loop seen rest in
    let kept = compile_loop (term ∷ seen) rest in
    if is_empty term || is_in term seen then skipped else term ∷ kept

unfoldable pub compile_terms : List Text → List Text
unfolding compile_loop
compile_terms terms = compile_loop [] terms

unfoldable pub compiled_rule : Rule → Option (Text → Bool) → CompiledRule
unfolding compile_terms
compiled_rule r pattern = record {
  rule = r;
  pattern = pattern;
  required_terms = compile_terms r.required_terms;
  any_terms = compile_terms (r.any_terms ++ r.aliases);
  excluded_terms = compile_terms r.excluded_terms;
}

-- A rule without a name, or with a pattern that does not compile, fails the engine.
unfoldable pub compile_rule : (Text → Option (Text → Bool)) → Rule → Option CompiledRule
unfolding compiled_rule
compile_rule compile_pattern r =
    if is_empty (trim_space r.canonical_name)
    then none
    else if is_empty r.pattern_text
    then some (compiled_rule r none)
    else elim (compile_pattern r.pattern_text) [
      | none ↦ none
      | some p ↦ some (compiled_rule r (some p))
    ]

unfoldable pub new_engine : (Text → Option (Text → Bool)) → List Rule → Option (List CompiledRule)
unfolding compile_rule
new_engine compile_pattern [] = some []
new_engine compile_pattern (r ∷ rs) =
    let rest = new_engine compile_pattern rs in
    elim (compile_rule compile_pattern r) [
      | none ↦ none
      | some c ↦ elim rest [ none ↦ none | some cs ↦ some (c ∷ cs) ]
    ]

unfoldable pub contains_all : Text → List Text → Bool
contains_all haystack [] = true
contains_all haystack (t ∷ ts) = contains t haystack && contains_all haystack ts

-- The first term that occurs.
unfoldable pub first_contained : Text → List Text → Option Text
first_contained haystack [] = none
first_contained haystack (t ∷ ts) =
    if contains t haystack then some t else first_contained haystack ts

unfoldable pub pattern_fits : Option (Text → Bool) → Text → Bool
pattern_fits none raw = true
pattern_fits (some p) raw = p raw

-- The term that an any-list contributes to the explanation; `none` where no term of it occurs.
unfoldable pub any_part : Text → List Text → Option (List Text)
unfolding first_contained
any_part haystack [] = some []
any_part haystack (t ∷ ts) = elim (first_contained haystack (t ∷ ts)) [
  | none ↦ none
  | some hit ↦ some ((codes "any:" ++ hit) ∷ [])
]

abbrev pub is_nil {ℓ} : {A : Type ℓ} → List A → Bool
is_nil [] = true
is_nil (a ∷ rest) = false

abbrev pub has_pattern : CompiledRule → Bool
has_pattern c = elim c.pattern [ none ↦ false | some p ↦ true ]

-- The explanation of a match; `none` where the rule does not match.
unfoldable pub match_rule : CompiledRule → Text → Option Text
unfolding contains_all any_part first_contained pattern_fits join
match_rule c raw_name =
    let haystack = to_lower raw_name in
    if contains_all haystack c.required_terms
    then elim (any_part haystack c.any_terms) [
      | none ↦ none
      | some extra ↦
          let matched = c.required_terms ++ extra in
          elim (first_contained haystack c.excluded_terms) [
            | some banned ↦ none
            | none ↦
                if not (pattern_fits c.pattern raw_name) || is_nil matched && not (has_pattern c)
                then none
                else some (codes "required=" ++ join (codes ",") matched)
          ]
    ]
    else none

-- The greater priority first, then the lesser name.
unfoldable pub listed_before : Match → Match → Bool
unfolding text_lt
listed_before m n =
    if m.rule.priority == n.rule.priority
    then text_lt m.rule.canonical_name n.rule.canonical_name
    else ltb n.rule.priority m.rule.priority

-- A stable sort: a match goes behind those that are listed before it, and before its equals.
unfoldable pub insert_match : Match → List Match → List Match
unfolding listed_before
insert_match m [] = m ∷ []
insert_match m (n ∷ rest) = if listed_before n m then n ∷ insert_match m rest else m ∷ n ∷ rest

unfoldable pub sort_matches : List Match → List Match
unfolding insert_match
sort_matches [] = []
sort_matches (m ∷ rest) = insert_match m (sort_matches rest)

unfoldable pub all_matches : List CompiledRule → Text → List Match
unfolding match_rule
all_matches [] raw_name = []
all_matches (c ∷ cs) raw_name =
    let rest = all_matches cs raw_name in
    if c.rule.enabled
    then elim (match_rule c raw_name) [
      | none ↦ rest
      | some e ↦ record { rule = c.rule; primary = false; explanation = e } ∷ rest
    ]
    else rest

-- One match is the primary one; several are ambiguous.
unfoldable pub conclude : Text → List Match → Preview
conclude raw_name [] = record { raw_name = raw_name; matches = []; ambiguous = false }
conclude raw_name (m ∷ []) = record {
  raw_name = raw_name;
  matches = record m { primary = true } ∷ [];
  ambiguous = false;
}
conclude raw_name (m ∷ n ∷ rest) = record {
  raw_name = raw_name;
  matches = m ∷ n ∷ rest;
  ambiguous = true;
}

unfoldable pub preview : List CompiledRule → Text → Preview
unfolding conclude sort_matches all_matches
preview rules raw_name = conclude raw_name (sort_matches (all_matches rules raw_name))
