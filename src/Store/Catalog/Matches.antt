-- ===== src/Store/Catalog/Matches.antt =====
-- internal/store/rules_matches.go: the matches of raw models are computed again, all or those of some models.
-- The SELECT of the models and the transaction that writes their matches are one step here: no other write comes
-- between them, which the code leaves to its callers.
use relay_scope.Base.{
  ℕ, Bool, true, false, not, ◌&&◌, ◌||◌, Option, none, some, List, [], ◌∷◌, ◌++◌, ◌==◌,
  if◌then◌else◌, is_some, select_where, exists_where,
}
use relay_scope.Matcher.{CompiledRule, Match, preview}
use relay_scope.Store.Catalog.{RawModel, ModelMatch, Catalog, unix_milli}

unfoldable pub match_row : ℕ → ℕ → Match → ModelMatch
match_row raw now m = record {
  raw_model_id = raw;
  rule_id = m.rule.id;
  is_primary = m.primary;
  explanation = m.explanation;
  matched_at = unix_milli now;
}

abbrev pub same_match : ModelMatch → ModelMatch → Bool
same_match m n = n.raw_model_id == m.raw_model_id && n.rule_id == m.rule_id

-- A row whose rule is not in the table, or that is there, fails.
unfoldable pub insert_matches :
    List ℕ → ℕ → ℕ → List Match → List ModelMatch → Option (List ModelMatch)
unfolding match_row
insert_matches rules raw now [] rows = some rows
insert_matches rules raw now (m ∷ rest) rows =
    let row = match_row raw now m in
    let more = insert_matches rules raw now rest (rows ++ row ∷ []) in
    if not (exists_where (λ id. id == row.rule_id) rules) || exists_where (same_match row) rows
    then none
    else more

abbrev pub is_not_of : ℕ → ModelMatch → Bool
is_not_of raw m = not (m.raw_model_id == raw)

unfoldable pub refresh_rows :
    List CompiledRule → List ℕ → ℕ → List RawModel → List ModelMatch → Option (List ModelMatch)
unfolding insert_matches
refresh_rows engine rules now [] rows = some rows
refresh_rows engine rules now (r ∷ rest) rows =
    elim (insert_matches rules r.id now (preview engine r.raw_name).matches
      (select_where (is_not_of r.id) rows)) [
        | none ↦ none
        | some rows' ↦ refresh_rows engine rules now rest rows'
      ]

-- A failure changes nothing; whether it succeeded is given too.
unfoldable pub refresh_matches : List CompiledRule → List RawModel → ℕ → Catalog → Catalog × Bool
unfolding refresh_rows
refresh_matches engine targets now c = elim (refresh_rows engine c.rule_ids now targets c.matches) [
  | none ↦ (c, false)
  | some rows ↦ (record c { matches = rows }, true)
]

abbrev pub is_current : RawModel → Bool
is_current r = not (is_some r.removed_at)

unfoldable pub refresh_all_matches : Option (List CompiledRule) → ℕ → Catalog → Catalog × Bool
unfolding refresh_matches
refresh_all_matches none now c = (c, false)
refresh_all_matches (some engine) now c =
    refresh_matches engine (select_where is_current c.raw_models) now c

abbrev pub is_among : List ℕ → RawModel → Bool
is_among ids r = is_current r && exists_where (λ id. id == r.id) ids

unfoldable pub refresh_matches_for_raw_models :
    Option (List CompiledRule) → List ℕ → ℕ → Catalog → Catalog × Bool
unfolding refresh_matches
refresh_matches_for_raw_models none ids now c = (c, false)
refresh_matches_for_raw_models (some engine) [] now c = (c, true)
refresh_matches_for_raw_models (some engine) (id ∷ ids) now c =
    refresh_matches engine (select_where (is_among (id ∷ ids)) c.raw_models) now c
