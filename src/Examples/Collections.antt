-- ===== src/Examples/Collections.antt =====
-- The tables of one site, where collections stop naming a model, it is blocked, and matches are refreshed.
use relay_scope.Base.{
  All, if◌then◌else◌, ℕ, ◌≡◌, refl, true, false, none, some, List, [], ◌∷◌, select_first,
  select_where, update_where, exists_where,
}
use relay_scope.Base.Texts.{codes, to_lower, to_lower_char, join, contains, has_prefix}
use relay_scope.Domain.{
  Collection, GroupObservation, TimeBucket, healthy, validate, check_catalog, check_models,
  check_missing_state,
}
use relay_scope.Matcher.{
  CompiledRule, preview, all_matches, match_rule, sort_matches, insert_match, conclude,
  contains_all, any_part, first_contained, pattern_fits,
}
use relay_scope.Scheduler.{stale, fresh}
use relay_scope.Store.Catalog.{Catalog, RawModel, ModelMatch}
use relay_scope.Store.Catalog.Collect.{
  only_ratio, apply_collection, apply_models, apply_catalog, update_absence_evidence, catalog_names,
  mark_success,
}
use relay_scope.Store.Catalog.Absence.{collect_all, absences, absent_runs}
use relay_scope.Store.Catalog.Counters.{IsCounted}
use relay_scope.Store.Catalog.Matches.{
  refresh_all_matches, refresh_matches, refresh_rows, insert_matches, match_row, is_current,
}
use relay_scope.Store.Catalog.Refresh.{matches_of, found_for, refresh_all_matches_lem}
use relay_scope.Store.Catalog.Calls.{CatalogCall, collect, block, refresh, refresh_some}

abbrev claude_only : ℕ → Collection
claude_only now = record {
  site_id = 1;
  run_id = 4;
  observed_at = now;
  collected_at = now;
  catalog_complete = true;
  catalog_raw_names = codes "claude" ∷ [];
  missing_catalog_state = none;
  models = [];
}

abbrev hourly : TimeBucket
hourly = record {
  start = 1000000000;
  end = 3601000000000;
  resolution = 3600000000000;
  metrics = only_ratio none;
}

abbrev vip : GroupObservation
vip = record {
  raw_name = codes "vip";
  service_state = healthy;
  observed_at = 0;
  metrics = only_ratio none;
  extension = [];
  buckets = hourly ∷ [];
}

abbrev gpt_seen : Collection
gpt_seen = record {
  site_id = 1;
  run_id = 5;
  observed_at = 3601000000000;
  collected_at = 3602000000000;
  catalog_complete = true;
  catalog_raw_names = [];
  missing_catalog_state = none;
  models =
      record {
        raw_name = codes "gpt";
        provider = [];
        extension = [];
        history_coverage_start = 0;
        history_coverage_end = 0;
        groups = vip ∷ [];
      }
      ∷ [];
}

abbrev gpt_row : RawModel
gpt_row = record {
  id = 7;
  site_id = 1;
  raw_name = codes "gpt";
  normalized_name = codes "gpt";
  provider_hint = [];
  source_extension = none;
  first_seen_at = 1;
  last_seen_at = 1;
  history_coverage_start = none;
  history_coverage_end = none;
  absent_complete_runs = 0;
  removed_at = none;
}

abbrev gpt_match : ModelMatch
gpt_match = record {
  raw_model_id = 7;
  rule_id = 1;
  is_primary = true;
  explanation = [];
  matched_at = 1;
}

abbrev known : Catalog
known = record {
  sites =
      record {
        id = 1;
        interval_seconds = 900;
        acquisition_state = stale;
        last_success_at = none;
        updated_at = 1;
      }
      ∷ [];
  rule_ids = 1 ∷ [];
  raw_models = gpt_row ∷ [];
  groups = [];
  snapshots = [];
  buckets = [];
  matches = gpt_match ∷ [];
  data_revision = 0;
}

abbrev three_runs : List Collection
three_runs = claude_only 1000000 ∷ claude_only 2000000 ∷ claude_only 3000000 ∷ []

-- The tables after the collections.
abbrev gone : Catalog
gone = record known {
  sites =
      record {
        id = 1;
        interval_seconds = 900;
        acquisition_state = fresh;
        last_success_at = some 3;
        updated_at = 3;
      }
      ∷ [];
  raw_models = record gpt_row { absent_complete_runs = 3; removed_at = some 3 } ∷ [];
  matches = [];
  data_revision = 3;
}

three_runs_stored : collect_all none three_runs known ≡ some gone
unfolding collect_all apply_collection validate check_catalog check_models check_missing_state
    apply_models apply_catalog update_absence_evidence catalog_names update_where select_where
    exists_where select_first mark_success
three_runs_stored = refl

absent_runs_example :
    IsCounted 1 (codes "gpt") (absences 1 (codes "gpt") three_runs 0) gone.raw_models
unfolding select_first
absent_runs_example =
    absent_runs 1 (codes "gpt") none three_runs 0 known gone three_runs_stored
      (gpt_row, refl, refl, refl)

abbrev a_rule : CompiledRule
a_rule = record {
  rule = record {
    id = 1;
    provider = codes "openai";
    canonical_name = codes "gpt";
    required_terms = codes "gpt" ∷ [];
    any_terms = [];
    excluded_terms = [];
    aliases = [];
    pattern_text = [];
    priority = 1;
    enabled = true;
    generated = false;
  };
  pattern = none;
  required_terms = codes "gpt" ∷ [];
  any_terms = [];
  excluded_terms = [];
}

abbrev some_calls : List CatalogCall
some_calls =
    collect none gpt_seen
    ∷ refresh (some (a_rule ∷ [])) 10
    ∷ block 1 (codes "gpt" ∷ []) 11
    ∷ collect none gpt_seen
    ∷ refresh_some (some (a_rule ∷ [])) (7 ∷ []) 12
    ∷ []

abbrev rematched : Catalog
rematched = record known {
  matches =
      record {
        raw_model_id = 7;
        rule_id = 1;
        is_primary = true;
        explanation = codes "required=gpt";
        matched_at = 10;
      }
      ∷ [];
}

known_rematched : refresh_all_matches (some (a_rule ∷ [])) 10000000 known ≡ (rematched, true)
unfolding refresh_all_matches refresh_matches refresh_rows insert_matches match_row preview
    all_matches match_rule sort_matches insert_match conclude contains_all any_part first_contained
    pattern_fits join contains has_prefix to_lower to_lower_char select_where exists_where
    select_first
known_rematched = refl

refresh_all_matches_lem_example :
    All
      (λ r. matches_of r.id rematched.matches ≡ (
        if is_current r then found_for (a_rule ∷ []) 10000000 r else matches_of r.id known.matches))
      known.raw_models
refresh_all_matches_lem_example =
    refresh_all_matches_lem (a_rule ∷ []) 10000000 known rematched (tt, tt) known_rematched
