-- ===== src/Examples/Console.antt =====
-- An administrator's console, a collection, a set of rules and a scheduler.
use relay_scope.Base.{
  ℕ, ◌+◌, ◌*◌, ◌≡◌, ◌↔◌, ◌≤◌, refl, Bool, true, false, not, none, some, List, [], ◌∷◌, arith, All,
  Pairs, map, length, ltb, select_first, select_where,
}
use relay_scope.Notifier.{new_token_bucket}
use relay_scope.Notifier.Limit.{granted, after_tries, granted_bounds}
use relay_scope.Base.Texts.{Text, codes, text_eq, is_empty}
use relay_scope.Admin.{
  Auth, new_auth, login, cleanup_expired, get_failures, blank_failures, drop_failures, put_failures,
  count_failure, is_forgotten,
}
use relay_scope.Admin.Lockout.{Attempt, answers_to, fifth_failure_locks}
use relay_scope.Domain.{Metrics, Collection, healthy, validate}
use relay_scope.Domain.Validity.{IsValid, validate_iff}
use relay_scope.Matcher.{Rule, CompiledRule, compiled_rule, compile_terms, contains_all, preview}
use relay_scope.Matcher.Terms.{term_of, compile_terms_lem}
use relay_scope.Matcher.Ordering.{IsFalling, IsMarked, shown, fitting, preview_lem}
use mathlib.Core.List.{Permᴰ}
use relay_scope.Scheduler.{Site, Scheduler, dispatch, finish, collection_failed}
use relay_scope.Scheduler.Workers.{IsExclusive, Step, Reach, Reach-IsExclusive}

abbrev refuse : Text → Bool
refuse t = false

abbrev accept : Text → Bool
accept t = true

abbrev home : Text
home = codes "10.0.0.1"

abbrev wrong_once : ℕ → Auth → Auth
wrong_once now a = (login refuse home (codes "x") none now a).0

abbrev four_wrong : Auth
four_wrong = wrong_once 4000 (wrong_once 3000 (wrong_once 2000 (wrong_once 1000 new_auth)))

abbrev knocks : List Attempt
knocks =
    record { remote = home; password = codes "right"; draw = some (codes "token"); at = 6000 }
    ∷ record { remote = codes "10.0.0.2"; password = codes "x"; draw = none; at = 6500 }
    ∷ record { remote = home; password = codes "right"; draw = some (codes "token"); at = 7000 }
    ∷ []

fifth_failure_locks_example :
    All (λ r. r ≡ none) (answers_to accept home knocks (wrong_once 5000 four_wrong))
unfolding login new_auth cleanup_expired get_failures blank_failures select_first select_where
    put_failures drop_failures count_failure is_forgotten
fifth_failure_locks_example =
    fifth_failure_locks refuse home (codes "x") none 5000 four_wrong refl refl accept knocks refl
      (omega arith, (omega arith, (omega arith, tt)))

abbrev no_metrics : Metrics
no_metrics = record {
  request_count = none;
  success_count = none;
  failure_count = none;
  empty_count = none;
  success_ratio = none;
  average_latency_ms = none;
  first_token_ms = none;
  tokens_per_second = none;
}

abbrev collected : Collection
collected = record {
  site_id = 1;
  run_id = 4;
  observed_at = 10;
  collected_at = 11;
  catalog_complete = true;
  catalog_raw_names = codes "gpt" ∷ codes "claude" ∷ [];
  missing_catalog_state = none;
  models =
      record {
        raw_name = codes "gpt";
        provider = [];
        extension = [];
        history_coverage_start = 1;
        history_coverage_end = 9;
        groups =
            record {
              raw_name = codes "vip";
              service_state = healthy;
              observed_at = 0;
              metrics = no_metrics;
              extension = [];
              buckets = record { start = 1; end = 2; resolution = 60; metrics = no_metrics } ∷ [];
            }
            ∷ [];
      }
      ∷ [];
}

validate_iff_example : (validate collected ≡ none) ↔ IsValid collected
validate_iff_example = validate_iff collected

abbrev gpt_rule : Rule
gpt_rule = record {
  id = 1;
  provider = codes "openai";
  canonical_name = codes "gpt";
  required_terms = codes " GPT " ∷ codes "gpt" ∷ [] ∷ [];
  any_terms = [];
  excluded_terms = [];
  aliases = [];
  pattern_text = [];
  priority = 5;
  enabled = true;
  generated = false;
}

compile_terms_lem_example :
    All (λ t. is_empty t ≡ false) (compile_terms gpt_rule.required_terms)
    × Pairs (λ s t. text_eq s t ≡ false) (compile_terms gpt_rule.required_terms)
    × (contains_all (codes "gpt-5") (compile_terms gpt_rule.required_terms)
        ≡ contains_all (codes "gpt-5") (map term_of gpt_rule.required_terms))
compile_terms_lem_example = compile_terms_lem gpt_rule.required_terms (codes "gpt-5")

abbrev rules : List CompiledRule
rules =
    compiled_rule gpt_rule none
    ∷ compiled_rule (record gpt_rule { canonical_name = codes "any"; priority = 9 }) none
    ∷ []

preview_lem_example :
    Permᴰ (map shown (preview rules (codes "GPT-5")).matches) (fitting rules (codes "GPT-5"))
    × IsFalling (preview rules (codes "GPT-5")).matches
    × ((preview rules (codes "GPT-5")).ambiguous ≡ ltb 1 (length (fitting rules (codes "GPT-5"))))
    × All
        (IsMarked (not (preview rules (codes "GPT-5")).ambiguous))
        (preview rules (codes "GPT-5")).matches
preview_lem_example = preview_lem rules (codes "GPT-5")

abbrev due_site : Site
due_site = record { id = 7; acquisition_state = collection_failed; interval = 0; jitter = 3000000 }

abbrev idle : Scheduler
idle = record { active = []; workers = []; next_runs = [] }

Reach-IsExclusive_example :
    IsExclusive (finish 7 (some due_site) 100 5 (dispatch (due_site ∷ due_site ∷ []) idle))
Reach-IsExclusive_example =
    Reach-IsExclusive (record { same = refl; once = tt })
      (Reach.next (Reach.next Reach.here (Step.dispatched (due_site ∷ due_site ∷ []) idle))
        (Step.finished 7 100 5 (some due_site) (dispatch (due_site ∷ due_site ∷ []) idle)))

abbrev short_pauses : List ℕ
short_pauses = 0 ∷ 100000000 ∷ 100000000 ∷ []

granted_bounds_example :
    granted (9000000000 ∷ short_pauses) (after_tries (0 ∷ []) (new_token_bucket 5 10 7))
      * 1000000000
    ≤ 10 * 1000000000 + 200000000 * 5
granted_bounds_example = granted_bounds 5 10 7 (0 ∷ []) 9000000000 short_pauses
