-- ===== src/Domain.antt =====
-- internal/domain/domain.go: service states, and the checks of a collection before it is stored.
-- A time is a number of nanoseconds, 0 the zero time; an extension is its JSON text, or empty. The issues
-- of a collection are left out.
pub mod Validity
use relay_scope.Base.{
  ℕ, Bool, true, false, not, ◌&&◌, ◌||◌, Option, none, some, List, [], ◌∷◌, ltb, leb, ◌==◌,
  if◌then◌else◌,
}
use relay_scope.Base.Texts.{Text, text_eq, is_empty}

-- `invalid_state` is any other text.
pub data ServiceState : Type 0 where
  unknown healthy degraded failed no_samples removed invalid_state : ServiceState

unfoldable pub is_valid_state : ServiceState → Bool
is_valid_state invalid_state = false
is_valid_state _ = true

abbrev pub is_removed : ServiceState → Bool
is_removed removed = true
is_removed _ = false

-- A float64 is its 64 bits.
pub record Metrics : Type 0 where
  pub request_count : Option ℕ
  pub success_count : Option ℕ
  pub failure_count : Option ℕ
  pub empty_count : Option ℕ
  pub success_ratio : Option ℕ
  pub average_latency_ms : Option ℕ
  pub first_token_ms : Option ℕ
  pub tokens_per_second : Option ℕ

pub record TimeBucket : Type 0 where
  pub start : ℕ
  pub end : ℕ
  pub resolution : ℕ
  pub metrics : Metrics

pub record GroupObservation : Type 0 where
  pub raw_name : Text
  pub service_state : ServiceState
  pub observed_at : ℕ
  pub metrics : Metrics
  pub extension : Text
  pub buckets : List TimeBucket

pub record ModelObservation : Type 0 where
  pub raw_name : Text
  pub provider : Text
  pub extension : Text
  pub history_coverage_start : ℕ
  pub history_coverage_end : ℕ
  pub groups : List GroupObservation

-- `missing_catalog_state` is `none` for the empty text.
pub record Collection : Type 0 where
  pub site_id : ℕ
  pub run_id : ℕ
  pub observed_at : ℕ
  pub collected_at : ℕ
  pub catalog_complete : Bool
  pub catalog_raw_names : List Text
  pub missing_catalog_state : Option ServiceState
  pub models : List ModelObservation

pub data Fault : Type 0 where
  site_id_not_positive times_required incomplete_catalog bad_missing_state : Fault
  empty_catalog_name duplicate_catalog_name : Fault
  empty_model_name duplicate_model bad_coverage : Fault
  empty_group_name bad_group_state duplicate_group bad_bucket : Fault

abbrev pub is_in : Text → List Text → Bool
is_in name [] = false
is_in name (seen ∷ rest) = text_eq seen name || is_in name rest

-- A check that follows another, as after an early return.
abbrev pub ◌then◌ : Option Fault → Option Fault → Option Fault
◌then◌ none next = next
◌then◌ (some f) next = some f

abbrev pub reject : Bool → Fault → Option Fault
reject true f = some f
reject false f = none

unfoldable pub check_missing_state : Option ServiceState → Bool → Option Fault
check_missing_state none complete = none
check_missing_state (some state) complete =
    ◌then◌ (reject (not complete) incomplete_catalog)
      (reject (not (is_valid_state state) || is_removed state) bad_missing_state)

-- The loop over the catalog, with the names seen so far.
unfoldable pub check_catalog : List Text → List Text → Option Fault
check_catalog seen [] = none
check_catalog seen (name ∷ names) =
    let rest = check_catalog (name ∷ seen) names in
    ◌then◌ (reject (is_empty name) empty_catalog_name)
      (◌then◌ (reject (is_in name seen) duplicate_catalog_name) rest)

unfoldable pub check_buckets : List TimeBucket → Option Fault
check_buckets [] = none
check_buckets (b ∷ bs) =
    let rest = check_buckets bs in
    ◌then◌ (reject (b.start == 0 || ltb b.end b.start || b.resolution == 0) bad_bucket) rest

unfoldable pub check_groups : List Text → List GroupObservation → Option Fault
unfolding check_buckets is_valid_state
check_groups seen [] = none
check_groups seen (g ∷ gs) =
    let rest = check_groups (g.raw_name ∷ seen) gs in
    ◌then◌ (reject (is_empty g.raw_name) empty_group_name) (
      ◌then◌ (reject (not (is_valid_state g.service_state)) bad_group_state) (
        ◌then◌ (reject (is_in g.raw_name seen) duplicate_group)
          (◌then◌ (check_buckets g.buckets) rest)))

-- Both ends are set or neither is, and the end is not before the start.
unfoldable pub is_bad_coverage : ℕ → ℕ → Bool
is_bad_coverage start end = if start == 0 then not (end == 0) else end == 0 || ltb end start

unfoldable pub check_models : List Text → List ModelObservation → Option Fault
unfolding check_groups is_bad_coverage
check_models seen [] = none
check_models seen (m ∷ ms) =
    let rest = check_models (m.raw_name ∷ seen) ms in
    ◌then◌ (reject (is_empty m.raw_name) empty_model_name) (
      ◌then◌ (reject (is_in m.raw_name seen) duplicate_model) (
        ◌then◌
          (reject (is_bad_coverage m.history_coverage_start m.history_coverage_end) bad_coverage)
          (◌then◌ (check_groups [] m.groups) rest)))

-- `none` is the nil error.
unfoldable pub validate : Collection → Option Fault
unfolding check_missing_state check_catalog check_models
validate c = ◌then◌ (reject (c.site_id == 0) site_id_not_positive) (
    ◌then◌ (reject (c.observed_at == 0 || c.collected_at == 0) times_required) (
      ◌then◌ (check_missing_state c.missing_catalog_state c.catalog_complete)
        (◌then◌ (check_catalog [] c.catalog_raw_names) (check_models [] c.models))))
