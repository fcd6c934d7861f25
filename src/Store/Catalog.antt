-- ===== src/Store/Catalog.antt =====
-- The tables of sites, models, groups, snapshots, buckets and matches, of internal/store/migrations/001_initial.sql
-- with 002_site_next_run_at.sql: the columns that collections write. Times are milliseconds.
pub mod Observed
pub mod Collect
pub mod Matches
pub mod Frames
pub mod Absence
pub mod Counters
pub mod Live
pub mod Matching
pub mod Refresh
pub mod Upkeep
pub mod Calls
use relay_scope.Base.{
  ℕ, ◌*◌, ◌/◌, ◌^◌, Bool, ◌&&◌, Option, none, some, List, [], ◌==◌, if◌then◌else◌,
}
use relay_scope.Base.Texts.{Text, text_eq, is_empty}
use relay_scope.Domain.{ServiceState, Metrics}
use relay_scope.Scheduler.{AcquisitionState}

pub record SiteRow : Type 0 where
  pub id : ℕ
  pub interval_seconds : ℕ
  pub acquisition_state : AcquisitionState
  pub last_success_at : Option ℕ
  pub updated_at : ℕ

pub record RawModel : Type 0 where
  pub id : ℕ
  pub site_id : ℕ
  pub raw_name : Text
  pub normalized_name : Text
  pub provider_hint : Text
  pub source_extension : Option Text
  pub first_seen_at : ℕ
  pub last_seen_at : ℕ
  pub history_coverage_start : Option ℕ
  pub history_coverage_end : Option ℕ
  pub absent_complete_runs : ℕ
  pub removed_at : Option ℕ

pub record SiteGroup : Type 0 where
  pub id : ℕ
  pub raw_model_id : ℕ
  pub raw_name : Text
  pub source_extension : Option Text
  pub first_seen_at : ℕ
  pub last_seen_at : ℕ

pub record Snapshot : Type 0 where
  pub group_id : ℕ
  pub run_id : Option ℕ
  pub service_state : ServiceState
  pub observed_at : ℕ
  pub collected_at : ℕ
  pub metrics : Metrics
  pub source_extension : Option Text

pub record MetricBucket : Type 0 where
  pub group_id : ℕ
  pub bucket_start : ℕ
  pub bucket_end : ℕ
  pub resolution_seconds : ℕ
  pub metrics : Metrics
  pub collected_at : ℕ

pub record ModelMatch : Type 0 where
  pub raw_model_id : ℕ
  pub rule_id : ℕ
  pub is_primary : Bool
  pub explanation : Text
  pub matched_at : ℕ

-- Of the rules only the ids, and of app_meta only the revision of the data.
pub record Catalog : Type 0 where
  pub sites : List SiteRow
  pub rule_ids : List ℕ
  pub raw_models : List RawModel
  pub groups : List SiteGroup
  pub snapshots : List Snapshot
  pub buckets : List MetricBucket
  pub matches : List ModelMatch
  pub data_revision : ℕ

abbrev pub unix_milli : ℕ → ℕ
unix_milli t = t / 10 ^ 6

abbrev pub seconds : ℕ → ℕ
seconds d = d / 10 ^ 9

abbrev pub nullable_unix_milli : ℕ → Option ℕ
nullable_unix_milli t = if t == 0 then none else some (unix_milli t)

abbrev pub nullable_run_id : ℕ → Option ℕ
nullable_run_id id = if id == 0 then none else some id

abbrev pub nullable_json : Text → Option Text
nullable_json text = if is_empty text then none else some text

abbrev pub raw_is : ℕ → Text → RawModel → Bool
raw_is site name r = r.site_id == site && text_eq r.raw_name name
