-- ===== src/Store/Catalog/Collect.antt =====
-- internal/store/collection_apply.go: a collection is stored in one transaction. A statement fails only where a
-- model refers to a site that is not in the table, or where the interval of such a site is read. `none` is a
-- failure, which the transaction takes back. A time less an interval stops at 1970.
use relay_scope.Base.{
  ℕ, ◌+◌, ◌-◌, ◌*◌, ◌^◌, Bool, not, ◌&&◌, ◌||◌, Option, none, some, List, [], ◌∷◌, map, leb, ◌==◌,
  if◌then◌else◌, is_some, select_first, select_where, update_where, exists_where,
}
use relay_scope.Base.Texts.{Text, to_lower}
use relay_scope.Domain.{
  ServiceState, healthy, degraded, failed, Metrics, TimeBucket, GroupObservation, ModelObservation,
  Collection, Fault, is_in, validate,
}
use relay_scope.Matcher.{is_nil}
use relay_scope.Scheduler.{fresh}
use relay_scope.Store.Catalog.{
  SiteRow, RawModel, SiteGroup, Snapshot, ModelMatch, Catalog, unix_milli, nullable_run_id,
}
use relay_scope.Store.Catalog.Observed.{
  upsert_raw_model, upsert_group, snapshot_is, upsert_snapshot, upsert_bucket, upsert_buckets,
}

unfoldable pub apply_groups : ℕ → Collection → List GroupObservation → Catalog → Catalog
unfolding upsert_group upsert_snapshot upsert_buckets
apply_groups model col [] c = c
apply_groups model col (g ∷ rest) c =
    let (c', group) = upsert_group model g col.collected_at c in
    apply_groups model col rest
      (upsert_buckets group col.collected_at g.buckets (upsert_snapshot group col g c'))

-- The ids of the models are given too.
unfoldable pub apply_models :
    (Text → Text) → Collection → List ModelObservation → Catalog → Option (Catalog × List ℕ)
unfolding upsert_raw_model apply_groups
apply_models normalize col [] c = some (c, [])
apply_models normalize col (m ∷ rest) c =
    elim (upsert_raw_model normalize col.site_id m col.collected_at c) [
      | none ↦ none
      | some (c', id) ↦ elim (apply_models normalize col rest (apply_groups id col m.groups c')) [
        | none ↦ none
        | some (c'', ids) ↦ some (c'', id ∷ ids)
      ]
    ]

abbrev pub is_named : ℕ → List Text → RawModel → Bool
is_named site names r = r.site_id == site && is_in r.raw_name names

abbrev pub is_unnamed : ℕ → List Text → RawModel → Bool
is_unnamed site names r = r.site_id == site && not (is_in r.raw_name names)

abbrev pub present : ℕ → RawModel → RawModel
present now r = record r {
  absent_complete_runs = 0;
  removed_at = none;
  last_seen_at = unix_milli now;
}

-- COALESCE
abbrev pub or_else : Option ℕ → ℕ → Option ℕ
or_else none n = some n
or_else (some m) n = some m

abbrev pub absent_again : ℕ → RawModel → RawModel
absent_again now r = record r {
  absent_complete_runs = r.absent_complete_runs + 1;
  removed_at =
      if leb 3 (r.absent_complete_runs + 1)
      then or_else r.removed_at (unix_milli now)
      else r.removed_at;
}

-- Whether a match belongs to a row that satisfies a test.
abbrev pub is_match_of : (RawModel → Bool) → List RawModel → ModelMatch → Bool
is_match_of p rows m = exists_where (λ r. r.id == m.raw_model_id && p r) rows

abbrev pub is_gone_from : ℕ → RawModel → Bool
is_gone_from site r = r.site_id == site && is_some r.removed_at

unfoldable pub update_absence_evidence : ℕ → List Text → ℕ → Catalog → Catalog
update_absence_evidence site names now c =
    let rows =
      update_where (is_unnamed site names) (absent_again now)
        (update_where (is_named site names) (present now) c.raw_models) in
    record c {
      raw_models = rows;
      matches = select_where (λ m. not (is_match_of (is_gone_from site) rows m)) c.matches;
    }

-- 1.0, 0.5 and 0.0
abbrev pub missing_ratio : ServiceState → Option ℕ
missing_ratio healthy = some 0x3FF0000000000000
missing_ratio degraded = some 0x3FE0000000000000
missing_ratio failed = some 0
missing_ratio _ = none

abbrev pub only_ratio : Option ℕ → Metrics
only_ratio ratio = record {
  request_count = none;
  success_count = none;
  failure_count = none;
  empty_count = none;
  success_ratio = ratio;
  average_latency_ms = none;
  first_token_ms = none;
  tokens_per_second = none;
}

abbrev pub missing_snapshot : Collection → ServiceState → Snapshot → Snapshot
missing_snapshot col state s = record s {
  run_id = nullable_run_id col.run_id;
  service_state = state;
  observed_at = unix_milli col.observed_at;
  collected_at = unix_milli col.collected_at;
  metrics = only_ratio (missing_ratio state);
}

unfoldable pub missing_bucket : Collection → ℕ → ℕ → TimeBucket
missing_bucket col interval ratio = record {
  start = col.observed_at - interval * 10 ^ 9;
  end = col.observed_at;
  resolution = interval * 10 ^ 9;
  metrics = only_ratio (some ratio);
}

unfoldable pub mark_missing : Collection → ServiceState → ℕ → List SiteGroup → Catalog → Catalog
unfolding upsert_bucket missing_bucket
mark_missing col state interval [] c = c
mark_missing col state interval (g ∷ rest) c =
    let c' = record c {
      snapshots = update_where (snapshot_is g.id) (missing_snapshot col state) c.snapshots;
    } in
    mark_missing col state interval rest (elim (missing_ratio state) [
      | none ↦ c'
      | some ratio ↦ upsert_bucket g.id col.collected_at (missing_bucket col interval ratio) c'
    ])

abbrev pub readmitted : RawModel → RawModel
readmitted r = record r { absent_complete_runs = 0; removed_at = none }

-- Whether a group belongs to a model of the site that is not removed and not in the catalog.
abbrev pub is_missing_group : ℕ → List Text → List RawModel → SiteGroup → Bool
is_missing_group site names rows g =
    exists_where
      (λ r. r.id == g.raw_model_id && not (is_some r.removed_at) && is_unnamed site names r) rows

unfoldable pub apply_missing_catalog_state :
    Collection → List Text → ServiceState → Catalog → Option Catalog
unfolding mark_missing
apply_missing_catalog_state col names state c =
    let rows = update_where (λ r. r.site_id == col.site_id) readmitted c.raw_models in
    let groups = select_where (is_missing_group col.site_id names rows) c.groups in
    elim (select_first (λ s. s.id == col.site_id) c.sites) [
      | none ↦ none
      | some s ↦
          some (mark_missing col state s.interval_seconds groups (record c { raw_models = rows }))
    ]

-- The names of the catalog, which are those of the models where none are given.
unfoldable pub catalog_names : Collection → List Text
catalog_names col =
    if col.catalog_complete && is_nil col.catalog_raw_names && not (is_nil col.models)
    then map (λ m. m.raw_name) col.models
    else col.catalog_raw_names

unfoldable pub apply_catalog : Collection → Catalog → Option Catalog
unfolding update_absence_evidence apply_missing_catalog_state catalog_names
apply_catalog col c =
    if col.catalog_complete
    then elim col.missing_catalog_state [
      | some state ↦ apply_missing_catalog_state col (catalog_names col) state c
      | none ↦ some (update_absence_evidence col.site_id (catalog_names col) col.collected_at c)
    ]
    else some c

abbrev pub succeeded_at : ℕ → SiteRow → SiteRow
succeeded_at now s = record s {
  acquisition_state = fresh;
  last_success_at = some (unix_milli now);
  updated_at = unix_milli now;
}

unfoldable pub mark_success : Collection → Catalog → Catalog
mark_success col c = record c {
  sites = update_where (λ s. s.id == col.site_id) (succeeded_at col.collected_at) c.sites;
  data_revision = c.data_revision + 1;
}

pub data Stored : Type 0 where
  invalid : Fault → Stored
  not_stored : Stored
  stored : ℕ → List ℕ → Stored

abbrev pub default_normalize : Option (Text → Text) → Text → Text
default_normalize none = to_lower
default_normalize (some f) = f

unfoldable pub apply_collection : Option (Text → Text) → Collection → Catalog → Catalog × Stored
unfolding apply_models apply_catalog mark_success
apply_collection normalize col c = elim (validate col) [
  | some fault ↦ (c, invalid fault)
  | none ↦ elim (apply_models (default_normalize normalize) col col.models c) [
    | none ↦ (c, not_stored)
    | some (c', ids) ↦ elim (apply_catalog col c') [
      | none ↦ (c, not_stored)
      | some c'' ↦ (mark_success col c'', stored (mark_success col c'').data_revision ids)
    ]
  ]
]

abbrev pub removed_now : ℕ → RawModel → RawModel
removed_now now r = record r { removed_at = or_else r.removed_at (unix_milli now) }

unfoldable pub remove_raw_models : ℕ → List Text → ℕ → Catalog → Catalog
remove_raw_models site names now c =
    if site == 0 || is_nil names
    then c
    else let rows = update_where (is_named site names) (removed_now now) c.raw_models in
      record c {
        raw_models = rows;
        matches = select_where (λ m. not (is_match_of (is_named site names) rows m)) c.matches;
      }
