-- ===== src/Store/Catalog/Observed.antt =====
-- internal/store/collection_apply.go: the statements that write a model, a group, a snapshot and a bucket. A statement
-- fails only where a model refers to a site that is not in the table, where it gives `none`.
use relay_scope.Base.{
  ℕ, max, min, Bool, false, not, ◌&&◌, Option, none, some, List, [], ◌∷◌, ◌++◌, leb, ◌==◌,
  if◌then◌else◌, select_first, select_where, update_where, exists_where, next_id,
}
use relay_scope.Base.Texts.{Text, text_eq}
use relay_scope.Domain.{TimeBucket, GroupObservation, ModelObservation, Collection}
use relay_scope.Store.Catalog.{
  RawModel, SiteGroup, Snapshot, MetricBucket, Catalog, unix_milli, seconds, nullable_unix_milli,
  nullable_run_id, nullable_json, raw_is,
}

-- Whether the history that is stored and the one that was read meet.
abbrev pub coverage_meets : RawModel → ℕ → ℕ → Bool
coverage_meets r start end = elim r.history_coverage_start [
  | none ↦ false
  | some old_start ↦ elim r.history_coverage_end [
    | none ↦ false
    | some old_end ↦ leb start old_end && leb old_start end
  ]
]

abbrev pub value_or : ℕ → Option ℕ → ℕ
value_or n none = n
value_or n (some m) = m

unfoldable pub merged_coverage : RawModel → Option ℕ → Option ℕ → Option ℕ × Option ℕ
merged_coverage r none end = (none, none)
merged_coverage r (some start) none = (none, none)
merged_coverage r (some start) (some end) =
    if coverage_meets r start end
    then (
      some (min (value_or start r.history_coverage_start) start),
      some (max (value_or end r.history_coverage_end) end),
    )
    else (some start, some end)

unfoldable pub new_raw_model : (Text → Text) → ℕ → ModelObservation → ℕ → List RawModel → RawModel
new_raw_model normalize site m now rows = record {
  id = next_id (λ r. r.id) rows;
  site_id = site;
  raw_name = m.raw_name;
  normalized_name = normalize m.raw_name;
  provider_hint = m.provider;
  source_extension = nullable_json m.extension;
  first_seen_at = unix_milli now;
  last_seen_at = unix_milli now;
  history_coverage_start = nullable_unix_milli m.history_coverage_start;
  history_coverage_end = nullable_unix_milli m.history_coverage_end;
  absent_complete_runs = 0;
  removed_at = none;
}

unfoldable pub seen_model : (Text → Text) → ModelObservation → ℕ → RawModel → RawModel
unfolding merged_coverage
seen_model normalize m now r =
    let coverage =
      merged_coverage r (nullable_unix_milli m.history_coverage_start)
        (nullable_unix_milli m.history_coverage_end) in
    record r {
      normalized_name = normalize m.raw_name;
      provider_hint = m.provider;
      source_extension = nullable_json m.extension;
      last_seen_at = unix_milli now;
      history_coverage_start = coverage.0;
      history_coverage_end = coverage.1;
      absent_complete_runs = 0;
      removed_at = none;
    }

-- The id of the model is given too.
unfoldable pub upsert_raw_model :
    (Text → Text) → ℕ → ModelObservation → ℕ → Catalog → Option (Catalog × ℕ)
unfolding new_raw_model seen_model
upsert_raw_model normalize site m now c =
    elim (select_first (raw_is site m.raw_name) c.raw_models) [
      | none ↦
          let row = new_raw_model normalize site m now c.raw_models in
          if exists_where (λ s. s.id == site) c.sites
          then some (record c { raw_models = c.raw_models ++ row ∷ [] }, row.id)
          else none
      | some r ↦ some (
        record c {
          raw_models =
              update_where (raw_is site m.raw_name) (seen_model normalize m now) c.raw_models;
        },
        r.id,
      )
    ]

abbrev pub group_is : ℕ → Text → SiteGroup → Bool
group_is model name g = g.raw_model_id == model && text_eq g.raw_name name

unfoldable pub new_group : ℕ → GroupObservation → ℕ → List SiteGroup → SiteGroup
new_group model g now rows = record {
  id = next_id (λ r. r.id) rows;
  raw_model_id = model;
  raw_name = g.raw_name;
  source_extension = nullable_json g.extension;
  first_seen_at = unix_milli now;
  last_seen_at = unix_milli now;
}

abbrev pub seen_group : GroupObservation → ℕ → SiteGroup → SiteGroup
seen_group g now r = record r {
  source_extension = nullable_json g.extension;
  last_seen_at = unix_milli now;
}

unfoldable pub upsert_group : ℕ → GroupObservation → ℕ → Catalog → Catalog × ℕ
unfolding new_group
upsert_group model g now c = elim (select_first (group_is model g.raw_name) c.groups) [
  | none ↦
      let row = new_group model g now c.groups in
      (record c { groups = c.groups ++ row ∷ [] }, row.id)
  | some r ↦ (
    record c { groups = update_where (group_is model g.raw_name) (seen_group g now) c.groups },
    r.id,
  )
]

unfoldable pub snapshot_of : ℕ → Collection → GroupObservation → Snapshot
snapshot_of group col g = record {
  group_id = group;
  run_id = nullable_run_id col.run_id;
  service_state = g.service_state;
  observed_at = unix_milli (if g.observed_at == 0 then col.observed_at else g.observed_at);
  collected_at = unix_milli col.collected_at;
  metrics = g.metrics;
  source_extension = nullable_json g.extension;
}

abbrev pub snapshot_is : ℕ → Snapshot → Bool
snapshot_is group s = s.group_id == group

unfoldable pub upsert_snapshot : ℕ → Collection → GroupObservation → Catalog → Catalog
unfolding snapshot_of
upsert_snapshot group col g c =
    let row = snapshot_of group col g in
    record c {
      snapshots =
          if exists_where (snapshot_is group) c.snapshots
          then update_where (snapshot_is group) (λ s. row) c.snapshots
          else c.snapshots ++ row ∷ [];
    }

abbrev pub bucket_of : ℕ → ℕ → TimeBucket → MetricBucket
bucket_of group now b = record {
  group_id = group;
  bucket_start = unix_milli b.start;
  bucket_end = unix_milli b.end;
  resolution_seconds = seconds b.resolution;
  metrics = b.metrics;
  collected_at = unix_milli now;
}

abbrev pub starts_with : MetricBucket → MetricBucket → Bool
starts_with b r = r.group_id == b.group_id && r.bucket_start == b.bucket_start

abbrev pub bucket_is : MetricBucket → MetricBucket → Bool
bucket_is b r = starts_with b r && r.resolution_seconds == b.resolution_seconds

-- The old bucket at the same start goes, if its resolution is another.
abbrev pub is_superseded : MetricBucket → MetricBucket → Bool
is_superseded b r = starts_with b r && not (r.resolution_seconds == b.resolution_seconds)

unfoldable pub put_bucket : MetricBucket → List MetricBucket → List MetricBucket
put_bucket b rows =
    let kept = select_where (λ r. not (is_superseded b r)) rows in
    if exists_where (bucket_is b) kept
    then update_where (bucket_is b) (λ r. b) kept
    else kept ++ b ∷ []

unfoldable pub upsert_bucket : ℕ → ℕ → TimeBucket → Catalog → Catalog
unfolding put_bucket
upsert_bucket group now b c = record c { buckets = put_bucket (bucket_of group now b) c.buckets }

unfoldable pub upsert_buckets : ℕ → ℕ → List TimeBucket → Catalog → Catalog
unfolding upsert_bucket
upsert_buckets group now [] c = c
upsert_buckets group now (b ∷ rest) c = upsert_buckets group now rest (upsert_bucket group now b c)
