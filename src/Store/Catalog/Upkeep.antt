-- ===== src/Store/Catalog/Upkeep.antt =====
-- The parts of a collection keep the tables of models in order.
use relay_scope.Base.{
  ℕ, ◌≡◌, refl, sym, subst, inl, inr, some, List, [], ◌∷◌, ◌++◌, arith, Option-cases, update_where,
  All, All-append, Pairs, All-mono,
}
use relay_scope.Base.Texts.{Text}
use relay_scope.Domain.{ServiceState, TimeBucket, GroupObservation, ModelObservation, Collection}
use relay_scope.Store.Catalog.{SiteGroup, Catalog, raw_is}
use relay_scope.Store.Catalog.Observed.{
  new_raw_model, seen_model, upsert_raw_model, upsert_group, upsert_snapshot, upsert_bucket,
  upsert_buckets, bucket_of, snapshot_is,
}
use relay_scope.Store.Catalog.Collect.{
  apply_groups, apply_models, mark_missing, missing_ratio, missing_bucket, missing_snapshot,
}
use relay_scope.Store.Catalog.Frames.{group_frame, raw_outcome}
use relay_scope.Store.Catalog.Live.{
  OtherModel, OtherStart, IsCurrentFor, IsLive, IsCataloged, put_bucket-starts, update-models,
  append-models, update-IsLive,
}

pub same_tables :
    (c c' : Catalog)
    → c'.raw_models ≡ c.raw_models
    → c'.matches ≡ c.matches
    → Pairs OtherStart c'.buckets
    → IsCataloged c
    → IsCataloged c'
same_tables c c' rows matches starts i = record {
  models = subst (Pairs OtherModel) (sym rows) i.models;
  starts = starts;
  unremoved =
      subst (λ x. IsLive x c'.matches) (sym rows)
        (subst (IsLive c.raw_models) (sym matches) i.unremoved);
}

bucket-IsCataloged :
    (group now : ℕ) (b : TimeBucket) (c : Catalog)
    → IsCataloged c
    → IsCataloged (upsert_bucket group now b c)
unfolding upsert_bucket
bucket-IsCataloged group now b c i =
    same_tables c (upsert_bucket group now b c) refl refl
      (put_bucket-starts (bucket_of group now b) c.buckets i.starts) i

buckets-IsCataloged :
    (group now : ℕ) (bs : List TimeBucket) (c : Catalog)
    → IsCataloged c
    → IsCataloged (upsert_buckets group now bs c)
unfolding upsert_buckets
buckets-IsCataloged group now [] c i = i
buckets-IsCataloged group now (b ∷ rest) c i =
    buckets-IsCataloged group now rest (upsert_bucket group now b c)
      (bucket-IsCataloged group now b c i)

groups-IsCataloged :
    (model : ℕ) (col : Collection) (gs : List GroupObservation) (c : Catalog)
    → IsCataloged c
    → IsCataloged (apply_groups model col gs c)
unfolding apply_groups upsert_snapshot
groups-IsCataloged model col [] c i = i
groups-IsCataloged model col (g ∷ rest) c i =
    let u = upsert_group model g col.collected_at c in
    let s = upsert_snapshot u.1 col g u.0 in
    let frame = group_frame model g col.collected_at c in
    groups-IsCataloged model col rest (upsert_buckets u.1 col.collected_at g.buckets s) (
      buckets-IsCataloged u.1 col.collected_at g.buckets s
        (same_tables c s frame.0.0 frame.0.1 (subst (Pairs OtherStart) (sym frame.1) i.starts) i))

upsert-IsCataloged :
    (normalize : Text → Text) (site : ℕ) (m : ModelObservation) (now : ℕ) (c c' : Catalog) (id : ℕ)
    → upsert_raw_model normalize site m now c ≡ some (c', id)
    → IsCataloged c
    → IsCataloged c'
unfolding new_raw_model seen_model
upsert-IsCataloged normalize site m now c c' id h i =
    let ((matches, buckets), rows) = raw_outcome normalize site m now c c' id h in
    elim rows [
      | inr over ↦
          let p = raw_is site m.raw_name in
          let f = seen_model normalize m now in
          same_tables (record c { raw_models = update_where p f c.raw_models }) c' over matches
            (subst (Pairs OtherStart) (sym buckets) i.starts)
            (record {
              models = update-models p f c.raw_models (λ r. (refl, refl, refl)) i.models;
              starts = i.starts;
              unremoved = update-IsLive p f c.raw_models c.matches (λ r. (refl, refl)) i.unremoved;
            })
      | inl (new, more) ↦
          let row = new_raw_model normalize site m now c.raw_models in
          same_tables (record c { raw_models = c.raw_models ++ row ∷ [] }) c' more matches
            (subst (Pairs OtherStart) (sym buckets) i.starts)
            (record {
              models = append-models c.raw_models row refl new i.models;
              starts = i.starts;
              unremoved =
                  All-mono (λ x. All (IsCurrentFor x) c.raw_models)
                    (λ x. All (IsCurrentFor x) (c.raw_models ++ row ∷ [])) c.matches
                    (λ x a. All-append (IsCurrentFor x) c.raw_models (row ∷ []) a ((λ e. refl), tt))
                    i.unremoved;
            })
    ]

pub models-IsCataloged :
    (normalize : Text → Text) (col : Collection) (ms : List ModelObservation) (c c' : Catalog)
    (ids : List ℕ)
    → apply_models normalize col ms c ≡ some (c', ids)
    → IsCataloged c
    → IsCataloged c'
unfolding apply_models
models-IsCataloged normalize col [] c c' ids h i =
    let same : c ≡ c' = ground (arith, h) in subst IsCataloged same i
models-IsCataloged normalize col (m ∷ rest) c c' ids h i =
    elim (Option-cases (upsert_raw_model normalize col.site_id m col.collected_at c)) [
      | inl fails ↦ absurd (ground (arith, fails))
      | inr ((c1, id), works) ↦
          let c2 = apply_groups id col m.groups c1 in
          elim (Option-cases (apply_models normalize col rest c2)) [
            | inl fails ↦ absurd (ground (arith, works, fails))
            | inr ((c3, more), done) ↦
                models-IsCataloged normalize col rest c2 c' more (ground (arith, works, done, h)) (
                  groups-IsCataloged id col m.groups c1
                    (upsert-IsCataloged normalize col.site_id m col.collected_at c c1 id works i))
          ]
    ]

pub mark-IsCataloged :
    (col : Collection) (state : ServiceState) (interval : ℕ) (gs : List SiteGroup) (c : Catalog)
    → IsCataloged c
    → IsCataloged (mark_missing col state interval gs c)
unfolding mark_missing
mark-IsCataloged col state interval [] c i = i
mark-IsCataloged col state interval (g ∷ rest) c i =
    let c1 = record c {
      snapshots = update_where (snapshot_is g.id) (missing_snapshot col state) c.snapshots;
    } in
    let i1 = same_tables c c1 refl refl i.starts i in
    elim (Option-cases (missing_ratio state)) [
      | inl no_ratio ↦ rw (no_ratio, mark_missing) (mark-IsCataloged col state interval rest c1 i1)
      | inr (ratio, with_ratio) ↦
          rw (with_ratio, mark_missing)
            (mark-IsCataloged col state interval rest
              (upsert_bucket g.id col.collected_at (missing_bucket col interval ratio) c1)
              (bucket-IsCataloged g.id col.collected_at (missing_bucket col interval ratio) c1 i1))
    ]
