-- ===== src/Store/Catalog/Frames.antt =====
-- What the parts of a collection leave alone: groups, snapshots and buckets are written apart from models.
use relay_scope.Base.{
  ℕ, ◌≡◌, ◌∙◌, refl, inl, inr, none, some, List, [], ◌∷◌, arith, Option-cases, Bool-cases,
  select_first, update_where, exists_where, ◌++◌, ◌==◌, ◌⊎◌,
}
use relay_scope.Domain.{ServiceState, ModelObservation, TimeBucket, GroupObservation, Collection}
use relay_scope.Store.Catalog.{SiteGroup, Catalog, raw_is}
use relay_scope.Base.Texts.{Text}
use relay_scope.Store.Catalog.Observed.{
  new_raw_model, seen_model, upsert_raw_model, upsert_group, group_is, upsert_snapshot,
  upsert_bucket, upsert_buckets,
}
use relay_scope.Store.Catalog.Collect.{apply_groups, mark_missing, missing_ratio}

-- The models and the matches are the same.
abbrev pub SameModels : Catalog → Catalog → Type 0
SameModels c c' = (c'.raw_models ≡ c.raw_models) × (c'.matches ≡ c.matches)

pub SameModels-trans : (a b c : Catalog) → SameModels a b → SameModels b c → SameModels a c
SameModels-trans a b c h k = (k.0 ∙ h.0, k.1 ∙ h.1)

pub group_frame :
    (model : ℕ) (g : GroupObservation) (now : ℕ) (c : Catalog)
    → SameModels c (upsert_group model g now c).0
      × ((upsert_group model g now c).0.buckets ≡ c.buckets)
unfolding upsert_group
group_frame model g now c =
    elim (Option-cases (select_first (group_is model g.raw_name) c.groups)) [
      | inl new ↦ rw (new, upsert_group) ((refl, refl), refl)
      | inr (r, old) ↦ rw (old, upsert_group) ((refl, refl), refl)
    ]

buckets_frame :
    (group now : ℕ) (bs : List TimeBucket) (c : Catalog)
    → SameModels c (upsert_buckets group now bs c)
unfolding upsert_buckets upsert_bucket
buckets_frame group now [] c = (refl, refl)
buckets_frame group now (b ∷ rest) c = buckets_frame group now rest (upsert_bucket group now b c)

pub groups_frame :
    (model : ℕ) (col : Collection) (gs : List GroupObservation) (c : Catalog)
    → SameModels c (apply_groups model col gs c)
unfolding apply_groups upsert_snapshot
groups_frame model col [] c = (refl, refl)
groups_frame model col (g ∷ rest) c =
    let u = upsert_group model g col.collected_at c in
    let s = upsert_snapshot u.1 col g u.0 in
    let b = upsert_buckets u.1 col.collected_at g.buckets s in
    SameModels-trans c b (apply_groups model col rest b)
      (SameModels-trans c s b (group_frame model g col.collected_at c).0
        (buckets_frame u.1 col.collected_at g.buckets s))
      (groups_frame model col rest b)

pub missing_frame :
    (col : Collection) (state : ServiceState) (interval : ℕ) (gs : List SiteGroup) (c : Catalog)
    → SameModels c (mark_missing col state interval gs c)
unfolding mark_missing upsert_bucket
missing_frame col state interval [] c = (refl, refl)
missing_frame col state interval (g ∷ rest) c = elim (Option-cases (missing_ratio state)) [
  | inl no_ratio ↦ rw (no_ratio, mark_missing) (missing_frame col state interval rest _)
  | inr (ratio, with_ratio) ↦
      rw (with_ratio, mark_missing) (missing_frame col state interval rest _)
]

-- A model that was read is put at the end of the table, or its row is written over.
pub raw_outcome :
    (normalize : Text → Text) (site : ℕ) (m : ModelObservation) (now : ℕ) (c c' : Catalog) (id : ℕ)
    → upsert_raw_model normalize site m now c ≡ some (c', id)
    → ((c'.matches ≡ c.matches) × (c'.buckets ≡ c.buckets))
      × (((select_first (raw_is site m.raw_name) c.raw_models ≡ none)
            × (c'.raw_models
                ≡ c.raw_models ++ new_raw_model normalize site m now c.raw_models ∷ []))
          ⊎ (c'.raw_models
              ≡ update_where (raw_is site m.raw_name) (seen_model normalize m now) c.raw_models))
unfolding upsert_raw_model
raw_outcome normalize site m now c c' id h =
    elim (Option-cases (select_first (raw_is site m.raw_name) c.raw_models)) [
      | inl new ↦ elim (Bool-cases (exists_where (λ s. s.id == site) c.sites)) [
        | inl there ↦ (
          (ground (arith, new, there), ground (arith, new, there)),
          inl (new, ground (arith, new, there)),
        )
        | inr missing ↦ absurd (ground (arith, new, missing))
      ]
      | inr (r, old) ↦ ((ground (arith, old), ground (arith, old)), inr (ground (arith, old)))
    ]
