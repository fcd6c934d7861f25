-- ===== src/Domain/Validity.antt =====
-- What a collection that passes the checks promises.
use relay_scope.Base.{
  ◌≡◌, refl, ◌↔◌, true, false, ◌||◌, none, List, [], ◌∷◌, All, Pairs, arith, map, ◌==◌, ltb,
}
use relay_scope.Base.Texts.{Text, text_eq, is_empty}
use relay_scope.Domain.{
  is_valid_state, TimeBucket, GroupObservation, ModelObservation, Collection, is_in,
  check_missing_state, check_catalog, check_buckets, check_groups, is_bad_coverage, check_models,
  validate,
}

-- Names that are not empty, that were not seen, and that differ from each other.
abbrev pub Fresh : List Text → List Text → Type 0
Fresh seen names =
    All (λ n. (is_empty n ≡ false) × (is_in n seen ≡ false)) names
    × Pairs (λ m n. text_eq m n ≡ false) names

seen_more :
    (seen names : List Text) (n : Text)
    → All (λ m. text_eq n m ≡ false) names
    → All (λ m. (is_empty m ≡ false) × (is_in m seen ≡ false)) names
    → All (λ m. (is_empty m ≡ false) × (is_in m (n ∷ seen) ≡ false)) names
seen_more seen [] n h k = tt
seen_more seen (m ∷ ms) n h k = ((k.0.0, ground (arith, h.0, k.0.1)), seen_more seen ms n h.1 k.1)

seen_less :
    (seen names : List Text) (n : Text)
    → All (λ m. (is_empty m ≡ false) × (is_in m (n ∷ seen) ≡ false)) names
    → All (λ m. text_eq n m ≡ false) names
      × All (λ m. (is_empty m ≡ false) × (is_in m seen ≡ false)) names
seen_less seen [] n h = (tt, tt)
seen_less seen (m ∷ ms) n h =
    let rest = seen_less seen ms n h.1 in
    ((ground (arith, h.0.1), rest.0), ((h.0.0, ground (arith, h.0.1)), rest.1))

-- One name that was checked, and the others with it seen.
Fresh-cons :
    (seen names : List Text) (n : Text)
    → is_empty n ≡ false
    → is_in n seen ≡ false
    → Fresh (n ∷ seen) names
    → Fresh seen (n ∷ names)
Fresh-cons seen names n e u h =
    let rest = seen_less seen names n h.0 in (((e, u), rest.1), (rest.0, h.1))

Fresh-tail : (seen names : List Text) (n : Text) → Fresh seen (n ∷ names) → Fresh (n ∷ seen) names
Fresh-tail seen names n h = (seen_more seen names n h.1.0 h.0.1, h.1.1)

abbrev BucketOk : TimeBucket → Type 0
BucketOk b = (b.start == 0 || ltb b.end b.start || b.resolution == 0) ≡ false

abbrev GroupOk : GroupObservation → Type 0
GroupOk g = (is_valid_state g.service_state ≡ true) × All BucketOk g.buckets

-- The groups of a model and its coverage.
abbrev ModelOk : ModelObservation → Type 0
ModelOk m =
    (is_bad_coverage m.history_coverage_start m.history_coverage_end ≡ false)
    × Fresh [] (map (λ g. g.raw_name) m.groups)
    × All GroupOk m.groups

pub record IsValid (c : Collection) : Type 0 where
  pub site : (c.site_id == 0) ≡ false
  pub times : (c.observed_at == 0 || c.collected_at == 0) ≡ false
  pub missing : check_missing_state c.missing_catalog_state c.catalog_complete ≡ none
  pub catalog : Fresh [] c.catalog_raw_names
  pub names : Fresh [] (map (λ m. m.raw_name) c.models)
  pub each : All ModelOk c.models

catalog_sound : (seen names : List Text) → check_catalog seen names ≡ none → Fresh seen names
unfolding check_catalog
catalog_sound seen [] h = (tt, tt)
catalog_sound seen (n ∷ ns) h =
    Fresh-cons seen ns n (ground (arith, h)) (ground (arith, h))
      (catalog_sound (n ∷ seen) ns (ground (arith, h)))

catalog_complete : (seen names : List Text) → Fresh seen names → check_catalog seen names ≡ none
unfolding check_catalog
catalog_complete seen [] h = refl
catalog_complete seen (n ∷ ns) h =
    ground (arith, h.0.0.0, h.0.0.1, catalog_complete (n ∷ seen) ns (Fresh-tail seen ns n h))

buckets_sound : (bs : List TimeBucket) → check_buckets bs ≡ none → All BucketOk bs
unfolding check_buckets
buckets_sound [] h = tt
buckets_sound (b ∷ bs) h = (ground (arith, h), buckets_sound bs (ground (arith, h)))

buckets_complete : (bs : List TimeBucket) → All BucketOk bs → check_buckets bs ≡ none
unfolding check_buckets
buckets_complete [] h = refl
buckets_complete (b ∷ bs) h = ground (arith, h.0, buckets_complete bs h.1)

groups_sound :
    (seen : List Text) (gs : List GroupObservation)
    → check_groups seen gs ≡ none
    → Fresh seen (map (λ g. g.raw_name) gs) × All GroupOk gs
unfolding check_groups
groups_sound seen [] h = ((tt, tt), tt)
groups_sound seen (g ∷ gs) h =
    let rest = groups_sound (g.raw_name ∷ seen) gs (ground (arith, h)) in
    (
      Fresh-cons seen (map (λ x. x.raw_name) gs) g.raw_name (ground (arith, h)) (ground (arith, h))
          rest.0,
      ((ground (arith, h), buckets_sound g.buckets (ground (arith, h))), rest.1),
    )

groups_complete :
    (seen : List Text) (gs : List GroupObservation)
    → Fresh seen (map (λ g. g.raw_name) gs)
    → All GroupOk gs
    → check_groups seen gs ≡ none
unfolding check_groups
groups_complete seen [] h k = refl
groups_complete seen (g ∷ gs) h k = ground (
  arith,
  h.0.0.0,
  h.0.0.1,
  k.0.0,
  buckets_complete g.buckets k.0.1,
  groups_complete (g.raw_name ∷ seen) gs (Fresh-tail seen (map (λ x. x.raw_name) gs) g.raw_name h)
      k.1,
)

models_sound :
    (seen : List Text) (ms : List ModelObservation)
    → check_models seen ms ≡ none
    → Fresh seen (map (λ m. m.raw_name) ms) × All ModelOk ms
unfolding check_models
models_sound seen [] h = ((tt, tt), tt)
models_sound seen (m ∷ ms) h =
    let rest = models_sound (m.raw_name ∷ seen) ms (ground (arith, h)) in
    let groups = groups_sound [] m.groups (ground (arith, h)) in
    (
      Fresh-cons seen (map (λ x. x.raw_name) ms) m.raw_name (ground (arith, h)) (ground (arith, h))
          rest.0,
      ((ground (arith, h), groups.0, groups.1), rest.1),
    )

models_complete :
    (seen : List Text) (ms : List ModelObservation)
    → Fresh seen (map (λ m. m.raw_name) ms)
    → All ModelOk ms
    → check_models seen ms ≡ none
unfolding check_models
models_complete seen [] h k = refl
models_complete seen (m ∷ ms) h k = ground (
  arith,
  h.0.0.0,
  h.0.0.1,
  k.0.0,
  groups_complete [] m.groups k.0.1 k.0.2,
  models_complete (m.raw_name ∷ seen) ms (Fresh-tail seen (map (λ x. x.raw_name) ms) m.raw_name h)
      k.1,
)

-- A collection passes the checks exactly if the site and both times are set, the state for missing
-- models fits, catalog, model and group names are not empty and do not repeat (groups: within their
-- model), states are known, coverages are ordered and buckets have a start, an end not before it and a
-- resolution.
pub validate_iff : (c : Collection) → (validate c ≡ none) ↔ IsValid c
unfolding validate
validate_iff c = (
  (λ h.
      let models = models_sound [] c.models (ground (arith, h)) in
      record {
        site = ground (arith, h);
        times = ground (arith, h);
        missing = ground (arith, h);
        catalog = catalog_sound [] c.catalog_raw_names (ground (arith, h));
        names = models.0;
        each = models.1;
      }),
  (λ v. ground (
    arith,
    v.site,
    v.times,
    v.missing,
    catalog_complete [] c.catalog_raw_names v.catalog,
    models_complete [] c.models v.names v.each,
  )),
)
