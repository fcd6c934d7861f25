-- ===== src/Store/Catalog/Absence.antt =====
-- A model is removed at the third complete collection in a row that gives no state for missing catalogs
-- and does not name it.
use relay_scope.Base.{
  ℕ, ◌+◌, ◌≡◌, ◌⊎◌, refl, ap, subst, inl, inr, Bool, true, false, not, ◌&&◌, Option, none, some,
  List, [], ◌∷◌, arith, ◌==◌, if◌then◌else◌, Bool-cases, Option-cases,
}
use relay_scope.Base.Texts.{Text}
use relay_scope.Domain.{Fault, ServiceState, Collection, is_in, validate}
use relay_scope.Store.Catalog.{Catalog}
use relay_scope.Store.Catalog.Counters.{
  observes, IsCounted, zero_if, IsCounted-same, models-IsCounted, evidence-IsCounted,
  missing-IsCounted,
}
use relay_scope.Store.Catalog.Collect.{
  apply_models, update_absence_evidence, catalog_names, apply_catalog, mark_success, Stored, stored,
  invalid, not_stored, default_normalize, apply_collection,
}

-- The collections in their order, each of which is stored.
unfoldable pub collect_all : Option (Text → Text) → List Collection → Catalog → Option Catalog
collect_all normalize [] c = some c
collect_all normalize (x ∷ xs) c =
    let rest = collect_all normalize xs (apply_collection normalize x c).0 in
    elim (apply_collection normalize x c).1 [
      | invalid f ↦ none
      | not_stored ↦ none
      | stored revision ids ↦ rest
    ]

-- What a collection makes of the number of complete collections that did not name a model of its site.
abbrev pub after_catalog : Text → Collection → ℕ → ℕ
after_catalog name x n = elim x.missing_catalog_state [
  | some state ↦ 0
  | none ↦ if is_in name (catalog_names x) then 0 else n + 1
]

abbrev pub absence : ℕ → Text → Collection → ℕ → ℕ
absence site name x n =
    let seen = if observes name x.models then 0 else n in
    if not (site == x.site_id)
    then n
    else if x.catalog_complete
    then after_catalog name x seen
    else seen

unfoldable pub absences : ℕ → Text → List Collection → ℕ → ℕ
absences site name [] n = n
absences site name (x ∷ xs) n = absences site name xs (absence site name x n)

-- The counter after the catalog of a collection: whether the model is of its site, whether the catalog is complete,
-- whether it names the model, and the state of what is missing.
abbrev catalog_step : Bool → Bool → Bool → Option ServiceState → ℕ → ℕ
catalog_step own complete named missing n =
    if not own
    then n
    else if complete
    then elim missing [ some state ↦ 0 | none ↦ if named then 0 else n + 1 ]
    else n

step_incomplete :
    (own complete named : Bool) (missing : Option ServiceState) (n : ℕ)
    → complete ≡ false
    → n ≡ catalog_step own complete named missing n
step_incomplete true true named missing n h = absurd (cc h)
step_incomplete true false named missing n h = refl
step_incomplete false complete named missing n h = refl

step_missing :
    (own complete named : Bool) (missing : Option ServiceState) (state : ServiceState) (n : ℕ)
    → complete ≡ true
    → missing ≡ some state
    → zero_if own n ≡ catalog_step own complete named missing n
step_missing true true named (some x) state n h k = refl
step_missing true true named none state n h k = absurd (cc k)
step_missing true false named missing state n h k = absurd (cc h)
step_missing false complete named missing state n h k = refl

step_evidence :
    (own complete named : Bool) (missing : Option ServiceState) (n : ℕ)
    → complete ≡ true
    → missing ≡ none
    → (if own then (if named then 0 else n + 1) else n) ≡ catalog_step own complete named missing n
step_evidence true true named none n h k = refl
step_evidence true true named (some x) n h k = absurd (cc k)
step_evidence true false named missing n h k = absurd (cc h)
step_evidence false complete named missing n h k = refl

catalog-IsCounted :
    (site : ℕ) (name : Text) (n : ℕ) (col : Collection) (c c' : Catalog)
    → apply_catalog col c ≡ some c'
    → IsCounted site name n c.raw_models
    → IsCounted site name
        (if not (site == col.site_id)
          then n
          else if col.catalog_complete
          then after_catalog name col n
          else n)
        c'.raw_models
unfolding apply_catalog
catalog-IsCounted site name n col c c' h k =
    let own = site == col.site_id in
    let names = catalog_names col in
    let named = is_in name names in
    elim (Bool-cases col.catalog_complete) [
      | inr incomplete ↦
          subst (λ x. IsCounted site name x c'.raw_models)
            (step_incomplete own col.catalog_complete named col.missing_catalog_state n incomplete)
            (IsCounted-same site name n c.raw_models c'.raw_models (ground (arith, incomplete, h))
              k)
      | inl complete ↦ elim (Option-cases col.missing_catalog_state) [
        | inr (state, missing) ↦
            subst (λ x. IsCounted site name x c'.raw_models)
              (step_missing own col.catalog_complete named col.missing_catalog_state state n
                complete missing)
              (missing-IsCounted site name n col names state c c'
                (ground (arith, complete, missing, h)) k)
        | inl none_missing ↦
            subst (λ x. IsCounted site name x c'.raw_models)
              (step_evidence own col.catalog_complete named col.missing_catalog_state n complete
                none_missing)
              (IsCounted-same site name (if own then (if named then 0 else n + 1) else n)
                (update_absence_evidence col.site_id names col.collected_at c).raw_models
                c'.raw_models (ground (arith, complete, none_missing, h))
                (evidence-IsCounted site name n col.site_id names col.collected_at c k))
      ]
    ]

pieces :
    (own observed complete named : Bool) (missing : Option ServiceState) (n : ℕ)
    → catalog_step own complete named missing (zero_if (own && observed) n) ≡ (
        if not own
        then n
        else if complete
        then elim missing [
          | some state ↦ 0
          | none ↦ if named then 0 else (if observed then 0 else n) + 1
        ]
        else (if observed then 0 else n))
pieces true true complete named missing n = refl
pieces true false complete named missing n = refl
pieces false observed complete named missing n = refl

collection-IsCounted :
    (site : ℕ) (name : Text) (n : ℕ) (normalize : Option (Text → Text)) (col : Collection)
    (c c' : Catalog) (revision : ℕ) (ids : List ℕ)
    → apply_collection normalize col c ≡ (c', stored revision ids)
    → IsCounted site name n c.raw_models
    → IsCounted site name (absence site name col n) c'.raw_models
unfolding apply_collection mark_success
collection-IsCounted site name n normalize col c c' revision ids h k =
    elim (Option-cases (validate col)) [
      | inr (fault, bad) ↦ absurd (ground (arith, bad))
      | inl valid ↦
          elim (Option-cases (apply_models (default_normalize normalize) col col.models c)) [
            | inl fails ↦ absurd (ground (arith, valid, fails))
            | inr ((c1, seen), works) ↦ elim (Option-cases (apply_catalog col c1)) [
              | inl fails ↦ absurd (ground (arith, valid, works, fails))
              | inr (c2, finished) ↦
                  let one =
                    models-IsCounted site name n (default_normalize normalize) col col.models c c1
                      seen works k in
                  let two =
                    catalog-IsCounted site name
                      (zero_if (site == col.site_id && observes name col.models) n) col c1 c2
                      finished one in
                  let last : c' ≡ mark_success col c2 = ground (arith, valid, works, finished, h) in
                  subst (λ x. IsCounted site name x c'.raw_models)
                    (pieces (site == col.site_id) (observes name col.models) col.catalog_complete
                      (is_in name (catalog_names col)) col.missing_catalog_state n)
                    (IsCounted-same site name _ c2.raw_models c'.raw_models
                      (ap (λ d. d.raw_models) last) two)
            ]
          ]
    ]

Stored-cases :
    (s : Stored)
    → (((revision : ℕ) × (ids : List ℕ) × (s ≡ stored revision ids)))
      ⊎ (((f : Fault) × (s ≡ invalid f)) ⊎ (s ≡ not_stored))
Stored-cases (invalid f) = inr (inl (f, refl))
Stored-cases not_stored = inr (inr refl)
Stored-cases (stored revision ids) = inl (revision, ids, refl)

-- Over collections of any sites, all stored, the counter of a model follows the collections of its site: one that
-- observes the model sets it to zero; after that a complete one sets it to zero if its catalog names the model or it
-- gives a state for missing catalogs, and else adds one. The model is removed exactly while the counter is three or
-- more, if it was so before.
pub absent_runs :
    (site : ℕ) (name : Text) (normalize : Option (Text → Text)) (cols : List Collection) (n : ℕ)
    (c c' : Catalog)
    → collect_all normalize cols c ≡ some c'
    → IsCounted site name n c.raw_models
    → IsCounted site name (absences site name cols n) c'.raw_models
unfolding collect_all absences
absent_runs site name normalize [] n c c' h k =
    IsCounted-same site name n c.raw_models c'.raw_models (ground arith) k
absent_runs site name normalize (x ∷ xs) n c c' h k =
    elim (Stored-cases (apply_collection normalize x c).1) [
      | inl (revision, ids, done) ↦
          absent_runs site name normalize xs (absence site name x n)
            (apply_collection normalize x c).0 c' (ground (arith, done, h))
            (collection-IsCounted site name n normalize x c (apply_collection normalize x c).0
              revision ids (ground (arith, done)) k)
      | inr (inl (f, bad)) ↦ absurd (ground (arith, bad, h))
      | inr (inr bad) ↦ absurd (ground (arith, bad, h))
    ]
