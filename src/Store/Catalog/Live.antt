-- ===== src/Store/Catalog/Live.antt =====
-- Each table keeps what it is keyed by, and a removed model has no match.
use relay_scope.Base.{
  ◌<◌, ◌≡◌, ◌≢◌, ◌∙◌, refl, sym, ap, inl, inr, Bool, true, false, not, none, List, [], ◌∷◌, ◌++◌,
  arith, Bool-cases, select_first, select_where, update_where, updated, exists_where, next_id,
  next_id_above, All, All-mono, All-zip, All-update_where, All-unselected, All-nonexistent, Pairs,
  Pairs-snoc, Pairs-update_where, Pairs-select_where, select_where-holds,
}
use relay_scope.Base.Texts.{text_eq, text_eq_iff, text_eq_sound}
use relay_scope.Store.Catalog.{RawModel, MetricBucket, ModelMatch, Catalog, raw_is}
use relay_scope.Store.Catalog.Observed.{starts_with, bucket_is, is_superseded, put_bucket}

abbrev pub OtherModel : RawModel → RawModel → Type 0
OtherModel r s = (r.id ≢ s.id) × (raw_is r.site_id r.raw_name s ≡ false)

abbrev pub OtherStart : MetricBucket → MetricBucket → Type 0
OtherStart a b = starts_with a b ≡ false

-- A row that a match belongs to is not removed.
abbrev pub IsCurrentFor : ModelMatch → RawModel → Type 0
IsCurrentFor m r = r.id ≡ m.raw_model_id → r.removed_at ≡ none

abbrev pub IsLive : List RawModel → List ModelMatch → Type 0
IsLive rows matches = All (λ m. All (IsCurrentFor m) rows) matches

-- Models have ids and names of their own, of the buckets of a group no two start at one time, and no match belongs to a
-- removed model.
pub record IsCataloged (c : Catalog) : Type 0 where
  pub models : Pairs OtherModel c.raw_models
  pub starts : Pairs OtherStart c.buckets
  pub unremoved : IsLive c.raw_models c.matches

everywhere : {A : Type 0} (P : A → Type 0) (xs : List A) → ((x : A) → P x) → All P xs
everywhere P [] f = tt
everywhere P (x ∷ xs) f = (f x, everywhere P xs f)

put_over :
    (b x y : MetricBucket)
    → OtherStart x y
    → OtherStart (updated (bucket_is b) (λ r. b) x) (updated (bucket_is b) (λ r. b) y)
put_over b x y other = ground (arith, other)

pub put_bucket-starts :
    (b : MetricBucket) (rows : List MetricBucket)
    → Pairs OtherStart rows
    → Pairs OtherStart (put_bucket b rows)
unfolding put_bucket
put_bucket-starts b rows h =
    let kept = select_where (λ r. not (is_superseded b r)) rows in
    let apart = Pairs-select_where OtherStart (λ r. not (is_superseded b r)) rows h in
    elim (Bool-cases (exists_where (bucket_is b) kept)) [
      | inl there ↦ rw there (
          Pairs-update_where OtherStart (λ x. Unit) OtherStart (bucket_is b) (λ r. b) kept
            (λ x y other u v. put_over b x y other) apart (everywhere (λ x. Unit) kept (λ x. tt)))
      | inr new ↦ rw new (
          Pairs-snoc OtherStart kept b apart (
            All-zip (λ r. not (is_superseded b r) ≡ true) (λ r. bucket_is b r ≡ false)
              (λ r. OtherStart r b) kept (λ r k n. ground (arith, k, n))
              (select_where-holds (λ r. not (is_superseded b r)) rows)
              (All-nonexistent (bucket_is b) kept new)))
    ]

-- An UPDATE that keeps ids and names.
pub update-models :
    (p : RawModel → Bool) (f : RawModel → RawModel) (rows : List RawModel)
    → ((r : RawModel)
        → ((f r).id ≡ r.id) × ((f r).site_id ≡ r.site_id) × ((f r).raw_name ≡ r.raw_name))
    → Pairs OtherModel rows
    → Pairs OtherModel (update_where p f rows)
update-models p f rows keep h =
    Pairs-update_where OtherModel (λ r. Unit) OtherModel p f rows (λ x y other u v. kept x y other)
      h (everywhere (λ r. Unit) rows (λ r. tt))
  where
    kept : (x y : RawModel) → OtherModel x y → OtherModel (updated p f x) (updated p f y)
    kept x y other = elim (Bool-cases (p x)) [
      | inl a ↦ elim (Bool-cases (p y)) [
        | inl b ↦
            rw (a, b)
              (rw ((keep x).0, (keep x).1, (keep x).2, (keep y).0, (keep y).1, (keep y).2) other)
        | inr b ↦ rw (a, b) (rw ((keep x).0, (keep x).1, (keep x).2) other)
      ]
      | inr a ↦ elim (Bool-cases (p y)) [
        | inl b ↦ rw (a, b) (rw ((keep y).0, (keep y).1, (keep y).2) other)
        | inr b ↦ rw (a, b) other
      ]
    ]

pub append-models :
    (rows : List RawModel) (row : RawModel)
    → row.id ≡ next_id (λ r. r.id) rows
    → select_first (raw_is row.site_id row.raw_name) rows ≡ none
    → Pairs OtherModel rows
    → Pairs OtherModel (rows ++ row ∷ [])
append-models rows row id new h = Pairs-snoc OtherModel rows row h (
    All-zip (λ r. r.id < next_id (λ x. x.id) rows) (λ r. raw_is row.site_id row.raw_name r ≡ false)
      (λ r. OtherModel r row) rows
      (λ r less other. (λ e. absurd (ground (arith, less, id, e)), flipped r other))
      (next_id_above (λ x. x.id) rows) (All-unselected (raw_is row.site_id row.raw_name) rows new))
  where
    flipped :
        (r : RawModel)
        → raw_is row.site_id row.raw_name r ≡ false
        → raw_is r.site_id r.raw_name row ≡ false
    flipped r other = elim (Bool-cases (raw_is r.site_id r.raw_name row)) [
      | inr e ↦ e
      | inl e ↦
          let name : row.raw_name ≡ r.raw_name =
            text_eq_sound row.raw_name r.raw_name (ground (arith, e)) in
          let back : text_eq r.raw_name row.raw_name ≡ true =
            (text_eq_iff r.raw_name row.raw_name).1 (sym name) in
          absurd (ground (arith, e, other, back))
    ]

-- An UPDATE that removes nothing.
pub update-IsLive :
    (p : RawModel → Bool) (f : RawModel → RawModel) (rows : List RawModel)
    (matches : List ModelMatch)
    → ((r : RawModel) → ((f r).id ≡ r.id) × ((f r).removed_at ≡ none))
    → IsLive rows matches
    → IsLive (update_where p f rows) matches
update-IsLive p f rows matches back h =
    All-mono (λ m. All (IsCurrentFor m) rows) (λ m. All (IsCurrentFor m) (update_where p f rows))
      matches (λ m. All-update_where (IsCurrentFor m) (IsCurrentFor m) p f rows (λ r. row m r)) h
  where
    row : (m : ModelMatch) (r : RawModel) → IsCurrentFor m r → IsCurrentFor m (updated p f r)
    row m r k e = elim (Bool-cases (p r)) [
      | inl hit ↦ rw hit (back r).1
      | inr miss ↦ rw miss (k (ap (λ x. x.id) (sym (only miss)) ∙ e))
    ]
      where
        only : p r ≡ false → updated p f r ≡ r
        only miss = rw miss refl
