-- ===== src/Store/Catalog/Counters.antt =====
-- The counter of a model's row under the parts of a collection.
use relay_scope.Base.{
  ℕ, ◌+◌, ◌≡◌, ◌∙◌, refl, sym, ap, subst, inl, inr, Bool, true, false, not, ◌&&◌, ◌||◌, Option,
  none, some, List, [], ◌∷◌, ◌++◌, arith, leb, ◌==◌, if◌then◌else◌, is_some, Bool-cases,
  Option-cases, select_first, update_where, select_first-update_where, select_first-append,
  select_first-holds, select_where, ==_iff,
}
use relay_scope.Base.Texts.{Text, text_eq, text_eq_sound}
use relay_scope.Domain.{ServiceState, ModelObservation, Collection, is_in}
use relay_scope.Store.Catalog.{RawModel, Catalog, unix_milli, raw_is}
use relay_scope.Store.Catalog.Frames.{raw_outcome, groups_frame, missing_frame}
use relay_scope.Store.Catalog.Observed.{seen_model, upsert_raw_model}
use relay_scope.Store.Catalog.Collect.{
  is_missing_group, apply_groups, apply_models, is_named, is_unnamed, present, absent_again,
  or_else, update_absence_evidence, mark_missing, readmitted, apply_missing_catalog_state,
}

abbrev pub observes : Text → List ModelObservation → Bool
observes name [] = false
observes name (m ∷ rest) = text_eq name m.raw_name || observes name rest

-- The row of a model, its counter, and that it is removed from three on.
abbrev pub IsCounted : ℕ → Text → ℕ → List RawModel → Type 0
IsCounted site name n rows =
    (r : RawModel) × (select_first (raw_is site name) rows ≡ some r)
    × (r.absent_complete_runs ≡ n)
    × (is_some r.removed_at ≡ leb 3 n)

-- An UPDATE whose test looks at the site and the name.
pub IsCounted-update :
    (site : ℕ) (name : Text) (g : ℕ → Text → Bool) (f : RawModel → RawModel) (n m : ℕ)
    (rows : List RawModel)
    → ((r : RawModel) → ((f r).site_id ≡ r.site_id) × ((f r).raw_name ≡ r.raw_name))
    → ((r : RawModel)
        → r.absent_complete_runs ≡ n
        → is_some r.removed_at ≡ leb 3 n
        → ((f r).absent_complete_runs ≡ m) × (is_some (f r).removed_at ≡ leb 3 m))
    → IsCounted site name n rows
    → IsCounted site name
        (if g site name then m else n)
        (update_where (λ r. g r.site_id r.raw_name) f rows)
IsCounted-update site name g f n m rows keep step (r, found, count, gone) =
    let p = λ (x : RawModel). g x.site_id x.raw_name in
    let own = select_first-holds (raw_is site name) rows r found in
    let site_same : r.site_id ≡ site = (==_iff r.site_id site).0 (ground (arith, own)) in
    let name_same : r.raw_name ≡ name = text_eq_sound r.raw_name name (ground (arith, own)) in
    let test : g r.site_id r.raw_name ≡ g site name = cc (site_same, name_same) in
    let after =
      select_first-update_where (raw_is site name) p f rows r (λ y. ground (arith, keep y)) found in
    elim (Bool-cases (g site name)) [
      | inl hit ↦ rw hit (
          let (counts, marks) = step r count gone in
          (f r, after ∙ rw (test, hit) refl, counts, marks))
      | inr miss ↦ rw miss (r, after ∙ rw (test, miss) refl, count, gone)
    ]

IsCounted-append :
    (site : ℕ) (name : Text) (n : ℕ) (rows more : List RawModel)
    → IsCounted site name n rows
    → IsCounted site name n (rows ++ more)
IsCounted-append site name n rows more (r, found, count, gone) =
    (r, select_first-append (raw_is site name) rows more r found, count, gone)

pub IsCounted-same :
    (site : ℕ) (name : Text) (n : ℕ) (rows rows' : List RawModel)
    → rows' ≡ rows
    → IsCounted site name n rows
    → IsCounted site name n rows'
IsCounted-same site name n rows rows' e h = subst (IsCounted site name n) (sym e) h

-- Zero for a model that is in the hand, and the counter else.
abbrev pub zero_if : Bool → ℕ → ℕ
zero_if b n = if b then 0 else n

upsert-IsCounted :
    (site : ℕ) (name : Text) (n : ℕ) (normalize : Text → Text) (s : ℕ) (m : ModelObservation)
    (now : ℕ) (c c' : Catalog) (id : ℕ)
    → upsert_raw_model normalize s m now c ≡ some (c', id)
    → IsCounted site name n c.raw_models
    → IsCounted site name (zero_if (site == s && text_eq name m.raw_name) n) c'.raw_models
unfolding upsert_raw_model seen_model
upsert-IsCounted site name n normalize s m now c c' id h k =
    elim (raw_outcome normalize s m now c c' id h).1 [
      | inr rows ↦
          IsCounted-same site name (zero_if (site == s && text_eq name m.raw_name) n) _
            c'.raw_models rows
            (IsCounted-update site name (λ x t. x == s && text_eq t m.raw_name)
              (seen_model normalize m now) n 0 c.raw_models (λ x. (refl, refl))
              (λ x e g. (refl, refl)) k)
      | inl (new, rows) ↦ elim (Bool-cases (site == s && text_eq name m.raw_name)) [
        | inr other ↦ rw other (
            IsCounted-same site name n _ c'.raw_models rows
              (IsCounted-append site name n c.raw_models _ k))
        | inl own ↦
            let s_same : site ≡ s = (==_iff site s).0 (ground (arith, own)) in
            let name_same : name ≡ m.raw_name =
              text_eq_sound name m.raw_name (ground (arith, own)) in
            let there : select_first (raw_is s m.raw_name) c.raw_models ≡ some k.0 =
              cc (s_same, name_same, k.1) in
            absurd (cc (there, new))
      ]
    ]

pub models-IsCounted :
    (site : ℕ) (name : Text) (n : ℕ) (normalize : Text → Text) (col : Collection)
    (ms : List ModelObservation) (c c' : Catalog) (ids : List ℕ)
    → apply_models normalize col ms c ≡ some (c', ids)
    → IsCounted site name n c.raw_models
    → IsCounted site name (zero_if (site == col.site_id && observes name ms) n) c'.raw_models
unfolding apply_models
models-IsCounted site name n normalize col [] c c' ids h k =
    IsCounted-same site name (zero_if (site == col.site_id && false) n) c.raw_models c'.raw_models
      (ground arith) (rw (and_false (site == col.site_id)) k)
  where
    and_false : (b : Bool) → (b && false) ≡ false
    and_false true = refl
    and_false false = refl
models-IsCounted site name n normalize col (m ∷ rest) c c' ids h k =
    elim (Option-cases (upsert_raw_model normalize col.site_id m col.collected_at c)) [
      | inl fails ↦ absurd (ground (arith, fails))
      | inr ((c1, id), works) ↦
          let c2 = apply_groups id col m.groups c1 in
          let b = site == col.site_id && text_eq name m.raw_name in
          let one =
            upsert-IsCounted site name n normalize col.site_id m col.collected_at c c1 id works k in
          let two =
            IsCounted-same site name (zero_if b n) c1.raw_models c2.raw_models
              (groups_frame id col m.groups c1).0 one in
          elim (Option-cases (apply_models normalize col rest c2)) [
            | inl fails ↦ absurd (ground (arith, works, fails))
            | inr ((c3, ids'), more) ↦
                let all =
                  models-IsCounted site name (zero_if b n) normalize col rest c2 c3 ids' more two in
                let last : c' ≡ c3 = ground (arith, works, more, h) in
                subst (λ x. IsCounted site name x c'.raw_models)
                  (zeros (site == col.site_id) (text_eq name m.raw_name) (observes name rest) n)
                  (IsCounted-same site name
                    (zero_if (site == col.site_id && observes name rest) (zero_if b n))
                    c3.raw_models c'.raw_models (ap (λ d. d.raw_models) last) all)
          ]
    ]
  where
    zeros :
        (s t o : Bool) (x : ℕ) → zero_if (s && o) (zero_if (s && t) x) ≡ zero_if (s && (t || o)) x
    zeros true true true x = refl
    zeros true true false x = refl
    zeros true false o x = refl
    zeros false t o x = refl

-- The first update of the absence evidence, and then the second.
evidence :
    (s i : Bool) (n : ℕ)
    → (if s && not i then zero_if (s && i) n + 1 else zero_if (s && i) n)
      ≡ (if s then (if i then 0 else n + 1) else n)
evidence true true n = refl
evidence true false n = refl
evidence false i n = refl

one_more :
    (now n : ℕ) (r : RawModel)
    → r.absent_complete_runs ≡ n
    → is_some r.removed_at ≡ leb 3 n
    → ((absent_again now r).absent_complete_runs ≡ n + 1)
      × (is_some (absent_again now r).removed_at ≡ leb 3 (n + 1))
one_more now n r count gone = elim (Bool-cases (leb 3 (n + 1))) [
  | inl late ↦ (ap (λ x. x + 1) count, rw (count, late) (set r.removed_at))
  | inr early ↦ (ap (λ x. x + 1) count, rw (count, early) (gone ∙ ground (arith, early)))
]
  where
    set : (o : Option ℕ) → is_some (or_else o (unix_milli now)) ≡ true
    set none = refl
    set (some x) = refl

pub evidence-IsCounted :
    (site : ℕ) (name : Text) (n s : ℕ) (names : List Text) (now : ℕ) (c : Catalog)
    → IsCounted site name n c.raw_models
    → IsCounted site name
        (if site == s then (if is_in name names then 0 else n + 1) else n)
        (update_absence_evidence s names now c).raw_models
unfolding update_absence_evidence
evidence-IsCounted site name n s names now c k =
    let m = zero_if (site == s && is_in name names) n in
    let rows = update_where (is_named s names) (present now) c.raw_models in
    let one =
      IsCounted-update site name (λ x t. x == s && is_in t names) (present now) n 0 c.raw_models
        (λ x. (refl, refl)) (λ x e g. (refl, refl)) k in
    let two =
      IsCounted-update site name (λ x t. x == s && not (is_in t names)) (absent_again now) m (m + 1)
        rows (λ x. (refl, refl)) (one_more now m) one in
    subst (λ x. IsCounted site name x (update_where (is_unnamed s names) (absent_again now) rows))
      (evidence (site == s) (is_in name names) n) two

pub missing-IsCounted :
    (site : ℕ) (name : Text) (n : ℕ) (col : Collection) (names : List Text) (state : ServiceState)
    (c c' : Catalog)
    → apply_missing_catalog_state col names state c ≡ some c'
    → IsCounted site name n c.raw_models
    → IsCounted site name (zero_if (site == col.site_id) n) c'.raw_models
unfolding apply_missing_catalog_state
missing-IsCounted site name n col names state c c' h k =
    let rows = update_where (λ r. r.site_id == col.site_id) readmitted c.raw_models in
    let groups = select_where (is_missing_group col.site_id names rows) c.groups in
    elim (Option-cases (select_first (λ s. s.id == col.site_id) c.sites)) [
      | inl absent ↦ absurd (ground (arith, absent))
      | inr (row, there) ↦
          let frame =
            missing_frame col state row.interval_seconds groups (record c { raw_models = rows }) in
          let last : c'
              ≡ mark_missing col state row.interval_seconds groups
                  (record c { raw_models = rows }) =
            ground (arith, there, h) in
          IsCounted-same site name (zero_if (site == col.site_id) n) rows c'.raw_models
            (ap (λ d. d.raw_models) last ∙ frame.0)
            (IsCounted-update site name (λ x t. x == col.site_id) readmitted n 0 c.raw_models
              (λ x. (refl, refl)) (λ x e g. (refl, refl)) k)
    ]
