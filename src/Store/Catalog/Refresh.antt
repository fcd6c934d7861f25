-- ===== src/Store/Catalog/Refresh.antt =====
-- A refresh leaves each model with what the rules give for its name.
use relay_scope.Base.{
  ℕ, ◌≡◌, ◌≢◌, ◌∙◌, refl, sym, ap, subst, inl, inr, Bool, true, false, not, ◌||◌, some, List, [],
  ◌∷◌, ◌++◌, map, arith, ◌==◌, ==_iff, ==_refl, if◌then◌else◌, Bool-cases, Option-cases,
  select_where, exists_where, All, All-mono, All-zip, Pairs, Pairs-select_where, All-select_where,
}
use mathlib.Core.List.{append-nil, append_assoc}
use relay_scope.Matcher.{CompiledRule, Match, preview}
use relay_scope.Store.Catalog.{RawModel, ModelMatch, Catalog}
use relay_scope.Store.Catalog.Matches.{
  match_row, same_match, insert_matches, is_not_of, refresh_rows, refresh_matches, is_current,
  refresh_all_matches,
}
use relay_scope.Store.Catalog.Live.{OtherModel}

-- The matches of a model, in the order of the table.
abbrev pub matches_of : ℕ → List ModelMatch → List ModelMatch
matches_of id rows = select_where (λ m. m.raw_model_id == id) rows

-- What the rules give for a model.
abbrev pub found_for : List CompiledRule → ℕ → RawModel → List ModelMatch
found_for engine now r = map (match_row r.id now) (preview engine r.raw_name).matches

matches_of-append :
    (id : ℕ) (xs ys : List ModelMatch)
    → matches_of id (xs ++ ys) ≡ matches_of id xs ++ matches_of id ys
unfolding select_where
matches_of-append id [] ys = refl
matches_of-append id (x ∷ xs) ys = ground (arith, matches_of-append id xs ys)

insert-matches :
    (rules : List ℕ) (raw now : ℕ) (ms : List Match) (rows rows' : List ModelMatch)
    → insert_matches rules raw now ms rows ≡ some rows'
    → rows' ≡ rows ++ map (match_row raw now) ms
unfolding insert_matches
insert-matches rules raw now [] rows rows' h =
    let same : rows ≡ rows' = ground (arith, h) in sym same ∙ sym (append-nil rows)
insert-matches rules raw now (m ∷ rest) rows rows' h =
    let row = match_row raw now m in
    elim (Bool-cases
      (not (exists_where (λ id. id == row.rule_id) rules) || exists_where (same_match row) rows)) [
        | inl clash ↦ absurd (ground (arith, clash))
        | inr fits ↦
            insert-matches rules raw now rest (rows ++ row ∷ []) rows' (ground (arith, fits, h))
            ∙ append_assoc rows (row ∷ []) (map (match_row raw now) rest)
      ]

own_rows :
    (raw now : ℕ) (ms : List Match)
    → matches_of raw (map (match_row raw now) ms) ≡ map (match_row raw now) ms
unfolding select_where match_row
own_rows raw now [] = refl
own_rows raw now (m ∷ ms) = rw (==_refl raw, own_rows raw now ms) refl

other_rows :
    (id raw now : ℕ) (ms : List Match) → raw ≢ id → matches_of id (map (match_row raw now) ms) ≡ []
unfolding select_where match_row
other_rows id raw now [] ne = refl
other_rows id raw now (m ∷ ms) ne = elim (Bool-cases (raw == id)) [
  | inl e ↦ absurd (ne ((==_iff raw id).0 e))
  | inr e ↦ rw e (other_rows id raw now ms ne)
]

kept_none :
    (raw : ℕ) (rows : List ModelMatch) → matches_of raw (select_where (is_not_of raw) rows) ≡ []
unfolding select_where
kept_none raw [] = refl
kept_none raw (x ∷ xs) = ground (arith, kept_none raw xs)

kept_others :
    (id raw : ℕ) (rows : List ModelMatch)
    → raw ≢ id
    → matches_of id (select_where (is_not_of raw) rows) ≡ matches_of id rows
unfolding select_where
kept_others id raw [] ne = refl
kept_others id raw (x ∷ xs) ne = elim (Bool-cases (raw == id)) [
  | inl e ↦ absurd (ne ((==_iff raw id).0 e))
  | inr e ↦ ground (arith, e, kept_others id raw xs ne)
]

module _ (engine : List CompiledRule) (rules : List ℕ) (now : ℕ) where
  -- One round of the loop.
  round-cases :
      (t : RawModel) (rest : List RawModel) (rows rows' : List ModelMatch)
      → refresh_rows engine rules now (t ∷ rest) rows ≡ some rows'
      → (rows1 : List ModelMatch) × (rows1
          ≡ select_where (is_not_of t.id) rows ++ found_for engine now t)
        × (refresh_rows engine rules now rest rows1 ≡ some rows')
  unfolding refresh_rows
  round-cases t rest rows rows' h =
      let kept = select_where (is_not_of t.id) rows in
      let ms = (preview engine t.raw_name).matches in
      elim (Option-cases (insert_matches rules t.id now ms kept)) [
        | inl fails ↦ absurd (ground (arith, fails))
        | inr (rows1, works) ↦
            (rows1, insert-matches rules t.id now ms kept rows1 works, ground (arith, works, h))
      ]

  refresh-others :
      (id : ℕ) (targets : List RawModel) (rows rows' : List ModelMatch)
      → refresh_rows engine rules now targets rows ≡ some rows'
      → All (λ t. t.id ≢ id) targets
      → matches_of id rows' ≡ matches_of id rows
  unfolding refresh_rows
  refresh-others id [] rows rows' h ne =
      let same : rows ≡ rows' = ground (arith, h) in ap (matches_of id) (sym same)
  refresh-others id (t ∷ rest) rows rows' h ne =
      let (rows1, added, more) = round-cases t rest rows rows' h in
      let kept = select_where (is_not_of t.id) rows in
      refresh-others id rest rows1 rows' more ne.1
      ∙ ap (matches_of id) added
      ∙ matches_of-append id kept (found_for engine now t)
      ∙ rw
          (
            kept_others id t.id rows ne.0,
            other_rows id t.id now (preview engine t.raw_name).matches ne.0,
          )
          (append-nil (matches_of id rows))

  refresh-own :
      (targets : List RawModel) (rows rows' : List ModelMatch)
      → refresh_rows engine rules now targets rows ≡ some rows'
      → Pairs OtherModel targets
      → All (λ t. matches_of t.id rows' ≡ found_for engine now t) targets
  refresh-own [] rows rows' h apart = tt
  refresh-own (t ∷ rest) rows rows' h apart =
      let (rows1, added, more) = round-cases t rest rows rows' h in
      let kept = select_where (is_not_of t.id) rows in
      (
        refresh-others t.id rest rows1 rows' more (
              All-mono (OtherModel t) (λ x. x.id ≢ t.id) rest (λ x other e. other.0 (sym e))
                apart.0)
            ∙ ap (matches_of t.id) added
            ∙ matches_of-append t.id kept (found_for engine now t)
            ∙ rw (kept_none t.id rows, own_rows t.id now (preview engine t.raw_name).matches) refl,
        refresh-own rest rows1 rows' more apart.1,
      )

first_kept :
    (q : RawModel → Bool) (r : RawModel) (rest : List RawModel)
    → q r ≡ true
    → select_where q (r ∷ rest) ≡ r ∷ select_where q rest
unfolding select_where
first_kept q r rest e = rw e refl

first_gone :
    (q : RawModel → Bool) (r : RawModel) (rest : List RawModel)
    → q r ≡ false
    → select_where q (r ∷ rest) ≡ select_where q rest
unfolding select_where
first_gone q r rest e = rw e refl

-- What holds of the rows that a SELECT gives holds of the rows that pass its test.
unselect :
    (P : RawModel → Type 0) (q : RawModel → Bool) (rows : List RawModel)
    → All P (select_where q rows)
    → All (λ r. q r ≡ true → P r) rows
unselect P q [] h = tt
unselect P q (r ∷ rest) h = elim (Bool-cases (q r)) [
  | inl kept ↦
      let both = subst (All P) (first_kept q r rest kept) h in
      ((λ e. both.0), unselect P q rest both.1)
  | inr gone ↦
      ((λ e. absurd (cc (e, gone))), unselect P q rest (subst (All P) (first_gone q r rest gone) h))
]

-- The rows have other ids than a row.
abbrev OtherIds : List RawModel → RawModel → Type 0
OtherIds targets r = All (λ t. t.id ≢ r.id) targets

-- A row that is not selected has another id than those that are.
unselected_ids :
    (q : RawModel → Bool) (rows : List RawModel)
    → Pairs OtherModel rows
    → All (λ r. q r ≡ false → OtherIds (select_where q rows) r) rows
unselected_ids q [] h = tt
unselected_ids q (r ∷ rest) h = elim (Bool-cases (q r)) [
  | inl kept ↦
      subst (λ ts. All (λ x. q x ≡ false → OtherIds ts x) (r ∷ rest))
        (sym (first_kept q r rest kept))
        (
          (λ e. absurd (cc (e, kept))),
          All-zip (OtherModel r) (λ x. q x ≡ false → OtherIds (select_where q rest) x)
              (λ x. q x ≡ false → OtherIds (r ∷ select_where q rest) x) rest
              (λ x other more e. (other.0, more e)) h.0 (unselected_ids q rest h.1),
        )
  | inr gone ↦
      subst (λ ts. All (λ x. q x ≡ false → OtherIds ts x) (r ∷ rest))
        (sym (first_gone q r rest gone))
        (
          (λ e.
              All-mono (OtherModel r) (λ t. t.id ≢ r.id) (select_where q rest)
                (λ t other k. other.0 (sym k)) (All-select_where (OtherModel r) q rest h.0)),
          unselected_ids q rest h.1,
        )
]

-- After a refresh of all models that succeeds, the matches of each model that is not removed are what the rules give for
-- its name, in their order, and those of a removed model are as before; models have ids of their own.
pub refresh_all_matches_lem :
    (engine : List CompiledRule) (now : ℕ) (c c' : Catalog)
    → Pairs OtherModel c.raw_models
    → refresh_all_matches (some engine) now c ≡ (c', true)
    → All
        (λ r.
          matches_of r.id c'.matches
          ≡ (if is_current r then found_for engine now r else matches_of r.id c.matches))
        c.raw_models
unfolding refresh_all_matches refresh_matches
refresh_all_matches_lem engine now c c' apart h =
    let targets = select_where is_current c.raw_models in
    elim (Option-cases (refresh_rows engine c.rule_ids now targets c.matches)) [
      | inl fails ↦ absurd (ground (arith, fails, h))
      | inr (rows, works) ↦
          let last : c'.matches ≡ rows = ground (arith, works, h) in
          All-zip (λ r. is_current r ≡ true → matches_of r.id rows ≡ found_for engine now r)
            (λ r. is_current r ≡ false → OtherIds targets r)
            (λ r.
              matches_of r.id c'.matches
              ≡ (if is_current r then found_for engine now r else matches_of r.id c.matches))
            c.raw_models (λ r own others. either rows targets works last r own others)
            (unselect (λ r. matches_of r.id rows ≡ found_for engine now r) is_current c.raw_models
              (refresh-own engine c.rule_ids now targets c.matches rows works
                (Pairs-select_where OtherModel is_current c.raw_models apart)))
            (unselected_ids is_current c.raw_models apart)
    ]
  where
    either :
        (rows : List ModelMatch) (targets : List RawModel)
        → refresh_rows engine c.rule_ids now targets c.matches ≡ some rows
        → c'.matches ≡ rows
        → (r : RawModel) → (is_current r ≡ true → matches_of r.id rows ≡ found_for engine now r)
        → (is_current r ≡ false → OtherIds targets r)
        → matches_of r.id c'.matches
          ≡ (if is_current r then found_for engine now r else matches_of r.id c.matches)
    either rows targets works last r own others = elim (Bool-cases (is_current r)) [
      | inl cur ↦ rw cur (ap (matches_of r.id) last ∙ own cur)
      | inr gone ↦ rw gone (
          ap (matches_of r.id) last
          ∙ refresh-others engine c.rule_ids now r.id targets c.matches rows works (others gone))
    ]
