-- ===== src/Store/Catalog/Matching.antt =====
-- Matches of models that a call removes go, and a refresh adds matches of current models only.
use relay_scope.Base.{
  ℕ, ◌≡◌, refl, sym, subst, inl, inr, Bool, true, false, not, ◌&&◌, ◌||◌, Option, none, some, List,
  [], ◌∷◌, ◌++◌, arith, ◌==◌, ==_iff, is_some, Bool-cases, Option-cases, select_where, update_where,
  updated, exists_where, All, All-mono, All-zip, All-append, All-update_where, All-select_where,
  All-nonexistent, Pairs, select_where-holds,
}
use relay_scope.Base.Texts.{Text}
use relay_scope.Matcher.{CompiledRule, Match, preview}
use relay_scope.Store.Catalog.{RawModel, ModelMatch}
use relay_scope.Store.Catalog.Collect.{
  is_match_of, is_named, is_unnamed, is_gone_from, present, absent_again, removed_now,
}
use relay_scope.Store.Catalog.Matches.{
  match_row, same_match, insert_matches, is_not_of, refresh_rows, is_current,
}
use relay_scope.Store.Catalog.Live.{OtherModel, IsCurrentFor, IsLive}

pub filter-IsLive :
    (p : RawModel → Bool) (rows : List RawModel) (matches : List ModelMatch)
    → All (λ m. All (λ r. r.id ≡ m.raw_model_id → p r ≡ false → r.removed_at ≡ none) rows) matches
    → IsLive rows (select_where (λ m. not (is_match_of p rows m)) matches)
filter-IsLive p rows matches h =
    let q = λ (m : ModelMatch). not (is_match_of p rows m) in
    All-zip (λ m. All (λ r. r.id ≡ m.raw_model_id → p r ≡ false → r.removed_at ≡ none) rows)
      (λ m. q m ≡ true) (λ m. All (IsCurrentFor m) rows) (select_where q matches)
      (λ m f kept.
        All-zip (λ r. r.id ≡ m.raw_model_id → p r ≡ false → r.removed_at ≡ none)
          (λ r. (r.id == m.raw_model_id && p r) ≡ false) (IsCurrentFor m) rows
          (λ r g n e.
            g e (unmatched (r.id == m.raw_model_id) (p r) ((==_iff r.id m.raw_model_id).1 e) n))
          f
          (All-nonexistent (λ r. r.id == m.raw_model_id && p r) rows
            (unnot (is_match_of p rows m) kept)))
      (All-select_where
        (λ m. All (λ r. r.id ≡ m.raw_model_id → p r ≡ false → r.removed_at ≡ none) rows) q matches
        h)
      (select_where-holds q matches)
  where
    unmatched : (a b : Bool) → a ≡ true → (a && b) ≡ false → b ≡ false
    unmatched true b h k = k
    unmatched false b h k = absurd (cc h)

    unnot : (a : Bool) → not a ≡ true → a ≡ false
    unnot true h = absurd (cc h)
    unnot false h = refl

-- A row of another site is as it was.
abbrev IsElsewhere : ℕ → ModelMatch → RawModel → Type 0
IsElsewhere s m r = r.id ≡ m.raw_model_id → (r.site_id == s) ≡ false → r.removed_at ≡ none

elsewhere :
    (s : ℕ) (m : ModelMatch) (p : RawModel → Bool) (f : RawModel → RawModel) (r : RawModel)
    → (p r ≡ true → (r.site_id == s) ≡ true)
    → (f r).site_id ≡ r.site_id
    → IsElsewhere s m r
    → IsElsewhere s m (updated p f r)
elsewhere s m p f r own keep h = elim (Bool-cases (p r)) [
  | inl hit ↦ let here = own hit in rw hit (λ e other. absurd (ground (arith, here, keep, other)))
  | inr miss ↦ rw miss h
]

pub absence-IsLive :
    (s : ℕ) (names : List Text) (now : ℕ) (rows : List RawModel) (matches : List ModelMatch)
    → IsLive rows matches
    → IsLive
        (update_where
          (is_unnamed s names)
          (absent_again now)
          (update_where (is_named s names) (present now) rows))
        (select_where
          (λ m. not (
            is_match_of
              (is_gone_from s)
              (update_where
                (is_unnamed s names)
                (absent_again now)
                (update_where (is_named s names) (present now) rows))
              m))
          matches)
absence-IsLive s names now rows matches h =
    let one = update_where (is_named s names) (present now) rows in
    let two = update_where (is_unnamed s names) (absent_again now) one in
    filter-IsLive (is_gone_from s) two matches (
      All-mono (λ m. All (IsCurrentFor m) rows)
        (λ m. All (λ r. r.id ≡ m.raw_model_id → is_gone_from s r ≡ false → r.removed_at ≡ none) two)
        matches
        (λ m a.
          All-mono (IsElsewhere s m)
            (λ r. r.id ≡ m.raw_model_id → is_gone_from s r ≡ false → r.removed_at ≡ none) two
            (λ r k e stays. here_or_not m r k e stays)
            (All-update_where (IsElsewhere s m) (IsElsewhere s m) (is_unnamed s names)
              (absent_again now) one
              (λ r.
                elsewhere s m (is_unnamed s names) (absent_again now) r (λ hit. ground (arith, hit))
                  refl)
              (All-update_where (IsCurrentFor m) (IsElsewhere s m) (is_named s names) (present now)
                rows
                (λ r k.
                  elsewhere s m (is_named s names) (present now) r (λ hit. ground (arith, hit)) refl
                    (λ e other. k e))
                a)))
        h)
  where
    unmarked : (o : Option ℕ) → is_some o ≡ false → o ≡ none
    unmarked none h = refl
    unmarked (some x) h = absurd (cc h)

    here_or_not :
        (m : ModelMatch) (r : RawModel)
        → IsElsewhere s m r
        → r.id ≡ m.raw_model_id
        → is_gone_from s r ≡ false
        → r.removed_at ≡ none
    here_or_not m r k e stays = elim (Bool-cases (r.site_id == s)) [
      | inl here ↦ unmarked r.removed_at (ground (arith, here, stays))
      | inr other ↦ k e other
    ]

pub removal-IsLive :
    (s : ℕ) (names : List Text) (now : ℕ) (rows : List RawModel) (matches : List ModelMatch)
    → IsLive rows matches
    → IsLive (update_where (is_named s names) (removed_now now) rows) (
        select_where
          (λ m. not (
            is_match_of
              (is_named s names)
              (update_where (is_named s names) (removed_now now) rows)
              m))
          matches)
removal-IsLive s names now rows matches h =
    let rows' = update_where (is_named s names) (removed_now now) rows in
    filter-IsLive (is_named s names) rows' matches (
      All-mono (λ m. All (IsCurrentFor m) rows)
        (λ m.
          All (λ r. r.id ≡ m.raw_model_id → is_named s names r ≡ false → r.removed_at ≡ none) rows')
        matches
        (λ m.
          All-update_where (IsCurrentFor m)
            (λ r. r.id ≡ m.raw_model_id → is_named s names r ≡ false → r.removed_at ≡ none)
            (is_named s names) (removed_now now) rows (λ r. spared m r))
        h)
  where
    spared :
        (m : ModelMatch) (r : RawModel)
        → IsCurrentFor m r
        → (updated (is_named s names) (removed_now now) r).id ≡ m.raw_model_id
        → is_named s names (updated (is_named s names) (removed_now now) r) ≡ false
        → (updated (is_named s names) (removed_now now) r).removed_at ≡ none
    spared m r k = elim (Bool-cases (is_named s names r)) [
      | inl hit ↦ rw hit (λ e stays. absurd (cc (hit, stays)))
      | inr miss ↦ rw miss (λ e stays. k e)
    ]

-- The rows with an id are not removed.
abbrev pub IsCurrentId : List RawModel → ℕ → Type 0
IsCurrentId raws id = All (λ r. r.id ≡ id → r.removed_at ≡ none) raws

insert-IsLive :
    (raws : List RawModel) (rules : List ℕ) (raw now : ℕ) (ms : List Match)
    (rows rows' : List ModelMatch)
    → insert_matches rules raw now ms rows ≡ some rows'
    → IsCurrentId raws raw
    → IsLive raws rows
    → IsLive raws rows'
unfolding insert_matches match_row
insert-IsLive raws rules raw now [] rows rows' h cur live =
    let same : rows ≡ rows' = ground (arith, h) in subst (IsLive raws) same live
insert-IsLive raws rules raw now (m ∷ rest) rows rows' h cur live =
    let row = match_row raw now m in
    elim (Bool-cases
      (not (exists_where (λ id. id == row.rule_id) rules) || exists_where (same_match row) rows)) [
        | inl clash ↦ absurd (ground (arith, clash))
        | inr fits ↦
            insert-IsLive raws rules raw now rest (rows ++ row ∷ []) rows' (ground (arith, fits, h))
              cur (All-append (λ x. All (IsCurrentFor x) raws) rows (row ∷ []) live (cur, tt))
      ]

refresh-IsLive :
    (raws : List RawModel) (engine : List CompiledRule) (rules : List ℕ) (now : ℕ)
    (targets : List RawModel) (rows rows' : List ModelMatch)
    → refresh_rows engine rules now targets rows ≡ some rows'
    → All (λ t. IsCurrentId raws t.id) targets
    → IsLive raws rows
    → IsLive raws rows'
unfolding refresh_rows
refresh-IsLive raws engine rules now [] rows rows' h cur live =
    let same : rows ≡ rows' = ground (arith, h) in subst (IsLive raws) same live
refresh-IsLive raws engine rules now (t ∷ rest) rows rows' h cur live =
    let kept = select_where (is_not_of t.id) rows in
    elim (Option-cases (insert_matches rules t.id now (preview engine t.raw_name).matches kept)) [
      | inl fails ↦ absurd (ground (arith, fails))
      | inr (rows1, works) ↦
          refresh-IsLive raws engine rules now rest rows1 rows' (ground (arith, works, h)) cur.1 (
            insert-IsLive raws rules t.id now (preview engine t.raw_name).matches kept rows1 works
              cur.0 (All-select_where (λ x. All (IsCurrentFor x) raws) (is_not_of t.id) rows live))
    ]

current_ids :
    (rows : List RawModel)
    → Pairs OtherModel rows
    → All (λ t. is_current t ≡ true → IsCurrentId rows t.id) rows
current_ids [] h = tt
current_ids (x ∷ xs) h = (
  λ cur. (
    λ e. unmarked x.removed_at cur,
    All-mono (OtherModel x) (λ r. r.id ≡ x.id → r.removed_at ≡ none) xs
        (λ r other e. absurd (other.0 (sym e))) h.0,
  ),
  All-zip (OtherModel x) (λ t. is_current t ≡ true → IsCurrentId xs t.id)
      (λ t. is_current t ≡ true → IsCurrentId (x ∷ xs) t.id) xs
      (λ t other more cur. ((λ e. absurd (other.0 e)), more cur)) h.0 (current_ids xs h.1),
)
  where
    unmarked : (o : Option ℕ) → not (is_some o) ≡ true → o ≡ none
    unmarked none h = refl
    unmarked (some x) h = absurd (cc h)

-- A refresh of rows that are current.
pub refreshed-IsLive :
    (rows : List RawModel) (engine : List CompiledRule) (rules : List ℕ) (now : ℕ)
    (q : RawModel → Bool) (matches matches' : List ModelMatch)
    → ((r : RawModel) → q r ≡ true → is_current r ≡ true)
    → refresh_rows engine rules now (select_where q rows) matches ≡ some matches'
    → Pairs OtherModel rows
    → IsLive rows matches
    → IsLive rows matches'
refreshed-IsLive rows engine rules now q matches matches' only h apart live =
    refresh-IsLive rows engine rules now (select_where q rows) matches matches' h
      (All-zip (λ t. is_current t ≡ true → IsCurrentId rows t.id) (λ t. q t ≡ true)
        (λ t. IsCurrentId rows t.id) (select_where q rows) (λ t f k. f (only t k))
        (All-select_where (λ t. is_current t ≡ true → IsCurrentId rows t.id) q rows
          (current_ids rows apart))
        (select_where-holds q rows))
      live
