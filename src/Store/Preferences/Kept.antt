-- ===== src/Store/Preferences/Kept.antt =====
-- What was put is read again, and a sorting that is not given stays.
use relay_scope.Base.{
  ℕ, ◌≡◌, ◌∙◌, refl, sym, ap, subst, inl, inr, true, false, Option, none, some, List, [], ◌∷◌, ◌++◌,
  arith, ◌==◌, ==_refl, ==_iff, if◌then◌else◌, Bool-cases, Option-cases, select_first, update_where,
  exists_where,
}
use relay_scope.Base.Texts.{Text, codes}
use relay_scope.Store.{User, user_is}
use relay_scope.Store.Preferences.{
  PreferencesHidden, Tags, SortingPrefs, Preferences, is_one_of, sorting_model_modes,
  sorting_site_modes, normalized, default_sorting, default_preferences, validate_preferences,
  UserPreferences, Json, saved, read_sorting, read_preferences, is_of, get_user_preferences,
  wanted_sorting, row_of, write_row, put_user_preferences,
}

-- What is encoded is decoded again, and a sorting is not encoded as the empty text.
pub record IsFaithful {J : Type 0} (json : Json J) : Type 0 where
  pub hidden : (h : PreferencesHidden) → json.decode_hidden (json.encode_hidden h) ≡ (h, true)
  pub tags : (t : Tags) → json.decode_tags (json.encode_tags t) ≡ some t
  pub sorting : (s : SortingPrefs) → json.decode_sorting (json.encode_sorting s) ≡ some s
  pub written : (s : SortingPrefs) → json.is_blank (json.encode_sorting s) ≡ false

either_mode :
    (t d : Text) (modes : List Text)
    → is_one_of d modes ≡ true
    → is_one_of (if is_one_of t modes then t else d) modes ≡ true
either_mode t d modes h = elim (Bool-cases (is_one_of t modes)) [ inl e ↦ rw e e | inr e ↦ rw e h ]

chosen :
    (t d : Text) (modes : List Text)
    → is_one_of d modes ≡ true
    → (if is_one_of (if is_one_of t modes then t else d) modes
        then (if is_one_of t modes then t else d)
        else d)
      ≡ (if is_one_of t modes then t else d)
chosen t d modes h = rw (either_mode t d modes h) refl

normalized_idem : (s : SortingPrefs) → normalized (normalized s) ≡ normalized s
unfolding normalized
normalized_idem s =
    let one = chosen s.model (codes "default") sorting_model_modes refl in
    let two = chosen s.site (codes "default") sorting_site_modes refl in cc (one, two)

normalized_default : normalized default_sorting ≡ default_sorting
unfolding normalized
normalized_default = refl

module _ {J : Type 0} (json : Json J) where
  -- A sorting that was read is there, and normalized.
  abbrev IsNormal : Option SortingPrefs → Type 0
  IsNormal o = (s : SortingPrefs) × (o ≡ some s) × (normalized s ≡ s)

  read_sorting-IsNormal : (text : J) → IsNormal (read_sorting json text)
  unfolding read_sorting
  read_sorting-IsNormal text = elim (Bool-cases (json.is_blank text)) [
    | inl blank ↦ (default_sorting, rw (blank, read_sorting) refl, normalized_default)
    | inr there ↦ elim (Option-cases (json.decode_sorting text)) [
      | inl bad ↦ (default_sorting, rw (there, bad, read_sorting) refl, normalized_default)
      | inr (s, good) ↦ (normalized s, rw (there, good, read_sorting) refl, normalized_idem s)
    ]
  ]

  get-IsNormal :
      (user : ℕ) (rows : List (UserPreferences J))
      → IsNormal (get_user_preferences json user rows).sorting
  unfolding get_user_preferences read_preferences
  get-IsNormal user rows = elim (Option-cases (select_first (is_of json user) rows)) [
    | inl absent ↦ rw (absent, get_user_preferences) (default_sorting, refl, normalized_default)
    | inr (r, there) ↦ elim (Bool-cases (json.decode_hidden r.hidden).1) [
      | inl ok ↦
          rw (there, ok, get_user_preferences, read_preferences) (read_sorting-IsNormal r.sorting)
      | inr bad ↦
          rw (there, bad, get_user_preferences, read_preferences)
            (default_sorting, refl, normalized_default)
    ]
  ]

  -- The sorting that a put stores: the given one normalized, or the one that is read.
  abbrev pub sorting_after :
      ℕ → Option SortingPrefs → List (UserPreferences J) → Option SortingPrefs
  sorting_after user none rows = (get_user_preferences json user rows).sorting
  sorting_after user (some s) rows = some (normalized s)

  wanted_sorting_lem :
      (user : ℕ) (o : Option SortingPrefs) (rows : List (UserPreferences J))
      → (s : SortingPrefs) × (wanted_sorting json user o rows ≡ some s)
        × (sorting_after user o rows ≡ some s)
  unfolding wanted_sorting
  wanted_sorting_lem user (some s) rows = (normalized s, refl, refl)
  wanted_sorting_lem user none rows =
      let (s, there, normal) = get-IsNormal user rows in
      (s, rw (there, wanted_sorting) (ap some normal), there)

  others_read :
      (u : ℕ) (row : UserPreferences J) (rows : List (UserPreferences J))
      → (row.user_id == u) ≡ false
      → select_first (is_of json u) (update_where (is_of json row.user_id) (λ r. row) rows)
        ≡ select_first (is_of json u) rows
  unfolding select_first update_where
  others_read u row [] ne = refl
  others_read u row (x ∷ xs) ne = ground (arith, ne, others_read u row xs ne)

  own_read :
      (row : UserPreferences J) (rows : List (UserPreferences J))
      → exists_where (is_of json row.user_id) rows ≡ true
      → select_first
          (is_of json row.user_id)
          (update_where (is_of json row.user_id) (λ r. row) rows)
        ≡ some row
  unfolding select_first update_where exists_where
  own_read row [] h = absurd (cc h)
  own_read row (x ∷ xs) h = elim (Bool-cases (x.user_id == row.user_id)) [
    | inl own ↦ rw (own, ==_refl row.user_id) refl
    | inr other ↦
        let rest = own_read row xs (ground (arith, other, h)) in ground (arith, other, rest)
  ]

  new_read :
      (u : ℕ) (row : UserPreferences J) (rows : List (UserPreferences J))
      → exists_where (is_of json row.user_id) rows ≡ false
      → select_first (is_of json u) (rows ++ row ∷ [])
        ≡ (if row.user_id == u then some row else select_first (is_of json u) rows)
  unfolding select_first exists_where
  new_read u row [] h = ground arith
  new_read u row (x ∷ xs) h = ground (arith, h, new_read u row xs)

  write_row-read :
      (u : ℕ) (row : UserPreferences J) (rows : List (UserPreferences J))
      → select_first (is_of json u) (write_row json row rows)
        ≡ (if row.user_id == u then some row else select_first (is_of json u) rows)
  unfolding write_row
  write_row-read u row rows = elim (Bool-cases (exists_where (is_of json row.user_id) rows)) [
    | inr new ↦ rw new (new_read u row rows new)
    | inl old ↦ elim (Bool-cases (row.user_id == u)) [
      | inr other ↦ rw (old, other) (others_read u row rows other)
      | inl own ↦
          rw (old, own)
            (subst
              (λ v.
                select_first (is_of json v) (update_where (is_of json row.user_id) (λ r. row) rows)
                ≡ some row)
              ((==_iff row.user_id u).0 own) (own_read row rows old))
    ]
  ]

  read_back :
      (user : ℕ) (p : Preferences) (s : SortingPrefs) (now : ℕ)
      → IsFaithful json
      → (normalized s ≡ s)
      → read_preferences json (row_of json user p s now)
        ≡ record p { sorting = some s; updated_at = now }
  unfolding read_preferences row_of read_sorting
  read_back user p s now f normal =
      rw (f.hidden p.hidden, f.tags p.tags, f.written s, f.sorting s, normal) refl

  wanted-normal :
      (user : ℕ) (o : Option SortingPrefs) (rows : List (UserPreferences J)) (s : SortingPrefs)
      → wanted_sorting json user o rows ≡ some s
      → normalized s ≡ s
  unfolding wanted_sorting
  wanted-normal user (some x) rows s h =
      let e : normalized x ≡ s = ground (arith, h) in
      subst (λ y. normalized y ≡ y) e (normalized_idem x)
  wanted-normal user none rows s h =
      let (x, there, normal) = get-IsNormal user rows in
      let e : normalized x ≡ s = ground (arith, there, h) in
      subst (λ y. normalized y ≡ y) e (normalized_idem x)

  abbrev shown : Option (UserPreferences J) → Preferences
  shown none = default_preferences
  shown (some r) = read_preferences json r

  get-shown :
      (u : ℕ) (rows : List (UserPreferences J))
      → get_user_preferences json u rows ≡ shown (select_first (is_of json u) rows)
  unfolding get_user_preferences
  get-shown u rows = elim (Option-cases (select_first (is_of json u) rows)) [
    | inl absent ↦ rw (absent, get_user_preferences) refl
    | inr (r, there) ↦ rw (there, get_user_preferences) refl
  ]

  get-write_row :
      (u : ℕ) (row : UserPreferences J) (rows : List (UserPreferences J))
      → get_user_preferences json u (write_row json row rows)
        ≡ (if row.user_id == u then read_preferences json row else get_user_preferences json u rows)
  get-write_row u row rows = elim (Bool-cases (row.user_id == u)) [
    | inl own ↦
        let there : select_first (is_of json u) (write_row json row rows) ≡ some row =
          write_row-read u row rows ∙ rw own refl in
        rw own (get-shown u (write_row json row rows) ∙ ap shown there)
    | inr other ↦
        let there : select_first (is_of json u) (write_row json row rows)
            ≡ select_first (is_of json u) rows =
          write_row-read u row rows ∙ rw other refl in
        rw other (get-shown u (write_row json row rows) ∙ ap shown there ∙ sym (get-shown u rows))
  ]

  -- A put that is saved changes what is read for its user only, who reads what was saved: the hidden names, the tags and the
  -- switch that were put, within their limits, and the sorting that was put, with its unknown modes replaced, or else the
  -- sorting that was read before. What is encoded is decoded again.
  pub put_user_preferences-get :
      (users : List User) (user : ℕ) (p q : Preferences) (now : ℕ)
      (rows rows' : List (UserPreferences J))
      → IsFaithful json
      → put_user_preferences json users user p now rows ≡ (rows', saved q)
      → ((u : ℕ)
          → get_user_preferences json u rows'
            ≡ (if user == u then q else get_user_preferences json u rows))
        × (q ≡ record p { sorting = sorting_after user p.sorting rows; updated_at = now })
        × (validate_preferences p ≡ true)
  unfolding put_user_preferences row_of
  put_user_preferences-get users user p q now rows rows' f h =
      let (s, wanted, after) = wanted_sorting_lem user p.sorting rows in
      elim (Bool-cases (user == 0)) [
        | inl nobody ↦ absurd (ground (arith, nobody))
        | inr somebody ↦ elim (Bool-cases (validate_preferences p)) [
          | inr large ↦ absurd (ground (arith, somebody, wanted, large))
          | inl small ↦ elim (Bool-cases (exists_where (user_is user) users)) [
            | inr unknown ↦ absurd (ground (arith, somebody, wanted, small, unknown))
            | inl there ↦
                let kept : record p { sorting = some s; updated_at = now } ≡ q =
                  ground (arith, somebody, wanted, small, there, h) in
                let written : write_row json (row_of json user p s now) rows ≡ rows' =
                  ground (arith, somebody, wanted, small, there, h) in
                let back = read_back user p s now f (wanted-normal user p.sorting rows s wanted) in
                (
                  λ u.
                      subst
                        (λ x.
                          get_user_preferences json u x
                          ≡ (if user == u then q else get_user_preferences json u rows))
                        written
                        (get-write_row u (row_of json user p s now) rows
                          ∙ ap (λ x. if user == u then x else get_user_preferences json u rows)
                              (back ∙ kept)),
                  sym kept ∙ ap (λ o. record p { sorting = o; updated_at = now }) (sym after),
                  small,
                )
          ]
        ]
      ]
