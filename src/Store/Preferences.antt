-- ===== src/Store/Preferences.antt =====
-- internal/store/prefs.go: the settings of a user's pages. A nil list or map and an empty one are the same here.
-- JSON is a parameter: a column of texts is of any type `J`, with what decodes it.
pub mod Kept
use relay_scope.Base.{
  ℕ, ◌+◌, Bool, true, false, not, ◌&&◌, ◌||◌, Option, none, some, List, [], ◌∷◌, ◌++◌, ltb, ◌==◌,
  if◌then◌else◌, length, select_first, update_where, exists_where,
}
use relay_scope.Base.Texts.{Text, text_eq, codes}
use relay_scope.Store.{User, user_is}

pub record PreferencesHidden : Type 0 where
  pub sites : List Text
  pub providers : List Text
  pub models : List Text

pub record PreferencesTag : Type 0 where
  pub color : Text
  pub sites : List Text

pub record SortingPrefs : Type 0 where
  pub model : Text
  pub site : Text

abbrev pub Tags : Type 0
Tags = List (Text × PreferencesTag)

pub record Preferences : Type 0 where
  pub hidden : PreferencesHidden
  pub default_healthy : Bool
  pub tags : Tags
  pub sorting : Option SortingPrefs
  pub updated_at : ℕ

abbrev pub is_one_of : Text → List Text → Bool
is_one_of t [] = false
is_one_of t (s ∷ rest) = text_eq t s || is_one_of t rest

abbrev pub sorting_model_modes : List Text
sorting_model_modes =
    codes "default" ∷ codes "price" ∷ codes "availability" ∷ codes "latency" ∷ codes "smart" ∷ []

abbrev pub sorting_site_modes : List Text
sorting_site_modes =
    codes "default"
    ∷ codes "availability-median"
    ∷ codes "latency"
    ∷ codes "healthy-count"
    ∷ codes "smart"
    ∷ []

unfoldable pub normalized : SortingPrefs → SortingPrefs
normalized s = record {
  model = if is_one_of s.model sorting_model_modes then s.model else codes "default";
  site = if is_one_of s.site sorting_site_modes then s.site else codes "default";
}

abbrev pub default_sorting : SortingPrefs
default_sorting = record { model = codes "default"; site = codes "default" }

abbrev pub default_preferences : Preferences
default_preferences = record {
  hidden = record { sites = []; providers = []; models = [] };
  default_healthy = false;
  tags = [];
  sorting = some default_sorting;
  updated_at = 0;
}

unfoldable pub all_short : ℕ → List Text → Bool
all_short max_rune [] = true
all_short max_rune (item ∷ rest) = not (ltb max_rune (length item)) && all_short max_rune rest

-- Whether a list is within its limits.
unfoldable pub validate_string_list : List Text → ℕ → ℕ → Bool
unfolding all_short
validate_string_list list max_items max_rune =
    not (ltb max_items (length list)) && all_short max_rune list

-- The number of bytes of a text in UTF-8.
unfoldable pub byte_length : Text → ℕ
byte_length [] = 0
byte_length (c ∷ s) =
    (if ltb c 128 then 1 else if ltb c 2048 then 2 else if ltb c 65536 then 3 else 4)
    + byte_length s

unfoldable pub validate_tags : Tags → Bool
unfolding validate_string_list byte_length
validate_tags [] = true
validate_tags ((name, tag) ∷ rest) =
    not (length name == 0 || ltb 60 (length name) || ltb 20 (byte_length tag.color))
    && validate_string_list tag.sites 1000 200
    && validate_tags rest

-- Whether preferences are within their limits.
unfoldable pub validate_preferences : Preferences → Bool
unfolding validate_string_list validate_tags
validate_preferences p =
    validate_string_list p.hidden.sites 500 200
    && validate_string_list p.hidden.providers 500 200
    && validate_string_list p.hidden.models 500 200
    && not (ltb 100 (length p.tags))
    && validate_tags p.tags

pub record UserPreferences (J : Type 0) : Type 0 where
  pub user_id : ℕ
  pub hidden : J
  pub default_healthy : Bool
  pub tags : J
  pub sorting : J
  pub updated_at : ℕ

-- Decoding of the hidden names gives what it has filled in, and whether it succeeded.
pub record Json (J : Type 0) : Type 0 where
  pub is_blank : J → Bool
  pub encode_hidden : PreferencesHidden → J
  pub decode_hidden : J → PreferencesHidden × Bool
  pub encode_tags : Tags → J
  pub decode_tags : J → Option Tags
  pub encode_sorting : SortingPrefs → J
  pub decode_sorting : J → Option SortingPrefs

-- The use of a nil sorting panics.
pub data PutError : Type 0 where
  invalid_user too_large constraint nil_sorting : PutError

pub data PutResult : Type 0 where
  refused : PutError → PutResult
  saved : Preferences → PutResult

module _ {J : Type 0} (json : Json J) where
  abbrev pub tags_or_none : Option Tags → Tags
  tags_or_none none = []
  tags_or_none (some t) = t

  unfoldable pub read_sorting : J → Option SortingPrefs
  unfolding normalized
  read_sorting text =
      if json.is_blank text then some default_sorting else elim (json.decode_sorting text) [
        | none ↦ some default_sorting
        | some s ↦ some (normalized s)
      ]

  unfoldable pub read_preferences : UserPreferences J → Preferences
  unfolding read_sorting
  read_preferences r =
      let (hidden, ok) = json.decode_hidden r.hidden in
      if not ok then record default_preferences { hidden = hidden } else record {
        hidden = hidden;
        default_healthy = r.default_healthy;
        tags = tags_or_none (json.decode_tags r.tags);
        sorting = read_sorting r.sorting;
        updated_at = r.updated_at;
      }

  abbrev pub is_of : ℕ → UserPreferences J → Bool
  is_of user r = r.user_id == user

  unfoldable pub get_user_preferences : ℕ → List (UserPreferences J) → Preferences
  unfolding read_preferences
  get_user_preferences user rows = elim (select_first (is_of user) rows) [
    | none ↦ default_preferences
    | some r ↦ read_preferences r
  ]

  -- Without a sorting, the one that is stored stays.
  unfoldable pub wanted_sorting :
      ℕ → Option SortingPrefs → List (UserPreferences J) → Option SortingPrefs
  unfolding get_user_preferences normalized
  wanted_sorting user (some s) rows = some (normalized s)
  wanted_sorting user none rows = elim (get_user_preferences user rows).sorting [
    | none ↦ none
    | some s ↦ some (normalized s)
  ]

  unfoldable pub row_of : ℕ → Preferences → SortingPrefs → ℕ → UserPreferences J
  row_of user p s now = record {
    user_id = user;
    hidden = json.encode_hidden p.hidden;
    default_healthy = p.default_healthy;
    tags = json.encode_tags p.tags;
    sorting = json.encode_sorting s;
    updated_at = now;
  }

  unfoldable pub write_row : UserPreferences J → List (UserPreferences J) → List (UserPreferences J)
  write_row row rows =
      if exists_where (is_of row.user_id) rows
      then update_where (is_of row.user_id) (λ r. row) rows
      else rows ++ row ∷ []

  unfoldable pub put_user_preferences :
      List User
      → ℕ
      → Preferences
      → ℕ
      → List (UserPreferences J)
      → List (UserPreferences J) × PutResult
  unfolding wanted_sorting row_of write_row
  put_user_preferences users user p now rows =
      if user == 0
      then (rows, refused invalid_user)
      else elim (wanted_sorting user p.sorting rows) [
        | none ↦ (rows, refused nil_sorting)
        | some s ↦
            if not (validate_preferences p)
            then (rows, refused too_large)
            else if not (exists_where (user_is user) users)
            then (rows, refused constraint)
            else (
              write_row (row_of user p s now) rows,
              saved (record p { sorting = some s; updated_at = now }),
            )
      ]
