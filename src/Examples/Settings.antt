-- ===== src/Examples/Settings.antt =====
-- The settings of a user's pages, with columns that hold what was encoded.
use relay_scope.Base.{
  ℕ, ◌≡◌, refl, ◌⊎◌, inl, inr, Bool, true, false, Option, none, some, List, [], ◌∷◌, ◌==◌,
  if◌then◌else◌, exists_where, select_first,
}
use relay_scope.Base.Texts.{codes}
use relay_scope.Store.Preferences.{
  PreferencesHidden, SortingPrefs, Tags, Preferences, UserPreferences, Json, saved,
  default_preferences, validate_preferences, put_user_preferences, get_user_preferences, normalized,
  validate_string_list, all_short, validate_tags, byte_length, wanted_sorting, row_of, write_row,
}
use relay_scope.Store.Preferences.Kept.{IsFaithful, sorting_after, put_user_preferences-get}
use relay_scope.Examples.Shop.{shop}

abbrev Column : Type 0
Column = PreferencesHidden ⊎ (Tags ⊎ Option SortingPrefs)

abbrev is_blank_column : Column → Bool
is_blank_column (inr (inr none)) = true
is_blank_column _ = false

abbrev hidden_in : Column → PreferencesHidden × Bool
hidden_in (inl h) = (h, true)
hidden_in (inr other) = (default_preferences.hidden, false)

abbrev tags_in : Column → Option Tags
tags_in (inr (inl t)) = some t
tags_in _ = none

abbrev sorting_in : Column → Option SortingPrefs
sorting_in (inr (inr s)) = s
sorting_in _ = none

abbrev columns : Json Column
columns = record {
  is_blank = is_blank_column;
  encode_hidden = inl;
  decode_hidden = hidden_in;
  encode_tags = λ t. inr (inl t);
  decode_tags = tags_in;
  encode_sorting = λ s. inr (inr (some s));
  decode_sorting = sorting_in;
}

columns-IsFaithful : IsFaithful columns
columns-IsFaithful = record {
  hidden = λ h. refl;
  tags = λ t. refl;
  sorting = λ s. refl;
  written = λ s. refl;
}

abbrev wishes : Preferences
wishes = record {
  hidden = record { sites = codes "a.example" ∷ []; providers = []; models = codes "gpt" ∷ [] };
  default_healthy = true;
  tags = (codes "fast", record { color = codes "#0f0"; sites = codes "b.example" ∷ [] }) ∷ [];
  sorting = some (record { model = codes "price"; site = codes "by-age" });
  updated_at = 0;
}

abbrev put_wishes : Preferences
put_wishes = record wishes {
  sorting = some (record { model = codes "price"; site = codes "default" });
  updated_at = 9;
}

abbrev first_row : List (UserPreferences Column)
first_row =
    record {
      user_id = 1;
      hidden = inl wishes.hidden;
      default_healthy = true;
      tags = inr (inl wishes.tags);
      sorting = inr (inr put_wishes.sorting);
      updated_at = 9;
    }
    ∷ []

put_first : put_user_preferences columns shop.users 1 wishes 9 [] ≡ (first_row, saved put_wishes)
unfolding put_user_preferences validate_preferences validate_string_list all_short validate_tags
    byte_length wanted_sorting row_of write_row normalized exists_where select_first
put_first = refl

put_user_preferences-get_example :
    ((u : ℕ)
      → get_user_preferences columns u first_row
        ≡ (if 1 == u then put_wishes else get_user_preferences columns u []))
    × (put_wishes
        ≡ record wishes { sorting = sorting_after columns 1 wishes.sorting []; updated_at = 9 })
    × (validate_preferences wishes ≡ true)
put_user_preferences-get_example =
    put_user_preferences-get columns shop.users 1 wishes put_wishes 9 [] first_row
      columns-IsFaithful put_first
