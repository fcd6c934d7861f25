-- ===== src/Routing.antt =====
-- internal/routing/observations.go: the contract of machine observations. JSON that was decoded is a
-- value; `outside` tells of a float64 that it is not a number, less than 0 or more than 1.
pub mod Validity
use relay_scope.Base.{
  ℕ, ◌+◌, Bool, true, false, not, ◌&&◌, ◌||◌, Option, none, some, List, [], ◌∷◌, ltb, leb, ◌==◌,
  if◌then◌else◌, length,
}
use relay_scope.Base.Texts.{Text, codes, text_eq, is_empty, trim_space}

-- The integers of JSON.
pub data ℤ : Type 0 where
  pos : ℕ → ℤ
  negsuc : ℕ → ℤ

-- What `any` can be for the functions that read it: a text, an array whose items are texts or not, or
-- anything else.
pub data Value : Type 0 where
  string : Text → Value
  array : List (Option Text) → Value
  other : Value

abbrev pub Object : Type 0
Object = List (Text × Value)

unfoldable pub lookup : Text → Object → Option Value
lookup key [] = none
lookup key ((k, v) ∷ rest) = if text_eq k key then some v else lookup key rest

abbrev pub is_blank : Text → Bool
is_blank t = is_empty (trim_space t)

-- The text of a key, if it is one and not blank.
unfoldable pub text_at : Text → Object → Option Text
unfolding lookup
text_at key object = elim (lookup key object) [
  | some (string t) ↦ if is_blank t then none else some t
  | some (array items) ↦ none
  | some other ↦ none
  | none ↦ none
]

unfoldable pub source_string : Object → List Text → Text
unfolding text_at
source_string object [] = []
source_string object (key ∷ keys) =
    let rest = source_string object keys in elim (text_at key object) [ some t ↦ t | none ↦ rest ]

unfoldable pub texts_of : List (Option Text) → List Text
texts_of [] = []
texts_of (none ∷ items) = texts_of items
texts_of (some t ∷ items) = let rest = texts_of items in if is_blank t then rest else t ∷ rest

unfoldable pub texts_at : Text → Object → List Text
unfolding lookup texts_of
texts_at key object = elim (lookup key object) [
  | some (array items) ↦ texts_of items
  | some (string t) ↦ []
  | some other ↦ []
  | none ↦ []
]

unfoldable pub source_strings : Object → List Text → List Text
unfolding texts_at
source_strings object [] = []
source_strings object (key ∷ keys) =
    let rest = source_strings object keys in
    elim (texts_at key object) [ [] ↦ rest | t ∷ ts ↦ t ∷ ts ]

pub record ProtocolScope : Type 0 where
  pub kind : Text
  pub protocols : List Text

pub record Price : Type 0 where
  pub kind : Text
  pub source : Text
  pub money_unit : Option Text
  pub input_per_million : Option Text
  pub output_per_million : Option Text
  pub protocol_scope : ProtocolScope
  pub includes_group_multiplier : Option Bool
  pub price_observed_at : Option ℤ
  pub suggested_interval_milliseconds : Option ℤ
  pub valid_for_milliseconds : Option ℤ

pub record Availability (Rate : Type 0) : Type 0 where
  pub status : Text
  pub evidence : Text
  pub protocol_scope : ProtocolScope
  pub sample_count : Option ℤ
  pub success_rate : Option Rate
  pub window_started_at : Option ℤ
  pub window_ended_at : Option ℤ
  pub source_observed_at : Option ℤ
  pub collected_at : Option ℤ
  pub collection_status : Text
  pub suggested_interval_milliseconds : Option ℤ
  pub valid_for_milliseconds : Option ℤ

pub record Extension (Rate : Type 0) : Type 0 where
  pub version : ℕ
  pub group_known : Option Bool
  pub availability : Option (Availability Rate)
  pub price : Option Price

abbrev pub is_in : Text → List Text → Bool
is_in t [] = false
is_in t (s ∷ rest) = text_eq s t || is_in t rest

abbrev pub is_known_protocol : Text → Bool
is_known_protocol p =
    text_eq p (codes "openai-completions")
    || text_eq p (codes "openai-responses")
    || text_eq p (codes "anthropic-messages")

-- The loop over the protocols with those that were seen.
unfoldable pub valid_protocols : List Text → List Text → Bool
valid_protocols seen [] = true
valid_protocols seen (p ∷ rest) =
    not (is_in p seen || not (is_known_protocol p)) && valid_protocols (p ∷ seen) rest

unfoldable pub valid_scope : ProtocolScope → Bool → Bool
unfolding valid_protocols
valid_scope s price =
    if text_eq s.kind (codes "unknown")
    then length s.protocols == 0
    else if not (text_eq s.kind (codes "explicit"))
        && not (price && text_eq s.kind (codes "all-supported"))
    then false
    else if length s.protocols == 0 || ltb 3 (length s.protocols)
    then false
    else valid_protocols [] s.protocols

abbrev pub max_safe : ℕ
max_safe = 9007199254740991

unfoldable pub valid_time : Option ℤ → Bool
valid_time none = true
valid_time (some (pos n)) = leb n max_safe
valid_time (some (negsuc n)) = false

unfoldable pub valid_interval : Option ℤ → Bool
valid_interval none = true
valid_interval (some (pos n)) = ltb 0 n && leb n max_safe
valid_interval (some (negsuc n)) = false

abbrev pub is_digit : ℕ → Bool
is_digit c = leb b'0' c && leb c b'9'

-- `\d{1,12}` up to the end, or up to a point where `tail` continues: `n` digits are behind.
unfoldable pub digits_then : (Text → Bool) → ℕ → Text → Bool
digits_then tail n [] = ltb 0 n && leb n 12
digits_then tail n (c ∷ s) =
    let more = digits_then tail (n + 1) s in
    if is_digit c then more else ltb 0 n && leb n 12 && (c == b'.') && tail s

-- ^\d{1,12}(?:\.\d{1,12})?$
unfoldable pub is_decimal : Text → Bool
unfolding digits_then
is_decimal s = digits_then (λ rest. digits_then (λ t. false) 0 rest) 0 s

unfoldable pub valid_decimal : Option Text → Bool
unfolding is_decimal
valid_decimal none = true
valid_decimal (some s) = is_decimal s

abbrev pub valid_unit : Option Text → Bool
valid_unit none = true
valid_unit (some u) = not (is_blank u)

unfoldable pub valid_price : Price → Bool
unfolding valid_decimal valid_scope valid_time valid_interval
valid_price v =
    if not (
      is_in v.kind
        (codes "per-token" ∷ codes "per-request" ∷ codes "tiered" ∷ codes "unknown" ∷ []))
    then false
    else if not (is_in v.source (codes "exact-group" ∷ codes "unknown" ∷ []))
    then false
    else valid_unit v.money_unit
      && valid_decimal v.input_per_million
      && valid_decimal v.output_per_million
      && valid_scope v.protocol_scope true
      && valid_time v.price_observed_at
      && valid_interval v.suggested_interval_milliseconds
      && valid_interval v.valid_for_milliseconds

-- A part that is there is kept if it passes its check.
abbrev pub keep {ℓ} : {A : Type ℓ} → (A → Bool) → Option A → Option A
keep p none = none
keep p (some a) = if p a then some a else none

module _ (Rate : Type 0) (outside : Rate → Bool) where
  abbrev pub valid_rate : Option Rate → Bool
  valid_rate none = true
  valid_rate (some r) = not (outside r)

  unfoldable pub valid_availability : Availability Rate → Bool
  unfolding valid_scope valid_time valid_interval
  valid_availability v =
      if not (is_in v.status (codes "available" ∷ codes "unavailable" ∷ codes "unknown" ∷ []))
      then false
      else if not (
          is_in v.evidence (
            codes "presence"
            ∷ codes "site-aggregate"
            ∷ codes "group-observed"
            ∷ codes "copied"
            ∷ codes "unknown"
            ∷ []))
      then false
      else if not (is_in v.collection_status (codes "ok" ∷ codes "error" ∷ codes "unknown" ∷ []))
      then false
      else if not (valid_time v.sample_count) || not (valid_rate v.success_rate)
      then false
      else valid_scope v.protocol_scope false
        && valid_time v.window_started_at
        && valid_time v.window_ended_at
        && valid_time v.source_observed_at
        && valid_time v.collected_at
        && valid_interval v.suggested_interval_milliseconds
        && valid_interval v.valid_for_milliseconds

  abbrev pub empty_extension : Extension Rate
  empty_extension = record { version = 0; group_known = none; availability = none; price = none }

  -- ReadExtension behind the decoding, which is `none` where it fails.
  unfoldable pub read_extension : Option (Extension Rate) → Extension Rate
  unfolding valid_availability valid_price
  read_extension none = empty_extension
  read_extension (some e) =
      if e.version == 1
      then record e {
        price = keep valid_price e.price;
        availability = keep valid_availability e.availability;
      }
      else empty_extension
