-- ===== src/Routing/Validity.antt =====
-- What an observation that is read keeps, and what its checks say.
use relay_scope.Base.{
  ℕ, ◌+◌, ◌≤◌, ◌<◌, ◌≡◌, ◌⊎◌, refl, inl, inr, Bool, true, false, not, ◌&&◌, ◌||◌, Option, none,
  some, List, [], ◌∷◌, ◌++◌, ltb, ◌==◌, length, All, Pairs, arith, Bool-cases, Option-cases,
}
use relay_scope.Base.Texts.{Text, codes, text_eq}
use relay_scope.Routing.{
  Object, ProtocolScope, Extension, is_blank, text_at, source_string, is_in, is_known_protocol,
  valid_protocols, valid_scope, is_digit, digits_then, is_decimal, valid_price, valid_availability,
  keep, read_extension,
}

-- What a decimal is: one to twelve digits, and then nothing or a point with one to twelve more.
abbrev pub Digits : Text → Type 0
Digits s = All (λ c. is_digit c ≡ true) s × (0 < length s) × (length s ≤ 12)

abbrev pub IsDecimal : Text → Type 0
IsDecimal s =
    Digits s
    ⊎ ((whole : Text) × (fraction : Text) × Digits whole
        × Digits fraction
        × (s ≡ whole ++ b'.' ∷ fraction))

-- What a run of digits is, read from the left, where `n` digits are behind.
abbrev Run : (Text → Type 0) → ℕ → Text → Type 0
Run Tail n s =
    (All (λ c. is_digit c ≡ true) s × (0 < n + length s) × (n + length s ≤ 12))
    ⊎ ((whole : Text) × (rest : Text) × All (λ c. is_digit c ≡ true) whole
        × (0 < n + length whole)
        × (n + length whole ≤ 12)
        × Tail rest
        × (s ≡ whole ++ b'.' ∷ rest))

digits_then_sound :
    (tail : Text → Bool) (Tail : Text → Type 0)
    → ((t : Text) → tail t ≡ true → Tail t)
    → (n : ℕ) (s : Text) → digits_then tail n s ≡ true
    → Run Tail n s
unfolding digits_then
digits_then_sound tail Tail sound n [] h = inl (tt, ground (arith, h), ground (arith, h))
digits_then_sound tail Tail sound n (c ∷ s) h = elim (Bool-cases (is_digit c)) [
  | inl digit ↦ elim (digits_then_sound tail Tail sound (n + 1) s (ground (arith, digit, h))) [
    | inl (a, low, high) ↦ inl ((digit, a), omega (arith, low), omega (arith, high))
    | inr (whole, rest, a, low, high, t, e) ↦
        inr (c ∷ whole, rest, (digit, a), omega (arith, low), omega (arith, high), t, cc e)
  ]
  | inr point ↦ inr (
    [],
    s,
    tt,
    ground (arith, point, h),
    ground (arith, point, h),
    sound s (ground (arith, point, h)),
    ground (arith, point, h),
  )
]

-- A text that passes as a decimal has one to twelve digits, and then nothing or a point with one to twelve
-- digits more.
pub is_decimal_sound : (s : Text) → is_decimal s ≡ true → IsDecimal s
unfolding is_decimal
is_decimal_sound s h =
    elim (digits_then_sound (λ rest. digits_then (λ t. false) 0 rest) Digits tail 0 s h) [
      | inl (a, low, high) ↦ inl (a, omega (arith, low), omega (arith, high))
      | inr (whole, rest, a, low, high, t, e) ↦
          inr (whole, rest, (a, omega (arith, low), omega (arith, high)), t, e)
    ]
  where
    tail : (t : Text) → digits_then (λ t. false) 0 t ≡ true → Digits t
    tail t k = elim (digits_then_sound (λ t. false) (λ t. ⊥) (λ t e. absurd (cc e)) 0 t k) [
      | inl (a, low, high) ↦ (a, omega (arith, low), omega (arith, high))
      | inr (whole, rest, a, low, high, none_such, e) ↦ absurd none_such
    ]

-- The text that is read from an object is one of its texts, spelled as it was, or empty where no key has
-- a text that is not blank.
pub source_string_lem :
    (object : Object) (keys : List Text)
    → ((source_string object keys ≡ []) × All (λ k. text_at k object ≡ none) keys)
      ⊎ ((k : Text) × (text_at k object ≡ some (source_string object keys))
          × (is_blank (source_string object keys) ≡ false))
unfolding source_string text_at
source_string_lem object [] = inl (refl, tt)
source_string_lem object (k ∷ keys) = elim (Option-cases (text_at k object)) [
  | inr (t, e) ↦ inr (k, ground (arith, e), ground (arith, e))
  | inl missing ↦ elim (source_string_lem object keys) [
    | inl (none_left, a) ↦ inl (ground (arith, missing, none_left), (missing, a))
    | inr (j, e, full) ↦ inr (j, ground (arith, missing, e), ground (arith, missing, full))
  ]
]

-- What is there passes the check.
abbrev pub fits {ℓ} : {A : Type ℓ} → (A → Bool) → Option A → Bool
fits p none = true
fits p (some a) = p a

keep-fits : {A : Type 0} (p : A → Bool) (o : Option A) → fits p (keep p o) ≡ true
keep-fits p none = refl
keep-fits p (some a) = elim (Bool-cases (p a)) [
  | inl good ↦ ground (arith, good)
  | inr bad ↦ ground (arith, bad)
]

module _ (Rate : Type 0) (outside : Rate → Bool) where
  -- Whatever was stored, an extension that is read has version 1 or is empty, and a price or an
  -- availability in it passes its check.
  pub read_extension_lem :
      (stored : Option (Extension Rate))
      → ((read_extension Rate outside stored).version ≤ 1)
        × (fits valid_price (read_extension Rate outside stored).price ≡ true)
        × (fits (valid_availability Rate outside) (read_extension Rate outside stored).availability
            ≡ true)
  unfolding read_extension
  read_extension_lem none = (omega arith, refl, refl)
  read_extension_lem (some e) = elim (Bool-cases (e.version == 1)) [
    | inl current ↦ rw current (
      ground (arith, current),
      keep-fits valid_price e.price,
      keep-fits (valid_availability Rate outside) e.availability,
    )
    | inr old ↦ rw old (omega arith, refl, refl)
  ]

-- Protocols that are known, that were not seen, and that differ from each other.
abbrev pub Fresh : List Text → List Text → Type 0
Fresh seen ps =
    All (λ p. (is_in p seen ≡ false) × (is_known_protocol p ≡ true)) ps
    × Pairs (λ p q. text_eq p q ≡ false) ps

unseen :
    (seen ps : List Text) (p : Text)
    → All (λ q. (is_in q (p ∷ seen) ≡ false) × (is_known_protocol q ≡ true)) ps
    → All (λ q. text_eq p q ≡ false) ps
      × All (λ q. (is_in q seen ≡ false) × (is_known_protocol q ≡ true)) ps
unseen seen [] p h = (tt, tt)
unseen seen (q ∷ ps) p h =
    let rest = unseen seen ps p h.1 in
    ((ground (arith, h.0.0), rest.0), ((ground (arith, h.0.0), h.0.1), rest.1))

protocols_sound : (seen ps : List Text) → valid_protocols seen ps ≡ true → Fresh seen ps
unfolding valid_protocols
protocols_sound seen [] h = (tt, tt)
protocols_sound seen (p ∷ ps) h =
    let known = is_known_protocol p in
    let rest = protocols_sound (p ∷ seen) ps (ground (arith, h)) in
    let split = unseen seen ps p rest.0 in
    (
      ((first (is_in p seen) known _ h, second (is_in p seen) known _ h), split.1),
      (split.0, rest.1),
    )
  where
    first : (a b c : Bool) → (not (a || not b) && c) ≡ true → a ≡ false
    first a b c h = ground arith

    second : (a b c : Bool) → (not (a || not b) && c) ≡ true → b ≡ true
    second a b c h = ground arith

-- A scope that passes is unknown and names no protocol, or it names one to three known protocols, each
-- once, and is explicit or, for a price, covers all that are supported.
pub valid_scope_sound :
    (s : ProtocolScope) (price : Bool)
    → valid_scope s price ≡ true
    → ((text_eq s.kind (codes "unknown") ≡ true) × (length s.protocols ≡ 0))
      ⊎ ((0 < length s.protocols)
          × (length s.protocols ≤ 3)
          × Fresh [] s.protocols
          × ((text_eq s.kind (codes "explicit") || price && text_eq s.kind (codes "all-supported"))
              ≡ true))
unfolding valid_scope
valid_scope_sound s price h = elim (Bool-cases (text_eq s.kind (codes "unknown"))) [
  | inl unknown ↦ inl (unknown, ground (arith, unknown, h))
  | inr known ↦ elim (Bool-cases (length s.protocols == 0 || ltb 3 (length s.protocols))) [
    | inl bad ↦ absurd (ground (arith, known, bad, h))
    | inr good ↦ inr (
      ground (arith, good),
      ground (arith, good),
      protocols_sound [] s.protocols (ground (arith, known, good, h)),
      ground (arith, known, good, h),
    )
  ]
]
