-- ===== src/Payment/Signing.antt =====
-- What a signature is a signature of.
use relay_scope.Base.{
  ◌≡◌, ◌∙◌, refl, sym, ap, subst, inl, inr, Bool, true, false, not, ◌||◌, List, [], ◌∷◌, map,
  if◌then◌else◌, arith, Bool-cases, All,
}
use relay_scope.Base.Texts.{
  Text, text_lt, text_eq, text_eq_refl, text_eq_iff, codes, is_empty, to_lower,
}
use relay_scope.Store.Wishes.{sort_by}
use relay_scope.Store.Wishes.Sorting.{All-sort_by}
use relay_scope.Payment.{Params, paid, answer}
use relay_scope.Payment.Epay.{
  Config, get, is_signed, signed_names, pair_text, sign_text, sign, verify_sign, parse_callback,
}
use relay_scope.Payment.Order.{is_listed, IsDistinct, sorted_unique, listed-sort, sort-IsSorted}

-- A map has each name once.
abbrev pub has_name : Text → Params → Bool
has_name x [] = false
has_name x ((n, v) ∷ rest) = text_eq n x || has_name x rest

abbrev pub IsMap : Params → Type 0
IsMap [] = Unit
IsMap ((n, v) ∷ rest) = (has_name n rest ≡ false) × IsMap rest

-- The same values under every name but those of the signature.
abbrev pub SameSigned : Params → Params → Type 0
SameSigned p q =
    (x : Text)
    → text_eq x (codes "sign") ≡ false
    → text_eq x (codes "sign_type") ≡ false
    → get x p ≡ get x q

get_absent : (x : Text) (p : Params) → has_name x p ≡ false → get x p ≡ []
unfolding get
get_absent x [] h = refl
get_absent x ((n, v) ∷ rest) h = ground (arith, get_absent x rest)

unlisted : (x : Text) (p : Params) → has_name x p ≡ false → is_listed x (signed_names p) ≡ false
unfolding signed_names
unlisted x [] h = refl
unlisted x ((n, v) ∷ rest) h = ground (arith, unlisted x rest)

names-IsDistinct : (p : Params) → IsMap p → IsDistinct (signed_names p)
unfolding signed_names
names-IsDistinct [] m = tt
names-IsDistinct ((n, v) ∷ rest) m = elim (Bool-cases (is_signed n v)) [
  | inl kept ↦ rw kept (unlisted n rest m.0, names-IsDistinct rest m.1)
  | inr dropped ↦ rw dropped (names-IsDistinct rest m.1)
]

named_first :
    (n v : Text) (rest : Params)
    → is_listed n (signed_names rest) ≡ false
    → is_listed n (if is_signed n v then n ∷ signed_names rest else signed_names rest)
      ≡ is_signed n v
named_first n v rest new = elim (Bool-cases (is_signed n v)) [
  | inl kept ↦ rw kept (rw (text_eq_refl n) refl)
  | inr dropped ↦ rw dropped new
]

-- The signed names are those with a value.
listed-names :
    (x : Text) (p : Params) → IsMap p → is_listed x (signed_names p) ≡ is_signed x (get x p)
unfolding signed_names get
listed-names x [] m = refl
listed-names x ((n, v) ∷ rest) m = elim (Bool-cases (text_eq n x)) [
  | inl hit ↦
      let e = (text_eq_iff n x).0 hit in
      subst (λ y. is_listed y (signed_names ((n, v) ∷ rest)) ≡ is_signed y (get y ((n, v) ∷ rest)))
        e (rw (text_eq_refl n) (named_first n v rest (unlisted n rest m.0)))
  | inr miss ↦ rw miss (elim (Bool-cases (is_signed n v)) [
    | inl kept ↦ rw kept (rw miss (listed-names x rest m.1))
    | inr dropped ↦ rw dropped (listed-names x rest m.1)
  ])
]

or_true : (a b c : Bool) → not (a || true || c) ≡ not (b || true || c)
or_true a b c = ground arith

same_signed :
    (p q : Params) → SameSigned p q → (x : Text) → is_signed x (get x p) ≡ is_signed x (get x q)
same_signed p q same x = elim (Bool-cases (text_eq x (codes "sign"))) [
  | inl name ↦
      rw name (or_true (is_empty (get x p)) (is_empty (get x q)) (text_eq x (codes "sign_type")))
  | inr other ↦ elim (Bool-cases (text_eq x (codes "sign_type"))) [
    | inl name ↦ ground (arith, name)
    | inr plain ↦ ap (is_signed x) (same x other plain)
  ]
]

names_eq :
    (p q : Params)
    → IsMap p
    → IsMap q
    → SameSigned p q
    → sort_by text_lt (signed_names p) ≡ sort_by text_lt (signed_names q)
names_eq p q mp mq same =
    sorted_unique (sort_by text_lt (signed_names p)) (sort_by text_lt (signed_names q))
      (sort-IsSorted (signed_names p) (names-IsDistinct p mp))
      (sort-IsSorted (signed_names q) (names-IsDistinct q mq))
      (λ z.
        listed-sort z (signed_names p)
        ∙ listed-names z p mp
        ∙ same_signed p q same z
        ∙ sym (listed-names z q mq)
        ∙ sym (listed-sort z (signed_names q)))

-- A name that is signed is none of the two.
abbrev IsPlain : Text → Type 0
IsPlain x = (text_eq x (codes "sign") ≡ false) × (text_eq x (codes "sign_type") ≡ false)

names-IsPlain : (p : Params) → All IsPlain (signed_names p)
unfolding signed_names
names-IsPlain [] = tt
names-IsPlain ((n, v) ∷ rest) = elim (Bool-cases (is_signed n v)) [
  | inl kept ↦ rw kept ((ground (arith, kept), ground (arith, kept)), names-IsPlain rest)
  | inr dropped ↦ rw dropped (names-IsPlain rest)
]

pairs_eq :
    (p q : Params) (names : List Text)
    → All IsPlain names
    → SameSigned p q
    → map (pair_text p) names ≡ map (pair_text q) names
unfolding pair_text
pairs_eq p q [] plain same = refl
pairs_eq p q (x ∷ names) plain same =
    let value = same x plain.0.0 plain.0.1 in
    let rest = pairs_eq p q names plain.1 same in rw (value, rest)

-- What is signed does not depend on the order in which a map is walked: two maps with the same values under all
-- names but `sign` and `sign_type` give the same text, with whatever key.
pub sign_text-map :
    (p q : Params) (key : Text)
    → IsMap p
    → IsMap q
    → SameSigned p q
    → sign_text p key ≡ sign_text q key
unfolding sign_text
sign_text-map p q key mp mq same = rw (names_eq p q mp mq same) (
    rw (
      pairs_eq p q (sort_by text_lt (signed_names q))
        (All-sort_by IsPlain text_lt (signed_names q) (names-IsPlain q)) same))

-- A message that the platform signs with the shared key, as a map of its own whatever the order of its names, is
-- accepted with its order number, if it names the pid of the shop and a success. A digest is in small
-- letters and not empty.
pub callback_accepted :
    (digest : Text → Text) (c : Config) (message received : Params) (ref : Text)
    → ((t : Text) → to_lower (digest t) ≡ digest t)
    → ((t : Text) → is_empty (digest t) ≡ false)
    → IsMap message
    → IsMap received
    → SameSigned message received
    → get (codes "sign") received ≡ sign digest message c.key
    → get (codes "pid") message ≡ c.pid
    → get (codes "out_trade_no") message ≡ ref
    → is_empty ref ≡ false
    → get (codes "trade_status") message ≡ codes "TRADE_SUCCESS"
    → parse_callback digest c received ≡ answer (ref, paid)
unfolding parse_callback verify_sign sign
callback_accepted digest c message received ref small full m r same signature pid number named
      success =
    let text = sign_text-map message received c.key m r same in
    let got_pid = sym (same (codes "pid") refl refl) ∙ pid in
    let got_number = sym (same (codes "out_trade_no") refl refl) ∙ number in
    let got_status = sym (same (codes "trade_status") refl refl) ∙ success in
    let lower = small (sign_text message c.key) in
    let some_text = full (sign_text message c.key) in
    let good = text_eq_refl (digest (sign_text message c.key)) in
    let own = text_eq_refl c.pid in
    rw (signature, got_pid, got_number, got_status, some_text, lower, ← text, good, own, named)
