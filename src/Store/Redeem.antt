-- ===== src/Store/Redeem.antt =====
-- internal/store/redeem.go: redeem codes are generated unused, revoked, or redeemed once for days of
-- membership.
pub mod Once
pub mod Generation
pub mod Codes
use relay_scope.Base.{
  ℕ, zero, suc, ◌+◌, Bool, true, false, not, ◌&&◌, ◌||◌, Option, none, some, List, [], ◌∷◌, ◌++◌,
  map, ltb, leb, ◌==◌, if◌then◌else◌, length, take, drop, reverse, select_first, select_where,
  update_where, count_where, exists_where, next_id,
}
use relay_scope.Base.Texts.{Text, text_eq, codes, to_upper, trim_space, has_prefix}
use relay_scope.Store.{
  RedeemCode, unused, used, revoked, RedeemStatus, Db, Error, no_rows, redeem_invalid, bad_count,
  bad_days, note_too_long, bad_ids, constraint, Result, ok, err, Tx, ◌>>=◌, ◌>>◌, pure, fail, found,
  transaction, user_is, is_unused,
}
use relay_scope.Store.Membership.{Membership, membership_from_millis, extend_user}

abbrev pub redeem_alphabet : Text
redeem_alphabet = codes "0123456789ABCDEFGHJKMNPQRSTVWXYZ"

-- `RS-` and three groups of four; the canonical form has no dashes.
unfoldable pub display_code : Text → Text
display_code raw =
    codes "RS-" ++ take 4 raw ++ b'-' ∷ take 4 (drop 4 raw) ++ b'-' ∷ take 4 (drop 8 raw)

unfoldable pub canonical_code : Text → Text
canonical_code raw = codes "RS" ++ raw

-- The replacer of normalizeRedeemCode on one character.
unfoldable pub replace_char : ℕ → Text
replace_char c =
    if c == b'-' || c == b' '
    then []
    else if c == b'O'
    then b'0' ∷ []
    else if c == b'I' || c == b'L'
    then b'1' ∷ []
    else c ∷ []

unfoldable pub replace_all : Text → Text
unfolding replace_char
replace_all [] = []
replace_all (c ∷ s) = replace_char c ++ replace_all s

unfoldable pub normalize_redeem_code : Text → Text
unfolding replace_all
normalize_redeem_code code = replace_all (to_upper (trim_space code))

unfoldable pub format_redeem_code : Text → Text
unfolding display_code has_prefix
format_redeem_code canonical =
    if length canonical == 14 && has_prefix (codes "RS") canonical
    then display_code (drop 2 canonical)
    else canonical

abbrev pub code_is : Text → RedeemCode → Bool
code_is code c = text_eq c.code code

unfoldable pub unused_code : Text → ℕ → Text → ℕ → List RedeemCode → RedeemCode
unused_code canonical days note now rows = record {
  id = next_id (λ c. c.id) rows;
  code = canonical;
  days = days;
  note = note;
  status = unused;
  redeemed_by = none;
  redeemed_at = none;
  created_at = now;
}

-- The loop of GenerateRedeemCodes over the random codes that are drawn: a code that is taken is drawn
-- again. `none` means that the draws ran out.
unfoldable pub generate_codes :
    List Text → ℕ → ℕ → Text → ℕ → List RedeemCode → Option (List Text × List RedeemCode)
unfolding unused_code display_code canonical_code
generate_codes draws zero days note now rows = some ([], rows)
generate_codes [] (suc n) days note now rows = none
generate_codes (raw ∷ draws) (suc n) days note now rows =
    let again = generate_codes draws (suc n) days note now rows in
    let added = rows ++ unused_code (canonical_code raw) days note now rows ∷ [] in
    let next = generate_codes draws n days note now added in
    if exists_where (code_is (canonical_code raw)) rows
    then again
    else elim next [ none ↦ none | some (shown, rows') ↦ some (display_code raw ∷ shown, rows') ]

-- `none` where the draws run out.
unfoldable pub generate_redeem_codes :
    List Text → ℕ → ℕ → Text → ℕ → Db → Option (Db × Result (List Text))
unfolding generate_codes
generate_redeem_codes draws count days note now db =
    if count == 0 || ltb 500 count
    then some (db, err bad_count)
    else if days == 0 || ltb 3650 days
    then some (db, err bad_days)
    else if ltb 200 (length note)
    then some (db, err note_too_long)
    else elim (generate_codes draws count days note now db.codes) [
      | none ↦ none
      | some (shown, rows) ↦ some (record db { codes = rows }, ok shown)
    ]

abbrev pub has_id : List ℕ → ℕ → Bool
has_id [] i = false
has_id (j ∷ ids) i = j == i || has_id ids i

abbrev pub revocable : List ℕ → RedeemCode → Bool
revocable ids c = is_unused c.status && has_id ids c.id

unfoldable pub revoke_row : RedeemCode → RedeemCode
revoke_row c = record c { status = revoked }

unfoldable pub revoke_redeem_codes : List ℕ → Db → Db × Result ℕ
unfolding revoke_row
revoke_redeem_codes ids db =
    if length ids == 0 || ltb 500 (length ids) then (db, err bad_ids) else (
      record db { codes = update_where (revocable ids) revoke_row db.codes },
      ok (count_where (revocable ids) db.codes),
    )

abbrev pub redeemable : Text → RedeemCode → Bool
redeemable code c = code_is code c && is_unused c.status

unfoldable pub redeem_row : ℕ → ℕ → RedeemCode → RedeemCode
redeem_row user_id now c = record c {
  status = used;
  redeemed_by = some user_id;
  redeemed_at = some now;
}

-- The days of the code for the user, who must exist.
unfoldable pub grant_days : Text → ℕ → ℕ → Tx Membership
grant_days code user_id now db = elim (select_first (code_is code) db.codes) [
  | none ↦ err no_rows
  | some c ↦
      let users' = update_where (user_is user_id) (extend_user now c.days) db.users in
      elim (select_first (user_is user_id) users') [
        | none ↦ err no_rows
        | some u ↦
            ok (membership_from_millis u.membership_expires_at now, record db { users = users' })
      ]
]

-- `redeemed_by` is a foreign key, checked by the UPDATE.
unfoldable pub redeem : ℕ → Text → ℕ → Tx Membership
unfolding redeem_row grant_days
redeem user_id code now db =
    if count_where (redeemable code) db.codes == 0
    then err redeem_invalid
    else if exists_where (user_is user_id) db.users
    then grant_days code user_id now
        (record db { codes = update_where (redeemable code) (redeem_row user_id now) db.codes })
    else err constraint

unfoldable pub redeem_code : ℕ → Text → ℕ → Db → Db × Result Membership
redeem_code user_id code now db =
    let normalized = normalize_redeem_code code in
    if user_id == 0 || ltb (length normalized) 8 || ltb 40 (length normalized)
    then (db, err redeem_invalid)
    else transaction (redeem user_id normalized now) db
