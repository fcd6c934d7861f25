-- ===== src/Notifier/Limit.antt =====
-- How many tokens a bucket gives in a stretch of time.
use relay_scope.Base.{
  ℕ, ◌+◌, ◌-◌, ◌*◌, ◌≤◌, ◌≡◌, refl, ◌∙◌, ap, Bool, true, false, List, [], ◌∷◌, arith,
}
use relay_scope.Notifier.{
  TokenBucket, new_token_bucket, capped, refill, take_token, try_acquire, token,
}

-- The bucket after tries that follow one another at the given distances.
unfoldable pub after_tries : List ℕ → TokenBucket → TokenBucket
unfolding try_acquire
after_tries [] b = b
after_tries (gap ∷ gaps) b = after_tries gaps (try_acquire (b.last_time + gap) b).0

abbrev pub one_if : Bool → ℕ
one_if true = 1
one_if false = 0

-- How many of the tries get a token.
unfoldable pub granted : List ℕ → TokenBucket → ℕ
unfolding try_acquire
granted [] b = 0
granted (gap ∷ gaps) b =
    one_if (try_acquire (b.last_time + gap) b).1
    + granted gaps (try_acquire (b.last_time + gap) b).0

abbrev pub total : List ℕ → ℕ
total [] = 0
total (gap ∷ gaps) = gap + total gaps

capped_le : (burst n : ℕ) → (capped burst n ≤ burst) × (capped burst n ≤ n)
capped_le burst n = ground arith

take_token_lem :
    (b : TokenBucket) → one_if (take_token b).1 * token + (take_token b).0.tokens ≡ b.tokens
take_token_lem b = ground arith

take_token-parts :
    (b : TokenBucket) → ((take_token b).0.rate ≡ b.rate) × ((take_token b).0.burst ≡ b.burst)
take_token-parts b = ground arith

try_acquire-parts :
    (now : ℕ) (b : TokenBucket)
    → ((try_acquire now b).0.rate ≡ b.rate) × ((try_acquire now b).0.burst ≡ b.burst)
unfolding try_acquire
try_acquire-parts now b = ((take_token-parts (refill now b)).0, (take_token-parts (refill now b)).1)

elapsed_lem : (last gap : ℕ) → last + gap - last ≡ gap
elapsed_lem last gap = omega arith

refill_le :
    (gap : ℕ) (b : TokenBucket) → (refill (b.last_time + gap) b).tokens ≤ b.tokens + gap * b.rate
refill_le gap b = rw (elapsed_lem b.last_time gap) (capped_le b.burst (b.tokens + gap * b.rate)).1

-- A try gives no more than was there and was refilled.
try_acquire_le :
    (gap : ℕ) (b : TokenBucket)
    → one_if (try_acquire (b.last_time + gap) b).1 * token
        + (try_acquire (b.last_time + gap) b).0.tokens
      ≤ b.tokens + gap * b.rate
unfolding try_acquire
try_acquire_le gap b =
    let exact = take_token_lem (refill (b.last_time + gap) b) in
    let most = refill_le gap b in omega arith

total_lem : (gap t r : ℕ) → (gap + t) * r ≡ gap * r + t * r
total_lem gap t r = omega arith

granted_le :
    (gaps : List ℕ) (b : TokenBucket) (rate : ℕ)
    → b.rate ≡ rate
    → granted gaps b * token ≤ b.tokens + total gaps * rate
unfolding granted
granted_le [] b rate same = omega arith
granted_le (gap ∷ gaps) b rate same =
    let b1 = (try_acquire (b.last_time + gap) b).0 in
    let one = try_acquire_le gap b in
    let rest = granted_le gaps b1 rate ((try_acquire-parts (b.last_time + gap) b).0 ∙ same) in
    let sum = total_lem gap (total gaps) rate in
    let refilled = ap (λ r. gap * r) same in omega arith

after_tries-parts :
    (gaps : List ℕ) (b : TokenBucket) (rate burst : ℕ)
    → b.rate ≡ rate
    → b.burst ≡ burst
    → ((after_tries gaps b).rate ≡ rate) × ((after_tries gaps b).burst ≡ burst)
unfolding after_tries
after_tries-parts [] b rate burst same cap = (same, cap)
after_tries-parts (gap ∷ gaps) b rate burst same cap =
    let now = b.last_time + gap in
    let kept = try_acquire-parts now b in
    after_tries-parts gaps (try_acquire now b).0 rate burst (kept.0 ∙ same) (kept.1 ∙ cap)

-- A try gives no more than the burst, however long it comes after the one before.
try_acquire-burst :
    (now : ℕ) (b : TokenBucket)
    → one_if (try_acquire now b).1 * token + (try_acquire now b).0.tokens ≤ b.burst
unfolding try_acquire
try_acquire-burst now b =
    let exact = take_token_lem (refill now b) in
    let most = (capped_le b.burst (b.tokens + (now - b.last_time) * b.rate)).0 in omega arith

-- Whatever tries came before on a new bucket, and however long ago: of a first try and those that follow it at the given
-- distances, no more get a token than the burst and what the rate refills from the first try to the last.
pub granted_bounds :
    (rate burst start : ℕ) (before : List ℕ) (first : ℕ) (gaps : List ℕ)
    → granted (first ∷ gaps) (after_tries before (new_token_bucket rate burst start)) * token
      ≤ burst * token + total gaps * rate
unfolding new_token_bucket granted
granted_bounds rate burst start before first gaps =
    let b = after_tries before (new_token_bucket rate burst start) in
    let (same, cap) =
      after_tries-parts before (new_token_bucket rate burst start) rate (burst * token) refl refl in
    let now = b.last_time + first in
    let one = try_acquire-burst now b in
    let rest = granted_le gaps (try_acquire now b).0 rate ((try_acquire-parts now b).0 ∙ same) in
    omega (arith, one, rest, cap)
