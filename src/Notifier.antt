-- ===== src/Notifier.antt =====
-- internal/notifier/ratelimit.go: the bucket of tokens that limits the messages of a platform. Tokens are
-- counted in billionths of a token, so that a rate in tokens for each second, which the callers choose
-- whole, is the refill for each nanosecond, without the rounding of float64. The clock does not go back.
pub mod Limit
pub mod Dispatch
pub mod Enqueue
pub mod Calls
pub mod Reminders
use relay_scope.Base.{ℕ, ◌+◌, ◌-◌, ◌*◌, Bool, true, false, List, [], ◌∷◌, ltb, leb, if◌then◌else◌}

abbrev pub token : ℕ
token = 1000000000

pub record TokenBucket : Type 0 where
  pub tokens : ℕ
  pub rate : ℕ
  pub burst : ℕ
  pub last_time : ℕ

unfoldable pub new_token_bucket : ℕ → ℕ → ℕ → TokenBucket
new_token_bucket rate burst now = record {
  tokens = burst * token;
  rate = rate;
  burst = burst * token;
  last_time = now;
}

abbrev pub capped : ℕ → ℕ → ℕ
capped burst tokens = if ltb burst tokens then burst else tokens

abbrev pub refill : ℕ → TokenBucket → TokenBucket
refill now b = record b {
  tokens = capped b.burst (b.tokens + (now - b.last_time) * b.rate);
  last_time = now;
}

abbrev pub take_token : TokenBucket → TokenBucket × Bool
take_token b =
    if leb token b.tokens then (record b { tokens = b.tokens - token }, true) else (b, false)

unfoldable pub try_acquire : ℕ → TokenBucket → TokenBucket × Bool
try_acquire now b = take_token (refill now b)

-- The tries of `wait` at the given times, after the last of which the context is done.
unfoldable pub wait : List ℕ → TokenBucket → TokenBucket × Bool
unfolding try_acquire
wait [] b = (b, false)
wait (now ∷ later) b =
    let waited = wait later (try_acquire now b).0 in
    if (try_acquire now b).1 then ((try_acquire now b).0, true) else waited
