-- ===== src/Admin.antt =====
-- internal/admin/auth.go: the administrator's sessions, CSRF tokens, and the lock after five wrong
-- passwords. Times are nanoseconds, 0 the zero time. Go's maps are association lists. A random token
-- is an argument, `none` where the source of randomness fails.
pub mod Lockout
pub mod Sessions
use relay_scope.Base.{
  ℕ, suc, ◌+◌, ◌*◌, ◌-◌, Bool, true, false, not, ◌&&◌, ◌||◌, Option, none, some, List, [], ◌∷◌,
  ◌++◌, ltb, leb, ◌==◌, if◌then◌else◌, select_first, select_where, exists_where,
}
use relay_scope.Base.Texts.{Text, text_eq}

pub record Session : Type 0 where
  pub token : Text
  pub expires : ℕ

pub record CsrfToken : Type 0 where
  pub session : Text
  pub token : Text

pub record FailureState : Type 0 where
  pub remote_addr : Text
  pub count : ℕ
  pub until : ℕ
  pub last_failed : ℕ

pub record Auth : Type 0 where
  pub sessions : List Session
  pub csrf_tokens : List CsrfToken
  pub max_failures : List FailureState
  pub session_ttl : ℕ

abbrev pub minute : ℕ
minute = 60 * 1000000000

abbrev pub failure_window : ℕ
failure_window = 10 * minute

unfoldable pub new_auth : Auth
new_auth = record {
  sessions = [];
  csrf_tokens = [];
  max_failures = [];
  session_ttl = 12 * 60 * minute;
}

abbrev pub session_is : Text → Session → Bool
session_is token s = text_eq s.token token

abbrev pub csrf_of : Text → CsrfToken → Bool
csrf_of session c = text_eq c.session session

abbrev pub failures_of : Text → FailureState → Bool
failures_of addr f = text_eq f.remote_addr addr

abbrev pub live : ℕ → Session → Bool
live now s = ltb now s.expires

-- A session of that token has run out, so its CSRF token goes too.
unfoldable pub is_orphaned : List Session → ℕ → CsrfToken → Bool
is_orphaned sessions now c = exists_where (λ s. session_is c.session s && not (live now s)) sessions

unfoldable pub is_forgotten : ℕ → FailureState → Bool
is_forgotten now f =
    not (ltb now f.until) && not (f.last_failed == 0) && leb failure_window (now - f.last_failed)

unfoldable pub cleanup_expired : ℕ → Auth → Auth
unfolding is_orphaned is_forgotten
cleanup_expired now a = record a {
  sessions = select_where (live now) a.sessions;
  csrf_tokens = select_where (λ c. not (is_orphaned a.sessions now c)) a.csrf_tokens;
  max_failures = select_where (λ f. not (is_forgotten now f)) a.max_failures;
}

-- The token under which a session may change state, if the session is live.
unfoldable pub csrf_token : Text → ℕ → Auth → Auth × Option Text
unfolding cleanup_expired
csrf_token session now a =
    let a' = cleanup_expired now a in
    elim (select_first (session_is session) a'.sessions) [
      | none ↦ (a', none)
      | some s ↦
          if live now s
          then elim (select_first (csrf_of session) a'.csrf_tokens) [
            | none ↦ (a', none)
            | some c ↦ (a', some c.token)
          ]
          else (a', none)
    ]

unfoldable pub put_csrf : Text → Text → List CsrfToken → List CsrfToken
put_csrf session token cs =
    record { session = session; token = token } ∷ select_where (λ c. not (csrf_of session c)) cs

unfoldable pub new_csrf_token : Text → Option Text → ℕ → Auth → Auth × Option Text
unfolding cleanup_expired put_csrf
new_csrf_token session draw now a =
    let a' = cleanup_expired now a in
    elim (select_first (session_is session) a'.sessions) [
      | none ↦ (a', none)
      | some s ↦
          if live now s
          then elim draw [
            | none ↦ (a', none)
            | some token ↦
                (record a' { csrf_tokens = put_csrf session token a'.csrf_tokens }, some token)
          ]
          else (a', none)
    ]

unfoldable pub blank_failures : Text → FailureState
blank_failures addr = record { remote_addr = addr; count = 0; until = 0; last_failed = 0 }

-- The zero value of a missing key.
unfoldable pub get_failures : Text → List FailureState → FailureState
unfolding blank_failures
get_failures addr fs = elim (select_first (failures_of addr) fs) [
  | none ↦ blank_failures addr
  | some f ↦ f
]

-- The fifth failure locks the address for ten minutes and starts the count anew.
unfoldable pub count_failure : ℕ → FailureState → FailureState
count_failure now f =
    if leb 5 (suc f.count)
    then record f { count = 0; until = now + failure_window; last_failed = now }
    else record f { count = suc f.count; last_failed = now }

unfoldable pub drop_failures : Text → List FailureState → List FailureState
drop_failures addr = select_where (λ f. not (failures_of addr f))

unfoldable pub put_failures : Text → FailureState → List FailureState → List FailureState
unfolding drop_failures
put_failures addr f fs = record f { remote_addr = addr } ∷ drop_failures addr fs

unfoldable pub put_session : Text → ℕ → List Session → List Session
put_session token expires ss =
    record { token = token; expires = expires } ∷ select_where (λ s. not (session_is token s)) ss

-- `accepts` is bcrypt's comparison with the stored hash.
unfoldable pub login : (Text → Bool) → Text → Text → Option Text → ℕ → Auth → Auth × Option Text
unfolding cleanup_expired get_failures count_failure put_failures put_session
login accepts addr password draw now a =
    let a' = cleanup_expired now a in
    let state = get_failures addr a'.max_failures in
    if ltb now state.until
    then (a', none)
    else if accepts password
    then (let cleared = record a' { max_failures = drop_failures addr a'.max_failures } in
        elim draw [
          | none ↦ (cleared, none)
          | some token ↦ (
            record cleared { sessions = put_session token (now + a'.session_ttl) cleared.sessions },
            some token,
          )
        ])
    else (
      record a' { max_failures = put_failures addr (count_failure now state) a'.max_failures },
      none,
    )

unfoldable pub valid : Text → ℕ → Auth → Auth × Bool
unfolding cleanup_expired
valid token now a =
    let a' = cleanup_expired now a in (a', exists_where (session_is token) a'.sessions)

unfoldable pub logout : Text → Auth → Auth
logout token a = record a {
  sessions = select_where (λ s. not (session_is token s)) a.sessions;
  csrf_tokens = select_where (λ c. not (csrf_of token c)) a.csrf_tokens;
}
