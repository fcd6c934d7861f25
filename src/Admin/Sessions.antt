-- ===== src/Admin/Sessions.antt =====
-- A session is valid from its login to its expiry or its logout.
use relay_scope.Base.{
  ℕ, ◌+◌, ◌≡◌, refl, inl, inr, Bool, false, not, Option, none, some, List, [], ◌∷◌, ltb, arith,
  Bool-cases, Option-cases, select_first, select_where, exists_where,
}
use relay_scope.Base.Texts.{Text, text_eq_refl}
use relay_scope.Admin.{
  Auth, Session, session_is, live, cleanup_expired, login, logout, valid, csrf_token, put_session,
  get_failures,
}

-- No row passes a test that a filter removes, or that fails on every row before it.
filtered :
    (token : Text) (ss : List Session)
    → exists_where (session_is token) (select_where (λ s. not (session_is token s)) ss) ≡ false
unfolding exists_where select_first select_where
filtered token [] = refl
filtered token (s ∷ ss) = ground (arith, filtered token ss)

still_absent :
    (token : Text) (p : Session → Bool) (ss : List Session)
    → exists_where (session_is token) ss ≡ false
    → exists_where (session_is token) (select_where p ss) ≡ false
unfolding exists_where select_first select_where
still_absent token p [] h = refl
still_absent token p (s ∷ ss) h = ground (arith, still_absent token p ss)

absent_first :
    (token : Text) (ss : List Session)
    → exists_where (session_is token) ss ≡ false
    → select_first (session_is token) ss ≡ none
unfolding exists_where
absent_first token ss h = ground (arith, h)

-- Once logged out, a session is neither valid nor does it have a CSRF token.
pub logout_ends :
    (token : Text) (now : ℕ) (a : Auth)
    → ((valid token now (logout token a)).1 ≡ false)
      × ((csrf_token token now (logout token a)).1 ≡ none)
unfolding valid logout cleanup_expired csrf_token
logout_ends token now a =
    let gone = still_absent token (live now) _ (filtered token a.sessions) in
    (gone, ground (arith, absent_first token _ gone))

added :
    (token : Text) (expires now : ℕ) (ss : List Session)
    → exists_where (session_is token) (select_where (live now) (put_session token expires ss))
      ≡ ltb now expires
unfolding exists_where select_first select_where put_session
added token expires now ss =
    let gone = still_absent token (live now) _ (filtered token ss) in
    elim (Bool-cases (ltb now expires)) [
      | inl alive ↦ ground (arith, alive, text_eq_refl token)
      | inr over ↦ ground (arith, over, gone)
    ]

token_given :
    (accepts : Text → Bool) (addr password token : Text) (draw : Option Text) (now : ℕ)
    (a a' : Auth)
    → login accepts addr password draw now a ≡ (a', some token)
    → a'.sessions ≡ put_session token (now + a.session_ttl) (select_where (live now) a.sessions)
unfolding login cleanup_expired
token_given accepts addr password token draw now a a' h =
    elim (Bool-cases (ltb now (get_failures addr (cleanup_expired now a).max_failures).until)) [
      | inl locked ↦ absurd (ground (arith, locked))
      | inr open_ ↦ elim (Bool-cases (accepts password)) [
        | inr wrong ↦ absurd (ground (arith, wrong, open_))
        | inl right ↦ elim (Option-cases draw) [
          | inl empty ↦ absurd (ground (arith, right, open_, empty))
          | inr (t, drawn) ↦ ground (arith, right, open_, drawn)
        ]
      ]
    ]

-- A login that gives out a token makes exactly that session valid until its time to live is over, also
-- if the token was in use before.
pub login-valid :
    (accepts : Text → Bool) (addr password token : Text) (draw : Option Text) (now later : ℕ)
    (a a' : Auth)
    → login accepts addr password draw now a ≡ (a', some token)
    → (valid token later a').1 ≡ ltb later (now + a.session_ttl)
unfolding valid cleanup_expired
login-valid accepts addr password token draw now later a a' h =
    let e = token_given accepts addr password token draw now a a' h in
    rw e (added token (now + a.session_ttl) later (select_where (live now) a.sessions))
