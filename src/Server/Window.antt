-- ===== src/Server/Window.antt =====
-- The rate limiter lets at most its limit through in any window.
use relay_scope.Base.{
  ℕ, ◌<◌, ◌≤◌, ◌≡◌, ◌∙◌, refl, sym, ap, subst, inl, inr, true, false, not, ◌&&◌, List, [], ◌∷◌,
  ◌++◌, leb, ◌==◌, ==_iff, if◌then◌else◌, arith, Bool-cases, length, select_where, count_where,
}
use relay_scope.Server.Events.{
  in_window, events_put_self, events_put_other, refine, select-append, count-append, count_recent,
}
use relay_scope.Server.{RateLimiter, new_rate_limiter, events_of, is_recent, allow}

-- Calls of keys at times that do not fall.
abbrev pub IsAscending : ℕ → List (ℕ × ℕ) → Type 0
IsAscending now [] = Unit
IsAscending now ((key, t) ∷ calls) = (now ≤ t) × IsAscending t calls

-- The times at which calls of a key were let through, behind those before.
unfoldable pub passed : ℕ → List ℕ → List (ℕ × ℕ) → RateLimiter → List ℕ
passed k before [] l = before
passed k before ((key, t) ∷ calls) l =
    let (l', allowed) = allow key t l in
    passed k (if key == k && allowed then before ++ t ∷ [] else before) calls l'

-- The events of a key are those let through that are still recent, and no window has too many.
record IsLimited (k now : ℕ) (h : List ℕ) (l : RateLimiter) : Type 0 where
  same :
      select_where (is_recent l.window now) (events_of k l.events)
      ≡ select_where (is_recent l.window now) h
  bound : (end : ℕ) → count_where (in_window l.window end) h ≤ l.limit

-- Later the same holds.
later_same :
    (k now later : ℕ) (h : List ℕ) (l : RateLimiter)
    → now ≤ later
    → IsLimited k now h l
    → select_where (is_recent l.window later) (events_of k l.events)
      ≡ select_where (is_recent l.window later) h
later_same k now later h l le i =
    sym (refine l.window now later (events_of k l.events) le)
    ∙ ap (select_where (is_recent l.window later)) i.same
    ∙ refine l.window now later h le

room_left :
    (limit : ℕ) (xs ys : List ℕ) → xs ≡ ys → leb limit (length xs) ≡ false → length ys < limit
room_left limit xs ys e h =
    let same : length xs ≡ length ys = ap length e in ground (arith, same, h)

one_more :
    (w now end limit : ℕ) (h : List ℕ)
    → count_where (in_window w end) h ≤ limit
    → length (select_where (is_recent w now) h) < limit
    → count_where (in_window w end) (h ++ now ∷ []) ≤ limit
one_more w now end limit h few room = elim (Bool-cases (in_window w end now)) [
  | inl inside ↦
      let recent = count_recent w now end h (ground (arith, inside)) in
      rw (count-append (in_window w end) h now) (rw inside (omega arith))
  | inr outside ↦ rw (count-append (in_window w end) h now) (rw outside (omega arith))
]

stopped :
    (k now later : ℕ) (h : List ℕ) (l : RateLimiter)
    → now ≤ later
    → leb l.limit (length (select_where (is_recent l.window later) (events_of k l.events))) ≡ true
    → IsLimited k now h l
    → IsLimited k later h (allow k later l).0
unfolding allow
stopped k now later h l le full i =
    let recent = select_where (is_recent l.window later) (events_of k l.events) in
    rw full (record {
      same =
          ap (select_where (is_recent l.window later)) (events_put_self k recent l.events)
          ∙ refine l.window later later (events_of k l.events) (omega arith)
          ∙ later_same k now later h l le i;
      bound = i.bound;
    })

-- A call of another key.
passed_by :
    (k key now later : ℕ) (h : List ℕ) (l : RateLimiter)
    → (key == k) ≡ false
    → now ≤ later
    → IsLimited k now h l
    → IsLimited k later h (allow key later l).0
unfolding allow
passed_by k key now later h l ne le i =
    let recent = select_where (is_recent l.window later) (events_of key l.events) in
    elim (Bool-cases (leb l.limit (length recent))) [
      | inl full ↦ rw full (record {
        same =
            ap (select_where (is_recent l.window later)) (events_put_other k key recent l.events ne)
            ∙ later_same k now later h l le i;
        bound = i.bound;
      })
      | inr room ↦ rw room (record {
        same =
            ap (select_where (is_recent l.window later))
              (events_put_other k key (recent ++ later ∷ []) l.events ne)
            ∙ later_same k now later h l le i;
        bound = i.bound;
      })
    ]

let_through :
    (k now later : ℕ) (h : List ℕ) (l : RateLimiter)
    → now ≤ later
    → leb l.limit (length (select_where (is_recent l.window later) (events_of k l.events))) ≡ false
    → IsLimited k now h l
    → IsLimited k later (h ++ later ∷ []) (allow k later l).0
unfolding allow
let_through k now later h l le room i =
    let recent = select_where (is_recent l.window later) (events_of k l.events) in
    let kept = later_same k now later h l le i in
    rw room (record {
      same =
          ap (select_where (is_recent l.window later))
            (events_put_self k (recent ++ later ∷ []) l.events)
          ∙ select-append (is_recent l.window later) recent later
          ∙ ap (λ xs. xs ++ select_where (is_recent l.window later) (later ∷ []))
              (refine l.window later later (events_of k l.events) (omega arith) ∙ kept)
          ∙ sym (select-append (is_recent l.window later) h later);
      bound = λ end.
          one_more l.window later end l.limit h (i.bound end)
            (room_left l.limit recent (select_where (is_recent l.window later) h) kept room);
    })

allow-parts :
    (key now : ℕ) (l : RateLimiter)
    → ((allow key now l).0.window ≡ l.window)
      × ((allow key now l).0.limit ≡ l.limit)
      × ((allow key now l).1
          ≡ not (
              leb l.limit
                (length (select_where (is_recent l.window now) (events_of key l.events)))))
unfolding allow
allow-parts key now l = ground arith

own_call :
    (k key now t : ℕ) (h : List ℕ) (l : RateLimiter)
    → key ≡ k
    → now ≤ t
    → IsLimited k now h l
    → IsLimited k t (if (allow key t l).1 then h ++ t ∷ [] else h) (allow key t l).0
own_call k key now t h l e le i =
    subst (λ j. IsLimited k t (if (allow j t l).1 then h ++ t ∷ [] else h) (allow j t l).0) (sym e)
      (elim (Bool-cases
        (leb l.limit (length (select_where (is_recent l.window t) (events_of k l.events))))) [
          | inl full ↦ rw ((allow-parts k t l).2, full) (stopped k now t h l le full i)
          | inr room ↦ rw ((allow-parts k t l).2, room) (let_through k now t h l le room i)
        ])

one_call :
    (k key now t : ℕ) (h : List ℕ) (l : RateLimiter)
    → now ≤ t
    → IsLimited k now h l
    → IsLimited k t (if key == k && (allow key t l).1 then h ++ t ∷ [] else h) (allow key t l).0
one_call k key now t h l le i = elim (Bool-cases (key == k)) [
  | inr other ↦ rw other (passed_by k key now t h l other le i)
  | inl own ↦ rw own (own_call k key now t h l ((==_iff key k).0 own) le i)
]

calls_lem :
    (k now : ℕ) (h : List ℕ) (calls : List (ℕ × ℕ)) (l : RateLimiter) (end : ℕ)
    → IsAscending now calls
    → IsLimited k now h l
    → count_where (in_window l.window end) (passed k h calls l) ≤ l.limit
unfolding passed
calls_lem k now h [] l end up i = i.bound end
calls_lem k now h ((key, t) ∷ calls) l end up i =
    let parts = allow-parts key t l in
    let next = if key == k && (allow key t l).1 then h ++ t ∷ [] else h in
    let after = (allow key t l).0 in
    let rest =
      calls_lem k t (if key == k && (allow key t l).1 then h ++ t ∷ [] else h) calls
        (allow key t l).0 end up.1 (one_call k key now t h l up.0 i) in
    subst (λ w. count_where (in_window w end) (passed k next calls after) ≤ l.limit) parts.0
      (subst (λ n. count_where (in_window after.window end) (passed k next calls after) ≤ n) parts.1
        rest)

-- Of the calls of a key, made at times that do not fall, a new limiter lets at most its limit through in any window: of the
-- times at which calls passed, at most that many are at `end` or less than the window before it, for every `end`.
pub allow_bounds :
    (limit window k : ℕ) (calls : List (ℕ × ℕ)) (end : ℕ)
    → IsAscending 0 calls
    → count_where (in_window window end) (passed k [] calls (new_rate_limiter limit window)) ≤ limit
unfolding new_rate_limiter count_where events_of
allow_bounds limit window k calls end up =
    calls_lem k 0 [] calls (new_rate_limiter limit window) end up
      (record { same = refl; bound = λ e. none_yet window limit e })
  where
    none_yet : (w n e : ℕ) → count_where (in_window w e) [] ≤ n
    none_yet w n e = omega arith
