-- ===== src/Server/Events.antt =====
-- The events of the rate limiter, and windows on them.
use relay_scope.Base.{
  ℕ, ◌+◌, ◌≤◌, ◌≡◌, refl, Bool, false, ◌&&◌, List, [], ◌∷◌, ◌++◌, ltb, leb, ◌==◌, if◌then◌else◌,
  arith, length, select_where, count_where,
}
use relay_scope.Server.{events_of, put_events, is_recent}

-- The times in the window that ends at `end`.
abbrev pub in_window : ℕ → ℕ → ℕ → Bool
in_window window end t = leb t end && ltb end (t + window)

pub events_put_self :
    (k : ℕ) (times : List ℕ) (events : List (ℕ × List ℕ))
    → events_of k (put_events k times events) ≡ times
unfolding events_of put_events
events_put_self k times [] = ground arith
events_put_self k times ((j, old) ∷ rest) = ground (arith, events_put_self k times rest)

pub events_put_other :
    (k key : ℕ) (times : List ℕ) (events : List (ℕ × List ℕ))
    → (key == k) ≡ false
    → events_of k (put_events key times events) ≡ events_of k events
unfolding events_of put_events
events_put_other k key times [] ne = ground arith
events_put_other k key times ((j, old) ∷ rest) ne =
    ground (arith, events_put_other k key times rest)

-- What is recent later was recent before.
pub refine :
    (w now later : ℕ) (times : List ℕ)
    → now ≤ later
    → select_where (is_recent w later) (select_where (is_recent w now) times)
      ≡ select_where (is_recent w later) times
unfolding select_where
refine w now later [] le = refl
refine w now later (t ∷ times) le = ground (arith, refine w now later times)

pub select-append :
    (p : ℕ → Bool) (xs : List ℕ) (x : ℕ)
    → select_where p (xs ++ x ∷ []) ≡ select_where p xs ++ select_where p (x ∷ [])
unfolding select_where
select-append p [] x = refl
select-append p (y ∷ ys) x = ground (arith, select-append p ys x)

pub count-append :
    (p : ℕ → Bool) (xs : List ℕ) (x : ℕ)
    → count_where p (xs ++ x ∷ []) ≡ count_where p xs + (if p x then 1 else 0)
unfolding count_where
count-append p [] x = ground arith
count-append p (y ∷ ys) x = ground (arith, count-append p ys x)

-- A window that reaches `now` has only times that are recent then.
pub count_recent :
    (w now end : ℕ) (times : List ℕ)
    → now ≤ end
    → count_where (in_window w end) times ≤ length (select_where (is_recent w now) times)
unfolding count_where select_where
count_recent w now end [] le = omega arith
count_recent w now end (t ∷ times) le = ground (arith, count_recent w now end times)
