-- ===== src/Scheduler/Workers.antt =====
-- One worker for a site.
use relay_scope.Base.{
  ℕ, ◌+◌, ◌*◌, ◌≤◌, ◌≡◌, ◌≢◌, ◌/◌, ◌%◌, refl, inl, inr, false, Option, List, [], ◌∷◌, ◌==◌, arith,
  Bool-cases, select_where, All, Pairs, ap, sym, subst, ◌∙◌, ◌<◌,
}
use native.Mathlib.Nat.{mod-lt}
use relay_scope.Scheduler.{
  Site, Scheduler, is_active, release, dispatch_site, dispatch, finish, remove_one,
  collection_delay, random_jitter, next_run,
}

-- The active set names the running workers, each once.
pub record IsExclusive (x : Scheduler) : Type 0 where
  pub same : x.active ≡ x.workers
  pub once : Pairs (λ (i j : ℕ). i ≢ j) x.active

inactive : (i : ℕ) (is : List ℕ) → is_active is i ≡ false → All (λ j. i ≢ j) is
inactive i [] h = tt
inactive i (j ∷ is) h = (ground (arith, h), inactive i is (ground (arith, h)))

dispatch_site-IsExclusive :
    (s : Site) (x : Scheduler) → IsExclusive x → IsExclusive (dispatch_site s x)
unfolding dispatch_site
dispatch_site-IsExclusive s x h = elim (Bool-cases (is_active x.active s.id)) [
  | inl taken ↦ rw (taken, dispatch_site) h
  | inr free ↦
      rw (free, dispatch_site)
        (record {
          same = ap (λ is. s.id ∷ is) h.same;
          once = (inactive s.id x.active free, h.once);
        })
]

pub dispatch-IsExclusive :
    (due : List Site) (x : Scheduler) → IsExclusive x → IsExclusive (dispatch due x)
unfolding dispatch
dispatch-IsExclusive [] x h = h
dispatch-IsExclusive (s ∷ due) x h =
    dispatch-IsExclusive due (dispatch_site s x) (dispatch_site-IsExclusive s x h)

release-absent : (id : ℕ) (is : List ℕ) → All (λ j. id ≢ j) is → release id is ≡ is
unfolding release select_where
release-absent id [] h = refl
release-absent id (i ∷ is) h = ground (arith, h.0, release-absent id is h.1)

All-remove_one : (P : ℕ → Type 0) (id : ℕ) (is : List ℕ) → All P is → All P (remove_one id is)
All-remove_one P id [] h = tt
All-remove_one P id (i ∷ is) h = elim (Bool-cases (i == id)) [
  | inl hit ↦ rw hit h.1
  | inr miss ↦ rw miss (h.0, All-remove_one P id is h.1)
]

Pairs-remove_one :
    (id : ℕ) (is : List ℕ)
    → Pairs (λ (i j : ℕ). i ≢ j) is
    → Pairs (λ (i j : ℕ). i ≢ j) (remove_one id is)
Pairs-remove_one id [] h = tt
Pairs-remove_one id (i ∷ is) h = elim (Bool-cases (i == id)) [
  | inl hit ↦ rw hit h.1
  | inr miss ↦ rw miss (All-remove_one (λ j. i ≢ j) id is h.0, Pairs-remove_one id is h.1)
]

release-remove_one :
    (id : ℕ) (is : List ℕ) → Pairs (λ (i j : ℕ). i ≢ j) is → release id is ≡ remove_one id is
unfolding release select_where
release-remove_one id [] h = refl
release-remove_one id (i ∷ is) h = elim (Bool-cases (i == id)) [
  | inl hit ↦
      let e : i ≡ id = ground (arith, hit) in
      rw hit (release-absent id is (subst (λ k. All (λ j. k ≢ j) is) e h.0))
  | inr miss ↦ rw miss (ap (λ js. i ∷ js) (release-remove_one id is h.1))
]

finish-IsExclusive :
    (id now draw : ℕ) (latest : Option Site) (x : Scheduler)
    → IsExclusive x
    → IsExclusive (finish id latest now draw x)
unfolding finish
finish-IsExclusive id now draw latest x h = record {
  same = release-remove_one id x.active h.once ∙ ap (remove_one id) h.same;
  once =
      subst (Pairs (λ (i j : ℕ). i ≢ j)) (sym (release-remove_one id x.active h.once))
        (Pairs-remove_one id x.active h.once);
}

-- Rounds of dispatch and ends of workers, in any order.
pub data Step : Scheduler → Scheduler → Type 0 where
  dispatched : (due : List Site) (x : Scheduler) → Step x (dispatch due x)
  finished :
      (id now draw : ℕ) (latest : Option Site) (x : Scheduler)
      → Step x (finish id latest now draw x)

pub data Reach (start : Scheduler) : Scheduler → Type 0 where
  here : Reach start start
  next : {x y : Scheduler} → Reach start x → Step x y → Reach start y

Step-IsExclusive : {x y : Scheduler} → Step x y → IsExclusive x → IsExclusive y
Step-IsExclusive (dispatched due x) h = dispatch-IsExclusive due x h
Step-IsExclusive (finished id now draw latest x) h = finish-IsExclusive id now draw latest x h

-- However dispatch rounds and ends of workers follow one another, no two workers run for one site, and
-- the active set is exactly the sites with a running worker.
pub Reach-IsExclusive : {x y : Scheduler} → IsExclusive x → Reach x y → IsExclusive y
Reach-IsExclusive h here = h
Reach-IsExclusive h (next r s) = Step-IsExclusive s (Reach-IsExclusive h r)

below : (q max d : ℕ) → q * 1000000 ≤ max → d % (q + 1) * 1000000 ≤ max
below q max d h = let m : d % (q + 1) < q + 1 = mod-lt d (omega arith) in omega (arith, m, h)

jitter-le : (max draw : ℕ) → random_jitter max draw ≤ max
unfolding random_jitter
jitter-le max draw = elim (Bool-cases (max == 0)) [
  | inl zero ↦ ground (arith, zero)
  | inr positive ↦ rw positive (below (max / 1000000) max draw (omega arith))
]

-- The next run is after now, by at least the delay of the site's state and by at most the jitter more.
pub next_run_bounds :
    (now draw : ℕ) (s : Site)
    → (now + collection_delay s ≤ next_run now s draw)
      × (next_run now s draw ≤ now + collection_delay s + s.jitter)
      × (now < next_run now s draw)
unfolding next_run collection_delay
next_run_bounds now draw s =
    (ground arith, (let j = jitter-le s.jitter draw in ground (arith, j)), ground arith)
