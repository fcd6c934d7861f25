-- ===== src/Scheduler.antt =====
-- internal/scheduler/scheduler.go: a due site is collected by one worker at a time, and its next run is
-- set after the collection. Times and delays are nanoseconds. The store's answer about due sites, the
-- collector and the random jitter are arguments.
pub mod Workers
use relay_scope.Base.{
  ℕ, ◌+◌, ◌*◌, ◌%◌, ◌/◌, Bool, true, false, not, ◌&&◌, ◌||◌, Option, none, some, List, [], ◌∷◌, ltb,
  ◌==◌, if◌then◌else◌, select_where,
}

pub data AcquisitionState : Type 0 where
  fresh stale collecting collection_failed : AcquisitionState
  login_expired challenge_pending challenge_failed : AcquisitionState

-- What the scheduler reads of a site.
pub record Site : Type 0 where
  pub id : ℕ
  pub acquisition_state : AcquisitionState
  pub interval : ℕ
  pub jitter : ℕ

abbrev pub millisecond : ℕ
millisecond = 1000000

abbrev pub minute : ℕ
minute = 60 * 1000 * millisecond

abbrev pub needs_pause : AcquisitionState → Bool
needs_pause collection_failed = true
needs_pause login_expired = true
needs_pause challenge_pending = true
needs_pause challenge_failed = true
needs_pause _ = false

unfoldable pub collection_delay : Site → ℕ
collection_delay s =
    if needs_pause s.acquisition_state
    then 30 * minute
    else if s.interval == 0
    then 15 * minute
    else s.interval

-- `draw` is the number that the random source gives, reduced to 0 … max in milliseconds.
unfoldable pub random_jitter : ℕ → ℕ → ℕ
random_jitter max draw = if max == 0 then 0 else draw % (max / millisecond + 1) * millisecond

unfoldable pub next_run : ℕ → Site → ℕ → ℕ
unfolding collection_delay random_jitter
next_run now s draw = now + collection_delay s + random_jitter s.jitter draw

abbrev pub is_active : List ℕ → ℕ → Bool
is_active [] id = false
is_active (i ∷ active) id = i == id || is_active active id

-- The set of sites that are being collected, and whether the claim succeeds.
unfoldable pub try_claim : ℕ → List ℕ → List ℕ × Bool
try_claim id active = if is_active active id then (active, false) else (id ∷ active, true)

unfoldable pub release : ℕ → List ℕ → List ℕ
release id active = select_where (λ i. not (i == id)) active

-- The scheduler: the active set, the workers that run, and the runs that are set.
pub record Scheduler : Type 0 where
  pub active : List ℕ
  pub workers : List ℕ
  pub next_runs : List (ℕ × ℕ)

-- The body of the loop of dispatch: a worker starts if the claim succeeds.
unfoldable pub dispatch_site : Site → Scheduler → Scheduler
unfolding try_claim
dispatch_site s x =
    let (active', claimed) = try_claim s.id x.active in
    if claimed then record x { active = active'; workers = s.id ∷ x.workers } else x

unfoldable pub dispatch : List Site → Scheduler → Scheduler
unfolding dispatch_site
dispatch [] x = x
dispatch (s ∷ due) x = dispatch due (dispatch_site s x)

abbrev pub remove_one : ℕ → List ℕ → List ℕ
remove_one id [] = []
remove_one id (i ∷ is) = if i == id then is else i ∷ remove_one id is

-- The end of a worker: the next run is set from the site as it is now (`none` if it cannot be read),
-- and then the deferred release runs.
unfoldable pub finish : ℕ → Option Site → ℕ → ℕ → Scheduler → Scheduler
unfolding next_run release
finish id latest now draw x = record x {
  active = release id x.active;
  workers = remove_one id x.workers;
  next_runs = elim latest [ none ↦ x.next_runs | some s ↦ (id, next_run now s draw) ∷ x.next_runs ];
}
