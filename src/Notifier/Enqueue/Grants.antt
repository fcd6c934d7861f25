-- ===== src/Notifier/Enqueue/Grants.antt =====
-- The free sites are the first that the user subscribed to.
use relay_scope.Base.{
  ℕ, ◌<◌, ◌≤◌, ◌≡◌, ◌≢◌, ◌∙◌, refl, sym, ap, subst, inl, inr, Bool, true, List, [], ◌∷◌, ◌++◌, map,
  ltb, if◌then◌else◌, length, take, arith, Bool-cases, All, Pairs, Pairs-mono, Pairs-select_where,
  select_where, length-append, take-append, take-short,
}
use mathlib.Core.List.{append_assoc}
use relay_scope.Store.Wishes.{insert_by, sort_by}
use relay_scope.Store.Notifications.{Mail, Subscription}
use relay_scope.Store.Notifications.Channels.{
  is_of_user, least_id, has_site, groups_from, distinct_subscription_sites, list_user_subscriptions,
}
use relay_scope.Store.Wishes.Sorting.{All-sort_by}
use relay_scope.Store.Notifications.Ids.{IsOlder, IsInOrder}
use relay_scope.Notifier.Enqueue.{first_sites, free_grant, only, free_push_sites}

abbrev by_id : Subscription → Subscription → Bool
by_id a b = ltb a.id b.id

abbrev by_date : Subscription → Subscription → Bool
by_date a b = ltb b.created_at a.created_at

-- Insertions of two rows with different ids commute.
insert_comm :
    (a b : Subscription) (rows : List Subscription)
    → a.id ≢ b.id
    → insert_by by_id a (insert_by by_id b rows) ≡ insert_by by_id b (insert_by by_id a rows)
unfolding insert_by
insert_comm a b [] ne = ground arith
insert_comm a b (r ∷ rows) ne = ground (arith, insert_comm a b rows ne)

-- A sort by id forgets an insertion by date.
sort-insert :
    (a : Subscription) (rows : List Subscription)
    → All (λ r. a.id ≢ r.id) rows
    → sort_by by_id (insert_by by_date a rows) ≡ insert_by by_id a (sort_by by_id rows)
unfolding insert_by sort_by
sort-insert a [] ne = refl
sort-insert a (r ∷ rows) ne = elim (Bool-cases (by_date r a)) [
  | inl later ↦ rw later (
      ap (insert_by by_id r) (sort-insert a rows ne.1)
      ∙ insert_comm r a (sort_by by_id rows) (λ e. ne.0 (sym e)))
  | inr first ↦ rw first refl
]

abbrev IsApart : Subscription → Subscription → Type 0
IsApart a b = a.id ≢ b.id

sort-sort :
    (rows : List Subscription)
    → Pairs IsApart rows
    → sort_by by_id (sort_by by_date rows) ≡ sort_by by_id rows
unfolding sort_by
sort-sort [] apart = refl
sort-sort (a ∷ rows) apart =
    sort-insert a (sort_by by_date rows) (All-sort_by (IsApart a) by_date rows apart.0)
    ∙ ap (insert_by by_id a) (sort-sort rows apart.1)

insert-first :
    (a : Subscription) (rows : List Subscription)
    → All (IsOlder a) rows
    → insert_by by_id a rows ≡ a ∷ rows
unfolding insert_by
insert-first a [] older = refl
insert-first a (r ∷ rows) older = ground arith

sort-sorted : (rows : List Subscription) → Pairs IsOlder rows → sort_by by_id rows ≡ rows
unfolding sort_by
sort-sorted [] older = refl
sort-sorted (a ∷ rows) older = rw (sort-sorted rows older.1) (insert-first a rows older.0)

-- The groups of rows in the order of their ids.
abbrev starts : List ℕ → List Subscription → List (ℕ × ℕ)
starts seen [] = []
starts seen (s ∷ rest) =
    let more = starts (s.site_id ∷ seen) rest in
    let same = starts seen rest in
    if has_site s.site_id seen then same else (s.site_id, s.id) ∷ more

least_lem :
    (site id : ℕ) (rows : List Subscription)
    → All (λ r. id < r.id) rows
    → least_id site id rows ≡ id
least_lem site id [] h = refl
least_lem site id (r ∷ rows) h = ground (arith, least_lem site id rows)

groups-starts :
    (seen : List ℕ) (rows : List Subscription)
    → Pairs IsOlder rows
    → groups_from seen rows ≡ starts seen rows
unfolding groups_from
groups-starts seen [] older = refl
groups-starts seen (s ∷ rest) older = ground (
  arith,
  least_lem s.site_id s.id rest older.0,
  groups-starts (s.site_id ∷ seen) rest older.1,
  groups-starts seen rest older.1,
)

abbrev first_id : ℕ × ℕ → ℕ × ℕ → Bool
first_id a b = ltb a.1 b.1

starts-above :
    (id : ℕ) (seen : List ℕ) (rows : List Subscription)
    → All (λ r. id < r.id) rows
    → All (λ (g : ℕ × ℕ). id < g.1) (starts seen rows)
starts-above id seen [] h = tt
starts-above id seen (s ∷ rest) h = elim (Bool-cases (has_site s.site_id seen)) [
  | inl old ↦ rw old (starts-above id seen rest h.1)
  | inr new ↦ rw new (h.0, starts-above id (s.site_id ∷ seen) rest h.1)
]

group-first :
    (g : ℕ × ℕ) (rows : List (ℕ × ℕ))
    → All (λ (h : ℕ × ℕ). g.1 < h.1) rows
    → insert_by first_id g rows ≡ g ∷ rows
unfolding insert_by
group-first g [] h = refl
group-first g (r ∷ rows) h = ground arith

starts-sorted :
    (seen : List ℕ) (rows : List Subscription)
    → Pairs IsOlder rows
    → sort_by first_id (starts seen rows) ≡ starts seen rows
unfolding sort_by
starts-sorted seen [] older = refl
starts-sorted seen (s ∷ rest) older = elim (Bool-cases (has_site s.site_id seen)) [
  | inl old ↦ rw old (starts-sorted seen rest older.1)
  | inr new ↦
      rw (new, starts-sorted (s.site_id ∷ seen) rest older.1)
        (group-first (s.site_id, s.id) (starts (s.site_id ∷ seen) rest)
          (starts-above s.id (s.site_id ∷ seen) rest older.0))
]

full_take : (xs ys zs : List ℕ) → length xs ≡ 3 → take 3 (xs ++ ys) ≡ take 3 (xs ++ zs)
full_take xs ys zs e =
    subst (λ n. take n (xs ++ ys) ≡ take n (xs ++ zs)) e
      (take-append xs ys ∙ sym (take-append xs zs))

less : (a b : ℕ) → ltb a b ≡ true → a < b
less a b h = ground arith

ne_of_older : (a b : Subscription) → a.id < b.id → a.id ≢ b.id
ne_of_older a b h e = absurd (omega arith)

-- What the loop takes, with the sites it has.
first_sites-starts :
    (seen allowed : List ℕ) (rows : List Subscription)
    → length allowed ≤ 3
    → first_sites seen allowed rows ≡ take 3 (allowed ++ map (λ g. g.0) (starts seen rows))
unfolding first_sites
first_sites-starts seen allowed [] few = sym (take-short 3 allowed few)
first_sites-starts seen allowed (s ∷ rest) few = elim (Bool-cases (has_site s.site_id seen)) [
  | inl old ↦ rw old (first_sites-starts seen allowed rest few)
  | inr new ↦ elim (Bool-cases (ltb (length allowed) free_push_sites)) [
    | inl room ↦
        rw (new, room)
          (first_sites-starts (s.site_id ∷ seen) (allowed ++ s.site_id ∷ []) rest
              (omega (arith, length-append allowed (s.site_id ∷ []), less (length allowed) 3 room))
            ∙ ap (take 3) (
                append_assoc allowed (s.site_id ∷ [])
                  (map (λ g. g.0) (starts (s.site_id ∷ seen) rest))))
    | inr full ↦
        rw (new, full)
          (first_sites-starts (s.site_id ∷ seen) allowed rest few
            ∙ full_take allowed (map (λ g. g.0) (starts (s.site_id ∷ seen) rest))
                (s.site_id ∷ map (λ g. g.0) (starts (s.site_id ∷ seen) rest))
                (ground (arith, full)))
  ]
]

-- Of a user who is no member, the loop allows the first three of the sites that the store lists, for a table in the
-- order of its ids.
pub free_grant-sites :
    (user : ℕ) (m : Mail)
    → IsInOrder m
    → free_grant user m ≡ only (take free_push_sites (distinct_subscription_sites user m))
unfolding free_grant list_user_subscriptions distinct_subscription_sites
free_grant-sites user m older =
    let rows = select_where (is_of_user user) m.subscriptions in
    let mine = Pairs-select_where IsOlder (is_of_user user) m.subscriptions older in
    let apart = Pairs-mono IsOlder IsApart rows (λ a b h. ne_of_older a b h) mine in
    let listed = sort-sort rows apart ∙ sort-sorted rows mine in
    let grouped = groups-starts [] rows mine in
    rw (listed, grouped, starts-sorted [] rows mine)
      (ap only (first_sites-starts [] [] rows (omega arith)))
