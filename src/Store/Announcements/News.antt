-- ===== src/Store/Announcements/News.antt =====
-- A version of an announcement is news once.
use relay_scope.Base.{
  ℕ, ◌<◌, ◌≤◌, ◌≡◌, refl, inl, inr, Bool, true, false, not, ◌&&◌, ◌||◌, List, [], ◌∷◌, ◌++◌, ◌==◌,
  arith, Bool-cases, All, All-mono, All-append, Pairs, select_first, exists_where,
  exists_where-append, ◌∙◌, ap,
}
use relay_scope.Base.Texts.{Text, text_eq, text_eq_refl}
use relay_scope.Store.Announcements.{
  SiteAnnouncement, Version, version_is, remember_announcement_version,
}

unfoldable pub has_version : Version → List Version → Bool
has_version v versions = exists_where (version_is v.0 v.1) versions

abbrev pub version_of : SiteAnnouncement → Version
version_of a = (a.id, a.content_hash)

has_version-append :
    (v : Version) (versions : List Version) (id : ℕ) (hash : Text)
    → has_version v (versions ++ (id, hash) ∷ [])
      ≡ (has_version v versions || (id == v.0 && text_eq hash v.1))
unfolding has_version exists_where select_first
has_version-append v versions id hash =
    exists_where-append (version_is v.0 v.1) versions ((id, hash) ∷ []) ∙ ground arith

-- What is known after a version was remembered.
pub has-remember :
    (v : Version) (id : ℕ) (hash : Text) (versions : List Version)
    → has_version v versions ≡ true
    → has_version v (remember_announcement_version id hash versions).0 ≡ true
unfolding remember_announcement_version
has-remember v id hash versions h = ground (arith, has_version-append v versions id hash)

pub remembered :
    (id : ℕ) (hash : Text) (versions : List Version)
    → has_version (id, hash) (remember_announcement_version id hash versions).0 ≡ true
unfolding has_version remember_announcement_version
remembered id hash versions =
    ground (arith, has_version-append (id, hash) versions id hash, text_eq_refl hash)

-- The second part of the answer is exactly whether the version was unknown.
pub unseen_lem :
    (id : ℕ) (hash : Text) (versions : List Version)
    → (remember_announcement_version id hash versions).1 ≡ not (has_version (id, hash) versions)
unfolding has_version remember_announcement_version
unseen_lem id hash versions = ground arith

-- An id that no version has.
pub new_version :
    (v : Version) (bound : ℕ) (versions : List Version)
    → All (λ w. w.0 < bound) versions
    → bound ≤ v.0
    → has_version v versions ≡ false
unfolding has_version exists_where select_first
new_version v bound [] h le = refl
new_version v bound (w ∷ rest) h le = ground (arith, new_version v bound rest)

pub remember-below :
    (bound id : ℕ) (hash : Text) (versions : List Version)
    → id < bound
    → All (λ w. w.0 < bound) versions
    → All (λ w. w.0 < bound) (remember_announcement_version id hash versions).0
unfolding remember_announcement_version
remember-below bound id hash versions lt h =
    elim (Bool-cases (exists_where (version_is id hash) versions)) [
      | inl old ↦ rw old h
      | inr new ↦ rw new (All-append (λ w. w.0 < bound) versions ((id, hash) ∷ []) h (lt, tt))
    ]

abbrev pub Differ : Version → Version → Type 0
Differ v w = ¬ (v ≡ w)

-- What a step from one set of versions to another may report.
pub record IsNews (old new : List Version) (news : List SiteAnnouncement) : Type 0 where
  pub grows : (v : Version) → has_version v old ≡ true → has_version v new ≡ true
  pub fresh : All (λ a. has_version (version_of a) old ≡ false) news
  pub kept : All (λ a. has_version (version_of a) new ≡ true) news
  pub distinct : Pairs (λ a b. Differ (version_of a) (version_of b)) news

pub no-IsNews :
    (old new : List Version)
    → ((v : Version) → has_version v old ≡ true → has_version v new ≡ true)
    → IsNews old new []
no-IsNews old new grows = record { grows = grows; fresh = tt; kept = tt; distinct = tt }

pub one-IsNews :
    (old new : List Version) (a : SiteAnnouncement)
    → ((v : Version) → has_version v old ≡ true → has_version v new ≡ true)
    → has_version (version_of a) old ≡ false
    → has_version (version_of a) new ≡ true
    → IsNews old new (a ∷ [])
one-IsNews old new a grows fresh kept = record {
  grows = grows;
  fresh = (fresh, tt);
  kept = (kept, tt);
  distinct = (tt, tt);
}

-- Of two steps in a row the second reports nothing that the first did.
abbrev Apart : List SiteAnnouncement → List SiteAnnouncement → Type 0
Apart xs ys = All (λ a. All (λ b. Differ (version_of a) (version_of b)) ys) xs

Pairs-append :
    (xs ys : List SiteAnnouncement)
    → Pairs (λ a b. Differ (version_of a) (version_of b)) xs
    → Pairs (λ a b. Differ (version_of a) (version_of b)) ys
    → Apart xs ys
    → Pairs (λ a b. Differ (version_of a) (version_of b)) (xs ++ ys)
Pairs-append [] ys p q r = q
Pairs-append (x ∷ xs) ys p q r = (
  All-append (λ b. Differ (version_of x) (version_of b)) xs ys p.0 r.0,
  Pairs-append xs ys p.1 q r.1,
)

Differ-all :
    (v : Version) (middle : List Version) (ys : List SiteAnnouncement)
    → has_version v middle ≡ true
    → All (λ b. has_version (version_of b) middle ≡ false) ys
    → All (λ b. Differ v (version_of b)) ys
Differ-all v middle [] h k = tt
Differ-all v middle (y ∷ ys) h k =
    (λ e. cc (ap (λ w. has_version w middle) e), Differ-all v middle ys h k.1)

apart :
    (middle : List Version) (xs ys : List SiteAnnouncement)
    → All (λ a. has_version (version_of a) middle ≡ true) xs
    → All (λ b. has_version (version_of b) middle ≡ false) ys
    → Apart xs ys
apart middle [] ys h k = tt
apart middle (x ∷ xs) ys h k = (Differ-all (version_of x) middle ys h.0 k, apart middle xs ys h.1 k)

pub not_before :
    (old middle : List Version)
    → ((v : Version) → has_version v old ≡ true → has_version v middle ≡ true)
    → (v : Version) → has_version v middle ≡ false
    → has_version v old ≡ false
not_before old middle grows v h = elim (Bool-cases (has_version v old)) [
  | inl t ↦ absurd (cc (grows v t))
  | inr f ↦ f
]

pub IsNews-append :
    (old middle new : List Version) (xs ys : List SiteAnnouncement)
    → IsNews old middle xs
    → IsNews middle new ys
    → IsNews old new (xs ++ ys)
IsNews-append old middle new xs ys p q = record {
  grows = λ v h. q.grows v (p.grows v h);
  fresh =
      All-append (λ a. has_version (version_of a) old ≡ false) xs ys p.fresh
        (All-mono (λ a. has_version (version_of a) middle ≡ false)
          (λ a. has_version (version_of a) old ≡ false) ys
          (λ a. not_before old middle p.grows (version_of a)) q.fresh);
  kept =
      All-append (λ a. has_version (version_of a) new ≡ true) xs ys
        (All-mono (λ a. has_version (version_of a) middle ≡ true)
          (λ a. has_version (version_of a) new ≡ true) xs (λ a. q.grows (version_of a)) p.kept)
        q.kept;
  distinct = Pairs-append xs ys p.distinct q.distinct (apart middle xs ys p.kept q.fresh);
}
