-- ===== src/Store/Announcements/Once.antt =====
-- One announcement after another, and one batch after another.
use relay_scope.Base.{
  ℕ, ◌<◌, ◌≡◌, max, suc, refl, inl, inr, Bool, true, false, not, ◌&&◌, List, [], ◌∷◌, ◌++◌, ◌==◌,
  arith, Bool-cases, Option-cases, All, All-mono, Pairs, select_first, update_where, exists_where,
  next_id, next_id_above, All-select_first,
}
use relay_scope.Base.Texts.{Text, is_empty, trim_space}
use relay_scope.Store.Announcements.{
  AnnouncementInput, SiteAnnouncement, Version, Board, Hash, announcement_is,
  remember_announcement_version, cleaned, hash_of, stored_hash, new_announcement, refreshed,
  news_of, if_news, insert_announcement, update_announcement, apply_announcement, apply_all,
  apply_announcements,
}
use relay_scope.Store.Announcements.News.{
  has_version, version_of, has-remember, remembered, unseen_lem, new_version, remember-below,
  Differ, IsNews, no-IsNews, one-IsNews, IsNews-append, not_before,
}

abbrev next_announcement : List SiteAnnouncement → ℕ
next_announcement rows = next_id (λ r. r.id) rows

-- Every version belongs to an id that is in use, or was.
abbrev pub IsFiled : Board → Type 0
IsFiled b = All (λ w. w.0 < next_announcement b.announcements) b.versions

next_id-append :
    (rows : List SiteAnnouncement) (a : SiteAnnouncement)
    → next_announcement (rows ++ a ∷ []) ≡ max (next_announcement rows) (suc a.id)
unfolding next_id
next_id-append [] a = omega arith
next_id-append (r ∷ rows) a = omega (arith, next_id-append rows a)

next_id-refresh :
    (content_hash : Hash) (now : ℕ) (a : AnnouncementInput) (p : SiteAnnouncement → Bool)
    (rows : List SiteAnnouncement)
    → next_announcement (update_where p (refreshed content_hash now a) rows)
      ≡ next_announcement rows
unfolding next_id update_where refreshed
next_id-refresh content_hash now a p [] = refl
next_id-refresh content_hash now a p (r ∷ rows) =
    ground (arith, next_id-refresh content_hash now a p rows)

-- What a step keeps and reports.
abbrev Step : Board → Board × List SiteAnnouncement → Type 0
Step b (b', news) = IsFiled b' × IsNews b.versions b'.versions news

reported :
    (backfill : Bool) (new : List Version) (a : SiteAnnouncement) (old : List Version)
    → ((v : Version) → has_version v old ≡ true → has_version v new ≡ true)
    → has_version (version_of a) old ≡ false
    → has_version (version_of a) new ≡ true
    → IsNews old new (if_news (not backfill) a)
reported true new a old grows fresh kept = no-IsNews old new grows
reported false new a old grows fresh kept = one-IsNews old new a grows fresh kept

known-IsNews :
    (backfill : Bool) (old seeded new : List Version) (a : SiteAnnouncement)
    → ((v : Version) → has_version v old ≡ true → has_version v seeded ≡ true)
    → ((v : Version) → has_version v seeded ≡ true → has_version v new ≡ true)
    → (unseen : Bool) → unseen ≡ not (has_version (version_of a) seeded)
    → has_version (version_of a) new ≡ true
    → IsNews old new (if_news (unseen && not backfill) a)
known-IsNews backfill old seeded new a seeds grows false e kept =
    no-IsNews old new (λ v h. grows v (seeds v h))
known-IsNews true old seeded new a seeds grows true e kept =
    no-IsNews old new (λ v h. grows v (seeds v h))
known-IsNews false old seeded new a seeds grows true e kept =
    one-IsNews old new a (λ v h. grows v (seeds v h))
      (not_before old seeded seeds (version_of a) (ground (arith, e))) kept

module _ (content_hash : Hash) (site : ℕ) (name : Text) (now : ℕ) (backfill : Bool) where
  insert_lem :
      (a : AnnouncementInput) (b : Board)
      → IsFiled b
      → Step b (insert_announcement content_hash site name now backfill a b)
  unfolding insert_announcement new_announcement
  insert_lem a b filed =
      let row = new_announcement content_hash site name now a b.announcements in
      let bound = next_id-append b.announcements row in
      let news =
        reported backfill (remember_announcement_version row.id row.content_hash b.versions).0 row
          b.versions (λ v h. has-remember v row.id row.content_hash b.versions h)
          (new_version (version_of row) row.id b.versions filed (omega arith))
          (remembered row.id row.content_hash b.versions) in
      (
        remember-below (next_announcement (b.announcements ++ row ∷ [])) row.id row.content_hash
            b.versions (omega arith)
            (All-mono (λ w. w.0 < next_announcement b.announcements)
              (λ w. w.0 < next_announcement (b.announcements ++ row ∷ [])) b.versions
              (λ w h. omega arith) filed),
        news,
      )

  update_lem :
      (a : AnnouncementInput) (r : SiteAnnouncement) (b : Board)
      → r.id < next_announcement b.announcements
      → IsFiled b
      → Step b (update_announcement content_hash name now backfill a r b)
  unfolding update_announcement news_of refreshed
  update_lem a r b below filed =
      let hash = hash_of content_hash a in
      let seed = stored_hash content_hash r in
      let seeded = (remember_announcement_version r.id seed b.versions).0 in
      let new = (remember_announcement_version r.id hash seeded).0 in
      let bound = next_id-refresh content_hash now a (λ x. x.id == r.id) b.announcements in
      (
        rw bound (
            remember-below (next_announcement b.announcements) r.id hash seeded below (
              remember-below (next_announcement b.announcements) r.id seed b.versions below filed)),
        known-IsNews backfill b.versions seeded new (news_of content_hash name now a r)
            (λ v h. has-remember v r.id seed b.versions h)
            (λ v h. has-remember v r.id hash seeded h)
            (remember_announcement_version r.id hash seeded).1 (unseen_lem r.id hash seeded)
            (remembered r.id hash seeded),
      )

  apply_lem :
      (a : AnnouncementInput) (b : Board)
      → IsFiled b
      → Step b (apply_announcement content_hash site name now backfill a b)
  unfolding apply_announcement
  apply_lem a b filed = elim (Bool-cases (is_empty (trim_space a.external_id))) [
    | inl nameless ↦ rw nameless (filed, no-IsNews b.versions b.versions (λ v h. h))
    | inr named ↦
        elim (Option-cases
          (select_first (announcement_is site (cleaned a).external_id) b.announcements)) [
            | inl absent ↦ rw (named, absent) (insert_lem (cleaned a) b filed)
            | inr (r, present) ↦
                rw (named, present)
                  (update_lem (cleaned a) r b
                    (All-select_first (λ x. x.id < next_announcement b.announcements)
                      (announcement_is site (cleaned a).external_id) b.announcements
                      (next_id_above (λ x. x.id) b.announcements) present)
                    filed)
          ]
  ]

  apply_all_lem :
      (anns : List AnnouncementInput) (b : Board)
      → IsFiled b
      → Step b (apply_all content_hash site name now backfill anns b)
  unfolding apply_all
  apply_all_lem [] b filed = (filed, no-IsNews b.versions b.versions (λ v h. h))
  apply_all_lem (a ∷ rest) b filed =
      let b1 = (apply_announcement content_hash site name now backfill a b).0 in
      let first = apply_lem a b filed in
      let later = apply_all_lem rest b1 first.0 in
      (
        later.0,
        IsNews-append b.versions b1.versions
            (apply_all content_hash site name now backfill rest b1).0.versions
            (apply_announcement content_hash site name now backfill a b).1
            (apply_all content_hash site name now backfill rest b1).1 first.1 later.1,
      )

-- One call of ApplyAnnouncements.
pub record Batch : Type 0 where
  pub site : ℕ
  pub name : Text
  pub now : ℕ
  pub anns : List AnnouncementInput

module _ (content_hash : Hash) where
  unfoldable pub apply_batch : Batch → Board → Board × List SiteAnnouncement
  apply_batch k b = apply_announcements content_hash k.site k.name k.now k.anns b

  unfoldable pub reported_by : List Batch → Board → List SiteAnnouncement
  unfolding apply_batch
  reported_by [] b = []
  reported_by (k ∷ rest) b = (apply_batch k b).1 ++ reported_by rest (apply_batch k b).0

  unfoldable pub board_after : List Batch → Board → Board
  unfolding apply_batch
  board_after [] b = b
  board_after (k ∷ rest) b = board_after rest (apply_batch k b).0

  batch_lem : (k : Batch) (b : Board) → IsFiled b → Step b (apply_batch k b)
  unfolding apply_batch apply_announcements
  batch_lem k b filed =
      apply_all_lem content_hash k.site k.name k.now
        (not (exists_where (λ r. r.site_id == k.site) b.announcements)) k.anns b filed

  batches_lem :
      (batches : List Batch) (b : Board)
      → IsFiled b
      → IsNews b.versions (board_after batches b).versions (reported_by batches b)
  unfolding reported_by board_after
  batches_lem [] b filed = no-IsNews b.versions b.versions (λ v h. h)
  batches_lem (k ∷ rest) b filed =
      let first = batch_lem k b filed in
      IsNews-append b.versions (apply_batch k b).0.versions
        (board_after rest (apply_batch k b).0).versions (apply_batch k b).1
        (reported_by rest (apply_batch k b).0) first.1
        (batches_lem rest (apply_batch k b).0 first.0)

  -- Over any sequence of batches of any sites, no two reported announcements have the same id and the same
  -- content hash, and none is in the table of versions before the first batch.
  pub reported_once :
      (batches : List Batch) (b : Board)
      → IsFiled b
      → Pairs (λ x y. Differ (version_of x) (version_of y)) (reported_by batches b)
        × All (λ x. has_version (version_of x) b.versions ≡ false) (reported_by batches b)
  reported_once batches b filed =
      let news = batches_lem batches b filed in (news.distinct, news.fresh)

module _ (content_hash : Hash) (site : ℕ) (name : Text) (now : ℕ) where
  one_silent :
      (a : AnnouncementInput) (b : Board)
      → (apply_announcement content_hash site name now true a b).1 ≡ []
  unfolding apply_announcement insert_announcement update_announcement
  one_silent a b = elim (Bool-cases (is_empty (trim_space a.external_id))) [
    | inl nameless ↦ rw nameless
    | inr named ↦
        elim (Option-cases
          (select_first (announcement_is site (cleaned a).external_id) b.announcements)) [
            | inl absent ↦ rw (named, absent)
            | inr (r, present) ↦ rw (named, present) (ground arith)
          ]
  ]

  all_silent :
      (anns : List AnnouncementInput) (b : Board)
      → (apply_all content_hash site name now true anns b).1 ≡ []
  unfolding apply_all
  all_silent [] b = refl
  all_silent (a ∷ rest) b =
      rw (one_silent a b)
        (all_silent rest (apply_announcement content_hash site name now true a b).0)

  -- The first batch of a site, of whatever length, reports nothing.
  pub first_batch_silent :
      (anns : List AnnouncementInput) (b : Board)
      → exists_where (λ r. r.site_id == site) b.announcements ≡ false
      → (apply_announcements content_hash site name now anns b).1 ≡ []
  unfolding apply_announcements
  first_batch_silent anns b none_yet = rw none_yet (all_silent anns b)
