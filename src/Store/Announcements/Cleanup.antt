-- ===== src/Store/Announcements/Cleanup.antt =====
-- internal/store/announcements.go: lists of the announcements of a site, and the cleanup of old ones. A site's name is
-- part of a row here.
use relay_scope.Base.{
  ℕ, ◌-◌, ◌≡◌, refl, ap, inl, inr, Bool, true, false, not, ◌&&◌, none, List, [], ◌∷◌, arith, ltb,
  ◌==◌, if◌then◌else◌, is_some, take, Bool-cases, Option-cases, select_first, select_where, updated,
  count_where, exists_where, All, All-append, All-update_where,
}
use relay_scope.Base.Texts.{Text, is_empty, trim_space}
use relay_scope.Store.Wishes.{sort_by}
use relay_scope.Store.Announcements.{
  AnnouncementInput, SiteAnnouncement, Version, Board, announcement_is, cleaned, Hash,
  new_announcement, refreshed, insert_announcement, update_announcement, apply_announcement,
  apply_all, apply_announcements,
}
use relay_scope.Store.Announcements.Once.{Batch, apply_batch, board_after}

abbrev pub is_shown : SiteAnnouncement → Bool
is_shown a = not (is_some a.removed_at)

abbrev pub limit_or : ℕ → ℕ → ℕ
limit_or fallback limit = if limit == 0 then fallback else limit

abbrev pub later_published : SiteAnnouncement → SiteAnnouncement → Bool
later_published a b = ltb b.published_at a.published_at

unfoldable pub list_site_announcements : ℕ → ℕ → Board → List SiteAnnouncement
list_site_announcements site limit b =
    take (limit_or 50 limit) (
      sort_by later_published (select_where (λ a. a.site_id == site && is_shown a) b.announcements))

unfoldable pub list_all_recent_announcements : ℕ → Board → List SiteAnnouncement
list_all_recent_announcements limit b =
    take (limit_or 100 limit) (sort_by later_published (select_where is_shown b.announcements))

abbrev pub is_outdated : ℕ → SiteAnnouncement → Bool
is_outdated cutoff a = ltb a.last_seen_at cutoff && is_some a.removed_at

-- The versions of an announcement go with it. The number of announcements that went is given too.
unfoldable pub cleanup_old_announcements : ℕ → ℕ → Board → Board × ℕ
cleanup_old_announcements max_age now b =
    let cutoff = now - max_age in
    (
      record {
        announcements = select_where (λ a. not (is_outdated cutoff a)) b.announcements;
        versions =
            select_where
              (λ v. not (exists_where (λ a. a.id == v.0 && is_outdated cutoff a) b.announcements))
              b.versions;
      },
      count_where (is_outdated cutoff) b.announcements,
    )

-- No announcement is marked as removed.
abbrev pub IsShown : SiteAnnouncement → Type 0
IsShown a = a.removed_at ≡ none

abbrev pub AllShown : Board → Type 0
AllShown b = All IsShown b.announcements

module _ (content_hash : Hash) where
  announcement-AllShown :
      (site : ℕ) (name : Text) (now : ℕ) (backfill : Bool) (a : AnnouncementInput) (b : Board)
      → AllShown b
      → AllShown (apply_announcement content_hash site name now backfill a b).0
  unfolding apply_announcement insert_announcement update_announcement new_announcement refreshed
  announcement-AllShown site name now backfill a b h =
      elim (Bool-cases (is_empty (trim_space a.external_id))) [
        | inl blank ↦ rw (blank, apply_announcement) h
        | inr named ↦
            elim (Option-cases
              (select_first (announcement_is site (cleaned a).external_id) b.announcements)) [
                | inl new ↦
                    rw (named, new, apply_announcement)
                      (All-append IsShown b.announcements
                        (new_announcement content_hash site name now (cleaned a) b.announcements
                          ∷ [])
                        h (refl, tt))
                | inr (r, old) ↦
                    rw (named, old, apply_announcement)
                      (All-update_where IsShown IsShown (λ x. x.id == r.id)
                        (refreshed content_hash now (cleaned a)) b.announcements (λ x k. kept x r k)
                        h)
              ]
      ]
    where
      kept :
          (x r : SiteAnnouncement)
          → IsShown x
          → IsShown (updated (λ y. y.id == r.id) (refreshed content_hash now (cleaned a)) x)
      kept x r k = elim (Bool-cases (x.id == r.id)) [ inl hit ↦ rw hit refl | inr miss ↦ rw miss k ]

  all-AllShown :
      (site : ℕ) (name : Text) (now : ℕ) (backfill : Bool) (anns : List AnnouncementInput)
      (b : Board)
      → AllShown b
      → AllShown (apply_all content_hash site name now backfill anns b).0
  unfolding apply_all
  all-AllShown site name now backfill [] b h = h
  all-AllShown site name now backfill (a ∷ rest) b h =
      all-AllShown site name now backfill rest
        (apply_announcement content_hash site name now backfill a b).0
        (announcement-AllShown site name now backfill a b h)

  batches-AllShown :
      (batches : List Batch) (b : Board)
      → AllShown b
      → AllShown (board_after content_hash batches b)
  unfolding board_after apply_batch apply_announcements
  batches-AllShown [] b h = h
  batches-AllShown (k ∷ rest) b h = batches-AllShown rest (apply_batch content_hash k b).0 (
      all-AllShown k.site k.name k.now
        (not (exists_where (λ r. r.site_id == k.site) b.announcements)) k.anns b h)

not_outdated : (cutoff : ℕ) (a : SiteAnnouncement) → IsShown a → is_outdated cutoff a ≡ false
not_outdated cutoff a h = rw h (none_of (ltb a.last_seen_at cutoff))
  where
    none_of : (x : Bool) → (x && false) ≡ false
    none_of true = refl
    none_of false = refl

none_outdated :
    (cutoff : ℕ) (rows : List SiteAnnouncement)
    → All IsShown rows
    → (select_where (λ a. not (is_outdated cutoff a)) rows ≡ rows)
      × (count_where (is_outdated cutoff) rows ≡ 0)
unfolding select_where count_where
none_outdated cutoff [] h = (refl, refl)
none_outdated cutoff (a ∷ rest) h =
    let stays = not_outdated cutoff a h.0 in
    let (rows, count) = none_outdated cutoff rest h.1 in
    (rw stays (ap (λ xs. a ∷ xs) rows), rw stays (ground (arith, count)))

no_owner :
    (cutoff id : ℕ) (rows : List SiteAnnouncement)
    → All IsShown rows
    → exists_where (λ a. a.id == id && is_outdated cutoff a) rows ≡ false
unfolding exists_where select_first
no_owner cutoff id [] h = refl
no_owner cutoff id (a ∷ rest) h =
    let stays = not_outdated cutoff a h.0 in
    let more = no_owner cutoff id rest h.1 in ground (arith, stays, more)

versions_stay :
    (cutoff : ℕ) (rows : List SiteAnnouncement) (versions : List Version)
    → All IsShown rows
    → select_where
        (λ v. not (exists_where (λ a. a.id == v.0 && is_outdated cutoff a) rows))
        versions
      ≡ versions
unfolding select_where
versions_stay cutoff rows [] h = refl
versions_stay cutoff rows (v ∷ rest) h =
    let idle = no_owner cutoff v.0 rows h in
    rw idle (ap (λ xs. v ∷ xs) (versions_stay cutoff rows rest h))

-- Nothing marks an announcement as removed: after any batches, from tables without such a mark, a cleanup of any age
-- at any time removes nothing.
pub cleanup_idle :
    (content_hash : Hash) (batches : List Batch) (max_age now : ℕ) (b : Board)
    → AllShown b
    → cleanup_old_announcements max_age now (board_after content_hash batches b)
      ≡ (board_after content_hash batches b, 0)
unfolding cleanup_old_announcements
cleanup_idle content_hash batches max_age now b h =
    let end = board_after content_hash batches b in
    let shown = batches-AllShown content_hash batches b h in
    let (rows, count) = none_outdated (now - max_age) end.announcements shown in
    let versions = versions_stay (now - max_age) end.announcements end.versions shown in
    cc (rows, count, versions)
