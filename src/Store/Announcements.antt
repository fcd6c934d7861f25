-- ===== src/Store/Announcements.antt =====
-- internal/store/announcements.go: announcements of a site are kept with every version of their content
-- that was seen. Encoding and hashing of a version is the parameter `content_hash`.
pub mod News
pub mod Once
pub mod Cleanup
use relay_scope.Base.{
  ℕ, ◌+◌, Bool, true, false, not, ◌&&◌, ◌||◌, Option, none, some, List, [], ◌∷◌, ◌++◌, ◌==◌,
  if◌then◌else◌, select_first, update_where, exists_where, next_id,
}
use relay_scope.Base.Texts.{Text, text_eq, codes, is_empty, trim_space}

-- What an adapter reads of one announcement.
pub record AnnouncementInput : Type 0 where
  pub external_id : Text
  pub title : Text
  pub content : Text
  pub ann_type : Text
  pub extra : Text
  pub published_at : ℕ

pub record SiteAnnouncement : Type 0 where
  pub id : ℕ
  pub site_id : ℕ
  pub site_name : Text
  pub external_id : Text
  pub title : Text
  pub content : Text
  pub ann_type : Text
  pub extra : Text
  pub content_hash : Text
  pub published_at : ℕ
  pub first_seen_at : ℕ
  pub last_seen_at : ℕ
  pub removed_at : Option ℕ

-- A version of the content of an announcement.
abbrev pub Version : Type 0
Version = ℕ × Text

pub record Board : Type 0 where
  pub announcements : List SiteAnnouncement
  pub versions : List Version

abbrev pub version_is : ℕ → Text → Version → Bool
version_is id hash v = v.0 == id && text_eq v.1 hash

abbrev pub announcement_is : ℕ → Text → SiteAnnouncement → Bool
announcement_is site external a = a.site_id == site && text_eq a.external_id external

unfoldable pub default_ann_type : Text → Text
default_ann_type t = if is_empty (trim_space t) then codes "default" else trim_space t

-- INSERT OR IGNORE: whether the version is new.
unfoldable pub remember_announcement_version : ℕ → Text → List Version → List Version × Bool
remember_announcement_version id hash versions =
    if exists_where (version_is id hash) versions
    then (versions, false)
    else (versions ++ (id, hash) ∷ [], true)

-- The input as it is stored: trimmed, with a type.
unfoldable pub cleaned : AnnouncementInput → AnnouncementInput
unfolding default_ann_type
cleaned a = record a {
  external_id = trim_space a.external_id;
  title = trim_space a.title;
  ann_type = default_ann_type a.ann_type;
  extra = trim_space a.extra;
}

-- The hash of title, content, type and extra.
abbrev pub Hash : Type 0
Hash = Text → Text → Text → Text → Text

unfoldable pub hash_of : Hash → AnnouncementInput → Text
hash_of content_hash a = content_hash a.title a.content a.ann_type a.extra

unfoldable pub stored_hash : Hash → SiteAnnouncement → Text
unfolding default_ann_type
stored_hash content_hash a =
    content_hash (trim_space a.title) a.content (default_ann_type a.ann_type) (trim_space a.extra)

unfoldable pub new_announcement :
    Hash → ℕ → Text → ℕ → AnnouncementInput → List SiteAnnouncement → SiteAnnouncement
unfolding hash_of
new_announcement content_hash site name now a rows = record {
  id = next_id (λ r. r.id) rows;
  site_id = site;
  site_name = name;
  external_id = a.external_id;
  title = a.title;
  content = a.content;
  ann_type = a.ann_type;
  extra = a.extra;
  content_hash = hash_of content_hash a;
  published_at = if a.published_at == 0 then now else a.published_at;
  first_seen_at = now;
  last_seen_at = now;
  removed_at = none;
}

unfoldable pub refreshed : Hash → ℕ → AnnouncementInput → SiteAnnouncement → SiteAnnouncement
unfolding hash_of
refreshed content_hash now a r = record r {
  title = a.title;
  content = a.content;
  ann_type = a.ann_type;
  extra = a.extra;
  content_hash = hash_of content_hash a;
  last_seen_at = now;
  removed_at = none;
}

-- What is reported of an announcement that was known before.
unfoldable pub news_of : Hash → Text → ℕ → AnnouncementInput → SiteAnnouncement → SiteAnnouncement
unfolding refreshed hash_of
news_of content_hash name now a r = record (refreshed content_hash now a r) {
  site_name = name;
  published_at = if a.published_at == 0 then now else a.published_at;
  first_seen_at = 0;
}

abbrev pub if_news : Bool → SiteAnnouncement → List SiteAnnouncement
if_news true a = a ∷ []
if_news false a = []

-- An announcement that is not in the table.
unfoldable pub insert_announcement :
    Hash → ℕ → Text → ℕ → Bool → AnnouncementInput → Board → Board × List SiteAnnouncement
unfolding new_announcement remember_announcement_version
insert_announcement content_hash site name now backfill a b =
    let row = new_announcement content_hash site name now a b.announcements in
    (
      record {
        announcements = b.announcements ++ row ∷ [];
        versions = (remember_announcement_version row.id row.content_hash b.versions).0;
      },
      if_news (not backfill) row,
    )

-- An announcement that is in the table: its stored version is remembered first, then the one that was read.
unfoldable pub update_announcement :
    Hash
    → Text
    → ℕ
    → Bool
    → AnnouncementInput
    → SiteAnnouncement
    → Board
    → Board × List SiteAnnouncement
unfolding refreshed news_of stored_hash hash_of remember_announcement_version
update_announcement content_hash name now backfill a r b =
    let seeded = (remember_announcement_version r.id (stored_hash content_hash r) b.versions).0 in
    let (versions, unseen) = remember_announcement_version r.id (hash_of content_hash a) seeded in
    (
      record {
        announcements =
            update_where (λ x. x.id == r.id) (refreshed content_hash now a) b.announcements;
        versions = versions;
      },
      if_news (unseen && not backfill) (news_of content_hash name now a r),
    )

unfoldable pub apply_announcement :
    Hash → ℕ → Text → ℕ → Bool → AnnouncementInput → Board → Board × List SiteAnnouncement
unfolding insert_announcement update_announcement cleaned
apply_announcement content_hash site name now backfill a b =
    if is_empty (trim_space a.external_id)
    then (b, [])
    else elim (select_first (announcement_is site (cleaned a).external_id) b.announcements) [
      | none ↦ insert_announcement content_hash site name now backfill (cleaned a) b
      | some r ↦ update_announcement content_hash name now backfill (cleaned a) r b
    ]

unfoldable pub apply_all :
    Hash → ℕ → Text → ℕ → Bool → List AnnouncementInput → Board → Board × List SiteAnnouncement
unfolding apply_announcement
apply_all content_hash site name now backfill [] b = (b, [])
apply_all content_hash site name now backfill (a ∷ rest) b =
    let (b', news) = apply_announcement content_hash site name now backfill a b in
    let (b'', more) = apply_all content_hash site name now backfill rest b' in (b'', news ++ more)

-- The first batch of a site is a backfill, of which nothing is reported.
unfoldable pub apply_announcements :
    Hash → ℕ → Text → ℕ → List AnnouncementInput → Board → Board × List SiteAnnouncement
unfolding apply_all
apply_announcements content_hash site name now anns b =
    apply_all content_hash site name now
      (not (exists_where (λ r. r.site_id == site) b.announcements)) anns b
