-- ===== src/Store/Wishes/Updates.antt =====
-- What an administrator's update of a wish leaves behind.
use relay_scope.Base.{
  ℕ, ◌<◌, ◌≤◌, ◌≡◌, refl, some, arith, select_first, select_first-update_where, select_first-holds,
}
use relay_scope.Store.{WishSite, WishStatus, Db, wish_is, unknown_status, ok, err}
use relay_scope.Store.Wishes.{
  get_wish_site, set_target, set_status, status_row, update_wish_site, known, unknown,
}

module _ (id target now : ℕ) (db : Db) (w : WishSite)
    (found : select_first (wish_is id) db.wishes ≡ some w) (positive : 0 < target)
    (bounded : target ≤ 1000000) where
  abbrev targeted : WishSite
  targeted = record w { target_ldc = some target }

  targeted-found : select_first (wish_is id) (set_target target id db).wishes ≡ some targeted
  unfolding set_target
  targeted-found =
      let kept =
        select_first-update_where (wish_is id) (wish_is id)
          (λ v. record v { target_ldc = some target }) db.wishes w (λ v. refl) found in
      ground (arith, kept, select_first-holds (wish_is id) db.wishes w found)

  -- An update of an existing wish with a target from 1 to 1000000 and a known status answers with the
  -- wish as it is then stored: with that target and status, and resolved now unless it stays open.
  pub update_wish_site-get :
      (status : WishStatus)
      → ((update_wish_site id (some target) (known status) now db).1
          ≡ ok (status_row status now (record w { target_ldc = some target })))
        × (get_wish_site id (update_wish_site id (some target) (known status) now db).0
            ≡ ok (status_row status now (record w { target_ldc = some target })))
  unfolding update_wish_site set_status get_wish_site status_row
  update_wish_site-get status =
      let hit = select_first-holds (wish_is id) db.wishes w found in
      let kept =
        select_first-update_where (wish_is id) (wish_is id) (status_row status now)
          (set_target target id db).wishes targeted (λ v. refl) targeted-found in
      (ground (arith, kept, hit, positive, bounded), ground (arith, kept, hit, positive, bounded))

  -- With an unknown status the same update answers with an error, and the wish has the new target all
  -- the same.
  pub update_wish_site-partial :
      ((update_wish_site id (some target) unknown now db).1 ≡ err unknown_status)
      × (get_wish_site id (update_wish_site id (some target) unknown now db).0
          ≡ ok (record w { target_ldc = some target }))
  unfolding update_wish_site set_status get_wish_site
  update_wish_site-partial =
      (ground (arith, positive, bounded), ground (arith, targeted-found, positive, bounded))
