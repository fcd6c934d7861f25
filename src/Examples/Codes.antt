-- ===== src/Examples/Codes.antt =====
-- Redeem codes, memberships and wishes of the shop.
use relay_scope.Base.{
  ◌+◌, ◌*◌, ◌≡◌, refl, true, some, List, [], ◌∷◌, arith, select_first, update_where, count_where,
  exists_where, next_id, length, Pairs, is_some,
}
use relay_scope.Base.Texts.{Text, codes, trim_space, to_upper}
use relay_scope.Store.{WishSite, RedeemCode, unknown_status, Db, ok, err, redeem_invalid}
use relay_scope.Store.Membership.{extend_user, membership_from_millis}
use relay_scope.Store.Redeem.{
  redeem_code, redeem, grant_days, redeem_row, normalize_redeem_code, replace_all, generate_codes,
  unused_code, display_code, canonical_code, format_redeem_code,
}
use relay_scope.Store.Redeem.Generation.{OtherCode, generate_codes_lem, enough_draws}
use relay_scope.Store.Redeem.Once.{redeem_code_once}
use relay_scope.Store.Redeem.Codes.{codes_round_trip}
use relay_scope.Store.Wishes.{update_wish_site, get_wish_site, unknown}
use relay_scope.Store.Wishes.Updates.{update_wish_site-partial}
use relay_scope.Examples.Shop.{wished_site, gift_code, shop}

abbrev gift : Text
gift = codes "rs-0123-4567-89ab"

abbrev redeemed_shop : Db
redeemed_shop = (redeem_code 1 gift 1000 shop).0

redeem_code_once_example :
    redeem_code 2 gift 2000 redeemed_shop ≡ (redeemed_shop, err redeem_invalid)
unfolding redeem_code redeem grant_days redeem_row normalize_redeem_code replace_all trim_space
    to_upper select_first update_where count_where exists_where extend_user membership_from_millis
redeem_code_once_example =
    redeem_code_once 1 2 1000 2000 gift shop redeemed_shop
      (record { expires_at = some (1000 + 7 * 86400000); active = true }) refl

codes_round_trip_example :
    (normalize_redeem_code (codes "RS-0123-4567-89AB") ≡ codes "RS0123456789AB")
    × (format_redeem_code (codes "RS0123456789AB") ≡ codes "RS-0123-4567-89AB")
unfolding display_code canonical_code
codes_round_trip_example = codes_round_trip (codes "0123456789AB") refl (
  refl,
  (refl, (refl, (refl, (refl, (refl, (refl, (refl, (refl, (refl, (refl, (refl, tt))))))))))),
)

abbrev aimed : WishSite
aimed = record wished_site { target_ldc = some 80 }

update_wish_site-partial_example :
    ((update_wish_site 1 (some 80) unknown 2000 shop).1 ≡ err unknown_status)
    × (get_wish_site 1 (update_wish_site 1 (some 80) unknown 2000 shop).0 ≡ ok aimed)
update_wish_site-partial_example =
    update_wish_site-partial 1 80 2000 shop wished_site (unfold select_first in refl) (omega arith)
      (omega arith)

abbrev two_draws : List Text
two_draws = codes "0123456789AB" ∷ codes "0123456789AC" ∷ []

abbrev second_gift : RedeemCode
second_gift = record gift_code { id = 2; code = codes "RS0123456789AC"; created_at = 9 }

generate_codes_lem_example :
    (length (codes "RS-0123-4567-89AC" ∷ []) ≡ 1)
    × (length (gift_code ∷ second_gift ∷ []) ≡ 1 + 1)
    × Pairs OtherCode (gift_code ∷ second_gift ∷ [])
generate_codes_lem_example =
    generate_codes_lem two_draws 1 7 [] 9 (gift_code ∷ []) (gift_code ∷ second_gift ∷ [])
      (codes "RS-0123-4567-89AC" ∷ [])
      (unfold generate_codes unused_code display_code canonical_code exists_where select_first
          next_id in
        refl)
      (tt, tt)

enough_draws_example : is_some (generate_codes two_draws 2 7 [] 9 []) ≡ true
enough_draws_example =
    enough_draws two_draws 7 [] 9 [] ((refl, tt), (tt, tt))
      (unfold exists_where select_first in (refl, (refl, tt)))
