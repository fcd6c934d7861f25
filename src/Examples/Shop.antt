-- ===== src/Examples/Shop.antt =====
-- The tables of the examples: a user without membership, a pending membership order of thirty days, and
-- a pending order of sixty for a wish with a target of fifty. Times are milliseconds.
use relay_scope.Base.{false, none, some, [], ◌∷◌}
use relay_scope.Base.Texts.{codes}
use relay_scope.Store.{
  User, LdcOrder, WishSite, RedeemCode, Db, membership, wish, ldc, pending, opened, unused,
}

abbrev pub buyer : User
buyer = record {
  id = 1;
  provider = codes "linuxdo";
  external_id = codes "77";
  username = codes "ada";
  name = codes "Ada";
  avatar_url = [];
  trust_level = 2;
  membership_expires_at = none;
  registered_at = some 10;
  created_at = 10;
  updated_at = 10;
}

abbrev pub membership_order : LdcOrder
membership_order = record {
  id = 1;
  order_no = codes "M1";
  user_id = 1;
  kind = membership;
  wish_site_id = none;
  days = some 30;
  amount_ldc = 100;
  funding = ldc;
  status = pending;
  platform_trade_no = [];
  created_at = 20;
  paid_at = none;
}

abbrev pub wish_order : LdcOrder
wish_order = record membership_order {
  id = 2;
  order_no = codes "W1";
  kind = wish;
  wish_site_id = some 1;
  days = none;
  amount_ldc = 60;
}

abbrev pub wished_site : WishSite
wished_site = record {
  id = 1;
  domain = codes "a.io";
  name = codes "A";
  url = codes "https://a.io";
  invite_required = false;
  target_ldc = some 50;
  status = opened;
  created_by = 1;
  created_at = 15;
  resolved_at = none;
}

abbrev pub gift_code : RedeemCode
gift_code = record {
  id = 1;
  code = codes "RS0123456789AB";
  days = 7;
  note = [];
  status = unused;
  redeemed_by = none;
  redeemed_at = none;
  created_at = 5;
}

abbrev pub shop : Db
shop = record {
  users = buyer ∷ [];
  orders = membership_order ∷ wish_order ∷ [];
  intervals = [];
  wishes = wished_site ∷ [];
  credits = [];
  codes = gift_code ∷ [];
  preregistrations = [];
  attempts = [];
  settings = [];
}

-- The same, with the user a member until the millisecond 5000000.
abbrev pub member_shop : Db
member_shop = record shop { users = record buyer { membership_expires_at = some 5000000 } ∷ [] }
