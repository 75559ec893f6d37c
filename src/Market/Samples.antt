-- ===== src/Market/Samples.antt =====
-- A small marketplace for the tests: a verified seller with a draft, an administrator, one city, and a
-- category with a child.
use unishop_china.Prelude.{◌==◌, leb, if◌then◌else◌, true, none, some, [], ◌∷◌}
use unishop_china.Models.{User, UserRoleType, AccountStatus}
use unishop_china.Sellers.Tables.{VerificationStatus, SellerVerification}
use unishop_china.Market.Tables.{
  City, Category, UserProfile, ProductListing, ProductStatus, ProductCondition, MarketDb,
}
use unishop_china.Products.Text.{Unicode, UnicodeCategory}

-- ASCII texts.
abbrev pub ascii : Unicode
ascii = record {
  nfc = λ text. text;
  category = λ c. if leb 32 c then UnicodeCategory.other else UnicodeCategory.control;
  is_space = λ c. c == 32;
}

abbrev pub seller : User
seller = record {
  id = 1;
  email = some 31;
  phone_number = some 51;
  password_hash = 77;
  phone_verified = true;
  email_verified = true;
  account_status = AccountStatus.active;
  created_at = 5;
}

abbrev pub admin : User
admin = record seller { id = 2; email = some 32; phone_number = some 52 }

abbrev pub approval : SellerVerification
approval = record {
  id = 11;
  created_at = 10;
  user_id = 1;
  review_reference = 900;
  status = VerificationStatus.verified;
  handwritten_challenge = 6;
  challenge_expires_at = 100;
  rejection_reason = none;
  reviewed_by = some 2;
  submitted_at = some 50;
  reviewed_at = some 60;
}

abbrev pub city : City
city = record {
  id = 1;
  slug = 100;
  name_en = 7;
  name_zh = 8;
  province_en = 9;
  province_zh = none;
  is_active = true;
  sort_order = 0;
}

abbrev pub root : Category
root = record {
  id = 21;
  slug = 201;
  name_en = 3;
  name_zh = 4;
  description = none;
  parent_id = none;
  parent_level = none;
  level = 1;
  is_active = true;
  sort_order = 0;
}

abbrev pub leaf : Category
leaf = record root { id = 22; slug = 202; parent_id = some 21; parent_level = some 1; level = 2 }

abbrev pub profile : UserProfile
profile = record {
  user_id = 1;
  public_handle = 71;
  display_name = some (65 ∷ 66 ∷ 67 ∷ []);
  bio = none;
  city = some 7;
  city_id = some 1;
  onboarding_completed = true;
}

abbrev pub listing : ProductListing
listing = record {
  id = 30;
  seller_user_id = 1;
  public_slug = 300;
  title = 65 ∷ 66 ∷ 67 ∷ [];
  description = 65 ∷ 66 ∷ 67 ∷ 68 ∷ 69 ∷ 70 ∷ 71 ∷ 72 ∷ 73 ∷ 74 ∷ [];
  price = 500;
  condition = ProductCondition.good;
  status = ProductStatus.draft;
  city_id = 1;
  category_id = 22;
  published_at = none;
}

abbrev pub market : MarketDb
market = record {
  sellers = record {
    accounts = record {
      users = seller ∷ admin ∷ [];
      roles = record { user_id = 2; role = UserRoleType.admin } ∷ [];
      refresh_tokens = [];
      email_codes = [];
      reset_codes = [];
      phone_codes = [];
      calls = [];
    };
    verifications = approval ∷ [];
    evidence = [];
    audits = [];
    files = [];
  };
  cities = city ∷ [];
  categories = root ∷ leaf ∷ [];
  catalog_audits = [];
  profiles = profile ∷ [];
  listings = listing ∷ [];
  favorites = [];
  recent_views = [];
}
