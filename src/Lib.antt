-- ===== src/Lib.antt =====
-- The services of UniShop China (backend/app). The accounts: sessions, e-mail and phone verification,
-- password reset and change, login and registration, and the rate limiter in front of them. The
-- verification of sellers. The marketplace: the catalog of cities and categories, profiles, product
-- listings, favorites and viewing histories, and the pages of lists.
--
-- Parts and files. A service call works on the tables of one database and asks a provider (e-mail,
-- reset codes, SMS) to deliver or to forget a code; the sessions are opened by the login, and the
-- password services revoke them. The marketplace keeps its tables beside those of the accounts and
-- sellers, and reads them: a listing is published by a seller who is verified and onboarded, in a city
-- and a category of the catalog, and only listings that the public sees are saved or recorded.
--   Prelude             numbers and tests; in Prelude/Rows the readings of SQL statements on a table
--                       as a list of rows (filter, update, count, first row of an order) and
--                       their lemmas
--   Models              the tables of backend/app/models and the requests made of the providers
--   Action              backend/app/core/transactions.py and exceptions.py: a call takes the database
--                       and returns a result or an exception, with the database that it leaves
--   Repositories        backend/app/repositories/user_repository.py, role_repository.py,
--                       token_repository.py, email_verification_code_repository.py,
--                       password_reset_code_repository.py, phone_verification_code_repository.py;
--                       each method has its name
--   Sessions            backend/app/services/refresh_session_service.py and the CSRF test of
--                       backend/app/core/session_security.py; `rotate_session`,
--                       `create_login_session`, `logout_current`, `logout_all` have their names, and
--                       `rotate_locked` and the like are the bodies of their transactions
--   EmailVerification   backend/app/services/email_verification_service.py: `resend`, `verify`
--   Passwords           backend/app/services/password_reset_service.py: `request_reset`,
--                       `reset_password`; password_change_service.py: `change_password`
--   PhoneVerification   backend/app/services/phone_verification_service.py: `resend`, `verify`
--   Accounts            backend/app/services/auth_service.py: `authenticate`
--                       (authenticate_user_and_create_access_token), `load_current_user`, `register`;
--                       backend/app/core/authorization.py: `lock_active_user`, `require_db_admin`
--   RateLimit           backend/app/core/rate_limit.py: `consume`, `clear`; its state is the table of keys,
--                       not the database
--   Sellers             backend/app/services/seller_verification_service.py: `start_or_submit`, `upload`,
--                       `review`, over models/seller_verification.py; it reads the accounts
--   Market              backend/app/models/catalog.py, profile.py, product.py, product_favorite.py,
--                       product_recent_view.py; a call is a function of the database, and the rules of
--                       Market/Rules say what a call ensures from what its parts ensure
--   Catalog             backend/app/services/catalog_service.py over
--                       backend/app/repositories/catalog_repository.py: `create`, `update_category`,
--                       `set_active` and the queries of categories, and the same for cities
--                       (`create_city` and so on)
--   Profiles            backend/app/services/profile_service.py over
--                       backend/app/repositories/profile_repository.py: `get_or_create_own`,
--                       `update_own`, `complete_onboarding`, `get_public`
--   Products            backend/app/services/product_service.py over
--                       backend/app/repositories/product_repository.py and product_visibility.py:
--                       `create`, `update_listing`, `transition`, `get_owned`, `public_view`;
--                       `lock_verified_seller` of backend/app/core/authorization.py; in Products/Text
--                       backend/app/common/plain_text.py and the texts of backend/app/schemas/product.py
--   Paging              the keyset pages that the two lists of Personal share
--   Personal            backend/app/services/favorites_service.py (`add`, `remove`, `lookup`, list) and
--                       backend/app/services/recently_viewed_service.py (`record_view`, `remove`,
--                       `clear`, list) over their repositories
--
-- Reading. A `with` block that raises leaves the database as it found it. A row lock
-- (`FOR UPDATE`) only orders transactions: a transaction reads what the earlier ones committed, and
-- the calls are steps one after the other. Where a service waits for a provider between two
-- transactions, what other calls commit meanwhile is the argument `meanwhile`, an arbitrary change
-- of the database, and the provider's answer is an argument. Identifiers, texts, digests and tokens
-- are numbers that the code only compares, hashes or tests for emptiness (0 is the empty text); for
-- `compare_digest` the texts are ASCII. Times are microseconds since a fixed moment, also those of
-- the rate limiter, whose clock the source reads as a float, and a stored time keeps its value.
--
-- In the marketplace, texts that the code measures or filters are lists of code points, prices are
-- hundredths, and the order of slugs is the order of their numbers. The request bodies are those that
-- their schemas let through.
--
-- Parameters: the clock, the keyed digests, the password hasher and verifier, the access token, the
-- generators of codes, tokens, slugs, handles and primary keys, the settings, the providers, and the
-- Unicode database with its normal form. The keys of new rows are drawn; users, refresh tokens and the
-- rows of the marketplace say what a taken key does.
--
-- Bounds. The loop of `_create_token_record` runs the configured number of rounds, and is a recursion
-- on that number; the loop of the rate limiter pops the front of a list, and is a recursion on it.
-- The insertions of a profile and of a listing try eight rounds, as the source does, and fail after
-- them. Every other definition is a composition of list functions.
--
-- Not modelled: failures of the database or of a commit, the deadlock retry, configuration errors
-- (a missing hashing secret), the collation of text columns, seconds as the resolution of a DATETIME
-- column, logging, the texts of answers, the HTTP layer, the signed encoding of cursors, and the parts
-- of the repository other than these services (the lists and evidence tickets of the seller
-- verification, the list of a seller's products, product images, the browse query, storage, the
-- frontend).
pub mod Prelude
pub mod Models
pub mod Action
pub mod Repositories
pub mod Sessions
pub mod EmailVerification
pub mod Passwords
pub mod PhoneVerification
pub mod Accounts
pub mod RateLimit
pub mod Sellers
pub mod Market
pub mod Catalog
pub mod Profiles
pub mod Products
pub mod Paging
pub mod Personal
