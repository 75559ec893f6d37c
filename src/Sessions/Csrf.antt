-- ===== src/Sessions/Csrf.antt =====
-- `validate_csrf_tokens` of backend/app/core/session_security.py. `hmac.compare_digest` is
-- equality.
use unishop_china.Prelude.{
  ℕ, Bool, true, false, ◌||◌, not, Option, none, some, is_truthy, ◌==◌, if◌then◌else◌,
}
use unishop_china.Action.{Result, ok, err, Error}

-- Both tokens are given, so the two are compared.
abbrev pub same_text : Option ℕ → Option ℕ → Bool
same_text (some a) (some b) = a == b
same_text _ _ = false

-- `stored_hash is not None and not compare_digest(...)`, negated.
abbrev pub fits_stored : (ℕ → ℕ) → Option ℕ → Option ℕ → Bool
fits_stored hash_csrf_token (some header) (some stored) = hash_csrf_token header == stored
fits_stored hash_csrf_token _ (some stored) = false
fits_stored hash_csrf_token _ none = true

unfoldable pub validate_csrf_tokens : (ℕ → ℕ) → Option ℕ → Option ℕ → Option ℕ → Result (Unit {0})
validate_csrf_tokens hash_csrf_token cookie_token header_token stored_hash =
    if not (is_truthy cookie_token) || not (is_truthy header_token)
    then err Error.request_verification
    else if not (same_text cookie_token header_token)
    then err Error.request_verification
    else if not (fits_stored hash_csrf_token header_token stored_hash)
    then err Error.request_verification
    else ok tt
