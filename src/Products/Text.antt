-- ===== src/Products/Text.antt =====
-- backend/app/common/plain_text.py and the texts of backend/app/schemas/product.py. The Unicode
-- database and the normal form come from Python: a parameter.
use unishop_china.Prelude.{
  ℕ, Bool, true, false, not, ◌&&◌, ◌||◌, Option, none, some, List, [], ◌∷◌, ltb, leb, ◌==◌,
  if◌then◌else◌, length,
}
use mathlib.Core.List.{reverse}

-- The general categories that the code tells apart.
pub data UnicodeCategory : Type 0 where
  control surrogate other : UnicodeCategory

pub record Unicode : Type 0 where
  pub nfc : List ℕ → List ℕ
  pub category : ℕ → UnicodeCategory
  pub is_space : ℕ → Bool

abbrev pub is_surrogate : UnicodeCategory → Bool
is_surrogate UnicodeCategory.surrogate = true
is_surrogate _ = false

abbrev pub is_control : UnicodeCategory → Bool
is_control UnicodeCategory.control = true
is_control _ = false

-- `DIRECTION_CONTROL_CHARACTERS`
unfoldable pub is_direction_control : ℕ → Bool
is_direction_control c = (leb 0x202a c && leb c 0x202e) || (leb 0x2066 c && leb c 0x2069)

-- `value.replace("\r\n", "\n")`
unfoldable pub replace_newlines : List ℕ → List ℕ
replace_newlines [] = []
replace_newlines (c ∷ []) = c ∷ []
replace_newlines (c ∷ d ∷ cs) =
    let rest = replace_newlines (d ∷ cs) in
    let after = replace_newlines cs in if c == 13 && d == 10 then 10 ∷ after else c ∷ rest

module _ (unicode : Unicode) where
  drop_spaces : List ℕ → List ℕ
  drop_spaces [] = []
  drop_spaces (c ∷ cs) = if unicode.is_space c then drop_spaces cs else c ∷ cs

  -- `str.strip`
  unfoldable pub strip : List ℕ → List ℕ
  unfolding drop_spaces
  strip cs = reverse (drop_spaces (reverse (drop_spaces cs)))

  -- `" ".join(value.split())`: `word` says that a word has begun.
  unfoldable pub joined : Bool → Bool → List ℕ → List ℕ
  joined begun word [] = []
  joined begun word (c ∷ cs) =
      let rest = joined begun false cs in
      let first = c ∷ joined true true cs in
      let next = 32 ∷ c ∷ joined true true cs in
      if unicode.is_space c then rest else if begun && not word then next else first

  -- A character that the rules refuse.
  unfoldable pub is_unsupported : Bool → ℕ → Bool
  unfolding is_direction_control
  is_unsupported allow_newlines c =
      is_surrogate (unicode.category c)
      || (is_control (unicode.category c) && not (allow_newlines && (c == 10 || c == 9)))
      || is_direction_control c

  unfoldable pub has_unsupported : Bool → List ℕ → Bool
  has_unsupported allow_newlines [] = false
  has_unsupported allow_newlines (c ∷ cs) =
      is_unsupported allow_newlines c || has_unsupported allow_newlines cs

  -- `ValueError` is `none`.
  unfoldable pub normalize_plain_text : ℕ → Bool → List ℕ → Option (List ℕ)
  normalize_plain_text maximum allow_newlines value =
      let normalized = strip (unicode.nfc value) in
      if ltb maximum (length normalized)
      then none
      else if has_unsupported allow_newlines normalized
      then none
      else some normalized

  unfoldable pub at_least : ℕ → List ℕ → Option (List ℕ)
  at_least minimum value = if ltb (length value) minimum then none else some value

  unfoldable pub title_text : List ℕ → Option (List ℕ)
  unfolding at_least
  title_text value = elim (normalize_plain_text 120 false value) [
    | none ↦ none
    | some text ↦ at_least 3 (joined false false text)
  ]

  unfoldable pub description_text : List ℕ → Option (List ℕ)
  unfolding at_least
  description_text value = elim (normalize_plain_text 5000 true (replace_newlines value)) [
    | none ↦ none
    | some text ↦ at_least 10 text
  ]

-- The prices, in hundredths, whose two-digit form `price_text` accepts.
unfoldable pub is_price : ℕ → Bool
is_price price = ltb 0 price && ltb price 1000000000000
