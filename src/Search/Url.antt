-- ===== src/Search/Url.antt =====
-- The language's `escape` and `unescape`, by which docs/documentation/html/search/search.js passes
-- the query from the panel to the results page.
pub mod RoundTrip
use com_client.Base.{
  ℕ, zero, suc, ◌+◌, ◌-◌, ◌*◌, ◌/◌, ◌%◌, Text, codes, Bool, true, false, ◌&&◌, ◌||◌, List, [], ◌∷◌,
  ◌++◌, if◌then◌else◌, ltb, leb, ◌==◌, length, Option, none, some,
}

is_kept : ℕ → Bool
is_kept c =
    leb b'A' c && leb c b'Z'
    || leb b'a' c && leb c b'z'
    || leb b'0' c && leb c b'9'
    || c == b'@'
    || c == b'*'
    || c == b'_'
    || c == b'+'
    || c == b'-'
    || c == b'.'
    || c == b'/'

upper_digit : ℕ → ℕ
upper_digit d = if ltb d 10 then d + b'0' else d - 10 + b'A'

escape_unit : ℕ → Text
escape_unit c =
    if is_kept c
    then c ∷ []
    else if ltb c 256
    then b'%' ∷ upper_digit (c / 16) ∷ upper_digit (c % 16) ∷ []
    else b'%'
      ∷ b'u'
      ∷ upper_digit (c / 4096)
      ∷ upper_digit (c / 256 % 16)
      ∷ upper_digit (c / 16 % 16)
      ∷ upper_digit (c % 16)
      ∷ []

unfoldable pub escape : Text → Text
unfolding escape_unit is_kept upper_digit
escape [] = []
escape (c ∷ s) = escape_unit c ++ escape s

digit_value : ℕ → Option ℕ
digit_value d =
    if leb b'0' d && leb d b'9'
    then some (d - b'0')
    else if leb b'A' d && leb d b'F'
    then some (d - b'A' + 10)
    else if leb b'a' d && leb d b'f'
    then some (d - b'a' + 10)
    else none

-- `n` hexadecimal digits, read onto `v`.
read_hex : ℕ → ℕ → Text → Option (ℕ × Text)
read_hex zero v s = some (v, s)
read_hex (suc n) v [] = none
read_hex (suc n) v (c ∷ s) = elim (digit_value c) [
  | none ↦ none
  | some d ↦ read_hex n (v * 16 + d) s
]

-- What stands behind a `%`.
read_escape : Text → Option (ℕ × Text)
read_escape [] = none
read_escape (c ∷ s) = if c == b'u' then read_hex 4 0 s else read_hex 2 0 (c ∷ s)

unescape_within : ℕ → Text → Text
unescape_within zero s = []
unescape_within (suc f) [] = []
unescape_within (suc f) (c ∷ s) =
    let kept = c ∷ unescape_within f s in
    if c == b'%'
    then elim (read_escape s) [ none ↦ kept | some (v, rest) ↦ v ∷ unescape_within f rest ]
    else kept

-- Each round reads a unit at least.
unfoldable pub unescape : Text → Text
unfolding unescape_within read_escape read_hex digit_value
unescape s = unescape_within (length s) s
