-- ===== src/Search/Ids.antt =====
-- `convertToId` of docs/documentation/html/search/search.js, and the test by which the results page
-- keeps a row.
pub mod Codec
pub mod Matching
use com_client.Base.{
  ℕ, zero, suc, ◌+◌, ◌*◌, ◌/◌, ◌%◌, Text, codes, Bool, true, false, ◌&&◌, ◌||◌, List, [], ◌∷◌, ◌++◌,
  if◌then◌else◌, ltb, leb, ◌==◌, length, take, text_eq, hex_digit, map, to_lower,
}

-- The class `[a-z0-9\u0080-\uFFFF]`, on a code unit.
is_plain : ℕ → Bool
is_plain c = leb b'a' c && leb c b'z' || leb b'0' c && leb c b'9' || leb 0x80 c && leb c 0xffff

-- `cn.toString(16)` for a unit below 0x80.
unfoldable pub hex_string : ℕ → Text
unfolding hex_digit
hex_string cn =
    if ltb cn 16 then hex_digit cn ∷ [] else hex_digit (cn / 16) ∷ hex_digit (cn % 16) ∷ []

-- What one round of the loop appends.
unfoldable pub encode_unit : ℕ → Text
unfolding is_plain hex_string
encode_unit c =
    if is_plain c
    then c ∷ []
    else if ltb c 16
    then codes "_0" ++ hex_string c
    else codes "_" ++ hex_string c

-- The loop, which walks `search` from its first unit and appends to `result`.
convert_from : Text → Text → Text
convert_from result [] = result
convert_from result (c ∷ search) = convert_from (result ++ encode_unit c) search

unfoldable pub convert_to_id : Text → Text
unfolding convert_from encode_unit
convert_to_id search = convert_from [] search

-- `search.length<=name.length && name.substr(0, search.length)==search`
unfoldable pub row_matches : Text → Text → Bool
row_matches search name =
    leb (length search) (length name) && text_eq (take (length search) name) search
