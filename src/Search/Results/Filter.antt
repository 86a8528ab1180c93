-- ===== src/Search/Results/Filter.antt =====
-- `Search` of `SearchResults` in docs/documentation/html/search/search.js: which rows are shown.
pub mod Shown
pub mod Names
pub mod EndToEnd
use com_client.Base.{
  ℕ, zero, suc, Text, codes, Bool, true, false, ◌&&◌, List, [], ◌∷◌, if◌then◌else◌, ◌==◌, leb,
  Option, none, some, strip_leading, strip_trailing, to_lower_case, drop,
}
use com_client.Search.Panel.{Display, hidden, block}
use com_client.Search.Ids.{convert_to_id, row_matches}
use com_client.Search.Url.{unescape}
use com_client.Search.Results.{Row, Page}

skip_digits : Text → Text
skip_digits [] = []
skip_digits (c ∷ s) = if leb b'0' c && leb c b'9' then skip_digits s else c ∷ s

-- What follows the `_` of a text that begins with it.
after_underscore : Text → Option Text
after_underscore [] = none
after_underscore (c ∷ s) = if c == b'_' then some s else none

-- `name.replace(/^sr\d*_/, '')`
unfoldable pub strip_sr : Text → Text
unfolding skip_digits after_underscore
strip_sr (a ∷ b ∷ s) =
    if a == b's' && b == b'r'
    then elim (after_underscore (skip_digits s)) [ none ↦ a ∷ b ∷ s | some rest ↦ rest ]
    else a ∷ b ∷ s
strip_sr s = s

unfoldable pub row_name : (ℕ → Text) → Text → Text
row_name fold id = strip_sr (to_lower_case fold id)

-- The query as the loop compares it.
unfoldable pub prepare : (ℕ → Text) → Text → Text
prepare fold search = convert_to_id (to_lower_case fold (strip_trailing (strip_leading search)))

-- `if (!search)`: the query of the page's address, without its `?`.
unfoldable pub query_of : Option Text → Text → Text
query_of none location = unescape (drop 1 location)
query_of (some []) location = unescape (drop 1 location)
query_of (some (c ∷ s)) location = c ∷ s

-- The loop over the rows, with the matches counted so far.
unfoldable pub filter_rows : (ℕ → Text) → Text → List Row → ℕ → List Row × ℕ
filter_rows fold search [] matches = ([], matches)
filter_rows fold search (r ∷ rest) matches =
    let found = row_matches search (row_name fold r.id) in
    let later = filter_rows fold search rest (if found then suc matches else matches) in
    (record r { display = if found then block else hidden } ∷ later.0, later.1)

unfoldable pub search : (ℕ → Text) → Option Text → Text → Page → Page
search fold given location p =
    let result = filter_rows fold (prepare fold (query_of given location)) p.rows 0 in
    record p {
      rows = result.0;
      searching = hidden;
      no_matches = if result.1 == 0 then block else hidden;
      last_match_count = result.1;
    }
