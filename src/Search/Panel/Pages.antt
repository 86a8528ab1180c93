-- ===== src/Search/Panel/Pages.antt =====
-- Which character the panel of docs/documentation/html/search/search.js reads of a query.
use com_client.Base.{Text, true, false, ◌≡◌, arith, take, to_lower_case}
use com_client.Search.Panel.{Config}
use com_client.Search.Panel.Query.{index_char, is_lead_surrogate}

-- A text that begins with a lead surrogate is no number, so that `searchValue > 1` is false.
abbrev pub SurrogatesAreNoNumbers : Config → Type 0
SurrogatesAreNoNumbers cfg =
    (s : Text) → is_lead_surrogate (to_lower_case cfg.fold s) ≡ true → cfg.exceeds_one s ≡ false

-- If no text with a lead surrogate in front is a number above 1, the character that chooses the
-- page is the first code unit of the value in lower case, so a surrogate pair is never read whole.
pub index_char-one_unit :
    (cfg : Config) (value : Text)
    → SurrogatesAreNoNumbers cfg
    → index_char cfg value ≡ to_lower_case cfg.fold (take 1 value)
unfolding index_char
index_char-one_unit cfg value h = ground (arith, h value)
