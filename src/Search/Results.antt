-- ===== src/Search/Results.antt =====
-- The results page of docs/documentation/html/search/search.js: the rows that `createResults` builds,
-- and the state of `SearchResults`.
pub mod Tree
pub mod Filter
pub mod Nav
use com_client.Base.{
  ℕ, zero, suc, ◌+◌, Text, codes, Bool, true, false, List, [], ◌∷◌, ◌++◌, if◌then◌else◌, ◌==◌,
  Option, none, some, length, to_string,
}
use com_client.Search.Panel.{Display, unset}

-- An entry of `searchData`: [id, [label, [href, in_parent, scope], ...]].
pub record Hit : Type 0 where
  pub href : Text
  pub in_parent : Bool
  pub scope : Text

pub record Entry : Type 0 where
  pub id : Text
  pub label : Text
  pub hits : List Hit

-- Behind the link of a row: the scope of its one hit, or a list of links that can be folded.
pub data Body : Type 0 where
  single : Hit → Body
  multiple : Display → List Hit → Body

-- A `div` of class SRResult. The link in it has the id "Item" and the row's number in the list.
pub record Row : Type 0 where
  pub id : Text
  pub label : Text
  pub href : Text
  pub target_parent : Bool
  pub body : Body
  pub display : Display

unfoldable pub row_of : Entry → Row
row_of e = elim e.hits [
  | h ∷ [] ↦ record {
    id = codes "SR_" ++ e.id;
    label = e.label;
    href = h.href;
    target_parent = h.in_parent;
    body = single h;
    display = unset;
  }
  | _ ↦ record {
    id = codes "SR_" ++ e.id;
    label = e.label;
    href = codes "javascript:searchResults.Toggle(\"SR_" ++ e.id ++ codes "\")";
    target_parent = false;
    body = multiple unset e.hits;
    display = unset;
  }
]

unfoldable pub create_results : List Entry → List Row
unfolding row_of
create_results [] = []
create_results (e ∷ rest) = row_of e ∷ create_results rest

-- An element that can have the focus: a row's link, a link of its folded list, or the search field
-- of the surrounding page.
pub data Target : Type 0 where
  item : ℕ → Target
  child : ℕ → ℕ → Target
  search_field : Target

pub record Page : Type 0 where
  pub rows : List Row
  pub searching : Display
  pub no_matches : Display
  pub last_match_count : ℕ
  pub last_key : ℕ
  pub repeat_on : Bool
  pub focus : Option Target
  -- calls of the panel's `CloseResultsWindow`
  pub closed : ℕ
