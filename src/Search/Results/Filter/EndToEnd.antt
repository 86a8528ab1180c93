-- ===== src/Search/Results/Filter/EndToEnd.antt =====
-- From the panel of docs/documentation/html/search/search.js, which puts the query into the address of
-- the results page, to what the page makes of it.
use com_client.Base.{
  ℕ, zero, suc, Text, codes, true, List, [], ◌∷◌, ◌++◌, none, some, ◌≡◌, ap, sym, ◌∙◌, arith, All,
  get_elem?, map,
}
use com_client.Search.Panel.{block}
use com_client.Search.Url.{escape}
use com_client.Search.Url.RoundTrip.{unescape-escape}
use com_client.Search.Ids.Codec.{IsUnit16}
use com_client.Search.Ids.Matching.{IsPrefix, Comparable}
use com_client.Search.Ids.{row_matches}
use com_client.Search.Results.{Row, Page}
use com_client.Search.Results.Filter.{row_name, prepare, query_of, search}
use com_client.Search.Results.Filter.Shown.{judged, search-rows}
use com_client.Search.Results.Filter.Names.{
  IsIndexed, needle, id_of, found_by_prefix, found-Comparable,
}

get_elem?-map :
    (f : Row → Row) (rows : List Row) (i : ℕ) {r : Row}
    → get_elem? rows i ≡ some r
    → get_elem? (map f rows) i ≡ some (f r)
get_elem?-map f [] i e = cc
get_elem?-map f (r ∷ rows) zero e = cc
get_elem?-map f (r ∷ rows) (suc i) e = get_elem?-map f rows i e

judged-block :
    (fold : ℕ → Text) (q : Text) (r s : Row)
    → some (judged fold q r) ≡ some s
    → s.display ≡ block
    → row_matches q (row_name fold r.id) ≡ true
judged-block fold q r s e shown = ground arith

-- The part of an address behind the page, as the panel writes it for a query.
abbrev pub address : Text → Text
address value = codes "?" ++ escape value

query_of-address : (value : Text) → All IsUnit16 value → query_of none (address value) ≡ value
unfolding query_of
query_of-address value u = unescape-escape value u

module _ (fold : ℕ → Text) (value name suffix : Text) (h : IsIndexed fold name suffix)
    (units : All IsUnit16 value) (needle_units : All IsUnit16 (needle fold value)) (p : Page)
    (i : ℕ) (r : Row) (listed : get_elem? p.rows i ≡ some r)
    (indexed : r.id ≡ id_of name suffix) where
  pub row-after :
      get_elem? (search fold none (address value) p).rows i
      ≡ some (judged fold (prepare fold value) r)
  row-after =
      ap (λ l. get_elem? l i) (search-rows fold none (address value) p).0
      ∙ get_elem?-map (judged fold (prepare fold (query_of none (address value)))) p.rows i listed
      ∙ ap (λ q. some (judged fold (prepare fold q) r)) (query_of-address value units)

  -- For a row that the index lists under a name in lower case, with its number as the suffix of its
  -- id: if the name begins with the query (in lower case, without the spaces at its ends), then the
  -- search that the results page does for its own address, with the query escaped in it, shows the
  -- row. Query and name are of 16-bit units.
  pub search-shows :
      IsPrefix (needle fold value) name
      → (s : Row) × (get_elem? (search fold none (address value) p).rows i ≡ some s)
        × (s.display ≡ block)
  search-shows k =
      let found = found_by_prefix fold value name suffix h needle_units k in
      (judged fold (prepare fold value) r, row-after, rw indexed (ground (arith, found)))

  -- For a row that the index lists under a name in lower case, with its number as the suffix of its id, and
  -- a query and a name of 16-bit units: if the search that the results page does for its own address, with
  -- the query escaped in it, shows the row, then the name begins with the query (in lower case, without the
  -- spaces at its ends) or is itself the beginning of the query.
  pub search-shown_only :
      (s : Row)
      → get_elem? (search fold none (address value) p).rows i ≡ some s
      → s.display ≡ block
      → Comparable (needle fold value) name
  search-shown_only s there shown =
      found-Comparable fold value name suffix h needle_units
        (rw indexed at (judged-block fold (prepare fold value) r s (sym row-after ∙ there) shown))
