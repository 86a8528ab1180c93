-- ===== src/Search/Results/Filter/Shown.antt =====
-- The loop of `Search` on the results page of docs/documentation/html/search/search.js, row by row.
use com_client.Base.{ℕ, suc, ◌+◌, Text, List, [], ◌∷◌, if◌then◌else◌, Option, ◌≡◌, ◌↔◌, arith, map}
use com_client.Search.Panel.{hidden, block, is_block}
use com_client.Search.Ids.{row_matches}
use com_client.Search.Results.{Row, Page}
use com_client.Search.Results.Filter.{row_name, prepare, query_of, filter_rows, search}

-- A row as the search leaves it.
abbrev pub judged : (ℕ → Text) → Text → Row → Row
judged fold q r = record r {
  display = if row_matches q (row_name fold r.id) then block else hidden;
}

pub count_shown : List Row → ℕ
count_shown [] = 0
count_shown (r ∷ rest) = let n = count_shown rest in if is_block r.display then suc n else n

filter_rows-eq :
    (fold : ℕ → Text) (q : Text) (rows : List Row) (n : ℕ)
    → filter_rows fold q rows n
      ≡ (map (judged fold q) rows, n + count_shown (map (judged fold q) rows))
unfolding filter_rows count_shown
filter_rows-eq fold q [] n = ground arith
filter_rows-eq fold q (r ∷ rows) n =
    ground (arith, filter_rows-eq fold q rows n, filter_rows-eq fold q rows (suc n))

-- A search judges every row by itself and changes no other part of a row, nor the rows' order. The
-- count it keeps is that of the rows shown, "No Matches" is shown just when it is zero, and the
-- note that it is searching is hidden.
pub search-rows :
    (fold : ℕ → Text) (given : Option Text) (location : Text) (p : Page)
    → let q = search fold given location p in
      (q.rows ≡ map (judged fold (prepare fold (query_of given location))) p.rows)
      × (q.last_match_count ≡ count_shown q.rows)
      × ((q.no_matches ≡ block) ↔ (count_shown q.rows ≡ 0))
      × (q.searching ≡ hidden)
unfolding search
search-rows fold given location p =
    ground (arith, filter_rows-eq fold (prepare fold (query_of given location)) p.rows 0)
