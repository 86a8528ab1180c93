-- ===== src/Search/Tests/ResultsTests.antt =====
-- The results page of docs/documentation/html/search/search.js on rows of search/all_8.js.
use Prim.Native.String.{String}
use com_client.Base.{
  ℕ, ◌≤◌, ◌<◌, Text, codes, true, false, List, [], ◌∷◌, ◌++◌, map, none, some, ◌≡◌, refl, ◌≢◌, ◌↔◌,
  arith, get_elem?, text_eq, to_lower, to_lower_case, strip_leading, strip_trailing,
}
use com_client.Search.Panel.{unset, hidden, block}
use com_client.Search.Ids.{convert_to_id, row_matches, encode_unit}
use com_client.Search.Ids.Codec.{decode, decode-convert_to_id}
use com_client.Search.Ids.Matching.{IsPrefix, Comparable, found_by_number}
use com_client.Search.Results.{item, Hit, Entry, multiple, Row, Page, child, create_results}
use com_client.Search.Results.Tree.{
  Tag, Class, Node, size_all, element, nil, cons, find_child_element, row_node,
}
use com_client.Search.Results.Tree.Rounds.{Ends, find_child_element-Ends}
use com_client.Search.Results.Tree.Laws.{first_among, find_child_element-eq-first}
use com_client.Search.Results.Filter.{prepare, query_of, filter_rows, row_name, strip_sr, search}
use com_client.Search.Url.{escape, unescape}
use com_client.Search.Results.Filter.Shown.{judged, count_shown, search-rows}
use com_client.Search.Results.Filter.Names.{IsIndexed, needle}
use com_client.Search.Results.Filter.EndToEnd.{address, search-shows, search-shown_only}
use com_client.Search.Results.Nav.{
  keydown, keypress, keyup, process_keys, nav_next, nav_prev, nav_up, nav_down, list_shown,
  row_by_id, children_shown,
}
use com_client.Search.Results.Nav.Rows.{IsVisible, nav_next-nearest, nav_prev-nearest}
use com_client.Search.Results.Nav.Keys.{pressed, process_keys-protocol}
use com_client.Search.Results.Nav.Rounds.{focus_after, row_behind_list, down-up}
use com_client.Search.Results.Nav.Focus.{IsBelow, nav_up-wrong_list, nav_down-IsBelow}

abbrev plain_fold : ℕ → Text
plain_fold c = c ∷ []

abbrev hit : String → Hit
hit s = record { href = codes s; in_parent = true; scope = codes s }

abbrev entries : List Entry
entries =
    record { id = codes "hostname_92"; label = codes "hostname"; hits = hit "stream_info" ∷ [] }
    ∷ record { id = codes "hex_90"; label = codes "HEX"; hits = hit "c" ∷ hit "cpp" ∷ [] }
    ∷ record {
      id = codes "http_5fclient_93";
      label = codes "HTTP_client";
      hits = hit "class" ∷ hit "ctor" ∷ [];
    }
    ∷ []

abbrev blank : Page
blank = record {
  rows = create_results entries;
  searching = unset;
  no_matches = hidden;
  last_match_count = 0;
  last_key = 0;
  repeat_on = false;
  focus = none;
  closed = 0;
}

results_on : Unit {0}
unfolding create_results search query_of prepare convert_to_id to_lower_case strip_leading
    strip_trailing row_matches text_eq to_lower encode_unit filter_rows row_name strip_sr escape
    unescape
results_on = tt

abbrev name : Text
name = codes "http_client"

indexed : IsIndexed plain_fold name (codes "_93")
unfolding to_lower
indexed = record { units = omega arith; lower = ground arith; suffix_lower = ground arith }

abbrev third : Row
third = record {
  id = codes "SR_http_5fclient_93";
  label = codes "HTTP_client";
  href = codes "javascript:searchResults.Toggle(\"SR_http_5fclient_93\")";
  target_parent = false;
  body = multiple unset (hit "class" ∷ hit "ctor" ∷ []);
  display = unset;
}

search-shows_example :
    (s : Row) × (get_elem? (search plain_fold none (address (codes "HTTP_")) blank).rows 2 ≡ some s)
    × (s.display ≡ block)
unfolding results_on
search-shows_example =
    search-shows plain_fold (codes "HTTP_") name (codes "_93") indexed (omega arith) (omega arith)
      blank 2 third refl refl (codes "client", refl)

search-shown_only_example : Comparable (needle plain_fold (codes "HTTP_")) name
unfolding results_on
search-shown_only_example =
    search-shown_only plain_fold (codes "HTTP_") name (codes "_93") indexed (omega arith)
      (omega arith) blank 2 third refl refl (record third { display = block }) refl refl

search-rows_example :
    let q = search plain_fold (some (codes "he")) [] blank in
    (q.rows
      ≡ map (judged plain_fold (prepare plain_fold (query_of (some (codes "he")) []))) blank.rows)
    × (q.last_match_count ≡ count_shown q.rows)
    × ((q.no_matches ≡ block) ↔ (count_shown q.rows ≡ 0))
    × (q.searching ≡ hidden)
search-rows_example = search-rows plain_fold (some (codes "he")) [] blank

one_match : (search plain_fold (some (codes " He ")) [] blank).last_match_count ≡ 1
unfolding results_on
one_match = refl

decode-convert_to_id_example : decode (convert_to_id (codes "a_B ~")) ≡ codes "a_B ~"
decode-convert_to_id_example = decode-convert_to_id (codes "a_B ~") (omega arith)

found_by_number_example :
    (row_matches
        (convert_to_id (codes "hex" ++ codes "@"))
        (convert_to_id (codes "hex") ++ codes "_40")
      ≡ true)
    × ¬ IsPrefix (codes "hex" ++ codes "@") (codes "hex")
found_by_number_example = found_by_number (codes "hex")

-- The part of a row below its `div`, with a list of links.
abbrev entry_div : Node
entry_div = element Tag.div Class.entry block (
    cons (element Tag.anchor Class.symbol block nil)
      (cons (element Tag.div Class.children block nil) nil))

find_child_element-Ends_example :
    (k : ℕ) × (k ≤ size_all (cons entry_div nil)) × Ends k entry_div nil []
find_child_element-Ends_example = find_child_element-Ends entry_div nil

find_child_element-eq-first_example :
    find_child_element
      (element Tag.div Class.result block (cons (element Tag.div Class.children hidden nil) nil))
    ≡ first_among (cons (element Tag.div Class.children hidden nil) nil)
find_child_element-eq-first_example =
    find_child_element-eq-first Tag.div Class.result block
      (cons (element Tag.div Class.children hidden nil) nil)

-- The first row with an open list, the second hidden, the third visible.
abbrev opened : Row
opened = record third { id = codes "SR_a_0"; body = multiple block (hit "x" ∷ []); display = block }

abbrev covered : Row
covered = record third {
  id = codes "SR_b_1";
  body = multiple block (hit "y" ∷ hit "z" ∷ []);
  display = hidden;
}

abbrev plain_row : Row
plain_row = record third { id = codes "SR_c_2"; display = block }

abbrev mixed : Page
mixed = record blank { rows = opened ∷ covered ∷ plain_row ∷ [] }

nav_next-nearest_example :
    (j : ℕ) × (nav_next 1 mixed.rows ≡ some j) × (1 ≤ j) × (j ≤ 2) × IsVisible j mixed.rows
nav_next-nearest_example = nav_next-nearest 1 2 mixed.rows (omega arith) (plain_row, refl, refl)

nav_prev_finds :
    (j : ℕ) × (nav_prev 2 mixed.rows ≡ some j) × (0 ≤ j) × (j < 2) × IsVisible j mixed.rows
nav_prev_finds = nav_prev-nearest 2 0 mixed.rows (omega arith) (omega arith) (opened, refl, refl)

process_keys-protocol_example :
    ((process_keys keydown 40 blank).1 ≡ true)
    × ((process_keys keypress 0 (process_keys keydown 40 blank).0).1 ≡ false)
    × ((process_keys keypress 0 (pressed 4 0 (process_keys keydown 40 blank).0)).1 ≡ true)
    × ((pressed 4 0 (process_keys keydown 40 blank).0).last_key ≡ 40)
    × ((process_keys keyup 0 (pressed 4 0 (process_keys keydown 40 blank).0)).1 ≡ false)
    × ((process_keys keyup 0 (pressed 4 0 (process_keys keydown 40 blank).0)).0.last_key ≡ 0)
process_keys-protocol_example = process_keys-protocol 40 0 3 blank (omega arith)

opened_shown : list_shown (codes "SR_a_0") mixed ≡ true
unfolding list_shown row_by_id children_shown text_eq find_child_element row_node
opened_shown = refl

-- From the third row, Up goes to the last link of the hidden list of the second.
nav_up-wrong_list_example : (nav_up 2 mixed ≡ child 1 1) × (covered.display ≢ block)
nav_up-wrong_list_example =
    nav_up-wrong_list mixed 1 0 opened covered (hit "y") (hit "z" ∷ []) (unfold nav_prev in refl)
      (omega arith) refl opened_shown refl refl

-- A row with an open list of one link, and the row behind it.
abbrev two_shown : Page
two_shown = record blank { rows = opened ∷ plain_row ∷ [] }

two_shown_listed : list_shown (codes "SR_a_0") two_shown ≡ true
unfolding list_shown row_by_id children_shown text_eq find_child_element row_node
two_shown_listed = refl

down-up_example :
    (focus_after 40 (child 0 0) two_shown ≡ some (item 1))
    × (focus_after 38 (item 1) two_shown ≡ some (child 0 0))
down-up_example =
    down-up two_shown (child 0 0) (item 1)
      (row_behind_list 0 opened plain_row (hit "x") [] refl refl two_shown_listed refl refl refl)

nav_down-IsBelow_example : IsBelow mixed 0 (child 0 0)
nav_down-IsBelow_example = nav_down-IsBelow mixed 0 opened (child 0 0) (
    unfold nav_down list_shown row_by_id children_shown text_eq find_child_element row_node in refl)
