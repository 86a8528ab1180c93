-- ===== src/Search/Results/Nav.antt =====
-- The keys of the results page in docs/documentation/html/search/search.js: `Toggle`, `NavNext`, `NavPrev`,
-- `ProcessKeys`, `Nav` and `NavChild` of `SearchResults`.
pub mod Rows
pub mod Keys
pub mod Focus
pub mod Rounds
use com_client.Base.{
  ℕ, zero, suc, ◌+◌, ◌-◌, Text, Bool, true, false, not, ◌&&◌, List, [], ◌∷◌, if◌then◌else◌, ◌==◌,
  ltb, Option, none, some, length, get_elem?, drop, text_eq,
}
use com_client.Search.Panel.{Display, hidden, block, is_block}
use com_client.Search.Results.{
  Hit, Body, single, multiple, Row, Target, item, child, search_field, Page,
}
use com_client.Search.Results.Tree.{Node, display_of, find_child_element, row_node}

-- What a handler returns; `threw` is a TypeError, from a member of null.
pub data Reply : Type 0 where
  returned : Bool → Page → Reply
  threw : Page → Reply

-- `document.getElementById(id)` at the id of a row.
unfoldable pub row_by_id : Text → List Row → Option Row
row_by_id id [] = none
row_by_id id (r ∷ rows) = if text_eq r.id id then some r else row_by_id id rows

abbrev pub hits_of : Body → List Hit
hits_of (single h) = []
hits_of (multiple d hits) = hits

-- The links of the folded list of a row, if there are both.
abbrev pub hits_at : ℕ → Page → List Hit
hits_at i p = elim (get_elem? p.rows i) [ none ↦ [] | some r ↦ hits_of r.body ]

abbrev with_display : Display → Body → Body
with_display d (single h) = single h
with_display d (multiple _ hits) = multiple d hits

-- The walk of `FindChildElement` from a row, and whether what it finds is visible.
unfoldable pub children_shown : Row → Bool
children_shown r = elim (find_child_element (row_node r)) [
  | none ↦ false
  | some n ↦ is_block (display_of n)
]

-- `FindChildElement(id)`, and whether what it finds is visible.
unfoldable pub list_shown : Text → Page → Bool
list_shown id p = elim (row_by_id id p.rows) [ none ↦ false | some r ↦ children_shown r ]

set_children : Display → Row → Row
set_children d r = elim (find_child_element (row_node r)) [
  | none ↦ r
  | some n ↦ record r { body = with_display d r.body }
]

-- A change of the first row with an id.
unfoldable pub update_row : Text → (Row → Row) → List Row → List Row
update_row id f [] = []
update_row id f (r ∷ rows) = if text_eq r.id id then f r ∷ rows else r ∷ update_row id f rows

toggled : Row → Row
unfolding children_shown set_children
toggled r = set_children (if children_shown r then hidden else block) r

unfoldable pub toggle : Text → Page → Option Page
unfolding toggled
toggle id p = elim (row_by_id id p.rows) [
  | none ↦ none
  | some r ↦ some (record p { rows = update_row id toggled p.rows })
]

-- The rows from number `i` on, up to one that is visible; no row is the end of the loop too.
nav_from : ℕ → List Row → Option ℕ
nav_from i [] = none
nav_from i (r ∷ rows) =
    let later = nav_from (suc i) rows in if is_block r.display then some i else later

unfoldable pub nav_next : ℕ → List Row → Option ℕ
unfolding nav_from
nav_next i rows = nav_from i (drop i rows)

-- The same downwards, from the row before number `i`; before row 0 no element has the id.
unfoldable pub nav_prev : ℕ → List Row → Option ℕ
nav_prev zero rows = none
nav_prev (suc i) rows =
    let earlier = nav_prev i rows in
    elim (get_elem? rows i) [
      | none ↦ none
      | some r ↦ if is_block r.display then some i else earlier
    ]

pub data EventType : Type 0 where
  keydown keypress keyup other : EventType

unfoldable pub process_keys : EventType → ℕ → Page → Page × Bool
process_keys keydown k p = (record p { repeat_on = false; last_key = k }, not (k == 0))
process_keys keypress k p =
    if p.repeat_on
    then (p, not (p.last_key == 0))
    else (record p { repeat_on = not (p.last_key == 0) }, false)
process_keys keyup k p = (record p { last_key = 0; repeat_on = false }, false)
process_keys other k p = (p, not (p.last_key == 0))

-- The loop that looks for the last link of the list of row `i`, with `n` links passed.
unfoldable pub last_child : ℕ → ℕ → List Hit → Target → Target
last_child i n [] t = t
last_child i n (h ∷ hits) t = last_child i (suc n) hits (child i n)

-- Up, from row `i`.
unfoldable pub nav_up : ℕ → Page → Target
nav_up i p = elim (nav_prev i p.rows) [
  | none ↦ search_field
  | some j ↦ elim (get_elem? p.rows j) [
    | none ↦ item j
    | some r ↦
        if list_shown r.id p then last_child (i - 1) 0 (hits_at (i - 1) p) (item j) else item j
  ]
]

-- The first link of the list of row `i`, or the next row that is visible.
abbrev first_or_next : ℕ → Page → Option Target → Option Target
first_or_next i p (some t) = some t
first_or_next i p none = elim (nav_next i p.rows) [ none ↦ none | some j ↦ some (item j) ]

child_at : ℕ → ℕ → Page → Option Target
child_at i n p = elim (get_elem? (hits_at i p) n) [ none ↦ none | some h ↦ some (child i n) ]

-- Down, from row `i`, which is `r`.
unfoldable pub nav_down : ℕ → Row → Page → Option Target
unfolding child_at
nav_down i r p = first_or_next (i + 1) p (if list_shown r.id p then child_at i 0 p else none)

abbrev focus_on : Option Target → Page → Page
focus_on none p = p
focus_on (some t) p = record p { focus = some t }

-- Escape: the panel of the surrounding page is closed and its field has the focus.
abbrev leave : Page → Page
leave p = record p { closed = p.closed + 1; focus = some search_field }

fold_list : Display → ℕ → Page → Reply
unfolding set_children
fold_list d i p = elim (get_elem? p.rows i) [
  | none ↦ threw p
  | some r ↦ returned false (record p { rows = update_row r.id (set_children d) p.rows })
]

go_down : ℕ → Page → Reply
go_down i p = elim (get_elem? p.rows i) [
  | none ↦ threw p
  | some r ↦ returned false (focus_on (nav_down i r p) p)
]

-- The branches of `Nav` by `lastKey`.
nav_key : ℕ → Page → Reply
unfolding go_down fold_list
nav_key i p =
    if p.last_key == 38
    then returned false (focus_on (some (nav_up i p)) p)
    else if p.last_key == 40
    then go_down i p
    else if p.last_key == 39
    then fold_list block i p
    else if p.last_key == 37
    then fold_list hidden i p
    else if p.last_key == 27
    then returned false (leave p)
    else returned (p.last_key == 13) p

unfoldable pub nav : EventType → ℕ → ℕ → Page → Reply
unfolding nav_key
nav type key_code i p =
    let (p', on) = process_keys type key_code p in
    if key_code == 13 then returned true p else if on then nav_key i p' else returned false p'

-- Up, from link `n` of the list of row `i`: the link before, or the row.
child_up : ℕ → ℕ → Page → Reply
unfolding child_at
child_up i zero p =
    if ltb i (length p.rows) then returned false (record p { focus = some (item i) }) else threw p
child_up i (suc n) p = elim (child_at i n p) [
  | none ↦ threw p
  | some t ↦ returned false (record p { focus = some t })
]

child_key : ℕ → ℕ → Page → Reply
unfolding child_up child_at
child_key i n p =
    if p.last_key == 38
    then child_up i n p
    else if p.last_key == 40
    then returned false (focus_on (first_or_next (i + 1) p (child_at i (n + 1) p)) p)
    else if p.last_key == 27
    then returned false (leave p)
    else returned (p.last_key == 13) p

unfoldable pub nav_child : EventType → ℕ → ℕ → ℕ → Page → Reply
unfolding child_key
nav_child type key_code i n p =
    let (p', on) = process_keys type key_code p in
    if key_code == 13 then returned true p else if on then child_key i n p' else returned false p'
