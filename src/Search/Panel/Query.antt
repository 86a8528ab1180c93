-- ===== src/Search/Panel/Query.antt =====
-- `Search` and the handlers of `SearchBox` that call it.
use com_client.Base.{
  List, map, ℕ, ◌+◌, ◌-◌, Text, codes, Bool, true, false, not, ◌&&◌, ◌||◌, [], ◌∷◌, ◌++◌,
  if◌then◌else◌, ltb, leb, ◌==◌, Option, none, some, get_elem?, take, text_eq, strip_leading,
  remove_spaces, to_lower_case, index_of, to_string,
}
use com_client.Base.Int.{pos, ◌+ℤ◌, ◌-ℤ◌}
use com_client.Search.Url.{escape}
use com_client.Search.Panel.{
  Panel, Config, block, inline_block, is_block, get_x_pos, get_y_pos, close_selection_window,
  focus_field,
}
use com_client.Search.Panel.Select.{select_item_count, select_item_set}

-- A handler returns, or throws a TypeError; what it had written stays.
pub data Outcome : Type 0 where
  done : Panel → Outcome
  threw : Panel → Outcome

abbrev pub state : Outcome → Panel
state (done p) = p
state (threw p) = p

infixl 5 ◌>>=◌
abbrev pub ◌>>=◌ : Outcome → (Panel → Outcome) → Outcome
done p >>= f = f p
threw p >>= f = threw p

unfoldable pub is_lead_surrogate : Text → Bool
is_lead_surrogate [] = false
is_lead_surrogate (c ∷ s) = leb 0xD800 c && leb c 0xDBFF

-- The first character, by which the results are divided into pages.
unfoldable pub index_char : Config → Text → Text
unfolding is_lead_surrogate
index_char cfg value =
    if is_lead_surrogate (to_lower_case cfg.fold value) && cfg.exceeds_one value
    then take 2 value
    else to_lower_case cfg.fold (take 1 value)

-- A missing entry of `indexSectionNames` is `undefined`, also as text.
unfoldable pub section_name : Config → ℕ → Text
section_name cfg section = elim (get_elem? cfg.section_names section) [
  | none ↦ codes "undefined"
  | some s ↦ s
]

unfoldable pub page_path : Config → ℕ → ℕ → Text
unfolding section_name
page_path cfg section idx =
    cfg.results_path
    ++ codes "/"
    ++ section_name cfg section
    ++ codes "_"
    ++ to_string 16 idx
    ++ cfg.extension

unfoldable pub no_matches_path : Config → Text
no_matches_path cfg = cfg.results_path ++ codes "/nomatches" ++ cfg.extension

-- The results page, with the query in it if there is such a page. `none` is the TypeError of a
-- section that the tables do not have: `indexOf` of undefined.
unfoldable pub results_page : Config → ℕ → Text → Option (Text × Text)
unfolding index_char page_path no_matches_path
results_page cfg section value = elim (get_elem? cfg.sections_with_content section) [
  | none ↦ none
  | some content ↦ elim (index_of (index_char cfg value) content) [
    | none ↦ some (no_matches_path cfg, no_matches_path cfg)
    | some idx ↦
        some (page_path cfg section idx, page_path cfg section idx ++ codes "?" ++ escape value)
  ]
]

-- In a frame the popup has the width of the page; otherwise it hangs at the search box.
place_popup : Config → Panel → Panel
place_popup cfg p =
    if cfg.in_frame
    then record p { popup_relative = true; popup_width = some (cfg.client_width -ℤ pos 8) }
    else record p {
      popup_at = (
        get_x_pos cfg.box_place +ℤ pos 150 -ℤ cfg.results_width,
        get_y_pos cfg.box_place +ℤ pos 20,
      );
    }

show_popup : Config → Panel → Panel
unfolding place_popup
show_popup cfg p =
    if is_block p.popup
    then p
    else record (place_popup cfg p) { close = inline_block; popup = block }

-- What `Search` does once the page is known.
unfoldable pub show_results : Config → Text → Text × Text → Panel → Panel
unfolding show_popup
show_results cfg value (page, target) p = record (show_popup cfg (record p { frame = target })) {
  last_search_value = value;
  last_results_page = page;
}

unfoldable pub search : Config → Panel → Outcome
unfolding show_results
search cfg p =
    let p' = record p { key_timeout = 0 } in
    let value = strip_leading p.field in
    elim (results_page cfg p.search_index value) [
      | none ↦ threw p'
      | some page ↦ done (show_results cfg value page p')
    ]

unfoldable pub on_select_item : Config → ℕ → Panel → Outcome
unfolding search
on_select_item cfg id p =
    let p' = select_item_set id (record p { search_index = id }) in
    if not (text_eq (remove_spaces p'.field) []) && p'.search_active then search cfg p' else done p'

pub record KeyEvent : Type 0 where
  pub key_code : ℕ
  pub shift : Bool

abbrev close_and_return : Config → Panel → Outcome
close_and_return cfg p = done (focus_field cfg (close_selection_window p))

unfoldable pub on_search_select_key : Config → KeyEvent → Panel → Outcome
on_search_select_key cfg e p =
    let choose = on_select_item cfg p.search_index p >>= close_and_return cfg in
    if e.key_code == 40 && ltb p.search_index (select_item_count p)
    then on_select_item cfg (p.search_index + 1) p
    else if e.key_code == 38 && ltb 0 p.search_index
    then on_select_item cfg (p.search_index - 1) p
    else if e.key_code == 13 || e.key_code == 27
    then choose
    else done p

-- `init_search`: an item for each label behind what the window holds, and the first section chosen.
unfoldable pub init_search : Config → List Text → Panel → Outcome
unfolding on_select_item
init_search cfg labels p = on_select_item cfg 0 (record p {
  children = p.children ++ map (λ l. record { is_item = true; marked = false }) labels;
})
