-- ===== src/Search/Panel/Select.antt =====
-- The list of sections of `SearchBox`: showing it, hiding it, and its marks.
pub mod Marks
use com_client.Base.{ℕ, suc, List, [], ◌∷◌, if◌then◌else◌, ◌==◌, Option, none, some}
use com_client.Base.Int.{ℤ, pos, ◌+ℤ◌, ◌-ℤ◌}
use com_client.Search.Panel.{
  Panel, Config, Child, block, close_selection, get_x_pos, get_y_pos, set_timeout, clear_timeout,
  focus_item,
}

-- Where the list is put. In a frame its right edge is aligned, once it is shown.
select_position : Config → ℤ × ℤ
select_position cfg =
    let left = get_x_pos cfg.select_place in
    let top = get_y_pos cfg.select_place +ℤ cfg.select_place.offset_height in
    if cfg.in_frame
    then (left +ℤ (cfg.select_place.offset_width +ℤ pos 6) -ℤ cfg.select_window_width, top)
    else (left, top)

unfoldable pub on_search_select_show : Config → Panel → Panel
unfolding select_position clear_timeout
on_search_select_show cfg p =
    let shown = record p { select = block; select_at = select_position cfg } in
    if p.hide_timeout == 0
    then shown
    else record (clear_timeout p.hide_timeout shown) { hide_timeout = 0 }

unfoldable pub on_search_select_hide : Panel → Panel
unfolding set_timeout
on_search_select_hide p = record (set_timeout close_selection p) { hide_timeout = p.next_timer }

count_items : List Child → ℕ
count_items [] = 0
count_items (c ∷ rest) = let n = count_items rest in if c.is_item then suc n else n

unfoldable pub select_item_count : Panel → ℕ
unfolding count_items
select_item_count p = count_items p.children

-- The loop of `SelectItemSet`, with `j` the items passed so far.
mark_from : ℕ → ℕ → List Child → List Child
mark_from id j [] = []
mark_from id j (c ∷ rest) =
    if c.is_item
    then record c { marked = j == id } ∷ mark_from id (suc j) rest
    else c ∷ mark_from id j rest

unfoldable pub select_item_set : ℕ → Panel → Panel
unfolding mark_from
select_item_set id p = record p { children = mark_from id 0 p.children }

-- The position of the first `SelectItem` among the children.
first_item : ℕ → List Child → Option ℕ
first_item i [] = none
first_item i (c ∷ rest) = let later = first_item (suc i) rest in if c.is_item then some i else later

-- Shift with Down or Enter in the field: show the list and go to its first item.
unfoldable pub enter_selection : Config → Panel → Panel
unfolding on_search_select_show first_item
enter_selection cfg p =
    let shown = on_search_select_show cfg p in
    elim (first_item 0 shown.children) [ none ↦ shown | some k ↦ focus_item cfg k shown ]
