-- ===== src/Folding/Tests.antt =====
-- Runs of docs/documentation/html/dynsections.js.
use com_client.Base.{
  ◌+◌, ◌≡◌, refl, ◌&&◌, codes, true, false, List, [], ◌∷◌, ◌++◌, map, leb, take, some, arith,
  get_elem?, text_eq, starts_with,
}
use com_client.Folding.{
  Row, iconfopen, iconfclosed, other_icon, arrow_down, arrow_right, no_arrow, toggle_visibility,
  toggle_level, toggle_folder, update_stripes, row_level, first_child_visible,
}
use com_client.Folding.Laws.{section, toggle_visibility-section}
use com_client.Folding.Rows.{
  shown, after_click, count_shown, is_even, toggle_level-shown, toggle_folder-shown,
  update_stripes-even,
}

section_open : toggle_visibility (section (codes "a/") true) ≡ section (codes "a/") false
section_open = toggle_visibility-section (codes "a/") true

abbrev folder : Row
folder = record {
  id = codes "row_0_";
  visible = true;
  icon = iconfopen;
  arrow = arrow_down;
  even = true;
}

abbrev subfolder : Row
subfolder = record {
  id = codes "row_0_1_";
  visible = true;
  icon = iconfclosed;
  arrow = arrow_right;
  even = false;
}

abbrev file : Row
file = record {
  id = codes "row_0_1_0_";
  visible = false;
  icon = other_icon;
  arrow = no_arrow;
  even = false;
}

abbrev other : Row
other = record {
  id = codes "row_1_";
  visible = true;
  icon = other_icon;
  arrow = no_arrow;
  even = true;
}

abbrev table : List Row
table = folder ∷ subfolder ∷ file ∷ other ∷ []

first_levels_shown : shown (toggle_level 1 table) ≡ map (λ r. leb (row_level r.id) (1 + 1)) table
first_levels_shown = toggle_level-shown 1 table

folded : shown (toggle_folder (codes "0_") table) ≡ true ∷ false ∷ false ∷ true ∷ []
unfolding toggle_folder text_eq starts_with
folded = refl

toggle_folder-shown_example :
    shown (toggle_folder (codes "0_") table)
    ≡ shown []
      ++ true
        ∷ map
            (after_click
              (codes "0_")
              (first_child_visible (codes "0_") (subfolder ∷ file ∷ other ∷ [])))
            (subfolder ∷ file ∷ other ∷ [])
toggle_folder-shown_example =
    toggle_folder-shown (codes "0_") [] folder (subfolder ∷ file ∷ other ∷ []) (ground arith) refl

striped : get_elem? (update_stripes table) 1 ≡ some subfolder
unfolding update_stripes
striped = refl

subfolder_striped : false ≡ true && is_even (count_shown (take 1 table))
subfolder_striped = update_stripes-even table 1 subfolder striped
