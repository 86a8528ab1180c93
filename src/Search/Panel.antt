-- ===== src/Search/Panel.antt =====
-- The class `SearchBox` of docs/documentation/html/search/search.js: its fields, the parts of the
-- page that it reads and writes, its timers, and the handlers that only open and close.
pub mod Select
pub mod Query
pub mod Field
pub mod Events
pub mod Invariant
pub mod Keys
pub mod Typed
pub mod Sections
pub mod Pages
use com_client.Base.{
  Option, none, ℕ, zero, suc, ◌+◌, Text, codes, Bool, true, false, not, ◌||◌, List, [], ◌∷◌, ◌++◌,
  if◌then◌else◌, ◌==◌, text_eq,
}
use com_client.Base.Int.{ℤ, pos, ◌+ℤ◌, ◌-ℤ◌}

-- `style.display`; `unset` leaves it to the style sheet.
pub data Display : Type 0 where
  unset hidden block inline_block : Display

abbrev pub is_block : Display → Bool
is_block block = true
is_block _ = false

pub data BoxClass : Type 0 where
  active inactive : BoxClass

-- `MSearchField`, or an item of the section list.
pub data Focus : Type 0 where
  nowhere search_field : Focus
  select_item : ℕ → Focus

-- What a timer evaluates.
pub data Task : Type 0 where
  search close_selection : Task

-- A child of `MSearchSelectWindow`, and whether it bears the bullet.
pub record Child : Type 0 where
  pub is_item : Bool
  pub marked : Bool

-- An element's place: its size, and the offsets of the element and of the parents below `body`.
pub record Place : Type 0 where
  pub offset_width : ℤ
  pub offset_height : ℤ
  pub chain : List (ℤ × ℤ)

-- The arguments of the constructor, the tables of searchdata.js, the browser's layout and the parts
-- of the language's runtime that the code calls: Unicode case (`fold`) and `text > 1`.
pub record Config : Type 0 where
  pub name : Text
  pub results_path : Text
  pub in_frame : Bool
  pub label : Text
  pub extension : Text
  pub sections_with_content : List Text
  pub section_names : List Text
  pub select_place : Place
  pub select_window_width : ℤ
  pub box_place : Place
  pub results_width : ℤ
  pub client_width : ℤ
  pub fold : ℕ → Text
  pub exceeds_one : Text → Bool

pub record Panel : Type 0 where
  pub key_timeout : ℕ
  pub last_search_value : Text
  pub last_results_page : Text
  pub hide_timeout : ℕ
  pub search_index : ℕ
  pub search_active : Bool
  pub field : Text
  pub focus : Focus
  pub box_class : BoxClass
  pub popup : Display
  pub close : Display
  pub select : Display
  pub children : List Child
  pub frame : Text
  pub take_focus : ℕ
  pub select_at : ℤ × ℤ
  pub popup_at : ℤ × ℤ
  pub popup_relative : Bool
  pub popup_width : Option ℤ
  pub next_timer : ℕ
  pub pending : List (ℕ × Task)

abbrev pub default_key_timeout_length : ℕ
default_key_timeout_length = 500

abbrev pub default_close_selection_timeout : ℕ
default_close_selection_timeout = 300

-- `if (!extension || extension == "") { extension = ".html"; }`
pub extension_of : Text → Text
extension_of [] = codes ".html"
extension_of (c ∷ s) = c ∷ s

-- The fields that the constructor sets. Timer identifiers of a browser start at 1.
unfoldable pub new_panel : Text → List Child → Panel
new_panel field children = record {
  key_timeout = 0;
  last_search_value = [];
  last_results_page = [];
  hide_timeout = 0;
  search_index = 0;
  search_active = false;
  field = field;
  focus = nowhere;
  box_class = inactive;
  popup = unset;
  close = unset;
  select = unset;
  children = children;
  frame = [];
  take_focus = 0;
  select_at = (pos 0, pos 0);
  popup_at = (pos 0, pos 0);
  popup_relative = false;
  popup_width = none;
  next_timer = 1;
  pending = [];
}

sum_left : List (ℤ × ℤ) → ℤ
sum_left [] = pos 0
sum_left ((l, t) ∷ rest) = l +ℤ sum_left rest

sum_top : List (ℤ × ℤ) → ℤ
sum_top [] = pos 0
sum_top ((l, t) ∷ rest) = t +ℤ sum_top rest

is_zero : ℤ → Bool
is_zero (pos n) = n == 0
is_zero n = false

unfoldable pub get_x_pos : Place → ℤ
unfolding sum_left is_zero
get_x_pos item = if is_zero item.offset_width then pos 0 else sum_left item.chain

unfoldable pub get_y_pos : Place → ℤ
unfolding sum_top is_zero
get_y_pos item = if is_zero item.offset_width then pos 0 else sum_top item.chain

-- `setTimeout`: a fresh identifier, which is not 0.
unfoldable pub set_timeout : Task → Panel → Panel
set_timeout t p = record p {
  next_timer = p.next_timer + 1;
  pending = (p.next_timer, t) ∷ p.pending;
}

unfoldable pub remove_timer : ℕ → List (ℕ × Task) → List (ℕ × Task)
remove_timer i [] = []
remove_timer i ((j, t) ∷ rest) =
    if j == i then remove_timer i rest else (j, t) ∷ remove_timer i rest

unfoldable pub clear_timeout : ℕ → Panel → Panel
clear_timeout i p = record p { pending = remove_timer i p.pending }

-- The two branches of `Activate`.
open_panel : Config → Panel → Panel
open_panel cfg p =
    if text_eq p.field cfg.label
    then record p { box_class = active; field = []; search_active = true }
    else record p { box_class = active }

close_panel : Config → Panel → Panel
close_panel cfg p = record p {
  box_class = inactive;
  field = cfg.label;
  search_active = false;
  last_search_value = [];
  last_results_page = [];
}

unfoldable pub activate : Config → Bool → Panel → Panel
unfolding open_panel close_panel
activate cfg is_active p =
    if is_active || is_block p.popup then open_panel cfg p else close_panel cfg p

unfoldable pub on_search_field_focus : Config → Bool → Panel → Panel
unfolding activate
on_search_field_focus cfg is_active p = activate cfg is_active p

-- The page calls `OnSearchFieldFocus` when the field gets the focus and when it loses it.
unfoldable pub blur_field : Config → Panel → Panel
unfolding on_search_field_focus
blur_field cfg p = elim p.focus [
  | search_field ↦ on_search_field_focus cfg false (record p { focus = nowhere })
  | _ ↦ p
]

unfoldable pub focus_field : Config → Panel → Panel
unfolding on_search_field_focus
focus_field cfg p = elim p.focus [
  | search_field ↦ p
  | _ ↦ on_search_field_focus cfg true (record p { focus = search_field })
]

unfoldable pub focus_item : Config → ℕ → Panel → Panel
unfolding blur_field
focus_item cfg k p = record (blur_field cfg p) { focus = select_item k }

unfoldable pub close_results_window : Config → Panel → Panel
unfolding activate
close_results_window cfg p = activate cfg false (record p { popup = hidden; close = hidden })

unfoldable pub close_selection_window : Panel → Panel
close_selection_window p = record p { select = hidden }
