-- ===== src/Search/Tests/PanelTests.antt =====
-- The search panel of docs/documentation/html/search/search.js on the tables of searchdata.js.
use com_client.Base.{
  codes, true, false, List, [], ◌∷◌, map, none, some, ◌≡◌, refl, ◌≢◌, ◌≤◌, arith, ◌⊎◌, get_elem?,
  text_eq, remove_spaces, strip_leading, starts_with, index_of, to_lower_case, to_string,
}
use com_client.Base.Int.{pos, ◌+ℤ◌, ◌-ℤ◌}
use com_client.Search.Url.{escape}
use com_client.Search.Tables.{
  index_sections_with_content, index_section_names, index_section_labels,
}
use com_client.Search.Panel.{
  Panel, Config, Place, Child, search, block, inline_block, hidden, new_panel, clear_timeout,
  focus_field, get_x_pos, get_y_pos,
}
use com_client.Search.Panel.Select.{select_item_set, select_item_count}
use com_client.Search.Panel.Select.Marks.{marks}
use com_client.Search.Panel.Query as Query
use com_client.Search.Panel.Query.{
  Outcome, done, threw, state, KeyEvent, results_page, page_path, index_char, is_lead_surrogate,
  on_select_item, on_search_select_key, init_search,
}
use com_client.Search.Panel.Field.{on_search_field_change}
use com_client.Search.Panel.Events.{
  Event, edit, focus_in, field_key, timer, select_click, run, step, timer_task,
}
use com_client.Search.Panel.Invariant.{IsConsistent, run-IsConsistent, reachable-IsConsistent}
use com_client.Search.Panel.Typed.{Shows, typed-shown}
use com_client.Search.Panel.Keys.{IsReset, escape-IsReset, typing_schedules, clearing_hides}
use com_client.Search.Panel.Sections.{
  on_select_item-marks, on_search_select_key-range, down-past_end, on_select_item-forgets_timer,
}
use com_client.Search.Panel.Pages.{index_char-one_unit}

abbrev somewhere : Place
somewhere = record { offset_width = pos 40; offset_height = pos 20; chain = (pos 300, pos 10) ∷ [] }

abbrev config : Config
config = record {
  name = codes "searchBox";
  results_path = codes "search";
  in_frame = false;
  label = codes "Search";
  extension = codes ".html";
  sections_with_content = index_sections_with_content;
  section_names = index_section_names;
  select_place = somewhere;
  select_window_width = pos 120;
  box_place = somewhere;
  results_width = pos 200;
  client_width = pos 800;
  fold = λ c. c ∷ [];
  exceeds_one = λ s. false;
}

abbrev items : List Child
items = map (λ l. record { is_item = true; marked = false }) index_section_labels

abbrev start : Panel
start = new_panel (codes "Search") items

abbrev letter : KeyEvent
letter = record { key_code = 72; shift = false }

abbrev down_key : KeyEvent
down_key = record { key_code = 40; shift = false }

abbrev escape_key : KeyEvent
escape_key = record { key_code = 27; shift = false }

-- The field gets the focus, "http" is typed, and the timer of the search fires.
abbrev session : List Event
session = focus_in ∷ edit (codes "http") ∷ field_key letter ∷ timer 1 ∷ []

abbrev found : Panel
found = run config session start

panel_on : Unit {0}
unfolding run new_panel focus_field on_search_field_change Query.search results_page text_eq
    remove_spaces strip_leading starts_with index_of to_lower_case to_string escape select_item_set
    get_x_pos get_y_pos ◌+ℤ◌ ◌-ℤ◌ on_search_select_key on_select_item select_item_count timer_task
    clear_timeout
panel_on = tt

session_frame : found.frame ≡ codes "search/all_8.html?http"
unfolding panel_on
session_frame = refl

session_popup : (found.popup ≡ block) × (found.close ≡ inline_block) × (found.search_active ≡ true)
unfolding panel_on
session_popup = (refl, refl, refl)

reachable-IsConsistent_example : IsConsistent (run config session start)
reachable-IsConsistent_example = reachable-IsConsistent config session (codes "Search") items

escape-IsReset_example :
    IsReset config (on_search_field_change config escape_key found)
    × ((on_search_field_change config escape_key found).key_timeout ≡ 0)
    × ((found.key_timeout ≡ 0)
        ⊎ (timer_task found.key_timeout (on_search_field_change config escape_key found).pending
            ≡ none))
escape-IsReset_example = escape-IsReset config escape_key found refl

-- The field before the timer fires, and after the text is deleted again.
abbrev typed : Panel
typed = run config (focus_in ∷ edit (codes "http") ∷ []) start

typed_schedules :
    let q = on_search_field_change config letter typed in
    (q.key_timeout ≢ 0)
    × (timer_task q.key_timeout q.pending ≡ some search)
    × ((typed.key_timeout ≡ 0) ⊎ (timer_task typed.key_timeout q.pending ≡ none))
    × (q.popup ≡ typed.popup)
unfolding panel_on
typed_schedules =
    typing_schedules config letter typed
      (reachable-IsConsistent config (focus_in ∷ edit (codes "http") ∷ []) (codes "Search") items)
      (omega arith, omega arith, omega arith) (λ e. cc) (λ e. cc)

typed-shown_example :
    let q = on_search_field_change config letter typed in
    ((r : Panel) × (step config (timer q.key_timeout) q ≡ done r)
      × Shows (codes "search/all_8.html") (codes "search/all_8.html?http") r)
    × ((typed.key_timeout ≡ 0) ⊎ (timer_task typed.key_timeout q.pending ≡ none))
unfolding panel_on
typed-shown_example =
    typed-shown config letter typed (codes "search/all_8.html") (codes "search/all_8.html?http")
      (reachable-IsConsistent config (focus_in ∷ edit (codes "http") ∷ []) (codes "Search") items)
      (omega arith, omega arith, omega arith) (λ e. cc) (λ e. cc) refl

abbrev emptied : Panel
emptied = run config (edit [] ∷ []) found

emptied_hides :
    let q = on_search_field_change config letter emptied in
    (q.popup ≡ hidden) × (q.close ≡ hidden) × (q.last_search_value ≡ []) × (q.key_timeout ≡ 0)
unfolding panel_on
emptied_hides =
    clearing_hides config letter emptied
      (run-IsConsistent config (edit [] ∷ [])
        (reachable-IsConsistent config session (codes "Search") items))
      (omega arith, omega arith, omega arith) refl (λ e. cc)

on_select_item-marks_example :
    ((state (on_select_item config 4 found)).search_index ≡ 4)
    × (get_elem? (marks (state (on_select_item config 4 found)).children) 3 ≡ some false)
unfolding panel_on
on_select_item-marks_example = on_select_item-marks config 4 3 found (omega arith)

on_search_select_key-range_example :
    let q = state (on_search_select_key config down_key found) in
    q.search_index ≤ select_item_count q
unfolding panel_on
on_search_select_key-range_example = on_search_select_key-range config down_key found (omega arith)

-- The last section is chosen, and the key goes down from it.
abbrev last : Panel
last = run config (select_click 10 ∷ []) found

down-past_end_example :
    (q : Panel) × (on_search_select_key config down_key last ≡ threw q)
    × (q.search_index ≡ select_item_count last)
unfolding panel_on
down-past_end_example = down-past_end config down_key last refl refl refl refl (λ e. cc)

-- A letter is typed and the section is changed before the timer fires.
abbrev waiting : Panel
waiting = run config (focus_in ∷ edit (codes "h") ∷ field_key letter ∷ []) start

on_select_item-forgets_timer_example :
    let q = state (on_select_item config 1 waiting) in
    (q.key_timeout ≡ 0) × (timer_task waiting.key_timeout q.pending ≡ some search)
unfolding panel_on
on_select_item-forgets_timer_example =
    on_select_item-forgets_timer config 1 waiting refl refl (λ e. cc)

-- A lead surrogate and a trail surrogate.
emoji_halved : index_char config (0xD83D ∷ 0xDE00 ∷ []) ≡ 0xD83D ∷ []
unfolding panel_on
emoji_halved = index_char-one_unit config (0xD83D ∷ 0xDE00 ∷ []) (λ s h. refl)
