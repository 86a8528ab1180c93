-- ===== src/Search/Tests/DataTests.antt =====
-- A query on the generated search data of docs/documentation/html/search/.
use com_client.Base.{
  Text, codes, false, [], ◌∷◌, ◌++◌, none, some, ◌≡◌, refl, arith, get_elem?, remove_spaces,
  strip_leading, strip_trailing, to_lower_case,
}
use com_client.Base.Int.{pos}
use com_client.Search.Url.{escape}
use com_client.Search.Tables.{index_sections_with_content, index_section_names}
use com_client.Search.Panel.{Panel, Config, Place, block, unset, new_panel}
use com_client.Search.Panel.Query.{done, KeyEvent}
use com_client.Search.Panel.Field.{on_search_field_change}
use com_client.Search.Panel.Events.{timer, step}
use com_client.Search.Panel.Invariant.{IsConsistent}
use com_client.Search.Panel.Typed.{Shows}
use com_client.Search.Results.{Entry, Row, Page, create_results}
use com_client.Search.Results.Filter.{search}
use com_client.Search.Results.Filter.EndToEnd.{address}
use com_client.Search.Data.Build.{File, file, one, server}
use com_client.Search.Data.Kinds.{classes_3}
use com_client.Search.Data.Complete.{name_of}
use com_client.Search.Data.Found.{page_of}
use com_client.Search.Data.EndToEnd.{entry_found}

abbrev nowhere_at : Place
nowhere_at = record { offset_width = pos 40; offset_height = pos 20; chain = [] }

abbrev site : Config
site = record {
  name = codes "searchBox";
  results_path = codes "search";
  in_frame = false;
  label = codes "Search";
  extension = codes ".html";
  sections_with_content = index_sections_with_content;
  section_names = index_section_names;
  select_place = nowhere_at;
  select_window_width = pos 120;
  box_place = nowhere_at;
  results_width = pos 200;
  client_width = pos 800;
  fold = λ c. c ∷ [];
  exceeds_one = λ s. false;
}

abbrev query : Text
query = codes " Serv "

-- The section of the classes is chosen.
abbrev typed_panel : Panel
unfolding new_panel
typed_panel = record (new_panel query []) { search_index = 1 }

abbrev letter_v : KeyEvent
letter_v = record { key_code = 86; shift = false }

abbrev classes_s : File
classes_s = file "classes_3" classes_3

abbrev server_entry : Entry
server_entry = one "server_402" "Server" server "" "Communication"

abbrev s_page : Page
unfolding create_results
s_page = record {
  rows = create_results classes_3;
  searching = unset;
  no_matches = unset;
  last_match_count = 0;
  last_key = 0;
  repeat_on = false;
  focus = none;
  closed = 0;
}

typed_panel-IsConsistent : IsConsistent typed_panel
unfolding new_panel
typed_panel-IsConsistent = record {
  together = refl;
  boxed = λ e. cc;
  key_fresh = omega arith;
  hide_fresh = omega arith;
  apart = λ h. absurd (h refl);
  scheduled = λ h. absurd (h refl);
}

entry_found_example :
    let value = strip_leading typed_panel.field in
    let q = on_search_field_change site letter_v typed_panel in
    ((r : Panel) × (step site (timer q.key_timeout) q ≡ done r)
      × Shows (page_of site classes_s) (page_of site classes_s ++ codes "?" ++ escape value) r)
    × ((row : Row) × (get_elem? (search site.fold none (address value) s_page).rows 0 ≡ some row)
        × (row.label ≡ codes "Server")
        × (row.display ≡ block))
unfolding new_panel remove_spaces to_lower_case strip_trailing name_of create_results s_page
entry_found_example =
    entry_found site letter_v typed_panel s_page 1 3 0 classes_s server_entry
      (record { contents = refl; names = refl }) (_, refl, refl, refl) typed_panel-IsConsistent
      (ground arith, ground arith, ground arith) refl (ground arith)
      (omega arith, (omega arith, (omega arith, (omega arith, (omega arith, (omega arith, tt))))))
      (ground arith) (codes "er", refl) refl
