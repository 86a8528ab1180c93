-- ===== src/Theme/Tests.antt =====
-- Runs of docs/doxygen-awesome-darkmode-toggle.js.
use com_client.Base.{◌≡◌, true, false, not, List, [], ◌∷◌, some}
use com_client.Theme.{
  State, user_preference, toggle_dark_mode, light_mode_icon, load_page, Event, click, system,
  visible, run,
}
use com_client.Theme.Laws.{IsShown, run-IsShown, toggle_dark_mode-flips}

abbrev day : List Event
day = click ∷ system true ∷ click ∷ visible false true ∷ system false ∷ []

run-IsShown_example : IsShown (run day (load_page false false false))
run-IsShown_example = run-IsShown false false false day

abbrev light_page : State
light_page = record {
  prefers_light_mode_in_dark_mode = false;
  prefers_dark_mode_in_light_mode = false;
  system_preference = false;
  dark_mode_enabled = false;
  dark_class = false;
  light_class = true;
  icon = some light_mode_icon;
}

light_page_flips :
    (user_preference (toggle_dark_mode light_page) ≡ not (user_preference light_page))
    × (user_preference (record (toggle_dark_mode light_page) { system_preference = true })
        ≡ user_preference (record light_page { system_preference = true }))
light_page_flips = toggle_dark_mode-flips light_page
