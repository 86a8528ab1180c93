-- ===== src/Theme.antt =====
-- The colour schemes: docs/doxygen-awesome-darkmode-toggle.js, and the alternative theme of
-- docs/doxygen-custom/toggle-alternative-theme.js.
pub mod Laws
mod Tests
use com_client.Base.{
  Text, codes, Bool, true, false, not, ◌&&◌, ◌||◌, List, [], ◌∷◌, if◌then◌else◌, Option, none, some,
}

pub data Icon : Type 0 where
  light_mode_icon dark_mode_icon : Icon

-- The two keys of `localStorage` (whether they are set), what the browser says of the system's
-- preference, `darkModeEnabled`, the classes of the document, and the icon of the button on the page.
pub record State : Type 0 where
  pub prefers_light_mode_in_dark_mode : Bool
  pub prefers_dark_mode_in_light_mode : Bool
  pub system_preference : Bool
  pub dark_mode_enabled : Bool
  pub dark_class : Bool
  pub light_class : Bool
  pub icon : Option Icon

unfoldable pub user_preference : State → Bool
user_preference s =
    not s.system_preference && s.prefers_dark_mode_in_light_mode
    || s.system_preference && not s.prefers_light_mode_in_dark_mode

unfoldable pub enable_dark_mode : Bool → State → State
enable_dark_mode enable s =
    if enable
    then record s { dark_mode_enabled = true; dark_class = true; light_class = false }
    else record s { dark_mode_enabled = false; dark_class = false; light_class = true }

unfoldable pub on_system_preference_changed : State → State
unfolding user_preference enable_dark_mode
on_system_preference_changed s =
    let enabled = record s { dark_mode_enabled = user_preference s } in
    enable_dark_mode enabled.dark_mode_enabled enabled

unfoldable pub on_user_preference_changed : State → State
unfolding enable_dark_mode
on_user_preference_changed s = enable_dark_mode s.dark_mode_enabled s

-- The setter of `userPreference`.
unfoldable pub set_user_preference : Bool → State → State
unfolding on_user_preference_changed
set_user_preference preference s =
    let set = record s { dark_mode_enabled = preference } in
    on_user_preference_changed (
      if not preference
      then (if s.system_preference
          then record set { prefers_light_mode_in_dark_mode = true }
          else record set { prefers_dark_mode_in_light_mode = false })
      else (if not s.system_preference
          then record set { prefers_dark_mode_in_light_mode = true }
          else record set { prefers_light_mode_in_dark_mode = false }))

unfoldable pub update_icon : State → State
update_icon s = record s {
  icon = some (if s.dark_mode_enabled then dark_mode_icon else light_mode_icon);
}

unfoldable pub toggle_dark_mode : State → State
unfolding set_user_preference user_preference update_icon
toggle_dark_mode s = update_icon (set_user_preference (not (user_preference s)) s)

-- The page loads: the static constructor runs, then `init` makes the button.
unfoldable pub load_page : Bool → Bool → Bool → State
unfolding enable_dark_mode user_preference update_icon
load_page light_in_dark dark_in_light system =
    let fresh : State = record {
      prefers_light_mode_in_dark_mode = light_in_dark;
      prefers_dark_mode_in_light_mode = dark_in_light;
      system_preference = system;
      dark_mode_enabled = false;
      dark_class = false;
      light_class = false;
      icon = none;
    } in
    update_icon (enable_dark_mode (user_preference fresh) fresh)

-- A click on the button; the system's preference turns to a value; another tab of the site sets the
-- two keys while this one is hidden, and this one is made visible again.
pub data Event : Type 0 where
  click : Event
  system : Bool → Event
  visible : Bool → Bool → Event

-- The listeners of the class run first, then those of the button.
unfoldable pub step : Event → State → State
unfolding toggle_dark_mode on_system_preference_changed update_icon
step click s = toggle_dark_mode s
step (system dark) s =
    update_icon (on_system_preference_changed (record s { system_preference = dark }))
step (visible light_in_dark dark_in_light) s = update_icon (
    on_system_preference_changed (record s {
      prefers_light_mode_in_dark_mode = light_in_dark;
      prefers_dark_mode_in_light_mode = dark_in_light;
    }))

unfoldable pub run : List Event → State → State
unfolding step
run [] s = s
run (e ∷ es) s = run es (step e s)

-- `original_theme_active`, and whether the document has the class `alternative`.
pub record Alternative : Type 0 where
  pub original_theme_active : Bool
  pub alternative : Bool

unfoldable pub toggle_alternative_theme : Alternative → Alternative
toggle_alternative_theme s =
    if s.original_theme_active
    then record { original_theme_active = false; alternative = true }
    else record { original_theme_active = true; alternative = false }
