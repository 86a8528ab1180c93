-- ===== src/Theme/Laws.antt =====
-- The colour scheme of docs/doxygen-awesome-darkmode-toggle.js over clicks, changes of the system and
-- other tabs.
use com_client.Base.{◌≡◌, Bool, not, List, [], ◌∷◌, if◌then◌else◌, some, arith}
use com_client.Theme.{
  light_mode_icon, dark_mode_icon, State, user_preference, toggle_dark_mode, load_page, Event,
  click, system, visible, step, run, Alternative, toggle_alternative_theme,
}

-- The mode, the classes of the document and the icon are those of the user's preference.
pub record IsShown (s : State) : Type 0 where
  pub enabled : s.dark_mode_enabled ≡ user_preference s
  pub dark : s.dark_class ≡ user_preference s
  pub light : s.light_class ≡ not (user_preference s)
  pub shown_icon : s.icon ≡ some (if user_preference s then dark_mode_icon else light_mode_icon)

load_page-IsShown : (l d s : Bool) → IsShown (load_page l d s)
unfolding load_page
load_page-IsShown l d s = ground arith

step-IsShown : (e : Event) (s : State) → IsShown (step e s)
unfolding step
step-IsShown click s = ground arith
step-IsShown (system dark) s = ground arith
step-IsShown (visible l d) s = ground arith

events-IsShown : (es : List Event) (s : State) → IsShown s → IsShown (run es s)
unfolding run
events-IsShown [] s h = h
events-IsShown (e ∷ es) s h = events-IsShown es (step e s) (step-IsShown e s)

-- From a page load with any stored keys and system preference, after any clicks, changes of the
-- system, and returns to the tab with the keys set anew by other tabs: the mode, the classes of the
-- document and the icon of the button are those of the user's preference.
pub run-IsShown : (l d s : Bool) (es : List Event) → IsShown (run es (load_page l d s))
run-IsShown l d s es = events-IsShown es (load_page l d s) (load_page-IsShown l d s)

-- A click turns the user's preference over under the system's preference of the moment, and leaves
-- the preference under the other one as it was.
pub toggle_dark_mode-flips :
    (s : State)
    → (user_preference (toggle_dark_mode s) ≡ not (user_preference s))
      × (user_preference
            (record (toggle_dark_mode s) { system_preference = not s.system_preference })
          ≡ user_preference (record s { system_preference = not s.system_preference }))
unfolding toggle_dark_mode
toggle_dark_mode-flips s = ground arith

-- On a page that shows the user's preference, two clicks give back the same state.
pub toggle_dark_mode-twice : (s : State) → IsShown s → toggle_dark_mode (toggle_dark_mode s) ≡ s
unfolding toggle_dark_mode
toggle_dark_mode-twice s h = ground arith

-- The document has the class of the alternative theme exactly while the original one is not active.
abbrev pub IsThemed : Alternative → Type 0
IsThemed s = s.alternative ≡ not s.original_theme_active

pub toggle_alternative_theme-twice :
    (s : Alternative) → IsThemed s → toggle_alternative_theme (toggle_alternative_theme s) ≡ s
unfolding toggle_alternative_theme
toggle_alternative_theme-twice s h = ground arith
