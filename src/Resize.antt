-- ===== src/Resize.antt =====
-- The width of the navigation tree and the cookie that keeps it: docs/documentation/html/resize.js.
pub mod Laws
mod Tests
use com_client.Base.{
  ℕ, zero, suc, ◌+◌, ◌-◌, ◌*◌, Text, codes, Bool, true, false, not, ◌&&◌, ◌||◌, List, [], ◌∷◌, ◌++◌,
  if◌then◌else◌, ◌==◌, ltb, leb, Option, none, some, length, drop, text_eq, index_of, to_string,
}

-- The browser's cookies: names and values, in the order in which `document.cookie` lists them.
abbrev pub Jar : Type 0
Jar = List (Text × Text)

unfoldable pub cookie_text : Jar → Text
cookie_text [] = []
cookie_text ((name, val) ∷ []) = name ++ b'=' ∷ val
cookie_text ((name, val) ∷ c ∷ rest) = (name ++ b'=' ∷ val) ++ codes "; " ++ cookie_text (c ∷ rest)

-- An assignment to `document.cookie` of a name and a value, before the attributes.
unfoldable pub set_cookie : Text → Text → Jar → Jar
set_cookie name val [] = (name, val) ∷ []
set_cookie name val ((n, v) ∷ rest) =
    let later = set_cookie name val rest in
    if text_eq n name then (name, val) ∷ rest else (n, v) ∷ later

unfoldable pub cookie_name : Text → Text
cookie_name cookie = codes "doxygen_" ++ cookie

-- Up to the next `;`, or to the end.
unfoldable pub before_semicolon : Text → Text
before_semicolon [] = []
before_semicolon (c ∷ s) = if c == b';' then [] else c ∷ before_semicolon s

-- `none` is the 0 of a cookie that is not there.
unfoldable pub read_cookie : Text → Text → Option Text
unfolding cookie_name before_semicolon
read_cookie cookie document_cookie =
    elim (index_of (cookie_name cookie ++ codes "=") document_cookie) [
      | none ↦ none
      | some index ↦ some (
          before_semicolon
            (drop (index + length (cookie_name cookie ++ codes "=")) document_cookie))
    ]

unfoldable pub write_cookie : Text → Text → Jar → Jar
unfolding set_cookie cookie_name
write_cookie cookie val jar = set_cookie (cookie_name cookie) val jar

-- The number that a text of decimal digits is in a comparison; any other text is none.
unfoldable pub number_from : ℕ → Text → Option ℕ
number_from n [] = some n
number_from n (c ∷ s) =
    let more = number_from (n * 10 + (c - b'0')) s in
    if leb b'0' c && leb c b'9' then more else none

-- The widths of the tree and the margin of the content, in pixels, and the variables of `initResizable`.
pub record State : Type 0 where
  pub nav_width : ℕ
  pub margin : ℕ
  pub collapsed : Bool
  pub collapsed_width : ℕ
  pub bar_width : ℕ
  pub window_width : ℕ
  pub jar : Jar

abbrev pub desktop_vp : ℕ
desktop_vp = 768

-- The outer width has the split bar, as padding.
unfoldable pub resize_width : State → State
unfolding write_cookie
resize_width s = record s {
  margin = s.nav_width + s.bar_width;
  jar = write_cookie (codes "width") (to_string 10 s.nav_width) s.jar;
}

unfoldable pub restore_width : ℕ → State → State
restore_width nav_width s = record s { margin = nav_width + s.bar_width; nav_width = nav_width }

-- What `readCookie` gives, as a number.
unfoldable pub cookie_number : Option Text → Option ℕ
unfolding number_from
cookie_number none = some 0
cookie_number (some val) = number_from 0 val

unfoldable pub kept_width : Jar → Option ℕ
unfolding read_cookie cookie_number cookie_text
kept_width jar = cookie_number (read_cookie (codes "width") (cookie_text jar))

-- `if (width>200 && width<$(window).width()) { restoreWidth(width); } else { restoreWidth(200); }`
unfoldable pub expanded_width : Option ℕ → ℕ → ℕ
expanded_width none window = 200
expanded_width (some width) window = if ltb 200 width && ltb width window then width else 200

unfoldable pub collapse_expand : State → State
unfolding restore_width kept_width expanded_width
collapse_expand s =
    if ltb 0 s.nav_width
    then record (restore_width 0 s) { collapsed = true }
    else record (restore_width (expanded_width (kept_width s.jar) s.window_width) s) {
      collapsed = false;
    }

-- The part of `resizeHeight` on the width.
unfoldable pub resize_height : State → State
unfolding collapse_expand
resize_height s =
    let width = s.window_width in
    if width == s.collapsed_width
    then s
    else record (if ltb width desktop_vp && leb desktop_vp s.collapsed_width
        then (if not s.collapsed then collapse_expand s else s)
        else if ltb desktop_vp width && ltb s.collapsed_width desktop_vp
        then (if s.collapsed then collapse_expand s else s)
        else s) { collapsed_width = width }

-- The width at the start: that of the cookie, if it has a value. A value that is no number leaves
-- the style sheet's width and no margin.
unfoldable pub start_width : Option Text → State → State
unfolding resize_width restore_width number_from
start_width none s = resize_width s
start_width (some []) s = resize_width s
start_width (some (c ∷ val)) s = elim (number_from 0 (c ∷ val)) [
  | none ↦ s
  | some width ↦ restore_width width s
]

-- `initResizable` on a page with this width of the tree, in a window of this width.
unfoldable pub init_resizable : Bool → ℕ → ℕ → Jar → State
unfolding start_width resize_height read_cookie cookie_text
init_resizable touch_device nav_width window_width jar =
    let fresh : State = record {
      nav_width = nav_width;
      margin = 0;
      collapsed = false;
      collapsed_width = 0;
      bar_width = if touch_device then 20 else 6;
      window_width = window_width;
      jar = jar;
    } in
    resize_height (start_width (read_cookie (codes "width") (cookie_text jar)) fresh)

-- The user drags the bar to a width, or double-clicks it; the window takes a width.
pub data Event : Type 0 where
  drag : ℕ → Event
  double_click : Event
  window : ℕ → Event

unfoldable pub step : Event → State → State
unfolding resize_width collapse_expand resize_height
step (drag width) s = resize_width (record s { nav_width = width })
step double_click s = collapse_expand s
step (window width) s = resize_height (record s { window_width = width })

unfoldable pub run : List Event → State → State
unfolding step
run [] s = s
run (e ∷ es) s = run es (step e s)
