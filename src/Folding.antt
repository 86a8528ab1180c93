-- ===== src/Folding.antt =====
-- The folding sections and the directory tables of docs/documentation/html/dynsections.js.
pub mod Laws
pub mod Rows
mod Tests
use com_client.Base.{
  ℕ, zero, suc, ◌+◌, ◌-◌, Text, codes, Bool, true, false, not, ◌&&◌, ◌||◌, List, [], ◌∷◌, ◌++◌, map,
  if◌then◌else◌, ◌==◌, ltb, leb, Option, none, some, drop, take, length, text_eq, starts_with,
}

-- `s.substring(0, s.length - n)`
unfoldable pub cut : ℕ → Text → Text
cut n s = take (length s - n) s

-- A section: its heading's classes, its content and summary, and the image of its trigger.
pub record Section : Type 0 where
  pub content_visible : Bool
  pub summary_visible : Bool
  pub opened : Bool
  pub closed : Bool
  pub src : Text

unfoldable pub toggle_visibility : Section → Section
unfolding cut
toggle_visibility s =
    if s.content_visible
    then record {
      content_visible = false;
      summary_visible = true;
      opened = false;
      closed = true;
      src = cut 8 s.src ++ codes "closed.png";
    }
    else record {
      content_visible = true;
      summary_visible = false;
      opened = true;
      closed = false;
      src = cut 10 s.src ++ codes "open.png";
    }

-- The inherited members of a class: whether each of the rows shows, and the image of the header.
pub record Inherit : Type 0 where
  pub rows : List Bool
  pub src : Text

unfoldable pub toggle_inherit : Inherit → Inherit
unfolding cut
toggle_inherit s = elim s.rows [
  | true ∷ rest ↦ record { rows = map (λ r. false) s.rows; src = cut 8 s.src ++ codes "closed.png" }
  | _ ↦ record { rows = map (λ r. true) s.rows; src = cut 10 s.src ++ codes "open.png" }
]

pub data Icon : Type 0 where
  iconfopen iconfclosed other_icon : Icon

pub data Arrow : Type 0 where
  arrow_down arrow_right no_arrow : Arrow

-- A row of the table of directories.
pub record Row : Type 0 where
  pub id : Text
  pub visible : Bool
  pub icon : Icon
  pub arrow : Arrow
  pub even : Bool

-- `updateStripes`, with whether the next visible row is an even one.
unfoldable pub stripe : Bool → List Row → List Row
stripe even [] = []
stripe even (r ∷ rest) =
    let here = stripe (not even) rest in
    let skipped = stripe even rest in
    if r.visible then record r { even = even } ∷ here else record r { even = false } ∷ skipped

unfoldable pub update_stripes : List Row → List Row
unfolding stripe
update_stripes rows = stripe true rows

-- `id.split('_').length-1`
unfoldable pub row_level : Text → ℕ
row_level [] = 0
row_level (c ∷ s) = let n = row_level s in if c == b'_' then suc n else n

-- The element of the icon and the arrow, where the row has them.
abbrev pub set_icon : Icon → Row → Row
set_icon i r = elim r.icon [ other_icon ↦ r | _ ↦ record r { icon = i } ]

abbrev pub set_arrow : Arrow → Row → Row
set_arrow a r = elim r.arrow [ no_arrow ↦ r | _ ↦ record r { arrow = a } ]

unfoldable pub level_row : ℕ → Row → Row
unfolding row_level
level_row level r =
    if ltb (row_level r.id) (level + 1)
    then record (set_arrow arrow_down (set_icon iconfopen r)) { visible = true }
    else if row_level r.id == level + 1
    then record (set_arrow arrow_right (set_icon iconfclosed r)) { visible = true }
    else record r { visible = false }

unfoldable pub toggle_level : ℕ → List Row → List Row
unfolding level_row update_stripes
toggle_level level rows = update_stripes (map (level_row level) rows)

-- `^\d+_$`
unfoldable pub is_number_end : Bool → Text → Bool
is_number_end some_digit [] = false
is_number_end some_digit (c ∷ s) =
    let more = is_number_end true s in
    if leb b'0' c && leb c b'9' then more else c == b'_' && some_digit && text_eq s []

-- `^row_<id>\d+_$`, for an id of digits and `_`.
unfoldable pub is_child : Text → Row → Bool
unfolding is_number_end
is_child id r =
    starts_with (codes "row_" ++ id) r.id && is_number_end false (drop (4 + length id) r.id)

-- `[id^=row_<id>]`
unfoldable pub is_under : Text → Row → Bool
is_under id r = starts_with (codes "row_" ++ id) r.id

-- `childRows.filter(':first').is(':visible')`
unfoldable pub first_child_visible : Text → List Row → Bool
unfolding is_child
first_child_visible id [] = false
first_child_visible id (r ∷ rest) =
    let later = first_child_visible id rest in if is_child id r then r.visible else later

unfoldable pub hide_under : Text → Row → Row
unfolding is_under
hide_under id r = if is_under id r then record r { visible = false } else r

-- `iconfopen` is replaced by `iconfclosed`.
abbrev pub close_icon : Row → Row
close_icon r = elim r.icon [ iconfopen ↦ record r { icon = iconfclosed } | _ ↦ r ]

abbrev pub open_icon : Row → Row
open_icon r = elim r.icon [ iconfclosed ↦ record r { icon = iconfopen } | _ ↦ r ]

unfoldable pub show_child : Text → Row → Row
unfolding is_child
show_child id r =
    if is_child id r then record (set_arrow arrow_right (close_icon r)) { visible = true } else r

-- At the clicked row, with the rows after it.
unfoldable pub fold_here : Text → Row → List Row → List Row
unfolding first_child_visible hide_under show_child
fold_here id r rest =
    if first_child_visible id rest
    then set_arrow arrow_right (close_icon r) ∷ map (hide_under id) rest
    else set_arrow arrow_down (open_icon r) ∷ map (show_child id) rest

unfoldable pub fold_from : Text → List Row → List Row
unfolding fold_here
fold_from id [] = []
fold_from id (r ∷ rest) =
    let later = fold_from id rest in
    if text_eq r.id (codes "row_" ++ id) then fold_here id r rest else r ∷ later

unfoldable pub toggle_folder : Text → List Row → List Row
unfolding fold_from update_stripes
toggle_folder id rows = update_stripes (fold_from id rows)
