-- ===== src/NavTree/Storage.antt =====
-- The sync button of docs/documentation/html/navtree.js and the link it keeps in the browser.
pub mod Laws
pub mod Pins
use com_client.Base.{
  ℕ, Text, Bool, true, false, not, ◌&&◌, List, [], ◌∷◌, ◌++◌, if◌then◌else◌, Option, none, some,
}
use com_client.NavTree.Paths.{strip_path2, hash_url, path_name}

-- Which of its two images the button shows.
pub data Image : Type 0 where
  sync_off sync_on : Image

-- What a page shares with the button: `window.localStorage`, the class `sync` of `#nav-sync`, its
-- content, and whether a click toggles it.
pub record State : Type 0 where
  pub supported : Bool
  pub navpath : Option Text
  pub sync : Bool
  pub image : Option Image
  pub clickable : Bool

-- `getItem` of a key that was never set gives null, which like the empty text counts as no link.
unfoldable pub has_link : Option Text → Bool
has_link none = false
has_link (some []) = false
has_link (some (c ∷ s)) = true

unfoldable pub cached_link : State → Option Text
cached_link s = if s.supported then s.navpath else some []

unfoldable pub store_link : Text → State → State
store_link link s = if not (s.sync) && s.supported then record s { navpath = some link } else s

unfoldable pub delete_link : State → State
delete_link s = if s.supported then record s { navpath = some [] } else s

-- A click at the address of the path and the hash.
unfoldable pub toggle_sync_button : Text → Text → State → State
unfolding store_link delete_link
toggle_sync_button path hash s =
    if s.sync
    then store_link (strip_path2 (path_name path) ++ hash_url hash)
        (record s { sync = false; image = some sync_off })
    else delete_link (record s { sync = true; image = some sync_on })

-- The part of `initNavTree` that sets the button up.
unfoldable pub init_sync : State → State
unfolding cached_link has_link
init_sync s =
    if s.supported
    then (if has_link (cached_link s)
        then record s { sync = false; image = some sync_off; clickable = true }
        else record s { image = some sync_on; clickable = true })
    else s

-- A page as the server sends it, over what the browser keeps: the button has the class `sync`.
unfoldable pub load_page : Bool → Option Text → State
load_page supported navpath = record {
  supported = supported;
  navpath = navpath;
  sync = true;
  image = none;
  clickable = false;
}

-- What happens to the kept link: clicks on the button, each at an address of the page, clicks on an entry
-- of the tree, and loads of another page. An entry has its link without `^`, which is never empty: its
-- first unit and the rest.
pub data Event : Type 0 where
  click : Text → Text → Event
  entry : ℕ → Text → Event
  load : Event

unfoldable pub step : Event → State → State
unfolding toggle_sync_button store_link load_page init_sync
step (click path hash) s = if s.clickable then toggle_sync_button path hash s else s
step (entry c link) s = store_link (c ∷ link) s
step load s = init_sync (load_page (s.supported) (s.navpath))

unfoldable pub run : List Event → State → State
unfolding step
run [] s = s
run (e ∷ es) s = run es (step e s)
