-- ===== src/NavTree/Page.antt =====
-- The life of a page in docs/documentation/html/navtree.js: `initNavTree` when the document is ready, the
-- window's `load`, changes of the hash, and what they do to the tree, the selection and the kept link.
pub mod Laws
pub mod History
pub mod Navigates
pub mod Opens
pub mod Hashes
mod Tests
use com_client.Base.{
  ℕ, Text, codes, Bool, true, false, List, [], ◌∷◌, ◌++◌, if◌then◌else◌, ◌==◌, Option, none, some,
  drop, ◌||◌, text_eq,
}
use com_client.NavTree.Paths.{strip_path, strip_path2, hash_url, hash_value, path_name}
use com_client.NavTree.Storage as Storage
use com_client.NavTree.Storage.{cached_link, init_sync, load_page, store_link, toggle_sync_button}
use com_client.NavTree.Index.{
  SubIndex, Goto, stay, show_path, show_start, target, strip_line, nav_to, after_hash,
}
use com_client.NavTree.Tree.{
  Node, node, leaf, script, rows, child_at, Loader, show_node, toggle_at, kids_of,
}
use com_client.NavTree.Links.{plain_link}
use com_client.NavTree.Tree.Selection.{linked_in, select_and_highlight}

-- The arguments of `initNavTree`, the address's path, the generated data, and the library's `$.extend`.
pub record Site : Type 0 where
  pub to_root : Text
  pub relpath : Text
  pub path : Text
  pub root : Node
  pub index : List Text
  pub sub_indices : ℕ → Option SubIndex
  -- `NAVTREE[0][1]`
  pub start : Text
  pub loader : Loader
  pub extend : Option (List ℕ) → Option (List ℕ)

-- A call of `navTo`: its root and hash.
abbrev pub Call : Type 0
Call = Text × Text

pub record State : Type 0 where
  -- `window.location.hash`
  pub hash : Text
  pub sync : Storage.State
  pub tree : Node
  -- the paths of the entries with the class `selected`
  pub marked : List (List ℕ)
  pub load_triggered : Bool
  -- `loadToRoot` and `loadUrl`, once `readyTriggered` is set
  pub ready_call : Option Call
  -- `initNavTree` has run, so that arrows, button and the handler of the hash are there
  pub bound : Bool
  pub animation_in_progress : Bool
  -- the calls of `navTo` that the handlers make
  pub calls : List Call

-- `replace(/\..+$/, '')`
unfoldable pub before_extension : Text → Text
before_extension [] = []
before_extension (c ∷ []) = c ∷ []
before_extension (c ∷ d ∷ s) = if c == b'.' then [] else c ∷ before_extension (d ∷ s)

unfoldable pub root_base_of : Site → Text
unfolding before_extension
root_base_of site = strip_path (before_extension site.to_root)

-- `showNode` along the breadcrumbs, which ends in `selectAndHighlight`.
unfoldable pub follow : Site → List ℕ → Text → State → State
unfolding root_base_of
follow site path anchor s =
    let shown = show_node site.loader site.relpath (root_base_of site) path s.tree in
    record s {
      tree = shown.0;
      marked = s.marked ++ select_and_highlight site.path anchor shown.0 shown.1;
    }

-- `navTo(o,NAVTREE[0][1],"",relpath)`, the fallback of `gotoNode`, which shares the breadcrumbs with it: it
-- shows the start page, clears the selection, and then shows the breadcrumbs behind one more 0. A fallback in
-- the fallback does not end in the source; here it changes nothing.
unfoldable pub show_start_page : Site → Text → Goto → State → State
unfolding follow
show_start_page site anchor (show_path path) s =
    let start_anchor = strip_line (target (cached_link s.sync) site.start []).1 in
    follow site (0 ∷ path) anchor (record (follow site path start_anchor s) { marked = [] })
show_start_page site anchor stay s = record s { marked = [] }
show_start_page site anchor show_start s = s

unfoldable pub follow_goto : Site → Text → Goto → State → State
unfolding follow show_start_page
follow_goto site anchor (show_path path) s = follow site path anchor s
follow_goto site anchor show_start s =
    let link = cached_link s.sync in
    let goto = nav_to site.extend site.sub_indices site.index site.start link site.start [] in
    show_start_page site anchor goto s
follow_goto site anchor stay s = s

unfoldable pub navigate : Site → Text → Text → State → State
unfolding follow_goto
navigate site root hash s =
    let link = cached_link s.sync in
    let anchor = strip_line (target link root hash).1 in
    let goto = nav_to site.extend site.sub_indices site.index site.start link root hash in
    follow_goto site anchor goto (record s { calls = s.calls ++ ((root, hash) ∷ []) })

unfoldable pub init_nav_tree : Site → State → State
unfolding navigate
init_nav_tree site s =
    let built = record s { tree = site.root; marked = []; sync = init_sync s.sync; bound = true } in
    if s.load_triggered
    then navigate site site.to_root (hash_url s.hash) built
    else record built { ready_call = some (site.to_root, hash_url s.hash) }

-- `if (readyTriggered) { navTo(loadObject,loadToRoot,loadUrl,loadRelPath); }`
unfoldable pub navigate_ready : Site → Option Call → State → State
unfolding navigate
navigate_ready site none s = s
navigate_ready site (some (root, hash)) s = navigate site root hash s

unfoldable pub window_load : Site → State → State
unfolding navigate_ready
window_load site s = record (navigate_ready site s.ready_call s) { load_triggered = true }

-- `.item a[class$="..."]` of the page's name and the hash: whether one of the entries is selected.
unfoldable pub is_marked : List ℕ → List (List ℕ) → Bool
is_marked path [] = false
is_marked path (p ∷ ps) = let later = is_marked path ps in if text_eq path p then true else later

unfoldable pub any_marked : List (List ℕ) → List (List ℕ) → Bool
unfolding is_marked
any_marked [] marked = false
any_marked (p ∷ ps) marked = is_marked p marked || any_marked ps marked

-- `window.location.hash && window.location.hash.length>1`
unfoldable pub has_anchor : Text → Bool
has_anchor (c ∷ d ∷ s) = true
has_anchor s = false

unfoldable pub hash_changed : Site → State → State
unfolding navigate any_marked has_anchor
hash_changed site s =
    let entries =
      linked_in (strip_path (path_name site.path) ++ b':' ∷ hash_value s.hash) 0 (kids_of s.tree) in
    let kept = if any_marked entries s.marked then s else record s { marked = [] } in
    if has_anchor s.hash
    then navigate site (strip_path2 (path_name site.path)) (hash_url s.hash) kept
    else if s.animation_in_progress
    then s
    else navigate site site.to_root (hash_url s.hash) (record s { marked = [] })

-- The node at the end of a path.
unfoldable pub entry_at : List ℕ → Node → Option Node
entry_at [] n = some n
entry_at (i ∷ path) (node text link source flags kids) = elim (child_at i kids) [
  | none ↦ none
  | some n ↦ entry_at path n
]

-- The `onclick` of an entry's `a`, up to `gotoAnchor`: without a link it is the arrow's.
unfoldable pub click_entry : Site → List ℕ → Node → State → State
unfolding plain_link after_hash store_link is_marked
click_entry site path (node text [] leaf flags kids) s = s
click_entry site path (node text [] (script file) flags kids) s = record s {
  tree = toggle_at site.loader site.relpath path s.tree;
}
click_entry site path (node text [] (rows items) flags kids) s = record s {
  tree = toggle_at site.loader site.relpath path s.tree;
}
click_entry site path (node text (c ∷ link) source flags kids) s =
    let target_link = plain_link (c ∷ link) in
    let stored = record s { sync = store_link target_link s.sync } in
    elim (after_hash target_link) [
      | none ↦ stored
      | some anchor ↦
          if is_marked path s.marked then stored else record stored { marked = path ∷ [] }
    ]

pub data Event : Type 0 where
  ready load : Event
  -- the address gets another hash
  hash_change : Text → Event
  -- a click on the arrow of an entry, or on the sync button
  arrow : List ℕ → Event
  sync_click : Event
  -- a click on the link of the entry at this path, which is not the root's
  entry_click : ℕ → List ℕ → Event
  -- `gotoAnchor` begins or ends to scroll
  animation : Bool → Event

-- Before `initNavTree` there is neither an entry nor a handler.
unfoldable pub step : Site → Event → State → State
unfolding init_nav_tree window_load hash_changed entry_at click_entry
step site ready s = init_nav_tree site s
step site load s = window_load site s
step site (hash_change h) s =
    let s' = record s { hash = h } in if s.bound then hash_changed site s' else s'
step site (arrow path) s =
    if s.bound then record s { tree = toggle_at site.loader site.relpath path s.tree } else s
step site sync_click s =
    if s.sync.clickable then record s { sync = toggle_sync_button site.path s.hash s.sync } else s
step site (entry_click i path) s =
    if s.bound
    then elim (entry_at (i ∷ path) s.tree) [ none ↦ s | some n ↦ click_entry site (i ∷ path) n s ]
    else s
step site (animation b) s = record s { animation_in_progress = b }

unfoldable pub run : Site → List Event → State → State
unfolding step
run site [] s = s
run site (e ∷ es) s = run site es (step site e s)

-- The page as it comes, at a hash, in a browser that keeps links or not.
unfoldable pub fresh : Site → Text → Bool → Option Text → State
fresh site hash supported navpath = record {
  hash = hash;
  sync = load_page supported navpath;
  tree = site.root;
  marked = [];
  load_triggered = false;
  ready_call = none;
  bound = false;
  animation_in_progress = false;
  calls = [];
}
