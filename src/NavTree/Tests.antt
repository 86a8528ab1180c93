-- ===== src/NavTree/Tests.antt =====
-- Runs of docs/documentation/html/navtree.js on concrete pages.
use com_client.Base.{
  ℕ, inl, arith, ◌≡◌, ◌≢◌, ◌<◌, ◌↔◌, refl, Text, codes, true, false, List, [], ◌∷◌, Option, none,
  some, inr, text_eq,
}
use com_client.NavTree.Paths.{
  is_address_unit, is_word, strip_path2, hash_url, path_name, data_name, hash_value,
}
use com_client.NavTree.Paths.Laws.{strip_path2-directories}
use com_client.NavTree.Storage.{
  State, Event, click, entry, load, run, init_sync, load_page, cached_link, toggle_sync_button,
}
use com_client.NavTree.Storage.Pins.{replay, pin_of, goes, run-refines}
use com_client.NavTree.Storage.Laws.{IsSynced, run-IsSynced}
use com_client.NavTree.Index.{
  lookup, text_leb, scan, nav_to, show_start, show_path, target, goto_node,
}
use com_client.NavTree.Index.Laws.{IsSorted, scan-partition}
use com_client.NavTree.Index.Targets.{loads, toggle_sync_button-pins, nav_to-never_start}
use com_client.NavTree.Index.Scripts.{nav_tree_index}
use com_client.NavTree.Index.Script2.{nav_tree_index2}
use com_client.NavTree.Index.Every.{nav_tree_sub_indices}
use com_client.NavTree.Index.Complete.{nav_to_complete}
use com_client.NavTree.Links.{plain_link, class_name, ends_with, selector, link_href}
use com_client.NavTree.Tree.{Loader, resolve, rows, show_node, browse, show, toggle, selected}
use com_client.NavTree.Tree as Tree
use com_client.NavTree.Tree.Data.{nav_tree, root_node}
use com_client.NavTree.Tree.Laws.{Leads, IsOpen}
use com_client.NavTree.Tree.Browse.{browse-selects}
use com_client.NavTree.Tree.Selection.{select_and_highlight}
use com_client.NavTree.Links.Laws.{selector-finds}

abbrev page_path : Text
page_path = codes "/html/d1/d3a/_serial_8hpp.html"

abbrev short_base : Text
short_base = codes "/html"

abbrev short_name : Text
short_name = codes "a.html"

directories_kept : strip_path2 (codes "/html/d1/d3a/a.html") ≡ codes "d1/d3a/a.html"
unfolding is_word
directories_kept =
    strip_path2-directories short_base b'1' b'3' b'a' short_name refl refl refl (ground arith)

abbrev clicks : List Event
clicks = click page_path (codes "#a1") ∷ load ∷ click page_path [] ∷ []

run-IsSynced_example : IsSynced (run clicks (init_sync (load_page true none)))
run-IsSynced_example = run-IsSynced none clicks

-- An entry is clicked between.
abbrev clicks_on : List Event
clicks_on = click page_path (codes "#a1") ∷ load ∷ entry b'x' (codes ".html#b2") ∷ []

run-refines_example :
    target (cached_link (run clicks_on (init_sync (load_page true none)))) (codes "index.html") []
    ≡ goes (replay clicks_on (pin_of none)) (codes "index.html") []
run-refines_example = run-refines none clicks_on (codes "index.html") []

moved_pin : replay clicks_on (pin_of none) ≡ some (codes "x.html#b2")
unfolding replay pin_of
moved_pin = refl

abbrev synced : State
synced = record { supported = true; navpath = none; sync = true; image = none; clickable = true }

toggle_sync_button-pins_example :
    target
      (cached_link (run (loads 2) (toggle_sync_button (codes "/a.html") (codes "#b") synced)))
      (codes "index.html")
      []
    ≡ (strip_path2 (path_name (codes "/a.html")), hash_url (codes "#b"))
toggle_sync_button-pins_example =
    toggle_sync_button-pins (codes "/a.html") (codes "#b") (codes "index.html") [] synced 2
      (ground arith) refl refl

nav_tree_index-IsSorted : IsSorted nav_tree_index
unfolding text_leb
nav_tree_index-IsSorted = ground arith

scan-partition_example : (1 < scan nav_tree_index (codes "dc/d13/com__client_8hpp.html")) ↔ (
    text_leb
      (codes "d6/dbd/classlsl_1_1stream__inlet.html#a9183e81a122df862eff9ea9797c82b73")
      (codes "dc/d13/com__client_8hpp.html")
    ≡ true)
scan-partition_example =
    scan-partition nav_tree_index (codes "dc/d13/com__client_8hpp.html") 1
      (codes "d6/dbd/classlsl_1_1stream__inlet.html#a9183e81a122df862eff9ea9797c82b73")
      nav_tree_index-IsSorted refl

abbrev extend : Option (List ℕ) → Option (List ℕ)
extend none = some []
extend (some path) = some path

nav_to-never_start_example :
    nav_to extend nav_tree_sub_indices nav_tree_index
      (codes "index.html")
      none
      (codes "nowhere.html")
      []
    ≢ show_start
nav_to-never_start_example =
    nav_to-never_start extend refl (λ path. refl) nav_tree_sub_indices nav_tree_index
      (codes "index.html") none (codes "nowhere.html") []

page_shown :
    nav_to extend nav_tree_sub_indices nav_tree_index
      (codes "index.html")
      none
      (codes "dc/d13/com__client_8hpp.html")
      (codes "#l00012")
    ≡ show_path (0 ∷ 5 ∷ 0 ∷ 1 ∷ 0 ∷ [])
unfolding nav_to goto_node target text_eq
page_shown = refl

globals_path : lookup (codes "globals.html") nav_tree_index2 ≡ some (5 ∷ 1 ∷ 0 ∷ 0 ∷ [])
unfolding lookup text_eq
globals_path = refl

globals_reached :
    nav_to extend nav_tree_sub_indices nav_tree_index
      (codes "index.html")
      none
      (codes "globals.html")
      (codes "#")
    ≡ show_path (0 ∷ 5 ∷ 1 ∷ 0 ∷ 0 ∷ [])
globals_reached =
    nav_to_complete extend refl (λ path. refl) 2 nav_tree_index2 (codes "globals.html")
      (codes "globals.html") (codes "#") (5 ∷ 1 ∷ 0 ∷ 0 ∷ []) (codes "index.html") refl globals_path
      (inr (refl, refl))

selector-finds_example :
    ends_with
      (selector (codes "/html/index.html") (codes "#autotoc_md5"))
      (class_name (codes "index.html#autotoc_md5"))
    ≡ true
unfolding is_address_unit is_word plain_link
selector-finds_example =
    selector-finds (codes "/html") (codes "index.html") (codes "index.html") (codes "autotoc_md5")
      (inl refl) (ground arith) (ground arith) (ground arith) (ground arith) refl

hrefs :
    (link_href (codes "../../") (codes "/html/a.html") (codes "d1/a.html#b")
      ≡ codes "javascript:void(0)")
    × (link_href (codes "../../") (codes "/html/c.html") (codes "d1/a.html#b")
        ≡ codes "../../d1/a.html#b")
    × (link_href (codes "../../") (codes "/html/c.html") (codes "^http://x/y") ≡ codes "http://x/y")
unfolding link_href text_eq
hrefs = (refl, refl, refl)

names : (data_name (codes "dir/d-x") ≡ codes "d_x") × (hash_value (codes "#a<b-c") ≡ codes "ab-c")
unfolding data_name hash_value
names = (refl, refl)

-- No script can be loaded.
abbrev offline : Loader
offline script variable = none

-- Class Index, below Classes.
abbrev class_index : List ℕ
class_index = 0 ∷ 4 ∷ 1 ∷ []

class_index-Leads :
    Leads offline
      (codes "../../")
      (rows nav_tree)
      class_index
      (codes "Class Index")
      (codes "classes.html")
unfolding resolve
class_index-Leads = (_, refl, (_, refl, (_, refl, (_, refl, (_, refl, (_, refl, λ e. cc))))))

abbrev clicked_around : List Tree.Event
clicked_around = show (0 ∷ 3 ∷ []) ∷ toggle (0 ∷ []) ∷ toggle (0 ∷ 4 ∷ []) ∷ []

browse-selects_example :
    let shown =
      show_node offline
        (codes "../../")
        (codes "classes")
        class_index
        (browse offline (codes "../../") (codes "classes") clicked_around root_node) in
    (shown.1 ≡ selected class_index)
    × IsOpen offline
        (codes "../../")
        class_index
        (codes "Class Index")
        (codes "classes.html")
        shown.0
browse-selects_example =
    browse-selects offline (codes "../../") (codes "classes") clicked_around nav_tree
      (record { expanded = false; visited = false; displayed = true }) class_index
      (codes "Class Index") (codes "classes.html") refl class_index-Leads

marked :
    select_and_highlight
      (codes "/html/index.html")
      (codes "#autotoc_md6")
      (browse offline [] (codes "index") (show (0 ∷ 0 ∷ 1 ∷ []) ∷ []) root_node)
      (selected (0 ∷ []))
    ≡ (0 ∷ 0 ∷ 1 ∷ []) ∷ []
unfolding browse select_and_highlight text_eq
marked = refl
