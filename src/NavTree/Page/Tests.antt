-- ===== src/NavTree/Page/Tests.antt =====
-- Runs of a page of docs/documentation/html/navtree.js.
use com_client.Base.{
  ℕ, Text, codes, true, List, [], ◌∷◌, ◌++◌, Option, none, some, inl, inr, ◌≡◌, refl, text_eq,
}
use com_client.NavTree.Paths.{
  hash_url, hash_value, strip_path2, path_name, is_word, is_address_unit, last_slash,
}
use com_client.NavTree.Storage.{cached_link, init_sync, load_page, store_link, toggle_sync_button}
use com_client.NavTree.Index.{lookup, is_line, nav_to}
use com_client.NavTree.Index.Script2.{nav_tree_index2}
use com_client.NavTree.Tree.{show_node}
use com_client.NavTree.Page.{
  Site, State, ready, load, arrow, sync_click, entry_click, hash_change, has_anchor, step, run,
  fresh, init_nav_tree,
}
use com_client.NavTree.Page.Navigates.{generated, IsOpenAt}
use com_client.NavTree.Page.Opens.{ready_first, page_opens}
use com_client.NavTree.Page.Hashes.{own_link, load-stale_hash, hash_change-opens}

abbrev copy_array : Option (List ℕ) → Option (List ℕ)
copy_array none = some []
copy_array (some path) = some path

abbrev globals_page : Site
globals_page = generated (codes "globals.html") [] (codes "/html/globals.html") copy_array

abbrev globals_crumbs : List ℕ
globals_crumbs = 5 ∷ 1 ∷ 0 ∷ 0 ∷ []

globals_at : lookup (codes "globals.html") nav_tree_index2 ≡ some globals_crumbs
unfolding lookup text_eq
globals_at = refl

page_opens_example :
    IsOpenAt globals_page
      ((codes "globals.html", codes "#") ∷ [])
      []
      (codes "#")
      (codes "globals.html")
      (0 ∷ globals_crumbs)
      (run globals_page (ready ∷ arrow (0 ∷ []) ∷ load ∷ []) (fresh globals_page [] true none))
unfolding hash_url hash_value cached_link load_page
page_opens_example =
    page_opens copy_array refl (λ path. refl) (codes "globals.html") [] (codes "/html/globals.html")
      [] true none (ready ∷ arrow (0 ∷ []) ∷ load ∷ []) 2 nav_tree_index2 (codes "globals.html")
      globals_crumbs (ready_first ((0 ∷ []) ∷ [])) (inl refl) refl globals_at (inr (refl, refl))

abbrev header_path : Text
header_path = codes "/html/db/df3/lsl__c_8h.html"

abbrev header_page : Site
header_page = generated (codes "db/df3/lsl__c_8h.html") (codes "../../") header_path copy_array

abbrev member : Text
member = codes "#af9e8d161e2cc70ffbf9443083ff5d33d"

abbrev member_key : Text
member_key = codes "db/df3/lsl__c_8h.html#af9e8d161e2cc70ffbf9443083ff5d33d"

abbrev member_crumbs : List ℕ
member_crumbs = 5 ∷ 0 ∷ 4 ∷ 0 ∷ 0 ∷ 0 ∷ 80 ∷ []

member_at : lookup member_key nav_tree_index2 ≡ some member_crumbs
unfolding lookup text_eq
member_at = refl

abbrev begun : State
unfolding run
begun = run header_page (ready ∷ []) (fresh header_page [] true none)

hash_change-opens_example :
    (before : List (List ℕ)) × IsOpenAt header_page
      (begun.calls ++ ((own_link header_page, hash_url member) ∷ []))
      before
      (hash_url member)
      member_key
      (0 ∷ member_crumbs)
      (step header_page (hash_change member) begun)
unfolding begun run step init_nav_tree fresh cached_link init_sync load_page has_anchor hash_url
    strip_path2 path_name hash_value is_line is_word is_address_unit last_slash
hash_change-opens_example =
    hash_change-opens copy_array refl (λ path. refl) (codes "db/df3/lsl__c_8h.html")
      (codes "../../") header_path [] member true none (ready ∷ []) 2 nav_tree_index2 member_key
      member_crumbs refl (inl refl) refl refl member_at (inl (refl, refl))

load-stale_hash_example :
    (run header_page
      (ready ∷ hash_change member ∷ load ∷ [])
      (fresh header_page [] true none)).calls
    ≡ (own_link header_page, hash_url member) ∷ (codes "db/df3/lsl__c_8h.html", hash_url []) ∷ []
unfolding has_anchor
load-stale_hash_example = load-stale_hash header_page [] member true none refl

-- A click on the first entry, with the button off, moves the kept link to this entry.
entry_stored :
    (run globals_page
      (ready ∷ load ∷ sync_click ∷ entry_click 0 [] ∷ [])
      (fresh globals_page [] true none)).sync.navpath
    ≡ some (codes "index.html")
unfolding run init_nav_tree fresh init_sync load_page toggle_sync_button strip_path2 path_name
    last_slash is_word is_address_unit hash_url hash_value store_link nav_to text_eq show_node
entry_stored = refl
