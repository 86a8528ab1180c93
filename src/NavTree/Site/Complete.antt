-- ===== src/NavTree/Site/Complete.antt =====
-- The generated index, the generated tree and the code that reads them: docs/documentation/html/navtree.js
-- from an address to the selected entry.
use com_client.Base.{
  ℕ, ◌-◌, ◌≡◌, refl, Text, codes, Bool, true, false, List, [], ◌∷◌, ◌++◌, Option, none, some,
  if◌then◌else◌, take, length, text_eq, text_eq→eq,
}
use mathlib.Core.Path.{subst}
use com_client.NavTree.Links.{ends_with}
use com_client.NavTree.Index.{SubIndex, lookup, nav_to, show_path}
use com_client.NavTree.Index.Scripts.{nav_tree_index}
use com_client.NavTree.Index.Every.{nav_tree_sub_indices, every, AllScripts, script-every}
use com_client.NavTree.Index.Complete.{IsAddress, nav_to_complete}
use com_client.NavTree.Tree.{rows, selected, show_node, Event, browse}
use com_client.NavTree.Tree.Laws.{Entry, Leads, IsOpen}
use com_client.NavTree.Tree.Data.{nav_tree, root_flags, root_node}
use com_client.NavTree.Tree.Browse.{browse-selects}
use com_client.NavTree.Site.{load_site}
use com_client.NavTree.Site.Follow.{ends_at, ends_at-Leads}

-- The link of the entry for an address: that of a source file's documentation for its listing, that of the
-- start page for the list of related pages, and else the address.
unfoldable pub entry_link : Text → Text
unfolding ends_with text_eq
entry_link key =
    if ends_with (codes "_source.html") key
    then take (length key - 12) key ++ codes ".html"
    else if text_eq key (codes "pages.html")
    then codes "index.html"
    else key

-- The breadcrumbs of an address end at the entry for it.
unfoldable ends_there : Text → Option Entry → Bool
unfolding entry_link text_eq
ends_there key none = false
ends_there key (some r) = text_eq r.1 (entry_link key)

unfoldable all_end : ℕ → SubIndex → Text → List ℕ → Bool
unfolding ends_at ends_there
all_end i sub key path = ends_there key (ends_at (0 ∷ path) (rows nav_tree))

all-all_end : AllScripts all_end
unfolding every all_end
all-all_end = (refl, refl, refl)

ends_there-row :
    (key : Text) (end : Option Entry)
    → ends_there key end ≡ true
    → (r : Entry) × (end ≡ some r) × (r.1 ≡ entry_link key)
ends_there-row key none h = unfold ends_there in cc
ends_there-row key (some r) h = (r, refl, text_eq→eq r.1 (entry_link key) (unfold ends_there in h))

all_end-there :
    (i : ℕ) (sub : SubIndex) (key : Text) (path : List ℕ)
    → nav_tree_sub_indices i ≡ some sub
    → lookup key sub ≡ some path
    → ends_there key (ends_at (0 ∷ path) (rows nav_tree)) ≡ true
unfolding all_end
all_end-there i sub key path s e = script-every all_end all-all_end i sub key path s e

-- From an address to its entry, over the generated data: for the page and hash of an address of the
-- index, with no link kept, `navTo` and then `showNode` on a tree that was expanded and folded in any way
-- before select the node at the address's breadcrumbs. Its link is the address (for the listing of a
-- source file the file's documentation, for the list of pages the start page), and every node on the
-- way to it is expanded and displayed. All scripts can be loaded, and `$.extend(true, [], x)` copies an
-- array and gives the empty one for an undefined value.
pub address_shown :
    (extend : Option (List ℕ) → Option (List ℕ))
    → extend none ≡ some []
    → ((path : List ℕ) → extend (some path) ≡ some path)
    → (relpath root_base : Text) (events : List Event)
    → (i : ℕ) (sub : SubIndex) (key root hash start : Text) (path : List ℕ)
    → nav_tree_sub_indices i ≡ some sub
    → lookup key sub ≡ some path
    → IsAddress root hash key
    → let load = load_site relpath in
      let shown =
        show_node load relpath root_base
          (0 ∷ path)
          (browse load relpath root_base events root_node) in
      (nav_to extend nav_tree_sub_indices nav_tree_index start none root hash
        ≡ show_path (0 ∷ path))
      × (shown.1 ≡ selected (0 ∷ path))
      × ((text : Text) × IsOpen load relpath (0 ∷ path) text (entry_link key) shown.0)
address_shown extend empty copy relpath root_base events i sub key root hash start path s e a =
    let (r, at, linked) =
      ends_there-row key (ends_at (0 ∷ path) (rows nav_tree)) (all_end-there i sub key path s e) in
    let leads = ends_at-Leads relpath (0 ∷ path) (rows nav_tree) r at in
    let (chosen, opened) =
      browse-selects (load_site relpath) relpath root_base events nav_tree root_flags (0 ∷ path) r.0
        (entry_link key) refl
        (subst (λ link. Leads (load_site relpath) relpath (rows nav_tree) (0 ∷ path) r.0 link)
          linked leads) in
    (nav_to_complete extend empty copy i sub key root hash path start s e a, chosen, (r.0, opened))
