-- ===== src/NavTree/Page/Navigates.antt =====
-- `navTo` on a page of the generated documentation of docs/documentation/html/navtree.js.
use com_client.Base.{ℕ, Text, codes, List, [], ◌∷◌, ◌++◌, Option, none, some, ◌≡◌, sym, ap, ◌∙◌}
use mathlib.Core.Path.{subst}
use com_client.NavTree.Storage.{cached_link}
use com_client.NavTree.Index.{SubIndex, lookup}
use com_client.NavTree.Index.Scripts.{nav_tree_index}
use com_client.NavTree.Index.Every.{nav_tree_sub_indices}
use com_client.NavTree.Index.Complete.{IsAddress, IsAddress-no_line}
use com_client.NavTree.Tree.{show_node, selected}
use com_client.NavTree.Tree.Laws.{IsOpen}
use com_client.NavTree.Tree.Data.{root_node}
use com_client.NavTree.Tree.Selection.{select_and_highlight}
use com_client.NavTree.Site.{load_site}
use com_client.NavTree.Site.Complete.{entry_link, address_shown}
use com_client.NavTree.Page.{Site, State, follow, navigate, root_base_of}
use com_client.NavTree.Page.Laws.{NoLink, navigate-follow}
use com_client.NavTree.Page.History.{Browses}

-- A page with the generated data.
abbrev pub generated : Text → Text → Text → (Option (List ℕ) → Option (List ℕ)) → Site
generated to_root relpath path extend = record {
  to_root = to_root;
  relpath = relpath;
  path = path;
  root = root_node;
  index = nav_tree_index;
  sub_indices = nav_tree_sub_indices;
  start = codes "index.html";
  loader = load_site relpath;
  extend = extend;
}

-- What a page is like at the entry for an address: the calls of `navTo`, the entries that are selected
-- (those that were before, and the entry or those that the hash alone finds), and the tree, which is open
-- at the breadcrumbs, where the entry's link is.
pub record IsOpenAt (site : Site) (calls : List (Text × Text)) (before : List (List ℕ))
    (hash key : Text) (path : List ℕ) (p : State) : Type 0 where
  pub called : p.calls ≡ calls
  pub highlighted : p.marked ≡ before ++ select_and_highlight site.path hash p.tree (selected path)
  pub text : Text
  pub opened : IsOpen site.loader site.relpath path text (entry_link key) p.tree

module _ (extend : Option (List ℕ) → Option (List ℕ)) (empty : extend none ≡ some [])
    (copy : (path : List ℕ) → extend (some path) ≡ some path)
    (to_root relpath path root hash key : Text) (i : ℕ) (sub : SubIndex) (crumbs : List ℕ)
    (s : nav_tree_sub_indices i ≡ some sub) (e : lookup key sub ≡ some crumbs)
    (a : IsAddress root hash key) where
  pub navigate-opens :
      let site = generated to_root relpath path extend in
      (p : State)
      → Browses site p.tree site.root
      → NoLink site (cached_link p.sync)
      → IsOpenAt site
          (p.calls ++ ((root, hash) ∷ []))
          p.marked
          hash
          key
          (0 ∷ crumbs)
          (navigate site root hash p)
  unfolding follow
  navigate-opens p (history, browses) free =
      let site = generated to_root relpath path extend in
      let (goes, chosen, (text, opened)) =
        address_shown extend empty copy relpath (root_base_of site) history i sub key root hash
          (codes "index.html") crumbs s e a in
      let follows =
        navigate-follow site root hash (0 ∷ crumbs) p free (IsAddress-no_line root hash key a)
          goes in
      let show = show_node site.loader relpath (root_base_of site) (0 ∷ crumbs) in
      let tree_eq = ap (λ q. q.tree) follows in
      let ends : (show p.tree).1 ≡ selected (0 ∷ crumbs) = ap (λ n. (show n).1) browses ∙ chosen in
      record {
        called = ap (λ q. q.calls) follows;
        highlighted =
            ap (λ q. q.marked) follows
            ∙ ap (λ o. p.marked ++ select_and_highlight path hash (show p.tree).0 o) ends
            ∙ ap (λ n. p.marked ++ select_and_highlight path hash n (selected (0 ∷ crumbs)))
                (sym tree_eq);
        text = text;
        opened =
            subst (IsOpen site.loader relpath (0 ∷ crumbs) text (entry_link key))
              (sym (tree_eq ∙ ap (λ n. (show n).0) browses)) opened;
      }
