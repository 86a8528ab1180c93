-- ===== src/NavTree/Tree/Browse.antt =====
-- The tree of docs/documentation/html/navtree.js after any use of it.
use com_client.Base.{ℕ, ◌≡◌, refl, ◌∙◌, Text, false, List, [], ◌∷◌, inl}
use com_client.NavTree.Tree.{
  rows, Rows, Flags, Node, node, nil, source_of, Loader, selected, show_node, toggle_at, Event,
  show, toggle, browse,
}
use com_client.NavTree.Tree.Laws.{
  Fits, Leads, Leads-resolve, resolve-view, IsOpen, show_node-selects,
}
use com_client.NavTree.Tree.Kept.{Replaces, show_node-Replaces, toggle_at-Replaces}

module _ (load : Loader) (relpath : Text) where
  browse-Replaces :
      (root_base : Text) (events : List Event) (n : Node)
      → Fits load relpath n
      → Replaces load relpath (browse load relpath root_base events n) n
  unfolding browse
  browse-Replaces root_base [] n h = (refl, h)
  browse-Replaces root_base (show path ∷ events) n h =
      let m = (show_node load relpath root_base path n).0 in
      let (kept, fits) = show_node-Replaces load relpath root_base path n h in
      let (later, last) = browse-Replaces root_base events m fits in (later ∙ kept, last)
  browse-Replaces root_base (toggle path ∷ events) n h =
      let (kept, fits) = toggle_at-Replaces load relpath path n h in
      let (later, last) = browse-Replaces root_base events (toggle_at load relpath path n) fits in
      (later ∙ kept, last)

  -- Whatever was shown, expanded and folded before, from a root that was not visited: along
  -- breadcrumbs that lead through the root's data to a row, `showNode` selects the node at their end, which
  -- has the row's text and link, and expands and displays every node on the way to it.
  pub browse-selects :
      (root_base : Text) (events : List Event) (items : Rows) (flags : Flags) (path : List ℕ)
      (text link : Text)
      → flags.visited ≡ false
      → Leads load relpath (rows items) path text link
      → let shown =
          show_node load relpath root_base path
            (browse load relpath root_base events (node [] [] (rows items) flags nil)) in
        (shown.1 ≡ selected path) × IsOpen load relpath path text link shown.0
  browse-selects root_base events items flags path text link fresh leads =
      let root = node [] [] (rows items) flags nil in
      let (kept, fits) = browse-Replaces root_base events root (inl fresh) in
      let now = browse load relpath root_base events root in
      show_node-selects load relpath root_base path text link now fits (
        Leads-resolve load relpath (source_of now) (rows items) path text link
          (resolve-view load relpath now ([], [], rows items) kept) leads)
