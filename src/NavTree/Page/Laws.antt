-- ===== src/NavTree/Page/Laws.antt =====
-- Runs of a page of docs/documentation/html/navtree.js, step by step.
use com_client.Base.{
  ℕ, Text, true, false, List, [], ◌∷◌, ◌++◌, Option, none, some, map, ◌≡◌, refl, ap, ◌∙◌, ◌⊎◌, inl,
  inr,
}
use com_client.NavTree.Storage.{cached_link}
use com_client.NavTree.Index.{nav_to, target, strip_line, is_line, show_path}
use com_client.NavTree.Tree.{Node, browse, show_node, toggle, show}
use com_client.NavTree.Tree as Tree
use com_client.NavTree.Page as Page
use com_client.NavTree.Page.{
  Site, State, Call, Event, ready, load, hash_change, arrow, sync_click, animation, follow,
  navigate, init_nav_tree, window_load, hash_changed, step, run, fresh, root_base_of,
}

module _ (site : Site) where
  pub run-append :
      (es fs : List Event) (s : State) → run site (es ++ fs) s ≡ run site fs (run site es s)
  unfolding run
  run-append [] fs s = refl
  run-append (e ∷ es) fs s = run-append es fs (step site e s)

  abbrev pub toggled : List (List ℕ) → Node → Node
  toggled paths n = browse site.loader site.relpath (root_base_of site) (map toggle paths) n

  -- Clicks on arrows turn the tree as `browse` does, and nothing else.
  pub run-arrows :
      (paths : List (List ℕ)) (s : State)
      → s.bound ≡ true
      → run site (map arrow paths) s ≡ record s { tree = toggled paths s.tree }
  unfolding run step browse
  run-arrows [] s b = refl
  run-arrows (path ∷ paths) s b =
      let next = record s { tree = Tree.toggle_at site.loader site.relpath path s.tree } in
      let here : step site (arrow path) s ≡ next = rw (b, step) refl in
      ap (run site (map arrow paths)) here ∙ run-arrows paths next b

  pub run-arrows_early :
      (paths : List (List ℕ)) (s : State) → s.bound ≡ false → run site (map arrow paths) s ≡ s
  unfolding run step
  run-arrows_early [] s b = refl
  run-arrows_early (path ∷ paths) s b =
      let here : step site (arrow path) s ≡ s = rw (b, step) refl in
      ap (run site (map arrow paths)) here ∙ run-arrows_early paths s b

  -- No link is kept, or the browser keeps none.
  abbrev pub NoLink : Option Text → Type 0
  NoLink link = (link ≡ none) ⊎ (link ≡ some [])

  nav_to-NoLink :
      (link : Option Text) (root hash : Text)
      → NoLink link
      → nav_to site.extend site.sub_indices site.index site.start link root hash
        ≡ nav_to site.extend site.sub_indices site.index site.start none root hash
  unfolding nav_to target
  nav_to-NoLink link root hash (inl e) = rw e refl
  nav_to-NoLink link root hash (inr e) = rw e refl

  target-NoLink :
      (link : Option Text) (root hash : Text)
      → NoLink link
      → is_line hash ≡ false
      → strip_line (target link root hash).1 ≡ hash
  unfolding target strip_line
  target-NoLink link root hash (inl e) h = rw e (rw (h, strip_line) refl)
  target-NoLink link root hash (inr e) h = rw e (rw (h, strip_line) refl)

  abbrev called : Text → Text → State → State
  called root hash s = record s { calls = s.calls ++ ((root, hash) ∷ []) }

  -- Without a kept link, `navTo` follows the breadcrumbs that it finds for its arguments.
  pub navigate-follow :
      (root hash : Text) (path : List ℕ) (s : State)
      → NoLink (cached_link s.sync)
      → is_line hash ≡ false
      → nav_to site.extend site.sub_indices site.index site.start none root hash ≡ show_path path
      → navigate site root hash s
        ≡ follow site path hash (record s { calls = s.calls ++ ((root, hash) ∷ []) })
  unfolding navigate
  navigate-follow root hash path s free line found =
      let link = cached_link s.sync in
      let goes = nav_to-NoLink link root hash free ∙ found in
      ap (λ g. Page.follow_goto site (strip_line (target link root hash).1) g (called root hash s))
        goes
      ∙ ap (λ anchor. follow site path anchor (called root hash s))
          (target-NoLink link root hash free line)
