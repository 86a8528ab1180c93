-- ===== src/NavTree/Page/History.antt =====
-- What a page of docs/documentation/html/navtree.js does to its tree, as events of the tree.
use com_client.Base.{
  ℕ, Text, Bool, true, List, [], ◌∷◌, ◌++◌, Option, none, some, ◌≡◌, refl, sym, ap, ◌∙◌, ◌⊎◌, inl,
  inr, Option-cases, if-cases, if◌then◌else◌,
}
use com_client.NavTree.Storage.{cached_link, store_link, init_sync, toggle_sync_button}
use com_client.NavTree.Paths.{strip_path, strip_path2, path_name, hash_url, hash_value}
use com_client.NavTree.Tree.Selection.{linked_in}
use com_client.NavTree.Index.{
  after_hash, Goto, stay, show_path, show_start, nav_to, target, strip_line,
}
use com_client.NavTree.Links.{plain_link}
use com_client.NavTree.Tree.{Node, node, leaf, script, rows, kids_of, browse, show, toggle}
use com_client.NavTree.Tree as Tree
use com_client.NavTree.Page.{
  Site, State, Call, Event, ready, load, hash_change, arrow, sync_click, animation, entry_click,
  entry_at, click_entry, is_marked, show_start_page, follow, follow_goto, navigate, navigate_ready,
  init_nav_tree, window_load, hash_changed, any_marked, has_anchor, step, run, fresh, root_base_of,
}

module _ (site : Site) where
  abbrev pub browsed : List Tree.Event → Node → Node
  browsed events n = browse site.loader site.relpath (root_base_of site) events n

  browsed-append :
      (xs ys : List Tree.Event) (n : Node) → browsed (xs ++ ys) n ≡ browsed ys (browsed xs n)
  unfolding browse
  browsed-append [] ys n = refl
  browsed-append (show path ∷ xs) ys n =
      browsed-append xs ys (Tree.show_node site.loader site.relpath (root_base_of site) path n).0
  browsed-append (toggle path ∷ xs) ys n =
      browsed-append xs ys (Tree.toggle_at site.loader site.relpath path n)

  -- A tree that comes of another one by clicks and calls of `showNode`.
  abbrev pub Browses : Node → Node → Type 0
  Browses m n = (events : List Tree.Event) × (m ≡ browsed events n)

  Browses-trans : (l m n : Node) → Browses l m → Browses m n → Browses l n
  Browses-trans l m n (xs, e) (ys, k) =
      (ys ++ xs, e ∙ ap (browsed xs) k ∙ sym (browsed-append ys xs n))

  -- Where the fallback to the start page goes.
  abbrev start_of : State → Goto
  start_of s =
      nav_to site.extend site.sub_indices site.index site.start (cached_link s.sync) site.start []

  show_start_page-Browses :
      (anchor : Text) (goto : Goto) (s : State)
      → Browses (show_start_page site anchor goto s).tree s.tree
  unfolding show_start_page follow browse
  show_start_page-Browses anchor stay s = ([], refl)
  show_start_page-Browses anchor show_start s = ([], refl)
  show_start_page-Browses anchor (show_path path) s = (show path ∷ show (0 ∷ path) ∷ [], refl)

  -- What showing a node leaves alone.
  abbrev IsKept : State → State → Type 0
  IsKept p s = (p.calls ≡ s.calls) × (p.bound ≡ s.bound) × (p.ready_call ≡ s.ready_call)

  show_start_page-IsKept :
      (anchor : Text) (goto : Goto) (s : State) → IsKept (show_start_page site anchor goto s) s
  unfolding show_start_page follow
  show_start_page-IsKept anchor stay s = (refl, refl, refl)
  show_start_page-IsKept anchor show_start s = (refl, refl, refl)
  show_start_page-IsKept anchor (show_path path) s = (refl, refl, refl)

  follow_goto-Browses :
      (anchor : Text) (goto : Goto) (s : State)
      → Browses (follow_goto site anchor goto s).tree s.tree
  unfolding follow_goto follow browse
  follow_goto-Browses anchor stay s = ([], refl)
  follow_goto-Browses anchor show_start s = show_start_page-Browses anchor (start_of s) s
  follow_goto-Browses anchor (show_path path) s = (show path ∷ [], refl)

  follow_goto-IsKept :
      (anchor : Text) (goto : Goto) (s : State) → IsKept (follow_goto site anchor goto s) s
  unfolding follow_goto follow
  follow_goto-IsKept anchor stay s = (refl, refl, refl)
  follow_goto-IsKept anchor show_start s = show_start_page-IsKept anchor (start_of s) s
  follow_goto-IsKept anchor (show_path path) s = (refl, refl, refl)

  navigate-Browses :
      (root hash : Text) (s : State) → Browses (navigate site root hash s).tree s.tree
  unfolding navigate
  navigate-Browses root hash s =
      follow_goto-Browses (strip_line (target (cached_link s.sync) root hash).1)
        (nav_to site.extend site.sub_indices site.index site.start (cached_link s.sync) root hash)
        (record s { calls = s.calls ++ ((root, hash) ∷ []) })

  pub navigate-calls :
      (root hash : Text) (s : State)
      → (navigate site root hash s).calls ≡ s.calls ++ ((root, hash) ∷ [])
  unfolding navigate
  navigate-calls root hash s =
      (follow_goto-IsKept (strip_line (target (cached_link s.sync) root hash).1)
        (nav_to site.extend site.sub_indices site.index site.start (cached_link s.sync) root hash)
        (record s { calls = s.calls ++ ((root, hash) ∷ []) })).0

  pub navigate-page :
      (root hash : Text) (s : State)
      → ((navigate site root hash s).bound ≡ s.bound)
        × ((navigate site root hash s).ready_call ≡ s.ready_call)
  unfolding navigate
  navigate-page root hash s =
      let (calls, bound, call) =
        follow_goto-IsKept (strip_line (target (cached_link s.sync) root hash).1)
          (nav_to site.extend site.sub_indices site.index site.start (cached_link s.sync) root hash)
          (record s { calls = s.calls ++ ((root, hash) ∷ []) }) in
      (bound, call)

  navigate_ready-Browses :
      (call : Option Call) (s : State) → Browses (navigate_ready site call s).tree s.tree
  unfolding navigate_ready browse
  navigate_ready-Browses none s = ([], refl)
  navigate_ready-Browses (some (root, hash)) s = navigate-Browses root hash s

  -- A handler either builds the tree anew or goes on from the one that is there.
  abbrev Goes : State → State → Type 0
  Goes p s = Browses p.tree site.root ⊎ Browses p.tree s.tree

  unfoldable pub cleared : List (List ℕ) → State → State
  cleared marks s = if any_marked marks s.marked then s else record s { marked = [] }

  pub cleared-kept :
      (marks : List (List ℕ)) (s : State)
      → ((cleared marks s).tree ≡ s.tree)
        × ((cleared marks s).calls ≡ s.calls)
        × ((cleared marks s).bound ≡ s.bound)
        × ((cleared marks s).ready_call ≡ s.ready_call)
        × ((cleared marks s).sync ≡ s.sync)
  unfolding cleared
  cleared-kept marks s =
      if-cases
        (λ p.
          (p.tree ≡ s.tree)
          × (p.calls ≡ s.calls)
          × (p.bound ≡ s.bound)
          × (p.ready_call ≡ s.ready_call)
          × (p.sync ≡ s.sync))
        s (record s { marked = [] }) (any_marked marks s.marked)
        (λ e. (refl, refl, refl, refl, refl)) (λ e. (refl, refl, refl, refl, refl))

  hash_changed-Browses : (s : State) → Browses (hash_changed site s).tree s.tree
  unfolding hash_changed browse cleared
  hash_changed-Browses s =
      let marks =
        linked_in (strip_path (path_name site.path) ++ b':' ∷ hash_value s.hash) 0
          (kids_of s.tree) in
      let link = strip_path2 (path_name site.path) in
      let going = navigate site link (hash_url s.hash) (cleared marks s) in
      let home = navigate site site.to_root (hash_url s.hash) (record s { marked = [] }) in
      let (events, went) = navigate-Browses link (hash_url s.hash) (cleared marks s) in
      if-cases (λ p. Browses p.tree s.tree) going (if s.animation_in_progress then s else home)
        (has_anchor s.hash) (λ e. (events, went ∙ ap (browsed events) (cleared-kept marks s).0))
        (λ e.
          if-cases (λ p. Browses p.tree s.tree) s home s.animation_in_progress (λ k. ([], refl))
            (λ k. navigate-Browses site.to_root (hash_url s.hash) (record s { marked = [] })))

  init_nav_tree-Browses : (s : State) → Browses (init_nav_tree site s).tree site.root
  unfolding init_nav_tree browse
  init_nav_tree-Browses s =
      let built = record s {
        tree = site.root;
        marked = [];
        sync = init_sync s.sync;
        bound = true;
      } in
      if-cases (λ p. Browses p.tree site.root) (navigate site site.to_root (hash_url s.hash) built)
        (record built { ready_call = some (site.to_root, hash_url s.hash) }) s.load_triggered
        (λ e. navigate-Browses site.to_root (hash_url s.hash) built) (λ e. ([], refl))

  click_entry-Browses :
      (path : List ℕ) (n : Node) (s : State) → Browses (click_entry site path n s).tree s.tree
  unfolding click_entry browse
  click_entry-Browses path (node text [] leaf flags kids) s = ([], refl)
  click_entry-Browses path (node text [] (script file) flags kids) s = (toggle path ∷ [], refl)
  click_entry-Browses path (node text [] (rows items) flags kids) s = (toggle path ∷ [], refl)
  click_entry-Browses path (node text (c ∷ link) source flags kids) s =
      let stored = record s { sync = store_link (plain_link (c ∷ link)) s.sync } in
      let chosen = record stored { marked = path ∷ [] } in
      elim (Option-cases (after_hash (plain_link (c ∷ link)))) [
        | inl e ↦ rw (e, click_entry) ([], refl)
        | inr (anchor, e) ↦
            rw (e, click_entry)
              (if-cases (λ p. Browses p.tree s.tree) stored chosen (is_marked path s.marked)
                (λ k. ([], refl)) (λ k. ([], refl)))
      ]

  step-Goes : (e : Event) (s : State) → Goes (step site e s) s
  unfolding step window_load browse
  step-Goes ready s = inl (init_nav_tree-Browses s)
  step-Goes load s = inr (navigate_ready-Browses s.ready_call s)
  step-Goes (hash_change h) s =
      let moved = record s { hash = h } in
      if-cases (λ p. Goes p s) (hash_changed site moved) moved s.bound
        (λ e. inr (hash_changed-Browses moved)) (λ e. inr ([], refl))
  step-Goes (arrow path) s =
      let turned = record s { tree = Tree.toggle_at site.loader site.relpath path s.tree } in
      if-cases (λ p. Goes p s) turned s s.bound (λ e. inr (toggle path ∷ [], refl))
        (λ e. inr ([], refl))
  step-Goes sync_click s =
      let clicked = record s { sync = toggle_sync_button site.path s.hash s.sync } in
      if-cases (λ p. Goes p s) clicked s s.sync.clickable (λ e. inr ([], refl))
        (λ e. inr ([], refl))
  step-Goes (entry_click i path) s =
      let at = entry_at (i ∷ path) s.tree in
      let clicked : State = elim at [ none ↦ s | some n ↦ click_entry site (i ∷ path) n s ] in
      if-cases (λ p. Goes p s) clicked s s.bound
        (λ e. elim (Option-cases at) [
          | inl k ↦ rw k (inr ([], refl))
          | inr (n, k) ↦ rw k (inr (click_entry-Browses (i ∷ path) n s))
        ])
        (λ e. inr ([], refl))
  step-Goes (animation b) s = inr ([], refl)

  step-Browses :
      (e : Event) (s : State) → Browses s.tree site.root → Browses (step site e s).tree site.root
  step-Browses e s h = elim (step-Goes e s) [
    | inl anew ↦ anew
    | inr on ↦ Browses-trans (step site e s).tree s.tree site.root on h
  ]

  events-Browses :
      (es : List Event) (s : State)
      → Browses s.tree site.root
      → Browses (run site es s).tree site.root
  unfolding run
  events-Browses [] s h = h
  events-Browses (e ∷ es) s h = events-Browses es (step site e s) (step-Browses e s h)

  -- The page's tree refines the tree of NavTree.Tree: whatever happens to a page, in any order, the tree
  -- that it ends with is the generated one after some clicks on arrows and some calls of `showNode`.
  pub run-Browses :
      (es : List Event) (hash : Text) (supported : Bool) (navpath : Option Text)
      → Browses (run site es (fresh site hash supported navpath)).tree site.root
  unfolding fresh browse
  run-Browses es hash supported navpath =
      events-Browses es (fresh site hash supported navpath) ([], refl)
