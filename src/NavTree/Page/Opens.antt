-- ===== src/NavTree/Page/Opens.antt =====
-- The start of a page of docs/documentation/html/navtree.js: whichever of `load` and `ready` comes first.
use com_client.Base.{
  if◌then◌else◌, ℕ, Text, Bool, true, false, List, [], ◌∷◌, ◌++◌, Option, none, some, map, ◌≡◌,
  refl, sym, ap, ◌∙◌, arith,
}
use mathlib.Core.Path.{subst}
use com_client.NavTree.Paths.{hash_url}
use com_client.NavTree.Storage.{cached_link, init_sync, load_page}
use com_client.NavTree.Index.{SubIndex, lookup}
use com_client.NavTree.Index.Every.{nav_tree_sub_indices}
use com_client.NavTree.Index.Complete.{IsAddress}
use com_client.NavTree.Tree.{browse, toggle, selected}
use com_client.NavTree.Tree.Laws.{IsOpen}
use com_client.NavTree.Tree.Selection.{select_and_highlight}
use com_client.NavTree.Site.Complete.{entry_link}
use com_client.NavTree.Page.{
  Site, State, Event, ready, load, arrow, navigate, window_load, init_nav_tree, navigate_ready,
  step, run, fresh,
}
use com_client.NavTree.Page.Navigates.{generated, IsOpenAt, navigate-opens}
use com_client.NavTree.Page.Laws.{run-append, toggled, run-arrows, NoLink}

-- The two orders in which a page starts; arrows can be clicked once the document is ready.
pub data IsStart : List Event → Type 0 where
  ready_first : (paths : List (List ℕ)) → IsStart (ready ∷ (map arrow paths ++ (load ∷ [])))
  load_first : IsStart (load ∷ ready ∷ [])

cached_link-init_sync :
    (supported : Bool) (navpath : Option Text)
    → cached_link (init_sync (load_page supported navpath))
      ≡ cached_link (load_page supported navpath)
unfolding init_sync cached_link
cached_link-init_sync supported navpath = ground arith

module _ (site : Site) (hash : Text) (supported : Bool) (navpath : Option Text) where
  -- The page when `initNavTree` has built the tree, and arrows were clicked.
  built : List (List ℕ) → Bool → State
  built paths loaded = record (fresh site hash supported navpath) {
    sync = init_sync (load_page supported navpath);
    tree = toggled site paths site.root;
    bound = true;
    load_triggered = loaded;
    ready_call = if loaded then none else some (site.to_root, hash_url hash);
  }

  abbrev Same : State → State → Type 0
  Same p q = (p.calls ≡ q.calls) × (p.marked ≡ q.marked) × (p.tree ≡ q.tree)

  started :
      (events : List Event)
      → IsStart events
      → (paths : List (List ℕ)) × (loaded : Bool) × Same
          (run site events (fresh site hash supported navpath))
          (navigate site site.to_root (hash_url hash) (built paths loaded))
  unfolding run step fresh built window_load navigate_ready init_nav_tree browse
  started events load_first = ([], true, (refl, refl, refl))
  started events (ready_first paths) =
      let first = built [] false in
      let turned : run site (map arrow paths) first ≡ built paths false =
        run-arrows site paths first refl in
      let all =
        run-append site (map arrow paths) (load ∷ []) first ∙ ap (run site (load ∷ [])) turned in
      (paths, false, (ap (λ s. s.calls) all, ap (λ s. s.marked) all, ap (λ s. s.tree) all))

-- A page of the generated documentation whose name and hash are an address of the index, in a browser
-- that keeps no link: whether the document is ready before the window's `load`, with any clicks on arrows
-- between, or after it, `navTo` is called exactly once, with this address; the tree is then open down to
-- the entry for the address, and that entry is selected, or the entries that the hash alone finds. All
-- scripts can be loaded, and `$.extend(true, [], x)` copies an array and gives the empty one for an
-- undefined value.
pub page_opens :
    (extend : Option (List ℕ) → Option (List ℕ))
    → extend none ≡ some []
    → ((path : List ℕ) → extend (some path) ≡ some path)
    → (to_root relpath path hash : Text) (supported : Bool) (navpath : Option Text)
      (events : List Event)
    → (i : ℕ) (sub : SubIndex) (key : Text) (crumbs : List ℕ) → IsStart events
    → NoLink (generated to_root relpath path extend) (cached_link (load_page supported navpath))
    → nav_tree_sub_indices i ≡ some sub
    → lookup key sub ≡ some crumbs
    → IsAddress to_root (hash_url hash) key
    → let site = generated to_root relpath path extend in
      IsOpenAt site
        ((to_root, hash_url hash) ∷ [])
        []
        (hash_url hash)
        key
        (0 ∷ crumbs)
        (run site events (fresh site hash supported navpath))
unfolding built fresh
page_opens extend empty copy to_root relpath path hash supported navpath events i sub key crumbs
      starts free s e a =
    let site = generated to_root relpath path extend in
    let (paths, loaded, (calls, marked, tree)) =
      started site hash supported navpath events starts in
    let open_at =
      navigate-opens extend empty copy to_root relpath path to_root (hash_url hash) key i sub crumbs
        s e a (built site hash supported navpath paths loaded) (map toggle paths, refl)
        (subst (NoLink site) (sym (cached_link-init_sync supported navpath)) free) in
    record {
      called = calls ∙ open_at.called;
      highlighted =
          marked
          ∙ open_at.highlighted
          ∙ ap (λ n. select_and_highlight path (hash_url hash) n (selected (0 ∷ crumbs)))
              (sym tree);
      text = open_at.text;
      opened =
          subst (IsOpen site.loader relpath (0 ∷ crumbs) open_at.text (entry_link key)) (sym tree)
            open_at.opened;
    }
