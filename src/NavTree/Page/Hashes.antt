-- ===== src/NavTree/Page/Hashes.antt =====
-- Changes of the hash on a page of docs/documentation/html/navtree.js.
use com_client.Base.{
  ℕ, Text, Bool, true, List, [], ◌∷◌, ◌++◌, Option, none, some, ◌≡◌, refl, sym, ap, ◌∙◌,
}
use mathlib.Core.Path.{subst}
use com_client.NavTree.Paths.{strip_path, strip_path2, path_name, hash_url, hash_value}
use com_client.NavTree.Storage.{cached_link}
use com_client.NavTree.Index.{SubIndex, lookup}
use com_client.NavTree.Index.Every.{nav_tree_sub_indices}
use com_client.NavTree.Index.Complete.{IsAddress}
use com_client.NavTree.Tree.{kids_of}
use com_client.NavTree.Tree.Selection.{linked_in}
use com_client.NavTree.Page.{
  Site, State, Event, ready, load, hash_change, navigate, navigate_ready, window_load,
  init_nav_tree, hash_changed, has_anchor, step, run, fresh,
}
use com_client.NavTree.Page.Laws.{NoLink}
use com_client.NavTree.Page.History.{
  cleared, cleared-kept, run-Browses, navigate-calls, navigate-page,
}
use com_client.NavTree.Page.Navigates.{generated, IsOpenAt, navigate-opens}

module _ (site : Site) where
  -- The page's own address without the hash.
  abbrev pub own_link : Text
  own_link = strip_path2 (path_name site.path)

  abbrev moved : Text → State → State
  moved h s = record s { hash = h }

  marks_of : Text → State → List (List ℕ)
  marks_of h s =
      linked_in (strip_path (path_name site.path) ++ b':' ∷ hash_value h) 0 (kids_of s.tree)

  before_move : Text → State → State
  before_move h s = cleared site (marks_of h s) (moved h s)

  hash_change-navigates :
      (h : Text) (s : State)
      → s.bound ≡ true
      → has_anchor h ≡ true
      → step site (hash_change h) s ≡ navigate site own_link (hash_url h) (before_move h s)
  unfolding step hash_changed before_move marks_of cleared
  hash_change-navigates h s bound anchored =
      let here : step site (hash_change h) s ≡ hash_changed site (moved h s) =
        rw (bound, step) refl in
      here ∙ rw (anchored, hash_changed) refl

  hash_change-calls :
      (h : Text) (s : State)
      → s.bound ≡ true
      → has_anchor h ≡ true
      → (step site (hash_change h) s).calls ≡ s.calls ++ ((own_link, hash_url h) ∷ [])
  unfolding before_move
  hash_change-calls h s bound anchored =
      let (tree, calls, bound_same, ready_same, sync) =
        cleared-kept site (marks_of h s) (moved h s) in
      ap (λ p. p.calls) (hash_change-navigates h s bound anchored)
      ∙ navigate-calls site own_link (hash_url h) (before_move h s)
      ∙ ap (λ c. c ++ ((own_link, hash_url h) ∷ [])) calls

  hash_change-ready_call :
      (h : Text) (s : State)
      → s.bound ≡ true
      → has_anchor h ≡ true
      → (step site (hash_change h) s).ready_call ≡ s.ready_call
  unfolding before_move
  hash_change-ready_call h s bound anchored =
      let (tree, calls, bound_same, ready_same, sync) =
        cleared-kept site (marks_of h s) (moved h s) in
      ap (λ p. p.ready_call) (hash_change-navigates h s bound anchored)
      ∙ (navigate-page site own_link (hash_url h) (before_move h s)).1
      ∙ ready_same

  load-calls :
      (s : State) (root hash : Text)
      → s.ready_call ≡ some (root, hash)
      → (step site load s).calls ≡ s.calls ++ ((root, hash) ∷ [])
  unfolding step window_load navigate_ready
  load-calls s root hash e =
      ap (λ call. (navigate_ready site call s).calls) e ∙ navigate-calls site root hash s

  -- When the address gets a hash of more than `#` between the two events of a start, `navTo` is called
  -- twice: first by the handler with the page's own address and the new hash, then by `load`, with the page and hash of the moment
  -- when the document was ready.
  pub load-stale_hash :
      (old h : Text) (supported : Bool) (navpath : Option Text)
      → has_anchor h ≡ true
      → (run site (ready ∷ hash_change h ∷ load ∷ []) (fresh site old supported navpath)).calls
        ≡ (own_link, hash_url h) ∷ (site.to_root, hash_url old) ∷ []
  unfolding run fresh init_nav_tree step
  load-stale_hash old h supported navpath anchored =
      let first = step site ready (fresh site old supported navpath) in
      let then_moved = step site (hash_change h) first in
      load-calls then_moved site.to_root (hash_url old)
        (hash_change-ready_call h first refl anchored)
      ∙ ap (λ c. c ++ ((site.to_root, hash_url old) ∷ [])) (hash_change-calls h first refl anchored)

-- After any events on a page of the generated documentation that has its handlers, without a kept link:
-- when the address gets a hash that with the page's own address is an address of the index, `navTo` is
-- called with it once; the tree is open down to the entry for it, and this entry, or those that the hash
-- alone finds, are selected. All scripts can be loaded, and `$.extend(true, [], x)` copies an array and
-- gives the empty one for an undefined value.
pub hash_change-opens :
    (extend : Option (List ℕ) → Option (List ℕ))
    → extend none ≡ some []
    → ((path : List ℕ) → extend (some path) ≡ some path)
    → (to_root relpath path first h : Text) (supported : Bool) (navpath : Option Text)
      (events : List Event)
    → (i : ℕ) (sub : SubIndex) (key : Text) (crumbs : List ℕ)
    → let site = generated to_root relpath path extend in
      let s = run site events (fresh site first supported navpath) in
      s.bound ≡ true
      → NoLink site (cached_link s.sync)
      → has_anchor h ≡ true
      → nav_tree_sub_indices i ≡ some sub
      → lookup key sub ≡ some crumbs
      → IsAddress (own_link site) (hash_url h) key
      → (before : List (List ℕ)) × IsOpenAt site
          (s.calls ++ ((own_link site, hash_url h) ∷ []))
          before
          (hash_url h)
          key
          (0 ∷ crumbs)
          (step site (hash_change h) s)
unfolding before_move
hash_change-opens extend empty copy to_root relpath path first h supported navpath events i sub key
      crumbs bound free anchored s e a =
    let site = generated to_root relpath path extend in
    let now = run site events (fresh site first supported navpath) in
    let (tree, calls, bound_same, ready_same, sync) =
      cleared-kept site (marks_of site h now) (moved site h now) in
    let (history, browses) = run-Browses site events first supported navpath in
    let open_at =
      navigate-opens extend empty copy to_root relpath path (own_link site) (hash_url h) key i sub
        crumbs s e a (before_move site h now) (history, tree ∙ browses)
        (subst (NoLink site) (ap cached_link (sym sync)) free) in
    let before = (before_move site h now).marked in
    (
      before,
      subst
          (IsOpenAt site (now.calls ++ ((own_link site, hash_url h) ∷ [])) before (hash_url h) key
            (0 ∷ crumbs))
          (sym (hash_change-navigates site h now bound anchored))
          (subst
            (λ c.
              IsOpenAt site (c ++ ((own_link site, hash_url h) ∷ [])) before (hash_url h) key
                (0 ∷ crumbs) (navigate site (own_link site) (hash_url h) (before_move site h now)))
            calls open_at),
    )
