-- ===== src/NavTree/Index/Targets.antt =====
-- Where `navTo` of docs/documentation/html/navtree.js goes, and what the sync button has to do with it.
use com_client.Base.{
  ℕ, zero, suc, ◌≡◌, refl, ap, ◌∙◌, Text, true, false, List, [], ◌∷◌, ◌++◌, All, Option, none, some,
  drop, arith, Option-cases, inl, inr, ◌≢◌,
}
use mathlib.Core.List.{append-nil}
use com_client.NavTree.Paths.{is_word, strip_path2, hash_url, hash_value, keep_hash, path_name}
use com_client.NavTree.Paths.Laws.{strip_path2-drop}
use com_client.NavTree.Storage.{
  State, cached_link, store_link, delete_link, toggle_sync_button, init_sync, load_page, Event,
  load, step, run,
}
use com_client.NavTree.Index.{
  before_hash, after_hash, linked, target, SubIndex, lookup, crumbs, goto_node, nav_to, show_path,
  show_start, choose, strip_line,
}

abbrev pub NoHash : Text → Type 0
NoHash s = All (λ c. c ≢ b'#') s

drop-NoHash : (n : ℕ) (s : Text) → NoHash s → NoHash (drop n s)
drop-NoHash zero s h = h
drop-NoHash (suc n) [] h = h
drop-NoHash (suc n) (c ∷ s) (h, hs) = drop-NoHash n s hs

strip_path2-NoHash : (s : Text) → NoHash s → NoHash (strip_path2 s)
strip_path2-NoHash s h = let (n, e) = strip_path2-drop s in rw e (drop-NoHash n s h)

path_name-NoHash : (s : Text) → NoHash s → NoHash (path_name s)
unfolding path_name
path_name-NoHash [] h = h
path_name-NoHash (c ∷ s) (h, hs) = ground (arith, path_name-NoHash s hs)

before_hash-append : (s t : Text) → NoHash s → before_hash (s ++ b'#' ∷ t) ≡ s
unfolding before_hash
before_hash-append [] t h = refl
before_hash-append (c ∷ s) t (h, hs) = ground (arith, before_hash-append s t hs)

before_hash-NoHash : (s : Text) → NoHash s → before_hash s ≡ s
unfolding before_hash
before_hash-NoHash [] h = refl
before_hash-NoHash (c ∷ s) (h, hs) = ground (arith, before_hash-NoHash s hs)

after_hash-append : (s t : Text) → NoHash s → NoHash t → after_hash (s ++ b'#' ∷ t) ≡ some t
unfolding after_hash
after_hash-append [] t h k = ap some (before_hash-NoHash t k)
after_hash-append (c ∷ s) t (h, hs) k = ground (arith, after_hash-append s t hs k)

keep_hash-NoHash : (s : Text) → NoHash (keep_hash s)
unfolding keep_hash is_word
keep_hash-NoHash [] = ground arith
keep_hash-NoHash (c ∷ s) = ground (arith, keep_hash-NoHash s)

keep_hash-keep_hash : (s : Text) → keep_hash (keep_hash s) ≡ keep_hash s
unfolding keep_hash
keep_hash-keep_hash [] = refl
keep_hash-keep_hash (c ∷ s) = ground (arith, keep_hash-keep_hash s)

linked-address :
    (page hash : Text) → NoHash page → linked (page ++ hash_url hash) ≡ (page, hash_url hash)
unfolding linked hash_url hash_value
linked-address page hash h = ground (
  arith,
  before_hash-append page (keep_hash (drop 1 hash)) h,
  after_hash-append page (keep_hash (drop 1 hash)) h (keep_hash-NoHash (drop 1 hash)),
  keep_hash-keep_hash (drop 1 hash),
)

target-some :
    (page hash root old : Text)
    → target (some (page ++ hash_url hash)) root old ≡ linked (page ++ hash_url hash)
unfolding target hash_url
target-some [] hash root old = refl
target-some (c ∷ page) hash root old = refl

-- Loads of other pages.
abbrev pub loads : ℕ → List Event
loads zero = []
loads (suc n) = load ∷ loads n

load-keeps :
    (s : State)
    → s.supported ≡ true
    → ((step load s).supported ≡ true) × ((step load s).navpath ≡ s.navpath)
unfolding step init_sync load_page cached_link
load-keeps s k = ground (arith, k)

cached_link-loads :
    (n : ℕ) (s : State) → s.supported ≡ true → cached_link (run (loads n) s) ≡ s.navpath
unfolding run
cached_link-loads zero s k = unfold cached_link in ground (arith, k)
cached_link-loads (suc n) s k =
    let (supported, kept) = load-keeps s k in cached_link-loads n (step load s) supported ∙ kept

toggle-navpath :
    (path hash : Text) (s : State)
    → s.supported ≡ true
    → s.sync ≡ true
    → ((toggle_sync_button path hash s).supported ≡ true)
      × ((toggle_sync_button path hash s).navpath
          ≡ some (strip_path2 (path_name path) ++ hash_url hash))
unfolding toggle_sync_button store_link
toggle-navpath path hash s k on = ground (arith, k, on)

-- Where the browser keeps links, after a click that turns the button off, on a page whose path
-- holds no `#`, and any number of loads of pages that follow it: `navTo` goes to the address of the page
-- of the click, whatever page and hash it is called with.
pub toggle_sync_button-pins :
    (path hash root old : Text) (s : State) (n : ℕ)
    → NoHash path
    → s.supported ≡ true
    → s.sync ≡ true
    → target (cached_link (run (loads n) (toggle_sync_button path hash s))) root old
      ≡ (strip_path2 (path_name path), hash_url hash)
toggle_sync_button-pins path hash root old s n h k on =
    let page = strip_path2 (path_name path) in
    let no_hash = strip_path2-NoHash (path_name path) (path_name-NoHash path h) in
    let (supported, stored) = toggle-navpath path hash s k on in
    ap (λ l. target l root old)
      (cached_link-loads n (toggle_sync_button path hash s) supported ∙ stored)
    ∙ target-some page hash root old
    ∙ linked-address page hash no_hash

-- Where the browser keeps links, right after a click that turns the button on: `navTo` goes to
-- the page and hash it is called with.
pub toggle_sync_button-unpins :
    (path hash root old : Text) (s : State)
    → s.supported ≡ true
    → s.sync ≡ false
    → target (cached_link (toggle_sync_button path hash s)) root old ≡ (root, old)
unfolding toggle_sync_button delete_link cached_link target
toggle_sync_button-unpins path hash root old s k off = ground arith

-- What `gotoNode` shows under an index script's object: the breadcrumbs of the address, else those of
-- the page, else none, each time behind the root's 0.
unfoldable pub found : SubIndex → Text → Text → List ℕ
unfolding lookup
found sub root hash = elim (lookup (root ++ hash) sub) [
  | some path ↦ path
  | none ↦ elim (lookup root sub) [ some path ↦ path | none ↦ [] ]
]

pub found-whole :
    (sub : SubIndex) (key : Text) (path : List ℕ)
    → lookup key sub ≡ some path
    → found sub key [] ≡ path
unfolding found
found-whole sub key path e =
    let whole : lookup (key ++ []) sub ≡ some path = ap (λ k. lookup k sub) (append-nil key) ∙ e in
    ground (arith, whole)

pub goto_node-shows :
    (extend : Option (List ℕ) → Option (List ℕ))
    → extend none ≡ some []
    → ((path : List ℕ) → extend (some path) ≡ some path)
    → (start : Text) (sub : SubIndex) (root hash : Text)
    → goto_node extend start sub root hash ≡ show_path (0 ∷ found sub root hash)
unfolding goto_node crumbs found
goto_node-shows extend empty copy start sub root hash =
    elim (Option-cases (lookup (root ++ hash) sub)) [
      | inr (path, e) ↦ ground (arith, e, copy path)
      | inl e ↦ elim (Option-cases (lookup root sub)) [
        | inr (path, k) ↦ ground (arith, e, k, copy path)
        | inl k ↦ ground (arith, e, k, empty)
      ]
    ]

-- If `$.extend(true, [], x)` copies an array and gives the empty one for an undefined value,
-- `navTo` never falls back to the start page inside `gotoNode`.
pub nav_to-never_start :
    (extend : Option (List ℕ) → Option (List ℕ))
    → extend none ≡ some []
    → ((path : List ℕ) → extend (some path) ≡ some path)
    → (scripts : ℕ → Option SubIndex) (index : List Text) (start : Text) (link : Option Text)
    → (root hash : Text) → nav_to extend scripts index start link root hash ≢ show_start
unfolding nav_to
nav_to-never_start extend empty copy scripts index start link root hash h =
    let at = target link root hash in
    let anchor = strip_line (at.1) in
    let chosen = choose index start (at.0) anchor in
    elim (Option-cases (scripts (chosen.0))) [
      | inl e ↦ ground (arith, e)
      | inr (sub, e) ↦
          ground (arith, e, goto_node-shows extend empty copy start sub (chosen.1) anchor)
    ]
