-- ===== src/NavTree/Storage/Laws.antt =====
-- The sync button of docs/documentation/html/navtree.js over clicks and page loads.
use com_client.Base.{
  ℕ, ◌≡◌, refl, Text, true, not, List, [], ◌∷◌, ◌++◌, Option, some, arith, if◌then◌else◌,
}
use com_client.NavTree.Paths.{strip_path2, hash_url, path_name}
use com_client.NavTree.Storage.{
  sync_off, sync_on, State, has_link, cached_link, store_link, delete_link, toggle_sync_button,
  init_sync, load_page, Event, click, entry, load, step, run,
}

-- Where the browser keeps links: the button is off just when a link is kept, and its image says so.
pub record IsSynced (s : State) : Type 0 where
  pub keeps : s.supported ≡ true
  pub clicks : s.clickable ≡ true
  pub agrees : s.sync ≡ not (has_link s.navpath)
  pub pictured : s.image ≡ some (if s.sync then sync_on else sync_off)

pub has_link-append : (s : Text) (hash : Text) → has_link (some (s ++ hash_url hash)) ≡ true
unfolding has_link hash_url
has_link-append [] hash = refl
has_link-append (c ∷ s) hash = refl

pub init_sync-IsSynced : (navpath : Option Text) → IsSynced (init_sync (load_page true navpath))
unfolding init_sync load_page cached_link
init_sync-IsSynced navpath = ground arith

toggle-IsSynced :
    (path hash : Text) (s : State) → IsSynced s → IsSynced (toggle_sync_button path hash s)
unfolding toggle_sync_button store_link delete_link has_link
toggle-IsSynced path hash s h = ground (arith, has_link-append (strip_path2 (path_name path)) hash)

entry-IsSynced : (c : ℕ) (link : Text) (s : State) → IsSynced s → IsSynced (store_link (c ∷ link) s)
unfolding store_link has_link
entry-IsSynced c link s h = ground arith

pub step-IsSynced : (e : Event) (s : State) → IsSynced s → IsSynced (step e s)
unfolding step
step-IsSynced (click path hash) s h = ground (arith, toggle-IsSynced path hash s h)
step-IsSynced (entry c link) s h = entry-IsSynced c link s h
step-IsSynced load s h = rw h.keeps (init_sync-IsSynced s.navpath)

events-IsSynced : (es : List Event) (s : State) → IsSynced s → IsSynced (run es s)
unfolding run
events-IsSynced [] s h = h
events-IsSynced (e ∷ es) s h = events-IsSynced es (step e s) (step-IsSynced e s h)

-- In a browser that keeps links, whatever it kept, after the load of a page and any clicks on
-- the button and on entries and any loads: a click toggles the button, the button has the class
-- `sync` just when no link is kept, and it shows the image that belongs to the class.
pub run-IsSynced :
    (navpath : Option Text) (es : List Event)
    → IsSynced (run es (init_sync (load_page true navpath)))
run-IsSynced navpath es =
    events-IsSynced es (init_sync (load_page true navpath)) (init_sync-IsSynced navpath)
