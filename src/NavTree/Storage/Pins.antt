-- ===== src/NavTree/Storage/Pins.antt =====
-- The sync button of docs/documentation/html/navtree.js against what a reader makes of it: the tree is
-- pinned to an address, or it is not.
use com_client.Base.{
  ◌≡◌, refl, sym, ap, ◌∙◌, Text, true, false, List, [], ◌∷◌, ◌++◌, Option, none, some, arith,
  Bool-cases, inl, inr,
}
use com_client.NavTree.Paths.{strip_path2, hash_url, path_name}
use com_client.NavTree.Storage.{
  State, has_link, cached_link, store_link, delete_link, toggle_sync_button, init_sync, load_page,
  Event, click, entry, load, step, run,
}
use com_client.NavTree.Index.{linked, target}
use com_client.NavTree.Storage.Laws.{IsSynced, run-IsSynced, step-IsSynced, init_sync-IsSynced}

-- The address that the tree is pinned to, if any.
unfoldable pub pin_of : Option Text → Option Text
pin_of none = none
pin_of (some []) = none
pin_of (some (c ∷ link)) = some (c ∷ link)

-- A click on the button pins the tree to the page's address or frees it, a click on an entry moves the
-- pin, and the load of another page leaves it.
unfoldable pub replay : List Event → Option Text → Option Text
replay [] pin = pin
replay (click path hash ∷ es) none =
    replay es (some (strip_path2 (path_name path) ++ hash_url hash))
replay (click path hash ∷ es) (some link) = replay es none
replay (entry c link ∷ es) none = replay es none
replay (entry c link ∷ es) (some old) = replay es (some (c ∷ link))
replay (load ∷ es) pin = replay es pin

pin_of-append :
    (page hash : Text) → pin_of (some (page ++ hash_url hash)) ≡ some (page ++ hash_url hash)
unfolding pin_of hash_url
pin_of-append [] hash = refl
pin_of-append (c ∷ page) hash = refl

pin_of-none : (link : Option Text) → has_link link ≡ false → pin_of link ≡ none
unfolding has_link pin_of
pin_of-none none h = refl
pin_of-none (some []) h = refl
pin_of-none (some (c ∷ l)) h = ground (arith, h)

pin_of-some : (link : Option Text) → has_link link ≡ true → (old : Text) × (pin_of link ≡ some old)
unfolding has_link pin_of
pin_of-some none h = ground (arith, h)
pin_of-some (some []) h = ground (arith, h)
pin_of-some (some (c ∷ l)) h = (c ∷ l, refl)

init_sync-keeps : (navpath : Option Text) → (init_sync (load_page true navpath)).navpath ≡ navpath
unfolding init_sync load_page cached_link
init_sync-keeps navpath = ground arith

load-keeps : (s : State) → IsSynced s → (step load s).navpath ≡ s.navpath
unfolding step init_sync load_page cached_link
load-keeps s h = ground (arith, h.keeps)

step-replay :
    (e : Event) (es : List Event) (s : State)
    → IsSynced s
    → replay (e ∷ es) (pin_of s.navpath) ≡ replay es (pin_of (step e s).navpath)
unfolding step toggle_sync_button store_link delete_link replay pin_of
step-replay (click path hash) es s h = elim (Bool-cases (has_link s.navpath)) [
  | inl e ↦
      let (old, k) = pin_of-some s.navpath e in ground (arith, k, h.keeps, h.clicks, h.agrees, e)
  | inr e ↦
      let k = pin_of-none s.navpath e in
      ground (
        arith,
        k,
        h.keeps,
        h.clicks,
        h.agrees,
        e,
        pin_of-append (strip_path2 (path_name path)) hash,
      )
]
step-replay (entry c link) es s h = elim (Bool-cases (has_link s.navpath)) [
  | inl e ↦ let (old, k) = pin_of-some s.navpath e in ground (arith, k, h.keeps, h.agrees, e)
  | inr e ↦ let k = pin_of-none s.navpath e in ground (arith, k, h.keeps, h.agrees, e)
]
step-replay load es s h = ap (λ l. replay es (pin_of l)) (sym (load-keeps s h))

events-replay :
    (es : List Event) (s : State)
    → IsSynced s
    → replay es (pin_of s.navpath) ≡ pin_of (run es s).navpath
unfolding run replay
events-replay [] s h = refl
events-replay (e ∷ es) s h =
    step-replay e es s h ∙ events-replay es (step e s) (step-IsSynced e s h)

-- Where `navTo` goes that is called with this page and hash while the tree is pinned or free.
abbrev pub goes : Option Text → Text → Text → Text × Text
unfolding linked
goes none root hash = (root, hash)
goes (some link) root hash = linked link

target-pin_of :
    (link : Option Text) (root hash : Text) → target link root hash ≡ goes (pin_of link) root hash
unfolding target pin_of goes
target-pin_of none root hash = refl
target-pin_of (some []) root hash = refl
target-pin_of (some (c ∷ l)) root hash = refl

-- In a browser that keeps links, whatever it kept: after the load of a page and any clicks on the button and
-- on entries and any loads, `navTo` goes where a reader of these events expects who knows only whether and
-- to which address the tree is pinned. A click on the button pins a free tree to the address of the page and
-- frees a pinned one, a click on an entry moves the pin of a pinned tree to the entry and leaves a free tree
-- free, and a load changes nothing. A free tree goes to the page and hash that `navTo` is called with, a
-- pinned one to its pin.
pub run-refines :
    (navpath : Option Text) (es : List Event) (root hash : Text)
    → target (cached_link (run es (init_sync (load_page true navpath)))) root hash
      ≡ goes (replay es (pin_of navpath)) root hash
unfolding cached_link
run-refines navpath es root hash =
    let start = init_sync (load_page true navpath) in
    let kept : start.navpath ≡ navpath = init_sync-keeps navpath in
    let s = run es start in
    let there : cached_link s ≡ s.navpath = ground (arith, (run-IsSynced navpath es).keeps) in
    ap (λ l. target l root hash) there
    ∙ target-pin_of s.navpath root hash
    ∙ ap (λ pin. goes pin root hash) (sym (events-replay es start (init_sync-IsSynced navpath)))
    ∙ ap (λ l. goes (replay es (pin_of l)) root hash) kept
