-- ===== src/NavTree/Index.antt =====
-- How docs/documentation/html/navtree.js finds the place of an address in the tree: `navTo` picks
-- the script of the index, `gotoNode` looks the address up in it.
pub mod Laws
pub mod Targets
pub mod Scripts
pub mod Script0
pub mod Script1
pub mod Script2
pub mod Every
pub mod Complete
use Prim.Native.String.{String}
use com_client.Base.{
  ℕ, zero, suc, ◌+◌, Text, codes, Bool, true, false, not, ◌&&◌, ◌||◌, List, [], ◌∷◌, ◌++◌,
  if◌then◌else◌, ◌==◌, ltb, leb, Option, none, some, drop, text_eq,
}
use com_client.NavTree.Paths.{keep_hash}

-- `link.split('#')[0]`
unfoldable pub before_hash : Text → Text
before_hash [] = []
before_hash (c ∷ s) = if c == b'#' then [] else c ∷ before_hash s

-- `link.split('#')[1]`, when there is one.
unfoldable pub after_hash : Text → Option Text
unfolding before_hash
after_hash [] = none
after_hash (c ∷ s) = if c == b'#' then some (before_hash s) else after_hash s

-- The address that a kept link stands for.
unfoldable pub linked : Text → Text × Text
unfolding before_hash after_hash keep_hash
linked link = elim (after_hash link) [
  | none ↦ (before_hash link, [])
  | some part ↦ (before_hash link, b'#' ∷ keep_hash part)
]

-- The address that `navTo` goes to: the kept link, if it is truthy, comes before the arguments.
unfoldable pub target : Option Text → Text → Text → Text × Text
unfolding linked
target none root hash = (root, hash)
target (some []) root hash = (root, hash)
target (some (c ∷ s)) root hash = linked (c ∷ s)

unfoldable pub all_digits : Text → Bool
all_digits [] = true
all_digits (c ∷ s) = leb b'0' c && leb c b'9' && all_digits s

-- `hash.match(/^#l\d+$/)`
unfoldable pub is_line : Text → Bool
unfolding all_digits
is_line (a ∷ b ∷ c ∷ s) = a == b'#' && b == b'l' && all_digits (c ∷ s)
is_line s = false

unfoldable pub strip_line : Text → Text
unfolding is_line
strip_line hash = if is_line hash then [] else hash

-- `s <= t` on strings, which compares code units.
unfoldable pub text_leb : Text → Text → Bool
text_leb [] t = true
text_leb (a ∷ s) [] = false
text_leb (a ∷ s) (b ∷ t) = ltb a b || a == b && text_leb s t

-- `var i=-1; while (NAVTREEINDEX[i+1]<=url) i++;`, as i+1. Past the end the test is false.
unfoldable pub scan : List Text → Text → ℕ
unfolding text_leb
scan [] url = 0
scan (first ∷ rest) url = let n = scan rest url in if text_leb first url then suc n else 0

-- The number of the index script, and the page, with the fallback to the start page.
unfoldable pub choose : List Text → Text → Text → Text → ℕ × Text
unfolding scan
choose index start root hash = elim (scan index (root ++ hash)) [
  | zero ↦ (0, start)
  | suc i ↦ (i, root)
]

-- One object of `navtreeindex<i>.js`: the breadcrumbs of an address.
abbrev pub SubIndex : Type 0
SubIndex = List (Text × List ℕ)

abbrev pub at : Text → String → List ℕ → Text × List ℕ
at page hash path = (page ++ codes hash, path)

-- Of two entries for one address the later one counts, as in an object literal.
unfoldable pub lookup : Text → SubIndex → Option (List ℕ)
lookup key [] = none
lookup key ((k, path) ∷ rest) =
    let found = lookup key rest in
    elim found [ none ↦ if text_eq k key then some path else none | some later ↦ some later ]

-- What `gotoNode` does next: nothing, `showNode` along the breadcrumbs, or, when it has none, `navTo`
-- the start page, after which all selections are removed.
pub data Goto : Type 0 where
  stay : Goto
  show_path : List ℕ → Goto
  show_start : Goto

-- The breadcrumbs that are found, deeply copied by `$.extend(true, [], found)`, which is the
-- library's (`extend`; `none` is a value that counts as false).
unfoldable pub crumbs :
    (Option (List ℕ) → Option (List ℕ)) → SubIndex → Text → Text → Option (List ℕ)
unfolding lookup
crumbs extend sub root hash = elim (lookup (root ++ hash) sub) [
  | none ↦ extend (lookup root sub)
  | some path ↦ extend (some path)
]

unfoldable pub goto_node :
    (Option (List ℕ) → Option (List ℕ)) → Text → SubIndex → Text → Text → Goto
unfolding crumbs
goto_node extend start sub root hash = elim (crumbs extend sub root hash) [
  | none ↦ if not (text_eq root start) then show_start else stay
  | some path ↦ show_path (0 ∷ path)
]

-- The look-up once the script is there: `load i` is the object of the script `i`, if it has one.
unfoldable pub goto_in :
    (Option (List ℕ) → Option (List ℕ)) → (ℕ → Option SubIndex) → Text → Text → ℕ × Text → Goto
unfolding goto_node
goto_in extend load start anchor (i, page) = elim (load i) [
  | none ↦ stay
  | some sub ↦ goto_node extend start sub page anchor
]

unfoldable pub nav_to :
    (Option (List ℕ) → Option (List ℕ))
    → (ℕ → Option SubIndex)
    → List Text
    → Text
    → Option Text
    → Text
    → Text
    → Goto
unfolding target strip_line choose goto_in
nav_to extend load index start link root hash =
    let (page, part) = target link root hash in
    let anchor = strip_line part in
    goto_in extend load start anchor (choose index start page anchor)
