-- ===== src/NavTree/Index/Complete.antt =====
-- The generated index of docs/documentation/html/ against the code that reads it.
use com_client.Base.{
  ℕ, suc, ◌≡◌, refl, ap, ◌∙◌, Text, codes, Bool, true, false, not, ◌&&◌, &&-parts, List, [], ◌∷◌,
  ◌++◌, ◌==◌, ==_iff, Option, none, some, ◌⊎◌, inl, inr, Option-cases, arith,
}
use com_client.NavTree.Index.{
  SubIndex, lookup, scan, choose, target, goto_in, strip_line, is_line, goto_node, nav_to,
  show_path,
}
use com_client.NavTree.Index.Targets.{found, goto_node-shows}
use com_client.NavTree.Index.Scripts.{nav_tree_index}
use com_client.NavTree.Index.Every.{nav_tree_sub_indices, every, AllScripts, script-every}

unfoldable last_is_hash : Text → Bool
last_is_hash [] = false
last_is_hash (c ∷ []) = c == b'#'
last_is_hash (c ∷ d ∷ s) = last_is_hash (d ∷ s)

last_is_hash-append : (s : Text) → last_is_hash (s ++ codes "#") ≡ true
unfolding last_is_hash
last_is_hash-append [] = refl
last_is_hash-append (c ∷ []) = refl
last_is_hash-append (c ∷ d ∷ s) = last_is_hash-append (d ∷ s)

-- The scan for the address, and for the address with an empty hash, stops behind the script, and the
-- address is none with an empty hash itself.
stops_behind : ℕ → Text → Bool
unfolding scan
stops_behind i url = scan nav_tree_index url == suc i

in_range : ℕ → SubIndex → Text → List ℕ → Bool
unfolding stops_behind last_is_hash
in_range i sub key path =
    stops_behind i key && (stops_behind i (key ++ codes "#") && not (last_is_hash key))

all-in_range : AllScripts in_range
unfolding every in_range
all-in_range = (refl, refl, refl)

stops_behind-eq : (i : ℕ) (url : Text) → stops_behind i url ≡ true → scan nav_tree_index url ≡ suc i
unfolding stops_behind
stops_behind-eq i url h = (==_iff (scan nav_tree_index url) (suc i)).0 h

cc-hash : (b : Bool) → b ≡ true → not b ≡ true → ⊥
cc-hash b h k = ground arith

lookup-hash :
    (i : ℕ) (sub : SubIndex) (key : Text)
    → nav_tree_sub_indices i ≡ some sub
    → lookup (key ++ codes "#") sub ≡ none
unfolding in_range
lookup-hash i sub key s = elim (Option-cases (lookup (key ++ codes "#") sub)) [
  | inl e ↦ e
  | inr (path, e) ↦
      let (whole, rest) =
        &&-parts (script-every in_range all-in_range i sub (key ++ codes "#") path s e) in
      let (with_hash, none_left) = &&-parts rest in
      absurd (cc-hash (last_is_hash (key ++ codes "#")) (last_is_hash-append key) none_left)
]

-- The page and the hash of an address: parts that make it up, or, as for a page that is loaded without
-- a hash, the address itself and `#`. A line of a listing is no part.
abbrev pub IsAddress : Text → Text → Text → Type 0
IsAddress root hash key =
    ((root ++ hash ≡ key) × (is_line hash ≡ false)) ⊎ ((root ≡ key) × (hash ≡ codes "#"))

pub IsAddress-no_line : (root hash key : Text) → IsAddress root hash key → is_line hash ≡ false
unfolding is_line
IsAddress-no_line root hash key (inl (e, h)) = h
IsAddress-no_line root hash key (inr (e, h)) = rw h refl

found-key :
    (sub : SubIndex) (root hash : Text) (path : List ℕ)
    → lookup (root ++ hash) sub ≡ some path
    → found sub root hash ≡ path
unfolding found
found-key sub root hash path e = rw (e, found) refl

found-page :
    (sub : SubIndex) (root hash : Text) (path : List ℕ)
    → lookup (root ++ hash) sub ≡ none
    → lookup root sub ≡ some path
    → found sub root hash ≡ path
unfolding found
found-page sub root hash path e k = rw (e, k, found) refl

found-address :
    (i : ℕ) (sub : SubIndex) (root hash key : Text) (path : List ℕ)
    → nav_tree_sub_indices i ≡ some sub
    → IsAddress root hash key
    → lookup key sub ≡ some path
    → (scan nav_tree_index (root ++ hash) ≡ suc i) × (found sub root hash ≡ path)
unfolding found in_range
found-address i sub root hash key path s a at =
    let (whole, rest) = &&-parts (script-every in_range all-in_range i sub key path s at) in
    let (with_hash, none_left) = &&-parts rest in
    elim a [
      | inl (e, no_line) ↦
          let here : lookup (root ++ hash) sub ≡ some path = ap (λ k. lookup k sub) e ∙ at in
          (
            ap (λ k. scan nav_tree_index k) e ∙ stops_behind-eq i key whole,
            found-key sub root hash path here,
          )
      | inr (e, k) ↦
          let url : root ++ hash ≡ key ++ codes "#" = rw (e, k) refl in
          let gone : lookup (root ++ hash) sub ≡ none =
            ap (λ u. lookup u sub) url ∙ lookup-hash i sub key s in
          let page : lookup root sub ≡ some path = ap (λ u. lookup u sub) e ∙ at in
          (
            ap (λ u. scan nav_tree_index u) url ∙ stops_behind-eq i (key ++ codes "#") with_hash,
            found-page sub root hash path gone page,
          )
    ]

nav_to-chosen :
    (extend : Option (List ℕ) → Option (List ℕ)) (i : ℕ) (sub : SubIndex) (root hash start : Text)
    → is_line hash ≡ false
    → choose nav_tree_index start root hash ≡ (i, root)
    → nav_tree_sub_indices i ≡ some sub
    → nav_to extend nav_tree_sub_indices nav_tree_index start none root hash
      ≡ goto_node extend start sub root hash
unfolding nav_to target goto_in
nav_to-chosen extend i sub root hash start h c s =
    let same : strip_line hash ≡ hash = rw (h, strip_line) refl in
    ap
      (λ anchor.
        goto_in extend nav_tree_sub_indices start anchor (choose nav_tree_index start root anchor))
      same
    ∙ ap (goto_in extend nav_tree_sub_indices start hash) c
    ∙ rw (s, goto_in) refl

-- Every address of the generated index is reached: with no link kept, `navTo` at the page and hash of
-- an address for which one of the three scripts has breadcrumbs chooses this script and shows these
-- breadcrumbs, also when the page is loaded without a hash, which comes as `#`. Of
-- `$.extend(true, [], x)` it takes that it copies an array and gives the empty one for an undefined value.
pub nav_to_complete :
    (extend : Option (List ℕ) → Option (List ℕ))
    → extend none ≡ some []
    → ((path : List ℕ) → extend (some path) ≡ some path)
    → (i : ℕ) (sub : SubIndex) (key root hash : Text) (path : List ℕ) (start : Text)
    → nav_tree_sub_indices i ≡ some sub
    → lookup key sub ≡ some path
    → IsAddress root hash key
    → nav_to extend nav_tree_sub_indices nav_tree_index start none root hash ≡ show_path (0 ∷ path)
unfolding choose
nav_to_complete extend empty copy i sub key root hash path start s e a =
    let (at, eq) = found-address i sub root hash key path s a e in
    let chosen : choose nav_tree_index start root hash ≡ (i, root) = ground (arith, at) in
    nav_to-chosen extend i sub root hash start (IsAddress-no_line root hash key a) chosen s
    ∙ goto_node-shows extend empty copy start sub root hash
    ∙ ap (λ p. show_path (0 ∷ p)) eq
