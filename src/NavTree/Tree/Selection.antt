-- ===== src/NavTree/Tree/Selection.antt =====
-- `selectAndHighlight` of docs/documentation/html/navtree.js: which entries get the class `selected`.
use com_client.Base.{
  ℕ, suc, Text, codes, Bool, false, List, [], ◌∷◌, ◌++◌, map, if◌then◌else◌, Option, none, some,
}
use com_client.NavTree.Links.{class_name, ends_with, selector}
use com_client.NavTree.Tree.{
  leaf, script, rows, Node, node, Nodes, nil, cons, kids_of, Outcome, selected, unselected, pending,
  threw,
}

-- The class that `newNode` gives the element of the link, if any.
unfoldable pub class_of : Node → Option Text
unfolding class_name
class_of (node t [] leaf f kids) = none
class_of (node t [] (script v) f kids) = some (codes "nolink")
class_of (node t [] (rows items) f kids) = some (codes "nolink")
class_of (node t (c ∷ l) s f kids) = some (class_name (c ∷ l))

unfoldable pub is_linked : Text → Node → Bool
unfolding class_of ends_with
is_linked link n = elim (class_of n) [ none ↦ false | some c ↦ ends_with link c ]

-- `$('.item a[class$="..."]')`: the paths of the entries, the first one's position being `i`.
unfoldable mutual
  unfolding is_linked

  pub linked_in : Text → ℕ → Nodes → List (List ℕ)
  linked_in link i nil = []
  linked_in link i (cons n ns) =
      map (λ path. i ∷ path) (linked_below link n) ++ linked_in link (suc i) ns

  pub linked_below : Text → Node → List (List ℕ)
  linked_below link (node t l s f kids) =
      (if is_linked link (node t l s f kids) then [] ∷ [] else []) ++ linked_in link 0 kids

-- The entries that are selected, when `showNode` ended this way: those of the hash, or else its node.
unfoldable pub select_and_highlight : Text → Text → Node → Outcome → List (List ℕ)
unfolding linked_in selector
select_and_highlight path hash root pending = []
select_and_highlight path hash root threw = []
select_and_highlight path [] root unselected = []
select_and_highlight path [] root (selected at) = at ∷ []
select_and_highlight path (c ∷ hash) root unselected =
    linked_in (selector path (c ∷ hash)) 0 (kids_of root)
select_and_highlight path (c ∷ hash) root (selected at) =
    elim (linked_in (selector path (c ∷ hash)) 0 (kids_of root)) [
      | [] ↦ at ∷ []
      | first ∷ more ↦ first ∷ more
    ]
