-- ===== src/Search/Results/Tree.antt =====
-- `FindChildElement` of docs/documentation/html/search/search.js: a walk over the elements below a row by
-- `firstChild`, `nextSibling` and `parentNode`.
pub mod Laws
pub mod Rounds
use com_client.Base.{
  ℕ, zero, suc, ◌+◌, Bool, true, false, ◌&&◌, List, [], ◌∷◌, if◌then◌else◌, Option, none, some,
}
use com_client.Search.Panel.{Display, unset, is_block}
use com_client.Search.Results.{Hit, Body, single, multiple, Row}

pub data Tag : Type 0 where
  div anchor span : Tag

pub data Class : Type 0 where
  result entry symbol scope children : Class

mutual
  pub data Node : Type 0 where
    element : Tag → Class → Display → Nodes → Node

  pub data Nodes : Type 0 where
    nil : Nodes
    cons : Node → Nodes → Nodes

abbrev pub is_children : Node → Bool
is_children (element div children d kids) = true
is_children (element _ _ d kids) = false

-- The elements to go down to: those of a `div`.
abbrev pub below : Node → Nodes
below (element div c d kids) = kids
below (element _ c d kids) = nil

abbrev pub display_of : Node → Display
display_of (element t c d kids) = d

-- The inner loop: up to the nearest ancestor below the start that has a next sibling.
unfoldable pub climb : List Nodes → Option (Node × Nodes × List Nodes)
climb [] = none
climb (nil ∷ up) = climb up
climb (cons n right ∷ up) = some (n, right, up)

-- One round: down to the first child, else to the next sibling, else up.
unfoldable pub next : Node → Nodes → List Nodes → Option (Node × Nodes × List Nodes)
unfolding climb
next n right up = elim (below n) [
  | cons k ks ↦ some (k, ks, right ∷ up)
  | nil ↦ elim right [ cons m ms ↦ some (m, ms, up) | nil ↦ climb up ]
]

-- The loop: an element, its next siblings, and the next siblings of its ancestors below the start.
unfoldable pub walk : ℕ → Node → Nodes → List Nodes → Option Node
walk zero n right up = none
walk (suc f) n right up =
    let on : Option Node = elim (next n right up) [
      | none ↦ none
      | some (m, ms, above) ↦ walk f m ms above
    ] in
    if is_children n then some n else on

-- The elements of a tree, and of a list of trees.
mutual
  pub size : Node → ℕ
  size (element t c d kids) = suc (size_all kids)

  pub size_all : Nodes → ℕ
  size_all nil = 0
  size_all (cons n rest) = size n + size_all rest

unfoldable pub find_child_element : Node → Option Node
unfolding walk next size size_all
find_child_element (element t c d nil) = none
find_child_element (element t c d (cons n right)) = walk (size n + size_all right) n right []

links : List Hit → Nodes
links [] = nil
links (h ∷ rest) = cons (element anchor scope unset nil) (links rest)

body_node : Body → Node
unfolding links
body_node (single h) = element span scope unset nil
body_node (multiple d hits) = element div children d (links hits)

-- The elements of a row, as `createResults` nests them.
unfoldable pub row_node : Row → Node
unfolding body_node
row_node r =
    let link = element anchor symbol unset nil in
    let inner = element div entry unset (cons link (cons (body_node r.body) nil)) in
    element div result r.display (cons inner nil)
