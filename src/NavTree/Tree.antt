-- ===== src/NavTree/Tree.antt =====
-- The tree of docs/documentation/html/navtree.js: its entries, the elements made for them, and the
-- way along the breadcrumbs to the selected one.
pub mod Data
pub mod Selection
pub mod Laws
pub mod Kept
pub mod Browse
use com_client.Base.{
  ℕ, zero, suc, ◌+◌, Text, codes, Bool, true, false, not, ◌&&◌, ◌||◌, List, [], ◌∷◌, ◌++◌,
  if◌then◌else◌, Option, none, some, text_eq,
}
use com_client.NavTree.Paths.{data_name, strip_path}

-- `childrenData`: null, the name of a script, or the rows. A row is a text, a link (null is the empty
-- one) and its own `childrenData`.
mutual
  pub data Source : Type 0 where
    leaf : Source
    script : Text → Source
    rows : Rows → Source

  pub data Rows : Type 0 where
    no_rows : Rows
    row : Text → Text → Source → Rows → Rows

-- `expanded`, `childrenVisited`, and whether the list of the children is displayed.
pub record Flags : Type 0 where
  pub expanded : Bool
  pub visited : Bool
  pub displayed : Bool

-- A node: its text, link, `childrenData` of the moment, flags and children.
mutual
  pub data Node : Type 0 where
    node : Text → Text → Source → Flags → Nodes → Node

  pub data Nodes : Type 0 where
    nil : Nodes
    cons : Node → Nodes → Nodes

abbrev pub source_of : Node → Source
source_of (node t l s f kids) = s

abbrev pub flags_of : Node → Flags
flags_of (node t l s f kids) = f

abbrev pub text_of : Node → Text
text_of (node t l s f kids) = t

abbrev pub link_of : Node → Text
link_of (node t l s f kids) = l

abbrev pub kids_of : Node → Nodes
kids_of (node t l s f kids) = kids

abbrev pub child_at : ℕ → Nodes → Option Node
child_at i nil = none
child_at zero (cons n ns) = some n
child_at (suc i) (cons n ns) = child_at i ns

abbrev pub set_child : ℕ → Node → Nodes → Nodes
set_child i m nil = nil
set_child zero m (cons n ns) = cons m ns
set_child (suc i) m (cons n ns) = cons n (set_child i m ns)

unfoldable pub new_node : Text → Text → Source → Node
new_node text link source =
    node text link source (record { expanded = false; visited = false; displayed = false }) nil

-- The children that `getNode` makes.
unfoldable pub get_node : Rows → Nodes
unfolding new_node
get_node no_rows = nil
get_node (row text link source rest) = cons (new_node text link source) (get_node rest)

-- The children, made at the first visit.
unfoldable pub visit : Rows → Flags → Nodes → Nodes
unfolding get_node
visit items flags kids = if flags.visited then kids else get_node items

-- A node with its rows, opened: the list is displayed and the arrow points down.
unfoldable pub open_rows : Text → Text → Rows → Flags → Nodes → Node
unfolding visit
open_rows text link items flags kids =
    node text link (rows items) (record { expanded = true; visited = true; displayed = true })
      (visit items flags kids)

-- The scripts: the rows of the variable that the script at this path has, if it can be loaded.
abbrev pub Loader : Type 0
Loader = Text → Text → Option Rows

-- What comes of `childrenData`: there is none, its script never comes, or the rows.
pub data Resolved : Type 0 where
  no_children : Resolved
  waiting : Resolved
  ready : Rows → Resolved

-- `getScript(relpath+varName, ...)`, then `getData(varName)`.
unfoldable pub resolve : Loader → Text → Source → Resolved
unfolding data_name
resolve load relpath leaf = no_children
resolve load relpath (script var_name) = elim (load (relpath ++ var_name) (data_name var_name)) [
  | none ↦ waiting
  | some items ↦ ready items
]
resolve load relpath (rows items) = ready items

unfoldable pub expand_node : Loader → Text → Node → Node
unfolding resolve open_rows
expand_node load relpath (node text link source flags kids) =
    if flags.expanded
    then node text link source flags kids
    else elim (resolve load relpath source) [
      | no_children ↦ node text link source flags kids
      | waiting ↦ node text link source flags kids
      | ready items ↦ open_rows text link items flags kids
    ]

-- A click on the arrow.
unfoldable pub toggle_expand : Loader → Text → Node → Node
unfolding expand_node
toggle_expand load relpath (node text link source flags kids) =
    if flags.expanded
    then node text link source (record flags { expanded = false; displayed = false }) kids
    else expand_node load relpath (node text link source flags kids)

-- The click on the arrow of the node at the end of the path.
unfoldable pub toggle_at : Loader → Text → List ℕ → Node → Node
unfolding toggle_expand
toggle_at load relpath [] n = toggle_expand load relpath n
toggle_at load relpath (i ∷ path) (node text link source flags kids) = elim (child_at i kids) [
  | none ↦ node text link source flags kids
  | some n ↦ node text link source flags (set_child i (toggle_at load relpath path n) kids)
]

-- `rootBase=="index" || rootBase=="pages" || rootBase=="search"`
unfoldable pub is_top_page : Text → Bool
is_top_page root_base =
    text_eq root_base (codes "index")
    || text_eq root_base (codes "pages")
    || text_eq root_base (codes "search")

-- The last node as it stays, once its `childrenData` is there.
unfoldable pub settle : Loader → Text → Text → Source → Node → Node
unfolding is_top_page expand_node
settle load relpath root_base source (node text link old flags kids) =
    if is_top_page root_base
    then expand_node load relpath (node text link source flags kids)
    else node text link source flags kids

-- How `showNode` ends: `selectAndHighlight` with a node, at this path from where it began, or with
-- none; a script that never comes; a TypeError.
pub data Outcome : Type 0 where
  selected : List ℕ → Outcome
  unselected : Outcome
  pending : Outcome
  threw : Outcome

abbrev pub under : ℕ → Outcome → Outcome
under i (selected path) = selected (i ∷ path)
under i unselected = unselected
under i pending = pending
under i threw = threw

-- The end of the way, at child `i` of the children (`all`): the child as it stays.
unfoldable pub show_last : Loader → Text → Text → ℕ → Nodes → Nodes × Outcome
unfolding resolve settle
show_last load relpath root_base i all = elim (child_at i all) [
  | none ↦ (all, threw)
  | some n ↦ elim (resolve load relpath (source_of n)) [
    | waiting ↦ (all, pending)
    | no_children ↦ (set_child i (settle load relpath root_base leaf n) all, selected (i ∷ []))
    | ready items ↦
        (set_child i (settle load relpath root_base (rows items) n) all, selected (i ∷ []))
  ]
]

-- On the way, at child `i`: without such a child the next call selects by the hash alone.
unfoldable pub descend : ℕ → (Node → Node × Outcome) → Nodes → Nodes × Outcome
descend i show all = elim (child_at i all) [
  | none ↦ (all, unselected)
  | some n ↦ let shown = show n in (set_child i shown.0 all, under i shown.1)
]

-- A node on the way: its rows are loaded, visited and displayed, then it goes on at the children.
unfoldable pub show_with : Loader → Text → (Nodes → Nodes × Outcome) → Node → Node × Outcome
unfolding resolve visit
show_with load relpath go_on (node text link source flags kids) =
    elim (resolve load relpath source) [
      | no_children ↦ (node text link source flags kids, unselected)
      | waiting ↦ (node text link source flags kids, pending)
      | ready items ↦
          let shown = go_on (visit items flags kids) in
          (
            node text link (rows items)
                (record { expanded = true; visited = true; displayed = true }) shown.0,
            shown.1,
          )
    ]

-- `showNode(o, node, index, hash)` with the breadcrumbs from `index` on. Without one, `n` is undefined.
unfoldable pub show_node : Loader → Text → Text → List ℕ → Node → Node × Outcome
unfolding show_with show_last descend
show_node load relpath root_base [] n = show_with load relpath (λ all. (all, threw)) n
show_node load relpath root_base (i ∷ []) n =
    show_with load relpath (show_last load relpath root_base i) n
show_node load relpath root_base (i ∷ j ∷ path) n =
    show_with load relpath (descend i (show_node load relpath root_base (j ∷ path))) n

-- What happens to the tree: `navTo` shows the node at the end of the breadcrumbs, or an arrow is clicked.
pub data Event : Type 0 where
  show : List ℕ → Event
  toggle : List ℕ → Event

unfoldable pub browse : Loader → Text → Text → List Event → Node → Node
unfolding show_node toggle_at
browse load relpath root_base [] n = n
browse load relpath root_base (show path ∷ events) n =
    browse load relpath root_base events (show_node load relpath root_base path n).0
browse load relpath root_base (toggle path ∷ events) n =
    browse load relpath root_base events (toggle_at load relpath path n)
