-- ===== src/NavTree/Site/Tests.antt =====
-- A run over the generated data.
use com_client.Base.{◌≡◌, refl, Text, codes, List, [], ◌∷◌, Option, none, some, inr, ℕ, text_eq}
use com_client.NavTree.Index.{lookup, nav_to, show_path}
use com_client.NavTree.Index.Scripts.{nav_tree_index}
use com_client.NavTree.Index.Script2.{nav_tree_index2}
use com_client.NavTree.Index.Every.{nav_tree_sub_indices}
use com_client.NavTree.Tree.{Event, show, toggle, selected, show_node, browse}
use com_client.NavTree.Tree.Laws.{IsOpen}
use com_client.NavTree.Tree.Data.{root_node}
use com_client.NavTree.Site.{load_site}
use com_client.NavTree.Site.Complete.{entry_link, address_shown}

abbrev copied : Option (List ℕ) → Option (List ℕ)
copied none = some []
copied (some path) = some path

abbrev way : Text
way = codes "../../"

abbrev opened : List Event
opened = show (0 ∷ 3 ∷ []) ∷ toggle (0 ∷ []) ∷ toggle (0 ∷ 5 ∷ []) ∷ []

abbrev globals : List ℕ
globals = 5 ∷ 1 ∷ 0 ∷ 0 ∷ []

globals_found : lookup (codes "globals.html") nav_tree_index2 ≡ some globals
unfolding lookup text_eq
globals_found = refl

address_shown_example :
    let shown =
      show_node
        (load_site way)
        way
        (codes "globals")
        (0 ∷ globals)
        (browse (load_site way) way (codes "globals") opened root_node) in
    (nav_to copied nav_tree_sub_indices nav_tree_index
        (codes "index.html")
        none
        (codes "globals.html")
        (codes "#")
      ≡ show_path (0 ∷ globals))
    × (shown.1 ≡ selected (0 ∷ globals))
    × ((text : Text) × IsOpen
          (load_site way)
          way
          (0 ∷ globals)
          text
          (entry_link (codes "globals.html"))
          shown.0)
address_shown_example =
    address_shown copied refl (λ path. refl) way (codes "globals") opened 2 nav_tree_index2
      (codes "globals.html") (codes "globals.html") (codes "#") (codes "index.html") globals refl
      globals_found (inr (refl, refl))
