-- ===== src/Menu.antt =====
-- The menu above the pages: `makeTree` of docs/documentation/html/menu.js.
pub mod Data
pub mod Balance
mod Tests
use com_client.Base.{Text, codes, List, [], ◌∷◌, ◌++◌, Bool, if◌then◌else◌}

-- An object of the menu's data: with or without `children`, each of which has a text and a url.
mutual
  pub data Menu : Type 0 where
    plain : Menu
    children : Items → Menu

  pub data Items : Type 0 where
    no_items : Items
    item : Text → Text → Menu → Items → Items

unfoldable mutual
  pub make_tree : Menu → Text → Text
  make_tree plain rel_path = []
  make_tree (children items) rel_path = codes "<ul>" ++ make_items items rel_path ++ codes "</ul>"

  -- The loop over the children.
  pub make_items : Items → Text → Text
  make_items no_items rel_path = []
  make_items (item text url below rest) rel_path =
      codes "<li><a href=\""
      ++ rel_path
      ++ url
      ++ codes "\">"
      ++ text
      ++ codes "</a>"
      ++ make_tree below rel_path
      ++ codes "</li>"
      ++ make_items rest rel_path
