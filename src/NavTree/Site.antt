-- ===== src/NavTree/Site.antt =====
-- The generated children of the tree, one script of docs/documentation/html/ in one definition, and how
-- a page loads them.
pub mod Build
pub mod Directories
pub mod Classes
pub mod Headers
pub mod Sources
pub mod Names
pub mod Follow
pub mod Complete
mod Tests
use com_client.Base.{
  Text, List, [], ◌∷◌, ◌++◌, if◌then◌else◌, Option, none, some, length, drop, text_eq,
}
use com_client.NavTree.Tree.{Rows, Loader}
use com_client.NavTree.Site.Build.{Script}
use com_client.NavTree.Site.Directories.{directories}
use com_client.NavTree.Site.Classes.{classes}
use com_client.NavTree.Site.Headers.{headers}
use com_client.NavTree.Site.Sources.{sources}
use com_client.NavTree.Site.Names.{names}

unfoldable pub find_script : Text → List Script → Option Script
find_script name [] = none
find_script name (s ∷ rest) =
    let later = find_script name rest in if text_eq s.name name then some s else later

abbrev pub scripts : List Script
scripts = directories ++ classes ++ headers ++ sources ++ names

-- The rows of a variable, from the script of this name if it declares the variable.
unfoldable pub site_rows : Text → Text → Option Rows
unfolding find_script
site_rows name variable = elim (find_script name scripts) [
  | none ↦ none
  | some s ↦ if text_eq s.variable variable then some s.children else none
]

-- A page in a directory at this way from the root: the browser takes the script from the root again.
unfoldable pub load_site : Text → Loader
unfolding site_rows
load_site relpath path variable = site_rows (drop (length relpath) path) variable
