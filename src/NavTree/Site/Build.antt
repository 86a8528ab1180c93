-- ===== src/NavTree/Site/Build.antt =====
-- How the rows of the generated scripts of docs/documentation/html/ are written down.
use Prim.Native.String.{String}
use com_client.Base.{Text, codes, List, [], ◌∷◌, ◌++◌}
use com_client.NavTree.Tree.{Source, leaf, script, rows, Rows, no_rows, row}

abbrev pub Entry : Type 0
Entry = Text × Text × Source

abbrev pub rows_of : List Entry → Rows
rows_of [] = no_rows
rows_of ((text, link, source) ∷ rest) = row text link source (rows_of rest)

-- [text, link, null]
abbrev pub plain : String → String → Entry
plain text link = (codes text, codes link, leaf)

-- [text, page + hash, null]
abbrev pub part : String → Text → String → Entry
part text page hash = (codes text, page ++ codes hash, leaf)

-- [text, link, "script"]
abbrev pub loads : String → String → String → Entry
loads text link name = (codes text, codes link, script (codes name))

-- [text, link, [...]]
abbrev pub holds : String → String → List Entry → Entry
holds text link entries = (codes text, codes link, rows (rows_of entries))

-- A script: its path from the root without the `.js`, the variable that it declares, and its value.
pub record Script : Type 0 where
  pub name : Text
  pub variable : Text
  pub children : Rows
