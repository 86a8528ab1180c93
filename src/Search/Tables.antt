-- ===== src/Search/Tables.antt =====
-- docs/documentation/html/search/searchdata.js: the sections of the index, the characters that each
-- has a page for, and the sections' names and labels.
use com_client.Base.{Text, codes, List, [], ◌∷◌}

abbrev pub index_sections_with_content : List Text
index_sections_with_content =
    codes "_abcdefghilmnoprstuvwx~"
    ∷ codes "chlstx"
    ∷ codes "cel"
    ∷ codes "chlmrs"
    ∷ codes "acdefghilmnoprstuvwx~"
    ∷ codes "dfims"
    ∷ codes "l"
    ∷ codes "cflmp"
    ∷ codes "bcdfhilprstu"
    ∷ codes "_acdhlps"
    ∷ codes "bcs"
    ∷ []

abbrev pub index_section_names : List Text
index_section_names =
    codes "all"
    ∷ codes "classes"
    ∷ codes "namespaces"
    ∷ codes "files"
    ∷ codes "functions"
    ∷ codes "variables"
    ∷ codes "typedefs"
    ∷ codes "enums"
    ∷ codes "enumvalues"
    ∷ codes "defines"
    ∷ codes "pages"
    ∷ []

abbrev pub index_section_labels : List Text
index_section_labels =
    codes "All"
    ∷ codes "Classes"
    ∷ codes "Namespaces"
    ∷ codes "Files"
    ∷ codes "Functions"
    ∷ codes "Variables"
    ∷ codes "Typedefs"
    ∷ codes "Enumerations"
    ∷ codes "Enumerator"
    ∷ codes "Macros"
    ∷ codes "Pages"
    ∷ []
