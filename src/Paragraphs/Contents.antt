-- ===== src/Paragraphs/Contents.antt =====
-- What `.contents` in the selector of docs/doxygen-awesome-paragraph-link.js asks of an element.
use com_client.Base.{ℕ, ◌<◌, ◌≡◌, true, List, Option, some, get_elem?}
use com_client.Paragraphs.{Element}

-- An element with the class, or one that an element with it encloses.
pub data InContents (elements : List Element) : Option ℕ → Type 0 where
  itself :
      (i : ℕ) (e : Element)
      → get_elem? elements i ≡ some e
      → e.is_contents ≡ true
      → InContents elements (some i)
  above :
      (i : ℕ) (e : Element)
      → get_elem? elements i ≡ some e
      → InContents elements e.parent
      → InContents elements (some i)

-- In document order an element comes behind its parent.
abbrev pub IsInOrder : List Element → Type 0
IsInOrder elements =
    (i j : ℕ) (e : Element) → get_elem? elements i ≡ some e → e.parent ≡ some j → j < i
