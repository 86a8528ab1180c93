-- ===== src/Paragraphs/Tests.antt =====
-- Runs of docs/doxygen-awesome-paragraph-link.js.
use com_client.Base.{ℕ, codes, true, false, [], ◌∷◌, ◌++◌, Option, none, some, ◌≡◌, refl, length}
use com_client.Paragraphs.{Element, Page, matches, init, in_contents}
use com_client.Paragraphs.Laws.{marked, links_of, init-links}

abbrev plain : Option ℕ → Element
plain parent = record {
  is_link = false;
  is_anchor = false;
  is_contents = false;
  is_group_header = false;
  id = none;
  parent = parent;
}

-- The contents, a header of a group, and a link in it.
abbrev group : Page
group = record {
  elements =
      record (plain none) { is_contents = true }
      ∷ record (plain (some 0)) { is_group_header = true }
      ∷ record (plain (some 1)) { is_link = true; id = some (codes "members") }
      ∷ [];
  links = [];
}

group_linked : (init group).links ≡ (some 1, codes "#members") ∷ []
unfolding init
group_linked = refl

init-links_example : init group ≡ record group {
  elements = marked (matches (length group.elements) group.elements) group.elements;
  links = group.links ++ links_of (matches (length group.elements) group.elements) group.elements;
}
init-links_example = init-links group

group_in_contents : in_contents (length group.elements) group.elements (some 1) ≡ true
unfolding in_contents
group_in_contents = refl
