-- ===== src/Paragraphs.antt =====
-- The links behind paragraphs: docs/doxygen-awesome-paragraph-link.js.
pub mod Laws
pub mod Contents
mod Tests
use com_client.Base.{
  ℕ, zero, suc, ◌+◌, Text, codes, Bool, true, false, ◌&&◌, ◌||◌, List, [], ◌∷◌, ◌++◌, if◌then◌else◌,
  Option, none, some, get_elem?, length,
}

-- An element of the page: whether it is an `a`, its classes `anchor`, `contents` and `groupheader`, its id,
-- and the number of its parent among the elements in document order.
pub record Element : Type 0 where
  pub is_link : Bool
  pub is_anchor : Bool
  pub is_contents : Bool
  pub is_group_header : Bool
  pub id : Option Text
  pub parent : Option ℕ

-- The page: its elements in document order, and the links that were appended, each to a parent, in the
-- order in which they came.
pub record Page : Type 0 where
  pub elements : List Element
  pub links : List (Option ℕ × Text)

-- Whether the element with this number or an ancestor of it has the class `contents`, on as many steps as
-- there are elements.
unfoldable pub in_contents : ℕ → List Element → Option ℕ → Bool
in_contents f elements none = false
in_contents zero elements (some i) = false
in_contents (suc f) elements (some i) = elim (get_elem? elements i) [
  | none ↦ false
  | some e ↦ let above = in_contents f elements e.parent in e.is_contents || above
]

-- `.contents a.anchor[id], .contents .groupheader > a[id]`
unfoldable pub matches : ℕ → List Element → Element → Bool
unfolding in_contents
matches f elements e =
    let by_anchor = e.is_anchor && in_contents f elements e.parent in
    let by_header : Bool = elim e.parent [
      | none ↦ false
      | some i ↦ elim (get_elem? elements i) [
        | none ↦ false
        | some p ↦ p.is_group_header && in_contents f elements p.parent
      ]
    ] in
    elim e.id [ none ↦ false | some name ↦ e.is_link && (by_anchor || by_header) ]

-- `document.querySelectorAll(...)`: the numbers of the elements that match, from `i` on.
unfoldable pub query : (Element → Bool) → ℕ → List Element → List ℕ
query found i [] = []
query found i (e ∷ rest) =
    let later = query found (suc i) rest in if found e then i ∷ later else later

unfoldable pub set_anchor : ℕ → List Element → List Element
set_anchor i [] = []
set_anchor zero (e ∷ rest) = record e { is_anchor = true } ∷ rest
set_anchor (suc i) (e ∷ rest) = e ∷ set_anchor i rest

-- `#${node.getAttribute("id")}`
unfoldable pub href_of : Element → Text
href_of e = elim e.id [ none ↦ codes "#null" | some name ↦ b'#' ∷ name ]

-- What `forEach` does with an element.
unfoldable pub add_link : ℕ → Page → Page
unfolding set_anchor href_of
add_link i p = elim (get_elem? p.elements i) [
  | none ↦ p
  | some e ↦ record {
    elements = set_anchor i p.elements;
    links = p.links ++ ((e.parent, href_of e) ∷ []);
  }
]

unfoldable pub for_each : List ℕ → Page → Page
unfolding add_link
for_each [] p = p
for_each (i ∷ rest) p = for_each rest (add_link i p)

unfoldable pub init : Page → Page
unfolding for_each query matches
init p = for_each (query (matches (length p.elements) p.elements) 0 p.elements) p
