-- ===== src/Paragraphs/Laws.antt =====
-- That docs/doxygen-awesome-paragraph-link.js gives every paragraph one link.
use com_client.Base.{
  ℕ, suc, ◌≡◌, refl, sym, ap, ◌∙◌, Text, Bool, true, List, [], ◌∷◌, ◌++◌, if◌then◌else◌, Option,
  none, some, arith, Option-cases, get_elem?, Bool-cases, inl, inr, length,
}
use mathlib.Core.List.{append_assoc, append-nil}
use com_client.Paragraphs.{
  Element, Page, matches, query, set_anchor, href_of, add_link, for_each, init,
}

-- The elements with the class `anchor` on those that are found.
pub marked : (Element → Bool) → List Element → List Element
marked found [] = []
marked found (e ∷ rest) = (if found e then record e { is_anchor = true } else e) ∷ marked found rest

-- A link in the parent to this id, if there is one, before other links.
unfoldable pub link_to : Option ℕ → Option Text → List (Option ℕ × Text) → List (Option ℕ × Text)
link_to parent none later = later
link_to parent (some name) later = (parent, b'#' ∷ name) ∷ later

-- The links of the elements that are found and have an id, in document order.
pub links_of : (Element → Bool) → List Element → List (Option ℕ × Text)
unfolding link_to
links_of found [] = []
links_of found (e ∷ rest) =
    let later = links_of found rest in if found e then link_to e.parent e.id later else later

-- Only elements with an id are found.
abbrev HasIds : (Element → Bool) → Type 0
HasIds found = (e : Element) → found e ≡ true → (name : Text) × (e.id ≡ some name)

get_elem?-behind :
    (before rest : List Element) (e : Element)
    → get_elem? (before ++ (e ∷ rest)) (length before) ≡ some e
get_elem?-behind [] rest e = refl
get_elem?-behind (b ∷ before) rest e = get_elem?-behind before rest e

set_anchor-behind :
    (before rest : List Element) (e : Element)
    → set_anchor (length before) (before ++ (e ∷ rest))
      ≡ before ++ (record e { is_anchor = true } ∷ rest)
unfolding set_anchor
set_anchor-behind [] rest e = refl
set_anchor-behind (b ∷ before) rest e = ap (b ∷◌) (set_anchor-behind before rest e)

abbrev page : List Element → List (Option ℕ × Text) → Page
page elements links = record { elements = elements; links = links }

add_link-behind :
    (before rest : List Element) (e : Element) (links : List (Option ℕ × Text))
    → add_link (length before) (page (before ++ (e ∷ rest)) links)
      ≡ page
          (before ++ (record e { is_anchor = true } ∷ rest))
          (links ++ ((e.parent, href_of e) ∷ []))
unfolding add_link
add_link-behind before rest e links =
    rw (get_elem?-behind before rest e, add_link)
      (ap (λ l. page l (links ++ ((e.parent, href_of e) ∷ []))) (set_anchor-behind before rest e))

length-snoc :
    (before : List Element) (e : Element) → length (before ++ (e ∷ [])) ≡ suc (length before)
length-snoc [] e = refl
length-snoc (b ∷ before) e = ap suc (length-snoc before e)

href_of-id : (e : Element) (name : Text) → e.id ≡ some name → href_of e ≡ b'#' ∷ name
unfolding href_of
href_of-id e name h = rw h refl

for_each-rest :
    (found : Element → Bool)
    → HasIds found
    → (before rest : List Element) (links : List (Option ℕ × Text))
    → for_each (query found (length before) rest) (page (before ++ rest) links)
      ≡ page (before ++ marked found rest) (links ++ links_of found rest)
unfolding for_each query marked links_of link_to
for_each-rest found ids before [] links = ap (page (before ++ [])) (sym (append-nil links))
for_each-rest found ids before (e ∷ rest) links =
    let step : (el : Element) (ls : List (Option ℕ × Text))
        → for_each (query found (suc (length before)) rest) (page (before ++ (el ∷ rest)) ls)
          ≡ page (before ++ (el ∷ marked found rest)) (ls ++ links_of found rest) =
      λ el ls.
        ap (λ i. for_each (query found i rest) (page (before ++ (el ∷ rest)) ls))
          (sym (length-snoc before el))
        ∙ ap (λ els. for_each (query found (length (before ++ (el ∷ []))) rest) (page els ls))
            (sym (append_assoc before (el ∷ []) rest))
        ∙ for_each-rest found ids (before ++ (el ∷ [])) rest ls
        ∙ ap (λ els. page els (ls ++ links_of found rest))
            (append_assoc before (el ∷ []) (marked found rest)) in
    let linked = record e { is_anchor = true } in
    let visited : (name : Text)
        → e.id ≡ some name
        → for_each (query found (suc (length before)) rest)
            (add_link (length before) (page (before ++ (e ∷ rest)) links))
          ≡ page (before ++ (linked ∷ marked found rest))
              (links ++ ((e.parent, b'#' ∷ name) ∷ links_of found rest)) =
      λ name id.
        let link = (e.parent, b'#' ∷ name) ∷ [] in
        let onward : Page → Page = for_each (query found (suc (length before)) rest) in
        let named : href_of e ≡ b'#' ∷ name = href_of-id e name id in
        ap onward (add_link-behind before rest e links)
        ∙ ap (λ h. onward (page (before ++ (linked ∷ rest)) (links ++ ((e.parent, h) ∷ [])))) named
        ∙ step linked (links ++ link)
        ∙ ap (page (before ++ (linked ∷ marked found rest)))
            (append_assoc links link (links_of found rest)) in
    elim (Bool-cases (found e)) [
      | inl h ↦
          let (name, id) = ids e h in
          let linked_here = ap (λ i. link_to e.parent i (links_of found rest)) id in
          rw h (
            visited name id
            ∙ ap (λ l. page (before ++ (linked ∷ marked found rest)) (links ++ l))
                (sym linked_here))
      | inr h ↦ rw h (step e links)
    ]

matches-HasIds : (f : ℕ) (elements : List Element) → HasIds (matches f elements)
unfolding matches
matches-HasIds f elements e h = elim (Option-cases e.id) [
  | inr (name, k) ↦ (name, k)
  | inl k ↦ absurd (ground (arith, h, k))
]

-- On every page: `init` gives each element that the selector matches the class `anchor` and its parent one
-- link, `#` and the element's id, in document order, and changes nothing else. Whether an element matches is
-- judged on the page as it was, before any class was given.
pub init-links :
    (p : Page)
    → let found = matches (length p.elements) p.elements in
      init p ≡ record p {
        elements = marked found p.elements;
        links = p.links ++ links_of found p.elements;
      }
unfolding init
init-links p =
    for_each-rest (matches (length p.elements) p.elements)
      (matches-HasIds (length p.elements) p.elements) [] p.elements p.links
