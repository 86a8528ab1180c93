-- ===== src/Menu/Balance.antt =====
-- The elements that `makeTree` of docs/documentation/html/menu.js writes.
use com_client.Base.{
  ℕ, ◌≡◌, refl, ap, ◌∙◌, ◌≢◌, Text, codes, List, [], ◌∷◌, ◌++◌, All, arith, Option, none, some,
  if◌then◌else◌, ◌==◌, text_eq, Option-cases, inl, inr,
}
use mathlib.Core.List.{append_assoc}
use com_client.Menu.{Menu, plain, children, Items, no_items, item, make_tree, make_items}

-- Where a reader of markup is: between tags, behind a `<`, in the name of a start tag, behind it, in a
-- quoted value of an attribute, or in the name of an end tag. The names are those read so far.
pub data Place : Type 0 where
  outside tag : Place
  start_name attributes quoted end_name : Text → Place

-- The reader's place, and the names of the open elements, the innermost first.
abbrev pub Reader : Type 0
Reader = Place × List Text

-- An end tag of this name closes the innermost element, which has to have the name.
unfoldable pub close : Text → List Text → Option Reader
unfolding text_eq
close name [] = none
close name (top ∷ below) = if text_eq name top then some (outside, below) else none

-- One more character.
unfoldable pub advance : ℕ → Place → List Text → Option Reader
unfolding close
advance c outside stack = some (if c == b'<' then tag else outside, stack)
advance c tag stack = some (if c == b'/' then end_name [] else start_name (c ∷ []), stack)
advance c (start_name name) stack =
    if c == b'>'
    then some (outside, name ∷ stack)
    else if c == b' '
    then some (attributes name, stack)
    else some (start_name (name ++ c ∷ []), stack)
advance c (attributes name) stack =
    if c == b'>'
    then some (outside, name ∷ stack)
    else if c == b'"'
    then some (quoted name, stack)
    else some (attributes name, stack)
advance c (quoted name) stack = some (if c == b'"' then attributes name else quoted name, stack)
advance c (end_name name) stack =
    if c == b'>' then close name stack else some (end_name (name ++ c ∷ []), stack)

unfoldable pub read : Place → List Text → Text → Option Reader
unfolding advance
read at stack [] = some (at, stack)
read at stack (c ∷ s) = elim (advance c at stack) [
  | none ↦ none
  | some (at', stack') ↦ read at' stack' s
]

abbrev pub NoTag : Text → Type 0
NoTag s = All (λ c. c ≢ b'<') s

abbrev pub NoQuote : Text → Type 0
NoQuote s = All (λ c. c ≢ b'"') s

abbrev mutual
  -- No text has a `<`, no url a quote.
  pub IsPlain : Menu → Type 0
  IsPlain plain = Unit
  IsPlain (children items) = ItemsArePlain items

  pub ItemsArePlain : Items → Type 0
  ItemsArePlain no_items = Unit
  ItemsArePlain (item text url below rest) =
      NoTag text × NoQuote url × IsPlain below × ItemsArePlain rest

read-append :
    (at : Place) (stack : List Text) (s t : Text) (at' : Place) (stack' : List Text)
    → read at stack s ≡ some (at', stack')
    → read at stack (s ++ t) ≡ read at' stack' t
unfolding read
read-append at stack [] t at' stack' e = ground arith
read-append at stack (c ∷ s) t at' stack' e = elim (Option-cases (advance c at stack)) [
  | inl k ↦ absurd (ground (arith, k, e))
  | inr ((next, names), k) ↦
      let rest : read next names s ≡ some (at', stack') = ground (arith, k, e) in
      rw (k, read) (read-append next names s t at' stack' rest)
]

read-NoTag : (s : Text) (stack : List Text) → NoTag s → read outside stack s ≡ some (outside, stack)
unfolding read
read-NoTag [] stack h = refl
read-NoTag (c ∷ s) stack (h, hs) = ground (arith, read-NoTag s stack hs)

read-NoQuote :
    (s name : Text) (stack : List Text)
    → NoQuote s
    → read (quoted name) stack s ≡ some (quoted name, stack)
unfolding read
read-NoQuote [] name stack h = refl
read-NoQuote (c ∷ s) name stack (h, hs) = ground (arith, read-NoQuote s name stack hs)

abbrev ul : Text
ul = codes "ul"

abbrev li : Text
li = codes "li"

abbrev a : Text
a = codes "a"

module _ (rel_path : Text) (path_no_quote : NoQuote rel_path) where
  -- What stands before the texts and the urls, and behind them.
  read-tags :
      (stack : List Text)
      → (read outside stack (codes "<ul>") ≡ some (outside, ul ∷ stack))
        × (read outside (ul ∷ stack) (codes "</ul>") ≡ some (outside, stack))
        × (read outside stack (codes "<li><a href=\"") ≡ some (quoted a, li ∷ stack))
        × (read (quoted a) (li ∷ stack) (codes "\">") ≡ some (outside, a ∷ li ∷ stack))
        × (read outside (a ∷ li ∷ stack) (codes "</a>") ≡ some (outside, li ∷ stack))
        × (read outside (li ∷ stack) (codes "</li>") ≡ some (outside, stack))
  unfolding read text_eq
  read-tags stack = (refl, refl, refl, refl, refl, refl)

  item-parts :
      (text url : Text) (below : Menu) (rest : Items)
      → make_items (item text url below rest) rel_path
        ≡ codes "<li><a href=\""
          ++ (rel_path
              ++ (url
                  ++ (codes "\">"
                      ++ (text
                          ++ (codes "</a>"
                              ++ (make_tree below rel_path
                                  ++ (codes "</li>" ++ make_items rest rel_path)))))))
  unfolding make_tree
  item-parts text url below rest = simp (append_assoc)

  tree-parts :
      (items : Items)
      → make_tree (children items) rel_path
        ≡ codes "<ul>" ++ (make_items items rel_path ++ codes "</ul>")
  unfolding make_tree
  tree-parts items = simp (append_assoc)

  mutual
    unfolding make_tree read

    tree-balanced :
        (menu : Menu) (stack : List Text)
        → IsPlain menu
        → read outside stack (make_tree menu rel_path) ≡ some (outside, stack)
    tree-balanced plain stack h = refl
    tree-balanced (children items) stack h =
        let (ul_start, ul_end, li_start, a_start, a_end, li_end) = read-tags stack in
        let inner = make_items items rel_path in
        ap (read outside stack) (tree-parts items)
        ∙ read-append outside stack (codes "<ul>") (inner ++ codes "</ul>") outside (ul ∷ stack)
            ul_start
        ∙ read-append outside (ul ∷ stack) inner (codes "</ul>") outside (ul ∷ stack)
            (items-balanced items (ul ∷ stack) h)
        ∙ ul_end

    items-balanced :
        (items : Items) (stack : List Text)
        → ItemsArePlain items
        → read outside stack (make_items items rel_path) ≡ some (outside, stack)
    items-balanced no_items stack h = refl
    items-balanced (item text url below rest) stack (h, k, b, r) =
        let (ul_start, ul_end, li_start, a_start, a_end, li_end) = read-tags stack in
        let after = codes "</li>" ++ make_items rest rel_path in
        let inner = make_tree below rel_path ++ after in
        let label = text ++ (codes "</a>" ++ inner) in
        ap (read outside stack) (item-parts text url below rest)
        ∙ read-append outside stack (codes "<li><a href=\"")
            (rel_path ++ (url ++ (codes "\">" ++ label))) (quoted a) (li ∷ stack) li_start
        ∙ read-append (quoted a) (li ∷ stack) rel_path (url ++ (codes "\">" ++ label)) (quoted a)
            (li ∷ stack) (read-NoQuote rel_path a (li ∷ stack) path_no_quote)
        ∙ read-append (quoted a) (li ∷ stack) url (codes "\">" ++ label) (quoted a) (li ∷ stack)
            (read-NoQuote url a (li ∷ stack) k)
        ∙ read-append (quoted a) (li ∷ stack) (codes "\">") label outside (a ∷ li ∷ stack) a_start
        ∙ read-append outside (a ∷ li ∷ stack) text (codes "</a>" ++ inner) outside (a ∷ li ∷ stack)
            (read-NoTag text (a ∷ li ∷ stack) h)
        ∙ read-append outside (a ∷ li ∷ stack) (codes "</a>") inner outside (li ∷ stack) a_end
        ∙ read-append outside (li ∷ stack) (make_tree below rel_path) after outside (li ∷ stack)
            (tree-balanced below (li ∷ stack) b)
        ∙ read-append outside (li ∷ stack) (codes "</li>") (make_items rest rel_path) outside stack
            li_end
        ∙ items-balanced rest stack r

  -- For every menu whose texts have no `<` and whose urls, as the path before them, have no quote: reading
  -- what `makeTree` writes, every end tag has the name of the innermost element that is open, and at the
  -- end no element, tag or quoted value is open.
  pub make_tree-balanced :
      (menu : Menu) → IsPlain menu → read outside [] (make_tree menu rel_path) ≡ some (outside, [])
  make_tree-balanced menu h = tree-balanced menu [] h
