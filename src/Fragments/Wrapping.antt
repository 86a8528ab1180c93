-- ===== src/Fragments/Wrapping.antt =====
-- `init` of docs/doxygen-awesome-fragment-copy-button.js: every fragment of the page gets a wrapper with a
-- button, in a loop over a collection that is live while the loop changes the page.
pub mod Every
use com_client.Base.{ℕ, zero, suc, ◌+◌, ◌-◌, Text, Bool, true, false, if◌then◌else◌, ltb}

pub data Kind : Type 0 where
  fragment wrapper copy_button other : Kind

-- The elements of the page; what they say does not matter here.
mutual
  pub data Node : Type 0 where
    element : Kind → Nodes → Node
    chars : Text → Node

  pub data Nodes : Type 0 where
    nil : Nodes
    cons : Node → Nodes → Nodes

abbrev pub is_fragment : Kind → Bool
is_fragment fragment = true
is_fragment _ = false

-- The length of `document.getElementsByClassName("fragment")`, an element counted before those in it.
unfoldable mutual
  pub fragments : Node → ℕ
  fragments (element k kids) =
      let inner = fragments_in kids in if is_fragment k then suc inner else inner
  fragments (chars s) = 0

  pub fragments_in : Nodes → ℕ
  fragments_in nil = 0
  fragments_in (cons n rest) = fragments n + fragments_in rest

-- The wrapper in the place of the fragment, with the fragment and the button in it.
abbrev pub wrap : Node → Node
wrap n = element wrapper (cons n (cons (element copy_button nil) nil))

-- One round of the loop, for the fragment at this index of the collection.
unfoldable mutual
  unfolding fragments

  pub wrap_at : ℕ → Node → Node
  wrap_at zero (element k kids) =
      let inner = wrap_in zero kids in
      if is_fragment k then wrap (element k kids) else element k inner
  wrap_at (suc i) (element k kids) =
      let below = wrap_in i kids in
      let inner = wrap_in (suc i) kids in element k (if is_fragment k then below else inner)
  wrap_at i (chars s) = chars s

  pub wrap_in : ℕ → Nodes → Nodes
  wrap_in i nil = nil
  wrap_in i (cons n rest) =
      let here = wrap_at i n in
      let later = wrap_in (i - fragments n) rest in
      if ltb i (fragments n) then cons here rest else cons n later

-- `for(const fragment of fragments)`: the iterator of a live collection goes by index.
unfoldable pub loop : ℕ → ℕ → Nodes → Nodes
unfolding fragments wrap_in
loop zero i page = page
loop (suc f) i page =
    let next = loop f (suc i) (wrap_in i page) in if ltb i (fragments_in page) then next else page

-- On as many rounds as there are fragments at the start.
unfoldable pub init : Bool → Nodes → Nodes
unfolding loop
init clipboard page = if clipboard then loop (fragments_in page) 0 page else page
