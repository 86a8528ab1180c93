-- ===== src/Search/Results/Tree/Laws.antt =====
-- The walk of `FindChildElement` in docs/documentation/html/search/search.js against a recursive search.
use com_client.Base.{
  ℕ, zero, suc, ◌+◌, ◌≤◌, true, false, List, [], ◌∷◌, if◌then◌else◌, Option, none, some, ◌≡◌, refl,
  ◌∙◌, sym, arith, Bool-cases, Option-cases, inl, inr,
}
use com_client.Search.Panel.{Display, unset}
use com_client.Search.Results.{Body, single, multiple, Row}
use com_client.Search.Results.Tree.{
  Tag, div, anchor, span, Class, Node, Nodes, element, nil, cons, is_children, climb, next, walk,
  size, size_all, find_child_element, row_node, links, body_node,
}

abbrev pub or_else : Option Node → Option Node → Option Node
or_else none o = o
or_else (some n) o = some n

mutual
  -- The first `div` of class SRChildren in document order, looked for within the elements that are
  -- a `div`.
  pub first_in : Node → Option Node
  first_in (element div c d kids) =
      if is_children (element div c d kids) then some (element div c d kids) else first_among kids
  first_in (element anchor c d kids) = none
  first_in (element span c d kids) = none

  pub first_among : Nodes → Option Node
  first_among nil = none
  first_among (cons n rest) = or_else (first_in n) (first_among rest)

first_above : List Nodes → Option Node
first_above [] = none
first_above (right ∷ up) = or_else (first_among right) (first_above up)

size_above : List Nodes → ℕ
size_above [] = 0
size_above (right ∷ up) = size_all right + size_above up

or_else_assoc : (a b c : Option Node) → or_else (or_else a b) c ≡ or_else a (or_else b c)
or_else_assoc none b c = refl
or_else_assoc (some n) b c = refl

-- Where `climb` arrives, the rest of the search begins.
first_above-climb :
    (up : List Nodes)
    → first_above up ≡ elim (climb up) [
      | none ↦ none
      | some (n, right, above) ↦ or_else (first_among (cons n right)) (first_above above)
    ]
unfolding first_above climb first_among
first_above-climb [] = refl
first_above-climb (nil ∷ up) = first_above-climb up
first_above-climb (cons n right ∷ up) = refl

size_above-climb :
    (up : List Nodes) {n : Node} {right : Nodes} {above : List Nodes}
    → climb up ≡ some (n, right, above)
    → size_above up ≡ size n + size_all right + size_above above
unfolding size_above climb size_all
size_above-climb [] e = cc
size_above-climb (nil ∷ up) e = omega (arith, size_above-climb up e)
size_above-climb (cons n right ∷ up) e = ground arith

-- What the walk has still to look at.
pub ahead : Node → Nodes → List Nodes → Option Node
unfolding first_in first_among first_above
ahead n right up = or_else (first_in n) (or_else (first_among right) (first_above up))

pub todo : Node → Nodes → List Nodes → ℕ
todo n right up = size n + size_all right + size_above up

size_pos : (n : Node) → 1 ≤ size n
unfolding size
size_pos (element t c d kids) = omega arith

pub todo_pos : (n : Node) (right : Nodes) (up : List Nodes) → 1 ≤ todo n right up
unfolding todo
todo_pos n right up = omega (arith, size_pos n)

-- A round keeps what is found, and there is less to look at.
pub record IsRound (n : Node) (right : Nodes) (up : List Nodes) (m : Node) (ms : Nodes)
    (above : List Nodes) : Type 0 where
  pub same : ahead n right up ≡ ahead m ms above
  pub less : suc (todo m ms above) ≤ todo n right up

pub next-IsRound :
    (n : Node) (right : Nodes) (up : List Nodes) {m : Node} {ms : Nodes} {above : List Nodes}
    → is_children n ≡ false
    → next n right up ≡ some (m, ms, above)
    → IsRound n right up m ms above
unfolding next ahead todo first_in first_among size size_all size_above
next-IsRound (element div c d (cons k ks)) right up h e = record {
  same = ground (
    arith,
    or_else_assoc (first_in k) (first_among ks) (or_else (first_among right) (first_above up)),
  );
  less = ground arith;
}
next-IsRound n (cons r rs) up h e = record {
  same = ground (arith, or_else_assoc (first_in r) (first_among rs) (first_above up));
  less = ground arith;
}
next-IsRound n nil up {m} {ms} {above} h e = record {
  same = ground (
    arith,
    first_above-climb up,
    or_else_assoc (first_in m) (first_among ms) (first_above above),
  );
  less = ground (arith, size_above-climb up e);
}

next-none :
    (n : Node) (right : Nodes) (up : List Nodes)
    → is_children n ≡ false
    → next n right up ≡ none
    → ahead n right up ≡ none
unfolding next ahead first_in first_among
next-none (element div c d (cons k ks)) right up h e = ground arith
next-none n (cons r rs) up h e = ground arith
next-none n nil up h e = ground (arith, first_above-climb up)

ahead-found :
    (n : Node) (right : Nodes) (up : List Nodes) → is_children n ≡ true → ahead n right up ≡ some n
unfolding ahead first_in
ahead-found (element div Class.children d kids) right up h = refl
ahead-found n right up h = cc

walk-eq-ahead :
    (f : ℕ) (n : Node) (right : Nodes) (up : List Nodes)
    → todo n right up ≤ f
    → walk f n right up ≡ ahead n right up
unfolding walk
walk-eq-ahead zero n right up h = absurd (omega (arith, todo_pos n right up))
walk-eq-ahead (suc f) n right up h = elim (Bool-cases (is_children n)) [
  | inl e ↦ rw e (sym (ahead-found n right up e))
  | inr e ↦ elim (Option-cases (next n right up)) [
    | inl none_left ↦ ground (arith, next-none n right up e none_left)
    | inr ((m, ms, above), moved) ↦
        let round = next-IsRound n right up e moved in
        ground (arith, round.same, walk-eq-ahead f m ms above (omega (arith, round.less)))
  ]
]

pub fits : (n : Node) (right : Nodes) → todo n right [] ≤ size n + size_all right
unfolding todo size_above
fits n right = omega arith

-- From any element, `FindChildElement` ends and gives, in document order, the first `div` with the class
-- SRChildren among the elements below it that are enclosed, up to the start, by `div`s only, or null if
-- there is none. What stands in an `a` or a `span` below the start is not looked at.
pub find_child_element-eq-first :
    (t : Tag) (c : Class) (d : Display) (kids : Nodes)
    → find_child_element (element t c d kids) ≡ first_among kids
unfolding find_child_element first_among
find_child_element-eq-first t c d nil = refl
find_child_element-eq-first t c d (cons n right) =
    let all = walk-eq-ahead (size n + size_all right) n right [] (fits n right) in
    unfold ahead first_above in ground (arith, all)

-- The folded list of a row, as an element.
pub kids_of : Body → Option Node
unfolding links
kids_of (single h) = none
kids_of (multiple d hits) = some (element div Class.children d (links hits))

first_among-body :
    (b : Body)
    → first_among (cons (element anchor Class.symbol unset nil) (cons (body_node b) nil))
      ≡ kids_of b
unfolding first_among kids_of body_node
first_among-body (single h) = refl
first_among-body (multiple d hits) = refl

-- In a row that `createResults` builds it finds the folded list if there is one.
pub find_child_element-row_node : (r : Row) → find_child_element (row_node r) ≡ kids_of r.body
unfolding row_node
find_child_element-row_node r =
    find_child_element-eq-first div Class.result r.display _
    ∙ unfold first_among in ground (arith, first_among-body r.body)
