-- ===== src/Search/Results/Tree/Rounds.antt =====
-- How often the loop of `FindChildElement` in docs/documentation/html/search/search.js runs.
use com_client.Base.{
  ℕ, zero, suc, ◌+◌, ◌≤◌, true, false, List, [], none, some, ◌≡◌, arith, Bool-cases, Option-cases,
  inl, inr,
}
use com_client.Search.Results.Tree.{Node, Nodes, cons, is_children, next, size, size_all}
use com_client.Search.Results.Tree.Laws.{todo, todo_pos, next-IsRound, fits}

-- The loop, from an element with its next siblings and those of its ancestors on, is left in its
-- `k`th round: it returns the element, or there is none to go on with.
pub data Ends : ℕ → Node → Nodes → List Nodes → Type 0 where
  returns : {n : Node} {right : Nodes} {up : List Nodes} → is_children n ≡ true → Ends 1 n right up
  leaves :
      {n : Node} {right : Nodes} {up : List Nodes}
      → is_children n ≡ false
      → next n right up ≡ none
      → Ends 1 n right up
  goes_on :
      {k : ℕ} {n m : Node} {right ms : Nodes} {up above : List Nodes}
      → is_children n ≡ false
      → next n right up ≡ some (m, ms, above)
      → Ends k m ms above
      → Ends (suc k) n right up

loop-Ends :
    (f : ℕ) (n : Node) (right : Nodes) (up : List Nodes)
    → todo n right up ≤ f
    → (k : ℕ) × (k ≤ f) × Ends k n right up
loop-Ends zero n right up h = absurd (omega (arith, todo_pos n right up))
loop-Ends (suc f) n right up h = elim (Bool-cases (is_children n)) [
  | inl e ↦ (1, omega arith, returns e)
  | inr e ↦ elim (Option-cases (next n right up)) [
    | inl none_left ↦ (1, omega arith, leaves e none_left)
    | inr ((m, ms, above), moved) ↦
        let round = next-IsRound n right up e moved in
        let (k, le, ends) = loop-Ends f m ms above (omega (arith, round.less)) in
        (suc k, omega arith, goes_on e moved ends)
  ]
]

-- The loop of `FindChildElement` ends: from the first child of any element it is left in a round whose
-- number is at most that of the elements below the element.
pub find_child_element-Ends :
    (first : Node) (right : Nodes)
    → (k : ℕ) × (k ≤ size_all (cons first right)) × Ends k first right []
unfolding size_all
find_child_element-Ends first right =
    loop-Ends (size first + size_all right) first right [] (fits first right)
