-- ===== src/NavTree/Index/Every.antt =====
-- Tests over the three scripts of the generated index: docs/documentation/html/navtreeindex0.js to
-- navtreeindex2.js.
use com_client.Base.{
  ℕ, zero, suc, ◌≡◌, Text, Bool, true, ◌&&◌, List, [], ◌∷◌, Option, none, some, Option-cases,
  Bool-cases, inl, inr, arith, text_eq, text_eq→eq,
}
use com_client.NavTree.Index.{SubIndex, lookup}
use com_client.NavTree.Index.Script0.{nav_tree_index0}
use com_client.NavTree.Index.Script1.{nav_tree_index1}
use com_client.NavTree.Index.Script2.{nav_tree_index2}

-- `navTreeSubIndices` once the scripts are there.
abbrev pub nav_tree_sub_indices : ℕ → Option SubIndex
nav_tree_sub_indices zero = some nav_tree_index0
nav_tree_sub_indices (suc zero) = some nav_tree_index1
nav_tree_sub_indices (suc (suc zero)) = some nav_tree_index2
nav_tree_sub_indices _ = none

-- A test that holds of every entry holds of those that count.
unfoldable pub every : (Text → List ℕ → Bool) → SubIndex → Bool
every test [] = true
every test ((key, path) ∷ rest) = test key path && every test rest

lookup-every :
    (test : Text → List ℕ → Bool) (sub : SubIndex) (key : Text) (path : List ℕ)
    → every test sub ≡ true
    → lookup key sub ≡ some path
    → test key path ≡ true
unfolding every lookup
lookup-every test [] key path h e = cc
lookup-every test ((k, p) ∷ rest) key path h e = elim (Option-cases (lookup key rest)) [
  | inr (q, f) ↦ lookup-every test rest key path (ground arith) (ground (arith, f))
  | inl f ↦ elim (Bool-cases (text_eq k key)) [
    | inl m ↦
        let same : p ≡ path = ground (arith, f, m) in
        rw (← text_eq→eq k key m, ← same) (ground arith)
    | inr m ↦ absurd (ground (arith, f, m))
  ]
]

module _ (test : ℕ → SubIndex → Text → List ℕ → Bool) where
  abbrev pub AllScripts : Type 0
  AllScripts =
      (every (test 0 nav_tree_index0) nav_tree_index0 ≡ true)
      × (every (test 1 nav_tree_index1) nav_tree_index1 ≡ true)
      × (every (test 2 nav_tree_index2) nav_tree_index2 ≡ true)

  script-same :
      (i : ℕ) (s t : SubIndex)
      → some s ≡ some t
      → every (test i s) s ≡ true
      → every (test i t) t ≡ true
  script-same i s t e h = cc

  -- A test of all three scripts, at the breadcrumbs of an address in one of them.
  pub script-every :
      AllScripts
      → (i : ℕ) (sub : SubIndex) (key : Text) (path : List ℕ) → nav_tree_sub_indices i ≡ some sub
      → lookup key sub ≡ some path
      → test i sub key path ≡ true
  script-every h i sub key path s e = lookup-every (test i sub) sub key path (go i s) e
    where
      go : (i : ℕ) → nav_tree_sub_indices i ≡ some sub → every (test i sub) sub ≡ true
      go zero s = script-same 0 nav_tree_index0 sub s h.0
      go (suc zero) s = script-same 1 nav_tree_index1 sub s h.1
      go (suc (suc zero)) s = script-same 2 nav_tree_index2 sub s h.2
      go (suc (suc (suc i))) s = cc
