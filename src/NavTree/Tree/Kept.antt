-- ===== src/NavTree/Tree/Kept.antt =====
-- The children that docs/documentation/html/navtree.js makes of the data, over its operations.
use com_client.Base.{
  ℕ, zero, suc, ◌≡◌, refl, sym, ap, ◌∙◌, Text, false, List, [], ◌∷◌, some, arith, ◌⊎◌, inl, inr,
  Option-cases, Bool-cases,
}
use com_client.NavTree.Tree.{
  Source, leaf, rows, Rows, no_rows, row, Flags, Node, node, Nodes, nil, cons, source_of, child_at,
  set_child, visit, open_rows, Loader, Resolved, no_children, waiting, ready, resolve, expand_node,
  toggle_expand, settle, is_top_page, Outcome, threw, show_last, descend, show_with, show_node,
  toggle_at,
}
use com_client.NavTree.Tree.Laws.{view, Fits, FitsAll, Resolved-cases, visit-FitsAll}

module _ (load : Loader) (relpath : Text) where
  -- A node that fits in the place of one that shows the same of the data.
  abbrev pub Replaces : Node → Node → Type 0
  Replaces m n = (view load relpath m ≡ view load relpath n) × Fits load relpath m

  abbrev seen : Text → Text → Resolved → Text × Text × Resolved
  seen t l r = (t, l, r)

  view-eq : (t l : Text) (a b : Resolved) → a ≡ b → seen t l a ≡ seen t l b
  view-eq t l a b e = ap (seen t l) e

  set_child-FitsAll :
      (items : Rows) (kids : Nodes) (i : ℕ) (m n : Node)
      → FitsAll load relpath items kids
      → child_at i kids ≡ some n
      → Replaces m n
      → FitsAll load relpath items (set_child i m kids)
  set_child-FitsAll no_rows nil i m n h e r = tt
  set_child-FitsAll no_rows (cons k ks) i m n h e r = absurd h
  set_child-FitsAll (row t l s rest) nil i m n h e r = absurd h
  set_child-FitsAll (row t l s rest) (cons k ks) zero m n (same, fits, h) e (kept, new) =
      let eq : k ≡ n = ground arith in (kept ∙ ap (view load relpath) (sym eq) ∙ same, new, h)
  set_child-FitsAll (row t l s rest) (cons k ks) (suc i) m n (same, fits, h) e r =
      (same, fits, set_child-FitsAll rest ks i m n h e r)

  child_at-Fits :
      (items : Rows) (kids : Nodes) (i : ℕ) (n : Node)
      → FitsAll load relpath items kids
      → child_at i kids ≡ some n
      → Fits load relpath n
  child_at-Fits no_rows nil i n h e = cc
  child_at-Fits no_rows (cons k ks) i n h e = absurd h
  child_at-Fits (row t l s rest) nil i n h e = absurd h
  child_at-Fits (row t l s rest) (cons k ks) zero n (same, fits, h) e =
      let eq : k ≡ n = ground arith in rw (sym eq) fits
  child_at-Fits (row t l s rest) (cons k ks) (suc i) n (same, fits, h) e =
      child_at-Fits rest ks i n h e

  Fits-flags :
      (t l : Text) (s : Source) (f g : Flags) (kids : Nodes)
      → g.visited ≡ f.visited
      → Fits load relpath (node t l s f kids)
      → Fits load relpath (node t l s g kids)
  Fits-flags t l s f g kids e (inl h) = inl (e ∙ h)
  Fits-flags t l s f g kids e (inr (h, rest)) = inr (e ∙ h, rest)

  -- Another `childrenData` with the same rows.
  Fits-source :
      (t l : Text) (s r : Source) (f : Flags) (kids : Nodes)
      → resolve load relpath r ≡ resolve load relpath s
      → Fits load relpath (node t l s f kids)
      → Fits load relpath (node t l r f kids)
  Fits-source t l s r f kids e (inl h) = inl h
  Fits-source t l s r f kids e (inr (h, (items, k, all))) = inr (h, (items, e ∙ k, all))

  open_rows-Replaces :
      (t l : Text) (s : Source) (f : Flags) (kids : Nodes) (items : Rows)
      → Fits load relpath (node t l s f kids)
      → resolve load relpath s ≡ ready items
      → Replaces (open_rows t l items f kids) (node t l s f kids)
  unfolding open_rows resolve
  open_rows-Replaces t l s f kids items h e = (
    view-eq t l (ready items) (resolve load relpath s) (sym e),
    inr (refl, (items, refl, visit-FitsAll load relpath t l s f kids items h e)),
  )

  expand_node-cases :
      (t l : Text) (s : Source) (f : Flags) (kids : Nodes)
      → (expand_node load relpath (node t l s f kids) ≡ node t l s f kids)
        ⊎ ((items : Rows) × (resolve load relpath s ≡ ready items)
            × (expand_node load relpath (node t l s f kids) ≡ open_rows t l items f kids))
  unfolding expand_node
  expand_node-cases t l s f kids = elim (Bool-cases f.expanded) [
    | inl e ↦ inl (ground (arith, e))
    | inr e ↦ elim (Resolved-cases (resolve load relpath s)) [
      | inl k ↦ inl (ground (arith, e, k))
      | inr (inl k) ↦ inl (ground (arith, e, k))
      | inr (inr (items, k)) ↦ inr (items, k, ground (arith, e, k))
    ]
  ]

  expand_node-Replaces : (n : Node) → Fits load relpath n → Replaces (expand_node load relpath n) n
  expand_node-Replaces (node t l s f kids) h = elim (expand_node-cases t l s f kids) [
    | inl e ↦ rw e (refl, h)
    | inr (items, k, e) ↦ rw e (open_rows-Replaces t l s f kids items h k)
  ]

  settle-Replaces :
      (root_base : Text) (s : Source) (n : Node)
      → resolve load relpath s ≡ resolve load relpath (source_of n)
      → Fits load relpath n
      → Replaces (settle load relpath root_base s n) n
  unfolding settle resolve
  settle-Replaces root_base s (node t l r f kids) e h =
      let there : Fits load relpath (node t l s f kids) = Fits-source t l r s f kids e h in
      elim (Bool-cases (is_top_page root_base)) [
        | inl top ↦
            let (kept, new) = expand_node-Replaces (node t l s f kids) there in
            rw (top, settle)
              (kept ∙ view-eq t l (resolve load relpath s) (resolve load relpath r) e, new)
        | inr deep ↦
            rw (deep, settle)
              (view-eq t l (resolve load relpath s) (resolve load relpath r) e, there)
      ]

  show_last-FitsAll :
      (root_base : Text) (i : ℕ) (items : Rows) (all : Nodes)
      → FitsAll load relpath items all
      → FitsAll load relpath items (show_last load relpath root_base i all).0
  unfolding show_last resolve
  show_last-FitsAll root_base i items all h = elim (Option-cases (child_at i all)) [
    | inl e ↦ rw (e, show_last) h
    | inr (n, e) ↦
        let fits = child_at-Fits items all i n h e in
        elim (Resolved-cases (resolve load relpath (source_of n))) [
          | inl k ↦
              rw (e, k, show_last)
                (set_child-FitsAll items all i (settle load relpath root_base leaf n) n h e
                  (settle-Replaces root_base leaf n (sym k) fits))
          | inr (inl k) ↦ rw (e, k, show_last) h
          | inr (inr (its, k)) ↦
              rw (e, k, show_last)
                (set_child-FitsAll items all i (settle load relpath root_base (rows its) n) n h e
                  (settle-Replaces root_base (rows its) n (sym k) fits))
        ]
  ]

  show_with-Replaces :
      (go_on : Nodes → Nodes × Outcome) (n : Node)
      → ((items : Rows) (all : Nodes)
          → FitsAll load relpath items all
          → FitsAll load relpath items (go_on all).0)
      → Fits load relpath n
      → Replaces (show_with load relpath go_on n).0 n
  unfolding show_with resolve
  show_with-Replaces go_on (node t l s f kids) keeps h =
      elim (Resolved-cases (resolve load relpath s)) [
        | inl k ↦ rw (k, show_with) (view-eq t l (resolve load relpath s) no_children k, h)
        | inr (inl k) ↦ rw (k, show_with) (view-eq t l (resolve load relpath s) waiting k, h)
        | inr (inr (items, k)) ↦
            rw (k, show_with)
              (
                refl,
                inr (
                  refl,
                  (
                    items,
                    refl,
                    keeps items (visit items f kids)
                        (visit-FitsAll load relpath t l s f kids items h k),
                  ),
                ),
              )
      ]

  descend-FitsAll :
      (i : ℕ) (go : Node → Node × Outcome) (items : Rows) (all : Nodes)
      → ((n : Node) → Fits load relpath n → Replaces (go n).0 n)
      → FitsAll load relpath items all
      → FitsAll load relpath items (descend i go all).0
  unfolding descend
  descend-FitsAll i go items all keeps h = elim (Option-cases (child_at i all)) [
    | inl e ↦ rw (e, descend) h
    | inr (n, e) ↦
        rw (e, descend)
          (set_child-FitsAll items all i (go n).0 n h e (keeps n (child_at-Fits items all i n h e)))
  ]

  pub show_node-Replaces :
      (root_base : Text) (path : List ℕ) (n : Node)
      → Fits load relpath n
      → Replaces (show_node load relpath root_base path n).0 n
  unfolding show_node
  show_node-Replaces root_base [] n h =
      show_with-Replaces (λ all. (all, threw)) n (λ items all f. f) h
  show_node-Replaces root_base (i ∷ []) n h =
      show_with-Replaces (show_last load relpath root_base i) n (show_last-FitsAll root_base i) h
  show_node-Replaces root_base (i ∷ j ∷ path) n h =
      show_with-Replaces (descend i (show_node load relpath root_base (j ∷ path))) n
        (λ items all f.
          descend-FitsAll i (show_node load relpath root_base (j ∷ path)) items all
            (show_node-Replaces root_base (j ∷ path)) f)
        h

  toggle_expand-cases :
      (t l : Text) (s : Source) (f : Flags) (kids : Nodes)
      → (toggle_expand load relpath (node t l s f kids)
          ≡ node t l s (record f { expanded = false; displayed = false }) kids)
        ⊎ (toggle_expand load relpath (node t l s f kids)
            ≡ expand_node load relpath (node t l s f kids))
  unfolding toggle_expand
  toggle_expand-cases t l s f kids = elim (Bool-cases f.expanded) [
    | inl e ↦ inl (ground (arith, e))
    | inr e ↦ inr (ground (arith, e))
  ]

  toggle_expand-Replaces :
      (n : Node) → Fits load relpath n → Replaces (toggle_expand load relpath n) n
  toggle_expand-Replaces (node t l s f kids) h = elim (toggle_expand-cases t l s f kids) [
    | inl e ↦
        rw e
          (refl, Fits-flags t l s f (record f { expanded = false; displayed = false }) kids refl h)
    | inr e ↦ rw e (expand_node-Replaces (node t l s f kids) h)
  ]

  Fits-set_child :
      (t l : Text) (s : Source) (f : Flags) (kids : Nodes) (i : ℕ) (n : Node) (change : Node → Node)
      → ((m : Node) → Fits load relpath m → Replaces (change m) m)
      → child_at i kids ≡ some n
      → Fits load relpath (node t l s f kids)
      → Fits load relpath (node t l s f (set_child i (change n) kids))
  Fits-set_child t l s f kids i n change keeps e (inl h) = inl h
  Fits-set_child t l s f kids i n change keeps e (inr (h, (items, k, all))) = inr (
    h,
    (
      items,
      k,
      set_child-FitsAll items kids i (change n) n all e
          (keeps n (child_at-Fits items kids i n all e)),
    ),
  )

  pub toggle_at-Replaces :
      (path : List ℕ) (n : Node) → Fits load relpath n → Replaces (toggle_at load relpath path n) n
  unfolding toggle_at
  toggle_at-Replaces [] n h = toggle_expand-Replaces n h
  toggle_at-Replaces (i ∷ path) (node t l s f kids) h = elim (Option-cases (child_at i kids)) [
    | inl e ↦ rw (e, toggle_at) (refl, h)
    | inr (n, e) ↦
        rw (e, toggle_at)
          (
            refl,
            Fits-set_child t l s f kids i n (toggle_at load relpath path) (toggle_at-Replaces path)
                e h,
          )
  ]
