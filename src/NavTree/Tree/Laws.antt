-- ===== src/NavTree/Tree/Laws.antt =====
-- `showNode` of docs/documentation/html/navtree.js along the breadcrumbs.
use com_client.Base.{
  ℕ, zero, suc, ◌≡◌, refl, sym, ap, ◌∙◌, Text, true, false, List, [], ◌∷◌, Option, none, some,
  arith, ◌⊎◌, ◌≢◌, inl, inr,
}
use com_client.NavTree.Tree.{
  Source, leaf, rows, Rows, no_rows, row, Flags, Node, node, Nodes, nil, cons, source_of, flags_of,
  text_of, link_of, expand_node, open_rows, kids_of, child_at, set_child, new_node, get_node, visit,
  Loader, Resolved, no_children, waiting, ready, resolve, settle, Outcome, selected, under,
  show_last, descend, show_with, show_node,
}

-- A row: its text, its link, and its `childrenData`.
abbrev pub Entry : Type 0
Entry = Text × Text × Source

abbrev pub row_at : ℕ → Rows → Option Entry
row_at i no_rows = none
row_at zero (row t l s rest) = some (t, l, s)
row_at (suc i) (row t l s rest) = row_at i rest

pub Resolved-cases :
    (r : Resolved) → (r ≡ no_children) ⊎ (r ≡ waiting) ⊎ ((items : Rows) × (r ≡ ready items))
Resolved-cases no_children = inl refl
Resolved-cases waiting = inr (inl refl)
Resolved-cases (ready items) = inr (inr (items, refl))

module _ (load : Loader) (relpath : Text) where
  -- What a node shows of the data, and what a row has: the text, the link, and what comes below.
  abbrev pub view : Node → Text × Text × Resolved
  view (node t l s f kids) = (t, l, resolve load relpath s)

  abbrev pub view_row : Entry → Text × Text × Resolved
  view_row r = (r.0, r.1, resolve load relpath r.2)

  -- The children were made from the rows, once the node was visited.
  abbrev mutual
    pub Fits : Node → Type 0
    Fits (node t l s f kids) =
        (f.visited ≡ false)
        ⊎ ((f.visited ≡ true)
            × ((items : Rows) × (resolve load relpath s ≡ ready items) × FitsAll items kids))

    pub FitsAll : Rows → Nodes → Type 0
    FitsAll no_rows nil = Unit
    FitsAll (row t l s rest) (cons n ns) = (view n ≡ view_row (t, l, s)) × Fits n × FitsAll rest ns
    FitsAll no_rows (cons n ns) = ⊥
    FitsAll (row t l s rest) nil = ⊥

  get_node-FitsAll : (items : Rows) → FitsAll items (get_node items)
  unfolding get_node new_node
  get_node-FitsAll no_rows = tt
  get_node-FitsAll (row t l s rest) = (refl, inl refl, get_node-FitsAll rest)

  some-inj : {a b : Entry} → some a ≡ some b → a ≡ b
  some-inj e = cc

  ready-inj : {a b : Rows} → ready a ≡ ready b → a ≡ b
  ready-inj e = cc

  pub visit-FitsAll :
      (t l : Text) (s : Source) (f : Flags) (kids : Nodes) (items : Rows)
      → Fits (node t l s f kids)
      → resolve load relpath s ≡ ready items
      → FitsAll items (visit items f kids)
  unfolding visit
  visit-FitsAll t l s f kids items (inl h) e = rw h (get_node-FitsAll items)
  visit-FitsAll t l s f kids items (inr (h, (other, e', all))) e =
      let same : other ≡ items = ready-inj (sym e' ∙ e) in rw h (rw (sym same) all)

  child_at-FitsAll :
      (items : Rows) (kids : Nodes) (i : ℕ) (s : Entry)
      → FitsAll items kids
      → row_at i items ≡ some s
      → (n : Node) × (child_at i kids ≡ some n) × (view n ≡ view_row s) × Fits n
  child_at-FitsAll no_rows nil i s h e = cc
  child_at-FitsAll no_rows (cons n ns) i s h e = absurd h
  child_at-FitsAll (row t l r rest) nil i s h e = absurd h
  child_at-FitsAll (row t l r rest) (cons n ns) zero s (same, fits, h) e =
      let eq : (t, l, r) ≡ s = some-inj e in (n, refl, same ∙ ap view_row eq, fits)
  child_at-FitsAll (row t l r rest) (cons n ns) (suc i) s (same, fits, h) e =
      child_at-FitsAll rest ns i s h e

  child_at-set_child :
      (i : ℕ) (m n : Node) (kids : Nodes)
      → child_at i kids ≡ some n
      → child_at i (set_child i m kids) ≡ some m
  child_at-set_child i m n nil e = cc
  child_at-set_child zero m n (cons k ks) e = refl
  child_at-set_child (suc i) m n (cons k ks) e = child_at-set_child i m n ks e

  -- The breadcrumbs lead through the data to a row with this text and link: each names a row of what the
  -- one before it has, and what the last one names does not wait for a script that never comes.
  abbrev pub Leads : Source → List ℕ → Text → Text → Type 0
  Leads s [] text link = ⊥
  Leads s (i ∷ []) text link =
      (items : Rows) × (resolve load relpath s ≡ ready items)
      × ((r : Source) × (row_at i items ≡ some (text, link, r))
          × (resolve load relpath r ≢ waiting))
  Leads s (i ∷ j ∷ path) text link =
      (items : Rows) × (resolve load relpath s ≡ ready items)
      × ((r : Entry) × (row_at i items ≡ some r) × Leads r.2 (j ∷ path) text link)

  -- Every node on the way is expanded and its children are displayed, up to the last one, which has this
  -- text and link.
  abbrev pub IsOpen : List ℕ → Text → Text → Node → Type 0
  IsOpen [] text link n = (text_of n ≡ text) × (link_of n ≡ link)
  IsOpen (i ∷ path) text link n =
      ((flags_of n).expanded ≡ true)
      × ((flags_of n).displayed ≡ true)
      × ((m : Node) × (child_at i (kids_of n) ≡ some m) × IsOpen path text link m)

  pub resolve-view :
      (n : Node) (r : Entry)
      → view n ≡ view_row r
      → resolve load relpath (source_of n) ≡ resolve load relpath r.2
  resolve-view (node t l s f kids) r e = ap (λ v. v.2) e

  names-view : (n : Node) (r : Entry) → view n ≡ view_row r → (text_of n ≡ r.0) × (link_of n ≡ r.1)
  names-view (node t l s f kids) r e = (ap (λ v. v.0) e, ap (λ v. v.1) e)

  pub Leads-resolve :
      (s r : Source) (path : List ℕ) (text link : Text)
      → resolve load relpath s ≡ resolve load relpath r
      → Leads r path text link
      → Leads s path text link
  Leads-resolve s r [] text link e h = h
  Leads-resolve s r (i ∷ []) text link e (items, k, rest) = (items, e ∙ k, rest)
  Leads-resolve s r (i ∷ j ∷ path) text link e (items, k, rest) = (items, e ∙ k, rest)

  settle-names :
      (root_base : Text) (s : Source) (n : Node)
      → (text_of (settle load relpath root_base s n) ≡ text_of n)
        × (link_of (settle load relpath root_base s n) ≡ link_of n)
  unfolding settle expand_node open_rows
  settle-names root_base s (node t l r f kids) = ground arith

  pub show_with-ready :
      (go_on : Nodes → Nodes × Outcome) (t l : Text) (s : Source) (f : Flags) (kids : Nodes)
      (items : Rows)
      → resolve load relpath s ≡ ready items
      → show_with load relpath go_on (node t l s f kids) ≡ (
        node t l
            (rows items)
            (record { expanded = true; visited = true; displayed = true })
            (go_on (visit items f kids)).0,
        (go_on (visit items f kids)).1,
      )
  unfolding show_with
  show_with-ready go_on t l s f kids items e = rw (e, show_with) refl

  show_last-found :
      (root_base : Text) (i : ℕ) (all : Nodes) (n : Node)
      → child_at i all ≡ some n
      → resolve load relpath (source_of n) ≢ waiting
      → (m : Node) × (show_last load relpath root_base i all
          ≡ (set_child i m all, selected (i ∷ [])))
        × ((text_of m ≡ text_of n) × (link_of m ≡ link_of n))
  unfolding show_last
  show_last-found root_base i all n at comes =
      elim (Resolved-cases (resolve load relpath (source_of n))) [
        | inl e ↦ (
          settle load relpath root_base leaf n,
          ground (arith, at, e),
          settle-names root_base leaf n,
        )
        | inr (inl e) ↦ absurd (comes e)
        | inr (inr (items, e)) ↦ (
          settle load relpath root_base (rows items) n,
          ground (arith, at, e),
          settle-names root_base (rows items) n,
        )
      ]

  descend-found :
      (i : ℕ) (show : Node → Node × Outcome) (all : Nodes) (n : Node)
      → child_at i all ≡ some n
      → descend i show all ≡ (set_child i (show n).0 all, under i (show n).1)
  unfolding descend
  descend-found i show all n e = rw (e, descend) refl

  -- Breadcrumbs that lead through the data, from a node whose children were made from it: `showNode` selects the
  -- node at their end, and expands and displays every node on the way to it.
  pub show_node-selects :
      (root_base : Text) (path : List ℕ) (text link : Text) (n : Node)
      → Fits n
      → Leads (source_of n) path text link
      → ((show_node load relpath root_base path n).1 ≡ selected path)
        × IsOpen path text link (show_node load relpath root_base path n).0
  unfolding show_node
  show_node-selects root_base [] text link n h leads = absurd leads
  show_node-selects root_base (i ∷ []) text link (node t l s f kids) h (items, e, (r, at, comes)) =
      let all = visit-FitsAll t l s f kids items h e in
      let (n, here, same, fits) =
        child_at-FitsAll items (visit items f kids) i (text, link, r) all at in
      let known = resolve-view n (text, link, r) same in
      let (m, last, (its_text, its_link)) =
        show_last-found root_base i (visit items f kids) n here (λ w. comes (sym known ∙ w)) in
      let (named, linked) = names-view n (text, link, r) same in
      rw (show_with-ready (show_last load relpath root_base i) t l s f kids items e) (
        rw last (
          refl,
          (
            refl,
            refl,
            (
              m,
              child_at-set_child i m n (visit items f kids) here,
              (its_text ∙ named, its_link ∙ linked),
            ),
          ),
        ))
  show_node-selects root_base (i ∷ j ∷ path) text link (node t l s f kids) h
        (items, e, (r, at, rest)) =
      let all = visit-FitsAll t l s f kids items h e in
      let (n, here, same, fits) = child_at-FitsAll items (visit items f kids) i r all at in
      let (chosen, opened) =
        show_node-selects root_base (j ∷ path) text link n fits
          (Leads-resolve (source_of n) r.2 (j ∷ path) text link (resolve-view n r same) rest) in
      let shown = show_node load relpath root_base (j ∷ path) n in
      let next : descend i (show_node load relpath root_base (j ∷ path)) (visit items f kids)
          ≡ (set_child i shown.0 (visit items f kids), under i shown.1) =
        descend-found i (show_node load relpath root_base (j ∷ path)) (visit items f kids) n here in
      rw
        (show_with-ready (descend i (show_node load relpath root_base (j ∷ path))) t l s f kids
          items e)
        (rw next (
          ap (λ o. under i o) chosen,
          (refl, refl, (shown.0, child_at-set_child i shown.0 n (visit items f kids) here, opened)),
        ))
