-- ===== src/NavTree/Site/Follow.antt =====
-- Breadcrumbs followed through the generated data of docs/documentation/html/, without a tree on a page.
use com_client.Base.{
  ℕ, ◌≡◌, ◌≢◌, refl, sym, ap, ◌∙◌, Text, List, [], ◌∷◌, ◌++◌, Option, none, some, Option-cases, inl,
  inr, drop-length_append, arith,
}
use com_client.NavTree.Paths.{data_name}
use com_client.NavTree.Tree.{
  Source, leaf, script, rows, Rows, Resolved, no_children, waiting, ready, resolve,
}
use com_client.NavTree.Tree.Laws.{Entry, row_at, Leads, Resolved-cases}
use com_client.NavTree.Site.{site_rows, load_site}

unfoldable pub resolve_site : Source → Resolved
unfolding site_rows data_name
resolve_site leaf = no_children
resolve_site (script name) = elim (site_rows name (data_name name)) [
  | none ↦ waiting
  | some items ↦ ready items
]
resolve_site (rows items) = ready items

abbrev pub children_of : Resolved → Rows
children_of (ready items) = items
children_of _ = Rows.no_rows

-- The row that a breadcrumb names.
unfoldable pub row_below : ℕ → Source → Option Entry
unfolding resolve_site
row_below i s = elim (resolve_site s) [ ready items ↦ row_at i items | _ ↦ none ]

-- A row whose own children can be loaded, if it has any.
unfoldable pub reachable_row : Entry → Option Entry
unfolding resolve_site
reachable_row r = elim (resolve_site r.2) [ waiting ↦ none | _ ↦ some r ]

-- The row at the end of the breadcrumbs.
unfoldable pub ends_at : List ℕ → Source → Option Entry
unfolding row_below reachable_row
ends_at [] s = none
ends_at (i ∷ []) s = elim (row_below i s) [ none ↦ none | some r ↦ reachable_row r ]
ends_at (i ∷ j ∷ path) s = elim (row_below i s) [ none ↦ none | some r ↦ ends_at (j ∷ path) r.2 ]

row_below-ready :
    (i : ℕ) (s : Source) (r : Entry)
    → row_below i s ≡ some r
    → (items : Rows) × (resolve_site s ≡ ready items) × (row_at i items ≡ some r)
unfolding row_below
row_below-ready i s r e = elim (Resolved-cases (resolve_site s)) [
  | inl k ↦ absurd (ground (arith, k))
  | inr (inl k) ↦ absurd (ground (arith, k))
  | inr (inr (items, k)) ↦ (items, k, ground (arith, k))
]

reachable_row-loads :
    (r q : Entry) → reachable_row r ≡ some q → (resolve_site r.2 ≢ waiting) × (r ≡ q)
unfolding reachable_row
reachable_row-loads r q e = elim (Resolved-cases (resolve_site r.2)) [
  | inl k ↦ (λ w. ground (arith, k, w), ground (arith, k))
  | inr (inl k) ↦ absurd (ground (arith, k))
  | inr (inr (items, k)) ↦ (λ w. ground (arith, k, w), ground (arith, k))
]

load_site-found :
    (relpath name variable : Text)
    → load_site relpath (relpath ++ name) variable ≡ site_rows name variable
unfolding load_site
load_site-found relpath name variable =
    ap (λ path. site_rows path variable) (drop-length_append relpath name)

module _ (relpath : Text) where
  resolve-load_site : (s : Source) → resolve (load_site relpath) relpath s ≡ resolve_site s
  unfolding resolve resolve_site
  resolve-load_site leaf = refl
  resolve-load_site (script name) = rw (load_site-found relpath name (data_name name), resolve) refl
  resolve-load_site (rows items) = refl

  -- What the data leads to, a page's loader leads to.
  pub ends_at-Leads :
      (path : List ℕ) (s : Source) (r : Entry)
      → ends_at path s ≡ some r
      → Leads (load_site relpath) relpath s path r.0 r.1
  unfolding ends_at
  ends_at-Leads [] s r e = cc
  ends_at-Leads (i ∷ []) s r e = elim (Option-cases (row_below i s)) [
    | inl k ↦ absurd (ground (arith, k))
    | inr (q, k) ↦
        let (items, here, at) = row_below-ready i s q k in
        let (comes, same) = reachable_row-loads q r (ground (arith, k)) in
        (
          items,
          resolve-load_site s ∙ here,
          (
            r.2,
            at ∙ ap some same,
            λ w. comes (ap (λ x. resolve_site x.2) same ∙ sym (resolve-load_site r.2) ∙ w),
          ),
        )
  ]
  ends_at-Leads (i ∷ j ∷ path) s r e = elim (Option-cases (row_below i s)) [
    | inl k ↦ absurd (ground (arith, k))
    | inr (q, k) ↦
        let (items, here, at) = row_below-ready i s q k in
        (
          items,
          resolve-load_site s ∙ here,
          (q, at, ends_at-Leads (j ∷ path) q.2 r (ground (arith, k))),
        )
  ]
