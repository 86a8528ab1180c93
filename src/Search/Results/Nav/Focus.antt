-- ===== src/Search/Results/Nav/Focus.antt =====
-- Where `Nav` of docs/documentation/html/search/search.js puts the focus.
use com_client.Base.{
  ℕ, zero, suc, ◌+◌, ◌<◌, true, List, [], ◌∷◌, if◌then◌else◌, none, some, ◌≡◌, refl, ap, ◌∙◌, ◌≢◌,
  arith, get_elem?, length, inl, inr, Option-cases, Bool-cases,
}
use com_client.Search.Panel.{block}
use com_client.Search.Results.{Hit, Row, Page, Target, item, child, search_field}
use com_client.Search.Results.Nav.{
  hits_of, list_shown, nav_prev, nav_next, nav_up, nav_down, last_child, child_at, first_or_next,
}
use com_client.Search.Results.Nav.Rows.{IsVisible, nav_prev-nearest, nav_next_sound}

pub last_child-eq :
    (i n : ℕ) (h : Hit) (hits : List Hit) (t : Target)
    → last_child i n (h ∷ hits) t ≡ child i (n + length hits)
unfolding last_child
last_child-eq i n h [] t = ground arith
last_child-eq i n h (g ∷ hits) t =
    last_child-eq i (suc n) g hits (child i n) ∙ ap (child i) (omega arith)

pub lt-length_of_get_elem? :
    (rows : List Row) (i : ℕ) {r : Row} → get_elem? rows i ≡ some r → i < length rows
lt-length_of_get_elem? [] i e = cc
lt-length_of_get_elem? (r ∷ rows) zero e = omega arith
lt-length_of_get_elem? (r ∷ rows) (suc i) e = omega (arith, lt-length_of_get_elem? rows i e)

module _ (p : Page) where
  -- If the row before is visible, Up goes to the last link of its list, if that is open, or else to
  -- the row.
  pub nav_up-adjacent :
      (k : ℕ) {r : Row}
      → get_elem? p.rows k ≡ some r
      → r.display ≡ block
      → nav_up (suc k) p
        ≡ (if list_shown r.id p then last_child k 0 (hits_of r.body) (item k) else item k)
  unfolding nav_up nav_prev
  nav_up-adjacent k there shown = ground arith

  -- If the row just before is hidden and has links, and the visible row that `NavPrev` finds before
  -- it has its list open, Up goes to the last link of the hidden row.
  pub nav_up-wrong_list :
      (k j : ℕ) (r s : Row) (h : Hit) (hits : List Hit)
      → nav_prev (suc k) p.rows ≡ some j
      → j ≢ k
      → get_elem? p.rows j ≡ some r
      → list_shown r.id p ≡ true
      → get_elem? p.rows k ≡ some s
      → hits_of s.body ≡ h ∷ hits
      → (nav_up (suc k) p ≡ child k (length hits)) × (s.display ≢ block)
  unfolding nav_up
  nav_up-wrong_list k j r s h hits found far at opened there listed = (
    ground (arith, last_child-eq k 0 h hits (item j)),
    λ e.
        let (m, found', le, lt, v) =
          nav_prev-nearest (suc k) k p.rows (omega arith) (lt-length_of_get_elem? p.rows k there)
            (s, there, e) in
        let same : m ≡ j = ground arith in far (omega arith),
  )

  -- The first link of the row's list, or a visible row behind the row.
  abbrev pub IsBelow : ℕ → Target → Type 0
  IsBelow i (item j) = (i < j) × IsVisible j p.rows
  IsBelow i (child j n) = (j ≡ i) × (n ≡ 0)
  IsBelow i search_field = ⊥

  child_at-eq : (i n : ℕ) {t : Target} → child_at i n p ≡ some t → t ≡ child i n
  unfolding child_at
  child_at-eq i n e = ground arith

  next-IsBelow : (i : ℕ) (t : Target) → first_or_next (i + 1) p none ≡ some t → IsBelow i t
  next-IsBelow i t e = elim (Option-cases (nav_next (i + 1) p.rows)) [
    | inl none_found ↦ absurd (ground arith)
    | inr (j, found) ↦
        let (le, v) = nav_next_sound (i + 1) p.rows found in
        let same : t ≡ item j = ground arith in rw same (omega arith, v)
  ]

  -- Where Down goes on from a row, it is to the first link of the row's own list or to a visible
  -- row behind it.
  pub nav_down-IsBelow : (i : ℕ) (r : Row) (t : Target) → nav_down i r p ≡ some t → IsBelow i t
  unfolding nav_down
  nav_down-IsBelow i r t e = elim (Bool-cases (list_shown r.id p)) [
    | inl opened ↦ elim (Option-cases (child_at i 0 p)) [
      | inl empty ↦ next-IsBelow i t (ground arith)
      | inr (u, first) ↦
          let same : t ≡ child i 0 = ground (arith, child_at-eq i 0 first) in rw same (refl, refl)
    ]
    | inr folded ↦ next-IsBelow i t (ground arith)
  ]
