-- ===== src/Search/Results/Nav/Rounds.antt =====
-- The keys Up and Down of docs/documentation/html/search/search.js, from an element to the one below and back.
use com_client.Base.{
  ℕ, zero, suc, ◌<◌, true, false, List, [], ◌∷◌, Option, none, some, ◌≡◌, refl, ap, ◌∙◌, arith,
  drop, if◌then◌else◌, get_elem?, length,
}
use com_client.Search.Panel.{block}
use com_client.Search.Results.{Hit, Row, Page, Target, item, child, search_field}
use com_client.Search.Results.Nav.{
  Reply, returned, threw, keydown, process_keys, hits_of, hits_at, list_shown, nav_up, nav_down,
  nav_next, nav, nav_child, last_child,
}
use com_client.Search.Results.Nav.Focus.{nav_up-adjacent, last_child-eq, lt-length_of_get_elem?}

-- What is shown below what, with nothing in between: the links of a row whose list is open, and the
-- next row.
pub data IsJustBelow (p : Page) : Target → Target → Type 0 where
  first_link :
      (i : ℕ) (r : Row) (h : Hit) (hits : List Hit)
      → get_elem? p.rows i ≡ some r
      → list_shown r.id p ≡ true
      → hits_of r.body ≡ h ∷ hits
      → IsJustBelow p (item i) (child i 0)
  next_link :
      (i n : ℕ) (g h : Hit)
      → get_elem? (hits_at i p) n ≡ some g
      → get_elem? (hits_at i p) (suc n) ≡ some h
      → IsJustBelow p (child i n) (child i (suc n))
  next_row :
      (i : ℕ) (r s : Row)
      → get_elem? p.rows i ≡ some r
      → r.display ≡ block
      → list_shown r.id p ≡ false
      → get_elem? p.rows (suc i) ≡ some s
      → s.display ≡ block
      → IsJustBelow p (item i) (item (suc i))
  row_behind_list :
      (i : ℕ) (r s : Row) (h : Hit) (hits : List Hit)
      → get_elem? p.rows i ≡ some r
      → r.display ≡ block
      → list_shown r.id p ≡ true
      → hits_of r.body ≡ h ∷ hits
      → get_elem? p.rows (suc i) ≡ some s
      → s.display ≡ block
      → IsJustBelow p (child i (length hits)) (item (suc i))

focus_of : Reply → Option Target
focus_of (returned b p) = p.focus
focus_of (threw p) = none

-- Where a key that is pressed on an element puts the focus.
unfoldable pub focus_after : ℕ → Target → Page → Option Target
unfolding focus_of nav nav_child
focus_after key (item i) p = focus_of (nav keydown key i p)
focus_after key (child i n) p = focus_of (nav_child keydown key i n p)
focus_after key search_field p = none

up-row : (i : ℕ) (p : Page) → focus_after 38 (item i) p ≡ some (nav_up i p)
unfolding focus_after process_keys nav_up list_shown
up-row i p = refl

down-row :
    (i : ℕ) (r : Row) (t : Target) (p : Page)
    → get_elem? p.rows i ≡ some r
    → nav_down i r p ≡ some t
    → focus_after 40 (item i) p ≡ some t
unfolding focus_after process_keys nav_down list_shown
down-row i r t p at down = ground (arith, at, down)

up-link :
    (i n : ℕ) (g : Hit) (p : Page)
    → get_elem? (hits_at i p) n ≡ some g
    → focus_after 38 (child i (suc n)) p ≡ some (child i n)
unfolding focus_after process_keys
up-link i n g p at = ground (arith, at)

up-first_link :
    (i : ℕ) (p : Page) → i < length p.rows → focus_after 38 (child i 0) p ≡ some (item i)
unfolding focus_after process_keys
up-first_link i p h = ground (arith, h)

down-link :
    (i n : ℕ) (h : Hit) (p : Page)
    → get_elem? (hits_at i p) (suc n) ≡ some h
    → focus_after 40 (child i n) p ≡ some (child i (suc n))
unfolding focus_after process_keys
down-link i n h p at = ground (arith, at)

drop-get_elem? :
    (k : ℕ) (rows : List Row) (s : Row)
    → get_elem? rows k ≡ some s
    → drop k rows ≡ s ∷ drop (suc k) rows
drop-get_elem? zero (r ∷ rows) s e = ground (arith, e)
drop-get_elem? (suc k) (r ∷ rows) s e = drop-get_elem? k rows s e
drop-get_elem? k [] s e = cc

nav_next-visible :
    (k : ℕ) (rows : List Row) (s : Row)
    → get_elem? rows k ≡ some s
    → s.display ≡ block
    → nav_next k rows ≡ some k
unfolding nav_next
nav_next-visible k rows s at shown = ground (arith, drop-get_elem? k rows s at)

down-last_link :
    (i n : ℕ) (s : Row) (p : Page)
    → get_elem? (hits_at i p) (suc n) ≡ none
    → nav_next (suc i) p.rows ≡ some (suc i)
    → focus_after 40 (child i n) p ≡ some (item (suc i))
unfolding focus_after process_keys
down-last_link i n s p at next = ground (arith, at, next)

get_elem?-length : (hits : List Hit) → get_elem? hits (length hits) ≡ none
get_elem?-length [] = refl
get_elem?-length (h ∷ hits) = get_elem?-length hits

nav_down-first :
    (i : ℕ) (r : Row) (h : Hit) (hits : List Hit) (p : Page)
    → get_elem? p.rows i ≡ some r
    → list_shown r.id p ≡ true
    → hits_of r.body ≡ h ∷ hits
    → nav_down i r p ≡ some (child i 0)
unfolding nav_down
nav_down-first i r h hits p at shown listed = ground (arith, at, shown, listed)

nav_down-folded :
    (i : ℕ) (r : Row) (p : Page)
    → list_shown r.id p ≡ false
    → nav_next (suc i) p.rows ≡ some (suc i)
    → nav_down i r p ≡ some (item (suc i))
unfolding nav_down
nav_down-folded i r p folded next = ground (arith, folded, next)

-- Pressing Down on an element goes to what is shown just below it, and pressing Up there goes back. Just
-- below a row whose list is open is the list's first link, below a link the next one of its list, and below
-- the last link of a shown row with an open list, as below a shown row without one, the next row, if that
-- is shown.
pub down-up :
    (p : Page) (s t : Target)
    → IsJustBelow p s t
    → (focus_after 40 s p ≡ some t) × (focus_after 38 t p ≡ some s)
down-up p s t (first_link i r h hits at shown listed) = (
  down-row i r (child i 0) p at (nav_down-first i r h hits p at shown listed),
  up-first_link i p (lt-length_of_get_elem? p.rows i at),
)
down-up p s t (next_link i n g h this next) = (down-link i n h p next, up-link i n g p this)
down-up p s t (next_row i r s' at shown folded next visible) =
    let below = nav_next-visible (suc i) p.rows s' next visible in
    (
      down-row i r (item (suc i)) p at (nav_down-folded i r p folded below),
      up-row (suc i) p
          ∙ ap some (
              nav_up-adjacent p i at shown
              ∙ ap (λ b. if b then last_child i 0 (hits_of r.body) (item i) else item i) folded),
    )
down-up p s t (row_behind_list i r s' h hits at shown opened listed next visible) =
    let below = nav_next-visible (suc i) p.rows s' next visible in
    let listed_at : hits_at i p ≡ h ∷ hits = ground (arith, at, listed) in
    let last : get_elem? (hits_at i p) (suc (length hits)) ≡ none =
      ap (λ l. get_elem? l (suc (length hits))) listed_at ∙ get_elem?-length hits in
    (
      down-last_link i (length hits) s' p last below,
      up-row (suc i) p
          ∙ ap some (
              nav_up-adjacent p i at shown
              ∙ ap (λ b. if b then last_child i 0 (hits_of r.body) (item i) else item i) opened
              ∙ ap (λ l. last_child i 0 l (item i)) listed
              ∙ last_child-eq i 0 h hits (item i)
              ∙ ap (child i) (omega arith)),
    )
