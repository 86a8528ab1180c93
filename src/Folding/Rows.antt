-- ===== src/Folding/Rows.antt =====
-- What docs/documentation/html/dynsections.js does to the rows of the table of directories.
use com_client.Base.{
  ℕ, zero, suc, ◌+◌, ◌≡◌, refl, ap, ◌∙◌, ◌≢◌, Text, codes, Bool, true, false, not, ◌&&◌, ◌||◌, List,
  [], ◌∷◌, ◌++◌, map, if◌then◌else◌, leb, some, get_elem?, take, arith, All, text_eq, text_eq_refl,
  text_eq→eq, Bool-cases, inl, inr,
}
use com_client.Folding.{
  Row, Icon, arrow_down, arrow_right, stripe, update_stripes, row_level, set_icon, set_arrow,
  level_row, toggle_level, is_child, is_under, first_child_visible, hide_under, show_child,
  close_icon, open_icon, fold_here, fold_from, toggle_folder,
}

abbrev pub shown : List Row → List Bool
shown rows = map (λ r. r.visible) rows

stripe-shown : (even : Bool) (rows : List Row) → shown (stripe even rows) ≡ shown rows
unfolding stripe
stripe-shown even [] = refl
stripe-shown even (r ∷ rest) = ground (arith, stripe-shown (not even) rest, stripe-shown even rest)

pub count_shown : List Row → ℕ
count_shown [] = 0
count_shown (r ∷ rest) = let n = count_shown rest in if r.visible then suc n else n

pub is_even : ℕ → Bool
is_even zero = true
is_even (suc n) = not (is_even n)

set_icon-visible : (i : Icon) (r : Row) → (set_icon i r).visible ≡ r.visible
set_icon-visible i r = ground arith

level_row-visible :
    (level : ℕ) (r : Row) → (level_row level r).visible ≡ leb (row_level r.id) (level + 1)
unfolding level_row
level_row-visible level r = ground arith

levels-shown :
    (level : ℕ) (rows : List Row)
    → shown (map (level_row level) rows) ≡ map (λ r. leb (row_level r.id) (level + 1)) rows
levels-shown level [] = refl
levels-shown level (r ∷ rest) = rw (level_row-visible level r, levels-shown level rest) refl

-- After `toggleLevel(level)` exactly the rows show that are at most one level deeper.
pub toggle_level-shown :
    (level : ℕ) (rows : List Row)
    → shown (toggle_level level rows) ≡ map (λ r. leb (row_level r.id) (level + 1)) rows
unfolding toggle_level update_stripes
toggle_level-shown level rows =
    stripe-shown true (map (level_row level) rows) ∙ levels-shown level rows

hide_under-visible :
    (id : Text) (r : Row) → (hide_under id r).visible ≡ r.visible && not (is_under id r)
unfolding hide_under
hide_under-visible id r = ground arith

show_child-visible : (id : Text) (r : Row) → (show_child id r).visible ≡ r.visible || is_child id r
unfolding show_child
show_child-visible id r = ground arith

-- Whether a row behind the folder shows after the click.
abbrev pub after_click : Text → Bool → Row → Bool
after_click id folding r =
    if folding then r.visible && not (is_under id r) else r.visible || is_child id r

hidden-shown :
    (id : Text) (rows : List Row)
    → shown (map (hide_under id) rows) ≡ map (after_click id true) rows
hidden-shown id [] = refl
hidden-shown id (r ∷ rest) = rw (hide_under-visible id r, hidden-shown id rest) refl

children-shown :
    (id : Text) (rows : List Row)
    → shown (map (show_child id) rows) ≡ map (after_click id false) rows
children-shown id [] = refl
children-shown id (r ∷ rest) = rw (show_child-visible id r, children-shown id rest) refl

closed-visible : (r : Row) → (set_arrow arrow_right (close_icon r)).visible ≡ r.visible
closed-visible r = ground arith

opened-visible : (r : Row) → (set_arrow arrow_down (open_icon r)).visible ≡ r.visible
opened-visible r = ground arith

fold_here-shown :
    (id : Text) (r : Row) (rest : List Row)
    → shown (fold_here id r rest)
      ≡ r.visible ∷ map (after_click id (first_child_visible id rest)) rest
unfolding fold_here
fold_here-shown id r rest = elim (Bool-cases (first_child_visible id rest)) [
  | inl e ↦ rw (e, fold_here) (rw (closed-visible r, hidden-shown id rest) refl)
  | inr e ↦ rw (e, fold_here) (rw (opened-visible r, children-shown id rest) refl)
]

fold_from-shown :
    (id : Text) (before : List Row) (r : Row) (rest : List Row)
    → All (λ s. s.id ≢ codes "row_" ++ id) before
    → r.id ≡ codes "row_" ++ id
    → shown (fold_from id (before ++ r ∷ rest))
      ≡ shown before ++ r.visible ∷ map (after_click id (first_child_visible id rest)) rest
unfolding fold_from
fold_from-shown id [] r rest h e =
    let here : text_eq r.id (codes "row_" ++ id) ≡ true =
      rw e (text_eq_refl (codes "row_" ++ id)) in
    rw here (fold_here-shown id r rest)
fold_from-shown id (s ∷ before) r rest (h, hs) e =
    elim (Bool-cases (text_eq s.id (codes "row_" ++ id))) [
      | inl k ↦ absurd (h (text_eq→eq s.id (codes "row_" ++ id) k))
      | inr k ↦ rw k (ap (λ l. s.visible ∷ l) (fold_from-shown id before r rest hs e))
    ]

-- A click on a folder, which is the first row of its id: the rows before it and its own stay as they
-- show. If the first of its children shows, the rows behind it that are under it are hidden; if not, its
-- children are shown; all other rows stay.
pub toggle_folder-shown :
    (id : Text) (before : List Row) (r : Row) (rest : List Row)
    → All (λ s. s.id ≢ codes "row_" ++ id) before
    → r.id ≡ codes "row_" ++ id
    → shown (toggle_folder id (before ++ r ∷ rest))
      ≡ shown before ++ r.visible ∷ map (after_click id (first_child_visible id rest)) rest
unfolding toggle_folder update_stripes
toggle_folder-shown id before r rest h e =
    stripe-shown true (fold_from id (before ++ r ∷ rest)) ∙ fold_from-shown id before r rest h e

stripes-alternate :
    (even : Bool) (rows : List Row) (i : ℕ) (r : Row)
    → get_elem? (stripe even rows) i ≡ some r
    → r.even
      ≡ r.visible
        && (if even
            then is_even (count_shown (take i rows))
            else not (is_even (count_shown (take i rows))))
unfolding stripe count_shown is_even
stripes-alternate even [] i r e = cc
stripes-alternate even (s ∷ rest) zero r e = ground arith
stripes-alternate even (s ∷ rest) (suc i) r e =
    ground (arith, stripes-alternate (not even) rest i r, stripes-alternate even rest i r)

-- After `updateStripes` a row has the class `even` exactly if it shows and an even number of rows shows
-- before it.
pub update_stripes-even :
    (rows : List Row) (i : ℕ) (r : Row)
    → get_elem? (update_stripes rows) i ≡ some r
    → r.even ≡ r.visible && is_even (count_shown (take i rows))
unfolding update_stripes
update_stripes-even rows i r e = stripes-alternate true rows i r e
