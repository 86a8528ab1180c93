-- ===== src/Search/Results/Nav/Rows.antt =====
-- The rows that `NavNext` and `NavPrev` of docs/documentation/html/search/search.js find.
use com_client.Base.{
  ℕ, zero, suc, ◌+◌, ◌≤◌, ◌<◌, true, false, List, [], ◌∷◌, none, some, ◌≡◌, refl, sym, ap, ◌∙◌, ◌-◌,
  ◌≢◌, arith, get_elem?, drop, length, Bool-cases, Option-cases, inl, inr,
}
use com_client.Search.Panel.{Display, block, is_block}
use com_client.Search.Results.{Row}
use com_client.Search.Results.Nav.{nav_from, nav_next, nav_prev}

-- Row `i` is in the list and visible.
abbrev pub IsVisible : ℕ → List Row → Type 0
IsVisible i rows = (r : Row) × (get_elem? rows i ≡ some r) × (r.display ≡ block)

block_of_is_block : (d : Display) → is_block d ≡ true → d ≡ block
block_of_is_block d h = ground arith

get_elem?-drop {ℓ} :
    {A : Type ℓ} (i k : ℕ) (xs : List A) → get_elem? (drop i xs) k ≡ get_elem? xs (i + k)
get_elem?-drop zero k xs = ground arith
get_elem?-drop (suc i) k [] = refl
get_elem?-drop (suc i) k (x ∷ xs) = ground (arith, get_elem?-drop i k xs)

nav_from-nearest :
    (i k : ℕ) (rows : List Row)
    → IsVisible k rows
    → (j : ℕ) × (nav_from i rows ≡ some (i + j)) × (j ≤ k) × IsVisible j rows
unfolding nav_from
nav_from-nearest i k [] (s, e, d) = cc
nav_from-nearest i zero (r ∷ rows) (s, e, d) = (0, ground arith, omega arith, (s, e, d))
nav_from-nearest i (suc k) (r ∷ rows) v = elim (Bool-cases (is_block r.display)) [
  | inl shown ↦ (0, ground arith, omega arith, (r, refl, block_of_is_block r.display shown))
  | inr other ↦
      let (j, e, le, there) = nav_from-nearest (suc i) k rows v in
      (suc j, ground arith, omega arith, there)
]

-- If row `m` is visible and not before row `i`, `NavNext` finds a visible row from `i` to `m`.
pub nav_next-nearest :
    (i m : ℕ) (rows : List Row)
    → i ≤ m
    → IsVisible m rows
    → (j : ℕ) × (nav_next i rows ≡ some j) × (i ≤ j) × (j ≤ m) × IsVisible j rows
unfolding nav_next
nav_next-nearest i m rows h (r, there, shown) =
    let later : IsVisible (m - i) (drop i rows) =
      (r, get_elem?-drop i (m - i) rows ∙ ap (get_elem? rows) (omega arith) ∙ there, shown) in
    let (k, e, le, (s, at, vis)) = nav_from-nearest i (m - i) (drop i rows) later in
    (i + k, e, omega arith, omega arith, (s, sym (get_elem?-drop i k rows) ∙ at, vis))

-- What `NavNext` finds is visible and not before row `i`.
nav_from_sound :
    (i : ℕ) (rows : List Row) (j : ℕ)
    → nav_from i rows ≡ some j
    → (k : ℕ) × (j ≡ i + k) × IsVisible k rows
unfolding nav_from
nav_from_sound i [] j e = cc
nav_from_sound i (r ∷ rows) j e = elim (Bool-cases (is_block r.display)) [
  | inl shown ↦ (0, ground arith, (r, refl, block_of_is_block r.display shown))
  | inr hidden ↦
      let (k, e', v) = nav_from_sound (suc i) rows j (ground arith) in (suc k, omega arith, v)
]

pub nav_next_sound :
    (i : ℕ) (rows : List Row) {j : ℕ} → nav_next i rows ≡ some j → (i ≤ j) × IsVisible j rows
unfolding nav_next
nav_next_sound i rows {j} e =
    let (k, same, (s, at, vis)) = nav_from_sound i (drop i rows) j e in
    (omega arith, (s, ap (get_elem? rows) same ∙ sym (get_elem?-drop i k rows) ∙ at, vis))

length-le_of_get_elem? : (rows : List Row) (i : ℕ) → get_elem? rows i ≡ none → length rows ≤ i
length-le_of_get_elem? [] i e = omega arith
length-le_of_get_elem? (r ∷ rows) zero e = cc
length-le_of_get_elem? (r ∷ rows) (suc i) e = omega (arith, length-le_of_get_elem? rows i e)

IsVisible-ne :
    (i m : ℕ) (rows : List Row) {r : Row}
    → get_elem? rows i ≡ some r
    → is_block r.display ≡ false
    → IsVisible m rows
    → m ≢ i
IsVisible-ne i m rows at other (s, there, shown) e =
    let same = sym at ∙ ap (get_elem? rows) (sym e) ∙ there in ground arith

-- If row `m` is visible and before `i`, which is at most the number of rows, `NavPrev` finds a
-- visible row from `m` on and before `i`.
pub nav_prev-nearest :
    (i m : ℕ) (rows : List Row)
    → m < i
    → i ≤ length rows
    → IsVisible m rows
    → (j : ℕ) × (nav_prev i rows ≡ some j) × (m ≤ j) × (j < i) × IsVisible j rows
unfolding nav_prev
nav_prev-nearest zero m rows h k v = absurd (omega arith)
nav_prev-nearest (suc i) m rows h k v = elim (Option-cases (get_elem? rows i)) [
  | inl gone ↦ absurd (omega (arith, length-le_of_get_elem? rows i gone))
  | inr (r, at) ↦ elim (Bool-cases (is_block r.display)) [
    | inl shown ↦
        (i, ground arith, omega arith, omega arith, (r, at, block_of_is_block r.display shown))
    | inr other ↦
        let before : m < i = omega (arith, IsVisible-ne i m rows at other v) in
        let (j, e, le, lt, there) = nav_prev-nearest i m rows before (omega arith) v in
        (j, ground arith, le, omega arith, there)
  ]
]

pub nav_prev_sound :
    (i : ℕ) (rows : List Row) {j : ℕ} → nav_prev i rows ≡ some j → (j < i) × IsVisible j rows
unfolding nav_prev
nav_prev_sound zero rows e = cc
nav_prev_sound (suc i) rows {j} e = elim (Option-cases (get_elem? rows i)) [
  | inl gone ↦ ground arith
  | inr (r, at) ↦ elim (Bool-cases (is_block r.display)) [
    | inl shown ↦
        let same : i ≡ j = ground arith in
        (omega arith, (r, rw (← same) at, block_of_is_block r.display shown))
    | inr other ↦ let (lt, v) = nav_prev_sound i rows {j = j} (ground arith) in (omega arith, v)
  ]
]
