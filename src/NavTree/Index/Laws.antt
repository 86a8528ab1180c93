-- ===== src/NavTree/Index/Laws.antt =====
-- Which script of the index `navTo` of docs/documentation/html/navtree.js asks for.
use com_client.Base.{
  ℕ, zero, suc, ◌≤◌, ◌<◌, ◌≡◌, Text, true, false, List, [], ◌∷◌, some, get_elem?, arith, Bool-cases,
  inl, inr, ◌↔◌,
}
use com_client.NavTree.Index.{text_leb, scan}

pub text_leb_trans :
    (s t u : Text) → text_leb s t ≡ true → text_leb t u ≡ true → text_leb s u ≡ true
unfolding text_leb
text_leb_trans [] t u h k = ground arith
text_leb_trans (a ∷ s) [] u h k = cc
text_leb_trans (a ∷ s) (b ∷ t) [] h k = cc
text_leb_trans (a ∷ s) (b ∷ t) (c ∷ u) h k = ground (arith, text_leb_trans s t u)

-- A table in which every address stands before the next one.
abbrev pub IsSorted : List Text → Type 0
IsSorted [] = Unit
IsSorted (a ∷ []) = Unit
IsSorted (a ∷ b ∷ l) = (text_leb a b ≡ true) × IsSorted (b ∷ l)

scan-below :
    (l : List Text) (url : Text) (j : ℕ) (t : Text)
    → get_elem? l j ≡ some t
    → j < scan l url
    → text_leb t url ≡ true
unfolding scan
scan-below [] url j t e h = cc
scan-below (a ∷ l) url zero t e h = ground arith
scan-below (a ∷ l) url (suc j) t e h = ground (arith, scan-below l url j t)

scan-stop :
    (l : List Text) (url t : Text) → get_elem? l (scan l url) ≡ some t → text_leb t url ≡ false
unfolding scan
scan-stop [] url t e = cc
scan-stop (a ∷ l) url t e = elim (Bool-cases (text_leb a url)) [
  | inl h ↦ ground (arith, scan-stop l url t)
  | inr h ↦ ground arith
]

head-below :
    (a : Text) (l : List Text) (j : ℕ) (t : Text)
    → IsSorted (a ∷ l)
    → get_elem? l j ≡ some t
    → text_leb a t ≡ true
head-below a [] j t s e = cc
head-below a (b ∷ l) zero t s e = ground arith
head-below a (b ∷ l) (suc j) t (h, s) e = text_leb_trans a b t h (head-below b l j t s e)

tail-IsSorted : (a : Text) (l : List Text) → IsSorted (a ∷ l) → IsSorted l
tail-IsSorted a [] s = s
tail-IsSorted a (b ∷ l) (h, s) = s

scan-above :
    (l : List Text) (url : Text) (j : ℕ) (t : Text)
    → IsSorted l
    → get_elem? l j ≡ some t
    → scan l url ≤ j
    → text_leb t url ≡ false
unfolding scan
scan-above [] url j t s e h = cc
scan-above (a ∷ l) url zero t s e h = ground arith
scan-above (a ∷ l) url (suc j) t s e h = elim (Bool-cases (text_leb a url)) [
  | inl k ↦ ground (arith, scan-above l url j t (tail-IsSorted a l s) e)
  | inr k ↦ elim (Bool-cases (text_leb t url)) [
    | inl m ↦ ground (arith, text_leb_trans a t url (head-below a l j t s e) m)
    | inr m ↦ m
  ]
]

-- In a table in ascending order, the scan of `navTo` passes exactly the addresses that are not
-- above the one it looks for.
pub scan-partition :
    (l : List Text) (url : Text) (j : ℕ) (t : Text)
    → IsSorted l
    → get_elem? l j ≡ some t
    → (j < scan l url) ↔ (text_leb t url ≡ true)
scan-partition l url j t s e =
    (scan-below l url j t e, λ h. ground (arith, scan-above l url j t s e))
