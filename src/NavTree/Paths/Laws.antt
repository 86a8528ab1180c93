-- ===== src/NavTree/Paths/Laws.antt =====
-- What the address helpers of docs/documentation/html/navtree.js give.
use com_client.Base.{
  ℕ, suc, ◌+◌, ◌-◌, ◌≡◌, refl, sym, ap, ◌∙◌, ◌≢◌, Text, true, List, [], ◌∷◌, ◌++◌, if◌then◌else◌,
  ◌==◌, Option, none, some, Option-cases, Bool-cases, inl, inr, drop, length, length-append, All,
  arith,
}
use mathlib.Core.List.{append_assoc, append-nil}
use com_client.NavTree.Paths.{
  name_from, strip_path, last_slash_from, last_slash, is_word, ends_in_directory, strip_path2,
}

-- It is always an end of the address.
pub strip_path2-drop : (uri : Text) → (n : ℕ) × (strip_path2 uri ≡ drop n uri)
unfolding strip_path2
strip_path2-drop uri = elim (Option-cases (last_slash uri)) [
  | inl e ↦ (0, ground arith)
  | inr (i, e) ↦ elim (Bool-cases (ends_in_directory uri i)) [
    | inl k ↦ (i - 6, ground arith)
    | inr k ↦ (i + 1, ground arith)
  ]
]

abbrev pub NoSlash : Text → Type 0
NoSlash s = All (λ c. c ≢ b'/') s

name_from-NoSlash : (acc s : Text) → NoSlash s → name_from acc s ≡ acc ++ s
unfolding name_from
name_from-NoSlash acc [] h = sym (append-nil acc)
name_from-NoSlash acc (c ∷ s) (h, hs) =
    let kept : (if c == b'/' then [] else acc ++ c ∷ []) ≡ acc ++ c ∷ [] = ground arith in
    ap (λ a. name_from a s) kept
    ∙ name_from-NoSlash (acc ++ c ∷ []) s hs
    ∙ append_assoc acc (c ∷ []) s

name_from-append : (acc dir s : Text) → NoSlash s → name_from acc (dir ++ b'/' ∷ s) ≡ s
unfolding name_from
name_from-append acc [] s h = name_from-NoSlash [] s h
name_from-append acc (c ∷ dir) s h =
    name_from-append (if c == b'/' then [] else acc ++ c ∷ []) dir s h

-- The name of a page is what stands behind its directory.
pub strip_path-append : (dir name : Text) → NoSlash name → strip_path (dir ++ b'/' ∷ name) ≡ name
unfolding strip_path
strip_path-append dir name h = name_from-append [] dir name h

pub strip_path-NoSlash : (name : Text) → NoSlash name → strip_path name ≡ name
unfolding strip_path
strip_path-NoSlash name h = name_from-NoSlash [] name h

last_slash_from-NoSlash :
    (i : ℕ) (found : Option ℕ) (s : Text) → NoSlash s → last_slash_from i found s ≡ found
unfolding last_slash_from
last_slash_from-NoSlash i found [] h = refl
last_slash_from-NoSlash i found (c ∷ s) (h, hs) =
    let same : (if c == b'/' then some i else found) ≡ found = ground arith in
    ap (λ f. last_slash_from (suc i) f s) same ∙ last_slash_from-NoSlash (suc i) found s hs

last_slash_from-append :
    (i : ℕ) (found : Option ℕ) (dir s : Text)
    → NoSlash s
    → last_slash_from i found (dir ++ b'/' ∷ s) ≡ some (i + length dir)
unfolding last_slash_from
last_slash_from-append i found [] s h =
    last_slash_from-NoSlash (suc i) (some i) s h ∙ ap some (omega arith)
last_slash_from-append i found (c ∷ dir) s h =
    last_slash_from-append (suc i) (if c == b'/' then some i else found) dir s h
    ∙ ap some (omega arith)

pub last_slash-append :
    (dir s : Text) → NoSlash s → last_slash (dir ++ b'/' ∷ s) ≡ some (length dir)
unfolding last_slash
last_slash-append dir s h = last_slash_from-append 0 none dir s h ∙ ap some (omega arith)

drop-length_add {ℓ} :
    {A : Type ℓ} (xs ys : List A) (n : ℕ) → drop (length xs + n) (xs ++ ys) ≡ drop n ys
drop-length_add [] ys n = ground arith
drop-length_add (x ∷ xs) ys n =
    let e : length (x ∷ xs) + n ≡ suc (length xs + n) = omega arith in
    ap (λ m. drop m (x ∷ xs ++ ys)) e ∙ drop-length_add xs ys n

-- A page in two levels of directories, `/dX/dYZ/`, keeps them.
module _ (base : Text) (x y z : ℕ) (name : Text) (hx : is_word x ≡ true) (hy : is_word y ≡ true)
    (hz : is_word z ≡ true) (h : NoSlash name) where
  abbrev inner : Text
  inner = b'd' ∷ x ∷ b'/' ∷ b'd' ∷ y ∷ z ∷ b'/' ∷ name

  last_slash-inner : last_slash (base ++ b'/' ∷ inner) ≡ some (length base + 7)
  last_slash-inner =
      let dir = b'/' ∷ b'd' ∷ x ∷ b'/' ∷ b'd' ∷ y ∷ z ∷ [] in
      ap last_slash (sym (append_assoc base dir (b'/' ∷ name)))
      ∙ last_slash-append (base ++ dir) name h
      ∙ ap some (length-append base dir)

  ends-inner : ends_in_directory (base ++ b'/' ∷ inner) (length base + 7) ≡ true
  unfolding ends_in_directory
  ends-inner =
      let at : drop (length base + 7 - 7) (base ++ b'/' ∷ inner) ≡ b'/' ∷ inner =
        ap (λ m. drop m (base ++ b'/' ∷ inner)) (omega arith)
        ∙ drop-length_add base (b'/' ∷ inner) 0 in
      rw at (ground arith)

  rest-inner : drop (length base + 7 - 6) (base ++ b'/' ∷ inner) ≡ inner
  rest-inner =
      ap (λ m. drop m (base ++ b'/' ∷ inner)) (omega arith) ∙ drop-length_add base (b'/' ∷ inner) 1

  -- An address that ends in two levels of generated directories, `/dX/dYZ/`, and a name without `/`
  -- keeps the two levels and the name.
  pub strip_path2-directories : strip_path2 (base ++ b'/' ∷ inner) ≡ inner
  unfolding strip_path2
  strip_path2-directories = ground (arith, last_slash-inner, ends-inner, rest-inner)
