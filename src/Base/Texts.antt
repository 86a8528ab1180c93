-- ===== src/Base/Texts.antt =====
-- JavaScript strings as lists of their code units, and the string operations that the pages use.
use Prim.Native.Nat.{ℕ, zero, suc, ◌+◌, ◌-◌, ◌/◌, ◌%◌}
use Prim.Native.Char.{code}
use Prim.Native.String.{String}
use mathlib.Core.Path.{◌≡◌, refl}
use mathlib.Core.Logic.{◌≢◌, ◌↔◌, inl, inr}
use mathlib.Core.Bool.{Bool, true, false, ◌&&◌}
use mathlib.Core.Option.{Option, none, some}
use mathlib.Core.List.{List, [], ◌∷◌, ◌++◌, reverse}
use native.Mathlib.Omega.{arith}
use com_client.Base.Tests.{ltb, leb, ◌==◌, if◌then◌else◌, Option-cases}
use com_client.Base.Lists.{get_elem?}

abbrev pub Text : Type 0
Text = List ℕ

-- A literal as its code units.
abbrev pub codes : String → Text
codes String.[] = []
codes (String.◌∷◌ c s) = code c ∷ codes s

-- `s == t` and `s === t` on strings.
unfoldable pub text_eq : Text → Text → Bool
text_eq [] [] = true
text_eq (a ∷ s) (b ∷ t) = a == b && text_eq s t
text_eq _ _ = false

pub text_eq_refl : (s : Text) → text_eq s s ≡ true
unfolding text_eq
text_eq_refl [] = refl
text_eq_refl (a ∷ s) = ground (arith, text_eq_refl s)

pub text_eq→eq : (s t : Text) → text_eq s t ≡ true → s ≡ t
unfolding text_eq
text_eq→eq [] [] h = refl
text_eq→eq (a ∷ s) (b ∷ t) h = ground (arith, text_eq→eq s t)
text_eq→eq [] (b ∷ t) h = cc
text_eq→eq (a ∷ s) [] h = cc

pub text_eq_iff : (s t : Text) → (text_eq s t ≡ true) ↔ (s ≡ t)
text_eq_iff s t = (text_eq→eq s t, λ e. rw e (text_eq_refl t))

-- `s.replace(/^ +/, "")`
unfoldable pub strip_leading : Text → Text
strip_leading [] = []
strip_leading (c ∷ s) = if c == b' ' then strip_leading s else c ∷ s

-- `s.replace(/ +$/, "")`
unfoldable pub strip_trailing : Text → Text
unfolding strip_leading
strip_trailing s = reverse (strip_leading (reverse s))

-- `s.replace(/ +/g, "")`
unfoldable pub remove_spaces : Text → Text
remove_spaces [] = []
remove_spaces (c ∷ s) = if c == b' ' then remove_spaces s else c ∷ remove_spaces s

unfoldable pub starts_with : Text → Text → Bool
starts_with [] s = true
starts_with (a ∷ p) [] = false
starts_with (a ∷ p) (b ∷ s) = a == b && starts_with p s

-- `s.indexOf(p)`; `none` is -1.
unfoldable pub index_of : Text → Text → Option ℕ
unfolding starts_with
index_of p [] = if starts_with p [] then some 0 else none
index_of p (c ∷ s) =
    let rest = index_of p s in
    if starts_with p (c ∷ s) then some 0 else elim rest [ none ↦ none | some i ↦ some (suc i) ]

-- A text of one unit is found where it stands first.
pub index_of-unit :
    (c : ℕ) (s : Text) {i : ℕ} → index_of (c ∷ []) s ≡ some i → get_elem? s i ≡ some c
unfolding index_of
index_of-unit c [] h = cc
index_of-unit c (d ∷ s) {i} h = elim (Option-cases (index_of (c ∷ []) s)) [
  | inl e ↦ ground arith
  | inr (j, e) ↦ ground (arith, index_of-unit c s e)
]

pub index_of-unit_none :
    (c : ℕ) (s : Text) (i : ℕ) → index_of (c ∷ []) s ≡ none → get_elem? s i ≢ some c
unfolding index_of
index_of-unit_none c [] i h = cc
index_of-unit_none c (d ∷ s) zero h = elim (Option-cases (index_of (c ∷ []) s)) [
  | inl e ↦ ground arith
  | inr (j, e) ↦ ground arith
]
index_of-unit_none c (d ∷ s) (suc i) h = elim (Option-cases (index_of (c ∷ []) s)) [
  | inl e ↦ ground (arith, index_of-unit_none c s i e)
  | inr (j, e) ↦ ground arith
]

-- `toLowerCase`: ASCII letters as the language has them, any other unit by `fold`, the part of the
-- Unicode table that the runtime brings.
unfoldable pub to_lower : (ℕ → Text) → ℕ → Text
to_lower fold c =
    if leb b'A' c && leb c b'Z' then (c + 32) ∷ [] else if ltb c 128 then c ∷ [] else fold c

unfoldable pub to_lower_case : (ℕ → Text) → Text → Text
unfolding to_lower
to_lower_case fold [] = []
to_lower_case fold (c ∷ s) = to_lower fold c ++ to_lower_case fold s

unfoldable pub hex_digit : ℕ → ℕ
hex_digit d = if ltb d 10 then d + b'0' else d - 10 + b'a'

-- `n.toString(b)` for a base `b` of 2 to 16, on fuel: a round for each digit.
unfoldable pub digits_onto : ℕ → ℕ → ℕ → Text → Text
unfolding hex_digit
digits_onto zero b n s = s
digits_onto (suc f) b n s =
    let more = digits_onto f b (n / b) (hex_digit (n % b) ∷ s) in
    if ltb n b then hex_digit n ∷ s else more

unfoldable pub to_string : ℕ → ℕ → Text
unfolding digits_onto
to_string b n = digits_onto (suc n) b n []
