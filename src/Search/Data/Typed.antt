-- ===== src/Search/Data/Typed.antt =====
-- What is typed into the search field of docs/documentation/html/search/search.js, up to spaces and case,
-- against the names of the generated search data.
use com_client.Base.{
  ℕ, ◌<◌, ◌≡◌, ◌≢◌, refl, ap, ◌∙◌, arith, Text, Bool, Bool-cases, ◌+◌, ◌==◌, true, List, [], ◌∷◌,
  ◌++◌, ◌&&◌, &&-parts, reverse, ◌⊎◌, inl, inr, take, leb, All, strip_leading, strip_trailing,
  remove_spaces, to_lower, to_lower_case,
}
use mathlib.Core.List.{reverse-append, reverse-cons}
use com_client.Search.Ids.Codec.{IsUnit16}
use com_client.Search.Ids.Matching.{IsPrefix}
use com_client.Search.Results.Filter.Names.{IsLower, needle}
use com_client.Search.Data.Complete.{is_name_unit, each}

pub All-each {ℓ κ} :
    {A : Type ℓ} {P : A → Type κ} (f : A → Bool)
    → ((x : A) → f x ≡ true → P x)
    → (xs : List A) → each f xs ≡ true
    → All P xs
unfolding each
All-each f k [] h = tt
All-each f k (x ∷ xs) h = (k x (&&-parts h).0, All-each f k xs (&&-parts h).1)

pub is_name_unit-IsUnit16 : (c : ℕ) → is_name_unit c ≡ true → IsUnit16 c
unfolding is_name_unit
is_name_unit-IsUnit16 c h = ground arith

pub is_name_unit-IsLower : (fold : ℕ → Text) (c : ℕ) → is_name_unit c ≡ true → IsLower fold c
unfolding is_name_unit to_lower
is_name_unit-IsLower fold c h = ground arith

pub All-prefix {ℓ κ} : {A : Type ℓ} (P : A → Type κ) (xs ys : List A) → All P (xs ++ ys) → All P xs
All-prefix P [] ys h = tt
All-prefix P (x ∷ xs) ys (h, hs) = (h, All-prefix P xs ys hs)

pub All-map {ℓ κ κ'} :
    {A : Type ℓ} {P : A → Type κ} {Q : A → Type κ'} (k : (x : A) → P x → Q x) (xs : List A)
    → All P xs
    → All Q xs
All-map k [] h = tt
All-map k (x ∷ xs) (h, hs) = (k x h, All-map k xs hs)

pub strip_leading-All {κ} : (P : ℕ → Type κ) (s : Text) → All P s → All P (strip_leading s)
unfolding strip_leading
strip_leading-All P [] h = tt
strip_leading-All P (c ∷ s) (h, hs) = ground (arith, strip_leading-All P s hs)

-- A text without the spaces in front begins with another unit, if with any.
pub strip_leading-cases :
    (s : Text)
    → (strip_leading s ≡ []) ⊎ ((c : ℕ) × (v : Text) × (strip_leading s ≡ c ∷ v) × (c ≢ b' '))
unfolding strip_leading
strip_leading-cases [] = inl refl
strip_leading-cases (c ∷ s) = ground (arith, strip_leading-cases s)

pub strip_leading-other : (c : ℕ) (v : Text) → c ≢ b' ' → strip_leading (c ∷ v) ≡ c ∷ v
unfolding strip_leading
strip_leading-other c v h = ground arith

pub remove_spaces-empty : (s : Text) → remove_spaces s ≡ [] → strip_leading s ≡ []
unfolding remove_spaces strip_leading
remove_spaces-empty [] h = refl
remove_spaces-empty (c ∷ s) h = ground (arith, remove_spaces-empty s)

-- Behind a unit that is no space, the spaces in front end.
strip_leading-last :
    (c : ℕ) (s : Text) → c ≢ b' ' → (w : Text) × (strip_leading (s ++ (c ∷ [])) ≡ w ++ (c ∷ []))
unfolding strip_leading
strip_leading-last c [] h = ([], strip_leading-other c [] h)
strip_leading-last c (d ∷ s) h = elim (Bool-cases (d == b' ')) [
  | inl space ↦ let (w, e) = strip_leading-last c s h in (w, ground arith)
  | inr other ↦ (d ∷ s, ground arith)
]

pub strip_trailing-first :
    (c : ℕ) (v : Text) → c ≢ b' ' → (w : Text) × (strip_trailing (c ∷ v) ≡ c ∷ w)
unfolding strip_trailing
strip_trailing-first c v h =
    let (w, e) = strip_leading-last c (reverse v) h in
    (
      reverse w,
      ap (λ s. reverse (strip_leading s)) (reverse-cons c v)
          ∙ ap reverse e
          ∙ reverse-append w (c ∷ []),
    )

-- The lower case of a unit of ASCII is a unit of ASCII.
pub to_lower-ascii :
    (fold : ℕ → Text) (c : ℕ) → c < 128 → (d : ℕ) × (to_lower fold c ≡ d ∷ []) × (d < 128)
unfolding to_lower
to_lower-ascii fold c h = elim (Bool-cases (leb b'A' c && leb c b'Z')) [
  | inl capital ↦ (c + 32, ground arith, ground arith)
  | inr kept ↦ (c, ground arith, h)
]

-- A name that begins with what is typed has its first unit.
pub needle-first :
    (fold : ℕ → Text) (field name v : Text) (c d : ℕ)
    → strip_leading field ≡ c ∷ v
    → c ≢ b' '
    → to_lower fold c ≡ d ∷ []
    → IsPrefix (needle fold field) name
    → take 1 name ≡ d ∷ []
unfolding to_lower_case
needle-first fold field name v c d front other lower (rest, e) =
    let (w, trimmed) = strip_trailing-first c v other in
    let typed : needle fold field ≡ to_lower fold c ++ to_lower_case fold w =
      ap (λ s. to_lower_case fold (strip_trailing s)) front ∙ ap (to_lower_case fold) trimmed in
    rw (e, typed, lower) refl

pub strip_leading-twice : (s : Text) → strip_leading (strip_leading s) ≡ strip_leading s
unfolding strip_leading
strip_leading-twice s = elim (strip_leading-cases s) [
  | inl e ↦ rw e refl
  | inr (c, v, e, other) ↦ rw e (strip_leading-other c v other)
]

pub ascii-IsUnit16 : (c : ℕ) → c < 128 → IsUnit16 c
ascii-IsUnit16 c h = omega arith
