-- ===== src/Search/Data/Complete.antt =====
-- What the generated search data of docs/documentation/html/search/ and its tables have in common.
use com_client.Base.{
  ℕ, zero, suc, ◌+◌, ◌≡◌, refl, sym, ap, ◌∙◌, Text, codes, Bool, true, false, ◌&&◌, ◌||◌, List, [],
  ◌∷◌, ◌++◌, if◌then◌else◌, ltb, ◌==◌, Option, none, some, get_elem?, take, drop, length,
  starts_with, text_eq, text_eq→eq, &&-parts, to_lower_case, index_of, to_string, arith,
}
use com_client.Search.Ids.{convert_to_id}
use com_client.Search.Results.{Entry}
use com_client.Search.Tables.{index_sections_with_content, index_section_names}
use com_client.Search.Data.{sections}
use com_client.Search.Data.Build.{File}

-- The unit that the browser shows for the front of a label, and how many more units it stands for.
read_unit : ℕ → Text → ℕ × ℕ
unfolding starts_with
read_unit c s =
    if starts_with (codes "lt;") s
    then (b'<', 3)
    else if starts_with (codes "gt;") s
    then (b'>', 3)
    else if starts_with (codes "amp;") s
    then (b'&', 4)
    else (c, 0)

shown_after : ℕ → Text → Text
unfolding read_unit
shown_after n [] = []
shown_after (suc n) (c ∷ s) = shown_after n s
shown_after zero (c ∷ s) =
    let (unit, more) = if c == b'&' then read_unit c s else (c, 0) in unit ∷ shown_after more s

-- The name of an entry: what the browser shows for its label, in lower case.
unfoldable pub name_of : Entry → Text
unfolding shown_after to_lower_case
name_of e = to_lower_case (λ c. c ∷ []) (shown_after zero e.label)

unfoldable pub suffix_of : Entry → Text
unfolding name_of convert_to_id
suffix_of e = drop (length (convert_to_id (name_of e))) e.id

-- A unit of ASCII that is printed and is no capital.
unfoldable pub is_name_unit : ℕ → Bool
is_name_unit c = ltb 32 c && (ltb c 127 && (ltb c b'A' || ltb b'Z' c))

unfoldable pub each {ℓ} : {A : Type ℓ} → (A → Bool) → List A → Bool
each f [] = true
each f (x ∷ xs) = f x && each f xs

unfoldable pub found_at : ℕ → Option ℕ → Bool
found_at i none = false
found_at i (some k) = k == i

-- The id of an entry is its name, as `convertToId` writes it, and a suffix, and the section's table has
-- the first unit of the name at the number of the page.
unfoldable pub entry_fits : Text → ℕ → Entry → Bool
unfolding suffix_of is_name_unit each found_at index_of text_eq
entry_fits content i e =
    each is_name_unit (name_of e)
    && (each is_name_unit (suffix_of e)
        && (text_eq e.id (convert_to_id (name_of e) ++ suffix_of e)
            && found_at i (index_of (take 1 (name_of e)) content)))

unfoldable file_fits : Text → Text → ℕ → File → Bool
unfolding entry_fits to_string text_eq
file_fits content name i f =
    text_eq f.name (name ++ codes "_" ++ to_string 16 i) && each (entry_fits content i) f.entries

unfoldable pub section_fits : Text → Text → ℕ → List File → Bool
unfolding file_fits
section_fits content name i [] = true
section_fits content name i (f ∷ fs) =
    file_fits content name i f && section_fits content name (suc i) fs

unfoldable all_fit : List Text → List Text → List (List File) → Bool
unfolding section_fits
all_fit (content ∷ cs) (name ∷ ns) (fs ∷ fss) = section_fits content name 0 fs && all_fit cs ns fss
all_fit cs ns [] = true
all_fit cs ns fss = false

data_fits : all_fit index_sections_with_content index_section_names sections ≡ true
unfolding all_fit
data_fits = refl

each-get_elem? {ℓ} :
    {A : Type ℓ} (f : A → Bool) (xs : List A) (j : ℕ) {x : A}
    → each f xs ≡ true
    → get_elem? xs j ≡ some x
    → f x ≡ true
unfolding each
each-get_elem? f [] j h e = cc
each-get_elem? f (y ∷ xs) zero h e = let (here, later) = &&-parts {a = f y} h in cc here
each-get_elem? f (y ∷ xs) (suc j) h e = each-get_elem? f xs j (&&-parts h).1 e

some-injective {ℓ} : {A : Type ℓ} {a b : A} → some a ≡ some b → a ≡ b
some-injective e = cc

section_fits-get_elem? :
    (content name : Text) (i k n : ℕ) (fs : List File) (f : File)
    → n ≡ k + i
    → section_fits content name i fs ≡ true
    → get_elem? fs k ≡ some f
    → file_fits content name n f ≡ true
unfolding section_fits
section_fits-get_elem? content name i k n [] f at h e = absurd (cc)
section_fits-get_elem? content name i zero n (g ∷ fs) f at h e =
    let here : file_fits content name i g ≡ true = (&&-parts h).0 in
    let same : n ≡ i = omega arith in
    ap (λ m. file_fits content name m f) same
    ∙ ap (λ x. file_fits content name i x) (sym (some-injective e))
    ∙ here
section_fits-get_elem? content name i (suc k) n (g ∷ fs) f at h e =
    section_fits-get_elem? content name (suc i) k n fs f (omega arith) (&&-parts h).1 e

-- The tables have the section, under this name and with these first characters.
pub record Fits (cs ns : List Text) (s : ℕ) (fs : List File) : Type 0 where
  pub content : Text
  pub name : Text
  pub content_known : get_elem? cs s ≡ some content
  pub name_known : get_elem? ns s ≡ some name
  pub files_fit : section_fits content name 0 fs ≡ true

all_fit-Fits :
    (cs ns : List Text) (fss : List (List File)) (s : ℕ) (fs : List File)
    → all_fit cs ns fss ≡ true
    → get_elem? fss s ≡ some fs
    → Fits cs ns s fs
unfolding all_fit
all_fit-Fits cs ns [] s gs h e = absurd (cc)
all_fit-Fits (content ∷ cs) (name ∷ ns) (fs ∷ fss) zero gs h e = record {
  content = content;
  name = name;
  content_known = refl;
  name_known = refl;
  files_fit = cc ((&&-parts {a = section_fits content name 0 fs} h).0, e);
}
all_fit-Fits (content ∷ cs) (name ∷ ns) (fs ∷ fss) (suc s) gs h e =
    let later = all_fit-Fits cs ns fss s gs (&&-parts h).1 e in
    record {
      content = later.content;
      name = later.name;
      content_known = later.content_known;
      name_known = later.name_known;
      files_fit = later.files_fit;
    }
all_fit-Fits [] ns (fs ∷ fss) s gs h e = absurd (cc)
all_fit-Fits (c ∷ cs) [] (fs ∷ fss) s gs h e = absurd (cc)

-- Entry `j` of page `i` of section `s`.
abbrev pub IsListed : ℕ → ℕ → ℕ → File → Entry → Type 0
IsListed s i j f e =
    (fs : List File) × (get_elem? sections s ≡ some fs)
    × (get_elem? fs i ≡ some f)
    × (get_elem? f.entries j ≡ some e)

-- What the tables and the id say of an entry.
pub record Placed (s i : ℕ) (f : File) (e : Entry) : Type 0 where
  pub content : Text
  pub name : Text
  pub content_known : get_elem? index_sections_with_content s ≡ some content
  pub name_known : get_elem? index_section_names s ≡ some name
  pub file_name : f.name ≡ name ++ codes "_" ++ to_string 16 i
  pub fits : entry_fits content i e ≡ true

pub IsListed-Placed : (s i j : ℕ) (f : File) (e : Entry) → IsListed s i j f e → Placed s i f e
unfolding file_fits
IsListed-Placed s i j f e (fs, section, file, entry) =
    let known =
      all_fit-Fits index_sections_with_content index_section_names sections s fs data_fits
        section in
    let (named, all) = &&-parts (
      section_fits-get_elem? known.content known.name 0 i i fs f (omega arith) known.files_fit
        file) in
    record {
      content = known.content;
      name = known.name;
      content_known = known.content_known;
      name_known = known.name_known;
      file_name = text_eq→eq f.name (known.name ++ codes "_" ++ to_string 16 i) named;
      fits = each-get_elem? (entry_fits known.content i) f.entries j all entry;
    }
