-- ===== src/Search/Data/Found.antt =====
-- From a key in the search field of docs/documentation/html/search/search.js to an entry of the generated
-- search data on the results page.
use com_client.Base.{
  ℕ, zero, suc, ◌<◌, ◌≡◌, refl, sym, ap, ◌∙◌, arith, Text, codes, true, List, [], ◌∷◌, ◌++◌, ==_iff,
  &&-parts, Option, none, some, take, get_elem?, to_lower, to_lower_case, to_string, text_eq→eq,
  index_of,
}
use mathlib.Core.List.{append_assoc}
use com_client.Search.Ids.{convert_to_id}
use com_client.Search.Url.{escape}
use com_client.Search.Panel.{Config}
use com_client.Search.Panel.Query.{
  results_page, index_char, is_lead_surrogate, section_name, page_path,
}
use com_client.Search.Results.{Entry, row_of, create_results}
use com_client.Search.Results.Filter.Names.{IsIndexed}
use com_client.Search.Tables.{index_sections_with_content, index_section_names}
use com_client.Search.Data.Build.{File}
use com_client.Search.Data.Complete.{
  name_of, suffix_of, is_name_unit, each, found_at, entry_fits, Placed,
}
use com_client.Search.Data.Typed.{All-each, is_name_unit-IsUnit16, is_name_unit-IsLower}

-- The panel has the generated tables.
pub record IsGenerated (cfg : Config) : Type 0 where
  pub contents : cfg.sections_with_content ≡ index_sections_with_content
  pub names : cfg.section_names ≡ index_section_names

-- The page of results of a file.
unfoldable pub page_of : Config → File → Text
page_of cfg f = cfg.results_path ++ codes "/" ++ f.name ++ cfg.extension

abbrev pub IsAscii : ℕ → Type 0
IsAscii c = c < 128

found_at-eq : (i : ℕ) (k : Option ℕ) → found_at i k ≡ true → k ≡ some i
unfolding found_at
found_at-eq i none h = cc
found_at-eq i (some k) h = ap some ((==_iff k i).0 h)

-- What `entry_fits` says, part by part.
pub record Named (content : Text) (i : ℕ) (e : Entry) : Type 0 where
  pub name_units : each is_name_unit (name_of e) ≡ true
  pub suffix_units : each is_name_unit (suffix_of e) ≡ true
  pub id_eq : e.id ≡ convert_to_id (name_of e) ++ suffix_of e
  pub page_at : index_of (take 1 (name_of e)) content ≡ some i

pub entry_fits-Named :
    (content : Text) (i : ℕ) (e : Entry) → entry_fits content i e ≡ true → Named content i e
unfolding entry_fits
entry_fits-Named content i e h =
    let (named, rest) = &&-parts h in
    let (suffixed, rest) = &&-parts rest in
    let (same, at) = &&-parts rest in
    record {
      name_units = named;
      suffix_units = suffixed;
      id_eq = text_eq→eq e.id (convert_to_id (name_of e) ++ suffix_of e) same;
      page_at = found_at-eq i (index_of (take 1 (name_of e)) content) at;
    }

module _ (fold : ℕ → Text) {content : Text} {i : ℕ} {e : Entry} (n : Named content i e) where
  pub Named-IsIndexed : IsIndexed fold (name_of e) (suffix_of e)
  Named-IsIndexed = record {
    units = All-each is_name_unit is_name_unit-IsUnit16 (name_of e) n.name_units;
    lower = All-each is_name_unit (is_name_unit-IsLower fold) (name_of e) n.name_units;
    suffix_lower = All-each is_name_unit (is_name_unit-IsLower fold) (suffix_of e) n.suffix_units;
  }

pub get_elem?-create_results :
    (entries : List Entry) (j : ℕ) {e : Entry}
    → get_elem? entries j ≡ some e
    → get_elem? (create_results entries) j ≡ some (row_of e)
unfolding create_results
get_elem?-create_results [] j h = cc
get_elem?-create_results (e ∷ entries) zero h = cc
get_elem?-create_results (e ∷ entries) (suc j) h = get_elem?-create_results entries j h

pub row_of-names :
    (e : Entry) → ((row_of e).id ≡ codes "SR_" ++ e.id) × ((row_of e).label ≡ e.label)
unfolding row_of
row_of-names e = ground arith

pub index_char-first :
    (cfg : Config) (c d : ℕ) (v : Text)
    → to_lower cfg.fold c ≡ d ∷ []
    → d < 128
    → index_char cfg (c ∷ v) ≡ d ∷ []
unfolding index_char is_lead_surrogate to_lower_case
index_char-first cfg c d v h small = rw (h, index_char) (ground arith)

page_path-page_of :
    (cfg : Config) (s i : ℕ) (f : File) (name : Text)
    → get_elem? cfg.section_names s ≡ some name
    → f.name ≡ name ++ codes "_" ++ to_string 16 i
    → page_path cfg s i ≡ page_of cfg f
unfolding page_path page_of section_name
page_path-page_of cfg s i f name known named =
    let section : section_name cfg s ≡ name = rw (known, section_name) refl in
    let file_path : Text → Text = λ n. cfg.results_path ++ codes "/" ++ n ++ cfg.extension in
    let grouped : page_path cfg s i
        ≡ file_path (section_name cfg s ++ codes "_" ++ to_string 16 i) =
      simp append_assoc in
    let same_name : section_name cfg s ++ codes "_" ++ to_string 16 i ≡ f.name =
      ap (λ n. n ++ codes "_" ++ to_string 16 i) section ∙ sym named in
    grouped ∙ ap file_path same_name

pub results_page-page_of :
    (cfg : Config) (s i : ℕ) (f : File) (e : Entry) (value : Text)
    → IsGenerated cfg
    → Placed s i f e
    → index_char cfg value ≡ take 1 (name_of e)
    → results_page cfg s value ≡ some (page_of cfg f, page_of cfg f ++ codes "?" ++ escape value)
unfolding results_page
results_page-page_of cfg s i f e value tables placed first =
    let content_at : get_elem? cfg.sections_with_content s ≡ some placed.content =
      ap (λ l. get_elem? l s) tables.contents ∙ placed.content_known in
    let name_at : get_elem? cfg.section_names s ≡ some placed.name =
      ap (λ l. get_elem? l s) tables.names ∙ placed.name_known in
    let at : index_of (index_char cfg value) placed.content ≡ some i =
      ap (λ c. index_of c placed.content) first
      ∙ (entry_fits-Named placed.content i e placed.fits).page_at in
    rw (content_at, results_page)
      (rw (at, results_page)
        (ap (λ page. some (page, page ++ codes "?" ++ escape value))
          (page_path-page_of cfg s i f placed.name name_at placed.file_name)))
