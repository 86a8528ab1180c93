-- ===== src/Search/Data/EndToEnd.antt =====
-- From a key in the search field of docs/documentation/html/search/search.js to an entry of the generated
-- search data on the results page.
use com_client.Base.{
  if◌then◌else◌, ℕ, ◌≡◌, ◌≢◌, sym, ap, ◌∙◌, Text, codes, [], ◌++◌, none, some, take, get_elem?, All,
  inl, inr, strip_leading, strip_trailing, remove_spaces, to_lower_case,
}
use mathlib.Core.Path.{subst}
use com_client.Search.Ids.Codec.{IsUnit16}
use com_client.Search.Ids.Matching.{IsPrefix}
use com_client.Search.Url.{escape}
use com_client.Search.Panel.{Panel, Config, block, hidden}
use com_client.Search.Panel.Query.{done, KeyEvent, results_page, index_char}
use com_client.Search.Panel.Field.{on_search_field_change}
use com_client.Search.Panel.Events.{timer, step}
use com_client.Search.Panel.Invariant.{IsConsistent}
use com_client.Search.Panel.Keys.{IsPlainKey}
use com_client.Search.Panel.Typed.{Shows, typed-shown}
use com_client.Search.Results.{Entry, Row, Page, row_of, create_results}
use com_client.Search.Results.Filter.{search}
use com_client.Search.Results.Filter.Names.{needle, found_by_prefix}
use com_client.Search.Results.Filter.{prepare, row_name}
use com_client.Search.Results.Filter.EndToEnd.{address, row-after}
use com_client.Search.Results.Filter.Shown.{judged}
use com_client.Search.Ids.{row_matches, convert_to_id}
use com_client.Search.Data.Build.{File}
use com_client.Search.Data.Complete.{name_of, suffix_of, IsListed, IsListed-Placed}
use com_client.Search.Data.Typed.{
  All-prefix, All-map, strip_leading-All, strip_leading-cases, strip_leading-twice, ascii-IsUnit16,
  remove_spaces-empty, to_lower-ascii, needle-first,
}
use com_client.Search.Data.Found.{
  IsGenerated, page_of, IsAscii, Named, entry_fits-Named, Named-IsIndexed, get_elem?-create_results,
  row_of-names, index_char-first, results_page-page_of,
}

module _ (cfg : Config) (field : Text) (e : Entry) (typed : needle cfg.fold field ≢ [])
    (ascii : All IsAscii field) (begins : IsPrefix (needle cfg.fold field) (name_of e)) where
  -- What is typed has a first unit, and the first unit of the name chooses the page.
  typed-first :
      (strip_leading field ≢ []) × (index_char cfg (strip_leading field) ≡ take 1 (name_of e))
  unfolding strip_trailing to_lower_case
  typed-first = elim (strip_leading-cases field) [
    | inl empty ↦ absurd (typed (ap (λ s. to_lower_case cfg.fold (strip_trailing s)) empty))
    | inr (c, v, front, other) ↦
        let (small, rest) = subst (All IsAscii) front (strip_leading-All IsAscii field ascii) in
        let (d, lower, low) = to_lower-ascii cfg.fold c small in
        (
          λ empty. cc (front, empty),
          ap (index_char cfg) front
              ∙ index_char-first cfg c d v lower low
              ∙ sym (needle-first cfg.fold field (name_of e) v c d front other lower begins),
        )
  ]

  needle-units : {content : Text} {i : ℕ} → Named content i e → All IsUnit16 (needle cfg.fold field)
  needle-units n =
      let (rest, eq) = begins in
      All-prefix IsUnit16 (needle cfg.fold field) rest
        (subst (All IsUnit16) eq (Named-IsIndexed cfg.fold n).units)

  -- The row of the entry, after the search for what is typed.
  row-shown :
      {content : Text} {i : ℕ} (n : Named content i e) (page : Page) (j : ℕ) (f : File)
      → page.rows ≡ create_results f.entries
      → get_elem? f.entries j ≡ some e
      → (row : Row) × (get_elem? (search cfg.fold none (address (strip_leading field)) page).rows j
          ≡ some row)
        × (row.label ≡ e.label)
        × (row.display ≡ block)
  row-shown n page j f created listed =
      let value = strip_leading field in
      let stripped : needle cfg.fold value ≡ needle cfg.fold field =
        ap (λ s. to_lower_case cfg.fold (strip_trailing s)) (strip_leading-twice field) in
      let units = subst (All IsUnit16) (sym stripped) (needle-units n) in
      let begun = subst (λ s. IsPrefix s (name_of e)) (sym stripped) begins in
      let value_units = All-map ascii-IsUnit16 value (strip_leading-All IsAscii field ascii) in
      let (id, label) = row_of-names e in
      let found =
        found_by_prefix cfg.fold value (name_of e) (suffix_of e) (Named-IsIndexed cfg.fold n) units
          begun in
      let indexed : (row_of e).id ≡ codes "SR_" ++ convert_to_id (name_of e) ++ suffix_of e =
        id ∙ ap (λ t. codes "SR_" ++ t) n.id_eq in
      let there : get_elem? page.rows j ≡ some (row_of e) =
        ap (λ l. get_elem? l j) created ∙ get_elem?-create_results f.entries j listed in
      (
        judged cfg.fold (prepare cfg.fold value) (row_of e),
        row-after cfg.fold value (name_of e) (suffix_of e) (Named-IsIndexed cfg.fold n) value_units
            units page j (row_of e) there indexed,
        label,
        ap (λ found. if found then block else hidden)
            (ap (λ t. row_matches (prepare cfg.fold value) (row_name cfg.fold t)) indexed ∙ found),
      )

-- Every entry of the generated data is found by what its name begins with. With the generated tables, in a
-- consistent state with the entry's section chosen, let the field hold ASCII text that is not what was
-- searched last and that is, in lower case and without the spaces at its ends, a beginning, not empty, of
-- the name that the browser shows for the entry. Then a key other than Down, Return and Escape starts a
-- timer, and when it fires, the popup is open with the results page that has the entry; and on this page,
-- with the rows that `createResults` makes of its data, the search for the page's own address shows the
-- entry's row, under the entry's label.
pub entry_found :
    (cfg : Config) (key : KeyEvent) (p : Panel) (page : Page) (s i j : ℕ) (f : File) (e : Entry)
    → IsGenerated cfg
    → IsListed s i j f e
    → IsConsistent p
    → IsPlainKey key
    → p.search_index ≡ s
    → remove_spaces p.field ≢ p.last_search_value
    → All IsAscii p.field
    → needle cfg.fold p.field ≢ []
    → IsPrefix (needle cfg.fold p.field) (name_of e)
    → page.rows ≡ create_results f.entries
    → let value = strip_leading p.field in
      let q = on_search_field_change cfg key p in
      ((r : Panel) × (step cfg (timer q.key_timeout) q ≡ done r)
        × Shows (page_of cfg f) (page_of cfg f ++ codes "?" ++ escape value) r)
      × ((row : Row) × (get_elem? (search cfg.fold none (address value) page).rows j ≡ some row)
          × (row.label ≡ e.label)
          × (row.display ≡ block))
entry_found cfg key p page s i j f e tables listed c plain chosen new ascii typed begins created =
    let placed = IsListed-Placed s i j f e listed in
    let (fs, section, file, entry) = listed in
    let (filled, first) = typed-first cfg p.field e typed ascii begins in
    let known =
      ap (λ k. results_page cfg k (strip_leading p.field)) chosen
      ∙ results_page-page_of cfg s i f e (strip_leading p.field) tables placed first in
    (
      (typed-shown cfg key p (page_of cfg f)
          (page_of cfg f ++ codes "?" ++ escape (strip_leading p.field)) c plain
          (λ empty. filled (remove_spaces-empty p.field empty)) new known).0,
      row-shown cfg p.field e typed ascii begins (entry_fits-Named placed.content i e placed.fits)
          page j f created entry,
    )
