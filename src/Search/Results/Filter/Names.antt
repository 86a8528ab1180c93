-- ===== src/Search/Results/Filter/Names.antt =====
-- Which names a query finds, for rows whose ids are made as the generator of the index makes them.
use com_client.Base.{
  ℕ, ◌<◌, Text, codes, true, [], ◌∷◌, ◌++◌, ◌≡◌, refl, arith, inl, inr, All, to_lower,
  to_lower_case, strip_leading, strip_trailing, hex_digit,
}
use com_client.Search.Ids.{encode_unit, convert_to_id, row_matches}
use com_client.Search.Ids.Codec.{encode, convert_to_id-eq-encode, IsUnit16, encode_unit-cases}
use com_client.Search.Ids.Matching.{
  IsPrefix, Comparable, row_matches-of_prefix, Comparable-of_row_matches,
}
use com_client.Search.Results.Filter.{row_name, prepare, strip_sr}

module _ (fold : ℕ → Text) where
  -- A unit that lower case keeps.
  abbrev pub IsLower : ℕ → Type 0
  IsLower c = to_lower fold c ≡ c ∷ []

  to_lower_case_of_IsLower : (s : Text) → All IsLower s → to_lower_case fold s ≡ s
  unfolding to_lower_case
  to_lower_case_of_IsLower [] h = refl
  to_lower_case_of_IsLower (c ∷ s) (h, hs) = rw (h, to_lower_case_of_IsLower s hs)

  All-append : (s t : Text) → All IsLower s → All IsLower t → All IsLower (s ++ t)
  All-append [] t h k = k
  All-append (c ∷ s) t (h, hs) k = (h, All-append s t hs k)

  hex_digit-IsLower : (d : ℕ) → d < 16 → IsLower (hex_digit d)
  unfolding to_lower hex_digit
  hex_digit-IsLower d h = ground arith

  underscore-IsLower : IsLower b'_'
  unfolding to_lower
  underscore-IsLower = refl

  encode_unit-IsLower : (c : ℕ) → IsUnit16 c → IsLower c → All IsLower (encode_unit c)
  encode_unit-IsLower c u h = elim (encode_unit-cases c u) [
    | inl e ↦ rw e (h, tt)
    | inr (a, b, ha, hb, e) ↦
        rw e (underscore-IsLower, (hex_digit-IsLower a ha, (hex_digit-IsLower b hb, tt)))
  ]

  encode-IsLower : (s : Text) → All IsUnit16 s → All IsLower s → All IsLower (encode s)
  unfolding encode
  encode-IsLower [] u h = tt
  encode-IsLower (c ∷ s) (u, us) (h, hs) =
      All-append (encode_unit c) (encode s) (encode_unit-IsLower c u h) (encode-IsLower s us hs)

  row_name-sr : (id : Text) → All IsLower id → row_name fold (codes "SR_" ++ id) ≡ id
  unfolding row_name strip_sr to_lower_case
  row_name-sr id h = ground (arith, to_lower_case_of_IsLower id h)

-- A row of the index: the id is the lower case name as `convertToId` writes it, and a suffix.
pub record IsIndexed (fold : ℕ → Text) (name suffix : Text) : Type 0 where
  pub units : All IsUnit16 name
  pub lower : All (IsLower fold) name
  pub suffix_lower : All (IsLower fold) suffix

-- The query as it is typed, without the spaces at its ends and in lower case.
abbrev pub needle : (ℕ → Text) → Text → Text
needle fold query = to_lower_case fold (strip_trailing (strip_leading query))

-- The id of a row, as `createResults` writes it.
abbrev pub id_of : Text → Text → Text
id_of name suffix = codes "SR_" ++ convert_to_id name ++ suffix

module _ (fold : ℕ → Text) (query name suffix : Text) (h : IsIndexed fold name suffix)
    (units : All IsUnit16 (needle fold query)) where
  row_name-id_of : row_name fold (id_of name suffix) ≡ convert_to_id name ++ suffix
  row_name-id_of = row_name-sr fold (convert_to_id name ++ suffix) (
      All-append fold (convert_to_id name) suffix
        (rw (convert_to_id-eq-encode name) (encode-IsLower fold name h.units h.lower))
        h.suffix_lower)

  -- A row is found by every query that its name begins with.
  pub found_by_prefix :
      IsPrefix (needle fold query) name
      → row_matches (prepare fold query) (row_name fold (id_of name suffix)) ≡ true
  unfolding prepare
  found_by_prefix k =
      rw row_name-id_of (row_matches-of_prefix (needle fold query) name suffix units h.units k)

  -- A row that is found has a name which begins with the query, or which the query begins with.
  pub found-Comparable :
      row_matches (prepare fold query) (row_name fold (id_of name suffix)) ≡ true
      → Comparable (needle fold query) name
  unfolding prepare
  found-Comparable e =
      Comparable-of_row_matches (needle fold query) name suffix units h.units
        (rw row_name-id_of at e)
