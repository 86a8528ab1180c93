-- ===== src/Search/Ids/Matching.antt =====
-- When a row is kept: its name, and the query, as they were before `convertToId`.
use com_client.Base.{
  codes, ℕ, ◌≤◌, ◌≡◌, refl, sym, ap, ◌∙◌, Text, true, [], ◌∷◌, ◌++◌, length, take, drop,
  text_eq_refl, text_eq→eq, arith, ◌⊎◌, inl, inr, All, length-append, take-length_append,
  take-append-drop,
}
use mathlib.Core.List.{append_assoc, append-nil}
use com_client.Search.Ids.{encode_unit, convert_to_id, row_matches}
use com_client.Search.Ids.Codec.{
  encode, convert_to_id-eq-encode, decode_in, decode_in-encode_unit, IsUnit16, plain,
}

-- `t` begins with `s`.
abbrev pub IsPrefix : Text → Text → Type 0
IsPrefix s t = (rest : Text) × (t ≡ s ++ rest)

pub row_matches_of_IsPrefix : (s t : Text) → IsPrefix s t → row_matches s t ≡ true
unfolding row_matches
row_matches_of_IsPrefix s t (r, e) =
    rw (e, take-length_append s r) (ground (arith, text_eq_refl s, length-append s r))

pub row_matches-IsPrefix : (s t : Text) → row_matches s t ≡ true → IsPrefix s t
unfolding row_matches
row_matches-IsPrefix s t h =
    let same = text_eq→eq (take (length s) t) s (ground arith) in
    (drop (length s) t, sym (take-append-drop (length s) t) ∙ ap (λ x. x ++ drop (length s) t) same)

append-cancel_left : (x : Text) {y z : Text} → x ++ y ≡ x ++ z → y ≡ z
append-cancel_left [] e = e
append-cancel_left (a ∷ x) e = append-cancel_left x (cc)

encode-append : (s t : Text) → encode (s ++ t) ≡ encode s ++ encode t
unfolding encode
encode-append [] t = refl
encode-append (c ∷ s) t =
    ap (encode_unit c ++◌) (encode-append s t)
    ∙ sym (append_assoc (encode_unit c) (encode s) (encode t))

-- The code is prefix-free: equal codes begin with the same unit.
encode_unit-injective :
    (c d : ℕ) (x y : Text)
    → IsUnit16 c
    → IsUnit16 d
    → encode_unit c ++ x ≡ encode_unit d ++ y
    → c ≡ d
encode_unit-injective c d x y hc hd e =
    cc (decode_in-encode_unit c x hc, decode_in-encode_unit d y hd, ap (decode_in plain) e)

-- Of two texts one begins with the other.
abbrev pub Comparable : Text → Text → Type 0
Comparable s t = IsPrefix s t ⊎ IsPrefix t s

Comparable-cons : {c d : ℕ} (s t : Text) → c ≡ d → Comparable s t → Comparable (c ∷ s) (d ∷ t)
Comparable-cons s t e (inl (r, h)) = inl (r, cc)
Comparable-cons s t e (inr (r, h)) = inr (r, cc)

encode-Comparable :
    (q n r u : Text)
    → All IsUnit16 q
    → All IsUnit16 n
    → encode n ++ u ≡ encode q ++ r
    → Comparable q n
unfolding encode
encode-Comparable [] n r u hq hn e = inl (n, refl)
encode-Comparable (c ∷ q) [] r u hq hn e = inr (c ∷ q, refl)
encode-Comparable (c ∷ q) (d ∷ n) r u (hc, hq) (hd, hn) e =
    let e' : encode_unit d ++ (encode n ++ u) ≡ encode_unit c ++ (encode q ++ r) =
      sym (append_assoc (encode_unit d) (encode n) u)
      ∙ e
      ∙ append_assoc (encode_unit c) (encode q) r in
    let same = encode_unit-injective d c _ _ hd hc e' in
    let tails = append-cancel_left (encode_unit c) (rw same at e') in
    Comparable-cons q n (sym same) (encode-Comparable q n r u hq hn tails)

module _ (q n u : Text) (hq : All IsUnit16 q) (hn : All IsUnit16 n) where
  -- A row whose name begins with the query is kept, whatever follows the name in its id.
  pub row_matches-of_prefix :
      IsPrefix q n → row_matches (convert_to_id q) (convert_to_id n ++ u) ≡ true
  row_matches-of_prefix (r, e) = row_matches_of_IsPrefix _ _ (
    encode r ++ u,
    rw (convert_to_id-eq-encode n, convert_to_id-eq-encode q, e, encode-append q r)
        (append_assoc (encode q) (encode r) u),
  )

  pub Comparable-of_row_matches :
      row_matches (convert_to_id q) (convert_to_id n ++ u) ≡ true → Comparable q n
  Comparable-of_row_matches h =
      let (r, e) = row_matches-IsPrefix _ _ h in
      let codes_eq =
        sym (ap (λ x. x ++ u) (convert_to_id-eq-encode n))
        ∙ e
        ∙ ap (λ x. x ++ r) (convert_to_id-eq-encode q) in
      encode-Comparable q n r u hq hn codes_eq

length-le_of_IsPrefix : (s t : Text) → IsPrefix s t → length s ≤ length t
length-le_of_IsPrefix s t (r, e) = rw e (omega (arith, length-append s r))

-- For every name: the row of this name with the number 40 matches the query of the name and `@`,
-- with which the name does not begin.
pub found_by_number :
    (name : Text)
    → (row_matches (convert_to_id (name ++ codes "@")) (convert_to_id name ++ codes "_40") ≡ true)
      × ¬ IsPrefix (name ++ codes "@") name
unfolding encode encode_unit
found_by_number name = (
  row_matches_of_IsPrefix _ _ (
    [],
    rw
        (
          convert_to_id-eq-encode name,
          convert_to_id-eq-encode (name ++ codes "@"),
          encode-append name (codes "@"),
          append-nil,
        )
        refl,
  ),
  λ k. absurd (omega (arith, length-append name (codes "@"), length-le_of_IsPrefix _ _ k)),
)
