-- ===== src/Search/Ids/Codec.antt =====
-- `convertToId` of docs/documentation/html/search/search.js and a decoder for it.
use com_client.Base.{
  ℕ, ◌+◌, ◌-◌, ◌*◌, ◌/◌, ◌%◌, ◌<◌, ◌≡◌, refl, sym, ap, ◌∙◌, Text, [], ◌∷◌, ◌++◌, if◌then◌else◌, ltb,
  ◌==◌, hex_digit, arith, ◌⊎◌, inl, inr, Bool-cases, All,
}
use mathlib.Core.List.{append_assoc, append-nil}
use com_client.Search.Ids.{is_plain, encode_unit, convert_from, convert_to_id}

-- The recursive reading of the loop.
unfoldable pub encode : Text → Text
unfolding encode_unit
encode [] = []
encode (c ∷ s) = encode_unit c ++ encode s

convert_from-eq : (result s : Text) → convert_from result s ≡ result ++ encode s
unfolding convert_from encode
convert_from-eq result [] = sym (append-nil result)
convert_from-eq result (c ∷ s) =
    convert_from-eq (result ++ encode_unit c) s ∙ append_assoc result (encode_unit c) (encode s)

pub convert_to_id-eq-encode : (s : Text) → convert_to_id s ≡ encode s
unfolding convert_to_id
convert_to_id-eq-encode s = convert_from-eq [] s

-- The inverse: `_` introduces two hexadecimal digits.
unfoldable pub digit_value : ℕ → ℕ
digit_value d = if ltb d b'a' then d - b'0' else d - b'a' + 10

pub data Mode : Type 0 where
  plain : Mode
  first : Mode
  second : ℕ → Mode

pub decode_in : Mode → Text → Text
unfolding digit_value
decode_in m [] = []
decode_in plain (c ∷ s) =
    let escaped = decode_in first s in
    let kept = c ∷ decode_in plain s in if c == b'_' then escaped else kept
decode_in first (c ∷ s) = decode_in (second (digit_value c)) s
decode_in (second d) (c ∷ s) = (d * 16 + digit_value c) ∷ decode_in plain s

unfoldable pub decode : Text → Text
unfolding decode_in
decode s = decode_in plain s

-- A code unit of a string.
abbrev pub IsUnit16 : ℕ → Type 0
IsUnit16 c = c < 0x10000

digit_value-hex_digit : (d : ℕ) → d < 16 → digit_value (hex_digit d) ≡ d
unfolding digit_value hex_digit
digit_value-hex_digit d h = ground arith

pub decode_in-encode_unit :
    (c : ℕ) (s : Text) → IsUnit16 c → decode_in plain (encode_unit c ++ s) ≡ c ∷ decode_in plain s
unfolding encode_unit decode_in
decode_in-encode_unit c s h = ground arith

decode_in-encode : (s : Text) → All IsUnit16 s → decode_in plain (encode s) ≡ s
unfolding encode decode_in
decode_in-encode [] h = refl
decode_in-encode (c ∷ s) (h, hs) =
    decode_in-encode_unit c (encode s) h ∙ ap (c ∷◌) (decode_in-encode s hs)

-- On texts of 16-bit units, `convertToId` is undone by the decoder that reads `_` and two hex
-- digits as a unit.
pub decode-convert_to_id : (s : Text) → All IsUnit16 s → decode (convert_to_id s) ≡ s
unfolding decode
decode-convert_to_id s h = rw (convert_to_id-eq-encode s) (decode_in-encode s h)

-- A unit stands for itself or is written by two hexadecimal digits.
pub encode_unit-cases :
    (c : ℕ)
    → IsUnit16 c
    → (encode_unit c ≡ c ∷ [])
      ⊎ ((a : ℕ) × (b : ℕ) × (a < 16)
          × (b < 16)
          × (encode_unit c ≡ b'_' ∷ hex_digit a ∷ hex_digit b ∷ []))
unfolding encode_unit
encode_unit-cases c u = elim (Bool-cases (is_plain c)) [
  | inl e ↦ inl (ground arith)
  | inr e ↦ inr (c / 16, c % 16, ground arith, ground arith, ground arith)
]
