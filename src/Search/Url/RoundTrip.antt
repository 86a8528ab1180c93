-- ===== src/Search/Url/RoundTrip.antt =====
-- `escape` and `unescape`, as docs/documentation/html/search/search.js uses them, one after the other.
use com_client.Base.{
  ℕ, zero, suc, ◌+◌, ◌*◌, ◌/◌, ◌%◌, ◌≤◌, ◌<◌, ◌≡◌, refl, ap, ◌∙◌, Text, [], ◌∷◌, ◌++◌, length, some,
  All, arith, length-append, ◌≢◌, true, false, Bool-cases, inl, inr, ltb,
}
use com_client.Search.Ids.Codec.{IsUnit16}
use com_client.Search.Url.{
  is_kept, upper_digit, escape_unit, escape, digit_value, read_hex, read_escape, unescape_within,
  unescape,
}

digit_value-upper_digit : (d : ℕ) → d < 16 → digit_value (upper_digit d) ≡ some d
unfolding digit_value upper_digit
digit_value-upper_digit d h = ground arith

read_hex_zero : (v : ℕ) (s : Text) → read_hex 0 v s ≡ some (v, s)
unfolding read_hex
read_hex_zero v s = refl

escape_unit_small :
    (c : ℕ)
    → is_kept c ≡ false
    → ltb c 256 ≡ true
    → escape_unit c ≡ b'%' ∷ upper_digit (c / 16) ∷ upper_digit (c % 16) ∷ []
escape_unit_small c k h = unfold escape_unit in rw (k, h)

escape_unit_big :
    (c : ℕ)
    → is_kept c ≡ false
    → ltb c 256 ≡ false
    → escape_unit c
      ≡ b'%'
        ∷ b'u'
        ∷ upper_digit (c / 4096)
        ∷ upper_digit (c / 256 % 16)
        ∷ upper_digit (c / 16 % 16)
        ∷ upper_digit (c % 16)
        ∷ []
escape_unit_big c k h = unfold escape_unit in rw (k, h)

read_hex-upper_digit :
    (n v d : ℕ) (s : Text)
    → d < 16
    → read_hex (suc n) v (upper_digit d ∷ s) ≡ read_hex n (v * 16 + d) s
unfolding read_hex
read_hex-upper_digit n v d s h = ground (arith, digit_value-upper_digit d h)

upper_digit-ne-u : (d : ℕ) → d < 16 → upper_digit d ≢ b'u'
unfolding upper_digit
upper_digit-ne-u d h = ground arith

is_kept-ne-percent : (c : ℕ) → is_kept c ≡ true → c ≢ b'%'
unfolding is_kept
is_kept-ne-percent c h = ground arith

read_escape-two :
    (a b : ℕ) (s : Text)
    → a < 16
    → b < 16
    → read_escape (upper_digit a ∷ upper_digit b ∷ s) ≡ some (a * 16 + b, s)
unfolding read_escape
read_escape-two a b s ha hb =
    let first = read_hex-upper_digit 1 0 a (upper_digit b ∷ s) ha in
    let second = read_hex-upper_digit 0 (0 * 16 + a) b s hb in
    ground (arith, upper_digit-ne-u a ha, first, second, read_hex_zero ((0 * 16 + a) * 16 + b) s)

read_escape-four :
    (a b c d : ℕ) (s : Text)
    → a < 16
    → b < 16
    → c < 16
    → d < 16
    → read_escape (b'u' ∷ upper_digit a ∷ upper_digit b ∷ upper_digit c ∷ upper_digit d ∷ s)
      ≡ some (((a * 16 + b) * 16 + c) * 16 + d, s)
unfolding read_escape
read_escape-four a b c d s ha hb hc hd = ground (
  arith,
  read_hex-upper_digit 3 0 a (upper_digit b ∷ upper_digit c ∷ upper_digit d ∷ s) ha,
  read_hex-upper_digit 2 (0 * 16 + a) b (upper_digit c ∷ upper_digit d ∷ s) hb,
  read_hex-upper_digit 1 ((0 * 16 + a) * 16 + b) c (upper_digit d ∷ s) hc,
  read_hex-upper_digit 0 (((0 * 16 + a) * 16 + b) * 16 + c) d s hd,
  read_hex_zero ((((0 * 16 + a) * 16 + b) * 16 + c) * 16 + d) s,
)

unescape_within-percent :
    (f : ℕ) (s : Text) {v : ℕ} {rest : Text}
    → read_escape s ≡ some (v, rest)
    → unescape_within (suc f) (b'%' ∷ s) ≡ v ∷ unescape_within f rest
unfolding unescape_within
unescape_within-percent f s e = ground arith

unescape_within-kept :
    (f c : ℕ) (s : Text) → c ≢ b'%' → unescape_within (suc f) (c ∷ s) ≡ c ∷ unescape_within f s
unfolding unescape_within
unescape_within-kept f c s h = ground arith

unescape_within-escape_unit :
    (f c : ℕ) (s : Text)
    → IsUnit16 c
    → unescape_within (suc f) (escape_unit c ++ s) ≡ c ∷ unescape_within f s
unescape_within-escape_unit f c s h = elim (Bool-cases (is_kept c)) [
  | inl k ↦ unfold escape_unit in rw k (unescape_within-kept f c s (is_kept-ne-percent c k))
  | inr k ↦ elim (Bool-cases (ltb c 256)) [
    | inl small ↦ rw (escape_unit_small c k small) (
        unescape_within-percent f _
          (read_escape-two (c / 16) (c % 16) s (ground arith) (ground arith))
        ∙ ap (λ v. v ∷ unescape_within f s) (omega arith))
    | inr big ↦ rw (escape_unit_big c k big) (
        unescape_within-percent f _ (
          read_escape-four (c / 4096) (c / 256 % 16) (c / 16 % 16) (c % 16) s (omega arith)
            (omega arith) (omega arith) (omega arith))
        ∙ ap (λ v. v ∷ unescape_within f s) (omega arith))
  ]
]

unescape_within-escape :
    (f : ℕ) (s : Text) → length s ≤ f → All IsUnit16 s → unescape_within f (escape s) ≡ s
unfolding escape
unescape_within-escape zero [] h u = unfold unescape_within in refl
unescape_within-escape (suc f) [] h u = unfold unescape_within in refl
unescape_within-escape zero (c ∷ s) h u = absurd (omega arith)
unescape_within-escape (suc f) (c ∷ s) h (u, us) =
    unescape_within-escape_unit f c (escape s) u
    ∙ ap (c ∷◌) (unescape_within-escape f s (omega arith) us)

length-escape_unit : (c : ℕ) → 1 ≤ length (escape_unit c)
unfolding escape_unit
length-escape_unit c = ground arith

length-escape : (s : Text) → length s ≤ length (escape s)
unfolding escape
length-escape [] = omega arith
length-escape (c ∷ s) =
    omega (arith, length-append (escape_unit c) (escape s), length-escape_unit c, length-escape s)

pub unescape-escape : (s : Text) → All IsUnit16 s → unescape (escape s) ≡ s
unfolding unescape
unescape-escape s u = unescape_within-escape (length (escape s)) s (length-escape s) u
