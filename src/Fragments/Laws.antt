-- ===== src/Fragments/Laws.antt =====
-- The text that docs/doxygen-awesome-fragment-copy-button.js copies.
use com_client.Base.{
  ℕ, zero, suc, ◌+◌, ◌-◌, ◌≤◌, ◌<◌, ◌≡◌, ◌≢◌, refl, sym, ap, ◌∙◌, Text, true, false, [], ◌∷◌, ◌++◌,
  some, length, take, drop, get_elem?, ltb, arith, Bool-cases, Option-cases, inl, inr,
  take-append-drop, length-append,
}
use com_client.Fragments.{is_newline_at, count_newlines, trailing_newlines, copied_text}

-- The `n` characters at the end are newlines.
abbrev EndsIn : ℕ → Text → Type 0
EndsIn zero s = Unit
EndsIn (suc n) s = (is_newline_at n s ≡ true) × EndsIn n s

count_newlines-EndsIn : (f n : ℕ) (s : Text) → EndsIn n s → EndsIn (count_newlines f n s) s
unfolding count_newlines
count_newlines-EndsIn zero n s h = h
count_newlines-EndsIn (suc f) n s h = elim (Bool-cases (is_newline_at n s)) [
  | inl e ↦ rw e (count_newlines-EndsIn f (suc n) s (e, h))
  | inr e ↦ rw e h
]

count_newlines-stop :
    (f n : ℕ) (s : Text) → length s ≤ f + n → is_newline_at (count_newlines f n s) s ≡ false
unfolding count_newlines
count_newlines-stop zero n s h = unfold is_newline_at in ground arith
count_newlines-stop (suc f) n s h = elim (Bool-cases (is_newline_at n s)) [
  | inl e ↦ rw e (count_newlines-stop f (suc n) s (omega arith))
  | inr e ↦ rw e e
]

newline-there :
    (n : ℕ) (s : Text)
    → is_newline_at n s ≡ true
    → (n < length s) × (get_elem? s (length s - (n + 1)) ≡ some b'\n')
unfolding is_newline_at
newline-there n s h = elim (Bool-cases (ltb n (length s))) [
  | inl e ↦ elim (Option-cases (get_elem? s (length s - (n + 1)))) [
    | inl k ↦ absurd (ground (arith, k, e))
    | inr (c, k) ↦ (ground arith, k ∙ ap some (ground arith))
  ]
  | inr e ↦ absurd (ground (arith, e))
]

drop-step : (i c : ℕ) (s : Text) → get_elem? s i ≡ some c → drop i s ≡ c ∷ drop (suc i) s
drop-step i c [] e = cc
drop-step zero c (d ∷ s) e = ground arith
drop-step (suc i) c (d ∷ s) e = drop-step i c s e

drop-length : (s : Text) → drop (length s) s ≡ []
drop-length [] = refl
drop-length (c ∷ s) = drop-length s

abbrev pub newlines : ℕ → Text
newlines zero = []
newlines (suc n) = b'\n' ∷ newlines n

EndsIn-drop : (n : ℕ) (s : Text) → EndsIn n s → drop (length s - n) s ≡ newlines n
EndsIn-drop zero s h = ap (λ m. drop m s) (omega arith) ∙ drop-length s
EndsIn-drop (suc n) s (e, h) =
    let (le, at) = newline-there n s e in
    let next : suc (length s - suc n) ≡ length s - n = omega arith in
    let here : get_elem? s (length s - suc n) ≡ some b'\n' =
      ap (λ m. get_elem? s (length s - m)) (omega arith) ∙ at in
    drop-step (length s - suc n) b'\n' s here
    ∙ ap (λ m. b'\n' ∷ drop m s) next
    ∙ ap (λ l. b'\n' ∷ l) (EndsIn-drop n s h)

length-take_le : (n : ℕ) (s : Text) → n ≤ length s → length (take n s) ≡ n
length-take_le zero s h = refl
length-take_le (suc n) [] h = omega arith
length-take_le (suc n) (c ∷ s) h = ap suc (length-take_le n s (omega arith))

get_elem?-take_lt : (n i : ℕ) (s : Text) → i < n → get_elem? (take n s) i ≡ get_elem? s i
get_elem?-take_lt zero i s h = absurd (omega arith)
get_elem?-take_lt (suc n) i [] h = refl
get_elem?-take_lt (suc n) zero (c ∷ s) h = refl
get_elem?-take_lt (suc n) (suc i) (c ∷ s) h = get_elem?-take_lt n i s (omega arith)

newline-here :
    (n : ℕ) (s : Text)
    → n < length s
    → get_elem? s (length s - (n + 1)) ≡ some b'\n'
    → is_newline_at n s ≡ true
unfolding is_newline_at
newline-here n s le at = ground (arith, at)

no_newline-take :
    (n : ℕ) (s : Text)
    → n ≤ length s
    → is_newline_at n s ≡ false
    → is_newline_at 0 (take (length s - n) s) ≡ false
no_newline-take n s short h = elim (Bool-cases (is_newline_at 0 (take (length s - n) s))) [
  | inr e ↦ e
  | inl e ↦
      let (some_left, at) = newline-there 0 (take (length s - n) s) e in
      let size : length (take (length s - n) s) ≡ length s - n =
        length-take_le (length s - n) s (omega arith) in
      let lt : n < length s = omega arith in
      let same : get_elem? s (length s - (n + 1)) ≡ some b'\n' =
        ap (λ m. get_elem? s m) (omega arith)
        ∙ sym (
            get_elem?-take_lt (length s - n) (length (take (length s - n) s) - (0 + 1)) s
              (omega arith))
        ∙ at in
      absurd (ground (arith, newline-here n s lt same))
]

count_newlines-le : (f n : ℕ) (s : Text) → n ≤ length s → count_newlines f n s ≤ length s
unfolding count_newlines
count_newlines-le zero n s h = h
count_newlines-le (suc f) n s h = elim (Bool-cases (is_newline_at n s)) [
  | inl e ↦ let (lt, at) = newline-there n s e in rw e (count_newlines-le f (suc n) s (omega arith))
  | inr e ↦ rw e h
]

get_elem?-last : (c : ℕ) (t : Text) → get_elem? (t ++ c ∷ []) (length t) ≡ some c
get_elem?-last c [] = refl
get_elem?-last c (d ∷ t) = get_elem?-last c t

newline-last : (t : Text) → is_newline_at 0 (t ++ b'\n' ∷ []) ≡ true
newline-last t =
    let size : length (t ++ b'\n' ∷ []) ≡ length t + 1 = length-append t (b'\n' ∷ []) in
    newline-here 0 (t ++ b'\n' ∷ []) (omega arith)
      (ap (λ i. get_elem? (t ++ b'\n' ∷ []) i) (omega arith) ∙ get_elem?-last b'\n' t)

-- What is copied of a text is the text without the newlines at its end: with them put back it is the text,
-- and it does not end in a newline itself.
pub copied_text-trimmed :
    (s : Text)
    → (copied_text s ++ newlines (trailing_newlines s) ≡ s)
      × ((t : Text) → copied_text s ≢ t ++ b'\n' ∷ [])
unfolding copied_text trailing_newlines
copied_text-trimmed s =
    let n = count_newlines (length s) 0 s in
    let all = count_newlines-EndsIn (length s) 0 s tt in
    let short = count_newlines-le (length s) 0 s (omega arith) in
    (
      ap (λ l. take (length s - n) s ++ l) (sym (EndsIn-drop n s all))
          ∙ take-append-drop (length s - n) s,
      λ t e.
          let left = no_newline-take n s short (count_newlines-stop (length s) 0 s (omega arith)) in
          let last = newline-last t in
          let same : is_newline_at 0 (copied_text s) ≡ is_newline_at 0 (t ++ b'\n' ∷ []) =
            ap (is_newline_at 0) e in
          ground (arith, left, last, same),
    )
