-- ===== src/Resize/Laws.antt =====
-- The width that docs/documentation/html/resize.js keeps and restores.
use com_client.Base.{
  ℕ, zero, suc, ◌+◌, ◌*◌, ◌/◌, ◌%◌, ◌≤◌, ◌<◌, ◌≡◌, refl, ap, ◌∙◌, Text, codes, true, [], ◌∷◌, ltb,
  some, text_eq, index_of, starts_with, to_string, hex_digit, digits_onto, arith, Bool-cases, inl,
  inr, ◌⊎◌,
}
use com_client.Resize.{
  Jar, cookie_text, set_cookie, cookie_name, before_semicolon, read_cookie, write_cookie,
  number_from, State, resize_width, restore_width, kept_width, cookie_number, expanded_width,
  collapse_expand, resize_height, Event, drag, double_click, window, step, run, desktop_vp,
}

before_semicolon-digits :
    (f n : ℕ) (s : Text)
    → before_semicolon (digits_onto f 10 n s) ≡ digits_onto f 10 n (before_semicolon s)
unfolding before_semicolon digits_onto hex_digit
before_semicolon-digits zero n s = refl
before_semicolon-digits (suc f) n s = elim (Bool-cases (ltb n 10)) [
  | inl e ↦ ground (arith, e)
  | inr e ↦
      rw (e, digits_onto)
        (before_semicolon-digits f (n / 10) (hex_digit (n % 10) ∷ s)
          ∙ ap (λ t. digits_onto f 10 (n / 10) t) (ground arith))
]

number_from-digit :
    (m d : ℕ) (s : Text) → d < 10 → number_from m (hex_digit d ∷ s) ≡ number_from (m * 10 + d) s
unfolding number_from hex_digit
number_from-digit m d s h = ground arith

number_from-digits :
    (f n : ℕ) (s : Text) → n < f → number_from 0 (digits_onto f 10 n s) ≡ number_from n s
unfolding number_from digits_onto hex_digit
number_from-digits zero n s h = absurd (omega arith)
number_from-digits (suc f) n s h = elim (Bool-cases (ltb n 10)) [
  | inl e ↦ ground (arith, e)
  | inr e ↦
      let big : 10 ≤ n = ground arith in
      rw (e, digits_onto)
        (number_from-digits f (n / 10) (hex_digit (n % 10) ∷ s) (omega arith)
          ∙ number_from-digit (n / 10) (n % 10) s (omega arith)
          ∙ ap (λ m. number_from m s) (omega arith))
]

number_from-to_string : (n : ℕ) → number_from 0 (to_string 10 n) ≡ some n
unfolding to_string number_from
number_from-to_string n = number_from-digits (suc n) n [] (omega arith)

-- The cookie of the width, and no other.
abbrev pub width_jar : Text → Jar
width_jar val = (codes "doxygen_width", val) ∷ []

before_semicolon-to_string : (n : ℕ) → before_semicolon (to_string 10 n) ≡ to_string 10 n
unfolding to_string before_semicolon
before_semicolon-to_string n = before_semicolon-digits (suc n) n []

read_cookie-width :
    (val : Text)
    → read_cookie (codes "width") (cookie_text (width_jar val)) ≡ some (before_semicolon val)
unfolding read_cookie cookie_text index_of starts_with
read_cookie-width val = refl

kept_width-width : (n : ℕ) → kept_width (width_jar (to_string 10 n)) ≡ some n
unfolding kept_width cookie_number
kept_width-width n =
    ap cookie_number (read_cookie-width (to_string 10 n) ∙ ap some (before_semicolon-to_string n))
    ∙ number_from-to_string n

-- The margin of the content leaves room for the tree and the bar.
pub margin-step :
    (e : Event) (s : State)
    → s.margin ≡ s.nav_width + s.bar_width
    → (step e s).margin ≡ (step e s).nav_width + (step e s).bar_width
unfolding step
margin-step (drag width) s h = ground arith
margin-step double_click s h = ground arith
margin-step (window width) s h = ground arith

-- The site keeps no cookie but that of the width.
abbrev pub IsWidthJar : Jar → Type 0
IsWidthJar jar = (jar ≡ []) ⊎ ((val : Text) × (jar ≡ width_jar val))

jar-drag :
    (width : ℕ) (s : State)
    → IsWidthJar s.jar
    → (step (drag width) s).jar ≡ width_jar (to_string 10 width)
unfolding step resize_width write_cookie set_cookie cookie_name text_eq
jar-drag width s (inl e) = ground (arith, e)
jar-drag width s (inr (val, e)) = ground (arith, e)

nav_width-drag : (width : ℕ) (s : State) → (step (drag width) s).nav_width ≡ width
unfolding step resize_width
nav_width-drag width s = refl

window_width-drag : (width : ℕ) (s : State) → (step (drag width) s).window_width ≡ s.window_width
unfolding step resize_width
window_width-drag width s = refl

collapsed-nav_width :
    (s : State)
    → 0 < s.nav_width
    → ((collapse_expand s).nav_width ≡ 0)
      × ((collapse_expand s).jar ≡ s.jar)
      × ((collapse_expand s).window_width ≡ s.window_width)
unfolding collapse_expand restore_width
collapsed-nav_width s h = ground arith

expanded-nav_width :
    (s : State) (width : ℕ)
    → s.nav_width ≡ 0
    → kept_width s.jar ≡ some width
    → 200 < width
    → width < s.window_width
    → (collapse_expand s).nav_width ≡ width
unfolding collapse_expand restore_width expanded_width
expanded-nav_width s width h k low high = ground (arith, h, k)

-- The width that the user drags the tree to comes back: where the cookie is the site's only one, and
-- the width is above 200 and below that of the window, folding the tree by a double click and
-- unfolding it by another one restores the width, through the text of the cookie.
pub drag-restored :
    (width : ℕ) (s : State)
    → IsWidthJar s.jar
    → 200 < width
    → width < s.window_width
    → ((run (drag width ∷ double_click ∷ []) s).nav_width ≡ 0)
      × ((run (drag width ∷ double_click ∷ double_click ∷ []) s).nav_width ≡ width)
unfolding run step
drag-restored width s h low high =
    let dragged = step (drag width) s in
    let folded = step double_click dragged in
    let (zero_width, same_jar, same_window) =
      collapsed-nav_width dragged (omega (arith, nav_width-drag width s)) in
    let kept : kept_width folded.jar ≡ some width =
      ap kept_width (same_jar ∙ jar-drag width s h) ∙ kept_width-width width in
    (
      zero_width,
      expanded-nav_width folded width zero_width kept low
          (omega (arith, same_window, window_width-drag width s)),
    )

collapsed-drag :
    (width : ℕ) (s : State)
    → ((step (drag width) s).collapsed ≡ s.collapsed)
      × ((step (drag width) s).collapsed_width ≡ s.collapsed_width)
unfolding step resize_width
collapsed-drag width s = (refl, refl)

collapse_expand-collapsed :
    (s : State)
    → 0 < s.nav_width
    → ((collapse_expand s).collapsed ≡ true)
      × ((collapse_expand s).collapsed_width ≡ s.collapsed_width)
unfolding collapse_expand restore_width
collapse_expand-collapsed s h = ground arith

widened-folds :
    (s : State) (width : ℕ)
    → 0 < s.nav_width
    → s.collapsed ≡ true
    → s.collapsed_width < desktop_vp
    → desktop_vp < width
    → (step (window width) s).nav_width ≡ 0
unfolding step resize_height collapse_expand restore_width
widened-folds s width open_now folded small large = ground arith

-- A tree that was folded by a double click in a narrow window and dragged open again is folded when the
-- window grows beyond 768 pixels: dragging does not reset `collapsed`.
pub drag-folded_later :
    (width large : ℕ) (s : State)
    → 0 < s.nav_width
    → s.collapsed_width < desktop_vp
    → 0 < width
    → desktop_vp < large
    → (run (double_click ∷ drag width ∷ []) s).nav_width ≡ width
      × ((run (double_click ∷ drag width ∷ window large ∷ []) s).nav_width ≡ 0)
unfolding run step
drag-folded_later width large s open_now small wide grown =
    let folded = step double_click s in
    let dragged = step (drag width) folded in
    let (is_folded, same) = collapse_expand-collapsed s open_now in
    let (kept, narrow) = collapsed-drag width folded in
    (
      nav_width-drag width folded,
      widened-folds dragged large (omega (arith, nav_width-drag width folded)) (kept ∙ is_folded)
          (omega (arith, narrow, same)) grown,
    )
