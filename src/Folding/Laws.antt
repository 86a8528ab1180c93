-- ===== src/Folding/Laws.antt =====
-- The sections of docs/documentation/html/dynsections.js, folded and unfolded.
use com_client.Base.{
  ◌-◌, ◌≡◌, refl, ap, ◌∙◌, Text, codes, Bool, true, false, not, List, [], ◌∷◌, ◌++◌, map,
  if◌then◌else◌, arith, length, take, length-append, take-length_append,
}
use com_client.Folding.{cut, Section, toggle_visibility, Inherit, toggle_inherit}

cut-append : (s t : Text) → cut (length t) (s ++ t) ≡ s
unfolding cut
cut-append s t =
    let size : length (s ++ t) - length t ≡ length s = omega (arith, length-append s t) in
    ap (λ n. take n (s ++ t)) size ∙ take-length_append s t

-- A section as the pages have it, open or closed, with an image of the path.
abbrev pub section : Text → Bool → Section
section path open_now = record {
  content_visible = open_now;
  summary_visible = not open_now;
  opened = open_now;
  closed = not open_now;
  src = path ++ (if open_now then codes "open.png" else codes "closed.png");
}

-- A click turns an open section into the closed one and back: content, summary, classes and image.
pub toggle_visibility-section :
    (path : Text) (open_now : Bool)
    → toggle_visibility (section path open_now) ≡ section path (not open_now)
unfolding toggle_visibility
toggle_visibility-section path true = rw (cut-append path (codes "open.png")) refl
toggle_visibility-section path false = rw (cut-append path (codes "closed.png")) refl

abbrev pub inherited : Text → Bool → List Bool → Inherit
inherited path open_now rest = record {
  rows = open_now ∷ map (λ r. open_now) rest;
  src = path ++ (if open_now then codes "open.png" else codes "closed.png");
}

map-map {ℓ} :
    {A : Type ℓ} (a b : Bool) (xs : List A) → map (λ r. b) (map (λ r. a) xs) ≡ map (λ r. b) xs
map-map a b [] = refl
map-map a b (x ∷ xs) = ap (λ l. b ∷ l) (map-map a b xs)

-- The inherited members, of which there is at least one, all show or all hide, with the image.
pub toggle_inherit-inherited :
    (path : Text) (open_now : Bool) (rest : List Bool)
    → toggle_inherit (inherited path open_now rest) ≡ inherited path (not open_now) rest
unfolding toggle_inherit
toggle_inherit-inherited path true rest =
    rw (cut-append path (codes "open.png"), map-map true false rest) refl
toggle_inherit-inherited path false rest =
    rw (cut-append path (codes "closed.png"), map-map false true rest) refl
