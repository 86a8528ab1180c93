-- ===== src/NavTree/Links/Laws.antt =====
-- The links of docs/documentation/html/navtree.js and the selector that looks for them.
use com_client.Base.{
  ◌≡◌, ◌⊎◌, inl, inr, refl, ap, ◌∙◌, Text, true, [], ◌∷◌, ◌++◌, reverse, starts_with, All, arith,
}
use mathlib.Core.List.{append_assoc}
use com_client.NavTree.Paths.{strip_path, path_name, is_address_unit, is_word}
use com_client.NavTree.Paths.Laws.{NoSlash, strip_path-append, strip_path-NoSlash}
use com_client.NavTree.Index.Targets.{NoHash}
use com_client.NavTree.Links.{replace_hash, plain_link, class_name, ends_with, selector}

replace_hash-append : (s t : Text) → NoHash s → replace_hash (s ++ b'#' ∷ t) ≡ s ++ b':' ∷ t
unfolding replace_hash
replace_hash-append [] t h = refl
replace_hash-append (c ∷ s) t (h, hs) = ground (arith, replace_hash-append s t hs)

starts_with_refl : (s : Text) → starts_with s s ≡ true
unfolding starts_with
starts_with_refl [] = refl
starts_with_refl (c ∷ s) = ground (arith, starts_with_refl s)

NoSlash-append : (s t : Text) → NoSlash s → NoSlash t → NoSlash (s ++ t)
NoSlash-append [] t h k = k
NoSlash-append (c ∷ s) t (h, hs) k = (h, NoSlash-append s t hs k)

path_name-plain : (s : Text) → All (λ c. is_address_unit c ≡ true) s → path_name s ≡ s
unfolding path_name
path_name-plain [] h = refl
path_name-plain (c ∷ s) (h, hs) = ground (arith, path_name-plain s hs)

-- The page's name is what stands behind its directory, if it is in one.
abbrev pub IsNameOf : Text → Text → Type 0
IsNameOf name page = (page ≡ name) ⊎ ((dir : Text) × (page ≡ dir ++ b'/' ∷ name))

strip_path-IsNameOf :
    (name page anchor : Text)
    → IsNameOf name page
    → NoSlash (name ++ b':' ∷ anchor)
    → strip_path (page ++ b':' ∷ anchor) ≡ name ++ b':' ∷ anchor
strip_path-IsNameOf name page anchor (inl e) h =
    ap (λ p. strip_path (p ++ b':' ∷ anchor)) e ∙ strip_path-NoSlash (name ++ b':' ∷ anchor) h
strip_path-IsNameOf name page anchor (inr (dir, e)) h =
    ap (λ p. strip_path (p ++ b':' ∷ anchor)) e
    ∙ ap strip_path (append_assoc dir (b'/' ∷ name) (b':' ∷ anchor))
    ∙ strip_path-append dir (name ++ b':' ∷ anchor) h

-- The class of a link to an anchor of a page.
class_name-link :
    (page name anchor : Text)
    → IsNameOf name page
    → NoSlash name
    → NoSlash anchor
    → NoHash page
    → plain_link (page ++ b'#' ∷ anchor) ≡ page ++ b'#' ∷ anchor
    → class_name (page ++ b'#' ∷ anchor) ≡ name ++ b':' ∷ anchor
unfolding class_name
class_name-link page name anchor named h k n plain =
    let colon : NoSlash (b':' ∷ anchor) = ground (arith, k) in
    ap (λ l. strip_path (replace_hash l)) plain
    ∙ ap strip_path (replace_hash-append page anchor n)
    ∙ strip_path-IsNameOf name page anchor named (NoSlash-append name (b':' ∷ anchor) h colon)

path_name-append : (s t : Text) → path_name (s ++ t) ≡ path_name s ++ path_name t
unfolding path_name
path_name-append [] t = refl
path_name-append (c ∷ s) t = ground (arith, path_name-append s t)

slash : is_address_unit b'/' ≡ true
unfolding is_address_unit is_word
slash = ground arith

selector-page :
    (base name anchor : Text)
    → NoSlash name
    → All (λ c. is_address_unit c ≡ true) name
    → selector (base ++ b'/' ∷ name) (b'#' ∷ anchor) ≡ name ++ b':' ∷ anchor
unfolding selector
selector-page base name anchor h a =
    let rest : path_name (b'/' ∷ name) ≡ b'/' ∷ name = path_name-plain (b'/' ∷ name) (slash, a) in
    let at : path_name (base ++ b'/' ∷ name) ≡ path_name base ++ b'/' ∷ name =
      path_name-append base (b'/' ∷ name) ∙ ap (λ t. path_name base ++ t) rest in
    ap (λ p. strip_path p ++ b':' ∷ anchor) at
    ∙ ap (λ p. p ++ b':' ∷ anchor) (strip_path-append (path_name base) name h)

-- For the entry of an anchor of a page, on the page itself and with the anchor as the hash: the
-- text that `selectAndHighlight` looks for is the end of the class of the entry's link. The link is to the
-- page at the documentation's root or in a directory. The page's name has only units that `pathName` keeps,
-- neither it nor the anchor has a `/`, the link has no `#` before the anchor, and no `^` in front, and the
-- page's own address has a `/` before the name.
pub selector-finds :
    (base page name anchor : Text)
    → IsNameOf name page
    → NoSlash name
    → NoSlash anchor
    → All (λ c. is_address_unit c ≡ true) name
    → NoHash page
    → plain_link (page ++ b'#' ∷ anchor) ≡ page ++ b'#' ∷ anchor
    → ends_with
        (selector (base ++ b'/' ∷ name) (b'#' ∷ anchor))
        (class_name (page ++ b'#' ∷ anchor))
      ≡ true
unfolding ends_with
selector-finds base page name anchor named h k a n plain =
    rw (selector-page base name anchor h a, class_name-link page name anchor named h k n plain)
      (starts_with_refl (reverse (name ++ b':' ∷ anchor)))
