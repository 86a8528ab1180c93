-- ===== src/NavTree/Links.antt =====
-- The links of docs/documentation/html/navtree.js: what `newNode` makes of an entry's address, and
-- the selector by which `selectAndHighlight` finds it again.
pub mod Laws
use com_client.Base.{
  ℕ, suc, ◌+◌, ◌*◌, Text, codes, Bool, true, false, not, ◌&&◌, List, [], ◌∷◌, ◌++◌, if◌then◌else◌,
  ◌==◌, Option, none, some, drop, text_eq, reverse, starts_with,
}
use com_client.NavTree.Paths.{strip_path, path_name}
use com_client.NavTree.Index.{before_hash, after_hash}

-- `link.replace('#',':')`, which replaces the first one only.
unfoldable pub replace_hash : Text → Text
replace_hash [] = []
replace_hash (c ∷ s) = if c == b'#' then b':' ∷ s else c ∷ replace_hash s

-- The link behind a leading `^`, which says that it is not below the documentation's root.
unfoldable pub plain_link : Text → Text
plain_link [] = []
plain_link (c ∷ s) = if c == b'^' then s else c ∷ s

unfoldable pub link_url : Text → Text → Text
link_url relpath [] = relpath
link_url relpath (c ∷ s) = if c == b'^' then s else relpath ++ c ∷ s

-- `a.className`
unfoldable pub class_name : Text → Text
unfolding strip_path replace_hash plain_link
class_name link = strip_path (replace_hash (plain_link link))

abbrev no_reload : Text
no_reload = codes "javascript:void(0)"

-- `a.href`, on the page with this `location.pathname`: a link into the page itself does not load it.
unfoldable pub link_href : Text → Text → Text → Text
unfolding strip_path path_name plain_link before_hash after_hash link_url
link_href relpath path link = elim (after_hash (plain_link link)) [
  | none ↦ link_url relpath link
  | some anchor ↦
      if text_eq (strip_path (path_name path)) (strip_path (before_hash (plain_link link)))
      then no_reload
      else link_url relpath link
]

-- What `[class$="..."]` asks of a class.
unfoldable pub ends_with : Text → Text → Bool
unfolding starts_with
ends_with suffix s = starts_with (reverse suffix) (reverse s)

-- The text that `selectAndHighlight` looks for, on the page with this path.
unfoldable pub selector : Text → Text → Text
unfolding strip_path path_name
selector path hash = strip_path (path_name path) ++ b':' ∷ drop 1 hash

-- The width of the indent of an entry at this level below the root.
unfoldable pub indent : Bool → ℕ → ℕ
indent has_children level = if has_children then 16 * level else 16 * (level + 1)
