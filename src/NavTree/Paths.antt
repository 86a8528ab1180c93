-- ===== src/NavTree/Paths.antt =====
-- The address helpers of docs/documentation/html/navtree.js.
pub mod Laws
use com_client.Base.{
  ℕ, zero, suc, ◌+◌, ◌-◌, Text, codes, Bool, true, false, ◌&&◌, ◌||◌, List, [], ◌∷◌, ◌++◌,
  if◌then◌else◌, ◌==◌, leb, Option, none, some, drop, take,
}

-- The part behind the last `/`, with what has been read since the last one.
unfoldable pub name_from : Text → Text → Text
name_from acc [] = acc
name_from acc (c ∷ s) = name_from (if c == b'/' then [] else acc ++ c ∷ []) s

-- `uri.substring(uri.lastIndexOf('/')+1)`
unfoldable pub strip_path : Text → Text
unfolding name_from
strip_path uri = name_from [] uri

-- `s.lastIndexOf('/')`, given the position of what is left and the last `/` so far; `none` is -1.
last_slash_from : ℕ → Option ℕ → Text → Option ℕ
last_slash_from i found [] = found
last_slash_from i found (c ∷ s) = last_slash_from (suc i) (if c == b'/' then some i else found) s

unfoldable pub last_slash : Text → Option ℕ
unfolding last_slash_from
last_slash s = last_slash_from 0 none s

-- `\w`
unfoldable pub is_word : ℕ → Bool
is_word c =
    leb b'a' c && leb c b'z' || leb b'A' c && leb c b'Z' || leb b'0' c && leb c b'9' || c == b'_'

-- A text of eight units that `/\/d\w\/d\w\w\/$/` accepts.
is_directory : Text → Bool
unfolding is_word
is_directory (a ∷ b ∷ c ∷ d ∷ e ∷ f ∷ g ∷ h ∷ []) =
    a == b'/'
    && b == b'd'
    && is_word c
    && d == b'/'
    && e == b'd'
    && is_word f
    && is_word g
    && h == b'/'
is_directory s = false

-- `uri.substring(0, i + 1)` ends in two levels of the generator's directories.
unfoldable pub ends_in_directory : Text → ℕ → Bool
unfolding is_directory
ends_in_directory uri i = leb 7 i && is_directory (take 8 (drop (i - 7) uri))

unfoldable pub strip_path2 : Text → Text
unfolding ends_in_directory
strip_path2 uri = elim (last_slash uri) [
  | none ↦ uri
  | some i ↦ if ends_in_directory uri i then drop (i - 6) uri else drop (i + 1) uri
]

-- `n.replace(/\-/g, '_')` on the name of a script.
unfoldable pub underscores : Text → Text
underscores [] = []
underscores (c ∷ s) = (if c == b'-' then b'_' else c) ∷ underscores s

-- The variable that `getData` evaluates.
unfoldable pub data_name : Text → Text
unfolding strip_path underscores
data_name var_name = underscores (strip_path var_name)

unfoldable pub keep_hash : Text → Text
unfolding is_word
keep_hash [] = []
keep_hash (c ∷ s) = if is_word c || c == b'-' then c ∷ keep_hash s else keep_hash s

-- `hash.substring(1).replace(/[^\w\-]/g, '')`
unfoldable pub hash_value : Text → Text
unfolding keep_hash
hash_value hash = keep_hash (drop 1 hash)

unfoldable pub hash_url : Text → Text
hash_url hash = b'#' ∷ hash_value hash

-- `[-A-Za-z0-9+&@#/%?=~_|!:,.;\(\)]`
unfoldable pub is_address_unit : ℕ → Bool
unfolding is_word
is_address_unit c =
    is_word c
    || c == b'-'
    || c == b'+'
    || c == b'&'
    || c == b'@'
    || c == b'#'
    || c == b'/'
    || c == b'%'
    || c == b'?'
    || c == b'='
    || c == b'~'
    || c == b'|'
    || c == b'!'
    || c == b':'
    || c == b','
    || c == b'.'
    || c == b';'
    || c == b'('
    || c == b')'

unfoldable pub path_name : Text → Text
unfolding is_address_unit
path_name [] = []
path_name (c ∷ s) = if is_address_unit c then c ∷ path_name s else path_name s
