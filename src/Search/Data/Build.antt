-- ===== src/Search/Data/Build.antt =====
-- How the entries of the generated search data of docs/documentation/html/search/ are written down.
use Prim.Native.String.{String}
use com_client.Base.{Text, codes, true, List, [], ◌∷◌, ◌++◌}
use com_client.Search.Results.{Hit, Entry}

-- A page of results: its name, without extension, and the `searchData` that it loads.
pub record File : Type 0 where
  pub name : Text
  pub entries : List Entry

abbrev pub file : String → List Entry → File
file name entries = record { name = codes name; entries = entries }

-- [page + hash, 1, scope]
abbrev pub at : Text → String → String → Hit
at page hash scope = record { href = page ++ codes hash; in_parent = true; scope = codes scope }

-- [id, [label, [page + hash, 1, scope], ...]]
abbrev pub many : String → String → List Hit → Entry
many id label hits = record { id = codes id; label = codes label; hits = hits }

-- An entry with one place.
abbrev pub one : String → String → Text → String → String → Entry
one id label page hash scope = many id label (at page hash scope ∷ [])

-- The pages that most places are on.
abbrev pub lsl_c : Text
lsl_c = codes "../db/df3/lsl__c_8h.html"

abbrev pub outlet : Text
outlet = codes "../d6/d55/classlsl_1_1stream__outlet.html"

abbrev pub inlet : Text
inlet = codes "../d6/dbd/classlsl_1_1stream__inlet.html"

abbrev pub esc : Text
esc = codes "../d2/d52/namespace_e_s_c.html"

abbrev pub lsl : Text
lsl = codes "../d3/db0/namespacelsl.html"

abbrev pub xml : Text
xml = codes "../d9/d90/classlsl_1_1xml__element.html"

abbrev pub info : Text
info = codes "../d1/d6a/classlsl_1_1stream__info.html"

abbrev pub c_id : Text
c_id = codes "../d1/d3a/_c_make_c_compiler_id_8c.html"

abbrev pub cxx_id : Text
cxx_id = codes "../d3/d66/_c_make_c_x_x_compiler_id_8cpp.html"

abbrev pub client : Text
client = codes "../df/dcd/class_communication_1_1_client.html"

abbrev pub cli : Text
cli = codes "../dc/d44/class_e_s_c_1_1_c_l_i.html"

abbrev pub resolver : Text
resolver = codes "../d4/d27/classlsl_1_1continuous__resolver.html"

abbrev pub http : Text
http = codes "../d7/d60/class_communication_1_1_h_t_t_p__client.html"

abbrev pub server : Text
server = codes "../dc/db1/class_communication_1_1_server.html"

abbrev pub header : Text
header = codes "../dc/d13/com__client_8hpp.html"

abbrev pub c_api : String → String → String → Entry
c_api id label hash = one id label lsl_c hash "lsl_c.h"

abbrev pub esc_item : String → String → String → Entry
esc_item id label hash = one id label esc hash "ESC"

abbrev pub lsl_item : String → String → String → Entry
lsl_item id label hash = one id label lsl hash "lsl"
