-- ===== src/NavTree/Site/Sources.antt =====
-- The children of the source files in the tree, as generated in docs/documentation/html/.
use com_client.Base.{codes, List, [], ◌∷◌}
use com_client.NavTree.Pages.{c_id, cxx_id, iseq_cpp}
use com_client.NavTree.Tree.{Rows}
use com_client.NavTree.Site.Build.{Script, rows_of, plain, part}

-- docs/documentation/html/d0/d3f/lib_2str_a_n_s_iseq_2src_2main_8cpp.js
abbrev pub lib_2str_a_n_s_iseq_2src_2main_8cpp : Rows
lib_2str_a_n_s_iseq_2src_2main_8cpp = rows_of (
    plain "main" "d0/d3f/lib_2str_a_n_s_iseq_2src_2main_8cpp.html#a3c04138a5bfe5d72780bb7e82a18e627"
    ∷ [])

-- docs/documentation/html/d1/d3a/_c_make_c_compiler_id_8c.js
abbrev pub c_make_c_compiler_id_8c : Rows
c_make_c_compiler_id_8c = rows_of (
    part "__has_include" c_id "#ae5510d82e4946f1656f4969911c54736"
    ∷ part "ARCHITECTURE_ID" c_id "#aba35d0d200deaeb06aee95ca297acb28"
    ∷ part "C_VERSION" c_id "#adaee3ee7c5a7a22451ea25e762e1d7d5"
    ∷ part "COMPILER_ID" c_id "#a81dee0709ded976b2e0319239f72d174"
    ∷ part "DEC" c_id "#ad1280362da42492bbc11aa78cbf776ad"
    ∷ part "HEX" c_id "#a46d5d95daa1bef867bd0179594310ed5"
    ∷ part "PLATFORM_ID" c_id "#adbc5372f40838899018fadbc89bd588b"
    ∷ part "STRINGIFY" c_id "#a43e1cad902b6477bec893cb6430bd6c8"
    ∷ part "STRINGIFY_HELPER" c_id "#a2ae9b72bb13abaabfcf2ee0ba7d3fa1d"
    ∷ part "main" c_id "#a0ddf1224851353fc92bfbff6f499fa97"
    ∷ part "info_arch" c_id "#a59647e99d304ed33b15cb284c27ed391"
    ∷ part "info_compiler" c_id "#a4b0efeb7a5d59313986b3a0390f050f6"
    ∷ part "info_language_extensions_default" c_id "#a0f46a8a39e09d9b803c4766904fd7e99"
    ∷ part "info_language_standard_default" c_id "#a4607cccf070750927b458473ca82c090"
    ∷ part "info_platform" c_id "#a2321403dee54ee23f0c2fa849c60f7d4"
    ∷ [])

-- docs/documentation/html/d3/d66/_c_make_c_x_x_compiler_id_8cpp.js
abbrev pub c_make_c_x_x_compiler_id_8cpp : Rows
c_make_c_x_x_compiler_id_8cpp = rows_of (
    part "__has_include" cxx_id "#ae5510d82e4946f1656f4969911c54736"
    ∷ part "ARCHITECTURE_ID" cxx_id "#aba35d0d200deaeb06aee95ca297acb28"
    ∷ part "COMPILER_ID" cxx_id "#a81dee0709ded976b2e0319239f72d174"
    ∷ part "CXX_STD" cxx_id "#a34cc889e576a1ae6c84ae9e0a851ba21"
    ∷ part "DEC" cxx_id "#ad1280362da42492bbc11aa78cbf776ad"
    ∷ part "HEX" cxx_id "#a46d5d95daa1bef867bd0179594310ed5"
    ∷ part "PLATFORM_ID" cxx_id "#adbc5372f40838899018fadbc89bd588b"
    ∷ part "STRINGIFY" cxx_id "#a43e1cad902b6477bec893cb6430bd6c8"
    ∷ part "STRINGIFY_HELPER" cxx_id "#a2ae9b72bb13abaabfcf2ee0ba7d3fa1d"
    ∷ part "main" cxx_id "#a0ddf1224851353fc92bfbff6f499fa97"
    ∷ part "info_arch" cxx_id "#a59647e99d304ed33b15cb284c27ed391"
    ∷ part "info_compiler" cxx_id "#a4b0efeb7a5d59313986b3a0390f050f6"
    ∷ part "info_language_extensions_default" cxx_id "#a0f46a8a39e09d9b803c4766904fd7e99"
    ∷ part "info_language_standard_default" cxx_id "#a4607cccf070750927b458473ca82c090"
    ∷ part "info_platform" cxx_id "#a2321403dee54ee23f0c2fa849c60f7d4"
    ∷ [])

-- docs/documentation/html/dd/d40/str_a_n_s_iseq_8cpp.js
abbrev pub str_a_n_s_iseq_8cpp : Rows
str_a_n_s_iseq_8cpp = rows_of (
    part "fstr" iseq_cpp "#a080ff5f5b8a2ed3567a541acfa69a425"
    ∷ part "fstr_link" iseq_cpp "#a07d7fd8adc58054bde19b14556a8d945"
    ∷ part "get_pos" iseq_cpp "#a1ab0660788056c78944278261498664a"
    ∷ part "move_down" iseq_cpp "#a0339f1bf272536a7645b373a503b4928"
    ∷ part "move_left" iseq_cpp "#a231a32f47e8c90921259a47ce621b1cc"
    ∷ part "move_right" iseq_cpp "#ac00ec90c2ccac2f1bcb6219b6f081ad5"
    ∷ part "move_to" iseq_cpp "#aabdbbf48acbc97aadc974b67b8f65d49"
    ∷ part "move_type" iseq_cpp "#a2dc320253a173af845d4317a62c45a6f"
    ∷ part "move_up" iseq_cpp "#ab8b0eda8f8c0d37419c0435cad5230e0"
    ∷ [])

-- docs/documentation/html/de/dfb/src_2main_8cpp.js
abbrev pub src_2main_8cpp : Rows
src_2main_8cpp =
    rows_of (plain "main" "de/dfb/src_2main_8cpp.html#a3c04138a5bfe5d72780bb7e82a18e627" ∷ [])

abbrev pub sources : List Script
sources =
    (record {
      name = codes "d0/d3f/lib_2str_a_n_s_iseq_2src_2main_8cpp";
      variable = codes "lib_2str_a_n_s_iseq_2src_2main_8cpp";
      children = lib_2str_a_n_s_iseq_2src_2main_8cpp;
    })
    ∷ (record {
      name = codes "d1/d3a/_c_make_c_compiler_id_8c";
      variable = codes "_c_make_c_compiler_id_8c";
      children = c_make_c_compiler_id_8c;
    })
    ∷ (record {
      name = codes "d3/d66/_c_make_c_x_x_compiler_id_8cpp";
      variable = codes "_c_make_c_x_x_compiler_id_8cpp";
      children = c_make_c_x_x_compiler_id_8cpp;
    })
    ∷ (record {
      name = codes "dd/d40/str_a_n_s_iseq_8cpp";
      variable = codes "str_a_n_s_iseq_8cpp";
      children = str_a_n_s_iseq_8cpp;
    })
    ∷ (record {
      name = codes "de/dfb/src_2main_8cpp";
      variable = codes "src_2main_8cpp";
      children = src_2main_8cpp;
    })
    ∷ []
