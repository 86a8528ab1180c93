-- ===== src/Search/Data/Kinds.antt =====
-- The generated search data of docs/documentation/html/search/: classes, namespaces and files.
use com_client.Base.{codes, List, [], ◌∷◌}
use com_client.Search.Results.{Entry}
use com_client.Search.Data.Build.{
  at, c_id, cli, client, cxx_id, esc, header, http, info, inlet, lsl, lsl_c, many, one, outlet,
  resolver, server, xml,
}

abbrev pub classes_0 : List Entry
classes_0 =
    one "cli_397" "CLI" cli "" "ESC"
    ∷ one "client_398" "Client" client "" "Communication"
    ∷ one "continuous_5fresolver_399" "continuous_resolver" resolver "" "lsl"
    ∷ []

abbrev pub classes_1 : List Entry
classes_1 = one "http_5fclient_400" "HTTP_client" http "" "Communication" ∷ []

abbrev pub classes_2 : List Entry
classes_2 =
    one "lost_5ferror_401" "lost_error" (codes "../de/d94/classlsl_1_1lost__error.html") "" "lsl"
    ∷ []

abbrev pub classes_3 : List Entry
classes_3 =
    one "server_402" "Server" server "" "Communication"
    ∷ one "stream_5finfo_403" "stream_info" info "" "lsl"
    ∷ one "stream_5finlet_404" "stream_inlet" inlet "" "lsl"
    ∷ one "stream_5foutlet_405" "stream_outlet" outlet "" "lsl"
    ∷ []

abbrev pub classes_4 : List Entry
classes_4 =
    one "timeout_5ferror_406" "timeout_error" (codes "../d4/d01/classlsl_1_1timeout__error.html") ""
      "lsl"
    ∷ []

abbrev pub classes_5 : List Entry
classes_5 = one "xml_5felement_407" "xml_element" xml "" "lsl" ∷ []

abbrev pub namespaces_0 : List Entry
namespaces_0 =
    one "communication_408" "Communication" (codes "../db/d7d/namespace_communication.html") "" ""
    ∷ []

abbrev pub namespaces_1 : List Entry
namespaces_1 = one "esc_409" "ESC" esc "" "" ∷ []

abbrev pub namespaces_2 : List Entry
namespaces_2 = one "lsl_410" "lsl" lsl "" "" ∷ []

abbrev pub files_0 : List Entry
files_0 =
    one "cmakeccompilerid_2ec_411" "CMakeCCompilerId.c" c_id "" ""
    ∷ one "cmakecxxcompilerid_2ecpp_412" "CMakeCXXCompilerId.cpp" cxx_id "" ""
    ∷ one "com_5fclient_2ecpp_413" "com_client.cpp" (codes "../d8/da5/com__client_8cpp.html") "" ""
    ∷ one "com_5fclient_2ecpp_2eo_2ed_414" "com_client.cpp.o.d"
        (codes "../d6/d45/com__client_8cpp_8o_8d.html") "" ""
    ∷ one "com_5fclient_2ehpp_415" "com_client.hpp" header "" ""
    ∷ []

abbrev pub files_1 : List Entry
files_1 =
    one "http_5fclient_2ecpp_416" "http_client.cpp" (codes "../d5/d08/http__client_8cpp.html") "" ""
    ∷ one "http_5fclient_2ecpp_2eo_2ed_417" "http_client.cpp.o.d"
        (codes "../dc/d95/http__client_8cpp_8o_8d.html") "" ""
    ∷ one "http_5fclient_2ehpp_418" "http_client.hpp" (codes "../d9/dcd/http__client_8hpp.html") ""
        ""
    ∷ []

abbrev pub files_2 : List Entry
files_2 =
    one "lsl_5fc_2eh_419" "lsl_c.h" lsl_c "" ""
    ∷ one "lsl_5fcpp_2eh_420" "lsl_cpp.h" (codes "../d1/d7c/lsl__cpp_8h.html") "" ""
    ∷ []

abbrev pub files_3 : List Entry
files_3 =
    many "main_2ecpp_421" "main.cpp" (
      at (codes "../d0/d3f/lib_2str_a_n_s_iseq_2src_2main_8cpp.html") "" "(Global Namespace)"
      ∷ at (codes "../de/dfb/src_2main_8cpp.html") "" "(Global Namespace)"
      ∷ [])
    ∷ many "main_2ecpp_2eo_2ed_422" "main.cpp.o.d" (
        at (codes "../d3/df7/_c_make_files_2com__client_8dir_2src_2main_8cpp_8o_8d.html") ""
          "(Global Namespace)"
        ∷ at
            (codes
              "../df/d3f/lib_2str_a_n_s_iseq_2_c_make_files_2str_a_n_s_iseq_8dir_2src_2main_8cpp_8o_8d.html")
            "" "(Global Namespace)"
        ∷ [])
    ∷ []

abbrev pub files_4 : List Entry
files_4 =
    many "readme_2emd_423" "README.md" (
      at (codes "../d8/d5d/lib_2str_a_n_s_iseq_2_r_e_a_d_m_e_8md.html") "" "(Global Namespace)"
      ∷ at (codes "../d9/dd6/_r_e_a_d_m_e_8md.html") "" "(Global Namespace)"
      ∷ at (codes "../d5/df2/tool__lib_2built__lsl_2_r_e_a_d_m_e_8md.html") "" "(Global Namespace)"
      ∷ [])
    ∷ []

abbrev pub files_5 : List Entry
files_5 =
    one "stransiseq_2ecpp_424" "strANSIseq.cpp" (codes "../dd/d40/str_a_n_s_iseq_8cpp.html") "" ""
    ∷ one "stransiseq_2ecpp_2eo_2ed_425" "strANSIseq.cpp.o.d"
        (codes "../db/df0/str_a_n_s_iseq_8cpp_8o_8d.html") "" ""
    ∷ one "stransiseq_2ehpp_426" "strANSIseq.hpp" (codes "../df/df2/str_a_n_s_iseq_8hpp.html") "" ""
    ∷ []
