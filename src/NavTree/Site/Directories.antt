-- ===== src/NavTree/Site/Directories.antt =====
-- The children of the directories in the tree, as generated in docs/documentation/html/.
use com_client.Base.{codes, List, [], ◌∷◌}
use com_client.NavTree.Tree.{Rows}
use com_client.NavTree.Site.Build.{Script, rows_of, plain, loads, holds}

-- docs/documentation/html/dir_127a0b13c4059b08a7f4d866ec5a21cc.js
abbrev pub dir_127a0b13c4059b08a7f4d866ec5a21cc : Rows
dir_127a0b13c4059b08a7f4d866ec5a21cc = rows_of (
    loads "CMakeFiles" "dir_4166fd07804cc527cdfc167b21a5330f.html"
      "dir_4166fd07804cc527cdfc167b21a5330f"
    ∷ [])

-- docs/documentation/html/dir_3280642a839541a29e29961741ef8ced.js
abbrev pub dir_3280642a839541a29e29961741ef8ced : Rows
dir_3280642a839541a29e29961741ef8ced =
    rows_of (plain "strANSIseq.cpp.o.d" "db/df0/str_a_n_s_iseq_8cpp_8o_8d.html" ∷ [])

-- docs/documentation/html/dir_40a07be7a32b2e45b448972e4bdb8ed5.js
abbrev pub dir_40a07be7a32b2e45b448972e4bdb8ed5 : Rows
dir_40a07be7a32b2e45b448972e4bdb8ed5 =
    rows_of (
      plain "main.cpp.o.d" "d3/df7/_c_make_files_2com__client_8dir_2src_2main_8cpp_8o_8d.html" ∷ [])

-- docs/documentation/html/dir_4166fd07804cc527cdfc167b21a5330f.js
abbrev pub dir_4166fd07804cc527cdfc167b21a5330f : Rows
dir_4166fd07804cc527cdfc167b21a5330f = rows_of (
    loads "strANSIseq.1.9.dir" "dir_a0aabf0f9c68f10a87f9043c02514b41.html"
      "dir_a0aabf0f9c68f10a87f9043c02514b41"
    ∷ loads "strANSIseq.dir" "dir_a95d52f81f463f3290acb9e3d34dacea.html"
        "dir_a95d52f81f463f3290acb9e3d34dacea"
    ∷ [])

-- docs/documentation/html/dir_470f4625da3256ec4a5c2be4bd4f8658.js
abbrev pub dir_470f4625da3256ec4a5c2be4bd4f8658 : Rows
dir_470f4625da3256ec4a5c2be4bd4f8658 = rows_of (
    loads "include" "dir_d623257484d3aadfc7ce1557f2d8c6b6.html"
      "dir_d623257484d3aadfc7ce1557f2d8c6b6"
    ∷ [])

-- docs/documentation/html/dir_4fef79e7177ba769987a8da36c892c5f.js
abbrev pub dir_4fef79e7177ba769987a8da36c892c5f : Rows
dir_4fef79e7177ba769987a8da36c892c5f = rows_of (
    loads "CMakeFiles" "dir_63772b626f2709090f0bdca0f40827b4.html"
      "dir_63772b626f2709090f0bdca0f40827b4"
    ∷ loads "lib" "dir_7a9c7094c62de71bbec4b12c7c975b93.html" "dir_7a9c7094c62de71bbec4b12c7c975b93"
    ∷ [])

-- docs/documentation/html/dir_5ccf6f5f6f8f5a0c68d52188c0c1e2bd.js
abbrev pub dir_5ccf6f5f6f8f5a0c68d52188c0c1e2bd : Rows
dir_5ccf6f5f6f8f5a0c68d52188c0c1e2bd = rows_of (
    loads "CMakeCCompilerId.c" "d1/d3a/_c_make_c_compiler_id_8c.html"
      "d1/d3a/_c_make_c_compiler_id_8c"
    ∷ [])

-- docs/documentation/html/dir_5e9cc357fe3b3313ad16f661a338681c.js
abbrev pub dir_5e9cc357fe3b3313ad16f661a338681c : Rows
dir_5e9cc357fe3b3313ad16f661a338681c = rows_of (
    loads "main.cpp" "d0/d3f/lib_2str_a_n_s_iseq_2src_2main_8cpp.html"
      "d0/d3f/lib_2str_a_n_s_iseq_2src_2main_8cpp"
    ∷ loads "strANSIseq.cpp" "dd/d40/str_a_n_s_iseq_8cpp.html" "dd/d40/str_a_n_s_iseq_8cpp"
    ∷ [])

-- docs/documentation/html/dir_63772b626f2709090f0bdca0f40827b4.js
abbrev pub dir_63772b626f2709090f0bdca0f40827b4 : Rows
dir_63772b626f2709090f0bdca0f40827b4 = rows_of (
    loads "3.22.1" "dir_ee532ceb613f48f23d20ef02624c3a91.html"
      "dir_ee532ceb613f48f23d20ef02624c3a91"
    ∷ loads "com_client.2.10.dir" "dir_bebb180f26d6bb41eb2a098db65f44a7.html"
        "dir_bebb180f26d6bb41eb2a098db65f44a7"
    ∷ loads "com_client.dir" "dir_cb540477a80f9d51ad37a936dad104bf.html"
        "dir_cb540477a80f9d51ad37a936dad104bf"
    ∷ [])

-- docs/documentation/html/dir_68267d1309a1af8e8297ef4c3efbcdba.js
abbrev pub dir_68267d1309a1af8e8297ef4c3efbcdba : Rows
dir_68267d1309a1af8e8297ef4c3efbcdba = rows_of (
    plain "com_client.cpp" "d8/da5/com__client_8cpp.html"
    ∷ plain "http_client.cpp" "d5/d08/http__client_8cpp.html"
    ∷ loads "main.cpp" "de/dfb/src_2main_8cpp.html" "de/dfb/src_2main_8cpp"
    ∷ [])

-- docs/documentation/html/dir_6dd59ef4c64b46cf9e81380f0a3a6757.js
abbrev pub dir_6dd59ef4c64b46cf9e81380f0a3a6757 : Rows
dir_6dd59ef4c64b46cf9e81380f0a3a6757 = rows_of (
    plain "com_client.cpp.o.d" "d6/d45/com__client_8cpp_8o_8d.html"
    ∷ plain "http_client.cpp.o.d" "dc/d95/http__client_8cpp_8o_8d.html"
    ∷ [])

-- docs/documentation/html/dir_798295ff5de2e5beb17f203298baaa7f.js
abbrev pub dir_798295ff5de2e5beb17f203298baaa7f : Rows
dir_798295ff5de2e5beb17f203298baaa7f = rows_of (
    plain "main.cpp.o.d"
      "df/d3f/lib_2str_a_n_s_iseq_2_c_make_files_2str_a_n_s_iseq_8dir_2src_2main_8cpp_8o_8d.html"
    ∷ [])

-- docs/documentation/html/dir_7a9c7094c62de71bbec4b12c7c975b93.js
abbrev pub dir_7a9c7094c62de71bbec4b12c7c975b93 : Rows
dir_7a9c7094c62de71bbec4b12c7c975b93 = rows_of (
    loads "strANSIseq" "dir_127a0b13c4059b08a7f4d866ec5a21cc.html"
      "dir_127a0b13c4059b08a7f4d866ec5a21cc"
    ∷ [])

-- docs/documentation/html/dir_97aefd0d527b934f1d99a682da8fe6a9.js
abbrev pub dir_97aefd0d527b934f1d99a682da8fe6a9 : Rows
dir_97aefd0d527b934f1d99a682da8fe6a9 = rows_of (
    loads "strANSIseq" "dir_e7c96c2c740204929c097fd23996983c.html"
      "dir_e7c96c2c740204929c097fd23996983c"
    ∷ [])

-- docs/documentation/html/dir_a0aabf0f9c68f10a87f9043c02514b41.js
abbrev pub dir_a0aabf0f9c68f10a87f9043c02514b41 : Rows
dir_a0aabf0f9c68f10a87f9043c02514b41 = rows_of (
    loads "src" "dir_3280642a839541a29e29961741ef8ced.html" "dir_3280642a839541a29e29961741ef8ced"
    ∷ [])

-- docs/documentation/html/dir_a95d52f81f463f3290acb9e3d34dacea.js
abbrev pub dir_a95d52f81f463f3290acb9e3d34dacea : Rows
dir_a95d52f81f463f3290acb9e3d34dacea = rows_of (
    loads "src" "dir_798295ff5de2e5beb17f203298baaa7f.html" "dir_798295ff5de2e5beb17f203298baaa7f"
    ∷ [])

-- docs/documentation/html/dir_bebb180f26d6bb41eb2a098db65f44a7.js
abbrev pub dir_bebb180f26d6bb41eb2a098db65f44a7 : Rows
dir_bebb180f26d6bb41eb2a098db65f44a7 = rows_of (
    loads "src" "dir_6dd59ef4c64b46cf9e81380f0a3a6757.html" "dir_6dd59ef4c64b46cf9e81380f0a3a6757"
    ∷ [])

-- docs/documentation/html/dir_caab832a2bdf26d7f56e9ddf444490ee.js
abbrev pub dir_caab832a2bdf26d7f56e9ddf444490ee : Rows
dir_caab832a2bdf26d7f56e9ddf444490ee =
    rows_of
      (loads "strANSIseq.hpp" "df/df2/str_a_n_s_iseq_8hpp.html" "df/df2/str_a_n_s_iseq_8hpp" ∷ [])

-- docs/documentation/html/dir_cb540477a80f9d51ad37a936dad104bf.js
abbrev pub dir_cb540477a80f9d51ad37a936dad104bf : Rows
dir_cb540477a80f9d51ad37a936dad104bf = rows_of (
    loads "src" "dir_40a07be7a32b2e45b448972e4bdb8ed5.html" "dir_40a07be7a32b2e45b448972e4bdb8ed5"
    ∷ [])

-- docs/documentation/html/dir_d44c64559bbebec7f509842c48db8b23.js
abbrev pub dir_d44c64559bbebec7f509842c48db8b23 : Rows
dir_d44c64559bbebec7f509842c48db8b23 = rows_of (
    loads "com_client.hpp" "dc/d13/com__client_8hpp.html" "dc/d13/com__client_8hpp"
    ∷ holds "http_client.hpp" "d9/dcd/http__client_8hpp.html" (
        loads "HTTP_client" "d7/d60/class_communication_1_1_h_t_t_p__client.html"
          "d7/d60/class_communication_1_1_h_t_t_p__client"
        ∷ [])
    ∷ [])

-- docs/documentation/html/dir_d623257484d3aadfc7ce1557f2d8c6b6.js
abbrev pub dir_d623257484d3aadfc7ce1557f2d8c6b6 : Rows
dir_d623257484d3aadfc7ce1557f2d8c6b6 = rows_of (
    loads "lsl_c.h" "db/df3/lsl__c_8h.html" "db/df3/lsl__c_8h"
    ∷ loads "lsl_cpp.h" "d1/d7c/lsl__cpp_8h.html" "d1/d7c/lsl__cpp_8h"
    ∷ [])

-- docs/documentation/html/dir_e1a715d407a4074a9fa63b2e02ec2b8f.js
abbrev pub dir_e1a715d407a4074a9fa63b2e02ec2b8f : Rows
dir_e1a715d407a4074a9fa63b2e02ec2b8f = rows_of (
    loads "CMakeCXXCompilerId.cpp" "d3/d66/_c_make_c_x_x_compiler_id_8cpp.html"
      "d3/d66/_c_make_c_x_x_compiler_id_8cpp"
    ∷ [])

-- docs/documentation/html/dir_e3e6a61ebba8fbca2913381c4bcfbd2b.js
abbrev pub dir_e3e6a61ebba8fbca2913381c4bcfbd2b : Rows
dir_e3e6a61ebba8fbca2913381c4bcfbd2b = rows_of (
    loads "built_lsl" "dir_470f4625da3256ec4a5c2be4bd4f8658.html"
      "dir_470f4625da3256ec4a5c2be4bd4f8658"
    ∷ [])

-- docs/documentation/html/dir_e7c96c2c740204929c097fd23996983c.js
abbrev pub dir_e7c96c2c740204929c097fd23996983c : Rows
dir_e7c96c2c740204929c097fd23996983c = rows_of (
    loads "include" "dir_caab832a2bdf26d7f56e9ddf444490ee.html"
      "dir_caab832a2bdf26d7f56e9ddf444490ee"
    ∷ loads "src" "dir_5e9cc357fe3b3313ad16f661a338681c.html" "dir_5e9cc357fe3b3313ad16f661a338681c"
    ∷ [])

-- docs/documentation/html/dir_ee532ceb613f48f23d20ef02624c3a91.js
abbrev pub dir_ee532ceb613f48f23d20ef02624c3a91 : Rows
dir_ee532ceb613f48f23d20ef02624c3a91 = rows_of (
    loads "CompilerIdC" "dir_5ccf6f5f6f8f5a0c68d52188c0c1e2bd.html"
      "dir_5ccf6f5f6f8f5a0c68d52188c0c1e2bd"
    ∷ loads "CompilerIdCXX" "dir_e1a715d407a4074a9fa63b2e02ec2b8f.html"
        "dir_e1a715d407a4074a9fa63b2e02ec2b8f"
    ∷ [])

-- docs/documentation/html/files_dup.js
abbrev pub files_dup : Rows
files_dup = rows_of (
    loads "build" "dir_4fef79e7177ba769987a8da36c892c5f.html" "dir_4fef79e7177ba769987a8da36c892c5f"
    ∷ loads "include" "dir_d44c64559bbebec7f509842c48db8b23.html"
        "dir_d44c64559bbebec7f509842c48db8b23"
    ∷ loads "lib" "dir_97aefd0d527b934f1d99a682da8fe6a9.html" "dir_97aefd0d527b934f1d99a682da8fe6a9"
    ∷ loads "src" "dir_68267d1309a1af8e8297ef4c3efbcdba.html" "dir_68267d1309a1af8e8297ef4c3efbcdba"
    ∷ loads "tool_lib" "dir_e3e6a61ebba8fbca2913381c4bcfbd2b.html"
        "dir_e3e6a61ebba8fbca2913381c4bcfbd2b"
    ∷ [])

abbrev pub directories : List Script
directories =
    (record {
      name = codes "dir_127a0b13c4059b08a7f4d866ec5a21cc";
      variable = codes "dir_127a0b13c4059b08a7f4d866ec5a21cc";
      children = dir_127a0b13c4059b08a7f4d866ec5a21cc;
    })
    ∷ (record {
      name = codes "dir_3280642a839541a29e29961741ef8ced";
      variable = codes "dir_3280642a839541a29e29961741ef8ced";
      children = dir_3280642a839541a29e29961741ef8ced;
    })
    ∷ (record {
      name = codes "dir_40a07be7a32b2e45b448972e4bdb8ed5";
      variable = codes "dir_40a07be7a32b2e45b448972e4bdb8ed5";
      children = dir_40a07be7a32b2e45b448972e4bdb8ed5;
    })
    ∷ (record {
      name = codes "dir_4166fd07804cc527cdfc167b21a5330f";
      variable = codes "dir_4166fd07804cc527cdfc167b21a5330f";
      children = dir_4166fd07804cc527cdfc167b21a5330f;
    })
    ∷ (record {
      name = codes "dir_470f4625da3256ec4a5c2be4bd4f8658";
      variable = codes "dir_470f4625da3256ec4a5c2be4bd4f8658";
      children = dir_470f4625da3256ec4a5c2be4bd4f8658;
    })
    ∷ (record {
      name = codes "dir_4fef79e7177ba769987a8da36c892c5f";
      variable = codes "dir_4fef79e7177ba769987a8da36c892c5f";
      children = dir_4fef79e7177ba769987a8da36c892c5f;
    })
    ∷ (record {
      name = codes "dir_5ccf6f5f6f8f5a0c68d52188c0c1e2bd";
      variable = codes "dir_5ccf6f5f6f8f5a0c68d52188c0c1e2bd";
      children = dir_5ccf6f5f6f8f5a0c68d52188c0c1e2bd;
    })
    ∷ (record {
      name = codes "dir_5e9cc357fe3b3313ad16f661a338681c";
      variable = codes "dir_5e9cc357fe3b3313ad16f661a338681c";
      children = dir_5e9cc357fe3b3313ad16f661a338681c;
    })
    ∷ (record {
      name = codes "dir_63772b626f2709090f0bdca0f40827b4";
      variable = codes "dir_63772b626f2709090f0bdca0f40827b4";
      children = dir_63772b626f2709090f0bdca0f40827b4;
    })
    ∷ (record {
      name = codes "dir_68267d1309a1af8e8297ef4c3efbcdba";
      variable = codes "dir_68267d1309a1af8e8297ef4c3efbcdba";
      children = dir_68267d1309a1af8e8297ef4c3efbcdba;
    })
    ∷ (record {
      name = codes "dir_6dd59ef4c64b46cf9e81380f0a3a6757";
      variable = codes "dir_6dd59ef4c64b46cf9e81380f0a3a6757";
      children = dir_6dd59ef4c64b46cf9e81380f0a3a6757;
    })
    ∷ (record {
      name = codes "dir_798295ff5de2e5beb17f203298baaa7f";
      variable = codes "dir_798295ff5de2e5beb17f203298baaa7f";
      children = dir_798295ff5de2e5beb17f203298baaa7f;
    })
    ∷ (record {
      name = codes "dir_7a9c7094c62de71bbec4b12c7c975b93";
      variable = codes "dir_7a9c7094c62de71bbec4b12c7c975b93";
      children = dir_7a9c7094c62de71bbec4b12c7c975b93;
    })
    ∷ (record {
      name = codes "dir_97aefd0d527b934f1d99a682da8fe6a9";
      variable = codes "dir_97aefd0d527b934f1d99a682da8fe6a9";
      children = dir_97aefd0d527b934f1d99a682da8fe6a9;
    })
    ∷ (record {
      name = codes "dir_a0aabf0f9c68f10a87f9043c02514b41";
      variable = codes "dir_a0aabf0f9c68f10a87f9043c02514b41";
      children = dir_a0aabf0f9c68f10a87f9043c02514b41;
    })
    ∷ (record {
      name = codes "dir_a95d52f81f463f3290acb9e3d34dacea";
      variable = codes "dir_a95d52f81f463f3290acb9e3d34dacea";
      children = dir_a95d52f81f463f3290acb9e3d34dacea;
    })
    ∷ (record {
      name = codes "dir_bebb180f26d6bb41eb2a098db65f44a7";
      variable = codes "dir_bebb180f26d6bb41eb2a098db65f44a7";
      children = dir_bebb180f26d6bb41eb2a098db65f44a7;
    })
    ∷ (record {
      name = codes "dir_caab832a2bdf26d7f56e9ddf444490ee";
      variable = codes "dir_caab832a2bdf26d7f56e9ddf444490ee";
      children = dir_caab832a2bdf26d7f56e9ddf444490ee;
    })
    ∷ (record {
      name = codes "dir_cb540477a80f9d51ad37a936dad104bf";
      variable = codes "dir_cb540477a80f9d51ad37a936dad104bf";
      children = dir_cb540477a80f9d51ad37a936dad104bf;
    })
    ∷ (record {
      name = codes "dir_d44c64559bbebec7f509842c48db8b23";
      variable = codes "dir_d44c64559bbebec7f509842c48db8b23";
      children = dir_d44c64559bbebec7f509842c48db8b23;
    })
    ∷ (record {
      name = codes "dir_d623257484d3aadfc7ce1557f2d8c6b6";
      variable = codes "dir_d623257484d3aadfc7ce1557f2d8c6b6";
      children = dir_d623257484d3aadfc7ce1557f2d8c6b6;
    })
    ∷ (record {
      name = codes "dir_e1a715d407a4074a9fa63b2e02ec2b8f";
      variable = codes "dir_e1a715d407a4074a9fa63b2e02ec2b8f";
      children = dir_e1a715d407a4074a9fa63b2e02ec2b8f;
    })
    ∷ (record {
      name = codes "dir_e3e6a61ebba8fbca2913381c4bcfbd2b";
      variable = codes "dir_e3e6a61ebba8fbca2913381c4bcfbd2b";
      children = dir_e3e6a61ebba8fbca2913381c4bcfbd2b;
    })
    ∷ (record {
      name = codes "dir_e7c96c2c740204929c097fd23996983c";
      variable = codes "dir_e7c96c2c740204929c097fd23996983c";
      children = dir_e7c96c2c740204929c097fd23996983c;
    })
    ∷ (record {
      name = codes "dir_ee532ceb613f48f23d20ef02624c3a91";
      variable = codes "dir_ee532ceb613f48f23d20ef02624c3a91";
      children = dir_ee532ceb613f48f23d20ef02624c3a91;
    })
    ∷ (record { name = codes "files_dup"; variable = codes "files_dup"; children = files_dup })
    ∷ []
