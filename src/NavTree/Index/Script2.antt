-- ===== src/NavTree/Index/Script2.antt =====
-- The object of docs/documentation/html/navtreeindex2.js.
use com_client.Base.{codes, [], ◌∷◌}
use com_client.NavTree.Index.{SubIndex, at}
use com_client.NavTree.Pages.{cli, client, iseq_cpp, iseq_hpp, lsl_c, server}

abbrev pub nav_tree_index2 : SubIndex
nav_tree_index2 =
    at lsl_c "#af9e8d161e2cc70ffbf9443083ff5d33d" (5 ∷ 0 ∷ 4 ∷ 0 ∷ 0 ∷ 0 ∷ 80 ∷ [])
    ∷ at lsl_c "#afb51a7b796ce958254c209e2dbca2453" (5 ∷ 0 ∷ 4 ∷ 0 ∷ 0 ∷ 0 ∷ 15 ∷ [])
    ∷ at lsl_c "#afef7ba2a6124b285f4568af0cf200420" (5 ∷ 0 ∷ 4 ∷ 0 ∷ 0 ∷ 0 ∷ 39 ∷ [])
    ∷ at lsl_c "#aff5474907fddf8b14300c79c9fda38e6" (5 ∷ 0 ∷ 4 ∷ 0 ∷ 0 ∷ 0 ∷ 7 ∷ [])
    ∷ (codes "db/df3/lsl__c_8h_source.html", 5 ∷ 0 ∷ 4 ∷ 0 ∷ 0 ∷ 0 ∷ [])
    ∷ (codes "dc/d13/com__client_8hpp.html", 5 ∷ 0 ∷ 1 ∷ 0 ∷ [])
    ∷ (
      codes "dc/d13/com__client_8hpp.html#a6cb23a858b0a21bdaa644b9181dc415f",
      5 ∷ 0 ∷ 1 ∷ 0 ∷ 2 ∷ [],
    )
    ∷ (codes "dc/d13/com__client_8hpp_source.html", 5 ∷ 0 ∷ 1 ∷ 0 ∷ [])
    ∷ at cli "" (4 ∷ 0 ∷ 1 ∷ 0 ∷ [])
    ∷ at cli "#a1ac0d519304d97b3be094979fcfe6e44" (4 ∷ 0 ∷ 1 ∷ 0 ∷ 2 ∷ [])
    ∷ at cli "#a24d0af4957baaeafab2a5f689e20b57d" (4 ∷ 0 ∷ 1 ∷ 0 ∷ 1 ∷ [])
    ∷ at cli "#a47b6c71a4c59354a3f9c0cd9bd011807" (4 ∷ 0 ∷ 1 ∷ 0 ∷ 0 ∷ [])
    ∷ at cli "#abe1e5a3cc2cbd55c0704e9b13842e436" (4 ∷ 0 ∷ 1 ∷ 0 ∷ 4 ∷ [])
    ∷ at cli "#aee4e23e87ebd3cf3909f1760a5fda04b" (4 ∷ 0 ∷ 1 ∷ 0 ∷ 3 ∷ [])
    ∷ (codes "dc/d95/http__client_8cpp_8o_8d.html", 5 ∷ 0 ∷ 0 ∷ 0 ∷ 1 ∷ 0 ∷ 1 ∷ [])
    ∷ at server "" (4 ∷ 0 ∷ 0 ∷ 1 ∷ [])
    ∷ at server "#a3571bd6913a55394cde0ced0f404685d" (4 ∷ 0 ∷ 0 ∷ 1 ∷ 0 ∷ [])
    ∷ at server "#a3acba24524ce792ff0e8adc5f519c79d" (4 ∷ 0 ∷ 0 ∷ 1 ∷ 3 ∷ [])
    ∷ at server "#a3f85e046ae47cdb26aa7d1497dcd64c3" (4 ∷ 0 ∷ 0 ∷ 1 ∷ 2 ∷ [])
    ∷ at server "#aef74c77dc02436ee1dc6d16310837b12" (4 ∷ 0 ∷ 0 ∷ 1 ∷ 1 ∷ [])
    ∷ at iseq_cpp "" (5 ∷ 0 ∷ 2 ∷ 0 ∷ 1 ∷ 1 ∷ [])
    ∷ at iseq_cpp "#a0339f1bf272536a7645b373a503b4928" (5 ∷ 0 ∷ 2 ∷ 0 ∷ 1 ∷ 1 ∷ 3 ∷ [])
    ∷ at iseq_cpp "#a07d7fd8adc58054bde19b14556a8d945" (5 ∷ 0 ∷ 2 ∷ 0 ∷ 1 ∷ 1 ∷ 1 ∷ [])
    ∷ at iseq_cpp "#a080ff5f5b8a2ed3567a541acfa69a425" (5 ∷ 0 ∷ 2 ∷ 0 ∷ 1 ∷ 1 ∷ 0 ∷ [])
    ∷ at iseq_cpp "#a1ab0660788056c78944278261498664a" (5 ∷ 0 ∷ 2 ∷ 0 ∷ 1 ∷ 1 ∷ 2 ∷ [])
    ∷ at iseq_cpp "#a231a32f47e8c90921259a47ce621b1cc" (5 ∷ 0 ∷ 2 ∷ 0 ∷ 1 ∷ 1 ∷ 4 ∷ [])
    ∷ at iseq_cpp "#a2dc320253a173af845d4317a62c45a6f" (5 ∷ 0 ∷ 2 ∷ 0 ∷ 1 ∷ 1 ∷ 7 ∷ [])
    ∷ at iseq_cpp "#aabdbbf48acbc97aadc974b67b8f65d49" (5 ∷ 0 ∷ 2 ∷ 0 ∷ 1 ∷ 1 ∷ 6 ∷ [])
    ∷ at iseq_cpp "#ab8b0eda8f8c0d37419c0435cad5230e0" (5 ∷ 0 ∷ 2 ∷ 0 ∷ 1 ∷ 1 ∷ 8 ∷ [])
    ∷ at iseq_cpp "#ac00ec90c2ccac2f1bcb6219b6f081ad5" (5 ∷ 0 ∷ 2 ∷ 0 ∷ 1 ∷ 1 ∷ 5 ∷ [])
    ∷ (codes "de/d94/classlsl_1_1lost__error.html", 4 ∷ 0 ∷ 2 ∷ 5 ∷ [])
    ∷ (
      codes "de/d94/classlsl_1_1lost__error.html#a997ff6ff1ecd4fd33cda631b975d386e",
      4 ∷ 0 ∷ 2 ∷ 5 ∷ 0 ∷ [],
    )
    ∷ (codes "de/dfb/src_2main_8cpp.html", 5 ∷ 0 ∷ 3 ∷ 2 ∷ [])
    ∷ (codes "de/dfb/src_2main_8cpp.html#a3c04138a5bfe5d72780bb7e82a18e627", 5 ∷ 0 ∷ 3 ∷ 2 ∷ 0 ∷ [])
    ∷ (
      codes
          "df/d3f/lib_2str_a_n_s_iseq_2_c_make_files_2str_a_n_s_iseq_8dir_2src_2main_8cpp_8o_8d.html",
      5 ∷ 0 ∷ 0 ∷ 1 ∷ 0 ∷ 0 ∷ 1 ∷ 0 ∷ 0 ∷ [],
    )
    ∷ at client "" (4 ∷ 0 ∷ 0 ∷ 0 ∷ [])
    ∷ at client "#a2508e02531cf7e8dd258677b7b1490e9" (4 ∷ 0 ∷ 0 ∷ 0 ∷ 6 ∷ [])
    ∷ at client "#a32bd631bcb3b0a3476b146a0cc49332d" (4 ∷ 0 ∷ 0 ∷ 0 ∷ 10 ∷ [])
    ∷ at client "#a487e227b474999f2ff9f096f1a5784ad" (4 ∷ 0 ∷ 0 ∷ 0 ∷ 5 ∷ [])
    ∷ at client "#a5afbc51613d3caf88641d04e81837467" (4 ∷ 0 ∷ 0 ∷ 0 ∷ 7 ∷ [])
    ∷ at client "#a66336ae23ea502a9395010407a952664" (4 ∷ 0 ∷ 0 ∷ 0 ∷ 8 ∷ [])
    ∷ at client "#a7020654cbb2e6f707fe637fc84d8328c" (4 ∷ 0 ∷ 0 ∷ 0 ∷ 4 ∷ [])
    ∷ at client "#a73fec58648938364cd65d690f50bd7ec" (4 ∷ 0 ∷ 0 ∷ 0 ∷ 9 ∷ [])
    ∷ at client "#a77c290beabfe76ea97a9027d66a04f7c" (4 ∷ 0 ∷ 0 ∷ 0 ∷ 2 ∷ [])
    ∷ at client "#aa448a9277e9bed8326f74ad81062ab77" (4 ∷ 0 ∷ 0 ∷ 0 ∷ 3 ∷ [])
    ∷ at client "#ad5719d96b9a023b9d6e6bfb3c917f6dd" (4 ∷ 0 ∷ 0 ∷ 0 ∷ 0 ∷ [])
    ∷ at client "#ad5719d96b9a023b9d6e6bfb3c917f6dda1b32b1dce6fdf665a44847863b977720"
        (4 ∷ 0 ∷ 0 ∷ 0 ∷ 0 ∷ 2 ∷ [])
    ∷ at client "#ad5719d96b9a023b9d6e6bfb3c917f6dda9729ef4069d34c1034ca97789e50b03f"
        (4 ∷ 0 ∷ 0 ∷ 0 ∷ 0 ∷ 1 ∷ [])
    ∷ at client "#ad5719d96b9a023b9d6e6bfb3c917f6ddae1bf4306016574e334b5aec78b2efaf2"
        (4 ∷ 0 ∷ 0 ∷ 0 ∷ 0 ∷ 0 ∷ [])
    ∷ at client "#aea957bd14f311e1f6621e7611022b5c4" (4 ∷ 0 ∷ 0 ∷ 0 ∷ 1 ∷ [])
    ∷ at iseq_hpp "" (5 ∷ 0 ∷ 2 ∷ 0 ∷ 0 ∷ 0 ∷ [])
    ∷ at iseq_hpp "#a0339f1bf272536a7645b373a503b4928" (5 ∷ 0 ∷ 2 ∷ 0 ∷ 0 ∷ 0 ∷ 7 ∷ [])
    ∷ at iseq_hpp "#a07d7fd8adc58054bde19b14556a8d945" (5 ∷ 0 ∷ 2 ∷ 0 ∷ 0 ∷ 0 ∷ 4 ∷ [])
    ∷ at iseq_hpp "#a080ff5f5b8a2ed3567a541acfa69a425" (5 ∷ 0 ∷ 2 ∷ 0 ∷ 0 ∷ 0 ∷ 3 ∷ [])
    ∷ at iseq_hpp "#a1ab0660788056c78944278261498664a" (5 ∷ 0 ∷ 2 ∷ 0 ∷ 0 ∷ 0 ∷ 6 ∷ [])
    ∷ at iseq_hpp "#a231a32f47e8c90921259a47ce621b1cc" (5 ∷ 0 ∷ 2 ∷ 0 ∷ 0 ∷ 0 ∷ 8 ∷ [])
    ∷ at iseq_hpp "#a2dc320253a173af845d4317a62c45a6f" (5 ∷ 0 ∷ 2 ∷ 0 ∷ 0 ∷ 0 ∷ 11 ∷ [])
    ∷ at iseq_hpp "#a3577749fb48d57a158b8ac1a0b3ab57e" (5 ∷ 0 ∷ 2 ∷ 0 ∷ 0 ∷ 0 ∷ 1 ∷ [])
    ∷ at iseq_hpp "#a6f0f9c5cc6b334d09b6da6834c02af16" (5 ∷ 0 ∷ 2 ∷ 0 ∷ 0 ∷ 0 ∷ 5 ∷ [])
    ∷ at iseq_hpp "#a93c187b0ecaecc64127a1e7d211562a1" (5 ∷ 0 ∷ 2 ∷ 0 ∷ 0 ∷ 0 ∷ 2 ∷ [])
    ∷ at iseq_hpp "#a93c187b0ecaecc64127a1e7d211562a1a080f5acc7b26dd8c82d66a410dcb003a"
        (5 ∷ 0 ∷ 2 ∷ 0 ∷ 0 ∷ 0 ∷ 2 ∷ 19 ∷ [])
    ∷ at iseq_hpp "#a93c187b0ecaecc64127a1e7d211562a1a0949b3693d2401dfa4651b442a9c9551"
        (5 ∷ 0 ∷ 2 ∷ 0 ∷ 0 ∷ 0 ∷ 2 ∷ 0 ∷ [])
    ∷ at iseq_hpp "#a93c187b0ecaecc64127a1e7d211562a1a0af3dbb99fb41d75e60df73e7bab1fdd"
        (5 ∷ 0 ∷ 2 ∷ 0 ∷ 0 ∷ 0 ∷ 2 ∷ 5 ∷ [])
    ∷ at iseq_hpp "#a93c187b0ecaecc64127a1e7d211562a1a11a52229f2c02ac21863203a9649771d"
        (5 ∷ 0 ∷ 2 ∷ 0 ∷ 0 ∷ 0 ∷ 2 ∷ 1 ∷ [])
    ∷ at iseq_hpp "#a93c187b0ecaecc64127a1e7d211562a1a1b9e16c203595a107bc8ba10051e08d1"
        (5 ∷ 0 ∷ 2 ∷ 0 ∷ 0 ∷ 0 ∷ 2 ∷ 26 ∷ [])
    ∷ at iseq_hpp "#a93c187b0ecaecc64127a1e7d211562a1a1c482c45cb9fa67cb290cb6e17ca291d"
        (5 ∷ 0 ∷ 2 ∷ 0 ∷ 0 ∷ 0 ∷ 2 ∷ 21 ∷ [])
    ∷ at iseq_hpp "#a93c187b0ecaecc64127a1e7d211562a1a1ea0683248f9953ca0713e5797ce17d1"
        (5 ∷ 0 ∷ 2 ∷ 0 ∷ 0 ∷ 0 ∷ 2 ∷ 3 ∷ [])
    ∷ at iseq_hpp "#a93c187b0ecaecc64127a1e7d211562a1a2c10a5323218ceb224ef379037cd7e0a"
        (5 ∷ 0 ∷ 2 ∷ 0 ∷ 0 ∷ 0 ∷ 2 ∷ 17 ∷ [])
    ∷ at iseq_hpp "#a93c187b0ecaecc64127a1e7d211562a1a2d6d9e4c4d26f775a2d2e0f5d4c2fee5"
        (5 ∷ 0 ∷ 2 ∷ 0 ∷ 0 ∷ 0 ∷ 2 ∷ 10 ∷ [])
    ∷ at iseq_hpp "#a93c187b0ecaecc64127a1e7d211562a1a3b8d384d180428029a6712830c9b01b7"
        (5 ∷ 0 ∷ 2 ∷ 0 ∷ 0 ∷ 0 ∷ 2 ∷ 16 ∷ [])
    ∷ at iseq_hpp "#a93c187b0ecaecc64127a1e7d211562a1a4407cb515758165608277ff094d8aa4e"
        (5 ∷ 0 ∷ 2 ∷ 0 ∷ 0 ∷ 0 ∷ 2 ∷ 15 ∷ [])
    ∷ at iseq_hpp "#a93c187b0ecaecc64127a1e7d211562a1a51f33f01a9c1d72db09e6a9ac6ddb759"
        (5 ∷ 0 ∷ 2 ∷ 0 ∷ 0 ∷ 0 ∷ 2 ∷ 11 ∷ [])
    ∷ at iseq_hpp "#a93c187b0ecaecc64127a1e7d211562a1a560f8ec0e3a165bffd234986d419d93e"
        (5 ∷ 0 ∷ 2 ∷ 0 ∷ 0 ∷ 0 ∷ 2 ∷ 18 ∷ [])
    ∷ at iseq_hpp "#a93c187b0ecaecc64127a1e7d211562a1a5793314530aabf181b6d61339928a486"
        (5 ∷ 0 ∷ 2 ∷ 0 ∷ 0 ∷ 0 ∷ 2 ∷ 9 ∷ [])
    ∷ at iseq_hpp "#a93c187b0ecaecc64127a1e7d211562a1a5bfaa69787e265bc37dca5b2b61c64a9"
        (5 ∷ 0 ∷ 2 ∷ 0 ∷ 0 ∷ 0 ∷ 2 ∷ 4 ∷ [])
    ∷ at iseq_hpp "#a93c187b0ecaecc64127a1e7d211562a1a5c996890ffc321f6f95d51357fa2e00a"
        (5 ∷ 0 ∷ 2 ∷ 0 ∷ 0 ∷ 0 ∷ 2 ∷ 22 ∷ [])
    ∷ at iseq_hpp "#a93c187b0ecaecc64127a1e7d211562a1a712e5fd9a5e6d3b6a565a22b7b6590b2"
        (5 ∷ 0 ∷ 2 ∷ 0 ∷ 0 ∷ 0 ∷ 2 ∷ 8 ∷ [])
    ∷ at iseq_hpp "#a93c187b0ecaecc64127a1e7d211562a1a852050b53ec94746365cf503b9daf77c"
        (5 ∷ 0 ∷ 2 ∷ 0 ∷ 0 ∷ 0 ∷ 2 ∷ 13 ∷ [])
    ∷ at iseq_hpp "#a93c187b0ecaecc64127a1e7d211562a1a991c4d7703b3a4062d71ac80b047d0f6"
        (5 ∷ 0 ∷ 2 ∷ 0 ∷ 0 ∷ 0 ∷ 2 ∷ 6 ∷ [])
    ∷ at iseq_hpp "#a93c187b0ecaecc64127a1e7d211562a1a9ca7916a80da428a5e295b0356e5ba91"
        (5 ∷ 0 ∷ 2 ∷ 0 ∷ 0 ∷ 0 ∷ 2 ∷ 12 ∷ [])
    ∷ at iseq_hpp "#a93c187b0ecaecc64127a1e7d211562a1aa554b8e89b9c53e86096c1ee2dca2aae"
        (5 ∷ 0 ∷ 2 ∷ 0 ∷ 0 ∷ 0 ∷ 2 ∷ 7 ∷ [])
    ∷ at iseq_hpp "#a93c187b0ecaecc64127a1e7d211562a1ac524cfac8f3b50f5d6ac8a2ce7ac0939"
        (5 ∷ 0 ∷ 2 ∷ 0 ∷ 0 ∷ 0 ∷ 2 ∷ 20 ∷ [])
    ∷ at iseq_hpp "#a93c187b0ecaecc64127a1e7d211562a1ad7e062b99a6ddd60a225ecc7d10756b1"
        (5 ∷ 0 ∷ 2 ∷ 0 ∷ 0 ∷ 0 ∷ 2 ∷ 2 ∷ [])
    ∷ at iseq_hpp "#a93c187b0ecaecc64127a1e7d211562a1adb93cd7891a72f8d7878e8ea39700b51"
        (5 ∷ 0 ∷ 2 ∷ 0 ∷ 0 ∷ 0 ∷ 2 ∷ 14 ∷ [])
    ∷ at iseq_hpp "#a93c187b0ecaecc64127a1e7d211562a1ae751c14d8a6185aa862011b31cef11ee"
        (5 ∷ 0 ∷ 2 ∷ 0 ∷ 0 ∷ 0 ∷ 2 ∷ 23 ∷ [])
    ∷ at iseq_hpp "#a93c187b0ecaecc64127a1e7d211562a1ae86ea0aceff2ecc297273593ef04d88a"
        (5 ∷ 0 ∷ 2 ∷ 0 ∷ 0 ∷ 0 ∷ 2 ∷ 24 ∷ [])
    ∷ at iseq_hpp "#a93c187b0ecaecc64127a1e7d211562a1afa9e18e6b89e7b527ac48cdeabb64955"
        (5 ∷ 0 ∷ 2 ∷ 0 ∷ 0 ∷ 0 ∷ 2 ∷ 25 ∷ [])
    ∷ at iseq_hpp "#aabdbbf48acbc97aadc974b67b8f65d49" (5 ∷ 0 ∷ 2 ∷ 0 ∷ 0 ∷ 0 ∷ 10 ∷ [])
    ∷ at iseq_hpp "#ab8b0eda8f8c0d37419c0435cad5230e0" (5 ∷ 0 ∷ 2 ∷ 0 ∷ 0 ∷ 0 ∷ 12 ∷ [])
    ∷ at iseq_hpp "#ac00ec90c2ccac2f1bcb6219b6f081ad5" (5 ∷ 0 ∷ 2 ∷ 0 ∷ 0 ∷ 0 ∷ 9 ∷ [])
    ∷ (codes "df/df2/str_a_n_s_iseq_8hpp_source.html", 5 ∷ 0 ∷ 2 ∷ 0 ∷ 0 ∷ 0 ∷ [])
    ∷ (codes "dir_127a0b13c4059b08a7f4d866ec5a21cc.html", 5 ∷ 0 ∷ 0 ∷ 1 ∷ 0 ∷ [])
    ∷ (codes "dir_3280642a839541a29e29961741ef8ced.html", 5 ∷ 0 ∷ 0 ∷ 1 ∷ 0 ∷ 0 ∷ 0 ∷ 0 ∷ [])
    ∷ (codes "dir_40a07be7a32b2e45b448972e4bdb8ed5.html", 5 ∷ 0 ∷ 0 ∷ 0 ∷ 2 ∷ 0 ∷ [])
    ∷ (codes "dir_4166fd07804cc527cdfc167b21a5330f.html", 5 ∷ 0 ∷ 0 ∷ 1 ∷ 0 ∷ 0 ∷ [])
    ∷ (codes "dir_470f4625da3256ec4a5c2be4bd4f8658.html", 5 ∷ 0 ∷ 4 ∷ 0 ∷ [])
    ∷ (codes "dir_4fef79e7177ba769987a8da36c892c5f.html", 5 ∷ 0 ∷ 0 ∷ [])
    ∷ (codes "dir_5ccf6f5f6f8f5a0c68d52188c0c1e2bd.html", 5 ∷ 0 ∷ 0 ∷ 0 ∷ 0 ∷ 0 ∷ [])
    ∷ (codes "dir_5e9cc357fe3b3313ad16f661a338681c.html", 5 ∷ 0 ∷ 2 ∷ 0 ∷ 1 ∷ [])
    ∷ (codes "dir_63772b626f2709090f0bdca0f40827b4.html", 5 ∷ 0 ∷ 0 ∷ 0 ∷ [])
    ∷ (codes "dir_68267d1309a1af8e8297ef4c3efbcdba.html", 5 ∷ 0 ∷ 3 ∷ [])
    ∷ (codes "dir_6dd59ef4c64b46cf9e81380f0a3a6757.html", 5 ∷ 0 ∷ 0 ∷ 0 ∷ 1 ∷ 0 ∷ [])
    ∷ (codes "dir_798295ff5de2e5beb17f203298baaa7f.html", 5 ∷ 0 ∷ 0 ∷ 1 ∷ 0 ∷ 0 ∷ 1 ∷ 0 ∷ [])
    ∷ (codes "dir_7a9c7094c62de71bbec4b12c7c975b93.html", 5 ∷ 0 ∷ 0 ∷ 1 ∷ [])
    ∷ (codes "dir_97aefd0d527b934f1d99a682da8fe6a9.html", 5 ∷ 0 ∷ 2 ∷ [])
    ∷ (codes "dir_a0aabf0f9c68f10a87f9043c02514b41.html", 5 ∷ 0 ∷ 0 ∷ 1 ∷ 0 ∷ 0 ∷ 0 ∷ [])
    ∷ (codes "dir_a95d52f81f463f3290acb9e3d34dacea.html", 5 ∷ 0 ∷ 0 ∷ 1 ∷ 0 ∷ 0 ∷ 1 ∷ [])
    ∷ (codes "dir_bebb180f26d6bb41eb2a098db65f44a7.html", 5 ∷ 0 ∷ 0 ∷ 0 ∷ 1 ∷ [])
    ∷ (codes "dir_caab832a2bdf26d7f56e9ddf444490ee.html", 5 ∷ 0 ∷ 2 ∷ 0 ∷ 0 ∷ [])
    ∷ (codes "dir_cb540477a80f9d51ad37a936dad104bf.html", 5 ∷ 0 ∷ 0 ∷ 0 ∷ 2 ∷ [])
    ∷ (codes "dir_d44c64559bbebec7f509842c48db8b23.html", 5 ∷ 0 ∷ 1 ∷ [])
    ∷ (codes "dir_d623257484d3aadfc7ce1557f2d8c6b6.html", 5 ∷ 0 ∷ 4 ∷ 0 ∷ 0 ∷ [])
    ∷ (codes "dir_e1a715d407a4074a9fa63b2e02ec2b8f.html", 5 ∷ 0 ∷ 0 ∷ 0 ∷ 0 ∷ 1 ∷ [])
    ∷ (codes "dir_e3e6a61ebba8fbca2913381c4bcfbd2b.html", 5 ∷ 0 ∷ 4 ∷ [])
    ∷ (codes "dir_e7c96c2c740204929c097fd23996983c.html", 5 ∷ 0 ∷ 2 ∷ 0 ∷ [])
    ∷ (codes "dir_ee532ceb613f48f23d20ef02624c3a91.html", 5 ∷ 0 ∷ 0 ∷ 0 ∷ 0 ∷ [])
    ∷ (codes "files.html", 5 ∷ 0 ∷ [])
    ∷ (codes "functions.html", 4 ∷ 3 ∷ 0 ∷ [])
    ∷ (codes "functions_enum.html", 4 ∷ 3 ∷ 3 ∷ [])
    ∷ (codes "functions_eval.html", 4 ∷ 3 ∷ 4 ∷ [])
    ∷ (codes "functions_func.html", 4 ∷ 3 ∷ 1 ∷ [])
    ∷ (codes "functions_vars.html", 4 ∷ 3 ∷ 2 ∷ [])
    ∷ (codes "globals.html", 5 ∷ 1 ∷ 0 ∷ [])
    ∷ (codes "globals.html", 5 ∷ 1 ∷ 0 ∷ 0 ∷ [])
    ∷ (codes "globals_a.html", 5 ∷ 1 ∷ 0 ∷ 1 ∷ [])
    ∷ (codes "globals_c.html", 5 ∷ 1 ∷ 0 ∷ 2 ∷ [])
    ∷ (codes "globals_d.html", 5 ∷ 1 ∷ 0 ∷ 3 ∷ [])
    ∷ (codes "globals_defs.html", 5 ∷ 1 ∷ 6 ∷ [])
    ∷ (codes "globals_enum.html", 5 ∷ 1 ∷ 4 ∷ [])
    ∷ (codes "globals_eval.html", 5 ∷ 1 ∷ 5 ∷ [])
    ∷ (codes "globals_func.html", 5 ∷ 1 ∷ 1 ∷ [])
    ∷ (codes "globals_h.html", 5 ∷ 1 ∷ 0 ∷ 4 ∷ [])
    ∷ (codes "globals_i.html", 5 ∷ 1 ∷ 0 ∷ 5 ∷ [])
    ∷ (codes "globals_l.html", 5 ∷ 1 ∷ 0 ∷ 6 ∷ [])
    ∷ (codes "globals_m.html", 5 ∷ 1 ∷ 0 ∷ 7 ∷ [])
    ∷ (codes "globals_p.html", 5 ∷ 1 ∷ 0 ∷ 8 ∷ [])
    ∷ (codes "globals_s.html", 5 ∷ 1 ∷ 0 ∷ 9 ∷ [])
    ∷ (codes "globals_type.html", 5 ∷ 1 ∷ 3 ∷ [])
    ∷ (codes "globals_vars.html", 5 ∷ 1 ∷ 2 ∷ [])
    ∷ (codes "hierarchy.html", 4 ∷ 2 ∷ [])
    ∷ (codes "index.html", [])
    ∷ (codes "index.html", 0 ∷ [])
    ∷ (codes "index.html#autotoc_md5", 0 ∷ 0 ∷ [])
    ∷ (codes "index.html#autotoc_md6", 0 ∷ 1 ∷ [])
    ∷ (codes "index.html#autotoc_md7", 0 ∷ 2 ∷ [])
    ∷ (codes "namespacemembers.html", 3 ∷ 1 ∷ 0 ∷ [])
    ∷ (codes "namespacemembers_enum.html", 3 ∷ 1 ∷ 3 ∷ [])
    ∷ (codes "namespacemembers_eval.html", 3 ∷ 1 ∷ 4 ∷ [])
    ∷ (codes "namespacemembers_func.html", 3 ∷ 1 ∷ 1 ∷ [])
    ∷ (codes "namespacemembers_vars.html", 3 ∷ 1 ∷ 2 ∷ [])
    ∷ (codes "namespaces.html", 3 ∷ 0 ∷ [])
    ∷ (codes "pages.html", [])
    ∷ []
