-- ===== src/NavTree/Site/Headers.antt =====
-- The children of the headers in the tree, as generated in docs/documentation/html/.
use com_client.Base.{codes, List, [], ◌∷◌}
use com_client.NavTree.Pages.{iseq_hpp, lsl_c, lsl_cpp}
use com_client.NavTree.Tree.{Rows}
use com_client.NavTree.Site.Build.{Script, rows_of, plain, part, loads, holds}

-- docs/documentation/html/d1/d7c/lsl__cpp_8h.js
abbrev pub lsl__cpp_8h : Rows
lsl__cpp_8h = rows_of (
    loads "stream_info" "d1/d6a/classlsl_1_1stream__info.html" "d1/d6a/classlsl_1_1stream__info"
    ∷ loads "stream_outlet" "d6/d55/classlsl_1_1stream__outlet.html"
        "d6/d55/classlsl_1_1stream__outlet"
    ∷ loads "stream_inlet" "d6/dbd/classlsl_1_1stream__inlet.html"
        "d6/dbd/classlsl_1_1stream__inlet"
    ∷ loads "xml_element" "d9/d90/classlsl_1_1xml__element.html" "d9/d90/classlsl_1_1xml__element"
    ∷ loads "continuous_resolver" "d4/d27/classlsl_1_1continuous__resolver.html"
        "d4/d27/classlsl_1_1continuous__resolver"
    ∷ loads "lost_error" "de/d94/classlsl_1_1lost__error.html" "de/d94/classlsl_1_1lost__error"
    ∷ loads "timeout_error" "d4/d01/classlsl_1_1timeout__error.html"
        "d4/d01/classlsl_1_1timeout__error"
    ∷ holds "channel_format_t" "d1/d7c/lsl__cpp_8h.html#a28d50dae6fd82eea8893ce3d63ccd46c" (
        part "cf_float32" lsl_cpp
          "#a28d50dae6fd82eea8893ce3d63ccd46ca46efa3307b337f7de592753642584616"
        ∷ part "cf_double64" lsl_cpp
            "#a28d50dae6fd82eea8893ce3d63ccd46cab11213c3d307faf6ef734633ac732eb7"
        ∷ part "cf_string" lsl_cpp
            "#a28d50dae6fd82eea8893ce3d63ccd46caedadbd6437a22628678edaf287c87048"
        ∷ part "cf_int32" lsl_cpp
            "#a28d50dae6fd82eea8893ce3d63ccd46ca526ce3ccb97e3bb75d913c60ad56c26d"
        ∷ part "cf_int16" lsl_cpp
            "#a28d50dae6fd82eea8893ce3d63ccd46ca5c625662462c8a30454f6f7f0520e79c"
        ∷ part "cf_int8" lsl_cpp
            "#a28d50dae6fd82eea8893ce3d63ccd46ca829ae156932f587fbbc70aed1d46e388"
        ∷ part "cf_int64" lsl_cpp
            "#a28d50dae6fd82eea8893ce3d63ccd46ca6795e1df0db0b05744fd1fe9623567a0"
        ∷ part "cf_undefined" lsl_cpp
            "#a28d50dae6fd82eea8893ce3d63ccd46cadc8092d1092568f7d36d89fa7e813d76"
        ∷ [])
    ∷ holds "processing_options_t" "d1/d7c/lsl__cpp_8h.html#aaa1cffa7d29bb2756522bc2bb069e310" (
        part "post_none" lsl_cpp
          "#aaa1cffa7d29bb2756522bc2bb069e310ac01170c28c82b28d721da1971e16424b"
        ∷ part "post_clocksync" lsl_cpp
            "#aaa1cffa7d29bb2756522bc2bb069e310accf7cbfa478e679b53255d46fd62f888"
        ∷ part "post_dejitter" lsl_cpp
            "#aaa1cffa7d29bb2756522bc2bb069e310a83b67e37c1bbcfb4ee7479098386499f"
        ∷ part "post_monotonize" lsl_cpp
            "#aaa1cffa7d29bb2756522bc2bb069e310af7cdac323760b9cb6587733a24f5aecb"
        ∷ part "post_threadsafe" lsl_cpp
            "#aaa1cffa7d29bb2756522bc2bb069e310a8ebef2c4c98e1a9246e9927e6b0b87c9"
        ∷ part "post_ALL" lsl_cpp
            "#aaa1cffa7d29bb2756522bc2bb069e310a198f16659e71b850e4674ed31d10e914"
        ∷ [])
    ∷ part "check_error" lsl_cpp "#acce0545ac0a7831acde1a759b778393c"
    ∷ part "library_info" lsl_cpp "#a2a348cf022e9862396e4a10f60af42e9"
    ∷ part "library_version" lsl_cpp "#a25fc4deea3c2fb0df0744e3a24c56844"
    ∷ part "local_clock" lsl_cpp "#ae1766ae2ab66141cb927612e57a0c8c6"
    ∷ part "protocol_version" lsl_cpp "#a59009e83a8f0e33643474b373ad2f7f2"
    ∷ part "resolve_stream" lsl_cpp "#a824e14275a55df97d0552a91fc2c4097"
    ∷ part "resolve_stream" lsl_cpp "#a4edfbcc31f48f27e8f7c2a36b69cd4b9"
    ∷ part "resolve_streams" lsl_cpp "#a2935ff3db04cd640f69943ad14a61915"
    ∷ part "DEDUCED_TIMESTAMP" lsl_cpp "#a57df17d8a2563a18b8b759a0cec696cc"
    ∷ part "FOREVER" lsl_cpp "#a74cfbc9077aca21295117217249721ed"
    ∷ part "IRREGULAR_RATE" lsl_cpp "#ac7ebddefe1091ef2d9459b6f9d79f7ab"
    ∷ [])

-- docs/documentation/html/db/df3/lsl__c_8h.js
abbrev pub lsl__c_8h : Rows
lsl__c_8h = rows_of (
    part "LIBLSL_C_API" lsl_c "#aafd0ef1813e8be84a1420c4f1df64615"
    ∷ part "LIBLSL_COMPILE_HEADER_VERSION" lsl_c "#a8575e959edab9eb4be131982dd260acd"
    ∷ part "LSL_DEDUCED_TIMESTAMP" lsl_c "#a5282bfa3df16b30eb308375a45062cfc"
    ∷ part "LSL_FOREVER" lsl_c "#a0416859f36f40e91d12cd07aafb34eaa"
    ∷ part "LSL_IRREGULAR_RATE" lsl_c "#ab46eddb74ca540d49497330b132dbff1"
    ∷ part "LSL_NO_PREFERENCE" lsl_c "#ab94fcb1a355dbfc31f9dd3e0d699e6d6"
    ∷ part "lsl_continuous_resolver" lsl_c "#a78b224e996f3a73b35f4c5d73d721366"
    ∷ part "lsl_inlet" lsl_c "#aff5474907fddf8b14300c79c9fda38e6"
    ∷ part "lsl_outlet" lsl_c "#aef1212b6b2cd3e3747fd6e433c30e395"
    ∷ part "lsl_streaminfo" lsl_c "#a6fd635c662a9c80840b53bd7c202499c"
    ∷ part "lsl_xml_ptr" lsl_c "#ab174601268a7f0a9b60223510ba7d3b8"
    ∷ holds "lsl_channel_format_t" "db/df3/lsl__c_8h.html#ad346feb32bddd136c3f7797e45047754" (
        part "cft_float32" lsl_c
          "#ad346feb32bddd136c3f7797e45047754a0548a6d8aa4e05f6195b7d7667b1a708"
        ∷ part "cft_double64" lsl_c
            "#ad346feb32bddd136c3f7797e45047754a3286e5e97a2240d0fc4375e6eaf26291"
        ∷ part "cft_string" lsl_c
            "#ad346feb32bddd136c3f7797e45047754a8353906afd3439e2f9dc504f571a724d"
        ∷ part "cft_int32" lsl_c
            "#ad346feb32bddd136c3f7797e45047754a2048ca1d716016ec3439711eaf352652"
        ∷ part "cft_int16" lsl_c
            "#ad346feb32bddd136c3f7797e45047754ab0af40c86cf7de7ff94f52006f924f3b"
        ∷ part "cft_int8" lsl_c
            "#ad346feb32bddd136c3f7797e45047754a1b18c0e17a470b9e3bcff23cf49b8d6b"
        ∷ part "cft_int64" lsl_c
            "#ad346feb32bddd136c3f7797e45047754a90aad2d18937be799aca56fe80794aa5"
        ∷ part "cft_undefined" lsl_c
            "#ad346feb32bddd136c3f7797e45047754a0cbaf0c7054a57713970489abab7fb85"
        ∷ [])
    ∷ holds "lsl_error_code_t" "db/df3/lsl__c_8h.html#a0be58f7d496eb06924ee1825219c6e50" (
        part "lsl_no_error" lsl_c
          "#a0be58f7d496eb06924ee1825219c6e50ae6bc06b8e33c37c36c1edae45b4778c1"
        ∷ part "lsl_timeout_error" lsl_c
            "#a0be58f7d496eb06924ee1825219c6e50a41650b5604c0b7392b79d383a7f59a68"
        ∷ part "lsl_lost_error" lsl_c
            "#a0be58f7d496eb06924ee1825219c6e50aa463db40788d297314191e0b41081feb"
        ∷ part "lsl_argument_error" lsl_c
            "#a0be58f7d496eb06924ee1825219c6e50ad4626ba223d8c0b1535074752b0a0463"
        ∷ part "lsl_internal_error" lsl_c
            "#a0be58f7d496eb06924ee1825219c6e50a600b03c28953fa600d6c4e544a14fd99"
        ∷ [])
    ∷ holds "lsl_processing_options_t" "db/df3/lsl__c_8h.html#a9246faefd09869849b726df268042333" (
        part "proc_none" lsl_c "#a9246faefd09869849b726df268042333a10e08b294e3583a6e1892da753137445"
        ∷ part "proc_clocksync" lsl_c
            "#a9246faefd09869849b726df268042333ae6bdb3d07024fa143a22417546496828"
        ∷ part "proc_dejitter" lsl_c
            "#a9246faefd09869849b726df268042333a21f46ef0bbdba358fabe116ae1559c87"
        ∷ part "proc_monotonize" lsl_c
            "#a9246faefd09869849b726df268042333ad36e527d8a75f2ef42d48311bbd605c7"
        ∷ part "proc_threadsafe" lsl_c
            "#a9246faefd09869849b726df268042333af3444351bc66b5a0a8a758774de84438"
        ∷ part "proc_ALL" lsl_c
            "#a9246faefd09869849b726df268042333ae75b6de5e0af2a7c1377c11fafefbb02"
        ∷ [])
    ∷ part "lsl_append_child" lsl_c "#a55229fcb1ff8d014f5459ee9526bc58a"
    ∷ part "lsl_append_child_value" lsl_c "#afb51a7b796ce958254c209e2dbca2453"
    ∷ part "lsl_append_copy" lsl_c "#abc52ee7be11ed9788f5c82d157e0c1c1"
    ∷ part "lsl_child" lsl_c "#a6e9680f770d8459406698ce71a76790c"
    ∷ part "lsl_child_value" lsl_c "#af1a263d9c5182a79fdbbbcd7067d6a93"
    ∷ part "lsl_child_value_n" lsl_c "#a6c36a5f5c61bb996f7dd1776283a8989"
    ∷ part "lsl_close_stream" lsl_c "#a36fa9d4e9c7c817547decef38cd9e07e"
    ∷ part "lsl_copy_streaminfo" lsl_c "#a4514f8ed63874d11e756a59d99b0326d"
    ∷ part "lsl_create_continuous_resolver" lsl_c "#a648855a9dfc987afa399260f149034b9"
    ∷ part "lsl_create_continuous_resolver_bypred" lsl_c "#a15e67770c35aee6028082d73cda42fee"
    ∷ part "lsl_create_continuous_resolver_byprop" lsl_c "#a9e5585ae34b000bcad7a3ea5ab36a0e1"
    ∷ part "lsl_create_inlet" lsl_c "#ae293c3b20d52135ebf3e3ee9cb25c364"
    ∷ part "lsl_create_outlet" lsl_c "#a22a7097dedf222014e6b878f3870b0fa"
    ∷ part "lsl_create_streaminfo" lsl_c "#ad84630a74d54a33c972daa18feb78c9d"
    ∷ part "lsl_destroy_continuous_resolver" lsl_c "#a53de14eb7cebcda0a32a545e4759ce3f"
    ∷ part "lsl_destroy_inlet" lsl_c "#a3d5fb80bb339d9590959327802d9f869"
    ∷ part "lsl_destroy_outlet" lsl_c "#a0588f316a9e406e61f1507d8f756529f"
    ∷ part "lsl_destroy_streaminfo" lsl_c "#aaa63607a0162e2ab9e62dffc7874d716"
    ∷ part "lsl_destroy_string" lsl_c "#addeff0a60f446e7f43770eb1f5e30f84"
    ∷ part "lsl_empty" lsl_c "#a2461080c7a369e91c1ac1ee24c217d4f"
    ∷ part "lsl_first_child" lsl_c "#acffa311b660404321a2e00b9cd4e495f"
    ∷ part "lsl_get_channel_bytes" lsl_c "#ace8095ccb59a3857b0ff42511c72ff9a"
    ∷ part "lsl_get_channel_count" lsl_c "#a5a736ebd5f1fbbd26dc5f66dcdd4edd1"
    ∷ part "lsl_get_channel_format" lsl_c "#aa85ef584982dd371ca580e5103cef633"
    ∷ part "lsl_get_created_at" lsl_c "#aae3594f14dbcf50ea012d89403f5d57c"
    ∷ part "lsl_get_desc" lsl_c "#afef7ba2a6124b285f4568af0cf200420"
    ∷ part "lsl_get_fullinfo" lsl_c "#a5517cad6ae3f24aa079a0f2a67654226"
    ∷ part "lsl_get_hostname" lsl_c "#ab517961395988205f230c14c94cf9506"
    ∷ part "lsl_get_info" lsl_c "#ac3d742ffc5b4f8a941835df6d2369547"
    ∷ part "lsl_get_name" lsl_c "#a86691767b61f0731a3e0668efd42c224"
    ∷ part "lsl_get_nominal_srate" lsl_c "#a52b66d7a75574d98e8709d1734fdd113"
    ∷ part "lsl_get_sample_bytes" lsl_c "#ac0ce4de263cd07fc4e3b1808e784693f"
    ∷ part "lsl_get_session_id" lsl_c "#a66b17ecf6f20b0d5d8f1ed78080515ba"
    ∷ part "lsl_get_source_id" lsl_c "#a98b8df791e7e9d415098aafcb06b3d93"
    ∷ part "lsl_get_type" lsl_c "#a8f6958b1292ad3b59157c290bfce552d"
    ∷ part "lsl_get_uid" lsl_c "#a381b60fcb6379eacda3276218751290c"
    ∷ part "lsl_get_version" lsl_c "#a4c8de5b8ac7e0c9400082a90b398a9e6"
    ∷ part "lsl_get_xml" lsl_c "#a620092f125b45938623229fee3a366f9"
    ∷ part "lsl_have_consumers" lsl_c "#a7f9691f7d2fd38874cefb8e2d75084db"
    ∷ part "lsl_is_text" lsl_c "#a885c3584f6f6068680bb2b61ebf387e5"
    ∷ part "lsl_last_child" lsl_c "#ac15f1512c5195e6d671d49a17885e119"
    ∷ part "lsl_library_info" lsl_c "#ab5f5986ebe4bbf87d97d299b0c1213ea"
    ∷ part "lsl_library_version" lsl_c "#a43f78dccab0a194c987b357a870e9fae"
    ∷ part "lsl_local_clock" lsl_c "#ab5830dfa3831a239eabae33504633849"
    ∷ part "lsl_name" lsl_c "#a5af95d29948ec4e56242dcf24d8c974c"
    ∷ part "lsl_next_sibling" lsl_c "#a40490a0b61d90e5ecbc3265098818851"
    ∷ part "lsl_next_sibling_n" lsl_c "#aea479a05659e31e6248597ac04d189ea"
    ∷ part "lsl_open_stream" lsl_c "#a50d0fd7851d0c963c18b5793da161aa4"
    ∷ part "lsl_parent" lsl_c "#ad64f4e486c676d088eee07776dd12fac"
    ∷ part "lsl_prepend_child" lsl_c "#a7c11ff3b7dc0d5f18d51f0104ac6e281"
    ∷ part "lsl_prepend_child_value" lsl_c "#a2af93b773f826f19f1a9dd28d5db0fd9"
    ∷ part "lsl_prepend_copy" lsl_c "#a7ac39c444784b1956929937d983a27ff"
    ∷ part "lsl_previous_sibling" lsl_c "#a8331a69a3ea3978a1f04e80e6234a4c8"
    ∷ part "lsl_previous_sibling_n" lsl_c "#a9a6e5c2bcf2aa1555c30996d536e53ad"
    ∷ part "lsl_protocol_version" lsl_c "#a41474948cae5d78c552e3a98d5ecd5bc"
    ∷ part "lsl_pull_chunk_buf" lsl_c "#abc993331c3f01c1d3ebb06e69821b009"
    ∷ part "lsl_pull_chunk_c" lsl_c "#a0d7adeba028fb332270548faec0c61a1"
    ∷ part "lsl_pull_chunk_d" lsl_c "#a8eaeec5c8e913bd5eb1e3419a4f56e31"
    ∷ part "lsl_pull_chunk_f" lsl_c "#af605351d94ec7523858646b10dbfbbd2"
    ∷ part "lsl_pull_chunk_i" lsl_c "#a819b6e50f2ba340686fb5d537a2548b8"
    ∷ part "lsl_pull_chunk_l" lsl_c "#af1a8ca4c78fcf8571d811131ca479ba8"
    ∷ part "lsl_pull_chunk_s" lsl_c "#ab0b1ae6dcb03612f18aa37e7aef2b2e0"
    ∷ part "lsl_pull_chunk_str" lsl_c "#a3715850e6e31ed2f6b0767aa42589478"
    ∷ part "lsl_pull_sample_buf" lsl_c "#a356ab88fcd5f5c52a95549b1c8c2d4ed"
    ∷ part "lsl_pull_sample_c" lsl_c "#a58d27f330e42ef40c7b2124a396d65de"
    ∷ part "lsl_pull_sample_d" lsl_c "#a4ccd428e2def15780552ab5550d2efaa"
    ∷ part "lsl_pull_sample_f" lsl_c "#af9e8d161e2cc70ffbf9443083ff5d33d"
    ∷ part "lsl_pull_sample_i" lsl_c "#a4404040430341459d37fdde84b590cba"
    ∷ part "lsl_pull_sample_l" lsl_c "#a7d4458adb9735400f666935f977e03f5"
    ∷ part "lsl_pull_sample_s" lsl_c "#a96bba791d4bb29acc1b0d9428a6b5edd"
    ∷ part "lsl_pull_sample_str" lsl_c "#a9e191a0b0bac97c3f440c553241a623b"
    ∷ part "lsl_pull_sample_v" lsl_c "#a0574687b034da933fb4832caa3d04f92"
    ∷ part "lsl_push_chunk_buf" lsl_c "#a51f3632a013dff65898f168529a70b07"
    ∷ part "lsl_push_chunk_buft" lsl_c "#a2bb75ed52221f51f0bbb6bcbcd5049e4"
    ∷ part "lsl_push_chunk_buftn" lsl_c "#ad0b8e9c8e62e471dfbc098f4293d6ece"
    ∷ part "lsl_push_chunk_buftnp" lsl_c "#a6a1f820184a78a8a1b09a87a98c8dba5"
    ∷ part "lsl_push_chunk_buftp" lsl_c "#a5c391ee5eed07954daea0791fe2335fb"
    ∷ part "lsl_push_chunk_c" lsl_c "#a43928c1354e8539b4d9b40310912e9c1"
    ∷ part "lsl_push_chunk_ct" lsl_c "#a864e000ed999639b3ba785cd6a076c52"
    ∷ part "lsl_push_chunk_ctn" lsl_c "#a504a4265f1cd530d141f92d1459f8fd2"
    ∷ part "lsl_push_chunk_ctnp" lsl_c "#a3f6a22c686a346da77e03863b26c3fe9"
    ∷ part "lsl_push_chunk_ctp" lsl_c "#a8e049d82680d0fb6f803b9c604567516"
    ∷ part "lsl_push_chunk_d" lsl_c "#a227534e78fd4bbdf473ad7796da49377"
    ∷ part "lsl_push_chunk_dt" lsl_c "#a5a201ecffb48729d0eb0e51dba539a23"
    ∷ part "lsl_push_chunk_dtn" lsl_c "#a0d9396b1e4a12269d480762151e085f7"
    ∷ part "lsl_push_chunk_dtnp" lsl_c "#a23a41b710063ea717b411255af956c8c"
    ∷ part "lsl_push_chunk_dtp" lsl_c "#a1e444e438b037d8a1363b1a74568976c"
    ∷ part "lsl_push_chunk_f" lsl_c "#a191171b4aae05abeae2d4172fc500795"
    ∷ part "lsl_push_chunk_ft" lsl_c "#a80f314d925564890ee64b1c2a699bdb0"
    ∷ part "lsl_push_chunk_ftn" lsl_c "#a4a39988b3987aa24d85f6f243c9cec9b"
    ∷ part "lsl_push_chunk_ftnp" lsl_c "#ac81be759a83eb75c357bfb820e83cd12"
    ∷ part "lsl_push_chunk_ftp" lsl_c "#a91a947d9280a61e1e5e73d166a259385"
    ∷ part "lsl_push_chunk_i" lsl_c "#ae0a4be2d1a0c02e8b065710d005e9c7a"
    ∷ part "lsl_push_chunk_it" lsl_c "#a0ae72ee5f88fe45e1fdb04ccf8d38ef3"
    ∷ part "lsl_push_chunk_itn" lsl_c "#a4745191dd3eef55e228ad39275bf937c"
    ∷ part "lsl_push_chunk_itnp" lsl_c "#a50600b670f8e2a5be27cb7b6eca885f9"
    ∷ part "lsl_push_chunk_itp" lsl_c "#a5f16f396ea43fafbad67f8cbc11cba15"
    ∷ part "lsl_push_chunk_l" lsl_c "#af289f8a4f5efff22d10375a1bfc35f32"
    ∷ part "lsl_push_chunk_lt" lsl_c "#aea5a6d89b758f61045830cb0f9d692b4"
    ∷ part "lsl_push_chunk_ltn" lsl_c "#ab647f7d988094c0f18d66619c4a93e68"
    ∷ part "lsl_push_chunk_ltnp" lsl_c "#a005657d00b4c10bcf9dbb0d603dd7494"
    ∷ part "lsl_push_chunk_ltp" lsl_c "#a7991bcb18cd7dbe8722716e2c3fb4924"
    ∷ part "lsl_push_chunk_s" lsl_c "#a3ce11253225a50b371cc1f33a348271f"
    ∷ part "lsl_push_chunk_st" lsl_c "#a8b8ee567d1f8adf3816f0c58a7c311da"
    ∷ part "lsl_push_chunk_stn" lsl_c "#a7cc5ac6b271cc9b2afa180604faa91ef"
    ∷ part "lsl_push_chunk_stnp" lsl_c "#a627538d2845775b858ad795745aacc3d"
    ∷ part "lsl_push_chunk_stp" lsl_c "#a8a64b224cd72b7226005e5dbe8c7c671"
    ∷ part "lsl_push_chunk_str" lsl_c "#adc2bfcb8e80b50c8ee271d85f290385c"
    ∷ part "lsl_push_chunk_strt" lsl_c "#a75428ff735a620f5bf39ced8528b8172"
    ∷ part "lsl_push_chunk_strtn" lsl_c "#a744c9f9300c75ab285b6fb4c3eedb89d"
    ∷ part "lsl_push_chunk_strtnp" lsl_c "#a5a39973a0ed113c792653f8782b29906"
    ∷ part "lsl_push_chunk_strtp" lsl_c "#a337c1cf22b439b511e8ee6238189f7d6"
    ∷ part "lsl_push_sample_buf" lsl_c "#a2e1505acff3a75a3e93a60ef4684456b"
    ∷ part "lsl_push_sample_buft" lsl_c "#a8b8ed17844fa3b269ac65b51c3cac7c5"
    ∷ part "lsl_push_sample_buftp" lsl_c "#aa9716749d011b4f5c74e3eb4b7f86e6b"
    ∷ part "lsl_push_sample_c" lsl_c "#abac187f58d92db9130d18139d72064a9"
    ∷ part "lsl_push_sample_ct" lsl_c "#a3d8187c61f5dd8471e5c00610103cdee"
    ∷ part "lsl_push_sample_ctp" lsl_c "#a79cca3f3f75ae677d973758b8cfd8295"
    ∷ part "lsl_push_sample_d" lsl_c "#ae44e19988a72b422344711d5017cb420"
    ∷ part "lsl_push_sample_dt" lsl_c "#a224bb668fb637074adbcf301208c3052"
    ∷ part "lsl_push_sample_dtp" lsl_c "#af3604739246b9b9175b990eb74fbe183"
    ∷ part "lsl_push_sample_f" lsl_c "#aad62f3e27452d2944cd8cb443fc11741"
    ∷ part "lsl_push_sample_ft" lsl_c "#af0f78c4ea3b891919666047bf1bdbc90"
    ∷ part "lsl_push_sample_ftp" lsl_c "#a03d1dce2aaa12d3787d0f501c50fe06f"
    ∷ part "lsl_push_sample_i" lsl_c "#aa08759dc9e3d361fbc26557fc7a42279"
    ∷ part "lsl_push_sample_it" lsl_c "#a2a69d88399fded37ac1f83a76255b464"
    ∷ part "lsl_push_sample_itp" lsl_c "#a2b4dd3c7f41dd81766cdbfe7048fabd9"
    ∷ part "lsl_push_sample_l" lsl_c "#a1a0f09509cfc4e87346a15216fa852c6"
    ∷ part "lsl_push_sample_lt" lsl_c "#a6e502508ea597c9f9a4a129cddd4e799"
    ∷ part "lsl_push_sample_ltp" lsl_c "#ab3acfb108aa4260818588e75d61307c2"
    ∷ part "lsl_push_sample_s" lsl_c "#abc5a012ac671893b58d38d81b4433520"
    ∷ part "lsl_push_sample_st" lsl_c "#a3b6c842b79ce6040d5fae9ee5b06a705"
    ∷ part "lsl_push_sample_stp" lsl_c "#a9a8d74a7fef9cdf68bd3a1ecf76109fa"
    ∷ part "lsl_push_sample_str" lsl_c "#a70a523aded3aaa76ba81aeaebb22e8df"
    ∷ part "lsl_push_sample_strt" lsl_c "#a281c387af4465c231abb4daed25431b3"
    ∷ part "lsl_push_sample_strtp" lsl_c "#a72938aad4ca7af001b8a3d8d2d64fa2d"
    ∷ part "lsl_push_sample_v" lsl_c "#a9af4120da145ae6ebb904ad0b3bc1b43"
    ∷ part "lsl_push_sample_vt" lsl_c "#a32e4ed2d5e4d064460f88d06fdc0b2d8"
    ∷ part "lsl_push_sample_vtp" lsl_c "#ac6eb5ec72140ba4ae26c80112ccaac52"
    ∷ part "lsl_remove_child" lsl_c "#af350135b29fa2aa538f8d3133b7a5ab7"
    ∷ part "lsl_remove_child_n" lsl_c "#a854a222cf8909b0b7ec901adbd5f6b13"
    ∷ part "lsl_resolve_all" lsl_c "#ac9b53eec106d81130b5aa2341ecf8bd2"
    ∷ part "lsl_resolve_bypred" lsl_c "#a0effb3c0c3ea96a144d3f13265d7d588"
    ∷ part "lsl_resolve_byprop" lsl_c "#ac704c51be54e926f6dcc8dc7d04d8b8b"
    ∷ part "lsl_resolver_results" lsl_c "#aa48e803c7206a2b9a9154486c8b59d3e"
    ∷ part "lsl_samples_available" lsl_c "#ac2fa5d87f7c6c5343ab9a6f678229f62"
    ∷ part "lsl_set_child_value" lsl_c "#ad8c1b9bd37107e1b19b0f7b6ea4c4bc5"
    ∷ part "lsl_set_name" lsl_c "#a339bd96520acc8d5c42fc3c5ab79fa45"
    ∷ part "lsl_set_postprocessing" lsl_c "#a45543d906bb6b91b375e6c170da9d254"
    ∷ part "lsl_set_value" lsl_c "#aa856d09f05c334cb8472fefea485de1f"
    ∷ part "lsl_smoothing_halftime" lsl_c "#a1cdbc26daae8f03a632bbc69ca7262c5"
    ∷ part "lsl_stream_info_matches_query" lsl_c "#a8e0d0447b9598bfe0e46a6166de51cc3"
    ∷ part "lsl_streaminfo_from_xml" lsl_c "#a2d42a5d991505811d98ba04c6319f41b"
    ∷ part "lsl_time_correction" lsl_c "#a8cc9b06f96e96be28e417c5b21350e4f"
    ∷ part "lsl_time_correction_ex" lsl_c "#a55bca1a4bdd96a5e8bc967c3a2ff1dab"
    ∷ part "lsl_value" lsl_c "#a96ec833e4b9e6ee9c263bd903f2f7241"
    ∷ part "lsl_wait_for_consumers" lsl_c "#a0be546ad8637f4a2fd5aee4d5bae2401"
    ∷ part "lsl_was_clock_reset" lsl_c "#ae54c0127325dd0bb977a481533e8ecb9"
    ∷ [])

-- docs/documentation/html/dc/d13/com__client_8hpp.js
abbrev pub com__client_8hpp : Rows
com__client_8hpp = rows_of (
    loads "Client" "df/dcd/class_communication_1_1_client.html"
      "df/dcd/class_communication_1_1_client"
    ∷ loads "Server" "dc/db1/class_communication_1_1_server.html"
        "dc/db1/class_communication_1_1_server"
    ∷ plain "CRLF" "dc/d13/com__client_8hpp.html#a6cb23a858b0a21bdaa644b9181dc415f"
    ∷ [])

-- docs/documentation/html/df/df2/str_a_n_s_iseq_8hpp.js
abbrev pub str_a_n_s_iseq_8hpp : Rows
str_a_n_s_iseq_8hpp = rows_of (
    loads "CLI" "dc/d44/class_e_s_c_1_1_c_l_i.html" "dc/d44/class_e_s_c_1_1_c_l_i"
    ∷ part "LOG" iseq_hpp "#a3577749fb48d57a158b8ac1a0b3ab57e"
    ∷ holds "FORMAT" "df/df2/str_a_n_s_iseq_8hpp.html#a93c187b0ecaecc64127a1e7d211562a1" (
        part "BOLD" iseq_hpp "#a93c187b0ecaecc64127a1e7d211562a1a0949b3693d2401dfa4651b442a9c9551"
        ∷ part "DIM" iseq_hpp "#a93c187b0ecaecc64127a1e7d211562a1a11a52229f2c02ac21863203a9649771d"
        ∷ part "ITALIC" iseq_hpp
            "#a93c187b0ecaecc64127a1e7d211562a1ad7e062b99a6ddd60a225ecc7d10756b1"
        ∷ part "UNDERLINE" iseq_hpp
            "#a93c187b0ecaecc64127a1e7d211562a1a1ea0683248f9953ca0713e5797ce17d1"
        ∷ part "BLINK_SLOW" iseq_hpp
            "#a93c187b0ecaecc64127a1e7d211562a1a5bfaa69787e265bc37dca5b2b61c64a9"
        ∷ part "BLINK_FAST" iseq_hpp
            "#a93c187b0ecaecc64127a1e7d211562a1a0af3dbb99fb41d75e60df73e7bab1fdd"
        ∷ part "REVERSE" iseq_hpp
            "#a93c187b0ecaecc64127a1e7d211562a1a991c4d7703b3a4062d71ac80b047d0f6"
        ∷ part "HIDDEN" iseq_hpp
            "#a93c187b0ecaecc64127a1e7d211562a1aa554b8e89b9c53e86096c1ee2dca2aae"
        ∷ part "STRIKE" iseq_hpp
            "#a93c187b0ecaecc64127a1e7d211562a1a712e5fd9a5e6d3b6a565a22b7b6590b2"
        ∷ part "FG_BLACK" iseq_hpp
            "#a93c187b0ecaecc64127a1e7d211562a1a5793314530aabf181b6d61339928a486"
        ∷ part "BG_BLACK" iseq_hpp
            "#a93c187b0ecaecc64127a1e7d211562a1a2d6d9e4c4d26f775a2d2e0f5d4c2fee5"
        ∷ part "FG_RED" iseq_hpp
            "#a93c187b0ecaecc64127a1e7d211562a1a51f33f01a9c1d72db09e6a9ac6ddb759"
        ∷ part "BG_RED" iseq_hpp
            "#a93c187b0ecaecc64127a1e7d211562a1a9ca7916a80da428a5e295b0356e5ba91"
        ∷ part "FG_GREEN" iseq_hpp
            "#a93c187b0ecaecc64127a1e7d211562a1a852050b53ec94746365cf503b9daf77c"
        ∷ part "BG_GREEN" iseq_hpp
            "#a93c187b0ecaecc64127a1e7d211562a1adb93cd7891a72f8d7878e8ea39700b51"
        ∷ part "FG_YELLOW" iseq_hpp
            "#a93c187b0ecaecc64127a1e7d211562a1a4407cb515758165608277ff094d8aa4e"
        ∷ part "BG_YELLOW" iseq_hpp
            "#a93c187b0ecaecc64127a1e7d211562a1a3b8d384d180428029a6712830c9b01b7"
        ∷ part "FG_BLUE" iseq_hpp
            "#a93c187b0ecaecc64127a1e7d211562a1a2c10a5323218ceb224ef379037cd7e0a"
        ∷ part "BG_BLUE" iseq_hpp
            "#a93c187b0ecaecc64127a1e7d211562a1a560f8ec0e3a165bffd234986d419d93e"
        ∷ part "FG_MAGENTA" iseq_hpp
            "#a93c187b0ecaecc64127a1e7d211562a1a080f5acc7b26dd8c82d66a410dcb003a"
        ∷ part "BG_MAGENTA" iseq_hpp
            "#a93c187b0ecaecc64127a1e7d211562a1ac524cfac8f3b50f5d6ac8a2ce7ac0939"
        ∷ part "FG_CYAN" iseq_hpp
            "#a93c187b0ecaecc64127a1e7d211562a1a1c482c45cb9fa67cb290cb6e17ca291d"
        ∷ part "BG_CYAN" iseq_hpp
            "#a93c187b0ecaecc64127a1e7d211562a1a5c996890ffc321f6f95d51357fa2e00a"
        ∷ part "FG_WHITE" iseq_hpp
            "#a93c187b0ecaecc64127a1e7d211562a1ae751c14d8a6185aa862011b31cef11ee"
        ∷ part "BG_WHITE" iseq_hpp
            "#a93c187b0ecaecc64127a1e7d211562a1ae86ea0aceff2ecc297273593ef04d88a"
        ∷ part "FG_DEFAULT" iseq_hpp
            "#a93c187b0ecaecc64127a1e7d211562a1afa9e18e6b89e7b527ac48cdeabb64955"
        ∷ part "BG_DEFAULT" iseq_hpp
            "#a93c187b0ecaecc64127a1e7d211562a1a1b9e16c203595a107bc8ba10051e08d1"
        ∷ [])
    ∷ part "fstr" iseq_hpp "#a080ff5f5b8a2ed3567a541acfa69a425"
    ∷ part "fstr_link" iseq_hpp "#a07d7fd8adc58054bde19b14556a8d945"
    ∷ part "fstr_n" iseq_hpp "#a6f0f9c5cc6b334d09b6da6834c02af16"
    ∷ part "get_pos" iseq_hpp "#a1ab0660788056c78944278261498664a"
    ∷ part "move_down" iseq_hpp "#a0339f1bf272536a7645b373a503b4928"
    ∷ part "move_left" iseq_hpp "#a231a32f47e8c90921259a47ce621b1cc"
    ∷ part "move_right" iseq_hpp "#ac00ec90c2ccac2f1bcb6219b6f081ad5"
    ∷ part "move_to" iseq_hpp "#aabdbbf48acbc97aadc974b67b8f65d49"
    ∷ part "move_type" iseq_hpp "#a2dc320253a173af845d4317a62c45a6f"
    ∷ part "move_up" iseq_hpp "#ab8b0eda8f8c0d37419c0435cad5230e0"
    ∷ [])

abbrev pub headers : List Script
headers =
    (record {
      name = codes "d1/d7c/lsl__cpp_8h";
      variable = codes "lsl__cpp_8h";
      children = lsl__cpp_8h;
    })
    ∷ (record {
      name = codes "db/df3/lsl__c_8h";
      variable = codes "lsl__c_8h";
      children = lsl__c_8h;
    })
    ∷ (record {
      name = codes "dc/d13/com__client_8hpp";
      variable = codes "com__client_8hpp";
      children = com__client_8hpp;
    })
    ∷ (record {
      name = codes "df/df2/str_a_n_s_iseq_8hpp";
      variable = codes "str_a_n_s_iseq_8hpp";
      children = str_a_n_s_iseq_8hpp;
    })
    ∷ []
