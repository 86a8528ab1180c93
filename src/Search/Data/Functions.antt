-- ===== src/Search/Data/Functions.antt =====
-- The generated search data of docs/documentation/html/search/: functions.
use com_client.Base.{codes, List, [], ◌∷◌}
use com_client.Search.Results.{Entry}
use com_client.Search.Data.Build.{
  at, c_api, c_id, cli, client, cxx_id, esc_item, http, info, inlet, lsl_item, many, one, outlet,
  resolver, server, xml,
}
use com_client.Search.Data.Places as At

abbrev pub functions_0 : List Entry
functions_0 =
    one "append_5fchild_427" "append_child" xml "#af56c7976bb62cabc9c0ca69502063fea"
      "lsl::xml_element"
    ∷ one "append_5fchild_5fvalue_428" "append_child_value" xml "#a6a162d1b57049f5ecab6b68207a71d53"
        "lsl::xml_element"
    ∷ one "append_5fcopy_429" "append_copy" xml "#a73fc3bfe22e1117907a2d80ba33d2208"
        "lsl::xml_element"
    ∷ one "as_5fxml_430" "as_xml" info "#ab1ccb9c2a1945c7051a0e90edaba8996" "lsl::stream_info"
    ∷ []

abbrev pub functions_1 : List Entry
functions_1 =
    one "channel_5fbytes_431" "channel_bytes" info "#a7eb192e1913596b017137347e4cc5847"
      "lsl::stream_info"
    ∷ one "channel_5fcount_432" "channel_count" info "#acf09957c1c61a9d9e0f9439037eec305"
        "lsl::stream_info"
    ∷ one "channel_5fformat_433" "channel_format" info "#aa9695e52570e617d1c7dd4ea9f88b15d"
        "lsl::stream_info"
    ∷ lsl_item "check_5ferror_434" "check_error" "#acce0545ac0a7831acde1a759b778393c"
    ∷ one "child_435" "child" xml "#a111ef129dce406af43948d8c9b915148" "lsl::xml_element"
    ∷ many "child_5fvalue_436" "child_value" (
        at xml "#ac99677d44f66ba850afd9b669e26452f" "lsl::xml_element::child_value() const"
        ∷ At.child_value_1
        ∷ [])
    ∷ one "cli_437" "CLI" cli "#a47b6c71a4c59354a3f9c0cd9bd011807" "ESC::CLI"
    ∷ one "cli_5fid_438" "cli_id" cli "#a24d0af4957baaeafab2a5f689e20b57d" "ESC::CLI"
    ∷ one "client_439" "Client" client "#aea957bd14f311e1f6621e7611022b5c4" "Communication::Client"
    ∷ one "close_5fconnection_440" "close_connection" client "#aa448a9277e9bed8326f74ad81062ab77"
        "Communication::Client"
    ∷ one "close_5fstream_441" "close_stream" inlet "#a77c2f10ed843723c7473aa52dcf544a0"
        "lsl::stream_inlet"
    ∷ many "continuous_5fresolver_442" "continuous_resolver"
        (At.continuous_resolver_3 ∷ At.continuous_resolver_2 ∷ At.continuous_resolver_1 ∷ [])
    ∷ one "crc_443" "CRC" client "#a7020654cbb2e6f707fe637fc84d8328c" "Communication::Client"
    ∷ one "created_5fat_444" "created_at" info "#a9a5be16db42c09b1f0cced52a2259db8"
        "lsl::stream_info"
    ∷ []

abbrev pub functions_2 : List Entry
functions_2 =
    one "desc_445" "desc" info "#a7bbc53bb041757eb87c6c73564981390" "lsl::stream_info" ∷ []

abbrev pub functions_3 : List Entry
functions_3 =
    one "empty_446" "empty" xml "#a787dcaf85abcc5cd4d5f93fc80c82eb5" "lsl::xml_element" ∷ []

abbrev pub functions_4 : List Entry
functions_4 =
    one "first_5fchild_447" "first_child" xml "#ab68b7a1c63c2cb0eb4ce6361b94469b7"
      "lsl::xml_element"
    ∷ one "from_5fsocket_448" "from_socket" client "#a487e227b474999f2ff9f096f1a5784ad"
        "Communication::Client"
    ∷ one "from_5fxml_449" "from_xml" info "#abf8fb6ba88d2f6c4069961149f18faec" "lsl::stream_info"
    ∷ esc_item "fstr_450" "fstr" "#a080ff5f5b8a2ed3567a541acfa69a425"
    ∷ esc_item "fstr_5flink_451" "fstr_link" "#a07d7fd8adc58054bde19b14556a8d945"
    ∷ esc_item "fstr_5fn_452" "fstr_n" "#a6f0f9c5cc6b334d09b6da6834c02af16"
    ∷ []

abbrev pub functions_5 : List Entry
functions_5 =
    one "get_453" "get" http "#a6c2e964c4510d91b79ff9303b672582e" "Communication::HTTP_client"
    ∷ one "get_5fchannel_5fcount_454" "get_channel_count" inlet "#ad86702cf94e5b0b850a2f94a228e4f98"
        "lsl::stream_inlet"
    ∷ esc_item "get_5fpos_455" "get_pos" "#a1ab0660788056c78944278261498664a"
    ∷ one "get_5fstat_456" "get_stat" client "#a2508e02531cf7e8dd258677b7b1490e9"
        "Communication::Client"
    ∷ []

abbrev pub functions_6 : List Entry
functions_6 =
    one "handle_457" "handle" info "#a532f6e8b29052cf11fbf87aeb3424304" "lsl::stream_info"
    ∷ one "have_5fconsumers_458" "have_consumers" outlet "#a3e7fad1010ef7c78bcd006a4f94381fa"
        "lsl::stream_outlet"
    ∷ one "hostname_459" "hostname" info "#a52db8d9e073297477d1183dfebe8dcda" "lsl::stream_info"
    ∷ one "http_5fclient_460" "HTTP_client" http "#af8b79c3813af9e4e2b9d2cb45b52b8c3"
        "Communication::HTTP_client"
    ∷ []

abbrev pub functions_7 : List Entry
functions_7 =
    many "info_461" "info" (
      at outlet "#af6fda8eb922b27ae3ed98651934243fe" "lsl::stream_outlet::info()"
      ∷ at inlet "#ae895a8d5c10dc4072e969686fc402b5b" "lsl::stream_inlet::info()"
      ∷ [])
    ∷ one "is_5fconnected_462" "is_connected" client "#a5afbc51613d3caf88641d04e81837467"
        "Communication::Client"
    ∷ one "is_5ftext_463" "is_text" xml "#a965cfff9a29ebe6d8274f5256ff0017c" "lsl::xml_element"
    ∷ []

abbrev pub functions_8 : List Entry
functions_8 =
    one "last_5fchild_464" "last_child" xml "#a12254f735a79a11b75718fe7c28186d0" "lsl::xml_element"
    ∷ lsl_item "library_5finfo_465" "library_info" "#a2a348cf022e9862396e4a10f60af42e9"
    ∷ lsl_item "library_5fversion_466" "library_version" "#a25fc4deea3c2fb0df0744e3a24c56844"
    ∷ lsl_item "local_5fclock_467" "local_clock" "#ae1766ae2ab66141cb927612e57a0c8c6"
    ∷ one "log_468" "log" cli "#a1ac0d519304d97b3be094979fcfe6e44" "ESC::CLI"
    ∷ one "log_5ferror_469" "log_error" cli "#aee4e23e87ebd3cf3909f1760a5fda04b" "ESC::CLI"
    ∷ one "logln_470" "logln" cli "#abe1e5a3cc2cbd55c0704e9b13842e436" "ESC::CLI"
    ∷ one "lost_5ferror_471" "lost_error" (codes "../de/d94/classlsl_1_1lost__error.html")
        "#a997ff6ff1ecd4fd33cda631b975d386e" "lsl::lost_error"
    ∷ c_api "lsl_5fappend_5fchild_472" "lsl_append_child" "#a55229fcb1ff8d014f5459ee9526bc58a"
    ∷ c_api "lsl_5fappend_5fchild_5fvalue_473" "lsl_append_child_value"
        "#afb51a7b796ce958254c209e2dbca2453"
    ∷ c_api "lsl_5fappend_5fcopy_474" "lsl_append_copy" "#abc52ee7be11ed9788f5c82d157e0c1c1"
    ∷ c_api "lsl_5fchild_475" "lsl_child" "#a6e9680f770d8459406698ce71a76790c"
    ∷ c_api "lsl_5fchild_5fvalue_476" "lsl_child_value" "#af1a263d9c5182a79fdbbbcd7067d6a93"
    ∷ c_api "lsl_5fchild_5fvalue_5fn_477" "lsl_child_value_n" "#a6c36a5f5c61bb996f7dd1776283a8989"
    ∷ c_api "lsl_5fclose_5fstream_478" "lsl_close_stream" "#a36fa9d4e9c7c817547decef38cd9e07e"
    ∷ c_api "lsl_5fcopy_5fstreaminfo_479" "lsl_copy_streaminfo" "#a4514f8ed63874d11e756a59d99b0326d"
    ∷ c_api "lsl_5fcreate_5fcontinuous_5fresolver_480" "lsl_create_continuous_resolver"
        "#a648855a9dfc987afa399260f149034b9"
    ∷ c_api "lsl_5fcreate_5fcontinuous_5fresolver_5fbypred_481"
        "lsl_create_continuous_resolver_bypred" "#a15e67770c35aee6028082d73cda42fee"
    ∷ c_api "lsl_5fcreate_5fcontinuous_5fresolver_5fbyprop_482"
        "lsl_create_continuous_resolver_byprop" "#a9e5585ae34b000bcad7a3ea5ab36a0e1"
    ∷ c_api "lsl_5fcreate_5finlet_483" "lsl_create_inlet" "#ae293c3b20d52135ebf3e3ee9cb25c364"
    ∷ c_api "lsl_5fcreate_5foutlet_484" "lsl_create_outlet" "#a22a7097dedf222014e6b878f3870b0fa"
    ∷ c_api "lsl_5fcreate_5fstreaminfo_485" "lsl_create_streaminfo"
        "#ad84630a74d54a33c972daa18feb78c9d"
    ∷ c_api "lsl_5fdestroy_5fcontinuous_5fresolver_486" "lsl_destroy_continuous_resolver"
        "#a53de14eb7cebcda0a32a545e4759ce3f"
    ∷ c_api "lsl_5fdestroy_5finlet_487" "lsl_destroy_inlet" "#a3d5fb80bb339d9590959327802d9f869"
    ∷ c_api "lsl_5fdestroy_5foutlet_488" "lsl_destroy_outlet" "#a0588f316a9e406e61f1507d8f756529f"
    ∷ c_api "lsl_5fdestroy_5fstreaminfo_489" "lsl_destroy_streaminfo"
        "#aaa63607a0162e2ab9e62dffc7874d716"
    ∷ c_api "lsl_5fdestroy_5fstring_490" "lsl_destroy_string" "#addeff0a60f446e7f43770eb1f5e30f84"
    ∷ c_api "lsl_5fempty_491" "lsl_empty" "#a2461080c7a369e91c1ac1ee24c217d4f"
    ∷ c_api "lsl_5ffirst_5fchild_492" "lsl_first_child" "#acffa311b660404321a2e00b9cd4e495f"
    ∷ c_api "lsl_5fget_5fchannel_5fbytes_493" "lsl_get_channel_bytes"
        "#ace8095ccb59a3857b0ff42511c72ff9a"
    ∷ c_api "lsl_5fget_5fchannel_5fcount_494" "lsl_get_channel_count"
        "#a5a736ebd5f1fbbd26dc5f66dcdd4edd1"
    ∷ c_api "lsl_5fget_5fchannel_5fformat_495" "lsl_get_channel_format"
        "#aa85ef584982dd371ca580e5103cef633"
    ∷ c_api "lsl_5fget_5fcreated_5fat_496" "lsl_get_created_at" "#aae3594f14dbcf50ea012d89403f5d57c"
    ∷ c_api "lsl_5fget_5fdesc_497" "lsl_get_desc" "#afef7ba2a6124b285f4568af0cf200420"
    ∷ c_api "lsl_5fget_5ffullinfo_498" "lsl_get_fullinfo" "#a5517cad6ae3f24aa079a0f2a67654226"
    ∷ c_api "lsl_5fget_5fhostname_499" "lsl_get_hostname" "#ab517961395988205f230c14c94cf9506"
    ∷ c_api "lsl_5fget_5finfo_500" "lsl_get_info" "#ac3d742ffc5b4f8a941835df6d2369547"
    ∷ c_api "lsl_5fget_5fname_501" "lsl_get_name" "#a86691767b61f0731a3e0668efd42c224"
    ∷ c_api "lsl_5fget_5fnominal_5fsrate_502" "lsl_get_nominal_srate"
        "#a52b66d7a75574d98e8709d1734fdd113"
    ∷ c_api "lsl_5fget_5fsample_5fbytes_503" "lsl_get_sample_bytes"
        "#ac0ce4de263cd07fc4e3b1808e784693f"
    ∷ c_api "lsl_5fget_5fsession_5fid_504" "lsl_get_session_id" "#a66b17ecf6f20b0d5d8f1ed78080515ba"
    ∷ c_api "lsl_5fget_5fsource_5fid_505" "lsl_get_source_id" "#a98b8df791e7e9d415098aafcb06b3d93"
    ∷ c_api "lsl_5fget_5ftype_506" "lsl_get_type" "#a8f6958b1292ad3b59157c290bfce552d"
    ∷ c_api "lsl_5fget_5fuid_507" "lsl_get_uid" "#a381b60fcb6379eacda3276218751290c"
    ∷ c_api "lsl_5fget_5fversion_508" "lsl_get_version" "#a4c8de5b8ac7e0c9400082a90b398a9e6"
    ∷ c_api "lsl_5fget_5fxml_509" "lsl_get_xml" "#a620092f125b45938623229fee3a366f9"
    ∷ c_api "lsl_5fhave_5fconsumers_510" "lsl_have_consumers" "#a7f9691f7d2fd38874cefb8e2d75084db"
    ∷ c_api "lsl_5fis_5ftext_511" "lsl_is_text" "#a885c3584f6f6068680bb2b61ebf387e5"
    ∷ c_api "lsl_5flast_5fchild_512" "lsl_last_child" "#ac15f1512c5195e6d671d49a17885e119"
    ∷ c_api "lsl_5flibrary_5finfo_513" "lsl_library_info" "#ab5f5986ebe4bbf87d97d299b0c1213ea"
    ∷ c_api "lsl_5flibrary_5fversion_514" "lsl_library_version" "#a43f78dccab0a194c987b357a870e9fae"
    ∷ c_api "lsl_5flocal_5fclock_515" "lsl_local_clock" "#ab5830dfa3831a239eabae33504633849"
    ∷ c_api "lsl_5fname_516" "lsl_name" "#a5af95d29948ec4e56242dcf24d8c974c"
    ∷ c_api "lsl_5fnext_5fsibling_517" "lsl_next_sibling" "#a40490a0b61d90e5ecbc3265098818851"
    ∷ c_api "lsl_5fnext_5fsibling_5fn_518" "lsl_next_sibling_n" "#aea479a05659e31e6248597ac04d189ea"
    ∷ c_api "lsl_5fopen_5fstream_519" "lsl_open_stream" "#a50d0fd7851d0c963c18b5793da161aa4"
    ∷ c_api "lsl_5fparent_520" "lsl_parent" "#ad64f4e486c676d088eee07776dd12fac"
    ∷ c_api "lsl_5fprepend_5fchild_521" "lsl_prepend_child" "#a7c11ff3b7dc0d5f18d51f0104ac6e281"
    ∷ c_api "lsl_5fprepend_5fchild_5fvalue_522" "lsl_prepend_child_value"
        "#a2af93b773f826f19f1a9dd28d5db0fd9"
    ∷ c_api "lsl_5fprepend_5fcopy_523" "lsl_prepend_copy" "#a7ac39c444784b1956929937d983a27ff"
    ∷ c_api "lsl_5fprevious_5fsibling_524" "lsl_previous_sibling"
        "#a8331a69a3ea3978a1f04e80e6234a4c8"
    ∷ c_api "lsl_5fprevious_5fsibling_5fn_525" "lsl_previous_sibling_n"
        "#a9a6e5c2bcf2aa1555c30996d536e53ad"
    ∷ c_api "lsl_5fprotocol_5fversion_526" "lsl_protocol_version"
        "#a41474948cae5d78c552e3a98d5ecd5bc"
    ∷ c_api "lsl_5fpull_5fchunk_5fbuf_527" "lsl_pull_chunk_buf" "#abc993331c3f01c1d3ebb06e69821b009"
    ∷ c_api "lsl_5fpull_5fchunk_5fc_528" "lsl_pull_chunk_c" "#a0d7adeba028fb332270548faec0c61a1"
    ∷ c_api "lsl_5fpull_5fchunk_5fd_529" "lsl_pull_chunk_d" "#a8eaeec5c8e913bd5eb1e3419a4f56e31"
    ∷ c_api "lsl_5fpull_5fchunk_5ff_530" "lsl_pull_chunk_f" "#af605351d94ec7523858646b10dbfbbd2"
    ∷ c_api "lsl_5fpull_5fchunk_5fi_531" "lsl_pull_chunk_i" "#a819b6e50f2ba340686fb5d537a2548b8"
    ∷ c_api "lsl_5fpull_5fchunk_5fl_532" "lsl_pull_chunk_l" "#af1a8ca4c78fcf8571d811131ca479ba8"
    ∷ c_api "lsl_5fpull_5fchunk_5fs_533" "lsl_pull_chunk_s" "#ab0b1ae6dcb03612f18aa37e7aef2b2e0"
    ∷ c_api "lsl_5fpull_5fchunk_5fstr_534" "lsl_pull_chunk_str" "#a3715850e6e31ed2f6b0767aa42589478"
    ∷ c_api "lsl_5fpull_5fsample_5fbuf_535" "lsl_pull_sample_buf"
        "#a356ab88fcd5f5c52a95549b1c8c2d4ed"
    ∷ c_api "lsl_5fpull_5fsample_5fc_536" "lsl_pull_sample_c" "#a58d27f330e42ef40c7b2124a396d65de"
    ∷ c_api "lsl_5fpull_5fsample_5fd_537" "lsl_pull_sample_d" "#a4ccd428e2def15780552ab5550d2efaa"
    ∷ c_api "lsl_5fpull_5fsample_5ff_538" "lsl_pull_sample_f" "#af9e8d161e2cc70ffbf9443083ff5d33d"
    ∷ c_api "lsl_5fpull_5fsample_5fi_539" "lsl_pull_sample_i" "#a4404040430341459d37fdde84b590cba"
    ∷ c_api "lsl_5fpull_5fsample_5fl_540" "lsl_pull_sample_l" "#a7d4458adb9735400f666935f977e03f5"
    ∷ c_api "lsl_5fpull_5fsample_5fs_541" "lsl_pull_sample_s" "#a96bba791d4bb29acc1b0d9428a6b5edd"
    ∷ c_api "lsl_5fpull_5fsample_5fstr_542" "lsl_pull_sample_str"
        "#a9e191a0b0bac97c3f440c553241a623b"
    ∷ c_api "lsl_5fpull_5fsample_5fv_543" "lsl_pull_sample_v" "#a0574687b034da933fb4832caa3d04f92"
    ∷ c_api "lsl_5fpush_5fchunk_5fbuf_544" "lsl_push_chunk_buf" "#a51f3632a013dff65898f168529a70b07"
    ∷ c_api "lsl_5fpush_5fchunk_5fbuft_545" "lsl_push_chunk_buft"
        "#a2bb75ed52221f51f0bbb6bcbcd5049e4"
    ∷ c_api "lsl_5fpush_5fchunk_5fbuftn_546" "lsl_push_chunk_buftn"
        "#ad0b8e9c8e62e471dfbc098f4293d6ece"
    ∷ c_api "lsl_5fpush_5fchunk_5fbuftnp_547" "lsl_push_chunk_buftnp"
        "#a6a1f820184a78a8a1b09a87a98c8dba5"
    ∷ c_api "lsl_5fpush_5fchunk_5fbuftp_548" "lsl_push_chunk_buftp"
        "#a5c391ee5eed07954daea0791fe2335fb"
    ∷ c_api "lsl_5fpush_5fchunk_5fc_549" "lsl_push_chunk_c" "#a43928c1354e8539b4d9b40310912e9c1"
    ∷ c_api "lsl_5fpush_5fchunk_5fct_550" "lsl_push_chunk_ct" "#a864e000ed999639b3ba785cd6a076c52"
    ∷ c_api "lsl_5fpush_5fchunk_5fctn_551" "lsl_push_chunk_ctn" "#a504a4265f1cd530d141f92d1459f8fd2"
    ∷ c_api "lsl_5fpush_5fchunk_5fctnp_552" "lsl_push_chunk_ctnp"
        "#a3f6a22c686a346da77e03863b26c3fe9"
    ∷ c_api "lsl_5fpush_5fchunk_5fctp_553" "lsl_push_chunk_ctp" "#a8e049d82680d0fb6f803b9c604567516"
    ∷ c_api "lsl_5fpush_5fchunk_5fd_554" "lsl_push_chunk_d" "#a227534e78fd4bbdf473ad7796da49377"
    ∷ c_api "lsl_5fpush_5fchunk_5fdt_555" "lsl_push_chunk_dt" "#a5a201ecffb48729d0eb0e51dba539a23"
    ∷ c_api "lsl_5fpush_5fchunk_5fdtn_556" "lsl_push_chunk_dtn" "#a0d9396b1e4a12269d480762151e085f7"
    ∷ c_api "lsl_5fpush_5fchunk_5fdtnp_557" "lsl_push_chunk_dtnp"
        "#a23a41b710063ea717b411255af956c8c"
    ∷ c_api "lsl_5fpush_5fchunk_5fdtp_558" "lsl_push_chunk_dtp" "#a1e444e438b037d8a1363b1a74568976c"
    ∷ c_api "lsl_5fpush_5fchunk_5ff_559" "lsl_push_chunk_f" "#a191171b4aae05abeae2d4172fc500795"
    ∷ c_api "lsl_5fpush_5fchunk_5fft_560" "lsl_push_chunk_ft" "#a80f314d925564890ee64b1c2a699bdb0"
    ∷ c_api "lsl_5fpush_5fchunk_5fftn_561" "lsl_push_chunk_ftn" "#a4a39988b3987aa24d85f6f243c9cec9b"
    ∷ c_api "lsl_5fpush_5fchunk_5fftnp_562" "lsl_push_chunk_ftnp"
        "#ac81be759a83eb75c357bfb820e83cd12"
    ∷ c_api "lsl_5fpush_5fchunk_5fftp_563" "lsl_push_chunk_ftp" "#a91a947d9280a61e1e5e73d166a259385"
    ∷ c_api "lsl_5fpush_5fchunk_5fi_564" "lsl_push_chunk_i" "#ae0a4be2d1a0c02e8b065710d005e9c7a"
    ∷ c_api "lsl_5fpush_5fchunk_5fit_565" "lsl_push_chunk_it" "#a0ae72ee5f88fe45e1fdb04ccf8d38ef3"
    ∷ c_api "lsl_5fpush_5fchunk_5fitn_566" "lsl_push_chunk_itn" "#a4745191dd3eef55e228ad39275bf937c"
    ∷ c_api "lsl_5fpush_5fchunk_5fitnp_567" "lsl_push_chunk_itnp"
        "#a50600b670f8e2a5be27cb7b6eca885f9"
    ∷ c_api "lsl_5fpush_5fchunk_5fitp_568" "lsl_push_chunk_itp" "#a5f16f396ea43fafbad67f8cbc11cba15"
    ∷ c_api "lsl_5fpush_5fchunk_5fl_569" "lsl_push_chunk_l" "#af289f8a4f5efff22d10375a1bfc35f32"
    ∷ c_api "lsl_5fpush_5fchunk_5flt_570" "lsl_push_chunk_lt" "#aea5a6d89b758f61045830cb0f9d692b4"
    ∷ c_api "lsl_5fpush_5fchunk_5fltn_571" "lsl_push_chunk_ltn" "#ab647f7d988094c0f18d66619c4a93e68"
    ∷ c_api "lsl_5fpush_5fchunk_5fltnp_572" "lsl_push_chunk_ltnp"
        "#a005657d00b4c10bcf9dbb0d603dd7494"
    ∷ c_api "lsl_5fpush_5fchunk_5fltp_573" "lsl_push_chunk_ltp" "#a7991bcb18cd7dbe8722716e2c3fb4924"
    ∷ c_api "lsl_5fpush_5fchunk_5fs_574" "lsl_push_chunk_s" "#a3ce11253225a50b371cc1f33a348271f"
    ∷ c_api "lsl_5fpush_5fchunk_5fst_575" "lsl_push_chunk_st" "#a8b8ee567d1f8adf3816f0c58a7c311da"
    ∷ c_api "lsl_5fpush_5fchunk_5fstn_576" "lsl_push_chunk_stn" "#a7cc5ac6b271cc9b2afa180604faa91ef"
    ∷ c_api "lsl_5fpush_5fchunk_5fstnp_577" "lsl_push_chunk_stnp"
        "#a627538d2845775b858ad795745aacc3d"
    ∷ c_api "lsl_5fpush_5fchunk_5fstp_578" "lsl_push_chunk_stp" "#a8a64b224cd72b7226005e5dbe8c7c671"
    ∷ c_api "lsl_5fpush_5fchunk_5fstr_579" "lsl_push_chunk_str" "#adc2bfcb8e80b50c8ee271d85f290385c"
    ∷ c_api "lsl_5fpush_5fchunk_5fstrt_580" "lsl_push_chunk_strt"
        "#a75428ff735a620f5bf39ced8528b8172"
    ∷ c_api "lsl_5fpush_5fchunk_5fstrtn_581" "lsl_push_chunk_strtn"
        "#a744c9f9300c75ab285b6fb4c3eedb89d"
    ∷ c_api "lsl_5fpush_5fchunk_5fstrtnp_582" "lsl_push_chunk_strtnp"
        "#a5a39973a0ed113c792653f8782b29906"
    ∷ c_api "lsl_5fpush_5fchunk_5fstrtp_583" "lsl_push_chunk_strtp"
        "#a337c1cf22b439b511e8ee6238189f7d6"
    ∷ c_api "lsl_5fpush_5fsample_5fbuf_584" "lsl_push_sample_buf"
        "#a2e1505acff3a75a3e93a60ef4684456b"
    ∷ c_api "lsl_5fpush_5fsample_5fbuft_585" "lsl_push_sample_buft"
        "#a8b8ed17844fa3b269ac65b51c3cac7c5"
    ∷ c_api "lsl_5fpush_5fsample_5fbuftp_586" "lsl_push_sample_buftp"
        "#aa9716749d011b4f5c74e3eb4b7f86e6b"
    ∷ c_api "lsl_5fpush_5fsample_5fc_587" "lsl_push_sample_c" "#abac187f58d92db9130d18139d72064a9"
    ∷ c_api "lsl_5fpush_5fsample_5fct_588" "lsl_push_sample_ct" "#a3d8187c61f5dd8471e5c00610103cdee"
    ∷ c_api "lsl_5fpush_5fsample_5fctp_589" "lsl_push_sample_ctp"
        "#a79cca3f3f75ae677d973758b8cfd8295"
    ∷ c_api "lsl_5fpush_5fsample_5fd_590" "lsl_push_sample_d" "#ae44e19988a72b422344711d5017cb420"
    ∷ c_api "lsl_5fpush_5fsample_5fdt_591" "lsl_push_sample_dt" "#a224bb668fb637074adbcf301208c3052"
    ∷ c_api "lsl_5fpush_5fsample_5fdtp_592" "lsl_push_sample_dtp"
        "#af3604739246b9b9175b990eb74fbe183"
    ∷ c_api "lsl_5fpush_5fsample_5ff_593" "lsl_push_sample_f" "#aad62f3e27452d2944cd8cb443fc11741"
    ∷ c_api "lsl_5fpush_5fsample_5fft_594" "lsl_push_sample_ft" "#af0f78c4ea3b891919666047bf1bdbc90"
    ∷ c_api "lsl_5fpush_5fsample_5fftp_595" "lsl_push_sample_ftp"
        "#a03d1dce2aaa12d3787d0f501c50fe06f"
    ∷ c_api "lsl_5fpush_5fsample_5fi_596" "lsl_push_sample_i" "#aa08759dc9e3d361fbc26557fc7a42279"
    ∷ c_api "lsl_5fpush_5fsample_5fit_597" "lsl_push_sample_it" "#a2a69d88399fded37ac1f83a76255b464"
    ∷ c_api "lsl_5fpush_5fsample_5fitp_598" "lsl_push_sample_itp"
        "#a2b4dd3c7f41dd81766cdbfe7048fabd9"
    ∷ c_api "lsl_5fpush_5fsample_5fl_599" "lsl_push_sample_l" "#a1a0f09509cfc4e87346a15216fa852c6"
    ∷ c_api "lsl_5fpush_5fsample_5flt_600" "lsl_push_sample_lt" "#a6e502508ea597c9f9a4a129cddd4e799"
    ∷ c_api "lsl_5fpush_5fsample_5fltp_601" "lsl_push_sample_ltp"
        "#ab3acfb108aa4260818588e75d61307c2"
    ∷ c_api "lsl_5fpush_5fsample_5fs_602" "lsl_push_sample_s" "#abc5a012ac671893b58d38d81b4433520"
    ∷ c_api "lsl_5fpush_5fsample_5fst_603" "lsl_push_sample_st" "#a3b6c842b79ce6040d5fae9ee5b06a705"
    ∷ c_api "lsl_5fpush_5fsample_5fstp_604" "lsl_push_sample_stp"
        "#a9a8d74a7fef9cdf68bd3a1ecf76109fa"
    ∷ c_api "lsl_5fpush_5fsample_5fstr_605" "lsl_push_sample_str"
        "#a70a523aded3aaa76ba81aeaebb22e8df"
    ∷ c_api "lsl_5fpush_5fsample_5fstrt_606" "lsl_push_sample_strt"
        "#a281c387af4465c231abb4daed25431b3"
    ∷ c_api "lsl_5fpush_5fsample_5fstrtp_607" "lsl_push_sample_strtp"
        "#a72938aad4ca7af001b8a3d8d2d64fa2d"
    ∷ c_api "lsl_5fpush_5fsample_5fv_608" "lsl_push_sample_v" "#a9af4120da145ae6ebb904ad0b3bc1b43"
    ∷ c_api "lsl_5fpush_5fsample_5fvt_609" "lsl_push_sample_vt" "#a32e4ed2d5e4d064460f88d06fdc0b2d8"
    ∷ c_api "lsl_5fpush_5fsample_5fvtp_610" "lsl_push_sample_vtp"
        "#ac6eb5ec72140ba4ae26c80112ccaac52"
    ∷ c_api "lsl_5fremove_5fchild_611" "lsl_remove_child" "#af350135b29fa2aa538f8d3133b7a5ab7"
    ∷ c_api "lsl_5fremove_5fchild_5fn_612" "lsl_remove_child_n" "#a854a222cf8909b0b7ec901adbd5f6b13"
    ∷ c_api "lsl_5fresolve_5fall_613" "lsl_resolve_all" "#ac9b53eec106d81130b5aa2341ecf8bd2"
    ∷ c_api "lsl_5fresolve_5fbypred_614" "lsl_resolve_bypred" "#a0effb3c0c3ea96a144d3f13265d7d588"
    ∷ c_api "lsl_5fresolve_5fbyprop_615" "lsl_resolve_byprop" "#ac704c51be54e926f6dcc8dc7d04d8b8b"
    ∷ c_api "lsl_5fresolver_5fresults_616" "lsl_resolver_results"
        "#aa48e803c7206a2b9a9154486c8b59d3e"
    ∷ c_api "lsl_5fsamples_5favailable_617" "lsl_samples_available"
        "#ac2fa5d87f7c6c5343ab9a6f678229f62"
    ∷ c_api "lsl_5fset_5fchild_5fvalue_618" "lsl_set_child_value"
        "#ad8c1b9bd37107e1b19b0f7b6ea4c4bc5"
    ∷ c_api "lsl_5fset_5fname_619" "lsl_set_name" "#a339bd96520acc8d5c42fc3c5ab79fa45"
    ∷ c_api "lsl_5fset_5fpostprocessing_620" "lsl_set_postprocessing"
        "#a45543d906bb6b91b375e6c170da9d254"
    ∷ c_api "lsl_5fset_5fvalue_621" "lsl_set_value" "#aa856d09f05c334cb8472fefea485de1f"
    ∷ c_api "lsl_5fsmoothing_5fhalftime_622" "lsl_smoothing_halftime"
        "#a1cdbc26daae8f03a632bbc69ca7262c5"
    ∷ c_api "lsl_5fstream_5finfo_5fmatches_5fquery_623" "lsl_stream_info_matches_query"
        "#a8e0d0447b9598bfe0e46a6166de51cc3"
    ∷ c_api "lsl_5fstreaminfo_5ffrom_5fxml_624" "lsl_streaminfo_from_xml"
        "#a2d42a5d991505811d98ba04c6319f41b"
    ∷ c_api "lsl_5ftime_5fcorrection_625" "lsl_time_correction" "#a8cc9b06f96e96be28e417c5b21350e4f"
    ∷ c_api "lsl_5ftime_5fcorrection_5fex_626" "lsl_time_correction_ex"
        "#a55bca1a4bdd96a5e8bc967c3a2ff1dab"
    ∷ c_api "lsl_5fvalue_627" "lsl_value" "#a96ec833e4b9e6ee9c263bd903f2f7241"
    ∷ c_api "lsl_5fwait_5ffor_5fconsumers_628" "lsl_wait_for_consumers"
        "#a0be546ad8637f4a2fd5aee4d5bae2401"
    ∷ c_api "lsl_5fwas_5fclock_5freset_629" "lsl_was_clock_reset"
        "#ae54c0127325dd0bb977a481533e8ecb9"
    ∷ []

abbrev pub functions_9 : List Entry
functions_9 =
    many "main_630" "main" (
      at c_id "#a0ddf1224851353fc92bfbff6f499fa97"
        "main(int argc, char *argv[]):&#160;CMakeCCompilerId.c"
      ∷ at cxx_id "#a0ddf1224851353fc92bfbff6f499fa97"
          "main(int argc, char *argv[]):&#160;CMakeCXXCompilerId.cpp"
      ∷ at (codes "../d0/d3f/lib_2str_a_n_s_iseq_2src_2main_8cpp.html")
          "#a3c04138a5bfe5d72780bb7e82a18e627" "main(int argc, char **argv):&#160;main.cpp"
      ∷ at (codes "../de/dfb/src_2main_8cpp.html") "#a3c04138a5bfe5d72780bb7e82a18e627"
          "main(int argc, char **argv):&#160;main.cpp"
      ∷ [])
    ∷ one "matches_5fquery_631" "matches_query" info "#a6c3474322d467e8d8198c7a6e4c7ad76"
        "lsl::stream_info"
    ∷ esc_item "move_5fdown_632" "move_down" "#a0339f1bf272536a7645b373a503b4928"
    ∷ esc_item "move_5fleft_633" "move_left" "#a231a32f47e8c90921259a47ce621b1cc"
    ∷ esc_item "move_5fright_634" "move_right" "#ac00ec90c2ccac2f1bcb6219b6f081ad5"
    ∷ esc_item "move_5fto_635" "move_to" "#aabdbbf48acbc97aadc974b67b8f65d49"
    ∷ esc_item "move_5ftype_636" "move_type" "#a2dc320253a173af845d4317a62c45a6f"
    ∷ esc_item "move_5fup_637" "move_up" "#ab8b0eda8f8c0d37419c0435cad5230e0"
    ∷ []

abbrev pub functions_a : List Entry
functions_a =
    many "name_638" "name" (
      at info "#a0862e5c580d65ecf9ceb1fcc26f2ca34" "lsl::stream_info::name()"
      ∷ at xml "#a2e449e85b7e763b1d0db4bb19d2eb7c2" "lsl::xml_element::name() const"
      ∷ [])
    ∷ many "next_5fsibling_639" "next_sibling" (
        at xml "#a9637215f616b660789696e452b0e0591" "lsl::xml_element::next_sibling() const"
        ∷ At.next_sibling_1
        ∷ [])
    ∷ one "nominal_5fsrate_640" "nominal_srate" info "#a35b9b9b8947915f9f9518333342e2835"
        "lsl::stream_info"
    ∷ []

abbrev pub functions_b : List Entry
functions_b =
    many "open_5fconnection_641" "open_connection" (
      at client "#a66336ae23ea502a9395010407a952664" "Communication::Client::open_connection()"
      ∷ at http "#a67973a5bc8e92122bc5f98c95990bca7" "Communication::HTTP_client::open_connection()"
      ∷ [])
    ∷ one "open_5fstream_642" "open_stream" inlet "#ad84029ed0662d755b0544c7652348718"
        "lsl::stream_inlet"
    ∷ one "operator_3d_643" "operator=" info "#a8ce8011b9da9b90c8e11e5c1c477a0a2" "lsl::stream_info"
    ∷ []

abbrev pub functions_c : List Entry
functions_c =
    one "parent_644" "parent" xml "#ae3211be3c10164f366220b638a9dd200" "lsl::xml_element"
    ∷ one "post_645" "post" http "#a241e78ccad7bcbc7597cb2dde7d7e402" "Communication::HTTP_client"
    ∷ one "prepend_5fchild_646" "prepend_child" xml "#abd881c6c5d0d381f9efff2fc25975e7e"
        "lsl::xml_element"
    ∷ one "prepend_5fchild_5fvalue_647" "prepend_child_value" xml
        "#a3e7fde09def517574df99c71a0a05d23" "lsl::xml_element"
    ∷ one "prepend_5fcopy_648" "prepend_copy" xml "#a1bea6df95134f909611b1c40218828d7"
        "lsl::xml_element"
    ∷ many "previous_5fsibling_649" "previous_sibling" (
        at xml "#a78c2e0b3d7bda2b5a2d478e3c0cdc87a" "lsl::xml_element::previous_sibling() const"
        ∷ At.previous_sibling_1
        ∷ [])
    ∷ lsl_item "protocol_5fversion_650" "protocol_version" "#a59009e83a8f0e33643474b373ad2f7f2"
    ∷ many "pull_5fchunk_651" "pull_chunk" (
        at inlet "#a558f53812f5dc3c19b2cbe0026a61f6a" "lsl::stream_inlet::pull_chunk()"
        ∷ At.pull_chunk_1
        ∷ At.pull_chunk_2
        ∷ [])
    ∷ many "pull_5fchunk_5fmultiplexed_652" "pull_chunk_multiplexed" (
        At.pull_chunk_multiplexed_7 ∷ At.pull_chunk_multiplexed_2 ∷ At.pull_chunk_multiplexed_3
        ∷ At.pull_chunk_multiplexed_4 ∷ At.pull_chunk_multiplexed_5 ∷ At.pull_chunk_multiplexed_8
        ∷ At.pull_chunk_multiplexed_6 ∷ At.pull_chunk_multiplexed_1 ∷ [])
    ∷ many "pull_5fchunk_5fnumeric_5fstructs_653" "pull_chunk_numeric_structs" (
        At.pull_chunk_numeric_structs_1
        ∷ at inlet "#a4a743ed5df78b05dcc038e73a1d4fb9b"
            "lsl::stream_inlet::pull_chunk_numeric_structs()"
        ∷ At.pull_chunk_numeric_structs_2
        ∷ [])
    ∷ one "pull_5fnumeric_5fraw_654" "pull_numeric_raw" inlet "#ae8f7beaaa82d192d844abdd1531f6b9a"
        "lsl::stream_inlet"
    ∷ one "pull_5fnumeric_5fstruct_655" "pull_numeric_struct" inlet
        "#a540c7ba2c23188916ffe311c26c2c081" "lsl::stream_inlet"
    ∷ many "pull_5fsample_656" "pull_sample" (
        At.pull_sample_1 ∷ At.pull_sample_3 ∷ At.pull_sample_4 ∷ At.pull_sample_5 ∷ At.pull_sample_6
        ∷ At.pull_sample_7 ∷ At.pull_sample_8 ∷ At.pull_sample_10 ∷ At.pull_sample_2
        ∷ At.pull_sample_15 ∷ At.pull_sample_14 ∷ At.pull_sample_12 ∷ At.pull_sample_9
        ∷ At.pull_sample_11 ∷ At.pull_sample_13 ∷ [])
    ∷ many "push_5fchunk_657" "push_chunk" (At.push_chunk_1 ∷ At.push_chunk_2 ∷ [])
    ∷ many "push_5fchunk_5fmultiplexed_658" "push_chunk_multiplexed" (
        At.push_chunk_multiplexed_5 ∷ At.push_chunk_multiplexed_2 ∷ At.push_chunk_multiplexed_3
        ∷ At.push_chunk_multiplexed_4 ∷ At.push_chunk_multiplexed_23 ∷ At.push_chunk_multiplexed_6
        ∷ At.push_chunk_multiplexed_24 ∷ At.push_chunk_multiplexed_16 ∷ At.push_chunk_multiplexed_25
        ∷ At.push_chunk_multiplexed_26 ∷ At.push_chunk_multiplexed_27 ∷ At.push_chunk_multiplexed_28
        ∷ At.push_chunk_multiplexed_8 ∷ At.push_chunk_multiplexed_9 ∷ At.push_chunk_multiplexed_11
        ∷ At.push_chunk_multiplexed_1 ∷ At.push_chunk_multiplexed_22 ∷ At.push_chunk_multiplexed_21
        ∷ At.push_chunk_multiplexed_20 ∷ At.push_chunk_multiplexed_19 ∷ At.push_chunk_multiplexed_18
        ∷ At.push_chunk_multiplexed_15 ∷ At.push_chunk_multiplexed_14 ∷ At.push_chunk_multiplexed_12
        ∷ At.push_chunk_multiplexed_7 ∷ At.push_chunk_multiplexed_10 ∷ At.push_chunk_multiplexed_13
        ∷ At.push_chunk_multiplexed_17 ∷ [])
    ∷ many "push_5fchunk_5fnumeric_5fstructs_659" "push_chunk_numeric_structs"
        (At.push_chunk_numeric_structs_2 ∷ At.push_chunk_numeric_structs_1 ∷ [])
    ∷ one "push_5fnumeric_5fraw_660" "push_numeric_raw" outlet "#a5c394e995a86d03cb71c3d180f855681"
        "lsl::stream_outlet"
    ∷ one "push_5fnumeric_5fstruct_661" "push_numeric_struct" outlet
        "#a18b2da34bdd1306ef926d97532c43f28" "lsl::stream_outlet"
    ∷ many "push_5fsample_662" "push_sample" (
        At.push_sample_7 ∷ At.push_sample_8 ∷ At.push_sample_4 ∷ At.push_sample_15
        ∷ At.push_sample_14 ∷ At.push_sample_13 ∷ At.push_sample_12 ∷ At.push_sample_2
        ∷ At.push_sample_11 ∷ At.push_sample_10 ∷ At.push_sample_3 ∷ At.push_sample_9
        ∷ At.push_sample_1 ∷ At.push_sample_5 ∷ At.push_sample_6 ∷ [])
    ∷ []

abbrev pub functions_d : List Entry
functions_d =
    one "reads_663" "readS" client "#a73fec58648938364cd65d690f50bd7ec" "Communication::Client"
    ∷ many "remove_5fchild_664" "remove_child" (
        at xml "#ad23da57ac3a6a7f3dd849be0a8b44a47"
          "lsl::xml_element::remove_child(const std::string &amp;name)"
        ∷ at xml "#a0c07b18ef39b7f6d683b9612e2a9104e"
            "lsl::xml_element::remove_child(const xml_element &amp;e)"
        ∷ [])
    ∷ many "resolve_5fstream_665" "resolve_stream" (At.resolve_stream_1 ∷ At.resolve_stream_2 ∷ [])
    ∷ lsl_item "resolve_5fstreams_666" "resolve_streams" "#a2935ff3db04cd640f69943ad14a61915"
    ∷ one "results_667" "results" resolver "#ad88c16d36f8a2dc64f4ae4536445e15a"
        "lsl::continuous_resolver"
    ∷ []

abbrev pub functions_e : List Entry
functions_e =
    one "sample_5fbytes_668" "sample_bytes" info "#ab68def3a9c81c289ba46a5b40c6b4084"
      "lsl::stream_info"
    ∷ one "samples_5favailable_669" "samples_available" inlet "#a8a4f5ff87d40a696ab4a5d74c03cd52b"
        "lsl::stream_inlet"
    ∷ one "server_670" "Server" server "#a3571bd6913a55394cde0ced0f404685d" "Communication::Server"
    ∷ one "session_5fid_671" "session_id" info "#a59036c0e83bcb07b711ec7e3e3b15fef"
        "lsl::stream_info"
    ∷ one "set_5fchild_5fvalue_672" "set_child_value" xml "#a6fe187e03b36cf8fd5f9d3892e99453f"
        "lsl::xml_element"
    ∷ one "set_5fname_673" "set_name" xml "#a8ddf2b35719b273dbb5700f16a2da4e5" "lsl::xml_element"
    ∷ one "set_5fpostprocessing_674" "set_postprocessing" inlet "#aaf40ba9c127a1828933613d0f2b0fc3d"
        "lsl::stream_inlet"
    ∷ one "set_5fvalue_675" "set_value" xml "#a3a3bbf2468ba3abd9309764faa61a7a4" "lsl::xml_element"
    ∷ one "smoothing_5fhalftime_676" "smoothing_halftime" inlet "#a2774c1dbcf3fc7b17505e8814921d17c"
        "lsl::stream_inlet"
    ∷ one "source_5fid_677" "source_id" info "#a1f20c68246a88047978d9b03e14a9d2b" "lsl::stream_info"
    ∷ many "stream_5finfo_678" "stream_info" (
        At.stream_info_1
        ∷ at info "#a7358ba03d8741b0b194cf9e747405702"
            "lsl::stream_info::stream_info(lsl_streaminfo handle)"
        ∷ at info "#a780a9289cc6f1d57215ed297aecfc78b" "lsl::stream_info::stream_info()"
        ∷ at info "#a82fd071574212a20ba4faffac5ce7803"
            "lsl::stream_info::stream_info(const stream_info &amp;rhs)"
        ∷ [])
    ∷ one "stream_5finlet_679" "stream_inlet" inlet "#a7c93b7d4fc053b2e3320841371b32919"
        "lsl::stream_inlet"
    ∷ one "stream_5foutlet_680" "stream_outlet" outlet "#ac88c568fdc7429d95c51cd7b58d902cc"
        "lsl::stream_outlet"
    ∷ []

abbrev pub functions_f : List Entry
functions_f =
    many "time_5fcorrection_681" "time_correction" (
      at inlet "#a845d95f5fc60fb9cd01fb73d3da75e94"
        "lsl::stream_inlet::time_correction(double timeout=FOREVER)"
      ∷ At.time_correction_1
      ∷ [])
    ∷ one "timeout_5ferror_682" "timeout_error" (codes "../d4/d01/classlsl_1_1timeout__error.html")
        "#afbc3b7c957fe3da4021aff3c30e6192f" "lsl::timeout_error"
    ∷ one "type_683" "type" info "#a2162830f6867e9513eba9385eb0cbb99" "lsl::stream_info"
    ∷ []

abbrev pub functions_10 : List Entry
functions_10 = one "uid_684" "uid" info "#ae6fa890ffd440f298dd02fe71eaf3b82" "lsl::stream_info" ∷ []

abbrev pub functions_11 : List Entry
functions_11 =
    one "value_685" "value" xml "#a1a5e666b35c5d7262e4ffbda86b57f73" "lsl::xml_element"
    ∷ one "version_686" "version" info "#aabd83f83d0abe8671e766e97f471dea9" "lsl::stream_info"
    ∷ []

abbrev pub functions_12 : List Entry
functions_12 =
    one "wait_5ffor_5fconsumers_687" "wait_for_consumers" outlet
      "#af188fa767e2a70c402486b761e9869fe" "lsl::stream_outlet"
    ∷ one "was_5fclock_5freset_688" "was_clock_reset" inlet "#ac3b8fa8912090ad6607b05cbb5848352"
        "lsl::stream_inlet"
    ∷ one "writes_689" "writeS" client "#a32bd631bcb3b0a3476b146a0cc49332d" "Communication::Client"
    ∷ []

abbrev pub functions_13 : List Entry
functions_13 =
    one "xml_5felement_690" "xml_element" xml "#a9a2c940a06714662f3cef5e9847e8cae"
      "lsl::xml_element"
    ∷ []

abbrev pub functions_14 : List Entry
functions_14 =
    one "_7eclient_691" "~Client" client "#a77c290beabfe76ea97a9027d66a04f7c"
      "Communication::Client"
    ∷ one "_7econtinuous_5fresolver_692" "~continuous_resolver" resolver
        "#a382bc439e5dbb1efcaa32def93ef01df" "lsl::continuous_resolver"
    ∷ one "_7ehttp_5fclient_693" "~HTTP_client" http "#a9cbcd819dda4fc2fd0c4295bce974dff"
        "Communication::HTTP_client"
    ∷ one "_7eserver_694" "~Server" server "#aef74c77dc02436ee1dc6d16310837b12"
        "Communication::Server"
    ∷ one "_7estream_5finfo_695" "~stream_info" info "#afe4bf312984faef204ee4480385a9bc1"
        "lsl::stream_info"
    ∷ one "_7estream_5finlet_696" "~stream_inlet" inlet "#ac3b37a1c2e376280c3144f422bb27d79"
        "lsl::stream_inlet"
    ∷ one "_7estream_5foutlet_697" "~stream_outlet" outlet "#aa8a10c88f57686d77bee002aff4c9d4e"
        "lsl::stream_outlet"
    ∷ []
