-- ===== src/Search/Data/AllMiddle.antt =====
-- The generated search data of docs/documentation/html/search/: all entries, in the middle.
use com_client.Base.{codes, List, [], ◌∷◌}
use com_client.Search.Results.{Entry}
use com_client.Search.Data.Build.{
  at, c_api, c_id, cli, client, cxx_id, esc_item, http, info, inlet, lsl, lsl_c, lsl_item, many,
  one, outlet, server, xml,
}
use com_client.Search.Data.Places as At

abbrev pub all_9 : List Entry
all_9 =
    many "info_97" "info" (
      at outlet "#af6fda8eb922b27ae3ed98651934243fe" "lsl::stream_outlet::info()"
      ∷ at inlet "#ae895a8d5c10dc4072e969686fc402b5b" "lsl::stream_inlet::info()"
      ∷ [])
    ∷ many "info_5farch_98" "info_arch" (
        at c_id "#a59647e99d304ed33b15cb284c27ed391" "info_arch():&#160;CMakeCCompilerId.c"
        ∷ at cxx_id "#a59647e99d304ed33b15cb284c27ed391" "info_arch():&#160;CMakeCXXCompilerId.cpp"
        ∷ [])
    ∷ many "info_5fcompiler_99" "info_compiler" (
        at c_id "#a4b0efeb7a5d59313986b3a0390f050f6" "info_compiler():&#160;CMakeCCompilerId.c"
        ∷ at cxx_id "#a4b0efeb7a5d59313986b3a0390f050f6"
            "info_compiler():&#160;CMakeCXXCompilerId.cpp"
        ∷ [])
    ∷ many "info_5flanguage_5fextensions_5fdefault_100" "info_language_extensions_default" (
        at c_id "#a0f46a8a39e09d9b803c4766904fd7e99"
          "info_language_extensions_default():&#160;CMakeCCompilerId.c"
        ∷ At.info_language_extensions_default_1
        ∷ [])
    ∷ many "info_5flanguage_5fstandard_5fdefault_101" "info_language_standard_default" (
        at c_id "#a4607cccf070750927b458473ca82c090"
          "info_language_standard_default():&#160;CMakeCCompilerId.c"
        ∷ At.info_language_standard_default_1
        ∷ [])
    ∷ many "info_5fplatform_102" "info_platform" (
        at c_id "#a2321403dee54ee23f0c2fa849c60f7d4" "info_platform():&#160;CMakeCCompilerId.c"
        ∷ at cxx_id "#a2321403dee54ee23f0c2fa849c60f7d4"
            "info_platform():&#160;CMakeCXXCompilerId.cpp"
        ∷ [])
    ∷ lsl_item "irregular_5frate_103" "IRREGULAR_RATE" "#ac7ebddefe1091ef2d9459b6f9d79f7ab"
    ∷ one "is_5fconnected_104" "is_connected" client "#a5afbc51613d3caf88641d04e81837467"
        "Communication::Client"
    ∷ one "is_5ftext_105" "is_text" xml "#a965cfff9a29ebe6d8274f5256ff0017c" "lsl::xml_element"
    ∷ esc_item "italic_106" "ITALIC"
        "#a93c187b0ecaecc64127a1e7d211562a1ad7e062b99a6ddd60a225ecc7d10756b1"
    ∷ []

abbrev pub all_a : List Entry
all_a =
    one "last_5fchild_107" "last_child" xml "#a12254f735a79a11b75718fe7c28186d0" "lsl::xml_element"
    ∷ c_api "liblsl_5fc_5fapi_108" "LIBLSL_C_API" "#aafd0ef1813e8be84a1420c4f1df64615"
    ∷ c_api "liblsl_5fcompile_5fheader_5fversion_109" "LIBLSL_COMPILE_HEADER_VERSION"
        "#a8575e959edab9eb4be131982dd260acd"
    ∷ lsl_item "library_5finfo_110" "library_info" "#a2a348cf022e9862396e4a10f60af42e9"
    ∷ lsl_item "library_5fversion_111" "library_version" "#a25fc4deea3c2fb0df0744e3a24c56844"
    ∷ lsl_item "local_5fclock_112" "local_clock" "#ae1766ae2ab66141cb927612e57a0c8c6"
    ∷ one "log_113" "LOG" (codes "../df/df2/str_a_n_s_iseq_8hpp.html")
        "#a3577749fb48d57a158b8ac1a0b3ab57e" "strANSIseq.hpp"
    ∷ one "log_114" "log" cli "#a1ac0d519304d97b3be094979fcfe6e44" "ESC::CLI"
    ∷ one "log_5ferror_115" "log_error" cli "#aee4e23e87ebd3cf3909f1760a5fda04b" "ESC::CLI"
    ∷ one "logln_116" "logln" cli "#abe1e5a3cc2cbd55c0704e9b13842e436" "ESC::CLI"
    ∷ many "lost_5ferror_117" "lost_error" (
        at (codes "../de/d94/classlsl_1_1lost__error.html") "#a997ff6ff1ecd4fd33cda631b975d386e"
          "lsl::lost_error::lost_error()"
        ∷ at (codes "../de/d94/classlsl_1_1lost__error.html") "" "lsl::lost_error"
        ∷ [])
    ∷ one "lsl_118" "lsl" lsl "" ""
    ∷ c_api "lsl_5fappend_5fchild_119" "lsl_append_child" "#a55229fcb1ff8d014f5459ee9526bc58a"
    ∷ c_api "lsl_5fappend_5fchild_5fvalue_120" "lsl_append_child_value"
        "#afb51a7b796ce958254c209e2dbca2453"
    ∷ c_api "lsl_5fappend_5fcopy_121" "lsl_append_copy" "#abc52ee7be11ed9788f5c82d157e0c1c1"
    ∷ c_api "lsl_5fargument_5ferror_122" "lsl_argument_error"
        "#a0be58f7d496eb06924ee1825219c6e50ad4626ba223d8c0b1535074752b0a0463"
    ∷ one "lsl_5fc_2eh_123" "lsl_c.h" lsl_c "" ""
    ∷ c_api "lsl_5fchannel_5fformat_5ft_124" "lsl_channel_format_t"
        "#ad346feb32bddd136c3f7797e45047754"
    ∷ c_api "lsl_5fchild_125" "lsl_child" "#a6e9680f770d8459406698ce71a76790c"
    ∷ c_api "lsl_5fchild_5fvalue_126" "lsl_child_value" "#af1a263d9c5182a79fdbbbcd7067d6a93"
    ∷ c_api "lsl_5fchild_5fvalue_5fn_127" "lsl_child_value_n" "#a6c36a5f5c61bb996f7dd1776283a8989"
    ∷ c_api "lsl_5fclose_5fstream_128" "lsl_close_stream" "#a36fa9d4e9c7c817547decef38cd9e07e"
    ∷ c_api "lsl_5fcontinuous_5fresolver_129" "lsl_continuous_resolver"
        "#a78b224e996f3a73b35f4c5d73d721366"
    ∷ c_api "lsl_5fcopy_5fstreaminfo_130" "lsl_copy_streaminfo" "#a4514f8ed63874d11e756a59d99b0326d"
    ∷ one "lsl_5fcpp_2eh_131" "lsl_cpp.h" (codes "../d1/d7c/lsl__cpp_8h.html") "" ""
    ∷ c_api "lsl_5fcreate_5fcontinuous_5fresolver_132" "lsl_create_continuous_resolver"
        "#a648855a9dfc987afa399260f149034b9"
    ∷ c_api "lsl_5fcreate_5fcontinuous_5fresolver_5fbypred_133"
        "lsl_create_continuous_resolver_bypred" "#a15e67770c35aee6028082d73cda42fee"
    ∷ c_api "lsl_5fcreate_5fcontinuous_5fresolver_5fbyprop_134"
        "lsl_create_continuous_resolver_byprop" "#a9e5585ae34b000bcad7a3ea5ab36a0e1"
    ∷ c_api "lsl_5fcreate_5finlet_135" "lsl_create_inlet" "#ae293c3b20d52135ebf3e3ee9cb25c364"
    ∷ c_api "lsl_5fcreate_5foutlet_136" "lsl_create_outlet" "#a22a7097dedf222014e6b878f3870b0fa"
    ∷ c_api "lsl_5fcreate_5fstreaminfo_137" "lsl_create_streaminfo"
        "#ad84630a74d54a33c972daa18feb78c9d"
    ∷ c_api "lsl_5fdeduced_5ftimestamp_138" "LSL_DEDUCED_TIMESTAMP"
        "#a5282bfa3df16b30eb308375a45062cfc"
    ∷ c_api "lsl_5fdestroy_5fcontinuous_5fresolver_139" "lsl_destroy_continuous_resolver"
        "#a53de14eb7cebcda0a32a545e4759ce3f"
    ∷ c_api "lsl_5fdestroy_5finlet_140" "lsl_destroy_inlet" "#a3d5fb80bb339d9590959327802d9f869"
    ∷ c_api "lsl_5fdestroy_5foutlet_141" "lsl_destroy_outlet" "#a0588f316a9e406e61f1507d8f756529f"
    ∷ c_api "lsl_5fdestroy_5fstreaminfo_142" "lsl_destroy_streaminfo"
        "#aaa63607a0162e2ab9e62dffc7874d716"
    ∷ c_api "lsl_5fdestroy_5fstring_143" "lsl_destroy_string" "#addeff0a60f446e7f43770eb1f5e30f84"
    ∷ c_api "lsl_5fempty_144" "lsl_empty" "#a2461080c7a369e91c1ac1ee24c217d4f"
    ∷ c_api "lsl_5ferror_5fcode_5ft_145" "lsl_error_code_t" "#a0be58f7d496eb06924ee1825219c6e50"
    ∷ c_api "lsl_5ffirst_5fchild_146" "lsl_first_child" "#acffa311b660404321a2e00b9cd4e495f"
    ∷ c_api "lsl_5fforever_147" "LSL_FOREVER" "#a0416859f36f40e91d12cd07aafb34eaa"
    ∷ c_api "lsl_5fget_5fchannel_5fbytes_148" "lsl_get_channel_bytes"
        "#ace8095ccb59a3857b0ff42511c72ff9a"
    ∷ c_api "lsl_5fget_5fchannel_5fcount_149" "lsl_get_channel_count"
        "#a5a736ebd5f1fbbd26dc5f66dcdd4edd1"
    ∷ c_api "lsl_5fget_5fchannel_5fformat_150" "lsl_get_channel_format"
        "#aa85ef584982dd371ca580e5103cef633"
    ∷ c_api "lsl_5fget_5fcreated_5fat_151" "lsl_get_created_at" "#aae3594f14dbcf50ea012d89403f5d57c"
    ∷ c_api "lsl_5fget_5fdesc_152" "lsl_get_desc" "#afef7ba2a6124b285f4568af0cf200420"
    ∷ c_api "lsl_5fget_5ffullinfo_153" "lsl_get_fullinfo" "#a5517cad6ae3f24aa079a0f2a67654226"
    ∷ c_api "lsl_5fget_5fhostname_154" "lsl_get_hostname" "#ab517961395988205f230c14c94cf9506"
    ∷ c_api "lsl_5fget_5finfo_155" "lsl_get_info" "#ac3d742ffc5b4f8a941835df6d2369547"
    ∷ c_api "lsl_5fget_5fname_156" "lsl_get_name" "#a86691767b61f0731a3e0668efd42c224"
    ∷ c_api "lsl_5fget_5fnominal_5fsrate_157" "lsl_get_nominal_srate"
        "#a52b66d7a75574d98e8709d1734fdd113"
    ∷ c_api "lsl_5fget_5fsample_5fbytes_158" "lsl_get_sample_bytes"
        "#ac0ce4de263cd07fc4e3b1808e784693f"
    ∷ c_api "lsl_5fget_5fsession_5fid_159" "lsl_get_session_id" "#a66b17ecf6f20b0d5d8f1ed78080515ba"
    ∷ c_api "lsl_5fget_5fsource_5fid_160" "lsl_get_source_id" "#a98b8df791e7e9d415098aafcb06b3d93"
    ∷ c_api "lsl_5fget_5ftype_161" "lsl_get_type" "#a8f6958b1292ad3b59157c290bfce552d"
    ∷ c_api "lsl_5fget_5fuid_162" "lsl_get_uid" "#a381b60fcb6379eacda3276218751290c"
    ∷ c_api "lsl_5fget_5fversion_163" "lsl_get_version" "#a4c8de5b8ac7e0c9400082a90b398a9e6"
    ∷ c_api "lsl_5fget_5fxml_164" "lsl_get_xml" "#a620092f125b45938623229fee3a366f9"
    ∷ c_api "lsl_5fhave_5fconsumers_165" "lsl_have_consumers" "#a7f9691f7d2fd38874cefb8e2d75084db"
    ∷ c_api "lsl_5finlet_166" "lsl_inlet" "#aff5474907fddf8b14300c79c9fda38e6"
    ∷ c_api "lsl_5finternal_5ferror_167" "lsl_internal_error"
        "#a0be58f7d496eb06924ee1825219c6e50a600b03c28953fa600d6c4e544a14fd99"
    ∷ c_api "lsl_5firregular_5frate_168" "LSL_IRREGULAR_RATE" "#ab46eddb74ca540d49497330b132dbff1"
    ∷ c_api "lsl_5fis_5ftext_169" "lsl_is_text" "#a885c3584f6f6068680bb2b61ebf387e5"
    ∷ c_api "lsl_5flast_5fchild_170" "lsl_last_child" "#ac15f1512c5195e6d671d49a17885e119"
    ∷ c_api "lsl_5flibrary_5finfo_171" "lsl_library_info" "#ab5f5986ebe4bbf87d97d299b0c1213ea"
    ∷ c_api "lsl_5flibrary_5fversion_172" "lsl_library_version" "#a43f78dccab0a194c987b357a870e9fae"
    ∷ c_api "lsl_5flocal_5fclock_173" "lsl_local_clock" "#ab5830dfa3831a239eabae33504633849"
    ∷ c_api "lsl_5flost_5ferror_174" "lsl_lost_error"
        "#a0be58f7d496eb06924ee1825219c6e50aa463db40788d297314191e0b41081feb"
    ∷ c_api "lsl_5fname_175" "lsl_name" "#a5af95d29948ec4e56242dcf24d8c974c"
    ∷ c_api "lsl_5fnext_5fsibling_176" "lsl_next_sibling" "#a40490a0b61d90e5ecbc3265098818851"
    ∷ c_api "lsl_5fnext_5fsibling_5fn_177" "lsl_next_sibling_n" "#aea479a05659e31e6248597ac04d189ea"
    ∷ c_api "lsl_5fno_5ferror_178" "lsl_no_error"
        "#a0be58f7d496eb06924ee1825219c6e50ae6bc06b8e33c37c36c1edae45b4778c1"
    ∷ c_api "lsl_5fno_5fpreference_179" "LSL_NO_PREFERENCE" "#ab94fcb1a355dbfc31f9dd3e0d699e6d6"
    ∷ c_api "lsl_5fopen_5fstream_180" "lsl_open_stream" "#a50d0fd7851d0c963c18b5793da161aa4"
    ∷ c_api "lsl_5foutlet_181" "lsl_outlet" "#aef1212b6b2cd3e3747fd6e433c30e395"
    ∷ c_api "lsl_5fparent_182" "lsl_parent" "#ad64f4e486c676d088eee07776dd12fac"
    ∷ c_api "lsl_5fprepend_5fchild_183" "lsl_prepend_child" "#a7c11ff3b7dc0d5f18d51f0104ac6e281"
    ∷ c_api "lsl_5fprepend_5fchild_5fvalue_184" "lsl_prepend_child_value"
        "#a2af93b773f826f19f1a9dd28d5db0fd9"
    ∷ c_api "lsl_5fprepend_5fcopy_185" "lsl_prepend_copy" "#a7ac39c444784b1956929937d983a27ff"
    ∷ c_api "lsl_5fprevious_5fsibling_186" "lsl_previous_sibling"
        "#a8331a69a3ea3978a1f04e80e6234a4c8"
    ∷ c_api "lsl_5fprevious_5fsibling_5fn_187" "lsl_previous_sibling_n"
        "#a9a6e5c2bcf2aa1555c30996d536e53ad"
    ∷ c_api "lsl_5fprocessing_5foptions_5ft_188" "lsl_processing_options_t"
        "#a9246faefd09869849b726df268042333"
    ∷ c_api "lsl_5fprotocol_5fversion_189" "lsl_protocol_version"
        "#a41474948cae5d78c552e3a98d5ecd5bc"
    ∷ c_api "lsl_5fpull_5fchunk_5fbuf_190" "lsl_pull_chunk_buf" "#abc993331c3f01c1d3ebb06e69821b009"
    ∷ c_api "lsl_5fpull_5fchunk_5fc_191" "lsl_pull_chunk_c" "#a0d7adeba028fb332270548faec0c61a1"
    ∷ c_api "lsl_5fpull_5fchunk_5fd_192" "lsl_pull_chunk_d" "#a8eaeec5c8e913bd5eb1e3419a4f56e31"
    ∷ c_api "lsl_5fpull_5fchunk_5ff_193" "lsl_pull_chunk_f" "#af605351d94ec7523858646b10dbfbbd2"
    ∷ c_api "lsl_5fpull_5fchunk_5fi_194" "lsl_pull_chunk_i" "#a819b6e50f2ba340686fb5d537a2548b8"
    ∷ c_api "lsl_5fpull_5fchunk_5fl_195" "lsl_pull_chunk_l" "#af1a8ca4c78fcf8571d811131ca479ba8"
    ∷ c_api "lsl_5fpull_5fchunk_5fs_196" "lsl_pull_chunk_s" "#ab0b1ae6dcb03612f18aa37e7aef2b2e0"
    ∷ c_api "lsl_5fpull_5fchunk_5fstr_197" "lsl_pull_chunk_str" "#a3715850e6e31ed2f6b0767aa42589478"
    ∷ c_api "lsl_5fpull_5fsample_5fbuf_198" "lsl_pull_sample_buf"
        "#a356ab88fcd5f5c52a95549b1c8c2d4ed"
    ∷ c_api "lsl_5fpull_5fsample_5fc_199" "lsl_pull_sample_c" "#a58d27f330e42ef40c7b2124a396d65de"
    ∷ c_api "lsl_5fpull_5fsample_5fd_200" "lsl_pull_sample_d" "#a4ccd428e2def15780552ab5550d2efaa"
    ∷ c_api "lsl_5fpull_5fsample_5ff_201" "lsl_pull_sample_f" "#af9e8d161e2cc70ffbf9443083ff5d33d"
    ∷ c_api "lsl_5fpull_5fsample_5fi_202" "lsl_pull_sample_i" "#a4404040430341459d37fdde84b590cba"
    ∷ c_api "lsl_5fpull_5fsample_5fl_203" "lsl_pull_sample_l" "#a7d4458adb9735400f666935f977e03f5"
    ∷ c_api "lsl_5fpull_5fsample_5fs_204" "lsl_pull_sample_s" "#a96bba791d4bb29acc1b0d9428a6b5edd"
    ∷ c_api "lsl_5fpull_5fsample_5fstr_205" "lsl_pull_sample_str"
        "#a9e191a0b0bac97c3f440c553241a623b"
    ∷ c_api "lsl_5fpull_5fsample_5fv_206" "lsl_pull_sample_v" "#a0574687b034da933fb4832caa3d04f92"
    ∷ c_api "lsl_5fpush_5fchunk_5fbuf_207" "lsl_push_chunk_buf" "#a51f3632a013dff65898f168529a70b07"
    ∷ c_api "lsl_5fpush_5fchunk_5fbuft_208" "lsl_push_chunk_buft"
        "#a2bb75ed52221f51f0bbb6bcbcd5049e4"
    ∷ c_api "lsl_5fpush_5fchunk_5fbuftn_209" "lsl_push_chunk_buftn"
        "#ad0b8e9c8e62e471dfbc098f4293d6ece"
    ∷ c_api "lsl_5fpush_5fchunk_5fbuftnp_210" "lsl_push_chunk_buftnp"
        "#a6a1f820184a78a8a1b09a87a98c8dba5"
    ∷ c_api "lsl_5fpush_5fchunk_5fbuftp_211" "lsl_push_chunk_buftp"
        "#a5c391ee5eed07954daea0791fe2335fb"
    ∷ c_api "lsl_5fpush_5fchunk_5fc_212" "lsl_push_chunk_c" "#a43928c1354e8539b4d9b40310912e9c1"
    ∷ c_api "lsl_5fpush_5fchunk_5fct_213" "lsl_push_chunk_ct" "#a864e000ed999639b3ba785cd6a076c52"
    ∷ c_api "lsl_5fpush_5fchunk_5fctn_214" "lsl_push_chunk_ctn" "#a504a4265f1cd530d141f92d1459f8fd2"
    ∷ c_api "lsl_5fpush_5fchunk_5fctnp_215" "lsl_push_chunk_ctnp"
        "#a3f6a22c686a346da77e03863b26c3fe9"
    ∷ c_api "lsl_5fpush_5fchunk_5fctp_216" "lsl_push_chunk_ctp" "#a8e049d82680d0fb6f803b9c604567516"
    ∷ c_api "lsl_5fpush_5fchunk_5fd_217" "lsl_push_chunk_d" "#a227534e78fd4bbdf473ad7796da49377"
    ∷ c_api "lsl_5fpush_5fchunk_5fdt_218" "lsl_push_chunk_dt" "#a5a201ecffb48729d0eb0e51dba539a23"
    ∷ c_api "lsl_5fpush_5fchunk_5fdtn_219" "lsl_push_chunk_dtn" "#a0d9396b1e4a12269d480762151e085f7"
    ∷ c_api "lsl_5fpush_5fchunk_5fdtnp_220" "lsl_push_chunk_dtnp"
        "#a23a41b710063ea717b411255af956c8c"
    ∷ c_api "lsl_5fpush_5fchunk_5fdtp_221" "lsl_push_chunk_dtp" "#a1e444e438b037d8a1363b1a74568976c"
    ∷ c_api "lsl_5fpush_5fchunk_5ff_222" "lsl_push_chunk_f" "#a191171b4aae05abeae2d4172fc500795"
    ∷ c_api "lsl_5fpush_5fchunk_5fft_223" "lsl_push_chunk_ft" "#a80f314d925564890ee64b1c2a699bdb0"
    ∷ c_api "lsl_5fpush_5fchunk_5fftn_224" "lsl_push_chunk_ftn" "#a4a39988b3987aa24d85f6f243c9cec9b"
    ∷ c_api "lsl_5fpush_5fchunk_5fftnp_225" "lsl_push_chunk_ftnp"
        "#ac81be759a83eb75c357bfb820e83cd12"
    ∷ c_api "lsl_5fpush_5fchunk_5fftp_226" "lsl_push_chunk_ftp" "#a91a947d9280a61e1e5e73d166a259385"
    ∷ c_api "lsl_5fpush_5fchunk_5fi_227" "lsl_push_chunk_i" "#ae0a4be2d1a0c02e8b065710d005e9c7a"
    ∷ c_api "lsl_5fpush_5fchunk_5fit_228" "lsl_push_chunk_it" "#a0ae72ee5f88fe45e1fdb04ccf8d38ef3"
    ∷ c_api "lsl_5fpush_5fchunk_5fitn_229" "lsl_push_chunk_itn" "#a4745191dd3eef55e228ad39275bf937c"
    ∷ c_api "lsl_5fpush_5fchunk_5fitnp_230" "lsl_push_chunk_itnp"
        "#a50600b670f8e2a5be27cb7b6eca885f9"
    ∷ c_api "lsl_5fpush_5fchunk_5fitp_231" "lsl_push_chunk_itp" "#a5f16f396ea43fafbad67f8cbc11cba15"
    ∷ c_api "lsl_5fpush_5fchunk_5fl_232" "lsl_push_chunk_l" "#af289f8a4f5efff22d10375a1bfc35f32"
    ∷ c_api "lsl_5fpush_5fchunk_5flt_233" "lsl_push_chunk_lt" "#aea5a6d89b758f61045830cb0f9d692b4"
    ∷ c_api "lsl_5fpush_5fchunk_5fltn_234" "lsl_push_chunk_ltn" "#ab647f7d988094c0f18d66619c4a93e68"
    ∷ c_api "lsl_5fpush_5fchunk_5fltnp_235" "lsl_push_chunk_ltnp"
        "#a005657d00b4c10bcf9dbb0d603dd7494"
    ∷ c_api "lsl_5fpush_5fchunk_5fltp_236" "lsl_push_chunk_ltp" "#a7991bcb18cd7dbe8722716e2c3fb4924"
    ∷ c_api "lsl_5fpush_5fchunk_5fs_237" "lsl_push_chunk_s" "#a3ce11253225a50b371cc1f33a348271f"
    ∷ c_api "lsl_5fpush_5fchunk_5fst_238" "lsl_push_chunk_st" "#a8b8ee567d1f8adf3816f0c58a7c311da"
    ∷ c_api "lsl_5fpush_5fchunk_5fstn_239" "lsl_push_chunk_stn" "#a7cc5ac6b271cc9b2afa180604faa91ef"
    ∷ c_api "lsl_5fpush_5fchunk_5fstnp_240" "lsl_push_chunk_stnp"
        "#a627538d2845775b858ad795745aacc3d"
    ∷ c_api "lsl_5fpush_5fchunk_5fstp_241" "lsl_push_chunk_stp" "#a8a64b224cd72b7226005e5dbe8c7c671"
    ∷ c_api "lsl_5fpush_5fchunk_5fstr_242" "lsl_push_chunk_str" "#adc2bfcb8e80b50c8ee271d85f290385c"
    ∷ c_api "lsl_5fpush_5fchunk_5fstrt_243" "lsl_push_chunk_strt"
        "#a75428ff735a620f5bf39ced8528b8172"
    ∷ c_api "lsl_5fpush_5fchunk_5fstrtn_244" "lsl_push_chunk_strtn"
        "#a744c9f9300c75ab285b6fb4c3eedb89d"
    ∷ c_api "lsl_5fpush_5fchunk_5fstrtnp_245" "lsl_push_chunk_strtnp"
        "#a5a39973a0ed113c792653f8782b29906"
    ∷ c_api "lsl_5fpush_5fchunk_5fstrtp_246" "lsl_push_chunk_strtp"
        "#a337c1cf22b439b511e8ee6238189f7d6"
    ∷ c_api "lsl_5fpush_5fsample_5fbuf_247" "lsl_push_sample_buf"
        "#a2e1505acff3a75a3e93a60ef4684456b"
    ∷ c_api "lsl_5fpush_5fsample_5fbuft_248" "lsl_push_sample_buft"
        "#a8b8ed17844fa3b269ac65b51c3cac7c5"
    ∷ c_api "lsl_5fpush_5fsample_5fbuftp_249" "lsl_push_sample_buftp"
        "#aa9716749d011b4f5c74e3eb4b7f86e6b"
    ∷ c_api "lsl_5fpush_5fsample_5fc_250" "lsl_push_sample_c" "#abac187f58d92db9130d18139d72064a9"
    ∷ c_api "lsl_5fpush_5fsample_5fct_251" "lsl_push_sample_ct" "#a3d8187c61f5dd8471e5c00610103cdee"
    ∷ c_api "lsl_5fpush_5fsample_5fctp_252" "lsl_push_sample_ctp"
        "#a79cca3f3f75ae677d973758b8cfd8295"
    ∷ c_api "lsl_5fpush_5fsample_5fd_253" "lsl_push_sample_d" "#ae44e19988a72b422344711d5017cb420"
    ∷ c_api "lsl_5fpush_5fsample_5fdt_254" "lsl_push_sample_dt" "#a224bb668fb637074adbcf301208c3052"
    ∷ c_api "lsl_5fpush_5fsample_5fdtp_255" "lsl_push_sample_dtp"
        "#af3604739246b9b9175b990eb74fbe183"
    ∷ c_api "lsl_5fpush_5fsample_5ff_256" "lsl_push_sample_f" "#aad62f3e27452d2944cd8cb443fc11741"
    ∷ c_api "lsl_5fpush_5fsample_5fft_257" "lsl_push_sample_ft" "#af0f78c4ea3b891919666047bf1bdbc90"
    ∷ c_api "lsl_5fpush_5fsample_5fftp_258" "lsl_push_sample_ftp"
        "#a03d1dce2aaa12d3787d0f501c50fe06f"
    ∷ c_api "lsl_5fpush_5fsample_5fi_259" "lsl_push_sample_i" "#aa08759dc9e3d361fbc26557fc7a42279"
    ∷ c_api "lsl_5fpush_5fsample_5fit_260" "lsl_push_sample_it" "#a2a69d88399fded37ac1f83a76255b464"
    ∷ c_api "lsl_5fpush_5fsample_5fitp_261" "lsl_push_sample_itp"
        "#a2b4dd3c7f41dd81766cdbfe7048fabd9"
    ∷ c_api "lsl_5fpush_5fsample_5fl_262" "lsl_push_sample_l" "#a1a0f09509cfc4e87346a15216fa852c6"
    ∷ c_api "lsl_5fpush_5fsample_5flt_263" "lsl_push_sample_lt" "#a6e502508ea597c9f9a4a129cddd4e799"
    ∷ c_api "lsl_5fpush_5fsample_5fltp_264" "lsl_push_sample_ltp"
        "#ab3acfb108aa4260818588e75d61307c2"
    ∷ c_api "lsl_5fpush_5fsample_5fs_265" "lsl_push_sample_s" "#abc5a012ac671893b58d38d81b4433520"
    ∷ c_api "lsl_5fpush_5fsample_5fst_266" "lsl_push_sample_st" "#a3b6c842b79ce6040d5fae9ee5b06a705"
    ∷ c_api "lsl_5fpush_5fsample_5fstp_267" "lsl_push_sample_stp"
        "#a9a8d74a7fef9cdf68bd3a1ecf76109fa"
    ∷ c_api "lsl_5fpush_5fsample_5fstr_268" "lsl_push_sample_str"
        "#a70a523aded3aaa76ba81aeaebb22e8df"
    ∷ c_api "lsl_5fpush_5fsample_5fstrt_269" "lsl_push_sample_strt"
        "#a281c387af4465c231abb4daed25431b3"
    ∷ c_api "lsl_5fpush_5fsample_5fstrtp_270" "lsl_push_sample_strtp"
        "#a72938aad4ca7af001b8a3d8d2d64fa2d"
    ∷ c_api "lsl_5fpush_5fsample_5fv_271" "lsl_push_sample_v" "#a9af4120da145ae6ebb904ad0b3bc1b43"
    ∷ c_api "lsl_5fpush_5fsample_5fvt_272" "lsl_push_sample_vt" "#a32e4ed2d5e4d064460f88d06fdc0b2d8"
    ∷ c_api "lsl_5fpush_5fsample_5fvtp_273" "lsl_push_sample_vtp"
        "#ac6eb5ec72140ba4ae26c80112ccaac52"
    ∷ c_api "lsl_5fremove_5fchild_274" "lsl_remove_child" "#af350135b29fa2aa538f8d3133b7a5ab7"
    ∷ c_api "lsl_5fremove_5fchild_5fn_275" "lsl_remove_child_n" "#a854a222cf8909b0b7ec901adbd5f6b13"
    ∷ c_api "lsl_5fresolve_5fall_276" "lsl_resolve_all" "#ac9b53eec106d81130b5aa2341ecf8bd2"
    ∷ c_api "lsl_5fresolve_5fbypred_277" "lsl_resolve_bypred" "#a0effb3c0c3ea96a144d3f13265d7d588"
    ∷ c_api "lsl_5fresolve_5fbyprop_278" "lsl_resolve_byprop" "#ac704c51be54e926f6dcc8dc7d04d8b8b"
    ∷ c_api "lsl_5fresolver_5fresults_279" "lsl_resolver_results"
        "#aa48e803c7206a2b9a9154486c8b59d3e"
    ∷ c_api "lsl_5fsamples_5favailable_280" "lsl_samples_available"
        "#ac2fa5d87f7c6c5343ab9a6f678229f62"
    ∷ c_api "lsl_5fset_5fchild_5fvalue_281" "lsl_set_child_value"
        "#ad8c1b9bd37107e1b19b0f7b6ea4c4bc5"
    ∷ c_api "lsl_5fset_5fname_282" "lsl_set_name" "#a339bd96520acc8d5c42fc3c5ab79fa45"
    ∷ c_api "lsl_5fset_5fpostprocessing_283" "lsl_set_postprocessing"
        "#a45543d906bb6b91b375e6c170da9d254"
    ∷ c_api "lsl_5fset_5fvalue_284" "lsl_set_value" "#aa856d09f05c334cb8472fefea485de1f"
    ∷ c_api "lsl_5fsmoothing_5fhalftime_285" "lsl_smoothing_halftime"
        "#a1cdbc26daae8f03a632bbc69ca7262c5"
    ∷ c_api "lsl_5fstream_5finfo_5fmatches_5fquery_286" "lsl_stream_info_matches_query"
        "#a8e0d0447b9598bfe0e46a6166de51cc3"
    ∷ c_api "lsl_5fstreaminfo_287" "lsl_streaminfo" "#a6fd635c662a9c80840b53bd7c202499c"
    ∷ c_api "lsl_5fstreaminfo_5ffrom_5fxml_288" "lsl_streaminfo_from_xml"
        "#a2d42a5d991505811d98ba04c6319f41b"
    ∷ c_api "lsl_5ftime_5fcorrection_289" "lsl_time_correction" "#a8cc9b06f96e96be28e417c5b21350e4f"
    ∷ c_api "lsl_5ftime_5fcorrection_5fex_290" "lsl_time_correction_ex"
        "#a55bca1a4bdd96a5e8bc967c3a2ff1dab"
    ∷ c_api "lsl_5ftimeout_5ferror_291" "lsl_timeout_error"
        "#a0be58f7d496eb06924ee1825219c6e50a41650b5604c0b7392b79d383a7f59a68"
    ∷ c_api "lsl_5fvalue_292" "lsl_value" "#a96ec833e4b9e6ee9c263bd903f2f7241"
    ∷ c_api "lsl_5fwait_5ffor_5fconsumers_293" "lsl_wait_for_consumers"
        "#a0be546ad8637f4a2fd5aee4d5bae2401"
    ∷ c_api "lsl_5fwas_5fclock_5freset_294" "lsl_was_clock_reset"
        "#ae54c0127325dd0bb977a481533e8ecb9"
    ∷ c_api "lsl_5fxml_5fptr_295" "lsl_xml_ptr" "#ab174601268a7f0a9b60223510ba7d3b8"
    ∷ []

abbrev pub all_b : List Entry
all_b =
    one "m_5fclient_296" "m_client" server "#a3f85e046ae47cdb26aa7d1497dcd64c3"
      "Communication::Server"
    ∷ one "m_5ffd_297" "m_fd" server "#a3acba24524ce792ff0e8adc5f519c79d" "Communication::Server"
    ∷ many "main_298" "main" (
        at (codes "../de/dfb/src_2main_8cpp.html") "#a3c04138a5bfe5d72780bb7e82a18e627"
          "main(int argc, char **argv):&#160;main.cpp"
        ∷ at (codes "../d0/d3f/lib_2str_a_n_s_iseq_2src_2main_8cpp.html")
            "#a3c04138a5bfe5d72780bb7e82a18e627" "main(int argc, char **argv):&#160;main.cpp"
        ∷ at cxx_id "#a0ddf1224851353fc92bfbff6f499fa97"
            "main(int argc, char *argv[]):&#160;CMakeCXXCompilerId.cpp"
        ∷ at c_id "#a0ddf1224851353fc92bfbff6f499fa97"
            "main(int argc, char *argv[]):&#160;CMakeCCompilerId.c"
        ∷ [])
    ∷ many "main_2ecpp_299" "main.cpp" (
        at (codes "../d0/d3f/lib_2str_a_n_s_iseq_2src_2main_8cpp.html") "" "(Global Namespace)"
        ∷ at (codes "../de/dfb/src_2main_8cpp.html") "" "(Global Namespace)"
        ∷ [])
    ∷ many "main_2ecpp_2eo_2ed_300" "main.cpp.o.d" (
        at
          (codes
            "../df/d3f/lib_2str_a_n_s_iseq_2_c_make_files_2str_a_n_s_iseq_8dir_2src_2main_8cpp_8o_8d.html")
          "" "(Global Namespace)"
        ∷ at (codes "../d3/df7/_c_make_files_2com__client_8dir_2src_2main_8cpp_8o_8d.html") ""
            "(Global Namespace)"
        ∷ [])
    ∷ one "matches_5fquery_301" "matches_query" info "#a6c3474322d467e8d8198c7a6e4c7ad76"
        "lsl::stream_info"
    ∷ one "mode_302" "Mode" client "#ad5719d96b9a023b9d6e6bfb3c917f6dd" "Communication::Client"
    ∷ esc_item "move_5fdown_303" "move_down" "#a0339f1bf272536a7645b373a503b4928"
    ∷ esc_item "move_5fleft_304" "move_left" "#a231a32f47e8c90921259a47ce621b1cc"
    ∷ esc_item "move_5fright_305" "move_right" "#ac00ec90c2ccac2f1bcb6219b6f081ad5"
    ∷ esc_item "move_5fto_306" "move_to" "#aabdbbf48acbc97aadc974b67b8f65d49"
    ∷ esc_item "move_5ftype_307" "move_type" "#a2dc320253a173af845d4317a62c45a6f"
    ∷ esc_item "move_5fup_308" "move_up" "#ab8b0eda8f8c0d37419c0435cad5230e0"
    ∷ []

abbrev pub all_c : List Entry
all_c =
    many "name_309" "name" (
      at info "#a0862e5c580d65ecf9ceb1fcc26f2ca34" "lsl::stream_info::name()"
      ∷ at xml "#a2e449e85b7e763b1d0db4bb19d2eb7c2" "lsl::xml_element::name() const"
      ∷ [])
    ∷ many "next_5fsibling_310" "next_sibling" (
        at xml "#a9637215f616b660789696e452b0e0591" "lsl::xml_element::next_sibling() const"
        ∷ At.next_sibling_1
        ∷ [])
    ∷ one "nominal_5fsrate_311" "nominal_srate" info "#a35b9b9b8947915f9f9518333342e2835"
        "lsl::stream_info"
    ∷ []

abbrev pub all_d : List Entry
all_d =
    many "open_5fconnection_312" "open_connection" (
      at client "#a66336ae23ea502a9395010407a952664" "Communication::Client::open_connection()"
      ∷ at http "#a67973a5bc8e92122bc5f98c95990bca7" "Communication::HTTP_client::open_connection()"
      ∷ [])
    ∷ one "open_5fstream_313" "open_stream" inlet "#ad84029ed0662d755b0544c7652348718"
        "lsl::stream_inlet"
    ∷ one "operator_3d_314" "operator=" info "#a8ce8011b9da9b90c8e11e5c1c477a0a2" "lsl::stream_info"
    ∷ []
