-- ===== src/Search/Data/AllBack.antt =====
-- The generated search data of docs/documentation/html/search/: all entries, to the end.
use com_client.Base.{codes, List, [], ◌∷◌}
use com_client.Search.Results.{Entry}
use com_client.Search.Data.Build.{
  at, c_api, c_id, cli, client, cxx_id, esc_item, http, info, inlet, lsl_item, many, one, outlet,
  resolver, server, xml,
}
use com_client.Search.Data.Places as At

abbrev pub all_e : List Entry
all_e =
    one "parent_315" "parent" xml "#ae3211be3c10164f366220b638a9dd200" "lsl::xml_element"
    ∷ many "platform_5fid_316" "PLATFORM_ID" (
        at c_id "#adbc5372f40838899018fadbc89bd588b" "PLATFORM_ID():&#160;CMakeCCompilerId.c"
        ∷ at cxx_id "#adbc5372f40838899018fadbc89bd588b"
            "PLATFORM_ID():&#160;CMakeCXXCompilerId.cpp"
        ∷ [])
    ∷ one "post_317" "post" http "#a241e78ccad7bcbc7597cb2dde7d7e402" "Communication::HTTP_client"
    ∷ lsl_item "post_5fall_318" "post_ALL"
        "#aaa1cffa7d29bb2756522bc2bb069e310a198f16659e71b850e4674ed31d10e914"
    ∷ lsl_item "post_5fclocksync_319" "post_clocksync"
        "#aaa1cffa7d29bb2756522bc2bb069e310accf7cbfa478e679b53255d46fd62f888"
    ∷ lsl_item "post_5fdejitter_320" "post_dejitter"
        "#aaa1cffa7d29bb2756522bc2bb069e310a83b67e37c1bbcfb4ee7479098386499f"
    ∷ lsl_item "post_5fmonotonize_321" "post_monotonize"
        "#aaa1cffa7d29bb2756522bc2bb069e310af7cdac323760b9cb6587733a24f5aecb"
    ∷ lsl_item "post_5fnone_322" "post_none"
        "#aaa1cffa7d29bb2756522bc2bb069e310ac01170c28c82b28d721da1971e16424b"
    ∷ lsl_item "post_5fthreadsafe_323" "post_threadsafe"
        "#aaa1cffa7d29bb2756522bc2bb069e310a8ebef2c4c98e1a9246e9927e6b0b87c9"
    ∷ one "prepend_5fchild_324" "prepend_child" xml "#abd881c6c5d0d381f9efff2fc25975e7e"
        "lsl::xml_element"
    ∷ one "prepend_5fchild_5fvalue_325" "prepend_child_value" xml
        "#a3e7fde09def517574df99c71a0a05d23" "lsl::xml_element"
    ∷ one "prepend_5fcopy_326" "prepend_copy" xml "#a1bea6df95134f909611b1c40218828d7"
        "lsl::xml_element"
    ∷ many "previous_5fsibling_327" "previous_sibling" (
        at xml "#a78c2e0b3d7bda2b5a2d478e3c0cdc87a" "lsl::xml_element::previous_sibling() const"
        ∷ At.previous_sibling_1
        ∷ [])
    ∷ c_api "proc_5fall_328" "proc_ALL"
        "#a9246faefd09869849b726df268042333ae75b6de5e0af2a7c1377c11fafefbb02"
    ∷ c_api "proc_5fclocksync_329" "proc_clocksync"
        "#a9246faefd09869849b726df268042333ae6bdb3d07024fa143a22417546496828"
    ∷ c_api "proc_5fdejitter_330" "proc_dejitter"
        "#a9246faefd09869849b726df268042333a21f46ef0bbdba358fabe116ae1559c87"
    ∷ c_api "proc_5fmonotonize_331" "proc_monotonize"
        "#a9246faefd09869849b726df268042333ad36e527d8a75f2ef42d48311bbd605c7"
    ∷ c_api "proc_5fnone_332" "proc_none"
        "#a9246faefd09869849b726df268042333a10e08b294e3583a6e1892da753137445"
    ∷ c_api "proc_5fthreadsafe_333" "proc_threadsafe"
        "#a9246faefd09869849b726df268042333af3444351bc66b5a0a8a758774de84438"
    ∷ lsl_item "processing_5foptions_5ft_334" "processing_options_t"
        "#aaa1cffa7d29bb2756522bc2bb069e310"
    ∷ lsl_item "protocol_5fversion_335" "protocol_version" "#a59009e83a8f0e33643474b373ad2f7f2"
    ∷ many "pull_5fchunk_336" "pull_chunk" (
        At.pull_chunk_1
        ∷ At.pull_chunk_2
        ∷ at inlet "#a558f53812f5dc3c19b2cbe0026a61f6a" "lsl::stream_inlet::pull_chunk()"
        ∷ [])
    ∷ many "pull_5fchunk_5fmultiplexed_337" "pull_chunk_multiplexed" (
        At.pull_chunk_multiplexed_1 ∷ At.pull_chunk_multiplexed_2 ∷ At.pull_chunk_multiplexed_3
        ∷ At.pull_chunk_multiplexed_4 ∷ At.pull_chunk_multiplexed_5 ∷ At.pull_chunk_multiplexed_6
        ∷ At.pull_chunk_multiplexed_7 ∷ At.pull_chunk_multiplexed_8 ∷ [])
    ∷ many "pull_5fchunk_5fnumeric_5fstructs_338" "pull_chunk_numeric_structs" (
        At.pull_chunk_numeric_structs_1
        ∷ At.pull_chunk_numeric_structs_2
        ∷ at inlet "#a4a743ed5df78b05dcc038e73a1d4fb9b"
            "lsl::stream_inlet::pull_chunk_numeric_structs()"
        ∷ [])
    ∷ one "pull_5fnumeric_5fraw_339" "pull_numeric_raw" inlet "#ae8f7beaaa82d192d844abdd1531f6b9a"
        "lsl::stream_inlet"
    ∷ one "pull_5fnumeric_5fstruct_340" "pull_numeric_struct" inlet
        "#a540c7ba2c23188916ffe311c26c2c081" "lsl::stream_inlet"
    ∷ many "pull_5fsample_341" "pull_sample" (
        At.pull_sample_1 ∷ At.pull_sample_2 ∷ At.pull_sample_3 ∷ At.pull_sample_4 ∷ At.pull_sample_5
        ∷ At.pull_sample_6 ∷ At.pull_sample_7 ∷ At.pull_sample_8 ∷ At.pull_sample_9
        ∷ At.pull_sample_10 ∷ At.pull_sample_11 ∷ At.pull_sample_12 ∷ At.pull_sample_13
        ∷ At.pull_sample_14 ∷ At.pull_sample_15 ∷ [])
    ∷ many "push_5fchunk_342" "push_chunk" (At.push_chunk_1 ∷ At.push_chunk_2 ∷ [])
    ∷ many "push_5fchunk_5fmultiplexed_343" "push_chunk_multiplexed" (
        At.push_chunk_multiplexed_1 ∷ At.push_chunk_multiplexed_2 ∷ At.push_chunk_multiplexed_3
        ∷ At.push_chunk_multiplexed_4 ∷ At.push_chunk_multiplexed_5 ∷ At.push_chunk_multiplexed_6
        ∷ At.push_chunk_multiplexed_7 ∷ At.push_chunk_multiplexed_8 ∷ At.push_chunk_multiplexed_9
        ∷ At.push_chunk_multiplexed_10 ∷ At.push_chunk_multiplexed_11 ∷ At.push_chunk_multiplexed_12
        ∷ At.push_chunk_multiplexed_13 ∷ At.push_chunk_multiplexed_14 ∷ At.push_chunk_multiplexed_15
        ∷ At.push_chunk_multiplexed_16 ∷ At.push_chunk_multiplexed_17 ∷ At.push_chunk_multiplexed_18
        ∷ At.push_chunk_multiplexed_19 ∷ At.push_chunk_multiplexed_20 ∷ At.push_chunk_multiplexed_21
        ∷ At.push_chunk_multiplexed_22 ∷ At.push_chunk_multiplexed_23 ∷ At.push_chunk_multiplexed_24
        ∷ At.push_chunk_multiplexed_25 ∷ At.push_chunk_multiplexed_26 ∷ At.push_chunk_multiplexed_27
        ∷ At.push_chunk_multiplexed_28 ∷ [])
    ∷ many "push_5fchunk_5fnumeric_5fstructs_344" "push_chunk_numeric_structs"
        (At.push_chunk_numeric_structs_1 ∷ At.push_chunk_numeric_structs_2 ∷ [])
    ∷ one "push_5fnumeric_5fraw_345" "push_numeric_raw" outlet "#a5c394e995a86d03cb71c3d180f855681"
        "lsl::stream_outlet"
    ∷ one "push_5fnumeric_5fstruct_346" "push_numeric_struct" outlet
        "#a18b2da34bdd1306ef926d97532c43f28" "lsl::stream_outlet"
    ∷ many "push_5fsample_347" "push_sample" (
        At.push_sample_1 ∷ At.push_sample_2 ∷ At.push_sample_3 ∷ At.push_sample_4 ∷ At.push_sample_5
        ∷ At.push_sample_6 ∷ At.push_sample_7 ∷ At.push_sample_8 ∷ At.push_sample_9
        ∷ At.push_sample_10 ∷ At.push_sample_11 ∷ At.push_sample_12 ∷ At.push_sample_13
        ∷ At.push_sample_14 ∷ At.push_sample_15 ∷ [])
    ∷ []

abbrev pub all_f : List Entry
all_f =
    many "readme_2emd_348" "README.md" (
      at (codes "../d8/d5d/lib_2str_a_n_s_iseq_2_r_e_a_d_m_e_8md.html") "" "(Global Namespace)"
      ∷ at (codes "../d9/dd6/_r_e_a_d_m_e_8md.html") "" "(Global Namespace)"
      ∷ at (codes "../d5/df2/tool__lib_2built__lsl_2_r_e_a_d_m_e_8md.html") "" "(Global Namespace)"
      ∷ [])
    ∷ one "reads_349" "readS" client "#a73fec58648938364cd65d690f50bd7ec" "Communication::Client"
    ∷ many "remove_5fchild_350" "remove_child" (
        at xml "#ad23da57ac3a6a7f3dd849be0a8b44a47"
          "lsl::xml_element::remove_child(const std::string &amp;name)"
        ∷ at xml "#a0c07b18ef39b7f6d683b9612e2a9104e"
            "lsl::xml_element::remove_child(const xml_element &amp;e)"
        ∷ [])
    ∷ many "resolve_5fstream_351" "resolve_stream" (At.resolve_stream_1 ∷ At.resolve_stream_2 ∷ [])
    ∷ lsl_item "resolve_5fstreams_352" "resolve_streams" "#a2935ff3db04cd640f69943ad14a61915"
    ∷ one "results_353" "results" resolver "#ad88c16d36f8a2dc64f4ae4536445e15a"
        "lsl::continuous_resolver"
    ∷ esc_item "reverse_354" "REVERSE"
        "#a93c187b0ecaecc64127a1e7d211562a1a991c4d7703b3a4062d71ac80b047d0f6"
    ∷ []

abbrev pub all_10 : List Entry
all_10 =
    one "s_5fverbose_5fmax_355" "s_verbose_max" cli "#a9100047dfeea902233c4e50c6bd0b63d" "ESC::CLI"
    ∷ one "sample_5fbytes_356" "sample_bytes" info "#ab68def3a9c81c289ba46a5b40c6b4084"
        "lsl::stream_info"
    ∷ one "samples_5favailable_357" "samples_available" inlet "#a8a4f5ff87d40a696ab4a5d74c03cd52b"
        "lsl::stream_inlet"
    ∷ one "serial_358" "SERIAL" client
        "#ad5719d96b9a023b9d6e6bfb3c917f6ddae1bf4306016574e334b5aec78b2efaf2"
        "Communication::Client"
    ∷ many "server_359" "Server" (
        at server "" "Communication::Server"
        ∷ at server "#a3571bd6913a55394cde0ced0f404685d" "Communication::Server::Server()"
        ∷ [])
    ∷ one "session_5fid_360" "session_id" info "#a59036c0e83bcb07b711ec7e3e3b15fef"
        "lsl::stream_info"
    ∷ one "set_5fchild_5fvalue_361" "set_child_value" xml "#a6fe187e03b36cf8fd5f9d3892e99453f"
        "lsl::xml_element"
    ∷ one "set_5fname_362" "set_name" xml "#a8ddf2b35719b273dbb5700f16a2da4e5" "lsl::xml_element"
    ∷ one "set_5fpostprocessing_363" "set_postprocessing" inlet "#aaf40ba9c127a1828933613d0f2b0fc3d"
        "lsl::stream_inlet"
    ∷ one "set_5fvalue_364" "set_value" xml "#a3a3bbf2468ba3abd9309764faa61a7a4" "lsl::xml_element"
    ∷ one "smoothing_5fhalftime_365" "smoothing_halftime" inlet "#a2774c1dbcf3fc7b17505e8814921d17c"
        "lsl::stream_inlet"
    ∷ one "source_5fid_366" "source_id" info "#a1f20c68246a88047978d9b03e14a9d2b" "lsl::stream_info"
    ∷ one "stransiseq_367" "strANSIseq"
        (codes
          "../d8/de6/md__home_aightech_dev_kistler__d_a_q_lib_com_client_lib_str_a_n_s_iseq__r_e_a_d_m_e.html")
        "" ""
    ∷ one "stransiseq_2ecpp_368" "strANSIseq.cpp" (codes "../dd/d40/str_a_n_s_iseq_8cpp.html") "" ""
    ∷ one "stransiseq_2ecpp_2eo_2ed_369" "strANSIseq.cpp.o.d"
        (codes "../db/df0/str_a_n_s_iseq_8cpp_8o_8d.html") "" ""
    ∷ one "stransiseq_2ehpp_370" "strANSIseq.hpp" (codes "../df/df2/str_a_n_s_iseq_8hpp.html") "" ""
    ∷ many "stream_5finfo_371" "stream_info" (
        at info "" "lsl::stream_info"
        ∷ At.stream_info_1
        ∷ at info "#a7358ba03d8741b0b194cf9e747405702"
            "lsl::stream_info::stream_info(lsl_streaminfo handle)"
        ∷ at info "#a780a9289cc6f1d57215ed297aecfc78b" "lsl::stream_info::stream_info()"
        ∷ at info "#a82fd071574212a20ba4faffac5ce7803"
            "lsl::stream_info::stream_info(const stream_info &amp;rhs)"
        ∷ [])
    ∷ many "stream_5finlet_372" "stream_inlet" (
        at inlet "" "lsl::stream_inlet"
        ∷ at inlet "#a7c93b7d4fc053b2e3320841371b32919" "lsl::stream_inlet::stream_inlet()"
        ∷ [])
    ∷ many "stream_5foutlet_373" "stream_outlet" (
        at outlet "" "lsl::stream_outlet"
        ∷ at outlet "#ac88c568fdc7429d95c51cd7b58d902cc" "lsl::stream_outlet::stream_outlet()"
        ∷ [])
    ∷ esc_item "strike_374" "STRIKE"
        "#a93c187b0ecaecc64127a1e7d211562a1a712e5fd9a5e6d3b6a565a22b7b6590b2"
    ∷ many "stringify_375" "STRINGIFY" (
        at c_id "#a43e1cad902b6477bec893cb6430bd6c8" "STRINGIFY():&#160;CMakeCCompilerId.c"
        ∷ at cxx_id "#a43e1cad902b6477bec893cb6430bd6c8" "STRINGIFY():&#160;CMakeCXXCompilerId.cpp"
        ∷ [])
    ∷ many "stringify_5fhelper_376" "STRINGIFY_HELPER" (
        at c_id "#a2ae9b72bb13abaabfcf2ee0ba7d3fa1d" "STRINGIFY_HELPER():&#160;CMakeCCompilerId.c"
        ∷ at cxx_id "#a2ae9b72bb13abaabfcf2ee0ba7d3fa1d"
            "STRINGIFY_HELPER():&#160;CMakeCXXCompilerId.cpp"
        ∷ [])
    ∷ []

abbrev pub all_11 : List Entry
all_11 =
    one "tcp_377" "TCP" client "#ad5719d96b9a023b9d6e6bfb3c917f6dda9729ef4069d34c1034ca97789e50b03f"
      "Communication::Client"
    ∷ many "time_5fcorrection_378" "time_correction" (
        at inlet "#a845d95f5fc60fb9cd01fb73d3da75e94"
          "lsl::stream_inlet::time_correction(double timeout=FOREVER)"
        ∷ At.time_correction_1
        ∷ [])
    ∷ many "timeout_5ferror_379" "timeout_error" (
        at (codes "../d4/d01/classlsl_1_1timeout__error.html") "" "lsl::timeout_error"
        ∷ at (codes "../d4/d01/classlsl_1_1timeout__error.html")
            "#afbc3b7c957fe3da4021aff3c30e6192f" "lsl::timeout_error::timeout_error()"
        ∷ [])
    ∷ one "type_380" "type" info "#a2162830f6867e9513eba9385eb0cbb99" "lsl::stream_info"
    ∷ []

abbrev pub all_12 : List Entry
all_12 =
    one "udp_381" "UDP" client "#ad5719d96b9a023b9d6e6bfb3c917f6dda1b32b1dce6fdf665a44847863b977720"
      "Communication::Client"
    ∷ one "uid_382" "uid" info "#ae6fa890ffd440f298dd02fe71eaf3b82" "lsl::stream_info"
    ∷ esc_item "underline_383" "UNDERLINE"
        "#a93c187b0ecaecc64127a1e7d211562a1a1ea0683248f9953ca0713e5797ce17d1"
    ∷ []

abbrev pub all_13 : List Entry
all_13 =
    one "value_384" "value" xml "#a1a5e666b35c5d7262e4ffbda86b57f73" "lsl::xml_element"
    ∷ one "version_385" "version" info "#aabd83f83d0abe8671e766e97f471dea9" "lsl::stream_info"
    ∷ []

abbrev pub all_14 : List Entry
all_14 =
    one "wait_5ffor_5fconsumers_386" "wait_for_consumers" outlet
      "#af188fa767e2a70c402486b761e9869fe" "lsl::stream_outlet"
    ∷ one "was_5fclock_5freset_387" "was_clock_reset" inlet "#ac3b8fa8912090ad6607b05cbb5848352"
        "lsl::stream_inlet"
    ∷ one "writes_388" "writeS" client "#a32bd631bcb3b0a3476b146a0cc49332d" "Communication::Client"
    ∷ []

abbrev pub all_15 : List Entry
all_15 =
    many "xml_5felement_389" "xml_element" (
      at xml "" "lsl::xml_element"
      ∷ at xml "#a9a2c940a06714662f3cef5e9847e8cae" "lsl::xml_element::xml_element()"
      ∷ [])
    ∷ []

abbrev pub all_16 : List Entry
all_16 =
    one "_7eclient_390" "~Client" client "#a77c290beabfe76ea97a9027d66a04f7c"
      "Communication::Client"
    ∷ one "_7econtinuous_5fresolver_391" "~continuous_resolver" resolver
        "#a382bc439e5dbb1efcaa32def93ef01df" "lsl::continuous_resolver"
    ∷ one "_7ehttp_5fclient_392" "~HTTP_client" http "#a9cbcd819dda4fc2fd0c4295bce974dff"
        "Communication::HTTP_client"
    ∷ one "_7eserver_393" "~Server" server "#aef74c77dc02436ee1dc6d16310837b12"
        "Communication::Server"
    ∷ one "_7estream_5finfo_394" "~stream_info" info "#afe4bf312984faef204ee4480385a9bc1"
        "lsl::stream_info"
    ∷ one "_7estream_5finlet_395" "~stream_inlet" inlet "#ac3b37a1c2e376280c3144f422bb27d79"
        "lsl::stream_inlet"
    ∷ one "_7estream_5foutlet_396" "~stream_outlet" outlet "#aa8a10c88f57686d77bee002aff4c9d4e"
        "lsl::stream_outlet"
    ∷ []
