-- ===== src/Search/Data/Values.antt =====
-- The generated search data of docs/documentation/html/search/: variables, types, enumerations, macros and pages.
use com_client.Base.{codes, List, [], ◌∷◌}
use com_client.Search.Results.{Entry}
use com_client.Search.Data.Build.{
  at, c_api, c_id, cli, client, cxx_id, esc_item, header, lsl_item, many, one, server,
}
use com_client.Search.Data.Places as At

abbrev pub variables_0 : List Entry
variables_0 =
    lsl_item "deduced_5ftimestamp_698" "DEDUCED_TIMESTAMP" "#a57df17d8a2563a18b8b759a0cec696cc" ∷ []

abbrev pub variables_1 : List Entry
variables_1 = lsl_item "forever_699" "FOREVER" "#a74cfbc9077aca21295117217249721ed" ∷ []

abbrev pub variables_2 : List Entry
variables_2 =
    many "info_5farch_700" "info_arch" (
      at c_id "#a59647e99d304ed33b15cb284c27ed391" "info_arch():&#160;CMakeCCompilerId.c"
      ∷ at cxx_id "#a59647e99d304ed33b15cb284c27ed391" "info_arch():&#160;CMakeCXXCompilerId.cpp"
      ∷ [])
    ∷ many "info_5fcompiler_701" "info_compiler" (
        at c_id "#a4b0efeb7a5d59313986b3a0390f050f6" "info_compiler():&#160;CMakeCCompilerId.c"
        ∷ at cxx_id "#a4b0efeb7a5d59313986b3a0390f050f6"
            "info_compiler():&#160;CMakeCXXCompilerId.cpp"
        ∷ [])
    ∷ many "info_5flanguage_5fextensions_5fdefault_702" "info_language_extensions_default" (
        at c_id "#a0f46a8a39e09d9b803c4766904fd7e99"
          "info_language_extensions_default():&#160;CMakeCCompilerId.c"
        ∷ At.info_language_extensions_default_1
        ∷ [])
    ∷ many "info_5flanguage_5fstandard_5fdefault_703" "info_language_standard_default" (
        at c_id "#a4607cccf070750927b458473ca82c090"
          "info_language_standard_default():&#160;CMakeCCompilerId.c"
        ∷ At.info_language_standard_default_1
        ∷ [])
    ∷ many "info_5fplatform_704" "info_platform" (
        at c_id "#a2321403dee54ee23f0c2fa849c60f7d4" "info_platform():&#160;CMakeCCompilerId.c"
        ∷ at cxx_id "#a2321403dee54ee23f0c2fa849c60f7d4"
            "info_platform():&#160;CMakeCXXCompilerId.cpp"
        ∷ [])
    ∷ lsl_item "irregular_5frate_705" "IRREGULAR_RATE" "#ac7ebddefe1091ef2d9459b6f9d79f7ab"
    ∷ []

abbrev pub variables_3 : List Entry
variables_3 =
    one "m_5fclient_706" "m_client" server "#a3f85e046ae47cdb26aa7d1497dcd64c3"
      "Communication::Server"
    ∷ one "m_5ffd_707" "m_fd" server "#a3acba24524ce792ff0e8adc5f519c79d" "Communication::Server"
    ∷ []

abbrev pub variables_4 : List Entry
variables_4 =
    one "s_5fverbose_5fmax_708" "s_verbose_max" cli "#a9100047dfeea902233c4e50c6bd0b63d" "ESC::CLI"
    ∷ []

abbrev pub typedefs_0 : List Entry
typedefs_0 =
    c_api "lsl_5fcontinuous_5fresolver_709" "lsl_continuous_resolver"
      "#a78b224e996f3a73b35f4c5d73d721366"
    ∷ c_api "lsl_5finlet_710" "lsl_inlet" "#aff5474907fddf8b14300c79c9fda38e6"
    ∷ c_api "lsl_5foutlet_711" "lsl_outlet" "#aef1212b6b2cd3e3747fd6e433c30e395"
    ∷ c_api "lsl_5fstreaminfo_712" "lsl_streaminfo" "#a6fd635c662a9c80840b53bd7c202499c"
    ∷ c_api "lsl_5fxml_5fptr_713" "lsl_xml_ptr" "#ab174601268a7f0a9b60223510ba7d3b8"
    ∷ []

abbrev pub enums_0 : List Entry
enums_0 =
    lsl_item "channel_5fformat_5ft_714" "channel_format_t" "#a28d50dae6fd82eea8893ce3d63ccd46c" ∷ []

abbrev pub enums_1 : List Entry
enums_1 = esc_item "format_715" "FORMAT" "#a93c187b0ecaecc64127a1e7d211562a1" ∷ []

abbrev pub enums_2 : List Entry
enums_2 =
    c_api "lsl_5fchannel_5fformat_5ft_716" "lsl_channel_format_t"
      "#ad346feb32bddd136c3f7797e45047754"
    ∷ c_api "lsl_5ferror_5fcode_5ft_717" "lsl_error_code_t" "#a0be58f7d496eb06924ee1825219c6e50"
    ∷ c_api "lsl_5fprocessing_5foptions_5ft_718" "lsl_processing_options_t"
        "#a9246faefd09869849b726df268042333"
    ∷ []

abbrev pub enums_3 : List Entry
enums_3 =
    one "mode_719" "Mode" client "#ad5719d96b9a023b9d6e6bfb3c917f6dd" "Communication::Client" ∷ []

abbrev pub enums_4 : List Entry
enums_4 =
    lsl_item "processing_5foptions_5ft_720" "processing_options_t"
      "#aaa1cffa7d29bb2756522bc2bb069e310"
    ∷ []

abbrev pub enumvalues_0 : List Entry
enumvalues_0 =
    esc_item "bg_5fblack_721" "BG_BLACK"
      "#a93c187b0ecaecc64127a1e7d211562a1a2d6d9e4c4d26f775a2d2e0f5d4c2fee5"
    ∷ esc_item "bg_5fblue_722" "BG_BLUE"
        "#a93c187b0ecaecc64127a1e7d211562a1a560f8ec0e3a165bffd234986d419d93e"
    ∷ esc_item "bg_5fcyan_723" "BG_CYAN"
        "#a93c187b0ecaecc64127a1e7d211562a1a5c996890ffc321f6f95d51357fa2e00a"
    ∷ esc_item "bg_5fdefault_724" "BG_DEFAULT"
        "#a93c187b0ecaecc64127a1e7d211562a1a1b9e16c203595a107bc8ba10051e08d1"
    ∷ esc_item "bg_5fgreen_725" "BG_GREEN"
        "#a93c187b0ecaecc64127a1e7d211562a1adb93cd7891a72f8d7878e8ea39700b51"
    ∷ esc_item "bg_5fmagenta_726" "BG_MAGENTA"
        "#a93c187b0ecaecc64127a1e7d211562a1ac524cfac8f3b50f5d6ac8a2ce7ac0939"
    ∷ esc_item "bg_5fred_727" "BG_RED"
        "#a93c187b0ecaecc64127a1e7d211562a1a9ca7916a80da428a5e295b0356e5ba91"
    ∷ esc_item "bg_5fwhite_728" "BG_WHITE"
        "#a93c187b0ecaecc64127a1e7d211562a1ae86ea0aceff2ecc297273593ef04d88a"
    ∷ esc_item "bg_5fyellow_729" "BG_YELLOW"
        "#a93c187b0ecaecc64127a1e7d211562a1a3b8d384d180428029a6712830c9b01b7"
    ∷ esc_item "blink_5ffast_730" "BLINK_FAST"
        "#a93c187b0ecaecc64127a1e7d211562a1a0af3dbb99fb41d75e60df73e7bab1fdd"
    ∷ esc_item "blink_5fslow_731" "BLINK_SLOW"
        "#a93c187b0ecaecc64127a1e7d211562a1a5bfaa69787e265bc37dca5b2b61c64a9"
    ∷ esc_item "bold_732" "BOLD"
        "#a93c187b0ecaecc64127a1e7d211562a1a0949b3693d2401dfa4651b442a9c9551"
    ∷ []

abbrev pub enumvalues_1 : List Entry
enumvalues_1 =
    lsl_item "cf_5fdouble64_733" "cf_double64"
      "#a28d50dae6fd82eea8893ce3d63ccd46cab11213c3d307faf6ef734633ac732eb7"
    ∷ lsl_item "cf_5ffloat32_734" "cf_float32"
        "#a28d50dae6fd82eea8893ce3d63ccd46ca46efa3307b337f7de592753642584616"
    ∷ lsl_item "cf_5fint16_735" "cf_int16"
        "#a28d50dae6fd82eea8893ce3d63ccd46ca5c625662462c8a30454f6f7f0520e79c"
    ∷ lsl_item "cf_5fint32_736" "cf_int32"
        "#a28d50dae6fd82eea8893ce3d63ccd46ca526ce3ccb97e3bb75d913c60ad56c26d"
    ∷ lsl_item "cf_5fint64_737" "cf_int64"
        "#a28d50dae6fd82eea8893ce3d63ccd46ca6795e1df0db0b05744fd1fe9623567a0"
    ∷ lsl_item "cf_5fint8_738" "cf_int8"
        "#a28d50dae6fd82eea8893ce3d63ccd46ca829ae156932f587fbbc70aed1d46e388"
    ∷ lsl_item "cf_5fstring_739" "cf_string"
        "#a28d50dae6fd82eea8893ce3d63ccd46caedadbd6437a22628678edaf287c87048"
    ∷ lsl_item "cf_5fundefined_740" "cf_undefined"
        "#a28d50dae6fd82eea8893ce3d63ccd46cadc8092d1092568f7d36d89fa7e813d76"
    ∷ c_api "cft_5fdouble64_741" "cft_double64"
        "#ad346feb32bddd136c3f7797e45047754a3286e5e97a2240d0fc4375e6eaf26291"
    ∷ c_api "cft_5ffloat32_742" "cft_float32"
        "#ad346feb32bddd136c3f7797e45047754a0548a6d8aa4e05f6195b7d7667b1a708"
    ∷ c_api "cft_5fint16_743" "cft_int16"
        "#ad346feb32bddd136c3f7797e45047754ab0af40c86cf7de7ff94f52006f924f3b"
    ∷ c_api "cft_5fint32_744" "cft_int32"
        "#ad346feb32bddd136c3f7797e45047754a2048ca1d716016ec3439711eaf352652"
    ∷ c_api "cft_5fint64_745" "cft_int64"
        "#ad346feb32bddd136c3f7797e45047754a90aad2d18937be799aca56fe80794aa5"
    ∷ c_api "cft_5fint8_746" "cft_int8"
        "#ad346feb32bddd136c3f7797e45047754a1b18c0e17a470b9e3bcff23cf49b8d6b"
    ∷ c_api "cft_5fstring_747" "cft_string"
        "#ad346feb32bddd136c3f7797e45047754a8353906afd3439e2f9dc504f571a724d"
    ∷ c_api "cft_5fundefined_748" "cft_undefined"
        "#ad346feb32bddd136c3f7797e45047754a0cbaf0c7054a57713970489abab7fb85"
    ∷ []

abbrev pub enumvalues_2 : List Entry
enumvalues_2 =
    esc_item "dim_749" "DIM" "#a93c187b0ecaecc64127a1e7d211562a1a11a52229f2c02ac21863203a9649771d"
    ∷ []

abbrev pub enumvalues_3 : List Entry
enumvalues_3 =
    esc_item "fg_5fblack_750" "FG_BLACK"
      "#a93c187b0ecaecc64127a1e7d211562a1a5793314530aabf181b6d61339928a486"
    ∷ esc_item "fg_5fblue_751" "FG_BLUE"
        "#a93c187b0ecaecc64127a1e7d211562a1a2c10a5323218ceb224ef379037cd7e0a"
    ∷ esc_item "fg_5fcyan_752" "FG_CYAN"
        "#a93c187b0ecaecc64127a1e7d211562a1a1c482c45cb9fa67cb290cb6e17ca291d"
    ∷ esc_item "fg_5fdefault_753" "FG_DEFAULT"
        "#a93c187b0ecaecc64127a1e7d211562a1afa9e18e6b89e7b527ac48cdeabb64955"
    ∷ esc_item "fg_5fgreen_754" "FG_GREEN"
        "#a93c187b0ecaecc64127a1e7d211562a1a852050b53ec94746365cf503b9daf77c"
    ∷ esc_item "fg_5fmagenta_755" "FG_MAGENTA"
        "#a93c187b0ecaecc64127a1e7d211562a1a080f5acc7b26dd8c82d66a410dcb003a"
    ∷ esc_item "fg_5fred_756" "FG_RED"
        "#a93c187b0ecaecc64127a1e7d211562a1a51f33f01a9c1d72db09e6a9ac6ddb759"
    ∷ esc_item "fg_5fwhite_757" "FG_WHITE"
        "#a93c187b0ecaecc64127a1e7d211562a1ae751c14d8a6185aa862011b31cef11ee"
    ∷ esc_item "fg_5fyellow_758" "FG_YELLOW"
        "#a93c187b0ecaecc64127a1e7d211562a1a4407cb515758165608277ff094d8aa4e"
    ∷ []

abbrev pub enumvalues_4 : List Entry
enumvalues_4 =
    esc_item "hidden_759" "HIDDEN"
      "#a93c187b0ecaecc64127a1e7d211562a1aa554b8e89b9c53e86096c1ee2dca2aae"
    ∷ []

abbrev pub enumvalues_5 : List Entry
enumvalues_5 =
    esc_item "italic_760" "ITALIC"
      "#a93c187b0ecaecc64127a1e7d211562a1ad7e062b99a6ddd60a225ecc7d10756b1"
    ∷ []

abbrev pub enumvalues_6 : List Entry
enumvalues_6 =
    c_api "lsl_5fargument_5ferror_761" "lsl_argument_error"
      "#a0be58f7d496eb06924ee1825219c6e50ad4626ba223d8c0b1535074752b0a0463"
    ∷ c_api "lsl_5finternal_5ferror_762" "lsl_internal_error"
        "#a0be58f7d496eb06924ee1825219c6e50a600b03c28953fa600d6c4e544a14fd99"
    ∷ c_api "lsl_5flost_5ferror_763" "lsl_lost_error"
        "#a0be58f7d496eb06924ee1825219c6e50aa463db40788d297314191e0b41081feb"
    ∷ c_api "lsl_5fno_5ferror_764" "lsl_no_error"
        "#a0be58f7d496eb06924ee1825219c6e50ae6bc06b8e33c37c36c1edae45b4778c1"
    ∷ c_api "lsl_5ftimeout_5ferror_765" "lsl_timeout_error"
        "#a0be58f7d496eb06924ee1825219c6e50a41650b5604c0b7392b79d383a7f59a68"
    ∷ []

abbrev pub enumvalues_7 : List Entry
enumvalues_7 =
    lsl_item "post_5fall_766" "post_ALL"
      "#aaa1cffa7d29bb2756522bc2bb069e310a198f16659e71b850e4674ed31d10e914"
    ∷ lsl_item "post_5fclocksync_767" "post_clocksync"
        "#aaa1cffa7d29bb2756522bc2bb069e310accf7cbfa478e679b53255d46fd62f888"
    ∷ lsl_item "post_5fdejitter_768" "post_dejitter"
        "#aaa1cffa7d29bb2756522bc2bb069e310a83b67e37c1bbcfb4ee7479098386499f"
    ∷ lsl_item "post_5fmonotonize_769" "post_monotonize"
        "#aaa1cffa7d29bb2756522bc2bb069e310af7cdac323760b9cb6587733a24f5aecb"
    ∷ lsl_item "post_5fnone_770" "post_none"
        "#aaa1cffa7d29bb2756522bc2bb069e310ac01170c28c82b28d721da1971e16424b"
    ∷ lsl_item "post_5fthreadsafe_771" "post_threadsafe"
        "#aaa1cffa7d29bb2756522bc2bb069e310a8ebef2c4c98e1a9246e9927e6b0b87c9"
    ∷ c_api "proc_5fall_772" "proc_ALL"
        "#a9246faefd09869849b726df268042333ae75b6de5e0af2a7c1377c11fafefbb02"
    ∷ c_api "proc_5fclocksync_773" "proc_clocksync"
        "#a9246faefd09869849b726df268042333ae6bdb3d07024fa143a22417546496828"
    ∷ c_api "proc_5fdejitter_774" "proc_dejitter"
        "#a9246faefd09869849b726df268042333a21f46ef0bbdba358fabe116ae1559c87"
    ∷ c_api "proc_5fmonotonize_775" "proc_monotonize"
        "#a9246faefd09869849b726df268042333ad36e527d8a75f2ef42d48311bbd605c7"
    ∷ c_api "proc_5fnone_776" "proc_none"
        "#a9246faefd09869849b726df268042333a10e08b294e3583a6e1892da753137445"
    ∷ c_api "proc_5fthreadsafe_777" "proc_threadsafe"
        "#a9246faefd09869849b726df268042333af3444351bc66b5a0a8a758774de84438"
    ∷ []

abbrev pub enumvalues_8 : List Entry
enumvalues_8 =
    esc_item "reverse_778" "REVERSE"
      "#a93c187b0ecaecc64127a1e7d211562a1a991c4d7703b3a4062d71ac80b047d0f6"
    ∷ []

abbrev pub enumvalues_9 : List Entry
enumvalues_9 =
    one "serial_779" "SERIAL" client
      "#ad5719d96b9a023b9d6e6bfb3c917f6ddae1bf4306016574e334b5aec78b2efaf2" "Communication::Client"
    ∷ esc_item "strike_780" "STRIKE"
        "#a93c187b0ecaecc64127a1e7d211562a1a712e5fd9a5e6d3b6a565a22b7b6590b2"
    ∷ []

abbrev pub enumvalues_a : List Entry
enumvalues_a =
    one "tcp_781" "TCP" client "#ad5719d96b9a023b9d6e6bfb3c917f6dda9729ef4069d34c1034ca97789e50b03f"
      "Communication::Client"
    ∷ []

abbrev pub enumvalues_b : List Entry
enumvalues_b =
    one "udp_782" "UDP" client "#ad5719d96b9a023b9d6e6bfb3c917f6dda1b32b1dce6fdf665a44847863b977720"
      "Communication::Client"
    ∷ esc_item "underline_783" "UNDERLINE"
        "#a93c187b0ecaecc64127a1e7d211562a1a1ea0683248f9953ca0713e5797ce17d1"
    ∷ []

abbrev pub defines_0 : List Entry
defines_0 =
    many "_5f_5fhas_5finclude_784" "__has_include" (
      at c_id "#ae5510d82e4946f1656f4969911c54736" "__has_include():&#160;CMakeCCompilerId.c"
      ∷ at cxx_id "#ae5510d82e4946f1656f4969911c54736"
          "__has_include():&#160;CMakeCXXCompilerId.cpp"
      ∷ [])
    ∷ []

abbrev pub defines_1 : List Entry
defines_1 =
    many "architecture_5fid_785" "ARCHITECTURE_ID" (
      at c_id "#aba35d0d200deaeb06aee95ca297acb28" "ARCHITECTURE_ID():&#160;CMakeCCompilerId.c"
      ∷ at cxx_id "#aba35d0d200deaeb06aee95ca297acb28"
          "ARCHITECTURE_ID():&#160;CMakeCXXCompilerId.cpp"
      ∷ [])
    ∷ []

abbrev pub defines_2 : List Entry
defines_2 =
    one "c_5fversion_786" "C_VERSION" c_id "#adaee3ee7c5a7a22451ea25e762e1d7d5" "CMakeCCompilerId.c"
    ∷ many "compiler_5fid_787" "COMPILER_ID" (
        at c_id "#a81dee0709ded976b2e0319239f72d174" "COMPILER_ID():&#160;CMakeCCompilerId.c"
        ∷ at cxx_id "#a81dee0709ded976b2e0319239f72d174"
            "COMPILER_ID():&#160;CMakeCXXCompilerId.cpp"
        ∷ [])
    ∷ one "crlf_788" "CRLF" header "#a6cb23a858b0a21bdaa644b9181dc415f" "com_client.hpp"
    ∷ one "cxx_5fstd_789" "CXX_STD" cxx_id "#a34cc889e576a1ae6c84ae9e0a851ba21"
        "CMakeCXXCompilerId.cpp"
    ∷ []

abbrev pub defines_3 : List Entry
defines_3 =
    many "dec_790" "DEC" (
      at c_id "#ad1280362da42492bbc11aa78cbf776ad" "DEC():&#160;CMakeCCompilerId.c"
      ∷ at cxx_id "#ad1280362da42492bbc11aa78cbf776ad" "DEC():&#160;CMakeCXXCompilerId.cpp"
      ∷ [])
    ∷ []

abbrev pub defines_4 : List Entry
defines_4 =
    many "hex_791" "HEX" (
      at c_id "#a46d5d95daa1bef867bd0179594310ed5" "HEX():&#160;CMakeCCompilerId.c"
      ∷ at cxx_id "#a46d5d95daa1bef867bd0179594310ed5" "HEX():&#160;CMakeCXXCompilerId.cpp"
      ∷ [])
    ∷ []

abbrev pub defines_5 : List Entry
defines_5 =
    c_api "liblsl_5fc_5fapi_792" "LIBLSL_C_API" "#aafd0ef1813e8be84a1420c4f1df64615"
    ∷ c_api "liblsl_5fcompile_5fheader_5fversion_793" "LIBLSL_COMPILE_HEADER_VERSION"
        "#a8575e959edab9eb4be131982dd260acd"
    ∷ one "log_794" "LOG" (codes "../df/df2/str_a_n_s_iseq_8hpp.html")
        "#a3577749fb48d57a158b8ac1a0b3ab57e" "strANSIseq.hpp"
    ∷ c_api "lsl_5fdeduced_5ftimestamp_795" "LSL_DEDUCED_TIMESTAMP"
        "#a5282bfa3df16b30eb308375a45062cfc"
    ∷ c_api "lsl_5fforever_796" "LSL_FOREVER" "#a0416859f36f40e91d12cd07aafb34eaa"
    ∷ c_api "lsl_5firregular_5frate_797" "LSL_IRREGULAR_RATE" "#ab46eddb74ca540d49497330b132dbff1"
    ∷ c_api "lsl_5fno_5fpreference_798" "LSL_NO_PREFERENCE" "#ab94fcb1a355dbfc31f9dd3e0d699e6d6"
    ∷ []

abbrev pub defines_6 : List Entry
defines_6 =
    many "platform_5fid_799" "PLATFORM_ID" (
      at c_id "#adbc5372f40838899018fadbc89bd588b" "PLATFORM_ID():&#160;CMakeCCompilerId.c"
      ∷ at cxx_id "#adbc5372f40838899018fadbc89bd588b" "PLATFORM_ID():&#160;CMakeCXXCompilerId.cpp"
      ∷ [])
    ∷ []

abbrev pub defines_7 : List Entry
defines_7 =
    many "stringify_800" "STRINGIFY" (
      at c_id "#a43e1cad902b6477bec893cb6430bd6c8" "STRINGIFY():&#160;CMakeCCompilerId.c"
      ∷ at cxx_id "#a43e1cad902b6477bec893cb6430bd6c8" "STRINGIFY():&#160;CMakeCXXCompilerId.cpp"
      ∷ [])
    ∷ many "stringify_5fhelper_801" "STRINGIFY_HELPER" (
        at c_id "#a2ae9b72bb13abaabfcf2ee0ba7d3fa1d" "STRINGIFY_HELPER():&#160;CMakeCCompilerId.c"
        ∷ at cxx_id "#a2ae9b72bb13abaabfcf2ee0ba7d3fa1d"
            "STRINGIFY_HELPER():&#160;CMakeCXXCompilerId.cpp"
        ∷ [])
    ∷ []

abbrev pub pages_0 : List Entry
pages_0 =
    one "built_5flsl_802" "built_lsl"
      (codes
        "../d5/d45/md__home_aightech_dev_kistler__d_a_q_lib_com_client_tool_lib_built_lsl__r_e_a_d_m_e.html")
      "" ""
    ∷ []

abbrev pub pages_1 : List Entry
pages_1 = one "com_5fclient_803" "com_client" (codes "../index.html") "" "" ∷ []

abbrev pub pages_2 : List Entry
pages_2 =
    one "stransiseq_804" "strANSIseq"
      (codes
        "../d8/de6/md__home_aightech_dev_kistler__d_a_q_lib_com_client_lib_str_a_n_s_iseq__r_e_a_d_m_e.html")
      "" ""
    ∷ []
