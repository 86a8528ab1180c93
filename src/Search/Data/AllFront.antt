-- ===== src/Search/Data/AllFront.antt =====
-- The generated search data of docs/documentation/html/search/: all entries, from the front.
use com_client.Base.{codes, List, [], ◌∷◌}
use com_client.Search.Results.{Entry}
use com_client.Search.Data.Build.{
  at, c_api, c_id, cli, client, cxx_id, esc, esc_item, header, http, info, inlet, lsl_item, many,
  one, outlet, resolver, xml,
}
use com_client.Search.Data.Places as At

abbrev pub all_0 : List Entry
all_0 =
    many "_5f_5fhas_5finclude_0" "__has_include" (
      at c_id "#ae5510d82e4946f1656f4969911c54736" "__has_include():&#160;CMakeCCompilerId.c"
      ∷ at cxx_id "#ae5510d82e4946f1656f4969911c54736"
          "__has_include():&#160;CMakeCXXCompilerId.cpp"
      ∷ [])
    ∷ []

abbrev pub all_1 : List Entry
all_1 =
    one "append_5fchild_1" "append_child" xml "#af56c7976bb62cabc9c0ca69502063fea"
      "lsl::xml_element"
    ∷ one "append_5fchild_5fvalue_2" "append_child_value" xml "#a6a162d1b57049f5ecab6b68207a71d53"
        "lsl::xml_element"
    ∷ one "append_5fcopy_3" "append_copy" xml "#a73fc3bfe22e1117907a2d80ba33d2208"
        "lsl::xml_element"
    ∷ many "architecture_5fid_4" "ARCHITECTURE_ID" (
        at c_id "#aba35d0d200deaeb06aee95ca297acb28" "ARCHITECTURE_ID():&#160;CMakeCCompilerId.c"
        ∷ at cxx_id "#aba35d0d200deaeb06aee95ca297acb28"
            "ARCHITECTURE_ID():&#160;CMakeCXXCompilerId.cpp"
        ∷ [])
    ∷ one "as_5fxml_5" "as_xml" info "#ab1ccb9c2a1945c7051a0e90edaba8996" "lsl::stream_info"
    ∷ []

abbrev pub all_2 : List Entry
all_2 =
    esc_item "bg_5fblack_6" "BG_BLACK"
      "#a93c187b0ecaecc64127a1e7d211562a1a2d6d9e4c4d26f775a2d2e0f5d4c2fee5"
    ∷ esc_item "bg_5fblue_7" "BG_BLUE"
        "#a93c187b0ecaecc64127a1e7d211562a1a560f8ec0e3a165bffd234986d419d93e"
    ∷ esc_item "bg_5fcyan_8" "BG_CYAN"
        "#a93c187b0ecaecc64127a1e7d211562a1a5c996890ffc321f6f95d51357fa2e00a"
    ∷ esc_item "bg_5fdefault_9" "BG_DEFAULT"
        "#a93c187b0ecaecc64127a1e7d211562a1a1b9e16c203595a107bc8ba10051e08d1"
    ∷ esc_item "bg_5fgreen_10" "BG_GREEN"
        "#a93c187b0ecaecc64127a1e7d211562a1adb93cd7891a72f8d7878e8ea39700b51"
    ∷ esc_item "bg_5fmagenta_11" "BG_MAGENTA"
        "#a93c187b0ecaecc64127a1e7d211562a1ac524cfac8f3b50f5d6ac8a2ce7ac0939"
    ∷ esc_item "bg_5fred_12" "BG_RED"
        "#a93c187b0ecaecc64127a1e7d211562a1a9ca7916a80da428a5e295b0356e5ba91"
    ∷ esc_item "bg_5fwhite_13" "BG_WHITE"
        "#a93c187b0ecaecc64127a1e7d211562a1ae86ea0aceff2ecc297273593ef04d88a"
    ∷ esc_item "bg_5fyellow_14" "BG_YELLOW"
        "#a93c187b0ecaecc64127a1e7d211562a1a3b8d384d180428029a6712830c9b01b7"
    ∷ esc_item "blink_5ffast_15" "BLINK_FAST"
        "#a93c187b0ecaecc64127a1e7d211562a1a0af3dbb99fb41d75e60df73e7bab1fdd"
    ∷ esc_item "blink_5fslow_16" "BLINK_SLOW"
        "#a93c187b0ecaecc64127a1e7d211562a1a5bfaa69787e265bc37dca5b2b61c64a9"
    ∷ esc_item "bold_17" "BOLD"
        "#a93c187b0ecaecc64127a1e7d211562a1a0949b3693d2401dfa4651b442a9c9551"
    ∷ one "built_5flsl_18" "built_lsl"
        (codes
          "../d5/d45/md__home_aightech_dev_kistler__d_a_q_lib_com_client_tool_lib_built_lsl__r_e_a_d_m_e.html")
        "" ""
    ∷ []

abbrev pub all_3 : List Entry
all_3 =
    one "c_5fversion_19" "C_VERSION" c_id "#adaee3ee7c5a7a22451ea25e762e1d7d5" "CMakeCCompilerId.c"
    ∷ lsl_item "cf_5fdouble64_20" "cf_double64"
        "#a28d50dae6fd82eea8893ce3d63ccd46cab11213c3d307faf6ef734633ac732eb7"
    ∷ lsl_item "cf_5ffloat32_21" "cf_float32"
        "#a28d50dae6fd82eea8893ce3d63ccd46ca46efa3307b337f7de592753642584616"
    ∷ lsl_item "cf_5fint16_22" "cf_int16"
        "#a28d50dae6fd82eea8893ce3d63ccd46ca5c625662462c8a30454f6f7f0520e79c"
    ∷ lsl_item "cf_5fint32_23" "cf_int32"
        "#a28d50dae6fd82eea8893ce3d63ccd46ca526ce3ccb97e3bb75d913c60ad56c26d"
    ∷ lsl_item "cf_5fint64_24" "cf_int64"
        "#a28d50dae6fd82eea8893ce3d63ccd46ca6795e1df0db0b05744fd1fe9623567a0"
    ∷ lsl_item "cf_5fint8_25" "cf_int8"
        "#a28d50dae6fd82eea8893ce3d63ccd46ca829ae156932f587fbbc70aed1d46e388"
    ∷ lsl_item "cf_5fstring_26" "cf_string"
        "#a28d50dae6fd82eea8893ce3d63ccd46caedadbd6437a22628678edaf287c87048"
    ∷ lsl_item "cf_5fundefined_27" "cf_undefined"
        "#a28d50dae6fd82eea8893ce3d63ccd46cadc8092d1092568f7d36d89fa7e813d76"
    ∷ c_api "cft_5fdouble64_28" "cft_double64"
        "#ad346feb32bddd136c3f7797e45047754a3286e5e97a2240d0fc4375e6eaf26291"
    ∷ c_api "cft_5ffloat32_29" "cft_float32"
        "#ad346feb32bddd136c3f7797e45047754a0548a6d8aa4e05f6195b7d7667b1a708"
    ∷ c_api "cft_5fint16_30" "cft_int16"
        "#ad346feb32bddd136c3f7797e45047754ab0af40c86cf7de7ff94f52006f924f3b"
    ∷ c_api "cft_5fint32_31" "cft_int32"
        "#ad346feb32bddd136c3f7797e45047754a2048ca1d716016ec3439711eaf352652"
    ∷ c_api "cft_5fint64_32" "cft_int64"
        "#ad346feb32bddd136c3f7797e45047754a90aad2d18937be799aca56fe80794aa5"
    ∷ c_api "cft_5fint8_33" "cft_int8"
        "#ad346feb32bddd136c3f7797e45047754a1b18c0e17a470b9e3bcff23cf49b8d6b"
    ∷ c_api "cft_5fstring_34" "cft_string"
        "#ad346feb32bddd136c3f7797e45047754a8353906afd3439e2f9dc504f571a724d"
    ∷ c_api "cft_5fundefined_35" "cft_undefined"
        "#ad346feb32bddd136c3f7797e45047754a0cbaf0c7054a57713970489abab7fb85"
    ∷ one "channel_5fbytes_36" "channel_bytes" info "#a7eb192e1913596b017137347e4cc5847"
        "lsl::stream_info"
    ∷ one "channel_5fcount_37" "channel_count" info "#acf09957c1c61a9d9e0f9439037eec305"
        "lsl::stream_info"
    ∷ one "channel_5fformat_38" "channel_format" info "#aa9695e52570e617d1c7dd4ea9f88b15d"
        "lsl::stream_info"
    ∷ lsl_item "channel_5fformat_5ft_39" "channel_format_t" "#a28d50dae6fd82eea8893ce3d63ccd46c"
    ∷ lsl_item "check_5ferror_40" "check_error" "#acce0545ac0a7831acde1a759b778393c"
    ∷ one "child_41" "child" xml "#a111ef129dce406af43948d8c9b915148" "lsl::xml_element"
    ∷ many "child_5fvalue_42" "child_value" (
        At.child_value_1
        ∷ at xml "#ac99677d44f66ba850afd9b669e26452f" "lsl::xml_element::child_value() const"
        ∷ [])
    ∷ many "cli_43" "CLI"
        (at cli "#a47b6c71a4c59354a3f9c0cd9bd011807" "ESC::CLI::CLI()" ∷ at cli "" "ESC::CLI" ∷ [])
    ∷ one "cli_5fid_44" "cli_id" cli "#a24d0af4957baaeafab2a5f689e20b57d" "ESC::CLI"
    ∷ many "client_45" "Client" (
        at client "#aea957bd14f311e1f6621e7611022b5c4" "Communication::Client::Client()"
        ∷ at client "" "Communication::Client"
        ∷ [])
    ∷ one "close_5fconnection_46" "close_connection" client "#aa448a9277e9bed8326f74ad81062ab77"
        "Communication::Client"
    ∷ one "close_5fstream_47" "close_stream" inlet "#a77c2f10ed843723c7473aa52dcf544a0"
        "lsl::stream_inlet"
    ∷ one "cmakeccompilerid_2ec_48" "CMakeCCompilerId.c" c_id "" ""
    ∷ one "cmakecxxcompilerid_2ecpp_49" "CMakeCXXCompilerId.cpp" cxx_id "" ""
    ∷ one "com_5fclient_50" "com_client" (codes "../index.html") "" ""
    ∷ one "com_5fclient_2ecpp_51" "com_client.cpp" (codes "../d8/da5/com__client_8cpp.html") "" ""
    ∷ one "com_5fclient_2ecpp_2eo_2ed_52" "com_client.cpp.o.d"
        (codes "../d6/d45/com__client_8cpp_8o_8d.html") "" ""
    ∷ one "com_5fclient_2ehpp_53" "com_client.hpp" header "" ""
    ∷ one "communication_54" "Communication" (codes "../db/d7d/namespace_communication.html") "" ""
    ∷ many "compiler_5fid_55" "COMPILER_ID" (
        at c_id "#a81dee0709ded976b2e0319239f72d174" "COMPILER_ID():&#160;CMakeCCompilerId.c"
        ∷ at cxx_id "#a81dee0709ded976b2e0319239f72d174"
            "COMPILER_ID():&#160;CMakeCXXCompilerId.cpp"
        ∷ [])
    ∷ many "continuous_5fresolver_56" "continuous_resolver" (
        At.continuous_resolver_1
        ∷ At.continuous_resolver_2
        ∷ At.continuous_resolver_3
        ∷ at resolver "" "lsl::continuous_resolver"
        ∷ [])
    ∷ one "crc_57" "CRC" client "#a7020654cbb2e6f707fe637fc84d8328c" "Communication::Client"
    ∷ one "created_5fat_58" "created_at" info "#a9a5be16db42c09b1f0cced52a2259db8"
        "lsl::stream_info"
    ∷ one "crlf_59" "CRLF" header "#a6cb23a858b0a21bdaa644b9181dc415f" "com_client.hpp"
    ∷ one "cxx_5fstd_60" "CXX_STD" cxx_id "#a34cc889e576a1ae6c84ae9e0a851ba21"
        "CMakeCXXCompilerId.cpp"
    ∷ []

abbrev pub all_4 : List Entry
all_4 =
    many "dec_61" "DEC" (
      at c_id "#ad1280362da42492bbc11aa78cbf776ad" "DEC():&#160;CMakeCCompilerId.c"
      ∷ at cxx_id "#ad1280362da42492bbc11aa78cbf776ad" "DEC():&#160;CMakeCXXCompilerId.cpp"
      ∷ [])
    ∷ lsl_item "deduced_5ftimestamp_62" "DEDUCED_TIMESTAMP" "#a57df17d8a2563a18b8b759a0cec696cc"
    ∷ one "desc_63" "desc" info "#a7bbc53bb041757eb87c6c73564981390" "lsl::stream_info"
    ∷ esc_item "dim_64" "DIM" "#a93c187b0ecaecc64127a1e7d211562a1a11a52229f2c02ac21863203a9649771d"
    ∷ []

abbrev pub all_5 : List Entry
all_5 =
    one "empty_65" "empty" xml "#a787dcaf85abcc5cd4d5f93fc80c82eb5" "lsl::xml_element"
    ∷ one "esc_66" "ESC" esc "" ""
    ∷ []

abbrev pub all_6 : List Entry
all_6 =
    esc_item "fg_5fblack_67" "FG_BLACK"
      "#a93c187b0ecaecc64127a1e7d211562a1a5793314530aabf181b6d61339928a486"
    ∷ esc_item "fg_5fblue_68" "FG_BLUE"
        "#a93c187b0ecaecc64127a1e7d211562a1a2c10a5323218ceb224ef379037cd7e0a"
    ∷ esc_item "fg_5fcyan_69" "FG_CYAN"
        "#a93c187b0ecaecc64127a1e7d211562a1a1c482c45cb9fa67cb290cb6e17ca291d"
    ∷ esc_item "fg_5fdefault_70" "FG_DEFAULT"
        "#a93c187b0ecaecc64127a1e7d211562a1afa9e18e6b89e7b527ac48cdeabb64955"
    ∷ esc_item "fg_5fgreen_71" "FG_GREEN"
        "#a93c187b0ecaecc64127a1e7d211562a1a852050b53ec94746365cf503b9daf77c"
    ∷ esc_item "fg_5fmagenta_72" "FG_MAGENTA"
        "#a93c187b0ecaecc64127a1e7d211562a1a080f5acc7b26dd8c82d66a410dcb003a"
    ∷ esc_item "fg_5fred_73" "FG_RED"
        "#a93c187b0ecaecc64127a1e7d211562a1a51f33f01a9c1d72db09e6a9ac6ddb759"
    ∷ esc_item "fg_5fwhite_74" "FG_WHITE"
        "#a93c187b0ecaecc64127a1e7d211562a1ae751c14d8a6185aa862011b31cef11ee"
    ∷ esc_item "fg_5fyellow_75" "FG_YELLOW"
        "#a93c187b0ecaecc64127a1e7d211562a1a4407cb515758165608277ff094d8aa4e"
    ∷ one "first_5fchild_76" "first_child" xml "#ab68b7a1c63c2cb0eb4ce6361b94469b7"
        "lsl::xml_element"
    ∷ lsl_item "forever_77" "FOREVER" "#a74cfbc9077aca21295117217249721ed"
    ∷ esc_item "format_78" "FORMAT" "#a93c187b0ecaecc64127a1e7d211562a1"
    ∷ one "from_5fsocket_79" "from_socket" client "#a487e227b474999f2ff9f096f1a5784ad"
        "Communication::Client"
    ∷ one "from_5fxml_80" "from_xml" info "#abf8fb6ba88d2f6c4069961149f18faec" "lsl::stream_info"
    ∷ esc_item "fstr_81" "fstr" "#a080ff5f5b8a2ed3567a541acfa69a425"
    ∷ esc_item "fstr_5flink_82" "fstr_link" "#a07d7fd8adc58054bde19b14556a8d945"
    ∷ esc_item "fstr_5fn_83" "fstr_n" "#a6f0f9c5cc6b334d09b6da6834c02af16"
    ∷ []

abbrev pub all_7 : List Entry
all_7 =
    one "get_84" "get" http "#a6c2e964c4510d91b79ff9303b672582e" "Communication::HTTP_client"
    ∷ one "get_5fchannel_5fcount_85" "get_channel_count" inlet "#ad86702cf94e5b0b850a2f94a228e4f98"
        "lsl::stream_inlet"
    ∷ esc_item "get_5fpos_86" "get_pos" "#a1ab0660788056c78944278261498664a"
    ∷ one "get_5fstat_87" "get_stat" client "#a2508e02531cf7e8dd258677b7b1490e9"
        "Communication::Client"
    ∷ []

abbrev pub all_8 : List Entry
all_8 =
    one "handle_88" "handle" info "#a532f6e8b29052cf11fbf87aeb3424304" "lsl::stream_info"
    ∷ one "have_5fconsumers_89" "have_consumers" outlet "#a3e7fad1010ef7c78bcd006a4f94381fa"
        "lsl::stream_outlet"
    ∷ many "hex_90" "HEX" (
        at c_id "#a46d5d95daa1bef867bd0179594310ed5" "HEX():&#160;CMakeCCompilerId.c"
        ∷ at cxx_id "#a46d5d95daa1bef867bd0179594310ed5" "HEX():&#160;CMakeCXXCompilerId.cpp"
        ∷ [])
    ∷ esc_item "hidden_91" "HIDDEN"
        "#a93c187b0ecaecc64127a1e7d211562a1aa554b8e89b9c53e86096c1ee2dca2aae"
    ∷ one "hostname_92" "hostname" info "#a52db8d9e073297477d1183dfebe8dcda" "lsl::stream_info"
    ∷ many "http_5fclient_93" "HTTP_client" (
        at http "" "Communication::HTTP_client"
        ∷ at http "#af8b79c3813af9e4e2b9d2cb45b52b8c3" "Communication::HTTP_client::HTTP_client()"
        ∷ [])
    ∷ one "http_5fclient_2ecpp_94" "http_client.cpp" (codes "../d5/d08/http__client_8cpp.html") ""
        ""
    ∷ one "http_5fclient_2ecpp_2eo_2ed_95" "http_client.cpp.o.d"
        (codes "../dc/d95/http__client_8cpp_8o_8d.html") "" ""
    ∷ one "http_5fclient_2ehpp_96" "http_client.hpp" (codes "../d9/dcd/http__client_8hpp.html") ""
        ""
    ∷ []
