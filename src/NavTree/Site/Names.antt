-- ===== src/NavTree/Site/Names.antt =====
-- The children of the namespaces and globals in the tree, as generated in docs/documentation/html/.
use com_client.Base.{codes, List, [], ◌∷◌}
use com_client.NavTree.Pages.{esc, lsl}
use com_client.NavTree.Tree.{Rows}
use com_client.NavTree.Site.Build.{Script, rows_of, plain, part, loads, holds}

-- docs/documentation/html/d2/d52/namespace_e_s_c.js
abbrev pub namespace_e_s_c : Rows
namespace_e_s_c = rows_of (
    loads "CLI" "dc/d44/class_e_s_c_1_1_c_l_i.html" "dc/d44/class_e_s_c_1_1_c_l_i"
    ∷ holds "FORMAT" "d2/d52/namespace_e_s_c.html#a93c187b0ecaecc64127a1e7d211562a1" (
        part "BOLD" esc "#a93c187b0ecaecc64127a1e7d211562a1a0949b3693d2401dfa4651b442a9c9551"
        ∷ part "DIM" esc "#a93c187b0ecaecc64127a1e7d211562a1a11a52229f2c02ac21863203a9649771d"
        ∷ part "ITALIC" esc "#a93c187b0ecaecc64127a1e7d211562a1ad7e062b99a6ddd60a225ecc7d10756b1"
        ∷ part "UNDERLINE" esc "#a93c187b0ecaecc64127a1e7d211562a1a1ea0683248f9953ca0713e5797ce17d1"
        ∷ part "BLINK_SLOW" esc
            "#a93c187b0ecaecc64127a1e7d211562a1a5bfaa69787e265bc37dca5b2b61c64a9"
        ∷ part "BLINK_FAST" esc
            "#a93c187b0ecaecc64127a1e7d211562a1a0af3dbb99fb41d75e60df73e7bab1fdd"
        ∷ part "REVERSE" esc "#a93c187b0ecaecc64127a1e7d211562a1a991c4d7703b3a4062d71ac80b047d0f6"
        ∷ part "HIDDEN" esc "#a93c187b0ecaecc64127a1e7d211562a1aa554b8e89b9c53e86096c1ee2dca2aae"
        ∷ part "STRIKE" esc "#a93c187b0ecaecc64127a1e7d211562a1a712e5fd9a5e6d3b6a565a22b7b6590b2"
        ∷ part "FG_BLACK" esc "#a93c187b0ecaecc64127a1e7d211562a1a5793314530aabf181b6d61339928a486"
        ∷ part "BG_BLACK" esc "#a93c187b0ecaecc64127a1e7d211562a1a2d6d9e4c4d26f775a2d2e0f5d4c2fee5"
        ∷ part "FG_RED" esc "#a93c187b0ecaecc64127a1e7d211562a1a51f33f01a9c1d72db09e6a9ac6ddb759"
        ∷ part "BG_RED" esc "#a93c187b0ecaecc64127a1e7d211562a1a9ca7916a80da428a5e295b0356e5ba91"
        ∷ part "FG_GREEN" esc "#a93c187b0ecaecc64127a1e7d211562a1a852050b53ec94746365cf503b9daf77c"
        ∷ part "BG_GREEN" esc "#a93c187b0ecaecc64127a1e7d211562a1adb93cd7891a72f8d7878e8ea39700b51"
        ∷ part "FG_YELLOW" esc "#a93c187b0ecaecc64127a1e7d211562a1a4407cb515758165608277ff094d8aa4e"
        ∷ part "BG_YELLOW" esc "#a93c187b0ecaecc64127a1e7d211562a1a3b8d384d180428029a6712830c9b01b7"
        ∷ part "FG_BLUE" esc "#a93c187b0ecaecc64127a1e7d211562a1a2c10a5323218ceb224ef379037cd7e0a"
        ∷ part "BG_BLUE" esc "#a93c187b0ecaecc64127a1e7d211562a1a560f8ec0e3a165bffd234986d419d93e"
        ∷ part "FG_MAGENTA" esc
            "#a93c187b0ecaecc64127a1e7d211562a1a080f5acc7b26dd8c82d66a410dcb003a"
        ∷ part "BG_MAGENTA" esc
            "#a93c187b0ecaecc64127a1e7d211562a1ac524cfac8f3b50f5d6ac8a2ce7ac0939"
        ∷ part "FG_CYAN" esc "#a93c187b0ecaecc64127a1e7d211562a1a1c482c45cb9fa67cb290cb6e17ca291d"
        ∷ part "BG_CYAN" esc "#a93c187b0ecaecc64127a1e7d211562a1a5c996890ffc321f6f95d51357fa2e00a"
        ∷ part "FG_WHITE" esc "#a93c187b0ecaecc64127a1e7d211562a1ae751c14d8a6185aa862011b31cef11ee"
        ∷ part "BG_WHITE" esc "#a93c187b0ecaecc64127a1e7d211562a1ae86ea0aceff2ecc297273593ef04d88a"
        ∷ part "FG_DEFAULT" esc
            "#a93c187b0ecaecc64127a1e7d211562a1afa9e18e6b89e7b527ac48cdeabb64955"
        ∷ part "BG_DEFAULT" esc
            "#a93c187b0ecaecc64127a1e7d211562a1a1b9e16c203595a107bc8ba10051e08d1"
        ∷ [])
    ∷ part "fstr" esc "#a080ff5f5b8a2ed3567a541acfa69a425"
    ∷ part "fstr_link" esc "#a07d7fd8adc58054bde19b14556a8d945"
    ∷ part "fstr_n" esc "#a6f0f9c5cc6b334d09b6da6834c02af16"
    ∷ part "get_pos" esc "#a1ab0660788056c78944278261498664a"
    ∷ part "move_down" esc "#a0339f1bf272536a7645b373a503b4928"
    ∷ part "move_left" esc "#a231a32f47e8c90921259a47ce621b1cc"
    ∷ part "move_right" esc "#ac00ec90c2ccac2f1bcb6219b6f081ad5"
    ∷ part "move_to" esc "#aabdbbf48acbc97aadc974b67b8f65d49"
    ∷ part "move_type" esc "#a2dc320253a173af845d4317a62c45a6f"
    ∷ part "move_up" esc "#ab8b0eda8f8c0d37419c0435cad5230e0"
    ∷ [])

-- docs/documentation/html/d3/db0/namespacelsl.js
abbrev pub namespacelsl : Rows
namespacelsl = rows_of (
    loads "stream_info" "d1/d6a/classlsl_1_1stream__info.html" "d1/d6a/classlsl_1_1stream__info"
    ∷ loads "stream_outlet" "d6/d55/classlsl_1_1stream__outlet.html"
        "d6/d55/classlsl_1_1stream__outlet"
    ∷ loads "stream_inlet" "d6/dbd/classlsl_1_1stream__inlet.html"
        "d6/dbd/classlsl_1_1stream__inlet"
    ∷ loads "xml_element" "d9/d90/classlsl_1_1xml__element.html" "d9/d90/classlsl_1_1xml__element"
    ∷ loads "continuous_resolver" "d4/d27/classlsl_1_1continuous__resolver.html"
        "d4/d27/classlsl_1_1continuous__resolver"
    ∷ loads "lost_error" "de/d94/classlsl_1_1lost__error.html" "de/d94/classlsl_1_1lost__error"
    ∷ loads "timeout_error" "d4/d01/classlsl_1_1timeout__error.html"
        "d4/d01/classlsl_1_1timeout__error"
    ∷ holds "channel_format_t" "d3/db0/namespacelsl.html#a28d50dae6fd82eea8893ce3d63ccd46c" (
        part "cf_float32" lsl "#a28d50dae6fd82eea8893ce3d63ccd46ca46efa3307b337f7de592753642584616"
        ∷ part "cf_double64" lsl
            "#a28d50dae6fd82eea8893ce3d63ccd46cab11213c3d307faf6ef734633ac732eb7"
        ∷ part "cf_string" lsl "#a28d50dae6fd82eea8893ce3d63ccd46caedadbd6437a22628678edaf287c87048"
        ∷ part "cf_int32" lsl "#a28d50dae6fd82eea8893ce3d63ccd46ca526ce3ccb97e3bb75d913c60ad56c26d"
        ∷ part "cf_int16" lsl "#a28d50dae6fd82eea8893ce3d63ccd46ca5c625662462c8a30454f6f7f0520e79c"
        ∷ part "cf_int8" lsl "#a28d50dae6fd82eea8893ce3d63ccd46ca829ae156932f587fbbc70aed1d46e388"
        ∷ part "cf_int64" lsl "#a28d50dae6fd82eea8893ce3d63ccd46ca6795e1df0db0b05744fd1fe9623567a0"
        ∷ part "cf_undefined" lsl
            "#a28d50dae6fd82eea8893ce3d63ccd46cadc8092d1092568f7d36d89fa7e813d76"
        ∷ [])
    ∷ holds "processing_options_t" "d3/db0/namespacelsl.html#aaa1cffa7d29bb2756522bc2bb069e310" (
        part "post_none" lsl "#aaa1cffa7d29bb2756522bc2bb069e310ac01170c28c82b28d721da1971e16424b"
        ∷ part "post_clocksync" lsl
            "#aaa1cffa7d29bb2756522bc2bb069e310accf7cbfa478e679b53255d46fd62f888"
        ∷ part "post_dejitter" lsl
            "#aaa1cffa7d29bb2756522bc2bb069e310a83b67e37c1bbcfb4ee7479098386499f"
        ∷ part "post_monotonize" lsl
            "#aaa1cffa7d29bb2756522bc2bb069e310af7cdac323760b9cb6587733a24f5aecb"
        ∷ part "post_threadsafe" lsl
            "#aaa1cffa7d29bb2756522bc2bb069e310a8ebef2c4c98e1a9246e9927e6b0b87c9"
        ∷ part "post_ALL" lsl "#aaa1cffa7d29bb2756522bc2bb069e310a198f16659e71b850e4674ed31d10e914"
        ∷ [])
    ∷ part "check_error" lsl "#acce0545ac0a7831acde1a759b778393c"
    ∷ part "library_info" lsl "#a2a348cf022e9862396e4a10f60af42e9"
    ∷ part "library_version" lsl "#a25fc4deea3c2fb0df0744e3a24c56844"
    ∷ part "local_clock" lsl "#ae1766ae2ab66141cb927612e57a0c8c6"
    ∷ part "protocol_version" lsl "#a59009e83a8f0e33643474b373ad2f7f2"
    ∷ part "resolve_stream" lsl "#a824e14275a55df97d0552a91fc2c4097"
    ∷ part "resolve_stream" lsl "#a4edfbcc31f48f27e8f7c2a36b69cd4b9"
    ∷ part "resolve_streams" lsl "#a2935ff3db04cd640f69943ad14a61915"
    ∷ part "DEDUCED_TIMESTAMP" lsl "#a57df17d8a2563a18b8b759a0cec696cc"
    ∷ part "FOREVER" lsl "#a74cfbc9077aca21295117217249721ed"
    ∷ part "IRREGULAR_RATE" lsl "#ac7ebddefe1091ef2d9459b6f9d79f7ab"
    ∷ [])

-- docs/documentation/html/db/d7d/namespace_communication.js
abbrev pub namespace_communication : Rows
namespace_communication = rows_of (
    loads "Client" "df/dcd/class_communication_1_1_client.html"
      "df/dcd/class_communication_1_1_client"
    ∷ loads "Server" "dc/db1/class_communication_1_1_server.html"
        "dc/db1/class_communication_1_1_server"
    ∷ loads "HTTP_client" "d7/d60/class_communication_1_1_h_t_t_p__client.html"
        "d7/d60/class_communication_1_1_h_t_t_p__client"
    ∷ [])

-- docs/documentation/html/globals_dup.js
abbrev pub globals_dup : Rows
globals_dup = rows_of (
    plain "_" "globals.html"
    ∷ plain "a" "globals_a.html"
    ∷ plain "c" "globals_c.html"
    ∷ plain "d" "globals_d.html"
    ∷ plain "h" "globals_h.html"
    ∷ plain "i" "globals_i.html"
    ∷ plain "l" "globals_l.html"
    ∷ plain "m" "globals_m.html"
    ∷ plain "p" "globals_p.html"
    ∷ plain "s" "globals_s.html"
    ∷ [])

-- docs/documentation/html/namespaces_dup.js
abbrev pub namespaces_dup : Rows
namespaces_dup = rows_of (
    loads "Communication" "db/d7d/namespace_communication.html" "db/d7d/namespace_communication"
    ∷ loads "ESC" "d2/d52/namespace_e_s_c.html" "d2/d52/namespace_e_s_c"
    ∷ loads "lsl" "d3/db0/namespacelsl.html" "d3/db0/namespacelsl"
    ∷ [])

abbrev pub names : List Script
names =
    (record {
      name = codes "d2/d52/namespace_e_s_c";
      variable = codes "namespace_e_s_c";
      children = namespace_e_s_c;
    })
    ∷ (record {
      name = codes "d3/db0/namespacelsl";
      variable = codes "namespacelsl";
      children = namespacelsl;
    })
    ∷ (record {
      name = codes "db/d7d/namespace_communication";
      variable = codes "namespace_communication";
      children = namespace_communication;
    })
    ∷ (record {
      name = codes "globals_dup";
      variable = codes "globals_dup";
      children = globals_dup;
    })
    ∷ (record {
      name = codes "namespaces_dup";
      variable = codes "namespaces_dup";
      children = namespaces_dup;
    })
    ∷ []
