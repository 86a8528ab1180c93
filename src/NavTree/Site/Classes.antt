-- ===== src/NavTree/Site/Classes.antt =====
-- The children of the classes in the tree, as generated in docs/documentation/html/.
use com_client.Base.{codes, List, [], ◌∷◌}
use com_client.NavTree.Pages.{cli, client, http, info, inlet, outlet, resolver, server, xml}
use com_client.NavTree.Tree.{Rows}
use com_client.NavTree.Site.Build.{Script, rows_of, plain, part, loads, holds}

-- docs/documentation/html/annotated_dup.js
abbrev pub annotated_dup : Rows
annotated_dup = rows_of (
    holds "Communication" "db/d7d/namespace_communication.html" (
      loads "Client" "df/dcd/class_communication_1_1_client.html"
        "df/dcd/class_communication_1_1_client"
      ∷ loads "Server" "dc/db1/class_communication_1_1_server.html"
          "dc/db1/class_communication_1_1_server"
      ∷ loads "HTTP_client" "d7/d60/class_communication_1_1_h_t_t_p__client.html"
          "d7/d60/class_communication_1_1_h_t_t_p__client"
      ∷ [])
    ∷ holds "ESC" "d2/d52/namespace_e_s_c.html"
        (loads "CLI" "dc/d44/class_e_s_c_1_1_c_l_i.html" "dc/d44/class_e_s_c_1_1_c_l_i" ∷ [])
    ∷ holds "lsl" "d3/db0/namespacelsl.html" (
        loads "stream_info" "d1/d6a/classlsl_1_1stream__info.html" "d1/d6a/classlsl_1_1stream__info"
        ∷ loads "stream_outlet" "d6/d55/classlsl_1_1stream__outlet.html"
            "d6/d55/classlsl_1_1stream__outlet"
        ∷ loads "stream_inlet" "d6/dbd/classlsl_1_1stream__inlet.html"
            "d6/dbd/classlsl_1_1stream__inlet"
        ∷ loads "xml_element" "d9/d90/classlsl_1_1xml__element.html"
            "d9/d90/classlsl_1_1xml__element"
        ∷ loads "continuous_resolver" "d4/d27/classlsl_1_1continuous__resolver.html"
            "d4/d27/classlsl_1_1continuous__resolver"
        ∷ loads "lost_error" "de/d94/classlsl_1_1lost__error.html" "de/d94/classlsl_1_1lost__error"
        ∷ loads "timeout_error" "d4/d01/classlsl_1_1timeout__error.html"
            "d4/d01/classlsl_1_1timeout__error"
        ∷ [])
    ∷ [])

-- docs/documentation/html/d1/d6a/classlsl_1_1stream__info.js
abbrev pub classlsl_1_1stream__info : Rows
classlsl_1_1stream__info = rows_of (
    part "stream_info" info "#a874f4899da89168b768cfe9acdd569a0"
    ∷ part "stream_info" info "#a7358ba03d8741b0b194cf9e747405702"
    ∷ part "stream_info" info "#a780a9289cc6f1d57215ed297aecfc78b"
    ∷ part "stream_info" info "#a82fd071574212a20ba4faffac5ce7803"
    ∷ part "~stream_info" info "#afe4bf312984faef204ee4480385a9bc1"
    ∷ part "as_xml" info "#ab1ccb9c2a1945c7051a0e90edaba8996"
    ∷ part "channel_bytes" info "#a7eb192e1913596b017137347e4cc5847"
    ∷ part "channel_count" info "#acf09957c1c61a9d9e0f9439037eec305"
    ∷ part "channel_format" info "#aa9695e52570e617d1c7dd4ea9f88b15d"
    ∷ part "created_at" info "#a9a5be16db42c09b1f0cced52a2259db8"
    ∷ part "desc" info "#a7bbc53bb041757eb87c6c73564981390"
    ∷ part "handle" info "#a532f6e8b29052cf11fbf87aeb3424304"
    ∷ part "hostname" info "#a52db8d9e073297477d1183dfebe8dcda"
    ∷ part "matches_query" info "#a6c3474322d467e8d8198c7a6e4c7ad76"
    ∷ part "name" info "#a0862e5c580d65ecf9ceb1fcc26f2ca34"
    ∷ part "nominal_srate" info "#a35b9b9b8947915f9f9518333342e2835"
    ∷ part "operator=" info "#a8ce8011b9da9b90c8e11e5c1c477a0a2"
    ∷ part "sample_bytes" info "#ab68def3a9c81c289ba46a5b40c6b4084"
    ∷ part "session_id" info "#a59036c0e83bcb07b711ec7e3e3b15fef"
    ∷ part "source_id" info "#a1f20c68246a88047978d9b03e14a9d2b"
    ∷ part "type" info "#a2162830f6867e9513eba9385eb0cbb99"
    ∷ part "uid" info "#ae6fa890ffd440f298dd02fe71eaf3b82"
    ∷ part "version" info "#aabd83f83d0abe8671e766e97f471dea9"
    ∷ [])

-- docs/documentation/html/d4/d01/classlsl_1_1timeout__error.js
abbrev pub classlsl_1_1timeout__error : Rows
classlsl_1_1timeout__error = rows_of (
    plain "timeout_error" "d4/d01/classlsl_1_1timeout__error.html#afbc3b7c957fe3da4021aff3c30e6192f"
    ∷ [])

-- docs/documentation/html/d4/d27/classlsl_1_1continuous__resolver.js
abbrev pub classlsl_1_1continuous__resolver : Rows
classlsl_1_1continuous__resolver = rows_of (
    part "continuous_resolver" resolver "#a53b81e4328aba7a83c4aa129fa0d6f62"
    ∷ part "continuous_resolver" resolver "#a9eb3d09ca9c4f9c493a6978d403a5144"
    ∷ part "continuous_resolver" resolver "#aa3b65921342bddafabe4e5d16a3c24a3"
    ∷ part "~continuous_resolver" resolver "#a382bc439e5dbb1efcaa32def93ef01df"
    ∷ part "results" resolver "#ad88c16d36f8a2dc64f4ae4536445e15a"
    ∷ [])

-- docs/documentation/html/d6/d55/classlsl_1_1stream__outlet.js
abbrev pub classlsl_1_1stream__outlet : Rows
classlsl_1_1stream__outlet = rows_of (
    part "stream_outlet" outlet "#ac88c568fdc7429d95c51cd7b58d902cc"
    ∷ part "~stream_outlet" outlet "#aa8a10c88f57686d77bee002aff4c9d4e"
    ∷ part "have_consumers" outlet "#a3e7fad1010ef7c78bcd006a4f94381fa"
    ∷ part "info" outlet "#af6fda8eb922b27ae3ed98651934243fe"
    ∷ part "push_chunk" outlet "#a05ff22ae7b36a9e64dc08f71b45913e6"
    ∷ part "push_chunk" outlet "#a58427b98e8a60e7d160534078f3e04f8"
    ∷ part "push_chunk_multiplexed" outlet "#ab462e099798c3055b8f976767b239379"
    ∷ part "push_chunk_multiplexed" outlet "#a6ff877ac1b4c96f38ac36a2319a874da"
    ∷ part "push_chunk_multiplexed" outlet "#af5d993951e77df22ecb225c3b4aad87c"
    ∷ part "push_chunk_multiplexed" outlet "#a4f476f737355d7c2b128dcc1798f46b7"
    ∷ part "push_chunk_multiplexed" outlet "#a7ea80b891c9aaf7b4c62c715692218cc"
    ∷ part "push_chunk_multiplexed" outlet "#a4cc12f447c2ccfe67a118a3c23215f0d"
    ∷ part "push_chunk_multiplexed" outlet "#a78a48678f40e2bbb591aa0b9da9891d8"
    ∷ part "push_chunk_multiplexed" outlet "#ac90405c89feb8c95a493f42a0c749421"
    ∷ part "push_chunk_multiplexed" outlet "#a161ead63f9a373d69744c3c54a650c1d"
    ∷ part "push_chunk_multiplexed" outlet "#a10acfcf6b1db179f04596def60bc3792"
    ∷ part "push_chunk_multiplexed" outlet "#a4953cee1905211d533cb9bd6b0525099"
    ∷ part "push_chunk_multiplexed" outlet "#a3ec413951e8613ce5289a265aaabf6e9"
    ∷ part "push_chunk_multiplexed" outlet "#a2b4da4c1a2c3c47f39ed8a3f2cc717a5"
    ∷ part "push_chunk_multiplexed" outlet "#a17744ee6e963464fe6442d1e6f1a50f8"
    ∷ part "push_chunk_multiplexed" outlet "#a5ceb5a7488582559846637a310056605"
    ∷ part "push_chunk_multiplexed" outlet "#af1bedf881293459205b9ba5df7b92051"
    ∷ part "push_chunk_multiplexed" outlet "#ad0a2c2b78e18b423e34ed0282df6b919"
    ∷ part "push_chunk_multiplexed" outlet "#aa42becb37b937c5d6319dac67a0da4a4"
    ∷ part "push_chunk_multiplexed" outlet "#a5944abd4386a9568441ddb352e8df71f"
    ∷ part "push_chunk_multiplexed" outlet "#adafb6b76614ea386917f696bdb272209"
    ∷ part "push_chunk_multiplexed" outlet "#a9d175090070f408ca7e9c8d8437c02f6"
    ∷ part "push_chunk_multiplexed" outlet "#a874e84f39bf470f755aa46da300244f6"
    ∷ part "push_chunk_multiplexed" outlet "#ae3875c13d689e11c6d34181b8fadfa5d"
    ∷ part "push_chunk_multiplexed" outlet "#a341840ed1504e2cfa0cc9c15263e030a"
    ∷ part "push_chunk_multiplexed" outlet "#a9075bd46bb9f2d1a0d494dbb7772eb48"
    ∷ part "push_chunk_multiplexed" outlet "#abe328c3200c383d160ca0e00029b8124"
    ∷ part "push_chunk_multiplexed" outlet "#ac31c0f13ba9de7331e520b3b08ede811"
    ∷ part "push_chunk_multiplexed" outlet "#a554027868fa9710470f0c3f057904b4b"
    ∷ part "push_chunk_numeric_structs" outlet "#a226b11eae43287c7b72e4d0ca1e812e7"
    ∷ part "push_chunk_numeric_structs" outlet "#ad7e1405b50bc546c4f742f508aa734cc"
    ∷ part "push_numeric_raw" outlet "#a5c394e995a86d03cb71c3d180f855681"
    ∷ part "push_numeric_struct" outlet "#a18b2da34bdd1306ef926d97532c43f28"
    ∷ part "push_sample" outlet "#acbb1a237bb410d9794c1961922aca6ad"
    ∷ part "push_sample" outlet "#af0d747a0610be04501117f87c1b010e9"
    ∷ part "push_sample" outlet "#a24192e6e3416ad36154bc01be55334c3"
    ∷ part "push_sample" outlet "#ae67672d4aa82d500e0a192d38f64d6fe"
    ∷ part "push_sample" outlet "#aff1709d7bbf628e9b14d18444c7ac237"
    ∷ part "push_sample" outlet "#a558af80f807399556a2483346e80b935"
    ∷ part "push_sample" outlet "#a93e571140b73b4324051b8ef4b5606a4"
    ∷ part "push_sample" outlet "#a510668a6adc032792e8bad06458e58eb"
    ∷ part "push_sample" outlet "#abd59227041d01d48e90d4d5d05da7662"
    ∷ part "push_sample" outlet "#a4c984d8bf178e2321c590aaf81d4da3f"
    ∷ part "push_sample" outlet "#a66a528d5f31f5b5f747994c6de35a80f"
    ∷ part "push_sample" outlet "#aa1f12739e569d284896c7f514f55a301"
    ∷ part "push_sample" outlet "#a277f76e889a33849170d5c25fa99c723"
    ∷ part "push_sample" outlet "#a59f69780061e6c8743a4cb566944033b"
    ∷ part "push_sample" outlet "#a675bbe044a5053087e05e0267fe6722a"
    ∷ part "wait_for_consumers" outlet "#af188fa767e2a70c402486b761e9869fe"
    ∷ [])

-- docs/documentation/html/d6/dbd/classlsl_1_1stream__inlet.js
abbrev pub classlsl_1_1stream__inlet : Rows
classlsl_1_1stream__inlet = rows_of (
    part "stream_inlet" inlet "#a7c93b7d4fc053b2e3320841371b32919"
    ∷ part "~stream_inlet" inlet "#ac3b37a1c2e376280c3144f422bb27d79"
    ∷ part "close_stream" inlet "#a77c2f10ed843723c7473aa52dcf544a0"
    ∷ part "get_channel_count" inlet "#ad86702cf94e5b0b850a2f94a228e4f98"
    ∷ part "info" inlet "#ae895a8d5c10dc4072e969686fc402b5b"
    ∷ part "open_stream" inlet "#ad84029ed0662d755b0544c7652348718"
    ∷ part "pull_chunk" inlet "#a558f53812f5dc3c19b2cbe0026a61f6a"
    ∷ part "pull_chunk" inlet "#acf6cdc3afdbb4c31c97fb979e4aca632"
    ∷ part "pull_chunk" inlet "#af9051121db6ffa6945bd2288b2bf2a15"
    ∷ part "pull_chunk_multiplexed" inlet "#a85ee4c75121e8ee54de22f228a3abae5"
    ∷ part "pull_chunk_multiplexed" inlet "#abdb890fbad785ed4bc39288fc2f47329"
    ∷ part "pull_chunk_multiplexed" inlet "#a97adf2cb7d60e4b47bf25217a2b17964"
    ∷ part "pull_chunk_multiplexed" inlet "#a40e9727b155e274df482e4579e60f3b3"
    ∷ part "pull_chunk_multiplexed" inlet "#a3b93d803b348905bc34747c5820d6364"
    ∷ part "pull_chunk_multiplexed" inlet "#aa2f2c576a6b5a3bf562878200829bb47"
    ∷ part "pull_chunk_multiplexed" inlet "#a6a0f2f39152a2975571d5073d9967646"
    ∷ part "pull_chunk_multiplexed" inlet "#a9ac87825319b345987fdd54e606fd56f"
    ∷ part "pull_chunk_numeric_structs" inlet "#a4a743ed5df78b05dcc038e73a1d4fb9b"
    ∷ part "pull_chunk_numeric_structs" inlet "#ab14a0120e49dcd33f6df0716e6606810"
    ∷ part "pull_chunk_numeric_structs" inlet "#a018caadb9a2c61f0c1c6388f7b617008"
    ∷ part "pull_numeric_raw" inlet "#ae8f7beaaa82d192d844abdd1531f6b9a"
    ∷ part "pull_numeric_struct" inlet "#a540c7ba2c23188916ffe311c26c2c081"
    ∷ part "pull_sample" inlet "#a9183e81a122df862eff9ea9797c82b73"
    ∷ part "pull_sample" inlet "#acb78fe666a3be090278bc3d1f3eb7619"
    ∷ part "pull_sample" inlet "#a4a10bd640a10c317ba4a0244cc986146"
    ∷ part "pull_sample" inlet "#a3462f2634ce13e7f9c764e16a58a71a6"
    ∷ part "pull_sample" inlet "#ae4534102453ccd98f319c746ec1de0a9"
    ∷ part "pull_sample" inlet "#a774c17a647ebd321b5ce4a5450f71202"
    ∷ part "pull_sample" inlet "#a52e95747438991868e3eb9c791e24f42"
    ∷ part "pull_sample" inlet "#a3a2a662e0b723d7f2101b79eb08371b7"
    ∷ part "pull_sample" inlet "#a447dd270fa83d8f1df16963b8601027e"
    ∷ part "pull_sample" inlet "#af3707fbfd5e9f54be73f9d55de55a8fc"
    ∷ part "pull_sample" inlet "#a7789d75e1afceaf5187e8bc33a0b99be"
    ∷ part "pull_sample" inlet "#af33558ccbbe57767386278d2255db1a1"
    ∷ part "pull_sample" inlet "#a80fecf88ba609c7e4898eb16a49f2b75"
    ∷ part "pull_sample" inlet "#a78a36bf33ddfc7101bd15cb5bcb9561d"
    ∷ part "pull_sample" inlet "#a58dc91be6ec0d1b83024a169ad0c292b"
    ∷ part "samples_available" inlet "#a8a4f5ff87d40a696ab4a5d74c03cd52b"
    ∷ part "set_postprocessing" inlet "#aaf40ba9c127a1828933613d0f2b0fc3d"
    ∷ part "smoothing_halftime" inlet "#a2774c1dbcf3fc7b17505e8814921d17c"
    ∷ part "time_correction" inlet "#a9603f3365093f43f9e2bae1b9e9b2cd8"
    ∷ part "time_correction" inlet "#a845d95f5fc60fb9cd01fb73d3da75e94"
    ∷ part "was_clock_reset" inlet "#ac3b8fa8912090ad6607b05cbb5848352"
    ∷ [])

-- docs/documentation/html/d7/d60/class_communication_1_1_h_t_t_p__client.js
abbrev pub class_communication_1_1_h_t_t_p__client : Rows
class_communication_1_1_h_t_t_p__client = rows_of (
    part "HTTP_client" http "#af8b79c3813af9e4e2b9d2cb45b52b8c3"
    ∷ part "~HTTP_client" http "#a9cbcd819dda4fc2fd0c4295bce974dff"
    ∷ part "get" http "#a6c2e964c4510d91b79ff9303b672582e"
    ∷ part "open_connection" http "#a67973a5bc8e92122bc5f98c95990bca7"
    ∷ part "post" http "#a241e78ccad7bcbc7597cb2dde7d7e402"
    ∷ [])

-- docs/documentation/html/d9/d90/classlsl_1_1xml__element.js
abbrev pub classlsl_1_1xml__element : Rows
classlsl_1_1xml__element = rows_of (
    part "xml_element" xml "#a9a2c940a06714662f3cef5e9847e8cae"
    ∷ part "append_child" xml "#af56c7976bb62cabc9c0ca69502063fea"
    ∷ part "append_child_value" xml "#a6a162d1b57049f5ecab6b68207a71d53"
    ∷ part "append_copy" xml "#a73fc3bfe22e1117907a2d80ba33d2208"
    ∷ part "child" xml "#a111ef129dce406af43948d8c9b915148"
    ∷ part "child_value" xml "#ac99677d44f66ba850afd9b669e26452f"
    ∷ part "child_value" xml "#a893102d2d84a444a89099f9c90cb6c31"
    ∷ part "empty" xml "#a787dcaf85abcc5cd4d5f93fc80c82eb5"
    ∷ part "first_child" xml "#ab68b7a1c63c2cb0eb4ce6361b94469b7"
    ∷ part "is_text" xml "#a965cfff9a29ebe6d8274f5256ff0017c"
    ∷ part "last_child" xml "#a12254f735a79a11b75718fe7c28186d0"
    ∷ part "name" xml "#a2e449e85b7e763b1d0db4bb19d2eb7c2"
    ∷ part "next_sibling" xml "#a9637215f616b660789696e452b0e0591"
    ∷ part "next_sibling" xml "#a100590d2a9822261a3f0b0ed7810134d"
    ∷ part "parent" xml "#ae3211be3c10164f366220b638a9dd200"
    ∷ part "prepend_child" xml "#abd881c6c5d0d381f9efff2fc25975e7e"
    ∷ part "prepend_child_value" xml "#a3e7fde09def517574df99c71a0a05d23"
    ∷ part "prepend_copy" xml "#a1bea6df95134f909611b1c40218828d7"
    ∷ part "previous_sibling" xml "#a78c2e0b3d7bda2b5a2d478e3c0cdc87a"
    ∷ part "previous_sibling" xml "#a70b90853b7edfaebfe69bc1103ed6b8b"
    ∷ part "remove_child" xml "#ad23da57ac3a6a7f3dd849be0a8b44a47"
    ∷ part "remove_child" xml "#a0c07b18ef39b7f6d683b9612e2a9104e"
    ∷ part "set_child_value" xml "#a6fe187e03b36cf8fd5f9d3892e99453f"
    ∷ part "set_name" xml "#a8ddf2b35719b273dbb5700f16a2da4e5"
    ∷ part "set_value" xml "#a3a3bbf2468ba3abd9309764faa61a7a4"
    ∷ part "value" xml "#a1a5e666b35c5d7262e4ffbda86b57f73"
    ∷ [])

-- docs/documentation/html/dc/d44/class_e_s_c_1_1_c_l_i.js
abbrev pub class_e_s_c_1_1_c_l_i : Rows
class_e_s_c_1_1_c_l_i = rows_of (
    part "CLI" cli "#a47b6c71a4c59354a3f9c0cd9bd011807"
    ∷ part "cli_id" cli "#a24d0af4957baaeafab2a5f689e20b57d"
    ∷ part "log" cli "#a1ac0d519304d97b3be094979fcfe6e44"
    ∷ part "log_error" cli "#aee4e23e87ebd3cf3909f1760a5fda04b"
    ∷ part "logln" cli "#abe1e5a3cc2cbd55c0704e9b13842e436"
    ∷ [])

-- docs/documentation/html/dc/db1/class_communication_1_1_server.js
abbrev pub class_communication_1_1_server : Rows
class_communication_1_1_server = rows_of (
    part "Server" server "#a3571bd6913a55394cde0ced0f404685d"
    ∷ part "~Server" server "#aef74c77dc02436ee1dc6d16310837b12"
    ∷ part "m_client" server "#a3f85e046ae47cdb26aa7d1497dcd64c3"
    ∷ part "m_fd" server "#a3acba24524ce792ff0e8adc5f519c79d"
    ∷ [])

-- docs/documentation/html/de/d94/classlsl_1_1lost__error.js
abbrev pub classlsl_1_1lost__error : Rows
classlsl_1_1lost__error = rows_of (
    plain "lost_error" "de/d94/classlsl_1_1lost__error.html#a997ff6ff1ecd4fd33cda631b975d386e" ∷ [])

-- docs/documentation/html/df/dcd/class_communication_1_1_client.js
abbrev pub class_communication_1_1_client : Rows
class_communication_1_1_client = rows_of (
    holds "Mode" "df/dcd/class_communication_1_1_client.html#ad5719d96b9a023b9d6e6bfb3c917f6dd" (
      part "SERIAL" client "#ad5719d96b9a023b9d6e6bfb3c917f6ddae1bf4306016574e334b5aec78b2efaf2"
      ∷ part "TCP" client "#ad5719d96b9a023b9d6e6bfb3c917f6dda9729ef4069d34c1034ca97789e50b03f"
      ∷ part "UDP" client "#ad5719d96b9a023b9d6e6bfb3c917f6dda1b32b1dce6fdf665a44847863b977720"
      ∷ [])
    ∷ part "Client" client "#aea957bd14f311e1f6621e7611022b5c4"
    ∷ part "~Client" client "#a77c290beabfe76ea97a9027d66a04f7c"
    ∷ part "close_connection" client "#aa448a9277e9bed8326f74ad81062ab77"
    ∷ part "CRC" client "#a7020654cbb2e6f707fe637fc84d8328c"
    ∷ part "from_socket" client "#a487e227b474999f2ff9f096f1a5784ad"
    ∷ part "get_stat" client "#a2508e02531cf7e8dd258677b7b1490e9"
    ∷ part "is_connected" client "#a5afbc51613d3caf88641d04e81837467"
    ∷ part "open_connection" client "#a66336ae23ea502a9395010407a952664"
    ∷ part "readS" client "#a73fec58648938364cd65d690f50bd7ec"
    ∷ part "writeS" client "#a32bd631bcb3b0a3476b146a0cc49332d"
    ∷ [])

-- docs/documentation/html/hierarchy.js
abbrev pub hierarchy : Rows
hierarchy = rows_of (
    holds "ESC::CLI" "dc/d44/class_e_s_c_1_1_c_l_i.html" (
      part "Communication::Client" client ""
      ∷ part "Communication::HTTP_client" http ""
      ∷ part "Communication::Server" server ""
      ∷ [])
    ∷ part "lsl::continuous_resolver" resolver ""
    ∷ holds "std::runtime_error" "" (
        plain "lsl::lost_error" "de/d94/classlsl_1_1lost__error.html"
        ∷ plain "lsl::timeout_error" "d4/d01/classlsl_1_1timeout__error.html"
        ∷ [])
    ∷ part "lsl::stream_info" info ""
    ∷ part "lsl::stream_inlet" inlet ""
    ∷ part "lsl::stream_outlet" outlet ""
    ∷ part "lsl::xml_element" xml ""
    ∷ [])

abbrev pub classes : List Script
classes =
    (record {
      name = codes "annotated_dup";
      variable = codes "annotated_dup";
      children = annotated_dup;
    })
    ∷ (record {
      name = codes "d1/d6a/classlsl_1_1stream__info";
      variable = codes "classlsl_1_1stream__info";
      children = classlsl_1_1stream__info;
    })
    ∷ (record {
      name = codes "d4/d01/classlsl_1_1timeout__error";
      variable = codes "classlsl_1_1timeout__error";
      children = classlsl_1_1timeout__error;
    })
    ∷ (record {
      name = codes "d4/d27/classlsl_1_1continuous__resolver";
      variable = codes "classlsl_1_1continuous__resolver";
      children = classlsl_1_1continuous__resolver;
    })
    ∷ (record {
      name = codes "d6/d55/classlsl_1_1stream__outlet";
      variable = codes "classlsl_1_1stream__outlet";
      children = classlsl_1_1stream__outlet;
    })
    ∷ (record {
      name = codes "d6/dbd/classlsl_1_1stream__inlet";
      variable = codes "classlsl_1_1stream__inlet";
      children = classlsl_1_1stream__inlet;
    })
    ∷ (record {
      name = codes "d7/d60/class_communication_1_1_h_t_t_p__client";
      variable = codes "class_communication_1_1_h_t_t_p__client";
      children = class_communication_1_1_h_t_t_p__client;
    })
    ∷ (record {
      name = codes "d9/d90/classlsl_1_1xml__element";
      variable = codes "classlsl_1_1xml__element";
      children = classlsl_1_1xml__element;
    })
    ∷ (record {
      name = codes "dc/d44/class_e_s_c_1_1_c_l_i";
      variable = codes "class_e_s_c_1_1_c_l_i";
      children = class_e_s_c_1_1_c_l_i;
    })
    ∷ (record {
      name = codes "dc/db1/class_communication_1_1_server";
      variable = codes "class_communication_1_1_server";
      children = class_communication_1_1_server;
    })
    ∷ (record {
      name = codes "de/d94/classlsl_1_1lost__error";
      variable = codes "classlsl_1_1lost__error";
      children = classlsl_1_1lost__error;
    })
    ∷ (record {
      name = codes "df/dcd/class_communication_1_1_client";
      variable = codes "class_communication_1_1_client";
      children = class_communication_1_1_client;
    })
    ∷ (record { name = codes "hierarchy"; variable = codes "hierarchy"; children = hierarchy })
    ∷ []
