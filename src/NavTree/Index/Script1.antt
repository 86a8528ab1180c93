-- ===== src/NavTree/Index/Script1.antt =====
-- The object of docs/documentation/html/navtreeindex1.js.
use com_client.Base.{codes, [], ◌∷◌}
use com_client.NavTree.Index.{SubIndex, at}
use com_client.NavTree.Pages.{http, inlet, lsl_c, readme_iseq, xml}

abbrev pub nav_tree_index1 : SubIndex
nav_tree_index1 =
    at inlet "#a9183e81a122df862eff9ea9797c82b73" (4 ∷ 0 ∷ 2 ∷ 2 ∷ 22 ∷ [])
    ∷ at inlet "#a9603f3365093f43f9e2bae1b9e9b2cd8" (4 ∷ 0 ∷ 2 ∷ 2 ∷ 40 ∷ [])
    ∷ at inlet "#a97adf2cb7d60e4b47bf25217a2b17964" (4 ∷ 0 ∷ 2 ∷ 2 ∷ 11 ∷ [])
    ∷ at inlet "#a9ac87825319b345987fdd54e606fd56f" (4 ∷ 0 ∷ 2 ∷ 2 ∷ 16 ∷ [])
    ∷ at inlet "#aa2f2c576a6b5a3bf562878200829bb47" (4 ∷ 0 ∷ 2 ∷ 2 ∷ 14 ∷ [])
    ∷ at inlet "#aaf40ba9c127a1828933613d0f2b0fc3d" (4 ∷ 0 ∷ 2 ∷ 2 ∷ 38 ∷ [])
    ∷ at inlet "#ab14a0120e49dcd33f6df0716e6606810" (4 ∷ 0 ∷ 2 ∷ 2 ∷ 18 ∷ [])
    ∷ at inlet "#abdb890fbad785ed4bc39288fc2f47329" (4 ∷ 0 ∷ 2 ∷ 2 ∷ 10 ∷ [])
    ∷ at inlet "#ac3b37a1c2e376280c3144f422bb27d79" (4 ∷ 0 ∷ 2 ∷ 2 ∷ 1 ∷ [])
    ∷ at inlet "#ac3b8fa8912090ad6607b05cbb5848352" (4 ∷ 0 ∷ 2 ∷ 2 ∷ 42 ∷ [])
    ∷ at inlet "#acb78fe666a3be090278bc3d1f3eb7619" (4 ∷ 0 ∷ 2 ∷ 2 ∷ 23 ∷ [])
    ∷ at inlet "#acf6cdc3afdbb4c31c97fb979e4aca632" (4 ∷ 0 ∷ 2 ∷ 2 ∷ 7 ∷ [])
    ∷ at inlet "#ad84029ed0662d755b0544c7652348718" (4 ∷ 0 ∷ 2 ∷ 2 ∷ 5 ∷ [])
    ∷ at inlet "#ad86702cf94e5b0b850a2f94a228e4f98" (4 ∷ 0 ∷ 2 ∷ 2 ∷ 3 ∷ [])
    ∷ at inlet "#ae4534102453ccd98f319c746ec1de0a9" (4 ∷ 0 ∷ 2 ∷ 2 ∷ 26 ∷ [])
    ∷ at inlet "#ae895a8d5c10dc4072e969686fc402b5b" (4 ∷ 0 ∷ 2 ∷ 2 ∷ 4 ∷ [])
    ∷ at inlet "#ae8f7beaaa82d192d844abdd1531f6b9a" (4 ∷ 0 ∷ 2 ∷ 2 ∷ 20 ∷ [])
    ∷ at inlet "#af33558ccbbe57767386278d2255db1a1" (4 ∷ 0 ∷ 2 ∷ 2 ∷ 33 ∷ [])
    ∷ at inlet "#af3707fbfd5e9f54be73f9d55de55a8fc" (4 ∷ 0 ∷ 2 ∷ 2 ∷ 31 ∷ [])
    ∷ at inlet "#af9051121db6ffa6945bd2288b2bf2a15" (4 ∷ 0 ∷ 2 ∷ 2 ∷ 8 ∷ [])
    ∷ at http "" (4 ∷ 0 ∷ 0 ∷ 2 ∷ [])
    ∷ at http "#a241e78ccad7bcbc7597cb2dde7d7e402" (4 ∷ 0 ∷ 0 ∷ 2 ∷ 4 ∷ [])
    ∷ at http "#a67973a5bc8e92122bc5f98c95990bca7" (4 ∷ 0 ∷ 0 ∷ 2 ∷ 3 ∷ [])
    ∷ at http "#a6c2e964c4510d91b79ff9303b672582e" (4 ∷ 0 ∷ 0 ∷ 2 ∷ 2 ∷ [])
    ∷ at http "#a9cbcd819dda4fc2fd0c4295bce974dff" (4 ∷ 0 ∷ 0 ∷ 2 ∷ 1 ∷ [])
    ∷ at http "#af8b79c3813af9e4e2b9d2cb45b52b8c3" (4 ∷ 0 ∷ 0 ∷ 2 ∷ 0 ∷ [])
    ∷ (codes "d8/da5/com__client_8cpp.html", 5 ∷ 0 ∷ 3 ∷ 0 ∷ [])
    ∷ at readme_iseq "" (1 ∷ [])
    ∷ at readme_iseq "#autotoc_md1" (1 ∷ 0 ∷ [])
    ∷ at readme_iseq "#autotoc_md2" (1 ∷ 1 ∷ [])
    ∷ at readme_iseq "#autotoc_md3" (1 ∷ 2 ∷ [])
    ∷ at xml "" (4 ∷ 0 ∷ 2 ∷ 3 ∷ [])
    ∷ at xml "#a0c07b18ef39b7f6d683b9612e2a9104e" (4 ∷ 0 ∷ 2 ∷ 3 ∷ 21 ∷ [])
    ∷ at xml "#a100590d2a9822261a3f0b0ed7810134d" (4 ∷ 0 ∷ 2 ∷ 3 ∷ 13 ∷ [])
    ∷ at xml "#a111ef129dce406af43948d8c9b915148" (4 ∷ 0 ∷ 2 ∷ 3 ∷ 4 ∷ [])
    ∷ at xml "#a12254f735a79a11b75718fe7c28186d0" (4 ∷ 0 ∷ 2 ∷ 3 ∷ 10 ∷ [])
    ∷ at xml "#a1a5e666b35c5d7262e4ffbda86b57f73" (4 ∷ 0 ∷ 2 ∷ 3 ∷ 25 ∷ [])
    ∷ at xml "#a1bea6df95134f909611b1c40218828d7" (4 ∷ 0 ∷ 2 ∷ 3 ∷ 17 ∷ [])
    ∷ at xml "#a2e449e85b7e763b1d0db4bb19d2eb7c2" (4 ∷ 0 ∷ 2 ∷ 3 ∷ 11 ∷ [])
    ∷ at xml "#a3a3bbf2468ba3abd9309764faa61a7a4" (4 ∷ 0 ∷ 2 ∷ 3 ∷ 24 ∷ [])
    ∷ at xml "#a3e7fde09def517574df99c71a0a05d23" (4 ∷ 0 ∷ 2 ∷ 3 ∷ 16 ∷ [])
    ∷ at xml "#a6a162d1b57049f5ecab6b68207a71d53" (4 ∷ 0 ∷ 2 ∷ 3 ∷ 2 ∷ [])
    ∷ at xml "#a6fe187e03b36cf8fd5f9d3892e99453f" (4 ∷ 0 ∷ 2 ∷ 3 ∷ 22 ∷ [])
    ∷ at xml "#a70b90853b7edfaebfe69bc1103ed6b8b" (4 ∷ 0 ∷ 2 ∷ 3 ∷ 19 ∷ [])
    ∷ at xml "#a73fc3bfe22e1117907a2d80ba33d2208" (4 ∷ 0 ∷ 2 ∷ 3 ∷ 3 ∷ [])
    ∷ at xml "#a787dcaf85abcc5cd4d5f93fc80c82eb5" (4 ∷ 0 ∷ 2 ∷ 3 ∷ 7 ∷ [])
    ∷ at xml "#a78c2e0b3d7bda2b5a2d478e3c0cdc87a" (4 ∷ 0 ∷ 2 ∷ 3 ∷ 18 ∷ [])
    ∷ at xml "#a893102d2d84a444a89099f9c90cb6c31" (4 ∷ 0 ∷ 2 ∷ 3 ∷ 6 ∷ [])
    ∷ at xml "#a8ddf2b35719b273dbb5700f16a2da4e5" (4 ∷ 0 ∷ 2 ∷ 3 ∷ 23 ∷ [])
    ∷ at xml "#a9637215f616b660789696e452b0e0591" (4 ∷ 0 ∷ 2 ∷ 3 ∷ 12 ∷ [])
    ∷ at xml "#a965cfff9a29ebe6d8274f5256ff0017c" (4 ∷ 0 ∷ 2 ∷ 3 ∷ 9 ∷ [])
    ∷ at xml "#a9a2c940a06714662f3cef5e9847e8cae" (4 ∷ 0 ∷ 2 ∷ 3 ∷ 0 ∷ [])
    ∷ at xml "#ab68b7a1c63c2cb0eb4ce6361b94469b7" (4 ∷ 0 ∷ 2 ∷ 3 ∷ 8 ∷ [])
    ∷ at xml "#abd881c6c5d0d381f9efff2fc25975e7e" (4 ∷ 0 ∷ 2 ∷ 3 ∷ 15 ∷ [])
    ∷ at xml "#ac99677d44f66ba850afd9b669e26452f" (4 ∷ 0 ∷ 2 ∷ 3 ∷ 5 ∷ [])
    ∷ at xml "#ad23da57ac3a6a7f3dd849be0a8b44a47" (4 ∷ 0 ∷ 2 ∷ 3 ∷ 20 ∷ [])
    ∷ at xml "#ae3211be3c10164f366220b638a9dd200" (4 ∷ 0 ∷ 2 ∷ 3 ∷ 14 ∷ [])
    ∷ at xml "#af56c7976bb62cabc9c0ca69502063fea" (4 ∷ 0 ∷ 2 ∷ 3 ∷ 1 ∷ [])
    ∷ (codes "d9/dcd/http__client_8hpp.html", 5 ∷ 0 ∷ 1 ∷ 1 ∷ [])
    ∷ (codes "d9/dcd/http__client_8hpp_source.html", 5 ∷ 0 ∷ 1 ∷ 1 ∷ [])
    ∷ (codes "db/d7d/namespace_communication.html", 3 ∷ 0 ∷ 0 ∷ [])
    ∷ (codes "db/df0/str_a_n_s_iseq_8cpp_8o_8d.html", 5 ∷ 0 ∷ 0 ∷ 1 ∷ 0 ∷ 0 ∷ 0 ∷ 0 ∷ 0 ∷ [])
    ∷ at lsl_c "" (5 ∷ 0 ∷ 4 ∷ 0 ∷ 0 ∷ 0 ∷ [])
    ∷ at lsl_c "#a005657d00b4c10bcf9dbb0d603dd7494" (5 ∷ 0 ∷ 4 ∷ 0 ∷ 0 ∷ 0 ∷ 114 ∷ [])
    ∷ at lsl_c "#a03d1dce2aaa12d3787d0f501c50fe06f" (5 ∷ 0 ∷ 4 ∷ 0 ∷ 0 ∷ 0 ∷ 137 ∷ [])
    ∷ at lsl_c "#a0416859f36f40e91d12cd07aafb34eaa" (5 ∷ 0 ∷ 4 ∷ 0 ∷ 0 ∷ 0 ∷ 3 ∷ [])
    ∷ at lsl_c "#a0574687b034da933fb4832caa3d04f92" (5 ∷ 0 ∷ 4 ∷ 0 ∷ 0 ∷ 0 ∷ 85 ∷ [])
    ∷ at lsl_c "#a0588f316a9e406e61f1507d8f756529f" (5 ∷ 0 ∷ 4 ∷ 0 ∷ 0 ∷ 0 ∷ 30 ∷ [])
    ∷ at lsl_c "#a0ae72ee5f88fe45e1fdb04ccf8d38ef3" (5 ∷ 0 ∷ 4 ∷ 0 ∷ 0 ∷ 0 ∷ 107 ∷ [])
    ∷ at lsl_c "#a0be546ad8637f4a2fd5aee4d5bae2401" (5 ∷ 0 ∷ 4 ∷ 0 ∷ 0 ∷ 0 ∷ 170 ∷ [])
    ∷ at lsl_c "#a0be58f7d496eb06924ee1825219c6e50" (5 ∷ 0 ∷ 4 ∷ 0 ∷ 0 ∷ 0 ∷ 12 ∷ [])
    ∷ at lsl_c "#a0be58f7d496eb06924ee1825219c6e50a41650b5604c0b7392b79d383a7f59a68"
        (5 ∷ 0 ∷ 4 ∷ 0 ∷ 0 ∷ 0 ∷ 12 ∷ 1 ∷ [])
    ∷ at lsl_c "#a0be58f7d496eb06924ee1825219c6e50a600b03c28953fa600d6c4e544a14fd99"
        (5 ∷ 0 ∷ 4 ∷ 0 ∷ 0 ∷ 0 ∷ 12 ∷ 4 ∷ [])
    ∷ at lsl_c "#a0be58f7d496eb06924ee1825219c6e50aa463db40788d297314191e0b41081feb"
        (5 ∷ 0 ∷ 4 ∷ 0 ∷ 0 ∷ 0 ∷ 12 ∷ 2 ∷ [])
    ∷ at lsl_c "#a0be58f7d496eb06924ee1825219c6e50ad4626ba223d8c0b1535074752b0a0463"
        (5 ∷ 0 ∷ 4 ∷ 0 ∷ 0 ∷ 0 ∷ 12 ∷ 3 ∷ [])
    ∷ at lsl_c "#a0be58f7d496eb06924ee1825219c6e50ae6bc06b8e33c37c36c1edae45b4778c1"
        (5 ∷ 0 ∷ 4 ∷ 0 ∷ 0 ∷ 0 ∷ 12 ∷ 0 ∷ [])
    ∷ at lsl_c "#a0d7adeba028fb332270548faec0c61a1" (5 ∷ 0 ∷ 4 ∷ 0 ∷ 0 ∷ 0 ∷ 70 ∷ [])
    ∷ at lsl_c "#a0d9396b1e4a12269d480762151e085f7" (5 ∷ 0 ∷ 4 ∷ 0 ∷ 0 ∷ 0 ∷ 98 ∷ [])
    ∷ at lsl_c "#a0effb3c0c3ea96a144d3f13265d7d588" (5 ∷ 0 ∷ 4 ∷ 0 ∷ 0 ∷ 0 ∷ 156 ∷ [])
    ∷ at lsl_c "#a15e67770c35aee6028082d73cda42fee" (5 ∷ 0 ∷ 4 ∷ 0 ∷ 0 ∷ 0 ∷ 23 ∷ [])
    ∷ at lsl_c "#a191171b4aae05abeae2d4172fc500795" (5 ∷ 0 ∷ 4 ∷ 0 ∷ 0 ∷ 0 ∷ 101 ∷ [])
    ∷ at lsl_c "#a1a0f09509cfc4e87346a15216fa852c6" (5 ∷ 0 ∷ 4 ∷ 0 ∷ 0 ∷ 0 ∷ 141 ∷ [])
    ∷ at lsl_c "#a1cdbc26daae8f03a632bbc69ca7262c5" (5 ∷ 0 ∷ 4 ∷ 0 ∷ 0 ∷ 0 ∷ 164 ∷ [])
    ∷ at lsl_c "#a1e444e438b037d8a1363b1a74568976c" (5 ∷ 0 ∷ 4 ∷ 0 ∷ 0 ∷ 0 ∷ 100 ∷ [])
    ∷ at lsl_c "#a224bb668fb637074adbcf301208c3052" (5 ∷ 0 ∷ 4 ∷ 0 ∷ 0 ∷ 0 ∷ 133 ∷ [])
    ∷ at lsl_c "#a227534e78fd4bbdf473ad7796da49377" (5 ∷ 0 ∷ 4 ∷ 0 ∷ 0 ∷ 0 ∷ 96 ∷ [])
    ∷ at lsl_c "#a22a7097dedf222014e6b878f3870b0fa" (5 ∷ 0 ∷ 4 ∷ 0 ∷ 0 ∷ 0 ∷ 26 ∷ [])
    ∷ at lsl_c "#a23a41b710063ea717b411255af956c8c" (5 ∷ 0 ∷ 4 ∷ 0 ∷ 0 ∷ 0 ∷ 99 ∷ [])
    ∷ at lsl_c "#a2461080c7a369e91c1ac1ee24c217d4f" (5 ∷ 0 ∷ 4 ∷ 0 ∷ 0 ∷ 0 ∷ 33 ∷ [])
    ∷ at lsl_c "#a281c387af4465c231abb4daed25431b3" (5 ∷ 0 ∷ 4 ∷ 0 ∷ 0 ∷ 0 ∷ 148 ∷ [])
    ∷ at lsl_c "#a2a69d88399fded37ac1f83a76255b464" (5 ∷ 0 ∷ 4 ∷ 0 ∷ 0 ∷ 0 ∷ 139 ∷ [])
    ∷ at lsl_c "#a2af93b773f826f19f1a9dd28d5db0fd9" (5 ∷ 0 ∷ 4 ∷ 0 ∷ 0 ∷ 0 ∷ 64 ∷ [])
    ∷ at lsl_c "#a2b4dd3c7f41dd81766cdbfe7048fabd9" (5 ∷ 0 ∷ 4 ∷ 0 ∷ 0 ∷ 0 ∷ 140 ∷ [])
    ∷ at lsl_c "#a2bb75ed52221f51f0bbb6bcbcd5049e4" (5 ∷ 0 ∷ 4 ∷ 0 ∷ 0 ∷ 0 ∷ 87 ∷ [])
    ∷ at lsl_c "#a2d42a5d991505811d98ba04c6319f41b" (5 ∷ 0 ∷ 4 ∷ 0 ∷ 0 ∷ 0 ∷ 166 ∷ [])
    ∷ at lsl_c "#a2e1505acff3a75a3e93a60ef4684456b" (5 ∷ 0 ∷ 4 ∷ 0 ∷ 0 ∷ 0 ∷ 126 ∷ [])
    ∷ at lsl_c "#a32e4ed2d5e4d064460f88d06fdc0b2d8" (5 ∷ 0 ∷ 4 ∷ 0 ∷ 0 ∷ 0 ∷ 151 ∷ [])
    ∷ at lsl_c "#a337c1cf22b439b511e8ee6238189f7d6" (5 ∷ 0 ∷ 4 ∷ 0 ∷ 0 ∷ 0 ∷ 125 ∷ [])
    ∷ at lsl_c "#a339bd96520acc8d5c42fc3c5ab79fa45" (5 ∷ 0 ∷ 4 ∷ 0 ∷ 0 ∷ 0 ∷ 161 ∷ [])
    ∷ at lsl_c "#a356ab88fcd5f5c52a95549b1c8c2d4ed" (5 ∷ 0 ∷ 4 ∷ 0 ∷ 0 ∷ 0 ∷ 77 ∷ [])
    ∷ at lsl_c "#a36fa9d4e9c7c817547decef38cd9e07e" (5 ∷ 0 ∷ 4 ∷ 0 ∷ 0 ∷ 0 ∷ 20 ∷ [])
    ∷ at lsl_c "#a3715850e6e31ed2f6b0767aa42589478" (5 ∷ 0 ∷ 4 ∷ 0 ∷ 0 ∷ 0 ∷ 76 ∷ [])
    ∷ at lsl_c "#a381b60fcb6379eacda3276218751290c" (5 ∷ 0 ∷ 4 ∷ 0 ∷ 0 ∷ 0 ∷ 49 ∷ [])
    ∷ at lsl_c "#a3b6c842b79ce6040d5fae9ee5b06a705" (5 ∷ 0 ∷ 4 ∷ 0 ∷ 0 ∷ 0 ∷ 145 ∷ [])
    ∷ at lsl_c "#a3ce11253225a50b371cc1f33a348271f" (5 ∷ 0 ∷ 4 ∷ 0 ∷ 0 ∷ 0 ∷ 116 ∷ [])
    ∷ at lsl_c "#a3d5fb80bb339d9590959327802d9f869" (5 ∷ 0 ∷ 4 ∷ 0 ∷ 0 ∷ 0 ∷ 29 ∷ [])
    ∷ at lsl_c "#a3d8187c61f5dd8471e5c00610103cdee" (5 ∷ 0 ∷ 4 ∷ 0 ∷ 0 ∷ 0 ∷ 130 ∷ [])
    ∷ at lsl_c "#a3f6a22c686a346da77e03863b26c3fe9" (5 ∷ 0 ∷ 4 ∷ 0 ∷ 0 ∷ 0 ∷ 94 ∷ [])
    ∷ at lsl_c "#a40490a0b61d90e5ecbc3265098818851" (5 ∷ 0 ∷ 4 ∷ 0 ∷ 0 ∷ 0 ∷ 59 ∷ [])
    ∷ at lsl_c "#a41474948cae5d78c552e3a98d5ecd5bc" (5 ∷ 0 ∷ 4 ∷ 0 ∷ 0 ∷ 0 ∷ 68 ∷ [])
    ∷ at lsl_c "#a43928c1354e8539b4d9b40310912e9c1" (5 ∷ 0 ∷ 4 ∷ 0 ∷ 0 ∷ 0 ∷ 91 ∷ [])
    ∷ at lsl_c "#a43f78dccab0a194c987b357a870e9fae" (5 ∷ 0 ∷ 4 ∷ 0 ∷ 0 ∷ 0 ∷ 56 ∷ [])
    ∷ at lsl_c "#a4404040430341459d37fdde84b590cba" (5 ∷ 0 ∷ 4 ∷ 0 ∷ 0 ∷ 0 ∷ 81 ∷ [])
    ∷ at lsl_c "#a4514f8ed63874d11e756a59d99b0326d" (5 ∷ 0 ∷ 4 ∷ 0 ∷ 0 ∷ 0 ∷ 21 ∷ [])
    ∷ at lsl_c "#a45543d906bb6b91b375e6c170da9d254" (5 ∷ 0 ∷ 4 ∷ 0 ∷ 0 ∷ 0 ∷ 162 ∷ [])
    ∷ at lsl_c "#a4745191dd3eef55e228ad39275bf937c" (5 ∷ 0 ∷ 4 ∷ 0 ∷ 0 ∷ 0 ∷ 108 ∷ [])
    ∷ at lsl_c "#a4a39988b3987aa24d85f6f243c9cec9b" (5 ∷ 0 ∷ 4 ∷ 0 ∷ 0 ∷ 0 ∷ 103 ∷ [])
    ∷ at lsl_c "#a4c8de5b8ac7e0c9400082a90b398a9e6" (5 ∷ 0 ∷ 4 ∷ 0 ∷ 0 ∷ 0 ∷ 50 ∷ [])
    ∷ at lsl_c "#a4ccd428e2def15780552ab5550d2efaa" (5 ∷ 0 ∷ 4 ∷ 0 ∷ 0 ∷ 0 ∷ 79 ∷ [])
    ∷ at lsl_c "#a504a4265f1cd530d141f92d1459f8fd2" (5 ∷ 0 ∷ 4 ∷ 0 ∷ 0 ∷ 0 ∷ 93 ∷ [])
    ∷ at lsl_c "#a50600b670f8e2a5be27cb7b6eca885f9" (5 ∷ 0 ∷ 4 ∷ 0 ∷ 0 ∷ 0 ∷ 109 ∷ [])
    ∷ at lsl_c "#a50d0fd7851d0c963c18b5793da161aa4" (5 ∷ 0 ∷ 4 ∷ 0 ∷ 0 ∷ 0 ∷ 61 ∷ [])
    ∷ at lsl_c "#a51f3632a013dff65898f168529a70b07" (5 ∷ 0 ∷ 4 ∷ 0 ∷ 0 ∷ 0 ∷ 86 ∷ [])
    ∷ at lsl_c "#a5282bfa3df16b30eb308375a45062cfc" (5 ∷ 0 ∷ 4 ∷ 0 ∷ 0 ∷ 0 ∷ 2 ∷ [])
    ∷ at lsl_c "#a52b66d7a75574d98e8709d1734fdd113" (5 ∷ 0 ∷ 4 ∷ 0 ∷ 0 ∷ 0 ∷ 44 ∷ [])
    ∷ at lsl_c "#a53de14eb7cebcda0a32a545e4759ce3f" (5 ∷ 0 ∷ 4 ∷ 0 ∷ 0 ∷ 0 ∷ 28 ∷ [])
    ∷ at lsl_c "#a5517cad6ae3f24aa079a0f2a67654226" (5 ∷ 0 ∷ 4 ∷ 0 ∷ 0 ∷ 0 ∷ 40 ∷ [])
    ∷ at lsl_c "#a55229fcb1ff8d014f5459ee9526bc58a" (5 ∷ 0 ∷ 4 ∷ 0 ∷ 0 ∷ 0 ∷ 14 ∷ [])
    ∷ at lsl_c "#a55bca1a4bdd96a5e8bc967c3a2ff1dab" (5 ∷ 0 ∷ 4 ∷ 0 ∷ 0 ∷ 0 ∷ 168 ∷ [])
    ∷ at lsl_c "#a58d27f330e42ef40c7b2124a396d65de" (5 ∷ 0 ∷ 4 ∷ 0 ∷ 0 ∷ 0 ∷ 78 ∷ [])
    ∷ at lsl_c "#a5a201ecffb48729d0eb0e51dba539a23" (5 ∷ 0 ∷ 4 ∷ 0 ∷ 0 ∷ 0 ∷ 97 ∷ [])
    ∷ at lsl_c "#a5a39973a0ed113c792653f8782b29906" (5 ∷ 0 ∷ 4 ∷ 0 ∷ 0 ∷ 0 ∷ 124 ∷ [])
    ∷ at lsl_c "#a5a736ebd5f1fbbd26dc5f66dcdd4edd1" (5 ∷ 0 ∷ 4 ∷ 0 ∷ 0 ∷ 0 ∷ 36 ∷ [])
    ∷ at lsl_c "#a5af95d29948ec4e56242dcf24d8c974c" (5 ∷ 0 ∷ 4 ∷ 0 ∷ 0 ∷ 0 ∷ 58 ∷ [])
    ∷ at lsl_c "#a5c391ee5eed07954daea0791fe2335fb" (5 ∷ 0 ∷ 4 ∷ 0 ∷ 0 ∷ 0 ∷ 90 ∷ [])
    ∷ at lsl_c "#a5f16f396ea43fafbad67f8cbc11cba15" (5 ∷ 0 ∷ 4 ∷ 0 ∷ 0 ∷ 0 ∷ 110 ∷ [])
    ∷ at lsl_c "#a620092f125b45938623229fee3a366f9" (5 ∷ 0 ∷ 4 ∷ 0 ∷ 0 ∷ 0 ∷ 51 ∷ [])
    ∷ at lsl_c "#a627538d2845775b858ad795745aacc3d" (5 ∷ 0 ∷ 4 ∷ 0 ∷ 0 ∷ 0 ∷ 119 ∷ [])
    ∷ at lsl_c "#a648855a9dfc987afa399260f149034b9" (5 ∷ 0 ∷ 4 ∷ 0 ∷ 0 ∷ 0 ∷ 22 ∷ [])
    ∷ at lsl_c "#a66b17ecf6f20b0d5d8f1ed78080515ba" (5 ∷ 0 ∷ 4 ∷ 0 ∷ 0 ∷ 0 ∷ 46 ∷ [])
    ∷ at lsl_c "#a6a1f820184a78a8a1b09a87a98c8dba5" (5 ∷ 0 ∷ 4 ∷ 0 ∷ 0 ∷ 0 ∷ 89 ∷ [])
    ∷ at lsl_c "#a6c36a5f5c61bb996f7dd1776283a8989" (5 ∷ 0 ∷ 4 ∷ 0 ∷ 0 ∷ 0 ∷ 19 ∷ [])
    ∷ at lsl_c "#a6e502508ea597c9f9a4a129cddd4e799" (5 ∷ 0 ∷ 4 ∷ 0 ∷ 0 ∷ 0 ∷ 142 ∷ [])
    ∷ at lsl_c "#a6e9680f770d8459406698ce71a76790c" (5 ∷ 0 ∷ 4 ∷ 0 ∷ 0 ∷ 0 ∷ 17 ∷ [])
    ∷ at lsl_c "#a6fd635c662a9c80840b53bd7c202499c" (5 ∷ 0 ∷ 4 ∷ 0 ∷ 0 ∷ 0 ∷ 9 ∷ [])
    ∷ at lsl_c "#a70a523aded3aaa76ba81aeaebb22e8df" (5 ∷ 0 ∷ 4 ∷ 0 ∷ 0 ∷ 0 ∷ 147 ∷ [])
    ∷ at lsl_c "#a72938aad4ca7af001b8a3d8d2d64fa2d" (5 ∷ 0 ∷ 4 ∷ 0 ∷ 0 ∷ 0 ∷ 149 ∷ [])
    ∷ at lsl_c "#a744c9f9300c75ab285b6fb4c3eedb89d" (5 ∷ 0 ∷ 4 ∷ 0 ∷ 0 ∷ 0 ∷ 123 ∷ [])
    ∷ at lsl_c "#a75428ff735a620f5bf39ced8528b8172" (5 ∷ 0 ∷ 4 ∷ 0 ∷ 0 ∷ 0 ∷ 122 ∷ [])
    ∷ at lsl_c "#a78b224e996f3a73b35f4c5d73d721366" (5 ∷ 0 ∷ 4 ∷ 0 ∷ 0 ∷ 0 ∷ 6 ∷ [])
    ∷ at lsl_c "#a7991bcb18cd7dbe8722716e2c3fb4924" (5 ∷ 0 ∷ 4 ∷ 0 ∷ 0 ∷ 0 ∷ 115 ∷ [])
    ∷ at lsl_c "#a79cca3f3f75ae677d973758b8cfd8295" (5 ∷ 0 ∷ 4 ∷ 0 ∷ 0 ∷ 0 ∷ 131 ∷ [])
    ∷ at lsl_c "#a7ac39c444784b1956929937d983a27ff" (5 ∷ 0 ∷ 4 ∷ 0 ∷ 0 ∷ 0 ∷ 65 ∷ [])
    ∷ at lsl_c "#a7c11ff3b7dc0d5f18d51f0104ac6e281" (5 ∷ 0 ∷ 4 ∷ 0 ∷ 0 ∷ 0 ∷ 63 ∷ [])
    ∷ at lsl_c "#a7cc5ac6b271cc9b2afa180604faa91ef" (5 ∷ 0 ∷ 4 ∷ 0 ∷ 0 ∷ 0 ∷ 118 ∷ [])
    ∷ at lsl_c "#a7d4458adb9735400f666935f977e03f5" (5 ∷ 0 ∷ 4 ∷ 0 ∷ 0 ∷ 0 ∷ 82 ∷ [])
    ∷ at lsl_c "#a7f9691f7d2fd38874cefb8e2d75084db" (5 ∷ 0 ∷ 4 ∷ 0 ∷ 0 ∷ 0 ∷ 52 ∷ [])
    ∷ at lsl_c "#a80f314d925564890ee64b1c2a699bdb0" (5 ∷ 0 ∷ 4 ∷ 0 ∷ 0 ∷ 0 ∷ 102 ∷ [])
    ∷ at lsl_c "#a819b6e50f2ba340686fb5d537a2548b8" (5 ∷ 0 ∷ 4 ∷ 0 ∷ 0 ∷ 0 ∷ 73 ∷ [])
    ∷ at lsl_c "#a8331a69a3ea3978a1f04e80e6234a4c8" (5 ∷ 0 ∷ 4 ∷ 0 ∷ 0 ∷ 0 ∷ 66 ∷ [])
    ∷ at lsl_c "#a854a222cf8909b0b7ec901adbd5f6b13" (5 ∷ 0 ∷ 4 ∷ 0 ∷ 0 ∷ 0 ∷ 154 ∷ [])
    ∷ at lsl_c "#a8575e959edab9eb4be131982dd260acd" (5 ∷ 0 ∷ 4 ∷ 0 ∷ 0 ∷ 0 ∷ 1 ∷ [])
    ∷ at lsl_c "#a864e000ed999639b3ba785cd6a076c52" (5 ∷ 0 ∷ 4 ∷ 0 ∷ 0 ∷ 0 ∷ 92 ∷ [])
    ∷ at lsl_c "#a86691767b61f0731a3e0668efd42c224" (5 ∷ 0 ∷ 4 ∷ 0 ∷ 0 ∷ 0 ∷ 43 ∷ [])
    ∷ at lsl_c "#a885c3584f6f6068680bb2b61ebf387e5" (5 ∷ 0 ∷ 4 ∷ 0 ∷ 0 ∷ 0 ∷ 53 ∷ [])
    ∷ at lsl_c "#a8a64b224cd72b7226005e5dbe8c7c671" (5 ∷ 0 ∷ 4 ∷ 0 ∷ 0 ∷ 0 ∷ 120 ∷ [])
    ∷ at lsl_c "#a8b8ed17844fa3b269ac65b51c3cac7c5" (5 ∷ 0 ∷ 4 ∷ 0 ∷ 0 ∷ 0 ∷ 127 ∷ [])
    ∷ at lsl_c "#a8b8ee567d1f8adf3816f0c58a7c311da" (5 ∷ 0 ∷ 4 ∷ 0 ∷ 0 ∷ 0 ∷ 117 ∷ [])
    ∷ at lsl_c "#a8cc9b06f96e96be28e417c5b21350e4f" (5 ∷ 0 ∷ 4 ∷ 0 ∷ 0 ∷ 0 ∷ 167 ∷ [])
    ∷ at lsl_c "#a8e049d82680d0fb6f803b9c604567516" (5 ∷ 0 ∷ 4 ∷ 0 ∷ 0 ∷ 0 ∷ 95 ∷ [])
    ∷ at lsl_c "#a8e0d0447b9598bfe0e46a6166de51cc3" (5 ∷ 0 ∷ 4 ∷ 0 ∷ 0 ∷ 0 ∷ 165 ∷ [])
    ∷ at lsl_c "#a8eaeec5c8e913bd5eb1e3419a4f56e31" (5 ∷ 0 ∷ 4 ∷ 0 ∷ 0 ∷ 0 ∷ 71 ∷ [])
    ∷ at lsl_c "#a8f6958b1292ad3b59157c290bfce552d" (5 ∷ 0 ∷ 4 ∷ 0 ∷ 0 ∷ 0 ∷ 48 ∷ [])
    ∷ at lsl_c "#a91a947d9280a61e1e5e73d166a259385" (5 ∷ 0 ∷ 4 ∷ 0 ∷ 0 ∷ 0 ∷ 105 ∷ [])
    ∷ at lsl_c "#a9246faefd09869849b726df268042333" (5 ∷ 0 ∷ 4 ∷ 0 ∷ 0 ∷ 0 ∷ 13 ∷ [])
    ∷ at lsl_c "#a9246faefd09869849b726df268042333a10e08b294e3583a6e1892da753137445"
        (5 ∷ 0 ∷ 4 ∷ 0 ∷ 0 ∷ 0 ∷ 13 ∷ 0 ∷ [])
    ∷ at lsl_c "#a9246faefd09869849b726df268042333a21f46ef0bbdba358fabe116ae1559c87"
        (5 ∷ 0 ∷ 4 ∷ 0 ∷ 0 ∷ 0 ∷ 13 ∷ 2 ∷ [])
    ∷ at lsl_c "#a9246faefd09869849b726df268042333ad36e527d8a75f2ef42d48311bbd605c7"
        (5 ∷ 0 ∷ 4 ∷ 0 ∷ 0 ∷ 0 ∷ 13 ∷ 3 ∷ [])
    ∷ at lsl_c "#a9246faefd09869849b726df268042333ae6bdb3d07024fa143a22417546496828"
        (5 ∷ 0 ∷ 4 ∷ 0 ∷ 0 ∷ 0 ∷ 13 ∷ 1 ∷ [])
    ∷ at lsl_c "#a9246faefd09869849b726df268042333ae75b6de5e0af2a7c1377c11fafefbb02"
        (5 ∷ 0 ∷ 4 ∷ 0 ∷ 0 ∷ 0 ∷ 13 ∷ 5 ∷ [])
    ∷ at lsl_c "#a9246faefd09869849b726df268042333af3444351bc66b5a0a8a758774de84438"
        (5 ∷ 0 ∷ 4 ∷ 0 ∷ 0 ∷ 0 ∷ 13 ∷ 4 ∷ [])
    ∷ at lsl_c "#a96bba791d4bb29acc1b0d9428a6b5edd" (5 ∷ 0 ∷ 4 ∷ 0 ∷ 0 ∷ 0 ∷ 83 ∷ [])
    ∷ at lsl_c "#a96ec833e4b9e6ee9c263bd903f2f7241" (5 ∷ 0 ∷ 4 ∷ 0 ∷ 0 ∷ 0 ∷ 169 ∷ [])
    ∷ at lsl_c "#a98b8df791e7e9d415098aafcb06b3d93" (5 ∷ 0 ∷ 4 ∷ 0 ∷ 0 ∷ 0 ∷ 47 ∷ [])
    ∷ at lsl_c "#a9a6e5c2bcf2aa1555c30996d536e53ad" (5 ∷ 0 ∷ 4 ∷ 0 ∷ 0 ∷ 0 ∷ 67 ∷ [])
    ∷ at lsl_c "#a9a8d74a7fef9cdf68bd3a1ecf76109fa" (5 ∷ 0 ∷ 4 ∷ 0 ∷ 0 ∷ 0 ∷ 146 ∷ [])
    ∷ at lsl_c "#a9af4120da145ae6ebb904ad0b3bc1b43" (5 ∷ 0 ∷ 4 ∷ 0 ∷ 0 ∷ 0 ∷ 150 ∷ [])
    ∷ at lsl_c "#a9e191a0b0bac97c3f440c553241a623b" (5 ∷ 0 ∷ 4 ∷ 0 ∷ 0 ∷ 0 ∷ 84 ∷ [])
    ∷ at lsl_c "#a9e5585ae34b000bcad7a3ea5ab36a0e1" (5 ∷ 0 ∷ 4 ∷ 0 ∷ 0 ∷ 0 ∷ 24 ∷ [])
    ∷ at lsl_c "#aa08759dc9e3d361fbc26557fc7a42279" (5 ∷ 0 ∷ 4 ∷ 0 ∷ 0 ∷ 0 ∷ 138 ∷ [])
    ∷ at lsl_c "#aa48e803c7206a2b9a9154486c8b59d3e" (5 ∷ 0 ∷ 4 ∷ 0 ∷ 0 ∷ 0 ∷ 158 ∷ [])
    ∷ at lsl_c "#aa856d09f05c334cb8472fefea485de1f" (5 ∷ 0 ∷ 4 ∷ 0 ∷ 0 ∷ 0 ∷ 163 ∷ [])
    ∷ at lsl_c "#aa85ef584982dd371ca580e5103cef633" (5 ∷ 0 ∷ 4 ∷ 0 ∷ 0 ∷ 0 ∷ 37 ∷ [])
    ∷ at lsl_c "#aa9716749d011b4f5c74e3eb4b7f86e6b" (5 ∷ 0 ∷ 4 ∷ 0 ∷ 0 ∷ 0 ∷ 128 ∷ [])
    ∷ at lsl_c "#aaa63607a0162e2ab9e62dffc7874d716" (5 ∷ 0 ∷ 4 ∷ 0 ∷ 0 ∷ 0 ∷ 31 ∷ [])
    ∷ at lsl_c "#aad62f3e27452d2944cd8cb443fc11741" (5 ∷ 0 ∷ 4 ∷ 0 ∷ 0 ∷ 0 ∷ 135 ∷ [])
    ∷ at lsl_c "#aae3594f14dbcf50ea012d89403f5d57c" (5 ∷ 0 ∷ 4 ∷ 0 ∷ 0 ∷ 0 ∷ 38 ∷ [])
    ∷ at lsl_c "#aafd0ef1813e8be84a1420c4f1df64615" (5 ∷ 0 ∷ 4 ∷ 0 ∷ 0 ∷ 0 ∷ 0 ∷ [])
    ∷ at lsl_c "#ab0b1ae6dcb03612f18aa37e7aef2b2e0" (5 ∷ 0 ∷ 4 ∷ 0 ∷ 0 ∷ 0 ∷ 75 ∷ [])
    ∷ at lsl_c "#ab174601268a7f0a9b60223510ba7d3b8" (5 ∷ 0 ∷ 4 ∷ 0 ∷ 0 ∷ 0 ∷ 10 ∷ [])
    ∷ at lsl_c "#ab3acfb108aa4260818588e75d61307c2" (5 ∷ 0 ∷ 4 ∷ 0 ∷ 0 ∷ 0 ∷ 143 ∷ [])
    ∷ at lsl_c "#ab46eddb74ca540d49497330b132dbff1" (5 ∷ 0 ∷ 4 ∷ 0 ∷ 0 ∷ 0 ∷ 4 ∷ [])
    ∷ at lsl_c "#ab517961395988205f230c14c94cf9506" (5 ∷ 0 ∷ 4 ∷ 0 ∷ 0 ∷ 0 ∷ 41 ∷ [])
    ∷ at lsl_c "#ab5830dfa3831a239eabae33504633849" (5 ∷ 0 ∷ 4 ∷ 0 ∷ 0 ∷ 0 ∷ 57 ∷ [])
    ∷ at lsl_c "#ab5f5986ebe4bbf87d97d299b0c1213ea" (5 ∷ 0 ∷ 4 ∷ 0 ∷ 0 ∷ 0 ∷ 55 ∷ [])
    ∷ at lsl_c "#ab647f7d988094c0f18d66619c4a93e68" (5 ∷ 0 ∷ 4 ∷ 0 ∷ 0 ∷ 0 ∷ 113 ∷ [])
    ∷ at lsl_c "#ab94fcb1a355dbfc31f9dd3e0d699e6d6" (5 ∷ 0 ∷ 4 ∷ 0 ∷ 0 ∷ 0 ∷ 5 ∷ [])
    ∷ at lsl_c "#abac187f58d92db9130d18139d72064a9" (5 ∷ 0 ∷ 4 ∷ 0 ∷ 0 ∷ 0 ∷ 129 ∷ [])
    ∷ at lsl_c "#abc52ee7be11ed9788f5c82d157e0c1c1" (5 ∷ 0 ∷ 4 ∷ 0 ∷ 0 ∷ 0 ∷ 16 ∷ [])
    ∷ at lsl_c "#abc5a012ac671893b58d38d81b4433520" (5 ∷ 0 ∷ 4 ∷ 0 ∷ 0 ∷ 0 ∷ 144 ∷ [])
    ∷ at lsl_c "#abc993331c3f01c1d3ebb06e69821b009" (5 ∷ 0 ∷ 4 ∷ 0 ∷ 0 ∷ 0 ∷ 69 ∷ [])
    ∷ at lsl_c "#ac0ce4de263cd07fc4e3b1808e784693f" (5 ∷ 0 ∷ 4 ∷ 0 ∷ 0 ∷ 0 ∷ 45 ∷ [])
    ∷ at lsl_c "#ac15f1512c5195e6d671d49a17885e119" (5 ∷ 0 ∷ 4 ∷ 0 ∷ 0 ∷ 0 ∷ 54 ∷ [])
    ∷ at lsl_c "#ac2fa5d87f7c6c5343ab9a6f678229f62" (5 ∷ 0 ∷ 4 ∷ 0 ∷ 0 ∷ 0 ∷ 159 ∷ [])
    ∷ at lsl_c "#ac3d742ffc5b4f8a941835df6d2369547" (5 ∷ 0 ∷ 4 ∷ 0 ∷ 0 ∷ 0 ∷ 42 ∷ [])
    ∷ at lsl_c "#ac6eb5ec72140ba4ae26c80112ccaac52" (5 ∷ 0 ∷ 4 ∷ 0 ∷ 0 ∷ 0 ∷ 152 ∷ [])
    ∷ at lsl_c "#ac704c51be54e926f6dcc8dc7d04d8b8b" (5 ∷ 0 ∷ 4 ∷ 0 ∷ 0 ∷ 0 ∷ 157 ∷ [])
    ∷ at lsl_c "#ac81be759a83eb75c357bfb820e83cd12" (5 ∷ 0 ∷ 4 ∷ 0 ∷ 0 ∷ 0 ∷ 104 ∷ [])
    ∷ at lsl_c "#ac9b53eec106d81130b5aa2341ecf8bd2" (5 ∷ 0 ∷ 4 ∷ 0 ∷ 0 ∷ 0 ∷ 155 ∷ [])
    ∷ at lsl_c "#ace8095ccb59a3857b0ff42511c72ff9a" (5 ∷ 0 ∷ 4 ∷ 0 ∷ 0 ∷ 0 ∷ 35 ∷ [])
    ∷ at lsl_c "#acffa311b660404321a2e00b9cd4e495f" (5 ∷ 0 ∷ 4 ∷ 0 ∷ 0 ∷ 0 ∷ 34 ∷ [])
    ∷ at lsl_c "#ad0b8e9c8e62e471dfbc098f4293d6ece" (5 ∷ 0 ∷ 4 ∷ 0 ∷ 0 ∷ 0 ∷ 88 ∷ [])
    ∷ at lsl_c "#ad346feb32bddd136c3f7797e45047754" (5 ∷ 0 ∷ 4 ∷ 0 ∷ 0 ∷ 0 ∷ 11 ∷ [])
    ∷ at lsl_c "#ad346feb32bddd136c3f7797e45047754a0548a6d8aa4e05f6195b7d7667b1a708"
        (5 ∷ 0 ∷ 4 ∷ 0 ∷ 0 ∷ 0 ∷ 11 ∷ 0 ∷ [])
    ∷ at lsl_c "#ad346feb32bddd136c3f7797e45047754a0cbaf0c7054a57713970489abab7fb85"
        (5 ∷ 0 ∷ 4 ∷ 0 ∷ 0 ∷ 0 ∷ 11 ∷ 7 ∷ [])
    ∷ at lsl_c "#ad346feb32bddd136c3f7797e45047754a1b18c0e17a470b9e3bcff23cf49b8d6b"
        (5 ∷ 0 ∷ 4 ∷ 0 ∷ 0 ∷ 0 ∷ 11 ∷ 5 ∷ [])
    ∷ at lsl_c "#ad346feb32bddd136c3f7797e45047754a2048ca1d716016ec3439711eaf352652"
        (5 ∷ 0 ∷ 4 ∷ 0 ∷ 0 ∷ 0 ∷ 11 ∷ 3 ∷ [])
    ∷ at lsl_c "#ad346feb32bddd136c3f7797e45047754a3286e5e97a2240d0fc4375e6eaf26291"
        (5 ∷ 0 ∷ 4 ∷ 0 ∷ 0 ∷ 0 ∷ 11 ∷ 1 ∷ [])
    ∷ at lsl_c "#ad346feb32bddd136c3f7797e45047754a8353906afd3439e2f9dc504f571a724d"
        (5 ∷ 0 ∷ 4 ∷ 0 ∷ 0 ∷ 0 ∷ 11 ∷ 2 ∷ [])
    ∷ at lsl_c "#ad346feb32bddd136c3f7797e45047754a90aad2d18937be799aca56fe80794aa5"
        (5 ∷ 0 ∷ 4 ∷ 0 ∷ 0 ∷ 0 ∷ 11 ∷ 6 ∷ [])
    ∷ at lsl_c "#ad346feb32bddd136c3f7797e45047754ab0af40c86cf7de7ff94f52006f924f3b"
        (5 ∷ 0 ∷ 4 ∷ 0 ∷ 0 ∷ 0 ∷ 11 ∷ 4 ∷ [])
    ∷ at lsl_c "#ad64f4e486c676d088eee07776dd12fac" (5 ∷ 0 ∷ 4 ∷ 0 ∷ 0 ∷ 0 ∷ 62 ∷ [])
    ∷ at lsl_c "#ad84630a74d54a33c972daa18feb78c9d" (5 ∷ 0 ∷ 4 ∷ 0 ∷ 0 ∷ 0 ∷ 27 ∷ [])
    ∷ at lsl_c "#ad8c1b9bd37107e1b19b0f7b6ea4c4bc5" (5 ∷ 0 ∷ 4 ∷ 0 ∷ 0 ∷ 0 ∷ 160 ∷ [])
    ∷ at lsl_c "#adc2bfcb8e80b50c8ee271d85f290385c" (5 ∷ 0 ∷ 4 ∷ 0 ∷ 0 ∷ 0 ∷ 121 ∷ [])
    ∷ at lsl_c "#addeff0a60f446e7f43770eb1f5e30f84" (5 ∷ 0 ∷ 4 ∷ 0 ∷ 0 ∷ 0 ∷ 32 ∷ [])
    ∷ at lsl_c "#ae0a4be2d1a0c02e8b065710d005e9c7a" (5 ∷ 0 ∷ 4 ∷ 0 ∷ 0 ∷ 0 ∷ 106 ∷ [])
    ∷ at lsl_c "#ae293c3b20d52135ebf3e3ee9cb25c364" (5 ∷ 0 ∷ 4 ∷ 0 ∷ 0 ∷ 0 ∷ 25 ∷ [])
    ∷ at lsl_c "#ae44e19988a72b422344711d5017cb420" (5 ∷ 0 ∷ 4 ∷ 0 ∷ 0 ∷ 0 ∷ 132 ∷ [])
    ∷ at lsl_c "#ae54c0127325dd0bb977a481533e8ecb9" (5 ∷ 0 ∷ 4 ∷ 0 ∷ 0 ∷ 0 ∷ 171 ∷ [])
    ∷ at lsl_c "#aea479a05659e31e6248597ac04d189ea" (5 ∷ 0 ∷ 4 ∷ 0 ∷ 0 ∷ 0 ∷ 60 ∷ [])
    ∷ at lsl_c "#aea5a6d89b758f61045830cb0f9d692b4" (5 ∷ 0 ∷ 4 ∷ 0 ∷ 0 ∷ 0 ∷ 112 ∷ [])
    ∷ at lsl_c "#aef1212b6b2cd3e3747fd6e433c30e395" (5 ∷ 0 ∷ 4 ∷ 0 ∷ 0 ∷ 0 ∷ 8 ∷ [])
    ∷ at lsl_c "#af0f78c4ea3b891919666047bf1bdbc90" (5 ∷ 0 ∷ 4 ∷ 0 ∷ 0 ∷ 0 ∷ 136 ∷ [])
    ∷ at lsl_c "#af1a263d9c5182a79fdbbbcd7067d6a93" (5 ∷ 0 ∷ 4 ∷ 0 ∷ 0 ∷ 0 ∷ 18 ∷ [])
    ∷ at lsl_c "#af1a8ca4c78fcf8571d811131ca479ba8" (5 ∷ 0 ∷ 4 ∷ 0 ∷ 0 ∷ 0 ∷ 74 ∷ [])
    ∷ at lsl_c "#af289f8a4f5efff22d10375a1bfc35f32" (5 ∷ 0 ∷ 4 ∷ 0 ∷ 0 ∷ 0 ∷ 111 ∷ [])
    ∷ at lsl_c "#af350135b29fa2aa538f8d3133b7a5ab7" (5 ∷ 0 ∷ 4 ∷ 0 ∷ 0 ∷ 0 ∷ 153 ∷ [])
    ∷ at lsl_c "#af3604739246b9b9175b990eb74fbe183" (5 ∷ 0 ∷ 4 ∷ 0 ∷ 0 ∷ 0 ∷ 134 ∷ [])
    ∷ at lsl_c "#af605351d94ec7523858646b10dbfbbd2" (5 ∷ 0 ∷ 4 ∷ 0 ∷ 0 ∷ 0 ∷ 72 ∷ [])
    ∷ []
