-- ===== src/NavTree/Index/Script0.antt =====
-- The object of docs/documentation/html/navtreeindex0.js.
use com_client.Base.{codes, [], ◌∷◌}
use com_client.NavTree.Index.{SubIndex, at}
use com_client.NavTree.Pages.{
  c_id, cxx_id, esc, info, inlet, lsl, lsl_cpp, outlet, readme_lsl, resolver,
}

abbrev pub nav_tree_index0 : SubIndex
nav_tree_index0 =
    (codes "annotated.html", 4 ∷ 0 ∷ [])
    ∷ (codes "classes.html", 4 ∷ 1 ∷ [])
    ∷ (codes "d0/d3f/lib_2str_a_n_s_iseq_2src_2main_8cpp.html", 5 ∷ 0 ∷ 2 ∷ 0 ∷ 1 ∷ 0 ∷ [])
    ∷ (
      codes "d0/d3f/lib_2str_a_n_s_iseq_2src_2main_8cpp.html#a3c04138a5bfe5d72780bb7e82a18e627",
      5 ∷ 0 ∷ 2 ∷ 0 ∷ 1 ∷ 0 ∷ 0 ∷ [],
    )
    ∷ at c_id "" (5 ∷ 0 ∷ 0 ∷ 0 ∷ 0 ∷ 0 ∷ 0 ∷ [])
    ∷ at c_id "#a0ddf1224851353fc92bfbff6f499fa97" (5 ∷ 0 ∷ 0 ∷ 0 ∷ 0 ∷ 0 ∷ 0 ∷ 9 ∷ [])
    ∷ at c_id "#a0f46a8a39e09d9b803c4766904fd7e99" (5 ∷ 0 ∷ 0 ∷ 0 ∷ 0 ∷ 0 ∷ 0 ∷ 12 ∷ [])
    ∷ at c_id "#a2321403dee54ee23f0c2fa849c60f7d4" (5 ∷ 0 ∷ 0 ∷ 0 ∷ 0 ∷ 0 ∷ 0 ∷ 14 ∷ [])
    ∷ at c_id "#a2ae9b72bb13abaabfcf2ee0ba7d3fa1d" (5 ∷ 0 ∷ 0 ∷ 0 ∷ 0 ∷ 0 ∷ 0 ∷ 8 ∷ [])
    ∷ at c_id "#a43e1cad902b6477bec893cb6430bd6c8" (5 ∷ 0 ∷ 0 ∷ 0 ∷ 0 ∷ 0 ∷ 0 ∷ 7 ∷ [])
    ∷ at c_id "#a4607cccf070750927b458473ca82c090" (5 ∷ 0 ∷ 0 ∷ 0 ∷ 0 ∷ 0 ∷ 0 ∷ 13 ∷ [])
    ∷ at c_id "#a46d5d95daa1bef867bd0179594310ed5" (5 ∷ 0 ∷ 0 ∷ 0 ∷ 0 ∷ 0 ∷ 0 ∷ 5 ∷ [])
    ∷ at c_id "#a4b0efeb7a5d59313986b3a0390f050f6" (5 ∷ 0 ∷ 0 ∷ 0 ∷ 0 ∷ 0 ∷ 0 ∷ 11 ∷ [])
    ∷ at c_id "#a59647e99d304ed33b15cb284c27ed391" (5 ∷ 0 ∷ 0 ∷ 0 ∷ 0 ∷ 0 ∷ 0 ∷ 10 ∷ [])
    ∷ at c_id "#a81dee0709ded976b2e0319239f72d174" (5 ∷ 0 ∷ 0 ∷ 0 ∷ 0 ∷ 0 ∷ 0 ∷ 3 ∷ [])
    ∷ at c_id "#aba35d0d200deaeb06aee95ca297acb28" (5 ∷ 0 ∷ 0 ∷ 0 ∷ 0 ∷ 0 ∷ 0 ∷ 1 ∷ [])
    ∷ at c_id "#ad1280362da42492bbc11aa78cbf776ad" (5 ∷ 0 ∷ 0 ∷ 0 ∷ 0 ∷ 0 ∷ 0 ∷ 4 ∷ [])
    ∷ at c_id "#adaee3ee7c5a7a22451ea25e762e1d7d5" (5 ∷ 0 ∷ 0 ∷ 0 ∷ 0 ∷ 0 ∷ 0 ∷ 2 ∷ [])
    ∷ at c_id "#adbc5372f40838899018fadbc89bd588b" (5 ∷ 0 ∷ 0 ∷ 0 ∷ 0 ∷ 0 ∷ 0 ∷ 6 ∷ [])
    ∷ at c_id "#ae5510d82e4946f1656f4969911c54736" (5 ∷ 0 ∷ 0 ∷ 0 ∷ 0 ∷ 0 ∷ 0 ∷ 0 ∷ [])
    ∷ at info "" (4 ∷ 0 ∷ 2 ∷ 0 ∷ [])
    ∷ at info "#a0862e5c580d65ecf9ceb1fcc26f2ca34" (4 ∷ 0 ∷ 2 ∷ 0 ∷ 14 ∷ [])
    ∷ at info "#a1f20c68246a88047978d9b03e14a9d2b" (4 ∷ 0 ∷ 2 ∷ 0 ∷ 19 ∷ [])
    ∷ at info "#a2162830f6867e9513eba9385eb0cbb99" (4 ∷ 0 ∷ 2 ∷ 0 ∷ 20 ∷ [])
    ∷ at info "#a35b9b9b8947915f9f9518333342e2835" (4 ∷ 0 ∷ 2 ∷ 0 ∷ 15 ∷ [])
    ∷ at info "#a52db8d9e073297477d1183dfebe8dcda" (4 ∷ 0 ∷ 2 ∷ 0 ∷ 12 ∷ [])
    ∷ at info "#a532f6e8b29052cf11fbf87aeb3424304" (4 ∷ 0 ∷ 2 ∷ 0 ∷ 11 ∷ [])
    ∷ at info "#a59036c0e83bcb07b711ec7e3e3b15fef" (4 ∷ 0 ∷ 2 ∷ 0 ∷ 18 ∷ [])
    ∷ at info "#a6c3474322d467e8d8198c7a6e4c7ad76" (4 ∷ 0 ∷ 2 ∷ 0 ∷ 13 ∷ [])
    ∷ at info "#a7358ba03d8741b0b194cf9e747405702" (4 ∷ 0 ∷ 2 ∷ 0 ∷ 1 ∷ [])
    ∷ at info "#a780a9289cc6f1d57215ed297aecfc78b" (4 ∷ 0 ∷ 2 ∷ 0 ∷ 2 ∷ [])
    ∷ at info "#a7bbc53bb041757eb87c6c73564981390" (4 ∷ 0 ∷ 2 ∷ 0 ∷ 10 ∷ [])
    ∷ at info "#a7eb192e1913596b017137347e4cc5847" (4 ∷ 0 ∷ 2 ∷ 0 ∷ 6 ∷ [])
    ∷ at info "#a82fd071574212a20ba4faffac5ce7803" (4 ∷ 0 ∷ 2 ∷ 0 ∷ 3 ∷ [])
    ∷ at info "#a874f4899da89168b768cfe9acdd569a0" (4 ∷ 0 ∷ 2 ∷ 0 ∷ 0 ∷ [])
    ∷ at info "#a8ce8011b9da9b90c8e11e5c1c477a0a2" (4 ∷ 0 ∷ 2 ∷ 0 ∷ 16 ∷ [])
    ∷ at info "#a9a5be16db42c09b1f0cced52a2259db8" (4 ∷ 0 ∷ 2 ∷ 0 ∷ 9 ∷ [])
    ∷ at info "#aa9695e52570e617d1c7dd4ea9f88b15d" (4 ∷ 0 ∷ 2 ∷ 0 ∷ 8 ∷ [])
    ∷ at info "#aabd83f83d0abe8671e766e97f471dea9" (4 ∷ 0 ∷ 2 ∷ 0 ∷ 22 ∷ [])
    ∷ at info "#ab1ccb9c2a1945c7051a0e90edaba8996" (4 ∷ 0 ∷ 2 ∷ 0 ∷ 5 ∷ [])
    ∷ at info "#ab68def3a9c81c289ba46a5b40c6b4084" (4 ∷ 0 ∷ 2 ∷ 0 ∷ 17 ∷ [])
    ∷ at info "#acf09957c1c61a9d9e0f9439037eec305" (4 ∷ 0 ∷ 2 ∷ 0 ∷ 7 ∷ [])
    ∷ at info "#ae6fa890ffd440f298dd02fe71eaf3b82" (4 ∷ 0 ∷ 2 ∷ 0 ∷ 21 ∷ [])
    ∷ at info "#afe4bf312984faef204ee4480385a9bc1" (4 ∷ 0 ∷ 2 ∷ 0 ∷ 4 ∷ [])
    ∷ at lsl_cpp "" (5 ∷ 0 ∷ 4 ∷ 0 ∷ 0 ∷ 1 ∷ [])
    ∷ at lsl_cpp "#a25fc4deea3c2fb0df0744e3a24c56844" (5 ∷ 0 ∷ 4 ∷ 0 ∷ 0 ∷ 1 ∷ 11 ∷ [])
    ∷ at lsl_cpp "#a28d50dae6fd82eea8893ce3d63ccd46c" (5 ∷ 0 ∷ 4 ∷ 0 ∷ 0 ∷ 1 ∷ 7 ∷ [])
    ∷ at lsl_cpp "#a28d50dae6fd82eea8893ce3d63ccd46ca46efa3307b337f7de592753642584616"
        (5 ∷ 0 ∷ 4 ∷ 0 ∷ 0 ∷ 1 ∷ 7 ∷ 0 ∷ [])
    ∷ at lsl_cpp "#a28d50dae6fd82eea8893ce3d63ccd46ca526ce3ccb97e3bb75d913c60ad56c26d"
        (5 ∷ 0 ∷ 4 ∷ 0 ∷ 0 ∷ 1 ∷ 7 ∷ 3 ∷ [])
    ∷ at lsl_cpp "#a28d50dae6fd82eea8893ce3d63ccd46ca5c625662462c8a30454f6f7f0520e79c"
        (5 ∷ 0 ∷ 4 ∷ 0 ∷ 0 ∷ 1 ∷ 7 ∷ 4 ∷ [])
    ∷ at lsl_cpp "#a28d50dae6fd82eea8893ce3d63ccd46ca6795e1df0db0b05744fd1fe9623567a0"
        (5 ∷ 0 ∷ 4 ∷ 0 ∷ 0 ∷ 1 ∷ 7 ∷ 6 ∷ [])
    ∷ at lsl_cpp "#a28d50dae6fd82eea8893ce3d63ccd46ca829ae156932f587fbbc70aed1d46e388"
        (5 ∷ 0 ∷ 4 ∷ 0 ∷ 0 ∷ 1 ∷ 7 ∷ 5 ∷ [])
    ∷ at lsl_cpp "#a28d50dae6fd82eea8893ce3d63ccd46cab11213c3d307faf6ef734633ac732eb7"
        (5 ∷ 0 ∷ 4 ∷ 0 ∷ 0 ∷ 1 ∷ 7 ∷ 1 ∷ [])
    ∷ at lsl_cpp "#a28d50dae6fd82eea8893ce3d63ccd46cadc8092d1092568f7d36d89fa7e813d76"
        (5 ∷ 0 ∷ 4 ∷ 0 ∷ 0 ∷ 1 ∷ 7 ∷ 7 ∷ [])
    ∷ at lsl_cpp "#a28d50dae6fd82eea8893ce3d63ccd46caedadbd6437a22628678edaf287c87048"
        (5 ∷ 0 ∷ 4 ∷ 0 ∷ 0 ∷ 1 ∷ 7 ∷ 2 ∷ [])
    ∷ at lsl_cpp "#a2935ff3db04cd640f69943ad14a61915" (5 ∷ 0 ∷ 4 ∷ 0 ∷ 0 ∷ 1 ∷ 16 ∷ [])
    ∷ at lsl_cpp "#a2a348cf022e9862396e4a10f60af42e9" (5 ∷ 0 ∷ 4 ∷ 0 ∷ 0 ∷ 1 ∷ 10 ∷ [])
    ∷ at lsl_cpp "#a4edfbcc31f48f27e8f7c2a36b69cd4b9" (5 ∷ 0 ∷ 4 ∷ 0 ∷ 0 ∷ 1 ∷ 15 ∷ [])
    ∷ at lsl_cpp "#a57df17d8a2563a18b8b759a0cec696cc" (5 ∷ 0 ∷ 4 ∷ 0 ∷ 0 ∷ 1 ∷ 17 ∷ [])
    ∷ at lsl_cpp "#a59009e83a8f0e33643474b373ad2f7f2" (5 ∷ 0 ∷ 4 ∷ 0 ∷ 0 ∷ 1 ∷ 13 ∷ [])
    ∷ at lsl_cpp "#a74cfbc9077aca21295117217249721ed" (5 ∷ 0 ∷ 4 ∷ 0 ∷ 0 ∷ 1 ∷ 18 ∷ [])
    ∷ at lsl_cpp "#a824e14275a55df97d0552a91fc2c4097" (5 ∷ 0 ∷ 4 ∷ 0 ∷ 0 ∷ 1 ∷ 14 ∷ [])
    ∷ at lsl_cpp "#aaa1cffa7d29bb2756522bc2bb069e310" (5 ∷ 0 ∷ 4 ∷ 0 ∷ 0 ∷ 1 ∷ 8 ∷ [])
    ∷ at lsl_cpp "#aaa1cffa7d29bb2756522bc2bb069e310a198f16659e71b850e4674ed31d10e914"
        (5 ∷ 0 ∷ 4 ∷ 0 ∷ 0 ∷ 1 ∷ 8 ∷ 5 ∷ [])
    ∷ at lsl_cpp "#aaa1cffa7d29bb2756522bc2bb069e310a83b67e37c1bbcfb4ee7479098386499f"
        (5 ∷ 0 ∷ 4 ∷ 0 ∷ 0 ∷ 1 ∷ 8 ∷ 2 ∷ [])
    ∷ at lsl_cpp "#aaa1cffa7d29bb2756522bc2bb069e310a8ebef2c4c98e1a9246e9927e6b0b87c9"
        (5 ∷ 0 ∷ 4 ∷ 0 ∷ 0 ∷ 1 ∷ 8 ∷ 4 ∷ [])
    ∷ at lsl_cpp "#aaa1cffa7d29bb2756522bc2bb069e310ac01170c28c82b28d721da1971e16424b"
        (5 ∷ 0 ∷ 4 ∷ 0 ∷ 0 ∷ 1 ∷ 8 ∷ 0 ∷ [])
    ∷ at lsl_cpp "#aaa1cffa7d29bb2756522bc2bb069e310accf7cbfa478e679b53255d46fd62f888"
        (5 ∷ 0 ∷ 4 ∷ 0 ∷ 0 ∷ 1 ∷ 8 ∷ 1 ∷ [])
    ∷ at lsl_cpp "#aaa1cffa7d29bb2756522bc2bb069e310af7cdac323760b9cb6587733a24f5aecb"
        (5 ∷ 0 ∷ 4 ∷ 0 ∷ 0 ∷ 1 ∷ 8 ∷ 3 ∷ [])
    ∷ at lsl_cpp "#ac7ebddefe1091ef2d9459b6f9d79f7ab" (5 ∷ 0 ∷ 4 ∷ 0 ∷ 0 ∷ 1 ∷ 19 ∷ [])
    ∷ at lsl_cpp "#acce0545ac0a7831acde1a759b778393c" (5 ∷ 0 ∷ 4 ∷ 0 ∷ 0 ∷ 1 ∷ 9 ∷ [])
    ∷ at lsl_cpp "#ae1766ae2ab66141cb927612e57a0c8c6" (5 ∷ 0 ∷ 4 ∷ 0 ∷ 0 ∷ 1 ∷ 12 ∷ [])
    ∷ (codes "d1/d7c/lsl__cpp_8h_source.html", 5 ∷ 0 ∷ 4 ∷ 0 ∷ 0 ∷ 1 ∷ [])
    ∷ at esc "" (3 ∷ 0 ∷ 1 ∷ [])
    ∷ at esc "#a0339f1bf272536a7645b373a503b4928" (3 ∷ 0 ∷ 1 ∷ 6 ∷ [])
    ∷ at esc "#a07d7fd8adc58054bde19b14556a8d945" (3 ∷ 0 ∷ 1 ∷ 3 ∷ [])
    ∷ at esc "#a080ff5f5b8a2ed3567a541acfa69a425" (3 ∷ 0 ∷ 1 ∷ 2 ∷ [])
    ∷ at esc "#a1ab0660788056c78944278261498664a" (3 ∷ 0 ∷ 1 ∷ 5 ∷ [])
    ∷ at esc "#a231a32f47e8c90921259a47ce621b1cc" (3 ∷ 0 ∷ 1 ∷ 7 ∷ [])
    ∷ at esc "#a2dc320253a173af845d4317a62c45a6f" (3 ∷ 0 ∷ 1 ∷ 10 ∷ [])
    ∷ at esc "#a6f0f9c5cc6b334d09b6da6834c02af16" (3 ∷ 0 ∷ 1 ∷ 4 ∷ [])
    ∷ at esc "#a93c187b0ecaecc64127a1e7d211562a1" (3 ∷ 0 ∷ 1 ∷ 1 ∷ [])
    ∷ at esc "#a93c187b0ecaecc64127a1e7d211562a1a080f5acc7b26dd8c82d66a410dcb003a"
        (3 ∷ 0 ∷ 1 ∷ 1 ∷ 19 ∷ [])
    ∷ at esc "#a93c187b0ecaecc64127a1e7d211562a1a0949b3693d2401dfa4651b442a9c9551"
        (3 ∷ 0 ∷ 1 ∷ 1 ∷ 0 ∷ [])
    ∷ at esc "#a93c187b0ecaecc64127a1e7d211562a1a0af3dbb99fb41d75e60df73e7bab1fdd"
        (3 ∷ 0 ∷ 1 ∷ 1 ∷ 5 ∷ [])
    ∷ at esc "#a93c187b0ecaecc64127a1e7d211562a1a11a52229f2c02ac21863203a9649771d"
        (3 ∷ 0 ∷ 1 ∷ 1 ∷ 1 ∷ [])
    ∷ at esc "#a93c187b0ecaecc64127a1e7d211562a1a1b9e16c203595a107bc8ba10051e08d1"
        (3 ∷ 0 ∷ 1 ∷ 1 ∷ 26 ∷ [])
    ∷ at esc "#a93c187b0ecaecc64127a1e7d211562a1a1c482c45cb9fa67cb290cb6e17ca291d"
        (3 ∷ 0 ∷ 1 ∷ 1 ∷ 21 ∷ [])
    ∷ at esc "#a93c187b0ecaecc64127a1e7d211562a1a1ea0683248f9953ca0713e5797ce17d1"
        (3 ∷ 0 ∷ 1 ∷ 1 ∷ 3 ∷ [])
    ∷ at esc "#a93c187b0ecaecc64127a1e7d211562a1a2c10a5323218ceb224ef379037cd7e0a"
        (3 ∷ 0 ∷ 1 ∷ 1 ∷ 17 ∷ [])
    ∷ at esc "#a93c187b0ecaecc64127a1e7d211562a1a2d6d9e4c4d26f775a2d2e0f5d4c2fee5"
        (3 ∷ 0 ∷ 1 ∷ 1 ∷ 10 ∷ [])
    ∷ at esc "#a93c187b0ecaecc64127a1e7d211562a1a3b8d384d180428029a6712830c9b01b7"
        (3 ∷ 0 ∷ 1 ∷ 1 ∷ 16 ∷ [])
    ∷ at esc "#a93c187b0ecaecc64127a1e7d211562a1a4407cb515758165608277ff094d8aa4e"
        (3 ∷ 0 ∷ 1 ∷ 1 ∷ 15 ∷ [])
    ∷ at esc "#a93c187b0ecaecc64127a1e7d211562a1a51f33f01a9c1d72db09e6a9ac6ddb759"
        (3 ∷ 0 ∷ 1 ∷ 1 ∷ 11 ∷ [])
    ∷ at esc "#a93c187b0ecaecc64127a1e7d211562a1a560f8ec0e3a165bffd234986d419d93e"
        (3 ∷ 0 ∷ 1 ∷ 1 ∷ 18 ∷ [])
    ∷ at esc "#a93c187b0ecaecc64127a1e7d211562a1a5793314530aabf181b6d61339928a486"
        (3 ∷ 0 ∷ 1 ∷ 1 ∷ 9 ∷ [])
    ∷ at esc "#a93c187b0ecaecc64127a1e7d211562a1a5bfaa69787e265bc37dca5b2b61c64a9"
        (3 ∷ 0 ∷ 1 ∷ 1 ∷ 4 ∷ [])
    ∷ at esc "#a93c187b0ecaecc64127a1e7d211562a1a5c996890ffc321f6f95d51357fa2e00a"
        (3 ∷ 0 ∷ 1 ∷ 1 ∷ 22 ∷ [])
    ∷ at esc "#a93c187b0ecaecc64127a1e7d211562a1a712e5fd9a5e6d3b6a565a22b7b6590b2"
        (3 ∷ 0 ∷ 1 ∷ 1 ∷ 8 ∷ [])
    ∷ at esc "#a93c187b0ecaecc64127a1e7d211562a1a852050b53ec94746365cf503b9daf77c"
        (3 ∷ 0 ∷ 1 ∷ 1 ∷ 13 ∷ [])
    ∷ at esc "#a93c187b0ecaecc64127a1e7d211562a1a991c4d7703b3a4062d71ac80b047d0f6"
        (3 ∷ 0 ∷ 1 ∷ 1 ∷ 6 ∷ [])
    ∷ at esc "#a93c187b0ecaecc64127a1e7d211562a1a9ca7916a80da428a5e295b0356e5ba91"
        (3 ∷ 0 ∷ 1 ∷ 1 ∷ 12 ∷ [])
    ∷ at esc "#a93c187b0ecaecc64127a1e7d211562a1aa554b8e89b9c53e86096c1ee2dca2aae"
        (3 ∷ 0 ∷ 1 ∷ 1 ∷ 7 ∷ [])
    ∷ at esc "#a93c187b0ecaecc64127a1e7d211562a1ac524cfac8f3b50f5d6ac8a2ce7ac0939"
        (3 ∷ 0 ∷ 1 ∷ 1 ∷ 20 ∷ [])
    ∷ at esc "#a93c187b0ecaecc64127a1e7d211562a1ad7e062b99a6ddd60a225ecc7d10756b1"
        (3 ∷ 0 ∷ 1 ∷ 1 ∷ 2 ∷ [])
    ∷ at esc "#a93c187b0ecaecc64127a1e7d211562a1adb93cd7891a72f8d7878e8ea39700b51"
        (3 ∷ 0 ∷ 1 ∷ 1 ∷ 14 ∷ [])
    ∷ at esc "#a93c187b0ecaecc64127a1e7d211562a1ae751c14d8a6185aa862011b31cef11ee"
        (3 ∷ 0 ∷ 1 ∷ 1 ∷ 23 ∷ [])
    ∷ at esc "#a93c187b0ecaecc64127a1e7d211562a1ae86ea0aceff2ecc297273593ef04d88a"
        (3 ∷ 0 ∷ 1 ∷ 1 ∷ 24 ∷ [])
    ∷ at esc "#a93c187b0ecaecc64127a1e7d211562a1afa9e18e6b89e7b527ac48cdeabb64955"
        (3 ∷ 0 ∷ 1 ∷ 1 ∷ 25 ∷ [])
    ∷ at esc "#aabdbbf48acbc97aadc974b67b8f65d49" (3 ∷ 0 ∷ 1 ∷ 9 ∷ [])
    ∷ at esc "#ab8b0eda8f8c0d37419c0435cad5230e0" (3 ∷ 0 ∷ 1 ∷ 11 ∷ [])
    ∷ at esc "#ac00ec90c2ccac2f1bcb6219b6f081ad5" (3 ∷ 0 ∷ 1 ∷ 8 ∷ [])
    ∷ at cxx_id "" (5 ∷ 0 ∷ 0 ∷ 0 ∷ 0 ∷ 1 ∷ 0 ∷ [])
    ∷ at cxx_id "#a0ddf1224851353fc92bfbff6f499fa97" (5 ∷ 0 ∷ 0 ∷ 0 ∷ 0 ∷ 1 ∷ 0 ∷ 9 ∷ [])
    ∷ at cxx_id "#a0f46a8a39e09d9b803c4766904fd7e99" (5 ∷ 0 ∷ 0 ∷ 0 ∷ 0 ∷ 1 ∷ 0 ∷ 12 ∷ [])
    ∷ at cxx_id "#a2321403dee54ee23f0c2fa849c60f7d4" (5 ∷ 0 ∷ 0 ∷ 0 ∷ 0 ∷ 1 ∷ 0 ∷ 14 ∷ [])
    ∷ at cxx_id "#a2ae9b72bb13abaabfcf2ee0ba7d3fa1d" (5 ∷ 0 ∷ 0 ∷ 0 ∷ 0 ∷ 1 ∷ 0 ∷ 8 ∷ [])
    ∷ at cxx_id "#a34cc889e576a1ae6c84ae9e0a851ba21" (5 ∷ 0 ∷ 0 ∷ 0 ∷ 0 ∷ 1 ∷ 0 ∷ 3 ∷ [])
    ∷ at cxx_id "#a43e1cad902b6477bec893cb6430bd6c8" (5 ∷ 0 ∷ 0 ∷ 0 ∷ 0 ∷ 1 ∷ 0 ∷ 7 ∷ [])
    ∷ at cxx_id "#a4607cccf070750927b458473ca82c090" (5 ∷ 0 ∷ 0 ∷ 0 ∷ 0 ∷ 1 ∷ 0 ∷ 13 ∷ [])
    ∷ at cxx_id "#a46d5d95daa1bef867bd0179594310ed5" (5 ∷ 0 ∷ 0 ∷ 0 ∷ 0 ∷ 1 ∷ 0 ∷ 5 ∷ [])
    ∷ at cxx_id "#a4b0efeb7a5d59313986b3a0390f050f6" (5 ∷ 0 ∷ 0 ∷ 0 ∷ 0 ∷ 1 ∷ 0 ∷ 11 ∷ [])
    ∷ at cxx_id "#a59647e99d304ed33b15cb284c27ed391" (5 ∷ 0 ∷ 0 ∷ 0 ∷ 0 ∷ 1 ∷ 0 ∷ 10 ∷ [])
    ∷ at cxx_id "#a81dee0709ded976b2e0319239f72d174" (5 ∷ 0 ∷ 0 ∷ 0 ∷ 0 ∷ 1 ∷ 0 ∷ 2 ∷ [])
    ∷ at cxx_id "#aba35d0d200deaeb06aee95ca297acb28" (5 ∷ 0 ∷ 0 ∷ 0 ∷ 0 ∷ 1 ∷ 0 ∷ 1 ∷ [])
    ∷ at cxx_id "#ad1280362da42492bbc11aa78cbf776ad" (5 ∷ 0 ∷ 0 ∷ 0 ∷ 0 ∷ 1 ∷ 0 ∷ 4 ∷ [])
    ∷ at cxx_id "#adbc5372f40838899018fadbc89bd588b" (5 ∷ 0 ∷ 0 ∷ 0 ∷ 0 ∷ 1 ∷ 0 ∷ 6 ∷ [])
    ∷ at cxx_id "#ae5510d82e4946f1656f4969911c54736" (5 ∷ 0 ∷ 0 ∷ 0 ∷ 0 ∷ 1 ∷ 0 ∷ 0 ∷ [])
    ∷ at lsl "" (3 ∷ 0 ∷ 2 ∷ [])
    ∷ at lsl "#a25fc4deea3c2fb0df0744e3a24c56844" (3 ∷ 0 ∷ 2 ∷ 11 ∷ [])
    ∷ at lsl "#a28d50dae6fd82eea8893ce3d63ccd46c" (3 ∷ 0 ∷ 2 ∷ 7 ∷ [])
    ∷ at lsl "#a28d50dae6fd82eea8893ce3d63ccd46ca46efa3307b337f7de592753642584616"
        (3 ∷ 0 ∷ 2 ∷ 7 ∷ 0 ∷ [])
    ∷ at lsl "#a28d50dae6fd82eea8893ce3d63ccd46ca526ce3ccb97e3bb75d913c60ad56c26d"
        (3 ∷ 0 ∷ 2 ∷ 7 ∷ 3 ∷ [])
    ∷ at lsl "#a28d50dae6fd82eea8893ce3d63ccd46ca5c625662462c8a30454f6f7f0520e79c"
        (3 ∷ 0 ∷ 2 ∷ 7 ∷ 4 ∷ [])
    ∷ at lsl "#a28d50dae6fd82eea8893ce3d63ccd46ca6795e1df0db0b05744fd1fe9623567a0"
        (3 ∷ 0 ∷ 2 ∷ 7 ∷ 6 ∷ [])
    ∷ at lsl "#a28d50dae6fd82eea8893ce3d63ccd46ca829ae156932f587fbbc70aed1d46e388"
        (3 ∷ 0 ∷ 2 ∷ 7 ∷ 5 ∷ [])
    ∷ at lsl "#a28d50dae6fd82eea8893ce3d63ccd46cab11213c3d307faf6ef734633ac732eb7"
        (3 ∷ 0 ∷ 2 ∷ 7 ∷ 1 ∷ [])
    ∷ at lsl "#a28d50dae6fd82eea8893ce3d63ccd46cadc8092d1092568f7d36d89fa7e813d76"
        (3 ∷ 0 ∷ 2 ∷ 7 ∷ 7 ∷ [])
    ∷ at lsl "#a28d50dae6fd82eea8893ce3d63ccd46caedadbd6437a22628678edaf287c87048"
        (3 ∷ 0 ∷ 2 ∷ 7 ∷ 2 ∷ [])
    ∷ at lsl "#a2935ff3db04cd640f69943ad14a61915" (3 ∷ 0 ∷ 2 ∷ 16 ∷ [])
    ∷ at lsl "#a2a348cf022e9862396e4a10f60af42e9" (3 ∷ 0 ∷ 2 ∷ 10 ∷ [])
    ∷ at lsl "#a4edfbcc31f48f27e8f7c2a36b69cd4b9" (3 ∷ 0 ∷ 2 ∷ 15 ∷ [])
    ∷ at lsl "#a57df17d8a2563a18b8b759a0cec696cc" (3 ∷ 0 ∷ 2 ∷ 17 ∷ [])
    ∷ at lsl "#a59009e83a8f0e33643474b373ad2f7f2" (3 ∷ 0 ∷ 2 ∷ 13 ∷ [])
    ∷ at lsl "#a74cfbc9077aca21295117217249721ed" (3 ∷ 0 ∷ 2 ∷ 18 ∷ [])
    ∷ at lsl "#a824e14275a55df97d0552a91fc2c4097" (3 ∷ 0 ∷ 2 ∷ 14 ∷ [])
    ∷ at lsl "#aaa1cffa7d29bb2756522bc2bb069e310" (3 ∷ 0 ∷ 2 ∷ 8 ∷ [])
    ∷ at lsl "#aaa1cffa7d29bb2756522bc2bb069e310a198f16659e71b850e4674ed31d10e914"
        (3 ∷ 0 ∷ 2 ∷ 8 ∷ 5 ∷ [])
    ∷ at lsl "#aaa1cffa7d29bb2756522bc2bb069e310a83b67e37c1bbcfb4ee7479098386499f"
        (3 ∷ 0 ∷ 2 ∷ 8 ∷ 2 ∷ [])
    ∷ at lsl "#aaa1cffa7d29bb2756522bc2bb069e310a8ebef2c4c98e1a9246e9927e6b0b87c9"
        (3 ∷ 0 ∷ 2 ∷ 8 ∷ 4 ∷ [])
    ∷ at lsl "#aaa1cffa7d29bb2756522bc2bb069e310ac01170c28c82b28d721da1971e16424b"
        (3 ∷ 0 ∷ 2 ∷ 8 ∷ 0 ∷ [])
    ∷ at lsl "#aaa1cffa7d29bb2756522bc2bb069e310accf7cbfa478e679b53255d46fd62f888"
        (3 ∷ 0 ∷ 2 ∷ 8 ∷ 1 ∷ [])
    ∷ at lsl "#aaa1cffa7d29bb2756522bc2bb069e310af7cdac323760b9cb6587733a24f5aecb"
        (3 ∷ 0 ∷ 2 ∷ 8 ∷ 3 ∷ [])
    ∷ at lsl "#ac7ebddefe1091ef2d9459b6f9d79f7ab" (3 ∷ 0 ∷ 2 ∷ 19 ∷ [])
    ∷ at lsl "#acce0545ac0a7831acde1a759b778393c" (3 ∷ 0 ∷ 2 ∷ 9 ∷ [])
    ∷ at lsl "#ae1766ae2ab66141cb927612e57a0c8c6" (3 ∷ 0 ∷ 2 ∷ 12 ∷ [])
    ∷ (
      codes "d3/df7/_c_make_files_2com__client_8dir_2src_2main_8cpp_8o_8d.html",
      5 ∷ 0 ∷ 0 ∷ 0 ∷ 2 ∷ 0 ∷ 0 ∷ [],
    )
    ∷ (codes "d4/d01/classlsl_1_1timeout__error.html", 4 ∷ 0 ∷ 2 ∷ 6 ∷ [])
    ∷ (
      codes "d4/d01/classlsl_1_1timeout__error.html#afbc3b7c957fe3da4021aff3c30e6192f",
      4 ∷ 0 ∷ 2 ∷ 6 ∷ 0 ∷ [],
    )
    ∷ at resolver "" (4 ∷ 0 ∷ 2 ∷ 4 ∷ [])
    ∷ at resolver "#a382bc439e5dbb1efcaa32def93ef01df" (4 ∷ 0 ∷ 2 ∷ 4 ∷ 3 ∷ [])
    ∷ at resolver "#a53b81e4328aba7a83c4aa129fa0d6f62" (4 ∷ 0 ∷ 2 ∷ 4 ∷ 0 ∷ [])
    ∷ at resolver "#a9eb3d09ca9c4f9c493a6978d403a5144" (4 ∷ 0 ∷ 2 ∷ 4 ∷ 1 ∷ [])
    ∷ at resolver "#aa3b65921342bddafabe4e5d16a3c24a3" (4 ∷ 0 ∷ 2 ∷ 4 ∷ 2 ∷ [])
    ∷ at resolver "#ad88c16d36f8a2dc64f4ae4536445e15a" (4 ∷ 0 ∷ 2 ∷ 4 ∷ 4 ∷ [])
    ∷ (codes "d5/d08/http__client_8cpp.html", 5 ∷ 0 ∷ 3 ∷ 1 ∷ [])
    ∷ at readme_lsl "" (2 ∷ [])
    ∷ at readme_lsl "#autotoc_md10" (2 ∷ 1 ∷ [])
    ∷ at readme_lsl "#autotoc_md11" (2 ∷ 2 ∷ [])
    ∷ at readme_lsl "#autotoc_md9" (2 ∷ 0 ∷ [])
    ∷ (codes "d6/d45/com__client_8cpp_8o_8d.html", 5 ∷ 0 ∷ 0 ∷ 0 ∷ 1 ∷ 0 ∷ 0 ∷ [])
    ∷ at outlet "" (4 ∷ 0 ∷ 2 ∷ 1 ∷ [])
    ∷ at outlet "#a05ff22ae7b36a9e64dc08f71b45913e6" (4 ∷ 0 ∷ 2 ∷ 1 ∷ 4 ∷ [])
    ∷ at outlet "#a10acfcf6b1db179f04596def60bc3792" (4 ∷ 0 ∷ 2 ∷ 1 ∷ 15 ∷ [])
    ∷ at outlet "#a161ead63f9a373d69744c3c54a650c1d" (4 ∷ 0 ∷ 2 ∷ 1 ∷ 14 ∷ [])
    ∷ at outlet "#a17744ee6e963464fe6442d1e6f1a50f8" (4 ∷ 0 ∷ 2 ∷ 1 ∷ 19 ∷ [])
    ∷ at outlet "#a18b2da34bdd1306ef926d97532c43f28" (4 ∷ 0 ∷ 2 ∷ 1 ∷ 37 ∷ [])
    ∷ at outlet "#a226b11eae43287c7b72e4d0ca1e812e7" (4 ∷ 0 ∷ 2 ∷ 1 ∷ 34 ∷ [])
    ∷ at outlet "#a24192e6e3416ad36154bc01be55334c3" (4 ∷ 0 ∷ 2 ∷ 1 ∷ 40 ∷ [])
    ∷ at outlet "#a277f76e889a33849170d5c25fa99c723" (4 ∷ 0 ∷ 2 ∷ 1 ∷ 50 ∷ [])
    ∷ at outlet "#a2b4da4c1a2c3c47f39ed8a3f2cc717a5" (4 ∷ 0 ∷ 2 ∷ 1 ∷ 18 ∷ [])
    ∷ at outlet "#a341840ed1504e2cfa0cc9c15263e030a" (4 ∷ 0 ∷ 2 ∷ 1 ∷ 29 ∷ [])
    ∷ at outlet "#a3e7fad1010ef7c78bcd006a4f94381fa" (4 ∷ 0 ∷ 2 ∷ 1 ∷ 2 ∷ [])
    ∷ at outlet "#a3ec413951e8613ce5289a265aaabf6e9" (4 ∷ 0 ∷ 2 ∷ 1 ∷ 17 ∷ [])
    ∷ at outlet "#a4953cee1905211d533cb9bd6b0525099" (4 ∷ 0 ∷ 2 ∷ 1 ∷ 16 ∷ [])
    ∷ at outlet "#a4c984d8bf178e2321c590aaf81d4da3f" (4 ∷ 0 ∷ 2 ∷ 1 ∷ 47 ∷ [])
    ∷ at outlet "#a4cc12f447c2ccfe67a118a3c23215f0d" (4 ∷ 0 ∷ 2 ∷ 1 ∷ 11 ∷ [])
    ∷ at outlet "#a4f476f737355d7c2b128dcc1798f46b7" (4 ∷ 0 ∷ 2 ∷ 1 ∷ 9 ∷ [])
    ∷ at outlet "#a510668a6adc032792e8bad06458e58eb" (4 ∷ 0 ∷ 2 ∷ 1 ∷ 45 ∷ [])
    ∷ at outlet "#a554027868fa9710470f0c3f057904b4b" (4 ∷ 0 ∷ 2 ∷ 1 ∷ 33 ∷ [])
    ∷ at outlet "#a558af80f807399556a2483346e80b935" (4 ∷ 0 ∷ 2 ∷ 1 ∷ 43 ∷ [])
    ∷ at outlet "#a58427b98e8a60e7d160534078f3e04f8" (4 ∷ 0 ∷ 2 ∷ 1 ∷ 5 ∷ [])
    ∷ at outlet "#a5944abd4386a9568441ddb352e8df71f" (4 ∷ 0 ∷ 2 ∷ 1 ∷ 24 ∷ [])
    ∷ at outlet "#a59f69780061e6c8743a4cb566944033b" (4 ∷ 0 ∷ 2 ∷ 1 ∷ 51 ∷ [])
    ∷ at outlet "#a5c394e995a86d03cb71c3d180f855681" (4 ∷ 0 ∷ 2 ∷ 1 ∷ 36 ∷ [])
    ∷ at outlet "#a5ceb5a7488582559846637a310056605" (4 ∷ 0 ∷ 2 ∷ 1 ∷ 20 ∷ [])
    ∷ at outlet "#a66a528d5f31f5b5f747994c6de35a80f" (4 ∷ 0 ∷ 2 ∷ 1 ∷ 48 ∷ [])
    ∷ at outlet "#a675bbe044a5053087e05e0267fe6722a" (4 ∷ 0 ∷ 2 ∷ 1 ∷ 52 ∷ [])
    ∷ at outlet "#a6ff877ac1b4c96f38ac36a2319a874da" (4 ∷ 0 ∷ 2 ∷ 1 ∷ 7 ∷ [])
    ∷ at outlet "#a78a48678f40e2bbb591aa0b9da9891d8" (4 ∷ 0 ∷ 2 ∷ 1 ∷ 12 ∷ [])
    ∷ at outlet "#a7ea80b891c9aaf7b4c62c715692218cc" (4 ∷ 0 ∷ 2 ∷ 1 ∷ 10 ∷ [])
    ∷ at outlet "#a874e84f39bf470f755aa46da300244f6" (4 ∷ 0 ∷ 2 ∷ 1 ∷ 27 ∷ [])
    ∷ at outlet "#a9075bd46bb9f2d1a0d494dbb7772eb48" (4 ∷ 0 ∷ 2 ∷ 1 ∷ 30 ∷ [])
    ∷ at outlet "#a93e571140b73b4324051b8ef4b5606a4" (4 ∷ 0 ∷ 2 ∷ 1 ∷ 44 ∷ [])
    ∷ at outlet "#a9d175090070f408ca7e9c8d8437c02f6" (4 ∷ 0 ∷ 2 ∷ 1 ∷ 26 ∷ [])
    ∷ at outlet "#aa1f12739e569d284896c7f514f55a301" (4 ∷ 0 ∷ 2 ∷ 1 ∷ 49 ∷ [])
    ∷ at outlet "#aa42becb37b937c5d6319dac67a0da4a4" (4 ∷ 0 ∷ 2 ∷ 1 ∷ 23 ∷ [])
    ∷ at outlet "#aa8a10c88f57686d77bee002aff4c9d4e" (4 ∷ 0 ∷ 2 ∷ 1 ∷ 1 ∷ [])
    ∷ at outlet "#ab462e099798c3055b8f976767b239379" (4 ∷ 0 ∷ 2 ∷ 1 ∷ 6 ∷ [])
    ∷ at outlet "#abd59227041d01d48e90d4d5d05da7662" (4 ∷ 0 ∷ 2 ∷ 1 ∷ 46 ∷ [])
    ∷ at outlet "#abe328c3200c383d160ca0e00029b8124" (4 ∷ 0 ∷ 2 ∷ 1 ∷ 31 ∷ [])
    ∷ at outlet "#ac31c0f13ba9de7331e520b3b08ede811" (4 ∷ 0 ∷ 2 ∷ 1 ∷ 32 ∷ [])
    ∷ at outlet "#ac88c568fdc7429d95c51cd7b58d902cc" (4 ∷ 0 ∷ 2 ∷ 1 ∷ 0 ∷ [])
    ∷ at outlet "#ac90405c89feb8c95a493f42a0c749421" (4 ∷ 0 ∷ 2 ∷ 1 ∷ 13 ∷ [])
    ∷ at outlet "#acbb1a237bb410d9794c1961922aca6ad" (4 ∷ 0 ∷ 2 ∷ 1 ∷ 38 ∷ [])
    ∷ at outlet "#ad0a2c2b78e18b423e34ed0282df6b919" (4 ∷ 0 ∷ 2 ∷ 1 ∷ 22 ∷ [])
    ∷ at outlet "#ad7e1405b50bc546c4f742f508aa734cc" (4 ∷ 0 ∷ 2 ∷ 1 ∷ 35 ∷ [])
    ∷ at outlet "#adafb6b76614ea386917f696bdb272209" (4 ∷ 0 ∷ 2 ∷ 1 ∷ 25 ∷ [])
    ∷ at outlet "#ae3875c13d689e11c6d34181b8fadfa5d" (4 ∷ 0 ∷ 2 ∷ 1 ∷ 28 ∷ [])
    ∷ at outlet "#ae67672d4aa82d500e0a192d38f64d6fe" (4 ∷ 0 ∷ 2 ∷ 1 ∷ 41 ∷ [])
    ∷ at outlet "#af0d747a0610be04501117f87c1b010e9" (4 ∷ 0 ∷ 2 ∷ 1 ∷ 39 ∷ [])
    ∷ at outlet "#af188fa767e2a70c402486b761e9869fe" (4 ∷ 0 ∷ 2 ∷ 1 ∷ 53 ∷ [])
    ∷ at outlet "#af1bedf881293459205b9ba5df7b92051" (4 ∷ 0 ∷ 2 ∷ 1 ∷ 21 ∷ [])
    ∷ at outlet "#af5d993951e77df22ecb225c3b4aad87c" (4 ∷ 0 ∷ 2 ∷ 1 ∷ 8 ∷ [])
    ∷ at outlet "#af6fda8eb922b27ae3ed98651934243fe" (4 ∷ 0 ∷ 2 ∷ 1 ∷ 3 ∷ [])
    ∷ at outlet "#aff1709d7bbf628e9b14d18444c7ac237" (4 ∷ 0 ∷ 2 ∷ 1 ∷ 42 ∷ [])
    ∷ at inlet "" (4 ∷ 0 ∷ 2 ∷ 2 ∷ [])
    ∷ at inlet "#a018caadb9a2c61f0c1c6388f7b617008" (4 ∷ 0 ∷ 2 ∷ 2 ∷ 19 ∷ [])
    ∷ at inlet "#a2774c1dbcf3fc7b17505e8814921d17c" (4 ∷ 0 ∷ 2 ∷ 2 ∷ 39 ∷ [])
    ∷ at inlet "#a3462f2634ce13e7f9c764e16a58a71a6" (4 ∷ 0 ∷ 2 ∷ 2 ∷ 25 ∷ [])
    ∷ at inlet "#a3a2a662e0b723d7f2101b79eb08371b7" (4 ∷ 0 ∷ 2 ∷ 2 ∷ 29 ∷ [])
    ∷ at inlet "#a3b93d803b348905bc34747c5820d6364" (4 ∷ 0 ∷ 2 ∷ 2 ∷ 13 ∷ [])
    ∷ at inlet "#a40e9727b155e274df482e4579e60f3b3" (4 ∷ 0 ∷ 2 ∷ 2 ∷ 12 ∷ [])
    ∷ at inlet "#a447dd270fa83d8f1df16963b8601027e" (4 ∷ 0 ∷ 2 ∷ 2 ∷ 30 ∷ [])
    ∷ at inlet "#a4a10bd640a10c317ba4a0244cc986146" (4 ∷ 0 ∷ 2 ∷ 2 ∷ 24 ∷ [])
    ∷ at inlet "#a4a743ed5df78b05dcc038e73a1d4fb9b" (4 ∷ 0 ∷ 2 ∷ 2 ∷ 17 ∷ [])
    ∷ at inlet "#a52e95747438991868e3eb9c791e24f42" (4 ∷ 0 ∷ 2 ∷ 2 ∷ 28 ∷ [])
    ∷ at inlet "#a540c7ba2c23188916ffe311c26c2c081" (4 ∷ 0 ∷ 2 ∷ 2 ∷ 21 ∷ [])
    ∷ at inlet "#a558f53812f5dc3c19b2cbe0026a61f6a" (4 ∷ 0 ∷ 2 ∷ 2 ∷ 6 ∷ [])
    ∷ at inlet "#a58dc91be6ec0d1b83024a169ad0c292b" (4 ∷ 0 ∷ 2 ∷ 2 ∷ 36 ∷ [])
    ∷ at inlet "#a6a0f2f39152a2975571d5073d9967646" (4 ∷ 0 ∷ 2 ∷ 2 ∷ 15 ∷ [])
    ∷ at inlet "#a774c17a647ebd321b5ce4a5450f71202" (4 ∷ 0 ∷ 2 ∷ 2 ∷ 27 ∷ [])
    ∷ at inlet "#a7789d75e1afceaf5187e8bc33a0b99be" (4 ∷ 0 ∷ 2 ∷ 2 ∷ 32 ∷ [])
    ∷ at inlet "#a77c2f10ed843723c7473aa52dcf544a0" (4 ∷ 0 ∷ 2 ∷ 2 ∷ 2 ∷ [])
    ∷ at inlet "#a78a36bf33ddfc7101bd15cb5bcb9561d" (4 ∷ 0 ∷ 2 ∷ 2 ∷ 35 ∷ [])
    ∷ at inlet "#a7c93b7d4fc053b2e3320841371b32919" (4 ∷ 0 ∷ 2 ∷ 2 ∷ 0 ∷ [])
    ∷ at inlet "#a80fecf88ba609c7e4898eb16a49f2b75" (4 ∷ 0 ∷ 2 ∷ 2 ∷ 34 ∷ [])
    ∷ at inlet "#a845d95f5fc60fb9cd01fb73d3da75e94" (4 ∷ 0 ∷ 2 ∷ 2 ∷ 41 ∷ [])
    ∷ at inlet "#a85ee4c75121e8ee54de22f228a3abae5" (4 ∷ 0 ∷ 2 ∷ 2 ∷ 9 ∷ [])
    ∷ at inlet "#a8a4f5ff87d40a696ab4a5d74c03cd52b" (4 ∷ 0 ∷ 2 ∷ 2 ∷ 37 ∷ [])
    ∷ []
