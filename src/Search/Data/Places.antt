-- ===== src/Search/Data/Places.antt =====
-- Overloaded functions in the generated search data of docs/documentation/html/search/: the places that
-- the pages of all entries and of the functions list in different orders.
use com_client.Search.Results.{Hit}
use com_client.Search.Data.Build.{at, cxx_id, info, inlet, lsl, outlet, resolver, xml}

abbrev pub child_value_1 : Hit
child_value_1 =
    at xml "#a893102d2d84a444a89099f9c90cb6c31"
      "lsl::xml_element::child_value(const std::string &amp;name) const"

abbrev pub continuous_resolver_1 : Hit
continuous_resolver_1 =
    at resolver "#aa3b65921342bddafabe4e5d16a3c24a3"
      "lsl::continuous_resolver::continuous_resolver(const std::string &amp;pred, double forget_after=5.0)"

abbrev pub continuous_resolver_2 : Hit
continuous_resolver_2 =
    at resolver "#a9eb3d09ca9c4f9c493a6978d403a5144"
      "lsl::continuous_resolver::continuous_resolver(const std::string &amp;prop, const std::string &amp;value, double forget_after=5.0)"

abbrev pub continuous_resolver_3 : Hit
continuous_resolver_3 =
    at resolver "#a53b81e4328aba7a83c4aa129fa0d6f62"
      "lsl::continuous_resolver::continuous_resolver(double forget_after=5.0)"

abbrev pub info_language_extensions_default_1 : Hit
info_language_extensions_default_1 =
    at cxx_id "#a0f46a8a39e09d9b803c4766904fd7e99"
      "info_language_extensions_default():&#160;CMakeCXXCompilerId.cpp"

abbrev pub info_language_standard_default_1 : Hit
info_language_standard_default_1 =
    at cxx_id "#a4607cccf070750927b458473ca82c090"
      "info_language_standard_default():&#160;CMakeCXXCompilerId.cpp"

abbrev pub next_sibling_1 : Hit
next_sibling_1 =
    at xml "#a100590d2a9822261a3f0b0ed7810134d"
      "lsl::xml_element::next_sibling(const std::string &amp;name) const"

abbrev pub previous_sibling_1 : Hit
previous_sibling_1 =
    at xml "#a70b90853b7edfaebfe69bc1103ed6b8b"
      "lsl::xml_element::previous_sibling(const std::string &amp;name) const"

abbrev pub pull_chunk_1 : Hit
pull_chunk_1 =
    at inlet "#af9051121db6ffa6945bd2288b2bf2a15"
      "lsl::stream_inlet::pull_chunk(std::vector&lt; std::vector&lt; T &gt; &gt; &amp;chunk, std::vector&lt; double &gt; &amp;timestamps)"

abbrev pub pull_chunk_2 : Hit
pull_chunk_2 =
    at inlet "#acf6cdc3afdbb4c31c97fb979e4aca632"
      "lsl::stream_inlet::pull_chunk(std::vector&lt; std::vector&lt; T &gt; &gt; &amp;chunk)"

abbrev pub pull_chunk_multiplexed_1 : Hit
pull_chunk_multiplexed_1 =
    at inlet "#a40e9727b155e274df482e4579e60f3b3"
      "lsl::stream_inlet::pull_chunk_multiplexed(int16_t *data_buffer, double *timestamp_buffer, std::size_t data_buffer_elements, std::size_t timestamp_buffer_elements, double timeout=0.0)"

abbrev pub pull_chunk_multiplexed_2 : Hit
pull_chunk_multiplexed_2 =
    at inlet "#a9ac87825319b345987fdd54e606fd56f"
      "lsl::stream_inlet::pull_chunk_multiplexed(std::vector&lt; T &gt; &amp;chunk, std::vector&lt; double &gt; *timestamps=nullptr, double timeout=0.0, bool append=false)"

abbrev pub pull_chunk_multiplexed_3 : Hit
pull_chunk_multiplexed_3 =
    at inlet "#a6a0f2f39152a2975571d5073d9967646"
      "lsl::stream_inlet::pull_chunk_multiplexed(std::string *data_buffer, double *timestamp_buffer, std::size_t data_buffer_elements, std::size_t timestamp_buffer_elements, double timeout=0.0)"

abbrev pub pull_chunk_multiplexed_4 : Hit
pull_chunk_multiplexed_4 =
    at inlet "#a85ee4c75121e8ee54de22f228a3abae5"
      "lsl::stream_inlet::pull_chunk_multiplexed(char *data_buffer, double *timestamp_buffer, std::size_t data_buffer_elements, std::size_t timestamp_buffer_elements, double timeout=0.0)"

abbrev pub pull_chunk_multiplexed_5 : Hit
pull_chunk_multiplexed_5 =
    at inlet "#a3b93d803b348905bc34747c5820d6364"
      "lsl::stream_inlet::pull_chunk_multiplexed(int32_t *data_buffer, double *timestamp_buffer, std::size_t data_buffer_elements, std::size_t timestamp_buffer_elements, double timeout=0.0)"

abbrev pub pull_chunk_multiplexed_6 : Hit
pull_chunk_multiplexed_6 =
    at inlet "#aa2f2c576a6b5a3bf562878200829bb47"
      "lsl::stream_inlet::pull_chunk_multiplexed(long *data_buffer, double *timestamp_buffer, std::size_t data_buffer_elements, std::size_t timestamp_buffer_elements, double timeout=0.0)"

abbrev pub pull_chunk_multiplexed_7 : Hit
pull_chunk_multiplexed_7 =
    at inlet "#abdb890fbad785ed4bc39288fc2f47329"
      "lsl::stream_inlet::pull_chunk_multiplexed(double *data_buffer, double *timestamp_buffer, std::size_t data_buffer_elements, std::size_t timestamp_buffer_elements, double timeout=0.0)"

abbrev pub pull_chunk_multiplexed_8 : Hit
pull_chunk_multiplexed_8 =
    at inlet "#a97adf2cb7d60e4b47bf25217a2b17964"
      "lsl::stream_inlet::pull_chunk_multiplexed(float *data_buffer, double *timestamp_buffer, std::size_t data_buffer_elements, std::size_t timestamp_buffer_elements, double timeout=0.0)"

abbrev pub pull_chunk_numeric_structs_1 : Hit
pull_chunk_numeric_structs_1 =
    at inlet "#a018caadb9a2c61f0c1c6388f7b617008"
      "lsl::stream_inlet::pull_chunk_numeric_structs(std::vector&lt; T &gt; &amp;chunk, std::vector&lt; double &gt; &amp;timestamps)"

abbrev pub pull_chunk_numeric_structs_2 : Hit
pull_chunk_numeric_structs_2 =
    at inlet "#ab14a0120e49dcd33f6df0716e6606810"
      "lsl::stream_inlet::pull_chunk_numeric_structs(std::vector&lt; T &gt; &amp;chunk)"

abbrev pub pull_sample_1 : Hit
pull_sample_1 =
    at inlet "#af3707fbfd5e9f54be73f9d55de55a8fc"
      "lsl::stream_inlet::pull_sample(std::vector&lt; float &gt; &amp;sample, double timeout=FOREVER)"

abbrev pub pull_sample_2 : Hit
pull_sample_2 =
    at inlet "#a58dc91be6ec0d1b83024a169ad0c292b"
      "lsl::stream_inlet::pull_sample(T sample[N], double timeout=FOREVER)"

abbrev pub pull_sample_3 : Hit
pull_sample_3 =
    at inlet "#a52e95747438991868e3eb9c791e24f42"
      "lsl::stream_inlet::pull_sample(std::string *buffer, int32_t buffer_elements, double timeout=FOREVER)"

abbrev pub pull_sample_4 : Hit
pull_sample_4 =
    at inlet "#a9183e81a122df862eff9ea9797c82b73"
      "lsl::stream_inlet::pull_sample(char *buffer, int32_t buffer_elements, double timeout=FOREVER)"

abbrev pub pull_sample_5 : Hit
pull_sample_5 =
    at inlet "#a3462f2634ce13e7f9c764e16a58a71a6"
      "lsl::stream_inlet::pull_sample(int16_t *buffer, int32_t buffer_elements, double timeout=FOREVER)"

abbrev pub pull_sample_6 : Hit
pull_sample_6 =
    at inlet "#ae4534102453ccd98f319c746ec1de0a9"
      "lsl::stream_inlet::pull_sample(int32_t *buffer, int32_t buffer_elements, double timeout=FOREVER)"

abbrev pub pull_sample_7 : Hit
pull_sample_7 =
    at inlet "#a774c17a647ebd321b5ce4a5450f71202"
      "lsl::stream_inlet::pull_sample(long *buffer, int32_t buffer_elements, double timeout=FOREVER)"

abbrev pub pull_sample_8 : Hit
pull_sample_8 =
    at inlet "#acb78fe666a3be090278bc3d1f3eb7619"
      "lsl::stream_inlet::pull_sample(double *buffer, int32_t buffer_elements, double timeout=FOREVER)"

abbrev pub pull_sample_9 : Hit
pull_sample_9 =
    at inlet "#a4a10bd640a10c317ba4a0244cc986146"
      "lsl::stream_inlet::pull_sample(float *buffer, int32_t buffer_elements, double timeout=FOREVER)"

abbrev pub pull_sample_10 : Hit
pull_sample_10 =
    at inlet "#a78a36bf33ddfc7101bd15cb5bcb9561d"
      "lsl::stream_inlet::pull_sample(std::vector&lt; std::string &gt; &amp;sample, double timeout=FOREVER)"

abbrev pub pull_sample_11 : Hit
pull_sample_11 =
    at inlet "#a3a2a662e0b723d7f2101b79eb08371b7"
      "lsl::stream_inlet::pull_sample(std::vector&lt; char &gt; &amp;sample, double timeout=FOREVER)"

abbrev pub pull_sample_12 : Hit
pull_sample_12 =
    at inlet "#a7789d75e1afceaf5187e8bc33a0b99be"
      "lsl::stream_inlet::pull_sample(std::vector&lt; int16_t &gt; &amp;sample, double timeout=FOREVER)"

abbrev pub pull_sample_13 : Hit
pull_sample_13 =
    at inlet "#af33558ccbbe57767386278d2255db1a1"
      "lsl::stream_inlet::pull_sample(std::vector&lt; int32_t &gt; &amp;sample, double timeout=FOREVER)"

abbrev pub pull_sample_14 : Hit
pull_sample_14 =
    at inlet "#a80fecf88ba609c7e4898eb16a49f2b75"
      "lsl::stream_inlet::pull_sample(std::vector&lt; long &gt; &amp;sample, double timeout=FOREVER)"

abbrev pub pull_sample_15 : Hit
pull_sample_15 =
    at inlet "#a447dd270fa83d8f1df16963b8601027e"
      "lsl::stream_inlet::pull_sample(std::vector&lt; double &gt; &amp;sample, double timeout=FOREVER)"

abbrev pub push_chunk_1 : Hit
push_chunk_1 =
    at outlet "#a58427b98e8a60e7d160534078f3e04f8"
      "lsl::stream_outlet::push_chunk(const std::vector&lt; T &gt; &amp;samples, double timestamp=0.0, bool pushthrough=true)"

abbrev pub push_chunk_2 : Hit
push_chunk_2 =
    at outlet "#a05ff22ae7b36a9e64dc08f71b45913e6"
      "lsl::stream_outlet::push_chunk(const std::vector&lt; T &gt; &amp;samples, const std::vector&lt; double &gt; &amp;timestamps, bool pushthrough=true)"

abbrev pub push_chunk_multiplexed_1 : Hit
push_chunk_multiplexed_1 =
    at outlet "#aa42becb37b937c5d6319dac67a0da4a4"
      "lsl::stream_outlet::push_chunk_multiplexed(const std::vector&lt; double &gt; &amp;buffer, double timestamp=0.0, bool pushthrough=true)"

abbrev pub push_chunk_multiplexed_2 : Hit
push_chunk_multiplexed_2 =
    at outlet "#a17744ee6e963464fe6442d1e6f1a50f8"
      "lsl::stream_outlet::push_chunk_multiplexed(const std::string *data_buffer, const double *timestamp_buffer, std::size_t data_buffer_elements, bool pushthrough=true)"

abbrev pub push_chunk_multiplexed_3 : Hit
push_chunk_multiplexed_3 =
    at outlet "#a6ff877ac1b4c96f38ac36a2319a874da"
      "lsl::stream_outlet::push_chunk_multiplexed(const char *data_buffer, const double *timestamp_buffer, std::size_t data_buffer_elements, bool pushthrough=true)"

abbrev pub push_chunk_multiplexed_4 : Hit
push_chunk_multiplexed_4 =
    at outlet "#ac90405c89feb8c95a493f42a0c749421"
      "lsl::stream_outlet::push_chunk_multiplexed(const int16_t *data_buffer, const double *timestamp_buffer, std::size_t data_buffer_elements, bool pushthrough=true)"

abbrev pub push_chunk_multiplexed_5 : Hit
push_chunk_multiplexed_5 =
    at outlet "#a10acfcf6b1db179f04596def60bc3792"
      "lsl::stream_outlet::push_chunk_multiplexed(const int32_t *data_buffer, const double *timestamp_buffer, std::size_t data_buffer_elements, bool pushthrough=true)"

abbrev pub push_chunk_multiplexed_6 : Hit
push_chunk_multiplexed_6 =
    at outlet "#a3ec413951e8613ce5289a265aaabf6e9"
      "lsl::stream_outlet::push_chunk_multiplexed(const long *data_buffer, const double *timestamp_buffer, std::size_t data_buffer_elements, bool pushthrough=true)"

abbrev pub push_chunk_multiplexed_7 : Hit
push_chunk_multiplexed_7 =
    at outlet "#ad0a2c2b78e18b423e34ed0282df6b919"
      "lsl::stream_outlet::push_chunk_multiplexed(const std::vector&lt; double &gt; &amp;buffer, const std::vector&lt; double &gt; &amp;timestamps, bool pushthrough=true)"

abbrev pub push_chunk_multiplexed_8 : Hit
push_chunk_multiplexed_8 =
    at outlet "#a4953cee1905211d533cb9bd6b0525099"
      "lsl::stream_outlet::push_chunk_multiplexed(const long *buffer, std::size_t buffer_elements, double timestamp=0.0, bool pushthrough=true)"

abbrev pub push_chunk_multiplexed_9 : Hit
push_chunk_multiplexed_9 =
    at outlet "#af5d993951e77df22ecb225c3b4aad87c"
      "lsl::stream_outlet::push_chunk_multiplexed(const double *buffer, std::size_t buffer_elements, double timestamp=0.0, bool pushthrough=true)"

abbrev pub push_chunk_multiplexed_10 : Hit
push_chunk_multiplexed_10 =
    at outlet "#a7ea80b891c9aaf7b4c62c715692218cc"
      "lsl::stream_outlet::push_chunk_multiplexed(const float *buffer, std::size_t buffer_elements, double timestamp=0.0, bool pushthrough=true)"

abbrev pub push_chunk_multiplexed_11 : Hit
push_chunk_multiplexed_11 =
    at outlet "#ac31c0f13ba9de7331e520b3b08ede811"
      "lsl::stream_outlet::push_chunk_multiplexed(const std::vector&lt; std::string &gt; &amp;buffer, const std::vector&lt; double &gt; &amp;timestamps, bool pushthrough=true)"

abbrev pub push_chunk_multiplexed_12 : Hit
push_chunk_multiplexed_12 =
    at outlet "#a5ceb5a7488582559846637a310056605"
      "lsl::stream_outlet::push_chunk_multiplexed(const std::vector&lt; char &gt; &amp;buffer, const std::vector&lt; double &gt; &amp;timestamps, bool pushthrough=true)"

abbrev pub push_chunk_multiplexed_13 : Hit
push_chunk_multiplexed_13 =
    at outlet "#a9d175090070f408ca7e9c8d8437c02f6"
      "lsl::stream_outlet::push_chunk_multiplexed(const std::vector&lt; int16_t &gt; &amp;buffer, const std::vector&lt; double &gt; &amp;timestamps, bool pushthrough=true)"

abbrev pub push_chunk_multiplexed_14 : Hit
push_chunk_multiplexed_14 =
    at outlet "#ae3875c13d689e11c6d34181b8fadfa5d"
      "lsl::stream_outlet::push_chunk_multiplexed(const std::vector&lt; int32_t &gt; &amp;buffer, const std::vector&lt; double &gt; &amp;timestamps, bool pushthrough=true)"

abbrev pub push_chunk_multiplexed_15 : Hit
push_chunk_multiplexed_15 =
    at outlet "#a9075bd46bb9f2d1a0d494dbb7772eb48"
      "lsl::stream_outlet::push_chunk_multiplexed(const std::vector&lt; long &gt; &amp;buffer, const std::vector&lt; double &gt; &amp;timestamps, bool pushthrough=true)"

abbrev pub push_chunk_multiplexed_16 : Hit
push_chunk_multiplexed_16 =
    at outlet "#a4cc12f447c2ccfe67a118a3c23215f0d"
      "lsl::stream_outlet::push_chunk_multiplexed(const float *data_buffer, const double *timestamp_buffer, std::size_t data_buffer_elements, bool pushthrough=true)"

abbrev pub push_chunk_multiplexed_17 : Hit
push_chunk_multiplexed_17 =
    at outlet "#a5944abd4386a9568441ddb352e8df71f"
      "lsl::stream_outlet::push_chunk_multiplexed(const std::vector&lt; float &gt; &amp;buffer, const std::vector&lt; double &gt; &amp;timestamps, bool pushthrough=true)"

abbrev pub push_chunk_multiplexed_18 : Hit
push_chunk_multiplexed_18 =
    at outlet "#a554027868fa9710470f0c3f057904b4b"
      "lsl::stream_outlet::push_chunk_multiplexed(const std::vector&lt; std::string &gt; &amp;buffer, double timestamp=0.0, bool pushthrough=true)"

abbrev pub push_chunk_multiplexed_19 : Hit
push_chunk_multiplexed_19 =
    at outlet "#af1bedf881293459205b9ba5df7b92051"
      "lsl::stream_outlet::push_chunk_multiplexed(const std::vector&lt; char &gt; &amp;buffer, double timestamp=0.0, bool pushthrough=true)"

abbrev pub push_chunk_multiplexed_20 : Hit
push_chunk_multiplexed_20 =
    at outlet "#a874e84f39bf470f755aa46da300244f6"
      "lsl::stream_outlet::push_chunk_multiplexed(const std::vector&lt; int16_t &gt; &amp;buffer, double timestamp=0.0, bool pushthrough=true)"

abbrev pub push_chunk_multiplexed_21 : Hit
push_chunk_multiplexed_21 =
    at outlet "#a341840ed1504e2cfa0cc9c15263e030a"
      "lsl::stream_outlet::push_chunk_multiplexed(const std::vector&lt; int32_t &gt; &amp;buffer, double timestamp=0.0, bool pushthrough=true)"

abbrev pub push_chunk_multiplexed_22 : Hit
push_chunk_multiplexed_22 =
    at outlet "#abe328c3200c383d160ca0e00029b8124"
      "lsl::stream_outlet::push_chunk_multiplexed(const std::vector&lt; long &gt; &amp;buffer, double timestamp=0.0, bool pushthrough=true)"

abbrev pub push_chunk_multiplexed_23 : Hit
push_chunk_multiplexed_23 =
    at outlet "#adafb6b76614ea386917f696bdb272209"
      "lsl::stream_outlet::push_chunk_multiplexed(const std::vector&lt; float &gt; &amp;buffer, double timestamp=0.0, bool pushthrough=true)"

abbrev pub push_chunk_multiplexed_24 : Hit
push_chunk_multiplexed_24 =
    at outlet "#a4f476f737355d7c2b128dcc1798f46b7"
      "lsl::stream_outlet::push_chunk_multiplexed(const double *data_buffer, const double *timestamp_buffer, std::size_t data_buffer_elements, bool pushthrough=true)"

abbrev pub push_chunk_multiplexed_25 : Hit
push_chunk_multiplexed_25 =
    at outlet "#a2b4da4c1a2c3c47f39ed8a3f2cc717a5"
      "lsl::stream_outlet::push_chunk_multiplexed(const std::string *buffer, std::size_t buffer_elements, double timestamp=0.0, bool pushthrough=true)"

abbrev pub push_chunk_multiplexed_26 : Hit
push_chunk_multiplexed_26 =
    at outlet "#ab462e099798c3055b8f976767b239379"
      "lsl::stream_outlet::push_chunk_multiplexed(const char *buffer, std::size_t buffer_elements, double timestamp=0.0, bool pushthrough=true)"

abbrev pub push_chunk_multiplexed_27 : Hit
push_chunk_multiplexed_27 =
    at outlet "#a78a48678f40e2bbb591aa0b9da9891d8"
      "lsl::stream_outlet::push_chunk_multiplexed(const int16_t *buffer, std::size_t buffer_elements, double timestamp=0.0, bool pushthrough=true)"

abbrev pub push_chunk_multiplexed_28 : Hit
push_chunk_multiplexed_28 =
    at outlet "#a161ead63f9a373d69744c3c54a650c1d"
      "lsl::stream_outlet::push_chunk_multiplexed(const int32_t *buffer, std::size_t buffer_elements, double timestamp=0.0, bool pushthrough=true)"

abbrev pub push_chunk_numeric_structs_1 : Hit
push_chunk_numeric_structs_1 =
    at outlet "#ad7e1405b50bc546c4f742f508aa734cc"
      "lsl::stream_outlet::push_chunk_numeric_structs(const std::vector&lt; T &gt; &amp;samples, double timestamp=0.0, bool pushthrough=true)"

abbrev pub push_chunk_numeric_structs_2 : Hit
push_chunk_numeric_structs_2 =
    at outlet "#a226b11eae43287c7b72e4d0ca1e812e7"
      "lsl::stream_outlet::push_chunk_numeric_structs(const std::vector&lt; T &gt; &amp;samples, const std::vector&lt; double &gt; &amp;timestamps, bool pushthrough=true)"

abbrev pub push_sample_1 : Hit
push_sample_1 =
    at outlet "#abd59227041d01d48e90d4d5d05da7662"
      "lsl::stream_outlet::push_sample(const std::vector&lt; double &gt; &amp;data, double timestamp=0.0, bool pushthrough=true)"

abbrev pub push_sample_2 : Hit
push_sample_2 =
    at outlet "#a675bbe044a5053087e05e0267fe6722a"
      "lsl::stream_outlet::push_sample(const T data[N], double timestamp=0.0, bool pushthrough=true)"

abbrev pub push_sample_3 : Hit
push_sample_3 =
    at outlet "#a4c984d8bf178e2321c590aaf81d4da3f"
      "lsl::stream_outlet::push_sample(const std::vector&lt; float &gt; &amp;data, double timestamp=0.0, bool pushthrough=true)"

abbrev pub push_sample_4 : Hit
push_sample_4 =
    at outlet "#a59f69780061e6c8743a4cb566944033b"
      "lsl::stream_outlet::push_sample(const std::vector&lt; std::string &gt; &amp;data, double timestamp=0.0, bool pushthrough=true)"

abbrev pub push_sample_5 : Hit
push_sample_5 =
    at outlet "#a277f76e889a33849170d5c25fa99c723"
      "lsl::stream_outlet::push_sample(const std::vector&lt; long &gt; &amp;data, double timestamp=0.0, bool pushthrough=true)"

abbrev pub push_sample_6 : Hit
push_sample_6 =
    at outlet "#aa1f12739e569d284896c7f514f55a301"
      "lsl::stream_outlet::push_sample(const std::vector&lt; int32_t &gt; &amp;data, double timestamp=0.0, bool pushthrough=true)"

abbrev pub push_sample_7 : Hit
push_sample_7 =
    at outlet "#a66a528d5f31f5b5f747994c6de35a80f"
      "lsl::stream_outlet::push_sample(const std::vector&lt; int16_t &gt; &amp;data, double timestamp=0.0, bool pushthrough=true)"

abbrev pub push_sample_8 : Hit
push_sample_8 =
    at outlet "#a510668a6adc032792e8bad06458e58eb"
      "lsl::stream_outlet::push_sample(const std::vector&lt; char &gt; &amp;data, double timestamp=0.0, bool pushthrough=true)"

abbrev pub push_sample_9 : Hit
push_sample_9 =
    at outlet "#a93e571140b73b4324051b8ef4b5606a4"
      "lsl::stream_outlet::push_sample(const std::string *data, double timestamp=0.0, bool pushthrough=true)"

abbrev pub push_sample_10 : Hit
push_sample_10 =
    at outlet "#acbb1a237bb410d9794c1961922aca6ad"
      "lsl::stream_outlet::push_sample(const char *data, double timestamp=0.0, bool pushthrough=true)"

abbrev pub push_sample_11 : Hit
push_sample_11 =
    at outlet "#ae67672d4aa82d500e0a192d38f64d6fe"
      "lsl::stream_outlet::push_sample(const int16_t *data, double timestamp=0.0, bool pushthrough=true)"

abbrev pub push_sample_12 : Hit
push_sample_12 =
    at outlet "#aff1709d7bbf628e9b14d18444c7ac237"
      "lsl::stream_outlet::push_sample(const int32_t *data, double timestamp=0.0, bool pushthrough=true)"

abbrev pub push_sample_13 : Hit
push_sample_13 =
    at outlet "#a558af80f807399556a2483346e80b935"
      "lsl::stream_outlet::push_sample(const long *data, double timestamp=0.0, bool pushthrough=true)"

abbrev pub push_sample_14 : Hit
push_sample_14 =
    at outlet "#af0d747a0610be04501117f87c1b010e9"
      "lsl::stream_outlet::push_sample(const double *data, double timestamp=0.0, bool pushthrough=true)"

abbrev pub push_sample_15 : Hit
push_sample_15 =
    at outlet "#a24192e6e3416ad36154bc01be55334c3"
      "lsl::stream_outlet::push_sample(const float *data, double timestamp=0.0, bool pushthrough=true)"

abbrev pub resolve_stream_1 : Hit
resolve_stream_1 =
    at lsl "#a4edfbcc31f48f27e8f7c2a36b69cd4b9"
      "lsl::resolve_stream(const std::string &amp;prop, const std::string &amp;value, int32_t minimum=1, double timeout=FOREVER)"

abbrev pub resolve_stream_2 : Hit
resolve_stream_2 =
    at lsl "#a824e14275a55df97d0552a91fc2c4097"
      "lsl::resolve_stream(const std::string &amp;pred, int32_t minimum=1, double timeout=FOREVER)"

abbrev pub stream_info_1 : Hit
stream_info_1 =
    at info "#a874f4899da89168b768cfe9acdd569a0"
      "lsl::stream_info::stream_info(const std::string &amp;name, const std::string &amp;type, int32_t channel_count=1, double nominal_srate=IRREGULAR_RATE, channel_format_t channel_format=cf_float32, const std::string &amp;source_id=std::string())"

abbrev pub time_correction_1 : Hit
time_correction_1 =
    at inlet "#a9603f3365093f43f9e2bae1b9e9b2cd8"
      "lsl::stream_inlet::time_correction(double *remote_time, double *uncertainty, double timeout=FOREVER)"
