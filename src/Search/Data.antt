-- ===== src/Search/Data.antt =====
-- The generated search data: the array of every page of results of docs/documentation/html/search/, which
-- stands in the script of the page's name, by sections and in the order of the pages' numbers.
pub mod Build
pub mod Places
pub mod AllFront
pub mod AllMiddle
pub mod AllBack
pub mod Kinds
pub mod Functions
pub mod Values
pub mod Complete
pub mod Typed
pub mod Found
pub mod EndToEnd
use com_client.Base.{List, [], ◌∷◌}
use com_client.Search.Data.Build.{File, file}
use com_client.Search.Data.AllFront.{all_0, all_1, all_2, all_3, all_4, all_5, all_6, all_7, all_8}
use com_client.Search.Data.AllMiddle.{all_9, all_a, all_b, all_c, all_d}
use com_client.Search.Data.AllBack.{
  all_e, all_f, all_10, all_11, all_12, all_13, all_14, all_15, all_16,
}
use com_client.Search.Data.Kinds.{
  classes_0, classes_1, classes_2, classes_3, classes_4, classes_5, namespaces_0, namespaces_1,
  namespaces_2, files_0, files_1, files_2, files_3, files_4, files_5,
}
use com_client.Search.Data.Functions.{
  functions_0, functions_1, functions_2, functions_3, functions_4, functions_5, functions_6,
  functions_7, functions_8, functions_9, functions_a, functions_b, functions_c, functions_d,
  functions_e, functions_f, functions_10, functions_11, functions_12, functions_13, functions_14,
}
use com_client.Search.Data.Values.{
  variables_0, variables_1, variables_2, variables_3, variables_4, typedefs_0, enums_0, enums_1,
  enums_2, enums_3, enums_4, enumvalues_0, enumvalues_1, enumvalues_2, enumvalues_3, enumvalues_4,
  enumvalues_5, enumvalues_6, enumvalues_7, enumvalues_8, enumvalues_9, enumvalues_a, enumvalues_b,
  defines_0, defines_1, defines_2, defines_3, defines_4, defines_5, defines_6, defines_7, pages_0,
  pages_1, pages_2,
}

abbrev pub sections : List (List File)
sections =
    (file "all_0" all_0
      ∷ file "all_1" all_1
      ∷ file "all_2" all_2
      ∷ file "all_3" all_3
      ∷ file "all_4" all_4
      ∷ file "all_5" all_5
      ∷ file "all_6" all_6
      ∷ file "all_7" all_7
      ∷ file "all_8" all_8
      ∷ file "all_9" all_9
      ∷ file "all_a" all_a
      ∷ file "all_b" all_b
      ∷ file "all_c" all_c
      ∷ file "all_d" all_d
      ∷ file "all_e" all_e
      ∷ file "all_f" all_f
      ∷ file "all_10" all_10
      ∷ file "all_11" all_11
      ∷ file "all_12" all_12
      ∷ file "all_13" all_13
      ∷ file "all_14" all_14
      ∷ file "all_15" all_15
      ∷ file "all_16" all_16
      ∷ [])
    ∷ (file "classes_0" classes_0
        ∷ file "classes_1" classes_1
        ∷ file "classes_2" classes_2
        ∷ file "classes_3" classes_3
        ∷ file "classes_4" classes_4
        ∷ file "classes_5" classes_5
        ∷ [])
    ∷ (file "namespaces_0" namespaces_0
        ∷ file "namespaces_1" namespaces_1
        ∷ file "namespaces_2" namespaces_2
        ∷ [])
    ∷ (file "files_0" files_0
        ∷ file "files_1" files_1
        ∷ file "files_2" files_2
        ∷ file "files_3" files_3
        ∷ file "files_4" files_4
        ∷ file "files_5" files_5
        ∷ [])
    ∷ (file "functions_0" functions_0
        ∷ file "functions_1" functions_1
        ∷ file "functions_2" functions_2
        ∷ file "functions_3" functions_3
        ∷ file "functions_4" functions_4
        ∷ file "functions_5" functions_5
        ∷ file "functions_6" functions_6
        ∷ file "functions_7" functions_7
        ∷ file "functions_8" functions_8
        ∷ file "functions_9" functions_9
        ∷ file "functions_a" functions_a
        ∷ file "functions_b" functions_b
        ∷ file "functions_c" functions_c
        ∷ file "functions_d" functions_d
        ∷ file "functions_e" functions_e
        ∷ file "functions_f" functions_f
        ∷ file "functions_10" functions_10
        ∷ file "functions_11" functions_11
        ∷ file "functions_12" functions_12
        ∷ file "functions_13" functions_13
        ∷ file "functions_14" functions_14
        ∷ [])
    ∷ (file "variables_0" variables_0
        ∷ file "variables_1" variables_1
        ∷ file "variables_2" variables_2
        ∷ file "variables_3" variables_3
        ∷ file "variables_4" variables_4
        ∷ [])
    ∷ (file "typedefs_0" typedefs_0 ∷ [])
    ∷ (file "enums_0" enums_0
        ∷ file "enums_1" enums_1
        ∷ file "enums_2" enums_2
        ∷ file "enums_3" enums_3
        ∷ file "enums_4" enums_4
        ∷ [])
    ∷ (file "enumvalues_0" enumvalues_0
        ∷ file "enumvalues_1" enumvalues_1
        ∷ file "enumvalues_2" enumvalues_2
        ∷ file "enumvalues_3" enumvalues_3
        ∷ file "enumvalues_4" enumvalues_4
        ∷ file "enumvalues_5" enumvalues_5
        ∷ file "enumvalues_6" enumvalues_6
        ∷ file "enumvalues_7" enumvalues_7
        ∷ file "enumvalues_8" enumvalues_8
        ∷ file "enumvalues_9" enumvalues_9
        ∷ file "enumvalues_a" enumvalues_a
        ∷ file "enumvalues_b" enumvalues_b
        ∷ [])
    ∷ (file "defines_0" defines_0
        ∷ file "defines_1" defines_1
        ∷ file "defines_2" defines_2
        ∷ file "defines_3" defines_3
        ∷ file "defines_4" defines_4
        ∷ file "defines_5" defines_5
        ∷ file "defines_6" defines_6
        ∷ file "defines_7" defines_7
        ∷ [])
    ∷ (file "pages_0" pages_0 ∷ file "pages_1" pages_1 ∷ file "pages_2" pages_2 ∷ [])
    ∷ []
