-- ===== src/NavTree/Tree/Data.antt =====
-- `NAVTREE` of docs/documentation/html/navtreedata.js, and the root that `initNavTree` makes of it.
use com_client.Base.{codes, false, true, []}
use com_client.NavTree.Tree.{Rows, no_rows, row, leaf, script, rows, Flags, Node, node, nil}

abbrev pub nav_tree : Rows
nav_tree =
    row (codes "CleverHand Interface") (codes "index.html")
      (rows (
        row (codes "com_client") (codes "index.html")
          (rows (
            row (codes "Building source code") (codes "index.html#autotoc_md5") leaf (
              row (codes "Demonstration app") (codes "index.html#autotoc_md6") leaf
                (row (codes "Example") (codes "index.html#autotoc_md7") leaf no_rows))))
          (row (codes "strANSIseq")
            (codes
              "d8/de6/md__home_aightech_dev_kistler__d_a_q_lib_com_client_lib_str_a_n_s_iseq__r_e_a_d_m_e.html")
            (rows (
              row (codes "Building source code")
                (codes
                  "d8/de6/md__home_aightech_dev_kistler__d_a_q_lib_com_client_lib_str_a_n_s_iseq__r_e_a_d_m_e.html#autotoc_md1")
                leaf
                (row (codes "Demonstration app")
                  (codes
                    "d8/de6/md__home_aightech_dev_kistler__d_a_q_lib_com_client_lib_str_a_n_s_iseq__r_e_a_d_m_e.html#autotoc_md2")
                  leaf
                  (row (codes "Example")
                    (codes
                      "d8/de6/md__home_aightech_dev_kistler__d_a_q_lib_com_client_lib_str_a_n_s_iseq__r_e_a_d_m_e.html#autotoc_md3")
                    leaf no_rows))))
            (row (codes "built_lsl")
              (codes
                "d5/d45/md__home_aightech_dev_kistler__d_a_q_lib_com_client_tool_lib_built_lsl__r_e_a_d_m_e.html")
              (rows (
                row (codes "Building source code")
                  (codes
                    "d5/d45/md__home_aightech_dev_kistler__d_a_q_lib_com_client_tool_lib_built_lsl__r_e_a_d_m_e.html#autotoc_md9")
                  leaf
                  (row (codes "Demonstration app")
                    (codes
                      "d5/d45/md__home_aightech_dev_kistler__d_a_q_lib_com_client_tool_lib_built_lsl__r_e_a_d_m_e.html#autotoc_md10")
                    leaf
                    (row (codes "Example")
                      (codes
                        "d5/d45/md__home_aightech_dev_kistler__d_a_q_lib_com_client_tool_lib_built_lsl__r_e_a_d_m_e.html#autotoc_md11")
                      leaf no_rows))))
              (row (codes "Namespaces") (codes "namespaces.html")
                (rows (
                  row (codes "Namespace List") (codes "namespaces.html")
                    (script (codes "namespaces_dup"))
                    (row (codes "Namespace Members") (codes "namespacemembers.html")
                      (rows (
                        row (codes "All") (codes "namespacemembers.html") leaf (
                          row (codes "Functions") (codes "namespacemembers_func.html") leaf (
                            row (codes "Variables") (codes "namespacemembers_vars.html") leaf (
                              row (codes "Enumerations") (codes "namespacemembers_enum.html") leaf (
                                row (codes "Enumerator") (codes "namespacemembers_eval.html") leaf
                                  no_rows))))))
                      no_rows)))
                (row (codes "Classes") (codes "annotated.html")
                  (rows (
                    row (codes "Class List") (codes "annotated.html")
                      (script (codes "annotated_dup"))
                      (row (codes "Class Index") (codes "classes.html") leaf (
                        row (codes "Class Hierarchy") (codes "hierarchy.html")
                          (script (codes "hierarchy"))
                          (row (codes "Class Members") (codes "functions.html")
                            (rows (
                              row (codes "All") (codes "functions.html") leaf (
                                row (codes "Functions") (codes "functions_func.html") leaf (
                                  row (codes "Variables") (codes "functions_vars.html") leaf (
                                    row (codes "Enumerations") (codes "functions_enum.html") leaf (
                                      row (codes "Enumerator") (codes "functions_eval.html") leaf
                                        no_rows))))))
                            no_rows)))))
                  (row (codes "Files") (codes "files.html")
                    (rows (
                      row (codes "File List") (codes "files.html") (script (codes "files_dup")) (
                        row (codes "File Members") (codes "globals.html")
                          (rows (
                            row (codes "All") (codes "globals.html") (script (codes "globals_dup"))
                              (row (codes "Functions") (codes "globals_func.html") leaf (
                                row (codes "Variables") (codes "globals_vars.html") leaf (
                                  row (codes "Typedefs") (codes "globals_type.html") leaf (
                                    row (codes "Enumerations") (codes "globals_enum.html") leaf (
                                      row (codes "Enumerator") (codes "globals_eval.html") leaf (
                                        row (codes "Macros") (codes "globals_defs.html") leaf
                                          no_rows))))))))
                          no_rows)))
                    no_rows)))))))
      no_rows

abbrev pub root_flags : Flags
root_flags = record { expanded = false; visited = false; displayed = true }

abbrev pub root_node : Node
root_node = node [] [] (rows nav_tree) root_flags nil
