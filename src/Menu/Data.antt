-- ===== src/Menu/Data.antt =====
-- The data of the menu: docs/documentation/html/menudata.js.
use com_client.Base.{codes}
use com_client.Menu.{Menu, plain, children, no_items, item}

abbrev pub menudata : Menu
menudata = children (
    item (codes "Main Page") (codes "index.html") plain (
      item (codes "Related Pages") (codes "pages.html") plain (
        item (codes "Namespaces") (codes "namespaces.html")
          (children (
            item (codes "Namespace List") (codes "namespaces.html") plain (
              item (codes "Namespace Members") (codes "namespacemembers.html")
                (children (
                  item (codes "All") (codes "namespacemembers.html")
                    (children (
                      item (codes "b") (codes "namespacemembers.html#index_b") plain (
                        item (codes "c") (codes "namespacemembers.html#index_c") plain (
                          item (codes "d") (codes "namespacemembers.html#index_d") plain (
                            item (codes "f") (codes "namespacemembers.html#index_f") plain (
                              item (codes "g") (codes "namespacemembers.html#index_g") plain (
                                item (codes "h") (codes "namespacemembers.html#index_h") plain (
                                  item (codes "i") (codes "namespacemembers.html#index_i") plain (
                                    item (codes "l") (codes "namespacemembers.html#index_l") plain (
                                      item (codes "m") (codes "namespacemembers.html#index_m") plain
                                        (item (codes "p") (codes "namespacemembers.html#index_p")
                                          plain
                                          (item (codes "r") (codes "namespacemembers.html#index_r")
                                            plain
                                            (item (codes "s")
                                              (codes "namespacemembers.html#index_s") plain
                                              (item (codes "u")
                                                (codes "namespacemembers.html#index_u") plain
                                                no_items))))))))))))))
                    (item (codes "Functions") (codes "namespacemembers_func.html") plain (
                      item (codes "Variables") (codes "namespacemembers_vars.html") plain (
                        item (codes "Enumerations") (codes "namespacemembers_enum.html") plain (
                          item (codes "Enumerator") (codes "namespacemembers_eval.html")
                            (children (
                              item (codes "b") (codes "namespacemembers_eval.html#index_b") plain (
                                item (codes "c") (codes "namespacemembers_eval.html#index_c") plain
                                  (item (codes "d") (codes "namespacemembers_eval.html#index_d")
                                    plain
                                    (item (codes "f") (codes "namespacemembers_eval.html#index_f")
                                      plain
                                      (item (codes "h") (codes "namespacemembers_eval.html#index_h")
                                        plain
                                        (item (codes "i")
                                          (codes "namespacemembers_eval.html#index_i") plain
                                          (item (codes "p")
                                            (codes "namespacemembers_eval.html#index_p") plain
                                            (item (codes "r")
                                              (codes "namespacemembers_eval.html#index_r") plain
                                              (item (codes "s")
                                                (codes "namespacemembers_eval.html#index_s") plain
                                                (item (codes "u")
                                                  (codes "namespacemembers_eval.html#index_u") plain
                                                  no_items)))))))))))
                            no_items))))))
                no_items)))
          (item (codes "Classes") (codes "annotated.html")
            (children (
              item (codes "Class List") (codes "annotated.html") plain (
                item (codes "Class Index") (codes "classes.html") plain (
                  item (codes "Class Hierarchy") (codes "inherits.html") plain (
                    item (codes "Class Members") (codes "functions.html")
                      (children (
                        item (codes "All") (codes "functions.html")
                          (children (
                            item (codes "a") (codes "functions.html#index_a") plain (
                              item (codes "c") (codes "functions.html#index_c") plain (
                                item (codes "d") (codes "functions.html#index_d") plain (
                                  item (codes "e") (codes "functions.html#index_e") plain (
                                    item (codes "f") (codes "functions.html#index_f") plain (
                                      item (codes "g") (codes "functions.html#index_g") plain (
                                        item (codes "h") (codes "functions.html#index_h") plain (
                                          item (codes "i") (codes "functions.html#index_i") plain (
                                            item (codes "l") (codes "functions.html#index_l") plain
                                              (item (codes "m") (codes "functions.html#index_m")
                                                plain
                                                (item (codes "n") (codes "functions.html#index_n")
                                                  plain
                                                  (item (codes "o") (codes "functions.html#index_o")
                                                    plain
                                                    (item (codes "p")
                                                      (codes "functions.html#index_p") plain
                                                      (item (codes "r")
                                                        (codes "functions.html#index_r") plain
                                                        (item (codes "s")
                                                          (codes "functions.html#index_s") plain
                                                          (item (codes "t")
                                                            (codes "functions.html#index_t") plain
                                                            (item (codes "u")
                                                            (codes "functions.html#index_u") plain
                                                            (item (codes "v")
                                                            (codes "functions.html#index_v") plain
                                                            (item (codes "w")
                                                            (codes "functions.html#index_w") plain
                                                            (item (codes "x")
                                                            (codes "functions.html#index_x") plain
                                                            (item (codes "~")
                                                            (codes "functions.html#index__7E") plain
                                                            no_items))))))))))))))))))))))
                          (item (codes "Functions") (codes "functions_func.html")
                            (children (
                              item (codes "a") (codes "functions_func.html#index_a") plain (
                                item (codes "c") (codes "functions_func.html#index_c") plain (
                                  item (codes "d") (codes "functions_func.html#index_d") plain (
                                    item (codes "e") (codes "functions_func.html#index_e") plain (
                                      item (codes "f") (codes "functions_func.html#index_f") plain (
                                        item (codes "g") (codes "functions_func.html#index_g") plain
                                          (item (codes "h") (codes "functions_func.html#index_h")
                                            plain
                                            (item (codes "i") (codes "functions_func.html#index_i")
                                              plain
                                              (item (codes "l")
                                                (codes "functions_func.html#index_l") plain
                                                (item (codes "m")
                                                  (codes "functions_func.html#index_m") plain
                                                  (item (codes "n")
                                                    (codes "functions_func.html#index_n") plain
                                                    (item (codes "o")
                                                      (codes "functions_func.html#index_o") plain
                                                      (item (codes "p")
                                                        (codes "functions_func.html#index_p") plain
                                                        (item (codes "r")
                                                          (codes "functions_func.html#index_r")
                                                          plain
                                                          (item (codes "s")
                                                            (codes "functions_func.html#index_s")
                                                            plain
                                                            (item (codes "t")
                                                            (codes "functions_func.html#index_t")
                                                            plain
                                                            (item (codes "u")
                                                            (codes "functions_func.html#index_u")
                                                            plain
                                                            (item (codes "v")
                                                            (codes "functions_func.html#index_v")
                                                            plain
                                                            (item (codes "w")
                                                            (codes "functions_func.html#index_w")
                                                            plain
                                                            (item (codes "x")
                                                            (codes "functions_func.html#index_x")
                                                            plain
                                                            (item (codes "~")
                                                            (codes "functions_func.html#index__7E")
                                                            plain no_items))))))))))))))))))))))
                            (item (codes "Variables") (codes "functions_vars.html") plain (
                              item (codes "Enumerations") (codes "functions_enum.html") plain (
                                item (codes "Enumerator") (codes "functions_eval.html") plain
                                  no_items))))))
                      no_items)))))
            (item (codes "Files") (codes "files.html")
              (children (
                item (codes "File List") (codes "files.html") plain (
                  item (codes "File Members") (codes "globals.html")
                    (children (
                      item (codes "All") (codes "globals.html")
                        (children (
                          item (codes "_") (codes "globals.html#index__5F") plain (
                            item (codes "a") (codes "globals_a.html#index_a") plain (
                              item (codes "c") (codes "globals_c.html#index_c") plain (
                                item (codes "d") (codes "globals_d.html#index_d") plain (
                                  item (codes "h") (codes "globals_h.html#index_h") plain (
                                    item (codes "i") (codes "globals_i.html#index_i") plain (
                                      item (codes "l") (codes "globals_l.html#index_l") plain (
                                        item (codes "m") (codes "globals_m.html#index_m") plain (
                                          item (codes "p") (codes "globals_p.html#index_p") plain (
                                            item (codes "s") (codes "globals_s.html#index_s") plain
                                              no_items)))))))))))
                        (item (codes "Functions") (codes "globals_func.html")
                          (children (
                            item (codes "l") (codes "globals_func.html#index_l") plain (
                              item (codes "m") (codes "globals_func.html#index_m") plain no_items)))
                          (item (codes "Variables") (codes "globals_vars.html") plain (
                            item (codes "Typedefs") (codes "globals_type.html") plain (
                              item (codes "Enumerations") (codes "globals_enum.html") plain (
                                item (codes "Enumerator") (codes "globals_eval.html") plain (
                                  item (codes "Macros") (codes "globals_defs.html") plain
                                    no_items))))))))
                    no_items)))
              no_items)))))
