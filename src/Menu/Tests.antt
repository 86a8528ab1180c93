-- ===== src/Menu/Tests.antt =====
-- The menu of the pages as docs/documentation/html/menu.js writes it.
use com_client.Base.{◌≡◌, refl, codes, [], some, none, text_eq, arith}
use com_client.Menu.{plain, children, no_items, item, make_tree}
use com_client.Menu.Data.{menudata}
use com_client.Menu.Balance.{outside, read, IsPlain, make_tree-balanced}

written :
    make_tree (children (item (codes "A") (codes "a.html") plain no_items)) (codes "../")
    ≡ codes "<ul><li><a href=\"../a.html\">A</a></li></ul>"
unfolding make_tree
written = refl

menudata-IsPlain : IsPlain menudata
menudata-IsPlain = ground arith

make_tree-balanced_example : read outside [] (make_tree menudata (codes "../")) ≡ some (outside, [])
make_tree-balanced_example =
    make_tree-balanced (codes "../") (ground arith) menudata menudata-IsPlain

-- A list that ends like an item is refused.
crossed : read outside [] (codes "<ul></li>") ≡ none
unfolding read text_eq
crossed = refl
