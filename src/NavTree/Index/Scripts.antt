-- ===== src/NavTree/Index/Scripts.antt =====
-- `NAVTREEINDEX` of docs/documentation/html/navtreedata.js: the first address of each index script.
use com_client.Base.{Text, codes, List, [], ◌∷◌}

abbrev pub nav_tree_index : List Text
nav_tree_index =
    codes "annotated.html"
    ∷ codes "d6/dbd/classlsl_1_1stream__inlet.html#a9183e81a122df862eff9ea9797c82b73"
    ∷ codes "db/df3/lsl__c_8h.html#af9e8d161e2cc70ffbf9443083ff5d33d"
    ∷ []
