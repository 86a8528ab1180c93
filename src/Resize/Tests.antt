-- ===== src/Resize/Tests.antt =====
-- Runs of docs/documentation/html/resize.js.
use com_client.Base.{◌≡◌, refl, arith, codes, false, [], ◌∷◌, some, inl, index_of}
use com_client.Resize.{State, drag, double_click, window, run, read_cookie, cookie_text}
use com_client.Resize.Laws.{drag-restored, drag-folded_later}

abbrev narrow : State
narrow = record {
  nav_width = 250;
  margin = 256;
  collapsed = false;
  collapsed_width = 600;
  bar_width = 6;
  window_width = 600;
  jar = [];
}

drag-restored_example :
    ((run (drag 300 ∷ double_click ∷ []) narrow).nav_width ≡ 0)
    × ((run (drag 300 ∷ double_click ∷ double_click ∷ []) narrow).nav_width ≡ 300)
drag-restored_example = drag-restored 300 narrow (inl refl) (ground arith) (ground arith)

drag-folded_later_example :
    ((run (double_click ∷ drag 300 ∷ []) narrow).nav_width ≡ 300)
    × ((run (double_click ∷ drag 300 ∷ window 1000 ∷ []) narrow).nav_width ≡ 0)
drag-folded_later_example =
    drag-folded_later 300 1000 narrow (ground arith) (ground arith) (ground arith) (ground arith)

-- A cookie whose name ends in the one looked for is taken for it.
shadowed :
    read_cookie (codes "width") (
      cookie_text
        ((codes "my_doxygen_width", codes "7") ∷ (codes "doxygen_width", codes "250") ∷ []))
    ≡ some (codes "7")
unfolding read_cookie cookie_text index_of
shadowed = refl
