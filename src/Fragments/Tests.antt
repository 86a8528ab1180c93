-- ===== src/Fragments/Tests.antt =====
-- Runs of docs/doxygen-awesome-fragment-copy-button.js.
use com_client.Base.{◌+◌, ◌≡◌, ◌≢◌, refl, true, false, Text, codes, [], ◌∷◌, ◌++◌, some, none}
use com_client.Fragments.{trailing_newlines, copied_text, copy_content}
use com_client.Fragments.Wrapping.{
  Nodes, element, fragment, chars, nil, cons, fragments_in, wrap, loop, init,
}
use com_client.Fragments.Wrapping.Every.{wrap_all, init-wraps}
use com_client.Fragments.Laws.{newlines, copied_text-trimmed}

-- A fragment in a fragment.
abbrev nested : Nodes
nested = cons (element fragment (cons (chars (codes "a")) (cons (element fragment nil) nil))) nil

init-wraps_example :
    (init true nested ≡ wrap_all nested)
    × (loop (fragments_in nested + 3) 0 nested ≡ wrap_all nested)
init-wraps_example = init-wraps nested 3

wrapped :
    init true nested
    ≡ cons
        (wrap
          (element fragment (cons (chars (codes "a")) (cons (wrap (element fragment nil)) nil))))
        nil
unfolding init
wrapped = refl

copied_text-trimmed_example :
    (copied_text (codes "a\n\n") ++ newlines (trailing_newlines (codes "a\n\n")) ≡ codes "a\n\n")
    × ((t : Text) → copied_text (codes "a\n\n") ≢ t ++ b'\n' ∷ [])
copied_text-trimmed_example = copied_text-trimmed (codes "a\n\n")

copied :
    (copy_content
      (record { is_filtered = true; text = codes "1" }
        ∷ record { is_filtered = false; text = codes "x\n" }
        ∷ [])
      (record { clipboard = none; success = false; timers = 0 })).clipboard
    ≡ some (codes "x")
unfolding copy_content
copied = refl
