-- ===== src/Fragments.antt =====
-- The button that copies a code fragment: docs/doxygen-awesome-fragment-copy-button.js.
pub mod Laws
pub mod Wrapping
mod Tests
use com_client.Base.{
  ℕ, zero, suc, ◌+◌, ◌-◌, Text, codes, Bool, true, false, List, [], ◌∷◌, ◌++◌, if◌then◌else◌, ◌==◌,
  Option, none, some, length, take, get_elem?, ltb,
}

-- `s.charAt(i)` is a newline, for the index `s.length - (n + 1)`, which may be -1.
unfoldable pub is_newline_at : ℕ → Text → Bool
is_newline_at n s =
    if ltb n (length s)
    then (elim (get_elem? s (length s - (n + 1))) [ some c ↦ c == b'\n' | none ↦ false ])
    else false

-- The loop that counts the newlines at the end, on as many rounds as the text has characters.
unfoldable pub count_newlines : ℕ → ℕ → Text → ℕ
unfolding is_newline_at
count_newlines zero n s = n
count_newlines (suc f) n s =
    let more = count_newlines f (suc n) s in if is_newline_at n s then more else n

unfoldable pub trailing_newlines : Text → ℕ
unfolding count_newlines
trailing_newlines s = count_newlines (length s) 0 s

-- `textContent.substring(0, textContent.length - numberOfTrailingNewlines)`
unfoldable pub copied_text : Text → Text
unfolding trailing_newlines
copied_text s = take (length s - trailing_newlines s) s

-- A child of the fragment: a line number or a tooltip is not copied.
pub record Part : Type 0 where
  pub is_filtered : Bool
  pub text : Text

-- `textContent` of the clone, once the filtered parts are removed.
unfoldable pub text_content : List Part → Text
text_content [] = []
text_content (p ∷ rest) =
    let later = text_content rest in if p.is_filtered then later else p.text ++ later

-- The clipboard, whether the button shows success, and the timers that will end it.
pub record Button : Type 0 where
  pub clipboard : Option Text
  pub success : Bool
  pub timers : ℕ

unfoldable pub copy_content : List Part → Button → Button
unfolding text_content copied_text
copy_content parts b = record {
  clipboard = some (copied_text (text_content parts));
  success = true;
  timers = suc b.timers;
}

-- A timer of 980 ms ends.
unfoldable pub success_over : Button → Button
success_over b = elim b.timers [ zero ↦ b | suc n ↦ record b { success = false; timers = n } ]
