-- ===== src/Search/Results/Nav/Keys.antt =====
-- The protocol of `ProcessKeys` in docs/documentation/html/search/search.js.
use com_client.Base.{ℕ, zero, suc, true, false, ◌≡◌, refl, ◌≢◌, arith}
use com_client.Search.Results.{Page}
use com_client.Search.Results.Nav.{keydown, keypress, keyup, process_keys}

-- The state behind a number of `keypress` events.
abbrev pub pressed : ℕ → ℕ → Page → Page
pressed zero k p = p
pressed (suc n) k p = pressed n k (process_keys keypress k p).0

-- While a key is held: its number is kept, and the repetitions are on.
abbrev IsHeld : ℕ → Page → Type 0
IsHeld k p = (p.last_key ≡ k) × (p.repeat_on ≡ true)

pressed-IsHeld : (n k k' : ℕ) (p : Page) → IsHeld k p → IsHeld k (pressed n k' p)
unfolding process_keys
pressed-IsHeld zero k k' p h = h
pressed-IsHeld (suc n) k k' p h =
    pressed-IsHeld n k k' (process_keys keypress k' p).0 (ground arith, ground arith)

module _ (k k' n : ℕ) (p : Page) (real : k ≢ 0) where
  abbrev down : Page
  down = (process_keys keydown k p).0

  -- For a key with a nonzero number: it acts when it goes down, not at the first `keypress` after
  -- that, and at every later one; it stays the last key through all of them; when it comes up it
  -- does not act and is forgotten.
  pub process_keys-protocol :
      ((process_keys keydown k p).1 ≡ true)
      × ((process_keys keypress k' down).1 ≡ false)
      × ((process_keys keypress k' (pressed (suc n) k' down)).1 ≡ true)
      × ((pressed (suc n) k' down).last_key ≡ k)
      × ((process_keys keyup k' (pressed (suc n) k' down)).1 ≡ false)
      × ((process_keys keyup k' (pressed (suc n) k' down)).0.last_key ≡ 0)
  unfolding process_keys
  process_keys-protocol =
      let first = (process_keys keypress k' down).0 in
      let (same, on) = pressed-IsHeld n k k' first (ground arith, ground arith) in
      (ground arith, ground arith, ground arith, same, refl, refl)
