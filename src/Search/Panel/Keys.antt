-- ===== src/Search/Panel/Keys.antt =====
-- What the keys do to the search panel of docs/documentation/html/search/search.js.
use com_client.Base.{
  false, [], none, some, ◌≡◌, ◌≢◌, arith, ◌⊎◌, text_eq_iff, text_eq→eq, remove_spaces,
}
use com_client.Search.Panel.{Panel, Config, search, hidden, inactive, blur_field}
use com_client.Search.Panel.Query.{KeyEvent}
use com_client.Search.Panel.Field.{kill_key_timer, on_search_field_change}
use com_client.Search.Panel.Events.{timer_task}
use com_client.Search.Panel.Invariant.{IsConsistent, timer_task-remove_self}

-- The panel as `CloseResultsWindow` and Escape leave it.
pub record IsReset (cfg : Config) (p : Panel) : Type 0 where
  pub no_results : p.popup ≡ hidden
  pub no_button : p.close ≡ hidden
  pub box : p.box_class ≡ inactive
  pub label : p.field ≡ cfg.label
  pub idle : p.search_active ≡ false
  pub forgotten : p.last_search_value ≡ []

pending-blur_field : (cfg : Config) (p : Panel) → (blur_field cfg p).pending ≡ p.pending
unfolding blur_field
pending-blur_field cfg p = ground arith

key_timeout-blur_field : (cfg : Config) (p : Panel) → (blur_field cfg p).key_timeout ≡ p.key_timeout
unfolding blur_field
key_timeout-blur_field cfg p = ground arith

module _ (cfg : Config) (e : KeyEvent) (p : Panel) where
  -- Escape in the field hides the results, empties the remembered value, gives the field its label
  -- back, makes the box inactive, and leaves no search that is waited for: `keyTimeout` is 0, and the timer that it
  -- named, if it was not 0, is no longer pending.
  pub escape-IsReset :
      e.key_code ≡ 27
      → IsReset cfg (on_search_field_change cfg e p)
        × ((on_search_field_change cfg e p).key_timeout ≡ 0)
        × ((p.key_timeout ≡ 0)
            ⊎ (timer_task p.key_timeout (on_search_field_change cfg e p).pending ≡ none))
  unfolding on_search_field_change
  escape-IsReset h = ground (
    arith,
    pending-blur_field cfg (kill_key_timer p),
    key_timeout-blur_field cfg (kill_key_timer p),
    timer_task-remove_self p.key_timeout p.pending,
  )

-- No key that the handler gives a meaning of its own.
abbrev pub IsPlainKey : KeyEvent → Type 0
IsPlainKey e = (e.key_code ≢ 40) × (e.key_code ≢ 13) × (e.key_code ≢ 27)

module _ (cfg : Config) (e : KeyEvent) (p : Panel) (c : IsConsistent p) (plain : IsPlainKey e) where
  -- In a consistent state, with a key other than Down, Return and Escape: a value (without spaces)
  -- that is neither empty nor the one searched last starts the timer of a search, which takes the
  -- place of the one that was pending, and leaves the results as they show.
  pub typing_schedules :
      remove_spaces p.field ≢ []
      → remove_spaces p.field ≢ p.last_search_value
      → let q = on_search_field_change cfg e p in
        (q.key_timeout ≢ 0)
        × (timer_task q.key_timeout q.pending ≡ some search)
        × ((p.key_timeout ≡ 0) ⊎ (timer_task p.key_timeout q.pending ≡ none))
        × (q.popup ≡ p.popup)
  unfolding on_search_field_change timer_task
  typing_schedules filled new = ground (
    arith,
    text_eq→eq (remove_spaces p.field) p.last_search_value,
    text_eq→eq (remove_spaces p.field) [],
    timer_task-remove_self p.key_timeout p.pending,
  )

  -- In a consistent state, with a key other than Down, Return and Escape: if the field has only
  -- spaces and a value was searched before, the results and their button are hidden, the remembered
  -- value is empty, and no search is waited for.
  pub clearing_hides :
      remove_spaces p.field ≡ []
      → p.last_search_value ≢ []
      → let q = on_search_field_change cfg e p in
        (q.popup ≡ hidden) × (q.close ≡ hidden) × (q.last_search_value ≡ []) × (q.key_timeout ≡ 0)
  unfolding on_search_field_change
  clearing_hides empty old = ground (
    arith,
    text_eq→eq (remove_spaces p.field) p.last_search_value,
    text_eq_iff (remove_spaces p.field) [],
  )
