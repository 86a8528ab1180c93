-- ===== src/Search/Panel/Events.antt =====
-- What can happen to the search panel of docs/documentation/html/search/search.js, as one step each:
-- the handlers that the page wires, the user's edits of the field, and the timers.
use com_client.Base.{ℕ, Text, List, [], ◌∷◌, if◌then◌else◌, ◌==◌, Option, none, some}
use com_client.Search.Panel.{
  Panel, Config, Task, search, close_selection, clear_timeout, blur_field, focus_field,
  close_results_window, close_selection_window,
}
use com_client.Search.Panel.Select.{on_search_select_show, on_search_select_hide}
use com_client.Search.Panel.Query as Query
use com_client.Search.Panel.Query.{
  Outcome, done, state, KeyEvent, on_select_item, on_search_select_key,
}
use com_client.Search.Panel.Field.{on_search_field_change}

pub data Event : Type 0 where
  edit : Text → Event
  focus_in focus_out mouse_over mouse_out close_results : Event
  field_key select_key : KeyEvent → Event
  select_click : ℕ → Event
  timer : ℕ → Event

unfoldable pub timer_task : ℕ → List (ℕ × Task) → Option Task
timer_task i [] = none
timer_task i ((j, t) ∷ rest) = if j == i then some t else timer_task i rest

run_task : Config → Task → Panel → Outcome
run_task cfg search p = Query.search cfg p
run_task cfg close_selection p = done (close_selection_window p)

-- A timer that is not pending does not fire.
unfoldable pub fire : Config → ℕ → Panel → Outcome
unfolding run_task timer_task
fire cfg i p = elim (timer_task i p.pending) [
  | none ↦ done p
  | some t ↦ run_task cfg t (clear_timeout i p)
]

unfoldable pub step : Config → Event → Panel → Outcome
unfolding fire
step cfg (edit s) p = done (record p { field = s })
step cfg focus_in p = done (focus_field cfg p)
step cfg focus_out p = done (blur_field cfg p)
step cfg mouse_over p = done (on_search_select_show cfg p)
step cfg mouse_out p = done (on_search_select_hide p)
step cfg close_results p = done (close_results_window cfg p)
step cfg (field_key e) p = done (on_search_field_change cfg e p)
step cfg (select_key e) p = on_search_select_key cfg e p
step cfg (select_click k) p = on_select_item cfg k p
step cfg (timer i) p = fire cfg i p

-- A handler that throws leaves what it had written, and the page goes on.
unfoldable pub run : Config → List Event → Panel → Panel
unfolding step
run cfg [] p = p
run cfg (e ∷ rest) p = run cfg rest (state (step cfg e p))
