-- ===== src/Search/Panel/Invariant.antt =====
-- The invariant of the search panel of docs/documentation/html/search/search.js.
use com_client.Base.{
  ℕ, ◌+◌, ◌-◌, ◌<◌, Text, Bool, true, false, List, [], ◌∷◌, none, some, ◌≡◌, refl, ◌≢◌, arith,
}
use com_client.Search.Panel.{
  Panel, Config, Task, search, Display, hidden, inline_block, is_block, active, Focus, nowhere,
  search_field, Child, new_panel, remove_timer, clear_timeout, activate, blur_field, focus_field,
  focus_item, close_results_window, close_selection_window,
}
use com_client.Search.Panel.Select.{
  on_search_select_show, on_search_select_hide, select_item_set, enter_selection,
}
use com_client.Search.Panel.Query as Query
use com_client.Search.Panel.Query.{
  ◌>>=◌, Outcome, done, threw, state, KeyEvent, on_select_item, on_search_select_key,
}
use com_client.Search.Panel.Field.{
  kill_key_timer, leave_field, value_changed, on_search_field_change,
}
use com_client.Search.Panel.Events.{
  Event, edit, focus_in, focus_out, mouse_over, mouse_out, close_results, field_key, select_key,
  select_click, timer, timer_task, fire, step, run,
}

abbrev pub is_inline_block : Display → Bool
is_inline_block inline_block = true
is_inline_block _ = false

pub record IsConsistent (p : Panel) : Type 0 where
  -- the button that closes the results shows exactly when the results do
  pub together : is_block p.popup ≡ is_inline_block p.close
  pub boxed : p.search_active ≡ true → p.box_class ≡ active
  pub key_fresh : p.key_timeout < p.next_timer
  pub hide_fresh : p.hide_timeout < p.next_timer
  pub apart : p.key_timeout ≢ 0 → p.hide_timeout ≢ p.key_timeout
  -- a search that the panel waits for is pending
  pub scheduled : p.key_timeout ≢ 0 → timer_task p.key_timeout p.pending ≡ some search

pub timer_task-remove :
    (i j : ℕ) (l : List (ℕ × Task)) → i ≢ j → timer_task j (remove_timer i l) ≡ timer_task j l
unfolding timer_task remove_timer
timer_task-remove i j [] h = refl
timer_task-remove i j ((k, t) ∷ l) h = ground (arith, timer_task-remove i j l)

pub timer_task-remove_self : (i : ℕ) (l : List (ℕ × Task)) → timer_task i (remove_timer i l) ≡ none
unfolding timer_task remove_timer
timer_task-remove_self i [] = refl
timer_task-remove_self i ((k, t) ∷ l) = ground (arith, timer_task-remove_self i l)

mouse_out-IsConsistent : {p : Panel} → IsConsistent p → IsConsistent (on_search_select_hide p)
unfolding on_search_select_hide timer_task
mouse_out-IsConsistent {p} c = ground arith

kill_key_timer-IsConsistent : {p : Panel} → IsConsistent p → IsConsistent (kill_key_timer p)
unfolding kill_key_timer
kill_key_timer-IsConsistent {p} c = ground arith

kill_key_timer-key_timeout : (p : Panel) → (kill_key_timer p).key_timeout ≡ 0
unfolding kill_key_timer
kill_key_timer-key_timeout p = ground arith

posted-IsConsistent :
    {p : Panel} → IsConsistent p → IsConsistent (record p { take_focus = p.take_focus + 1 })
posted-IsConsistent {p} c = ground arith

value_changed-IsConsistent :
    {p : Panel} → IsConsistent p → p.key_timeout ≡ 0 → IsConsistent (value_changed p)
unfolding value_changed timer_task
value_changed-IsConsistent {p} c h = ground arith

select_item_set-IsConsistent :
    (k : ℕ) {p : Panel}
    → IsConsistent p
    → IsConsistent (select_item_set k (record p { search_index = k }))
unfolding select_item_set
select_item_set-IsConsistent k {p} c = ground arith

close_selection_window-IsConsistent :
    {p : Panel} → IsConsistent p → IsConsistent (close_selection_window p)
unfolding close_selection_window
close_selection_window-IsConsistent {p} c = ground arith

module _ (cfg : Config) where
  activate-IsConsistent : (b : Bool) {p : Panel} → IsConsistent p → IsConsistent (activate cfg b p)
  unfolding activate
  activate-IsConsistent b c = ground arith

  focused-IsConsistent :
      {p : Panel} (f : Focus) → IsConsistent p → IsConsistent (record p { focus = f })
  focused-IsConsistent f c = ground arith

  blur_field-IsConsistent : {p : Panel} → IsConsistent p → IsConsistent (blur_field cfg p)
  unfolding blur_field
  blur_field-IsConsistent {p} c =
      ground (arith, activate-IsConsistent false (focused-IsConsistent nowhere c))

  focus_field-IsConsistent : {p : Panel} → IsConsistent p → IsConsistent (focus_field cfg p)
  unfolding focus_field
  focus_field-IsConsistent {p} c =
      ground (arith, activate-IsConsistent true (focused-IsConsistent search_field c))

  close_results_window-IsConsistent :
      {p : Panel} → IsConsistent p → IsConsistent (close_results_window cfg p)
  unfolding close_results_window
  close_results_window-IsConsistent {p} c =
      activate-IsConsistent false {p = record p { popup = hidden; close = hidden }} (ground arith)

  on_search_select_show-IsConsistent :
      {p : Panel} → IsConsistent p → IsConsistent (on_search_select_show cfg p)
  unfolding on_search_select_show
  on_search_select_show-IsConsistent {p} c =
      ground (arith, timer_task-remove p.hide_timeout p.key_timeout p.pending)

  enter_selection-IsConsistent : {p : Panel} → IsConsistent p → IsConsistent (enter_selection cfg p)
  unfolding enter_selection focus_item
  enter_selection-IsConsistent {p} c =
      let shown = on_search_select_show-IsConsistent c in
      ground (arith, shown, blur_field-IsConsistent shown)

  search-IsConsistent : {p : Panel} → IsConsistent p → IsConsistent (state (Query.search cfg p))
  unfolding Query.search
  search-IsConsistent {p} c = ground arith

  on_select_item-IsConsistent :
      (k : ℕ) {p : Panel} → IsConsistent p → IsConsistent (state (on_select_item cfg k p))
  unfolding on_select_item
  on_select_item-IsConsistent k {p} c =
      let set = select_item_set-IsConsistent k c in ground (arith, set, search-IsConsistent set)

  chosen-IsConsistent :
      (o : Outcome)
      → IsConsistent (state o)
      → IsConsistent (state (o >>= λ p. done (focus_field cfg (close_selection_window p))))
  chosen-IsConsistent (done p) c = focus_field-IsConsistent (close_selection_window-IsConsistent c)
  chosen-IsConsistent (threw p) c = c

  on_search_select_key-IsConsistent :
      (e : KeyEvent) {p : Panel}
      → IsConsistent p
      → IsConsistent (state (on_search_select_key cfg e p))
  unfolding on_search_select_key
  on_search_select_key-IsConsistent e {p} c = ground (
    arith,
    on_select_item-IsConsistent (p.search_index + 1) c,
    on_select_item-IsConsistent (p.search_index - 1) c,
    chosen-IsConsistent (on_select_item cfg p.search_index p)
        (on_select_item-IsConsistent p.search_index c),
  )

  leave_field-IsConsistent : {p : Panel} → IsConsistent p → IsConsistent (leave_field cfg p)
  unfolding leave_field
  leave_field-IsConsistent {p} c =
      let blurred = blur_field-IsConsistent c in
      activate-IsConsistent false
        {p = record (blur_field cfg p) { popup = hidden; close = hidden; last_search_value = [] }}
        (ground (arith, blurred))

  on_search_field_change-IsConsistent :
      (e : KeyEvent) {p : Panel} → IsConsistent p → IsConsistent (on_search_field_change cfg e p)
  unfolding on_search_field_change
  on_search_field_change-IsConsistent e {p} c =
      let killed = kill_key_timer-IsConsistent c in
      ground (
        arith,
        enter_selection-IsConsistent killed,
        leave_field-IsConsistent killed,
        value_changed-IsConsistent killed (kill_key_timer-key_timeout p),
        value_changed-IsConsistent (posted-IsConsistent killed) (kill_key_timer-key_timeout p),
      )

  fire-IsConsistent : (i : ℕ) {p : Panel} → IsConsistent p → IsConsistent (state (fire cfg i p))
  unfolding fire Query.search clear_timeout close_selection_window
  fire-IsConsistent i {p} c = ground (arith, timer_task-remove i p.key_timeout p.pending)

  -- Every event keeps the invariant, also where its handler throws.
  pub step-IsConsistent :
      (e : Event) {p : Panel} → IsConsistent p → IsConsistent (state (step cfg e p))
  unfolding step
  step-IsConsistent (edit s) c = ground arith
  step-IsConsistent focus_in c = focus_field-IsConsistent c
  step-IsConsistent focus_out c = blur_field-IsConsistent c
  step-IsConsistent mouse_over c = on_search_select_show-IsConsistent c
  step-IsConsistent mouse_out c = mouse_out-IsConsistent c
  step-IsConsistent close_results c = close_results_window-IsConsistent c
  step-IsConsistent (field_key e) c = on_search_field_change-IsConsistent e c
  step-IsConsistent (select_key e) c = on_search_select_key-IsConsistent e c
  step-IsConsistent (select_click k) c = on_select_item-IsConsistent k c
  step-IsConsistent (timer i) c = fire-IsConsistent i c

  pub run-IsConsistent :
      (events : List Event) {p : Panel} → IsConsistent p → IsConsistent (run cfg events p)
  unfolding run
  run-IsConsistent [] c = c
  run-IsConsistent (e ∷ rest) c = run-IsConsistent rest (step-IsConsistent e c)

new_panel-IsConsistent :
    (field : Text) (children : List Child) → IsConsistent (new_panel field children)
unfolding new_panel
new_panel-IsConsistent field children = ground arith

-- In every state that a new panel reaches by events: the close button shows exactly when the
-- results do; while a search is active the box has the active class; timer numbers are of timers
-- that were started; the search and the hiding of the list never share a timer; and a search that
-- the panel waits for is pending.
pub reachable-IsConsistent :
    (cfg : Config) (events : List Event) (field : Text) (children : List Child)
    → IsConsistent (run cfg events (new_panel field children))
reachable-IsConsistent cfg events field children =
    run-IsConsistent cfg events (new_panel-IsConsistent field children)
