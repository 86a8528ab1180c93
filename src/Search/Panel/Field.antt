-- ===== src/Search/Panel/Field.antt =====
-- `OnSearchFieldChange` of `SearchBox`: a key is up in the search field.
use com_client.Base.{◌+◌, false, ◌||◌, [], if◌then◌else◌, ◌==◌, text_eq, remove_spaces}
use com_client.Search.Panel.{
  Panel, Config, hidden, search, set_timeout, clear_timeout, activate, blur_field,
}
use com_client.Search.Panel.Select.{enter_selection}
use com_client.Search.Panel.Query.{KeyEvent}

-- `if (this.keyTimeout) { clearTimeout(this.keyTimeout); this.keyTimeout = 0; }`
unfoldable pub kill_key_timer : Panel → Panel
unfolding clear_timeout
kill_key_timer p =
    if p.key_timeout == 0 then p else record (clear_timeout p.key_timeout p) { key_timeout = 0 }

-- Escape.
unfoldable pub leave_field : Config → Panel → Panel
unfolding activate
leave_field cfg p =
    let p' = blur_field cfg p in
    activate cfg false (record p' { popup = hidden; close = hidden; last_search_value = [] })

-- The rest of the handler: a new value starts the timer of the search, an empty one hides the results.
unfoldable pub value_changed : Panel → Panel
unfolding set_timeout
value_changed p =
    let value = remove_spaces p.field in
    if text_eq value p.last_search_value
    then p
    else if text_eq value []
    then record p { popup = hidden; close = hidden; last_search_value = [] }
    else record (set_timeout search p) { key_timeout = p.next_timer }

unfoldable pub on_search_field_change : Config → KeyEvent → Panel → Panel
unfolding kill_key_timer leave_field value_changed enter_selection
on_search_field_change cfg e p =
    let p' = kill_key_timer p in
    if e.key_code == 40 || e.key_code == 13
    then if e.shift
      then enter_selection cfg p'
      else value_changed (record p' { take_focus = p'.take_focus + 1 })
    else if e.key_code == 27
    then leave_field cfg p'
    else value_changed p'
