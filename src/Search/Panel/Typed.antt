-- ===== src/Search/Panel/Typed.antt =====
-- From a key to the results, in the search panel of docs/documentation/html/search/search.js.
use com_client.Base.{
  Text, [], some, ◌≡◌, refl, ap, ◌∙◌, ◌≢◌, arith, ℕ, ◌⊎◌, none, strip_leading, remove_spaces,
}
use com_client.Search.Panel.{Panel, Config, search, block, clear_timeout}
use com_client.Search.Panel.Query as Query
use com_client.Search.Panel.Query.{Outcome, done, KeyEvent, results_page, show_results}
use com_client.Search.Panel.Field.{kill_key_timer, on_search_field_change}
use com_client.Search.Panel.Events.{timer, timer_task, fire, step}
use com_client.Search.Panel.Invariant.{IsConsistent}
use com_client.Search.Panel.Keys.{IsPlainKey, typing_schedules}

-- The results of a page and address are on show, and no search is waited for.
pub record Shows (page target : Text) (p : Panel) : Type 0 where
  pub open_popup : p.popup ≡ block
  pub frame_at : p.frame ≡ target
  pub page_kept : p.last_results_page ≡ page
  pub not_waiting : p.key_timeout ≡ 0

module _ (cfg : Config) where
  show_results-Shows :
      (value page target : Text) (p : Panel)
      → p.key_timeout ≡ 0
      → Shows page target (show_results cfg value (page, target) p)
  unfolding show_results
  show_results-Shows value page target p h = ground arith

  search-Shows :
      (p : Panel) (page target : Text)
      → results_page cfg p.search_index (strip_leading p.field) ≡ some (page, target)
      → (r : Panel) × (Query.search cfg p ≡ done r) × Shows page target r
  unfolding Query.search
  search-Shows p page target known =
      let value = strip_leading p.field in
      let waiting = record p { key_timeout = 0 } in
      (
        show_results cfg value (page, target) waiting,
        rw (known, Query.search) refl,
        show_results-Shows value page target waiting refl,
      )

  fire-search :
      (i : ℕ) (p : Panel)
      → timer_task i p.pending ≡ some search
      → fire cfg i p ≡ Query.search cfg (clear_timeout i p)
  unfolding fire
  fire-search i p h = rw (h, fire) refl

  typed_field :
      (e : KeyEvent) (p : Panel)
      → IsPlainKey e
      → ((on_search_field_change cfg e p).field ≡ p.field)
        × ((on_search_field_change cfg e p).search_index ≡ p.search_index)
  unfolding on_search_field_change kill_key_timer
  typed_field e p plain = ground arith

  -- In a consistent state, after a key other than Down, Return and Escape with a value that is neither
  -- empty nor the one searched last, and with a section of the tables, for which `results_page` gives a
  -- page and an address: when the timer that the panel then waits for fires, the search does not throw,
  -- the popup is open with this page at this address, and no search is waited for any more. The timer
  -- that was waited for before, if any, is no longer pending after the key.
  pub typed-shown :
      (e : KeyEvent) (p : Panel) (page target : Text)
      → IsConsistent p
      → IsPlainKey e
      → remove_spaces p.field ≢ []
      → remove_spaces p.field ≢ p.last_search_value
      → results_page cfg p.search_index (strip_leading p.field) ≡ some (page, target)
      → let q = on_search_field_change cfg e p in
        ((r : Panel) × (step cfg (timer q.key_timeout) q ≡ done r) × Shows page target r)
        × ((p.key_timeout ≡ 0) ⊎ (timer_task p.key_timeout q.pending ≡ none))
  unfolding step clear_timeout
  typed-shown e p page target c plain filled new known =
      let q = on_search_field_change cfg e p in
      let (waits, scheduled, gone, same) = typing_schedules cfg e p c plain filled new in
      let (field, section) = typed_field e p plain in
      let (r, found, shows) = search-Shows (clear_timeout q.key_timeout q) page target (
        ap (λ f. results_page cfg q.search_index (strip_leading f)) field
        ∙ ap (λ s. results_page cfg s (strip_leading p.field)) section
        ∙ known) in
      ((r, fire-search q.key_timeout q scheduled ∙ found, shows), gone)
