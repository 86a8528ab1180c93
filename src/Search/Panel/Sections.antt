-- ===== src/Search/Panel/Sections.antt =====
-- Choosing a section in the list of docs/documentation/html/search/search.js, by mouse and by key.
use com_client.Base.{
  ℕ, ◌+◌, ◌-◌, ◌≤◌, ◌<◌, true, [], ◌==◌, none, some, ◌≡◌, refl, ◌≢◌, arith, get_elem?, text_eq→eq,
  remove_spaces, ◌∙◌, ap,
}
use com_client.Search.Panel.{Panel, Config, search, close_selection_window, focus_field}
use com_client.Search.Panel.Select.{select_item_count, select_item_set}
use com_client.Search.Panel.Select.Marks.{
  marks, select_item_count-select_item_set, marks-select_item_set, select_item_count-congr,
}
use com_client.Search.Panel.Query as Query
use com_client.Search.Panel.Query.{
  Outcome, done, threw, state, KeyEvent, ◌>>=◌, on_select_item, on_search_select_key, results_page,
}
use com_client.Search.Panel.Events.{timer_task}

module _ (cfg : Config) where
  children-search : (p : Panel) → (state (Query.search cfg p)).children ≡ p.children
  unfolding Query.search
  children-search p = ground arith

  search_index-search : (p : Panel) → (state (Query.search cfg p)).search_index ≡ p.search_index
  unfolding Query.search
  search_index-search p = ground arith

  -- Whether or not it searches, and whether or not that throws.
  children-on_select_item :
      (k : ℕ) (p : Panel)
      → (state (on_select_item cfg k p)).children
        ≡ (select_item_set k (record p { search_index = k })).children
  unfolding on_select_item
  children-on_select_item k p =
      ground (arith, children-search (select_item_set k (record p { search_index = k })))

  search_index-on_select_item :
      (k : ℕ) (p : Panel) → (state (on_select_item cfg k p)).search_index ≡ k
  unfolding on_select_item select_item_set
  search_index-on_select_item k p =
      ground (arith, search_index-search (select_item_set k (record p { search_index = k })))

  count-on_select_item :
      (k : ℕ) (p : Panel) → select_item_count (state (on_select_item cfg k p)) ≡ select_item_count p
  count-on_select_item k p =
      let start = record p { search_index = k } in
      select_item_count-congr (state (on_select_item cfg k p)) (select_item_set k start)
        (children-on_select_item k p)
      ∙ select_item_count-select_item_set k start
      ∙ select_item_count-congr start p refl

  -- Choosing section `k` selects it, and of the list's items exactly the one at position `k` bears
  -- the bullet.
  pub on_select_item-marks :
      (k i : ℕ) (p : Panel)
      → i < select_item_count p
      → ((state (on_select_item cfg k p)).search_index ≡ k)
        × (get_elem? (marks (state (on_select_item cfg k p)).children) i ≡ some (i == k))
  on_select_item-marks k i p h =
      let start = record p { search_index = k } in
      let here : i < select_item_count start =
        omega (arith, select_item_count-congr start p refl) in
      (
        search_index-on_select_item k p,
        ap (λ l. get_elem? (marks l) i) (children-on_select_item k p)
            ∙ marks-select_item_set k i start here,
      )

  search_index-focus_field : (p : Panel) → (focus_field cfg p).search_index ≡ p.search_index
  unfolding focus_field
  search_index-focus_field p = ground arith

  children-focus_field : (p : Panel) → (focus_field cfg p).children ≡ p.children
  unfolding focus_field
  children-focus_field p = ground arith

  abbrev InRange : Panel → Type 0
  InRange p = p.search_index ≤ select_item_count p

  InRange-on_select_item :
      (k : ℕ) (p : Panel) → k ≤ select_item_count p → InRange (state (on_select_item cfg k p))
  InRange-on_select_item k p h =
      omega (arith, search_index-on_select_item k p, count-on_select_item k p)

  InRange-chosen :
      (o : Outcome)
      → InRange (state o)
      → InRange (state (o >>= λ p. done (focus_field cfg (close_selection_window p))))
  unfolding close_selection_window
  InRange-chosen (done p) h =
      let same = search_index-focus_field (close_selection_window p) in
      let counted =
        select_item_count-congr (focus_field cfg (close_selection_window p)) p
          (children-focus_field (close_selection_window p)) in
      omega (arith, same, counted)
  InRange-chosen (threw p) h = h

  -- The keys in the list keep the chosen section at most the number of items, if it is so before.
  pub on_search_select_key-range :
      (e : KeyEvent) (p : Panel)
      → p.search_index ≤ select_item_count p
      → let q = state (on_search_select_key cfg e p) in q.search_index ≤ select_item_count q
  unfolding on_search_select_key
  on_search_select_key-range e p h = ground (
    arith,
    InRange-on_select_item (p.search_index + 1) p,
    InRange-on_select_item (p.search_index - 1) p,
    InRange-chosen (on_select_item cfg p.search_index p)
        (InRange-on_select_item p.search_index p h),
  )

  on_select_item-threw :
      (k : ℕ) (p : Panel)
      → get_elem? cfg.sections_with_content k ≡ none
      → p.search_active ≡ true
      → remove_spaces p.field ≢ []
      → on_select_item cfg k p ≡ threw (state (on_select_item cfg k p))
  unfolding on_select_item select_item_set Query.search results_page
  on_select_item-threw k p missing on filled = ground (arith, text_eq→eq (remove_spaces p.field) [])

  -- Down on the last section of the list, with an active search and a value in the field, chooses a
  -- section past the end of the list, and the handler throws, for the tables have no such section.
  pub down-past_end :
      (e : KeyEvent) (p : Panel)
      → e.key_code ≡ 40
      → p.search_index + 1 ≡ select_item_count p
      → get_elem? cfg.sections_with_content (p.search_index + 1) ≡ none
      → p.search_active ≡ true
      → remove_spaces p.field ≢ []
      → (q : Panel) × (on_search_select_key cfg e p ≡ threw q)
        × (q.search_index ≡ select_item_count p)
  unfolding on_search_select_key
  down-past_end e p key last missing on filled = (
    state (on_select_item cfg (p.search_index + 1) p),
    ground (arith, on_select_item-threw (p.search_index + 1) p missing on filled),
    search_index-on_select_item (p.search_index + 1) p ∙ last,
  )

-- Choosing a section while the search of a keystroke is pending, with an active search and a value
-- in the field, forgets the timer, which stays pending.
pub on_select_item-forgets_timer :
    (cfg : Config) (k : ℕ) (p : Panel)
    → timer_task p.key_timeout p.pending ≡ some search
    → p.search_active ≡ true
    → remove_spaces p.field ≢ []
    → let q = state (on_select_item cfg k p) in
      (q.key_timeout ≡ 0) × (timer_task p.key_timeout q.pending ≡ some search)
unfolding on_select_item select_item_set Query.search
on_select_item-forgets_timer cfg k p due on filled =
    ground (arith, text_eq→eq (remove_spaces p.field) [])
