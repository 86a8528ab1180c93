-- ===== src/Search/Tests.antt =====
-- The search panel and the results page of docs/documentation/html/search/search.js on concrete inputs.
mod PanelTests
mod ResultsTests
mod DataTests
