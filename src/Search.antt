-- ===== src/Search.antt =====
-- docs/documentation/html/search/search.js: the search panel and the results page.
pub mod Ids
pub mod Url
pub mod Panel
pub mod Results
pub mod Tables
pub mod Data
mod Tests
