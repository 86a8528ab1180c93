-- ===== src/NavTree.antt =====
-- docs/documentation/html/navtree.js: the navigation tree beside the pages.
pub mod Pages
pub mod Paths
pub mod Storage
pub mod Links
pub mod Tree
pub mod Site
pub mod Page
pub mod Index
mod Tests
