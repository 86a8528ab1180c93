-- ===== src/Lib.antt =====
-- The pages of the documentation of com_client: the scripts that run in the browser, which are all
-- of the repository's JavaScript, with the tables that they read.
--
-- The parts and the files that model them:
--
-- Search.Ids: `convertToId` of docs/documentation/html/search/search.js and the test by which the
-- results page matches a query with the id of a row. Search.Url has the language's `escape` and
-- `unescape`, by which the query travels from the panel to the results page.
--
-- Search.Panel: the class `SearchBox` of search.js. The record `Panel` has its fields and what it
-- writes to the page: displays, focus, marks of the section list, timers. `Select`, `Field` and
-- `Query` have the handlers under their names in the source; the outcome of a handler says whether
-- it threw. `Events` has one event for each handler that the page wires up, and runs lists of them.
-- Giving an element the focus calls the handlers of the field as the page's attributes do.
--
-- Search.Results: the class `SearchResults` and `createResults` of search.js. `Tree` has the
-- elements of a row and the walk of `FindChildElement`, on as many rounds as there are elements
-- below the start, each of which it comes to once. `Filter` has the search, `Nav` the keys.
-- Search.Tables has searchdata.js. Search.Data has the generated array of every results page, one in a
-- definition, in the files `AllFront` to `Values`, and puts panel, tables, arrays and results page
-- together: a key in the field, the timer, the page that opens, and the row on it.
--
-- NavTree: docs/documentation/html/navtree.js. `Paths` has the helpers on addresses, `Storage` the
-- sync button with the link it keeps in the browser, `Links` the links of the entries and the
-- selector of `selectAndHighlight`, `Index` the way from an address to the breadcrumbs in `navTo`
-- and `gotoNode`, with the generated tables of navtreedata.js and navtreeindex0.js to
-- navtreeindex2.js, `Tree` the tree itself: the children that `getNode` makes, `expandNode`, the
-- arrows, `showNode` along the breadcrumbs, and the entries that `selectAndHighlight` selects. The
-- sync button and `navTo` interact by the kept link, `gotoNode` hands the breadcrumbs to
-- `showNode`. `Site` has the scripts with the children of the tree, every one in a definition of its
-- own, finds a script by its name from the page's way to the root, and follows every breadcrumb of
-- the generated index through them. `Page` puts these parts together in the state of one page and the
-- events of its life: ready, load, changes of the hash, clicks on arrows, on the sync button and on
-- entries. A click on an entry stores its link and moves the selection; the scrolling and the new hash
-- that follow are events of their own, and a page that is left is not followed further: for the kept
-- link, `Storage` goes on with the load of the next one.
--
-- Theme: docs/doxygen-awesome-darkmode-toggle.js and
-- docs/doxygen-custom/toggle-alternative-theme.js.
--
-- Folding: docs/documentation/html/dynsections.js, the sections that fold and the table of
-- directories.
--
-- Resize: docs/documentation/html/resize.js, the width of the tree, its cookie, and folding.
--
-- Menu: `makeTree` of docs/documentation/html/menu.js, with menudata.js.
--
-- Fragments: docs/doxygen-awesome-fragment-copy-button.js, what is copied, with a loop on as many
-- rounds as the text has characters, and in `Wrapping` the loop over the live collection of the
-- page's fragments, on as many rounds as there are fragments.
--
-- Paragraphs: docs/doxygen-awesome-paragraph-link.js, on the elements of a page in document order, the
-- ancestors of an element on as many steps as there are elements.
--
-- Base: texts as lists of 16-bit code units, tests, lists and integers.
--
-- Parameters stand for what is not the repository's: the Unicode table behind `toLowerCase`
-- (`fold`), the comparison of a text with a number, the layout of the page, and jQuery's
-- `$.extend`, and the scripts that are loaded, each of which may fail. A pixel is an integer. Loops
-- over lists are by recursion on the list. Waiting is not measured: a timer is pending until it
-- fires or is cleared, and fires at any moment. A script that can be loaded is there at once.
--
-- Not modelled: jquery.js, which is another project's, animation, heights and scrolling, the
-- search box that menu.js appends, and the C++ library itself (src, include).
pub mod Base
pub mod Folding
pub mod Fragments
pub mod Menu
pub mod NavTree
pub mod Paragraphs
pub mod Resize
pub mod Search
pub mod Theme
