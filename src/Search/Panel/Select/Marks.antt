-- ===== src/Search/Panel/Select/Marks.antt =====
-- The marks of the section list of docs/documentation/html/search/search.js.
use com_client.Base.{
  ℕ, zero, suc, ◌+◌, Bool, List, [], ◌∷◌, if◌then◌else◌, ◌==◌, some, ◌≡◌, refl, ap, ◌<◌, arith,
  get_elem?,
}
use com_client.Search.Panel.{Panel, Child}
use com_client.Search.Panel.Select.{select_item_count, select_item_set, count_items, mark_from}

-- The bullets of the items, in order.
pub marks : List Child → List Bool
marks [] = []
marks (c ∷ rest) = let later = marks rest in if c.is_item then c.marked ∷ later else later

count_items-mark_from : (id j : ℕ) (l : List Child) → count_items (mark_from id j l) ≡ count_items l
unfolding count_items mark_from
count_items-mark_from id j [] = refl
count_items-mark_from id j (c ∷ l) =
    ground (arith, count_items-mark_from id j l, count_items-mark_from id (suc j) l)

-- A bullet at the item `id` of `n` items, the first of which has the number `j`.
bullets : ℕ → ℕ → ℕ → List Bool
bullets id j zero = []
bullets id j (suc n) = (j == id) ∷ bullets id (suc j) n

marks-mark_from :
    (id j : ℕ) (l : List Child) → marks (mark_from id j l) ≡ bullets id j (count_items l)
unfolding marks mark_from count_items bullets
marks-mark_from id j [] = refl
marks-mark_from id j (c ∷ l) = ground (arith, marks-mark_from id j l, marks-mark_from id (suc j) l)

get_elem?-bullets : (id j n k : ℕ) → k < n → get_elem? (bullets id j n) k ≡ some (j + k == id)
unfolding bullets
get_elem?-bullets id j (suc n) zero h = ground arith
get_elem?-bullets id j (suc n) (suc k) h = ground (arith, get_elem?-bullets id (suc j) n k)
get_elem?-bullets id j zero k h = absurd (omega arith)

pub select_item_count-select_item_set :
    (id : ℕ) (p : Panel) → select_item_count (select_item_set id p) ≡ select_item_count p
unfolding select_item_count select_item_set
select_item_count-select_item_set id p = count_items-mark_from id 0 p.children

-- The item `id` bears the bullet, and no other.
pub marks-select_item_set :
    (id k : ℕ) (p : Panel)
    → k < select_item_count p
    → get_elem? (marks (select_item_set id p).children) k ≡ some (k == id)
unfolding select_item_set select_item_count
marks-select_item_set id k p h =
    rw (marks-mark_from id 0 p.children)
      (ground (arith, get_elem?-bullets id 0 (count_items p.children) k h))

pub select_item_count-congr :
    (p q : Panel) → p.children ≡ q.children → select_item_count p ≡ select_item_count q
unfolding select_item_count
select_item_count-congr p q e = ap count_items e
