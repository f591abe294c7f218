-- ===== src/Registry/Pages.antt =====
-- registry/lists.go: the pages of the tag list and of the catalog.
pub mod Follow
use oci_amber.Prelude.{
  ℕ, zero, suc, ◌-◌, Bool, true, false, Option, none, some, List, [], ◌∷◌, ◌++◌, ltb, length, take,
  get_elem?, if◌then◌else◌,
}
use oci_amber.Prelude.Text.{Bytes, bytes_lt}

-- The items from the first one that sorts after `last`.
unfoldable pub after : Bytes → List Bytes → List Bytes
after last [] = []
after last (x ∷ xs) = let rest = after last xs in if bytes_lt last x then x ∷ xs else rest

-- page[n-1], which is in range where the code reads it.
abbrev pub item_at : List Bytes → ℕ → Bytes
item_at page i = elim (get_elem? page i) [ none ↦ [] | some x ↦ x ]

cut_page : List Bytes → ℕ → List Bytes × Bytes
cut_page page n =
    if ltb n (length page)
    then (take n page, if ltb 0 n then item_at (take n page) (n - 1) else [])
    else (page, [])

-- A page and the `last` of the next one, "" if there is none; `none` for `n` is the code's -1.
unfoldable pub paginate : List Bytes → Option ℕ → Bytes → List Bytes × Bytes
unfolding cut_page
paginate items none last = (after last items, [])
paginate items (some n) last = cut_page (after last items) n
