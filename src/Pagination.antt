-- ===== src/Pagination.antt =====
-- src/common/pagination/page.ts, and `list` of src/users/user-roles.service.ts as a query that is
-- read page by page. The sort key of a row, of which only the order matters, is a number, and a
-- cursor is the key that it encodes; the texts of a search are a test on the rows.
pub mod Walk
mod Examples
use flyer_g_be.Base.{
  ℕ, zero, suc, ◌+◌, ltb, Bool, true, false, ◌&&◌, if◌then◌else◌, Option, none, some, List, [], ◌∷◌,
  ◌++◌, map, filter, length,
}

-- `Page`
pub record Page (A : Type 0) : Type 0 where
  pub items : List A
  pub next_cursor : Option ℕ
  pub total_count : ℕ
  pub server_time : ℕ

module _ {A : Type 0} where
  -- `rows.slice(0, n)`, `.limit(n)`
  abbrev pub take : ℕ → List A → List A
  take zero xs = []
  take (suc n) [] = []
  take (suc n) (x ∷ xs) = x ∷ take n xs

  -- `rows.at(-1)`
  abbrev pub last : List A → Option A
  last [] = none
  last (x ∷ xs) = elim xs [ [] ↦ some x | y ∷ ys ↦ last xs ]

module _ {Row : Type 0} (cursor_of : Row → ℕ) where
  abbrev pub cursor_after : Option Row → Option ℕ
  cursor_after none = none
  cursor_after (some row) = some (cursor_of row)

  -- The rows after a cursor, or all
  abbrev pub is_after : Option ℕ → Row → Bool
  is_after none row = true
  is_after (some cursor) row = ltb cursor (cursor_of row)

module _ {Row Item : Type 0} (cursor_of : Row → ℕ) (to_item : Row → Item) where
  -- `toPage`
  unfoldable pub to_page : (limit total now : ℕ) → List Row → Page Item
  to_page limit total now rows =
      let has_more = ltb limit (length rows) in
      let page_rows = if has_more then take limit rows else rows in
      record {
        items = map to_item page_rows;
        next_cursor = if has_more then cursor_after cursor_of (last page_rows) else none;
        total_count = total;
        server_time = now;
      }

  -- `list`: the rows are in the order of their keys.
  unfoldable pub list :
      (filter : Row → Bool) → (limit now : ℕ) → (cursor : Option ℕ) → List Row → Page Item
  list hit limit now cursor rows =
      let matching = filter hit rows in
      to_page limit (length matching) now
        (take (suc limit) (filter (is_after cursor_of cursor) matching))
