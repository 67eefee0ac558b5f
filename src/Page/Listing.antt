-- ===== src/Page/Listing.antt =====
-- The paginated list queries of internal/queries (WHERE past the cursor, ORDER BY, LIMIT) and
-- `nextCursor` of internal/server/pagination.go.
pub mod Sorted
pub mod Walk
use mathlib.Core.Option
use zymobrew.Base.{
  ℕ, ◌≡◌, Bool, true, ◌||◌, List, [], ◌∷◌, Option, none, some, Bytes, length, take, select, last?,
  ltb, ◌==◌, if◌then◌else◌, is_empty,
}
use zymobrew.Page.Order.{KeyOrder}
use zymobrew.Page.Cursor.{Decoded}
use zymobrew.Page.Request.{Parsed, page, invalid_limit, invalid_cursor, parse_list_pagination}

module _ {Row K : Type 0} (o : KeyOrder K) (key : Row → K) where
  -- `ORDER BY`
  pub insert_row : Row → List Row → List Row
  insert_row r [] = r ∷ []
  insert_row r (x ∷ xs) = if o.before (key x) (key r) then x ∷ insert_row r xs else r ∷ x ∷ xs

  unfoldable pub sort_rows : List Row → List Row
  unfolding insert_row
  sort_rows [] = []
  sort_rows (r ∷ rows) = insert_row r (sort_rows rows)

  -- `cursor_ts IS NULL OR (ts, id) < (cursor_ts, cursor_id)`, or `>` in the ascending lists
  abbrev pub past : Option K → Row → Bool
  past none r = true
  past (some c) r = o.before c (key r)

  unfoldable pub list_rows : List Row → Option K → ℕ → List Row
  unfolding sort_rows
  list_rows rows cursor limit = take limit (sort_rows (select (past cursor) rows))

-- `nullableCursor`: the empty text is `null` for the client.
nullable_cursor : Bytes → Option Bytes
nullable_cursor s = if is_empty s then none else some s

module _ {K : Type 0} (encode : K → Bytes) where
  -- `nextCursor`: the cursor of the last row, or the empty text after a page that is not full.
  next_cursor : ℕ → ℕ → Option K → Bytes
  next_cursor page_size requested none = []
  next_cursor page_size requested (some last) =
      if page_size == 0 || ltb page_size requested then [] else encode last

-- What a list handler answers: a page with its next cursor, or 400.
pub data ListReply (Row : Type 0) : Type 0 where
  ok : List Row → Option Bytes → ListReply Row
  bad_request : ListReply Row

module _ {Row K : Type 0} (o : KeyOrder K) (sort_key : Row → K) (encode : K → Bytes)
    (decode : Bytes → Decoded K) where
  pub reply : List Row → ℕ → ListReply Row
  unfolding next_cursor nullable_cursor is_empty
  reply rows limit =
      ok rows (
        nullable_cursor (next_cursor encode (length rows) limit (Option.map sort_key (last? rows))))

  -- The shape that the list handlers share, over the rows that the user may see.
  unfoldable pub handle_list : List Row → Bytes → Bytes → ListReply Row
  unfolding reply list_rows parse_list_pagination
  handle_list rows limit_text cursor_text =
      elim (parse_list_pagination decode limit_text cursor_text) [
        | page cursor limit ↦ reply (list_rows o sort_key rows cursor limit) limit
        | invalid_limit ↦ bad_request
        | invalid_cursor ↦ bad_request
      ]
