-- ===== src/Page/Request.antt =====
-- `parseListPagination` of internal/server/pagination.go, with `strconv.Atoi` on bytes.
use zymobrew.Base.{
  ℕ, zero, suc, ◌+◌, ◌-◌, ◌*◌, ◌^◌, ◌≤◌, arith, ◌≡◌, ◌&&◌, ◌||◌, [], ◌∷◌, Option, none, some, Bytes,
  leb, ltb, ◌==◌, if◌then◌else◌,
}
use zymobrew.Base.Int.{ℤ, pos, negsuc}
use zymobrew.Page.Cursor.{Decoded, key, invalid}

abbrev pub default_page_limit : ℕ
default_page_limit = 50

abbrev pub max_page_limit : ℕ
max_page_limit = 100

-- The digits of a decimal number, in order.
unfoldable pub digits_from : ℕ → Bytes → Option ℕ
digits_from n [] = some n
digits_from n (c ∷ s) =
    if leb b'0' c && leb c b'9' then digits_from (n * 10 + (c - b'0')) s else none

unfoldable pub unsigned : Bytes → Option ℕ
unfolding digits_from
unsigned [] = none
unsigned (c ∷ s) = digits_from 0 (c ∷ s)

abbrev pub negate : ℕ → ℤ
negate zero = pos 0
negate (suc n) = negsuc n

unfoldable pub in_bound : ℕ → (ℕ → ℤ) → Option ℕ → Option ℤ
in_bound bound make none = none
in_bound bound make (some n) = if ltb n bound then some (make n) else none

-- `strconv.Atoi`: a sign is accepted, and a value that is no int64 is refused.
unfoldable pub atoi : Bytes → Option ℤ
unfolding unsigned in_bound
atoi [] = none
atoi (c ∷ s) =
    if c == b'-'
    then in_bound (2 ^ 63 + 1) negate (unsigned s)
    else if c == b'+'
    then in_bound (2 ^ 63) pos (unsigned s)
    else in_bound (2 ^ 63) pos (unsigned (c ∷ s))

-- What the handlers go on with, or the two 400 responses.
pub data Parsed (K : Type 0) : Type 0 where
  page : Option K → ℕ → Parsed K
  invalid_limit : Parsed K
  invalid_cursor : Parsed K

-- `n < 1 || n > maxPageLimit`; the conversion to int32 keeps a value of this range.
unfoldable pub limit_of : Option ℤ → Option ℕ
limit_of none = none
limit_of (some (negsuc n)) = none
limit_of (some (pos n)) = if ltb n 1 || ltb max_page_limit n then none else some n

limit_of_bounds : (o : Option ℤ) {n : ℕ} → limit_of o ≡ some n → (1 ≤ n) × (n ≤ max_page_limit)
unfolding limit_of
limit_of_bounds none h = cc
limit_of_bounds (some (negsuc n)) h = cc
limit_of_bounds (some (pos n)) h = ground arith

unfoldable pub parse_limit : Bytes → Option ℕ
unfolding limit_of atoi
parse_limit [] = some default_page_limit
parse_limit (c ∷ s) = limit_of (atoi (c ∷ s))

module _ {K : Type 0} (decode : Bytes → Decoded K) where
  unfoldable pub with_cursor : ℕ → Decoded K → Parsed K
  with_cursor limit (key k) = page (some k) limit
  with_cursor limit (invalid e) = invalid_cursor

  unfoldable pub read_cursor : ℕ → Bytes → Parsed K
  read_cursor limit [] = page none limit
  read_cursor limit (c ∷ s) = with_cursor limit (decode (c ∷ s))

  unfoldable pub parse_list_pagination : Bytes → Bytes → Parsed K
  unfolding with_cursor read_cursor
  parse_list_pagination limit_text cursor_text = elim (parse_limit limit_text) [
    | none ↦ invalid_limit
    | some limit ↦ read_cursor limit cursor_text
  ]

-- A limit that is accepted is between 1 and 100, whatever the client sends.
pub parse_limit_bounds :
    (s : Bytes) {n : ℕ} → parse_limit s ≡ some n → (1 ≤ n) × (n ≤ max_page_limit)
unfolding parse_limit atoi
parse_limit_bounds [] h = ground arith
parse_limit_bounds (c ∷ s) h = limit_of_bounds (atoi (c ∷ s)) h
