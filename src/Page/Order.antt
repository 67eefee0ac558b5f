-- ===== src/Page/Order.antt =====
-- The orders of the list queries (`ORDER BY ts, id` of internal/queries): an interface that the page
-- queries take, and the two instances that the endpoints use.
use zymobrew.Base.{ℕ, ◌≡◌, sym, ◌≢◌, ◌⊎◌, Bool, true, false, ◌&&◌, ◌||◌, arith, ltb}
use zymobrew.Base.Int.{ℤ, ltb_ℤ, eqb_ℤ}

-- `before a b`: a row with key `a` is listed before one with key `b`.
pub record KeyOrder (K : Type 0) : Type 0 where
  pub before : K → K → Bool
  pub irrefl : (a : K) → before a a ≡ false
  pub trans : (a b c : K) → before a b ≡ true → before b c ≡ true → before a c ≡ true
  pub total : (a b : K) → a ≢ b → (before a b ≡ true) ⊎ (before b a ≡ true)

-- A sort key is a timestamp (microseconds) and a row's id.
abbrev pub SortKey : Type 0
SortKey = ℤ × ℕ

-- `(ts, id) < (ts', id')`, the row comparison of Postgres.
unfoldable pub row_lt : SortKey → SortKey → Bool
row_lt a b = ltb_ℤ a.0 b.0 || (eqb_ℤ a.0 b.0 && ltb a.1 b.1)

pub row_lt_irrefl : (a : SortKey) → row_lt a a ≡ false
unfolding row_lt
row_lt_irrefl a = ground arith

pub row_lt_trans : (a b c : SortKey) → row_lt a b ≡ true → row_lt b c ≡ true → row_lt a c ≡ true
unfolding row_lt
row_lt_trans a b c h k = ground arith

pub row_lt_total : (a b : SortKey) → a ≢ b → (row_lt a b ≡ true) ⊎ (row_lt b a ≡ true)
unfolding row_lt
row_lt_total a b h = ground arith

-- `ORDER BY ts ASC, id ASC`
abbrev pub oldest_first : KeyOrder SortKey
oldest_first = record {
  before = row_lt;
  irrefl = row_lt_irrefl;
  trans = row_lt_trans;
  total = row_lt_total;
}

-- `ORDER BY ts DESC, id DESC`
abbrev pub newest_first : KeyOrder SortKey
newest_first = record {
  before = λ a b. row_lt b a;
  irrefl = row_lt_irrefl;
  trans = λ a b c h k. row_lt_trans c b a k h;
  total = λ a b h. row_lt_total b a (λ e. h (sym e));
}
