-- ===== src/Page/Examples.antt =====
-- Pagination at concrete inputs, with a toy encoding that has the laws.
use zymobrew.Base.{
  ℕ, zero, suc, ◌<◌, ◌≡◌, ◌↔◌, refl, ap, ◌≢◌, true, List, [], ◌∷◌, ◌++◌, Option, none, some, Bytes,
  codes, arith, length, All,
}
use mathlib.Core.List.{Perm}
use zymobrew.Base.Int.{ℤ, pos, negsuc}
use zymobrew.Page.Order.{SortKey, newest_first, row_lt}
use zymobrew.Page.Cursor.{
  Encodings, IsFaithful, HasYear, encode, decode, decode-encode, encode-ne-nil,
}
use zymobrew.Page.Request.{parse_limit, atoi}
use zymobrew.Page.Limit.{Reads, parse_limit_iff}
use zymobrew.Page.Listing.{sort_rows}
use zymobrew.Page.Listing.Sorted.{IsSorted, IsDistinct}
use zymobrew.Page.Listing.Walk.{walk, walk_complete, Survives}

unfoldable pub write_time : ℤ → Bytes
write_time (pos n) = 0 ∷ n ∷ []
write_time (negsuc n) = 1 ∷ n ∷ []

unfoldable pub read_time : Bytes → Option ℤ
read_time (zero ∷ n ∷ []) = some (pos n)
read_time (suc zero ∷ n ∷ []) = some (negsuc n)
read_time _ = none

unfoldable pub write_id : ℕ → Bytes
write_id i = i ∷ []

unfoldable pub read_id : Bytes → Option ℕ
read_id (i ∷ []) = some i
read_id _ = none

unfoldable pub write_pair : Bytes × Bytes → Bytes
write_pair p = length p.0 ∷ (p.0 ++ p.1)

unfoldable pub split : ℕ → Bytes → Bytes × Bytes
split zero s = ([], s)
split (suc n) [] = ([], [])
split (suc n) (c ∷ s) = let (a, b) = split n s in (c ∷ a, b)

unfoldable pub read_pair : Bytes → Option (Bytes × Bytes)
unfolding split
read_pair [] = none
read_pair (n ∷ s) = some (split n s)

split-append : (a b : Bytes) → split (length a) (a ++ b) ≡ (a, b)
unfolding split
split-append [] b = refl
split-append (c ∷ a) b = rw (split-append a b)

abbrev pub toy : Encodings
toy = record {
  format_time = write_time;
  parse_time = read_time;
  id_string = write_id;
  parse_id = read_id;
  marshal = write_pair;
  unmarshal = read_pair;
  encode_b64 = λ b. b;
  decode_b64 = λ b. some b;
  is_utf8 = λ b. true;
}

read_written : (t : ℤ) → read_time (write_time t) ≡ some t
unfolding read_time write_time
read_written (pos n) = refl
read_written (negsuc n) = refl

pair_back : (p : Bytes × Bytes) → read_pair (write_pair p) ≡ some p
unfolding read_pair write_pair
pair_back (a, b) = ap some (split-append a b)

id_back : (i : ℕ) → read_id (write_id i) ≡ some i
unfolding read_id write_id
id_back i = refl

written : (p : Bytes × Bytes) → write_pair p ≢ []
unfolding write_pair
written p h = cc

pub toy-IsFaithful : IsFaithful toy
toy-IsFaithful = record {
  time_back = λ t h. read_written t;
  id_back = λ i h. id_back i;
  time_utf8 = λ t h. refl;
  id_utf8 = λ i h. refl;
  json_back = λ p t i. pair_back p;
  b64_back = λ b. refl;
  json_text = written;
  b64_text = λ b h. h;
}

pub year_70 : (n : ℕ) → n < 253402300800000000 → HasYear (pos n)
year_70 n h = (ground arith, ground arith)

limit_example : parse_limit (codes "25") ≡ some 25
unfolding parse_limit atoi
limit_example = refl

limit_refused :
    (parse_limit (codes "101") ≡ none)
    × (parse_limit (codes "-3") ≡ none)
    × (parse_limit (codes "2x") ≡ none)
unfolding parse_limit atoi
limit_refused = (refl, refl, refl)

parse_limit_iff_example : (parse_limit (codes "+025") ≡ some 25) ↔ Reads (codes "+025") 25
parse_limit_iff_example = parse_limit_iff (codes "+025") 25

abbrev table : List SortKey
table = (pos 10, 1) ∷ (pos 30, 2) ∷ (pos 20, 3) ∷ (pos 30, 4) ∷ []

table-IsDistinct : IsDistinct newest_first (λ (k : SortKey). k) table
table-IsDistinct = ground arith

table-Survives : All (Survives newest_first (λ (k : SortKey). k) (encode toy) (decode toy)) table
table-Survives = (
  lives 10 1 (omega arith) (omega arith),
  (
    lives 30 2 (omega arith) (omega arith),
    (lives 20 3 (omega arith) (omega arith), (lives 30 4 (omega arith) (omega arith), tt)),
  ),
)
  where
    lives :
        (n i : ℕ)
        → n < 1000
        → i < 1000
        → Survives newest_first (λ (k : SortKey). k) (encode toy) (decode toy) (pos n, i)
    lives n i h small = (
      decode-encode toy toy-IsFaithful (pos n, i) (year_70 n (omega arith)) (omega arith),
      encode-ne-nil toy toy-IsFaithful (pos n, i),
    )

two : parse_limit (codes "2") ≡ some 2
unfolding parse_limit atoi
two = refl

walk_complete_example :
    (walk newest_first (λ (k : SortKey). k) (encode toy) (decode toy) 5 table (codes "2") []
      ≡ some (sort_rows newest_first (λ (k : SortKey). k) table))
    × IsSorted newest_first (λ (k : SortKey). k) (sort_rows newest_first (λ (k : SortKey). k) table)
    × Perm (sort_rows newest_first (λ (k : SortKey). k) table) table
walk_complete_example =
    walk_complete newest_first (λ (k : SortKey). k) (encode toy) (decode toy) table (codes "2") 2 5
      table-IsDistinct table-Survives two (omega arith)

newest :
    sort_rows newest_first (λ (k : SortKey). k) table
    ≡ (pos 30, 4) ∷ (pos 30, 2) ∷ (pos 20, 3) ∷ (pos 10, 1) ∷ []
unfolding sort_rows row_lt
newest = refl
