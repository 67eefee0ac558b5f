-- ===== src/Page/Listing/Sorted.antt =====
-- The ORDER BY of the list queries: the rows come in strictly ascending keys, and filtering before
-- or after sorting is the same.
use mathlib.Core.List.{Perm}
use mathlib.Core.List.Perm
use zymobrew.Base.{
  length, suc, any, ◌||◌, ◌≡◌, refl, ◌≢◌, inl, inr, Bool, true, false, List, [], ◌∷◌, arith, select,
  All, Bool-cases, if◌then◌else◌,
}
use zymobrew.Page.Order.{KeyOrder}
use zymobrew.Page.Listing.{insert_row, sort_rows}

module _ {Row K : Type 0} (o : KeyOrder K) (key : Row → K) where
  abbrev pub Before : Row → Row → Type 0
  Before x y = o.before (key x) (key y) ≡ true

  -- The keys of the rows are all different; so they are where they hold the row's id.
  abbrev pub IsDistinct : List Row → Type 0
  IsDistinct [] = Unit
  IsDistinct (x ∷ xs) = All (λ y. key y ≢ key x) xs × IsDistinct xs

  abbrev pub IsSorted : List Row → Type 0
  IsSorted [] = Unit
  IsSorted (x ∷ xs) = All (Before x) xs × IsSorted xs

  pub before_asym : (x y : Row) → Before x y → o.before (key y) (key x) ≡ false
  before_asym x y h = elim (Bool-cases (o.before (key y) (key x))) [
    | inr p ↦ p
    | inl p ↦ absurd (cc (o.trans (key x) (key y) (key x) h p, o.irrefl (key x)))
  ]

  All-trans : (x y : Row) (xs : List Row) → Before x y → All (Before y) xs → All (Before x) xs
  All-trans x y [] h hs = tt
  All-trans x y (z ∷ zs) h (p, hs) = (o.trans (key x) (key y) (key z) h p, All-trans x y zs h hs)

  All-insert_row {κ} :
      (P : Row → Type κ) (r : Row) (xs : List Row) → P r → All P xs → All P (insert_row o key r xs)
  unfolding insert_row
  All-insert_row P r [] pr _ = (pr, tt)
  All-insert_row P r (x ∷ xs) pr (px, h) = elim (Bool-cases (o.before (key x) (key r))) [
    | inl e ↦ rw e (px, All-insert_row P r xs pr h)
    | inr e ↦ rw e (pr, (px, h))
  ]

  insert_row-IsSorted :
      (r : Row) (xs : List Row)
      → All (λ y. key y ≢ key r) xs
      → IsSorted xs
      → IsSorted (insert_row o key r xs)
  unfolding insert_row
  insert_row-IsSorted r [] d s = (tt, tt)
  insert_row-IsSorted r (x ∷ xs) (dx, d) (hx, s) = elim (Bool-cases (o.before (key x) (key r))) [
    | inl e ↦ rw e (All-insert_row (Before x) r xs e hx, insert_row-IsSorted r xs d s)
    | inr e ↦ rw e (behind e)
  ]
    where
      behind :
          o.before (key x) (key r) ≡ false
          → (Before r x × All (Before r) xs) × (All (Before x) xs × IsSorted xs)
      behind e = elim (o.total (key x) (key r) dx) [
        | inl p ↦ absurd (cc (p, e))
        | inr p ↦ ((p, All-trans r x xs p hx), (hx, s))
      ]

  pub All-sort_rows {κ} :
      (P : Row → Type κ) (rows : List Row) → All P rows → All P (sort_rows o key rows)
  unfolding sort_rows
  All-sort_rows P [] h = tt
  All-sort_rows P (r ∷ rows) (pr, h) = All-insert_row P r _ pr (All-sort_rows P rows h)

  pub sort_rows-IsSorted : (rows : List Row) → IsDistinct rows → IsSorted (sort_rows o key rows)
  unfolding sort_rows
  sort_rows-IsSorted [] d = tt
  sort_rows-IsSorted (r ∷ rows) (dr, d) =
      insert_row-IsSorted r _ (All-sort_rows (λ y. key y ≢ key r) rows dr)
        (sort_rows-IsSorted rows d)

  All-select {κ} :
      (P : Row → Type κ) (p : Row → Bool) (xs : List Row) → All P xs → All P (select p xs)
  All-select P p [] h = tt
  All-select P p (x ∷ xs) (px, h) = elim (Bool-cases (p x)) [
    | inl e ↦ rw e (px, All-select P p xs h)
    | inr e ↦ rw e (All-select P p xs h)
  ]

  -- A row that no other comes before goes to the front.
  insert_row_front :
      (r : Row) (xs : List Row)
      → All (λ y. o.before (key y) (key r) ≡ false) xs
      → insert_row o key r xs ≡ r ∷ xs
  unfolding insert_row
  insert_row_front r [] h = refl
  insert_row_front r (x ∷ xs) (hx, h) = rw hx

  not_before_tail :
      (r x : Row) (xs : List Row)
      → o.before (key x) (key r) ≡ false
      → All (Before x) xs
      → All (λ y. o.before (key y) (key r) ≡ false) xs
  not_before_tail r x [] e h = tt
  not_before_tail r x (y ∷ ys) e (hy, h) = (here, not_before_tail r x ys e h)
    where
      here : o.before (key y) (key r) ≡ false
      here = elim (Bool-cases (o.before (key y) (key r))) [
        | inr q ↦ q
        | inl q ↦ absurd (cc (o.trans (key x) (key y) (key r) hy q, e))
      ]

  select-insert_row :
      (p : Row → Bool) (r : Row) (xs : List Row)
      → IsSorted xs
      → select p (insert_row o key r xs)
        ≡ (if p r then insert_row o key r (select p xs) else select p xs)
  unfolding insert_row
  select-insert_row p r [] s = ground arith
  select-insert_row p r (x ∷ xs) (hx, s) = elim (Bool-cases (o.before (key x) (key r))) [
    | inl e ↦ ground (arith, select-insert_row p r xs s)
    | inr e ↦ ground (
      arith,
      insert_row_front r (select p xs)
          (All-select (λ y. o.before (key y) (key r) ≡ false) p xs (not_before_tail r x xs e hx)),
    )
  ]

  -- Filtering commutes with sorting.
  pub sort_rows-select :
      (p : Row → Bool) (rows : List Row)
      → IsDistinct rows
      → sort_rows o key (select p rows) ≡ select p (sort_rows o key rows)
  unfolding sort_rows
  sort_rows-select p [] d = refl
  sort_rows-select p (r ∷ rows) (dr, d) =
      let sorted = select-insert_row p r (sort_rows o key rows) (sort_rows-IsSorted rows d) in
      elim (Bool-cases (p r)) [
        | inl e ↦ rw (sorted, e, sort_rows-select p rows d)
        | inr e ↦ rw (sorted, e, sort_rows-select p rows d)
      ]

  insert_row-perm : (r : Row) (xs : List Row) → Perm (insert_row o key r xs) (r ∷ xs)
  unfolding insert_row
  insert_row-perm r [] = Perm.refl (r ∷ [])
  insert_row-perm r (x ∷ xs) = elim (Bool-cases (o.before (key x) (key r))) [
    | inl e ↦ rw e (Perm.trans (Perm.cons x (insert_row-perm r xs)) (Perm.swap r x xs))
    | inr e ↦ rw e (Perm.refl (r ∷ x ∷ xs))
  ]

  pub sort_rows-perm : (rows : List Row) → Perm (sort_rows o key rows) rows
  unfolding sort_rows
  sort_rows-perm [] = Perm.refl []
  sort_rows-perm (r ∷ rows) =
      Perm.trans (insert_row-perm r (sort_rows o key rows)) (Perm.cons r (sort_rows-perm rows))

  length-insert_row : (r : Row) (xs : List Row) → length (insert_row o key r xs) ≡ suc (length xs)
  unfolding insert_row
  length-insert_row r [] = refl
  length-insert_row r (x ∷ xs) = ground (arith, length-insert_row r xs)

  pub length-sort_rows : (rows : List Row) → length (sort_rows o key rows) ≡ length rows
  unfolding sort_rows
  length-sort_rows [] = refl
  length-sort_rows (r ∷ rows) =
      omega (arith, length-insert_row r (sort_rows o key rows), length-sort_rows rows)

  any-insert_row :
      (q : Row → Bool) (r : Row) (xs : List Row) → any q (insert_row o key r xs) ≡ (q r || any q xs)
  unfolding insert_row
  any-insert_row q r [] = refl
  any-insert_row q r (x ∷ xs) = ground (arith, any-insert_row q r xs)

  -- Sorting neither adds nor drops a row.
  pub any-sort_rows : (q : Row → Bool) (rows : List Row) → any q (sort_rows o key rows) ≡ any q rows
  unfolding sort_rows
  any-sort_rows q [] = refl
  any-sort_rows q (r ∷ rows) =
      ground (arith, any-insert_row q r (sort_rows o key rows), any-sort_rows q rows)
