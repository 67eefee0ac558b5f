-- ===== src/Page/Listing/Walk.antt =====
-- A client that follows `next_cursor` from page to page.
use zymobrew.Base.{
  ℕ, zero, suc, ◌≤◌, ◌<◌, ◌≡◌, refl, sym, ap, ◌∙◌, ◌≢◌, inl, inr, Bool, true, List, [], ◌∷◌, ◌++◌,
  append_assoc, Option, none, some, arith, Bytes, length, take, select, last?, All, All-of,
  Bool-cases, Option-cases, length-append, ltb, ltb→lt, is_empty,
}
use mathlib.Core.Option
use zymobrew.Page.Order.{KeyOrder}
use zymobrew.Page.Cursor.{Decoded, key as decoded_key}
use zymobrew.Page.Request.{
  page, parse_limit, parse_limit_bounds, parse_list_pagination, with_cursor,
}
use zymobrew.Page.Listing.{
  ok, bad_request, sort_rows, past, list_rows, next_cursor, nullable_cursor, reply, handle_list,
}
use zymobrew.Page.Listing.Sorted.{
  Before, IsDistinct, IsSorted, before_asym, sort_rows-IsSorted, sort_rows-select, All-sort_rows,
  length-sort_rows, sort_rows-perm,
}
use mathlib.Core.List.{Perm}

module _ {A : Type 0} where
  -- A page that is full splits the rows: all but its last, its last, and those to come.
  take_full :
      (n : ℕ) (xs : List A)
      → n < length (take (suc n) xs)
      → (front : List A) × (x : A) × (rest : List A) × (xs ≡ front ++ x ∷ rest)
        × (take (suc n) xs ≡ front ++ x ∷ [])
        × (last? (take (suc n) xs) ≡ some x)
  take_full n [] h = absurd (omega arith)
  take_full zero (x ∷ xs) h = ([], x, xs, refl, refl, refl)
  take_full (suc n) (x ∷ []) h = absurd (omega arith)
  take_full (suc n) (x ∷ y ∷ ys) h =
      let (front, z, rest, whole, part, last) = take_full n (y ∷ ys) (omega arith) in
      (x ∷ front, z, rest, cc, cc, last)

  take_short : (n : ℕ) (xs : List A) → length (take n xs) < n → take n xs ≡ xs
  take_short zero xs h = elim h [ ]
  take_short (suc n) [] h = refl
  take_short (suc n) (x ∷ xs) h = cc (take_short n xs (omega arith))

module _ {Row K : Type 0} (o : KeyOrder K) (key : Row → K) where
  select-All : (p : Row → Bool) (xs : List Row) → All (λ x. p x ≡ true) xs → select p xs ≡ xs
  select-All p [] h = refl
  select-All p (x ∷ xs) (hx, h) = rw (hx, select-All p xs h)

  -- Past the key of a row of the sorted list stand the rows behind it.
  select-past :
      (front : List Row) (x : Row) (rest : List Row)
      → IsSorted o key (front ++ x ∷ rest)
      → select (past o key (some (key x))) (front ++ x ∷ rest) ≡ rest
  select-past [] x rest (hx, s) =
      rw (o.irrefl (key x)) (select-All (past o key (some (key x))) rest hx)
  select-past (y ∷ front) x rest (hy, s) =
      rw (before_asym o key y x (middle front hy)) (select-past front x rest s)
    where
      middle : (zs : List Row) → All (Before o key y) (zs ++ x ∷ rest) → Before o key y x
      middle [] h = h.0
      middle (z ∷ zs) h = middle zs h.1

  module _ (encode : K → Bytes) (decode : Bytes → Decoded K) where
    -- The client's loop: `none` if it runs out of fuel or is refused a page.
    unfoldable pub walk : ℕ → List Row → Bytes → Bytes → Option (List Row)
    walk zero rows limit_text cursor_text = none
    walk (suc fuel) rows limit_text cursor_text =
        elim (handle_list o key encode decode rows limit_text cursor_text) [
          | bad_request ↦ none
          | ok served next ↦ elim next [
            | none ↦ some served
            | some c ↦ Option.map (λ more. served ++ more) (walk fuel rows limit_text c)
          ]
        ]

    walk_end :
        (fuel : ℕ) (rows served : List Row) (limit_text s : Bytes)
        → handle_list o key encode decode rows limit_text s ≡ ok served none
        → walk (suc fuel) rows limit_text s ≡ some served
    unfolding walk
    walk_end fuel rows served limit_text s h = rw (h, walk)

    walk_more :
        (fuel : ℕ) (rows served more : List Row) (limit_text s c : Bytes)
        → handle_list o key encode decode rows limit_text s ≡ ok served (some c)
        → walk fuel rows limit_text c ≡ some more
        → walk (suc fuel) rows limit_text s ≡ some (served ++ more)
    unfolding walk
    walk_more fuel rows served more limit_text s c h k = rw (h, walk) (rw k)

    -- What a cursor needs: its text is not empty and decodes to it.
    abbrev pub Survives : K → Type 0
    Survives k = (decode (encode k) ≡ decoded_key k) × (encode k ≢ [])

    parse_issued :
        (limit_text s : Bytes) {limit : ℕ} (k : K)
        → parse_limit limit_text ≡ some limit
        → decode s ≡ decoded_key k
        → s ≢ []
        → parse_list_pagination decode limit_text s ≡ page (some k) limit
    unfolding parse_list_pagination
    parse_issued limit_text [] k hl hd hn = absurd (hn refl)
    parse_issued limit_text (c ∷ s) k hl hd hn =
        rw (hl, parse_list_pagination) (rw (hd, with_cursor))

    nullable_issued : (s : Bytes) → s ≢ [] → nullable_cursor s ≡ some s
    unfolding nullable_cursor is_empty
    nullable_issued [] h = absurd (h refl)
    nullable_issued (c ∷ s) h = refl

    reply_full :
        (served : List Row) (x : Row) (limit : ℕ)
        → last? served ≡ some x
        → 0 < length served
        → limit ≤ length served
        → encode (key x) ≢ []
        → reply o key encode decode served limit ≡ ok served (some (encode (key x)))
    unfolding reply next_cursor
    reply_full served x limit hl h0 hs hn =
        rw hl (ground (arith, nullable_issued (encode (key x)) hn))

    reply_short :
        (served : List Row) (limit : ℕ)
        → length served < limit
        → reply o key encode decode served limit ≡ ok served none
    unfolding reply next_cursor nullable_cursor is_empty
    reply_short served limit h = elim (Option-cases (last? served)) [
      | inl e ↦ rw e
      | inr (x, e) ↦ rw e (ground arith)
    ]

    -- One request at a place in the sorted list: the next rows, with a cursor if the page is full.
    handle_list-at :
        (rows rest : List Row) (limit_text s : Bytes) (cursor : Option K) (limit : ℕ)
        → IsDistinct o key rows
        → parse_list_pagination decode limit_text s ≡ page cursor limit
        → select (past o key cursor) (sort_rows o key rows) ≡ rest
        → handle_list o key encode decode rows limit_text s
          ≡ reply o key encode decode (take limit rest) limit
    unfolding handle_list list_rows
    handle_list-at rows rest limit_text s cursor limit d hp hr =
        rw (hp, handle_list) (cc (sort_rows-select o key (past o key cursor) rows d, hr))

    All-middle {κ} :
        (P : Row → Type κ) (front : List Row) (x : Row) (rest : List Row)
        → All P (front ++ x ∷ rest)
        → P x
    All-middle P [] x rest h = h.0
    All-middle P (y ∷ front) x rest h = All-middle P front x rest h.1

    module _ (rows : List Row) (limit_text : Bytes) (l : ℕ) (d : IsDistinct o key rows)
        (survive : All (λ r. Survives (key r)) (sort_rows o key rows))
        (hl : parse_limit limit_text ≡ some (suc l)) where
      later_shorter :
          (shown later : List Row) (x : Row) {rest : List Row} {fuel : ℕ}
          → rest ≡ shown ++ x ∷ later
          → length rest < suc fuel
          → length later < fuel
      later_shorter shown later x e h = omega (arith, ap length e, length-append shown (x ∷ later))

      walk-from :
          (fuel : ℕ) (s : Bytes) (cursor : Option K) (front rest : List Row)
          → parse_list_pagination decode limit_text s ≡ page cursor (suc l)
          → sort_rows o key rows ≡ front ++ rest
          → select (past o key cursor) (sort_rows o key rows) ≡ rest
          → length rest < fuel
          → walk fuel rows limit_text s ≡ some rest
      unfolding walk
      walk-from zero s cursor front rest hp hs hr hf = elim hf [ ]
      walk-from (suc fuel) s cursor front rest hp hs hr hf =
          let page_rows = take (suc l) rest in
          let served = handle_list-at rows rest limit_text s cursor (suc l) d hp hr in
          elim (Bool-cases (ltb (length page_rows) (suc l))) [
            | inl short ↦ walk_end fuel rows rest limit_text s (
                cc (
                  served,
                  reply_short page_rows (suc l) (ltb→lt _ _ short),
                  take_short (suc l) rest (ltb→lt _ _ short),
                ))
            | inr full ↦
                let (shown, x, later, whole, part, last) = take_full l rest (ground arith) in
                let before : List Row = front ++ shown in
                let sorted : sort_rows o key rows ≡ before ++ x ∷ later =
                  cc (hs, whole, append_assoc front shown (x ∷ later)) in
                let issued : Survives (key x) =
                  All-middle (λ r. Survives (key r)) before x later (rw sorted at survive) in
                let placed : IsSorted o key (before ++ x ∷ later) =
                  rw sorted at (sort_rows-IsSorted o key rows d) in
                let onward =
                  walk-from fuel (encode (key x)) (some (key x)) (before ++ x ∷ []) later
                    (parse_issued limit_text (encode (key x)) (key x) hl issued.0 issued.1)
                    (sorted ∙ sym (append_assoc before (x ∷ []) later))
                    (rw sorted (select-past before x later placed))
                    (later_shorter shown later x whole hf) in
                walk_more fuel rows page_rows later limit_text s (encode (key x))
                  (served
                    ∙ reply_full page_rows x (suc l) last (ground arith) (ground arith) issued.1)
                  onward
                ∙ ap some (cc (part, whole, append_assoc shown (x ∷ []) later))
          ]

    -- Following `next_cursor` from the first page, with any valid limit, shows every row of the list
    -- exactly once and in order, and ends after at most one request more than there are rows: if
    -- the sort keys are distinct and every key survives its encoding.
    pub walk_complete :
        (rows : List Row) (limit_text : Bytes) (limit fuel : ℕ)
        → IsDistinct o key rows
        → All (λ r. Survives (key r)) rows
        → parse_limit limit_text ≡ some limit
        → length rows < fuel
        → (walk fuel rows limit_text [] ≡ some (sort_rows o key rows))
          × IsSorted o key (sort_rows o key rows)
          × Perm (sort_rows o key rows) rows
    unfolding parse_list_pagination
    walk_complete rows limit_text zero fuel d v hl hf =
        absurd (omega (arith, parse_limit_bounds limit_text hl))
    walk_complete rows limit_text (suc l) fuel d v hl hf = (
      walk-from rows limit_text l d (All-sort_rows o key (λ r. Survives (key r)) rows v) hl fuel []
          none [] (sort_rows o key rows) (rw (hl, parse_list_pagination)) refl
          (select-All (past o key none) _
            (All-of (λ r. past o key none r ≡ true) (λ r. refl) (sort_rows o key rows)))
          (rw (length-sort_rows o key rows) hf),
      sort_rows-IsSorted o key rows d,
      sort_rows-perm o key rows,
    )
