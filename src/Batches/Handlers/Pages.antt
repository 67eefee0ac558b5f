-- ===== src/Batches/Handlers/Pages.antt =====
-- The pages of a user's batches: handleListBatches of internal/server/batches.go.
use zymobrew.Base.{
  ℕ, ◌<◌, ◌≡◌, refl, ap, ◌≢◌, inl, inr, Bool, List, [], ◌∷◌, Option, some, Bytes, length, select,
  All, HasKey, Bool-cases, All-select_of, All-map_of,
}
use mathlib.Core.List.{Perm}
use zymobrew.Schema.{Batch}
use zymobrew.Store.{Db}
use zymobrew.Page.Order.{SortKey, newest_first}
use zymobrew.Page.Cursor.{
  Encodings, IsFaithful, HasYear, IsUuid, encode, decode, encode-ne-nil, decode-encode,
}
use zymobrew.Page.Request.{parse_limit}
use zymobrew.Page.Listing.{sort_rows, handle_list}
use zymobrew.Page.Listing.Sorted.{IsDistinct, IsSorted}
use zymobrew.Page.Listing.Walk.{walk, walk_complete, Survives}
use zymobrew.Batches.{batch_id}
use zymobrew.Batches.Handlers.{listed_key, brewed_by, handle_list_batches}

-- The listed time and the id of a batch can be written in a cursor.
abbrev pub IsListable : Batch → Type 0
IsListable b = HasYear (listed_key b).0 × IsUuid (listed_key b).1

IsDistinct-listed :
    (p : Batch → Bool) (bs : List Batch)
    → HasKey batch_id bs
    → IsDistinct newest_first listed_key (select p bs)
IsDistinct-listed p [] k = tt
IsDistinct-listed p (b ∷ bs) (d, k) = elim (Bool-cases (p b)) [
  | inr e ↦ rw e (IsDistinct-listed p bs k)
  | inl e ↦ rw e (
    All-select_of (λ y. listed_key y ≢ listed_key b) p bs
        (All-map_of (λ y h _ same. h (ap (λ (q : SortKey). q.1) same)) bs d),
    IsDistinct-listed p bs k,
  )
]

module _ (e : Encodings) (f : IsFaithful e) (user : ℕ) (db : Db) where
  -- The pages that a client sees who follows the cursors of its list of batches.
  abbrev pub batch_walk : ℕ → Bytes → Option (List Batch)
  batch_walk fuel limit_text =
      walk newest_first listed_key (encode e) (decode e) fuel (select (brewed_by user) db.batches)
        limit_text []

  -- A page of the walk is the handler's.
  page_of_walk :
      (limit_text cursor_text : Bytes)
      → handle_list_batches e user limit_text cursor_text db
        ≡ handle_list newest_first listed_key
            (encode e)
            (decode e)
            (select (brewed_by user) db.batches)
            limit_text
            cursor_text
  unfolding handle_list_batches
  page_of_walk limit_text cursor_text = refl

  -- A client that follows the cursors of the list of batches, with any valid limit, sees each of the
  -- user's batches exactly once, newest first, and no other, and is done after at most one request
  -- more than there are: if batch ids are unique and have 128 bits, times have a year of four digits and
  -- the encodings their documented round trips.
  pub batch_walk_complete :
      (limit_text : Bytes) (limit fuel : ℕ)
      → HasKey batch_id db.batches
      → All IsListable db.batches
      → parse_limit limit_text ≡ some limit
      → length (select (brewed_by user) db.batches) < fuel
      → (batch_walk fuel limit_text
          ≡ some (sort_rows newest_first listed_key (select (brewed_by user) db.batches)))
        × IsSorted newest_first listed_key
            (sort_rows newest_first listed_key (select (brewed_by user) db.batches))
        × Perm
            (sort_rows newest_first listed_key (select (brewed_by user) db.batches))
            (select (brewed_by user) db.batches)
  batch_walk_complete limit_text limit fuel k years hl hf =
      walk_complete newest_first listed_key (encode e) (decode e)
        (select (brewed_by user) db.batches) limit_text limit fuel
        (IsDistinct-listed (brewed_by user) db.batches k)
        (All-select_of (λ b. Survives newest_first listed_key (encode e) (decode e) (listed_key b))
          (brewed_by user) db.batches
          (All-map_of
            (λ b h _. (decode-encode e f (listed_key b) h.0 h.1, encode-ne-nil e f (listed_key b)))
            db.batches years))
        hl hf
