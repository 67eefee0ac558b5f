-- ===== src/Batches/Events.antt =====
-- The event handlers of internal/server/batches.go, with the queries of
-- internal/queries/batch_events.sql.go.
pub mod Laws
pub mod Outcomes
use zymobrew.Base.{
  ℕ, ◌≡◌, Bool, true, false, ◌&&◌, ◌||◌, not, List, [], ◌∷◌, ◌++◌, Option, none, some, Bytes, codes,
  find, any, update, select, is_empty, ◌==◌, if◌then◌else◌,
}
use zymobrew.Base.Int.{ℤ}
use zymobrew.Schema.{Batch, EventKind}
use zymobrew.Schema.Labels.{event_kind_of}
use zymobrew.Reminders.{coalesce, coalesce_null}
use zymobrew.Store.{
  BatchEvent, Db, Reply, done, refused, World, Outage, get_batch_query, create_event_query,
  update_event_query, delete_event_query,
}
use zymobrew.Batches.{
  get_batch_for_user, anchor_for_kind, materialize_templates, maybe_advance_stage,
}

-- A body that was decoded; `none` for a field that is a nil pointer or empty.
pub record CreateEventRequest : Type 0 where
  pub occurred_at : Option ℤ
  pub kind : Bytes
  pub title : Bytes
  pub description : Bytes
  pub details : Bytes

pub record UpdateEventRequest : Type 0 where
  pub occurred_at : Option ℤ
  pub kind : Option Bytes
  pub title : Option Bytes
  pub description : Option Bytes
  pub details : Option Bytes

-- `optText`
unfoldable pub opt_text : Bytes → Option Bytes
opt_text [] = none
opt_text (c ∷ s) = some (c ∷ s)

abbrev pub or_now : ℤ → Option ℤ → ℤ
or_now now t = coalesce t now

-- `!json.Valid(details) || details[0] != '{'`, for a text that is not empty
unfoldable pub bad_details : World → Bytes → Bool
bad_details w [] = false
bad_details w (c ∷ s) = not (w.json_valid (c ∷ s)) || not (c == b'{')

-- The column's value: `{}` unless the request has details.
unfoldable pub details_or_empty : Bytes → Bytes
details_or_empty [] = codes "{}"
details_or_empty (c ∷ s) = c ∷ s

unfoldable pub new_event : World → ℕ → CreateEventRequest → EventKind → BatchEvent
unfolding opt_text details_or_empty
new_event w batch req kind = record {
  id = w.new_event_id;
  batch_id = batch;
  occurred_at = or_now w.now req.occurred_at;
  kind = kind;
  title = opt_text req.title;
  description = opt_text req.description;
  details = details_or_empty req.details;
}

abbrev pub is_event : ℕ → ℕ → BatchEvent → Bool
is_event id batch e = e.id == id && e.batch_id == batch

unfoldable pub patch_event : UpdateEventRequest → Option EventKind → BatchEvent → BatchEvent
patch_event req kind e = record e {
  occurred_at = coalesce req.occurred_at e.occurred_at;
  kind = coalesce kind e.kind;
  title = coalesce_null req.title e.title;
  description = coalesce_null req.description e.description;
  details = coalesce req.details e.details;
}

module _ (w : World) (down : Outage) where
  -- The reminders that an event of this kind anchors.
  unfoldable pub anchor_reminders : Batch → BatchEvent → Db → Db
  anchor_reminders batch e db = elim (anchor_for_kind e.kind) [
    | none ↦ db
    | some anchor ↦ materialize_templates w down batch anchor e.occurred_at db
  ]

  -- What both handlers do once the event is stored.
  unfoldable pub follow_up : Batch → BatchEvent → Db → Db
  follow_up batch e db =
      maybe_advance_stage w down batch e.kind e.occurred_at (anchor_reminders batch e db)

  unfoldable pub store_event : Batch → BatchEvent → Db → Db × Reply BatchEvent
  unfolding follow_up
  store_event batch e db =
      (follow_up batch e (record db { events = db.events ++ e ∷ [] }), done 201 e)

  insert_event : Batch → ℕ → CreateEventRequest → Option EventKind → Db → Db × Reply BatchEvent
  unfolding store_event
  insert_event batch id req none db = (db, refused 400 "invalid kind value")
  insert_event batch id req (some kind) db = store_event batch (new_event w id req kind) db

  create_in : Batch → ℕ → Option CreateEventRequest → Db → Db × Reply BatchEvent
  unfolding insert_event bad_details
  create_in batch id none db = (db, refused 400 "invalid json")
  create_in batch id (some req) db =
      if is_empty req.kind
      then (db, refused 400 "kind required")
      else if bad_details w req.details
      then (db, refused 400 "details must be a JSON object")
      else if down create_event_query
      then (db, refused 500 "create failed")
      else insert_event batch id req (event_kind_of req.kind) db

  -- The load of the batch with which the event handlers begin.
  with_batch : ℕ → ℕ → Db → (Batch → Db × Reply BatchEvent) → Db × Reply BatchEvent
  with_batch user id db next =
      if down get_batch_query
      then (db, refused 500 "internal error")
      else elim (get_batch_for_user id user db.batches) [
        | none ↦ (db, refused 404 "not found")
        | some batch ↦ next batch
      ]

  -- The path's id and the body are given as the parsers return them.
  unfoldable pub handle_create_batch_event :
      ℕ → Option ℕ → Option CreateEventRequest → Db → Db × Reply BatchEvent
  unfolding with_batch create_in
  handle_create_batch_event user none body db = (db, refused 400 "invalid batch id")
  handle_create_batch_event user (some id) body db =
      with_batch user id db (λ batch. create_in batch id body db)

  -- `UpdateBatchEvent`, and what follows if RETURNING gives a row.
  returned : Batch → List BatchEvent → Option BatchEvent → Db → Db × Reply BatchEvent
  unfolding follow_up
  returned batch events none db = (record db { events = events }, refused 404 "not found")
  returned batch events (some e) db =
      (follow_up batch e (record db { events = events }), done 200 e)

  rewrite_event : Batch → ℕ → ℕ → UpdateEventRequest → Option EventKind → Db → Db × Reply BatchEvent
  unfolding returned patch_event
  rewrite_event batch id event req kind db =
      let events = update (is_event event id) (patch_event req kind) db.events in
      returned batch events (find (is_event event id) events) db

  -- An absent kind is kept; a text that is no label fails in the query.
  cast_kind : Batch → ℕ → ℕ → UpdateEventRequest → Option Bytes → Db → Db × Reply BatchEvent
  unfolding rewrite_event
  cast_kind batch id event req none db = rewrite_event batch id event req none db
  cast_kind batch id event req (some text) db = elim (event_kind_of text) [
    | none ↦ (db, refused 400 "invalid kind value")
    | some kind ↦ rewrite_event batch id event req (some kind) db
  ]

  bad_patch : Option Bytes → Bool
  unfolding bad_details
  bad_patch none = false
  bad_patch (some raw) = bad_details w raw

  update_in : Batch → ℕ → ℕ → Option UpdateEventRequest → Db → Db × Reply BatchEvent
  unfolding cast_kind bad_patch
  update_in batch id event none db = (db, refused 400 "invalid json")
  update_in batch id event (some req) db =
      if bad_patch req.details
      then (db, refused 400 "details must be a JSON object")
      else if down update_event_query
      then (db, refused 500 "update failed")
      else cast_kind batch id event req req.kind db

  unfoldable pub handle_update_batch_event :
      ℕ → Option ℕ → Option ℕ → Option UpdateEventRequest → Db → Db × Reply BatchEvent
  unfolding with_batch update_in
  handle_update_batch_event user none event body db = (db, refused 400 "invalid batch id")
  handle_update_batch_event user (some id) none body db = (db, refused 400 "invalid event id")
  handle_update_batch_event user (some id) (some event) body db =
      with_batch user id db (λ batch. update_in batch id event body db)

  -- `DeleteBatchEvent`, whose 204 has no body.
  delete_in : ℕ → ℕ → Db → Db × Reply (Unit {0})
  delete_in id event db =
      if down delete_event_query
      then (db, refused 500 "delete failed")
      else if any (is_event event id) db.events
      then (record db { events = select (λ e. not (is_event event id e)) db.events }, done 204 tt)
      else (db, refused 404 "not found")

  -- `userOwnsBatch`: an error of the query counts as not owned.
  unfoldable pub user_owns_batch : ℕ → ℕ → Db → Bool
  user_owns_batch user id db =
      if down get_batch_query
      then false
      else elim (get_batch_for_user id user db.batches) [ none ↦ false | some batch ↦ true ]

  unfoldable pub handle_delete_batch_event : ℕ → Option ℕ → Option ℕ → Db → Db × Reply (Unit {0})
  unfolding delete_in user_owns_batch
  handle_delete_batch_event user none event db = (db, refused 400 "invalid batch id")
  handle_delete_batch_event user (some id) none db = (db, refused 400 "invalid event id")
  handle_delete_batch_event user (some id) (some event) db =
      if user_owns_batch user id db then delete_in id event db else (db, refused 404 "not found")
