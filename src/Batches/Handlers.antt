-- ===== src/Batches/Handlers.antt =====
-- The batch handlers of internal/server/batches.go: create, list, get, update and delete.
pub mod Laws
pub mod Owners
pub mod Pinned
pub mod Pages
mod Examples
use mathlib.Core.Option
use Prim.Native.String.{String}
use zymobrew.Base.{
  ℕ, Bool, true, false, ◌&&◌, ◌||◌, not, List, [], ◌∷◌, ◌++◌, Option, none, some, Bytes, codes,
  bytes_eq, length, find, any, update, select, is_empty, ltb, ◌==◌, ◌*◌, if◌then◌else◌,
}
use zymobrew.Base.Int.{ℤ}
use zymobrew.Schema.{
  Batch, Recipe, Reminder, BatchStage, Visibility, batch_start, is_private, is_id,
}
use zymobrew.Schema.Labels.{batch_stage_of, visibility_of}
use zymobrew.Reminders.{coalesce}
use zymobrew.Store.{
  BatchEvent, Db, Reply, done, refused, World, Outage, get_batch_query, get_recipe_query,
  create_batch_query, update_batch_query, delete_batch_query,
}
use zymobrew.Page.Order.{SortKey, newest_first}
use zymobrew.Page.Cursor.{Encodings, encode, decode}
use zymobrew.Page.Listing.{ListReply, handle_list}
use zymobrew.Batches.{
  is_batch, get_batch_for_user, UpdateBatchParams, update_batch, materialize_templates,
}
use zymobrew.Batches.Events.{opt_text}

abbrev pub max_batch_name : ℕ
max_batch_name = 200

abbrev pub max_notes_bytes : ℕ
max_notes_bytes = 10 * 1024

-- A decoded body; a recipe's id is given as uuid.Parse returns it.
pub record CreateBatchRequest : Type 0 where
  pub name : Bytes
  pub brew_type : Bytes
  pub stage : Bytes
  pub started_at : Option ℤ
  pub notes : Bytes
  pub visibility : Bytes
  pub recipe_id : Option (Option ℕ)

pub record UpdateBatchRequest : Type 0 where
  pub name : Option Bytes
  pub stage : Option Bytes
  pub notes : Option Bytes
  pub started_at : Option ℤ
  pub bottled_at : Option ℤ
  pub visibility : Option Bytes

-- An empty text takes its default.
unfoldable pub or_default : Bytes → Bytes → Bytes
or_default default [] = default
or_default default (c ∷ s) = c ∷ s

unfoldable pub allowed_brew_type : Bytes → Bool
unfolding bytes_eq
allowed_brew_type s = any (bytes_eq s) (codes "mead" ∷ codes "cider" ∷ codes "wine" ∷ [])

-- The recipe and the revision to pin, or the response that refuses them.
pub data Pin : Type 0 where
  pinned : Option ℕ → Option ℕ → Pin
  unpinned : ℕ → String → Pin

abbrev pub is_recipe : ℕ → Recipe → Bool
is_recipe id r = r.id == id

-- What a body asks for, once its labels have been cast.
unfoldable pub new_batch :
    World → ℕ → CreateBatchRequest → Option ℕ → Option ℕ → BatchStage → Visibility → Batch
unfolding or_default opt_text
new_batch w user req recipe revision stage visibility = record {
  id = w.new_batch_id;
  brewer_id = user;
  recipe_id = recipe;
  recipe_revision_id = revision;
  name = req.name;
  brew_type = or_default (codes "mead") req.brew_type;
  stage = stage;
  started_at = req.started_at;
  bottled_at = none;
  visibility = visibility;
  notes = opt_text req.notes;
  created_at = w.now;
  updated_at = w.now;
}

abbrev pub listed_key : Batch → SortKey
listed_key b = (coalesce b.started_at b.created_at, b.id)

abbrev pub brewed_by : ℕ → Batch → Bool
brewed_by user b = b.brewer_id == user

unfoldable pub bad_name : Option Bytes → Bool
unfolding is_empty
bad_name none = false
bad_name (some s) = is_empty s || ltb max_batch_name (length s)

unfoldable pub bad_notes : Option Bytes → Bool
bad_notes none = false
bad_notes (some s) = ltb max_notes_bytes (length s)

-- A cast of an optional text: absent, of no label, or a value.
unfoldable pub cast_label : {A : Type 0} → (Bytes → Option A) → Option Bytes → Option (Option A)
cast_label label none = some none
cast_label label (some s) = Option.map some (label s)

unfoldable pub update_params :
    ℕ → ℕ → UpdateBatchRequest → Option BatchStage → Option Visibility → UpdateBatchParams
update_params id user req stage visibility = record {
  id = id;
  brewer_id = user;
  name = req.name;
  stage = stage;
  notes = req.notes;
  started_at = req.started_at;
  bottled_at = req.bottled_at;
  visibility = visibility;
}

module _ (w : World) (down : Outage) where
  unfoldable pub pin_found : ℕ → Option Recipe → Pin
  pin_found user none = unpinned 422 "recipe not found"
  pin_found user (some r) =
      if is_private r.visibility && not (r.author_id == user)
      then unpinned 422 "recipe not found"
      else pinned (some r.id) r.current_revision_id

  unfoldable pub pin_recipe : ℕ → Option (Option ℕ) → List Recipe → Pin
  unfolding pin_found
  pin_recipe user none recipes = pinned none none
  pin_recipe user (some none) recipes = unpinned 400 "invalid recipe_id"
  pin_recipe user (some (some id)) recipes =
      if down get_recipe_query
      then unpinned 500 "create failed"
      else pin_found user (find (is_recipe id) recipes)

  -- The reminders of a batch that has started.
  unfoldable pub start_reminders : Batch → Option ℤ → Db → Db
  start_reminders batch none db = db
  start_reminders batch (some t) db = materialize_templates w down batch batch_start t db

  unfoldable pub store_batch : Batch → Db → Db × Reply Batch
  unfolding start_reminders
  store_batch batch db = (
    start_reminders batch batch.started_at (record db { batches = db.batches ++ batch ∷ [] }),
    done 201 batch,
  )

  unfoldable pub insert_batch :
      ℕ
      → CreateBatchRequest
      → Option ℕ
      → Option ℕ
      → Option BatchStage
      → Option Visibility
      → Db
      → Db × Reply Batch
  unfolding store_batch new_batch
  insert_batch user req recipe revision none visibility db =
      (db, refused 400 "invalid stage or visibility value")
  insert_batch user req recipe revision (some stage) none db =
      (db, refused 400 "invalid stage or visibility value")
  insert_batch user req recipe revision (some stage) (some visibility) db =
      store_batch (new_batch w user req recipe revision stage visibility) db

  unfoldable pub create_pinned : ℕ → CreateBatchRequest → Pin → Db → Db × Reply Batch
  unfolding insert_batch
  create_pinned user req (unpinned s m) db = (db, refused s m)
  create_pinned user req (pinned recipe revision) db =
      if down create_batch_query
      then (db, refused 500 "create failed")
      else insert_batch user req recipe revision
          (batch_stage_of (or_default (codes "planning") req.stage))
          (visibility_of (or_default (codes "public") req.visibility)) db

  unfoldable pub handle_create_batch : ℕ → Option CreateBatchRequest → Db → Db × Reply Batch
  unfolding create_pinned pin_recipe allowed_brew_type
  handle_create_batch user none db = (db, refused 400 "invalid json")
  handle_create_batch user (some req) db =
      if is_empty req.name || ltb max_batch_name (length req.name)
      then (db, refused 400 "name required (max 200 chars)")
      else if ltb max_notes_bytes (length req.notes)
      then (db, refused 400 "notes too long")
      else if not (allowed_brew_type (or_default (codes "mead") req.brew_type))
      then (db, refused 400 "brew_type must be one of: mead, cider, wine")
      else create_pinned user req (pin_recipe user req.recipe_id db.recipes) db

  unfoldable pub handle_get_batch : ℕ → Option ℕ → Db → Reply Batch
  handle_get_batch user none db = refused 400 "invalid id"
  handle_get_batch user (some id) db =
      if down get_batch_query
      then refused 500 "fetch failed"
      else elim (get_batch_for_user id user db.batches) [
        | none ↦ refused 404 "not found"
        | some batch ↦ done 200 batch
      ]

  -- The reminders of a batch whose start is part of the patch.
  unfoldable pub restart_reminders : Option ℤ → Batch → Db → Db
  unfolding start_reminders
  restart_reminders none batch db = db
  restart_reminders (some t) batch db = start_reminders batch batch.started_at db

  unfoldable pub updated : Option ℤ → List Batch → Option Batch → Db → Db × Reply Batch
  unfolding restart_reminders
  updated started batches none db = (record db { batches = batches }, refused 404 "not found")
  updated started batches (some batch) db =
      (restart_reminders started batch (record db { batches = batches }), done 200 batch)

  unfoldable pub rewrite_batch :
      ℕ
      → ℕ
      → UpdateBatchRequest
      → Option (Option BatchStage)
      → Option (Option Visibility)
      → Db
      → Db × Reply Batch
  unfolding updated update_params
  rewrite_batch id user req none visibility db =
      (db, refused 400 "invalid stage or visibility value")
  rewrite_batch id user req (some stage) none db =
      (db, refused 400 "invalid stage or visibility value")
  rewrite_batch id user req (some stage) (some visibility) db =
      let batches = update_batch w.now (update_params id user req stage visibility) db.batches in
      updated req.started_at batches (get_batch_for_user id user batches) db

  unfoldable pub handle_update_batch :
      ℕ → Option ℕ → Option UpdateBatchRequest → Db → Db × Reply Batch
  unfolding rewrite_batch cast_label bad_name bad_notes
  handle_update_batch user none body db = (db, refused 400 "invalid id")
  handle_update_batch user (some id) none db = (db, refused 400 "invalid json")
  handle_update_batch user (some id) (some req) db =
      if bad_name req.name
      then (db, refused 400 "invalid name")
      else if bad_notes req.notes
      then (db, refused 400 "notes too long")
      else if down update_batch_query
      then (db, refused 500 "update failed")
      else rewrite_batch id user req (cast_label batch_stage_of req.stage)
          (cast_label visibility_of req.visibility) db

  -- `DELETE FROM batches`, with the rows of the other tables that go with a batch.
  unfoldable pub without_batch : ℕ → ℕ → Db → Db
  without_batch id user db = record db {
    batches = select (λ b. not (is_batch id user b)) db.batches;
    events = select (λ (e : BatchEvent). not (e.batch_id == id)) db.events;
    reminders = select (λ (r : Reminder). not (is_id id r.batch_id)) db.reminders;
  }

  unfoldable pub handle_delete_batch : ℕ → Option ℕ → Db → Db × Reply (Unit {0})
  unfolding without_batch
  handle_delete_batch user none db = (db, refused 400 "invalid id")
  handle_delete_batch user (some id) db =
      if down delete_batch_query
      then (db, refused 500 "delete failed")
      else if any (is_batch id user) db.batches
      then (without_batch id user db, done 204 tt)
      else (db, refused 404 "not found")

-- `handleListBatches`, where its query does not fail.
unfoldable pub handle_list_batches : Encodings → ℕ → Bytes → Bytes → Db → ListReply Batch
unfolding handle_list
handle_list_batches e user limit_text cursor_text db =
    handle_list newest_first listed_key (encode e) (decode e) (select (brewed_by user) db.batches)
      limit_text cursor_text
