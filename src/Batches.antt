-- ===== src/Batches.antt =====
-- The batch rows (internal/queries/batches.sql.go) and what internal/server/batches.go derives from
-- an event: the reminders it anchors and the stage it moves the batch to.
pub mod Stage
pub mod Events
pub mod Handlers
pub mod Examples
use zymobrew.Base.{
  ℕ, ◌≡◌, Bool, true, false, ◌&&◌, List, [], ◌∷◌, Option, none, some, Bytes, find, update, leb,
  ◌==◌, if◌then◌else◌,
}
use zymobrew.Base.Int.{ℤ}
use zymobrew.Schema.{
  Batch, BatchStage, planning, primary, secondary, aging, bottled, archived, EventKind, pitch, rack,
  bottle, Visibility, ReminderAnchor, at_pitch, at_rack, at_bottle,
}
use zymobrew.Reminders.{coalesce, coalesce_null, MaterializeParams, materialize, reanchor}
use zymobrew.Store.{
  Db, World, Outage, get_batch_query, reanchor_query, materialize_query, update_batch_query,
}

abbrev pub is_batch : ℕ → ℕ → Batch → Bool
is_batch id brewer b = b.id == id && b.brewer_id == brewer

abbrev pub batch_id : Batch → ℕ
batch_id b = b.id

-- `GetBatchForUser`
unfoldable pub get_batch_for_user : ℕ → ℕ → List Batch → Option Batch
get_batch_for_user id brewer = find (is_batch id brewer)

pub record UpdateBatchParams : Type 0 where
  pub id : ℕ
  pub brewer_id : ℕ
  pub name : Option Bytes
  pub stage : Option BatchStage
  pub notes : Option Bytes
  pub started_at : Option ℤ
  pub bottled_at : Option ℤ
  pub visibility : Option Visibility

unfoldable pub patch_batch : ℤ → UpdateBatchParams → Batch → Batch
patch_batch now p b = record b {
  name = coalesce p.name b.name;
  stage = coalesce p.stage b.stage;
  notes = coalesce_null p.notes b.notes;
  started_at = coalesce_null p.started_at b.started_at;
  bottled_at = coalesce_null p.bottled_at b.bottled_at;
  visibility = coalesce p.visibility b.visibility;
  updated_at = now;
}

-- `UpdateBatch`: the table afterwards; the row that RETURNING gives is found by `get_batch_for_user`.
unfoldable pub update_batch : ℤ → UpdateBatchParams → List Batch → List Batch
update_batch now p = update (is_batch p.id p.brewer_id) (patch_batch now p)

unfoldable pub stage_rank : BatchStage → ℕ
stage_rank planning = 0
stage_rank primary = 1
stage_rank secondary = 2
stage_rank aging = 3
stage_rank bottled = 4
stage_rank archived = 5

unfoldable pub stage_for_event : EventKind → Option BatchStage
stage_for_event pitch = some primary
stage_for_event rack = some secondary
stage_for_event bottle = some bottled
stage_for_event _ = none

unfoldable pub anchor_for_kind : EventKind → Option ReminderAnchor
anchor_for_kind pitch = some at_pitch
anchor_for_kind rack = some at_rack
anchor_for_kind bottle = some at_bottle
anchor_for_kind _ = none

-- `BottledAt` is set only where the target is `bottled`.
abbrev pub bottled_stamp : BatchStage → ℤ → Option ℤ
bottled_stamp bottled t = some t
bottled_stamp _ t = none

unfoldable pub advance_params : Batch → BatchStage → ℤ → UpdateBatchParams
advance_params batch target occurred_at = record {
  id = batch.id;
  brewer_id = batch.brewer_id;
  name = none;
  stage = some target;
  notes = none;
  started_at = none;
  bottled_at = bottled_stamp target occurred_at;
  visibility = none;
}

abbrev pub template_params : Batch → ℕ → ReminderAnchor → ℤ → MaterializeParams
template_params batch recipe anchor anchor_time = record {
  batch_id = batch.id;
  user_id = batch.brewer_id;
  recipe_id = recipe;
  anchor = anchor;
  anchor_time = anchor_time;
}

module _ (w : World) (down : Outage) where
  -- The update of `maybeAdvanceStage`, which ignores its error.
  unfoldable pub advance_to : Batch → BatchStage → ℤ → Db → Db
  unfolding stage_rank advance_params
  advance_to batch target occurred_at db =
      if leb (stage_rank target) (stage_rank batch.stage)
      then db
      else if down update_batch_query
      then db
      else record db {
        batches = update_batch w.now (advance_params batch target occurred_at) db.batches;
      }

  unfoldable pub maybe_advance_stage : Batch → EventKind → ℤ → Db → Db
  unfolding stage_for_event
  maybe_advance_stage batch kind occurred_at db = elim (stage_for_event kind) [
    | none ↦ db
    | some target ↦ advance_to batch target occurred_at db
  ]

  unfoldable pub run_reanchor : MaterializeParams → Db → Db
  run_reanchor p db =
      if down reanchor_query
      then db
      else record db { reminders = reanchor p db.templates db.reminders }

  unfoldable pub run_materialize : MaterializeParams → Db → Db
  run_materialize p db =
      if down materialize_query
      then db
      else record db { reminders = materialize w.new_reminder_id w.now p db.templates db.reminders }

  -- `materializeTemplates`: two writes of their own, whose errors are ignored.
  unfoldable pub materialize_templates : Batch → ReminderAnchor → ℤ → Db → Db
  unfolding run_reanchor run_materialize
  materialize_templates batch anchor anchor_time db = elim batch.recipe_id [
    | none ↦ db
    | some recipe ↦
        let p = template_params batch recipe anchor anchor_time in
        run_materialize p (run_reanchor p db)
  ]
