-- ===== src/Batches/Examples.antt =====
-- The event handlers on a batch that a recipe's templates accompany.
use zymobrew.Base.{
  ◌≡◌, refl, true, false, [], ◌∷◌, ◌++◌, none, some, map, codes, ◌+◌, is_empty, arith, HasKey,
  Pointwise,
}
use zymobrew.Base.Int.{pos}
use zymobrew.Schema.{Batch, Template, pitch, planning, primary, private, at_pitch}
use zymobrew.Schema.Labels.{event_kind_of}
use zymobrew.Store.{Db, World, Outage, done}
use zymobrew.Reminders.Materialize.{template_id}
use zymobrew.Batches.{
  batch_id, get_batch_for_user, template_params, maybe_advance_stage, advance_to, update_batch,
  anchor_for_kind, materialize_templates, patch_batch,
}
use zymobrew.Batches.Stage.{Forward}
use zymobrew.Batches.Events.{
  CreateEventRequest, UpdateEventRequest, new_event, handle_create_batch_event,
  handle_update_batch_event, handle_delete_batch_event, store_event, bad_details, anchor_reminders,
}
use zymobrew.Batches.Events.Laws.{ErrorKeeps}
use zymobrew.Batches.Events.Outcomes.{error_keeps, events-Forward, Settled, event_settles}

abbrev pub mead : Batch
mead = record {
  id = 7;
  brewer_id = 3;
  recipe_id = some 8;
  recipe_revision_id = none;
  name = codes "mead";
  brew_type = codes "mead";
  stage = planning;
  started_at = none;
  bottled_at = none;
  visibility = private;
  notes = none;
  created_at = pos 0;
  updated_at = pos 0;
}

abbrev pub taste : Template
taste = record {
  id = 71;
  recipe_id = 8;
  title = codes "taste";
  description = none;
  anchor = at_pitch;
  offset_minutes = pos 9;
  suggested_event_kind = none;
  sort_order = pos 1;
}

abbrev pub before : Db
before = record {
  batches = mead ∷ [];
  events = [];
  recipes = [];
  templates = taste ∷ [];
  reminders = [];
  revisions = [];
  ingredients = [];
  comments = [];
  likes = [];
}

abbrev pub here : World
here = record {
  now = pos 50;
  new_event_id = 11;
  new_batch_id = 12;
  new_reminder_id = λ t. 13;
  created_reminder_id = 14;
  json_valid = λ s. true;
  parse_rfc3339 = λ s. some (pos 60);
  new_recipe_id = 21;
  new_revision_id = 22;
  new_ingredient_id = λ n. 30 + n;
  new_comment_id = 23;
  itoa = λ n. "0";
  parse_int32 = λ s. some (pos 1);
  format_time = λ t. [];
  marshal_ingredients = λ l. codes "[]";
  numeric_of = some;
  float_of = some;
  round_to = λ c n. some n;
  to_jsonb = some;
}

abbrev pub healthy : Outage
healthy q = false

abbrev pub pitched : CreateEventRequest
pitched = record {
  occurred_at = some (pos 40);
  kind = codes "pitch";
  title = [];
  description = [];
  details = [];
}

abbrev pub renamed : UpdateEventRequest
renamed = record {
  occurred_at = none;
  kind = none;
  title = some (codes "t");
  description = none;
  details = none;
}

pub before-HasKey : HasKey batch_id before.batches
before-HasKey = ground arith

pub templates-HasKey : HasKey template_id before.templates
templates-HasKey = ground arith

error_keeps_example :
    ErrorKeeps before (handle_create_batch_event here healthy 4 (some 7) (some pitched) before)
    × ErrorKeeps before
        (handle_update_batch_event here healthy 4 (some 7) (some 1) (some renamed) before)
    × ErrorKeeps before (handle_delete_batch_event here healthy 4 (some 7) (some 1) before)
error_keeps_example =
    error_keeps here healthy 4 before (some 7) (some 1) (some pitched) (some renamed)

events-Forward_example :
    Pointwise Forward before.batches
      (handle_create_batch_event here healthy 3 (some 7) (some pitched) before).0.batches
    × Pointwise Forward before.batches
        (handle_update_batch_event here healthy 3 (some 7) (some 1) (some renamed) before).0.batches
events-Forward_example =
    events-Forward here healthy 3 before before-HasKey (some 7) (some 1) (some pitched)
      (some renamed)

owned : get_batch_for_user 7 3 before.batches ≡ some mead
unfolding get_batch_for_user
owned = refl

answered :
    (handle_create_batch_event here healthy 3 (some 7) (some pitched) before).1
    ≡ done 201 (new_event here 7 pitched pitch)
unfolding handle_create_batch_event get_batch_for_user event_kind_of store_event bad_details
    is_empty
answered = refl

moved_on :
    map
      (λ (b : Batch). b.stage)
      (handle_create_batch_event here healthy 3 (some 7) (some pitched) before).0.batches
    ≡ primary ∷ []
unfolding handle_create_batch_event get_batch_for_user is_empty event_kind_of maybe_advance_stage
    new_event advance_to update_batch anchor_reminders anchor_for_kind materialize_templates
    patch_batch
moved_on = refl

anchored : anchor_for_kind (new_event here 7 pitched pitch).kind ≡ some at_pitch
unfolding anchor_for_kind new_event
anchored = refl

event_settles_example :
    let after = (handle_create_batch_event here healthy 3 (some 7) (some pitched) before).0 in
    Settled here healthy 3 before
      (template_params mead 8 at_pitch (new_event here 7 pitched pitch).occurred_at)
      after
    × (after.events ≡ before.events ++ new_event here 7 pitched pitch ∷ [])
event_settles_example =
    event_settles here healthy 3 before templates-HasKey refl refl 7 (some pitched) mead
      (new_event here 7 pitched pitch) 8 at_pitch owned refl anchored answered
