-- ===== src/Reminders/Handlers.antt =====
-- The reminder handlers of internal/server/reminders.go.
pub mod Laws
pub mod Silent
mod Examples
use Prim.Native.String.{String}
use zymobrew.Base.{
  ℕ, ◌*◌, Bool, true, false, ◌&&◌, not, List, [], ◌∷◌, ◌++◌, Option, none, some, Bytes, codes,
  length, select, is_empty, ltb, ◌==◌, if◌then◌else◌,
}
use zymobrew.Base.Int.{ℤ}
use zymobrew.Page.Order.{oldest_first}
use zymobrew.Page.Listing.{sort_rows}
use zymobrew.Schema.{
  Reminder, ReminderStatus, scheduled, completed, snoozed, dismissed, EventKind, Batch, is_id,
}
use zymobrew.Schema.Labels.{label_value, event_kind_of}
use zymobrew.Store.{
  Db, Reply, done, refused, World, Outage, get_batch_query, create_reminder_query,
  list_reminders_query, update_reminder_query, cancel_reminder_query,
}
use zymobrew.Reminders.{UpdateReminderParams, update_reminder, cancel_reminder, due_key}
use zymobrew.Batches.{get_batch_for_user}
use zymobrew.Batches.Events.{opt_text}
use zymobrew.Batches.Handlers.{cast_label}

abbrev pub max_reminder_title : ℕ
max_reminder_title = 200

abbrev pub max_reminder_desc : ℕ
max_reminder_desc = 2 * 1024

-- The decoded bodies of the two handlers.
pub record CreateReminderRequest : Type 0 where
  pub title : Bytes
  pub description : Bytes
  pub fire_at : Bytes
  pub suggested_event_kind : Option Bytes

pub record UpdateReminderRequest : Type 0 where
  pub title : Option Bytes
  pub description : Option Bytes
  pub fire_at : Option Bytes
  pub status : Option Bytes
  pub suggested_event_kind : Option Bytes

-- The statuses that a user may set.
unfoldable pub allowed_status : Bytes → Option ReminderStatus
unfolding label_value
allowed_status = label_value (
    (codes "scheduled", scheduled)
    ∷ (codes "snoozed", snoozed)
    ∷ (codes "completed", completed)
    ∷ (codes "dismissed", dismissed)
    ∷ [])

abbrev pub longer_than : ℕ → Option Bytes → Bool
longer_than n none = false
longer_than n (some s) = ltb n (length s)

-- The checks on a body that come before its time is parsed.
unfoldable pub create_fault : CreateReminderRequest → Option String
create_fault req =
    if is_empty req.title
    then some "title is required"
    else if ltb max_reminder_title (length req.title)
    then some "title too long"
    else if ltb max_reminder_desc (length req.description)
    then some "description too long"
    else if is_empty req.fire_at
    then some "fire_at is required"
    else none

module _ (w : World) (down : Outage) where
  -- `CreateReminder`: the columns that it leaves out take their defaults.
  unfoldable pub created_reminder : ℕ → ℕ → CreateReminderRequest → ℤ → Option EventKind → Reminder
  unfolding opt_text
  created_reminder user batch req fire_at kind = record {
    id = w.created_reminder_id;
    batch_id = some batch;
    user_id = user;
    template_id = none;
    title = req.title;
    description = opt_text req.description;
    fire_at = fire_at;
    status = scheduled;
    rrule = none;
    fired_at = none;
    completed_at = none;
    suggested_event_kind = kind;
    created_at = w.now;
  }

  unfoldable pub store_reminder : Reminder → Db → Db × Reply Reminder
  store_reminder r db = (record db { reminders = db.reminders ++ r ∷ [] }, done 201 r)

  -- A kind that is no label fails in the query.
  unfoldable pub insert_reminder :
      ℕ → ℕ → CreateReminderRequest → ℤ → Option (Option EventKind) → Db → Db × Reply Reminder
  unfolding store_reminder created_reminder
  insert_reminder user batch req fire_at none db = (db, refused 500 "internal error")
  insert_reminder user batch req fire_at (some kind) db =
      store_reminder (created_reminder user batch req fire_at kind) db

  unfoldable pub create_for :
      ℕ → ℕ → CreateReminderRequest → ℤ → Option Batch → Db → Db × Reply Reminder
  unfolding insert_reminder cast_label
  create_for user id req fire_at none db = (db, refused 404 "not found")
  create_for user id req fire_at (some batch) db =
      if down create_reminder_query
      then (db, refused 500 "internal error")
      else insert_reminder user id req fire_at (cast_label event_kind_of req.suggested_event_kind)
          db

  unfoldable pub create_at : ℕ → ℕ → CreateReminderRequest → Option ℤ → Db → Db × Reply Reminder
  unfolding create_for
  create_at user id req none db = (db, refused 422 "fire_at must be RFC3339")
  create_at user id req (some fire_at) db =
      if down get_batch_query
      then (db, refused 500 "internal error")
      else create_for user id req fire_at (get_batch_for_user id user db.batches) db

  unfoldable pub create_checked :
      ℕ → ℕ → CreateReminderRequest → Option String → Db → Db × Reply Reminder
  unfolding create_at
  create_checked user id req (some fault) db = (db, refused 422 fault)
  create_checked user id req none db = create_at user id req (w.parse_rfc3339 req.fire_at) db

  unfoldable pub handle_create_reminder :
      ℕ → Option ℕ → Option CreateReminderRequest → Db → Db × Reply Reminder
  unfolding create_checked create_fault
  handle_create_reminder user none body db = (db, refused 400 "invalid batch id")
  handle_create_reminder user (some id) none db = (db, refused 400 "invalid json")
  handle_create_reminder user (some id) (some req) db =
      create_checked user id req (create_fault req) db

  -- `ListBatchReminders`; of two reminders at one instant, where the query leaves the order open, the
  -- lower id comes first.
  unfoldable pub handle_list_reminders : ℕ → Option ℕ → Db → Reply (List Reminder)
  unfolding sort_rows
  handle_list_reminders user none db = refused 400 "invalid batch id"
  handle_list_reminders user (some id) db =
      if down get_batch_query
      then refused 500 "internal error"
      else elim (get_batch_for_user id user db.batches) [
        | none ↦ refused 404 "not found"
        | some batch ↦
            if down list_reminders_query
            then refused 500 "internal error"
            else done 200 (
                sort_rows oldest_first due_key (
                  select (λ (r : Reminder). is_id id r.batch_id && r.user_id == user) db.reminders))
      ]

  unfoldable pub patched : List Reminder → Option Reminder → Db → Db × Reply Reminder
  patched rs none db = (record db { reminders = rs }, refused 404 "not found")
  patched rs (some r) db = (record db { reminders = rs }, done 200 r)

  unfoldable pub reminder_params :
      ℕ
      → ℕ
      → UpdateReminderRequest
      → Option ℤ
      → Option ReminderStatus
      → Option EventKind
      → UpdateReminderParams
  reminder_params id user req fire_at status kind = record {
    id = id;
    user_id = user;
    title = req.title;
    description = req.description;
    fire_at = fire_at;
    status = status;
    suggested_event_kind = kind;
  }

  unfoldable pub rewrite_reminder :
      ℕ
      → ℕ
      → UpdateReminderRequest
      → Option ℤ
      → Option ReminderStatus
      → Option (Option EventKind)
      → Db
      → Db × Reply Reminder
  unfolding patched reminder_params
  rewrite_reminder id user req fire_at status none db = (db, refused 500 "internal error")
  rewrite_reminder id user req fire_at status (some kind) db =
      let (rs, r) =
        update_reminder (reminder_params id user req fire_at status kind) db.reminders in
      patched rs r db

  unfoldable pub update_status :
      ℕ
      → ℕ
      → UpdateReminderRequest
      → Option ℤ
      → Option (Option ReminderStatus)
      → Db
      → Db × Reply Reminder
  unfolding rewrite_reminder cast_label
  update_status id user req fire_at none db = (db, refused 422 "invalid status")
  update_status id user req fire_at (some status) db =
      if down update_reminder_query
      then (db, refused 500 "internal error")
      else rewrite_reminder id user req fire_at status
          (cast_label event_kind_of req.suggested_event_kind) db

  unfoldable pub update_time :
      ℕ → ℕ → UpdateReminderRequest → Option (Option ℤ) → Db → Db × Reply Reminder
  unfolding update_status allowed_status cast_label
  update_time id user req none db = (db, refused 422 "fire_at must be RFC3339")
  update_time id user req (some fire_at) db =
      update_status id user req fire_at (cast_label allowed_status req.status) db

  unfoldable pub handle_update_reminder :
      ℕ → Option ℕ → Option UpdateReminderRequest → Db → Db × Reply Reminder
  unfolding update_time cast_label
  handle_update_reminder user none body db = (db, refused 400 "invalid reminder id")
  handle_update_reminder user (some id) none db = (db, refused 400 "invalid json")
  handle_update_reminder user (some id) (some req) db =
      if longer_than max_reminder_title req.title
      then (db, refused 422 "title too long")
      else if longer_than max_reminder_desc req.description
      then (db, refused 422 "description too long")
      else update_time id user req (cast_label w.parse_rfc3339 req.fire_at) db

  unfoldable pub handle_delete_reminder : ℕ → Option ℕ → Db → Db × Reply (Unit {0})
  unfolding cancel_reminder
  handle_delete_reminder user none db = (db, refused 400 "invalid reminder id")
  handle_delete_reminder user (some id) db =
      let (rs, hit) = cancel_reminder id user db.reminders in
      if down cancel_reminder_query
      then (db, refused 500 "internal error")
      else if hit
      then (record db { reminders = rs }, done 204 tt)
      else (db, refused 404 "not found")
