-- ===== src/Reminders.antt =====
-- The reminder queries of internal/queries/reminders.sql.go and reminder_templates.sql.go, as
-- functions on the table's rows.
pub mod Claim
pub mod Materialize
pub mod Idempotent
pub mod Handlers
pub mod Examples
use zymobrew.Base.{
  ℕ, ◌≡◌, Bool, true, false, ◌&&◌, ◌||◌, not, List, [], ◌∷◌, ◌++◌, Option, none, some, map, Bytes,
  take, select, any, find, update, ◌==◌, if◌then◌else◌,
}
use zymobrew.Base.Int.{ℤ, pos, ◌+ℤ◌, ◌*ℤ◌, leb_ℤ}
use zymobrew.Page.Order.{SortKey, oldest_first}
use zymobrew.Page.Listing.{sort_rows}
use zymobrew.Schema.{
  Reminder, Template, ReminderStatus, scheduled, fired, completed, snoozed, dismissed, cancelled,
  ReminderAnchor, EventKind, same_anchor, is_id,
}

abbrev pub is_scheduled : ReminderStatus → Bool
is_scheduled scheduled = true
is_scheduled _ = false

-- `status NOT IN ('cancelled', 'dismissed')`
abbrev pub is_live : ReminderStatus → Bool
is_live cancelled = false
is_live dismissed = false
is_live _ = true

-- `status NOT IN ('fired', 'completed')`
abbrev pub is_open : ReminderStatus → Bool
is_open fired = false
is_open completed = false
is_open _ = true

-- `COALESCE(new, old)`
abbrev pub coalesce {ℓ} : {A : Type ℓ} → Option A → A → A
coalesce none old = old
coalesce (some new) old = new

abbrev pub coalesce_null {ℓ} : {A : Type ℓ} → Option A → Option A → Option A
coalesce_null none old = old
coalesce_null (some new) old = some new

pub record UpdateReminderParams : Type 0 where
  pub id : ℕ
  pub user_id : ℕ
  pub title : Option Bytes
  pub description : Option Bytes
  pub fire_at : Option ℤ
  pub status : Option ReminderStatus
  pub suggested_event_kind : Option EventKind

abbrev pub owned_by : ℕ → ℕ → Reminder → Bool
owned_by id user r = r.id == id && r.user_id == user

-- `UpdateReminder`: the table afterwards and the row that RETURNING gives, if one was found.
unfoldable pub patch_reminder : UpdateReminderParams → Reminder → Reminder
patch_reminder p r = record r {
  title = coalesce p.title r.title;
  description = coalesce_null p.description r.description;
  fire_at = coalesce p.fire_at r.fire_at;
  status = coalesce p.status r.status;
  suggested_event_kind = coalesce_null p.suggested_event_kind r.suggested_event_kind;
}

unfoldable pub update_reminder :
    UpdateReminderParams → List Reminder → List Reminder × Option Reminder
unfolding patch_reminder
update_reminder p rs =
    let rs' = update (owned_by p.id p.user_id) (patch_reminder p) rs in
    (rs', find (owned_by p.id p.user_id) rs')

-- `CancelReminder`: the table afterwards and whether a row was affected.
unfoldable pub cancel_reminder : ℕ → ℕ → List Reminder → List Reminder × Bool
cancel_reminder id user rs =
    let hit = λ (r : Reminder). owned_by id user r && is_open r.status in
    (update hit (λ r. record r { status = cancelled }) rs, any hit rs)

-- `status = 'scheduled' AND fire_at <= now()`
abbrev pub is_due : ℤ → Reminder → Bool
is_due now r = is_scheduled r.status && leb_ℤ r.fire_at now

abbrev pub due_key : Reminder → SortKey
due_key r = (r.fire_at, r.id)

abbrev pub reminder_id : Reminder → ℕ
reminder_id r = r.id

abbrev pub has_id : List ℕ → ℕ → Bool
has_id ids i = any (λ j. j == i) ids

-- The inner SELECT of `ClaimDueReminders`. Rows that another worker has locked are skipped; of two
-- rows due at one instant, where the query leaves the order open, the lower id comes first.
unfoldable pub due_ids : (ℕ → Bool) → ℕ → ℤ → List Reminder → List ℕ
due_ids locked limit now rs = map reminder_id (
    take limit
      (sort_rows oldest_first due_key (select (λ r. is_due now r && not (locked r.id)) rs)))

abbrev pub fire : ℤ → Reminder → Reminder
fire now r = record r { status = fired; fired_at = some now }

-- `ClaimDueReminders`: the table afterwards and the claimed rows.
unfoldable pub claim_due : (ℕ → Bool) → ℕ → ℤ → List Reminder → List Reminder × List Reminder
claim_due locked limit now rs =
    let ids = due_ids locked limit now rs in
    let rs' = update (λ r. has_id ids r.id) (fire now) rs in
    (rs', select (λ r. has_id ids r.id) rs')

pub record MaterializeParams : Type 0 where
  pub batch_id : ℕ
  pub user_id : ℕ
  pub recipe_id : ℕ
  pub anchor : ReminderAnchor
  pub anchor_time : ℤ

-- `anchor_time + offset_minutes * INTERVAL '1 minute'`
unfoldable pub due_at : MaterializeParams → Template → ℤ
due_at p t = p.anchor_time +ℤ t.offset_minutes *ℤ pos 60000000

abbrev pub applies : MaterializeParams → Template → Bool
applies p t = t.recipe_id == p.recipe_id && same_anchor t.anchor p.anchor

-- A reminder of this batch that came from this template and was neither cancelled nor dismissed.
abbrev pub stands_for : ℕ → ℕ → Reminder → Bool
stands_for batch template r =
    is_id template r.template_id && is_id batch r.batch_id && is_live r.status

-- The new row's id and creation time are the database's.
unfoldable pub new_reminder : (ℕ → ℕ) → ℤ → MaterializeParams → Template → Reminder
new_reminder new_id now p t = record {
  id = new_id t.id;
  batch_id = some p.batch_id;
  user_id = p.user_id;
  template_id = some t.id;
  title = t.title;
  description = t.description;
  fire_at = due_at p t;
  status = scheduled;
  rrule = none;
  fired_at = none;
  completed_at = none;
  suggested_event_kind = t.suggested_event_kind;
  created_at = now;
}

abbrev pub is_missing : MaterializeParams → List Reminder → Template → Bool
is_missing p rs t = applies p t && not (any (stands_for p.batch_id t.id) rs)

-- `MaterializeReminderTemplates`
unfoldable pub materialize :
    (ℕ → ℕ) → ℤ → MaterializeParams → List Template → List Reminder → List Reminder
materialize new_id now p ts rs = rs ++ map (new_reminder new_id now p) (select (is_missing p rs) ts)

-- The template that an UPDATE … FROM joins to a reminder, if the query moves that reminder.
unfoldable pub joined : MaterializeParams → List Template → Reminder → Option Template
joined p ts r =
    if is_id p.batch_id r.batch_id && is_scheduled r.status
    then find (λ t. applies p t && is_id t.id r.template_id) ts
    else none

unfoldable pub reanchor_row : MaterializeParams → List Template → Reminder → Reminder
reanchor_row p ts r = elim (joined p ts r) [ none ↦ r | some t ↦ record r { fire_at = due_at p t } ]

-- `ReanchorReminders`
unfoldable pub reanchor : MaterializeParams → List Template → List Reminder → List Reminder
reanchor p ts = map (reanchor_row p ts)
