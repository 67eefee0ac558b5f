-- ===== src/Reminders/Handlers/Examples.antt =====
-- The reminder handlers on a small database.
use zymobrew.Base.{◌≡◌, refl, inr, List, [], ◌∷◌, none, some, codes, Exists, Pointwise, HasKey}
use zymobrew.Base.Int.{pos}
use zymobrew.Schema.{Reminder, dismissed}
use zymobrew.Store.{Db, done}
use zymobrew.Reminders.{reminder_id, update_reminder}
use zymobrew.Reminders.Examples.{rows, rows-HasKey, nothing_locked, row}
use zymobrew.Batches.Examples.{before, here, healthy}
use zymobrew.Batches.Events.Laws.{ErrorKeeps}
use zymobrew.Reminders.Handlers.{
  CreateReminderRequest, UpdateReminderRequest, handle_create_reminder, handle_update_reminder,
  handle_delete_reminder,
}
use zymobrew.Reminders.Handlers.Laws.{reminder-ErrorKeeps, reminders_kept, ForeignKept}
use zymobrew.Reminders.Handlers.Silent.{
  ClaimStep, run_claims, FiredOnce, claims_fire_once, closed_silent,
}

abbrev reminded : Db
reminded = record before { reminders = rows }

abbrev wanted : CreateReminderRequest
wanted = record {
  title = codes "taste";
  description = [];
  fire_at = codes "t";
  suggested_event_kind = none;
}

abbrev dismissal : UpdateReminderRequest
dismissal = record {
  title = none;
  description = none;
  fire_at = some (codes "t");
  status = some (codes "dismissed");
  suggested_event_kind = none;
}

reminder-ErrorKeeps_example :
    ErrorKeeps reminded (handle_create_reminder here healthy 4 (some 7) (some wanted) reminded)
    × ErrorKeeps reminded (handle_update_reminder here healthy 4 (some 1) (some dismissal) reminded)
    × ErrorKeeps reminded (handle_delete_reminder here healthy 4 (some 1) reminded)
reminder-ErrorKeeps_example =
    reminder-ErrorKeeps here healthy 4 reminded (some 1) (some 7) (some wanted) (some dismissal)

reminders_kept_example :
    ForeignKept here healthy 3 reminded
      (handle_create_reminder here healthy 3 (some 7) (some wanted) reminded)
    × ForeignKept here healthy 3 reminded
        (handle_update_reminder here healthy 3 (some 1) (some dismissal) reminded)
    × ForeignKept here healthy 3 reminded (handle_delete_reminder here healthy 3 (some 1) reminded)
reminders_kept_example =
    reminders_kept here healthy 3 reminded (some 1) (some 7) (some wanted) (some dismissal)

abbrev first_claims : List ClaimStep
first_claims =
    record { locked = nothing_locked; limit = 2; now = pos 50 }
    ∷ record { locked = nothing_locked; limit = 9; now = pos 1000 }
    ∷ []

claims_fire_once_example : Pointwise FiredOnce rows (run_claims first_claims rows)
claims_fire_once_example = claims_fire_once first_claims rows rows-HasKey

abbrev waved : Reminder
waved = row 1 dismissed (pos 60)

answered :
    (handle_update_reminder here healthy 3 (some 1) (some dismissal) reminded).1 ≡ done 200 waved
unfolding handle_update_reminder update_reminder
answered = refl

after-HasKey :
    HasKey reminder_id
      (handle_update_reminder here healthy 3 (some 1) (some dismissal) reminded).0.reminders
unfolding handle_update_reminder update_reminder
after-HasKey = rows-HasKey

closed_silent_example :
    Exists
      (λ x. x ≡ waved)
      (run_claims first_claims
        (handle_update_reminder here healthy 3 (some 1) (some dismissal) reminded).0.reminders)
closed_silent_example =
    closed_silent here healthy 3 reminded (some 1) (some dismissal) waved first_claims answered
      (inr refl) after-HasKey
