-- ===== src/Notify.antt =====
-- What the notification preferences hold (internal/queries/models.go), for the preferences of
-- internal/server/reminders.go and the dispatcher of internal/jobs/reminder_dispatcher.go.
pub mod Quiet
pub mod Prefs
pub mod Dispatch
mod Examples
use zymobrew.Base.{ℕ, Bool, Bytes, Option}

-- A TIME column is its microseconds since midnight.
pub record NotificationPref : Type 0 where
  pub user_id : ℕ
  pub push_enabled : Bool
  pub apprise_enabled : Bool
  pub quiet_hours_start : Option ℕ
  pub quiet_hours_end : Option ℕ
  pub apprise_url : Option Bytes
  pub email_enabled : Bool

pub record PushDevice : Type 0 where
  pub user_id : ℕ
  pub token : Bytes
  pub p256dh : Option Bytes
  pub auth : Option Bytes
