-- ===== src/Notify/Dispatch/Consent.antt =====
-- What a tick of internal/jobs/reminder_dispatcher.go sends, and to whom.
use zymobrew.Base.{ℕ, ◌≡◌, true, false, List, some, ◌⊎◌}
use zymobrew.Notify.{NotificationPref, PushDevice}
use zymobrew.Notify.Quiet.{is_in_quiet_hours}
use zymobrew.Notify.Dispatch.{
  Worker, Outside, Action, create_notification, send_apprise, send_email, send_push,
  delete_push_device, user_timezone, has_keys, no_row, row,
}

module _ (w : Worker) (o : Outside) (start : List PushDevice) where
  -- The user has saved preferences that hold, and by them it is not in quiet hours, read in its saved
  -- time zone, or in UTC where none is answered.
  abbrev pub HasSaved : ℕ → (NotificationPref → Type 0) → Type 0
  HasSaved u Holds =
      (p : NotificationPref) × (o.get_notification_prefs u ≡ row p)
      × Holds p
      × (is_in_quiet_hours p (o.local_clock (user_timezone w o u)) ≡ false)

  -- What a tick may do: create a notification in the program, drop a device, or send a message that
  -- the saved preferences of its user enable; without saved ones, a push message, which is the default.
  abbrev pub IsConsented : Action → Type 0
  IsConsented (create_notification u r t d p) = Unit
  IsConsented (send_apprise u url t b) =
      HasSaved u (λ p. (p.apprise_enabled ≡ true) × (p.apprise_url ≡ some url))
      × (o.validate url ≡ true)
  IsConsented (send_email u addr t b) =
      HasSaved u (λ p. p.email_enabled ≡ true) × (o.get_email u ≡ some addr)
  IsConsented (send_push u dev t b p) =
      (HasSaved u (λ p. p.push_enabled ≡ true) ⊎ (o.get_notification_prefs u ≡ no_row))
      × (has_keys dev.p256dh dev.auth ≡ true)
  IsConsented (delete_push_device u token) = Unit
