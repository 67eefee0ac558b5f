-- ===== src/Notify/Examples.antt =====
-- A tick of the dispatcher, and quiet hours, at concrete inputs.
use zymobrew.Base.{
  bytes_eq, ℕ, ◌<◌, ◌≡◌, refl, true, false, ◌&&◌, List, [], ◌∷◌, Option, none, some, Bytes, codes,
  arith, select, ltb, if◌then◌else◌,
}
use zymobrew.Base.Int.{pos}
use zymobrew.Schema.{Reminder}
use zymobrew.Reminders.{claim_due}
use zymobrew.Reminders.Examples.{rows, nothing_locked}
use zymobrew.Notify.{NotificationPref, PushDevice}
use zymobrew.Notify.Quiet.{
  Clock, IsClock, clock_micros, parse_hhmm, shown_time, quiet_hours_back, is_in_quiet_hours, after,
  quiet_hours_cyclic, day,
}
use zymobrew.Notify.Dispatch.{
  Worker, Outside, row, no_caches, deliver_all, work, reminder_claim_batch,
}
use zymobrew.Notify.Dispatch.Refine.{plain_all, deliver_all_uncached}
use zymobrew.Notify.Dispatch.Stored.{is_notification, stored_notifications, work_notifies}
use zymobrew.Network.Apprise.{Refusal, blocked_host}
use zymobrew.Notify.Prefs.{UpdatePrefsRequest, handle_update_prefs}
use zymobrew.Notify.Prefs.Laws.{Kept, update_prefs-Kept}

-- A clock whose text is the hour and the minute as two bytes.
toy_parse : Bytes → Option (ℕ × ℕ)
toy_parse (h ∷ m ∷ []) = if ltb h 24 && ltb m 60 then some (h, m) else none
toy_parse _ = none

toy_format : ℕ × ℕ → Bytes
toy_format t = t.0 ∷ t.1 ∷ []

abbrev toy_clock : Clock
toy_clock = record { parse_clock = toy_parse; format_clock = toy_format }

toy_in_day : (s : Bytes) (t : ℕ × ℕ) → toy_parse s ≡ some t → (t.0 < 24) × (t.1 < 60)
unfolding toy_parse
toy_in_day [] t h = cc
toy_in_day (a ∷ []) t h = cc
toy_in_day (a ∷ b ∷ []) t h = ground arith
toy_in_day (a ∷ b ∷ c ∷ s) t h = cc

toy_printed : (t : ℕ × ℕ) → t.0 < 24 → t.1 < 60 → toy_parse (toy_format t) ≡ some t
unfolding toy_parse toy_format
toy_printed t h m = ground arith

toy_clock-IsClock : IsClock toy_clock
toy_clock-IsClock = record { in_day = toy_in_day; printed = toy_printed }

ten_thirty : parse_hhmm toy_clock (10 ∷ 30 ∷ []) ≡ some 37800000000
unfolding parse_hhmm toy_parse
ten_thirty = refl

quiet_hours_back_example :
    (parse_hhmm toy_clock (shown_time toy_clock 37800000000) ≡ some 37800000000)
    × (37800000000 < day)
quiet_hours_back_example =
    quiet_hours_back toy_clock toy_clock-IsClock (10 ∷ 30 ∷ []) 37800000000 ten_thirty

-- From ten in the evening to six.
abbrev night : NotificationPref
night = record {
  user_id = 3;
  push_enabled = true;
  apprise_enabled = false;
  quiet_hours_start = some 79200000000;
  quiet_hours_end = some 21600000000;
  apprise_url = none;
  email_enabled = true;
}

quiet_hours_cyclic_example :
    is_in_quiet_hours night (some (23, 15))
    ≡ ltb (after 79200000000 (clock_micros (23, 15))) (after 79200000000 21600000000)
quiet_hours_cyclic_example =
    quiet_hours_cyclic night (23, 15) 79200000000 21600000000 refl refl (omega arith) (omega arith)
      (omega arith) (omega arith)

quiet_at_night :
    (is_in_quiet_hours night (some (23, 15)) ≡ true)
    × (is_in_quiet_hours night (some (12, 0)) ≡ false)
unfolding is_in_quiet_hours
quiet_at_night = (refl, refl)

abbrev phone : PushDevice
phone = record {
  user_id = 3;
  token = codes "tok";
  p256dh = some (codes "k");
  auth = some (codes "a");
}

abbrev worker : Worker
worker = record {
  vapid_pub = codes "p";
  vapid_priv = codes "q";
  apprise_api_url = [];
  smtp_host = codes "h";
  smtp_from = codes "f";
}

abbrev noon : Outside
noon = record {
  get_notification_prefs = λ u. row night;
  get_timezone = λ u. none;
  get_email = λ u. some (codes "u");
  create_fails = λ i. false;
  list_fails = λ u. false;
  delete_fails = λ u token. false;
  local_clock = λ tz. some (12, 0);
  validate = λ url. true;
  id_string = λ i. i ∷ [];
  push_status = λ dev. some 410;
}

deliver_all_uncached_example :
    deliver_all worker noon rows (no_caches (phone ∷ [])) ≡ plain_all worker noon (phone ∷ []) rows
deliver_all_uncached_example = deliver_all_uncached worker noon (phone ∷ []) rows

abbrev ticked : List Reminder × List Reminder
ticked = claim_due nothing_locked reminder_claim_batch (pos 50) rows

tick :
    work worker noon false nothing_locked (pos 50) (phone ∷ []) rows
    ≡ some (ticked.0, deliver_all worker noon ticked.1 (no_caches (phone ∷ [])))
unfolding work
tick = refl

work_notifies_example :
    select is_notification (deliver_all worker noon ticked.1 (no_caches (phone ∷ [])))
    ≡ stored_notifications worker noon (phone ∷ []) ticked.1
work_notifies_example =
    work_notifies worker noon (phone ∷ []) nothing_locked (pos 50) rows ticked.0
      (deliver_all worker noon ticked.1 (no_caches (phone ∷ []))) tick

-- A policy that refuses one URL.
toy_policy : Bytes → Option Refusal
unfolding bytes_eq
toy_policy s = if bytes_eq s (codes "bad") then some blocked_host else none

abbrev change : UpdatePrefsRequest
change = record {
  push_enabled = none;
  apprise_enabled = some true;
  apprise_url = some (codes "good");
  email_enabled = none;
  quiet_hours_start = some (10 ∷ 30 ∷ []);
  quiet_hours_end = none;
}

update_prefs-Kept_example :
    Kept toy_policy toy_clock
      (λ s. s)
      (λ r. "refused")
      false
      false
      3
      (night ∷ [])
      (handle_update_prefs toy_policy toy_clock
        (λ s. s)
        (λ r. "refused")
        false
        false
        3
        (some change)
        (night ∷ []))
update_prefs-Kept_example =
    update_prefs-Kept toy_policy toy_clock (λ s. s) (λ r. "refused") false false 3 (night ∷ [])
      (tt, tt) (some change)
