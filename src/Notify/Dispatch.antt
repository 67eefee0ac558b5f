-- ===== src/Notify/Dispatch.antt =====
-- The reminder dispatcher: `Work` of internal/jobs/reminder_dispatcher.go, with its caches.
pub mod Caches
pub mod Refine
pub mod Allowed
pub mod Consent
pub mod Stored
use mathlib.Core.Option
use zymobrew.Base.{
  ℕ, ◌≡◌, Bool, true, false, ◌&&◌, ◌||◌, not, List, [], ◌∷◌, ◌++◌, Option, none, some, Bytes, codes,
  is_empty, select, bytes_eq, ◌==◌, if◌then◌else◌,
}
use zymobrew.Base.Int.{ℤ}
use zymobrew.Schema.{Reminder}
use zymobrew.Reminders.{claim_due}
use zymobrew.Notify.{NotificationPref, PushDevice}
use zymobrew.Notify.Quiet.{is_in_quiet_hours}

abbrev pub reminder_claim_batch : ℕ
reminder_claim_batch = 100

-- The worker's settings that decide which channels are configured.
pub record Worker : Type 0 where
  pub vapid_pub : Bytes
  pub vapid_priv : Bytes
  pub apprise_api_url : Bytes
  pub smtp_host : Bytes
  pub smtp_from : Bytes

-- The answer of a query for one row.
pub data Answer (A : Type 0) : Type 0 where
  fault : Answer A
  no_row : Answer A
  row : A → Answer A

-- What one tick reads from outside, the table of devices aside: the answers of the queries, for the
-- time zone and the address `none` for an error or no row, which queries fail, the clock of a
-- location, the apprise validator, the text of an id and the status that a push service answers
-- with, `none` if the request fails.
pub record Outside : Type 0 where
  pub get_notification_prefs : ℕ → Answer NotificationPref
  pub get_timezone : ℕ → Option Bytes
  pub get_email : ℕ → Option Bytes
  pub create_fails : ℕ → Bool  -- CreateNotification, for a reminder
  pub list_fails : ℕ → Bool  -- ListPushDevicesForUser
  pub delete_fails : ℕ → Bytes → Bool  -- DeletePushDevice
  pub local_clock : Bytes → Option (ℕ × ℕ)
  pub validate : Bytes → Bool
  pub id_string : ℕ → Bytes
  pub push_status : PushDevice → Option ℕ

-- What a tick does, in order: a notification row that is stored, the messages that it sends, the
-- devices that it asks to drop. The first number of a message is the user.
pub data Action : Type 0 where
  create_notification : ℕ → ℕ → Bytes → Option Bytes → Option Bytes → Action
  send_apprise : ℕ → Bytes → Bytes → Bytes → Action
  send_email : ℕ → Bytes → Bytes → Bytes → Action
  send_push : ℕ → PushDevice → Bytes → Bytes → Bytes → Action
  delete_push_device : ℕ → Bytes → Action

-- The maps of a tick, and the table push_devices, which a tick changes.
pub record Tick : Type 0 where
  pub prefs : List (ℕ × NotificationPref)
  pub timezones : List (ℕ × Bytes)
  pub devices : List (ℕ × List PushDevice)
  pub emails : List (ℕ × Bytes)
  pub push_devices : List PushDevice

abbrev pub no_caches : List PushDevice → Tick
no_caches table = record {
  prefs = [];
  timezones = [];
  devices = [];
  emails = [];
  push_devices = table;
}

-- `WHERE user_id = $1`, and with `AND token = $2`
abbrev pub device_of : ℕ → PushDevice → Bool
device_of user d = d.user_id == user

abbrev pub is_device : ℕ → Bytes → PushDevice → Bool
is_device user token d = device_of user d && bytes_eq d.token token

-- A Go map whose newest entry stands first.
unfoldable pub lookup : {V : Type 0} → ℕ → List (ℕ × V) → Option V
lookup k [] = none
lookup k ((k', v) ∷ m) = if k' == k then some v else lookup k m

-- A read through a cache: an answer is kept, an error is not.
unfoldable pub cached : {V : Type 0} → (ℕ → Option V) → ℕ → List (ℕ × V) → Option V × List (ℕ × V)
unfolding lookup
cached ask k m = elim (lookup k m) [
  | some v ↦ (some v, m)
  | none ↦ elim (ask k) [ none ↦ (none, m) | some v ↦ (some v, (k, v) ∷ m) ]
]

-- A read that cannot fail.
unfoldable pub remembered : {V : Type 0} → (ℕ → V) → ℕ → List (ℕ × V) → V × List (ℕ × V)
unfolding lookup
remembered ask k m = elim (lookup k m) [ some v ↦ (v, m) | none ↦ (ask k, (k, ask k) ∷ m) ]

unfoldable pub text_val : Option Bytes → Bytes
text_val none = []
text_val (some s) = s

-- No row, and an error as well, stand for these.
abbrev pub default_prefs : ℕ → NotificationPref
default_prefs user = record {
  user_id = user;
  push_enabled = true;
  apprise_enabled = false;
  quiet_hours_start = none;
  quiet_hours_end = none;
  apprise_url = none;
  email_enabled = false;
}

unfoldable pub prefs_or_default : ℕ → Answer NotificationPref → NotificationPref
prefs_or_default user fault = default_prefs user
prefs_or_default user no_row = default_prefs user
prefs_or_default user (row p) = p

unfoldable pub timezone_or_utc : Option Bytes → Bytes
timezone_or_utc none = codes "UTC"
timezone_or_utc (some []) = codes "UTC"
timezone_or_utc (some (c ∷ s)) = c ∷ s

abbrev pub gone : Option ℕ → Bool
gone none = false
gone (some status) = status == 410 || status == 404

abbrev pub has_keys : Option Bytes → Option Bytes → Bool
has_keys (some a) (some b) = true
has_keys _ _ = false

module _ (w : Worker) (o : Outside) where
  abbrev pub push_configured : Bool
  push_configured = not (is_empty w.vapid_pub) && not (is_empty w.vapid_priv)

  abbrev pub apprise_configured : Bool
  apprise_configured = not (is_empty w.apprise_api_url)

  abbrev pub email_configured : Bool
  email_configured = not (is_empty w.smtp_host) && not (is_empty w.smtp_from)

  unfoldable pub user_prefs : ℕ → NotificationPref
  unfolding prefs_or_default
  user_prefs user = prefs_or_default user (o.get_notification_prefs user)

  unfoldable pub user_timezone : ℕ → Bytes
  unfolding timezone_or_utc
  user_timezone user = timezone_or_utc (o.get_timezone user)

  unfoldable pub url_path : Option ℕ → Option Bytes
  url_path none = none
  url_path (some batch) = some (codes "/batches/" ++ o.id_string batch)

  unfoldable pub notification : Reminder → Action
  unfolding url_path
  notification r = create_notification r.user_id r.id r.title r.description (url_path r.batch_id)

  -- An error of the query is logged, and the tick goes on.
  unfoldable pub notify : Reminder → List Action
  unfolding notification
  notify r = if o.create_fails r.id then [] else notification r ∷ []

  -- `ListPushDevicesForUser`: `none` for an error.
  unfoldable pub list_devices : List PushDevice → ℕ → Option (List PushDevice)
  list_devices table user = if o.list_fails user then none else some (select (device_of user) table)

  -- `DeletePushDevice`: an error of the query is logged.
  unfoldable pub delete_device : ℕ → Bytes → List PushDevice → List PushDevice
  delete_device user token table =
      if o.delete_fails user token then table else select (λ d. not (is_device user token d)) table

  -- `prefs.AppriseUrl.Valid && prefs.AppriseUrl.String != ""`, and the validator
  unfoldable pub apprise_to : Reminder → Option Bytes → List Action
  unfolding text_val
  apprise_to r none = []
  apprise_to r (some url) =
      if not (is_empty url) && o.validate url
      then send_apprise r.user_id url r.title (text_val r.description) ∷ []
      else []

  unfoldable pub apprise_step : Reminder → NotificationPref → List Action
  unfolding apprise_to
  apprise_step r prefs =
      if apprise_configured && prefs.apprise_enabled then apprise_to r prefs.apprise_url else []

  unfoldable pub email_to : Reminder → Option Bytes → List Action
  unfolding text_val
  email_to r none = []
  email_to r (some addr) =
      if is_empty addr then [] else send_email r.user_id addr r.title (text_val r.description) ∷ []

  unfoldable pub email_step : Reminder → NotificationPref → Tick → List Action × Tick
  unfolding cached email_to
  email_step r prefs c =
      let (addr, emails) = cached o.get_email r.user_id c.emails in
      if email_configured && prefs.email_enabled
      then (email_to r addr, record c { emails = emails })
      else ([], c)

  -- `sendPush`, which drops a device whose subscription is gone.
  unfoldable pub push_one : Reminder → PushDevice → List Action
  unfolding text_val url_path
  push_one r dev =
      if has_keys dev.p256dh dev.auth
      then send_push r.user_id dev r.title (text_val r.description) (text_val (url_path r.batch_id))
        ∷ (if gone (o.push_status dev) then delete_push_device dev.user_id dev.token ∷ [] else [])
      else []

  -- What it leaves of the table.
  unfoldable pub drop_gone : PushDevice → List PushDevice → List PushDevice
  unfolding delete_device
  drop_gone dev table =
      if has_keys dev.p256dh dev.auth && gone (o.push_status dev)
      then delete_device dev.user_id dev.token table
      else table

  unfoldable pub push_all :
      Reminder → List PushDevice → List PushDevice → List Action × List PushDevice
  unfolding push_one drop_gone
  push_all r [] table = ([], table)
  push_all r (dev ∷ devs) table =
      let (rest, table') = push_all r devs (drop_gone dev table) in (push_one r dev ++ rest, table')

  unfoldable pub push_to :
      Reminder → Option (List PushDevice) → List PushDevice → List Action × List PushDevice
  unfolding push_all
  push_to r none table = ([], table)
  push_to r (some devs) table = push_all r devs table

  unfoldable pub push_step : Reminder → NotificationPref → Tick → List Action × Tick
  unfolding cached list_devices push_to
  push_step r prefs c =
      let (devs, devices) = cached (list_devices c.push_devices) r.user_id c.devices in
      let (acts, table) = push_to r devs c.push_devices in
      if not push_configured || not prefs.push_enabled
      then ([], c)
      else (acts, record c { devices = devices; push_devices = table })

  unfoldable pub external_step : Reminder → NotificationPref → Bytes → Tick → List Action × Tick
  unfolding apprise_step email_step push_step is_in_quiet_hours
  external_step r prefs tz c =
      let (mails, c') = email_step r prefs c in
      let (pushes, c'') = push_step r prefs c' in
      if is_in_quiet_hours prefs (o.local_clock tz)
      then ([], c)
      else (apprise_step r prefs ++ mails ++ pushes, c'')

  -- The body of the loop.
  unfoldable pub deliver : Reminder → Tick → List Action × Tick
  unfolding external_step remembered notify user_prefs user_timezone
  deliver r c =
      let (prefs, ps) = remembered user_prefs r.user_id c.prefs in
      let (tz, tzs) = remembered user_timezone r.user_id c.timezones in
      let (external, c') = external_step r prefs tz (record c { prefs = ps; timezones = tzs }) in
      if not push_configured && not apprise_configured && not email_configured
      then (notify r, c)
      else (notify r ++ external, c')

  unfoldable pub deliver_all : List Reminder → Tick → List Action
  unfolding deliver
  deliver_all [] c = []
  deliver_all (r ∷ due) c = let (actions, c') = deliver r c in actions ++ deliver_all due c'

  -- `Work`: `none` if the claim fails.
  unfoldable pub work :
      Bool → (ℕ → Bool) → ℤ → List PushDevice → List Reminder → Option (List Reminder × List Action)
  unfolding deliver_all claim_due
  work claim_fails locked now table rs =
      let (rs', due) = claim_due locked reminder_claim_batch now rs in
      if claim_fails then none else some (rs', deliver_all due (no_caches table))
