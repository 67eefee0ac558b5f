-- ===== src/Notify/Prefs.antt =====
-- The notification preferences of a user: `handleGetNotificationPrefs` and
-- `handleUpdateNotificationPrefs` of internal/server/reminders.go, over the rows of
-- notification_prefs.
pub mod Laws
use mathlib.Core.Option
use Prim.Native.String.{String}
use zymobrew.Base.{
  ℕ, ◌≡◌, refl, sym, ◌∙◌, ap, ◌⊎◌, inl, inr, ◌≢◌, Bool, true, false, List, [], ◌∷◌, ◌++◌, Option,
  none, some, Bytes, find, any, update, All, All-append, is_empty, ◌==◌, ==_refl, if◌then◌else◌,
  if_rule, arith, Bool-cases, Option-cases,
}
use zymobrew.Store.{Reply, done, refused}
use zymobrew.Reminders.{coalesce}
use zymobrew.Network.Apprise.{Refusal}
use zymobrew.Notify.{NotificationPref}
use zymobrew.Notify.Quiet.{Clock, parse_hhmm}

pub record UpdatePrefsRequest : Type 0 where
  pub push_enabled : Option Bool
  pub apprise_enabled : Option Bool
  pub apprise_url : Option Bytes
  pub email_enabled : Option Bool
  pub quiet_hours_start : Option Bytes
  pub quiet_hours_end : Option Bytes

abbrev pub of_user : ℕ → NotificationPref → Bool
of_user user p = p.user_id == user

-- What stands for a missing row.
abbrev pub first_prefs : ℕ → NotificationPref
first_prefs user = record {
  user_id = user;
  push_enabled = true;
  apprise_enabled = false;
  quiet_hours_start = none;
  quiet_hours_end = none;
  apprise_url = none;
  email_enabled = false;
}

unfoldable pub found_or_first : ℕ → Option NotificationPref → NotificationPref
found_or_first user none = first_prefs user
found_or_first user (some p) = p

-- `UpsertNotificationPrefs`
unfoldable pub upsert_prefs : NotificationPref → List NotificationPref → List NotificationPref
upsert_prefs p rows =
    if any (of_user p.user_id) rows
    then update (of_user p.user_id) (λ old. p) rows
    else rows ++ p ∷ []

-- The apprise validator, the clock, strings.TrimSpace, the text of a refusal, and which of the two
-- queries fail.
module _ (policy : Bytes → Option Refusal) (c : Clock) (trim : Bytes → Bytes)
    (explain : Refusal → String) (get_fails upsert_fails : Bool) where
  unfoldable pub handle_get_prefs : ℕ → List NotificationPref → Reply NotificationPref
  unfolding found_or_first
  handle_get_prefs user rows =
      if get_fails
      then refused 500 "internal error"
      else done 200 (found_or_first user (find (of_user user) rows))

  unfoldable pub trimmed_url : Bytes → Refusal ⊎ Option Bytes
  unfolding is_empty
  trimmed_url s =
      if is_empty s then inr none else elim (policy s) [ none ↦ inr (some s) | some r ↦ inl r ]

  unfoldable pub patched_url : Option Bytes → Option Bytes → Refusal ⊎ Option Bytes
  unfolding trimmed_url
  patched_url old none = inr old
  patched_url old (some raw) = trimmed_url (trim raw)

  unfoldable pub patched_time : Option ℕ → Option Bytes → Option (Option ℕ)
  unfolding parse_hhmm
  patched_time old none = some old
  patched_time old (some s) = Option.map some (parse_hhmm c s)

  abbrev pub Outcome : Type 0
  Outcome = List NotificationPref × Reply NotificationPref

  unfoldable pub store_prefs : NotificationPref → List NotificationPref → Outcome
  unfolding upsert_prefs
  store_prefs p rows =
      if upsert_fails
      then (rows, refused 500 "internal error")
      else (upsert_prefs p rows, done 200 p)

  unfoldable pub with_times :
      NotificationPref
      → UpdatePrefsRequest
      → Option Bytes
      → Option (Option ℕ)
      → Option (Option ℕ)
      → List NotificationPref
      → Outcome
  unfolding store_prefs
  with_times old req url none end rows = (rows, refused 422 "quiet_hours_start must be HH:MM")
  with_times old req url (some start) none rows =
      (rows, refused 422 "quiet_hours_end must be HH:MM")
  with_times old req url (some start) (some end) rows =
      store_prefs
        (record {
          user_id = old.user_id;
          push_enabled = coalesce req.push_enabled old.push_enabled;
          apprise_enabled = coalesce req.apprise_enabled old.apprise_enabled;
          quiet_hours_start = start;
          quiet_hours_end = end;
          apprise_url = url;
          email_enabled = coalesce req.email_enabled old.email_enabled;
        })
        rows

  unfoldable pub with_url :
      NotificationPref
      → UpdatePrefsRequest
      → Refusal ⊎ Option Bytes
      → List NotificationPref
      → Outcome
  unfolding with_times patched_time
  with_url old req (inl r) rows = (rows, refused 422 (explain r))
  with_url old req (inr url) rows =
      with_times old req url (patched_time old.quiet_hours_start req.quiet_hours_start)
        (patched_time old.quiet_hours_end req.quiet_hours_end) rows

  unfoldable pub patch_prefs :
      NotificationPref → Option UpdatePrefsRequest → List NotificationPref → Outcome
  unfolding with_url patched_url
  patch_prefs old none rows = (rows, refused 400 "invalid json")
  patch_prefs old (some req) rows =
      with_url old req (patched_url old.apprise_url req.apprise_url) rows

  unfoldable pub handle_update_prefs :
      ℕ → Option UpdatePrefsRequest → List NotificationPref → Outcome
  unfolding patch_prefs found_or_first
  handle_update_prefs user body rows =
      if get_fails
      then (rows, refused 500 "internal error")
      else patch_prefs (found_or_first user (find (of_user user) rows)) body rows
