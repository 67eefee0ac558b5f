-- ===== src/Notify/Dispatch/Allowed.antt =====
-- What the messages of a tick of internal/jobs/reminder_dispatcher.go rest on.
use zymobrew.Base.{
  ℕ, ◌≡◌, refl, inl, inr, Bool, true, false, ◌&&◌, ◌||◌, not, List, [], ◌∷◌, ◌++◌, Option, none,
  some, Bytes, All, All-append, is_empty, if◌then◌else◌, if_rule, arith, Bool-cases, and_right,
}
use zymobrew.Schema.{Reminder}
use zymobrew.Notify.{PushDevice}
use zymobrew.Notify.Quiet.{is_in_quiet_hours}
use zymobrew.Notify.Dispatch.{
  Worker, Outside, Action, create_notification, send_apprise, send_email, send_push,
  delete_push_device, push_configured, apprise_configured, email_configured, user_prefs,
  user_timezone, apprise_to, apprise_step, email_to, push_to, push_all, push_one, drop_gone,
  has_keys, gone, list_devices,
}
use zymobrew.Notify.Dispatch.Refine.{plain_external}

module _ (w : Worker) (o : Outside) (start : List PushDevice) where
  abbrev pub is_quiet : ℕ → Bool
  is_quiet user = is_in_quiet_hours (user_prefs w o user) (o.local_clock (user_timezone w o user))

  -- What the tick takes for the user's preferences allows the message: to the saved URL if the validator
  -- accepts it, to the user's address, to a device with its keys.
  abbrev pub IsAllowed : Action → Type 0
  IsAllowed (create_notification u r t d p) = ⊥
  IsAllowed (send_apprise u url t b) =
      (is_quiet u ≡ false)
      × ((user_prefs w o u).apprise_enabled ≡ true)
      × ((user_prefs w o u).apprise_url ≡ some url)
      × (o.validate url ≡ true)
  IsAllowed (send_email u addr t b) =
      (is_quiet u ≡ false) × ((user_prefs w o u).email_enabled ≡ true) × (o.get_email u ≡ some addr)
  IsAllowed (send_push u dev t b p) =
      (is_quiet u ≡ false)
      × ((user_prefs w o u).push_enabled ≡ true)
      × (has_keys dev.p256dh dev.auth ≡ true)
  IsAllowed (delete_push_device u token) = Unit

  module _ (r : Reminder) (quiet : is_quiet r.user_id ≡ false) where
    apprise-IsAllowed :
        (url : Option Bytes)
        → (user_prefs w o r.user_id).apprise_enabled ≡ true
        → (user_prefs w o r.user_id).apprise_url ≡ url
        → All IsAllowed (apprise_to w o r url)
    unfolding apprise_to
    apprise-IsAllowed none enabled e = tt
    apprise-IsAllowed (some url) enabled e =
        elim (Bool-cases (not (is_empty url) && o.validate url)) [
          | inr h ↦ rw h tt
          | inl h ↦ rw h ((quiet, enabled, e, and_right _ _ h), tt)
        ]

    email-IsAllowed :
        (addr : Option Bytes)
        → (user_prefs w o r.user_id).email_enabled ≡ true
        → o.get_email r.user_id ≡ addr
        → All IsAllowed (email_to w o r addr)
    unfolding email_to
    email-IsAllowed none enabled e = tt
    email-IsAllowed (some addr) enabled e =
        if_rule (All IsAllowed) (is_empty addr) _ _ (λ _. tt) (λ _. ((quiet, enabled, e), tt))

    push_one-IsAllowed :
        (dev : PushDevice)
        → (user_prefs w o r.user_id).push_enabled ≡ true
        → All IsAllowed (push_one w o r dev)
    unfolding push_one
    push_one-IsAllowed dev enabled = elim (Bool-cases (has_keys dev.p256dh dev.auth)) [
      | inr h ↦ rw h tt
      | inl h ↦ rw h (
        (quiet, enabled, h),
        if_rule (All IsAllowed) (gone (o.push_status dev)) _ _ (λ _. (tt, tt)) (λ _. tt),
      )
    ]

    push_all-IsAllowed :
        (devs table : List PushDevice)
        → (user_prefs w o r.user_id).push_enabled ≡ true
        → All IsAllowed (push_all w o r devs table).0
    unfolding push_all
    push_all-IsAllowed [] table enabled = tt
    push_all-IsAllowed (dev ∷ devs) table enabled =
        All-append IsAllowed (push_one w o r dev) _ (push_one-IsAllowed dev enabled)
          (push_all-IsAllowed devs (drop_gone w o dev table) enabled)

    push_to-IsAllowed :
        (devs : Option (List PushDevice)) (table : List PushDevice)
        → (user_prefs w o r.user_id).push_enabled ≡ true
        → All IsAllowed (push_to w o r devs table).0
    unfolding push_to
    push_to-IsAllowed none table enabled = tt
    push_to-IsAllowed (some devs) table enabled = push_all-IsAllowed devs table enabled

  pub plain_external-IsAllowed : (r : Reminder) → All IsAllowed (plain_external w o start r)
  unfolding plain_external apprise_step
  plain_external-IsAllowed r =
      let prefs = user_prefs w o r.user_id in
      let mails : List Action =
        (if email_configured w o && prefs.email_enabled
          then email_to w o r (o.get_email r.user_id)
          else []) in
      let pushes : List Action =
        (if not (push_configured w o) || not prefs.push_enabled
          then []
          else (push_to w o r (list_devices w o start r.user_id) start).0) in
      if_rule (All IsAllowed) (is_quiet r.user_id) [] (apprise_step w o r prefs ++ mails ++ pushes)
        (λ _. tt)
        (λ quiet.
          All-append IsAllowed (apprise_step w o r prefs ++ mails) pushes
            (All-append IsAllowed (apprise_step w o r prefs) mails
              (if_rule (All IsAllowed) (apprise_configured w o && prefs.apprise_enabled)
                (apprise_to w o r prefs.apprise_url) []
                (λ h. apprise-IsAllowed r quiet prefs.apprise_url (and_right _ _ h) refl) (λ _. tt))
              (if_rule (All IsAllowed) (email_configured w o && prefs.email_enabled)
                (email_to w o r (o.get_email r.user_id)) []
                (λ h. email-IsAllowed r quiet (o.get_email r.user_id) (and_right _ _ h) refl)
                (λ _. tt)))
            (if_rule (All IsAllowed) (not (push_configured w o) || not prefs.push_enabled) []
              (push_to w o r (list_devices w o start r.user_id) start).0 (λ _. tt)
              (λ h.
                push_to-IsAllowed r quiet (list_devices w o start r.user_id) start
                  (ground (arith, h)))))
