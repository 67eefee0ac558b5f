-- ===== src/Notify/Dispatch/Stored.antt =====
-- The notifications that a tick of internal/jobs/reminder_dispatcher.go stores.
use zymobrew.Base.{
  ℕ, ◌≡◌, refl, append-nil, sym, ◌∙◌, subst, inl, inr, Bool, true, false, ◌&&◌, not, List, [], ◌∷◌,
  ◌++◌, some, All-map_of, select_none, map, select, select-append, if_rule, Bool-cases,
}
use zymobrew.Base.Int.{ℤ}
use zymobrew.Schema.{Reminder}
use zymobrew.Reminders.{claim_due}
use zymobrew.Notify.{PushDevice}
use zymobrew.Notify.Dispatch.{
  Worker, Outside, Action, create_notification, send_apprise, send_email, send_push,
  delete_push_device, no_caches, push_configured, apprise_configured, email_configured,
  notification, deliver_all, reminder_claim_batch, work, notify,
}
use zymobrew.Notify.Dispatch.Refine.{plain_external, plain_deliver, plain_all, deliver_all_uncached}
use zymobrew.Notify.Dispatch.Allowed.{IsAllowed, plain_external-IsAllowed}

abbrev pub is_notification : Action → Bool
is_notification (create_notification u r t d p) = true
is_notification _ = false

module _ (w : Worker) (o : Outside) (start : List PushDevice) where
  message_kind : (a : Action) → IsAllowed w o start a → is_notification a ≡ false
  message_kind (create_notification u r t d p) h = absurd h
  message_kind (send_apprise u url t b) h = refl
  message_kind (send_email u addr t b) h = refl
  message_kind (send_push u dev t b p) h = refl
  message_kind (delete_push_device u token) h = refl

  -- The reminders whose notification can be stored.
  abbrev pub is_stored : Reminder → Bool
  is_stored r = not (o.create_fails r.id)

  abbrev pub stored_notifications : List Reminder → List Action
  stored_notifications due = map (notification w o) (select is_stored due)

  notify-notifies :
      (r : Reminder) → select is_notification (notify w o r) ≡ stored_notifications (r ∷ [])
  unfolding notify notification
  notify-notifies r = elim (Bool-cases (o.create_fails r.id)) [
    | inl e ↦ rw (e, notify)
    | inr e ↦ rw (e, notify)
  ]

  plain_deliver-notifies :
      (r : Reminder)
      → select is_notification (plain_deliver w o start r) ≡ stored_notifications (r ∷ [])
  unfolding plain_deliver
  plain_deliver-notifies r =
      if_rule (λ acts. select is_notification acts ≡ stored_notifications (r ∷ []))
        (not (push_configured w o) && not (apprise_configured w o) && not (email_configured w o))
        (notify w o r) (notify w o r ++ plain_external w o start r) (λ _. notify-notifies r)
        (λ _.
          select-append is_notification (notify w o r) (plain_external w o start r)
          ∙ (λ i.
              notify-notifies r i
              ++ select_none is_notification (plain_external w o start r)
                  (All-map_of message_kind (plain_external w o start r)
                    (plain_external-IsAllowed w o start r))
                  i)
          ∙ append-nil (stored_notifications (r ∷ [])))

  plain_all-notifies :
      (due : List Reminder)
      → select is_notification (plain_all w o start due) ≡ stored_notifications due
  unfolding plain_all
  plain_all-notifies [] = refl
  plain_all-notifies (r ∷ due) =
      select-append is_notification (plain_deliver w o start r) (plain_all w o start due)
      ∙ (λ i. plain_deliver-notifies r i ++ plain_all-notifies due i)
      ∙ (elim (Bool-cases (o.create_fails r.id)) [ inl e ↦ rw e refl | inr e ↦ rw e refl ])

  -- A tick whose claim succeeds stores exactly one notification in the program for each reminder that it
  -- claims and whose insertion does not fail, in their order, whatever is configured, preferred or
  -- fails elsewhere; and for the others none.
  pub work_notifies :
      (locked : ℕ → Bool) (now : ℤ) (rs rs' : List Reminder) (acts : List Action)
      → work w o false locked now start rs ≡ some (rs', acts)
      → select is_notification acts
        ≡ stored_notifications (claim_due locked reminder_claim_batch now rs).1
  unfolding work
  work_notifies locked now rs rs' acts h =
      let due = (claim_due locked reminder_claim_batch now rs).1 in
      let same : deliver_all w o due (no_caches start) ≡ acts = cc h in
      subst (λ as'. select is_notification as' ≡ stored_notifications due)
        (sym (deliver_all_uncached w o start due) ∙ same) (plain_all-notifies due)
