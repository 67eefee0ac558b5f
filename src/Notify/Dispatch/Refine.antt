-- ===== src/Notify/Dispatch/Refine.antt =====
-- The caches of the dispatcher (internal/jobs/reminder_dispatcher.go) against reads at the start of a
-- tick.

use zymobrew.Base.{
  ℕ, ◌≡◌, refl, sym, ◌∙◌, ap, inl, inr, ◌&&◌, ◌||◌, not, List, [], ◌∷◌, ◌++◌, Option, some, All,
  ◌==◌, ==_iff, if◌then◌else◌, Bool-cases, true, false, none, none-ne-some, All-select_of, select,
  select-select, if_rule, arith, subst,
}
use zymobrew.Schema.{Reminder}
use zymobrew.Notify.{NotificationPref, PushDevice}
use zymobrew.Notify.Quiet.{is_in_quiet_hours}
use zymobrew.Notify.Dispatch.{
  Worker, Outside, Action, Tick, no_caches, lookup, cached, remembered, push_configured,
  apprise_configured, email_configured, user_prefs, user_timezone, notify, apprise_step, email_to,
  email_step, device_of, is_device, list_devices, delete_device, drop_gone, push_one, push_all,
  push_to, push_step, external_step, deliver, deliver_all, gone, has_keys,
}
use zymobrew.Notify.Dispatch.Caches.{
  IsCoherent, cached-IsCoherent, remembered-IsCoherent, cached-agrees, cached-holds, cached-absent,
}

module _ (w : Worker) (o : Outside) where
  -- Dropping a user's devices leaves those of the others.
  drop_gone-other :
      (user other : ℕ) (dev : PushDevice) (table : List PushDevice)
      → device_of user dev ≡ true
      → (user == other) ≡ false
      → select (device_of other) (drop_gone w o dev table) ≡ select (device_of other) table
  unfolding drop_gone delete_device
  drop_gone-other user other dev table mine apart =
      if_rule Kept (has_keys dev.p256dh dev.auth && gone (o.push_status dev)) _ _
        (λ _.
          if_rule Kept (o.delete_fails dev.user_id dev.token) _ _ (λ _. refl)
            (λ _.
              select-select (device_of other) (λ d. not (is_device dev.user_id dev.token d))
                (λ d. ground (arith, mine, apart)) table))
        (λ _. refl)
    where
      Kept : List PushDevice → Type 0
      Kept t = select (device_of other) t ≡ select (device_of other) table

  push_all-other :
      (r : Reminder) (user other : ℕ) (devs table : List PushDevice)
      → All (λ d. device_of user d ≡ true) devs
      → (user == other) ≡ false
      → select (device_of other) (push_all w o r devs table).1 ≡ select (device_of other) table
  unfolding push_all
  push_all-other r user other [] table mine apart = refl
  push_all-other r user other (dev ∷ devs) table (m, mine) apart =
      push_all-other r user other devs (drop_gone w o dev table) mine apart
      ∙ drop_gone-other user other dev table m apart

  -- What is sent is decided by the devices that were read, not by the table.
  push_all-sends :
      (r : Reminder) (devs table table' : List PushDevice)
      → (push_all w o r devs table).0 ≡ (push_all w o r devs table').0
  unfolding push_all
  push_all-sends r [] table table' = refl
  push_all-sends r (dev ∷ devs) table table' =
      ap (λ (rest : List Action). push_one w o r dev ++ rest)
        (push_all-sends r devs (drop_gone w o dev table) (drop_gone w o dev table'))

  push_to-sends :
      (r : Reminder) (devs : Option (List PushDevice)) (table table' : List PushDevice)
      → (push_to w o r devs table).0 ≡ (push_to w o r devs table').0
  unfolding push_to
  push_to-sends r none table table' = refl
  push_to-sends r (some devs) table table' = push_all-sends r devs table table'

  module _ (start : List PushDevice) where
    -- The devices of a user that the cache does not hold are those of the start.
    abbrev IsFresh : List (ℕ × List PushDevice) → List PushDevice → Type 0
    IsFresh m table =
        (u : ℕ) → lookup u m ≡ none → select (device_of u) table ≡ select (device_of u) start

    read_fresh :
        (m : List (ℕ × List PushDevice)) (table : List PushDevice) (u : ℕ)
        → IsFresh m table
        → lookup u m ≡ none
        → list_devices w o table u ≡ list_devices w o start u
    unfolding list_devices
    read_fresh m table u fresh h = rw (fresh u h)

    own_devices :
        (user : ℕ) (devs : List PushDevice)
        → list_devices w o start user ≡ some devs
        → All (λ d. device_of user d ≡ true) devs
    unfolding list_devices
    own_devices user devs h = elim (Bool-cases (o.list_fails user)) [
      | inl e ↦ absurd (none-ne-some (rw (e) at h))
      | inr e ↦
          let same : select (device_of user) start ≡ devs = (let k = rw (e) at h in cc k) in
          subst (All (λ d. device_of user d ≡ true)) same
            (All-select_of (λ d. device_of user d ≡ true) (device_of user) start (All-always start))
    ]
      where
        All-always :
            (ds : List PushDevice) → All (λ d. device_of user d ≡ true → device_of user d ≡ true) ds
        All-always [] = tt
        All-always (d ∷ ds) = (λ h. h, All-always ds)

    pushed-IsFresh :
        (r : Reminder) (m : List (ℕ × List PushDevice)) (table : List PushDevice)
        (devs : Option (List PushDevice))
        → IsFresh m table
        → (cached (list_devices w o start) r.user_id m).0 ≡ devs
        → IsCoherent (list_devices w o start) m
        → IsFresh (cached (list_devices w o start) r.user_id m).1 (push_to w o r devs table).1
    unfolding push_to
    pushed-IsFresh r m table none fresh read coherent u h =
        fresh u (cached-absent (list_devices w o start) r.user_id u m h)
    pushed-IsFresh r m table (some devs) fresh read coherent u h =
        let kept = cached-absent (list_devices w o start) r.user_id u m h in
        let there = cached-holds (list_devices w o start) r.user_id m read in
        let (same, _) = cached-IsCoherent (list_devices w o start) r.user_id m coherent in
        elim (Bool-cases (r.user_id == u)) [
          | inl e ↦
              let same_user : r.user_id ≡ u = (==_iff r.user_id u).0 e in
              absurd (none-ne-some (sym (rw (same_user) at h) ∙ (rw (same_user) at there)))
          | inr apart ↦
              push_all-other r r.user_id u devs table (own_devices r.user_id devs (sym same ∙ read))
                apart
              ∙ fresh u kept
        ]

    abbrev AreCoherent : Tick → Type 0
    AreCoherent c =
        IsCoherent (λ i. some (user_prefs w o i)) c.prefs
        × IsCoherent (λ i. some (user_timezone w o i)) c.timezones
        × IsCoherent (list_devices w o start) c.devices
        × IsCoherent o.get_email c.emails
        × IsFresh c.devices c.push_devices

    -- The messages for a reminder, each read as at the start of the tick.
    unfoldable pub plain_external : Reminder → List Action
    plain_external r =
        let prefs = user_prefs w o r.user_id in
        if is_in_quiet_hours prefs (o.local_clock (user_timezone w o r.user_id))
        then []
        else apprise_step w o r prefs
          ++ (if email_configured w o && prefs.email_enabled
              then email_to w o r (o.get_email r.user_id)
              else [])
          ++ (if not (push_configured w o) || not prefs.push_enabled
              then []
              else (push_to w o r (list_devices w o start r.user_id) start).0)

    unfoldable pub plain_deliver : Reminder → List Action
    unfolding plain_external
    plain_deliver r =
        if not (push_configured w o) && not (apprise_configured w o) && not (email_configured w o)
        then notify w o r
        else notify w o r ++ plain_external r

    unfoldable pub plain_all : List Reminder → List Action
    unfolding plain_deliver
    plain_all [] = []
    plain_all (r ∷ due) = plain_deliver r ++ plain_all due

    email_step-plain :
        (r : Reminder) (prefs : NotificationPref) (c : Tick)
        → AreCoherent c
        → ((email_step w o r prefs c).0 ≡ (
            if email_configured w o && prefs.email_enabled
            then email_to w o r (o.get_email r.user_id)
            else []))
          × AreCoherent (email_step w o r prefs c).1
    unfolding email_step
    email_step-plain r prefs c (ps, ts, ds, es, fr) =
        let (same, kept) = cached-IsCoherent o.get_email r.user_id c.emails es in
        elim (Bool-cases (email_configured w o && prefs.email_enabled)) [
          | inl h ↦ rw (h, email_step) (ap (email_to w o r) same, (ps, ts, ds, kept, fr))
          | inr h ↦ rw (h, email_step) (refl, (ps, ts, ds, es, fr))
        ]

    push_step-plain :
        (r : Reminder) (prefs : NotificationPref) (c : Tick)
        → AreCoherent c
        → ((push_step w o r prefs c).0 ≡ (
            if not (push_configured w o) || not prefs.push_enabled
            then []
            else (push_to w o r (list_devices w o start r.user_id) start).0))
          × AreCoherent (push_step w o r prefs c).1
    unfolding push_step
    push_step-plain r prefs c (ps, ts, ds, es, fr) =
        let asked =
          cached-agrees (list_devices w o c.push_devices) (list_devices w o start) r.user_id
            c.devices (read_fresh c.devices c.push_devices r.user_id fr) in
        let (same, kept) = cached-IsCoherent (list_devices w o start) r.user_id c.devices ds in
        let fresh = pushed-IsFresh r c.devices c.push_devices _ fr refl ds in
        elim (Bool-cases (not (push_configured w o) || not prefs.push_enabled)) [
          | inl h ↦ rw (h, push_step) (refl, (ps, ts, ds, es, fr))
          | inr h ↦
              rw (h, push_step)
                (rw asked (
                  push_to-sends r (cached (list_devices w o start) r.user_id c.devices).0
                        c.push_devices start
                      ∙ ap (λ ds'. (push_to w o r ds' start).0) same,
                  (ps, ts, kept, es, fresh),
                ))
        ]

    external_step-plain :
        (r : Reminder) (c : Tick)
        → AreCoherent c
        → ((external_step w o r (user_prefs w o r.user_id) (user_timezone w o r.user_id) c).0
            ≡ plain_external r)
          × AreCoherent
              (external_step w o r (user_prefs w o r.user_id) (user_timezone w o r.user_id) c).1
    unfolding external_step plain_external
    external_step-plain r c coherent =
        let prefs = user_prefs w o r.user_id in
        let (mail, coherent') = email_step-plain r prefs c coherent in
        let (push, coherent'') = push_step-plain r prefs (email_step w o r prefs c).1 coherent' in
        elim (Bool-cases (is_in_quiet_hours prefs (o.local_clock (user_timezone w o r.user_id)))) [
          | inl h ↦ rw (h, external_step) (refl, coherent)
          | inr h ↦
              rw (h, external_step) (λ i. apprise_step w o r prefs ++ mail i ++ push i, coherent'')
        ]

    deliver-plain :
        (r : Reminder) (c : Tick)
        → AreCoherent c
        → ((deliver w o r c).0 ≡ plain_deliver r) × AreCoherent (deliver w o r c).1
    unfolding deliver plain_deliver
    deliver-plain r c (ps, ts, ds, es, fr) =
        let (prefs, ps') = remembered-IsCoherent (user_prefs w o) r.user_id c.prefs ps in
        let (tz, ts') = remembered-IsCoherent (user_timezone w o) r.user_id c.timezones ts in
        let c' : Tick = record c {
          prefs = (remembered (user_prefs w o) r.user_id c.prefs).1;
          timezones = (remembered (user_timezone w o) r.user_id c.timezones).1;
        } in
        let (out, kept) = external_step-plain r c' (ps', ts', ds, es, fr) in
        elim (Bool-cases (
          not (push_configured w o)
          && not (apprise_configured w o)
          && not (email_configured w o))) [
            | inl h ↦ rw (h, deliver) (refl, (ps, ts, ds, es, fr))
            | inr h ↦
                rw (h, deliver)
                  (rw (prefs, tz) (ap (λ (as' : List Action). notify w o r ++ as') out, kept))
          ]

    deliver_all-plain :
        (due : List Reminder) (c : Tick) → AreCoherent c → deliver_all w o due c ≡ plain_all due
    unfolding deliver_all plain_all
    deliver_all-plain [] c coherent = refl
    deliver_all-plain (r ∷ due) c coherent =
        let (same, kept) = deliver-plain r c coherent in
        λ i. same i ++ deliver_all-plain due (deliver w o r c).1 kept i

    -- Though a tick deletes devices as it goes, with its caches, which it starts without, it does for all
    -- due reminders exactly what it would do if it made every read at its start. The answers of the
    -- other queries do not change during a tick.
    pub deliver_all_uncached :
        (due : List Reminder) → deliver_all w o due (no_caches start) ≡ plain_all due
    deliver_all_uncached due = deliver_all-plain due (no_caches start) (tt, tt, tt, tt, λ u _. refl)
