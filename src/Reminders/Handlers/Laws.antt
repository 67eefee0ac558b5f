-- ===== src/Reminders/Handlers/Laws.antt =====
-- How the reminder handlers of internal/server/reminders.go end, and whose rows they touch.
use Prim.Native.String.{String}
use zymobrew.Base.{
  subst, sym, update-unfound, ℕ, ◌≡◌, refl, ◌∙◌, Bool, true, ◌&&◌, not, List, append-nil, Option,
  none, some, select, update, ◌==◌, ==_refl, if_rule, arith, select-append, select-update,
}
use zymobrew.Base.Int.{ℤ}
use zymobrew.Schema.{Reminder, ReminderStatus, cancelled, EventKind, Batch}
use zymobrew.Schema.Labels.{event_kind_of}
use zymobrew.Store.{
  Db, Reply, done, refused, World, Outage, get_batch_query, create_reminder_query,
  update_reminder_query, cancel_reminder_query,
}
use zymobrew.Reminders.{
  UpdateReminderParams, patch_reminder, update_reminder, cancel_reminder, owned_by, is_open,
}
use zymobrew.Batches.{get_batch_for_user}
use zymobrew.Batches.Handlers.{cast_label}
use zymobrew.Batches.Events.Laws.{ErrorKeeps}
use zymobrew.Reminders.Handlers.{
  CreateReminderRequest, UpdateReminderRequest, allowed_status, max_reminder_title,
  max_reminder_desc, longer_than, create_fault, created_reminder, store_reminder, insert_reminder,
  create_for, create_at, create_checked, handle_create_reminder, patched, reminder_params,
  rewrite_reminder, update_status, update_time, handle_update_reminder, handle_delete_reminder,
}

module _ (w : World) (down : Outage) (user : ℕ) (db : Db) where
  -- How the creation of a reminder ends: in a refusal that changes nothing, or with it stored for a
  -- batch of the user's.
  pub reminder_create-cases :
      (P : Db × Reply Reminder → Type 0) (id : Option ℕ) (body : Option CreateReminderRequest)
      → ((s : ℕ) (m : String) → P (db, refused s m))
      → ((i : ℕ) (req : CreateReminderRequest) (t : ℤ) (batch : Batch) (kind : Option EventKind)
          → w.parse_rfc3339 req.fire_at ≡ some t
          → get_batch_for_user i user db.batches ≡ some batch
          → P (store_reminder w down (created_reminder w down user i req t kind) db))
      → P (handle_create_reminder w down user id body db)
  unfolding handle_create_reminder create_checked create_at create_for insert_reminder
  reminder_create-cases P none body fails works = fails 400 _
  reminder_create-cases P (some i) none fails works = fails 400 _
  reminder_create-cases P (some i) (some req) fails works = checked (create_fault req)
    where
      kinds :
          (t : ℤ) (batch : Batch) (kind : Option (Option EventKind))
          → w.parse_rfc3339 req.fire_at ≡ some t
          → get_batch_for_user i user db.batches ≡ some batch
          → P (insert_reminder w down user i req t kind db)
      kinds t batch none p found = fails 500 _
      kinds t batch (some kind) p found = works i req t batch kind p found

      loaded :
          (t : ℤ) (o : Option Batch)
          → w.parse_rfc3339 req.fire_at ≡ some t
          → get_batch_for_user i user db.batches ≡ o
          → P (create_for w down user i req t o db)
      loaded t none p e = fails 404 _
      loaded t (some batch) p e =
          if_rule P (down create_reminder_query) _ _ (λ _. fails 500 _)
            (λ _. kinds t batch (cast_label event_kind_of req.suggested_event_kind) p e)

      timed :
          (o : Option ℤ) → w.parse_rfc3339 req.fire_at ≡ o → P (create_at w down user i req o db)
      timed none p = fails 422 _
      timed (some t) p =
          if_rule P (down get_batch_query) _ _ (λ _. fails 500 _)
            (λ _. loaded t (get_batch_for_user i user db.batches) p refl)

      checked : (o : Option String) → P (create_checked w down user i req o db)
      checked (some fault) = fails 422 fault
      checked none = timed (w.parse_rfc3339 req.fire_at) refl

  update_reminder-unfound :
      (p : UpdateReminderParams)
      → (update_reminder p db.reminders).1 ≡ none
      → (update_reminder p db.reminders).0 ≡ db.reminders
  unfolding update_reminder patch_reminder
  update_reminder-unfound p =
      update-unfound (owned_by p.id p.user_id) (patch_reminder p) (λ r h. h) db.reminders

  -- How the change of a reminder ends: in a refusal that changes nothing, or with the user's reminder
  -- of that id rewritten, to one of the statuses that a user may set.
  pub reminder_update-cases :
      (P : Db × Reply Reminder → Type 0) (id : Option ℕ) (body : Option UpdateReminderRequest)
      → ((s : ℕ) (m : String) → P (db, refused s m))
      → ((i : ℕ) (req : UpdateReminderRequest) (t : Option ℤ) (status : Option ReminderStatus)
            (kind : Option EventKind) (r : Reminder)
          → id ≡ some i
          → body ≡ some req
          → cast_label allowed_status req.status ≡ some status
          → (update_reminder (reminder_params w down i user req t status kind) db.reminders).1
            ≡ some r
          → P (
            record db {
              reminders =
                  (update_reminder
                    (reminder_params w down i user req t status kind)
                    db.reminders).0;
            },
            done 200 r,
          ))
      → P (handle_update_reminder w down user id body db)
  unfolding handle_update_reminder update_time update_status rewrite_reminder patched
  reminder_update-cases P none body fails works = fails 400 _
  reminder_update-cases P (some i) none fails works = fails 400 _
  reminder_update-cases P (some i) (some req) fails works =
      if_rule P (longer_than max_reminder_title req.title) _ _ (λ _. fails 422 _)
        (λ _.
          if_rule P (longer_than max_reminder_desc req.description) _ _ (λ _. fails 422 _)
            (λ _. timed (cast_label w.parse_rfc3339 req.fire_at)))
    where
      back :
          (t : Option ℤ) (status : Option ReminderStatus) (kind : Option EventKind)
          (o : Option Reminder)
          → cast_label allowed_status req.status ≡ some status
          → (update_reminder (reminder_params w down i user req t status kind) db.reminders).1 ≡ o
          → P (
              patched w down
                (update_reminder (reminder_params w down i user req t status kind) db.reminders).0
                o
                db)
      back t status kind none s e =
          subst (λ rs. P (record db { reminders = rs }, refused 404 "not found"))
            (sym (update_reminder-unfound (reminder_params w down i user req t status kind) e))
            (fails 404 _)
      back t status kind (some r) s e = works i req t status kind r refl refl s e

      kinds :
          (t : Option ℤ) (status : Option ReminderStatus) (kind : Option (Option EventKind))
          → cast_label allowed_status req.status ≡ some status
          → P (rewrite_reminder w down i user req t status kind db)
      kinds t status none s = fails 500 _
      kinds t status (some kind) s = back t status kind _ s refl

      labelled :
          (t : Option ℤ) (status : Option (Option ReminderStatus))
          → cast_label allowed_status req.status ≡ status
          → P (update_status w down i user req t status db)
      labelled t none e = fails 422 _
      labelled t (some status) e =
          if_rule P (down update_reminder_query) _ _ (λ _. fails 500 _)
            (λ _. kinds t status (cast_label event_kind_of req.suggested_event_kind) e)

      timed : (t : Option (Option ℤ)) → P (update_time w down i user req t db)
      timed none = fails 422 _
      timed (some t) = labelled t (cast_label allowed_status req.status) refl

  -- If creating, changing or deleting a reminder is answered with an error, the database is
  -- unchanged: whatever the input, and whichever queries fail.
  pub reminder-ErrorKeeps :
      (id batch : Option ℕ) (body : Option CreateReminderRequest)
      (patch : Option UpdateReminderRequest)
      → ErrorKeeps db (handle_create_reminder w down user batch body db)
        × ErrorKeeps db (handle_update_reminder w down user id patch db)
        × ErrorKeeps db (handle_delete_reminder w down user id db)
  unfolding store_reminder handle_delete_reminder
  reminder-ErrorKeeps id batch body patch = (
    reminder_create-cases (ErrorKeeps db) batch body (λ s m. refl) (λ _ _ _ _ _ _ _. tt),
    reminder_update-cases (ErrorKeeps db) id patch (λ s m. refl) (λ _ _ _ _ _ _ _ _ _ _. tt),
    deleted id,
  )
    where
      deleted : (i : Option ℕ) → ErrorKeeps db (handle_delete_reminder w down user i db)
      deleted none = refl
      deleted (some i) =
          if_rule (ErrorKeeps db) (down cancel_reminder_query) _ _ (λ _. refl)
            (λ _.
              if_rule (ErrorKeeps db) (cancel_reminder i user db.reminders).1 _ _ (λ _. tt)
                (λ _. refl))

  -- The reminders of every other user.
  abbrev pub others : List Reminder → List Reminder
  others = select (λ (r : Reminder). not (r.user_id == user))

  abbrev pub ForeignKept : {A : Type 0} → Db × Reply A → Type 0
  ForeignKept out = others out.0.reminders ≡ others db.reminders

  others-update :
      (hit : Reminder → Bool) (f : Reminder → Reminder) (rs : List Reminder)
      → ((r : Reminder) → hit r ≡ true → (r.user_id == user) ≡ true)
      → ((r : Reminder) → (f r).user_id ≡ r.user_id)
      → others (update hit f rs) ≡ others rs
  others-update hit f rs own same =
      select-update (λ (r : Reminder). not (r.user_id == user)) hit f
        (λ r h. (rw (own r h), rw (same r, own r h))) rs

  -- Whatever a user sends and whichever queries fail, creating, changing or deleting a reminder
  -- leaves the reminders of all other users as they were.
  pub reminders_kept :
      (id batch : Option ℕ) (body : Option CreateReminderRequest)
      (patch : Option UpdateReminderRequest)
      → ForeignKept (handle_create_reminder w down user batch body db)
        × ForeignKept (handle_update_reminder w down user id patch db)
        × ForeignKept (handle_delete_reminder w down user id db)
  unfolding store_reminder created_reminder update_reminder patch_reminder reminder_params
      cancel_reminder handle_delete_reminder
  reminders_kept id batch body patch = (
    reminder_create-cases ForeignKept batch body (λ s m. refl)
        (λ i req t b kind _ _.
          select-append (λ (r : Reminder). not (r.user_id == user)) db.reminders _
          ∙ rw (==_refl user) (append-nil (others db.reminders))),
    reminder_update-cases ForeignKept id patch (λ s m. refl)
        (λ i req t status kind r _ _ _ _.
          others-update (owned_by i user)
            (patch_reminder (reminder_params w down i user req t status kind)) db.reminders
            (λ x h. ground (arith, h)) (λ x. refl)),
    deleted id,
  )
    where
      deleted : (i : Option ℕ) → ForeignKept (handle_delete_reminder w down user i db)
      deleted none = refl
      deleted (some i) =
          if_rule ForeignKept (down cancel_reminder_query) _ _ (λ _. refl)
            (λ _.
              if_rule ForeignKept (cancel_reminder i user db.reminders).1 _ _
                (λ _.
                  others-update (λ (r : Reminder). owned_by i user r && is_open r.status)
                    (λ r. record r { status = cancelled }) db.reminders (λ x h. ground (arith, h))
                    (λ x. refl))
                (λ _. refl))
