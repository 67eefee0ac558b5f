-- ===== src/Batches/Events/Outcomes.antt =====
-- The theorems on the event handlers of internal/server/batches.go: an error changes nothing, a batch
-- only moves forward, and what a stored event brings about.
use zymobrew.Base.{
  ℕ, ◌≡◌, refl, if_rule, true, false, [], ◌∷◌, ◌++◌, Option, none, some, arith, any, Pointwise,
  HasKey, All,
}
use zymobrew.Base.Int.{ℤ}
use zymobrew.Schema.{Batch, EventKind, ReminderAnchor}
use zymobrew.Store.{
  refused-ne-done, BatchEvent, Db, done, World, Outage, delete_event_query, reanchor_query,
  materialize_query,
}
use zymobrew.Reminders.{MaterializeParams, applies, stands_for, materialize, reanchor}
use zymobrew.Reminders.Materialize.{template_id, materialize-covers}
use zymobrew.Reminders.Idempotent.{IsAnchored, settled-IsAnchored}
use zymobrew.Batches.{
  batch_id, get_batch_for_user, anchor_for_kind, template_params, materialize_templates,
  maybe_advance_stage, advance_to,
}
use zymobrew.Batches.Stage.{Forward, Forward-all}
use zymobrew.Batches.Events.{
  CreateEventRequest, UpdateEventRequest, new_event, is_event, anchor_reminders, follow_up,
  store_event, handle_create_batch_event, handle_update_batch_event, handle_delete_batch_event,
  user_owns_batch,
}
use zymobrew.Batches.Events.Laws.{
  ErrorKeeps, get_batch-Exists, follow_up-Forward, create-cases, update-cases,
}

module _ (w : World) (down : Outage) (user : ℕ) (db : Db) where
  -- If creating, changing or deleting an event is answered with an error, the database is unchanged:
  -- whatever the input, and whichever queries fail.
  pub error_keeps :
      (id event : Option ℕ) (body : Option CreateEventRequest) (patch : Option UpdateEventRequest)
      → ErrorKeeps db (handle_create_batch_event w down user id body db)
        × ErrorKeeps db (handle_update_batch_event w down user id event patch db)
        × ErrorKeeps db (handle_delete_batch_event w down user id event db)
  unfolding store_event handle_delete_batch_event
  error_keeps id event body patch = (
    create-cases w down (ErrorKeeps db) user id body db (λ s m. refl) (λ _ _ _ _ _ _ _ _. tt),
    update-cases w down (ErrorKeeps db) user id event patch db (λ s m. refl) (λ _ _ _ _ _. tt),
    deleted id event,
  )
    where
      deleted : (i e : Option ℕ) → ErrorKeeps db (handle_delete_batch_event w down user i e db)
      deleted none e = refl
      deleted (some i) none = refl
      deleted (some i) (some e) =
          if_rule (ErrorKeeps db) (user_owns_batch w down user i db) _ _
            (λ _.
              if_rule (ErrorKeeps db) (down delete_event_query) _ _ (λ _. refl)
                (λ _.
                  if_rule (ErrorKeeps db) (any (is_event e i) db.events) _ _ (λ _. tt) (λ _. refl)))
            (λ _. refl)

  -- Whatever is sent and whichever queries fail, creating or changing an event leaves each batch as
  -- it was or moves it to a later stage, and then changes no other column than the time of bottling
  -- and the modification time. Batch ids are unique.
  pub events-Forward :
      HasKey batch_id db.batches
      → (id event : Option ℕ) (body : Option CreateEventRequest) (patch : Option UpdateEventRequest)
      → Pointwise Forward db.batches (handle_create_batch_event w down user id body db).0.batches
        × Pointwise Forward db.batches
            (handle_update_batch_event w down user id event patch db).0.batches
  unfolding store_event follow_up
  events-Forward k id event body patch = (
    create-cases w down (λ out. Pointwise Forward db.batches out.0.batches) user id body db
        (λ s m. Forward-all db.batches)
        (λ i batch req kind _ found _ _.
          follow_up-Forward w down batch (new_event w i req kind) _ k
            (get_batch-Exists i user db.batches found)),
    update-cases w down (λ out. Pointwise Forward db.batches out.0.batches) user id event patch db
        (λ s m. Forward-all db.batches)
        (λ i batch events e found.
          follow_up-Forward w down batch e (record db { events = events }) k
            (get_batch-Exists i user db.batches found)),
  )

  maybe_advance-rest :
      (batch : Batch) (kind : EventKind) (t : ℤ) (before : Db)
      → ((maybe_advance_stage w down batch kind t before).reminders ≡ before.reminders)
        × ((maybe_advance_stage w down batch kind t before).events ≡ before.events)
  unfolding maybe_advance_stage advance_to
  maybe_advance-rest batch kind t before = ground arith

  anchor_reminders-settled :
      (batch : Batch) (e : BatchEvent) (recipe : ℕ) (anchor : ReminderAnchor) (before : Db)
      → down reanchor_query ≡ false
      → down materialize_query ≡ false
      → batch.recipe_id ≡ some recipe
      → anchor_for_kind e.kind ≡ some anchor
      → anchor_reminders w down batch e before ≡ (
          let p = template_params batch recipe anchor e.occurred_at in
          record before {
            reminders =
                materialize w.new_reminder_id w.now p before.templates
                  (reanchor p before.templates before.reminders);
          })
  unfolding anchor_reminders materialize_templates
  anchor_reminders-settled batch e recipe anchor before dr dm hr ha = ground arith

  -- What is true once the reminders of an anchor are settled: each template that applies has a
  -- reminder that is neither cancelled nor dismissed, and the scheduled ones fire when it says.
  abbrev pub Settled : MaterializeParams → Db → Type 0
  Settled p after =
      All (λ t. applies p t ≡ true → any (stands_for p.batch_id t.id) after.reminders ≡ true)
        db.templates
      × All (IsAnchored p db.templates) after.reminders

  module _ (k : HasKey template_id db.templates) (dr : down reanchor_query ≡ false)
      (dm : down materialize_query ≡ false) where
    store_event-Settled :
        (batch : Batch) (e : BatchEvent) (recipe : ℕ) (anchor : ReminderAnchor)
        → batch.recipe_id ≡ some recipe
        → anchor_for_kind e.kind ≡ some anchor
        → let after = (store_event w down batch e db).0 in
          Settled (template_params batch recipe anchor e.occurred_at) after
          × (after.events ≡ db.events ++ e ∷ [])
    unfolding store_event follow_up
    store_event-Settled batch e recipe anchor hr ha =
        let p = template_params batch recipe anchor e.occurred_at in
        let stored : Db = record db { events = db.events ++ e ∷ [] } in
        let anchored = anchor_reminders w down batch e stored in
        let settled = anchor_reminders-settled batch e recipe anchor stored dr dm hr ha in
        let rest = maybe_advance-rest batch e.kind e.occurred_at anchored in
        rw (rest.0, rest.1, settled)
          (
            (
              materialize-covers p db.templates w.new_reminder_id w.now
                  (reanchor p db.templates db.reminders),
              settled-IsAnchored p db.templates k w.new_reminder_id w.now db.reminders,
            ),
            refl,
          )

    -- Where a pitch, rack or bottle event is created in a batch of a recipe and the two reminder
    -- queries do not fail, the event is stored, each template of its anchor has a reminder that is
    -- neither cancelled nor dismissed, and the scheduled ones fire when their templates say,
    -- counted from the event. Template ids are unique.
    pub event_settles :
        (id : ℕ) (body : Option CreateEventRequest) (batch : Batch) (e : BatchEvent) (recipe : ℕ)
        (anchor : ReminderAnchor)
        → get_batch_for_user id user db.batches ≡ some batch
        → batch.recipe_id ≡ some recipe
        → anchor_for_kind e.kind ≡ some anchor
        → (handle_create_batch_event w down user (some id) body db).1 ≡ done 201 e
        → let after = (handle_create_batch_event w down user (some id) body db).0 in
          Settled (template_params batch recipe anchor e.occurred_at) after
          × (after.events ≡ db.events ++ e ∷ [])
    event_settles id body batch e recipe anchor found hr ha =
        create-cases w down
          (λ out.
            out.1 ≡ done 201 e
            → Settled (template_params batch recipe anchor e.occurred_at) out.0
              × (out.0.events ≡ db.events ++ e ∷ []))
          user (some id) body db (λ s m h. absurd (refused-ne-done h))
          (λ i here req kind same loaded _ _ h.
            let batches : here ≡ batch = ground arith in
            let events : new_event w i req kind ≡ e =
              stored_event here (new_event w i req kind) h in
            rw (batches, events) (store_event-Settled batch e recipe anchor hr ha))
      where
        stored_event :
            (b : Batch) (x : BatchEvent) → (store_event w down b x db).1 ≡ done 201 e → x ≡ e
        stored_event b x h = unfold store_event in cc h
