-- ===== src/Batches/Handlers/Owners.antt =====
-- Only a brewer's own requests change the brewer's batches (internal/server/batches.go).
use zymobrew.Base.{
  ℕ, ◌≡◌, refl, ◌∙◌, ap, inl, inr, not, List, [], ◌∷◌, append-nil, Option, none, some, any, select,
  leb, if_rule, arith, Option-cases, find-some, ==_refl, select-append, select-update,
  select-select,
}
use zymobrew.Base.Int.{ℤ}
use zymobrew.Schema.{Batch, BatchStage}
use zymobrew.Store.{BatchEvent, Db, Reply, World, Outage, update_batch_query, delete_batch_query}
use zymobrew.Batches.{
  is_batch, get_batch_for_user, UpdateBatchParams, patch_batch, update_batch, advance_params,
  advance_to, maybe_advance_stage, stage_for_event, stage_rank, materialize_templates,
}
use zymobrew.Batches.Events.{
  CreateEventRequest, UpdateEventRequest, new_event, follow_up, store_event, anchor_reminders,
  handle_create_batch_event, handle_update_batch_event,
}
use zymobrew.Batches.Events.Laws.{create-cases, update-cases, anchor_reminders-batches}
use zymobrew.Batches.Handlers.{
  CreateBatchRequest, UpdateBatchRequest, new_batch, update_params, start_reminders, store_batch,
  handle_create_batch, restart_reminders, updated, handle_update_batch, without_batch,
  handle_delete_batch, brewed_by,
}
use zymobrew.Batches.Handlers.Laws.{batch_create-cases, batch_update-cases}

-- The batches of every other brewer.
abbrev pub foreign : ℕ → List Batch → List Batch
foreign user bs = select (λ b. not (brewed_by user b)) bs

foreign-update_batch :
    (user : ℕ) (now : ℤ) (p : UpdateBatchParams) (bs : List Batch)
    → p.brewer_id ≡ user
    → foreign user (update_batch now p bs) ≡ foreign user bs
unfolding update_batch patch_batch
foreign-update_batch user now p bs e =
    select-update (λ b. not (brewed_by user b)) (is_batch p.id p.brewer_id) (patch_batch now p)
      (λ b h. (ground (arith, e, h), ground (arith, e, h))) bs

module _ (w : World) (down : Outage) (user : ℕ) where
  foreign-advance_to :
      (batch : Batch) (target : BatchStage) (t : ℤ) (db : Db)
      → batch.brewer_id ≡ user
      → foreign user (advance_to w down batch target t db).batches ≡ foreign user db.batches
  unfolding advance_to advance_params
  foreign-advance_to batch target t db e =
      if_rule (λ (d : Db). foreign user d.batches ≡ foreign user db.batches)
        (leb (stage_rank target) (stage_rank batch.stage)) _ _ (λ _. refl)
        (λ _.
          if_rule (λ (d : Db). foreign user d.batches ≡ foreign user db.batches)
            (down update_batch_query) _ _ (λ _. refl)
            (λ _. foreign-update_batch user w.now (advance_params batch target t) db.batches e))

  foreign-follow_up :
      (batch : Batch) (e : BatchEvent) (db : Db)
      → batch.brewer_id ≡ user
      → foreign user (follow_up w down batch e db).batches ≡ foreign user db.batches
  unfolding follow_up maybe_advance_stage
  foreign-follow_up batch e db own =
      let anchored = anchor_reminders w down batch e db in
      let same = ap (foreign user) (anchor_reminders-batches w down batch e db) in
      elim (Option-cases (stage_for_event e.kind)) [
        | inl h ↦ rw (h, maybe_advance_stage) same
        | inr (target, h) ↦
            rw (h, maybe_advance_stage)
              (foreign-advance_to batch target e.occurred_at anchored own ∙ same)
      ]

  start_reminders-batches :
      (batch : Batch) (t : Option ℤ) (db : Db)
      → (start_reminders w down batch t db).batches ≡ db.batches
  unfolding start_reminders materialize_templates
  start_reminders-batches batch none db = refl
  start_reminders-batches batch (some t) db = ground arith

  restart_reminders-batches :
      (t : Option ℤ) (batch : Batch) (db : Db)
      → (restart_reminders w down t batch db).batches ≡ db.batches
  unfolding restart_reminders
  restart_reminders-batches none batch db = refl
  restart_reminders-batches (some t) batch db = start_reminders-batches batch batch.started_at db

  owner :
      (i : ℕ) (bs : List Batch) {batch : Batch}
      → get_batch_for_user i user bs ≡ some batch
      → batch.brewer_id ≡ user
  unfolding get_batch_for_user
  owner i bs found = ground (arith, (find-some (is_batch i user) bs found).0)

  module _ (db : Db) where
    -- The database of an outcome has the same batches of other brewers.
    abbrev pub Apart : {A : Type 0} → Db × Reply A → Type 0
    Apart out = foreign user out.0.batches ≡ foreign user db.batches

    -- Whatever a user sends and whichever queries fail, creating, changing or deleting a batch, and
    -- creating or changing an event, leave the batches of all other brewers as they were.
    pub foreign_kept :
        (id event : Option ℕ) (body : Option CreateBatchRequest) (patch : Option UpdateBatchRequest)
        (e : Option CreateEventRequest) (change : Option UpdateEventRequest)
        → Apart (handle_create_batch w down user body db)
          × Apart (handle_update_batch w down user id patch db)
          × Apart (handle_delete_batch w down user id db)
          × Apart (handle_create_batch_event w down user id e db)
          × Apart (handle_update_batch_event w down user id event change db)
    unfolding store_batch new_batch updated update_params handle_delete_batch without_batch
        store_event
    foreign_kept id event body patch e change = (
      batch_create-cases w down user db Apart body (λ s m. refl)
          (λ req recipe revision stage visibility _ _.
            let batch = new_batch w user req recipe revision stage visibility in
            ap (foreign user) (start_reminders-batches batch batch.started_at _)
            ∙ select-append (λ b. not (brewed_by user b)) db.batches (batch ∷ [])
            ∙ rw (==_refl user) (append-nil (foreign user db.batches))),
      batch_update-cases w down user db Apart id patch (λ s m. refl)
          (λ i req stage visibility batch _ _.
            ap (foreign user) (restart_reminders-batches req.started_at batch _)
            ∙ foreign-update_batch user w.now (update_params i user req stage visibility) db.batches
                refl),
      deleted id,
      create-cases w down Apart user id e db (λ s m. refl)
          (λ i batch req kind _ found _ _.
            foreign-follow_up batch (new_event w i req kind) _ (owner i db.batches found)),
      update-cases w down Apart user id event change db (λ s m. refl)
          (λ i batch events x found.
            foreign-follow_up batch x (record db { events = events }) (owner i db.batches found)),
    )
      where
        deleted : (i : Option ℕ) → Apart (handle_delete_batch w down user i db)
        deleted none = refl
        deleted (some i) =
            if_rule Apart (down delete_batch_query) _ _ (λ _. refl)
              (λ _.
                if_rule Apart (any (is_batch i user) db.batches) _ _
                  (λ _.
                    select-select (λ b. not (brewed_by user b)) (λ b. not (is_batch i user b))
                      (λ b h. ground arith) db.batches)
                  (λ _. refl))
