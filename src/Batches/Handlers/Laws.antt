-- ===== src/Batches/Handlers/Laws.antt =====
-- How the batch handlers of internal/server/batches.go end, and whose rows they touch.
use Prim.Native.String.{String}
use zymobrew.Base.{
  subst, sym, update-unfound, ℕ, ◌≡◌, refl, ◌||◌, not, Option, none, some, codes, length, any,
  is_empty, ltb, if_rule,
}
use zymobrew.Schema.{Batch, BatchStage, Visibility}
use zymobrew.Store.{
  Db, Reply, refused, World, Outage, create_batch_query, update_batch_query, delete_batch_query,
}
use zymobrew.Batches.{UpdateBatchParams, patch_batch, is_batch, get_batch_for_user, update_batch}
use zymobrew.Batches.Events.Laws.{ErrorKeeps}
use zymobrew.Batches.Handlers.{
  CreateBatchRequest, UpdateBatchRequest, Pin, pinned, unpinned, or_default, allowed_brew_type,
  max_batch_name, max_notes_bytes, new_batch, bad_name, bad_notes, update_params, pin_recipe,
  store_batch, insert_batch, create_pinned, handle_create_batch, updated, rewrite_batch,
  handle_update_batch, handle_delete_batch,
}

module _ (w : World) (down : Outage) (user : ℕ) (db : Db) where
  -- How the creation of a batch ends: in a refusal that changes nothing, or with the batch stored,
  -- pinned to what its recipe allows.
  pub batch_create-cases :
      (P : Db × Reply Batch → Type 0) (body : Option CreateBatchRequest)
      → ((s : ℕ) (m : String) → P (db, refused s m))
      → ((req : CreateBatchRequest) (recipe revision : Option ℕ) (stage : BatchStage)
            (visibility : Visibility)
          → body ≡ some req
          → pin_recipe w down user req.recipe_id db.recipes ≡ pinned recipe revision
          → P (store_batch w down (new_batch w user req recipe revision stage visibility) db))
      → P (handle_create_batch w down user body db)
  unfolding handle_create_batch create_pinned insert_batch
  batch_create-cases P none fails works = fails 400 _
  batch_create-cases P (some req) fails works =
      if_rule P (is_empty req.name || ltb max_batch_name (length req.name)) _ _ (λ _. fails 400 _)
        (λ _.
          if_rule P (ltb max_notes_bytes (length req.notes)) _ _ (λ _. fails 400 _)
            (λ _.
              if_rule P (not (allowed_brew_type (or_default (codes "mead") req.brew_type))) _ _
                (λ _. fails 400 _)
                (λ _. with_pin (pin_recipe w down user req.recipe_id db.recipes) refl)))
    where
      labelled :
          (recipe revision : Option ℕ) (stage : Option BatchStage) (visibility : Option Visibility)
          → pin_recipe w down user req.recipe_id db.recipes ≡ pinned recipe revision
          → P (insert_batch w down user req recipe revision stage visibility db)
      labelled recipe revision none visibility e = fails 400 _
      labelled recipe revision (some stage) none e = fails 400 _
      labelled recipe revision (some stage) (some visibility) e =
          works req recipe revision stage visibility refl e

      with_pin :
          (pin : Pin)
          → pin_recipe w down user req.recipe_id db.recipes ≡ pin
          → P (create_pinned w down user req pin db)
      with_pin (unpinned s m) e = fails s m
      with_pin (pinned recipe revision) e =
          if_rule P (down create_batch_query) _ _ (λ _. fails 500 _)
            (λ _. labelled recipe revision _ _ e)

  update_batch-unfound :
      (p : UpdateBatchParams)
      → get_batch_for_user p.id p.brewer_id (update_batch w.now p db.batches) ≡ none
      → update_batch w.now p db.batches ≡ db.batches
  unfolding get_batch_for_user update_batch patch_batch
  update_batch-unfound p =
      update-unfound (is_batch p.id p.brewer_id) (patch_batch w.now p) (λ b h. h) db.batches

  -- How the change of a batch ends: in a refusal that changes nothing, or with the user's batch of
  -- that id rewritten.
  pub batch_update-cases :
      (P : Db × Reply Batch → Type 0) (id : Option ℕ) (body : Option UpdateBatchRequest)
      → ((s : ℕ) (m : String) → P (db, refused s m))
      → ((i : ℕ) (req : UpdateBatchRequest) (stage : Option BatchStage)
            (visibility : Option Visibility) (batch : Batch)
          → body ≡ some req
          → get_batch_for_user i user
              (update_batch w.now (update_params i user req stage visibility) db.batches)
            ≡ some batch
          → P (
              updated w down req.started_at
                (update_batch w.now (update_params i user req stage visibility) db.batches)
                (some batch)
                db))
      → P (handle_update_batch w down user id body db)
  unfolding handle_update_batch rewrite_batch updated update_params
  batch_update-cases P none body fails works = fails 400 _
  batch_update-cases P (some i) none fails works = fails 400 _
  batch_update-cases P (some i) (some req) fails works =
      if_rule P (bad_name req.name) _ _ (λ _. fails 400 _)
        (λ _.
          if_rule P (bad_notes req.notes) _ _ (λ _. fails 400 _)
            (λ _. if_rule P (down update_batch_query) _ _ (λ _. fails 500 _) (λ _. labelled _ _)))
    where
      found :
          (stage : Option BatchStage) (visibility : Option Visibility) (o : Option Batch)
          → get_batch_for_user i user
              (update_batch w.now (update_params i user req stage visibility) db.batches)
            ≡ o
          → P (
              updated w down req.started_at
                (update_batch w.now (update_params i user req stage visibility) db.batches)
                o
                db)
      found stage visibility none e =
          subst (λ bs. P (record db { batches = bs }, refused 404 "not found"))
            (sym (update_batch-unfound (update_params i user req stage visibility) e)) (fails 404 _)
      found stage visibility (some batch) e = works i req stage visibility batch refl e

      labelled :
          (stage : Option (Option BatchStage)) (visibility : Option (Option Visibility))
          → P (rewrite_batch w down i user req stage visibility db)
      labelled none visibility = fails 400 _
      labelled (some stage) none = fails 400 _
      labelled (some stage) (some visibility) = found stage visibility _ refl

  -- If creating, changing or deleting a batch is answered with an error, the database is unchanged:
  -- whatever the input, and whichever queries fail.
  pub batch-ErrorKeeps :
      (id : Option ℕ) (body : Option CreateBatchRequest) (patch : Option UpdateBatchRequest)
      → ErrorKeeps db (handle_create_batch w down user body db)
        × ErrorKeeps db (handle_update_batch w down user id patch db)
        × ErrorKeeps db (handle_delete_batch w down user id db)
  unfolding store_batch updated handle_delete_batch
  batch-ErrorKeeps id body patch = (
    batch_create-cases (ErrorKeeps db) body (λ s m. refl) (λ _ _ _ _ _ _ _. tt),
    batch_update-cases (ErrorKeeps db) id patch (λ s m. refl) (λ _ _ _ _ _ _ _. tt),
    deleted id,
  )
    where
      deleted : (i : Option ℕ) → ErrorKeeps db (handle_delete_batch w down user i db)
      deleted none = refl
      deleted (some i) =
          if_rule (ErrorKeeps db) (down delete_batch_query) _ _ (λ _. refl)
            (λ _.
              if_rule (ErrorKeeps db) (any (is_batch i user) db.batches) _ _ (λ _. tt) (λ _. refl))
