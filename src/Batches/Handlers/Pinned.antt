-- ===== src/Batches/Handlers/Pinned.antt =====
-- What a stored batch is pinned to, and the reminders that its start anchors: handleCreateBatch and
-- handleUpdateBatch of internal/server/batches.go.
use Prim.Native.String.{String}
use zymobrew.Base.{
  ℕ, ◌≡◌, subst, refl, sym, ◌⊎◌, inl, inr, false, ◌&&◌, not, List, Option, none, some, find, Exists,
  HasKey, ◌==◌, arith, Bool-cases, Option-cases, find-some,
}
use zymobrew.Base.Int.{ℤ}
use zymobrew.Schema.{Batch, Recipe, ReminderAnchor, batch_start, is_private}
use zymobrew.Store.{
  refused-ne-done, Db, done, World, Outage, get_recipe_query, reanchor_query, materialize_query,
}
use zymobrew.Reminders.{reanchor}
use zymobrew.Reminders.Materialize.{template_id, materialize-covers}
use zymobrew.Reminders.Idempotent.{settled-IsAnchored}
use zymobrew.Batches.{
  update_batch, template_params, materialize_templates, run_reanchor, run_materialize,
}
use zymobrew.Batches.Events.Outcomes.{Settled}
use zymobrew.Batches.Handlers.{
  CreateBatchRequest, UpdateBatchRequest, Pin, pinned, unpinned, is_recipe, new_batch, pin_found,
  pin_recipe, update_params, start_reminders, restart_reminders, store_batch, updated,
  handle_create_batch, handle_update_batch,
}
use zymobrew.Batches.Handlers.Laws.{batch_create-cases, batch_update-cases}

-- A recipe that the user may brew from: not somebody else's private one.
abbrev pub IsOpenTo : ℕ → Recipe → Type 0
IsOpenTo user r = (is_private r.visibility ≡ false) ⊎ (r.author_id ≡ user)

-- A batch belongs to the user and follows no recipe, or one that the user may brew from, at the
-- revision that is current.
abbrev pub IsPinned : ℕ → List Recipe → Batch → Type 0
IsPinned user recipes b =
    (b.brewer_id ≡ user)
    × ((b.recipe_id ≡ none) × (b.recipe_revision_id ≡ none)
        ⊎ (r : Recipe) × Exists (λ x. x ≡ r) recipes
          × (b.recipe_id ≡ some r.id)
          × (b.recipe_revision_id ≡ r.current_revision_id)
          × IsOpenTo user r)

module _ (w : World) (down : Outage) (user : ℕ) where
  pinned-parts : {a b c d : Option ℕ} → ◌≡◌ {A = Pin} (pinned a b) (pinned c d) → (a ≡ c) × (b ≡ d)
  pinned-parts e = (cc, cc)

  refused-pinned :
      {s : ℕ} {m : String} {a b : Option ℕ} → ◌≡◌ {A = Pin} (unpinned s m) (pinned a b) → ⊥
  refused-pinned e = cc

  pin_found-open :
      (r : Recipe) {recipe revision : Option ℕ}
      → pin_found w down user (some r) ≡ pinned recipe revision
      → (recipe ≡ some r.id) × (revision ≡ r.current_revision_id) × IsOpenTo user r
  unfolding pin_found
  pin_found-open r e = elim (Bool-cases (is_private r.visibility && not (r.author_id == user))) [
    | inl h ↦ absurd (refused-pinned (rw (h, pin_found) at e))
    | inr h ↦
        let parts = pinned-parts (rw (h, pin_found) at e) in (sym parts.0, sym parts.1, opened h)
  ]
    where
      opened : (is_private r.visibility && not (r.author_id == user)) ≡ false → IsOpenTo user r
      opened h = elim (Bool-cases (is_private r.visibility)) [
        | inr p ↦ inl p
        | inl p ↦ inr (ground (arith, h, p))
      ]

  pin_recipe-open :
      (asked : Option (Option ℕ)) (recipes : List Recipe) {recipe revision : Option ℕ}
      → pin_recipe w down user asked recipes ≡ pinned recipe revision
      → (recipe ≡ none) × (revision ≡ none)
        ⊎ (r : Recipe) × Exists (λ x. x ≡ r) recipes
          × (recipe ≡ some r.id)
          × (revision ≡ r.current_revision_id)
          × IsOpenTo user r
  unfolding pin_recipe
  pin_recipe-open none recipes e = inl (sym (pinned-parts e).0, sym (pinned-parts e).1)
  pin_recipe-open (some none) recipes e = absurd (refused-pinned e)
  pin_recipe-open (some (some id)) recipes e = elim (Bool-cases (down get_recipe_query)) [
    | inl d ↦ absurd (refused-pinned (rw (d, pin_recipe) at e))
    | inr d ↦ elim (Option-cases (find (is_recipe id) recipes)) [
      | inl f ↦ absurd (refused-pinned (rw (d, f, pin_recipe) at e))
      | inr (r, f) ↦
          let (recipe, revision, allowed) = pin_found-open r (rw (d, f, pin_recipe) at e) in
          inr (r, (find-some (is_recipe id) recipes f).1, recipe, revision, allowed)
    ]
  ]

  -- Whatever is sent, a batch that is created belongs to the user and follows no recipe, or one
  -- that exists and is not another author's private one, pinned at its current revision.
  pub created-IsPinned :
      (db : Db) (body : Option CreateBatchRequest) (batch : Batch)
      → (handle_create_batch w down user body db).1 ≡ done 201 batch
      → IsPinned user db.recipes batch
  unfolding store_batch new_batch
  created-IsPinned db body batch =
      batch_create-cases w down user db
        (λ out. out.1 ≡ done 201 batch → IsPinned user db.recipes batch) body
        (λ s m h. absurd (refused-ne-done h))
        (λ req recipe revision stage visibility _ e h.
          stored (new_batch w user req recipe revision stage visibility) h
            (refl, pin_recipe-open req.recipe_id db.recipes e))
    where
      stored :
          (b : Batch)
          → (store_batch w down b db).1 ≡ done 201 batch
          → IsPinned user db.recipes b
          → IsPinned user db.recipes batch
      stored b h p = rw (unstored b h) p
        where
          unstored : (x : Batch) → (store_batch w down x db).1 ≡ done 201 batch → batch ≡ x
          unstored x h = unfold store_batch in cc h

  module _ (db : Db) (k : HasKey template_id db.templates) (dr : down reanchor_query ≡ false)
      (dm : down materialize_query ≡ false) where
    materialize_templates-Settled :
        (batch : Batch) (recipe : ℕ) (anchor : ReminderAnchor) (t : ℤ) (before : Db)
        → before.templates ≡ db.templates
        → batch.recipe_id ≡ some recipe
        → Settled w down user db
            (template_params batch recipe anchor t)
            (materialize_templates w down batch anchor t before)
    unfolding materialize_templates run_reanchor run_materialize
    materialize_templates-Settled batch recipe anchor t before same hr =
        let p = template_params batch recipe anchor t in
        rw (hr, materialize_templates)
          (rw (dr, dm, same)
            (
              materialize-covers p db.templates w.new_reminder_id w.now
                  (reanchor p db.templates before.reminders),
              settled-IsAnchored p db.templates k w.new_reminder_id w.now before.reminders,
            ))

    start_given :
        (b : Batch) (t : Option ℤ) (start : ℤ) (before : Db)
        → t ≡ some start
        → start_reminders w down b t before
          ≡ materialize_templates w down b batch_start start before
    unfolding start_reminders
    start_given b none start before e = cc
    start_given b (some t) start before e = ground (arith, e)

    restart_given :
        (b : Batch) (asked : Option ℤ) (given start : ℤ) (before : Db)
        → asked ≡ some given
        → b.started_at ≡ some start
        → restart_reminders w down asked b before
          ≡ materialize_templates w down b batch_start start before
    unfolding restart_reminders
    restart_given b none given start before e hs = cc
    restart_given b (some t) given start before e hs = start_given b b.started_at start before hs

    -- Where a change of a batch of a recipe that gives the time at which it starts succeeds and
    -- the two reminder queries do not fail, each template that the start anchors has a reminder
    -- that is neither cancelled nor dismissed, and the scheduled ones fire when their templates
    -- say, counted from the new start. Template ids are unique.
    pub restart_settles :
        (id : Option ℕ) (req : UpdateBatchRequest) (batch : Batch) (recipe : ℕ) (given start : ℤ)
        → req.started_at ≡ some given
        → batch.started_at ≡ some start
        → batch.recipe_id ≡ some recipe
        → (handle_update_batch w down user id (some req) db).1 ≡ done 200 batch
        → Settled w down user db
            (template_params batch recipe batch_start start)
            (handle_update_batch w down user id (some req) db).0
    unfolding updated
    restart_settles id req batch recipe given start hg hs hr =
        batch_update-cases w down user db
          (λ out.
            out.1 ≡ done 200 batch
            → Settled w down user db (template_params batch recipe batch_start start) out.0)
          id (some req) (λ s m h. absurd (refused-ne-done h))
          (λ i asked stage visibility found same _ h.
            let asking : asked ≡ req = ground arith in
            let here : found ≡ batch = ground (arith, h) in
            rw (asking, here)
              (subst (Settled w down user db (template_params batch recipe batch_start start))
                (sym (restart_given batch req.started_at given start _ hg hs))
                (materialize_templates-Settled batch recipe batch_start start
                  (record db {
                    batches =
                        update_batch w.now (update_params i user req stage visibility) db.batches;
                  })
                  refl hr)))
