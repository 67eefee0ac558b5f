-- ===== src/Batches/Stage.antt =====
-- The stage of a batch only moves forward by events: maybeAdvanceStage of internal/server/batches.go.
use zymobrew.Base.{
  ◌<◌, ◌≡◌, refl, ◌⊎◌, inl, inr, List, [], ◌∷◌, arith, leb, ==_iff, if◌then◌else◌, Exists,
  Bool-cases, Option-cases, and_left, Pointwise, Pointwise-map, update-map, HasKey, key_unique,
  Exists-self, All-map_of,
}
use zymobrew.Base.Int.{ℤ}
use zymobrew.Schema.{Batch, BatchStage, EventKind}
use zymobrew.Store.{Db, World, Outage, update_batch_query}
use zymobrew.Batches.{
  is_batch, batch_id, patch_batch, update_batch, stage_rank, stage_for_event, advance_params,
  advance_to, maybe_advance_stage,
}

-- What an event may do to a batch: nothing, or move it to a later stage, with its modification time
-- and perhaps the time of bottling, and no other column.
abbrev pub Forward : Batch → Batch → Type 0
Forward b b' =
    (b' ≡ b)
    ⊎ (stage_rank b.stage < stage_rank b'.stage)
      × (b' ≡ record b { stage = b'.stage; bottled_at = b'.bottled_at; updated_at = b'.updated_at })

pub Forward-all : (bs : List Batch) → Pointwise Forward bs bs
Forward-all [] = tt
Forward-all (b ∷ bs) = (inl refl, Forward-all bs)

module _ (w : World) (down : Outage) where
  advance_row :
      (batch b : Batch) (target : BatchStage) (t : ℤ)
      → (batch_id b ≡ batch_id batch → b ≡ batch)
      → stage_rank batch.stage < stage_rank target
      → Forward b (
          if is_batch batch.id batch.brewer_id b
          then patch_batch w.now (advance_params batch target t) b
          else b)
  unfolding patch_batch advance_params
  advance_row batch b target t same h = elim (Bool-cases (is_batch batch.id batch.brewer_id b)) [
    | inr e ↦ inl (rw e)
    | inl e ↦
        let here : b ≡ batch = same ((==_iff _ _).0 (and_left _ _ e)) in
        inr (rw e (rw here h), rw e)
  ]

  advance-Forward :
      (batch : Batch) (target : BatchStage) (t : ℤ) (db : Db)
      → HasKey batch_id db.batches
      → Exists (λ b. b ≡ batch) db.batches
      → Pointwise Forward db.batches (advance_to w down batch target t db).batches
  unfolding advance_to update_batch
  advance-Forward batch target t db k m =
      elim (Bool-cases (leb (stage_rank target) (stage_rank batch.stage))) [
        | inl e ↦ rw (e, advance_to) (Forward-all db.batches)
        | inr e ↦ elim (Bool-cases (down update_batch_query)) [
          | inl d ↦ rw (e, d) (Forward-all db.batches)
          | inr d ↦
              rw (e, d)
                (rw update-map (
                  Pointwise-map Forward _ db.batches (
                    All-map_of
                      (λ b n.
                        advance_row batch b target t
                          (λ same. key_unique batch_id db.batches b batch k n m same)
                          (ground arith))
                      db.batches (Exists-self db.batches))))
        ]
      ]

  pub maybe_advance-Forward :
      (batch : Batch) (kind : EventKind) (t : ℤ) (db : Db)
      → HasKey batch_id db.batches
      → Exists (λ b. b ≡ batch) db.batches
      → Pointwise Forward db.batches (maybe_advance_stage w down batch kind t db).batches
  unfolding maybe_advance_stage
  maybe_advance-Forward batch kind t db k m = elim (Option-cases (stage_for_event kind)) [
    | inl e ↦ rw (e, maybe_advance_stage) (Forward-all db.batches)
    | inr (target, e) ↦ rw (e, maybe_advance_stage) (advance-Forward batch target t db k m)
  ]
