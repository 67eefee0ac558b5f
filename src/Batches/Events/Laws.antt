-- ===== src/Batches/Events/Laws.antt =====
-- What the event handlers guarantee: a batch only moves forward, an error changes nothing, and only
-- the batch's owner gets past the first query.
use Prim.Native.String.{String}
use zymobrew.Base.{
  find, update, update-unfound, ℕ, ◌≡◌, refl, sym, subst, if_rule, Bytes, inl, inr, List, Option,
  none, some, arith, Bool-cases, Option-cases, Pointwise, HasKey, Exists, find-some, is_empty,
}
use zymobrew.Schema.{Batch, EventKind}
use zymobrew.Schema.Labels.{event_kind_of}
use zymobrew.Store.{
  BatchEvent, Db, Reply, done, refused, World, Outage, get_batch_query, create_event_query,
  update_event_query,
}
use zymobrew.Batches.{batch_id, is_batch, get_batch_for_user, materialize_templates}
use zymobrew.Batches.Stage.{Forward, maybe_advance-Forward}
use zymobrew.Batches.Events.{
  is_event, patch_event, CreateEventRequest, UpdateEventRequest, bad_details, new_event,
  anchor_reminders, follow_up, store_event, insert_event, with_batch, handle_create_batch_event,
  returned, rewrite_event, cast_kind, bad_patch, handle_update_batch_event,
}

-- A response that is an error leaves the database as it was.
abbrev pub ErrorKeeps : {A : Type 0} → Db → Db × Reply A → Type 0
ErrorKeeps db (db', done s a) = Unit
ErrorKeeps db (db', refused s m) = db' ≡ db

-- What the load of a batch returns is a row of the table.
pub get_batch-Exists :
    (id user : ℕ) (bs : List Batch) {batch : Batch}
    → get_batch_for_user id user bs ≡ some batch
    → Exists (λ b. b ≡ batch) bs
unfolding get_batch_for_user
get_batch-Exists id user bs found = (find-some (is_batch id user) bs found).1

module _ (w : World) (down : Outage) where
  pub anchor_reminders-batches :
      (batch : Batch) (e : BatchEvent) (db : Db)
      → (anchor_reminders w down batch e db).batches ≡ db.batches
  unfolding anchor_reminders materialize_templates
  anchor_reminders-batches batch e db = ground arith

  -- The database of an outcome, batch by batch no further back than before.
  abbrev Onward : List Batch → Db × Reply BatchEvent → Type 0
  Onward bs out = Pointwise Forward bs out.0.batches

  pub follow_up-Forward :
      (batch : Batch) (e : BatchEvent) (db : Db)
      → HasKey batch_id db.batches
      → Exists (λ b. b ≡ batch) db.batches
      → Pointwise Forward db.batches (follow_up w down batch e db).batches
  unfolding follow_up
  follow_up-Forward batch e db k m =
      let same = anchor_reminders-batches batch e db in
      subst (λ bs. Pointwise Forward bs (follow_up w down batch e db).batches) same
        (maybe_advance-Forward w down batch e.kind e.occurred_at
          (anchor_reminders w down batch e db) (subst (HasKey batch_id) (sym same) k)
          (subst (Exists (λ b. b ≡ batch)) (sym same) m))

  with_batch-found :
      (user id : ℕ) (db : Db) (next : Batch → Db × Reply BatchEvent)
      (P : Db × Reply BatchEvent → Type 0)
      → ((s : ℕ) (m : String) → P (db, refused s m))
      → ((batch : Batch) → get_batch_for_user id user db.batches ≡ some batch → P (next batch))
      → P (with_batch w down user id db next)
  unfolding with_batch
  with_batch-found user id db next P fails works = elim (Bool-cases (down get_batch_query)) [
    | inl d ↦ rw d (fails 500 _)
    | inr d ↦ elim (Option-cases (get_batch_for_user id user db.batches)) [
      | inl e ↦ rw (d, e, with_batch) (fails 404 _)
      | inr (batch, e) ↦ rw (d, e, with_batch) (works batch e)
    ]
  ]

  -- How the creation of an event ends: in a refusal that changes nothing, or with the event stored
  -- in a batch of the user's and followed up.
  pub create-cases :
      (P : Db × Reply BatchEvent → Type 0) (user : ℕ) (id : Option ℕ)
      (body : Option CreateEventRequest) (db : Db)
      → ((s : ℕ) (m : String) → P (db, refused s m))
      → ((i : ℕ) (batch : Batch) (req : CreateEventRequest) (kind : EventKind)
          → id ≡ some i
          → get_batch_for_user i user db.batches ≡ some batch
          → body ≡ some req
          → event_kind_of req.kind ≡ some kind
          → P (store_event w down batch (new_event w i req kind) db))
      → P (handle_create_batch_event w down user id body db)
  unfolding handle_create_batch_event insert_event
  create-cases P user none body db fails works = fails 400 _
  create-cases P user (some i) none db fails works =
      with_batch-found user i db _ P fails (λ batch found. fails 400 _)
  create-cases P user (some i) (some req) db fails works =
      with_batch-found user i db _ P fails (λ batch found.
        if_rule P (is_empty req.kind) _ _ (λ _. fails 400 _)
          (λ _.
            if_rule P (bad_details w req.details) _ _ (λ _. fails 400 _)
              (λ _.
                if_rule P (down create_event_query) _ _ (λ _. fails 500 _)
                  (λ _. inserted batch found (event_kind_of req.kind) refl))))
    where
      inserted :
          (batch : Batch)
          → get_batch_for_user i user db.batches ≡ some batch
          → (o : Option EventKind) → event_kind_of req.kind ≡ o
          → P (insert_event w down batch i req o db)
      inserted batch found none e = fails 400 _
      inserted batch found (some kind) e = works i batch req kind refl found refl e

  -- How the change of an event ends: in a refusal that changes nothing, or with one event of a batch
  -- of the user's rewritten and followed up.
  pub update-cases :
      (P : Db × Reply BatchEvent → Type 0) (user : ℕ) (id event : Option ℕ)
      (body : Option UpdateEventRequest) (db : Db)
      → ((s : ℕ) (m : String) → P (db, refused s m))
      → ((i : ℕ) (batch : Batch) (events : List BatchEvent) (e : BatchEvent)
          → get_batch_for_user i user db.batches ≡ some batch
          → P (follow_up w down batch e (record db { events = events }), done 200 e))
      → P (handle_update_batch_event w down user id event body db)
  unfolding handle_update_batch_event patch_event
  update-cases P user none event body db fails works = fails 400 _
  update-cases P user (some i) none body db fails works = fails 400 _
  update-cases P user (some i) (some event) none db fails works =
      with_batch-found user i db _ P fails (λ batch found. fails 400 _)
  update-cases P user (some i) (some event) (some req) db fails works =
      with_batch-found user i db _ P fails (λ batch found.
        if_rule P (bad_patch w down req.details) _ _ (λ _. fails 400 _)
          (λ _.
            if_rule P (down update_event_query) _ _ (λ _. fails 500 _)
              (λ _. cast batch found req.kind)))
    where
      back :
          (batch : Batch)
          → get_batch_for_user i user db.batches ≡ some batch
          → (kind : Option EventKind) (o : Option BatchEvent)
          → find (is_event event i) (update (is_event event i) (patch_event req kind) db.events) ≡ o
          → P (
              returned w down batch
                (update (is_event event i) (patch_event req kind) db.events)
                o
                db)
      back batch found kind none h =
          subst (λ es. P (record db { events = es }, refused 404 "not found"))
            (sym (update-unfound (is_event event i) (patch_event req kind) (λ e k. k) db.events h))
            (fails 404 _)
      back batch found kind (some e) h =
          works i batch (update (is_event event i) (patch_event req kind) db.events) e found

      typed :
          (batch : Batch)
          → get_batch_for_user i user db.batches ≡ some batch
          → Bytes
          → (o : Option EventKind)
          → P (elim o [
            | none ↦ (db, refused 400 "invalid kind value")
            | some kind ↦ rewrite_event w down batch i event req (some kind) db
          ])
      typed batch found text none = fails 400 _
      typed batch found text (some kind) = back batch found (some kind) _ refl

      cast :
          (batch : Batch)
          → get_batch_for_user i user db.batches ≡ some batch
          → (o : Option Bytes) → P (cast_kind w down batch i event req o db)
      cast batch found none = back batch found none _ refl
      cast batch found (some text) = typed batch found text (event_kind_of text)
