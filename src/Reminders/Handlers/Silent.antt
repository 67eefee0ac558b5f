-- ===== src/Reminders/Handlers/Silent.antt =====
-- Which reminders the claims of the dispatcher leave alone: `ClaimDueReminders` of
-- internal/queries/reminders.sql.go after the handlers of internal/server/reminders.go.
use zymobrew.Base.{
  ℕ, ◌≡◌, refl, ◌∙◌, subst, ◌⊎◌, inl, inr, Bool, true, false, List, [], ◌∷◌, Option, some, Exists,
  Pointwise, HasKey, arith, find-some,
}
use zymobrew.Base.Int.{ℤ, leb_ℤ}
use zymobrew.Schema.{Reminder, completed, dismissed}
use zymobrew.Store.{refused-ne-done, done_inj, Db, done, World, Outage}
use zymobrew.Reminders.{
  UpdateReminderParams, update_reminder, owned_by, reminder_id, fire, claim_due, is_scheduled,
}
use zymobrew.Reminders.Claim.{Claimed, claim_changes, claim-HasKey}
use zymobrew.Reminders.Handlers.{UpdateReminderRequest, reminder_params, handle_update_reminder}
use zymobrew.Reminders.Handlers.Laws.{reminder_update-cases}

-- One claim: the rows that are locked, its limit, its time.
pub record ClaimStep : Type 0 where
  pub locked : ℕ → Bool
  pub limit : ℕ
  pub now : ℤ

-- The table after a run of claims.
unfoldable pub run_claims : List ClaimStep → List Reminder → List Reminder
run_claims [] rs = rs
run_claims (s ∷ steps) rs = run_claims steps (claim_due s.locked s.limit s.now rs).0

-- What a run of claims may do to a row: nothing, or fire it once it is due.
abbrev pub FiredOnce : Reminder → Reminder → Type 0
FiredOnce r r' =
    (r' ≡ r)
    ⊎ (now : ℤ) × (is_scheduled r.status ≡ true) × (leb_ℤ r.fire_at now ≡ true) × (r' ≡ fire now r)

FiredOnce-all : (rs : List Reminder) → Pointwise FiredOnce rs rs
FiredOnce-all [] = tt
FiredOnce-all (r ∷ rs) = (inl refl, FiredOnce-all rs)

module _ (locked : ℕ → Bool) (limit : ℕ) (now : ℤ) where
  FiredOnce-step : (r a b : Reminder) → Claimed locked limit now r a → FiredOnce a b → FiredOnce r b
  FiredOnce-step r a b (inl e) h = subst (λ x. FiredOnce x b) e h
  FiredOnce-step r a b (inr (due, free, e)) (inl same) =
      inr (now, ground (arith, due), ground (arith, due), same ∙ e)
  FiredOnce-step r a b (inr (due, free, e)) (inr (later, s, l, e')) =
      absurd (ground (arith, subst (λ (x : Reminder). is_scheduled x.status ≡ true) e s))

  FiredOnce-steps :
      (rs ms bs : List Reminder)
      → Pointwise (Claimed locked limit now) rs ms
      → Pointwise FiredOnce ms bs
      → Pointwise FiredOnce rs bs
  FiredOnce-steps [] [] [] h k = tt
  FiredOnce-steps [] [] (b ∷ bs) h k = absurd k
  FiredOnce-steps [] (a ∷ ms) bs h k = absurd h
  FiredOnce-steps (r ∷ rs) [] bs h k = absurd h
  FiredOnce-steps (r ∷ rs) (a ∷ ms) [] h k = absurd k
  FiredOnce-steps (r ∷ rs) (a ∷ ms) (b ∷ bs) (h, hs) (k, ks) =
      (FiredOnce-step r a b h k, FiredOnce-steps rs ms bs hs ks)

-- Through any run of claims, by whichever workers and at whichever times, each reminder stays as it
-- was, or it was scheduled and is fired at a time that is not before its own; ids are unique.
pub claims_fire_once :
    (steps : List ClaimStep) (rs : List Reminder)
    → HasKey reminder_id rs
    → Pointwise FiredOnce rs (run_claims steps rs)
unfolding run_claims
claims_fire_once [] rs k = FiredOnce-all rs
claims_fire_once (s ∷ steps) rs k =
    let after = (claim_due s.locked s.limit s.now rs).0 in
    FiredOnce-steps s.locked s.limit s.now rs after (run_claims steps after)
      (claim_changes s.locked s.limit s.now rs k)
      (claims_fire_once steps after (claim-HasKey s.locked s.limit s.now rs k))

still_there :
    (rs bs : List Reminder) (r : Reminder)
    → Pointwise FiredOnce rs bs
    → is_scheduled r.status ≡ false
    → Exists (λ x. x ≡ r) rs
    → Exists (λ x. x ≡ r) bs
still_there [] bs r h s m = absurd m
still_there (x ∷ rs) [] r h s m = absurd h
still_there (x ∷ rs) (b ∷ bs) r (inl e, hs) s (inl m) = inl (e ∙ m)
still_there (x ∷ rs) (b ∷ bs) r (inr (now, was, due, e), hs) s (inl m) =
    absurd (ground (arith, s, subst (λ (y : Reminder). is_scheduled y.status ≡ true) m was))
still_there (x ∷ rs) (b ∷ bs) r (h, hs) s (inr m) = inr (still_there rs bs r hs s m)

module _ (w : World) (down : Outage) (user : ℕ) (db : Db) where
  closed-unscheduled :
      (r : Reminder)
      → (r.status ≡ completed) ⊎ (r.status ≡ dismissed)
      → is_scheduled r.status ≡ false
  closed-unscheduled r (inl e) = rw e refl
  closed-unscheduled r (inr e) = rw e refl

  update_reminder-found :
      (p : UpdateReminderParams) {r : Reminder}
      → (update_reminder p db.reminders).1 ≡ some r
      → Exists (λ x. x ≡ r) (update_reminder p db.reminders).0
  unfolding update_reminder
  update_reminder-found p e = (find-some (owned_by p.id p.user_id) _ e).1

  -- A reminder that a user has completed or dismissed is never fired: it stays in the table as the
  -- handler answered it, through any run of claims. Reminder ids are unique.
  pub closed_silent :
      (id : Option ℕ) (body : Option UpdateReminderRequest) (r : Reminder) (steps : List ClaimStep)
      → (handle_update_reminder w down user id body db).1 ≡ done 200 r
      → (r.status ≡ completed) ⊎ (r.status ≡ dismissed)
      → HasKey reminder_id (handle_update_reminder w down user id body db).0.reminders
      → Exists
          (λ x. x ≡ r)
          (run_claims steps (handle_update_reminder w down user id body db).0.reminders)
  closed_silent id body r steps answered closed =
      let aside = closed-unscheduled r closed in
      reminder_update-cases w down user db
        (λ out.
          out.1 ≡ done 200 r
          → HasKey reminder_id out.0.reminders
          → Exists (λ x. x ≡ r) (run_claims steps out.0.reminders))
        id body (λ s m h. absurd (refused-ne-done h))
        (λ i req t status kind x _ _ _ found h k.
          let p = reminder_params w down i user req t status kind in
          let same : x ≡ r = done_inj h in
          still_there (update_reminder p db.reminders).0
            (run_claims steps (update_reminder p db.reminders).0) r
            (claims_fire_once steps (update_reminder p db.reminders).0 k) aside
            (subst (λ y. Exists (λ z. z ≡ y) (update_reminder p db.reminders).0) same
              (update_reminder-found p found)))
        answered
