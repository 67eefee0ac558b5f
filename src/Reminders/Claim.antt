-- ===== src/Reminders/Claim.antt =====
-- What `ClaimDueReminders` (internal/queries/reminders.sql.go) does to the table.
use zymobrew.Base.{
  All-both, All-of, ap, Exists-map_of, ==_refl, ℕ, ◌≤◌, ◌≡◌, refl, sym, ◌∙◌, ◌⊎◌, inl, inr, Bool,
  true, false, ◌&&◌, not, List, [], map, arith, length, take, select, any, All, Exists, Bool-cases,
  if◌then◌else◌, ◌==◌, any-map, any-take, any-select, any_of_Exists, take_all, Exists-self,
  All-map_of, Pointwise, Pointwise-map, update-map, select_none, All-map, All-select_of, HasKey,
  key_row, HasKey-map,
}
use zymobrew.Base.Int.{ℤ}
use zymobrew.Page.Order.{oldest_first}
use zymobrew.Page.Listing.{sort_rows}
use zymobrew.Page.Listing.Sorted.{any-sort_rows, length-sort_rows}
use zymobrew.Schema.{Reminder, fired}
use zymobrew.Reminders.{is_due, due_key, reminder_id, has_id, due_ids, fire, claim_due}

module _ (locked : ℕ → Bool) (limit : ℕ) (now : ℤ) where
  abbrev pub free : Reminder → Bool
  free r = is_due now r && not (locked r.id)

  abbrev claim_row : List Reminder → Reminder → Reminder
  claim_row rs r = if has_id (due_ids locked limit now rs) r.id then fire now r else r

  claim_map : (rs : List Reminder) → (claim_due locked limit now rs).0 ≡ map (claim_row rs) rs
  unfolding claim_due
  claim_map rs = update-map (λ r. has_id (due_ids locked limit now rs) r.id) (fire now) rs

  due_ids_found :
      (rs : List Reminder) (i : ℕ)
      → has_id (due_ids locked limit now rs) i ≡ true
      → any (λ r. free r && r.id == i) rs ≡ true
  unfolding due_ids
  due_ids_found rs i h =
      let test = λ (r : Reminder). r.id == i in
      sym (any-select test free rs)
      ∙ sym (any-sort_rows oldest_first due_key test (select free rs))
      ∙ any-take test limit (sort_rows oldest_first due_key (select free rs))
          (sym (any-map (λ j. j == i) reminder_id _) ∙ h)

  -- Only a due reminder that no other worker has locked is claimed.
  due_ids-free :
      (rs : List Reminder)
      → HasKey reminder_id rs
      → All (λ r. has_id (due_ids locked limit now rs) r.id ≡ true → free r ≡ true) rs
  due_ids-free rs k =
      All-map_of (λ r m h. key_row reminder_id free rs r k m (due_ids_found rs r.id h)) rs
        (Exists-self rs)

  -- With room for all of them, every such reminder is claimed.
  free-due_ids :
      (rs : List Reminder) (r : Reminder)
      → length (select free rs) ≤ limit
      → Exists (λ y. y ≡ r) rs
      → free r ≡ true
      → has_id (due_ids locked limit now rs) r.id ≡ true
  unfolding due_ids
  free-due_ids rs r room m h =
      let test = λ (x : Reminder). x.id == r.id in
      let sorted = sort_rows oldest_first due_key (select free rs) in
      any-map (λ j. j == r.id) reminder_id (take limit sorted)
      ∙ ap (any test)
          (take_all limit sorted (rw (length-sort_rows oldest_first due_key (select free rs)) room))
      ∙ any-sort_rows oldest_first due_key test (select free rs)
      ∙ any-select test free rs
      ∙ any_of_Exists (λ x. free x && x.id == r.id) rs
          (Exists-map_of (λ x e. rw (e, h) (==_refl r.id)) rs m)

  pub claim-HasKey :
      (rs : List Reminder)
      → HasKey reminder_id rs
      → HasKey reminder_id (claim_due locked limit now rs).0
  claim-HasKey rs k = rw claim_map (HasKey-map reminder_id (claim_row rs) (λ r. ground arith) rs k)

  -- How a claim may change one row: not at all, or it fires a due and unlocked reminder.
  abbrev pub Claimed : Reminder → Reminder → Type 0
  Claimed r r' = (r' ≡ r) ⊎ (is_due now r ≡ true) × (locked r.id ≡ false) × (r' ≡ fire now r)

  claim_row-Claimed :
      (rs : List Reminder) (r : Reminder)
      → (has_id (due_ids locked limit now rs) r.id ≡ true → free r ≡ true)
      → Claimed r (claim_row rs r)
  claim_row-Claimed rs r found = elim (Bool-cases (has_id (due_ids locked limit now rs) r.id)) [
    | inr e ↦ inl (rw e)
    | inl e ↦ inr (ground (arith, found e), ground (arith, found e), rw e)
  ]

  -- A claim leaves every row as it was, but for due reminders that no other worker has locked, whose
  -- status becomes `fired` with the current time; ids are unique.
  pub claim_changes :
      (rs : List Reminder)
      → HasKey reminder_id rs
      → Pointwise Claimed rs (claim_due locked limit now rs).0
  claim_changes rs k = rw claim_map (
      Pointwise-map Claimed (claim_row rs) rs
        (All-map_of (λ r. claim_row-Claimed rs r) rs (due_ids-free rs k)))

  -- If no more reminders are due than the limit, a claim leaves none due at that time, except those
  -- that other workers have locked; ids are unique.
  pub claim_exhausts :
      (rs : List Reminder)
      → HasKey reminder_id rs
      → length (select free rs) ≤ limit
      → select free (claim_due locked limit now rs).0 ≡ []
  claim_exhausts rs k room = rw claim_map (
      select_none free _ (
        All-map (λ r. free r ≡ false) (claim_row rs) rs
          (All-map_of (λ r m. done r (free-due_ids rs r room m)) rs (Exists-self rs))))
    where
      done :
          (r : Reminder)
          → (free r ≡ true → has_id (due_ids locked limit now rs) r.id ≡ true)
          → free (claim_row rs r) ≡ false
      done r found = elim (Bool-cases (free r)) [ inl e ↦ rw (found e) | inr e ↦ ground arith ]

  claimed-fired :
      (rs : List Reminder)
      → All
          (λ r. (has_id (due_ids locked limit now rs) r.id ≡ true) → r.status ≡ fired)
          (claim_due locked limit now rs).0
  claimed-fired rs = rw claim_map (
      All-map (λ r. (has_id (due_ids locked limit now rs) r.id ≡ true) → r.status ≡ fired)
        (claim_row rs) rs (All-of _ (λ r. ground arith) rs))

  claimed_rows :
      (rs : List Reminder)
      → (claim_due locked limit now rs).1
        ≡ select (λ r. has_id (due_ids locked limit now rs) r.id) (claim_due locked limit now rs).0
  unfolding claim_due
  claimed_rows rs = refl

  -- Every claimed row carries the status `fired`.
  pub claim-All_fired :
      (rs : List Reminder) → All (λ r. r.status ≡ fired) (claim_due locked limit now rs).1
  claim-All_fired rs =
      rw claimed_rows (All-select_of (λ r. r.status ≡ fired) _ _ (claimed-fired rs))

module _ (locked later_locked : ℕ → Bool) (limit later_limit : ℕ) (now later : ℤ) where
  not_again :
      (ids next : List ℕ) (r : Reminder)
      → (has_id ids r.id ≡ true → r.status ≡ fired)
      → (has_id next r.id ≡ true → (is_due later r && not (later_locked r.id)) ≡ true)
      → has_id ids r.id ≡ true
      → has_id next r.id ≡ false
  not_again ids next r was is h = elim (Bool-cases (has_id next r.id)) [
    | inr e ↦ e
    | inl e ↦ absurd (ground (arith, was h, is e))
  ]

  -- A reminder is claimed at most once: no row of a claim is chosen by a claim that follows it, by
  -- whichever worker, at whichever time; ids are unique.
  pub claim_once :
      (rs : List Reminder)
      → HasKey reminder_id rs
      → All
          (λ r.
            has_id (due_ids later_locked later_limit later (claim_due locked limit now rs).0) r.id
            ≡ false)
          (claim_due locked limit now rs).1
  claim_once rs k =
      let after = (claim_due locked limit now rs).0 in
      let ids = due_ids locked limit now rs in
      let next = due_ids later_locked later_limit later after in
      rw (claimed_rows locked limit now rs) (
        All-select_of (λ r. has_id next r.id ≡ false) (λ r. has_id ids r.id) after
          (All-map_of (λ r h. not_again ids next r h.0 h.1) after
            (All-both _ _ after (claimed-fired locked limit now rs) (
              due_ids-free later_locked later_limit later after
                (claim-HasKey locked limit now rs k)))))
