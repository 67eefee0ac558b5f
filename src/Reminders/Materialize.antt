-- ===== src/Reminders/Materialize.antt =====
-- What materializeTemplates (internal/server/batches.go) brings about: the re-anchoring query and the
-- query that creates the missing reminders.
use zymobrew.Base.{
  ℕ, ◌≡◌, ◌∙◌, ◌⊎◌, inl, inr, true, false, List, append-nil, map, arith, select, any, All, All-of,
  Exists, Bool-cases, Option-cases, any-append, any-map, any-select, any_of_Exists, Exists-self,
  Exists-map_of, All-map_of, Pointwise, Pointwise-map, select_none,
}
use zymobrew.Base.Int.{ℤ}
use zymobrew.Schema.{Reminder, Template, is_id}
use zymobrew.Reminders.{
  is_scheduled, MaterializeParams, applies, stands_for, new_reminder, is_missing, materialize,
  joined, reanchor_row, reanchor,
}

abbrev pub template_id : Template → ℕ
template_id t = t.id

abbrev pub Rescheduled : MaterializeParams → Reminder → Reminder → Type 0
Rescheduled p r r' =
    (r' ≡ record r { fire_at = r'.fire_at })
    × ((r' ≡ r) ⊎ (is_scheduled r.status ≡ true) × (is_id p.batch_id r.batch_id ≡ true))

module _ (p : MaterializeParams) (ts : List Template) where
  reanchor_row-Rescheduled : (r : Reminder) → Rescheduled p r (reanchor_row p ts r)
  unfolding reanchor_row joined
  reanchor_row-Rescheduled r = ground arith

  -- Re-anchoring moves only scheduled reminders of the batch, and changes nothing of them but the
  -- time at which they fire.
  pub reanchor_changes : (rs : List Reminder) → Pointwise (Rescheduled p) rs (reanchor p ts rs)
  unfolding reanchor
  reanchor_changes rs =
      Pointwise-map (Rescheduled p) (reanchor_row p ts) rs (All-of _ reanchor_row-Rescheduled rs)

  -- Whether a reminder stands for a template does not change.
  stands_for-reanchor_row :
      (b t : ℕ) (r : Reminder) → stands_for b t (reanchor_row p ts r) ≡ stands_for b t r
  unfolding reanchor_row
  stands_for-reanchor_row b t r = elim (Option-cases (joined p ts r)) [
    | inl e ↦ rw (e, reanchor_row)
    | inr (u, e) ↦ rw (e, reanchor_row)
  ]

  module _ (new_id : ℕ → ℕ) (now : ℤ) where
    new_stands_for :
        (t : Template) → stands_for p.batch_id t.id (new_reminder new_id now p t) ≡ true
    unfolding new_reminder
    new_stands_for t = ground arith

    covers_one :
        (rs : List Reminder) (t : Template)
        → Exists (λ u. u ≡ t) ts
        → applies p t ≡ true
        → any (stands_for p.batch_id t.id) (materialize new_id now p ts rs) ≡ true
    unfolding materialize
    covers_one rs t m a = elim (Bool-cases (any (stands_for p.batch_id t.id) rs)) [
      | inl e ↦ any-append _ rs _ ∙ rw e
      | inr e ↦ any-append _ rs _ ∙ rw (e, created e)
    ]
      where
        created :
            any (stands_for p.batch_id t.id) rs ≡ false
            → any
                (stands_for p.batch_id t.id)
                (map (new_reminder new_id now p) (select (is_missing p rs) ts))
              ≡ true
        created e =
            any-map (stands_for p.batch_id t.id) (new_reminder new_id now p) _
            ∙ any-select (λ u. stands_for p.batch_id t.id (new_reminder new_id now p u))
                (is_missing p rs) ts
            ∙ any_of_Exists _ ts (Exists-map_of (λ u same. rw (same, a, e, new_stands_for t)) ts m)

    -- After the query each template of the recipe with this anchor has a reminder of the batch that
    -- is neither cancelled nor dismissed.
    pub materialize-covers :
        (rs : List Reminder)
        → All
            (λ t.
              applies p t ≡ true
              → any (stands_for p.batch_id t.id) (materialize new_id now p ts rs) ≡ true)
            ts
    materialize-covers rs = All-map_of (λ t m a. covers_one rs t m a) ts (Exists-self ts)

    pub materialize_none :
        (rs : List Reminder)
        → All (λ t. applies p t ≡ true → any (stands_for p.batch_id t.id) rs ≡ true) ts
        → materialize new_id now p ts rs ≡ rs
    unfolding materialize
    materialize_none rs covered =
        rw (select_none (is_missing p rs) ts (All-map_of (λ t h. ground arith) ts covered))
          (append-nil rs)

    -- Running the query that creates the missing reminders again creates nothing.
    pub materialize_idem :
        (rs : List Reminder)
        → materialize new_id now p ts (materialize new_id now p ts rs)
          ≡ materialize new_id now p ts rs
    materialize_idem rs = materialize_none _ (materialize-covers rs)
