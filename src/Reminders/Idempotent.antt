-- ===== src/Reminders/Idempotent.antt =====
-- Re-anchoring followed by materialization, as materializeTemplates (internal/server/batches.go) runs
-- them: afterwards every scheduled reminder is where its template says, and a second run changes
-- nothing.
use zymobrew.Base.{
  ℕ, ◌≡◌, refl, sym, ap, ◌∙◌, inl, inr, Bool, true, ◌&&◌, List, [], ◌∷◌, Option, none, some, arith,
  find, All, All-of, All-append, Exists, Bool-cases, Option-cases, Exists-self, All-map_of, All-map,
  HasKey, key_unique, find-some, and_left, and_right, and_true, All_at, none-ne-some,
  find_of_Exists, All-select_of,
}
use zymobrew.Base.Int.{ℤ}
use zymobrew.Schema.{Reminder, Template, is_id}
use zymobrew.Reminders.{
  is_scheduled, MaterializeParams, due_at, applies, new_reminder, is_missing, materialize, joined,
  reanchor_row, reanchor,
}
use zymobrew.Reminders.Materialize.{template_id, materialize-covers, materialize_none}

module _ (p : MaterializeParams) (ts : List Template) where
  -- The reminders that the anchor governs: scheduled ones of the batch, by the template's id.
  abbrev pub governed : Template → Reminder → Bool
  governed t r = (is_id p.batch_id r.batch_id && is_scheduled r.status) && is_id t.id r.template_id

  -- A governed reminder fires when its template says, counted from the anchor.
  abbrev pub IsAnchored : Reminder → Type 0
  IsAnchored r = All (λ t. applies p t ≡ true → governed t r ≡ true → r.fire_at ≡ due_at p t) ts

module _ (p : MaterializeParams) (ts : List Template) (k : HasKey template_id ts) where
  same_id : (a b : ℕ) (o : Option ℕ) → is_id a o ≡ true → is_id b o ≡ true → a ≡ b
  same_id a b none h h' = cc
  same_id a b (some n) h h' = ground arith

  -- What the join of the query looks for.
  abbrev wanted : Reminder → Template → Bool
  wanted r u = applies p u && is_id u.id r.template_id

  joined-find :
      (r : Reminder) (t : Template) {u : Template}
      → governed p ts t r ≡ true
      → find (wanted r) ts ≡ some u
      → joined p ts r ≡ some u
  unfolding joined
  joined-find r t g found =
      let moves : (is_id p.batch_id r.batch_id && is_scheduled r.status) ≡ true = and_left _ _ g in
      rw moves found

  joined_template :
      (r : Reminder) (t : Template)
      → Exists (λ u. u ≡ t) ts
      → applies p t ≡ true
      → governed p ts t r ≡ true
      → joined p ts r ≡ some t
  joined_template r t m a g =
      let (u, found) = find_of_Exists (wanted r) ts t m (and_true a (and_right _ _ g)) in
      let (passes, there) = find-some (wanted r) ts found in
      let same =
        key_unique template_id ts u t k there m
          (same_id u.id t.id r.template_id (and_right _ _ passes) (and_right _ _ g)) in
      joined-find r t g found ∙ ap some same

  anchored_at :
      (r : Reminder) (t : Template)
      → Exists (λ u. u ≡ t) ts
      → applies p t ≡ true
      → governed p ts t (reanchor_row p ts r) ≡ true
      → (reanchor_row p ts r).fire_at ≡ due_at p t
  unfolding reanchor_row
  anchored_at r t m a g = elim (Option-cases (joined p ts r)) [
    | inl e ↦ absurd (cc (e, joined_template r t m a (rw (e, reanchor_row) at g)))
    | inr (u, e) ↦
        let here = joined_template r t m a (rw (e, reanchor_row) at g) in
        let same : u ≡ t = ground (arith, e, here) in rw (e, reanchor_row) (ap (due_at p) same)
  ]

  IsAnchored-row : (r : Reminder) → IsAnchored p ts (reanchor_row p ts r)
  IsAnchored-row r = All-map_of (λ t m a g. anchored_at r t m a g) ts (Exists-self ts)

  IsAnchored-new :
      (new_id : ℕ → ℕ) (now : ℤ) (u : Template)
      → Exists (λ z. z ≡ u) ts
      → IsAnchored p ts (new_reminder new_id now p u)
  unfolding new_reminder
  IsAnchored-new new_id now u m =
      All-map_of (λ t n a g. ap (due_at p) (key_unique template_id ts u t k m n (ground arith))) ts
        (Exists-self ts)

  reanchor_with :
      (r : Reminder) (u : Template) → r.fire_at ≡ due_at p u → record r { fire_at = due_at p u } ≡ r
  reanchor_with r u h = λ i. record r { fire_at = sym h i }

  joined_inv :
      (r : Reminder) (u : Template)
      → joined p ts r ≡ some u
      → ((is_id p.batch_id r.batch_id && is_scheduled r.status) ≡ true)
        × (find (wanted r) ts ≡ some u)
  unfolding joined
  joined_inv r u e = elim (Bool-cases (is_id p.batch_id r.batch_id && is_scheduled r.status)) [
    | inl g ↦ (g, rw g at e)
    | inr g ↦ absurd (none-ne-some (rw g at e))
  ]

  find_anchored :
      (r : Reminder) (u : Template)
      → IsAnchored p ts r
      → joined p ts r ≡ some u
      → r.fire_at ≡ due_at p u
  find_anchored r u h e =
      let (moves, found) = joined_inv r u e in
      let (passes, there) = find-some (wanted r) ts found in
      All_at (λ t. applies p t ≡ true → governed p ts t r ≡ true → r.fire_at ≡ due_at p t) u ts h
        there (and_left _ _ passes) (and_true moves (and_right _ _ passes))

  -- A row that is anchored already is left alone.
  reanchor_anchored : (r : Reminder) → IsAnchored p ts r → reanchor_row p ts r ≡ r
  unfolding reanchor_row
  reanchor_anchored r h = elim (Option-cases (joined p ts r)) [
    | inl e ↦ rw (e, reanchor_row)
    | inr (u, e) ↦ rw (e, reanchor_row) (reanchor_with r u (find_anchored r u h e))
  ]

  module _ (new_id : ℕ → ℕ) (now : ℤ) (rs : List Reminder) where
    -- The table after both queries.
    abbrev pub settled : List Reminder
    settled = materialize new_id now p ts (reanchor p ts rs)

    pub settled-IsAnchored : All (IsAnchored p ts) settled
    unfolding materialize reanchor
    settled-IsAnchored =
        All-append (IsAnchored p ts) (reanchor p ts rs) _
          (All-map (IsAnchored p ts) (reanchor_row p ts) rs
            (All-of (λ r. IsAnchored p ts (reanchor_row p ts r)) IsAnchored-row rs))
          (All-map (IsAnchored p ts) (new_reminder new_id now p) _ (
            All-select_of (λ t. IsAnchored p ts (new_reminder new_id now p t))
              (is_missing p (reanchor p ts rs)) ts
              (All-map_of (λ t m e. IsAnchored-new new_id now t m) ts (Exists-self ts))))

    reanchor-All : (xs : List Reminder) → All (IsAnchored p ts) xs → reanchor p ts xs ≡ xs
    unfolding reanchor
    reanchor-All [] h = refl
    reanchor-All (x ∷ xs) (h, hs) = cc (reanchor_anchored x h, reanchor-All xs hs)

    -- Re-anchoring and then materializing a table that both have settled, at the same anchor time,
    -- gives it back. Template ids are unique.
    pub settled_idem : materialize new_id now p ts (reanchor p ts settled) ≡ settled
    settled_idem = rw (reanchor-All settled settled-IsAnchored) (
        materialize_none p ts new_id now settled
          (materialize-covers p ts new_id now (reanchor p ts rs)))
