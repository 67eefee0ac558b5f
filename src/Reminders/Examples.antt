-- ===== src/Reminders/Examples.antt =====
-- The reminder queries on a small table.
use zymobrew.Base.{
  ℕ, ◌≡◌, refl, Bool, false, List, [], ◌∷◌, none, some, map, codes, arith, length, select, All,
  HasKey, Pointwise,
}
use zymobrew.Base.Int.{ℤ, pos, ◌+ℤ◌, ◌*ℤ◌}
use zymobrew.Page.Order.{row_lt}
use zymobrew.Page.Listing.{sort_rows}
use zymobrew.Schema.{Reminder, Template, ReminderStatus, scheduled, snoozed, at_pitch}
use zymobrew.Reminders.{
  reminder_id, has_id, due_ids, claim_due, MaterializeParams, due_at, materialize, reanchor,
  reanchor_row, joined,
}
use zymobrew.Reminders.Claim.{Claimed, claim_changes, claim_exhausts, claim_once, free}
use zymobrew.Reminders.Materialize.{template_id}
use zymobrew.Reminders.Idempotent.{settled, settled_idem}

abbrev pub row : ℕ → ReminderStatus → ℤ → Reminder
row i s t = record {
  id = i;
  batch_id = some 7;
  user_id = 3;
  template_id = some 70;
  title = codes "rack";
  description = none;
  fire_at = t;
  status = s;
  rrule = none;
  fired_at = none;
  completed_at = none;
  suggested_event_kind = none;
  created_at = pos 0;
}

abbrev pub rows : List Reminder
rows =
    row 1 scheduled (pos 40)
    ∷ row 2 scheduled (pos 20)
    ∷ row 3 snoozed (pos 10)
    ∷ row 4 scheduled (pos 30)
    ∷ row 5 scheduled (pos 900)
    ∷ []

abbrev pub nothing_locked : ℕ → Bool
nothing_locked i = false

pub rows-HasKey : HasKey reminder_id rows
rows-HasKey = ground arith

-- Of the three due reminders the two that are due first are claimed.
two_claimed : due_ids nothing_locked 2 (pos 50) rows ≡ 2 ∷ 4 ∷ []
unfolding due_ids sort_rows row_lt
two_claimed = refl

claim_changes_example :
    Pointwise (Claimed nothing_locked 2 (pos 50)) rows (claim_due nothing_locked 2 (pos 50) rows).0
claim_changes_example = claim_changes nothing_locked 2 (pos 50) rows rows-HasKey

claim_exhausts_example :
    select (free nothing_locked 3 (pos 50)) (claim_due nothing_locked 3 (pos 50) rows).0 ≡ []
claim_exhausts_example = claim_exhausts nothing_locked 3 (pos 50) rows rows-HasKey (omega arith)

claim_once_example :
    All
      (λ r.
        has_id
          (due_ids nothing_locked 9 (pos 1000) (claim_due nothing_locked 2 (pos 50) rows).0)
          r.id
        ≡ false)
      (claim_due nothing_locked 2 (pos 50) rows).1
claim_once_example =
    claim_once nothing_locked nothing_locked 2 9 (pos 50) (pos 1000) rows rows-HasKey

abbrev rack_later : Template
rack_later = record {
  id = 70;
  recipe_id = 8;
  title = codes "rack";
  description = none;
  anchor = at_pitch;
  offset_minutes = pos 2;
  suggested_event_kind = none;
  sort_order = pos 0;
}

abbrev taste : Template
taste = record {
  id = 71;
  recipe_id = 8;
  title = codes "taste";
  description = none;
  anchor = at_pitch;
  offset_minutes = pos 9;
  suggested_event_kind = none;
  sort_order = pos 1;
}

abbrev templates : List Template
templates = rack_later ∷ taste ∷ []

templates-HasKey : HasKey template_id templates
templates-HasKey = ground arith

abbrev pitched : MaterializeParams
pitched = record {
  batch_id = 7;
  user_id = 3;
  recipe_id = 8;
  anchor = at_pitch;
  anchor_time = pos 5;
}

abbrev fresh : ℕ → ℕ
fresh i = 100

moved :
    map (λ (r : Reminder). r.fire_at) (reanchor pitched templates rows)
    ≡ pos 120000005 ∷ pos 120000005 ∷ pos 10 ∷ pos 120000005 ∷ pos 120000005 ∷ []
unfolding reanchor reanchor_row joined due_at ◌+ℤ◌ ◌*ℤ◌
moved = refl

created : length (materialize fresh (pos 6) pitched templates rows) ≡ 6
unfolding materialize
created = refl

settled_idem_example :
    materialize fresh
      (pos 6)
      pitched
      templates
      (reanchor pitched templates (settled pitched templates templates-HasKey fresh (pos 6) rows))
    ≡ settled pitched templates templates-HasKey fresh (pos 6) rows
settled_idem_example = settled_idem pitched templates templates-HasKey fresh (pos 6) rows
