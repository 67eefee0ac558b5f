-- ===== src/Schema/Labels.antt =====
-- The labels of the enumerations (internal/queries/models.go): the cast of a text to an enum of the
-- database, which fails with SQLSTATE 22P02 on any other text.
use zymobrew.Base.{List, [], ◌∷◌, Option, none, some, Bytes, codes, bytes_eq, if◌then◌else◌}
use zymobrew.Schema.{
  EventKind, ReminderStatus, ReminderAnchor, BatchStage, Visibility, pitch, nutrient_addition,
  degas, rack, addition, stabilize, backsweeten, bottle, photo, note, other, scheduled, fired,
  completed, snoozed, dismissed, cancelled, absolute, batch_start, at_pitch, at_rack, at_bottle,
  custom_event, planning, primary, secondary, aging, bottled, archived, public, unlisted, private,
}

unfoldable pub label_value {ℓ} : {A : Type ℓ} → List (Bytes × A) → Bytes → Option A
unfolding bytes_eq
label_value [] s = none
label_value ((label, a) ∷ rest) s = if bytes_eq label s then some a else label_value rest s

unfoldable pub event_kind_of : Bytes → Option EventKind
unfolding label_value
event_kind_of = label_value (
    (codes "pitch", pitch)
    ∷ (codes "nutrient_addition", nutrient_addition)
    ∷ (codes "degas", degas)
    ∷ (codes "rack", rack)
    ∷ (codes "addition", addition)
    ∷ (codes "stabilize", stabilize)
    ∷ (codes "backsweeten", backsweeten)
    ∷ (codes "bottle", bottle)
    ∷ (codes "photo", photo)
    ∷ (codes "note", note)
    ∷ (codes "other", other)
    ∷ [])

unfoldable pub batch_stage_of : Bytes → Option BatchStage
unfolding label_value
batch_stage_of = label_value (
    (codes "planning", planning)
    ∷ (codes "primary", primary)
    ∷ (codes "secondary", secondary)
    ∷ (codes "aging", aging)
    ∷ (codes "bottled", bottled)
    ∷ (codes "archived", archived)
    ∷ [])

unfoldable pub visibility_of : Bytes → Option Visibility
unfolding label_value
visibility_of =
    label_value
      ((codes "public", public) ∷ (codes "unlisted", unlisted) ∷ (codes "private", private) ∷ [])

unfoldable pub reminder_status_of : Bytes → Option ReminderStatus
unfolding label_value
reminder_status_of = label_value (
    (codes "scheduled", scheduled)
    ∷ (codes "fired", fired)
    ∷ (codes "completed", completed)
    ∷ (codes "snoozed", snoozed)
    ∷ (codes "dismissed", dismissed)
    ∷ (codes "cancelled", cancelled)
    ∷ [])

unfoldable pub reminder_anchor_of : Bytes → Option ReminderAnchor
unfolding label_value
reminder_anchor_of = label_value (
    (codes "absolute", absolute)
    ∷ (codes "batch_start", batch_start)
    ∷ (codes "pitch", at_pitch)
    ∷ (codes "rack", at_rack)
    ∷ (codes "bottle", at_bottle)
    ∷ (codes "custom_event", custom_event)
    ∷ [])
