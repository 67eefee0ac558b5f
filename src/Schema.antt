-- ===== src/Schema.antt =====
-- The enumerations and rows that the database keeps (internal/queries/models.go). Identifiers are
-- numbers, instants are microseconds, a nullable column is an `Option`.
pub mod Labels
pub mod Recipes
pub mod Users
use zymobrew.Base.{ℕ, Bool, false, true, Option, none, some, Bytes, ◌==◌}
use zymobrew.Base.Int.{ℤ}

pub data EventKind : Type 0 where
  pitch nutrient_addition degas rack addition stabilize backsweeten bottle photo note other :
      EventKind

pub data ReminderStatus : Type 0 where
  scheduled fired completed snoozed dismissed cancelled : ReminderStatus

pub data ReminderAnchor : Type 0 where
  absolute batch_start at_pitch at_rack at_bottle custom_event : ReminderAnchor

pub data BatchStage : Type 0 where
  planning primary secondary aging bottled archived : BatchStage

pub data Visibility : Type 0 where
  public unlisted private : Visibility

abbrev pub anchor_code : ReminderAnchor → ℕ
anchor_code absolute = 0
anchor_code batch_start = 1
anchor_code at_pitch = 2
anchor_code at_rack = 3
anchor_code at_bottle = 4
anchor_code custom_event = 5

abbrev pub same_anchor : ReminderAnchor → ReminderAnchor → Bool
same_anchor a b = anchor_code a == anchor_code b

pub record Reminder : Type 0 where
  pub id : ℕ
  pub batch_id : Option ℕ
  pub user_id : ℕ
  pub template_id : Option ℕ
  pub title : Bytes
  pub description : Option Bytes
  pub fire_at : ℤ
  pub rrule : Option Bytes
  pub status : ReminderStatus
  pub fired_at : Option ℤ
  pub completed_at : Option ℤ
  pub suggested_event_kind : Option EventKind
  pub created_at : ℤ

pub record Template : Type 0 where
  pub id : ℕ
  pub recipe_id : ℕ
  pub title : Bytes
  pub description : Option Bytes
  pub anchor : ReminderAnchor
  pub offset_minutes : ℤ
  pub suggested_event_kind : Option EventKind
  pub sort_order : ℤ

pub record Batch : Type 0 where
  pub id : ℕ
  pub brewer_id : ℕ
  pub recipe_id : Option ℕ
  pub recipe_revision_id : Option ℕ
  pub name : Bytes
  pub brew_type : Bytes
  pub stage : BatchStage
  pub started_at : Option ℤ
  pub bottled_at : Option ℤ
  pub visibility : Visibility
  pub notes : Option Bytes
  pub created_at : ℤ
  pub updated_at : ℤ

-- The four nullable NUMERIC columns that recipes and revisions share; a number is kept by a code.
pub record Targets : Type 0 where
  pub target_og : Option ℕ
  pub target_fg : Option ℕ
  pub target_abv : Option ℕ
  pub batch_size_l : Option ℕ

pub record Recipe : Type 0 where
  pub id : ℕ
  pub author_id : ℕ
  pub parent_id : Option ℕ
  pub parent_revision_id : Option ℕ
  pub current_revision_id : Option ℕ
  pub revision_count : ℕ
  pub fork_count : ℕ
  pub brew_type : Bytes
  pub style : Option Bytes
  pub name : Bytes
  pub description : Option Bytes
  pub targets : Targets
  pub visibility : Visibility
  pub created_at : ℤ
  pub updated_at : ℤ

abbrev pub is_private : Visibility → Bool
is_private private = true
is_private _ = false

-- `column = $n` where the column may be NULL
abbrev pub is_id : ℕ → Option ℕ → Bool
is_id n none = false
is_id n (some m) = m == n
