-- ===== src/Schema/Users.antt =====
-- The rows of users, sessions and pending changes of an email (internal/queries/models.go). An address
-- of the network is kept as its text.
use zymobrew.Base.{ℕ, Bool, Option, Bytes}
use zymobrew.Base.Int.{ℤ}

pub record User : Type 0 where
  pub id : ℕ
  pub username : Bytes
  pub email : Bytes
  pub display_name : Option Bytes
  pub bio : Option Bytes
  pub avatar_url : Option Bytes
  pub deleted_at : Option ℤ
  pub deletion_scheduled_for : Option ℤ
  pub deletion_choices : Option Bytes
  pub deletion_reason : Option Bytes
  pub created_at : ℤ
  pub password_hash : Option Bytes
  pub is_admin : Bool

pub record Session : Type 0 where
  pub id : ℕ
  pub user_id : ℕ
  pub token_hash : Bytes
  pub user_agent : Option Bytes
  pub ip : Option Bytes
  pub created_at : ℤ
  pub last_seen_at : ℤ
  pub expires_at : ℤ

pub record EmailChangeRequest : Type 0 where
  pub id : ℕ
  pub user_id : ℕ
  pub new_email : Bytes
  pub old_email : Bytes
  pub confirm_token_hash : Bytes
  pub cancel_token_hash : Bytes
  pub created_at : ℤ
  pub expires_at : ℤ
