-- ===== src/Auth.antt =====
-- Accounts and sessions: the rows and queries of internal/queries/users.sql.go, sessions.sql.go and
-- email_change.sql.go, and what the handlers of internal/server/auth.go take from outside.
pub mod Passwords
pub mod Sessions
pub mod Register
pub mod Login
pub mod Password
pub mod EmailChange
pub mod EmailLinks
pub mod Tokens
pub mod Laws
pub mod Rotation
pub mod SingleUser
pub mod EmailGuard
mod Examples
use zymobrew.Base.{
  ℕ, ◌*◌, ◌≡◌, Bool, true, false, ◌&&◌, ◌||◌, not, List, [], ◌∷◌, ◌++◌, Option, none, some, Bytes,
  bytes_eq, find, any, select, update, ◌==◌,
}
use zymobrew.Base.Int.{ℤ, ltb_ℤ}
use zymobrew.Schema.Users.{User, Session, EmailChangeRequest}
use zymobrew.Auth.Passwords.{Crypto}

-- The tables of accounts.
pub record Accounts : Type 0 where
  pub users : List User
  pub sessions : List Session
  pub email_changes : List EmailChangeRequest

-- The queries of one request, and the ends of its transaction; each is made at most once. A commit
-- fails with an error, or with the conflict of two serializable transactions.
pub data AuthQuery : Type 0 where
  session_query touch_query begin_query count_query create_user_query commit_query commit_conflict :
      AuthQuery
  credential_query get_user_query create_session_query delete_session_query : AuthQuery
  update_password_query delete_sessions_query update_user_query : AuthQuery
  clear_changes_query create_change_query delete_change_query get_change_query : AuthQuery
  update_email_query : AuthQuery

abbrev pub AuthOutage : Type 0
AuthOutage = AuthQuery → Bool

-- `cfg.InstanceMode`
pub data InstanceMode : Type 0 where
  open_mode single_user closed_mode unknown_mode : InstanceMode

-- What a request takes from outside. `fold` is the case folding of CITEXT, and of `strings.ToLower`.
pub record Env : Type 0 where
  pub now : ℤ  -- time.Now and now(), in microseconds
  pub crypto : Crypto
  pub limiter_now : ℤ  -- time.Now, in nanoseconds
  pub salt : Option Bytes  -- crypto/rand, for a password
  pub token_bytes : Option Bytes  -- crypto/rand, for a session
  pub confirm_bytes : Option Bytes  -- crypto/rand, for the links of a change of email
  pub cancel_bytes : Option Bytes
  pub new_user_id : ℕ
  pub new_session_id : ℕ
  pub new_change_id : ℕ
  pub user_agent : Bytes
  pub client_ip : Option Bytes
  pub fold : Bytes → Bytes
  pub mode : InstanceMode

abbrev pub session_duration : ℕ
session_duration = 30 * 24 * 60 * 60 * 1000000

abbrev pub session_touch_interval : ℕ
session_touch_interval = 5 * 60 * 1000000

-- `deleted_at IS NULL`
abbrev pub is_null : Option ℤ → Bool
is_null none = true
is_null (some t) = false

abbrev pub is_live : ℕ → User → Bool
is_live id u = u.id == id && is_null u.deleted_at

-- `CITEXT` equality
unfoldable pub same_text : Env → Bytes → Bytes → Bool
same_text e a b = bytes_eq (e.fold a) (e.fold b)

abbrev pub named : Env → Bytes → User → Bool
named e username u = same_text e u.username username && is_null u.deleted_at

abbrev pub mailed : Env → Bytes → User → Bool
mailed e email u = same_text e u.email email && is_null u.deleted_at

-- `UNIQUE` of the columns username and email
abbrev pub clashes : Env → Bytes → Bytes → User → Bool
clashes e username email u = same_text e u.username username || same_text e u.email email

abbrev pub has_token : Bytes → Session → Bool
has_token hash s = bytes_eq s.token_hash hash

-- `GetSessionWithUser`: `WHERE token_hash = $1 AND expires_at > now()`
abbrev pub is_current : ℤ → Bytes → Session → Bool
is_current now hash s = has_token hash s && ltb_ℤ now s.expires_at

abbrev pub session_of : ℕ → Session → Bool
session_of user s = s.user_id == user
