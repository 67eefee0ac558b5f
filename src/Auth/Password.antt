-- ===== src/Auth/Password.antt =====
-- The change of a password: `handleChangePassword` of internal/server/profile.go.
use zymobrew.Base.{
  ℕ, not, Option, none, some, Bytes, bytes_eq, select, update, length, ltb, if◌then◌else◌,
}
use zymobrew.Schema.Users.{User}
use zymobrew.Store.{Reply, refused}
use zymobrew.Auth.Passwords.{hash_password, verify_password}
use zymobrew.Auth.Sessions.{issue_session}
use zymobrew.Auth.{
  Accounts, Env, AuthOutage, update_password_query, delete_sessions_query, is_live, session_of,
}
use zymobrew.Auth.Register.{min_password_len, AuthResponse, signed_in}

pub record ChangePasswordRequest : Type 0 where
  pub current_password : Bytes
  pub new_password : Bytes

module _ (e : Env) (down : AuthOutage) where
  -- `UPDATE users SET password_hash = $1 WHERE id = $2 AND deleted_at IS NULL`
  unfoldable pub update_user_password : ℕ → Bytes → Accounts → Accounts
  update_user_password id hash a = record a {
    users = update (is_live id) (λ (u : User). record u { password_hash = some hash }) a.users;
  }

  unfoldable pub delete_sessions_for_user : ℕ → Accounts → Accounts
  delete_sessions_for_user id a = record a {
    sessions = select (λ s. not (session_of id s)) a.sessions;
  }

  -- The sessions of the user make way for a new one.
  unfoldable pub rotate : User → Accounts → Accounts × Reply AuthResponse
  unfolding signed_in issue_session delete_sessions_for_user
  rotate user a =
      if down delete_sessions_query
      then (a, refused 500 "session rotate failed")
      else signed_in 200 "session rotate failed" user
          (issue_session e down user.id (delete_sessions_for_user user.id a))

  unfoldable pub store_password : User → Option Bytes → Accounts → Accounts × Reply AuthResponse
  unfolding rotate update_user_password
  store_password user none a = (a, refused 500 "hash failed")
  store_password user (some hash) a =
      if down update_password_query
      then (a, refused 500 "update failed")
      else rotate user (update_user_password user.id hash a)

  unfoldable pub replace_password :
      User → ChangePasswordRequest → Option Bytes → Accounts → Accounts × Reply AuthResponse
  unfolding store_password verify_password hash_password
  replace_password user req none a = (a, refused 400 "account has no password set")
  replace_password user req (some old) a =
      if not (verify_password e.crypto req.current_password old)
      then (a, refused 401 "current password incorrect")
      else if bytes_eq req.new_password req.current_password
      then (a, refused 400 "new password must differ from current")
      else store_password user (hash_password e.crypto e.salt req.new_password) a

  -- The user is the one that the middleware has loaded.
  unfoldable pub handle_change_password :
      User → Option ChangePasswordRequest → Accounts → Accounts × Reply AuthResponse
  unfolding replace_password
  handle_change_password user none a = (a, refused 400 "invalid json")
  handle_change_password user (some req) a =
      if ltb (length req.new_password) min_password_len
      then (a, refused 400 "password too short")
      else replace_password user req user.password_hash a
