-- ===== src/Auth/Login.antt =====
-- Login: `handleLogin` and `lookupCredential` of internal/server/auth.go.
use zymobrew.Base.{Bool, true, false, Option, none, some, Bytes, find, is_empty, if◌then◌else◌}
use zymobrew.Schema.Users.{User}
use zymobrew.Store.{Reply, refused}
use zymobrew.Network.RateLimit.{Buckets, Limiter, allow}
use zymobrew.Auth.Passwords.{verify_password}
use zymobrew.Auth.Sessions.{issue_session}
use zymobrew.Auth.{
  Accounts, Env, AuthOutage, credential_query, get_user_query, is_live, named, mailed,
}
use zymobrew.Auth.Register.{has_at, AuthResponse, signed_in}

pub record LoginRequest : Type 0 where
  pub identifier : Bytes
  pub password : Bytes

module _ (e : Env) (down : AuthOutage) where
  -- The id and the password's hash of the live user of an identifier.
  unfoldable pub lookup_credential : Bytes → Accounts → Option User
  lookup_credential identifier a =
      if down credential_query
      then none
      else if has_at identifier
      then find (mailed e identifier) a.users
      else find (named e identifier) a.users

  -- Whether the password is the one of the credential. For no user, or one without a password, the
  -- source verifies a dummy hash and ignores the result.
  unfoldable pub with_hash : Bytes → User → Option Bytes → Option User
  unfolding verify_password
  with_hash password u none = none
  with_hash password u (some hash) = if verify_password e.crypto password hash then some u else none

  unfoldable pub is_right : Bytes → Option User → Option User
  unfolding with_hash
  is_right password none = none
  is_right password (some u) = with_hash password u u.password_hash

  unfoldable pub entered : Option User → Accounts → Accounts × Reply AuthResponse
  unfolding signed_in issue_session
  entered none a = (a, refused 500 "user fetch failed")
  entered (some user) a =
      signed_in 200 "session create failed" user (issue_session e down user.id a)

  unfoldable pub enter : Option User → Accounts → Accounts × Reply AuthResponse
  unfolding entered
  enter none a = (a, refused 401 "invalid credentials")
  enter (some u) a =
      if down get_user_query
      then (a, refused 500 "user fetch failed")
      else entered (find (is_live u.id) a.users) a

  unfoldable pub check_login : LoginRequest → Accounts → Accounts × Reply AuthResponse
  unfolding enter is_right lookup_credential
  check_login req a = enter (is_right req.password (lookup_credential req.identifier a)) a

  -- With the limiter of the accounts, which is asked for an identifier that is not empty.
  unfoldable pub limited :
      {B : Type 0}
      → LoginRequest
      → Bool × Limiter B
      → Accounts
      → Limiter B × Accounts × Reply AuthResponse
  unfolding check_login
  limited req (false, l) a = (l, a, refused 429 "too many login attempts for this account")
  limited req (true, l) a = let (after, answer) = check_login req a in (l, after, answer)

  unfoldable pub handle_login :
      {B : Type 0}
      → Buckets B
      → Option LoginRequest
      → Limiter B
      → Accounts
      → Limiter B × Accounts × Reply AuthResponse
  unfolding limited is_empty
  handle_login b none l a = (l, a, refused 400 "invalid json")
  handle_login b (some req) l a =
      if is_empty req.identifier
      then limited req (true, l) a
      else limited req (allow b (e.fold req.identifier) e.limiter_now l) a
