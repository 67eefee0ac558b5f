-- ===== src/Auth/EmailLinks.antt =====
-- The links that confirm and cancel the change of an email address: internal/server/email_change.go,
-- with their queries of internal/queries/email_change.sql.go and users.sql.go.
use zymobrew.Base.{
  ℕ, Bool, ◌&&◌, not, [], ◌∷◌, Option, none, some, Bytes, bytes_eq, find, any, update, ◌==◌,
  if◌then◌else◌,
}
use zymobrew.Base.Int.{ℤ, ltb_ℤ}
use zymobrew.Schema.Users.{User, EmailChangeRequest}
use zymobrew.Store.{Reply, done, refused}
use zymobrew.Auth.Passwords.{hash_session_token}
use zymobrew.Auth.{
  Accounts, Env, AuthOutage, delete_change_query, get_change_query, update_email_query, is_live,
  same_text,
}
use zymobrew.Auth.Register.{PublicUserView, to_public_user}
use zymobrew.Auth.EmailChange.{drop_change}

-- `WHERE confirm_token_hash = $1 AND expires_at > now()`, and the same for the other link
abbrev pub confirms : ℤ → Bytes → EmailChangeRequest → Bool
confirms now hash c = bytes_eq c.confirm_token_hash hash && ltb_ℤ now c.expires_at

abbrev pub cancels : ℤ → Bytes → EmailChangeRequest → Bool
cancels now hash c = bytes_eq c.cancel_token_hash hash && ltb_ℤ now c.expires_at

-- `UNIQUE` of the column email, for another row
abbrev pub takes : Env → ℕ → Bytes → User → Bool
takes e id email u = not (u.id == id) && same_text e u.email email

module _ (e : Env) (down : AuthOutage) where
  unfoldable pub set_email : Bytes → User → User
  set_email email u = record u { email = email }

  -- `UpdateUserEmail`: a violated UNIQUE, no live user, or the row.
  unfoldable pub confirmed :
      EmailChangeRequest → Option User → Accounts → Accounts × Reply PublicUserView
  unfolding set_email to_public_user
  confirmed c none a = (a, refused 500 "confirm failed")
  confirmed c (some u) a =
      if any (takes e c.user_id c.new_email) a.users
      then (a, refused 409 "email already taken")
      else let moved = record a {
        users = update (is_live c.user_id) (set_email c.new_email) a.users;
      } in
        (
          if down delete_change_query then moved else drop_change c.id moved,
          done 200 (to_public_user (set_email c.new_email u)),
        )

  unfoldable pub confirm_found :
      Option EmailChangeRequest → Accounts → Accounts × Reply PublicUserView
  unfolding confirmed
  confirm_found none a = (a, refused 400 "invalid or expired link")
  confirm_found (some c) a =
      if down update_email_query
      then (a, refused 500 "confirm failed")
      else confirmed c (find (is_live c.user_id) a.users) a

  unfoldable pub handle_confirm_email_change :
      Option Bytes → Accounts → Accounts × Reply PublicUserView
  unfolding confirm_found hash_session_token
  handle_confirm_email_change none a = (a, refused 400 "invalid json")
  handle_confirm_email_change (some []) a = (a, refused 400 "missing token")
  handle_confirm_email_change (some (x ∷ token)) a =
      if down get_change_query
      then (a, refused 500 "confirm failed")
      else confirm_found
          (find (confirms e.now (hash_session_token e.crypto (x ∷ token))) a.email_changes) a

  unfoldable pub cancel_found : Option EmailChangeRequest → Accounts → Accounts × Reply (Unit {0})
  cancel_found none a = (a, refused 400 "invalid or expired link")
  cancel_found (some c) a =
      if down delete_change_query
      then (a, refused 500 "cancel failed")
      else (drop_change c.id a, done 200 tt)

  unfoldable pub handle_cancel_email_change : Option Bytes → Accounts → Accounts × Reply (Unit {0})
  unfolding cancel_found hash_session_token
  handle_cancel_email_change none a = (a, refused 400 "invalid json")
  handle_cancel_email_change (some []) a = (a, refused 400 "missing token")
  handle_cancel_email_change (some (x ∷ token)) a =
      if down get_change_query
      then (a, refused 500 "cancel failed")
      else cancel_found
          (find (cancels e.now (hash_session_token e.crypto (x ∷ token))) a.email_changes) a
