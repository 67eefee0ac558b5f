-- ===== src/Auth/EmailChange.antt =====
-- Asking for the change of an email address: internal/server/email_change.go, with its queries of
-- internal/queries/email_change.sql.go.
use Prim.Native.String.{String}
use zymobrew.Base.{
  ℕ, ◌*◌, Bool, true, false, ◌||◌, not, List, [], ◌∷◌, ◌++◌, Option, none, some, Bytes, bytes_eq,
  any, select, ◌==◌, if◌then◌else◌,
}
use zymobrew.Base.Int.{pos, ◌+ℤ◌}
use zymobrew.Schema.Users.{User, EmailChangeRequest}
use zymobrew.Store.{Reply, done, refused}
use zymobrew.Network.RateLimit.{Buckets, Limiter, allow}
use zymobrew.Auth.Passwords.{new_session_token, verify_password}
use zymobrew.Auth.{
  Accounts, Env, AuthOutage, credential_query, clear_changes_query, create_change_query,
  delete_change_query, mailed,
}

-- 24 hours
abbrev pub email_change_ttl : ℕ
email_change_ttl = 24 * 60 * 60 * 1000000

pub record ChangeEmailRequest : Type 0 where
  pub current_password : Bytes
  pub email : Bytes

-- What the flow takes from outside: whether SMTP is configured, `strings.TrimSpace`, the address that
-- `mail.ParseAddress` reads, `strings.EqualFold`, the text of an id, and whether a mail is sent.
pub record Post : Type 0 where
  pub configured : Bool
  pub trim : Bytes → Bytes
  pub parse_address : Bytes → Option Bytes
  pub equal_fold : Bytes → Bytes → Bool
  pub id_text : ℕ → Bytes
  pub send_fault : Bytes → Option String

-- What has been mailed: the confirmation link to the new address, the link of the notice to the old.
pub data Mail : Type 0 where
  confirmation : Bytes → Bytes → Mail
  notice : Bytes → Bytes → Mail

-- The answer, with what is pending.
pub data Pending : Type 0 where
  pending : Bytes → Pending

abbrev pub is_change : ℕ → EmailChangeRequest → Bool
is_change id c = c.id == id

abbrev pub change_of : ℕ → EmailChangeRequest → Bool
change_of user c = c.user_id == user

-- `UNIQUE` of the two columns of tokens
abbrev pub repeats : Bytes → Bytes → List EmailChangeRequest → Bool
repeats confirm cancel cs =
    any (λ (c : EmailChangeRequest). bytes_eq c.confirm_token_hash confirm) cs
    || any (λ (c : EmailChangeRequest). bytes_eq c.cancel_token_hash cancel) cs

abbrev pub drop_change : ℕ → Accounts → Accounts
drop_change id a = record a { email_changes = select (λ c. not (is_change id c)) a.email_changes }

module _ (e : Env) (down : AuthOutage) (p : Post) where
  unfoldable pub change_row : User → Bytes → Bytes → Bytes → EmailChangeRequest
  change_row user email confirm cancel = record {
    id = e.new_change_id;
    user_id = user.id;
    new_email = email;
    old_email = user.email;
    confirm_token_hash = confirm;
    cancel_token_hash = cancel;
    created_at = e.now;
    expires_at = e.now +ℤ pos email_change_ttl;
  }

  -- The mails, and the answer: the request goes again where the confirmation cannot be sent.
  unfoldable pub mail_links :
      User → Bytes → Bytes → Bytes → Accounts → List Mail × Accounts × Reply Pending
  mail_links user email confirm cancel a = elim (p.send_fault email) [
    | some fault ↦ (
      [],
      if down delete_change_query then a else drop_change e.new_change_id a,
      refused 502 fault,
    )
    | none ↦ (
      confirmation email confirm ∷ elim (p.send_fault user.email) [
        | some fault ↦ []
        | none ↦ notice user.email cancel ∷ []
      ],
      a,
      done 202 (pending email),
    )
  ]

  -- The request takes the place of those that the user has; the token columns are UNIQUE.
  unfoldable pub store_change :
      User → Bytes → Bytes × Bytes → Bytes × Bytes → Accounts → List Mail × Accounts × Reply Pending
  unfolding mail_links change_row
  store_change user email (confirm, confirm_hash) (cancel, cancel_hash) a =
      if down clear_changes_query
      then ([], a, refused 500 "email change failed")
      else let rest = select (λ c. not (change_of user.id c)) a.email_changes in
        if down create_change_query || repeats confirm_hash cancel_hash rest
        then ([], record a { email_changes = rest }, refused 500 "email change failed")
        else mail_links user email confirm cancel (record a {
          email_changes = rest ++ change_row user email confirm_hash cancel_hash ∷ [];
        })

  -- The two tokens, where the random bytes are there.
  unfoldable pub mint_links :
      User
      → Bytes
      → Option (Bytes × Bytes)
      → Option (Bytes × Bytes)
      → Accounts
      → List Mail × Accounts × Reply Pending
  unfolding store_change
  mint_links user email none cancel a = ([], a, refused 500 "email change failed")
  mint_links user email (some confirm) none a = ([], a, refused 500 "email change failed")
  mint_links user email (some confirm) (some cancel) a = store_change user email confirm cancel a

  -- The current password has been asked for again, and the address is free.
  unfoldable pub reauthenticated :
      User → Bytes → Bytes → Option Bytes → Accounts → List Mail × Accounts × Reply Pending
  unfolding mint_links new_session_token verify_password
  reauthenticated user password email none a = ([], a, refused 400 "account has no password set")
  reauthenticated user password email (some hash) a =
      if not (verify_password e.crypto password hash)
      then ([], a, refused 401 "current password incorrect")
      else if down credential_query
      then ([], a, refused 500 "email change failed")
      else if any (mailed e email) a.users
      then ([], a, refused 409 "email already taken")
      else mint_links user email (new_session_token e.crypto e.confirm_bytes)
          (new_session_token e.crypto e.cancel_bytes) a

  -- `addr.Address != newEmail`
  unfoldable pub is_bare : Bytes → Option Bytes → Bool
  unfolding bytes_eq
  is_bare email none = false
  is_bare email (some address) = bytes_eq address email

  unfoldable pub limited_change :
      {B : Type 0}
      → User
      → ChangeEmailRequest
      → Bool × Limiter B
      → Accounts
      → Limiter B × List Mail × Accounts × Reply Pending
  unfolding reauthenticated
  limited_change user req (false, l) a = (l, [], a, refused 429 "too many email-change requests")
  limited_change user req (true, l) a =
      let (mails, after, answer) =
        reauthenticated user req.current_password (p.trim req.email) user.password_hash a in
      (l, mails, after, answer)

  unfoldable pub handle_change_email :
      {B : Type 0}
      → Buckets B
      → User
      → Option ChangeEmailRequest
      → Limiter B
      → Accounts
      → Limiter B × List Mail × Accounts × Reply Pending
  unfolding limited_change is_bare
  handle_change_email b user none l a =
      if not p.configured
      then (l, [], a, refused 503 "smtp not configured on this instance")
      else (l, [], a, refused 400 "invalid json")
  handle_change_email b user (some req) l a =
      if not p.configured
      then (l, [], a, refused 503 "smtp not configured on this instance")
      else if not (is_bare (p.trim req.email) (p.parse_address (p.trim req.email)))
      then (l, [], a, refused 400 "invalid email")
      else if p.equal_fold (p.trim req.email) user.email
      then (l, [], a, refused 400 "new email matches current email")
      else limited_change user req (allow b (p.id_text user.id) e.limiter_now l) a
