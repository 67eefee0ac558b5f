-- ===== src/Auth/Register.antt =====
-- Registration: `handleRegister` and `createRegistrationUser` of internal/server/auth.go.
use Prim.Native.String.{String}
use zymobrew.Base.{
  ℕ, Bool, true, false, ◌&&◌, ◌||◌, not, [], ◌∷◌, ◌++◌, Option, none, some, Bytes, any, length,
  is_empty, leb, ltb, ◌==◌, if◌then◌else◌,
}
use zymobrew.Schema.Users.{User}
use zymobrew.Store.{Reply, done, refused}
use zymobrew.Auth.Passwords.{hash_password}
use zymobrew.Auth.Sessions.{issue_session}
use zymobrew.Auth.{
  Accounts, Env, AuthOutage, InstanceMode, open_mode, single_user, closed_mode, unknown_mode,
  begin_query, count_query, create_user_query, commit_query, commit_conflict, is_null, clashes,
}

abbrev pub min_password_len : ℕ
min_password_len = 8

-- `^[a-zA-Z0-9_-]{3,32}$`
abbrev pub is_word : ℕ → Bool
is_word c =
    leb b'a' c && leb c b'z'
    || leb b'A' c && leb c b'Z'
    || leb b'0' c && leb c b'9'
    || c == b'_'
    || c == b'-'

unfoldable pub all_word : Bytes → Bool
all_word [] = true
all_word (c ∷ s) = is_word c && all_word s

unfoldable pub matches_username : Bytes → Bool
unfolding all_word
matches_username s = leb 3 (length s) && leb (length s) 32 && all_word s

pub record RegisterRequest : Type 0 where
  pub username : Bytes
  pub email : Bytes
  pub password : Bytes
  pub display_name : Bytes

pub record PublicUserView : Type 0 where
  pub id : ℕ
  pub username : Bytes
  pub email : Bytes
  pub display_name : Bytes
  pub is_admin : Bool

pub record AuthResponse : Type 0 where
  pub token : Bytes
  pub user : PublicUserView

unfoldable pub shown_name : Option Bytes → Bytes
shown_name none = []
shown_name (some s) = s

unfoldable pub to_public_user : User → PublicUserView
unfolding shown_name
to_public_user u = record {
  id = u.id;
  username = u.username;
  email = u.email;
  display_name = shown_name u.display_name;
  is_admin = u.is_admin;
}

-- What `createRegistrationUser` returns: a user, or one of three errors.
pub data Registered : Type 0 where
  registered : User → Registered
  registration_closed unique_violation failed : Registered

abbrev pub is_single_user : InstanceMode → Bool
is_single_user single_user = true
is_single_user open_mode = false
is_single_user closed_mode = false
is_single_user unknown_mode = false

-- `strings.Contains(_, "@")`
abbrev pub has_at : Bytes → Bool
has_at s = any (λ c. c == b'@') s

-- The answer to a sign-in, once its session has been made or not.
unfoldable pub signed_in :
    ℕ → String → User → Accounts × Option Bytes → Accounts × Reply AuthResponse
unfolding to_public_user
signed_in status message u (a, none) = (a, refused 500 message)
signed_in status message u (a, some token) =
    (a, done status (record { token = token; user = to_public_user u }))

module _ (e : Env) (down : AuthOutage) where
  unfoldable pub user_row : RegisterRequest → Bytes → User
  unfolding is_empty
  user_row req hash = record {
    id = e.new_user_id;
    username = req.username;
    email = req.email;
    display_name = if is_empty req.display_name then none else some req.display_name;
    bio = none;
    avatar_url = none;
    deleted_at = none;
    deletion_scheduled_for = none;
    deletion_choices = none;
    deletion_reason = none;
    created_at = e.now;
    password_hash = some hash;
    is_admin = is_single_user e.mode;
  }

  -- `CreateUserWithPassword`
  unfoldable pub create_user : User → Accounts → Accounts × Registered
  create_user u a =
      if down create_user_query
      then (a, failed)
      else if any (clashes e u.username u.email) a.users
      then (a, unique_violation)
      else (record a { users = a.users ++ u ∷ [] }, registered u)

  -- The end of the serializable transaction.
  unfoldable pub committed : Accounts → Accounts × Registered → Accounts × Registered
  committed a (after, registered u) =
      if down commit_query
      then (a, failed)
      else if down commit_conflict
      then (a, registration_closed)
      else (after, registered u)
  committed a (after, registration_closed) = (a, registration_closed)
  committed a (after, unique_violation) = (a, unique_violation)
  committed a (after, failed) = (a, failed)

  -- In single-user mode only into a table that has no live user.
  unfoldable pub create_registration_user : User → Accounts → Accounts × Registered
  unfolding create_user committed
  create_registration_user u a =
      if not (is_single_user e.mode)
      then create_user u a
      else if down begin_query || down count_query
      then (a, failed)
      else if any (λ (x : User). is_null x.deleted_at) a.users
      then (a, registration_closed)
      else committed a (create_user u a)

  unfoldable pub after_registration : Accounts × Registered → Accounts × Reply AuthResponse
  unfolding signed_in issue_session
  after_registration (a, registration_closed) =
      (a, refused 403 "registration disabled (single-user mode)")
  after_registration (a, unique_violation) = (a, refused 409 "username or email already taken")
  after_registration (a, failed) = (a, refused 500 "user create failed")
  after_registration (a, registered u) =
      signed_in 201 "session create failed" u (issue_session e down u.id a)

  unfoldable pub register_hashed :
      RegisterRequest → Option Bytes → Accounts → Accounts × Reply AuthResponse
  unfolding after_registration create_registration_user user_row
  register_hashed req none a = (a, refused 500 "hash failed")
  register_hashed req (some hash) a =
      after_registration (create_registration_user (user_row req hash) a)

  unfoldable pub register_in :
      InstanceMode → RegisterRequest → Accounts → Accounts × Reply AuthResponse
  unfolding register_hashed hash_password
  register_in closed_mode req a = (a, refused 403 "registration disabled")
  register_in unknown_mode req a = (a, refused 500 "unknown instance mode")
  register_in open_mode req a = register_hashed req (hash_password e.crypto e.salt req.password) a
  register_in single_user req a = register_hashed req (hash_password e.crypto e.salt req.password) a

  unfoldable pub handle_register : Option RegisterRequest → Accounts → Accounts × Reply AuthResponse
  unfolding register_in matches_username
  handle_register none a = (a, refused 400 "invalid json")
  handle_register (some req) a =
      if not (matches_username req.username)
      then (a, refused 400 "username must be 3-32 chars [a-zA-Z0-9_-]")
      else if not (has_at req.email)
      then (a, refused 400 "invalid email")
      else if ltb (length req.password) min_password_len
      then (a, refused 400 "password too short")
      else register_in e.mode req a
