-- ===== src/Auth/Examples.antt =====
-- Sign-in and registration of one user, over small parameters that do what is documented.
use zymobrew.Base.{
  ℕ, zero, suc, ◌+◌, ◌-◌, ◌≤◌, ◌≡◌, ◌≢◌, refl, ap, true, false, List, [], ◌∷◌, map, Option, none,
  some, Bytes, codes, bytes_eq, arith, length,
}
use zymobrew.Base.Int.{pos}
use zymobrew.Schema.Users.{User, EmailChangeRequest}
use zymobrew.Store.{done}
use zymobrew.Network.RateLimit.{Buckets, Limiter, allow}
use zymobrew.Auth.Passwords.{
  Crypto, IsDocumented, HasNoDollar, hash_text, hash_password, verify_password, verify-hash,
  memory_cost, iterations, parallelism, key_length,
}
use zymobrew.Auth.{Accounts, Env, AuthOutage, single_user, delete_session_query, same_text}
use zymobrew.Auth.Sessions.{handle_logout}
use zymobrew.Auth.Register.{RegisterRequest, AuthResponse, to_public_user}
use zymobrew.Auth.Login.{LoginRequest, handle_login}
use zymobrew.Auth.Password.{ChangePasswordRequest, handle_change_password}
use zymobrew.Auth.Tokens.{acts_as}
use zymobrew.Auth.Laws.{Opened, login_opens}
use zymobrew.Auth.Rotation.{Rotated, change_rotates}
use zymobrew.Auth.EmailLinks.{handle_confirm_email_change, handle_cancel_email_change}
use zymobrew.Auth.EmailChange.{ChangeEmailRequest, Post, handle_change_email}
use zymobrew.Auth.EmailGuard.{Guarded, email-Guarded}
use zymobrew.Auth.SingleUser.{Attempt, attempts, live_users, single_user_one}

-- The first bytes of a text, and zeros.
abbrev padded : ℕ → Bytes → Bytes
padded zero s = []
padded (suc n) [] = 0 ∷ padded n []
padded (suc n) (c ∷ s) = c ∷ padded n s

length-padded : (n : ℕ) (s : Bytes) → length (padded n s) ≡ n
length-padded zero s = refl
length-padded (suc n) [] = ap suc (length-padded n [])
length-padded (suc n) (c ∷ s) = ap suc (length-padded n s)

abbrev scanned : Bytes → Option ℕ
scanned (v ∷ e ∷ c ∷ []) = some (c - 48)
scanned _ = none

abbrev lifted : Bytes → Bytes
lifted b = map (λ c. c + 64) b

abbrev lowered : Bytes → Bytes
lowered b = map (λ c. c - 64) b

abbrev toy_crypto : Crypto
toy_crypto = record {
  id_key = λ p s t m w n. padded 32 p;
  version = 19;
  sha256 = λ s. s;
  std_encode = lifted;
  std_decode = λ s. some (lowered s);
  url_encode = λ s. 120 ∷ s;
  decimal = λ n. (n + 48) ∷ [];
  scan_version = scanned;
  scan_params = λ s. some (memory_cost, iterations, parallelism);
}

lowered-lifted : (b : Bytes) → lowered (lifted b) ≡ b
lowered-lifted [] = refl
lowered-lifted (c ∷ b) =
    let same : (c + 64) - 64 ≡ c = omega arith in rw (same, lowered-lifted b) refl

lifted_plain : (b : Bytes) → HasNoDollar (lifted b)
lifted_plain [] = tt
lifted_plain (c ∷ b) = (ground arith, lifted_plain b)

toy-IsDocumented : IsDocumented toy_crypto
toy-IsDocumented = record {
  decode-encode = λ b. ap some (lowered-lifted b);
  scan-version = refl;
  scan-params = refl;
  encode_plain = lifted_plain;
  decimal_plain = λ n. (ground arith, tt);
  key_size = λ p s. length-padded 32 p;
}

abbrev stored : Bytes
stored = hash_text toy_crypto (1 ∷ []) (padded 32 (codes "longenough"))

hashed : hash_password toy_crypto (some (1 ∷ [])) (codes "longenough") ≡ some stored
unfolding hash_password
hashed = refl

verify-hash_example :
    (verify_password toy_crypto (codes "longenough") stored ≡ true)
    × ((other : Bytes)
        → verify_password toy_crypto other stored ≡ true
        → toy_crypto.id_key other (1 ∷ []) iterations memory_cost parallelism key_length
          ≡ toy_crypto.id_key
              (codes "longenough")
              (1 ∷ [])
              iterations
              memory_cost
              parallelism
              key_length)
verify-hash_example =
    verify-hash toy_crypto toy-IsDocumented (1 ∷ []) (codes "longenough") stored hashed

abbrev ada : User
ada = record {
  id = 5;
  username = codes "ada";
  email = codes "a@b";
  display_name = none;
  bio = none;
  avatar_url = none;
  deleted_at = none;
  deletion_scheduled_for = none;
  deletion_choices = none;
  deletion_reason = none;
  created_at = pos 0;
  password_hash = some stored;
  is_admin = true;
}

abbrev everyone : Accounts
everyone = record { users = ada ∷ []; sessions = []; email_changes = [] }

abbrev today : Env
today = record {
  now = pos 100;
  limiter_now = pos 100;
  crypto = toy_crypto;
  salt = some (2 ∷ []);
  token_bytes = some (7 ∷ []);
  confirm_bytes = some (8 ∷ []);
  cancel_bytes = some (9 ∷ []);
  new_user_id = 6;
  new_session_id = 60;
  new_change_id = 61;
  user_agent = [];
  client_ip = none;
  fold = λ s. s;
  mode = single_user;
}

abbrev up : AuthOutage
up q = false

abbrev free : Buckets ℕ
free = record { new_limiter = 0; allow_one = λ b t. (true, b) }

abbrev calm : Limiter ℕ
calm = record { buckets = []; idle_ttl = 10; last_eviction = pos 0 }

abbrev asks : LoginRequest
asks = record { identifier = codes "ada"; password = codes "longenough" }

abbrev welcome : AuthResponse
welcome = record { token = 120 ∷ 7 ∷ []; user = to_public_user ada }

filled : (b : Bytes) → today.token_bytes ≡ some b → today.crypto.url_encode b ≢ []
filled b h e = cc

let_in : (handle_login today up free (some asks) calm everyone).2 ≡ done 200 welcome
unfolding handle_login allow same_text
let_in = refl

login_opens_example :
    Opened today up asks everyone (handle_login today up free (some asks) calm everyone).1 welcome
    × ((out : Env) (cut : AuthOutage) (later : Env) (broken : AuthOutage) (now : Accounts)
        → cut delete_session_query ≡ false
        → out.crypto ≡ later.crypto
        → acts_as later broken welcome.token (handle_logout out cut welcome.token now).0 ≡ none)
login_opens_example = login_opens today up free asks calm everyone welcome filled let_in

abbrev renewed : ChangePasswordRequest
renewed = record { current_password = codes "longenough"; new_password = codes "evenlonger" }

turned : (handle_change_password today up ada (some renewed) everyone).1 ≡ done 200 welcome
unfolding handle_change_password bytes_eq
turned = refl

change_rotates_example :
    Rotated today up ada renewed everyone
      (handle_change_password today up ada (some renewed) everyone).0
      welcome
change_rotates_example = change_rotates today up ada renewed everyone welcome filled turned

abbrev newcomer : RegisterRequest
newcomer = record {
  username = codes "bob";
  email = codes "b@b";
  password = codes "longenough";
  display_name = [];
}

abbrev tries : List Attempt
tries =
    record { env = today; down = up; body = some newcomer }
    ∷ record { env = today; down = up; body = some newcomer }
    ∷ []

abbrev nobody : Accounts
nobody = record { users = []; sessions = []; email_changes = [] }

single_user_one_example : live_users (attempts tries nobody) ≤ 1
single_user_one_example = single_user_one tries nobody (refl, (refl, tt)) (omega arith)

abbrev post : Post
post = record {
  configured = true;
  trim = λ s. s;
  parse_address = some;
  equal_fold = bytes_eq;
  id_text = λ n. n ∷ [];
  send_fault = λ s. none;
}

abbrev moves : ChangeEmailRequest
moves = record { current_password = codes "longenough"; email = codes "c@b" }

-- The links are those of the tokens 8 and 9.
abbrev waiting : EmailChangeRequest
waiting = record {
  id = 61;
  user_id = 5;
  new_email = codes "c@b";
  old_email = codes "a@b";
  confirm_token_hash = 120 ∷ 120 ∷ 8 ∷ [];
  cancel_token_hash = 120 ∷ 120 ∷ 9 ∷ [];
  created_at = pos 50;
  expires_at = pos 200;
}

abbrev asked : Accounts
asked = record { users = ada ∷ []; sessions = []; email_changes = waiting ∷ [] }

abbrev link : Bytes
link = 120 ∷ 8 ∷ []

-- The link does change the address.
followed :
    map (λ (u : User). u.email) (handle_confirm_email_change today up (some link) asked).0.users
    ≡ codes "c@b" ∷ []
unfolding handle_confirm_email_change same_text bytes_eq
followed = refl

email-Guarded_example :
    ((handle_change_email today up post free ada (some moves) calm asked).2.users ≡ asked.users)
    × ((handle_cancel_email_change today up (some (120 ∷ 9 ∷ [])) asked).0.users ≡ asked.users)
    × Guarded today up link asked (handle_confirm_email_change today up (some link) asked).0.users
email-Guarded_example =
    email-Guarded today up post ada free (some moves) calm (some (120 ∷ 9 ∷ [])) link asked
