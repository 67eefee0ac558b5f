-- ===== src/Auth/Sessions.antt =====
-- Sessions: `extractToken`, `authMiddleware`, `requireAuth`, `issueSession` and `handleLogout` of
-- internal/server/auth.go.
use mathlib.Core.Option
use zymobrew.Base.{
  ℕ, ◌+◌, ◌&&◌, ◌||◌, not, [], ◌∷◌, ◌++◌, Option, none, some, Bytes, codes, find, any, select,
  update, is_empty, leb, ◌==◌, if◌then◌else◌,
}
use zymobrew.Base.Int.{pos, ◌+ℤ◌, ◌-ℤ◌, ltb_ℤ}
use zymobrew.Schema.Users.{User, Session}
use zymobrew.Store.{Reply, done, refused}
use zymobrew.Auth.Passwords.{hash_session_token, new_session_token}
use zymobrew.Auth.{
  Accounts, Env, AuthOutage, session_query, touch_query, create_session_query, delete_session_query,
  session_duration, session_touch_interval, is_live, is_current, has_token,
}

-- A letter of ASCII in lower case.
abbrev pub lower : ℕ → ℕ
lower c = if leb b'A' c && leb c b'Z' then c + 32 else c

-- The text after a prefix, whatever its case, if it is there.
unfoldable pub after_scheme : Bytes → Bytes → Option Bytes
after_scheme [] s = some s
after_scheme (p ∷ ps) [] = none
after_scheme (p ∷ ps) (c ∷ s) =
    let rest = after_scheme ps s in if lower c == lower p then rest else none

-- `h[7:]` where the header is longer than the scheme and begins with it.
unfoldable pub bearer : (Bytes → Bytes) → Option Bytes → Bytes
bearer trim none = []
bearer trim (some []) = []
bearer trim (some (c ∷ s)) = trim (c ∷ s)

-- The cookie, or else the header `Authorization`; `trim` is `strings.TrimSpace`.
unfoldable pub extract_token : (Bytes → Bytes) → Option Bytes → Bytes → Bytes
unfolding bearer after_scheme
extract_token trim (some cookie) header = cookie
extract_token trim none header = bearer trim (after_scheme (codes "Bearer ") header)

module _ (e : Env) (down : AuthOutage) where
  -- `GetSessionWithUser`: a current session with its live user.
  unfoldable pub get_session_with_user : Bytes → Accounts → Option (Session × User)
  get_session_with_user hash a = elim (find (is_current e.now hash) a.sessions) [
    | none ↦ none
    | some s ↦ Option.map (λ u. (s, u)) (find (is_live s.user_id) a.users)
  ]

  -- `TouchSession`, where the session was seen long ago; its error is ignored.
  unfoldable pub touch : Session → Accounts → Accounts
  touch s a =
      if ltb_ℤ (pos session_touch_interval) (e.now -ℤ s.last_seen_at) && not (down touch_query)
      then record a {
        sessions =
            update (λ (x : Session). x.id == s.id) (λ x. record x { last_seen_at = e.now })
              a.sessions;
      }
      else a

  -- The user of a request, and what the middleware leaves: an error of the query counts as no session.
  unfoldable pub loaded : Option (Session × User) → Accounts → Accounts × Option User
  unfolding touch
  loaded none a = (a, none)
  loaded (some (s, u)) a = (touch s a, some u)

  unfoldable pub auth_middleware : Bytes → Accounts → Accounts × Option User
  unfolding loaded get_session_with_user hash_session_token
  auth_middleware [] a = (a, none)
  auth_middleware (c ∷ token) a =
      if down session_query
      then (a, none)
      else loaded (get_session_with_user (hash_session_token e.crypto (c ∷ token)) a) a

  unfoldable pub new_session : ℕ → Bytes → Session
  new_session user hash = record {
    id = e.new_session_id;
    user_id = user;
    token_hash = hash;
    user_agent = if is_empty e.user_agent then none else some e.user_agent;
    ip = e.client_ip;
    created_at = e.now;
    last_seen_at = e.now;
    expires_at = e.now +ℤ pos session_duration;
  }

  -- `CreateSession`; the column token_hash is UNIQUE.
  unfoldable pub create_session : ℕ → Option (Bytes × Bytes) → Accounts → Accounts × Option Bytes
  unfolding new_session
  create_session user none a = (a, none)
  create_session user (some (raw, hash)) a =
      if down create_session_query || any (has_token hash) a.sessions
      then (a, none)
      else (record a { sessions = a.sessions ++ new_session user hash ∷ [] }, some raw)

  -- The token of a new session, where there is one.
  unfoldable pub issue_session : ℕ → Accounts → Accounts × Option Bytes
  unfolding create_session new_session_token
  issue_session user a = create_session user (new_session_token e.crypto e.token_bytes) a

  -- The deletion's error is ignored.
  unfoldable pub handle_logout : Bytes → Accounts → Accounts × Reply (Unit {0})
  unfolding hash_session_token
  handle_logout [] a = (a, done 200 tt)
  handle_logout (c ∷ token) a = if down delete_session_query then (a, done 200 tt) else (
    record a {
      sessions =
          select (λ s. not (has_token (hash_session_token e.crypto (c ∷ token)) s)) a.sessions;
    },
    done 200 tt,
  )

-- `requireAuth`
unfoldable pub require_auth : {A : Type 0} → Option User → (User → Reply A) → Reply A
require_auth none next = refused 401 "unauthorized"
require_auth (some u) next = next u
