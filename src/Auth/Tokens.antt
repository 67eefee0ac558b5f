-- ===== src/Auth/Tokens.antt =====
-- What a token is worth: the sessions that internal/server/auth.go issues, finds and deletes.
use mathlib.Core.Option
use zymobrew.Base.{
  none-ne-some, ℕ, ◌≡◌, ◌≢◌, refl, ap, and_true, sym, ◌∙◌, inl, inr, Bool, true, false, ◌&&◌, ◌||◌,
  not, List, [], ◌∷◌, ◌++◌, Option, none, some, Bytes, bytes_eq_refl, find, any, select, arith,
  Bool-cases, Option-cases, find-some, Exists,
}
use zymobrew.Base.Int.{pos, ◌+ℤ◌, ltb_ℤ}
use zymobrew.Schema.Users.{User, Session}
use zymobrew.Auth.Passwords.{Crypto, hash_session_token, new_session_token}
use zymobrew.Auth.{
  Accounts, Env, AuthOutage, session_query, create_session_query, delete_session_query,
  session_duration, is_live, is_current, has_token,
}
use zymobrew.Auth.Sessions.{
  get_session_with_user, loaded, auth_middleware, new_session, create_session, issue_session,
  handle_logout,
}

-- The user that a request with this token acts for, at another time and with other queries failing.
abbrev pub acts_as : Env → AuthOutage → Bytes → Accounts → Option User
acts_as e down token a = (auth_middleware e down token a).1

some_inj : {A : Type 0} {a b : A} → ◌≡◌ {A = Option A} (some a) (some b) → a ≡ b
some_inj h = cc

find_new :
    {A : Type 0} (p : A → Bool) (xs : List A) (x : A)
    → any p xs ≡ false
    → p x ≡ true
    → find p (xs ++ x ∷ []) ≡ some x
find_new p [] x h k = rw k refl
find_new p (y ∷ ys) x h k = elim (Bool-cases (p y)) [
  | inl e ↦ ground arith
  | inr e ↦ rw e (find_new p ys x (ground arith) k)
]

any-false :
    {A : Type 0} (p q : A → Bool) (xs : List A)
    → any p xs ≡ false
    → any (λ x. p x && q x) xs ≡ false
any-false p q [] h = refl
any-false p q (x ∷ xs) h = ground (arith, any-false p q xs)

find-any : {A : Type 0} (p : A → Bool) (xs : List A) → any p xs ≡ false → find p xs ≡ none
find-any p [] h = refl
find-any p (x ∷ xs) h = ground (arith, find-any p xs)

acts_as-empty : (e : Env) (down : AuthOutage) (a : Accounts) → acts_as e down [] a ≡ none
unfolding auth_middleware
acts_as-empty e down a = refl

acts_as-down :
    (e : Env) (down : AuthOutage) (token : Bytes) (a : Accounts)
    → down session_query ≡ true
    → acts_as e down token a ≡ none
unfolding auth_middleware
acts_as-down e down [] a d = refl
acts_as-down e down (c ∷ token) a d = rw (d, acts_as) refl

-- The request's user is the one of the session that is found.
pub acts_as-found :
    (e : Env) (down : AuthOutage) (token : Bytes) (a : Accounts) (s : Session)
    → token ≢ []
    → down session_query ≡ false
    → find (is_current e.now (hash_session_token e.crypto token)) a.sessions ≡ some s
    → acts_as e down token a ≡ find (is_live s.user_id) a.users
unfolding auth_middleware get_session_with_user loaded
acts_as-found e down [] a s t d found = absurd (t refl)
acts_as-found e down (c ∷ token) a s t d found =
    rw (d, acts_as)
      (rw (found, get_session_with_user) (live (find (is_live s.user_id) a.users) refl))
  where
    live :
        (o : Option User)
        → find (is_live s.user_id) a.users ≡ o
        → (loaded e down (Option.map (λ u. (s, u)) (find (is_live s.user_id) a.users)) a).1
          ≡ find (is_live s.user_id) a.users
    live none h = rw h refl
    live (some u) h = rw h refl

-- Nor does it act for anybody where no session is found.
pub acts_as-unfound :
    (e : Env) (down : AuthOutage) (token : Bytes) (a : Accounts)
    → find (is_current e.now (hash_session_token e.crypto token)) a.sessions ≡ none
    → acts_as e down token a ≡ none
unfolding auth_middleware get_session_with_user loaded
acts_as-unfound e down [] a h = refl
acts_as-unfound e down (c ∷ token) a h = elim (Bool-cases (down session_query)) [
  | inl d ↦ rw (d, acts_as) refl
  | inr d ↦ rw (d, acts_as) (rw (h, get_session_with_user) refl)
]

-- Who acts has a session of this token, and is its live user.
pub acts_as-session :
    (e : Env) (down : AuthOutage) (token : Bytes) (a : Accounts) (u : User)
    → acts_as e down token a ≡ some u
    → (s : Session) × Exists (λ x. x ≡ s) a.sessions
      × (has_token (hash_session_token e.crypto token) s ≡ true)
      × (find (is_live s.user_id) a.users ≡ some u)
acts_as-session e down [] a u h = absurd (none-ne-some (sym (acts_as-empty e down a) ∙ h))
acts_as-session e down (c ∷ token) a u h =
    elim (Option-cases
      (find (is_current e.now (hash_session_token e.crypto (c ∷ token))) a.sessions)) [
        | inl n ↦ absurd (none-ne-some (sym (acts_as-unfound e down (c ∷ token) a n) ∙ h))
        | inr (s, f) ↦
            let (hit, there) =
              find-some (is_current e.now (hash_session_token e.crypto (c ∷ token))) a.sessions f in
            elim (Bool-cases (down session_query)) [
              | inl d ↦ absurd (none-ne-some (sym (acts_as-down e down (c ∷ token) a d) ∙ h))
              | inr d ↦ (
                s,
                there,
                ground (arith, hit),
                sym (acts_as-found e down (c ∷ token) a s (λ x. cc) d f) ∙ h,
              )
            ]
      ]

module _ (e : Env) where
  -- An environment of another request of the same server, before the sessions of `e` expire.
  abbrev pub IsWithin : Env → Type 0
  IsWithin later =
      (later.crypto ≡ e.crypto) × (ltb_ℤ later.now (e.now +ℤ pos session_duration) ≡ true)

  module _ (down : AuthOutage) where
    -- What the issue of a session leaves.
    abbrev pub Issued : ℕ → Accounts → Accounts → Bytes → Type 0
    Issued user a after token =
        (b : Bytes) × (e.token_bytes ≡ some b)
        × (token ≡ e.crypto.url_encode b)
        × (any (has_token (hash_session_token e.crypto token)) a.sessions ≡ false)
        × (after ≡ record a {
          sessions = a.sessions ++ new_session e down user (hash_session_token e.crypto token) ∷ [];
        })

    pub issue_session-Issued :
        (user : ℕ) (a : Accounts) (token : Bytes)
        → (issue_session e down user a).1 ≡ some token
        → Issued user a (issue_session e down user a).0 token
    unfolding issue_session new_session_token
    issue_session-Issued user a token = made e.token_bytes refl
      where
        made :
            (o : Option Bytes)
            → e.token_bytes ≡ o
            → (create_session e down user (new_session_token e.crypto o) a).1 ≡ some token
            → Issued user a (create_session e down user (new_session_token e.crypto o) a).0 token
        made none h k = absurd (none-ne-some k)
        made (some b) h k =
            let hash = hash_session_token e.crypto (e.crypto.url_encode b) in
            elim (Bool-cases (down create_session_query || any (has_token hash) a.sessions)) [
              | inl bad ↦ absurd (none-ne-some (rw (bad, create_session) at k))
              | inr good ↦
                  let same : e.crypto.url_encode b ≡ token =
                    some_inj (rw (good, create_session) at k) in
                  rw (good, create_session)
                    (b, h, sym same, rw (sym same) (ground (arith, good)), rw (sym same) refl)
            ]

    -- A token acts for its user until its session expires.
    pub Issued-acts :
        (user : ℕ) (a after : Accounts) (token : Bytes) (later : Env) (broken : AuthOutage)
        → Issued user a after token
        → token ≢ []
        → IsWithin later
        → broken session_query ≡ false
        → acts_as later broken token after ≡ find (is_live user) a.users
    unfolding new_session
    Issued-acts user a after token later broken (b, hb, made, unused, left) filled (crypto, time)
          up =
        let hash = hash_session_token e.crypto token in
        let s = new_session e down user hash in
        let same : hash_session_token later.crypto token ≡ hash =
          ap (λ (c : Crypto). hash_session_token c token) crypto in
        let found : find (is_current later.now hash) (a.sessions ++ s ∷ []) ≡ some s =
          find_new (is_current later.now hash) a.sessions s
            (any-false (has_token hash) (λ x. ltb_ℤ later.now x.expires_at) a.sessions unused)
            (and_true (bytes_eq_refl hash) time) in
        rw left (
          acts_as-found later broken token (record a { sessions = a.sessions ++ s ∷ [] }) s filled
            up (rw same found))

    -- A token that has been handed in acts for nobody any more.
    pub logout-acts :
        (token : Bytes) (a : Accounts) (later : Env) (broken : AuthOutage)
        → down delete_session_query ≡ false
        → later.crypto ≡ e.crypto
        → acts_as later broken token (handle_logout e down token a).0 ≡ none
    unfolding handle_logout
    logout-acts [] a later broken d crypto = acts_as-empty later broken a
    logout-acts (c ∷ token) a later broken d crypto =
        let same : hash_session_token later.crypto (c ∷ token)
            ≡ hash_session_token e.crypto (c ∷ token) =
          ap (λ (k : Crypto). hash_session_token k (c ∷ token)) crypto in
        rw d (
          acts_as-unfound later broken (c ∷ token) _
            (rw same (gone (hash_session_token e.crypto (c ∷ token)) a.sessions)))
      where
        gone :
            (hash : Bytes) (ss : List Session)
            → find (is_current later.now hash) (select (λ s. not (has_token hash s)) ss) ≡ none
        gone hash [] = refl
        gone hash (s ∷ ss) = elim (Bool-cases (has_token hash s)) [
          | inl h ↦ rw h (gone hash ss)
          | inr h ↦ rw h (rw h (gone hash ss))
        ]
