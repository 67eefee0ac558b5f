-- ===== src/Auth/Laws.antt =====
-- What a login shows and leaves (internal/server/auth.go).

use zymobrew.Base.{
  ◌≡◌, ◌≢◌, refl, ap, sym, subst, ◌∙◌, inl, inr, Bool, true, false, [], Option, none, some, Bytes,
  find, is_empty, if_rule, arith, Bool-cases, find-some,
}
use zymobrew.Schema.Users.{User}
use zymobrew.Store.{refused-ne-done, done_inj, Reply, done}
use zymobrew.Network.RateLimit.{Buckets, Limiter, allow}
use zymobrew.Auth.Passwords.{verify_password}
use zymobrew.Auth.{
  Accounts, Env, AuthOutage, session_query, delete_session_query, get_user_query, is_live,
}
use zymobrew.Auth.Sessions.{issue_session, handle_logout}
use zymobrew.Auth.Register.{AuthResponse, signed_in, to_public_user}
use zymobrew.Auth.Login.{
  LoginRequest, lookup_credential, with_hash, is_right, entered, enter, check_login, limited,
  handle_login,
}
use zymobrew.Auth.Tokens.{acts_as, IsWithin, Issued, issue_session-Issued, Issued-acts, logout-acts}

module _ (e : Env) where
  module _ (down : AuthOutage) where
    -- What a login that is answered with 200 shows and leaves, for the answer's token.
    abbrev pub Opened : LoginRequest → Accounts → Accounts → AuthResponse → Type 0
    Opened req a after r =
        (u : User) × (hash : Bytes) × (user : User) × (lookup_credential e down req.identifier a
          ≡ some u)
        × (u.password_hash ≡ some hash)
        × (verify_password e.crypto req.password hash ≡ true)
        × (find (is_live u.id) a.users ≡ some user)
        × (r.user ≡ to_public_user user)
        × ((later : Env) (broken : AuthOutage)
            → IsWithin e later
            → broken session_query ≡ false
            → acts_as later broken r.token after ≡ some user)

    enter-Opened :
        (req : LoginRequest) (a : Accounts) (r : AuthResponse)
        → ((b : Bytes) → e.token_bytes ≡ some b → e.crypto.url_encode b ≢ [])
        → (check_login e down req a).1 ≡ done 200 r
        → Opened req a (check_login e down req a).0 r
    unfolding check_login enter entered is_right with_hash signed_in
    enter-Opened req a r filled = looked_up (lookup_credential e down req.identifier a) refl
      where
        issued :
            (u user : User) (hash : Bytes)
            → lookup_credential e down req.identifier a ≡ some u
            → u.password_hash ≡ some hash
            → verify_password e.crypto req.password hash ≡ true
            → find (is_live u.id) a.users ≡ some user
            → (out : Accounts × Option Bytes) → issue_session e down user.id a ≡ out
            → (signed_in 200 "session create failed" user out).1 ≡ done 200 r
            → Opened req a (signed_in 200 "session create failed" user out).0 r
        issued u user hash h hp v f (after, none) ei k = absurd (refused-ne-done k)
        issued u user hash h hp v f (after, some token) ei k =
            let answer : record { token = token; user = to_public_user user } ≡ r = done_inj k in
            let given : Issued e down user.id a after token =
              subst (λ x. Issued e down user.id a x token)
                (ap (λ (o : Accounts × Option Bytes). o.0) ei)
                (issue_session-Issued e down user.id a token
                  (ap (λ (o : Accounts × Option Bytes). o.1) ei)) in
            let same_id : user.id ≡ u.id = ground (arith, (find-some (is_live u.id) a.users f).0) in
            (
              u,
              hash,
              user,
              h,
              hp,
              v,
              f,
              ap (λ (x : AuthResponse). x.user) (sym answer),
              λ later broken within up.
                  subst (λ (x : AuthResponse). acts_as later broken x.token after ≡ some user)
                    answer
                    (Issued-acts e down user.id a after token later broken given
                        (λ empty. filled given.0 given.1 (sym given.2 ∙ empty)) within up
                      ∙ ap (λ n. find (is_live n) a.users) same_id
                      ∙ f),
            )

        fetched :
            (u : User) (hash : Bytes)
            → lookup_credential e down req.identifier a ≡ some u
            → u.password_hash ≡ some hash
            → verify_password e.crypto req.password hash ≡ true
            → (o : Option User) → find (is_live u.id) a.users ≡ o
            → (entered e down o a).1 ≡ done 200 r
            → Opened req a (entered e down o a).0 r
        fetched u hash h hp v none f k = absurd (refused-ne-done k)
        fetched u hash h hp v (some user) f k =
            issued u user hash h hp v f (issue_session e down user.id a) refl k

        verified :
            (u : User)
            → lookup_credential e down req.identifier a ≡ some u
            → (o : Option Bytes) → u.password_hash ≡ o
            → (enter e down (with_hash e down req.password u o) a).1 ≡ done 200 r
            → Opened req a (enter e down (with_hash e down req.password u o) a).0 r
        verified u h none hp k = absurd (refused-ne-done k)
        verified u h (some hash) hp k =
            elim (Bool-cases (verify_password e.crypto req.password hash)) [
              | inr wrong ↦ absurd (refused-ne-done (rw (wrong, with_hash) at k))
              | inl right ↦ elim (Bool-cases (down get_user_query)) [
                | inl d ↦ absurd (refused-ne-done (rw d at (rw (right, with_hash) at k)))
                | inr d ↦
                    rw (right, with_hash)
                      (rw d (
                        fetched u hash h hp right (find (is_live u.id) a.users) refl
                          (rw d at (rw (right, with_hash) at k))))
              ]
            ]

        looked_up :
            (o : Option User)
            → lookup_credential e down req.identifier a ≡ o
            → (enter e down (is_right e down req.password o) a).1 ≡ done 200 r
            → Opened req a (enter e down (is_right e down req.password o) a).0 r
        looked_up none h k = absurd (refused-ne-done k)
        looked_up (some u) h k = verified u h u.password_hash refl k

    -- A login that is answered with 200 knew the password of the live user that its identifier names:
    -- the password verifies against the hash in that user's row. Until the session's 30 days are
    -- over, a request with the answered token acts for that user, whatever else fails; and once the
    -- token has been handed in by a logout whose deletion does not fail, it acts for nobody. The
    -- encoding of the random bytes is not empty.
    pub login_opens :
        {B : Type 0} (b : Buckets B) (req : LoginRequest) (l : Limiter B) (a : Accounts)
        (r : AuthResponse)
        → ((x : Bytes) → e.token_bytes ≡ some x → e.crypto.url_encode x ≢ [])
        → (handle_login e down b (some req) l a).2 ≡ done 200 r
        → Opened req a (handle_login e down b (some req) l a).1 r
          × ((out : Env) (cut : AuthOutage) (later : Env) (broken : AuthOutage) (now : Accounts)
              → cut delete_session_query ≡ false
              → out.crypto ≡ later.crypto
              → acts_as later broken r.token (handle_logout out cut r.token now).0 ≡ none)
    unfolding handle_login limited
    login_opens {B} b req l a r filled k = (
      if_rule
          (λ (out : Limiter B × Accounts × Reply AuthResponse).
            out.2 ≡ done 200 r → Opened req a out.1 r)
          (is_empty req.identifier) _ _ (λ _. enter-Opened req a r filled)
          (λ _. through (allow b (e.fold req.identifier) e.limiter_now l)) k,
      λ out cut later broken now up same.
          logout-acts out cut r.token now later broken up (sym same),
    )
      where
        through :
            (gate : Bool × Limiter B)
            → (limited e down req gate a).2 ≡ done 200 r
            → Opened req a (limited e down req gate a).1 r
        through (false, l') h = absurd (refused-ne-done h)
        through (true, l') h = enter-Opened req a r filled h
