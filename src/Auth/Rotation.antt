-- ===== src/Auth/Rotation.antt =====
-- What a change of password leaves of the sessions (internal/server/profile.go).
use zymobrew.Base.{
  ◌≡◌, ◌≢◌, refl, ap, sym, subst, ◌∙◌, ◌⊎◌, inl, inr, true, false, not, [], ◌∷◌, Option, none, some,
  Bytes, bytes_eq, bytes_eq→eq, find, select, length, ltb, ◌==◌, if_rule, arith, All, All-append,
  All-of, All-select_of, All_at, Bool-cases, find-some,
}
use zymobrew.Schema.Users.{User, Session}
use zymobrew.Store.{refused-ne-done, done_inj, Reply, done}
use zymobrew.Auth.Passwords.{hash_session_token, verify_password, hash_password}
use zymobrew.Auth.{
  Accounts, Env, AuthOutage, session_query, update_password_query, delete_sessions_query, is_live,
  session_of,
}
use zymobrew.Auth.Sessions.{new_session, issue_session}
use zymobrew.Auth.Register.{AuthResponse, signed_in, to_public_user, min_password_len}
use zymobrew.Auth.Password.{
  ChangePasswordRequest, update_user_password, delete_sessions_for_user, rotate, store_password,
  replace_password, handle_change_password,
}
use zymobrew.Auth.Tokens.{
  acts_as, acts_as-session, IsWithin, Issued, issue_session-Issued, Issued-acts,
}

module _ (e : Env) (down : AuthOutage) (user : User) where
  -- What a change of password that is answered with 200 shows and leaves.
  abbrev pub Rotated : ChangePasswordRequest → Accounts → Accounts → AuthResponse → Type 0
  Rotated req a after r =
      (old : Bytes) × (hash : Bytes) × (user.password_hash ≡ some old)
      × (verify_password e.crypto req.current_password old ≡ true)
      × (hash_password e.crypto e.salt req.new_password ≡ some hash)
      × (after.users ≡ (update_user_password e down user.id hash a).users)
      × ((later : Env) (broken : AuthOutage) (token : Bytes) (v : User)
          → later.crypto ≡ e.crypto
          → hash_session_token e.crypto token ≢ hash_session_token e.crypto r.token
          → acts_as later broken token after ≡ some v
          → v.id ≢ user.id)
      × ((later : Env) (broken : AuthOutage)
          → IsWithin e later
          → broken session_query ≡ false
          → acts_as later broken r.token after ≡ find (is_live user.id) after.users)

  -- The sessions that are left are other users' and the new one.
  others :
      (a after : Accounts) (token : Bytes)
      → Issued e down user.id (delete_sessions_for_user e down user.id a) after token
      → (later : Env) (broken : AuthOutage) (t : Bytes) (v : User) → later.crypto ≡ e.crypto
      → hash_session_token e.crypto t ≢ hash_session_token e.crypto token
      → acts_as later broken t after ≡ some v
      → v.id ≢ user.id
  unfolding delete_sessions_for_user new_session
  others a after token (b, hb, made, unused, left) later broken t v crypto apart acts =
      let (s, there, hit, found) = acts_as-session later broken t after v acts in
      let mine = hash_session_token e.crypto token in
      let new = new_session e down user.id mine in
      let kept = select (λ x. not (session_of user.id x)) a.sessions in
      let all : All (λ (x : Session). (session_of user.id x ≡ false) ⊎ (x ≡ new)) after.sessions =
        rw left (
          All-append (λ (x : Session). (session_of user.id x ≡ false) ⊎ (x ≡ new)) kept (new ∷ [])
            (All-select_of (λ (x : Session). (session_of user.id x ≡ false) ⊎ (x ≡ new))
              (λ x. not (session_of user.id x)) a.sessions
              (All-of _ (λ x h. inl (ground (arith, h))) a.sessions))
            (inr refl, tt)) in
      let owner : (v.id == s.user_id) ≡ true =
        ground (arith, (find-some (is_live s.user_id) after.users found).0) in
      elim (All_at _ s after.sessions all there) [
        | inl other ↦ λ same. ground (arith, other, owner, same)
        | inr fresh ↦ absurd (
            apart
              (sym (bytes_eq→eq mine (hash_session_token e.crypto t) (rw (fresh, crypto) at hit))))
      ]

  rotate-Rotated :
      (req : ChangePasswordRequest) (old hash : Bytes) (a : Accounts) (r : AuthResponse)
      → ((b : Bytes) → e.token_bytes ≡ some b → e.crypto.url_encode b ≢ [])
      → user.password_hash ≡ some old
      → verify_password e.crypto req.current_password old ≡ true
      → hash_password e.crypto e.salt req.new_password ≡ some hash
      → (rotate e down user (update_user_password e down user.id hash a)).1 ≡ done 200 r
      → Rotated req a (rotate e down user (update_user_password e down user.id hash a)).0 r
  unfolding rotate signed_in delete_sessions_for_user
  rotate-Rotated req old hash a r filled ho v hh k =
      elim (Bool-cases (down delete_sessions_query)) [
        | inl d ↦ absurd (refused-ne-done (rw d at k))
        | inr d ↦ rw d (issued (issue_session e down user.id bare) refl (rw d at k))
      ]
    where
      set : Accounts
      set = update_user_password e down user.id hash a

      bare : Accounts
      bare = delete_sessions_for_user e down user.id set

      issued :
          (out : Accounts × Option Bytes)
          → issue_session e down user.id bare ≡ out
          → (signed_in 200 "session rotate failed" user out).1 ≡ done 200 r
          → Rotated req a (signed_in 200 "session rotate failed" user out).0 r
      issued (after, none) ei k = absurd (refused-ne-done k)
      issued (after, some token) ei k =
          let answer : record { token = token; user = to_public_user user } ≡ r = done_inj k in
          let given : Issued e down user.id bare after token =
            subst (λ x. Issued e down user.id bare x token)
              (ap (λ (o : Accounts × Option Bytes). o.0) ei)
              (issue_session-Issued e down user.id bare token
                (ap (λ (o : Accounts × Option Bytes). o.1) ei)) in
          let users : after.users ≡ set.users = ap (λ (x : Accounts). x.users) given.4 in
          let named : token ≡ r.token = ap (λ (x : AuthResponse). x.token) answer in
          (
            old,
            hash,
            ho,
            v,
            hh,
            users,
            λ later broken t w crypto apart acts.
                others set after token given later broken t w crypto
                  (λ same. apart (same ∙ ap (hash_session_token e.crypto) named)) acts,
            λ later broken within up.
                subst (λ x. acts_as later broken x after ≡ find (is_live user.id) after.users) named
                  (Issued-acts e down user.id bare after token later broken given
                      (λ empty. filled given.0 given.1 (sym given.2 ∙ empty)) within up
                    ∙ ap (find (is_live user.id)) (sym users)),
          )

  -- A change of password that is answered with 200 was given the current password, and stores the
  -- hash of the new one in the user's live row and in no other. Afterwards no token acts for the user
  -- but the answered one, which does for 30 days: another token acts for other users at most, at
  -- whatever time and whatever else fails, unless its hash is the same. The encoding of the random
  -- bytes is not empty.
  pub change_rotates :
      (req : ChangePasswordRequest) (a : Accounts) (r : AuthResponse)
      → ((b : Bytes) → e.token_bytes ≡ some b → e.crypto.url_encode b ≢ [])
      → (handle_change_password e down user (some req) a).1 ≡ done 200 r
      → Rotated req a (handle_change_password e down user (some req) a).0 r
  unfolding handle_change_password replace_password store_password
  change_rotates req a r filled =
      if_rule Goal (ltb (length req.new_password) min_password_len) _ _
        (λ _ h. absurd (refused-ne-done h)) (λ _. with_old user.password_hash refl)
    where
      Goal : Accounts × Reply AuthResponse → Type 0
      Goal out = out.1 ≡ done 200 r → Rotated req a out.0 r

      stored :
          (old : Bytes)
          → user.password_hash ≡ some old
          → verify_password e.crypto req.current_password old ≡ true
          → (o : Option Bytes) → hash_password e.crypto e.salt req.new_password ≡ o
          → Goal (store_password e down user o a)
      stored old ho v none hh h = absurd (refused-ne-done h)
      stored old ho v (some hash) hh h = elim (Bool-cases (down update_password_query)) [
        | inl d ↦ absurd (refused-ne-done (rw d at h))
        | inr d ↦ rw d (rotate-Rotated req old hash a r filled ho v hh (rw d at h))
      ]

      with_old :
          (o : Option Bytes) → user.password_hash ≡ o → Goal (replace_password e down user req o a)
      with_old none ho = λ h. absurd (refused-ne-done h)
      with_old (some old) ho =
          if_rule Goal (not (verify_password e.crypto req.current_password old)) _ _
            (λ _ h. absurd (refused-ne-done h))
            (λ right.
              if_rule Goal (bytes_eq req.new_password req.current_password) _ _
                (λ _ h. absurd (refused-ne-done h))
                (λ _.
                  stored old ho (ground (arith, right))
                    (hash_password e.crypto e.salt req.new_password) refl))
