-- ===== src/Auth/EmailGuard.antt =====
-- What the requests of a change of email do to the users (internal/server/email_change.go).
use zymobrew.Base.{
  ◌≡◌, refl, ◌⊎◌, inl, inr, Bool, true, false, ◌||◌, not, List, [], ◌∷◌, ◌++◌, Option, none, some,
  Bytes, bytes_eq→eq, find, any, select, update, if_rule, Exists, find-some, and_left, and_right,
  Option-cases,
}
use zymobrew.Base.Int.{ltb_ℤ}
use zymobrew.Schema.Users.{User, EmailChangeRequest}
use zymobrew.Store.{Reply}
use zymobrew.Network.RateLimit.{Buckets, Limiter, allow}
use zymobrew.Auth.Passwords.{hash_session_token, verify_password}
use zymobrew.Auth.{
  Accounts, Env, AuthOutage, credential_query, clear_changes_query, create_change_query,
  delete_change_query, get_change_query, update_email_query, is_live, mailed,
}
use zymobrew.Auth.Register.{PublicUserView}
use zymobrew.Auth.EmailLinks.{
  confirms, cancels, takes, set_email, confirmed, confirm_found, handle_confirm_email_change,
  cancel_found, handle_cancel_email_change,
}
use zymobrew.Auth.EmailChange.{
  ChangeEmailRequest, Post, Mail, Pending, change_of, repeats, change_row, mail_links, store_change,
  mint_links, reauthenticated, is_bare, limited_change, handle_change_email,
}

module _ (e : Env) (down : AuthOutage) where
  module _ (p : Post) (user : User) where
    -- The users after a step of the request for a change.
    abbrev Unmoved : List User → List Mail × Accounts × Reply Pending → Type 0
    Unmoved us out = out.1.users ≡ us

    mailed_kept :
        (email confirm cancel : Bytes) (a : Accounts)
        → Unmoved a.users (mail_links e down p user email confirm cancel a)
    unfolding mail_links
    mailed_kept email confirm cancel a = elim (Option-cases (p.send_fault email)) [
      | inl h ↦ rw (h, mail_links) refl
      | inr (fault, h) ↦
          rw (h, mail_links)
            (if_rule (λ (x : Accounts). x.users ≡ a.users) (down delete_change_query) _ _
              (λ _. refl) (λ _. refl))
    ]

    stored_kept :
        (email : Bytes) (confirm cancel : Bytes × Bytes) (a : Accounts)
        → Unmoved a.users (store_change e down p user email confirm cancel a)
    unfolding store_change
    stored_kept email (confirm, ch) (cancel, xh) a =
        if_rule (Unmoved a.users) (down clear_changes_query) _ _ (λ _. refl)
          (λ _.
            let rest = select (λ c. not (change_of user.id c)) a.email_changes in
            if_rule (Unmoved a.users) (down create_change_query || repeats ch xh rest) _ _
              (λ _. refl)
              (λ _.
                mailed_kept email confirm cancel
                  (record a { email_changes = rest ++ change_row e down p user email ch xh ∷ [] })))

    minted_kept :
        (email : Bytes) (confirm cancel : Option (Bytes × Bytes)) (a : Accounts)
        → Unmoved a.users (mint_links e down p user email confirm cancel a)
    unfolding mint_links
    minted_kept email none cancel a = refl
    minted_kept email (some confirm) none a = refl
    minted_kept email (some confirm) (some cancel) a = stored_kept email confirm cancel a

    reauthenticated_kept :
        (password email : Bytes) (hash : Option Bytes) (a : Accounts)
        → Unmoved a.users (reauthenticated e down p user password email hash a)
    unfolding reauthenticated
    reauthenticated_kept password email none a = refl
    reauthenticated_kept password email (some hash) a =
        if_rule (Unmoved a.users) (not (verify_password e.crypto password hash)) _ _ (λ _. refl)
          (λ _.
            if_rule (Unmoved a.users) (down credential_query) _ _ (λ _. refl)
              (λ _.
                if_rule (Unmoved a.users) (any (mailed e email) a.users) _ _ (λ _. refl)
                  (λ _. minted_kept email _ _ a)))

    asked_kept :
        {B : Type 0} (b : Buckets B) (body : Option ChangeEmailRequest) (l : Limiter B)
        (a : Accounts)
        → (handle_change_email e down p b user body l a).2.users ≡ a.users
    unfolding handle_change_email limited_change
    asked_kept {B} b none l a =
        if_rule (λ (out : Limiter B × List Mail × Accounts × Reply Pending). out.2.users ≡ a.users)
          (not p.configured) _ _ (λ _. refl) (λ _. refl)
    asked_kept {B} b (some req) l a =
        if_rule Fine (not p.configured) _ _ (λ _. refl)
          (λ _.
            if_rule Fine
              (not (is_bare e down p (p.trim req.email) (p.parse_address (p.trim req.email)))) _ _
              (λ _. refl)
              (λ _.
                if_rule Fine (p.equal_fold (p.trim req.email) user.email) _ _ (λ _. refl)
                  (λ _. through (allow b (p.id_text user.id) e.limiter_now l))))
      where
        Fine : Limiter B × List Mail × Accounts × Reply Pending → Type 0
        Fine out = out.2.users ≡ a.users

        through : (gate : Bool × Limiter B) → Fine (limited_change e down p user req gate a)
        through (false, l') = refl
        through (true, l') =
            reauthenticated_kept req.current_password (p.trim req.email) user.password_hash a

  cancel_kept :
      (token : Option Bytes) (a : Accounts)
      → (handle_cancel_email_change e down token a).0.users ≡ a.users
  unfolding handle_cancel_email_change
  cancel_kept none a = refl
  cancel_kept (some []) a = refl
  cancel_kept (some (x ∷ token)) a =
      if_rule (λ (out : Accounts × Reply (Unit {0})). out.0.users ≡ a.users) (down get_change_query)
        _ _ (λ _. refl)
        (λ _.
          found (find (cancels e.now (hash_session_token e.crypto (x ∷ token))) a.email_changes))
    where
      found : (o : Option EmailChangeRequest) → (cancel_found e down o a).0.users ≡ a.users
      found none = unfold cancel_found in refl
      found (some c) =
          unfold cancel_found in
          if_rule (λ (out : Accounts × Reply (Unit {0})). out.0.users ≡ a.users)
            (down delete_change_query) _ _ (λ _. refl) (λ _. refl)

  -- The users are as they were, or a pending request of this confirmation token, not yet expired, has
  -- moved its user to the new address, which no other user has.
  abbrev pub Guarded : Bytes → Accounts → List User → Type 0
  Guarded token a users =
      (users ≡ a.users)
      ⊎ (c : EmailChangeRequest) × Exists (λ x. x ≡ c) a.email_changes
        × (c.confirm_token_hash ≡ hash_session_token e.crypto token)
        × (ltb_ℤ e.now c.expires_at ≡ true)
        × (any (takes e c.user_id c.new_email) a.users ≡ false)
        × (users ≡ update (is_live c.user_id) (set_email e down c.new_email) a.users)

  confirmed-Guarded :
      (token : Bytes) (a : Accounts) (o : Option EmailChangeRequest)
      → find (confirms e.now (hash_session_token e.crypto token)) a.email_changes ≡ o
      → Guarded token a (confirm_found e down o a).0.users
  unfolding confirm_found
  confirmed-Guarded token a none h = inl refl
  confirmed-Guarded token a (some c) h =
      if_rule Fine (down update_email_query) _ _ (λ _. inl refl)
        (λ _. moved (find (is_live c.user_id) a.users))
    where
      Fine : Accounts × Reply PublicUserView → Type 0
      Fine out = Guarded token a out.0.users

      moved : (o : Option User) → Fine (confirmed e down c o a)
      moved none = unfold confirmed in inl refl
      moved (some u) =
          let (hit, there) =
            find-some (confirms e.now (hash_session_token e.crypto token)) a.email_changes h in
          let hash =
            bytes_eq→eq c.confirm_token_hash (hash_session_token e.crypto token)
              (and_left _ _ hit) in
          let time = and_right _ _ hit in
          unfold confirmed in
          if_rule Fine (any (takes e c.user_id c.new_email) a.users) _ _ (λ _. inl refl)
            (λ free.
              if_rule (λ (x : Accounts). Guarded token a x.users) (down delete_change_query) _ _
                (λ _. inr (c, there, hash, time, free, refl))
                (λ _. inr (c, there, hash, time, free, refl)))

  -- Of the requests of a change of email, only a confirmation changes users: asking for a change and
  -- cancelling one leave all users as they were, whatever is sent and whatever fails. A confirmation
  -- does so too, or its token is the one of a pending request that has not expired, and it sets that
  -- request's live user, and no other, to the request's address, which no other user has.
  pub email-Guarded :
      {B : Type 0} (p : Post) (user : User) (b : Buckets B) (body : Option ChangeEmailRequest)
      (l : Limiter B) (cancel : Option Bytes) (token : Bytes) (a : Accounts)
      → ((handle_change_email e down p b user body l a).2.users ≡ a.users)
        × ((handle_cancel_email_change e down cancel a).0.users ≡ a.users)
        × Guarded token a (handle_confirm_email_change e down (some token) a).0.users
  unfolding handle_confirm_email_change
  email-Guarded p user b body l cancel token a =
      (asked_kept p user b body l a, cancel_kept cancel a, confirm token)
    where
      confirm : (t : Bytes) → Guarded t a (handle_confirm_email_change e down (some t) a).0.users
      confirm [] = inl refl
      confirm (x ∷ t) =
          if_rule (λ (out : Accounts × Reply PublicUserView). Guarded (x ∷ t) a out.0.users)
            (down get_change_query) _ _ (λ _. inl refl) (λ _. confirmed-Guarded (x ∷ t) a _ refl)
