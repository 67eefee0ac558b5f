-- ===== src/Auth/SingleUser.antt =====
-- The bootstrap of an instance for one user (internal/server/auth.go).
use Prim.Native.String.{String}
use zymobrew.Base.{
  ◌∙◌, ℕ, ◌≤◌, ◌≡◌, refl, Bool, false, not, ◌||◌, List, [], ◌∷◌, ◌++◌, Option, none, some, Bytes,
  length, length-append, select, select-append, any, ltb, arith, if_rule, inl, inr, Bool-cases, All,
  ap,
}
use zymobrew.Schema.Users.{User}
use zymobrew.Store.{Reply}
use zymobrew.Auth.Passwords.{hash_password, new_session_token}
use zymobrew.Auth.{
  Accounts, Env, AuthOutage, InstanceMode, single_user, open_mode, closed_mode, unknown_mode,
  is_null, begin_query, count_query, create_user_query, commit_query, commit_conflict, clashes,
  create_session_query, has_token,
}
use zymobrew.Auth.Sessions.{issue_session, create_session}
use zymobrew.Auth.Register.{
  user_row, RegisterRequest, AuthResponse, Registered, registered, registration_closed,
  unique_violation, failed, is_single_user, matches_username, has_at, min_password_len, create_user,
  committed, create_registration_user, signed_in, after_registration, register_hashed, register_in,
  handle_register,
}

abbrev pub is_present : User → Bool
is_present u = is_null u.deleted_at

abbrev pub live_users : Accounts → ℕ
live_users a = length (select is_present a.users)

-- A request for registration with its surroundings.
pub record Attempt : Type 0 where
  pub env : Env
  pub down : AuthOutage
  pub body : Option RegisterRequest

-- The requests of a run, one after another.
unfoldable pub attempts : List Attempt → Accounts → Accounts
attempts [] a = a
attempts (t ∷ ts) a = attempts ts (handle_register t.env t.down t.body a).0

none_live : (us : List User) → any is_present us ≡ false → length (select is_present us) ≡ 0
none_live [] h = refl
none_live (u ∷ us) h = ground (arith, none_live us)

module _ (e : Env) (down : AuthOutage) (a : Accounts) (one : live_users a ≤ 1) where
  created :
      (u : User)
      → any is_present a.users ≡ false
      → live_users (committed e down a (create_user e down u a)).0 ≤ 1
  unfolding create_user committed
  created u empty =
      if_rule (λ (o : Accounts × Registered). live_users (committed e down a o).0 ≤ 1)
        (down create_user_query) _ _ (λ _. one)
        (λ _.
          if_rule (λ (o : Accounts × Registered). live_users (committed e down a o).0 ≤ 1)
            (any (clashes e u.username u.email) a.users) _ _ (λ _. one)
            (λ _.
              if_rule (λ (o : Accounts × Registered). live_users o.0 ≤ 1) (down commit_query) _ _
                (λ _. one)
                (λ _.
                  if_rule (λ (o : Accounts × Registered). live_users o.0 ≤ 1) (down commit_conflict)
                    _ _ (λ _. one) (λ _. first))))
    where
      first : length (select is_present (a.users ++ u ∷ [])) ≤ 1
      first = rw (select-append is_present a.users (u ∷ [])) (elim (Bool-cases (is_present u)) [
        | inl p ↦ rw p (
            omega
              (arith, length-append (select is_present a.users) (u ∷ []), none_live a.users empty))
        | inr p ↦ rw p (
            omega
              (arith, length-append {0} (select is_present a.users) [], none_live a.users empty))
      ])

  gated : (u : User) → e.mode ≡ single_user → live_users (create_registration_user e down u a).0 ≤ 1
  unfolding create_registration_user
  gated u mode = rw (ap is_single_user mode) (
      if_rule (λ (o : Accounts × Registered). live_users o.0 ≤ 1)
        (down begin_query || down count_query) _ _ (λ _. one)
        (λ _.
          if_rule (λ (o : Accounts × Registered). live_users o.0 ≤ 1) (any is_present a.users) _ _
            (λ _. one) (λ empty. created u empty)))

  session_kept :
      (user : ℕ) (o : Option (Bytes × Bytes)) (b : Accounts)
      → (create_session e down user o b).0.users ≡ b.users
  unfolding create_session
  session_kept user none b = refl
  session_kept user (some (raw, hash)) b =
      if_rule (λ (x : Accounts × Option Bytes). x.0.users ≡ b.users)
        (down create_session_query || any (has_token hash) b.sessions) _ _ (λ _. refl) (λ _. refl)

  answered_kept :
      (status : ℕ) (message : String) (u : User) (out : Accounts × Option Bytes)
      → (signed_in status message u out).0 ≡ out.0
  unfolding signed_in
  answered_kept status message u (b, none) = refl
  answered_kept status message u (b, some token) = refl

  after_kept :
      (b : Accounts) (o : Registered) → (after_registration e down (b, o)).0.users ≡ b.users
  unfolding after_registration issue_session
  after_kept b registration_closed = refl
  after_kept b unique_violation = refl
  after_kept b failed = refl
  after_kept b (registered u) =
      ap (λ (x : Accounts). x.users)
        (answered_kept 201 "session create failed" u
          (create_session e down u.id (new_session_token e.crypto e.token_bytes) b))
      ∙ session_kept u.id (new_session_token e.crypto e.token_bytes) b

  hashed_kept :
      (req : RegisterRequest) (o : Option Bytes)
      → e.mode ≡ single_user
      → live_users (register_hashed e down req o a).0 ≤ 1
  unfolding register_hashed
  hashed_kept req none mode = one
  hashed_kept req (some hash) mode =
      let out = create_registration_user e down (user_row e down req hash) a in
      let same : length (select is_present (after_registration e down out).0.users)
          ≡ live_users out.0 =
        ap (λ us. length (select is_present us)) (after_kept out.0 out.1) in
      let small : live_users out.0 ≤ 1 = gated (user_row e down req hash) mode in
      omega (arith, same, small)

  one_kept :
      (body : Option RegisterRequest)
      → e.mode ≡ single_user
      → live_users (handle_register e down body a).0 ≤ 1
  unfolding handle_register register_in
  one_kept none mode = one
  one_kept (some req) mode =
      if_rule Fine (not (matches_username req.username)) _ _ (λ _. one)
        (λ _.
          if_rule Fine (not (has_at req.email)) _ _ (λ _. one)
            (λ _.
              if_rule Fine (ltb (length req.password) min_password_len) _ _ (λ _. one)
                (λ _. any_mode e.mode mode)))
    where
      Fine : Accounts × Reply AuthResponse → Type 0
      Fine out = live_users out.0 ≤ 1

      any_mode : (m : InstanceMode) → e.mode ≡ single_user → Fine (register_in e down m req a)
      any_mode closed_mode mode = one
      any_mode unknown_mode mode = one
      any_mode open_mode mode = hashed_kept req (hash_password e.crypto e.salt req.password) mode
      any_mode single_user mode = hashed_kept req (hash_password e.crypto e.salt req.password) mode

-- An instance for a single user never has two: through any run of registrations, whatever they send
-- and whichever queries or commits fail, at most one user is live, if that holds at its start.
pub single_user_one :
    (ts : List Attempt) (a : Accounts)
    → All (λ t. t.env.mode ≡ single_user) ts
    → live_users a ≤ 1
    → live_users (attempts ts a) ≤ 1
unfolding attempts
single_user_one [] a modes one = one
single_user_one (t ∷ ts) a (mode, modes) one =
    single_user_one ts (handle_register t.env t.down t.body a).0 modes
      (one_kept t.env t.down a one t.body mode)
