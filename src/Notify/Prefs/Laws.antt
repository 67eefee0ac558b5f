-- ===== src/Notify/Prefs/Laws.antt =====
-- Which Apprise URLs the preferences of internal/server/reminders.go can hold.
use Prim.Native.String.{String}
use zymobrew.Base.{
  ℕ, ◌≡◌, refl, ◌⊎◌, inl, inr, Bool, true, false, List, [], ◌∷◌, ◌++◌, Option, none, some, Bytes,
  find, any, update, All, All-append, is_empty, ==_refl, ==_iff, subst, if_rule, arith, Bool-cases,
  Option-cases,
}
use zymobrew.Store.{Reply, done, refused}
use zymobrew.Network.Apprise.{Refusal}
use zymobrew.Notify.{NotificationPref}
use zymobrew.Notify.Quiet.{Clock}
use zymobrew.Notify.Prefs.{
  UpdatePrefsRequest, of_user, found_or_first, upsert_prefs, trimmed_url, patched_url, patched_time,
  store_prefs, with_times, with_url, patch_prefs, handle_update_prefs,
}

module _ (policy : Bytes → Option Refusal) (c : Clock) (trim : Bytes → Bytes)
    (explain : Refusal → String) (get_fails upsert_fails : Bool) where
  -- A saved URL that the policy accepts, or none.
  abbrev pub IsAcceptedUrl : Option Bytes → Type 0
  IsAcceptedUrl none = Unit
  IsAcceptedUrl (some s) = policy s ≡ none

  abbrev pub IsAccepted : NotificationPref → Type 0
  IsAccepted p = IsAcceptedUrl p.apprise_url

  upsert-IsAccepted :
      (p : NotificationPref) (rows : List NotificationPref)
      → IsAccepted p
      → All IsAccepted rows
      → All IsAccepted (upsert_prefs p rows)
  unfolding upsert_prefs
  upsert-IsAccepted p rows h hs =
      if_rule (All IsAccepted) (any (of_user p.user_id) rows)
        (update (of_user p.user_id) (λ old. p) rows) (rows ++ p ∷ []) (λ _. replaced rows hs)
        (λ _. All-append IsAccepted rows (p ∷ []) hs (h, tt))
    where
      replaced :
          (xs : List NotificationPref)
          → All IsAccepted xs
          → All IsAccepted (update (of_user p.user_id) (λ old. p) xs)
      replaced [] k = tt
      replaced (x ∷ xs) (k, ks) =
          (if_rule IsAccepted (of_user p.user_id x) p x (λ _. h) (λ _. k), replaced xs ks)

  found-IsAccepted :
      (user : ℕ) (rows : List NotificationPref)
      → All IsAccepted rows
      → IsAccepted (found_or_first user (find (of_user user) rows))
  unfolding found_or_first
  found-IsAccepted user [] h = tt
  found-IsAccepted user (x ∷ rows) (h, hs) = elim (Bool-cases (of_user user x)) [
    | inl e ↦ rw e h
    | inr e ↦ rw e (found-IsAccepted user rows hs)
  ]

  abbrev IsAcceptedPatch : Refusal ⊎ Option Bytes → Type 0
  IsAcceptedPatch (inl r) = Unit
  IsAcceptedPatch (inr url) = IsAcceptedUrl url

  trimmed-IsAccepted :
      (s : Bytes) → IsAcceptedPatch (trimmed_url policy c trim explain get_fails upsert_fails s)
  unfolding trimmed_url
  trimmed-IsAccepted s = elim (Bool-cases (is_empty s)) [
    | inl e ↦ rw e tt
    | inr e ↦ elim (Option-cases (policy s)) [
      | inl h ↦ rw e (rw (h, trimmed_url) h)
      | inr (r, h) ↦ rw e (rw (h, trimmed_url) tt)
    ]
  ]

  patched-IsAccepted :
      (old asked : Option Bytes)
      → IsAcceptedUrl old
      → IsAcceptedPatch (patched_url policy c trim explain get_fails upsert_fails old asked)
  unfolding patched_url
  patched-IsAccepted old none h = h
  patched-IsAccepted old (some raw) h = trimmed-IsAccepted (trim raw)

  -- What an outcome must keep: the saved URLs are accepted, an error changes nothing, and after a
  -- success the user's row is the one in the answer.
  abbrev pub Kept :
      ℕ → List NotificationPref → List NotificationPref × Reply NotificationPref → Type 0
  Kept user rows (rows', refused s m) = rows' ≡ rows
  Kept user rows (rows', done s p) = All IsAccepted rows' × (find (of_user user) rows' ≡ some p)

  found-user :
      (user : ℕ) (rows : List NotificationPref)
      → (found_or_first user (find (of_user user) rows)).user_id ≡ user
  unfolding found_or_first
  found-user user [] = refl
  found-user user (x ∷ rows) = elim (Bool-cases (of_user user x)) [
    | inl e ↦ rw e ((==_iff _ _).0 e)
    | inr e ↦ rw e (found-user user rows)
  ]

  find-upsert :
      (p : NotificationPref) (rows : List NotificationPref)
      → find (of_user p.user_id) (upsert_prefs p rows) ≡ some p
  unfolding upsert_prefs
  find-upsert p rows = elim (Bool-cases (any (of_user p.user_id) rows)) [
    | inl e ↦ rw e (replaced rows e)
    | inr e ↦ rw e (appended rows e)
  ]
    where
      replaced :
          (xs : List NotificationPref)
          → any (of_user p.user_id) xs ≡ true
          → find (of_user p.user_id) (update (of_user p.user_id) (λ old. p) xs) ≡ some p
      replaced [] e = cc
      replaced (x ∷ xs) e = elim (Bool-cases (of_user p.user_id x)) [
        | inl h ↦ rw (h, ==_refl p.user_id)
        | inr h ↦ rw h (rw h (replaced xs (rw h at e)))
      ]

      appended :
          (xs : List NotificationPref)
          → any (of_user p.user_id) xs ≡ false
          → find (of_user p.user_id) (xs ++ p ∷ []) ≡ some p
      appended [] e = rw (==_refl p.user_id)
      appended (x ∷ xs) e = elim (Bool-cases (of_user p.user_id x)) [
        | inl h ↦ absurd (ground (arith, e, h))
        | inr h ↦ rw h (appended xs (rw h at e))
      ]

  module _ (user : ℕ) (rows : List NotificationPref) (accepted : All IsAccepted rows) where
    stored-Kept :
        (p : NotificationPref)
        → p.user_id ≡ user
        → IsAccepted p
        → Kept user rows (store_prefs policy c trim explain get_fails upsert_fails p rows)
    unfolding store_prefs
    stored-Kept p same h =
        if_rule (Kept user rows) upsert_fails (rows, refused 500 "internal error")
          (upsert_prefs p rows, done 200 p) (λ _. refl)
          (λ _. (
            upsert-IsAccepted p rows h accepted,
            subst (λ n. find (of_user n) (upsert_prefs p rows) ≡ some p) same (find-upsert p rows),
          ))

    timed-Kept :
        (old : NotificationPref) (req : UpdatePrefsRequest) (url : Option Bytes)
        (start end : Option (Option ℕ))
        → old.user_id ≡ user
        → IsAcceptedUrl url
        → Kept user rows
            (with_times policy c trim explain get_fails upsert_fails old req url start end rows)
    unfolding with_times
    timed-Kept old req url none end same h = refl
    timed-Kept old req url (some start) none same h = refl
    timed-Kept old req url (some start) (some end) same h = stored-Kept _ same h

    addressed-Kept :
        (old : NotificationPref) (req : UpdatePrefsRequest) (url : Refusal ⊎ Option Bytes)
        → old.user_id ≡ user
        → IsAcceptedPatch url
        → Kept user rows (with_url policy c trim explain get_fails upsert_fails old req url rows)
    unfolding with_url
    addressed-Kept old req (inl r) same h = refl
    addressed-Kept old req (inr url) same h =
        timed-Kept old req url
          (patched_time policy c trim explain get_fails upsert_fails old.quiet_hours_start
            req.quiet_hours_start)
          (patched_time policy c trim explain get_fails upsert_fails old.quiet_hours_end
            req.quiet_hours_end)
          same h

    -- If all saved Apprise URLs are accepted by the policy, then however a user changes the
    -- preferences and whichever query fails: an error changes nothing, and after a success all saved
    -- URLs are accepted still and the user's saved preferences are those in the answer.
    pub update_prefs-Kept :
        (body : Option UpdatePrefsRequest)
        → Kept user rows
            (handle_update_prefs policy c trim explain get_fails upsert_fails user body rows)
    unfolding handle_update_prefs patch_prefs
    update_prefs-Kept none =
        if_rule (Kept user rows) get_fails (rows, refused 500 "internal error")
          (rows, refused 400 "invalid json") (λ _. refl) (λ _. refl)
    update_prefs-Kept (some req) =
        let old = found_or_first user (find (of_user user) rows) in
        let url =
          patched_url policy c trim explain get_fails upsert_fails old.apprise_url
            req.apprise_url in
        if_rule (Kept user rows) get_fails (rows, refused 500 "internal error")
          (with_url policy c trim explain get_fails upsert_fails old req url rows) (λ _. refl)
          (λ _. addressed-Kept old req url (found-user user rows) (
            patched-IsAccepted old.apprise_url req.apprise_url
              (found-IsAccepted user rows accepted)))
