-- ===== src/Recipes/Hidden.antt =====
-- A private recipe does not exist for anybody but its author (internal/server/recipes.go and the
-- batches that follow a recipe, internal/server/batches.go).
use zymobrew.Base.{
  ℕ, ◌≡◌, ◌≢◌, refl, inl, inr, true, false, ◌&&◌, not, List, [], ◌∷◌, Option, none, some, Bytes,
  arith, any, find, select, HasKey, find-some, key_row, Bool-cases, ◌==◌,
}
use zymobrew.Schema.{Recipe, private}
use zymobrew.Store.{Db, refused, World, Outage, get_recipe_query, delete_recipe_query}
use zymobrew.Page.Cursor.{Encodings}
use zymobrew.Batches.Handlers.{is_recipe, pin_recipe, pin_found}
use zymobrew.Recipes.{UpdateRecipeRequest, ForkRecipeRequest, recipe_visible_to}
use zymobrew.Recipes.Rows.{is_own_recipe}
use zymobrew.Recipes.Write.{update_found, fork_found, handle_update_recipe, handle_fork_recipe}
use zymobrew.Recipes.Read.{
  with_recipe, revision_of, revision_param, handle_get_recipe, handle_list_revisions,
  handle_get_revision, handle_list_comments,
}
use zymobrew.Recipes.Social.{
  on_recipe, handle_create_comment, handle_like_recipe, handle_delete_recipe,
}
use zymobrew.Recipes.History.{recipe_key_id}

-- The database in which no recipe has this id.
abbrev pub without_id : ℕ → Db → Db
without_id id db = record db { recipes = select (λ r. not (is_recipe id r)) db.recipes }

-- Nobody, or a user who is not the author.
abbrev pub IsStranger : Recipe → Option ℕ → Type 0
IsStranger r none = Unit
IsStranger r (some user) = r.author_id ≢ user

find_gone :
    (id : ℕ) (rs : List Recipe) → find (is_recipe id) (select (λ r. not (is_recipe id r)) rs) ≡ none
find_gone id [] = refl
find_gone id (r ∷ rs) = elim (Bool-cases (r.id == id)) [
  | inl e ↦ rw e (find_gone id rs)
  | inr e ↦ rw e (rw e (find_gone id rs))
]

-- A stranger does not see it.
unseen :
    (r : Recipe) (viewer : Option ℕ)
    → r.visibility ≡ private
    → IsStranger r viewer
    → recipe_visible_to r viewer ≡ false
unfolding recipe_visible_to
unseen r none p h = rw p refl
unseen r (some user) p h = rw p (ground arith)

module _ (w : World) (down : Outage) (db : Db) (id : ℕ) (r : Recipe)
    (found : find (is_recipe id) db.recipes ≡ some r) (hidden : r.visibility ≡ private) where
  -- A reader who is a stranger to a private recipe gets the answers that it would get if no recipe
  -- had this id: from the recipe, its revisions, each of them and its comments.
  pub hidden_reads :
      (viewer : Option ℕ) (rev limit_text cursor_text : Bytes) (e : Encodings)
      → IsStranger r viewer
      → (handle_get_recipe w down viewer (some id) db
          ≡ handle_get_recipe w down viewer (some id) (without_id id db))
        × (handle_list_revisions w down viewer (some id) db
            ≡ handle_list_revisions w down viewer (some id) (without_id id db))
        × (handle_get_revision w down viewer (some id) rev db
            ≡ handle_get_revision w down viewer (some id) rev (without_id id db))
        × (handle_list_comments e down viewer (some id) limit_text cursor_text db
            ≡ handle_list_comments e down viewer
                (some id)
                limit_text
                cursor_text
                (without_id id db))
  unfolding handle_get_recipe handle_list_revisions handle_get_revision handle_list_comments
      with_recipe
  hidden_reads viewer rev limit_text cursor_text e stranger =
      let u : recipe_visible_to r viewer ≡ false = unseen r viewer hidden stranger in
      let g : find (is_recipe id) (without_id id db).recipes ≡ none = find_gone id db.recipes in
      (
        rw (found, u, g) refl,
        rw (found, u, g) refl,
        number (revision_param (w.parse_int32 rev)) u g,
        rw (found, u, g) refl,
      )
    where
      number :
          (n : Option ℕ)
          → recipe_visible_to r viewer ≡ false
          → find (is_recipe id) (without_id id db).recipes ≡ none
          → revision_of w down viewer id n db ≡ revision_of w down viewer id n (without_id id db)
      number none u g = unfold revision_of in refl
      number (some n) u g = unfold revision_of in rw (found, u, g) refl

  not_own :
      (user : ℕ)
      → HasKey recipe_key_id db.recipes
      → r.author_id ≢ user
      → any (is_own_recipe id user) db.recipes ≡ false
  not_own user k stranger = elim (Bool-cases (any (is_own_recipe id user) db.recipes)) [
    | inr e ↦ e
    | inl e ↦
        let (hit, there) = find-some (is_recipe id) db.recipes found in
        let mine : is_own_recipe id user r ≡ true =
          key_row recipe_key_id (is_own_recipe id user) db.recipes r k there
            (owned db.recipes e (ground (arith, hit))) in
        absurd (stranger (ground (arith, mine)))
  ]
    where
      owned :
          (rs : List Recipe)
          → any (is_own_recipe id user) rs ≡ true
          → r.id ≡ id
          → any (λ y. is_own_recipe id user y && y.id == r.id) rs ≡ true
      owned (y ∷ rs) h e = ground (arith, owned rs)
      owned [] h e = cc

  none_own :
      (user : ℕ) (rs : List Recipe)
      → any (is_own_recipe id user) (select (λ y. not (is_recipe id y)) rs) ≡ false
  none_own user [] = refl
  none_own user (y ∷ rs) = elim (Bool-cases (y.id == id)) [
    | inl e ↦ rw e (none_own user rs)
    | inr e ↦ rw e (rw e (none_own user rs))
  ]

  -- A user who is no author of a private recipe gets the answers that it would get if no recipe had
  -- this id, and changes nothing: from changing, forking, deleting, liking or commenting it; and it
  -- cannot start a batch from it. Recipe ids are unique.
  pub hidden_writes :
      (user : ℕ) (patch : Option UpdateRecipeRequest) (fork : ForkRecipeRequest)
      (comment : Option Bytes)
      → HasKey recipe_key_id db.recipes
      → r.author_id ≢ user
      → (handle_update_recipe w down user (some id) patch db
          ≡ (db, (handle_update_recipe w down user (some id) patch (without_id id db)).1))
        × (handle_fork_recipe w down user (some id) fork db
            ≡ (db, (handle_fork_recipe w down user (some id) fork (without_id id db)).1))
        × (handle_delete_recipe w down user (some id) db
            ≡ (db, (handle_delete_recipe w down user (some id) (without_id id db)).1))
        × (handle_create_comment w down user (some id) comment db
            ≡ (db, (handle_create_comment w down user (some id) comment (without_id id db)).1))
        × (handle_like_recipe w down user (some id) db
            ≡ (db, (handle_like_recipe w down user (some id) (without_id id db)).1))
        × (pin_recipe w down user (some (some id)) db.recipes
            ≡ pin_recipe w down user (some (some id)) (without_id id db).recipes)
  unfolding handle_update_recipe handle_fork_recipe handle_delete_recipe handle_create_comment
      handle_like_recipe pin_recipe pin_found on_recipe update_found fork_found
  hidden_writes user patch fork comment k stranger =
      let u : recipe_visible_to r (some user) ≡ false = unseen r (some user) hidden stranger in
      let g : find (is_recipe id) (without_id id db).recipes ≡ none = find_gone id db.recipes in
      let other : (r.author_id == user) ≡ false = ground (arith, stranger) in
      let own : any (is_own_recipe id user) db.recipes ≡ false = not_own user k stranger in
      let gone : any (is_own_recipe id user) (without_id id db).recipes ≡ false =
        none_own user db.recipes in
      elim (Bool-cases (down get_recipe_query)) [
        | inl d ↦ (rw d refl, rw d refl, deleted own gone, rw d refl, rw d refl, rw d refl)
        | inr d ↦ (
          rw (d, found, g) (patched patch other),
          rw (d, found, g) (rw (hidden, other) refl),
          deleted own gone,
          rw (d, found, u, g) refl,
          rw (d, found, u, g) refl,
          rw (d, found, g) (rw (hidden, other) refl),
        )
      ]
    where
      patched :
          (body : Option UpdateRecipeRequest)
          → (r.author_id == user) ≡ false
          → update_found w down id user body (some r) db ≡ (db, refused 404 "not found")
      patched none other = rw (update_found, other) refl
      patched (some req) other = rw (update_found, other) refl

      deleted :
          any (is_own_recipe id user) db.recipes ≡ false
          → any (is_own_recipe id user) (without_id id db).recipes ≡ false
          → handle_delete_recipe w down user (some id) db
            ≡ (db, (handle_delete_recipe w down user (some id) (without_id id db)).1)
      deleted own gone = elim (Bool-cases (down delete_recipe_query)) [
        | inl d ↦ rw d refl
        | inr d ↦ rw (d, own, gone) refl
      ]
