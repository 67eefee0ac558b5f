-- ===== src/Recipes/Read.antt =====
-- The recipe handlers that read: handleGetRecipe, handleListRevisions, handleGetRevision and the list
-- handlers of internal/server/recipes.go.

use zymobrew.Base.{
  ℕ, Bool, true, false, List, [], ◌∷◌, Option, none, some, Bytes, map, select, find, ltb, ◌==◌,
  if◌then◌else◌,
}
use zymobrew.Base.Int.{ℤ, pos, negsuc}
use zymobrew.Schema.{Recipe, Visibility, public, unlisted, private}
use zymobrew.Schema.Recipes.{RecipeRevision, RecipeComment}
use zymobrew.Store.{
  Db, Reply, done, refused, World, Outage, get_recipe_query, get_revision_query,
  list_revisions_query, list_ingredients_query,
}
use zymobrew.Page.Order.{SortKey, newest_first, oldest_first}
use zymobrew.Page.Cursor.{Encodings, encode, decode}
use zymobrew.Page.Listing.{ListReply, handle_list}
use zymobrew.Batches.Handlers.{is_recipe}
use zymobrew.Recipes.{recipe_visible_to}
use zymobrew.Recipes.View.{
  RecipeView, RevisionSummaryView, RevisionDetailView, to_recipe_view, to_revision_summary,
  to_revision_detail,
}
use zymobrew.Recipes.Rows.{has_revision, list_recipe_ingredients}

abbrev pub is_revision : ℕ → RecipeRevision → Bool
is_revision id rev = rev.id == id

-- `ORDER BY revision_number DESC`
unfoldable pub insert_revision_row : RecipeRevision → List RecipeRevision → List RecipeRevision
insert_revision_row x [] = x ∷ []
insert_revision_row x (y ∷ ys) =
    if ltb x.revision_number y.revision_number then y ∷ insert_revision_row x ys else x ∷ y ∷ ys

unfoldable pub sort_revisions : List RecipeRevision → List RecipeRevision
unfolding insert_revision_row
sort_revisions [] = []
sort_revisions (x ∷ xs) = insert_revision_row x (sort_revisions xs)

unfoldable pub list_recipe_revisions : ℕ → List RecipeRevision → List RecipeRevision
unfolding sort_revisions
list_recipe_revisions recipe rows = sort_revisions (select (λ rev. rev.recipe_id == recipe) rows)

-- The start that the handlers of one recipe share: load it, and show it to those who may see it.
unfoldable pub with_recipe : {A : Type 0} → Option ℕ → Option Recipe → (Recipe → Reply A) → Reply A
with_recipe viewer none answer = refused 404 "not found"
with_recipe viewer (some r) answer =
    if recipe_visible_to r viewer then answer r else refused 404 "not found"

-- `revNum < 1`
unfoldable pub revision_param : Option ℤ → Option ℕ
revision_param none = none
revision_param (some (negsuc n)) = none
revision_param (some (pos n)) = if ltb n 1 then none else some n

module _ (w : World) (down : Outage) where
  unfoldable pub shown_recipe : Recipe → Option RecipeRevision → Db → Reply RecipeView
  unfolding list_recipe_ingredients
  shown_recipe r none db = refused 500 "fetch failed"
  shown_recipe r (some rev) db =
      if down list_ingredients_query
      then refused 500 "fetch failed"
      else done 200 (to_recipe_view w r rev (list_recipe_ingredients r.id db.ingredients))

  unfoldable pub current_recipe : Recipe → Option ℕ → Db → Reply RecipeView
  unfolding shown_recipe
  current_recipe r none db = refused 500 "recipe has no revision"
  current_recipe r (some rev) db =
      if down get_revision_query
      then refused 500 "fetch failed"
      else shown_recipe r (find (is_revision rev) db.revisions) db

  -- The viewer is a user, or nobody.
  unfoldable pub handle_get_recipe : Option ℕ → Option ℕ → Db → Reply RecipeView
  unfolding with_recipe current_recipe
  handle_get_recipe viewer none db = refused 400 "invalid id"
  handle_get_recipe viewer (some id) db =
      if down get_recipe_query
      then refused 500 "fetch failed"
      else with_recipe viewer (find (is_recipe id) db.recipes)
          (λ r. current_recipe r r.current_revision_id db)

  unfoldable pub handle_list_revisions : Option ℕ → Option ℕ → Db → Reply (List RevisionSummaryView)
  unfolding with_recipe list_recipe_revisions
  handle_list_revisions viewer none db = refused 400 "invalid id"
  handle_list_revisions viewer (some id) db =
      if down get_recipe_query
      then refused 500 "fetch failed"
      else with_recipe viewer (find (is_recipe id) db.recipes) (λ r.
        if down list_revisions_query
        then refused 500 "fetch failed"
        else done 200 (map (to_revision_summary w) (list_recipe_revisions id db.revisions)))

  unfoldable pub shown_revision : Option RecipeRevision → Reply RevisionDetailView
  shown_revision none = refused 404 "not found"
  shown_revision (some rev) = done 200 (to_revision_detail w rev)

  unfoldable pub revision_of : Option ℕ → ℕ → Option ℕ → Db → Reply RevisionDetailView
  unfolding with_recipe shown_revision
  revision_of viewer id none db = refused 400 "invalid revision number"
  revision_of viewer id (some number) db =
      if down get_recipe_query
      then refused 500 "fetch failed"
      else with_recipe viewer (find (is_recipe id) db.recipes) (λ r.
        if down get_revision_query
        then refused 500 "fetch failed"
        else shown_revision (find (has_revision id number) db.revisions))

  unfoldable pub handle_get_revision : Option ℕ → Option ℕ → Bytes → Db → Reply RevisionDetailView
  unfolding revision_of revision_param
  handle_get_revision viewer none rev db = refused 400 "invalid id"
  handle_get_revision viewer (some id) rev db =
      revision_of viewer id (revision_param (w.parse_int32 rev)) db

abbrev pub is_public : Visibility → Bool
is_public public = true
is_public unlisted = false
is_public private = false

abbrev pub recipe_key : Recipe → SortKey
recipe_key r = (r.updated_at, r.id)

abbrev pub is_listed : Recipe → Bool
is_listed r = is_public r.visibility

abbrev pub authored_by : ℕ → Recipe → Bool
authored_by user r = r.author_id == user

abbrev pub comment_key : RecipeComment → SortKey
comment_key c = (c.created_at, c.id)

abbrev pub comment_on : ℕ → RecipeComment → Bool
comment_on recipe c = c.recipe_id == recipe

module _ (e : Encodings) where
  -- The list handlers, where their queries do not fail.
  unfoldable pub handle_list_recipes : Bytes → Bytes → Db → ListReply Recipe
  unfolding handle_list
  handle_list_recipes limit_text cursor_text db =
      handle_list newest_first recipe_key (encode e) (decode e) (select is_listed db.recipes)
        limit_text cursor_text

  unfoldable pub handle_list_my_recipes : ℕ → Bytes → Bytes → Db → ListReply Recipe
  unfolding handle_list
  handle_list_my_recipes user limit_text cursor_text db =
      handle_list newest_first recipe_key (encode e) (decode e)
        (select (authored_by user) db.recipes) limit_text cursor_text

  -- The thread below a recipe, where no query fails.
  unfoldable pub handle_list_comments :
      Outage → Option ℕ → Option ℕ → Bytes → Bytes → Db → Reply (ListReply RecipeComment)
  unfolding with_recipe handle_list
  handle_list_comments down viewer none limit_text cursor_text db = refused 400 "invalid id"
  handle_list_comments down viewer (some id) limit_text cursor_text db =
      if down get_recipe_query
      then refused 500 "fetch failed"
      else with_recipe viewer (find (is_recipe id) db.recipes) (λ r. done 200 (
          handle_list oldest_first comment_key (encode e) (decode e)
            (select (comment_on id) db.comments) limit_text cursor_text))
