-- ===== src/Recipes/Social.antt =====
-- Comments, likes and the deletion of a recipe: handleCreateComment, handleDeleteComment,
-- handleLikeRecipe, handleUnlikeRecipe and handleDeleteRecipe of internal/server/recipes.go.
use zymobrew.Base.{
  ℕ, Bool, false, ◌&&◌, ◌||◌, not, List, [], ◌∷◌, ◌++◌, Option, none, some, Bytes, length, map,
  select, find, any, is_empty, ltb, ◌==◌, if◌then◌else◌,
}
use zymobrew.Schema.{Batch, Recipe, Template, Reminder}
use zymobrew.Schema.Recipes.{RecipeRevision, RecipeComment, RecipeLike}
use zymobrew.Store.{
  Db, Reply, done, refused, World, Outage, get_recipe_query, create_comment_query,
  delete_comment_query, like_query, unlike_query, delete_recipe_query,
}
use zymobrew.Batches.Handlers.{is_recipe}
use zymobrew.Recipes.{recipe_visible_to, max_comment_body}
use zymobrew.Recipes.Rows.{is_own_recipe, ingredient_of}
use zymobrew.Recipes.Read.{comment_on}

unfoldable pub new_comment : World → ℕ → ℕ → Bytes → RecipeComment
new_comment w recipe user body = record {
  id = w.new_comment_id;
  recipe_id = recipe;
  author_id = user;
  body = body;
  created_at = w.now;
}

abbrev pub is_like : ℕ → ℕ → RecipeLike → Bool
is_like user recipe l = l.user_id == user && l.recipe_id == recipe

-- `WHERE id = $1 AND author_id = $2`
abbrev pub is_own_comment : ℕ → ℕ → RecipeComment → Bool
is_own_comment id user c = c.id == id && c.author_id == user

-- `ON CONFLICT DO NOTHING`, on the primary key (user_id, recipe_id)
unfoldable pub like_recipe : World → ℕ → ℕ → List RecipeLike → List RecipeLike
like_recipe w user recipe likes =
    if any (is_like user recipe) likes
    then likes
    else likes ++ record { user_id = user; recipe_id = recipe; created_at = w.now } ∷ []

-- The foreign keys without ON DELETE that a deletion of the recipe would leave dangling: a batch that
-- pins one of its revisions, another recipe forked from one, and a reminder of one of its templates.
unfoldable pub revision_in : ℕ → List RecipeRevision → Option ℕ → Bool
revision_in recipe revisions none = false
revision_in recipe revisions (some id) =
    any (λ (rev : RecipeRevision). rev.recipe_id == recipe && rev.id == id) revisions

unfoldable pub template_in : ℕ → List Template → Option ℕ → Bool
template_in recipe templates none = false
template_in recipe templates (some id) =
    any (λ (t : Template). t.recipe_id == recipe && t.id == id) templates

unfoldable pub is_referenced : ℕ → Db → Bool
unfolding revision_in template_in
is_referenced recipe db =
    any (λ (b : Batch). revision_in recipe db.revisions b.recipe_revision_id) db.batches
    || any
        (λ (r : Recipe).
          not (is_recipe recipe r)
          && (revision_in recipe db.revisions r.parent_revision_id
              || revision_in recipe db.revisions r.current_revision_id))
        db.recipes
    || any (λ (r : Reminder). template_in recipe db.templates r.template_id) db.reminders

abbrev pub cleared : ℕ → Option ℕ → Option ℕ
cleared recipe none = none
cleared recipe (some id) = if id == recipe then none else some id

-- `DELETE FROM recipes`, with the rows that go with a recipe and the references that are set to NULL.
unfoldable pub without_recipe : ℕ → ℕ → Db → Db
without_recipe id user db = record db {
  recipes =
      map (λ (r : Recipe). record r { parent_id = cleared id r.parent_id })
        (select (λ r. not (is_own_recipe id user r)) db.recipes);
  batches = map (λ (b : Batch). record b { recipe_id = cleared id b.recipe_id }) db.batches;
  revisions = select (λ (rev : RecipeRevision). not (rev.recipe_id == id)) db.revisions;
  ingredients = select (λ ing. not (ingredient_of id ing)) db.ingredients;
  comments = select (λ c. not (comment_on id c)) db.comments;
  likes = select (λ (l : RecipeLike). not (l.recipe_id == id)) db.likes;
  templates = select (λ (t : Template). not (t.recipe_id == id)) db.templates;
}

module _ (w : World) (down : Outage) where
  -- What a handler does with a recipe that the user sees.
  unfoldable pub on_recipe :
      {A : Type 0} → ℕ → Option Recipe → (Db → Db × Reply A) → Db → Db × Reply A
  unfolding recipe_visible_to
  on_recipe user none act db = (db, refused 404 "not found")
  on_recipe user (some r) act db =
      if recipe_visible_to r (some user) then act db else (db, refused 404 "not found")

  unfoldable pub comment_act : ℕ → ℕ → Option Bytes → Db → Db × Reply RecipeComment
  unfolding is_empty
  comment_act user id none db = (db, refused 400 "invalid json")
  comment_act user id (some body) db =
      if is_empty body || ltb max_comment_body (length body)
      then (db, refused 400 "body required (max 10 KiB)")
      else if down create_comment_query
      then (db, refused 500 "create failed")
      else (
        record db { comments = db.comments ++ new_comment w id user body ∷ [] },
        done 201 (new_comment w id user body),
      )

  unfoldable pub handle_create_comment : ℕ → Option ℕ → Option Bytes → Db → Db × Reply RecipeComment
  unfolding on_recipe comment_act
  handle_create_comment user none body db = (db, refused 400 "invalid id")
  handle_create_comment user (some id) body db =
      if down get_recipe_query
      then (db, refused 500 "fetch failed")
      else on_recipe user (find (is_recipe id) db.recipes) (comment_act user id body) db

  unfoldable pub handle_delete_comment : ℕ → Option ℕ → Db → Db × Reply (Unit {0})
  handle_delete_comment user none db = (db, refused 400 "invalid comment id")
  handle_delete_comment user (some id) db =
      if down delete_comment_query
      then (db, refused 500 "delete failed")
      else if any (is_own_comment id user) db.comments
      then (
        record db { comments = select (λ c. not (is_own_comment id user c)) db.comments },
        done 204 tt,
      )
      else (db, refused 404 "not found")

  unfoldable pub like_act : ℕ → ℕ → Db → Db × Reply (Unit {0})
  unfolding like_recipe
  like_act user id db =
      if down like_query
      then (db, refused 500 "like failed")
      else (record db { likes = like_recipe w user id db.likes }, done 204 tt)

  unfoldable pub handle_like_recipe : ℕ → Option ℕ → Db → Db × Reply (Unit {0})
  unfolding on_recipe like_act
  handle_like_recipe user none db = (db, refused 400 "invalid id")
  handle_like_recipe user (some id) db =
      if down get_recipe_query
      then (db, refused 500 "fetch failed")
      else on_recipe user (find (is_recipe id) db.recipes) (like_act user id) db

  unfoldable pub handle_unlike_recipe : ℕ → Option ℕ → Db → Db × Reply (Unit {0})
  handle_unlike_recipe user none db = (db, refused 400 "invalid id")
  handle_unlike_recipe user (some id) db =
      if down unlike_query
      then (db, refused 500 "unlike failed")
      else (record db { likes = select (λ l. not (is_like user id l)) db.likes }, done 204 tt)

  unfoldable pub handle_delete_recipe : ℕ → Option ℕ → Db → Db × Reply (Unit {0})
  unfolding is_referenced without_recipe
  handle_delete_recipe user none db = (db, refused 400 "invalid id")
  handle_delete_recipe user (some id) db =
      if down delete_recipe_query
      then (db, refused 500 "delete failed")
      else if any (is_own_recipe id user) db.recipes
      then (if is_referenced id db
          then (db, refused 500 "delete failed")
          else (without_recipe id user db, done 204 tt))
      else (db, refused 404 "not found")
