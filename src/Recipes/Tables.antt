-- ===== src/Recipes/Tables.antt =====
-- The queries of internal/queries/recipes.sql.go that write recipes, their ingredients and revisions,
-- as steps of a transaction.
use Prim.Native.String.{String}
use zymobrew.Base.{
  ℕ, suc, ◌&&◌, not, List, [], ◌∷◌, ◌++◌, Option, none, some, Bytes, codes, select, update, find,
  any, is_empty, leb, if◌then◌else◌,
}
use zymobrew.Schema.{Recipe, Targets, Visibility}
use zymobrew.Schema.Recipes.{RecipeIngredient, RecipeRevision, ingredient_kind_of}
use zymobrew.Store.{
  World, Outage, amount_column, create_recipe_query, create_ingredient_query, create_revision_query,
  set_revision_query, update_recipe_query, delete_ingredients_query, list_ingredients_query,
  fork_count_query,
}
use zymobrew.Store.Tx.{Tx, Step, ran, ◌>>=◌, pure, or_give_up, query}
use zymobrew.Batches.Handlers.{is_recipe}
use zymobrew.Recipes.View.{RecipeView, to_recipe_view}
use zymobrew.Recipes.{IngredientInput, float_to_numeric}
use zymobrew.Recipes.Rows.{
  CreateRecipeParams, UpdateRecipeMetaParams, fit, fit_targets, forked, has_revision, ingredient_of,
  ingredient_row, is_own_recipe, list_recipe_ingredients, max_int32, patch_recipe, recipe_row,
  revised, revision_row,
}

-- The transaction's queries; `oops` is the message of a server error.
module _ (w : World) (down : Outage) (oops : String) where
  unfoldable pub insert_recipe : CreateRecipeParams → Option Targets → Tx Recipe
  insert_recipe p none db = Step.failed 500 oops
  insert_recipe p (some targets) db =
      let row = recipe_row w p targets in ran (record db { recipes = db.recipes ++ row ∷ [] }) row

  -- The text of a visibility is cast before the row is made.
  unfoldable pub create_recipe_row :
      Option Visibility → (Visibility → CreateRecipeParams) → Targets → Tx Recipe
  unfolding insert_recipe
  create_recipe_row label p targets = query down create_recipe_query oops (do
    visibility ← or_give_up 400 "invalid visibility value" label
    insert_recipe (p visibility) (fit_targets w targets))

  unfoldable pub insert_ingredient_row : RecipeIngredient → Tx RecipeIngredient
  insert_ingredient_row row db = ran (record db { ingredients = db.ingredients ++ row ∷ [] }) row

  -- What a failed insertion of an ingredient of no known kind answers is the handler's.
  module _ (bad : ℕ) (bad_kind : String) where
    unfoldable pub create_recipe_ingredient : ℕ → ℕ → IngredientInput → Tx RecipeIngredient
    unfolding insert_ingredient_row
    create_recipe_ingredient n recipe ing = query down (create_ingredient_query n) oops (do
      kind ← or_give_up bad bad_kind (ingredient_kind_of ing.kind)
      details ←
          or_give_up 500 oops
            (w.to_jsonb (if is_empty ing.details then codes "{}" else ing.details))
      amount ← or_give_up 500 oops (fit w amount_column (float_to_numeric w ing.amount))
      insert_ingredient_row (ingredient_row w n recipe ing kind amount details))

    -- `insertIngredients`
    unfoldable pub insert_ingredients : ℕ → ℕ → List IngredientInput → Tx (List RecipeIngredient)
    unfolding create_recipe_ingredient
    insert_ingredients n recipe [] = pure []
    insert_ingredients n recipe (ing ∷ ings) = do
      row ← create_recipe_ingredient n recipe ing
      rows ← insert_ingredients (suc n) recipe ings
      pure (row ∷ rows)

  unfoldable pub insert_revision : RecipeRevision → Tx RecipeRevision
  insert_revision rev db =
      if any (has_revision rev.recipe_id rev.revision_number) db.revisions
      then Step.failed 500 oops
      else ran (record db { revisions = db.revisions ++ rev ∷ [] }) rev

  unfoldable pub create_recipe_revision : RecipeRevision → Tx RecipeRevision
  unfolding insert_revision
  create_recipe_revision rev = query down create_revision_query oops (insert_revision rev)

  -- `SET current_revision_id = $2, revision_count = revision_count + 1`
  unfoldable pub set_found : ℕ → ℕ → Option Recipe → Tx Recipe
  set_found id revision none db = Step.failed 500 oops
  set_found id revision (some r) db =
      if leb max_int32 r.revision_count
      then Step.failed 500 oops
      else ran (record db { recipes = update (is_recipe id) (revised w.now revision) db.recipes })
          (revised w.now revision r)

  unfoldable pub set_recipe_revision : ℕ → ℕ → Tx Recipe
  unfolding set_found
  set_recipe_revision id revision =
      query down set_revision_query oops
        (λ db. set_found id revision (find (is_recipe id) db.recipes) db)

  unfoldable pub patch_found : UpdateRecipeMetaParams → Option Targets → Option Recipe → Tx Recipe
  patch_found p targets none db = Step.failed 404 "not found"
  patch_found p none (some r) db = Step.failed 500 oops
  patch_found p (some targets) (some r) db =
      ran
        (record db {
          recipes =
              update (is_own_recipe p.id p.author_id) (patch_recipe w.now p targets) db.recipes;
        })
        (patch_recipe w.now p targets r)

  unfoldable pub update_recipe_meta :
      Option (Option Visibility)
      → (Option Visibility → UpdateRecipeMetaParams)
      → Targets
      → Tx Recipe
  unfolding patch_found
  update_recipe_meta label params targets = query down update_recipe_query oops (do
    visibility ← or_give_up 400 "invalid visibility value" label
    let p = params visibility
    λ db.
        patch_found p (fit_targets w targets) (find (is_own_recipe p.id p.author_id) db.recipes) db)

  unfoldable pub delete_recipe_ingredients : ℕ → Tx (Unit {0})
  delete_recipe_ingredients recipe = query down delete_ingredients_query oops (λ db.
      ran
        (record db { ingredients = select (λ ing. not (ingredient_of recipe ing)) db.ingredients })
        tt)

  unfoldable pub load_ingredients : ℕ → Tx (List RecipeIngredient)
  unfolding list_recipe_ingredients
  load_ingredients recipe =
      query down list_ingredients_query oops
        (λ db. ran db (list_recipe_ingredients recipe db.ingredients))

  unfoldable pub increment_fork_count : ℕ → Tx (Unit {0})
  increment_fork_count id = query down fork_count_query oops (λ db.
      if any (λ r. is_recipe id r && leb max_int32 r.fork_count) db.recipes
      then Step.failed 500 oops
      else ran (record db { recipes = update (is_recipe id) (forked w.now) db.recipes }) tt)

  -- The two queries that end a transaction which writes a recipe: its revision, and the recipe that
  -- points at it.
  unfoldable pub write_revision :
      ℕ → Recipe → ℕ → Option Bytes → List RecipeIngredient → Tx RecipeView
  unfolding create_recipe_revision set_recipe_revision
  write_revision user r number message ings = do
    rev ← create_recipe_revision (revision_row w r number user message ings)
    recipe ← set_recipe_revision r.id rev.id
    pure (to_recipe_view w recipe rev ings)
