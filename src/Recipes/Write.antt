-- ===== src/Recipes/Write.antt =====
-- The recipe handlers that write a revision: handleCreateRecipe, handleUpdateRecipe and
-- handleForkRecipe of internal/server/recipes.go.
pub mod Effects
pub mod Outcomes
pub mod Forks
use Prim.Native.String.{String}
use zymobrew.Base.{
  ℕ, ◌+◌, ◌^◌, ◌%◌, Bool, false, ◌&&◌, ◌||◌, not, List, Option, none, some, Bytes, codes, map,
  length, find, is_empty, ltb, ◌==◌, if◌then◌else◌,
}
use zymobrew.Schema.{Recipe, Visibility, Targets, private, is_private}
use zymobrew.Schema.Labels.{visibility_of}
use zymobrew.Schema.Recipes.{RecipeIngredient, RecipeRevision, ingredient_kind_label}
use zymobrew.Store.{
  Db, Reply, done, refused, World, Outage, get_recipe_query, list_ingredients_query,
}
use zymobrew.Store.Tx.{Tx, Step, continue, ◌>>=◌, ◌>>◌, pure, give_up, transaction}
use zymobrew.Batches.Events.{opt_text}
use zymobrew.Batches.Handlers.{or_default, allowed_brew_type, bad_name, is_recipe, cast_label}
use zymobrew.Recipes.{
  IngredientInput, CreateRecipeRequest, ForkRecipeRequest, UpdateRecipeRequest, max_recipe_name,
  max_recipe_desc, max_recipe_style, text_or_empty, float_to_numeric, numeric_ptr,
  validate_ingredients,
}
use zymobrew.Recipes.View.{RecipeView}
use zymobrew.Recipes.Rows.{CreateRecipeParams, UpdateRecipeMetaParams, list_recipe_ingredients}
use zymobrew.Recipes.Tables.{
  create_recipe_row, insert_ingredients, update_recipe_meta, delete_recipe_ingredients,
  load_ingredients, increment_fork_count, write_revision,
}

module _ (w : World) where
  abbrev pub numeric_targets : Targets → Targets
  numeric_targets t = record {
    target_og = float_to_numeric w t.target_og;
    target_fg = float_to_numeric w t.target_fg;
    target_abv = float_to_numeric w t.target_abv;
    batch_size_l = float_to_numeric w t.batch_size_l;
  }

  -- An ingredient of the source as it is inserted again.
  unfoldable pub copied_ingredient : RecipeIngredient → IngredientInput
  unfolding text_or_empty numeric_ptr
  copied_ingredient ing = record {
    kind = ingredient_kind_label ing.kind;
    name = ing.name;
    amount = numeric_ptr w ing.amount;
    unit = text_or_empty ing.unit;
    sort_order = ing.sort_order;
    details = ing.details;
  }

unfoldable pub too_long : ℕ → Option Bytes → Bool
too_long n none = false
too_long n (some s) = ltb n (length s)

-- The first test that a decoded body fails; each is answered with 400.
unfoldable pub create_recipe_fault : World → CreateRecipeRequest → Option String
unfolding validate_ingredients allowed_brew_type or_default is_empty
create_recipe_fault w req =
    if is_empty req.name || ltb max_recipe_name (length req.name)
    then some "name required (max 200 chars)"
    else if ltb max_recipe_desc (length req.description)
    then some "description too long"
    else if ltb max_recipe_style (length req.style)
    then some "style too long (max 100 chars)"
    else if not (allowed_brew_type (or_default (codes "mead") req.brew_type))
    then some "brew_type must be one of: mead, cider, wine"
    else validate_ingredients w req.ingredients

unfoldable pub replaced_fault : World → Option (List IngredientInput) → Option String
unfolding validate_ingredients
replaced_fault w none = none
replaced_fault w (some ings) = validate_ingredients w ings

unfoldable pub update_recipe_fault : World → UpdateRecipeRequest → Option String
unfolding replaced_fault too_long bad_name
update_recipe_fault w req =
    if bad_name req.name
    then some "invalid name"
    else if too_long max_recipe_desc req.description
    then some "description too long"
    else if too_long max_recipe_style req.style
    then some "style too long (max 100 chars)"
    else replaced_fault w req.ingredients

-- A fork keeps the name of its source, unless another is given.
unfoldable pub fork_name : Bytes → Option Bytes → Bytes
unfolding or_default
fork_name source none = source
fork_name source (some name) = or_default source name

unfoldable pub draft_params : ℕ → CreateRecipeRequest → Visibility → CreateRecipeParams
unfolding or_default opt_text
draft_params user req visibility = record {
  author_id = user;
  parent_id = none;
  parent_revision_id = none;
  brew_type = or_default (codes "mead") req.brew_type;
  name = req.name;
  style = opt_text req.style;
  description = opt_text req.description;
  visibility = visibility;
}

unfoldable pub fork_params : ℕ → Recipe → Bytes → Visibility → CreateRecipeParams
fork_params user src name visibility = record {
  author_id = user;
  parent_id = some src.id;
  parent_revision_id = src.current_revision_id;
  brew_type = src.brew_type;
  name = name;
  style = src.style;
  description = src.description;
  visibility = visibility;
}

unfoldable pub meta_params :
    ℕ → ℕ → UpdateRecipeRequest → Option Visibility → UpdateRecipeMetaParams
meta_params id user req visibility = record {
  id = id;
  author_id = user;
  name = req.name;
  style = req.style;
  description = req.description;
  visibility = visibility;
}

module _ (w : World) (down : Outage) where
  unfoldable pub create_recipe_tx : ℕ → CreateRecipeRequest → Tx RecipeView
  unfolding write_revision insert_ingredients create_recipe_row
  create_recipe_tx user req = do
    recipe ←
        create_recipe_row w down "create failed"
          (visibility_of (or_default (codes "public") req.visibility)) (draft_params user req)
          (numeric_targets w req.targets)
    rows ←
        insert_ingredients w down "create failed" 400 "invalid ingredient kind" 0 recipe.id
          req.ingredients
    write_revision w down "create failed" user recipe 1 (opt_text req.message) rows

  unfoldable pub handle_create_recipe : ℕ → Option CreateRecipeRequest → Db → Db × Reply RecipeView
  unfolding create_recipe_tx create_recipe_fault
  handle_create_recipe user none db = (db, refused 400 "invalid json")
  handle_create_recipe user (some req) db = elim (create_recipe_fault w req) [
    | some fault ↦ (db, refused 400 fault)
    | none ↦ transaction down "create failed" 201 (create_recipe_tx user req) db
  ]

  -- The ingredients of the new revision: those that the body brings, or those that are there.
  unfoldable pub replace_ingredients :
      ℕ → Option (List IngredientInput) → Tx (List RecipeIngredient)
  unfolding insert_ingredients load_ingredients delete_recipe_ingredients
  replace_ingredients id none = load_ingredients w down "update failed" id
  replace_ingredients id (some ings) =
      delete_recipe_ingredients w down "update failed" id
      >> insert_ingredients w down "update failed" 400 "invalid ingredient kind" 0 id ings

  unfoldable pub update_recipe_tx : ℕ → ℕ → UpdateRecipeRequest → Tx RecipeView
  unfolding write_revision replace_ingredients update_recipe_meta cast_label
  update_recipe_tx id user req = do
    recipe ←
        update_recipe_meta w down "update failed" (cast_label visibility_of req.visibility)
          (meta_params id user req) (numeric_targets w req.targets)
    rows ← replace_ingredients id req.ingredients
    write_revision w down "update failed" user recipe ((recipe.revision_count + 1) % 2 ^ 32)
        req.message rows

  unfoldable pub update_found :
      ℕ → ℕ → Option UpdateRecipeRequest → Option Recipe → Db → Db × Reply RecipeView
  unfolding update_recipe_tx update_recipe_fault
  update_found id user body none db = (db, refused 404 "not found")
  update_found id user none (some cur) db =
      if not (cur.author_id == user)
      then (db, refused 404 "not found")
      else (db, refused 400 "invalid json")
  update_found id user (some req) (some cur) db =
      if not (cur.author_id == user)
      then (db, refused 404 "not found")
      else elim (update_recipe_fault w req) [
        | some fault ↦ (db, refused 400 fault)
        | none ↦ transaction down "update failed" 200 (update_recipe_tx id user req) db
      ]

  unfoldable pub handle_update_recipe :
      ℕ → Option ℕ → Option UpdateRecipeRequest → Db → Db × Reply RecipeView
  unfolding update_found
  handle_update_recipe user none body db = (db, refused 400 "invalid id")
  handle_update_recipe user (some id) body db =
      if down get_recipe_query
      then (db, refused 500 "fetch failed")
      else update_found id user body (find (is_recipe id) db.recipes) db

  unfoldable pub fork_recipe_tx :
      ℕ → Recipe → Bytes → Option Bytes → List RecipeIngredient → Tx RecipeView
  unfolding write_revision insert_ingredients create_recipe_row increment_fork_count
  fork_recipe_tx user src name message src_ings = do
    increment_fork_count w down "fork failed" src.id
    fork ←
        create_recipe_row w down "fork failed" (some private) (fork_params user src name)
          src.targets
    rows ←
        insert_ingredients w down "fork failed" 500 "fork failed" 0 fork.id
          (map (copied_ingredient w) src_ings)
    write_revision w down "fork failed" user fork 1 message rows

  unfoldable pub fork_found : ℕ → ForkRecipeRequest → Option Recipe → Db → Db × Reply RecipeView
  unfolding fork_recipe_tx too_long fork_name list_recipe_ingredients
  fork_found user req none db = (db, refused 404 "not found")
  fork_found user req (some src) db =
      if is_private src.visibility && not (src.author_id == user)
      then (db, refused 404 "not found")
      else if too_long max_recipe_name req.name
      then (db, refused 400 "name too long (max 200 chars)")
      else if down list_ingredients_query
      then (db, refused 500 "fork failed")
      else transaction down "fork failed" 201
          (fork_recipe_tx user src (fork_name src.name req.name) req.message
            (list_recipe_ingredients src.id db.ingredients))
          db

  -- An error of the decoder is ignored: the body is what it leaves.
  unfoldable pub handle_fork_recipe : ℕ → Option ℕ → ForkRecipeRequest → Db → Db × Reply RecipeView
  unfolding fork_found
  handle_fork_recipe user none body db = (db, refused 400 "invalid id")
  handle_fork_recipe user (some id) body db =
      if down get_recipe_query
      then (db, refused 500 "fetch failed")
      else fork_found user body (find (is_recipe id) db.recipes) db
