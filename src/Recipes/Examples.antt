-- ===== src/Recipes/Examples.antt =====
-- The recipe handlers on a public recipe of user 4 and a private one.
use zymobrew.Base.{◌≡◌, refl, false, [], ◌∷◌, none, some, codes, arith, any}
use zymobrew.Base.Int.{pos}
use zymobrew.Schema.{Recipe, Targets, public, private}
use zymobrew.Schema.Recipes.{RecipeRevision, RecipeIngredient, honey, ingredient_kind_of}
use zymobrew.Store.{Db, done}
use zymobrew.Store.Tx.{transaction}
use zymobrew.Page.Examples.{toy}
use zymobrew.Batches.Examples.{before, here, healthy}
use zymobrew.Batches.Events.Laws.{ErrorKeeps}
use zymobrew.Batches.Handlers.{is_recipe, pin_recipe}
use zymobrew.Recipes.{
  float_to_numeric, IngredientInput, CreateRecipeRequest, UpdateRecipeRequest, ForkRecipeRequest,
}
use zymobrew.Recipes.View.{RecipeView, to_recipe_view}
use zymobrew.Recipes.Rows.{
  forked, fit_targets, revised, revision_row, recipe_row, patch_recipe, ingredient_row,
}
use zymobrew.Recipes.Write.{
  copied_ingredient, fork_params, meta_params, handle_create_recipe, handle_update_recipe,
  handle_fork_recipe,
}
use zymobrew.Recipes.Write.Forks.{IsForked, fork_copies}
use zymobrew.Recipes.Read.{
  handle_get_recipe, handle_list_revisions, handle_get_revision, handle_list_comments,
}
use zymobrew.Recipes.Social.{
  handle_create_comment, handle_delete_comment, handle_like_recipe, handle_unlike_recipe,
  handle_delete_recipe,
}
use zymobrew.Recipes.History.Kept.{Kept}
use zymobrew.Recipes.History.Laws.{library-Kept, Appended, update_recipe_appends}
use zymobrew.Recipes.Laws.{recipe-ErrorKeeps}
use zymobrew.Recipes.Hidden.{without_id, hidden_reads, hidden_writes}

abbrev no_targets : Targets
no_targets = record {
  target_og = none;
  target_fg = none;
  target_abv = none;
  batch_size_l = some 20;
}

abbrev traditional : Recipe
traditional = record {
  id = 8;
  author_id = 4;
  parent_id = none;
  parent_revision_id = none;
  current_revision_id = some 81;
  revision_count = 1;
  fork_count = 0;
  brew_type = codes "mead";
  style = none;
  name = codes "old";
  description = none;
  targets = no_targets;
  visibility = public;
  created_at = pos 0;
  updated_at = pos 0;
}

abbrev secret : Recipe
secret = record traditional { id = 9; current_revision_id = some 91; visibility = private }

abbrev first : RecipeRevision
first = record {
  id = 81;
  recipe_id = 8;
  revision_number = 1;
  author_id = 4;
  message = none;
  name = codes "old";
  description = none;
  style = none;
  targets = no_targets;
  ingredients = codes "[]";
  created_at = pos 0;
}

abbrev sweet : RecipeIngredient
sweet = record {
  id = 82;
  recipe_id = 8;
  kind = honey;
  name = codes "clover";
  amount = some 5;
  unit = some (codes "kg");
  sort_order = pos 0;
  details = codes "{}";
}

abbrev shelf : Db
shelf = record before {
  recipes = traditional ∷ secret ∷ [];
  revisions = first ∷ record first { id = 91; recipe_id = 9 } ∷ [];
  ingredients = sweet ∷ [];
}

abbrev water_in : IngredientInput
water_in = record {
  kind = codes "water";
  name = codes "tap";
  amount = some 4;
  unit = [];
  sort_order = pos 1;
  details = [];
}

abbrev draft : CreateRecipeRequest
draft = record {
  name = codes "new";
  brew_type = [];
  style = [];
  description = [];
  targets = no_targets;
  visibility = [];
  message = [];
  ingredients = water_in ∷ [];
}

abbrev patch : UpdateRecipeRequest
patch = record {
  name = some (codes "better");
  style = none;
  description = none;
  targets = no_targets;
  visibility = none;
  message = some (codes "m");
  ingredients = none;
}

abbrev copy : ForkRecipeRequest
copy = record { name = none; message = none }

shelf-Kept : Kept shelf
shelf-Kept = (
  (
    (((λ e. omega (arith, e)), tt), (tt, tt)),
    ((refl, refl), ((refl, refl), tt)),
    (refl, (refl, tt)),
  ),
  (omega arith, (omega arith, tt)),
)

unused : any (is_recipe here.new_recipe_id) shelf.recipes ≡ false
unused = refl

recipe-ErrorKeeps_example :
    ErrorKeeps shelf (handle_create_recipe here healthy 4 (some draft) shelf)
    × ErrorKeeps shelf (handle_update_recipe here healthy 4 (some 8) (some patch) shelf)
    × ErrorKeeps shelf (handle_fork_recipe here healthy 4 (some 8) copy shelf)
    × ErrorKeeps shelf (handle_delete_recipe here healthy 4 (some 8) shelf)
    × ErrorKeeps shelf (handle_create_comment here healthy 4 (some 8) (some (codes "c")) shelf)
    × ErrorKeeps shelf (handle_delete_comment here healthy 4 (some 8) shelf)
    × ErrorKeeps shelf (handle_like_recipe here healthy 4 (some 8) shelf)
    × ErrorKeeps shelf (handle_unlike_recipe here healthy 4 (some 8) shelf)
recipe-ErrorKeeps_example =
    recipe-ErrorKeeps here healthy 4 shelf (some 8) (some draft) (some patch) copy
      (some (codes "c"))

library-Kept_example :
    Kept (handle_create_recipe here healthy 4 (some draft) shelf).0
    × Kept (handle_update_recipe here healthy 4 (some 8) (some patch) shelf).0
    × Kept (handle_fork_recipe here healthy 4 (some 8) copy shelf).0
    × Kept (handle_delete_recipe here healthy 4 (some 8) shelf).0
library-Kept_example =
    library-Kept here healthy 4 shelf (some 8) (some draft) (some patch) copy shelf-Kept unused

abbrev named : Recipe
named = record traditional { name = codes "better"; updated_at = pos 50 }

abbrev second : RecipeView
second =
    to_recipe_view here (revised (pos 50) 22 named)
      (revision_row here named 2 4 (some (codes "m")) (sweet ∷ [])) (sweet ∷ [])

changed : (handle_update_recipe here healthy 4 (some 8) (some patch) shelf).1 ≡ done 200 second
unfolding handle_update_recipe transaction meta_params fit_targets float_to_numeric revision_row
    patch_recipe
changed = refl

update_recipe_appends_example :
    Appended here healthy 4 shelf 8 patch
      (handle_update_recipe here healthy 4 (some 8) (some patch) shelf).0
      second
update_recipe_appends_example =
    update_recipe_appends here healthy 4 shelf 8 patch second shelf-Kept changed

hidden_reads_example :
    (handle_get_recipe here healthy (some 3) (some 9) shelf
      ≡ handle_get_recipe here healthy (some 3) (some 9) (without_id 9 shelf))
    × (handle_list_revisions here healthy (some 3) (some 9) shelf
        ≡ handle_list_revisions here healthy (some 3) (some 9) (without_id 9 shelf))
    × (handle_get_revision here healthy (some 3) (some 9) (codes "1") shelf
        ≡ handle_get_revision here healthy (some 3) (some 9) (codes "1") (without_id 9 shelf))
    × (handle_list_comments toy healthy (some 3) (some 9) [] [] shelf
        ≡ handle_list_comments toy healthy (some 3) (some 9) [] [] (without_id 9 shelf))
hidden_reads_example =
    hidden_reads here healthy shelf 9 secret refl refl (some 3) (codes "1") [] [] toy
      (λ e. omega (arith, e))

hidden_writes_example :
    (handle_update_recipe here healthy 3 (some 9) (some patch) shelf
      ≡ (shelf, (handle_update_recipe here healthy 3 (some 9) (some patch) (without_id 9 shelf)).1))
    × (handle_fork_recipe here healthy 3 (some 9) copy shelf
        ≡ (shelf, (handle_fork_recipe here healthy 3 (some 9) copy (without_id 9 shelf)).1))
    × (handle_delete_recipe here healthy 3 (some 9) shelf
        ≡ (shelf, (handle_delete_recipe here healthy 3 (some 9) (without_id 9 shelf)).1))
    × (handle_create_comment here healthy 3 (some 9) none shelf
        ≡ (shelf, (handle_create_comment here healthy 3 (some 9) none (without_id 9 shelf)).1))
    × (handle_like_recipe here healthy 3 (some 9) shelf
        ≡ (shelf, (handle_like_recipe here healthy 3 (some 9) (without_id 9 shelf)).1))
    × (pin_recipe here healthy 3 (some (some 9)) shelf.recipes
        ≡ pin_recipe here healthy 3 (some (some 9)) (without_id 9 shelf).recipes)
hidden_writes_example =
    hidden_writes here healthy shelf 9 secret refl refl 3 (some patch) copy none shelf-Kept.0.0
      (λ e. omega (arith, e))

abbrev fork_row : Recipe
fork_row = recipe_row here (fork_params 3 traditional (codes "old") private) no_targets

abbrev sweet_copy : RecipeIngredient
sweet_copy = record sweet { id = 30; recipe_id = 21 }

abbrev forked_view : RecipeView
forked_view =
    to_recipe_view here (revised (pos 50) 22 fork_row)
      (revision_row here fork_row 1 3 none (sweet_copy ∷ [])) (sweet_copy ∷ [])

forked_answer : (handle_fork_recipe here healthy 3 (some 8) copy shelf).1 ≡ done 201 forked_view
unfolding handle_fork_recipe recipe_row fork_params transaction fit_targets ingredient_kind_of
    copied_ingredient float_to_numeric revision_row forked ingredient_row
forked_answer = refl

fork_copies_example :
    IsForked here healthy 3 shelf 8 copy (handle_fork_recipe here healthy 3 (some 8) copy shelf).0
fork_copies_example = fork_copies here healthy 3 shelf 8 copy forked_view unused forked_answer
