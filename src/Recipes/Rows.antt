-- ===== src/Recipes/Rows.antt =====
-- The rows of internal/queries/recipes.sql.go: what its statements insert, change and order.
use mathlib.Core.Option
use zymobrew.Base.{
  ℕ, ◌+◌, ◌-◌, ◌^◌, Bool, ◌&&◌, List, [], ◌∷◌, Option, none, some, Bytes, select, ◌==◌,
  if◌then◌else◌,
}
use zymobrew.Base.Int.{ℤ}
use zymobrew.Schema.{Recipe, Targets, Visibility}
use zymobrew.Schema.Recipes.{IngredientKind, RecipeIngredient, RecipeRevision}
use zymobrew.Store.{World, NumericColumn, gravity, abv, volume}
use zymobrew.Page.Order.{row_lt}
use zymobrew.Reminders.{coalesce, coalesce_null}
use zymobrew.Batches.Events.{opt_text}
use zymobrew.Recipes.{IngredientInput, build_snapshot}

abbrev pub max_int32 : ℕ
max_int32 = 2 ^ 31 - 1

-- A row of an INSERT or the values of an UPDATE, after the targets have been stored.
unfoldable pub fit : World → NumericColumn → Option ℕ → Option (Option ℕ)
fit w c none = some none
fit w c (some x) = Option.map some (w.round_to c x)

all_fit :
    Option (Option ℕ) → Option (Option ℕ) → Option (Option ℕ) → Option (Option ℕ) → Option Targets
all_fit (some og) (some fg) (some alcohol) (some size) =
    some record { target_og = og; target_fg = fg; target_abv = alcohol; batch_size_l = size }
all_fit _ _ _ _ = none

-- What the four columns keep of the values that are sent, or no answer where one is out of range.
unfoldable pub fit_targets : World → Targets → Option Targets
unfolding all_fit fit
fit_targets w t =
    all_fit (fit w gravity t.target_og) (fit w gravity t.target_fg) (fit w abv t.target_abv)
      (fit w volume t.batch_size_l)

-- The parameters of `CreateRecipeDraft` and, with a parent, of `CreateForkedRecipe`.
pub record CreateRecipeParams : Type 0 where
  pub author_id : ℕ
  pub parent_id : Option ℕ
  pub parent_revision_id : Option ℕ
  pub brew_type : Bytes
  pub name : Bytes
  pub style : Option Bytes
  pub description : Option Bytes
  pub visibility : Visibility

unfoldable pub recipe_row : World → CreateRecipeParams → Targets → Recipe
recipe_row w p targets = record {
  id = w.new_recipe_id;
  author_id = p.author_id;
  parent_id = p.parent_id;
  parent_revision_id = p.parent_revision_id;
  current_revision_id = none;
  revision_count = 0;
  fork_count = 0;
  brew_type = p.brew_type;
  style = p.style;
  name = p.name;
  description = p.description;
  targets = targets;
  visibility = p.visibility;
  created_at = w.now;
  updated_at = w.now;
}

unfoldable pub ingredient_row :
    World → ℕ → ℕ → IngredientInput → IngredientKind → Option ℕ → Bytes → RecipeIngredient
unfolding opt_text
ingredient_row w n recipe ing kind amount details = record {
  id = w.new_ingredient_id n;
  recipe_id = recipe;
  kind = kind;
  name = ing.name;
  amount = amount;
  unit = opt_text ing.unit;
  sort_order = ing.sort_order;
  details = details;
}

unfoldable pub revision_row :
    World → Recipe → ℕ → ℕ → Option Bytes → List RecipeIngredient → RecipeRevision
unfolding build_snapshot
revision_row w r number author message ings = record {
  id = w.new_revision_id;
  recipe_id = r.id;
  revision_number = number;
  author_id = author;
  message = message;
  name = r.name;
  description = r.description;
  style = r.style;
  targets = r.targets;
  ingredients = build_snapshot w ings;
  created_at = w.now;
}

-- `UNIQUE (recipe_id, revision_number)`
abbrev pub has_revision : ℕ → ℕ → RecipeRevision → Bool
has_revision recipe number rev = rev.recipe_id == recipe && rev.revision_number == number

pub record UpdateRecipeMetaParams : Type 0 where
  pub id : ℕ
  pub author_id : ℕ
  pub name : Option Bytes
  pub style : Option Bytes
  pub description : Option Bytes
  pub visibility : Option Visibility

abbrev pub coalesce_targets : Targets → Targets → Targets
coalesce_targets new old = record {
  target_og = coalesce_null new.target_og old.target_og;
  target_fg = coalesce_null new.target_fg old.target_fg;
  target_abv = coalesce_null new.target_abv old.target_abv;
  batch_size_l = coalesce_null new.batch_size_l old.batch_size_l;
}

unfoldable pub patch_recipe : ℤ → UpdateRecipeMetaParams → Targets → Recipe → Recipe
patch_recipe now p targets r = record r {
  name = coalesce p.name r.name;
  style = coalesce_null p.style r.style;
  description = coalesce_null p.description r.description;
  targets = coalesce_targets targets r.targets;
  visibility = coalesce p.visibility r.visibility;
  updated_at = now;
}

-- `WHERE id = $9 AND author_id = $10`
abbrev pub is_own_recipe : ℕ → ℕ → Recipe → Bool
is_own_recipe id author r = r.id == id && r.author_id == author

unfoldable pub revised : ℤ → ℕ → Recipe → Recipe
revised now revision r = record r {
  current_revision_id = some revision;
  revision_count = r.revision_count + 1;
  updated_at = now;
}

unfoldable pub forked : ℤ → Recipe → Recipe
forked now r = record r { fork_count = r.fork_count + 1; updated_at = now }

abbrev pub ingredient_of : ℕ → RecipeIngredient → Bool
ingredient_of recipe ing = ing.recipe_id == recipe

-- `ORDER BY sort_order ASC, id ASC`
unfoldable pub insert_ingredient : RecipeIngredient → List RecipeIngredient → List RecipeIngredient
insert_ingredient x [] = x ∷ []
insert_ingredient x (y ∷ ys) =
    if row_lt (y.sort_order, y.id) (x.sort_order, x.id)
    then y ∷ insert_ingredient x ys
    else x ∷ y ∷ ys

unfoldable pub sort_ingredients : List RecipeIngredient → List RecipeIngredient
unfolding insert_ingredient
sort_ingredients [] = []
sort_ingredients (x ∷ xs) = insert_ingredient x (sort_ingredients xs)

unfoldable pub list_recipe_ingredients : ℕ → List RecipeIngredient → List RecipeIngredient
unfolding sort_ingredients
list_recipe_ingredients recipe rows = sort_ingredients (select (ingredient_of recipe) rows)
