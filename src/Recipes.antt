-- ===== src/Recipes.antt =====
-- internal/server/recipes.go: limits, decoded bodies, the check of ingredients, and who sees a recipe.
pub mod View
pub mod Rows
pub mod Tables
pub mod Write
pub mod Read
pub mod Social
pub mod History
pub mod Laws
pub mod Hidden
pub mod Examples
use Prim.Native.String.{String, ◌++◌}
use zymobrew.Base.{
  ℕ, suc, ◌*◌, map, Bool, true, false, ◌&&◌, ◌||◌, not, List, [], ◌∷◌, Option, none, some, Bytes,
  codes, length, is_empty, ltb, ◌==◌, if◌then◌else◌,
}
use zymobrew.Base.Int.{ℤ}
use zymobrew.Schema.{Recipe, Targets, is_private}
use zymobrew.Schema.Recipes.{RecipeIngredient, IngredientSnap, ingredient_kind_label}
use zymobrew.Store.{World}
use zymobrew.Batches.Events.{opt_text}

abbrev pub max_recipe_name : ℕ
max_recipe_name = 200

abbrev pub max_recipe_desc : ℕ
max_recipe_desc = 10 * 1024

abbrev pub max_recipe_style : ℕ
max_recipe_style = 100

abbrev pub max_ingredients : ℕ
max_ingredients = 50

abbrev pub max_ingred_name : ℕ
max_ingred_name = 200

abbrev pub max_comment_body : ℕ
max_comment_body = 10 * 1024

-- A number of a body is a float64, kept by a code.
pub record IngredientInput : Type 0 where
  pub kind : Bytes
  pub name : Bytes
  pub amount : Option ℕ
  pub unit : Bytes
  pub sort_order : ℤ
  pub details : Bytes

-- In the bodies the field `targets` stands for their four numbers.
pub record CreateRecipeRequest : Type 0 where
  pub name : Bytes
  pub brew_type : Bytes
  pub style : Bytes
  pub description : Bytes
  pub targets : Targets
  pub visibility : Bytes
  pub message : Bytes
  pub ingredients : List IngredientInput

pub record ForkRecipeRequest : Type 0 where
  pub name : Option Bytes
  pub message : Option Bytes

pub record UpdateRecipeRequest : Type 0 where
  pub name : Option Bytes
  pub style : Option Bytes
  pub description : Option Bytes
  pub targets : Targets
  pub visibility : Option Bytes
  pub message : Option Bytes
  pub ingredients : Option (List IngredientInput)

-- `textOrEmpty`
unfoldable pub text_or_empty : Option Bytes → Bytes
text_or_empty none = []
text_or_empty (some s) = s

-- `ing.Details[0] != '{'`
unfoldable pub opens_object : Bytes → Bool
opens_object [] = false
opens_object (c ∷ s) = c == b'{'

module _ (w : World) where
  -- `floatToNumeric` and `numericPtr`
  unfoldable pub float_to_numeric : Option ℕ → Option ℕ
  float_to_numeric none = none
  float_to_numeric (some x) = w.numeric_of x

  unfoldable pub numeric_ptr : Option ℕ → Option ℕ
  numeric_ptr none = none
  numeric_ptr (some n) = w.float_of n

  unfoldable pub ingredient_fault : ℕ → IngredientInput → Option String
  unfolding opens_object is_empty
  ingredient_fault i ing =
      if is_empty ing.kind
      then some ("ingredient[" ++ (w.itoa i ++ "].kind required"))
      else if is_empty ing.name || ltb max_ingred_name (length ing.name)
      then some ("ingredient[" ++ (w.itoa i ++ "].name required (max 200 chars)"))
      else if not (is_empty ing.details)
          && (not (w.json_valid ing.details) || not (opens_object ing.details))
      then some ("ingredient[" ++ (w.itoa i ++ "].details must be a JSON object"))
      else none

  -- The first fault of the ingredients from the place `i` on.
  unfoldable pub first_fault : ℕ → List IngredientInput → Option String
  unfolding ingredient_fault
  first_fault i [] = none
  first_fault i (ing ∷ ings) = elim (ingredient_fault i ing) [
    | some fault ↦ some fault
    | none ↦ first_fault (suc i) ings
  ]

  unfoldable pub validate_ingredients : List IngredientInput → Option String
  unfolding first_fault
  validate_ingredients ings =
      if ltb max_ingredients (length ings)
      then some "too many ingredients (max 50)"
      else first_fault 0 ings

  unfoldable pub snap : RecipeIngredient → IngredientSnap
  unfolding text_or_empty numeric_ptr is_empty
  snap ing = record {
    kind = ingredient_kind_label ing.kind;
    name = ing.name;
    amount = numeric_ptr ing.amount;
    unit = text_or_empty ing.unit;
    sort_order = ing.sort_order;
    details = opt_text ing.details;
  }

  unfoldable pub build_snapshot : List RecipeIngredient → Bytes
  unfolding snap
  build_snapshot ings = w.marshal_ingredients (map snap ings)

unfoldable pub recipe_visible_to : Recipe → Option ℕ → Bool
recipe_visible_to r none = not (is_private r.visibility)
recipe_visible_to r (some user) = not (is_private r.visibility) || r.author_id == user
