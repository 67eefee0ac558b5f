-- ===== src/Schema/Recipes.antt =====
-- The rows that belong to recipes (internal/queries/models.go). An INT column is kept as a number;
-- the revision numbers and counters of stored rows are never negative.
use zymobrew.Base.{ℕ, [], ◌∷◌, Option, Bytes, codes}
use zymobrew.Base.Int.{ℤ}
use zymobrew.Schema.{Targets}
use zymobrew.Schema.Labels.{label_value}

pub data IngredientKind : Type 0 where
  honey water yeast nutrient fruit spice oak acid tannin other_kind juice sugar : IngredientKind

abbrev pub ingredient_kind_label : IngredientKind → Bytes
ingredient_kind_label honey = codes "honey"
ingredient_kind_label water = codes "water"
ingredient_kind_label yeast = codes "yeast"
ingredient_kind_label nutrient = codes "nutrient"
ingredient_kind_label fruit = codes "fruit"
ingredient_kind_label spice = codes "spice"
ingredient_kind_label oak = codes "oak"
ingredient_kind_label acid = codes "acid"
ingredient_kind_label tannin = codes "tannin"
ingredient_kind_label other_kind = codes "other"
ingredient_kind_label juice = codes "juice"
ingredient_kind_label sugar = codes "sugar"

unfoldable pub ingredient_kind_of : Bytes → Option IngredientKind
unfolding label_value
ingredient_kind_of = label_value (
    (codes "honey", honey)
    ∷ (codes "water", water)
    ∷ (codes "yeast", yeast)
    ∷ (codes "nutrient", nutrient)
    ∷ (codes "fruit", fruit)
    ∷ (codes "spice", spice)
    ∷ (codes "oak", oak)
    ∷ (codes "acid", acid)
    ∷ (codes "tannin", tannin)
    ∷ (codes "other", other_kind)
    ∷ (codes "juice", juice)
    ∷ (codes "sugar", sugar)
    ∷ [])

pub record RecipeIngredient : Type 0 where
  pub id : ℕ
  pub recipe_id : ℕ
  pub kind : IngredientKind
  pub name : Bytes
  pub amount : Option ℕ
  pub unit : Option Bytes
  pub sort_order : ℤ
  pub details : Bytes

pub record RecipeRevision : Type 0 where
  pub id : ℕ
  pub recipe_id : ℕ
  pub revision_number : ℕ
  pub author_id : ℕ
  pub message : Option Bytes
  pub name : Bytes
  pub description : Option Bytes
  pub style : Option Bytes
  pub targets : Targets
  pub ingredients : Bytes
  pub created_at : ℤ

pub record RecipeComment : Type 0 where
  pub id : ℕ
  pub recipe_id : ℕ
  pub author_id : ℕ
  pub body : Bytes
  pub created_at : ℤ

pub record RecipeLike : Type 0 where
  pub user_id : ℕ
  pub recipe_id : ℕ
  pub created_at : ℤ

-- `ingredientSnap` of internal/server/recipes.go: an ingredient as a revision keeps it.
pub record IngredientSnap : Type 0 where
  pub kind : Bytes
  pub name : Bytes
  pub amount : Option ℕ
  pub unit : Bytes
  pub sort_order : ℤ
  pub details : Option Bytes
