-- ===== src/Recipes/View.antt =====
-- What the recipe handlers answer: the views of internal/server/recipes.go.
use zymobrew.Base.{ℕ, List, Option, Bytes, codes, map, is_empty, if◌then◌else◌}
use zymobrew.Base.Int.{ℤ}
use zymobrew.Schema.{Recipe, Targets, Visibility}
use zymobrew.Schema.Recipes.{RecipeIngredient, RecipeRevision, ingredient_kind_label}
use zymobrew.Store.{World}
use zymobrew.Recipes.{numeric_ptr, text_or_empty}

pub record IngredientView : Type 0 where
  pub id : ℕ
  pub kind : Bytes
  pub name : Bytes
  pub amount : Option ℕ
  pub unit : Bytes
  pub sort_order : ℤ
  pub details : Bytes

pub record RecipeView : Type 0 where
  pub id : ℕ
  pub author_id : ℕ
  pub parent_id : Option ℕ
  pub revision_number : ℕ
  pub revision_count : ℕ
  pub fork_count : ℕ
  pub brew_type : Bytes
  pub style : Bytes
  pub name : Bytes
  pub description : Bytes
  pub targets : Targets
  pub visibility : Visibility
  pub message : Bytes
  pub ingredients : List IngredientView
  pub created_at : Bytes
  pub updated_at : Bytes

pub record RevisionSummaryView : Type 0 where
  pub id : ℕ
  pub revision_number : ℕ
  pub author_id : ℕ
  pub message : Bytes
  pub created_at : Bytes

pub record RevisionDetailView : Type 0 where
  pub id : ℕ
  pub revision_number : ℕ
  pub author_id : ℕ
  pub message : Bytes
  pub name : Bytes
  pub style : Bytes
  pub description : Bytes
  pub targets : Targets
  pub ingredients : Bytes
  pub created_at : Bytes

module _ (w : World) where
  target_ptrs : Targets → Targets
  unfolding numeric_ptr
  target_ptrs t = record {
    target_og = numeric_ptr w t.target_og;
    target_fg = numeric_ptr w t.target_fg;
    target_abv = numeric_ptr w t.target_abv;
    batch_size_l = numeric_ptr w t.batch_size_l;
  }

  unfoldable pub to_ingredient_view : RecipeIngredient → IngredientView
  unfolding text_or_empty numeric_ptr is_empty
  to_ingredient_view i = record {
    id = i.id;
    kind = ingredient_kind_label i.kind;
    name = i.name;
    amount = numeric_ptr w i.amount;
    unit = text_or_empty i.unit;
    sort_order = i.sort_order;
    details = if is_empty i.details then codes "{}" else i.details;
  }

  unfoldable pub to_recipe_view : Recipe → RecipeRevision → List RecipeIngredient → RecipeView
  unfolding to_ingredient_view target_ptrs text_or_empty
  to_recipe_view r rev ings = record {
    id = r.id;
    author_id = r.author_id;
    parent_id = r.parent_id;
    revision_number = rev.revision_number;
    revision_count = r.revision_count;
    fork_count = r.fork_count;
    brew_type = r.brew_type;
    style = text_or_empty r.style;
    name = r.name;
    description = text_or_empty r.description;
    targets = target_ptrs r.targets;
    visibility = r.visibility;
    message = text_or_empty rev.message;
    ingredients = map to_ingredient_view ings;
    created_at = w.format_time r.created_at;
    updated_at = w.format_time r.updated_at;
  }

  unfoldable pub to_revision_summary : RecipeRevision → RevisionSummaryView
  unfolding text_or_empty
  to_revision_summary rev = record {
    id = rev.id;
    revision_number = rev.revision_number;
    author_id = rev.author_id;
    message = text_or_empty rev.message;
    created_at = w.format_time rev.created_at;
  }

  unfoldable pub to_revision_detail : RecipeRevision → RevisionDetailView
  unfolding target_ptrs text_or_empty is_empty
  to_revision_detail rev = record {
    id = rev.id;
    revision_number = rev.revision_number;
    author_id = rev.author_id;
    message = text_or_empty rev.message;
    name = rev.name;
    style = text_or_empty rev.style;
    description = text_or_empty rev.description;
    targets = target_ptrs rev.targets;
    ingredients = if is_empty rev.ingredients then codes "[]" else rev.ingredients;
    created_at = w.format_time rev.created_at;
  }
