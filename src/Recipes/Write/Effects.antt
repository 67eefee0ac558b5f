-- ===== src/Recipes/Write/Effects.antt =====
-- What the queries of a recipe's transaction change (internal/server/recipes.go), as rules for `Ends`.
use Prim.Native.String.{String}
use zymobrew.Base.{
  ℕ, suc, ◌≡◌, refl, false, List, [], ◌∷◌, ◌++◌, Option, none, some, Bytes, codes, find, any,
  update, is_empty, leb, if◌then◌else◌, Bool-cases, inl, inr, ◌&&◌,
}
use zymobrew.Schema.{Recipe, Visibility, Targets}
use zymobrew.Schema.Recipes.{RecipeIngredient, RecipeRevision, ingredient_kind_of}
use zymobrew.Store.{
  Db, World, Outage, amount_column, create_recipe_query, create_ingredient_query,
  create_revision_query, set_revision_query, update_recipe_query, delete_ingredients_query,
  list_ingredients_query, fork_count_query,
}
use zymobrew.Store.Tx.{Step, ran, failed, Ends, query-Ends, continue-Ends, or_give_up-Ends}
use zymobrew.Batches.Handlers.{is_recipe}
use zymobrew.Recipes.{IngredientInput, float_to_numeric}
use zymobrew.Recipes.Write.{replace_ingredients}
use zymobrew.Recipes.View.{to_recipe_view}
use zymobrew.Recipes.Rows.{
  max_int32, fit, fit_targets, CreateRecipeParams, recipe_row, revision_row, has_revision,
  UpdateRecipeMetaParams, patch_recipe, is_own_recipe, revised, forked,
}
use zymobrew.Recipes.Tables.{
  create_recipe_row, insert_recipe, insert_ingredient_row, create_recipe_ingredient,
  insert_ingredients, insert_revision, create_recipe_revision, set_found, set_recipe_revision,
  patch_found, update_recipe_meta, delete_recipe_ingredients, load_ingredients,
  increment_fork_count, write_revision,
}

-- Nothing has changed but the ingredients.
abbrev pub IngredientsOnly : Db → Db → Type 0
IngredientsOnly db after =
    (rows : List RecipeIngredient) × (after ≡ record db { ingredients = rows })

-- A recipe has been stored as a draft.
abbrev pub Drafted :
    World → Option Visibility → (Visibility → CreateRecipeParams) → Db → Db → Recipe → Type 0
Drafted w label p db after row =
    (visibility : Visibility) × (kept : Targets) × (label ≡ some visibility)
    × (row ≡ recipe_row w (p visibility) kept)
    × (after ≡ record db { recipes = db.recipes ++ row ∷ [] })

-- The recipes of the author's of an id have been patched; the first of them was there.
abbrev pub Patched :
    World → (Option Visibility → UpdateRecipeMetaParams) → Db → Db → Recipe → Type 0
Patched w params db after row =
    (v : Option Visibility) × (kept : Targets) × (old : Recipe) × (find
        (is_own_recipe (params v).id (params v).author_id) db.recipes
      ≡ some old)
    × (row ≡ patch_recipe w.now (params v) kept old)
    × (after ≡ record db {
      recipes =
          update (is_own_recipe (params v).id (params v).author_id)
            (patch_recipe w.now (params v) kept) db.recipes;
    })

-- The fork counts of the recipes of an id have gone up.
abbrev pub Counted : World → ℕ → Db → Db → Unit {0} → Type 0
Counted w id db after x =
    after ≡ record db { recipes = update (is_recipe id) (forked w.now) db.recipes }

module _ (w : World) (down : Outage) (oops : String) where
  module _ (bad : ℕ) (bad_kind : String) where
    create_recipe_ingredient-Ends :
        (n recipe : ℕ) (ing : IngredientInput) (db : Db)
        → Ends
            (λ after row. IngredientsOnly db after)
            (create_recipe_ingredient w down oops bad bad_kind n recipe ing db)
    unfolding create_recipe_ingredient insert_ingredient_row
    create_recipe_ingredient-Ends n recipe ing db =
        query-Ends _ (down (create_ingredient_query n)) oops _ (
          or_give_up-Ends _ bad bad_kind (ingredient_kind_of ing.kind) _ db (λ kind _.
            or_give_up-Ends _ 500 oops
              (w.to_jsonb (if is_empty ing.details then codes "{}" else ing.details)) _ db
              (λ details _.
                or_give_up-Ends _ 500 oops (fit w amount_column (float_to_numeric w ing.amount)) _
                  db (λ amount _. (_, refl)))))

    pub insert_ingredients-Ends :
        (n recipe : ℕ) (ings : List IngredientInput) (db : Db)
        → Ends
            (λ after rows. IngredientsOnly db after)
            (insert_ingredients w down oops bad bad_kind n recipe ings db)
    unfolding insert_ingredients
    insert_ingredients-Ends n recipe [] db = (db.ingredients, refl)
    insert_ingredients-Ends n recipe (ing ∷ ings) db =
        continue-Ends (λ after row. IngredientsOnly db after) _
          (create_recipe_ingredient w down oops bad bad_kind n recipe ing db) _
          (create_recipe_ingredient-Ends n recipe ing db)
          (λ mid row (xs, e).
            continue-Ends (λ after rows. IngredientsOnly mid after) _
              (insert_ingredients w down oops bad bad_kind (suc n) recipe ings mid) _
              (insert_ingredients-Ends (suc n) recipe ings mid) (λ after rows (ys, e'). (ys, cc)))

  pub create_recipe_row-Ends :
      (label : Option Visibility) (p : Visibility → CreateRecipeParams) (targets : Targets)
      (db : Db)
      → Ends (Drafted w label p db) (create_recipe_row w down oops label p targets db)
  unfolding create_recipe_row
  create_recipe_row-Ends label p targets db = query-Ends _ (down create_recipe_query) oops _ (
      or_give_up-Ends _ 400 "invalid visibility value" label _ db
        (λ visibility e. inserted visibility (fit_targets w targets) e))
    where
      inserted :
          (visibility : Visibility) (o : Option Targets)
          → label ≡ some visibility
          → Ends (Drafted w label p db) (insert_recipe w down oops (p visibility) o db)
      inserted visibility none e = unfold insert_recipe in tt
      inserted visibility (some kept) e = unfold insert_recipe in (visibility, kept, e, refl, refl)

  create_recipe_revision-Ends :
      (rev : RecipeRevision) (db : Db)
      → Ends
          (λ after row. (row ≡ rev) × (after ≡ record db { revisions = db.revisions ++ rev ∷ [] }))
          (create_recipe_revision w down oops rev db)
  unfolding create_recipe_revision insert_revision
  create_recipe_revision-Ends rev db =
      query-Ends _ (down create_revision_query) oops _
        (elim (Bool-cases (any (has_revision rev.recipe_id rev.revision_number) db.revisions)) [
          | inl e ↦ rw e tt
          | inr e ↦ rw e (refl, refl)
        ])

  -- The recipe points at the revision and counts it.
  set_recipe_revision-Ends :
      (id revision : ℕ) (db : Db)
      → Ends
          (λ after row.
            (cur : Recipe) × (find (is_recipe id) db.recipes ≡ some cur)
            × (leb max_int32 cur.revision_count ≡ false)
            × (after
                ≡ record db { recipes = update (is_recipe id) (revised w.now revision) db.recipes })
            × (row ≡ revised w.now revision cur))
          (set_recipe_revision w down oops id revision db)
  unfolding set_recipe_revision
  set_recipe_revision-Ends id revision db =
      query-Ends _ (down set_revision_query) oops _
        (looked_up (find (is_recipe id) db.recipes) refl)
    where
      looked_up :
          (o : Option Recipe)
          → find (is_recipe id) db.recipes ≡ o
          → Ends
              (λ after row.
                (cur : Recipe) × (find (is_recipe id) db.recipes ≡ some cur)
                × (leb max_int32 cur.revision_count ≡ false)
                × (after ≡ record db {
                  recipes = update (is_recipe id) (revised w.now revision) db.recipes;
                })
                × (row ≡ revised w.now revision cur))
              (set_found w down oops id revision o db)
      looked_up none found = unfold set_found in tt
      looked_up (some cur) found = elim (Bool-cases (leb max_int32 cur.revision_count)) [
        | inl e ↦ rw (e, set_found) tt
        | inr e ↦ rw (e, set_found) (cur, found, e, refl, refl)
      ]

  -- A revision has been appended, and the recipe points at it.
  pub write_revision-Ends :
      (user : ℕ) (r : Recipe) (number : ℕ) (message : Option Bytes) (ings : List RecipeIngredient)
      (db : Db)
      → Ends
          (λ after view.
            (cur : Recipe) × (find (is_recipe r.id) db.recipes ≡ some cur)
            × (leb max_int32 cur.revision_count ≡ false)
            × (after ≡ record db {
              recipes = update (is_recipe r.id) (revised w.now w.new_revision_id) db.recipes;
              revisions = db.revisions ++ revision_row w r number user message ings ∷ [];
            })
            × (view
                ≡ to_recipe_view w
                    (revised w.now w.new_revision_id cur)
                    (revision_row w r number user message ings)
                    ings))
          (write_revision w down oops user r number message ings db)
  unfolding write_revision revision_row
  write_revision-Ends user r number message ings db =
      let rev = revision_row w r number user message ings in
      continue-Ends
        (λ after row. (row ≡ rev) × (after ≡ record db { revisions = db.revisions ++ rev ∷ [] })) _
        (create_recipe_revision w down oops rev db) _ (create_recipe_revision-Ends rev db)
        (λ mid row (same, e).
          continue-Ends
            (λ after x.
              (cur : Recipe) × (find (is_recipe r.id) mid.recipes ≡ some cur)
              × (leb max_int32 cur.revision_count ≡ false)
              × (after ≡ record mid {
                recipes = update (is_recipe r.id) (revised w.now row.id) mid.recipes;
              })
              × (x ≡ revised w.now row.id cur))
            _ (set_recipe_revision w down oops r.id row.id mid) _
            (set_recipe_revision-Ends r.id row.id mid)
            (λ after x (cur, found, small, e', seen).
              (cur, (rw e at found), small, (rw (same, e) at e'), cc)))

  pub update_recipe_meta-Ends :
      (label : Option (Option Visibility)) (params : Option Visibility → UpdateRecipeMetaParams)
      (targets : Targets) (db : Db)
      → Ends (Patched w params db) (update_recipe_meta w down oops label params targets db)
  unfolding update_recipe_meta
  update_recipe_meta-Ends label params targets db = query-Ends _ (down update_recipe_query) oops _ (
      or_give_up-Ends _ 400 "invalid visibility value" label _ db (λ v _.
        patched v (fit_targets w targets)
          (find (is_own_recipe (params v).id (params v).author_id) db.recipes) refl))
    where
      patched :
          (v : Option Visibility) (kept : Option Targets) (o : Option Recipe)
          → find (is_own_recipe (params v).id (params v).author_id) db.recipes ≡ o
          → Ends (Patched w params db) (patch_found w down oops (params v) kept o db)
      patched v kept none e = unfold patch_found in tt
      patched v none (some old) e = unfold patch_found in tt
      patched v (some kept) (some old) e = unfold patch_found in (v, kept, old, e, refl, refl)

  pub increment_fork_count-Ends :
      (id : ℕ) (db : Db) → Ends (Counted w id db) (increment_fork_count w down oops id db)
  unfolding increment_fork_count
  increment_fork_count-Ends id db =
      query-Ends _ (down fork_count_query) oops _
        (elim (Bool-cases (any (λ r. is_recipe id r && leb max_int32 r.fork_count) db.recipes)) [
          | inl e ↦ rw e tt
          | inr e ↦ rw e refl
        ])

module _ (w : World) (down : Outage) where
  -- The ingredients of the recipe have been replaced or loaded.
  pub replace_ingredients-Ends :
      (id : ℕ) (body : Option (List IngredientInput)) (db : Db)
      → Ends (λ after rows. IngredientsOnly db after) (replace_ingredients w down id body db)
  unfolding replace_ingredients load_ingredients delete_recipe_ingredients
  replace_ingredients-Ends id none db =
      query-Ends _ (down list_ingredients_query) _ _ (db.ingredients, refl)
  replace_ingredients-Ends id (some ings) db =
      continue-Ends (λ after x. IngredientsOnly db after) _
        (delete_recipe_ingredients w down "update failed" id db) _
        (query-Ends _ (down delete_ingredients_query) _ _ (_, refl))
        (λ mid x (xs, e).
          replaced mid xs e
            (insert_ingredients w down "update failed" 400 "invalid ingredient kind" 0 id ings mid)
            (insert_ingredients-Ends w down "update failed" 400 "invalid ingredient kind" 0 id ings
              mid))
    where
      replaced :
          (mid : Db) (xs : List RecipeIngredient)
          → mid ≡ record db { ingredients = xs }
          → (step : Step (List RecipeIngredient))
          → Ends (λ after rows. IngredientsOnly mid after) step
          → Ends (λ after rows. IngredientsOnly db after) step
      replaced mid xs e (ran after rows) (ys, e') = (ys, cc)
      replaced mid xs e (failed s m) h = tt
