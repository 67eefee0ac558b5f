-- ===== src/Recipes/Write/Outcomes.antt =====
-- How handleCreateRecipe, handleUpdateRecipe and handleForkRecipe of internal/server/recipes.go end: in
-- a refusal that changes nothing, or with their transaction committed.
use Prim.Native.String.{String}
use zymobrew.Base.{ℕ, ◌≡◌, refl, false, ◌&&◌, not, Option, none, some, find, ◌==◌, if_rule}
use zymobrew.Schema.{Recipe, is_private}
use zymobrew.Store.{
  Db, Reply, refused, done, World, Outage, get_recipe_query, list_ingredients_query,
}
use zymobrew.Store.Tx.{Ends, transaction-Ends}
use zymobrew.Batches.Handlers.{is_recipe}
use zymobrew.Recipes.{CreateRecipeRequest, UpdateRecipeRequest, ForkRecipeRequest, max_recipe_name}
use zymobrew.Recipes.View.{RecipeView}
use zymobrew.Recipes.Rows.{list_recipe_ingredients}
use zymobrew.Recipes.Write.{
  create_recipe_fault, update_recipe_fault, create_recipe_tx, update_recipe_tx, fork_recipe_tx,
  handle_create_recipe, handle_update_recipe, handle_fork_recipe, update_found, fork_found,
  too_long, fork_name,
}

checked_rule :
    {A : Type 0} (P : A → Type 0) (o : Option String) (x : String → A) (y : A)
    → ((s : String) → P (x s))
    → P y
    → P (elim o [ some fault ↦ x fault | none ↦ y ])
checked_rule P none x y h k = k
checked_rule P (some s) x y h k = h s

module _ (w : World) (down : Outage) (user : ℕ) (db : Db) (P : Db × Reply RecipeView → Type 0)
    (fails : (s : ℕ) (m : String) → P (db, refused s m)) where
  pub create_recipe-Ends :
      (Q : Db → RecipeView → Type 0) (body : Option CreateRecipeRequest)
      → ((req : CreateRecipeRequest)
          → body ≡ some req
          → Ends Q (create_recipe_tx w down user req db))
      → ((after : Db) (view : RecipeView) → Q after view → P (after, done 201 view))
      → P (handle_create_recipe w down user body db)
  unfolding handle_create_recipe
  create_recipe-Ends Q none ends works = fails 400 _
  create_recipe-Ends Q (some req) ends works =
      checked_rule P (create_recipe_fault w req) (λ s. (db, refused 400 s)) _ (λ s. fails 400 s)
        (transaction-Ends P Q down "create failed" 201 (create_recipe_tx w down user req) db fails
          (ends req refl) works)

  pub update_recipe-Ends :
      (Q : Db → RecipeView → Type 0) (id : Option ℕ) (body : Option UpdateRecipeRequest)
      → ((i : ℕ) (req : UpdateRecipeRequest)
          → id ≡ some i
          → body ≡ some req
          → Ends Q (update_recipe_tx w down i user req db))
      → ((after : Db) (view : RecipeView) → Q after view → P (after, done 200 view))
      → P (handle_update_recipe w down user id body db)
  unfolding handle_update_recipe
  update_recipe-Ends Q none body ends works = fails 400 _
  update_recipe-Ends Q (some id) body ends works =
      if_rule P (down get_recipe_query) _ _ (λ _. fails 500 _)
        (λ _. found (find (is_recipe id) db.recipes) body ends)
    where
      found :
          (o : Option Recipe) (body : Option UpdateRecipeRequest)
          → ((i : ℕ) (req : UpdateRecipeRequest)
              → some id ≡ some i
              → body ≡ some req
              → Ends Q (update_recipe_tx w down i user req db))
          → P (update_found w down id user body o db)
      found none body ends = unfold update_found in fails 404 _
      found (some cur) none ends =
          unfold update_found in
          if_rule P (not (cur.author_id == user)) _ _ (λ _. fails 404 _) (λ _. fails 400 _)
      found (some cur) (some req) ends =
          unfold update_found in
          if_rule P (not (cur.author_id == user)) _ _ (λ _. fails 404 _)
            (λ _.
              checked_rule P (update_recipe_fault w req) (λ s. (db, refused 400 s)) _
                (λ s. fails 400 s)
                (transaction-Ends P Q down "update failed" 200 (update_recipe_tx w down id user req)
                  db fails (ends id req refl refl) works))

  -- A fork is made of a recipe that the user sees.
  pub fork_recipe-Ends :
      (Q : Db → RecipeView → Type 0) (id : Option ℕ) (body : ForkRecipeRequest)
      → ((i : ℕ) (src : Recipe)
          → id ≡ some i
          → find (is_recipe i) db.recipes ≡ some src
          → (is_private src.visibility && not (src.author_id == user)) ≡ false
          → Ends Q (
              fork_recipe_tx w down user src
                (fork_name src.name body.name)
                body.message
                (list_recipe_ingredients src.id db.ingredients)
                db))
      → ((after : Db) (view : RecipeView) → Q after view → P (after, done 201 view))
      → P (handle_fork_recipe w down user id body db)
  unfolding handle_fork_recipe
  fork_recipe-Ends Q none body ends works = fails 400 _
  fork_recipe-Ends Q (some id) body ends works =
      if_rule P (down get_recipe_query) _ _ (λ _. fails 500 _)
        (λ _. found (find (is_recipe id) db.recipes) refl)
    where
      found :
          (o : Option Recipe)
          → find (is_recipe id) db.recipes ≡ o
          → P (fork_found w down user body o db)
      found none e = unfold fork_found in fails 404 _
      found (some src) e =
          unfold fork_found in
          if_rule P (is_private src.visibility && not (src.author_id == user)) _ _
            (λ _. fails 404 _)
            (λ open_to.
              if_rule P (too_long max_recipe_name body.name) _ _ (λ _. fails 400 _)
                (λ _.
                  if_rule P (down list_ingredients_query) _ _ (λ _. fails 500 _)
                    (λ _.
                      transaction-Ends P Q down "fork failed" 201
                        (fork_recipe_tx w down user src (fork_name src.name body.name) body.message
                          (list_recipe_ingredients src.id db.ingredients))
                        db fails (ends id src refl e open_to) works)))
