-- ===== src/Recipes/Laws.antt =====
-- The error replies of the handlers of internal/server/recipes.go.
use zymobrew.Base.{
  ℕ, refl, ◌||◌, Option, none, some, Bytes, length, find, any, is_empty, ltb, if_rule,
}
use zymobrew.Schema.{Recipe}
use zymobrew.Store.{
  Db, Reply, World, Outage, get_recipe_query, create_comment_query, delete_comment_query,
  like_query, unlike_query, delete_recipe_query,
}
use zymobrew.Store.Tx.{Step, Ends, ran, failed}
use zymobrew.Batches.Events.Laws.{ErrorKeeps}
use zymobrew.Batches.Handlers.{is_recipe}
use zymobrew.Recipes.{
  CreateRecipeRequest, UpdateRecipeRequest, ForkRecipeRequest, recipe_visible_to, max_comment_body,
}
use zymobrew.Recipes.Rows.{is_own_recipe}
use zymobrew.Recipes.Write.{handle_create_recipe, handle_update_recipe, handle_fork_recipe}
use zymobrew.Recipes.Write.Outcomes.{create_recipe-Ends, update_recipe-Ends, fork_recipe-Ends}
use zymobrew.Recipes.Social.{
  on_recipe, comment_act, like_act, is_own_comment, is_referenced, handle_create_comment,
  handle_delete_comment, handle_like_recipe, handle_unlike_recipe, handle_delete_recipe,
}

always : {A : Type 0} (step : Step A) → Ends (λ after a. Unit {0}) step
always (ran db a) = tt
always (failed s m) = tt

module _ (w : World) (down : Outage) (user : ℕ) (db : Db) where
  on_recipe-ErrorKeeps :
      {A : Type 0} (o : Option Recipe) (act : Db → Db × Reply A)
      → ErrorKeeps db (act db)
      → ErrorKeeps db (on_recipe w down user o act db)
  unfolding on_recipe
  on_recipe-ErrorKeeps none act h = refl
  on_recipe-ErrorKeeps (some r) act h =
      if_rule (ErrorKeeps db) (recipe_visible_to r (some user)) _ _ (λ _. h) (λ _. refl)

  deleted : (id : Option ℕ) → ErrorKeeps db (handle_delete_recipe w down user id db)
  unfolding handle_delete_recipe
  deleted none = refl
  deleted (some id) =
      if_rule (ErrorKeeps db) (down delete_recipe_query) _ _ (λ _. refl)
        (λ _.
          if_rule (ErrorKeeps db) (any (is_own_recipe id user) db.recipes) _ _
            (λ _. if_rule (ErrorKeeps db) (is_referenced id db) _ _ (λ _. refl) (λ _. tt))
            (λ _. refl))

  commented :
      (id : Option ℕ) (body : Option Bytes)
      → ErrorKeeps db (handle_create_comment w down user id body db)
  unfolding handle_create_comment comment_act
  commented none body = refl
  commented (some id) body =
      if_rule (ErrorKeeps db) (down get_recipe_query) _ _ (λ _. refl)
        (λ _. on_recipe-ErrorKeeps (find (is_recipe id) db.recipes) _ (act body))
    where
      act : (body : Option Bytes) → ErrorKeeps db (comment_act w down user id body db)
      act none = refl
      act (some body) =
          if_rule (ErrorKeeps db) (is_empty body || ltb max_comment_body (length body)) _ _
            (λ _. refl)
            (λ _. if_rule (ErrorKeeps db) (down create_comment_query) _ _ (λ _. refl) (λ _. tt))

  uncommented : (id : Option ℕ) → ErrorKeeps db (handle_delete_comment w down user id db)
  unfolding handle_delete_comment
  uncommented none = refl
  uncommented (some id) =
      if_rule (ErrorKeeps db) (down delete_comment_query) _ _ (λ _. refl)
        (λ _.
          if_rule (ErrorKeeps db) (any (is_own_comment id user) db.comments) _ _ (λ _. tt)
            (λ _. refl))

  liked :
      (id : Option ℕ)
      → ErrorKeeps db (handle_like_recipe w down user id db)
        × ErrorKeeps db (handle_unlike_recipe w down user id db)
  unfolding handle_like_recipe handle_unlike_recipe like_act
  liked none = (refl, refl)
  liked (some id) = (
    if_rule (ErrorKeeps db) (down get_recipe_query) _ _ (λ _. refl)
        (λ _.
          on_recipe-ErrorKeeps (find (is_recipe id) db.recipes) _
            (if_rule (ErrorKeeps db) (down like_query) _ _ (λ _. refl) (λ _. tt))),
    if_rule (ErrorKeeps db) (down unlike_query) _ _ (λ _. refl) (λ _. tt),
  )

  -- If a request that writes a recipe, a comment or a like is answered with an error, the database is
  -- unchanged: whatever the input, and whichever query fails, the last of a transaction and its
  -- commit included.
  pub recipe-ErrorKeeps :
      (id : Option ℕ) (body : Option CreateRecipeRequest) (patch : Option UpdateRecipeRequest)
      (fork : ForkRecipeRequest) (comment : Option Bytes)
      → ErrorKeeps db (handle_create_recipe w down user body db)
        × ErrorKeeps db (handle_update_recipe w down user id patch db)
        × ErrorKeeps db (handle_fork_recipe w down user id fork db)
        × ErrorKeeps db (handle_delete_recipe w down user id db)
        × ErrorKeeps db (handle_create_comment w down user id comment db)
        × ErrorKeeps db (handle_delete_comment w down user id db)
        × ErrorKeeps db (handle_like_recipe w down user id db)
        × ErrorKeeps db (handle_unlike_recipe w down user id db)
  recipe-ErrorKeeps id body patch fork comment = (
    create_recipe-Ends w down user db (ErrorKeeps db) (λ s m. refl) _ body (λ req _. always _)
        (λ after view _. tt),
    update_recipe-Ends w down user db (ErrorKeeps db) (λ s m. refl) _ id patch
        (λ i req _ _. always _) (λ after view _. tt),
    fork_recipe-Ends w down user db (ErrorKeeps db) (λ s m. refl) _ id fork
        (λ i src _ _ _. always _) (λ after view _. tt),
    deleted id,
    commented id comment,
    uncommented id,
    (liked id).0,
    (liked id).1,
  )
