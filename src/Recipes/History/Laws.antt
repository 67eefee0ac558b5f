-- ===== src/Recipes/History/Laws.antt =====
-- What the handlers of internal/server/recipes.go make of the history of the recipes.
use zymobrew.Base.{
  ℕ, suc, ◌+◌, ◌^◌, ◌%◌, ◌≡◌, refl, subst, false, List, [], ◌∷◌, ◌++◌, map, Option, none, some,
  arith, any, update, find, if_rule, find-some, key_unique,
}
use zymobrew.Schema.{Recipe}
use zymobrew.Schema.Labels.{visibility_of}
use zymobrew.Schema.Recipes.{RecipeRevision, RecipeIngredient}
use zymobrew.Store.{refused-ne-done, done_inj, Db, Reply, done, World, Outage, delete_recipe_query}
use zymobrew.Store.Tx.{Ends, Ends-of, continue-Ends}
use zymobrew.Reminders.{coalesce, coalesce_null}
use zymobrew.Batches.Handlers.{is_recipe, cast_label}
use zymobrew.Recipes.{CreateRecipeRequest, UpdateRecipeRequest, ForkRecipeRequest, build_snapshot}
use zymobrew.Recipes.View.{RecipeView, to_recipe_view, to_ingredient_view}
use zymobrew.Recipes.Rows.{is_own_recipe, patch_recipe, revised, revision_row}
use zymobrew.Recipes.Write.{
  meta_params, numeric_targets, update_recipe_tx, handle_create_recipe, handle_update_recipe,
  handle_fork_recipe,
}
use zymobrew.Recipes.Write.Effects.{
  IngredientsOnly, Patched, update_recipe_meta-Ends, replace_ingredients-Ends, write_revision-Ends,
}
use zymobrew.Recipes.Write.Outcomes.{create_recipe-Ends, update_recipe-Ends, fork_recipe-Ends}
use zymobrew.Recipes.Social.{is_referenced, handle_delete_recipe}
use zymobrew.Recipes.History.{recipe_key_id, HasKey-update}
use zymobrew.Recipes.History.Kept.{
  Exists-update, Kept, create_recipe_tx-Ends, update_recipe_tx-Ends, fork_recipe_tx-Ends,
}
use zymobrew.Recipes.History.Deleted.{without_recipe-Kept}

module _ (w : World) (down : Outage) (user : ℕ) (db : Db) where
  -- Creating, changing, forking and deleting recipes keeps the library: recipes have a key, the
  -- revisions of each are numbered 1, 2, … up to its positive count in the order in which they were
  -- written, it points at the last of them, and every revision belongs to a recipe that is there.
  -- The id of a new recipe is not in use.
  pub library-Kept :
      (id : Option ℕ) (body : Option CreateRecipeRequest) (patch : Option UpdateRecipeRequest)
      (fork : ForkRecipeRequest)
      → Kept db
      → any (is_recipe w.new_recipe_id) db.recipes ≡ false
      → Kept (handle_create_recipe w down user body db).0
        × Kept (handle_update_recipe w down user id patch db).0
        × Kept (handle_fork_recipe w down user id fork db).0
        × Kept (handle_delete_recipe w down user id db).0
  unfolding handle_delete_recipe
  library-Kept id body patch fork lib fresh = (
    create_recipe-Ends w down user db (λ out. Kept out.0) (λ s m. lib) (λ after view. Kept after)
        body (λ req _. create_recipe_tx-Ends w down user db lib req fresh) (λ after view h. h),
    update_recipe-Ends w down user db (λ out. Kept out.0) (λ s m. lib) (λ after view. Kept after) id
        patch (λ i req _ _. update_recipe_tx-Ends w down user db lib i req) (λ after view h. h),
    fork_recipe-Ends w down user db (λ out. Kept out.0) (λ s m. lib) (λ after view. Kept after) id
        fork (λ i src _ _ _. fork_recipe_tx-Ends w down user db lib src _ fork.message _ fresh)
        (λ after view h. h),
    deleted id,
  )
    where
      deleted : (i : Option ℕ) → Kept (handle_delete_recipe w down user i db).0
      deleted none = lib
      deleted (some i) =
          if_rule (λ (out : Db × Reply (Unit {0})). Kept out.0) (down delete_recipe_query) _ _
            (λ _. lib)
            (λ _.
              if_rule (λ (out : Db × Reply (Unit {0})). Kept out.0)
                (any (is_own_recipe i user) db.recipes) _ _
                (λ own.
                  if_rule (λ (out : Db × Reply (Unit {0})). Kept out.0) (is_referenced i db) _ _
                    (λ _. lib) (λ _. without_recipe-Kept i user db lib own))
                (λ _. lib))

  -- The user's recipe has one revision more, with the next number and the patched contents; those
  -- before it are as they were.
  abbrev pub Appended : ℕ → UpdateRecipeRequest → Db → RecipeView → Type 0
  Appended id req after view =
      (old : Recipe) × (rev : RecipeRevision) × (rows : List RecipeIngredient) × (find
          (is_own_recipe id user) db.recipes
        ≡ some old)
      × (after.revisions ≡ db.revisions ++ rev ∷ [])
      × (rev.recipe_id ≡ id)
      × (rev.revision_number ≡ suc old.revision_count)
      × (rev.author_id ≡ user)
      × (rev.name ≡ coalesce req.name old.name)
      × (rev.description ≡ coalesce_null req.description old.description)
      × (rev.ingredients ≡ build_snapshot w rows)
      × (view.ingredients ≡ map (to_ingredient_view w) rows)
      × (view.revision_number ≡ rev.revision_number)
      × (view.revision_count ≡ rev.revision_number)

  update_recipe_tx-Appended :
      (id : ℕ) (req : UpdateRecipeRequest)
      → Kept db
      → Ends (Appended id req) (update_recipe_tx w down id user req db)
  unfolding update_recipe_tx patch_recipe meta_params revision_row revised to_recipe_view
  update_recipe_tx-Appended id req lib =
      continue-Ends (Patched w (meta_params id user req) db) (Appended id req) _ _
        (update_recipe_meta-Ends w down "update failed" (cast_label visibility_of req.visibility)
          (meta_params id user req) (numeric_targets w req.targets) db)
        (λ mid row (v, kept, old, found, made, e).
          continue-Ends (λ after rows. IngredientsOnly mid after) (Appended id req) _ _
            (replace_ingredients-Ends w down id req.ingredients mid)
            (λ next rows (xs, e').
              Ends-of _ (Appended id req) _
                (λ after view (cur, found', small, e'', seen).
                  let p = meta_params id user req v in
                  let own = is_own_recipe p.id p.author_id in
                  let rs = update own (patch_recipe w.now p kept) db.recipes in
                  let here : (next.recipes ≡ rs) × (next.revisions ≡ db.revisions) = (cc, cc) in
                  let (hit, in_table) = find-some (is_recipe row.id) rs (rw here.0 at found') in
                  let same : cur ≡ row =
                    key_unique recipe_key_id rs cur row
                      (HasKey-update own (patch_recipe w.now p kept) (λ r. refl) db.recipes lib.0.0)
                      in_table
                      (rw made (Exists-update own (patch_recipe w.now p kept) db.recipes old found))
                      (ground (arith, hit)) in
                  let counted : row.revision_count ≡ old.revision_count = rw made refl in
                  let mine : old.id ≡ id = ground (arith, (find-some own db.recipes found).0) in
                  let next_number : (row.revision_count + 1) % 2 ^ 32 ≡ suc old.revision_count =
                    ground (arith, small, same, counted) in
                  (
                    old,
                    revision_row w row ((row.revision_count + 1) % 2 ^ 32) user req.message rows,
                    rows,
                    found,
                    rw e'' (rw here.1 refl),
                    rw made mine,
                    next_number,
                    refl,
                    rw made refl,
                    rw made refl,
                    refl,
                    rw seen refl,
                    rw seen refl,
                    rw (seen, same, next_number) (omega (arith, counted)),
                  ))
                (write_revision-Ends w down "update failed" user row
                  ((row.revision_count + 1) % 2 ^ 32) req.message rows next)))

  -- A change of a recipe that is answered with 200 has appended one revision and left those before it
  -- as they were: it is the user's, of this recipe, has the number after the count, the name and the
  -- description that the body gives or those that were there, and the snapshot of the ingredients
  -- that are answered; its number is the one that is answered, as the recipe's number and count.
  pub update_recipe_appends :
      (id : ℕ) (req : UpdateRecipeRequest) (view : RecipeView)
      → Kept db
      → (handle_update_recipe w down user (some id) (some req) db).1 ≡ done 200 view
      → Appended id req (handle_update_recipe w down user (some id) (some req) db).0 view
  update_recipe_appends id req view lib =
      update_recipe-Ends w down user db (λ out. out.1 ≡ done 200 view → Appended id req out.0 view)
        (λ s m h. absurd (refused-ne-done h)) (Appended id req) (some id) (some req)
        (λ i asked here same.
          let here : i ≡ id = ground arith in
          let same : asked ≡ req = ground arith in
          rw (here, same) (update_recipe_tx-Appended id req lib))
        (λ after answered h e. subst (Appended id req after) (done_inj e) h)
