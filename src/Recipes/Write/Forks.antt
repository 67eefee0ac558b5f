-- ===== src/Recipes/Write/Forks.antt =====
-- What handleForkRecipe of internal/server/recipes.go makes of its source.
use Prim.Native.String.{String}
use zymobrew.Base.{
  append_assoc, append-nil, ◌∙◌, sym, ap, ℕ, suc, ◌≡◌, refl, false, ◌&&◌, not, List, [], ◌∷◌, ◌++◌,
  map, some, codes, arith, any, update, find, is_empty, if◌then◌else◌, ◌==◌, ==_refl,
}
use zymobrew.Schema.{Recipe, private, is_private}
use zymobrew.Schema.Recipes.{
  RecipeIngredient, IngredientKind, ingredient_kind_of, ingredient_kind_label, honey, water, yeast,
  nutrient, fruit, spice, oak, acid, tannin, other_kind, juice, sugar,
}
use zymobrew.Store.{
  refused-ne-done, Db, done, World, Outage, amount_column, create_ingredient_query,
}
use zymobrew.Store.Tx.{Ends, Ends-of, query-Ends, or_give_up-Ends, continue-Ends}
use zymobrew.Batches.Handlers.{is_recipe}
use zymobrew.Recipes.{IngredientInput, ForkRecipeRequest, float_to_numeric}
use zymobrew.Recipes.View.{RecipeView}
use zymobrew.Recipes.Rows.{
  fit, revised, forked, recipe_row, ingredient_row, list_recipe_ingredients,
}
use zymobrew.Recipes.Tables.{insert_ingredient_row, create_recipe_ingredient, insert_ingredients}
use zymobrew.Recipes.Write.{
  copied_ingredient, fork_params, fork_name, fork_recipe_tx, handle_fork_recipe,
}
use zymobrew.Recipes.Write.Effects.{
  Drafted, Counted, create_recipe_row-Ends, write_revision-Ends, increment_fork_count-Ends,
}
use zymobrew.Recipes.History.{any-update}
use zymobrew.Recipes.Write.Outcomes.{fork_recipe-Ends}

-- Every kind is read back from its label.
kind_of-label : (k : IngredientKind) → ingredient_kind_of (ingredient_kind_label k) ≡ some k
unfolding ingredient_kind_of
kind_of-label honey = refl
kind_of-label water = refl
kind_of-label yeast = refl
kind_of-label nutrient = refl
kind_of-label fruit = refl
kind_of-label spice = refl
kind_of-label oak = refl
kind_of-label acid = refl
kind_of-label tannin = refl
kind_of-label other_kind = refl
kind_of-label juice = refl
kind_of-label sugar = refl

-- Rows made of the inputs, in order, for one recipe.
abbrev pub Inserted : ℕ → List IngredientInput → List RecipeIngredient → Type 0
Inserted recipe [] [] = Unit
Inserted recipe [] (row ∷ rows) = ⊥
Inserted recipe (ing ∷ ings) [] = ⊥
Inserted recipe (ing ∷ ings) (row ∷ rows) =
    (row.recipe_id ≡ recipe)
    × (ingredient_kind_of ing.kind ≡ some row.kind)
    × (row.name ≡ ing.name)
    × (row.sort_order ≡ ing.sort_order)
    × Inserted recipe ings rows

-- Rows that repeat those of another recipe.
abbrev pub Copies : ℕ → List RecipeIngredient → List RecipeIngredient → Type 0
Copies recipe [] [] = Unit
Copies recipe [] (row ∷ rows) = ⊥
Copies recipe (src ∷ srcs) [] = ⊥
Copies recipe (src ∷ srcs) (row ∷ rows) =
    (row.recipe_id ≡ recipe)
    × (row.kind ≡ src.kind)
    × (row.name ≡ src.name)
    × (row.sort_order ≡ src.sort_order)
    × Copies recipe srcs rows

module _ (w : World) (down : Outage) (oops : String) (bad : ℕ) (bad_kind : String) where
  abbrev pub OneInserted : ℕ → IngredientInput → Db → Db → RecipeIngredient → Type 0
  OneInserted recipe ing db after row =
      (after ≡ record db { ingredients = db.ingredients ++ row ∷ [] })
      × (row.recipe_id ≡ recipe)
      × (ingredient_kind_of ing.kind ≡ some row.kind)
      × (row.name ≡ ing.name)
      × (row.sort_order ≡ ing.sort_order)

  create_recipe_ingredient-Ends :
      (n recipe : ℕ) (ing : IngredientInput) (db : Db)
      → Ends
          (OneInserted recipe ing db)
          (create_recipe_ingredient w down oops bad bad_kind n recipe ing db)
  unfolding create_recipe_ingredient insert_ingredient_row ingredient_row
  create_recipe_ingredient-Ends n recipe ing db =
      query-Ends _ (down (create_ingredient_query n)) oops _ (
        or_give_up-Ends _ bad bad_kind (ingredient_kind_of ing.kind) _ db (λ kind e.
          or_give_up-Ends _ 500 oops
            (w.to_jsonb (if is_empty ing.details then codes "{}" else ing.details)) _ db
            (λ details _.
              or_give_up-Ends _ 500 oops (fit w amount_column (float_to_numeric w ing.amount)) _ db
                (λ amount _. (refl, refl, e, refl, refl)))))

  insert_ingredients-Inserted :
      (n recipe : ℕ) (ings : List IngredientInput) (db : Db)
      → Ends
          (λ after rows.
            (after ≡ record db { ingredients = db.ingredients ++ rows })
            × Inserted recipe ings rows)
          (insert_ingredients w down oops bad bad_kind n recipe ings db)
  unfolding insert_ingredients
  insert_ingredients-Inserted n recipe [] db = (
    ap (λ (xs : List RecipeIngredient). record db { ingredients = xs })
        (sym (append-nil db.ingredients)),
    tt,
  )
  insert_ingredients-Inserted n recipe (ing ∷ ings) db =
      continue-Ends (OneInserted recipe ing db) _ _ _
        (create_recipe_ingredient-Ends n recipe ing db)
        (λ mid row (e, mine, kind, name, order).
          continue-Ends
            (λ after rows.
              (after ≡ record mid { ingredients = mid.ingredients ++ rows })
              × Inserted recipe ings rows)
            _ _ _ (insert_ingredients-Inserted (suc n) recipe ings mid)
            (λ after rows (e', rest). (
              rw (e', e)
                  (ap (λ (xs : List RecipeIngredient). record db { ingredients = xs })
                    (append_assoc db.ingredients (row ∷ []) rows)),
              (mine, kind, name, order, rest),
            )))

Copies-of :
    (w : World) (recipe : ℕ) (srcs rows : List RecipeIngredient)
    → Inserted recipe (map (copied_ingredient w) srcs) rows
    → Copies recipe srcs rows
unfolding copied_ingredient
Copies-of w recipe [] [] h = tt
Copies-of w recipe [] (row ∷ rows) h = h
Copies-of w recipe (src ∷ srcs) [] h = h
Copies-of w recipe (src ∷ srcs) (row ∷ rows) (mine, kind, name, order, rest) =
    let same : some src.kind ≡ some row.kind = sym (kind_of-label src.kind) ∙ kind in
    (mine, cc, name, order, Copies-of w recipe srcs rows rest)

update_absent :
    (n : ℕ) (f : Recipe → Recipe) (row : Recipe) (rs : List Recipe)
    → any (is_recipe n) rs ≡ false
    → row.id ≡ n
    → update (is_recipe n) f (rs ++ row ∷ []) ≡ rs ++ f row ∷ []
update_absent n f row [] h e = rw (e, ==_refl n) refl
update_absent n f row (r ∷ rs) h e =
    let other : (r.id == n) ≡ false = ground arith in
    rw other (ap (λ (xs : List Recipe). r ∷ xs) (update_absent n f row rs (ground arith) e))

module _ (w : World) (down : Outage) (user : ℕ) (db : Db) where
  -- The recipes have one more: the user's private one at its first revision that names its source,
  -- whose count of forks has gone up; and the ingredients of the source have been copied.
  abbrev pub IsForked : ℕ → ForkRecipeRequest → Db → Type 0
  IsForked id body after =
      (src : Recipe) × (fork : Recipe) × (copies : List RecipeIngredient) × (find (is_recipe id)
          db.recipes
        ≡ some src)
      × ((is_private src.visibility && not (src.author_id == user)) ≡ false)
      × (after.recipes ≡ update (is_recipe src.id) (forked w.now) db.recipes ++ fork ∷ [])
      × (after.ingredients ≡ db.ingredients ++ copies)
      × Copies fork.id (list_recipe_ingredients src.id db.ingredients) copies
      × (fork.author_id ≡ user)
      × (fork.parent_id ≡ some src.id)
      × (fork.parent_revision_id ≡ src.current_revision_id)
      × (fork.visibility ≡ private)
      × (fork.revision_count ≡ 1)
      × (fork.name ≡ fork_name src.name body.name)

  fork_recipe_tx-IsForked :
      (id : ℕ) (body : ForkRecipeRequest) (src : Recipe)
      → any (is_recipe w.new_recipe_id) db.recipes ≡ false
      → find (is_recipe id) db.recipes ≡ some src
      → (is_private src.visibility && not (src.author_id == user)) ≡ false
      → Ends
          (λ after view. IsForked id body after)
          (fork_recipe_tx w down user src
            (fork_name src.name body.name)
            body.message
            (list_recipe_ingredients src.id db.ingredients)
            db)
  unfolding fork_recipe_tx recipe_row fork_params revised
  fork_recipe_tx-IsForked id body src fresh found open_to =
      let name = fork_name src.name body.name in
      let srcs = list_recipe_ingredients src.id db.ingredients in
      let rs = update (is_recipe src.id) (forked w.now) db.recipes in
      continue-Ends (Counted w src.id db) (λ after view. IsForked id body after) _ _
        (increment_fork_count-Ends w down "fork failed" src.id db)
        (λ first x e.
          continue-Ends (Drafted w (some private) (fork_params user src name) first)
            (λ after view. IsForked id body after) _ _
            (create_recipe_row-Ends w down "fork failed" (some private) (fork_params user src name)
              src.targets first)
            (λ mid row (v, kept, label, made, e').
              continue-Ends
                (λ after rows.
                  (after ≡ record mid { ingredients = mid.ingredients ++ rows })
                  × Inserted row.id (map (copied_ingredient w) srcs) rows)
                (λ after view. IsForked id body after) _ _
                (insert_ingredients-Inserted w down "fork failed" 500 "fork failed" 0 row.id
                  (map (copied_ingredient w) srcs) mid)
                (λ next rows (e'', inserted).
                  Ends-of _ (λ after view. IsForked id body after) _
                    (λ after view (cur, _, _, last, _).
                      let here : (next.recipes ≡ rs ++ row ∷ [])
                          × (next.ingredients ≡ db.ingredients ++ rows) =
                        (cc, cc) in
                      (
                        src,
                        revised w.now w.new_revision_id row,
                        rows,
                        found,
                        open_to,
                        rw last (
                            rw here.0 (
                              update_absent row.id (revised w.now w.new_revision_id) row rs
                                (rw made (
                                  any-update w.new_recipe_id (is_recipe src.id) (forked w.now)
                                    (λ r. unfold forked in refl) db.recipes
                                  ∙ fresh))
                                refl)),
                        rw last here.1,
                        Copies-of w row.id srcs rows inserted,
                        rw made refl,
                        rw made refl,
                        rw made refl,
                        rw made (cc),
                        rw made refl,
                        rw made refl,
                      ))
                    (write_revision-Ends w down "fork failed" user row 1 body.message rows next))))

  -- A fork that is answered with 201 was made of a recipe that the user sees. It is one recipe more,
  -- the user's, private, at its first revision, and it names the source and the source's current
  -- revision; its name is the one that is given, or the source's. It has the ingredients of the
  -- source, in order, with their kinds, names and places. No other recipe has changed but the
  -- source, whose count of forks has gone up. The id of the new recipe is not in use.
  pub fork_copies :
      (id : ℕ) (body : ForkRecipeRequest) (view : RecipeView)
      → any (is_recipe w.new_recipe_id) db.recipes ≡ false
      → (handle_fork_recipe w down user (some id) body db).1 ≡ done 201 view
      → IsForked id body (handle_fork_recipe w down user (some id) body db).0
  fork_copies id body view fresh =
      fork_recipe-Ends w down user db (λ out. out.1 ≡ done 201 view → IsForked id body out.0)
        (λ s m h. absurd (refused-ne-done h)) (λ after v. IsForked id body after) (some id) body
        (λ i src here found open_to.
          let here : i ≡ id = ground arith in
          fork_recipe_tx-IsForked id body src fresh (rw here at found) open_to)
        (λ after answered h e. h)
