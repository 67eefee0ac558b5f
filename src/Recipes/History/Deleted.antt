-- ===== src/Recipes/History/Deleted.antt =====
-- The history of the recipes is kept by handleCreateRecipe, handleUpdateRecipe, handleForkRecipe and
-- handleDeleteRecipe of internal/server/recipes.go.
use zymobrew.Base.{
  ℕ, ◌≤◌, ◌≡◌, refl, ◌∙◌, inl, inr, Bool, true, false, ◌&&◌, not, List, [], ◌∷◌, map, arith, select,
  any, All-map_of, All-map, All-both, All-select_of, Exists, Exists-self, HasKey, HasKey-map,
  key_row, select-select, any-map, any-select, ◌==◌, Bool-cases,
}
use zymobrew.Schema.{Recipe}
use zymobrew.Schema.Recipes.{RecipeRevision}
use zymobrew.Store.{Db}
use zymobrew.Batches.Handlers.{is_recipe}
use zymobrew.Recipes.Rows.{is_own_recipe}
use zymobrew.Recipes.Social.{cleared, without_recipe}
use zymobrew.Recipes.History.{recipe_key_id, IsVersioned}
use zymobrew.Recipes.History.Kept.{Kept}

HasKey-select :
    (p : Recipe → Bool) (rs : List Recipe)
    → HasKey recipe_key_id rs
    → HasKey recipe_key_id (select p rs)
HasKey-select p [] k = tt
HasKey-select p (r ∷ rs) (d, k) = elim (Bool-cases (p r)) [
  | inl e ↦ rw e (All-select_of _ p rs (All-map_of (λ y h _. h) rs d), HasKey-select p rs k)
  | inr e ↦ rw e (HasKey-select p rs k)
]

module _ (id user : ℕ) (db : Db) (lib : Kept db)
    (own : any (is_own_recipe id user) db.recipes ≡ true) where
  -- Whatever is left of the recipes has other ids.
  apart :
      (r : Recipe)
      → Exists (λ y. y ≡ r) db.recipes
      → not (is_own_recipe id user r) ≡ true
      → (r.id == id) ≡ false
  apart r there kept = elim (Bool-cases (r.id == id)) [
    | inr e ↦ e
    | inl e ↦
        let mine : is_own_recipe id user r ≡ true =
          key_row recipe_key_id (is_own_recipe id user) db.recipes r lib.0.0 there
            (widen db.recipes own (ground (arith, e))) in
        cc
  ]
    where
      widen :
          (rs : List Recipe)
          → any (is_own_recipe id user) rs ≡ true
          → id ≡ r.id
          → any (λ y. is_own_recipe id user y && y.id == r.id) rs ≡ true
      widen (y ∷ rs) h e = ground (arith, widen rs)
      widen [] h e = cc

  -- The histories of the others stay, and every revision that stays has its recipe.
  pub without_recipe-Kept : Kept (without_recipe id user db)
  unfolding without_recipe
  without_recipe-Kept = (
    (
      HasKey-map recipe_key_id unlink (λ r. refl) rest
          (HasKey-select (λ r. not (is_own_recipe id user r)) db.recipes lib.0.0),
      All-map (IsVersioned revs) unlink rest (
          All-select_of (λ r. IsVersioned revs (unlink r)) (λ r. not (is_own_recipe id user r))
            db.recipes
            (All-map_of (λ r (v, there) kept. still r v (apart r there kept)) db.recipes
              (All-both (IsVersioned db.revisions) (λ y. Exists (λ z. z ≡ y) db.recipes) db.recipes
                lib.0.1 (Exists-self db.recipes)))),
      All-select_of (λ v. any (is_recipe v.recipe_id) (map unlink rest) ≡ true)
          (λ v. not (v.recipe_id == id)) db.revisions
          (All-map_of (λ v h kept. owner v h kept) db.revisions lib.0.2),
    ),
    All-map (λ (r : Recipe). 1 ≤ r.revision_count) unlink rest
        (All-select_of (λ (r : Recipe). 1 ≤ r.revision_count) (λ r. not (is_own_recipe id user r))
          db.recipes (All-map_of (λ r h _. h) db.recipes lib.1)),
  )
    where
      unlink : Recipe → Recipe
      unlink r = record r { parent_id = cleared id r.parent_id }

      rest : List Recipe
      rest = select (λ r. not (is_own_recipe id user r)) db.recipes

      revs : List RecipeRevision
      revs = select (λ v. not (v.recipe_id == id)) db.revisions

      still :
          (r : Recipe)
          → IsVersioned db.revisions r
          → (r.id == id) ≡ false
          → IsVersioned revs (unlink r)
      still r v e =
          rw
            (select-select (λ (x : RecipeRevision). x.recipe_id == r.id)
              (λ x. not (x.recipe_id == id)) (λ x h. ground arith) db.revisions)
            v

      owner :
          (v : RecipeRevision)
          → any (is_recipe v.recipe_id) db.recipes ≡ true
          → not (v.recipe_id == id) ≡ true
          → any (is_recipe v.recipe_id) (map unlink rest) ≡ true
      owner v h kept =
          any-map (is_recipe v.recipe_id) unlink rest
          ∙ any-select (is_recipe v.recipe_id) (λ r. not (is_own_recipe id user r)) db.recipes
          ∙ narrow db.recipes h
        where
          narrow :
              (rs : List Recipe)
              → any (is_recipe v.recipe_id) rs ≡ true
              → any (λ r. not (is_own_recipe id user r) && is_recipe v.recipe_id r) rs ≡ true
          narrow (r ∷ rs) h = ground (arith, narrow rs)
          narrow [] h = cc
