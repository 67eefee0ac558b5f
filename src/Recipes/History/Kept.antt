-- ===== src/Recipes/History/Kept.antt =====
-- Every handler keeps the history of the recipes (internal/server/recipes.go).
use Prim.Native.String.{String}
use zymobrew.Base.{
  ℕ, suc, ◌+◌, ◌^◌, ◌%◌, ◌≤◌, ◌<◌, ◌≡◌, refl, ap, ◌∙◌, ◌⊎◌, inl, inr, Bool, false, List, [], ◌∷◌,
  ◌++◌, map, Option, none, some, Bytes, codes, arith, update, find, any, All, All-map_of, All-map,
  All-append, Exists, find-some, key_unique, update-map, if◌then◌else◌, Bool-cases, if_rule, leb,
}
use zymobrew.Schema.{Recipe, private}
use zymobrew.Schema.Labels.{visibility_of}
use zymobrew.Schema.Recipes.{RecipeIngredient}
use zymobrew.Store.{Db, World, Outage}
use zymobrew.Store.Tx.{Ends, continue, Ends-of, continue-Ends}
use zymobrew.Batches.Handlers.{is_recipe, or_default, cast_label}
use zymobrew.Batches.Events.{opt_text}
use zymobrew.Recipes.{IngredientInput, CreateRecipeRequest, UpdateRecipeRequest}
use zymobrew.Recipes.Rows.{
  max_int32, revised, revision_row, recipe_row, patch_recipe, forked, is_own_recipe,
}
use zymobrew.Recipes.Tables.{write_revision, insert_ingredients}
use zymobrew.Recipes.Write.{
  draft_params, meta_params, numeric_targets, copied_ingredient, fork_params, create_recipe_tx,
  update_recipe_tx, fork_recipe_tx,
}
use zymobrew.Recipes.Write.Effects.{
  IngredientsOnly, Drafted, Patched, Counted, insert_ingredients-Ends, create_recipe_row-Ends,
  write_revision-Ends, update_recipe_meta-Ends, increment_fork_count-Ends, replace_ingredients-Ends,
}
use zymobrew.Recipes.History.{
  recipe_key_id, IsSound, IsLibrary, any-update, rewrite-IsSound, draft-IsSound, revise-IsSound,
}

abbrev pub Kept : Db → Type 0
Kept db = IsLibrary db.recipes db.revisions

last-Exists : (x : Recipe) (xs : List Recipe) → Exists (λ y. y ≡ x) (xs ++ x ∷ [])
last-Exists x [] = inl refl
last-Exists x (y ∷ ys) = inr (last-Exists x ys)

All-update :
    (P : Recipe → Type 0) (p : Recipe → Bool) (f : Recipe → Recipe)
    → ((r : Recipe) → P r → P (f r))
    → (rs : List Recipe) → All P rs
    → All P (update p f rs)
All-update P p f keeps [] h = tt
All-update P p f keeps (r ∷ rs) (h, hs) =
    (if_rule P (p r) _ _ (λ _. keeps r h) (λ _. h), All-update P p f keeps rs hs)

pub Exists-update :
    (p : Recipe → Bool) (f : Recipe → Recipe) (rs : List Recipe) (x : Recipe)
    → find p rs ≡ some x
    → Exists (λ y. y ≡ f x) (update p f rs)
Exists-update p f [] x h = cc
Exists-update p f (r ∷ rs) x h = elim (Bool-cases (p r)) [
  | inl e ↦ rw e (inl (ap f (some_inj (rw e at h))))
  | inr e ↦ rw e (inr (Exists-update p f rs x (rw e at h)))
]
  where
    some_inj : {a b : Recipe} → ◌≡◌ {A = Option Recipe} (some a) (some b) → a ≡ b
    some_inj k = cc

module _ (w : World) (down : Outage) (user : ℕ) where
  -- A recipe of `mid` that may be a draft gets its next revision.
  finish :
      (oops : String) (r : Recipe) (number : ℕ) (message : Option Bytes)
      (ings : List RecipeIngredient) (mid : Db)
      → IsSound mid.recipes mid.revisions
      → Exists (λ y. y ≡ r) mid.recipes
      → (r.revision_count < max_int32 → number ≡ suc r.revision_count)
      → All (λ y. (1 ≤ y.revision_count) ⊎ (y.id ≡ r.id)) mid.recipes
      → Ends (λ after view. Kept after) (write_revision w down oops user r number message ings mid)
  unfolding revision_row
  finish oops r number message ings mid sound there next counts =
      Ends-of _ (λ after view. Kept after)
        (write_revision w down oops user r number message ings mid)
        (λ after view (cur, found, small, e, seen). kept cur found small after e)
        (write_revision-Ends w down oops user r number message ings mid)
    where
      counted :
          (y : Recipe)
          → (1 ≤ y.revision_count) ⊎ (y.id ≡ r.id)
          → 1 ≤ (if is_recipe r.id y then revised w.now w.new_revision_id y else y).revision_count
      counted y h = unfold revised in ground arith

      kept :
          (cur : Recipe)
          → find (is_recipe r.id) mid.recipes ≡ some cur
          → leb max_int32 cur.revision_count ≡ false
          → (after : Db)
          → after ≡ record mid {
            recipes = update (is_recipe r.id) (revised w.now w.new_revision_id) mid.recipes;
            revisions = mid.revisions ++ revision_row w r number user message ings ∷ [];
          }
          → Kept after
      kept cur found small after e =
          let (hit, in_table) = find-some (is_recipe r.id) mid.recipes found in
          let same : cur ≡ r =
            key_unique recipe_key_id mid.recipes cur r sound.0 in_table there
              (ground (arith, hit)) in
          let below : r.revision_count < max_int32 = ground (arith, small, same) in
          rw e (
            revise-IsSound w.now r (revision_row w r number user message ings) mid.recipes
                mid.revisions there refl (next below) sound,
            rw (update-map (is_recipe r.id) (revised w.now w.new_revision_id) mid.recipes) (
                All-map (λ (y : Recipe). 1 ≤ y.revision_count)
                  (λ y. if is_recipe r.id y then revised w.now w.new_revision_id y else y)
                  mid.recipes (All-map_of counted mid.recipes counts)),
          )

  module _ (db : Db) (lib : Kept db) where
    -- A draft with its ingredients gets the revision 1.
    drafted :
        (oops : String) (row : Recipe) (message : Option Bytes) (mid : Db)
        → any (is_recipe row.id) db.recipes ≡ false
        → row.revision_count ≡ 0
        → row.current_revision_id ≡ none
        → (rs : List Recipe) → IsLibrary rs db.revisions
        → any (is_recipe row.id) rs ≡ false
        → mid ≡ record db { recipes = rs ++ row ∷ [] }
        → (bad : ℕ) (bad_kind : String) (inputs : List IngredientInput)
        → Ends
            (λ after view. Kept after)
            (continue
              (insert_ingredients w down oops bad bad_kind 0 row.id inputs mid)
              (λ rows. write_revision w down oops user row 1 message rows))
    drafted oops row message mid fresh count current rs (sound, counts) new e bad bad_kind inputs =
        continue-Ends (λ after rows. IngredientsOnly mid after) _
          (insert_ingredients w down oops bad bad_kind 0 row.id inputs mid) _
          (insert_ingredients-Ends w down oops bad bad_kind 0 row.id inputs mid)
          (λ next rows (xs, e').
            let here : (next.recipes ≡ rs ++ row ∷ []) × (next.revisions ≡ db.revisions) =
              (cc, cc) in
            finish oops row 1 message rows next
              (rw (here.0, here.1) (draft-IsSound row rs db.revisions new count current sound))
              (rw here.0 (last-Exists row rs)) (λ h. rw count refl)
              (rw here.0 (
                All-append (λ (y : Recipe). (1 ≤ y.revision_count) ⊎ (y.id ≡ row.id)) rs (row ∷ [])
                  (All-map_of (λ y h. inl h) rs counts) (inr refl, tt))))

    pub create_recipe_tx-Ends :
        (req : CreateRecipeRequest)
        → any (is_recipe w.new_recipe_id) db.recipes ≡ false
        → Ends (λ after view. Kept after) (create_recipe_tx w down user req db)
    unfolding create_recipe_tx recipe_row
    create_recipe_tx-Ends req fresh =
        continue-Ends
          (Drafted w (visibility_of (or_default (codes "public") req.visibility))
            (draft_params user req) db)
          (λ after view. Kept after) _ _
          (create_recipe_row-Ends w down "create failed"
            (visibility_of (or_default (codes "public") req.visibility)) (draft_params user req)
            (numeric_targets w req.targets) db)
          (λ mid row (v, kept, label, made, e).
            drafted "create failed" row (opt_text req.message) mid (rw made fresh) (rw made refl)
              (rw made refl) db.recipes lib (rw made fresh) e 400 "invalid ingredient kind"
              req.ingredients)

    pub fork_recipe_tx-Ends :
        (src : Recipe) (name : Bytes) (message : Option Bytes) (ings : List RecipeIngredient)
        → any (is_recipe w.new_recipe_id) db.recipes ≡ false
        → Ends (λ after view. Kept after) (fork_recipe_tx w down user src name message ings db)
    unfolding fork_recipe_tx recipe_row forked
    fork_recipe_tx-Ends src name message ings fresh =
        continue-Ends (Counted w src.id db) (λ after view. Kept after) _ _
          (increment_fork_count-Ends w down "fork failed" src.id db)
          (λ first x e.
            let rs = update (is_recipe src.id) (forked w.now) db.recipes in
            let lib' : IsLibrary rs db.revisions = (
              rewrite-IsSound (is_recipe src.id) (forked w.now) (λ r. (refl, refl, refl)) db.recipes
                  db.revisions lib.0,
              All-update (λ (r : Recipe). 1 ≤ r.revision_count) (is_recipe src.id) (forked w.now)
                  (λ r h. h) db.recipes lib.1,
            ) in
            let new : any (is_recipe w.new_recipe_id) rs ≡ false =
              any-update w.new_recipe_id (is_recipe src.id) (forked w.now) (λ r. refl) db.recipes
              ∙ fresh in
            continue-Ends (Drafted w (some private) (fork_params user src name) first)
              (λ after view. Kept after) _ _
              (create_recipe_row-Ends w down "fork failed" (some private)
                (fork_params user src name) src.targets first)
              (λ mid row (v, kept, label, made, e').
                drafted "fork failed" row message mid (rw made fresh) (rw made refl) (rw made refl)
                  rs lib' (rw made new) (cc) 500 "fork failed" (map (copied_ingredient w) ings)))

    pub update_recipe_tx-Ends :
        (id : ℕ) (req : UpdateRecipeRequest)
        → Ends (λ after view. Kept after) (update_recipe_tx w down id user req db)
    unfolding update_recipe_tx patch_recipe
    update_recipe_tx-Ends id req =
        continue-Ends (Patched w (meta_params id user req) db) (λ after view. Kept after) _ _
          (update_recipe_meta-Ends w down "update failed" (cast_label visibility_of req.visibility)
            (meta_params id user req) (numeric_targets w req.targets) db)
          (λ mid row (v, kept, old, found, made, e).
            let p = meta_params id user req v in
            let own = is_own_recipe p.id p.author_id in
            let rs = update own (patch_recipe w.now p kept) db.recipes in
            let sound : IsSound rs db.revisions =
              rewrite-IsSound own (patch_recipe w.now p kept) (λ r. (refl, refl, refl)) db.recipes
                db.revisions lib.0 in
            let counts : All (λ (r : Recipe). 1 ≤ r.revision_count) rs =
              All-update (λ (r : Recipe). 1 ≤ r.revision_count) own (patch_recipe w.now p kept)
                (λ r h. h) db.recipes lib.1 in
            let there : Exists (λ y. y ≡ row) rs =
              rw made (Exists-update own (patch_recipe w.now p kept) db.recipes old found) in
            continue-Ends (λ after rows. IngredientsOnly mid after) (λ after view. Kept after) _ _
              (replace_ingredients-Ends w down id req.ingredients mid)
              (λ next rows (xs, e').
                let here : (next.recipes ≡ rs) × (next.revisions ≡ db.revisions) = (cc, cc) in
                finish "update failed" row ((row.revision_count + 1) % 2 ^ 32) req.message rows next
                  (rw (here.0, here.1) sound) (rw here.0 there) (λ h. omega arith)
                  (rw here.0 (All-map_of (λ y h. inl h) rs counts))))
