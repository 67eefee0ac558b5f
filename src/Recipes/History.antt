-- ===== src/Recipes/History.antt =====
-- The history of the recipes: each keeps its revisions, numbered from 1, and points at the last.
pub mod Kept
pub mod Deleted
pub mod Laws
use mathlib.Core.Option
use zymobrew.Base.{
  ℕ, zero, suc, ◌+◌, ◌≤◌, ◌≡◌, ◌≢◌, any_of_Exists, Exists-map_of, refl, sym, ap, ◌∙◌, subst, ◌⊎◌,
  inl, inr, Bool, true, false, ◌||◌, List, [], ◌∷◌, ◌++◌, append-nil, map, Option, none, some,
  arith, select, update, any, last?, All, All-map_of, All-map, All-both, All-append, Exists,
  Exists-self, HasKey, HasKey-map, key_unique, update-map, select-append, any-append, any-map,
  if◌then◌else◌, ◌==◌, ==_refl, Bool-cases, if_rule,
}
use zymobrew.Base.Int.{ℤ}
use zymobrew.Schema.{Recipe}
use zymobrew.Schema.Recipes.{RecipeRevision}
use zymobrew.Batches.Handlers.{is_recipe}
use zymobrew.Recipes.Rows.{revised}

abbrev pub recipe_key_id : Recipe → ℕ
recipe_key_id r = r.id

-- The revisions of a recipe, in the order of their insertion.
abbrev pub revisions_of : ℕ → List RecipeRevision → List RecipeRevision
revisions_of recipe revs = select (λ rev. rev.recipe_id == recipe) revs

-- 1, 2, …, n
abbrev pub numbered : ℕ → List ℕ
numbered zero = []
numbered (suc n) = numbered n ++ suc n ∷ []

abbrev pub number_of : RecipeRevision → ℕ
number_of rev = rev.revision_number

abbrev pub revision_id : RecipeRevision → ℕ
revision_id rev = rev.id

-- The revisions of a recipe carry the numbers from 1 to its count, in order, and it points at the last.
abbrev pub IsVersioned : List RecipeRevision → Recipe → Type 0
IsVersioned revs r =
    (map number_of (revisions_of r.id revs) ≡ numbered r.revision_count)
    × (r.current_revision_id ≡ Option.map revision_id (last? (revisions_of r.id revs)))

-- Recipes have a key, each is versioned, and each revision is one of a recipe.
abbrev pub IsSound : List Recipe → List RecipeRevision → Type 0
IsSound recipes revs =
    HasKey recipe_key_id recipes
    × All (IsVersioned revs) recipes
    × All (λ rev. any (is_recipe rev.recipe_id) recipes ≡ true) revs

-- A sound library in which each recipe has a revision.
abbrev pub IsLibrary : List Recipe → List RecipeRevision → Type 0
IsLibrary recipes revs = IsSound recipes revs × All (λ r. 1 ≤ r.revision_count) recipes

last_append : {A : Type 0} (xs : List A) (x : A) → last? (xs ++ x ∷ []) ≡ some x
last_append [] x = refl
last_append (y ∷ []) x = refl
last_append (y ∷ z ∷ zs) x = last_append (z ∷ zs) x

map_append :
    {A B : Type 0} (f : A → B) (xs : List A) (y : A) → map f (xs ++ y ∷ []) ≡ map f xs ++ f y ∷ []
map_append f [] y = refl
map_append f (x ∷ xs) y = ap (λ (zs : List _). f x ∷ zs) (map_append f xs y)

pub any-update :
    (n : ℕ) (p : Recipe → Bool) (f : Recipe → Recipe)
    → ((r : Recipe) → (f r).id ≡ r.id)
    → (rs : List Recipe) → any (is_recipe n) (update p f rs) ≡ any (is_recipe n) rs
any-update n p f same [] = refl
any-update n p f same (r ∷ rs) = elim (Bool-cases (p r)) [
  | inl e ↦ rw (e, same r, any-update n p f same rs) refl
  | inr e ↦ rw (e, any-update n p f same rs) refl
]

pub HasKey-update :
    (p : Recipe → Bool) (f : Recipe → Recipe)
    → ((r : Recipe) → (f r).id ≡ r.id)
    → (rs : List Recipe) → HasKey recipe_key_id rs
    → HasKey recipe_key_id (update p f rs)
HasKey-update p f same rs k = rw (update-map p f rs) (
    HasKey-map recipe_key_id (λ x. if p x then f x else x)
      (λ x. if_rule (λ (y : Recipe). y.id ≡ x.id) (p x) _ _ (λ _. same x) (λ _. refl)) rs k)

-- A recipe is rewritten in what is no part of its history.
pub rewrite-IsSound :
    (p : Recipe → Bool) (f : Recipe → Recipe)
    → ((r : Recipe)
        → ((f r).id ≡ r.id)
          × ((f r).revision_count ≡ r.revision_count)
          × ((f r).current_revision_id ≡ r.current_revision_id))
    → (rs : List Recipe) (revs : List RecipeRevision) → IsSound rs revs
    → IsSound (update p f rs) revs
rewrite-IsSound p f same rs revs (k, versions, owned) = (
  HasKey-update p f (λ r. (same r).0) rs k,
  rw (update-map p f rs) (
      All-map (IsVersioned revs) (λ x. if p x then f x else x) rs
        (All-map_of
          (λ x v.
            if_rule (IsVersioned revs) (p x) _ _ (λ _. rw ((same x).0, (same x).1, (same x).2) v)
              (λ _. v))
          rs versions)),
  All-map_of (λ rev h. any-update rev.recipe_id p f (λ r. (same r).0) rs ∙ h) revs owned,
)

numbered_next : (n : ℕ) → numbered n ++ suc n ∷ [] ≡ numbered (n + 1)
numbered_next n = let e : suc n ≡ n + 1 = omega arith in ap numbered e

==_eq : {a b : ℕ} → (a == b) ≡ true → a ≡ b
==_eq h = ground arith

clash :
    {a b : ℕ} (rs : List Recipe)
    → any (is_recipe a) rs ≡ true
    → any (is_recipe b) rs ≡ false
    → a ≢ b
clash rs h k e = cc

HasKey-new :
    (row : Recipe) (rs : List Recipe)
    → any (is_recipe row.id) rs ≡ false
    → HasKey recipe_key_id rs
    → HasKey recipe_key_id (rs ++ row ∷ [])
HasKey-new row [] h k = (tt, tt)
HasKey-new row (r ∷ rs) h (d, k) = (
  All-append (λ (y : Recipe). y.id ≢ r.id) rs (row ∷ []) d ((λ e. ground arith), tt),
  HasKey-new row rs (ground arith) k,
)

-- A draft is stored: a recipe of a new id with no revision.
pub draft-IsSound :
    (row : Recipe) (rs : List Recipe) (revs : List RecipeRevision)
    → any (is_recipe row.id) rs ≡ false
    → row.revision_count ≡ 0
    → row.current_revision_id ≡ none
    → IsSound rs revs
    → IsSound (rs ++ row ∷ []) revs
draft-IsSound row rs revs fresh count current (k, versions, owned) = (
  HasKey-new row rs fresh k,
  All-append (IsVersioned revs) rs (row ∷ []) versions
      (rw (unowned revs owned, count, current) (refl, refl), tt),
  All-map_of (λ rev h. any-append (is_recipe rev.recipe_id) rs (row ∷ []) ∙ ground (arith, h)) revs
      owned,
)
  where
    unowned :
        (vs : List RecipeRevision)
        → All (λ rev. any (is_recipe rev.recipe_id) rs ≡ true) vs
        → revisions_of row.id vs ≡ []
    unowned [] h = refl
    unowned (v ∷ vs) (h, hs) = elim (Bool-cases (v.recipe_id == row.id)) [
      | inl e ↦ absurd (clash rs h fresh (==_eq e))
      | inr e ↦ rw e (unowned vs hs)
    ]

-- The recipe of a row gets its next revision.
pub revise-IsSound :
    (now : ℤ) (x : Recipe) (rev : RecipeRevision) (rs : List Recipe) (revs : List RecipeRevision)
    → Exists (λ y. y ≡ x) rs
    → rev.recipe_id ≡ x.id
    → rev.revision_number ≡ suc x.revision_count
    → IsSound rs revs
    → IsSound (update (is_recipe x.id) (revised now rev.id) rs) (revs ++ rev ∷ [])
unfolding revised
revise-IsSound now x rev rs revs there mine next (k, versions, owned) = (
  HasKey-update (is_recipe x.id) (revised now rev.id) (λ r. refl) rs k,
  rw (update-map (is_recipe x.id) (revised now rev.id) rs) (
      All-map (IsVersioned (revs ++ rev ∷ []))
        (λ y. if is_recipe x.id y then revised now rev.id y else y) rs
        (All-map_of (λ y (v, h). one y v h) rs
          (All-both (IsVersioned revs) (λ y. Exists (λ z. z ≡ y) rs) rs versions
            (Exists-self rs)))),
  All-append
      (λ v. any (is_recipe v.recipe_id) (update (is_recipe x.id) (revised now rev.id) rs) ≡ true)
      revs (rev ∷ [])
      (All-map_of
        (λ v h. any-update v.recipe_id (is_recipe x.id) (revised now rev.id) (λ r. refl) rs ∙ h)
        revs owned)
      (
        any-update rev.recipe_id (is_recipe x.id) (revised now rev.id) (λ r. refl) rs
            ∙ any_of_Exists (is_recipe rev.recipe_id) rs
                (Exists-map_of (λ y e. rw (e, mine) (==_refl x.id)) rs there),
        tt,
      ),
)
  where
    grown :
        (y : Recipe) (b : Bool)
        → (x.id == y.id) ≡ b
        → revisions_of y.id (revs ++ rev ∷ [])
          ≡ (if b then revisions_of y.id revs ++ rev ∷ [] else revisions_of y.id revs)
    grown y true e = select-append (λ v. v.recipe_id == y.id) revs (rev ∷ []) ∙ rw (mine, e) refl
    grown y false e =
        select-append (λ v. v.recipe_id == y.id) revs (rev ∷ [])
        ∙ rw (mine, e) (append-nil (revisions_of y.id revs))

    one :
        (y : Recipe)
        → IsVersioned revs y
        → Exists (λ z. z ≡ y) rs
        → IsVersioned (revs ++ rev ∷ []) (if is_recipe x.id y then revised now rev.id y else y)
    one y (numbers, current) h = elim (Bool-cases (y.id == x.id)) [
      | inr e ↦ rw e (rw (grown y false (ground (arith, e))) (numbers, current))
      | inl e ↦
          let same : y ≡ x = key_unique recipe_key_id rs y x k h there (ground (arith, e)) in
          rw e (
            rw (grown y true (ground (arith, e))) (
              map_append number_of (revisions_of y.id revs) rev
                  ∙ rw (numbers, next, same) (numbered_next x.revision_count),
              rw (last_append (revisions_of y.id revs) rev) refl,
            ))
    ]
