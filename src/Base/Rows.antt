-- ===== src/Base/Rows.antt =====
-- Tables as lists of rows: tests over select, map, take and update, rows identified by a number, and
-- tables compared row by row.
use Prim.Native.Nat.{ℕ, zero, suc, ◌≤◌}
use mathlib.Core.Path.{sym, ◌≡◌, refl, ap}
use mathlib.Core.Option.{Option, none, some}
use mathlib.Core.Logic.{◌≢◌, inl, inr}
use mathlib.Core.Bool.{Bool, true, false, ◌||◌, ◌&&◌}
use mathlib.Core.List.{List, [], ◌∷◌, ◌++◌, map}
use native.Mathlib.Omega.{arith}
use zymobrew.Base.Tests.{◌==◌, if◌then◌else◌, Bool-cases}
use zymobrew.Base.Lists.{take, select, find, any, update, length, All, Exists}

module _ {A : Type 0} where
  pub any-append : (p : A → Bool) (xs ys : List A) → any p (xs ++ ys) ≡ (any p xs || any p ys)
  any-append p [] ys = refl
  any-append p (x ∷ xs) ys = ground (arith, any-append p xs ys)

  pub any-map :
      {B : Type 0} (p : B → Bool) (f : A → B) (xs : List A)
      → any p (map f xs) ≡ any (λ x. p (f x)) xs
  any-map p f [] = refl
  any-map p f (x ∷ xs) = ground (arith, any-map p f xs)

  pub any-take : (p : A → Bool) (n : ℕ) (xs : List A) → any p (take n xs) ≡ true → any p xs ≡ true
  any-take p zero xs h = cc
  any-take p (suc n) [] h = cc
  any-take p (suc n) (x ∷ xs) h = ground (arith, any-take p n xs)

  pub any-select : (q p : A → Bool) (xs : List A) → any q (select p xs) ≡ any (λ x. p x && q x) xs
  any-select q p [] = refl
  any-select q p (x ∷ xs) = ground (arith, any-select q p xs)

  pub any_of_Exists : (p : A → Bool) (xs : List A) → Exists (λ x. p x ≡ true) xs → any p xs ≡ true
  any_of_Exists p (x ∷ xs) (inl h) = rw h
  any_of_Exists p (x ∷ xs) (inr h) = ground (arith, any_of_Exists p xs h)
  any_of_Exists p [] h = absurd h

  pub any_witness : (p : A → Bool) (xs : List A) → any p xs ≡ true → Exists (λ x. p x ≡ true) xs
  any_witness p [] h = cc
  any_witness p (x ∷ xs) h = elim (Bool-cases (p x)) [
    | inl e ↦ inl e
    | inr e ↦ inr (any_witness p xs (ground arith))
  ]

  pub take_all : (n : ℕ) (xs : List A) → length xs ≤ n → take n xs ≡ xs
  take_all zero [] h = refl
  take_all zero (x ∷ xs) h = elim h [ ]
  take_all (suc n) [] h = refl
  take_all (suc n) (x ∷ xs) h = cc (take_all n xs (omega arith))

  pub All-map_of {κ ℓ} :
      {P : A → Type κ} {Q : A → Type ℓ}
      → ((x : A) → P x → Q x)
      → (xs : List A) → All P xs
      → All Q xs
  All-map_of f [] h = tt
  All-map_of f (x ∷ xs) (p, h) = (f x p, All-map_of f xs h)

  pub Exists-map_of :
      {P Q : A → Type 0} → ((x : A) → P x → Q x) → (xs : List A) → Exists P xs → Exists Q xs
  Exists-map_of f [] h = h
  Exists-map_of f (x ∷ xs) (inl p) = inl (f x p)
  Exists-map_of f (x ∷ xs) (inr h) = inr (Exists-map_of f xs h)

  pub All-both {κ ℓ} :
      (P : A → Type κ) (Q : A → Type ℓ) (xs : List A)
      → All P xs
      → All Q xs
      → All (λ x. P x × Q x) xs
  All-both P Q [] p q = tt
  All-both P Q (x ∷ xs) (p, ps) (q, qs) = ((p, q), All-both P Q xs ps qs)

  -- Every row of a table is a row of it.
  pub Exists-self : (xs : List A) → All (λ x. Exists (λ y. y ≡ x) xs) xs
  Exists-self [] = tt
  Exists-self (x ∷ xs) = (inl refl, All-map_of (λ y h. inr h) xs (Exists-self xs))

  -- What a query for one row returns is a row of the table that passes.
  pub find-some :
      (p : A → Bool) (xs : List A) {x : A}
      → find p xs ≡ some x
      → (p x ≡ true) × Exists (λ y. y ≡ x) xs
  find-some p [] h = cc
  find-some p (y ∷ ys) {x} h = elim (Bool-cases (p y)) [
    | inl e ↦ let same : y ≡ x = ground arith in (cc (e, same), inl same)
    | inr e ↦ let (passes, there) = find-some p ys {x = x} (ground arith) in (passes, inr there)
  ]

  pub find_of_Exists :
      (p : A → Bool) (xs : List A) (x : A)
      → Exists (λ y. y ≡ x) xs
      → p x ≡ true
      → (y : A) × (find p xs ≡ some y)
  find_of_Exists p [] x m h = absurd m
  find_of_Exists p (z ∷ zs) x m h = elim (Bool-cases (p z)) [
    | inl e ↦ (z, rw e)
    | inr e ↦ elim m [
      | inl same ↦ absurd (cc (e, same, h))
      | inr there ↦ let (y, found) = find_of_Exists p zs x there h in (y, rw e found)
    ]
  ]

  pub All_at {κ} : (P : A → Type κ) (x : A) (xs : List A) → All P xs → Exists (λ y. y ≡ x) xs → P x
  All_at P x [] h m = absurd m
  All_at P x (y ∷ ys) (p, h) (inl e) = rw e at p
  All_at P x (y ∷ ys) (p, h) (inr m) = All_at P x ys h m

  pub none-ne-some : {x : A} → ◌≡◌ {A = Option A} none (some x) → ⊥
  none-ne-some h = cc

  -- Two tables of the same rows in the same places, each related to its successor.
  abbrev pub Pointwise : (A → A → Type 0) → List A → List A → Type 0
  Pointwise R [] [] = Unit
  Pointwise R [] (y ∷ ys) = ⊥
  Pointwise R (x ∷ xs) [] = ⊥
  Pointwise R (x ∷ xs) (y ∷ ys) = R x y × Pointwise R xs ys

  pub Pointwise-map :
      (R : A → A → Type 0) (f : A → A) (xs : List A)
      → All (λ x. R x (f x)) xs
      → Pointwise R xs (map f xs)
  Pointwise-map R f [] h = tt
  Pointwise-map R f (x ∷ xs) (p, h) = (p, Pointwise-map R f xs h)

  pub update-map :
      (p : A → Bool) (f : A → A) (xs : List A)
      → update p f xs ≡ map (λ x. if p x then f x else x) xs
  update-map p f [] = refl
  update-map p f (x ∷ xs) = ap (λ (zs : List A). (if p x then f x else x) ∷ zs) (update-map p f xs)

  pub select_none : (p : A → Bool) (xs : List A) → All (λ x. p x ≡ false) xs → select p xs ≡ []
  select_none p [] h = refl
  select_none p (x ∷ xs) (e, h) = rw (e, select_none p xs h)

  -- An UPDATE after which its condition finds no row has changed nothing.
  pub update-unfound :
      (p : A → Bool) (f : A → A)
      → ((x : A) → p x ≡ true → p (f x) ≡ true)
      → (xs : List A) → find p (update p f xs) ≡ none
      → update p f xs ≡ xs
  update-unfound p f keeps [] h = refl
  update-unfound p f keeps (x ∷ xs) h = elim (Bool-cases (p x)) [
    | inl e ↦ absurd (none-ne-some (sym (rw (e, keeps x e) at h)))
    | inr e ↦
        rw e (ap (λ (ys : List A). x ∷ ys) (update-unfound p f keeps xs (rw e at (rw e at h))))
  ]

  -- A view of the table that has none of the rows which an update hits is not changed by it.
  pub select-update :
      (p hit : A → Bool) (f : A → A)
      → ((x : A) → hit x ≡ true → (p x ≡ false) × (p (f x) ≡ false))
      → (xs : List A) → select p (update hit f xs) ≡ select p xs
  select-update p hit f apart [] = refl
  select-update p hit f apart (x ∷ xs) = elim (Bool-cases (hit x)) [
    | inl e ↦ rw (e, (apart x e).0, (apart x e).1) (select-update p hit f apart xs)
    | inr e ↦ rw (e, select-update p hit f apart xs)
  ]

  -- Nor by the deletion of rows that it does not have.
  pub select-select :
      (p keep : A → Bool)
      → ((x : A) → keep x ≡ false → p x ≡ false)
      → (xs : List A) → select p (select keep xs) ≡ select p xs
  select-select p keep apart [] = refl
  select-select p keep apart (x ∷ xs) = elim (Bool-cases (keep x)) [
    | inl e ↦ rw (e, select-select p keep apart xs)
    | inr e ↦ rw (e, apart x e) (select-select p keep apart xs)
  ]

  pub All-map {κ} :
      {B : Type 0} (P : B → Type κ) (f : A → B) (xs : List A)
      → All (λ x. P (f x)) xs
      → All P (map f xs)
  All-map P f [] h = tt
  All-map P f (x ∷ xs) (p, h) = (p, All-map P f xs h)

  pub All-select_of {κ} :
      (P : A → Type κ) (p : A → Bool) (xs : List A)
      → All (λ x. p x ≡ true → P x) xs
      → All P (select p xs)
  All-select_of P p [] h = tt
  All-select_of P p (x ∷ xs) (q, h) = elim (Bool-cases (p x)) [
    | inl e ↦ rw e (q e, All-select_of P p xs h)
    | inr e ↦ rw e (All-select_of P p xs h)
  ]

module _ {A : Type 0} (id : A → ℕ) where
  -- A primary key: no two rows share the number.
  abbrev pub HasKey : List A → Type 0
  HasKey [] = Unit
  HasKey (x ∷ xs) = All (λ y. id y ≢ id x) xs × HasKey xs

  absent :
      (p : A → Bool) (n : ℕ) (xs : List A)
      → All (λ y. id y ≢ n) xs
      → any (λ y. p y && id y == n) xs ≡ false
  absent p n [] h = refl
  absent p n (y ∷ ys) (d, h) = ground (arith, absent p n ys h)

  not_there : (x : A) (xs : List A) → All (λ y. id y ≢ id x) xs → Exists (λ y. y ≡ x) xs → ⊥
  not_there x (y ∷ ys) (d, h) (inl e) = d (cc e)
  not_there x (y ∷ ys) (d, h) (inr r) = not_there x ys h r
  not_there x [] h r = r

  not_head :
      (x y : A) (ys : List A) → All (λ z. id z ≢ id x) ys → Exists (λ z. z ≡ y) ys → id x ≢ id y
  not_head x y (z ∷ ys) (d, h) (inl e) k = d (cc (e, k))
  not_head x y (z ∷ ys) (d, h) (inr r) k = not_head x y ys h r k
  not_head x y [] h r k = r

  -- The row that a query finds by its key is that row.
  pub key_row :
      (p : A → Bool) (xs : List A) (x : A)
      → HasKey xs
      → Exists (λ y. y ≡ x) xs
      → any (λ y. p y && id y == id x) xs ≡ true
      → p x ≡ true
  key_row p [] x k m h = absurd m
  key_row p (y ∷ ys) x (d, k) (inl e) h = ground (arith, absent p (id x) ys (rw e at d))
  key_row p (y ∷ ys) x (d, k) (inr r) h = ground (arith, not_head y x ys d r, key_row p ys x k r)

  -- Rewriting rows in place keeps the keys.
  pub HasKey-map :
      (f : A → A) → ((x : A) → id (f x) ≡ id x) → (xs : List A) → HasKey xs → HasKey (map f xs)
  HasKey-map f same [] k = tt
  HasKey-map f same (x ∷ xs) (d, k) = (
    All-map (λ y. id y ≢ id (f x)) f xs (All-map_of (λ y h e. h (cc (e, same x, same y))) xs d),
    HasKey-map f same xs k,
  )

  -- A key names one row.
  pub key_unique :
      (xs : List A) (x y : A)
      → HasKey xs
      → Exists (λ z. z ≡ x) xs
      → Exists (λ z. z ≡ y) xs
      → id x ≡ id y
      → x ≡ y
  key_unique [] x y k m n e = absurd m
  key_unique (z ∷ zs) x y (d, k) (inl a) (inl b) e = cc
  key_unique (z ∷ zs) x y (d, k) (inl a) (inr n) e = absurd (not_head z y zs d n (cc))
  key_unique (z ∷ zs) x y (d, k) (inr m) (inl b) e = absurd (not_head z x zs d m (cc))
  key_unique (z ∷ zs) x y (d, k) (inr m) (inr n) e = key_unique zs x y k m n e
