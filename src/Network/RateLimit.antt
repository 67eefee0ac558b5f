-- ===== src/Network/RateLimit.antt =====
-- The keyed limiter of internal/ratelimit/ratelimit.go over the token buckets of
-- golang.org/x/time/rate. An instant is in nanoseconds; each call of `allow` is one step, since it
-- holds the mutex from its beginning to its end.
use zymobrew.Base.{
  ℕ, ◌/◌, ◌≡◌, refl, sym, ◌∙◌, ap, ◌⊎◌, inl, inr, Bool, true, false, not, List, [], ◌∷◌, Option,
  none, some, Bytes, bytes_eq, bytes_eq_refl, bytes_eq→eq, length, select, All, if◌then◌else◌,
  Bool-cases, if_rule, subst,
}
use zymobrew.Base.Int.{ℤ, pos, ◌-ℤ◌, ltb_ℤ}

-- What the package takes from rate: a bucket made with the limiter's rate and burst, and `Allow` at an instant.
pub record Buckets (B : Type 0) : Type 0 where
  pub new_limiter : B
  pub allow_one : B → ℤ → Bool × B

pub record Entry (B : Type 0) : Type 0 where
  pub limiter : B
  pub last_seen : ℤ

-- `idleTTL` is a duration that is not negative.
pub record Limiter (B : Type 0) : Type 0 where
  pub buckets : List (Bytes × Entry B)
  pub idle_ttl : ℕ
  pub last_eviction : ℤ

module _ {B : Type 0} where
  abbrev pub has_key : Bytes → Bytes × Entry B → Bool
  has_key k e = bytes_eq e.0 k

  unfoldable pub get : Bytes → List (Bytes × Entry B) → Option (Entry B)
  unfolding bytes_eq
  get k [] = none
  get k ((k', e) ∷ m) = if bytes_eq k' k then some e else get k m

  unfoldable pub put : Bytes → Entry B → List (Bytes × Entry B) → List (Bytes × Entry B)
  put k e m = (k, e) ∷ select (λ x. not (has_key k x)) m

  -- `evictIdleLocked`
  abbrev pub is_idle : ℤ → Bytes × Entry B → Bool
  is_idle cutoff x = ltb_ℤ x.1.last_seen cutoff

  unfoldable pub evict_idle : ℤ → Limiter B → Limiter B
  evict_idle now l = record l {
    buckets = select (λ x. not (is_idle (now -ℤ pos l.idle_ttl) x)) l.buckets;
  }

  -- The eviction with which a call begins, at most twice in each idle time.
  unfoldable pub maybe_evict : ℤ → Limiter B → Limiter B
  unfolding evict_idle
  maybe_evict now l =
      if ltb_ℤ (pos (l.idle_ttl / 2)) (now -ℤ l.last_eviction)
      then record (evict_idle now l) { last_eviction = now }
      else l

  unfoldable pub size : Limiter B → ℕ
  size l = length l.buckets

  module _ (b : Buckets B) where
    unfoldable pub bucket_of : Option (Entry B) → B
    bucket_of none = b.new_limiter
    bucket_of (some e) = e.limiter

    unfoldable pub allow : Bytes → ℤ → Limiter B → Bool × Limiter B
    unfolding maybe_evict get put bucket_of
    allow k now l =
        let l' = maybe_evict now l in
        let (ok, after) = b.allow_one (bucket_of (get k l'.buckets)) now in
        (ok, record l' { buckets = put k (record { limiter = after; last_seen = now }) l'.buckets })

    get-put_other :
        (k k' : Bytes) (e : Entry B) (m : List (Bytes × Entry B))
        → bytes_eq k k' ≡ false
        → get k' (put k e m) ≡ get k' m
    unfolding get put
    get-put_other k k' e m d = rw d (kept m)
      where
        kept :
            (xs : List (Bytes × Entry B)) → get k' (select (λ x. not (has_key k x)) xs) ≡ get k' xs
        kept [] = refl
        kept ((j, x) ∷ xs) = elim (Bool-cases (bytes_eq j k)) [
          | inr h ↦
              rw (h, get)
                (ap (λ (o : Option (Entry B)). if bytes_eq j k' then some x else o) (kept xs))
          | inl h ↦
              let same : j ≡ k = bytes_eq→eq j k h in rw (h, get) (kept xs ∙ sym (rw (same, d)))
        ]

    get-put_same :
        (k : Bytes) (e : Entry B) (m : List (Bytes × Entry B)) → get k (put k e m) ≡ some e
    unfolding get put
    get-put_same k e m = rw (bytes_eq_refl k)

    -- What eviction may do to the bucket of a key, where no two entries share a key.
    abbrev pub EvictedOnly : ℤ → Limiter B → Option (Entry B) → Option (Entry B) → Type 0
    EvictedOnly now l before after =
        (after ≡ before)
        ⊎ (e : Entry B) × (before ≡ some e)
          × (after ≡ none)
          × (ltb_ℤ e.last_seen (now -ℤ pos l.idle_ttl) ≡ true)

    abbrev pub IsMap : List (Bytes × Entry B) → Type 0
    IsMap [] = Unit
    IsMap (x ∷ xs) = All (λ y. has_key x.0 y ≡ false) xs × IsMap xs

    get-absent :
        (k : Bytes) (p : Bytes × Entry B → Bool) (m : List (Bytes × Entry B))
        → All (λ y. has_key k y ≡ false) m
        → get k (select p m) ≡ none
    unfolding get
    get-absent k p [] h = refl
    get-absent k p ((j, x) ∷ m) (d, h) = elim (Bool-cases (p (j, x))) [
      | inl e ↦ rw (e, get) (rw d (get-absent k p m h))
      | inr e ↦ rw (e, get) (get-absent k p m h)
    ]

    get-evict :
        (k : Bytes) (now : ℤ) (l : Limiter B) (m : List (Bytes × Entry B))
        → IsMap m
        → EvictedOnly now l
            (get k m)
            (get k (select (λ x. not (is_idle (now -ℤ pos l.idle_ttl) x)) m))
    unfolding get
    get-evict k now l [] d = inl refl
    get-evict k now l ((j, x) ∷ m) (d, ds) =
        elim (Bool-cases (is_idle (now -ℤ pos l.idle_ttl) (j, x))) [
          | inr live ↦ elim (Bool-cases (bytes_eq j k)) [
            | inl h ↦ inl (rw (live, get) (rw h))
            | inr h ↦ rw (live, get) (rw h (get-evict k now l m ds))
          ]
          | inl idle ↦ elim (Bool-cases (bytes_eq j k)) [
            | inl h ↦
                let same : j ≡ k = bytes_eq→eq j k h in
                inr (x, rw (h, get), rw (idle, get) (get-absent k _ m (rw same at d)), idle)
            | inr h ↦ rw (idle, get) (rw h (get-evict k now l m ds))
          ]
        ]

    get-maybe_evict :
        (k : Bytes) (now : ℤ) (l : Limiter B)
        → IsMap l.buckets
        → EvictedOnly now l (get k l.buckets) (get k (maybe_evict now l).buckets)
    unfolding maybe_evict evict_idle
    get-maybe_evict k now l d =
        if_rule (λ (x : Limiter B). EvictedOnly now l (get k l.buckets) (get k x.buckets))
          (ltb_ℤ (pos (l.idle_ttl / 2)) (now -ℤ l.last_eviction)) _ _
          (λ _. get-evict k now l l.buckets d) (λ _. inl refl)

    -- A call for one key asks that key's bucket: the one that is kept for it, or a new one if there is
    -- none or if it has been idle for longer than the limiter's time and is dropped. The answer is the
    -- bucket's, and the bucket that this leaves is kept for the key, seen now. The buckets of all
    -- other keys are as they were, except that the call may drop one that has been idle for longer
    -- than that. No two entries share a key.
    pub allow_isolated :
        (k other : Bytes) (now : ℤ) (l : Limiter B)
        → IsMap l.buckets
        → bytes_eq k other ≡ false
        → EvictedOnly now l (get other l.buckets) (get other (allow k now l).1.buckets)
          × ((o : Option (Entry B)) × EvictedOnly now l (get k l.buckets) o
              × ((allow k now l).0 ≡ (b.allow_one (bucket_of o) now).0)
              × (get k (allow k now l).1.buckets
                  ≡ some record { limiter = (b.allow_one (bucket_of o) now).1; last_seen = now }))
    unfolding allow
    allow_isolated k other now l d apart = (
      subst (EvictedOnly now l (get other l.buckets))
          (sym (get-put_other k other _ (maybe_evict now l).buckets apart))
          (get-maybe_evict other now l d),
      (
        get k (maybe_evict now l).buckets,
        get-maybe_evict k now l d,
        refl,
        get-put_same k _ (maybe_evict now l).buckets,
      ),
    )
