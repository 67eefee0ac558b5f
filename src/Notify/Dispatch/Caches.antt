-- ===== src/Notify/Dispatch/Caches.antt =====
-- Reads through the maps of a tick (internal/jobs/reminder_dispatcher.go).
use zymobrew.Base.{
  ℕ, ◌≡◌, refl, sym, ◌∙◌, ap, inl, inr, List, [], ◌∷◌, Option, some, All, ◌==◌, ==_iff, Bool-cases,
  Option-cases, none, none-ne-some,
}
use zymobrew.Notify.Dispatch.{lookup, cached, remembered}

-- Every entry of a cache is what asking again would answer.
abbrev pub IsCoherent : {V : Type 0} → (ℕ → Option V) → List (ℕ × V) → Type 0
IsCoherent ask m = All (λ e. ask e.0 ≡ some e.1) m

pub lookup-IsCoherent :
    {V : Type 0} (ask : ℕ → Option V) (k : ℕ) (m : List (ℕ × V)) {v : V}
    → IsCoherent ask m
    → lookup k m ≡ some v
    → ask k ≡ some v
unfolding lookup
lookup-IsCoherent ask k [] c h = cc
lookup-IsCoherent ask k ((k', u) ∷ m) (e, c) h = elim (Bool-cases (k' == k)) [
  | inl s ↦ let same : k' ≡ k = (==_iff k' k).0 s in ap ask (sym same) ∙ e ∙ (rw (s, lookup) at h)
  | inr s ↦ lookup-IsCoherent ask k m c (rw (s, lookup) at h)
]

pub cached-IsCoherent :
    {V : Type 0} (ask : ℕ → Option V) (k : ℕ) (m : List (ℕ × V))
    → IsCoherent ask m
    → ((cached ask k m).0 ≡ ask k) × IsCoherent ask (cached ask k m).1
unfolding cached
cached-IsCoherent ask k m c = elim (Option-cases (lookup k m)) [
  | inr (v, e) ↦ rw (e, cached) (sym (lookup-IsCoherent ask k m c e), c)
  | inl e ↦ elim (Option-cases (ask k)) [
    | inl h ↦ rw (e, h, cached) (refl, c)
    | inr (v, h) ↦ rw (e, h, cached) (refl, (h, c))
  ]
]

pub remembered-IsCoherent :
    {V : Type 0} (ask : ℕ → V) (k : ℕ) (m : List (ℕ × V))
    → IsCoherent (λ i. some (ask i)) m
    → ((remembered ask k m).0 ≡ ask k) × IsCoherent (λ i. some (ask i)) (remembered ask k m).1
unfolding remembered
remembered-IsCoherent ask k m c = elim (Option-cases (lookup k m)) [
  | inr (v, e) ↦
      let same : some (ask k) ≡ some v = lookup-IsCoherent (λ i. some (ask i)) k m c e in
      rw (e, remembered) (cc same, c)
  | inl e ↦ rw (e, remembered) (refl, (refl, c))
]

-- A cache is asked only where it has no entry, and then keeps the answer.
pub cached-agrees :
    {V : Type 0} (ask ask' : ℕ → Option V) (k : ℕ) (m : List (ℕ × V))
    → (lookup k m ≡ none → ask k ≡ ask' k)
    → cached ask k m ≡ cached ask' k m
unfolding cached
cached-agrees ask ask' k m same = elim (Option-cases (lookup k m)) [
  | inr (v, e) ↦ rw (e, cached)
  | inl e ↦ rw (e, cached, same e)
]

pub cached-holds :
    {V : Type 0} (ask : ℕ → Option V) (k : ℕ) (m : List (ℕ × V)) {v : V}
    → (cached ask k m).0 ≡ some v
    → lookup k (cached ask k m).1 ≡ some v
unfolding cached lookup
cached-holds ask k m h = elim (Option-cases (lookup k m)) [
  | inr (u, e) ↦ rw (e, cached) (e ∙ (rw (e, cached) at h))
  | inl e ↦ elim (Option-cases (ask k)) [
    | inl f ↦ absurd (none-ne-some (rw (e, f, cached) at h))
    | inr (u, f) ↦ rw (e, f, cached) (rw ((==_iff k k).1 refl) (rw (e, f, cached) at h))
  ]
]

pub cached-absent :
    {V : Type 0} (ask : ℕ → Option V) (k u : ℕ) (m : List (ℕ × V))
    → lookup u (cached ask k m).1 ≡ none
    → lookup u m ≡ none
unfolding cached lookup
cached-absent ask k u m h = elim (Option-cases (lookup k m)) [
  | inr (v, e) ↦ rw (e, cached) at h
  | inl e ↦ elim (Option-cases (ask k)) [
    | inl f ↦ rw (e, f, cached) at h
    | inr (v, f) ↦ elim (Bool-cases (k == u)) [
      | inl same ↦ absurd (none-ne-some (sym (rw (same) at (rw (e, f, cached) at h))))
      | inr apart ↦ rw (apart) at (rw (e, f, cached) at h)
    ]
  ]
]
