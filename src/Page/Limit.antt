-- ===== src/Page/Limit.antt =====
-- The texts that `parseListPagination` of internal/server/pagination.go accepts for `limit`.
use zymobrew.Base.{
  ℕ, zero, suc, ◌+◌, ◌-◌, ◌*◌, ◌^◌, ◌≤◌, ◌<◌, arith, ◌≡◌, ◌≢◌, refl, sym, ◌∙◌, ◌⊎◌, ◌↔◌, inl, inr,
  true, false, ◌&&◌, ◌||◌, if_rule, [], ◌∷◌, Option, none, some, Bytes, leb, ltb, ◌==◌, ==_iff,
  Bool-cases, Option-cases, All, length, none-ne-some, ap,
}
use zymobrew.Base.Int.{ℤ, pos}
use zymobrew.Page.Request.{
  negate, parse_limit, limit_of, atoi, digits_from, unsigned, in_bound, max_page_limit,
  default_page_limit,
}

abbrev pub IsDigit : ℕ → Type 0
IsDigit c = (b'0' ≤ c) × (c ≤ b'9')

-- The number that decimal digits stand for, by their places.
unfoldable pub decimal_value : Bytes → ℕ
decimal_value [] = 0
decimal_value (c ∷ s) = (c - b'0') * 10 ^ length s + decimal_value s

place : (m x p v : ℕ) → (m * 10 + x) * p + v ≡ m * (10 * p) + (x * p + v)
place m x p v = omega arith

place_suc :
    (m x : ℕ) (s : Bytes)
    → (m * 10 + x) * 10 ^ length s + decimal_value s
      ≡ m * 10 ^ suc (length s) + (x * 10 ^ length s + decimal_value s)
place_suc m x s =
    let next : 10 ^ suc (length s) ≡ 10 * 10 ^ length s = omega arith in
    place m x (10 ^ length s) (decimal_value s)
    ∙ ap (λ q. m * q + (x * 10 ^ length s + decimal_value s)) (sym next)

digits_read :
    (s : Bytes) (m : ℕ) {n : ℕ}
    → digits_from m s ≡ some n
    → All IsDigit s × (n ≡ m * 10 ^ length s + decimal_value s)
unfolding digits_from decimal_value
digits_read [] m h = (tt, ground arith)
digits_read (c ∷ s) m {n} h = elim (Bool-cases (leb b'0' c && leb c b'9')) [
  | inr e ↦ absurd (none-ne-some (rw (e, digits_from) at h))
  | inl e ↦
      let (ds, same) = digits_read s (m * 10 + (c - b'0')) (rw (e, digits_from) at h) in
      ((ground (arith, e), ds), same ∙ place_suc m (c - b'0') s)
]

digits_written :
    (s : Bytes) (m : ℕ)
    → All IsDigit s
    → digits_from m s ≡ some (m * 10 ^ length s + decimal_value s)
unfolding digits_from decimal_value
digits_written [] m d = ground arith
digits_written (c ∷ s) m (d, ds) =
    let e : (leb b'0' c && leb c b'9') ≡ true = ground (arith, d) in
    rw e (digits_written s (m * 10 + (c - b'0')) ds ∙ ap some (place_suc m (c - b'0') s))

-- A text that `limit` is read from: no text, for the default, or decimal digits, with a plus sign or
-- without, for the number that they stand for.
abbrev pub Reads : Bytes → ℕ → Type 0
Reads s n =
    ((s ≡ []) × (n ≡ default_page_limit))
    ⊎ (d : Bytes) × ((s ≡ d) ⊎ (s ≡ b'+' ∷ d))
      × (d ≢ [])
      × All IsDigit d
      × (n ≡ decimal_value d)
      × (1 ≤ n)
      × (n ≤ max_page_limit)

limit_read :
    (v bound : ℕ) {n : ℕ}
    → limit_of (in_bound bound pos (some v)) ≡ some n
    → (v ≡ n) × (1 ≤ n) × (n ≤ max_page_limit)
unfolding in_bound limit_of
limit_read v bound h = elim (Bool-cases (ltb v bound)) [
  | inl e ↦ small (rw (e, in_bound) at h)
  | inr e ↦ absurd (none-ne-some (rw (e, in_bound) at h))
]
  where
    small : {n : ℕ} → limit_of (some (pos v)) ≡ some n → (v ≡ n) × (1 ≤ n) × (n ≤ max_page_limit)
    small h = ground arith

limit_written :
    (v bound : ℕ)
    → v < bound
    → 1 ≤ v
    → v ≤ max_page_limit
    → limit_of (in_bound bound pos (some v)) ≡ some v
unfolding in_bound limit_of
limit_written v bound b low high =
    let e : ltb v bound ≡ true = ground arith in
    let f : (ltb v 1 || ltb max_page_limit v) ≡ false = ground arith in rw (e, in_bound) (rw f refl)

-- What a sign leaves to be read.
signed_read :
    (d : Bytes) (bound : ℕ) {n : ℕ}
    → limit_of (in_bound bound pos (unsigned d)) ≡ some n
    → (d ≢ []) × All IsDigit d × (n ≡ decimal_value d) × (1 ≤ n) × (n ≤ max_page_limit)
unfolding unsigned in_bound limit_of
signed_read [] bound h = absurd (none-ne-some h)
signed_read (c ∷ d) bound {n} h = elim (Option-cases (digits_from 0 (c ∷ d))) [
  | inl e ↦ absurd (none-ne-some (rw (e, unsigned) at h))
  | inr (v, e) ↦
      let (ds, same) = digits_read (c ∷ d) 0 e in
      let (exact, low, high) = limit_read v bound (rw (e) at h) in
      ((λ x. cc x), ds, sym exact ∙ (omega (arith, same)), low, high)
]

negative_read : (o : Option ℕ) (bound : ℕ) {n : ℕ} → limit_of (in_bound bound negate o) ≡ some n → ⊥
unfolding in_bound limit_of
negative_read none bound h = none-ne-some h
negative_read (some zero) bound {n} h =
    if_rule (λ (o : Option ℤ). limit_of o ≡ some n → ⊥) (ltb 0 bound) _ _ (λ _ x. none-ne-some x)
      (λ _ x. none-ne-some x) h
negative_read (some (suc v)) bound {n} h =
    if_rule (λ (o : Option ℤ). limit_of o ≡ some n → ⊥) (ltb (suc v) bound) _ _
      (λ _ x. none-ne-some x) (λ _ x. none-ne-some x) h

signed_written :
    (d : Bytes) (bound : ℕ)
    → max_page_limit < bound
    → d ≢ []
    → All IsDigit d
    → 1 ≤ decimal_value d
    → decimal_value d ≤ max_page_limit
    → limit_of (in_bound bound pos (unsigned d)) ≡ some (decimal_value d)
unfolding unsigned in_bound limit_of
signed_written [] bound b ne ds low high = absurd (ne refl)
signed_written (c ∷ d) bound b ne ds low high =
    let v : 0 * 10 ^ length (c ∷ d) + decimal_value (c ∷ d) ≡ decimal_value (c ∷ d) = omega arith in
    rw (digits_written (c ∷ d) 0 ds ∙ ap some v)
      (limit_written (decimal_value (c ∷ d)) bound (omega (arith, b, high)) low high)

-- A limit is accepted if and only if the text is empty, for the default of 50, or consists of decimal
-- digits, of any number and after a plus sign or none, that stand for a number between 1 and 100; and
-- this number is the limit. All other texts are refused.
pub parse_limit_iff : (s : Bytes) (n : ℕ) → (parse_limit s ≡ some n) ↔ Reads s n
unfolding parse_limit atoi
parse_limit_iff s n = (read s, written s)
  where
    unsigned_text :
        (c : ℕ) (t : Bytes)
        → limit_of (in_bound (2 ^ 63) pos (unsigned (c ∷ t))) ≡ some n
        → Reads (c ∷ t) n
    unsigned_text c t h =
        let (ne, ds, value, low, high) = signed_read (c ∷ t) (2 ^ 63) h in
        inr (c ∷ t, inl refl, ne, ds, value, low, high)

    read : (t : Bytes) → parse_limit t ≡ some n → Reads t n
    read [] h = inl (refl, ground arith)
    read (c ∷ t) h =
        if_rule (λ (o : Option ℤ). limit_of o ≡ some n → Reads (c ∷ t) n) (c == b'-') _ _
          (λ _ x. absurd (negative_read (unsigned t) (2 ^ 63 + 1) x))
          (λ _ x.
            if_rule (λ (o : Option ℤ). limit_of o ≡ some n → Reads (c ∷ t) n) (c == b'+') _ _
              (λ e y.
                let plus : c ≡ b'+' = (==_iff c b'+').0 e in
                let (ne, ds, value, low, high) = signed_read t (2 ^ 63) y in
                inr (t, inr (ap (λ k. k ∷ t) plus), ne, ds, value, low, high))
              (λ _ y. unsigned_text c t y) x)
          h

    digits :
        (d : Bytes)
        → d ≢ []
        → All IsDigit d
        → 1 ≤ decimal_value d
        → decimal_value d ≤ max_page_limit
        → parse_limit d ≡ some (decimal_value d)
    digits [] ne ds low high = absurd (ne refl)
    digits (c ∷ d) ne (i, ds) low high =
        let minus : (c == b'-') ≡ false = ground (arith, i) in
        let plus : (c == b'+') ≡ false = ground (arith, i) in
        rw (minus, plus) (signed_written (c ∷ d) (2 ^ 63) (omega arith) ne (i, ds) low high)

    written : (t : Bytes) → Reads t n → parse_limit t ≡ some n
    written t (inl (e, f)) = rw (e, f) refl
    written t (inr (d, inl e, ne, ds, value, low, high)) =
        rw (e, value) (digits d ne ds (omega (arith, low, value)) (omega (arith, high, value)))
    written t (inr (d, inr e, ne, ds, value, low, high)) =
        rw (e, value)
          (signed_written d (2 ^ 63) (omega arith) ne ds (omega (arith, low, value))
            (omega (arith, high, value)))
