-- ===== src/Auth/Passwords.antt =====
-- Password hashes and session tokens (internal/auth/password.go and token.go) over argon2id, SHA-256,
-- base64 and the verbs of fmt, which are parameters.
use zymobrew.Base.{
  ℕ, ◌^◌, ◌%◌, ◌*◌, ◌≡◌, refl, ap, ◌∙◌, sym, Bool, true, false, List, [], ◌∷◌, ◌++◌, All-append,
  subst, ==_refl, Option, none, some, Bytes, codes, bytes_eq, bytes_eq_refl, bytes_eq→eq, length,
  All, ◌==◌, if◌then◌else◌,
}

pub record Crypto : Type 0 where
  pub id_key : Bytes → Bytes → ℕ → ℕ → ℕ → ℕ → Bytes  -- argon2.IDKey
  pub version : ℕ  -- argon2.Version
  pub sha256 : Bytes → Bytes
  pub std_encode : Bytes → Bytes  -- base64.RawStdEncoding
  pub std_decode : Bytes → Option Bytes
  pub url_encode : Bytes → Bytes  -- base64.RawURLEncoding
  pub decimal : ℕ → Bytes  -- the verb %d
  pub scan_version : Bytes → Option ℕ  -- fmt.Sscanf(_, "v=%d", …)
  pub scan_params : Bytes → Option (ℕ × ℕ × ℕ)  -- fmt.Sscanf(_, "m=%d,t=%d,p=%d", …)

abbrev pub dollar : ℕ
dollar = b'$'

-- `strings.Split(_, "$")`: the field before the first separator, and the others.
unfoldable pub split_dollar : Bytes → Bytes × List Bytes
split_dollar [] = ([], [])
split_dollar (c ∷ s) =
    let rest = split_dollar s in if c == dollar then ([], rest.0 ∷ rest.1) else (c ∷ rest.0, rest.1)

abbrev pub memory_cost : ℕ
memory_cost = 64 * 1024

abbrev pub iterations : ℕ
iterations = 1

abbrev pub parallelism : ℕ
parallelism = 4

abbrev pub key_length : ℕ
key_length = 32

module _ (c : Crypto) where
  abbrev pub version_text : Bytes
  version_text = codes "v=" ++ c.decimal c.version

  abbrev pub params_text : Bytes
  params_text =
      codes "m="
      ++ (c.decimal memory_cost
          ++ (codes ",t=" ++ (c.decimal iterations ++ (codes ",p=" ++ c.decimal parallelism))))

  -- The format of a stored hash.
  abbrev pub hash_text : Bytes → Bytes → Bytes
  hash_text salt hash =
      dollar
      ∷ (codes "argon2id"
          ++ dollar
            ∷ (version_text
                ++ dollar
                  ∷ (params_text ++ dollar ∷ (c.std_encode salt ++ dollar ∷ c.std_encode hash))))

  -- `HashPassword`, for the salt that crypto/rand gives.
  unfoldable pub hash_password : Option Bytes → Bytes → Option Bytes
  hash_password none password = none
  hash_password (some salt) password =
      some (hash_text salt (c.id_key password salt iterations memory_cost parallelism key_length))

  abbrev verify_key : Bytes → ℕ × ℕ × ℕ → Option Bytes → Option Bytes → Bool
  verify_key password p none hash = false
  verify_key password p (some salt) none = false
  verify_key password p (some salt) (some expected) =
      bytes_eq (c.id_key password salt p.1 p.0 p.2 (length expected % 2 ^ 32)) expected

  abbrev verify_params : Bytes → Option (ℕ × ℕ × ℕ) → Bytes → Bytes → Bool
  verify_params password none salt hash = false
  verify_params password (some p) salt hash =
      verify_key password p (c.std_decode salt) (c.std_decode hash)

  abbrev verify_version : Bytes → Option ℕ → Bytes → Bytes → Bytes → Bool
  verify_version password none params salt hash = false
  verify_version password (some v) params salt hash =
      if v == c.version then verify_params password (c.scan_params params) salt hash else false

  -- Six fields, the first of which is not looked at.
  abbrev verify_fields : Bytes → List Bytes → Bool
  verify_fields password (kind ∷ version ∷ params ∷ salt ∷ hash ∷ []) =
      if bytes_eq kind (codes "argon2id")
      then verify_version password (c.scan_version version) params salt hash
      else false
  verify_fields password _ = false

  -- `VerifyPassword`: whether it returns no error.
  unfoldable pub verify_password : Bytes → Bytes → Bool
  unfolding split_dollar
  verify_password password encoded = verify_fields password (split_dollar encoded).1

  -- `HashSessionToken`, and `NewSessionToken` for the bytes that crypto/rand gives.
  unfoldable pub hash_session_token : Bytes → Bytes
  hash_session_token raw = c.url_encode (c.sha256 raw)

  unfoldable pub new_session_token : Option Bytes → Option (Bytes × Bytes)
  unfolding hash_session_token
  new_session_token none = none
  new_session_token (some b) = some (c.url_encode b, hash_session_token (c.url_encode b))

abbrev pub HasNoDollar : Bytes → Type 0
HasNoDollar s = All (λ c. (c == dollar) ≡ false) s

-- What the parameters are documented to do.
pub record IsDocumented (c : Crypto) : Type 0 where
  pub decode-encode : (b : Bytes) → c.std_decode (c.std_encode b) ≡ some b
  pub scan-version : c.scan_version (version_text c) ≡ some c.version
  pub scan-params : c.scan_params (params_text c) ≡ some (memory_cost, iterations, parallelism)
  pub encode_plain : (b : Bytes) → HasNoDollar (c.std_encode b)
  pub decimal_plain : (n : ℕ) → HasNoDollar (c.decimal n)
  pub key_size :
      (p s : Bytes)
      → length (c.id_key p s iterations memory_cost parallelism key_length) ≡ key_length

split-plain : (s : Bytes) → HasNoDollar s → split_dollar s ≡ (s, [])
unfolding split_dollar
split-plain [] h = refl
split-plain (c ∷ s) (d, h) = rw (split-plain s h, d) refl

split-field :
    (s t : Bytes)
    → HasNoDollar s
    → split_dollar (s ++ dollar ∷ t) ≡ (s, (split_dollar t).0 ∷ (split_dollar t).1)
unfolding split_dollar
split-field [] t h = refl
split-field (c ∷ s) t (d, h) = rw (split-field s t h, d) refl

plain_append : (s t : Bytes) → HasNoDollar s → HasNoDollar t → HasNoDollar (s ++ t)
plain_append s t h k = All-append (λ c. (c == dollar) ≡ false) s t h k

module _ (c : Crypto) (doc : IsDocumented c) where
  version_plain : HasNoDollar (version_text c)
  version_plain =
      plain_append (codes "v=") (c.decimal c.version) (refl, (refl, tt))
        (doc.decimal_plain c.version)

  params_plain : HasNoDollar (params_text c)
  params_plain =
      plain_append (codes "m=") _ (refl, (refl, tt))
        (plain_append (c.decimal memory_cost) _ (doc.decimal_plain memory_cost) (
          plain_append (codes ",t=") _ (refl, (refl, (refl, tt)))
            (plain_append (c.decimal iterations) _ (doc.decimal_plain iterations) (
              plain_append (codes ",p=") _ (refl, (refl, (refl, tt)))
                (doc.decimal_plain parallelism)))))

  hash_fields :
      (salt hash : Bytes)
      → (split_dollar (hash_text c salt hash)).1
        ≡ codes "argon2id"
          ∷ version_text c
          ∷ params_text c
          ∷ c.std_encode salt
          ∷ c.std_encode hash
          ∷ []
  hash_fields salt hash =
      let tail = c.std_encode salt ++ dollar ∷ c.std_encode hash in
      let params = params_text c ++ dollar ∷ tail in
      let version = version_text c ++ dollar ∷ params in
      rw (split-field [] (codes "argon2id" ++ dollar ∷ version) tt) (
        rw
          (split-field (codes "argon2id") version
            (refl, (refl, (refl, (refl, (refl, (refl, (refl, (refl, tt)))))))))
          (rw (split-field (version_text c) params version_plain) (
            rw (split-field (params_text c) tail params_plain) (
              rw (split-field (c.std_encode salt) (c.std_encode hash) (doc.encode_plain salt))
                (rw (split-plain (c.std_encode hash) (doc.encode_plain hash)) refl)))))

  -- What the verification of a fresh hash comes to: a comparison of keys.
  verify-fresh :
      (salt password other : Bytes)
      → let key = c.id_key password salt iterations memory_cost parallelism key_length in
        verify_password c other (hash_text c salt key)
        ≡ bytes_eq (c.id_key other salt iterations memory_cost parallelism key_length) key
  unfolding verify_password bytes_eq
  verify-fresh salt password other =
      let key = c.id_key password salt iterations memory_cost parallelism key_length in
      ap (verify_fields c other) (hash_fields salt key)
      ∙ rw (doc.scan-version) (
          rw (==_refl c.version) (
            rw (doc.scan-params) (
              rw (doc.decode-encode salt, doc.decode-encode key)
                (rw (doc.key_size password salt) refl))))

  -- The hash of a password verifies that password; and another password verifies only if it has the
  -- same key under the hash's salt. The salt is the one that crypto/rand gave, and the parameters do
  -- what is documented of them.
  pub verify-hash :
      (salt password h : Bytes)
      → hash_password c (some salt) password ≡ some h
      → (verify_password c password h ≡ true)
        × ((other : Bytes)
            → verify_password c other h ≡ true
            → c.id_key other salt iterations memory_cost parallelism key_length
              ≡ c.id_key password salt iterations memory_cost parallelism key_length)
  unfolding hash_password
  verify-hash salt password h e =
      let key = c.id_key password salt iterations memory_cost parallelism key_length in
      let same : hash_text c salt key ≡ h = some_inj e in
      (
        subst (λ x. verify_password c password x ≡ true) same
            (verify-fresh salt password password ∙ bytes_eq_refl key),
        λ other v.
            bytes_eq→eq (c.id_key other salt iterations memory_cost parallelism key_length) key (
              sym (verify-fresh salt password other)
              ∙ subst (λ x. verify_password c other x ≡ true) (sym same) v),
      )
    where
      some_inj : {a b : Bytes} → ◌≡◌ {A = Option Bytes} (some a) (some b) → a ≡ b
      some_inj k = cc
