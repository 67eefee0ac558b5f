-- ===== src/Page/Cursor.antt =====
-- internal/cursor/cursor.go: opaque keyset cursors. The encodings of the standard library and of the
-- uuid package are parameters, with their round trips as laws.
use zymobrew.Base.{
  ℕ, Bool, ◌<◌, ◌^◌, ◌≡◌, refl, ◌≢◌, true, [], ◌∷◌, Option, none, some, arith, Bytes,
}
use zymobrew.Base.Int.{ℤ, pos, negsuc, leb_ℤ, ltb_ℤ}
use zymobrew.Page.Order.{SortKey}

-- What the package takes from encoding/base64, encoding/json, time and uuid.
pub record Encodings : Type 0 where
  pub format_time : ℤ → Bytes  -- time.Time.Format(time.RFC3339Nano)
  pub parse_time : Bytes → Option ℤ  -- time.Parse(time.RFC3339Nano, _)
  pub id_string : ℕ → Bytes  -- uuid.UUID.String
  pub parse_id : Bytes → Option ℕ  -- uuid.Parse
  pub marshal : Bytes × Bytes → Bytes  -- json.Marshal(payload)
  pub unmarshal : Bytes → Option (Bytes × Bytes)  -- json.Unmarshal(_, &payload)
  pub encode_b64 : Bytes → Bytes  -- base64.RawURLEncoding.EncodeToString
  pub decode_b64 : Bytes → Option Bytes  -- base64.RawURLEncoding.DecodeString
  pub is_utf8 : Bytes → Bool  -- utf8.Valid

-- The instants, in microseconds since 1970, with a year of four digits: RFC 3339 has no others.
abbrev pub HasYear : ℤ → Type 0
HasYear t = (leb_ℤ (negsuc 62167219199999999) t ≡ true) × (ltb_ℤ t (pos 253402300800000000) ≡ true)

-- The numbers that 128 bits hold, as those of a UUID.
abbrev pub IsUuid : ℕ → Type 0
IsUuid i = i < 2 ^ 128

-- The documented round trips: JSON keeps what is valid UTF-8, as the texts of a time and of an id are.
-- JSON text and the base64 of a text are not empty.
pub record IsFaithful (e : Encodings) : Type 0 where
  pub time_back : (t : ℤ) → HasYear t → e.parse_time (e.format_time t) ≡ some t
  pub id_back : (i : ℕ) → IsUuid i → e.parse_id (e.id_string i) ≡ some i
  pub time_utf8 : (t : ℤ) → HasYear t → e.is_utf8 (e.format_time t) ≡ true
  pub id_utf8 : (i : ℕ) → IsUuid i → e.is_utf8 (e.id_string i) ≡ true
  pub json_back :
      (p : Bytes × Bytes)
      → e.is_utf8 p.0 ≡ true
      → e.is_utf8 p.1 ≡ true
      → e.unmarshal (e.marshal p) ≡ some p
  pub b64_back : (b : Bytes) → e.decode_b64 (e.encode_b64 b) ≡ some b
  pub json_text : (p : Bytes × Bytes) → e.marshal p ≢ []
  pub b64_text : (b : Bytes) → e.encode_b64 b ≡ [] → b ≡ []

pub data CursorError : Type 0 where
  bad_base64 bad_json bad_timestamp bad_uuid : CursorError

pub data Decoded (K : Type 0) : Type 0 where
  key : K → Decoded K
  invalid : CursorError → Decoded K

-- The zero `time.Time` and `uuid.Nil`: what an empty cursor decodes to.
abbrev pub zero_key : SortKey
zero_key = (negsuc 62135596799999999, 0)

module _ (e : Encodings) where
  unfoldable pub encode : SortKey → Bytes
  encode k = e.encode_b64 (e.marshal (e.format_time k.0, e.id_string k.1))

  unfoldable pub decode_payload : Bytes × Bytes → Decoded SortKey
  decode_payload p = elim (e.parse_time p.0) [
    | none ↦ invalid bad_timestamp
    | some t ↦ elim (e.parse_id p.1) [ none ↦ invalid bad_uuid | some i ↦ key (t, i) ]
  ]

  unfoldable pub decode : Bytes → Decoded SortKey
  unfolding decode_payload
  decode [] = key zero_key
  decode (c ∷ s) = elim (e.decode_b64 (c ∷ s)) [
    | none ↦ invalid bad_base64
    | some raw ↦ elim (e.unmarshal raw) [ none ↦ invalid bad_json | some p ↦ decode_payload p ]
  ]

  module _ (f : IsFaithful e) where
    pub encode-ne-nil : (k : SortKey) → encode k ≢ []
    unfolding encode
    encode-ne-nil k h = f.json_text _ (f.b64_text _ h)

    decode_text :
        (s raw : Bytes) (p : Bytes × Bytes)
        → s ≢ []
        → e.decode_b64 s ≡ some raw
        → e.unmarshal raw ≡ some p
        → decode s ≡ decode_payload p
    unfolding decode
    decode_text [] raw p h _ _ = absurd (h refl)
    decode_text (c ∷ s) raw p _ hb hj = ground arith

    encode_read :
        (k : SortKey)
        → e.decode_b64 (encode k) ≡ some (e.marshal (e.format_time k.0, e.id_string k.1))
    unfolding encode
    encode_read k = f.b64_back _

    -- A cursor decodes to the time and id that it was made of, if the year has four digits and the
    -- encodings have their documented round trips.
    pub decode-encode : (k : SortKey) → HasYear k.0 → IsUuid k.1 → decode (encode k) ≡ key k
    unfolding decode_payload
    decode-encode k h i =
        rw
          (decode_text (encode k) (e.marshal _) (e.format_time k.0, e.id_string k.1)
            (encode-ne-nil k) (encode_read k) (f.json_back _ (f.time_utf8 k.0 h) (f.id_utf8 k.1 i)))
          (rw (f.time_back k.0 h, f.id_back k.1 i, decode_payload))
