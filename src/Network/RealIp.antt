-- ===== src/Network/RealIp.antt =====
-- The client's address behind trusted proxies: internal/server/realip.go.
use zymobrew.Base.{
  ◌≡◌, refl, sym, ◌∙◌, ap, ◌⊎◌, inl, inr, Bool, true, false, ◌&&◌, not, List, [], ◌∷◌, ◌++◌,
  append_assoc, Option, none, some, Bytes, any, All, is_empty, ◌==◌, if◌then◌else◌, Bool-cases,
  Option-cases, and_right,
}

-- What the file takes from net, net/netip and strings.
pub record Netip (Addr : Type 0) (Prefix : Type 0) : Type 0 where
  pub parse_addr : Bytes → Option Addr  -- netip.ParseAddr
  pub contains : Prefix → Addr → Bool  -- netip.Prefix.Contains
  pub split_host_port : Bytes → Option Bytes  -- the host of net.SplitHostPort
  pub trim_space : Bytes → Bytes  -- strings.TrimSpace

-- `strings.Split(_, ",")`: the field that was begun, and the rest.
unfoldable pub split_commas : Bytes → Bytes × List Bytes
split_commas [] = ([], [])
split_commas (c ∷ s) =
    let (field, fields) = split_commas s in
    if c == b',' then ([], field ∷ fields) else (c ∷ field, fields)

unfoldable pub reverse_onto : {A : Type 0} → List A → List A → List A
reverse_onto back [] = back
reverse_onto back (x ∷ xs) = reverse_onto (x ∷ back) xs

module _ {Addr Prefix : Type 0} (n : Netip Addr Prefix) where
  -- The entries of one header value: trimmed, without the empty ones.
  unfoldable pub entries_of : List Bytes → List Bytes
  entries_of [] = []
  entries_of (field ∷ fields) =
      if is_empty (n.trim_space field)
      then entries_of fields
      else n.trim_space field ∷ entries_of fields

  unfoldable pub header_entries : Bytes → List Bytes
  unfolding entries_of split_commas
  header_entries h = let (field, fields) = split_commas h in entries_of (field ∷ fields)

  unfoldable pub chain_of : List Bytes → List Bytes
  unfolding header_entries
  chain_of [] = []
  chain_of (h ∷ headers) = header_entries h ++ chain_of headers

  unfoldable pub is_trusted : List Prefix → Addr → Bool
  is_trusted trusted addr = any (λ p. n.contains p addr) trusted

  module _ (peer : Addr) (trusted : List Prefix) where
    -- The loop, over the chain from its right end.
    unfoldable pub walk_back : List Bytes → Addr
    unfolding is_trusted
    walk_back [] = peer
    walk_back (entry ∷ before) =
        let onward = walk_back before in
        elim (n.parse_addr entry) [
          | none ↦ peer
          | some addr ↦ if is_trusted trusted addr then onward else addr
        ]

    unfoldable pub walk_xff : List Bytes → Addr
    unfolding walk_back chain_of reverse_onto
    walk_xff headers = walk_back (reverse_onto [] (chain_of headers))

  -- `parseHostPort`
  unfoldable pub parse_host_port : Bytes → Option Addr
  parse_host_port remote = elim (n.split_host_port remote) [
    | none ↦ n.parse_addr remote
    | some host ↦ n.parse_addr host
  ]

  abbrev pub is_nil : List Prefix → Bool
  is_nil [] = true
  is_nil (p ∷ ps) = false

  -- The address that the middleware puts into the request's context, `none` where it passes the
  -- request on as it is.
  unfoldable pub real_ip : List Prefix → Bytes → List Bytes → Option Addr
  unfolding parse_host_port walk_xff is_trusted
  real_ip trusted remote headers = elim (parse_host_port remote) [
    | none ↦ none
    | some peer ↦ some (
        if not (is_nil trusted) && is_trusted trusted peer
        then walk_xff peer trusted headers
        else peer)
  ]

  reverse_onto-append :
      {A : Type 0} (back xs ys : List A)
      → reverse_onto back (xs ++ ys) ≡ reverse_onto (reverse_onto back xs) ys
  unfolding reverse_onto
  reverse_onto-append back [] ys = refl
  reverse_onto-append back (x ∷ xs) ys = reverse_onto-append (x ∷ back) xs ys

  chain_of-append : (xs ys : List Bytes) → chain_of (xs ++ ys) ≡ chain_of xs ++ chain_of ys
  unfolding chain_of
  chain_of-append [] ys = refl
  chain_of-append (h ∷ xs) ys =
      ap (λ (c : List Bytes). header_entries h ++ c) (chain_of-append xs ys)
      ∙ sym (append_assoc (header_entries h) (chain_of xs) (chain_of ys))

  -- An entry that names a trusted proxy, and one at which the walk ends.
  abbrev pub IsHop : List Prefix → Bytes → Type 0
  IsHop trusted entry = (a : Addr) × (n.parse_addr entry ≡ some a) × (is_trusted trusted a ≡ true)

  abbrev pub IsStop : List Prefix → Addr → Bytes → Addr → Type 0
  IsStop trusted peer entry out =
      (n.parse_addr entry ≡ none) × (out ≡ peer)
      ⊎ (n.parse_addr entry ≡ some out) × (is_trusted trusted out ≡ false)

  module _ (peer : Addr) (trusted : List Prefix) where
    walk_back-hops :
        (back hops : List Bytes)
        → All (IsHop trusted) hops
        → walk_back peer trusted (reverse_onto back hops) ≡ walk_back peer trusted back
    unfolding reverse_onto walk_back
    walk_back-hops back [] h = refl
    walk_back-hops back (e ∷ hops) ((a, parsed, trust), h) =
        walk_back-hops (e ∷ back) hops h ∙ rw (parsed, walk_back) (rw (trust))

    walk_back-stop :
        (back : List Bytes) (entry : Bytes) (out : Addr)
        → IsStop trusted peer entry out
        → walk_back peer trusted (entry ∷ back) ≡ out
    unfolding walk_back
    walk_back-stop back entry out (inl (e, same)) = rw (e, walk_back) (sym same)
    walk_back-stop back entry out (inr (e, t)) = rw (e, walk_back) (rw t)

    -- A client cannot choose its address: whatever headers it sends, if those that the proxies add
    -- list an entry that is no trusted proxy, followed by trusted proxies only, the address is that
    -- entry's, or the peer's if the entry is malformed.
    pub walk_xff_unspoofed :
        (sent added : List Bytes) (entry : Bytes) (hops : List Bytes) (out : Addr)
        → chain_of added ≡ entry ∷ hops
        → All (IsHop trusted) hops
        → IsStop trusted peer entry out
        → walk_xff peer trusted (sent ++ added) ≡ out
    unfolding walk_xff
    walk_xff_unspoofed sent added entry hops out shape trust stop =
        ap (λ (c : List Bytes). walk_back peer trusted (reverse_onto [] c))
          (chain_of-append sent added ∙ ap (λ (c : List Bytes). chain_of sent ++ c) shape)
        ∙ ap (walk_back peer trusted) (reverse_onto-append [] (chain_of sent) (entry ∷ hops))
        ∙ walk_back-hops (entry ∷ reverse_onto [] (chain_of sent)) hops trust
        ∙ walk_back-stop (reverse_onto [] (chain_of sent)) entry out stop

    walk_back-untrusted :
        (back : List Bytes)
        → (walk_back peer trusted back ≡ peer)
          ⊎ (is_trusted trusted (walk_back peer trusted back) ≡ false)
    unfolding walk_back
    walk_back-untrusted [] = inl refl
    walk_back-untrusted (entry ∷ back) = elim (Option-cases (n.parse_addr entry)) [
      | inl e ↦ inl (rw (e, walk_back))
      | inr (a, e) ↦ elim (Bool-cases (is_trusted trusted a)) [
        | inl t ↦ rw (e, walk_back) (rw t (walk_back-untrusted back))
        | inr t ↦ rw (e, walk_back) (rw t (inr t))
      ]
    ]

  -- The resolved address is the peer's, or, if the peer is a trusted proxy, one that is no trusted
  -- proxy: whatever the headers, a request never passes for one of the proxies beyond its peer.
  pub real_ip_safe :
      (trusted : List Prefix) (remote : Bytes) (headers : List Bytes) (peer : Addr)
      → parse_host_port remote ≡ some peer
      → (real_ip trusted remote headers ≡ some peer)
        ⊎ (a : Addr) × (real_ip trusted remote headers ≡ some a)
          × (is_trusted trusted peer ≡ true)
          × (is_trusted trusted a ≡ false)
  unfolding real_ip walk_xff
  real_ip_safe trusted remote headers peer e =
      elim (Bool-cases (not (is_nil trusted) && is_trusted trusted peer)) [
        | inr h ↦ inl (rw (e, real_ip) (rw h))
        | inl h ↦ elim (walk_back-untrusted peer trusted (reverse_onto [] (chain_of headers))) [
          | inl same ↦ inl (rw (e, real_ip) (rw (h, same)))
          | inr away ↦ inr (
            walk_back peer trusted (reverse_onto [] (chain_of headers)),
            rw (e, real_ip) (rw h),
            and_right _ _ h,
            away,
          )
        ]
      ]
