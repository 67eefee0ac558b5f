-- ===== src/Network/Apprise.antt =====
-- The policy on notification URLs: internal/apprise/validator.go.
use zymobrew.Base.{
  ℕ, ◌+◌, ◌-◌, ◌*◌, ◌^◌, ◌/◌, ◌≡◌, refl, sym, ◌⊎◌, inl, inr, Bool, true, false, ◌&&◌, not, List, [],
  ◌∷◌, Option, none, some, Bytes, codes, bytes_eq, length, any, All, is_empty, ltb, ◌==◌,
  if◌then◌else◌, if_rule, map, arith, Bool-cases, Option-cases, none-ne-some,
}

-- netip.Addr and netip.Prefix: a value of 32 or 128 bits.
pub record Addr : Type 0 where
  pub is_4 : Bool
  pub value : ℕ
  pub zone : Bytes

pub record Prefix : Type 0 where
  pub addr : Addr
  pub bits : ℕ

abbrev pub width : Bool → ℕ
width true = 32
width false = 128

abbrev pub same_family : Bool → Bool → Bool
same_family true b = b
same_family false b = not b

-- `netip.Prefix.Contains`: the leading bits agree; an address with a zone is in no prefix.
unfoldable pub contains : Prefix → Addr → Bool
unfolding is_empty
contains p a =
    is_empty a.zone
    && same_family p.addr.is_4 a.is_4
    && a.value / 2 ^ (width a.is_4 - p.bits) == p.addr.value / 2 ^ (width a.is_4 - p.bits)

-- `Addr.Unmap`: an IPv4 address in IPv6 form (::ffff:0:0/96) as an IPv4 address.
unfoldable pub unmap : Addr → Addr
unmap a =
    if not a.is_4 && a.value / 2 ^ 32 == 65535
    then record { is_4 = true; value = a.value - 65535 * 2 ^ 32; zone = [] }
    else a

abbrev pub v4 : ℕ → ℕ → ℕ → ℕ → ℕ → Prefix
v4 a b c d bits = record {
  addr = record { is_4 = true; value = ((a * 256 + b) * 256 + c) * 256 + d; zone = [] };
  bits = bits;
}

abbrev pub v6 : ℕ → ℕ → ℕ → Prefix
v6 high low bits = record {
  addr = record { is_4 = false; value = high * 2 ^ 96 + low; zone = [] };
  bits = bits;
}

-- `defaultBlockedHostCIDRs`; an IPv6 prefix is given by its first and its last 32 bits.
unfoldable pub default_blocked_host_cidrs : List Prefix
default_blocked_host_cidrs =
    v4 0 0 0 0 8
    ∷ v4 10 0 0 0 8
    ∷ v4 100 64 0 0 10
    ∷ v4 127 0 0 0 8
    ∷ v4 169 254 0 0 16
    ∷ v4 172 16 0 0 12
    ∷ v4 192 0 0 0 24
    ∷ v4 192 0 2 0 24
    ∷ v4 192 168 0 0 16
    ∷ v4 198 18 0 0 15
    ∷ v4 198 51 100 0 24
    ∷ v4 203 0 113 0 24
    ∷ v4 224 0 0 0 4
    ∷ v4 240 0 0 0 4
    ∷ v4 255 255 255 255 32
    ∷ v6 0 0 128
    ∷ v6 0 1 128
    ∷ v6 6619035 0 96
    ∷ v6 16777216 0 64
    ∷ v6 536939960 0 32
    ∷ v6 4227858432 0 7
    ∷ v6 4269801472 0 10
    ∷ v6 4278190080 0 8
    ∷ []

unfoldable pub denied_webhook_schemes : List Bytes
denied_webhook_schemes =
    codes "http"
    ∷ codes "https"
    ∷ codes "json"
    ∷ codes "jsons"
    ∷ codes "xml"
    ∷ codes "xmls"
    ∷ codes "form"
    ∷ codes "forms"
    ∷ []

abbrev pub max_url_length : ℕ
max_url_length = 2048

-- What the file takes from net/url, strings, net/netip and net: the scheme in lower case and the
-- host of a parsed URL, the parsed address, and the addresses that a name resolves to, each as 4 or 16
-- bytes: whether it has 4, and their value.
pub record Resolver : Type 0 where
  pub parse_url : Bytes → Option (Bytes × Bytes)
  pub parse_addr : Bytes → Option Addr
  pub lookup_ip : Bytes → Option (List (Bool × ℕ))

-- `netip.AddrFromSlice`, which knows no zone; `LookupIP` answers with slices of 4 or 16 bytes only.
abbrev pub addr_from_slice : Bool × ℕ → Addr
addr_from_slice ip = record { is_4 = ip.0; value = ip.1; zone = [] }

pub data Refusal : Type 0 where
  too_long unparsable no_scheme webhook_scheme zoned_host blocked_host : Refusal

module _ (allow_webhook_schemes : Bool) (allowed_host_cidrs : List Prefix) (net : Resolver) where
  unfoldable pub check_addr : Addr → Option Refusal
  check_addr a =
      if any (λ p. contains p a) allowed_host_cidrs
      then none
      else if any (λ p. contains p a) default_blocked_host_cidrs
      then some blocked_host
      else none

  unfoldable pub check_addrs : List (Bool × ℕ) → Option Refusal
  unfolding check_addr unmap
  check_addrs [] = none
  check_addrs (ip ∷ ips) =
      let rest = check_addrs ips in
      elim (check_addr (unmap (addr_from_slice ip))) [ none ↦ rest | some e ↦ some e ]

  unfoldable pub check_literal : Addr → Option Refusal
  unfolding check_addr unmap
  check_literal a = if is_empty a.zone then check_addr (unmap a) else some zoned_host

  -- A name that does not resolve is let through.
  unfoldable pub check_resolved : Option (List (Bool × ℕ)) → Option Refusal
  unfolding check_addrs
  check_resolved none = none
  check_resolved (some ips) = check_addrs ips

  unfoldable pub check_host : Bytes → Option Refusal
  unfolding check_literal check_resolved
  check_host host = elim (net.parse_addr host) [
    | some a ↦ check_literal a
    | none ↦ check_resolved (net.lookup_ip host)
  ]

  unfoldable pub is_denied : Bytes → Bool
  unfolding denied_webhook_schemes bytes_eq
  is_denied scheme = any (bytes_eq scheme) denied_webhook_schemes

  unfoldable pub check_url : Bytes → Bytes → Option Refusal
  unfolding is_denied check_host
  check_url scheme host =
      if is_empty scheme
      then some no_scheme
      else if is_denied scheme && not allow_webhook_schemes
      then some webhook_scheme
      else if is_empty host
      then none
      else check_host host

  -- `Validate`: `none` if the URL is accepted.
  unfoldable pub validate : Bytes → Option Refusal
  unfolding check_url
  validate raw =
      if ltb max_url_length (length raw)
      then some too_long
      else elim (net.parse_url raw) [ none ↦ some unparsable | some u ↦ check_url u.0 u.1 ]

  -- The addresses that a host stands for: its own as a literal, else those that it resolves to.
  unfoldable pub addresses_of : Bytes → List Addr
  addresses_of host = elim (net.parse_addr host) [
    | some a ↦ a ∷ []
    | none ↦ elim (net.lookup_ip host) [ none ↦ [] | some ips ↦ map addr_from_slice ips ]
  ]

  -- An address without a zone, that the operator has allowed or that is in none of the blocked ranges.
  abbrev pub IsPermitted : Addr → Type 0
  IsPermitted a =
      (is_empty a.zone ≡ true)
      × ((any (λ p. contains p (unmap a)) allowed_host_cidrs ≡ true)
          ⊎ (any (λ p. contains p (unmap a)) default_blocked_host_cidrs ≡ false))

  check_addr-IsPermitted :
      (a : Addr) → is_empty a.zone ≡ true → check_addr (unmap a) ≡ none → IsPermitted a
  unfolding check_addr
  check_addr-IsPermitted a z h = (
    z,
    elim (Bool-cases (any (λ p. contains p (unmap a)) allowed_host_cidrs)) [
      | inl e ↦ inl e
      | inr e ↦ elim (Bool-cases (any (λ p. contains p (unmap a)) default_blocked_host_cidrs)) [
        | inr f ↦ inr f
        | inl f ↦ absurd (none-ne-some (sym (rw (e, f) at h)))
      ]
    ],
  )

  check_addrs-IsPermitted :
      (ips : List (Bool × ℕ)) → check_addrs ips ≡ none → All IsPermitted (map addr_from_slice ips)
  unfolding check_addrs
  check_addrs-IsPermitted [] h = tt
  check_addrs-IsPermitted (ip ∷ ips) h =
      elim (Option-cases (check_addr (unmap (addr_from_slice ip)))) [
        | inl e ↦ (
          check_addr-IsPermitted (addr_from_slice ip) (unfold is_empty in refl) e,
          check_addrs-IsPermitted ips (rw (e, check_addrs) at h),
        )
        | inr (r, e) ↦ absurd (none-ne-some (sym (rw (e, check_addrs) at h)))
      ]

  check_host-IsPermitted :
      (host : Bytes) → check_host host ≡ none → All IsPermitted (addresses_of host)
  unfolding check_host addresses_of check_literal check_resolved
  check_host-IsPermitted host h = elim (Option-cases (net.parse_addr host)) [
    | inr (a, e) ↦ elim (Bool-cases (is_empty a.zone)) [
      | inl z ↦
          rw (e, addresses_of)
            (check_addr-IsPermitted a z (rw (z) at (rw (e, check_host) at h)), tt)
      | inr z ↦ absurd (none-ne-some (sym (rw (z) at (rw (e, check_host) at h))))
    ]
    | inl e ↦ elim (Option-cases (net.lookup_ip host)) [
      | inl f ↦ rw (e, f, addresses_of) tt
      | inr (ips, f) ↦
          rw (e, f, addresses_of) (check_addrs-IsPermitted ips (rw (e, f, check_host) at h))
    ]
  ]

  -- Where a URL is accepted, its scheme is not one of the generic webhooks unless the operator allows
  -- them, and each address that its host stands for, if it has a host, has no IPv6 zone, and is one that
  -- the operator allows or lies in none of the blocked ranges, also as an IPv4 address in IPv6 form.
  pub validate_sound :
      (raw scheme host : Bytes)
      → net.parse_url raw ≡ some (scheme, host)
      → validate raw ≡ none
      → ((is_denied scheme ≡ false) ⊎ (allow_webhook_schemes ≡ true))
        × ((is_empty host ≡ true) ⊎ All IsPermitted (addresses_of host))
  unfolding validate check_url
  validate_sound raw scheme host parsed h =
      if_rule (λ v. v ≡ none → Sound) (ltb max_url_length (length raw)) _ _ (λ _ x. absurd (cc x))
        (λ _ v.
          if_rule (λ v. v ≡ none → Sound) (is_empty scheme) _ _ (λ _ x. absurd (cc x))
            (λ _.
              if_rule (λ v. v ≡ none → Sound) (is_denied scheme && not allow_webhook_schemes) _ _
                (λ _ x. absurd (cc x))
                (λ d.
                  if_rule (λ v. v ≡ none → Sound) (is_empty host) _ _
                    (λ e _. (ground (arith, d), inl e))
                    (λ _ x. (ground (arith, d), inr (check_host-IsPermitted host x)))))
            v)
        (rw (parsed, validate) at h)
    where
      Sound : Type 0
      Sound =
          ((is_denied scheme ≡ false) ⊎ (allow_webhook_schemes ≡ true))
          × ((is_empty host ≡ true) ⊎ All IsPermitted (addresses_of host))
