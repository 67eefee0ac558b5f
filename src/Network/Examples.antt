-- ===== src/Network/Examples.antt =====
-- Addresses, throttles and notification URLs at concrete inputs.
use zymobrew.Base.{
  ℕ, zero, suc, ◌≡◌, refl, ◌⊎◌, inr, Bool, true, false, List, [], ◌∷◌, ◌++◌, Option, none, some,
  Bytes, codes, is_empty, bytes_eq, All, ltb, if◌then◌else◌, ◌==◌,
}
use zymobrew.Base.Int.{ℤ, pos}
use zymobrew.Network.RealIp.{
  Netip, split_commas, chain_of, header_entries, entries_of, is_trusted, walk_xff, real_ip,
  parse_host_port, IsHop, IsStop, walk_xff_unspoofed, real_ip_safe,
}
use zymobrew.Network.RateLimit.{
  Buckets, Entry, Limiter, get, allow, EvictedOnly, IsMap, allow_isolated, bucket_of,
}
use zymobrew.Network.Apprise.{
  Addr, Prefix, Resolver, contains, unmap, validate, is_denied, addresses_of, IsPermitted,
  validate_sound, default_blocked_host_cidrs, check_url, check_host, check_addr, check_resolved,
  check_addrs, blocked_host, denied_webhook_schemes,
}

-- Addresses are bytes from `a`, and a prefix is one address.
toy_addr : Bytes → Option ℕ
toy_addr (c ∷ []) = if ltb c 97 then none else some c
toy_addr _ = none

abbrev toy_netip : Netip ℕ ℕ
toy_netip = record {
  parse_addr = toy_addr;
  contains = λ p a. p == a;
  split_host_port = λ s. some s;
  trim_space = λ s. s;
}

-- The client sends two headers that claim addresses; the proxies add one.
abbrev sent : List Bytes
sent = codes "x,y" ∷ codes "z" ∷ []

shape : chain_of toy_netip (codes "c,p" ∷ []) ≡ codes "c" ∷ codes "p" ∷ []
unfolding chain_of header_entries entries_of split_commas is_empty
shape = refl

hop : All (IsHop toy_netip (b'p' ∷ [])) (codes "p" ∷ [])
unfolding is_trusted toy_addr
hop = ((b'p', refl, refl), tt)

stop : IsStop toy_netip (b'p' ∷ []) b'q' (codes "c") b'c'
unfolding is_trusted toy_addr
stop = inr (refl, refl)

walk_xff_unspoofed_example : walk_xff toy_netip b'q' (b'p' ∷ []) (sent ++ codes "c,p" ∷ []) ≡ b'c'
walk_xff_unspoofed_example =
    walk_xff_unspoofed toy_netip b'q' (b'p' ∷ []) sent (codes "c,p" ∷ []) (codes "c")
      (codes "p" ∷ []) b'c' shape hop stop

peer : parse_host_port toy_netip (codes "p") ≡ some b'p'
unfolding parse_host_port toy_addr
peer = refl

real_ip_safe_example :
    (real_ip toy_netip (b'p' ∷ []) (codes "p") (codes "c,p" ∷ []) ≡ some b'p')
    ⊎ (a : ℕ) × (real_ip toy_netip (b'p' ∷ []) (codes "p") (codes "c,p" ∷ []) ≡ some a)
      × (is_trusted toy_netip (b'p' ∷ []) b'p' ≡ true)
      × (is_trusted toy_netip (b'p' ∷ []) a ≡ false)
real_ip_safe_example = real_ip_safe toy_netip (b'p' ∷ []) (codes "p") (codes "c,p" ∷ []) b'p' peer

-- A bucket is the number of its tokens, never refilled.
take_token : ℕ → ℤ → Bool × ℕ
take_token zero now = (false, zero)
take_token (suc n) now = (true, n)

abbrev tokens : Buckets ℕ
tokens = record { new_limiter = 5; allow_one = take_token }

abbrev throttle : Limiter ℕ
throttle = record {
  buckets =
      (codes "a", record { limiter = 2; last_seen = pos 100 })
      ∷ (codes "b", record { limiter = 0; last_seen = pos 900 })
      ∷ [];
  idle_ttl = 300;
  last_eviction = pos 0;
}

throttle-IsMap : IsMap tokens throttle.buckets
unfolding bytes_eq
throttle-IsMap = ((refl, tt), (tt, tt))

apart : bytes_eq (codes "b") (codes "a") ≡ false
unfolding bytes_eq
apart = refl

allow_isolated_example :
    EvictedOnly tokens
      (pos 1000)
      throttle
      (get (codes "a") throttle.buckets)
      (get (codes "a") (allow tokens (codes "b") (pos 1000) throttle).1.buckets)
    × ((o : Option (Entry ℕ)) × EvictedOnly tokens
          (pos 1000)
          throttle
          (get (codes "b") throttle.buckets)
          o
        × ((allow tokens (codes "b") (pos 1000) throttle).0
            ≡ (take_token (bucket_of tokens o) (pos 1000)).0)
        × (get (codes "b") (allow tokens (codes "b") (pos 1000) throttle).1.buckets
            ≡ some record {
              limiter = (take_token (bucket_of tokens o) (pos 1000)).1;
              last_seen = pos 1000;
            }))
allow_isolated_example =
    allow_isolated tokens (codes "b") (codes "a") (pos 1000) throttle throttle-IsMap apart

abbrev address : ℕ → Addr
address n = record { is_4 = true; value = n; zone = [] }

-- The only name that resolves, to 93.184.216.34 and to 10.0.0.7.
abbrev names : Resolver
names = record {
  parse_url = λ s. some (codes "mailtos", s);
  parse_addr = λ s. none;
  lookup_ip = λ s. some ((true, 1572395042) ∷ (true, 167772167) ∷ []);
}

-- 10.0.0.0/8
abbrev inside : Prefix
inside = record { addr = address 167772160; bits = 8 }

refused_inside : validate false [] names (codes "mail") ≡ some blocked_host
unfolding validate check_url check_host check_resolved check_addrs check_addr contains
    default_blocked_host_cidrs is_denied is_empty unmap denied_webhook_schemes bytes_eq
refused_inside = refl

accepted_inside : validate false (inside ∷ []) names (codes "mail") ≡ none
unfolding validate check_url check_host check_resolved check_addrs check_addr contains
    default_blocked_host_cidrs is_denied is_empty unmap denied_webhook_schemes bytes_eq
accepted_inside = refl

validate_sound_example :
    ((is_denied false (inside ∷ []) names (codes "mailtos") ≡ false) ⊎ (false ≡ true))
    × ((is_empty (codes "mail") ≡ true)
        ⊎ All
            (IsPermitted false (inside ∷ []) names)
            (addresses_of false (inside ∷ []) names (codes "mail")))
validate_sound_example =
    validate_sound false (inside ∷ []) names (codes "mail") (codes "mailtos") (codes "mail") refl
      accepted_inside
