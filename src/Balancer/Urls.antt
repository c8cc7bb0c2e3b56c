-- ===== src/Balancer/Urls.antt =====
-- The addresses that a backend may have (projects/06-load-balancer/urlutil/urlutil.go), and the two
-- dialers that ask for them again: that of the health checker in balancer/balancer.go and that of the
-- proxy in api/handler.go. Parsing and resolving are arguments, and so is whether a connection is
-- made. An address is a number of 32 bits if it has the form of IPv4, mapped or not, else of 128.
use system_design.Common.{
  ℕ, ◌-◌, ◌*◌, ◌+◌, ◌/◌, ◌^◌, Bool, false, not, ◌&&◌, ◌||◌, List, [], ◌∷◌, Option, none, some, ◌==◌,
  if◌then◌else◌, length, ◌≡◌, subst, Bool-cases, inl, inr, Option-cases,
}
use system_design.Common.Bytes.{Bytes, codes, beq}

pub data Ip : Type 0 where
  v4 : ℕ → Ip
  v6 : ℕ → Ip

-- A network, with the length of its prefix.
pub data Net : Type 0 where
  net4 : ℕ → ℕ → Net
  net6 : ℕ → ℕ → Net

-- IPNet.Contains
unfoldable pub net_contains : Ip → Net → Bool
net_contains (v4 ip) (net4 base len) = ip / 2 ^ (32 - len) == base / 2 ^ (32 - len)
net_contains (v6 ip) (net6 base len) = ip / 2 ^ (128 - len) == base / 2 ^ (128 - len)
net_contains (v4 ip) (net6 base len) = false
net_contains (v6 ip) (net4 base len) = false

abbrev pub ipv4 : ℕ → ℕ → ℕ → ℕ → ℕ
ipv4 a b c d = a * 16777216 + b * 65536 + c * 256 + d

-- An IPv6 address with these first sixteen bits, and nothing else but its last bits.
abbrev pub ipv6 : ℕ → ℕ → ℕ
ipv6 first last = first * 2 ^ 112 + last

abbrev pub denied : List Net
denied =
    net4 (ipv4 127 0 0 0) 8
    ∷ net6 (ipv6 0 1) 128
    ∷ net4 (ipv4 169 254 0 0) 16
    ∷ net6 (ipv6 0xfe80 0) 10
    ∷ net4 (ipv4 10 0 0 0) 8
    ∷ net4 (ipv4 172 16 0 0) 12
    ∷ net4 (ipv4 192 168 0 0) 16
    ∷ net6 (ipv6 0xfc00 0) 7
    ∷ net4 (ipv4 0 0 0 0) 8
    ∷ net4 (ipv4 100 64 0 0) 10
    ∷ net4 (ipv4 192 0 0 0) 24
    ∷ net4 (ipv4 198 18 0 0) 15
    ∷ net4 (ipv4 198 51 100 0) 24
    ∷ net4 (ipv4 203 0 113 0) 24
    ∷ net4 (ipv4 240 0 0 0) 4
    ∷ net4 (ipv4 224 0 0 0) 4
    ∷ net6 (ipv6 0xff00 0) 8
    ∷ []

unfoldable pub in_some : Ip → List Net → Bool
unfolding net_contains
in_some ip [] = false
in_some ip (n ∷ ns) = net_contains ip n || in_some ip ns

unfoldable pub is_denied : Ip → Bool
unfolding in_some
is_denied ip = in_some ip denied

unfoldable pub some_denied : List Ip → Bool
unfolding is_denied
some_denied [] = false
some_denied (ip ∷ ips) = is_denied ip || some_denied ips

pub record Url : Type 0 where
  pub scheme : Bytes
  pub hostname : Bytes

-- Whether the address is accepted.
unfoldable pub validate : (Bytes → Option Url) → (Bytes → Option (List Ip)) → Bytes → Bool
unfolding beq some_denied
validate parse resolve raw = elim (parse raw) [
  | none ↦ false
  | some u ↦
      if not (beq u.scheme (codes "http")) && not (beq u.scheme (codes "https"))
      then false
      else if length u.hostname == 0
      then false
      else elim (resolve u.hostname) [
        | none ↦ false
        | some ips ↦ if length ips == 0 then false else not (some_denied ips)
      ]
]

unfoldable pub first_allowed : List Ip → Option Ip
unfolding is_denied
first_allowed [] = none
first_allowed (ip ∷ ips) = let rest = first_allowed ips in if is_denied ip then rest else some ip

-- The dialer of the proxy: the address that it connects to, none for an error.
unfoldable pub dial_proxy : (Bytes → Option (List Ip)) → Bytes → Option Ip
unfolding first_allowed
dial_proxy resolve host = elim (resolve host) [ none ↦ none | some ips ↦ first_allowed ips ]

unfoldable pub first_of : List Ip → Option Ip
first_of [] = none
first_of (ip ∷ ips) = some ip

-- The dialer of the health checker: it resolves the name, looks at the addresses, and hands the
-- name to net.Dialer, which resolves it again and connects to the first address that answers, here
-- the first.
unfoldable pub dial_health :
    (Bytes → Option (List Ip)) → (Bytes → Option (List Ip)) → Bytes → Option Ip
unfolding some_denied first_of
dial_health resolve resolve_again host = elim (resolve host) [
  | none ↦ none
  | some ips ↦
      if some_denied ips
      then none
      else elim (resolve_again host) [ none ↦ none | some others ↦ first_of others ]
]

first_allowed-is_denied :
    (ips : List Ip) {ip : Ip} → first_allowed ips ≡ some ip → is_denied ip ≡ false
unfolding first_allowed
first_allowed-is_denied [] e = absurd (cc e)
first_allowed-is_denied (i ∷ ips) {ip} e = elim (Bool-cases (is_denied i)) [
  | inl bad ↦ first_allowed-is_denied ips (rw (bad, first_allowed) at e)
  | inr good ↦
      let same : some i ≡ some ip = rw (good, first_allowed) at e in
      subst (λ j. is_denied j ≡ false) {x = i} {y = ip} (cc same) good
]

-- Whatever the name resolves to when the connection is made, the proxy connects to no address of
-- the deny-list.
pub dial_proxy-is_denied :
    (resolve : Bytes → Option (List Ip)) (host : Bytes) {ip : Ip}
    → dial_proxy resolve host ≡ some ip
    → is_denied ip ≡ false
unfolding dial_proxy
dial_proxy-is_denied resolve host e = elim (Option-cases (resolve host)) [
  | inl none_there ↦ absurd (cc (rw (none_there, dial_proxy) at e))
  | inr (ips, there) ↦ first_allowed-is_denied ips (rw (there, dial_proxy) at e)
]
