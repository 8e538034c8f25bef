-- ===== src/Compose/Network.antt =====
-- `validate_network` of scripts/test-compose.py: the MAC address and the two subnets of the edge
-- network. The module `ipaddress` is a parameter.
use landscape_openwrt.Ip.{Ip}
use landscape_openwrt.Base.{
  assert, ℕ, ◌+◌, ◌-◌, ◌*◌, ◌%◌, Bool, true, false, not, ◌&&◌, ◌||◌, List, [], ◌∷◌, ◌++◌, length,
  map, eqb, leb, if◌then◌else◌, Text, codes, ◌==◌, Result, ok, raise, assertion_error,
  attribute_error, keep, ◌>>=◌, ◌>>◌,
}
use landscape_openwrt.Base.Dict.{Dict}
use landscape_openwrt.Regex.{Regex, one_of, both, fullmatch, literal, times}
use landscape_openwrt.Json.{Json, str, index, elements}
use landscape_openwrt.Upstreams.Version.{text_at}
use landscape_openwrt.Upstreams.Release.{get_or}
use landscape_openwrt.Upstreams.Registry.{has_key}
use landscape_openwrt.Compose.Volumes.{resolved_at, is_bool}

abbrev pub is_hex_digit : ℕ → Bool
is_hex_digit c =
    (leb b'0' c && leb c b'9') || (leb b'A' c && leb c b'F') || (leb b'a' c && leb c b'f')

abbrev pub hex_value : ℕ → ℕ
hex_value c = if leb c b'9' then c - b'0' else if leb c b'F' then c - 55 else c - 87

-- `(?:[0-9A-Fa-f]{2}:){5}[0-9A-Fa-f]{2}`
abbrev pub mac_pattern : Regex
mac_pattern =
    let octet = times 2 (one_of is_hex_digit) in
    both (times 5 (both octet (literal (codes ":")))) octet

-- `bytes.fromhex(mac.replace(':', ''))`, of a text that matches the pattern.
unfoldable pub octets_of : Text → List ℕ
octets_of (a ∷ b ∷ c ∷ s) = (hex_value a * 16 + hex_value b) ∷ octets_of s
octets_of (a ∷ b ∷ []) = (hex_value a * 16 + hex_value b) ∷ []
octets_of s = []

-- `any(octets)`
abbrev pub any_nonzero : List ℕ → Bool
any_nonzero [] = false
any_nonzero (o ∷ os) = not (eqb o 0) || any_nonzero os

-- `not octets[0] & 1`
abbrev pub is_unicast : List ℕ → Bool
is_unicast [] = false
is_unicast (o ∷ os) = eqb (o % 2) 0

abbrev lower_letter : ℕ → ℕ
lower_letter c = if leb b'A' c && leb c b'Z' then c + 32 else c

-- `text.lower()`. Only ASCII counts, as it is compared with hex digits and colons.
abbrev pub lower_text : Json → Result Text
lower_text (str s) = ok (map lower_letter s)
lower_text _ = raise attribute_error

abbrev pub endpoint_of : Json → Result Json
endpoint_of service = do networks ← index service (codes "networks"); index networks (codes "edge")

unfoldable pub check_mac : Json → Dict Text → Result (Unit {0})
unfolding octets_of
check_mac service resolved = do
  endpoint ← endpoint_of service
  mac ← resolved_at resolved (codes "EDGE_MAC_ADDRESS")
  assert (fullmatch mac_pattern mac) (codes "EDGE_MAC_ADDRESS must contain six hex octets")
  assert (any_nonzero (octets_of mac) && is_unicast (octets_of mac))
      (codes "EDGE_MAC_ADDRESS must be a nonzero unicast address")
  found ← get_or endpoint (codes "mac_address") (str [])
  actual ← lower_text found
  assert (actual == map lower_letter mac) (codes "EDGE_MAC_ADDRESS interpolation mismatch")
  outside ← has_key (codes "mac_address") service
  assert (not outside) (codes "MAC must be configured on the network endpoint")

-- A version of the Internet Protocol.
pub data Family : Type 0 where
  ipv4 ipv6 : Family

abbrev pub number_of : Family → ℕ
number_of ipv4 = 4
number_of ipv6 = 6

-- `f'EDGE_IPV{version}_'`
abbrev pub prefix_of : Family → Text
prefix_of ipv4 = codes "EDGE_IPV4_"
prefix_of ipv6 = codes "EDGE_IPV6_"

-- `RFC1918 if version == 4 else (ULA,)`
abbrev pub ranges_of : Family → List Text
ranges_of ipv4 = codes "10.0.0.0/8" ∷ codes "172.16.0.0/12" ∷ codes "192.168.0.0/16" ∷ []
ranges_of ipv6 = codes "fc00::/7" ∷ []

-- `f'ipv{version}_address'`
abbrev pub address_key : Family → Text
address_key ipv4 = codes "ipv4_address"
address_key ipv6 = codes "ipv6_address"

abbrev pub only_one : List Json → Result Json
only_one (entry ∷ []) = ok entry
only_one _ = raise (assertion_error (codes "edge must have one IPAM entry for each version"))

abbrev pub is_family : Family → ℕ → Bool
is_family family n = eqb n (number_of family)

module _ {Net Addr : Type 0} (ip : Ip Net Addr) where
  -- `any(subnet.subnet_of(block) for block in ranges)`
  unfoldable pub in_ranges : Net → List Text → Result Bool
  in_ranges subnet [] = ok false
  in_ranges subnet (range ∷ ranges) =
      let rest = in_ranges subnet ranges in
      do
        block ← ip.network range
        inside ← ip.subnet_of subnet block
        if inside then ok true else rest

  -- The tests of the gateway and of the address of the container.
  abbrev pub is_host : Family → Net → Addr → Bool
  is_host ipv4 subnet value =
      not (ip.same_address value (ip.network_address subnet))
      && not (ip.same_address value (ip.broadcast_address subnet))
  is_host ipv6 subnet value = not (ip.same_address value (ip.network_address subnet))

  unfoldable pub check_host : Family → Net → Addr → Result (Unit {0})
  check_host family subnet value = do
    assert (is_family family (ip.address_version value) && ip.contains subnet value)
        (codes "endpoint must belong to its subnet")
    assert (is_host family subnet value)
        (codes "endpoint must not use the subnet or broadcast address")

  unfoldable pub is_entry_of : Family → Json → Result Bool
  is_entry_of family entry = do
    text ← text_at (codes "subnet") entry
    net ← ip.network text
    ok (is_family family (ip.version net))

  -- The subnet of the environment, in a private range and equal to that of the only entry.
  unfoldable pub check_subnet : Family → Dict Text → List Json → Result (Net × Json)
  check_subnet family resolved entries = do
    text ← resolved_at resolved (prefix_of family ++ codes "SUBNET")
    subnet ← ip.network text
    assert (is_family family (ip.version subnet)) (codes "SUBNET has the wrong address family")
    private ← in_ranges subnet (ranges_of family)
    assert private (codes "SUBNET must be private")
    matching ← keep (is_entry_of family) entries
    entry ← only_one matching
    found ← text_at (codes "subnet") entry
    actual ← ip.network found
    assert (ip.same_network actual subnet) (codes "SUBNET interpolation mismatch")
    ok (subnet, entry)

  -- The gateway and the address of the environment.
  unfoldable pub check_hosts : Family → Dict Text → Net → Result (Addr × Addr)
  check_hosts family resolved subnet = do
    gateway_text ← resolved_at resolved (prefix_of family ++ codes "GATEWAY")
    gateway ← ip.address gateway_text
    address_text ← resolved_at resolved (prefix_of family ++ codes "ADDRESS")
    address ← ip.address address_text
    check_host family subnet gateway
    check_host family subnet address
    assert (not (ip.same_address gateway address))
        (codes "container address must differ from gateway")
    ok (gateway, address)

  -- One round of the loop over the versions.
  unfoldable pub check_family : Family → Json → List Json → Dict Text → Result (Unit {0})
  check_family family service entries resolved = do
    (subnet, entry) ← check_subnet family resolved entries
    (gateway, address) ← check_hosts family resolved subnet
    gateway_found ← text_at (codes "gateway") entry
    gateway_actual ← ip.address gateway_found
    assert (ip.same_address gateway_actual gateway) (codes "GATEWAY interpolation mismatch")
    endpoint ← endpoint_of service
    address_found ← text_at (address_key family) endpoint
    address_actual ← ip.address address_found
    assert (ip.same_address address_actual address) (codes "ADDRESS interpolation mismatch")

  unfoldable pub validate_network : Json → Dict Text → Result (Unit {0})
  validate_network config resolved = do
    networks ← index config (codes "networks")
    edge ← index networks (codes "edge")
    enabled ← index edge (codes "enable_ipv6")
    assert (is_bool true enabled) (codes "edge must support IPv6")
    services ← index config (codes "services")
    service ← index services (codes "openwrt")
    check_mac service resolved
    ipam ← index edge (codes "ipam")
    listed ← index ipam (codes "config")
    entries ← elements listed
    assert (eqb (length entries) 2) (codes "edge must have exactly one subnet per address family")
    check_family ipv4 service entries resolved
    check_family ipv6 service entries resolved
