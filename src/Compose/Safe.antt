-- ===== src/Compose/Safe.antt =====
-- What a network has that `validate_network` accepts.
use landscape_openwrt.Ip.{Ip}
use landscape_openwrt.Base.{
  assert-true, ◌≡◌, ap, ◌∙◌, true, false, not, ◌&&◌, List, [], ◌∷◌, ◌++◌, Text, codes, Result, ok,
  >>=-eq-ok, ◌>>=◌, subst, keep, eqb, length,
}
use landscape_openwrt.Base.Dict.{Dict}
use landscape_openwrt.Json.{Json, index, elements}
use landscape_openwrt.Upstreams.Version.{text_at}
use landscape_openwrt.Compose.Network.{
  Family, ipv4, ipv6, prefix_of, ranges_of, is_family, in_ranges, is_host, check_host, check_subnet,
  check_hosts, check_family, validate_network, only_one, is_entry_of, check_mac, endpoint_of,
  address_key,
}
use landscape_openwrt.Compose.Volumes.{resolved_at, is_bool}
use landscape_openwrt.Compose.Asserts.{assert-then, check-then, pair-eq, both_true, eq_false_of_not}

module _ {Net Addr : Type 0} (ip : Ip Net Addr) where
  -- An address that a host of the network may have.
  abbrev pub IsHost : Family → Net → Addr → Type 0
  IsHost family subnet value =
      (is_family family (ip.address_version value) ≡ true)
      × (ip.contains subnet value ≡ true)
      × (is_host ip family subnet value ≡ true)

  check_host-IsHost :
      (family : Family) (subnet : Net) (value : Addr)
      → check_host ip family subnet value ≡ ok tt
      → IsHost family subnet value
  unfolding check_host
  check_host-IsHost family subnet value h =
      let (b, h1) =
        assert-then (is_family family (ip.address_version value) && ip.contains subnet value) _ _
          h in
      let (p, q) = both_true _ _ b in (p, q, assert-true (is_host ip family subnet value) _ h1)

  -- The network and the address that are written in a field.
  abbrev pub network_at : Text → Json → Result Net
  network_at key value = do text ← text_at key value; ip.network text

  abbrev pub address_at : Text → Json → Result Addr
  address_at key value = do text ← text_at key value; ip.address text

  -- The service of the configuration, and the entries of its edge network.
  abbrev pub service_in : Json → Result Json
  service_in config = do
    services ← index config (codes "services")
    index services (codes "openwrt")

  abbrev pub entries_in : Json → Result (List Json)
  entries_in config = do
    networks ← index config (codes "networks")
    edge ← index networks (codes "edge")
    ipam ← index edge (codes "ipam")
    listed ← index ipam (codes "config")
    elements listed

  -- The only entry of this version in the configuration has a private subnet, and its gateway and the
  -- address of the service are hosts of that subnet and differ. All three are those of the environment,
  -- as `ipaddress` compares them.
  pub record IsSafe (family : Family) (config : Json) (resolved : Dict Text) : Type 0 where
    pub subnet_text : Text
    pub subnet : Net
    pub gateway : Addr
    pub address : Addr
    pub service : Json
    pub endpoint : Json
    pub entries : List Json
    pub entry : Json
    pub service_found : service_in config ≡ ok service
    pub endpoint_found : endpoint_of service ≡ ok endpoint
    pub entries_found : entries_in config ≡ ok entries
    pub one_entry : keep (is_entry_of ip family) entries ≡ ok (entry ∷ [])
    pub configured_subnet : Net
    pub configured_gateway : Addr
    pub configured_address : Addr
    pub subnet_configured : network_at (codes "subnet") entry ≡ ok configured_subnet
    pub gateway_configured : address_at (codes "gateway") entry ≡ ok configured_gateway
    pub address_configured : address_at (address_key family) endpoint ≡ ok configured_address
    pub same_subnet : ip.same_network configured_subnet subnet ≡ true
    pub same_gateway : ip.same_address configured_gateway gateway ≡ true
    pub same_address : ip.same_address configured_address address ≡ true
    pub subnet_found : resolved_at resolved (prefix_of family ++ codes "SUBNET") ≡ ok subnet_text
    pub subnet_read : ip.network subnet_text ≡ ok subnet
    pub subnet_version : is_family family (ip.version subnet) ≡ true
    pub private : in_ranges ip subnet (ranges_of family) ≡ ok true
    pub gateway_host : IsHost family subnet gateway
    pub address_host : IsHost family subnet address
    pub differ : ip.same_address gateway address ≡ false

  only_one-eq : (list : List Json) (entry : Json) → only_one list ≡ ok entry → list ≡ entry ∷ []
  only_one-eq [] entry h = cc
  only_one-eq (j ∷ []) entry h = cc
  only_one-eq (j ∷ k ∷ list) entry h = cc

  bind_ok : {A B : Type 0} (r : Result A) (f : A → Result B) (a : A) → r ≡ ok a → (r >>= f) ≡ f a
  bind_ok r f a e = rw e

  check_subnet-inv :
      (family : Family) (resolved : Dict Text) (entries : List Json) (subnet : Net) (entry : Json)
      → check_subnet ip family resolved entries ≡ ok (subnet, entry)
      → (text : Text) × (resolved_at resolved (prefix_of family ++ codes "SUBNET") ≡ ok text)
        × (ip.network text ≡ ok subnet)
        × (is_family family (ip.version subnet) ≡ true)
        × (in_ranges ip subnet (ranges_of family) ≡ ok true)
        × (keep (is_entry_of ip family) entries ≡ ok (entry ∷ []))
        × (actual : Net) × (network_at (codes "subnet") entry ≡ ok actual)
        × (ip.same_network actual subnet ≡ true)
  unfolding check_subnet
  check_subnet-inv family resolved entries subnet entry h =
      let (text, e1, h1) =
        >>=-eq-ok (resolved_at resolved (prefix_of family ++ codes "SUBNET")) _ h in
      let (net, e2, h2) = >>=-eq-ok (ip.network text) _ h1 in
      let (v, h3) = assert-then (is_family family (ip.version net)) _ _ h2 in
      let (private, e3, h4) = >>=-eq-ok (in_ranges ip net (ranges_of family)) _ h3 in
      let (p, h5) = assert-then private _ _ h4 in
      let (matching, e4, h6) = >>=-eq-ok (keep (is_entry_of ip family) entries) _ h5 in
      let (one, e5, h7) = >>=-eq-ok (only_one matching) _ h6 in
      let (found, e6, h8) = >>=-eq-ok (text_at (codes "subnet") one) _ h7 in
      let (actual, e7, h9) = >>=-eq-ok (ip.network found) _ h8 in
      let (s, h10) = assert-then (ip.same_network actual net) _ _ h9 in
      let (same, same_entry) = pair-eq net subnet one entry h10 in
      (
        text,
        e1,
        e2 ∙ ap ok same,
        subst (λ (n : Net). is_family family (ip.version n) ≡ true) same v,
        subst (λ (n : Net). in_ranges ip n (ranges_of family) ≡ ok true) same (e3 ∙ ap ok p),
        e4 ∙ ap ok (only_one-eq matching one e5 ∙ ap (λ (j : Json). j ∷ []) same_entry),
        actual,
        subst (λ (j : Json). network_at (codes "subnet") j ≡ ok actual) same_entry
            (bind_ok (text_at (codes "subnet") one) ip.network found e6 ∙ e7),
        subst (λ (n : Net). ip.same_network actual n ≡ true) same s,
      )

  check_hosts-inv :
      (family : Family) (resolved : Dict Text) (subnet : Net) (gateway address : Addr)
      → check_hosts ip family resolved subnet ≡ ok (gateway, address)
      → IsHost family subnet gateway
        × IsHost family subnet address
        × (ip.same_address gateway address ≡ false)
  unfolding check_hosts
  check_hosts-inv family resolved subnet gateway address h =
      let (t, e1, h1) =
        >>=-eq-ok (resolved_at resolved (prefix_of family ++ codes "GATEWAY")) _ h in
      let (g, e2, h2) = >>=-eq-ok (ip.address t) _ h1 in
      let (t', e3, h3) =
        >>=-eq-ok (resolved_at resolved (prefix_of family ++ codes "ADDRESS")) _ h2 in
      let (a, e4, h4) = >>=-eq-ok (ip.address t') _ h3 in
      let (c, h5) = check-then (check_host ip family subnet g) _ h4 in
      let (c', h6) = check-then (check_host ip family subnet a) _ h5 in
      let (d, h7) = assert-then (not (ip.same_address g a)) _ _ h6 in
      let (same, same') = pair-eq g gateway a address h7 in
      (
        subst (λ (v : Addr). IsHost family subnet v) same (check_host-IsHost family subnet g c),
        subst (λ (v : Addr). IsHost family subnet v) same' (check_host-IsHost family subnet a c'),
        rw (← same, ← same') (eq_false_of_not (ip.same_address g a) d),
      )

  check_family-IsSafe :
      (family : Family) (config service : Json) (entries : List Json) (resolved : Dict Text)
      → service_in config ≡ ok service
      → entries_in config ≡ ok entries
      → check_family ip family service entries resolved ≡ ok tt
      → IsSafe family config resolved
  unfolding check_family
  check_family-IsSafe family config service entries resolved in_config listed h =
      let ((subnet, entry), e, h1) = >>=-eq-ok (check_subnet ip family resolved entries) _ h in
      let ((gateway, address), f, h2) = >>=-eq-ok (check_hosts ip family resolved subnet) _ h1 in
      let (gateway_found, f1, h3) = >>=-eq-ok (text_at (codes "gateway") entry) _ h2 in
      let (gateway_actual, f2, h4) = >>=-eq-ok (ip.address gateway_found) _ h3 in
      let (same_g, h5) = assert-then (ip.same_address gateway_actual gateway) _ _ h4 in
      let (endpoint, f3, h6) = >>=-eq-ok (endpoint_of service) _ h5 in
      let (address_found, f4, h7) = >>=-eq-ok (text_at (address_key family) endpoint) _ h6 in
      let (address_actual, f5, h8) = >>=-eq-ok (ip.address address_found) _ h7 in
      let same_a = assert-true (ip.same_address address_actual address) _ h8 in
      let (text, found, read, version, private, only, actual, written, same_s) =
        check_subnet-inv family resolved entries subnet entry e in
      let (g, a, d) = check_hosts-inv family resolved subnet gateway address f in
      record {
        subnet_text = text;
        subnet = subnet;
        gateway = gateway;
        address = address;
        subnet_found = found;
        subnet_read = read;
        subnet_version = version;
        private = private;
        gateway_host = g;
        address_host = a;
        differ = d;
        service = service;
        endpoint = endpoint;
        entries = entries;
        entry = entry;
        service_found = in_config;
        endpoint_found = f3;
        entries_found = listed;
        one_entry = only;
        configured_subnet = actual;
        configured_gateway = gateway_actual;
        configured_address = address_actual;
        subnet_configured = written;
        gateway_configured =
            bind_ok (text_at (codes "gateway") entry) ip.address gateway_found f1 ∙ f2;
        address_configured =
            bind_ok (text_at (address_key family) endpoint) ip.address address_found f4 ∙ f5;
        same_subnet = same_s;
        same_gateway = same_g;
        same_address = same_a;
      }

  service_in-ok :
      (config services service : Json)
      → index config (codes "services") ≡ ok services
      → index services (codes "openwrt") ≡ ok service
      → service_in config ≡ ok service
  service_in-ok config services service e f = rw (e, f)

  entries_in-ok :
      (config networks edge ipam listed : Json) (entries : List Json)
      → index config (codes "networks") ≡ ok networks
      → index networks (codes "edge") ≡ ok edge
      → index edge (codes "ipam") ≡ ok ipam
      → index ipam (codes "config") ≡ ok listed
      → elements listed ≡ ok entries
      → entries_in config ≡ ok entries
  entries_in-ok config networks edge ipam listed entries e f g h k = rw (e, f, g, h, k)

  -- An accepted configuration is safe for both versions: each has a private subnet, and a gateway and
  -- an address that are hosts of the subnet and differ.
  pub validate_network-IsSafe :
      (config : Json) (resolved : Dict Text)
      → validate_network ip config resolved ≡ ok tt
      → IsSafe ipv4 config resolved × IsSafe ipv6 config resolved
  unfolding validate_network
  validate_network-IsSafe config resolved h =
      let (networks, e1, h1) = >>=-eq-ok (index config (codes "networks")) _ h in
      let (edge, e2, h2) = >>=-eq-ok (index networks (codes "edge")) _ h1 in
      let (enabled, e3, h3) = >>=-eq-ok (index edge (codes "enable_ipv6")) _ h2 in
      let (_, h4) = assert-then (is_bool true enabled) _ _ h3 in
      let (services, e5, h5) = >>=-eq-ok (index config (codes "services")) _ h4 in
      let (service, e6, h6) = >>=-eq-ok (index services (codes "openwrt")) _ h5 in
      let (_, h7) = check-then (check_mac service resolved) _ h6 in
      let (ipam, e8, h8) = >>=-eq-ok (index edge (codes "ipam")) _ h7 in
      let (listed, e9, h9) = >>=-eq-ok (index ipam (codes "config")) _ h8 in
      let (entries, e10, h10) = >>=-eq-ok (elements listed) _ h9 in
      let (_, h11) = assert-then (eqb (length entries) 2) _ _ h10 in
      let (v4, v6) = check-then (check_family ip ipv4 service entries resolved) _ h11 in
      let in_config : service_in config ≡ ok service =
        service_in-ok config services service e5 e6 in
      let listed_eq : entries_in config ≡ ok entries =
        entries_in-ok config networks edge ipam listed entries e1 e2 e8 e9 e10 in
      (
        check_family-IsSafe ipv4 config service entries resolved in_config listed_eq v4,
        check_family-IsSafe ipv6 config service entries resolved in_config listed_eq v6,
      )
