-- ===== src/Compose.antt =====
-- `validate_config` and `validate_network` of scripts/test-compose.py: the tests of a Compose
-- configuration, parsed, against the resolved environment. What a program message is built from is
-- left out of the messages.
pub mod Network
pub mod Volumes
pub mod Asserts
pub mod Safe
pub mod Accepted
pub mod Cases
pub mod Checked
use landscape_openwrt.Ip.{Ip}
use landscape_openwrt.Base.{
  assert, ℕ, Bool, true, false, not, ◌&&◌, ◌||◌, Option, none, some, List, [], ◌∷◌, ◌++◌, all,
  length, eqb, leb, if◌then◌else◌, Text, codes, ◌==◌, is_space, Result, ok, raise, Error,
  assertion_error, key_error, ◌>>=◌, ◌>>◌,
}
use landscape_openwrt.Base.Dict
use landscape_openwrt.Base.Dict.{Dict}
use landscape_openwrt.Json.{Json, bool, str, obj, end, index, get, elements}
use landscape_openwrt.Platform.{Platform}
use landscape_openwrt.Upstreams.Release.{get_or}
use landscape_openwrt.Upstreams.Registry.{has_key, is_text}
use landscape_openwrt.Compose.Network.{validate_network}
use landscape_openwrt.Compose.Volumes.{resolved_at, mounts_of, check_socket, check_volumes}

abbrev pub service_of : Json → Result Json
service_of config = do services ← index config (codes "services"); index services (codes "openwrt")

abbrev pub edge_of : Json → Result Json
edge_of config = do networks ← index config (codes "networks"); index networks (codes "edge")

-- `text.replace('$', '$$')`
unfoldable pub escape : Text → Text
escape [] = []
escape (c ∷ s) = let rest = escape s in if eqb c b'$' then c ∷ c ∷ rest else c ∷ rest

-- `resolved.get(key) or default`
unfoldable pub resolved_or : Dict Text → Text → Text → Text
unfolding Dict.lookup
resolved_or resolved key default = elim (Dict.lookup key resolved) [
  | some (c ∷ s) ↦ c ∷ s
  | some [] ↦ default
  | none ↦ default
]

-- `service['environment'][key] == text`
unfoldable pub check_variable : Json → Text → Text → Text → Result (Unit {0})
check_variable service key text message = do
  environment ← index service (codes "environment")
  value ← index environment key
  assert (is_text (some value) text) message

abbrev mismatch : Text → Text
mismatch key = key ++ codes " interpolation mismatch"

unfoldable pub check_escaped : Json → Dict Text → List Text → Result (Unit {0})
unfolding escape
check_escaped service resolved [] = ok tt
check_escaped service resolved (key ∷ keys) =
    let rest = check_escaped service resolved keys in
    do
      environment ← index service (codes "environment")
      value ← index environment key
      text ← resolved_at resolved key
      assert (is_text (some value) (escape text)) (mismatch key)
      rest

unfoldable pub check_defaults : Json → Dict Text → Dict Text → Result (Unit {0})
unfolding resolved_or
check_defaults service resolved [] = ok tt
check_defaults service resolved ((key, default) ∷ more) =
    let rest = check_defaults service resolved more in
    do check_variable service key (resolved_or resolved key default) (mismatch key); rest

-- `PORT_DEFAULTS` and `HANDLER_DEFAULTS`
abbrev pub defaults : Dict Text
defaults =
    (codes "LUCI_HTTP_PORT", codes "80")
    ∷ (codes "LUCI_HTTPS_PORT", codes "443")
    ∷ (codes "SSH_PORT", codes "22")
    ∷ (codes "LAND_PROXY_SERVER_ADDR", codes "0.0.0.0")
    ∷ (codes "LAND_PROXY_SERVER_ADDR_V6", codes "::")
    ∷ (codes "LAND_PROXY_SERVER_PORT", codes "12345")
    ∷ (codes "LAND_PROXY_HANDLE_MODE", codes "route")
    ∷ (codes "LAND_PROXY_ENABLE_ICMP_PASSTHROUGH", codes "true")
    ∷ (codes "LAND_PROXY_ICMP_MARK_VALUE", codes "2")
    ∷ (codes "LAND_SOCK_PATH", codes "/ld_unix_link")
    ∷ (codes "LAND_REDIRECT_LOG_LEVEL", codes "ERROR")
    ∷ []

abbrev pub log_level_key : Text
log_level_key = codes "LAND_REDIRECT_LOG_LEVEL"

unfoldable pub is_log_level : Text → Bool
is_log_level level =
    level == codes "OFF"
    || level == codes "ERROR"
    || level == codes "WARN"
    || level == codes "INFO"
    || level == codes "DEBUG"
    || level == codes "TRACE"

unfoldable pub check_log_level : Json → Dict Text → Result (Unit {0})
unfolding resolved_or
check_log_level service resolved = do
  assert (is_log_level (resolved_or resolved log_level_key (codes "ERROR")))
      (codes "invalid handler log level")
  check_variable service log_level_key (resolved_or resolved log_level_key (codes "ERROR"))
      (codes "handler log level interpolation mismatch")

-- Nothing of the service is published on the host.
unfoldable pub check_unpublished : Json → Result (Unit {0})
check_unpublished service = do
  ports ← has_key (codes "ports") service
  expose ← if ports then ok false else has_key (codes "expose") service
  assert (not ports && not expose) (codes "native listeners must not be published")
  environment ← index service (codes "environment")
  bound ← has_key (codes "LAN_BIND_IP") environment
  assert (not bound) (codes "host address binding must not return")

-- `set(service['networks']) == {'edge'}`, for networks that are texts.
abbrev pub only_edge : List Json → Bool
only_edge [] = false
only_edge (j ∷ js) = all (λ v. is_text (some v) (codes "edge")) (j ∷ js)

-- `re.search(r'[/:\s]', name)`
abbrev pub has_bad_character : Text → Bool
has_bad_character name = not (all (λ c. not (eqb c b'/' || eqb c b':' || is_space c)) name)

unfoldable pub check_options : Json → Result (Unit {0})
check_options options = do
  v4 ← index options (codes "com.docker.network.bridge.gateway_mode_ipv4")
  assert (is_text (some v4) (codes "nat-unprotected")) []
  v6 ← index options (codes "com.docker.network.bridge.gateway_mode_ipv6")
  assert (is_text (some v6) (codes "nat-unprotected")) []
  masquerade ← index options (codes "com.docker.network.bridge.enable_ip_masquerade")
  assert (is_text (some masquerade) (codes "true")) (codes "outbound NAT must be retained")

module _ (py : Platform) where
  -- A name that Linux takes for a bridge, by its length in bytes.
  abbrev pub is_bridge_length : Text → Bool
  is_bridge_length name =
      not (name == [])
      && leb (length (py.encode name)) 15
      && not (name == codes ".")
      && not (name == codes "..")

  -- The bridge of the configuration equals the resolved name, which takes its place from then on.
  unfoldable pub check_bridge : Json → Dict Text → Result (Unit {0})
  check_bridge options resolved = do
    bridge ← index options (codes "com.docker.network.bridge.name")
    name ← resolved_at resolved (codes "EDGE_BRIDGE_NAME")
    assert (is_text (some bridge) name) (codes "bridge name interpolation mismatch")
    assert (is_bridge_length name) (codes "invalid bridge name length")
    assert (not (has_bad_character name)) (codes "invalid bridge name characters")

  unfoldable pub check_edge : Json → Dict Text → Result (Unit {0})
  check_edge edge resolved = do
    options ← index edge (codes "driver_opts")
    check_options options
    check_bridge options resolved
    name ← index edge (codes "name")
    wanted ← resolved_at resolved (codes "EDGE_NETWORK_NAME")
    assert (is_text (some name) wanted) (codes "network name interpolation mismatch")

  unfoldable pub validate_config :
      {Net Addr : Type 0} → Ip Net Addr → Json → Dict Text → Result (Unit {0})
  validate_config ip config resolved = do
    service ← service_of config
    check_escaped service resolved
        (codes "LAND_ROOT_PASSWORD" ∷ codes "TZ" ∷ codes "LAND_DNS_ADDR" ∷ [])
    check_log_level service resolved
    check_unpublished service
    check_defaults service resolved defaults
    networks ← index service (codes "networks")
    joined ← elements networks
    assert (only_edge joined) (codes "the Flow exit must use one network")
    edge ← edge_of config
    check_edge edge resolved
    mounts ← mounts_of service
    check_socket mounts resolved
    check_volumes config mounts resolved
    validate_network ip config resolved
