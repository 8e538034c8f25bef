-- ===== src/Examples/Compositions.antt =====
-- A Compose configuration that is accepted.
use landscape_openwrt.Ip.{Ip}
use landscape_openwrt.Base.{none, ℕ, true, [], ◌∷◌, eqb, if◌then◌else◌, Text, codes, ◌==◌, ok}
use landscape_openwrt.Base.Dict
use landscape_openwrt.Base.Dict.{Dict}
use landscape_openwrt.Json.{Json, bool, str, arr, obj, of_dict, of_list}
use landscape_openwrt.Compose.{defaults}

-- Networks and addresses as their texts: a text with a colon is of version 6.
abbrev version_of : Text → ℕ
version_of [] = 4
version_of (c ∷ s) = let rest = version_of s in if eqb c b':' then 6 else rest

abbrev pub toy_ip : Ip Text Text
toy_ip = record {
  network = λ s. ok s;
  address = λ s. ok s;
  version = version_of;
  address_version = version_of;
  subnet_of = λ a b. ok true;
  contains = λ n a. true;
  network_address = λ n. [];
  broadcast_address = λ n. [];
  same_network = λ a b. a == b;
  same_address = λ a b. a == b;
  ipv4_mapped = λ a. none;
}

abbrev object : Dict Json → Json
object d = obj (of_dict d)

abbrev entry : Text → Text → Json
entry subnet gateway = object ((codes "subnet", str subnet) ∷ (codes "gateway", str gateway) ∷ [])

abbrev edge : Json
edge = object (
    (codes "name", str (codes "n"))
    ∷ (codes "enable_ipv6", bool true)
    ∷ (
      codes "ipam",
      object (
          (
            codes "config",
            arr (
                of_list (
                  entry (codes "10.0.0.0/24") (codes "10.0.0.1")
                  ∷ entry (codes "fd66::/64") (codes "fd66::1")
                  ∷ [])),
          )
          ∷ []),
    )
    ∷ (
      codes "driver_opts",
      object (
          (codes "com.docker.network.bridge.gateway_mode_ipv4", str (codes "nat-unprotected"))
          ∷ (codes "com.docker.network.bridge.gateway_mode_ipv6", str (codes "nat-unprotected"))
          ∷ (codes "com.docker.network.bridge.enable_ip_masquerade", str (codes "true"))
          ∷ (codes "com.docker.network.bridge.name", str (codes "br"))
          ∷ []),
    )
    ∷ [])

abbrev endpoint : Json
endpoint = object (
    (codes "mac_address", str (codes "02:aa:bb:cc:dd:01"))
    ∷ (codes "ipv4_address", str (codes "10.0.0.2"))
    ∷ (codes "ipv6_address", str (codes "fd66::2"))
    ∷ [])

abbrev default_values : Dict Text → Dict Json
default_values [] = []
default_values ((key, value) ∷ more) = (key, str value) ∷ default_values more

abbrev mounted : Text → Text → Json
mounted volume target = object (
    (codes "type", str (codes "volume"))
    ∷ (codes "source", str volume)
    ∷ (codes "target", str target)
    ∷ [])

abbrev service : Json
service = object (
    (
      codes "environment",
      object (
          (codes "LAND_ROOT_PASSWORD", str (codes "a$$b"))
          ∷ (codes "TZ", str (codes "UTC"))
          ∷ (codes "LAND_DNS_ADDR", str (codes "1.1.1.1"))
          ∷ default_values defaults),
    )
    ∷ (codes "networks", object ((codes "edge", endpoint) ∷ []))
    ∷ (
      codes "volumes",
      arr (
          of_list (
            object (
              (codes "type", str (codes "bind"))
              ∷ (codes "source", str (codes "/run"))
              ∷ (codes "target", str (codes "/ld_unix_link"))
              ∷ (codes "read_only", bool true)
              ∷ [])
            ∷ mounted (codes "landscape-openwrt-config") (codes "/etc/config")
            ∷ mounted (codes "landscape-openwrt-dropbear") (codes "/etc/dropbear")
            ∷ [])),
    )
    ∷ [])

abbrev pub config : Json
config = object (
    (codes "services", object ((codes "openwrt", service) ∷ []))
    ∷ (codes "networks", object ((codes "edge", edge) ∷ []))
    ∷ (
      codes "volumes",
      object (
          (codes "landscape-openwrt-config", object ((codes "name", str (codes "c")) ∷ []))
          ∷ (codes "landscape-openwrt-dropbear", object ((codes "name", str (codes "d")) ∷ []))
          ∷ []),
    )
    ∷ [])

abbrev pub environment : Dict Text
environment =
    (codes "LAND_ROOT_PASSWORD", codes "a$b")
    ∷ (codes "TZ", codes "UTC")
    ∷ (codes "LAND_DNS_ADDR", codes "1.1.1.1")
    ∷ (codes "EDGE_MAC_ADDRESS", codes "02:AA:BB:CC:DD:01")
    ∷ (codes "EDGE_BRIDGE_NAME", codes "br")
    ∷ (codes "EDGE_NETWORK_NAME", codes "n")
    ∷ (codes "EDGE_IPV4_SUBNET", codes "10.0.0.0/24")
    ∷ (codes "EDGE_IPV4_GATEWAY", codes "10.0.0.1")
    ∷ (codes "EDGE_IPV4_ADDRESS", codes "10.0.0.2")
    ∷ (codes "EDGE_IPV6_SUBNET", codes "fd66::/64")
    ∷ (codes "EDGE_IPV6_GATEWAY", codes "fd66::1")
    ∷ (codes "EDGE_IPV6_ADDRESS", codes "fd66::2")
    ∷ (codes "CONFIG_VOLUME_NAME", codes "c")
    ∷ (codes "DROPBEAR_VOLUME_NAME", codes "d")
    ∷ (codes "LANDSCAPE_SOCKET_DIR", codes "/run")
    ∷ []
