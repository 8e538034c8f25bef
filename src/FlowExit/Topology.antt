-- ===== src/FlowExit/Topology.antt =====
-- `topology`, `lan_return_path` and `tagged_redirect` of scripts/test-flow-exit.py.
use landscape_openwrt.Base.{
  ℕ, Bool, false, List, [], ◌∷◌, ◌++◌, eqb, if◌then◌else◌, Text, codes, words, strip, Error,
  index_error, other_error, Result, ok, raise,
}
use landscape_openwrt.Base.{◌>>=◌ as bind}
use landscape_openwrt.Base.Dict.{Dict}
use landscape_openwrt.Json.{Json, num, index, elements, items}
use landscape_openwrt.Action.{pure, lift, ◌>>=◌, ◌>>◌}
use landscape_openwrt.Script.{Script, Machine, read_file, load, int}
use landscape_openwrt.Upstreams.Version.{text_at}
use landscape_openwrt.FlowExit.{
  wan, wan_link, lan_link, client, bridge, remote4, remote6, run, run_all, inside,
}

abbrev pub link_commands : List (List Text)
link_commands =
    (words "ip link add" ++ wan_link ∷ words "type veth peer name eth0 netns" ++ wan ∷ [])
    ∷ (words "ip addr add 203.0.113.1/24 dev" ++ wan_link ∷ [])
    ∷ (words "ip -6 addr add fd70:6c61:6e64:90::1/64 dev" ++ wan_link ∷ words "nodad")
    ∷ (words "ip link set" ++ wan_link ∷ words "up")
    ∷ []

-- The commands in the namespace of the exit, behind `ip -n WAN`.
abbrev pub wan_commands : List (List Text)
wan_commands =
    words "link set lo up"
    ∷ words "link set eth0 up"
    ∷ words "addr add 203.0.113.2/24 dev eth0"
    ∷ words "-6 addr add fd70:6c61:6e64:90::2/64 dev eth0 nodad"
    ∷ (words "addr add" ++ (remote4 ++ codes "/32") ∷ words "dev lo")
    ∷ (words "-6 addr add" ++ (remote6 ++ codes "/128") ∷ words "dev lo nodad")
    ∷ words "route add default via 203.0.113.1"
    ∷ words "-6 route add default via fd70:6c61:6e64:90::1"
    ∷ []

abbrev pub in_wan : List (List Text) → List (List Text)
in_wan [] = []
in_wan (args ∷ more) = (words "ip -n" ++ wan ∷ args) ∷ in_wan more

-- A filter: its priority, protocol and destination.
pub record Filter : Type 0 where
  pub pref : Text
  pub protocol : Text
  pub address : Text

-- `enumerate(((…), (…)), 20)`
abbrev pub filters : Text → Text → List Filter
filters address4 address6 =
    record { pref = codes "20"; protocol = codes "ip"; address = address4 }
    ∷ record { pref = codes "21"; protocol = codes "ipv6"; address = address6 }
    ∷ []

-- The filter rewrites both hardware addresses.
abbrev pub replace_filter : Text → Filter → Text → Text → List Text → List Text
replace_filter dev filter dst src rest =
    words "tc filter replace dev"
    ++ (dev ∷ words "ingress protocol"
        ++ (filter.protocol ∷ codes "pref" ∷ filter.pref ∷ words "flower skip_hw dst_ip"
            ++ (filter.address ∷ words "action pedit ex munge eth dst set"
                ++ (dst ∷ words "munge eth src set" ++ (src ∷ codes "pipe" ∷ rest)))))

abbrev pub redirect_to : Text → List Text
redirect_to dev = words "action mirred egress redirect dev" ++ dev ∷ []

abbrev pub replace_all : Text → Text → Text → List Text → List Filter → List (List Text)
replace_all dev dst src rest [] = []
replace_all dev dst src rest (filter ∷ more) =
    replace_filter dev filter dst src rest ∷ replace_all dev dst src rest more

-- `list[0]` and `next(iterator)`
abbrev pub first_item : Error → List Json → Result Json
first_item e [] = raise e
first_item e (j ∷ js) = ok j

abbrev pub stop_iteration : Error
stop_iteration = other_error (codes "StopIteration")

abbrev pub first_value : Dict Json → Result Json
first_value [] = raise stop_iteration
first_value ((key, value) ∷ more) = ok value

abbrev pub is_number : ℕ → Json → Bool
is_number n (num k) = eqb k n
is_number n j = false

-- The name of the first link with this index.
unfoldable pub link_name : ℕ → List Json → Result Text
link_name n [] = raise stop_iteration
link_name n (link ∷ more) =
    let rest = link_name n more in
    bind (index link (codes "ifindex"))
      λ found. if is_number n found then text_at (codes "ifname") link else rest

abbrev pub address_file : Text → Text
address_file dev = codes "/sys/class/net/" ++ (dev ++ codes "/address")

-- A VLAN tag of Landscape's flow 7, which the route handler must pop.
abbrev pub push_vlan : List Text
push_vlan = words "action vlan push protocol 802.1Q id 3079"

module _ (m : Machine) where
  unfoldable pub topology : Text → Script (Unit {0})
  topology pid = do
    run m (words "ip netns attach" ++ wan ∷ pid ∷ [])
    run_all m link_commands
    run_all m (in_wan wan_commands)
    run m (
        words "ip route add"
        ++ (remote4 ++ codes "/32") ∷ words "via 203.0.113.2 dev"
        ++ wan_link ∷ [])
    run m (
        words "ip -6 route add"
        ++ (remote6 ++ codes "/128") ∷ words "via fd70:6c61:6e64:90::2 dev"
        ++ wan_link ∷ [])
    pure tt

  unfoldable pub lan_return_path : Script (Unit {0})
  lan_return_path = do
    text ← run m (words "ip -n" ++ client ∷ words "-j link show eth0")
    shown ← lift (load m text)
    links ← lift (elements shown)
    link ← lift (first_item index_error links)
    client_mac ← lift (text_at (codes "address") link)
    router ← read_file m (address_file lan_link)
    run m (words "tc qdisc replace dev" ++ lan_link ∷ words "clsact")
    run m (words "tc qdisc replace dev" ++ bridge ∷ words "clsact")
    run_all m (
        replace_all bridge client_mac (strip router) (redirect_to lan_link)
          (filters (codes "10.77.0.2") (codes "fd70:6c61:6e64:77::2")))

  unfoldable pub tagged_redirect : Text → Script (Unit {0})
  tagged_redirect name = do
    text ←
        run m (
          words "docker inspect --format" ++ codes "{{json .NetworkSettings.Networks}}" ∷ name ∷ [])
    shown ← lift (load m text)
    networks ← lift (items shown)
    network ← lift (first_value networks)
    mac ← lift (text_at (codes "MacAddress") network)
    source ← read_file m (address_file bridge)
    iflink ← inside m name (words "cat /sys/class/net/eth0/iflink")
    peer_index ← lift (int m iflink)
    listed ← run m (words "ip -j link show")
    links_shown ← lift (load m listed)
    links ← lift (elements links_shown)
    peer ← lift (link_name peer_index links)
    run_all m (
        replace_all lan_link mac (strip source) (push_vlan ++ redirect_to peer)
          (filters remote4 remote6))
