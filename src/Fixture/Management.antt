-- ===== src/Fixture/Management.antt =====
-- `setup_client`, `cleanup_client`, `management` and `public_management` of scripts/network-fixture.py.
use landscape_openwrt.Base.{not, none, List, [], ◌∷◌, ◌++◌, Text, codes, words, ◌==◌, assert}
use landscape_openwrt.Action.{pure, lift, ◌>>=◌, ◌>>◌}
use landscape_openwrt.Script.{Script, Machine, has_status, process, note, printed}
use landscape_openwrt.Fixture.{client, client_link, command, commands, inside}

abbrev pub ip_commands : List (List Text)
ip_commands =
    (words "ip netns add" ++ client ∷ [])
    ∷ (words "ip link add" ++ client_link ∷ words "type veth peer name eth0 netns" ++ client ∷ [])
    ∷ (words "ip addr add 10.77.0.1/24 dev" ++ client_link ∷ [])
    ∷ (words "ip -6 addr add fd70:6c61:6e64:77::1/64 dev" ++ client_link ∷ words "nodad")
    ∷ (words "ip link set" ++ client_link ∷ words "up")
    ∷ []

-- The commands in the namespace of the client, behind `ip -n CLIENT`.
abbrev pub client_commands : List (List Text)
client_commands =
    words "link set lo up"
    ∷ words "link set eth0 up"
    ∷ words "addr add 10.77.0.2/24 dev eth0"
    ∷ words "addr add 192.0.2.2/32 dev lo"
    ∷ words "-6 addr add fd70:6c61:6e64:77::2/64 dev eth0 nodad"
    ∷ words "route add default via 10.77.0.1"
    ∷ words "-6 route add default via fd70:6c61:6e64:77::1"
    ∷ []

abbrev pub in_namespace : Text → List (List Text) → List (List Text)
in_namespace name [] = []
in_namespace name (args ∷ more) = (words "ip -n" ++ name ∷ args) ∷ in_namespace name more

-- The three keys of the management ports.
abbrev pub port_key : Text → Text
port_key key = codes "landscape.container." ++ (key ++ codes "_port")

module _ (m : Machine) where
  unfoldable pub setup_client : Script (Unit {0})
  setup_client = do
    commands m ip_commands
    commands m (in_namespace client client_commands)
    command m (words "ip route add 192.0.2.2/32 via 10.77.0.2 dev" ++ client_link ∷ [])
    pure tt

  -- Whether the commands succeed does not count.
  unfoldable pub cleanup_client : Script (Unit {0})
  cleanup_client = do
    process m (words "ip netns del" ++ client ∷ []) none
    process m (words "ip link del" ++ client_link ∷ []) none
    pure tt

  unfoldable pub port_of : Text → Text → Script Text
  port_of name key = inside m name (words "uci get" ++ port_key key ∷ [])

  -- A connection from an address that is not private must be refused, which `curl` tells by 7.
  unfoldable pub refuse_port : Text → Script (Unit {0})
  refuse_port port = do
    (e, _, _) ←
        process m
          (words "ip netns exec"
            ++ client ∷ words "curl --noproxy * --interface 192.0.2.2 --max-time 2"
            ++ (codes "telnet://172.30.80.2:" ++ port) ∷ [])
          none
    lift (assert (has_status 7 e) (codes "Non-private IPv4 source was not rejected"))

  unfoldable pub refuse_ports : List Text → Script (Unit {0})
  refuse_ports [] = pure tt
  refuse_ports (port ∷ more) = do refuse_port port; refuse_ports more

  unfoldable pub management : Text → Script (Unit {0})
  management name = do
    http ← port_of name (codes "http")
    https ← port_of name (codes "https")
    ssh ← port_of name (codes "ssh")
    result ← command m (
        words "ip netns exec"
        ++ client ∷ m.python ∷ words "scripts/test-management.py 172.30.80.2,fd70:6c61:6e64:80::2"
        ++ http ∷ https ∷ ssh ∷ [])
    note (printed result)
    note (printed (codes "PASS: baseline routed IPv4/ULA management without host port publishing"))
    refuse_ports (http ∷ https ∷ ssh ∷ codes "53" ∷ [])
    note (printed (codes "PASS: non-private IPv4 management and DNS rejected"))

  -- A port must not be refused over the public address.
  unfoldable pub reach_port : Text → Text → Text → Script (Unit {0})
  reach_port name address key = do
    port ← port_of name key
    (e, _, _) ←
        process m
          (words "curl --noproxy * -g --max-time 2"
            ++ (codes "telnet://[" ++ (address ++ (codes "]:" ++ port))) ∷ [])
          none
    lift (assert (not (has_status 7 e)) (codes "Public IPv6 management port is still rejected"))

  unfoldable pub public_management : Text → Text → Script (Unit {0})
  public_management name address = do
    enabled ← inside m name (words "uci get firewall.landscape_mgmt6.enabled")
    lift (assert (enabled == codes "0") (codes "landscape_mgmt6 should default to disabled"))
    reach_port name address (codes "http")
    reach_port name address (codes "https")
    reach_port name address (codes "ssh")
    note (
        printed (
          codes
            "PASS: public IPv6 management no longer rejected at any configured port (rule disabled by default)"))
