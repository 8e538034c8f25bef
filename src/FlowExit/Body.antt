-- ===== src/FlowExit/Body.antt =====
-- The `try` block of `main` of scripts/test-flow-exit.py.
use landscape_openwrt.Base.{
  Bool, true, false, Option, none, some, List, [], ◌∷◌, ◌++◌, if◌then◌else◌, Text, codes, words,
  ◌==◌, is_inside, assert, ◌*◌,
}
use landscape_openwrt.Action.{pure, lift, ◌>>=◌, ◌>>◌}
use landscape_openwrt.Script.{
  Log, Exit, Deed, launched, Script, Machine, note, printed, wrote, under, popen, sleep, second,
  read_file,
}
use landscape_openwrt.Ip.{Ip}
use landscape_openwrt.FlowExit.{wan, client, run, inside, uci}
use landscape_openwrt.FlowExit.Topology.{topology, lan_return_path, tagged_redirect}
use landscape_openwrt.FlowExit.Traffic.{expect_peer, requests}
use landscape_openwrt.FlowExit.Config.{exit_config, passwall_values}

abbrev pub started : Deed → List (List Text)
started (launched args) = args ∷ []
started _ = []

-- The processes in the background, the first one first.
unfoldable pub processes_of : Log → List (List Text)
processes_of [] = []
processes_of (d ∷ log) = processes_of log ++ started d

abbrev pub is_running : Option Exit → Bool
is_running none = true
is_running (some e) = false

module _ (m : Machine) (name : Text) where
  abbrev pub root : Text
  root = m.directory

  abbrev pub exit_name : Text
  exit_name = name ++ codes "-exit"

  unfoldable pub start_exit : Script Text
  start_exit = do
    note (wrote (under root (codes "node.json")) (m.dumps (exit_config root m.uuid)))
    image ← run m (words "docker inspect --format" ++ codes "{{.Image}}" ∷ name ∷ [])
    run m (
        words "docker run --detach --name"
        ++ (exit_name
              ∷ words
                  "--network none --no-healthcheck --sysctl net.ipv6.conf.all.disable_ipv6=0 --sysctl net.ipv6.conf.default.disable_ipv6=0 --mount"
            ++ ((codes "type=bind,src=" ++ (root ++ (codes ",dst=" ++ root)))
                  ∷ words "--entrypoint /usr/bin/xray"
                ++ (image ∷ words "run -c" ++ under root (codes "node.json") ∷ []))))
    run m (words "docker inspect --format" ++ codes "{{.State.Pid}}" ∷ exit_name ∷ [])

  -- The logs of the exit are read only for the message of a failure.
  unfoldable pub check_pid : Text → Script (Unit {0})
  check_pid pid =
      if pid == codes "0"
      then (do logs ← run m (words "docker logs" ++ exit_name ∷ []); lift (assert false logs))
      else pure tt

  unfoldable pub check_process : List Text → Script (Unit {0})
  check_process args log =
      (assert (is_running (m.poll log args)) (codes "Isolated WAN process failed to start"), log)

  unfoldable pub check_running : List (List Text) → Script (Unit {0})
  check_running [] = pure tt
  check_running (args ∷ more) = do check_process args; check_running more

  -- The candidate's own traffic is masqueraded outside the LAN interface.
  unfoldable pub check_outbound : {Net Addr : Type 0} → Ip Net Addr → Script (Unit {0})
  check_outbound ip = do
    peer4 ← inside m name (words "curl --noproxy * -fsS --max-time 5 http://203.0.113.2:18081/")
    peer6 ← inside m name (
        words
          "curl --noproxy * --interface fd70:6c61:6e64:80::2 -gfsS --max-time 5 http://[fd70:6c61:6e64:90::2]:18081/")
    expect_peer m ip peer4 (codes "203.0.113.1") peer4
    expect_peer m ip peer6 (codes "fd70:6c61:6e64:90::1") peer6
    note (
        printed (
          codes
            "PASS: actual IPv4 and ULA outbound masquerading preserved outside the LAN interface"))

  -- The process of the candidate's container, whose network others enter.
  abbrev pub in_network : Text → List Text
  in_network pid = words "nsenter --target" ++ pid ∷ words "--net"

  abbrev pub in_client : List Text
  in_client = words "ip netns exec" ++ client ∷ []

  module _ {Net Addr : Type 0} (ip : Ip Net Addr) where
    -- The round of the loop for one address of the node.
    unfoldable pub test_node : Text → Text → Script (Unit {0})
    test_node pid address = do
      uci m name ((codes "landscape_exit.address", address) ∷ [])
      inside m name (words "/etc/init.d/passwall restart")
      sleep m (5 * second)
      rules ← inside m name (words "nft list ruleset")
      lift (
          assert (is_inside (codes "PSW") rules)
            (codes "PassWall did not create transparent proxy rules"))
      requests m ip (in_network pid) (codes "Container localhost")
      requests m ip in_client (codes "Landscape-tagged client")
      note (
          printed (
            codes "PASS: proxy transport to "
            ++ (address ++ codes " with LR-style forwarding and unchanged host NAT")))

    abbrev pub port_of : Text → Script Text
    port_of key =
        inside m name
          (words "uci get" ++ (codes "landscape.container." ++ (key ++ codes "_port")) ∷ [])

    -- Management remains reachable while transparent proxying is enabled.
    unfoldable pub test_management : Script (Unit {0})
    test_management = do
      http ← port_of (codes "http")
      https ← port_of (codes "https")
      ssh ← port_of (codes "ssh")
      result ← run m (
          in_client
          ++ m.python ∷ words "scripts/test-management.py 172.30.80.2,fd70:6c61:6e64:80::2"
          ++ http ∷ https ∷ ssh ∷ [])
      note (printed result)

    unfoldable pub test_proxy : Script (Unit {0})
    test_proxy = do
      pid ← run m (words "docker inspect --format" ++ codes "{{.State.Pid}}" ∷ name ∷ [])
      note (wrote (under root (codes "capture.log")) [])
      popen m (in_network pid ++ words "tcpdump -l -nne -i any -s 128")
      uci m name (passwall_values m.uuid)
      test_node pid (codes "203.0.113.2")
      test_node pid (codes "fd70:6c61:6e64:90::2")
      access ← read_file m (under root (codes "access.log"))
      lift (
          assert (is_inside (codes "203.0.113.1:") access)
            (codes "VLESS node did not observe preserved IPv4 outbound NAT"))
      test_management

    abbrev pub check_started : Script (Unit {0})
    check_started log = check_running (processes_of log) log

    -- The `try` block.
    unfoldable pub body : Script (Unit {0})
    body = do
      pid ← start_exit
      check_pid pid
      topology m pid
      note (wrote (under root (codes "target.log")) [])
      popen m (words "ip netns exec" ++ wan ∷ m.python ∷ words "scripts/exit-target.py serve")
      sleep m (2 * second)
      check_started
      check_outbound ip
      lan_return_path m
      tagged_redirect m name
      test_proxy
