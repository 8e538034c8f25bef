-- ===== src/FlowExit/Traffic.antt =====
-- `requests` of scripts/test-flow-exit.py.
use landscape_openwrt.Base.{
  List, [], ◌∷◌, ◌++◌, if◌then◌else◌, Text, codes, words, is_inside, assert,
}
use landscape_openwrt.Action.{lift, ◌>>=◌, ◌>>◌}
use landscape_openwrt.Script.{Script, Machine, note, printed}
use landscape_openwrt.Ip.{Ip}
use landscape_openwrt.FlowExit.{remote4, remote6, ip_of, run}

-- `f'[{address}]' if ':' in address else address`
unfoldable pub authority_of : Text → Text
authority_of address =
    if is_inside (codes ":") address then codes "[" ++ (address ++ codes "]") else address

module _ (m : Machine) {Net Addr : Type 0} (ip : Ip Net Addr) where
  -- The peer that was seen must be the remote address itself.
  unfoldable pub expect_peer : Text → Text → Text → Script (Unit {0})
  expect_peer peer address message = do
    seen ← lift (ip_of ip peer)
    wanted ← lift (ip_of ip address)
    lift (assert (ip.same_address seen wanted) message)

  unfoldable pub request_peer : List Text → Text → Script (Unit {0})
  request_peer prefix address = do
    tcp ← run m (
        prefix
        ++ words "curl --noproxy * -gfsS --max-time 10"
        ++ (codes "http://" ++ (authority_of address ++ codes ":18081/")) ∷ [])
    expect_peer tcp address (codes "TCP bypassed the test proxy")
    udp ← run m (prefix ++ m.python ∷ words "scripts/exit-target.py udp" ++ address ∷ [])
    expect_peer udp address (codes "UDP bypassed the test proxy")

  unfoldable pub requests : List Text → Text → Script (Unit {0})
  requests prefix label = do
    request_peer prefix remote4
    request_peer prefix remote6
    note (
        printed (
          codes "PASS: "
          ++ (label
              ++ codes
                  " IPv4/IPv6 TCP and UDP traverse real PassWall and the isolated VLESS exit")))
