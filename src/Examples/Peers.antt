-- ===== src/Examples/Peers.antt =====
-- The servers of the exit test, seen from an IPv4 address, and two clients of the enrollment socket.
use landscape_openwrt.Base.{
  ◌≡◌, ◌↔◌, refl, [], ◌∷◌, ◌++◌, none, some, All, List, map, after_prefix, if◌then◌else◌, strip,
  Text, codes, ok, raise, value_error, invalid_json, ◌==◌,
}
use landscape_openwrt.Json.{Json, num}
use landscape_openwrt.Script.{Machine, exited, finished}
use landscape_openwrt.Ip.{Ip}
use landscape_openwrt.FlowExit.{remote4}
use landscape_openwrt.FlowExit.Traffic.{request_peer}
use landscape_openwrt.Console.Check.{stream_of}
use landscape_openwrt.Servers.{do_get, echo}
use landscape_openwrt.Servers.Seen.{AreAnswered, SameAddress, request_peer_iff}
use landscape_openwrt.Servers.Enrollment.{IsClient, enroll, recorded, sent, enroll-records}
use landscape_openwrt.Examples.Compositions.{toy_ip}
use landscape_openwrt.Examples.Bench.{bench}

-- The IPv4 address as the servers see it, on a socket for both versions.
abbrev seen : Text
seen = codes "::ffff:" ++ remote4

abbrev mapped_ip : Ip Text Text
mapped_ip = record toy_ip { ipv4_mapped = λ a. after_prefix (codes "::ffff:") a }

-- A machine on which `curl` prints the line of the HTTP server, and every other command that of the UDP
-- client.
abbrev watched : Machine
watched = record bench { run = λ log args input. finished (exited 0) (seen ++ 10 ∷ []) [] }

answered : AreAnswered watched (λ s. s) (λ b. some b) [] remote4 seen
unfolding do_get echo
answered = record {
  tcp = seen ++ 10 ∷ [];
  udp = seen;
  tcp_eq = refl;
  tcp_run = λ log. refl;
  udp_eq = refl;
  udp_run = λ log. refl;
}

line : strip (seen ++ 10 ∷ []) ≡ seen
unfolding strip
line = refl

request_peer_iff_example :
    ((request_peer watched mapped_ip [] remote4 []).0 ≡ ok tt) ↔ SameAddress mapped_ip seen remote4
request_peer_iff_example =
    request_peer_iff watched (λ s. s) (λ b. some b) mapped_ip [] remote4 seen [] answered refl refl
      line

-- Only the digit 1 is read as a number.
abbrev enrolling : Machine
enrolling = record bench {
  loads = λ text. if text == codes "11" then some (num 11) else none;
  dumps = λ j. codes "11";
}

abbrev clients : List (Json × List Text)
clients = (num 11, codes "1" ∷ codes "1" ∷ []) ∷ (num 11, codes "11" ∷ []) ∷ []

clients-AreClients : All (IsClient enrolling) clients
unfolding ◌==◌
clients-AreClients = ((refl, ((_, _, refl), ((_, _, refl), tt))), ((refl, ((_, _, refl), tt)), tt))

refused : enrolling.loads (stream_of (codes "x" ∷ [])) ≡ none
unfolding stream_of ◌==◌
refused = refl

enroll-records_example :
    (enroll enrolling (codes "r") (map (sent enrolling) clients) []
      ≡ (ok tt, recorded enrolling (codes "r") clients []))
    × (enroll enrolling
          (codes "r")
          (map (sent enrolling) clients ++ (codes "x" ∷ []) ∷ (codes "11" ∷ []) ∷ [])
          []
        ≡ (raise (value_error invalid_json), recorded enrolling (codes "r") clients []))
enroll-records_example =
    enroll-records enrolling (codes "r") clients (codes "x" ∷ []) ((codes "11" ∷ []) ∷ []) []
      clients-AreClients refused
