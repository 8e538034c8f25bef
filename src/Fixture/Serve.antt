-- ===== src/Fixture/Serve.antt =====
-- `serve` of scripts/network-fixture.py: what it sets up, and its loop as a step relation.
pub mod Renewal
use landscape_openwrt.Base.{
  ℕ, ◌*◌, ◌≡◌, Bool, true, false, none, some, List, [], ◌∷◌, ◌++◌, Text, codes, words, Error,
  Result, ok, raise,
}
use landscape_openwrt.Action.{pure, ◌>>=◌, ◌>>◌}
use landscape_openwrt.Script.{
  Log, Script, Machine, note, launched, wrote, slept, second, under, read_file, int,
}
use landscape_openwrt.Fixture.{bridge, target, command, commands}
use landscape_openwrt.Fixture.Advert.{Packet, advertisement}
use landscape_openwrt.Fixture.Management.{setup_client}

abbrev add_address : Text → List Text
add_address addr = words "ip -6 addr add" ++ addr ∷ words "dev" ++ bridge ∷ words "nodad"

-- A server of the resolver: address, port and protocol.
abbrev dns_server : Text → Text → List Text
dns_server address protocol = codes "DNSServer" ∷ address ∷ codes "53" ∷ protocol ∷ []

-- The loop: what was done, the packets sent, the last one first, and whether the signal to stop came.
pub record Service : Type 0 where
  pub log : Log
  pub sent : List Packet
  pub stopped : Bool

module _ (m : Machine) where
  unfoldable pub start_service : Text → Script (Unit {0})
  start_service root = do
    note (wrote (under root (codes "network.pid")) (m.show m.pid))
    note (wrote (under root (codes "prefix-stage")) (codes "1"))
    setup_client m
    commands m (
        add_address (codes "fe80::1/64")
        ∷ add_address (codes "2001:db8:80:1::1/64")
        ∷ add_address (codes "2001:db8:80:2::1/64")
        ∷ add_address (target ++ codes "/128")
        ∷ [])
    note (launched (dns_server (codes "172.30.80.1") (codes "udp")))
    note (launched (dns_server (codes "172.30.80.1") (codes "tcp")))
    note (launched (dns_server (codes "fd70:6c61:6e64:80::1") (codes "udp")))
    note (launched (dns_server (codes "fd70:6c61:6e64:80::1") (codes "tcp")))
    note (wrote (under root (codes "network-ready")) [])

  -- `int((root / 'prefix-stage').read_text())`
  abbrev pub HasStage : Text → Log → ℕ → Type 0
  HasStage root log stage =
      (text : Text) × (m.file log (under root (codes "prefix-stage")) ≡ some text)
      × (m.read_int text ≡ some stage)

  -- One step of the service whose interface has the address `mac`: a round of the loop, with a pause of
  -- at most two seconds at its end, or the signal. Without a stage in the file there is no further round.
  pub data Step (root mac : Text) : Service → Service → Type 0 where
    advertise :
        (s : Service) (stage : ℕ)
        → s.stopped ≡ false
        → HasStage root s.log stage
        → Step root mac s (record s {
          log = slept (2 * second) ∷ s.log;
          sent = advertisement m mac stage ∷ s.sent;
        })
    signal : (s : Service) → Step root mac s (record s { stopped = true })

  pub data Reach (root mac : Text) (s : Service) : Service → Type 0 where
    here : Reach root mac s s
    next : {t u : Service} → Reach root mac s t → Step root mac t u → Reach root mac s u
