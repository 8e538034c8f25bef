-- ===== src/Fixture/Main.antt =====
-- `check` and the command line of scripts/network-fixture.py, and the service of `serve`.
use landscape_openwrt.Base.{
  ◌&&◌, none, some, List, [], ◌∷◌, ◌++◌, Option, if◌then◌else◌, Text, codes, words, ◌==◌, is_inside,
  assert, ℕ, Result, ok, raise, Error, other_error, index_error, value_error, unknown_mode,
}
use landscape_openwrt.Action.{pure, lift, ◌>>=◌, ◌>>◌}
use landscape_openwrt.Script.{Script, Machine, note, printed, wrote, signal_sent, under, int}
use landscape_openwrt.Ip.{Ip}
use landscape_openwrt.Fixture.{dns_name, dns_a, dns_aaaa, command, inside}
use landscape_openwrt.Fixture.Address.{verify}
use landscape_openwrt.Fixture.Serve.{start_service}
use landscape_openwrt.Fixture.Management.{cleanup_client, management, public_management}

module _ (m : Machine) {Net Addr : Type 0} (ip : Ip Net Addr) where
  unfoldable pub check : Text → Text → Script (Unit {0})
  check name root = do
    lookup ← inside m name (words "nslookup" ++ dns_name ∷ words "127.0.0.1")
    lift (assert (is_inside dns_a lookup && is_inside dns_aaaa lookup) lookup)
    note (printed (codes "PASS: local dnsmasq resolves A and AAAA through the configured upstream"))
    address ← verify m name ip root
    command m (words "ping -6 -c 1 -W 3" ++ address ∷ [])
    public_management m name address
    management m name
    inside m name (words "sysctl -qw net.ipv6.conf.eth0.accept_ra=0 net.ipv6.conf.eth0.autoconf=0")
    inside m name (words "/etc/init.d/network restart")
    verify m name ip root
    note (printed (codes "PASS: netifd restart reapplies RA settings through hotplug"))
    note (wrote (under root (codes "prefix-stage")) (codes "2"))
    verify m name ip root
    note (printed (codes "PASS: prefix renewal deprecates the old source and selects the new one"))

-- The command line, parsed.
pub data Mode : Type 0 where
  serve stop : Text → Mode
  manage : Text → Mode
  check_all verify_one : Text → Text → Mode

abbrev one : (Text → Mode) → List Text → Result Mode
one mode [] = raise index_error
one mode (a ∷ args) = ok (mode a)

abbrev two : (Text → Text → Mode) → List Text → Result Mode
two mode (a ∷ b ∷ args) = ok (mode a b)
two mode args = raise index_error

-- `sys.argv`, from the mode on. Arguments behind those that are read are left alone.
unfoldable pub mode_of : List Text → Result Mode
mode_of [] = raise index_error
mode_of (mode ∷ args) =
    if mode == codes "serve"
    then one serve args
    else if mode == codes "stop"
    then one stop args
    else if mode == codes "management"
    then one manage args
    else if mode == codes "check"
    then two check_all args
    else if mode == codes "verify"
    then two verify_one args
    else raise (value_error unknown_mode)

module _ (m : Machine) where
  -- What `os.kill` raises, other than that the process is gone.
  abbrev pub pass_gone : Option Error → Result (Unit {0})
  pass_gone none = ok tt
  pass_gone (some (other_error name)) =
      if name == codes "ProcessLookupError" then ok tt else raise (other_error name)
  pass_gone (some e) = raise e

  unfoldable pub kill : ℕ → Script (Unit {0})
  kill pid log = (pass_gone (m.kill log pid), signal_sent pid ∷ log)

  -- The signal to the service whose number the file holds, if there is one.
  unfoldable pub stop_service : Option Text → Script (Unit {0})
  unfolding kill
  stop_service none = pure tt
  stop_service (some text) = do pid ← lift (int m text); kill pid

  unfoldable pub stop_fixture : Text → Script (Unit {0})
  stop_fixture root log =
      (stop_service (m.file log (under root (codes "network.pid"))) >> cleanup_client m) log

  -- `serve` up to its loop, which the module Service has.
  unfoldable pub run_mode : {Net Addr : Type 0} → Ip Net Addr → Mode → Script (Unit {0})
  run_mode ip (serve root) = do start_service m root; pure tt
  run_mode ip (stop root) = stop_fixture root
  run_mode ip (manage name) = management m name
  run_mode ip (check_all name root) = check m ip name root
  run_mode ip (verify_one name root) = do
    address ← verify m name ip root
    public_management m name address
