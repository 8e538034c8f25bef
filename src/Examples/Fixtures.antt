-- ===== src/Examples/Fixtures.antt =====
-- The fixture on the bench.
use landscape_openwrt.Base.{
  keep_if, ℕ, ◌+◌, ◌*◌, ◌≡◌, refl, ==_iff, true, false, some, [], ◌∷◌, arith, All, starts_with,
  after_prefix, if◌then◌else◌, strip, is_inside, Text, codes, ◌==◌, Option, ok,
}
use landscape_openwrt.Base.Dict
use landscape_openwrt.Json.{index, get, elements, to_list, to_dict, as_text}
use landscape_openwrt.Script.{Log, wrote, slept, process, sleep, read_file, second}
use landscape_openwrt.Fixture.{command, inside, commands}
use landscape_openwrt.Fixture.Address.{
  is_candidate, scan_addresses, scan_interfaces, look, wait_rounds, wait_address, expect, verify,
  stage_prefix,
}
use landscape_openwrt.Fixture.Address.Ends.{wait_address-ends}
use landscape_openwrt.Fixture.Address.Found.{IsVerified, verify-IsVerified}
use landscape_openwrt.Fixture.Management.{
  port_of, refuse_port, refuse_ports, management, reach_port, public_management,
}
use landscape_openwrt.Fixture.Advert.{advertisement}
use landscape_openwrt.Fixture.Main.{check}
use landscape_openwrt.Fixture.Resolver
use landscape_openwrt.Fixture.Resolver.Zone.{matches, zone, resolve-eq-keep_if}
use landscape_openwrt.Fixture.Checked.{ReadsBack, IsRenewed, check-IsRenewed}
use landscape_openwrt.Fixture.Serve.{Service, Step, advertise, signal, here, next}
use landscape_openwrt.Fixture.Serve.Renewal.{
  IsRenewal, advertisement-IsRenewal, Reach-renewals, Reach-stopped,
}
use landscape_openwrt.Upstreams.Version.{text_at}
use landscape_openwrt.Upstreams.Release.{get_or}
use landscape_openwrt.Upstreams.Registry.{has_key}
use landscape_openwrt.Examples.Compositions.{toy_ip}
use landscape_openwrt.Examples.Bench.{bench, last_written, bench-IsClock}

abbrev staged : Log
staged = wrote (codes "r/prefix-stage") (codes "1") ∷ []

wait_address-ends_example :
    wait_rounds bench (codes "c") (stage_prefix bench 1) (0 + 45 * second) 100 staged
    ≡ wait_address bench (codes "c") 1 staged
wait_address-ends_example =
    wait_address-ends bench (codes "c") 1 100 staged bench-IsClock (omega arith)

advertisement-IsRenewal_example : IsRenewal bench 2 (advertisement bench (codes "m") 2)
advertisement-IsRenewal_example = advertisement-IsRenewal bench (codes "m") 2

abbrev idle : Service
idle = record { log = staged; sent = []; stopped = false }

abbrev root : Text
root = codes "r"

abbrev mac : Text
mac = codes "m"

abbrev once : Service
once = record {
  log = slept (2 * second) ∷ staged;
  sent = advertisement bench mac 1 ∷ [];
  stopped = false;
}

advertised : Step bench root mac idle once
unfolding ◌==◌
advertised = advertise idle 1 refl (codes "1", refl, refl)

Reach-renewals_example : All (λ p. (stage : ℕ) × IsRenewal bench stage p) once.sent
Reach-renewals_example = Reach-renewals bench root mac idle once tt (next here advertised)

abbrev ended : Service
ended = record idle { stopped = true }

Reach-stopped_example : (ended.sent ≡ ended.sent) × (ended.stopped ≡ true)
Reach-stopped_example = Reach-stopped bench root mac ended ended refl (next here (signal ended))

verified :
    verify bench (codes "c") toy_ip root staged
    ≡ (ok (codes "2001:db8:80:1:5"), (verify bench (codes "c") toy_ip root staged).1)
unfolding verify expect wait_address wait_rounds look scan_interfaces scan_addresses is_candidate
    read_file inside command process sleep strip has_key get_or get index text_at as_text elements
    to_list to_dict starts_with ◌==◌ Dict.lookup
verified = refl

verify-IsVerified_example :
    IsVerified bench (codes "c") toy_ip root staged (codes "2001:db8:80:1:5")
verify-IsVerified_example =
    verify-IsVerified bench (codes "c") toy_ip root (codes "2001:db8:80:1:5") staged
      (verify bench (codes "c") toy_ip root staged).1 verified

if-same : (path text : Text) (x : Option Text) → (if path == path then some text else x) ≡ some text
if-same path text x = rw ((==_iff path path).1 refl) refl

reads_back : ReadsBack bench
reads_back = record {
  file_wrote = λ path text log. if-same path text (last_written path log);
  read_int_two = refl;
}

checked :
    check bench toy_ip (codes "c") root staged
    ≡ (ok tt, (check bench toy_ip (codes "c") root staged).1)
unfolding check public_management reach_port management port_of refuse_ports refuse_port is_inside
    after_prefix commands verify expect wait_address wait_rounds look scan_interfaces scan_addresses
    is_candidate read_file inside command process sleep strip has_key get_or get index text_at
    as_text elements to_list to_dict starts_with ◌==◌ Dict.lookup
checked = refl

check-IsRenewed_example :
    IsRenewed bench toy_ip (codes "c") root (check bench toy_ip (codes "c") root staged).1
check-IsRenewed_example =
    check-IsRenewed bench toy_ip (codes "c") root staged
      (check bench toy_ip (codes "c") root staged).1 reads_back checked

resolve-eq-keep_if_example :
    Resolver.resolve (codes "smoke.example.net.") 28
    ≡ keep_if (matches (codes "smoke.example.net.") 28) zone
resolve-eq-keep_if_example = resolve-eq-keep_if (codes "smoke.example.net.") 28
