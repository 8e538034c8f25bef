-- ===== src/Fixture.antt =====
-- scripts/network-fixture.py: the isolated DNS and router advertisement fixture of the smoke test, and
-- its checks of a running container.
pub mod Laws
pub mod Resolver
pub mod Advert
pub mod Address
pub mod Management
pub mod Serve
pub mod Main
pub mod Checked
use landscape_openwrt.Base.{
  true, false, none, some, List, [], ◌∷◌, ◌++◌, if◌then◌else◌, Text, codes, words, strip,
  process_error,
}
use landscape_openwrt.Action.{pure, throw, ◌>>=◌, ◌>>◌}
use landscape_openwrt.Script.{Script, Machine, complained, note, is_success, process}

abbrev pub bridge : Text
bridge = codes "ld-owrt-test"

abbrev pub client : Text
client = codes "ld-owrt-lan"

abbrev pub client_link : Text
client_link = codes "ld-owrt-lan0"

abbrev pub target : Text
target = codes "2001:db8:ffff::1"

abbrev pub dns_name : Text
dns_name = codes "smoke.example.net"

abbrev pub dns_a : Text
dns_a = codes "1.1.1.1"

abbrev pub dns_aaaa : Text
dns_aaaa = codes "2606:4700:4700::1111"

module _ (m : Machine) where
  -- The error output of the process stands in its output; on a failure it is printed.
  unfoldable pub command : List Text → Script Text
  unfolding process strip
  command args = do
    (e, out, _) ← process m args none
    if is_success e then pure (strip out) else (do note (complained out); throw process_error)

  unfoldable pub inside : Text → List Text → Script Text
  inside name args = command (words "docker exec" ++ name ∷ args)

  -- A list of commands, one after the other.
  unfoldable pub commands : List (List Text) → Script (Unit {0})
  commands [] = pure tt
  commands (args ∷ more) = do command args; commands more
