-- ===== src/FlowExit.antt =====
-- scripts/test-flow-exit.py: the test of PassWall and the route handler with an isolated exit. Timeouts
-- of commands are the machine's, which answers with the exception.
pub mod Topology
pub mod Traffic
pub mod Config
pub mod Body
pub mod Undo
pub mod Main
pub mod Steps
pub mod Cleanup
use landscape_openwrt.Base.{
  Bool, true, false, ◌&&◌, Option, none, some, List, [], ◌∷◌, ◌++◌, eqb, if◌then◌else◌, Text, codes,
  words, strip, runtime_error, Result, ok,
}
use landscape_openwrt.Base.{◌>>=◌ as bind}
use landscape_openwrt.Base.Dict.{Dict}
use landscape_openwrt.Action.{pure, throw, ◌>>=◌, ◌>>◌}
use landscape_openwrt.Script.{Script, Machine, Exit, is_success, process}
use landscape_openwrt.Ip.{Ip}

abbrev pub wan : Text
wan = codes "ld-owrt-wan"

abbrev pub wan_link : Text
wan_link = codes "ld-owrt-wan0"

abbrev pub lan_link : Text
lan_link = codes "ld-owrt-lan0"

abbrev pub client : Text
client = codes "ld-owrt-lan"

abbrev pub bridge : Text
bridge = codes "ld-owrt-test"

abbrev pub remote4 : Text
remote4 = codes "93.184.216.34"

abbrev pub remote6 : Text
remote6 = codes "2606:4700:ffff::34"

-- `address.ipv4_mapped if address.version == 6 and address.ipv4_mapped else address`
abbrev pub unmapped : {Net Addr : Type 0} → Ip Net Addr → Addr → Addr
unmapped ip address =
    if eqb (ip.address_version address) 6
    then elim (ip.ipv4_mapped address) [ some inner ↦ inner | none ↦ address ]
    else address

-- `ip(value)`
unfoldable pub ip_of : {Net Addr : Type 0} → Ip Net Addr → Text → Result Addr
ip_of ip value = bind (ip.address (strip value)) λ address. ok (unmapped ip address)

-- The arguments of `docker exec -i name`.
abbrev pub exec_args : Text → List Text → List Text
exec_args name args = words "docker exec -i" ++ name ∷ args

module _ (m : Machine) where
  -- `run(*args, data=data)`, which raises if the command fails.
  unfoldable pub run_with : List Text → Option Text → Script Text
  unfolding process
  run_with args input = do
    (e, out, err) ← process m args input
    if is_success e then pure (strip out) else throw (runtime_error err)

  abbrev pub run : List Text → Script Text
  run args = run_with args none

  -- `run(*args, check=False)`
  abbrev pub attempt : List Text → Script (Exit × Text × Text)
  attempt args = process m args none

  abbrev pub inside : Text → List Text → Script Text
  inside name args = run (exec_args name args)

  unfoldable pub run_all : List (List Text) → Script (Unit {0})
  run_all [] = pure tt
  run_all (args ∷ more) = do run args; run_all more

  -- `uci set` for each of the values.
  unfoldable pub set_values : Text → Dict Text → Script (Unit {0})
  set_values name [] = pure tt
  set_values name ((key, value) ∷ more) = do
    inside name (words "uci set" ++ (codes "passwall." ++ (key ++ (codes "=" ++ value))) ∷ [])
    set_values name more

  unfoldable pub uci : Text → Dict Text → Script (Unit {0})
  uci name values = do set_values name values; inside name (words "uci commit passwall"); pure tt
