-- ===== src/Fixture/Address.antt =====
-- `wait_address` and `verify` of scripts/network-fixture.py.
pub mod Ends
pub mod Found
use landscape_openwrt.Base.{
  ℕ, zero, suc, ◌+◌, ◌*◌, Bool, true, false, not, ◌&&◌, Option, none, some, List, [], ◌∷◌, ◌++◌,
  if◌then◌else◌, ltb, Text, codes, words, ◌==◌, starts_with, Error, assertion_error, type_error,
  assert, Result, ok, raise,
}
use landscape_openwrt.Base.{◌>>=◌ as bind}
use landscape_openwrt.Json.{Json, num, bool, arr, nil, index, elements}
use landscape_openwrt.Action.{pure, throw, lift, ◌>>=◌, ◌>>◌}
use landscape_openwrt.Script.{
  Script, Machine, sleep, second, read_file, load, int, under, note, printed,
}
use landscape_openwrt.Ip.{Ip}
use landscape_openwrt.Upstreams.Version.{text_at}
use landscape_openwrt.Upstreams.Release.{get_or}
use landscape_openwrt.Upstreams.Registry.{has_key}
use landscape_openwrt.Fixture.{target, inside}

-- `value > 0`, for a value that is a number or a Boolean.
abbrev pub is_positive : Json → Result Bool
is_positive (num n) = ok (ltb 0 n)
is_positive (bool b) = ok b
is_positive _ = raise type_error

-- `test and rest`, where the rest may raise.
abbrev pub and_then : Bool → Result Bool → Result Bool
and_then true rest = rest
and_then false rest = ok false

-- The test of an address, up to the setting of the interface.
unfoldable pub is_candidate : Text → Json → Result Bool
is_candidate prefix address = bind (text_at (codes "local") address) λ local.
    and_then (starts_with local prefix) (
      bind (get_or address (codes "preferred_life_time") (num 0)) λ lifetime.
        bind (is_positive lifetime) λ preferred. and_then preferred (
          bind (has_key (codes "tentative") address) λ tentative.
            and_then (not tentative)
              (bind (has_key (codes "dadfailed") address) λ failed. ok (not failed))))

abbrev pub no_address : Error
no_address = assertion_error (codes "No preferred dynamic address")

-- What follows a search that may have found an address: the return, or the rest.
abbrev pub return_or : Option Text → Script Text → Script Text
return_or (some local) rest = pure local
return_or none rest = rest

abbrev pub stop_at : Option Text → Script (Option Text) → Script (Option Text)
stop_at (some local) rest = pure (some local)
stop_at none rest = rest

-- 45 seconds take at most 23 pauses of 2 seconds.
abbrev pub most_rounds : ℕ
most_rounds = 23

-- The addresses of an interface.
abbrev pub addresses_of : Json → Result (List Json)
addresses_of iface = bind (get_or iface (codes "addr_info") (arr nil)) elements

-- `f'2001:db8:80:{stage}:'`
abbrev pub stage_prefix : Machine → ℕ → Text
stage_prefix m stage = codes "2001:db8:80:" ++ (m.show stage ++ codes ":")

abbrev pub show_command : List Text
show_command = words "ip -j -6 addr show dev eth0"

-- The request to the target, which answers with the address that it came from.
abbrev pub source_command : List Text
source_command =
    words "curl --noproxy * -gfsS --max-time 10"
    ++ (codes "http://[" ++ (target ++ codes "]:18081/")) ∷ []

module _ (m : Machine) (name : Text) where
  abbrev pub accept_ra : Script Text
  accept_ra = inside m name (words "sysctl -n net.ipv6.conf.eth0.accept_ra")

  -- The inner loop.
  unfoldable pub scan_addresses : Text → List Json → Script (Option Text)
  scan_addresses prefix [] = pure none
  scan_addresses prefix (address ∷ more) =
      let rest = scan_addresses prefix more in
      do
        candidate ← lift (is_candidate prefix address)
        if candidate
            then (do
              setting ← accept_ra
              if setting == codes "2"
                  then (do local ← lift (text_at (codes "local") address); pure (some local))
                  else rest)
            else rest

  -- The loop over the interfaces.
  unfoldable pub scan_interfaces : Text → List Json → Script (Option Text)
  scan_interfaces prefix [] = pure none
  scan_interfaces prefix (iface ∷ more) =
      let rest = scan_interfaces prefix more in
      do
        addresses ← lift (addresses_of iface)
        found ← scan_addresses prefix addresses
        stop_at found rest

  -- The body of the `while` loop, up to the pause.
  unfoldable pub look : Text → Script (Option Text)
  look prefix = do
    text ← inside m name show_command
    shown ← lift (load m text)
    interfaces ← lift (elements shown)
    scan_interfaces prefix interfaces

  -- The `while` loop, with the rounds that it may still take.
  unfoldable pub wait_rounds : Text → ℕ → ℕ → Script Text
  wait_rounds prefix deadline zero log = throw no_address log
  wait_rounds prefix deadline (suc rounds) log =
      let rest = wait_rounds prefix deadline rounds in
      (if ltb (m.clock log) deadline
          then (do found ← look prefix; return_or found (do sleep m (2 * second); rest))
          else throw no_address)
        log

  unfoldable pub wait_address : ℕ → Script Text
  wait_address stage log =
      wait_rounds (stage_prefix m stage) (m.clock log + 45 * second) most_rounds log

  -- `assert inside(name, *args) == text`
  unfoldable pub expect : List Text → Text → Script (Unit {0})
  expect args text = do found ← inside m name args; lift (assert (found == text) [])

  unfoldable pub verify : {Net Addr : Type 0} → Ip Net Addr → Text → Script Text
  verify ip root = do
    text ← read_file m (under root (codes "prefix-stage"))
    stage ← lift (int m text)
    address ← wait_address stage
    expect (words "sysctl -n net.ipv6.conf.eth0.accept_ra") (codes "2")
    expect (words "sysctl -n net.ipv6.conf.eth0.accept_ra_defrtr") (codes "0")
    expect (words "uci get network.lan.ip6addr") (codes "fd70:6c61:6e64:80::2/64")
    result ← inside m name source_command
    seen ← lift (ip.address result)
    own ← lift (ip.address address)
    lift (assert (ip.same_address seen own) [])
    note (
        printed (
          codes "PASS: SLAAC prefix "
          ++ (m.show stage ++ codes ", static Docker gateway and dynamic public source")))
    pure address
