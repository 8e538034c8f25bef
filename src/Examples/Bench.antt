-- ===== src/Examples/Bench.antt =====
-- A machine to run the scripts on: its container has the addresses that the stage asks for, its clock
-- counts the pauses, and a file holds what was last written to it.
use landscape_openwrt.Base.{
  ℕ, ◌+◌, ◌-◌, ◌≤◌, Bool, true, false, Option, none, some, List, [], ◌∷◌, ◌++◌, arith,
  if◌then◌else◌, Text, codes, ◌==◌,
}
use landscape_openwrt.Json.{Json, num, str, arr, obj, nil, cons, end, field}
use landscape_openwrt.Script.{exited, Reply, finished, Deed, slept, wrote, Log, Machine, IsClock}

abbrev pub has : Text → List Text → Bool
has word [] = false
has word (arg ∷ args) = let rest = has word args in if arg == word then true else rest

abbrev pub last_written : Text → Log → Option Text
last_written path [] = none
last_written path (wrote p text ∷ log) =
    let rest = last_written path log in if p == path then some text else rest
last_written path (d ∷ log) = last_written path log

abbrev pub time_of : Log → ℕ
time_of [] = 0
time_of (slept n ∷ log) = time_of log + n
time_of (d ∷ log) = time_of log

-- The stage file of the directory `r`.
abbrev stage_text : Log → Text
stage_text log = elim (last_written (codes "r/prefix-stage") log) [ some text ↦ text | none ↦ [] ]

abbrev address_of : Log → Text
address_of log = codes "2001:db8:80:" ++ (stage_text log ++ codes ":5")

abbrev say : Text → Reply
say text = finished (exited 0) text []

abbrev bench_reply : Log → List Text → Reply
bench_reply log args =
    if has (codes "-j") args
    then say (address_of log)
    else if has (codes "-gfsS") args
    then say (address_of log)
    else if has (codes "net.ipv6.conf.eth0.accept_ra") args
    then say (codes "2")
    else if has (codes "network.lan.ip6addr") args
    then say (codes "fd70:6c61:6e64:80::2/64")
    else if has (codes "nslookup") args
    then say (codes "1.1.1.1 2606:4700:4700::1111")
    else if has (codes "192.0.2.2") args
    then finished (exited 7) [] []
    else say (codes "0")

-- Every text is read as the one address of an interface.
abbrev bench_json : Text → Json
bench_json text = arr (
    cons
      (obj (
        field (codes "addr_info")
          (arr (
            cons
              (obj (
                field (codes "local") (str text)
                  (field (codes "preferred_life_time") (num 60) end)))
              nil))
          end))
      nil)

abbrev digit_of : Text → Option ℕ
digit_of (c ∷ []) = some (c - b'0')
digit_of s = none

abbrev pub bench : Machine
bench = record {
  run = λ log args input. bench_reply log args;
  launch = λ log args. none;
  poll = λ log args. none;
  ends = λ log args. true;
  kill = λ log pid. none;
  hwaddr = λ log interface. codes "02:00:00:00:00:01";
  pid = 7;
  uuid = codes "u";
  directory = codes "r";
  file = λ log path. last_written path log;
  clock = time_of;
  environ = λ name. none;
  python = codes "python3";
  loads = λ text. some (bench_json text);
  dumps = λ j. [];
  read_int = digit_of;
  show = λ n. (b'0' + n) ∷ [];
}

time_le : (d : Deed) (log : Log) → time_of log ≤ time_of (d ∷ log)
time_le (slept n) log = omega arith
time_le _ log = omega arith

pub bench-IsClock : IsClock bench
bench-IsClock = record { clock_le = time_le; clock_slept = λ n log. omega arith }
