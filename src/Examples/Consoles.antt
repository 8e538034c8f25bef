-- ===== src/Examples/Consoles.antt =====
-- The console probe, and a container with two processes.
use landscape_openwrt.Base.{
  ℕ, ◌≡◌, refl, true, none, some, List, [], ◌∷◌, ◌++◌, eqb, if◌then◌else◌, Text, codes, ◌==◌, strip,
  splitlines, split_words, lines_from, is_line_end, words_from, is_inside, starts_with,
  after_prefix, Result, ok,
}
use landscape_openwrt.Base.Dict
use landscape_openwrt.Json.{index, elements, truthy, to_list, to_dict}
use landscape_openwrt.Script.{Log, Machine, exited, finished, process, check_output}
use landscape_openwrt.Console.{status_of}
use landscape_openwrt.Console.Serve.{Probe, round, pass, here, next, begin}
use landscape_openwrt.Console.Check.{
  stream_of, check_line, check_lines, inside, check_container, check,
}
use landscape_openwrt.Console.Untouched.{arrived, check-untouched}
use landscape_openwrt.Console.Managed.{IsManaged, check_container-IsManaged}
use landscape_openwrt.Examples.Bench.{bench, has}

-- Attributes as numbers.
abbrev idle : Probe ℕ eqb
idle = begin ℕ eqb (3, 4)

abbrev noisy : Probe ℕ eqb
noisy = round ℕ eqb (some (codes "ab"), none) none idle

-- A machine that reads every text as the status of untouched terminals.
abbrev reader : Machine
reader = record bench { loads = λ text. some (status_of (0, 0) (true, true)) }

abbrev stream : Log → Result (List Text)
stream log = ok (codes "{}" ∷ [] ∷ [])

accepted : check reader stream none [] ≡ (ok tt, (check reader stream none []).1)
unfolding check stream_of index elements truthy to_list to_dict ◌==◌ Dict.lookup
accepted = refl

check-untouched_example :
    (arrived ℕ eqb idle
        (round ℕ eqb (none, none) (some (3, 4)) idle)
        (next here (pass idle (none, none) (some (3, 4)) refl))
      ≡ 0)
    × (eqb 3 3 ≡ true)
    × (eqb 4 4 ≡ true)
check-untouched_example =
    check-untouched reader stream none ℕ eqb (3, 4) (3, 4) idle (none, none) []
      (check reader stream none []).1 (codes "{}" ∷ [] ∷ []) here refl refl refl accepted

abbrev line_feed : Text
line_feed = 10 ∷ []

abbrev listed : Text
listed =
    codes "PID PPID TT COMMAND"
    ++ (line_feed ++ (codes "1 0 ? procd" ++ (line_feed ++ codes "2 1 ? dnsmasq")))

abbrev output_of : List Text → Text
output_of args =
    if has (codes "/proc/cmdline") args
    then codes "console=ttyS0,115200n8"
    else if has (codes "/etc/inittab") args
    then codes "::sysinit:/etc/init.d/rcS S boot"
      ++ (line_feed ++ codes "::shutdown:/etc/init.d/rcS K shutdown")
    else if has (codes "/proc/1/comm") args
    then codes "procd"
    else if has (codes "top") args
    then listed
    else if has (codes "-ec") args
    then codes "/dev/pts/0"
    else codes "container syslog remains available"

abbrev host : Machine
host = record bench { run = λ log args input. finished (exited 0) (output_of args) [] }

passed : check_container host (codes "c") [] ≡ (ok tt, (check_container host (codes "c") []).1)
unfolding check_container inside check_output process strip check_lines check_line splitlines
    split_words starts_with after_prefix is_inside ◌==◌ lines_from is_line_end words_from
passed = refl

check_container-IsManaged_example : IsManaged host (codes "c") tt
check_container-IsManaged_example =
    check_container-IsManaged host (codes "c") [] (check_container host (codes "c") []).1 passed
