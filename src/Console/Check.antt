-- ===== src/Console/Check.antt =====
-- `check` and the command line of scripts/test-console.py.
use landscape_openwrt.Base.{
  Bool, true, false, not, ◌&&◌, ◌||◌, all, Option, none, some, List, [], ◌∷◌, ◌++◌, eqb,
  if◌then◌else◌, Text, codes, words, ◌==◌, strip, splitlines, split_words, starts_with, is_inside,
  assert, Result, ok, raise, other_error,
}
use landscape_openwrt.Base.{◌>>=◌ as bind}
use landscape_openwrt.Json.{Json, num, bool, arr, nil, cons, index, elements, truthy}
use landscape_openwrt.Action.{pure, lift, ◌>>=◌, ◌>>◌}
use landscape_openwrt.Script.{Log, Script, Machine, note, printed, check_output, load}
use landscape_openwrt.Console.{cmdline}

-- The chunks up to the first empty one, which ends the stream.
unfoldable pub stream_of : List Text → Text
stream_of [] = []
stream_of ([] ∷ chunks) = []
stream_of ((c ∷ chunk) ∷ chunks) = (c ∷ chunk) ++ stream_of chunks

-- `value == 0`
abbrev pub is_zero : Json → Bool
is_zero (num n) = eqb n 0
is_zero (bool b) = not b
is_zero _ = false

-- `value == [0, 0]`
abbrev pub are_zeros : Json → Bool
are_zeros (arr (cons a (cons b nil))) = is_zero a && is_zero b
are_zeros _ = false

abbrev pub check_status : Json → Result (Unit {0})
check_status status = bind (index status (codes "received_bytes")) λ received.
    bind (assert (are_zeros received) []) λ _.
      bind (index status (codes "termios_unchanged"))
        λ unchanged. bind (elements unchanged) λ flags. assert (all truthy flags) []

abbrev pub is_login : Text → Bool
is_login command =
    command == codes "askfirst"
    || command == codes "agetty"
    || command == codes "getty"
    || command == codes "login"

abbrev pub is_console : Text → Bool
is_console terminal =
    starts_with terminal (codes "ttyS")
    || starts_with terminal (codes "tty1")
    || starts_with terminal (codes "hvc")

-- `_, _, terminal, command = line.split()`
abbrev pub fields_of : List Text → Result (Text × Text)
fields_of (pid ∷ ppid ∷ terminal ∷ command ∷ []) = ok (terminal, command)
fields_of _ = raise (other_error (codes "ValueError"))

unfoldable pub check_line : Text → Result (Unit {0})
check_line line = bind (fields_of (split_words line)) λ (terminal, command).
    bind (assert (not (is_login command)) line) λ _. assert (not (is_console terminal)) line

unfoldable pub check_lines : List Text → Result (Unit {0})
check_lines [] = ok tt
check_lines (line ∷ more) = let rest = check_lines more in bind (check_line line) λ _. rest

-- The lines but the first.
abbrev pub tail_of : List Text → List Text
tail_of [] = []
tail_of (line ∷ more) = more

abbrev pub inittab : List Text
inittab =
    codes "::sysinit:/etc/init.d/rcS S boot" ∷ codes "::shutdown:/etc/init.d/rcS K shutdown" ∷ []

abbrev pub same_lines : List Text → List Text → Bool
same_lines [] [] = true
same_lines (a ∷ rest) (b ∷ others) = a == b && same_lines rest others
same_lines _ _ = false

module _ (m : Machine) where
  unfoldable pub inside : Text → List Text → Script Text
  inside name args = do
    output ← check_output m (words "docker exec" ++ name ∷ args)
    pure (strip output)

  abbrev pub top_command : Text → List Text
  top_command name = words "docker top" ++ name ∷ words "-eo pid,ppid,tty,comm"

  -- The checks of a running container.
  unfoldable pub check_container : Text → Script (Unit {0})
  check_container name = do
    inside name (words "/usr/libexec/landscape-console --check")
    kernel ← inside name (words "cat /proc/cmdline")
    lift (assert (kernel == cmdline) [])
    table ← inside name (words "cat /etc/inittab")
    lift (assert (same_lines (splitlines table) inittab) [])
    first ← inside name (words "cat /proc/1/comm")
    lift (assert (first == codes "procd") [])
    top ← check_output m (top_command name)
    lift (check_lines (tail_of (splitlines top)))
    output ← check_output m (
        words "docker exec -t"
        ++ name ∷ words "sh -ec"
        ++ codes "test -t 0; test -t 1; readlink /proc/self/fd/0" ∷ [])
    lift (assert (starts_with (strip output) (codes "/dev/pts/")) (strip output))
    inside name (words "logger -t console-smoke" ++ codes "container syslog remains available" ∷ [])
    logged ← inside name (words "logread")
    lift (assert (is_inside (codes "container syslog remains available") logged) [])

  -- `if name:`
  abbrev pub is_named : Option Text → Bool
  is_named none = false
  is_named (some []) = false
  is_named (some (c ∷ name)) = true

  abbrev pub check_named : Option Text → Script (Unit {0})
  check_named none = pure tt
  check_named (some []) = pure tt
  check_named (some (c ∷ name)) = check_container (c ∷ name)

  -- `receive` is what the calls of `recv` return, one after the other, or what raises.
  unfoldable pub check : (Log → Result (List Text)) → Option Text → Script (Unit {0})
  check receive name = do
    chunks ← (λ log. lift (receive log) log)
    status ← lift (load m (stream_of chunks))
    lift (check_status status)
    check_named name
    note (
        printed (
          codes "PASS: host serial/VT PTYs receive no data or termios changes"
          ++ (if is_named name
              then codes "; procd, container PTY and syslog remain available"
              else codes " after container shutdown")))

-- The command line: the directory, and for a check the name of a container.
pub data Mode : Type 0 where
  serve : Text → Mode
  check_with : Text → Option Text → Mode

abbrev first_of : List Text → Option Text
first_of [] = none
first_of (a ∷ args) = some a

-- `sys.argv` behind the name of the script.
unfoldable pub mode_of : List Text → Result Mode
mode_of (action ∷ directory ∷ args) =
    if action == codes "serve"
    then ok (serve directory)
    else if action == codes "check"
    then ok (check_with directory (first_of args))
    else raise (other_error (codes "SystemExit"))
mode_of _ = raise (other_error (codes "ValueError"))
