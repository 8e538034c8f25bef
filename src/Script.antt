-- ===== src/Script.antt =====
-- What the scripts that drive `docker`, `ip` and the services of a running image have in common: a run
-- is the list of what the script has done, the last deed first, and all that the machine answers may
-- depend on it.
pub mod Laws
pub mod Does
use landscape_openwrt.Base.{
  ℕ, ◌+◌, ◌*◌, ◌^◌, ◌≤◌, ◌≡◌, Bool, true, false, Option, none, some, List, [], ◌∷◌, ◌++◌, eqb,
  if◌then◌else◌, Text, codes, strip, Error, process_error, runtime_error, assertion_error,
  value_error, invalid_json, invalid_literal, other_error, key_error, Result, ok, raise,
}
use landscape_openwrt.Json.{Json}
use landscape_openwrt.Action.{Action, pure, throw, lift, ◌>>=◌, ◌>>◌}

-- How a process ended: `returncode`, where a signal is a negative number.
pub data Exit : Type 0 where
  exited signalled : ℕ → Exit

-- The outcome of `subprocess.run` and its like: the exit with both outputs, or what is raised when the
-- process does not end in time, cannot be started or prints no text.
pub data Reply : Type 0 where
  finished : Exit → Text → Text → Reply
  failed : Error → Reply

-- What a script does to the machine. A time is counted in nanoseconds.
pub data Deed : Type 0 where
  -- A process that is waited for, with its arguments and its input.
  ran : List Text → Option Text → Deed
  -- A process in the background, its signal to end, its signal to end at once.
  launched terminated killed : List Text → Deed
  -- `os.kill(pid, SIGTERM)`
  signal_sent : ℕ → Deed
  slept : ℕ → Deed
  wrote : Text → Text → Deed
  printed complained : Text → Deed
  -- A URL that is opened, with its form data, and an SSH connection to a host with a password.
  opened : Text → Text → Deed
  connected : Text → Text → Deed
  -- A connection to a port of a host that is tried.
  reached : Text → ℕ → Deed

abbrev pub Log : Type 0
Log = List Deed

abbrev pub Script : Type 0 → Type 0
Script A = Action Log A

-- What the scripts call and do not implement.
pub record Machine : Type 0 where
  pub run : Log → List Text → Option Text → Reply
  -- What starting a process in the background raises, if it does.
  pub launch : Log → List Text → Option Error
  -- `process.poll()` of a process in the background, and whether it ends within a time after its signal.
  pub poll : Log → List Text → Option Exit
  pub ends : Log → List Text → Bool
  -- What `os.kill` of a process raises, and the hardware address of an interface.
  pub kill : Log → ℕ → Option Error
  pub hwaddr : Log → Text → Text
  -- `os.getpid()`, `str(uuid.uuid4())` and the name of the temporary directory.
  pub pid : ℕ
  pub uuid : Text
  pub directory : Text
  -- The content of a file, `none` if there is no such file.
  pub file : Log → Text → Option Text
  -- `time.monotonic()`
  pub clock : Log → ℕ
  pub environ : Text → Option Text
  -- `sys.executable`
  pub python : Text
  pub loads : Text → Option Json
  pub dumps : Json → Text
  -- `int(text)` and `str(number)`, for numbers that are not negative.
  pub read_int : Text → Option ℕ
  pub show : ℕ → Text

-- The documented behaviour of the clock.
pub record IsClock (m : Machine) : Type 0 where
  pub clock_le : (d : Deed) (log : Log) → m.clock log ≤ m.clock (d ∷ log)
  pub clock_slept : (n : ℕ) (log : Log) → m.clock log + n ≤ m.clock (slept n ∷ log)

abbrev pub second : ℕ
second = 10 ^ 9

abbrev pub note : Deed → Script (Unit {0})
note d log = (ok tt, d ∷ log)

abbrev pub is_success : Exit → Bool
is_success (exited n) = eqb n 0
is_success (signalled n) = false

abbrev pub has_status : ℕ → Exit → Bool
has_status n (exited k) = eqb k n
has_status n (signalled k) = false

-- `open(path).read()`, or its exception.
unfoldable pub not_found : Error
not_found = other_error (codes "FileNotFoundError")

-- `first / second` of paths.
abbrev pub under : Text → Text → Text
under root name = root ++ (codes "/" ++ name)

abbrev pub reply_of : Reply → Result (Exit × Text × Text)
reply_of (finished e out err) = ok (e, out, err)
reply_of (failed e) = raise e

abbrev pub file_of : Option Text → Result Text
file_of (some text) = ok text
file_of none = raise not_found

module _ (m : Machine) where
  -- `subprocess.run(args, input=input, capture_output=True)`
  unfoldable pub process : List Text → Option Text → Script (Exit × Text × Text)
  process args input log = (reply_of (m.run log args input), ran args input ∷ log)

  -- `subprocess.check_output(args)`
  unfoldable pub check_output : List Text → Script Text
  unfolding process
  check_output args = do
    (e, out, _) ← process args none
    if is_success e then pure out else throw process_error

  -- `subprocess.Popen(args)`
  unfoldable pub popen : List Text → Script (Unit {0})
  popen args log = elim (m.launch log args) [
    | none ↦ (ok tt, launched args ∷ log)
    | some e ↦ (raise e, log)
  ]

  unfoldable pub sleep : ℕ → Script (Unit {0})
  sleep n = note (slept n)

  unfoldable pub read_file : Text → Script Text
  read_file path log = (file_of (m.file log path), log)

  abbrev pub load : Text → Result Json
  load text = elim (m.loads text) [ some j ↦ ok j | none ↦ raise (value_error invalid_json) ]

  abbrev pub int : Text → Result ℕ
  int text = elim (m.read_int text) [ some n ↦ ok n | none ↦ raise (value_error invalid_literal) ]

  -- `os.environ[key]`
  abbrev pub environ_of : Text → Result Text
  environ_of key = elim (m.environ key) [ some value ↦ ok value | none ↦ raise (key_error key) ]
