-- ===== src/Io.antt =====
-- The effects of scripts/upstreams.py, on the run so far.
pub mod Disk
use landscape_openwrt.Base.{
  ℕ, List, [], ◌∷◌, ◌++◌, length, none, some, Text, Bytes, Headers, Error, ok, raise, other_error,
}
use landscape_openwrt.Platform.{Platform, Float}
use landscape_openwrt.Action.{Action}
pub use landscape_openwrt.Action.{pure, throw, lift, ◌>>=◌, ◌>>◌}

-- What the program does to the world around it.
pub data Event : Type 0 where
  opened : Text → Headers → Event
  -- The warning of a retry: URL, last error, delay and the number of the retry.
  warned : Text → Error → Float → ℕ → Event
  slept : ℕ → Event
  -- The notice about newer releases that were passed over.
  noticed : List Text → Text → Event
  made_dir : Text → Event
  wrote : Text → Bytes → Event
  appended : Text → Text → Event
  made_executable : Text → Event
  -- A write to this path failed: it may have written a part.
  broke_off : Text → Event
  printed : Text → Event

-- The run so far: requests made, random numbers drawn, and the events, the last one first.
pub record World : Type 0 where
  pub calls : ℕ
  pub draws : ℕ
  pub log : List Event

abbrev pub start : World
start = record { calls = 0; draws = 0; log = [] }

abbrev pub Io : Type 0 → Type 0
Io A = Action World A

abbrev pub emit : Event → Io (Unit {0})
emit e w = (ok tt, record w { log = e ∷ w.log })

-- An operation on a path, which the system may refuse; then only `left` took place.
unfoldable pub touch : Platform → Text → Event → List Event → Io (Unit {0})
touch py path event left w = elim (py.refused (length w.log) path) [
  | none ↦ (ok tt, record w { log = event ∷ w.log })
  | some name ↦ (raise (other_error name), record w { log = left ++ w.log })
]

-- `Path(path).mkdir(parents=True, exist_ok=True)`
abbrev pub make_dir : Platform → Text → Io (Unit {0})
make_dir py path = touch py path (made_dir path) []

-- `Path(path).write_bytes(content)`
abbrev pub write_bytes : Platform → Text → Bytes → Io (Unit {0})
write_bytes py path content = touch py path (wrote path content) (broke_off path ∷ [])

-- A text at the end of a file, which is made if there is none.
abbrev pub append_text : Platform → Text → Text → Io (Unit {0})
append_text py path text = touch py path (appended path text) (broke_off path ∷ [])

-- `Path(path).chmod(0o755)`
abbrev pub make_executable : Platform → Text → Io (Unit {0})
make_executable py path = touch py path (made_executable path) []
